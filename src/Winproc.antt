-- ===== src/Winproc.antt =====
-- environment/winproc/invocation.go: from the variables of a server to the arguments of its process.
pub mod Quoting
pub mod Lookup
pub mod ChildEnv
pub mod Process
mod Examples
use feathers.Prelude.{
  ◌⊎◌, inl, inr, ℕ, Bool, true, false, not, ◌&&◌, ◌||◌, Option, none, some, List, [], ◌∷◌, ◌++◌,
  ◌==◌, if◌then◌else◌,
}
use feathers.Prelude.Text.{Text, codes, text_eq}

-- A piece up to the first "=" and the rest behind it, or none without one.
unfoldable pub cut : Text → Option (Text × Text)
cut [] = none
cut (c ∷ cs) =
    let rest = cut cs in
    if c == b'=' then some ([], cs) else elim rest [ none ↦ none | some p ↦ some (c ∷ p.0, p.1) ]

-- A Go map from texts to texts: the entries, newest first.
abbrev pub Env : Type 0
Env = List (Text × Text)

-- `env[key]`: the empty text for a key that is missing.
unfoldable pub get : Text → Env → Text
get k [] = []
get k ((j, v) ∷ m) = let rest = get k m in if text_eq j k then v else rest

-- One round of the loop of `envMap`.
unfoldable pub put : Text → Env → Env
unfolding cut
put kv m = elim (cut kv) [ none ↦ m | some p ↦ (p.0, p.1) ∷ m ]

unfoldable pub env_map_from : List Text → Env → Env
unfolding put
env_map_from [] m = m
env_map_from (kv ∷ vars) m = env_map_from vars (put kv m)

unfoldable pub env_map : List Text → Env
unfolding env_map_from
env_map vars = env_map_from vars []

unfoldable pub is_quote : ℕ → Bool
is_quote r = r == b'\'' || r == b'"'

unfoldable pub is_space : ℕ → Bool
is_space r = r == 32 || r == 9 || r == 13 || r == 10

-- The variables of the loop of `tokenize`: `quote` is none when it is 0, and `cur` holds what was
-- written.
pub record Lexer : Type 0 where
  pub args : List Text
  pub cur : Text
  pub in_arg : Bool
  pub quote : Option ℕ

-- The end of an argument.
unfoldable pub flush : Lexer → Lexer
flush l =
    if l.in_arg
    then record { args = l.args ++ l.cur ∷ []; cur = []; in_arg = false; quote = l.quote }
    else l

unfoldable pub unquoted : ℕ → Lexer → Lexer
unfolding is_quote is_space flush
unquoted r l =
    if is_quote r
    then record l { quote = some r; in_arg = true }
    else if is_space r
    then flush l
    else record l { cur = l.cur ++ r ∷ []; in_arg = true }

-- One round of the loop of `tokenize`. A quote rune is never 0.
unfoldable pub feed_quoted : Option ℕ → ℕ → Lexer → Lexer
unfolding unquoted
feed_quoted none r l = unquoted r l
feed_quoted (some q) r l =
    if r == q then record l { quote = none } else record l { cur = l.cur ++ r ∷ [] }

unfoldable pub feed : Lexer → Text → Lexer
unfolding feed_quoted
feed l [] = l
feed l (r ∷ rs) = feed (feed_quoted l.quote r l) rs

abbrev pub fresh : Lexer
fresh = record { args = []; cur = []; in_arg = false; quote = none }

unfoldable pub tokenize : Text → List Text
unfolding feed flush
tokenize s = (flush (feed fresh s)).args

-- `strings.TrimSpace(s) == ""`, for ASCII.
unfoldable pub is_blank : Text → Bool
is_blank [] = true
is_blank (c ∷ cs) = (c == 32 || c == 9 || c == 10 || c == 11 || c == 12 || c == 13) && is_blank cs

pub data Failure : Type 0 where
  no_startup empty_argv : Failure

-- The regexp library at the pattern of a placeholder: `ReplaceAllStringFunc`, and the name in
-- `FindStringSubmatch` of a token.
module _ (replace_all : Text → (Text → Text) → Text) (submatch : Text → Option Text) where
  unfoldable pub substitute_placeholders : Text → Env → Text
  unfolding get
  substitute_placeholders s env =
      replace_all s (λ tok. elim (submatch tok) [ none ↦ tok | some name ↦ get name env ])

  unfoldable pub build_command : List Text → Failure ⊎ List Text
  unfolding env_map tokenize is_blank get substitute_placeholders
  build_command vars =
      let env = env_map vars in
      let startup = get (codes "STARTUP") env in
      let argv = tokenize (substitute_placeholders startup env) in
      if is_blank startup
      then inl no_startup
      else elim argv [ [] ↦ inl empty_argv | a ∷ rest ↦ inr (a ∷ rest) ]
