-- ===== src/Winproc/Quoting.antt =====
-- Quoted arguments and `tokenize` of environment/winproc/invocation.go.
use feathers.Prelude.{
  subst, ℕ, ◌≡◌, refl, sym, ap, ◌∙◌, true, false, none, some, List, [], ◌∷◌, ◌++◌, arith, ◌==◌,
  Bool-cases, inl, inr,
}
use feathers.Prelude.Text.{Text, Without}
use feathers.Winproc.{Lexer, feed, feed_quoted, unquoted, flush, tokenize, is_quote, is_space}
use mathlib.Core.List.{append_assoc, append-nil}

-- Words in the given quotes, a space behind each.
abbrev pub quoted : ℕ → List Text → Text
quoted q [] = []
quoted q (w ∷ ws) = q ∷ w ++ q ∷ 32 ∷ quoted q ws

feed-append : (a b : Text) (l : Lexer) → feed l (a ++ b) ≡ feed (feed l a) b
unfolding feed
feed-append [] b l = refl
feed-append (r ∷ rs) b l = feed-append rs b _

-- Inside quotes every other rune is kept.
inside :
    (q : ℕ) (w : Text) (args : List Text) (cur : Text)
    → Without q w
    → feed (record { args = args; cur = cur; in_arg = true; quote = some q }) w
      ≡ record { args = args; cur = cur ++ w; in_arg = true; quote = some q }
unfolding feed feed_quoted
inside q [] args cur free = rw (append-nil cur) refl
inside q (r ∷ rs) args cur free = elim (Bool-cases (r == q)) [
  | inl same ↦ absurd (ground (arith, free.0))
  | inr other ↦ rw other (
      subst
        (λ t.
          feed (record { args = args; cur = cur ++ r ∷ []; in_arg = true; quote = some q }) rs
          ≡ record { args = args; cur = t; in_arg = true; quote = some q })
        (append_assoc cur (r ∷ []) rs) (inside q rs args (cur ++ r ∷ []) free.1))
]

same_rune : (q : ℕ) → (q == q) ≡ true
same_rune q = ground arith

opening :
    (q : ℕ) (args : List Text)
    → is_quote q ≡ true
    → unquoted q (record { args = args; cur = []; in_arg = false; quote = none })
      ≡ record { args = args; cur = []; in_arg = true; quote = some q }
unfolding unquoted
opening q args qq = rw qq refl

closing :
    (q : ℕ) (w : Text) (args : List Text)
    → feed (record { args = args; cur = w; in_arg = true; quote = some q }) (q ∷ 32 ∷ [])
      ≡ record { args = args ++ w ∷ []; cur = []; in_arg = false; quote = none }
unfolding feed feed_quoted unquoted is_quote is_space flush
closing q w args = rw (same_rune q) refl

-- One quoted word, from the outside.
word :
    (q : ℕ) (w : Text) (args : List Text)
    → is_quote q ≡ true
    → Without q w
    → feed (record { args = args; cur = []; in_arg = false; quote = none }) (q ∷ w ++ q ∷ 32 ∷ [])
      ≡ record { args = args ++ w ∷ []; cur = []; in_arg = false; quote = none }
unfolding feed feed_quoted
word q w args qq free =
    ap (λ l. feed l (w ++ q ∷ 32 ∷ [])) (opening q args qq)
    ∙ feed-append w (q ∷ 32 ∷ []) _
    ∙ ap (λ l. feed l (q ∷ 32 ∷ [])) (inside q w args [] free)
    ∙ closing q w args

abbrev pub AllWithout : ℕ → List Text → Type 0
AllWithout q [] = Unit {0}
AllWithout q (w ∷ ws) = Without q w × AllWithout q ws

words :
    (q : ℕ) (ws : List Text) (args : List Text)
    → is_quote q ≡ true
    → AllWithout q ws
    → feed (record { args = args; cur = []; in_arg = false; quote = none }) (quoted q ws)
      ≡ record { args = args ++ ws; cur = []; in_arg = false; quote = none }
unfolding feed
words q [] args qq free = rw (append-nil args) refl
words q (w ∷ ws) args qq free =
    let l : Lexer = record { args = args; cur = []; in_arg = false; quote = none } in
    ap (λ t. feed l (q ∷ t)) (sym (append_assoc w (q ∷ 32 ∷ []) (quoted q ws)))
    ∙ feed-append (q ∷ w ++ q ∷ 32 ∷ []) (quoted q ws) l
    ∙ ap (λ k. feed k (quoted q ws)) (word q w args qq free.0)
    ∙ words q ws (args ++ w ∷ []) qq free.1
    ∙ ap (λ t. record { args = t; cur = []; in_arg = false; quote = none })
        (append_assoc args (w ∷ []) ws)

-- Arguments in quotes come back as they were, empty ones too, whatever they hold but the quote itself:
-- spaces and the other quote are not interpreted.
pub tokenize-quoted :
    (q : ℕ) (ws : List Text) → is_quote q ≡ true → AllWithout q ws → tokenize (quoted q ws) ≡ ws
unfolding tokenize flush
tokenize-quoted q ws qq free = ap (λ l. (flush l).args) (words q ws [] qq free)
