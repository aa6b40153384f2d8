-- ===== src/Winproc/Lookup.antt =====
-- Variables of a server in environment/winproc/invocation.go.
use feathers.Prelude.{
  ◌≡◌, ◌≢◌, refl, sym, ◌∙◌, some, List, [], ◌∷◌, ◌++◌, arith, ◌==◌, Bool-cases, inl, inr,
}
use feathers.Prelude.Text.{Text, Without, text_eq_refl, text_eq_ne}
use feathers.Winproc.{Env, cut, get, put, env_map, env_map_from}

cut_at : (k v : Text) → Without b'=' k → cut (k ++ b'=' ∷ v) ≡ some (k, v)
unfolding cut
cut_at [] v free = refl
cut_at (c ∷ k) v free = elim (Bool-cases (c == b'=')) [
  | inl same ↦ absurd (ground (arith, free.0))
  | inr other ↦ rw (other, cut_at k v free.1) refl
]

from-append :
    (vars : List Text) (kv : Text) (m : Env)
    → env_map_from (vars ++ kv ∷ []) m ≡ put kv (env_map_from vars m)
unfolding env_map_from
from-append [] kv m = refl
from-append (x ∷ xs) kv m = from-append xs kv (put x m)

put_at : (k v : Text) (m : Env) → Without b'=' k → put (k ++ b'=' ∷ v) m ≡ (k, v) ∷ m
unfolding put
put_at k v m free = rw (put, cut_at k v free) refl

added :
    (vars : List Text) (k v : Text)
    → Without b'=' k
    → env_map (vars ++ (k ++ b'=' ∷ v) ∷ []) ≡ (k, v) ∷ env_map vars
unfolding env_map
added vars k v free = from-append vars (k ++ b'=' ∷ v) [] ∙ put_at k v (env_map vars) free

-- A variable "k=v" behind any others: its key has the value v, which may hold more "=", and every other
-- key has the value that it had without the variable.
pub get-env_map :
    (vars : List Text) (k v : Text)
    → Without b'=' k
    → (get k (env_map (vars ++ (k ++ b'=' ∷ v) ∷ [])) ≡ v)
      × ((j : Text) → j ≢ k → get j (env_map (vars ++ (k ++ b'=' ∷ v) ∷ [])) ≡ get j (env_map vars))
unfolding get
get-env_map vars k v free = (
  rw (added vars k v free, text_eq_refl k) refl,
  (λ j ne. rw (added vars k v free, text_eq_ne k j (λ e. ne (sym e))) refl),
)
