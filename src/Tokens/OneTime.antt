-- ===== src/Tokens/OneTime.antt =====
-- The token store of router/tokens/token_store.go: a token is good for one request.
use feathers.Prelude.{
  ℕ, ◌+◌, ◌≤◌, ◌<◌, ◌≡◌, ◌≢◌, true, false, List, [], ◌∷◌, arith, Bool-cases, inl, inr,
}
use feathers.Prelude.Text.{Text}
use feathers.Tokens.{Cache, hour, is_valid_token}

module _ (cache : Cache) where
  open cache use {State, get, add, get_added, get_kept, get_other}

  -- The store after requests with the given tokens.
  abbrev pub after : List (ℕ × Text) → State → State
  after [] c = c
  after ((now, token) ∷ rs) c = after rs (is_valid_token cache now token c).0

  found_kept :
      (now later : ℕ) (token other : Text) (c : State)
      → get later token c ≡ true
      → get later token (is_valid_token cache now other c).0 ≡ true
  unfolding is_valid_token
  found_kept now later token other c h = elim (Bool-cases (get now other c)) [
    | inl found ↦ rw found h
    | inr absent ↦ rw absent (get_kept now later hour other token c h)
  ]

  after_kept :
      (rs : List (ℕ × Text)) (later : ℕ) (token : Text) (c : State)
      → get later token c ≡ true
      → get later token (after rs c) ≡ true
  after_kept [] later token c h = h
  after_kept ((now, other) ∷ rs) later token c h =
      after_kept rs later token _ (found_kept now later token other c h)

  let_through :
      (now : ℕ) (token : Text) (c : State)
      → (is_valid_token cache now token c).1 ≡ true
      → (get now token c ≡ false) × ((is_valid_token cache now token c).0 ≡ add now token hour c)
  unfolding is_valid_token
  let_through now token c h = elim (Bool-cases (get now token c)) [
    | inl found ↦ absurd (ground arith)
    | inr absent ↦ (absent, rw absent)
  ]

  refused :
      (later : ℕ) (token : Text) (c : State)
      → get later token c ≡ true
      → (is_valid_token cache later token c).1 ≡ false
  unfolding is_valid_token
  refused later token c h = rw h

  -- Once a token was let through, it is refused for the next hour, whatever requests with whatever
  -- tokens come between.
  pub is_valid_token_once :
      (now later : ℕ) (token : Text) (rs : List (ℕ × Text)) (c : State)
      → (is_valid_token cache now token c).1 ≡ true
      → now ≤ later
      → later < now + hour
      → (is_valid_token cache later token (after rs (is_valid_token cache now token c).0)).1 ≡ false
  is_valid_token_once now later token rs c h le lt =
      let (absent, added) = let_through now token c h in
      refused later token _
        (after_kept rs later token _ (rw added (get_added now later hour token c absent le lt)))

  -- A token that was not seen is let through, and a request with another token does not change that.
  pub is_valid_token_fresh :
      (now later : ℕ) (token other : Text) (c : State)
      → other ≢ token
      → get later token c ≡ false
      → (is_valid_token cache later token (is_valid_token cache now other c).0).1 ≡ true
  unfolding is_valid_token
  is_valid_token_fresh now later token other c ne h = elim (Bool-cases (get now other c)) [
    | inl found ↦ rw (found, h)
    | inr absent ↦ rw (absent, get_other now later hour other token c ne, h)
  ]
