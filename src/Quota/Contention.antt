-- ===== src/Quota/Contention.antt =====
-- The compare-and-swap loop of `Add` in internal/ufs/fs_quota.go among other goroutines.
use feathers.Prelude.{
  ℕ, zero, suc, ◌≤◌, ◌≡◌, ◌⊎◌, refl, sym, true, false, List, [], ◌∷◌, arith, length, Bool-cases,
  inl, inr,
}
use feathers.Prelude.Int.{ℤ, pos, negsuc, eqb_ℤ}
use feathers.Quota.{next_usage, add_loop}

-- The usage that the loop reads in a round, counted from 0: first the usage at the call, then what the
-- comparison before has found. Once the others have stopped it changes no more.
abbrev pub usage_read : ℕ → List ℤ → ℤ → ℤ
usage_read zero us usage = usage
usage_read (suc n) [] usage = usage
usage_read (suc n) (u ∷ us) usage = usage_read n us u

-- What was returned is made of the usage of a round, and the comparison of that round has found this same
-- usage, so that nothing was stored in between; a change of 0 stores nothing and returns the first usage.
abbrev pub AtOneMoment : List ℤ → ℤ → ℤ → ℤ → Type 0
AtOneMoment us usage i result =
    (n : ℕ) × (n ≤ length us)
    × (result ≡ next_usage (usage_read n us usage) i)
    × (((eqb_ℤ i (pos 0) ≡ true) × (n ≡ 0))
        ⊎ ((eqb_ℤ i (pos 0) ≡ false)
            × (eqb_ℤ (usage_read (suc n) us usage) (usage_read n us usage) ≡ true)))

next_usage-zero : (u i : ℤ) → eqb_ℤ i (pos 0) ≡ true → next_usage u i ≡ u
unfolding next_usage
next_usage-zero u (pos zero) e = refl
next_usage-zero u (pos (suc i)) e = absurd (ground arith)
next_usage-zero u (negsuc i) e = absurd (ground arith)

eqb_ℤ_refl : (u : ℤ) → eqb_ℤ u u ≡ true
eqb_ℤ_refl (pos n) = ground arith
eqb_ℤ_refl (negsuc n) = ground arith

-- `Add` takes effect at one moment: whatever the other goroutines store, and however often the loop
-- runs again, what a change that is not 0 stores and returns is what one undisturbed `Add` makes of the usage
-- of some round, and that usage is the one that the comparison of the same round finds. A change of 0
-- returns the usage at the call.
pub add_loop_atomic : (us : List ℤ) (usage i : ℤ) → AtOneMoment us usage i (add_loop us usage i)
unfolding add_loop
add_loop_atomic [] usage i = elim (Bool-cases (eqb_ℤ i (pos 0))) [
  | inl nothing ↦ (0, omega arith, refl, inl (nothing, refl))
  | inr something ↦ (0, omega arith, refl, inr (something, eqb_ℤ_refl usage))
]
add_loop_atomic (u ∷ us) usage i = elim (Bool-cases (eqb_ℤ i (pos 0))) [
  | inl nothing ↦
      (0, omega arith, rw nothing (sym (next_usage-zero usage i nothing)), inl (nothing, refl))
  | inr something ↦ elim (Bool-cases (eqb_ℤ u usage)) [
    | inl same ↦ (0, omega arith, rw (something, same) refl, inr (something, same))
    | inr changed ↦
        let (n, le, e, found) = add_loop_atomic us u i in
        elim found [
          | inl (nothing, zeroth) ↦ absurd (cc)
          | inr settled ↦ (suc n, omega arith, rw (something, changed) e, inr settled)
        ]
  ]
]
