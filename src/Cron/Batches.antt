-- ===== src/Cron/Batches.antt =====
-- The batches in which the SFTP cron job deletes records.
use mathlib.Core.List.{append_assoc}
use feathers.Prelude.{
  ℕ, zero, suc, ◌+◌, ◌-◌, ◌≤◌, ◌≡◌, refl, ap, sym, ◌∙◌, Bool, true, false, inl, inr, List, [], ◌∷◌,
  ◌++◌, length, take, drop, take-append-drop, min, arith, ltb, ltb→lt, Bool-cases,
}
use feathers.Cron.{batches_within, delete_all}

unfoldable pub joined : List (List ℕ) → List ℕ
joined [] = []
joined (b ∷ bs) = b ++ joined bs

drop_nil : (n : ℕ) → drop {A = ℕ} n [] ≡ []
drop_nil zero = refl
drop_nil (suc n) = refl

drop-drop : (n i : ℕ) (l : List ℕ) → drop n (drop i l) ≡ drop (i + n) l
drop-drop n zero l = let e : n ≡ 0 + n = omega arith in ap (λ j. drop j l) e
drop-drop n (suc i) [] =
    let e : suc (i + n) ≡ suc i + n = omega arith in drop_nil n ∙ ap (λ j. drop j []) e
drop-drop n (suc i) (x ∷ l) =
    let e : suc (i + n) ≡ suc i + n = omega arith in drop-drop n i l ∙ ap (λ j. drop j (x ∷ l)) e

drop_all : (n : ℕ) (l : List ℕ) → length l ≤ n → drop n l ≡ []
drop_all zero [] h = refl
drop_all (suc n) [] h = refl
drop_all zero (x ∷ l) h = absurd (omega (arith, h))
drop_all (suc n) (x ∷ l) h = drop_all n l (omega (arith, h))

-- The batches are the identifiers, from the index on.
pub batches-joined :
    (n i : ℕ) (ids : List ℕ) → length ids ≤ i + n → joined (batches_within n i ids) ≡ drop i ids
unfolding joined batches_within
batches-joined zero i ids h = sym (drop_all i ids (omega (arith, h)))
batches-joined (suc n) i ids h = elim (Bool-cases (ltb i (length ids))) [
  | inl more ↦
      let end : ℕ = min (i + 32000) (length ids) in
      let shift : i + (end - i) ≡ end = omega (arith, ltb→lt i (length ids) more) in
      let rest : joined (batches_within n end ids) ≡ drop (end - i) (drop i ids) =
        batches-joined n end ids (omega (arith, ltb→lt i (length ids) more))
        ∙ sym (drop-drop (end - i) i ids ∙ ap (λ j. drop j ids) shift) in
      rw more
        (ap (λ l. take (end - i) (drop i ids) ++ l) rest ∙ take-append-drop (end - i) (drop i ids))
  | inr over ↦ rw over (sym (drop_all i ids (ground (arith, over))))
]

-- What is deleted is the front of the batches, and all of them if no deletion failed.
pub delete_all-prefix :
    (deletes : List ℕ → Bool) (bs : List (List ℕ))
    → (rest : List ℕ) × ((delete_all deletes bs).0 ++ rest ≡ joined bs)
      × ((delete_all deletes bs).1 ≡ true → rest ≡ [])
unfolding delete_all joined
delete_all-prefix deletes [] = ([], refl, λ e. refl)
delete_all-prefix deletes (b ∷ bs) = elim (Bool-cases (deletes b)) [
  | inl done ↦
      let (rest, e, all) = delete_all-prefix deletes bs in
      (
        rest,
        rw done (append_assoc b (delete_all deletes bs).0 rest ∙ ap (λ l. b ++ l) e),
        λ ok. all (rw done at ok),
      )
  | inr failed ↦ (b ++ joined bs, rw failed refl, λ ok. absurd (ground (arith, failed, ok)))
]

-- Where not all was deleted, a deletion failed.
pub delete_all_stops :
    (deletes : List ℕ → Bool) (bs : List (List ℕ))
    → (delete_all deletes bs).1 ≡ false
    → (batch : List ℕ) × (deletes batch ≡ false)
unfolding delete_all
delete_all_stops deletes [] e = absurd (cc)
delete_all_stops deletes (b ∷ bs) e = elim (Bool-cases (deletes b)) [
  | inl ok ↦ delete_all_stops deletes bs (rw ok at e)
  | inr refused ↦ (b, refused)
]
