-- ===== src/Sftp/Pages.antt =====
-- `ListAt` of sftp/utils.go: a listing in pages.
use feathers.Prelude.{
  ℕ, ◌+◌, ◌≤◌, ◌<◌, ◌≡◌, refl, sym, ap, ◌∙◌, inl, inr, List, [], ◌∷◌, ◌++◌, arith, Bool-cases,
  if◌then◌else◌, zero, suc, length, take, drop, take-append-drop, leb, ltb, leb→le, ltb→lt,
}
use mathlib.Core.List.{append-nil}
use feathers.Sftp.{list_at}

module _ {A : Type 0} where
  drop_past : (n : ℕ) (xs : List A) → length xs ≤ n → drop n xs ≡ []
  drop_past zero [] h = refl
  drop_past zero (x ∷ xs) h = absurd (omega (arith, h))
  drop_past (suc n) [] h = refl
  drop_past (suc n) (x ∷ xs) h = drop_past n xs (omega (arith, h))

  short_take : (n : ℕ) (xs : List A) → length (take n xs) < n → take n xs ≡ xs
  short_take zero xs h = absurd (omega (arith, h))
  short_take (suc n) [] h = refl
  short_take (suc n) (x ∷ xs) h = ap (λ l. x ∷ l) (short_take n xs (omega (arith, h)))

  drop_nil : (n : ℕ) → drop {A = A} n [] ≡ []
  drop_nil zero = refl
  drop_nil (suc n) = refl

  drop-drop : (m n : ℕ) (xs : List A) → drop n (drop m xs) ≡ drop (m + n) xs
  drop-drop zero n xs = ap (λ k. drop k xs) (omega arith)
  drop-drop (suc m) n [] = drop_nil n ∙ sym (drop_nil (suc m + n))
  drop-drop (suc m) n (x ∷ xs) =
      let shift : suc (m + n) ≡ suc m + n = omega arith in
      drop-drop m n xs ∙ ap (λ k. drop k (x ∷ xs)) shift

  page :
      (xs later : List A) (size : ℕ)
      → drop size xs ≡ later
      → xs ≡ take size xs ++ (if ltb (length (take size xs)) size then [] else later)
  page xs later size rest = elim (Bool-cases (ltb (length (take size xs)) size)) [
    | inl short ↦ rw short (
        sym (
          append-nil (take size xs)
          ∙ short_take size xs (ltb→lt (length (take size xs)) size short)))
    | inr full ↦ rw full (sym (ap (λ l. take size xs ++ l) (sym rest) ∙ take-append-drop size xs))
  ]

  -- A page, and what is left: nothing where the end is told, and else the rest from the next page on. So a
  -- client that asks for page after page, until it is told the end, reads every entry once, in order.
  pub list_at_continues :
      (entries : List A) (size offset : ℕ)
      → drop offset entries
        ≡ (list_at entries size offset).0
          ++ (if (list_at entries size offset).1 then [] else drop (offset + size) entries)
  unfolding list_at
  list_at_continues entries size offset = elim (Bool-cases (leb (length entries) offset)) [
    | inl past ↦ rw past (drop_past offset entries (leb→le (length entries) offset past))
    | inr inside ↦ simp inside (
        page (drop offset entries) (drop (offset + size) entries) size
          (drop-drop offset size entries))
  ]
