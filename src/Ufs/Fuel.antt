-- ===== src/Ufs/Fuel.antt =====
-- The number that `MkdirAll` passes to `mkdirAll` (fs_unix.go, mkdir_unix.go).
use feathers.Prelude.{
  ℕ, zero, suc, ◌-◌, ◌≤◌, ◌<◌, ◌≡◌, refl, ap, sym, ◌∙◌, ◌⊎◌, inl, inr, true, Option, none, some, [],
  ◌∷◌, arith, ltb→lt, length, length-append, take, length-take, ltb, Bool-cases, if◌then◌else◌,
}
use feathers.Prelude.Text.{Text}
use feathers.Prelude.Filepath.{split_file, split_file-SplitOf}
use feathers.Ufs.{Failure, UnixFs}
use feathers.Ufs.Kernel.{Log, Status, Kernel}
use feathers.Ufs.Calls.{Op, stat}
use feathers.Ufs.Operations.{
  trim_end, length-trim_end, parent_of, then_make, after_parent, unless_there, mkdir_all_within,
}

length-dir : (t : Text) → length (split_file t).0 ≤ length t
length-dir t = elim (split_file-SplitOf t) [
  | inl (e, free) ↦ rw e (omega arith)
  | inr (d, f, e, whole, free) ↦
      rw (e, whole) (omega (arith, length-append d (b'/' ∷ []), length-append d (b'/' ∷ f)))
]

if_longer :
    (dir p : Text)
    → (if ltb 1 (length dir) then some (take (length dir - 1) dir) else none) ≡ some p
    → length p < length dir
if_longer dir p e = elim (Bool-cases (ltb 1 (length dir))) [
  | inl long ↦
      let is : some (take (length dir - 1) dir) ≡ some p = sym (rw long refl) ∙ e in
      let same : take (length dir - 1) dir ≡ p = cc in
      rw (sym same) (omega (arith, length-take (length dir - 1) dir, ltb→lt 1 (length dir) long))
  | inr short ↦ let is : none ≡ some p = sym (rw short refl) ∙ e in absurd (cc)
]

pub parent_shorter : (name p : Text) → parent_of name ≡ some p → length p < length name
unfolding parent_of
parent_shorter name p e = omega (
  arith,
  if_longer (split_file (trim_end name)).0 p e,
  length-dir (trim_end name),
  length-trim_end name,
)

module _ (k : Kernel) (fs : UnixFs) where
  -- Making the parent in one of two ways that agree on it.
  after_parent-same :
      (name : Text) (mode : ℕ) (o : Option Text) (one two : Text → Op (Unit {0})) (l : Log)
      → ((p : Text) → o ≡ some p → one p l ≡ two p l)
      → after_parent k fs name mode o one l ≡ after_parent k fs name mode o two l
  unfolding after_parent
  after_parent-same name mode none one two l same = refl
  after_parent-same name mode (some p) one two l same =
      ap (λ r. then_make k fs name mode r.0 r.1) (same p refl)

  unless_there-same :
      (name : Text) (mode : ℕ) (one two : Text → Op (Unit {0})) (r : Failure ⊎ Status) (l : Log)
      → ((p : Text) → parent_of name ≡ some p → one p l ≡ two p l)
      → unless_there k fs name mode one r l ≡ unless_there k fs name mode two r l
  unfolding unless_there
  unless_there-same name mode one two (inl e) l same =
      after_parent-same name mode (parent_of name) one two l same
  unless_there-same name mode one two (inr st) l same = refl

  -- Any number above the length of the name gives the same.
  pub mkdir_all_within-enough :
      (n m : ℕ) (name : Text) (mode : ℕ) (l : Log)
      → length name < n
      → length name < m
      → mkdir_all_within k fs n name mode l ≡ mkdir_all_within k fs m name mode l
  unfolding mkdir_all_within
  mkdir_all_within-enough zero m name mode l hn hm = absurd (omega (arith, hn))
  mkdir_all_within-enough (suc n) zero name mode l hn hm = absurd (omega (arith, hm))
  mkdir_all_within-enough (suc n) (suc m) name mode l hn hm =
      let (r, done) = stat k fs name true l in
      unless_there-same name mode (λ p. mkdir_all_within k fs n p mode)
        (λ p. mkdir_all_within k fs m p mode) r done
        (λ p e.
          mkdir_all_within-enough n m p mode done (omega (arith, parent_shorter name p e, hn))
            (omega (arith, parent_shorter name p e, hm)))
