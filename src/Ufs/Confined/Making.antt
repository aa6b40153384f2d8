-- ===== src/Ufs/Confined/Making.antt =====
-- The names in the calls of `MkdirAll`, `Touch` and `Rename`.
use feathers.Prelude.{
  ℕ, zero, suc, ◌+◌, ◌≡◌, ◌⊎◌, refl, sym, ap, ◌∙◌, arith, inl, inr, Bool, true, false, Option, none,
  some, Bool-cases, length,
}
use feathers.Prelude.Text.{Text, codes, text_eq, text_eq_refl, has_prefix}
use feathers.Ufs.{Failure, UnixFs, unsafe_path}
use feathers.Ufs.Parts.{Proper}
use feathers.Ufs.Kernel.{Flags, Log, Status, Kernel, Place, close_fd, safe_path}
use feathers.Ufs.Calls.{Op, status_at, mkdir, stat, open_file_at}
use feathers.Ufs.Operations.{
  parent_of, follow, made, make_one, then_make, after_parent, unless_there, mkdir_all_within,
  mkdir_all_resolved, mkdir_all, missing_path, touch_made, rename_free, rename_missing, touch_again,
  touch_missing, touch_path, touch, rename_to, rename_at, rename_anew, rename_into, rename_found,
  rename_from, rename,
}
use feathers.Ufs.Confined.{
  Named, AllConfined, PlaceConfined, Safe, close_fd-AllConfined, safe_path-Confined, settled-Safe,
  status_at-Safe, open_file_at-Safe,
}
use feathers.Ufs.Confined.Single.{mkdir-Safe, stat-Safe}

module _ (k : Kernel) (fs : UnixFs) (rooted : has_prefix fs.base_path (codes "/") ≡ true) where
  follow-Safe : (name : Text) (b : Bool) (st : Status) → Safe k fs rooted (follow k fs name b st)
  unfolding follow
  follow-Safe name false st l hl = hl
  follow-Safe name true st l hl = stat-Safe k fs rooted name false l hl

  made-Safe : (name : Text) (r : Failure ⊎ Unit {0}) → Safe k fs rooted (made k fs name r)
  unfolding made
  made-Safe name (inr u) l hl = hl
  made-Safe name (inl e) l hl = stat-Safe k fs rooted name true l hl

  make_one-Safe : (name : Text) (mode : ℕ) → Safe k fs rooted (make_one k fs name mode)
  unfolding make_one
  make_one-Safe name mode l hl =
      let (r, done) = mkdir k fs name mode l in
      made-Safe name r done (mkdir-Safe k fs rooted name mode l hl)

  then_make-Safe :
      (name : Text) (mode : ℕ) (r : Failure ⊎ Unit {0})
      → Safe k fs rooted (then_make k fs name mode r)
  unfolding then_make
  then_make-Safe name mode (inl e) l hl = hl
  then_make-Safe name mode (inr u) l hl = make_one-Safe name mode l hl

  after_parent-Safe :
      (name : Text) (mode : ℕ) (o : Option Text) (make : Text → Op (Unit {0}))
      → ((p : Text) → Safe k fs rooted (make p))
      → Safe k fs rooted (after_parent k fs name mode o make)
  unfolding after_parent
  after_parent-Safe name mode none make h l hl = make_one-Safe name mode l hl
  after_parent-Safe name mode (some p) make h l hl =
      let (r, done) = make p l in then_make-Safe name mode r done (h p l hl)

  unless_there-Safe :
      (name : Text) (mode : ℕ) (make : Text → Op (Unit {0})) (r : Failure ⊎ Status)
      → ((p : Text) → Safe k fs rooted (make p))
      → Safe k fs rooted (unless_there k fs name mode make r)
  unfolding unless_there
  unless_there-Safe name mode make (inr st) h l hl = follow-Safe name st.is_symlink st l hl
  unless_there-Safe name mode make (inl e) h l hl =
      after_parent-Safe name mode (parent_of name) make h l hl

  mkdir_all_within-Safe :
      (n : ℕ) (name : Text) (mode : ℕ) → Safe k fs rooted (mkdir_all_within k fs n name mode)
  unfolding mkdir_all_within
  mkdir_all_within-Safe zero name mode l hl = hl
  mkdir_all_within-Safe (suc n) name mode l hl =
      let (r, done) = stat k fs name true l in
      unless_there-Safe name mode (λ p. mkdir_all_within k fs n p mode) r
        (λ p. mkdir_all_within-Safe n p mode) done (stat-Safe k fs rooted name true l hl)

  mkdir_all_resolved-Safe :
      (mode : ℕ) (r : Failure ⊎ Text) → Safe k fs rooted (mkdir_all_resolved k fs mode r)
  unfolding mkdir_all_resolved
  mkdir_all_resolved-Safe mode (inl e) l hl = hl
  mkdir_all_resolved-Safe mode (inr name) l hl =
      mkdir_all_within-Safe (length name + 1) name mode l hl

  pub mkdir_all-Safe : (path : Text) (mode : ℕ) → Safe k fs rooted (mkdir_all k fs path mode)
  unfolding mkdir_all
  mkdir_all-Safe path mode = mkdir_all_resolved-Safe mode (unsafe_path fs path)

  -- What `TouchPath` gives is a place.
  abbrev TouchConfined : (Place × Bool) × Log → Type 0
  TouchConfined ((p, existed), l) = PlaceConfined k fs rooted (p, l)

  touch_again-Confined :
      (path : Text) (p : Place) (r : Failure ⊎ Unit {0}) (l : Log)
      → AllConfined fs.base_path l
      → TouchConfined (touch_again k fs path p r l)
  unfolding touch_again
  touch_again-Confined path p (inl e) l hl = (hl, λ ok. absurd (cc))
  touch_again-Confined path p (inr u) l hl =
      safe_path-Confined k fs rooted path (close_fd p.to_close l)
        (close_fd-AllConfined fs.base_path p.to_close l hl)

  touch_made-Confined :
      (path : Text) (p : Place) (o : Option Text) (e : Failure) (l : Log)
      → p.failure ≡ some e
      → AllConfined fs.base_path l
      → TouchConfined (touch_made k fs path p o l)
  unfolding touch_made
  touch_made-Confined path p none e l he hl = (hl, λ ok. absurd (cc))
  touch_made-Confined path p (some q) e l he hl =
      let (r, done) = mkdir_all k fs q 493 l in
      touch_again-Confined path p r done (mkdir_all-Safe q 493 l hl)

  touch_missing-Confined :
      (path : Text) (p : Place) (o : Option Failure) (l : Log)
      → p.failure ≡ o
      → PlaceConfined k fs rooted (p, l)
      → TouchConfined (touch_missing k fs path p o l)
  unfolding touch_missing
  touch_missing-Confined path p none l he hp = hp
  touch_missing-Confined path p (some e) l he hp =
      touch_made-Confined path p (missing_path e) e l he hp.0

  touch_path-Confined :
      (path : Text) (l : Log) → AllConfined fs.base_path l → TouchConfined (touch_path k fs path l)
  unfolding touch_path
  touch_path-Confined path l hl =
      let (p, done) = safe_path k fs path l in
      touch_missing-Confined path p p.failure done refl (safe_path-Confined k fs rooted path l hl)

  pub touch-Safe : (path : Text) (f : Flags) → Safe k fs rooted (touch k fs path f)
  unfolding touch
  touch-Safe path f l hl =
      let ((p, existed), found) = touch_path k fs path l in
      let (hp, named) = touch_path-Confined path l hl in
      settled-Safe k fs rooted p.failure p.to_close
        (open_file_at k fs (record f { create = true }) p.dirfd p.file)
        (λ ok. open_file_at-Safe k fs rooted (record f { create = true }) p.dirfd p.file (named ok))
        found hp

  not_dot : (name : Text) → Named name → text_eq name (codes ".") ≡ false → Proper name
  not_dot name (inl dot) h =
      let no : true ≡ false = sym (text_eq_refl name) ∙ ap (text_eq name) dot ∙ h in
      absurd (ground (arith, no))
  not_dot name (inr p) h = p

  rename_free-Safe :
      (old new : Text) (d : ℕ) (n : Text) (d' : ℕ) (n' : Text) (e : Failure) (o : Option Text)
      → Proper n
      → Proper n'
      → Safe k fs rooted (rename_free k fs old new d n d' n' e o)
  unfolding rename_free
  rename_free-Safe old new d n d' n' e none h h' l hl = hl
  rename_free-Safe old new d n d' n' e (some q) h h' l hl = ((h, h'), hl)

  rename_to-Safe :
      (old new : Text) (d : ℕ) (n : Text) (d' : ℕ) (n' : Text) (r : Failure ⊎ Status)
      → Proper n
      → Proper n'
      → Safe k fs rooted (rename_to k fs old new d n d' n' r)
  unfolding rename_to
  rename_to-Safe old new d n d' n' (inr st) h h' l hl = hl
  rename_to-Safe old new d n d' n' (inl e) h h' l hl =
      rename_free-Safe old new d n d' n' e (missing_path e) h h' l hl

  rename_at-Safe :
      (old new : Text) (d : ℕ) (n : Text) (d' : ℕ) (n' : Text)
      → Proper n
      → Named n'
      → Safe k fs rooted (rename_at k fs old new d n d' n')
  unfolding rename_at
  rename_at-Safe old new d n d' n' h h' l hl = elim (Bool-cases (text_eq n' (codes "."))) [
    | inl dot ↦ rw dot hl
    | inr plain ↦
        let (r, done) = status_at k fs d' n' true l in
        rw plain (
          rename_to-Safe old new d n d' n' r h (not_dot n' h' plain) done
            (status_at-Safe k fs rooted d' n' true h' l hl))
  ]

  rename_anew-Safe :
      (old new : Text) (d : ℕ) (n : Text) (r : Failure ⊎ Unit {0})
      → Proper n
      → Safe k fs rooted (rename_anew k fs old new d n r)
  unfolding rename_anew
  rename_anew-Safe old new d n (inl e) h l hl = hl
  rename_anew-Safe old new d n (inr u) h l hl =
      let (q, done) = safe_path k fs new l in
      let (hq, named) = safe_path-Confined k fs rooted new l hl in
      settled-Safe k fs rooted q.failure q.to_close (rename_at k fs old new d n q.dirfd q.file)
        (λ ok. rename_at-Safe old new d n q.dirfd q.file h (named ok)) done hq

  rename_missing-Safe :
      (old new : Text) (d : ℕ) (n : Text) (e : Failure) (o : Option Text)
      → Proper n
      → Safe k fs rooted (rename_missing k fs old new d n e o)
  unfolding rename_missing
  rename_missing-Safe old new d n e none h l hl = hl
  rename_missing-Safe old new d n e (some p) h l hl =
      let (r, done) = mkdir_all k fs p 493 l in
      rename_anew-Safe old new d n r h done (mkdir_all-Safe p 493 l hl)

  rename_into-Safe :
      (old new : Text) (d : ℕ) (n : Text) (q : Place) (o : Option Failure)
      → Proper n
      → (o ≡ none → Named q.file)
      → Safe k fs rooted (rename_into k fs old new d n q o)
  unfolding rename_into
  rename_into-Safe old new d n q none h named l hl =
      settled-Safe k fs rooted none q.to_close (rename_at k fs old new d n q.dirfd q.file)
        (λ ok. rename_at-Safe old new d n q.dirfd q.file h (named refl)) l hl
  rename_into-Safe old new d n q (some e) h named l hl =
      rename_missing-Safe old new d n e (missing_path e) h (close_fd q.to_close l)
        (close_fd-AllConfined fs.base_path q.to_close l hl)

  rename_found-Safe :
      (old new : Text) (d : ℕ) (n : Text) (r : Failure ⊎ Status)
      → Proper n
      → Safe k fs rooted (rename_found k fs old new d n r)
  unfolding rename_found
  rename_found-Safe old new d n (inl e) h l hl = hl
  rename_found-Safe old new d n (inr st) h l hl =
      let (q, done) = safe_path k fs new l in
      let (hq, named) = safe_path-Confined k fs rooted new l hl in
      rename_into-Safe old new d n q q.failure h named done hq

  rename_from-Safe :
      (old new : Text) (d : ℕ) (n : Text)
      → Named n
      → Safe k fs rooted (rename_from k fs old new d n)
  unfolding rename_from
  rename_from-Safe old new d n h l hl = elim (Bool-cases (text_eq n (codes "."))) [
    | inl dot ↦ rw dot hl
    | inr plain ↦
        let (r, done) = status_at k fs d n true l in
        rw plain (
          rename_found-Safe old new d n r (not_dot n h plain) done
            (status_at-Safe k fs rooted d n true h l hl))
  ]

  pub rename-Safe : (old new : Text) → Safe k fs rooted (rename k fs old new)
  unfolding rename
  rename-Safe old new l hl = elim (Bool-cases (text_eq old new)) [
    | inl same ↦ rw same hl
    | inr differs ↦
        let (p, done) = safe_path k fs old l in
        let (hp, named) = safe_path-Confined k fs rooted old l hl in
        rw differs (
          settled-Safe k fs rooted p.failure p.to_close (rename_from k fs old new p.dirfd p.file)
            (λ ok. rename_from-Safe old new p.dirfd p.file (named ok)) done hp)
  ]
