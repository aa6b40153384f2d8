-- ===== src/Ufs/Descriptors/Making.antt =====
-- The descriptors of `MkdirAll`, `Touch` and `Rename`.
use feathers.Prelude.{
  ℕ, zero, suc, ◌+◌, ◌≡◌, ◌⊎◌, refl, ap, ◌∙◌, inl, inr, Bool, true, false, Option, none, some, ◌++◌,
  Bool-cases, length,
}
use feathers.Prelude.Text.{Text, codes, text_eq}
use feathers.Ufs.{Failure, UnixFs, unsafe_path}
use feathers.Ufs.Kernel.{Flags, Log, Status, Kernel, Place, close_fd, safe_path, renameat}
use feathers.Ufs.Calls.{link_result, Op, settled, status_at, mkdir, stat, open_file_at}
use feathers.Ufs.Operations.{
  missing_path, parent_of, follow, made, make_one, then_make, after_parent, unless_there,
  mkdir_all_within, mkdir_all_resolved, mkdir_all, touch_made, touch_again, touch_missing,
  touch_path, touch, rename_free, rename_to, rename_at, rename_anew, rename_missing, rename_into,
  rename_found, rename_from, rename,
}
use feathers.Ufs.Requests.{handed}
use feathers.Ufs.Descriptors.{
  open_fds, nothing, Balanced, PlaceOpen, open_fds-close_fd, safe_path-open, settled-Balanced,
  open_file_at-Balanced,
}
use feathers.Ufs.Descriptors.Single.{
  one_call-Balanced, status_at-Balanced, mkdir-Balanced, stat-Balanced,
}

module _ (k : Kernel) (fs : UnixFs) (safe_open : fs.use_openat2 ≡ true) where
  follow-Balanced :
      (name : Text) (b : Bool) (st : Status) → Balanced nothing (follow k fs name b st)
  unfolding follow
  follow-Balanced name false st l = refl
  follow-Balanced name true st l = stat-Balanced k fs safe_open name false l

  made-Balanced : (name : Text) (r : Failure ⊎ Unit {0}) → Balanced nothing (made k fs name r)
  unfolding made
  made-Balanced name (inr u) l = refl
  made-Balanced name (inl e) l = stat-Balanced k fs safe_open name true l

  make_one-Balanced : (name : Text) (mode : ℕ) → Balanced nothing (make_one k fs name mode)
  unfolding make_one
  make_one-Balanced name mode l =
      let (r, done) = mkdir k fs name mode l in
      made-Balanced name r done ∙ mkdir-Balanced k fs safe_open name mode l

  then_make-Balanced :
      (name : Text) (mode : ℕ) (r : Failure ⊎ Unit {0})
      → Balanced nothing (then_make k fs name mode r)
  unfolding then_make
  then_make-Balanced name mode (inl e) l = refl
  then_make-Balanced name mode (inr u) l = make_one-Balanced name mode l

  after_parent-Balanced :
      (name : Text) (mode : ℕ) (o : Option Text) (make : Text → Op (Unit {0}))
      → ((p : Text) → Balanced nothing (make p))
      → Balanced nothing (after_parent k fs name mode o make)
  unfolding after_parent
  after_parent-Balanced name mode none make h l = make_one-Balanced name mode l
  after_parent-Balanced name mode (some p) make h l =
      let (r, done) = make p l in then_make-Balanced name mode r done ∙ h p l

  unless_there-Balanced :
      (name : Text) (mode : ℕ) (make : Text → Op (Unit {0})) (r : Failure ⊎ Status)
      → ((p : Text) → Balanced nothing (make p))
      → Balanced nothing (unless_there k fs name mode make r)
  unfolding unless_there
  unless_there-Balanced name mode make (inr st) h l = follow-Balanced name st.is_symlink st l
  unless_there-Balanced name mode make (inl e) h l =
      after_parent-Balanced name mode (parent_of name) make h l

  mkdir_all_within-Balanced :
      (n : ℕ) (name : Text) (mode : ℕ) → Balanced nothing (mkdir_all_within k fs n name mode)
  unfolding mkdir_all_within
  mkdir_all_within-Balanced zero name mode l = refl
  mkdir_all_within-Balanced (suc n) name mode l =
      let (r, done) = stat k fs name true l in
      unless_there-Balanced name mode (λ p. mkdir_all_within k fs n p mode) r
        (λ p. mkdir_all_within-Balanced n p mode) done
      ∙ stat-Balanced k fs safe_open name true l

  mkdir_all_resolved-Balanced :
      (mode : ℕ) (r : Failure ⊎ Text) → Balanced nothing (mkdir_all_resolved k fs mode r)
  unfolding mkdir_all_resolved
  mkdir_all_resolved-Balanced mode (inl e) l = refl
  mkdir_all_resolved-Balanced mode (inr name) l =
      mkdir_all_within-Balanced (length name + 1) name mode l

  pub mkdir_all-Balanced : (path : Text) (mode : ℕ) → Balanced nothing (mkdir_all k fs path mode)
  unfolding mkdir_all
  mkdir_all-Balanced path mode = mkdir_all_resolved-Balanced mode (unsafe_path fs path)

  -- What `TouchPath` gives has the descriptors of its place open.
  abbrev TouchOpen : Log → (Place × Bool) × Log → Type 0
  TouchOpen l ((p, existed), done) = PlaceOpen l (p, done)

  touch_again-open :
      (path : Text) (p : Place) (r : Failure ⊎ Unit {0}) (l before : Log)
      → PlaceOpen before (p, l)
      → TouchOpen before (touch_again k fs path p r l)
  unfolding touch_again
  touch_again-open path p (inl e) l before h = h
  touch_again-open path p (inr u) l before h =
      let (q, done) = safe_path k fs path (close_fd p.to_close l) in
      safe_path-open k fs safe_open path (close_fd p.to_close l)
      ∙ ap (λ fds. q.to_close ++ fds) (open_fds-close_fd p.to_close none (open_fds before) l h)

  touch_made-open :
      (path : Text) (p : Place) (o : Option Text) (l before : Log)
      → PlaceOpen before (p, l)
      → TouchOpen before (touch_made k fs path p o l)
  unfolding touch_made
  touch_made-open path p none l before h = h
  touch_made-open path p (some q) l before h =
      let (r, done) = mkdir_all k fs q 493 l in
      touch_again-open path p r done before (mkdir_all-Balanced q 493 l ∙ h)

  touch_missing-open :
      (path : Text) (p : Place) (o : Option Failure) (l before : Log)
      → PlaceOpen before (p, l)
      → TouchOpen before (touch_missing k fs path p o l)
  unfolding touch_missing
  touch_missing-open path p none l before h = h
  touch_missing-open path p (some e) l before h = touch_made-open path p (missing_path e) l before h

  touch_path-open : (path : Text) (l : Log) → TouchOpen l (touch_path k fs path l)
  unfolding touch_path
  touch_path-open path l =
      let (p, done) = safe_path k fs path l in
      touch_missing-open path p p.failure done l (safe_path-open k fs safe_open path l)

  pub touch-Balanced : (path : Text) (f : Flags) → Balanced handed (touch k fs path f)
  unfolding touch handed
  touch-Balanced path f l =
      let ((p, existed), found) = touch_path k fs path l in
      let create : Flags = record f { create = true } in
      settled-Balanced k fs safe_open handed p.failure p.to_close
        (open_file_at k fs create p.dirfd p.file) found (open_fds l) (λ e. refl)
        (open_file_at-Balanced k fs safe_open create p.dirfd p.file) (touch_path-open path l)

  -- The rest of an operation at a place.
  settled-quiet :
      (o : Option Failure) (p : Place) (f : Op (Unit {0})) (l before : Log)
      → Balanced nothing f
      → PlaceOpen before (p, l)
      → open_fds (settled o p.to_close f l).1 ≡ open_fds before
  settled-quiet o p f l before bal h =
      settled-Balanced k fs safe_open nothing o p.to_close f l (open_fds before) (λ e. refl) bal h

  rename_free-Balanced :
      (old new : Text) (d : ℕ) (n : Text) (d' : ℕ) (n' : Text) (e : Failure) (o : Option Text)
      → Balanced nothing (rename_free k fs old new d n d' n' e o)
  unfolding rename_free
  rename_free-Balanced old new d n d' n' e none l = refl
  rename_free-Balanced old new d n d' n' e (some q) l =
      one_call-Balanced k fs safe_open (renameat d n d' n') (link_result old new) l

  rename_to-Balanced :
      (old new : Text) (d : ℕ) (n : Text) (d' : ℕ) (n' : Text) (r : Failure ⊎ Status)
      → Balanced nothing (rename_to k fs old new d n d' n' r)
  unfolding rename_to
  rename_to-Balanced old new d n d' n' (inr st) l = refl
  rename_to-Balanced old new d n d' n' (inl e) l =
      rename_free-Balanced old new d n d' n' e (missing_path e) l

  rename_at-Balanced :
      (old new : Text) (d : ℕ) (n : Text) (d' : ℕ) (n' : Text)
      → Balanced nothing (rename_at k fs old new d n d' n')
  unfolding rename_at
  rename_at-Balanced old new d n d' n' l = elim (Bool-cases (text_eq n' (codes "."))) [
    | inl dot ↦ rw dot refl
    | inr plain ↦
        let (r, done) = status_at k fs d' n' true l in
        rw plain (
          rename_to-Balanced old new d n d' n' r done
          ∙ status_at-Balanced k fs safe_open d' n' true l)
  ]

  rename_anew-Balanced :
      (old new : Text) (d : ℕ) (n : Text) (r : Failure ⊎ Unit {0})
      → Balanced nothing (rename_anew k fs old new d n r)
  unfolding rename_anew
  rename_anew-Balanced old new d n (inl e) l = refl
  rename_anew-Balanced old new d n (inr u) l =
      let (q, done) = safe_path k fs new l in
      settled-quiet q.failure q (rename_at k fs old new d n q.dirfd q.file) done l
        (rename_at-Balanced old new d n q.dirfd q.file) (safe_path-open k fs safe_open new l)

  rename_missing-Balanced :
      (old new : Text) (d : ℕ) (n : Text) (e : Failure) (o : Option Text)
      → Balanced nothing (rename_missing k fs old new d n e o)
  unfolding rename_missing
  rename_missing-Balanced old new d n e none l = refl
  rename_missing-Balanced old new d n e (some p) l =
      let (r, done) = mkdir_all k fs p 493 l in
      rename_anew-Balanced old new d n r done ∙ mkdir_all-Balanced p 493 l

  rename_into-balanced :
      (old new : Text) (d : ℕ) (n : Text) (q : Place) (o : Option Failure) (l before : Log)
      → PlaceOpen before (q, l)
      → open_fds (rename_into k fs old new d n q o l).1 ≡ open_fds before
  unfolding rename_into
  rename_into-balanced old new d n q none l before h =
      settled-quiet none q (rename_at k fs old new d n q.dirfd q.file) l before
        (rename_at-Balanced old new d n q.dirfd q.file) h
  rename_into-balanced old new d n q (some e) l before h =
      rename_missing-Balanced old new d n e (missing_path e) (close_fd q.to_close l)
      ∙ open_fds-close_fd q.to_close none (open_fds before) l h

  rename_found-Balanced :
      (old new : Text) (d : ℕ) (n : Text) (r : Failure ⊎ Status)
      → Balanced nothing (rename_found k fs old new d n r)
  unfolding rename_found
  rename_found-Balanced old new d n (inl e) l = refl
  rename_found-Balanced old new d n (inr st) l =
      let (q, done) = safe_path k fs new l in
      rename_into-balanced old new d n q q.failure done l (safe_path-open k fs safe_open new l)

  rename_from-Balanced :
      (old new : Text) (d : ℕ) (n : Text) → Balanced nothing (rename_from k fs old new d n)
  unfolding rename_from
  rename_from-Balanced old new d n l = elim (Bool-cases (text_eq n (codes "."))) [
    | inl dot ↦ rw dot refl
    | inr plain ↦
        let (r, done) = status_at k fs d n true l in
        rw plain
          (rename_found-Balanced old new d n r done ∙ status_at-Balanced k fs safe_open d n true l)
  ]

  pub rename-Balanced : (old new : Text) → Balanced nothing (rename k fs old new)
  unfolding rename
  rename-Balanced old new l = elim (Bool-cases (text_eq old new)) [
    | inl same ↦ rw same refl
    | inr differs ↦
        let (p, done) = safe_path k fs old l in
        rw differs (
          settled-quiet p.failure p (rename_from k fs old new p.dirfd p.file) done l
            (rename_from-Balanced old new p.dirfd p.file) (safe_path-open k fs safe_open old l))
  ]
