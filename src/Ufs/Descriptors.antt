-- ===== src/Ufs/Descriptors.antt =====
-- The descriptors that the operations of fs_unix.go open and close, with openat2.
pub mod Single
pub mod Making
pub mod Runs
use feathers.Prelude.{
  ℕ, ◌≡◌, refl, ap, sym, ◌∙◌, ◌⊎◌, inl, inr, Bool, true, Option, none, some, List, [], ◌∷◌, ◌++◌,
  arith, Bool-cases, ◌==◌, if◌then◌else◌,
}
use feathers.Prelude.Text.{Text, trim_suffix}
use feathers.Prelude.Filepath.{split_file}
use feathers.Ufs.{Cause, Failure, UnixFs, unsafe_path}
use feathers.Ufs.Kernel.{
  Flags, directory_flags, Call, Event, opens_base, opens, closes, calls, Log, Status, Kernel,
  Opened, after_open, closing, openat, Place, close_fd, in_parent, below, in_base, from_name,
  safe_path,
}
use feathers.Ufs.Calls.{Op, settled, at_path, call, status_at, open_file_at, file_result}
use feathers.Ufs.Requests.{handed}

unfoldable pub erase : ℕ → List ℕ → List ℕ
erase fd [] = []
erase fd (x ∷ xs) = let rest = erase fd xs in if x == fd then xs else x ∷ rest

abbrev pub keep : Option ℕ → List ℕ → List ℕ
keep none fds = fds
keep (some fd) fds = fd ∷ fds

abbrev opened_by : Cause ⊎ ℕ → Option ℕ
opened_by (inl c) = none
opened_by (inr fd) = some fd

-- The descriptors that were opened and not closed, the last first.
unfoldable pub open_fds : Log → List ℕ
unfolding erase
open_fds [] = []
open_fds (opens_base path a ∷ l) = keep (opened_by a) (open_fds l)
open_fds (opens d name f b a ∷ l) = keep (opened_by a) (open_fds l)
open_fds (closes fd ∷ l) = erase fd (open_fds l)
open_fds (calls c ∷ l) = open_fds l

erase-keep : (fd : ℕ) (o : Option ℕ) (fds : List ℕ) → erase fd (keep o (fd ∷ fds)) ≡ keep o fds
unfolding erase
erase-keep fd none fds = ground arith
erase-keep fd (some x) fds = elim (Bool-cases (x == fd)) [
  | inl same ↦ rw same (ap (λ y. y ∷ fds) (sym (ground (arith, same))))
  | inr other ↦ rw other (ground arith)
]

-- Closing what was opened leaves what was there before, and what is handed out.
pub open_fds-close_fd :
    (fds : List ℕ) (o : Option ℕ) (rest : List ℕ) (l : Log)
    → open_fds l ≡ keep o (fds ++ rest)
    → open_fds (close_fd fds l) ≡ keep o rest
unfolding close_fd open_fds
open_fds-close_fd [] o rest l h = h
open_fds-close_fd (fd ∷ fds) o rest l h =
    open_fds-close_fd fds o rest (closes fd ∷ l) (ap (erase fd) h ∙ erase-keep fd o (fds ++ rest))

-- What a result hands out, if an error hands out nothing.
abbrev pub nothing : {A : Type 0} → Failure ⊎ A → Option ℕ
nothing r = none

-- An operation leaves open what it hands out, and what was open before it.
abbrev pub Balanced : {A : Type 0} → (Failure ⊎ A → Option ℕ) → Op A → Type 0
Balanced h m = (l : Log) → open_fds (m l).1 ≡ keep (h (m l).0) (open_fds l)

-- A place has the descriptors open that its `closeFd` closes.
abbrev pub PlaceOpen : Log → Place × Log → Type 0
PlaceOpen l (p, done) = open_fds done ≡ p.to_close ++ open_fds l

module _ (k : Kernel) (fs : UnixFs) (safe_open : fs.use_openat2 ≡ true) where
  in_parent-open :
      (base : ℕ) (file name : Text) (f : Flags) (got : Cause ⊎ ℕ) (l before : Log)
      → open_fds l ≡ base ∷ open_fds before
      → PlaceOpen before (
        in_parent base file
            (after_open k fs name got (opens base name f fs.use_openat2 got ∷ l)).descriptor
            (after_open k fs name got (opens base name f fs.use_openat2 got ∷ l)).failure,
        opens base name f fs.use_openat2 got ∷ l,
      )
  unfolding in_parent after_open open_fds
  in_parent-open base file name f (inl c) l before h = h
  in_parent-open base file name f (inr fd) l before h = rw safe_open (ap (keep (some fd)) h)

  below-open :
      (base : ℕ) (dir file : Text) (l before : Log)
      → open_fds l ≡ base ∷ open_fds before
      → PlaceOpen before (below k fs base dir file l)
  unfolding below openat
  below-open base [] file l before h = h
  below-open base (c ∷ cs) file l before h =
      let f : Flags = closing (record directory_flags { no_follow = true }) in
      let name : Text = trim_suffix b'/' (c ∷ cs) in
      in_parent-open base file name f (k.open_at l base name f fs.use_openat2) l before h

  in_base-open :
      (name path : Text) (a : Cause ⊎ ℕ) (l : Log)
      → PlaceOpen l (in_base k fs name a (opens_base path a ∷ l))
  unfolding in_base open_fds
  in_base-open name path (inl c) l = refl
  in_base-open name path (inr base) l =
      below-open base (split_file name).0 (split_file name).1 (opens_base path (inr base) ∷ l) l
        refl

  from_name-open : (r : Failure ⊎ Text) (l : Log) → PlaceOpen l (from_name k fs r l)
  unfolding from_name
  from_name-open (inl e) l = refl
  from_name-open (inr name) l = in_base-open name fs.base_path (k.open_base l fs.base_path) l

  pub safe_path-open : (path : Text) (l : Log) → PlaceOpen l (safe_path k fs path l)
  unfolding safe_path
  safe_path-open path l = from_name-open (unsafe_path fs path) l

  pub settled-Balanced :
      {A : Type 0} (h : Failure ⊎ A → Option ℕ) (o : Option Failure) (fds : List ℕ) (f : Op A)
      (l : Log) (rest : List ℕ)
      → ((e : Failure) → h (inl e) ≡ none)
      → Balanced h f
      → open_fds l ≡ fds ++ rest
      → open_fds (settled o fds f l).1 ≡ keep (h (settled o fds f l).0) rest
  unfolding settled
  settled-Balanced h (some e) fds f l rest errs bal is =
      rw (errs e) (open_fds-close_fd fds none rest l is)
  settled-Balanced h none fds f l rest errs bal is =
      open_fds-close_fd fds (h (f l).0) rest (f l).1 (bal l ∙ ap (keep (h (f l).0)) is)

  pub at_path-Balanced :
      {A : Type 0} (h : Failure ⊎ A → Option ℕ) (path : Text) (f : ℕ → Text → Op A)
      → ((e : Failure) → h (inl e) ≡ none)
      → ((dirfd : ℕ) (name : Text) → Balanced h (f dirfd name))
      → Balanced h (at_path k fs path f)
  unfolding at_path
  at_path-Balanced h path f errs bal l =
      let (p, found) = safe_path k fs path l in
      settled-Balanced h p.failure p.to_close (f p.dirfd p.file) found (open_fds l) errs
        (bal p.dirfd p.file) (safe_path-open path l)

  file-opened :
      (d : ℕ) (name : Text) (f : Flags) (got : Cause ⊎ ℕ) (l : Log)
      → keep (opened_by got) (open_fds l)
        ≡ keep
            (handed (
              file_result
                (after_open k fs name got (opens d name f fs.use_openat2 got ∷ l)).descriptor
                (after_open k fs name got (opens d name f fs.use_openat2 got ∷ l)).failure))
            (open_fds l)
  unfolding file_result after_open handed
  file-opened d name f (inl c) l = refl
  file-opened d name f (inr fd) l = rw safe_open refl

  pub open_file_at-Balanced :
      (flag : Flags) (d : ℕ) (name : Text) → Balanced handed (open_file_at k fs flag d name)
  unfolding open_file_at openat open_fds
  open_file_at-Balanced flag d name l =
      let f : Flags = closing (record flag { no_follow = true }) in
      file-opened d name f (k.open_at l d name f fs.use_openat2) l
