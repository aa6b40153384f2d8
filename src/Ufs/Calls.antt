-- ===== src/Ufs/Calls.antt =====
-- The operations of fs_unix.go that resolve one path and make calls with the name they get.
use feathers.Prelude.{
  ℕ, Bool, true, false, Option, none, some, ◌⊎◌, inl, inr, List, ◌∷◌, if◌then◌else◌,
}
use feathers.Prelude.Text.{Text, codes, text_eq}
use feathers.Ufs.{
  Cause, not_directory, bad_path_resolution, Failure, path_error, link_error, errno, UnixFs,
}
use feathers.Ufs.Kernel.{
  Flags, Call, fchmodat, fchownat, utimes_nano_at, mkdirat, fstatat, unlink_at, symlinkat, closes,
  calls, Log, Status, Kernel, ensure_path_error, openat, close_fd, directory_flags, safe_path,
}

-- An operation: a failure or a result, and what was done.
abbrev pub Op : Type 0 → Type 0
Op A = Log → (Failure ⊎ A) × Log

-- The rest of an operation, once `safePath` gave a place; `defer closeFd()` runs at its end.
unfoldable pub settled : {A : Type 0} → Option Failure → List ℕ → Op A → Op A
unfolding close_fd
settled (some e) fds f l = (inl e, close_fd fds l)
settled none fds f l = let (r, done) = f l in (r, close_fd fds done)

-- One call, whose error the code makes a path error, or leaves as it is.
unfoldable pub path_result : Text → Option Cause → Failure ⊎ Unit {0}
path_result name none = inr tt
path_result name (some c) = inl (path_error name c)

unfoldable pub plain_result : Option Cause → Failure ⊎ Unit {0}
plain_result none = inr tt
plain_result (some c) = inl (errno c)

unfoldable pub link_result : Text → Text → Option Cause → Failure ⊎ Unit {0}
link_result old new none = inr tt
link_result old new (some c) = inl (link_error old new c)

unfoldable pub status_result : Text → Cause ⊎ Status → Failure ⊎ Status
status_result name (inl c) = inl (path_error name c)
status_result name (inr st) = inr st

unfoldable pub with_path_error : {A : Type 0} → Text → Failure ⊎ A → Failure ⊎ A
unfolding ensure_path_error
with_path_error name (inl e) = inl (ensure_path_error name e)
with_path_error name (inr a) = inr a

-- What `openat` gave, as `openFile` returns it: with an error the descriptor is dropped.
unfoldable pub file_result : ℕ → Option Failure → Failure ⊎ ℕ
file_result fd none = inr fd
file_result fd (some e) = inl e

module _ (k : Kernel) (fs : UnixFs) where
  unfoldable pub at_path : {A : Type 0} → Text → (ℕ → Text → Op A) → Op A
  unfolding settled safe_path
  at_path path f l =
      let (p, found) = safe_path k fs path l in
      settled p.failure p.to_close (f p.dirfd p.file) found

  -- A call that answers with an error or with nothing.
  unfoldable pub call : {A : Type 0} → Call → (Option Cause → Failure ⊎ A) → Op A
  call c result l = (result (k.answer l c), calls c ∷ l)

  -- `_fstatat`
  unfoldable pub status_at : ℕ → Text → Bool → Op Status
  unfolding status_result
  status_at dirfd name no_follow l =
      let c : Call = fstatat dirfd name no_follow in
      (status_result name (k.status_of l c), calls c ∷ l)

  unfoldable pub chmod : Text → ℕ → Op (Unit {0})
  unfolding at_path call path_result
  chmod path mode = at_path path (λ dirfd name. call (fchmodat dirfd name mode) (path_result name))

  unfoldable pub fchown : Text → ℕ → ℕ → Bool → Op (Unit {0})
  unfolding at_path call plain_result
  fchown path uid gid no_follow =
      at_path path (λ dirfd name. call (fchownat dirfd name uid gid no_follow) plain_result)

  -- `Chown`, and `Lchown` without following.
  unfoldable pub chown : Text → ℕ → ℕ → Bool → Op (Unit {0})
  unfolding fchown with_path_error
  chown path uid gid no_follow l =
      let (r, done) = fchown path uid gid no_follow l in (with_path_error path r, done)

  unfoldable pub chtimes : Text → Option ℕ → Option ℕ → Op (Unit {0})
  unfolding at_path call path_result
  chtimes path atime mtime =
      at_path path (λ dirfd name. call (utimes_nano_at dirfd name atime mtime) (path_result name))

  unfoldable pub mkdir : Text → ℕ → Op (Unit {0})
  unfolding at_path call path_result
  mkdir path mode = at_path path (λ dirfd name. call (mkdirat dirfd name mode) (path_result name))

  -- `OpenFileat`
  unfoldable pub open_file_at : Flags → ℕ → Text → Op ℕ
  unfolding openat file_result
  open_file_at flag dirfd name l =
      let (o, done) = openat k fs dirfd name flag l in (file_result o.descriptor o.failure, done)

  unfoldable pub open_file : Text → Flags → Op ℕ
  unfolding at_path open_file_at
  open_file path flag = at_path path (open_file_at flag)

  -- The entries of an open directory, which is closed at the end.
  unfoldable pub read_opened : ℕ → Option Failure → Op (List Text)
  read_opened fd (some e) l = (inl e, l)
  read_opened fd none l = (k.entries l fd, closes fd ∷ l)

  unfoldable pub read_dir : Text → Op (List Text)
  unfolding at_path openat read_opened
  read_dir path = at_path path (λ dirfd name l.
      let (o, done) = openat k fs dirfd name directory_flags l in
      read_opened o.descriptor o.failure done)

  -- `Stat`, and `Lstat` without following.
  unfoldable pub stat : Text → Bool → Op Status
  unfolding at_path status_at
  stat path no_follow = at_path path (λ dirfd name. status_at dirfd name no_follow)

  -- The removal of what was found, and what was found.
  unfoldable pub remove_found : ℕ → Text → Failure ⊎ Status → Op Status
  unfolding call path_result
  remove_found dirfd name (inl e) l = (inl e, l)
  remove_found dirfd name (inr st) l =
      call (unlink_at dirfd name st.is_dir) (removed_result name st) l
    where
      removed_result : Text → Status → Option Cause → Failure ⊎ Status
      removed_result name st none = inr st
      removed_result name st (some c) = inl (path_error name c)

  unfoldable pub remove_stat : Text → Op Status
  unfolding at_path status_at remove_found
  remove_stat path = at_path path (λ dirfd name l.
      let (r, done) = status_at dirfd name true l in remove_found dirfd name r done)

  -- The error of the first attempt is kept if the second says that there is no directory.
  unfoldable pub worse : Cause → Cause → Cause
  worse first not_directory = first
  worse first second = second

  unfoldable pub remove_directory : ℕ → Text → Option Cause → Op (Unit {0})
  unfolding call worse
  remove_directory dirfd name none l = (inr tt, l)
  remove_directory dirfd name (some first) l =
      call (unlink_at dirfd name true) (second_result name first) l
    where
      second_result : Text → Cause → Option Cause → Failure ⊎ Unit {0}
      second_result name first none = inr tt
      second_result name first (some second) = inl (path_error name (worse first second))

  unfoldable pub remove_at : ℕ → Text → Op (Unit {0})
  unfolding remove_directory text_eq
  remove_at dirfd name l =
      let c : Call = unlink_at dirfd name false in
      if text_eq name (codes ".")
      then (inl (path_error name bad_path_resolution), l)
      else remove_directory dirfd name (k.answer l c) (calls c ∷ l)

  unfoldable pub remove : Text → Op (Unit {0})
  unfolding at_path remove_at
  remove path = at_path path remove_at

  unfoldable pub symlink : Text → Text → Op (Unit {0})
  unfolding at_path call link_result
  symlink old path =
      at_path path (λ dirfd name. call (symlinkat old dirfd name) (link_result old name))
