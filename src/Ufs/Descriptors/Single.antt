-- ===== src/Ufs/Descriptors/Single.antt =====
-- The descriptors of the operations of fs_unix.go on one path.
use feathers.Prelude.{
  ℕ, ◌≡◌, refl, ◌∙◌, ◌⊎◌, inl, inr, Bool, true, false, Option, none, some, ◌∷◌, Bool-cases, arith,
}
use feathers.Prelude.Text.{Text, codes, text_eq}
use feathers.Ufs.{Cause, Failure, UnixFs}
use feathers.Ufs.Kernel.{
  Flags, directory_flags, Call, fchmodat, fchownat, utimes_nano_at, mkdirat, unlink_at, symlinkat,
  Log, Status, Kernel, after_open, openat, calls, closing, opens,
}
use feathers.Ufs.Calls.{
  path_result, plain_result, link_result, at_path, Op, call, status_at, chmod, chown, fchown,
  chtimes, mkdir, open_file_at, open_file, read_opened, read_dir, stat, remove_found, remove_stat,
  remove_directory, remove_at, remove, symlink,
}
use feathers.Ufs.Requests.{handed}
use feathers.Ufs.Descriptors.{
  erase, open_fds, nothing, Balanced, at_path-Balanced, open_file_at-Balanced,
}

module _ (k : Kernel) (fs : UnixFs) (safe_open : fs.use_openat2 ≡ true) where
  pub one_call-Balanced :
      {A : Type 0} (c : Call) (result : Option Cause → Failure ⊎ A)
      → Balanced nothing (call k fs c result)
  unfolding call open_fds
  one_call-Balanced c result l = refl

  pub status_at-Balanced :
      (dirfd : ℕ) (name : Text) (n : Bool) → Balanced nothing (status_at k fs dirfd name n)
  unfolding status_at open_fds
  status_at-Balanced dirfd name n l = refl

  -- An operation that makes calls at one path.
  at_path-quiet :
      {A : Type 0} (path : Text) (f : ℕ → Text → Op A)
      → ((dirfd : ℕ) (name : Text) → Balanced nothing (f dirfd name))
      → Balanced nothing (at_path k fs path f)
  at_path-quiet path f bal = at_path-Balanced k fs safe_open nothing path f (λ e. refl) bal

  pub chmod-Balanced : (path : Text) (mode : ℕ) → Balanced nothing (chmod k fs path mode)
  unfolding chmod
  chmod-Balanced path mode =
      at_path-quiet path (λ dirfd name. call k fs (fchmodat dirfd name mode) (path_result name))
        (λ d n. one_call-Balanced (fchmodat d n mode) (path_result n))

  pub chown-Balanced : (path : Text) (u g : ℕ) (n : Bool) → Balanced nothing (chown k fs path u g n)
  unfolding chown fchown
  chown-Balanced path u g n =
      at_path-quiet path (λ dirfd name. call k fs (fchownat dirfd name u g n) plain_result)
        (λ d name. one_call-Balanced (fchownat d name u g n) plain_result)

  pub chtimes-Balanced : (path : Text) (a m : Option ℕ) → Balanced nothing (chtimes k fs path a m)
  unfolding chtimes
  chtimes-Balanced path a m =
      at_path-quiet path (λ d name. call k fs (utimes_nano_at d name a m) (path_result name))
        (λ d name. one_call-Balanced (utimes_nano_at d name a m) (path_result name))

  pub mkdir-Balanced : (path : Text) (mode : ℕ) → Balanced nothing (mkdir k fs path mode)
  unfolding mkdir
  mkdir-Balanced path mode =
      at_path-quiet path (λ dirfd name. call k fs (mkdirat dirfd name mode) (path_result name))
        (λ d n. one_call-Balanced (mkdirat d n mode) (path_result n))

  pub open_file-Balanced : (path : Text) (f : Flags) → Balanced handed (open_file k fs path f)
  unfolding open_file handed
  open_file-Balanced path f =
      at_path-Balanced k fs safe_open handed path (open_file_at k fs f) (λ e. refl)
        (open_file_at-Balanced k fs safe_open f)

  pub stat-Balanced : (path : Text) (n : Bool) → Balanced nothing (stat k fs path n)
  unfolding stat
  stat-Balanced path n =
      at_path-quiet path (λ d name. status_at k fs d name n) (λ d name. status_at-Balanced d name n)

  pub symlink-Balanced : (old path : Text) → Balanced nothing (symlink k fs old path)
  unfolding symlink
  symlink-Balanced old path =
      at_path-quiet path (λ d name. call k fs (symlinkat old d name) (link_result old name))
        (λ d name. one_call-Balanced (symlinkat old d name) (link_result old name))

  -- The directory is closed if it was opened.
  read_opened-closes :
      (d : ℕ) (name : Text) (f : Flags) (got : Cause ⊎ ℕ) (l : Log)
      → open_fds
          (read_opened k fs
            (after_open k fs name got (opens d name f fs.use_openat2 got ∷ l)).descriptor
            (after_open k fs name got (opens d name f fs.use_openat2 got ∷ l)).failure
            (opens d name f fs.use_openat2 got ∷ l)).1
        ≡ open_fds l
  unfolding read_opened after_open open_fds erase
  read_opened-closes d name f (inl c) l = refl
  read_opened-closes d name f (inr fd) l = rw safe_open (ground arith)

  pub read_dir-Balanced : (path : Text) → Balanced nothing (read_dir k fs path)
  unfolding read_dir openat
  read_dir-Balanced path =
      at_path-quiet path
        (λ dirfd name l.
          let (o, done) = openat k fs dirfd name directory_flags l in
          read_opened k fs o.descriptor o.failure done)
        (λ d name l.
          let f : Flags = closing (record directory_flags { no_follow = true }) in
          read_opened-closes d name f (k.open_at l d name f fs.use_openat2) l)

  remove_found-Balanced :
      (d : ℕ) (name : Text) (r : Failure ⊎ Status) → Balanced nothing (remove_found k fs d name r)
  unfolding remove_found call open_fds
  remove_found-Balanced d name (inl e) l = refl
  remove_found-Balanced d name (inr st) l = refl

  pub remove_stat-Balanced : (path : Text) → Balanced nothing (remove_stat k fs path)
  unfolding remove_stat
  remove_stat-Balanced path =
      at_path-quiet path
        (λ dirfd name l.
          let (r, done) = status_at k fs dirfd name true l in remove_found k fs dirfd name r done)
        (λ d name l.
          let (r, done) = status_at k fs d name true l in
          remove_found-Balanced d name r done ∙ status_at-Balanced d name true l)

  remove_directory-Balanced :
      (d : ℕ) (name : Text) (o : Option Cause) → Balanced nothing (remove_directory k fs d name o)
  unfolding remove_directory call open_fds
  remove_directory-Balanced d name none l = refl
  remove_directory-Balanced d name (some c) l = refl

  remove_at-Balanced : (d : ℕ) (name : Text) → Balanced nothing (remove_at k fs d name)
  unfolding remove_at open_fds
  remove_at-Balanced d name l = elim (Bool-cases (text_eq name (codes "."))) [
    | inl dot ↦ rw dot refl
    | inr plain ↦
        let c : Call = unlink_at d name false in
        rw plain (remove_directory-Balanced d name (k.answer l c) (calls c ∷ l))
  ]

  pub remove-Balanced : (path : Text) → Balanced nothing (remove k fs path)
  unfolding remove
  remove-Balanced path = at_path-quiet path (remove_at k fs) remove_at-Balanced
