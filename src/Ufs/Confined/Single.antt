-- ===== src/Ufs/Confined/Single.antt =====
-- The names in the calls of the operations of fs_unix.go on one path.
use feathers.Prelude.{ℕ, ◌≡◌, ◌⊎◌, inl, inr, Bool, true, false, Option, none, some, ◌∷◌, Bool-cases}
use feathers.Prelude.Text.{Text, codes, text_eq, has_prefix}
use feathers.Ufs.{Cause, Failure, UnixFs}
use feathers.Ufs.Kernel.{
  Flags, directory_flags, Call, fchmodat, fchownat, utimes_nano_at, mkdirat, unlink_at, symlinkat,
  Status, Kernel, openat, calls,
}
use feathers.Ufs.Calls.{
  path_result, plain_result, link_result, call, status_at, chmod, chown, fchown, chtimes, mkdir,
  open_file_at, open_file, read_opened, read_dir, stat, remove_found, remove_stat, remove_directory,
  remove_at, remove, symlink,
}
use feathers.Ufs.Confined.{
  Named, Named-Confined, Safe, openat-Confined, at_path-Safe, call-Safe, status_at-Safe,
  open_file_at-Safe,
}

module _ (k : Kernel) (fs : UnixFs) (rooted : has_prefix fs.base_path (codes "/") ≡ true) where
  pub chmod-Safe : (path : Text) (mode : ℕ) → Safe k fs rooted (chmod k fs path mode)
  unfolding chmod
  chmod-Safe path mode =
      at_path-Safe k fs rooted path
        (λ dirfd name. call k fs (fchmodat dirfd name mode) (path_result name))
        (λ d n h. call-Safe k fs rooted (fchmodat d n mode) (path_result n) h)

  pub chown-Safe : (path : Text) (u g : ℕ) (n : Bool) → Safe k fs rooted (chown k fs path u g n)
  unfolding chown fchown
  chown-Safe path u g n =
      at_path-Safe k fs rooted path
        (λ dirfd name. call k fs (fchownat dirfd name u g n) plain_result)
        (λ d name h. call-Safe k fs rooted (fchownat d name u g n) plain_result h)

  pub chtimes-Safe : (path : Text) (a m : Option ℕ) → Safe k fs rooted (chtimes k fs path a m)
  unfolding chtimes
  chtimes-Safe path a m =
      at_path-Safe k fs rooted path
        (λ d name. call k fs (utimes_nano_at d name a m) (path_result name))
        (λ d name h. call-Safe k fs rooted (utimes_nano_at d name a m) (path_result name) h)

  pub mkdir-Safe : (path : Text) (mode : ℕ) → Safe k fs rooted (mkdir k fs path mode)
  unfolding mkdir
  mkdir-Safe path mode =
      at_path-Safe k fs rooted path
        (λ dirfd name. call k fs (mkdirat dirfd name mode) (path_result name))
        (λ d n h. call-Safe k fs rooted (mkdirat d n mode) (path_result n) h)

  pub open_file-Safe : (path : Text) (f : Flags) → Safe k fs rooted (open_file k fs path f)
  unfolding open_file
  open_file-Safe path f =
      at_path-Safe k fs rooted path (open_file_at k fs f)
        (λ d n h. open_file_at-Safe k fs rooted f d n h)

  pub stat-Safe : (path : Text) (n : Bool) → Safe k fs rooted (stat k fs path n)
  unfolding stat
  stat-Safe path n =
      at_path-Safe k fs rooted path (λ d name. status_at k fs d name n)
        (λ d name h. status_at-Safe k fs rooted d name n h)

  pub symlink-Safe : (old path : Text) → Safe k fs rooted (symlink k fs old path)
  unfolding symlink
  symlink-Safe old path =
      at_path-Safe k fs rooted path
        (λ d name. call k fs (symlinkat old d name) (link_result old name))
        (λ d name h. call-Safe k fs rooted (symlinkat old d name) (link_result old name) h)

  read_opened-Safe : (fd : ℕ) (o : Option Failure) → Safe k fs rooted (read_opened k fs fd o)
  unfolding read_opened
  read_opened-Safe fd none l hl = (tt, hl)
  read_opened-Safe fd (some e) l hl = hl

  pub read_dir-Safe : (path : Text) → Safe k fs rooted (read_dir k fs path)
  unfolding read_dir
  read_dir-Safe path =
      at_path-Safe k fs rooted path
        (λ dirfd name l.
          let (o, done) = openat k fs dirfd name directory_flags l in
          read_opened k fs o.descriptor o.failure done)
        (λ d name h l hl.
          let (o, done) = openat k fs d name directory_flags l in
          read_opened-Safe o.descriptor o.failure done
            (openat-Confined k fs rooted d name directory_flags l (Named-Confined name h) hl))

  remove_found-Safe :
      (d : ℕ) (name : Text) (r : Failure ⊎ Status)
      → Named name
      → Safe k fs rooted (remove_found k fs d name r)
  unfolding remove_found call
  remove_found-Safe d name (inl e) h l hl = hl
  remove_found-Safe d name (inr st) h l hl = (h, hl)

  pub remove_stat-Safe : (path : Text) → Safe k fs rooted (remove_stat k fs path)
  unfolding remove_stat
  remove_stat-Safe path =
      at_path-Safe k fs rooted path
        (λ dirfd name l.
          let (r, done) = status_at k fs dirfd name true l in remove_found k fs dirfd name r done)
        (λ d name h l hl.
          let (r, done) = status_at k fs d name true l in
          remove_found-Safe d name r h done (status_at-Safe k fs rooted d name true h l hl))

  remove_directory-Safe :
      (d : ℕ) (name : Text) (o : Option Cause)
      → Named name
      → Safe k fs rooted (remove_directory k fs d name o)
  unfolding remove_directory call
  remove_directory-Safe d name none h l hl = hl
  remove_directory-Safe d name (some c) h l hl = (h, hl)

  remove_at-Safe : (d : ℕ) (name : Text) → Named name → Safe k fs rooted (remove_at k fs d name)
  unfolding remove_at
  remove_at-Safe d name h l hl = elim (Bool-cases (text_eq name (codes "."))) [
    | inl dot ↦ rw dot hl
    | inr plain ↦
        let c : Call = unlink_at d name false in
        rw plain (remove_directory-Safe d name (k.answer l c) h (calls c ∷ l) (h, hl))
  ]

  pub remove-Safe : (path : Text) → Safe k fs rooted (remove k fs path)
  unfolding remove
  remove-Safe path = at_path-Safe k fs rooted path (remove_at k fs) remove_at-Safe
