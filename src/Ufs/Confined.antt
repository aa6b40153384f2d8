-- ===== src/Ufs/Confined.antt =====
-- Which files the calls of the operations of fs_unix.go name: the predicates, and safePath.
pub mod Single
pub mod Making
pub mod Runs
use feathers.Prelude.{
  ℕ, ◌≡◌, ◌≢◌, refl, ap, sym, ◌∙◌, subst, ◌⊎◌, inl, inr, Bool, true, false, Option, none, some,
  List, [], ◌∷◌, ◌++◌, arith, Bool-cases, if◌then◌else◌,
}
use feathers.Prelude.Text.{
  Text, codes, text_eq, text_eq_refl, split, split_at, split_plain, split-some, has_prefix,
  trim_suffix,
}
use feathers.Prelude.Filepath.{split_file, split_file-SplitOf}
use feathers.Ufs.{Cause, Failure, UnixFs, unsafe_path}
use feathers.Ufs.Parts.{slash, Proper, AllProper, AllProper-head, AllProper-tail}
use feathers.Ufs.Resolve.{Confined, unsafe_path-Confined}
use feathers.Ufs.Kernel.{
  Flags, directory_flags, Call, fchmodat, fchownat, utimes_nano_at, mkdirat, fstatat, unlink_at,
  renameat, symlinkat, Event, opens_base, opens, closes, calls, Log, Status, Kernel, Opened, openat,
  Place, close_fd, in_parent, below, in_base, from_name, safe_path,
}
use feathers.Ufs.Calls.{
  path_result, plain_result, link_result, Op, settled, at_path, call, status_at, chmod, fchown,
  chown, chtimes, mkdir, open_file_at, open_file, read_opened, read_dir, stat, remove_found,
  remove_stat, remove_directory, remove_at, remove, symlink,
}

-- A file of a directory, or the directory itself.
abbrev pub Named : Text → Type 0
Named name = (name ≡ codes ".") ⊎ Proper name

-- A call names files of the directories of its descriptors. What is renamed is no directory by itself.
abbrev pub CallConfined : Call → Type 0
CallConfined (fchmodat d name m) = Named name
CallConfined (fchownat d name u g n) = Named name
CallConfined (utimes_nano_at d name a m) = Named name
CallConfined (mkdirat d name m) = Named name
CallConfined (fstatat d name n) = Named name
CallConfined (unlink_at d name r) = Named name
CallConfined (renameat d name e new) = Proper name × Proper new
CallConfined (symlinkat t d name) = Named name

-- The base is opened by its path; all else is opened below a directory, and no symbolic link at its end is
-- followed.
abbrev pub EventConfined : Text → Event → Type 0
EventConfined base (opens_base path a) = path ≡ base
EventConfined base (opens d name f b a) = Confined name × (f.no_follow ≡ true)
EventConfined base (closes d) = Unit {0}
EventConfined base (calls c) = CallConfined c

abbrev pub AllConfined : Text → Log → Type 0
AllConfined base [] = Unit {0}
AllConfined base (e ∷ l) = EventConfined base e × AllConfined base l

Named-Confined : (name : Text) → Named name → Confined name
Named-Confined name (inl dot) = inl dot
Named-Confined name (inr p) = inr (rw (split_plain slash name p.no_slash) (p, tt))

close_fd-AllConfined :
    (base : Text) (fds : List ℕ) (l : Log) → AllConfined base l → AllConfined base (close_fd fds l)
unfolding close_fd
close_fd-AllConfined base [] l h = h
close_fd-AllConfined base (fd ∷ fds) l h = close_fd-AllConfined base fds (closes fd ∷ l) (tt, h)

trim_slash : (d : Text) → trim_suffix slash (d ++ slash ∷ []) ≡ d
unfolding trim_suffix
trim_slash [] = refl
trim_slash (c ∷ []) = refl
trim_slash (c ∷ e ∷ d) = ap (λ l. c ∷ l) (trim_slash (e ∷ d))

-- The parts of a path of proper parts: those of its directory, and its file.
divided :
    (name d f : Text)
    → name ≡ d ++ slash ∷ f
    → AllProper (split slash name)
    → AllProper (split slash d) × AllProper (split slash f)
divided name d f e h =
    let both : AllProper (split slash d ++ split slash f) =
      subst AllProper (ap (split slash) e ∙ split_at slash d f) h in
    (
      AllProper-head (split slash d) (split slash f) both,
      AllProper-tail (split slash d) (split slash f) both,
    )

only_part : (f : Text) → split slash f ≡ f ∷ [] → AllProper (split slash f) → Proper f
only_part f e h = (subst AllProper e h).0

-- The directory of a confined path, and the file in it.
record SplitConfined (dir file : Text) : Type 0 where
  directory_confined : (dir ≡ []) ⊎ Confined (trim_suffix slash dir)
  file_named : Named file

parts-SplitConfined :
    (name : Text)
    → AllProper (split slash name)
    → SplitConfined (split_file name).0 (split_file name).1
parts-SplitConfined name h = elim (split_file-SplitOf name) [
  | inl (e, free) ↦ rw e (record {
    directory_confined = inl refl;
    file_named = inr (only_part name (split_plain slash name free) h);
  })
  | inr (d, f, e, whole, free) ↦
      let (hd, hf) = divided name d f whole h in
      rw e (record {
        directory_confined = inr (inr (rw (trim_slash d) hd));
        file_named = inr (only_part f (split_plain slash f free) hf);
      })
]

split_file-Confined :
    (name : Text) → Confined name → SplitConfined (split_file name).0 (split_file name).1
unfolding split_file
split_file-Confined name (inl dot) =
    rw dot (record { directory_confined = inl refl; file_named = inl refl })
split_file-Confined name (inr h) = parts-SplitConfined name h

module _ (k : Kernel) (fs : UnixFs) (rooted : has_prefix fs.base_path (codes "/") ≡ true) where
  -- An operation makes only confined calls.
  abbrev pub Safe : {A : Type 0} → Op A → Type 0
  Safe m = (l : Log) → AllConfined fs.base_path l → AllConfined fs.base_path (m l).1

  -- A place is found by confined calls, and its file is a name.
  abbrev pub PlaceConfined : Place × Log → Type 0
  PlaceConfined (p, l) = AllConfined fs.base_path l × (p.failure ≡ none → Named p.file)

  pub openat-Confined :
      (d : ℕ) (name : Text) (f : Flags) (l : Log)
      → Confined name
      → AllConfined fs.base_path l
      → AllConfined fs.base_path (openat k fs d name f l).1
  unfolding openat
  openat-Confined d name f l c h = ((c, refl), h)

  in_parent-Named :
      (base : ℕ) (file : Text) (fd : ℕ) (o : Option Failure)
      → Named file
      → Named (in_parent base file fd o).file
  unfolding in_parent
  in_parent-Named base file fd none h = h
  in_parent-Named base file fd (some e) h = h

  not_empty : (c : ℕ) (cs d : Text) → ((c ∷ cs ≡ []) ⊎ Confined d) → Confined d
  not_empty c cs d (inl e) = absurd (cc)
  not_empty c cs d (inr h) = h

  below-Confined :
      (base : ℕ) (dir file : Text) (l : Log)
      → SplitConfined dir file
      → AllConfined fs.base_path l
      → PlaceConfined (below k fs base dir file l)
  unfolding below openat
  below-Confined base [] file l s h = (h, λ ok. s.file_named)
  below-Confined base (c ∷ cs) file l s h =
      let (o, done) = openat k fs base (trim_suffix slash (c ∷ cs)) directory_flags l in
      (
        ((not_empty c cs (trim_suffix slash (c ∷ cs)) s.directory_confined, refl), h),
        λ ok. in_parent-Named base file o.descriptor o.failure s.file_named,
      )

  safe_path-Confined :
      (path : Text) (l : Log) → AllConfined fs.base_path l → PlaceConfined (safe_path k fs path l)
  unfolding safe_path from_name in_base
  safe_path-Confined path l h =
      from (unsafe_path fs path) (λ n e. unsafe_path-Confined fs path n rooted e)
    where
      opened :
          (name : Text) (a : Cause ⊎ ℕ)
          → Confined name
          → (m : Log) → AllConfined fs.base_path m
          → PlaceConfined (in_base k fs name a m)
      opened name (inl e) c m hm = (hm, λ ok. absurd (cc))
      opened name (inr base) c m hm =
          below-Confined base (split_file name).0 (split_file name).1 m (split_file-Confined name c)
            hm

      from :
          (r : Failure ⊎ Text)
          → ((n : Text) → r ≡ inr n → Confined n)
          → PlaceConfined (from_name k fs r l)
      from (inl e) c = (h, λ ok. absurd (cc))
      from (inr name) c =
          opened name (k.open_base l fs.base_path) (c name refl)
            (opens_base fs.base_path (k.open_base l fs.base_path) ∷ l) (refl, h)

  pub settled-Safe :
      {A : Type 0} (o : Option Failure) (fds : List ℕ) (f : Op A)
      → (o ≡ none → Safe f)
      → Safe (settled o fds f)
  unfolding settled
  settled-Safe (some e) fds f h l hl = close_fd-AllConfined fs.base_path fds l hl
  settled-Safe none fds f h l hl = close_fd-AllConfined fs.base_path fds (f l).1 (h refl l hl)

  pub at_path-Safe :
      {A : Type 0} (path : Text) (f : ℕ → Text → Op A)
      → ((dirfd : ℕ) (name : Text) → Named name → Safe (f dirfd name))
      → Safe (at_path k fs path f)
  unfolding at_path
  at_path-Safe path f h l hl =
      let (p, found) = safe_path k fs path l in
      let (hp, named) = safe_path-Confined path l hl in
      settled-Safe p.failure p.to_close (f p.dirfd p.file) (λ ok. h p.dirfd p.file (named ok)) found
        hp

  pub call-Safe :
      {A : Type 0} (c : Call) (result : Option Cause → Failure ⊎ A)
      → CallConfined c
      → Safe (call k fs c result)
  unfolding call
  call-Safe c result hc l hl = (hc, hl)

  pub status_at-Safe :
      (dirfd : ℕ) (name : Text) (n : Bool) → Named name → Safe (status_at k fs dirfd name n)
  unfolding status_at
  status_at-Safe dirfd name n hn l hl = (hn, hl)

  pub open_file_at-Safe :
      (f : Flags) (dirfd : ℕ) (name : Text) → Named name → Safe (open_file_at k fs f dirfd name)
  unfolding open_file_at
  open_file_at-Safe f dirfd name hn l hl =
      openat-Confined dirfd name f l (Named-Confined name hn) hl
