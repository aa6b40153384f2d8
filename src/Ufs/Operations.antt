-- ===== src/Ufs/Operations.antt =====
-- The operations of fs_unix.go that make directories which are missing: `MkdirAll` with mkdir_unix.go,
-- `Rename` and `Touch`.
use feathers.Prelude.{
  ℕ, zero, suc, ◌+◌, ◌-◌, ◌≤◌, arith, Bool, true, false, Option, none, some, ◌⊎◌, inl, inr, [], ◌∷◌,
  length, take, ltb, ◌==◌, if◌then◌else◌,
}
use feathers.Prelude.Text.{Text, codes, text_eq}
use feathers.Prelude.Filepath.{split_file}
use feathers.Ufs.{
  not_exist, exist, not_directory, bad_path_resolution, Failure, path_error, UnixFs, unsafe_path,
}
use feathers.Ufs.Kernel.{Flags, renameat, Log, Status, Kernel, Place, close_fd, safe_path}
use feathers.Ufs.Calls.{Op, settled, link_result, call, status_at, mkdir, stat, open_file_at}

-- The path of an error that says that it does not exist.
unfoldable pub missing_path : Failure → Option Text
missing_path (path_error q not_exist) = some q
missing_path e = none

keep_front : ℕ → Text → Text
keep_front c [] = if c == b'/' then [] else c ∷ []
keep_front c (d ∷ ds) = c ∷ d ∷ ds

-- The name without the slashes at its end.
unfoldable pub trim_end : Text → Text
unfolding keep_front
trim_end [] = []
trim_end (c ∷ cs) = keep_front c (trim_end cs)

keep_front-length : (c : ℕ) (cs : Text) → length (keep_front c cs) ≤ length cs + 1
unfolding keep_front
keep_front-length c [] = ground arith
keep_front-length c (d ∷ ds) = omega arith

pub length-trim_end : (t : Text) → length (trim_end t) ≤ length t
unfolding trim_end
length-trim_end [] = omega arith
length-trim_end (c ∷ cs) = omega (arith, keep_front-length c (trim_end cs), length-trim_end cs)

-- `name[:j-1]` where `j` is behind the last slash of the name, if `j > 1`.
unfoldable pub parent_of : Text → Option Text
unfolding trim_end split_file
parent_of name =
    let (dir, file) = split_file (trim_end name) in
    if ltb 1 (length dir) then some (take (length dir - 1) dir) else none

module _ (k : Kernel) (fs : UnixFs) where
  -- What `mkdirAll` makes of a name that is there.
  unfoldable pub found_directory : Text → Failure ⊎ Status → Failure ⊎ Unit {0}
  found_directory name (inl e) = inl e
  found_directory name (inr st) = if st.is_dir then inr tt else inl (path_error name not_directory)

  unfoldable pub follow : Text → Bool → Status → Op (Unit {0})
  unfolding found_directory stat
  follow name false st l = (found_directory name (inr st), l)
  follow name true st l = let (r, done) = stat k fs name false l in (found_directory name r, done)

  -- After a failed `Mkdir`: that the directory is there now is no error.
  unfoldable pub despite : Failure → Failure ⊎ Status → Failure ⊎ Unit {0}
  despite e (inl e1) = inl e
  despite e (inr st) = if st.is_dir then inr tt else inl e

  unfoldable pub made : Text → Failure ⊎ Unit {0} → Op (Unit {0})
  unfolding despite stat
  made name (inr u) l = (inr tt, l)
  made name (inl e) l = let (r, done) = stat k fs name true l in (despite e r, done)

  unfoldable pub make_one : Text → ℕ → Op (Unit {0})
  unfolding made mkdir
  make_one name mode l = let (r, done) = mkdir k fs name mode l in made name r done

  -- The parent first, if the name has one.
  unfoldable pub then_make : Text → ℕ → Failure ⊎ Unit {0} → Op (Unit {0})
  unfolding make_one
  then_make name mode (inl e) l = (inl e, l)
  then_make name mode (inr u) l = make_one name mode l

  unfoldable pub after_parent : Text → ℕ → Option Text → (Text → Op (Unit {0})) → Op (Unit {0})
  unfolding then_make
  after_parent name mode none make l = make_one name mode l
  after_parent name mode (some p) make l = let (r, done) = make p l in then_make name mode r done

  unfoldable pub unless_there : Text → ℕ → (Text → Op (Unit {0})) → Failure ⊎ Status → Op (Unit {0})
  unfolding follow after_parent
  unless_there name mode make (inr st) l = follow name st.is_symlink st l
  unless_there name mode make (inl e) l = after_parent name mode (parent_of name) make l

  -- `mkdirAll`, with a number of directories that may be looked at above the name.
  unfoldable pub mkdir_all_within : ℕ → Text → ℕ → Op (Unit {0})
  unfolding unless_there stat parent_of
  mkdir_all_within zero name mode l = (inl (path_error name not_exist), l)
  mkdir_all_within (suc n) name mode l =
      let (r, done) = stat k fs name true l in
      unless_there name mode (λ p. mkdir_all_within n p mode) r done

  unfoldable pub mkdir_all_resolved : ℕ → Failure ⊎ Text → Op (Unit {0})
  unfolding mkdir_all_within
  mkdir_all_resolved mode (inl e) l = (inl e, l)
  mkdir_all_resolved mode (inr name) l = mkdir_all_within (length name + 1) name mode l

  -- `MkdirAll`
  unfoldable pub mkdir_all : Text → ℕ → Op (Unit {0})
  unfolding mkdir_all_resolved unsafe_path
  mkdir_all path mode = mkdir_all_resolved mode (unsafe_path fs path)

  -- `TouchPath`: the place, and whether the parent was there.
  unfoldable pub touch_again : Text → Place → Failure ⊎ Unit {0} → Log → (Place × Bool) × Log
  unfolding safe_path close_fd
  touch_again path p (inl e) l = ((record p { failure = some e }, false), l)
  touch_again path p (inr u) l =
      let (q, done) = safe_path k fs path (close_fd p.to_close l) in ((q, false), done)

  unfoldable pub touch_made : Text → Place → Option Text → Log → (Place × Bool) × Log
  unfolding touch_again mkdir_all
  touch_made path p none l = ((p, false), l)
  touch_made path p (some q) l = let (r, done) = mkdir_all q 493 l in touch_again path p r done

  unfoldable pub touch_missing : Text → Place → Option Failure → Log → (Place × Bool) × Log
  unfolding touch_made missing_path
  touch_missing path p none l = ((p, true), l)
  touch_missing path p (some e) l = touch_made path p (missing_path e) l

  unfoldable pub touch_path : Text → Log → (Place × Bool) × Log
  unfolding touch_missing safe_path
  touch_path path l = let (p, done) = safe_path k fs path l in touch_missing path p p.failure done

  -- `Touch`
  unfoldable pub touch : Text → Flags → Op ℕ
  unfolding touch_path settled open_file_at
  touch path flag l =
      let ((p, existed), found) = touch_path path l in
      settled p.failure p.to_close
        (open_file_at k fs (record flag { create = true }) p.dirfd p.file) found

  -- The end of `Rename`, with what `Lstat` said of the new name.
  unfoldable pub rename_free :
      Text → Text → ℕ → Text → ℕ → Text → Failure → Option Text → Op (Unit {0})
  unfolding call link_result
  rename_free old new olddirfd oldname newdirfd newname e none l = (inl e, l)
  rename_free old new olddirfd oldname newdirfd newname e (some q) l =
      call k fs (renameat olddirfd oldname newdirfd newname) (link_result old new) l

  unfoldable pub rename_to : Text → Text → ℕ → Text → ℕ → Text → Failure ⊎ Status → Op (Unit {0})
  unfolding rename_free missing_path
  rename_to old new olddirfd oldname newdirfd newname (inr st) l =
      (inl (path_error newname exist), l)
  rename_to old new olddirfd oldname newdirfd newname (inl e) l =
      rename_free old new olddirfd oldname newdirfd newname e (missing_path e) l

  unfoldable pub rename_at : Text → Text → ℕ → Text → ℕ → Text → Op (Unit {0})
  unfolding rename_to status_at text_eq
  rename_at old new olddirfd oldname newdirfd newname l =
      let (r, done) = status_at k fs newdirfd newname true l in
      if text_eq newname (codes ".")
      then (inl (path_error newname bad_path_resolution), l)
      else rename_to old new olddirfd oldname newdirfd newname r done

  -- Once the parent of the new path was made.
  unfoldable pub rename_anew : Text → Text → ℕ → Text → Failure ⊎ Unit {0} → Op (Unit {0})
  unfolding rename_at safe_path settled
  rename_anew old new olddirfd oldname (inl e) l = (inl e, l)
  rename_anew old new olddirfd oldname (inr u) l =
      let (q, done) = safe_path k fs new l in
      settled q.failure q.to_close (rename_at old new olddirfd oldname q.dirfd q.file) done

  unfoldable pub rename_missing : Text → Text → ℕ → Text → Failure → Option Text → Op (Unit {0})
  unfolding rename_anew mkdir_all
  rename_missing old new olddirfd oldname e none l = (inl e, l)
  rename_missing old new olddirfd oldname e (some p) l =
      let (r, done) = mkdir_all p 493 l in rename_anew old new olddirfd oldname r done

  unfoldable pub rename_into : Text → Text → ℕ → Text → Place → Option Failure → Op (Unit {0})
  unfolding rename_at rename_missing missing_path close_fd settled
  rename_into old new olddirfd oldname q none l =
      settled none q.to_close (rename_at old new olddirfd oldname q.dirfd q.file) l
  rename_into old new olddirfd oldname q (some e) l =
      rename_missing old new olddirfd oldname e (missing_path e) (close_fd q.to_close l)

  unfoldable pub rename_found : Text → Text → ℕ → Text → Failure ⊎ Status → Op (Unit {0})
  unfolding rename_into safe_path
  rename_found old new olddirfd oldname (inl e) l = (inl e, l)
  rename_found old new olddirfd oldname (inr st) l =
      let (q, done) = safe_path k fs new l in rename_into old new olddirfd oldname q q.failure done

  unfoldable pub rename_from : Text → Text → ℕ → Text → Op (Unit {0})
  unfolding rename_found status_at text_eq
  rename_from old new olddirfd oldname l =
      let (r, done) = status_at k fs olddirfd oldname true l in
      if text_eq oldname (codes ".")
      then (inl (path_error oldname bad_path_resolution), l)
      else rename_found old new olddirfd oldname r done

  -- `Rename`
  unfoldable pub rename : Text → Text → Op (Unit {0})
  unfolding rename_from safe_path settled text_eq
  rename old new l =
      let (p, done) = safe_path k fs old l in
      if text_eq old new
      then (inr tt, l)
      else settled p.failure p.to_close (rename_from old new p.dirfd p.file) done
