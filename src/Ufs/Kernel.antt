-- ===== src/Ufs/Kernel.antt =====
-- What fs_unix.go asks of the kernel: the record of the calls so far, and how a path becomes an open
-- directory and a name in it. A call that is interrupted and made again (`ignoringEINTR`, the loop of
-- `openat`) is one call here, with its last answer.
use feathers.Prelude.{
  ℕ, Bool, true, false, Option, none, some, ◌⊎◌, inl, inr, List, [], ◌∷◌, if◌then◌else◌,
}
use feathers.Prelude.Text.{Text, trim_suffix}
use feathers.Prelude.Filepath.{split_file}
use feathers.Ufs.{
  Cause, not_exist, bad_path_resolution, interrupted, again, Failure, path_error, errno, UnixFs,
  is_path_inside_of_base, unsafe_path,
}

-- The flags of an open that the code sets itself; `others` are those of the caller.
pub record Flags : Type 0 where
  pub create : Bool
  pub directory : Bool
  pub no_follow : Bool
  pub close_on_exec : Bool
  pub others : ℕ

-- A call that changes or looks at a file: the descriptor of a directory and a name in it, each time.
-- A time that is to be left alone is none.
pub data Call : Type 0 where
  fchmodat : ℕ → Text → ℕ → Call
  fchownat : ℕ → Text → ℕ → ℕ → Bool → Call
  utimes_nano_at : ℕ → Text → Option ℕ → Option ℕ → Call
  mkdirat : ℕ → Text → ℕ → Call
  fstatat : ℕ → Text → Bool → Call
  unlink_at : ℕ → Text → Bool → Call
  renameat : ℕ → Text → ℕ → Text → Call
  symlinkat : Text → ℕ → Text → Call

-- What was done, the last first. An open of the base is `opens_base`; another is below the directory of a
-- descriptor, with `RESOLVE_BENEATH` for openat2. Both have their answer.
pub data Event : Type 0 where
  opens_base : Text → Cause ⊎ ℕ → Event
  opens : ℕ → Text → Flags → Bool → Cause ⊎ ℕ → Event
  closes : ℕ → Event
  calls : Call → Event

abbrev pub Log : Type 0
Log = List Event

-- What `Lstat` and `Stat` tell.
pub record Status : Type 0 where
  pub is_dir : Bool
  pub is_symlink : Bool

-- `filepath.EvalSymlinks` of an open file: the path, or the first path that does not exist, or an error.
pub data Resolution : Type 0 where
  evaluated missing : Text → Resolution
  unevaluated : Cause → Resolution

-- The kernel: its answers can depend on all that was done, and so on what others did in between.
pub record Kernel : Type 0 where
  pub open_base : Log → Text → Cause ⊎ ℕ
  pub open_at : Log → ℕ → Text → Flags → Bool → Cause ⊎ ℕ
  pub eval_symlinks : Log → ℕ → Resolution
  pub status_of : Log → Call → Cause ⊎ Status
  pub answer : Log → Call → Option Cause
  pub entries : Log → ℕ → Failure ⊎ List Text

-- `ensurePathError`, for a failure.
unfoldable pub ensure_path_error : Text → Failure → Failure
ensure_path_error name (errno c) = path_error name c
ensure_path_error name f = f

-- The errors that `_openat` and `_openat2` return as they are.
unfoldable pub open_error : Text → Cause → Failure
open_error name interrupted = errno interrupted
open_error name again = errno again
open_error name c = path_error name c

-- A descriptor, or 0, with the error.
pub record Opened : Type 0 where
  pub descriptor : ℕ
  pub failure : Option Failure

unfoldable pub outcome : Text → Cause ⊎ ℕ → Opened
unfolding open_error
outcome name (inl c) = record { descriptor = 0; failure = some (open_error name c) }
outcome name (inr fd) = record { descriptor = fd; failure = none }

-- Where an open file lies, without openat2.
unfoldable pub judged : UnixFs → Text → ℕ → Text → Option Failure → Opened
unfolding is_path_inside_of_base
judged fs name fd final_path err =
    if is_path_inside_of_base fs final_path
    then record { descriptor = fd; failure = err }
    else record { descriptor = fd; failure = some (path_error name bad_path_resolution) }

unfoldable pub checked : UnixFs → Text → ℕ → Resolution → Opened
unfolding judged
checked fs name fd (evaluated path) = judged fs name fd path none
checked fs name fd (missing path) = judged fs name fd path (some (path_error path not_exist))
checked fs name fd (unevaluated c) = record { descriptor = fd; failure = some (errno c) }

-- The flags with which `_openat` and `_openat2` open.
unfoldable pub closing : Flags → Flags
closing f = record f { close_on_exec = true }

module _ (k : Kernel) (fs : UnixFs) where
  -- The end of `openat`, behind its loop.
  unfoldable pub after_open : Text → Cause ⊎ ℕ → Log → Opened
  unfolding outcome checked
  after_open name (inl c) l = outcome name (inl c)
  after_open name (inr fd) l =
      if fs.use_openat2
      then record { descriptor = fd; failure = none }
      else checked fs name fd (k.eval_symlinks l fd)

  -- `openat`
  unfoldable pub openat : ℕ → Text → Flags → Log → Opened × Log
  unfolding after_open closing
  openat dirfd name flag l =
      let f : Flags = closing (record flag { no_follow = true }) in
      let got = k.open_at l dirfd name f fs.use_openat2 in
      let done = opens dirfd name f fs.use_openat2 got ∷ l in (after_open name got done, done)

-- What `safePath` returns: `closeFd` closes the descriptors of a list.
pub record Place : Type 0 where
  pub dirfd : ℕ
  pub file : Text
  pub to_close : List ℕ
  pub failure : Option Failure

unfoldable pub close_fd : List ℕ → Log → Log
close_fd [] l = l
close_fd (fd ∷ fds) l = close_fd fds (closes fd ∷ l)

abbrev pub directory_flags : Flags
directory_flags = record {
  create = false;
  directory = true;
  no_follow = false;
  close_on_exec = false;
  others = 0;
}

-- Once the parent directory was opened below the base.
unfoldable pub in_parent : ℕ → Text → ℕ → Option Failure → Place
in_parent base file fd none = record {
  dirfd = fd;
  file = file;
  to_close = fd ∷ base ∷ [];
  failure = none;
}
in_parent base file fd (some e) = record {
  dirfd = fd;
  file = file;
  to_close = base ∷ [];
  failure = some e;
}

abbrev pub failed_place : Failure → Place
failed_place e = record { dirfd = 0; file = []; to_close = []; failure = some e }

module _ (k : Kernel) (fs : UnixFs) where
  -- `safePath` with the base open: the directory and the file.
  unfoldable pub below : ℕ → Text → Text → Log → Place × Log
  unfolding in_parent openat
  below base [] file l =
      (record { dirfd = base; file = file; to_close = base ∷ []; failure = none }, l)
  below base (c ∷ cs) file l =
      let (o, done) = openat k fs base (trim_suffix b'/' (c ∷ cs)) directory_flags l in
      (in_parent base file o.descriptor o.failure, done)

  unfoldable pub in_base : Text → Cause ⊎ ℕ → Log → Place × Log
  unfolding below open_error split_file
  in_base name (inl c) l = (failed_place (open_error fs.base_path c), l)
  in_base name (inr base) l = let (dir, file) = split_file name in below base dir file l

  unfoldable pub from_name : Failure ⊎ Text → Log → Place × Log
  unfolding in_base
  from_name (inl e) l = (failed_place e, l)
  from_name (inr name) l =
      let got = k.open_base l fs.base_path in in_base name got (opens_base fs.base_path got ∷ l)

  -- `safePath`
  unfoldable pub safe_path : Text → Log → Place × Log
  unfolding from_name unsafe_path
  safe_path path l = from_name (unsafe_path fs path) l
