-- ===== src/Ufs.antt =====
-- internal/ufs/fs_unix.go and mkdir_unix.go: the file system of a server. Every operation resolves its
-- path below the base path, opens the parent directory and calls the kernel with a name in it.
pub mod Parts
pub mod Resolve
pub mod Kept
pub mod Kernel
pub mod Calls
pub mod Operations
pub mod Fuel
mod Examples
pub mod Requests
pub mod Confined
pub mod Descriptors
use feathers.Prelude.{Bool, ◌⊎◌, inl, inr, [], ◌∷◌, ◌++◌, if◌then◌else◌}
use feathers.Prelude.Text.{Text, codes, has_prefix, trim_prefix, trim_suffix}
use feathers.Prelude.Filepath.{clean, join_two}

-- What an operation fails with: the errors of the kernel that the code tells apart, and its own.
pub data Cause : Type 0 where
  not_exist exist not_directory bad_path_resolution interrupted again other : Cause

pub data Failure : Type 0 where
  path_error : Text → Cause → Failure
  link_error : Text → Text → Cause → Failure
  errno : Cause → Failure

-- `UnixFS`
pub record UnixFs : Type 0 where
  pub base_path : Text
  pub use_openat2 : Bool

-- `NewUnixFS`
unfoldable pub new_unix_fs : Text → Bool → UnixFs
unfolding trim_suffix
new_unix_fs base use_openat2 = record {
  base_path = trim_suffix b'/' base;
  use_openat2 = use_openat2;
}

-- `unsafeIsPathInsideOfBase`
unfoldable pub is_path_inside_of_base : UnixFs → Text → Bool
unfolding has_prefix trim_suffix
is_path_inside_of_base fs path =
    has_prefix (trim_suffix b'/' path ++ codes "/") (fs.base_path ++ codes "/")

-- A path that is the base itself is named by a dot.
unfoldable pub or_dot : Text → Text
or_dot [] = codes "."
or_dot (c ∷ cs) = c ∷ cs

-- What `unsafePath` makes of the cleaned path.
unfoldable pub relative : UnixFs → Text → Text → Failure ⊎ Text
unfolding trim_prefix is_path_inside_of_base or_dot
relative fs path r =
    if is_path_inside_of_base fs r
    then inr (or_dot (trim_prefix (trim_prefix r fs.base_path) (codes "/")))
    else inl (path_error path bad_path_resolution)

-- `unsafePath`
unfoldable pub unsafe_path : UnixFs → Text → Failure ⊎ Text
unfolding clean join_two trim_prefix relative
unsafe_path fs path =
    relative fs path (clean (join_two fs.base_path (trim_prefix path fs.base_path)))
