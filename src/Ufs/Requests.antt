-- ===== src/Ufs/Requests.antt =====
-- The operations of fs_unix.go as one type of requests, and what a request adds to the calls made so far.
use feathers.Prelude.{ℕ, Bool, Option, none, some, ◌⊎◌, inl, inr, List, [], ◌∷◌}
use feathers.Prelude.Text.{Text}
use feathers.Ufs.{Failure, UnixFs}
use feathers.Ufs.Kernel.{Flags, Log, Kernel}
use feathers.Ufs.Calls.{
  chmod, chown, chtimes, mkdir, open_file, read_dir, remove_stat, remove, stat, symlink,
}
use feathers.Ufs.Operations.{mkdir_all, touch, rename}

-- `Chmod`, `Chown` and `Lchown`, `Chtimes`, `Mkdir`, `MkdirAll`, `OpenFile` (so `Open` and `Create`),
-- `ReadDir`, `RemoveStat`, `Remove`, `Rename`, `Stat` and `Lstat`, `Symlink`, `Touch`.
pub data Request : Type 0 where
  chmods : Text → ℕ → Request
  chowns : Text → ℕ → ℕ → Bool → Request
  sets_times : Text → Option ℕ → Option ℕ → Request
  makes makes_all : Text → ℕ → Request
  opens_file touches : Text → Flags → Request
  reads_dir removes_stat removes : Text → Request
  renames symlinks : Text → Text → Request
  stats : Text → Bool → Request

-- The descriptor of a file that is handed to the caller, who closes it.
unfoldable pub handed : Failure ⊎ ℕ → Option ℕ
handed (inl e) = none
handed (inr fd) = some fd

-- The calls of an operation that hands out nothing.
abbrev quiet : {A : Type 0} → (Failure ⊎ A) × Log → Option ℕ × Log
quiet (r, l) = (none, l)

abbrev handing : (Failure ⊎ ℕ) × Log → Option ℕ × Log
handing (r, l) = (handed r, l)

module _ (k : Kernel) (fs : UnixFs) where
  -- The descriptor that a request hands out, and the calls.
  unfoldable pub perform : Request → Log → Option ℕ × Log
  unfolding handed chmod chown chtimes mkdir mkdir_all open_file touch read_dir remove_stat remove
      rename symlink stat
  perform (chmods path mode) l = quiet (chmod k fs path mode l)
  perform (chowns path u g n) l = quiet (chown k fs path u g n l)
  perform (sets_times path a m) l = quiet (chtimes k fs path a m l)
  perform (makes path mode) l = quiet (mkdir k fs path mode l)
  perform (makes_all path mode) l = quiet (mkdir_all k fs path mode l)
  perform (opens_file path f) l = handing (open_file k fs path f l)
  perform (touches path f) l = handing (touch k fs path f l)
  perform (reads_dir path) l = quiet (read_dir k fs path l)
  perform (removes_stat path) l = quiet (remove_stat k fs path l)
  perform (removes path) l = quiet (remove k fs path l)
  perform (renames old new) l = quiet (rename k fs old new l)
  perform (symlinks old path) l = quiet (symlink k fs old path l)
  perform (stats path n) l = quiet (stat k fs path n l)

  -- The calls of requests, one after the other.
  unfoldable pub perform_all : List Request → Log → Log
  unfolding perform
  perform_all [] l = l
  perform_all (r ∷ rs) l = perform_all rs (perform r l).1
