-- ===== src/Ufs/Confined/Runs.antt =====
-- The names in the calls of any requests.
use feathers.Prelude.{◌≡◌, true, List, [], ◌∷◌}
use feathers.Prelude.Text.{codes, has_prefix}
use feathers.Ufs.{UnixFs}
use feathers.Ufs.Kernel.{Kernel, Log}
use feathers.Ufs.Requests.{
  Request, chmods, chowns, sets_times, makes, makes_all, opens_file, touches, reads_dir,
  removes_stat, removes, renames, symlinks, stats, perform, perform_all,
}
use feathers.Ufs.Confined.{AllConfined}
use feathers.Ufs.Confined.Single.{
  chmod-Safe, chown-Safe, chtimes-Safe, mkdir-Safe, open_file-Safe, read_dir-Safe, remove_stat-Safe,
  remove-Safe, stat-Safe, symlink-Safe,
}
use feathers.Ufs.Confined.Making.{mkdir_all-Safe, touch-Safe, rename-Safe}

module _ (k : Kernel) (fs : UnixFs) (rooted : has_prefix fs.base_path (codes "/") ≡ true) where
  perform-Confined :
      (r : Request) (l : Log)
      → AllConfined fs.base_path l
      → AllConfined fs.base_path (perform k fs r l).1
  unfolding perform
  perform-Confined (chmods path mode) l h = chmod-Safe k fs rooted path mode l h
  perform-Confined (chowns path u g n) l h = chown-Safe k fs rooted path u g n l h
  perform-Confined (sets_times path a m) l h = chtimes-Safe k fs rooted path a m l h
  perform-Confined (makes path mode) l h = mkdir-Safe k fs rooted path mode l h
  perform-Confined (makes_all path mode) l h = mkdir_all-Safe k fs rooted path mode l h
  perform-Confined (opens_file path f) l h = open_file-Safe k fs rooted path f l h
  perform-Confined (touches path f) l h = touch-Safe k fs rooted path f l h
  perform-Confined (reads_dir path) l h = read_dir-Safe k fs rooted path l h
  perform-Confined (removes_stat path) l h = remove_stat-Safe k fs rooted path l h
  perform-Confined (removes path) l h = remove-Safe k fs rooted path l h
  perform-Confined (renames old new) l h = rename-Safe k fs rooted old new l h
  perform-Confined (symlinks old path) l h = symlink-Safe k fs rooted old path l h
  perform-Confined (stats path n) l h = stat-Safe k fs rooted path n l h

  perform_all-keeps :
      (rs : List Request) (l : Log)
      → AllConfined fs.base_path l
      → AllConfined fs.base_path (perform_all k fs rs l)
  unfolding perform_all
  perform_all-keeps [] l h = h
  perform_all-keeps (r ∷ rs) l h =
      perform_all-keeps rs (perform k fs r l).1 (perform-Confined r l h)

  -- Whatever the paths of requests are and whatever the kernel answers, with a rooted base path all that
  -- the operations ask of the kernel is confined: only the base itself is opened by its path; every other
  -- open and every call is made in the directory of a descriptor, with the dot or a name that is not
  -- empty, not two dots and has no slash (an open of a directory, with a path of such names), an open
  -- follows no symbolic link at its end, and both names of a rename are names other than the dot.
  pub perform_all-Confined : (rs : List Request) → AllConfined fs.base_path (perform_all k fs rs [])
  perform_all-Confined rs = perform_all-keeps rs [] tt
