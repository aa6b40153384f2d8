-- ===== src/Ufs/Descriptors/Runs.antt =====
-- The descriptors of any request.
use feathers.Prelude.{◌≡◌, true}
use feathers.Ufs.{UnixFs}
use feathers.Ufs.Kernel.{Kernel, Log}
use feathers.Ufs.Requests.{
  Request, chmods, chowns, sets_times, makes, makes_all, opens_file, touches, reads_dir,
  removes_stat, removes, renames, symlinks, stats, perform,
}
use feathers.Ufs.Descriptors.{keep, open_fds}
use feathers.Ufs.Descriptors.Single.{
  chmod-Balanced, chown-Balanced, chtimes-Balanced, mkdir-Balanced, open_file-Balanced,
  read_dir-Balanced, remove_stat-Balanced, remove-Balanced, stat-Balanced, symlink-Balanced,
}
use feathers.Ufs.Descriptors.Making.{mkdir_all-Balanced, touch-Balanced, rename-Balanced}

module _ (k : Kernel) (fs : UnixFs) (safe_open : fs.use_openat2 ≡ true) where
  -- With openat2, whatever the kernel answers, errors included, a request closes every descriptor that it
  -- opened but that of the file it hands to the caller: after it, exactly this one is open in addition to
  -- those that were open before.
  pub perform-balanced :
      (r : Request) (l : Log)
      → open_fds (perform k fs r l).1 ≡ keep (perform k fs r l).0 (open_fds l)
  unfolding perform
  perform-balanced (chmods path mode) l = chmod-Balanced k fs safe_open path mode l
  perform-balanced (chowns path u g n) l = chown-Balanced k fs safe_open path u g n l
  perform-balanced (sets_times path a m) l = chtimes-Balanced k fs safe_open path a m l
  perform-balanced (makes path mode) l = mkdir-Balanced k fs safe_open path mode l
  perform-balanced (makes_all path mode) l = mkdir_all-Balanced k fs safe_open path mode l
  perform-balanced (opens_file path f) l = open_file-Balanced k fs safe_open path f l
  perform-balanced (touches path f) l = touch-Balanced k fs safe_open path f l
  perform-balanced (reads_dir path) l = read_dir-Balanced k fs safe_open path l
  perform-balanced (removes_stat path) l = remove_stat-Balanced k fs safe_open path l
  perform-balanced (removes path) l = remove-Balanced k fs safe_open path l
  perform-balanced (renames old new) l = rename-Balanced k fs safe_open old new l
  perform-balanced (symlinks old path) l = symlink-Balanced k fs safe_open old path l
  perform-balanced (stats path n) l = stat-Balanced k fs safe_open path n l
