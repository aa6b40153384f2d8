-- ===== src/Ufs/Examples.antt =====
-- The operations of fs_unix.go on a small kernel: tests and examples.
use feathers.Prelude.{◌≡◌, refl, arith, true, false, none, inl, inr, List, [], ◌∷◌, ◌++◌}
use feathers.Prelude.Text.{codes, text_eq, has_prefix, split}
use feathers.Ufs.{bad_path_resolution, path_error, UnixFs, new_unix_fs, unsafe_path}
use feathers.Ufs.Parts.{Proper}
use feathers.Ufs.Kept.{rooted_path, unsafe_path_kept}
use feathers.Ufs.Kernel.{
  unlink_at, opens_base, opens, closes, calls, evaluated, Kernel, directory_flags,
}
use feathers.Ufs.Calls.{remove, open_file}
use feathers.Ufs.Requests.{Request, opens_file, removes, renames, perform, perform_all}
use feathers.Ufs.Confined.{AllConfined}
use feathers.Ufs.Confined.Runs.{perform_all-Confined}
use feathers.Ufs.Descriptors.{keep, open_fds}
use feathers.Ufs.Descriptors.Runs.{perform-balanced}
use feathers.Prelude.Filepath.{join}

-- The base is descriptor 3, everything opened in it is 4, lies in /etc and is a file.
abbrev kernel : Kernel
kernel = record {
  open_base = λ l path. inr 3;
  open_at = λ l d name f b. inr 4;
  eval_symlinks = λ l fd. evaluated (codes "/etc");
  status_of = λ l c. inr (record { is_dir = false; is_symlink = false });
  answer = λ l c. none;
  entries = λ l fd. inr [];
}

abbrev srv : UnixFs
srv = record { base_path = codes "/srv"; use_openat2 = true }

abbrev old_kernel_srv : UnixFs
old_kernel_srv = record { base_path = codes "/srv"; use_openat2 = false }

strips : new_unix_fs (codes "/srv/") true ≡ srv
unfolding new_unix_fs
strips = refl

stays : unsafe_path srv (codes "a/../b//./c") ≡ inr (codes "b/c")
unfolding unsafe_path split text_eq
stays = refl

escapes :
    unsafe_path srv (codes "a/../../etc")
    ≡ inl (path_error (codes "a/../../etc") bad_path_resolution)
unfolding unsafe_path split text_eq
escapes = refl

removes_below : remove kernel srv (codes "a/b") [] ≡ (
  inr tt,
  closes 3
      ∷ closes 4
      ∷ calls (unlink_at 4 (codes "b") false)
      ∷ opens 3
          (codes "a")
          (record directory_flags { no_follow = true; close_on_exec = true })
          true
          (inr 4)
      ∷ opens_base (codes "/srv") (inr 3)
      ∷ [],
)
unfolding remove split
removes_below = refl

-- Without openat2 the descriptor of a file that lies elsewhere stays open.
stays_open : open_file kernel old_kernel_srv (codes "passwd") directory_flags [] ≡ (
  inl (path_error (codes "passwd") bad_path_resolution),
  closes 3
      ∷ opens 3
          (codes "passwd")
          (record directory_flags { no_follow = true; close_on_exec = true })
          false
          (inr 4)
      ∷ opens_base (codes "/srv") (inr 3)
      ∷ [],
)
unfolding open_file split text_eq
stays_open = refl

srv_rooted : has_prefix (codes "/srv") (codes "/") ≡ true
unfolding has_prefix
srv_rooted = refl

abbrev requests : List Request
requests = removes (codes "../a/b") ∷ renames (codes "c") (codes "d/e") ∷ []

perform_all-Confined_example : AllConfined (codes "/srv") (perform_all kernel srv requests [])
perform_all-Confined_example = perform_all-Confined kernel srv srv_rooted requests

perform-balanced_example :
    open_fds (perform kernel srv (opens_file (codes "a/b") directory_flags) []).1
    ≡ keep (perform kernel srv (opens_file (codes "a/b") directory_flags) []).0 (open_fds [])
perform-balanced_example =
    perform-balanced kernel srv refl (opens_file (codes "a/b") directory_flags) []

a_Proper : Proper (codes "a")
unfolding text_eq
a_Proper = record { some_text = refl; no_dot = refl; no_dots = refl; no_slash = (ground arith, tt) }

unsafe_path_kept_example :
    (unsafe_path
        (record { base_path = rooted_path (codes "a" ∷ []); use_openat2 = true })
        (join (codes "/") (codes "a" ∷ codes "a" ∷ []))
      ≡ inr (join (codes "/") (codes "a" ∷ codes "a" ∷ [])))
    × (unsafe_path
          (record { base_path = rooted_path (codes "a" ∷ []); use_openat2 = true })
          (rooted_path (codes "a" ∷ []) ++ b'/' ∷ join (codes "/") (codes "a" ∷ codes "a" ∷ []))
        ≡ inr (join (codes "/") (codes "a" ∷ codes "a" ∷ [])))
unsafe_path_kept_example =
    unsafe_path_kept (codes "a") [] (codes "a") (codes "a" ∷ []) (a_Proper, tt)
      (a_Proper, (a_Proper, tt)) true
