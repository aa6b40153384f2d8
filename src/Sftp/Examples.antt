-- ===== src/Sftp/Examples.antt =====
-- A small file system behind a connection, and the theorems at it.
use feathers.Prelude.{ℕ, ◌+◌, ◌≡◌, ◌⊎◌, ◌≢◌, refl, true, false, some, List, [], ◌∷◌}
use feathers.Prelude.Text.{codes, text_eq, split, has_prefix}
use feathers.Prelude.Filepath.{clean}
use feathers.Sftp.{
  ok, permission_denied, mkdir, Request, fine, not_exist, Files, Handler, ServerStatus, filecmd,
  filewrite, fileread, filelist, made_directory, chowned, logged_create_directory,
}
use feathers.Sftp.Access.{requests_guarded, MayPerform, MayWrite, Refused, Allowed}
use feathers.Sftp.Effects.{filecmd_outcome, Denied, OneChange}

-- The number of changes; nothing is there before the first.
abbrev files : Files ℕ
files = record {
  has_space = λ n. (n, true);
  stat = λ path n. not_exist;
  file = λ path n. not_exist;
  read_dir = λ path n. fine;
  apply = λ change n. (n + 1, fine);
}

abbrev free : ServerStatus
free = record { suspended = false; installing = false; transferring = false; restoring = false }

abbrev user : Handler ℕ
user = record {
  permissions = codes "file.create" ∷ codes "file.read" ∷ [];
  read_only = false;
  status = free;
  changes = [];
  files = 0;
}

abbrev request : Request
request = record {
  method = mkdir;
  filepath = codes "/a/../b/c";
  target = [];
  mode = 0;
  is_dir = false;
}

cleaned : clean (codes "/a/../b//./c") ≡ codes "/b/c"
unfolding clean text_eq split has_prefix
cleaned = refl

cleaned_up : clean (codes "../x/../..") ≡ codes "../.."
unfolding clean text_eq split has_prefix
cleaned_up = refl

made :
    (filecmd files request user).0.changes
    ≡ made_directory (codes "c") (codes "/b")
      ∷ logged_create_directory (codes "/a/../b/c")
      ∷ chowned (codes "/a/../b/c")
      ∷ []
unfolding filecmd text_eq split clean has_prefix
made = refl

requests_guarded_example :
    (MayPerform files request user ⊎ Refused files (filecmd files request user) user)
    × (MayWrite files request user ⊎ Refused files (filewrite files request user) user)
    × (Allowed files (codes "file.read-content") user
        ⊎ (fileread files request user ≡ permission_denied))
    × (Allowed files (codes "file.read") user
        ⊎ (filelist files (some true) request user ≡ permission_denied))
requests_guarded_example = requests_guarded files request (some true) user

filecmd_outcome_example :
    (Denied files request user
      × ((filecmd files request user).0 ≡ user)
      × ((filecmd files request user).1 ≢ ok))
    ⊎ OneChange files request user (filecmd files request user)
filecmd_outcome_example = filecmd_outcome files request user

abbrev listing : List ℕ
listing = 5 ∷ 6 ∷ 7 ∷ 8 ∷ []
