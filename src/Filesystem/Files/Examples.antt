-- ===== src/Filesystem/Files/Examples.antt =====
-- A volume of two entries, and the theorems at it.
use feathers.Prelude.{◌≡◌, refl, Bool, true, false, some, [], ◌∷◌, ◌++◌, arith}
use feathers.Prelude.Int.{pos}
use feathers.Prelude.Text.{Text, codes, text_eq, has_prefix}
use feathers.Filesystem.Files.{
  Volume, Reader, Calls, directory, file, write, writefile, copy, copy_suffix, split_name, stat_in,
}
use feathers.Filesystem.Files.Charges.{Charged, write-Charged}
use feathers.Filesystem.Files.Copies.{copy-Charged}

abbrev volume : Volume
volume = record {
  entries = (codes "logs", directory) ∷ (codes "a.tar.gz", file 7) ∷ [];
  fs = record {
    quota = record { limit = pos 100; usage = pos 7 };
    check_interval = 150;
    last_lookup = 0;
    lookup_in_progress = false;
  };
}

abbrev reader : Reader
reader = record { bytes = 9; fine = true }

abbrev calls : Calls
calls = record { stat = true; touch = true; chown = true }

abbrev charged : Charged volume
charged = (refl, omega arith)

-- All names can be looked up.
abbrev works : Text → Bool
works n = false

parts : split_name (codes "a.tar.gz") ≡ (codes "a", codes ".tar.gz")
unfolding split_name text_eq has_prefix
parts = refl

write-Charged_example :
    Charged (write (codes "a.tar.gz") reader (pos 4) calls volume).0
    × Charged (writefile (codes "a.tar.gz") reader calls volume).0
write-Charged_example =
    write-Charged (codes "a.tar.gz") reader (pos 4) calls volume charged (omega arith)

free_name :
    stat_in [] works volume
      ((split_name (codes "a.tar.gz")).0 ++ copy_suffix 0 ++ (split_name (codes "a.tar.gz")).1)
    ≡ some false
unfolding split_name stat_in copy_suffix text_eq has_prefix
free_name = refl

copy-Charged_example :
    Charged (copy [] (codes "a.tar.gz") (codes "now") works reader calls volume).0
copy-Charged_example =
    copy-Charged [] (codes "a.tar.gz") (codes "now") works reader calls volume 0 charged
      (omega arith) free_name (omega arith)
