-- ===== src/Filesystem/QuotaFile/Examples.antt =====
-- Runs of the disk accounting, and the theorems at them.
use feathers.Prelude.{
  ◌+◌, ◌-◌, ◌≤◌, ◌<◌, ◌≡◌, ◌⊎◌, ◌↔◌, refl, true, false, none, some, [], ◌∷◌, arith, if◌then◌else◌,
}
use feathers.Prelude.Int.{pos, ◌≤ℤ◌}
use feathers.Filesystem.Disk.{
  volume_has_headroom, Filesystem, Walk, Entry, disk_space, disk_usage, has_space_available,
  has_space_err, reserve_disk, directory_size,
}
use feathers.Filesystem.Disk.Cache.{HasReserve, volume_has_headroom_bounds, has_space_iff}
use feathers.Filesystem.Disk.Reserve.{reserve_disk_limit}
use feathers.Filesystem.QuotaFile.{QuotaFile, write_at_locked, close}
use feathers.Filesystem.QuotaFile.Accounting.{
  handle, charged, Accounted, write_at_locked-Accounted, close_settles,
}

abbrev server_files : Filesystem
server_files = record {
  quota = record { limit = pos 100; usage = pos 50 };
  check_interval = 150;
  last_lookup = 0;
  lookup_in_progress = false;
}

abbrev walked : Walk
walked = record { size = pos 80; fine = true }

has_space_iff_example :
    let a = disk_usage false 200000000000 walked server_files in
    let room = has_space_available false 200000000000 walked true server_files in
    let result = has_space_err false 200000000000 walked true server_files in
    (result.0 ≡ room.0)
    × (result.1 ≡ (if room.1 then none else some disk_space))
    × (room.1 ≡ true ↔ (true ≡ true) × ((pos 100 ≡ pos 0) ⊎ (a.size ≤ℤ pos 100)))
has_space_iff_example = has_space_iff server_files false 200000000000 walked true

-- One percent of this volume is less than 2 GiB.
volume_has_headroom_bounds_example :
    volume_has_headroom (some (10000000000, 100000000000)) ≡ true
    ↔ HasReserve (some (10000000000, 100000000000))
volume_has_headroom_bounds_example = volume_has_headroom_bounds (some (10000000000, 100000000000))

reserve_disk_limit_example :
    ((50 + 51 ≤ 100)
      × (reserve_disk (pos 51) server_files ≡ (
        record server_files { quota = record { limit = pos 100; usage = pos (50 + 51) } },
        none,
      )))
    ⊎ ((100 < 50 + 51) × (reserve_disk (pos 51) server_files ≡ (server_files, some disk_space)))
reserve_disk_limit_example =
    reserve_disk_limit 51 50 100 server_files (omega arith) refl (omega arith) (omega arith)
      (omega arith) (omega arith)

abbrev linked : Entry
linked = record { regular = true; links = 2; inode = 7; bytes = 30 }

abbrev plain : Entry
plain = record { regular = true; links = 1; inode = 8; bytes = 5 }

linked_once : directory_size (linked ∷ plain ∷ linked ∷ []) [] ≡ 35
unfolding directory_size
linked_once = refl

abbrev written_file : QuotaFile
written_file = handle server_files (pos 100) 50 20

write_at_locked-Accounted_example :
    Accounted server_files 100 50 20 15 30 10 false
      (write_at_locked (pos 30) (pos 15) (record { n = pos 10; fine = false }) written_file)
write_at_locked-Accounted_example =
    write_at_locked-Accounted server_files 100 50 20 15 30 10 false (omega arith)

close_settles_example :
    close (some (pos 25)) true written_file
    ≡ (record { fs = charged server_files (pos 100) (50 - 20 + 25); size = pos 20 }, true)
close_settles_example =
    close_settles server_files (pos 100) 50 20 25 true (omega arith) (omega arith) (omega arith)
      (omega arith)
