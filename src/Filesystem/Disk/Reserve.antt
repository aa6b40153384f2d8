-- ===== src/Filesystem/Disk/Reserve.antt =====
-- The reservation of space in server/filesystem/disk_space.go.
use feathers.Prelude.{ℕ, ◌+◌, ◌≤◌, ◌<◌, ◌≡◌, ◌⊎◌, none, some, arith}
use feathers.Prelude.Int.{pos, IsInt64}
use feathers.Filesystem.Disk.{Filesystem, disk_space, reserve_disk}

-- Under a limit, a reservation of a positive size either fits: then the usage grows by exactly that
-- size and stays within the limit. Or it does not: then the call fails and nothing changes.
pub reserve_disk_limit :
    (size : ℕ) (u limit : ℕ) (fs : Filesystem)
    → 0 < size
    → fs.quota ≡ record { limit = pos limit; usage = pos u }
    → 0 < limit
    → IsInt64 (pos limit)
    → IsInt64 (pos u)
    → IsInt64 (pos size)
    → ((u + size ≤ limit)
        × (reserve_disk (pos size) fs
            ≡ (record fs { quota = record { limit = pos limit; usage = pos (u + size) } }, none)))
      ⊎ ((limit < u + size) × (reserve_disk (pos size) fs ≡ (fs, some disk_space)))
unfolding reserve_disk
reserve_disk_limit size u limit fs p q l hl hu hs = ground arith
