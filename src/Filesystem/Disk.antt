-- ===== src/Filesystem/Disk.antt =====
-- server/filesystem/disk_space.go, disk_space_unix.go and disk_space_guard_windows.go: the cached disk
-- usage, the checks against the limit, and the reservation of space.
-- Time is an argument, in nanoseconds; a walk of the file system is an argument too.
pub mod Cache
pub mod Reserve
pub mod HardLinks
use Prim.Native.Nat.{max}
use feathers.Prelude.{
  ℕ, ◌+◌, ◌*◌, ◌/◌, ◌<◌, Bool, true, false, not, ◌&&◌, ◌||◌, Option, none, some, List, [], ◌∷◌, ltb,
  leb, ◌==◌, if◌then◌else◌,
}
use feathers.Prelude.Int.{ℤ, pos, leb_ℤ, eqb_ℤ, ◌+ℤ◌, wrap64}
use feathers.Quota.{Quota, set_limit, set_usage, add, can_fit}

pub record Filesystem : Type 0 where
  pub quota : Quota
  pub check_interval : ℕ  -- seconds
  pub last_lookup : ℕ
  pub lookup_in_progress : Bool

-- What a walk over the data directory gives: a size, and whether it ended without an error.
pub record Walk : Type 0 where
  pub size : ℤ
  pub fine : Bool

-- The answer of `DiskUsage`: the state, the size, the error, and whether a lookup was started in the
-- background.
pub record Answer : Type 0 where
  pub fs : Filesystem
  pub size : ℤ
  pub fine : Bool
  pub started : Bool

abbrev pub second : ℕ
second = 1000000000

unfoldable pub max_disk : Filesystem → ℤ
max_disk fs = fs.quota.limit

unfoldable pub set_disk_limit : ℤ → Filesystem → Filesystem
unfolding set_limit
set_disk_limit i fs = record fs { quota = (set_limit i fs.quota).0 }

unfoldable pub cached_usage : Filesystem → ℤ
cached_usage fs = fs.quota.usage

-- The size is cached also after an error. The flag of a running lookup is down again at the end.
unfoldable pub update_cached_disk_usage : ℕ → Walk → Filesystem → Answer
unfolding set_usage
update_cached_disk_usage now w fs = record {
  fs = record fs {
    quota = (set_usage w.size fs.quota).0;
    last_lookup = now;
    lookup_in_progress = false;
  };
  size = w.size;
  fine = w.fine;
  started = false;
}

-- `lastLookupTime.Get().After(now - interval)`
unfoldable pub is_fresh : ℕ → Filesystem → Bool
is_fresh now fs = ltb now (fs.last_lookup + second * fs.check_interval)

cached : Filesystem → Bool → Answer
cached fs b = record { fs = fs; size = fs.quota.usage; fine = true; started = b }

unfoldable pub disk_usage : Bool → ℕ → Walk → Filesystem → Answer
unfolding update_cached_disk_usage is_fresh cached
disk_usage allow_stale now w fs =
    if fs.check_interval == 0
    then record { fs = fs; size = pos 0; fine = true; started = false }
    else if is_fresh now fs
    then cached fs false
    else if not allow_stale
    then update_cached_disk_usage now w fs
    else cached fs (not fs.lookup_in_progress)

-- `HasSpaceAvailable`: the state and the answer. `headroom` is that of the volume.
unfoldable pub has_space_available : Bool → ℕ → Walk → Bool → Filesystem → Filesystem × Bool
unfolding disk_usage
has_space_available allow_stale now w headroom fs =
    let a = disk_usage allow_stale now w fs in
    (
      a.fs,
      if not headroom
          then false
          else if eqb_ℤ a.fs.quota.limit (pos 0)
          then true
          else leb_ℤ a.size a.fs.quota.limit,
    )

pub data Error : Type 0 where
  disk_space : Error

unfoldable pub has_space_err : Bool → ℕ → Walk → Bool → Filesystem → Filesystem × Option Error
unfolding has_space_available
has_space_err allow_stale now w headroom fs =
    let (fs', room) = has_space_available allow_stale now w headroom fs in
    (fs', if not room then some disk_space else none)

unfoldable pub has_space_for : ℤ → Filesystem → Option Error
unfolding can_fit
has_space_for size fs = if not (can_fit size fs.quota) then some disk_space else none

unfoldable pub reserve_disk : ℤ → Filesystem → Filesystem × Option Error
unfolding has_space_for add
reserve_disk size fs = if leb_ℤ size (pos 0) then (fs, none) else elim (has_space_for size fs) [
  | some e ↦ (fs, some e)
  | none ↦ (record fs { quota = (add size fs.quota).0 }, none)
]

unfoldable pub adjust_disk : ℤ → Filesystem → Filesystem × ℤ
unfolding add
adjust_disk size fs =
    let (q, next) = add size fs.quota in
    if eqb_ℤ size (pos 0) then (fs, fs.quota.usage) else (record fs { quota = q }, next)

unfoldable pub add_disk : ℤ → Filesystem → Filesystem × ℤ
unfolding add
add_disk i fs = let (q, next) = add i fs.quota in (record fs { quota = q }, next)

-- One entry that the walk of `DirectorySize` meets.
pub record Entry : Type 0 where
  pub regular : Bool
  pub links : ℕ
  pub inode : ℕ
  pub bytes : ℕ

contains : List ℕ → ℕ → Bool
contains [] i = false
contains (j ∷ js) i = j == i || contains js i

-- The callback of `DirectorySize` on Unix over the entries of the walk, with the inodes of hard links
-- seen so far. The sum is taken to be below 2 ^ 63.
unfoldable pub directory_size : List Entry → List ℕ → ℕ
unfolding contains
directory_size [] seen = 0
directory_size (e ∷ es) seen =
    let linked = ltb 1 e.links in
    let repeated = linked && contains seen e.inode in
    let rest =
      directory_size es (if e.regular && linked && not repeated then e.inode ∷ seen else seen) in
    if e.regular && not repeated then e.bytes + rest else rest

abbrev pub volume_reserve_min : ℕ
volume_reserve_min = 2 * 1024 * 1024 * 1024

abbrev pub volume_reserve_max : ℕ
volume_reserve_max = 25 * 1024 * 1024 * 1024

-- `volumeHasHeadroom` on Windows: the free and the total bytes, or no answer from the system.
unfoldable pub volume_has_headroom : Option (ℕ × ℕ) → Bool
volume_has_headroom none = true
volume_has_headroom (some (free, total)) =
    let reserve = total / 100 in
    ltb
      (if ltb reserve volume_reserve_min
        then volume_reserve_min
        else if ltb volume_reserve_max reserve
        then volume_reserve_max
        else reserve)
      free
