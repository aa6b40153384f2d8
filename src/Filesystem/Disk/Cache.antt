-- ===== src/Filesystem/Disk/Cache.antt =====
-- The cache of the disk usage in server/filesystem/disk_space.go, and the volume's reserve.
use feathers.Prelude.{
  ℕ, ◌+◌, ◌*◌, ◌<◌, ◌/◌, ◌≡◌, ◌⊎◌, ◌↔◌, refl, Bool, true, false, not, if◌then◌else◌, Option, none,
  some, arith,
}
use feathers.Prelude.Int.{ℤ, pos, ◌≤ℤ◌, leb_ℤ, eqb_ℤ}
use feathers.Filesystem.Disk.{
  Filesystem, Walk, disk_space, second, is_fresh, disk_usage, has_space_available, has_space_err,
  volume_has_headroom,
}

-- A call that may not answer from a stale cache walks the file system when the cache has run out.
-- Until the interval has passed, every later call, stale answers allowed or not, then answers with
-- that walk's size, walks no more, starts no lookup and changes nothing.
pub disk_usage_cached :
    (fs : Filesystem) (now later : ℕ) (allow_stale : Bool) (w w' : Walk)
    → 0 < fs.check_interval
    → is_fresh now fs ≡ false
    → later < now + second * fs.check_interval
    → let a = disk_usage false now w fs in
      (a.size ≡ w.size)
      × (a.fine ≡ w.fine)
      × (disk_usage allow_stale later w' a.fs
          ≡ record { fs = a.fs; size = w.size; fine = true; started = false })
unfolding disk_usage
disk_usage_cached fs now later allow_stale w w' p stale h = ground arith

-- More than 2 GiB is free, and more than one percent of the volume or more than 25 GiB.
abbrev pub HasReserve : Option (ℕ × ℕ) → Type 0
HasReserve none = Unit {0}
HasReserve (some (free, total)) =
    (2 * 1024 * 1024 * 1024 < free) × ((total / 100 < free) ⊎ (25 * 1024 * 1024 * 1024 < free))

-- A volume of any size has headroom exactly if more than 2 GiB of it is free, and more than one percent of
-- it or more than 25 GiB; a volume whose space cannot be read always has headroom.
pub volume_has_headroom_bounds :
    (volume : Option (ℕ × ℕ)) → volume_has_headroom volume ≡ true ↔ HasReserve volume
unfolding volume_has_headroom
volume_has_headroom_bounds none = (λ e. tt, λ h. refl)
volume_has_headroom_bounds (some (free, total)) = ground arith

disk_usage_limit :
    (fs : Filesystem) (allow_stale : Bool) (now : ℕ) (w : Walk)
    → (disk_usage allow_stale now w fs).fs.quota.limit ≡ fs.quota.limit
unfolding disk_usage
disk_usage_limit fs allow_stale now w = ground arith

room_iff :
    (headroom : Bool) (limit l size : ℤ)
    → l ≡ limit
    → (if not headroom then false else if eqb_ℤ l (pos 0) then true else leb_ℤ size l) ≡ true
      ↔ (headroom ≡ true) × ((limit ≡ pos 0) ⊎ (size ≤ℤ limit))
room_iff headroom limit l size e = ground arith

if-not {ℓ} : {A : Type ℓ} (b : Bool) (x y : A) → (if not b then x else y) ≡ (if b then y else x)
if-not true x y = refl
if-not false x y = refl

-- `HasSpaceAvailable` and `HasSpaceErr` agree. They let a server write exactly when its volume has
-- headroom and either its limit is 0 or the usage that `DiskUsage` answers with is within the limit:
-- a limit of -1 refuses every usage that is not negative.
pub has_space_iff :
    (fs : Filesystem) (allow_stale : Bool) (now : ℕ) (w : Walk) (headroom : Bool)
    → let a = disk_usage allow_stale now w fs in
      let room = has_space_available allow_stale now w headroom fs in
      let result = has_space_err allow_stale now w headroom fs in
      (result.0 ≡ room.0)
      × (result.1 ≡ (if room.1 then none else some disk_space))
      × (room.1 ≡ true
          ↔ (headroom ≡ true) × ((fs.quota.limit ≡ pos 0) ⊎ (a.size ≤ℤ fs.quota.limit)))
unfolding has_space_err has_space_available
has_space_iff fs allow_stale now w headroom =
    let a = disk_usage allow_stale now w fs in
    (
      refl,
      if-not (has_space_available allow_stale now w headroom fs).1 (some disk_space) none,
      room_iff headroom fs.quota.limit a.fs.quota.limit a.size
          (disk_usage_limit fs allow_stale now w),
    )
