-- ===== src/Filesystem/QuotaFile.antt =====
-- server/filesystem/quota_file.go: an open file whose writes are charged to the quota.
-- What the file below answers (the offset of a seek, the bytes written and the error of a write, the
-- size at the end) is an argument of each call.
pub mod Accounting
mod Examples
use feathers.Prelude.{ℕ, Bool, true, false, not, ◌||◌, Option, none, some, ◌==◌, if◌then◌else◌}
use feathers.Prelude.Int.{ℤ, pos, negsuc, ◌+ℤ◌, ◌-ℤ◌, ltb_ℤ, leb_ℤ, max_int64, wrap64, sub64}
use feathers.Filesystem.Disk.{Filesystem, Error, disk_space, reserve_disk, adjust_disk}

-- The file system that the handle charges, and the size that is charged for the file.
pub record QuotaFile : Type 0 where
  pub fs : Filesystem
  pub size : ℤ

pub data WriteError : Type 0 where
  quota : Error → WriteError
  io : WriteError

-- What `File.Write` or `File.WriteAt` returns: the number of bytes written, and whether its error is
-- nil.
pub record Reply : Type 0 where
  pub n : ℤ
  pub fine : Bool

pub record Written : Type 0 where
  pub file : QuotaFile
  pub n : ℤ
  pub error : Option WriteError

pub quota_write_end : ℤ → ℤ → Option ℤ
unfolding wrap64 ◌+ℤ◌ ◌-ℤ◌
quota_write_end off size =
    if ltb_ℤ size (pos 0) || ltb_ℤ (wrap64 (max_int64 -ℤ size)) off
    then none
    else some (wrap64 (off +ℤ size))

abbrev io_error : Reply → Option WriteError
io_error r = if r.fine then none else some io

-- `writtenEnd` after the write: a failed `quotaWriteEnd` leaves 0.
written_end : ℤ → ℤ → Reply → ℤ
written_end previous off r =
    if ltb_ℤ (pos 0) r.n
    then (elim (quota_write_end off r.n) [ none ↦ pos 0 | some e ↦ e ])
    else previous

-- The bookkeeping behind the write: the file's size, and the part of the reservation given back.
settle : ℤ → ℤ → ℤ → QuotaFile → QuotaFile
settle previous end reached f =
    let size' = if ltb_ℤ previous reached then reached else f.size in
    let reserved = sub64 end previous in
    let actual = if ltb_ℤ previous reached then sub64 reached previous else pos 0 in
    if ltb_ℤ (pos 0) reserved
    then (if ltb_ℤ actual reserved
        then record { fs = (adjust_disk (sub64 actual reserved) f.fs).0; size = size' }
        else record { fs = f.fs; size = size' })
    else record { fs = f.fs; size = size' }

reserve : ℤ → QuotaFile → QuotaFile × Option Error
reserve growth f =
    let (fs', e) = reserve_disk growth f.fs in
    if ltb_ℤ (pos 0) growth then (record f { fs = fs' }, e) else (f, none)

-- After the reservation: a refusal, or the write and its bookkeeping.
finish : ℤ → ℤ → ℤ → Reply → QuotaFile → Option Error → Written
finish previous end off r f (some e) = record { file = f; n = pos 0; error = some (quota e) }
finish previous end off r f none = record {
  file = settle previous end (written_end previous off r) f;
  n = r.n;
  error = io_error r;
}

pub write_at_locked : ℤ → ℤ → Reply → QuotaFile → Written
write_at_locked len off r f = elim (quota_write_end off len) [
  | none ↦ record { file = f; n = pos 0; error = some (quota disk_space) }
  | some end ↦ let (f', e) = reserve (sub64 end f.size) f in finish f.size end off r f' e
]

-- A call that goes straight to the file below.
abbrev pass_through : Reply → QuotaFile → Written
pass_through r f = record { file = f; n = r.n; error = io_error r }

-- `Write` of `len` bytes; `seek` is the current offset, or none for an error.
pub write : ℕ → Option ℤ → Reply → QuotaFile → Written
write len seek r f = if len == 0 then pass_through r f else elim seek [
  | none ↦ record { file = f; n = pos 0; error = some io }
  | some off ↦ write_at_locked (pos len) off r f
]

pub write_at : ℕ → ℤ → Reply → QuotaFile → Written
write_at len off r f =
    if ltb_ℤ off (pos 0) || len == 0 then pass_through r f else write_at_locked (pos len) off r f

-- `Close`: `stat` is the file's size, or none for an error, and `closed` whether closing succeeded.
pub close : Option ℤ → Bool → QuotaFile → QuotaFile × Bool
close none closed f = (f, false)
close (some size) closed f = (record f { fs = (adjust_disk (sub64 size f.size) f.fs).0 }, closed)
