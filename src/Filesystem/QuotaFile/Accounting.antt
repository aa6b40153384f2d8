-- ===== src/Filesystem/QuotaFile/Accounting.antt =====
-- The quota stays in step with the sizes of the files that are written through quotaFile.
use Prim.Native.Nat.{max}
use feathers.Prelude.{
  ℕ, ◌+◌, ◌-◌, ◌≤◌, ◌<◌, ◌≡◌, ◌⊎◌, inl, inr, refl, Bool, Option, none, some, arith, dec_lt, ◌==◌,
  if◌then◌else◌,
}
use feathers.Prelude.Int.{ℤ, sub_ℕ, sub64, sub64_pos, pos}
use feathers.Filesystem.Disk.{Filesystem, Error, disk_space, reserve_disk, adjust_disk}
use feathers.Filesystem.Disk.Reserve.{reserve_disk_limit}
use feathers.Filesystem.QuotaFile.{
  QuotaFile, quota, io, Written, quota_write_end, reserve, settle, finish, written_end,
  write_at_locked, close,
}

-- An open file with a known charge, on a file system with a known usage.
abbrev pub handle : Filesystem → ℤ → ℕ → ℕ → QuotaFile
handle fs limit usage size = record {
  fs = record fs { quota = record { limit = limit; usage = pos usage } };
  size = pos size;
}

abbrev pub charged : Filesystem → ℤ → ℕ → Filesystem
charged fs limit usage = record fs { quota = record { limit = limit; usage = pos usage } }

-- A correction of a known usage that stays an int64 is exact, down to 0.
adjust_exact :
    (fs : Filesystem) (limit : ℤ) (u a b : ℕ)
    → a ≤ 9223372036854775807
    → b ≤ 9223372036854775807
    → u + a - b ≤ 9223372036854775807
    → u ≤ 9223372036854775807
    → (adjust_disk (sub_ℕ a b) (charged fs limit u)).0 ≡ charged fs limit (u + a - b)
unfolding adjust_disk
adjust_exact fs limit u a b ha hb h hu = elim (dec_lt a b) [
  | yes less ↦ ground arith
  | no more ↦ ground arith
]

settle_exact :
    (fs : Filesystem) (limit : ℤ) (u z e k : ℕ)
    → z ≤ e
    → k ≤ e
    → u + (e - z) ≤ 9223372036854775807
    → e ≤ 9223372036854775807
    → settle (pos z) (pos e) (pos k) (handle fs limit (u + (e - z)) z)
      ≡ handle fs limit (u + (max z k - z)) (max z k)
unfolding settle
settle_exact fs limit u z e k ze ke h he = elim (dec_lt z k) [
  | yes grown ↦ ground (
    arith,
    sub64_pos e z,
    sub64_pos k z,
    sub64_pos (k - z) (e - z),
    adjust_exact fs limit (u + (e - z)) (k - z) (e - z),
  )
  | no same ↦
      ground
        (arith, sub64_pos e z, sub64_pos 0 (e - z), adjust_exact fs limit (u + (e - z)) 0 (e - z))
]

settle_within :
    (fs : Filesystem) (limit : ℤ) (u z e k : ℕ)
    → e ≤ z
    → k ≤ z
    → z ≤ 9223372036854775807
    → settle (pos z) (pos e) (pos k) (handle fs limit u z) ≡ handle fs limit u z
unfolding settle
settle_within fs limit u z e k ez kz hz = ground (arith, sub64_pos e z)

-- The size of a file of size `z` after `k` bytes were written at `o`.
abbrev pub size_after : ℕ → ℕ → ℕ → ℕ
size_after z o k = if k == 0 then z else max z (o + k)

quota_write_end_exact :
    (o l : ℕ) → o + l ≤ 9223372036854775807 → quota_write_end (pos o) (pos l) ≡ some (pos (o + l))
unfolding quota_write_end
quota_write_end_exact o l h = ground arith

written_end_exact :
    (z o k : ℕ) (fine : Bool)
    → o + k ≤ 9223372036854775807
    → written_end (pos z) (pos o) (record { n = pos k; fine = fine })
      ≡ pos (if k == 0 then z else o + k)
unfolding written_end
written_end_exact z o k fine h = ground (arith, quota_write_end_exact o k h)

reserve-none :
    (e z : ℕ) (f : QuotaFile)
    → e ≤ z
    → z ≤ 9223372036854775807
    → reserve (sub64 (pos e) (pos z)) f ≡ (f, none)
unfolding reserve
reserve-none e z f h hz = ground (arith, sub64_pos e z)

reserve_growth :
    (e z : ℕ) (f : QuotaFile) (fs' : Filesystem) (r : Option Error)
    → z < e
    → e ≤ 9223372036854775807
    → reserve_disk (pos (e - z)) f.fs ≡ (fs', r)
    → reserve (sub64 (pos e) (pos z)) f ≡ (record f { fs = fs' }, r)
unfolding reserve
reserve_growth e z f fs' r h he q = ground (arith, sub64_pos e z)

-- What a write of `l` bytes at `o` promises, of which `k` are written, on a file of size `z`. If the
-- growth fits the limit, the handle's charge and the usage grow by the growth of the file and no
-- more; if it does not, the write fails and nothing changes.
abbrev pub Accounted : Filesystem → ℕ → ℕ → ℕ → ℕ → ℕ → ℕ → Bool → Written → Type 0
Accounted fs limit u z o l k fine w =
    let size = size_after z o k in
    ((u + (o + l - z) ≤ limit ⊎ o + l ≤ z)
      × (w ≡ record {
        file = handle fs (pos limit) (u + (size - z)) size;
        n = pos k;
        error = if fine then none else some io;
      }))
    ⊎ ((z < o + l)
        × (limit < u + (o + l - z))
        × (w ≡ record {
          file = handle fs (pos limit) u z;
          n = pos 0;
          error = some (quota disk_space);
        }))

-- The sizes are int64, there is a limit, and no more is written than was asked for.
pub record Sizes (limit u z o l k : ℕ) : Type 0 where
  pub positive : 0 < limit
  pub limit_int64 : limit ≤ 9223372036854775807
  pub usage_int64 : u ≤ 9223372036854775807
  pub size_int64 : z ≤ 9223372036854775807
  pub end_int64 : o + l ≤ 9223372036854775807
  pub no_more : k ≤ l

write_within :
    (fs : Filesystem) (limit u z o l k : ℕ) (fine : Bool)
    → Sizes limit u z o l k
    → o + l ≤ z
    → Accounted fs limit u z o l k fine (
        write_at_locked
          (pos l)
          (pos o)
          (record { n = pos k; fine = fine })
          (handle fs (pos limit) u z))
unfolding write_at_locked finish
write_within fs limit u z o l k fine s h = ground (
  arith,
  quota_write_end_exact o l s.end_int64,
  written_end_exact z o k fine,
  reserve-none (o + l) z (handle fs (pos limit) u z) h s.size_int64,
  settle_within fs (pos limit) u z (o + l) (if k == 0 then z else o + k) h,
)

reserve_fits :
    (fs : Filesystem) (limit u z e : ℕ)
    → 0 < limit
    → limit ≤ 9223372036854775807
    → z < e
    → e ≤ 9223372036854775807
    → u + (e - z) ≤ limit
    → reserve_disk (pos (e - z)) (charged fs (pos limit) u)
      ≡ (charged fs (pos limit) (u + (e - z)), none)
reserve_fits fs limit u z e p hl h he fits =
    elim (reserve_disk_limit (e - z) u limit (charged fs (pos limit) u) (omega arith) refl p
      (omega arith) (omega arith) (omega arith)) [
        | inl done ↦ done.1
        | inr over ↦ absurd (omega (arith, over.0))
      ]

reserve_over :
    (fs : Filesystem) (limit u z e : ℕ)
    → 0 < limit
    → limit ≤ 9223372036854775807
    → u ≤ 9223372036854775807
    → z < e
    → e ≤ 9223372036854775807
    → limit < u + (e - z)
    → reserve_disk (pos (e - z)) (charged fs (pos limit) u)
      ≡ (charged fs (pos limit) u, some disk_space)
reserve_over fs limit u z e p hl hu h he over =
    elim (reserve_disk_limit (e - z) u limit (charged fs (pos limit) u) (omega arith) refl p
      (omega arith) (omega arith) (omega arith)) [
        | inl done ↦ absurd (omega (arith, done.0))
        | inr refused ↦ refused.1
      ]

write_growing :
    (fs : Filesystem) (limit u z o l k : ℕ) (fine : Bool)
    → Sizes limit u z o l k
    → z < o + l
    → u + (o + l - z) ≤ limit
    → Accounted fs limit u z o l k fine (
        write_at_locked
          (pos l)
          (pos o)
          (record { n = pos k; fine = fine })
          (handle fs (pos limit) u z))
unfolding write_at_locked finish
write_growing fs limit u z o l k fine s h fits = ground (
  arith,
  quota_write_end_exact o l s.end_int64,
  written_end_exact z o k fine,
  reserve_growth (o + l) z (handle fs (pos limit) u z) (charged fs (pos limit) (u + (o + l - z)))
      none h s.end_int64
      (reserve_fits fs limit u z (o + l) s.positive s.limit_int64 h s.end_int64 fits),
  settle_exact fs (pos limit) u z (o + l) (if k == 0 then z else o + k),
)

write_refused :
    (fs : Filesystem) (limit u z o l k : ℕ) (fine : Bool)
    → Sizes limit u z o l k
    → z < o + l
    → limit < u + (o + l - z)
    → Accounted fs limit u z o l k fine (
        write_at_locked
          (pos l)
          (pos o)
          (record { n = pos k; fine = fine })
          (handle fs (pos limit) u z))
unfolding write_at_locked finish
write_refused fs limit u z o l k fine s h over = ground (
  arith,
  quota_write_end_exact o l s.end_int64,
  reserve_growth (o + l) z (handle fs (pos limit) u z) (charged fs (pos limit) u) (some disk_space)
      h s.end_int64
      (reserve_over fs limit u z (o + l) s.positive s.limit_int64 s.usage_int64 h s.end_int64 over),
)

-- Under a limit, `writeAtLocked` keeps the quota in step with the file on every branch: whether the
-- growth fits or not, however much of it the file below then writes, and with its error or without.
pub write_at_locked-Accounted :
    (fs : Filesystem) (limit u z o l k : ℕ) (fine : Bool)
    → Sizes limit u z o l k
    → Accounted fs limit u z o l k fine (
        write_at_locked
          (pos l)
          (pos o)
          (record { n = pos k; fine = fine })
          (handle fs (pos limit) u z))
write_at_locked-Accounted fs limit u z o l k fine s = elim (dec_lt z (o + l)) [
  | yes grows ↦ elim (dec_lt limit (u + (o + l - z))) [
    | yes over ↦ write_refused fs limit u z o l k fine s grows over
    | no fits ↦ write_growing fs limit u z o l k fine s grows (omega arith)
  ]
  | no within ↦ write_within fs limit u z o l k fine s (omega arith)
]

-- `Close` charges what the file's size really is: afterwards the usage counts exactly that size for
-- this file, where it counted the handle's size before.
pub close_settles :
    (fs : Filesystem) (limit : ℤ) (u z size : ℕ) (closed : Bool)
    → z ≤ u
    → u ≤ 9223372036854775807
    → size ≤ 9223372036854775807
    → u - z + size ≤ 9223372036854775807
    → close (some (pos size)) closed (handle fs limit u z)
      ≡ (record { fs = charged fs limit (u - z + size); size = pos z }, closed)
unfolding close
close_settles fs limit u z size closed hz hu hs h =
    ground (arith, sub64_pos size z, adjust_exact fs limit u size z)
