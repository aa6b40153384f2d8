-- ===== src/Filesystem/Files/Charges.antt =====
-- The charges of writes and copies in server/filesystem/filesystem.go.
use Prim.Native.Nat.{max}
use feathers.Prelude.{
  ℕ, ◌+◌, ◌-◌, ◌≤◌, ◌≡◌, refl, ap, ◌∙◌, subst, inl, inr, Bool, true, false, not, Option, none, some,
  List, [], ◌∷◌, arith, Bool-cases, min, if◌then◌else◌,
}
use feathers.Prelude.Int.{ℤ, pos, sub64, sub64_pos, eqb_ℤ}
use feathers.Prelude.Text.{Text, text_eq}
use feathers.Quota.{Quota, add, next_usage}
use feathers.Filesystem.Disk.{Error, has_space_for}
use feathers.Filesystem.Files.{
  Node, directory, file, Volume, Failure, Reader, Calls, lookup, put, size_of, charge, finish_write,
  unless_full, writefile_at, write_at, checked, writefile, write, limit, stat_failed, is_directory,
  copy_into,
}

abbrev pub max_size : ℕ
max_size = 9223372036854775807

-- The sizes of all files together.
abbrev pub total : List (Text × Node) → ℕ
total [] = 0
total ((p, n) ∷ es) = size_of (some n) + total es

-- The usage is the size of the files, and an int64.
abbrev pub Charged : Volume → Type 0
Charged v = (v.fs.quota.usage ≡ pos (total v.entries)) × (total v.entries ≤ max_size)

total-put :
    (p : Text) (s : ℕ) (es : List (Text × Node))
    → total (put p (file s) es) + size_of (lookup p es) ≡ total es + s
unfolding put lookup
total-put p s [] = omega arith
total-put p s ((q, n) ∷ es) = elim (Bool-cases (text_eq q p)) [
  | inl same ↦ rw same (omega arith)
  | inr other ↦ rw other (omega (arith, total-put p s es))
]

size_within : (p : Text) (es : List (Text × Node)) → size_of (lookup p es) ≤ total es
unfolding lookup
size_within p [] = omega arith
size_within p ((q, n) ∷ es) = elim (Bool-cases (text_eq q p)) [
  | inl same ↦ rw same (omega arith)
  | inr other ↦ rw other (omega (arith, size_within p es))
]

-- A known usage is changed by a difference of sizes exactly.
add_exact :
    (q : Quota) (u n c : ℕ)
    → q.usage ≡ pos u
    → c ≤ u
    → u ≤ max_size
    → n ≤ max_size
    → u - c + n ≤ max_size
    → (add (sub64 (pos n) (pos c)) q).0.usage ≡ pos (u - c + n)
unfolding add next_usage
add_exact q u n c e hc hu hn h = rw e (ground (arith, sub64_pos n c))

add_grown :
    (q : Quota) (u n : ℕ)
    → q.usage ≡ pos u
    → u + n ≤ max_size
    → (add (pos n) q).0.usage ≡ pos (u + n)
unfolding add next_usage
add_grown q u n e h = rw e (ground arith)

-- A file that is replaced by one of another size.
replaced :
    (p : Text) (n c : ℕ) (v : Volume)
    → Charged v
    → size_of (lookup p v.entries) ≡ c
    → total v.entries + n ≤ max_size
    → Charged (charge (sub64 (pos n) (pos c)) (record v { entries = put p (file n) v.entries }))
unfolding charge
replaced p n c v (known, small) e h =
    let put_total = total-put p n v.entries in
    let within = size_within p v.entries in
    let sum : total v.entries - c + n ≡ total (put p (file n) v.entries) =
      omega (arith, put_total, within, e) in
    (
      add_exact v.fs.quota (total v.entries) n c known (omega (arith, within, e)) small
            (omega (arith, h)) (omega (arith, h))
          ∙ ap pos sum,
      omega (arith, sum, h),
    )

-- A new file.
created :
    (p : Text) (n : ℕ) (v : Volume)
    → Charged v
    → lookup p v.entries ≡ none
    → total v.entries + n ≤ max_size
    → Charged (charge (pos n) (record v { entries = put p (file n) v.entries }))
unfolding charge
created p n v (known, small) free h =
    let put_total = total-put p n v.entries in
    let sum : total v.entries + n ≡ total (put p (file n) v.entries) =
      omega (arith, put_total, ap size_of free) in
    (add_grown v.fs.quota (total v.entries) n known h ∙ ap pos sum, omega (arith, sum, h))

pub either_charged :
    (b : Bool) (x y : Volume × Option Failure)
    → Charged x.0
    → Charged y.0
    → Charged (if b then x else y).0
either_charged true x y p q = p
either_charged false x y p q = q

module _ (p : Text) (r : Reader) (calls : Calls) (v : Volume) (ch : Charged v) where
  checked-Charged :
      (o : Option Node) (next : ℕ → Volume × Option Failure)
      → ((c : ℕ) → size_of o ≡ c → Charged (next c).0)
      → Charged (checked calls o next v).0
  unfolding checked
  checked-Charged none next good =
      either_charged (not calls.stat) (v, some stat_failed) (next 0) ch (good 0 refl)
  checked-Charged (some directory) next good =
      either_charged (not calls.stat) (v, some stat_failed) (v, some is_directory) ch ch
  checked-Charged (some (file n)) next good =
      either_charged (not calls.stat) (v, some stat_failed) (next n) ch (good n refl)

  writefile_at-Charged :
      (c : ℕ)
      → size_of (lookup p v.entries) ≡ c
      → total v.entries + r.bytes ≤ max_size
      → Charged (writefile_at p r calls c v).0
  unfolding writefile_at finish_write
  writefile_at-Charged c e h =
      either_charged (not calls.touch) (v, _) (finish_write calls r.fine _) ch
        (replaced p r.bytes c v ch e h)

  pub unless_full-Charged :
      (o : Option Error) (done : Volume × Option Failure)
      → Charged done.0
      → Charged (unless_full o v done).0
  unfolding unless_full
  unless_full-Charged none done good = good
  unless_full-Charged (some e) done good = ch

  moved_within : (b : Bool) (k : ℕ) → (if b then 0 else min r.bytes k) ≤ r.bytes
  moved_within true k = omega arith
  moved_within false k = omega arith

  write_at-Charged :
      (c : ℕ) (new_size : ℤ)
      → size_of (lookup p v.entries) ≡ c
      → total v.entries + r.bytes ≤ max_size
      → Charged (write_at p r new_size calls c v).0
  unfolding write_at finish_write
  write_at-Charged c new_size e h =
      let n = if eqb_ℤ new_size (pos 0) then 0 else min r.bytes (limit new_size) in
      let few = moved_within (eqb_ℤ new_size (pos 0)) (limit new_size) in
      unless_full-Charged (has_space_for (sub64 new_size (pos c)) v.fs) _ (
        either_charged (not calls.touch) (v, _) (finish_write calls _ _) ch
          (replaced p n c v ch e (omega (arith, few, h))))

  free_within : (k : ℕ) → lookup p v.entries ≡ none → max (size_of (lookup p v.entries)) k ≡ k
  free_within k free = rw free (omega arith)

  pub copy_into-Charged :
      (c : ℕ) (o : Option Node)
      → o ≡ none
      → lookup p v.entries ≡ o
      → total v.entries + r.bytes ≤ max_size
      → Charged (copy_into p r c calls o v).0
  unfolding copy_into finish_write
  copy_into-Charged c none e free h =
      either_charged (not calls.touch) (v, _) (finish_write calls _ _) ch
        (subst
          (λ k.
            Charged
              (charge (pos (min r.bytes c)) (record v { entries = put p (file k) v.entries })))
          (omega arith) (created p (min r.bytes c) v ch free (omega (arith, h))))
  copy_into-Charged c (some n) e free h = cc

-- Writing keeps the usage of a volume equal to the size of its files, whatever the reader gives and whatever
-- the system answers at each call, errors included, where all sizes stay int64: `Write` and `Writefile`
-- charge exactly the difference between the new size and the old one.
pub write-Charged :
    (p : Text) (r : Reader) (new_size : ℤ) (calls : Calls) (v : Volume)
    → Charged v
    → total v.entries + r.bytes ≤ max_size
    → Charged (write p r new_size calls v).0 × Charged (writefile p r calls v).0
unfolding write writefile
write-Charged p r new_size calls v ch h = (
  checked-Charged p r calls v ch (lookup p v.entries) (λ c. write_at p r new_size calls c v)
      (λ c e. write_at-Charged p r calls v ch c new_size e h),
  checked-Charged p r calls v ch (lookup p v.entries) (λ c. writefile_at p r calls c v)
      (λ c e. writefile_at-Charged p r calls v ch c e h),
)
