-- ===== src/Filesystem/Files.antt =====
-- server/filesystem/filesystem.go: writing and copying the files of a server, with their charges. The data
-- directory is a list of its entries under their full paths.
pub mod Charges
pub mod Copies
mod Examples
use feathers.Prelude.{
  ℕ, ◌+◌, ◌-◌, ◌/◌, ◌%◌, Bool, true, false, not, ◌&&◌, ◌||◌, Option, none, some, List, [], ◌∷◌,
  ◌++◌, ltb, ◌==◌, min, drop, if◌then◌else◌, zero, suc, inl, inr, ◌⊎◌, reverse,
}
use Prim.Native.Nat.{max}
use feathers.Prelude.Int.{ℤ, pos, negsuc, sub64, eqb_ℤ}
use feathers.Prelude.Text.{Text, codes, text_eq, has_prefix}
use feathers.Quota.{add}
use feathers.Filesystem.Disk.{Filesystem, Error, has_space_for}

-- A directory, or a regular file of a size.
pub data Node : Type 0 where
  directory : Node
  file : ℕ → Node

pub record Volume : Type 0 where
  pub entries : List (Text × Node)
  pub fs : Filesystem

pub data Failure : Type 0 where
  stat_failed is_directory no_space touch_failed chown_failed copy_failed not_exist : Failure

-- What copying from a reader gives: how many bytes can be moved, and whether there is an error then.
pub record Reader : Type 0 where
  pub bytes : ℕ
  pub fine : Bool

-- Whether the calls of the system succeed.
pub record Calls : Type 0 where
  pub stat : Bool
  pub touch : Bool
  pub chown : Bool

unfoldable pub lookup : Text → List (Text × Node) → Option Node
lookup p [] = none
lookup p ((q, n) ∷ es) = let rest = lookup p es in if text_eq q p then some n else rest

unfoldable pub put : Text → Node → List (Text × Node) → List (Text × Node)
put p n [] = (p, n) ∷ []
put p n ((q, m) ∷ es) = let rest = put p n es in if text_eq q p then (q, n) ∷ es else (q, m) ∷ rest

-- The size of a file that is there, and 0 for none.
abbrev pub size_of : Option Node → ℕ
size_of none = 0
size_of (some directory) = 0
size_of (some (file n)) = n

-- `fs.unixFS.Add`
unfoldable pub charge : ℤ → Volume → Volume
unfolding add
charge i v = record v { fs = record v.fs { quota = (add i v.fs.quota).0 } }

-- The end of a write: the owner, and then the error of the copy.
unfoldable pub finish_write : Calls → Bool → Volume → Volume × Option Failure
finish_write calls fine v =
    (v, if not calls.chown then some chown_failed else if fine then none else some copy_failed)

-- After the check of the old file, of a size: `Touch`, the copy and the charge.
unfoldable pub writefile_at : Text → Reader → Calls → ℕ → Volume → Volume × Option Failure
unfolding put charge finish_write
writefile_at p r calls current v =
    let v' =
      charge (sub64 (pos r.bytes) (pos current))
        (record v { entries = put p (file r.bytes) v.entries }) in
    if not calls.touch then (v, some touch_failed) else finish_write calls r.fine v'

-- What is done, unless there is no space.
unfoldable pub unless_full :
    Option Error → Volume → Volume × Option Failure → Volume × Option Failure
unless_full (some e) v done = (v, some no_space)
unless_full none v done = done

abbrev pub limit : ℤ → ℕ
limit (pos n) = n
limit (negsuc n) = 0

-- The same for `Write`, with a limit on what is read and without a copy for a new size of 0.
unfoldable pub write_at : Text → Reader → ℤ → Calls → ℕ → Volume → Volume × Option Failure
unfolding put charge finish_write unless_full
write_at p r new_size calls current v =
    let n = min r.bytes (limit new_size) in
    let moved = if eqb_ℤ new_size (pos 0) then 0 else n in
    let fine = eqb_ℤ new_size (pos 0) || r.fine || not (ltb r.bytes (limit new_size)) in
    let v' =
      charge (sub64 (pos moved) (pos current))
        (record v { entries = put p (file moved) v.entries }) in
    unless_full (has_space_for (sub64 new_size (pos current)) v.fs) v
      (if not calls.touch then (v, some touch_failed) else finish_write calls fine v')

-- The check of what is there, before a write.
unfoldable pub checked :
    Calls → Option Node → (ℕ → Volume × Option Failure) → Volume → Volume × Option Failure
checked calls (some directory) next v =
    if not calls.stat then (v, some stat_failed) else (v, some is_directory)
checked calls (some (file n)) next v =
    let done = next n in if not calls.stat then (v, some stat_failed) else done
checked calls none next v =
    let done = next 0 in if not calls.stat then (v, some stat_failed) else done

unfoldable pub writefile : Text → Reader → Calls → Volume → Volume × Option Failure
unfolding checked writefile_at lookup
writefile p r calls v =
    checked calls (lookup p v.entries) (λ current. writefile_at p r calls current v) v

unfoldable pub write : Text → Reader → ℤ → Calls → Volume → Volume × Option Failure
unfolding checked write_at lookup
write p r new_size calls v =
    checked calls (lookup p v.entries) (λ current. write_at p r new_size calls current v) v

-- `filepath.Ext` on a name, reversed: the part before the extension, and the extension, which begins at
-- the last dot.
unfoldable pub split_reversed : Text → Text → Text × Text
split_reversed acc [] = ([], acc)
split_reversed acc (c ∷ cs) =
    let rest = split_reversed (c ∷ acc) cs in if c == b'.' then (cs, c ∷ acc) else rest

-- The name without its extension, reversed, and the extension; a name without a dot has none.
unfoldable pub split_extension : Text → Text × Text
unfolding split_reversed
split_extension name =
    let (base, ext) = split_reversed [] (reverse name) in
    if text_eq base [] && not (has_prefix ext (codes ".")) then (reverse name, []) else (base, ext)

-- The names of a copy: ".tar" before the extension counts to it. The ends are compared reversed.
unfoldable pub split_name : Text → Text × Text
unfolding split_extension
split_name name =
    let (base, ext) = split_extension name in
    if has_prefix base (codes "rat.")
    then (reverse (drop 4 base), codes ".tar" ++ ext)
    else (reverse base, ext)

-- `strconv.Itoa` below 100.
unfoldable pub itoa : ℕ → Text
itoa i = if ltb i 10 then (48 + i) ∷ [] else (48 + i / 10) ∷ (48 + i % 10) ∷ []

unfoldable pub copy_suffix : ℕ → Text
unfolding itoa
copy_suffix i = if i == 0 then codes " copy" else codes " copy " ++ itoa i

-- A name that is free is taken, and one that is there is followed by the others.
unfoldable pub next_name : Option Bool → Text → Option Text → Option Text
next_name none n rest = none
next_name (some false) n rest = some n
next_name (some true) n rest = rest

-- The loop of `findCopySuffix` from an index on, for a number of rounds: `stat` tells whether a name is
-- there, or none for an error. After the last round the time is the suffix.
unfoldable pub find_copy_suffix : (Text → Option Bool) → Text → Text → Text → ℕ → ℕ → Option Text
unfolding copy_suffix next_name
find_copy_suffix stat now name ext i zero = some (name ++ (codes "copy." ++ now) ++ ext)
find_copy_suffix stat now name ext i (suc rounds) =
    let n = name ++ copy_suffix i ++ ext in
    let rest = find_copy_suffix stat now name ext (i + 1) rounds in next_name (stat n) n rest

abbrev pub is_there : Option Node → Bool
is_there none = false
is_there (some n) = true

-- What `Lstatat` tells of a name in a directory, where some names cannot be looked up.
unfoldable pub stat_in : Text → (Text → Bool) → Volume → Text → Option Bool
unfolding lookup
stat_in dir broken v n = if broken n then none else some (is_there (lookup (dir ++ n) v.entries))

-- What is moved into the copy, whose file is not truncated.
unfoldable pub copy_into :
    Text → Reader → ℕ → Calls → Option Node → Volume → Volume × Option Failure
unfolding put charge finish_write
copy_into p r current calls (some directory) v = (v, some touch_failed)
copy_into p r current calls old v =
    let n = min r.bytes current in
    let v' = charge (pos n) (record v { entries = put p (file (max (size_of old) n)) v.entries }) in
    if not calls.touch
    then (v, some touch_failed)
    else finish_write calls (r.fine || not (ltb r.bytes current)) v'

unfoldable pub copy_named :
    Text → Option Text → Reader → ℕ → Calls → Volume → Volume × Option Failure
unfolding copy_into lookup
copy_named dir none r current calls v = (v, some stat_failed)
copy_named dir (some n) r current calls v =
    copy_into (dir ++ n) r current calls (lookup (dir ++ n) v.entries) v

-- A regular file of a size, under a name in a directory.
unfoldable pub copy_file :
    Text → Text → Text → (Text → Bool) → Reader → Calls → ℕ → Volume → Volume × Option Failure
unfolding split_name find_copy_suffix stat_in copy_named unless_full
copy_file dir name now broken r calls current v =
    let (base, ext) = split_name name in
    let found = find_copy_suffix (stat_in dir broken v) now base ext 0 51 in
    let done = copy_named dir found r current calls v in
    unless_full (has_space_for (pos current) v.fs) v done

unfoldable pub copy_node :
    Text
    → Text
    → Text
    → (Text → Bool)
    → Reader
    → Calls
    → Option Node
    → Volume
    → Volume × Option Failure
unfolding copy_file
copy_node dir name now broken r calls none v = (v, some not_exist)
copy_node dir name now broken r calls (some directory) v = (v, some not_exist)
copy_node dir name now broken r calls (some (file current)) v =
    copy_file dir name now broken r calls current v

-- `Copy`
unfoldable pub copy :
    Text → Text → Text → (Text → Bool) → Reader → Calls → Volume → Volume × Option Failure
unfolding copy_node lookup
copy dir name now broken r calls v =
    let done = copy_node dir name now broken r calls (lookup (dir ++ name) v.entries) v in
    if not calls.stat then (v, some stat_failed) else done
