-- ===== src/Filesystem/Disk/HardLinks.antt =====
-- `DirectorySize` of server/filesystem/disk_space_unix.go counts a file once, however many links it has.
use feathers.Prelude.{
  ℕ, ◌+◌, ◌<◌, ◌≡◌, true, not, ◌&&◌, List, [], ◌∷◌, ◌++◌, arith, ltb, if◌then◌else◌,
}
use feathers.Filesystem.Disk.{Entry, contains, directory_size}

-- The inodes seen after an entry.
abbrev seen_after : Entry → List ℕ → List ℕ
seen_after e seen =
    let linked = ltb 1 e.links in
    if e.regular && linked && not (linked && contains seen e.inode) then e.inode ∷ seen else seen

abbrev counted : Entry → List ℕ → ℕ
counted e seen = if e.regular && not (ltb 1 e.links && contains seen e.inode) then e.bytes else 0

directory_size-cons :
    (e : Entry) (es : List Entry) (seen : List ℕ)
    → directory_size (e ∷ es) seen ≡ counted e seen + directory_size es (seen_after e seen)
unfolding directory_size
directory_size-cons e es seen = ground arith

contains-seen_after :
    (e : Entry) (seen : List ℕ) (i : ℕ)
    → contains seen i ≡ true
    → contains (seen_after e seen) i ≡ true
unfolding contains
contains-seen_after e seen i h = ground arith

contains_own :
    (e : Entry) (seen : List ℕ)
    → e.regular ≡ true
    → 1 < e.links
    → contains (seen_after e seen) e.inode ≡ true
unfolding contains
contains_own e seen r l = ground arith

skip_repeated :
    (es fs : List Entry) (e : Entry) (seen : List ℕ)
    → 1 < e.links
    → contains seen e.inode ≡ true
    → directory_size (es ++ e ∷ fs) seen ≡ directory_size (es ++ fs) seen
skip_repeated [] fs e seen l h = ground (arith, directory_size-cons e fs seen)
skip_repeated (d ∷ es) fs e seen l h = ground (
  arith,
  directory_size-cons d (es ++ e ∷ fs) seen,
  directory_size-cons d (es ++ fs) seen,
  skip_repeated es fs e (seen_after d seen) l (contains-seen_after d seen e.inode h),
)

-- Wherever the walk meets a second link of a file that it has already met, leaving that entry out
-- changes nothing: a file with several links is counted once.
pub directory_size_once :
    (ds es fs : List Entry) (e e' : Entry) (seen : List ℕ)
    → e.regular ≡ true
    → 1 < e.links
    → 1 < e'.links
    → e'.inode ≡ e.inode
    → directory_size (ds ++ e ∷ (es ++ e' ∷ fs)) seen ≡ directory_size (ds ++ e ∷ (es ++ fs)) seen
directory_size_once [] es fs e e' seen r l l' same = ground (
  arith,
  directory_size-cons e (es ++ e' ∷ fs) seen,
  directory_size-cons e (es ++ fs) seen,
  skip_repeated es fs e' (seen_after e seen) l' (rw same (contains_own e seen r l)),
)
directory_size_once (d ∷ ds) es fs e e' seen r l l' same = ground (
  arith,
  directory_size-cons d (ds ++ e ∷ (es ++ e' ∷ fs)) seen,
  directory_size-cons d (ds ++ e ∷ (es ++ fs)) seen,
  directory_size_once ds es fs e e' (seen_after d seen) r l l' same,
)
