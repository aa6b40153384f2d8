-- ===== src/Paths.antt =====
-- internal/ufs/path_unix.go: the parts of a path. The loops of the source run over the index from the
-- end of the path, so here they run over the reversed path.
pub mod Parts
mod Examples
use feathers.Prelude.{ℕ, Bool, true, false, ◌&&◌, List, [], ◌∷◌, ◌++◌, reverse, ◌==◌, if◌then◌else◌}
use feathers.Prelude.Text.{Text, codes}

abbrev pub slash : ℕ
slash = b'/'

-- `for ; i > 0 && name[i] == '/'; i-- { name = name[:i] }`, on the reversed name.
unfoldable pub trim : Text → Text
trim [] = []
trim (c ∷ []) = c ∷ []
trim (c ∷ d ∷ rest) = let shorter = trim (d ∷ rest) in if c == slash then shorter else c ∷ d ∷ rest

-- The search for the last slash before the end of the reversed name: what lies behind it, in order.
unfoldable pub behind_slash : Text → Text → Text
behind_slash acc [] = acc
behind_slash acc (c ∷ cs) = let rest = behind_slash (c ∷ acc) cs in if c == slash then acc else rest

-- The last rune is not looked at.
unfoldable pub last_part : Text → Text
unfolding behind_slash
last_part [] = []
last_part (c ∷ cs) = behind_slash (c ∷ []) cs

unfoldable pub basename : Text → Text
unfolding trim last_part
basename name = last_part (trim (reverse name))

-- `endsWithDot`, on the reversed path.
ends_with_dot_reversed : Text → Bool
ends_with_dot_reversed [] = false
ends_with_dot_reversed (c ∷ []) = c == b'.'
ends_with_dot_reversed (c ∷ d ∷ rest) = c == b'.' && d == slash

unfoldable pub ends_with_dot : Text → Bool
unfolding ends_with_dot_reversed
ends_with_dot path = ends_with_dot_reversed (reverse path)

-- All but one leading slash is removed.
unfoldable pub trim_front : Text → Text
trim_front [] = []
trim_front (c ∷ []) = c ∷ []
trim_front (c ∷ d ∷ rest) =
    let shorter = trim_front (d ∷ rest) in
    if c == slash && d == slash then shorter else c ∷ d ∷ rest

-- The directory when a slash is found, from what is before it, reversed.
unfoldable pub dir_before : Text → Text
dir_before [] = slash ∷ []
dir_before (c ∷ cs) = reverse (c ∷ cs)

unfoldable pub split_at_slash : Text → Text → Text × Text
unfolding dir_before
split_at_slash acc [] = (codes ".", acc)
split_at_slash acc (c ∷ cs) =
    let rest = split_at_slash (c ∷ acc) cs in if c == slash then (dir_before cs, acc) else rest

unfoldable pub split_reversed : Text → Text × Text
unfolding split_at_slash
split_reversed [] = (codes ".", [])
split_reversed (c ∷ cs) = split_at_slash (c ∷ []) cs

-- `splitPath`: the directory and the base name.
unfoldable pub split_path : Text → Text × Text
unfolding trim_front trim split_reversed
split_path path = split_reversed (trim (reverse (trim_front path)))
