-- ===== src/System/Lines/Examples.antt =====
-- Lines of output: tests and the example.
use feathers.Prelude.{◌≡◌, refl, true, false, List, [], ◌∷◌, arith}
use feathers.Prelude.Text.{Text, codes}
use feathers.System.Lines.{Read, eof, scan_from, scan_reader}
use feathers.System.Lines.Whole.{
  replaced, pair, kept, LinesOf, all_read, part, final_part, filled, scan_reader_whole,
}

-- A line in two parts with a pair to replace, an empty line, and another line.
abbrev output : List Read
output =
    record { line = codes "a \rb"; is_prefix = true }
    ∷ record { line = codes "c"; is_prefix = false }
    ∷ record { line = []; is_prefix = false }
    ∷ record { line = codes "d"; is_prefix = false }
    ∷ []

puts_together :
    scan_reader output eof ≡ record { lines = codes "a\r\nbc" ∷ codes "d" ∷ []; complete = true }
unfolding scan_reader
puts_together = refl

-- One line in three parts.
abbrev long_line : List Read
long_line =
    record { line = codes "ab"; is_prefix = true }
    ∷ record { line = codes "c"; is_prefix = true }
    ∷ record { line = codes "d"; is_prefix = false }
    ∷ []

-- The part of a line behind the limit is dropped only up to the end of what was read with it; what follows
-- is given as another line.
goes_on :
    scan_from 2 eof [] long_line ≡ record { lines = codes "ab" ∷ codes "d" ∷ []; complete = true }
unfolding scan_from
goes_on = refl

abbrev whole : List Text
whole = codes "a\r\nbc" ∷ [] ∷ codes "d" ∷ [] ∷ []

are_whole : LinesOf [] output whole
are_whole = part refl (kept refl (pair (kept refl replaced))) (
    final_part refl (kept refl replaced)
      (final_part refl replaced (final_part refl (kept refl replaced) all_read)))

scan_reader_whole_example :
    scan_reader output eof ≡ record { lines = filled whole; complete = true }
scan_reader_whole_example = scan_reader_whole output whole are_whole (ground arith)
