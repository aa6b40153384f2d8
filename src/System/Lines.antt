-- ===== src/System/Lines.antt =====
-- `ScanReader` of system/utils.go: the output of a process in lines, each of a bounded size.
pub mod Whole
mod Examples
use feathers.Prelude.{
  ℕ, ◌+◌, ◌-◌, Bool, true, false, not, ◌&&◌, List, [], ◌∷◌, ◌++◌, length, take, ltb, ◌==◌,
  if◌then◌else◌,
}
use feathers.Prelude.Text.{Text}

-- What `ReadLine` gives: a line or a part of one, and whether more of it follows.
pub record Read : Type 0 where
  pub line : Text
  pub is_prefix : Bool

-- How the reader ends, once all is read.
pub data Ending : Type 0 where
  eof read_error : Ending

-- `bytes.Replace` of each " \r" by "\r\n".
unfoldable pub replace_cr : Text → Text
replace_cr [] = []
replace_cr (c ∷ []) = c ∷ []
replace_cr (c ∷ d ∷ rest) =
    let after = replace_cr rest in
    let next = replace_cr (d ∷ rest) in
    if c == b' ' && d == b'\r' then b'\r' ∷ b'\n' ∷ after else c ∷ next

-- What was given to the callback, in order, and whether the end was reached without an error.
pub record Scanned : Type 0 where
  pub lines : List Text
  pub complete : Bool

-- The callback is not called for an empty buffer.
unfoldable pub send_line : Text → Scanned → Scanned
send_line [] rest = rest
send_line (c ∷ cs) rest = record { lines = (c ∷ cs) ∷ rest.lines; complete = rest.complete }

unfoldable pub finish : Text → Ending → Scanned
unfolding send_line
finish buf eof = send_line buf (record { lines = []; complete = true })
finish buf read_error = record { lines = []; complete = false }

-- The loops of `ScanReader`, with what the buffer holds.
unfoldable pub scan_from : ℕ → Ending → Text → List Read → Scanned
unfolding finish send_line replace_cr
scan_from max end buf [] = finish buf end
scan_from max end buf (r ∷ rs) =
    let line = replace_cr r.line in
    let ns = length buf + length line in
    let fresh = scan_from max end [] rs in
    let more = scan_from max end (buf ++ line) rs in
    if ltb max ns
    then send_line (buf ++ take (length line - (ns - max)) line) fresh
    else if r.is_prefix
    then more
    else send_line (buf ++ line) fresh

abbrev pub max_buffer_size : ℕ
max_buffer_size = 65536

-- `ScanReader`
unfoldable pub scan_reader : List Read → Ending → Scanned
unfolding scan_from
scan_reader rs end = scan_from max_buffer_size end [] rs
