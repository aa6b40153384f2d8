-- ===== src/System/Lines/Whole.antt =====
-- The lines of the output and the texts that `ScanReader` (system/utils.go) gives to the callback.
use feathers.Prelude.{
  ℕ, ◌+◌, ◌-◌, ◌≤◌, ◌≡◌, refl, ap, ap₂, sym, subst, ◌∙◌, ◌==◌, ◌&&◌, Bool, true, false, inl, inr,
  List, [], ◌∷◌, ◌++◌, length, length-append, take, length-take, ltb, ltb→lt, arith, Bool-cases,
  if◌then◌else◌,
}
use feathers.Prelude.Text.{Text}
use feathers.System.Lines.{
  Read, Ending, eof, read_error, replace_cr, Scanned, send_line, finish, scan_from, max_buffer_size,
  scan_reader,
}

-- A text begins with a space and a carriage return.
abbrev pub begins_pair : Text → Bool
begins_pair (c ∷ d ∷ rest) = c == b' ' && d == b'\r'
begins_pair _ = false

-- Each space with a carriage return behind it becomes a carriage return with a line feed behind it, and
-- every other character stays.
pub data Replaced : Text → Text → Type 0 where
  replaced : Replaced [] []
  pair : {t u : Text} → Replaced t u → Replaced (b' ' ∷ b'\r' ∷ t) (b'\r' ∷ b'\n' ∷ u)
  kept :
      {c : ℕ} {t u : Text} → begins_pair (c ∷ t) ≡ false → Replaced t u → Replaced (c ∷ t) (c ∷ u)

-- The lines of the output, from one of which a text was read before: the parts of a line, with the pairs
-- replaced in each, are put together until one is not followed by more of its line. What is left at the end
-- is the last line.
pub data LinesOf : Text → List Read → List Text → Type 0 where
  all_read : {buf : Text} → LinesOf buf [] (buf ∷ [])
  part :
      {buf u : Text} {r : Read} {rs : List Read} {ls : List Text}
      → r.is_prefix ≡ true
      → Replaced r.line u
      → LinesOf (buf ++ u) rs ls
      → LinesOf buf (r ∷ rs) ls
  final_part :
      {buf u : Text} {r : Read} {rs : List Read} {ls : List Text}
      → r.is_prefix ≡ false
      → Replaced r.line u
      → LinesOf [] rs ls
      → LinesOf buf (r ∷ rs) ((buf ++ u) ∷ ls)

replace_cr-kept :
    (c : ℕ) (t : Text) → begins_pair (c ∷ t) ≡ false → replace_cr (c ∷ t) ≡ c ∷ replace_cr t
unfolding replace_cr
replace_cr-kept c [] e = refl
replace_cr-kept c (d ∷ rest) e = rw e refl

replace_cr-Replaced : {t u : Text} → Replaced t u → replace_cr t ≡ u
unfolding replace_cr
replace_cr-Replaced replaced = refl
replace_cr-Replaced (pair h) = ap (λ v. b'\r' ∷ b'\n' ∷ v) (replace_cr-Replaced h)
replace_cr-Replaced (kept {c} {t} {u} e h) =
    replace_cr-kept c t e ∙ ap (λ v. c ∷ v) (replace_cr-Replaced h)

-- The same lines, computed.
abbrev lines_from : Text → List Read → List Text
lines_from buf [] = buf ∷ []
lines_from buf (r ∷ rs) =
    if r.is_prefix
    then lines_from (buf ++ replace_cr r.line) rs
    else (buf ++ replace_cr r.line) ∷ lines_from [] rs

lines_from-LinesOf :
    {buf : Text} {rs : List Read} {ls : List Text} → LinesOf buf rs ls → lines_from buf rs ≡ ls
lines_from-LinesOf all_read = refl
lines_from-LinesOf (part {buf} {u} {r} {rs} more e h) =
    rw more (ap (λ v. lines_from (buf ++ v) rs) (replace_cr-Replaced e) ∙ lines_from-LinesOf h)
lines_from-LinesOf (final_part {buf} {u} {r} {rs} last e h) =
    rw last (ap₂ (λ v ms. (buf ++ v) ∷ ms) (replace_cr-Replaced e) (lines_from-LinesOf h))

abbrev pub AllWithin : ℕ → List Text → Type 0
AllWithin max [] = Unit {0}
AllWithin max (l ∷ ls) = (length l ≤ max) × AllWithin max ls

keep_filled : Text → List Text → List Text
keep_filled [] ls = ls
keep_filled (c ∷ cs) ls = (c ∷ cs) ∷ ls

-- The lines that are not empty.
unfoldable pub filled : List Text → List Text
unfolding keep_filled
filled [] = []
filled (l ∷ ls) = keep_filled l (filled ls)

send_line-filled :
    (l : Text) (rest : Scanned) (ls : List Text)
    → rest ≡ record { lines = filled ls; complete = true }
    → send_line l rest ≡ record { lines = filled (l ∷ ls); complete = true }
unfolding send_line filled
send_line-filled [] rest ls e = e
send_line-filled (c ∷ cs) rest ls e = ap (send_line (c ∷ cs)) e

-- The first line holds what is in the buffer.
first_longer :
    (max : ℕ) (buf : Text) (rs : List Read) → AllWithin max (lines_from buf rs) → length buf ≤ max
first_longer max buf [] h = h.0
first_longer max buf (r ∷ rs) h = elim (Bool-cases r.is_prefix) [
  | inl more ↦ omega (
    arith,
    length-append buf (replace_cr r.line),
    first_longer max (buf ++ replace_cr r.line) rs (rw more at h),
  )
  | inr last ↦ omega (arith, length-append buf (replace_cr r.line), (rw last at h).0)
]

not_over : (m n : ℕ) → ltb m n ≡ false → n ≤ m
not_over m n e = ground (arith, e)

scan_whole :
    (max : ℕ) (buf : Text) (rs : List Read)
    → AllWithin max (lines_from buf rs)
    → scan_from max eof buf rs ≡ record { lines = filled (lines_from buf rs); complete = true }
unfolding scan_from finish filled
scan_whole max buf [] h = send_line-filled buf (record { lines = []; complete = true }) [] refl
scan_whole max buf (r ∷ rs) h = elim (Bool-cases r.is_prefix) [
  | inl more ↦
      let h' : AllWithin max (lines_from (buf ++ replace_cr r.line) rs) = rw more at h in
      let fits : ltb max (length buf + length (replace_cr r.line)) ≡ false =
        within max (length buf + length (replace_cr r.line)) (
          omega (
            arith,
            length-append buf (replace_cr r.line),
            first_longer max (buf ++ replace_cr r.line) rs h',
          )) in
      rw (fits, more) (scan_whole max (buf ++ replace_cr r.line) rs h')
  | inr last ↦
      let h' : AllWithin max ((buf ++ replace_cr r.line) ∷ lines_from [] rs) = rw last at h in
      let fits : ltb max (length buf + length (replace_cr r.line)) ≡ false =
        within max (length buf + length (replace_cr r.line))
          (omega (arith, length-append buf (replace_cr r.line), h'.0)) in
      rw (fits, last)
        (send_line-filled (buf ++ replace_cr r.line) (scan_from max eof [] rs) (lines_from [] rs)
          (scan_whole max [] rs h'.1))
]
  where
    within : (m n : ℕ) → n ≤ m → ltb m n ≡ false
    within m n h = ground arith

-- If no line of the output is longer than the buffer may be, then at its end the callback was given exactly
-- the lines that are not empty, each of them whole and once, in order, with every " \r" within a part of a
-- line replaced by "\r\n" and no other change.
pub scan_reader_whole :
    (rs : List Read) (ls : List Text)
    → LinesOf [] rs ls
    → AllWithin max_buffer_size ls
    → scan_reader rs eof ≡ record { lines = filled ls; complete = true }
unfolding scan_reader
scan_reader_whole rs ls of h =
    let is = lines_from-LinesOf of in
    scan_whole max_buffer_size [] rs (subst (AllWithin max_buffer_size) (sym is) h)
    ∙ ap (λ ms. record { lines = filled ms; complete = true }) is

send_line-AllWithin :
    (max : ℕ) (l : Text) (rest : Scanned)
    → length l ≤ max
    → AllWithin max rest.lines
    → AllWithin max (send_line l rest).lines
unfolding send_line
send_line-AllWithin max [] rest hl h = h
send_line-AllWithin max (c ∷ cs) rest hl h = (hl, h)

-- Whatever is read, nothing that is given to the callback is longer than the buffer may be.
pub scan_from_bounded :
    (max : ℕ) (end : Ending) (buf : Text) (rs : List Read)
    → length buf ≤ max
    → AllWithin max (scan_from max end buf rs).lines
unfolding scan_from finish
scan_from_bounded max eof buf [] h =
    send_line-AllWithin max buf (record { lines = []; complete = true }) h tt
scan_from_bounded max read_error buf [] h = tt
scan_from_bounded max end buf (r ∷ rs) h =
    let line : Text = replace_cr r.line in
    let ns : ℕ = length buf + length line in
    elim (Bool-cases (ltb max ns)) [
      | inl over ↦
          let cut : Text = take (length line - (ns - max)) line in
          rw over (
            send_line-AllWithin max (buf ++ cut) (scan_from max end [] rs)
              (omega (
                arith,
                length-append buf cut,
                length-take (length line - (ns - max)) line,
                ltb→lt max ns over,
                h,
              ))
              (scan_from_bounded max end [] rs (omega arith)))
      | inr fits ↦ elim (Bool-cases r.is_prefix) [
        | inl more ↦
            rw (fits, more)
              (scan_from_bounded max end (buf ++ line) rs
                (omega (arith, length-append buf line, not_over max ns fits)))
        | inr last ↦
            rw (fits, last)
              (send_line-AllWithin max (buf ++ line) (scan_from max end [] rs)
                (omega (arith, length-append buf line, not_over max ns fits))
                (scan_from_bounded max end [] rs (omega arith)))
      ]
    ]
