-- ===== src/Backup/Parts.antt =====
-- The parts of an upload and the file, in server/backup/backup_s3.go.
use feathers.Prelude.{
  ℕ, ◌+◌, ◌-◌, ◌*◌, ◌≤◌, ◌≡◌, refl, sym, ap, ◌∙◌, subst, inr, ◌⊎◌, false, Option, none, some, List,
  [], ◌∷◌, ◌++◌, arith, zero, suc, ltb, length, take, drop, take-append-drop, length-take,
  length-drop, lt→ltb,
}
use feathers.Prelude.Int.{ℤ, pos, ◌-ℤ◌}
use feathers.Prelude.Text.{Text}
use feathers.Backup.{
  Attempt, Failure, Part, response, limit, send, conclude, retry, upload_part, part_size, collect,
  upload_from, generate_remote_request,
}

-- Each part is accepted at its first attempt, which takes all that there is, up to a bound.
abbrev pub Prompt : ℕ → List (Option (List Attempt)) → Type 0
Prompt n [] = Unit {0}
Prompt n (none ∷ more) = ⊥
Prompt n (some [] ∷ more) = ⊥
Prompt n (some (a ∷ later) ∷ more) =
    ((etag : Text) × (a.reply ≡ response 200 etag)) × (n ≤ a.reads) × Prompt n more

abbrev pub all_sent : List Part → List ℕ
all_sent [] = []
all_sent (p ∷ ps) = p.sent ++ all_sent ps

-- Numbered from a number on.
abbrev pub Numbered : ℕ → List Part → Type 0
Numbered n [] = Unit {0}
Numbered n (p ∷ ps) = (p.number ≡ n) × Numbered (n + 1) ps

no_length : {A : Type 0} (xs : List A) → length xs ≡ 0 → xs ≡ []
no_length [] h = refl
no_length (x ∷ xs) h = absurd (omega (arith, h))

limit_last : (size i each : ℕ) → limit (pos size -ℤ pos (i * each)) ≡ size - i * each
unfolding ◌-ℤ◌
limit_last size i each = ground arith

pub take_all : {A : Type 0} (n : ℕ) (xs : List A) → length xs ≤ n → take n xs ≡ xs
take_all zero [] h = refl
take_all zero (x ∷ xs) h = absurd (omega (arith, h))
take_all (suc n) [] h = refl
take_all (suc n) (x ∷ xs) h = ap (λ l. x ∷ l) (take_all n xs (omega (arith, h)))

-- An accepted part takes the first bytes of the file.
accepted :
    (a : Attempt) (later : List Attempt) (etag : Text) (size : ℤ) (file : List ℕ)
    → a.reply ≡ response 200 etag
    → limit size ≤ length file
    → limit size ≤ a.reads
    → upload_part (some (a ∷ later)) size file
      ≡ (drop (limit size) file, inr (etag, take (limit size) file))
unfolding upload_part retry send conclude
accepted a later etag size file ok_ fits reads =
    let short = length-take (limit size) file in
    let whole = take_all a.reads (take (limit size) file) (omega (arith, short, reads)) in
    let len : length (take (limit size) file) ≡ limit size = omega (arith, short, fits) in
    rw (ok_, whole, len) refl

step_suc : (i each : ℕ) → (i + 1) * each ≡ i * each + each
step_suc i each = ground arith

suc_step : (n each : ℕ) → suc n * each ≡ each + n * each
suc_step n each = ground arith

-- The parts but the last have their full size.
abbrev Fits : ℕ → List (Option (List Attempt)) → ℕ → Type 0
Fits each [] len = len ≡ 0
Fits each (u ∷ []) len = Unit {0}
Fits each (u ∷ v ∷ more) len = (each ≤ len) × Fits each (v ∷ more) (len - each)

length-Fits :
    (each len : ℕ) (u : Option (List Attempt)) (us : List (Option (List Attempt)))
    → length us * each ≤ len
    → Fits each (u ∷ us) len
length-Fits each len u [] h = tt
length-Fits each len u (v ∷ more) h =
    let split = suc_step (length more) each in
    (omega (arith, h, split), length-Fits each (len - each) v more (omega (arith, h, split)))

abbrev Done : ℕ → List (Option (List Attempt)) → List ℕ → Failure ⊎ List Part → Type 0
Done i uploads file r =
    (ps : List Part) × (r ≡ inr ps)
    × (all_sent ps ≡ file)
    × Numbered (i + 1) ps
    × (length ps ≡ length uploads)

module _ (parts each size : ℕ) where
  size_between :
      (i : ℕ) (v : Option (List Attempt)) (more : List (Option (List Attempt)))
      → i + length (none ∷ v ∷ more) ≡ parts
      → part_size parts each size i ≡ pos each
  unfolding part_size
  size_between i v more h = rw (lt→ltb (i + 1) parts (omega (arith, h))) refl

  not_below : (i : ℕ) → i + 1 ≡ parts → ltb (i + 1) parts ≡ false
  not_below i h = ground arith

  size_last : (i : ℕ) → i + 1 ≡ parts → limit (part_size parts each size i) ≡ size - i * each
  unfolding part_size
  size_last i h = rw (not_below i h) (limit_last size i each)

  first_part :
      (i n : ℕ) (a : Attempt) (later : List Attempt) (more : List (Option (List Attempt)))
      (etag : Text) (file : List ℕ)
      → a.reply ≡ response 200 etag
      → limit (part_size parts each size i) ≡ n
      → n ≤ length file
      → n ≤ a.reads
      → upload_from parts each size i (some (a ∷ later) ∷ more) file
        ≡ collect
            (i + 1)
            (inr (etag, take n file))
            (upload_from parts each size (i + 1) more (drop n file))
  unfolding upload_from
  first_part i n a later more etag file e lim fits reads =
      let size_i = part_size parts each size i in
      let done =
        accepted a later etag size_i file e (omega (arith, lim, fits))
          (omega (arith, lim, reads)) in
      ap (λ m. collect (i + 1) m.1 (upload_from parts each size (i + 1) more m.0)) done
      ∙ ap
          (λ k.
            collect (i + 1) (inr (etag, take k file))
              (upload_from parts each size (i + 1) more (drop k file)))
          lim

  collect-Done :
      (i n : ℕ) (u : Option (List Attempt)) (us : List (Option (List Attempt))) (etag : Text)
      (file : List ℕ) (r : Failure ⊎ List Part)
      → Done (i + 1) us (drop n file) r
      → Done i (u ∷ us) file (collect (i + 1) (inr (etag, take n file)) r)
  unfolding collect
  collect-Done i n u us etag file r (ps, e, sent, numbered, count) = (
    record { etag = etag; number = i + 1; sent = take n file } ∷ ps,
    ap (collect (i + 1) (inr (etag, take n file))) e,
    ap (λ l. take n file ++ l) sent ∙ take-append-drop n file,
    (refl, numbered),
    ap suc count,
  )

  upload_all :
      (i : ℕ) (uploads : List (Option (List Attempt))) (file : List ℕ)
      → Prompt (size + each) uploads
      → i + length uploads ≡ parts
      → length file ≡ size - i * each
      → Fits each uploads (length file)
      → Done i uploads file (upload_from parts each size i uploads file)
  unfolding upload_from collect
  upload_all i [] file prompt all len fits = ([], refl, sym (no_length file fits), tt, refl)
  upload_all i (none ∷ more) file prompt all len fits = absurd prompt
  upload_all i (some [] ∷ more) file prompt all len fits = absurd prompt
  upload_all i (some (a ∷ later) ∷ []) file ((etag, e), reads, more) all len fits =
      let lim = size_last i (omega (arith, all)) ∙ sym len in
      let n = length file in
      subst (Done i (some (a ∷ later) ∷ []) file)
        (sym (first_part i n a later [] etag file e lim (omega arith) (omega (arith, reads, len))))
        (collect-Done i n (some (a ∷ later)) [] etag file _
          ([], refl, sym (no_length (drop n file) (length-drop n file ∙ omega arith)), tt, refl))
  upload_all i (some (a ∷ later) ∷ v ∷ us) file ((etag, e), reads, more) all len (full, fits) =
      let lim = ap limit (size_between i v us all) in
      let rest = length-drop each file in
      subst (Done i (some (a ∷ later) ∷ v ∷ us) file)
        (sym (first_part i each a later (v ∷ us) etag file e lim full (omega (arith, reads))))
        (collect-Done i each (some (a ∷ later)) (v ∷ us) etag file _ (
          upload_all (i + 1) (v ∷ us) (drop each file) more (omega (arith, all))
            (omega (arith, rest, len, step_suc i each))
            (subst (Fits each (v ∷ us)) (sym rest) fits)))

-- Where the panel asks for parts of which all but the last are full, and each is accepted at its first
-- attempt, an upload sends the file, byte by byte and in order, in as many parts as were asked for,
-- numbered from 1.
pub upload_covers :
    (each : ℕ) (u : Option (List Attempt)) (us : List (Option (List Attempt))) (file : List ℕ)
    → Prompt (length file + each) (u ∷ us)
    → length us * each ≤ length file
    → (ps : List Part) × (generate_remote_request each (u ∷ us) file ≡ inr ps)
      × (all_sent ps ≡ file)
      × Numbered 1 ps
      × (length ps ≡ length (u ∷ us))
unfolding generate_remote_request
upload_covers each u us file prompt full =
    upload_all (length (u ∷ us)) each (length file) 0 (u ∷ us) file prompt (omega arith)
      (omega arith) (length-Fits each (length file) u us full)
