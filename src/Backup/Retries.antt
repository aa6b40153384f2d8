-- ===== src/Backup/Retries.antt =====
-- The retries of `uploadPart` in server/backup/backup_s3.go.
use feathers.Prelude.{
  ℕ, ◌-◌, ◌≤◌, ◌≡◌, refl, sym, ap, ◌∙◌, subst, inl, inr, ◌⊎◌, true, false, some, List, [], ◌∷◌,
  arith, Bool-cases, leb, ◌==◌, length, take, drop, length-take, zero, suc,
}
use feathers.Prelude.Int.{pos}
use feathers.Prelude.Text.{Text}
use feathers.Backup.{
  Attempt, Body, Failure, Reply, response, context_ended, no_response, send, conclude, retry,
  upload_part,
}
use feathers.Backup.Parts.{take_all}

-- An error, or a success whose body was empty.
abbrev pub SentNothing : Failure ⊎ (Text × List ℕ) → Type 0
SentNothing (inl x) = Unit {0}
SentNothing (inr (etag, sent)) = sent ≡ []

take_nil : {A : Type 0} (n : ℕ) → take {A = A} n [] ≡ []
take_nil zero = refl
take_nil (suc n) = refl

conclude_nothing :
    (r : Reply) (b : Body) (sent : List ℕ) (again : Body × (Failure ⊎ (Text × List ℕ)))
    → sent ≡ []
    → SentNothing again.1
    → SentNothing (conclude r b sent again).1
unfolding conclude
conclude_nothing context_ended b sent again e h = tt
conclude_nothing no_response b sent again e h = h
conclude_nothing (response code etag) b sent again e h = elim (Bool-cases (code == 200)) [
  | inl good ↦ rw good e
  | inr bad ↦ elim (Bool-cases (leb 500 code)) [
    | inl server ↦ rw (bad, server) h
    | inr client ↦ rw (bad, client) tt
  ]
]

taken_nothing : {A : Type 0} (n m : ℕ) (xs : List A) → m ≡ 0 → take n (take m xs) ≡ []
taken_nothing n zero xs h = take_nil n
taken_nothing n (suc m) xs h = absurd (omega (arith, h))

try_again :
    (r : Reply) (b : Body) (sent : List ℕ) (again : Body × (Failure ⊎ (Text × List ℕ)))
    → (r ≡ no_response) ⊎ ((code : ℕ) × (etag : Text) × (r ≡ response code etag) × (500 ≤ code))
    → conclude r b sent again ≡ again
unfolding conclude
try_again r b sent again (inl e) = rw e refl
try_again r b sent again (inr (code, etag, e, h)) =
    let differs : code == 200 ≡ false = ground (arith, h) in
    let server : leb 500 code ≡ true = ground (arith, h) in rw (e, differs, server) refl

-- Nothing may be sent any more once the limited reader is used up.
retry_nothing : (more : List Attempt) (b : Body) → b.left ≡ 0 → SentNothing (retry more b).1
unfolding retry send
retry_nothing [] b h = tt
retry_nothing (a ∷ later) b h =
    let sent = take a.reads (take b.left b.file) in
    let used : Body = record { left = b.left - length sent; file = drop (length sent) b.file } in
    conclude_nothing a.reply used sent (retry later used) (taken_nothing a.reads b.left b.file h)
      (retry_nothing later used (omega (arith, h)))

-- A retry sends nothing: where the first attempt has taken the whole part and was answered with an error of
-- the endpoint, or with none, every later attempt has an empty body, since the reader of the request
-- is not set back; so what succeeds after that, if anything does, is an upload of no bytes.
pub retry_sends_nothing :
    (a : Attempt) (later : List Attempt) (size : ℕ) (file : List ℕ)
    → (a.reply ≡ no_response)
      ⊎ ((code : ℕ) × (etag : Text) × (a.reply ≡ response code etag) × (500 ≤ code))
    → size ≤ a.reads
    → size ≤ length file
    → SentNothing (upload_part (some (a ∷ later)) (pos size) file).1
unfolding upload_part retry send
retry_sends_nothing a later size file fails reads fits =
    let sent = take a.reads (take size file) in
    let used : Body = record { left = size - length sent; file = drop (length sent) file } in
    let short = length-take size file in
    let whole = take_all a.reads (take size file) (omega (arith, short, reads)) in
    let all : length sent ≡ size = ap length whole ∙ omega (arith, short, fits) in
    subst (λ m. SentNothing m.1) (sym (try_again a.reply used sent (retry later used) fails))
      (retry_nothing later used (omega (arith, all)))
