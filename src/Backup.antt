-- ===== src/Backup.antt =====
-- server/backup/backup_s3.go: how a backup is uploaded in parts.
pub mod Parts
pub mod Retries
mod Examples
use feathers.Prelude.{
  ℕ, ◌+◌, ◌-◌, ◌*◌, Bool, true, false, Option, none, some, List, [], ◌∷◌, ◌++◌, ltb, leb, ◌==◌,
  length, take, drop, if◌then◌else◌, inl, inr, ◌⊎◌,
}
use feathers.Prelude.Int.{ℤ, pos, negsuc, ◌-ℤ◌}
use feathers.Prelude.Text.{Text}

-- What the client answers at an attempt: a status with the header ETag, the error of a context that has
-- ended, or another error.
pub data Reply : Type 0 where
  response : ℕ → Text → Reply
  context_ended no_response : Reply

-- An attempt: how many bytes the client takes from the body, if it has them, and its answer.
pub record Attempt : Type 0 where
  pub reads : ℕ
  pub reply : Reply

-- The request of a part: what its limited reader may still give, and what is left of the file.
pub record Body : Type 0 where
  pub left : ℕ
  pub file : List ℕ

pub data Failure : Type 0 where
  ended gave_up bad_request : Failure
  bad_status : ℕ → Failure

-- An uploaded part, and the bytes that were sent at its last attempt.
pub record Part : Type 0 where
  pub etag : Text
  pub number : ℕ
  pub sent : List ℕ

-- A limited reader gives nothing for a limit that is not positive.
abbrev pub limit : ℤ → ℕ
limit (pos n) = n
limit (negsuc n) = 0

unfoldable pub send : Attempt → Body → Body × List ℕ
send a b =
    let sent = take a.reads (take b.left b.file) in
    (record { left = b.left - length sent; file = drop (length sent) b.file }, sent)

-- What an attempt with an answer comes to, where `again` is what comes of trying again.
unfoldable pub conclude :
    Reply → Body → List ℕ → Body × (Failure ⊎ (Text × List ℕ)) → Body × (Failure ⊎ (Text × List ℕ))
conclude context_ended b sent again = (b, inl ended)
conclude no_response b sent again = again
conclude (response code etag) b sent again =
    if code == 200
    then (b, inr (etag, sent))
    else if leb 500 code
    then again
    else (b, inl (bad_status code))

-- `backoff.Retry` over attempts: it ends at a success, at a permanent error, or when it gives up.
unfoldable pub retry : List Attempt → Body → Body × (Failure ⊎ (Text × List ℕ))
unfolding send conclude
retry [] b = (b, inl gave_up)
retry (a ∷ later) b = let (b', sent) = send a b in conclude a.reply b' sent (retry later b')

-- `uploadPart`, where none stands for an address that makes no request; what is left of the file goes to
-- the next part.
unfoldable pub upload_part :
    Option (List Attempt) → ℤ → List ℕ → List ℕ × (Failure ⊎ (Text × List ℕ))
unfolding retry
upload_part none size file = (file, inl bad_request)
upload_part (some attempts) size file =
    let (b, r) = retry attempts (record { left = limit size; file = file }) in (b.file, r)

-- The size of the part with an index, of a number of parts.
unfoldable pub part_size : ℕ → ℕ → ℕ → ℕ → ℤ
part_size parts each size i = if ltb (i + 1) parts then pos each else pos size -ℤ pos (i * each)

-- The end at an error, and else the part before the others.
unfoldable pub collect : ℕ → Failure ⊎ (Text × List ℕ) → Failure ⊎ List Part → Failure ⊎ List Part
collect number (inl x) rest = inl x
collect number (inr (etag, sent)) (inl x) = inl x
collect number (inr (etag, sent)) (inr ps) =
    inr (record { etag = etag; number = number; sent = sent } ∷ ps)

-- The loop of `generateRemoteRequest`, over what happens at each part.
unfoldable pub upload_from :
    ℕ → ℕ → ℕ → ℕ → List (Option (List Attempt)) → List ℕ → Failure ⊎ List Part
unfolding upload_part part_size collect
upload_from parts each size i [] file = inr []
upload_from parts each size i (attempts ∷ more) file =
    let (file', r) = upload_part attempts (part_size parts each size i) file in
    collect (i + 1) r (upload_from parts each size (i + 1) more file')

unfoldable pub generate_remote_request :
    ℕ → List (Option (List Attempt)) → List ℕ → Failure ⊎ List Part
unfolding upload_from
generate_remote_request each uploads file =
    upload_from (length uploads) each (length file) 0 uploads file
