-- ===== src/Backup/Examples.antt =====
-- A file of five bytes in parts of two, and the theorems at it.
use feathers.Prelude.{ℕ, ◌≡◌, inr, refl, Option, some, List, [], ◌∷◌, arith, length}
use feathers.Prelude.Int.{pos}
use feathers.Prelude.Text.{codes}
use feathers.Backup.{Attempt, Part, response, generate_remote_request, upload_part}
use feathers.Backup.Parts.{upload_covers, all_sent, Numbered}
use feathers.Backup.Retries.{retry_sends_nothing, SentNothing}

abbrev bytes : List ℕ
bytes = 5 ∷ 6 ∷ 7 ∷ 8 ∷ 9 ∷ []

abbrev accepted : Option (List Attempt)
accepted = some (record { reads = 9; reply = response 200 (codes "e") } ∷ [])

abbrev broken : Attempt
broken = record { reads = 9; reply = response 503 [] }

upload_covers_example :
    (ps : List Part) × (generate_remote_request 2 (accepted ∷ accepted ∷ accepted ∷ []) bytes
      ≡ inr ps)
    × (all_sent ps ≡ bytes)
    × Numbered 1 ps
    × (length ps ≡ 3)
upload_covers_example =
    upload_covers 2 accepted (accepted ∷ accepted ∷ []) bytes
      (
        (codes "e", refl),
        omega arith,
        ((codes "e", refl), omega arith, ((codes "e", refl), omega arith, tt)),
      )
      (omega arith)

retry_sends_nothing_example :
    SentNothing
      (upload_part
        (some (broken ∷ record { reads = 9; reply = response 200 (codes "e") } ∷ []))
        (pos 2)
        bytes).1
retry_sends_nothing_example =
    retry_sends_nothing broken (record { reads = 9; reply = response 200 (codes "e") } ∷ []) 2 bytes
      (inr (503, [], refl, omega arith)) (omega arith) (omega arith)
