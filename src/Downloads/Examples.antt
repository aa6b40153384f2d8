-- ===== src/Downloads/Examples.antt =====
-- Requests for remote downloads: tests and the example.
use feathers.Prelude.{◌≤◌, ◌≡◌, refl, true, List, [], ◌∷◌, length}
use feathers.Prelude.Text.{Text, codes, text_eq}
use feathers.Downloads.{Download, instance_empty, find, by_server}
use feathers.Downloads.Tracking.{first, of_server}
use feathers.Downloads.Requests.{
  Request, pulls, cancels, ends, handle_all, all_meant, handle_all_refines,
}

abbrev dl : Text → Text → Download
dl id sid = record { identifier = id; server = sid }

-- Four pulls of one server, and a cancellation by another.
abbrev asked : List Request
asked =
    pulls true (dl (codes "1") (codes "a"))
    ∷ pulls true (dl (codes "2") (codes "a"))
    ∷ pulls true (dl (codes "3") (codes "a"))
    ∷ pulls true (dl (codes "4") (codes "a"))
    ∷ cancels (codes "b") (codes "1")
    ∷ ends (codes "2")
    ∷ []

two_left :
    by_server (codes "a") (handle_all asked instance_empty)
    ≡ dl (codes "1") (codes "a") ∷ dl (codes "3") (codes "a") ∷ []
unfolding by_server handle_all text_eq
two_left = refl

handle_all_refines_example :
    (by_server (codes "a") (handle_all asked instance_empty)
      ≡ of_server (codes "a") (all_meant asked []))
    × (find (codes "1") (handle_all asked instance_empty) ≡ first (codes "1") (all_meant asked []))
    × (length (by_server (codes "a") (handle_all asked instance_empty)) ≤ 3)
handle_all_refines_example = handle_all_refines asked (codes "a") (codes "1")
