-- ===== src/Paths/Examples.antt =====
-- Paths and their parts.
use feathers.Prelude.{◌≡◌, refl, true}
use feathers.Prelude.Text.{codes}
use feathers.Paths.{split_path, ends_with_dot}

split_root : split_path (codes "//data") ≡ (codes "/", codes "data")
unfolding split_path
split_root = refl

split_here : split_path (codes "data") ≡ (codes ".", codes "data")
unfolding split_path
split_here = refl

dotted : ends_with_dot (codes "srv/.") ≡ true
unfolding ends_with_dot
dotted = refl
