-- ===== src/Server/Mounts/Examples.antt =====
-- A directory beside an allowed one, and the theorem at it.
use feathers.Prelude.{◌≡◌, ◌⊎◌, refl, false, [], ◌∷◌}
use feathers.Prelude.Text.{codes, text_eq, split}
use feathers.Prelude.Filepath.{clean}
use feathers.Server.Mounts.{Mount, custom_mounts, cleaned}
use feathers.Server.Mounts.Allowed.{custom_mounts_exactly, Begins}

abbrev database : Mount
database = record {
  default_mount = false;
  source = codes "/mnt/database/";
  target = codes "/db";
  read_only = false;
}

mounted :
    custom_mounts (codes "/srv" ∷ codes "/mnt/data" ∷ []) (database ∷ []) ≡ cleaned database ∷ []
unfolding custom_mounts text_eq split
mounted = refl

custom_mounts_exactly_example :
    (Begins (codes "/mnt/data" ∷ []) (clean database.source)
      × (custom_mounts (codes "/mnt/data" ∷ []) (database ∷ []) ≡ cleaned database ∷ []))
    ⊎ (¬ Begins (codes "/mnt/data" ∷ []) (clean database.source)
        × (custom_mounts (codes "/mnt/data" ∷ []) (database ∷ []) ≡ []))
unfolding custom_mounts
custom_mounts_exactly_example = custom_mounts_exactly (codes "/mnt/data" ∷ []) database []
