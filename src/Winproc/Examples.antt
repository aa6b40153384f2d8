-- ===== src/Winproc/Examples.antt =====
-- Startup commands, and the theorems at them.
use feathers.Prelude.{◌≡◌, refl, inr, none, [], ◌∷◌}
use feathers.Prelude.Text.{codes, text_eq}
use feathers.Winproc.{build_command}

-- Nothing to replace.
build :
    build_command (λ s f. s) (λ t. none) (codes "STARTUP=java -jar 'a b.jar'" ∷ [])
    ≡ inr (codes "java" ∷ codes "-jar" ∷ codes "a b.jar" ∷ [])
unfolding build_command text_eq
build = refl
