-- ===== src/Winproc/ChildEnv.antt =====
-- mergeChildEnv of environment/winproc/power.go: the environment of the process that is started.
pub mod Merging
use feathers.Prelude.{Option, none, some, List, [], ◌∷◌, ◌++◌, map, if◌then◌else◌}
use feathers.Prelude.Text.{Text, codes, text_eq}
use feathers.Docker.{to_upper}
use feathers.Winproc.{cut}

-- `mergeChildEnv`: the entries in the order of their first appearance, each with its key in upper case.
unfoldable pub put_entry : Text → Text → List (Text × Text) → List (Text × Text)
put_entry k kv [] = (k, kv) ∷ []
put_entry k kv ((j, v) ∷ m) =
    let rest = put_entry k kv m in if text_eq j k then (j, kv) ∷ m else (j, v) ∷ rest

-- The function `put`: what has no "=" is dropped.
unfoldable pub put : Text → List (Text × Text) → List (Text × Text)
unfolding put_entry cut to_upper
put kv m = elim (cut kv) [ none ↦ m | some p ↦ put_entry (to_upper (p.0)) kv m ]

unfoldable pub put_all : List Text → List (Text × Text) → List (Text × Text)
unfolding put
put_all [] m = m
put_all (kv ∷ kvs) m = put_all kvs (put kv m)

unfoldable pub merge_child_env : List Text → List Text → Text → List Text
unfolding put_all
merge_child_env environ egg_vars tmp_dir =
    map (λ p. p.1)
      (put_all ((codes "TEMP=" ++ tmp_dir) ∷ (codes "TMP=" ++ tmp_dir) ∷ [])
        (put_all egg_vars (put_all environ [])))
