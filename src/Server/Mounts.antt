-- ===== src/Server/Mounts.antt =====
-- server/mounts.go: the mounts of a container.
pub mod Allowed
mod Examples
use feathers.Prelude.{Bool, true, false, ◌||◌, List, [], ◌∷◌, ◌++◌, if◌then◌else◌}
use feathers.Prelude.Text.{Text, codes, has_prefix}
use feathers.Prelude.Filepath.{clean}

pub record Mount : Type 0 where
  pub default_mount : Bool
  pub source : Text
  pub target : Text
  pub read_only : Bool

-- The configuration of the node, with the names in its directories joined already.
pub record MountConfig : Type 0 where
  pub passwd : Bool
  pub group_file : Text
  pub passwd_file : Text
  pub machine_id : Bool
  pub machine_id_file : Text
  pub allowed_mounts : List Text

-- The loop over the allowed mounts: whether one is a prefix of the source.
unfoldable pub is_allowed : List Text → Text → Bool
unfolding has_prefix clean
is_allowed [] source = false
is_allowed (a ∷ more) source = has_prefix source (clean a) || is_allowed more source

-- A mount of a server, with clean paths.
unfoldable pub cleaned : Mount → Mount
unfolding clean
cleaned m = record {
  default_mount = false;
  source = clean m.source;
  target = clean m.target;
  read_only = m.read_only;
}

unfoldable pub custom_mounts : List Text → List Mount → List Mount
unfolding is_allowed cleaned
custom_mounts allowed [] = []
custom_mounts allowed (m ∷ ms) =
    let rest = custom_mounts allowed ms in
    if is_allowed allowed (clean m.source) then cleaned m ∷ rest else rest

abbrev pub own : Bool → Text → Text → Mount
own is_default source target = record {
  default_mount = is_default;
  source = source;
  target = target;
  read_only = if is_default then false else true;
}

unfoldable pub mounts : MountConfig → Text → List Mount → List Mount
unfolding custom_mounts
mounts config path custom =
    own true path (codes "/home/container")
    ∷ ((if config.passwd
          then own false config.group_file (codes "/etc/group")
            ∷ own false config.passwd_file (codes "/etc/passwd")
            ∷ []
          else [])
        ++ ((if config.machine_id
              then own false config.machine_id_file (codes "/etc/machine-id") ∷ []
              else [])
            ++ custom_mounts config.allowed_mounts custom))
