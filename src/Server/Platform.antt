-- ===== src/Server/Platform.antt =====
-- server/platform.go, platform_windows.go and platform_notwindows.go: which node may run an egg.
-- A text is the list of its code points; the markers are ASCII.
use feathers.Prelude.{
  ℕ, ◌+◌, Bool, not, ◌&&◌, ◌||◌, List, [], ◌∷◌, reverse, leb, ◌==◌, if◌then◌else◌,
}
use feathers.Prelude.Text.{has_prefix}

unfoldable pub is_space : ℕ → Bool
is_space c = c == b' ' || leb 9 c && leb c 13

unfoldable pub trim_left : List ℕ → List ℕ
unfolding is_space
trim_left [] = []
trim_left (c ∷ cs) = if is_space c then trim_left cs else c ∷ cs

-- `strings.TrimSpace`
unfoldable pub trim_space : List ℕ → List ℕ
unfolding trim_left
trim_space cs = reverse (trim_left (reverse (trim_left cs)))

-- `strings.ToLower` on ASCII.
unfoldable pub to_lower : List ℕ → List ℕ
to_lower [] = []
to_lower (c ∷ cs) = (if leb 65 c && leb c 90 then c + 32 else c) ∷ to_lower cs

-- `strings.TrimPrefix(image, "~")`
trim_tilde : List ℕ → List ℕ
trim_tilde [] = []
trim_tilde (c ∷ cs) = if c == b'~' then cs else c ∷ cs

abbrev windows_image_prefix : List ℕ
windows_image_prefix = b'w' ∷ b'i' ∷ b'n' ∷ b'd' ∷ b'o' ∷ b'w' ∷ b's' ∷ []

unfoldable pub is_windows_image : List ℕ → Bool
unfolding trim_space to_lower trim_tilde has_prefix
is_windows_image image = has_prefix (trim_tilde (to_lower (trim_space image))) windows_image_prefix

-- `assertEggPlatform` of the two builds; true stands for a nil error.
unfoldable pub assert_egg_platform : Bool → List ℕ → Bool
unfolding is_windows_image
assert_egg_platform windows_node image =
    if windows_node then is_windows_image image else not (is_windows_image image)
