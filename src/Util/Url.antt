-- ===== src/Util/Url.antt =====
-- internal/util/url.go with url-nonwindows.go: which paths a request may name.
pub mod Safety
use wsfs_core.Prelude.{ℕ, Bool, true, false, not, ◌&&◌, ◌||◌, List, [], ◌∷◌, ◌==◌, if◌then◌else◌}
use wsfs_core.Wire.Bytes.{Bytes}
use wsfs_core.Util.Strings.{contains, has_suffix}

abbrev pub slash : ℕ
slash = b'/'

abbrev pub dot : ℕ
dot = b'.'

unfoldable pub starts_with_slash : Bytes → Bool
starts_with_slash [] = false
starts_with_slash (c ∷ v) = c == slash

-- isUrlValid_os where the system is not Windows.
unfoldable pub is_url_valid_os : Bytes → Bool
is_url_valid_os v = true

-- The four tests for a "." or ".." element.
has_dots : Bytes → Bool
has_dots v =
    contains v (slash ∷ dot ∷ dot ∷ slash ∷ [])
    || has_suffix v (slash ∷ dot ∷ dot ∷ [])
    || contains v (slash ∷ dot ∷ slash ∷ [])
    || has_suffix v (slash ∷ dot ∷ [])

unfoldable pub is_url_valid : Bytes → Bool
unfolding starts_with_slash has_dots is_url_valid_os
is_url_valid v = if not (starts_with_slash v) || has_dots v then false else is_url_valid_os v
