-- ===== src/Wire/Text.antt =====
-- The bytes of a Go string literal of ASCII characters.
use Prim.Native.Char.{code}
use Prim.Native.String.{String}
use wsfs_core.Prelude.{[], ◌∷◌}
use wsfs_core.Wire.Bytes.{Bytes}

abbrev pub text : String → Bytes
text String.[] = []
text (String.◌∷◌ c s) = code c ∷ text s
