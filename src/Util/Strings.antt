-- ===== src/Util/Strings.antt =====
-- Go's strings package, as far as the program tests texts with it. A string is its bytes.
use wsfs_core.Prelude.{Bool, true, false, ◌&&◌, ◌||◌, [], ◌∷◌, ◌==◌, ◌≡◌, refl, arith}
use wsfs_core.Wire.Bytes.{Bytes}

unfoldable pub str_eq : Bytes → Bytes → Bool
str_eq [] [] = true
str_eq [] (b ∷ t) = false
str_eq (a ∷ s) [] = false
str_eq (a ∷ s) (b ∷ t) = a == b && str_eq s t

-- strings.HasPrefix(s, p)
unfoldable pub has_prefix : Bytes → Bytes → Bool
has_prefix s [] = true
has_prefix [] (b ∷ p) = false
has_prefix (a ∷ s) (b ∷ p) = a == b && has_prefix s p

-- strings.HasSuffix(s, p)
unfoldable pub has_suffix : Bytes → Bytes → Bool
unfolding str_eq
has_suffix [] p = str_eq [] p
has_suffix (a ∷ s) p = str_eq (a ∷ s) p || has_suffix s p

-- strings.Contains(s, p)
unfoldable pub contains : Bytes → Bytes → Bool
unfolding has_prefix
contains [] p = has_prefix [] p
contains (a ∷ s) p = has_prefix (a ∷ s) p || contains s p

pub str_eq_refl : (s : Bytes) → str_eq s s ≡ true
unfolding str_eq
str_eq_refl [] = refl
str_eq_refl (a ∷ s) = ground (arith, str_eq_refl s)

pub str_eq_sound : (s t : Bytes) → str_eq s t ≡ true → s ≡ t
unfolding str_eq
str_eq_sound [] [] e = refl
str_eq_sound [] (b ∷ t) e = ground arith
str_eq_sound (a ∷ s) [] e = ground arith
str_eq_sound (a ∷ s) (b ∷ t) e = ground (arith, str_eq_sound s t)
