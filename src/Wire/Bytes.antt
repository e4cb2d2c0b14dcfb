-- ===== src/Wire/Bytes.antt =====
-- encoding/binary's little-endian words as the generated codec uses them: `PutUint32(buf[i:], x)`
-- is `put_u32 x` in the place of the bytes from i on, and `Uint32(buf[i:])` is `u32_at buf i`.
use wsfs_core.Prelude.{ℕ, ◌+◌, ◌*◌, ◌/◌, ◌%◌, ◌^◌, ◌<◌, ◌≡◌, List, [], ◌∷◌, arith, drop, ap, ◌∙◌}
use wsfs_core.Prelude.Int.{ℤ, IsInt64, to_uint64, to_int64, to_uint64-lt, to_int64-to_uint64}

abbrev pub Bytes : Type 0
Bytes = List ℕ

abbrev pub IsU8 : ℕ → Type 0
IsU8 x = x < 256

abbrev pub IsU32 : ℕ → Type 0
IsU32 x = x < 2 ^ 32

abbrev pub IsU64 : ℕ → Type 0
IsU64 x = x < 2 ^ 64

abbrev pub put_u8 : ℕ → Bytes
put_u8 x = (x % 256) ∷ []

abbrev pub put_u16 : ℕ → Bytes
put_u16 x = (x % 256) ∷ (x / 256 % 256) ∷ []

abbrev pub put_u32 : ℕ → Bytes
put_u32 x = (x % 256) ∷ (x / 256 % 256) ∷ (x / 65536 % 256) ∷ (x / 16777216 % 256) ∷ []

abbrev pub put_u64 : ℕ → Bytes
put_u64 x =
    (x % 256)
    ∷ (x / 256 % 256)
    ∷ (x / 2 ^ 16 % 256)
    ∷ (x / 2 ^ 24 % 256)
    ∷ (x / 2 ^ 32 % 256)
    ∷ (x / 2 ^ 40 % 256)
    ∷ (x / 2 ^ 48 % 256)
    ∷ (x / 2 ^ 56 % 256)
    ∷ []

abbrev pub put_i64 : ℤ → Bytes
put_i64 z = put_u64 (to_uint64 z)

-- A word from its bytes; a list that is too short reads as zeros, which no caller meets.
abbrev pub get_u8 : Bytes → ℕ
get_u8 [] = 0
get_u8 (a ∷ r) = a

unfoldable pub word : ℕ → ℕ → ℕ
word low high = low + 256 * high

abbrev pub get_u16 : Bytes → ℕ
get_u16 (a ∷ b ∷ r) = word a b
get_u16 _ = 0

abbrev pub get_u32 : Bytes → ℕ
get_u32 (a ∷ b ∷ c ∷ d ∷ r) = word a (word b (word c d))
get_u32 _ = 0

abbrev pub get_u64 : Bytes → ℕ
get_u64 (a ∷ b ∷ c ∷ d ∷ e ∷ f ∷ g ∷ h ∷ r) =
    word a (word b (word c (word d (word e (word f (word g h))))))
get_u64 _ = 0

abbrev pub u8_at : Bytes → ℕ → ℕ
u8_at buf i = get_u8 (drop i buf)

abbrev pub u32_at : Bytes → ℕ → ℕ
u32_at buf i = get_u32 (drop i buf)

abbrev pub u64_at : Bytes → ℕ → ℕ
u64_at buf i = get_u64 (drop i buf)

abbrev pub i64_at : Bytes → ℕ → ℤ
i64_at buf i = to_int64 (u64_at buf i)

pub get-put_u8 : (x : ℕ) → IsU8 x → get_u8 (put_u8 x) ≡ x
get-put_u8 x h = omega arith

pub get-put_u16 : (x : ℕ) → x < 2 ^ 16 → get_u16 (put_u16 x) ≡ x
unfolding word
get-put_u16 x h = omega arith

pub get-put_u32 : (x : ℕ) → IsU32 x → get_u32 (put_u32 x) ≡ x
unfolding word
get-put_u32 x h = omega arith

pub get-put_u64 : (x : ℕ) → IsU64 x → get_u64 (put_u64 x) ≡ x
unfolding word
get-put_u64 x h = omega arith

pub get-put_i64 : (z : ℤ) → IsInt64 z → to_int64 (get_u64 (put_i64 z)) ≡ z
get-put_i64 z h = ap to_int64 (get-put_u64 (to_uint64 z) (to_uint64-lt z)) ∙ to_int64-to_uint64 z h
