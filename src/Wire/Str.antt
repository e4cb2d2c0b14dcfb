-- ===== src/Wire/Str.antt =====
-- wsfsprotocol/string.go and the length prefix of string-nonamd64.go. The amd64 variant copies the
-- two bytes of the length in memory order, which on that machine is the same little-endian prefix.
use wsfs_core.Prelude.{
  ℕ, suc, ◌≤◌, ◌<◌, ◌^◌, ◌≡◌, [], ◌∷◌, ◌++◌, arith, length, ltb, ◌==◌, if◌then◌else◌, some, false,
}
use wsfs_core.Wire.Bytes.{Bytes, put_u16, get_u16, get-put_u16}
use wsfs_core.Wire.Source.{Decoder, Reads, ◌>>=◌, pure, read_full}
use wsfs_core.Wire.Source.Laws.{Reads-bind, Reads-end, read_full-Reads, pure-Reads}
use wsfs_core.Wire.Sink.{
  Writer, Put, Emits, ◌>>◌, done, fail, string_too_long, write-Emits, >>-Emits, done-Emits,
}

abbrev pub IsStr : Bytes → Type 0
IsStr s = length s ≤ 0xffff

unfoldable pub write_str_len_prefix : {W : Type 0} → Writer W → ℕ → Put W
write_str_len_prefix o n = o.write (put_u16 n)

unfoldable pub read_str_len_prefix : Decoder ℕ
read_str_len_prefix = do buf ← read_full 2; pure (get_u16 buf)

unfoldable pub write_str_to_writer : {W : Type 0} → Writer W → Bytes → Put W
unfolding write_str_len_prefix
write_str_to_writer o s =
    if ltb 0xffff (length s)
    then fail string_too_long
    else (write_str_len_prefix o (length s) >> (if length s == 0 then done else o.write s))

unfoldable pub read_str_from_reader : Decoder Bytes
unfolding read_str_len_prefix
read_str_from_reader = do size ← read_str_len_prefix; if size == 0 then pure [] else read_full size

-- What a string is on the wire.
abbrev pub str_bytes : Bytes → Bytes
str_bytes s = put_u16 (length s) ++ s

read_str_len_prefix-Reads : (n : ℕ) → n < 2 ^ 16 → Reads read_str_len_prefix (put_u16 n) n
unfolding read_str_len_prefix
read_str_len_prefix-Reads n h =
    Reads-end (λ buf. get_u16 buf) (read_full-Reads (put_u16 n)) (get-put_u16 n h)

suc_==_zero : (n : ℕ) → (suc n == 0) ≡ false
suc_==_zero n = ground arith

rest-Reads : (s : Bytes) → Reads (if length s == 0 then pure [] else read_full (length s)) s s
rest-Reads [] = pure-Reads []
rest-Reads (c ∷ s) = rw suc_==_zero (read_full-Reads (c ∷ s))

pub read_str-Reads : (s : Bytes) → IsStr s → Reads read_str_from_reader (str_bytes s) s
unfolding read_str_from_reader
read_str-Reads s h =
    Reads-bind _ (read_str_len_prefix-Reads (length s) (omega arith)) (rest-Reads s)

rest-Emits :
    {W : Type 0} (o : Writer W) (s : Bytes) → Emits o (if length s == 0 then done else o.write s) s
rest-Emits o [] = done-Emits o
rest-Emits o (c ∷ s) = rw suc_==_zero (write-Emits o (c ∷ s))

-- A string that fits its prefix is written whole.
pub write_str-Emits :
    {W : Type 0} (o : Writer W) (s : Bytes)
    → IsStr s
    → Emits o (write_str_to_writer o s) (str_bytes s)
unfolding write_str_to_writer
write_str-Emits o s h =
    rw (not_too_long s h) (>>-Emits o (write-Emits o (put_u16 (length s))) (rest-Emits o s))
  where
    not_too_long : (s : Bytes) → IsStr s → ltb 0xffff (length s) ≡ false
    not_too_long s h = ground arith

-- A longer one is refused before anything is written.
pub write_str_too_long :
    {W : Type 0} (o : Writer W) (s : Bytes) (w : W)
    → 0xffff < length s
    → write_str_to_writer o s w ≡ (w, some string_too_long)
unfolding write_str_to_writer
write_str_too_long o s w h = ground arith
