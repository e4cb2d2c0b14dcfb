-- ===== src/Util/Buffer.antt =====
-- internal/util/buffer.go: a byte buffer of fixed size that messages are put together in.
pub mod Laws
use wsfs_core.Prelude.{
  ℕ, zero, suc, ◌+◌, ◌-◌, ◌≤◌, Option, none, some, List, [], ◌∷◌, ◌++◌, length, take, drop, ltb,
  if◌then◌else◌,
}
use wsfs_core.Wire.Bytes.{Bytes}
use wsfs_core.Wire.Sink.{WriteError, short_write}

pub record Buffer : Type 0 where
  pub bytes : Bytes
  pub written : ℕ

-- Outside of this the slices that Write and Done take would panic.
abbrev pub IsBuffer : Buffer → Type 0
IsBuffer b = b.written ≤ length b.bytes

unfoldable pub zeros : ℕ → Bytes
zeros zero = []
zeros (suc n) = 0 ∷ zeros n

unfoldable pub new_buffer : ℕ → Buffer
unfolding zeros
new_buffer size = record { bytes = zeros size; written = 0 }

-- `len(b.Bytes) - b.written`
abbrev pub avail : Buffer → ℕ
avail b = length b.bytes - b.written

-- `copy(b.Bytes[b.written:], d)` for a `d` that fits, and the new position.
unfoldable pub append : Buffer → Bytes → Buffer
append b d = record b {
  bytes = take b.written b.bytes ++ (d ++ drop (b.written + length d) b.bytes);
  written = b.written + length d;
}

-- The buffer, how many bytes it took, and the error.
unfoldable pub write : Buffer → Bytes → Buffer × ℕ × Option WriteError
write b d =
    if ltb (avail b) (length d)
    then (append b (take (avail b) d), avail b, some short_write)
    else (append b d, length d, none)

unfoldable pub take_done : Buffer → Bytes × Buffer
take_done b = (take b.written b.bytes, record b { written = 0 })

unfoldable pub grow : Buffer → ℕ → Buffer
grow b n = record b { written = b.written + n }

unfoldable pub reset : Buffer → Buffer
reset b = record b { written = 0 }
