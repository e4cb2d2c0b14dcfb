-- ===== src/Wire/Source.antt =====
-- io.Reader as the decoders use it: what is left of a message, the error behind its last byte (EOF
-- for a whole message), and what single Read calls hand out.
pub mod Laws
use wsfs_core.Prelude.{
  ℕ, zero, suc, ◌+◌, ◌-◌, min, ◌≤◌, ◌<◌, ◌≡◌, ap, ◌∙◌, Bool, true, false, List, [], ◌∷◌, ◌++◌,
  arith, length, take, drop, leb, ltb, if◌then◌else◌, le→leb, lt→leb_false, length-append,
  take-length_append, drop-length_append, Option, some, none,
}
use wsfs_core.Wire.Bytes.{Bytes}

pub data ReadError : Type 0 where
  eof unexpected_eof short_buffer broken : ReadError

-- By how much is left, what one Read call hands out at most (one more than the number), and whether a
-- call that reaches the end returns the error with the last bytes or leaves it to the next call. A
-- call with room hands out a byte at least.
abbrev pub Grain : Type 0
Grain = ℕ → ℕ × Bool

-- All at once, and in pieces of one size with the error behind them.
abbrev pub whole : Grain
whole left = (left, false)

abbrev pub pieces : ℕ → Grain
pieces size left = (size, false)

pub record Source : Type 0 where
  pub left : Bytes
  pub tail : ReadError
  pub grain : Grain

-- A decoder's result, with the reader as it leaves it.
pub data Outcome {ℓ} (A : Type ℓ) : Type ℓ where
  ok : A → Source → Outcome A
  err : ReadError → Source → Outcome A

abbrev pub Decoder : Type 0 → Type 0
Decoder A = Source → Outcome A

infixl 5 ◌>>=◌
abbrev pub ◌>>=◌ : {A B : Type 0} → Decoder A → (A → Decoder B) → Decoder B
◌>>=◌ m f s = elim (m s) [ ok a s' ↦ f a s' | err e s' ↦ err e s' ]

abbrev pub pure : {A : Type 0} → A → Decoder A
pure a s = ok a s

-- The error of io.ReadFull on too few bytes: EOF only if there was none.
abbrev short_read : Bytes → ReadError → ReadError
short_read [] e = e
short_read (b ∷ bs) eof = unexpected_eof
short_read (b ∷ bs) e = e

unfoldable pub read_full : ℕ → Decoder Bytes
read_full n s =
    if leb n (length s.left)
    then ok (take n s.left) (record s { left = drop n s.left })
    else err (short_read s.left s.tail) (record s { left = [] })

-- io.ReadAll: EOF is its success.
unfoldable pub read_all : Decoder Bytes
read_all s = elim s.tail [
  | eof ↦ ok s.left (record s { left = [] })
  | other ↦ err other (record s { left = [] })
]

-- The source that holds exactly these bytes of a message.
abbrev pub message : Bytes → Grain → Source
message bs grain = record { left = bs; tail = eof; grain = grain }

-- `m` reads the value off these bytes, and leaves whatever follows them.
pub record Reads {A : Type 0} (m : Decoder A) (bs : Bytes) (a : A) : Type 0 where
  pub run :
      (s : Source) (rest : Bytes)
      → m (record s { left = bs ++ rest }) ≡ ok a (record s { left = rest })

-- `m` reads the value off a message that ends behind these bytes.
pub record ReadsAll {A : Type 0} (m : Decoder A) (bs : Bytes) (a : A) : Type 0 where
  pub run_all : (grain : Grain) → m (message bs grain) ≡ ok a (message [] grain)

abbrev pub error_with : Bool → Bytes → ReadError → Option ReadError
error_with true [] e = some e
error_with true (b ∷ bs) e = none
error_with false bs e = none

-- One Read call with room for `size` bytes: bytes while there are any, perhaps with the error behind
-- them, then the error.
unfoldable pub read : ℕ → Source → Bytes × Option ReadError × Source
read size s = elim s.left [
  | [] ↦ ([], some s.tail, s)
  | b ∷ bs ↦
      let (most, at_once) = s.grain (length s.left) in
      let n = min size (suc most) in
      let rest = drop n s.left in
      (take n s.left, error_with at_once rest s.tail, record s { left = rest })
]

-- After the buffer is full one more byte is asked for, which must not be there.
unfoldable pub check_extra : Bytes → Decoder Bytes
unfolding read
check_extra buf s =
    let (extra, fault, s') = read 1 s in
    if ltb 0 (length extra)
    then err short_buffer s'
    else elim fault [ none ↦ ok [] s' | some eof ↦ ok buf s' | some other ↦ err other s' ]

-- The loop of readAllToBuffer with `room` bytes of the buffer left. A round reads a byte at least,
-- so fuel that covers the room runs out only when the buffer is full.
unfoldable pub fill : ℕ → ℕ → Bytes → Decoder Bytes
unfolding read check_extra
fill zero room buf s = check_extra buf s
fill (suc fuel) room buf s =
    let (got, fault, s') = read room s in
    let more = fill fuel (room - length got) (buf ++ got) s' in
    if ltb 0 room
    then elim fault [ none ↦ more | some eof ↦ ok (buf ++ got) s' | some other ↦ err other s' ]
    else check_extra buf s

unfoldable pub read_all_to_buffer : ℕ → Decoder Bytes
unfolding fill
read_all_to_buffer size = fill size size []
