-- ===== src/Util/Buffer/Laws.antt =====
-- What the buffer holds, and the buffer as a writer of the encoders.
use wsfs_core.Prelude.{
  ℕ, zero, suc, ◌+◌, ◌<◌, ◌≤◌, ◌≡◌, refl, ap, Option, none, some, [], ◌++◌, length, take, drop, ltb,
  if◌then◌else◌, arith, length-append, length-take, length-drop, take-length_append, append_assoc,
  min, take_all,
}
use wsfs_core.Wire.Bytes.{Bytes}
use wsfs_core.Wire.Sink.{Writer, WriteError, short_write}
use wsfs_core.Util.Buffer.{Buffer, IsBuffer, avail, append, write, new_buffer, zeros}

take-exact : (n : ℕ) (xs ys : Bytes) → length xs ≡ n → take n (xs ++ ys) ≡ xs
take-exact n xs ys e = rw (← e) (take-length_append xs ys)

length-append_buffer :
    (b : Buffer) (d : Bytes)
    → b.written + length d ≤ length b.bytes
    → length (append b d).bytes ≡ length b.bytes
unfolding append
length-append_buffer b d h = omega (
  arith,
  length-append (take b.written b.bytes) (d ++ drop (b.written + length d) b.bytes),
  length-append d (drop (b.written + length d) b.bytes),
  length-take b.written b.bytes,
  length-drop (b.written + length d) b.bytes,
)

held-append :
    (b : Buffer) (d : Bytes)
    → IsBuffer b
    → take (append b d).written (append b d).bytes ≡ take b.written b.bytes ++ d
unfolding append
held-append b d h =
    rw (← append_assoc (take b.written b.bytes) d (drop (b.written + length d) b.bytes)) (
      take-exact (b.written + length d) (take b.written b.bytes ++ d) _
        (omega (arith, length-append (take b.written b.bytes) d, length-take b.written b.bytes)))

written-append : (b : Buffer) (d : Bytes) → (append b d).written ≡ b.written + length d
unfolding append
written-append b d = refl

-- The contents, what Done would return.
abbrev pub held : Buffer → Bytes
held b = take b.written b.bytes

-- A write keeps the invariant and the size, takes as much of the data as there is room for behind
-- what the buffer holds, and fails exactly if that is not all of it.
pub write_lem :
    (b : Buffer) (d : Bytes)
    → IsBuffer b
    → let (b', n, e) = write b d in
      IsBuffer b'
      × (length b'.bytes ≡ length b.bytes)
      × (n ≡ min (length d) (avail b))
      × (held b' ≡ held b ++ take n d)
      × (e ≡ (if ltb (avail b) (length d) then some short_write else none))
unfolding write
write_lem b d h =
    let part : Bytes = take (avail b) d in
    ground (
      arith,
      length-take (avail b) d,
      take_all (length d) d,
      written-append b d,
      written-append b part,
      length-append_buffer b d,
      length-append_buffer b part,
      held-append b d h,
      held-append b part h,
    )

-- The buffers that keep the invariant are a writer that takes what the buffer has room for.
abbrev pub Valid : Type 0
Valid = (b : Buffer) × IsBuffer b

pub put : Bytes → Valid → Valid × Option WriteError
put d (b, h) = (((write b d).0, (write_lem b d h).0), (write b d).2)

pub put_ok : (d : Bytes) (w : Valid) → (put d w).1 ≡ none → held (put d w).0.0 ≡ held w.0 ++ d
unfolding put
put_ok d (b, h) e = ground (arith, write_lem b d h, take_all (length d) d)

pub put_room :
    (d : Bytes) (w : Valid)
    → length d < suc (avail w.0)
    → ((put d w).1 ≡ none) × (suc (avail w.0) ≤ suc (avail (put d w).0.0) + length d)
unfolding put
put_room d (b, h) e = ground (
  arith,
  write_lem b d h,
  length-take b.written b.bytes,
  length-take (write b d).0.written (write b d).0.bytes,
  length-append (held b) (take (write b d).1 d),
  length-take (write b d).1 d,
  ap length (write_lem b d h).3,
)

pub length-zeros : (n : ℕ) → length (zeros n) ≡ n
unfolding zeros
length-zeros zero = refl
length-zeros (suc n) = ap suc (length-zeros n)

-- A buffer from the pool: all its room, and nothing in it.
pub new_buffer_lem :
    (size : ℕ)
    → IsBuffer (new_buffer size) × (avail (new_buffer size) ≡ size) × (held (new_buffer size) ≡ [])
unfolding new_buffer
new_buffer_lem size = (omega arith, omega (arith, length-zeros size), refl)

-- The size is what a write leaves alone.
cleared_size : ℕ → Valid
cleared_size n = (new_buffer n, (new_buffer_lem n).0)

pub cleared : Buffer → Valid
unfolding cleared_size
cleared b = cleared_size (length b.bytes)

pub put_rest : (d : Bytes) (w : Valid) → cleared (put d w).0.0 ≡ cleared w.0
unfolding cleared put
put_rest d (b, h) = ap (λ (n : ℕ). cleared_size n) ((write_lem b d h).1)

abbrev pub buffer_writer : Writer Valid
buffer_writer = record {
  write = put;
  content = λ w. held w.0;
  room = λ w. suc (avail w.0);
  rest = λ w. cleared w.0;
  write_ok = put_ok;
  write_room = put_room;
  write_rest = put_rest;
}
