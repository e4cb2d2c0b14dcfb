-- ===== src/Wire/Sink.antt =====
-- io.Writer as the encoders use it: an interface that util.Buffer and a WebSocket message fill.
use wsfs_core.Prelude.{
  ℕ, ◌<◌, ◌≤◌, ◌≡◌, refl, sym, Option, none, some, [], ◌++◌, arith, length, length-append,
  append-nil, append_assoc, ◌+◌,
}
use wsfs_core.Wire.Bytes.{Bytes}

pub data WriteError : Type 0 where
  string_too_long short_write broken : WriteError

-- A step that writes: the writer as it leaves it, and Go's error, `none` for nil.
abbrev pub Put : Type 0 → Type 0
Put W = W → W × Option WriteError

-- A Write that returns no error has appended its bytes. Fewer bytes
-- than `room` the writer is sure to take; it is 0 for a connection that may break. A
-- Write leaves the `rest` of the writer alone.
pub record Writer (W : Type 0) : Type 0 where
  pub write : Bytes → Put W
  pub content : W → Bytes
  pub room : W → ℕ
  pub rest : W → W
  pub write_ok : (d : Bytes) (w : W) → (write d w).1 ≡ none → content (write d w).0 ≡ content w ++ d
  pub write_room :
      (d : Bytes) (w : W)
      → length d < room w
      → ((write d w).1 ≡ none) × (room w ≤ room (write d w).0 + length d)
  pub write_rest : (d : Bytes) (w : W) → rest (write d w).0 ≡ rest w

infixl 5 ◌>>◌
abbrev pub ◌>>◌ : {W : Type 0} → Put W → Put W → Put W
◌>>◌ m k w = elim (m w).1 [ none ↦ k (m w).0 | some e ↦ ((m w).0, some e) ]

abbrev pub done : {W : Type 0} → Put W
done w = (w, none)

abbrev pub fail : {W : Type 0} → WriteError → Put W
fail e w = (w, some e)

module _ {W : Type 0} (o : Writer W) where
  -- If `m` returns no error it has appended these bytes, and it returns none where they have room.
  pub record Emits (m : Put W) (bs : Bytes) : Type 0 where
    pub appends : (w : W) → (m w).1 ≡ none → o.content (m w).0 ≡ o.content w ++ bs
    pub completes :
        (w : W) → length bs < o.room w → ((m w).1 ≡ none) × (o.room w ≤ o.room (m w).0 + length bs)
    pub keeps : (w : W) → o.rest (m w).0 ≡ o.rest w

  pub write-Emits : (d : Bytes) → Emits (o.write d) d
  write-Emits d = record {
    appends = o.write_ok d;
    completes = o.write_room d;
    keeps = o.write_rest d;
  }

  pub done-Emits : Emits done []
  done-Emits = record {
    appends = λ w e. sym (append-nil (o.content w));
    completes = λ w h. (refl, omega arith);
    keeps = λ w. refl;
  }

  pub >>-Emits : {m k : Put W} {bs cs : Bytes} → Emits m bs → Emits k cs → Emits (m >> k) (bs ++ cs)
  >>-Emits {m} {k} {bs} {cs} h i = record {
    appends =
        λ w e. ground (arith, h.appends w, i.appends (m w).0, append_assoc (o.content w) bs cs);
    completes = λ w fits. ground (arith, length-append bs cs, h.completes w, i.completes (m w).0);
    keeps = λ w. ground (arith, h.keeps w, i.keeps (m w).0);
  }
