-- ===== src/Wire/Source/Laws.antt =====
-- How the decoders' steps compose, and what the reading loop of the generated codec computes.
use wsfs_core.Prelude.{
  ℕ, zero, suc, ◌+◌, ◌-◌, min, ◌≤◌, ◌≡◌, refl, [], ◌∷◌, ◌++◌, arith, length, take, drop, leb,
  if◌then◌else◌, le→leb, length-append, length-take, length-drop, take-append-drop, drop-drop,
  drop_cong, take-length_append, drop-length_append, append_assoc, append-nil, take_all, ltb, true,
  false, Bool, Option, none, some, ap, ◌∙◌,
}
use wsfs_core.Wire.Bytes.{Bytes}
use wsfs_core.Wire.Source.{
  Decoder, Outcome, Grain, Reads, ReadsAll, ◌>>=◌, pure, ok, err, short_buffer, message, read_full,
  read_all, check_extra, fill, read_all_to_buffer, ReadError, eof, error_with, Grain,
}

pub Reads-bind :
    {A B : Type 0} {m : Decoder A} (f : A → Decoder B) {bs cs : Bytes} {a : A} {b : B}
    → Reads m bs a
    → Reads (f a) cs b
    → Reads (m >>= f) (bs ++ cs) b
Reads-bind f {bs = bs} {cs = cs} h k = record {
  run = λ s rest. rw (append_assoc bs cs rest, ◌>>=◌, h.run s (cs ++ rest)) (k.run s rest);
}

pub Reads-end :
    {A B : Type 0} {m : Decoder A} (f : A → B) {bs : Bytes} {a : A} {b : B}
    → Reads m bs a
    → f a ≡ b
    → Reads (m >>= λ x. pure (f x)) bs b
Reads-end f h e = record { run = λ s rest. rw (◌>>=◌, h.run s rest, e) }

pub ReadsAll-bind :
    {A B : Type 0} {m : Decoder A} (f : A → Decoder B) {bs cs : Bytes} {a : A} {b : B}
    → Reads m bs a
    → ReadsAll (f a) cs b
    → ReadsAll (m >>= f) (bs ++ cs) b
ReadsAll-bind f {cs = cs} h k = record {
  run_all = λ grain. rw (◌>>=◌, h.run (message [] grain) cs) (k.run_all grain);
}

pub ReadsAll-end :
    {A B : Type 0} {m : Decoder A} (f : A → B) {bs : Bytes} {a : A} {b : B}
    → ReadsAll m bs a
    → f a ≡ b
    → ReadsAll (m >>= λ x. pure (f x)) bs b
ReadsAll-end f h e = record { run_all = λ grain. rw (◌>>=◌, h.run_all grain, e) }

pub pure-Reads : {A : Type 0} (a : A) → Reads (pure a) [] a
pure-Reads a = record { run = λ s rest. refl }

-- What reads a whole prefix reads a whole message.
pub Reads-ReadsAll :
    {A : Type 0} {m : Decoder A} {bs : Bytes} {a : A} → Reads m bs a → ReadsAll m bs a
Reads-ReadsAll {bs = bs} h = record {
  run_all = λ grain. rw (← append-nil bs) (h.run (message [] grain) []);
}

pub read_full-Reads : (bs : Bytes) → Reads (read_full (length bs)) bs bs
unfolding read_full
read_full-Reads bs = record {
  run = λ s rest. rw (
    le→leb (length bs) (length (bs ++ rest)) (omega (arith, length-append bs rest)),
    take-length_append bs rest,
    drop-length_append bs rest,
  );
}

pub read_all-ReadsAll : (bs : Bytes) → ReadsAll read_all bs bs
unfolding read_all
read_all-ReadsAll bs = record { run_all = λ grain. refl }

-- Whatever the sizes of the single reads, the loop takes the message if it fits the buffer, and
-- otherwise fails after one byte more than the buffer holds.
abbrev pub filled : ℕ → Bytes → Bytes → Grain → Outcome Bytes
filled room buf bs grain =
    if leb (length bs) room
    then ok (buf ++ bs) (message [] grain)
    else err short_buffer (message (drop (suc room) bs) grain)

filled-append :
    (room k : ℕ) (buf bs : Bytes) (grain : Grain)
    → k ≤ room
    → filled (room - length (take k bs)) (buf ++ take k bs) (drop k bs) grain
      ≡ filled room buf bs grain
filled-append room k buf bs grain h = ground (
  arith,
  length-take k bs,
  length-drop k bs,
  append_assoc buf (take k bs) (drop k bs),
  take-append-drop k bs,
  drop-drop (suc (room - length (take k bs))) k bs,
  drop_cong (k + suc (room - length (take k bs))) (suc room) bs,
)

fill_full :
    (buf bs : Bytes) (grain : Grain) → check_extra buf (message bs grain) ≡ filled 0 buf bs grain
unfolding check_extra
fill_full buf [] grain = rw append-nil
fill_full buf (b ∷ bs) grain =
    let one : min 1 (suc (grain (length (b ∷ bs))).0) ≡ 1 = omega arith in rw one (ground arith)

-- What the loop makes of a call that handed out bytes of a whole message.
abbrev after_read : Bytes → Bytes → Grain → Option ReadError → Outcome Bytes → Outcome Bytes
after_read buf rest grain fault more = elim fault [
  | none ↦ more
  | some eof ↦ ok buf (message rest grain)
  | some other ↦ err other (message rest grain)
]

after_read_lem :
    (at_once : Bool) (buf rest : Bytes) (grain : Grain) (more r : Outcome Bytes)
    → more ≡ r
    → (rest ≡ [] → ok buf (message [] grain) ≡ r)
    → after_read buf rest grain (error_with at_once rest eof) more ≡ r
after_read_lem true buf [] grain more r e f = f refl
after_read_lem true buf (b ∷ rest) grain more r e f = e
after_read_lem false buf rest grain more r e f = e

-- A call that hands out the rest fills the buffer with the message.
filled-whole :
    (room k : ℕ) (buf bs : Bytes) (grain : Grain)
    → k ≤ room
    → drop k bs ≡ []
    → ok (buf ++ take k bs) (message [] grain) ≡ filled room buf bs grain
filled-whole room k buf bs grain h e =
    let fits : length bs ≤ k = omega (arith, ap length e, length-drop k bs) in
    rw (take_all k bs fits, le→leb (length bs) room (omega arith)) refl

fill_lem :
    (fuel room : ℕ) (buf bs : Bytes) (grain : Grain)
    → room ≤ fuel
    → fill fuel room buf (message bs grain) ≡ filled room buf bs grain
unfolding fill
fill_lem zero zero buf bs grain h = fill_full buf bs grain
fill_lem zero (suc room) buf bs grain h = absurd (omega arith)
fill_lem (suc fuel) zero buf bs grain h = fill_full buf bs grain
fill_lem (suc fuel) (suc room) buf [] grain h = ground (arith, append-nil buf)
fill_lem (suc fuel) (suc room) buf (b ∷ bs) grain h =
    let now = grain (length (b ∷ bs)) in
    let k : ℕ = min (suc room) (suc now.0) in
    let got : Bytes = take k (b ∷ bs) in
    let rest : Bytes = drop k (b ∷ bs) in
    let some_room : ltb 0 (suc room) ≡ true = ground arith in
    let later =
      fill_lem fuel (suc room - length got) (buf ++ got) rest grain
        (omega (arith, length-take k (b ∷ bs))) in
    rw (fill, some_room)
      (after_read_lem now.1 (buf ++ got) rest grain _ _
        (later ∙ filled-append (suc room) k buf (b ∷ bs) grain (omega arith))
        (filled-whole (suc room) k buf (b ∷ bs) grain (omega arith)))

-- readAllToBuffer gives the bytes of a message that fits the buffer, and an error with the buffer
-- full for a longer one, in whatever pieces the bytes arrive, and whether the end comes with the last
-- of them or by itself.
pub read_all_to_buffer_lem :
    (size : ℕ) (bs : Bytes) (grain : Grain)
    → read_all_to_buffer size (message bs grain) ≡ filled size [] bs grain
unfolding read_all_to_buffer
read_all_to_buffer_lem size bs grain = fill_lem size size [] bs grain (omega arith)

pub read_all_to_buffer-ReadsAll :
    (size : ℕ) (bs : Bytes) → length bs ≤ size → ReadsAll (read_all_to_buffer size) bs bs
read_all_to_buffer-ReadsAll size bs h = record {
  run_all = λ grain. rw (read_all_to_buffer_lem size bs grain, le→leb (length bs) size h);
}
