-- ===== src/Server/Answers/Contents.antt =====
-- What the payloads of an answer are together, and what the reads send.
use wsfs_core.Server.Session.{reply_ok, reply}
use wsfs_core.Server.Conn.Laws.{respond_sends, conn_writer}
use wsfs_core.Wire.Sink.{done, done-Emits}
use wsfs_core.Server.Answers.Reads.{next_round}
use wsfs_core.Wire.Codes.{error_partial_response}
use wsfs_core.Wire.Command.{max_msg_size}
use wsfs_core.Prelude.{
  All, min, ltb, take_add, take_all, drop-drop, ◌%◌, ◌*◌, take_cong, append_assoc, ℕ, zero, suc,
  ◌≤◌, ◌<◌, ◌≡◌, ◌+◌, ◌/◌, ◌^◌, refl, Bool, true, false, ◌==◌, List, [], ◌∷◌, ◌++◌, length, take,
  drop, arith, Bool-cases, inl, inr, sym, ◌∙◌, ap, length-take,
}
use wsfs_core.Wire.Bytes.{Bytes}
use wsfs_core.Wire.Codes.{error_ok}
use wsfs_core.Server.Conn.{write}
use wsfs_core.Server.Conn.Laws.{IsHealthy, write_sends}
use wsfs_core.Server.Errno.{SysResult, Sys}
use wsfs_core.Server.Session.{Session}
use wsfs_core.Server.ReadCmds.{max_read_payload, send_read, read_reply, read_rounds, read_all_of}

-- The payloads of an answer's messages, and the messages.
abbrev pub joined : List Bytes → Bytes → Bytes
joined [] last = last
joined (p ∷ ps) last = p ++ joined ps last

abbrev pub answer : ℕ → List Bytes → Bytes → List Bytes
answer mark [] last = (mark ∷ error_ok ∷ last) ∷ []
answer mark (p ∷ ps) last = (mark ∷ error_partial_response ∷ p) ∷ answer mark ps last

abbrev pub Fits : Bytes → Type 0
Fits p = length p + 2 ≤ max_msg_size

split_reads :
    (total n rest off : ℕ) (file : Bytes)
    → total ≡ n + rest
    → take total (drop off file) ≡ take n (drop off file) ++ take rest (drop (off + n) file)
split_reads total n rest off file e =
    take_cong total (n + rest) (drop off file) e
    ∙ take_add n rest (drop off file)
    ∙ ap (λ d. take n (drop off file) ++ take rest d) (drop-drop n off file)

short_read : (total n : ℕ) (d : Bytes) → length (take n d) < n → n ≤ total → take total d ≡ take n d
short_read total n d short le =
    let ended : length d < n = omega (arith, length-take n d) in
    take_all total d (omega arith) ∙ sym (take_all n d (omega arith))

-- A call that reads this file, which no one else changes, at the offsets that a file can have.
abbrev pub ReadsFile : {World : Type 0} → Bytes → (ℕ → ℕ → Sys World Bytes) → Type 0
ReadsFile {World} file call =
    (off size : ℕ) (w : World)
    → off < 2 ^ 63
    → call off size w ≡ (w, SysResult.done (take size (drop off file)))

module _ {World : Type 0} where
  -- From one session to another by an answer whose payloads are together the bytes.
  pub record Delivers (mark : ℕ) (before after : Session World) (bytes : Bytes) : Type 0 where
    pub parts : List Bytes
    pub last : Bytes
    pub healthy : IsHealthy after.conn
    pub sent : after.conn.sent ≡ before.conn.sent ++ answer mark parts last
    pub parts_fit : All Fits parts
    pub last_fits : Fits last
    pub joined_lem : joined parts last ≡ bytes

  pub last-Delivers :
      (mark : ℕ) (bytes : Bytes) (s : Session World)
      → Fits bytes
      → IsHealthy s.conn
      → Delivers mark s (record s { conn = write (mark ∷ error_ok ∷ bytes) s.conn }) bytes
  last-Delivers mark bytes s fits h =
      let w = write_sends (mark ∷ error_ok ∷ bytes) s.conn h in
      record {
        parts = [];
        last = bytes;
        healthy = w.0;
        sent = w.1;
        parts_fit = tt;
        last_fits = fits;
        joined_lem = refl;
      }

  pub part-Delivers :
      (mark : ℕ) (part : Bytes) {s1 s2 s3 : Session World} {bs : Bytes}
      → Fits part
      → s2.conn.sent ≡ s1.conn.sent ++ ((mark ∷ error_partial_response ∷ part) ∷ [])
      → Delivers mark s2 s3 bs
      → Delivers mark s1 s3 (part ++ bs)
  part-Delivers mark part {s1} {s2} {s3} {bs} fits e a = record {
    parts = part ∷ a.parts;
    last = a.last;
    healthy = a.healthy;
    sent =
        a.sent
        ∙ ap (λ sent. sent ++ answer mark a.parts a.last) e
        ∙ append_assoc s1.conn.sent ((mark ∷ error_partial_response ∷ part) ∷ [])
            (answer mark a.parts a.last);
    parts_fit = (fits, a.parts_fit);
    last_fits = a.last_fits;
    joined_lem = ap (λ t. part ++ t) a.joined_lem;
  }

  pub same-Delivers :
      {mark : ℕ} {s1 s2 : Session World} {bs cs : Bytes}
      → bs ≡ cs
      → Delivers mark s1 s2 bs
      → Delivers mark s1 s2 cs
  same-Delivers e a = record {
    parts = a.parts;
    last = a.last;
    healthy = a.healthy;
    sent = a.sent;
    parts_fit = a.parts_fit;
    last_fits = a.last_fits;
    joined_lem = a.joined_lem ∙ e;
  }

  -- After a read of a part: the part is full and was sent as one, or it was the last.
  abbrev Stepped : ℕ → ℕ → Session World → Session World → Bytes → Type 0
  Stepped mark size s s' bytes =
      (length bytes ≡ size
        → IsHealthy s'.conn
          × (s'.conn.sent ≡ s.conn.sent ++ ((mark ∷ error_partial_response ∷ bytes) ∷ [])))
      × (length bytes < size → Delivers mark s s' bytes)

  read_reply_last :
      (mark size : ℕ) (got : Bytes) (s : Session World)
      → Fits got
      → IsHealthy s.conn
      → Delivers mark s (read_reply mark size false (SysResult.done got) s).1 got
  unfolding read_reply
  read_reply_last mark size got s fits h = last-Delivers mark got s fits h

  read_reply_part :
      (mark size : ℕ) (got : Bytes) (s : Session World)
      → Fits got
      → IsHealthy s.conn
      → let x = read_reply mark size true (SysResult.done got) s in
        (x.0.0 ≡ length got) × (x.0.1 ≡ true) × Stepped mark size s x.1 got
  unfolding read_reply
  read_reply_part mark size got s fits h = (
    refl,
    refl,
    (
      (λ full.
          let same : (length got == size) ≡ true = ground arith in
          rw same (write_sends (mark ∷ error_partial_response ∷ got) s.conn h)),
      λ short.
          let other : (length got == size) ≡ false = ground arith in
          rw other (last-Delivers mark got s fits h),
    ),
  )

  send_read_last :
      (mark size off : ℕ) (file : Bytes) (call : ℕ → ℕ → Sys World Bytes) (s : Session World)
      → ReadsFile file call
      → off < 2 ^ 63
      → size ≤ max_read_payload
      → IsHealthy s.conn
      → Delivers mark s (send_read mark (call off size) size false s).1 (take size (drop off file))
  unfolding send_read
  send_read_last mark size off file call s reads small fits h =
      rw (send_read, reads off size s.world small)
        (read_reply_last mark size (take size (drop off file)) s
          (omega (arith, length-take size (drop off file))) h)

  send_read_part :
      (mark size off : ℕ) (file : Bytes) (call : ℕ → ℕ → Sys World Bytes) (s : Session World)
      → ReadsFile file call
      → off < 2 ^ 63
      → size ≤ max_read_payload
      → IsHealthy s.conn
      → let x = send_read mark (call off size) size true s in
        (x.0.0 ≡ length (take size (drop off file)))
        × (x.0.1 ≡ true)
        × Stepped mark size s x.1 (take size (drop off file))
  unfolding send_read
  send_read_part mark size off file call s reads small fits h =
      rw (send_read, reads off size s.world small)
        (read_reply_part mark size (take size (drop off file)) s
          (omega (arith, length-take size (drop off file))) h)

  pub reply_ok-Delivers :
      (mark : ℕ) (s : Session World) → IsHealthy s.conn → Delivers mark s (reply_ok mark s) []
  unfolding reply_ok reply
  reply_ok-Delivers mark s h =
      let r = respond_sends mark error_ok done [] s.conn (done-Emits conn_writer) (omega arith) h in
      record {
        parts = [];
        last = [];
        healthy = r.0;
        sent = r.1;
        parts_fit = tt;
        last_fits = omega arith;
        joined_lem = refl;
      }

  round_Delivers :
      (mark got : ℕ) (fine : Bool) (s s' more : Session World) (bytes rest all : Bytes)
      → got ≡ length bytes
      → fine ≡ true
      → length bytes ≤ max_read_payload
      → Stepped mark max_read_payload s s' bytes
      → (length bytes ≡ max_read_payload
          → IsHealthy s'.conn
          → Delivers mark s' more rest × (all ≡ bytes ++ rest))
      → (length bytes < max_read_payload → all ≡ bytes)
      → Delivers mark s (next_round ((got, fine), s') more) all
  round_Delivers mark got fine s s' more bytes rest all size went most here goes ends =
      elim (Bool-cases (ltb got max_read_payload)) [
        | inl short ↦ rw (went, short, ends (ground arith)) (here.1 (ground arith))
        | inr long ↦
            let whole : length bytes ≡ max_read_payload = ground arith in
            let full = goes whole (here.0 whole).0 in
            rw (went, long, full.1) (part-Delivers mark bytes (omega arith) (here.0 whole).1 full.0)
      ]

  read_rounds-Delivers :
      (mark : ℕ) (file : Bytes) (call : ℕ → ℕ → Sys World Bytes) (rounds off over : ℕ)
      (s : Session World)
      → ReadsFile file call
      → off + (rounds * max_read_payload + over) < 2 ^ 63
      → over ≤ max_read_payload
      → IsHealthy s.conn
      → Delivers mark s
          (read_rounds mark call rounds off over s)
          (take (rounds * max_read_payload + over) (drop off file))
  unfolding read_rounds
  read_rounds-Delivers mark file call zero off over s reads small over_fits h =
      elim (Bool-cases (over == 0)) [
        | inl none_left ↦
            let nothing : take (0 * max_read_payload + over) (drop off file) ≡ [] =
              take_cong (0 * max_read_payload + over) 0 (drop off file) (ground arith) in
            rw (none_left, nothing) (reply_ok-Delivers mark s h)
        | inr some_left ↦
            let rest_of : take (0 * max_read_payload + over) (drop off file)
                ≡ take over (drop off file) =
              take_cong (0 * max_read_payload + over) over (drop off file) (omega arith) in
            rw (some_left, rest_of)
              (send_read_last mark over off file call s reads (omega arith) over_fits h)
      ]
  read_rounds-Delivers mark file call (suc rounds) off over s reads small over_fits h =
      let x = send_read mark (call off max_read_payload) max_read_payload true s in
      let part : Bytes = take max_read_payload (drop off file) in
      let size : ℕ = rounds * max_read_payload + over in
      let sent =
        send_read_part mark max_read_payload off file call s reads (omega arith) (omega arith) h in
      let part_size : length part ≡ min max_read_payload (length (drop off file)) =
        length-take max_read_payload (drop off file) in
      round_Delivers mark x.0.0 x.0.1 s x.1 _ part (take size (drop (off + max_read_payload) file))
        _ sent.0 sent.1 (omega arith) sent.2
        (λ full up.
          let at : (off + x.0.0) % 2 ^ 64 ≡ off + max_read_payload =
            omega (arith, sent.0, full, small) in
          (
            rw at (
                read_rounds-Delivers mark file call rounds (off + max_read_payload) over x.1 reads
                  (omega arith) over_fits up),
            split_reads (suc rounds * max_read_payload + over) max_read_payload size off file
                (omega arith),
          ))
        (λ short.
          short_read (suc rounds * max_read_payload + over) max_read_payload (drop off file) short
            (omega arith))

  -- On a connection that works, a read is answered by partial messages and a final one without an
  -- error, whose payloads are together the bytes of the file from the offset on, as many as were asked for or as there are, if the call that reads
  -- gives the bytes of the file and the end of the read is below 2^63.
  pub read_all_of-Delivers :
      (mark : ℕ) (file : Bytes) (call : ℕ → ℕ → Sys World Bytes) (off size : ℕ) (s : Session World)
      → ReadsFile file call
      → off + size < 2 ^ 63
      → IsHealthy s.conn
      → Delivers mark s (read_all_of mark call off size s) (take size (drop off file))
  unfolding read_all_of
  read_all_of-Delivers mark file call off size s reads small h =
      elim (Bool-cases (ltb size max_read_payload)) [
        | inl short ↦
            rw (read_all_of, short)
              (send_read_last mark size off file call s reads (omega arith) (ground arith) h)
        | inr long ↦
            let whole : size
                ≡ size / max_read_payload * max_read_payload + size % max_read_payload =
              omega arith in
            rw (read_all_of, long, take_cong size _ (drop off file) whole)
              (read_rounds-Delivers mark file call (size / max_read_payload) off
                (size % max_read_payload) s reads (omega arith) (omega arith) h)
      ]
