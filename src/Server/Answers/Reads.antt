-- ===== src/Server/Answers/Reads.antt =====
-- The answers of the reads, whose messages are partial while the payloads are full.
use wsfs_core.Prelude.{
  ℕ, zero, suc, ◌≤◌, ◌<◌, ◌≡◌, ◌+◌, ◌/◌, ◌%◌, ◌^◌, refl, Bool, true, false, not, ◌==◌, [], ◌∷◌,
  ◌++◌, length, arith, ltb, if◌then◌else◌, Bool-cases, inl, inr, ◌⊎◌,
}
use wsfs_core.Wire.Bytes.{Bytes}
use wsfs_core.Wire.Text.{text}
use wsfs_core.Wire.Codes.{error_ok, error_partial_response}
use wsfs_core.Server.Conn.{write}
use wsfs_core.Server.Conn.Laws.{IsHealthy, write_sends}
use wsfs_core.Server.Errno.{SysResult, failed, wsfs_err_code, Sys}
use wsfs_core.Server.Session.{Session}
use wsfs_core.Server.ReadCmds.{max_read_payload, send_read, read_reply, read_rounds, read_all_of}
use wsfs_core.Server.Answers.{Answers, IsPart, final-Answers, part-Answers}
use wsfs_core.Server.Answers.Replies.{
  reply_ok-Answers, reply_error-Answers, wsfs_err_code-ne_partial,
}

-- A system call that reads returns no more than it was asked for.
abbrev pub ReadsAtMost : {World : Type 0} → ℕ → Sys World Bytes → Type 0
ReadsAtMost {World} size call =
    (w : World) (got : Bytes) → (call w).1 ≡ SysResult.done got → length got ≤ size

module _ {World : Type 0} where
  -- After a read: it was a full part and the handler goes on, or it answered.
  abbrev Sent : ℕ → ℕ → Session World → (ℕ × Bool) × Session World → Type 0
  Sent mark size s r =
      ((r.0.1 ≡ true)
        × (r.0.0 ≡ size)
        × IsHealthy r.1.conn
        × ((m : Bytes) × IsPart mark m × (r.1.conn.sent ≡ s.conn.sent ++ (m ∷ []))))
      ⊎ (((r.0.1 ≡ false) ⊎ (r.0.0 < size)) × Answers mark s.conn r.1.conn)

  pub got_final :
      (mark : ℕ) (got : Bytes) (s : Session World)
      → length got ≤ max_read_payload
      → IsHealthy s.conn
      → Answers mark s.conn (write (mark ∷ error_ok ∷ got) s.conn)
  got_final mark got s fits h =
      let m : Bytes = mark ∷ error_ok ∷ got in
      let w = write_sends m s.conn h in
      final-Answers mark m (error_ok, got, refl, (λ e. absurd (omega arith)), omega arith) w.0 w.1

  read_reply_last :
      (mark size : ℕ) (r : SysResult Bytes) (s : Session World)
      → ((got : Bytes) → r ≡ SysResult.done got → length got ≤ size)
      → size ≤ max_read_payload
      → IsHealthy s.conn
      → Answers mark s.conn (read_reply mark size false r s).1.conn
  unfolding read_reply
  read_reply_last mark size (failed e) s most fits h =
      reply_error-Answers mark (wsfs_err_code e) (text "syscall error") s
        (wsfs_err_code-ne_partial e) h
  read_reply_last mark size (SysResult.done got) s most fits h =
      got_final mark got s (omega (arith, most got refl)) h

  read_reply_part :
      (mark size : ℕ) (r : SysResult Bytes) (s : Session World)
      → ((got : Bytes) → r ≡ SysResult.done got → length got ≤ size)
      → size ≤ max_read_payload
      → IsHealthy s.conn
      → Sent mark size s (read_reply mark size true r s)
  unfolding read_reply
  read_reply_part mark size (failed e) s most fits h = inr (
    inl refl,
    reply_error-Answers mark (wsfs_err_code e) (text "syscall error") s (wsfs_err_code-ne_partial e)
        h,
  )
  read_reply_part mark size (SysResult.done got) s most fits h =
      elim (Bool-cases (length got == size)) [
        | inl full ↦
            let m : Bytes = mark ∷ error_partial_response ∷ got in
            let w = write_sends m s.conn h in
            rw full (inl (refl, ground arith, w.0, (m, (got, refl, ground arith), w.1)))
        | inr short ↦ rw short (
            inr (
              inr (ground (arith, most got refl)),
              got_final mark got s (omega (arith, most got refl)) h,
            ))
      ]

  abbrev pub next_round : (ℕ × Bool) × Session World → Session World → Session World
  next_round x more = if not x.0.1 then x.1 else (if ltb x.0.0 max_read_payload then x.1 else more)

  round_step :
      (mark got : ℕ) (fine : Bool) (s s' more : Session World)
      → Sent mark max_read_payload s ((got, fine), s')
      → (IsHealthy s'.conn → Answers mark s'.conn more.conn)
      → Answers mark s.conn (next_round ((got, fine), s') more).conn
  round_step mark got fine s s' more (inl (went, full, h, (m, part, sent))) k =
      let goes_on : ltb got max_read_payload ≡ false = ground arith in
      rw (went, goes_on) (part-Answers mark m part sent (k h))
  round_step mark got fine s s' more (inr (inl bad, a)) k = rw bad a
  round_step mark got fine s s' more (inr (inr short, a)) k =
      let ends : ltb got max_read_payload ≡ true = ground arith in
      elim (Bool-cases fine) [ inl e ↦ rw (e, ends) a | inr e ↦ rw e a ]

  read_rounds-Answers :
      (mark : ℕ) (call : ℕ → ℕ → Sys World Bytes) (rounds off over : ℕ) (s : Session World)
      → ((off size : ℕ) → ReadsAtMost size (call off size))
      → over ≤ max_read_payload
      → IsHealthy s.conn
      → Answers mark s.conn (read_rounds mark call rounds off over s).conn
  unfolding read_rounds send_read
  read_rounds-Answers mark call zero off over s most fits h = elim (Bool-cases (over == 0)) [
    | inl none_left ↦ rw none_left (reply_ok-Answers mark s h)
    | inr some_left ↦
        rw some_left
          (read_reply_last mark over (call off over s.world).1 _ (most off over s.world) fits h)
  ]
  read_rounds-Answers mark call (suc rounds) off over s most fits h =
      let x = send_read mark (call off max_read_payload) max_read_payload true s in
      round_step mark x.0.0 x.0.1 s x.1 _
        (read_reply_part mark max_read_payload (call off max_read_payload s.world).1 _
          (most off max_read_payload s.world) (omega arith) h)
        (λ h'. read_rounds-Answers mark call rounds ((off + x.0.0) % 2 ^ 64) over x.1 most fits h')

  pub read_all_of-Answers :
      (mark : ℕ) (call : ℕ → ℕ → Sys World Bytes) (off size : ℕ) (s : Session World)
      → ((off size : ℕ) → ReadsAtMost size (call off size))
      → IsHealthy s.conn
      → Answers mark s.conn (read_all_of mark call off size s).conn
  unfolding read_all_of send_read
  read_all_of-Answers mark call off size s most h = elim (Bool-cases (ltb size max_read_payload)) [
    | inl short ↦ rw short (
        read_reply_last mark size (call off size s.world).1 _ (most off size s.world) (ground arith)
          h)
    | inr long ↦ rw long (
        read_rounds-Answers mark call (size / max_read_payload) off (size % max_read_payload) s most
          (omega arith) h)
  ]
