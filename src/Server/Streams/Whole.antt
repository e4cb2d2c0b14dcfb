-- ===== src/Server/Streams/Whole.antt =====
-- A stream from its opening to its end.
use wsfs_core.Prelude.{
  ◌==◌, ℕ, ◌+◌, ◌%◌, ◌^◌, ◌<◌, ◌≡◌, if_true, not, ◌&&◌, ltb, refl, ap, ◌∙◌, true, false, none, List,
  [], ◌∷◌, ◌++◌, length, arith, some, length-append,
}
use wsfs_core.Wire.Bytes.{Bytes, put_u64}
use wsfs_core.Wire.Sink.{write-Emits}
use wsfs_core.Wire.IoCmd.{CmdWriteStreamOpenStruct, CmdWriteStreamDataStruct}
use wsfs_core.Wire.Codes.{error_ok}
use wsfs_core.Wire.Rsp.{write_rsp_write_stream_close}
use wsfs_core.Server.Conn.Laws.{IsHealthy, conn_writer, respond_sends}
use wsfs_core.Server.Os.{Os}
use wsfs_core.Server.Session.{reply, load}
use wsfs_core.Server.Streams.{
  WriteStream, Streams, load_stream, delete_stream, write_input, report, after_input,
  cmd_write_stream_data, run_input, cmd_write_stream_open,
}
use wsfs_core.Server.Streams.File.{patched, patched-same, patched-append}
use wsfs_core.Server.Streams.Writes.{WritesFile, wrote, write_chunk_lem}
use wsfs_core.Server.Answers.Contents.{joined}

abbrev advanced : WriteStream → ℕ → WriteStream
advanced ws n = record ws { offset = ws.offset + n; written = ws.written + n }

-- The parts of a stream behind its opening, and its end.
abbrev pub send_parts : {World : Type 0} → Os World → ℕ → List Bytes → Streams World → Streams World
send_parts os mark [] h = h
send_parts os mark (p ∷ ps) h =
    send_parts os mark ps (cmd_write_stream_data os mark (record { is_end = 0; payload = p }) h)

abbrev pub send_end : {World : Type 0} → Os World → ℕ → Bytes → Streams World → Streams World
send_end os mark last h = cmd_write_stream_data os mark (record { is_end = 1; payload = last }) h

load_stream-delete :
    (mark : ℕ) (m : List (ℕ × WriteStream)) → load_stream mark (delete_stream mark m) ≡ none
unfolding load_stream delete_stream
load_stream-delete mark [] = refl
load_stream-delete mark ((k, ws) ∷ m) = ground (arith, load_stream-delete mark m)

module _ {World : Type 0} (os : Os World) (view : World → ℕ → ℕ) (mark : ℕ) where
  write_input_lem :
      (ws : WriteStream) (d : Bytes) (w : World)
      → WritesFile os ws.sfd view
      → ws.failed ≡ false
      → ws.offset + length d < 2 ^ 63
      → (w' : World) × (write_input os ws d w ≡ wrote w' (length d))
        × ((i : ℕ) → view w' i ≡ patched ws.offset d (view w) i)
  unfolding write_input
  write_input_lem ws [] w writes fine small = (w, refl, λ i. refl)
  write_input_lem ws (b ∷ d) w writes fine small =
      let all : Bytes = b ∷ d in
      let (w', ran, seen) =
        write_chunk_lem os ws.sfd view writes (length all) ws.offset 0 all w (omega arith) small
          (omega arith) in
      let test : (ltb 0 (length all) && not ws.failed) ≡ true = ground (arith, fine) in
      (w', if_true _ _ test ∙ (ran ∙ ap (wrote w') (omega arith)), seen)

  after_input-part :
      (ws : WriteStream) (n : ℕ) (h : Streams World) (w' : World)
      → ws.offset + n < 2 ^ 63
      → ws.written + n < 2 ^ 64
      → after_input os mark ws false h (wrote w' n) ≡ record {
        session = record h.session { world = w' };
        opened = (mark, advanced ws n) ∷ delete_stream mark h.opened;
      }
  unfolding report
  after_input-part ws n h w' small fits =
      let offset : (ws.offset + n) % 2 ^ 64 ≡ ws.offset + n = omega arith in
      let written : (ws.written + n) % 2 ^ 64 ≡ ws.written + n = omega arith in
      rw (offset, written) refl

  -- What the end of a stream leaves.
  record Ended (ws : WriteStream) (d : Bytes) (h h' : Streams World) : Type 0 where
    seen : (i : ℕ) → view h'.session.world i ≡ patched ws.offset d (view h.session.world) i
    gone : load_stream mark h'.opened ≡ none
    healthy : IsHealthy h'.session.conn
    sent :
        h'.session.conn.sent
        ≡ h.session.conn.sent ++ ((mark ∷ error_ok ∷ put_u64 (ws.written + length d)) ∷ [])
    same_fds : h'.session.fds ≡ h.session.fds

  after_input-end :
      (ws : WriteStream) (d : Bytes) (h : Streams World) (w' : World)
      → ws.written + length d < 2 ^ 64
      → IsHealthy h.session.conn
      → ((i : ℕ) → view w' i ≡ patched ws.offset d (view h.session.world) i)
      → Ended ws d h (after_input os mark ws true h (wrote w' (length d)))
  unfolding report reply write_rsp_write_stream_close
  after_input-end ws d h w' fits healthy seen =
      let written : (ws.written + length d) % 2 ^ 64 ≡ ws.written + length d = omega arith in
      let n = (ws.written + length d) % 2 ^ 64 in
      let sends =
        respond_sends mark error_ok (conn_writer.write (put_u64 n)) (put_u64 n) h.session.conn
          (write-Emits conn_writer (put_u64 n)) (omega arith) healthy in
      record {
        seen = seen;
        gone = load_stream-delete mark h.opened;
        healthy = sends.0;
        sent =
            sends.1 ∙ ap (λ n. h.session.conn.sent ++ ((mark ∷ error_ok ∷ put_u64 n) ∷ [])) written;
        same_fds = refl;
      }

  -- What a part in the middle of a stream leaves.
  record Advanced (ws : WriteStream) (d : Bytes) (h h' : Streams World) : Type 0 where
    seen : (i : ℕ) → view h'.session.world i ≡ patched ws.offset d (view h.session.world) i
    goes_on : load_stream mark h'.opened ≡ some (advanced ws (length d))
    same_conn : h'.session.conn ≡ h.session.conn
    same_fds : h'.session.fds ≡ h.session.fds

  run_input-Advanced :
      (ws : WriteStream) (d : Bytes) (h : Streams World)
      → WritesFile os ws.sfd view
      → ws.failed ≡ false
      → ws.offset + length d < 2 ^ 63
      → ws.written + length d < 2 ^ 64
      → Advanced ws d h (run_input os mark ws d false h)
  unfolding run_input load_stream
  run_input-Advanced ws d h writes fine small fits =
      let (w', ran, seen) = write_input_lem ws d h.session.world writes fine small in
      let after =
        ap (after_input os mark ws false h) ran ∙ after_input-part ws (length d) h w' small fits in
      let own : (mark == mark) ≡ true = ground arith in
      rw after (record {
        seen = seen;
        goes_on = if_true (mark == mark) _ own;
        same_conn = refl;
        same_fds = refl;
      })

  run_input-Ended :
      (ws : WriteStream) (d : Bytes) (h : Streams World)
      → WritesFile os ws.sfd view
      → ws.failed ≡ false
      → ws.offset + length d < 2 ^ 63
      → ws.written + length d < 2 ^ 64
      → IsHealthy h.session.conn
      → Ended ws d h (run_input os mark ws d true h)
  unfolding run_input
  run_input-Ended ws d h writes fine small fits healthy =
      let (w', ran, seen) = write_input_lem ws d h.session.world writes fine small in
      rw ran (after_input-end ws d h w' fits healthy seen)

  Advanced-Ended :
      (ws : WriteStream) (p d : Bytes) (h h1 h2 : Streams World)
      → Advanced ws p h h1
      → Ended (advanced ws (length p)) d h1 h2
      → Ended ws (p ++ d) h h2
  Advanced-Ended ws p d h h1 h2 a e = record {
    seen = λ i.
        e.seen i
        ∙ patched-same (ws.offset + length p) d (view h1.session.world)
            (patched ws.offset p (view h.session.world)) i (a.seen i)
        ∙ patched-append ws.offset p d (view h.session.world) i;
    gone = e.gone;
    healthy = e.healthy;
    sent =
        e.sent
        ∙ ap (λ c. c.sent ++ ((mark ∷ error_ok ∷ put_u64 (ws.written + length p + length d)) ∷ []))
            a.same_conn
        ∙ ap (λ n. h.session.conn.sent ++ ((mark ∷ error_ok ∷ put_u64 n) ∷ []))
            (omega (arith, length-append p d));
    same_fds = e.same_fds ∙ a.same_fds;
  }

  cmd_write_stream_data-open :
      (req : CmdWriteStreamDataStruct) (ws : WriteStream) (h : Streams World)
      → load_stream mark h.opened ≡ some ws
      → cmd_write_stream_data os mark req h
        ≡ run_input os mark ws req.payload (not (req.is_end == 0)) h
  unfolding cmd_write_stream_data
  cmd_write_stream_data-open req ws h e = rw (cmd_write_stream_data, e) refl

  send_parts-Ended :
      (parts : List Bytes) (last : Bytes) (ws : WriteStream) (h : Streams World)
      → WritesFile os ws.sfd view
      → load_stream mark h.opened ≡ some ws
      → ws.failed ≡ false
      → ws.offset + length (joined parts last) < 2 ^ 63
      → ws.written + length (joined parts last) < 2 ^ 64
      → IsHealthy h.session.conn
      → Ended ws (joined parts last) h (send_end os mark last (send_parts os mark parts h))
  send_parts-Ended [] last ws h writes e fine small fits healthy =
      rw (cmd_write_stream_data-open (record { is_end = 1; payload = last }) ws h e)
        (run_input-Ended ws last h writes fine small fits healthy)
  send_parts-Ended (p ∷ ps) last ws h writes e fine small fits healthy =
      let size = length-append p (joined ps last) in
      let req : CmdWriteStreamDataStruct = record { is_end = 0; payload = p } in
      let h1 = cmd_write_stream_data os mark req h in
      let a : Advanced ws p h h1 =
        rw (cmd_write_stream_data-open req ws h e)
          (run_input-Advanced ws p h writes fine (omega arith) (omega arith)) in
      Advanced-Ended ws p (joined ps last) h h1 _ a (
        send_parts-Ended ps last (advanced ws (length p)) h1 writes a.goes_on fine (omega arith)
          (omega arith) (rw (a.same_conn) healthy))

  -- A write stream that is opened on a known descriptor under a mark that has none, and that goes on to
  -- its end, writes its parts one behind the other from its offset on and nothing else into the file,
  -- however the system cuts its writes up. On a connection that works its only answer says how much
  -- that was, and the mark is free for another stream. The end of the write is below 2^63.
  pub write_stream_lem :
      (req : CmdWriteStreamOpenStruct) (parts : List Bytes) (last : Bytes) (sfd : ℕ)
      (h : Streams World)
      → load req.fd h.session.fds ≡ some sfd
      → load_stream mark h.opened ≡ none
      → WritesFile os sfd view
      → req.offset + length (req.payload ++ joined parts last) < 2 ^ 63
      → IsHealthy h.session.conn
      → let h' =
          send_end os mark last (send_parts os mark parts (cmd_write_stream_open os mark req h)) in
        let d : Bytes = req.payload ++ joined parts last in
        ((i : ℕ) → view h'.session.world i ≡ patched req.offset d (view h.session.world) i)
        × (h'.session.conn.sent
            ≡ h.session.conn.sent ++ ((mark ∷ error_ok ∷ put_u64 (length d)) ∷ []))
        × (load_stream mark h'.opened ≡ none)
        × (h'.session.fds ≡ h.session.fds)
        × IsHealthy h'.session.conn
  unfolding cmd_write_stream_open
  write_stream_lem req parts last sfd h known free writes small healthy =
      let ws : WriteStream = record {
        sfd = sfd;
        offset = req.offset;
        written = 0;
        failed = false;
      } in
      let size = length-append req.payload (joined parts last) in
      let h1 = cmd_write_stream_open os mark req h in
      let a : Advanced ws req.payload h h1 =
        rw (cmd_write_stream_open, known, free)
          (run_input-Advanced ws req.payload h writes refl (omega arith) (omega arith)) in
      let e = Advanced-Ended ws req.payload (joined parts last) h h1 _ a (
        send_parts-Ended parts last (advanced ws (length req.payload)) h1 writes a.goes_on refl
          (omega arith) (omega arith) (rw (a.same_conn) healthy)) in
      let none_before : 0 + length (req.payload ++ joined parts last)
          ≡ length (req.payload ++ joined parts last) =
        omega arith in
      (
        e.seen,
        e.sent ∙ ap (λ n. h.session.conn.sent ++ ((mark ∷ error_ok ∷ put_u64 n) ∷ [])) none_before,
        e.gone,
        e.same_fds,
        e.healthy,
      )
