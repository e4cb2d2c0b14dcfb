-- ===== src/Server/Answers/Replies.antt =====
-- The answers of the ways in which a handler replies.
use wsfs_core.Prelude.{
  ℕ, ◌≤◌, ◌≢◌, ◌+◌, refl, [], ◌∷◌, length, arith, Option-cases, Bool-cases, inl, inr, length-take,
}
use wsfs_core.Wire.Bytes.{Bytes}
use wsfs_core.Wire.Text.{text}
use wsfs_core.Wire.Codes.{
  error_ok, error_partial_response, error_invalid, error_invalid_fd, max_error_desc_length,
}
use wsfs_core.Wire.Command.{max_msg_size}
use wsfs_core.Wire.Sink.{Put, Emits, done, done-Emits}
use wsfs_core.Wire.Rsp.{RspError, rsp_error_bytes}
use wsfs_core.Wire.Rsp.Laws.{write_rsp_error-Emits}
use wsfs_core.Server.Conn.{Conn}
use wsfs_core.Server.Conn.Laws.{IsHealthy, conn_writer, respond_sends}
use wsfs_core.Server.Errno.{Errno, SysResult, failed, wsfs_err_code, Sys}
use wsfs_core.Server.Session.{cut, Session, load, reply, reply_ok, reply_error, reply_errno}
use wsfs_core.Server.Handler.{with_fd, with_path, calling}
use wsfs_core.Server.FileCmds.{reply_with}
use wsfs_core.Server.Os.{Os}
use wsfs_core.Server.Answers.{Answers, final-Answers}
use wsfs_core.Util.Url.{is_url_valid}

pub wsfs_err_code-ne_partial : (e : Errno) → wsfs_err_code e ≢ error_partial_response
unfolding wsfs_err_code
wsfs_err_code-ne_partial e = ground arith

cut-le : (limit : ℕ) (desc : Bytes) → length (cut limit desc) ≤ limit
unfolding cut
cut-le limit desc = ground (arith, length-take limit desc)

module _ {World : Type 0} where
  pub reply-Answers :
      (mark code : ℕ) (put : Put Conn) (bs : Bytes) (s : Session World)
      → Emits conn_writer put bs
      → length bs + 2 ≤ max_msg_size
      → code ≢ error_partial_response
      → IsHealthy s.conn
      → Answers mark s.conn (reply mark code put s).conn
  unfolding reply
  reply-Answers mark code put bs s e fits ne h =
      let r = respond_sends mark code put bs s.conn e (omega arith) h in
      final-Answers mark (mark ∷ code ∷ bs) (code, bs, refl, ne, omega arith) r.0 r.1

  pub reply_ok-Answers :
      (mark : ℕ) (s : Session World) → IsHealthy s.conn → Answers mark s.conn (reply_ok mark s).conn
  unfolding reply_ok
  reply_ok-Answers mark s h =
      reply-Answers mark error_ok done [] s (done-Emits conn_writer) (omega arith) (ground arith) h

  pub reply_error-Answers :
      (mark code : ℕ) (desc : Bytes) (s : Session World)
      → code ≢ error_partial_response
      → IsHealthy s.conn
      → Answers mark s.conn (reply_error mark code desc s).conn
  unfolding reply_error
  reply_error-Answers mark code desc s ne h =
      let rsp : RspError = record { desc = cut max_error_desc_length desc } in
      reply-Answers mark code _ (rsp_error_bytes rsp) s
        (write_rsp_error-Emits conn_writer rsp (omega (arith, cut-le max_error_desc_length desc)))
        (omega (arith, cut-le max_error_desc_length desc)) ne h

  pub reply_errno-Answers :
      (mark : ℕ) (r : SysResult (Unit {0})) (s : Session World)
      → IsHealthy s.conn
      → Answers mark s.conn (reply_errno mark r s).conn
  unfolding reply_errno
  reply_errno-Answers mark (SysResult.done u) s h = reply_ok-Answers mark s h
  reply_errno-Answers mark (failed e) s h =
      reply_error-Answers mark (wsfs_err_code e) (text "syscall error") s
        (wsfs_err_code-ne_partial e) h

  pub with_fd-Answers :
      (mark fd : ℕ) (run : ℕ → Session World → Session World) (s : Session World)
      → IsHealthy s.conn
      → ((sfd : ℕ) → Answers mark s.conn (run sfd s).conn)
      → Answers mark s.conn (with_fd mark fd run s).conn
  unfolding with_fd
  with_fd-Answers mark fd run s h k = elim (Option-cases (load fd s.fds)) [
    | inl e ↦
        rw (with_fd, e)
          (reply_error-Answers mark error_invalid_fd (text "bad fd") s (ground arith) h)
    | inr (sfd, e) ↦ rw (with_fd, e) (k sfd)
  ]

  pub with_path-Answers :
      (mark : ℕ) (path : Bytes) (run : Bytes → Session World → Session World) (s : Session World)
      → IsHealthy s.conn
      → ((apath : Bytes) → Answers mark s.conn (run apath s).conn)
      → Answers mark s.conn (with_path mark path run s).conn
  unfolding with_path
  with_path-Answers mark path run s h k = elim (Bool-cases (is_url_valid path)) [
    | inl e ↦ rw e (k _)
    | inr e ↦ rw e (reply_error-Answers mark error_invalid (text "bad path") s (ground arith) h)
  ]

  -- A system call changes the world, and whatever is made of its answer replies.
  pub calling-Answers :
      {A : Type 0} (mark : ℕ) (m : Sys World A) (k : SysResult A → Session World → Session World)
      (s : Session World)
      → ((w : World) (r : SysResult A) → Answers mark s.conn (k r (record s { world = w })).conn)
      → Answers mark s.conn (calling m k s).conn
  unfolding calling
  calling-Answers mark m k s h = h (m s.world).0 (m s.world).1

  -- The calls whose error or success is all that the client hears of.
  pub errno-Answers :
      (mark : ℕ) (m : Sys World (Unit {0})) (s : Session World)
      → IsHealthy s.conn
      → Answers mark s.conn (calling m (reply_errno mark) s).conn
  errno-Answers mark m s h =
      calling-Answers mark m (reply_errno mark) s λ w r. reply_errno-Answers mark r _ h

  pub reply_with-Answers :
      {A : Type 0} (os : Os World) (mark : ℕ) (put : A → Put Conn) (bytes : A → Bytes)
      (r : SysResult A) (s : Session World)
      → ((a : A) → Emits conn_writer (put a) (bytes a))
      → ((a : A) → length (bytes a) + 2 ≤ max_msg_size)
      → IsHealthy s.conn
      → Answers mark s.conn (reply_with os mark put r s).conn
  unfolding reply_with
  reply_with-Answers os mark put bytes (SysResult.done a) s e fits h =
      reply-Answers mark error_ok (put a) (bytes a) s (e a) (fits a) (ground arith) h
  reply_with-Answers os mark put bytes (failed e) s em fits h =
      reply_error-Answers mark (wsfs_err_code e) (text "syscall error") s
        (wsfs_err_code-ne_partial e) h
