-- ===== src/Server/ReadCmds.antt =====
-- The reads of commands-unix.go. A read of more than one message's payload goes out in full partial
-- messages; a short one, or the remainder, is the last.
use wsfs_core.Prelude.{
  ℕ, zero, suc, ◌+◌, ◌-◌, ◌/◌, ◌%◌, ◌^◌, Bool, true, false, not, ◌&&◌, ◌∷◌, ◌==◌, ltb,
  if◌then◌else◌, length,
}
use wsfs_core.Prelude.Int.{to_int64}
use wsfs_core.Wire.Bytes.{Bytes}
use wsfs_core.Wire.Text.{text}
use wsfs_core.Wire.Codes.{error_ok, error_partial_response}
use wsfs_core.Wire.Command.{max_msg_size}
use wsfs_core.Wire.IoCmd.{CmdReadStruct, CmdReadAtStruct}
use wsfs_core.Server.Conn.{write}
use wsfs_core.Server.Errno.{Sys, SysResult, failed, wsfs_err_code}
use wsfs_core.Server.Os.{Os}
use wsfs_core.Server.Session.{Session, reply_ok, reply_error}
use wsfs_core.Server.Handler.{with_fd}

abbrev pub max_read_payload : ℕ
max_read_payload = max_msg_size - 2

module _ {World : Type 0} where
  -- What is made of the bytes read, and whether that went well. The message is put together in a
  -- pooled buffer that it fits.
  unfoldable pub read_reply :
      ℕ → ℕ → Bool → SysResult Bytes → Session World → (ℕ × Bool) × Session World
  read_reply mark size partial (failed e) s =
      ((0, false), reply_error mark (wsfs_err_code e) (text "syscall error") s)
  read_reply mark size partial (SysResult.done got) s =
      let code = if partial && length got == size then error_partial_response else error_ok in
      ((length got, true), record s { conn = write (mark ∷ code ∷ got) s.conn })

  -- readAndSend and readAtAndSend, which differ in the call that reads.
  unfoldable pub send_read :
      ℕ → Sys World Bytes → ℕ → Bool → Session World → (ℕ × Bool) × Session World
  unfolding read_reply
  send_read mark call size partial s =
      let (w, r) = call s.world in read_reply mark size partial r (record s { world = w })

  -- The rest of a long read: `rounds` full messages from the offset on, then what is left over. The
  -- call is given the offset and the size.
  unfoldable pub read_rounds :
      ℕ → (ℕ → ℕ → Sys World Bytes) → ℕ → ℕ → ℕ → Session World → Session World
  read_rounds mark call zero off over s =
      if over == 0 then reply_ok mark s else (send_read mark (call off over) over false s).1
  read_rounds mark call (suc rounds) off over s =
      let ((got, fine), s') = send_read mark (call off max_read_payload) max_read_payload true s in
      let more = read_rounds mark call rounds ((off + got) % 2 ^ 64) over s' in
      if not fine then s' else (if ltb got max_read_payload then s' else more)

  unfoldable pub read_all_of : ℕ → (ℕ → ℕ → Sys World Bytes) → ℕ → ℕ → Session World → Session World
  read_all_of mark call off size s =
      if ltb size max_read_payload
      then (send_read mark (call off size) size false s).1
      else read_rounds mark call (size / max_read_payload) off (size % max_read_payload) s

module _ {World : Type 0} (os : Os World) where
  -- The file's own position stands for the offset.
  unfoldable pub cmd_read : ℕ → CmdReadStruct → Session World → Session World
  cmd_read mark req =
      with_fd mark req.fd λ sfd. read_all_of mark (λ off size. os.read sfd size) 0 req.size

  unfoldable pub cmd_read_at : ℕ → CmdReadAtStruct → Session World → Session World
  cmd_read_at mark req =
      with_fd mark req.fd
        λ sfd. read_all_of mark (λ off size. os.pread sfd size (to_int64 off)) req.offset req.size
