-- ===== src/Server/Streams.antt =====
-- Write streams: writeStream of internal/server/wsfs/session.go with its handlers of commands.go and
-- writeStreamWriteChunk of commands-unix.go. An input that is put on a stream's channel is taken off at
-- once, and its buffer is free again.
pub mod File
pub mod Writes
pub mod Whole
use wsfs_core.Prelude.{
  ℕ, zero, suc, ◌+◌, ◌%◌, ◌^◌, Bool, true, false, not, ◌&&◌, ◌||◌, Option, none, some, List, [],
  ◌∷◌, ◌==◌, if◌then◌else◌, length, drop, ltb,
}
use wsfs_core.Prelude.Int.{to_int64}
use wsfs_core.Wire.Bytes.{Bytes}
use wsfs_core.Wire.Text.{text}
use wsfs_core.Wire.Codes.{error_ok, error_io, error_invalid, error_invalid_fd}
use wsfs_core.Wire.Command.{Command, write_stream_open, write_stream_data}
use wsfs_core.Wire.IoCmd.{CmdWriteStreamOpenStruct, CmdWriteStreamDataStruct}
use wsfs_core.Wire.Rsp.{write_rsp_write_stream_close}
use wsfs_core.Server.Conn.Laws.{conn_writer}
use wsfs_core.Server.Errno.{SysResult, failed, wsfs_err_code, ignoring_eintr}
use wsfs_core.Server.Os.{Os}
use wsfs_core.Server.Session.{Session, load, reply, reply_error}
use wsfs_core.Server.Run.{run_command}

-- Where the stream goes on, how much it has written, and whether an error was sent: then it writes no
-- more.
pub record WriteStream : Type 0 where
  pub sfd : ℕ
  pub offset : ℕ
  pub written : ℕ
  pub failed : Bool

-- A session with the streams that are open, by their marks.
pub record Streams (World : Type 0) : Type 0 where
  pub session : Session World
  pub opened : List (ℕ × WriteStream)

unfoldable pub load_stream : ℕ → List (ℕ × WriteStream) → Option WriteStream
load_stream mark [] = none
load_stream mark ((k, ws) ∷ m) = if k == mark then some ws else load_stream mark m

unfoldable pub delete_stream : ℕ → List (ℕ × WriteStream) → List (ℕ × WriteStream)
delete_stream mark [] = []
delete_stream mark ((k, ws) ∷ m) =
    if k == mark then delete_stream mark m else ((k, ws) ∷ delete_stream mark m)

module _ {World : Type 0} (os : Os World) where
  -- How much was written, and the error. A round writes a byte at least.
  unfoldable pub write_chunk : ℕ → ℕ → ℕ → Bytes → ℕ → World → World × ℕ × Option (ℕ × Bytes)
  write_chunk zero sfd off d total w = (w, total, none)
  write_chunk (suc fuel) sfd off d total w =
      let (w', r) = ignoring_eintr os.eintr_limit (os.pwrite sfd d (to_int64 off)) w in
      if length d == 0 then (w, total, none) else (elim r [
        | SysResult.failed e ↦ (w', total, some (wsfs_err_code e, text "syscall error"))
        | SysResult.done n ↦
            let more =
              write_chunk fuel sfd ((off + n) % 2 ^ 64) (drop n d) ((total + n) % 2 ^ 64) w' in
            if n == 0 then (w', total, some (error_io, text "short write")) else more
      ])

  -- What an input writes.
  unfoldable pub write_input : WriteStream → Bytes → World → World × ℕ × Option (ℕ × Bytes)
  unfolding write_chunk
  write_input ws d w =
      if ltb 0 (length d) && not ws.failed
      then write_chunk (length d) ws.sfd ws.offset d 0 w
      else (w, 0, none)

  unfoldable pub report : ℕ → Option (ℕ × Bytes) → Session World → Session World
  report mark none s = s
  report mark (some (code, desc)) s = reply_error mark code desc s

  -- The end of a stream is answered by what was written.
  abbrev pub after_input :
      ℕ → WriteStream → Bool → Streams World → World × ℕ × Option (ℕ × Bytes) → Streams World
  after_input mark ws is_end h (w, n, fault) =
      let ws' : WriteStream = record ws {
        offset = (ws.offset + n) % 2 ^ 64;
        written = (ws.written + n) % 2 ^ 64;
        failed = elim fault [ none ↦ ws.failed | some e ↦ true ];
      } in
      let s = report mark fault (record h.session { world = w }) in
      let closed : Session World =
        reply mark error_ok
          (write_rsp_write_stream_close conn_writer (record { written = ws'.written })) s in
      if is_end
      then (record { session = closed; opened = delete_stream mark h.opened })
      else (record { session = s; opened = (mark, ws') ∷ delete_stream mark h.opened })

  -- One round of writeStream.run.
  unfoldable pub run_input : ℕ → WriteStream → Bytes → Bool → Streams World → Streams World
  unfolding write_input
  run_input mark ws d is_end h = after_input mark ws is_end h (write_input ws d h.session.world)

  unfoldable pub cmd_write_stream_open :
      ℕ → CmdWriteStreamOpenStruct → Streams World → Streams World
  unfolding load_stream run_input
  cmd_write_stream_open mark req h = elim (load req.fd h.session.fds) [
    | none ↦ record h { session = reply_error mark error_invalid_fd (text "bad fd") h.session }
    | some sfd ↦ elim (load_stream mark h.opened) [
      | some ws ↦ record h {
        session = reply_error mark error_invalid (text "write stream already open") h.session;
      }
      | none ↦
          run_input mark (record { sfd = sfd; offset = req.offset; written = 0; failed = false })
            req.payload false h
    ]
  ]

  unfoldable pub cmd_write_stream_data :
      ℕ → CmdWriteStreamDataStruct → Streams World → Streams World
  unfolding load_stream run_input
  cmd_write_stream_data mark req h = elim (load_stream mark h.opened) [
    | none ↦ record h {
      session = reply_error mark error_invalid (text "write stream not open") h.session;
    }
    | some ws ↦ run_input mark ws req.payload (not (req.is_end == 0)) h
  ]

  -- The handlers of Server/Run and those of streams.
  unfoldable pub run_with_streams :
      (ℕ → Command → Session World → Session World) → ℕ → Command → Streams World → Streams World
  run_with_streams rest mark (write_stream_open d) h = cmd_write_stream_open mark d h
  run_with_streams rest mark (write_stream_data d) h = cmd_write_stream_data mark d h
  run_with_streams rest mark c h = record h { session = run_command os rest mark c h.session }

-- clearWriteStreams, once a connection is lost.
unfoldable pub clear_write_streams : {World : Type 0} → Streams World → Streams World
clear_write_streams h = record h { opened = [] }
