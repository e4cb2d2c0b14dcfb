-- ===== src/Client/WriteStream.antt =====
-- internal/client/session/writeStream.go: a write that goes out as a stream of messages under one mark,
-- and readRspErrorDesc of commands.go.
use wsfs_core.Prelude.{
  ℕ, zero, suc, ◌-◌, ◌&&◌, ◌==◌, Bool, true, false, Option, none, some, List, [], ◌∷◌, ◌++◌, length,
  take, drop, if◌then◌else◌,
}
use wsfs_core.Wire.Bytes.{Bytes}
use wsfs_core.Wire.Text.{text}
use wsfs_core.Wire.Codes.{error_ok, error_io, error_unknown, error_invalid}
use wsfs_core.Wire.Source.{message, ok, err, whole}
use wsfs_core.Wire.Command.{
  Command, cmd_code, write_command, max_msg_size, write_stream_open, write_stream_data,
}
use wsfs_core.Wire.Rsp.{read_rsp_error, read_rsp_write_stream_close}
use wsfs_core.Util.Strings.{str_eq}
use wsfs_core.Server.Conn.{write_done}
use wsfs_core.Server.Conn.Laws.{conn_writer}
use wsfs_core.Client.Session.{
  Session, Remote, Client, new_client_mark, release_client_mark, begin_request, exchange,
}

abbrev pub max_write_stream_open_payload : ℕ
max_write_stream_open_payload = max_msg_size - 14

abbrev pub max_write_stream_data_payload : ℕ
max_write_stream_data_payload = max_msg_size - 3

-- `arrived` are the messages that wait on the channel of the stream's mark.
pub record WriteStream : Type 0 where
  pub client_mark : ℕ
  pub write_err_code : ℕ
  pub write_err_desc : Bytes
  pub closed : Bool
  pub arrived : List Bytes

-- The description is empty where it does not decode.
unfoldable pub read_rsp_error_desc : Bytes → Bytes
read_rsp_error_desc d = elim (read_rsp_error (message d whole)) [
  | ok rsp left ↦ rsp.desc
  | err e left ↦ []
]

-- The loop of Close over the mark's channel: how much was written, the code and the description, and
-- the stream with the first error of a write.
unfoldable pub close_answer : WriteStream → List Bytes → Option ((ℕ × ℕ × Bytes) × WriteStream)
unfolding read_rsp_error_desc
close_answer ws [] = none
close_answer ws ([] ∷ ms) = none
close_answer ws ((mark ∷ []) ∷ ms) = none
close_answer ws ((mark ∷ code ∷ d) ∷ ms) =
    let desc = read_rsp_error_desc d in
    let noted = record ws { write_err_code = code; write_err_desc = desc } in
    let more = close_answer (if ws.write_err_code == 0 then noted else ws) ms in
    if code == error_ok
    then (elim (read_rsp_write_stream_close (message d whole)) [
      | ok rsp left ↦ some ((rsp.written, code, []), ws)
      | err e left ↦ some ((0, error_unknown, text "bad close response"), ws)
    ])
    else (if code == error_unknown
        then some ((0, code, desc), ws)
        else (if code == error_io && str_eq desc (text "Session error mode")
            then some ((0, error_unknown, desc), ws)
            else more))

module _ {Peer : Type 0} (remote : Remote Peer) where
  -- One message of the stream; `false` if the connection does not take it.
  unfoldable pub post : Command → WriteStream → Session Peer → Bool × WriteStream × Session Peer
  unfolding begin_request exchange
  post c ws s =
      let (begun, before) = begin_request ws.client_mark (cmd_code c) s.conn in
      let (after, e) = write_command conn_writer c before in
      let s' = record s { conn = write_done e after } in
      let (ms, s'') = exchange remote ws.client_mark before s' in
      if begun
      then (elim e [
        | some x ↦ (false, ws, s')
        | none ↦ (true, record ws { arrived = ws.arrived ++ ms }, s'')
      ])
      else (false, ws, record s { conn = before })

  -- The loop of Write. A round takes a byte at least.
  unfoldable pub write_data :
      ℕ → Bytes → WriteStream → Session Peer → Bool × WriteStream × Session Peer
  unfolding post
  write_data zero d ws s = (true, ws, s)
  write_data (suc fuel) d ws s =
      let chunk = take max_write_stream_data_payload d in
      let (fine, ws', s') =
        post (write_stream_data (record { is_end = 0; payload = chunk })) ws s in
      let more = write_data fuel (drop (length chunk) d) ws' s' in
      if length d == 0 then (true, ws, s) else (if fine then more else (false, ws', s'))

  unfoldable pub stream_write :
      Bytes → WriteStream → Session Peer → Bool × WriteStream × Session Peer
  unfolding write_data
  stream_write d ws s = if ws.closed then (false, ws, s) else write_data (length d) d ws s

  -- `none` for the stream where Go returns an error.
  unfoldable pub open_write_stream : ℕ → ℕ → Bytes → Client Peer (Option WriteStream)
  unfolding new_client_mark release_client_mark post stream_write
  open_write_stream fd offset first s = elim (new_client_mark s) [
    | none ↦ none
    | some (none, s') ↦ some (none, s')
    | some (some mark, s') ↦
        let stream : WriteStream = record {
          client_mark = mark;
          write_err_code = 0;
          write_err_desc = [];
          closed = false;
          arrived = [];
        } in
        let (opened, ws, s1) =
          post
            (write_stream_open (record {
              fd = fd;
              offset = offset;
              payload = take max_write_stream_open_payload first;
            }))
            stream s' in
        let rest = drop max_write_stream_open_payload first in
        let (fine, ws', s2) = stream_write rest ws s1 in
        if opened
        then (if fine then some (some ws', s2) else some (none, release_client_mark mark s2))
        else some (none, release_client_mark mark s1)
  ]

  -- The last part goes out by itself, as the end of the stream.
  unfoldable pub close_with : Bytes → WriteStream → Client Peer ((ℕ × ℕ × Bytes) × WriteStream)
  unfolding release_client_mark post close_answer
  close_with last ws s =
      let (fine, ws', s') =
        post (write_stream_data (record { is_end = 1; payload = last }))
          (record ws { closed = true }) s in
      if fine
      then (elim (close_answer ws' ws'.arrived) [
        | none ↦ none
        | some r ↦ some (r, release_client_mark ws.client_mark s')
      ])
      else some (
        ((0, error_unknown, text "session error mode"), ws'),
        release_client_mark ws.client_mark s',
      )

  -- The text of a failure of the connection is not modelled.
  unfoldable pub stream_close : Bytes → WriteStream → Client Peer ((ℕ × ℕ × Bytes) × WriteStream)
  unfolding release_client_mark stream_write close_with
  stream_close last ws s =
      let early = length last - max_write_stream_data_payload in
      let (fine, ws', s') = stream_write (take early last) ws s in
      if ws.closed
      then some (((0, error_invalid, text "write stream already closed"), ws), s)
      else (if fine
          then close_with (drop early last) ws' s'
          else some (
            ((0, error_unknown, text "write stream I/O error"), record ws' { closed = true }),
            release_client_mark ws.client_mark s',
          ))
