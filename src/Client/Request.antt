-- ===== src/Client/Request.antt =====
-- What all commands of internal/client/session/commands.go have in common: a request for one mark, and
-- the two ways of reading a single answer.
use wsfs_core.Prelude.{ℕ, Option, none, some, List, [], ◌∷◌, not, ◌==◌, if◌then◌else◌}
use wsfs_core.Wire.Bytes.{Bytes}
use wsfs_core.Wire.Codes.{error_ok, error_io}
use wsfs_core.Wire.Sink.{Put, WriteError}
use wsfs_core.Wire.Source.{Decoder, message, ok, err, whole}
use wsfs_core.Wire.Command.{Command, cmd_code, write_command}
use wsfs_core.Server.Conn.{Conn, write_done}
use wsfs_core.Server.Conn.Laws.{conn_writer}
use wsfs_core.Client.Session.{
  Session, Remote, Client, new_client_mark, release_client_mark, begin_request, exchange,
}

-- `rsp.Bytes[1]` of the next message on the channel.
unfoldable pub status : List Bytes → Option ℕ
status [] = none
status ([] ∷ ms) = none
status ((mark ∷ []) ∷ ms) = none
status ((mark ∷ code ∷ d) ∷ ms) = some code

-- An error has its code and no value; an answer that does not decode is an error.
unfoldable pub value_of : {A B : Type 0} → Decoder A → (A → B) → B → List Bytes → Option (B × ℕ)
value_of read value missing [] = none
value_of read value missing ([] ∷ ms) = none
value_of read value missing ((mark ∷ []) ∷ ms) = none
value_of read value missing ((mark ∷ code ∷ d) ∷ ms) =
    if not (code == error_ok) then some (missing, code) else (elim (read (message d whole)) [
      | ok a left ↦ some (value a, code)
      | err e left ↦ some (missing, error_io)
    ])

-- An answer, and the mark that it makes free.
abbrev pub collect :
    {Peer A : Type 0}
    → ℕ
    → (List Bytes → Option A)
    → List Bytes × Session Peer
    → Option (A × Session Peer)
collect mark receive (ms, s) = elim (receive ms) [
  | none ↦ none
  | some a ↦ some (a, release_client_mark mark s)
]

module _ {Peer A : Type 0} (remote : Remote Peer) where
  -- The message ends; without an error the answer is waited for. The mark is free again at the end.
  abbrev pub after_put :
      ℕ
      → A
      → (List Bytes → Option A)
      → Session Peer
      → Conn × Option WriteError
      → Option (A × Session Peer)
  after_put mark failed receive s (c, some x) =
      some (failed, release_client_mark mark (record s { conn = write_done (some x) c }))
  after_put mark failed receive s (c, none) =
      collect mark receive (exchange remote mark s.conn (record s { conn = write_done none c }))

  -- The struct is written, behind the header.
  unfoldable pub ask :
      ℕ → Put Conn → A → (List Bytes → Option A) → Session Peer → Conn → Option (A × Session Peer)
  ask mark put failed receive s c = after_put mark failed receive s (put c)

  -- A session that is closed gives `refused`, a connection that takes no request gives `failed`.
  unfoldable pub request : ℕ → Put Conn → A → A → (List Bytes → Option A) → Client Peer A
  unfolding new_client_mark begin_request ask
  request cmd put refused failed receive s = elim (new_client_mark s) [
    | none ↦ none
    | some (none, s') ↦ some (refused, s')
    | some (some mark, s') ↦
        let (begun, c) = begin_request mark cmd s'.conn in
        let asked = ask mark put failed receive s' c in
        if begun then asked else some (failed, release_client_mark mark (record s' { conn = c }))
  ]

  -- The request of a command, with its code and its struct.
  abbrev pub request_command : Command → A → A → (List Bytes → Option A) → Client Peer A
  request_command c = request (cmd_code c) (write_command conn_writer c)
