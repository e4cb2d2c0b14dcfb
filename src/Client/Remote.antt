-- ===== src/Client/Remote.antt =====
-- The server at the other end of the client's connection, and a request from one to the other.
pub mod Calls
pub mod Results
pub mod Opening
pub mod Directory
use wsfs_core.Prelude.{
  ℕ, ◌+◌, ◌^◌, ◌<◌, ◌≡◌, refl, sym, ap, ◌∙◌, Bool, true, false, ◌&&◌, Option, none, some, List, [],
  ◌∷◌, ◌++◌, length, drop, drop-length_append, append-nil, arith, ◌≤◌,
}
use wsfs_core.Wire.Bytes.{Bytes}
use wsfs_core.Wire.Source.{message, Grain}
use wsfs_core.Wire.Command.{
  Command, IsCommand, cmd_code, command_bytes, frame, write_command, max_command_length,
}
use wsfs_core.Wire.Command.RoundTrip.{dispatch_command-frame, write_command-Emits}
use wsfs_core.Server.Conn.{Conn, write_done}
use wsfs_core.Server.Conn.Laws.{
  IsHealthy, conn_writer, begin_rsp-healthy, write_done-healthy, put-IsHealthy,
}
use wsfs_core.Server.Os.{Os}
use wsfs_core.Server.Run.{serve, run_command, run_dispatched, limited-short}
use wsfs_core.Client.{responses_for}
use wsfs_core.Client.Session.{
  Session, Remote, Client, is_open, is_locked, new_client_mark, release_client_mark, begin_request,
  exchange, forward,
}
use wsfs_core.Client.Request.{ask, request_command, request}

abbrev pub ServerSession : Type 0 → Type 0
ServerSession = wsfs_core.Server.Session.Session

module _ {World : Type 0} (os : Os World)
    (rest : ℕ → Command → ServerSession World → ServerSession World) (grain : Grain) where
  -- A message that ends the server's read loop ends the connection.
  unfoldable pub server : Remote (ServerSession World)
  unfolding serve
  server m srv = elim (serve os rest (message m grain) srv) [
    | none ↦ record { peer = srv; sent = []; alive = false }
    | some srv' ↦ record {
      peer = srv';
      sent = drop (length srv.conn.sent) srv'.conn.sent;
      alive = srv'.conn.up;
    }
  ]

  pub server-frame :
      (mark : ℕ) (c : Command) (srv : ServerSession World)
      → IsCommand c
      → length (frame mark c) ≤ max_command_length
      → let srv' = run_command os rest mark c srv in
        server (frame mark c) srv ≡ record {
          peer = srv';
          sent = drop (length srv.conn.sent) srv'.conn.sent;
          alive = srv'.conn.up;
        }
  unfolding server serve run_dispatched
  server-frame mark c srv v fits =
      rw
        (
          server,
          serve,
          limited-short (message (frame mark c) grain) fits,
          dispatch_command-frame mark c grain v,
        )
        refl

-- A request on a connection that works is one message.
pub command_sends :
    (mark : ℕ) (c : Command) (conn began : Conn)
    → began ≡ record conn { writer = some (mark ∷ cmd_code c ∷ []) }
    → IsCommand c
    → length (command_bytes c) < 2 ^ 64
    → IsHealthy conn
    → ((write_command conn_writer c began).1 ≡ none)
      × IsHealthy (write_done none (write_command conn_writer c began).0)
      × ((write_done none (write_command conn_writer c began).0).sent
          ≡ conn.sent ++ (frame mark c ∷ []))
command_sends mark c conn began e v room h =
    let head = mark ∷ cmd_code c ∷ [] in
    let put =
      put-IsHealthy (write_command conn_writer c) head (command_bytes c) began
        (write_command-Emits conn_writer c v) room (rw e h) (rw e refl) in
    let after = (write_command conn_writer c began).0 in
    let sent = write_done-healthy (frame mark c) after (put.1) (put.2) in
    (put.0, rw sent (put.1), rw sent (rw (put.3, e) refl))

module _ {Peer : Type 0} (remote : Remote Peer) where
  -- What comes of one message on a connection that stays.
  pub exchange-one :
      (mark : ℕ) (m : Bytes) (before : Conn) (s : Session Peer)
      → s.conn.sent ≡ before.sent ++ (m ∷ [])
      → s.conn.up ≡ true
      → (remote m s.peer).alive ≡ true
      → exchange remote mark before s
        ≡ (responses_for mark (remote m s.peer).sent, record s { peer = (remote m s.peer).peer })
  unfolding exchange forward
  exchange-one mark m before s e up alive =
      let new : drop (length before.sent) s.conn.sent ≡ m ∷ [] =
        rw e (drop-length_append before.sent (m ∷ [])) in
      rw (exchange, new, forward, up, alive, append-nil (remote m s.peer).sent) refl
