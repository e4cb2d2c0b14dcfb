-- ===== src/Client/Remote/Calls.antt =====
-- A command of the client as a call of the server's handler.
use wsfs_core.Wire.Source.{Grain}
use wsfs_core.Prelude.{
  ℕ, ◌^◌, ◌<◌, ◌≡◌, refl, ap, ◌∙◌, true, false, Option, none, some, List, [], ◌∷◌, length, drop,
  arith, ◌≤◌,
}
use wsfs_core.Wire.Bytes.{Bytes}
use wsfs_core.Wire.Command.{Command, IsCommand, cmd_code, frame, write_command}
use wsfs_core.Server.Conn.{Conn}
use wsfs_core.Server.Conn.Laws.{IsHealthy, conn_writer, begin_rsp-healthy}
use wsfs_core.Server.Os.{Os}
use wsfs_core.Server.Run.{run_command}
use wsfs_core.Server.Conn.{write_done}
use wsfs_core.Client.Session.{release_client_mark, Remote, exchange}
use wsfs_core.Wire.Sink.{Put, WriteError}
use wsfs_core.Client.{responses_for}
use wsfs_core.Client.Session.{Session, is_open, is_locked, begin_request}
use wsfs_core.Client.Session.Marks.{taken, new_client_mark-found, release-taken}
use wsfs_core.Client.Request.{ask, after_put, collect, request_command, request}
use wsfs_core.Client.Remote.{
  ServerSession, server, server-frame, command_sends, exchange-one, max_command_length,
}

-- An open session with a free mark and a connection that works.
pub record CanAsk {Peer : Type 0} (s : Session Peer) : Type 0 where
  pub opened : is_open s.state ≡ true
  pub free : ℕ
  pub free_small : free < 2 ^ 8
  pub free_lem : is_locked free s.marks ≡ false
  pub healthy : IsHealthy s.conn

asks_after :
    {Peer A : Type 0} (remote : Remote Peer) (mark : ℕ) (failed : A)
    (receive : List Bytes → Option A) (s : Session Peer) (c : Conn) (e : Option WriteError)
    (ms : List Bytes) (s' : Session Peer) (a : A)
    → e ≡ none
    → exchange remote mark s.conn (record s { conn = write_done none c }) ≡ (ms, s')
    → receive ms ≡ some a
    → after_put remote mark failed receive s (c, e) ≡ some (a, release_client_mark mark s')
asks_after remote mark failed receive s c (some x) ms s' a fine got e = absurd (ground arith)
asks_after remote mark failed receive s c none ms s' a fine got e =
    ap (collect mark receive) got ∙ rw (collect, e) refl

-- A request that goes out well returns what comes of its messages.
asks :
    {Peer A : Type 0} (remote : Remote Peer) (mark : ℕ) (put : Put Conn) (failed : A)
    (receive : List Bytes → Option A) (s : Session Peer) (c : Conn) (ms : List Bytes)
    (s' : Session Peer) (a : A)
    → (put c).1 ≡ none
    → exchange remote mark s.conn (record s { conn = write_done none (put c).0 }) ≡ (ms, s')
    → receive ms ≡ some a
    → ask remote mark put failed receive s c ≡ some (a, release_client_mark mark s')
unfolding ask
asks remote mark put failed receive s c ms s' a fine got e =
    asks_after remote mark failed receive s (put c).0 (put c).1 ms s' a fine got e

module _ {World : Type 0} (os : Os World)
    (rest : ℕ → Command → ServerSession World → ServerSession World) (grain : Grain) where
  -- What the server has sent for the command under the mark.
  abbrev pub answer_of : ℕ → Command → ServerSession World → List Bytes
  answer_of mark c srv =
      responses_for mark (drop (length srv.conn.sent) (run_command os rest mark c srv).conn.sent)

  -- What a call leaves behind: the server has run the handler, and the client is as before.
  pub record Called (mark : ℕ) (c : Command) (s s' : Session (ServerSession World)) : Type 0 where
    pub ran : s'.peer ≡ run_command os rest mark c s.peer
    pub can_ask : CanAsk s'
    pub same_marks : s'.marks ≡ s.marks
    pub same_reqs : s'.active_reqs ≡ s.active_reqs

  module _ {A : Type 0} where
    ask-server :
        (mark next : ℕ) (c : Command) (failed : A) (receive : List Bytes → Option A)
        (s : Session (ServerSession World)) (k : CanAsk s)
        → IsCommand c
        → length (frame 0 c) ≤ max_command_length
        → (run_command os rest mark c s.peer).conn.up ≡ true
        → (s' : Session (ServerSession World)) × Called mark c s s'
          × ((a : A)
              → receive (answer_of mark c s.peer) ≡ some a
              → ask
                  (server os rest grain)
                  mark
                  (write_command conn_writer c)
                  failed
                  receive
                  (taken mark next s)
                  (record s.conn { writer = some (mark ∷ cmd_code c ∷ []) })
                ≡ some (a, s'))
    unfolding release_client_mark
    ask-server mark next c failed receive s k v room up =
        let began : Conn = record s.conn { writer = some (mark ∷ cmd_code c ∷ []) } in
        let (fine, healthy, grown) =
          command_sends mark c s.conn began refl v (omega arith) k.healthy in
        let sent : Conn = write_done none (write_command conn_writer c began).0 in
        let srv = run_command os rest mark c s.peer in
        let asked : Session (ServerSession World) = record (taken mark next s) { conn = sent } in
        let got = server-frame os rest grain mark c s.peer v (omega arith) in
        let arrived =
          exchange-one (server os rest grain) mark (frame mark c) s.conn asked grown healthy.0
            (ap (λ r. r.alive) got ∙ up) in
        let released = release-taken mark next s in
        (
          release_client_mark mark (record asked { peer = srv }),
          record {
            ran = refl;
            can_ask = record {
              opened = k.opened;
              free = k.free;
              free_small = k.free_small;
              free_lem = rw (released.0) k.free_lem;
              healthy = healthy;
            };
            same_marks = released.0;
            same_reqs = released.1;
          },
          λ a e.
              asks (server os rest grain) mark (write_command conn_writer c) failed receive
                (taken mark next s) began _ _ a fine arrived (rw got e)
              ∙ ap (λ r. some (a, release_client_mark mark (record asked { peer = r.peer }))) got,
        )

    -- On connections that work, a valid command of an open client with a mark left, whose message is
    -- within the server's read limit, runs the server's handler once, under a mark below 2^8, and returns what the command makes of the handler's
    -- messages. The server's session is then as the handler leaves it; the client holds as many marks
    -- and requests as before and can ask again.
    pub request_command-server :
        (c : Command) (refused failed : A) (receive : List Bytes → Option A)
        (s : Session (ServerSession World))
        → IsCommand c
        → length (frame 0 c) ≤ max_command_length
        → CanAsk s
        → ((mark : ℕ) → (run_command os rest mark c s.peer).conn.up ≡ true)
        → (mark : ℕ) × (mark < 2 ^ 8)
          × (s' : Session (ServerSession World)) × Called mark c s s'
          × ((a : A)
              → receive (answer_of mark c s.peer) ≡ some a
              → request_command (server os rest grain) c refused failed receive s ≡ some (a, s'))
    unfolding request begin_request
    request_command-server c refused failed receive s v room k up =
        let (mark, next, found, small, was_free) =
          new_client_mark-found k.free s k.opened k.free_small k.free_lem in
        let (s', called, answers) = ask-server mark next c failed receive s k v room (up mark) in
        (
          mark,
          small,
          s',
          called,
          λ a e.
              rw (request, found, begin_rsp-healthy mark (cmd_code c) s.conn k.healthy)
                (answers a e),
        )
