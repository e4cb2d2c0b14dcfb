-- ===== src/Client/LifeCycle.antt =====
-- The life of a client's session in internal/client/session/session.go: Start, Close, stopConn,
-- errorMode and exit, and the requests in between. A step is what happens under lifecycleLock or to the
-- lock of a mark; stopConn gives up its connection with the state, which no one else looks at then.
pub mod Invariant
pub mod Ends
use wsfs_core.Prelude.{
  ℕ, suc, ◌+◌, not, ◌≡◌, Bool, true, false, Option, none, some, List, [], ◌==◌, if◌then◌else◌,
}
use wsfs_core.Wire.Bytes.{Bytes}
use wsfs_core.Server.Conn.{Conn}
use wsfs_core.Server.XAttr.{normalize_xattr_prefixes}
use wsfs_core.Client.Session.{
  Session, SessionState, running, recovering, closing, closed, is_locked, count_request, take_mark,
  unlock_mark, discount_request,
}

abbrev pub is_idle : SessionState → ℕ → Bool
is_idle running reqs = reqs == 0
is_idle recovering reqs = false
is_idle closing reqs = false
is_idle closed reqs = false

abbrev pub after_loss : SessionState → SessionState
after_loss running = recovering
after_loss recovering = recovering
after_loss closing = closing
after_loss closed = closed

abbrev pub after_recovery : SessionState → SessionState
after_recovery running = running
after_recovery recovering = running
after_recovery closing = closing
after_recovery closed = closed

module _ {Peer : Type 0} where
  -- NewSession and Start: a running session on a connection.
  unfoldable pub new_session : Conn → Peer → List Bytes → Bool → Session Peer
  unfolding normalize_xattr_prefixes
  new_session conn peer prefixes append = record {
    state = running;
    active_reqs = 0;
    last_mark = 0;
    marks = [];
    conn = conn;
    peer = peer;
    xattr_prefixes = normalize_xattr_prefixes prefixes;
    auto_xattr_append = append;
  }

  -- The round of Close that begins to close: `none` where it waits, or leaves that to the others.
  unfoldable pub begin_close : Session Peer → Option (Session Peer)
  begin_close s =
      if is_idle s.state s.active_reqs then some (record s { state = closing }) else none

  -- The beginning of stopConn, once the read loop has ended.
  unfoldable pub stop_conn : Session Peer → Session Peer
  stop_conn s = record s { state = after_loss s.state; conn = record s.conn { up = false } }

  unfoldable pub exit : Session Peer → Session Peer
  exit s = record s { state = closed }

  -- The end of errorMode.
  unfoldable pub recover : Session Peer → Session Peer
  recover s = record s { state = after_recovery s.state }

-- What the goroutine of the connection does: it reads, is in errorMode, leaves by stopConn's graceful
-- end, or is over. A redialled connection has a new one, which reads.
pub data Loop : Type 0 where
  reading failing leaving over : Loop

abbrev pub loop_after : SessionState → Loop
loop_after running = failing
loop_after recovering = failing
loop_after closing = leaving
loop_after closed = failing

-- A session and the goroutines in it: the requests that count and wait for a mark, those whose mark is
-- unlocked and that count still, and the errorModes that have taken a new connection and not ended.
-- `unconnected` is a Close that has begun without a connection, and exits by itself.
pub record Life (Peer : Type 0) : Type 0 where
  pub session : Session Peer
  pub waiting : ℕ
  pub unlocked : ℕ
  pub loop : Loop
  pub recoveries : ℕ
  pub unconnected : Bool

module _ {Peer : Type 0} where
  -- The steps of a request that counts, until it does not any more.
  pub data Progress (l : Life Peer) : Life Peer → Type 0 where
    takes :
        (n mark : ℕ) (s' : Session Peer)
        → l.waiting ≡ suc n
        → take_mark l.session ≡ some (mark, s')
        → Progress l (record l { session = s'; waiting = n })
    unlocks :
        (mark : ℕ)
        → is_locked mark l.session.marks ≡ true
        → Progress l (record l { session = unlock_mark mark l.session; unlocked = l.unlocked + 1 })
    discounts :
        (n : ℕ)
        → l.unlocked ≡ suc n
        → Progress l (record l { session = discount_request l.session; unlocked = n })

  -- Connections are lost at any time, by a write or by the read loop. errorMode runs in whatever state
  -- the session is by then.
  pub data Step (l : Life Peer) : Life Peer → Type 0 where
    counts :
        (s' : Session Peer)
        → count_request l.session ≡ some s'
        → Step l (record l { session = s'; waiting = l.waiting + 1 })
    progresses : (l' : Life Peer) → Progress l l' → Step l l'
    closes :
        (s' : Session Peer)
        → begin_close l.session ≡ some s'
        → Step l (record l { session = s'; unconnected = not l.session.conn.up })
    exits :
        l.unconnected ≡ true → Step l (record l { session = exit l.session; unconnected = false })
    drops :
        Step l
          (record l { session = record l.session { conn = record l.session.conn { up = false } } })
    loses :
        l.loop ≡ reading
        → Step l (record l { session = stop_conn l.session; loop = loop_after l.session.state })
    ends : l.loop ≡ leaving → Step l (record l { session = exit l.session; loop = over })
    gives_up : l.loop ≡ failing → Step l (record l { session = exit l.session; loop = over })
    redials :
        (conn : Conn)
        → l.loop ≡ failing
        → Step l (record l {
          session = record l.session { conn = conn };
          loop = reading;
          recoveries = l.recoveries + 1;
        })
    recovers :
        (n : ℕ)
        → l.recoveries ≡ suc n
        → Step l (record l { session = recover l.session; recoveries = n })

  pub data Steps : Life Peer → Life Peer → Type 0 where
    stop : (l : Life Peer) → Steps l l
    then_step : (l l' l'' : Life Peer) → Step l l' → Steps l' l'' → Steps l l''

  -- So many steps of requests, and none of anything else.
  pub data Progresses : ℕ → Life Peer → Life Peer → Type 0 where
    no_step : (l : Life Peer) → Progresses 0 l l
    one_step :
        (n : ℕ) (l l' l'' : Life Peer)
        → Progress l l'
        → Progresses n l' l''
        → Progresses (suc n) l l''

-- Start, with the read loop of takeConn.
abbrev pub started : {Peer : Type 0} → Session Peer → Life Peer
started s = record {
  session = s;
  waiting = 0;
  unlocked = 0;
  loop = reading;
  recoveries = 0;
  unconnected = false;
}
