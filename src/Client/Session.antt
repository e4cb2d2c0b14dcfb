-- ===== src/Client/Session.antt =====
-- internal/client/session/session.go: marks for requests, and how one request goes out and is answered.
-- A command runs here without another one in between; the marks of others stay taken.
pub mod Marks
use wsfs_core.Prelude.{
  ℕ, zero, suc, ◌+◌, ◌-◌, ◌%◌, ◌^◌, Bool, true, false, not, ◌&&◌, Option, none, some, List, [], ◌∷◌,
  ◌++◌, ◌==◌, if◌then◌else◌, length, drop,
}
use wsfs_core.Wire.Bytes.{Bytes}
use wsfs_core.Wire.Text.{text}
use wsfs_core.Wire.Codes.{error_io, max_error_desc_length}
use wsfs_core.Wire.Sink.{Put}
use wsfs_core.Wire.Rsp.{rsp_error_bytes}
use wsfs_core.Server.Conn.{Conn, begin_rsp}
use wsfs_core.Server.Session.{cut}
use wsfs_core.Client.{responses_for}

pub data SessionState : Type 0 where
  running recovering closing closed : SessionState

-- `marks` are the locked ones. `peer` is whatever is at the other end.
pub record Session (Peer : Type 0) : Type 0 where
  pub state : SessionState
  pub active_reqs : ℕ
  pub last_mark : ℕ
  pub marks : List ℕ
  pub conn : Conn
  pub peer : Peer
  pub xattr_prefixes : List Bytes
  pub auto_xattr_append : Bool

-- How the other end answers a message: what it sends until it is asked again, and whether the
-- connection holds.
pub record Answered (Peer : Type 0) : Type 0 where
  pub peer : Peer
  pub sent : List Bytes
  pub alive : Bool

abbrev pub Remote : Type 0 → Type 0
Remote Peer = Bytes → Peer → Answered Peer

-- `none` waits for ever, or panics.
abbrev pub Client : Type 0 → Type 0 → Type 0
Client Peer A = Session Peer → Option (A × Session Peer)

unfoldable pub is_locked : ℕ → List ℕ → Bool
is_locked v [] = false
is_locked v (m ∷ ms) = if m == v then true else is_locked v ms

unfoldable pub unlock : ℕ → List ℕ → List ℕ
unlock v [] = []
unlock v (m ∷ ms) = if m == v then ms else (m ∷ unlock v ms)

-- The loop over the counter, which wraps, from a number of tries on.
unfoldable pub free_mark : ℕ → ℕ → List ℕ → Option (ℕ × ℕ)
unfolding is_locked
free_mark zero last marks = none
free_mark (suc tries) last marks =
    let next = (last + 1) % 2 ^ 32 in
    let more = free_mark tries next marks in
    if is_locked (next % 2 ^ 8) marks then more else some (next % 2 ^ 8, next)

abbrev pub is_open : SessionState → Bool
is_open running = true
is_open recovering = true
is_open closing = false
is_open closed = false

-- newClientMark under lifecycleLock: a request counts from here on, or is refused.
unfoldable pub count_request : {Peer : Type 0} → Session Peer → Option (Session Peer)
count_request s =
    if is_open s.state then some (record s { active_reqs = s.active_reqs + 1 }) else none

abbrev pub with_mark : {Peer : Type 0} → Option (ℕ × ℕ) → Session Peer → Option (ℕ × Session Peer)
with_mark none s = none
with_mark (some (mark, next)) s = some (mark, record s { last_mark = next; marks = mark ∷ s.marks })

-- The loop for a mark, without the lock. 256 tries go through all marks: without a free one the loop
-- goes on, and `none` is the wait for one.
unfoldable pub take_mark : {Peer : Type 0} → Session Peer → Option (ℕ × Session Peer)
unfolding free_mark
take_mark s = with_mark (free_mark (2 ^ 8) s.last_mark s.marks) s

unfoldable pub new_client_mark : {Peer : Type 0} → Client Peer (Option ℕ)
unfolding count_request take_mark
new_client_mark s = elim (count_request s) [
  | none ↦ some (none, s)
  | some s' ↦ elim (take_mark s') [ none ↦ none | some r ↦ some (some r.0, r.1) ]
]

unfoldable pub unlock_mark : {Peer : Type 0} → ℕ → Session Peer → Session Peer
unfolding unlock
unlock_mark mark s = record s { marks = unlock mark s.marks }

unfoldable pub discount_request : {Peer : Type 0} → Session Peer → Session Peer
discount_request s = record s { active_reqs = s.active_reqs - 1 }

unfoldable pub release_client_mark : {Peer : Type 0} → ℕ → Session Peer → Session Peer
unfolding unlock_mark discount_request
release_client_mark mark s = discount_request (unlock_mark mark s)

-- requireWrite and the header: the code of the server's beginRsp with its requireWrite.
unfoldable pub begin_request : ℕ → ℕ → Conn → Bool × Conn
begin_request mark cmd c = begin_rsp mark cmd c

-- The message that notifyAllMarksWithDesc puts on the channel of a mark that is taken.
unfoldable pub notify_mark : Bytes → ℕ → Bytes
unfolding cut
notify_mark desc mark =
    mark ∷ error_io ∷ rsp_error_bytes (record { desc = cut max_error_desc_length desc })

-- What the other end does with the messages that the connection took since `before`.
unfoldable pub forward : {Peer : Type 0} → Remote Peer → List Bytes → Peer → Answered Peer
forward remote [] p = record { peer = p; sent = []; alive = true }
forward remote (m ∷ ms) p =
    let now = remote m p in
    let later = forward remote ms now.peer in
    record { peer = later.peer; sent = now.sent ++ later.sent; alive = now.alive && later.alive }

-- What reaches the channel of the mark, and the session then: a connection that is lost ends in the
-- message of notifyAllMarksError.
unfoldable pub exchange :
    {Peer : Type 0} → Remote Peer → ℕ → Conn → Session Peer → List Bytes × Session Peer
unfolding forward responses_for notify_mark
exchange remote mark before s =
    let got = forward remote (drop (length before.sent) s.conn.sent) s.peer in
    let held = s.conn.up && got.alive in
    let ms = responses_for mark got.sent in
    if held then (ms, record s { peer = got.peer }) else (
      ms ++ (notify_mark (text "Session error mode") mark ∷ []),
      record s { peer = got.peer; conn = record s.conn { up = false } },
    )
