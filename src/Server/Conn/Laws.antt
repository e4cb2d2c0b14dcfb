-- ===== src/Server/Conn/Laws.antt =====
-- Responses on a connection that works, and the connection as a writer of the encoders.
use wsfs_core.Prelude.{
  ℕ, ◌+◌, ◌^◌, ◌<◌, ◌≤◌, ◌≡◌, Bool, true, false, Option, none, some, List, [], ◌∷◌, ◌++◌, arith,
  length, refl,
}
use wsfs_core.Wire.Bytes.{Bytes}
use wsfs_core.Server.Conn.{Conn, conn_write, Writer, begin_rsp, write_done, respond, Put, write}
use wsfs_core.Wire.Sink.{Emits}

abbrev pub IsHealthy : Conn → Type 0
IsHealthy c = (c.up ≡ true) × (c.faults ≡ []) × (c.down ≡ false)

-- What the open message holds.
abbrev pub message_of : Conn → Bytes
message_of c = elim c.writer [ none ↦ [] | some m ↦ m ]

abbrev pub open_room : Option Bytes → List Bool → Bool → ℕ
open_room (some m) [] false = 2 ^ 64
open_room _ _ _ = 0

pub conn_write_ok :
    (d : Bytes) (c : Conn)
    → (conn_write d c).1 ≡ none
    → message_of (conn_write d c).0 ≡ message_of c ++ d
unfolding conn_write
conn_write_ok d c e = ground arith

pub conn_write_room :
    (d : Bytes) (c : Conn)
    → length d < open_room c.writer c.faults c.down
    → ((conn_write d c).1 ≡ none)
      × (open_room c.writer c.faults c.down
          ≤ open_room (conn_write d c).0.writer (conn_write d c).0.faults (conn_write d c).0.down
            + length d)
unfolding conn_write
conn_write_room d c h = ground arith

unfoldable pub others : Conn → Conn
others c = record c { writer = none; faults = []; down = false }

pub others-conn_write : (d : Bytes) (c : Conn) → others (conn_write d c).0 ≡ others c
unfolding conn_write others
others-conn_write d c = ground arith

unfoldable pub conn_writer : Writer Conn
conn_writer = record {
  write = conn_write;
  content = message_of;
  room = λ c. open_room c.writer c.faults c.down;
  rest = others;
  write_ok = conn_write_ok;
  write_room = conn_write_room;
  write_rest = others-conn_write;
}

pub begin_rsp-healthy :
    (mark code : ℕ) (c : Conn)
    → IsHealthy c
    → begin_rsp mark code c ≡ (true, record c { writer = some (mark ∷ code ∷ []) })
unfolding begin_rsp
begin_rsp-healthy mark code c h = ground arith

pub write_done-healthy :
    (m : Bytes) (c : Conn)
    → IsHealthy c
    → c.writer ≡ some m
    → write_done none c ≡ record c { writer = none; sent = c.sent ++ (m ∷ []) }
unfolding write_done
write_done-healthy m c h e = ground arith

room_open :
    (w : Option Bytes) (faults : List Bool) (down : Bool)
    → 0 < open_room w faults down
    → (m : Bytes) × (w ≡ some m) × (faults ≡ []) × (down ≡ false)
room_open none faults down h = absurd (ground arith)
room_open (some m) [] false h = (m, refl, refl, refl)
room_open (some m) [] true h = absurd (omega arith)
room_open (some m) (f ∷ fs) down h = absurd (omega arith)

pub put-IsHealthy :
    (put : Put Conn) (m bs : Bytes) (c : Conn)
    → Emits conn_writer put bs
    → length bs < 2 ^ 64
    → IsHealthy c
    → c.writer ≡ some m
    → ((put c).1 ≡ none)
      × IsHealthy (put c).0
      × ((put c).0.writer ≡ some (m ++ bs))
      × ((put c).0.sent ≡ c.sent)
unfolding conn_writer others
put-IsHealthy put m bs c e room h w =
    let c' = (put c).0 in
    let roomy : open_room c.writer c.faults c.down ≡ 2 ^ 64 = ground arith in
    let complete = e.completes c (ground arith) in
    let left = room_open c'.writer c'.faults c'.down (ground arith) in
    ground (arith, e.appends c complete.0, e.keeps c, left)

-- On a connection that works a response is one message, and the connection goes on working.
pub respond_sends :
    (mark code : ℕ) (put : Put Conn) (bs : Bytes) (c : Conn)
    → Emits conn_writer put bs
    → length bs < 2 ^ 64
    → IsHealthy c
    → IsHealthy (respond mark code put c)
      × ((respond mark code put c).sent ≡ c.sent ++ ((mark ∷ code ∷ bs) ∷ []))
unfolding respond
respond_sends mark code put bs c e room h =
    let began = record c { writer = some (mark ∷ code ∷ []) } in
    ground (
      arith,
      begin_rsp-healthy mark code c h,
      put-IsHealthy put (mark ∷ code ∷ []) bs began e room h refl,
      write_done-healthy (mark ∷ code ∷ bs) (put began).0,
    )

-- So is a message that was put together beforehand.
pub write_sends :
    (d : Bytes) (c : Conn)
    → IsHealthy c
    → IsHealthy (write d c) × ((write d c).sent ≡ c.sent ++ (d ∷ []))
unfolding write
write_sends d c h = ground arith
