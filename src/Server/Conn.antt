-- ===== src/Server/Conn.antt =====
-- The sending half of internal/server/wsfs/session.go: how a response becomes one message on the
-- session's connection. The locks make each of these steps atomic.
pub mod Laws
pub mod Faults
use wsfs_core.Prelude.{
  ℕ, zero, suc, ◌^◌, Bool, true, false, not, ◌&&◌, Option, none, some, List, [], ◌∷◌, ◌++◌,
  if◌then◌else◌, take, length, ltb,
}
use wsfs_core.Wire.Bytes.{Bytes}
use wsfs_core.Wire.Sink.{Writer, Put, WriteError, broken}
use wsfs_core.Wire.Rsp.{RspError}

-- `faults` says of each coming call into the connection whether it fails; behind its end none does.
-- A connection that has failed once fails for ever.
pub record Conn : Type 0 where
  pub up : Bool
  pub faults : List Bool
  pub down : Bool
  pub error_set : Bool
  pub writer : Option Bytes
  pub sent : List Bytes

-- One call into the connection: whether it succeeds.
attempt : Conn → Bool × Conn
attempt c =
    if c.down
    then (false, c)
    else elim c.faults [ [] ↦ (true, c) | f ∷ fs ↦ (not f, record c { faults = fs; down = f }) ]

-- The first error stays; the connection is dropped and its context cancelled.
drop_conn : Conn → Conn
drop_conn c = record c { up = false; error_set = true }

-- `s.writer.Write(d)`; a nil writer is an error here, and no caller has one.
unfoldable pub conn_write : Bytes → Put Conn
unfolding attempt
conn_write d c = elim c.writer [
  | none ↦ (c, some broken)
  | some m ↦
      let (fine, c') = attempt c in
      if fine then (record c' { writer = some (m ++ d) }, none) else (c', some broken)
]

unfoldable pub require_write : Conn → Bool × Conn
unfolding attempt drop_conn
require_write c =
    let (fine, c') = attempt c in
    if not c.up
    then (false, c)
    else (if fine then (true, record c' { writer = some [] }) else (false, drop_conn c'))

-- The end of writeDone: an error drops the connection.
settle : Option WriteError → Conn → Conn
unfolding drop_conn
settle none c = c
settle (some e) c = drop_conn c

abbrev first_error : Option WriteError → Bool → Option WriteError
first_error (some e) fine = some e
first_error none true = none
first_error none false = some broken

-- Closing the writer sends the message that it holds.
unfoldable pub write_done : Option WriteError → Conn → Conn
unfolding attempt settle
write_done e c = elim c.writer [
  | none ↦ settle e c
  | some m ↦
      let (fine, c') = attempt c in
      settle (first_error e fine)
        (record c' { writer = none; sent = if fine then c.sent ++ (m ∷ []) else c.sent })
]

unfoldable pub write : Bytes → Conn → Conn
unfolding conn_write require_write write_done
write d c =
    let (fine, c') = require_write c in
    let (c'', e) = conn_write d c' in if fine then write_done e c'' else c'

unfoldable pub begin_rsp : ℕ → ℕ → Conn → Bool × Conn
unfolding conn_write require_write write_done
begin_rsp mark code c =
    let (fine, c') = require_write c in
    let (c'', e) = conn_write (mark ∷ code ∷ []) c' in
    if fine
    then elim e [ none ↦ (true, c'') | some x ↦ (false, write_done (some x) c'') ]
    else (false, c')

-- `if s.beginRsp(mark, code) { err = WriteRsp…ToWriter(…, s.writer); s.writeDone(err) }`
unfoldable pub respond : ℕ → ℕ → Put Conn → Conn → Conn
unfolding begin_rsp write_done
respond mark code put c =
    let (fine, c') = begin_rsp mark code c in
    let (c'', e) = put c' in if fine then write_done e c'' else c'
