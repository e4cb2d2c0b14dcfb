-- ===== src/Server/XAttr/Data.antt =====
-- Answers of any length to requests for extended attributes.
use wsfs_core.Prelude.{
  ℕ, zero, suc, ◌≡◌, ◌≤◌, refl, [], ◌∷◌, length, take, drop, arith, Bool-cases, inl, inr, ltb, ◌==◌,
  length-take, length-drop, take-append-drop, false,
}
use wsfs_core.Wire.Bytes.{Bytes}
use wsfs_core.Wire.Codes.{error_partial_response}
use wsfs_core.Server.Conn.{write}
use wsfs_core.Server.Conn.Laws.{IsHealthy, write_sends}
use wsfs_core.Server.Session.{Session}
use wsfs_core.Server.Answers.{Answers, part-Answers}
use wsfs_core.Server.Answers.Reads.{got_final}
use wsfs_core.Server.Answers.Replies.{reply_ok-Answers}
use wsfs_core.Server.Answers.Contents.{
  same-Delivers, Delivers, last-Delivers, part-Delivers, reply_ok-Delivers,
}
use wsfs_core.Server.XAttr.{write_chunks, write_xattr_data, max_xattr_response_payload}

module _ {World : Type 0} where
  write_chunks_lem :
      (fuel mark : ℕ) (d : Bytes) (s : Session World)
      → length d ≤ fuel
      → IsHealthy s.conn
      → Answers mark s.conn (write_chunks fuel mark d s).conn
        × Delivers mark s (write_chunks fuel mark d s) d
  unfolding write_chunks
  write_chunks_lem zero mark d s h up =
      (got_final mark d s (omega arith) up, last-Delivers mark d s (ground arith) up)
  write_chunks_lem (suc fuel) mark d s h up =
      elim (Bool-cases (ltb max_xattr_response_payload (length d))) [
        | inr short ↦
            rw (write_chunks, short)
              (got_final mark d s (ground arith) up, last-Delivers mark d s (ground arith) up)
        | inl long ↦
            let part : Bytes = take max_xattr_response_payload d in
            let rest : Bytes = drop max_xattr_response_payload d in
            let m : Bytes = mark ∷ error_partial_response ∷ part in
            let sent : Session World = record s { conn = write m s.conn } in
            let w = write_sends m s.conn up in
            let more =
              write_chunks_lem fuel mark rest sent
                (ground (arith, length-drop max_xattr_response_payload d)) w.0 in
            rw (write_chunks, long)
              (
                part-Answers mark m
                    (part, refl, omega (arith, length-take max_xattr_response_payload d)) w.1
                    more.0,
                same-Delivers (take-append-drop max_xattr_response_payload d) (
                    part-Delivers mark part
                      (omega (arith, length-take max_xattr_response_payload d)) w.1 more.1),
              )
      ]

  -- On a connection that works, data of any length goes out as an answer: partial messages and then
  -- one that is not partial, whose payloads are together the data.
  pub write_xattr_data_lem :
      (mark : ℕ) (d : Bytes) (s : Session World)
      → IsHealthy s.conn
      → Answers mark s.conn (write_xattr_data mark d s).conn
        × Delivers mark s (write_xattr_data mark d s) d
  unfolding write_xattr_data
  write_xattr_data_lem mark [] s up = (reply_ok-Answers mark s up, reply_ok-Delivers mark s up)
  write_xattr_data_lem mark (b ∷ d) s up =
      let some_left : (length (b ∷ d) == 0) ≡ false = ground arith in
      rw (write_xattr_data, some_left)
        (write_chunks_lem (length (b ∷ d)) mark (b ∷ d) s (omega arith) up)
