-- ===== src/Server/Conn/Faults.antt =====
-- What a response does on a connection that may break at any of its calls.
use wsfs_core.Wire.Sink.{WriteError, Emits}
use wsfs_core.Server.Conn.Laws.{others, conn_writer}
use wsfs_core.Prelude.{
  ap, Option-cases, Bool-cases, ◌∙◌, ℕ, ◌≡◌, true, false, some, [], ◌∷◌, arith, ◌⊎◌, Option, none,
  ◌++◌, inr, refl, inl,
}
use wsfs_core.Wire.Sink.{Put}
use wsfs_core.Server.Conn.{Conn, respond, begin_rsp, write_done, Bytes}

-- On a dropped connection a response does nothing.
respond_dropped :
    (mark code : ℕ) (put : Put Conn) (c : Conn) → c.up ≡ false → respond mark code put c ≡ c
unfolding respond begin_rsp
respond_dropped mark code put c e = ground arith

begin_rsp_cases :
    (mark code : ℕ) (c : Conn)
    → c.up ≡ true
    → (((begin_rsp mark code c).0 ≡ true)
        × ((begin_rsp mark code c).1.writer ≡ some (mark ∷ code ∷ []))
        × ((begin_rsp mark code c).1.up ≡ true)
        × ((begin_rsp mark code c).1.sent ≡ c.sent))
      ⊎ (((begin_rsp mark code c).0 ≡ false)
          × ((begin_rsp mark code c).1.up ≡ false)
          × ((begin_rsp mark code c).1.error_set ≡ true))
unfolding begin_rsp
begin_rsp_cases mark code c e = ground arith

put_open :
    (put : Put Conn) (bs : Bytes) (mark code : ℕ) (c : Conn)
    → Emits conn_writer put bs
    → c.writer ≡ some (mark ∷ code ∷ [])
    → ((put c).0.up ≡ c.up)
      × ((put c).0.sent ≡ c.sent)
      × ((put c).1 ≡ none → (put c).0.writer ≡ some (mark ∷ code ∷ bs))
unfolding conn_writer others
put_open put bs mark code c e w =
    let kept = e.keeps c in
    (
      ap (λ (x : Conn). x.up) kept,
      ap (λ (x : Conn). x.sent) kept,
      λ fine. ground (arith, e.appends c fine, Option-cases (put c).0.writer),
    )

write_done_cases :
    (e : Option WriteError) (m : Bytes) (c : Conn)
    → c.up ≡ true
    → (e ≡ none → c.writer ≡ some m)
    → (((write_done e c).up ≡ true) × ((write_done e c).sent ≡ c.sent ++ (m ∷ [])))
      ⊎ (((write_done e c).up ≡ false) × ((write_done e c).error_set ≡ true))
unfolding write_done
write_done_cases none m c up w = ground (arith, w refl)
write_done_cases (some x) m c up w = ground arith

-- Whatever call into the connection fails, a response is the one whole message and the session goes
-- on, or the connection is dropped with its error noted. On a connection dropped before it changes
-- nothing.
pub respond_lem :
    (mark code : ℕ) (put : Put Conn) (bs : Bytes) (c : Conn)
    → Emits conn_writer put bs
    → let r = respond mark code put c in
      ((c.up ≡ false) × (r ≡ c))
      ⊎ ((r.up ≡ true) × (r.sent ≡ c.sent ++ ((mark ∷ code ∷ bs) ∷ [])))
      ⊎ ((r.up ≡ false) × (r.error_set ≡ true))
unfolding respond
respond_lem mark code put bs c e = elim (Bool-cases c.up) [
  | inr down ↦ inl (down, respond_dropped mark code put c down)
  | inl up ↦ elim (begin_rsp_cases mark code c up) [
    | inr (failed, down, noted) ↦ rw (respond, failed) (inr (inr (down, noted)))
    | inl (began, w, up', kept) ↦
        let c' = (begin_rsp mark code c).1 in
        let o = put_open put bs mark code c' e w in
        ground (arith, write_done_cases (put c').1 (mark ∷ code ∷ bs) (put c').0 (o.0 ∙ up') o.2, o)
  ]
]
