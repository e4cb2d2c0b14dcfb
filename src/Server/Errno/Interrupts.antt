-- ===== src/Server/Errno/Interrupts.antt =====
-- Calls that are interrupted, and ignoringEINTR.
use wsfs_core.Prelude.{◌∙◌, ℕ, zero, suc, ◌≡◌, ◌≢◌, ◌≤◌, refl, arith}
use wsfs_core.Server.Errno.{eintr, SysResult, failed, Sys, ignoring_eintr}

-- A call that is interrupted `times` times in a row from `w` on, and then ends in `end`.
pub data Interrupted {World A : Type 0} (op : Sys World A)
    : ℕ → World → World × SysResult A → Type 0 where
  at_last : {w : World} → (op w).1 ≢ failed eintr → Interrupted op 0 w (op w)
  once_more :
      {times : ℕ} {w : World} {end : World × SysResult A}
      → (op w).1 ≡ failed eintr
      → Interrupted op times (op w).0 end
      → Interrupted op (suc times) w end

again_eintr :
    {World A : Type 0} (limit : ℕ) (op : Sys World A) (w : World)
    → (op w).1 ≡ failed eintr
    → ignoring_eintr (suc limit) op w ≡ ignoring_eintr limit op (op w).0
unfolding ignoring_eintr
again_eintr limit op w e = rw (ignoring_eintr, e) refl

stays :
    {World A : Type 0} (limit : ℕ) (op : Sys World A) (w : World)
    → (op w).1 ≢ failed eintr
    → ignoring_eintr limit op w ≡ op w
unfolding ignoring_eintr
stays zero op w ne = refl
stays (suc limit) op w ne = ground arith

-- A call that is interrupted no more than `limit` times in a row ends as it does when it is not
-- interrupted any more, and that is not in EINTR.
pub ignoring_eintr_lem :
    {World A : Type 0} (op : Sys World A) (times limit : ℕ) (w : World) (end : World × SysResult A)
    → Interrupted op times w end
    → times ≤ limit
    → (ignoring_eintr limit op w ≡ end) × (end.1 ≢ failed eintr)
ignoring_eintr_lem op zero limit w end (at_last ne) le = (stays limit op w ne, ne)
ignoring_eintr_lem op (suc times) zero w end (once_more e more) le = absurd (omega arith)
ignoring_eintr_lem op (suc times) (suc limit) w end (once_more e more) le =
    let (same, ne) = ignoring_eintr_lem op times limit (op w).0 end more (omega arith) in
    (again_eintr limit op w e ∙ same, ne)
