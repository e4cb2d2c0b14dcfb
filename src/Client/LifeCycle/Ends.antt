-- ===== src/Client/LifeCycle/Ends.antt =====
-- How the life of a client's session ends.
use wsfs_core.Prelude.{ℕ, suc, ◌+◌, ◌*◌, ◌≡◌, ◌∙◌, refl, ap, false, none, some, length, arith}
use wsfs_core.Client.Session.{
  Session, running, closing, closed, is_open, count_request, new_client_mark, unlock_mark,
  discount_request, recovering,
}
use wsfs_core.Client.LifeCycle.{
  begin_close, stop_conn, exit, recover, is_idle, after_loss, after_recovery, Life, Progress, takes,
  unlocks, discounts, Step, counts, progresses, closes, exits, drops, loses, ends, gives_up,
  redials, recovers, Steps, stop, then_step, SessionState,
}
use wsfs_core.Client.LifeCycle.Invariant.{
  IsLife, count_request-inverse, take_mark-inverse, chosen, length-unlock,
}

-- The steps that the requests of a session still take.
abbrev pub work : {Peer : Type 0} → Life Peer → ℕ
work l = 3 * l.waiting + 2 * length l.session.marks + l.unlocked

after_loss-shut : (s : SessionState) → is_open s ≡ false → is_open (after_loss s) ≡ false
after_loss-shut running e = absurd (ground arith)
after_loss-shut recovering e = absurd (ground arith)
after_loss-shut closing e = refl
after_loss-shut closed e = refl

after_recovery-shut : (s : SessionState) → is_open s ≡ false → is_open (after_recovery s) ≡ false
after_recovery-shut running e = absurd (ground arith)
after_recovery-shut recovering e = absurd (ground arith)
after_recovery-shut closing e = refl
after_recovery-shut closed e = refl

module _ {Peer : Type 0} where
  Progress-state :
      (l l' : Life Peer)
      → Progress l l'
      → (l'.session.state ≡ l.session.state) × (l'.loop ≡ l.loop) × (work l ≡ suc (work l'))
  unfolding unlock_mark discount_request
  Progress-state l l' (takes n mark s' w e) =
      let (next, same, free, bound) = take_mark-inverse l.session s' mark e in
      rw same (refl, refl, omega (arith, w))
  Progress-state l l' (unlocks mark e) =
      (refl, refl, omega (arith, length-unlock mark l.session.marks e))
  Progress-state l l' (discounts n e) = (refl, refl, omega (arith, e))

  Step-closed :
      (l l' : Life Peer) → Step l l' → l.session.state ≡ closed → l'.session.state ≡ closed
  unfolding begin_close stop_conn exit recover
  Step-closed l l' (counts s' e) c =
      absurd (ground (arith, (count_request-inverse l.session s' e).0, c))
  Step-closed l l' (progresses _ p) c = (Progress-state l l' p).0 ∙ c
  Step-closed l l' (closes s' e) c =
      let idle =
        (chosen (is_idle l.session.state l.session.active_reqs)
          (record l.session { state = closing }) s' e).0 in
      absurd (ground (arith, idle, c))
  Step-closed l l' (exits e) c = refl
  Step-closed l l' drops c = c
  Step-closed l l' (loses e) c = ap after_loss c
  Step-closed l l' (ends e) c = refl
  Step-closed l l' (gives_up e) c = refl
  Step-closed l l' (redials conn e) c = c
  Step-closed l l' (recovers n e) c = ap after_recovery c

  refuses : (s : Session Peer) → is_open s.state ≡ false → new_client_mark s ≡ some (none, s)
  unfolding new_client_mark count_request
  refuses s shut = rw (new_client_mark, count_request, shut) refl

  -- A closed session stays closed, whatever still happens to it, also where errorMode takes a new
  -- connection in it, and it takes no request any more.
  pub Steps-closed :
      (l l' : Life Peer)
      → Steps l l'
      → l.session.state ≡ closed
      → (l'.session.state ≡ closed) × (new_client_mark l'.session ≡ some (none, l'.session))
  Steps-closed l l' (stop _) c = (c, refuses l.session (ap is_open c))
  Steps-closed l l' (then_step _ l1 _ one later) c =
      Steps-closed l1 l' later (Step-closed l l1 one c)

  -- No requests, and none is let in.
  abbrev Shut : Session Peer → Type 0
  Shut s = (is_open s.state ≡ false) × (s.active_reqs ≡ 0)

  Progress-Shut : (l l' : Life Peer) → Progress l l' → Shut l.session → Shut l'.session
  unfolding unlock_mark discount_request
  Progress-Shut l l' (takes n mark s' w e) (c, z) =
      let (next, same, free, bound) = take_mark-inverse l.session s' mark e in rw same (c, z)
  Progress-Shut l l' (unlocks mark e) h = h
  Progress-Shut l l' (discounts n e) (c, z) = (c, omega (arith, z))

  Step-Shut : (l l' : Life Peer) → Step l l' → Shut l.session → Shut l'.session
  unfolding begin_close stop_conn exit recover
  Step-Shut l l' (counts s' e) (c, z) =
      absurd (ground (arith, (count_request-inverse l.session s' e).0, c))
  Step-Shut l l' (progresses _ p) h = Progress-Shut l l' p h
  Step-Shut l l' (closes s' e) (c, z) =
      let (idle, same) =
        chosen (is_idle l.session.state l.session.active_reqs)
          (record l.session { state = closing }) s' e in
      rw same (refl, z)
  Step-Shut l l' (exits e) (c, z) = (refl, z)
  Step-Shut l l' drops h = h
  Step-Shut l l' (loses e) (c, z) = (after_loss-shut l.session.state c, z)
  Step-Shut l l' (ends e) (c, z) = (refl, z)
  Step-Shut l l' (gives_up e) (c, z) = (refl, z)
  Step-Shut l l' (redials conn e) h = h
  Step-Shut l l' (recovers n e) (c, z) = (after_recovery-shut l.session.state c, z)

  Steps-Shut : (l l' : Life Peer) → Steps l l' → Shut l.session → Shut l'.session
  Steps-Shut l l' (stop _) h = h
  Steps-Shut l l' (then_step _ l1 _ one later) h = Steps-Shut l1 l' later (Step-Shut l l1 one h)

  -- A session that has begun to close is never running or recovering again, whatever still happens to
  -- its connections: it has no requests and takes none.
  pub closing_stays :
      (l l' : Life Peer)
      → IsLife l
      → l.session.state ≡ closing
      → Steps l l'
      → (is_open l'.session.state ≡ false)
        × (l'.session.active_reqs ≡ 0)
        × (new_client_mark l'.session ≡ some (none, l'.session))
  closing_stays l l' h c steps =
      let (shut, none_left) = Steps-Shut l l' steps (ap is_open c, h.drained c) in
      (shut, none_left, refuses l'.session shut)
