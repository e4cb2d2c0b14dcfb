-- ===== src/Client/LifeCycle/Invariant.antt =====
-- The invariant of a client's session.
use wsfs_core.Prelude.{
  ◌+◌, ◌<◌, All, if◌then◌else◌, ℕ, suc, ◌^◌, ◌≡◌, ◌==◌, refl, sym, ap, ◌∙◌, Bool, true, false,
  Option, none, some, List, [], ◌∷◌, length, arith, Bool-cases, inl, inr,
}
use wsfs_core.Client.Session.{
  Session, SessionState, running, recovering, closing, closed, is_open, with_mark, is_locked,
  unlock, free_mark, count_request, take_mark, unlock_mark, discount_request,
}
use wsfs_core.Client.Session.Marks.{free_mark-free}
use wsfs_core.Server.Conn.{Conn}
use wsfs_core.Wire.Bytes.{Bytes}
use wsfs_core.Client.LifeCycle.{
  new_session, is_idle, after_loss, after_recovery, begin_close, stop_conn, exit, recover, over,
  loop_after, Life, Progress, takes, unlocks, discounts, Step, counts, progresses, closes, exits,
  drops, loses, ends, gives_up, redials, recovers, Steps, stop, then_step, Progresses, no_step,
  one_step, started,
}

abbrev pub Distinct : List ℕ → Type 0
Distinct [] = Unit {0}
Distinct (m ∷ ms) = (is_locked m ms ≡ false) × Distinct ms

-- Every request counts once, from newClientMark to the end of releaseClientMark, and each that has a mark
-- has one of its own. None is left in a session that closes, and none that is open has no goroutine
-- for its connection.
pub record IsLife {Peer : Type 0} (l : Life Peer) : Type 0 where
  pub counted : l.session.active_reqs ≡ l.waiting + length l.session.marks + l.unlocked
  pub distinct : Distinct l.session.marks
  pub small : All (λ m. m < 2 ^ 8) l.session.marks
  pub drained : l.session.state ≡ closing → l.session.active_reqs ≡ 0
  pub attended : l.loop ≡ over → l.session.state ≡ closed

pub length-unlock :
    (v : ℕ) (ms : List ℕ) → is_locked v ms ≡ true → suc (length (unlock v ms)) ≡ length ms
unfolding is_locked unlock
length-unlock v [] e = absurd (ground arith)
length-unlock v (m ∷ ms) e = ground (arith, length-unlock v ms)

unlock-free : (x v : ℕ) (ms : List ℕ) → is_locked x ms ≡ false → is_locked x (unlock v ms) ≡ false
unfolding is_locked unlock
unlock-free x v [] e = refl
unlock-free x v (m ∷ ms) e = ground (arith, unlock-free x v ms)

unlock-Distinct : (v : ℕ) (ms : List ℕ) → Distinct ms → Distinct (unlock v ms)
unfolding unlock is_locked
unlock-Distinct v [] d = tt
unlock-Distinct v (m ∷ ms) d = elim (Bool-cases (m == v)) [
  | inl same ↦ rw same (d.1)
  | inr other ↦ rw other (unlock-free m v ms (d.0), unlock-Distinct v ms (d.1))
]

unlock-small : (v : ℕ) (ms : List ℕ) → All (λ m. m < 2 ^ 8) ms → All (λ m. m < 2 ^ 8) (unlock v ms)
unfolding unlock
unlock-small v [] h = tt
unlock-small v (m ∷ ms) h = elim (Bool-cases (m == v)) [
  | inl same ↦ rw same (h.1)
  | inr other ↦ rw other (h.0, unlock-small v ms (h.1))
]

is_open-closing : (s : SessionState) → is_open s ≡ true → ¬ (s ≡ closing)
is_open-closing running e c = ground arith
is_open-closing recovering e c = ground arith
is_open-closing closing e c = ground arith
is_open-closing closed e c = ground arith

after_loss-closing : (s : SessionState) → after_loss s ≡ closing → s ≡ closing
after_loss-closing running e = absurd (ground arith)
after_loss-closing recovering e = absurd (ground arith)
after_loss-closing closing e = refl
after_loss-closing closed e = absurd (ground arith)

after_recovery-closing : (s : SessionState) → after_recovery s ≡ closing → s ≡ closing
after_recovery-closing running e = absurd (ground arith)
after_recovery-closing recovering e = absurd (ground arith)
after_recovery-closing closing e = refl
after_recovery-closing closed e = absurd (ground arith)

is_idle-none : (s : SessionState) (reqs : ℕ) → is_idle s reqs ≡ true → reqs ≡ 0
is_idle-none running reqs e = ground arith
is_idle-none recovering reqs e = absurd (ground arith)
is_idle-none closing reqs e = absurd (ground arith)
is_idle-none closed reqs e = absurd (ground arith)

loop_after-over : (s : SessionState) → ¬ (loop_after s ≡ over)
loop_after-over running e = ground arith
loop_after-over recovering e = ground arith
loop_after-over closing e = ground arith
loop_after-over closed e = ground arith

module _ {Peer : Type 0} where
  session_of : Session Peer → Option (Session Peer) → Session Peer
  session_of s none = s
  session_of s (some r) = r

  pub chosen :
      (b : Bool) (x s' : Session Peer)
      → (if b then some x else none) ≡ some s'
      → (b ≡ true) × (s' ≡ x)
  unfolding session_of
  chosen true x s' e = (refl, sym (ap (session_of x) e))
  chosen false x s' e = absurd (ground arith)

  pub count_request-inverse :
      (s s' : Session Peer)
      → count_request s ≡ some s'
      → (is_open s.state ≡ true) × (s' ≡ record s { active_reqs = s.active_reqs + 1 })
  unfolding count_request
  count_request-inverse s s' e =
      chosen (is_open s.state) (record s { active_reqs = s.active_reqs + 1 }) s' e

  abbrev pub marked : ℕ → ℕ → Session Peer → Session Peer
  marked mark next s = record s { last_mark = next; marks = mark ∷ s.marks }

  abbrev mark_of : Option (ℕ × Session Peer) → ℕ
  mark_of none = 0
  mark_of (some r) = r.0

  abbrev marked_of : Session Peer → Option (ℕ × Session Peer) → Session Peer
  marked_of s none = s
  marked_of s (some r) = r.1

  with_mark-inverse :
      (found : Option (ℕ × ℕ)) (s s' : Session Peer) (mark : ℕ)
      → with_mark found s ≡ some (mark, s')
      → (next : ℕ) × (s' ≡ marked mark next s) × (found ≡ some (mark, next))
  with_mark-inverse none s s' mark e = absurd (ground arith)
  with_mark-inverse (some (m, next)) s s' mark e =
      let same : m ≡ mark = ap mark_of e in
      (
        next,
        sym (ap (marked_of s) e) ∙ ap (λ m. marked m next s) same,
        ap (λ m. some (m, next)) same,
      )

  -- The mark that a request takes was free.
  pub take_mark-inverse :
      (s s' : Session Peer) (mark : ℕ)
      → take_mark s ≡ some (mark, s')
      → (next : ℕ) × (s' ≡ marked mark next s) × (is_locked mark s.marks ≡ false) × (mark < 2 ^ 8)
  unfolding take_mark
  take_mark-inverse s s' mark e =
      let (next, same, found) =
        with_mark-inverse (free_mark (2 ^ 8) s.last_mark s.marks) s s' mark e in
      let sound = free_mark-free (2 ^ 8) s.last_mark s.marks mark next found in
      (next, same, sound.1, sound.0)

  Progress-IsLife : (l l' : Life Peer) → Progress l l' → IsLife l → IsLife l'
  unfolding unlock_mark discount_request
  Progress-IsLife l l' (takes n mark s' w e) h =
      let (next, same, free, bound) = take_mark-inverse l.session s' mark e in
      rw same (record {
        counted = omega (arith, h.counted, w);
        distinct = (free, h.distinct);
        small = (bound, h.small);
        drained = h.drained;
        attended = h.attended;
      })
  Progress-IsLife l l' (unlocks mark e) h = record {
    counted = omega (arith, h.counted, length-unlock mark l.session.marks e);
    distinct = unlock-Distinct mark l.session.marks h.distinct;
    small = unlock-small mark l.session.marks h.small;
    drained = h.drained;
    attended = h.attended;
  }
  Progress-IsLife l l' (discounts n e) h = record {
    counted = omega (arith, h.counted, e);
    distinct = h.distinct;
    small = h.small;
    drained = λ c. omega (arith, h.drained c);
    attended = h.attended;
  }

  Step-IsLife : (l l' : Life Peer) → Step l l' → IsLife l → IsLife l'
  unfolding begin_close exit stop_conn recover
  Step-IsLife l l' (counts s' e) h =
      let (on, same) = count_request-inverse l.session s' e in
      rw same (record {
        counted = omega (arith, h.counted);
        distinct = h.distinct;
        small = h.small;
        drained = λ c. absurd (is_open-closing l.session.state on c);
        attended = h.attended;
      })
  Step-IsLife l l' (progresses _ p) h = Progress-IsLife l l' p h
  Step-IsLife l l' (closes s' e) h =
      let (idle, same) =
        chosen (is_idle l.session.state l.session.active_reqs)
          (record l.session { state = closing }) s' e in
      rw same (record {
        counted = h.counted;
        distinct = h.distinct;
        small = h.small;
        drained = λ c. is_idle-none l.session.state l.session.active_reqs idle;
        attended = λ o. absurd (ground (arith, idle, h.attended o));
      })
  Step-IsLife l l' (exits e) h = record {
    counted = h.counted;
    distinct = h.distinct;
    small = h.small;
    drained = λ c. absurd (ground arith);
    attended = λ o. refl;
  }
  Step-IsLife l l' drops h = record {
    counted = h.counted;
    distinct = h.distinct;
    small = h.small;
    drained = h.drained;
    attended = h.attended;
  }
  Step-IsLife l l' (loses e) h = record {
    counted = h.counted;
    distinct = h.distinct;
    small = h.small;
    drained = λ c. h.drained (after_loss-closing l.session.state c);
    attended = λ o. absurd (loop_after-over l.session.state o);
  }
  Step-IsLife l l' (ends e) h = record {
    counted = h.counted;
    distinct = h.distinct;
    small = h.small;
    drained = λ c. absurd (ground arith);
    attended = λ o. refl;
  }
  Step-IsLife l l' (gives_up e) h = record {
    counted = h.counted;
    distinct = h.distinct;
    small = h.small;
    drained = λ c. absurd (ground arith);
    attended = λ o. refl;
  }
  Step-IsLife l l' (redials conn e) h = record {
    counted = h.counted;
    distinct = h.distinct;
    small = h.small;
    drained = h.drained;
    attended = λ o. absurd (ground arith);
  }
  Step-IsLife l l' (recovers n e) h = record {
    counted = h.counted;
    distinct = h.distinct;
    small = h.small;
    drained = λ c. h.drained (after_recovery-closing l.session.state c);
    attended = λ o. ap after_recovery (h.attended o);
  }

  Steps-IsLife : (l l' : Life Peer) → Steps l l' → IsLife l → IsLife l'
  Steps-IsLife l l' (stop _) h = h
  Steps-IsLife l l' (then_step _ l1 _ one later) h =
      Steps-IsLife l1 l' later (Step-IsLife l l1 one h)

  pub Progresses-IsLife : (n : ℕ) (l l' : Life Peer) → Progresses n l l' → IsLife l → IsLife l'
  Progresses-IsLife n l l' (no_step _) h = h
  Progresses-IsLife n l l' (one_step n' _ l1 _ one later) h =
      Progresses-IsLife n' l1 l' later (Progress-IsLife l l1 one h)

  started-IsLife :
      (conn : Conn) (peer : Peer) (prefixes : List Bytes) (append : Bool)
      → IsLife (started (new_session conn peer prefixes append))
  unfolding new_session
  started-IsLife conn peer prefixes append = record {
    counted = refl;
    distinct = tt;
    small = tt;
    drained = λ c. absurd (ground arith);
    attended = λ o. absurd (ground arith);
  }

  -- Whatever happens to a session from its start on: activeReqs is the number of the requests that have
  -- begun and not ended, with or without a mark; no two hold one mark, and all marks are below 2^8. None
  -- has begun and not ended in a session that closes, and a session that is not closed has a
  -- goroutine for its connection.
  pub reachable-IsLife :
      (conn : Conn) (peer : Peer) (prefixes : List Bytes) (append : Bool) (l : Life Peer)
      → Steps (started (new_session conn peer prefixes append)) l
      → IsLife l
  reachable-IsLife conn peer prefixes append l steps =
      Steps-IsLife (started (new_session conn peer prefixes append)) l steps
        (started-IsLife conn peer prefixes append)
