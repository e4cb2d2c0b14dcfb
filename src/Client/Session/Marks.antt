-- ===== src/Client/Session/Marks.antt =====
-- The marks of requests: newClientMark goes through all of them, and a released mark is free again.
use wsfs_core.Prelude.{
  ℕ, zero, suc, ◌+◌, ◌-◌, ◌%◌, ◌^◌, ◌<◌, ◌≡◌, refl, true, false, some, List, ◌∷◌, ◌==◌, arith,
  Bool-cases, inl, inr,
}
use wsfs_core.Client.Session.{
  Session, is_locked, unlock, free_mark, is_open, count_request, take_mark, unlock_mark,
  discount_request, new_client_mark, release_client_mark,
}

-- What is found is a free mark, and the counter's value for it.
pub free_mark-free :
    (tries last : ℕ) (marks : List ℕ) (v next : ℕ)
    → free_mark tries last marks ≡ some (v, next)
    → (v < 2 ^ 8) × (is_locked v marks ≡ false) × (next < 2 ^ 32)
unfolding free_mark
free_mark-free zero last marks v next e = absurd (ground arith)
free_mark-free (suc tries) last marks v next e =
    ground (arith, free_mark-free tries ((last + 1) % 2 ^ 32) marks v next)

-- A free mark that the counter reaches within the tries ends the loop.
free_mark-reached :
    (tries last ahead : ℕ) (marks : List ℕ)
    → ahead < tries
    → is_locked ((last + 1 + ahead) % 2 ^ 8) marks ≡ false
    → (found : ℕ × ℕ) × (free_mark tries last marks ≡ some found)
unfolding free_mark
free_mark-reached zero last ahead marks h e = absurd (omega arith)
free_mark-reached (suc tries) last zero marks h e =
    let this : (last + 1) % 2 ^ 32 % 2 ^ 8 ≡ (last + 1 + 0) % 2 ^ 8 = omega arith in
    let found : ℕ × ℕ = ((last + 1) % 2 ^ 32 % 2 ^ 8, (last + 1) % 2 ^ 32) in
    (found, rw (free_mark, this, e) refl)
free_mark-reached (suc tries) last (suc ahead) marks h e =
    let next = (last + 1) % 2 ^ 32 in
    let same : (next + 1 + ahead) % 2 ^ 8 ≡ (last + 1 + suc ahead) % 2 ^ 8 = omega arith in
    let later = free_mark-reached tries next ahead marks (omega arith) (rw same e) in
    elim (Bool-cases (is_locked (next % 2 ^ 8) marks)) [
      | inl taken ↦ (later.0, rw (free_mark, taken) (later.1))
      | inr free ↦ ((next % 2 ^ 8, next), rw (free_mark, free) refl)
    ]

-- With a free mark, the 256 tries find one.
pub free_mark-found :
    (last v : ℕ) (marks : List ℕ)
    → v < 2 ^ 8
    → is_locked v marks ≡ false
    → (found : ℕ × ℕ) × (free_mark (2 ^ 8) last marks ≡ some found)
free_mark-found last v marks small free =
    let ahead = (v + (2 ^ 8 - (last + 1) % 2 ^ 8)) % 2 ^ 8 in
    let there : (last + 1 + ahead) % 2 ^ 8 ≡ v = omega arith in
    free_mark-reached (2 ^ 8) last ahead marks (omega arith) (rw there free)

lock_lem :
    (v : ℕ) (marks : List ℕ) → (is_locked v (v ∷ marks) ≡ true) × (unlock v (v ∷ marks) ≡ marks)
unfolding is_locked unlock
lock_lem v marks = let own : (v == v) ≡ true = ground arith in (rw own refl, rw own refl)

module _ {Peer : Type 0} where
  -- The session whose request has taken the mark.
  abbrev pub taken : ℕ → ℕ → Session Peer → Session Peer
  taken mark next s = record s {
    active_reqs = s.active_reqs + 1;
    last_mark = next;
    marks = mark ∷ s.marks;
  }

  pub new_client_mark-found :
      (v : ℕ) (s : Session Peer)
      → is_open s.state ≡ true
      → v < 2 ^ 8
      → is_locked v s.marks ≡ false
      → (mark : ℕ) × (next : ℕ) × (new_client_mark s ≡ some (some mark, taken mark next s))
        × (mark < 2 ^ 8)
        × (is_locked mark s.marks ≡ false)
  unfolding new_client_mark count_request take_mark
  new_client_mark-found v s opened small free =
      let ((mark, next), e) = free_mark-found s.last_mark v s.marks small free in
      let sound = free_mark-free (2 ^ 8) s.last_mark s.marks mark next e in
      (mark, next, rw (new_client_mark, count_request, opened, take_mark, e) refl, sound.0, sound.1)

  pub release-taken :
      (mark next : ℕ) (s : Session Peer)
      → ((release_client_mark mark (taken mark next s)).marks ≡ s.marks)
        × ((release_client_mark mark (taken mark next s)).active_reqs ≡ s.active_reqs)
  unfolding release_client_mark unlock_mark discount_request
  release-taken mark next s = ((lock_lem mark s.marks).1, omega arith)

  -- A session that is not closed and has a mark left gives a request a mark that no other request
  -- has, and giving it back leaves the marks and the count of requests as they were.
  pub new_client_mark_lem :
      (v : ℕ) (s : Session Peer)
      → is_open s.state ≡ true
      → v < 2 ^ 8
      → is_locked v s.marks ≡ false
      → (mark : ℕ) × (s' : Session Peer) × (new_client_mark s ≡ some (some mark, s'))
        × (mark < 2 ^ 8)
        × (is_locked mark s.marks ≡ false)
        × (is_locked mark s'.marks ≡ true)
        × ((release_client_mark mark s').marks ≡ s.marks)
        × ((release_client_mark mark s').active_reqs ≡ s.active_reqs)
  new_client_mark_lem v s opened small free =
      let (mark, next, e, bound, was_free) = new_client_mark-found v s opened small free in
      let released = release-taken mark next s in
      (
        mark,
        taken mark next s,
        e,
        bound,
        was_free,
        (lock_lem mark s.marks).0,
        released.0,
        released.1,
      )
