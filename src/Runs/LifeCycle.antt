-- ===== src/Runs/LifeCycle.antt =====
-- A client's session with a request, that loses its connection, recovers it and closes.
use wsfs_core.Prelude.{ℕ, ◌≡◌, refl, true, false, none, some, [], ◌∷◌}
use wsfs_core.Wire.Text.{text}
use wsfs_core.Client.Session.{
  closed, closing, count_request, take_mark, unlock_mark, new_client_mark, is_open,
}
use wsfs_core.Client.LifeCycle.{
  new_session, begin_close, stop_conn, exit, recover, Life, started, reading, failing, leaving,
  takes, counts, progresses, loses, redials, recovers, Steps, stop, then_step, closes,
}
use wsfs_core.Client.LifeCycle.Invariant.{IsLife, reachable-IsLife}
use wsfs_core.Client.LifeCycle.Ends.{Steps-closed, closing_stays}
use wsfs_core.Client.Remote.{ServerSession}
use wsfs_core.Runs.System.{one_file}
use wsfs_core.Runs.Remote.{a_client}

abbrev Alive : Type 0
Alive = Life (ServerSession ℕ)

abbrev fresh : Alive
fresh = started (new_session a_client.conn one_file (text "user." ∷ []) true)

abbrev asked : Alive
asked = record fresh { session = record fresh.session { active_reqs = 1 }; waiting = 1 }

abbrev marked : Alive
marked = record asked {
  session = record asked.session { last_mark = 1; marks = 1 ∷ [] };
  waiting = 0;
}

abbrev lost : Alive
lost = record marked { session = stop_conn marked.session; loop = failing }

abbrev redialled : Alive
redialled = record lost {
  session = record lost.session { conn = a_client.conn };
  loop = reading;
  recoveries = 1;
}

abbrev back : Alive
back = record redialled { session = recover redialled.session; recoveries = 0 }

a_life : Steps fresh back
unfolding new_session stop_conn recover count_request take_mark
a_life = then_step fresh asked back (counts asked.session refl) (
    then_step asked marked back (progresses marked (takes 0 1 marked.session refl refl)) (
      then_step marked lost back (loses refl) (
        then_step lost redialled back (redials a_client.conn refl)
          (then_step redialled back back (recovers 0 refl) (stop back)))))

reachable-IsLife_example : IsLife back
reachable-IsLife_example =
    reachable-IsLife a_client.conn one_file (text "user." ∷ []) true back a_life

-- A session that was closed while errorMode had a new connection for it.
abbrev closed_late : Alive
closed_late = record redialled { session = exit redialled.session }

abbrev closed_then : Alive
closed_then = record closed_late { session = recover closed_late.session; recoveries = 0 }

Steps-closed_example :
    (closed_then.session.state ≡ closed)
    × (new_client_mark closed_then.session ≡ some (none, closed_then.session))
unfolding exit
Steps-closed_example =
    Steps-closed closed_late closed_then
      (then_step closed_late closed_then closed_then (recovers 0 refl) (stop closed_then)) refl

abbrev answered : Alive
answered = record back { session = unlock_mark 1 back.session; unlocked = 1 }

-- Close has begun, and the connection is lost then.
abbrev shutting : Alive
shutting = record fresh { session = record fresh.session { state = closing } }

abbrev shut : Alive
shut = record shutting { session = stop_conn shutting.session; loop = leaving }

shutting-IsLife : IsLife shutting
unfolding new_session begin_close
shutting-IsLife =
    reachable-IsLife a_client.conn one_file (text "user." ∷ []) true shutting
      (then_step fresh shutting shutting (closes shutting.session refl) (stop shutting))

closing_stays_example :
    (is_open shut.session.state ≡ false)
    × (shut.session.active_reqs ≡ 0)
    × (new_client_mark shut.session ≡ some (none, shut.session))
closing_stays_example =
    closing_stays shutting shut shutting-IsLife refl
      (then_step shutting shut shut (loses refl) (stop shut))
