-- ===== src/Listener/Tests.antt =====
-- A listener with two connections, and the theorems about it applied.
use mod_http.Common.{ℕ, ◌≡◌, refl, true, false, List, [], ◌∷◌, if◌then◌else◌, ◌==◌}
use mod_http.Listener.{
  Io, Handshake, finished, under_way, spawned, accept, accept_all, at_connection_limit,
  progress_pending_handshakes, progress_from, progress_one, remove_pending_handshake, swap_remove,
  spawn_serviced_session, reap, reap_from, pass, finish,
}
use mod_http.Listener.Books.{total, one, IsBalanced}
use mod_http.Listener.Settled.{IsOpen, progress_pending_handshakes-IsOpen}
use mod_http.Listener.History.{Turn, turn, run, started, arrived, run-IsBalanced, finish_frees_all}

-- Connection 7 becomes a session, and connection 8 never finishes its handshake.
abbrev probe : ℕ → Handshake
probe c = if c == 7 then finished spawned else under_way

abbrev turns : List Turn
turns =
    Turn.passes 1 10
      (record { conn = 7; prepared = true; at = 1 }
        ∷ record { conn = 8; prepared = true; at = 1 }
        ∷ record { conn = 9; prepared = true; at = 1 }
        ∷ [])
      probe (λ c. false)
    ∷ Turn.stops
    ∷ Turn.passes 2 10 [] probe (λ c. true)
    ∷ []

run-IsBalanced_example : IsBalanced 2 (run 2 turns ([], started)).0 (run 2 turns ([], started)).1
run-IsBalanced_example = run-IsBalanced 2 turns

turns_end : (run 2 turns ([], started)).1.active_sessions ≡ []
unfolding run turn arrived pass accept_all accept at_connection_limit progress_pending_handshakes
    progress_from progress_one remove_pending_handshake swap_remove spawn_serviced_session reap_from
    reap
turns_end = refl

finish_frees_all_example :
    ((c : ℕ)
      → total (one c) (run 2 turns ([], started)).0
        ≡ total (one c) (finish (run 2 turns ([], started)).1).freed)
    × ((finish (run 2 turns ([], started)).1).added
        ≡ (finish (run 2 turns ([], started)).1).removed)
finish_frees_all_example = finish_frees_all 2 turns turns_end

-- Connection 8 stays, and takes the place of connection 7.
abbrev two_pending : Io
two_pending = record started {
  pending_handshakes =
      record { conn = 7; accepted_at = 1 } ∷ record { conn = 8; accepted_at = 1 } ∷ [];
  added = 2;
}

progress_pending_handshakes-IsOpen_example :
    IsOpen 2 10 probe (record { conn = 8; accepted_at = 1 })
unfolding progress_pending_handshakes progress_from progress_one remove_pending_handshake
    swap_remove spawn_serviced_session
progress_pending_handshakes-IsOpen_example =
    progress_pending_handshakes-IsOpen 2 10 probe two_pending 0
      (record { conn = 8; accepted_at = 1 }) refl
