-- ===== src/Dispatch/Tests.antt =====
-- A request that is dispatched, closed while its worker is at work, and reclaimed afterwards.
use mod_http.Common.{ℕ, ◌+◌, ◌≤◌, ◌≡◌, refl, true, false, Option, none, some, List, [], ◌∷◌, length}
use mod_http.Common.Count.{total}
use mod_http.Config.{create_server_config}
use mod_http.Session.{stream_find, put_stream, track_stream}
use mod_http.Session.Streams.{measure, named}
use mod_http.Session.Reclaim.{reclaim, reclaim_each}
use mod_http.Dispatch.{
  Dispatching, pushed, Turn, tracks, dispatches, ends, reclaims, destroys, works, event_turn, run,
  destroy_unused, turn, process_stream, work,
}
use mod_http.Dispatch.Holders.{holder}
use mod_http.Dispatch.Safety.{run_one_worker}

abbrev no_streams : Dispatching
no_streams = record {
  session = record {
    streams = [];
    aborted = false;
    blocked_streams = 0;
    ngh3_dead = false;
    abort_quic_error_code = 0;
    pending_free = [];
    stream_drain_cursor = 0;
    goaway_sent = false;
    goaway_deadline = none;
    last_activity = 0;
    stream_errors = 0;
    active_tasks = 0;
  };
  tasks = [];
  destroyed = false;
}

abbrev turns : List Turn
turns =
    tracks create_server_config true 0 4 1
    ∷ dispatches 4 pushed
    ∷ works true 0
    ∷ ends 4 true none
    ∷ reclaims
    ∷ dispatches 4 pushed
    ∷ works true 0
    ∷ reclaims
    ∷ works true 0
    ∷ destroys
    ∷ dispatches 4 pushed
    ∷ []

abbrev left : Option Dispatching → ℕ
left none = 9
left (some d) = length d.session.streams + length d.tasks

all_gone : left (run turns no_streams) ≡ 0
unfolding turn event_turn destroy_unused process_stream work stream_find put_stream track_stream
    reclaim reclaim_each
all_gone = refl

run_one_worker_example :
    (d' : Dispatching) × (run turns no_streams ≡ some d')
    × ((sid : ℕ) → total (holder sid) d'.tasks ≤ 1)
    × ((sid : ℕ) → total (holder sid) d'.tasks ≤ measure (named sid) d'.session.streams)
    × (d'.session.active_tasks ≡ length d'.tasks)
run_one_worker_example = run_one_worker turns no_streams refl refl refl
