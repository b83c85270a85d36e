-- ===== src/Lifetime/Destroyed.antt =====
-- What the end of a session frees.
use mod_http.Common.{ℕ, ◌≡◌, refl, ap, Option, none, some, List, [], ◌∷◌}
use mod_http.Stream.{Stream}
use mod_http.Response.{cancel}
use mod_http.Response.Layout.{Node}
use mod_http.Response.Invariant.{Represents, cancel-Represents}
use mod_http.Response.Steps.Cleanup.{cleanup_frees_all}
use mod_http.Session.{H3Session}
use mod_http.Lifetime.{Leftover, clear_responses, session_destroy}

-- The response of each stream represents a queue.
abbrev pub AllRepresented : List Stream → Type 0
AllRepresented [] = Unit {0}
AllRepresented (h ∷ streams) =
    ((sent : List Node) × (waiting : List Node) × Represents h.response sent waiting)
    × AllRepresented streams

-- No response has a chunk.
abbrev pub AllCleared : List Stream → Type 0
AllCleared [] = Unit {0}
AllCleared (h ∷ streams) = ((a : ℕ) → h.response.cells a ≡ none) × AllCleared streams

-- The QUIC streams that the table holds.
abbrev pub held_streams : List Stream → List (Option ℕ)
held_streams [] = []
held_streams (h ∷ streams) = h.qstream ∷ held_streams streams

clear_responses-AllCleared :
    (streams : List Stream)
    → AllRepresented streams
    → (cleared : List Stream) × (clear_responses streams ≡ some cleared)
      × AllCleared cleared
      × (held_streams cleared ≡ held_streams streams)
unfolding clear_responses
clear_responses-AllCleared [] r = ([], refl, tt, refl)
clear_responses-AllCleared (h ∷ streams) ((sent, waiting, r), rs) =
    let (q, e, empty, none_left, represents) =
      cleanup_frees_all (cancel h.response) sent waiting
        (cancel-Represents h.response sent waiting r) in
    let (cleared, f, all_empty, same) = clear_responses-AllCleared streams rs in
    (
      record h { response = q } ∷ cleared,
      rw (e, f, clear_responses) refl,
      (empty, all_empty),
      ap (λ held. h.qstream ∷ held) same,
    )

-- Where every response of a session represents a queue, the end of the session touches no freed chunk
-- and leaves none allocated; of the QUIC streams it frees those that were queued, each once, and
-- those that a stream of the table still holds it does not free.
pub session_destroy_lem :
    (s : H3Session)
    → AllRepresented s.streams
    → (left : Leftover) × (session_destroy s ≡ some left)
      × AllCleared left.streams
      × (left.freed ≡ s.pending_free)
      × (held_streams left.streams ≡ held_streams s.streams)
unfolding session_destroy
session_destroy_lem s r =
    let (cleared, e, empty, same) = clear_responses-AllCleared s.streams r in
    (
      record { streams = cleared; freed = s.pending_free },
      rw (e, session_destroy) refl,
      empty,
      refl,
      same,
    )
