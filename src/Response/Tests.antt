-- ===== src/Response/Tests.antt =====
-- A small response, and the theorems about the queue applied to it.
use mod_http.Common.{
  ◌+◌, ◌≤◌, ◌≡◌, refl, ◌∙◌, sym, subst, some_inj, true, false, none, some, List, [], ◌∷◌, ◌++◌,
  Bytes, arith, length, drop,
}
use mod_http.Response.{
  AppendCalls, Response, SessionFlags, update, link, push_chunk, append_round, chunk_len,
  new_response, read_data, ack, ack_loop, ack_chunk, finish_ack, fill, conclude,
}
use mod_http.Response.Layout.{Node, fresh_node}
use mod_http.Response.Invariant.{Represents}
use mod_http.Response.Steps.Acks.{settle, ack-Represents}
use mod_http.Response.Steps.Reads.{answer, read_data-Represents}
use mod_http.Response.Steps.Appends.{append_round-Represents}
use mod_http.Response.Delivery.{
  Event, Traffic, Lawful, run_event, accepted, carried, read_vec, read_vecs,
}
use mod_http.Response.Delivery.{Flow}
use mod_http.Response.Delivery.Order.{Flows, run_event-Flows}
use mod_http.Response.Delivery.History.{
  no_traffic, no_traffic-Flow, new_response-Represents, run, AllLawful, run_delivers,
}

abbrev flags : SessionFlags
flags = record { aborted = false; ngh3_dead = false; ngh3 = true }

abbrev word : Bytes
word = b'h' ∷ b'i' ∷ b'!' ∷ []

abbrev granted : AppendCalls
granted = record { waits = true; allocates = true }

-- Two appends, with a read and an acknowledgement between them, then the end of the response.
abbrev history : List Event
history =
    Event.appends flags granted word
    ∷ Event.pulls 4
    ∷ Event.acks 7 2
    ∷ Event.appends flags granted (b'.' ∷ [])
    ∷ Event.completes flags
    ∷ Event.pulls 4
    ∷ []

abbrev step : Event → Traffic → Traffic
step e t = elim (run_event e t) [ none ↦ t | some t' ↦ t' ]

abbrev start : Traffic
start = no_traffic 65536 0

abbrev first : Traffic
first = step (Event.appends flags granted word) start

abbrev second : Traffic
second = step (Event.pulls 4) first

AllLawful-cons :
    (e : Event) (es : List Event) (t t' : Traffic)
    → Lawful e t
    → run_event e t ≡ some t'
    → AllLawful es t'
    → AllLawful (e ∷ es) t
unfolding AllLawful
AllLawful-cons e es t t' l ran rest =
    (l, λ u ran'. subst (AllLawful es) (some_inj (sym ran ∙ ran')) rest)

history-AllLawful : AllLawful history (no_traffic 65536 0)
unfolding AllLawful run_event append_round chunk_len push_chunk update link accepted read_data fill
    conclude carried read_vecs read_vec ack ack_loop ack_chunk finish_ack
history-AllLawful =
    AllLawful-cons (Event.appends flags granted word) (drop 1 history) start first tt refl (
      AllLawful-cons (Event.pulls 4) (drop 2 history) first second tt refl (
        AllLawful-cons (Event.acks 7 2) (drop 3 history) second (step (Event.acks 7 2) second)
          (omega arith) refl (tt, λ t e. (tt, λ u d. (tt, λ v c. tt)))))

run_delivers_example :
    (t : Traffic) × (left : Bytes) × (run history (no_traffic 65536 0) ≡ some t)
    × (t.produced ≡ t.delivered ++ left)
    × (t.queue.buffered ≡ t.outstanding + length left)
    × (t.queue.buffered ≤ 65536)
run_delivers_example = run_delivers 65536 0 history history-AllLawful

run_event-Flows_example : Flows (run_event (Event.appends flags granted word) (no_traffic 65536 0))
run_event-Flows_example =
    run_event-Flows (Event.appends flags granted word) (no_traffic 65536 0)
      (no_traffic-Flow 65536 0) tt

-- The queue after the first append, and after nghttp3 has taken its chunk.
abbrev one_chunk : Response
one_chunk = (append_round flags granted word (new_response 65536 0)).1

abbrev waiting_chunk : List Node
waiting_chunk = fresh_node 0 word ∷ []

one_chunk-Represents : Represents one_chunk [] waiting_chunk
unfolding append_round chunk_len
one_chunk-Represents =
    (append_round-Represents flags granted word (new_response 65536 0) [] [] refl
      (new_response-Represents 65536 0)).0

one_chunk-live : one_chunk.cancelled ≡ false
unfolding append_round chunk_len push_chunk
one_chunk-live = refl

read_data-Represents_example :
    (q' : Response) × (read_data 4 one_chunk
      ≡ some (answer waiting_chunk [] one_chunk.complete, q'))
    × Represents q' waiting_chunk []
read_data-Represents_example =
    read_data-Represents 4 one_chunk [] waiting_chunk one_chunk-Represents (omega arith)
      one_chunk-live

-- The queue after the read.
taken :
    (q' : Response) × (read_data 4 one_chunk
      ≡ some (answer waiting_chunk [] one_chunk.complete, q'))
    × Represents q' waiting_chunk []
taken =
    read_data-Represents 4 one_chunk [] waiting_chunk one_chunk-Represents (omega arith)
      one_chunk-live

ack-Represents_example :
    (q' : Response) × (ack 7 2 taken.0 ≡ some q') × Represents q' (settle 2 waiting_chunk) []
ack-Represents_example = ack-Represents 7 2 taken.0 waiting_chunk [] taken.2 (omega arith)

-- The traffic after the first append.
abbrev appended_word : Traffic
appended_word = record { queue = one_chunk; produced = word; delivered = []; outstanding = 0 }

appended_word-Flow : Flow appended_word
appended_word-Flow = record {
  sent = [];
  waiting = waiting_chunk;
  represents = one_chunk-Represents;
  in_order = refl;
  open_bytes = refl;
}
