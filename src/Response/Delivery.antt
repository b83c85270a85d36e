-- ===== src/Response/Delivery.antt =====
-- Histories of a response queue: the worker appends, the event thread reads, acknowledges and
-- cancels, in any interleaving of rounds under the session lock.
pub mod Order
pub mod Limit
pub mod History
pub mod Drain
use mod_http.Common.{
  ℕ, zero, suc, ◌+◌, ◌-◌, ◌≤◌, ◌≡◌, refl, ◌≢◌, ap, ◌∙◌, sym, subst, Bool, true, false, Option, none,
  some, List, [], ◌∷◌, ◌++◌, append_assoc, append-nil, Bytes, arith, length, take, drop, map,
  length-append, take-append-drop, Bool-cases, inl, inr, is_some, if◌then◌else◌, ◌==◌,
}
use native.Mathlib.Decide.{ℕ_discrete}
use mod_http.Response.{
  AppendCalls, Chunk, Response, SessionFlags, Vec, Pulled, pulled, callback_failure, would_block,
  Appended, blocked, wait_failed, aborted, failed, no_memory, appended, append_round, read_data,
  ack, cancel, complete,
}
use mod_http.Response.Layout.{Node, unacked, bytes_of, fresh_node, unacked-append}
use mod_http.Response.Invariant.{Represents, AllFresh, cancel-Represents, complete-Represents}
use mod_http.Response.Steps.Acks.{settle, ack-Represents}
use mod_http.Response.Steps.Reads.{vec_of, answer, read_data-Represents}
use mod_http.Response.Steps.Appends.{append_round-Represents, append_round-refused}

pub data Event : Type 0 where
  appends : SessionFlags → AppendCalls → Bytes → Event
  completes : SessionFlags → Event
  pulls : ℕ → Event
  acks : ℕ → ℕ → Event
  cancels : Event

-- The queue beside what went in and out of it: the bytes that the worker has appended, those that
-- nghttp3 has taken, and how many of these it has not acknowledged.
pub record Traffic : Type 0 where
  pub queue : Response
  pub produced : Bytes
  pub delivered : Bytes
  pub outstanding : ℕ

-- The bytes that a vector points to.
unfoldable pub read_vec : (ℕ → Option Chunk) → Vec → Bytes
read_vec cells v = elim (cells v.chunk) [ none ↦ [] | some c ↦ take v.len (drop v.offset c.bytes) ]

unfoldable pub read_vecs : (ℕ → Option Chunk) → List Vec → Bytes
unfolding read_vec
read_vecs cells [] = []
read_vecs cells (v ∷ vs) = read_vec cells v ++ read_vecs cells vs

unfoldable pub carried : (ℕ → Option Chunk) → Pulled → Bytes
carried cells callback_failure = []
carried cells would_block = []
carried cells (pulled vs eof) = read_vecs cells vs

unfoldable pub accepted : Appended → Bytes → Bytes
accepted (appended n) rest = take n rest
accepted blocked rest = []
accepted wait_failed rest = []
accepted aborted rest = []
accepted failed rest = []
accepted no_memory rest = []

-- `none` is a use of a freed chunk.
unfoldable pub run_event : Event → Traffic → Option Traffic
unfolding accepted
run_event (appends f a rest) t =
    let (outcome, q) = append_round f a rest t.queue in
    some (record t { queue = q; produced = t.produced ++ accepted outcome rest })
run_event (completes f) t = some (record t { queue = complete f t.queue })
run_event (pulls veccnt) t = elim (read_data veccnt t.queue) [
  | none ↦ none
  | some (p, q) ↦
      let bytes = carried q.cells p in
      some (record t {
        queue = q;
        delivered = t.delivered ++ bytes;
        outstanding = t.outstanding + length bytes;
      })
]
run_event (acks now datalen) t = elim (ack now datalen t.queue) [
  | none ↦ none
  | some q ↦ some (record t { queue = q; outstanding = t.outstanding - datalen })
]
run_event cancels t = some (record t { queue = cancel t.queue })

-- nghttp3 acknowledges no more than it has taken.
abbrev pub Lawful : Event → Traffic → Type 0
Lawful (acks now datalen) t = datalen ≤ t.outstanding
Lawful (appends f a rest) t = Unit {0}
Lawful (completes f) t = Unit {0}
Lawful (pulls veccnt) t = Unit {0}
Lawful cancels t = Unit {0}

-- What the queue holds, and how the bytes add up.
pub record Flow (t : Traffic) : Type 0 where
  pub sent : List Node
  pub waiting : List Node
  pub represents : Represents t.queue sent waiting
  pub in_order : t.produced ≡ t.delivered ++ bytes_of waiting
  pub open_bytes : t.outstanding ≡ unacked sent
