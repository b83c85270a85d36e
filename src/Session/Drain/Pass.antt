-- ===== src/Session/Drain/Pass.antt =====
-- A pass over the streams of a session: the loop of `drain_ready_streams` of
-- mod_http3/src/h3_stream.c, and the reclaiming that follows it.
pub mod Keeps
pub mod Limits
use mod_http.Common.{
  ℕ, zero, suc, ◌+◌, ◌%◌, Bool, true, false, not, ◌&&◌, ◌||◌, Option, none, some, List, [], ◌∷◌,
  ◌++◌, ltb, ◌==◌, if◌then◌else◌, length, get_elem?, is_some, map,
}
use mod_http.Config.{ServerConf}
use mod_http.Stream.{Stream, sid_is_server}
use mod_http.Session.{H3Session, stream_find, put_stream}
use mod_http.Session.Reclaim.{reclaim}
use mod_http.Session.Drain.{
  Incoming, Draining, drain_one_stream, is_ready, stream_drain_read_budget,
  stream_drain_byte_budget,
}

-- The session, the budgets, `total_bytes_read`, `*data_read`, the streams reset, and `completed`.
pub record Pass : Type 0 where
  pub session : H3Session
  pub reads_remaining : ℕ
  pub bytes_remaining : ℕ
  pub total_bytes_read : ℕ
  pub data_read : Bool
  pub resets : List (ℕ × ℕ)
  pub completed : List ℕ

abbrev pub start_draining : Stream → Pass → Draining
start_draining h p = record {
  session = p.session;
  stream = h;
  reads_remaining = p.reads_remaining;
  bytes_remaining = p.bytes_remaining;
  total_bytes_read = p.total_bytes_read;
  data_read = p.data_read;
  resets = p.resets;
}

-- The cursor set to the stream behind index `i` of `n`.
abbrev pub resume_at : ℕ → ℕ → H3Session → H3Session
resume_at n i s = record s { stream_drain_cursor = (i + 1) % n }

abbrev pub is_spent_budget : Draining → Bool
is_spent_budget d = d.reads_remaining == 0 || d.bytes_remaining == 0

-- What follows `drain_one_stream` for the stream `sid` at index `i`, and whether the loop goes on.
abbrev pub drained : ℕ → ℕ → ℕ → List ℕ → Draining → Bool × Pass
drained n i sid completed d =
    let s = record d.session { streams = put_stream d.stream d.session.streams } in
    (
      not (is_spent_budget d),
      record {
        session = if is_spent_budget d then resume_at n i s else s;
        reads_remaining = d.reads_remaining;
        bytes_remaining = d.bytes_remaining;
        total_bytes_read = d.total_bytes_read;
        data_read = d.data_read;
        resets = d.resets;
        completed =
            if is_ready d.stream && not s.ngh3_dead then completed ++ sid ∷ [] else completed;
      },
    )

-- The loop's body at index `i` of the snapshot, a list of stream ids.
pub visit : ServerConf → (ℕ → Incoming) → List ℕ → ℕ → Pass → Bool × Pass
unfolding put_stream
visit conf inc snapshot i p =
    if p.session.ngh3_dead then (false, p) else elim (get_elem? snapshot i) [
      | none ↦ (true, p)
      | some sid ↦ elim (stream_find sid p.session.streams) [
        | none ↦ (true, p)
        | some h ↦
            if h.done || not (is_some h.qstream) || sid_is_server sid
            then (true, p)
            else drained (length snapshot) i sid p.completed
                (drain_one_stream conf (inc sid) (start_draining h p))
      ]
    ]

pub visits : ServerConf → (ℕ → Incoming) → List ℕ → List ℕ → Pass → Pass
unfolding visit
visits conf inc snapshot [] p = p
visits conf inc snapshot (i ∷ is) p =
    let (more, q) = visit conf inc snapshot i p in
    let rest = visits conf inc snapshot is q in if more then rest else q

-- The indices that the loop visits: `(start + offset) % n`, for `left` more offsets.
abbrev pub rotation : ℕ → ℕ → ℕ → ℕ → List ℕ
rotation start n offset zero = []
rotation start n offset (suc left) = (start + offset) % n ∷ rotation start n (suc offset) left

abbrev pub new_pass : ℕ → H3Session → Pass
new_pass total s = record {
  session = s;
  reads_remaining = stream_drain_read_budget;
  bytes_remaining = stream_drain_byte_budget;
  total_bytes_read = total;
  data_read = false;
  resets = [];
  completed = [];
}

-- The loop of `drain_ready_streams`, on the session and `total_bytes_read`.
unfoldable pub drain_streams : ServerConf → (ℕ → Incoming) → ℕ → H3Session → Pass
unfolding visits
drain_streams conf inc total s =
    let snapshot = map (λ (h : Stream). h.stream_id) s.streams in
    let n = length snapshot in
    visits conf inc snapshot (rotation (s.stream_drain_cursor % n) n 0 n) (new_pass total s)

-- `drain_ready_streams`
unfoldable pub drain_ready_streams : ServerConf → (ℕ → Incoming) → ℕ → H3Session → Pass
unfolding drain_streams reclaim
drain_ready_streams conf inc total s =
    let p = drain_streams conf inc total s in record p { session = (reclaim p.session).0 }
