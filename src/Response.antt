-- ===== src/Response.antt =====
-- The bounded response queue of a stream: `h3_response_chunk` and the `h3_stream_response_*`
-- functions and `h3_session_read_data` of mod_http3/src/h3_session.c, and the `response_*` fields
-- of `h3_stream` (mod_http3/include/h3_session.h). Chunks lie on an explicit heap, so that a use of
-- a freed chunk is a fault, `none`. Each function is what runs under the session lock.
pub mod Layout
pub mod Invariant
pub mod Steps
pub mod Delivery
mod Tests
use mod_http.Common.{
  ℕ, zero, suc, ◌+◌, ◌-◌, ◌*◌, ◌^◌, min, Bool, true, false, not, Option, none, some, List, [], ◌∷◌,
  Bytes, ◌&&◌, ◌||◌, ltb, leb, ◌==◌, is_some, or_else?, if◌then◌else◌, length, take,
}

-- `struct h3_response_chunk`; `len` is the length of `data`, an address is a number.
pub record Chunk : Type 0 where
  pub next : Option ℕ
  pub bytes : Bytes
  pub acked : ℕ

-- The calls out of the queue: `nghttp3_conn_resume_stream`, `apr_thread_cond_broadcast` and the
-- wakeup of the event thread.
pub data Call : Type 0 where
  resume broadcast wake : Call

-- The `response_*` fields of `h3_stream`, the chunks that are allocated (`cells`), the next address
-- that `malloc` gives (`brk`), and the calls made, latest first.
pub record Response : Type 0 where
  pub cells : ℕ → Option Chunk
  pub brk : ℕ
  pub head : Option ℕ
  pub tail : Option ℕ
  pub submit_chunk : Option ℕ
  pub submit_offset : ℕ
  pub buffered : ℕ
  pub len : ℕ
  pub buffer_limit : ℕ
  pub submitted : Bool
  pub complete : Bool
  pub cancelled : Bool
  pub progress_at : ℕ
  pub calls : List Call

-- The fields of `h3_session` that the producer tests; `ngh3` says that the pointer is not NULL.
pub record SessionFlags : Type 0 where
  pub aborted : Bool
  pub ngh3_dead : Bool
  pub ngh3 : Bool

abbrev pub stream_chunk_bytes : ℕ
stream_chunk_bytes = 4 * 1024

abbrev pub size_max : ℕ
size_max = 2 ^ 64 - 1

-- The queue of a new stream, as `track_stream` (mod_http3/src/h3_stream.c) makes it.
abbrev pub new_response : ℕ → ℕ → Response
new_response limit now = record {
  cells = λ a. none;
  brk = 0;
  head = none;
  tail = none;
  submit_chunk = none;
  submit_offset = 0;
  buffered = 0;
  len = 0;
  buffer_limit = limit;
  submitted = false;
  complete = false;
  cancelled = false;
  progress_at = now;
  calls = [];
}

-- The heap with address `a` given the contents `v`.
pub update : (ℕ → Option Chunk) → ℕ → Option Chunk → ℕ → Option Chunk
update cells a v x = if x == a then v else cells x

abbrev pub note : Call → Response → Response
note call q = record q { calls = call ∷ q.calls }

-- `tail->next = chunk`, if there is a tail. The write to a tail that was freed is kept too: it leaves
-- a cell that no chunk of the queue has.
pub link : Option ℕ → ℕ → (ℕ → Option Chunk) → ℕ → Option Chunk
unfolding update
link none a cells = cells
link (some t) a cells = elim (cells t) [
  | none ↦ update cells t (some (record { next = some a; bytes = []; acked = 0 }))
  | some c ↦ update cells t (some (record c { next = some a }))
]

-- From the `malloc` of a chunk to the two counters.
unfoldable pub push_chunk : Bytes → Response → Response
unfolding update link
push_chunk bytes q =
    let a = q.brk in
    let fresh : Chunk = record { next = none; bytes = bytes; acked = 0 } in
    record q {
      cells = link q.tail a (update q.cells a (some fresh));
      brk = suc a;
      head = if is_some q.tail then q.head else some a;
      tail = some a;
      submit_chunk = or_else? q.submit_chunk (some a);
      submit_offset = if is_some q.submit_chunk then q.submit_offset else 0;
      buffered = q.buffered + length bytes;
      len = q.len + length bytes;
    }

-- `h3_stream_response_cancel_locked`, of a stream whose `response_cond` is set: `track_stream` drops a
-- stream for which none is made.
unfoldable pub cancel : Response → Response
cancel q = note broadcast (record q { cancelled = true; complete = true })

-- What one round of the loop of `h3_stream_response_append` comes to.
pub data Appended : Type 0 where
  blocked wait_failed aborted failed no_memory : Appended
  appended : ℕ → Appended

-- `chunk_len`. The subtraction runs only at `buffered < buffer_limit`, so it cannot wrap.
pub chunk_len : Bytes → Response → ℕ
chunk_len rest q = min (min (length rest) (q.buffer_limit - q.buffered)) stream_chunk_bytes

-- The condition of the loop that waits for room.
abbrev pub must_wait : SessionFlags → Response → Bool
must_wait f q = leb q.buffer_limit q.buffered && not q.cancelled && not f.aborted && not f.ngh3_dead

-- The calls of a round: whether the wait on `response_cond` is woken or times out, and whether
-- `malloc` succeeds.
pub record AppendCalls : Type 0 where
  pub waits : Bool
  pub allocates : Bool

-- One round under the lock: `rest` is the data from `offset` on, not empty. After `blocked`, a wait,
-- the loop goes round again; with the others but `appended` the function returns.
unfoldable pub append_round : SessionFlags → AppendCalls → Bytes → Response → Appended × Response
append_round f a rest q =
    let n = chunk_len rest q in
    let pushed = push_chunk (take n rest) q in
    if must_wait f q
    then (if a.waits then blocked else wait_failed, q)
    else if q.cancelled || f.aborted || f.ngh3_dead || not f.ngh3
    then (aborted, q)
    else if n == 0 || ltb (size_max - n) q.len
    then (failed, cancel q)
    else if not a.allocates
    then (no_memory, cancel q)
    else (appended n, note wake (if q.submitted then note resume pushed else pushed))

-- `h3_stream_response_complete`
unfoldable pub complete : SessionFlags → Response → Response
complete f q =
    let done = record q { complete = true } in
    let resumes = q.submitted && f.ngh3 && not f.ngh3_dead in
    note wake (note broadcast (if resumes then note resume done else done))

-- The body of the loop of `h3_stream_response_ack_locked` at the head chunk `c`, at `a`.
pub ack_chunk : ℕ → ℕ → ℕ → Chunk → Response → Response
unfolding update
ack_chunk now datalen a c q =
    let consumed = min datalen (length c.bytes - c.acked) in
    let acked' = c.acked + consumed in
    let counted = record q { buffered = q.buffered - consumed; progress_at = now } in
    if acked' == length c.bytes
    then record counted {
      cells = update q.cells a none;
      head = c.next;
      tail = if is_some c.next then q.tail else none;
    }
    else record counted { cells = update q.cells a (some (record c { acked = acked' })) }

-- The loop, on fuel: a round that does not end it frees a chunk.
pub ack_loop : ℕ → ℕ → ℕ → Bool → Response → Option (Bool × Response)
ack_loop zero now datalen released q = none
ack_loop (suc fuel) now datalen released q = elim (datalen == 0) [
  | true ↦ some (released, q)
  | false ↦ elim q.head [
    | none ↦ some (released, q)
    | some a ↦ elim (q.cells a) [
      | none ↦ none
      | some c ↦
          ack_loop fuel now (datalen - min datalen (length c.bytes - c.acked)) true
            (ack_chunk now datalen a c q)
    ]
  ]
]

pub finish_ack : Bool × Response → Response
finish_ack (released, q) = if released then note broadcast q else q

-- `h3_stream_response_ack_locked`. At most `brk` chunks are alive.
pub ack : ℕ → ℕ → Response → Option Response
unfolding ack_loop finish_ack
ack now datalen q = elim (ack_loop (suc (suc q.brk)) now datalen false q) [
  | none ↦ none
  | some r ↦ some (finish_ack r)
]

-- The loop of `h3_stream_response_cleanup_locked`.
pub free_from : ℕ → Option ℕ → (ℕ → Option Chunk) → Option (ℕ → Option Chunk)
unfolding update
free_from fuel none cells = some cells
free_from zero (some a) cells = none
free_from (suc fuel) (some a) cells = elim (cells a) [
  | none ↦ none
  | some c ↦ free_from fuel c.next (update cells a none)
]

-- `h3_stream_response_cleanup_locked`
pub cleanup : Response → Option Response
unfolding free_from
cleanup q = elim (free_from (suc q.brk) q.head q.cells) [
  | none ↦ none
  | some cells ↦ some (record q {
    cells = cells;
    head = none;
    tail = none;
    submit_chunk = none;
    submit_offset = 0;
    buffered = 0;
  })
]

-- `nghttp3_vec`: a piece of a chunk.
pub record Vec : Type 0 where
  pub chunk : ℕ
  pub offset : ℕ
  pub len : ℕ

abbrev pub prepend : Vec → Option (List Vec × Response) → Option (List Vec × Response)
prepend v none = none
prepend v (some (vs, q)) = some (v ∷ vs, q)

-- The loop of `h3_session_read_data`: `room` vectors may still be filled.
pub fill : ℕ → Response → Option (List Vec × Response)
fill zero q = some ([], q)
fill (suc room) q = elim q.submit_chunk [
  | none ↦ some ([], q)
  | some a ↦ elim (q.cells a) [
    | none ↦ none
    | some c ↦
        prepend
          (record { chunk = a; offset = q.submit_offset; len = length c.bytes - q.submit_offset })
          (fill room (record q { submit_chunk = c.next; submit_offset = 0 }))
  ]
]

-- The result of the callback: NGHTTP3_ERR_CALLBACK_FAILURE, NGHTTP3_ERR_WOULDBLOCK, or the vectors
-- with the flag NGHTTP3_DATA_FLAG_EOF.
pub data Pulled : Type 0 where
  callback_failure would_block : Pulled
  pulled : List Vec → Bool → Pulled

pub conclude : List Vec → Response → Pulled
conclude [] q = if q.complete then pulled [] true else would_block
conclude (v ∷ vs) q = pulled (v ∷ vs) (not (is_some q.submit_chunk) && q.complete)

-- `h3_session_read_data` for a stream that is not NULL.
pub read_data : ℕ → Response → Option (Pulled × Response)
unfolding fill conclude
read_data veccnt q = elim (veccnt == 0) [
  | true ↦ some (callback_failure, q)
  | false ↦ elim q.cancelled [
    | true ↦ some (pulled [] true, q)
    | false ↦ elim (fill veccnt q) [ none ↦ none | some (vs, q') ↦ some (conclude vs q', q') ]
  ]
]
