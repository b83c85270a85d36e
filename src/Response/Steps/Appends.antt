-- ===== src/Response/Steps/Appends.antt =====
-- `h3_stream_response_append`, a round at a time, and `h3_stream_response_cancel_locked`,
-- `h3_stream_response_complete` and `h3_stream_response_cleanup_locked`.
use mod_http.Common.{
  ℕ, ◌+◌, ◌≤◌, ◌<◌, ◌≡◌, ◌≢◌, sym, subst, Bool, true, false, List, [], ◌∷◌, ◌++◌, Bytes, ◌⊎◌,
  if◌then◌else◌, arith, length, take, length-take,
}
use mod_http.Response.{
  AppendCalls, Response, SessionFlags, note, resume, wake, push_chunk, cancel, chunk_len,
  append_round, Appended, appended, stream_chunk_bytes,
}
use mod_http.Response.Layout.{Node, fresh_node}
use mod_http.Response.Invariant.{Represents, flags-Represents, push_chunk-Represents}

-- The wakeups of a round that appends.
abbrev noted : Bool → Response → Response
noted resumes q = note wake (if resumes then note resume q else q)

-- What a round has tested when it appends.
append_round-appended :
    (f : SessionFlags) (a : AppendCalls) (rest : Bytes) (q : Response) {n : ℕ} {q' : Response}
    → append_round f a rest q ≡ (appended n, q')
    → (chunk_len rest q ≡ n)
      × (n ≢ 0)
      × (q.buffered < q.buffer_limit)
      × (q' ≡ noted q.submitted (push_chunk (take (chunk_len rest q) rest) q))
unfolding append_round
append_round-appended f a rest q {n} {q'} e = ground arith

noted-Represents :
    (resumes : Bool) (q : Response) (sent waiting : List Node)
    → Represents q sent waiting
    → Represents (noted resumes q) sent waiting
noted-Represents true q sent waiting r = flags-Represents q sent waiting q.complete q.cancelled _ r
noted-Represents false q sent waiting r = flags-Represents q sent waiting q.complete q.cancelled _ r

chunk_len-bounds :
    (rest : Bytes) (q : Response)
    → q.buffered < q.buffer_limit
    → (chunk_len rest q ≤ length rest)
      × (q.buffered + chunk_len rest q ≤ q.buffer_limit)
      × (chunk_len rest q ≤ stream_chunk_bytes)
unfolding chunk_len
chunk_len-bounds rest q h = omega arith

-- A round that appends puts the first `n` bytes of the data, not none and at most a chunk's worth,
-- behind what waits, and stays within the limit of the queue.
pub append_round-Represents :
    (f : SessionFlags) (a : AppendCalls) (rest : Bytes) (q : Response) (sent waiting : List Node)
    {n : ℕ} {q' : Response}
    → append_round f a rest q ≡ (appended n, q')
    → Represents q sent waiting
    → Represents q' sent (waiting ++ fresh_node q.brk (take n rest) ∷ [])
      × (0 < n)
      × (n ≤ length rest)
      × (n ≤ stream_chunk_bytes)
append_round-Represents f a rest q sent waiting {n} {q'} e r =
    let (c, nz, room, made) = append_round-appended f a rest q e in
    let (whole, within, small) = chunk_len-bounds rest q room in
    let kept : length (take n rest) ≡ n = omega (arith, length-take n rest) in
    (
      subst (λ p. Represents p sent (waiting ++ fresh_node q.brk (take n rest) ∷ [])) (sym made)
          (noted-Represents q.submitted _ sent _ (
            rw c
              (push_chunk-Represents q (take n rest) sent waiting (omega arith) (omega arith) r))),
      omega arith,
      omega arith,
      omega arith,
    )

-- A round that does not append leaves the queue, or cancels it.
pub append_round-refused :
    (f : SessionFlags) (a : AppendCalls) (rest : Bytes) (q : Response) {o : Appended}
    {q' : Response}
    → append_round f a rest q ≡ (o, q')
    → ((n : ℕ) → o ≢ appended n)
    → (q' ≡ q) ⊎ (q' ≡ cancel q)
unfolding append_round
append_round-refused f a rest q e h = ground (arith, h (chunk_len rest q))
