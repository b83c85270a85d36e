-- ===== src/Session/Drain/Errors.antt =====
-- The errors that a client may cause are counted up to the limit, and one more ends the session.
use mod_http.Common.{
  ◌+◌, ◌%◌, ◌^◌, ◌≤◌, ◌≡◌, Bool, true, false, not, ◌&&◌, List, [], ◌∷◌, ltb, if◌then◌else◌, arith,
  length, is_some, if_both, if_known,
}
use native.Mathlib.Nat.{mod-le}
use mod_http.Config.{ServerConf}
use mod_http.QuicStream.{Read, bytes_read, finished, idle, stream_read}
use mod_http.Session.{H3Session}
use mod_http.Session.Flush.{mark_ngh3_dead}
use mod_http.Session.Drain.{
  accepted, malformed_request, fails, Feed, Reading, Incoming, Draining, count_error,
  reject_malformed_stream, fed_fin, fed, feed_stream_fin, note_read, set_done, fed_bytes,
  drain_read, read_size, in_budget, drain_round, drain_reads, both_finished, drain_finished,
  drain_one_stream,
}

-- At most one error beyond the limit was counted, and none while nghttp3 is alive.
abbrev pub IsTolerated : ServerConf → H3Session → Type 0
IsTolerated conf s =
    (s.stream_errors ≤ conf.max_stream_errors + 1)
    × (s.ngh3_dead ≡ false → s.stream_errors ≤ conf.max_stream_errors)

abbrev Tolerates : ServerConf → Draining → Type 0
Tolerates conf d = IsTolerated conf d.session

count_error-IsTolerated :
    (conf : ServerConf) (s : H3Session)
    → s.stream_errors ≤ conf.max_stream_errors
    → IsTolerated conf (count_error conf s)
unfolding count_error
count_error-IsTolerated conf s few =
    let errors = (s.stream_errors + 1) % 2 ^ 32 in
    let bound : errors ≤ conf.max_stream_errors + 1 =
      let small = mod-le (s.stream_errors + 1) (2 ^ 32) in omega (arith, small, few) in
    if_known (IsTolerated conf) (ltb conf.max_stream_errors errors) (λ many. (bound, λ live. cc))
      (λ within. (bound, λ live. ground (arith)))

-- Where the loop goes on, the limit was not exceeded.
abbrev Round : ServerConf → Bool × Draining → Type 0
Round conf (more, d) =
    Tolerates conf d × (more ≡ true → d.session.stream_errors ≤ conf.max_stream_errors)

module _ (conf : ServerConf) where
  within :
      (more : Bool) (d : Draining)
      → d.session.stream_errors ≤ conf.max_stream_errors
      → Round conf (more, d)
  within more d few = ((omega (arith, few), λ live. few), λ on. few)

  stops : (d : Draining) → Tolerates conf d → Round conf (false, d)
  stops d k = (k, λ on. cc)

  fed_fin-Tolerates :
      (f : Feed) (d : Draining)
      → d.session.stream_errors ≤ conf.max_stream_errors
      → Tolerates conf (fed_fin conf f d)
  unfolding fed_fin reject_malformed_stream
  fed_fin-Tolerates f d few =
      elim f.consumed
        as (λ c. Tolerates conf (elim c [
          | malformed_request code ↦ reject_malformed_stream conf code f d
          | fails code ↦ record d { session = mark_ngh3_dead code d.session }
          | accepted ↦
              if d.stream.malformed && not d.stream.done
              then reject_malformed_stream conf f.header_error f d
              else d
        ])) [
          | malformed_request code ↦ count_error-IsTolerated conf d.session few
          | fails code ↦ (omega (arith, few), λ live. few)
          | accepted ↦
              if_both (Tolerates conf) (d.stream.malformed && not d.stream.done)
                (count_error-IsTolerated conf d.session few) (omega (arith, few), λ live. few)
        ]

  feed_stream_fin-Tolerates :
      (f : Feed) (d : Draining)
      → d.session.stream_errors ≤ conf.max_stream_errors
      → Tolerates conf (feed_stream_fin conf f d)
  unfolding feed_stream_fin
  feed_stream_fin-Tolerates f d few = fed_fin-Tolerates f (fed f d) few

  fed_bytes-Round :
      (f : Feed) (d : Draining)
      → d.session.stream_errors ≤ conf.max_stream_errors
      → Round conf (fed_bytes conf f d)
  unfolding fed_bytes reject_malformed_stream
  fed_bytes-Round f d few =
      elim f.consumed
        as (λ c. Round conf (elim c [
          | malformed_request code ↦ (false, reject_malformed_stream conf code f d)
          | fails code ↦ (false, set_done (record d { session = mark_ngh3_dead code d.session }))
          | accepted ↦
              if d.stream.malformed && not d.stream.done
              then (false, reject_malformed_stream conf f.header_error f d)
              else (not d.stream.done, d)
        ])) [
          | malformed_request code ↦
              stops (reject_malformed_stream conf code f d)
                (count_error-IsTolerated conf d.session few)
          | fails code ↦
              within false (set_done (record d { session = mark_ngh3_dead code d.session })) few
          | accepted ↦
              if_both (Round conf) (d.stream.malformed && not d.stream.done)
                (stops (reject_malformed_stream conf f.header_error f d)
                  (count_error-IsTolerated conf d.session few))
                (within (not d.stream.done) d few)
        ]

  drain_read-Round :
      (r : Read) (f : Feed) (d : Draining)
      → d.session.stream_errors ≤ conf.max_stream_errors
      → Round conf (drain_read conf r f d)
  unfolding drain_read
  drain_read-Round (bytes_read []) f d few = within false d few
  drain_read-Round (bytes_read (b ∷ bs)) f d few =
      fed_bytes-Round f (fed f (note_read (length (b ∷ bs)) d)) few
  drain_read-Round finished f d few =
      stops (feed_stream_fin conf f d) (feed_stream_fin-Tolerates f d few)
  drain_read-Round idle f d few = within false d few

  drain_round-Round :
      (r : Reading) (d : Draining)
      → d.session.stream_errors ≤ conf.max_stream_errors
      → Round conf (drain_round conf r d)
  unfolding drain_round
  drain_round-Round r d few = if_both (Round conf) (not (in_budget d)) (within false d few) (
      if_both (Round conf) (not (is_some d.stream.qstream)) (within false (set_done d) few)
        (drain_read-Round (stream_read (r.read (read_size conf d))) r.feed d few))

  drain_reads-Tolerates :
      (rs : List Reading) (d : Draining)
      → d.session.stream_errors ≤ conf.max_stream_errors
      → Tolerates conf (drain_reads conf rs d)
  unfolding drain_reads
  drain_reads-Tolerates [] d few =
      if_both (Tolerates conf) (in_budget d && not (is_some d.stream.qstream))
        (within false d few).0 (within false d few).0
  drain_reads-Tolerates (r ∷ rs) d few =
      let e = (drain_round conf r d).1 in
      let (kept, goes) = drain_round-Round r d few in
      if_known (Tolerates conf) (drain_round conf r d).0
        (λ on. drain_reads-Tolerates rs e (goes on)) (λ off. kept)

  drain_finished-Tolerates :
      (inc : Incoming) (d : Draining)
      → d.session.stream_errors ≤ conf.max_stream_errors
      → Tolerates conf (drain_finished conf inc d)
  unfolding drain_finished
  drain_finished-Tolerates inc d few =
      let kept =
        if_both (Tolerates conf) d.stream.body_complete (within false d few).0
          (feed_stream_fin-Tolerates inc.at_fin d few) in
      if_both (Tolerates conf)
        (is_some
            (if d.stream.body_complete then d else feed_stream_fin conf inc.at_fin d).stream.qstream
          && (both_finished inc d.stream).1)
        kept kept

  pub drain_one_stream-Tolerates :
      (inc : Incoming) (d : Draining)
      → d.session.stream_errors ≤ conf.max_stream_errors
      → IsTolerated conf (drain_one_stream conf inc d).session
  unfolding drain_one_stream
  drain_one_stream-Tolerates inc d few =
      if_both (Tolerates conf) (both_finished inc d.stream).0 (drain_finished-Tolerates inc d few)
        (drain_reads-Tolerates inc.readings d few)
