-- ===== src/OutFilter/Calls.antt =====
-- The order of the calls on the response queue.
use mod_http.Common.{
  ◌≡◌, refl, Bool, true, false, ◌||◌, Option, none, some, List, [], ◌∷◌, Bytes, if◌then◌else◌,
  Bool-cases, inl, inr,
}
use mod_http.OutFilter.{
  OutBucket, error, data_bucket, end_of_stream, flush, metadata, Answers, StreamCall, starts,
  starts_error, appends, completes, Sending, Request, Passed, Step, goes_on, returns, call,
  stream_data, after_start, out_data, out_bucket, out_buckets, filter_out_proto, buffered_body,
  append_body, finish_response,
}

-- Whether a head was accepted.
abbrev pub has_started : List StreamCall → Bool
has_started [] = false
has_started (starts b ∷ calls) = b || has_started calls
has_started (starts_error b ∷ calls) = b || has_started calls
has_started (appends bs ∷ calls) = has_started calls
has_started (completes ∷ calls) = has_started calls

-- Each append comes after a head that was accepted.
abbrev pub IsOrdered : List StreamCall → Type 0
IsOrdered [] = Unit {0}
IsOrdered (starts b ∷ calls) = IsOrdered calls
IsOrdered (starts_error b ∷ calls) = IsOrdered calls
IsOrdered (appends bs ∷ calls) = (has_started calls ≡ true) × IsOrdered calls
IsOrdered (completes ∷ calls) = IsOrdered calls

stream_data-IsOrdered :
    (a : Answers) (read : Option Bytes) (s : Sending)
    → has_started s.calls ≡ true
    → IsOrdered s.calls
    → IsOrdered (stream_data a read s).1.calls
unfolding stream_data
stream_data-IsOrdered a none s h o = o
stream_data-IsOrdered a (some []) s h o = o
stream_data-IsOrdered a (some (b ∷ bs)) s h o = (h, o)

after_start-IsOrdered :
    (a : Answers) (rest : Sending → Step × Sending) (s : Sending)
    → ((t : Sending) → has_started t.calls ≡ true → IsOrdered t.calls → IsOrdered (rest t).1.calls)
    → IsOrdered s.calls
    → IsOrdered (after_start a rest s).1.calls
after_start-IsOrdered a rest s keeps o = elim (Bool-cases a.start_ok) [
  | inl begun ↦ rw begun (keeps (call (starts true) s) refl o)
  | inr failing ↦ rw failing o
]

out_data-IsOrdered :
    (r : Request) (a : Answers) (read : Option Bytes) (s : Sending)
    → IsOrdered s.calls
    → IsOrdered (out_data r a read s).1.calls
unfolding out_data
out_data-IsOrdered r a read s o = elim (Bool-cases r.header_only) [
  | inl bare ↦ rw (bare, out_data) o
  | inr full ↦ elim (Bool-cases r.streaming) [
    | inl streams ↦
        rw (full, streams, out_data)
          (after_start-IsOrdered a (stream_data a read) s (stream_data-IsOrdered a read) o)
    | inr buffers ↦ rw (full, buffers, out_data) o
  ]
]

out_bucket-IsOrdered :
    (r : Request) (a : Answers) (b : OutBucket) (s : Sending)
    → IsOrdered s.calls
    → IsOrdered (out_bucket r a b s).1.calls
unfolding out_bucket
out_bucket-IsOrdered r a error s o = o
out_bucket-IsOrdered r a (data_bucket read) s o = out_data-IsOrdered r a read s o
out_bucket-IsOrdered r a metadata s o = o
out_bucket-IsOrdered r a end_of_stream s o = elim (Bool-cases r.streaming) [
  | inl streams ↦
      rw (streams, out_bucket)
        (after_start-IsOrdered a (λ t. (goes_on, call completes t)) s (λ t h k. k) o)
  | inr buffers ↦ rw (buffers, out_bucket) o
]
out_bucket-IsOrdered r a flush s o = elim (Bool-cases r.streaming) [
  | inl streams ↦
      rw (streams, out_bucket) (after_start-IsOrdered a (λ t. (goes_on, t)) s (λ t h k. k) o)
  | inr buffers ↦ rw (buffers, out_bucket) o
]

out_buckets-IsOrdered :
    (r : Request) (bb : List (Answers × OutBucket)) (s : Sending)
    → IsOrdered s.calls
    → IsOrdered (out_buckets r bb s).1.calls
unfolding out_buckets
out_buckets-IsOrdered r [] s o = o
out_buckets-IsOrdered r ((a, b) ∷ bb) s o =
    step-IsOrdered (out_bucket r a b s).0
      (out_buckets-IsOrdered r bb (out_bucket r a b s).1 (out_bucket-IsOrdered r a b s o))
  where
    step-IsOrdered :
        (step : Step)
        → IsOrdered (out_buckets r bb (out_bucket r a b s).1).1.calls
        → IsOrdered
            (elim step as (λ x. Passed × Sending) [
              | goes_on ↦ out_buckets r bb (out_bucket r a b s).1
              | returns p ↦ (p, (out_bucket r a b s).1)
            ]).1.calls
    step-IsOrdered goes_on k = k
    step-IsOrdered (returns p) k = out_bucket-IsOrdered r a b s o

pub filter_out_proto-IsOrdered :
    (r : Request) (bb : List (Answers × OutBucket)) (s : Sending)
    → IsOrdered s.calls
    → IsOrdered (filter_out_proto r bb s).1.calls
unfolding filter_out_proto
filter_out_proto-IsOrdered r bb s o = elim (Bool-cases r.is_main) [
  | inl main ↦ rw (main, filter_out_proto) (out_buckets-IsOrdered r bb s o)
  | inr other ↦ rw (other, filter_out_proto) o
]

append_body-IsOrdered :
    (start_ok : Bool) (body : Bytes) (s : Sending)
    → (start_ok ≡ true → has_started s.calls ≡ true)
    → IsOrdered s.calls
    → IsOrdered (append_body start_ok body s).calls
append_body-IsOrdered start_ok [] s h o = o
append_body-IsOrdered true (b ∷ bs) s h o = (h refl, o)
append_body-IsOrdered false (b ∷ bs) s h o = o

-- The head of a response, or of the error response.
abbrev head_call : Bool → Bool → StreamCall
head_call large start_ok = if large then starts_error start_ok else starts start_ok

head_call-started :
    (large start_ok : Bool) (calls : List StreamCall)
    → start_ok ≡ true
    → has_started (head_call large start_ok ∷ calls) ≡ true
head_call-started true start_ok calls e = rw e refl
head_call-started false start_ok calls e = rw e refl

head_call-IsOrdered :
    (large start_ok : Bool) (calls : List StreamCall)
    → IsOrdered calls
    → IsOrdered (head_call large start_ok ∷ calls)
head_call-IsOrdered true start_ok calls o = o
head_call-IsOrdered false start_ok calls o = o

finish_response-IsOrdered :
    (r : Request) (a : Answers) (s : Sending)
    → IsOrdered s.calls
    → IsOrdered (finish_response r a s).calls
unfolding finish_response
finish_response-IsOrdered r a s o =
    let large = s.capture.response_too_large in
    append_body-IsOrdered a.start_ok (buffered_body r s.capture)
      (call (head_call large a.start_ok) s) (head_call-started large a.start_ok s.calls)
      (head_call-IsOrdered large a.start_ok s.calls o)

-- The brigades of a response, one call of the filter for each, and then the end of the worker.
unfoldable pub send_response :
    Request → List (List (Answers × OutBucket)) → Answers → Sending → Sending
unfolding filter_out_proto finish_response
send_response r [] a s = finish_response r a s
send_response r (bb ∷ bbs) a s = send_response r bbs a (filter_out_proto r bb s).1

-- Whatever brigades come and whatever the calls return, each append to the response queue comes
-- after a head that was accepted, where that is so of the calls before.
pub send_response-IsOrdered :
    (r : Request) (bbs : List (List (Answers × OutBucket))) (a : Answers) (s : Sending)
    → IsOrdered s.calls
    → IsOrdered (send_response r bbs a s).calls
unfolding send_response
send_response-IsOrdered r [] a s o = finish_response-IsOrdered r a s o
send_response-IsOrdered r (bb ∷ bbs) a s o =
    send_response-IsOrdered r bbs a (filter_out_proto r bb s).1
      (filter_out_proto-IsOrdered r bb s o)
