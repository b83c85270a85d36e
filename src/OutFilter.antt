-- ===== src/OutFilter.antt =====
-- The output filter `h3_filter_out_proto` of mod_http3/src/h3_filter.c as httpd 2.4 builds it
-- (H3_STABLE), and the end of `stream_worker` of mod_http3/src/h3_request.c, which sends what the
-- filter has buffered. The calls that they make on the response queue are recorded; what the calls
-- return is a parameter. `h3_response_finalize` touches the head only.
pub mod Calls
pub mod Body
pub mod Same
mod Tests
use mod_http.Common.{
  ℕ, Bool, true, false, not, ◌&&◌, ◌||◌, Option, none, some, List, [], ◌∷◌, Bytes, if◌then◌else◌,
}
use mod_http.Filter.{CaptureCtx, capture_body_bucket}

-- A bucket, with what `apr_bucket_read` gives for one of data, `none` where it fails.
pub data OutBucket : Type 0 where
  error : OutBucket
  data_bucket : Option Bytes → OutBucket
  end_of_stream flush metadata : OutBucket

-- What `h3_response_start` and `h3_stream_response_append` return for a bucket: APR_SUCCESS or not.
pub record Answers : Type 0 where
  pub start_ok : Bool
  pub append_ok : Bool

-- `h3_response_start` and whether it succeeds, the submission of the head of the error response and
-- whether it succeeds, `h3_stream_response_append` and `h3_stream_response_complete`.
pub data StreamCall : Type 0 where
  starts : Bool → StreamCall
  starts_error : Bool → StreamCall
  appends : Bytes → StreamCall
  completes : StreamCall

-- The buffered response of the context, and the calls made, latest first.
pub record Sending : Type 0 where
  pub capture : CaptureCtx
  pub calls : List StreamCall

-- What the filter tests of the request: `ctx && r->main == NULL`, `ctx->streaming`,
-- `r->header_only || AP_STATUS_IS_HEADER_ONLY(r->status)`, and `h3_max_response_body_size`.
pub record Request : Type 0 where
  pub is_main : Bool
  pub streaming : Bool
  pub header_only : Bool
  pub max_response_body_size : ℕ

-- What the filter returns: OK after the whole brigade, OK after `ap_send_error_response`, the error
-- of a call, or what the next filter returns.
pub data Passed : Type 0 where
  ok error_sent failed passed_on : Passed

-- What a bucket comes to: the loop goes on, or the filter returns.
pub data Step : Type 0 where
  goes_on : Step
  returns : Passed → Step

abbrev pub call : StreamCall → Sending → Sending
call c s = record s { calls = c ∷ s.calls }

-- A bucket of data in a streaming response, after the start.
pub stream_data : Answers → Option Bytes → Sending → Step × Sending
stream_data a none s = (returns failed, s)
stream_data a (some []) s = (goes_on, s)
stream_data a (some (b ∷ bs)) s =
    (if a.append_ok then goes_on else returns failed, call (appends (b ∷ bs)) s)

-- A start, and what follows where it succeeds.
abbrev pub after_start : Answers → (Sending → Step × Sending) → Sending → Step × Sending
after_start a rest s =
    if a.start_ok then rest (call (starts true) s) else (returns failed, call (starts false) s)

pub out_data : Request → Answers → Option Bytes → Sending → Step × Sending
unfolding stream_data
out_data r a read s =
    if r.header_only
    then (goes_on, s)
    else if r.streaming
    then after_start a (stream_data a read) s
    else (
      goes_on,
      record s { capture = capture_body_bucket r.max_response_body_size read s.capture },
    )

pub out_bucket : Request → Answers → OutBucket → Sending → Step × Sending
unfolding out_data
out_bucket r a error s = (returns error_sent, s)
out_bucket r a (data_bucket read) s = out_data r a read s
out_bucket r a end_of_stream s =
    if r.streaming then after_start a (λ t. (goes_on, call completes t)) s else (goes_on, s)
out_bucket r a flush s = if r.streaming then after_start a (λ t. (goes_on, t)) s else (goes_on, s)
out_bucket r a metadata s = (goes_on, s)

-- The loop over the brigade.
pub out_buckets : Request → List (Answers × OutBucket) → Sending → Passed × Sending
unfolding out_bucket
out_buckets r [] s = (ok, s)
out_buckets r ((a, b) ∷ bb) s =
    let (step, t) = out_bucket r a b s in
    let rest = out_buckets r bb t in elim step [ goes_on ↦ rest | returns p ↦ (p, t) ]

-- `h3_filter_out_proto`
pub filter_out_proto : Request → List (Answers × OutBucket) → Sending → Passed × Sending
unfolding out_buckets
filter_out_proto r bb s = if r.is_main then out_buckets r bb s else (passed_on, s)

abbrev pub oversized_msg : Bytes
oversized_msg =
    b'R' ∷ b'e' ∷ b's' ∷ b'p' ∷ b'o' ∷ b'n' ∷ b's' ∷ b'e' ∷ 0x20 ∷ b'e' ∷ b'x' ∷ b'c' ∷ b'e' ∷ b'e'
    ∷ b'd' ∷ b'e' ∷ b'd' ∷ 0x20 ∷ b'H' ∷ b'3' ∷ b'M' ∷ b'a' ∷ b'x' ∷ b'R' ∷ b'e' ∷ b's' ∷ b'p'
    ∷ b'o' ∷ b'n' ∷ b's' ∷ b'e' ∷ b'B' ∷ b'o' ∷ b'd' ∷ b'y' ∷ b'S' ∷ b'i' ∷ b'z' ∷ b'e' ∷ 0x0a ∷ []

-- `buffered_body`
abbrev pub buffered_body : Request → CaptureCtx → Bytes
buffered_body r c =
    if c.response_too_large then oversized_msg else if r.streaming then [] else c.dataheap

abbrev pub append_body : Bool → Bytes → Sending → Sending
append_body start_ok [] s = s
append_body start_ok (b ∷ bs) s = if start_ok then call (appends (b ∷ bs)) s else s

-- What `stream_worker` does after `ap_process_request`.
pub finish_response : Request → Answers → Sending → Sending
finish_response r a s =
    let head =
      if s.capture.response_too_large then starts_error a.start_ok else starts a.start_ok in
    call completes (append_body a.start_ok (buffered_body r s.capture) (call head s))
