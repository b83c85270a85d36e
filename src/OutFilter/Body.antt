-- ===== src/OutFilter/Body.antt =====
-- The body that a client gets, streamed or buffered.
use mod_http.Common.{
  ℕ, ◌≡◌, refl, Bool, true, false, none, some, List, [], ◌∷◌, ◌++◌, Bytes, ap, sym, ◌∙◌, map,
}
use mod_http.Filter.Capture.{capture_all}
use mod_http.OutFilter.{
  OutBucket, error, data_bucket, end_of_stream, flush, metadata, Answers, StreamCall, starts,
  starts_error, appends, completes, Sending, Request, Passed, ok, Step, goes_on, returns, call,
  stream_data, out_data, out_bucket, out_buckets, filter_out_proto, finish_response,
}
use mod_http.OutFilter.Calls.{send_response}

-- Every call succeeds.
abbrev pub all_ok : Answers
all_ok = record { start_ok = true; append_ok = true }

abbrev pub answered : List OutBucket → List (Answers × OutBucket)
answered [] = []
answered (b ∷ bb) = (all_ok, b) ∷ answered bb

-- No error bucket, and no bucket of data that cannot be read.
abbrev pub is_served : OutBucket → Bool
is_served error = false
is_served (data_bucket none) = false
is_served (data_bucket (some bs)) = true
is_served end_of_stream = true
is_served flush = true
is_served metadata = true

abbrev pub AllServed : List OutBucket → Type 0
AllServed [] = Unit {0}
AllServed (b ∷ bb) = (is_served b ≡ true) × AllServed bb

abbrev pub bytes_in : OutBucket → List Bytes
bytes_in error = []
bytes_in (data_bucket none) = []
bytes_in (data_bucket (some bs)) = bs ∷ []
bytes_in end_of_stream = []
bytes_in flush = []
bytes_in metadata = []

abbrev pub flatten : List (List OutBucket) → List OutBucket
flatten [] = []
flatten (bb ∷ bbs) = bb ++ flatten bbs

-- The data of the buckets.
abbrev pub data_of : List OutBucket → List Bytes
data_of [] = []
data_of (b ∷ bb) = bytes_in b ++ data_of bb

-- The body that the calls append.
abbrev pub body_of : List StreamCall → Bytes
body_of [] = []
body_of (appends bs ∷ calls) = body_of calls ++ bs
body_of (starts b ∷ calls) = body_of calls
body_of (starts_error b ∷ calls) = body_of calls
body_of (completes ∷ calls) = body_of calls

-- What a bucket does to a streaming response.
abbrev pub streamed : OutBucket → Sending → Sending
streamed error s = s
streamed (data_bucket none) s = s
streamed (data_bucket (some [])) s = call (starts true) s
streamed (data_bucket (some (b ∷ bs))) s = call (appends (b ∷ bs)) (call (starts true) s)
streamed end_of_stream s = call completes (call (starts true) s)
streamed flush s = call (starts true) s
streamed metadata s = s

-- What a bucket does to a buffered response.
abbrev pub buffered : ℕ → OutBucket → Sending → Sending
buffered limit b s = record s { capture = capture_all limit (bytes_in b) s.capture }

abbrev pub each : (OutBucket → Sending → Sending) → List OutBucket → Sending → Sending
each next [] s = s
each next (b ∷ bb) s = each next bb (next b s)

AllServed-split :
    (bb more : List OutBucket) → AllServed (bb ++ more) → AllServed bb × AllServed more
AllServed-split [] more g = (tt, g)
AllServed-split (b ∷ bb) more (g, gs) =
    let (here, further) = AllServed-split bb more gs in ((g, here), further)

each-append :
    (next : OutBucket → Sending → Sending) (bb more : List OutBucket) (s : Sending)
    → each next (bb ++ more) s ≡ each next more (each next bb s)
each-append next [] more s = refl
each-append next (b ∷ bb) more s = each-append next bb more (next b s)

pub out_bucket-streamed :
    (r : Request) (b : OutBucket) (s : Sending)
    → r.header_only ≡ false
    → r.streaming ≡ true
    → is_served b ≡ true
    → out_bucket r all_ok b s ≡ (goes_on, streamed b s)
unfolding out_bucket out_data stream_data
out_bucket-streamed r error s h t g = cc
out_bucket-streamed r (data_bucket none) s h t g = cc
out_bucket-streamed r (data_bucket (some [])) s h t g = rw (h, t) refl
out_bucket-streamed r (data_bucket (some (b ∷ bs))) s h t g = rw (h, t) refl
out_bucket-streamed r end_of_stream s h t g = rw t refl
out_bucket-streamed r flush s h t g = rw t refl
out_bucket-streamed r metadata s h t g = refl

pub out_bucket-buffered :
    (r : Request) (b : OutBucket) (s : Sending)
    → r.header_only ≡ false
    → r.streaming ≡ false
    → is_served b ≡ true
    → out_bucket r all_ok b s ≡ (goes_on, buffered r.max_response_body_size b s)
unfolding out_bucket out_data capture_all
out_bucket-buffered r error s h t g = cc
out_bucket-buffered r (data_bucket none) s h t g = cc
out_bucket-buffered r (data_bucket (some bs)) s h t g = rw (h, t) refl
out_bucket-buffered r end_of_stream s h t g = rw t refl
out_bucket-buffered r flush s h t g = rw t refl
out_bucket-buffered r metadata s h t g = refl

module _ (r : Request) (next : OutBucket → Sending → Sending)
    (goes : (b : OutBucket) (s : Sending)
      → is_served b ≡ true
      → out_bucket r all_ok b s ≡ (goes_on, next b s)) where
  resume : List OutBucket → Step × Sending → Passed × Sending
  resume bb (step, t) =
      let rest = out_buckets r (answered bb) t in elim step [ goes_on ↦ rest | returns p ↦ (p, t) ]

  out_buckets-each :
      (bb : List OutBucket) (s : Sending)
      → AllServed bb
      → out_buckets r (answered bb) s ≡ (ok, each next bb s)
  unfolding out_buckets resume
  out_buckets-each [] s g = refl
  out_buckets-each (b ∷ bb) s (g, gs) =
      ap (resume bb) (goes b s g) ∙ out_buckets-each bb (next b s) gs

  filter_out_proto-each :
      (bb : List OutBucket) (s : Sending)
      → r.is_main ≡ true
      → AllServed bb
      → (filter_out_proto r (answered bb) s).1 ≡ each next bb s
  unfolding filter_out_proto
  filter_out_proto-each bb s main g = rw (main, out_buckets-each bb s g) refl

  -- The brigades of a response in order.
  pub send_response-each :
      (bbs : List (List OutBucket)) (s : Sending)
      → r.is_main ≡ true
      → AllServed (flatten bbs)
      → send_response r (map answered bbs) all_ok s
        ≡ finish_response r all_ok (each next (flatten bbs) s)
  unfolding send_response
  send_response-each [] s main g = refl
  send_response-each (bb ∷ bbs) s main g =
      let (here, further) = AllServed-split bb (flatten bbs) g in
      ap (send_response r (map answered bbs) all_ok) (filter_out_proto-each bb s main here)
      ∙ send_response-each bbs (each next bb s) main further
      ∙ ap (finish_response r all_ok) (sym (each-append next bb (flatten bbs) s))
