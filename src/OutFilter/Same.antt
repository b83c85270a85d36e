-- ===== src/OutFilter/Same.antt =====
-- A streamed response and a buffered one have the same body.
use mod_http.Common.{
  ℕ, ◌≤◌, ◌<◌, ◌≡◌, refl, Bool, true, false, none, some, List, [], ◌∷◌, ◌++◌, Bytes, append_assoc,
  append-nil, if◌then◌else◌, arith, ap, sym, ◌∙◌, map, length, ◌⊎◌, inl, inr,
}
use mod_http.Filter.{CaptureCtx, capture_body_bucket}
use mod_http.Filter.Capture.{capture_all, joined, capture_all_lem}
use mod_http.OutFilter.{
  OutBucket, error, data_bucket, end_of_stream, flush, metadata, starts, starts_error, appends,
  completes, Sending, Request, call, append_body, finish_response, oversized_msg,
}
use mod_http.OutFilter.Calls.{send_response}
use mod_http.OutFilter.Body.{
  all_ok, answered, flatten, AllServed, bytes_in, data_of, body_of, streamed, buffered, each,
  out_bucket-streamed, out_bucket-buffered, send_response-each,
}

-- A context that has captured nothing, and no calls.
abbrev pub unsent : Sending
unsent = record {
  capture = record { dataheap = []; dataheapcap = 0; response_too_large = false };
  calls = [];
}

body_of-streamed :
    (b : OutBucket) (s : Sending)
    → body_of (streamed b s).calls ≡ body_of s.calls ++ joined (bytes_in b)
body_of-streamed error s = sym (append-nil (body_of s.calls))
body_of-streamed (data_bucket none) s = sym (append-nil (body_of s.calls))
body_of-streamed (data_bucket (some [])) s = sym (append-nil (body_of s.calls))
body_of-streamed (data_bucket (some (b ∷ bs))) s =
    ap (λ rest. body_of s.calls ++ rest) (sym (append-nil (b ∷ bs)))
body_of-streamed end_of_stream s = sym (append-nil (body_of s.calls))
body_of-streamed flush s = sym (append-nil (body_of s.calls))
body_of-streamed metadata s = sym (append-nil (body_of s.calls))

joined-append : (xs ys : List Bytes) → joined (xs ++ ys) ≡ joined xs ++ joined ys
joined-append [] ys = refl
joined-append (x ∷ xs) ys = rw (joined-append xs ys, append_assoc)

body_of-each :
    (bb : List OutBucket) (s : Sending)
    → body_of (each streamed bb s).calls ≡ body_of s.calls ++ joined (data_of bb)
body_of-each [] s = sym (append-nil (body_of s.calls))
body_of-each (b ∷ bb) s =
    body_of-each bb (streamed b s)
    ∙ ap (λ front. front ++ joined (data_of bb)) (body_of-streamed b s)
    ∙ append_assoc (body_of s.calls) (joined (bytes_in b)) (joined (data_of bb))
    ∙ ap (λ rest. body_of s.calls ++ rest) (sym (joined-append (bytes_in b) (data_of bb)))

streamed-capture : (b : OutBucket) (s : Sending) → (streamed b s).capture ≡ s.capture
streamed-capture error s = refl
streamed-capture (data_bucket none) s = refl
streamed-capture (data_bucket (some [])) s = refl
streamed-capture (data_bucket (some (b ∷ bs))) s = refl
streamed-capture end_of_stream s = refl
streamed-capture flush s = refl
streamed-capture metadata s = refl

each-streamed-capture :
    (bb : List OutBucket) (s : Sending) → (each streamed bb s).capture ≡ s.capture
each-streamed-capture [] s = refl
each-streamed-capture (b ∷ bb) s = each-streamed-capture bb (streamed b s) ∙ streamed-capture b s

capture_all-append :
    (limit : ℕ) (xs ys : List Bytes) (ctx : CaptureCtx)
    → capture_all limit (xs ++ ys) ctx ≡ capture_all limit ys (capture_all limit xs ctx)
unfolding capture_all
capture_all-append limit [] ys ctx = refl
capture_all-append limit (x ∷ xs) ys ctx =
    capture_all-append limit xs ys (capture_body_bucket limit (some x) ctx)

each-buffered :
    (limit : ℕ) (bb : List OutBucket) (s : Sending)
    → each (buffered limit) bb s ≡ record s { capture = capture_all limit (data_of bb) s.capture }
unfolding capture_all
each-buffered limit [] s = refl
each-buffered limit (b ∷ bb) s =
    each-buffered limit bb (buffered limit b s)
    ∙ ap (λ c. record s { capture = c })
        (sym (capture_all-append limit (bytes_in b) (data_of bb) s.capture))

body_of-append_body :
    (body : Bytes) (s : Sending) → body_of (append_body true body s).calls ≡ body_of s.calls ++ body
body_of-append_body [] s = sym (append-nil (body_of s.calls))
body_of-append_body (b ∷ bs) s = refl

body_of-head :
    (large : Bool) (body : Bytes) (s : Sending)
    → large ≡ false
    → body_of
        (append_body true
          (if large then oversized_msg else body)
          (call (if large then starts_error true else starts true) s)).calls
      ≡ body_of s.calls ++ body
body_of-head true body s e = cc
body_of-head false body s e = body_of-append_body body (call (starts true) s)

-- A worker's end where nothing is too large, and every call succeeds.
body_of-finish :
    (r : Request) (s : Sending)
    → s.capture.response_too_large ≡ false
    → body_of (finish_response r all_ok s).calls
      ≡ body_of s.calls ++ (if r.streaming then [] else s.capture.dataheap)
unfolding finish_response
body_of-finish r s small =
    body_of-head s.capture.response_too_large (if r.streaming then [] else s.capture.dataheap) s
      small

body_of-too_large :
    (r : Request) (s : Sending)
    → s.capture.response_too_large ≡ true
    → (finish_response r all_ok s).calls
      ≡ completes ∷ appends oversized_msg ∷ starts_error true ∷ s.calls
unfolding finish_response
body_of-too_large r s large = rw large refl

module _ (r : Request) (bbs : List (List OutBucket)) (main : r.is_main ≡ true)
    (full : r.header_only ≡ false) (served : AllServed (flatten bbs)) where
  send-streamed :
      r.streaming ≡ true
      → body_of (send_response r (map answered bbs) all_ok unsent).calls
        ≡ joined (data_of (flatten bbs))
  send-streamed streams =
      let bb = flatten bbs in
      let sent = each streamed bb unsent in
      let made =
        send_response-each r streamed (λ b s g. out_bucket-streamed r b s full streams g) bbs unsent
          main served in
      let small = ap (λ c. c.response_too_large) (each-streamed-capture bb unsent) in
      ap (λ s. body_of s.calls) made
      ∙ body_of-finish r sent small
      ∙ ap (λ b. body_of sent.calls ++ (if b then [] else sent.capture.dataheap)) streams
      ∙ append-nil (body_of sent.calls)
      ∙ body_of-each bb unsent

  send-buffered :
      r.streaming ≡ false
      → send_response r (map answered bbs) all_ok unsent
        ≡ finish_response r all_ok (record unsent {
          capture = capture_all r.max_response_body_size (data_of (flatten bbs)) unsent.capture;
        })
  send-buffered buffers =
      let limit = r.max_response_body_size in
      send_response-each r (buffered limit) (λ b s g. out_bucket-buffered r b s full buffers g) bbs
        unsent main served
      ∙ ap (finish_response r all_ok) (each-buffered limit (flatten bbs) unsent)

  send-fits :
      r.streaming ≡ false
      → length (joined (data_of (flatten bbs))) ≤ r.max_response_body_size
      → body_of (send_response r (map answered bbs) all_ok unsent).calls
        ≡ joined (data_of (flatten bbs))
  send-fits buffers fits =
      let limit = r.max_response_body_size in
      let data_read = data_of (flatten bbs) in
      let (heap, small) =
        (capture_all_lem limit data_read unsent.capture refl (omega arith)).0
          (omega (arith, fits)) in
      let held = record unsent { capture = capture_all limit data_read unsent.capture } in
      ap (λ s. body_of s.calls) (send-buffered buffers)
      ∙ body_of-finish r held small
      ∙ ap (λ b. if b then [] else held.capture.dataheap) buffers
      ∙ heap

-- The brigades of a main request that is not header-only, in which no bucket is an error and every
-- bucket of data can be read, are sent with their whole data in order as the body, where every call
-- succeeds and the response streams, or is buffered and within the limit.
pub sends_body :
    (r : Request) (bbs : List (List OutBucket))
    → r.is_main ≡ true
    → r.header_only ≡ false
    → AllServed (flatten bbs)
    → (r.streaming ≡ true)
      ⊎ ((r.streaming ≡ false)
          × (length (joined (data_of (flatten bbs))) ≤ r.max_response_body_size))
    → body_of (send_response r (map answered bbs) all_ok unsent).calls
      ≡ joined (data_of (flatten bbs))
sends_body r bbs main full served (inl streams) = send-streamed r bbs main full served streams
sends_body r bbs main full served (inr (buffers, fits)) =
    send-fits r bbs main full served buffers fits

-- Where the data of those brigades exceeds the limit of a buffered response, the error head and its
-- message are all that is sent, and the response is completed.
pub sends_error :
    (r : Request) (bbs : List (List OutBucket))
    → r.is_main ≡ true
    → r.header_only ≡ false
    → AllServed (flatten bbs)
    → r.streaming ≡ false
    → r.max_response_body_size < length (joined (data_of (flatten bbs)))
    → (send_response r (map answered bbs) all_ok unsent).calls
      ≡ completes ∷ appends oversized_msg ∷ starts_error true ∷ []
sends_error r bbs main full served buffers more =
    let limit = r.max_response_body_size in
    let data_read = data_of (flatten bbs) in
    let large =
      (capture_all_lem limit data_read unsent.capture refl (omega arith)).1 (omega (arith, more)) in
    ap (λ s. s.calls) (send-buffered r bbs main full served buffers)
    ∙ body_of-too_large r (record unsent { capture = capture_all limit data_read unsent.capture })
        large
