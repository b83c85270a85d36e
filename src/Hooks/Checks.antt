-- ===== src/Hooks/Checks.antt =====
-- What the access checker refuses, of what the callbacks made of a request.
use mod_http.Common.{
  ℕ, ◌+◌, ◌≤◌, ◌<◌, ◌≡◌, refl, ap, ◌∙◌, true, false, some, List, Bytes, ◌++◌, length, if◌then◌else◌,
}
use mod_http.Stream.{Stream, request_body_len}
use mod_http.Callbacks.Body.{recv_all, joined, recv_all_lem, recv_all-checks}
use mod_http.Hooks.{Apr, HookRequest, ok, http, check_stream, access_checker}

-- A request of HTTP/3 whose stream is `h`.
abbrev pub of_stream : {apr : Apr} → HookRequest apr → Stream → HookRequest apr
of_stream r h = record r { is_h3 = true; stream = some h }

checker-refuses :
    {apr : Apr} (r : HookRequest apr) (h : Stream)
    → (h.headers_too_large ≡ true → access_checker (of_stream r h) ≡ http 431)
      × (h.headers_too_large ≡ false
          → h.request_body_overflow ≡ true
          → access_checker (of_stream r h) ≡ http 413)
      × (h.headers_too_large ≡ false
          → h.request_body_overflow ≡ false
          → access_checker (of_stream r h) ≡ (if h.body_truncated then http 400 else ok))
unfolding access_checker check_stream
checker-refuses r h = (
  (λ large. rw (large, check_stream) refl),
  (λ small over. rw (small, over, check_stream) refl),
  (λ small fits. rw (small, fits, check_stream) refl),
)

-- However the rest of a request body is cut into chunks, on a request stream without an overflow
-- whose buffer is within the limit: with header fields beyond the limits the request is refused with
-- 431; else with 413 exactly if the whole body is beyond the limit on bodies; else with 400 if the
-- body was cut off; and a request that passes has its body whole and in order.
pub body_is_checked :
    {apr : Apr} (r : HookRequest apr) (limit : ℕ) (chunks : List Bytes) (h : Stream)
    → h.is_bidi ≡ true
    → h.request_body_overflow ≡ false
    → request_body_len h ≤ limit
    → let status = access_checker (of_stream r (recv_all limit chunks h)) in
      (h.headers_too_large ≡ true → status ≡ http 431)
      × (h.headers_too_large ≡ false
          → limit < request_body_len h + length (joined chunks)
          → status ≡ http 413)
      × (h.headers_too_large ≡ false
          → request_body_len h + length (joined chunks) ≤ limit
          → (status ≡ (if h.body_truncated then http 400 else ok))
            × ((recv_all limit chunks h).request_body ≡ h.request_body ++ joined chunks))
body_is_checked r limit chunks h bidi fresh room =
    let g = recv_all limit chunks h in
    let (large, cut) = recv_all-checks limit chunks h in
    let (in_full, over) = recv_all_lem limit chunks h bidi fresh room in
    let (c431, c413, rest) = checker-refuses r g in
    (
      (λ e. c431 (large ∙ e)),
      (λ e more. c413 (large ∙ e) (over more)),
      (λ e fits.
          let (body, none_over) = in_full fits in
          (rest (large ∙ e) none_over ∙ ap (λ b. if b then http 400 else ok) cut, body)),
    )
