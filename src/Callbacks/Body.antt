-- ===== src/Callbacks/Body.antt =====
-- The request body buffer: `on_recv_data` writes inside it, and keeps exactly what arrives up to
-- the limit.
use mod_http.Common.{
  ℕ, ◌+◌, ◌≤◌, ◌<◌, ◌≡◌, refl, true, false, List, [], ◌∷◌, ◌++◌, Bytes, ◌==◌, if◌then◌else◌, arith,
  length, length-append, append_assoc, append-nil, ap, ◌∙◌,
}
use native.Mathlib.Decide.{dec_lt}
use mod_http.Stream.{Stream, request_body_len}
use mod_http.Buffer.{body_buf_init_cap, double_until-enough}
use mod_http.Config.{max_request_body_size_max}
use mod_http.Callbacks.{grown_capacity, on_recv_data}

-- The bytes lie inside the buffer, and the buffer is within the limit.
pub record BodyIsValid (limit : ℕ) (h : Stream) : Type 0 where
  pub inside : request_body_len h ≤ h.request_body_capacity
  pub limited : h.request_body_capacity ≤ limit
  pub unread : h.request_body_offset ≤ request_body_len h

grown_capacity-bounds :
    (limit capacity needed : ℕ)
    → limit ≤ max_request_body_size_max
    → needed ≤ limit
    → (needed ≤ grown_capacity limit capacity needed)
      × (grown_capacity limit capacity needed ≤ limit)
unfolding grown_capacity
grown_capacity-bounds limit capacity needed small h =
    ground
      (arith, double_until-enough (if capacity == 0 then body_buf_init_cap else capacity) needed)

-- For every limit that the directive accepts, a valid buffer stays valid: the data lands inside it,
-- and it never outgrows the limit.
pub on_recv_data-BodyIsValid :
    (limit : ℕ) (chunk : Bytes) (h : Stream)
    → limit ≤ max_request_body_size_max
    → BodyIsValid limit h
    → BodyIsValid limit (on_recv_data limit chunk h)
unfolding on_recv_data
on_recv_data-BodyIsValid limit chunk h small v = ground (
  arith,
  length-append h.request_body chunk,
  grown_capacity-bounds limit h.request_body_capacity (request_body_len h + length chunk) small,
)

-- The chunks of a body, in the order in which nghttp3 hands them over.
pub recv_all : ℕ → List Bytes → Stream → Stream
recv_all limit [] h = h
recv_all limit (chunk ∷ chunks) h = recv_all limit chunks (on_recv_data limit chunk h)

abbrev pub joined : List Bytes → Bytes
joined [] = []
joined (chunk ∷ chunks) = chunk ++ joined chunks

recv_all-overflow :
    (limit : ℕ) (chunks : List Bytes) (h : Stream)
    → h.request_body_overflow ≡ true
    → (recv_all limit chunks h).request_body_overflow ≡ true
unfolding recv_all
recv_all-overflow limit [] h o = o
recv_all-overflow limit (chunk ∷ chunks) h o =
    recv_all-overflow limit chunks (on_recv_data limit chunk h)
      (unfold on_recv_data in ground arith)

on_recv_data-checks :
    (limit : ℕ) (chunk : Bytes) (h : Stream)
    → ((on_recv_data limit chunk h).headers_too_large ≡ h.headers_too_large)
      × ((on_recv_data limit chunk h).body_truncated ≡ h.body_truncated)
unfolding on_recv_data
on_recv_data-checks limit chunk h = (ground arith, ground arith)

-- What else the access checker looks at is not changed.
pub recv_all-checks :
    (limit : ℕ) (chunks : List Bytes) (h : Stream)
    → ((recv_all limit chunks h).headers_too_large ≡ h.headers_too_large)
      × ((recv_all limit chunks h).body_truncated ≡ h.body_truncated)
unfolding recv_all
recv_all-checks limit [] h = (refl, refl)
recv_all-checks limit (chunk ∷ chunks) h =
    let (large, cut) = on_recv_data-checks limit chunk h in
    let (large', cut') = recv_all-checks limit chunks (on_recv_data limit chunk h) in
    (large' ∙ large, cut' ∙ cut)

nil-of-length : (bs : Bytes) → length bs ≡ 0 → bs ≡ []
nil-of-length [] e = refl
nil-of-length (b ∷ bs) e = absurd (omega arith)

on_recv_data-fits :
    (limit : ℕ) (chunk : Bytes) (h : Stream)
    → h.is_bidi ≡ true
    → h.request_body_overflow ≡ false
    → request_body_len h + length chunk ≤ limit
    → let after = on_recv_data limit chunk h in
      (after.request_body ≡ h.request_body ++ chunk)
      × (after.request_body_overflow ≡ false)
      × (after.is_bidi ≡ true)
unfolding on_recv_data
on_recv_data-fits limit chunk h b o fits =
    ground (arith, nil-of-length chunk, append-nil h.request_body)

on_recv_data-exceeds :
    (limit : ℕ) (chunk : Bytes) (h : Stream)
    → h.is_bidi ≡ true
    → h.request_body_overflow ≡ false
    → request_body_len h ≤ limit
    → limit < request_body_len h + length chunk
    → (on_recv_data limit chunk h).request_body_overflow ≡ true
unfolding on_recv_data
on_recv_data-exceeds limit chunk h b o room more = ground arith

-- However the rest of a request body is cut into chunks, on a request stream without an overflow
-- whose buffer is within the limit, it is buffered whole and in order if the whole fits the limit,
-- and the overflow is recorded if it does not.
pub recv_all_lem :
    (limit : ℕ) (chunks : List Bytes) (h : Stream)
    → h.is_bidi ≡ true
    → h.request_body_overflow ≡ false
    → request_body_len h ≤ limit
    → (request_body_len h + length (joined chunks) ≤ limit
        → ((recv_all limit chunks h).request_body ≡ h.request_body ++ joined chunks)
          × ((recv_all limit chunks h).request_body_overflow ≡ false))
      × (limit < request_body_len h + length (joined chunks)
          → (recv_all limit chunks h).request_body_overflow ≡ true)
unfolding recv_all
recv_all_lem limit [] h b o room = (λ fits. (rw append-nil, o), λ more. absurd (omega arith))
recv_all_lem limit (chunk ∷ chunks) h b o room =
    let both = length-append chunk (joined chunks) in
    elim (dec_lt limit (request_body_len h + length chunk)) [
      | yes more ↦ (
        λ fits. absurd (omega (arith, both)),
        λ over.
            recv_all-overflow limit chunks (on_recv_data limit chunk h)
              (on_recv_data-exceeds limit chunk h b o room more),
      )
      | no fits ↦
          let (e, o', b') = on_recv_data-fits limit chunk h b o (omega arith) in
          let sum : request_body_len (on_recv_data limit chunk h)
              ≡ request_body_len h + length chunk =
            ap length e ∙ length-append h.request_body chunk in
          let rest = recv_all_lem limit chunks (on_recv_data limit chunk h) b' o' (omega arith) in
          (
            λ all.
                let (body, kept) = rest.0 (omega (arith, both)) in
                (
                  body
                      ∙ ap (λ bs. bs ++ joined chunks) e
                      ∙ append_assoc h.request_body chunk (joined chunks),
                  kept,
                ),
            λ over. rest.1 (omega (arith, both)),
          )
    ]
