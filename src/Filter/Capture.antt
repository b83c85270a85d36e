-- ===== src/Filter/Capture.antt =====
-- The limit on a buffered response, and the buffer that holds it.
use mod_http.Common.{
  ℕ, ◌+◌, ◌*◌, ◌%◌, ◌^◌, ◌≤◌, ◌<◌, ◌≡◌, ap, ◌∙◌, sym, true, false, Option, none, some, List, [],
  ◌∷◌, ◌++◌, Bytes, ◌==◌, if◌then◌else◌, arith, length, length-append, append-nil, append_assoc,
}
use native.Mathlib.Decide.{dec_lt}
use mod_http.Config.{max_response_body_size_max}
use mod_http.Buffer.{body_buf_init_cap, double_until-enough}
use mod_http.Filter.{CaptureCtx, capture_body_bucket}

-- The bytes lie inside the buffer and within the limit.
pub record HeapIsValid (limit : ℕ) (ctx : CaptureCtx) : Type 0 where
  pub inside : length ctx.dataheap ≤ ctx.dataheapcap
  pub limited : length ctx.dataheap ≤ limit

-- For every limit that the directive accepts, a valid buffer stays valid: a captured bucket lands
-- inside it, and no more than the limit is ever held.
pub capture_body_bucket-HeapIsValid :
    (limit : ℕ) (bucket : Option Bytes) (ctx : CaptureCtx)
    → limit ≤ max_response_body_size_max
    → HeapIsValid limit ctx
    → HeapIsValid limit (capture_body_bucket limit bucket ctx)
unfolding capture_body_bucket
capture_body_bucket-HeapIsValid limit none ctx small v = v
capture_body_bucket-HeapIsValid limit (some []) ctx small v = v
capture_body_bucket-HeapIsValid limit (some (b ∷ bs)) ctx small v = ground (
  arith,
  length-append ctx.dataheap (b ∷ bs),
  double_until-enough
      (if ctx.dataheapcap == 0 then body_buf_init_cap else ctx.dataheapcap * 2 % 2 ^ 64)
      (length ctx.dataheap + length (b ∷ bs)),
)

-- The buckets of a response in order.
unfoldable pub capture_all : ℕ → List Bytes → CaptureCtx → CaptureCtx
capture_all limit [] ctx = ctx
capture_all limit (bs ∷ rest) ctx = capture_all limit rest (capture_body_bucket limit (some bs) ctx)

abbrev pub joined : List Bytes → Bytes
joined [] = []
joined (bs ∷ rest) = bs ++ joined rest

capture_body_bucket-fits :
    (limit : ℕ) (bs : Bytes) (ctx : CaptureCtx)
    → ctx.response_too_large ≡ false
    → length ctx.dataheap + length bs ≤ limit
    → ((capture_body_bucket limit (some bs) ctx).dataheap ≡ ctx.dataheap ++ bs)
      × ((capture_body_bucket limit (some bs) ctx).response_too_large ≡ false)
unfolding capture_body_bucket
capture_body_bucket-fits limit [] ctx o fits = (sym (append-nil ctx.dataheap), o)
capture_body_bucket-fits limit (b ∷ bs) ctx o fits = ground arith

capture_body_bucket-exceeds :
    (limit : ℕ) (bs : Bytes) (ctx : CaptureCtx)
    → length ctx.dataheap ≤ limit
    → limit < length ctx.dataheap + length bs
    → (capture_body_bucket limit (some bs) ctx).response_too_large ≡ true
unfolding capture_body_bucket
capture_body_bucket-exceeds limit [] ctx room more = absurd (omega arith)
capture_body_bucket-exceeds limit (b ∷ bs) ctx room more = ground arith

capture_all-too_large :
    (limit : ℕ) (buckets : List Bytes) (ctx : CaptureCtx)
    → ctx.response_too_large ≡ true
    → (capture_all limit buckets ctx).response_too_large ≡ true
unfolding capture_all
capture_all-too_large limit [] ctx o = o
capture_all-too_large limit (bs ∷ rest) ctx o =
    capture_all-too_large limit rest (capture_body_bucket limit (some bs) ctx) (stays bs)
  where
    stays : (bs : Bytes) → (capture_body_bucket limit (some bs) ctx).response_too_large ≡ true
    stays [] = unfold capture_body_bucket in o
    stays (b ∷ bs) = unfold capture_body_bucket in ground arith

-- However the rest of a response is cut into buckets, where what is held is within the limit and not
-- marked too large, it is captured whole and in order if it fits the limit,
-- and is marked too large if it does not.
pub capture_all_lem :
    (limit : ℕ) (buckets : List Bytes) (ctx : CaptureCtx)
    → ctx.response_too_large ≡ false
    → length ctx.dataheap ≤ limit
    → (length ctx.dataheap + length (joined buckets) ≤ limit
        → ((capture_all limit buckets ctx).dataheap ≡ ctx.dataheap ++ joined buckets)
          × ((capture_all limit buckets ctx).response_too_large ≡ false))
      × (limit < length ctx.dataheap + length (joined buckets)
          → (capture_all limit buckets ctx).response_too_large ≡ true)
unfolding capture_all
capture_all_lem limit [] ctx o room =
    (λ fits. (sym (append-nil ctx.dataheap), o), λ more. absurd (omega arith))
capture_all_lem limit (bs ∷ rest) ctx o room =
    let both = length-append bs (joined rest) in
    let next = capture_body_bucket limit (some bs) ctx in
    elim (dec_lt limit (length ctx.dataheap + length bs)) [
      | yes more ↦ (
        λ fits. absurd (omega (arith, both)),
        λ over.
            capture_all-too_large limit rest next
              (capture_body_bucket-exceeds limit bs ctx room more),
      )
      | no fits ↦
          let (e, o') = capture_body_bucket-fits limit bs ctx o (omega arith) in
          let sum : length next.dataheap ≡ length ctx.dataheap + length bs =
            ap length e ∙ length-append ctx.dataheap bs in
          let ih = capture_all_lem limit rest next o' (omega arith) in
          (
            λ all.
                let (heap, kept) = ih.0 (omega (arith, both)) in
                (
                  heap ∙ ap (λ h. h ++ joined rest) e ∙ append_assoc ctx.dataheap bs (joined rest),
                  kept,
                ),
            λ over. ih.1 (omega (arith, both)),
          )
    ]
