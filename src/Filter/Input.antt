-- ===== src/Filter/Input.antt =====
-- A handler that reads the request body gets exactly the bytes that were buffered, in order, and
-- then the end.
use mod_http.Common.{
  ℕ, zero, suc, ◌+◌, ◌-◌, ◌≤◌, ◌<◌, ◌≡◌, ◌≢◌, refl, ◌⊎◌, inl, inr, ap, ◌∙◌, sym, Bool, true, false,
  not, some, List, [], ◌∷◌, ◌++◌, Bytes, ◌&&◌, leb, ◌==◌, if◌then◌else◌, arith, length, take, drop,
  take-append-drop, length-drop, Bool-cases, append-nil, Option-cases,
}
use native.Mathlib.Decide.{ℕ_discrete}
use mod_http.Stream.{Stream, request_body_len}
use mod_http.Filter.{
  InputMode, readbytes, getline, exhaustive, eatcrlf, init, speculative, Bucket, bytes, eos,
  line_end, limit_read, until_newline, want, takes_bytes, is_speculative, unread_body,
  serve_request_body,
}

-- The bytes of a brigade, and whether it ends the body.
abbrev pub content : List Bucket → Bytes
content [] = []
content (bytes bs ∷ bb) = bs ++ content bb
content (eos ∷ bb) = content bb

abbrev pub has_eos : List Bucket → Bool
has_eos [] = false
has_eos (bytes bs ∷ bb) = has_eos bb
has_eos (eos ∷ bb) = true

line_end-bounds : (bs : Bytes) (n : ℕ) → line_end bs ≡ some n → (0 < n) × (n ≤ length bs)
unfolding line_end
line_end-bounds [] n e = cc
line_end-bounds (b ∷ bs) n e = elim (Option-cases (line_end bs)) [
  | inl missing ↦ ground arith
  | inr (m, found) ↦ ground (arith, line_end-bounds bs m found)
]

until_newline-bounds :
    (unread : Bytes)
    → 0 < length unread
    → (0 < until_newline unread) × (until_newline unread ≤ length unread)
unfolding until_newline
until_newline-bounds unread h = elim (Option-cases (line_end unread)) [
  | inl missing ↦ rw (missing, until_newline) (h, omega arith)
  | inr (n, found) ↦ rw (found, until_newline) (line_end-bounds unread n found)
]

drop-nil : (n : ℕ) → drop {A = ℕ} n [] ≡ []
drop-nil zero = refl
drop-nil (suc n) = refl

want-bounds :
    (mode : InputMode) (asked : ℕ) (unread : Bytes)
    → 0 < length unread
    → (0 < want mode asked unread) × (want mode asked unread ≤ length unread)
unfolding want
want-bounds readbytes asked unread h = unfold limit_read in ground arith
want-bounds speculative asked unread h = unfold limit_read in ground arith
want-bounds getline asked unread h = until_newline-bounds unread h
want-bounds exhaustive asked unread h = omega arith
want-bounds eatcrlf asked unread h = omega arith
want-bounds init asked unread h = omega arith

drop-add : (m n : ℕ) (xs : Bytes) → drop (m + n) xs ≡ drop n (drop m xs)
drop-add zero n xs = ap (λ k. drop k xs) (omega arith)
drop-add (suc m) n [] = drop-nil (suc m + n) ∙ sym (drop-nil n)
drop-add (suc m) n (x ∷ xs) =
    let e : suc m + n ≡ suc (m + n) = omega arith in rw e (drop-add m n xs)

-- A call that takes bytes off the body.
abbrev pub consumes : InputMode → Bool
consumes mode = takes_bytes mode && not (is_speculative mode)

-- What a call gives, with what it leaves, is what was unread; the end follows exactly where nothing
-- is left; and unless the end follows, less is left.
abbrev pub Serves : Stream → List Bucket × Stream → Type 0
Serves h (bb, h') =
    (content bb ++ unread_body h' ≡ unread_body h)
    × (has_eos bb ≡ (length (unread_body h') == 0))
    × (h'.request_body_offset ≤ request_body_len h')
    × ((has_eos bb ≡ true) ⊎ (length (unread_body h') < length (unread_body h)))

serve_request_body-done :
    (mode : InputMode) (asked : ℕ) (h : Stream)
    → consumes mode ≡ true
    → request_body_len h - h.request_body_offset ≡ 0
    → serve_request_body mode asked h ≡ (eos ∷ [], h)
unfolding serve_request_body
serve_request_body-done mode asked h c z = ground arith

abbrev advance : ℕ → Stream → Stream
advance n h = record h { request_body_offset = h.request_body_offset + n }

abbrev served : ℕ → Stream → List Bucket × Stream
served n h = (
  bytes (take n (unread_body h))
      ∷ (if leb (request_body_len h) (h.request_body_offset + n) then eos ∷ [] else []),
  advance n h,
)

serve_request_body-some :
    (mode : InputMode) (asked : ℕ) (h : Stream)
    → consumes mode ≡ true
    → request_body_len h - h.request_body_offset ≢ 0
    → serve_request_body mode asked h ≡ served (want mode asked (unread_body h)) h
unfolding serve_request_body
serve_request_body-some mode asked h c nz = ground arith

has_eos-end : (b : Bool) → has_eos (if b then eos ∷ [] else []) ≡ b
has_eos-end true = refl
has_eos-end false = refl

content-end : (bs : Bytes) (b : Bool) → content (bytes bs ∷ (if b then eos ∷ [] else [])) ≡ bs
content-end bs true = append-nil bs
content-end bs false = append-nil bs

served-Serves :
    (n : ℕ) (h : Stream)
    → 0 < n
    → n ≤ length (unread_body h)
    → h.request_body_offset ≤ request_body_len h
    → Serves h (served n h)
served-Serves n h p k v =
    let left = length-drop h.request_body_offset h.request_body in
    let after = length-drop (h.request_body_offset + n) h.request_body in
    (
      (λ i.
            content-end (take n (unread_body h))
              (leb (request_body_len h) (h.request_body_offset + n)) i
            ++ drop-add h.request_body_offset n h.request_body i)
          ∙ take-append-drop n (unread_body h),
      has_eos-end _ ∙ ground (arith, after),
      omega (arith, left),
      inr (omega (arith, left, after)),
    )

-- A call that takes bytes, at an offset within the body, loses none, repeats none, and ends the body
-- exactly at its end.
pub serve_request_body-Serves :
    (mode : InputMode) (asked : ℕ) (h : Stream)
    → consumes mode ≡ true
    → h.request_body_offset ≤ request_body_len h
    → Serves h (serve_request_body mode asked h)
serve_request_body-Serves mode asked h c v =
    let left = length-drop h.request_body_offset h.request_body in
    elim (ℕ_discrete (request_body_len h - h.request_body_offset) 0) [
      | yes z ↦
          rw (serve_request_body-done mode asked h c z) (refl, ground (arith, left), v, inl refl)
      | no nz ↦
          let (p, k) = want-bounds mode asked (unread_body h) (omega (arith, left)) in
          rw (serve_request_body-some mode asked h c nz)
            (served-Serves (want mode asked (unread_body h)) h p k v)
    ]

-- A handler that reads until the end of the body: the modes and sizes of its calls.
pub read_body : List (InputMode × ℕ) → Stream → Bytes × Bool
read_body [] h = ([], false)
read_body ((mode, asked) ∷ calls) h =
    let (bb, h') = serve_request_body mode asked h in
    let rest = read_body calls h' in
    if has_eos bb then (content bb, true) else (content bb ++ rest.0, rest.1)

abbrev pub AllConsume : List (InputMode × ℕ) → Type 0
AllConsume [] = Unit {0}
AllConsume (c ∷ calls) = (consumes c.0 ≡ true) × AllConsume calls

nil-of-empty : (bs : Bytes) → (length bs == 0) ≡ true → bs ≡ []
nil-of-empty [] e = refl
nil-of-empty (b ∷ bs) e = ground arith

-- From an offset within the body, calls of any modes that take bytes and of any sizes, more of them
-- than there are unread bytes, deliver exactly the unread bytes and reach the end of the body.
pub read_body_lem :
    (calls : List (InputMode × ℕ)) (h : Stream)
    → AllConsume calls
    → h.request_body_offset ≤ request_body_len h
    → length (unread_body h) < length calls
    → read_body calls h ≡ (unread_body h, true)
unfolding read_body
read_body_lem [] h c v more = absurd (omega arith)
read_body_lem ((mode, asked) ∷ calls) h c v more =
    let out = serve_request_body mode asked h in
    let (parts, ends, v', less) = serve_request_body-Serves mode asked h c.0 v in
    elim (Bool-cases (has_eos out.0)) [
      | inl y ↦ rw y (
          ap (λ bs. (bs, true))
            (sym (append-nil (content out.0))
              ∙ ap (λ bs. content out.0 ++ bs)
                  (sym (nil-of-empty (unread_body out.1) (sym ends ∙ y)))
              ∙ parts))
      | inr n ↦
          let shorter : length (unread_body out.1) < length (unread_body h) = ground arith in
          let ih = read_body_lem calls out.1 c.1 v' (omega arith) in
          rw (n, ih) (ap (λ bs. (bs, true)) parts)
    ]
