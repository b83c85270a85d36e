-- ===== src/Filter.antt =====
-- The body filters of mod_http3/src/h3_filter.c: the input filter that serves the buffered request
-- body, and the buffering of a response body with a limit. A brigade is the list of its buckets.
pub mod Input
pub mod Capture
mod Tests
use mod_http.Common.{
  ℕ, zero, suc, ◌+◌, ◌-◌, ◌*◌, ◌%◌, ◌^◌, Bool, true, false, not, Option, none, some, List, [], ◌∷◌,
  ◌++◌, Bytes, ◌&&◌, ◌||◌, ltb, leb, ◌==◌, if◌then◌else◌, length, take, drop,
}
use mod_http.Stream.{Stream, request_body_len}
use mod_http.Buffer.{body_buf_init_cap, double_until, rounds}

-- `ap_input_mode_t`
pub data InputMode : Type 0 where
  readbytes getline eatcrlf speculative exhaustive init : InputMode

pub data Bucket : Type 0 where
  bytes : Bytes → Bucket
  eos : Bucket

-- The position after the first newline, `memchr` and the `+ 1`.
pub line_end : Bytes → Option ℕ
line_end [] = none
line_end (b ∷ bs) = elim (b == 0x0a) [
  | true ↦ some 1
  | false ↦ elim (line_end bs) [ none ↦ none | some n ↦ some (suc n) ]
]

-- `readbytes > 0 && readbytes < want`, the size asked for being 0 where the caller passes a number
-- that is not positive.
pub limit_read : ℕ → ℕ → ℕ
limit_read asked avail = if ltb 0 asked && ltb asked avail then asked else avail

pub until_newline : Bytes → ℕ
until_newline unread = elim (line_end unread) [ none ↦ length unread | some n ↦ n ]

-- How many of the unread bytes a call takes, in a mode that takes bytes.
pub want : InputMode → ℕ → Bytes → ℕ
want readbytes asked unread = limit_read asked (length unread)
want speculative asked unread = limit_read asked (length unread)
want getline asked unread = until_newline unread
want exhaustive asked unread = length unread
want eatcrlf asked unread = length unread
want init asked unread = length unread

pub takes_bytes : InputMode → Bool
takes_bytes readbytes = true
takes_bytes getline = true
takes_bytes exhaustive = true
takes_bytes speculative = true
takes_bytes eatcrlf = false
takes_bytes init = false

pub is_speculative : InputMode → Bool
is_speculative speculative = true
is_speculative readbytes = false
is_speculative getline = false
is_speculative exhaustive = false
is_speculative eatcrlf = false
is_speculative init = false

abbrev pub unread_body : Stream → Bytes
unread_body h = drop h.request_body_offset h.request_body

-- `serve_request_body`: the buckets that a call adds to the brigade, and the stream. The status is
-- always APR_SUCCESS.
pub serve_request_body : InputMode → ℕ → Stream → List Bucket × Stream
serve_request_body mode asked h =
    let avail = request_body_len h - h.request_body_offset in
    let n = want mode asked (unread_body h) in
    let offset = h.request_body_offset + n in
    let served = bytes (take n (unread_body h)) in
    if not (takes_bytes mode)
    then ([], h)
    else if avail == 0
    then (eos ∷ [], h)
    else if is_speculative mode
    then (served ∷ [], h)
    else (
      served ∷ (if leb (request_body_len h) offset then eos ∷ [] else []),
      record h { request_body_offset = offset },
    )

-- `input_filter_eos` on a brigade, where no later filter is called: `none` for a call that goes on
-- to the next filter, or fails with APR_EOF where there is none.
pub input_filter_eos : InputMode → List Bucket → Option (List Bucket)
input_filter_eos readbytes [] = some (eos ∷ [])
input_filter_eos getline [] = some (eos ∷ [])
input_filter_eos readbytes (b ∷ bb) = some (b ∷ bb)
input_filter_eos getline (b ∷ bb) = some (b ∷ bb)
input_filter_eos eatcrlf bb = none
input_filter_eos speculative bb = none
input_filter_eos exhaustive bb = none
input_filter_eos init bb = none

-- The part of `h3_conn_ctx_t` (mod_http3/include/h3_filter.h) that buffers a response.
pub record CaptureCtx : Type 0 where
  pub dataheap : Bytes
  pub dataheapcap : ℕ
  pub response_too_large : Bool

-- `capture_body_bucket` on what `apr_bucket_read` gives, `none` where it fails. `limit` is
-- `h3_max_response_body_size`. `size_t` wraps in the doubling.
pub capture_body_bucket : ℕ → Option Bytes → CaptureCtx → CaptureCtx
capture_body_bucket limit none ctx = ctx
capture_body_bucket limit (some []) ctx = ctx
capture_body_bucket limit (some (b ∷ bs)) ctx =
    let len = length (b ∷ bs) in
    let used = length ctx.dataheap in
    let new_len = used + len in
    let start = if ctx.dataheapcap == 0 then body_buf_init_cap else ctx.dataheapcap * 2 % 2 ^ 64 in
    let grown = double_until rounds start new_len in
    if ctx.response_too_large
    then ctx
    else if ltb limit used || ltb (limit - used) len
    then record ctx { response_too_large = true }
    else record ctx {
      dataheap = ctx.dataheap ++ b ∷ bs;
      dataheapcap = if ltb ctx.dataheapcap new_len then grown else ctx.dataheapcap;
    }
