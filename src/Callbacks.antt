-- ===== src/Callbacks.antt =====
-- The nghttp3 callbacks of mod_http3/src/h3_callbacks.c. nghttp3 calls them with the stream that
-- `on_begin_headers` registered (`stream_user_data`), `none` for NULL.
pub mod Body
pub mod Headers
pub mod Kept
mod Tests
use mod_http.Common.{
  ℕ, ◌+◌, suc, Bool, true, false, not, Option, none, some, List, [], ◌∷◌, ◌++◌, Bytes, ◌&&◌, ◌||◌,
  ltb, leb, ◌==◌, is_some, if◌then◌else◌, length,
}
use mod_http.Stream.{Stream, request_body_len}
use mod_http.Buffer.{body_buf_init_cap, double_until, rounds}
use mod_http.Response.{ack, cancel}

-- The tokens of `IS_PSEUDO_TOKEN`; `other` is any other token.
pub data Token : Type 0 where
  method scheme path authority other : Token

abbrev pub is_pseudo_token : Token → Bool
is_pseudo_token other = false
is_pseudo_token method = true
is_pseudo_token scheme = true
is_pseudo_token path = true
is_pseudo_token authority = true

-- `server_rec`'s limits on header fields; the code takes 0 for no limit, and so does it a negative
-- number, which is 0 here.
pub record FieldLimits : Type 0 where
  pub limit_req_fields : ℕ
  pub limit_req_fieldsize : ℕ

-- The `switch` of `set_pseudo`.
pub assign_pseudo : Token → Bytes → Stream → Stream
assign_pseudo method copy h = record h { method = some copy }
assign_pseudo scheme copy h = record h { scheme = some copy }
assign_pseudo path copy h = record h { path = some copy }
assign_pseudo authority copy h = record h { authority = some copy }
assign_pseudo other copy h = record h { malformed = true }

pub set_pseudo : Token → Bytes → Stream → Stream
set_pseudo token value h =
    if length value == 0 || leb 8192 (length value)
    then record h { malformed = true }
    else assign_pseudo token value h

-- `on_begin_headers`: the stream to register, `none` for NGHTTP3_ERR_CALLBACK_FAILURE. `pending` is
-- the stream being fed, with its id.
pub pick_stream : ℕ → Option (ℕ × Stream) → Option Stream → Option Stream
pick_stream sid pending (some h) = some h
pick_stream sid none none = none
pick_stream sid (some (pending_sid, h)) none = if pending_sid == sid then some h else none

pub begin_stream : Stream → Stream
begin_stream h = if h.is_bidi && not (is_some h.headers) then record h { headers = some [] } else h

pub on_begin_headers : ℕ → Option (ℕ × Stream) → Option Stream → Option Stream
unfolding pick_stream begin_stream
on_begin_headers sid pending registered = elim (pick_stream sid pending registered) [
  | none ↦ none
  | some h ↦ some (begin_stream h)
]

-- `on_recv_header` on a field that is no pseudo-header.
abbrev pub too_many : FieldLimits → Stream → Bool
too_many limits h =
    ltb 0 limits.limit_req_fields && ltb limits.limit_req_fields (suc h.header_count)

abbrev pub oversized : FieldLimits → Bytes → Bytes → Bool
oversized limits name value =
    ltb 0 limits.limit_req_fieldsize
    && ltb limits.limit_req_fieldsize (length name + length value + 2)

pub add_field : FieldLimits → Bytes → Bytes → List (Bytes × Bytes) → Stream → Stream
add_field limits name value fields h =
    let counted = record h {
      header_count = if ltb 0 limits.limit_req_fields then suc h.header_count else h.header_count;
    } in
    if too_many limits h
    then record counted { headers_too_large = true }
    else if oversized limits name value
    then record counted { headers_too_large = true }
    else record counted { headers = some (fields ++ (name, value) ∷ []) }

pub regular_field : FieldLimits → Bytes → Bytes → Stream → Stream
regular_field limits name value h = elim h.headers [
  | none ↦ h
  | some fields ↦ if h.headers_too_large then h else add_field limits name value fields h
]

pub on_recv_header : FieldLimits → Token → Bytes → Bytes → Stream → Stream
on_recv_header limits token name value h =
    if is_pseudo_token token
    then if oversized limits name value
      then record h { malformed = true }
      else set_pseudo token value h
    else regular_field limits name value h

pub on_end_headers : Bool → Stream → Stream
on_end_headers fin h =
    if h.is_bidi
    then record h { headers_complete = true; body_complete = fin || h.body_complete }
    else h

-- The capacity that `on_recv_data` gives a buffer that must hold `needed` bytes.
pub grown_capacity : ℕ → ℕ → ℕ → ℕ
grown_capacity limit capacity needed =
    let start = if capacity == 0 then body_buf_init_cap else capacity in
    let new_cap = double_until rounds start needed in if ltb limit new_cap then limit else new_cap

-- `on_recv_data`; `limit` is `h3_max_request_body_size`. The sum of the two lengths does not wrap:
-- the first is at most the limit, and the second the size of a read.
pub on_recv_data : ℕ → Bytes → Stream → Stream
unfolding grown_capacity
on_recv_data limit chunk h =
    let needed = request_body_len h + length chunk in
    if not h.is_bidi || length chunk == 0
    then h
    else if h.request_body_overflow
    then h
    else if ltb limit needed
    then record h { request_body_overflow = true }
    else record h {
      request_body = h.request_body ++ chunk;
      request_body_capacity =
          if ltb h.request_body_capacity needed
          then grown_capacity limit h.request_body_capacity needed
          else h.request_body_capacity;
    }

-- `on_acked_stream_data`; `none` is a fault of the response queue.
pub on_acked_stream_data : ℕ → ℕ → Stream → Option Stream
on_acked_stream_data now datalen h = elim (ack now datalen h.response) [
  | none ↦ none
  | some q ↦ some (record h { response = q })
]

-- `h3_session_queue_free` of mod_http3/src/h3_session.c: the stream is freed at the next flush.
pub queue_free : Option ℕ → List ℕ → List ℕ
queue_free none pending_free = pending_free
queue_free (some st) pending_free = st ∷ pending_free

-- `on_stop_sending`, with the session's `pending_free`, last pushed first.
pub on_stop_sending : List ℕ → Stream → List ℕ × Stream
unfolding queue_free
on_stop_sending pending_free h = (
  queue_free h.qstream pending_free,
  record h {
    response = cancel h.response;
    qstream = none;
    done = true;
    body_complete = true;
    body_truncated = true;
  },
)

-- `on_reset_stream`: the first part is the QUIC stream that is reset, with the code.
pub on_reset_stream : ℕ → Stream → Option (ℕ × ℕ) × Stream
on_reset_stream app_error_code h = (
  elim h.qstream [ none ↦ none | some st ↦ some (st, app_error_code) ],
  record h { response = cancel h.response; done = true },
)

-- `on_stream_close`
pub on_stream_close : List ℕ → Stream → List ℕ × Stream
unfolding queue_free
on_stream_close pending_free h = (
  queue_free h.qstream pending_free,
  record h { response = cancel h.response; done = true; qstream = none },
)
