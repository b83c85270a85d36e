-- ===== src/Callbacks/Kept.antt =====
-- The callbacks that `h3_session_create` of mod_http3/src/h3_session.c gives nghttp3, as one: a feed
-- of nghttp3 calls some of them in an order of its own. None of them looks at who works on the stream
-- or whether it is blocked.
use mod_http.Common.{
  ℕ, ◌+◌, Bool, not, Option, none, some, List, [], ◌∷◌, Bytes, ◌&&◌, ◌||◌, ltb, leb, ◌==◌, length,
  if_both, is_some, Option-cases, inl, inr,
}
use mod_http.Stream.{Stream, request_body_len}
use mod_http.Response.{ack}
use mod_http.Session.Drain.Tame.{Kept, Kept-refl, Kept-trans}
use mod_http.Callbacks.{
  FieldLimits, Token, is_pseudo_token, oversized, too_many, set_pseudo, assign_pseudo, begin_stream,
  add_field, regular_field, on_recv_header, on_end_headers, on_recv_data, on_acked_stream_data,
  on_stop_sending, on_reset_stream, on_stream_close,
}

-- A call of a callback on the stream that is registered. An acknowledgement names the time.
pub data Callback : Type 0 where
  begin_headers stop_sending stream_close : Callback
  recv_header : Token → Bytes → Bytes → Callback
  end_headers : Bool → Callback
  recv_data : Bytes → Callback
  acked_stream_data : ℕ → ℕ → Callback
  reset_stream : ℕ → Callback

abbrev or_same : Stream → Option Stream → Stream
or_same h none = h
or_same h (some h') = h'

-- What the callback makes of the stream.
pub call_back : FieldLimits → ℕ → Callback → Stream → Stream
unfolding begin_stream on_recv_header on_end_headers on_recv_data on_acked_stream_data
    on_stop_sending on_reset_stream on_stream_close
call_back limits most Callback.begin_headers h = begin_stream h
call_back limits most Callback.stop_sending h = (on_stop_sending [] h).1
call_back limits most Callback.stream_close h = (on_stream_close [] h).1
call_back limits most (Callback.recv_header token name value) h =
    on_recv_header limits token name value h
call_back limits most (Callback.end_headers fin) h = on_end_headers fin h
call_back limits most (Callback.recv_data chunk) h = on_recv_data most chunk h
call_back limits most (Callback.acked_stream_data now n) h =
    or_same h (on_acked_stream_data now n h)
call_back limits most (Callback.reset_stream code) h = (on_reset_stream code h).1

pub call_all : FieldLimits → ℕ → List Callback → Stream → Stream
unfolding call_back
call_all limits most [] h = h
call_all limits most (c ∷ cs) h = call_all limits most cs (call_back limits most c h)

assign_pseudo-Kept : (t : Token) (copy : Bytes) (h : Stream) → Kept h (assign_pseudo t copy h)
unfolding assign_pseudo
assign_pseudo-Kept Token.method copy h = Kept-refl h
assign_pseudo-Kept Token.scheme copy h = Kept-refl h
assign_pseudo-Kept Token.path copy h = Kept-refl h
assign_pseudo-Kept Token.authority copy h = Kept-refl h
assign_pseudo-Kept Token.other copy h = Kept-refl h

regular_field-Kept :
    (limits : FieldLimits) (name value : Bytes) (h : Stream)
    → Kept h (regular_field limits name value h)
unfolding regular_field add_field
regular_field-Kept limits name value h = elim (Option-cases h.headers) [
  | inl e ↦ rw (e, regular_field) (Kept-refl h)
  | inr (fields, e) ↦
      rw (e, regular_field)
        (if_both (Kept h) h.headers_too_large (Kept-refl h) (
          if_both (Kept h) (too_many limits h) (Kept-refl h)
            (if_both (Kept h) (oversized limits name value) (Kept-refl h) (Kept-refl h))))
]

on_recv_header-Kept :
    (limits : FieldLimits) (t : Token) (name value : Bytes) (h : Stream)
    → Kept h (on_recv_header limits t name value h)
unfolding on_recv_header set_pseudo
on_recv_header-Kept limits t name value h =
    if_both (Kept h) (is_pseudo_token t)
      (if_both (Kept h) (oversized limits name value) (Kept-refl h) (
        if_both (Kept h) (length value == 0 || leb 8192 (length value)) (Kept-refl h)
          (assign_pseudo-Kept t value h)))
      (regular_field-Kept limits name value h)

on_recv_data-Kept : (most : ℕ) (chunk : Bytes) (h : Stream) → Kept h (on_recv_data most chunk h)
unfolding on_recv_data
on_recv_data-Kept most chunk h =
    if_both (Kept h) (not h.is_bidi || length chunk == 0) (Kept-refl h) (
      if_both (Kept h) h.request_body_overflow (Kept-refl h) (
        if_both (Kept h) (ltb most (request_body_len h + length chunk)) (Kept-refl h)
          (Kept-refl h)))

acked-Kept : (now n : ℕ) (h : Stream) → Kept h (or_same h (on_acked_stream_data now n h))
unfolding on_acked_stream_data
acked-Kept now n h = elim (Option-cases (ack now n h.response)) [
  | inl e ↦ rw (e, on_acked_stream_data) (Kept-refl h)
  | inr (q, e) ↦ rw (e, on_acked_stream_data) (Kept-refl h)
]

call_back-Kept :
    (limits : FieldLimits) (most : ℕ) (c : Callback) (h : Stream)
    → Kept h (call_back limits most c h)
unfolding call_back begin_stream on_end_headers on_stop_sending on_reset_stream on_stream_close
call_back-Kept limits most Callback.begin_headers h =
    if_both (Kept h) (h.is_bidi && not (is_some h.headers)) (Kept-refl h) (Kept-refl h)
call_back-Kept limits most Callback.stop_sending h = Kept-refl h
call_back-Kept limits most Callback.stream_close h = Kept-refl h
call_back-Kept limits most (Callback.recv_header t name value) h =
    on_recv_header-Kept limits t name value h
call_back-Kept limits most (Callback.end_headers fin) h =
    if_both (Kept h) h.is_bidi (Kept-refl h) (Kept-refl h)
call_back-Kept limits most (Callback.recv_data chunk) h = on_recv_data-Kept most chunk h
call_back-Kept limits most (Callback.acked_stream_data now n) h = acked-Kept now n h
call_back-Kept limits most (Callback.reset_stream code) h = Kept-refl h

pub call_all-Kept :
    (limits : FieldLimits) (most : ℕ) (cs : List Callback) (h : Stream)
    → Kept h (call_all limits most cs h)
unfolding call_all
call_all-Kept limits most [] h = Kept-refl h
call_all-Kept limits most (c ∷ cs) h =
    let h' = call_back limits most c h in
    Kept-trans h h' (call_all limits most cs h') (call_back-Kept limits most c h)
      (call_all-Kept limits most cs h')
