-- ===== src/Callbacks/Headers.antt =====
-- The limits on request header fields, and what the closing callbacks hand over.
use mod_http.Common.{
  ℕ, suc, ◌+◌, ◌≤◌, ◌<◌, ◌≡◌, refl, inl, inr, ap, ◌∙◌, not, ◌&&◌, is_some, true, false, Option,
  none, some, List, [], ◌∷◌, ◌++◌, Bytes, ltb, if◌then◌else◌, arith, length, length-append,
  Bool-cases, Option-cases, subst, if_both,
}
use mod_http.Stream.{Stream}
use mod_http.Callbacks.{
  FieldLimits, Token, is_pseudo_token, oversized, too_many, set_pseudo, assign_pseudo, add_field,
  regular_field, begin_stream, on_recv_header, on_stop_sending, on_reset_stream, on_stream_close,
  queue_free,
}

abbrev pub fields_of : Option (List (Bytes × Bytes)) → List (Bytes × Bytes)
fields_of none = []
fields_of (some fields) = fields

-- Name, value, and two bytes more for each field are within the limit on its size.
abbrev pub AllSmall : ℕ → List (Bytes × Bytes) → Type 0
AllSmall most [] = Unit {0}
AllSmall most (f ∷ fields) = (length f.0 + length f.1 + 2 ≤ most) × AllSmall most fields

abbrev pub pseudo_length : Option Bytes → ℕ
pseudo_length none = 0
pseudo_length (some value) = length value

-- What the limits of the server promise of a stream's header table.
pub record HeadersAreValid (limits : FieldLimits) (h : Stream) : Type 0 where
  pub counted : 0 < limits.limit_req_fields → length (fields_of h.headers) ≤ h.header_count
  pub few : 0 < limits.limit_req_fields → length (fields_of h.headers) ≤ limits.limit_req_fields
  pub small :
      0 < limits.limit_req_fieldsize → AllSmall limits.limit_req_fieldsize (fields_of h.headers)
  pub method : pseudo_length h.method < 8192
  pub scheme : pseudo_length h.scheme < 8192
  pub authority : pseudo_length h.authority < 8192
  pub path : pseudo_length h.path < 8192

AllSmall-snoc :
    (most : ℕ) (fields : List (Bytes × Bytes)) (name value : Bytes)
    → length name + length value + 2 ≤ most
    → AllSmall most fields
    → AllSmall most (fields ++ (name, value) ∷ [])
AllSmall-snoc most [] name value h s = (h, tt)
AllSmall-snoc most (f ∷ fields) name value h s = (s.0, AllSmall-snoc most fields name value h s.1)

set_pseudo-HeadersAreValid :
    (limits : FieldLimits) (token : Token) (value : Bytes) (h : Stream)
    → HeadersAreValid limits h
    → HeadersAreValid limits (set_pseudo token value h)
unfolding set_pseudo assign_pseudo
set_pseudo-HeadersAreValid limits Token.method value h v = ground arith
set_pseudo-HeadersAreValid limits Token.scheme value h v = ground arith
set_pseudo-HeadersAreValid limits Token.path value h v = ground arith
set_pseudo-HeadersAreValid limits Token.authority value h v = ground arith
set_pseudo-HeadersAreValid limits Token.other value h v = ground arith

-- A field that is counted, and refused or added.
refused-HeadersAreValid :
    (limits : FieldLimits) (h : Stream) (count : ℕ)
    → h.header_count ≤ count
    → HeadersAreValid limits h
    → HeadersAreValid limits (record h { header_count = count; headers_too_large = true })
refused-HeadersAreValid limits h count le v = record {
  counted = λ on. omega (arith, v.counted on);
  few = v.few;
  small = v.small;
  method = v.method;
  scheme = v.scheme;
  authority = v.authority;
  path = v.path;
}

added-HeadersAreValid :
    (limits : FieldLimits) (name value : Bytes) (fields : List (Bytes × Bytes)) (h : Stream)
    → h.headers ≡ some fields
    → too_many limits h ≡ false
    → oversized limits name value ≡ false
    → HeadersAreValid limits h
    → HeadersAreValid limits (record h {
      header_count = if ltb 0 limits.limit_req_fields then suc h.header_count else h.header_count;
      headers = some (fields ++ (name, value) ∷ []);
    })
added-HeadersAreValid limits name value fields h e few_enough small_enough v =
    let there : fields_of h.headers ≡ fields = ap fields_of e in
    let longer = length-append fields ((name, value) ∷ []) in
    record {
      counted = λ on. ground (arith, ap length there, longer, v.counted on);
      few = λ on. ground (arith, ap length there, longer, v.counted on);
      small = λ on.
          AllSmall-snoc limits.limit_req_fieldsize fields name value (ground arith)
            (subst (AllSmall limits.limit_req_fieldsize) there (v.small on));
      method = v.method;
      scheme = v.scheme;
      authority = v.authority;
      path = v.path;
    }

add_field-HeadersAreValid :
    (limits : FieldLimits) (name value : Bytes) (fields : List (Bytes × Bytes)) (h : Stream)
    → h.headers ≡ some fields
    → HeadersAreValid limits h
    → HeadersAreValid limits (add_field limits name value fields h)
unfolding add_field
add_field-HeadersAreValid limits name value fields h e v =
    let count = if ltb 0 limits.limit_req_fields then suc h.header_count else h.header_count in
    elim (Bool-cases (too_many limits h)) [
      | inl many ↦ rw many (refused-HeadersAreValid limits h count (ground arith) v)
      | inr few ↦ elim (Bool-cases (oversized limits name value)) [
        | inl big ↦ rw (few, big) (refused-HeadersAreValid limits h count (ground arith) v)
        | inr small ↦
            rw (few, small) (added-HeadersAreValid limits name value fields h e few small v)
      ]
    ]

regular_field-HeadersAreValid :
    (limits : FieldLimits) (name value : Bytes) (h : Stream)
    → HeadersAreValid limits h
    → HeadersAreValid limits (regular_field limits name value h)
unfolding regular_field
regular_field-HeadersAreValid limits name value h v = elim (Option-cases h.headers) [
  | inl e ↦ rw (e, regular_field) v
  | inr (fields, e) ↦
      rw (e, regular_field)
        (if_both (HeadersAreValid limits) h.headers_too_large v
          (add_field-HeadersAreValid limits name value fields h e v))
]

malformed-HeadersAreValid :
    (limits : FieldLimits) (h : Stream)
    → HeadersAreValid limits h
    → HeadersAreValid limits (record h { malformed = true })
malformed-HeadersAreValid limits h v = record {
  counted = v.counted;
  few = v.few;
  small = v.small;
  method = v.method;
  scheme = v.scheme;
  authority = v.authority;
  path = v.path;
}

-- Whatever fields arrive, the header table of a stream holds at most LimitRequestFields fields,
-- each of a size within LimitRequestFieldSize, and every pseudo-header is shorter than 8192 bytes.
pub on_recv_header-HeadersAreValid :
    (limits : FieldLimits) (token : Token) (name value : Bytes) (h : Stream)
    → HeadersAreValid limits h
    → HeadersAreValid limits (on_recv_header limits token name value h)
unfolding on_recv_header
on_recv_header-HeadersAreValid limits token name value h v =
    elim (Bool-cases (is_pseudo_token token)) [
      | inl y ↦ rw y (
          if_both (HeadersAreValid limits) (oversized limits name value)
            (malformed-HeadersAreValid limits h v)
            (set_pseudo-HeadersAreValid limits token value h v))
      | inr n ↦ rw n (regular_field-HeadersAreValid limits name value h v)
    ]

-- A table that is made is empty.
pub begin_stream-HeadersAreValid :
    (limits : FieldLimits) (h : Stream)
    → HeadersAreValid limits h
    → HeadersAreValid limits (begin_stream h)
unfolding begin_stream
begin_stream-HeadersAreValid limits h v =
    if_both (HeadersAreValid limits) (h.is_bidi && not (is_some h.headers))
      (record {
        counted = λ on. omega arith;
        few = λ on. omega arith;
        small = λ on. tt;
        method = v.method;
        scheme = v.scheme;
        authority = v.authority;
        path = v.path;
      })
      v

-- The callbacks that end a stream, or stop its sending.
pub data Ending : Type 0 where
  stop_sending stream_close : Ending
  reset_stream : ℕ → Ending

pub end_stream : Ending → List ℕ × Stream → List ℕ × Stream
end_stream Ending.stop_sending (pending_free, h) = on_stop_sending pending_free h
end_stream Ending.stream_close (pending_free, h) = on_stream_close pending_free h
end_stream (Ending.reset_stream code) (pending_free, h) = (pending_free, (on_reset_stream code h).1)

pub end_all : List Ending → List ℕ × Stream → List ℕ × Stream
end_all [] s = s
end_all (e ∷ es) s = end_all es (end_stream e s)

-- The QUIC streams to be freed, queued or still held.
abbrev pub to_free : List ℕ × Stream → List ℕ
to_free (pending_free, h) = queue_free h.qstream pending_free

to_free-end_stream : (e : Ending) (s : List ℕ × Stream) → to_free (end_stream e s) ≡ to_free s
unfolding end_stream on_stop_sending on_stream_close on_reset_stream queue_free
to_free-end_stream Ending.stop_sending (pending_free, h) = refl
to_free-end_stream Ending.stream_close (pending_free, h) = refl
to_free-end_stream (Ending.reset_stream code) (pending_free, h) = refl

-- However the callbacks that end a stream follow one another, its QUIC stream is queued for freeing
-- at most once, and never lost: what is queued, with what the stream still holds, stays the same.
pub to_free-end_all : (es : List Ending) (s : List ℕ × Stream) → to_free (end_all es s) ≡ to_free s
unfolding end_all
to_free-end_all [] s = refl
to_free-end_all (e ∷ es) s = to_free-end_all es (end_stream e s) ∙ to_free-end_stream e s
