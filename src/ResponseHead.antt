-- ===== src/ResponseHead.antt =====
-- The head of a response: `build_response_nva`, `submit_response_nva` and `h3_response_start` of
-- mod_http3/src/h3_request.c. What httpd and APR do on strings and tables is a parameter.
pub mod Kept
pub mod Once
mod Tests
use mod_http.Common.{
  ℕ, suc, Bool, true, false, not, ◌&&◌, ◌||◌, Option, none, some, List, [], ◌∷◌, Bytes, ltb, ◌==◌,
  or_else?, if◌then◌else◌,
}
use mod_http.Response.{Response, SessionFlags, note, wake, cancel}

-- `apr_table_entry_t`
pub record Entry : Type 0 where
  pub key : Option Bytes
  pub val : Option Bytes

-- `nghttp3_nv`
pub record Nv : Type 0 where
  pub name : Bytes
  pub value : Bytes

-- The calls of httpd and APR: whether `ap_cstr_casecmp` gives 0, `ap_find_token`, `apr_table_get`
-- on the entries of a table, and the format "%d" of `apr_psprintf`.
pub record Httpd : Type 0 where
  pub cstr_casecmp : Bytes → Bytes → Bool
  pub find_token : Bytes → Bytes → Bool
  pub table_get : List Entry → Bytes → Option Bytes
  pub decimal : ℕ → Bytes

abbrev pub connection : Bytes
connection = b'C' ∷ b'o' ∷ b'n' ∷ b'n' ∷ b'e' ∷ b'c' ∷ b't' ∷ b'i' ∷ b'o' ∷ b'n' ∷ []

abbrev pub keep_alive : Bytes
keep_alive = b'K' ∷ b'e' ∷ b'e' ∷ b'p' ∷ b'-' ∷ b'A' ∷ b'l' ∷ b'i' ∷ b'v' ∷ b'e' ∷ []

abbrev pub proxy_connection : Bytes
proxy_connection =
    b'P' ∷ b'r' ∷ b'o' ∷ b'x' ∷ b'y' ∷ b'-' ∷ b'C' ∷ b'o' ∷ b'n' ∷ b'n' ∷ b'e' ∷ b'c' ∷ b't' ∷ b'i'
    ∷ b'o' ∷ b'n' ∷ []

abbrev pub transfer_encoding : Bytes
transfer_encoding =
    b'T' ∷ b'r' ∷ b'a' ∷ b'n' ∷ b's' ∷ b'f' ∷ b'e' ∷ b'r' ∷ b'-' ∷ b'E' ∷ b'n' ∷ b'c' ∷ b'o' ∷ b'd'
    ∷ b'i' ∷ b'n' ∷ b'g' ∷ []

abbrev pub upgrade : Bytes
upgrade = b'U' ∷ b'p' ∷ b'g' ∷ b'r' ∷ b'a' ∷ b'd' ∷ b'e' ∷ []

abbrev pub te : Bytes
te = b'T' ∷ b'E' ∷ []

abbrev pub status_name : Bytes
status_name = b':' ∷ b's' ∷ b't' ∷ b'a' ∷ b't' ∷ b'u' ∷ b's' ∷ []

-- `is_connection_specific`
pub is_connection_specific : Httpd → Bytes → Bool
is_connection_specific ap k =
    ap.cstr_casecmp k connection
    || ap.cstr_casecmp k keep_alive
    || ap.cstr_casecmp k proxy_connection
    || ap.cstr_casecmp k transfer_encoding
    || ap.cstr_casecmp k upgrade
    || ap.cstr_casecmp k te

-- `k[0] == ':'`
abbrev pub is_pseudo : Bytes → Bool
is_pseudo [] = false
is_pseudo (b ∷ bs) = b == b':'

-- Whether the `Connection` header names the field.
abbrev pub is_named : Httpd → Option Bytes → Bytes → Bool
is_named ap none k = false
is_named ap (some conn_hdr) k = ap.find_token conn_hdr k

-- What the body of the loop makes of an entry.
pub nv_of : Httpd → Option Bytes → Entry → Option Nv
unfolding is_connection_specific
nv_of ap conn_hdr e = elim e.key [
  | none ↦ none
  | some k ↦ elim e.val [
    | none ↦ none
    | some v ↦
        if is_pseudo k || is_connection_specific ap k || is_named ap conn_hdr k
        then none
        else some (record { name = k; value = v })
  ]
]

-- The loop, with `nvlen` fields made.
pub fill_nva : Httpd → Option Bytes → ℕ → ℕ → List Entry → List Nv
unfolding nv_of
fill_nva ap conn_hdr nva_cap nvlen [] = []
fill_nva ap conn_hdr nva_cap nvlen (e ∷ es) = elim (ltb nvlen nva_cap) [
  | false ↦ []
  | true ↦ elim (nv_of ap conn_hdr e) [
    | none ↦ fill_nva ap conn_hdr nva_cap nvlen es
    | some nv ↦ nv ∷ fill_nva ap conn_hdr nva_cap (suc nvlen) es
  ]
]

-- `build_response_nva` with the status and the headers that it picks; `hdrs` is `none` for NULL.
pub build_response_nva : Httpd → ℕ → ℕ → Option (List Entry) → List Nv
unfolding fill_nva
build_response_nva ap nva_cap status hdrs =
    record { name = status_name; value = ap.decimal status }
    ∷ elim hdrs [ none ↦ [] | some es ↦ fill_nva ap (ap.table_get es connection) nva_cap 1 es ]

-- What `submit_response_nva` returns: APR_SUCCESS, APR_ECONNABORTED or APR_EGENERAL.
pub data Submitted : Type 0 where
  success aborted refused : Submitted

-- `submit_response_nva`: the result, what is handed to nghttp3, and the stream's response. `ok` says
-- whether `nghttp3_conn_submit_response` gives 0.
pub submit_response_nva :
    SessionFlags → Bool → List Nv → Response → Submitted × Option (List Nv) × Response
submit_response_nva f ok nva q =
    if q.submitted
    then (success, none, q)
    else if q.cancelled || f.aborted || f.ngh3_dead || not f.ngh3
    then (aborted, none, q)
    else if ok
    then (success, some nva, note wake (record q { submitted = true }))
    else (refused, some nva, cancel q)

-- What `h3_response_finalize` leaves for `h3_response_start`: `resp_status` and `resp_headers`, and
-- the fields of the request for where they are not set.
pub record Head : Type 0 where
  pub resp_status : ℕ
  pub resp_headers : Option (List Entry)
  pub status : ℕ
  pub headers_out : Option (List Entry)

-- `h3_response_start` for a stream, with the 64 fields of `nva`.
pub response_start :
    Httpd → SessionFlags → Bool → Head → Response → Submitted × Option (List Nv) × Response
unfolding build_response_nva submit_response_nva
response_start ap f ok r q =
    let hdrs = or_else? r.resp_headers r.headers_out in
    let status = if r.resp_status == 0 then r.status else r.resp_status in
    submit_response_nva f ok (build_response_nva ap 64 status hdrs) q
