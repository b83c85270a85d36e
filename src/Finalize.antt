-- ===== src/Finalize.antt =====
-- The finishing of a response's headers: `h3_response_finalize` of mod_http3/src/h3_filter.c, as httpd
-- 2.4 builds it. The tables of APR and what httpd says of a response are parameters.
pub mod Framed
mod Tests
use mod_http.Common.{
  ℕ, Bool, true, false, not, ◌&&◌, ◌||◌, Option, none, some, List, [], ◌∷◌, ◌++◌, Bytes, ◌==◌,
  is_some, if◌then◌else◌,
}
use mod_http.Vary.{Text, has_value, pstrcat, fix_vary}

-- The names of the fields that are looked up or changed. APR compares names without their case.
pub data Field : Type 0 where
  vary etag transfer_encoding content_length content_type content_encoding : Field
  content_language expires date server : Field

-- `apr_table_t` with the calls of APR: `all` gives the values that `apr_table_do` visits.
pub record Tables : Type 1 where
  pub Table : Type 0
  pub get : Table → Field → Option Bytes
  pub all : Table → Field → List Bytes
  pub setn : Table → Field → Bytes → Table
  pub add : Table → Field → Bytes → Table
  pub unset : Table → Field → Table
  pub overlay : Table → Table → Table
  pub empty : Table
  pub is_empty : Table → Bool

-- What httpd gives: `AP_STATUS_IS_HEADER_ONLY`, `ap_make_content_type`, the items of a field, the
-- date of the request, and the banner of the server, `none` for NULL or the empty string.
pub record Server : Type 0 where
  pub text : Text
  pub is_header_only : ℕ → Bool
  pub make_content_type : Option Bytes → Option Bytes
  pub list_items : Bytes → List Bytes
  pub rfc822_date : Bytes
  pub banner : Option Bytes

-- `request_rec` and the `resp_*` fields of `h3_conn_ctx_t`. `is_direct` is PROXYREQ_NONE.
pub record Finalizing (t : Tables) : Type 0 where
  pub headers_out : t.Table
  pub err_headers_out : t.Table
  pub force_no_vary : Bool
  pub no_etag : Bool
  pub status : ℕ
  pub content_type : Option Bytes
  pub content_encoding : Option Bytes
  pub content_languages : List Bytes
  pub no_cache : Bool
  pub header_only : Bool
  pub is_direct : Bool
  pub resp_status : ℕ
  pub resp_headers : Option t.Table

-- The table for errors goes over the table of the response.
pub merge_errors : (t : Tables) → Finalizing t → Finalizing t
merge_errors t r = if t.is_empty r.err_headers_out then r else record r {
  headers_out = t.overlay r.err_headers_out r.headers_out;
  err_headers_out = t.empty;
}

abbrev pub set_if : (t : Tables) → Field → Option Bytes → t.Table → t.Table
set_if t f none headers = headers
set_if t f (some v) headers = t.setn headers f v

pub set_vary : (t : Tables) → Server → Bool → t.Table → t.Table
unfolding fix_vary
set_vary t s force_no_vary headers =
    if force_no_vary
    then t.unset headers vary
    else set_if t vary (fix_vary s.text (t.all headers vary)) headers

-- A status without a body: the fields on the body go.
pub clear_body : (t : Tables) → Server → Finalizing t → Finalizing t
clear_body t s r =
    if s.is_header_only r.status
    then record r {
      headers_out = t.unset (t.unset r.headers_out transfer_encoding) content_length;
      content_type = none;
      content_encoding = none;
      content_languages = [];
    }
    else r

-- The items of the field, each unless it is there, behind the languages.
pub add_languages : Server → List Bytes → List Bytes → List Bytes
add_languages s [] languages = languages
add_languages s (token ∷ tokens) languages =
    add_languages s tokens
      (if has_value s.text token languages then languages else languages ++ token ∷ [])

abbrev pub items_of : Server → Option Bytes → List Bytes
items_of s none = []
items_of s (some field) = s.list_items field

pub set_languages : (t : Tables) → Server → List Bytes → t.Table → t.Table
unfolding add_languages pstrcat
set_languages t s [] headers = headers
set_languages t s (l ∷ languages) headers =
    t.setn headers content_language
      (pstrcat (add_languages s (items_of s (t.get headers content_language)) (l ∷ languages)))

pub set_expires : (t : Tables) → Server → Bool → t.Table → t.Table
set_expires t s no_cache headers =
    if no_cache && not (is_some (t.get headers expires))
    then t.add headers expires s.rfc822_date
    else headers

abbrev pub is_zero : Option Bytes → Bool
is_zero none = false
is_zero (some []) = false
is_zero (some (b ∷ [])) = b == b'0'
is_zero (some (b ∷ c ∷ bs)) = false

pub drop_zero_length : (t : Tables) → Bool → t.Table → t.Table
drop_zero_length t header_only headers =
    if header_only && is_zero (t.get headers content_length)
    then t.unset headers content_length
    else headers

pub set_date : (t : Tables) → Server → Bool → t.Table → t.Table
set_date t s is_direct headers =
    if is_direct || not (is_some (t.get headers date))
    then t.setn headers date s.rfc822_date
    else headers

pub set_server : (t : Tables) → Server → Bool → t.Table → t.Table
set_server t s is_direct headers =
    if is_direct || not (is_some (t.get headers server))
    then set_if t server s.banner headers
    else headers

-- The part of `h3_response_finalize` after the body's fields were cleared.
pub describe : (t : Tables) → Server → Finalizing t → t.Table
unfolding set_languages set_expires drop_zero_length set_date set_server
describe t s r =
    let typed = set_if t content_type (s.make_content_type r.content_type) r.headers_out in
    let encoded = set_if t content_encoding r.content_encoding typed in
    let said = set_languages t s r.content_languages encoded in
    let expiring = set_expires t s r.no_cache said in
    set_server t s r.is_direct
      (set_date t s r.is_direct (drop_zero_length t r.header_only expiring))

-- `h3_response_finalize`
pub response_finalize : (t : Tables) → Server → Finalizing t → Finalizing t
unfolding merge_errors set_vary clear_body describe
response_finalize t s r =
    let merged = merge_errors t r in
    let varied = set_vary t s r.force_no_vary merged.headers_out in
    let untagged = if r.no_etag then t.unset varied etag else varied in
    let cleared = clear_body t s (record merged { headers_out = untagged }) in
    let headers = describe t s cleared in
    if is_some r.resp_headers then r else record cleared {
      headers_out = headers;
      resp_status = r.status;
      resp_headers = some headers;
    }
