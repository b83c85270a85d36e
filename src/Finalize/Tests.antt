-- ===== src/Finalize/Tests.antt =====
-- A response without a body whose handler gave a length, and the theorem applied.
use mod_http.Common.{
  ◌≡◌, refl, ap, Bool, true, false, not, ◌||◌, Option, none, some, List, [], ◌∷◌, Bytes, ◌==◌,
  eq→==, is_some, or_else?, if◌then◌else◌,
}
use mod_http.Finalize.{
  Field, vary, etag, transfer_encoding, content_length, content_type, content_encoding,
  content_language, expires, date, server, Tables, Server, Finalizing, response_finalize,
}
use mod_http.Finalize.Framed.{code, TablesAreLawful, response_finalize_lem}

-- A table as a function, with one value for each name.
abbrev Fields : Type 0
Fields = Field → Option Bytes

abbrev listed : Option Bytes → List Bytes
listed none = []
listed (some v) = v ∷ []

abbrev any_set : Fields → List Field → Bool
any_set h [] = false
any_set h (f ∷ fs) = is_some (h f) || any_set h fs

abbrev all_fields : List Field
all_fields =
    vary ∷ etag ∷ transfer_encoding ∷ content_length ∷ content_type ∷ content_encoding
    ∷ content_language ∷ expires ∷ date ∷ server ∷ []

abbrev tables : Tables
tables = record {
  Table = Fields;
  get = λ h f. h f;
  all = λ h f. listed (h f);
  setn = λ h f v g. if code f == code g then some v else h g;
  add = λ h f v g. if code f == code g then or_else? (h g) (some v) else h g;
  unset = λ h f g. if code f == code g then none else h g;
  overlay = λ over base g. or_else? (over g) (base g);
  empty = λ g. none;
  is_empty = λ h. not (any_set h all_fields);
}

tables-TablesAreLawful : TablesAreLawful tables
tables-TablesAreLawful = record {
  setn_same = λ h f v. ap (λ b. if b then some v else h f) (eq→== (code f) (code f) refl);
  setn_other = λ h f g v other. ap (λ b. if b then some v else h g) other;
  add_other = λ h f g v other. ap (λ b. if b then or_else? (h g) (some v) else h g) other;
  unset_same = λ h f. ap (λ b. if b then none else h f) (eq→== (code f) (code f) refl);
  unset_other = λ h f g other. ap (λ b. if b then none else h g) other;
}

abbrev httpd : Server
httpd = record {
  text = record { isspace = λ b. b == 0x20; cstr_casecmp = λ a b. false };
  is_header_only = λ status. status == 204;
  make_content_type = λ given. given;
  list_items = λ field. field ∷ [];
  rfc822_date = b'd' ∷ [];
  banner = some (b's' ∷ []);
}

abbrev no_content : Finalizing tables
no_content = record {
  headers_out = λ f. if code f == code content_length then some (b'5' ∷ []) else none;
  err_headers_out = λ f. none;
  force_no_vary = false;
  no_etag = true;
  status = 204;
  content_type = some (b't' ∷ []);
  content_encoding = none;
  content_languages = [];
  no_cache = true;
  header_only = false;
  is_direct = true;
  resp_status = 0;
  resp_headers = none;
}

response_finalize_lem_example :
    let done = response_finalize tables httpd no_content in
    (response_finalize tables httpd done ≡ done)
    × (done.resp_headers ≡ some done.headers_out)
    × (done.resp_status ≡ 204)
    × (true ≡ true
        → (done.headers_out content_length ≡ none) × (done.headers_out transfer_encoding ≡ none))
response_finalize_lem_example =
    response_finalize_lem tables httpd tables-TablesAreLawful no_content refl
