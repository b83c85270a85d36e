-- ===== src/Hooks/Tests.antt =====
-- A table of one field, and the theorems about the hooks applied.
use mod_http.Common.{
  ◌+◌, ◌≤◌, ◌<◌, ◌≡◌, refl, inl, true, false, Option, none, some, List, [], ◌∷◌, ◌++◌, Bytes,
  length, arith, if◌then◌else◌,
}
use mod_http.Config.{ServerConf, create_server_config}
use mod_http.Stream.{new_stream, request_body_len}
use mod_http.Callbacks.Body.{recv_all, joined}
use mod_http.Hooks.{Apr, HookRequest, ok, declined, http, access_checker, fixups}
use mod_http.Hooks.Checks.{of_stream, body_is_checked}
use mod_http.Hooks.AltSvc.{IsLawful, IsSilent, IsOpen, value_of, fixups_lem}

-- A table that holds what was set last, under every name.
abbrev last_set : Apr
last_set = record {
  Table = Option Bytes;
  get = λ t k. t;
  setn = λ t k v. some v;
  decimal = λ n. b'4' ∷ [];
}

last_set-IsLawful : IsLawful last_set
last_set-IsLawful t k v = refl

abbrev request : HookRequest last_set
request = record {
  is_h3 = true;
  is_initial = true;
  has_main = false;
  stream = none;
  tls_env = none;
  subprocess_env = none;
  headers_out = none;
  protocol = none;
  proto_num = 0;
  filters_added = 0;
}

abbrev host : ServerConf
host = record create_server_config {
  cert_path = some (b'c' ∷ []);
  key_path = some (b'k' ∷ []);
  port = 4;
}

host-IsOpen : IsOpen host (b'c' ∷ []) (b'k' ∷ [])
host-IsOpen = record { certificate = refl; key = refl; port = omega arith; flag = inl refl }

fixups_lem_example :
    ((fixups none request).1.headers_out ≡ none)
    × ((c : ServerConf) → IsSilent c → (fixups (some c) request).1.headers_out ≡ none)
    × ((c : ServerConf) (cert key : Bytes)
        → IsOpen c cert key
        → ((fixups (some c) request).1.headers_out ≡ some (value_of last_set c none))
          × ((fixups (some c) (fixups (some c) request).1).0 ≡ declined)
          × ((fixups (some c) (fixups (some c) request).1).1.headers_out
              ≡ (fixups (some c) request).1.headers_out))
fixups_lem_example = fixups_lem request last_set-IsLawful refl

abbrev chunks : List Bytes
chunks = (b'a' ∷ b'b' ∷ []) ∷ (b'c' ∷ []) ∷ []

body_is_checked_example :
    let h = new_stream host 0 4 1 in
    let status = access_checker (of_stream request (recv_all 2 chunks h)) in
    (h.headers_too_large ≡ true → status ≡ http 431)
    × (h.headers_too_large ≡ false
        → 2 < request_body_len h + length (joined chunks)
        → status ≡ http 413)
    × (h.headers_too_large ≡ false
        → request_body_len h + length (joined chunks) ≤ 2
        → (status ≡ (if h.body_truncated then http 400 else ok))
          × ((recv_all 2 chunks h).request_body ≡ h.request_body ++ joined chunks))
body_is_checked_example =
    body_is_checked request 2 chunks (new_stream host 0 4 1) refl refl (omega arith)
