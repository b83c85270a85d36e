-- ===== src/Config/Refused.antt =====
-- A directive that is refused changes nothing.
use mod_http.Common.{ℕ, ◌≡◌, refl, some, [], ◌∷◌, Bytes, arith}
use mod_http.Config.{ServerConf}
use mod_http.Config.Directives.{
  AprCstr, ℤ, pos, negsuc, Refusal, Directive, set_ranged, set_h3_port, run_directive, store_port,
  set_h3_cert_path, set_h3_key_path, set_h3_max_concurrent_streams, set_h3_max_connections,
  set_h3_stream_buffer_size, set_h3_socket_buffer_size, set_h3_stream_timeout,
  set_h3_max_stream_errors, set_h3_qpack_table_capacity, set_h3_qpack_blocked_streams,
  set_h3_min_workers, set_h3_max_workers, set_h3_max_worker_idle_seconds,
  set_h3_max_request_body_size, set_h3_max_response_body_size, set_h3_handshake_timeout,
  set_h3_idle_timeout, set_h3_alt_svc_max_age, set_h3_alt_svc, set_h3_address_validation,
  set_h3_session_tickets,
}

store_port-refused :
    (port : ℤ) (c : ServerConf) {r : Refusal}
    → (store_port port c).0 ≡ some r
    → (store_port port c).1 ≡ c
unfolding store_port
store_port-refused (negsuc n) c e = refl
store_port-refused (pos n) c e = ground arith

set_h3_port-refused :
    (apr : AprCstr) (arg : Bytes) (c : ServerConf) {r : Refusal}
    → (set_h3_port apr arg c).0 ≡ some r
    → (set_h3_port apr arg c).1 ≡ c
unfolding set_h3_port
set_h3_port-refused apr [] c e = refl
set_h3_port-refused apr (x ∷ arg) c {r} e =
    ground (arith, store_port-refused (apr.atoi64 (x ∷ arg)).1 c {r = r})

set_ranged-refused :
    (apr : AprCstr) (lo hi : ℕ) (store : ℕ → ServerConf → ServerConf) (arg : Bytes) (c : ServerConf)
    {r : Refusal}
    → (set_ranged apr lo hi store arg c).0 ≡ some r
    → (set_ranged apr lo hi store arg c).1 ≡ c
unfolding set_ranged
set_ranged-refused apr lo hi store [] c e = refl
set_ranged-refused apr lo hi store (x ∷ arg) c e = ground arith

-- A directive that returns an error message leaves the configuration as it was.
pub run_directive-refused :
    (apr : AprCstr) (d : Directive) (c : ServerConf) {r : Refusal}
    → (run_directive apr d c).0 ≡ some r
    → (run_directive apr d c).1 ≡ c
unfolding run_directive set_h3_cert_path set_h3_key_path set_h3_max_concurrent_streams
    set_h3_max_connections set_h3_stream_buffer_size set_h3_socket_buffer_size set_h3_stream_timeout
    set_h3_max_stream_errors set_h3_qpack_table_capacity set_h3_qpack_blocked_streams
    set_h3_min_workers set_h3_max_workers set_h3_max_worker_idle_seconds
    set_h3_max_request_body_size set_h3_max_response_body_size set_h3_handshake_timeout
    set_h3_idle_timeout set_h3_alt_svc_max_age set_h3_alt_svc set_h3_address_validation
    set_h3_session_tickets
run_directive-refused apr (Directive.h3_certificate_path arg) c e = cc
run_directive-refused apr (Directive.h3_certificate_key_path arg) c e = cc
run_directive-refused apr (Directive.h3_port arg) c e = set_h3_port-refused apr arg c e
run_directive-refused apr (Directive.h3_max_concurrent_streams arg) c e =
    set_ranged-refused apr _ _ _ arg c e
run_directive-refused apr (Directive.h3_max_connections arg) c e =
    set_ranged-refused apr _ _ _ arg c e
run_directive-refused apr (Directive.h3_stream_buffer_size arg) c e =
    set_ranged-refused apr _ _ _ arg c e
run_directive-refused apr (Directive.h3_socket_buffer_size arg) c e =
    set_ranged-refused apr _ _ _ arg c e
run_directive-refused apr (Directive.h3_stream_timeout arg) c e =
    set_ranged-refused apr _ _ _ arg c e
run_directive-refused apr (Directive.h3_max_stream_errors arg) c e =
    set_ranged-refused apr _ _ _ arg c e
run_directive-refused apr (Directive.h3_qpack_table_capacity arg) c e =
    set_ranged-refused apr _ _ _ arg c e
run_directive-refused apr (Directive.h3_qpack_blocked_streams arg) c e =
    set_ranged-refused apr _ _ _ arg c e
run_directive-refused apr (Directive.h3_min_workers arg) c e = set_ranged-refused apr _ _ _ arg c e
run_directive-refused apr (Directive.h3_max_workers arg) c e = set_ranged-refused apr _ _ _ arg c e
run_directive-refused apr (Directive.h3_max_worker_idle_seconds arg) c e =
    set_ranged-refused apr _ _ _ arg c e
run_directive-refused apr (Directive.h3_max_request_body_size arg) c e =
    set_ranged-refused apr _ _ _ arg c e
run_directive-refused apr (Directive.h3_max_response_body_size arg) c e =
    set_ranged-refused apr _ _ _ arg c e
run_directive-refused apr (Directive.h3_handshake_timeout arg) c e =
    set_ranged-refused apr _ _ _ arg c e
run_directive-refused apr (Directive.h3_idle_timeout arg) c e = set_ranged-refused apr _ _ _ arg c e
run_directive-refused apr (Directive.h3_alt_svc_max_age arg) c e =
    set_ranged-refused apr _ _ _ arg c e
run_directive-refused apr (Directive.h3_alt_svc flag) c e = cc
run_directive-refused apr (Directive.h3_address_validation flag) c e = cc
run_directive-refused apr (Directive.h3_session_tickets flag) c e = cc
