-- ===== src/Config/Bounds.antt =====
-- No directive and no merge takes a setting above the largest value of its directive.
use mod_http.Common.{ℕ, ◌≤◌, Bool, true, false, [], ◌∷◌, Bytes, or_else, if◌then◌else◌, arith}
use mod_http.Config.{
  ServerConf, create_server_config, uint16_max, max_connections_max, stream_buffer_size_max,
  max_request_body_size_max, max_response_body_size_max, alt_svc_max_age_max, handshake_timeout_max,
  idle_timeout_max, socket_buffer_size_max, stream_timeout_max, max_stream_errors_max,
  qpack_table_capacity_max, qpack_blocked_streams_max, workers_max, max_worker_idle_seconds_max,
}
use mod_http.Config.Directives.{
  AprCstr, ℤ, pos, negsuc, Directive, set_ranged, set_h3_port, run_directive, store_port,
  set_h3_cert_path, set_h3_key_path, set_h3_max_concurrent_streams, set_h3_max_connections,
  set_h3_stream_buffer_size, set_h3_socket_buffer_size, set_h3_stream_timeout,
  set_h3_max_stream_errors, set_h3_qpack_table_capacity, set_h3_qpack_blocked_streams,
  set_h3_min_workers, set_h3_max_workers, set_h3_max_worker_idle_seconds,
  set_h3_max_request_body_size, set_h3_max_response_body_size, set_h3_handshake_timeout,
  set_h3_idle_timeout, set_h3_alt_svc_max_age, set_h3_alt_svc, set_h3_address_validation,
  set_h3_session_tickets,
}
use mod_http.Config.Merge.{merge_server_config}

-- The largest values. 0, which stands for a setting that no directive has given, is below them; which
-- values a directive takes is in `Config.Taken`.
pub record InBounds (c : ServerConf) : Type 0 where
  pub port : c.port ≤ uint16_max
  pub max_concurrent_streams : c.max_concurrent_streams ≤ uint16_max
  pub max_connections : c.max_connections ≤ max_connections_max
  pub stream_buffer_size : c.stream_buffer_size ≤ stream_buffer_size_max
  pub max_request_body_size : c.max_request_body_size ≤ max_request_body_size_max
  pub max_response_body_size : c.max_response_body_size ≤ max_response_body_size_max
  pub alt_svc_max_age : c.alt_svc_max_age ≤ alt_svc_max_age_max
  pub handshake_timeout : c.handshake_timeout ≤ handshake_timeout_max
  pub idle_timeout : c.idle_timeout ≤ idle_timeout_max
  pub socket_buffer_size : c.socket_buffer_size ≤ socket_buffer_size_max
  pub stream_timeout : c.stream_timeout ≤ stream_timeout_max
  pub max_stream_errors : c.max_stream_errors ≤ max_stream_errors_max
  pub qpack_table_capacity : c.qpack_table_capacity ≤ qpack_table_capacity_max
  pub qpack_blocked_streams : c.qpack_blocked_streams ≤ qpack_blocked_streams_max
  pub min_workers : c.min_workers ≤ workers_max
  pub max_workers : c.max_workers ≤ workers_max
  pub max_worker_idle_seconds : c.max_worker_idle_seconds ≤ max_worker_idle_seconds_max

pub create_server_config-InBounds : InBounds create_server_config
create_server_config-InBounds = omega arith

set_ranged-InBounds :
    (apr : AprCstr) (lo hi : ℕ) (store : ℕ → ServerConf → ServerConf) (arg : Bytes) (c : ServerConf)
    → ((v : ℕ) → lo ≤ v → v ≤ hi → InBounds (store v c))
    → InBounds c
    → InBounds (set_ranged apr lo hi store arg c).1
unfolding set_ranged
set_ranged-InBounds apr lo hi store [] c stored b = b
set_ranged-InBounds apr lo hi store (x ∷ arg) c stored b =
    ground (arith, stored (apr.atoui64 (x ∷ arg)).1)

store_port-InBounds : (port : ℤ) (c : ServerConf) → InBounds c → InBounds (store_port port c).1
unfolding store_port
store_port-InBounds (negsuc n) c b = b
store_port-InBounds (pos n) c b = ground arith

set_h3_port-InBounds :
    (apr : AprCstr) (arg : Bytes) (c : ServerConf) → InBounds c → InBounds (set_h3_port apr arg c).1
unfolding set_h3_port
set_h3_port-InBounds apr [] c b = b
set_h3_port-InBounds apr (x ∷ arg) c b =
    ground (arith, store_port-InBounds (apr.atoi64 (x ∷ arg)).1 c b)

-- Whatever the argument is, a directive leaves no setting above its largest value.
pub run_directive-InBounds :
    (apr : AprCstr) (d : Directive) (c : ServerConf)
    → InBounds c
    → InBounds (run_directive apr d c).1
unfolding run_directive set_h3_cert_path set_h3_key_path set_h3_max_concurrent_streams
    set_h3_max_connections set_h3_stream_buffer_size set_h3_socket_buffer_size set_h3_stream_timeout
    set_h3_max_stream_errors set_h3_qpack_table_capacity set_h3_qpack_blocked_streams
    set_h3_min_workers set_h3_max_workers set_h3_max_worker_idle_seconds
    set_h3_max_request_body_size set_h3_max_response_body_size set_h3_handshake_timeout
    set_h3_idle_timeout set_h3_alt_svc_max_age set_h3_alt_svc set_h3_address_validation
    set_h3_session_tickets
run_directive-InBounds apr (Directive.h3_certificate_path arg) c b = omega arith
run_directive-InBounds apr (Directive.h3_certificate_key_path arg) c b = omega arith
run_directive-InBounds apr (Directive.h3_port arg) c b = set_h3_port-InBounds apr arg c b
run_directive-InBounds apr (Directive.h3_max_concurrent_streams arg) c b =
    set_ranged-InBounds apr _ _ _ arg c (λ v l h. omega arith) b
run_directive-InBounds apr (Directive.h3_max_connections arg) c b =
    set_ranged-InBounds apr _ _ _ arg c (λ v l h. omega arith) b
run_directive-InBounds apr (Directive.h3_stream_buffer_size arg) c b =
    set_ranged-InBounds apr _ _ _ arg c (λ v l h. omega arith) b
run_directive-InBounds apr (Directive.h3_socket_buffer_size arg) c b =
    set_ranged-InBounds apr _ _ _ arg c (λ v l h. omega arith) b
run_directive-InBounds apr (Directive.h3_stream_timeout arg) c b =
    set_ranged-InBounds apr _ _ _ arg c (λ v l h. omega arith) b
run_directive-InBounds apr (Directive.h3_max_stream_errors arg) c b =
    set_ranged-InBounds apr _ _ _ arg c (λ v l h. omega arith) b
run_directive-InBounds apr (Directive.h3_qpack_table_capacity arg) c b =
    set_ranged-InBounds apr _ _ _ arg c (λ v l h. omega arith) b
run_directive-InBounds apr (Directive.h3_qpack_blocked_streams arg) c b =
    set_ranged-InBounds apr _ _ _ arg c (λ v l h. omega arith) b
run_directive-InBounds apr (Directive.h3_min_workers arg) c b =
    set_ranged-InBounds apr _ _ _ arg c (λ v l h. omega arith) b
run_directive-InBounds apr (Directive.h3_max_workers arg) c b =
    set_ranged-InBounds apr _ _ _ arg c (λ v l h. omega arith) b
run_directive-InBounds apr (Directive.h3_max_worker_idle_seconds arg) c b =
    set_ranged-InBounds apr _ _ _ arg c (λ v l h. omega arith) b
run_directive-InBounds apr (Directive.h3_max_request_body_size arg) c b =
    set_ranged-InBounds apr _ _ _ arg c (λ v l h. omega arith) b
run_directive-InBounds apr (Directive.h3_max_response_body_size arg) c b =
    set_ranged-InBounds apr _ _ _ arg c (λ v l h. omega arith) b
run_directive-InBounds apr (Directive.h3_handshake_timeout arg) c b =
    set_ranged-InBounds apr _ _ _ arg c (λ v l h. omega arith) b
run_directive-InBounds apr (Directive.h3_idle_timeout arg) c b =
    set_ranged-InBounds apr _ _ _ arg c (λ v l h. omega arith) b
run_directive-InBounds apr (Directive.h3_alt_svc_max_age arg) c b =
    set_ranged-InBounds apr _ _ _ arg c (λ v l h. omega arith) b
run_directive-InBounds apr (Directive.h3_alt_svc flag) c b = omega arith
run_directive-InBounds apr (Directive.h3_address_validation flag) c b = omega arith
run_directive-InBounds apr (Directive.h3_session_tickets flag) c b = omega arith

or_else-le : {x y n : ℕ} → x ≤ n → y ≤ n → or_else x y ≤ n
or_else-le h k = ground arith

if-le : (b : Bool) {x y n : ℕ} → x ≤ n → y ≤ n → (if b then x else y) ≤ n
if-le true h k = h
if-le false h k = k

-- Merging two configurations in range gives one in range.
pub merge_server_config-InBounds :
    {base new : ServerConf} → InBounds base → InBounds new → InBounds (merge_server_config base new)
unfolding merge_server_config
merge_server_config-InBounds {base} {new} b n = record {
  port = or_else-le n.port b.port;
  max_concurrent_streams = or_else-le n.max_concurrent_streams b.max_concurrent_streams;
  max_connections = or_else-le n.max_connections b.max_connections;
  stream_buffer_size = or_else-le n.stream_buffer_size b.stream_buffer_size;
  max_request_body_size = or_else-le n.max_request_body_size b.max_request_body_size;
  max_response_body_size = or_else-le n.max_response_body_size b.max_response_body_size;
  alt_svc_max_age = or_else-le n.alt_svc_max_age b.alt_svc_max_age;
  handshake_timeout = or_else-le n.handshake_timeout b.handshake_timeout;
  idle_timeout = or_else-le n.idle_timeout b.idle_timeout;
  socket_buffer_size = or_else-le n.socket_buffer_size b.socket_buffer_size;
  stream_timeout = or_else-le n.stream_timeout b.stream_timeout;
  max_stream_errors = or_else-le n.max_stream_errors b.max_stream_errors;
  qpack_table_capacity = if-le new.qpack_capacity_set n.qpack_table_capacity b.qpack_table_capacity;
  qpack_blocked_streams =
      if-le new.qpack_blocked_set n.qpack_blocked_streams b.qpack_blocked_streams;
  min_workers = or_else-le n.min_workers b.min_workers;
  max_workers = or_else-le n.max_workers b.max_workers;
  max_worker_idle_seconds = or_else-le n.max_worker_idle_seconds b.max_worker_idle_seconds;
}
