-- ===== src/Config/Directives.antt =====
-- The directive handlers of mod_http3/src/h3_config.c (`set_h3_*` and the table `h3_cmds`).
-- `apr_cstr_atoi64` and `apr_cstr_atoui64` are APR's: parameters. A handler returns the error
-- message, by its kind, and the configuration; httpd stops at the first message. A NULL and an
-- empty argument are treated alike by the code, and are both `[]`. The configuration is never NULL:
-- `h3_create_server_config` allocates one for every server.
use mod_http.Common.{
  ℕ, ◌%◌, ◌^◌, Bool, true, false, Option, none, some, [], ◌∷◌, Bytes, ◌||◌, ltb, if◌then◌else◌,
}
use mod_http.Config.{
  ServerConf, TriFlag, on, off, alt_svc_max_age_max, handshake_timeout_max, idle_timeout_max,
  max_connections_max, max_request_body_size_max, max_response_body_size_max, max_stream_errors_max,
  max_worker_idle_seconds_max, qpack_blocked_streams_max, qpack_table_capacity_max,
  socket_buffer_size_max, stream_buffer_size_max, stream_timeout_max, uint16_max, workers_max,
}

-- The statuses that the two parsers document.
pub data AprStatus : Type 0 where
  success einval erange : AprStatus

-- `apr_int64_t`; `negsuc n` is -(n + 1).
pub data ℤ : Type 0 where
  pos : ℕ → ℤ
  negsuc : ℕ → ℤ

-- APR's number parsers: the status and what is stored through the pointer.
pub record AprCstr : Type 0 where
  pub atoi64 : Bytes → AprStatus × ℤ
  pub atoui64 : Bytes → AprStatus × ℕ

-- The error messages of a numeric directive.
pub data Refusal : Type 0 where
  empty_value not_a_number unrepresentable out_of_range : Refusal

abbrev pub Outcome : Type 0
Outcome = Option Refusal × ServerConf

unfoldable pub set_h3_cert_path : Bytes → ServerConf → Outcome
set_h3_cert_path arg c = (none, record c { cert_path = some arg })

unfoldable pub set_h3_key_path : Bytes → ServerConf → Outcome
set_h3_key_path arg c = (none, record c { key_path = some arg })

-- The tests on a parsed port, and the cast to `apr_port_t`.
unfoldable pub store_port : ℤ → ServerConf → Outcome
store_port (negsuc n) c = (some out_of_range, c)
store_port (pos port) c =
    if ltb port 1 || ltb 65535 port
    then (some out_of_range, c)
    else (none, record c { port = port % 2 ^ 16 })

module _ (apr : AprCstr) where
  unfoldable pub set_h3_port : Bytes → ServerConf → Outcome
  set_h3_port [] c = (some empty_value, c)
  set_h3_port (b ∷ arg) c = elim (apr.atoi64 (b ∷ arg)).0 [
    | einval ↦ (some not_a_number, c)
    | erange ↦ (some unrepresentable, c)
    | success ↦ store_port (apr.atoi64 (b ∷ arg)).1 c
  ]

  -- The body that the handlers below share in the source by repetition: the tests of the argument
  -- and of its value, then the assignment `store`.
  unfoldable pub set_ranged : ℕ → ℕ → (ℕ → ServerConf → ServerConf) → Bytes → ServerConf → Outcome
  set_ranged lo hi store [] c = (some empty_value, c)
  set_ranged lo hi store (b ∷ arg) c =
      let val = (apr.atoui64 (b ∷ arg)).1 in
      elim (apr.atoui64 (b ∷ arg)).0 [
        | einval ↦ (some not_a_number, c)
        | erange ↦ (some unrepresentable, c)
        | success ↦ if ltb val lo || ltb hi val then (some out_of_range, c) else (none, store val c)
      ]

  unfoldable pub set_h3_max_concurrent_streams : Bytes → ServerConf → Outcome
  set_h3_max_concurrent_streams =
      set_ranged 1 uint16_max (λ val c. record c { max_concurrent_streams = val % 2 ^ 32 })

  unfoldable pub set_h3_max_connections : Bytes → ServerConf → Outcome
  set_h3_max_connections =
      set_ranged 1 max_connections_max (λ val c. record c { max_connections = val % 2 ^ 32 })

  unfoldable pub set_h3_stream_buffer_size : Bytes → ServerConf → Outcome
  set_h3_stream_buffer_size =
      set_ranged 1 stream_buffer_size_max (λ val c. record c { stream_buffer_size = val % 2 ^ 64 })

  unfoldable pub set_h3_socket_buffer_size : Bytes → ServerConf → Outcome
  set_h3_socket_buffer_size =
      set_ranged 1 socket_buffer_size_max (λ val c. record c { socket_buffer_size = val % 2 ^ 64 })

  unfoldable pub set_h3_stream_timeout : Bytes → ServerConf → Outcome
  set_h3_stream_timeout =
      set_ranged 1 stream_timeout_max (λ val c. record c { stream_timeout = val % 2 ^ 32 })

  unfoldable pub set_h3_max_stream_errors : Bytes → ServerConf → Outcome
  set_h3_max_stream_errors =
      set_ranged 1 max_stream_errors_max (λ val c. record c { max_stream_errors = val % 2 ^ 32 })

  unfoldable pub set_h3_qpack_table_capacity : Bytes → ServerConf → Outcome
  set_h3_qpack_table_capacity =
      set_ranged 0 qpack_table_capacity_max
        (λ val c. record c { qpack_table_capacity = val % 2 ^ 32; qpack_capacity_set = true })

  unfoldable pub set_h3_qpack_blocked_streams : Bytes → ServerConf → Outcome
  set_h3_qpack_blocked_streams =
      set_ranged 0 qpack_blocked_streams_max
        (λ val c. record c { qpack_blocked_streams = val % 2 ^ 32; qpack_blocked_set = true })

  unfoldable pub set_h3_min_workers : Bytes → ServerConf → Outcome
  set_h3_min_workers = set_ranged 1 workers_max (λ val c. record c { min_workers = val % 2 ^ 32 })

  unfoldable pub set_h3_max_workers : Bytes → ServerConf → Outcome
  set_h3_max_workers = set_ranged 1 workers_max (λ val c. record c { max_workers = val % 2 ^ 32 })

  unfoldable pub set_h3_max_worker_idle_seconds : Bytes → ServerConf → Outcome
  set_h3_max_worker_idle_seconds =
      set_ranged 1 max_worker_idle_seconds_max
        (λ val c. record c { max_worker_idle_seconds = val % 2 ^ 32 })

  unfoldable pub set_h3_max_request_body_size : Bytes → ServerConf → Outcome
  set_h3_max_request_body_size =
      set_ranged 1 max_request_body_size_max
        (λ val c. record c { max_request_body_size = val % 2 ^ 64 })

  unfoldable pub set_h3_max_response_body_size : Bytes → ServerConf → Outcome
  set_h3_max_response_body_size =
      set_ranged 1 max_response_body_size_max
        (λ val c. record c { max_response_body_size = val % 2 ^ 64 })

  unfoldable pub set_h3_handshake_timeout : Bytes → ServerConf → Outcome
  set_h3_handshake_timeout =
      set_ranged 1 handshake_timeout_max (λ val c. record c { handshake_timeout = val % 2 ^ 32 })

  unfoldable pub set_h3_idle_timeout : Bytes → ServerConf → Outcome
  set_h3_idle_timeout =
      set_ranged 1 idle_timeout_max (λ val c. record c { idle_timeout = val % 2 ^ 32 })

  unfoldable pub set_h3_alt_svc_max_age : Bytes → ServerConf → Outcome
  set_h3_alt_svc_max_age =
      set_ranged 1 alt_svc_max_age_max (λ val c. record c { alt_svc_max_age = val % 2 ^ 32 })

unfoldable pub set_flag : Bool → TriFlag
set_flag true = on
set_flag false = off

unfoldable pub set_h3_session_tickets : Bool → ServerConf → Outcome
unfolding set_flag
set_h3_session_tickets flag c = (none, record c { session_tickets = set_flag flag })

unfoldable pub set_h3_alt_svc : Bool → ServerConf → Outcome
unfolding set_flag
set_h3_alt_svc flag c = (none, record c { alt_svc = set_flag flag })

unfoldable pub set_h3_address_validation : Bool → ServerConf → Outcome
unfolding set_flag
set_h3_address_validation flag c = (none, record c { address_validation = set_flag flag })

-- A line of the configuration file: a row of `h3_cmds` with its argument.
pub data Directive : Type 0 where
  h3_certificate_path h3_certificate_key_path h3_port : Bytes → Directive
  h3_max_concurrent_streams h3_max_connections h3_stream_buffer_size h3_socket_buffer_size
        h3_stream_timeout h3_max_stream_errors :
      Bytes → Directive
  h3_qpack_table_capacity h3_qpack_blocked_streams h3_min_workers h3_max_workers
        h3_max_worker_idle_seconds :
      Bytes → Directive
  h3_max_request_body_size h3_max_response_body_size h3_handshake_timeout h3_idle_timeout
        h3_alt_svc_max_age :
      Bytes → Directive
  h3_alt_svc h3_address_validation h3_session_tickets : Bool → Directive

-- `h3_cmds`: the handler of each directive.
unfoldable pub run_directive : AprCstr → Directive → ServerConf → Outcome
run_directive apr (h3_certificate_path arg) c = set_h3_cert_path arg c
run_directive apr (h3_certificate_key_path arg) c = set_h3_key_path arg c
run_directive apr (h3_port arg) c = set_h3_port apr arg c
run_directive apr (h3_max_concurrent_streams arg) c = set_h3_max_concurrent_streams apr arg c
run_directive apr (h3_max_connections arg) c = set_h3_max_connections apr arg c
run_directive apr (h3_stream_buffer_size arg) c = set_h3_stream_buffer_size apr arg c
run_directive apr (h3_socket_buffer_size arg) c = set_h3_socket_buffer_size apr arg c
run_directive apr (h3_stream_timeout arg) c = set_h3_stream_timeout apr arg c
run_directive apr (h3_max_stream_errors arg) c = set_h3_max_stream_errors apr arg c
run_directive apr (h3_qpack_table_capacity arg) c = set_h3_qpack_table_capacity apr arg c
run_directive apr (h3_qpack_blocked_streams arg) c = set_h3_qpack_blocked_streams apr arg c
run_directive apr (h3_min_workers arg) c = set_h3_min_workers apr arg c
run_directive apr (h3_max_workers arg) c = set_h3_max_workers apr arg c
run_directive apr (h3_max_worker_idle_seconds arg) c = set_h3_max_worker_idle_seconds apr arg c
run_directive apr (h3_max_request_body_size arg) c = set_h3_max_request_body_size apr arg c
run_directive apr (h3_max_response_body_size arg) c = set_h3_max_response_body_size apr arg c
run_directive apr (h3_handshake_timeout arg) c = set_h3_handshake_timeout apr arg c
run_directive apr (h3_idle_timeout arg) c = set_h3_idle_timeout apr arg c
run_directive apr (h3_alt_svc_max_age arg) c = set_h3_alt_svc_max_age apr arg c
run_directive apr (h3_alt_svc flag) c = set_h3_alt_svc flag c
run_directive apr (h3_address_validation flag) c = set_h3_address_validation flag c
run_directive apr (h3_session_tickets flag) c = set_h3_session_tickets flag c
