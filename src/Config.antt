-- ===== src/Config.antt =====
-- The server configuration: `h3_server_conf` of mod_http3/include/h3_config.h and the default and
-- maximum values of mod_http3/include/h3.h. `size_t` is taken to have 64 bits.
pub mod Directives
pub mod Merge
pub mod PostConfig
pub mod Bounds
pub mod Ready
pub mod Refused
pub mod Numeric
pub mod Taken
mod Tests
use mod_http.Common.{ℕ, ◌-◌, ◌*◌, ◌^◌, Bool, true, false, Option, none, some, Bytes}

-- `h3_tri_flag`
pub data TriFlag : Type 0 where
  unset on off : TriFlag

-- `struct h3_server_conf`. A path is the bytes of the string, `none` for NULL.
pub record ServerConf : Type 0 where
  pub host_port : ℕ
  pub cert_path : Option Bytes
  pub key_path : Option Bytes
  pub port : ℕ
  pub max_concurrent_streams : ℕ
  pub max_connections : ℕ
  pub stream_buffer_size : ℕ
  pub max_request_body_size : ℕ
  pub max_response_body_size : ℕ
  pub alt_svc : TriFlag
  pub address_validation : TriFlag
  pub alt_svc_max_age : ℕ
  pub handshake_timeout : ℕ
  pub idle_timeout : ℕ
  pub socket_buffer_size : ℕ
  pub session_tickets : TriFlag
  pub stream_timeout : ℕ
  pub max_stream_errors : ℕ
  pub qpack_capacity_set : Bool
  pub qpack_blocked_set : Bool
  pub qpack_table_capacity : ℕ
  pub qpack_blocked_streams : ℕ
  pub min_workers : ℕ
  pub max_workers : ℕ
  pub max_worker_idle_seconds : ℕ

-- `h3_create_server_config`: `apr_pcalloc` clears every field.
abbrev pub create_server_config : ServerConf
create_server_config = record {
  host_port = 0;
  cert_path = none;
  key_path = none;
  port = 0;
  max_concurrent_streams = 0;
  max_connections = 0;
  stream_buffer_size = 0;
  max_request_body_size = 0;
  max_response_body_size = 0;
  alt_svc = unset;
  address_validation = unset;
  alt_svc_max_age = 0;
  handshake_timeout = 0;
  idle_timeout = 0;
  socket_buffer_size = 0;
  session_tickets = unset;
  stream_timeout = 0;
  max_stream_errors = 0;
  qpack_capacity_set = false;
  qpack_blocked_set = false;
  qpack_table_capacity = 0;
  qpack_blocked_streams = 0;
  min_workers = 0;
  max_workers = 0;
  max_worker_idle_seconds = 0;
}

-- The values of h3.h, directives first in the order of that file. `uint16_max` is C's UINT16_MAX.
abbrev pub uint16_max : ℕ
uint16_max = 2 ^ 16 - 1

abbrev pub size_max : ℕ
size_max = 2 ^ 64 - 1

abbrev pub max_concurrent_streams_default : ℕ
max_concurrent_streams_default = 100

abbrev pub max_concurrent_streams_max : ℕ
max_concurrent_streams_max = 1000

abbrev pub max_connections_default : ℕ
max_connections_default = 256

abbrev pub max_connections_max : ℕ
max_connections_max = 10000

abbrev pub stream_buffer_size_default : ℕ
stream_buffer_size_default = 64 * 1024

abbrev pub stream_buffer_size_max : ℕ
stream_buffer_size_max = 1024 * 1024

abbrev pub max_request_body_size_default : ℕ
max_request_body_size_default = 10 * 1024 * 1024

abbrev pub max_request_body_size_max : ℕ
max_request_body_size_max = 1024 * 1024 * 1024

abbrev pub max_response_body_size_default : ℕ
max_response_body_size_default = size_max

abbrev pub max_response_body_size_max : ℕ
max_response_body_size_max = 2 * 1024 * 1024 * 1024

abbrev pub alt_svc_max_age_default : ℕ
alt_svc_max_age_default = 86400

abbrev pub alt_svc_max_age_max : ℕ
alt_svc_max_age_max = 7 * 24 * 3600

abbrev pub socket_buffer_size_default : ℕ
socket_buffer_size_default = 2 * 1024 * 1024

abbrev pub socket_buffer_size_max : ℕ
socket_buffer_size_max = 64 * 1024 * 1024

abbrev pub stream_timeout_max : ℕ
stream_timeout_max = 86400

abbrev pub max_stream_errors_default : ℕ
max_stream_errors_default = 8

abbrev pub max_stream_errors_max : ℕ
max_stream_errors_max = 10000

abbrev pub qpack_table_capacity_default : ℕ
qpack_table_capacity_default = 4096

abbrev pub qpack_table_capacity_max : ℕ
qpack_table_capacity_max = 1024 * 1024

abbrev pub qpack_blocked_streams_default : ℕ
qpack_blocked_streams_default = 0

abbrev pub qpack_blocked_streams_max : ℕ
qpack_blocked_streams_max = 1000

abbrev pub min_workers_default : ℕ
min_workers_default = 16

abbrev pub max_workers_default : ℕ
max_workers_default = 64

abbrev pub workers_max : ℕ
workers_max = 4096

abbrev pub max_worker_idle_seconds_default : ℕ
max_worker_idle_seconds_default = 600

abbrev pub max_worker_idle_seconds_max : ℕ
max_worker_idle_seconds_max = 86400

abbrev pub handshake_timeout_default : ℕ
handshake_timeout_default = 10

abbrev pub handshake_timeout_max : ℕ
handshake_timeout_max = 600

abbrev pub idle_timeout_default : ℕ
idle_timeout_default = 300

abbrev pub idle_timeout_max : ℕ
idle_timeout_max = 86400
