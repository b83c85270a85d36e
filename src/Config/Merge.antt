-- ===== src/Config/Merge.antt =====
-- `h3_merge_server_config` of mod_http3/src/h3_config.c.
use mod_http.Common.{
  ℕ, Bool, true, false, Option, none, some, ◌||◌, or_else, or_else?, if◌then◌else◌, ◌≡◌, refl,
  arith,
}
use mod_http.Config.{ServerConf, TriFlag, unset, on, off, create_server_config}

-- `new != H3_FLAG_UNSET ? new : base`
unfoldable pub or_flag : TriFlag → TriFlag → TriFlag
or_flag unset base = base
or_flag on base = on
or_flag off base = off

-- `host_port` is not merged: it stays 0 until `h3_post_config` sets it.
unfoldable pub merge_server_config : ServerConf → ServerConf → ServerConf
unfolding or_flag
merge_server_config base new = record {
  host_port = 0;
  cert_path = or_else? new.cert_path base.cert_path;
  key_path = or_else? new.key_path base.key_path;
  port = or_else new.port base.port;
  max_concurrent_streams = or_else new.max_concurrent_streams base.max_concurrent_streams;
  max_connections = or_else new.max_connections base.max_connections;
  stream_buffer_size = or_else new.stream_buffer_size base.stream_buffer_size;
  max_request_body_size = or_else new.max_request_body_size base.max_request_body_size;
  max_response_body_size = or_else new.max_response_body_size base.max_response_body_size;
  alt_svc = or_flag new.alt_svc base.alt_svc;
  address_validation = or_flag new.address_validation base.address_validation;
  alt_svc_max_age = or_else new.alt_svc_max_age base.alt_svc_max_age;
  handshake_timeout = or_else new.handshake_timeout base.handshake_timeout;
  idle_timeout = or_else new.idle_timeout base.idle_timeout;
  socket_buffer_size = or_else new.socket_buffer_size base.socket_buffer_size;
  session_tickets = or_flag new.session_tickets base.session_tickets;
  stream_timeout = or_else new.stream_timeout base.stream_timeout;
  max_stream_errors = or_else new.max_stream_errors base.max_stream_errors;
  qpack_capacity_set = new.qpack_capacity_set || base.qpack_capacity_set;
  qpack_table_capacity =
      if new.qpack_capacity_set then new.qpack_table_capacity else base.qpack_table_capacity;
  qpack_blocked_set = new.qpack_blocked_set || base.qpack_blocked_set;
  qpack_blocked_streams =
      if new.qpack_blocked_set then new.qpack_blocked_streams else base.qpack_blocked_streams;
  min_workers = or_else new.min_workers base.min_workers;
  max_workers = or_else new.max_workers base.max_workers;
  max_worker_idle_seconds = or_else new.max_worker_idle_seconds base.max_worker_idle_seconds;
}

or_else_assoc : (x y z : ℕ) → or_else x (or_else y z) ≡ or_else (or_else x y) z
or_else_assoc x y z = ground arith

or_else?_assoc {ℓ} :
    {A : Type ℓ} (x y z : Option A) → or_else? x (or_else? y z) ≡ or_else? (or_else? x y) z
or_else?_assoc none y z = refl
or_else?_assoc (some a) y z = refl

or_flag_assoc : (x y z : TriFlag) → or_flag x (or_flag y z) ≡ or_flag (or_flag x y) z
unfolding or_flag
or_flag_assoc unset y z = refl
or_flag_assoc on y z = refl
or_flag_assoc off y z = refl

or_assoc : (x y z : Bool) → (x || (y || z)) ≡ ((x || y) || z)
or_assoc true y z = refl
or_assoc false y z = refl

set_assoc :
    (s t : Bool) (x y z : ℕ)
    → (if s then x else if t then y else z) ≡ (if s || t then if s then x else y else z)
set_assoc true t x y z = refl
set_assoc false t x y z = refl

-- Merging is associative: a virtual host's settings combine with the main server's in one way,
-- however the nested sections are grouped.
pub merge_server_config_assoc :
    (a b c : ServerConf)
    → merge_server_config (merge_server_config a b) c
      ≡ merge_server_config a (merge_server_config b c)
unfolding merge_server_config
merge_server_config_assoc a b c = λ i. record {
  host_port = 0;
  cert_path = or_else?_assoc c.cert_path b.cert_path a.cert_path i;
  key_path = or_else?_assoc c.key_path b.key_path a.key_path i;
  port = or_else_assoc c.port b.port a.port i;
  max_concurrent_streams =
      or_else_assoc c.max_concurrent_streams b.max_concurrent_streams a.max_concurrent_streams i;
  max_connections = or_else_assoc c.max_connections b.max_connections a.max_connections i;
  stream_buffer_size =
      or_else_assoc c.stream_buffer_size b.stream_buffer_size a.stream_buffer_size i;
  max_request_body_size =
      or_else_assoc c.max_request_body_size b.max_request_body_size a.max_request_body_size i;
  max_response_body_size =
      or_else_assoc c.max_response_body_size b.max_response_body_size a.max_response_body_size i;
  alt_svc = or_flag_assoc c.alt_svc b.alt_svc a.alt_svc i;
  address_validation =
      or_flag_assoc c.address_validation b.address_validation a.address_validation i;
  alt_svc_max_age = or_else_assoc c.alt_svc_max_age b.alt_svc_max_age a.alt_svc_max_age i;
  handshake_timeout = or_else_assoc c.handshake_timeout b.handshake_timeout a.handshake_timeout i;
  idle_timeout = or_else_assoc c.idle_timeout b.idle_timeout a.idle_timeout i;
  socket_buffer_size =
      or_else_assoc c.socket_buffer_size b.socket_buffer_size a.socket_buffer_size i;
  session_tickets = or_flag_assoc c.session_tickets b.session_tickets a.session_tickets i;
  stream_timeout = or_else_assoc c.stream_timeout b.stream_timeout a.stream_timeout i;
  max_stream_errors = or_else_assoc c.max_stream_errors b.max_stream_errors a.max_stream_errors i;
  qpack_capacity_set = or_assoc c.qpack_capacity_set b.qpack_capacity_set a.qpack_capacity_set i;
  qpack_table_capacity =
      set_assoc c.qpack_capacity_set b.qpack_capacity_set c.qpack_table_capacity
        b.qpack_table_capacity a.qpack_table_capacity i;
  qpack_blocked_set = or_assoc c.qpack_blocked_set b.qpack_blocked_set a.qpack_blocked_set i;
  qpack_blocked_streams =
      set_assoc c.qpack_blocked_set b.qpack_blocked_set c.qpack_blocked_streams
        b.qpack_blocked_streams a.qpack_blocked_streams i;
  min_workers = or_else_assoc c.min_workers b.min_workers a.min_workers i;
  max_workers = or_else_assoc c.max_workers b.max_workers a.max_workers i;
  max_worker_idle_seconds =
      or_else_assoc c.max_worker_idle_seconds b.max_worker_idle_seconds a.max_worker_idle_seconds i;
}

-- A server with no directive of its own inherits every setting of the base server; only the
-- detected host port is left to `h3_post_config`.
pub merge_server_config_inherits :
    (base : ServerConf)
    → merge_server_config base create_server_config ≡ record base { host_port = 0 }
unfolding merge_server_config or_flag
merge_server_config_inherits base = refl
