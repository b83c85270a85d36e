-- ===== src/Config/PostConfig.antt =====
-- `h3_post_config` and `get_server_port` of mod_http3/src/h3_config.c, and `find_h3_server` of
-- mod_http3/src/h3_server.c. httpd's list of servers is a list; the state query of httpd and the
-- test that a file opens for reading (`apr_file_open`) are arguments.
use mod_http.Common.{
  ℕ, Bool, false, Option, none, some, List, [], ◌∷◌, Bytes, ◌&&◌, ltb, ◌==◌, is_some, or_else,
  if◌then◌else◌,
}
use mod_http.Config.{
  ServerConf, TriFlag, unset, on, off, max_concurrent_streams_default, max_connections_default,
  stream_buffer_size_default, socket_buffer_size_default, max_stream_errors_default,
  qpack_table_capacity_default, qpack_blocked_streams_default, min_workers_default,
  max_workers_default, max_worker_idle_seconds_default, max_request_body_size_default,
  max_response_body_size_default, alt_svc_max_age_default, handshake_timeout_default,
  idle_timeout_default,
}

-- The parts of `server_rec` that the module reads: its configuration, and the ports of `addrs`.
pub record ServerRec : Type 0 where
  pub conf : ServerConf
  pub addrs : List ℕ

-- The first port that is not 0.
unfoldable pub get_server_port : List ℕ → ℕ
get_server_port [] = 0
get_server_port (host_port ∷ rest) = if host_port == 0 then get_server_port rest else host_port

-- `vc->h3_cert_path && vc->h3_key_path`
unfoldable pub has_paths : ServerConf → Bool
has_paths c = is_some c.cert_path && is_some c.key_path

unfoldable pub default_flag : TriFlag → TriFlag
default_flag unset = on
default_flag on = on
default_flag off = off

-- The body of the loop for the server that it stops at.
unfoldable pub fill_defaults : ServerConf → List ℕ → ServerConf
unfolding default_flag
fill_defaults c addrs =
    let detected = get_server_port addrs in
    let fewest = or_else c.min_workers min_workers_default in
    let most = or_else c.max_workers max_workers_default in
    record c {
      host_port = detected;
      port = or_else c.port detected;
      max_concurrent_streams = or_else c.max_concurrent_streams max_concurrent_streams_default;
      max_connections = or_else c.max_connections max_connections_default;
      stream_buffer_size = or_else c.stream_buffer_size stream_buffer_size_default;
      socket_buffer_size = or_else c.socket_buffer_size socket_buffer_size_default;
      max_stream_errors = or_else c.max_stream_errors max_stream_errors_default;
      qpack_table_capacity =
          if c.qpack_capacity_set then c.qpack_table_capacity else qpack_table_capacity_default;
      qpack_blocked_streams =
          if c.qpack_blocked_set then c.qpack_blocked_streams else qpack_blocked_streams_default;
      min_workers = fewest;
      max_workers = if ltb most fewest then fewest else most;
      max_worker_idle_seconds = or_else c.max_worker_idle_seconds max_worker_idle_seconds_default;
      max_request_body_size = or_else c.max_request_body_size max_request_body_size_default;
      max_response_body_size = or_else c.max_response_body_size max_response_body_size_default;
      alt_svc = default_flag c.alt_svc;
      address_validation = default_flag c.address_validation;
      session_tickets = default_flag c.session_tickets;
      alt_svc_max_age = or_else c.alt_svc_max_age alt_svc_max_age_default;
      handshake_timeout = or_else c.handshake_timeout handshake_timeout_default;
      idle_timeout = or_else c.idle_timeout idle_timeout_default;
    }

-- The loop over the servers: the servers afterwards, and the configuration that it stopped at.
unfoldable pub fill_first : List ServerRec → List ServerRec × Option ServerConf
fill_first [] = ([], none)
fill_first (vs ∷ rest) =
    let (rest', found) = fill_first rest in
    let filled = fill_defaults vs.conf vs.addrs in
    if has_paths vs.conf
    then (record vs { conf = filled } ∷ rest, some filled)
    else (vs ∷ rest', found)

-- `OK` and `HTTP_INTERNAL_SERVER_ERROR`
pub data Status : Type 0 where
  ok internal_server_error : Status

-- `apr_file_open` on a path of the configuration; a NULL path does not get this far.
unfoldable pub opens : (Bytes → Bool) → Option Bytes → Bool
opens readable none = false
opens readable (some path) = readable path

unfoldable pub check_files : (Bytes → Bool) → Option ServerConf → Status
unfolding opens
check_files readable none = internal_server_error
check_files readable (some c) =
    if opens readable c.cert_path && opens readable c.key_path then ok else internal_server_error

-- `pre_config` is `ap_state_query(AP_SQ_MAIN_STATE) == AP_SQ_MS_CREATE_PRE_CONFIG`.
unfoldable pub post_config : (Bytes → Bool) → Bool → List ServerRec → Status × List ServerRec
post_config readable pre_config servers =
    let (servers', found) = fill_first servers in
    if pre_config then (ok, servers) else (check_files readable found, servers')

-- What `h3_child_init` later looks up: the first server with both paths, its host port detected
-- again. The second part is the addresses of that server, `*out_server`.
unfoldable pub find_h3_server : List ServerRec → Option (ServerConf × List ℕ)
find_h3_server [] = none
find_h3_server (current ∷ rest) =
    if has_paths current.conf
    then some (record current.conf { host_port = get_server_port current.addrs }, current.addrs)
    else find_h3_server rest
