-- ===== src/Config/Ready.antt =====
-- What the rest of the module may rely on once `h3_post_config` has returned OK.
use mod_http.Common.{
  ℕ, ◌≤◌, ◌≢◌, ◌≡◌, refl, subst, some_inj, Bool, true, false, Option, none, some, List, [], ◌∷◌,
  Bytes, or_else, arith, Bool-cases, inl, inr,
}
use mod_http.Config.{
  ServerConf, TriFlag, unset, on, off, alt_svc_max_age_max, handshake_timeout_max, idle_timeout_max,
  max_connections_max, max_request_body_size_max, max_stream_errors_max,
  max_worker_idle_seconds_max, size_max, socket_buffer_size_max, stream_buffer_size_max, uint16_max,
  workers_max, qpack_table_capacity_max, qpack_blocked_streams_max,
}
use mod_http.Config.Bounds.{InBounds}
use mod_http.Config.PostConfig.{
  ServerRec, get_server_port, has_paths, default_flag, fill_defaults, fill_first, opens,
  check_files, post_config, find_h3_server, ok,
}

-- `x` lies in `lo..hi`.
abbrev Within : ℕ → ℕ → ℕ → Type 0
Within lo hi x = (lo ≤ x) × (x ≤ hi)

-- A configuration that the listener can run with: every limit is given and in range, the worker
-- pool's bounds are ordered, and no flag is left unset.
pub record IsReady (c : ServerConf) : Type 0 where
  pub max_concurrent_streams : Within 1 uint16_max c.max_concurrent_streams
  pub max_connections : Within 1 max_connections_max c.max_connections
  pub stream_buffer_size : Within 1 stream_buffer_size_max c.stream_buffer_size
  pub max_request_body_size : Within 1 max_request_body_size_max c.max_request_body_size
  pub max_response_body_size : Within 1 size_max c.max_response_body_size
  pub alt_svc_max_age : Within 1 alt_svc_max_age_max c.alt_svc_max_age
  pub handshake_timeout : Within 1 handshake_timeout_max c.handshake_timeout
  pub idle_timeout : Within 1 idle_timeout_max c.idle_timeout
  pub socket_buffer_size : Within 1 socket_buffer_size_max c.socket_buffer_size
  pub max_stream_errors : Within 1 max_stream_errors_max c.max_stream_errors
  pub max_worker_idle_seconds : Within 1 max_worker_idle_seconds_max c.max_worker_idle_seconds
  pub qpack_table_capacity : c.qpack_table_capacity ≤ qpack_table_capacity_max
  pub qpack_blocked_streams : c.qpack_blocked_streams ≤ qpack_blocked_streams_max
  pub min_workers : Within 1 workers_max c.min_workers
  pub max_workers : Within c.min_workers workers_max c.max_workers
  pub alt_svc : c.alt_svc ≢ unset
  pub address_validation : c.address_validation ≢ unset
  pub session_tickets : c.session_tickets ≢ unset

or_else-Within : (x y hi : ℕ) → x ≤ hi → 1 ≤ y → y ≤ hi → Within 1 hi (or_else x y)
or_else-Within x y hi a b d = ground arith

default_flag-ne-unset : (f : TriFlag) → default_flag f ≢ unset
unfolding default_flag
default_flag-ne-unset unset = λ e. cc
default_flag-ne-unset on = λ e. cc
default_flag-ne-unset off = λ e. cc

fill_defaults-IsReady :
    (c : ServerConf) (addrs : List ℕ) → InBounds c → IsReady (fill_defaults c addrs)
unfolding fill_defaults
fill_defaults-IsReady c addrs b = record {
  max_concurrent_streams =
      or_else-Within c.max_concurrent_streams _ _ (omega arith) (omega arith) (omega arith);
  max_connections = or_else-Within c.max_connections _ _ (omega arith) (omega arith) (omega arith);
  stream_buffer_size =
      or_else-Within c.stream_buffer_size _ _ (omega arith) (omega arith) (omega arith);
  max_request_body_size =
      or_else-Within c.max_request_body_size _ _ (omega arith) (omega arith) (omega arith);
  max_response_body_size =
      or_else-Within c.max_response_body_size _ _ (omega arith) (omega arith) (omega arith);
  alt_svc_max_age = or_else-Within c.alt_svc_max_age _ _ (omega arith) (omega arith) (omega arith);
  handshake_timeout =
      or_else-Within c.handshake_timeout _ _ (omega arith) (omega arith) (omega arith);
  idle_timeout = or_else-Within c.idle_timeout _ _ (omega arith) (omega arith) (omega arith);
  socket_buffer_size =
      or_else-Within c.socket_buffer_size _ _ (omega arith) (omega arith) (omega arith);
  max_stream_errors =
      or_else-Within c.max_stream_errors _ _ (omega arith) (omega arith) (omega arith);
  max_worker_idle_seconds =
      or_else-Within c.max_worker_idle_seconds _ _ (omega arith) (omega arith) (omega arith);
  qpack_table_capacity = ground arith;
  qpack_blocked_streams = ground arith;
  min_workers = or_else-Within c.min_workers _ _ (omega arith) (omega arith) (omega arith);
  max_workers = ground arith;
  alt_svc = default_flag-ne-unset c.alt_svc;
  address_validation = default_flag-ne-unset c.address_validation;
  session_tickets = default_flag-ne-unset c.session_tickets;
}

abbrev pub AllInBounds : List ServerRec → Type 0
AllInBounds [] = Unit
AllInBounds (vs ∷ rest) = InBounds vs.conf × AllInBounds rest

-- The server that the loop stops at is the one that `find_h3_server` looks up afterwards.
Served : List ServerRec → ServerConf → Type 0
Served servers c = (addrs : List ℕ) × (find_h3_server servers ≡ some (c, addrs)) × IsReady c

has_paths-fill_defaults :
    (c : ServerConf) (addrs : List ℕ) → has_paths (fill_defaults c addrs) ≡ has_paths c
unfolding fill_defaults has_paths
has_paths-fill_defaults c addrs = refl

-- `find_h3_server` detects the port that `h3_post_config` has detected.
host_port-fill_defaults :
    (c : ServerConf) (addrs : List ℕ)
    → record (fill_defaults c addrs) { host_port = get_server_port addrs } ≡ fill_defaults c addrs
unfolding fill_defaults
host_port-fill_defaults c addrs = refl

filled-Served :
    (vs : ServerRec) (rest : List ServerRec)
    → InBounds vs.conf
    → has_paths vs.conf ≡ true
    → let filled = fill_defaults vs.conf vs.addrs in
      Served (record vs { conf = filled } ∷ rest) filled
unfolding find_h3_server Served
filled-Served vs rest b y = (
  vs.addrs,
  rw (has_paths-fill_defaults vs.conf vs.addrs, y, host_port-fill_defaults vs.conf vs.addrs),
  fill_defaults-IsReady vs.conf vs.addrs b,
)

-- A server without both paths is passed over.
skipped-Served :
    (vs : ServerRec) (rest : List ServerRec) (c : ServerConf)
    → has_paths vs.conf ≡ false
    → Served rest c
    → Served (vs ∷ rest) c
unfolding find_h3_server Served
skipped-Served vs rest c n s = (s.0, rw n s.1, s.2)

fill_first-Served :
    (servers : List ServerRec) (c : ServerConf)
    → AllInBounds servers
    → (fill_first servers).1 ≡ some c
    → Served (fill_first servers).0 c
unfolding fill_first
fill_first-Served [] c b e = cc
fill_first-Served (vs ∷ rest) c b e = elim (Bool-cases (has_paths vs.conf)) [
  | inl y ↦
      rw (y, fill_first)
        (subst (Served _) (some_inj (rw (y, fill_first) at e)) (filled-Served vs rest b.0 y))
  | inr n ↦
      rw (n, fill_first)
        (skipped-Served vs _ c n (fill_first-Served rest c b.1 (rw (n, fill_first) at e)))
]

check_files-ok :
    (readable : Bytes → Bool) (found : Option ServerConf)
    → check_files readable found ≡ ok
    → (c : ServerConf) × (found ≡ some c)
      × (opens readable c.cert_path ≡ true)
      × (opens readable c.key_path ≡ true)
unfolding check_files
check_files-ok readable none e = cc
check_files-ok readable (some c) e = (c, refl, ground arith, ground arith)

-- If `h3_post_config` returns OK after the first pass over the configuration, every setting having
-- been in range, then the server that a child process later looks up is there, its configuration
-- is ready, and its two files open.
pub post_config-IsReady :
    (readable : Bytes → Bool) (servers : List ServerRec)
    → AllInBounds servers
    → (post_config readable false servers).0 ≡ ok
    → (c : ServerConf) × (addrs : List ℕ) × (find_h3_server (post_config readable false servers).1
        ≡ some (c, addrs))
      × IsReady c
      × (opens readable c.cert_path ≡ true)
      × (opens readable c.key_path ≡ true)
unfolding post_config Served
post_config-IsReady readable servers b e =
    let (c, found, cert, key) = check_files-ok readable (fill_first servers).1 e in
    let (addrs, looked_up, ready) = fill_first-Served servers c b found in
    (c, addrs, looked_up, ready, cert, key)
