-- ===== src/Hooks.antt =====
-- The hooks of httpd that mod_http3/src/h3_hooks.c fills. The tables of APR, its number format and the
-- text of the statistics are parameters.
pub mod Checks
pub mod AltSvc
mod Tests
use mod_http.Common.{
  ℕ, Bool, true, false, not, ◌&&◌, ◌||◌, Option, none, some, List, [], ◌∷◌, ◌++◌, Bytes, is_some,
  ◌==◌, if◌then◌else◌,
}
use mod_http.Config.{ServerConf, TriFlag, unset, on, off}
use mod_http.Stream.{Stream}

-- What a hook returns: OK, DECLINED, or an HTTP status.
pub data HookStatus : Type 0 where
  ok declined : HookStatus
  http : ℕ → HookStatus

-- `apr_table_t` with `apr_table_get` and `apr_table_setn`, and the formats "%d" and "%u".
pub record Apr : Type 1 where
  pub Table : Type 0
  pub get : Table → Bytes → Option Bytes
  pub setn : Table → Bytes → Bytes → Table
  pub decimal : ℕ → Bytes

-- `h3_tls_env`, for a session that has one.
pub record TlsEnv : Type 0 where
  pub protocol : Option Bytes
  pub cipher : Bytes
  pub cipher_usekeysize : Bytes
  pub cipher_algkeysize : Bytes
  pub cipher_export : Bytes
  pub session_resumed : Bytes

-- The fields of `request_rec` that the hooks read and write: whether the connection is marked as
-- HTTP/3's, whether the request is initial, whether it has a main request, the stream of its
-- context, the TLS environment that it leads to, and the names and numbers of the protocol.
pub record HookRequest (apr : Apr) : Type 0 where
  pub is_h3 : Bool
  pub is_initial : Bool
  pub has_main : Bool
  pub stream : Option Stream
  pub tls_env : Option TlsEnv
  pub subprocess_env : apr.Table
  pub headers_out : apr.Table
  pub protocol : Option Bytes
  pub proto_num : ℕ
  pub filters_added : ℕ

abbrev pub http_3 : Bytes
http_3 = b'H' ∷ b'T' ∷ b'T' ∷ b'P' ∷ b'/' ∷ b'3' ∷ b'.' ∷ b'0' ∷ []

abbrev pub alt_svc_name : Bytes
alt_svc_name = b'A' ∷ b'l' ∷ b't' ∷ b'-' ∷ b'S' ∷ b'v' ∷ b'c' ∷ []

abbrev pub https_name : Bytes
https_name = b'H' ∷ b'T' ∷ b'T' ∷ b'P' ∷ b'S' ∷ []

abbrev pub ssl_protocol : Bytes
ssl_protocol =
    b'S' ∷ b'S' ∷ b'L' ∷ b'_' ∷ b'P' ∷ b'R' ∷ b'O' ∷ b'T' ∷ b'O' ∷ b'C' ∷ b'O' ∷ b'L' ∷ []

abbrev pub ssl_cipher : Bytes
ssl_cipher = b'S' ∷ b'S' ∷ b'L' ∷ b'_' ∷ b'C' ∷ b'I' ∷ b'P' ∷ b'H' ∷ b'E' ∷ b'R' ∷ []

abbrev pub ssl_cipher_usekeysize : Bytes
ssl_cipher_usekeysize =
    b'S' ∷ b'S' ∷ b'L' ∷ b'_' ∷ b'C' ∷ b'I' ∷ b'P' ∷ b'H' ∷ b'E' ∷ b'R' ∷ b'_' ∷ b'U' ∷ b'S' ∷ b'E'
    ∷ b'K' ∷ b'E' ∷ b'Y' ∷ b'S' ∷ b'I' ∷ b'Z' ∷ b'E' ∷ []

abbrev pub ssl_cipher_algkeysize : Bytes
ssl_cipher_algkeysize =
    b'S' ∷ b'S' ∷ b'L' ∷ b'_' ∷ b'C' ∷ b'I' ∷ b'P' ∷ b'H' ∷ b'E' ∷ b'R' ∷ b'_' ∷ b'A' ∷ b'L' ∷ b'G'
    ∷ b'K' ∷ b'E' ∷ b'Y' ∷ b'S' ∷ b'I' ∷ b'Z' ∷ b'E' ∷ []

abbrev pub ssl_cipher_export : Bytes
ssl_cipher_export =
    b'S' ∷ b'S' ∷ b'L' ∷ b'_' ∷ b'C' ∷ b'I' ∷ b'P' ∷ b'H' ∷ b'E' ∷ b'R' ∷ b'_' ∷ b'E' ∷ b'X' ∷ b'P'
    ∷ b'O' ∷ b'R' ∷ b'T' ∷ []

abbrev pub ssl_session_resumed : Bytes
ssl_session_resumed =
    b'S' ∷ b'S' ∷ b'L' ∷ b'_' ∷ b'S' ∷ b'E' ∷ b'S' ∷ b'S' ∷ b'I' ∷ b'O' ∷ b'N' ∷ b'_' ∷ b'R' ∷ b'E'
    ∷ b'S' ∷ b'U' ∷ b'M' ∷ b'E' ∷ b'D' ∷ []

-- `h3_hook_access_checker`
pub check_stream : Stream → HookStatus
check_stream h =
    if h.headers_too_large
    then http 431
    else if h.request_body_overflow
    then http 413
    else if h.body_truncated
    then http 400
    else ok

pub access_checker : {apr : Apr} → HookRequest apr → HookStatus
unfolding check_stream
access_checker r = elim r.is_h3 [
  | false ↦ declined
  | true ↦ elim r.stream [ none ↦ ok | some h ↦ check_stream h ]
]

-- `h3_hook_default_port` and `h3_hook_http_scheme`, `none` for NULL.
pub default_port : {apr : Apr} → HookRequest apr → ℕ
default_port r = if r.is_h3 then 443 else 0

pub http_scheme : {apr : Apr} → HookRequest apr → Option Bytes
http_scheme r = if r.is_h3 then some (b'h' ∷ b't' ∷ b't' ∷ b'p' ∷ b's' ∷ []) else none

-- `h3_hook_ssl_conn_is_ssl`
pub ssl_conn_is_ssl : {apr : Apr} → HookRequest apr → HookStatus
ssl_conn_is_ssl r = if r.is_h3 then ok else declined

-- `h3_hook_post_read_request`; `HTTP_VERSION(3, 0)` is 3000.
pub post_read_request : {apr : Apr} → HookRequest apr → HookStatus × HookRequest apr
post_read_request r =
    if r.is_h3 then (ok, record r { protocol = some http_3; proto_num = 3000 }) else (declined, r)

-- `h3_hook_http_create_request`: the three filters are added.
pub http_create_request : {apr : Apr} → HookRequest apr → HookStatus × HookRequest apr
http_create_request r =
    if not r.is_h3 || r.has_main then (declined, r) else (ok, record r { filters_added = 3 })

abbrev pub is_off : TriFlag → Bool
is_off unset = false
is_off on = false
is_off off = true

-- The text of the header.
pub alt_svc_value : Apr → ServerConf → Bytes
alt_svc_value apr conf =
    (b'h' ∷ b'3' ∷ b'=' ∷ b'"' ∷ b':' ∷ [])
    ++ apr.decimal conf.port
    ++ (b'"' ∷ b';' ∷ b' ' ∷ b'm' ∷ b'a' ∷ b'=' ∷ [])
    ++ apr.decimal conf.alt_svc_max_age
    ++ (b';' ∷ b' ' ∷ b'p' ∷ b'e' ∷ b'r' ∷ b's' ∷ b'i' ∷ b's' ∷ b't' ∷ b'=' ∷ b'1' ∷ [])

-- The part of `h3_hook_fixups` on the environment.
pub publish_tls : (apr : Apr) → TlsEnv → Bytes → apr.Table → apr.Table
publish_tls apr tls protocol env =
    apr.setn
      (apr.setn
        (apr.setn
          (apr.setn (apr.setn (apr.setn env ssl_protocol protocol) ssl_cipher tls.cipher)
            ssl_cipher_usekeysize tls.cipher_usekeysize)
          ssl_cipher_algkeysize tls.cipher_algkeysize)
        ssl_cipher_export tls.cipher_export)
      ssl_session_resumed tls.session_resumed

-- The protocol of the TLS environment that a request leads to.
abbrev pub tls_protocol : Option TlsEnv → Option Bytes
tls_protocol none = none
tls_protocol (some tls) = tls.protocol

pub publish_env : {apr : Apr} → HookRequest apr → HookRequest apr
unfolding publish_tls
publish_env {apr} r =
    let env = apr.setn r.subprocess_env https_name (b'o' ∷ b'n' ∷ []) in
    elim r.tls_env [
      | none ↦ record r { subprocess_env = env }
      | some tls ↦ elim tls.protocol [
        | none ↦ record r { subprocess_env = env }
        | some protocol ↦ record r { subprocess_env = publish_tls apr tls protocol env }
      ]
    ]

-- Whether the server advertises HTTP/3.
abbrev pub advertises : Option ServerConf → Option ServerConf
advertises none = none
advertises (some conf) =
    if not (is_some conf.cert_path)
      || not (is_some conf.key_path)
      || conf.port == 0
      || is_off conf.alt_svc
    then none
    else some conf

-- The part of `h3_hook_fixups` on `Alt-Svc`.
pub advertise : {apr : Apr} → Option ServerConf → HookRequest apr → HookStatus × HookRequest apr
unfolding alt_svc_value
advertise {apr} conf r = elim (advertises conf) [
  | none ↦ (declined, r)
  | some c ↦ elim (apr.get r.headers_out alt_svc_name) [
    | some value ↦ (declined, r)
    | none ↦
        (ok, record r { headers_out = apr.setn r.headers_out alt_svc_name (alt_svc_value apr c) })
  ]
]

-- `h3_hook_fixups`
pub fixups : {apr : Apr} → Option ServerConf → HookRequest apr → HookStatus × HookRequest apr
unfolding publish_env advertise
fixups conf r =
    if not r.is_initial
    then (declined, r)
    else advertise conf (if r.is_h3 then publish_env r else r)

-- The counters of `h3_io_t` that `h3_status_handler` reports; `no_io` is its answer without a child
-- that listens.
pub data Reply : Type 0 where
  no_io : Reply
  counters : (live conns streams bytes_in bytes_out : ℕ) → Reply

pub record Counters : Type 0 where
  pub active_session_count : ℕ
  pub total_connections : ℕ
  pub total_streams : ℕ
  pub total_bytes_read : ℕ
  pub total_bytes_written : ℕ

-- `h3_status_handler`, of a request for the handler `http3-status` or not, and with GET or not.
pub status_handler : Bool → Bool → Option Counters → HookStatus × Option Reply
status_handler is_status is_get io =
    if not is_status || not is_get then (declined, none) else elim io [
      | none ↦ (ok, some no_io)
      | some c ↦ (
        ok,
        some (
            counters c.active_session_count c.total_connections c.total_streams c.total_bytes_read
              c.total_bytes_written),
      )
    ]
