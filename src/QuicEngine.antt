-- ===== src/QuicEngine.antt =====
-- The QUIC engine: `h3q_engine_create`, `h3q_engine_destroy` and `h3q_engine_want` of
-- mod_http3/src/quic/h3q.c, and `h3q_tls_ctx_create` of mod_http3/src/quic/detail/h3q_tls.c. What the
-- calls of OpenSSL answer is a parameter; what is allocated and freed is a log, latest first.
pub mod Settled
pub mod Timeout
mod Tests
use mod_http.Common.{
  ℕ, ◌+◌, ◌*◌, ◌/◌, Bool, true, false, not, ◌&&◌, ◌||◌, Option, none, some, List, [], ◌∷◌, ltb,
  if◌then◌else◌,
}

-- What the engine allocates: itself, its context, the BIO method of the peer addresses and their
-- address, the listener, and the two BIOs.
pub data Resource : Type 0 where
  engine ssl_ctx bio_method peer_addr listener dgram_bio filter_bio : Resource

pub data HeapEvent : Type 0 where
  allocates frees : Resource → HeapEvent

-- `h3q_engine`: which pointers are set, and the index of the ex-data, `none` for a negative one.
pub record H3qEngine : Type 0 where
  pub ssl_ctx : Bool
  pub peer_addr_bio_method : Bool
  pub current_peer_addr : Bool
  pub peer_addr_ex_index : Option ℕ
  pub ssl_listener : Bool
  pub has_bios : Bool

-- Whether the calls succeed. Those of `handlers` are the four that set a handler.
pub record EngineCalls : Type 0 where
  pub calloc : Bool
  pub ctx_new : Bool
  pub certificate : Bool
  pub private_key : Bool
  pub meth_new : Bool
  pub handlers : Bool
  pub addr_new : Bool
  pub ex_index : Option ℕ
  pub new_listener : Bool
  pub new_dgram : Bool
  pub new_filter : Bool
  pub listen : Bool
  pub nonblocking : Bool

-- `h3q_tls_ctx_create`: whether there is a context, and the log.
pub tls_ctx_create : EngineCalls → List HeapEvent → Bool × List HeapEvent
tls_ctx_create a log =
    if not a.ctx_new
    then (false, log)
    else if not a.certificate || not a.private_key
    then (false, frees Resource.ssl_ctx ∷ allocates Resource.ssl_ctx ∷ log)
    else (true, allocates Resource.ssl_ctx ∷ log)

abbrev pub free_if : Bool → Resource → List HeapEvent → List HeapEvent
free_if set r log = if set then frees r ∷ log else log

-- `SSL_free`, which frees the BIOs that `SSL_set_bio` gave the listener.
abbrev pub ssl_free : H3qEngine → List HeapEvent → List HeapEvent
ssl_free e log =
    frees Resource.listener
    ∷ free_if e.has_bios Resource.dgram_bio (free_if e.has_bios Resource.filter_bio log)

-- `h3q_engine_destroy`. The queue of datagrams, cleared first, is that of `Datagram`.
pub engine_destroy : H3qEngine → List HeapEvent → List HeapEvent
engine_destroy e log =
    frees Resource.engine
    ∷ free_if e.ssl_ctx Resource.ssl_ctx (
        free_if e.peer_addr_bio_method Resource.bio_method (
          free_if e.current_peer_addr Resource.peer_addr
            (if e.ssl_listener then ssl_free e log else log)))

abbrev pub new_engine : H3qEngine
new_engine = record {
  ssl_ctx = false;
  peer_addr_bio_method = false;
  current_peer_addr = false;
  peer_addr_ex_index = none;
  ssl_listener = false;
  has_bios = false;
}

-- A failure after `calloc`.
abbrev pub fail_with : H3qEngine → List HeapEvent → Option H3qEngine × List HeapEvent
fail_with e log = (none, engine_destroy e log)

abbrev pub has_index : Option ℕ → Bool
has_index none = false
has_index (some i) = true

-- The listener's part of `h3q_engine_create`.
pub start_listener : EngineCalls → H3qEngine → List HeapEvent → Option H3qEngine × List HeapEvent
unfolding engine_destroy
start_listener a e log =
    let listening = record e { ssl_listener = true } in
    let heard = allocates Resource.listener ∷ log in
    let read = allocates Resource.dgram_bio ∷ heard in
    let filtered = allocates Resource.filter_bio ∷ read in
    let whole = record listening { has_bios = true } in
    if not a.new_listener
    then fail_with e log
    else if not a.new_dgram
    then fail_with listening heard
    else if not a.new_filter
    then fail_with listening (frees Resource.dgram_bio ∷ read)
    else if not a.listen || not a.nonblocking
    then fail_with whole filtered
    else (some whole, filtered)

-- From `BIO_ADDR_new` on, which succeeds or not.
pub index_peer_addr :
    EngineCalls → Bool → H3qEngine → List HeapEvent → Option H3qEngine × List HeapEvent
unfolding engine_destroy start_listener
index_peer_addr a addr_ok e log =
    let with_addr = record e { current_peer_addr = addr_ok; peer_addr_ex_index = a.ex_index } in
    let noted = if addr_ok then allocates Resource.peer_addr ∷ log else log in
    if not addr_ok || not (has_index a.ex_index)
    then fail_with with_addr noted
    else start_listener a with_addr noted

-- The part on the peer addresses.
pub start_peer_addr : EngineCalls → H3qEngine → List HeapEvent → Option H3qEngine × List HeapEvent
unfolding engine_destroy index_peer_addr
start_peer_addr a e log =
    let with_method = record e { peer_addr_bio_method = true } in
    let made = allocates Resource.bio_method ∷ log in
    if not a.meth_new
    then fail_with e log
    else if not a.handlers
    then fail_with with_method made
    else index_peer_addr a a.addr_new with_method made

-- `h3q_engine_create`: the engine, `none` for NULL, and the log.
pub engine_create : EngineCalls → Option H3qEngine × List HeapEvent
unfolding tls_ctx_create engine_destroy start_peer_addr
engine_create a =
    let (has_ctx, log) = tls_ctx_create a (allocates Resource.engine ∷ []) in
    if not a.calloc
    then (none, [])
    else if not has_ctx
    then fail_with new_engine log
    else start_peer_addr a (record new_engine { ssl_ctx = true }) log

-- What `SSL_get_event_timeout` gives: seconds and microseconds, `none` where it fails or is infinite.
abbrev pub timeout_in_ms : ℕ × ℕ → ℕ
timeout_in_ms (tv_sec, tv_usec) = tv_sec * 1000 + tv_usec / 1000

-- `*timeout_ms` after `h3q_engine_want`, of an engine with a listener.
pub want_timeout : Option (ℕ × ℕ) → ℕ → ℕ
want_timeout event_timeout timeout_ms =
    let sooner : ℕ = elim event_timeout [
      | none ↦ timeout_ms
      | some tv ↦ if ltb (timeout_in_ms tv) timeout_ms then timeout_in_ms tv else timeout_ms
    ] in
    if ltb sooner 1 then 1 else sooner

-- `h3q_engine_want`: `want_read`, `want_write` and `*timeout_ms`. The calls of OpenSSL answer whether
-- the listener wants to read and to write.
pub engine_want : Option H3qEngine → Bool → Bool → Option (ℕ × ℕ) → ℕ → Bool × Bool × ℕ
unfolding want_timeout
engine_want none reads writes event_timeout timeout_ms = (false, false, 1000)
engine_want (some e) reads writes event_timeout timeout_ms =
    if e.ssl_listener
    then (reads, writes, want_timeout event_timeout timeout_ms)
    else (false, false, 1000)
