-- ===== src/Config/Taken.antt =====
-- Which numbers the directives of mod_http3/src/h3_config.c take, and which they refuse.
use mod_http.Common.{
  ℕ, ◌≤◌, ◌≡◌, ◌⊎◌, refl, ◌∙◌, some, [], ◌∷◌, Bytes, arith, Bool-cases, inl, inr, ◌||◌, ltb,
  some_inj,
}
use mod_http.Config.{
  ServerConf, alt_svc_max_age_max, handshake_timeout_max, idle_timeout_max, max_connections_max,
  max_request_body_size_max, max_response_body_size_max, max_stream_errors_max,
  max_worker_idle_seconds_max, qpack_blocked_streams_max, qpack_table_capacity_max,
  socket_buffer_size_max, stream_buffer_size_max, stream_timeout_max, uint16_max, workers_max,
}
use mod_http.Config.Directives.{
  AprCstr, AprStatus, success, einval, erange, ℤ, pos, negsuc, Refusal, Directive, set_ranged,
  set_h3_port, run_directive, store_port, set_h3_cert_path, set_h3_key_path,
  set_h3_max_concurrent_streams, set_h3_max_connections, set_h3_stream_buffer_size,
  set_h3_socket_buffer_size, set_h3_stream_timeout, set_h3_max_stream_errors,
  set_h3_qpack_table_capacity, set_h3_qpack_blocked_streams, set_h3_min_workers, set_h3_max_workers,
  set_h3_max_worker_idle_seconds, set_h3_max_request_body_size, set_h3_max_response_body_size,
  set_h3_handshake_timeout, set_h3_idle_timeout, set_h3_alt_svc_max_age, set_h3_alt_svc,
  set_h3_address_validation, set_h3_session_tickets,
}
use mod_http.Config.Bounds.{InBounds, run_directive-InBounds}
use mod_http.Config.Refused.{run_directive-refused}
use mod_http.Config.Numeric.{signed_number, unsigned, numeric, IsTaken}

AprStatus-cases : (s : AprStatus) → (s ≡ success) ⊎ ((s ≡ einval) ⊎ (s ≡ erange))
AprStatus-cases success = inl refl
AprStatus-cases einval = inr (inl refl)
AprStatus-cases erange = inr (inr refl)

set_ranged-IsTaken :
    (apr : AprCstr) (lo hi : ℕ) (store : ℕ → ServerConf → ServerConf) (setting : ServerConf → ℕ)
    (arg : Bytes) (c : ServerConf)
    → ((v : ℕ) → v ≤ hi → setting (store v c) ≡ v)
    → IsTaken
        (some (record { number = unsigned apr arg; lo = lo; hi = hi; setting = setting }))
        (set_ranged apr lo hi store arg c)
unfolding set_ranged
set_ranged-IsTaken apr lo hi store setting [] c stored = ((λ v e. absurd cc), (λ e. absurd cc))
set_ranged-IsTaken apr lo hi store setting (x ∷ arg) c stored =
    let parsed = apr.atoui64 (x ∷ arg) in
    elim (AprStatus-cases parsed.0) [
      | inr (inl e) ↦ rw (e, set_ranged) ((λ v n. absurd cc), (λ n. absurd cc))
      | inr (inr e) ↦ rw (e, set_ranged) ((λ v n. absurd cc), (λ n. absurd cc))
      | inl e ↦ elim (Bool-cases (ltb parsed.1 lo || ltb hi parsed.1)) [
        | inl out ↦
            rw (e, out, set_ranged) ((λ v n l h. absurd (ground (arith, n))), (λ n. absurd cc))
        | inr fits ↦
            rw (e, fits, set_ranged)
              (
                (λ v n l h. (refl, stored parsed.1 (ground arith) ∙ some_inj n)),
                (λ n. (parsed.1, (refl, ground arith, ground arith))),
              )
      ]
    ]

store_port-IsTaken :
    (port : ℤ) (c : ServerConf)
    → IsTaken
        (some (record {
          number = signed_number (success, port);
          lo = 1;
          hi = uint16_max;
          setting = λ e. e.port;
        }))
        (store_port port c)
unfolding store_port
store_port-IsTaken (negsuc n) c = ((λ v e. absurd cc), (λ e. absurd cc))
store_port-IsTaken (pos n) c = elim (Bool-cases (ltb n 1 || ltb 65535 n)) [
  | inl out ↦ rw (out, store_port) ((λ v n l h. absurd (ground (arith, n))), (λ n. absurd cc))
  | inr fits ↦
      rw (fits, store_port)
        (
          (λ v same l h. (refl, ground (arith, some_inj same))),
          (λ e. (n, (refl, ground arith, ground arith))),
        )
]

set_h3_port-IsTaken :
    (apr : AprCstr) (arg : Bytes) (c : ServerConf)
    → IsTaken (numeric apr (Directive.h3_port arg)) (set_h3_port apr arg c)
unfolding set_h3_port store_port
set_h3_port-IsTaken apr [] c = ((λ v e. absurd cc), (λ e. absurd cc))
set_h3_port-IsTaken apr (x ∷ arg) c =
    let parsed = apr.atoi64 (x ∷ arg) in
    elim (AprStatus-cases parsed.0) [
      | inr (inl e) ↦ rw (e, set_h3_port) ((λ v n. absurd cc), (λ n. absurd cc))
      | inr (inr e) ↦ rw (e, set_h3_port) ((λ v n. absurd cc), (λ n. absurd cc))
      | inl e ↦ rw (e, set_h3_port) (store_port-IsTaken parsed.1 c)
    ]

run_directive-IsTaken :
    (apr : AprCstr) (d : Directive) (c : ServerConf)
    → IsTaken (numeric apr d) (run_directive apr d c)
unfolding run_directive set_h3_cert_path set_h3_key_path set_h3_max_concurrent_streams
    set_h3_max_connections set_h3_stream_buffer_size set_h3_socket_buffer_size set_h3_stream_timeout
    set_h3_max_stream_errors set_h3_qpack_table_capacity set_h3_qpack_blocked_streams
    set_h3_min_workers set_h3_max_workers set_h3_max_worker_idle_seconds
    set_h3_max_request_body_size set_h3_max_response_body_size set_h3_handshake_timeout
    set_h3_idle_timeout set_h3_alt_svc_max_age set_h3_alt_svc set_h3_address_validation
    set_h3_session_tickets
run_directive-IsTaken apr (Directive.h3_certificate_path arg) c = refl
run_directive-IsTaken apr (Directive.h3_certificate_key_path arg) c = refl
run_directive-IsTaken apr (Directive.h3_port arg) c = set_h3_port-IsTaken apr arg c
run_directive-IsTaken apr (Directive.h3_max_concurrent_streams arg) c =
    set_ranged-IsTaken apr 1 uint16_max _ (λ e. e.max_concurrent_streams) arg c (λ v h. omega arith)
run_directive-IsTaken apr (Directive.h3_max_connections arg) c =
    set_ranged-IsTaken apr 1 max_connections_max _ (λ e. e.max_connections) arg c
      (λ v h. omega arith)
run_directive-IsTaken apr (Directive.h3_stream_buffer_size arg) c =
    set_ranged-IsTaken apr 1 stream_buffer_size_max _ (λ e. e.stream_buffer_size) arg c
      (λ v h. omega arith)
run_directive-IsTaken apr (Directive.h3_socket_buffer_size arg) c =
    set_ranged-IsTaken apr 1 socket_buffer_size_max _ (λ e. e.socket_buffer_size) arg c
      (λ v h. omega arith)
run_directive-IsTaken apr (Directive.h3_stream_timeout arg) c =
    set_ranged-IsTaken apr 1 stream_timeout_max _ (λ e. e.stream_timeout) arg c (λ v h. omega arith)
run_directive-IsTaken apr (Directive.h3_max_stream_errors arg) c =
    set_ranged-IsTaken apr 1 max_stream_errors_max _ (λ e. e.max_stream_errors) arg c
      (λ v h. omega arith)
run_directive-IsTaken apr (Directive.h3_qpack_table_capacity arg) c =
    set_ranged-IsTaken apr 0 qpack_table_capacity_max _ (λ e. e.qpack_table_capacity) arg c
      (λ v h. omega arith)
run_directive-IsTaken apr (Directive.h3_qpack_blocked_streams arg) c =
    set_ranged-IsTaken apr 0 qpack_blocked_streams_max _ (λ e. e.qpack_blocked_streams) arg c
      (λ v h. omega arith)
run_directive-IsTaken apr (Directive.h3_min_workers arg) c =
    set_ranged-IsTaken apr 1 workers_max _ (λ e. e.min_workers) arg c (λ v h. omega arith)
run_directive-IsTaken apr (Directive.h3_max_workers arg) c =
    set_ranged-IsTaken apr 1 workers_max _ (λ e. e.max_workers) arg c (λ v h. omega arith)
run_directive-IsTaken apr (Directive.h3_max_worker_idle_seconds arg) c =
    set_ranged-IsTaken apr 1 max_worker_idle_seconds_max _ (λ e. e.max_worker_idle_seconds) arg c
      (λ v h. omega arith)
run_directive-IsTaken apr (Directive.h3_max_request_body_size arg) c =
    set_ranged-IsTaken apr 1 max_request_body_size_max _ (λ e. e.max_request_body_size) arg c
      (λ v h. omega arith)
run_directive-IsTaken apr (Directive.h3_max_response_body_size arg) c =
    set_ranged-IsTaken apr 1 max_response_body_size_max _ (λ e. e.max_response_body_size) arg c
      (λ v h. omega arith)
run_directive-IsTaken apr (Directive.h3_handshake_timeout arg) c =
    set_ranged-IsTaken apr 1 handshake_timeout_max _ (λ e. e.handshake_timeout) arg c
      (λ v h. omega arith)
run_directive-IsTaken apr (Directive.h3_idle_timeout arg) c =
    set_ranged-IsTaken apr 1 idle_timeout_max _ (λ e. e.idle_timeout) arg c (λ v h. omega arith)
run_directive-IsTaken apr (Directive.h3_alt_svc_max_age arg) c =
    set_ranged-IsTaken apr 1 alt_svc_max_age_max _ (λ e. e.alt_svc_max_age) arg c
      (λ v h. omega arith)
run_directive-IsTaken apr (Directive.h3_alt_svc flag) c = refl
run_directive-IsTaken apr (Directive.h3_address_validation flag) c = refl
run_directive-IsTaken apr (Directive.h3_session_tickets flag) c = refl

-- A directive with a number takes the numbers of its range, which starts at 1 but for the two of
-- QPACK, and no other argument; where it takes one its setting is that number. A directive with a path
-- or a flag is taken. One that is refused leaves the configuration as it was; and every setting that
-- was within the largest values stays so. The range of H3MaxConcurrentStreams ends at 65535, as the
-- code has it.
pub run_directive_lem :
    (apr : AprCstr) (d : Directive) (c : ServerConf)
    → InBounds c
    → IsTaken (numeric apr d) (run_directive apr d c)
      × ((r : Refusal) → (run_directive apr d c).0 ≡ some r → (run_directive apr d c).1 ≡ c)
      × InBounds (run_directive apr d c).1
run_directive_lem apr d c b = (
  run_directive-IsTaken apr d c,
  (λ r e. run_directive-refused apr d c e),
  run_directive-InBounds apr d c b,
)
