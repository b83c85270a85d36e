-- ===== src/Config/Numeric.antt =====
-- What the numeric directives of mod_http3/src/h3_config.c are to do: the numbers that they take, and
-- where they store them.
use mod_http.Common.{ℕ, ◌≤◌, ◌≡◌, Option, none, some, [], ◌∷◌, Bytes}
use mod_http.Config.{
  ServerConf, alt_svc_max_age_max, handshake_timeout_max, idle_timeout_max, max_connections_max,
  max_request_body_size_max, max_response_body_size_max, max_stream_errors_max,
  max_worker_idle_seconds_max, qpack_blocked_streams_max, qpack_table_capacity_max,
  socket_buffer_size_max, stream_buffer_size_max, stream_timeout_max, uint16_max, workers_max,
}
use mod_http.Config.Directives.{
  AprCstr, AprStatus, success, einval, erange, ℤ, pos, negsuc, Outcome, Directive,
}

-- The number that an argument stands for, read by the one parser or the other.
abbrev pub unsigned_number : AprStatus × ℕ → Option ℕ
unsigned_number (success, n) = some n
unsigned_number (einval, n) = none
unsigned_number (erange, n) = none

abbrev pub signed_number : AprStatus × ℤ → Option ℕ
signed_number (success, pos n) = some n
signed_number (success, negsuc n) = none
signed_number (einval, n) = none
signed_number (erange, n) = none

-- What a numeric directive is to do: the number of its argument, its range, and its setting.
pub record Numeric : Type 0 where
  pub number : Option ℕ
  pub lo : ℕ
  pub hi : ℕ
  pub setting : ServerConf → ℕ

abbrev pub within : Option ℕ → ℕ → ℕ → (ServerConf → ℕ) → Option Numeric
within number lo hi setting = some (record { number = number; lo = lo; hi = hi; setting = setting })

module _ (apr : AprCstr) where
  abbrev pub unsigned : Bytes → Option ℕ
  unsigned [] = none
  unsigned (b ∷ arg) = unsigned_number (apr.atoui64 (b ∷ arg))

  abbrev pub signed : Bytes → Option ℕ
  signed [] = none
  signed (b ∷ arg) = signed_number (apr.atoi64 (b ∷ arg))

  -- The ranges of the settings; only those of QPACK may be 0.
  abbrev pub numeric : Directive → Option Numeric
  numeric (Directive.h3_certificate_path arg) = none
  numeric (Directive.h3_certificate_key_path arg) = none
  numeric (Directive.h3_port arg) = within (signed arg) 1 uint16_max (λ c. c.port)
  numeric (Directive.h3_max_concurrent_streams arg) =
      within (unsigned arg) 1 uint16_max (λ c. c.max_concurrent_streams)
  numeric (Directive.h3_max_connections arg) =
      within (unsigned arg) 1 max_connections_max (λ c. c.max_connections)
  numeric (Directive.h3_stream_buffer_size arg) =
      within (unsigned arg) 1 stream_buffer_size_max (λ c. c.stream_buffer_size)
  numeric (Directive.h3_socket_buffer_size arg) =
      within (unsigned arg) 1 socket_buffer_size_max (λ c. c.socket_buffer_size)
  numeric (Directive.h3_stream_timeout arg) =
      within (unsigned arg) 1 stream_timeout_max (λ c. c.stream_timeout)
  numeric (Directive.h3_max_stream_errors arg) =
      within (unsigned arg) 1 max_stream_errors_max (λ c. c.max_stream_errors)
  numeric (Directive.h3_qpack_table_capacity arg) =
      within (unsigned arg) 0 qpack_table_capacity_max (λ c. c.qpack_table_capacity)
  numeric (Directive.h3_qpack_blocked_streams arg) =
      within (unsigned arg) 0 qpack_blocked_streams_max (λ c. c.qpack_blocked_streams)
  numeric (Directive.h3_min_workers arg) = within (unsigned arg) 1 workers_max (λ c. c.min_workers)
  numeric (Directive.h3_max_workers arg) = within (unsigned arg) 1 workers_max (λ c. c.max_workers)
  numeric (Directive.h3_max_worker_idle_seconds arg) =
      within (unsigned arg) 1 max_worker_idle_seconds_max (λ c. c.max_worker_idle_seconds)
  numeric (Directive.h3_max_request_body_size arg) =
      within (unsigned arg) 1 max_request_body_size_max (λ c. c.max_request_body_size)
  numeric (Directive.h3_max_response_body_size arg) =
      within (unsigned arg) 1 max_response_body_size_max (λ c. c.max_response_body_size)
  numeric (Directive.h3_handshake_timeout arg) =
      within (unsigned arg) 1 handshake_timeout_max (λ c. c.handshake_timeout)
  numeric (Directive.h3_idle_timeout arg) =
      within (unsigned arg) 1 idle_timeout_max (λ c. c.idle_timeout)
  numeric (Directive.h3_alt_svc_max_age arg) =
      within (unsigned arg) 1 alt_svc_max_age_max (λ c. c.alt_svc_max_age)
  numeric (Directive.h3_alt_svc flag) = none
  numeric (Directive.h3_address_validation flag) = none
  numeric (Directive.h3_session_tickets flag) = none

-- A directive that is not numeric is taken; one that is takes the numbers of its range and no other,
-- and sets its setting to the number.
abbrev pub IsTaken : Option Numeric → Outcome → Type 0
IsTaken none o = o.0 ≡ none
IsTaken (some n) o =
    ((v : ℕ) → n.number ≡ some v → n.lo ≤ v → v ≤ n.hi → (o.0 ≡ none) × (n.setting o.1 ≡ v))
    × (o.0 ≡ none → (v : ℕ) × ((n.number ≡ some v) × (n.lo ≤ v) × (v ≤ n.hi)))
