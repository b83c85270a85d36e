-- ===== src/Session/Drain/Tests.antt =====
-- A stream with a malformed request, and the theorems about a pass applied.
use mod_http.Common.{
  ℕ, ◌+◌, ◌≤◌, ◌≡◌, false, none, [], ◌∷◌, Bytes, take, length, length-take, arith,
}
use mod_http.Config.{ServerConf, create_server_config}
use mod_http.Stream.{new_stream}
use mod_http.QuicStream.{SslRead, got, stream_read, state_ok}
use mod_http.Session.{H3Session}
use mod_http.Session.Drain.{Feed, accepted, malformed_request, Incoming, stream_drain_byte_budget}
use mod_http.Session.Drain.Budget.{Fits}
use mod_http.Session.Drain.Errors.{IsTolerated}
use mod_http.Session.Drain.Pass.{drain_ready_streams}
use mod_http.Session.Drain.Pass.Limits.{drain_ready_streams_budget, drain_ready_streams-IsTolerated}

-- One error of the client ends the session.
abbrev conf : ServerConf
conf = record create_server_config { stream_buffer_size = 2 }

abbrev one_stream : H3Session
one_stream = record {
  streams = new_stream conf 0 4 1 ∷ [];
  aborted = false;
  blocked_streams = 0;
  ngh3_dead = false;
  abort_quic_error_code = 0;
  pending_free = [];
  stream_drain_cursor = 3;
  goaway_sent = false;
  goaway_deadline = none;
  last_activity = 0;
  stream_errors = 0;
  active_tasks = 0;
}

abbrev data_left : Bytes
data_left = b'G' ∷ b'E' ∷ b'T' ∷ []

-- As many of the bytes as are asked for.
abbrev gives : ℕ → SslRead
gives n = got (take n data_left)

abbrev fine : Feed
fine = record { consumed = accepted; after = λ h. h; closed = λ h. h; header_error = 0x10e }

abbrev incoming : ℕ → Incoming
incoming sid = record {
  rstate = state_ok;
  wstate = state_ok;
  at_fin = fine;
  readings =
      record { read = gives; feed = fine }
      ∷ record { read = gives; feed = record fine { consumed = malformed_request 0x10e } }
      ∷ [];
}

got-Fits : (n : ℕ) (bs : Bytes) → length bs ≤ n → Fits n (stream_read (got bs))
unfolding stream_read
got-Fits n [] small = tt
got-Fits n (b ∷ bs) small = small

gives-Fits : (n : ℕ) → Fits n (stream_read (gives n))
gives-Fits n = got-Fits n (take n data_left) (omega (arith, length-take n data_left))

drain_ready_streams_budget_example :
    ((drain_ready_streams conf incoming 5 one_stream).total_bytes_read
        + (drain_ready_streams conf incoming 5 one_stream).bytes_remaining
      ≡ 5 + stream_drain_byte_budget)
    × ((drain_ready_streams conf incoming 5 one_stream).total_bytes_read
        ≤ 5 + stream_drain_byte_budget)
drain_ready_streams_budget_example =
    drain_ready_streams_budget conf incoming 5 one_stream (λ sid. (gives-Fits, (gives-Fits, tt)))

drain_ready_streams-IsTolerated_example :
    IsTolerated conf (drain_ready_streams conf incoming 5 one_stream).session
drain_ready_streams-IsTolerated_example =
    drain_ready_streams-IsTolerated conf incoming 5 one_stream (omega arith, λ live. omega arith)
