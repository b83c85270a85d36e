-- ===== src/QuicStream.antt =====
-- A QUIC stream of the OpenSSL library as the module reads and writes it:
-- mod_http3/src/quic/h3q_stream.c and mod_http3/include/quic/h3q_stream.h. What the calls of OpenSSL
-- answer is a parameter.
pub mod Write
mod Tests
use mod_http.Common.{
  ℕ, suc, ◌+◌, Bool, true, false, not, ◌&&◌, ◌||◌, List, [], ◌∷◌, ◌++◌, Bytes, ltb, ◌==◌,
  if◌then◌else◌, length, take,
}

-- `SSL_write_ex` on one vector: the number of bytes that it takes, or the error that
-- `SSL_get_error` gives.
pub data SslWrite : Type 0 where
  wrote : ℕ → SslWrite
  want_write broken_pipe : SslWrite

-- `h3q_write_result`
pub record WriteResult : Type 0 where
  pub accepted : ℕ
  pub blocked : Bool
  pub broken : Bool

abbrev pub no_result : WriteResult
no_result = record { accepted = 0; blocked = false; broken = false }

-- `expected`
abbrev pub total_length : List Bytes → ℕ
total_length [] = 0
total_length (v ∷ vec) = length v + total_length vec

-- The second loop of `h3q_stream_write` from vector `k` on: the result, and the bytes that went to
-- the stream.
unfoldable pub write_from : (ℕ → SslWrite) → ℕ → List Bytes → WriteResult → WriteResult × Bytes
write_from answer k [] res = (res, [])
write_from answer k (v ∷ vec) res = elim (answer k) [
  | want_write ↦ (record res { blocked = true }, [])
  | broken_pipe ↦ (record res { broken = true }, [])
  | wrote w ↦
      let counted = record res { accepted = res.accepted + w } in
      elim (ltb w (length v)) [
        | true ↦ (record counted { blocked = true }, take w v)
        | false ↦
            let (final, sent) = write_from answer (suc k) vec counted in (final, take w v ++ sent)
      ]
]

-- The result of `h3q_stream_write`, the bytes sent, and whether `SSL_stream_conclude` was called.
pub record Written : Type 0 where
  pub result : WriteResult
  pub sent : Bytes
  pub concluded : Bool

-- `h3q_stream_write`
unfoldable pub stream_write : (ℕ → SslWrite) → List Bytes → Bool → Written
unfolding write_from
stream_write answer vec fin =
    let (res, sent) = write_from answer 0 vec no_result in
    record {
      result = res;
      sent = sent;
      concluded = fin && not res.blocked && not res.broken && res.accepted == total_length vec;
    }

-- `SSL_read_ex`: the bytes read, none for a result of 1 with `nread` 0, or a failure with the error
-- SSL_ERROR_ZERO_RETURN, or another.
pub data SslRead : Type 0 where
  got : Bytes → SslRead
  zero_return read_failed : SslRead

-- `h3q_stream_read`: what `buf` holds, `none` for a result of 0, and `fin`.
pub data Read : Type 0 where
  bytes_read : Bytes → Read
  finished idle : Read

unfoldable pub stream_read : SslRead → Read
stream_read (got []) = finished
stream_read (got (b ∷ bs)) = bytes_read (b ∷ bs)
stream_read zero_return = finished
stream_read read_failed = idle

-- The stream states of OpenSSL that the module tells apart.
pub data SslState : Type 0 where
  state_ok state_finished reset_local reset_remote conn_closed wrong_dir : SslState

-- `h3q_stream_is_read_finished` on the read state and the write state: `read_finished` and
-- `write_finished`.
abbrev pub ends_reading : SslState → Bool
ends_reading state_finished = true
ends_reading reset_remote = true
ends_reading conn_closed = true
ends_reading state_ok = false
ends_reading reset_local = false
ends_reading wrong_dir = false

abbrev pub ends_writing : SslState → Bool
ends_writing state_finished = true
ends_writing reset_local = true
ends_writing state_ok = false
ends_writing reset_remote = false
ends_writing conn_closed = false
ends_writing wrong_dir = false

abbrev pub both_gone : SslState → Bool
both_gone reset_remote = true
both_gone conn_closed = true
both_gone state_ok = false
both_gone state_finished = false
both_gone reset_local = false
both_gone wrong_dir = false

pub is_read_finished : SslState → SslState → Bool × Bool
is_read_finished rstate wstate =
    (ends_reading rstate, ends_writing (if both_gone rstate then state_finished else wstate))
