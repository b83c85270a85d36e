-- ===== src/QuicStream/Tests.antt =====
-- A write that fills the send buffer in the second vector.
use mod_http.Common.{ℕ, zero, suc, ◌≡◌, refl, true, List, [], ◌∷◌, Bytes, arith, ap}
use mod_http.QuicStream.{SslWrite, wrote, want_write, broken_pipe, stream_write, write_from}
use mod_http.QuicStream.Write.{Takes, Writes, stream_write-Writes}

abbrev vec : List Bytes
vec = (b'a' ∷ b'b' ∷ []) ∷ (b'c' ∷ b'd' ∷ []) ∷ []

abbrev answer : ℕ → SslWrite
answer zero = wrote 2
answer (suc k) = wrote 1

partly : (stream_write answer vec true).sent ≡ b'a' ∷ b'b' ∷ b'c' ∷ []
unfolding stream_write write_from
partly = refl

of_wrote : SslWrite → ℕ
of_wrote (wrote w) = w
of_wrote want_write = 0
of_wrote broken_pipe = 0

vec-Takes : Takes answer 0 vec
unfolding of_wrote
vec-Takes = (
  (λ w e. let same = ap of_wrote e in omega (arith, same)),
  ((λ w e. let same = ap of_wrote e in omega (arith, same)), tt),
)

stream_write-Writes_example : Writes vec true (stream_write answer vec true)
stream_write-Writes_example = stream_write-Writes answer vec true vec-Takes
