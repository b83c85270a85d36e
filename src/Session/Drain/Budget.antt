-- ===== src/Session/Drain/Budget.antt =====
-- A pass reads no more than its budget of bytes.
use mod_http.Common.{
  ℕ, ◌+◌, ◌≤◌, ◌≡◌, refl, ◌∙◌, Bool, not, ◌&&◌, List, [], ◌∷◌, if◌then◌else◌, arith, length,
  is_some, if_both,
}
use mod_http.Config.{ServerConf}
use mod_http.QuicStream.{Read, bytes_read, finished, idle, stream_read}
use mod_http.Session.Drain.{
  Feed, Reading, Incoming, Draining, reject_malformed_stream, fed_fin, fed, feed_stream_fin,
  note_read, fed_bytes, drain_read, read_size, in_budget, drain_round, drain_reads, both_finished,
  drain_finished, drain_one_stream,
}

-- What is read and what may still be read.
abbrev pub account : Draining → ℕ
account d = d.total_bytes_read + d.bytes_remaining

fed_fin-account :
    (conf : ServerConf) (f : Feed) (d : Draining) → account (fed_fin conf f d) ≡ account d
unfolding fed_fin reject_malformed_stream
fed_fin-account conf f d = ground arith

feed_stream_fin-account :
    (conf : ServerConf) (f : Feed) (d : Draining) → account (feed_stream_fin conf f d) ≡ account d
unfolding feed_stream_fin
feed_stream_fin-account conf f d = fed_fin-account conf f (fed f d)

fed_bytes-account :
    (conf : ServerConf) (f : Feed) (d : Draining) → account (fed_bytes conf f d).1 ≡ account d
unfolding fed_bytes reject_malformed_stream
fed_bytes-account conf f d = ground arith

-- `SSL_read_ex` gives no more bytes than it is asked for.
abbrev pub Fits : ℕ → Read → Type 0
Fits n (bytes_read bs) = length bs ≤ n
Fits n finished = Unit {0}
Fits n idle = Unit {0}

drain_read-account :
    (conf : ServerConf) (n : ℕ) (r : Read) (f : Feed) (d : Draining)
    → Fits n r
    → n ≤ d.bytes_remaining
    → account (drain_read conf r f d).1 ≡ account d
unfolding drain_read
drain_read-account conf n (bytes_read []) f d fits small = refl
drain_read-account conf n (bytes_read (b ∷ bs)) f d fits small =
    let taken = fed_bytes-account conf f (fed f (note_read (length (b ∷ bs)) d)) in
    omega (arith, taken, fits, small)
drain_read-account conf n finished f d fits small = feed_stream_fin-account conf f d
drain_read-account conf n idle f d fits small = refl

abbrev pub ReadsFit : Reading → Type 0
ReadsFit r = (n : ℕ) → Fits n (stream_read (r.read n))

drain_round-account :
    (conf : ServerConf) (r : Reading) (d : Draining)
    → ReadsFit r
    → account (drain_round conf r d).1 ≡ account d
unfolding drain_round
drain_round-account conf r d fits =
    let size = read_size conf d in
    if_both (λ (out : Bool × Draining). account out.1 ≡ account d) (not (in_budget d)) refl
      (if_both (λ (out : Bool × Draining). account out.1 ≡ account d)
        (not (is_some d.stream.qstream)) refl
        (drain_read-account conf size (stream_read (r.read size)) r.feed d (fits size)
          (omega arith)))

abbrev pub AllFit : List Reading → Type 0
AllFit [] = Unit {0}
AllFit (r ∷ rs) = ReadsFit r × AllFit rs

drain_reads-account :
    (conf : ServerConf) (rs : List Reading) (d : Draining)
    → AllFit rs
    → account (drain_reads conf rs d) ≡ account d
unfolding drain_reads
drain_reads-account conf [] d fits =
    if_both (λ e. account e ≡ account d) (in_budget d && not (is_some d.stream.qstream)) refl refl
drain_reads-account conf (r ∷ rs) d (here, further) =
    let e = (drain_round conf r d).1 in
    let round = drain_round-account conf r d here in
    if_both (λ x. account x ≡ account d) (drain_round conf r d).0
      (drain_reads-account conf rs e further ∙ round) round

drain_finished-account :
    (conf : ServerConf) (inc : Incoming) (d : Draining)
    → account (drain_finished conf inc d) ≡ account d
unfolding drain_finished
drain_finished-account conf inc d =
    let kept =
      if_both (λ e. account e ≡ account d) d.stream.body_complete refl
        (feed_stream_fin-account conf inc.at_fin d) in
    if_both (λ e. account e ≡ account d)
      (is_some
          (if d.stream.body_complete then d else feed_stream_fin conf inc.at_fin d).stream.qstream
        && (both_finished inc d.stream).1)
      kept kept

pub drain_one_stream-account :
    (conf : ServerConf) (inc : Incoming) (d : Draining)
    → AllFit inc.readings
    → account (drain_one_stream conf inc d) ≡ account d
unfolding drain_one_stream
drain_one_stream-account conf inc d fits =
    if_both (λ e. account e ≡ account d) (both_finished inc d.stream).0
      (drain_finished-account conf inc d) (drain_reads-account conf inc.readings d fits)
