-- ===== src/Session/Drain/Pass/Limits.antt =====
-- The limits of a pass: the bytes that it reads, and the errors of the client that it counts.
use mod_http.Common.{ℕ, ◌+◌, ◌≤◌, ◌≡◌, refl, ◌∙◌, List, arith, length, if_both, map, ◌%◌}
use mod_http.Config.{ServerConf}
use mod_http.Stream.{Stream}
use mod_http.Session.{H3Session}
use mod_http.Session.Reclaim.{reclaim}
use mod_http.Session.Drain.{Incoming, Draining, drain_one_stream, stream_drain_byte_budget}
use mod_http.Session.Drain.Budget.{AllFit, drain_one_stream-account}
use mod_http.Session.Drain.Errors.{IsTolerated, drain_one_stream-Tolerates}
use mod_http.Session.Drain.Pass.{
  start_draining, drained, is_spent_budget, drain_streams, drain_ready_streams, rotation, new_pass,
}
use mod_http.Session.Drain.Pass.Keeps.{visits-keeps}

-- Where `SSL_read_ex` gives no more than it is asked for, a pass over the streams reads no more than
-- its budget of bytes, and what it read and what is left of the budget are the whole budget.
pub drain_ready_streams_budget :
    (conf : ServerConf) (inc : ℕ → Incoming) (total : ℕ) (s : H3Session)
    → ((sid : ℕ) → AllFit (inc sid).readings)
    → let p = drain_ready_streams conf inc total s in
      (p.total_bytes_read + p.bytes_remaining ≡ total + stream_drain_byte_budget)
      × (p.total_bytes_read ≤ total + stream_drain_byte_budget)
unfolding drain_ready_streams drain_streams
drain_ready_streams_budget conf inc total s fits =
    let snapshot = map (λ (h : Stream). h.stream_id) s.streams in
    let n = length snapshot in
    let whole =
      visits-keeps conf inc snapshot
        (λ p. p.total_bytes_read + p.bytes_remaining ≡ total + stream_drain_byte_budget)
        (λ i sid h p live found k.
          drain_one_stream-account conf (inc sid) (start_draining h p) (fits sid) ∙ k)
        (rotation (s.stream_drain_cursor % n) n 0 n) (new_pass total s) refl in
    (whole, omega (arith, whole))

pub drained-IsTolerated :
    (conf : ServerConf) (n i sid : ℕ) (completed : List ℕ) (d : Draining)
    → IsTolerated conf d.session
    → IsTolerated conf (drained n i sid completed d).1.session
drained-IsTolerated conf n i sid completed d k = if_both (IsTolerated conf) (is_spent_budget d) k k

pub reclaim-IsTolerated :
    (conf : ServerConf) (s : H3Session) → IsTolerated conf s → IsTolerated conf (reclaim s).0
unfolding reclaim
reclaim-IsTolerated conf s k = k

-- Whatever OpenSSL reads and nghttp3 says, a pass over the streams counts at most one error more than
-- the limit on the errors of a client, and where it exceeds the limit it marks nghttp3 as dead, if
-- that is so at its start.
pub drain_ready_streams-IsTolerated :
    (conf : ServerConf) (inc : ℕ → Incoming) (total : ℕ) (s : H3Session)
    → IsTolerated conf s
    → IsTolerated conf (drain_ready_streams conf inc total s).session
unfolding drain_ready_streams drain_streams
drain_ready_streams-IsTolerated conf inc total s k =
    let snapshot = map (λ (h : Stream). h.stream_id) s.streams in
    let n = length snapshot in
    let p = drain_streams conf inc total s in
    reclaim-IsTolerated conf p.session (
      visits-keeps conf inc snapshot (λ q. IsTolerated conf q.session)
        (λ i sid h q live found t.
          drained-IsTolerated conf n i sid q.completed
            (drain_one_stream conf (inc sid) (start_draining h q))
            (drain_one_stream-Tolerates conf (inc sid) (start_draining h q) (t.1 live)))
        (rotation (s.stream_drain_cursor % n) n 0 n) (new_pass total s) k)
