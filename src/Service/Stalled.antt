-- ===== src/Service/Stalled.antt =====
-- The responses that a pass abandons.
use mod_http.Common.{ℕ, ◌≡◌, refl, ap, false, List, [], ◌∷◌, Bool-cases, inl, inr, ◌==◌}
use mod_http.Stream.{Stream}
use mod_http.Response.{cancel}
use mod_http.Session.{H3Session}
use mod_http.Service.Serve.{is_stalled, abandon_stalled, abandon_stalled_responses}

-- No response of the streams is stalled.
abbrev pub NoneStalled : ℕ → ℕ → List Stream → Type 0
NoneStalled now stall_timeout [] = Unit {0}
NoneStalled now stall_timeout (h ∷ streams) =
    (is_stalled now stall_timeout h.response ≡ false) × NoneStalled now stall_timeout streams

abandon_stalled-NoneStalled :
    (now stall_timeout : ℕ) (streams : List Stream)
    → NoneStalled now stall_timeout (abandon_stalled now stall_timeout streams)
unfolding abandon_stalled cancel
abandon_stalled-NoneStalled now t [] = tt
abandon_stalled-NoneStalled now t (h ∷ streams) =
    let rest = abandon_stalled-NoneStalled now t streams in
    elim (Bool-cases (is_stalled now t h.response)) [
      | inl stalled ↦ rw (stalled, abandon_stalled) (refl, rest)
      | inr fine ↦ rw (fine, abandon_stalled) (fine, rest)
    ]

abandon_stalled-same :
    (now stall_timeout : ℕ) (streams : List Stream)
    → NoneStalled now stall_timeout streams
    → abandon_stalled now stall_timeout streams ≡ streams
unfolding abandon_stalled
abandon_stalled-same now t [] n = refl
abandon_stalled-same now t (h ∷ streams) (fine, further) =
    rw (fine, abandon_stalled) (ap (λ x. h ∷ x) (abandon_stalled-same now t streams further))

-- With a timeout, a call leaves no response that is open, full and without progress for that time;
-- a call on a session without such a response changes nothing, so that a second call changes nothing.
pub abandon_stalled_responses_lem :
    (now stall_timeout : ℕ) (s : H3Session)
    → (stall_timeout == 0) ≡ false
    → NoneStalled now stall_timeout (abandon_stalled_responses now stall_timeout s).streams
      × (NoneStalled now stall_timeout s.streams
          → abandon_stalled_responses now stall_timeout s ≡ s)
unfolding abandon_stalled_responses
abandon_stalled_responses_lem now t s some_time =
    rw (some_time, abandon_stalled_responses)
      (
        abandon_stalled-NoneStalled now t s.streams,
        (λ fine. ap (λ ss. record s { streams = ss }) (abandon_stalled-same now t s.streams fine)),
      )
