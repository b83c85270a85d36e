-- ===== src/Service/Passes.antt =====
-- The passes over a session, from its creation on.
use mod_http.Common.{
  ℕ, ◌≡◌, refl, sym, subst, false, not, ◌||◌, Option, none, some, List, [], ◌∷◌, arith, if_both,
  Option-cases, inl, inr,
}
use mod_http.Config.{ServerConf}
use mod_http.Session.{H3Session}
use mod_http.Dispatch.Starts.{tracks-IsHeld}
use mod_http.Lifetime.{
  Uni, ControlCalls, ControlStreams, new_session, track, bind_streams, create_control_streams,
}
use mod_http.Service.{Serving, Inputs}
use mod_http.Service.Serve.{service_session_pass}
use mod_http.Service.Steps.{IsBooked}
use mod_http.Service.Reads.{AllTameIncoming}
use mod_http.Service.Sound.{Sound, Runs}
use mod_http.Service.Whole.{
  track_stream-IsCounted, track_stream-IsTolerated, service_session_pass-Runs,
}

-- The calls of `service_session_pass` that the event thread makes for a session.
pub session_passes : List Inputs → Serving → Option Serving
unfolding service_session_pass
session_passes [] v = some v
session_passes (i ∷ is) v = elim (service_session_pass i v) [
  | none ↦ none
  | some (data_read, w) ↦ session_passes is w
]

-- A session of the event thread, before its first pass.
abbrev pub serving : H3Session → Serving
serving s = record {
  dispatching = record { session = s; tasks = []; destroyed = false };
  ng_calls = [];
  freed = [];
  pass_calls = [];
  total_bytes_written = 0;
  total_bytes_read = 0;
  total_streams = 0;
}

-- Every pass is under the configuration, and its callbacks are nghttp3's.
abbrev pub AllTamePasses : ServerConf → List Inputs → Type 0
AllTamePasses conf [] = Unit {0}
AllTamePasses conf (i ∷ is) = (i.conf ≡ conf) × AllTameIncoming i.incoming × AllTamePasses conf is

module _ (conf : ServerConf) where
  track-IsBooked :
      (c : ControlCalls) (u : Uni) (s : H3Session)
      → IsBooked conf [] s
      → IsBooked conf [] (track conf c u s)
  track-IsBooked c (sid, st) s (held_so, counted, few) = (
    tracks-IsHeld conf (c.cond_ok sid) c.at sid st
        (record { session = s; tasks = []; destroyed = false }) held_so,
    track_stream-IsCounted conf (c.cond_ok sid) c.at sid st s counted,
    track_stream-IsTolerated conf (c.cond_ok sid) c.at sid st s few,
  )

  bind_streams-IsBooked :
      (c : ControlCalls) (a b d : Uni) (s : H3Session)
      → IsBooked conf [] s
      → IsBooked conf [] (bind_streams conf c a b d s).session
  bind_streams-IsBooked c a b d s k =
      let sa = track conf c a s in
      let sb = track conf c b sa in
      if_both (λ (o : ControlStreams). IsBooked conf [] o.session)
        (not c.bind_control || not c.bind_qpack) k
        (track-IsBooked c d sb (track-IsBooked c b sa (track-IsBooked c a s k)))

  create_control_streams-IsBooked :
      (c : ControlCalls) (s : H3Session)
      → IsBooked conf [] s
      → IsBooked conf [] (create_control_streams conf c s).session
  unfolding create_control_streams
  create_control_streams-IsBooked c s k = elim (Option-cases c.control) [
    | inl e ↦ rw (e, create_control_streams) k
    | inr (a, e) ↦ elim (Option-cases c.qpack_enc) [
      | inl f ↦ rw (e, f, create_control_streams) k
      | inr (b, f) ↦ elim (Option-cases c.qpack_dec) [
        | inl g ↦ rw (e, f, g, create_control_streams) k
        | inr (d, g) ↦ rw (e, f, g, create_control_streams) (bind_streams-IsBooked c a b d s k)
      ]
    ]
  ]

  new_session-IsBooked : (now : ℕ) → IsBooked conf [] (new_session now)
  new_session-IsBooked now =
      (((λ k. refl), (λ k. omega arith), refl, refl), refl, (omega arith, (λ live. omega arith)))

  session_passes-Runs :
      (is : List Inputs) (v : Serving)
      → AllTamePasses conf is
      → Sound conf v
      → Runs (Sound conf) (session_passes is v)
  unfolding session_passes
  session_passes-Runs [] v tame k = (v, refl, k)
  session_passes-Runs (i ∷ is) v (same, here, further) k =
      let ((data_read, w), e, k') =
        service_session_pass-Runs i v here (subst (λ c. Sound c v) (sym same) k) in
      rw (e, session_passes) (session_passes-Runs is w further (subst (λ c. Sound c w) same k'))

  -- From the creation of a session and its control streams on, in any number of passes under one
  -- configuration, where the callbacks of nghttp3 leave alone who works on a stream and whether it is
  -- blocked: no pass touches a stream that is gone, however the workers go on between its sections and
  -- whatever the QUIC streams, nghttp3 and the thread pool answer; and after the passes each stream at
  -- work is in the table with the one worker it has, `active_tasks` is the number of tasks,
  -- `blocked_streams` is that of the blocked streams, and the errors of the client are within the
  -- limit unless nghttp3 is dead, and at most one beyond it.
  pub session_is_served :
      (c : ControlCalls) (now : ℕ) (is : List Inputs)
      → AllTamePasses conf is
      → Runs
          (Sound conf)
          (session_passes is (serving (create_control_streams conf c (new_session now)).session))
  session_is_served c now is tame =
      let s = create_control_streams conf c (new_session now) in
      session_passes-Runs is (serving s.session) tame
        (refl, create_control_streams-IsBooked c (new_session now) (new_session-IsBooked now))
