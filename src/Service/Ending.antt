-- ===== src/Service/Ending.antt =====
-- How a stopping child ends a session.
use mod_http.Common.{
  ℕ, ◌+◌, ◌≡◌, refl, ap, ◌∙◌, sym, Bool, true, false, not, ◌&&◌, ◌||◌, Option, none, some, leb,
  arith, if◌then◌else◌, Option-cases, Bool-cases, inl, inr, is_some, if_both,
}
use mod_http.Session.{H3Session}
use mod_http.Service.{
  submit_shutdown_notice, shutdown, Serving, Inputs, goaway_grace_secs, time_from_sec, session_of,
  note_call,
}
use mod_http.Service.Stop.{send_goaway, set_deadline, give_up, is_due, stop_session}
use mod_http.Service.Sound.{Sound, Runs, go_on-Runs, flush-Quiet, send_goaway-Sound}

abbrev pub deadline : Serving → Option ℕ
deadline v = (session_of v).goaway_deadline

or_true : (b : Bool) → (b || true) ≡ true
or_true true = refl
or_true false = refl

or_no : (b : Bool) → (b || false) ≡ b
or_no true = refl
or_no false = refl

module _ (i : Inputs) where
  -- The deadline of a session that is stopped: the one it has, or the grace time from now.
  abbrev pub fixed_deadline : Option ℕ → ℕ
  fixed_deadline none = i.deadline_from + time_from_sec goaway_grace_secs
  fixed_deadline (some t) = t

  send_goaway-deadline : (v : Serving) → deadline (send_goaway i v) ≡ deadline v
  unfolding send_goaway
  send_goaway-deadline v =
      let noted = if (session_of v).goaway_sent then v else note_call submit_shutdown_notice v in
      (flush-Quiet i.stop_flush noted).3.1
      ∙ if_both (λ (w : Serving). deadline w ≡ deadline v) (session_of v).goaway_sent refl refl

  set_deadline-deadline :
      (v : Serving)
      → i.thread_running ≡ false
      → deadline (set_deadline i v) ≡ some (fixed_deadline (deadline v))
  unfolding set_deadline
  set_deadline-deadline v stops = elim (Option-cases (deadline v)) [
    | inl e ↦ rw (stops, e, set_deadline) refl
    | inr (t, e) ↦ rw (stops, e, set_deadline) refl
  ]

  send_goaway-aborted :
      (v : Serving) → (session_of (send_goaway i v)).aborted ≡ (session_of v).aborted
  unfolding send_goaway
  send_goaway-aborted v =
      let noted = if (session_of v).goaway_sent then v else note_call submit_shutdown_notice v in
      (flush-Quiet i.stop_flush noted).3.2
      ∙ if_both (λ (w : Serving). (session_of w).aborted ≡ (session_of v).aborted)
          (session_of v).goaway_sent refl refl

  set_deadline-aborted :
      (v : Serving) → (session_of (set_deadline i v)).aborted ≡ (session_of v).aborted
  unfolding set_deadline
  set_deadline-aborted v =
      if_both (λ (s : H3Session). s.aborted ≡ (session_of v).aborted)
        (not i.thread_running && not (is_some (deadline v))) refl refl

  set_deadline-sent : (v : Serving) → (session_of (set_deadline i v)).goaway_sent ≡ true
  unfolding set_deadline
  set_deadline-sent v =
      if_both (λ (s : H3Session). s.goaway_sent ≡ true)
        (not i.thread_running && not (is_some (deadline v))) refl refl

  -- What this part makes of a session with the deadline `t`, that was aborted before or not.
  abbrev IsEnding : ℕ → Bool → Bool × Serving → Type 0
  IsEnding t before (given_up, w) =
      (given_up ≡ (i.is_drained || leb t i.deadline_check))
      × (deadline w ≡ some t)
      × ((session_of w).goaway_sent ≡ true)
      × ((session_of w).aborted ≡ (before || given_up))

  give_up-IsEnding :
      (t : ℕ) (before : Bool) (v : Serving)
      → deadline v ≡ some t
      → (session_of v).goaway_sent ≡ true
      → (session_of v).aborted ≡ before
      → IsEnding t before (give_up i v)
  unfolding give_up
  give_up-IsEnding t before v e sent was =
      let closing = note_call shutdown v in
      let quiet = flush-Quiet i.shutdown_flush closing in
      let due = ap (λ d. i.is_drained || is_due i.deadline_check d) e in
      elim (Bool-cases (i.is_drained || is_due i.deadline_check (deadline v))) [
        | inl over ↦
            rw (over, give_up)
              (sym over ∙ due, quiet.3.1 ∙ e, quiet.3.0 ∙ sent, sym (or_true before))
        | inr goes ↦ rw (goes, give_up) (sym goes ∙ due, e, sent, was ∙ sym (or_no before))
      ]

  -- In a child that stops, the part of a pass that does so fixes, the first time, the time at which
  -- the session ends, the grace time from then, and never moves it; GOAWAY counts as sent; and it gives
  -- the session up exactly where nghttp3 has drained or that time has come, and aborts it then and
  -- only then.
  pub stop_session_lem :
      (v : Serving)
      → Sound i.conf v
      → i.thread_running ≡ false
      → Runs (IsEnding (fixed_deadline (deadline v)) (session_of v).aborted) (stop_session i v)
  unfolding stop_session
  stop_session_lem v k stops =
      let (w, e, (k', steady)) =
        go_on-Runs i.conf i.after_notice (send_goaway i v) (send_goaway-Sound i v k) in
      let same = ap (λ (s : H3Session). s.goaway_deadline) steady.0 ∙ send_goaway-deadline v in
      let was = ap (λ (s : H3Session). s.aborted) steady.0 ∙ send_goaway-aborted v in
      let stopping : (i.draining || not i.thread_running) ≡ true = ground arith in
      rw (stopping, e, stop_session)
        (
          give_up i (set_deadline i w),
          refl,
          give_up-IsEnding (fixed_deadline (deadline v)) (session_of v).aborted (set_deadline i w)
              (set_deadline-deadline w stops ∙ ap (λ d. some (fixed_deadline d)) same)
              (set_deadline-sent w) (set_deadline-aborted w ∙ was),
        )
