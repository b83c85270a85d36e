-- ===== src/Lifetime/Opened.antt =====
-- The control streams are tracked, all three, or freed.
use mod_http.Common.{
  ℕ, ◌≡◌, refl, ap, ◌∙◌, sym, true, false, not, ◌||◌, none, some, List, [], ◌∷◌, ◌++◌, ◌==◌, arith,
  Bool-cases, inl, inr, append_assoc, if_both,
}
use mod_http.Config.{ServerConf}
use mod_http.Stream.{Stream, new_stream}
use mod_http.Session.{H3Session, stream_find, track_stream}
use mod_http.Session.Streams.{stream_find-here, stream_find-further}
use mod_http.Dispatch.Starts.{track-new}
use mod_http.Lifetime.{
  Uni, ControlCalls, ControlStreams, opened_uni, track, refuse, bind_streams,
  create_control_streams,
}

stream_find-append :
    (sid : ℕ) (streams : List Stream) (g : Stream)
    → stream_find sid streams ≡ none
    → (g.stream_id == sid) ≡ false
    → stream_find sid (streams ++ g ∷ []) ≡ none
unfolding stream_find
stream_find-append sid [] g e other = rw (other, stream_find) refl
stream_find-append sid (h ∷ streams) g e other = elim (Bool-cases (h.stream_id == sid)) [
  | inl here ↦ absurd (ground (arith, stream_find-here sid h streams here))
  | inr further ↦
      stream_find-further sid h (streams ++ g ∷ []) further
      ∙ stream_find-append sid streams g (sym (stream_find-further sid h streams further) ∙ e) other
]

module _ (conf : ServerConf) (c : ControlCalls) where
  abbrev stream_of : Uni → Stream
  stream_of (sid, st) = new_stream conf c.at sid st

  track-opened :
      (u : Uni) (s : H3Session)
      → stream_find u.0 s.streams ≡ none
      → c.cond_ok u.0 ≡ true
      → track conf c u s ≡ record s { streams = s.streams ++ stream_of u ∷ [] }
  track-opened (sid, st) s e ok =
      ap (λ b. (track_stream conf b c.at sid st s).1) ok ∙ track-new conf c.at sid st s e

  -- Three streams with new and distinct ids.
  abbrev pub IsNew : Uni → Uni → Uni → H3Session → Type 0
  IsNew a b d s =
      (stream_find a.0 s.streams ≡ none)
      × (stream_find b.0 s.streams ≡ none)
      × (stream_find d.0 s.streams ≡ none)
      × ((a.0 == b.0) ≡ false)
      × ((a.0 == d.0) ≡ false)
      × ((b.0 == d.0) ≡ false)

  tracked :
      (a b d : Uni) (s : H3Session)
      → IsNew a b d s
      → ((sid : ℕ) → c.cond_ok sid ≡ true)
      → track conf c d (track conf c b (track conf c a s))
        ≡ record s { streams = s.streams ++ stream_of a ∷ stream_of b ∷ stream_of d ∷ [] }
  tracked a b d s (na, nb, nd, ab, ad, bd) ok =
      let s1 = record s { streams = s.streams ++ stream_of a ∷ [] } in
      let s2 = record s { streams = (s.streams ++ stream_of a ∷ []) ++ stream_of b ∷ [] } in
      let nb1 = stream_find-append b.0 s.streams (stream_of a) nb ab in
      let nd1 = stream_find-append d.0 s.streams (stream_of a) nd ad in
      let nd2 = stream_find-append d.0 s1.streams (stream_of b) nd1 bd in
      ap (λ t. track conf c d (track conf c b t)) (track-opened a s na (ok a.0))
      ∙ ap (track conf c d) (track-opened b s1 nb1 (ok b.0))
      ∙ track-opened d s2 nd2 (ok d.0)
      ∙ ap (λ ss. record s { streams = ss })
          (append_assoc (s.streams ++ stream_of a ∷ []) (stream_of b ∷ []) (stream_of d ∷ [])
            ∙ append_assoc s.streams (stream_of a ∷ []) (stream_of b ∷ stream_of d ∷ []))

  -- The QUIC streams that were opened are freed, or in the table.
  abbrev pub IsRefused : H3Session → ControlStreams → Type 0
  IsRefused s o =
      (o.session ≡ s)
      × (o.freed ≡ opened_uni c.control ++ opened_uni c.qpack_enc ++ opened_uni c.qpack_dec)
      × (o.ngh3_deleted ≡ true)

  abbrev pub IsTracked : H3Session → ControlStreams → Type 0
  IsTracked s o =
      (a : Uni) × (b : Uni) × (d : Uni) × (c.control ≡ some a)
      × (c.qpack_enc ≡ some b)
      × (c.qpack_dec ≡ some d)
      × (o.freed ≡ [])
      × (IsNew a b d s
          → ((sid : ℕ) → c.cond_ok sid ≡ true)
          → o.session
            ≡ record s { streams = s.streams ++ stream_of a ∷ stream_of b ∷ stream_of d ∷ [] })

  abbrev ControlOutcome : H3Session → ControlStreams → Type 0
  ControlOutcome s o = (o.is_ok ≡ false → IsRefused s o) × (o.is_ok ≡ true → IsTracked s o)

  refuse-ControlOutcome : (s : H3Session) → ControlOutcome s (refuse c s)
  refuse-ControlOutcome s = ((λ off. (refl, refl, refl)), (λ on. absurd cc))

  bind-ControlOutcome :
      (a b d : Uni) (s : H3Session)
      → c.control ≡ some a
      → c.qpack_enc ≡ some b
      → c.qpack_dec ≡ some d
      → ControlOutcome s (bind_streams conf c a b d s)
  bind-ControlOutcome a b d s ea eb ed =
      if_both (ControlOutcome s) (not c.bind_control || not c.bind_qpack) (refuse-ControlOutcome s)
        ((λ off. absurd cc), (λ on. (a, b, d, ea, eb, ed, refl, tracked a b d s)))

  -- Where the control streams cannot all be opened and bound, each that was opened is freed, once,
  -- nghttp3 is deleted and the session tracks none; otherwise none is freed, and where their ids are
  -- new and distinct and every condition variable can be made, all three are in the table, in order,
  -- with their QUIC streams.
  pub create_control_streams_lem :
      (s : H3Session)
      → ((create_control_streams conf c s).is_ok ≡ false
          → IsRefused s (create_control_streams conf c s))
        × ((create_control_streams conf c s).is_ok ≡ true
            → IsTracked s (create_control_streams conf c s))
  unfolding create_control_streams
  create_control_streams_lem s =
      elim c.control
          as (λ control.
            c.control ≡ control
            → ControlOutcome s (elim control as (λ x. ControlStreams) [
              | none ↦ refuse c s
              | some a ↦ elim c.qpack_enc [
                | none ↦ refuse c s
                | some b ↦ elim c.qpack_dec [
                  | none ↦ refuse c s
                  | some d ↦ bind_streams conf c a b d s
                ]
              ]
            ])) [
              | none ↦ λ ea. refuse-ControlOutcome s
              | some a ↦ λ ea.
                  (elim c.qpack_enc
                      as (λ enc.
                        c.qpack_enc ≡ enc
                        → ControlOutcome s (elim enc as (λ x. ControlStreams) [
                          | none ↦ refuse c s
                          | some b ↦ elim c.qpack_dec [
                            | none ↦ refuse c s
                            | some d ↦ bind_streams conf c a b d s
                          ]
                        ])) [
                          | none ↦ λ eb. refuse-ControlOutcome s
                          | some b ↦ λ eb.
                              (elim c.qpack_dec
                                  as (λ dec.
                                    c.qpack_dec ≡ dec
                                    → ControlOutcome s (elim dec as (λ x. ControlStreams) [
                                      | none ↦ refuse c s
                                      | some d ↦ bind_streams conf c a b d s
                                    ])) [
                                      | none ↦ λ ed. refuse-ControlOutcome s
                                      | some d ↦ λ ed. bind-ControlOutcome a b d s ea eb ed
                                    ]
                                refl)
                        ]
                    refl)
            ]
        refl
