-- ===== src/Session/Drain/Pass/Keeps.antt =====
-- What every drained stream keeps, a pass over the streams keeps.
use mod_http.Common.{
  ℕ, Bool, false, some, not, ◌||◌, List, [], ◌∷◌, ◌≡◌, length, get_elem?, is_some, if_both,
  if_known, Option-cases, inl, inr,
}
use mod_http.Config.{ServerConf}
use mod_http.Stream.{Stream, sid_is_server}
use mod_http.Session.{stream_find}
use mod_http.Session.Drain.{Incoming, drain_one_stream}
use mod_http.Session.Drain.Pass.{Pass, start_draining, drained, visit, visits}

module _ (conf : ServerConf) (inc : ℕ → Incoming) (snapshot : List ℕ) (P : Pass → Type 0)
    (keeps : (i sid : ℕ) (h : Stream) (p : Pass)
      → p.session.ngh3_dead ≡ false
      → stream_find sid p.session.streams ≡ some h
      → P p
      → P
          (drained
            (length snapshot)
            i
            sid
            p.completed
            (drain_one_stream conf (inc sid) (start_draining h p))).1) where
  visit-keeps : (i : ℕ) (p : Pass) → P p → P (visit conf inc snapshot i p).1
  unfolding visit
  visit-keeps i p k =
      if_known (λ (out : Bool × Pass). P out.1) p.session.ngh3_dead (λ dead. k)
        (λ live. elim (Option-cases (get_elem? snapshot i)) [
          | inl over ↦ rw over k
          | inr (sid, e) ↦ elim (Option-cases (stream_find sid p.session.streams)) [
            | inl gone ↦ rw (e, gone) k
            | inr (h, found) ↦
                rw (e, found)
                  (if_both (λ (out : Bool × Pass). P out.1)
                    (h.done || not (is_some h.qstream) || sid_is_server sid) k
                    (keeps i sid h p live found k))
          ]
        ])

  pub visits-keeps : (indices : List ℕ) (p : Pass) → P p → P (visits conf inc snapshot indices p)
  unfolding visits
  visits-keeps [] p k = k
  visits-keeps (i ∷ indices) p k =
      let q = (visit conf inc snapshot i p).1 in
      let here = visit-keeps i p k in
      if_both P (visit conf inc snapshot i p).0 (visits-keeps indices q here) here
