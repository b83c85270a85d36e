-- ===== src/Listener/Sessions.antt =====
-- The loop over the sessions keeps the listener's books.
use mod_http.Common.{
  ℕ, zero, suc, ◌≡◌, inl, inr, Bool, true, false, none, some, List, arith, get_elem?, Bool-cases,
  Option-cases,
}
use mod_http.Listener.{Session, Io, reap, reap_from}
use mod_http.Listener.Books.{one, IsBalanced, total-swap_remove, length-swap_remove}

reap-IsBalanced :
    (max index : ℕ) (came : List ℕ) (io : Io)
    → IsBalanced max came io
    → IsBalanced max came (reap index io)
unfolding reap
reap-IsBalanced max index came io b = elim (Option-cases (get_elem? io.active_sessions index)) [
  | inl past ↦ rw (past, reap) b
  | inr (s, e) ↦
      let shorter = length-swap_remove io.active_sessions index s e in
      rw (e, reap)
        (record {
          conns = λ c. omega (
            arith,
            b.conns c,
            total-swap_remove (λ q. one c q.qconn) io.active_sessions index s e,
          );
          notes = omega (arith, b.notes, shorter);
          count = omega (arith, b.count, shorter);
          within = omega (arith, b.within, shorter);
        })
]

reap_from-past :
    (fuel : ℕ) (over : ℕ → Bool) (index : ℕ) (io : Io)
    → get_elem? io.active_sessions index ≡ none
    → reap_from (suc fuel) over index io ≡ io
unfolding reap_from
reap_from-past fuel over index io e = ground arith

reap_from-over :
    (fuel : ℕ) (over : ℕ → Bool) (index : ℕ) (io : Io) (s : Session)
    → get_elem? io.active_sessions index ≡ some s
    → over s.qconn ≡ true
    → reap_from (suc fuel) over index io ≡ reap_from fuel over index (reap index io)
unfolding reap_from
reap_from-over fuel over index io s e done = ground arith

reap_from-pass :
    (fuel : ℕ) (over : ℕ → Bool) (index : ℕ) (io : Io) (s : Session)
    → get_elem? io.active_sessions index ≡ some s
    → over s.qconn ≡ false
    → reap_from (suc fuel) over index io ≡ reap_from fuel over (suc index) io
unfolding reap_from
reap_from-pass fuel over index io s e on = ground arith

pub reap_from-IsBalanced :
    (fuel max : ℕ) (over : ℕ → Bool) (index : ℕ) (came : List ℕ) (io : Io)
    → IsBalanced max came io
    → IsBalanced max came (reap_from fuel over index io)
unfolding reap_from
reap_from-IsBalanced zero max over index came io b = b
reap_from-IsBalanced (suc fuel) max over index came io b =
    elim (Option-cases (get_elem? io.active_sessions index)) [
      | inl past ↦ rw (reap_from-past fuel over index io past) b
      | inr (s, e) ↦ elim (Bool-cases (over s.qconn)) [
        | inl done ↦ rw (reap_from-over fuel over index io s e done) (
            reap_from-IsBalanced fuel max over index came (reap index io)
              (reap-IsBalanced max index came io b))
        | inr on ↦
            rw (reap_from-pass fuel over index io s e on)
              (reap_from-IsBalanced fuel max over (suc index) came io b)
      ]
    ]
