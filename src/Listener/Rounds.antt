-- ===== src/Listener/Rounds.antt =====
-- The loops of the event thread keep the listener's books.
use mod_http.Common.{
  ℕ, zero, suc, ◌-◌, ◌≡◌, inl, inr, Bool, true, false, none, some, List, [], ◌∷◌, leb, arith,
  if◌then◌else◌, get_elem?, length-append, Bool-cases, Option-cases,
}
use mod_http.Listener.{
  PendingHandshake, Session, Io, conn_free, remove_pending_handshake, Spawn, spawned,
  spawn_serviced_session, Handshake, closed, under_way, finished, progress_one, progress_from,
  swap_remove, free_pending,
}
use mod_http.Listener.Books.{one, IsBalanced, total-append, total-swap_remove, length-swap_remove}

pub remove_pending_handshake-there :
    (index : ℕ) (free_conn : Bool) (io : Io) (p : PendingHandshake)
    → get_elem? io.pending_handshakes index ≡ some p
    → remove_pending_handshake index free_conn io ≡ record io {
      freed = if free_conn then p.conn ∷ io.freed else io.freed;
      removed = suc io.removed;
      pending_handshakes = swap_remove index io.pending_handshakes;
    }
unfolding remove_pending_handshake
remove_pending_handshake-there index free_conn io p e = ground arith

remove_pending_handshake-IsBalanced :
    (max index : ℕ) (came : List ℕ) (io : Io) (p : PendingHandshake)
    → get_elem? io.pending_handshakes index ≡ some p
    → IsBalanced max came io
    → IsBalanced max came (remove_pending_handshake index true io)
remove_pending_handshake-IsBalanced max index came io p e b =
    let shorter = length-swap_remove io.pending_handshakes index p e in
    rw (remove_pending_handshake-there index true io p e) (record {
      conns = λ c.
          omega (
            arith,
            b.conns c,
            total-swap_remove (λ q. one c q.conn) io.pending_handshakes index p e,
          );
      notes = omega (arith, b.notes, shorter);
      count = b.count;
      within = omega (arith, b.within, shorter);
    })

-- The handshake becomes a session.
spawned-IsBalanced :
    (max index : ℕ) (came : List ℕ) (io : Io) (p : PendingHandshake)
    → get_elem? io.pending_handshakes index ≡ some p
    → IsBalanced max came io
    → IsBalanced max came
        (remove_pending_handshake index false (spawn_serviced_session spawned p.conn io))
unfolding spawn_serviced_session
spawned-IsBalanced max index came io p e b =
    let shorter = length-swap_remove io.pending_handshakes index p e in
    let s : Session = record { qconn = p.conn } in
    let longer = length-append io.active_sessions (s ∷ []) in
    rw (remove_pending_handshake-there index false (spawn_serviced_session spawned p.conn io) p e)
      (record {
        conns = λ c. omega (
          arith,
          b.conns c,
          total-swap_remove (λ q. one c q.conn) io.pending_handshakes index p e,
          total-append (λ q. one c q.qconn) io.active_sessions (s ∷ []),
        );
        notes = omega (arith, b.notes, shorter, longer);
        count = omega (arith, b.count, longer);
        within = omega (arith, b.within, shorter, longer);
      })

-- A session that cannot be set up frees the connection, and its handshake goes.
unspawned-IsBalanced :
    (max index : ℕ) (came : List ℕ) (io : Io) (p : PendingHandshake)
    → get_elem? io.pending_handshakes index ≡ some p
    → IsBalanced max came io
    → IsBalanced max came (remove_pending_handshake index false (conn_free p.conn io))
unspawned-IsBalanced max index came io p e b =
    let shorter = length-swap_remove io.pending_handshakes index p e in
    rw (remove_pending_handshake-there index false (conn_free p.conn io) p e) (record {
      conns = λ c.
          omega (
            arith,
            b.conns c,
            total-swap_remove (λ q. one c q.conn) io.pending_handshakes index p e,
          );
      notes = omega (arith, b.notes, shorter);
      count = b.count;
      within = omega (arith, b.within, shorter);
    })

spawn-IsBalanced :
    (s : Spawn) (max index : ℕ) (came : List ℕ) (io : Io) (p : PendingHandshake)
    → get_elem? io.pending_handshakes index ≡ some p
    → IsBalanced max came io
    → IsBalanced max came
        (remove_pending_handshake index false (spawn_serviced_session s p.conn io))
unfolding spawn_serviced_session
spawn-IsBalanced spawned max index came io p e b = spawned-IsBalanced max index came io p e b
spawn-IsBalanced s max index came io p e b = unspawned-IsBalanced max index came io p e b

progress_one-IsBalanced :
    (max now timeout : ℕ) (probe : ℕ → Handshake) (index : ℕ) (came : List ℕ) (io : Io)
    (p : PendingHandshake)
    → get_elem? io.pending_handshakes index ≡ some p
    → IsBalanced max came io
    → IsBalanced max came (progress_one now timeout probe index p io).1
unfolding progress_one
progress_one-IsBalanced max now timeout probe index came io p e b =
    elim (Bool-cases (leb timeout (now - p.accepted_at))) [
      | inl late ↦ rw late (remove_pending_handshake-IsBalanced max index came io p e b)
      | inr early ↦ rw early (by_state (probe p.conn))
    ]
  where
    by_state :
        (h : Handshake)
        → IsBalanced max came
            (elim h as (λ x. Bool × Io) [
              | closed ↦ (true, remove_pending_handshake index true io)
              | finished s ↦
                  (true, remove_pending_handshake index false (spawn_serviced_session s p.conn io))
              | under_way ↦ (false, io)
            ]).1
    by_state closed = remove_pending_handshake-IsBalanced max index came io p e b
    by_state (finished s) = spawn-IsBalanced s max index came io p e b
    by_state under_way = b

pub progress_from-past :
    (fuel now timeout : ℕ) (probe : ℕ → Handshake) (index : ℕ) (io : Io)
    → get_elem? io.pending_handshakes index ≡ none
    → progress_from (suc fuel) now timeout probe index io ≡ io
unfolding progress_from
progress_from-past fuel now timeout probe index io e = ground arith

pub progress_from-next :
    (fuel now timeout : ℕ) (probe : ℕ → Handshake) (index : ℕ) (io : Io) (p : PendingHandshake)
    → get_elem? io.pending_handshakes index ≡ some p
    → progress_from (suc fuel) now timeout probe index io
      ≡ progress_from fuel now timeout probe
          (if (progress_one now timeout probe index p io).0 then index else suc index)
          (progress_one now timeout probe index p io).1
unfolding progress_from
progress_from-next fuel now timeout probe index io p e = ground arith

pub progress_from-IsBalanced :
    (fuel max now timeout : ℕ) (probe : ℕ → Handshake) (index : ℕ) (came : List ℕ) (io : Io)
    → IsBalanced max came io
    → IsBalanced max came (progress_from fuel now timeout probe index io)
unfolding progress_from
progress_from-IsBalanced zero max now timeout probe index came io b = b
progress_from-IsBalanced (suc fuel) max now timeout probe index came io b =
    elim (Option-cases (get_elem? io.pending_handshakes index)) [
      | inl past ↦ rw (progress_from-past fuel now timeout probe index io past) b
      | inr (p, e) ↦ rw (progress_from-next fuel now timeout probe index io p e) (
          progress_from-IsBalanced fuel max now timeout probe _ came
            (progress_one now timeout probe index p io).1
            (progress_one-IsBalanced max now timeout probe index came io p e b))
    ]

free_pending-past :
    (fuel : ℕ) (io : Io)
    → get_elem? io.pending_handshakes 0 ≡ none
    → free_pending (suc fuel) io ≡ io
unfolding free_pending
free_pending-past fuel io e = ground arith

pub free_pending-next :
    (fuel : ℕ) (io : Io) (p : PendingHandshake)
    → get_elem? io.pending_handshakes 0 ≡ some p
    → free_pending (suc fuel) io ≡ free_pending fuel (remove_pending_handshake 0 true io)
unfolding free_pending
free_pending-next fuel io p e = ground arith

pub free_pending-IsBalanced :
    (fuel max : ℕ) (came : List ℕ) (io : Io)
    → IsBalanced max came io
    → IsBalanced max came (free_pending fuel io)
unfolding free_pending
free_pending-IsBalanced zero max came io b = b
free_pending-IsBalanced (suc fuel) max came io b =
    elim (Option-cases (get_elem? io.pending_handshakes 0)) [
      | inl past ↦ rw (free_pending-past fuel io past) b
      | inr (p, e) ↦ rw (free_pending-next fuel io p e) (
          free_pending-IsBalanced fuel max came (remove_pending_handshake 0 true io)
            (remove_pending_handshake-IsBalanced max 0 came io p e b))
    ]
