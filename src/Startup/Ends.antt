-- ===== src/Startup/Ends.antt =====
-- What a child makes it ends, once.
use mod_http.Common.{
  ◌≡◌, refl, Bool, true, false, not, none, List, [], ◌∷◌, arith, if_both, if_known, if◌then◌else◌,
}
use mod_http.Startup.{
  udp_socket, worker_pool, qengine, event_thread, acquirer, makes, ends, success, again,
  address_in_use, fails, is_success, socket_open, Child, new_child, life, start_or_close, InitCalls,
  child_init, Attempt, acquire_round, acquire,
}
use mod_http.Startup.Stops.{ended-IsIdle}
use mod_http.Startup.Books.{
  made, ended, Books, IsKept, IsIdle, one_if, ends_once, socket_open-Books, start_or_close-IsKept,
  start_or_close-acquiring, idle-IsKept,
}

-- The books are right, and where the thread that retries was made, nothing else was.
abbrev IsBegun : Child → Type 0
IsBegun child = IsKept child × (child.acquiring ≡ true → IsIdle child)

-- `h3_child_init`, of a child that has not begun.
child_init-IsBegun : (c : InitCalls) → ends_once c.start ≡ true → IsBegun (child_init c new_child)
unfolding child_init
child_init-IsBegun c once =
    let log = (socket_open c.socket []).1 in
    let with_log = record new_child { log = log } in
    if_both IsBegun (not c.configured) ((tt, (refl, refl, refl, refl, refl)), (λ on. absurd cc))
      (elim (socket_open c.socket []).0
          as (λ status.
            Books log (one_if (is_success status)) 0 false
            → IsBegun (elim status [
              | success ↦ start_or_close c.start with_log
              | again ↦
                  if c.acquirer_made
                  then record new_child { acquiring = true; log = makes acquirer ∷ log }
                  else record new_child { log = log }
              | address_in_use ↦ record new_child { log = log }
              | fails code ↦ record new_child { log = log }
            ])) [
              | success ↦ λ b.
                  let same = start_or_close-acquiring c.start with_log in
                  (start_or_close-IsKept c.start with_log once refl b, (λ on. absurd cc))
              | again ↦ λ b.
                  let (s, p, q, e, a) = b in
                  let alone : Books (makes acquirer ∷ log) 0 0 true =
                    (s, p, q, e, omega (arith, a)) in
                  if_both IsBegun c.acquirer_made ((tt, alone), (λ on. (refl, alone)))
                    ((tt, b), (λ on. absurd cc))
              | address_in_use ↦ λ b. ((tt, b), (λ on. absurd cc))
              | fails code ↦ λ b. ((tt, b), (λ on. absurd cc))
            ]
        (socket_open-Books c.socket [] false (refl, refl, refl, refl, refl)))

-- A round of the thread that retries: it goes on only from an idle child.
acquire_round-IsKept :
    (a : Attempt) (child : Child)
    → ends_once a.start ≡ true
    → IsIdle child
    → IsKept (acquire_round a child).1
      × ((acquire_round a child).0 ≡ true → IsIdle (acquire_round a child).1)
unfolding acquire_round
acquire_round-IsKept a child once (none_yet, books) =
    let log = (socket_open a.socket child.log).1 in
    let next = record child { log = log } in
    let P : Bool × Child → Type 0 = λ o. IsKept o.1 × (o.0 ≡ true → IsIdle o.1) in
    elim (socket_open a.socket child.log).0
        as (λ status.
          Books log (one_if (is_success status)) 0 child.acquiring
          → P (elim status as (λ x. Bool × Child) [
            | again ↦ (true, record child { log = log })
            | address_in_use ↦ (false, record child { log = log })
            | fails code ↦ (false, record child { log = log })
            | success ↦
                if a.stopping
                then (false, record child { log = ends udp_socket ∷ log })
                else (false, start_or_close a.start (record child { log = log }))
          ])) [
            | again ↦ λ b. (idle-IsKept next (none_yet, b), (λ on. (none_yet, b)))
            | address_in_use ↦ λ b. (idle-IsKept next (none_yet, b), (λ on. absurd cc))
            | fails code ↦ λ b. (idle-IsKept next (none_yet, b), (λ on. absurd cc))
            | success ↦ λ b.
                let (s, p, q, e, w) = b in
                if_both P a.stopping
                  (
                    idle-IsKept (record child { log = ends udp_socket ∷ log })
                        (none_yet, (omega (arith, s), p, q, e, w)),
                    (λ on. absurd cc),
                  )
                  (start_or_close-IsKept a.start next once none_yet b, (λ on. absurd cc))
          ]
      (socket_open-Books a.socket child.log child.acquiring books)

abbrev pub AllEndOnce : List Attempt → Type 0
AllEndOnce [] = Unit {0}
AllEndOnce (a ∷ attempts) = (ends_once a.start ≡ true) × AllEndOnce attempts

pub acquire-IsKept :
    (attempts : List Attempt) (child : Child)
    → AllEndOnce attempts
    → IsIdle child
    → IsKept (acquire attempts child)
unfolding acquire
acquire-IsKept [] child once idle = idle-IsKept child idle
acquire-IsKept (a ∷ attempts) child (here, further) idle =
    let (kept, goes) = acquire_round-IsKept a child here idle in
    if_known IsKept (acquire_round a child).0
      (λ on. acquire-IsKept attempts (acquire_round a child).1 further (goes on)) (λ off. kept)

-- From the start of a child to the end of its pool, however often the port was retried and whether or
-- not the child stops gracefully, where no start fails after the worker pool was made: the child ends
-- every socket, worker pool, QUIC engine and event thread that it makes, as often as it makes it, and
-- nothing listens in the end.
pub life_ends :
    (c : InitCalls) (attempts : List Attempt) (graceful : Bool)
    → ends_once c.start ≡ true
    → AllEndOnce attempts
    → let child = life c attempts graceful in
      (child.io ≡ none)
      × (made udp_socket child.log ≡ ended udp_socket child.log)
      × (made worker_pool child.log ≡ ended worker_pool child.log)
      × (made qengine child.log ≡ ended qengine child.log)
      × (made event_thread child.log ≡ ended event_thread child.log)
unfolding life
life_ends c attempts graceful once all_once =
    let started = child_init c new_child in
    let (kept, begun) = child_init-IsBegun c once in
    let served =
      if_known IsKept started.acquiring (λ on. acquire-IsKept attempts started all_once (begun on))
        (λ off. kept) in
    let next = if started.acquiring then acquire attempts started else started in
    let (gone, (s, p, q, e, a)) = ended-IsIdle graceful next served in
    (gone, omega (arith, s), omega (arith, p), omega (arith, q), omega (arith, e))
