-- ===== src/Datagram/Order.antt =====
-- Datagrams leave the queue in the order in which they came, each whole, one for each call.
use mod_http.Common.{
  ℕ, suc, ◌≤◌, ◌≡◌, refl, ap, ◌∙◌, inl, inr, Bool, true, false, not, Option, none, some, List, [],
  ◌∷◌, ◌++◌, Bytes, map, Bool-cases, ◌||◌, ltb, ◌==◌, arith, length, take, drop, length-take,
  Option-cases,
}
use mod_http.Datagram.{
  Datagram, BioMsg, Engine, Received, NextBio, queue_fill, filled, note_peer, queue_pop, popped,
  deliver, recvmmsg,
}
use mod_http.Datagram.Fill.{payload, datagram_of, IsFilled, AllFilled, queue_fill-filled}

take-append : (xs ys : Bytes) → take (length xs) (xs ++ ys) ≡ xs
take-append [] ys = refl
take-append (x ∷ xs) ys = ap (λ zs. x ∷ zs) (take-append xs ys)

module _ {Addr : Type 0} where
  -- What the call gives its caller: the payload of the first message, when it says that there is
  -- one.
  pub given : Received Addr → Option Bytes
  given r = elim r.msgs_processed [
    | none ↦ none
    | some n ↦ elim (not r.rv || n == 0) [
      | true ↦ none
      | false ↦ elim r.msgs [ [] ↦ none | m ∷ ms ↦ some (payload m) ]
    ]
  ]

  -- One call for each of the messages `ms`, each with an array of that one message.
  pub pump :
      Addr
      → NextBio Addr
      → (ℕ → Bool)
      → List (BioMsg Addr)
      → Engine Addr
      → List (Option Bytes) × Engine Addr
  unfolding recvmmsg given
  pump unspec next alloc [] e = ([], e)
  pump unspec next alloc (m ∷ ms) e =
      let r = recvmmsg unspec next alloc (m ∷ []) e in
      let (gs, e') = pump unspec next alloc ms r.engine in (given r ∷ gs, e')

  -- The message has room for the datagram.
  abbrev pub HasRoom : BioMsg Addr → Datagram Addr → Type 0
  HasRoom m d = ((buffer : Bytes) × (m.bytes ≡ some buffer)) × (length d.bytes ≤ m.data_len)

  -- Each message has room for the datagram of its turn.
  unfoldable pub Fits : List (BioMsg Addr) → List (Datagram Addr) → Type 0
  Fits [] [] = Unit {0}
  Fits (m ∷ ms) (d ∷ ds) = HasRoom m d × Fits ms ds
  Fits ms ds = ⊥

  queue_pop-fits :
      (m : BioMsg Addr) (e : Engine Addr) (d : Datagram Addr) (ds : List (Datagram Addr))
      → e.peer_rx ≡ d ∷ ds
      → (room : HasRoom m d)
      → queue_pop m e ≡ (true, filled d room.0.0 m, record e { peer_rx = ds })
  unfolding queue_pop
  queue_pop-fits m e d ds q ((buffer, there), room) = ground arith

  queue_pop-small :
      (m : BioMsg Addr) (e : Engine Addr) (d : Datagram Addr) (ds : List (Datagram Addr))
      (buffer : Bytes)
      → e.peer_rx ≡ d ∷ ds
      → m.bytes ≡ some buffer
      → ltb m.data_len (length d.bytes) ≡ true
      → queue_pop m e ≡ (false, m, record e { peer_rx = ds })
  unfolding queue_pop
  queue_pop-small m e d ds buffer q there small = ground arith

  recvmmsg-busy :
      (unspec : Addr) (next : NextBio Addr) (alloc : ℕ → Bool) (m : BioMsg Addr)
      (arr : List (BioMsg Addr)) (e : Engine Addr) (d : Datagram Addr) (ds : List (Datagram Addr))
      → e.peer_rx ≡ d ∷ ds
      → recvmmsg unspec next alloc (m ∷ arr) e
        ≡ popped arr (queue_pop m (record e { current_peer_addr = unspec }))
  unfolding recvmmsg
  recvmmsg-busy unspec next alloc m arr e d ds q = ground arith

  note_peer-peer_rx : (m : BioMsg Addr) (e : Engine Addr) → (note_peer m e).peer_rx ≡ e.peer_rx
  note_peer-peer_rx m e = elim (Option-cases m.peer) [
    | inl missing ↦ ground arith
    | inr (peer, there) ↦ ground arith
  ]

  recvmmsg-queued :
      (unspec : Addr) (next : NextBio Addr) (alloc : ℕ → Bool) (m : BioMsg Addr) (e : Engine Addr)
      (d : Datagram Addr) (ds : List (Datagram Addr))
      → e.peer_rx ≡ d ∷ ds
      → HasRoom m d
      → (given (recvmmsg unspec next alloc (m ∷ []) e) ≡ some d.bytes)
        × ((recvmmsg unspec next alloc (m ∷ []) e).engine.peer_rx ≡ ds)
  recvmmsg-queued unspec next alloc m e d ds q room =
      let cleared : Engine Addr = record e { current_peer_addr = unspec } in
      let step =
        recvmmsg-busy unspec next alloc m [] e d ds q
        ∙ ap (popped []) (queue_pop-fits m cleared d ds q room) in
      (
        ap given step ∙ unfold given in ap some (take-append d.bytes _),
        ap (λ r. r.engine.peer_rx) step
            ∙ note_peer-peer_rx (filled d room.0.0 m) (record cleared { peer_rx = ds }),
      )

  pump-in_order :
      (unspec : Addr) (next : NextBio Addr) (alloc : ℕ → Bool) (ms : List (BioMsg Addr))
      (ds : List (Datagram Addr)) (e : Engine Addr)
      → e.peer_rx ≡ ds
      → Fits ms ds
      → ((pump unspec next alloc ms e).0 ≡ map (λ d. some d.bytes) ds)
        × ((pump unspec next alloc ms e).1.peer_rx ≡ [])
  unfolding pump Fits
  pump-in_order unspec next alloc [] [] e q fits = (refl, q)
  pump-in_order unspec next alloc (m ∷ ms) (d ∷ ds) e q (room, fits) =
      let (now, left) = recvmmsg-queued unspec next alloc m e d ds q room in
      let (rest, done) =
        pump-in_order unspec next alloc ms ds (recvmmsg unspec next alloc (m ∷ []) e).engine left
          fits in
      ((λ i. now i ∷ rest i), done)
  pump-in_order unspec next alloc ms ds e q fits = elim fits [ ]

  payload-HasRoom : (m : BioMsg Addr) → IsFilled m → HasRoom m (datagram_of m)
  payload-HasRoom m (buffer, there, nonempty, room) =
      ((buffer, there), rw there (omega (arith, length-take m.data_len buffer)))

  recvmmsg-fresh :
      (unspec : Addr) (next : NextBio Addr) (alloc : ℕ → Bool) (a : BioMsg Addr)
      (arr : List (BioMsg Addr)) (e : Engine Addr) (k : ℕ) (m : BioMsg Addr)
      (more : List (BioMsg Addr))
      → e.peer_rx ≡ []
      → next (a ∷ arr) ≡ (true, suc k, m ∷ more)
      → recvmmsg unspec next alloc (a ∷ arr) e
        ≡ deliver alloc (suc k) (m ∷ more) (record e { current_peer_addr = unspec })
  unfolding recvmmsg
  recvmmsg-fresh unspec next alloc a arr e k m more q got = ground arith

  deliver-queued :
      (alloc : ℕ → Bool) (k : ℕ) (m : BioMsg Addr) (more : List (BioMsg Addr)) (e : Engine Addr)
      {e' : Engine Addr}
      → queue_fill alloc 0 (m ∷ take k more) e ≡ (true, e')
      → deliver alloc (suc k) (m ∷ more) e ≡ popped more (queue_pop m e')
  unfolding deliver
  deliver-queued alloc k m more e h = ground arith

  deliver-filled :
      (alloc : ℕ → Bool) (k : ℕ) (m : BioMsg Addr) (more : List (BioMsg Addr)) (e : Engine Addr)
      → e.peer_rx ≡ []
      → AllFilled (m ∷ take k more)
      → ((j : ℕ) → alloc j ≡ true)
      → (given (deliver alloc (suc k) (m ∷ more) e) ≡ some (payload m))
        × ((deliver alloc (suc k) (m ∷ more) e).engine.peer_rx ≡ map datagram_of (take k more))
  unfolding AllFilled
  deliver-filled alloc k m more e q f a =
      let ds = map datagram_of (take k more) in
      let room = payload-HasRoom m f.0 in
      let step =
        deliver-queued alloc k m more e (queue_fill-filled alloc 0 (m ∷ take k more) e f a)
        ∙ ap (popped more) (
            queue_pop-fits m (record e { peer_rx = e.peer_rx ++ datagram_of m ∷ ds })
              (datagram_of m) ds (ap (λ l. l ++ datagram_of m ∷ ds) q) room) in
      (
        ap given step
            ∙ unfold given in
              ap some (take-append (payload m) (drop (length (payload m)) room.0.0)),
        ap (λ r. r.engine.peer_rx) step
            ∙ note_peer-peer_rx (filled (datagram_of m) room.0.0 m) (record e { peer_rx = ds }),
      )

  -- A call on an empty queue, for which the BIO below receives messages and memory suffices, gives
  -- the payload of the first. The calls after it, one for each of the others and with room for it,
  -- give the others' payloads in the order in which they came, and leave the queue empty.
  pub receives_in_order :
      (unspec : Addr) (next : NextBio Addr) (alloc : ℕ → Bool) (a : BioMsg Addr)
      (arr ms : List (BioMsg Addr)) (e : Engine Addr) (k : ℕ) (m : BioMsg Addr)
      (more : List (BioMsg Addr))
      → e.peer_rx ≡ []
      → next (a ∷ arr) ≡ (true, suc k, m ∷ more)
      → AllFilled (m ∷ take k more)
      → ((j : ℕ) → alloc j ≡ true)
      → Fits ms (map datagram_of (take k more))
      → (given (recvmmsg unspec next alloc (a ∷ arr) e) ≡ some (payload m))
        × ((pump unspec next alloc ms (recvmmsg unspec next alloc (a ∷ arr) e).engine).0
            ≡ map (λ n. some (payload n)) (take k more))
        × ((pump unspec next alloc ms (recvmmsg unspec next alloc (a ∷ arr) e).engine).1.peer_rx
            ≡ [])
  receives_in_order unspec next alloc a arr ms e k m more q got f mem fits =
      let fresh = recvmmsg-fresh unspec next alloc a arr e k m more q got in
      let (first, left) =
        deliver-filled alloc k m more (record e { current_peer_addr = unspec }) q f mem in
      let (rest, done) =
        pump-in_order unspec next alloc ms (map datagram_of (take k more)) _
          (ap (λ r. r.engine.peer_rx) fresh ∙ left) fits in
      (ap given fresh ∙ first, rest ∙ map-payload (take k more), done)
    where
      map-payload :
          (ns : List (BioMsg Addr))
          → map (λ d. some d.bytes) (map datagram_of ns) ≡ map (λ n. some (payload n)) ns
      map-payload [] = refl
      map-payload (n ∷ ns) = ap (λ l. some (payload n) ∷ l) (map-payload ns)

  -- On a queue that waits, a call whose first message has a buffer takes the head off, whether or not
  -- the buffer has room for it, so the caller's loop comes to an end.
  pub recvmmsg-progress :
      (unspec : Addr) (next : NextBio Addr) (alloc : ℕ → Bool) (m : BioMsg Addr)
      (arr : List (BioMsg Addr)) (e : Engine Addr) (d : Datagram Addr) (ds : List (Datagram Addr))
      (buffer : Bytes)
      → e.peer_rx ≡ d ∷ ds
      → m.bytes ≡ some buffer
      → (recvmmsg unspec next alloc (m ∷ arr) e).engine.peer_rx ≡ ds
  recvmmsg-progress unspec next alloc m arr e d ds buffer q there =
      let cleared : Engine Addr = record e { current_peer_addr = unspec } in
      let busy = recvmmsg-busy unspec next alloc m arr e d ds q in
      elim (Bool-cases (ltb m.data_len (length d.bytes))) [
        | inl small ↦
            ap (λ r. r.engine.peer_rx)
              (busy ∙ ap (popped arr) (queue_pop-small m cleared d ds buffer q there small))
        | inr fits ↦
            let room : HasRoom m d = ((buffer, there), ground arith) in
            ap (λ r. r.engine.peer_rx)
              (busy ∙ ap (popped arr) (queue_pop-fits m cleared d ds q room))
            ∙ note_peer-peer_rx (filled d buffer m) (record cleared { peer_rx = ds })
      ]
