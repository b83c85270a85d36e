-- ===== src/Datagram/Fill.antt =====
-- What `queue_fill` takes over from the messages of one receive.
use mod_http.Common.{
  ℕ, suc, ◌≤◌, ◌≡◌, ◌≢◌, refl, ap, ◌∙◌, sym, inl, inr, Bool, true, false, not, none, some, List, [],
  ◌∷◌, ◌++◌, append_assoc, append-nil, Bytes, map, if◌then◌else◌, Bool-cases, ◌||◌, ◌==◌, arith,
  length, take, Option-cases,
}
use mod_http.Datagram.{Datagram, BioMsg, Engine, queue_clear, enqueue, queue_fill}

module _ {Addr : Type 0} where
  -- The payload of a message, where it has a buffer.
  abbrev pub payload : BioMsg Addr → Bytes
  payload m = elim m.bytes [ none ↦ [] | some buffer ↦ take m.data_len buffer ]

  abbrev pub datagram_of : BioMsg Addr → Datagram Addr
  datagram_of m = record { bytes = payload m; peer = m.peer; local = m.local }

  -- What the BIO below leaves in a message that it received.
  abbrev pub IsFilled : BioMsg Addr → Type 0
  IsFilled m =
      (buffer : Bytes) × (m.bytes ≡ some buffer) × (m.data_len ≢ 0) × (m.data_len ≤ length buffer)

  unfoldable pub AllFilled : List (BioMsg Addr) → Type 0
  AllFilled [] = Unit {0}
  AllFilled (m ∷ ms) = IsFilled m × AllFilled ms

  queue_fill-next :
      (alloc : ℕ → Bool) (i : ℕ) (m : BioMsg Addr) (ms : List (BioMsg Addr)) (e : Engine Addr)
      → IsFilled m
      → alloc i ≡ true
      → queue_fill alloc i (m ∷ ms) e ≡ queue_fill alloc (suc i) ms (enqueue (datagram_of m) e)
  unfolding queue_fill
  queue_fill-next alloc i m ms e (buffer, there, nonempty, room) a = ground arith

  -- `queue_fill` takes over all the messages, behind what waits, when each is there and memory
  -- suffices.
  pub queue_fill-filled :
      (alloc : ℕ → Bool) (i : ℕ) (ms : List (BioMsg Addr)) (e : Engine Addr)
      → AllFilled ms
      → ((j : ℕ) → alloc j ≡ true)
      → queue_fill alloc i ms e ≡ (true, record e { peer_rx = e.peer_rx ++ map datagram_of ms })
  unfolding AllFilled
  queue_fill-filled alloc i [] e f a = unfold queue_fill in rw append-nil
  queue_fill-filled alloc i (m ∷ ms) e f a =
      queue_fill-next alloc i m ms e f.0 (a i)
      ∙ queue_fill-filled alloc (suc i) ms (enqueue (datagram_of m) e) f.1 a
      ∙ ap (λ ds. (true, record e { peer_rx = ds }))
          (append_assoc e.peer_rx (datagram_of m ∷ []) (map datagram_of ms))

  queue_fill-bad :
      (alloc : ℕ → Bool) (i : ℕ) (m : BioMsg Addr) (ms : List (BioMsg Addr)) (e : Engine Addr)
      (buffer : Bytes)
      → m.bytes ≡ some buffer
      → (m.data_len == 0 || not (alloc i)) ≡ true
      → queue_fill alloc i (m ∷ ms) e ≡ (false, queue_clear e)
  unfolding queue_fill
  queue_fill-bad alloc i m ms e buffer there bad = ground arith

  queue_fill-good :
      (alloc : ℕ → Bool) (i : ℕ) (m : BioMsg Addr) (ms : List (BioMsg Addr)) (e : Engine Addr)
      (buffer : Bytes)
      → m.bytes ≡ some buffer
      → (m.data_len == 0 || not (alloc i)) ≡ false
      → queue_fill alloc i (m ∷ ms) e ≡ queue_fill alloc (suc i) ms (enqueue (datagram_of m) e)
  unfolding queue_fill
  queue_fill-good alloc i m ms e buffer there good = ground arith

  -- A fill takes over every message or leaves nothing queued.
  pub queue_fill-all_or_nothing :
      (alloc : ℕ → Bool) (i : ℕ) (ms : List (BioMsg Addr)) (e : Engine Addr)
      → ((queue_fill alloc i ms e).1.peer_rx
          ≡ (if (queue_fill alloc i ms e).0 then e.peer_rx ++ map datagram_of ms else []))
        × ((queue_fill alloc i ms e).1.current_peer_addr ≡ e.current_peer_addr)
  unfolding queue_fill
  queue_fill-all_or_nothing alloc i [] e = (sym (append-nil e.peer_rx), refl)
  queue_fill-all_or_nothing alloc i (m ∷ ms) e = elim (Option-cases m.bytes) [
    | inl missing ↦ rw missing (refl, refl)
    | inr (buffer, there) ↦ elim (Bool-cases (m.data_len == 0 || not (alloc i))) [
      | inl bad ↦ rw (queue_fill-bad alloc i m ms e buffer there bad) (refl, refl)
      | inr good ↦
          let next = queue_fill-good alloc i m ms e buffer there good in
          let (rest, same) =
            queue_fill-all_or_nothing alloc (suc i) ms (enqueue (datagram_of m) e) in
          rw next (
            rest
                ∙ ap
                    (λ l.
                      if (queue_fill alloc (suc i) ms (enqueue (datagram_of m) e)).0 then l else [])
                    (append_assoc e.peer_rx (datagram_of m ∷ []) (map datagram_of ms)),
            same,
          )
    ]
  ]
