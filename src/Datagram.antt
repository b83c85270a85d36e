-- ===== src/Datagram.antt =====
-- The queue of received datagrams that hands one datagram at a time, with its sender's address, to
-- the QUIC stack: mod_http3/src/quic/detail/h3q_addr.c. The linked list from `peer_rx_head` to
-- `peer_rx_tail` is a list, and `BIO_ADDR` is a type of addresses, a parameter. The BIO below and
-- the memory allocator are parameters too.
pub mod Fill
pub mod Order
mod Tests
use mod_http.Common.{
  ℕ, suc, ◌&&◌, Bool, true, false, not, Option, none, some, List, [], ◌∷◌, ◌++◌, Bytes, ◌||◌, ltb,
  ◌==◌, length, take, drop,
}

-- `struct h3q_datagram`; `bytes` is `data`, of length `data_len`, and a NULL address is `none`.
pub record Datagram (Addr : Type 0) : Type 0 where
  pub bytes : Bytes
  pub peer : Option Addr
  pub local : Option Addr

-- `BIO_MSG`: `bytes` (`data`) is the whole buffer, or `none` for NULL.
pub record BioMsg (Addr : Type 0) : Type 0 where
  pub bytes : Option Bytes
  pub data_len : ℕ
  pub peer : Option Addr
  pub local : Option Addr

-- The fields of `h3q_engine` that the file uses.
pub record Engine (Addr : Type 0) : Type 0 where
  pub peer_rx : List (Datagram Addr)
  pub current_peer_addr : Addr

-- What a call of the receive function leaves: its result, `*msgs_processed` where it was written,
-- the array of messages, and the engine.
pub record Received (Addr : Type 0) : Type 0 where
  pub rv : Bool
  pub msgs_processed : Option ℕ
  pub msgs : List (BioMsg Addr)
  pub engine : Engine Addr

-- `BIO_recvmmsg` of the next BIO on an array of messages: its result, the number received, and the
-- array afterwards.
abbrev pub NextBio : Type 0 → Type 0
NextBio Addr = List (BioMsg Addr) → Bool × ℕ × List (BioMsg Addr)

module _ {Addr : Type 0} where
  -- `h3q_queue_drop_head`
  abbrev pub queue_drop_head : Engine Addr → Engine Addr
  queue_drop_head e = record e { peer_rx = drop 1 e.peer_rx }

  -- `h3q_peer_addr_queue_clear`
  abbrev pub queue_clear : Engine Addr → Engine Addr
  queue_clear e = record e { peer_rx = [] }

  -- A datagram linked behind the tail.
  abbrev pub enqueue : Datagram Addr → Engine Addr → Engine Addr
  enqueue d e = record e { peer_rx = e.peer_rx ++ d ∷ [] }

  -- `h3q_queue_fill`; `alloc i` says whether the allocations for message `i` succeed.
  pub queue_fill : (ℕ → Bool) → ℕ → List (BioMsg Addr) → Engine Addr → Bool × Engine Addr
  queue_fill alloc i [] e = (true, e)
  queue_fill alloc i (m ∷ ms) e = elim m.bytes [
    | none ↦ (false, queue_clear e)
    | some buffer ↦ elim (m.data_len == 0 || not (alloc i)) [
      | true ↦ (false, queue_clear e)
      | false ↦
          queue_fill alloc (suc i) ms
            (enqueue (record { bytes = take m.data_len buffer; peer = m.peer; local = m.local }) e)
    ]
  ]

  -- `BIO_ADDR_copy` where both addresses are there.
  abbrev pub copy_addr : Option Addr → Option Addr → Option Addr
  copy_addr (some to) (some from) = some from
  copy_addr to from = to

  -- The message with the datagram copied into its buffer.
  abbrev pub filled : Datagram Addr → Bytes → BioMsg Addr → BioMsg Addr
  filled item buffer m = record {
    bytes = some (item.bytes ++ drop (length item.bytes) buffer);
    data_len = length item.bytes;
    peer = copy_addr m.peer item.peer;
    local = copy_addr m.local item.local;
  }

  -- `h3q_queue_pop` for a message that is not NULL.
  pub queue_pop : BioMsg Addr → Engine Addr → Bool × BioMsg Addr × Engine Addr
  queue_pop m e = elim e.peer_rx [
    | [] ↦ (false, m, e)
    | item ∷ rest ↦ elim m.bytes [
      | none ↦ (false, m, e)
      | some buffer ↦ elim (ltb m.data_len (length item.bytes)) [
        | true ↦ (false, m, queue_drop_head e)
        | false ↦ (true, filled item buffer m, queue_drop_head e)
      ]
    ]
  ]

  -- `if (msg->peer) BIO_ADDR_copy(engine->current_peer_addr, msg->peer)`
  abbrev pub note_peer : BioMsg Addr → Engine Addr → Engine Addr
  note_peer m e = elim m.peer [ none ↦ e | some peer ↦ record e { current_peer_addr = peer } ]

  -- The answer after a pop into the first message of the array.
  abbrev pub popped : List (BioMsg Addr) → Bool × BioMsg Addr × Engine Addr → Received Addr
  popped rest (true, m, e) = record {
    rv = true;
    msgs_processed = some 1;
    msgs = m ∷ rest;
    engine = note_peer m e;
  }
  popped rest (false, m, e) = record {
    rv = false;
    msgs_processed = some 0;
    msgs = m ∷ rest;
    engine = e;
  }

  -- What follows a successful receive of the BIO below: the list is the array afterwards.
  pub deliver : (ℕ → Bool) → ℕ → List (BioMsg Addr) → Engine Addr → Received Addr
  unfolding queue_fill queue_pop
  deliver alloc received [] e = record {
    rv = false;
    msgs_processed = some 0;
    msgs = [];
    engine = e;
  }
  deliver alloc received (m ∷ ms) e =
      let (queued, e') = queue_fill alloc 0 (take received (m ∷ ms)) e in
      elim queued [
        | false ↦ record { rv = false; msgs_processed = some 0; msgs = m ∷ ms; engine = e' }
        | true ↦ popped ms (queue_pop m e')
      ]

  -- `h3q_peer_addr_bio_recvmmsg` where the pointers are not NULL; `unspec` is a cleared address.
  pub recvmmsg : Addr → NextBio Addr → (ℕ → Bool) → List (BioMsg Addr) → Engine Addr → Received Addr
  unfolding deliver queue_pop
  recvmmsg unspec next alloc [] e = record {
    rv = false;
    msgs_processed = none;
    msgs = [];
    engine = e;
  }
  recvmmsg unspec next alloc (m ∷ ms) e =
      let cleared = record e { current_peer_addr = unspec } in
      elim e.peer_rx [
        | item ∷ rest ↦ popped ms (queue_pop m cleared)
        | [] ↦
            let (rv, received, array) = next (m ∷ ms) in
            elim (rv && not (received == 0)) [
              | true ↦ deliver alloc received array cleared
              | false ↦ record {
                rv = rv;
                msgs_processed = some received;
                msgs = array;
                engine = cleared;
              }
            ]
      ]
