-- ===== src/Response/Delivery/Order.antt =====
-- No history of a response queue loses, repeats or reorders a byte, or touches a freed chunk.
use mod_http.Common.{
  ℕ, zero, suc, ◌+◌, ◌-◌, ◌≤◌, ◌≡◌, refl, ◌≢◌, ap, ◌∙◌, sym, subst, Bool, true, false, Option, some,
  List, [], ◌∷◌, ◌++◌, append_assoc, append-nil, Bytes, arith, length, take, drop, map,
  length-append, ◌⊎◌, Bool-cases, inl, inr,
}
use native.Mathlib.Decide.{ℕ_discrete}
use mod_http.Response.{
  AppendCalls, Chunk, Response, SessionFlags, pulled, callback_failure, Appended, appended,
  append_round, read_data, cancel, complete,
}
use mod_http.Response.Layout.{Node, Laid, unacked, bytes_of, fresh_node, unacked-append}
use mod_http.Response.Invariant.{Represents, AllFresh, cancel-Represents, complete-Represents}
use mod_http.Response.Steps.Acks.{settle, ack-Represents}
use mod_http.Response.Steps.Reads.{vec_of, answer, Laid-right, read_data-Represents}
use mod_http.Response.Steps.Appends.{append_round-Represents, append_round-refused}
use mod_http.Response.Delivery.{
  Event, Traffic, Flow, Lawful, run_event, read_vec, read_vecs, carried, accepted,
}

bytes_of-append : (ns ms : List Node) → bytes_of (ns ++ ms) ≡ bytes_of ns ++ bytes_of ms
bytes_of-append [] ms = refl
bytes_of-append (n ∷ ns) ms = rw (bytes_of-append ns ms, append_assoc)

bytes_of-take-drop :
    (k : ℕ) (ns : List Node) → bytes_of (take k ns) ++ bytes_of (drop k ns) ≡ bytes_of ns
bytes_of-take-drop zero ns = refl
bytes_of-take-drop (suc k) [] = refl
bytes_of-take-drop (suc k) (n ∷ ns) = rw (append_assoc, bytes_of-take-drop k ns)

take-length : (bs : Bytes) → take (length bs) bs ≡ bs
take-length [] = refl
take-length (b ∷ bs) = ap (λ r. b ∷ r) (take-length bs)

read_vec-Laid :
    (cells : ℕ → Option Chunk) (n : Node) (next : Option ℕ)
    → cells n.addr ≡ some (record { next = next; bytes = n.bytes; acked = n.acked })
    → read_vec cells (vec_of n) ≡ n.bytes
unfolding read_vec
read_vec-Laid cells n next e = rw (e, read_vec) (take-length n.bytes)

-- The vectors of chunks that lie in memory point to their bytes.
read_vecs-Laid :
    (cells : ℕ → Option Chunk) (ns ms : List Node)
    → Laid cells (ns ++ ms)
    → read_vecs cells (map vec_of ns) ≡ bytes_of ns
read_vecs-Laid cells [] ms l = unfold read_vecs in refl
read_vecs-Laid cells (n ∷ ns) ms l =
    read_vecs-cons cells n ns
    ∙ (λ i. read_vec-Laid cells n _ l.0 i ++ read_vecs-Laid cells ns ms l.1 i)
  where
    read_vecs-cons :
        (cells : ℕ → Option Chunk) (n : Node) (ns : List Node)
        → read_vecs cells (map vec_of (n ∷ ns))
          ≡ read_vec cells (vec_of n) ++ read_vecs cells (map vec_of ns)
    read_vecs-cons cells n ns = unfold read_vecs in refl

pub carried-answer :
    (cells : ℕ → Option Chunk) (ns left : List Node) (done : Bool)
    → Laid cells (ns ++ left)
    → carried cells (answer ns left done) ≡ bytes_of ns
unfolding carried
carried-answer cells [] left true l = unfold read_vecs in refl
carried-answer cells [] left false l = refl
carried-answer cells (n ∷ ns) [] done l = read_vecs-Laid cells (n ∷ ns) [] l
carried-answer cells (n ∷ ns) (m ∷ ms) done l = read_vecs-Laid cells (n ∷ ns) (m ∷ ms) l

unacked-take :
    (k : ℕ) (ns : List Node) → AllFresh ns → unacked (take k ns) ≡ length (bytes_of (take k ns))
unacked-take zero ns f = refl
unacked-take (suc k) [] f = refl
unacked-take (suc k) (n ∷ ns) f =
    omega (arith, unacked-take k ns f.1, length-append n.bytes (bytes_of (take k ns)), f.0)

unacked-settle : (d : ℕ) (ns : List Node) → d ≤ unacked ns → unacked (settle d ns) ≡ unacked ns - d
unfolding settle
unacked-settle d [] h = omega arith
unacked-settle d (n ∷ ns) h = ground (arith, unacked-settle (d - (length n.bytes - n.acked)) ns)

read_data-zero :
    (veccnt : ℕ) (q : Response) → veccnt ≡ 0 → read_data veccnt q ≡ some (callback_failure, q)
unfolding read_data
read_data-zero veccnt q z = ground arith

read_data-cancelled :
    (veccnt : ℕ) (q : Response)
    → veccnt ≢ 0
    → q.cancelled ≡ true
    → read_data veccnt q ≡ some (pulled [] true, q)
unfolding read_data
read_data-cancelled veccnt q nz dead = ground arith

-- What an event comes to: no fault, and the flow is kept.
abbrev pub Flows : Option Traffic → Type 0
Flows result = (t : Traffic) × (result ≡ some t) × Flow t

-- A read that takes nothing.
idle-Flow :
    (t : Traffic)
    → Flow t
    → Flow (record t { delivered = t.delivered ++ []; outstanding = t.outstanding + 0 })
idle-Flow t f = record {
  sent = f.sent;
  waiting = f.waiting;
  represents = f.represents;
  in_order = rw append-nil f.in_order;
  open_bytes = omega (arith, f.open_bytes);
}

pulls-Flows : (veccnt : ℕ) (t : Traffic) → Flow t → Flows (run_event (Event.pulls veccnt) t)
unfolding run_event
pulls-Flows veccnt t f = elim (ℕ_discrete veccnt 0) [
  | yes z ↦ (
    record t { delivered = t.delivered ++ []; outstanding = t.outstanding + 0 },
    rw (read_data-zero veccnt t.queue z, run_event) (unfold carried in refl),
    idle-Flow t f,
  )
  | no nz ↦ elim (Bool-cases t.queue.cancelled) [
    | inl dead ↦ (
      record t { delivered = t.delivered ++ []; outstanding = t.outstanding + 0 },
      rw (read_data-cancelled veccnt t.queue nz dead, run_event) (unfold carried read_vecs in refl),
      idle-Flow t f,
    )
    | inr live ↦
        let (q, e, r) = read_data-Represents veccnt t.queue f.sent f.waiting f.represents nz live in
        let now_taken = take veccnt f.waiting in
        let left = drop veccnt f.waiting in
        let bytes =
          carried-answer q.cells now_taken left t.queue.complete
            (Laid-right q.cells f.sent (now_taken ++ left) (rw (← append_assoc) r.laid)) in
        let t' : Traffic = record t {
          queue = q;
          delivered = t.delivered ++ bytes_of now_taken;
          outstanding = t.outstanding + length (bytes_of now_taken);
        } in
        (
          t',
          rw (e, run_event) (rw bytes),
          record {
            sent = f.sent ++ now_taken;
            waiting = left;
            represents = r;
            in_order =
                f.in_order
                ∙ ap (λ b. t.delivered ++ b) (sym (bytes_of-take-drop veccnt f.waiting))
                ∙ sym (append_assoc t.delivered (bytes_of now_taken) (bytes_of left));
            open_bytes = omega (
              arith,
              f.open_bytes,
              unacked-append f.sent now_taken,
              unacked-take veccnt f.waiting f.represents.fresh,
            );
          },
        )
  ]
]

acks-Flows :
    (now datalen : ℕ) (t : Traffic)
    → Flow t
    → datalen ≤ t.outstanding
    → Flows (run_event (Event.acks now datalen) t)
unfolding run_event
acks-Flows now datalen t f h =
    let (q, e, r) =
      ack-Represents now datalen t.queue f.sent f.waiting f.represents
        (omega (arith, f.open_bytes)) in
    let t' : Traffic = record t { queue = q; outstanding = t.outstanding - datalen } in
    (
      t',
      rw (e, run_event),
      record {
        sent = settle datalen f.sent;
        waiting = f.waiting;
        represents = r;
        in_order = f.in_order;
        open_bytes = omega (arith, f.open_bytes, unacked-settle datalen f.sent);
      },
    )

appended-Flow :
    (t : Traffic) (f : SessionFlags) (a : AppendCalls) (rest : Bytes) (n : ℕ) (q : Response)
    → append_round f a rest t.queue ≡ (appended n, q)
    → Flow t
    → Flow (record t { queue = q; produced = t.produced ++ take n rest })
appended-Flow t f a rest n q e w = record {
  sent = w.sent;
  waiting = w.waiting ++ fresh_node t.queue.brk (take n rest) ∷ [];
  represents = (append_round-Represents f a rest t.queue w.sent w.waiting e w.represents).0;
  in_order = rw (
    w.in_order,
    bytes_of-append w.waiting (fresh_node t.queue.brk (take n rest) ∷ []),
    append-nil,
    append_assoc,
  );
  open_bytes = w.open_bytes;
}

refused-Flow :
    (t : Traffic) (q : Response)
    → (q ≡ t.queue) ⊎ (q ≡ cancel t.queue)
    → Flow t
    → Flow (record t { queue = q; produced = t.produced ++ [] })
refused-Flow t q d w = record {
  sent = w.sent;
  waiting = w.waiting;
  represents = elim d [
    | inl e ↦ subst (λ p. Represents p w.sent w.waiting) (sym e) w.represents
    | inr e ↦
        subst (λ p. Represents p w.sent w.waiting) (sym e)
          (cancel-Represents t.queue w.sent w.waiting w.represents)
  ];
  in_order = rw append-nil w.in_order;
  open_bytes = w.open_bytes;
}

-- The traffic after a round of the producer that came to `outcome` and the queue `q`.
after_round : Traffic → Bytes → Appended × Response → Traffic
after_round t rest (outcome, q) = record t {
  queue = q;
  produced = t.produced ++ accepted outcome rest;
}

after_round-Flow :
    (t : Traffic) (f : SessionFlags) (a : AppendCalls) (rest : Bytes) (outcome : Appended)
    (q : Response)
    → append_round f a rest t.queue ≡ (outcome, q)
    → Flow t
    → Flow (after_round t rest (outcome, q))
unfolding after_round accepted
after_round-Flow t f a rest (appended n) q e w = appended-Flow t f a rest n q e w
after_round-Flow t f a rest o q e w =
    refused-Flow t q (append_round-refused f a rest t.queue e (λ n. λ h. cc)) w

-- Every event that nghttp3 and the worker may bring about runs without touching a freed chunk, and
-- keeps the flow.
pub run_event-Flows : (e : Event) (t : Traffic) → Flow t → Lawful e t → Flows (run_event e t)
unfolding run_event
run_event-Flows (Event.appends f a rest) t w l = (
  after_round t rest (append_round f a rest t.queue),
  unfold after_round in refl,
  after_round-Flow t f a rest (append_round f a rest t.queue).0 (append_round f a rest t.queue).1
      refl w,
)
run_event-Flows (Event.completes f) t w l = (
  record t { queue = complete f t.queue },
  refl,
  record {
    sent = w.sent;
    waiting = w.waiting;
    represents = complete-Represents f t.queue w.sent w.waiting w.represents;
    in_order = w.in_order;
    open_bytes = w.open_bytes;
  },
)
run_event-Flows (Event.pulls veccnt) t w l = pulls-Flows veccnt t w
run_event-Flows (Event.acks now datalen) t w l = acks-Flows now datalen t w l
run_event-Flows Event.cancels t w l = (
  record t { queue = cancel t.queue },
  refl,
  record {
    sent = w.sent;
    waiting = w.waiting;
    represents = cancel-Represents t.queue w.sent w.waiting w.represents;
    in_order = w.in_order;
    open_bytes = w.open_bytes;
  },
)
