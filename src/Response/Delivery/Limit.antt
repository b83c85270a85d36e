-- ===== src/Response/Delivery/Limit.antt =====
-- No event changes the limit of a response queue.
use mod_http.Common.{
  ℕ, zero, suc, ◌-◌, ◌≡◌, refl, ◌∙◌, Bool, true, false, Option, none, some, List, [], Bytes, ◌==◌,
  arith, length, min, Bool-cases, Option-cases, inl, inr,
}
use mod_http.Response.{
  AppendCalls, Chunk, Response, SessionFlags, Vec, prepend, pulled, callback_failure, append_round,
  push_chunk, fill, read_data, ack_chunk, ack_loop, finish_ack, conclude, ack, cancel, complete,
}
use mod_http.Response.Delivery.{Event, Traffic, run_event}

-- A property of the result of a call that may fault, where there is one.
abbrev pub OnSome {ℓ κ} : {A : Type ℓ} → (A → Type κ) → Option A → Type κ
OnSome P none = Unit {_}
OnSome P (some a) = P a

abbrev pub bind {ℓ κ} : {A : Type ℓ} {B : Type κ} → Option A → (A → Option B) → Option B
bind o g = elim o [ none ↦ none | some a ↦ g a ]

pub OnSome-bind {ℓ κ} :
    {A : Type ℓ} {B : Type κ} (P : A → Type 0) (Q : B → Type 0) (o : Option A) (g : A → Option B)
    → OnSome P o
    → ((a : A) → P a → OnSome Q (g a))
    → OnSome Q (bind o g)
OnSome-bind P Q none g p step = tt
OnSome-bind P Q (some a) g p step = step a p

abbrev HasLimit {ℓ} : {X : Type ℓ} → ℕ → X × Response → Type 0
HasLimit limit (x, q) = q.buffer_limit ≡ limit

append_round-limit :
    (f : SessionFlags) (a : AppendCalls) (rest : Bytes) (q : Response)
    → (append_round f a rest q).1.buffer_limit ≡ q.buffer_limit
unfolding append_round push_chunk cancel
append_round-limit f a rest q = ground arith

complete-limit : (f : SessionFlags) (q : Response) → (complete f q).buffer_limit ≡ q.buffer_limit
unfolding complete
complete-limit f q = ground arith

ack_chunk-limit :
    (now datalen a : ℕ) (c : Chunk) (q : Response)
    → (ack_chunk now datalen a c q).buffer_limit ≡ q.buffer_limit
unfolding ack_chunk
ack_chunk-limit now datalen a c q = ground arith

ack_loop-stop :
    (fuel now datalen : ℕ) (released : Bool) (q : Response)
    → (datalen == 0) ≡ true
    → ack_loop (suc fuel) now datalen released q ≡ some (released, q)
unfolding ack_loop
ack_loop-stop fuel now datalen released q e = ground arith

ack_loop-empty :
    (fuel now datalen : ℕ) (released : Bool) (q : Response)
    → (datalen == 0) ≡ false
    → q.head ≡ none
    → ack_loop (suc fuel) now datalen released q ≡ some (released, q)
unfolding ack_loop
ack_loop-empty fuel now datalen released q e h = ground arith

ack_loop-fault :
    (fuel now datalen : ℕ) (released : Bool) (q : Response) (a : ℕ)
    → (datalen == 0) ≡ false
    → q.head ≡ some a
    → q.cells a ≡ none
    → ack_loop (suc fuel) now datalen released q ≡ none
unfolding ack_loop
ack_loop-fault fuel now datalen released q a e h c = ground arith

ack_loop-next :
    (fuel now datalen : ℕ) (released : Bool) (q : Response) (a : ℕ) (c : Chunk)
    → (datalen == 0) ≡ false
    → q.head ≡ some a
    → q.cells a ≡ some c
    → ack_loop (suc fuel) now datalen released q
      ≡ ack_loop fuel now
          (datalen - min datalen (length c.bytes - c.acked))
          true
          (ack_chunk now datalen a c q)
unfolding ack_loop
ack_loop-next fuel now datalen released q a c e h there = ground arith

ack_loop-HasLimit :
    (limit fuel now datalen : ℕ) (released : Bool) (q : Response)
    → q.buffer_limit ≡ limit
    → OnSome (HasLimit limit) (ack_loop fuel now datalen released q)
ack_loop-HasLimit limit zero now datalen released q l = unfold ack_loop in tt
ack_loop-HasLimit limit (suc fuel) now datalen released q l = elim (Bool-cases (datalen == 0)) [
  | inl stop ↦ rw (ack_loop-stop fuel now datalen released q stop) l
  | inr on ↦ elim (Option-cases q.head) [
    | inl gone ↦ rw (ack_loop-empty fuel now datalen released q on gone) l
    | inr (a, h) ↦ elim (Option-cases (q.cells a)) [
      | inl gone ↦ rw (ack_loop-fault fuel now datalen released q a on h gone) tt
      | inr (c, there) ↦ rw (ack_loop-next fuel now datalen released q a c on h there) (
          ack_loop-HasLimit limit fuel now _ true (ack_chunk now datalen a c q)
            (ack_chunk-limit now datalen a c q ∙ l))
    ]
  ]
]

fill-none : (room : ℕ) (q : Response) → q.submit_chunk ≡ none → fill (suc room) q ≡ some ([], q)
unfolding fill
fill-none room q s = ground arith

fill-fault :
    (room : ℕ) (q : Response) (a : ℕ)
    → q.submit_chunk ≡ some a
    → q.cells a ≡ none
    → fill (suc room) q ≡ none
unfolding fill
fill-fault room q a s c = ground arith

fill-next :
    (room : ℕ) (q : Response) (a : ℕ) (c : Chunk)
    → q.submit_chunk ≡ some a
    → q.cells a ≡ some c
    → fill (suc room) q
      ≡ prepend
          (record { chunk = a; offset = q.submit_offset; len = length c.bytes - q.submit_offset })
          (fill room (record q { submit_chunk = c.next; submit_offset = 0 }))
unfolding fill
fill-next room q a c s there = ground arith

OnSome-prepend :
    (limit : ℕ) (v : Vec) (r : Option (List Vec × Response))
    → OnSome (HasLimit limit) r
    → OnSome (HasLimit limit) (prepend v r)
OnSome-prepend limit v none l = tt
OnSome-prepend limit v (some r) l = l

fill-HasLimit :
    (limit room : ℕ) (q : Response) → q.buffer_limit ≡ limit → OnSome (HasLimit limit) (fill room q)
unfolding fill
fill-HasLimit limit zero q l = l
fill-HasLimit limit (suc room) q l = elim (Option-cases q.submit_chunk) [
  | inl gone ↦ rw (fill-none room q gone) l
  | inr (a, s) ↦ elim (Option-cases (q.cells a)) [
    | inl gone ↦ rw (fill-fault room q a s gone) tt
    | inr (c, there) ↦ rw (fill-next room q a c s there) (
        OnSome-prepend limit _ _
          (fill-HasLimit limit room (record q { submit_chunk = c.next; submit_offset = 0 }) l))
  ]
]

finish_ack-limit : (r : Bool × Response) → (finish_ack r).buffer_limit ≡ r.1.buffer_limit
unfolding finish_ack
finish_ack-limit (true, q) = refl
finish_ack-limit (false, q) = refl

ack-limit :
    (now datalen : ℕ) (q : Response)
    → OnSome (λ q'. q'.buffer_limit ≡ q.buffer_limit) (ack now datalen q)
unfolding ack
ack-limit now datalen q =
    OnSome-bind (HasLimit q.buffer_limit) (λ q'. q'.buffer_limit ≡ q.buffer_limit)
      (ack_loop (suc (suc q.brk)) now datalen false q) (λ r. some (finish_ack r))
      (ack_loop-HasLimit q.buffer_limit (suc (suc q.brk)) now datalen false q refl)
      (λ r l. finish_ack-limit r ∙ l)

read_data-none :
    (veccnt : ℕ) (q : Response)
    → (veccnt == 0) ≡ true
    → read_data veccnt q ≡ some (callback_failure, q)
unfolding read_data
read_data-none veccnt q z = ground arith

read_data-dead :
    (veccnt : ℕ) (q : Response)
    → (veccnt == 0) ≡ false
    → q.cancelled ≡ true
    → read_data veccnt q ≡ some (pulled [] true, q)
unfolding read_data
read_data-dead veccnt q nz dead = ground arith

read_data-live :
    (veccnt : ℕ) (q : Response)
    → (veccnt == 0) ≡ false
    → q.cancelled ≡ false
    → read_data veccnt q ≡ bind (fill veccnt q) (λ r. some (conclude r.0 r.1, r.1))
unfolding read_data
read_data-live veccnt q nz live = ground arith

read_data-limit :
    (veccnt : ℕ) (q : Response) → OnSome (HasLimit q.buffer_limit) (read_data veccnt q)
read_data-limit veccnt q = elim (Bool-cases (veccnt == 0)) [
  | inl z ↦ rw (read_data-none veccnt q z) refl
  | inr nz ↦ elim (Bool-cases q.cancelled) [
    | inl dead ↦ rw (read_data-dead veccnt q nz dead) refl
    | inr live ↦ rw (read_data-live veccnt q nz live) (
        OnSome-bind (HasLimit q.buffer_limit) (HasLimit q.buffer_limit) (fill veccnt q)
          (λ r. some (conclude r.0 r.1, r.1)) (fill-HasLimit q.buffer_limit veccnt q refl)
          (λ r l. l))
  ]
]

-- The queue after an event has the limit that it had before.
pub run_event-limit :
    (e : Event) (t : Traffic)
    → OnSome (λ t'. t'.queue.buffer_limit ≡ t.queue.buffer_limit) (run_event e t)
unfolding run_event cancel
run_event-limit (Event.appends f a rest) t = append_round-limit f a rest t.queue
run_event-limit (Event.completes f) t = complete-limit f t.queue
run_event-limit (Event.pulls veccnt) t =
    OnSome-bind (HasLimit t.queue.buffer_limit) (λ t'. t'.queue.buffer_limit ≡ t.queue.buffer_limit)
      (read_data veccnt t.queue) _ (read_data-limit veccnt t.queue) (λ r l. l)
run_event-limit (Event.acks now datalen) t =
    OnSome-bind (λ q'. q'.buffer_limit ≡ t.queue.buffer_limit)
      (λ t'. t'.queue.buffer_limit ≡ t.queue.buffer_limit) (ack now datalen t.queue) _
      (ack-limit now datalen t.queue) (λ q l. l)
run_event-limit Event.cancels t = refl
