-- ===== src/Response/Steps/Acks.antt =====
-- `h3_stream_response_ack_locked`: an acknowledgement settles bytes from the front.
use mod_http.Common.{
  ℕ, zero, suc, ◌+◌, ◌-◌, ◌≤◌, ◌<◌, ◌≡◌, refl, ◌≢◌, ◌∙◌, min, Bool, true, false, Option, none, some,
  List, [], ◌∷◌, ◌++◌, leb, ◌==◌, is_some, if◌then◌else◌, arith, length, eq→==, ne→==,
}
use native.Mathlib.Decide.{ℕ_discrete, dec_lt}
use mod_http.Response.{Chunk, Response, update, ack_chunk, ack_loop, finish_ack, ack}
use mod_http.Response.Layout.{
  Node, first, last, owns, unacked, chunk_of, Rising-weaken, Rising-length, Laid-update_below,
  update_self,
}
use mod_http.Response.Invariant.{Represents, flags-Represents}

-- What is left of the chunks after `datalen` more bytes are acknowledged.
unfoldable pub settle : ℕ → List Node → List Node
settle datalen [] = []
settle datalen (n ∷ ns) =
    let rest = settle (datalen - (length n.bytes - n.acked)) ns in
    if datalen == 0
    then n ∷ ns
    else if leb (length n.bytes - n.acked) datalen
    then rest
    else record n { acked = n.acked + datalen } ∷ ns

-- The queue after the head chunk is acknowledged in full, and in part.
abbrev freed : ℕ → ℕ → Chunk → Response → Response
freed now a c q = record q {
  buffered = q.buffered - (length c.bytes - c.acked);
  progress_at = now;
  cells = update q.cells a none;
  head = c.next;
  tail = if is_some c.next then q.tail else none;
}

abbrev advanced : ℕ → ℕ → ℕ → Chunk → Response → Response
advanced now datalen a c q = record q {
  buffered = q.buffered - datalen;
  progress_at = now;
  cells = update q.cells a (some (record c { acked = c.acked + datalen }));
}

ack_chunk-freed :
    (now datalen a : ℕ) (c : Chunk) (q : Response)
    → c.acked < length c.bytes
    → length c.bytes - c.acked ≤ datalen
    → ack_chunk now datalen a c q ≡ freed now a c q
unfolding ack_chunk
ack_chunk-freed now datalen a c q p h =
    let whole : min datalen (length c.bytes - c.acked) ≡ length c.bytes - c.acked = omega arith in
    rw (whole, eq→== (c.acked + (length c.bytes - c.acked)) (length c.bytes) (omega arith))

ack_chunk-advanced :
    (now datalen a : ℕ) (c : Chunk) (q : Response)
    → c.acked < length c.bytes
    → datalen < length c.bytes - c.acked
    → ack_chunk now datalen a c q ≡ advanced now datalen a c q
unfolding ack_chunk
ack_chunk-advanced now datalen a c q p h =
    let part : min datalen (length c.bytes - c.acked) ≡ datalen = omega arith in
    rw (part, ne→== (c.acked + datalen) (length c.bytes) (omega arith))

tail-freed :
    (n : Node) (ns : List Node) (t : Option ℕ)
    → t ≡ last (n ∷ ns)
    → (if is_some (first ns) then t else none) ≡ last ns
tail-freed n [] t e = refl
tail-freed n (m ∷ ns) t e = e

owned-freed :
    (cells : ℕ → Option Chunk) (n : Node) (ns : List Node)
    → ((a : ℕ) → owns (n ∷ ns) a ≡ false → cells a ≡ none)
    → (a : ℕ) → owns ns a ≡ false
    → update cells n.addr none a ≡ none
unfolding update
owned-freed cells n ns o a h = ground (arith, o a)

owned-advanced :
    (cells : ℕ → Option Chunk) (n : Node) (ns : List Node) (v : Option Chunk)
    → ((a : ℕ) → owns (n ∷ ns) a ≡ false → cells a ≡ none)
    → (a : ℕ) → owns (n ∷ ns) a ≡ false
    → update cells n.addr v a ≡ none
unfolding update
owned-advanced cells n ns v o a h = ground (arith, o a)

freed-Represents :
    (now : ℕ) (q : Response) (n : Node) (sent waiting : List Node)
    → Represents q (n ∷ sent) waiting
    → Represents (freed now n.addr (chunk_of n (first (sent ++ waiting))) q) sent waiting
freed-Represents now q n sent waiting r =
    let ns = sent ++ waiting in
    record {
      head = refl;
      tail = tail-freed n ns q.tail r.tail;
      submit = r.submit;
      offset = r.offset;
      laid =
          Laid-update_below q.cells (suc n.addr) q.brk n.addr none ns (omega arith) r.rising.1
            r.laid.1;
      rising = Rising-weaken (suc n.addr) 0 q.brk ns (omega arith) r.rising.1;
      partial = r.partial.1;
      fresh = r.fresh;
      counts = omega (arith, r.counts);
      bound = omega (arith, r.bound);
      owned = owned-freed q.cells n ns r.owned;
    }

last-acked :
    (n : Node) (acked : ℕ) (ns : List Node) → last (n ∷ ns) ≡ last (record n { acked = acked } ∷ ns)
last-acked n acked [] = refl
last-acked n acked (m ∷ ns) = refl

advanced-Represents :
    (now datalen : ℕ) (q : Response) (n : Node) (sent waiting : List Node)
    → datalen < length n.bytes - n.acked
    → Represents q (n ∷ sent) waiting
    → Represents
        (advanced now datalen n.addr (chunk_of n (first (sent ++ waiting))) q)
        (record n { acked = n.acked + datalen } ∷ sent)
        waiting
advanced-Represents now datalen q n sent waiting h r =
    let ns = sent ++ waiting in
    record {
      head = r.head;
      tail = r.tail ∙ last-acked n (n.acked + datalen) ns;
      submit = r.submit;
      offset = r.offset;
      laid = (
        update_self q.cells n.addr _,
        Laid-update_below q.cells (suc n.addr) q.brk n.addr _ ns (omega arith) r.rising.1 r.laid.1,
      );
      rising = r.rising;
      partial = (omega arith, r.partial.1);
      fresh = r.fresh;
      counts = omega (arith, r.counts);
      bound = omega (arith, r.bound);
      owned = owned-advanced q.cells n ns _ r.owned;
    }

-- The loop comes to its end, with the chunks settled.
Acked : Option (Bool × Response) → List Node → List Node → Type 0
Acked result sent waiting =
    (released : Bool) × (q : Response) × (result ≡ some (released, q)) × Represents q sent waiting

ack_loop-done :
    (fuel now datalen : ℕ) (released : Bool) (q : Response)
    → 0 < fuel
    → datalen ≡ 0
    → ack_loop fuel now datalen released q ≡ some (released, q)
unfolding ack_loop
ack_loop-done zero now datalen released q h z = elim h [ ]
ack_loop-done (suc fuel) now datalen released q h z = rw (eq→== datalen 0 z, ack_loop)

ack_loop-round :
    (fuel now datalen : ℕ) (released : Bool) (q : Response) (a : ℕ) (c : Chunk)
    → datalen ≢ 0
    → q.head ≡ some a
    → q.cells a ≡ some c
    → ack_loop (suc fuel) now datalen released q
      ≡ ack_loop fuel now
          (datalen - min datalen (length c.bytes - c.acked))
          true
          (ack_chunk now datalen a c q)
unfolding ack_loop
ack_loop-round fuel now datalen released q a c nz h e = ground arith

settle-whole :
    (datalen : ℕ) (n : Node) (ns : List Node)
    → datalen ≢ 0
    → length n.bytes - n.acked ≤ datalen
    → settle datalen (n ∷ ns) ≡ settle (datalen - (length n.bytes - n.acked)) ns
unfolding settle
settle-whole datalen n ns nz h = ground arith

settle-part :
    (datalen : ℕ) (n : Node) (ns : List Node)
    → datalen ≢ 0
    → datalen < length n.bytes - n.acked
    → settle datalen (n ∷ ns) ≡ record n { acked = n.acked + datalen } ∷ ns
unfolding settle
settle-part datalen n ns nz h = ground arith

settle-none : (datalen : ℕ) (ns : List Node) → datalen ≡ 0 → settle datalen ns ≡ ns
unfolding settle
settle-none datalen [] z = refl
settle-none datalen (n ∷ ns) z = ground arith

ack_loop-Represents :
    (fuel now datalen : ℕ) (released : Bool) (q : Response) (sent waiting : List Node)
    → length sent < fuel
    → datalen ≤ unacked sent
    → Represents q sent waiting
    → Acked (ack_loop fuel now datalen released q) (settle datalen sent) waiting
unfolding Acked
ack_loop-Represents zero now datalen released q sent waiting h k r = absurd (omega arith)
ack_loop-Represents (suc fuel) now datalen released q [] waiting h k r = (
  released,
  q,
  ack_loop-done (suc fuel) now datalen released q (omega arith) (omega arith),
  rw (settle-none datalen [] (omega arith)) r,
)
ack_loop-Represents (suc fuel) now datalen released q (n ∷ sent) waiting h k r =
    let c = chunk_of n (first (sent ++ waiting)) in
    elim (ℕ_discrete datalen 0) [
      | yes z ↦ (
        released,
        q,
        ack_loop-done (suc fuel) now datalen released q (omega arith) z,
        rw (settle-none datalen (n ∷ sent) z) r,
      )
      | no nz ↦
          rw (ack_loop-round fuel now datalen released q n.addr c nz r.head r.laid.0)
            (elim (dec_lt datalen (length n.bytes - n.acked)) [
              | no whole ↦
                  let all : min datalen (length n.bytes - n.acked) ≡ length n.bytes - n.acked =
                    omega arith in
                  rw
                    (
                      ack_chunk-freed now datalen n.addr c q r.partial.0 (omega arith),
                      settle-whole datalen n sent nz (omega arith),
                      all,
                    )
                    (ack_loop-Represents fuel now _ true _ sent waiting (omega arith) (omega arith)
                      (freed-Represents now q n sent waiting r))
              | yes part ↦
                  rw
                    (
                      ack_chunk-advanced now datalen n.addr c q r.partial.0 part,
                      settle-part datalen n sent nz part,
                    )
                    (
                      true,
                      advanced now datalen n.addr c q,
                      ack_loop-done fuel now _ true _ (omega arith) (omega arith),
                      advanced-Represents now datalen q n sent waiting part r,
                    )
            ])
    ]

length-sent : (sent waiting : List Node) → length sent ≤ length (sent ++ waiting)
length-sent [] waiting = omega arith
length-sent (n ∷ sent) waiting = omega (arith, length-sent sent waiting)

finish_ack-Represents :
    (b : Bool) (q : Response) (sent waiting : List Node)
    → Represents q sent waiting
    → Represents (finish_ack (b, q)) sent waiting
unfolding finish_ack
finish_ack-Represents true q sent waiting r =
    flags-Represents q sent waiting q.complete q.cancelled _ r
finish_ack-Represents false q sent waiting r = r

-- An acknowledgement of no more than nghttp3 has taken touches no freed chunk, and settles that
-- many bytes from the front of what was taken; the chunks that wait stay.
pub ack-Represents :
    (now datalen : ℕ) (q : Response) (sent waiting : List Node)
    → Represents q sent waiting
    → datalen ≤ unacked sent
    → (q' : Response) × (ack now datalen q ≡ some q') × Represents q' (settle datalen sent) waiting
unfolding ack Acked
ack-Represents now datalen q sent waiting r h =
    let (b, q', e, r') =
      ack_loop-Represents (suc (suc q.brk)) now datalen false q sent waiting
        (omega (arith, Rising-length 0 q.brk (sent ++ waiting) r.rising, length-sent sent waiting))
        h r in
    (finish_ack (b, q'), rw (e, ack), finish_ack-Represents b q' _ waiting r')
