-- ===== src/Response/Steps/Reads.antt =====
-- `h3_session_read_data`: nghttp3 takes the chunks that wait, in order, and each of them once.
use mod_http.Common.{
  ℕ, zero, suc, ◌≡◌, refl, ◌≢◌, ap, ◌∙◌, Bool, true, false, Option, none, some, List, [], ◌∷◌, ◌++◌,
  append_assoc, append-nil, arith, length, take, drop, map, ne→==,
}
use mod_http.Response.{
  Chunk, Response, Vec, fill, prepend, conclude, Pulled, pulled, would_block, read_data,
}
use mod_http.Response.Layout.{Node, first, Laid, chunk_of}
use mod_http.Response.Invariant.{Represents}

-- The vector for a whole chunk.
abbrev pub vec_of : Node → Vec
vec_of n = record { chunk = n.addr; offset = 0; len = length n.bytes }

pub Laid-right :
    (cells : ℕ → Option Chunk) (ns ms : List Node) → Laid cells (ns ++ ms) → Laid cells ms
Laid-right cells [] ms l = l
Laid-right cells (n ∷ ns) ms l = Laid-right cells ns ms l.1

-- The queue after the first chunk that waits is taken.
abbrev taken : Option ℕ → Response → Response
taken next q = record q { submit_chunk = next; submit_offset = 0 }

taken-Represents :
    (q : Response) (sent : List Node) (n : Node) (waiting : List Node)
    → Represents q sent (n ∷ waiting)
    → Represents (taken (first waiting) q) (sent ++ n ∷ []) waiting
taken-Represents q sent n waiting r = record {
  head = rw append_assoc r.head;
  tail = rw append_assoc r.tail;
  submit = refl;
  offset = refl;
  laid = rw append_assoc r.laid;
  rising = rw append_assoc r.rising;
  partial = rw append_assoc r.partial;
  fresh = r.fresh.1;
  counts = rw append_assoc r.counts;
  bound = r.bound;
  owned = rw append_assoc r.owned;
}

fill-waiting :
    (room : ℕ) (q : Response) (a : ℕ) (c : Chunk)
    → q.submit_chunk ≡ some a
    → q.cells a ≡ some c
    → q.submit_offset ≡ 0
    → fill (suc room) q
      ≡ prepend
          (record { chunk = a; offset = 0; len = length c.bytes })
          (fill room (taken c.next q))
unfolding fill
fill-waiting room q a c s e o = ground arith

fill-none : (room : ℕ) (q : Response) → q.submit_chunk ≡ none → fill room q ≡ some ([], q)
unfolding fill
fill-none zero q s = refl
fill-none (suc room) q s = ground arith

-- The loop fills a vector for each chunk that it takes.
pub fill-Represents :
    (room : ℕ) (q : Response) (sent waiting : List Node)
    → Represents q sent waiting
    → (q' : Response) × (fill room q ≡ some (map vec_of (take room waiting), q'))
      × Represents q' (sent ++ take room waiting) (drop room waiting)
      × (q'.complete ≡ q.complete)
fill-Represents zero q sent waiting r = (q, unfold fill in refl, rw append-nil r, refl)
fill-Represents (suc room) q sent [] r = (q, fill-none (suc room) q r.submit, rw append-nil r, refl)
fill-Represents (suc room) q sent (n ∷ waiting) r =
    let c = chunk_of n (first waiting) in
    let (q', e, r', d) =
      fill-Represents room (taken (first waiting) q) (sent ++ n ∷ []) waiting
        (taken-Represents q sent n waiting r) in
    (
      q',
      fill-waiting room q n.addr c r.submit (Laid-right q.cells sent (n ∷ waiting) r.laid).0
            r.offset
          ∙ ap (prepend (vec_of n)) e,
      rw append_assoc at r',
      d,
    )

conclude-flags :
    (vs : List Vec) (q q' : Response)
    → q'.complete ≡ q.complete
    → q'.submit_chunk ≡ q.submit_chunk
    → conclude vs q' ≡ conclude vs q
unfolding conclude
conclude-flags [] q q' c s = rw c
conclude-flags (v ∷ vs) q q' c s = rw (c, s)

-- What the callback answers when it takes the chunks `now_taken` and leaves `left`: the vectors,
-- with EOF exactly if nothing is left and the response is complete.
abbrev pub answer : List Node → List Node → Bool → Pulled
answer [] left true = pulled [] true
answer [] left false = would_block
answer (n ∷ ns) [] done = pulled (map vec_of (n ∷ ns)) done
answer (n ∷ ns) (m ∷ ms) done = pulled (map vec_of (n ∷ ns)) false

conclude-answer :
    (ns left : List Node) (q : Response) (done : Bool)
    → q.submit_chunk ≡ first left
    → q.complete ≡ done
    → conclude (map vec_of ns) q ≡ answer ns left done
unfolding conclude
conclude-answer [] left q true s d = rw d
conclude-answer [] left q false s d = rw d
conclude-answer (n ∷ ns) [] q done s d = rw (s, d)
conclude-answer (n ∷ ns) (m ∷ ms) q done s d = rw s

-- With room for `veccnt` vectors, the callback of a response that is not cancelled takes the first
-- `veccnt` chunks that wait, whole, and touches no freed chunk.
pub read_data-Represents :
    (veccnt : ℕ) (q : Response) (sent waiting : List Node)
    → Represents q sent waiting
    → veccnt ≢ 0
    → q.cancelled ≡ false
    → (q' : Response) × (read_data veccnt q
        ≡ some (answer (take veccnt waiting) (drop veccnt waiting) q.complete, q'))
      × Represents q' (sent ++ take veccnt waiting) (drop veccnt waiting)
unfolding read_data
read_data-Represents veccnt q sent waiting r nz live =
    let (q', e, r', d) = fill-Represents veccnt q sent waiting r in
    let done =
      conclude-answer (take veccnt waiting) (drop veccnt waiting) q' q.complete r'.submit d in
    (
      q',
      rw (ne→== veccnt 0 nz, read_data)
          (rw (live, read_data) (rw (e, read_data) (ap (λ p. some (p, q')) done))),
      r',
    )
