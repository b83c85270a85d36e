-- ===== src/Response/Steps/Cleanup.antt =====
-- `h3_stream_response_cleanup_locked` frees every chunk, once.
use mod_http.Common.{
  ℕ, zero, suc, ◌≤◌, ◌≡◌, refl, ◌∙◌, true, false, Option, none, some, List, [], ◌∷◌, ◌++◌, arith,
  length, Bool-cases, inl, inr,
}
use mod_http.Response.{Chunk, Response, update, free_from, cleanup}
use mod_http.Response.Layout.{
  Node, first, Laid, Rising, owns, Laid-update_below, Rising-length, owns_below,
}
use mod_http.Response.Invariant.{Represents}

-- The loop ends, and frees the nodes and nothing else.
FreesAll : (ℕ → Option Chunk) → List Node → Option (ℕ → Option Chunk) → Type 0
FreesAll cells ns result =
    (after : ℕ → Option Chunk) × (result ≡ some after)
    × ((a : ℕ) → owns ns a ≡ true → after a ≡ none)
    × ((a : ℕ) → owns ns a ≡ false → after a ≡ cells a)

free_from-round :
    (fuel : ℕ) (cells : ℕ → Option Chunk) (a : ℕ) (c : Chunk)
    → cells a ≡ some c
    → free_from (suc fuel) (some a) cells ≡ free_from fuel c.next (update cells a none)
unfolding free_from
free_from-round fuel cells a c e = rw (e, free_from)

free_from-nil : (fuel : ℕ) (cells : ℕ → Option Chunk) → free_from fuel none cells ≡ some cells
unfolding free_from
free_from-nil zero cells = refl
free_from-nil (suc fuel) cells = refl

-- Freeing the head first, then the rest.
update-owned :
    (cells after : ℕ → Option Chunk) (n : Node) (ns : List Node) (lo brk a : ℕ)
    → owns ns n.addr ≡ false
    → (owns ns a ≡ true → after a ≡ none)
    → (owns ns a ≡ false → after a ≡ update cells n.addr none a)
    → ((owns (n ∷ ns) a ≡ true → after a ≡ none) × (owns (n ∷ ns) a ≡ false → after a ≡ cells a))
unfolding update
update-owned cells after n ns lo brk a o gone kept = (λ h. ground arith, λ h. ground arith)

free_from-FreesAll :
    (fuel lo brk : ℕ) (cells : ℕ → Option Chunk) (ns : List Node)
    → length ns ≤ fuel
    → Rising lo ns brk
    → Laid cells ns
    → FreesAll cells ns (free_from fuel (first ns) cells)
unfolding FreesAll
free_from-FreesAll fuel lo brk cells [] h r l =
    (cells, free_from-nil fuel cells, λ a e. cc, λ a e. refl)
free_from-FreesAll zero lo brk cells (n ∷ ns) h r l = absurd (omega arith)
free_from-FreesAll (suc fuel) lo brk cells (n ∷ ns) h r l =
    let (after, e, gone, kept) =
      free_from-FreesAll fuel (suc n.addr) brk (update cells n.addr none) ns (omega arith) r.1
        (Laid-update_below cells (suc n.addr) brk n.addr none ns (omega arith) r.1 l.1) in
    let split = λ (a : ℕ).
      update-owned cells after n ns lo brk a
        (owns_below (suc n.addr) brk ns n.addr r.1 (omega arith)) (gone a) (kept a) in
    (after, free_from-round fuel cells n.addr _ l.0 ∙ e, λ a. (split a).0, λ a. (split a).1)

-- From any state that represents a queue the cleanup comes to its end, touches no freed chunk, and
-- leaves no chunk allocated.
pub cleanup_frees_all :
    (q : Response) (sent waiting : List Node)
    → Represents q sent waiting
    → (q' : Response) × (cleanup q ≡ some q')
      × ((a : ℕ) → q'.cells a ≡ none)
      × (q'.buffered ≡ 0)
      × Represents q' [] []
unfolding cleanup FreesAll
cleanup_frees_all q sent waiting r =
    let ns = sent ++ waiting in
    let (after, e, gone, kept) =
      free_from-FreesAll (suc q.brk) 0 q.brk q.cells ns
        (omega (arith, Rising-length 0 q.brk ns r.rising)) r.rising r.laid in
    let empty : (a : ℕ) → after a ≡ none =
      λ a. elim (Bool-cases (owns ns a)) [ inl y ↦ gone a y | inr n ↦ kept a n ∙ r.owned a n ] in
    let q' : Response = record q {
      cells = after;
      head = none;
      tail = none;
      submit_chunk = none;
      submit_offset = 0;
      buffered = 0;
    } in
    (
      q',
      rw (r.head, cleanup) (rw (e, cleanup)),
      empty,
      refl,
      record {
        head = refl;
        tail = refl;
        submit = refl;
        offset = refl;
        laid = tt;
        rising = omega arith;
        partial = tt;
        fresh = tt;
        counts = refl;
        bound = omega arith;
        owned = λ a h. empty a;
      },
    )
