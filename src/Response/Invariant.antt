-- ===== src/Response/Invariant.antt =====
-- What the fields and the chunks of a response queue represent: the chunks that nghttp3 has taken
-- and not yet acknowledged in full, and behind them those that it has not taken.
use mod_http.Common.{
  ℕ, ◌+◌, ◌≤◌, ◌<◌, ◌≡◌, refl, ◌≢◌, ap, ◌∙◌, subst, sym, Bool, true, false, Option, none, some,
  List, [], ◌∷◌, ◌++◌, append_assoc, Bytes, ◌&&◌, not, is_some, or_else?, if◌then◌else◌, arith,
  length, Bool-cases, inl, inr,
}
use mod_http.Response.{
  Call, Chunk, Response, update, link, push_chunk, cancel, complete, SessionFlags,
}
use mod_http.Response.Layout.{
  Node, first, last, Laid, Rising, owns, unacked, fresh_node, chunk_of, Laid-push, Rising-snoc,
  unacked-append, last-append, update_ne,
}

-- Each node has bytes left to acknowledge.
abbrev pub AllPartial : List Node → Type 0
AllPartial [] = Unit {0}
AllPartial (n ∷ ns) = (n.acked < length n.bytes) × AllPartial ns

-- No byte of a node is acknowledged.
abbrev pub AllFresh : List Node → Type 0
AllFresh [] = Unit {0}
AllFresh (n ∷ ns) = (n.acked ≡ 0) × AllFresh ns

pub record Represents (q : Response) (sent waiting : List Node) : Type 0 where
  pub head : q.head ≡ first (sent ++ waiting)
  pub tail : q.tail ≡ last (sent ++ waiting)
  pub submit : q.submit_chunk ≡ first waiting
  pub offset : q.submit_offset ≡ 0
  pub laid : Laid q.cells (sent ++ waiting)
  pub rising : Rising 0 (sent ++ waiting) q.brk
  pub partial : AllPartial (sent ++ waiting)
  pub fresh : AllFresh waiting
  pub counts : q.buffered ≡ unacked (sent ++ waiting)
  pub bound : q.buffered ≤ q.buffer_limit
  pub owned : (a : ℕ) → owns (sent ++ waiting) a ≡ false → q.cells a ≡ none

AllPartial-snoc :
    (ns : List Node) (a : ℕ) (bytes : Bytes)
    → 0 < length bytes
    → AllPartial ns
    → AllPartial (ns ++ fresh_node a bytes ∷ [])
AllPartial-snoc [] a bytes h p = (h, tt)
AllPartial-snoc (n ∷ ns) a bytes h p = (p.0, AllPartial-snoc ns a bytes h p.1)

AllFresh-snoc :
    (ns : List Node) (a : ℕ) (bytes : Bytes)
    → AllFresh ns
    → AllFresh (ns ++ fresh_node a bytes ∷ [])
AllFresh-snoc [] a bytes f = (refl, tt)
AllFresh-snoc (n ∷ ns) a bytes f = (f.0, AllFresh-snoc ns a bytes f.1)

owns-snoc :
    (ns : List Node) (m : Node) (a : ℕ)
    → owns (ns ++ m ∷ []) a ≡ false
    → (owns ns a ≡ false) × (a ≢ m.addr)
owns-snoc [] m a h = (refl, ground arith)
owns-snoc (n ∷ ns) m a h = ground (arith, owns-snoc ns m a)

is_some-last : (n : Node) (ns : List Node) → is_some (last (n ∷ ns)) ≡ true
is_some-last n [] = refl
is_some-last n (k ∷ ns) = is_some-last k ns

-- `head` is set where the queue was empty.
head-push :
    (ns : List Node) (m : Node)
    → (if is_some (last ns) then first ns else some m.addr) ≡ first (ns ++ m ∷ [])
head-push [] m = refl
head-push (n ∷ ns) m = rw (is_some-last n ns)

submit-push : (ws : List Node) (m : Node) → or_else? (first ws) (some m.addr) ≡ first (ws ++ m ∷ [])
submit-push [] m = refl
submit-push (n ∷ ws) m = refl

offset-push : (b : Bool) (x : ℕ) → x ≡ 0 → (if b then x else 0) ≡ 0
offset-push true x h = h
offset-push false x h = refl

-- Linking behind the last node writes to that node only.
link_not_owned :
    (cells : ℕ → Option Chunk) (ns : List Node) (b x : ℕ)
    → owns ns x ≡ false
    → link (last ns) b cells x ≡ cells x
unfolding link
link_not_owned cells [] b x h = refl
link_not_owned cells (n ∷ []) b x h = ground (arith, update_ne cells n.addr _ x)
link_not_owned cells (n ∷ m ∷ ns) b x h = link_not_owned cells (m ∷ ns) b x (ground arith)

-- What `push_chunk` makes of the parts, over the nodes `ns` of the queue.
module _ (q : Response) (bytes : Bytes) (ns : List Node) where
  abbrev pushed_cells : Option ℕ → ℕ → Option Chunk
  pushed_cells t =
      link t q.brk (update q.cells q.brk (some (chunk_of (fresh_node q.brk bytes) none)))

  pushed-Laid :
      q.tail ≡ last ns
      → Rising 0 ns q.brk
      → Laid q.cells ns
      → Laid (pushed_cells q.tail) (ns ++ fresh_node q.brk bytes ∷ [])
  pushed-Laid e r l =
      subst (λ t. Laid (pushed_cells t) (ns ++ fresh_node q.brk bytes ∷ [])) (sym e)
        (Laid-push q.cells q.brk bytes ns r l)

  pushed-owned :
      q.tail ≡ last ns
      → ((a : ℕ) → owns ns a ≡ false → q.cells a ≡ none)
      → (a : ℕ) → owns (ns ++ fresh_node q.brk bytes ∷ []) a ≡ false
      → pushed_cells q.tail a ≡ none
  pushed-owned e o a h =
      let (apart, other) = owns-snoc ns (fresh_node q.brk bytes) a h in
      ap (λ t. pushed_cells t a) e
      ∙ link_not_owned _ ns q.brk a apart
      ∙ update_ne q.cells q.brk _ a other
      ∙ o a apart

-- A chunk that is not empty and has room goes behind the chunks that wait.
pub push_chunk-Represents :
    (q : Response) (bytes : Bytes) (sent waiting : List Node)
    → 0 < length bytes
    → q.buffered + length bytes ≤ q.buffer_limit
    → Represents q sent waiting
    → Represents (push_chunk bytes q) sent (waiting ++ fresh_node q.brk bytes ∷ [])
unfolding push_chunk
push_chunk-Represents q bytes sent waiting h room r =
    let ns = sent ++ waiting in
    let m = fresh_node q.brk bytes in
    record {
      head =
          rw (← append_assoc)
            ((λ i. if is_some (r.tail i) then r.head i else some q.brk) ∙ head-push ns m);
      tail = rw (← append_assoc) (sym (last-append ns m));
      submit = ap (λ t. or_else? t (some q.brk)) r.submit ∙ submit-push waiting m;
      offset = offset-push _ q.submit_offset r.offset;
      laid = rw (← append_assoc) (pushed-Laid q bytes ns r.tail r.rising r.laid);
      rising = rw (← append_assoc) (Rising-snoc 0 q.brk ns bytes r.rising);
      partial = rw (← append_assoc) (AllPartial-snoc ns q.brk bytes h r.partial);
      fresh = AllFresh-snoc waiting q.brk bytes r.fresh;
      counts = rw (← append_assoc) (omega (arith, r.counts, unacked-append ns (m ∷ [])));
      bound = room;
      owned = rw (← append_assoc) (pushed-owned q bytes ns r.tail r.owned);
    }

-- The flags and the calls made are no part of what a queue represents.
pub flags-Represents :
    (q : Response) (sent waiting : List Node) (done dead : Bool) (made : List Call)
    → Represents q sent waiting
    → Represents (record q { complete = done; cancelled = dead; calls = made }) sent waiting
flags-Represents q sent waiting done dead made r = record {
  head = r.head;
  tail = r.tail;
  submit = r.submit;
  offset = r.offset;
  laid = r.laid;
  rising = r.rising;
  partial = r.partial;
  fresh = r.fresh;
  counts = r.counts;
  bound = r.bound;
  owned = r.owned;
}

pub cancel-Represents :
    (q : Response) (sent waiting : List Node)
    → Represents q sent waiting
    → Represents (cancel q) sent waiting
unfolding cancel
cancel-Represents q sent waiting r = flags-Represents q sent waiting true true _ r

pub complete-Represents :
    (f : SessionFlags) (q : Response) (sent waiting : List Node)
    → Represents q sent waiting
    → Represents (complete f q) sent waiting
unfolding complete
complete-Represents f q sent waiting r =
    elim (Bool-cases (q.submitted && f.ngh3 && not f.ngh3_dead)) [
      | inl y ↦ rw y (flags-Represents q sent waiting true q.cancelled _ r)
      | inr n ↦ rw n (flags-Represents q sent waiting true q.cancelled _ r)
    ]
