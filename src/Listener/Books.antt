-- ===== src/Listener/Books.antt =====
-- The listener's books: every connection that came in is freed, pending or active, exactly once,
-- and the counters say how many there are.
use mod_http.Common.{
  ℕ, zero, suc, ◌+◌, ◌-◌, ◌≤◌, ◌<◌, ◌≡◌, refl, ap, ◌∙◌, sym, inl, inr, Bool, true, false, some,
  List, [], ◌∷◌, leb, ltb, arith, length, take, get_elem?, set, length-append, Bool-cases, some_inj,
}
pub use mod_http.Common.Count.{total, total-append, total-set, length-set, one}
use mod_http.Listener.{
  PendingHandshake, Io, at_connection_limit, conn_free, prepare_accepted_connection, accept,
  swap_remove,
}

module _ {ℓ} {A : Type ℓ} where
  get_elem?-set-other :
      (xs : List A) (i j : ℕ) (y : A) → i < j → get_elem? (set xs i y) j ≡ get_elem? xs j
  get_elem?-set-other [] i j y h = refl
  get_elem?-set-other (x ∷ xs) i zero y h = ground arith
  get_elem?-set-other (x ∷ xs) zero (suc j) y h = refl
  get_elem?-set-other (x ∷ xs) (suc i) (suc j) y h = get_elem?-set-other xs i j y (omega arith)

  total-take-last :
      (f : A → ℕ) (xs : List A) (n : ℕ) (x : A)
      → length xs ≡ suc n
      → get_elem? xs n ≡ some x
      → total f (take n xs) + f x ≡ total f xs
  total-take-last f [] n x l e = cc
  total-take-last f (z ∷ []) zero x l e = let same = ap f (some_inj e) in omega (arith, same)
  total-take-last f (z ∷ y ∷ ys) zero x l e = ground arith
  total-take-last f (z ∷ zs) (suc n) x l e =
      omega (arith, total-take-last f zs n x (omega (arith, l)) e)

  pub get_elem?-bound : (xs : List A) (i : ℕ) (x : A) → get_elem? xs i ≡ some x → i < length xs
  get_elem?-bound [] i x e = cc
  get_elem?-bound (z ∷ zs) zero x e = omega arith
  get_elem?-bound (z ∷ zs) (suc i) x e = omega (arith, get_elem?-bound zs i x e)

  pub get_elem?-inside : (xs : List A) (i : ℕ) → i < length xs → (x : A) × (get_elem? xs i ≡ some x)
  get_elem?-inside [] i h = ground arith
  get_elem?-inside (z ∷ zs) zero h = (z, refl)
  get_elem?-inside (z ∷ zs) (suc i) h = get_elem?-inside zs i (omega arith)

  -- `swap_remove` takes out the element at the index and no other.
  pub total-swap_remove :
      (f : A → ℕ) (xs : List A) (i : ℕ) (x : A)
      → get_elem? xs i ≡ some x
      → total f (swap_remove i xs) + f x ≡ total f xs
  unfolding swap_remove
  total-swap_remove f xs i x e =
      let bound = get_elem?-bound xs i x e in
      let n = length xs - 1 in
      let (z, last) = get_elem?-inside xs n (omega arith) in
      elim (Bool-cases (ltb i n)) [
        | inl inner ↦
            let less : i < n = ground arith in
            let cut =
              total-take-last f (set xs i z) n z (omega (arith, length-set xs i z))
                (get_elem?-set-other xs i n z less ∙ last) in
            rw (last, inner, swap_remove) (omega (arith, cut, total-set f xs i x z e))
        | inr outer ↦
            let at_end : i ≡ n = ground arith in
            let same = ap f (some_inj (sym e ∙ ap (get_elem? xs) at_end ∙ last)) in
            rw (last, outer, swap_remove)
              (omega (arith, total-take-last f xs n z (omega arith) last, same))
      ]

  length-total : (xs : List A) → length xs ≡ total (λ x. 1) xs
  length-total [] = refl
  length-total (x ∷ xs) = omega (arith, length-total xs)

  pub length-swap_remove :
      (xs : List A) (i : ℕ) (x : A)
      → get_elem? xs i ≡ some x
      → suc (length (swap_remove i xs)) ≡ length xs
  length-swap_remove xs i x e =
      omega (
        arith,
        total-swap_remove (λ y. 1) xs i x e,
        length-total xs,
        length-total (swap_remove i xs),
      )

-- `came` are the connections that the event thread was given. Each is freed, pending or active, as
-- often as it came, and the counters and the limit agree with the arrays.
pub record IsBalanced (max_connections : ℕ) (came : List ℕ) (io : Io) : Type 0 where
  pub conns :
      (c : ℕ)
      → total (one c) came
        ≡ total (one c) io.freed
          + total (λ p. one c p.conn) io.pending_handshakes
          + total (λ s. one c s.qconn) io.active_sessions
  pub notes : io.added ≡ io.removed + length io.pending_handshakes + length io.active_sessions
  pub count : io.active_session_count ≡ length io.active_sessions
  pub within : length io.active_sessions + length io.pending_handshakes ≤ max_connections

conn_free-IsBalanced :
    (max conn : ℕ) (came : List ℕ) (io : Io)
    → IsBalanced max came io
    → IsBalanced max (conn ∷ came) (conn_free conn io)
conn_free-IsBalanced max conn came io b = record {
  conns = λ c. omega (arith, b.conns c);
  notes = b.notes;
  count = b.count;
  within = b.within;
}

-- An accepted connection is freed or pending, and the limit holds.
pub accept-IsBalanced :
    (max : ℕ) (prepared : Bool) (now conn : ℕ) (came : List ℕ) (io : Io)
    → IsBalanced max came io
    → IsBalanced max (conn ∷ came) (accept max prepared now conn io)
unfolding accept at_connection_limit
accept-IsBalanced max prepared now conn came io b =
    elim (Bool-cases (leb max (length io.active_sessions + length io.pending_handshakes))) [
      | inl full ↦ rw full (conn_free-IsBalanced max conn came io b)
      | inr room ↦ rw room (prepared_case prepared (ground arith))
    ]
  where
    prepared_case :
        (prepared : Bool)
        → length io.active_sessions + length io.pending_handshakes < max
        → IsBalanced max (conn ∷ came) (elim prepared [
          | true ↦ (prepare_accepted_connection true now conn io).1
          | false ↦ conn_free conn (prepare_accepted_connection false now conn io).1
        ])
    prepared_case false room = conn_free-IsBalanced max conn came io b
    prepared_case true room =
        let p : PendingHandshake = record { conn = conn; accepted_at = now } in
        let longer = length-append io.pending_handshakes (p ∷ []) in
        record {
          conns = λ c.
              omega
                (arith, b.conns c, total-append (λ q. one c q.conn) io.pending_handshakes (p ∷ []));
          notes = omega (arith, b.notes, longer);
          count = b.count;
          within = omega (arith, longer);
        }
