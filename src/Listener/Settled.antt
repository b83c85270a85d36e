-- ===== src/Listener/Settled.antt =====
-- What `progress_pending_handshakes` leaves pending.
use mod_http.Common.{
  ℕ, zero, suc, ◌+◌, ◌-◌, ◌≤◌, ◌<◌, ◌≡◌, refl, ap, ◌∙◌, sym, ◌⊎◌, inl, inr, Bool, true, false,
  Option, none, some, List, [], ◌∷◌, leb, ltb, arith, length, take, set, get_elem?, subst, some_inj,
  if◌then◌else◌, Bool-cases, Option-cases,
}
use native.Mathlib.Decide.{dec_lt}
use mod_http.Listener.{
  PendingHandshake, Io, Handshake, closed, under_way, finished, Spawn, spawned, swap_remove,
  remove_pending_handshake, spawn_serviced_session, progress_one, progress_from,
  progress_pending_handshakes,
}
use mod_http.Listener.Books.{get_elem?-bound, get_elem?-inside, length-swap_remove}
use mod_http.Listener.Rounds.{
  remove_pending_handshake-there, progress_from-past, progress_from-next,
}

module _ {ℓ} {A : Type ℓ} where
  get_elem?-take : (xs : List A) (n j : ℕ) → j < n → get_elem? (take n xs) j ≡ get_elem? xs j
  get_elem?-take xs zero j h = ground arith
  get_elem?-take [] (suc n) j h = refl
  get_elem?-take (x ∷ xs) (suc n) zero h = refl
  get_elem?-take (x ∷ xs) (suc n) (suc j) h = get_elem?-take xs n j (omega arith)

  get_elem?-set-before :
      (xs : List A) (i j : ℕ) (y : A) → j < i → get_elem? (set xs i y) j ≡ get_elem? xs j
  get_elem?-set-before [] i j y h = refl
  get_elem?-set-before (x ∷ xs) zero j y h = ground arith
  get_elem?-set-before (x ∷ xs) (suc i) zero y h = refl
  get_elem?-set-before (x ∷ xs) (suc i) (suc j) y h = get_elem?-set-before xs i j y (omega arith)

  get_elem?-swap_remove :
      (xs : List A) (i j : ℕ) (x : A)
      → get_elem? xs i ≡ some x
      → j < i
      → get_elem? (swap_remove i xs) j ≡ get_elem? xs j
  unfolding swap_remove
  get_elem?-swap_remove xs i j x e h =
      let bound = get_elem?-bound xs i x e in
      let n = length xs - 1 in
      let (z, last) = get_elem?-inside xs n (omega arith) in
      elim (Bool-cases (ltb i n)) [
        | inl inner ↦
            rw (last, inner, swap_remove)
              (get_elem?-take (set xs i z) n j (omega (arith, bound))
                ∙ get_elem?-set-before xs i j z h)
        | inr outer ↦ rw (last, outer, swap_remove) (get_elem?-take xs n j (omega (arith, bound)))
      ]

  get_elem?-none-length : (xs : List A) (i : ℕ) → get_elem? xs i ≡ none → length xs ≤ i
  get_elem?-none-length [] i e = omega arith
  get_elem?-none-length (x ∷ xs) zero e = cc
  get_elem?-none-length (x ∷ xs) (suc i) e = omega (arith, get_elem?-none-length xs i e)

-- The handshake is neither late nor over.
abbrev pub IsOpen : ℕ → ℕ → (ℕ → Handshake) → PendingHandshake → Type 0
IsOpen now timeout probe p = (now - p.accepted_at < timeout) × (probe p.conn ≡ under_way)

spawn-pending_handshakes :
    (s : Spawn) (conn : ℕ) (io : Io)
    → (spawn_serviced_session s conn io).pending_handshakes ≡ io.pending_handshakes
unfolding spawn_serviced_session
spawn-pending_handshakes spawned conn io = refl
spawn-pending_handshakes s conn io = refl

removed_pending :
    (index : ℕ) (free_conn : Bool) (io : Io) (p : PendingHandshake)
    → get_elem? io.pending_handshakes index ≡ some p
    → (remove_pending_handshake index free_conn io).pending_handshakes
      ≡ swap_remove index io.pending_handshakes
removed_pending index free_conn io p e =
    ap (λ j. j.pending_handshakes) (remove_pending_handshake-there index free_conn io p e)

-- The round passes an open handshake, or removes it.
abbrev Passes : ℕ → ℕ → (ℕ → Handshake) → ℕ → PendingHandshake → Io → Bool × Io → Type 0
Passes now timeout probe index p io r =
    ((r.0 ≡ false) × (r.1.pending_handshakes ≡ io.pending_handshakes) × IsOpen now timeout probe p)
    ⊎ ((r.0 ≡ true) × (r.1.pending_handshakes ≡ swap_remove index io.pending_handshakes))

progress_one-Passes :
    (now timeout : ℕ) (probe : ℕ → Handshake) (index : ℕ) (p : PendingHandshake) (io : Io)
    → get_elem? io.pending_handshakes index ≡ some p
    → Passes now timeout probe index p io (progress_one now timeout probe index p io)
unfolding progress_one
progress_one-Passes now timeout probe index p io e =
    elim (Bool-cases (leb timeout (now - p.accepted_at))) [
      | inl late ↦ rw late (inr (refl, removed_pending index true io p e))
      | inr early ↦ rw early (by_state (probe p.conn) refl (ground arith))
    ]
  where
    by_state :
        (h : Handshake)
        → probe p.conn ≡ h
        → now - p.accepted_at < timeout
        → Passes now timeout probe index p io (elim h as (λ x. Bool × Io) [
          | closed ↦ (true, remove_pending_handshake index true io)
          | finished s ↦
              (true, remove_pending_handshake index false (spawn_serviced_session s p.conn io))
          | under_way ↦ (false, io)
        ])
    by_state closed h early = inr (refl, removed_pending index true io p e)
    by_state (finished s) h early =
        let same = spawn-pending_handshakes s p.conn io in
        inr (
          refl,
          removed_pending index false (spawn_serviced_session s p.conn io) p
                (ap (λ ps. get_elem? ps index) same ∙ e)
              ∙ ap (swap_remove index) same,
        )
    by_state under_way h early = inl (refl, refl, (early, h))

-- The handshakes before `index` are open.
abbrev OpenBelow : ℕ → ℕ → (ℕ → Handshake) → ℕ → Io → Type 0
OpenBelow now timeout probe index io =
    (j : ℕ) (p : PendingHandshake)
    → j < index
    → get_elem? io.pending_handshakes j ≡ some p
    → IsOpen now timeout probe p

below_next :
    (now timeout : ℕ) (probe : ℕ → Handshake) (index : ℕ) (io io' : Io) (q : PendingHandshake)
    → get_elem? io.pending_handshakes index ≡ some q
    → io'.pending_handshakes ≡ io.pending_handshakes
    → IsOpen now timeout probe q
    → OpenBelow now timeout probe index io
    → OpenBelow now timeout probe (suc index) io'
below_next now timeout probe index io io' q there same ready below j p h e =
    let here = sym (ap (λ ps. get_elem? ps j) same) ∙ e in
    elim (dec_lt j index) [
      | yes less ↦ below j p less here
      | no at ↦
          let equal : j ≡ index = omega arith in
          let found = sym there ∙ ap (get_elem? io.pending_handshakes) (sym equal) ∙ here in
          subst (IsOpen now timeout probe) (some_inj found) ready
    ]

below_cut :
    (now timeout : ℕ) (probe : ℕ → Handshake) (index : ℕ) (io io' : Io) (q : PendingHandshake)
    → get_elem? io.pending_handshakes index ≡ some q
    → io'.pending_handshakes ≡ swap_remove index io.pending_handshakes
    → OpenBelow now timeout probe index io
    → OpenBelow now timeout probe index io'
below_cut now timeout probe index io io' q there cut below j p h e = below j p h (
    sym (get_elem?-swap_remove io.pending_handshakes index j q there h)
    ∙ sym (ap (λ ps. get_elem? ps j) cut)
    ∙ e)

progress_from-IsOpen :
    (fuel now timeout : ℕ) (probe : ℕ → Handshake) (index : ℕ) (io : Io) (j : ℕ)
    (p : PendingHandshake)
    → length io.pending_handshakes ≤ index + fuel
    → OpenBelow now timeout probe index io
    → get_elem? (progress_from fuel now timeout probe index io).pending_handshakes j ≡ some p
    → IsOpen now timeout probe p
unfolding progress_from
progress_from-IsOpen zero now timeout probe index io j p few below e =
    below j p (omega (arith, get_elem?-bound io.pending_handshakes j p e)) e
progress_from-IsOpen (suc fuel) now timeout probe index io j p few below e =
    elim (Option-cases (get_elem? io.pending_handshakes index)) [
      | inl past ↦
          let here =
            sym (
              ap (λ r. get_elem? r.pending_handshakes j)
                (progress_from-past fuel now timeout probe index io past))
            ∙ e in
          below j p
            (omega (
              arith,
              get_elem?-bound io.pending_handshakes j p here,
              get_elem?-none-length io.pending_handshakes index past,
            ))
            here
      | inr (q, there) ↦
          let next = progress_from-next fuel now timeout probe index io q there in
          let r = progress_one now timeout probe index q io in
          let here = sym (ap (λ s. get_elem? s.pending_handshakes j) next) ∙ e in
          let after : Bool → Option PendingHandshake = λ b.
            get_elem?
              (progress_from fuel now timeout probe (if b then index else suc index)
                r.1).pending_handshakes
              j in
          elim (progress_one-Passes now timeout probe index q io there) [
            | inl (passed, same, ready) ↦
                progress_from-IsOpen fuel now timeout probe (suc index) r.1 j p
                  (omega (arith, few, ap length same))
                  (below_next now timeout probe index io r.1 q there same ready below)
                  (sym (ap after passed) ∙ here)
            | inr (gone, cut) ↦
                progress_from-IsOpen fuel now timeout probe index r.1 j p
                  (omega (
                    arith,
                    few,
                    ap length cut,
                    length-swap_remove io.pending_handshakes index q there,
                  ))
                  (below_cut now timeout probe index io r.1 q there cut below)
                  (sym (ap after gone) ∙ here)
          ]
    ]

-- Every handshake that is left is open: none has timed out, none is closed and none is done.
pub progress_pending_handshakes-IsOpen :
    (now timeout : ℕ) (probe : ℕ → Handshake) (io : Io) (j : ℕ) (p : PendingHandshake)
    → get_elem? (progress_pending_handshakes now timeout probe io).pending_handshakes j ≡ some p
    → IsOpen now timeout probe p
unfolding progress_pending_handshakes
progress_pending_handshakes-IsOpen now timeout probe io j p e =
    progress_from-IsOpen (length io.pending_handshakes) now timeout probe 0 io j p (omega arith)
      (λ k q h. absurd (omega arith)) e
