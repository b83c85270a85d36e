-- ===== src/QuicStream/Write.antt =====
-- What a write to a QUIC stream takes is a prefix of what it is given, and its flags say whether it
-- is all.
use mod_http.Common.{
  ℕ, suc, ◌+◌, ◌≤◌, ◌≡◌, refl, ap, ◌∙◌, sym, Bool, true, false, not, ◌&&◌, List, [], ◌∷◌, ◌++◌,
  append_assoc, Bytes, ltb, ltb→lt, ◌==◌, arith, length, take, length-append, length-take, drop,
  take-append-drop, take-all, Bool-cases, ◌⊎◌, inl, inr,
}
use mod_http.QuicStream.{
  SslWrite, wrote, want_write, broken_pipe, WriteResult, Written, no_result, total_length,
  write_from, stream_write,
}

-- The bytes of the vectors.
abbrev pub joined_vec : List Bytes → Bytes
joined_vec [] = []
joined_vec (v ∷ vec) = v ++ joined_vec vec

-- `SSL_write_ex` takes no more than it is given.
abbrev pub Takes : (ℕ → SslWrite) → ℕ → List Bytes → Type 0
Takes answer k [] = Unit {0}
Takes answer k (v ∷ vec) = ((w : ℕ) → answer k ≡ wrote w → w ≤ length v) × Takes answer (suc k) vec

-- What the loop makes of a result without a flag, and of the vectors that are left.
abbrev IsPrefix : List Bytes → WriteResult → WriteResult × Bytes → Type 0
IsPrefix vec res (final, sent) =
    (final.accepted ≡ res.accepted + length sent)
    × ((rest : Bytes) × (joined_vec vec ≡ sent ++ rest))
    × (((final.blocked ≡ false) × (final.broken ≡ false) × (sent ≡ joined_vec vec))
        ⊎ (((final.blocked ≡ true) × (final.broken ≡ false))
            ⊎ ((final.blocked ≡ false) × (final.broken ≡ true))))

SslWrite-cases : (a : SslWrite) → ((w : ℕ) × (a ≡ wrote w)) ⊎ ((a ≡ want_write) ⊎ (a ≡ broken_pipe))
SslWrite-cases (wrote w) = inl (w, refl)
SslWrite-cases want_write = inr (inl refl)
SslWrite-cases broken_pipe = inr (inr refl)

abbrev counted : ℕ → WriteResult → WriteResult
counted w res = record res { accepted = res.accepted + w }

module _ (answer : ℕ → SslWrite) (k : ℕ) (v : Bytes) (vec : List Bytes) (res : WriteResult) where
  write_from-want :
      answer k ≡ want_write
      → write_from answer k (v ∷ vec) res ≡ (record res { blocked = true }, [])
  unfolding write_from
  write_from-want e = ground arith

  write_from-broken :
      answer k ≡ broken_pipe
      → write_from answer k (v ∷ vec) res ≡ (record res { broken = true }, [])
  unfolding write_from
  write_from-broken e = ground arith

  write_from-part :
      (w : ℕ)
      → answer k ≡ wrote w
      → ltb w (length v) ≡ true
      → write_from answer k (v ∷ vec) res ≡ (record (counted w res) { blocked = true }, take w v)
  unfolding write_from
  write_from-part w e less = ground arith

  write_from-whole :
      (w : ℕ)
      → answer k ≡ wrote w
      → ltb w (length v) ≡ false
      → write_from answer k (v ∷ vec) res ≡ (
        (write_from answer (suc k) vec (counted w res)).0,
        take w v ++ (write_from answer (suc k) vec (counted w res)).1,
      )
  unfolding write_from
  write_from-whole w e all = ground arith

ltb-false : (a b : ℕ) → ltb a b ≡ false → b ≤ a
ltb-false a b h = ground arith

write_from-IsPrefix :
    (answer : ℕ → SslWrite) (k : ℕ) (vec : List Bytes) (res : WriteResult)
    → Takes answer k vec
    → res.blocked ≡ false
    → res.broken ≡ false
    → IsPrefix vec res (write_from answer k vec res)
write_from-IsPrefix answer k [] res t nb nk =
    unfold write_from in (omega arith, ([], refl), inl (nb, nk, refl))
write_from-IsPrefix answer k (v ∷ vec) res t nb nk = elim (SslWrite-cases (answer k)) [
  | inr (inl e) ↦
      rw (write_from-want answer k v vec res e)
        (omega arith, (joined_vec (v ∷ vec), refl), inr (inl (refl, nk)))
  | inr (inr e) ↦
      rw (write_from-broken answer k v vec res e)
        (omega arith, (joined_vec (v ∷ vec), refl), inr (inr (nb, refl)))
  | inl (w, e) ↦ elim (Bool-cases (ltb w (length v))) [
    | inl less ↦ rw (write_from-part answer k v vec res w e less) (
      omega (arith, length-take w v, ltb→lt w (length v) less),
      (
        drop w v ++ joined_vec vec,
        ap (λ b. b ++ joined_vec vec) (sym (take-append-drop w v))
            ∙ append_assoc (take w v) (drop w v) (joined_vec vec),
      ),
      inr (inl (refl, nk)),
    )
    | inr all ↦
        let (c, (rest, p), flags) =
          write_from-IsPrefix answer (suc k) vec (counted w res) t.1 nb nk in
        let same = take-all w v (ground arith) in
        rw (write_from-whole answer k v vec res w e all, same)
          (
            omega (
              arith,
              c,
              length-append v (write_from answer (suc k) vec (counted w res)).1,
              t.0 w e,
              ltb-false w (length v) all,
            ),
            (rest, ap (λ b. v ++ b) p ∙ sym (append_assoc v _ rest)),
            elim flags [
              | inl (fb, fk, s) ↦ inl (fb, fk, ap (λ b. v ++ b) s)
              | inr other ↦ inr other
            ],
          )
  ]
]

pub total_length-length : (vec : List Bytes) → total_length vec ≡ length (joined_vec vec)
total_length-length [] = refl
total_length-length (v ∷ vec) =
    omega (arith, total_length-length vec, length-append v (joined_vec vec))

-- What a write of `vec` comes to: the bytes sent are counted and a prefix of the vectors; and it is
-- whole, blocked or broken. A whole write concludes the stream where `fin` asks for it, and no other
-- does.
abbrev pub Writes : List Bytes → Bool → Written → Type 0
Writes vec fin r =
    (r.result.accepted ≡ length r.sent)
    × ((rest : Bytes) × (joined_vec vec ≡ r.sent ++ rest))
    × (((r.result.blocked ≡ false)
          × (r.result.broken ≡ false)
          × (r.sent ≡ joined_vec vec)
          × (r.concluded ≡ fin))
        ⊎ (((r.result.blocked ≡ true) × (r.result.broken ≡ false) × (r.concluded ≡ false))
            ⊎ ((r.result.blocked ≡ false) × (r.result.broken ≡ true) × (r.concluded ≡ false))))

conclude_whole :
    (fin : Bool) (accepted expected : ℕ) (blocked broken : Bool)
    → blocked ≡ false
    → broken ≡ false
    → accepted ≡ expected
    → (fin && not blocked && not broken && accepted == expected) ≡ fin
conclude_whole fin accepted expected blocked broken b k e = ground arith

conclude_not :
    (fin : Bool) (accepted expected : ℕ) (blocked broken : Bool)
    → (blocked ≡ true) ⊎ (broken ≡ true)
    → (fin && not blocked && not broken && accepted == expected) ≡ false
conclude_not fin accepted expected blocked broken h = ground arith

-- Where `SSL_write_ex` takes no more than it is given, the bytes sent are as many as the result says
-- and a prefix of what was to be written. Either all was sent, neither flag is set, and the stream is
-- concluded exactly where that was asked for; or exactly one flag is set, and it is not concluded.
pub stream_write-Writes :
    (answer : ℕ → SslWrite) (vec : List Bytes) (fin : Bool)
    → Takes answer 0 vec
    → Writes vec fin (stream_write answer vec fin)
unfolding stream_write
stream_write-Writes answer vec fin t =
    let (c, p, flags) = write_from-IsPrefix answer 0 vec no_result t refl refl in
    let out = write_from answer 0 vec no_result in
    (
      omega (arith, c),
      p,
      elim flags [
        | inl (b, k, s) ↦ inl (
          b,
          k,
          s,
          conclude_whole fin out.0.accepted (total_length vec) out.0.blocked out.0.broken b k
              (omega (arith, c, total_length-length vec, ap length s)),
        )
        | inr (inl (b, k)) ↦ inr (
            inl (
              b,
              k,
              conclude_not fin out.0.accepted (total_length vec) out.0.blocked out.0.broken (inl b),
            ))
        | inr (inr (b, k)) ↦ inr (
            inr (
              b,
              k,
              conclude_not fin out.0.accepted (total_length vec) out.0.blocked out.0.broken (inr k),
            ))
      ],
    )
