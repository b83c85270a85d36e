-- ===== src/ResponseHead/Kept.antt =====
-- Which header fields of httpd go out.
use mod_http.Common.{
  ℕ, zero, suc, ◌-◌, ◌≡◌, refl, ap, ◌∙◌, sym, Bool, true, false, not, ◌||◌, ◌&&◌, if◌then◌else◌,
  Option, none, some, List, [], ◌∷◌, Bytes, ltb, arith, take, Bool-cases, Option-cases, subst, inl,
  inr, ltb→lt,
}
use mod_http.ResponseHead.{
  Entry, Nv, Httpd, connection, keep_alive, proxy_connection, transfer_encoding, upgrade, te,
  status_name, is_connection_specific, is_pseudo, is_named, nv_of, fill_nva, build_response_nva,
}

-- The fields that HTTP/3 forbids because they are about the connection.
abbrev pub forbidden_names : List Bytes
forbidden_names = connection ∷ keep_alive ∷ proxy_connection ∷ transfer_encoding ∷ upgrade ∷ te ∷ []

-- A name that is no pseudo-header, none of those names, and none that the `Connection` header lists.
abbrev pub may_go : Httpd → Option Bytes → List Bytes → Bytes → Bool
may_go h none [] k = not (is_pseudo k)
may_go h (some conn_hdr) [] k = not (is_pseudo k) && not (h.find_token conn_hdr k)
may_go h conn_hdr (name ∷ names) k = not (h.cstr_casecmp k name) && may_go h conn_hdr names k

-- The fields that go out where there is room for all: the name and the value of each entry that has
-- both and may go, in their order.
abbrev pub kept : Httpd → Option Bytes → List Entry → List Nv
kept h conn_hdr [] = []
kept h conn_hdr (e ∷ es) = elim e.key [
  | none ↦ kept h conn_hdr es
  | some k ↦ elim e.val [
    | none ↦ kept h conn_hdr es
    | some v ↦
        let rest = kept h conn_hdr es in
        if may_go h conn_hdr forbidden_names k then record { name = k; value = v } ∷ rest else rest
  ]
]

-- A field that HTTP/3 allows beside `:status`: no pseudo-header, none that is about the connection,
-- and none that the `Connection` header names.
pub record IsAllowed (h : Httpd) (conn_hdr : Option Bytes) (nv : Nv) : Type 0 where
  pub proper : is_pseudo nv.name ≡ false
  pub unspecific : is_connection_specific h nv.name ≡ false
  pub unnamed : is_named h conn_hdr nv.name ≡ false

abbrev pub All {ℓ} : {A : Type 0} → (A → Type ℓ) → List A → Type ℓ
All P [] = Unit
All P (x ∷ xs) = P x × All P xs

take-none {ℓ} : {A : Type ℓ} (n : ℕ) → take {A = A} n [] ≡ []
take-none zero = refl
take-none (suc n) = refl

-- The tests of the loop, as one on the names.
may_go-forbidden_names :
    (h : Httpd) (conn_hdr : Option Bytes) (k : Bytes)
    → may_go h conn_hdr forbidden_names k
      ≡ not (is_pseudo k || is_connection_specific h k || is_named h conn_hdr k)
unfolding is_connection_specific
may_go-forbidden_names h none k = ground arith
may_go-forbidden_names h (some conn_hdr) k = ground arith

kept-drops :
    (h : Httpd) (conn_hdr : Option Bytes) (key val : Option Bytes) (es : List Entry)
    → nv_of h conn_hdr (record { key = key; val = val }) ≡ none
    → kept h conn_hdr (record { key = key; val = val } ∷ es) ≡ kept h conn_hdr es
unfolding nv_of
kept-drops h conn_hdr none val es drops = refl
kept-drops h conn_hdr (some k) none es drops = refl
kept-drops h conn_hdr (some k) (some v) es drops =
    elim (Bool-cases (is_pseudo k || is_connection_specific h k || is_named h conn_hdr k)) [
      | inl bad ↦ rw (may_go-forbidden_names h conn_hdr k, bad) refl
      | inr good ↦ absurd (ground arith)
    ]

kept-keeps :
    (h : Httpd) (conn_hdr : Option Bytes) (key val : Option Bytes) (es : List Entry) (nv : Nv)
    → nv_of h conn_hdr (record { key = key; val = val }) ≡ some nv
    → kept h conn_hdr (record { key = key; val = val } ∷ es) ≡ nv ∷ kept h conn_hdr es
unfolding nv_of
kept-keeps h conn_hdr none val es nv keeps = absurd cc
kept-keeps h conn_hdr (some k) none es nv keeps = absurd cc
kept-keeps h conn_hdr (some k) (some v) es nv keeps =
    elim (Bool-cases (is_pseudo k || is_connection_specific h k || is_named h conn_hdr k)) [
      | inl bad ↦ absurd (ground arith)
      | inr good ↦
          let same : record { name = k; value = v } ≡ nv = ground arith in
          rw (may_go-forbidden_names h conn_hdr k, good) (ap (λ x. x ∷ kept h conn_hdr es) same)
    ]

take-full {ℓ} : {A : Type ℓ} (m n : ℕ) (xs : List A) → ltb n m ≡ false → [] ≡ take (m - n) xs
take-full m n xs full = let none_left : 0 ≡ m - n = ground arith in ap (λ k. take k xs) none_left

take-room {ℓ} :
    {A : Type ℓ} (m n : ℕ) (x : A) (xs : List A)
    → ltb n m ≡ true
    → take (m - n) (x ∷ xs) ≡ x ∷ take (m - suc n) xs
take-room m n x xs room =
    let less = ltb→lt n m room in
    let one_left : m - n ≡ suc (m - suc n) = omega (arith, less) in
    ap (λ k. take k (x ∷ xs)) one_left

fill_nva-take :
    (h : Httpd) (conn_hdr : Option Bytes) (nva_cap nvlen : ℕ) (es : List Entry)
    → fill_nva h conn_hdr nva_cap nvlen es ≡ take (nva_cap - nvlen) (kept h conn_hdr es)
unfolding fill_nva
fill_nva-take h conn_hdr nva_cap nvlen [] = sym (take-none (nva_cap - nvlen))
fill_nva-take h conn_hdr nva_cap nvlen (e ∷ es) = elim (Bool-cases (ltb nvlen nva_cap)) [
  | inr full ↦ rw (full, fill_nva) (take-full nva_cap nvlen (kept h conn_hdr (e ∷ es)) full)
  | inl room ↦ elim (Option-cases (nv_of h conn_hdr e)) [
    | inl drops ↦
        rw (room, drops, fill_nva, kept-drops h conn_hdr e.key e.val es drops)
          (fill_nva-take h conn_hdr nva_cap nvlen es)
    | inr (nv, keeps) ↦
        rw (room, keeps, fill_nva, kept-keeps h conn_hdr e.key e.val es nv keeps)
          (ap (λ nvs. nv ∷ nvs) (fill_nva-take h conn_hdr nva_cap (suc nvlen) es)
            ∙ sym (take-room nva_cap nvlen nv (kept h conn_hdr es) room))
  ]
]

or_false : (a b c : Bool) → (a || b || c) ≡ false → (a ≡ false) × (b ≡ false) × (c ≡ false)
or_false false false false e = (refl, refl, refl)
or_false true b c e = cc
or_false false true c e = cc
or_false false false true e = cc

nv_of-name :
    (h : Httpd) (conn_hdr : Option Bytes) (k v : Bytes) (nv : Nv)
    → nv_of h conn_hdr (record { key = some k; val = some v }) ≡ some nv
    → IsAllowed h conn_hdr nv
unfolding nv_of
nv_of-name h conn_hdr k v nv eq =
    elim (Bool-cases (is_pseudo k || is_connection_specific h k || is_named h conn_hdr k)) [
      | inl bad ↦ absurd (ground arith)
      | inr good ↦
          let (proper, unspecific, unnamed) =
            or_false (is_pseudo k) (is_connection_specific h k) (is_named h conn_hdr k) good in
          let same : record { name = k; value = v } ≡ nv = ground arith in
          subst (IsAllowed h conn_hdr) same
            (record { proper = proper; unspecific = unspecific; unnamed = unnamed })
    ]

nv_of-IsAllowed :
    (h : Httpd) (conn_hdr : Option Bytes) (key val : Option Bytes) (nv : Nv)
    → nv_of h conn_hdr (record { key = key; val = val }) ≡ some nv
    → IsAllowed h conn_hdr nv
nv_of-IsAllowed h conn_hdr none val nv eq = absurd (unfold nv_of in cc)
nv_of-IsAllowed h conn_hdr (some k) none nv eq = absurd (unfold nv_of in cc)
nv_of-IsAllowed h conn_hdr (some k) (some v) nv eq = nv_of-name h conn_hdr k v nv eq

kept-IsAllowed :
    (h : Httpd) (conn_hdr : Option Bytes) (es : List Entry)
    → All (IsAllowed h conn_hdr) (kept h conn_hdr es)
kept-IsAllowed h conn_hdr [] = tt
kept-IsAllowed h conn_hdr (e ∷ es) = elim (Option-cases (nv_of h conn_hdr e)) [
  | inl drops ↦ rw (kept-drops h conn_hdr e.key e.val es drops) (kept-IsAllowed h conn_hdr es)
  | inr (nv, keeps) ↦
      rw (kept-keeps h conn_hdr e.key e.val es nv keeps)
        (nv_of-IsAllowed h conn_hdr e.key e.val nv keeps, kept-IsAllowed h conn_hdr es)
]

take-All {ℓ} : {A : Type 0} (P : A → Type ℓ) (n : ℕ) (xs : List A) → All P xs → All P (take n xs)
take-All P zero xs a = tt
take-All P (suc n) [] a = tt
take-All P (suc n) (x ∷ xs) (p, a) = (p, take-All P n xs a)

-- The head of a response is `:status` and then, in their order and as many as there is room for, the
-- names and values of the header fields that have both, apart from pseudo-headers, from the six names
-- that are about the connection, and from what the `Connection` header lists; so none of those is a
-- pseudo-header, is about the connection, or is named by the `Connection` header.
pub build_response_nva_lem :
    (h : Httpd) (nva_cap status : ℕ) (es : List Entry)
    → let conn_hdr = h.table_get es connection in
      let sent = take (nva_cap - 1) (kept h conn_hdr es) in
      (build_response_nva h nva_cap status (some es)
        ≡ record { name = status_name; value = h.decimal status } ∷ sent)
      × All (IsAllowed h conn_hdr) sent
unfolding build_response_nva
build_response_nva_lem h nva_cap status es =
    let conn_hdr = h.table_get es connection in
    (
      ap (λ nvs. record { name = status_name; value = h.decimal status } ∷ nvs)
          (fill_nva-take h conn_hdr nva_cap 1 es),
      take-All (IsAllowed h conn_hdr) (nva_cap - 1) (kept h conn_hdr es)
          (kept-IsAllowed h conn_hdr es),
    )
