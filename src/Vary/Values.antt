-- ===== src/Vary/Values.antt =====
-- The values of `Vary` are distinct, and cover the fields.
use mod_http.Common.{
  suc, ◌≡◌, refl, ap, sym, ◌∙◌, Bool, true, false, ◌||◌, List, [], ◌∷◌, ◌++◌, Bytes, length, arith,
  subst, if_known, Bool-cases, inl, inr,
}
use mod_http.Vary.{Text, has_value, add_value, uniq_field_values, varies}
use mod_http.Vary.Tokens.{tokens, add_all, uniq_from-tokens}

-- The tokens of all the fields.
abbrev pub all_tokens : Text → List Bytes → List Bytes
all_tokens x [] = []
all_tokens x (val ∷ vals) = tokens x val ++ all_tokens x vals

add_all-append :
    (x : Text) (values ts us : List Bytes)
    → add_all x values (ts ++ us) ≡ add_all x (add_all x values ts) us
add_all-append x values [] us = refl
add_all-append x values (t ∷ ts) us = add_all-append x (add_value x values t) ts us

pub varies-tokens :
    (x : Text) (vals values : List Bytes)
    → varies x vals values ≡ add_all x values (all_tokens x vals)
unfolding varies
varies-tokens x [] values = refl
varies-tokens x (val ∷ vals) values =
    varies-tokens x vals (uniq_field_values x values val)
    ∙ ap (λ vs. add_all x vs (all_tokens x vals))
        (uniq_from-tokens x (suc (length val)) val values (omega arith))
    ∙ sym (add_all-append x values (tokens x val) (all_tokens x vals))

abbrev pub Differs : Text → Bytes → List Bytes → Type 0
Differs x v [] = Unit {0}
Differs x v (w ∷ values) = (x.cstr_casecmp v w ≡ false) × Differs x v values

abbrev pub IsDistinct : Text → List Bytes → Type 0
IsDistinct x [] = Unit {0}
IsDistinct x (v ∷ values) = Differs x v values × IsDistinct x values

-- Each of the tokens is equal to a value, whatever its case.
abbrev pub Covers : Text → List Bytes → List Bytes → Type 0
Covers x values [] = Unit {0}
Covers x values (t ∷ ts) = (has_value x t values ≡ true) × Covers x values ts

or_both : (a b : Bool) → (a || b) ≡ false → (a ≡ false) × (b ≡ false)
or_both false false e = (refl, refl)
or_both true b e = cc
or_both false true e = cc

Differs-append :
    (x : Text) (v s : Bytes) (values : List Bytes)
    → Differs x v values
    → x.cstr_casecmp v s ≡ false
    → Differs x v (values ++ s ∷ [])
Differs-append x v s [] d n = (n, tt)
Differs-append x v s (w ∷ values) (h, d) n = (h, Differs-append x v s values d n)

append-IsDistinct :
    (x : Text) (s : Bytes) (values : List Bytes)
    → IsDistinct x values
    → has_value x s values ≡ false
    → IsDistinct x (values ++ s ∷ [])
append-IsDistinct x s [] d n = (tt, tt)
append-IsDistinct x s (v ∷ values) (h, d) n =
    let (here, further) = or_both (x.cstr_casecmp v s) (has_value x s values) n in
    (Differs-append x v s values h here, append-IsDistinct x s values d further)

add_all-IsDistinct :
    (x : Text) (values ts : List Bytes) → IsDistinct x values → IsDistinct x (add_all x values ts)
add_all-IsDistinct x values [] d = d
add_all-IsDistinct x values (t ∷ ts) d = add_all-IsDistinct x (add_value x values t) ts (
    if_known (IsDistinct x) (has_value x t values) (λ found. d)
      (λ new. append-IsDistinct x t values d new))

has_value-append :
    (x : Text) (t s : Bytes) (values : List Bytes)
    → has_value x t values ≡ true
    → has_value x t (values ++ s ∷ []) ≡ true
has_value-append x t s [] h = cc
has_value-append x t s (v ∷ values) h = elim (Bool-cases (x.cstr_casecmp v t)) [
  | inl here ↦ ap (λ b. b || has_value x t (values ++ s ∷ [])) here
  | inr further ↦
      ap (λ b. b || has_value x t (values ++ s ∷ [])) further
      ∙ has_value-append x t s values (sym (ap (λ b. b || has_value x t values) further) ∙ h)
]

has_value-last :
    (x : Text) (t : Bytes) (values : List Bytes)
    → x.cstr_casecmp t t ≡ true
    → has_value x t (values ++ t ∷ []) ≡ true
has_value-last x t [] same = ap (λ b. b || false) same
has_value-last x t (v ∷ values) same =
    ap (λ b. x.cstr_casecmp v t || b) (has_value-last x t values same)
    ∙ or_true (x.cstr_casecmp v t)
  where
    or_true : (b : Bool) → (b || true) ≡ true
    or_true true = refl
    or_true false = refl

add_all-has_value :
    (x : Text) (t : Bytes) (values ts : List Bytes)
    → has_value x t values ≡ true
    → has_value x t (add_all x values ts) ≡ true
add_all-has_value x t values [] h = h
add_all-has_value x t values (s ∷ ts) h = add_all-has_value x t (add_value x values s) ts (
    if_known (λ vs. has_value x t vs ≡ true) (has_value x s values) (λ found. h)
      (λ new. has_value-append x t s values h))

add_all-Covers :
    (x : Text) (values ts : List Bytes)
    → ((t : Bytes) → x.cstr_casecmp t t ≡ true)
    → Covers x (add_all x values ts) ts
add_all-Covers x values [] same = tt
add_all-Covers x values (t ∷ ts) same = (
  add_all-has_value x t (add_value x values t) ts (
      if_known (λ vs. has_value x t vs ≡ true) (has_value x t values) (λ found. found)
        (λ new. has_value-last x t values (same t))),
  add_all-Covers x (add_value x values t) ts same,
)

-- Where a string is equal to itself, the search of the fields ends on its fuel, with the tokens of
-- the fields added in order, each unless it is there; no two of the values are equal, whatever their
-- case, and each token is equal to one of them.
pub varies_lem :
    (x : Text) (vals : List Bytes)
    → ((t : Bytes) → x.cstr_casecmp t t ≡ true)
    → (varies x vals [] ≡ add_all x [] (all_tokens x vals))
      × IsDistinct x (varies x vals [])
      × Covers x (varies x vals []) (all_tokens x vals)
varies_lem x vals same =
    let result = varies-tokens x vals [] in
    (
      result,
      subst (IsDistinct x) (sym result) (add_all-IsDistinct x [] (all_tokens x vals) tt),
      subst (λ vs. Covers x vs (all_tokens x vals)) (sym result)
          (add_all-Covers x [] (all_tokens x vals) same),
    )
