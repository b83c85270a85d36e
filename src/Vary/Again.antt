-- ===== src/Vary/Again.antt =====
-- The header that `fix_vary` sets is read back as the values that it was made of.
use mod_http.Common.{
  ◌≤◌, ◌≡◌, refl, ap, ◌∙◌, sym, subst, true, false, ◌||◌, Option, none, some, some_inj, List, [],
  ◌∷◌, ◌++◌, Bytes, length, arith, if_both, if_known, if◌then◌else◌, append-nil, append_assoc, inl,
  inr, ◌⊎◌,
}
use mod_http.Vary.{Text, is_separator, has_value, add_value, varies, pstrcat, fix_vary}
use mod_http.Vary.Tokens.{split, unless_empty, tokens, add_all}
use mod_http.Vary.Values.{all_tokens, Differs, IsDistinct, varies-tokens, varies_lem}

abbrev IsInside : Text → Bytes → Type 0
IsInside x [] = Unit {0}
IsInside x (b ∷ w) = (is_separator x b ≡ false) × IsInside x w

-- Bytes between separators.
abbrev IsWord : Text → Bytes → Type 0
IsWord x w = (1 ≤ length w) × IsInside x w

abbrev AllWords : Text → List Bytes → Type 0
AllWords x [] = Unit {0}
AllWords x (w ∷ ws) = IsWord x w × AllWords x ws

AllWords-append :
    (x : Text) (ws us : List Bytes) → AllWords x ws → AllWords x us → AllWords x (ws ++ us)
AllWords-append x [] us a b = b
AllWords-append x (w ∷ ws) us (h, a) b = (h, AllWords-append x ws us a b)

AllWords-unless_empty :
    (x : Text) (w : Bytes) (ws : List Bytes)
    → IsInside x w
    → AllWords x ws
    → AllWords x (unless_empty w ws)
AllWords-unless_empty x [] ws i a = a
AllWords-unless_empty x (b ∷ w) ws i a = ((omega arith, i), a)

abbrev IsSplit : Text → Bytes × List Bytes → Type 0
IsSplit x (w, ws) = IsInside x w × AllWords x ws

split-IsSplit : (x : Text) (e : Bytes) → IsSplit x (split x e)
split-IsSplit x [] = (tt, tt)
split-IsSplit x (b ∷ e) =
    let (w, ws) = split x e in
    let (i, a) = split-IsSplit x e in
    if_known {then_case = ([], unless_empty w ws)} {else_case = (b ∷ w, ws)} (IsSplit x)
      (is_separator x b) (λ apart. (tt, AllWords-unless_empty x w ws i a))
      (λ inside. ((inside, i), a))

all_tokens-AllWords : (x : Text) (vals : List Bytes) → AllWords x (all_tokens x vals)
all_tokens-AllWords x [] = tt
all_tokens-AllWords x (val ∷ vals) =
    let (i, a) = split-IsSplit x val in
    AllWords-append x (tokens x val) (all_tokens x vals)
      (AllWords-unless_empty x (split x val).0 (split x val).1 i a) (all_tokens-AllWords x vals)

add_all-AllWords :
    (x : Text) (values ts : List Bytes)
    → AllWords x values
    → AllWords x ts
    → AllWords x (add_all x values ts)
add_all-AllWords x values [] a b = a
add_all-AllWords x values (t ∷ ts) a (h, b) =
    add_all-AllWords x (add_value x values t) ts
      (if_both (AllWords x) (has_value x t values) a (AllWords-append x values (t ∷ []) a (h, tt)))
      b

varies-AllWords : (x : Text) (vals : List Bytes) → AllWords x (varies x vals [])
varies-AllWords x vals =
    subst (AllWords x) (sym (varies-tokens x vals []))
      (add_all-AllWords x [] (all_tokens x vals) tt (all_tokens-AllWords x vals))

-- A word stays whole.
split-word :
    (x : Text) (w e : Bytes) → IsInside x w → split x (w ++ e) ≡ (w ++ (split x e).0, (split x e).1)
split-word x [] e i = refl
split-word x (b ∷ w) e (h, i) =
    rw h (ap (λ (s : Bytes × List Bytes). (b ∷ s.0, s.1)) (split-word x w e i))

word-unless_empty : (w : Bytes) (ws : List Bytes) → 1 ≤ length w → unless_empty w ws ≡ w ∷ ws
word-unless_empty [] ws l = absurd (omega (arith, l))
word-unless_empty (b ∷ w) ws l = refl

tokens-word :
    (x : Text) (w e : Bytes)
    → IsWord x w
    → (split x e).0 ≡ []
    → tokens x (w ++ e) ≡ w ∷ (split x e).1
tokens-word x w e (l, i) apart =
    ap (λ (s : Bytes × List Bytes). unless_empty s.0 s.1) (split-word x w e i)
    ∙ ap (λ s. unless_empty (w ++ s) (split x e).1) apart
    ∙ ap (λ s. unless_empty s (split x e).1) (append-nil w)
    ∙ word-unless_empty w (split x e).1 l

tokens-pstrcat :
    (x : Text) (v : Bytes) (values : List Bytes)
    → AllWords x (v ∷ values)
    → tokens x (pstrcat (v ∷ values)) ≡ v ∷ values
unfolding pstrcat
tokens-pstrcat x v [] (h, a) = ap (tokens x) (sym (append-nil v)) ∙ tokens-word x v [] h refl
tokens-pstrcat x v (w ∷ values) (h, a) =
    tokens-word x v (b',' ∷ pstrcat (w ∷ values)) h refl
    ∙ ap (λ ws. v ∷ ws) (tokens-pstrcat x w values a)

-- Of distinct values the ones before do not equal one behind them.
not_before :
    (x : Text) (w : Bytes) (values ws : List Bytes)
    → IsDistinct x (values ++ w ∷ ws)
    → has_value x w values ≡ false
not_before x w [] ws d = refl
not_before x w (v ∷ values) ws (differs, d) =
    ap (λ b. b || has_value x w values) (apart values differs) ∙ not_before x w values ws d
  where
    apart : (us : List Bytes) → Differs x v (us ++ w ∷ ws) → x.cstr_casecmp v w ≡ false
    apart [] (here, _) = here
    apart (u ∷ us) (_, further) = apart us further

add_all-IsDistinct :
    (x : Text) (values ws : List Bytes)
    → IsDistinct x (values ++ ws)
    → add_all x values ws ≡ values ++ ws
add_all-IsDistinct x values [] d = sym (append-nil values)
add_all-IsDistinct x values (w ∷ ws) d =
    let whole = append_assoc values (w ∷ []) ws in
    ap (λ vs. add_all x vs ws)
      (ap (λ b. if b then values else values ++ w ∷ []) (not_before x w values ws d))
    ∙ add_all-IsDistinct x (values ++ w ∷ []) ws (subst (IsDistinct x) (sym whole) d)
    ∙ whole

-- The values of a header that was made of distinct words are those words, in order.
varies-pstrcat :
    (x : Text) (v : Bytes) (values : List Bytes)
    → AllWords x (v ∷ values)
    → IsDistinct x (v ∷ values)
    → varies x (pstrcat (v ∷ values) ∷ []) [] ≡ v ∷ values
varies-pstrcat x v values words distinct =
    varies-tokens x (pstrcat (v ∷ values) ∷ []) []
    ∙ ap (add_all x []) (append-nil (tokens x (pstrcat (v ∷ values))))
    ∙ ap (add_all x []) (tokens-pstrcat x v values words)
    ∙ add_all-IsDistinct x [] (v ∷ values) distinct

abbrev header_of : List Bytes → Option Bytes
header_of [] = none
header_of (v ∷ values) = some (pstrcat (v ∷ values))

fix_vary-header_of : (x : Text) (vals : List Bytes) → fix_vary x vals ≡ header_of (varies x vals [])
unfolding fix_vary
fix_vary-header_of x vals = refl

-- Where a string is equal to itself, the `Vary` header that is set, however the fields were written,
-- is read back as the values that were found in the fields, in order; and to fix it once more gives
-- the same header.
pub fix_vary_again :
    (x : Text) (vals : List Bytes) (header : Bytes)
    → ((t : Bytes) → x.cstr_casecmp t t ≡ true)
    → fix_vary x vals ≡ some header
    → (varies x (header ∷ []) [] ≡ varies x vals []) × (fix_vary x (header ∷ []) ≡ some header)
fix_vary_again x vals header same fixed =
    let words = varies-AllWords x vals in
    let distinct = (varies_lem x vals same).1 in
    let set = sym (fix_vary-header_of x vals) ∙ fixed in
    elim (values_cases (varies x vals [])) [
      | inl nothing ↦ absurd (none_some (sym (ap header_of nothing) ∙ set))
      | inr (v, values, e) ↦
          let made : pstrcat (v ∷ values) ≡ header = some_inj (sym (ap header_of e) ∙ set) in
          let back =
            ap (λ h. varies x (h ∷ []) []) (sym made)
            ∙ varies-pstrcat x v values (subst (AllWords x) e words)
                (subst (IsDistinct x) e distinct)
            ∙ sym e in
          (back, fix_vary-header_of x (header ∷ []) ∙ ap header_of back ∙ set)
    ]
  where
    values_cases :
        (vs : List Bytes) → (vs ≡ []) ⊎ ((v : Bytes) × (values : List Bytes) × (vs ≡ v ∷ values))
    values_cases [] = inl refl
    values_cases (v ∷ values) = inr (v, values, refl)

    none_some : {h : Bytes} → none ≡ some h → ⊥
    none_some e = cc
