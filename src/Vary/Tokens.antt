-- ===== src/Vary/Tokens.antt =====
-- The values are the tokens of the fields, each once.
use mod_http.Common.{
  ℕ, zero, suc, ◌≤◌, ◌<◌, ◌≡◌, refl, ap, sym, ◌∙◌, Bool, true, false, List, [], ◌∷◌, Bytes,
  if◌then◌else◌, length, arith, Bool-cases, inl, inr, ◌⊎◌, if_both, if_known,
}
use mod_http.Vary.{Text, is_separator, skip, next_word, add_value, uniq_from}

abbrev pub unless_empty : Bytes → List Bytes → List Bytes
unless_empty [] ws = ws
unless_empty (b ∷ w) ws = (b ∷ w) ∷ ws

-- The bytes up to the first separator, and the tokens behind it.
abbrev pub split : Text → Bytes → Bytes × List Bytes
split x [] = ([], [])
split x (b ∷ e) =
    let (w, ws) = split x e in if is_separator x b then ([], unless_empty w ws) else (b ∷ w, ws)

-- The tokens between separators, without the empty ones.
abbrev pub tokens : Text → Bytes → List Bytes
tokens x e = let (w, ws) = split x e in unless_empty w ws

if-true {ℓ} : {A : Type ℓ} {test : Bool} (a b : A) → test ≡ true → (if test then a else b) ≡ a
if-true a b e = rw e refl

if-false {ℓ} : {A : Type ℓ} {test : Bool} (a b : A) → test ≡ false → (if test then a else b) ≡ b
if-false a b e = rw e refl

abbrev joined_split : Bytes × List Bytes → List Bytes
joined_split (w, ws) = unless_empty w ws

tokens-apart :
    (x : Text) (b : ℕ) (e : Bytes) → is_separator x b ≡ true → tokens x (b ∷ e) ≡ tokens x e
tokens-apart x b e apart = ap joined_split (if-true ([], tokens x e) _ apart)

tokens-skip : (x : Text) (e : Bytes) → tokens x (skip x e) ≡ tokens x e
unfolding skip
tokens-skip x [] = refl
tokens-skip x (b ∷ e) =
    if_known (λ s. tokens x s ≡ tokens x (b ∷ e)) (is_separator x b)
      (λ apart. tokens-skip x e ∙ sym (tokens-apart x b e apart)) (λ inside. refl)

-- What `next_word` splits off, with the tokens of the rest.
abbrev with_rest : Text → Bytes × Bytes → Bytes × List Bytes
with_rest x (w, rest) = (w, tokens x rest)

split-next_word : (x : Text) (e : Bytes) → split x e ≡ with_rest x (next_word x e)
unfolding next_word
split-next_word x [] = refl
split-next_word x (b ∷ e) = elim (Bool-cases (is_separator x b)) [
  | inl apart ↦ if-true _ _ apart ∙ sym (ap (with_rest x) (if-true _ _ apart))
  | inr inside ↦
      if-false _ _ inside
      ∙ ap (λ (s : Bytes × List Bytes). (b ∷ s.0, s.1)) (split-next_word x e)
      ∙ sym (ap (with_rest x) (if-false _ _ inside))
]

length-skip : (x : Text) (e : Bytes) → length (skip x e) ≤ length e
unfolding skip
length-skip x [] = omega arith
length-skip x (b ∷ e) =
    let shorter : length (skip x e) ≤ suc (length e) = omega (arith, length-skip x e) in
    let whole : length (b ∷ e) ≤ suc (length e) = omega arith in
    if_both (λ (s : Bytes). length s ≤ suc (length e)) (is_separator x b) shorter whole

length-next_word : (x : Text) (b : ℕ) (e : Bytes) → length (next_word x (b ∷ e)).1 ≤ length e
unfolding next_word
length-next_word x b [] =
    let nothing : length {A = ℕ} [] ≤ 0 = omega arith in
    if_both {then_case = ([], [])} {else_case = (b ∷ (next_word x []).0, (next_word x []).1)}
      (λ (s : Bytes × Bytes). length s.1 ≤ 0) (is_separator x b) nothing nothing
length-next_word x b (c ∷ e) =
    let w = next_word x (c ∷ e) in
    let whole : length (c ∷ e) ≤ suc (length e) = omega arith in
    let shorter : length w.1 ≤ suc (length e) = omega (arith, length-next_word x c e) in
    if_both {then_case = ([], c ∷ e)} {else_case = (b ∷ w.0, w.1)}
      (λ (s : Bytes × Bytes). length s.1 ≤ suc (length e)) (is_separator x b) whole shorter

-- A byte that is not skipped starts a word.
skip-inside :
    (x : Text) (e : Bytes) (b : ℕ) (bs : Bytes) → skip x e ≡ b ∷ bs → is_separator x b ≡ false
unfolding skip
skip-inside x [] b bs e = cc
skip-inside x (c ∷ e) b bs s = elim (Bool-cases (is_separator x c)) [
  | inl apart ↦ skip-inside x e b bs (sym (if-true (skip x e) (c ∷ e) apart) ∙ s)
  | inr inside ↦
      let same = sym (if-false (skip x e) (c ∷ e) inside) ∙ s in
      ap (is_separator x) (sym (ap (λ bytes. first c bytes) same)) ∙ inside
]
  where
    first : ℕ → Bytes → ℕ
    first c [] = c
    first c (d ∷ ds) = d

tokens-next_word :
    (x : Text) (b : ℕ) (bs : Bytes)
    → is_separator x b ≡ false
    → tokens x (b ∷ bs) ≡ (next_word x (b ∷ bs)).0 ∷ tokens x (next_word x (b ∷ bs)).1
unfolding next_word
tokens-next_word x b bs inside =
    ap joined_split (split-next_word x (b ∷ bs))
    ∙ ap (λ s. joined_split (with_rest x s)) (if-false _ _ inside)
    ∙ sym (ap (λ (s : Bytes × Bytes). s.0 ∷ tokens x s.1) (if-false _ _ inside))

-- The tokens added in order, each unless it is there.
abbrev pub add_all : Text → List Bytes → List Bytes → List Bytes
add_all x values [] = values
add_all x values (t ∷ ts) = add_all x (add_value x values t) ts

pub List-cases : (e : Bytes) → (e ≡ []) ⊎ ((b : ℕ) × (bs : Bytes) × (e ≡ b ∷ bs))
List-cases [] = inl refl
List-cases (b ∷ bs) = inr (b, bs, refl)

-- The loop ends on its fuel with the tokens added.
pub uniq_from-tokens :
    (x : Text) (n : ℕ) (e : Bytes) (values : List Bytes)
    → length e < n
    → uniq_from x n e values ≡ add_all x values (tokens x e)
unfolding uniq_from
uniq_from-tokens x zero e values small = absurd (omega (arith, small))
uniq_from-tokens x (suc n) e values small = elim (List-cases (skip x e)) [
  | inl over ↦ ap body over ∙ ap (add_all x values) (ap (tokens x) (sym over) ∙ tokens-skip x e)
  | inr (b, bs, s) ↦
      let inside = skip-inside x e b bs s in
      let w = next_word x (b ∷ bs) in
      let added = add_value x values w.0 in
      let same = sym (tokens-skip x e) ∙ ap (tokens x) s ∙ tokens-next_word x b bs inside in
      ap body s
      ∙ rest_added added w.1 (uniq_from-tokens x n w.1 added (smaller b bs s))
      ∙ ap (add_all x values) (sym same)
]
  where
    rest_of : List Bytes → Bytes → List Bytes
    rest_of added rest =
        let further = uniq_from x n rest added in elim rest [ [] ↦ added | c ∷ cs ↦ further ]

    body : Bytes → List Bytes
    body start =
        let (found, rest) = next_word x start in
        let added = add_value x values found in
        let further = uniq_from x n rest added in
        elim start [ [] ↦ values | b ∷ bs ↦ elim rest [ [] ↦ added | c ∷ cs ↦ further ] ]

    smaller : (b : ℕ) (bs : Bytes) → skip x e ≡ b ∷ bs → length (next_word x (b ∷ bs)).1 < n
    smaller b bs s =
        let cut = ap length s in omega (arith, small, cut, length-skip x e, length-next_word x b bs)

    rest_added :
        (added : List Bytes) (rest : Bytes)
        → uniq_from x n rest added ≡ add_all x added (tokens x rest)
        → rest_of added rest ≡ add_all x added (tokens x rest)
    rest_added added [] further = refl
    rest_added added (c ∷ cs) further = further
