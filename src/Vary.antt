-- ===== src/Vary.antt =====
-- The values of the `Vary` header: `uniq_field_values` and `fix_vary` of mod_http3/src/h3_filter.c.
-- `apr_isspace` and whether `ap_cstr_casecmp` gives 0 are parameters.
pub mod Tokens
pub mod Values
pub mod Again
mod Tests
use mod_http.Common.{
  ℕ, zero, suc, Bool, true, false, ◌||◌, Option, none, some, List, [], ◌∷◌, ◌++◌, Bytes, ◌==◌,
  if◌then◌else◌, length,
}

pub record Text : Type 0 where
  pub isspace : ℕ → Bool
  pub cstr_casecmp : Bytes → Bytes → Bool

abbrev pub is_separator : Text → ℕ → Bool
is_separator x b = b == b',' || x.isspace b

-- The first inner loop: what is left behind the separators.
pub skip : Text → Bytes → Bytes
skip x [] = []
skip x (b ∷ e) = let rest = skip x e in if is_separator x b then rest else b ∷ e

-- The second inner loop: the bytes from `start` to the separator, and what follows that.
pub next_word : Text → Bytes → Bytes × Bytes
next_word x [] = ([], [])
next_word x (b ∷ e) =
    let (start, rest) = next_word x e in if is_separator x b then ([], e) else (b ∷ start, rest)

-- The search in the array.
abbrev pub has_value : Text → Bytes → List Bytes → Bool
has_value x start [] = false
has_value x start (v ∷ values) = x.cstr_casecmp v start || has_value x start values

-- `apr_array_push`, unless the search found one.
abbrev pub add_value : Text → List Bytes → Bytes → List Bytes
add_value x values start = if has_value x start values then values else values ++ start ∷ []

-- The outer loop of `uniq_field_values`, on fuel.
pub uniq_from : Text → ℕ → Bytes → List Bytes → List Bytes
unfolding skip next_word
uniq_from x zero e values = values
uniq_from x (suc n) e values =
    let start = skip x e in
    let (found, rest) = next_word x start in
    let added = add_value x values found in
    let further = uniq_from x n rest added in
    elim start [ [] ↦ values | b ∷ bs ↦ elim rest [ [] ↦ added | c ∷ cs ↦ further ] ]

-- `uniq_field_values`
abbrev pub uniq_field_values : Text → List Bytes → Bytes → List Bytes
uniq_field_values x values val = uniq_from x (suc (length val)) val values

-- The array that `fix_vary` makes of the values of the `Vary` fields.
pub varies : Text → List Bytes → List Bytes → List Bytes
unfolding uniq_from
varies x [] values = values
varies x (val ∷ vals) values = varies x vals (uniq_field_values x values val)

-- `apr_array_pstrcat` with a comma.
unfoldable pub pstrcat : List Bytes → Bytes
pstrcat [] = []
pstrcat (v ∷ []) = v
pstrcat (v ∷ w ∷ values) = v ++ b',' ∷ pstrcat (w ∷ values)

-- `fix_vary`: the value that the `Vary` header is set to, `none` where the headers stay.
unfoldable pub fix_vary : Text → List Bytes → Option Bytes
unfolding varies pstrcat
fix_vary x vals = elim (varies x vals []) [ [] ↦ none | v ∷ values ↦ some (pstrcat (v ∷ values)) ]
