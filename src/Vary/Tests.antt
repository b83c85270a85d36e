-- ===== src/Vary/Tests.antt =====
-- The values of two `Vary` fields.
use mod_http.Common.{◌≡◌, refl, Bool, true, false, ◌&&◌, some, List, [], ◌∷◌, Bytes, ◌==◌, arith}
use mod_http.Vary.{Text, varies, uniq_from, skip, next_word, fix_vary, pstrcat}
use mod_http.Vary.Tokens.{add_all}
use mod_http.Vary.Again.{fix_vary_again}
use mod_http.Vary.Values.{all_tokens, IsDistinct, Covers, varies_lem}

abbrev same_bytes : Bytes → Bytes → Bool
same_bytes [] [] = true
same_bytes [] (b ∷ bs) = false
same_bytes (a ∷ rest) [] = false
same_bytes (a ∷ rest) (b ∷ bs) = (a == b) && same_bytes rest bs

same_bytes_refl : (t : Bytes) → same_bytes t t ≡ true
same_bytes_refl [] = refl
same_bytes_refl (b ∷ bs) = ground (arith, same_bytes_refl bs)

abbrev plain : Text
plain = record { isspace = λ b. b == 0x20; cstr_casecmp = same_bytes }

-- The fields "a, b" and "b,a,,c".
abbrev vals : List Bytes
vals = (b'a' ∷ b',' ∷ 0x20 ∷ b'b' ∷ []) ∷ (b'b' ∷ b',' ∷ b'a' ∷ b',' ∷ b',' ∷ b'c' ∷ []) ∷ []

three_values : fix_vary plain vals ≡ some (b'a' ∷ b',' ∷ b'b' ∷ b',' ∷ b'c' ∷ [])
unfolding fix_vary varies uniq_from skip next_word pstrcat
three_values = refl

varies_lem_example :
    (varies plain vals [] ≡ add_all plain [] (all_tokens plain vals))
    × IsDistinct plain (varies plain vals [])
    × Covers plain (varies plain vals []) (all_tokens plain vals)
varies_lem_example = varies_lem plain vals same_bytes_refl

fix_vary_again_example :
    (varies plain ((b'a' ∷ b',' ∷ b'b' ∷ b',' ∷ b'c' ∷ []) ∷ []) [] ≡ varies plain vals [])
    × (fix_vary plain ((b'a' ∷ b',' ∷ b'b' ∷ b',' ∷ b'c' ∷ []) ∷ [])
        ≡ some (b'a' ∷ b',' ∷ b'b' ∷ b',' ∷ b'c' ∷ []))
fix_vary_again_example =
    fix_vary_again plain vals (b'a' ∷ b',' ∷ b'b' ∷ b',' ∷ b'c' ∷ []) same_bytes_refl three_values
