-- ===== src/Buffer.antt =====
-- The doubling of a body buffer, as `on_recv_data` of mod_http3/src/h3_callbacks.c and
-- `capture_body_bucket` of mod_http3/src/h3_filter.c do it.
use mod_http.Common.{
  ℕ, zero, suc, ◌*◌, ◌%◌, ◌^◌, ◌≤◌, ◌<◌, ◌≡◌, true, false, ltb, arith, Bool-cases, inl, inr, ltb→lt,
  ap,
}
use native.Mathlib.Nat.{pow-suc}

-- `H3_BODY_BUF_INIT_CAP`
abbrev pub body_buf_init_cap : ℕ
body_buf_init_cap = 8 * 1024

-- `while (new_cap < needed) new_cap *= 2`, on fuel. `size_t` wraps.
unfoldable pub double_until : ℕ → ℕ → ℕ → ℕ
double_until zero new_cap needed = new_cap
double_until (suc fuel) new_cap needed = elim (ltb new_cap needed) [
  | true ↦ double_until fuel (new_cap * 2 % 2 ^ 64) needed
  | false ↦ new_cap
]

-- 64 rounds take every capacity past every size.
abbrev pub rounds : ℕ
rounds = 64

-- Enough rounds reach what is needed.
double_until-reaches :
    (fuel new_cap needed : ℕ)
    → needed ≤ 2 ^ 62
    → needed ≤ new_cap * 2 ^ fuel
    → needed ≤ double_until fuel new_cap needed
unfolding double_until
double_until-reaches zero new_cap needed small h = omega arith
double_until-reaches (suc fuel) new_cap needed small h = elim (Bool-cases (ltb new_cap needed)) [
  | inl more ↦
      let lt = ltb→lt new_cap needed more in
      let whole : new_cap * 2 % 2 ^ 64 ≡ new_cap * 2 = omega arith in
      let wide : needed ≤ new_cap * 2 * 2 ^ fuel =
        omega (arith, ap (λ (x : ℕ). new_cap * x) (pow-suc 2 fuel)) in
      rw (more, double_until) (rw whole (double_until-reaches fuel (new_cap * 2) needed small wide))
  | inr enough ↦ rw (enough, double_until) (ground arith)
]

-- From a positive capacity the doubling reaches every size up to 2 ^ 62 on its fuel.
pub double_until-enough :
    (new_cap needed : ℕ)
    → needed ≤ 2 ^ 62
    → 0 < new_cap
    → needed ≤ double_until rounds new_cap needed
double_until-enough new_cap needed small h =
    double_until-reaches rounds new_cap needed small (omega arith)
