-- ===== src/Calculation.antt =====
-- Interest and repayment schedules of services/risk-engine/internal/calculation (interest.go and
-- schedule.go). Amounts are texts of integers; the arithmetic is that of `big.Int`, which rounds a
-- quotient towards zero. Every error of the package is the one `ErrInvalidCalculation`, so that a
-- result is an `Option`. `uint64` and `uint32` sums wrap around, which is written out.
pub mod Rates
pub mod Power
pub mod Schedule
mod Tests
use unified.Base.{
  ℕ, zero, suc, ◌+◌, ◌-◌, ◌*◌, ◌/◌, ◌%◌, ◌^◌, ◌≤◌, ◌<◌, min, String, ◌≡◌, refl, sym, ap, ◌∙◌, ◌≢◌,
  ◌↔◌, ◌⊎◌, inl, inr, Bool, true, false, not, ◌&&◌, ◌||◌, Option, none, some, List, [], ◌∷◌, ◌++◌,
  map, arith, eq_iff, eq_refl, ltb, leb, ◌==◌, ◌=ₛ◌, ◌≠ₛ◌, is_empty, if◌then◌else◌, ltb→lt, lt→ltb,
  Bool-cases, Option-cases, eq_of_text_eq, ne_of_text_eq, text_eq_of_ne, length, All, length-append,
  All-append, Dict, lookup, insert, contains, lookup-insert, lookup-insert_self, lookup-empty,
  lookup-insert_cases, lookup-insert_free, contains-insert, insert-All, Result, ok, err, ◌>>=◌,
  ◌>>◌, or_err, Result-cases, >>=-eq-ok, reject_if, ℤ, pos, negsuc, pos_part, neg_part, sub_ℕ, ◌+ℤ◌,
  ◌-ℤ◌, ◌*ℤ◌, quo, ◌≤ℤ◌, ltb_ℤ, leb_ℤ, eqb_ℤ, int_laws, *ℤ-pos, quo-pos, -ℤ-pos, +ℤ-pos,
  eq_of_parts, Time, is_zero, before, after, time_sub, max_duration,
}
use unified.Decimal.{set_string, to_string}

abbrev pub u32 : ℕ → ℕ
u32 n = n % 4294967296

abbrev pub u64 : ℕ → ℕ
u64 n = n % 18446744073709551616

abbrev pub year_seconds : ℕ
year_seconds = 31536000

abbrev pub ray : ℕ
ray = 1000000000000000000000000000

abbrev pub max_annual_rate_ray : ℕ
max_annual_rate_ray = 10000000000000000000000000000

-- A parsed value that is not negative and whose decimal text is the input.
abbrev pub canonical : String → Option ℤ → Option ℤ
canonical s none = none
canonical s (some z) = if leb_ℤ (pos 0) z && (to_string z =ₛ s) then some z else none

unfoldable pub non_negative_integer : String → Option ℤ
non_negative_integer s = canonical s (set_string s)

abbrev pub if_positive : Option ℤ → Option ℤ
if_positive none = none
if_positive (some z) = if ltb_ℤ (pos 0) z then some z else none

unfoldable pub positive_integer : String → Option ℤ
positive_integer s = if_positive (non_negative_integer s)

infixl 5 ◌>>=?◌
abbrev pub ◌>>=?◌ {ℓ κ} : {A : Type ℓ} {B : Type κ} → Option A → (A → Option B) → Option B
none >>=? f = none
some a >>=? f = f a

pub >>=?-some {ℓ κ} :
    {A : Type ℓ} {B : Type κ} (m : Option A) (f : A → Option B) {b : B}
    → (m >>=? f) ≡ some b
    → (a : A) × (m ≡ some a) × (f a ≡ some b)
>>=?-some none f h = absurd (cc)
>>=?-some (some a) f h = (a, refl, h)

unfoldable pub mul_div : ℤ → ℤ → ℤ → ℤ
mul_div left right denominator = quo (left *ℤ right) denominator

pub record InterestTerms : Type 0 where
  pub annual_rate_ray : String
  pub spread_ray : String
  pub floor_rate_ray : String
  pub cap_rate_ray : String
  pub maximum_benchmark_age : ℕ  -- uint64

unfoldable pub accrue : ℤ → ℤ → ℕ → ℤ
accrue principal annual_rate_ray elapsed =
    mul_div (mul_div principal annual_rate_ray (pos ray)) (pos elapsed) (pos year_seconds)

-- `AccrueFixed`; `to - from` does not wrap, since `to < from` is refused.
unfoldable pub accrue_fixed : String → ℕ → ℕ → InterestTerms → Option String
accrue_fixed principal from to terms = positive_integer principal >>=? λ principal_units.
    if ltb to from
    then none
    else non_negative_integer terms.annual_rate_ray >>=? λ rate.
        non_negative_integer terms.floor_rate_ray >>=? λ floor.
        positive_integer terms.cap_rate_ray >>=? λ cap_rate.
        if ltb_ℤ (pos max_annual_rate_ray) rate
          || terms.spread_ray ≠ₛ "0"
          || not (terms.maximum_benchmark_age == 0)
          || ltb_ℤ rate floor
          || ltb_ℤ cap_rate rate
        then none
        else some (to_string (accrue principal_units rate (to - from)))

-- `rate.Set` at the floor, then at the cap.
unfoldable pub clamp_rate : ℤ → ℤ → ℤ → ℤ
clamp_rate rate floor cap_rate =
    let raised = if ltb_ℤ rate floor then floor else rate in
    if ltb_ℤ cap_rate raised then cap_rate else raised

-- The last test of `BoundedRate`, and the rate.
unfoldable pub check_rate : ℤ → ℤ → ℤ → ℤ → Option ℤ
unfolding clamp_rate
check_rate benchmark spread floor cap_rate =
    if ltb_ℤ cap_rate floor || ltb_ℤ (pos max_annual_rate_ray) cap_rate
    then none
    else some (clamp_rate (benchmark +ℤ spread) floor cap_rate)

unfoldable pub bounded_rate : String → InterestTerms → Option ℤ
bounded_rate benchmark_rate_ray terms = non_negative_integer benchmark_rate_ray >>=? λ benchmark.
    non_negative_integer terms.spread_ray >>=? λ spread.
    non_negative_integer terms.floor_rate_ray >>=? λ floor.
    positive_integer terms.cap_rate_ray >>=? check_rate benchmark spread floor

-- `AccrueVariable`: the interest and the rate that was applied.
unfoldable pub accrue_variable :
    String → ℕ → ℕ → String → ℕ → InterestTerms → Option (String × String)
accrue_variable principal from to benchmark_rate_ray benchmark_observed_at terms =
    positive_integer principal >>=? λ principal_units.
    if ltb to from
      || terms.annual_rate_ray ≠ₛ "0"
      || (terms.maximum_benchmark_age == 0)
      || ltb to benchmark_observed_at
      || ltb terms.maximum_benchmark_age (to - benchmark_observed_at)
    then none
    else bounded_rate benchmark_rate_ray terms >>=? λ rate.
        some (to_string (accrue principal_units rate (to - from)), to_string rate)
