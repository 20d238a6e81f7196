-- ===== src/Calculation/Tests.antt =====
-- Runs of the calculations, and the theorems at those inputs: a principal of 1,000 at ten percent a
-- year, and a loan of 1,000 repaid in four equal parts with 10 of interest.
use unified.Base.{
  ℕ, ◌+◌, ◌-◌, ◌*◌, ◌/◌, ◌≤◌, ◌<◌, ◌≡◌, refl, false, some, List, arith, length, All, pos, ◌+ℤ◌,
}
use unified.Decimal.{set_string, to_string}
use unified.Calculation.{
  InterestTerms, accrue, bounded_rate, ray, non_negative_integer, positive_integer,
  max_annual_rate_ray, check_rate,
}
use unified.Calculation.Rates.{accrue_rounding, bounded_rate_lem}
use unified.Calculation.Power.{
  annuity_payment_lem, ray_power, annuity_payment, ray_power_loop, ray_power_fuel,
}
use unified.Calculation.Schedule.{
  SchedulePlan, Installment, Amounts, equal_principal, validate_schedule, generate, bad_terms,
  bad_amounts,
}
use unified.Calculation.Schedule.Conservation.{generate-conserves}
use unified.Calculation.Schedule.Rest.{IsPayable, principal_sum, interest_sum}

-- What a run computes with.
running : Unit {0}
unfolding ◌+ℤ◌ set_string to_string validate_schedule bad_terms bad_amounts positive_integer
    non_negative_integer bounded_rate check_rate
running = tt

-- Ten percent, in rays.
abbrev ten_percent : ℕ
ten_percent = 100000000000000000000000000

accrue_rounding_example :
    (i : ℕ) × (accrue (pos 1000) (pos ten_percent) 31536000 ≡ pos i)
    × (i * 31536000 * ray ≤ 1000 * ten_percent * 31536000)
    × (1000 * ten_percent * 31536000 < (i + 1) * 31536000 * ray + 31536000 * ray)
accrue_rounding_example = accrue_rounding 1000 ten_percent 31536000

abbrev terms : InterestTerms
terms = record {
  annual_rate_ray = "0";
  spread_ray = "2";
  floor_rate_ray = "3";
  cap_rate_ray = "9";
  maximum_benchmark_age = 60;
}

terms_rate : bounded_rate "4" terms ≡ some (pos 6)
unfolding running
terms_rate = refl

bounded_rate_lem_example :
    (b s f c n : ℕ) × (non_negative_integer "4" ≡ some (pos b))
    × (non_negative_integer terms.spread_ray ≡ some (pos s))
    × (non_negative_integer terms.floor_rate_ray ≡ some (pos f))
    × (positive_integer terms.cap_rate_ray ≡ some (pos c))
    × (pos 6 ≡ pos n)
    × (f ≤ n)
    × (n ≤ c)
    × (c ≤ max_annual_rate_ray)
    × (f ≤ b + s → b + s ≤ c → n ≡ b + s)
bounded_rate_lem_example = bounded_rate_lem "4" terms terms_rate

annuity_payment_lem_example :
    (n payment : ℕ) × (ray_power (pos ray +ℤ pos ten_percent) 12 ≡ pos n)
    × (ray < n)
    × (annuity_payment (pos 1000) (pos ten_percent) 12 ≡ pos payment)
    × (payment ≡ 1000 * ten_percent / ray * n / (n - ray))
    × (1000 * ten_percent / ray ≤ payment)
annuity_payment_lem_example = annuity_payment_lem 1000 ten_percent 12 (omega arith) (omega arith)

abbrev plan : SchedulePlan
plan = record {
  kind = equal_principal;
  principal = "1000";
  total_interest = "10";
  periodic_rate_ray = "0";
  balloon_principal = "0";
  start_time = 100;
  period_seconds = 60;
  installment_count = 3;
  payment_holiday_count = 0;
}

abbrev parts : Amounts
parts = record {
  principal = pos 1000;
  total_interest = pos 10;
  balloon = pos 0;
  periodic_rate = pos 0;
}

plan_parsed : validate_schedule plan ≡ some parts
unfolding running
plan_parsed = refl

generate-conserves_example :
    (xs : List Installment) × (generate plan ≡ some xs)
    × (length xs ≡ 3)
    × All IsPayable xs
    × (principal_sum xs ≡ pos 1000)
    × (false ≡ false → interest_sum xs ≡ pos 10)
generate-conserves_example = generate-conserves plan plan_parsed refl

ray_power_fuel_example :
    ray_power_loop 5 5 (pos ray) (pos (2 * ray)) ≡ ray_power_loop 9 5 (pos ray) (pos (2 * ray))
ray_power_fuel_example = ray_power_fuel 5 9 5 (pos ray) (pos (2 * ray)) (omega arith) (omega arith)
