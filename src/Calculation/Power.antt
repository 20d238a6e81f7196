-- ===== src/Calculation/Power.antt =====
-- The annuity payment of services/risk-engine/internal/calculation/schedule.go. The loop of
-- `rayPower` halves its exponent each round; it takes the exponent as fuel, which is enough.
use unified.Base.{
  ℕ, zero, suc, ◌+◌, ◌-◌, ◌*◌, ◌/◌, ◌%◌, ◌≤◌, ◌<◌, ◌≡◌, refl, ◌∙◌, Bool, arith, ◌==◌, if◌then◌else◌,
  ℤ, pos, ◌+ℤ◌, ◌-ℤ◌, *ℤ-pos, quo-pos, -ℤ-pos, +ℤ-pos,
}
use unified.Calculation.{ray, mul_div}

-- `power & 1 != 0`
abbrev is_odd : ℕ → Bool
is_odd n = n % 2 == 1

unfoldable pub ray_power_loop : ℕ → ℕ → ℤ → ℤ → ℤ
ray_power_loop zero power result base = result
ray_power_loop (suc fuel) power result base =
    let result' = if is_odd power then mul_div result base (pos ray) else result in
    let base' = if power / 2 == 0 then base else mul_div base base (pos ray) in
    let rest = ray_power_loop fuel (power / 2) result' base' in if power == 0 then result else rest

unfoldable pub ray_power : ℤ → ℕ → ℤ
unfolding ray_power_loop
ray_power base_ray exponent = ray_power_loop exponent exponent (pos ray) base_ray

unfoldable pub annuity_payment : ℤ → ℤ → ℕ → ℤ
annuity_payment principal periodic_rate_ray periods =
    let factor = ray_power (pos ray +ℤ periodic_rate_ray) periods in
    let numerator = mul_div principal periodic_rate_ray (pos ray) in
    mul_div numerator factor (factor -ℤ pos ray)

pub mul_div-pos : (a b c : ℕ) → mul_div (pos a) (pos b) (pos c) ≡ pos (a * b / c)
unfolding mul_div
mul_div-pos a b c = rw (*ℤ-pos a b, quo-pos (a * b) c)

mul_mono_left : (a b c : ℕ) → b ≤ c → a * b ≤ a * c
mul_mono_left a b c h = grind arith

-- A product of two factors above one is above each of them.
grow : (a b : ℕ) → ray ≤ a → ray < b → a < a * b / ray
grow a b ha hb = omega (arith, mul_mono_left a (ray + 1) b (omega arith))

-- The loop of `rayPower` ends by its own test: with any two amounts of fuel that are not below the
-- exponent it gives the same power.
pub ray_power_fuel :
    (f g power : ℕ) (result base : ℤ)
    → power ≤ f
    → power ≤ g
    → ray_power_loop f power result base ≡ ray_power_loop g power result base
unfolding ray_power_loop
ray_power_fuel zero zero power result base hf hg = refl
ray_power_fuel zero (suc g) power result base hf hg = ground arith
ray_power_fuel (suc f) zero power result base hf hg = ground arith
ray_power_fuel (suc f) (suc g) power result base hf hg = ground (
  arith,
  ray_power_fuel f g (power / 2) (if is_odd power then mul_div result base (pos ray) else result)
      (if power / 2 == 0 then base else mul_div base base (pos ray)),
)

-- The values of the next round, as numbers.
abbrev next_result : ℕ → ℕ → ℕ → ℕ
next_result power r b = if is_odd power then r * b / ray else r

abbrev next_base : ℕ → ℕ → ℕ
next_base power b = if power / 2 == 0 then b else b * b / ray

ray_power_step :
    (f power r b : ℕ)
    → 0 < power
    → ray_power_loop (suc f) power (pos r) (pos b)
      ≡ ray_power_loop f (power / 2) (pos (next_result power r b)) (pos (next_base power b))
unfolding ray_power_loop
ray_power_step f power r b h = ground (arith, mul_div-pos r b ray, mul_div-pos b b ray)

ray_power_done : (f r b : ℕ) → ray_power_loop f 0 (pos r) (pos b) ≡ pos r
unfolding ray_power_loop
ray_power_done zero r b = refl
ray_power_done (suc f) r b = refl

next_grows :
    (power r b : ℕ)
    → ray ≤ r
    → ray < b
    → (r ≤ next_result power r b)
      × (power % 2 ≡ 1 → r < next_result power r b)
      × (ray < next_base power b)
next_grows power r b hr hb = ground (arith, grow r b hr hb, grow b b (omega arith) hb)

-- With a base above one ray the loop never lowers the result, and raises it where the exponent is
-- not zero.
ray_power_loop-grows :
    (f power r b : ℕ)
    → power ≤ f
    → ray ≤ r
    → ray < b
    → (n : ℕ) × (ray_power_loop f power (pos r) (pos b) ≡ pos n) × (r ≤ n) × (0 < power → r < n)
ray_power_loop-grows f zero r b hf hr hb = (r, ray_power_done f r b, omega arith, omega arith)
ray_power_loop-grows zero (suc power) r b hf hr hb = absurd (omega arith)
ray_power_loop-grows (suc f) (suc power) r b hf hr hb =
    let (le, odd, base) = next_grows (suc power) r b hr hb in
    let r' = next_result (suc power) r b in
    let (n, e, up, strict) =
      ray_power_loop-grows f (suc power / 2) r' (next_base (suc power) b) (omega arith)
        (omega arith) base in
    (n, ray_power_step f (suc power) r b (omega arith) ∙ e, omega arith, λ h. grind arith)

quotient_ge : (i n d : ℕ) → 0 < d → d ≤ n → i ≤ i * n / d
quotient_ge i n d h k = grind (arith, mul_mono_left i d n k)

-- A positive rate and a positive number of periods give a factor above one ray: the annuity payment
-- never divides by zero.
pub ray_power-above :
    (rate periods : ℕ)
    → 0 < rate
    → 0 < periods
    → (n : ℕ) × (ray_power (pos ray +ℤ pos rate) periods ≡ pos n) × (ray < n)
unfolding ray_power
ray_power-above rate periods hr hp =
    let (n, e, low, strict) =
      ray_power_loop-grows periods periods ray (ray + rate) (omega arith) (omega arith)
        (omega arith) in
    (n, rw (+ℤ-pos ray rate) e, strict hp)

-- For a positive rate and number of periods the annuity payment is a quotient by a positive number,
-- and at least the interest of the first period.
pub annuity_payment_lem :
    (principal rate periods : ℕ)
    → 0 < rate
    → 0 < periods
    → (n payment : ℕ) × (ray_power (pos ray +ℤ pos rate) periods ≡ pos n)
      × (ray < n)
      × (annuity_payment (pos principal) (pos rate) periods ≡ pos payment)
      × (payment ≡ principal * rate / ray * n / (n - ray))
      × (principal * rate / ray ≤ payment)
unfolding annuity_payment
annuity_payment_lem principal rate periods hr hp =
    let (n, e, above) = ray_power-above rate periods hr hp in
    let i = principal * rate / ray in
    (
      n,
      i * n / (n - ray),
      e,
      above,
      rw (e, mul_div-pos principal rate ray, -ℤ-pos n ray (omega arith), mul_div-pos i n (n - ray)),
      refl,
      quotient_ge i n (n - ray) (omega arith) (omega arith),
    )
