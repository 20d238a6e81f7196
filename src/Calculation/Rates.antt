-- ===== src/Calculation/Rates.antt =====
-- The rates and the interest of services/risk-engine/internal/calculation/interest.go.
use unified.Base.{
  ℕ, zero, suc, ◌+◌, ◌*◌, ◌/◌, ◌≤◌, ◌<◌, min, String, ◌≡◌, refl, Option, none, some, arith, eq_iff,
  ltb, if◌then◌else◌, ℤ, pos, negsuc, ◌≤ℤ◌, *ℤ-pos, quo-pos, +ℤ-pos,
}
use unified.Decimal.{set_string, to_string}
use unified.Decimal.RoundTrip.{set_string-to_string}
use unified.Calculation.{
  InterestTerms, year_seconds, ray, max_annual_rate_ray, canonical, non_negative_integer,
  if_positive, positive_integer, mul_div, accrue, bounded_rate, >>=?-some, check_rate,
}

canonical_sound :
    (s : String) (o : Option ℤ) {z : ℤ} → canonical s o ≡ some z → (pos 0 ≤ℤ z) × (s ≡ to_string z)
canonical_sound s none h = absurd (cc)
canonical_sound s (some y) {z} h = ground (arith, eq_iff (to_string y) s)

-- An accepted text is the decimal text of its value, which is not negative.
pub non_negative_integer_sound :
    (s : String) {z : ℤ} → non_negative_integer s ≡ some z → (pos 0 ≤ℤ z) × (s ≡ to_string z)
unfolding non_negative_integer
non_negative_integer_sound s h = canonical_sound s (set_string s) h

pub non_negative_integer-to_string :
    (n : ℕ) → non_negative_integer (to_string (pos n)) ≡ some (pos n)
unfolding non_negative_integer
non_negative_integer-to_string n =
    rw (set_string-to_string (pos n))
      (ground (arith, eq_iff (to_string (pos n)) (to_string (pos n))))

pub non_negative_integer-pos :
    (s : String) {z : ℤ} → non_negative_integer s ≡ some z → (n : ℕ) × (z ≡ pos n)
non_negative_integer-pos s {z} h = nat_of z (non_negative_integer_sound s h).0
  where
    nat_of : (z : ℤ) → pos 0 ≤ℤ z → (n : ℕ) × (z ≡ pos n)
    nat_of (pos n) p = (n, refl)
    nat_of (negsuc n) p = absurd (omega arith)

if_positive-pos :
    (o : Option ℤ) {z : ℤ} → if_positive o ≡ some z → (n : ℕ) × (z ≡ pos (suc n)) × (o ≡ some z)
if_positive-pos none h = absurd (cc)
if_positive-pos (some (pos zero)) h = absurd (ground arith)
if_positive-pos (some (pos (suc n))) h = (n, ground arith, ground arith)
if_positive-pos (some (negsuc n)) h = absurd (ground arith)

pub positive_integer-pos :
    (s : String) {z : ℤ} → positive_integer s ≡ some z → (n : ℕ) × (z ≡ pos (suc n))
unfolding positive_integer
positive_integer-pos s h = let (n, e, p) = if_positive-pos (non_negative_integer s) h in (n, e)

accrue-pos : (p r e : ℕ) → accrue (pos p) (pos r) e ≡ pos (p * r / ray * e / year_seconds)
unfolding accrue mul_div
accrue-pos p r e = rw (
  *ℤ-pos p r,
  quo-pos (p * r) ray,
  *ℤ-pos (p * r / ray) e,
  quo-pos (p * r / ray * e) year_seconds,
)

mul_mono : (a b c : ℕ) → a ≤ b → a * c ≤ b * c
mul_mono a b c h = grind arith

-- The rounding of the interest: two quotients are rounded down, so that the interest is at most the
-- exact one, and less than one unit and one unit a year below it.
pub accrue_rounding :
    (p r e : ℕ)
    → (i : ℕ) × (accrue (pos p) (pos r) e ≡ pos i)
      × (i * year_seconds * ray ≤ p * r * e)
      × (p * r * e < (i + 1) * year_seconds * ray + e * ray)
accrue_rounding p r e =
    let a = p * r / ray in
    let i = a * e / year_seconds in
    (
      i,
      accrue-pos p r e,
      omega (arith, mul_mono (a * ray) (p * r) e (omega arith)),
      omega (arith, mul_mono (p * r + 1) ((a + 1) * ray) e (omega arith)),
    )

-- Accruing over two periods one after the other never yields more than accruing once over both.
pub accrue_superadditive :
    (p r e₁ e₂ : ℕ)
    → (i j k : ℕ) × (accrue (pos p) (pos r) e₁ ≡ pos i)
      × (accrue (pos p) (pos r) e₂ ≡ pos j)
      × (accrue (pos p) (pos r) (e₁ + e₂) ≡ pos k)
      × (i + j ≤ k)
      × (k ≤ i + j + 1)
accrue_superadditive p r e₁ e₂ =
    let a = p * r / ray in
    (
      a * e₁ / year_seconds,
      a * e₂ / year_seconds,
      a * (e₁ + e₂) / year_seconds,
      accrue-pos p r e₁,
      accrue-pos p r e₂,
      accrue-pos p r (e₁ + e₂),
      grind arith,
      grind arith,
    )

check_rate_lem :
    (b s f c : ℕ) {rate : ℤ}
    → check_rate (pos b) (pos s) (pos f) (pos c) ≡ some rate
    → (n : ℕ) × (rate ≡ pos n)
      × (f ≤ n)
      × (n ≤ c)
      × (c ≤ max_annual_rate_ray)
      × (f ≤ b + s → b + s ≤ c → n ≡ b + s)
unfolding check_rate
check_rate_lem b s f c h = (
  min c (if ltb (b + s) f then f else b + s),
  ground (arith, +ℤ-pos b s),
  ground arith,
  ground arith,
  ground arith,
  ground arith,
)

-- A rate that is applied lies between the floor and the cap, the cap is at most the largest annual
-- rate, and a sum of benchmark and spread between the two is applied as it is.
pub bounded_rate_lem :
    (benchmark : String) (terms : InterestTerms) {rate : ℤ}
    → bounded_rate benchmark terms ≡ some rate
    → (b s f c n : ℕ) × (non_negative_integer benchmark ≡ some (pos b))
      × (non_negative_integer terms.spread_ray ≡ some (pos s))
      × (non_negative_integer terms.floor_rate_ray ≡ some (pos f))
      × (positive_integer terms.cap_rate_ray ≡ some (pos c))
      × (rate ≡ pos n)
      × (f ≤ n)
      × (n ≤ c)
      × (c ≤ max_annual_rate_ray)
      × (f ≤ b + s → b + s ≤ c → n ≡ b + s)
unfolding bounded_rate
bounded_rate_lem benchmark terms {rate} h =
    let (zb, eb, hb) = >>=?-some (non_negative_integer benchmark) _ h in
    let (zs, es, hs) = >>=?-some (non_negative_integer terms.spread_ray) _ hb in
    let (zf, ef, hf) = >>=?-some (non_negative_integer terms.floor_rate_ray) _ hs in
    let (zc, ec, hc) = >>=?-some (positive_integer terms.cap_rate_ray) _ hf in
    let (b, qb) = non_negative_integer-pos benchmark eb in
    let (s, qs) = non_negative_integer-pos terms.spread_ray es in
    let (f, qf) = non_negative_integer-pos terms.floor_rate_ray ef in
    let (c, qc) = positive_integer-pos terms.cap_rate_ray ec in
    let (n, qn, low, high, top, exact) = check_rate_lem b s f (suc c) (rw (qb, qs, qf, qc) at hc) in
    (
      b,
      s,
      f,
      suc c,
      n,
      rw (← qb) eb,
      rw (← qs) es,
      rw (← qf) ef,
      rw (← qc) ec,
      qn,
      low,
      high,
      top,
      exact,
    )
