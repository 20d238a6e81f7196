-- ===== src/Calculation/Schedule/Conservation.antt =====
-- What `Generate` of services/risk-engine/internal/calculation/schedule.go promises: the installments
-- add up.
use unified.Base.{
  ℕ, suc, ◌≤◌, ◌<◌, ◌≡◌, sym, ◌∙◌, inl, inr, true, false, ◌||◌, none, some, List, arith,
  if◌then◌else◌, Bool-cases, length, All, ℤ, pos,
}
use unified.Calculation.Schedule.Rest.{rounds_conserve, IsPayable, principal_sum, interest_sum}
use unified.Calculation.Schedule.{
  bad_amounts, Amounts, payment_of, validate_schedule, SchedulePlan, generate, bad_terms,
  is_annuity, balloon, Installment, Progress, rounds, start,
}
use unified.Calculation.Schedule.Rounds.{amounts, is_known}
use unified.Calculation.{>>=?-some, positive_integer, non_negative_integer}
use unified.Calculation.Power.{annuity_payment_lem}
use unified.Calculation.Rates.{positive_integer-pos, non_negative_integer-pos}

-- What `validateSchedule` guarantees of the amounts that it returns.
pub record IsPlan (plan : SchedulePlan) (v : Amounts) : Type 0 where
  pub p : ℕ
  pub t : ℕ
  pub b : ℕ
  pub r : ℕ
  pub parsed : v ≡ amounts p t b r
  pub bounds : b ≤ p
  pub some_rounds : 0 < plan.installment_count
  pub few : plan.installment_count ≤ 600
  pub two : plan.kind ≡ balloon → 2 ≤ plan.installment_count
  pub rate : is_annuity plan.kind ≡ true → 0 < r

terms_checked :
    (plan : SchedulePlan)
    → bad_terms plan ≡ false
    → (0 < plan.installment_count) × (plan.installment_count ≤ 600)
unfolding bad_terms
terms_checked plan h = ground arith

amounts_checked :
    (plan : SchedulePlan) (p t b r : ℕ)
    → bad_amounts plan (amounts p t b r) ≡ false
    → (b ≤ p)
      × (plan.kind ≡ balloon → 2 ≤ plan.installment_count)
      × (is_annuity plan.kind ≡ true → 0 < r)
unfolding bad_amounts
amounts_checked plan p t b r h = ground arith

abbrev amounts_of : ℤ → ℤ → ℤ → ℤ → Amounts
amounts_of p t b r = record { principal = p; total_interest = t; balloon = b; periodic_rate = r }

amounts_of_parts :
    {zp zt zb zr : ℤ} {p t b r : ℕ}
    → zp ≡ pos p
    → zt ≡ pos t
    → zb ≡ pos b
    → zr ≡ pos r
    → amounts_of zp zt zb zr ≡ amounts p t b r
amounts_of_parts hp ht hb hr = cc

good_amounts :
    (plan : SchedulePlan) {w v : Amounts}
    → w ≡ v
    → bad_amounts plan w ≡ false
    → bad_amounts plan v ≡ false
good_amounts plan e h = cc

tested :
    (plan : SchedulePlan) (w : Amounts) {v : Amounts}
    → (if bad_terms plan || bad_amounts plan w then none else some w) ≡ some v
    → (bad_terms plan ≡ false) × (bad_amounts plan w ≡ false) × (w ≡ v)
tested plan w h = ground arith

-- The parts of an accepted plan.
validate_schedule-parts :
    (plan : SchedulePlan) {v : Amounts}
    → validate_schedule plan ≡ some v
    → (p t b r : ℕ) × (v ≡ amounts p t b r)
      × (bad_terms plan ≡ false)
      × (bad_amounts plan (amounts p t b r) ≡ false)
unfolding validate_schedule
validate_schedule-parts plan {v} h =
    let (zp, ep, hp) = >>=?-some (positive_integer plan.principal) _ h in
    let (zt, et, ht) = >>=?-some (non_negative_integer plan.total_interest) _ hp in
    let (zb, eb, hb) = >>=?-some (non_negative_integer plan.balloon_principal) _ ht in
    let (zr, er, hr) = >>=?-some (non_negative_integer plan.periodic_rate_ray) _ hb in
    let (p, qp) = positive_integer-pos plan.principal ep in
    let (t, qt) = non_negative_integer-pos plan.total_interest et in
    let (b, qb) = non_negative_integer-pos plan.balloon_principal eb in
    let (r, qr) = non_negative_integer-pos plan.periodic_rate_ray er in
    let same : amounts_of zp zt zb zr ≡ amounts (suc p) t b r = amounts_of_parts qp qt qb qr in
    let (terms, units, result) = tested plan (amounts_of zp zt zb zr) hr in
    (suc p, t, b, r, sym result ∙ same, terms, good_amounts plan same units)

pub validate_schedule-IsPlan :
    (plan : SchedulePlan) {v : Amounts} → validate_schedule plan ≡ some v → IsPlan plan v
validate_schedule-IsPlan plan h =
    let (p, t, b, r, parsed, terms, units) = validate_schedule-parts plan h in
    let (bounds, two, rate) = amounts_checked plan p t b r units in
    let (some_rounds, few) = terms_checked plan terms in
    record {
      p = p;
      t = t;
      b = b;
      r = r;
      parsed = parsed;
      bounds = bounds;
      some_rounds = some_rounds;
      few = few;
      two = two;
      rate = rate;
    }

payment-pos :
    (plan : SchedulePlan) (v : Amounts) → IsPlan plan v → (y : ℕ) × (payment_of plan v ≡ pos y)
unfolding payment_of
payment-pos plan v h = elim (Bool-cases (is_annuity plan.kind)) [
  | inr flat ↦ (0, rw flat)
  | inl ann ↦
      let (n, y, _, _, e, _, _) =
        annuity_payment_lem h.p h.r plan.installment_count (h.rate ann) h.some_rounds in
      (y, rw (ann, h.parsed) e)
]

generate-eq :
    (plan : SchedulePlan) (v : Amounts) (y : ℕ) (xs : List Installment) (end : Progress)
    → validate_schedule plan ≡ some v
    → payment_of plan v ≡ pos y
    → rounds plan v (pos y) plan.installment_count 0 (start v) ≡ some (xs, end)
    → end.allocated_principal ≡ v.principal
    → generate plan ≡ some xs
unfolding generate
generate-eq plan v y xs end checked pay made all = ground (arith, checked, pay, made, all)

conserved :
    (plan : SchedulePlan) (v : Amounts) (h : IsPlan plan v) (y : ℕ)
    → is_known plan.kind ≡ true
    → (xs : List Installment) × (end : Progress) × (rounds plan v
          (pos y)
          plan.installment_count
          0
          (start v)
        ≡ some (xs, end))
      × (end.allocated_principal ≡ v.principal)
      × (length xs ≡ plan.installment_count)
      × All IsPayable xs
      × (principal_sum xs ≡ v.principal)
      × (is_annuity plan.kind ≡ false → interest_sum xs ≡ v.total_interest)
conserved plan v h y known =
    rw h.parsed (rounds_conserve plan h.p h.t h.b h.r y h.bounds h.some_rounds known h.two h.few)

-- Every accepted plan of a known kind gives its installments: as many as it asks for, with amounts
-- that are not negative, whose principal adds up to the principal and, but for an annuity, whose
-- interest adds up to the interest. The last test of the code never fails.
pub generate-conserves :
    (plan : SchedulePlan) {v : Amounts}
    → validate_schedule plan ≡ some v
    → is_known plan.kind ≡ true
    → (xs : List Installment) × (generate plan ≡ some xs)
      × (length xs ≡ plan.installment_count)
      × All IsPayable xs
      × (principal_sum xs ≡ v.principal)
      × (is_annuity plan.kind ≡ false → interest_sum xs ≡ v.total_interest)
generate-conserves plan {v} ok_plan known =
    let h = validate_schedule-IsPlan plan ok_plan in
    let (y, pay) = payment-pos plan v h in
    let (xs, end, made, all, many, payable, sum, interest) = conserved plan v h y known in
    (xs, generate-eq plan v y xs end ok_plan pay made all, many, payable, sum, interest)
