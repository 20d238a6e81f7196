-- ===== src/Calculation/Schedule.antt =====
-- Repayment schedules of services/risk-engine/internal/calculation/schedule.go.
pub mod Rounds
pub mod Rest
pub mod Conservation
use unified.Base.{
  ℕ, zero, suc, ◌+◌, ◌-◌, ◌*◌, ◌/◌, ◌%◌, ◌^◌, ◌≤◌, ◌<◌, min, String, ◌≡◌, refl, sym, ap, ◌∙◌, ◌≢◌,
  ◌↔◌, ◌⊎◌, inl, inr, Bool, true, false, not, ◌&&◌, ◌||◌, Option, none, some, List, [], ◌∷◌, ◌++◌,
  map, arith, eq_iff, eq_refl, ltb, leb, ◌==◌, ◌=ₛ◌, ◌≠ₛ◌, is_empty, if◌then◌else◌, ltb→lt, lt→ltb,
  Bool-cases, Option-cases, eq_of_text_eq, ne_of_text_eq, text_eq_of_ne, length, All, length-append,
  All-append, Dict, lookup, insert, contains, lookup-insert, lookup-insert_self, lookup-empty,
  lookup-insert_cases, lookup-insert_free, contains-insert, insert-All, Result, ok, err, ◌>>=◌,
  ◌>>◌, or_err, Result-cases, >>=-eq-ok, reject_if, ℤ, pos, negsuc, pos_part, neg_part, sub_ℕ, ◌+ℤ◌,
  ◌-ℤ◌, ◌*ℤ◌, quo, ◌≤ℤ◌, ltb_ℤ, leb_ℤ, eqb_ℤ, int_laws, *ℤ-pos, quo-pos, -ℤ-pos, +ℤ-pos,
  eq_of_parts, Time, is_zero, before, after, time_sub, max_duration,
}
use unified.Decimal.{to_string}
use unified.Calculation.{ray, u32, u64, non_negative_integer, positive_integer, mul_div, ◌>>=?◌}
use unified.Calculation.Power.{annuity_payment}

-- `type ScheduleKind string`: the constants, and any other text.
pub data ScheduleKind : Type 0 where
  bullet equal_principal annuity interest_only balloon : ScheduleKind
  other : String → ScheduleKind

pub record SchedulePlan : Type 0 where
  pub kind : ScheduleKind
  pub principal : String
  pub total_interest : String
  pub periodic_rate_ray : String
  pub balloon_principal : String
  pub start_time : ℕ  -- uint64
  pub period_seconds : ℕ  -- uint64
  pub installment_count : ℕ  -- uint32
  pub payment_holiday_count : ℕ  -- uint32

pub record Installment : Type 0 where
  pub index : ℕ  -- uint32
  pub due_time : ℕ  -- uint64
  pub principal_due : String
  pub interest_due : String

-- The parsed amounts of a plan.
pub record Amounts : Type 0 where
  pub principal : ℤ
  pub total_interest : ℤ
  pub balloon : ℤ
  pub periodic_rate : ℤ

abbrev pub is_annuity : ScheduleKind → Bool
is_annuity annuity = true
is_annuity _ = false

abbrev pub is_balloon : ScheduleKind → Bool
is_balloon balloon = true
is_balloon _ = false

-- `z.Sign() == 0`
abbrev pub is_nought : ℤ → Bool
is_nought z = eqb_ℤ z (pos 0)

-- The counts and times that `validateSchedule` refuses.
unfoldable pub bad_terms : SchedulePlan → Bool
bad_terms plan =
    (plan.start_time == 0)
    || (plan.period_seconds == 0)
    || (plan.installment_count == 0)
    || ltb 600 plan.installment_count
    || ltb 120 plan.payment_holiday_count

-- The amounts that it refuses for the kind of the plan.
unfoldable pub bad_amounts : SchedulePlan → Amounts → Bool
bad_amounts plan a =
    (if is_balloon plan.kind
      then ltb plan.installment_count 2 || is_nought a.balloon || leb_ℤ a.principal a.balloon
      else not (is_nought a.balloon))
    || (if is_annuity plan.kind
        then is_nought a.periodic_rate || not (is_nought a.total_interest)
        else not (is_nought a.periodic_rate))

unfoldable pub validate_schedule : SchedulePlan → Option Amounts
validate_schedule plan = positive_integer plan.principal >>=? λ principal.
    non_negative_integer plan.total_interest >>=? λ total_interest.
    non_negative_integer plan.balloon_principal >>=? λ balloon_units.
    non_negative_integer plan.periodic_rate_ray >>=? λ periodic_rate.
    let a : Amounts = record {
      principal = principal;
      total_interest = total_interest;
      balloon = balloon_units;
      periodic_rate = periodic_rate;
    } in
    if bad_terms plan || bad_amounts plan a then none else some a

-- The variables of the loop.
pub record Progress : Type 0 where
  pub allocated_principal : ℤ
  pub allocated_interest : ℤ
  pub balance : ℤ

module _ (plan : SchedulePlan) (a : Amounts) (payment : ℤ) where
  abbrev count : ℤ
  count = pos plan.installment_count

  -- The part of an annuity payment that is principal: not negative and at most the balance.
  unfoldable pub annuity_principal : ℤ → ℤ → ℤ
  annuity_principal interest_due balance =
      let due = if ltb_ℤ interest_due payment then payment -ℤ interest_due else pos 0 in
      if ltb_ℤ balance due then balance else due

  -- The `switch` of one round: principal and interest due, before the correction of the last round.
  unfoldable pub due : ScheduleKind → Bool → Progress → Option (ℤ × ℤ)
  unfolding annuity_principal
  due bullet last p = if last then some (a.principal, a.total_interest) else some (pos 0, pos 0)
  due equal_principal last p = some (quo a.principal count, quo a.total_interest count)
  due interest_only last p = some (if last then a.principal else pos 0, quo a.total_interest count)
  due balloon last p = some (
    if last then a.balloon else quo (a.principal -ℤ a.balloon) (count -ℤ pos 1),
    quo a.total_interest count,
  )
  due annuity last p =
      let interest_due = mul_div p.balance a.periodic_rate (pos ray) in
      some (annuity_principal interest_due p.balance, interest_due)
  due (other s) last p = none

  -- The last round takes what is left.
  unfoldable pub correct_last : Bool → Progress → ℤ × ℤ → ℤ × ℤ
  correct_last last p (principal_due, interest_due) =
      if last
      then (
        a.principal -ℤ p.allocated_principal,
        if is_annuity plan.kind then interest_due else a.total_interest -ℤ p.allocated_interest,
      )
      else (principal_due, interest_due)

  unfoldable pub installment_at : ℕ → ℤ × ℤ → Installment
  installment_at index (principal_due, interest_due) = record {
    index = index;
    due_time = u64 (
        plan.start_time + u64 (u32 (index + 1 + plan.payment_holiday_count) * plan.period_seconds));
    principal_due = to_string principal_due;
    interest_due = to_string interest_due;
  }

  unfoldable pub advance : Progress → ℤ × ℤ → Progress
  advance p (principal_due, interest_due) = record {
    allocated_principal = p.allocated_principal +ℤ principal_due;
    allocated_interest = p.allocated_interest +ℤ interest_due;
    balance = p.balance -ℤ principal_due;
  }

  -- One round of the loop: what is due, with the corrections.
  unfoldable pub due_at : ℕ → Progress → Option (ℤ × ℤ)
  due_at index p =
      let last = u32 (index + 1) == plan.installment_count in
      due plan.kind last p >>=? λ amounts. some (correct_last last p amounts)

  -- The rounds that are left, from `index`.
  unfoldable pub rounds : ℕ → ℕ → Progress → Option (List Installment × Progress)
  rounds zero index p = some ([], p)
  rounds (suc left) index p = due_at index p >>=? λ amounts.
      rounds left (index + 1) (advance p amounts) >>=? λ rest.
      some (installment_at index amounts ∷ rest.0, rest.1)

-- `payment` is zero unless the plan is an annuity.
unfoldable pub payment_of : SchedulePlan → Amounts → ℤ
payment_of plan a =
    if is_annuity plan.kind
    then annuity_payment a.principal a.periodic_rate plan.installment_count
    else pos 0

abbrev pub start : Amounts → Progress
start a = record { allocated_principal = pos 0; allocated_interest = pos 0; balance = a.principal }

unfoldable pub generate : SchedulePlan → Option (List Installment)
unfolding payment_of
generate plan = validate_schedule plan >>=? λ a.
    rounds plan a (payment_of plan a) plan.installment_count 0 (start a) >>=? λ done.
    if eqb_ℤ done.1.allocated_principal a.principal then some done.0 else none
