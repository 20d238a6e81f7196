-- ===== src/Calculation/Schedule/Rounds.antt =====
-- One round of the loop of `Generate` in services/risk-engine/internal/calculation/schedule.go, for
-- amounts that were accepted.
use native.Mathlib.Nat.{mul-div-le}
use unified.Base.{
  ℕ, ◌+◌, ◌-◌, ◌*◌, ◌/◌, ◌≤◌, ◌<◌, min, ◌≡◌, refl, ap, Bool, true, false, some, arith, ◌==◌, ℤ, pos,
  quo-pos, -ℤ-pos, +ℤ-pos,
}
use unified.Calculation.{ray, u32}
use unified.Calculation.Schedule.{
  ScheduleKind, bullet, equal_principal, annuity, interest_only, balloon, other, SchedulePlan,
  Amounts, Progress, is_annuity, annuity_principal, due, advance,
}
use unified.Calculation.Power.{mul_div-pos}

-- The kinds that have a constant.
abbrev pub is_known : ScheduleKind → Bool
is_known (other s) = false
is_known _ = true

abbrev pub amounts : ℕ → ℕ → ℕ → ℕ → Amounts
amounts p t b r = record {
  principal = pos p;
  total_interest = pos t;
  balloon = pos b;
  periodic_rate = pos r;
}

-- What is due in every round but the last, where the plan is no annuity; `n` is the number of rounds.
abbrev pub level_principal : ScheduleKind → ℕ → ℕ → ℕ → ℕ
level_principal equal_principal n principal balloon_units = principal / n
level_principal balloon n principal balloon_units = (principal - balloon_units) / (n - 1)
level_principal _ n principal balloon_units = 0

abbrev pub level_interest : ScheduleKind → ℕ → ℕ → ℕ
level_interest bullet n total = 0
level_interest _ n total = total / n

level-le : (n t : ℕ) → 0 < n → (n - 1) * (t / n) ≤ t
level-le n t h = omega (arith, mul-div-le t n, drop_one n (t / n))
  where
    drop_one : (n q : ℕ) → (n - 1) * q ≤ n * q
    drop_one n q = grind arith

pub level_principal-le :
    (k : ScheduleKind) (n p b : ℕ) → 0 < n → b ≤ p → (n - 1) * level_principal k n p b ≤ p
level_principal-le bullet n p b h hb = omega arith
level_principal-le equal_principal n p b h hb = level-le n p h
level_principal-le interest_only n p b h hb = omega arith
level_principal-le annuity n p b h hb = omega arith
level_principal-le (other s) n p b h hb = omega arith
level_principal-le balloon n p b h hb = omega (arith, mul-div-le (p - b) (n - 1))

pub level_interest-le : (k : ScheduleKind) (n t : ℕ) → 0 < n → (n - 1) * level_interest k n t ≤ t
level_interest-le bullet n t h = omega arith
level_interest-le equal_principal n t h = level-le n t h
level_interest-le interest_only n t h = level-le n t h
level_interest-le annuity n t h = level-le n t h
level_interest-le (other s) n t h = level-le n t h
level_interest-le balloon n t h = level-le n t h

module _ (plan : SchedulePlan) (p t b r y : ℕ) (bounds : b ≤ p)
    (some_rounds : 0 < plan.installment_count) where
  abbrev pub n : ℕ
  n = plan.installment_count

  pub due-level :
      (k : ScheduleKind) (s : Progress)
      → is_annuity k ≡ false
      → is_known k ≡ true
      → (k ≡ balloon → 2 ≤ n)
      → due plan (amounts p t b r) (pos y) k false s
        ≡ some (pos (level_principal k n p b), pos (level_interest k n t))
  unfolding due
  due-level bullet s h known two = refl
  due-level equal_principal s h known two = rw (quo-pos p n, quo-pos t n)
  due-level interest_only s h known two = rw (quo-pos t n)
  due-level balloon s h known two =
      rw (-ℤ-pos p b bounds, -ℤ-pos n 1 some_rounds, quo-pos (p - b) (n - 1), quo-pos t n)
  due-level annuity s h known two = absurd (cc)
  due-level (other x) s h known two = absurd (cc)

  -- An annuity round takes at most the balance.
  pub due-annuity :
      (last : Bool) (s : Progress) {balance : ℕ}
      → s.balance ≡ pos balance
      → (d e : ℕ) × (due plan (amounts p t b r) (pos y) annuity last s ≡ some (pos d, pos e))
        × (d ≤ balance)
  unfolding due
  due-annuity last s {balance} h =
      let e = balance * r / ray in
      (
        min balance (y - e),
        e,
        rw (h, mul_div-pos balance r ray) (unfold annuity_principal in ground (arith, -ℤ-pos y e)),
        omega arith,
      )

  -- What holds before the round `i`.
  pub record Inv (i : ℕ) (s : Progress) : Type 0 where
    pub paid : ℕ
    pub earned : ℕ
    pub paid_units : s.allocated_principal ≡ pos paid
    pub earned_units : s.allocated_interest ≡ pos earned
    pub open_units : s.balance ≡ pos (p - paid)
    pub paid_le : paid ≤ p
    pub level :
        is_annuity plan.kind ≡ false
        → (paid ≡ i * level_principal plan.kind n p b) × (earned ≡ i * level_interest plan.kind n t)

  pub due-some :
      (k : ScheduleKind) (last : Bool) (s : Progress)
      → is_known k ≡ true
      → is_annuity k ≡ false
      → (q : ℤ × ℤ) × (due plan (amounts p t b r) (pos y) k last s ≡ some q)
  unfolding due
  due-some bullet true s known h = ((_, _), refl)
  due-some bullet false s known h = ((_, _), refl)
  due-some equal_principal last s known h = ((_, _), refl)
  due-some interest_only last s known h = ((_, _), refl)
  due-some balloon last s known h = ((_, _), refl)
  due-some annuity last s known h = absurd (cc)
  due-some (other x) last s known h = absurd (cc)

  pub kind-annuity : (k : ScheduleKind) → is_annuity k ≡ true → k ≡ annuity
  kind-annuity annuity h = refl
  kind-annuity k h = absurd (cc)

  -- `last := index+1 == plan.InstallmentCount`, which does not wrap around.
  pub last_test : (i : ℕ) → n ≤ 600 → i < n → (u32 (i + 1) == n) ≡ (i + 1 == n)
  last_test i few h = ground arith

  -- What holds after a round that had `d` and `e` due.
  pub Inv-advance :
      (i : ℕ) (s : Progress) (v : Inv i s) (d e : ℕ)
      → d ≤ p - v.paid
      → (is_annuity plan.kind ≡ false
          → (d ≡ level_principal plan.kind n p b) × (e ≡ level_interest plan.kind n t))
      → Inv (i + 1) (advance plan (amounts p t b r) (pos y) s (pos d, pos e))
  unfolding advance
  Inv-advance i s v d e h level = record {
    paid = v.paid + d;
    earned = v.earned + e;
    paid_units = rw (v.paid_units, +ℤ-pos v.paid d);
    earned_units = rw (v.earned_units, +ℤ-pos v.earned e);
    open_units = rw (v.open_units, -ℤ-pos (p - v.paid) d h) (ap pos (omega (arith, v.paid_le)));
    paid_le = omega (arith, v.paid_le);
    level =
        λ k. (omega (arith, (v.level k).0, (level k).0), omega (arith, (v.level k).1, (level k).1));
  }
