-- ===== src/Calculation/Schedule/Rest.antt =====
-- The loop of `Generate` of services/risk-engine/internal/calculation/schedule.go, from any round to
-- the last one.
use unified.Base.{
  ℕ, zero, suc, ◌+◌, ◌-◌, ◌*◌, ◌≤◌, ◌<◌, String, ◌≡◌, refl, sym, ap, ◌∙◌, inl, inr, Bool, true,
  false, none, some, List, [], ◌∷◌, arith, ◌==◌, Bool-cases, length, All, ℤ, pos, ◌+ℤ◌, int_laws,
  -ℤ-pos, +ℤ_zero, zero_+ℤ, +ℤ_assoc,
}
use unified.Decimal.{set_string, to_string}
use unified.Decimal.RoundTrip.{set_string-to_string}
use unified.Calculation.{u32}
use unified.Calculation.Schedule.{
  balloon, SchedulePlan, Installment, Amounts, Progress, is_annuity, due, correct_last,
  installment_at, advance, due_at, rounds, start,
}
use unified.Calculation.Schedule.Rounds.{
  is_known, amounts, level_principal, level_interest, level_principal-le, level_interest-le,
  due-level, due-annuity, Inv, due-some, kind-annuity, last_test, Inv-advance,
}

-- The amount of a text, 0 where it is none.
unfoldable pub amount : String → ℤ
amount s = elim (set_string s) [ none ↦ pos 0 | some z ↦ z ]

amount-to_string : (z : ℤ) → amount (to_string z) ≡ z
unfolding amount
amount-to_string z = ground (arith, set_string-to_string z)

abbrev pub principal_sum : List Installment → ℤ
principal_sum [] = pos 0
principal_sum (x ∷ xs) = amount x.principal_due +ℤ principal_sum xs

abbrev pub interest_sum : List Installment → ℤ
interest_sum [] = pos 0
interest_sum (x ∷ xs) = amount x.interest_due +ℤ interest_sum xs

-- Both amounts of an installment are decimal texts of numbers that are not negative.
abbrev pub IsPayable : Installment → Type 0
IsPayable x =
    (d e : ℕ) × (x.principal_due ≡ to_string (pos d)) × (x.interest_due ≡ to_string (pos e))

level_fits : (i n q p : ℕ) → i + 1 < n → (n - 1) * q ≤ p → i * q + q ≤ p
level_fits i n q p lt h = omega (arith, mul_le (i + 1) (n - 1) q (omega arith))
  where
    mul_le : (a b c : ℕ) → a ≤ b → a * c ≤ b * c
    mul_le a b c h = grind arith

module _ (plan : SchedulePlan) (p t b r y : ℕ) (bounds : b ≤ p)
    (some_rounds : 0 < plan.installment_count) (known : is_known plan.kind ≡ true)
    (two : plan.kind ≡ balloon → 2 ≤ plan.installment_count)
    (few : plan.installment_count ≤ 600) where
  abbrev n : ℕ
  n = plan.installment_count

  abbrev a : Amounts
  a = amounts p t b r

  abbrev Holds : ℕ → Progress → Type 0
  Holds = Inv plan p t b r y bounds some_rounds

  due-annuity_kind :
      (last : Bool) (s : Progress) {open_units : ℕ}
      → is_annuity plan.kind ≡ true
      → s.balance ≡ pos open_units
      → (d e : ℕ) × (due plan a (pos y) plan.kind last s ≡ some (pos d, pos e)) × (d ≤ open_units)
  unfolding due
  due-annuity_kind last s h o =
      rw (kind-annuity plan p t b r y bounds some_rounds plan.kind h)
        (due-annuity plan p t b r y bounds some_rounds last s o)

  -- A round that is not the last.
  round_mid :
      (i : ℕ) (s : Progress)
      → i + 1 < n
      → Holds i s
      → (d e : ℕ) × (due_at plan a (pos y) i s ≡ some (pos d, pos e))
        × Holds (i + 1) (advance plan a (pos y) s (pos d, pos e))
  round_mid i s lt v = elim (Bool-cases (is_annuity plan.kind)) [
    | inl ann ↦
        let (d, e, q, le) = due-annuity_kind false s ann v.open_units in
        (d, e, mid q, Inv-advance plan p t b r y bounds some_rounds i s v d e le (λ k. absurd (cc)))
    | inr flat ↦
        let q = due-level plan p t b r y bounds some_rounds plan.kind s flat known two in
        (
          level_principal plan.kind n p b,
          level_interest plan.kind n t,
          mid q,
          Inv-advance plan p t b r y bounds some_rounds i s v _ _ (fits flat) (λ k. (refl, refl)),
        )
  ]
    where
      mid :
          {q : ℤ × ℤ}
          → due plan a (pos y) plan.kind false s ≡ some q
          → due_at plan a (pos y) i s ≡ some q
      mid q = unfold due_at correct_last in ground (arith, q)

      fits : is_annuity plan.kind ≡ false → level_principal plan.kind n p b ≤ p - v.paid
      fits flat = omega (
        arith,
        (v.level flat).0,
        level_fits i n (level_principal plan.kind n p b) p lt
            (level_principal-le plan.kind n p b some_rounds bounds),
      )

  -- The last round.
  round_last :
      (i : ℕ) (s : Progress)
      → i + 1 ≡ n
      → Holds i s
      → (d e : ℕ) × (due_at plan a (pos y) i s ≡ some (pos d, pos e))
        × (s.allocated_principal +ℤ pos d ≡ pos p)
        × (is_annuity plan.kind ≡ false → s.allocated_interest +ℤ pos e ≡ pos t)
  round_last i s end v = elim (Bool-cases (is_annuity plan.kind)) [
    | inl ann ↦
        let (d, e, q, le) = due-annuity_kind true s ann v.open_units in
        (p - v.paid, e, last_annuity ann q, whole, λ flat. absurd (cc))
    | inr flat ↦
        let (q, e) = due-some plan p t b r y bounds some_rounds plan.kind true s known flat in
        (p - v.paid, t - v.earned, last_flat flat e, whole, λ flat. whole_interest flat)
  ]
    where
      test : (u32 (i + 1) == n) ≡ true
      test = last_test plan p t b r y bounds some_rounds i few (omega arith) ∙ ground arith

      whole : s.allocated_principal +ℤ pos (p - v.paid) ≡ pos p
      whole = rw (v.paid_units) (omega (int_laws, v.paid_le))

      earned_le : is_annuity plan.kind ≡ false → v.earned ≤ t
      earned_le flat =
          let m : i ≡ n - 1 = omega arith in
          omega (
            arith,
            (v.level flat).1,
            level_interest-le plan.kind n t some_rounds,
            ap (λ x. x * level_interest plan.kind n t) m,
          )

      whole_interest :
          is_annuity plan.kind ≡ false → s.allocated_interest +ℤ pos (t - v.earned) ≡ pos t
      whole_interest flat = rw (v.earned_units) (omega (int_laws, earned_le flat))

      last_annuity :
          {d e : ℕ}
          → is_annuity plan.kind ≡ true
          → due plan a (pos y) plan.kind true s ≡ some (pos d, pos e)
          → due_at plan a (pos y) i s ≡ some (pos (p - v.paid), pos e)
      last_annuity ann q =
          unfold due_at correct_last in
          ground (arith, test, q, v.paid_units, -ℤ-pos p v.paid v.paid_le)

      last_flat :
          {q : ℤ × ℤ}
          → is_annuity plan.kind ≡ false
          → due plan a (pos y) plan.kind true s ≡ some q
          → due_at plan a (pos y) i s ≡ some (pos (p - v.paid), pos (t - v.earned))
      last_flat flat q =
          unfold due_at correct_last in
          ground (
            arith,
            test,
            q,
            v.paid_units,
            v.earned_units,
            -ℤ-pos p v.paid v.paid_le,
            -ℤ-pos t v.earned (earned_le flat),
          )

  -- What the rounds from `i` give.
  record Rest (i left : ℕ) (s : Progress) : Type 0 where
    installments : List Installment
    end : Progress
    made : rounds plan a (pos y) left i s ≡ some (installments, end)
    as_many : length installments ≡ left
    payable : All IsPayable installments
    allocated : 0 < left → end.allocated_principal ≡ pos p
    principal_left : 0 < left → s.allocated_principal +ℤ principal_sum installments ≡ pos p
    interest_left :
        0 < left
        → is_annuity plan.kind ≡ false
        → s.allocated_interest +ℤ interest_sum installments ≡ pos t

  rounds-cons :
      (left i : ℕ) (s : Progress) {q : ℤ × ℤ} {xs : List Installment} {end : Progress}
      → due_at plan a (pos y) i s ≡ some q
      → rounds plan a (pos y) left (i + 1) (advance plan a (pos y) s q) ≡ some (xs, end)
      → rounds plan a (pos y) (suc left) i s ≡ some (installment_at plan a (pos y) i q ∷ xs, end)
  unfolding rounds
  rounds-cons left i s is_due rest = ground (arith, is_due, rest)

  installment_amounts :
      (i d e : ℕ)
      → (amount (installment_at plan a (pos y) i (pos d, pos e)).principal_due ≡ pos d)
        × (amount (installment_at plan a (pos y) i (pos d, pos e)).interest_due ≡ pos e)
        × IsPayable (installment_at plan a (pos y) i (pos d, pos e))
  unfolding installment_at
  installment_amounts i d e =
      (amount-to_string (pos d), amount-to_string (pos e), (d, e, refl, refl))

  last-Rest : (i : ℕ) (s : Progress) → i + 1 ≡ n → Holds i s → Rest i 1 s
  last-Rest i s h v =
      let (d, e, is_due, whole, interest) = round_last i s h v in
      let (am, im, payable) = installment_amounts i d e in
      record {
        installments = installment_at plan a (pos y) i (pos d, pos e) ∷ [];
        end = advance plan a (pos y) s (pos d, pos e);
        made = rounds-cons 0 i s is_due (unfold rounds in refl);
        as_many = refl;
        payable = (payable, tt);
        allocated = λ k. unfold advance in whole;
        principal_left = λ k. rw (am, +ℤ_zero (pos d)) whole;
        interest_left = λ k flat. rw (im, +ℤ_zero (pos e)) (interest flat);
      }

  mid-Rest :
      (i left : ℕ) (s : Progress) (d e : ℕ)
      → due_at plan a (pos y) i s ≡ some (pos d, pos e)
      → 0 < left
      → Rest (i + 1) left (advance plan a (pos y) s (pos d, pos e))
      → Rest i (suc left) s
  mid-Rest i left s d e is_due more ih =
      let (am, im, payable) = installment_amounts i d e in
      record {
        installments = installment_at plan a (pos y) i (pos d, pos e) ∷ ih.installments;
        end = ih.end;
        made = rounds-cons left i s is_due ih.made;
        as_many = omega (arith, ih.as_many);
        payable = (payable, ih.payable);
        allocated = λ k. ih.allocated more;
        principal_left = λ k.
            rw (am, +ℤ_assoc s.allocated_principal (pos d))
              (unfold advance in ih.principal_left more);
        interest_left = λ k flat.
            rw (im, +ℤ_assoc s.allocated_interest (pos e))
              (unfold advance in ih.interest_left more flat);
      }

  rounds-Rest : (left i : ℕ) (s : Progress) → i + suc left ≡ n → Holds i s → Rest i (suc left) s
  rounds-Rest zero i s h v = last-Rest i s (omega arith) v
  rounds-Rest (suc left) i s h v =
      let (d, e, is_due, next) = round_mid i s (omega arith) v in
      mid-Rest i (suc left) s d e is_due (omega arith)
        (rounds-Rest left (i + 1) (advance plan a (pos y) s (pos d, pos e)) (omega arith) next)

  start-Holds : Holds 0 (start a)
  start-Holds = record {
    paid = 0;
    earned = 0;
    paid_units = refl;
    earned_units = refl;
    open_units = ap pos (omega arith);
    paid_le = omega arith;
    level = λ k. (omega arith, omega arith);
  }

  all_rounds : (left : ℕ) → suc left ≡ n → Rest 0 n (start a)
  all_rounds left h = rw (← h) (rounds-Rest left 0 (start a) (omega arith) start-Holds)

  -- The loop and its last test, for amounts that were accepted.
  pub rounds_conserve :
      (xs : List Installment) × (end : Progress) × (rounds plan a (pos y) n 0 (start a)
        ≡ some (xs, end))
      × (end.allocated_principal ≡ pos p)
      × (length xs ≡ n)
      × All IsPayable xs
      × (principal_sum xs ≡ pos p)
      × (is_annuity plan.kind ≡ false → interest_sum xs ≡ pos t)
  rounds_conserve =
      let rest = all_rounds (n - 1) (omega (arith, some_rounds)) in
      (
        rest.installments,
        rest.end,
        rest.made,
        rest.allocated some_rounds,
        rest.as_many,
        rest.payable,
        sym (zero_+ℤ (principal_sum rest.installments)) ∙ rest.principal_left some_rounds,
        λ flat.
            sym (zero_+ℤ (interest_sum rest.installments)) ∙ rest.interest_left some_rounds flat,
      )
