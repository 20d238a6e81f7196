-- ===== src/Underwriting/Approval.antt =====
-- What an approval of services/risk-engine/internal/underwriting/engine.go promises.
use unified.Base.{
  ℕ, ◌≤◌, String, ◌≡◌, refl, ap, ◌∙◌, inl, inr, true, some, List, arith, Option-cases,
  eq_of_text_eq, ok, Result-cases, ℤ, ◌≤ℤ◌, Time, false, leb_ℤ, pos, eq_iff,
}
use unified.Decimal.{to_string}
use mathlib.Core.Path.{subst}
use unified.Underwriting.{
  FeatureEvidence, Policy, Application, Decision, positive_integer, authenticated_features,
  capacity_of, reasons_against, is_none, policy_maximum, decide_on, decide, bad_application,
}

-- The capacity is not above the maximum of the policy.
capacity_le : (income obligations : ℤ) (bps : ℕ) (m : ℤ) → capacity_of income obligations bps m ≤ℤ m
unfolding capacity_of
capacity_le income obligations bps m = ground arith

reasons_none :
    (p : Policy) (a : Application) (requested capacity : ℤ)
    → is_none (reasons_against p a requested capacity) ≡ true
    → (a.credential_scope ≡ p.credential_scope)
      × (p.minimum_assurance ≤ a.credential_assurance)
      × (a.duration_days ≤ p.maximum_duration_days)
      × (requested ≤ℤ capacity)
unfolding reasons_against
reasons_none p a requested capacity h = (
  eq_of_text_eq a.credential_scope p.credential_scope (ground arith),
  ground arith,
  ground arith,
  ground arith,
)

-- What stands behind a decision.
pub record IsApproved (p : Policy) (a : Application) (as_of : Time) (d : Decision) : Type 0 where
  pub requested : ℤ
  pub income : ℤ
  pub obligations : ℤ
  pub asked : positive_integer a.requested_units ≡ some requested
  pub evidence : authenticated_features a.features as_of p ≡ ok (income, obligations)
  pub scope : a.credential_scope ≡ p.credential_scope
  pub assurance : p.minimum_assurance ≤ a.credential_assurance
  pub duration : a.duration_days ≤ p.maximum_duration_days
  pub covered : requested ≤ℤ capacity_of income obligations p.income_advance_bps (policy_maximum p)
  pub capped :
      capacity_of income obligations p.income_advance_bps (policy_maximum p) ≤ℤ policy_maximum p
  pub exposure :
      d.maximum_exposure_units
      ≡ to_string (capacity_of income obligations p.income_advance_bps (policy_maximum p))

module _ (evidence_root : List FeatureEvidence → String) where
  decide_on-IsApproved :
      (p : Policy) (a : Application) (as_of : Time) (requested : ℤ) (features : ℤ × ℤ)
      → positive_integer a.requested_units ≡ some requested
      → authenticated_features a.features as_of p ≡ ok features
      → (decide_on evidence_root p a as_of requested features).approved ≡ true
      → IsApproved p a as_of (decide_on evidence_root p a as_of requested features)
  unfolding decide_on
  decide_on-IsApproved p a as_of requested (income, obligations) asked evidence h =
      let c = capacity_of income obligations p.income_advance_bps (policy_maximum p) in
      let (scope, assurance, duration, covered) = reasons_none p a requested c h in
      record {
        requested = requested;
        income = income;
        obligations = obligations;
        asked = asked;
        evidence = evidence;
        scope = scope;
        assurance = assurance;
        duration = duration;
        covered = covered;
        capped = capacity_le income obligations p.income_advance_bps (policy_maximum p);
        exposure = refl;
      }

  decide-cases :
      (p : Policy) (a : Application) (as_of : Time) {d : Decision}
      → decide evidence_root p a as_of ≡ ok d
      → (requested : ℤ) × (features : ℤ × ℤ) × (positive_integer a.requested_units ≡ some requested)
        × (authenticated_features a.features as_of p ≡ ok features)
        × (decide_on evidence_root p a as_of requested features ≡ d)
  unfolding decide
  decide-cases p a as_of h = elim (Option-cases (positive_integer a.requested_units)) [
    | inl q ↦ absurd (ground arith)
    | inr (requested, q) ↦ elim (Result-cases (authenticated_features a.features as_of p)) [
      | inl (e, k) ↦ absurd (ground arith)
      | inr (features, k) ↦ (requested, features, q, k, ground arith)
    ]
  ]

  -- An application is approved only if its evidence is accepted, its credential has the scope and the
  -- assurance of the policy, its duration is within the policy's, and it asks for no more than the
  -- capacity, which is at most the policy's maximum and is the exposure that the decision states.
  pub decide_approves :
      (p : Policy) (a : Application) (as_of : Time) (d : Decision)
      → decide evidence_root p a as_of ≡ ok d
      → d.approved ≡ true
      → IsApproved p a as_of d
  decide_approves p a as_of d h approved =
      let (requested, features, asked, evidence, same) = decide-cases p a as_of h in
      subst (IsApproved p a as_of) same (
        decide_on-IsApproved p a as_of requested features asked evidence
          (ap (λ x. x.approved) same ∙ approved))

  -- Every application that is complete, asks for a positive amount and has accepted evidence gets a
  -- decision; it is an approval where the credential, the duration and the amount are within the
  -- policy and the capacity.
  pub decide_completes :
      (p : Policy) (a : Application) (as_of : Time) (requested income obligations : ℤ)
      → bad_application p a as_of ≡ false
      → positive_integer a.requested_units ≡ some requested
      → leb_ℤ requested (pos 0) ≡ false
      → authenticated_features a.features as_of p ≡ ok (income, obligations)
      → (d : Decision) × (decide evidence_root p a as_of ≡ ok d)
        × (a.credential_scope ≡ p.credential_scope
            → p.minimum_assurance ≤ a.credential_assurance
            → a.duration_days ≤ p.maximum_duration_days
            → requested ≤ℤ capacity_of income obligations p.income_advance_bps (policy_maximum p)
            → d.approved ≡ true)
  decide_completes p a as_of requested income obligations complete asked positive evidence = (
    decide_on evidence_root p a as_of requested (income, obligations),
    unfold decide in ground (arith, complete, asked, positive, evidence),
    λ scope assurance duration covered.
        unfold decide_on in
        unfold reasons_against in
        ground (
          arith,
          assurance,
          duration,
          covered,
          scope,
          eq_iff a.credential_scope p.credential_scope,
        ),
  )
