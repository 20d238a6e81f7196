-- ===== src/Allocation/Release.antt =====
-- What `ReleaseEligible` of services/payment-orchestrator/allocation/allocation.go promises.
use unified.Base.{
  ◌≤◌, String, ◌≡◌, refl, ◌≢◌, ◌↔◌, ◌⊎◌, inl, inr, true, false, some, [], ◌∷◌, arith, eq_iff, ◌=ₛ◌,
  ◌≠ₛ◌, Bool-cases, Option-cases, eq_of_text_eq, All, Dict, lookup, contains, Time, is_zero,
}
use unified.Allocation.{
  Allocation, Reversal, Engine, obligation_or_zero, none_pending, release_eligible,
}

-- The allocation is of another loan, reversed, or past its deadline.
abbrev Clears : String → Time → Dict Reversal → String × Allocation → Type 0
Clears loan_id as_of reversals (other_id, other) =
    (other.loan_id ≢ loan_id)
    ⊎ (contains other_id reversals ≡ true)
    ⊎ (other.reversal_deadline ≤ as_of)

none_pending_sound :
    (loan_id : String) (as_of : Time) (allocations : Dict Allocation) (reversals : Dict Reversal)
    → none_pending loan_id as_of allocations reversals ≡ true
    → All (Clears loan_id as_of reversals) allocations
unfolding none_pending
none_pending_sound loan_id as_of [] reversals h = tt
none_pending_sound loan_id as_of ((j, o) ∷ rest) reversals h =
    let three : ((o.loan_id ≠ₛ loan_id) ≡ true)
        ⊎ (contains j reversals ≡ true)
        ⊎ (o.reversal_deadline ≤ as_of) =
      ground arith in
    let clear : Clears loan_id as_of reversals (j, o) = elim three [
      | inl e ↦ inl (λ q. absurd (ground (arith, eq_iff o.loan_id loan_id, q)))
      | inr (inl e) ↦ inr (inl e)
      | inr (inr e) ↦ inr (inr e)
    ] in
    (clear, none_pending_sound loan_id as_of rest reversals (ground arith))

none_pending_complete :
    (loan_id : String) (as_of : Time) (allocations : Dict Allocation) (reversals : Dict Reversal)
    → All (Clears loan_id as_of reversals) allocations
    → none_pending loan_id as_of allocations reversals ≡ true
unfolding none_pending
none_pending_complete loan_id as_of [] reversals h = refl
none_pending_complete loan_id as_of ((j, o) ∷ rest) reversals (clear, h) =
    let more = none_pending_complete loan_id as_of rest reversals h in
    elim clear [
      | inl e ↦ elim (Bool-cases (o.loan_id =ₛ loan_id)) [
        | inl q ↦ absurd (e (eq_of_text_eq o.loan_id loan_id q))
        | inr q ↦ ground arith
      ]
      | inr (inl e) ↦ ground arith
      | inr (inr e) ↦ ground arith
    ]

-- What an allocation that is eligible for release is.
pub record IsReleasable (allocation_id : String) (as_of : Time) (g : Engine) : Type 0 where
  pub allocation : Allocation
  pub dated : is_zero as_of ≡ false
  pub found : lookup allocation_id g.allocations ≡ some allocation
  pub stands : contains allocation_id g.reversals ≡ false
  pub past : allocation.reversal_deadline ≤ as_of
  pub repaid : (obligation_or_zero allocation.loan_id g).outstanding_principal_units ≡ "0"
  pub none_open : All (Clears allocation.loan_id as_of g.reversals) g.allocations

eligible_sound :
    (allocation_id : String) (as_of : Time) (g : Engine)
    → release_eligible allocation_id as_of g ≡ true
    → IsReleasable allocation_id as_of g
unfolding release_eligible
eligible_sound allocation_id as_of g h = elim (Option-cases (lookup allocation_id g.allocations)) [
  | inl q ↦ absurd (ground arith)
  | inr (a, q) ↦ record {
    allocation = a;
    dated = ground arith;
    found = q;
    stands = ground arith;
    past = ground arith;
    repaid =
        eq_of_text_eq (obligation_or_zero a.loan_id g).outstanding_principal_units "0"
          (ground arith);
    none_open = none_pending_sound a.loan_id as_of g.allocations g.reversals (ground arith);
  }
]

eligible_complete :
    (allocation_id : String) (as_of : Time) (g : Engine)
    → IsReleasable allocation_id as_of g
    → release_eligible allocation_id as_of g ≡ true
unfolding release_eligible
eligible_complete allocation_id as_of g r =
    let a = r.allocation in
    let found = r.found in
    let dated = r.dated in
    let stands = r.stands in
    let past = r.past in
    let repaid = r.repaid in
    let rest = none_pending_complete a.loan_id as_of g.allocations g.reversals r.none_open in
    ground (arith, eq_iff (obligation_or_zero a.loan_id g).outstanding_principal_units "0")

-- ReleaseEligible answers true just for a time that is set and an allocation that is filed and not
-- reversed, is past its deadline and has a loan with no outstanding principal, where every allocation of
-- that loan is reversed or past its deadline.
pub release_eligible-IsReleasable :
    (allocation_id : String) (as_of : Time) (g : Engine)
    → (release_eligible allocation_id as_of g ≡ true) ↔ IsReleasable allocation_id as_of g
release_eligible-IsReleasable allocation_id as_of g =
    (eligible_sound allocation_id as_of g, eligible_complete allocation_id as_of g)
