-- ===== src/Allocation/Tests.antt =====
-- Runs of the projector, and the theorems at those inputs: a payment of 70 on a debt of 50.
use unified.Base.{◌↔◌, String, ◌≡◌, refl, [], ◌∷◌, lookup, insert, ok, ◌+ℤ◌, ◌-ℤ◌}
use unified.Decimal.{set_string, to_string}
use unified.AllocationMode.{
  Registry, claim_mode, store_synthetic, claim_synthetic, valid_durable_claim, allocation_taken,
  publish, is_reversed, owned_by_other,
}
use unified.Allocation.{
  Obligation, FinalPayment, Request, Allocation, Accounting, Engine, canonical_positive,
  canonical_non_negative, parsed, valid_obligation, valid_final_payment, load_obligations, new,
  covered, allocation_of, commit_allocation, obligation_or_zero, obligation_refused,
  book_allocation, claim_allocation, allocate_to, bad_request, allocate_fresh, allocate,
  none_pending, release_eligible, invalid_allocation, true,
}
use unified.Allocation.Waterfall.{IsAllocated, allocate_conserves}
use unified.Allocation.Failures.{SameBooks, allocate_error_keeps}
use unified.Allocation.Release.{IsReleasable, release_eligible-IsReleasable}

-- What a run computes with.
running : Unit {0}
unfolding lookup insert set_string to_string parsed canonical_positive canonical_non_negative
    valid_obligation valid_final_payment covered load_obligations new allocate allocate_fresh
    allocate_to claim_allocation book_allocation bad_request obligation_refused allocation_of
    commit_allocation obligation_or_zero none_pending release_eligible claim_mode store_synthetic
    claim_synthetic valid_durable_claim allocation_taken publish is_reversed owned_by_other ◌+ℤ◌
    ◌-ℤ◌
running = tt

abbrev pub loan : Obligation
loan = record {
  loan_id = "l1";
  borrower_id = "b";
  lender_id = "l";
  asset_id = "usd";
  outstanding_principal_units = "50";
  version = 1;
  source_authority = "s";
  source_evidence_hash = "h";
  as_of = 1;
}

abbrev pub final_payment : FinalPayment
final_payment = record {
  payment_id = "p1";
  provider_id = "v";
  provider_reference = "r";
  asset_id = "usd";
  units = "70";
  status = "FINAL";
  payment_version = 1;
  reconciliation_id = "c";
  difference_units = "0";
  unmatched_items = 0;
  finality_policy_hash = "f";
  reversal_deadline = 9;
  evidence_hash = "e";
  finalized_at = 2;
}

abbrev pub request : Request
request = record {
  allocation_id = "a1";
  payment = final_payment;
  loan_id = "l1";
  expected_obligation_version = 1;
  waterfall_policy_hash = "w";
  correlation_id = "k";
  evidence_hash = "e";
  allocated_at = 3;
}

abbrev pub books : Accounting
books = record {
  apply_allocation = λ a. ok ("j1" ∷ []);
  reverse_allocation = λ a q. ok ("j2" ∷ []);
}

abbrev pub allocation_id : Request → String
allocation_id q = "a1"

abbrev pub digest : Allocation → FinalPayment → Obligation → String
digest a p o = "d"

abbrev pub latch : Registry
latch = record {
  by_payment = [];
  by_allocation = [];
  reversed = [];
  store = record { claims = [] };
}

abbrev pub engine : Engine
engine = record {
  obligations = ("l1", loan) ∷ [];
  allocations = [];
  by_payment = [];
  reversals = [];
  modes = latch;
}

engine_is_new : new (loan ∷ []) latch ≡ ok engine
unfolding running
engine_is_new = refl

abbrev pub allocation : Allocation
allocation = record {
  allocation_id = "a1";
  payment_id = "p1";
  loan_id = "l1";
  provider_id = "v";
  provider_reference = "r";
  asset_id = "usd";
  payment_version = 1;
  payment_evidence_hash = "e";
  payment_finalized_at = 2;
  gross_units = "70";
  principal_units = "50";
  refundable_excess_units = "20";
  debt_before_units = "50";
  debt_after_units = "0";
  obligation_version_before = 1;
  obligation_version_after = 2;
  waterfall_policy_hash = "w";
  finality_policy_hash = "f";
  reconciliation_id = "c";
  reversal_deadline = 9;
  correlation_id = "k";
  evidence_hash = "e";
  claim_digest = "d";
  journal_ids = "j1" ∷ [];
  allocated_at = 3;
}

abbrev pub after_allocation : Engine
after_allocation = (allocate books allocation_id digest request engine).1

allocate_conserves_example :
    IsAllocated books allocation_id digest request loan 50 allocation after_allocation
unfolding running
allocate_conserves_example =
    allocate_conserves books allocation_id digest request engine loan 50 allocation after_allocation
      refl refl refl refl

release_eligible-IsReleasable_example :
    (release_eligible "a1" 9 after_allocation ≡ true) ↔ IsReleasable "a1" 9 after_allocation
release_eligible-IsReleasable_example = release_eligible-IsReleasable "a1" 9 after_allocation

-- The allocation can be released from its deadline on.
a1_eligible : IsReleasable "a1" 9 after_allocation
unfolding running
a1_eligible = (release_eligible-IsReleasable "a1" 9 after_allocation).0 refl

-- The same request by another payment, for a version that the obligation no longer has.
abbrev stale : Request
stale = record request { payment = record final_payment { payment_id = "p2" } }

allocate_error_keeps_example :
    SameBooks books allocation_id digest after_allocation
      (allocate books allocation_id digest stale after_allocation).1
unfolding running
allocate_error_keeps_example =
    allocate_error_keeps books allocation_id digest stale after_allocation {e = invalid_allocation}
      refl
