-- ===== src/Allocation.antt =====
-- The projector of final payments of services/payment-orchestrator/allocation/allocation.go. A method
-- gives its result and the engine after it; the lock makes each call one step. The two SHA-256
-- digests and the accounting are parameters. A copy of a slice is the value.
pub mod Types
pub mod Checks
pub mod Waterfall
pub mod Failures
pub mod Release
pub mod Tests
unfoldable pub use Types.*
unfoldable pub use Checks.*
use unified.Base.{
  ℕ, zero, suc, ◌+◌, ◌-◌, ◌*◌, ◌/◌, ◌%◌, ◌^◌, ◌≤◌, ◌<◌, min, String, ◌≡◌, refl, sym, ap, ◌∙◌, ◌≢◌,
  ◌↔◌, ◌⊎◌, inl, inr, Bool, true, false, not, ◌&&◌, ◌||◌, Option, none, some, List, [], ◌∷◌, ◌++◌,
  map, arith, eq_iff, eq_refl, ltb, leb, ◌==◌, ◌=ₛ◌, ◌≠ₛ◌, is_empty, if◌then◌else◌, ltb→lt, lt→ltb,
  Bool-cases, Option-cases, eq_of_text_eq, ne_of_text_eq, text_eq_of_ne, length, All, length-append,
  All-append, Dict, lookup, insert, contains, lookup-insert, lookup-insert_self, lookup-empty,
  lookup-insert_cases, lookup-insert_free, contains-insert, insert-All, Result, ok, err, ◌>>=◌,
  ◌>>◌, or_err, Result-cases, >>=-eq-ok, reject_if, ℤ, pos, negsuc, pos_part, neg_part, sub_ℕ, ◌+ℤ◌,
  ◌-ℤ◌, ◌*ℤ◌, quo, ◌≤ℤ◌, ltb_ℤ, leb_ℤ, eqb_ℤ, int_laws, *ℤ-pos, quo-pos, -ℤ-pos, +ℤ-pos,
  eq_of_parts, Time, is_zero, before, after, time_sub, max_duration,
}
use unified.Decimal.{to_string}
use unified.AllocationMode.{Registry, Mode, synthetic_projection, claim_mode}

-- The record of `Allocate` for the units that it computes, without digest and journals.
unfoldable pub allocation_of : Request → Obligation → ℤ → ℤ → ℤ → Allocation
allocation_of q o debt gross principal = record {
  allocation_id = q.allocation_id;
  payment_id = q.payment.payment_id;
  loan_id = q.loan_id;
  provider_id = q.payment.provider_id;
  provider_reference = q.payment.provider_reference;
  asset_id = o.asset_id;
  payment_version = q.payment.payment_version;
  payment_evidence_hash = q.payment.evidence_hash;
  payment_finalized_at = q.payment.finalized_at;
  gross_units = to_string gross;
  principal_units = to_string principal;
  refundable_excess_units = to_string (gross -ℤ principal);
  debt_before_units = to_string debt;
  debt_after_units = to_string (debt -ℤ principal);
  obligation_version_before = o.version;
  obligation_version_after = u64 (o.version + 1);
  waterfall_policy_hash = q.waterfall_policy_hash;
  finality_policy_hash = q.payment.finality_policy_hash;
  reconciliation_id = q.payment.reconciliation_id;
  reversal_deadline = q.payment.reversal_deadline;
  correlation_id = q.correlation_id;
  evidence_hash = q.evidence_hash;
  claim_digest = "";
  journal_ids = [];
  allocated_at = q.allocated_at;
}

-- The writes of `Allocate`.
unfoldable pub commit_allocation : Request → Obligation → Allocation → Engine → Engine
commit_allocation q o a g = record g {
  obligations =
      insert o.loan_id
        record o {
          outstanding_principal_units = a.debt_after_units;
          version = u64 (o.version + 1);
          as_of = q.allocated_at;
          source_authority = "SYNTHETIC_PAYMENT_ALLOCATION";
          source_evidence_hash = q.evidence_hash;
        }
        g.obligations;
  allocations = insert a.allocation_id a g.allocations;
  by_payment = insert a.payment_id a.allocation_id g.by_payment;
}

-- The writes of `Reverse`.
unfoldable pub commit_reversal : ReversalRequest → Obligation → Reversal → Engine → Engine
commit_reversal q o v g = record g {
  obligations =
      insert o.loan_id
        record o {
          outstanding_principal_units = v.debt_after_units;
          version = u64 (o.version + 1);
          as_of = q.reversed_at;
          source_authority = "SYNTHETIC_PAYMENT_REVERSAL";
          source_evidence_hash = q.evidence_hash;
        }
        g.obligations;
  reversals = insert v.allocation_id v g.reversals;
}

unfoldable pub reversal_of : ReversalRequest → Allocation → Obligation → ℤ → ℤ → Reversal
reversal_of q a o current principal = record {
  reversal_id = q.reversal_id;
  allocation_id = a.allocation_id;
  payment_id = a.payment_id;
  loan_id = a.loan_id;
  restored_principal_units = to_string principal;
  removed_excess_units = a.refundable_excess_units;
  debt_before_units = to_string current;
  debt_after_units = to_string (current +ℤ principal);
  obligation_version_before = o.version;
  obligation_version_after = u64 (o.version + 1);
  reason_code = q.reason_code;
  evidence_hash = q.evidence_hash;
  journal_ids = [];
  reversed_at = q.reversed_at;
}

abbrev zero_obligation : Obligation
zero_obligation = record {
  loan_id = "";
  borrower_id = "";
  lender_id = "";
  asset_id = "";
  outstanding_principal_units = "";
  version = 0;
  source_authority = "";
  source_evidence_hash = "";
  as_of = 0;
}

-- `engine.obligations[loanID]`, the zero value where there is none.
unfoldable pub obligation_or_zero : String → Engine → Obligation
obligation_or_zero loan_id g = elim (lookup loan_id g.obligations) [
  | none ↦ zero_obligation
  | some o ↦ o
]

-- `Obligation`
unfoldable pub obligation : String → Engine → Option Obligation
obligation loan_id g = lookup loan_id g.obligations

-- `!exists || …` on the obligation of a request.
unfoldable pub obligation_refused : Request → Obligation → Bool
obligation_refused q o =
    not (o.version == q.expected_obligation_version)
    || (o.asset_id ≠ₛ q.payment.asset_id)
    || before q.allocated_at o.as_of

module _ (accounting : Accounting) (calculate_allocation_id : Request → String)
    (claim_digest : Allocation → FinalPayment → Obligation → String) where
  -- From the journals on.
  unfoldable pub book_allocation :
      Request → Obligation → Allocation → Engine → Result EngineError Allocation × Engine
  book_allocation q o a g = elim (accounting.apply_allocation a) [
    | err text ↦ (err accounting_failed, g)
    | ok journal_ids ↦
        let a' : Allocation = record a { journal_ids = journal_ids } in
        (ok a', commit_allocation q o a' g)
  ]

  -- From the claim of the payment on.
  unfoldable pub claim_allocation :
      Request → Obligation → Allocation → Engine → Result EngineError Allocation × Engine
  claim_allocation q o a g =
      let (answer, modes) =
        claim_mode a.payment_id a.allocation_id synthetic_projection a.claim_digest
          q.payment.payment_version a.evidence_hash a.allocated_at g.modes in
      elim answer [
        | err e ↦ (err allocation_conflict, record g { modes = modes })
        | ok _ ↦ book_allocation q o a record g { modes = modes }
      ]

  -- From the obligation on.
  unfoldable pub allocate_to :
      Request → Obligation → Engine → Result EngineError Allocation × Engine
  allocate_to q o g =
      let debt = parsed o.outstanding_principal_units in
      let gross = parsed q.payment.units in
      let principal = covered gross debt in
      let a = allocation_of q o debt gross principal in
      if obligation_refused q o || eqb_ℤ principal (pos 0)
      then (err invalid_allocation, g)
      else claim_allocation q o record a { claim_digest = claim_digest a q.payment o } g

  unfoldable pub bad_request : Request → Bool
  bad_request q =
      is_empty q.allocation_id
      || (q.allocation_id ≠ₛ calculate_allocation_id q)
      || is_empty q.loan_id
      || is_empty q.waterfall_policy_hash
      || is_empty q.correlation_id
      || is_empty q.evidence_hash
      || is_zero q.allocated_at
      || before q.allocated_at q.payment.finalized_at
      || not (valid_final_payment q.payment)

  unfoldable pub allocate_fresh : Request → Engine → Result EngineError Allocation × Engine
  allocate_fresh q g = elim (lookup q.loan_id g.obligations) [
    | none ↦ (err invalid_allocation, g)
    | some o ↦ allocate_to q o g
  ]

  -- An allocation that is missing is the zero record in Go, whose identifier differs from the
  -- request's, which is not empty.
  unfoldable pub allocate : Request → Engine → Result EngineError Allocation × Engine
  allocate q g =
      if bad_request q
      then (err invalid_allocation, g)
      else elim (lookup q.payment.payment_id g.by_payment) [
        | none ↦ allocate_fresh q g
        | some allocation_id ↦ elim (lookup allocation_id g.allocations) [
          | none ↦ (err allocation_conflict, g)
          | some existing ↦
              if request_matches_allocation q existing
              then (ok existing, g)
              else (err allocation_conflict, g)
        ]
      ]

  unfoldable pub bad_reversal : ReversalRequest → Bool
  bad_reversal q =
      is_empty q.reversal_id
      || is_empty q.allocation_id
      || is_empty q.payment_id
      || is_empty q.provider_id
      || is_empty q.provider_reference
      || (q.status ≠ₛ status_reversed)
      || is_empty q.provider_event_id
      || is_empty q.reason_code
      || is_empty q.evidence_hash
      || is_zero q.reversed_at

  -- From the amounts on.
  unfoldable pub reverse_booked :
      ReversalRequest → Allocation → Obligation → Engine → Result EngineError Reversal × Engine
  reverse_booked q a o g = elim (canonical_non_negative o.outstanding_principal_units) [
    | none ↦ (err invalid_reversal, g)
    | some current ↦ elim (accounting.reverse_allocation a q) [
      | err text ↦ (err accounting_failed, g)
      | ok journal_ids ↦
          let v = reversal_of q a o current (parsed a.principal_units) in
          let v' : Reversal = record v { journal_ids = journal_ids } in
          (ok v', commit_reversal q o v' g)
    ]
  ]

  unfoldable pub reverse_fresh : ReversalRequest → Engine → Result EngineError Reversal × Engine
  reverse_fresh q g = elim (lookup q.allocation_id g.allocations) [
    | none ↦ (err invalid_reversal, g)
    | some a ↦
        let o = obligation_or_zero a.loan_id g in
        if (a.payment_id ≠ₛ q.payment_id)
          || (a.provider_id ≠ₛ q.provider_id)
          || (a.provider_reference ≠ₛ q.provider_reference)
          || not (o.version == q.expected_obligation_version)
          || before q.reversed_at a.allocated_at
        then (err invalid_reversal, g)
        else reverse_booked q a o g
  ]

  unfoldable pub reverse : ReversalRequest → Engine → Result EngineError Reversal × Engine
  reverse q g =
      if bad_reversal q
      then (err invalid_reversal, g)
      else elim (lookup q.allocation_id g.reversals) [
        | none ↦ reverse_fresh q g
        | some existing ↦
            if (existing.reversal_id =ₛ q.reversal_id)
              && (existing.evidence_hash =ₛ q.evidence_hash)
            then (ok existing, g)
            else (err invalid_reversal, g)
      ]

-- The loop of `ReleaseEligible`: every allocation of the loan is reversed or past its deadline.
unfoldable pub none_pending : String → Time → Dict Allocation → Dict Reversal → Bool
none_pending loan_id as_of [] reversals = true
none_pending loan_id as_of ((other_id, other) ∷ rest) reversals =
    ((other.loan_id ≠ₛ loan_id)
      || contains other_id reversals
      || not (before as_of other.reversal_deadline))
    && none_pending loan_id as_of rest reversals

unfoldable pub release_eligible : String → Time → Engine → Bool
release_eligible allocation_id as_of g = elim (lookup allocation_id g.allocations) [
  | none ↦ false
  | some a ↦
      not (is_zero as_of)
      && not (before as_of a.reversal_deadline)
      && not (contains allocation_id g.reversals)
      && ((obligation_or_zero a.loan_id g).outstanding_principal_units =ₛ "0")
      && none_pending a.loan_id as_of g.allocations g.reversals
]
