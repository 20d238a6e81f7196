-- ===== src/Allocation/Types.antt =====
-- The data of services/payment-orchestrator/allocation/allocation.go. A version is a uint64.
use unified.Base.{ℕ, String, List, Dict, Result, Time}
use unified.AllocationMode.{Registry}

pub record Obligation : Type 0 where
  pub loan_id : String
  pub borrower_id : String
  pub lender_id : String
  pub asset_id : String
  pub outstanding_principal_units : String
  pub version : ℕ
  pub source_authority : String
  pub source_evidence_hash : String
  pub as_of : Time

pub record FinalPayment : Type 0 where
  pub payment_id : String
  pub provider_id : String
  pub provider_reference : String
  pub asset_id : String
  pub units : String
  pub status : String
  pub payment_version : ℕ
  pub reconciliation_id : String
  pub difference_units : String
  pub unmatched_items : ℕ
  pub finality_policy_hash : String
  pub reversal_deadline : Time
  pub evidence_hash : String
  pub finalized_at : Time

pub record Request : Type 0 where
  pub allocation_id : String
  pub payment : FinalPayment
  pub loan_id : String
  pub expected_obligation_version : ℕ
  pub waterfall_policy_hash : String
  pub correlation_id : String
  pub evidence_hash : String
  pub allocated_at : Time

pub record Allocation : Type 0 where
  pub allocation_id : String
  pub payment_id : String
  pub loan_id : String
  pub provider_id : String
  pub provider_reference : String
  pub asset_id : String
  pub payment_version : ℕ
  pub payment_evidence_hash : String
  pub payment_finalized_at : Time
  pub gross_units : String
  pub principal_units : String
  pub refundable_excess_units : String
  pub debt_before_units : String
  pub debt_after_units : String
  pub obligation_version_before : ℕ
  pub obligation_version_after : ℕ
  pub waterfall_policy_hash : String
  pub finality_policy_hash : String
  pub reconciliation_id : String
  pub reversal_deadline : Time
  pub correlation_id : String
  pub evidence_hash : String
  pub claim_digest : String
  pub journal_ids : List String
  pub allocated_at : Time

pub record ReversalRequest : Type 0 where
  pub reversal_id : String
  pub allocation_id : String
  pub payment_id : String
  pub expected_obligation_version : ℕ
  pub provider_id : String
  pub provider_reference : String
  pub status : String
  pub provider_event_id : String
  pub reason_code : String
  pub evidence_hash : String
  pub reversed_at : Time

pub record Reversal : Type 0 where
  pub reversal_id : String
  pub allocation_id : String
  pub payment_id : String
  pub loan_id : String
  pub restored_principal_units : String
  pub removed_excess_units : String
  pub debt_before_units : String
  pub debt_after_units : String
  pub obligation_version_before : ℕ
  pub obligation_version_after : ℕ
  pub reason_code : String
  pub evidence_hash : String
  pub journal_ids : List String
  pub reversed_at : Time

pub data EngineError : Type 0 where
  invalid_obligation invalid_allocation allocation_conflict invalid_reversal accounting_failed :
      EngineError

-- `Accounting`: the identifiers of the journals, or an error text.
pub record Accounting : Type 0 where
  pub apply_allocation : Allocation → Result String (List String)
  pub reverse_allocation : Allocation → ReversalRequest → Result String (List String)

-- `modes` is the shared latch.
pub record Engine : Type 0 where
  pub obligations : Dict Obligation
  pub allocations : Dict Allocation
  pub by_payment : Dict String
  pub reversals : Dict Reversal
  pub modes : Registry
