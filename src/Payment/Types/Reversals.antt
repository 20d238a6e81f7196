-- ===== src/Payment/Types/Reversals.antt =====
-- The records of reversals that services/payment-orchestrator/payment/payment.go keeps and exchanges with
-- the coordinator of canonical settlements.
use unified.Base.{ℕ, String, List, Time}

pub record CanonicalIncident : Type 0 where
  pub incident_id : String
  pub payment_id : String
  pub allocation_id : String
  pub claim_digest : String
  pub provider_id : String
  pub provider_event_id : String
  pub provider_reference : String
  pub raw_hash : String
  pub evidence_hash : String
  pub reason_code : String
  pub occurred_at : Time
  pub received_at : Time

-- `FailureProof` is the hash that its evidence has.
pub record ReversalRecord : Type 0 where
  pub quarantine_id : String
  pub resolution_id : String
  pub ingress_id : ℕ
  pub payment_id : String
  pub allocation_id : String
  pub instruction_digest : String
  pub provider_id : String
  pub provider_event_id : String
  pub reversal_event_id : String
  pub provider_reference : String
  pub asset_id : String
  pub units : String
  pub raw_hash : String
  pub signature_hash : String
  pub callback_evidence_hash : String
  pub callback_expires_at : Time
  pub failure_proof : String
  pub resolution_evidence : String
  pub resolved_by : String
  pub occurred_at : Time
  pub received_at : Time

pub record ResolutionRequest : Type 0 where
  pub quarantine_id : String
  pub resolution_id : String
  pub payment_id : String
  pub allocation_id : String
  pub instruction_digest : String
  pub failure_proof : String
  pub resolution_evidence_hash : String
  pub resolved_by : String
  pub resolved_at : Time

pub record ResolutionRecord : Type 0 where
  pub quarantine_id : String
  pub resolution_id : String
  pub payment_id : String
  pub allocation_id : String
  pub instruction_digest : String
  pub provider_id : String
  pub provider_event_id : String
  pub provider_reference : String
  pub asset_id : String
  pub units : String
  pub raw_hash : String
  pub request_digest : String
  pub canonical_failure_evidence_hash : String
  pub resolution_evidence_hash : String
  pub resolved_by : String
  pub resolved_at : Time
  pub journal_ids : List String

pub record Consumption : Type 0 where
  pub quarantine_id : String
  pub ingress_id : ℕ
  pub payment_id : String
  pub allocation_id : String
  pub instruction_digest : String
  pub provider_id : String
  pub provider_event_id : String
  pub provider_reference : String
  pub asset_id : String
  pub units : String
  pub raw_hash : String
  pub signature_hash : String
  pub callback_evidence_hash : String
  pub callback_expires_at : Time
  pub callback_occurred_at : Time
  pub callback_received_at : Time
  pub resolution_id : String
  pub resolution_evidence_hash : String
  pub resolved_by : String
  pub resolved_at : Time
  pub gateway_event_id : String
  pub gateway_transaction_hash : String
  pub gateway_raw_payload_hash : String
  pub finality_evidence_hash : String
