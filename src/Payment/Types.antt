-- ===== src/Payment/Types.antt =====
-- The data of services/payment-orchestrator/payment/payment.go. A version is a uint64 or a uint32;
-- bytes are numbers. `W` is the state of the accounting and of the coordinator.
mod Reversals
pub use Reversals.*
use unified.Base.{
  ℕ, String, ◌≡◌, refl, ap, Bool, true, false, Option, List, ◌=ₛ◌, eq_of_text_eq, Dict, Result,
  Time,
}
use unified.AllocationMode.{Claim, ReversalDisposition}

-- `type Rail string`
pub data Rail : Type 0 where
  bank card : Rail
  other_rail : String → Rail

-- `type Status string`: the constants, and any other text.
pub data Status : Type 0 where
  created processing provisional final failed reversed disputed : Status
  other_status : String → Status

abbrev pub Bytes : Type 0
Bytes = List ℕ

pub record Provider : Type 0 where
  pub id : String
  pub rail : Rail
  pub public_key : Bytes
  pub active : Bool
  pub asset_id : String
  pub supports_reversal : Bool
  pub version : ℕ

pub record Intent : Type 0 where
  pub payment_id : String
  pub legal_entity_id : String
  pub idempotency_key : String
  pub correlation_id : String
  pub payer_reference : String
  pub loan_id : String
  pub provider_id : String
  pub provider_reference : String
  pub rail : Rail
  pub purpose : String
  pub asset_id : String
  pub units : String
  pub expires_at : Time
  pub schema_version : ℕ
  pub status : Status
  pub version : ℕ
  pub created_at : Time
  pub updated_at : Time
  pub provisional_at : Time
  pub finalized_at : Time
  pub reversed_at : Time

pub record Callback : Type 0 where
  pub provider_id : String
  pub provider_event_id : String
  pub payment_id : String
  pub provider_reference : String
  pub status : Status
  pub asset_id : String
  pub units : String
  pub occurred_at : Time
  pub expires_at : Time
  pub evidence_hash : String

pub record Transition : Type 0 where
  pub payment : Intent
  pub before_status : Status
  pub after_status : Status
  pub provider_event_id : String
  pub occurred_at : Time
  pub received_at : Time
  pub evidence_hash : String

pub record CallbackResult : Type 0 where
  pub provider_id : String
  pub provider_event_id : String
  pub raw_hash : String
  pub payment : Intent
  pub journal_ids : List String
  pub replayed : Bool
  pub disposition : String

pub record RawCallback : Type 0 where
  pub ingress_id : ℕ
  pub provider_id : String
  pub provider_event_id : String
  pub raw_payload : Bytes
  pub raw_hash : String
  pub signature_hash : String
  pub received_at : Time

pub record Quarantine : Type 0 where
  pub quarantine_id : String
  pub provider_id : String
  pub provider_event_id : String
  pub payment_id : String
  pub raw_hash : String
  pub evidence_hash : String
  pub reason_code : String
  pub received_at : Time
  pub owner : String
  pub resolution_deadline : Time

pub record QuarantineResolution : Type 0 where
  pub resolution_id : String
  pub quarantine_id : String
  pub canonical_failure_evidence_hash : String
  pub evidence_hash : String
  pub resolved_by : String
  pub resolved_at : Time

-- The sentinels, and an error of the coordinator that is passed on.
pub data PaymentError : Type 0 where
  invalid_intent invalid_provider idempotency_conflict unknown_payment : PaymentError
  unauthorized_callback invalid_callback callback_conflict invalid_transition : PaymentError
  accounting_failed invalid_resolution canonical_pending canonical_confirmed : PaymentError
  canonical_persistence : PaymentError
  coordinator_failed : String → PaymentError

pub record StoredEvent : Type 0 where
  pub raw_hash : String
  pub result : CallbackResult
  pub error : Option PaymentError

pub record PendingReversal : Type 0 where
  pub event_key : String
  pub ingress_id : ℕ
  pub callback : Callback
  pub raw_hash : String
  pub signature_hash : String
  pub received_at : Time
  pub claim : Claim

-- What the coordinator makes of a reversal: its answer, and the journals of the callback where the
-- callback was run and succeeded.
pub record Handled : Type 0 where
  pub answer : Result String (Claim × ReversalDisposition)
  pub committed : Option (List String)

-- The callback of a reversal: it applies the accounting.
abbrev pub Commit : Type 0 → Type 0
Commit W = W → Result String (List String) × W

-- `Accounting` and `CanonicalReversalCoordinator`.
pub record Services (W : Type 0) : Type 0 where
  pub apply : Transition → W → Result String (List String) × W
  pub handle_provider_reversal : ReversalRecord → Commit W → W → Handled × W
  pub resolve_provider_reversal :
      ReversalRecord → Commit W → W → Result String (List String × String) × W
  pub resolved_provider_reversal : ResolutionRequest → W → Result String (Option ResolutionRecord)
  pub pending_provider_reversals : W → List ReversalRecord
  pub consumed_provider_reversals : W → List Consumption

pub record Orchestrator (W : Type 0) : Type 0 where
  pub providers : Dict Provider
  pub payments : Dict Intent
  pub intent_keys : Dict String
  pub intent_hashes : Dict String
  pub events : Dict StoredEvent
  pub raw_callbacks : List RawCallback
  pub quarantines : List Quarantine
  pub canonical_incidents : List CanonicalIncident
  pub quarantine_resolutions : Dict QuarantineResolution
  pub pending_reversals : Dict PendingReversal
  pub consumed_reversals : Dict Consumption
  pub world : W

-- `(CallbackResult, error)`: an error may come with a result.
pub data Answer : Type 0 where
  answered : CallbackResult → Option PaymentError → Answer
  refused : PaymentError → Answer

abbrev pub same_rail : Rail → Rail → Bool
same_rail bank bank = true
same_rail card card = true
same_rail (other_rail s) (other_rail t) = s =ₛ t
same_rail _ _ = false

abbrev pub same_status : Status → Status → Bool
same_status created created = true
same_status processing processing = true
same_status provisional provisional = true
same_status final final = true
same_status failed failed = true
same_status reversed reversed = true
same_status disputed disputed = true
same_status (other_status s) (other_status t) = s =ₛ t
same_status _ _ = false

pub same_status_lem : (s t : Status) → same_status s t ≡ true → s ≡ t
same_status_lem created created h = refl
same_status_lem processing processing h = refl
same_status_lem provisional provisional h = refl
same_status_lem final final h = refl
same_status_lem failed failed h = refl
same_status_lem reversed reversed h = refl
same_status_lem disputed disputed h = refl
same_status_lem (other_status s) (other_status t) h = ap other_status (eq_of_text_eq s t h)
same_status_lem s t h = absurd (cc)
