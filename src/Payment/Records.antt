-- ===== src/Payment/Records.antt =====
-- What services/payment-orchestrator/payment/payment.go writes and hands on for a callback.
use unified.Base.{
  ℕ, ◌+◌, String, Bool, false, not, ◌&&◌, ◌||◌, Option, none, some, List, ◌≠ₛ◌, is_empty,
  if◌then◌else◌, Time, after,
}
use Prim.Native.String.{◌++◌ as ◌++ₛ◌}
use unified.AllocationMode.{
  Claim, ReversalDisposition, reversal_unclaimed, reversal_synthetic, reversal_released,
  reversal_quarantined, reversal_incident,
}
use unified.Payment.Types.{
  Status, Bytes, Provider, Intent, Callback, Transition, CallbackResult, Quarantine,
  CanonicalIncident, ReversalRecord, same_rail, same_status, created, provisional, final, reversed,
  other_status,
}
use unified.Payment.Checks.{u64, day, encodable, same_bytes, six_digits, canonical_payment_event_id}

-- What a call has of its arguments after the first lines.
pub record Ingress : Type 0 where
  pub provider_id : String
  pub provider_event_id : String
  pub raw_hash : String
  pub signature_hash : String
  pub ingress_id : ℕ
  pub received_at : Time

-- `orchestrator.quarantine`: the record of the given number.
unfoldable pub quarantine_record : ℕ → Ingress → String → String → String → Quarantine
quarantine_record sequence i payment_id evidence_hash reason = record {
  quarantine_id = "quarantine-" ++ₛ six_digits sequence;
  provider_id = i.provider_id;
  provider_event_id = i.provider_event_id;
  payment_id = payment_id;
  raw_hash = i.raw_hash;
  evidence_hash = evidence_hash;
  reason_code = reason;
  received_at = i.received_at;
  owner = "payment-operations";
  resolution_deadline = i.received_at + day;
}

unfoldable pub result_of : Ingress → Intent → List String → String → CallbackResult
result_of i payment journal_ids disposition = record {
  provider_id = i.provider_id;
  provider_event_id = i.provider_event_id;
  raw_hash = i.raw_hash;
  payment = payment;
  journal_ids = journal_ids;
  replayed = false;
  disposition = disposition;
}

-- The payment in its next status, with the provider's reference where it has none.
unfoldable pub advanced : Status → Intent → Callback → Time → Intent
advanced status current c at = record current {
  status = status;
  version = u64 (current.version + 1);
  updated_at = at;
  provider_reference =
      if is_empty current.provider_reference
      then c.provider_reference
      else current.provider_reference;
  provisional_at = if same_status status provisional then at else current.provisional_at;
  finalized_at = if same_status status final then at else current.finalized_at;
  reversed_at = if same_status status reversed then at else current.reversed_at;
}

unfoldable pub transition_of : Intent → Status → Callback → Time → Transition
transition_of next from c at = record {
  payment = next;
  before_status = from;
  after_status = next.status;
  provider_event_id = c.provider_event_id;
  occurred_at = c.occurred_at;
  received_at = at;
  evidence_hash = c.evidence_hash;
}

unfoldable pub reversal_record : ℕ → Ingress → Callback → ReversalRecord
reversal_record quarantines i c = record {
  quarantine_id = "quarantine-" ++ₛ six_digits (quarantines + 1);
  resolution_id = "";
  ingress_id = i.ingress_id;
  payment_id = c.payment_id;
  allocation_id = "";
  instruction_digest = "";
  provider_id = c.provider_id;
  provider_event_id = c.provider_event_id;
  reversal_event_id = canonical_payment_event_id c.provider_id c.provider_event_id;
  provider_reference = c.provider_reference;
  asset_id = c.asset_id;
  units = c.units;
  raw_hash = i.raw_hash;
  signature_hash = i.signature_hash;
  callback_evidence_hash = c.evidence_hash;
  callback_expires_at = c.expires_at;
  failure_proof = "";
  resolution_evidence = "";
  resolved_by = "";
  occurred_at = c.occurred_at;
  received_at = i.received_at;
}

unfoldable pub incident_record : ℕ → Ingress → Callback → Claim → CanonicalIncident
incident_record sequence i c claim = record {
  incident_id = "canonical-incident-" ++ₛ six_digits sequence;
  payment_id = c.payment_id;
  allocation_id = claim.allocation_id;
  claim_digest = claim.digest;
  provider_id = i.provider_id;
  provider_event_id = i.provider_event_id;
  provider_reference = c.provider_reference;
  raw_hash = i.raw_hash;
  evidence_hash = c.evidence_hash;
  reason_code = "PROVIDER_CONTRADICTION_AFTER_CANONICAL_SETTLEMENT";
  occurred_at = c.occurred_at;
  received_at = i.received_at;
}

-- `string(disposition)`
unfoldable pub disposition_text : ReversalDisposition → String
disposition_text reversal_unclaimed = "UNCLAIMED"
disposition_text reversal_synthetic = "SYNTHETIC"
disposition_text reversal_released = "RELEASED"
disposition_text reversal_quarantined = "QUARANTINED"
disposition_text reversal_incident = "INCIDENT"

-- The binding of a callback to its payment.
unfoldable pub unbound : Ingress → Provider → Callback → Intent → Bool
unbound i provider c current =
    (current.provider_id ≠ₛ i.provider_id)
    || not (same_rail current.rail provider.rail)
    || (current.asset_id ≠ₛ c.asset_id)
    || (current.units ≠ₛ c.units)
    || (not (is_empty current.provider_reference)
        && (current.provider_reference ≠ₛ c.provider_reference))
    || (same_status current.status created && after i.received_at current.expires_at)

-- The binding of a callback to its envelope.
unfoldable pub misaddressed : Ingress → Provider → Callback → Bool
misaddressed i provider c =
    (c.provider_id ≠ₛ i.provider_id)
    || (c.provider_event_id ≠ₛ i.provider_event_id)
    || (c.asset_id ≠ₛ provider.asset_id)
    || after i.received_at c.expires_at

abbrev pub zero_callback : Callback
zero_callback = record {
  provider_id = "";
  provider_event_id = "";
  payment_id = "";
  provider_reference = "";
  status = other_status "";
  asset_id = "";
  units = "";
  occurred_at = 0;
  expires_at = 0;
  evidence_hash = "";
}

-- SHA-256, the check of an Ed25519 signature over the domain-separated digest, and encoding/json: the
-- callback of a text that is one JSON value without unknown fields, and the encoding.
pub record Codec : Type 0 where
  pub hash_bytes : Bytes → String
  pub verify : Bytes → Bytes → Bytes → Bool
  pub unmarshal : Bytes → Option Callback
  pub marshal : Callback → Option Bytes

unfoldable pub encode_callback : Codec → Callback → Option Bytes
encode_callback k c = if encodable c then k.marshal c else none

unfoldable pub decode_callback : Codec → Bytes → Option Callback
decode_callback k raw = elim (k.unmarshal raw) [
  | none ↦ none
  | some c ↦ elim (encode_callback k c) [
    | none ↦ none
    | some canonical ↦ if same_bytes canonical raw then some c else none
  ]
]
