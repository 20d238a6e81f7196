-- ===== src/Payment/Checks.antt =====
-- The tests of services/payment-orchestrator/payment/payment.go, and the texts that it builds.
mod Equality
unfoldable pub use Equality.*
use unified.Base.{
  ℕ, ◌%◌, String, Bool, true, false, not, ◌&&◌, ◌||◌, Option, none, some, List, [], ◌∷◌, ltb, ◌==◌,
  ◌=ₛ◌, is_empty, if◌then◌else◌, length, Dict, insert, contains, ℤ, pos, ltb_ℤ, Time, is_zero,
  before, after,
}
use Prim.Native.String.{◌++◌ as ◌++ₛ◌}
use unified.Decimal.{set_string, to_string}
use unified.Payment.Types.{
  Rail, Status, Bytes, Provider, Intent, Callback, ReversalRecord, ResolutionRequest, Consumption,
  same_rail, same_status, other_rail, created, processing, provisional, final, failed, reversed,
  other_status,
}

abbrev pub u64 : ℕ → ℕ
u64 n = n % 18446744073709551616

-- The separator U+0000 of the keys.
abbrev pub separator : String
separator = String.◌∷◌ Prim.Native.Char.nul ""

abbrev pub max_callback_bytes : ℕ
max_callback_bytes = 65536

-- `24 * time.Hour`
abbrev pub day : ℕ
day = 86400000000000

unfoldable pub valid_rail : Rail → Bool
valid_rail (other_rail s) = false
valid_rail _ = true

unfoldable pub allowed_transition : Status → Status → Bool
allowed_transition created to = same_status to processing || same_status to failed
allowed_transition processing to = same_status to provisional || same_status to failed
allowed_transition provisional to = same_status to final || same_status to reversed
allowed_transition final to = same_status to reversed
allowed_transition _ to = false

unfoldable pub accounting_transition : Status → Bool
accounting_transition status =
    same_status status provisional || same_status status final || same_status status reversed

unfoldable pub callback_status : Status → Bool
callback_status processing = true
callback_status provisional = true
callback_status final = true
callback_status failed = true
callback_status reversed = true
callback_status _ = false

-- `positiveInteger` with the test of the sign.
abbrev pub positive_text : String → Option ℤ → Bool
positive_text s none = false
positive_text s (some z) = ltb_ℤ (pos 0) z && (to_string z =ₛ s)

unfoldable pub positive_units : String → Bool
positive_units s = positive_text s (set_string s)

-- `EncodeCallback` up to the encoding.
unfoldable pub encodable : Callback → Bool
encodable c =
    not (is_empty c.provider_id)
    && not (is_empty c.provider_event_id)
    && not (is_empty c.payment_id)
    && not (is_empty c.provider_reference)
    && callback_status c.status
    && not (is_empty c.asset_id)
    && not (is_zero c.occurred_at)
    && not (is_zero c.expires_at)
    && not (after c.occurred_at c.expires_at)
    && not (is_empty c.evidence_hash)
    && positive_units c.units

unfoldable pub valid_canonical_consumption : Consumption → Bool
valid_canonical_consumption c =
    not (is_empty c.quarantine_id)
    && ltb 0 c.ingress_id
    && not (is_empty c.payment_id)
    && not (is_empty c.allocation_id)
    && not (is_empty c.instruction_digest)
    && not (is_empty c.provider_id)
    && not (is_empty c.provider_event_id)
    && not (is_empty c.provider_reference)
    && not (is_empty c.asset_id)
    && not (is_empty c.units)
    && not (is_empty c.raw_hash)
    && not (is_empty c.signature_hash)
    && not (is_empty c.callback_evidence_hash)
    && not (is_zero c.callback_expires_at)
    && not (is_zero c.callback_occurred_at)
    && not (is_zero c.callback_received_at)
    && not (before c.callback_received_at c.callback_occurred_at)
    && not (after c.callback_received_at c.callback_expires_at)
    && (c.resolution_id =ₛ "canonical-success:" ++ₛ c.gateway_event_id)
    && not (is_empty c.resolution_evidence_hash)
    && (c.resolved_by =ₛ "canonical-chain-indexer")
    && not (is_zero c.resolved_at)
    && not (before c.resolved_at c.callback_received_at)
    && not (is_empty c.gateway_event_id)
    && not (is_empty c.gateway_transaction_hash)
    && not (is_empty c.gateway_raw_payload_hash)
    && (c.finality_evidence_hash =ₛ c.resolution_evidence_hash)

-- `fmt.Sprintf("%06d", n)`
unfoldable pub six_digits : ℕ → String
six_digits n =
    (if ltb n 10
      then "00000"
      else if ltb n 100
      then "0000"
      else if ltb n 1000
      then "000"
      else if ltb n 10000
      then "00"
      else if ltb n 100000
      then "0"
      else "")
    ++ₛ to_string (pos n)

unfoldable pub event_key : String → String → String
event_key provider_id event_id = provider_id ++ₛ separator ++ₛ event_id

unfoldable pub canonical_payment_event_id : String → String → String
canonical_payment_event_id provider_id event_id = provider_id ++ₛ ":" ++ₛ event_id

-- The loop of `New` over the providers.
unfoldable pub configure : List Provider → Dict Provider → Option (Dict Provider)
configure [] configured = some configured
configure (p ∷ ps) configured =
    let rest = configure ps (insert p.id p configured) in
    if is_empty p.id
      || not (valid_rail p.rail)
      || not (length p.public_key == 32)
      || is_empty p.asset_id
      || (p.version == 0)
      || contains p.id configured
    then none
    else rest

unfoldable pub bad_pending : ReversalRecord → Bool
bad_pending r =
    is_empty r.quarantine_id
    || (r.ingress_id == 0)
    || is_empty r.payment_id
    || is_empty r.allocation_id
    || is_empty r.instruction_digest
    || is_empty r.provider_id
    || is_empty r.provider_event_id
    || is_empty r.asset_id
    || is_empty r.units
    || is_empty r.raw_hash
    || is_empty r.signature_hash
    || is_empty r.callback_evidence_hash
    || is_zero r.callback_expires_at
    || is_zero r.occurred_at
    || is_zero r.received_at

unfoldable pub bad_new_intent : Intent → Time → Bool
bad_new_intent i now =
    is_zero now
    || is_empty i.payment_id
    || is_empty i.legal_entity_id
    || is_empty i.idempotency_key
    || is_empty i.correlation_id
    || is_empty i.payer_reference
    || is_empty i.provider_id
    || not (is_empty i.provider_reference)
    || is_empty i.purpose
    || is_empty i.asset_id
    || (i.schema_version == 0)
    || not (after i.expires_at now)
    || not (same_status i.status (other_status ""))
    || not (i.version == 0)
    || not (is_zero i.created_at)
    || not (is_zero i.updated_at)
    || not (is_zero i.provisional_at)
    || not (is_zero i.finalized_at)
    || not (is_zero i.reversed_at)
    || not (positive_units i.units)

unfoldable pub bad_restored_intent : Intent → Bool
bad_restored_intent i =
    is_empty i.payment_id
    || is_empty i.provider_id
    || is_empty i.asset_id
    || is_empty i.units
    || (i.version == 0)
    || is_zero i.created_at
    || is_zero i.updated_at

unfoldable pub bad_resolution : ResolutionRequest → Bool
bad_resolution q =
    is_empty q.quarantine_id
    || is_empty q.resolution_id
    || is_empty q.payment_id
    || is_empty q.allocation_id
    || is_empty q.instruction_digest
    || is_empty q.resolution_evidence_hash
    || is_empty q.resolved_by
    || is_zero q.resolved_at
