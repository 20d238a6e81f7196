-- ===== src/Payment/Checks/Equality.antt =====
-- The comparisons of services/payment-orchestrator/payment/payment.go: `bytes.Equal`, and `==` on structs.
use unified.Base.{Bool, true, false, ◌&&◌, [], ◌∷◌, ◌==◌, ◌=ₛ◌}
use unified.Payment.Types.{Consumption, Bytes, Intent, same_rail, same_status}

unfoldable pub same_bytes : Bytes → Bytes → Bool
same_bytes [] [] = true
same_bytes (x ∷ xs) (y ∷ ys) = (x == y) && same_bytes xs ys
same_bytes _ _ = false

-- `existing == intent`
unfoldable pub same_intent : Intent → Intent → Bool
same_intent a b =
    (a.payment_id =ₛ b.payment_id)
    && (a.legal_entity_id =ₛ b.legal_entity_id)
    && (a.idempotency_key =ₛ b.idempotency_key)
    && (a.correlation_id =ₛ b.correlation_id)
    && (a.payer_reference =ₛ b.payer_reference)
    && (a.loan_id =ₛ b.loan_id)
    && (a.provider_id =ₛ b.provider_id)
    && (a.provider_reference =ₛ b.provider_reference)
    && same_rail a.rail b.rail
    && (a.purpose =ₛ b.purpose)
    && (a.asset_id =ₛ b.asset_id)
    && (a.units =ₛ b.units)
    && (a.expires_at == b.expires_at)
    && (a.schema_version == b.schema_version)
    && same_status a.status b.status
    && (a.version == b.version)
    && (a.created_at == b.created_at)
    && (a.updated_at == b.updated_at)
    && (a.provisional_at == b.provisional_at)
    && (a.finalized_at == b.finalized_at)
    && (a.reversed_at == b.reversed_at)

-- `existing != consumption`, negated.
unfoldable pub same_consumption : Consumption → Consumption → Bool
same_consumption a b =
    (a.quarantine_id =ₛ b.quarantine_id)
    && (a.ingress_id == b.ingress_id)
    && (a.payment_id =ₛ b.payment_id)
    && (a.allocation_id =ₛ b.allocation_id)
    && (a.instruction_digest =ₛ b.instruction_digest)
    && (a.provider_id =ₛ b.provider_id)
    && (a.provider_event_id =ₛ b.provider_event_id)
    && (a.provider_reference =ₛ b.provider_reference)
    && (a.asset_id =ₛ b.asset_id)
    && (a.units =ₛ b.units)
    && (a.raw_hash =ₛ b.raw_hash)
    && (a.signature_hash =ₛ b.signature_hash)
    && (a.callback_evidence_hash =ₛ b.callback_evidence_hash)
    && (a.callback_expires_at == b.callback_expires_at)
    && (a.callback_occurred_at == b.callback_occurred_at)
    && (a.callback_received_at == b.callback_received_at)
    && (a.resolution_id =ₛ b.resolution_id)
    && (a.resolution_evidence_hash =ₛ b.resolution_evidence_hash)
    && (a.resolved_by =ₛ b.resolved_by)
    && (a.resolved_at == b.resolved_at)
    && (a.gateway_event_id =ₛ b.gateway_event_id)
    && (a.gateway_transaction_hash =ₛ b.gateway_transaction_hash)
    && (a.gateway_raw_payload_hash =ₛ b.gateway_raw_payload_hash)
    && (a.finality_evidence_hash =ₛ b.finality_evidence_hash)
