-- ===== src/Payment/Callbacks/Writes.antt =====
-- What IngestCallback of services/payment-orchestrator/payment/payment.go writes: quarantines, events,
-- payments, and the outcome of a reversal.
use unified.Base.{◌+◌, String, Option, none, some, List, [], ◌∷◌, ◌++◌, length, insert}
use unified.AllocationMode.{
  Claim, ReversalDisposition, reversal_unclaimed, reversal_synthetic, reversal_released,
  reversal_quarantined, reversal_incident,
}
use unified.Payment.Types.{
  Intent, Callback, CallbackResult, PaymentError, PendingReversal, Orchestrator, Answer,
  canonical_pending, canonical_confirmed, canonical_persistence, answered, refused,
}
use unified.Payment.Checks.{event_key}
use unified.Payment.Records.{
  Ingress, quarantine_record, result_of, incident_record, disposition_text,
}

module _ {W : Type 0} where
  unfoldable pub quarantined : Ingress → String → String → String → Orchestrator W → Orchestrator W
  quarantined i payment_id evidence_hash reason o = record o {
    quarantines =
        o.quarantines
        ++ quarantine_record (length o.quarantines + 1) i payment_id evidence_hash reason ∷ [];
  }

  -- A callback that is refused and quarantined.
  unfoldable pub reject :
      Ingress → Callback → String → PaymentError → Orchestrator W → Answer × Orchestrator W
  reject i c reason error o = (refused error, quarantined i c.payment_id c.evidence_hash reason o)

  -- The answer of an event that is stored with it.
  unfoldable pub store_event :
      Ingress → CallbackResult → Option PaymentError → Orchestrator W → Answer × Orchestrator W
  store_event i result error o = (
    answered result error,
    record o {
      events =
          insert (event_key i.provider_id i.provider_event_id)
            record { raw_hash = i.raw_hash; result = result; error = error } o.events;
    },
  )

  -- `orchestrator.payments[next.PaymentID] = next`
  unfoldable pub put_payment : Intent → Orchestrator W → Orchestrator W
  put_payment next o = record o { payments = insert next.payment_id next o.payments }

  -- The reversal is pending on a canonical settlement.
  unfoldable pub hold_reversal :
      Ingress → Callback → Intent → Claim → Orchestrator W → Answer × Orchestrator W
  hold_reversal i c current claim o =
      let key =
        (quarantine_record (length o.quarantines + 1) i c.payment_id c.evidence_hash
          "CANONICAL_SETTLEMENT_SUBMITTED").quarantine_id in
      let pending : PendingReversal = record {
        event_key = event_key i.provider_id i.provider_event_id;
        ingress_id = i.ingress_id;
        callback = c;
        raw_hash = i.raw_hash;
        signature_hash = i.signature_hash;
        received_at = i.received_at;
        claim = claim;
      } in
      let o' = quarantined i c.payment_id c.evidence_hash "CANONICAL_SETTLEMENT_SUBMITTED" o in
      store_event i (result_of i current [] "QUARANTINED") (some canonical_pending)
        record o' { pending_reversals = insert key pending o'.pending_reversals }

  -- The reversal contradicts a settlement that is confirmed.
  unfoldable pub record_incident :
      Ingress → Callback → Intent → Claim → Orchestrator W → Answer × Orchestrator W
  record_incident i c current claim o =
      store_event i (result_of i current [] "INCIDENT") (some canonical_confirmed) record o {
        canonical_incidents =
            o.canonical_incidents
            ++ incident_record (length o.canonical_incidents + 1) i c claim ∷ [];
      }

  -- The reversal is done, if the callback of the coordinator has been run.
  unfoldable pub finish_reversal :
      Ingress
      → Intent
      → ReversalDisposition
      → Option (List String)
      → Orchestrator W
      → Answer × Orchestrator W
  finish_reversal i next disposition none o = (refused canonical_persistence, o)
  finish_reversal i next disposition (some journal_ids) o =
      store_event i (result_of i next journal_ids (disposition_text disposition)) none
        (put_payment next o)

  -- The `switch` on the disposition.
  unfoldable pub settle_reversal :
      Ingress
      → Callback
      → Intent
      → Intent
      → Claim
      → ReversalDisposition
      → Option (List String)
      → Orchestrator W
      → Answer × Orchestrator W
  settle_reversal i c current next claim reversal_quarantined committed o =
      hold_reversal i c current claim o
  settle_reversal i c current next claim reversal_incident committed o =
      record_incident i c current claim o
  settle_reversal i c current next claim reversal_unclaimed committed o =
      finish_reversal i next reversal_unclaimed committed o
  settle_reversal i c current next claim reversal_synthetic committed o =
      finish_reversal i next reversal_synthetic committed o
  settle_reversal i c current next claim reversal_released committed o =
      finish_reversal i next reversal_released committed o
