-- ===== src/Payment/Callbacks.antt =====
-- How a callback moves a payment in services/payment-orchestrator/payment/payment.go: the part of
-- `IngestCallback` for a callback that is authentic.
mod Writes
unfoldable pub use Writes.*
use unified.Base.{
  ◌+◌, String, true, not, ◌&&◌, ◌||◌, Option, none, some, List, [], ◌∷◌, ◌++◌, ltb, ◌==◌, ◌≠ₛ◌,
  is_empty, if◌then◌else◌, length, lookup, insert, ok, err, Time, is_zero,
}
use unified.AllocationMode.{
  Claim, ReversalDisposition, reversal_unclaimed, reversal_synthetic, reversal_released,
  reversal_quarantined, reversal_incident,
}
use unified.Payment.Types.{
  Bytes, Provider, Intent, Callback, Transition, CallbackResult, PaymentError, PendingReversal,
  Commit, Services, Orchestrator, Answer, same_status, reversed, unknown_payment,
  unauthorized_callback, invalid_callback, callback_conflict, invalid_transition, accounting_failed,
  canonical_pending, canonical_confirmed, canonical_persistence, answered, refused,
}
use unified.Payment.Checks.{
  u64, max_callback_bytes, allowed_transition, accounting_transition, event_key,
}
use unified.Payment.Consumptions.{refresh_canonical_consumptions}
use unified.Payment.Records.{
  Ingress, quarantine_record, result_of, advanced, transition_of, reversal_record, incident_record,
  disposition_text, unbound, misaddressed, zero_callback, Codec, decode_callback,
}

module _ {W : Type 0} where
  module _ (s : Services W) where
    -- The accounting as the coordinator's callback runs it.
    unfoldable pub accounting_commit : Transition → Commit W
    accounting_commit t w = s.apply t w

    unfoldable pub reverse_payment :
        Ingress → Callback → Intent → Orchestrator W → Answer × Orchestrator W
    reverse_payment i c current o =
        let next = advanced reversed current c i.received_at in
        let (handled, w) =
          s.handle_provider_reversal (reversal_record (length o.quarantines) i c)
            (accounting_commit (transition_of next current.status c i.received_at)) o.world in
        elim handled.answer [
          | err text ↦ (refused canonical_persistence, record o { world = w })
          | ok decision ↦
              settle_reversal i c current next decision.0 decision.1 handled.committed
                record o { world = w }
        ]

    -- A callback that repeats the status is stored; another moves the payment.
    unfoldable pub advance_payment :
        Ingress → Callback → Intent → Orchestrator W → Answer × Orchestrator W
    advance_payment i c current o =
        let next = advanced c.status current c i.received_at in
        let (answer, w) = s.apply (transition_of next current.status c i.received_at) o.world in
        if same_status c.status current.status
        then store_event i (result_of i current [] "") none o
        else if accounting_transition c.status
        then elim answer [
          | err text ↦ (refused accounting_failed, record o { world = w })
          | ok journal_ids ↦
              store_event i (result_of i next journal_ids "") none
                (put_payment next record o { world = w })
        ]
        else store_event i (result_of i next [] "") none (put_payment next o)

    -- From the tests on the transition on.
    unfoldable pub move_payment :
        Ingress → Provider → Callback → Intent → Orchestrator W → Answer × Orchestrator W
    move_payment i provider c current o =
        if same_status c.status reversed && not provider.supports_reversal
        then reject i c "REVERSAL_UNSUPPORTED" invalid_transition o
        else if (same_status c.status reversed && same_status current.status reversed)
            || (not (same_status c.status current.status)
                && not (allowed_transition current.status c.status))
        then reject i c "CALLBACK_ORDER_INVALID" invalid_transition o
        else if same_status c.status reversed
        then reverse_payment i c current o
        else advance_payment i c current o

    -- From the event on.
    unfoldable pub take_callback :
        Ingress → Provider → Callback → Orchestrator W → Answer × Orchestrator W
    take_callback i provider c o =
        elim (lookup (event_key i.provider_id i.provider_event_id) o.events) [
          | some existing ↦
              if existing.raw_hash ≠ₛ i.raw_hash
              then reject i c "CALLBACK_EVENT_CONFLICT" callback_conflict o
              else (answered record existing.result { replayed = true } existing.error, o)
          | none ↦ elim (lookup c.payment_id o.payments) [
            | none ↦ reject i c "UNKNOWN_PAYMENT" unknown_payment o
            | some current ↦
                if unbound i provider c current
                then reject i c "PAYMENT_BINDING_INVALID" invalid_callback o
                else move_payment i provider c current o
          ]
        ]

module _ {W : Type 0} (s : Services W) (k : Codec) where
  -- From the provider on.
  unfoldable pub authenticate : Ingress → Bytes → Bytes → Orchestrator W → Answer × Orchestrator W
  authenticate i raw signature o = elim (lookup i.provider_id o.providers) [
    | none ↦ reject i zero_callback "CALLBACK_AUTHENTICATION_FAILED" unauthorized_callback o
    | some provider ↦
        if not provider.active || not (k.verify provider.public_key raw signature)
        then reject i zero_callback "CALLBACK_AUTHENTICATION_FAILED" unauthorized_callback o
        else elim (decode_callback k raw) [
          | none ↦ reject i zero_callback "CALLBACK_BINDING_INVALID" invalid_callback o
          | some c ↦
              if misaddressed i provider c
              then reject i c "CALLBACK_BINDING_INVALID" invalid_callback o
              else take_callback s i provider c o
        ]
  ]

  -- The raw callback is retained, without its bytes where they are too many.
  unfoldable pub retain : Ingress → Bytes → Orchestrator W → Orchestrator W
  retain i raw o = record o {
    raw_callbacks =
        o.raw_callbacks
        ++ record {
          ingress_id = i.ingress_id;
          provider_id = i.provider_id;
          provider_event_id = i.provider_event_id;
          raw_payload = if ltb max_callback_bytes (length raw) then [] else raw;
          raw_hash = i.raw_hash;
          signature_hash = i.signature_hash;
          received_at = i.received_at;
        }
          ∷ [];
  }

  unfoldable pub receive : Ingress → Bytes → Bytes → Orchestrator W → Answer × Orchestrator W
  receive i raw signature o =
      if is_empty i.provider_id
        || is_empty i.provider_event_id
        || (length raw == 0)
        || ltb max_callback_bytes (length raw)
      then reject i zero_callback "CALLBACK_ENVELOPE_INVALID" invalid_callback (retain i raw o)
      else authenticate i raw signature (retain i raw o)

  unfoldable pub ingress_of : String → String → Bytes → Bytes → Time → Orchestrator W → Ingress
  ingress_of provider_id provider_event_id raw signature received_at o = record {
    provider_id = provider_id;
    provider_event_id = provider_event_id;
    raw_hash = k.hash_bytes raw;
    signature_hash = k.hash_bytes signature;
    ingress_id = u64 (length o.raw_callbacks + 1);
    received_at = received_at;
  }

  unfoldable pub ingest_callback :
      String → String → Bytes → Bytes → Time → Orchestrator W → Answer × Orchestrator W
  ingest_callback provider_id provider_event_id raw signature received_at o =
      let (error, o') = refresh_canonical_consumptions s o in
      if is_zero received_at then (refused invalid_callback, o) else elim error [
        | some e ↦ (refused e, o')
        | none ↦
            receive (ingress_of provider_id provider_event_id raw signature received_at o') raw
              signature o'
      ]
