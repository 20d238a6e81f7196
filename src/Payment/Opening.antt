-- ===== src/Payment/Opening.antt =====
-- How an orchestrator and its payments come about: `New`, `RestorePayment` and `CreateIntent` of
-- services/payment-orchestrator/payment/payment.go.
use unified.Base.{
  ◌+◌, String, not, ◌||◌, Option, none, some, List, [], ◌∷◌, ◌++◌, ◌==◌, ◌≠ₛ◌, if◌then◌else◌,
  length, Dict, lookup, insert, delete, contains, Result, ok, err, Time,
}
use unified.AllocationMode.{Claim, CanonicalState, canonical_gateway}
use unified.Payment.Types.{
  Provider, Intent, Callback, Quarantine, PaymentError, PendingReversal, ReversalRecord, Services,
  Orchestrator, same_rail, other_rail, created, reversed, other_status, invalid_intent,
  invalid_provider, idempotency_conflict, canonical_persistence,
}
use unified.Payment.Checks.{
  day, same_intent, event_key, configure, bad_pending, bad_new_intent, bad_restored_intent,
}
use unified.Payment.Consumptions.{apply_canonical_consumptions, refresh_canonical_consumptions}
use unified.Payment.Callbacks.{put_payment}

-- The claim that `New` keeps with a pending reversal.
unfoldable pub pending_claim : ReversalRecord → Claim
pending_claim r = record {
  claim_id = "";
  payment_id = r.payment_id;
  allocation_id = r.allocation_id;
  mode = canonical_gateway;
  digest = r.instruction_digest;
  state = CanonicalState.quarantined;
  expected_version = 0;
  evidence_hash = "";
  claimed_at = 0;
}

unfoldable pub pending_callback : ReversalRecord → Callback
pending_callback r = record {
  provider_id = r.provider_id;
  provider_event_id = r.provider_event_id;
  payment_id = r.payment_id;
  provider_reference = r.provider_reference;
  status = reversed;
  asset_id = r.asset_id;
  units = r.units;
  occurred_at = r.occurred_at;
  expires_at = r.callback_expires_at;
  evidence_hash = r.callback_evidence_hash;
}

unfoldable pub pending_quarantine : ReversalRecord → Quarantine
pending_quarantine r = record {
  quarantine_id = r.quarantine_id;
  provider_id = r.provider_id;
  provider_event_id = r.provider_event_id;
  payment_id = r.payment_id;
  raw_hash = r.raw_hash;
  evidence_hash = r.callback_evidence_hash;
  reason_code = "CANONICAL_SETTLEMENT_SUBMITTED";
  received_at = r.received_at;
  owner = "payment-operations";
  resolution_deadline = r.received_at + day;
}

-- `intentHashes[paymentID]` and `payments[paymentID]`, the zero values where there is no entry.
abbrev hash_or_zero : Option String → String
hash_or_zero none = ""
hash_or_zero (some h) = h

abbrev zero_intent : Intent
zero_intent = record {
  payment_id = "";
  legal_entity_id = "";
  idempotency_key = "";
  correlation_id = "";
  payer_reference = "";
  loan_id = "";
  provider_id = "";
  provider_reference = "";
  rail = other_rail "";
  purpose = "";
  asset_id = "";
  units = "";
  expires_at = 0;
  schema_version = 0;
  status = other_status "";
  version = 0;
  created_at = 0;
  updated_at = 0;
  provisional_at = 0;
  finalized_at = 0;
  reversed_at = 0;
}

abbrev intent_or_zero : Option Intent → Intent
intent_or_zero none = zero_intent
intent_or_zero (some i) = i

module _ {W : Type 0} where
  -- The loop of `New` over the pending reversals.
  unfoldable pub restore_pending : List ReversalRecord → Orchestrator W → Option (Orchestrator W)
  restore_pending [] o = some o
  restore_pending (r ∷ rs) o =
      let pending : PendingReversal = record {
        event_key = event_key r.provider_id r.provider_event_id;
        ingress_id = r.ingress_id;
        callback = pending_callback r;
        raw_hash = r.raw_hash;
        signature_hash = r.signature_hash;
        received_at = r.received_at;
        claim = pending_claim r;
      } in
      let rest = restore_pending rs record o {
        quarantines = o.quarantines ++ pending_quarantine r ∷ [];
        pending_reversals = insert r.quarantine_id pending o.pending_reversals;
      } in
      if bad_pending r
        || not (contains r.provider_id o.providers)
        || contains r.quarantine_id o.pending_reversals
      then none
      else rest

  unfoldable pub empty_orchestrator : Dict Provider → W → Orchestrator W
  empty_orchestrator providers world = record {
    providers = providers;
    payments = [];
    intent_keys = [];
    intent_hashes = [];
    events = [];
    raw_callbacks = [];
    quarantines = [];
    canonical_incidents = [];
    quarantine_resolutions = [];
    pending_reversals = [];
    consumed_reversals = [];
    world = world;
  }

  -- `New`
  unfoldable pub new : Services W → List Provider → W → Result PaymentError (Orchestrator W)
  new s providers world = elim (configure providers []) [
    | none ↦ err invalid_provider
    | some configured ↦
        if length providers == 0
        then err invalid_provider
        else elim (restore_pending (s.pending_provider_reversals world)
            (empty_orchestrator configured world)) [
              | none ↦ err canonical_persistence
              | some o ↦
                  let (error, o') = refresh_canonical_consumptions s o in
                  elim error [ some e ↦ err e | none ↦ ok o' ]
            ]
  ]

  -- What `RestorePayment` does with a payment that is not there.
  unfoldable pub restore_new : Intent → Orchestrator W → Option PaymentError × Orchestrator W
  restore_new intent o =
      let (error, o') = apply_canonical_consumptions intent.payment_id (put_payment intent o) in
      elim error [
        | none ↦ (none, o')
        | some e ↦ (some e, record o' { payments = delete intent.payment_id o'.payments })
      ]

  unfoldable pub restore_payment : Intent → Orchestrator W → Option PaymentError × Orchestrator W
  restore_payment intent o =
      if bad_restored_intent intent
      then (some invalid_intent, o)
      else elim (lookup intent.provider_id o.providers) [
        | none ↦ (some invalid_intent, o)
        | some provider ↦
            if not (same_rail provider.rail intent.rail) || (provider.asset_id ≠ₛ intent.asset_id)
            then (some invalid_intent, o)
            else elim (lookup intent.payment_id o.payments) [
              | some existing ↦
                  (if same_intent existing intent then none else some idempotency_conflict, o)
              | none ↦ restore_new intent o
            ]
      ]

  -- The writes of `CreateIntent`.
  unfoldable pub open_intent :
      Intent → String → String → Time → Orchestrator W → Result PaymentError Intent × Orchestrator W
  open_intent intent key content_hash now o =
      let opened : Intent = record intent {
        status = created;
        version = 1;
        created_at = now;
        updated_at = now;
      } in
      (
        ok opened,
        record o {
          payments = insert intent.payment_id opened o.payments;
          intent_keys = insert key intent.payment_id o.intent_keys;
          intent_hashes = insert intent.payment_id content_hash o.intent_hashes;
        },
      )

  -- An intent of a key that is taken: the first one, if it has the same content.
  unfoldable pub replay_intent :
      String → String → Orchestrator W → Result PaymentError Intent × Orchestrator W
  replay_intent payment_id content_hash o =
      if hash_or_zero (lookup payment_id o.intent_hashes) ≠ₛ content_hash
      then (err idempotency_conflict, o)
      else (ok (intent_or_zero (lookup payment_id o.payments)), o)

  -- From the scope on.
  unfoldable pub file_intent :
      Intent → String → Time → Orchestrator W → Result PaymentError Intent × Orchestrator W
  file_intent intent content_hash now o =
      let key = event_key intent.legal_entity_id intent.idempotency_key in
      elim (lookup key o.intent_keys) [
        | some payment_id ↦ replay_intent payment_id content_hash o
        | none ↦
            if contains intent.payment_id o.payments
            then (err idempotency_conflict, o)
            else open_intent intent key content_hash now o
      ]

  -- `CreateIntent`, with `intentHash` as a parameter.
  unfoldable pub create_intent :
      (Intent → String)
      → Intent
      → Time
      → Orchestrator W
      → Result PaymentError Intent × Orchestrator W
  create_intent intent_hash intent now o =
      if bad_new_intent intent now
      then (err invalid_intent, o)
      else elim (lookup intent.provider_id o.providers) [
        | none ↦ (err invalid_intent, o)
        | some provider ↦
            if not provider.active
              || not (same_rail provider.rail intent.rail)
              || (provider.asset_id ≠ₛ intent.asset_id)
            then (err invalid_intent, o)
            else file_intent intent (intent_hash intent) now o
      ]
