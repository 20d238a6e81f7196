-- ===== src/Payment/Consumptions.antt =====
-- How services/payment-orchestrator/payment/payment.go takes in the reversals that a canonical
-- settlement has overtaken. An error may leave the writes that were made before it.
use unified.Base.{
  ◌+◌, String, Bool, false, not, ◌||◌, Option, none, some, List, [], ◌∷◌, ◌++◌, ◌=ₛ◌, ◌≠ₛ◌,
  if◌then◌else◌, Dict, lookup, insert, delete, contains,
}
use Prim.Native.String.{◌++◌ as ◌++ₛ◌}
use unified.Payment.Types.{
  Intent, Quarantine, QuarantineResolution, CanonicalIncident, PaymentError, StoredEvent,
  Consumption, Services, Orchestrator, same_status, final, canonical_confirmed,
  canonical_persistence,
}
use unified.Payment.Checks.{day, same_consumption, valid_canonical_consumption, event_key}

-- The error, none where it is nil, and the orchestrator.
abbrev pub Effect : Type 0 → Type 0
Effect W = Option PaymentError × Orchestrator W

-- The incident that `applyCanonicalConsumptionsLocked` stores as the answer of the event.
unfoldable pub contradicted_event : Consumption → Intent → StoredEvent
contradicted_event c current = record {
  raw_hash = c.raw_hash;
  result = record {
    provider_id = c.provider_id;
    provider_event_id = c.provider_event_id;
    raw_hash = c.raw_hash;
    payment = current;
    journal_ids = [];
    replayed = false;
    disposition = "INCIDENT";
  };
  error = some canonical_confirmed;
}

unfoldable pub contradicts : Consumption → Intent → Bool
contradicts c current =
    not (same_status current.status final)
    || (current.provider_id ≠ₛ c.provider_id)
    || (current.provider_reference ≠ₛ c.provider_reference)
    || (current.asset_id ≠ₛ c.asset_id)
    || (current.units ≠ₛ c.units)

-- The loop over `consumedReversals`, which writes events.
unfoldable pub apply_each :
    String → Intent → Dict Consumption → Dict StoredEvent → Option PaymentError × Dict StoredEvent
apply_each payment_id current [] events = (none, events)
apply_each payment_id current ((key, c) ∷ rest) events =
    let skipped = apply_each payment_id current rest events in
    let written = apply_each payment_id current rest (
      insert (event_key c.provider_id c.provider_event_id) (contradicted_event c current) events) in
    if c.payment_id ≠ₛ payment_id
    then skipped
    else if contradicts c current
    then (some canonical_persistence, events)
    else written

abbrev pub quarantine_known : String → List Quarantine → Bool
quarantine_known id [] = false
quarantine_known id (q ∷ qs) = (q.quarantine_id =ₛ id) || quarantine_known id qs

abbrev pub incident_known : String → List CanonicalIncident → Bool
incident_known id [] = false
incident_known id (i ∷ is) = (i.incident_id =ₛ id) || incident_known id is

unfoldable pub consumed_quarantine : Consumption → Quarantine
consumed_quarantine c = record {
  quarantine_id = c.quarantine_id;
  provider_id = c.provider_id;
  provider_event_id = c.provider_event_id;
  payment_id = c.payment_id;
  raw_hash = c.raw_hash;
  evidence_hash = c.callback_evidence_hash;
  reason_code = "CANONICAL_SETTLEMENT_SUBMITTED";
  received_at = c.callback_received_at;
  owner = "payment-operations";
  resolution_deadline = c.callback_received_at + day;
}

unfoldable pub consumed_resolution : Consumption → QuarantineResolution
consumed_resolution c = record {
  resolution_id = c.resolution_id;
  quarantine_id = c.quarantine_id;
  canonical_failure_evidence_hash = "";
  evidence_hash = c.resolution_evidence_hash;
  resolved_by = c.resolved_by;
  resolved_at = c.resolved_at;
}

unfoldable pub consumed_incident : Consumption → CanonicalIncident
consumed_incident c = record {
  incident_id = "canonical-success:" ++ₛ c.quarantine_id;
  payment_id = c.payment_id;
  allocation_id = c.allocation_id;
  claim_digest = c.instruction_digest;
  provider_id = c.provider_id;
  provider_event_id = c.provider_event_id;
  provider_reference = c.provider_reference;
  raw_hash = c.raw_hash;
  evidence_hash = c.resolution_evidence_hash;
  reason_code = "PROVIDER_REVERSAL_CONTRADICTED_BY_CANONICAL_SETTLEMENT";
  occurred_at = c.callback_occurred_at;
  received_at = c.resolved_at;
}

module _ {W : Type 0} where
  unfoldable pub apply_canonical_consumptions : String → Orchestrator W → Effect W
  apply_canonical_consumptions payment_id o = elim (lookup payment_id o.payments) [
    | none ↦ (none, o)
    | some current ↦
        let (error, events) = apply_each payment_id current o.consumed_reversals o.events in
        (error, record o { events = events })
  ]

  -- The writes for a consumption that is new.
  unfoldable pub register_consumption : Consumption → Orchestrator W → Orchestrator W
  register_consumption c o = record o {
    consumed_reversals = insert c.quarantine_id c o.consumed_reversals;
    pending_reversals = delete c.quarantine_id o.pending_reversals;
    quarantines =
        if quarantine_known c.quarantine_id o.quarantines
        then o.quarantines
        else o.quarantines ++ consumed_quarantine c ∷ [];
    quarantine_resolutions =
        insert c.quarantine_id (consumed_resolution c) o.quarantine_resolutions;
    canonical_incidents =
        if incident_known ("canonical-success:" ++ₛ c.quarantine_id) o.canonical_incidents
        then o.canonical_incidents
        else o.canonical_incidents ++ consumed_incident c ∷ [];
  }

  -- One round of `refreshCanonicalConsumptionsLocked`.
  unfoldable pub refresh_one : Consumption → Orchestrator W → Effect W
  refresh_one c o =
      if not (valid_canonical_consumption c) || not (contains c.provider_id o.providers)
      then (some canonical_persistence, o)
      else elim (lookup c.quarantine_id o.consumed_reversals) [
        | some existing ↦
            if same_consumption existing c
            then apply_canonical_consumptions c.payment_id o
            else (some canonical_persistence, o)
        | none ↦ apply_canonical_consumptions c.payment_id (register_consumption c o)
      ]

  -- `return err` out of a loop, or the next rounds.
  unfoldable pub unless_failed : Effect W → (Orchestrator W → Effect W) → Effect W
  unless_failed (some e, o) next = (some e, o)
  unless_failed (none, o) next = next o

  unfoldable pub refresh_each : List Consumption → Orchestrator W → Effect W
  refresh_each [] o = (none, o)
  refresh_each (c ∷ cs) o = unless_failed (refresh_one c o) (refresh_each cs)

  unfoldable pub refresh_canonical_consumptions : Services W → Orchestrator W → Effect W
  refresh_canonical_consumptions s o = refresh_each (s.consumed_provider_reversals o.world) o
