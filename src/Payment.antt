-- ===== src/Payment.antt =====
-- The payment ingress of services/payment-orchestrator/payment/payment.go. A method gives its answer
-- and the orchestrator after it; the lock makes each call one step. The accounting and the coordinator
-- of canonical settlements are the interface `Services` with a state of their own, which a call threads
-- through in the order of the code. The hashes, the signatures and encoding/json are the record `Codec`.
pub mod Types
pub mod Checks
pub mod Consumptions
pub mod Records
pub mod Callbacks
pub mod Opening
pub mod Moves
pub mod Reaction
pub mod Effects
pub mod Resolutions
pub mod Creation
pub mod Events
pub mod Replays
pub mod History
pub mod Lives
pub mod Outcomes
pub mod Keeping
pub mod Growth
pub mod Rejections
pub mod Persistence
pub mod Standing
pub mod Intake
pub mod Recreation
pub mod Answered
pub mod Repeats
pub mod Accounts
pub mod Tests
unfoldable pub use Types.*
unfoldable pub use Checks.*
unfoldable pub use Consumptions.*
unfoldable pub use Records.*
unfoldable pub use Callbacks.*
unfoldable pub use Opening.*
use unified.Base.{
  ℕ, zero, suc, ◌+◌, ◌-◌, ◌*◌, ◌/◌, ◌%◌, ◌^◌, ◌≤◌, ◌<◌, min, String, ◌≡◌, refl, sym, ap, ◌∙◌, ◌≢◌,
  ◌↔◌, ◌⊎◌, inl, inr, Bool, true, false, not, ◌&&◌, ◌||◌, Option, none, some, List, [], ◌∷◌, ◌++◌,
  map, arith, eq_iff, eq_refl, ltb, leb, ◌==◌, ◌=ₛ◌, ◌≠ₛ◌, is_empty, if◌then◌else◌, ltb→lt, lt→ltb,
  Bool-cases, Option-cases, eq_of_text_eq, ne_of_text_eq, text_eq_of_ne, length, All, length-append,
  All-append, Dict, lookup, insert, delete, lookup-delete, contains, lookup-insert,
  lookup-insert_self, lookup-empty, lookup-insert_cases, lookup-insert_free, contains-insert,
  insert-All, Result, ok, err, ◌>>=◌, ◌>>◌, or_err, Result-cases, >>=-eq-ok, reject_if, ℤ, pos,
  negsuc, pos_part, neg_part, sub_ℕ, ◌+ℤ◌, ◌-ℤ◌, ◌*ℤ◌, quo, ◌≤ℤ◌, ltb_ℤ, leb_ℤ, eqb_ℤ, int_laws,
  *ℤ-pos, quo-pos, -ℤ-pos, +ℤ-pos, eq_of_parts, Time, is_zero, before, after, time_sub,
  max_duration,
}

abbrev pub Resolved : Type 0 → Type 0
Resolved V = Result PaymentError (CallbackResult × QuarantineResolution) × Orchestrator V

abbrev pub replayed_resolution : ResolutionRecord → QuarantineResolution
replayed_resolution r = record {
  resolution_id = r.resolution_id;
  quarantine_id = r.quarantine_id;
  canonical_failure_evidence_hash = r.canonical_failure_evidence_hash;
  evidence_hash = r.resolution_evidence_hash;
  resolved_by = r.resolved_by;
  resolved_at = r.resolved_at;
}

abbrev pub replayed_result : ResolutionRecord → Intent → CallbackResult
replayed_result r next = record {
  provider_id = r.provider_id;
  provider_event_id = r.provider_event_id;
  raw_hash = r.raw_hash;
  payment = next;
  journal_ids = r.journal_ids;
  replayed = true;
  disposition = "REVERSED";
}

-- The record that `ResolveCanonicalReversal` hands to the coordinator.
unfoldable pub resolution_record : ResolutionRequest → PendingReversal → ReversalRecord
resolution_record q p = record {
  quarantine_id = q.quarantine_id;
  resolution_id = q.resolution_id;
  ingress_id = p.ingress_id;
  payment_id = q.payment_id;
  allocation_id = q.allocation_id;
  instruction_digest = q.instruction_digest;
  provider_id = p.callback.provider_id;
  provider_event_id = p.callback.provider_event_id;
  reversal_event_id =
      canonical_payment_event_id p.callback.provider_id p.callback.provider_event_id;
  provider_reference = p.callback.provider_reference;
  asset_id = p.callback.asset_id;
  units = p.callback.units;
  raw_hash = p.raw_hash;
  signature_hash = p.signature_hash;
  callback_evidence_hash = p.callback.evidence_hash;
  callback_expires_at = p.callback.expires_at;
  failure_proof = q.failure_proof;
  resolution_evidence = q.resolution_evidence_hash;
  resolved_by = q.resolved_by;
  occurred_at = p.callback.occurred_at;
  received_at = q.resolved_at;
}

-- The payment as a resolution reverses it.
unfoldable pub reversed_at_time : Intent → Time → Intent
reversed_at_time current at = record current {
  status = reversed;
  version = u64 (current.version + 1);
  updated_at = at;
  reversed_at = at;
}

-- The `switch` on the status of the payment for a resolution that the coordinator has made before.
unfoldable pub replayed_payment : Status → Intent → ResolutionRecord → Option Intent
replayed_payment final current r =
    let next = reversed_at_time current r.resolved_at in
    some record next {
      provider_reference =
          if is_empty current.provider_reference
          then r.provider_reference
          else current.provider_reference;
    }
replayed_payment reversed current r =
    if (current.reversed_at == r.resolved_at) && (current.updated_at == r.resolved_at)
    then some current
    else none
replayed_payment _ current r = none

-- The payment of a resolution that the coordinator has made before is another one.
unfoldable pub other_payment : Intent → ResolutionRecord → Bool
other_payment current r =
    (current.provider_id ≠ₛ r.provider_id)
    || (current.asset_id ≠ₛ r.asset_id)
    || (current.units ≠ₛ r.units)
    || (not (is_empty current.provider_reference)
        && (current.provider_reference ≠ₛ r.provider_reference))

-- The pending reversal does not fit the request.
unfoldable pub other_pending : ResolutionRequest → PendingReversal → Bool
other_pending q p =
    (p.claim.payment_id ≠ₛ q.payment_id)
    || (p.claim.allocation_id ≠ₛ q.allocation_id)
    || (p.claim.digest ≠ₛ q.instruction_digest)
    || before q.resolved_at p.received_at

abbrev pub received_before : String → Time → List Quarantine → Bool
received_before id at [] = false
received_before id at (q ∷ qs) =
    ((q.quarantine_id =ₛ id) && not (before at q.received_at)) || received_before id at qs

module _ {W : Type 0} where
  -- The writes of a resolution.
  unfoldable pub write_resolution :
      String → String → CallbackResult → QuarantineResolution → Orchestrator W → Orchestrator W
  write_resolution key quarantine_id result resolution o = record (put_payment result.payment o) {
    events =
        insert key record { raw_hash = result.raw_hash; result = result; error = none } o.events;
    quarantine_resolutions = insert quarantine_id resolution o.quarantine_resolutions;
    pending_reversals = delete quarantine_id o.pending_reversals;
  }

  -- A resolution that the coordinator has made before.
  unfoldable pub replay_resolution :
      ResolutionRequest → ResolutionRecord → Orchestrator W → Resolved W
  replay_resolution q r o = elim (lookup q.payment_id o.payments) [
    | none ↦ (err invalid_transition, o)
    | some current ↦
        if other_payment current r
        then (err invalid_transition, o)
        else elim (replayed_payment current.status current r) [
          | none ↦ (err invalid_transition, o)
          | some next ↦ (
            ok (replayed_result r next, replayed_resolution r),
            write_resolution (event_key r.provider_id r.provider_event_id) q.quarantine_id
                (replayed_result r next) (replayed_resolution r) o,
          )
        ]
  ]

  -- From the call of the coordinator on.
  unfoldable pub commit_resolution :
      Services W → ResolutionRequest → PendingReversal → Intent → Orchestrator W → Resolved W
  commit_resolution s q p current o =
      let next = reversed_at_time current q.resolved_at in
      let (answer, w) =
        s.resolve_provider_reversal (resolution_record q p)
          (accounting_commit s (transition_of next current.status p.callback p.received_at))
          o.world in
      elim answer [
        | err text ↦ (err (coordinator_failed text), record o { world = w })
        | ok done ↦
            let resolution : QuarantineResolution = record {
              resolution_id = q.resolution_id;
              quarantine_id = q.quarantine_id;
              canonical_failure_evidence_hash = done.1;
              evidence_hash = q.resolution_evidence_hash;
              resolved_by = q.resolved_by;
              resolved_at = q.resolved_at;
            } in
            let result : CallbackResult = record {
              provider_id = p.callback.provider_id;
              provider_event_id = p.callback.provider_event_id;
              raw_hash = p.raw_hash;
              payment = next;
              journal_ids = done.0;
              replayed = false;
              disposition = "REVERSED";
            } in
            (
              ok (result, resolution),
              write_resolution p.event_key q.quarantine_id result resolution record o { world = w },
            )
      ]

  -- A resolution that is new.
  unfoldable pub resolve_pending : Services W → ResolutionRequest → Orchestrator W → Resolved W
  resolve_pending s q o =
      if contains q.quarantine_id o.quarantine_resolutions
      then (err invalid_resolution, o)
      else elim (lookup q.quarantine_id o.pending_reversals) [
        | none ↦ (err invalid_resolution, o)
        | some p ↦
            if other_pending q p
            then (err invalid_resolution, o)
            else elim (lookup q.payment_id o.payments) [
              | none ↦ (err invalid_transition, o)
              | some current ↦
                  if not (same_status current.status final)
                  then (err invalid_transition, o)
                  else commit_resolution s q p current o
            ]
      ]

  -- From the question whether the coordinator has resolved it on.
  unfoldable pub resolve_refreshed : Services W → ResolutionRequest → Orchestrator W → Resolved W
  resolve_refreshed s q o = elim (s.resolved_provider_reversal q o.world) [
    | err text ↦ (err invalid_resolution, o)
    | ok answer ↦ elim answer [
      | some replay ↦ replay_resolution q replay o
      | none ↦ resolve_pending s q o
    ]
  ]

  unfoldable pub resolve_canonical_reversal :
      Services W → ResolutionRequest → Orchestrator W → Resolved W
  resolve_canonical_reversal s q o =
      let (error, o') = refresh_canonical_consumptions s o in
      if bad_resolution q
      then (err invalid_resolution, o)
      else elim error [ some e ↦ (err e, o') | none ↦ resolve_refreshed s q o' ]

  unfoldable pub resolve_quarantine :
      String
      → String
      → String
      → String
      → Time
      → Orchestrator W
      → Result PaymentError QuarantineResolution × Orchestrator W
  resolve_quarantine quarantine_id resolution_id evidence_hash resolved_by resolved_at o =
      if is_empty quarantine_id
        || is_empty resolution_id
        || is_empty evidence_hash
        || is_empty resolved_by
        || is_zero resolved_at
        || contains quarantine_id o.pending_reversals
        || contains quarantine_id o.quarantine_resolutions
        || not (received_before quarantine_id resolved_at o.quarantines)
      then (err invalid_resolution, o)
      else (let resolution : QuarantineResolution = record {
        resolution_id = resolution_id;
        quarantine_id = quarantine_id;
        canonical_failure_evidence_hash = "";
        evidence_hash = evidence_hash;
        resolved_by = resolved_by;
        resolved_at = resolved_at;
      } in
          (
            ok resolution,
            record o {
              quarantine_resolutions = insert quarantine_id resolution o.quarantine_resolutions;
            },
          ))

  -- `Payment`
  unfoldable pub payment : String → Orchestrator W → Option Intent
  payment payment_id o = lookup payment_id o.payments
