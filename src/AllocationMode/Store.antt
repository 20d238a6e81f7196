-- ===== src/AllocationMode/Store.antt =====
-- The memory store of services/payment-orchestrator/allocationmode/store.go, and the tests on claims
-- of registry.go and store.go.
use unified.Base.{
  String, Bool, true, false, not, ◌&&◌, ◌||◌, Option, none, some, [], ◌∷◌, ◌==◌, ◌=ₛ◌, is_empty,
  if◌then◌else◌, Dict, lookup, insert, Result, ok, err, is_zero,
}
use Prim.Native.String.{◌++◌ as ◌++ₛ◌}
use unified.AllocationMode.Types.{
  Mode, CanonicalState, AllocationError, Claim, MemoryStore, same_mode, same_state,
  synthetic_projection, canonical_gateway, other_mode, prepared, submitted, confirmed, failed,
  quarantined, incident, other_state, invalid_store, store_conflict, callback_failed,
}

-- What a callback answers.
abbrev pub Commit : Type 0
Commit = Claim → Option String

unfoldable pub valid_canonical_state : CanonicalState → Bool
valid_canonical_state (other_state s) = false
valid_canonical_state _ = true

unfoldable pub allowed_canonical_transition : CanonicalState → CanonicalState → Bool
allowed_canonical_transition prepared to =
    same_state to submitted || same_state to failed || same_state to quarantined
allowed_canonical_transition submitted to =
    same_state to confirmed || same_state to failed || same_state to quarantined
allowed_canonical_transition quarantined to = same_state to incident || same_state to failed
allowed_canonical_transition confirmed to = same_state to incident
allowed_canonical_transition failed to = same_state to prepared || same_state to quarantined
allowed_canonical_transition _ to = false

unfoldable pub same_claim : Claim → String → String → Mode → String → Bool
same_claim c payment_id allocation_id mode digest =
    (c.payment_id =ₛ payment_id)
    && (c.allocation_id =ₛ allocation_id)
    && same_mode c.mode mode
    && (c.digest =ₛ digest)

-- `left == right` on claims, but for the state.
unfoldable pub same_durable_claim : Claim → Claim → Bool
same_durable_claim left right =
    (left.claim_id =ₛ right.claim_id)
    && (left.payment_id =ₛ right.payment_id)
    && (left.allocation_id =ₛ right.allocation_id)
    && same_mode left.mode right.mode
    && (left.digest =ₛ right.digest)
    && (left.expected_version == right.expected_version)
    && (left.evidence_hash =ₛ right.evidence_hash)
    && (left.claimed_at == right.claimed_at)

unfoldable pub valid_durable_claim : Claim → Bool
valid_durable_claim c =
    if is_empty c.claim_id
      || is_empty c.payment_id
      || is_empty c.allocation_id
      || is_empty c.digest
      || is_empty c.evidence_hash
      || is_zero c.claimed_at
    then false
    else elim c.mode [
      | synthetic_projection ↦
          (c.claim_id =ₛ "phase7b:" ++ₛ c.allocation_id) && same_state c.state (other_state "")
      | canonical_gateway ↦
          (c.claim_id =ₛ "phase7c:" ++ₛ c.allocation_id) && same_state c.state prepared
      | other_mode _ ↦ false
    ]

-- `for _, existing := range store.claims`
unfoldable pub allocation_taken : String → Dict Claim → Bool
allocation_taken allocation_id [] = false
allocation_taken allocation_id (entry ∷ claims) =
    (entry.1.allocation_id =ₛ allocation_id) || allocation_taken allocation_id claims

unfoldable pub claim_synthetic : Claim → MemoryStore → Result AllocationError Bool × MemoryStore
claim_synthetic claim s =
    if not (valid_durable_claim claim) || not (same_mode claim.mode synthetic_projection)
    then (err invalid_store, s)
    else elim (lookup claim.payment_id s.claims) [
      | some existing ↦
          if same_durable_claim existing claim && same_state existing.state claim.state
          then (ok true, s)
          else (err store_conflict, s)
      | none ↦
          if allocation_taken claim.allocation_id s.claims
          then (err store_conflict, s)
          else (ok false, record { claims = insert claim.payment_id claim s.claims })
    ]

unfoldable pub claim_canonical :
    Claim → Option String → MemoryStore → Result AllocationError (Unit {0}) × MemoryStore
claim_canonical claim committed s =
    if not (valid_durable_claim claim)
      || not (same_mode claim.mode canonical_gateway)
      || not (same_state claim.state prepared)
    then (err invalid_store, s)
    else elim (lookup claim.payment_id s.claims) [
      | some existing ↦
          if same_durable_claim existing claim
          then elim committed [ some e ↦ (err (callback_failed e), s) | none ↦ (ok tt, s) ]
          else (err store_conflict, s)
      | none ↦
          if allocation_taken claim.allocation_id s.claims
          then (err store_conflict, s)
          else elim committed [
            | some e ↦ (err (callback_failed e), s)
            | none ↦ (ok tt, record { claims = insert claim.payment_id claim s.claims })
          ]
    ]
