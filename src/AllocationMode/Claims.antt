-- ===== src/AllocationMode/Claims.antt =====
-- How a payment is claimed: the constructors and the two claiming methods of
-- services/payment-orchestrator/allocationmode/registry.go.
use unified.Base.{
  ℕ, String, Bool, true, false, not, ◌&&◌, ◌||◌, Option, none, some, List, [], ◌∷◌, ◌==◌, ◌=ₛ◌,
  ◌≠ₛ◌, is_empty, if◌then◌else◌, lookup, insert, contains, Result, ok, err, Time, is_zero,
}
use Prim.Native.String.{◌++◌ as ◌++ₛ◌}
use unified.AllocationMode.Types.{
  Mode, AllocationError, Claim, Registry, same_mode, synthetic_projection, canonical_gateway,
  prepared, other_state, invalid_claim, claim_conflict, invalid_transition, invalid_store,
  store_conflict,
}
use unified.AllocationMode.Store.{
  Commit, same_claim, valid_durable_claim, claim_synthetic, claim_canonical,
}

-- `NewInMemory`
unfoldable pub new : Registry
new = record { by_payment = []; by_allocation = []; reversed = []; store = record { claims = [] } }

-- The loop of `New` over the claims of the store.
unfoldable pub load : List Claim → Registry → Result AllocationError Registry
load [] r = ok r
load (claim ∷ claims) r =
    let rest = load claims record r {
      by_payment = insert claim.payment_id claim r.by_payment;
      by_allocation = insert claim.allocation_id claim.payment_id r.by_allocation;
    } in
    if not (valid_durable_claim claim)
    then err invalid_store
    else if contains claim.payment_id r.by_payment || contains claim.allocation_id r.by_allocation
    then err store_conflict
    else rest

-- The writes of a new claim.
unfoldable pub publish : Claim → Registry → Registry
publish claim r = record r {
  by_payment = insert claim.payment_id claim r.by_payment;
  by_allocation = insert claim.allocation_id claim.payment_id r.by_allocation;
}

-- `registry.byPayment[paymentID] = record` for a claim that is there.
unfoldable pub update : Claim → Registry → Registry
update claim r = record r { by_payment = insert claim.payment_id claim r.by_payment }

unfoldable pub tombstone : String → Registry → Registry
tombstone payment_id r = record r { reversed = insert payment_id true r.reversed }

-- `IsReversed`
unfoldable pub is_reversed : String → Registry → Bool
is_reversed payment_id r = elim (lookup payment_id r.reversed) [ none ↦ false | some b ↦ b ]

-- `Lookup`
unfoldable pub find : String → Registry → Option Claim
find payment_id r = lookup payment_id r.by_payment

-- `owner, ok := registry.byAllocation[allocationID]; ok && owner != paymentID`
unfoldable pub owned_by_other : String → String → Registry → Bool
owned_by_other allocation_id payment_id r = elim (lookup allocation_id r.by_allocation) [
  | none ↦ false
  | some owner ↦ owner ≠ₛ payment_id
]

abbrev pub synthetic_claim : String → String → String → ℕ → String → Time → Claim
synthetic_claim payment_id allocation_id digest expected_version evidence_hash claimed_at = record {
  claim_id = "phase7b:" ++ₛ allocation_id;
  payment_id = payment_id;
  allocation_id = allocation_id;
  mode = synthetic_projection;
  digest = digest;
  state = other_state "";
  expected_version = expected_version;
  evidence_hash = evidence_hash;
  claimed_at = claimed_at;
}

abbrev pub canonical_claim : String → String → String → ℕ → String → Time → Claim
canonical_claim payment_id allocation_id digest expected_version evidence_hash claimed_at = record {
  claim_id = "phase7c:" ++ₛ allocation_id;
  payment_id = payment_id;
  allocation_id = allocation_id;
  mode = canonical_gateway;
  digest = digest;
  state = prepared;
  expected_version = expected_version;
  evidence_hash = evidence_hash;
  claimed_at = claimed_at;
}

-- What `ClaimMode` does with a fresh record.
unfoldable pub store_synthetic : Claim → Registry → Result AllocationError (Claim × Bool) × Registry
store_synthetic claim r =
    let (answer, s) = claim_synthetic claim r.store in
    elim answer [
      | err e ↦ (err claim_conflict, record r { store = s })
      | ok replayed ↦ (ok (claim, replayed), publish claim record r { store = s })
    ]

unfoldable pub claim_mode :
    String
    → String
    → Mode
    → String
    → ℕ
    → String
    → Time
    → Registry
    → Result AllocationError (Claim × Bool) × Registry
claim_mode payment_id allocation_id mode digest expected_version evidence_hash claimed_at r =
    if is_empty payment_id
      || is_empty allocation_id
      || is_empty digest
      || is_empty evidence_hash
      || is_zero claimed_at
      || not (same_mode mode synthetic_projection)
    then (err invalid_claim, r)
    else if is_reversed payment_id r
    then (err claim_conflict, r)
    else elim (lookup payment_id r.by_payment) [
      | some existing ↦
          if same_claim existing payment_id allocation_id mode digest
            && (existing.expected_version == expected_version)
            && (existing.evidence_hash =ₛ evidence_hash)
            && (existing.claimed_at == claimed_at)
          then (ok (existing, true), r)
          else (err claim_conflict, r)
      | none ↦
          if owned_by_other allocation_id payment_id r
          then (err claim_conflict, r)
          else store_synthetic
              (synthetic_claim payment_id allocation_id digest expected_version evidence_hash
                claimed_at)
              r
    ]

-- What `ClaimModeWithCommit` does with a fresh record.
unfoldable pub store_canonical : Claim → Commit → Registry → Result AllocationError Claim × Registry
store_canonical claim commit r =
    let (answer, s) = claim_canonical claim (commit claim) r.store in
    elim answer [
      | err e ↦ (err e, record r { store = s })
      | ok _ ↦ (ok claim, publish claim record r { store = s })
    ]

unfoldable pub claim_mode_with_commit :
    String
    → String
    → Mode
    → String
    → ℕ
    → String
    → Time
    → Commit
    → Registry
    → Result AllocationError Claim × Registry
claim_mode_with_commit payment_id allocation_id mode digest expected_version evidence_hash
      claimed_at commit r =
    if is_empty payment_id
      || is_empty allocation_id
      || is_empty digest
      || is_empty evidence_hash
      || is_zero claimed_at
      || not (same_mode mode canonical_gateway)
    then (err invalid_claim, r)
    else if is_reversed payment_id r
        || contains payment_id r.by_payment
        || contains allocation_id r.by_allocation
    then (err claim_conflict, r)
    else store_canonical
        (canonical_claim payment_id allocation_id digest expected_version evidence_hash claimed_at)
        commit r

-- `Release`
unfoldable pub release : Claim → Registry → Result AllocationError (Unit {0}) × Registry
release claim r = (err invalid_transition, r)
