-- ===== src/AllocationMode.antt =====
-- The allocation latch of services/payment-orchestrator/allocationmode/registry.go with the memory
-- store of store.go: a payment is claimed by the synthetic allocator or by the canonical gateway.
-- A method gives its result and the registry after it; the mutex makes each call one step. A callback
-- is a function to an error text, none where it succeeds; it is never nil but where a method says so.
pub mod Types
pub mod Store
pub mod Claims
pub mod Steps
pub mod Latch
pub mod Reversing
pub mod Invariant
pub mod Runs
mod Tests
unfoldable pub use Types.*
unfoldable pub use Store.*
unfoldable pub use Claims.*
use unified.Base.{
  ℕ, zero, suc, ◌+◌, ◌-◌, ◌*◌, ◌/◌, ◌%◌, ◌^◌, ◌≤◌, ◌<◌, min, String, ◌≡◌, refl, sym, ap, ◌∙◌, ◌≢◌,
  ◌↔◌, ◌⊎◌, inl, inr, Bool, true, false, not, ◌&&◌, ◌||◌, Option, none, some, List, [], ◌∷◌, ◌++◌,
  map, arith, eq_iff, eq_refl, ltb, leb, ◌==◌, ◌=ₛ◌, ◌≠ₛ◌, is_empty, if◌then◌else◌, ltb→lt, lt→ltb,
  Bool-cases, Option-cases, eq_of_text_eq, ne_of_text_eq, text_eq_of_ne, length, All, length-append,
  All-append, Dict, lookup, insert, contains, lookup-insert, lookup-insert_self, lookup-empty,
  lookup-insert_cases, lookup-insert_free, contains-insert, insert-All, Result, ok, err, ◌>>=◌,
  ◌>>◌, or_err, Result-cases, >>=-eq-ok, reject_if, ℤ, pos, negsuc, pos_part, neg_part, sub_ℕ, ◌+ℤ◌,
  ◌-ℤ◌, ◌*ℤ◌, quo, ◌≤ℤ◌, ltb_ℤ, leb_ℤ, eqb_ℤ, int_laws, *ℤ-pos, quo-pos, -ℤ-pos, +ℤ-pos,
  eq_of_parts, Time, is_zero, before, after, time_sub, max_duration,
}

unfoldable pub transition_with_commit :
    String
    → String
    → String
    → CanonicalState
    → CanonicalState
    → Commit
    → Registry
    → Result AllocationError Claim × Registry
transition_with_commit payment_id allocation_id digest expected next commit r =
    if not (valid_canonical_state expected) || not (valid_canonical_state next)
    then (err invalid_transition, r)
    else elim (lookup payment_id r.by_payment) [
      | none ↦ (err invalid_transition, r)
      | some existing ↦
          if not (same_mode existing.mode canonical_gateway)
            || (existing.allocation_id ≠ₛ allocation_id)
            || (existing.digest ≠ₛ digest)
            || not (same_state existing.state expected)
            || not (allowed_canonical_transition expected next)
          then (err invalid_transition, r)
          else (let claim : Claim = record existing { state = next } in
              elim (commit claim) [
                | some e ↦ (err (callback_failed e), r)
                | none ↦ (ok claim, record r { by_payment = insert payment_id claim r.by_payment })
              ])
    ]

-- The callback of `HandleReversalWithCommit`, none where it is nil.
abbrev pub ReversalCommit : Type 0
ReversalCommit = Option (Claim → ReversalDisposition → Bool → Option String)

abbrev pub Reversal : Type 0
Reversal = Result AllocationError (Claim × ReversalDisposition)

-- `commit == nil`, then the call of it, then what is published.
unfoldable pub reversal_commit :
    ReversalCommit
    → Claim
    → ReversalDisposition
    → Bool
    → Claim
    → Registry
    → Registry
    → Reversal × Registry
reversal_commit none claim disposition permanent answer r' r = (err resolution_failed, r)
reversal_commit (some commit) claim disposition permanent answer r' r =
    elim (commit claim disposition permanent) [
      | some e ↦ (err resolution_failed, r)
      | none ↦ (ok (answer, disposition), r')
    ]

abbrev pub zero_claim : Claim
zero_claim = record {
  claim_id = "";
  payment_id = "";
  allocation_id = "";
  mode = other_mode "";
  digest = "";
  state = other_state "";
  expected_version = 0;
  evidence_hash = "";
  claimed_at = 0;
}

-- The claim in the next state, persisted and then published.
unfoldable pub reverse_to :
    CanonicalState
    → ReversalDisposition
    → String
    → Claim
    → ReversalCommit
    → Registry
    → Reversal × Registry
reverse_to next disposition payment_id claim commit r =
    let claim' : Claim = record claim { state = next } in
    reversal_commit commit claim disposition false claim'
      record r { by_payment = insert payment_id claim' r.by_payment } r

-- The `switch` on the state of a canonical claim.
unfoldable pub reverse_canonical :
    CanonicalState → String → Claim → ReversalCommit → Registry → Reversal × Registry
reverse_canonical prepared payment_id claim commit r =
    reverse_to quarantined reversal_quarantined payment_id claim commit r
reverse_canonical failed payment_id claim commit r =
    reverse_to quarantined reversal_quarantined payment_id claim commit r
reverse_canonical submitted payment_id claim commit r =
    reverse_to quarantined reversal_quarantined payment_id claim commit r
reverse_canonical quarantined payment_id claim commit r = (ok (claim, reversal_quarantined), r)
reverse_canonical confirmed payment_id claim commit r =
    reverse_to incident reversal_incident payment_id claim commit r
reverse_canonical incident payment_id claim commit r = (ok (claim, reversal_incident), r)
reverse_canonical (other_state s) payment_id claim commit r = (ok (claim, reversal_quarantined), r)

unfoldable pub handle_reversal_with_commit :
    String → ReversalCommit → Registry → Reversal × Registry
handle_reversal_with_commit payment_id commit r =
    if is_empty payment_id then (err invalid_claim, r) else elim (lookup payment_id r.by_payment) [
      | none ↦
          reversal_commit commit record zero_claim { payment_id = payment_id } reversal_unclaimed
            true zero_claim (tombstone payment_id r) r
      | some claim ↦
          if same_mode claim.mode synthetic_projection
          then reversal_commit commit claim reversal_synthetic true claim (tombstone payment_id r) r
          else reverse_canonical claim.state payment_id claim commit r
    ]

unfoldable pub resolve_quarantined_reversal :
    Claim → Option String → Registry → Result AllocationError (Unit {0}) × Registry
resolve_quarantined_reversal claim committed r = elim (lookup claim.payment_id r.by_payment) [
  | none ↦ (err invalid_transition, r)
  | some existing ↦
      if not (same_claim existing claim.payment_id claim.allocation_id claim.mode claim.digest)
        || not (same_mode existing.mode canonical_gateway)
        || not (same_state existing.state quarantined)
      then (err invalid_transition, r)
      else elim committed [
        | some e ↦ (err resolution_failed, r)
        | none ↦
            (ok tt, tombstone existing.payment_id (update record existing { state = failed } r))
      ]
]

abbrev pub tombstone_if : Bool → String → Registry → Registry
tombstone_if tombstoned payment_id r = if tombstoned then tombstone payment_id r else r

unfoldable pub restore : Claim → Bool → Registry → Result AllocationError (Unit {0}) × Registry
restore claim tombstoned r =
    if is_empty claim.payment_id
      || is_empty claim.allocation_id
      || is_empty claim.digest
      || (not (same_mode claim.mode synthetic_projection)
          && not (same_mode claim.mode canonical_gateway))
      || (same_mode claim.mode canonical_gateway && not (valid_canonical_state claim.state))
    then (err invalid_claim, r)
    else elim (lookup claim.payment_id r.by_payment) [
      | some existing ↦
          if not (same_durable_claim existing claim)
            || (is_reversed claim.payment_id r && not tombstoned)
          then (err claim_conflict, r)
          else (
            ok tt,
            tombstone_if tombstoned claim.payment_id (record r {
              by_payment =
                  insert claim.payment_id record existing { state = claim.state } r.by_payment;
            }),
          )
      | none ↦
          if owned_by_other claim.allocation_id claim.payment_id r
          then (err claim_conflict, r)
          else (ok tt, tombstone_if tombstoned claim.payment_id (publish claim r))
    ]

unfoldable pub restore_tombstone : String → Registry → Result AllocationError (Unit {0}) × Registry
restore_tombstone payment_id r =
    if is_empty payment_id then (err invalid_claim, r) else (ok tt, tombstone payment_id r)
