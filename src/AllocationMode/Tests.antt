-- ===== src/AllocationMode/Tests.antt =====
-- Runs of the allocation latch, and the theorems at those inputs.
use unified.Base.{String, ◌≡◌, refl, true, none, some, List, [], ◌∷◌, lookup, insert, err}
use unified.AllocationMode.{
  AllocationError, Claim, synthetic_projection, canonical_gateway, prepared, submitted, Commit,
  valid_canonical_state, allowed_canonical_transition, same_claim, same_durable_claim,
  valid_durable_claim, allocation_taken, claim_synthetic, claim_canonical, new, publish, update,
  tombstone, is_reversed, find, owned_by_other, canonical_claim, store_synthetic, claim_mode,
  store_canonical, claim_mode_with_commit, transition_with_commit, reversal_commit, reverse_to,
  reverse_canonical, handle_reversal_with_commit, resolve_quarantined_reversal, restore,
  restore_tombstone,
}
use unified.AllocationMode.Runs.{
  Call, run, run-IsLatched, allocation_exclusive, claim_immutable, tombstone_blocks,
}
use unified.AllocationMode.Invariant.{IsLatched, new-IsLatched}

-- What a run computes with.
running : Unit {0}
unfolding lookup insert new find claim_mode claim_mode_with_commit transition_with_commit
    handle_reversal_with_commit resolve_quarantined_reversal reversal_commit reverse_canonical
    reverse_to restore restore_tombstone store_synthetic store_canonical claim_synthetic
    claim_canonical valid_durable_claim same_durable_claim same_claim allocation_taken publish
    update tombstone is_reversed owned_by_other allowed_canonical_transition valid_canonical_state
running = tt

abbrev accepts : Commit
accepts claim = none

abbrev calls : List Call
calls =
    Call.claiming_with_commit "p1" "a1" canonical_gateway "d1" 3 "e1" 5 accepts
    ∷ Call.claiming "p2" "a1" synthetic_projection "d2" 1 "e2" 6
    ∷ Call.claiming "p2" "a2" synthetic_projection "d2" 1 "e2" 6
    ∷ Call.transition "p1" "a1" "d1" prepared submitted accepts
    ∷ Call.reversing "p2" (some (λ claim disposition permanent. none))
    ∷ []

abbrev first_claim : Claim
first_claim = record (canonical_claim "p1" "a1" "d1" 3 "e1" 5) { state = submitted }

latch_after :
    (find "p1" (run calls new) ≡ some first_claim) × (is_reversed "p2" (run calls new) ≡ true)
unfolding running
latch_after = (refl, refl)

run-IsLatched_example : IsLatched (run calls new)
run-IsLatched_example = run-IsLatched calls new new-IsLatched

allocation_exclusive_example : ◌≡◌ {A = String} "p1" "p1"
allocation_exclusive_example =
    allocation_exclusive calls "p1" "p1" first_claim first_claim latch_after.0 latch_after.0 refl

claim_immutable_example :
    (c : Claim) × (find "p1" (run calls (run calls new)) ≡ some c)
    × (record first_claim { state = c.state } ≡ c)
claim_immutable_example = claim_immutable calls (run calls new) "p1" first_claim latch_after.0

tombstone_blocks_example :
    let r = run calls (run calls new) in
    ((x : AllocationError) × (claim_mode "p2" "a3" synthetic_projection "d" 1 "e" 9 r ≡ (err x, r)))
    × ((x : AllocationError) × (claim_mode_with_commit "p2" "a3" synthetic_projection "d" 1 "e" 9
            accepts r
          ≡ (err x, r)))
tombstone_blocks_example =
    tombstone_blocks calls "p2" "a3" synthetic_projection "d" 1 "e" 9 accepts (run calls new)
      latch_after.1
