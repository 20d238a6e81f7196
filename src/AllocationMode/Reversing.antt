-- ===== src/AllocationMode/Reversing.antt =====
-- The reversing and restoring calls of the latch as steps.
use unified.Base.{
  String, ◌≡◌, refl, ap, ◌∙◌, ◌⊎◌, inl, inr, Bool, true, false, Option, none, some, arith, eq_iff,
  is_empty, Bool-cases, Option-cases, lookup, insert,
}
use unified.AllocationMode.{
  CanonicalState, ReversalDisposition, Claim, Registry, prepared, submitted, confirmed, failed,
  quarantined, incident, other_state, reversal_unclaimed, reversal_synthetic, same_claim, publish,
  update, tombstone, owned_by_other, ReversalCommit, reversal_commit, zero_claim, reverse_to,
  reverse_canonical, handle_reversal_with_commit, resolve_quarantined_reversal, tombstone_if,
  restore, restore_tombstone,
}
use unified.AllocationMode.Steps.{Step, idle, claimed, moved, buried, bury}

reversal_commit-cases :
    (commit : ReversalCommit) (c : Claim) (disposition : ReversalDisposition) (permanent : Bool)
    (answer : Claim) (r' r : Registry)
    → ((reversal_commit commit c disposition permanent answer r' r).1 ≡ r)
      ⊎ ((reversal_commit commit c disposition permanent answer r' r).1 ≡ r')
unfolding reversal_commit
reversal_commit-cases none c disposition permanent answer r' r = inl refl
reversal_commit-cases (some commit) c disposition permanent answer r' r = ground arith

reversal_commit-Step :
    (commit : ReversalCommit) (c : Claim) (disposition : ReversalDisposition) (permanent : Bool)
    (answer : Claim) (r' r : Registry)
    → Step r r'
    → Step r (reversal_commit commit c disposition permanent answer r' r).1
reversal_commit-Step commit c disposition permanent answer r' r step =
    elim (reversal_commit-cases commit c disposition permanent answer r' r) [
      | inl q ↦ rw q (idle r)
      | inr q ↦ rw q step
    ]

reverse_canonical-Step :
    (state : CanonicalState) (p : String) (c : Claim) (commit : ReversalCommit) (r : Registry)
    → lookup p r.by_payment ≡ some c
    → Step r (reverse_canonical state p c commit r).1
unfolding reverse_canonical reverse_to
reverse_canonical-Step prepared p c commit r q =
    reversal_commit-Step commit c _ _ _ _ r (moved p c quarantined r q)
reverse_canonical-Step failed p c commit r q =
    reversal_commit-Step commit c _ _ _ _ r (moved p c quarantined r q)
reverse_canonical-Step submitted p c commit r q =
    reversal_commit-Step commit c _ _ _ _ r (moved p c quarantined r q)
reverse_canonical-Step quarantined p c commit r q = idle r
reverse_canonical-Step confirmed p c commit r q =
    reversal_commit-Step commit c _ _ _ _ r (moved p c incident r q)
reverse_canonical-Step incident p c commit r q = idle r
reverse_canonical-Step (other_state s) p c commit r q = idle r

handle_reversal-some :
    (p : String) (commit : ReversalCommit) (r : Registry) (c : Claim)
    → lookup p r.by_payment ≡ some c
    → ((handle_reversal_with_commit p commit r).1 ≡ r)
      ⊎ ((handle_reversal_with_commit p commit r).1
          ≡ (reversal_commit commit c reversal_synthetic true c (tombstone p r) r).1)
      ⊎ ((handle_reversal_with_commit p commit r).1 ≡ (reverse_canonical c.state p c commit r).1)
unfolding handle_reversal_with_commit
handle_reversal-some p commit r c q = ground arith

handle_reversal-none :
    (p : String) (commit : ReversalCommit) (r : Registry)
    → lookup p r.by_payment ≡ none
    → ((handle_reversal_with_commit p commit r).1 ≡ r)
      ⊎ ((handle_reversal_with_commit p commit r).1
          ≡ (reversal_commit commit
              record zero_claim { payment_id = p }
              reversal_unclaimed
              true
              zero_claim
              (tombstone p r)
              r).1)
unfolding handle_reversal_with_commit
handle_reversal-none p commit r q = ground arith

pub handle_reversal_with_commit-Step :
    (p : String) (commit : ReversalCommit) (r : Registry)
    → Step r (handle_reversal_with_commit p commit r).1
handle_reversal_with_commit-Step p commit r = elim (Option-cases (lookup p r.by_payment)) [
  | inl q ↦ elim (handle_reversal-none p commit r q) [
    | inl k ↦ rw k (idle r)
    | inr k ↦ rw k (reversal_commit-Step commit _ _ _ _ _ r (buried p r))
  ]
  | inr (c, q) ↦ elim (handle_reversal-some p commit r c q) [
    | inl k ↦ rw k (idle r)
    | inr (inl k) ↦ rw k (reversal_commit-Step commit _ _ _ _ _ r (buried p r))
    | inr (inr k) ↦ rw k (reverse_canonical-Step c.state p c commit r q)
  ]
]

resolve-cases :
    (claim : Claim) (committed : Option String) (r : Registry) (c : Claim)
    → lookup claim.payment_id r.by_payment ≡ some c
    → ((resolve_quarantined_reversal claim committed r).1 ≡ r)
      ⊎ ((c.payment_id ≡ claim.payment_id)
          × ((resolve_quarantined_reversal claim committed r).1
              ≡ tombstone c.payment_id (update record c { state = failed } r)))
unfolding resolve_quarantined_reversal same_claim
resolve-cases claim committed r c q = ground (arith, eq_iff c.payment_id claim.payment_id)

resolve-none :
    (claim : Claim) (committed : Option String) (r : Registry)
    → lookup claim.payment_id r.by_payment ≡ none
    → (resolve_quarantined_reversal claim committed r).1 ≡ r
unfolding resolve_quarantined_reversal
resolve-none claim committed r q = ground arith

update-Step :
    (p : String) (c : Claim) (next : CanonicalState) (r : Registry)
    → lookup p r.by_payment ≡ some c
    → c.payment_id ≡ p
    → Step r (update record c { state = next } r)
update-Step p c next r found e =
    unfold update in moved c.payment_id c next r (ap (λ k. lookup k r.by_payment) e ∙ found)

pub resolve_quarantined_reversal-Step :
    (claim : Claim) (committed : Option String) (r : Registry)
    → Step r (resolve_quarantined_reversal claim committed r).1
resolve_quarantined_reversal-Step claim committed r =
    elim (Option-cases (lookup claim.payment_id r.by_payment)) [
      | inl q ↦ rw (resolve-none claim committed r q) (idle r)
      | inr (c, q) ↦ elim (resolve-cases claim committed r c q) [
        | inl k ↦ rw k (idle r)
        | inr (e, k) ↦ rw k (bury c.payment_id r _ (update-Step claim.payment_id c failed r q e))
      ]
    ]

restore-some :
    (claim : Claim) (tombstoned : Bool) (r : Registry) (c : Claim)
    → lookup claim.payment_id r.by_payment ≡ some c
    → ((restore claim tombstoned r).1 ≡ r)
      ⊎ ((restore claim tombstoned r).1
          ≡ tombstone_if tombstoned claim.payment_id record r {
            by_payment = insert claim.payment_id record c { state = claim.state } r.by_payment;
          })
unfolding restore
restore-some claim tombstoned r c q = ground arith

restore-none :
    (claim : Claim) (tombstoned : Bool) (r : Registry)
    → lookup claim.payment_id r.by_payment ≡ none
    → ((restore claim tombstoned r).1 ≡ r)
      ⊎ ((owned_by_other claim.allocation_id claim.payment_id r ≡ false)
          × ((restore claim tombstoned r).1
              ≡ tombstone_if tombstoned claim.payment_id (publish claim r)))
unfolding restore
restore-none claim tombstoned r q = ground arith

tombstone_if-Step :
    (b : Bool) (p : String) (r r' : Registry) → Step r r' → Step r (tombstone_if b p r')
tombstone_if-Step true p r r' step = bury p r r' step
tombstone_if-Step false p r r' step = step

pub restore-Step :
    (claim : Claim) (tombstoned : Bool) (r : Registry) → Step r (restore claim tombstoned r).1
restore-Step claim tombstoned r = elim (Option-cases (lookup claim.payment_id r.by_payment)) [
  | inl q ↦ elim (restore-none claim tombstoned r q) [
    | inl k ↦ rw k (idle r)
    | inr (unowned, k) ↦
        rw k (tombstone_if-Step tombstoned claim.payment_id r _ (claimed r claim r.store q unowned))
  ]
  | inr (c, q) ↦ elim (restore-some claim tombstoned r c q) [
    | inl k ↦ rw k (idle r)
    | inr k ↦ rw k (
        tombstone_if-Step tombstoned claim.payment_id r _
          (moved claim.payment_id c claim.state r q))
  ]
]

pub restore_tombstone-Step : (p : String) (r : Registry) → Step r (restore_tombstone p r).1
unfolding restore_tombstone
restore_tombstone-Step p r = elim (Bool-cases (is_empty p)) [
  | inl q ↦ rw q (idle r)
  | inr q ↦ rw q (buried p r)
]
