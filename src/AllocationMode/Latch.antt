-- ===== src/AllocationMode/Latch.antt =====
-- The claiming and moving calls of the latch as steps.
use unified.Base.{
  ℕ, String, ◌≡◌, ◌⊎◌, inl, inr, false, none, some, arith, Option-cases, lookup, insert,
  Result-cases, Time,
}
use unified.AllocationMode.{
  Mode, CanonicalState, Claim, Registry, Commit, claim_synthetic, claim_canonical, publish,
  owned_by_other, synthetic_claim, canonical_claim, store_synthetic, claim_mode, store_canonical,
  claim_mode_with_commit, transition_with_commit,
}
use unified.AllocationMode.Steps.{Step, idle, stored, claimed, moved}

store_synthetic-Step :
    (c : Claim) (r : Registry)
    → lookup c.payment_id r.by_payment ≡ none
    → owned_by_other c.allocation_id c.payment_id r ≡ false
    → Step r (store_synthetic c r).1
store_synthetic-Step c r free unowned = elim (Result-cases (claim_synthetic c r.store).0) [
  | inl (e, q) ↦
      let k : (store_synthetic c r).1 ≡ record r { store = (claim_synthetic c r.store).1 } =
        unfold store_synthetic in ground arith in
      rw k (stored r _)
  | inr (b, q) ↦
      let k : (store_synthetic c r).1
          ≡ publish c record r { store = (claim_synthetic c r.store).1 } =
        unfold store_synthetic in ground arith in
      rw k (claimed r c _ free unowned)
]

claim_mode-cases :
    (p a : String) (m : Mode) (d : String) (v : ℕ) (e : String) (t : Time) (r : Registry)
    → ((claim_mode p a m d v e t r).1 ≡ r)
      ⊎ ((lookup p r.by_payment ≡ none)
          × (owned_by_other a p r ≡ false)
          × ((claim_mode p a m d v e t r).1 ≡ (store_synthetic (synthetic_claim p a d v e t) r).1))
unfolding claim_mode
claim_mode-cases p a m d v e t r = ground arith

pub claim_mode-Step :
    (p a : String) (m : Mode) (d : String) (v : ℕ) (e : String) (t : Time) (r : Registry)
    → Step r (claim_mode p a m d v e t r).1
claim_mode-Step p a m d v e t r = elim (claim_mode-cases p a m d v e t r) [
  | inl q ↦ rw q (idle r)
  | inr (free, unowned, q) ↦
      rw q (store_synthetic-Step (synthetic_claim p a d v e t) r free unowned)
]

unowned_free :
    (a p : String) (r : Registry) → lookup a r.by_allocation ≡ none → owned_by_other a p r ≡ false
unfolding owned_by_other
unowned_free a p r h = ground arith

store_canonical-Step :
    (c : Claim) (commit : Commit) (r : Registry)
    → lookup c.payment_id r.by_payment ≡ none
    → owned_by_other c.allocation_id c.payment_id r ≡ false
    → Step r (store_canonical c commit r).1
store_canonical-Step c commit r free unowned =
    let s = (claim_canonical c (commit c) r.store).1 in
    elim (Result-cases (claim_canonical c (commit c) r.store).0) [
      | inl (e, q) ↦
          let k : (store_canonical c commit r).1 ≡ record r { store = s } =
            unfold store_canonical in ground arith in
          rw k (stored r _)
      | inr (b, q) ↦
          let k : (store_canonical c commit r).1 ≡ publish c record r { store = s } =
            unfold store_canonical in ground arith in
          rw k (claimed r c _ free unowned)
    ]

claim_mode_with_commit-cases :
    (p a : String) (m : Mode) (d : String) (v : ℕ) (e : String) (t : Time) (commit : Commit)
    (r : Registry)
    → ((claim_mode_with_commit p a m d v e t commit r).1 ≡ r)
      ⊎ ((lookup p r.by_payment ≡ none)
          × (lookup a r.by_allocation ≡ none)
          × ((claim_mode_with_commit p a m d v e t commit r).1
              ≡ (store_canonical (canonical_claim p a d v e t) commit r).1))
unfolding claim_mode_with_commit
claim_mode_with_commit-cases p a m d v e t commit r = ground arith

pub claim_mode_with_commit-Step :
    (p a : String) (m : Mode) (d : String) (v : ℕ) (e : String) (t : Time) (commit : Commit)
    (r : Registry)
    → Step r (claim_mode_with_commit p a m d v e t commit r).1
claim_mode_with_commit-Step p a m d v e t commit r =
    elim (claim_mode_with_commit-cases p a m d v e t commit r) [
      | inl q ↦ rw q (idle r)
      | inr (free, unowned, q) ↦ rw q (
          store_canonical-Step (canonical_claim p a d v e t) commit r free
            (unowned_free a p r unowned))
    ]

-- A claim in another state is written, or nothing is.
abbrev Writes : String → Claim → CanonicalState → Registry → Registry → Type 0
Writes id c next r r' =
    (r' ≡ r) ⊎ (r' ≡ record r { by_payment = insert id record c { state = next } r.by_payment })

Writes-Step :
    (id : String) (c : Claim) (next : CanonicalState) (r r' : Registry)
    → lookup id r.by_payment ≡ some c
    → Writes id c next r r'
    → Step r r'
Writes-Step id c next r r' found (inl q) = rw q (idle r)
Writes-Step id c next r r' found (inr q) = rw q (moved id c next r found)

transition-none :
    (p a d : String) (expected next : CanonicalState) (commit : Commit) (r : Registry)
    → lookup p r.by_payment ≡ none
    → (transition_with_commit p a d expected next commit r).1 ≡ r
unfolding transition_with_commit
transition-none p a d expected next commit r q = ground arith

transition-Writes :
    (p a d : String) (expected next : CanonicalState) (commit : Commit) (r : Registry) (c : Claim)
    → lookup p r.by_payment ≡ some c
    → Writes p c next r (transition_with_commit p a d expected next commit r).1
unfolding transition_with_commit
transition-Writes p a d expected next commit r c q = ground arith

pub transition_with_commit-Step :
    (p a d : String) (expected next : CanonicalState) (commit : Commit) (r : Registry)
    → Step r (transition_with_commit p a d expected next commit r).1
transition_with_commit-Step p a d expected next commit r =
    elim (Option-cases (lookup p r.by_payment)) [
      | inl q ↦ rw (transition-none p a d expected next commit r q) (idle r)
      | inr (c, q) ↦ Writes-Step p c next r _ q (transition-Writes p a d expected next commit r c q)
    ]
