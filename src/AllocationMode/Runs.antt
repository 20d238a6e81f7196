-- ===== src/AllocationMode/Runs.antt =====
-- Runs of the allocation latch: what holds after any calls.
use unified.Base.{
  ℕ, String, ◌≡◌, refl, sym, ap, ◌∙◌, inl, inr, Bool, true, not, ◌||◌, Option, some, List, [], ◌∷◌,
  arith, ◌=ₛ◌, is_empty, Bool-cases, eq_of_text_eq, lookup, insert, lookup-insert,
  lookup-insert_self, lookup-insert_free, err, Time, is_zero,
}
use unified.AllocationMode.{
  Mode, CanonicalState, AllocationError, Claim, Registry, same_mode, synthetic_projection,
  canonical_gateway, Commit, new, is_reversed, find, claim_mode, claim_mode_with_commit,
  transition_with_commit, ReversalCommit, handle_reversal_with_commit, resolve_quarantined_reversal,
  restore, restore_tombstone,
}
use unified.AllocationMode.Steps.{Move, Step, SameIdentity}
use unified.AllocationMode.Latch.{
  claim_mode-Step, claim_mode_with_commit-Step, transition_with_commit-Step,
}
use unified.AllocationMode.Reversing.{
  handle_reversal_with_commit-Step, resolve_quarantined_reversal-Step, restore-Step,
  restore_tombstone-Step,
}
use unified.AllocationMode.Invariant.{
  IsLatched, new-IsLatched, free_allocation, keeps-IsLatched, claims-IsLatched, moves-IsLatched,
  some_inj,
}

-- A call of one of the methods that write, with the answers of its callback.
pub data Call : Type 0 where
  claiming : String → String → Mode → String → ℕ → String → Time → Call
  claiming_with_commit : String → String → Mode → String → ℕ → String → Time → Commit → Call
  transition : String → String → String → CanonicalState → CanonicalState → Commit → Call
  reversing : String → ReversalCommit → Call
  resolving : Claim → Option String → Call
  restoring : Claim → Bool → Call
  restoring_tombstone : String → Call

abbrev pub step : Call → Registry → Registry
step (Call.claiming p a m d v e t) r = (claim_mode p a m d v e t r).1
step (Call.claiming_with_commit p a m d v e t commit) r =
    (claim_mode_with_commit p a m d v e t commit r).1
step (Call.transition p a d expected next commit) r =
    (transition_with_commit p a d expected next commit r).1
step (Call.reversing p commit) r = (handle_reversal_with_commit p commit r).1
step (Call.resolving claim committed) r = (resolve_quarantined_reversal claim committed r).1
step (Call.restoring claim tombstoned) r = (restore claim tombstoned r).1
step (Call.restoring_tombstone p) r = (restore_tombstone p r).1

abbrev pub run : List Call → Registry → Registry
run [] r = r
run (c ∷ cs) r = run cs (step c r)

pub step-Step : (c : Call) (r : Registry) → Step r (step c r)
step-Step (Call.claiming p a m d v e t) r = claim_mode-Step p a m d v e t r
step-Step (Call.claiming_with_commit p a m d v e t commit) r =
    claim_mode_with_commit-Step p a m d v e t commit r
step-Step (Call.transition p a d expected next commit) r =
    transition_with_commit-Step p a d expected next commit r
step-Step (Call.reversing p commit) r = handle_reversal_with_commit-Step p commit r
step-Step (Call.resolving claim committed) r = resolve_quarantined_reversal-Step claim committed r
step-Step (Call.restoring claim tombstoned) r = restore-Step claim tombstoned r
step-Step (Call.restoring_tombstone p) r = restore_tombstone-Step p r

Step-IsLatched : (r r' : Registry) → IsLatched r → Move r r' → IsLatched r'
Step-IsLatched r r' v (Move.keeps a b) = keeps-IsLatched r r' v a b
Step-IsLatched r r' v (Move.claims_one c free unowned a b) =
    claims-IsLatched r r' v c free (free_allocation r c v free unowned) a b
Step-IsLatched r r' v (Move.moves_one id c c' found same a b) =
    moves-IsLatched r r' v id c c' found same a b

-- Any calls keep the invariant of the latch: the two maps agree.
pub run-IsLatched : (cs : List Call) (r : Registry) → IsLatched r → IsLatched (run cs r)
run-IsLatched [] r v = v
run-IsLatched (c ∷ cs) r v =
    run-IsLatched cs (step c r) (Step-IsLatched r (step c r) v (step-Step c r).move)

-- From an empty latch, after any calls, two payments whose claims have the same allocation are the
-- same payment.
pub allocation_exclusive :
    (cs : List Call) (p₁ p₂ : String) (c₁ c₂ : Claim)
    → find p₁ (run cs new) ≡ some c₁
    → find p₂ (run cs new) ≡ some c₂
    → c₁.allocation_id ≡ c₂.allocation_id
    → p₁ ≡ p₂
unfolding find
allocation_exclusive cs p₁ p₂ c₁ c₂ h₁ h₂ e =
    let v = run-IsLatched cs new new-IsLatched in
    let (_, o₁) = v.filed p₁ c₁ h₁ in
    let (_, o₂) = v.filed p₂ c₂ h₂ in
    some_inj (sym o₁ ∙ ap (λ a. lookup a (run cs new).by_allocation) e ∙ o₂)

Move-same :
    (r r' : Registry) (p : String) (c : Claim)
    → Move r r'
    → lookup p r.by_payment ≡ some c
    → (c' : Claim) × (lookup p r'.by_payment ≡ some c') × SameIdentity c c'
Move-same r r' p c (Move.keeps a b) h = (c, ap (lookup p) a ∙ h, refl)
Move-same r r' p c (Move.claims_one d free unowned a b) h =
    (c, ap (lookup p) a ∙ lookup-insert_free d.payment_id p d r.by_payment free h, refl)
Move-same r r' p c (Move.moves_one id d d' found same a b) h = elim (Bool-cases (id =ₛ p)) [
  | inl k ↦
      let i = eq_of_text_eq id p k in
      let own : d ≡ c = some_inj (sym found ∙ ap (λ x. lookup x r.by_payment) i ∙ h) in
      (
        d',
        ap (lookup p) a
            ∙ ap (λ x. lookup x (insert id d' r.by_payment)) (sym i)
            ∙ lookup-insert_self id d' r.by_payment,
        ap {A = Claim} (λ x. record x { state = d'.state }) (sym own) ∙ same,
      )
  | inr k ↦ (c, ap (lookup p) a ∙ ground (arith, lookup-insert id p d' r.by_payment, k, h), refl)
]

-- A claim is never taken back, and keeps all but its state, through any calls: a payment that one of
-- the two allocators has claimed stays with that allocator.
pub claim_immutable :
    (cs : List Call) (r : Registry) (p : String) (c : Claim)
    → find p r ≡ some c
    → (c' : Claim) × (find p (run cs r) ≡ some c') × (record c { state = c'.state } ≡ c')
unfolding find
claim_immutable [] r p c h = (c, h, refl)
claim_immutable (call ∷ cs) r p c h =
    let (c₁, h₁, e₁) = Move-same r (step call r) p c (step-Step call r).move h in
    let (c₂, h₂, e₂) = claim_immutable cs (step call r) p c₁ h₁ in
    (c₂, h₂, ap {A = Claim} (λ x. record x { state = c₂.state }) e₁ ∙ e₂)

reversed_stays :
    (cs : List Call) (r : Registry) (p : String)
    → is_reversed p r ≡ true
    → is_reversed p (run cs r) ≡ true
reversed_stays [] r p h = h
reversed_stays (c ∷ cs) r p h = reversed_stays cs (step c r) p ((step-Step c r).grows p h)

claim_mode-refused :
    (p a : String) (m : Mode) (d : String) (v : ℕ) (e : String) (t : Time) (r : Registry)
    → is_reversed p r ≡ true
    → (x : AllocationError) × (claim_mode p a m d v e t r ≡ (err x, r))
unfolding claim_mode
claim_mode-refused p a m d v e t r h =
    elim (Bool-cases (
      is_empty p
      || is_empty a
      || is_empty d
      || is_empty e
      || is_zero t
      || not (same_mode m synthetic_projection))) [
        | inl q ↦ (AllocationError.invalid_claim, ground (arith, q))
        | inr q ↦ (AllocationError.claim_conflict, ground (arith, q, h))
      ]

claim_mode_with_commit-refused :
    (p a : String) (m : Mode) (d : String) (v : ℕ) (e : String) (t : Time) (commit : Commit)
    (r : Registry)
    → is_reversed p r ≡ true
    → (x : AllocationError) × (claim_mode_with_commit p a m d v e t commit r ≡ (err x, r))
unfolding claim_mode_with_commit
claim_mode_with_commit-refused p a m d v e t commit r h =
    elim (Bool-cases (
      is_empty p
      || is_empty a
      || is_empty d
      || is_empty e
      || is_zero t
      || not (same_mode m canonical_gateway))) [
        | inl q ↦ (AllocationError.invalid_claim, ground (arith, q))
        | inr q ↦ (AllocationError.claim_conflict, ground (arith, q, h))
      ]

-- A payment with a tombstone is refused by both claiming methods after any further calls, and they
-- write nothing.
pub tombstone_blocks :
    (cs : List Call) (p a : String) (m : Mode) (d : String) (v : ℕ) (e : String) (t : Time)
    (commit : Commit) (r : Registry)
    → is_reversed p r ≡ true
    → ((x : AllocationError) × (claim_mode p a m d v e t (run cs r) ≡ (err x, run cs r)))
      × ((x : AllocationError) × (claim_mode_with_commit p a m d v e t commit (run cs r)
            ≡ (err x, run cs r)))
tombstone_blocks cs p a m d v e t commit r h =
    let k = reversed_stays cs r p h in
    (
      claim_mode-refused p a m d v e t (run cs r) k,
      claim_mode_with_commit-refused p a m d v e t commit (run cs r) k,
    )
