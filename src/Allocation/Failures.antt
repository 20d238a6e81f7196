-- ===== src/Allocation/Failures.antt =====
-- What `Allocate` of services/payment-orchestrator/allocation/allocation.go leaves behind when it fails.
use unified.Base.{
  String, ◌≡◌, refl, sym, ap, ◌∙◌, ◌⊎◌, inl, inr, none, some, arith, Option-cases, lookup, err,
  Result-cases,
}
use unified.AllocationMode.{claim_mode, Registry, synthetic_projection}
use unified.Allocation.{
  Obligation, FinalPayment, Request, Allocation, EngineError, Accounting, Engine, parsed, covered,
  allocation_of, book_allocation, claim_allocation, allocate_to, allocate_fresh, allocate,
}

module _ (accounting : Accounting) (calculate_allocation_id : Request → String)
    (claim_digest : Allocation → FinalPayment → Obligation → String) where
  -- Nothing of the engine but the latch has changed.
  abbrev pub SameBooks : Engine → Engine → Type 0
  SameBooks g g' =
      (g'.obligations ≡ g.obligations)
      × (g'.allocations ≡ g.allocations)
      × (g'.by_payment ≡ g.by_payment)
      × (g'.reversals ≡ g.reversals)

  book_allocation-SameBooks :
      (q : Request) (o : Obligation) (a : Allocation) (g : Engine) {e : EngineError}
      → (book_allocation accounting calculate_allocation_id claim_digest q o a g).0 ≡ err e
      → (book_allocation accounting calculate_allocation_id claim_digest q o a g).1 ≡ g
  unfolding book_allocation
  book_allocation-SameBooks q o a g h = ground arith

  claim_allocation-cases :
      (q : Request) (o : Obligation) (a : Allocation) (g : Engine)
      → (modes : Registry) × (((claim_allocation accounting calculate_allocation_id claim_digest q o
              a g).1
            ≡ record g { modes = modes })
          ⊎ (claim_allocation accounting calculate_allocation_id claim_digest q o a g
              ≡ book_allocation accounting calculate_allocation_id claim_digest q o a
                  record g { modes = modes }))
  claim_allocation-cases q o a g =
      let claimed =
        claim_mode a.payment_id a.allocation_id synthetic_projection a.claim_digest
          q.payment.payment_version a.evidence_hash a.allocated_at g.modes in
      (
        claimed.1,
        elim (Result-cases claimed.0) [
          | inl (e, k) ↦ inl (unfold claim_allocation in ground arith)
          | inr (c, k) ↦ inr (unfold claim_allocation in ground arith)
        ],
      )

  claim_allocation-SameBooks :
      (q : Request) (o : Obligation) (a : Allocation) (g : Engine) {e : EngineError}
      → (claim_allocation accounting calculate_allocation_id claim_digest q o a g).0 ≡ err e
      → SameBooks g (claim_allocation accounting calculate_allocation_id claim_digest q o a g).1
  claim_allocation-SameBooks q o a g h =
      let (modes, cases) = claim_allocation-cases q o a g in
      elim cases [
        | inl k ↦ rw k (refl, refl, refl, refl)
        | inr k ↦
            let same =
              book_allocation-SameBooks q o a record g { modes = modes }
                (ap (λ x. x.0) (sym k) ∙ h) in
            rw (ap (λ x. x.1) k ∙ same) (refl, refl, refl, refl)
      ]

  allocate-cases :
      (q : Request) (g : Engine)
      → ((allocate accounting calculate_allocation_id claim_digest q g).1 ≡ g)
        ⊎ ((o : Obligation) × (a : Allocation) × (allocate accounting calculate_allocation_id
                claim_digest q g
              ≡ claim_allocation accounting calculate_allocation_id claim_digest q o a g))
  allocate-cases q g = elim (Option-cases (lookup q.payment.payment_id g.by_payment)) [
    | inr (id, k) ↦ inl (unfold allocate in ground arith)
    | inl k ↦ elim (Option-cases (lookup q.loan_id g.obligations)) [
      | inl n ↦ inl (unfold allocate allocate_fresh in ground arith)
      | inr (o, f) ↦ to_cases o k f
    ]
  ]
    where
      to_cases :
          (o : Obligation)
          → lookup q.payment.payment_id g.by_payment ≡ none
          → lookup q.loan_id g.obligations ≡ some o
          → ((allocate accounting calculate_allocation_id claim_digest q g).1 ≡ g)
            ⊎ ((o : Obligation) × (a : Allocation) × (allocate accounting calculate_allocation_id
                    claim_digest q g
                  ≡ claim_allocation accounting calculate_allocation_id claim_digest q o a g))
      to_cases o k f =
          let debt = parsed o.outstanding_principal_units in
          let gross = parsed q.payment.units in
          let a = allocation_of q o debt gross (covered gross debt) in
          let a' : Allocation = record a { claim_digest = claim_digest a q.payment o } in
          let two : ((allocate accounting calculate_allocation_id claim_digest q g).1 ≡ g)
              ⊎ (allocate accounting calculate_allocation_id claim_digest q g
                  ≡ claim_allocation accounting calculate_allocation_id claim_digest q o a' g) =
            unfold allocate allocate_fresh allocate_to in ground arith in
          elim two [ inl e ↦ inl e | inr e ↦ inr (o, a', e) ]

  -- A call of Allocate that answers with an error, of its checks, of the latch or of the accounting,
  -- leaves obligations, allocations and reversals as they were; only the latch may hold a claim.
  pub allocate_error_keeps :
      (q : Request) (g : Engine) {e : EngineError}
      → (allocate accounting calculate_allocation_id claim_digest q g).0 ≡ err e
      → SameBooks g (allocate accounting calculate_allocation_id claim_digest q g).1
  allocate_error_keeps q g h = elim (allocate-cases q g) [
    | inl k ↦ rw k (refl, refl, refl, refl)
    | inr (o, a, k) ↦ rw k (claim_allocation-SameBooks q o a g (ap (λ x. x.0) (sym k) ∙ h))
  ]
