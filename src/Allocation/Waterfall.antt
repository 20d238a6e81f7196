-- ===== src/Allocation/Waterfall.antt =====
-- What `Allocate` of services/payment-orchestrator/allocation/allocation.go does with the units of a
-- payment.
use unified.Base.{
  ℕ, zero, suc, ◌+◌, ◌-◌, ◌<◌, min, String, ◌≡◌, refl, sym, ap, ◌∙◌, inl, inr, true, false, Option,
  none, some, List, arith, ltb, Bool-cases, Option-cases, lookup, lookup-insert_self, Result, ok,
  Result-cases, ℤ, pos, negsuc, eqb_ℤ, -ℤ-pos,
}
use unified.Decimal.{to_string, set_string}
use unified.AllocationMode.{claim_mode, synthetic_projection}
use unified.Allocation.{
  Obligation, FinalPayment, Request, Allocation, Accounting, Engine, u64, checked,
  canonical_positive, parsed, valid_final_payment, covered, allocation_of, commit_allocation,
  obligation_refused, book_allocation, claim_allocation, allocate_to, bad_request, allocate_fresh,
  allocate,
}

-- The principal of a payment: not above the payment and not above the debt.
covered-min : (n d : ℕ) → (p : ℕ) × (covered (pos n) (pos d) ≡ pos p) × (p ≡ min n d)
unfolding covered
covered-min n d = elim (Bool-cases (ltb d n)) [
  | inl h ↦ (d, ground (arith, h), ground arith)
  | inr h ↦ (n, ground (arith, h), ground arith)
]

checked-pos :
    (s : String) (o : Option ℤ) {z : ℤ}
    → checked true s o ≡ some z
    → (n : ℕ) × (o ≡ some (pos (suc n)))
checked-pos s none h = absurd (cc)
checked-pos s (some (pos zero)) h = absurd (ground arith)
checked-pos s (some (pos (suc n))) h = (n, refl)
checked-pos s (some (negsuc n)) h = absurd (ground arith)

valid_units :
    (p : FinalPayment)
    → valid_final_payment p ≡ true
    → (z : ℤ) × (canonical_positive p.units ≡ some z)
valid_units p h = elim (Option-cases (canonical_positive p.units)) [
  | inl q ↦ absurd (unfold valid_final_payment in ground arith)
  | inr found ↦ found
]

payment_units :
    (p : FinalPayment) → valid_final_payment p ≡ true → (n : ℕ) × (parsed p.units ≡ pos (suc n))
payment_units p h =
    let (z, q) = valid_units p h in
    let (n, k) =
      checked-pos p.units (set_string p.units) {z = z} (unfold canonical_positive in q) in
    (n, unfold parsed in ground (arith, k))

module _ (accounting : Accounting) (calculate_allocation_id : Request → String)
    (claim_digest : Allocation → FinalPayment → Obligation → String) where
  -- What is booked: the record with its journals, and the writes.
  record Booked (q : Request) (o : Obligation) (a : Allocation) (g : Engine) (done : Allocation)
      (g' : Engine) : Type 0 where
    journal_ids : List String
    base : Engine
    kept : base.obligations ≡ g.obligations
    recorded : record a { journal_ids = journal_ids } ≡ done
    written : commit_allocation q o done base ≡ g'

  pair_ok :
      {E A B : Type 0} {a a' : A} {b b' : B}
      → ◌≡◌ {A = Result E A × B} (ok a, b) (ok a', b')
      → (a ≡ a') × (b ≡ b')
  pair_ok h = (cc, cc)

  book_allocation-Booked :
      (q : Request) (o : Obligation) (a : Allocation) (g base : Engine) {done : Allocation}
      {g' : Engine}
      → base.obligations ≡ g.obligations
      → book_allocation accounting calculate_allocation_id claim_digest q o a base ≡ (ok done, g')
      → Booked q o a g done g'
  book_allocation-Booked q o a g base kept h = elim (Result-cases (accounting.apply_allocation a)) [
    | inl (text, k) ↦ absurd (unfold book_allocation in ground arith)
    | inr (ids, k) ↦
        let a' : Allocation = record a { journal_ids = ids } in
        let e : book_allocation accounting calculate_allocation_id claim_digest q o a base
            ≡ (ok a', commit_allocation q o a' base) =
          unfold book_allocation in ground arith in
        let (same, w) = pair_ok (sym e ∙ h) in
        record {
          journal_ids = ids;
          base = base;
          kept = kept;
          recorded = same;
          written = ap (λ x. commit_allocation q o x base) (sym same) ∙ w;
        }
  ]

  claim_allocation-Booked :
      (q : Request) (o : Obligation) (a : Allocation) (g : Engine) {done : Allocation} {g' : Engine}
      → claim_allocation accounting calculate_allocation_id claim_digest q o a g ≡ (ok done, g')
      → Booked q o a g done g'
  claim_allocation-Booked q o a g h =
      let claimed =
        claim_mode a.payment_id a.allocation_id synthetic_projection a.claim_digest
          q.payment.payment_version a.evidence_hash a.allocated_at g.modes in
      elim (Result-cases claimed.0) [
        | inl (e, k) ↦ absurd (unfold claim_allocation in ground arith)
        | inr (c, k) ↦
            let e : claim_allocation accounting calculate_allocation_id claim_digest q o a g
                ≡ book_allocation accounting calculate_allocation_id claim_digest q o a
                    record g { modes = claimed.1 } =
              unfold claim_allocation in ground arith in
            book_allocation-Booked q o a g record g { modes = claimed.1 } refl (sym e ∙ h)
      ]

  allocate-fresh :
      (q : Request) (g : Engine) (o : Obligation) {done : Allocation} {g' : Engine}
      → lookup q.payment.payment_id g.by_payment ≡ none
      → lookup q.loan_id g.obligations ≡ some o
      → allocate accounting calculate_allocation_id claim_digest q g ≡ (ok done, g')
      → (bad_request accounting calculate_allocation_id claim_digest q ≡ false)
        × (allocate_to accounting calculate_allocation_id claim_digest q o g ≡ (ok done, g'))
  unfolding allocate allocate_fresh
  allocate-fresh q g o fresh found h = ground arith

  allocate_to-claim :
      (q : Request) (o : Obligation) (g : Engine) {done : Allocation} {g' : Engine}
      → allocate_to accounting calculate_allocation_id claim_digest q o g ≡ (ok done, g')
      → let debt = parsed o.outstanding_principal_units in
        let gross = parsed q.payment.units in
        let a = allocation_of q o debt gross (covered gross debt) in
        (obligation_refused q o ≡ false)
        × (eqb_ℤ (covered gross debt) (pos 0) ≡ false)
        × (claim_allocation accounting calculate_allocation_id claim_digest q o
              record a { claim_digest = claim_digest a q.payment o }
              g
            ≡ (ok done, g'))
  unfolding allocate_to
  allocate_to-claim q o g h = ground arith

  request_units :
      (q : Request)
      → bad_request accounting calculate_allocation_id claim_digest q ≡ false
      → valid_final_payment q.payment ≡ true
  unfolding bad_request
  request_units q h = ground arith

  -- The amounts of the record that is booked, for a payment of n units on a debt of d.
  pub record Amounts (n d : ℕ) (done : Allocation) : Type 0 where
    pub principal : ℕ
    pub covers : principal ≡ min n d
    pub some_units : 0 < principal
    pub gross : done.gross_units ≡ to_string (pos n)
    pub paid : done.principal_units ≡ to_string (pos principal)
    pub excess : done.refundable_excess_units ≡ to_string (pos (n - principal))
    before : done.debt_before_units ≡ to_string (pos d)
    after : done.debt_after_units ≡ to_string (pos (d - principal))

  amounts_of :
      (q : Request) (o : Obligation) (n d p : ℕ) (ids : List String) (digest : String)
      (done : Allocation)
      → p ≡ min n d
      → 0 < p
      → record (allocation_of q o (pos d) (pos n) (pos p)) {
        claim_digest = digest;
        journal_ids = ids;
      }
        ≡ done
      → Amounts n d done
  unfolding allocation_of
  amounts_of q o n d p ids digest done least positive same = rw (← same) record {
    principal = p;
    covers = least;
    some_units = positive;
    gross = refl;
    paid = refl;
    excess = ap to_string (-ℤ-pos n p (omega arith));
    before = refl;
    after = ap to_string (-ℤ-pos d p (omega arith));
  }

  -- What `Allocate` promises of a new payment of n units on a debt of d.
  pub record IsAllocated (q : Request) (o : Obligation) (d : ℕ) (done : Allocation) (g' : Engine)
      : Type 0 where
    pub units : ℕ
    pub parsed_units : parsed q.payment.units ≡ pos units
    pub amounts : Amounts units d done
    pub after : Obligation
    pub written : lookup o.loan_id g'.obligations ≡ some after
    pub owed : after.outstanding_principal_units ≡ done.debt_after_units
    pub next_version : after.version ≡ u64 (o.version + 1)
    pub filed : lookup done.payment_id g'.by_payment ≡ some done.allocation_id
    pub kept : lookup done.allocation_id g'.allocations ≡ some done

  committed :
      (q : Request) (o : Obligation) (d n : ℕ) (done : Allocation) (base g' : Engine)
      → parsed q.payment.units ≡ pos n
      → Amounts n d done
      → commit_allocation q o done base ≡ g'
      → IsAllocated q o d done g'
  unfolding commit_allocation
  committed q o d n done base g' e amounts w = rw (← w) record {
    units = n;
    parsed_units = e;
    amounts = amounts;
    after = record o {
      outstanding_principal_units = done.debt_after_units;
      version = u64 (o.version + 1);
      as_of = q.allocated_at;
      source_authority = "SYNTHETIC_PAYMENT_ALLOCATION";
      source_evidence_hash = q.evidence_hash;
    };
    written = lookup-insert_self o.loan_id _ base.obligations;
    owed = refl;
    next_version = refl;
    filed = lookup-insert_self done.payment_id done.allocation_id base.by_payment;
    kept = lookup-insert_self done.allocation_id done base.allocations;
  }

  covered_positive : (n d p : ℕ) {x : ℤ} → x ≡ pos p → eqb_ℤ x (pos 0) ≡ false → 0 < p
  covered_positive n d p e h = ground (arith, e, h)

  units_eq :
      (q : Request) (o : Obligation) {debt gross principal x y z : ℤ} (ids : List String)
      (digest : String)
      → debt ≡ x
      → gross ≡ y
      → principal ≡ z
      → ◌≡◌ {A = Allocation}
          record (allocation_of q o x y z) { claim_digest = digest; journal_ids = ids }
          record (allocation_of q o debt gross principal) {
            claim_digest = digest;
            journal_ids = ids;
          }
  units_eq q o ids digest a b c = cc

  -- A payment that is not allocated yet, on a debt of d, is split without loss if it is accepted: the
  -- principal is the smaller of payment and debt and not zero, the rest of the payment is the
  -- refundable excess, the rest of the debt is what the obligation owes afterwards, with the next
  -- version; and the allocation is filed under its payment.
  pub allocate_conserves :
      (q : Request) (g : Engine) (o : Obligation) (d : ℕ) (done : Allocation) (g' : Engine)
      → lookup q.payment.payment_id g.by_payment ≡ none
      → lookup q.loan_id g.obligations ≡ some o
      → parsed o.outstanding_principal_units ≡ pos d
      → allocate accounting calculate_allocation_id claim_digest q g ≡ (ok done, g')
      → IsAllocated q o d done g'
  allocate_conserves q g o d done g' fresh found owes h =
      let (good, to) = allocate-fresh q g o fresh found h in
      let (_, some_principal, claim) = allocate_to-claim q o g to in
      let (n, e) = payment_units q.payment (request_units q good) in
      let (p, c, least) = covered-min (suc n) d in
      let b = claim_allocation-Booked q o _ g claim in
      let c' : covered (parsed q.payment.units) (parsed o.outstanding_principal_units) ≡ pos p =
        rw (e, owes) c in
      committed q o d (suc n) done b.base g' e
        (amounts_at q o (suc n) d p b.journal_ids _ done e owes c' least
          (covered_positive (suc n) d p c' some_principal) b.recorded)
        b.written
    where
      amounts_at :
          (q : Request) (o : Obligation) (n d p : ℕ) (ids : List String) (digest : String)
          (done : Allocation)
          → parsed q.payment.units ≡ pos n
          → parsed o.outstanding_principal_units ≡ pos d
          → covered (parsed q.payment.units) (parsed o.outstanding_principal_units) ≡ pos p
          → p ≡ min n d
          → 0 < p
          → record (allocation_of q o
              (parsed o.outstanding_principal_units)
              (parsed q.payment.units)
              (covered (parsed q.payment.units) (parsed o.outstanding_principal_units))) {
                claim_digest = digest;
                journal_ids = ids;
              }
            ≡ done
          → Amounts n d done
      amounts_at q o n d p ids digest done e owes c least positive same =
          amounts_of q o n d p ids digest done least positive
            (units_eq q o ids digest owes e c ∙ same)
