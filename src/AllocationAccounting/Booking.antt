-- ===== src/AllocationAccounting/Booking.antt =====
-- The accounting takes what the engine of allocations allocates, and keeps the ledger valid.
use unified.Base.{
  ℕ, ◌+◌, ◌-◌, ◌<◌, String, ◌≡◌, sym, ap, ◌∙◌, true, false, none, some, arith, eq_refl, ◌=ₛ◌, All,
  lookup, ok, ℤ, pos, +ℤ-pos,
}
use unified.Decimal.{set_string, to_string}
use unified.Decimal.RoundTrip.{set_string-to_string}
use unified.Ledger.{validate}
use unified.Allocation.{
  Allocation, Request, Obligation, Accounting, Engine, FinalPayment, canonical_non_negative, parsed,
  allocate,
}
use unified.Allocation.Waterfall.{allocate_conserves}
use unified.AllocationAccounting.{
  incomplete, checked_excess, allocation_excess, allocation_journals,
}
use unified.AllocationAccounting.Acceptance.{IsSplit, split-accepted}

printed : (n : ℕ) (s : String) → s ≡ to_string (pos n) → set_string s ≡ some (pos n)
printed n s e = ap set_string e ∙ set_string-to_string (pos n)

printed_canonical :
    (n : ℕ) (s : String) → s ≡ to_string (pos n) → canonical_non_negative s ≡ some (pos n)
unfolding canonical_non_negative
printed_canonical n s e =
    let h = printed n s e in
    let same : (to_string (pos n) =ₛ s) ≡ true = ap (λ x. x =ₛ s) (sym e) ∙ eq_refl s in
    ground arith

excess-of :
    (n e : ℕ)
    → 0 < n
    → checked_excess (some (pos (n + e))) (some (pos n)) (some (pos e)) ≡ some (pos e)
unfolding checked_excess
excess-of n e h = ground (arith, +ℤ-pos n e)

module _ (item : Allocation) (n e : ℕ) (complete : incomplete item ≡ false)
    (gross : item.gross_units ≡ to_string (pos (n + e)))
    (paid : item.principal_units ≡ to_string (pos n))
    (rest : item.refundable_excess_units ≡ to_string (pos e)) (some_units : 0 < n) where
  texts-IsSplit : IsSplit item n e
  texts-IsSplit = record {
    gross = printed (n + e) item.gross_units gross;
    paid = printed n item.principal_units paid;
    rest = printed e item.refundable_excess_units rest;
    some_units = some_units;
  }

  texts-excess : allocation_excess item ≡ some (pos e)
  unfolding allocation_excess
  texts-excess =
      let a = printed_canonical (n + e) item.gross_units gross in
      let b = printed_canonical n item.principal_units paid in
      let c = printed_canonical e item.refundable_excess_units rest in
      let sum = excess-of n e some_units in
      let checks : allocation_excess item
          ≡ checked_excess (canonical_non_negative item.gross_units)
              (canonical_non_negative item.principal_units)
              (canonical_non_negative item.refundable_excess_units) =
        ground arith in
      checks ∙ rw (a, b, c) sum

-- What the engine allocates to a new payment is taken by the checks of its accounting, and the ledger
-- accepts both of the journals that are made of it; the identity of the allocation must be complete.
pub allocate-accepted :
    (accounting : Accounting) (calculate_allocation_id : Request → String)
    (claim_digest : Allocation → FinalPayment → Obligation → String) (q : Request) (g : Engine)
    (o : Obligation) (d : ℕ) (done : Allocation) (g' : Engine)
    → lookup q.payment.payment_id g.by_payment ≡ none
    → lookup q.loan_id g.obligations ≡ some o
    → parsed o.outstanding_principal_units ≡ pos d
    → allocate accounting calculate_allocation_id claim_digest q g ≡ (ok done, g')
    → incomplete done ≡ false
    → (excess : ℤ) × (allocation_excess done ≡ some excess)
      × All (λ j. validate j ≡ ok tt) (allocation_journals done excess)
allocate-accepted accounting id digest q g o d done g' fresh found owes h complete =
    let all = allocate_conserves accounting id digest q g o d done g' fresh found owes h in
    let a = all.amounts in
    let e = all.units - a.principal in
    let gross : done.gross_units ≡ to_string (pos (a.principal + e)) =
      a.gross ∙ ap (λ x. to_string (pos x)) (omega (arith, a.covers)) in
    (
      pos e,
      texts-excess done a.principal e complete gross a.paid a.excess a.some_units,
      split-accepted done a.principal e complete
          (texts-IsSplit done a.principal e complete gross a.paid a.excess a.some_units),
    )
