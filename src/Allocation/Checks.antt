-- ===== src/Allocation/Checks.antt =====
-- The checks and constructors of services/payment-orchestrator/allocation/allocation.go.
use unified.Base.{
  ℕ, ◌%◌, String, Bool, true, false, not, ◌&&◌, ◌||◌, Option, none, some, List, [], ◌∷◌, ltb, ◌==◌,
  ◌=ₛ◌, is_empty, if◌then◌else◌, Dict, insert, contains, Result, ok, err, ℤ, pos, ltb_ℤ, leb_ℤ,
  eqb_ℤ, is_zero, after,
}
use unified.Decimal.{set_string, to_string}
use unified.AllocationMode.{Registry}
use unified.Allocation.Types.{
  Obligation, FinalPayment, Request, Allocation, EngineError, Engine, invalid_obligation,
}

-- `payment.StatusFinal` and `payment.StatusReversed`
abbrev pub status_final : String
status_final = "FINAL"

abbrev pub status_reversed : String
status_reversed = "REVERSED"

abbrev pub u64 : ℕ → ℕ
u64 n = n % 18446744073709551616

-- A parsed value above a bound whose decimal text is the input.
abbrev pub checked : Bool → String → Option ℤ → Option ℤ
checked strict s none = none
checked strict s (some z) =
    if (if strict then ltb_ℤ (pos 0) z else leb_ℤ (pos 0) z) && (to_string z =ₛ s)
    then some z
    else none

unfoldable pub canonical_positive : String → Option ℤ
canonical_positive s = checked true s (set_string s)

unfoldable pub canonical_non_negative : String → Option ℤ
canonical_non_negative s = checked false s (set_string s)

-- The first result of the two, where the second is dropped: the parsed value. A text that is not a
-- number gives nil there, which does not occur on the texts of the engine; it is 0 here.
unfoldable pub parsed : String → ℤ
parsed s = elim (set_string s) [ none ↦ pos 0 | some z ↦ z ]

unfoldable pub valid_obligation : Obligation → Bool
valid_obligation o =
    not (is_empty o.loan_id)
    && not (is_empty o.borrower_id)
    && not (is_empty o.lender_id)
    && not (is_empty o.asset_id)
    && ltb 0 o.version
    && not (is_empty o.source_authority)
    && not (is_empty o.source_evidence_hash)
    && not (is_zero o.as_of)
    && elim (canonical_positive o.outstanding_principal_units) [ none ↦ false | some _ ↦ true ]

unfoldable pub valid_final_payment : FinalPayment → Bool
valid_final_payment p =
    not (is_empty p.payment_id)
    && not (is_empty p.provider_id)
    && not (is_empty p.provider_reference)
    && not (is_empty p.asset_id)
    && (p.status =ₛ status_final)
    && ltb 0 p.payment_version
    && not (is_empty p.reconciliation_id)
    && elim (canonical_non_negative p.difference_units) [ none ↦ false | some d ↦ eqb_ℤ d (pos 0) ]
    && (p.unmatched_items == 0)
    && not (is_empty p.finality_policy_hash)
    && not (is_empty p.evidence_hash)
    && not (is_zero p.finalized_at)
    && after p.reversal_deadline p.finalized_at
    && elim (canonical_positive p.units) [ none ↦ false | some _ ↦ true ]

unfoldable pub request_matches_allocation : Request → Allocation → Bool
request_matches_allocation q a =
    (a.allocation_id =ₛ q.allocation_id)
    && (a.payment_id =ₛ q.payment.payment_id)
    && (a.loan_id =ₛ q.loan_id)
    && (a.provider_id =ₛ q.payment.provider_id)
    && (a.provider_reference =ₛ q.payment.provider_reference)
    && (a.asset_id =ₛ q.payment.asset_id)
    && (a.payment_version == q.payment.payment_version)
    && (a.payment_evidence_hash =ₛ q.payment.evidence_hash)
    && (a.payment_finalized_at == q.payment.finalized_at)
    && (a.gross_units =ₛ q.payment.units)
    && (a.obligation_version_before == q.expected_obligation_version)
    && (a.waterfall_policy_hash =ₛ q.waterfall_policy_hash)
    && (a.finality_policy_hash =ₛ q.payment.finality_policy_hash)
    && (a.reconciliation_id =ₛ q.payment.reconciliation_id)
    && (a.reversal_deadline == q.payment.reversal_deadline)
    && (a.correlation_id =ₛ q.correlation_id)
    && (a.evidence_hash =ₛ q.evidence_hash)
    && (a.allocated_at == q.allocated_at)

-- The loop of `New`.
unfoldable pub load_obligations : List Obligation → Dict Obligation → Option (Dict Obligation)
load_obligations [] records = some records
load_obligations (o ∷ os) records =
    let rest = load_obligations os (insert o.loan_id o records) in
    if not (valid_obligation o) || contains o.loan_id records then none else rest

unfoldable pub new : List Obligation → Registry → Result EngineError Engine
new obligations modes = elim obligations [
  | [] ↦ err invalid_obligation
  | o ∷ os ↦ elim (load_obligations (o ∷ os) []) [
    | none ↦ err invalid_obligation
    | some records ↦ ok record {
      obligations = records;
      allocations = [];
      by_payment = [];
      reversals = [];
      modes = modes;
    }
  ]
]

-- The principal that a payment covers: the gross units, at most the debt.
unfoldable pub covered : ℤ → ℤ → ℤ
covered gross debt = if ltb_ℤ debt gross then debt else gross
