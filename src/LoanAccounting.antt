-- ===== src/LoanAccounting.antt =====
-- The accounting of loans in services/foundation-ledger/internal/loanaccounting/accounting.go: what an
-- activation, a repayment of principal and a liquidation post to the ledger. The service holds nothing
-- but the ledger.
use unified.Base.{
  ℕ, zero, suc, ◌+◌, ◌-◌, ◌*◌, ◌/◌, ◌%◌, ◌^◌, ◌≤◌, ◌<◌, min, String, ◌≡◌, refl, sym, ap, ◌∙◌, ◌≢◌,
  ◌↔◌, ◌⊎◌, inl, inr, Bool, true, false, not, ◌&&◌, ◌||◌, Option, none, some, List, [], ◌∷◌, ◌++◌,
  map, arith, eq_iff, eq_refl, ltb, leb, ◌==◌, ◌=ₛ◌, ◌≠ₛ◌, is_empty, if◌then◌else◌, ltb→lt, lt→ltb,
  Bool-cases, Option-cases, eq_of_text_eq, ne_of_text_eq, text_eq_of_ne, length, All, length-append,
  All-append, Dict, lookup, insert, delete, lookup-delete, contains, lookup-insert,
  lookup-insert_self, lookup-empty, lookup-insert_cases, lookup-insert_free, contains-insert,
  insert-All, Result, ok, err, ◌>>=◌, ◌>>◌, or_err, Result-cases, >>=-eq-ok, reject_if, ℤ, pos,
  negsuc, pos_part, neg_part, sub_ℕ, ◌+ℤ◌, ◌-ℤ◌, ◌*ℤ◌, quo, ◌≤ℤ◌, ltb_ℤ, leb_ℤ, eqb_ℤ, int_laws,
  *ℤ-pos, quo-pos, -ℤ-pos, +ℤ-pos, eq_of_parts, Time, is_zero, before, after, time_sub,
  max_duration,
}
use unified.Decimal.{set_string}
use unified.Ledger.{Side, Entry, Journal, PostedJournal, Ledger, LedgerError, post, post_batch}
use Prim.Native.String.{◌++◌ as ◌++ₛ◌}
pub mod Acceptance
mod Tests

pub record Activation : Type 0 where
  pub event_id : String
  pub loan_id : String
  pub borrower_id : String
  pub lender_id : String
  pub asset_id : String
  pub principal_units : String
  pub origination_fee_units : String
  pub correlation_id : String
  pub evidence_hash : String
  pub finality : String
  pub effective_at : Time

pub record PrincipalRepayment : Type 0 where
  pub event_id : String
  pub payment_id : String
  pub loan_id : String
  pub borrower_id : String
  pub lender_id : String
  pub asset_id : String
  pub units : String
  pub correlation_id : String
  pub evidence_hash : String
  pub finality : String
  pub effective_at : Time

pub record LiquidationSettlement : Type 0 where
  pub event_id : String
  pub liquidation_id : String
  pub loan_id : String
  pub borrower_id : String
  pub lender_id : String
  pub asset_id : String
  pub gross_proceeds_units : String
  pub execution_costs_units : String
  pub liquidation_incentive_units : String
  pub secured_claim_paid_units : String
  pub borrower_surplus_units : String
  pub debt_before_units : String
  pub residual_bad_debt_units : String
  pub correlation_id : String
  pub evidence_hash : String
  pub finality : String
  pub effective_at : Time

pub data LoanAccountingError : Type 0 where
  invalid_event : LoanAccountingError
  posting_refused : LedgerError → LoanAccountingError

-- An entry of a loan; an entry of the general ledger has no party.
unfoldable pub loan_entry : String → Side → String → String → String → String → Entry
loan_entry account side asset_id units party_id loan_id = record {
  account_code = account;
  side = side;
  asset_id = asset_id;
  units = units;
  party_id = party_id;
  loan_id = loan_id;
  tranche_id = "";
}

unfoldable pub activation_journal : Activation → Journal
activation_journal e = record {
  id = "activation:" ++ₛ e.loan_id;
  legal_entity_id = "unified-protocol";
  book_id = "loan-subledger";
  source_system = "chain-indexer";
  entry_type = "LOAN_ACTIVATION";
  source_event_id = e.event_id;
  loan_id = e.loan_id;
  idempotency_key = e.event_id ++ₛ ":obligation";
  correlation_id = e.correlation_id;
  effective_at = e.effective_at;
  entries =
      loan_entry "1310" Side.debit e.asset_id e.principal_units e.borrower_id e.loan_id
      ∷ loan_entry "2310" Side.credit e.asset_id e.principal_units e.lender_id e.loan_id
      ∷ [];
  evidence_hash = e.evidence_hash;
  reversal_of = "";
  reason = "";
}

unfoldable pub fee_journal : Activation → Journal
fee_journal e = record {
  id = "origination-fee:" ++ₛ e.loan_id;
  legal_entity_id = "unified-protocol";
  book_id = "general-ledger";
  source_system = "chain-indexer";
  entry_type = "ORIGINATION_FEE_SETTLED";
  source_event_id = e.event_id;
  loan_id = e.loan_id;
  idempotency_key = e.event_id ++ₛ ":fee";
  correlation_id = e.correlation_id;
  effective_at = e.effective_at;
  entries =
      loan_entry "1220" Side.debit e.asset_id e.origination_fee_units "" e.loan_id
      ∷ loan_entry "4100" Side.credit e.asset_id e.origination_fee_units "" e.loan_id
      ∷ [];
  evidence_hash = e.evidence_hash;
  reversal_of = "";
  reason = "";
}

unfoldable pub repayment_journal : PrincipalRepayment → Journal
repayment_journal e = record {
  id = "repayment:" ++ₛ e.payment_id;
  legal_entity_id = "unified-protocol";
  book_id = "loan-subledger";
  source_system = "chain-indexer";
  entry_type = "PRINCIPAL_REPAID";
  source_event_id = e.event_id;
  loan_id = e.loan_id;
  idempotency_key = e.event_id;
  correlation_id = e.correlation_id;
  effective_at = e.effective_at;
  entries =
      loan_entry "2310" Side.debit e.asset_id e.units e.lender_id e.loan_id
      ∷ loan_entry "1310" Side.credit e.asset_id e.units e.borrower_id e.loan_id
      ∷ [];
  evidence_hash = e.evidence_hash;
  reversal_of = "";
  reason = "";
}

unfoldable pub recovery_journal : LiquidationSettlement → Journal
recovery_journal e = record {
  id = "liquidation-recovery:" ++ₛ e.liquidation_id;
  legal_entity_id = "unified-protocol";
  book_id = "loan-subledger";
  source_system = "chain-indexer";
  entry_type = "LIQUIDATION_PRINCIPAL_RECOVERY";
  source_event_id = e.event_id;
  loan_id = e.loan_id;
  idempotency_key = e.event_id ++ₛ ":principal";
  correlation_id = e.correlation_id;
  effective_at = e.effective_at;
  entries =
      loan_entry "2310" Side.debit e.asset_id e.secured_claim_paid_units e.lender_id e.loan_id
      ∷ loan_entry "1310" Side.credit e.asset_id e.secured_claim_paid_units e.borrower_id e.loan_id
      ∷ [];
  evidence_hash = e.evidence_hash;
  reversal_of = "";
  reason = "";
}

unfoldable pub cost_journal : LiquidationSettlement → Journal
cost_journal e = record {
  id = "liquidation-cost:" ++ₛ e.liquidation_id;
  legal_entity_id = "unified-protocol";
  book_id = "general-ledger";
  source_system = "chain-indexer";
  entry_type = "LIQUIDATION_COST_RECOVERED";
  source_event_id = e.event_id;
  loan_id = e.loan_id;
  idempotency_key = e.event_id ++ₛ ":cost";
  correlation_id = e.correlation_id;
  effective_at = e.effective_at;
  entries =
      loan_entry "1220" Side.debit e.asset_id e.execution_costs_units "" e.loan_id
      ∷ loan_entry "4110" Side.credit e.asset_id e.execution_costs_units "" e.loan_id
      ∷ [];
  evidence_hash = e.evidence_hash;
  reversal_of = "";
  reason = "";
}

unfoldable pub bad_activation : Activation → Bool
bad_activation e =
    is_empty e.event_id
    || is_empty e.loan_id
    || is_empty e.borrower_id
    || is_empty e.lender_id
    || is_empty e.asset_id
    || is_empty e.principal_units
    || is_empty e.correlation_id
    || is_empty e.evidence_hash
    || (e.finality ≠ₛ "FINAL")
    || is_zero e.effective_at

unfoldable pub bad_repayment : PrincipalRepayment → Bool
bad_repayment e =
    is_empty e.event_id
    || is_empty e.payment_id
    || is_empty e.loan_id
    || is_empty e.borrower_id
    || is_empty e.lender_id
    || is_empty e.asset_id
    || is_empty e.units
    || is_empty e.correlation_id
    || is_empty e.evidence_hash
    || (e.finality ≠ₛ "FINAL")
    || is_zero e.effective_at

unfoldable pub bad_settlement : LiquidationSettlement → Bool
bad_settlement e =
    is_empty e.event_id
    || is_empty e.liquidation_id
    || is_empty e.loan_id
    || is_empty e.borrower_id
    || is_empty e.lender_id
    || is_empty e.asset_id
    || is_empty e.correlation_id
    || is_empty e.evidence_hash
    || (e.finality ≠ₛ "FINAL")
    || is_zero e.effective_at

-- `nonNegativeInteger`
abbrev pub non_negative : Option ℤ → Option ℕ
non_negative (some (pos n)) = some n
non_negative _ = none

unfoldable pub loan_units : String → Option ℕ
loan_units s = non_negative (set_string s)

-- The proceeds and the debt add up: the secured claim and the costs, where they do.
abbrev pub loan_amount : String → Result LoanAccountingError ℕ
loan_amount s = or_err (loan_units s) invalid_event

unfoldable pub reconciled : LiquidationSettlement → Result LoanAccountingError (ℕ × ℕ)
reconciled e = do
  gross ← loan_amount e.gross_proceeds_units
  reject_if (gross == 0) invalid_event
  costs ← loan_amount e.execution_costs_units
  incentive ← loan_amount e.liquidation_incentive_units
  secured ← loan_amount e.secured_claim_paid_units
  surplus ← loan_amount e.borrower_surplus_units
  debt_before ← loan_amount e.debt_before_units
  bad_debt ← loan_amount e.residual_bad_debt_units
  reject_if (not (gross == costs + incentive + secured + surplus)) invalid_event
  reject_if (not (debt_before == secured + bad_debt)) invalid_event
  ok (secured, costs)

-- The journals of a liquidation, for the secured claim and the costs.
unfoldable pub settlement_journals : LiquidationSettlement → ℕ → ℕ → List Journal
settlement_journals e secured costs =
    (if secured == 0 then [] else recovery_journal e ∷ [])
    ++ (if costs == 0 then [] else cost_journal e ∷ [])

module _ (hash : Journal → Option String) where
  -- An answer of the ledger as one of the service.
  abbrev passed :
      {A : Type 0} → Result LedgerError A × Ledger → Result LoanAccountingError A × Ledger
  passed (ok a, l) = (ok a, l)
  passed (err e, l) = (err (posting_refused e), l)

  unfoldable pub post_activation :
      Activation → Time → Ledger → Result LoanAccountingError (List PostedJournal) × Ledger
  post_activation e now l =
      if bad_activation e
      then (err invalid_event, l)
      else if is_empty e.origination_fee_units || (e.origination_fee_units =ₛ "0")
      then passed (post_batch hash (activation_journal e ∷ []) now l)
      else passed (post_batch hash (activation_journal e ∷ fee_journal e ∷ []) now l)

  unfoldable pub post_principal_repayment :
      PrincipalRepayment → Time → Ledger → Result LoanAccountingError PostedJournal × Ledger
  post_principal_repayment e now l =
      if bad_repayment e
      then (err invalid_event, l)
      else passed (post hash (repayment_journal e) now l)

  unfoldable pub post_settlement :
      List Journal → Time → Ledger → Result LoanAccountingError (List PostedJournal) × Ledger
  post_settlement [] now l = (ok [], l)
  post_settlement (j ∷ js) now l = passed (post_batch hash (j ∷ js) now l)

  unfoldable pub post_liquidation_settlement :
      LiquidationSettlement
      → Time
      → Ledger
      → Result LoanAccountingError (List PostedJournal) × Ledger
  post_liquidation_settlement e now l =
      if bad_settlement e then (err invalid_event, l) else elim (reconciled e) [
        | err x ↦ (err x, l)
        | ok amounts ↦ post_settlement (settlement_journals e amounts.0 amounts.1) now l
      ]
