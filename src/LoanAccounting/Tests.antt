-- ===== src/LoanAccounting/Tests.antt =====
-- A liquidation is posted, and the theorem at that input: proceeds of 100 on a debt of 80.
use unified.Base.{String, ◌≡◌, refl, false, Option, some, length, All, lookup, insert, ok, err}
use unified.Decimal.{set_string}
use unified.Ledger.{
  Journal, Ledger, validate, new, post, post_batch, validate_and_hash, hash_all, post_all,
  post_validated, post_fresh, check_reversal, commit, scope, posted_or_zero, identity_missing,
  entry_units, tally_entries, tally_entry, add_side, add, debits_match, credits_match,
}
use unified.LoanAccounting.{
  Activation, PrincipalRepayment, LiquidationSettlement, loan_entry, activation_journal,
  fee_journal, repayment_journal, recovery_journal, cost_journal, bad_activation, bad_repayment,
  bad_settlement, loan_units, reconciled, settlement_journals, post_activation,
  post_principal_repayment, post_settlement, post_liquidation_settlement, invalid_event,
}
use unified.LoanAccounting.Acceptance.{IsSettled, settlement_journals-accepted}

-- What a run computes with.
running : Unit {0}
unfolding lookup insert set_string new post post_batch validate validate_and_hash hash_all post_all
    post_validated post_fresh check_reversal commit scope posted_or_zero identity_missing
    entry_units tally_entries tally_entry add_side add debits_match credits_match loan_entry
    activation_journal fee_journal repayment_journal recovery_journal cost_journal bad_activation
    bad_repayment bad_settlement loan_units reconciled settlement_journals post_activation
    post_principal_repayment post_settlement post_liquidation_settlement
running = tt

abbrev hash : Journal → Option String
hash j = some j.id

abbrev liquidation : LiquidationSettlement
liquidation = record {
  event_id = "e1";
  liquidation_id = "q1";
  loan_id = "l1";
  borrower_id = "b";
  lender_id = "l";
  asset_id = "usd";
  gross_proceeds_units = "100";
  execution_costs_units = "5";
  liquidation_incentive_units = "3";
  secured_claim_paid_units = "70";
  borrower_surplus_units = "22";
  debt_before_units = "80";
  residual_bad_debt_units = "10";
  correlation_id = "c";
  evidence_hash = "h";
  finality = "FINAL";
  effective_at = 4;
}

liquidation-amounts : reconciled liquidation ≡ ok (70, 5)
unfolding running
liquidation-amounts = refl

liquidation-good : bad_settlement liquidation ≡ false
unfolding running
liquidation-good = refl

settlement_journals-accepted_example :
    All (λ j. validate j ≡ ok tt) (settlement_journals liquidation 70 5)
    × (loan_units "70" ≡ some 70)
    × (loan_units "5" ≡ some 5)
    × IsSettled liquidation 70 5 (settlement_journals liquidation 70 5)
settlement_journals-accepted_example =
    settlement_journals-accepted liquidation 70 5 liquidation-good liquidation-amounts

abbrev activation : Activation
activation = record {
  event_id = "e0";
  loan_id = "l1";
  borrower_id = "b";
  lender_id = "l";
  asset_id = "usd";
  principal_units = "80";
  origination_fee_units = "2";
  correlation_id = "c";
  evidence_hash = "h";
  finality = "FINAL";
  effective_at = 3;
}

abbrev repayment : PrincipalRepayment
repayment = record {
  event_id = "e2";
  payment_id = "p1";
  loan_id = "l1";
  borrower_id = "b";
  lender_id = "l";
  asset_id = "usd";
  units = "10";
  correlation_id = "c";
  evidence_hash = "h";
  finality = "FINAL";
  effective_at = 4;
}

abbrev activated : Ledger
activated = (post_activation hash activation 4 new).1

-- Two journals for the activation, two for the liquidation, one for a repayment, and none for proceeds
-- that do not add up.
answers :
    (length activated.by_id ≡ 2)
    × (length (post_liquidation_settlement hash liquidation 5 activated).1.by_id ≡ 4)
    × (length (post_principal_repayment hash repayment 5 activated).1.by_id ≡ 3)
    × (post_liquidation_settlement hash
          record liquidation { gross_proceeds_units = "99" }
          5
          activated
        ≡ (err invalid_event, activated))
unfolding running
answers = (refl, refl, refl, refl)
