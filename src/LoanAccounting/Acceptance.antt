-- ===== src/LoanAccounting/Acceptance.antt =====
-- The journals of loans are acceptable to the ledger wherever the service posts them.
use unified.Base.{
  append-named, ℕ, zero, suc, ◌+◌, ◌<◌, String, ◌≡◌, refl, sym, ap, ◌∙◌, ◌⊎◌, inl, inr, Bool, true,
  false, Option, none, some, List, [], ◌∷◌, ◌++◌, arith, eq_refl, ◌==◌, ◌=ₛ◌, is_empty,
  if◌then◌else◌, ne_of_text_eq, text_eq_of_ne, All, All-append, ok, ℤ, pos, negsuc,
}
use unified.Decimal.{set_string}
use unified.Ledger.{Side, Entry, Journal, validate, identity_missing, entry_units}
use unified.Ledger.Totals.{debit_total, credit_total, units_of, IsEntry}
use unified.Ledger.Reversal.{account_debits, account_credits}
use unified.Ledger.Accounts.{
  entries_of, entries_debits-append, entries_credits-append, optional_debits, optional_credits,
}
use unified.Ledger.Balance.{validate_complete}
use unified.LoanAccounting.{
  non_negative, LiquidationSettlement, loan_entry, recovery_journal, cost_journal, bad_settlement,
  loan_units, reconciled, settlement_journals,
}

-- A journal of two entries on two accounts with the same asset and the same positive units is accepted.
two_entries-accepted :
    (j : Journal) (d c : Entry)
    → j.entries ≡ d ∷ c ∷ []
    → identity_missing j ≡ false
    → (j.reversal_of =ₛ j.id) ≡ false
    → IsEntry d
    → IsEntry c
    → d.side ≡ Side.debit
    → c.side ≡ Side.credit
    → d.asset_id ≡ c.asset_id
    → d.units ≡ c.units
    → validate j ≡ ok tt
two_entries-accepted j d c es named own hd hc sd sc asset units = validate_complete j record {
  identified = named;
  not_own_reversal = ne_of_text_eq j.reversal_of j.id own;
  two_entries = ground arith;
  entries_ok = rw es (hd, (hc, tt));
  balanced = λ a. rw es (two_sides d c a sd sc asset units);
}
  where
    two_sides :
        (d c : Entry) (a : String)
        → d.side ≡ Side.debit
        → c.side ≡ Side.credit
        → d.asset_id ≡ c.asset_id
        → d.units ≡ c.units
        → debit_total a (d ∷ c ∷ []) ≡ credit_total a (d ∷ c ∷ [])
    two_sides d c a sd sc asset units = ground (arith, ap entry_units units)

non_negative-pos : (o : Option ℤ) (n : ℕ) → non_negative o ≡ some n → o ≡ some (pos n)
non_negative-pos none n h = absurd cc
non_negative-pos (some (pos m)) n h = ap (λ x. elim x [ none ↦ none | some y ↦ some (pos y) ]) h
non_negative-pos (some (negsuc m)) n h = absurd cc

entry_units-pos :
    (account asset units party loan : String) (side : Side) (n : ℕ)
    → loan_units units ≡ some n
    → 0 < n
    → 0 < units_of (loan_entry account side asset units party loan)
unfolding loan_entry loan_units entry_units
entry_units-pos account asset units party loan side zero h k = absurd (omega arith)
entry_units-pos account asset units party loan side (suc n) h k =
    let e = non_negative-pos (set_string units) (suc n) h in ground arith

loan_entry-IsEntry :
    (account asset units party loan : String) (side : Side) (n : ℕ)
    → is_empty account ≡ false
    → is_empty asset ≡ false
    → loan_units units ≡ some n
    → 0 < n
    → (side ≡ Side.debit) ⊎ (side ≡ Side.credit)
    → IsEntry (loan_entry account side asset units party loan)
unfolding loan_entry
loan_entry-IsEntry account asset units party loan side n named_account named_asset h k sided =
    record {
      has_account = named_account;
      has_asset = named_asset;
      has_units = entry_units-pos account asset units party loan side n h k;
      has_side = sided;
    }

reconciled-units :
    (e : LiquidationSettlement) (secured costs : ℕ)
    → reconciled e ≡ ok (secured, costs)
    → (loan_units e.secured_claim_paid_units ≡ some secured)
      × (loan_units e.execution_costs_units ≡ some costs)
unfolding reconciled
reconciled-units e secured costs h = ground arith

recovery_journal-accepted :
    (e : LiquidationSettlement) (n : ℕ)
    → bad_settlement e ≡ false
    → loan_units e.secured_claim_paid_units ≡ some n
    → 0 < n
    → validate (recovery_journal e) ≡ ok tt
unfolding recovery_journal bad_settlement
recovery_journal-accepted e n good h k =
    let asset : is_empty e.asset_id ≡ false = ground arith in
    let key = append-named e.event_id ":principal" (ground arith) in
    let named = append-named "liquidation-recovery:" e.liquidation_id refl in
    two_entries-accepted (recovery_journal e)
      (loan_entry "2310" Side.debit e.asset_id e.secured_claim_paid_units e.lender_id e.loan_id)
      (loan_entry "1310" Side.credit e.asset_id e.secured_claim_paid_units e.borrower_id e.loan_id)
      refl (unfold identity_missing in ground arith)
      (text_eq_of_ne "" _ (λ q. ne_of_text_eq _ "" named (sym q)))
      (loan_entry-IsEntry "2310" e.asset_id e.secured_claim_paid_units e.lender_id e.loan_id
        Side.debit n refl asset h k (inl refl))
      (loan_entry-IsEntry "1310" e.asset_id e.secured_claim_paid_units e.borrower_id e.loan_id
        Side.credit n refl asset h k (inr refl))
      (unfold loan_entry in refl) (unfold loan_entry in refl) (unfold loan_entry in refl)
      (unfold loan_entry in refl)

cost_journal-accepted :
    (e : LiquidationSettlement) (n : ℕ)
    → bad_settlement e ≡ false
    → loan_units e.execution_costs_units ≡ some n
    → 0 < n
    → validate (cost_journal e) ≡ ok tt
unfolding cost_journal bad_settlement
cost_journal-accepted e n good h k =
    let asset : is_empty e.asset_id ≡ false = ground arith in
    let key = append-named e.event_id ":cost" (ground arith) in
    let named = append-named "liquidation-cost:" e.liquidation_id refl in
    two_entries-accepted (cost_journal e)
      (loan_entry "1220" Side.debit e.asset_id e.execution_costs_units "" e.loan_id)
      (loan_entry "4110" Side.credit e.asset_id e.execution_costs_units "" e.loan_id) refl
      (unfold identity_missing in ground arith)
      (text_eq_of_ne "" _ (λ q. ne_of_text_eq _ "" named (sym q)))
      (loan_entry-IsEntry "1220" e.asset_id e.execution_costs_units "" e.loan_id Side.debit n refl
        asset h k (inl refl))
      (loan_entry-IsEntry "4110" e.asset_id e.execution_costs_units "" e.loan_id Side.credit n refl
        asset h k (inr refl))
      (unfold loan_entry in refl) (unfold loan_entry in refl) (unfold loan_entry in refl)
      (unfold loan_entry in refl)

optional-accepted :
    (absent : Bool) (j : Journal)
    → (absent ≡ false → validate j ≡ ok tt)
    → All (λ j. validate j ≡ ok tt) (if absent then [] else j ∷ [])
optional-accepted true j h = tt
optional-accepted false j h = (h refl, tt)

above_zero : (n : ℕ) → (n == 0) ≡ false → 0 < n
above_zero n h = ground arith

-- Two entries, the first a debit and the second a credit, on the accounts of a journal.
two_entries-account :
    (account d c asset units debtor creditor loan : String) (n : ℕ)
    → loan_units units ≡ some n
    → (account_debits account asset (
          loan_entry d Side.debit asset units debtor loan
          ∷ loan_entry c Side.credit asset units creditor loan
          ∷ [])
        ≡ (if d =ₛ account then n else 0))
      × (account_credits account asset (
            loan_entry d Side.debit asset units debtor loan
            ∷ loan_entry c Side.credit asset units creditor loan
            ∷ [])
          ≡ (if c =ₛ account then n else 0))
unfolding loan_entry loan_units entry_units
two_entries-account account d c asset units debtor creditor loan zero h =
    let e = non_negative-pos (set_string units) zero h in ground (arith, eq_refl asset)
two_entries-account account d c asset units debtor creditor loan (suc n) h =
    let e = non_negative-pos (set_string units) (suc n) h in ground (arith, eq_refl asset)

-- What the liquidation makes of the accounts in its asset: the secured claim is taken from the claims of
-- the lender and from the principal receivable, and the costs are settled as revenue.
pub record IsSettled (e : LiquidationSettlement) (secured costs : ℕ) (js : List Journal)
    : Type 0 where
  pub lender_claims : account_debits "2310" e.asset_id (entries_of js) ≡ secured
  pub receivable : account_credits "1310" e.asset_id (entries_of js) ≡ secured
  pub settlement : account_debits "1220" e.asset_id (entries_of js) ≡ costs
  pub revenue : account_credits "4110" e.asset_id (entries_of js) ≡ costs

unit_zero : (n : ℕ) → (n == 0) ≡ true → n ≡ 0
unit_zero n h = ground arith

module _ (e : LiquidationSettlement) (secured costs : ℕ)
    (paid : loan_units e.secured_claim_paid_units ≡ some secured)
    (spent : loan_units e.execution_costs_units ≡ some costs) where
  recovery_account :
      (account : String)
      → (account_debits account e.asset_id (recovery_journal e).entries
          ≡ (if "2310" =ₛ account then secured else 0))
        × (account_credits account e.asset_id (recovery_journal e).entries
            ≡ (if "1310" =ₛ account then secured else 0))
  unfolding recovery_journal
  recovery_account account =
      two_entries-account account "2310" "1310" e.asset_id e.secured_claim_paid_units e.lender_id
        e.borrower_id e.loan_id secured paid

  cost_account :
      (account : String)
      → (account_debits account e.asset_id (cost_journal e).entries
          ≡ (if "1220" =ₛ account then costs else 0))
        × (account_credits account e.asset_id (cost_journal e).entries
            ≡ (if "4110" =ₛ account then costs else 0))
  unfolding cost_journal
  cost_account account =
      two_entries-account account "1220" "4110" e.asset_id e.execution_costs_units "" "" e.loan_id
        costs spent

  abbrev recoveries : List Journal
  recoveries = if secured == 0 then [] else recovery_journal e ∷ []

  abbrev costings : List Journal
  costings = if costs == 0 then [] else cost_journal e ∷ []

  settled_debits :
      (account : String) (v w : ℕ)
      → (if "2310" =ₛ account then secured else 0) ≡ v
      → (if "1220" =ₛ account then costs else 0) ≡ w
      → (secured ≡ 0 → v ≡ 0)
      → (costs ≡ 0 → w ≡ 0)
      → account_debits account e.asset_id (entries_of (recoveries ++ costings)) ≡ v + w
  settled_debits account v w hv hw zv zw = omega (
    arith,
    entries_debits-append account e.asset_id recoveries costings,
    optional_debits account e.asset_id (secured == 0) v (recovery_journal e)
        ((recovery_account account).0 ∙ hv) (λ q. zv (unit_zero secured q)),
    optional_debits account e.asset_id (costs == 0) w (cost_journal e)
        ((cost_account account).0 ∙ hw) (λ q. zw (unit_zero costs q)),
  )

  settled_credits :
      (account : String) (v w : ℕ)
      → (if "1310" =ₛ account then secured else 0) ≡ v
      → (if "4110" =ₛ account then costs else 0) ≡ w
      → (secured ≡ 0 → v ≡ 0)
      → (costs ≡ 0 → w ≡ 0)
      → account_credits account e.asset_id (entries_of (recoveries ++ costings)) ≡ v + w
  settled_credits account v w hv hw zv zw = omega (
    arith,
    entries_credits-append account e.asset_id recoveries costings,
    optional_credits account e.asset_id (secured == 0) v (recovery_journal e)
        ((recovery_account account).1 ∙ hv) (λ q. zv (unit_zero secured q)),
    optional_credits account e.asset_id (costs == 0) w (cost_journal e)
        ((cost_account account).1 ∙ hw) (λ q. zw (unit_zero costs q)),
  )

  parts-IsSettled : IsSettled e secured costs (settlement_journals e secured costs)
  unfolding settlement_journals
  parts-IsSettled = record {
    lender_claims = settled_debits "2310" secured 0 refl refl (λ q. q) (λ q. refl) ∙ omega arith;
    receivable = settled_credits "1310" secured 0 refl refl (λ q. q) (λ q. refl) ∙ omega arith;
    settlement = settled_debits "1220" 0 costs refl refl (λ q. refl) (λ q. q) ∙ omega arith;
    revenue = settled_credits "4110" 0 costs refl refl (λ q. refl) (λ q. q) ∙ omega arith;
  }

-- A liquidation that passes the checks of the service, with proceeds and debt that add up, makes journals
-- that the ledger accepts, each of them. Together they move the secured claim from the claims of the
-- lender to the principal receivable, and the costs from the settlement asset to the fee revenue.
pub settlement_journals-accepted :
    (e : LiquidationSettlement) (secured costs : ℕ)
    → bad_settlement e ≡ false
    → reconciled e ≡ ok (secured, costs)
    → All (λ j. validate j ≡ ok tt) (settlement_journals e secured costs)
      × (loan_units e.secured_claim_paid_units ≡ some secured)
      × (loan_units e.execution_costs_units ≡ some costs)
      × IsSettled e secured costs (settlement_journals e secured costs)
settlement_journals-accepted e secured costs good h =
    let (s, c) = reconciled-units e secured costs h in
    let both : All (λ j. validate j ≡ ok tt) (settlement_journals e secured costs) =
      unfold settlement_journals in
      All-append (λ j. validate j ≡ ok tt) _ _
        (optional-accepted (secured == 0) (recovery_journal e)
          (λ k. recovery_journal-accepted e secured good s (above_zero secured k)))
        (optional-accepted (costs == 0) (cost_journal e)
          (λ k. cost_journal-accepted e costs good c (above_zero costs k))) in
    (both, s, c, parts-IsSettled e secured costs s c)
