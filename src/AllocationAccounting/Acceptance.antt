-- ===== src/AllocationAccounting/Acceptance.antt =====
-- The journals of an allocation are acceptable to the ledger.
use unified.Base.{
  append-named, ℕ, zero, suc, ◌+◌, ◌≤◌, ◌<◌, String, ◌≡◌, refl, sym, ◌⊎◌, inl, inr, false, some,
  List, [], ◌∷◌, arith, is_empty, Bool-cases, ne_of_text_eq, length, All, ok, pos, ltb_ℤ,
}
use mathlib.Core.Path.{subst}
use unified.Decimal.{set_string}
use unified.Ledger.{Side, Entry, validate, identity_missing, entry_units}
use unified.Ledger.Totals.{debit_total, credit_total, units_of, IsEntry}
use unified.Ledger.Balance.{IsJournal, validate_complete}
use unified.Allocation.{Allocation}
use Prim.Native.String.{◌++◌ as ◌++ₛ◌}
use unified.AllocationAccounting.{
  allocation_entry, allocation_journal, allocation_entries, allocation_journals, incomplete,
}

-- Texts of the amounts of an allocation: the gross is the principal, which is positive, and the excess.
pub record IsSplit (item : Allocation) (n e : ℕ) : Type 0 where
  pub gross : set_string item.gross_units ≡ some (pos (n + e))
  pub paid : set_string item.principal_units ≡ some (pos n)
  pub rest : set_string item.refundable_excess_units ≡ some (pos e)
  pub some_units : 0 < n

allocation_entry-units :
    (item : Allocation) (a s : String) (side : Side) (n : ℕ)
    → set_string s ≡ some (pos n)
    → 0 < n
    → units_of (allocation_entry item a side s) ≡ n
unfolding entry_units allocation_entry
allocation_entry-units item a s side zero h k = absurd (omega arith)
allocation_entry-units item a s side (suc n) h k = ground arith

allocation_entry-IsEntry :
    (item : Allocation) (a s : String) (side : Side) (n : ℕ)
    → incomplete item ≡ false
    → is_empty a ≡ false
    → (side ≡ Side.debit) ⊎ (side ≡ Side.credit)
    → set_string s ≡ some (pos n)
    → 0 < n
    → IsEntry (allocation_entry item a side s)
allocation_entry-IsEntry item a s side n complete named sided h k = record {
  has_account = unfold allocation_entry in named;
  has_asset = unfold allocation_entry in ground arith;
  has_units = omega (arith, allocation_entry-units item a s side n h k);
  has_side = unfold allocation_entry in sided;
}

allocation_journal-IsJournal :
    (item : Allocation) (suffix entry_type : String) (es : List Entry)
    → incomplete item ≡ false
    → is_empty entry_type ≡ false
    → 2 ≤ length es
    → All IsEntry es
    → ((a : String) → debit_total a es ≡ credit_total a es)
    → IsJournal (allocation_journal item suffix entry_type es "")
unfolding allocation_journal
allocation_journal-IsJournal item suffix entry_type es complete typed two good balanced =
    let named = append-named "allocation:" (item.allocation_id ++ₛ ":" ++ₛ suffix) refl in
    let keyed = append-named item.allocation_id (":" ++ₛ suffix) (ground arith) in
    record {
      identified = unfold identity_missing in ground arith;
      not_own_reversal = λ e. ne_of_text_eq _ "" named (sym e);
      two_entries = two;
      entries_ok = good;
      balanced = balanced;
    }

-- The two lists of entries, seen as numbers.
three-balanced :
    (g p x : Entry) (a : String)
    → g.side ≡ Side.debit
    → p.side ≡ Side.credit
    → x.side ≡ Side.credit
    → g.asset_id ≡ p.asset_id
    → g.asset_id ≡ x.asset_id
    → units_of g ≡ units_of p + units_of x
    → debit_total a (g ∷ p ∷ x ∷ []) ≡ credit_total a (g ∷ p ∷ x ∷ [])
three-balanced g p x a hg hp hx ap_ ax hu = ground arith

two-balanced :
    (g p : Entry) (a : String)
    → g.side ≡ Side.debit
    → p.side ≡ Side.credit
    → g.asset_id ≡ p.asset_id
    → units_of g ≡ units_of p
    → debit_total a (g ∷ p ∷ []) ≡ credit_total a (g ∷ p ∷ [])
two-balanced g p a hg hp ap_ hu = ground arith

module _ (item : Allocation) (n e : ℕ) (complete : incomplete item ≡ false)
    (split : IsSplit item n e) where
  abbrev on : String → Side → String → Entry
  on = allocation_entry item

  debit-IsEntry : IsEntry (on "9120" Side.debit item.gross_units)
  debit-IsEntry =
      allocation_entry-IsEntry item "9120" item.gross_units Side.debit (n + e) complete refl
        (inl refl) split.gross (omega (arith, split.some_units))

  credit-IsEntry :
      (a : String) → is_empty a ≡ false → IsEntry (on a Side.credit item.principal_units)
  credit-IsEntry a named =
      allocation_entry-IsEntry item a item.principal_units Side.credit n complete named (inr refl)
        split.paid split.some_units

  claim-IsJournal : IsJournal (
      allocation_journal item "lender-claim" "LENDER_CLAIM_ALLOCATED"
        (on "2310" Side.debit item.principal_units
          ∷ on "2130" Side.credit item.principal_units
          ∷ [])
        "")
  claim-IsJournal =
      allocation_journal-IsJournal item "lender-claim" "LENDER_CLAIM_ALLOCATED" _ complete refl
        (ground arith)
        (
          allocation_entry-IsEntry item "2310" item.principal_units Side.debit n complete refl
              (inl refl) split.paid split.some_units,
          (credit-IsEntry "2130" refl, tt),
        )
        (λ a.
          two-balanced (on "2310" Side.debit item.principal_units)
            (on "2130" Side.credit item.principal_units) a (unfold allocation_entry in refl)
            (unfold allocation_entry in refl) (unfold allocation_entry in refl)
            (unfold allocation_entry in refl))

  gross_units-sum :
      (e' : ℕ)
      → e' ≡ e
      → units_of (on "9120" Side.debit item.gross_units)
        ≡ units_of (on "1310" Side.credit item.principal_units) + e'
  gross_units-sum e' same = omega (
    arith,
    allocation_entry-units item "9120" item.gross_units Side.debit (n + e) split.gross
        (omega (arith, split.some_units)),
    allocation_entry-units item "1310" item.principal_units Side.credit n split.paid
        split.some_units,
  )

  without_excess :
      e ≡ 0
      → IsJournal (
          allocation_journal item "allocation" "PAYMENT_ALLOCATED"
            (on "9120" Side.debit item.gross_units
              ∷ on "1310" Side.credit item.principal_units
              ∷ [])
            "")
  without_excess no_rest =
      allocation_journal-IsJournal item "allocation" "PAYMENT_ALLOCATED" _ complete refl
        (ground arith) (debit-IsEntry, (credit-IsEntry "1310" refl, tt))
        (λ a.
          two-balanced (on "9120" Side.debit item.gross_units)
            (on "1310" Side.credit item.principal_units) a (unfold allocation_entry in refl)
            (unfold allocation_entry in refl) (unfold allocation_entry in refl)
            (omega (arith, gross_units-sum 0 (sym no_rest))))

  with_excess :
      0 < e
      → IsJournal (
          allocation_journal item "allocation" "PAYMENT_ALLOCATED"
            (on "9120" Side.debit item.gross_units
              ∷ on "1310" Side.credit item.principal_units
              ∷ on "2150" Side.credit item.refundable_excess_units
              ∷ [])
            "")
  with_excess some_rest =
      let rest =
        allocation_entry-IsEntry item "2150" item.refundable_excess_units Side.credit e complete
          refl (inr refl) split.rest some_rest in
      allocation_journal-IsJournal item "allocation" "PAYMENT_ALLOCATED" _ complete refl
        (ground arith) (debit-IsEntry, (credit-IsEntry "1310" refl, (rest, tt)))
        (λ a.
          three-balanced (on "9120" Side.debit item.gross_units)
            (on "1310" Side.credit item.principal_units)
            (on "2150" Side.credit item.refundable_excess_units) a (unfold allocation_entry in refl)
            (unfold allocation_entry in refl) (unfold allocation_entry in refl)
            (unfold allocation_entry in refl) (unfold allocation_entry in refl)
            (gross_units-sum _ (
              allocation_entry-units item "2150" item.refundable_excess_units Side.credit e
                split.rest some_rest)))

  both_accepted :
      (es : List Entry)
      → allocation_entries item (pos e) ≡ es
      → IsJournal (allocation_journal item "allocation" "PAYMENT_ALLOCATED" es "")
      → All (λ j. validate j ≡ ok tt) (allocation_journals item (pos e))
  unfolding allocation_journals
  both_accepted es same first =
      let first' =
        subst (λ x. IsJournal (allocation_journal item "allocation" "PAYMENT_ALLOCATED" x ""))
          (sym same) first in
      (validate_complete _ first', (validate_complete _ claim-IsJournal, tt))

  -- Both journals of an allocation that is split are accepted.
  pub split-accepted : All (λ j. validate j ≡ ok tt) (allocation_journals item (pos e))
  split-accepted = elim (Bool-cases (ltb_ℤ (pos 0) (pos e))) [
    | inl some_rest ↦
        let three : allocation_entries item (pos e)
            ≡ on "9120" Side.debit item.gross_units
              ∷ on "1310" Side.credit item.principal_units
              ∷ on "2150" Side.credit item.refundable_excess_units
              ∷ [] =
          unfold allocation_entries in ground arith in
        both_accepted _ three (with_excess (ground arith))
    | inr no_rest ↦
        let two : allocation_entries item (pos e)
            ≡ on "9120" Side.debit item.gross_units
              ∷ on "1310" Side.credit item.principal_units
              ∷ [] =
          unfold allocation_entries in ground arith in
        both_accepted _ two (without_excess (ground arith))
  ]
