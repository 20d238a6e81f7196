-- ===== src/PaymentAccounting/Acceptance.antt =====
-- The journals of a provisional and of a final payment are acceptable to the ledger.
use unified.Base.{
  append-named, ◌<◌, String, ◌≡◌, refl, sym, ap, ◌∙◌, ◌⊎◌, inl, inr, false, List, [], ◌∷◌, arith,
  is_empty, ne_of_text_eq, length, All, ok, is_zero,
}
use mathlib.Core.Path.{subst}
use unified.Ledger.{Side, Entry, Journal, validate, identity_missing, entry_units}
use unified.Ledger.Totals.{debit_total, credit_total, units_of, IsEntry}
use unified.Ledger.Balance.{IsJournal, validate_complete}
use unified.Payment.{Rail, Transition, card, bank, provisional, final, other_rail}
use unified.PaymentAccounting.{
  AccountingRecord, Poster, entry, journal, pending_account, settlement_account,
  provisional_journal, final_journal, plan, bad_transition,
}
use Prim.Native.String.{◌++◌ as ◌++ₛ◌}

-- A transition and a poster that can be booked.
pub record IsBookable (t : Transition) (p : Poster) : Type 0 where
  pub complete : bad_transition t ≡ false
  pub has_asset : is_empty t.payment.asset_id ≡ false
  pub has_units : 0 < units_of (entry t "9120" Side.credit)
  pub has_correlation : is_empty t.payment.correlation_id ≡ false
  pub has_entity : is_empty p.legal_entity_id ≡ false
  pub has_book : is_empty p.book_id ≡ false

-- A pair of entries of a transition, on two accounts.
pair : Transition → String → String → List Entry
pair t a b = entry t a Side.debit ∷ entry t b Side.credit ∷ []

entry-IsEntry :
    (t : Transition) (a : String) (side : Side) (p : Poster)
    → IsBookable t p
    → is_empty a ≡ false
    → (side ≡ Side.debit) ⊎ (side ≡ Side.credit)
    → IsEntry (entry t a side)
entry-IsEntry t a side p h named sided = record {
  has_account = unfold entry in named;
  has_asset = unfold entry in h.has_asset;
  has_units = unfold entry in h.has_units;
  has_side = unfold entry in sided;
}

pair-balanced :
    (d c : Entry) (x : String)
    → d.side ≡ Side.debit
    → c.side ≡ Side.credit
    → d.asset_id ≡ c.asset_id
    → d.units ≡ c.units
    → debit_total x (d ∷ c ∷ []) ≡ credit_total x (d ∷ c ∷ [])
pair-balanced d c x hd hc ha hu = ground (arith, ap entry_units hu)

transition_parts :
    (t : Transition)
    → bad_transition t ≡ false
    → (is_empty t.payment.provider_id ≡ false)
      × (is_empty t.evidence_hash ≡ false)
      × (is_zero t.occurred_at ≡ false)
unfolding bad_transition
transition_parts t h = ground arith

complete_journal :
    (t : Transition) (entry_type stage a b : String) (p : Poster)
    → IsBookable t p
    → is_empty entry_type ≡ false
    → identity_missing
        (journal t entry_type stage (entry t a Side.debit ∷ entry t b Side.credit ∷ []) "" p)
      ≡ false
unfolding identity_missing journal
complete_journal t entry_type stage a b p h typed =
    let parts = transition_parts t h.complete in
    let named = append-named "payment:" (t.payment.payment_id ++ₛ ":" ++ₛ stage) refl in
    let source = append-named t.payment.provider_id (":" ++ₛ t.provider_event_id) parts.0 in
    let a = h.has_correlation in let b = h.has_entity in let c = h.has_book in ground arith

journal-IsJournal :
    (t : Transition) (entry_type stage a b : String) (p : Poster)
    → IsBookable t p
    → is_empty entry_type ≡ false
    → is_empty a ≡ false
    → is_empty b ≡ false
    → IsJournal
        (journal t entry_type stage (entry t a Side.debit ∷ entry t b Side.credit ∷ []) "" p)
journal-IsJournal t entry_type stage a b p h typed named_a named_b = record {
  identified = complete_journal t entry_type stage a b p h typed;
  not_own_reversal =
      unfold journal in λ e. ne_of_text_eq _ "" (append-named "payment:" _ refl) (sym e);
  two_entries = unfold journal in ground arith;
  entries_ok =
      unfold journal in
      (
        entry-IsEntry t a Side.debit p h named_a (inl refl),
        (entry-IsEntry t b Side.credit p h named_b (inr refl), tt),
      );
  balanced = λ x.
      unfold journal entry in
      pair-balanced (entry t a Side.debit) (entry t b Side.credit) x refl refl refl refl;
}

pending_account-named : (rail : Rail) → is_empty (pending_account rail) ≡ false
pending_account-named bank = refl
pending_account-named card = refl
pending_account-named (other_rail s) = refl

settlement_account-named : (rail : Rail) → is_empty (settlement_account rail) ≡ false
settlement_account-named bank = refl
settlement_account-named card = refl
settlement_account-named (other_rail s) = refl

provisional_journal-IsJournal :
    (t : Transition) (p : Poster) → IsBookable t p → IsJournal (provisional_journal t p)
unfolding provisional_journal
provisional_journal-IsJournal t p h =
    journal-IsJournal t "PAYMENT_PROVISIONAL" "provisional" (pending_account t.payment.rail) "9120"
      p h refl (pending_account-named t.payment.rail) refl

final_journal-IsJournal :
    (t : Transition) (p : Poster) → IsBookable t p → IsJournal (final_journal t p)
unfolding final_journal
final_journal-IsJournal t p h =
    journal-IsJournal t "PAYMENT_FINAL" "final" (settlement_account t.payment.rail)
      (pending_account t.payment.rail) p h refl (settlement_account-named t.payment.rail)
      (pending_account-named t.payment.rail)

provisional-plan :
    (t : Transition) (r r' : AccountingRecord) (js : List Journal) (p : Poster)
    → plan provisional t r p ≡ ok (r', js)
    → js ≡ provisional_journal t p ∷ []
unfolding plan
provisional-plan t r r' js p h = ground arith

final-plan :
    (t : Transition) (r r' : AccountingRecord) (js : List Journal) (p : Poster)
    → plan final t r p ≡ ok (r', js)
    → js ≡ final_journal t p ∷ []
unfolding plan
final-plan t r r' js p h = ground arith

-- The journals that are planned for a provisional or a final payment are accepted by the ledger, where
-- the payment has an asset, positive units and a correlation and the poster an entity and a book.
pub plan-accepted :
    (t : Transition) (r r' : AccountingRecord) (js : List Journal) (p : Poster)
    → IsBookable t p
    → (t.after_status ≡ provisional) ⊎ (t.after_status ≡ final)
    → plan t.after_status t r p ≡ ok (r', js)
    → All (λ j. validate j ≡ ok tt) js × (length js ≡ 1)
plan-accepted t r r' js p h due planned = elim due [
  | inl e ↦
      let ends : js ≡ provisional_journal t p ∷ [] =
        provisional-plan t r r' js p (ap (λ x. plan x t r p) (sym e) ∙ planned) in
      subst (λ x. All (λ j. validate j ≡ ok tt) x × (length x ≡ 1)) (sym ends)
        (
          (validate_complete (provisional_journal t p) (provisional_journal-IsJournal t p h), tt),
          refl,
        )
  | inr e ↦
      let ends : js ≡ final_journal t p ∷ [] =
        final-plan t r r' js p (ap (λ x. plan x t r p) (sym e) ∙ planned) in
      subst (λ x. All (λ j. validate j ≡ ok tt) x × (length x ≡ 1)) (sym ends)
        ((validate_complete (final_journal t p) (final_journal-IsJournal t p h), tt), refl)
]
