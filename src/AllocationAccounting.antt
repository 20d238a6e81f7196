-- ===== src/AllocationAccounting.antt =====
-- The accounting of allocations in
-- services/foundation-ledger/internal/allocationaccounting/accounting.go: what ApplyAllocation and
-- ReverseAllocation post to the ledger for the allocations of the payment orchestrator.
use unified.Base.{
  ℕ, zero, suc, ◌+◌, ◌-◌, ◌*◌, ◌/◌, ◌%◌, ◌^◌, ◌≤◌, ◌<◌, min, String, ◌≡◌, refl, sym, ap, ◌∙◌, ◌≢◌,
  ◌↔◌, ◌⊎◌, inl, inr, Bool, true, false, not, ◌&&◌, ◌||◌, Option, none, some, List, [], ◌∷◌, ◌++◌,
  map, arith, eq_iff, eq_refl, ltb, leb, ◌==◌, ◌=ₛ◌, ◌≠ₛ◌, is_empty, if◌then◌else◌, ltb→lt, lt→ltb,
  Bool-cases, Option-cases, eq_of_text_eq, ne_of_text_eq, text_eq_of_ne, length, All, length-append,
  All-append, Dict, lookup, insert, delete, lookup-delete, contains, lookup-insert,
  lookup-insert_self, lookup-empty, lookup-insert_cases, lookup-insert_free, contains-insert,
  insert-All, Result, ok, err, ◌>>=◌, ◌>>◌, or_err, Result-cases, >>=-eq-ok, reject_if, ℤ, pos,
  negsuc, pos_part, neg_part, sub_ℕ, ◌+ℤ◌, ◌-ℤ◌, ◌*ℤ◌, quo, ◌≤ℤ◌, ltb_ℤ, leb_ℤ, eqb_ℤ, int_laws,
  *ℤ-pos, quo-pos, -ℤ-pos, +ℤ-pos, eq_of_parts, Time, is_zero, before, after, time_sub,
  max_duration,
}
use unified.Ledger.{
  Side, Entry, Journal, PostedJournal, Ledger, LedgerError, new, get, flip, flip_entry, post_batch,
}
use unified.Allocation.{Allocation, ReversalRequest, canonical_non_negative}
use Prim.Native.String.{◌++◌ as ◌++ₛ◌}
pub mod Acceptance
pub mod Booking
mod Tests

pub record BookedAllocation : Type 0 where
  pub journal_ids : List String
  pub reversed : Bool

-- `Poster`
pub record AllocationPoster : Type 0 where
  pub book : Ledger
  pub records : Dict BookedAllocation

pub data AllocationPosterError : Type 0 where
  invalid_allocation : AllocationPosterError
  batch_refused : LedgerError → AllocationPosterError

-- `New`
unfoldable pub new_allocation_poster : Ledger → AllocationPoster
new_allocation_poster book = record { book = book; records = [] }

unfoldable pub allocation_entry : Allocation → String → Side → String → Entry
allocation_entry item account side units = record {
  account_code = account;
  side = side;
  asset_id = item.asset_id;
  units = units;
  party_id = "";
  loan_id = item.loan_id;
  tranche_id = "";
}

unfoldable pub allocation_journal : Allocation → String → String → List Entry → String → Journal
allocation_journal item suffix entry_type entries reversal_of = record {
  id = "allocation:" ++ₛ item.allocation_id ++ₛ ":" ++ₛ suffix;
  legal_entity_id = "unified-protocol";
  book_id = "loan-subledger";
  source_system = "payment-allocation";
  entry_type = entry_type;
  source_event_id = item.payment_id;
  loan_id = item.loan_id;
  idempotency_key = item.allocation_id ++ₛ ":" ++ₛ suffix;
  correlation_id = item.correlation_id;
  effective_at = item.allocated_at;
  entries = entries;
  evidence_hash = item.evidence_hash;
  reversal_of = reversal_of;
  reason = "";
}

abbrev pub incomplete : Allocation → Bool
incomplete item =
    is_empty item.allocation_id
    || is_empty item.payment_id
    || is_empty item.loan_id
    || is_empty item.asset_id
    || is_empty item.correlation_id
    || is_empty item.evidence_hash
    || is_zero item.allocated_at

-- The test of the amounts: the parsed excess, where it holds.
unfoldable pub checked_excess : Option ℤ → Option ℤ → Option ℤ → Option ℤ
checked_excess (some gross) (some principal) (some excess) =
    if not (ltb_ℤ (pos 0) principal) || not (eqb_ℤ (principal +ℤ excess) gross)
    then none
    else some excess
checked_excess _ _ _ = none

-- The validations of `ApplyAllocation`.
unfoldable pub allocation_excess : Allocation → Option ℤ
allocation_excess item =
    if incomplete item
    then none
    else checked_excess (canonical_non_negative item.gross_units)
        (canonical_non_negative item.principal_units)
        (canonical_non_negative item.refundable_excess_units)

unfoldable pub allocation_entries : Allocation → ℤ → List Entry
allocation_entries item excess =
    allocation_entry item "9120" Side.debit item.gross_units
    ∷ allocation_entry item "1310" Side.credit item.principal_units
    ∷ (if ltb_ℤ (pos 0) excess
        then allocation_entry item "2150" Side.credit item.refundable_excess_units ∷ []
        else [])

unfoldable pub allocation_journals : Allocation → ℤ → List Journal
allocation_journals item excess =
    allocation_journal item "allocation" "PAYMENT_ALLOCATED" (allocation_entries item excess) ""
    ∷ allocation_journal item "lender-claim" "LENDER_CLAIM_ALLOCATED"
        (allocation_entry item "2310" Side.debit item.principal_units
          ∷ allocation_entry item "2130" Side.credit item.principal_units
          ∷ [])
        ""
    ∷ []

unfoldable pub unallocation_journal : Allocation → ReversalRequest → PostedJournal → Journal
unallocation_journal item request original = record {
  id = original.journal.id ++ₛ ":reversal";
  legal_entity_id = original.journal.legal_entity_id;
  book_id = original.journal.book_id;
  source_system = "payment-allocation";
  entry_type = "PAYMENT_ALLOCATION_REVERSAL";
  source_event_id = request.provider_event_id;
  loan_id = item.loan_id;
  idempotency_key = request.reversal_id ++ₛ ":" ++ₛ original.journal.id;
  correlation_id = item.correlation_id;
  effective_at = request.reversed_at;
  entries = map flip_entry original.journal.entries;
  evidence_hash = request.evidence_hash;
  reversal_of = original.journal.id;
  reason = request.reason_code;
}

-- The loop over the stored journals.
unfoldable pub unallocation_journals :
    Allocation → ReversalRequest → List String → Ledger → Option (List Journal)
unallocation_journals item request [] book = some []
unallocation_journals item request (id ∷ ids) book =
    let rest = unallocation_journals item request ids book in
    elim (get id book) [
      | none ↦ none
      | some original ↦ elim rest [
        | none ↦ none
        | some js ↦ some (unallocation_journal item request original ∷ js)
      ]
    ]

-- `slices.Equal`
abbrev same_ids : List String → List String → Bool
same_ids [] [] = true
same_ids (x ∷ xs) (y ∷ ys) = (x =ₛ y) && same_ids xs ys
same_ids _ _ = false

abbrev reversal_incomplete : ReversalRequest → Bool
reversal_incomplete request =
    is_empty request.reversal_id
    || is_empty request.provider_event_id
    || is_empty request.evidence_hash
    || is_zero request.reversed_at

module _ (hash : Journal → Option String) where
  -- From `PostBatch` on: the record keeps the journals that it has, or takes the new ones.
  unfoldable pub post_allocation :
      String
      → Bool
      → Option (List String)
      → List Journal
      → Time
      → AllocationPoster
      → Result AllocationPosterError (List String) × AllocationPoster
  post_allocation id is_reversed kept js now p =
      let (answer, book) = post_batch hash js now p.book in
      elim answer [
        | err e ↦ (err (batch_refused e), record p { book = book })
        | ok posted ↦
            let ids = map (λ x. x.journal.id) posted in
            let stored : List String = elim kept [ none ↦ ids | some old ↦ old ] in
            (
              ok ids,
              record {
                book = book;
                records =
                    insert id record { journal_ids = stored; reversed = is_reversed } p.records;
              },
            )
      ]

  unfoldable pub apply_allocation :
      Allocation
      → Time
      → AllocationPoster
      → Result AllocationPosterError (List String) × AllocationPoster
  apply_allocation item now p = elim (allocation_excess item) [
    | none ↦ (err invalid_allocation, p)
    | some excess ↦ elim (lookup item.allocation_id p.records) [
      | some existing ↦ (ok existing.journal_ids, p)
      | none ↦ post_allocation item.allocation_id false none (allocation_journals item excess) now p
    ]
  ]

  unfoldable pub reverse_allocation :
      Allocation
      → ReversalRequest
      → Time
      → AllocationPoster
      → Result AllocationPosterError (List String) × AllocationPoster
  reverse_allocation item request now p =
      if reversal_incomplete request
      then (err invalid_allocation, p)
      else elim (lookup item.allocation_id p.records) [
        | none ↦ (err invalid_allocation, p)
        | some stored ↦
            if stored.reversed || not (same_ids stored.journal_ids item.journal_ids)
            then (err invalid_allocation, p)
            else elim (unallocation_journals item request stored.journal_ids p.book) [
              | none ↦ (err invalid_allocation, p)
              | some js ↦ post_allocation item.allocation_id true (some stored.journal_ids) js now p
            ]
      ]
