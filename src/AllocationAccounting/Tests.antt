-- ===== src/AllocationAccounting/Tests.antt =====
-- Allocations are booked in the ledger and reversed, and the theorem at an allocation of 70 on a debt
-- of 50.
use unified.Base.{
  String, ◌≡◌, refl, Option, some, List, [], ◌∷◌, length, All, lookup, insert, Result, ok, err, ℤ,
  ◌+ℤ◌, ◌-ℤ◌,
}
use unified.Decimal.{set_string, to_string}
use unified.AllocationMode.{
  claim_mode, store_synthetic, claim_synthetic, valid_durable_claim, allocation_taken, publish,
  is_reversed, owned_by_other,
}
use unified.Ledger.{
  Journal, validate, new, get, flip, flip_entry, post_batch, validate_and_hash, hash_all, post_all,
  post_validated, post_fresh, check_reversal, commit, scope, posted_or_zero, identity_missing,
  entry_units, tally_entries, tally_entry, add_side, add, debits_match, credits_match,
}
use unified.Allocation.{
  Allocation, ReversalRequest, canonical_positive, canonical_non_negative, parsed, valid_obligation,
  valid_final_payment, covered, allocation_of, commit_allocation, obligation_or_zero,
  obligation_refused, book_allocation, claim_allocation, allocate_to, bad_request, allocate_fresh,
  allocate,
}
use unified.Allocation.Tests.{
  loan, request, books, allocation_id, digest, engine, allocation, after_allocation,
}
use unified.AllocationAccounting.{
  AllocationPoster, AllocationPosterError, new_allocation_poster, allocation_entry,
  allocation_journal, checked_excess, allocation_excess, allocation_entries, allocation_journals,
  unallocation_journal, unallocation_journals, post_allocation, apply_allocation,
  reverse_allocation, invalid_allocation,
}
use unified.AllocationAccounting.Booking.{allocate-accepted}

-- What a run computes with.
running : Unit {0}
unfolding lookup insert set_string to_string parsed canonical_positive canonical_non_negative
    valid_obligation valid_final_payment covered allocate allocate_fresh allocate_to
    claim_allocation book_allocation bad_request obligation_refused allocation_of commit_allocation
    obligation_or_zero claim_mode store_synthetic claim_synthetic valid_durable_claim
    allocation_taken publish is_reversed owned_by_other ◌+ℤ◌ ◌-ℤ◌ new get flip flip_entry post_batch
    validate validate_and_hash hash_all post_all post_validated post_fresh check_reversal commit
    scope posted_or_zero identity_missing entry_units tally_entries tally_entry add_side add
    debits_match credits_match new_allocation_poster allocation_entry allocation_journal
    checked_excess allocation_excess allocation_entries allocation_journals unallocation_journal
    unallocation_journals post_allocation apply_allocation reverse_allocation
running = tt

allocate-accepted_example :
    (excess : ℤ) × (allocation_excess allocation ≡ some excess)
    × All (λ j. validate j ≡ ok tt) (allocation_journals allocation excess)
unfolding running
allocate-accepted_example =
    allocate-accepted books allocation_id digest request engine loan 50 allocation after_allocation
      refl refl refl refl refl

abbrev hash : Journal → Option String
hash j = some j.id

abbrev booked : Result AllocationPosterError (List String) × AllocationPoster
booked = apply_allocation hash allocation 4 (new_allocation_poster new)

abbrev journals : List String
journals = "allocation:a1:allocation" ∷ "allocation:a1:lender-claim" ∷ []

abbrev reversal : ReversalRequest
reversal = record {
  reversal_id = "r1";
  allocation_id = "a1";
  payment_id = "p1";
  expected_obligation_version = 2;
  provider_id = "v";
  provider_reference = "r";
  status = "REVERSED";
  provider_event_id = "e9";
  reason_code = "RETURNED";
  evidence_hash = "e";
  reversed_at = 6;
}

abbrev returned : Allocation → Result AllocationPosterError (List String) × AllocationPoster
returned item = reverse_allocation hash item reversal 7 booked.1

-- The allocation is booked once, and reversed once by its own journals.
answers :
    (booked.0 ≡ ok journals)
    × ((apply_allocation hash allocation 5 booked.1) ≡ (ok journals, booked.1))
    × (length (returned record allocation { journal_ids = journals }).1.book.by_id ≡ 4)
    × ((returned allocation).0 ≡ err invalid_allocation)
    × ((reverse_allocation hash
          record allocation { journal_ids = journals }
          reversal
          8
          (returned record allocation { journal_ids = journals }).1).0
        ≡ err invalid_allocation)
unfolding running
answers = (refl, refl, refl, refl, refl)
