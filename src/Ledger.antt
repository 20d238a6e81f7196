-- ===== src/Ledger.antt =====
-- The posting kernel of services/foundation-ledger/internal/ledger/ledger.go: a double-entry ledger in
-- memory. A method returns its result and the ledger after it; the mutex makes each call one step.
-- The content hash (SHA-256 of the journal's JSON, or the failure of `json.Marshal`) is the parameter
-- `hash`. An error keeps its sentinel and loses its text.
mod Types
pub use Types.*
pub mod Totals
pub mod Balance
pub mod Invariant
pub mod Posting
pub mod Batch
pub mod Reversal
pub mod Accounts
mod Tests
use unified.Base.{
  ℕ, zero, suc, ◌+◌, ltb, ◌==◌, String, Bool, true, false, ◌&&◌, ◌||◌, not, Option, none, some,
  List, [], ◌∷◌, ◌++◌, map, length, Dict, lookup, insert, contains, Result, ok, err, ◌>>=◌, ◌>>◌,
  or_err, reject_if, Time, is_zero, is_empty, ◌=ₛ◌, ◌≠ₛ◌, if◌then◌else◌, pos, ℤ,
}
use unified.Decimal.{set_string}
use Prim.Native.String.{◌++◌ as ◌++ₛ◌}

unfoldable pub new : Ledger
new = record { by_id = []; idempotency = []; reversals = [] }

-- The value of a parsed text, if it is positive.
abbrev pub positive : Option ℤ → Option ℕ
positive (some (pos (suc n))) = some (suc n)
positive _ = none

-- `SetString(units, 10)` with the test that the units are positive.
unfoldable pub entry_units : String → Option ℕ
entry_units s = positive (set_string s)

abbrev pub get_or_zero : String → Dict ℕ → ℕ
get_or_zero k m = elim (lookup k m) [ none ↦ 0 | some v ↦ v ]

-- `add(totals, assetID, units)`
unfoldable pub add : Dict ℕ → String → ℕ → Dict ℕ
add totals asset_id units = insert asset_id (get_or_zero asset_id totals + units) totals

-- The `switch` on the side of an entry; the pair is `debits` and `credits`.
unfoldable pub add_side : Side → String → ℕ → Dict ℕ → Dict ℕ → Result LedgerError (Dict ℕ × Dict ℕ)
unfolding add
add_side Side.debit asset_id units debits credits = ok (add debits asset_id units, credits)
add_side Side.credit asset_id units debits credits = ok (debits, add credits asset_id units)
add_side (Side.other s) asset_id units debits credits = err invalid_journal

-- One round of the loop over the entries.
unfoldable pub tally_entry : Entry → Dict ℕ → Dict ℕ → Result LedgerError (Dict ℕ × Dict ℕ)
unfolding entry_units add_side
tally_entry entry debits credits = do
  reject_if (is_empty entry.account_code || is_empty entry.asset_id) invalid_journal
  units ← or_err (entry_units entry.units) invalid_journal
  add_side entry.side entry.asset_id units debits credits

unfoldable pub tally_entries : List Entry → Dict ℕ → Dict ℕ → Result LedgerError (Dict ℕ × Dict ℕ)
unfolding tally_entry
tally_entries [] debits credits = ok (debits, credits)
tally_entries (entry ∷ entries) debits credits =
    tally_entry entry debits credits >>= λ totals. tally_entries entries totals.0 totals.1

abbrev same_total : Option ℕ → Option ℕ → Bool
same_total (some d) (some c) = d == c
same_total _ _ = false

-- `for assetID, debit := range debits`
unfoldable pub debits_match : Dict ℕ → Dict ℕ → Dict ℕ → Bool
debits_match [] debits credits = true
debits_match (entry ∷ rest) debits credits =
    same_total (lookup entry.0 debits) (lookup entry.0 credits) && debits_match rest debits credits

-- `for assetID := range credits`
unfoldable pub credits_match : Dict ℕ → Dict ℕ → Bool
credits_match [] debits = true
credits_match (entry ∷ rest) debits = contains entry.0 debits && credits_match rest debits

unfoldable pub identity_missing : Journal → Bool
identity_missing j =
    is_empty j.id
    || is_empty j.legal_entity_id
    || is_empty j.book_id
    || is_empty j.source_system
    || is_empty j.entry_type
    || is_empty j.source_event_id
    || is_empty j.idempotency_key
    || is_empty j.correlation_id
    || is_empty j.evidence_hash
    || is_zero j.effective_at

-- `validateAndHash` up to the hash.
unfoldable pub validate : Journal → Result LedgerError (Unit {0})
validate j = do
  reject_if (identity_missing j) invalid_journal
  reject_if (j.reversal_of =ₛ j.id) invalid_journal
  reject_if (ltb (length j.entries) 2) invalid_journal
  totals ← tally_entries j.entries [] []
  reject_if (not (debits_match totals.0 totals.0 totals.1)) unbalanced_journal
  reject_if (not (credits_match totals.1 totals.0)) unbalanced_journal

-- The separator of the idempotency scope, U+0000.
abbrev pub separator : String
separator = String.◌∷◌ Prim.Native.Char.nul ""

unfoldable pub scope : Journal → String
scope j = j.legal_entity_id ++ₛ separator ++ₛ j.source_system ++ₛ separator ++ₛ j.idempotency_key

abbrev pub empty_journal : Journal
empty_journal = record {
  id = "";
  legal_entity_id = "";
  book_id = "";
  source_system = "";
  entry_type = "";
  source_event_id = "";
  loan_id = "";
  idempotency_key = "";
  correlation_id = "";
  effective_at = 0;
  entries = [];
  evidence_hash = "";
  reversal_of = "";
  reason = "";
}

-- `byID[id]`, the zero value where there is no such journal.
unfoldable pub posted_or_zero : String → Dict PostedJournal → PostedJournal
posted_or_zero id by_id = elim (lookup id by_id) [
  | none ↦ record { journal = empty_journal; content_hash = ""; posted_at = 0 }
  | some posted ↦ posted
]

-- The three writes at the end of `postValidated`.
unfoldable pub commit : PostedJournal → Ledger → Ledger
commit posted l =
    let j = posted.journal in
    record {
      by_id = insert j.id posted l.by_id;
      idempotency = insert (scope j) j.id l.idempotency;
      reversals =
          if is_empty j.reversal_of then l.reversals else insert j.reversal_of j.id l.reversals;
    }

-- The checks on the target of a reversal.
unfoldable pub check_reversal : Journal → Ledger → Result LedgerError (Unit {0})
check_reversal j l =
    if is_empty j.reversal_of
    then ok tt
    else if not (contains j.reversal_of l.by_id)
    then err unknown_journal
    else if contains j.reversal_of l.reversals
    then err already_reversed
    else ok tt

-- What `postValidated` does for a scope that is not taken.
unfoldable pub post_fresh :
    Journal → String → Time → Ledger → Result LedgerError PostedJournal × Ledger
post_fresh j content_hash posted_at l =
    let posted : PostedJournal = record {
      journal = j;
      content_hash = content_hash;
      posted_at = posted_at;
    } in
    if contains j.id l.by_id
    then (err invalid_journal, l)
    else elim (check_reversal j l) [ err e ↦ (err e, l) | ok _ ↦ (ok posted, commit posted l) ]

unfoldable pub post_validated :
    Journal → String → Time → Ledger → Result LedgerError PostedJournal × Ledger
post_validated j content_hash posted_at l = elim (lookup (scope j) l.idempotency) [
  | some existing_id ↦
      let existing = posted_or_zero existing_id l.by_id in
      if existing.content_hash ≠ₛ content_hash
      then (err idempotency_conflict, l)
      else (ok existing, l)
  | none ↦ post_fresh j content_hash posted_at l
]

unfoldable pub get : String → Ledger → Option PostedJournal
get id l = lookup id l.by_id

-- `List`, in some order of the map.
unfoldable pub list : Ledger → List PostedJournal
list l = map (λ entry. entry.1) l.by_id

unfoldable pub flip : Side → Side
flip Side.debit = Side.credit
flip _ = Side.debit

unfoldable pub flip_entry : Entry → Entry
unfolding flip
flip_entry entry = record entry { side = flip entry.side }

unfoldable pub reversal_journal : PostedJournal → String → String → String → String → Time → Journal
unfolding flip_entry
reversal_journal original reversal_id idempotency_key source_event_id reason effective_at =
    let j = original.journal in
    record {
      id = reversal_id;
      legal_entity_id = j.legal_entity_id;
      book_id = j.book_id;
      source_system = j.source_system;
      entry_type = "REVERSAL";
      source_event_id = source_event_id;
      loan_id = j.loan_id;
      idempotency_key = idempotency_key;
      correlation_id = j.correlation_id;
      effective_at = effective_at;
      entries = map flip_entry j.entries;
      evidence_hash = j.evidence_hash;
      reversal_of = j.id;
      reason = reason;
    }

-- The second loop, on the copies of the maps.
unfoldable pub post_all :
    List (Journal × String) → Time → Ledger → Result LedgerError (List PostedJournal × Ledger)
post_all [] now l = ok ([], l)
post_all ((j, content_hash) ∷ rest) now l =
    let (r, l') = post_validated j content_hash now l in
    r >>= λ posted. post_all rest now l' >>= λ done. ok (posted ∷ done.0, done.1)

module _ (hash : Journal → Option String) where
  unfoldable pub validate_and_hash : Journal → Result LedgerError String
  unfolding validate
  validate_and_hash j = do validate j; or_err (hash j) invalid_journal

  unfoldable pub post : Journal → Time → Ledger → Result LedgerError PostedJournal × Ledger
  post j now l = elim (validate_and_hash j) [
    | err e ↦ (err e, l)
    | ok content_hash ↦ post_validated j content_hash now l
  ]

  -- The first loop of `PostBatch`.
  unfoldable pub hash_all : List Journal → Result LedgerError (List (Journal × String))
  hash_all [] = ok []
  hash_all (j ∷ js) =
      validate_and_hash j >>= λ content_hash. hash_all js >>= λ rest. ok ((j, content_hash) ∷ rest)

  unfoldable pub post_batch :
      List Journal → Time → Ledger → Result LedgerError (List PostedJournal) × Ledger
  post_batch [] now l = (err invalid_journal, l)
  post_batch (j ∷ js) now l = elim (hash_all (j ∷ js) >>= λ hashed. post_all hashed now l) [
    | err e ↦ (err e, l)
    | ok done ↦ (ok done.0, done.1)
  ]

  unfoldable pub reverse :
      String
      → String
      → String
      → String
      → String
      → Time
      → Time
      → Ledger
      → Result LedgerError PostedJournal × Ledger
  reverse original_id reversal_id idempotency_key source_event_id reason effective_at now l =
      elim (get original_id l) [
        | none ↦ (err unknown_journal, l)
        | some original ↦
            post
              (reversal_journal original reversal_id idempotency_key source_event_id reason
                effective_at)
              now l
      ]
