-- ===== src/Ledger/Tests.antt =====
-- Runs of the ledger on small journals, and the theorems at those inputs. The hash is the journal's
-- id and reason.
use Prim.Native.String.{◌++◌ as ◌++ₛ◌}
use unified.Decimal.{set_string}
use unified.Base.{String, ◌≡◌, refl, Option, some, List, [], ◌∷◌, lookup, insert, ok, err, ◌↔◌}
use unified.Ledger.{
  Side, Entry, Journal, PostedJournal, Ledger, new, validate, post, scope, debits_match,
  credits_match, identity_missing, tally_entries, validate_and_hash, post_validated, post_fresh,
  check_reversal, commit, invalid_journal, unbalanced_journal, reversal_journal, post_batch,
  reverse, get, hash_all, post_all, posted_or_zero,
}
use unified.Ledger.Balance.{IsJournal, validate_sound, validate_complete}
use unified.Ledger.Invariant.{IsValid, new-IsValid}
use unified.Ledger.Posting.{post-IsValid, post-replay}
use unified.Ledger.Reversal.{
  Call, ledger_debits, reversal_unique, run, run-IsValid, account_debits, ledger_credits,
  account_credits, trial_balance, reverse_undoes,
}
use unified.Ledger.Batch.{post_batch_error_unchanged, post_each, post_batch-post_each}

-- What a run computes with.
running : Unit {0}
unfolding set_string validate identity_missing tally_entries debits_match credits_match lookup
    insert post post_batch reverse get reversal_journal hash_all post_all validate_and_hash
    post_validated post_fresh check_reversal commit posted_or_zero scope new
running = tt

abbrev hash : Journal → Option String
hash j = some (j.id ++ₛ j.reason)

abbrev entry : String → Side → String → Entry
entry account side units = record {
  account_code = account;
  side = side;
  asset_id = "usd";
  units = units;
  party_id = "";
  loan_id = "";
  tranche_id = "";
}

abbrev journal : String → String → List Entry → Journal
journal id key entries = record {
  id = id;
  legal_entity_id = "unified";
  book_id = "general";
  source_system = "test";
  entry_type = "TEST";
  source_event_id = "event";
  loan_id = "";
  idempotency_key = key;
  correlation_id = "corr";
  effective_at = 5;
  entries = entries;
  evidence_hash = "evidence";
  reversal_of = "";
  reason = "";
}

abbrev sale : Journal
sale = journal "j1" "k1" (
    entry "1310" Side.debit "100"
    ∷ entry "2310" Side.credit "60"
    ∷ entry "2150" Side.credit "40"
    ∷ [])

abbrev lopsided : Journal
lopsided = journal "j2" "k2" (entry "1310" Side.debit "100" ∷ entry "2310" Side.credit "99" ∷ [])

abbrev book : Ledger
book = (post hash sale 7 new).1

sale_valid : validate sale ≡ ok tt
unfolding running
sale_valid = refl

lopsided_refused :
    (validate lopsided ≡ err unbalanced_journal)
    × (validate (journal "j3" "k3" (entry "1" Side.debit "01x" ∷ [])) ≡ err invalid_journal)
unfolding running
lopsided_refused = (refl, refl)

abbrev posted_sale : PostedJournal
posted_sale = record { journal = sale; content_hash = "j1"; posted_at = 7 }

book_holds_sale : lookup "j1" book.by_id ≡ some posted_sale
unfolding running
book_holds_sale = refl

book-IsValid : IsValid hash book
book-IsValid = post-IsValid hash sale 7 new (new-IsValid hash)

validate_sound_example : IsJournal sale
validate_sound_example = validate_sound sale sale_valid

validate_complete_example : validate sale ≡ ok tt
validate_complete_example = validate_complete sale validate_sound_example

post-replay_example : post hash sale 9 book ≡ (ok posted_sale, book)
post-replay_example = post-replay hash "j1" posted_sale 9 book book-IsValid book_holds_sale

-- The scope of the first journal, with another content.
abbrev changed : Journal
changed = record sale { reason = "changed" }

abbrev second_sale : Journal
second_sale = journal "j4" "k4" (entry "1310" Side.debit "5" ∷ entry "2310" Side.credit "5" ∷ [])

abbrev posted_second : PostedJournal
posted_second = record { journal = second_sale; content_hash = "j4"; posted_at = 9 }

post_batch-post_each_example :
    let l' = (post_batch hash (second_sale ∷ sale ∷ []) 9 book).1 in
    (post_batch hash (second_sale ∷ sale ∷ []) 9 book ≡ (ok (posted_second ∷ posted_sale ∷ []), l'))
    ↔ (post_each hash (second_sale ∷ sale ∷ []) 9 book ≡ ok (posted_second ∷ posted_sale ∷ [], l'))
post_batch-post_each_example =
    post_batch-post_each hash second_sale (sale ∷ []) 9 book
      (post_batch hash (second_sale ∷ sale ∷ []) 9 book).1 (posted_second ∷ posted_sale ∷ [])

batch_posts :
    (post_batch hash (second_sale ∷ sale ∷ []) 9 book).0 ≡ ok (posted_second ∷ posted_sale ∷ [])
unfolding running
batch_posts = refl

post_batch_error_unchanged_example : (post_batch hash (second_sale ∷ lopsided ∷ []) 9 book).1 ≡ book
unfolding running
post_batch_error_unchanged_example =
    post_batch_error_unchanged hash (second_sale ∷ lopsided ∷ []) 9 book {e = unbalanced_journal}
      refl

abbrev undo : Journal
undo = reversal_journal posted_sale "r1" "rk1" "undo" "mistake" 8

abbrev undone : Ledger
undone = (reverse hash "j1" "r1" "rk1" "undo" "mistake" 8 9 book).1

abbrev posted_undo : PostedJournal
posted_undo = record { journal = undo; content_hash = "r1mistake"; posted_at = 9 }

reverse_undoes_example :
    ((account asset : String)
      → (account_debits account asset undo.entries ≡ account_credits account asset sale.entries)
        × (account_credits account asset undo.entries ≡ account_debits account asset sale.entries))
    × (lookup "j1" undone.reversals ≡ some "r1")
    × (lookup "r1" undone.by_id ≡ some posted_undo)
unfolding running
reverse_undoes_example =
    reverse_undoes hash "j1" "r1" "rk1" "undo" "mistake" 8 9 book book-IsValid posted_sale
      book_holds_sale posted_undo undone refl refl

undone-IsValid : IsValid hash undone
undone-IsValid =
    run-IsValid hash (Call.reversing "j1" "r1" "rk1" "undo" "mistake" 8 9 ∷ []) book book-IsValid

undone_holds_sale : lookup "j1" undone.by_id ≡ some posted_sale
unfolding running
undone_holds_sale = refl

abbrev calls : List (Call hash)
calls =
    Call.posting sale 7
    ∷ Call.batch (second_sale ∷ lopsided ∷ []) 8
    ∷ Call.batch (second_sale ∷ []) 8
    ∷ Call.reversing "j1" "r1" "rk1" "undo" "mistake" 8 9
    ∷ []

run-IsValid_example : IsValid hash (run hash calls new)
run-IsValid_example = run-IsValid hash calls new (new-IsValid hash)

trial_balance_example :
    ledger_debits hash "usd" (run hash calls new).by_id
    ≡ ledger_credits hash "usd" (run hash calls new).by_id
trial_balance_example = trial_balance hash calls "usd"

reversal_unique_example : ◌≡◌ {A = String} "r1" "r1"
unfolding running
reversal_unique_example =
    reversal_unique hash calls "r1" "r1" posted_undo posted_undo refl refl refl refl
