-- ===== src/PaymentAccounting/Tests.antt =====
-- Runs of the accounting of payments, and the theorems at those inputs.
use unified.Base.{
  ◌⊎◌, String, ◌≡◌, refl, inl, Option, none, some, List, [], ◌∷◌, arith, length, All, lookup,
  insert, delete, Result, ok, err, Time,
}
use unified.Ledger.{
  Journal, PostedJournal, new, get, flip, flip_entry, post_batch, validate, validate_and_hash,
  hash_all, post_all, post_validated, post_fresh, check_reversal, commit, scope, posted_or_zero,
  identity_missing, entry_units, tally_entries, tally_entry, add_side, add, debits_match,
  credits_match,
}
use unified.Ledger.Invariant.{new-IsValid}
use unified.Ledger.Reversal.{ledger_debits, ledger_credits}
use unified.Decimal.{set_string, to_string}
use unified.AllocationMode.{Claim, CanonicalState, canonical_gateway, reversal_unclaimed}
use unified.Payment.Tests.{codec, bank_a, intent as new_intent, hash as content_hash}
use unified.PaymentAccounting.Ingress.{IsPosting, ingress-balances}
use unified.Payment.History.{Call, after_call, after_calls, create, ingest}
use unified.Payment.{
  Status, Intent, Transition, Services, Orchestrator, bank, processing, provisional, final,
  reversed, valid_rail, allowed_transition, accounting_transition, callback_status, positive_units,
  encodable, same_bytes, event_key, bad_new_intent, apply_canonical_consumptions, refresh_each,
  refresh_canonical_consumptions, quarantine_record, result_of, advanced, transition_of, unbound,
  misaddressed, encode_callback, decode_callback, quarantined, reject, store_event, put_payment,
  advance_payment, move_payment, take_callback, authenticate, retain, receive, ingress_of,
  ingest_callback, empty_orchestrator, open_intent, replay_intent, file_intent, create_intent,
}
use unified.PaymentAccounting.{
  AccountingRecord, Poster, entry, journal, provisional_journal, final_journal, reversal_of_payment,
  reversal_journals, reversal_targets, record_or_zero, plan, bad_transition, book_transition,
  post_plan, apply, apply_all, PosterError,
}
use unified.PaymentAccounting.Journals.{apply_all-IsValid, apply-again}
use unified.PaymentAccounting.Acceptance.{IsBookable, plan-accepted}
use unified.PaymentAccounting.Unwinding.{plan-Undoes}
use unified.Ledger.Accounts.{Undoes, entries_of}

-- What a run computes with.
running : Unit {0}
unfolding lookup insert set_string new get flip flip_entry post_batch validate validate_and_hash
    hash_all post_all post_validated post_fresh check_reversal commit scope posted_or_zero
    identity_missing entry_units tally_entries tally_entry add_side add debits_match credits_match
    event_key entry journal provisional_journal final_journal reversal_of_payment reversal_journals
    reversal_targets plan bad_transition book_transition post_plan apply apply_all
running = tt

abbrev hash : Journal → Option String
hash j = some j.id

abbrev hash_json : Transition → String
hash_json t = t.provider_event_id

abbrev intent : Status → Intent
intent status = record {
  payment_id = "p1";
  legal_entity_id = "entity";
  idempotency_key = "key";
  correlation_id = "c";
  payer_reference = "payer";
  loan_id = "loan";
  provider_id = "bank-a";
  provider_reference = "r1";
  rail = bank;
  purpose = "repayment";
  asset_id = "usd";
  units = "7";
  expires_at = 50;
  schema_version = 1;
  status = status;
  version = 3;
  created_at = 2;
  updated_at = 4;
  provisional_at = 4;
  finalized_at = 0;
  reversed_at = 0;
}

abbrev transition : String → Status → Status → Transition
transition event before_status after_status = record {
  payment = intent after_status;
  before_status = before_status;
  after_status = after_status;
  provider_event_id = event;
  occurred_at = 3;
  received_at = 4;
  evidence_hash = "h";
}

abbrev start : Poster
start = record {
  book = new;
  legal_entity_id = "entity";
  book_id = "book";
  records = [];
  events = [];
}

abbrev pays : Transition
pays = transition "e2" processing provisional

abbrev settles : Transition
settles = transition "e3" provisional final

abbrev transitions : List (Transition × Time)
transitions = (pays, 5) ∷ (settles, 6) ∷ (settles, 7) ∷ (transition "e4" final reversed, 8) ∷ []

answers :
    (length (apply_all hash hash_json transitions start).book.by_id ≡ 4)
    × (length (apply_all hash hash_json transitions start).events ≡ 3)
unfolding running
answers = (refl, refl)

apply-first : (apply hash hash_json pays 5 start).0 ≡ ok ("payment:p1:provisional" ∷ [])
unfolding running
apply-first = refl

apply-again_example :
    let after =
      apply_all hash hash_json ((settles, 6) ∷ []) (apply hash hash_json pays 5 start).1 in
    apply hash hash_json pays 9 after ≡ (ok ("payment:p1:provisional" ∷ []), after)
apply-again_example =
    apply-again hash hash_json pays ((settles, 6) ∷ []) 5 9 start ("payment:p1:provisional" ∷ [])
      apply-first

pays-IsBookable : IsBookable pays start
unfolding running
pays-IsBookable = record {
  complete = refl;
  has_asset = refl;
  has_units = ground arith;
  has_correlation = refl;
  has_entity = refl;
  has_book = refl;
}

abbrev booked_record : AccountingRecord
booked_record = record {
  payment_id = "p1";
  provisional_journal_id = "payment:p1:provisional";
  final_journal_id = "";
  reversal_journal_ids = [];
}

planned :
    plan pays.after_status pays (record_or_zero none) start
    ≡ ok (booked_record, provisional_journal pays start ∷ [])
unfolding running
planned = refl

plan-accepted_example :
    All (λ j. validate j ≡ ok tt) (provisional_journal pays start ∷ [])
    × (length (provisional_journal pays start ∷ []) ≡ 1)
plan-accepted_example =
    plan-accepted pays (record_or_zero none) booked_record (provisional_journal pays start ∷ [])
      start pays-IsBookable (inl refl) planned

abbrev after_pays : Poster
after_pays = apply_all hash hash_json ((pays, 5) ∷ []) start

abbrev booked : PostedJournal
booked = record {
  journal = provisional_journal pays start;
  content_hash = "payment:p1:provisional";
  posted_at = 5;
}

abbrev returns : Transition
returns = transition "e5" provisional reversed

returns-planned :
    plan returns.after_status returns booked_record after_pays
    ≡ ok (booked_record, reversal_of_payment returns booked after_pays ∷ [])
unfolding running
returns-planned = refl

plan-Undoes_example :
    let js = reversal_of_payment returns booked after_pays ∷ [] in
    (first : PostedJournal) × (get booked_record.provisional_journal_id after_pays.book
      ≡ some first)
    × (((returns.before_status ≡ provisional)
          × (length js ≡ 1)
          × Undoes (entries_of js) (entries_of (first.journal ∷ [])))
        ⊎ ((second : PostedJournal) × (get booked_record.final_journal_id after_pays.book
              ≡ some second)
            × (returns.before_status ≡ final)
            × (length js ≡ 2)
            × Undoes (entries_of js) (entries_of (second.journal ∷ first.journal ∷ []))))
plan-Undoes_example =
    plan-Undoes hash returns booked_record booked_record
      (reversal_of_payment returns booked after_pays ∷ []) after_pays
      (apply_all-IsValid hash hash_json ((pays, 5) ∷ []) start (new-IsValid hash)) refl
      returns-planned

-- The ingress on this poster: its coordinator runs the callback and lets the reversal through.
abbrev claim : Claim
claim = record {
  claim_id = "";
  payment_id = "p1";
  allocation_id = "";
  mode = canonical_gateway;
  digest = "";
  state = CanonicalState.quarantined;
  expected_version = 0;
  evidence_hash = "";
  claimed_at = 0;
}

abbrev told : {A : Type 0} → Result PosterError A → Result String A
told (ok a) = ok a
told (err e) = err "refused"

abbrev services : Services Poster
services = record {
  apply = λ t p. let (answer, p') = apply hash hash_json t 5 p in (told answer, p');
  handle_provider_reversal = λ r run p.
      let (answer, p') = run p in
      (
        record {
          answer = ok (claim, reversal_unclaimed);
          committed = elim answer [ ok js ↦ some js | err e ↦ none ];
        },
        p',
      );
  resolve_provider_reversal = λ r run p. (err "no", p);
  resolved_provider_reversal = λ q p. ok none;
  pending_provider_reversals = λ p. [];
  consumed_provider_reversals = λ p. [];
}

abbrev ingress : Orchestrator Poster
ingress = empty_orchestrator (("bank-a", bank_a) ∷ []) start

abbrev calls : List Call
calls =
    create new_intent 2
    ∷ ingest "bank-a" "e1" (1 ∷ []) (9 ∷ []) 4
    ∷ ingest "bank-a" "e2" (2 ∷ []) (9 ∷ []) 5
    ∷ ingest "bank-a" "e2" (2 ∷ []) (9 ∷ []) 6
    ∷ ingest "bank-a" "e3" (3 ∷ []) (9 ∷ []) 7
    ∷ []

-- Two journals are booked, for the provisional and the final status.
booked_journals :
    length (after_calls services codec content_hash calls ingress).world.book.by_id ≡ 2
unfolding running to_string delete same_bytes valid_rail allowed_transition accounting_transition
    callback_status positive_units encodable bad_new_intent apply_canonical_consumptions
    refresh_each refresh_canonical_consumptions quarantine_record result_of advanced transition_of
    unbound misaddressed encode_callback decode_callback quarantined reject store_event put_payment
    advance_payment move_payment take_callback authenticate retain receive ingress_of
    ingest_callback empty_orchestrator open_intent replay_intent file_intent create_intent
    after_call after_calls
booked_journals = refl

services-IsPosting : IsPosting hash hash_json (λ p. p) services
services-IsPosting = record {
  posts = λ t p. (5, refl);
  handles = λ r run p keeps v. keeps p v;
  resolves = λ r run p keeps v. v;
}

ingress-balances_example :
    ledger_debits hash "usd"
      (after_calls services codec content_hash calls ingress).world.book.by_id
    ≡ ledger_credits hash "usd"
        (after_calls services codec content_hash calls ingress).world.book.by_id
unfolding empty_orchestrator
ingress-balances_example =
    ingress-balances hash hash_json (λ p. p) services codec content_hash calls ingress "usd"
      services-IsPosting (new-IsValid hash)
