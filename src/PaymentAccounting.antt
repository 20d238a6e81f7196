-- ===== src/PaymentAccounting.antt =====
-- The accounting of payments in services/foundation-ledger/internal/paymentaccounting/accounting.go:
-- what `Poster.Apply` makes of a transition of the payment ingress, posted to the ledger. The content
-- hash of a transition (SHA-256 of its JSON) is the parameter `hash_json`, and `hash` that of a journal.
use unified.Base.{
  ℕ, zero, suc, ◌+◌, ◌-◌, ◌*◌, ◌/◌, ◌%◌, ◌^◌, ◌≤◌, ◌<◌, min, String, ◌≡◌, refl, sym, ap, ◌∙◌, ◌≢◌,
  ◌↔◌, ◌⊎◌, inl, inr, Bool, true, false, not, ◌&&◌, ◌||◌, Option, none, some, List, [], ◌∷◌, ◌++◌,
  map, arith, eq_iff, eq_refl, ltb, leb, ◌==◌, ◌=ₛ◌, ◌≠ₛ◌, is_empty, if◌then◌else◌, ltb→lt, lt→ltb,
  Bool-cases, Option-cases, eq_of_text_eq, ne_of_text_eq, text_eq_of_ne, length, All, length-append,
  All-append, Dict, lookup, insert, delete, lookup-delete, contains, lookup-insert,
  lookup-insert_self, lookup-empty, lookup-insert_cases, lookup-insert_free, contains-insert,
  insert-All, Result, ok, err, ◌>>=◌, ◌>>◌, or_err, Result-cases, >>=-eq-ok, reject_if, ℤ, pos,
  negsuc, pos_part, neg_part, sub_ℕ, ◌+ℤ◌, ◌-ℤ◌, ◌*ℤ◌, quo, ◌≤ℤ◌, ltb_ℤ, leb_ℤ, eqb_ℤ, int_laws,
  *ℤ-pos, quo-pos, -ℤ-pos, +ℤ-pos, eq_of_parts, Time, is_zero, before, after, time_sub,
  max_duration,
}
use unified.Ledger.{
  Side, Entry, Journal, PostedJournal, Ledger, LedgerError, new, get, flip, flip_entry, post_batch,
  validate,
}
use unified.Payment.{
  Intent, Status, Rail, Transition, same_status, same_rail, card, bank, processing, provisional,
  final, reversed, event_key,
}
use Prim.Native.String.{◌++◌ as ◌++ₛ◌}
pub mod Journals
pub mod Acceptance
pub mod Unwinding
pub mod Ingress
mod Tests

pub record AccountingRecord : Type 0 where
  pub payment_id : String
  pub provisional_journal_id : String
  pub final_journal_id : String
  pub reversal_journal_ids : List String

pub record AppliedTransition : Type 0 where
  pub content_hash : String
  pub journal_ids : List String

pub record Poster : Type 0 where
  pub book : Ledger
  pub legal_entity_id : String
  pub book_id : String
  pub records : Dict AccountingRecord
  pub events : Dict AppliedTransition

pub data PosterError : Type 0 where
  invalid_transition transition_conflict : PosterError
  ledger_refused : LedgerError → PosterError

-- `New`
unfoldable pub new_poster : Ledger → String → String → Result PosterError Poster
new_poster book legal_entity_id book_id =
    if is_empty legal_entity_id || is_empty book_id
    then err invalid_transition
    else ok record {
      book = book;
      legal_entity_id = legal_entity_id;
      book_id = book_id;
      records = [];
      events = [];
    }

unfoldable pub entry : Transition → String → Side → Entry
entry t account side = record {
  account_code = account;
  side = side;
  asset_id = t.payment.asset_id;
  units = t.payment.units;
  party_id = t.payment.payer_reference;
  loan_id = t.payment.loan_id;
  tranche_id = "";
}

abbrev reversal_reason : String → String
reversal_reason reversal_of = if is_empty reversal_of then "" else "authenticated provider reversal"

unfoldable pub journal : Transition → String → String → List Entry → String → Poster → Journal
journal t entry_type stage entries reversal_of p = record {
  id = "payment:" ++ₛ t.payment.payment_id ++ₛ ":" ++ₛ stage;
  legal_entity_id = p.legal_entity_id;
  book_id = p.book_id;
  source_system = "payment-orchestrator";
  entry_type = entry_type;
  source_event_id = t.payment.provider_id ++ₛ ":" ++ₛ t.provider_event_id;
  loan_id = t.payment.loan_id;
  idempotency_key = "payment:" ++ₛ t.payment.payment_id ++ₛ ":" ++ₛ stage;
  correlation_id = t.payment.correlation_id;
  effective_at = t.occurred_at;
  entries = entries;
  evidence_hash = t.evidence_hash;
  reversal_of = reversal_of;
  reason = reversal_reason reversal_of;
}

abbrev pub pending_account : Rail → String
pending_account rail = if same_rail rail card then "9130" else "9140"

abbrev pub settlement_account : Rail → String
settlement_account rail = if same_rail rail card then "1120" else "1100"

unfoldable pub provisional_journal : Transition → Poster → Journal
provisional_journal t p =
    journal t "PAYMENT_PROVISIONAL" "provisional"
      (entry t (pending_account t.payment.rail) Side.debit ∷ entry t "9120" Side.credit ∷ []) "" p

unfoldable pub final_journal : Transition → Poster → Journal
final_journal t p =
    journal t "PAYMENT_FINAL" "final"
      (entry t (settlement_account t.payment.rail) Side.debit
        ∷ entry t (pending_account t.payment.rail) Side.credit
        ∷ [])
      "" p

unfoldable pub reversal_of_payment : Transition → PostedJournal → Poster → Journal
reversal_of_payment t original p =
    let stage = if original.journal.entry_type =ₛ "PAYMENT_FINAL" then "final" else "provisional" in
    journal t "PAYMENT_REVERSAL" (stage ++ₛ "-reversal") (map flip_entry original.journal.entries)
      original.journal.id p

-- The loop over the targets.
unfoldable pub reversal_journals :
    Transition → List String → Poster → Result PosterError (List Journal)
reversal_journals t [] p = ok []
reversal_journals t (target ∷ targets) p =
    let rest = reversal_journals t targets p in
    if is_empty target then err invalid_transition else elim (get target p.book) [
      | none ↦ err invalid_transition
      | some original ↦ rest >>= λ js. ok (reversal_of_payment t original p ∷ js)
    ]

unfoldable pub reversal_targets : Status → AccountingRecord → List String
reversal_targets final r = r.final_journal_id ∷ r.provisional_journal_id ∷ []
reversal_targets _ r = r.provisional_journal_id ∷ []

abbrev pub record_or_zero : Option AccountingRecord → AccountingRecord
record_or_zero none = record {
  payment_id = "";
  provisional_journal_id = "";
  final_journal_id = "";
  reversal_journal_ids = [];
}
record_or_zero (some r) = r

-- The `switch` on the status that the payment takes: its record and the journals to post.
unfoldable pub plan :
    Status
    → Transition
    → AccountingRecord
    → Poster
    → Result PosterError (AccountingRecord × List Journal)
plan provisional t r p =
    let j = provisional_journal t p in
    if not (same_status t.before_status processing) || not (is_empty r.provisional_journal_id)
    then err invalid_transition
    else ok (record r { payment_id = t.payment.payment_id; provisional_journal_id = j.id }, j ∷ [])
plan final t r p =
    let j = final_journal t p in
    if not (same_status t.before_status provisional)
      || is_empty r.provisional_journal_id
      || not (is_empty r.final_journal_id)
    then err invalid_transition
    else ok (record r { final_journal_id = j.id }, j ∷ [])
plan reversed t r p =
    if not (length r.reversal_journal_ids == 0)
      || (not (same_status t.before_status provisional) && not (same_status t.before_status final))
    then err invalid_transition
    else reversal_journals t (reversal_targets t.before_status r) p >>= λ js. ok (r, js)
plan _ t r p = err invalid_transition

unfoldable pub bad_transition : Transition → Bool
bad_transition t =
    is_empty t.payment.payment_id
    || is_empty t.payment.provider_id
    || is_empty t.provider_event_id
    || is_empty t.evidence_hash
    || is_zero t.occurred_at
    || is_zero t.received_at
    || not (same_status t.payment.status t.after_status)

-- The writes of `Apply`.
unfoldable pub book_transition :
    Transition → AccountingRecord → String → List String → Poster → Poster
book_transition t r content_hash ids p = record p {
  records =
      insert t.payment.payment_id
        (if same_status t.after_status reversed then record r { reversal_journal_ids = ids } else r)
        p.records;
  events =
      insert (event_key t.payment.provider_id t.provider_event_id)
        record { content_hash = content_hash; journal_ids = ids } p.events;
}

module _ (hash : Journal → Option String) (hash_json : Transition → String) where
  -- From `PostBatch` on.
  unfoldable pub post_plan :
      Transition
      → AccountingRecord
      → List Journal
      → Time
      → Poster
      → Result PosterError (List String) × Poster
  post_plan t r js now p =
      let (answer, book) = post_batch hash js now p.book in
      elim answer [
        | err e ↦ (err (ledger_refused e), record p { book = book })
        | ok posted ↦
            let ids = map (λ x. x.journal.id) posted in
            (ok ids, book_transition t r (hash_json t) ids record p { book = book })
      ]

  unfoldable pub apply : Transition → Time → Poster → Result PosterError (List String) × Poster
  apply t now p =
      let r = record_or_zero (lookup t.payment.payment_id p.records) in
      if bad_transition t
      then (err invalid_transition, p)
      else elim (lookup (event_key t.payment.provider_id t.provider_event_id) p.events) [
        | some existing ↦
            if existing.content_hash ≠ₛ hash_json t
            then (err transition_conflict, p)
            else (ok existing.journal_ids, p)
        | none ↦ elim (plan t.after_status t r p) [
          | err e ↦ (err e, p)
          | ok planned ↦ post_plan t planned.0 planned.1 now p
        ]
      ]

  -- Transitions, one after another.
  unfoldable pub apply_all : List (Transition × Time) → Poster → Poster
  apply_all [] p = p
  apply_all ((t, now) ∷ ts) p = apply_all ts (apply t now p).1
