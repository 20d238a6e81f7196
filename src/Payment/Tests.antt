-- ===== src/Payment/Tests.antt =====
-- Runs of the payment ingress, and the theorems at those inputs: an accounting that counts its entries.
use unified.Base.{
  ℕ, suc, ◌≤◌, String, ◌≡◌, refl, sym, ap, ◌↔◌, inl, true, false, ◌&&◌, Option, none, some, List,
  [], ◌∷◌, arith, ◌==◌, if◌then◌else◌, length, lookup, insert, delete, ok, err, pos, Time, after,
}
use unified.Decimal.{to_string}
use unified.Payment.{
  StoredEvent, Status, Bytes, Provider, Intent, Callback, CallbackResult, Services, Orchestrator,
  bank, created, processing, provisional, final, failed, other_status, answered, valid_rail,
  allowed_transition, accounting_transition, callback_status, positive_units, encodable, same_bytes,
  event_key, bad_new_intent, apply_canonical_consumptions, refresh_each,
  refresh_canonical_consumptions, Ingress, quarantine_record, result_of, advanced, transition_of,
  unbound, misaddressed, Codec, encode_callback, decode_callback, quarantined, reject, store_event,
  put_payment, advance_payment, move_payment, take_callback, authenticate, retain, receive,
  ingress_of, ingest_callback, empty_orchestrator, open_intent, replay_intent, file_intent,
  create_intent,
}
use unified.Payment.Moves.{IsFiled, PayStep-IsFiled, put_new}
use unified.Payment.History.{
  Follows, Later, Call, after_call, after_calls, call-IsFiled, after_calls-Later, create, ingest,
}
use unified.Payment.Lives.{after_calls-closed, after_calls-version}
use unified.Payment.Repeats.{StoresAnswer, IsRepeat, ingest-again}
use unified.Payment.Rejections.{Refused, ingest-unsigned}
use unified.Payment.Recreation.{create_intent-again}
use unified.Payment.Outcomes.{decode_callback-encode}
use unified.Decimal.{set_string}

-- The accounting answers with one journal; the coordinator holds nothing.
abbrev services : Services ℕ
services = record {
  apply = λ t n. (ok ("journal" ∷ []), suc n);
  handle_provider_reversal = λ r commit n.
      let (answer, n') = commit n in (record { answer = err "no"; committed = none }, n');
  resolve_provider_reversal = λ r commit n. (err "no", n);
  resolved_provider_reversal = λ q n. ok none;
  pending_provider_reversals = λ n. [];
  consumed_provider_reversals = λ n. [];
}

abbrev event_of : Status → String
event_of provisional = "e2"
event_of final = "e3"
event_of _ = "e1"

abbrev pub callback : Status → Callback
callback status = record {
  provider_id = "bank-a";
  provider_event_id = event_of status;
  payment_id = "p1";
  provider_reference = "r1";
  status = status;
  asset_id = "usd";
  units = "7";
  occurred_at = 3;
  expires_at = 100;
  evidence_hash = "h";
}

abbrev read_status : ℕ → Status
read_status n = if n == 1 then processing else if n == 2 then provisional else final

abbrev written_status : Status → ℕ
written_status processing = 1
written_status provisional = 2
written_status _ = 3

abbrev read_callback : Bytes → Option Callback
read_callback (n ∷ []) = some (callback (read_status n))
read_callback _ = none

-- One byte for the status; the signature is the byte nine.
abbrev pub codec : Codec
codec = record {
  hash_bytes = λ raw. elim raw [ [] ↦ "empty" | n ∷ _ ↦ to_string (pos n) ];
  verify = λ key raw signature. same_bytes signature (9 ∷ []);
  unmarshal = read_callback;
  marshal = λ c. some (written_status c.status ∷ []);
}

abbrev pub bank_a : Provider
bank_a = record {
  id = "bank-a";
  rail = bank;
  public_key = [];
  active = true;
  asset_id = "usd";
  supports_reversal = true;
  version = 1;
}

abbrev pub hash : Intent → String
hash i = i.units

abbrev pub intent : Intent
intent = record {
  payment_id = "p1";
  legal_entity_id = "entity";
  idempotency_key = "key";
  correlation_id = "c";
  payer_reference = "payer";
  loan_id = "loan";
  provider_id = "bank-a";
  provider_reference = "";
  rail = bank;
  purpose = "repayment";
  asset_id = "usd";
  units = "7";
  expires_at = 50;
  schema_version = 1;
  status = other_status "";
  version = 0;
  created_at = 0;
  updated_at = 0;
  provisional_at = 0;
  finalized_at = 0;
  reversed_at = 0;
}

abbrev opened : Intent
opened = record intent { status = created; version = 1; created_at = 2; updated_at = 2 }

abbrev start : Orchestrator ℕ
start = empty_orchestrator (("bank-a", bank_a) ∷ []) 0

abbrev with_intent : Orchestrator ℕ
with_intent = after_call services codec hash (create intent 2) start

-- What a run computes with.
running : Unit {0}
unfolding lookup insert delete set_string to_string same_bytes valid_rail allowed_transition
    accounting_transition callback_status positive_units encodable event_key bad_new_intent
    apply_canonical_consumptions refresh_each refresh_canonical_consumptions quarantine_record
    result_of advanced transition_of unbound misaddressed encode_callback decode_callback
    quarantined reject store_event put_payment advance_payment move_payment take_callback
    authenticate retain receive ingress_of ingest_callback empty_orchestrator open_intent
    replay_intent file_intent create_intent after_call after_calls
running = tt

opens_intent : lookup "p1" with_intent.payments ≡ some opened
unfolding running
opens_intent = refl

abbrev deliveries : List Call
deliveries =
    ingest "bank-a" "e1" (1 ∷ []) (9 ∷ []) 4
    ∷ ingest "bank-a" "e1" (1 ∷ []) (9 ∷ []) 5
    ∷ ingest "bank-a" "e1" (1 ∷ []) (8 ∷ []) 6
    ∷ []

-- A delivery, its repetition, and one that is not signed.
after_deliveries :
    (lookup "p1" (after_calls services codec hash deliveries with_intent).payments
      ≡ some (advanced processing opened (callback processing) 4))
    × (length (after_calls services codec hash deliveries with_intent).raw_callbacks ≡ 3)
    × (length (after_calls services codec hash deliveries with_intent).quarantines ≡ 1)
    × (length (after_calls services codec hash deliveries with_intent).events ≡ 1)
unfolding running
after_deliveries = (refl, refl, refl, refl)

start-IsFiled : IsFiled start.payments
unfolding running
start-IsFiled id c h = absurd cc

with_intent-IsFiled : IsFiled with_intent.payments
with_intent-IsFiled = call-IsFiled services codec hash (create intent 2) start start-IsFiled

after_calls-Later_example :
    Later opened (lookup "p1" (after_calls services codec hash deliveries with_intent).payments)
after_calls-Later_example =
    after_calls-Later services codec hash deliveries with_intent "p1" opened with_intent-IsFiled
      opens_intent

after_calls-version_example :
    (d : Intent) × (n : ℕ) × (lookup "p1"
        (after_calls services codec hash deliveries with_intent).payments
      ≡ some d)
    × (Follows opened d n)
    × (d.version ≡ suc n)
    × (d.version ≤ 5)
after_calls-version_example =
    after_calls-version services codec hash deliveries with_intent "p1" opened with_intent-IsFiled
      opens_intent refl refl

abbrev lost : Intent
lost = record opened { status = failed; version = 2 }

abbrev with_lost : Orchestrator ℕ
with_lost = record start { payments = insert "p1" lost [] }

with_lost-IsFiled : IsFiled with_lost.payments
unfolding running
with_lost-IsFiled = PayStep-IsFiled [] with_lost.payments start-IsFiled (put_new [] lost refl)

with_lost-found : lookup "p1" with_lost.payments ≡ some lost
unfolding running
with_lost-found = refl

after_calls-closed_example :
    lookup "p1" (after_calls services codec hash deliveries with_lost).payments ≡ some lost
after_calls-closed_example =
    after_calls-closed services codec hash deliveries with_lost "p1" lost with_lost-IsFiled
      with_lost-found (inl refl)

abbrev ingress : Time → Ingress
ingress at = record {
  provider_id = "bank-a";
  provider_event_id = "e1";
  raw_hash = "1";
  signature_hash = "9";
  ingress_id = 1;
  received_at = at;
}

abbrev first_result : CallbackResult
first_result = result_of (ingress 4) (advanced processing opened (callback processing) 4) [] ""

-- The callback that makes the payment provisional comes in between.
abbrev between : List Call
between = ingest "bank-a" "e2" (2 ∷ []) (9 ∷ []) 6 ∷ []

ingest-first :
    (ingest_callback services codec "bank-a" "e1" (1 ∷ []) (9 ∷ []) 4 with_intent).0
    ≡ answered first_result none
unfolding running
ingest-first = refl

ingest-fresh :
    (c : Callback) → decode_callback codec (1 ∷ []) ≡ some c → after 7 c.expires_at ≡ false
unfolding running
ingest-fresh c h = ap (λ x. elim x [ none ↦ false | some y ↦ after 7 y.expires_at ]) (sym h)

ingest-again_example :
    (e : StoredEvent) × StoresAnswer services codec e
      (event_key "bank-a" "e1")
      (1 ∷ [])
      first_result
      none
      (ingest_callback services codec "bank-a" "e1" (1 ∷ []) (9 ∷ []) 4 with_intent).1
    × IsRepeat services codec e "bank-a" "e1" (1 ∷ []) (9 ∷ []) 7 (
        after_calls services codec hash between
          (ingest_callback services codec "bank-a" "e1" (1 ∷ []) (9 ∷ []) 4 with_intent).1)
ingest-again_example =
    ingest-again services codec hash "bank-a" "e1" (1 ∷ []) (9 ∷ []) 4 7 between with_intent
      first_result none ingest-fresh refl ingest-first

-- A payment in processing, and the callback that makes it provisional.
abbrev underway : Intent
underway = advanced processing opened (callback processing) 4

abbrev with_underway : Orchestrator ℕ
with_underway = record start { payments = insert "p1" underway [] }

abbrev settled : Intent
settled = advanced provisional underway (callback provisional) 6

not_signed :
    (p : Provider)
    → lookup "bank-a" with_intent.providers ≡ some p
    → (p.active && codec.verify p.public_key (1 ∷ []) (8 ∷ [])) ≡ false
unfolding running
not_signed p h = ground arith

ingest-unsigned_example :
    Refused services with_intent
      (refresh_canonical_consumptions services with_intent)
      (ingest_callback services codec "bank-a" "e1" (1 ∷ []) (8 ∷ []) 4 with_intent)
ingest-unsigned_example =
    ingest-unsigned services codec "bank-a" "e1" (1 ∷ []) (8 ∷ []) 4 with_intent refl not_signed

-- The payment has moved when its intent comes again.
abbrev moving : List Call
moving = ingest "bank-a" "e1" (1 ∷ []) (9 ∷ []) 4 ∷ []

create_intent-again_example :
    (d : Intent) × (n : ℕ) × Follows opened d n
    × (create_intent hash intent 5
          (after_calls services codec hash moving (create_intent hash intent 2 start).1)
        ≡ (ok d, after_calls services codec hash moving (create_intent hash intent 2 start).1))
unfolding running
create_intent-again_example =
    create_intent-again services codec hash intent opened 2 5 moving start start-IsFiled refl refl
      refl

decode_callback-encode_example :
    (decode_callback codec (2 ∷ []) ≡ some (callback provisional))
    ↔ (encode_callback codec (callback provisional) ≡ some (2 ∷ []))
decode_callback-encode_example =
    decode_callback-encode codec (callback provisional) (2 ∷ []) (λ h. refl)
