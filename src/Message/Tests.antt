-- ===== src/Message/Tests.antt =====
-- Runs of the message kernel, and the theorems at those inputs: a handler that fails for one body.
use unified.Base.{
  ℕ, String, ◌≡◌, refl, ◌⊎◌, true, false, Option, none, some, List, [], ◌∷◌, ◌=ₛ◌, if◌then◌else◌,
  lookup, insert, Result, ok, err, Time,
}
use unified.Message.{
  ActionType, Envelope, MessageRecord, new_registry, is_report_action, to_execution, nonce_key,
  next_of, nonce_taken, fresh_record, file, rewrite, expire, admit, finish, attempt,
  execute_serialized, execute, done,
}
use unified.Message.States.{executed}
use unified.Decimal.{to_string}
use unified.Message.States.{
  Reaches, can_transition, executed_is_final, ack_pending, acknowledged, disputed,
}
use unified.Message.Runs.{run, executes_once}
use unified.Message.Order.{LaneStep, executes_in_order}

-- What a run computes with.
running : Unit {0}
unfolding lookup insert to_string new_registry execute execute_serialized attempt finish admit
    expire rewrite file fresh_record nonce_taken next_of nonce_key to_execution is_report_action
    can_transition
running = tt

abbrev validate : Envelope → Option String
validate e = none

abbrev serialize : Envelope → Result String String
serialize e = ok e.body

abbrev handler : Envelope → Result String String
handler e = if e.body =ₛ "bad" then err "no" else ok "yes"

abbrev envelope : String → ℕ → String → Envelope
envelope id nonce body = record {
  message_id = id;
  lane_id = "0a";
  source_nonce = nonce;
  action_type = ActionType.other_action 1;
  expires_at = 100;
  body = body;
}

abbrev calls : List (Envelope × Time)
calls =
    (envelope "m2" 2 "later", 5)
    ∷ (envelope "m1" 1 "good", 6)
    ∷ (envelope "m2" 2 "bad", 7)
    ∷ (envelope "m3" 2 "other", 8)
    ∷ []

abbrev executed_record : MessageRecord
executed_record = record { envelope = "good"; state = executed; result = "yes"; version = 2 }

after_calls :
    (lookup "m1" (run validate serialize handler calls new_registry).by_message
      ≡ some executed_record)
    × (lookup "0a" (run validate serialize handler calls new_registry).next_nonce ≡ some 2)
unfolding running
after_calls = (refl, refl)

executes_once_example :
    let r = run validate serialize handler calls new_registry in
    (lookup "m1" (run validate serialize handler calls r).by_message ≡ some executed_record)
    × (execute validate serialize handler
          (envelope "m1" 1 "good")
          200
          (run validate serialize handler calls r)
        ≡ (done (to_execution "m1" executed_record true), run validate serialize handler calls r))
executes_once_example =
    executes_once validate serialize handler calls
      (run validate serialize handler calls new_registry) (envelope "m1" 1 "good") 200
      executed_record after_calls.0 refl refl refl

executes_in_order_example :
    LaneStep
      (envelope "m1" 1 "good")
      (ok "yes")
      new_registry
      (execute validate serialize handler (envelope "m1" 1 "good") 6 new_registry).1
executes_in_order_example =
    executes_in_order validate serialize handler (envelope "m1" 1 "good") 6 new_registry

acknowledged_path : Reaches executed acknowledged
unfolding running
acknowledged_path =
    Reaches.onward executed ack_pending acknowledged false refl
      (Reaches.onward ack_pending acknowledged acknowledged false refl (Reaches.here acknowledged))

executed_is_final_example :
    (acknowledged ≡ executed)
    ⊎ (acknowledged ≡ ack_pending)
    ⊎ (acknowledged ≡ acknowledged)
    ⊎ (acknowledged ≡ disputed)
executed_is_final_example = executed_is_final acknowledged acknowledged_path
