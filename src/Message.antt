-- ===== src/Message.antt =====
-- The reference kernel of services/cross-chain-coordinator/message/registry.go. The lock makes each
-- call one step. Byte strings are their hexadecimal texts, so that `%x` changes nothing. The
-- checks and the bytes of an envelope, and the handler, are parameters; the time of the clock is an
-- argument of a call.
pub mod States
pub mod Runs
pub mod Order
mod Tests
use unified.Base.{
  ℕ, zero, suc, ◌+◌, ◌-◌, ◌*◌, ◌/◌, ◌%◌, ◌^◌, ◌≤◌, ◌<◌, min, String, ◌≡◌, refl, sym, ap, ◌∙◌, ◌≢◌,
  ◌↔◌, ◌⊎◌, inl, inr, Bool, true, false, not, ◌&&◌, ◌||◌, Option, none, some, List, [], ◌∷◌, ◌++◌,
  map, arith, eq_iff, eq_refl, ltb, leb, ◌==◌, ◌=ₛ◌, ◌≠ₛ◌, is_empty, if◌then◌else◌, ltb→lt, lt→ltb,
  Bool-cases, Option-cases, eq_of_text_eq, ne_of_text_eq, text_eq_of_ne, length, All, length-append,
  All-append, Dict, lookup, insert, contains, lookup-insert, lookup-insert_self, lookup-empty,
  lookup-insert_cases, lookup-insert_free, contains-insert, insert-All, Result, ok, err, ◌>>=◌,
  ◌>>◌, or_err, Result-cases, >>=-eq-ok, reject_if, ℤ, pos, negsuc, pos_part, neg_part, sub_ℕ, ◌+ℤ◌,
  ◌-ℤ◌, ◌*ℤ◌, quo, ◌≤ℤ◌, ltb_ℤ, leb_ℤ, eqb_ℤ, int_laws, *ℤ-pos, quo-pos, -ℤ-pos, +ℤ-pos,
  eq_of_parts, Time, is_zero, before, after, time_sub, max_duration,
}
use Prim.Native.String.{◌++◌ as ◌++ₛ◌}
use unified.Decimal.{to_string}
use unified.Message.States.{
  MessageState, verified, executed, failed, expired, unspecified, same_state,
}

-- The constants of `CrossChainActionType` that the code names, and the others.
pub data ActionType : Type 0 where
  wrapped_uft_minted collateral_locked disbursement_settled collateral_released : ActionType
  other_action : ℕ → ActionType

-- What the kernel reads of `CrossChainMessageEnvelope`.
pub record Envelope : Type 0 where
  pub message_id : String
  pub lane_id : String
  pub source_nonce : ℕ  -- uint64
  pub action_type : ActionType
  pub expires_at : Time
  pub body : String

pub data MessageError : Type 0 where
  nonce_conflict out_of_order message_expired digest_mismatch : MessageError
  invalid_envelope handler_failed : String → MessageError

pub record Execution : Type 0 where
  pub message_id : String
  pub state : MessageState
  pub result : String
  pub replay : Bool
  pub version : ℕ  -- uint64

pub record MessageRecord : Type 0 where
  pub envelope : String
  pub state : MessageState
  pub result : String
  pub version : ℕ

pub record Registry : Type 0 where
  pub by_message : Dict MessageRecord
  pub by_nonce : Dict String
  pub next_nonce : Dict ℕ

-- `(Execution, error)`: an error may come with an execution.
pub data Answer : Type 0 where
  done : Execution → Answer
  done_with : Execution → MessageError → Answer
  refused : MessageError → Answer

abbrev pub u64 : ℕ → ℕ
u64 n = n % 18446744073709551616

-- `NewRegistry`
unfoldable pub new_registry : Registry
new_registry = record { by_message = []; by_nonce = []; next_nonce = [] }

unfoldable pub is_report_action : ActionType → Bool
is_report_action (other_action n) = false
is_report_action _ = true

unfoldable pub to_execution : String → MessageRecord → Bool → Execution
to_execution message_id current replay = record {
  message_id = message_id;
  state = current.state;
  result = current.result;
  replay = replay;
  version = current.version;
}

unfoldable pub get : String → Registry → Option Execution
get message_id r = elim (lookup message_id r.by_message) [
  | none ↦ none
  | some current ↦ some (to_execution message_id current true)
]

-- `fmt.Sprintf("%x:%d", laneId, sourceNonce)`
unfoldable pub nonce_key : Envelope → String
nonce_key e = e.lane_id ++ₛ ":" ++ₛ to_string (pos e.source_nonce)

-- `next`: the nonce that the lane waits for.
unfoldable pub next_of : String → Registry → ℕ
next_of lane r = elim (lookup lane r.next_nonce) [ none ↦ 1 | some n ↦ if n == 0 then 1 else n ]

-- `existingMessage, ok := registry.byNonce[nonceKey]; ok && existingMessage != messageKey`
unfoldable pub nonce_taken : Envelope → Registry → Bool
nonce_taken e r = elim (lookup (nonce_key e) r.by_nonce) [
  | none ↦ false
  | some id ↦ id ≠ₛ e.message_id
]

-- The record of a message seen for the first time.
unfoldable pub fresh_record : String → MessageState → MessageRecord
fresh_record serialized state = record {
  envelope = serialized;
  state = state;
  result = "";
  version = 1;
}

-- The writes of a record that is new.
unfoldable pub file : Envelope → MessageRecord → Registry → Registry
file e current r = record r {
  by_message = insert e.message_id current r.by_message;
  by_nonce = insert (nonce_key e) e.message_id r.by_nonce;
}

-- The writes to a record through its pointer.
unfoldable pub rewrite : Envelope → MessageRecord → Registry → Registry
rewrite e current r = record r { by_message = insert e.message_id current r.by_message }

unfoldable pub expire : Envelope → String → Registry → Answer × Registry
expire e serialized r = elim (lookup e.message_id r.by_message) [
  | none ↦
      let current = fresh_record serialized expired in
      (done_with (to_execution e.message_id current false) message_expired, file e current r)
  | some old ↦
      let current : MessageRecord = record old {
        state = expired;
        version = u64 (old.version + 1);
      } in
      (done_with (to_execution e.message_id current false) message_expired, rewrite e current r)
]

-- The record that the handler is run for, and the registry that holds it.
unfoldable pub admit : Envelope → String → Registry → MessageRecord × Registry
admit e serialized r = elim (lookup e.message_id r.by_message) [
  | some current ↦ (current, r)
  | none ↦ let current = fresh_record serialized verified in (current, file e current r)
]

-- What follows the handler.
unfoldable pub finish :
    Envelope → Result String String → MessageRecord → ℕ → Registry → Answer × Registry
finish e (err text) current next r =
    let current' : MessageRecord = record current {
      state = failed;
      version = u64 (current.version + 1);
    } in
    (
      done_with (to_execution e.message_id current' false) (handler_failed text),
      rewrite e current' r,
    )
finish e (ok result) current next r =
    let current' : MessageRecord = record current {
      state = executed;
      result = result;
      version = u64 (current.version + 1);
    } in
    (
      done (to_execution e.message_id current' false),
      record (rewrite e current' r) { next_nonce = insert e.lane_id (u64 (next + 1)) r.next_nonce },
    )

module _ (validate : Envelope → Option String) (serialize : Envelope → Result String String)
    (handler : Envelope → Result String String) where
  -- From the second look at the nonces on.
  unfoldable pub attempt : Envelope → String → Time → Registry → Answer × Registry
  attempt e serialized now r =
      let next = next_of e.lane_id r in
      let (current, r') = admit e serialized r in
      if nonce_taken e r
      then (refused nonce_conflict, r)
      else if ltb next e.source_nonce
      then (refused out_of_order, r)
      else if ltb e.source_nonce next
      then (refused nonce_conflict, r)
      else if not (before now e.expires_at) && not (is_report_action e.action_type)
      then expire e serialized r
      else finish e (handler e) current next r'

  -- `Execute` for an envelope that is valid and serialized.
  unfoldable pub execute_serialized : Envelope → String → Time → Registry → Answer × Registry
  execute_serialized e serialized now r = elim (lookup e.message_id r.by_message) [
    | none ↦ attempt e serialized now r
    | some existing ↦
        if existing.envelope ≠ₛ serialized
        then (refused digest_mismatch, r)
        else if same_state existing.state executed
        then (done (to_execution e.message_id existing true), r)
        else if same_state existing.state expired
        then (done_with (to_execution e.message_id existing true) message_expired, r)
        else attempt e serialized now r
  ]

  unfoldable pub execute : Envelope → Time → Registry → Answer × Registry
  execute e now r = elim (validate e) [
    | some text ↦ (refused (invalid_envelope text), r)
    | none ↦ elim (serialize e) [
      | err text ↦ (refused (invalid_envelope text), r)
      | ok serialized ↦ execute_serialized e serialized now r
    ]
  ]
