-- ===== src/Message/Order.antt =====
-- The order in which the message kernel executes the messages of a lane.
use unified.Base.{
  ◌+◌, String, ◌≡◌, refl, ap, ◌⊎◌, inl, inr, Option, some, arith, Option-cases, lookup, insert,
  lookup-insert_self, Result, ok, err, Time,
}
use unified.Message.{
  Envelope, MessageRecord, Registry, u64, next_of, file, rewrite, expire, admit, finish, attempt,
  execute,
}
use unified.Message.States.{executed}
use unified.Message.Runs.{execute_serialized-cases, execute-cases}

-- The handler was run with success, and its message is recorded as executed.
pub record IsExecuted (e : Envelope) (result : String) (r' : Registry) : Type 0 where
  entry : MessageRecord
  found : lookup e.message_id r'.by_message ≡ some entry
  ended : entry.state ≡ executed
  kept : entry.result ≡ result

admit-next_nonce :
    (e : Envelope) (serialized : String) (r : Registry)
    → (admit e serialized r).1.next_nonce ≡ r.next_nonce
unfolding admit file
admit-next_nonce e serialized r = elim (Option-cases (lookup e.message_id r.by_message)) [
  | inl q ↦ ground arith
  | inr (m, q) ↦ ground arith
]

expire-next_nonce :
    (e : Envelope) (serialized : String) (r : Registry)
    → (expire e serialized r).1.next_nonce ≡ r.next_nonce
unfolding expire file rewrite
expire-next_nonce e serialized r = elim (Option-cases (lookup e.message_id r.by_message)) [
  | inl q ↦ ground arith
  | inr (m, q) ↦ ground arith
]

-- How a lane moves: not at all, or past the message it waits for, which is executed.
pub data LaneStep (e : Envelope) (answer : Result String String) (r r' : Registry) : Type 0 where
  waits : r'.next_nonce ≡ r.next_nonce → LaneStep e answer r r'
  advances :
      (result : String)
      → answer ≡ ok result
      → e.source_nonce ≡ next_of e.lane_id r
      → r'.next_nonce ≡ insert e.lane_id (u64 (next_of e.lane_id r + 1)) r.next_nonce
      → IsExecuted e result r'
      → LaneStep e answer r r'

finish-LaneStep :
    (e : Envelope) (answer : Result String String) (c : MessageRecord) (r r' : Registry)
    → r'.next_nonce ≡ r.next_nonce
    → e.source_nonce ≡ next_of e.lane_id r
    → LaneStep e answer r (finish e answer c (next_of e.lane_id r) r').1
unfolding finish rewrite
finish-LaneStep e (err text) c r r' same turn = LaneStep.waits same
finish-LaneStep e (ok result) c r r' same turn =
    LaneStep.advances result refl turn (ap (insert e.lane_id (u64 (next_of e.lane_id r + 1))) same)
      record {
        entry = record c { state = executed; result = result; version = u64 (c.version + 1) };
        found = lookup-insert_self e.message_id _ r'.by_message;
        ended = refl;
        kept = refl;
      }

module _ (validate : Envelope → Option String) (serialize : Envelope → Result String String)
    (handler : Envelope → Result String String) where
  attempt-turns :
      (e : Envelope) (serialized : String) (now : Time) (r : Registry)
      → ((attempt validate serialize handler e serialized now r).1 ≡ r)
        ⊎ ((attempt validate serialize handler e serialized now r).1 ≡ (expire e serialized r).1)
        ⊎ ((e.source_nonce ≡ next_of e.lane_id r)
            × ((attempt validate serialize handler e serialized now r).1
                ≡ (finish e
                    (handler e)
                    (admit e serialized r).0
                    (next_of e.lane_id r)
                    (admit e serialized r).1).1))
  unfolding attempt
  attempt-turns e serialized now r = ground arith

  LaneStep-at :
      (e : Envelope) (r : Registry) {r₁ r₂ : Registry}
      → r₁ ≡ r₂
      → LaneStep e (handler e) r r₂
      → LaneStep e (handler e) r r₁
  LaneStep-at e r q h = rw q h

  attempt-LaneStep :
      (e : Envelope) (serialized : String) (now : Time) (r : Registry)
      → LaneStep e (handler e) r (attempt validate serialize handler e serialized now r).1
  attempt-LaneStep e serialized now r = elim (attempt-turns e serialized now r) [
    | inl q ↦ LaneStep-at e r q (LaneStep.waits refl)
    | inr (inl q) ↦ LaneStep-at e r q (LaneStep.waits (expire-next_nonce e serialized r))
    | inr (inr (turn, q)) ↦ LaneStep-at e r q (
        finish-LaneStep e (handler e) _ r (admit e serialized r).1 (admit-next_nonce e serialized r)
          turn)
  ]

  -- A call moves a lane at most past the nonce that the lane waits for, and only if the message of
  -- the call has that nonce, the handler has succeeded, and the message is recorded as executed with
  -- the handler's result.
  pub executes_in_order :
      (e : Envelope) (now : Time) (r : Registry)
      → LaneStep e (handler e) r (execute validate serialize handler e now r).1
  executes_in_order e now r = elim (execute-cases validate serialize handler e now r) [
    | inl q ↦ LaneStep-at e r q (LaneStep.waits refl)
    | inr (serialized, q) ↦
        LaneStep-at e r q
          (elim (execute_serialized-cases validate serialize handler e serialized now r) [
            | inl k ↦ LaneStep-at e r k (LaneStep.waits refl)
            | inr k ↦ LaneStep-at e r k (attempt-LaneStep e serialized now r)
          ])
  ]
