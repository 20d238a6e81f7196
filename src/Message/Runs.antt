-- ===== src/Message/Runs.antt =====
-- What any sequence of calls of the message kernel keeps: a message is executed once, and the messages
-- of a lane are executed in the order of their nonces.
use unified.Base.{
  ℕ, ◌+◌, String, ◌≡◌, ap, ◌∙◌, ◌⊎◌, inl, inr, true, false, Option, none, some, List, [], ◌∷◌,
  arith, eq_iff, ◌=ₛ◌, Bool-cases, Option-cases, eq_of_text_eq, lookup, lookup-insert, Result, ok,
  err, Result-cases, Time,
}
use unified.Message.{
  Envelope, MessageRecord, Registry, u64, to_execution, next_of, fresh_record, file, rewrite,
  expire, admit, finish, attempt, execute_serialized, execute, done,
}
use unified.Message.States.{MessageState, executed, expired, same_state}

-- Nothing but the record of e is written.
abbrev Others : Envelope → Registry → Registry → Type 0
Others e r r' =
    (j : String) → (e.message_id =ₛ j) ≡ false → lookup j r'.by_message ≡ lookup j r.by_message

file-Others : (e : Envelope) (c : MessageRecord) (r : Registry) → Others e r (file e c r)
unfolding file
file-Others e c r j h = ground (arith, lookup-insert e.message_id j c r.by_message, h)

rewrite-Others : (e : Envelope) (c : MessageRecord) (r : Registry) → Others e r (rewrite e c r)
unfolding rewrite
rewrite-Others e c r j h = ground (arith, lookup-insert e.message_id j c r.by_message, h)

expire-Others :
    (e : Envelope) (serialized : String) (r : Registry) → Others e r (expire e serialized r).1
expire-Others e serialized r j h = elim (Option-cases (lookup e.message_id r.by_message)) [
  | inl q ↦
      let k : (expire e serialized r).1 ≡ file e (fresh_record serialized expired) r =
        unfold expire in ground arith in
      rw k (file-Others e (fresh_record serialized expired) r j h)
  | inr (old, q) ↦
      let c : MessageRecord = record old { state = expired; version = u64 (old.version + 1) } in
      let k : (expire e serialized r).1 ≡ rewrite e c r = unfold expire in ground arith in
      rw k (rewrite-Others e c r j h)
]

admit-Others :
    (e : Envelope) (serialized : String) (r : Registry) → Others e r (admit e serialized r).1
admit-Others e serialized r j h = elim (Option-cases (lookup e.message_id r.by_message)) [
  | inl q ↦
      let k : (admit e serialized r).1 ≡ file e (fresh_record serialized MessageState.verified) r =
        unfold admit in ground arith in
      rw k (file-Others e (fresh_record serialized MessageState.verified) r j h)
  | inr (old, q) ↦
      let k : (admit e serialized r).1 ≡ r = unfold admit in ground arith in
      ap (λ x. lookup j x.by_message) k
]

finish-Others :
    (e : Envelope) (answer : Result String String) (c : MessageRecord) (next : ℕ) (r : Registry)
    → Others e r (finish e answer c next r).1
unfolding finish
finish-Others e (err text) c next r j h = rewrite-Others e _ r j h
finish-Others e (ok result) c next r j h = rewrite-Others e _ r j h

module _ (validate : Envelope → Option String) (serialize : Envelope → Result String String)
    (handler : Envelope → Result String String) where
  attempt-cases :
      (e : Envelope) (serialized : String) (now : Time) (r : Registry)
      → ((attempt validate serialize handler e serialized now r).1 ≡ r)
        ⊎ ((attempt validate serialize handler e serialized now r).1 ≡ (expire e serialized r).1)
        ⊎ ((attempt validate serialize handler e serialized now r).1
            ≡ (finish e
                (handler e)
                (admit e serialized r).0
                (next_of e.lane_id r)
                (admit e serialized r).1).1)
  unfolding attempt
  attempt-cases e serialized now r = ground arith

  attempt-Others :
      (e : Envelope) (serialized : String) (now : Time) (r : Registry)
      → Others e r (attempt validate serialize handler e serialized now r).1
  attempt-Others e serialized now r j h = elim (attempt-cases e serialized now r) [
    | inl q ↦ ap (λ x. lookup j x.by_message) q
    | inr (inl q) ↦ ap (λ x. lookup j x.by_message) q ∙ expire-Others e serialized r j h
    | inr (inr q) ↦
        ap (λ x. lookup j x.by_message) q
        ∙ finish-Others e (handler e) _ _ (admit e serialized r).1 j h
        ∙ admit-Others e serialized r j h
  ]

  -- A call writes nothing, or goes on to the nonces.
  pub execute_serialized-cases :
      (e : Envelope) (serialized : String) (now : Time) (r : Registry)
      → ((execute_serialized validate serialize handler e serialized now r).1 ≡ r)
        ⊎ ((execute_serialized validate serialize handler e serialized now r).1
            ≡ (attempt validate serialize handler e serialized now r).1)
  unfolding execute_serialized
  execute_serialized-cases e serialized now r =
      elim (Option-cases (lookup e.message_id r.by_message)) [
        | inl q ↦ inr (ground arith)
        | inr (m, q) ↦ ground arith
      ]

  pub execute-cases :
      (e : Envelope) (now : Time) (r : Registry)
      → ((execute validate serialize handler e now r).1 ≡ r)
        ⊎ ((serialized : String) × ((execute validate serialize handler e now r).1
              ≡ (execute_serialized validate serialize handler e serialized now r).1))
  unfolding execute
  execute-cases e now r = elim (Option-cases (validate e)) [
    | inr (text, q) ↦ inl (ground arith)
    | inl q ↦ elim (Result-cases (serialize e)) [
      | inl (text, k) ↦ inl (ground arith)
      | inr (serialized, k) ↦ inr (serialized, ground arith)
    ]
  ]

  -- An executed message is answered with its record, and nothing is written.
  execute-executed :
      (e : Envelope) (now : Time) (r : Registry) (m : MessageRecord)
      → lookup e.message_id r.by_message ≡ some m
      → m.state ≡ executed
      → (execute validate serialize handler e now r).1 ≡ r
  unfolding execute execute_serialized
  execute-executed e now r m q h = ground (arith, q, ap (λ s. same_state s executed) h)

  execute-Others :
      (e : Envelope) (now : Time) (r : Registry)
      → Others e r (execute validate serialize handler e now r).1
  execute-Others e now r j h = elim (execute-cases e now r) [
    | inl q ↦ ap (λ x. lookup j x.by_message) q
    | inr (serialized, q) ↦
        ap (λ x. lookup j x.by_message) q ∙ elim (execute_serialized-cases e serialized now r) [
          | inl k ↦ ap (λ x. lookup j x.by_message) k
          | inr k ↦ ap (λ x. lookup j x.by_message) k ∙ attempt-Others e serialized now r j h
        ]
  ]

  -- A call keeps the record of every message that is executed.
  execute-keeps :
      (e : Envelope) (now : Time) (r : Registry) (id : String) (m : MessageRecord)
      → lookup id r.by_message ≡ some m
      → m.state ≡ executed
      → lookup id (execute validate serialize handler e now r).1.by_message ≡ some m
  execute-keeps e now r id m q h = elim (Bool-cases (e.message_id =ₛ id)) [
    | inl k ↦
        let same = eq_of_text_eq e.message_id id k in
        ap (λ x. lookup id x.by_message)
          (execute-executed e now r m (ap (λ x. lookup x r.by_message) same ∙ q) h)
        ∙ q
    | inr k ↦ execute-Others e now r id k ∙ q
  ]

  -- The calls that are made, each with the time of the clock.
  abbrev pub run : List (Envelope × Time) → Registry → Registry
  run [] r = r
  run ((e, now) ∷ calls) r = run calls (execute validate serialize handler e now r).1

  run-keeps :
      (calls : List (Envelope × Time)) (r : Registry) (id : String) (m : MessageRecord)
      → lookup id r.by_message ≡ some m
      → m.state ≡ executed
      → lookup id (run calls r).by_message ≡ some m
  run-keeps [] r id m q h = q
  run-keeps ((e, now) ∷ calls) r id m q h =
      run-keeps calls (execute validate serialize handler e now r).1 id m
        (execute-keeps e now r id m q h) h

  -- Once a message is executed, any further calls keep its record, and a later call with the same
  -- envelope is answered with the first result as a replay and writes nothing.
  pub executes_once :
      (calls : List (Envelope × Time)) (r : Registry) (e : Envelope) (now : Time)
      (m : MessageRecord)
      → lookup e.message_id r.by_message ≡ some m
      → m.state ≡ executed
      → validate e ≡ none
      → serialize e ≡ ok m.envelope
      → (lookup e.message_id (run calls r).by_message ≡ some m)
        × (execute validate serialize handler e now (run calls r)
            ≡ (done (to_execution e.message_id m true), run calls r))
  executes_once calls r e now m q h valid bytes =
      let kept = run-keeps calls r e.message_id m q h in (kept, replay (run calls r) kept)
    where
      replay :
          (r : Registry)
          → lookup e.message_id r.by_message ≡ some m
          → execute validate serialize handler e now r
            ≡ (done (to_execution e.message_id m true), r)
      replay r q =
          unfold execute execute_serialized in
          ground (
            arith,
            q,
            valid,
            bytes,
            ap (λ s. same_state s executed) h,
            eq_iff m.envelope m.envelope,
          )
