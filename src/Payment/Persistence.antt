-- ===== src/Payment/Persistence.antt =====
-- What the steps of a callback, from its event on, leave alone.
use unified.Base.{
  String, ◌≡◌, refl, ap, ◌⊎◌, inl, inr, Option, none, some, List, [], arith, Bool-cases,
  Option-cases, length, lookup, Result-cases,
}
use unified.AllocationMode.{
  Claim, ReversalDisposition, reversal_unclaimed, reversal_synthetic, reversal_released,
  reversal_quarantined, reversal_incident,
}
use unified.Payment.{
  quarantined, reversal_record, same_status, unknown_payment, accounting_commit, result_of,
  invalid_callback, invalid_transition, callback_conflict, accounting_transition, event_key,
  Services, settle_reversal, Ingress, Provider, Callback, finish_reversal, hold_reversal, Intent,
  Orchestrator, record_incident, reverse_payment, take_callback, move_payment, advance_payment,
  store_event, event_key, reject, advanced, callback_conflict, invalid_transition, put_payment,
  transition_of, reversed, unknown_payment, quarantined, reversal_record, same_status,
}
use unified.Payment.Growth.{
  Grows-refl, Leaves, Leaves-refl, Leaves-trans, to_leaves, store-Leaves, reject-Leaves, put-Leaves,
  world-Leaves, insert-Grows,
}

module _ {W : Type 0} (s : Services W) where
  settle-Leaves :
      (i : Ingress) (c : Callback) (current next : Intent) (claim : Claim) (d : ReversalDisposition)
      (committed : Option (List String)) (o : Orchestrator W)
      → lookup (event_key i.provider_id i.provider_event_id) o.events ≡ none
      → Leaves o (settle_reversal i c current next claim d committed o).1
  unfolding settle_reversal finish_reversal hold_reversal record_incident store_event put_payment
      quarantined
  settle-Leaves i c current next claim reversal_quarantined committed o free = record {
    same_providers = refl;
    same_keys = refl;
    same_hashes = refl;
    grown = insert-Grows _ _ o.events free;
  }
  settle-Leaves i c current next claim reversal_incident committed o free = record {
    same_providers = refl;
    same_keys = refl;
    same_hashes = refl;
    grown = insert-Grows _ _ o.events free;
  }
  settle-Leaves i c current next claim reversal_unclaimed none o free = record {
    same_providers = refl;
    same_keys = refl;
    same_hashes = refl;
    grown = Grows-refl o.events;
  }
  settle-Leaves i c current next claim reversal_unclaimed (some js) o free = record {
    same_providers = refl;
    same_keys = refl;
    same_hashes = refl;
    grown = insert-Grows _ _ o.events free;
  }
  settle-Leaves i c current next claim reversal_synthetic none o free = record {
    same_providers = refl;
    same_keys = refl;
    same_hashes = refl;
    grown = Grows-refl o.events;
  }
  settle-Leaves i c current next claim reversal_synthetic (some js) o free = record {
    same_providers = refl;
    same_keys = refl;
    same_hashes = refl;
    grown = insert-Grows _ _ o.events free;
  }
  settle-Leaves i c current next claim reversal_released none o free = record {
    same_providers = refl;
    same_keys = refl;
    same_hashes = refl;
    grown = Grows-refl o.events;
  }
  settle-Leaves i c current next claim reversal_released (some js) o free = record {
    same_providers = refl;
    same_keys = refl;
    same_hashes = refl;
    grown = insert-Grows _ _ o.events free;
  }

  reverse-Leaves :
      (i : Ingress) (c : Callback) (current : Intent) (o : Orchestrator W)
      → lookup (event_key i.provider_id i.provider_event_id) o.events ≡ none
      → Leaves o (reverse_payment s i c current o).1
  reverse-Leaves i c current o free =
      let next = advanced reversed current c i.received_at in
      let call =
        s.handle_provider_reversal (reversal_record (length o.quarantines) i c)
          (accounting_commit s (transition_of next current.status c i.received_at)) o.world in
      let called = world-Leaves call.1 o in
      elim (Result-cases call.0.answer) [
        | inl (text, q) ↦
            let k : (reverse_payment s i c current o).1 ≡ record o { world = call.1 } =
              unfold reverse_payment in ground arith in
            to_leaves o _ _ k called
        | inr (d, q) ↦
            let k : reverse_payment s i c current o
                ≡ settle_reversal i c current next d.0 d.1 call.0.committed
                    record o { world = call.1 } =
              unfold reverse_payment in ground arith in
            to_leaves o _ _ (ap (λ x. x.1) k) (
              Leaves-trans o record o { world = call.1 } _ called
                (settle-Leaves i c current next d.0 d.1 call.0.committed record o { world = call.1 }
                  free))
      ]

  advance-Leaves :
      (i : Ingress) (c : Callback) (current : Intent) (o : Orchestrator W)
      → lookup (event_key i.provider_id i.provider_event_id) o.events ≡ none
      → Leaves o (advance_payment s i c current o).1
  advance-Leaves i c current o free =
      let next = advanced c.status current c i.received_at in
      let call = s.apply (transition_of next current.status c i.received_at) o.world in
      let o' = record o { world = call.1 } in
      let called = world-Leaves call.1 o in
      let put = Leaves-trans o o' (put_payment next o') called (put-Leaves next o') in
      elim (Bool-cases (same_status c.status current.status)) [
        | inl same ↦
            let e : (advance_payment s i c current o)
                ≡ store_event i (result_of i current [] "") none o =
              unfold advance_payment in ground arith in
            to_leaves o _ _ (ap (λ x. x.1) e) (store-Leaves i _ none o free)
        | inr other ↦ elim (Bool-cases (accounting_transition c.status)) [
          | inr unbooked ↦
              let e : (advance_payment s i c current o)
                  ≡ store_event i (result_of i next [] "") none (put_payment next o) =
                unfold advance_payment in ground arith in
              to_leaves o _ _ (ap (λ x. x.1) e) (
                Leaves-trans o (put_payment next o) _ (put-Leaves next o)
                  (store-Leaves i _ none (put_payment next o) (unfold put_payment in free)))
          | inl books ↦ elim (Result-cases call.0) [
            | inl (text, q) ↦
                let e : (advance_payment s i c current o).1 ≡ o' =
                  unfold advance_payment in ground arith in
                to_leaves o _ _ e called
            | inr (js, q) ↦
                let e : (advance_payment s i c current o)
                    ≡ store_event i (result_of i next js "") none (put_payment next o') =
                  unfold advance_payment in ground arith in
                to_leaves o _ _ (ap (λ x. x.1) e) (
                  Leaves-trans o (put_payment next o') _ put
                    (store-Leaves i _ none (put_payment next o') (unfold put_payment in free)))
          ]
        ]
      ]

  move-Leaves :
      (i : Ingress) (p : Provider) (c : Callback) (current : Intent) (o : Orchestrator W)
      → lookup (event_key i.provider_id i.provider_event_id) o.events ≡ none
      → Leaves o (move_payment s i p c current o).1
  move-Leaves i p c current o free =
      let three : ((reason : String) × (move_payment s i p c current o
              ≡ reject i c reason invalid_transition o))
          ⊎ (move_payment s i p c current o ≡ reverse_payment s i c current o)
          ⊎ (move_payment s i p c current o ≡ advance_payment s i c current o) =
        cases in
      elim three [
        | inl (reason, e) ↦
            to_leaves o _ _ (ap (λ x. x.1) e) (reject-Leaves i c reason invalid_transition o)
        | inr (inl e) ↦ to_leaves o _ _ (ap (λ x. x.1) e) (reverse-Leaves i c current o free)
        | inr (inr e) ↦ to_leaves o _ _ (ap (λ x. x.1) e) (advance-Leaves i c current o free)
      ]
    where
      cases :
          ((reason : String) × (move_payment s i p c current o
              ≡ reject i c reason invalid_transition o))
          ⊎ (move_payment s i p c current o ≡ reverse_payment s i c current o)
          ⊎ (move_payment s i p c current o ≡ advance_payment s i c current o)
      cases =
          let all : (move_payment s i p c current o
                ≡ reject i c "REVERSAL_UNSUPPORTED" invalid_transition o)
              ⊎ (move_payment s i p c current o
                  ≡ reject i c "CALLBACK_ORDER_INVALID" invalid_transition o)
              ⊎ (move_payment s i p c current o ≡ reverse_payment s i c current o)
              ⊎ (move_payment s i p c current o ≡ advance_payment s i c current o) =
            unfold move_payment in ground arith in
          elim all [ inl e ↦ inl (_, e) | inr (inl e) ↦ inl (_, e) | inr (inr e) ↦ inr e ]

  pub take-Leaves :
      (i : Ingress) (p : Provider) (c : Callback) (o : Orchestrator W)
      → Leaves o (take_callback s i p c o).1
  take-Leaves i p c o =
      elim (Option-cases (lookup (event_key i.provider_id i.provider_event_id) o.events)) [
        | inr (x, q) ↦
            let two : (take_callback s i p c o
                  ≡ reject i c "CALLBACK_EVENT_CONFLICT" callback_conflict o)
                ⊎ ((take_callback s i p c o).1 ≡ o) =
              unfold take_callback in ground arith in
            elim two [
              | inl e ↦ to_leaves o _ _ (ap (λ x. x.1) e) (reject-Leaves i c _ _ o)
              | inr e ↦ to_leaves o _ _ e (Leaves-refl o)
            ]
        | inl q ↦ elim (Option-cases (lookup c.payment_id o.payments)) [
          | inl f ↦
              let e : take_callback s i p c o ≡ reject i c "UNKNOWN_PAYMENT" unknown_payment o =
                unfold take_callback in ground arith in
              to_leaves o _ _ (ap (λ x. x.1) e) (reject-Leaves i c _ _ o)
          | inr (current, f) ↦
              let two : (take_callback s i p c o
                    ≡ reject i c "PAYMENT_BINDING_INVALID" invalid_callback o)
                  ⊎ (take_callback s i p c o ≡ move_payment s i p c current o) =
                unfold take_callback in ground arith in
              elim two [
                | inl e ↦ to_leaves o _ _ (ap (λ x. x.1) e) (reject-Leaves i c _ _ o)
                | inr e ↦ to_leaves o _ _ (ap (λ x. x.1) e) (move-Leaves i p c current o q)
              ]
        ]
      ]
