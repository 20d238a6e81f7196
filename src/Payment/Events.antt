-- ===== src/Payment/Events.antt =====
-- What the ingress keeps of a callback, and what it answers to the callback when it comes again.
use unified.Base.{
  String, ◌≡◌, refl, sym, ◌⊎◌, inl, inr, true, Option, none, some, List, [], arith, ◌=ₛ◌,
  Option-cases, eq_of_text_eq, length, Dict, lookup, lookup-insert_self, Result-cases,
}
use mathlib.Core.Path.{subst}
use unified.AllocationMode.{
  Claim, ReversalDisposition, reversal_unclaimed, reversal_synthetic, reversal_released,
  reversal_quarantined, reversal_incident,
}
use unified.Payment.{
  Provider, Intent, Callback, CallbackResult, PaymentError, StoredEvent, Services, Orchestrator,
  Answer, reversed, unknown_payment, invalid_callback, callback_conflict, invalid_transition,
  accounting_failed, canonical_persistence, answered, refused, event_key, Ingress, result_of,
  advanced, transition_of, reversal_record, quarantined, reject, store_event, put_payment,
  hold_reversal, record_incident, finish_reversal, settle_reversal, accounting_commit,
  reverse_payment, advance_payment, move_payment, take_callback,
}

-- The answer to a callback that has been answered before.
abbrev pub replayed : Answer → Answer
replayed (answered result error) = answered record result { replayed = true } error
replayed (refused error) = refused error

module _ {W : Type 0} where
  -- The answer is a refusal, or it is stored under the event with the hash of its bytes.
  abbrev pub Keeps : Ingress → Dict Provider → Answer × Orchestrator W → Type 0
  Keeps i providers r =
      ((e : PaymentError) × (r.0 ≡ refused e))
      ⊎ ((e : StoredEvent) × (lookup (event_key i.provider_id i.provider_event_id) r.1.events
            ≡ some e)
          × (e.raw_hash ≡ i.raw_hash)
          × (replayed r.0 ≡ answered record e.result { replayed = true } e.error)
          × (r.1.providers ≡ providers))

  store-Keeps :
      (i : Ingress) (result : CallbackResult) (error : Option PaymentError) (o : Orchestrator W)
      → Keeps i o.providers (store_event i result error o)
  unfolding store_event
  store-Keeps i result error o =
      let key = event_key i.provider_id i.provider_event_id in
      inr (
        record { raw_hash = i.raw_hash; result = result; error = error },
        lookup-insert_self key _ o.events,
        refl,
        refl,
        refl,
      )

  settle-Keeps :
      (i : Ingress) (c : Callback) (current next : Intent) (claim : Claim) (d : ReversalDisposition)
      (committed : Option (List String)) (o : Orchestrator W)
      → Keeps i o.providers (settle_reversal i c current next claim d committed o)
  unfolding settle_reversal finish_reversal hold_reversal record_incident put_payment quarantined
  settle-Keeps i c current next claim reversal_quarantined committed o = store-Keeps i _ _ _
  settle-Keeps i c current next claim reversal_incident committed o = store-Keeps i _ _ _
  settle-Keeps i c current next claim reversal_unclaimed none o = inl (canonical_persistence, refl)
  settle-Keeps i c current next claim reversal_unclaimed (some js) o = store-Keeps i _ _ _
  settle-Keeps i c current next claim reversal_synthetic none o = inl (canonical_persistence, refl)
  settle-Keeps i c current next claim reversal_synthetic (some js) o = store-Keeps i _ _ _
  settle-Keeps i c current next claim reversal_released none o = inl (canonical_persistence, refl)
  settle-Keeps i c current next claim reversal_released (some js) o = store-Keeps i _ _ _

  to_keeps :
      (i : Ingress) (m : Dict Provider) (r r' : Answer × Orchestrator W)
      → r' ≡ r
      → Keeps i m r
      → Keeps i m r'
  to_keeps i m r r' e h = subst (Keeps i m) (sym e) h

  reject-Keeps :
      (i : Ingress) (c : Callback) (reason : String) (error : PaymentError) (m : Dict Provider)
      (o : Orchestrator W)
      → Keeps i m (reject i c reason error o)
  unfolding reject
  reject-Keeps i c reason error m o = inl (error, refl)

  module _ (s : Services W) where
    reverse-Keeps :
        (i : Ingress) (c : Callback) (current : Intent) (o : Orchestrator W)
        → Keeps i o.providers (reverse_payment s i c current o)
    reverse-Keeps i c current o =
        let next = advanced reversed current c i.received_at in
        let call =
          s.handle_provider_reversal (reversal_record (length o.quarantines) i c)
            (accounting_commit s (transition_of next current.status c i.received_at)) o.world in
        elim (Result-cases call.0.answer) [
          | inl (text, q) ↦
              let k : (reverse_payment s i c current o).0 ≡ refused canonical_persistence =
                unfold reverse_payment in ground arith in
              inl (canonical_persistence, k)
          | inr (d, q) ↦
              let k : reverse_payment s i c current o
                  ≡ settle_reversal i c current next d.0 d.1 call.0.committed
                      record o { world = call.1 } =
                unfold reverse_payment in ground arith in
              to_keeps i o.providers _ _ k
                (settle-Keeps i c current next d.0 d.1 call.0.committed record o { world = call.1 })
        ]

    advance-cases :
        (i : Ingress) (c : Callback) (current : Intent) (o : Orchestrator W)
        → ((advance_payment s i c current o).0 ≡ refused accounting_failed)
          ⊎ ((result : CallbackResult) × (o' : Orchestrator W) × (o'.providers ≡ o.providers)
              × (advance_payment s i c current o ≡ store_event i result none o'))
    advance-cases i c current o =
        let next = advanced c.status current c i.received_at in
        let call = s.apply (transition_of next current.status c i.received_at) o.world in
        let at_once : (advance_payment s i c current o
              ≡ store_event i (result_of i current [] "") none o)
            ⊎ (advance_payment s i c current o
                ≡ store_event i (result_of i next [] "") none (put_payment next o))
            ⊎ ((advance_payment s i c current o).0 ≡ refused accounting_failed)
            ⊎ ((js : List String) × (advance_payment s i c current o
                  ≡ store_event i (result_of i next js "") none
                      (put_payment next record o { world = call.1 }))) =
          elim (Result-cases call.0) [
            | inl (text, q) ↦ unfold advance_payment in ground arith
            | inr (js, q) ↦
                let three : (advance_payment s i c current o
                      ≡ store_event i (result_of i current [] "") none o)
                    ⊎ (advance_payment s i c current o
                        ≡ store_event i (result_of i next [] "") none (put_payment next o))
                    ⊎ (advance_payment s i c current o
                        ≡ store_event i (result_of i next js "") none
                            (put_payment next record o { world = call.1 })) =
                  unfold advance_payment in ground arith in
                elim three [
                  | inl e ↦ inl e
                  | inr (inl e) ↦ inr (inl e)
                  | inr (inr e) ↦ inr (inr (inr (js, e)))
                ]
          ] in
        elim at_once [
          | inl e ↦ inr (result_of i current [] "", o, refl, e)
          | inr (inl e) ↦
              inr (result_of i next [] "", put_payment next o, unfold put_payment in refl, e)
          | inr (inr (inl e)) ↦ inl e
          | inr (inr (inr (js, e))) ↦ inr (
            result_of i next js "",
            put_payment next record o { world = call.1 },
            unfold put_payment in refl,
            e,
          )
        ]

    advance-Keeps :
        (i : Ingress) (c : Callback) (current : Intent) (o : Orchestrator W)
        → Keeps i o.providers (advance_payment s i c current o)
    advance-Keeps i c current o = elim (advance-cases i c current o) [
      | inl e ↦ inl (accounting_failed, e)
      | inr (result, o', same, e) ↦ to_keeps i o.providers _ _ e (
          subst (λ m. Keeps i m (store_event i result none o')) same (store-Keeps i result none o'))
    ]

    move-Keeps :
        (i : Ingress) (p : Provider) (c : Callback) (current : Intent) (o : Orchestrator W)
        → Keeps i o.providers (move_payment s i p c current o)
    move-Keeps i p c current o =
        let cases : ((move_payment s i p c current o).0 ≡ refused invalid_transition)
            ⊎ (move_payment s i p c current o ≡ reverse_payment s i c current o)
            ⊎ (move_payment s i p c current o ≡ advance_payment s i c current o) =
          unfold move_payment reject in ground arith in
        elim cases [
          | inl e ↦ inl (invalid_transition, e)
          | inr (inl e) ↦ to_keeps i o.providers _ _ e (reverse-Keeps i c current o)
          | inr (inr e) ↦ to_keeps i o.providers _ _ e (advance-Keeps i c current o)
        ]

    pub take-Keeps :
        (i : Ingress) (p : Provider) (c : Callback) (o : Orchestrator W)
        → Keeps i o.providers (take_callback s i p c o)
    take-Keeps i p c o =
        elim (Option-cases (lookup (event_key i.provider_id i.provider_event_id) o.events)) [
          | inr (e, q) ↦ known_event e q
          | inl q ↦ elim (Option-cases (lookup c.payment_id o.payments)) [
            | inl f ↦
                let k : (take_callback s i p c o).0 ≡ refused unknown_payment =
                  unfold take_callback reject in ground arith in
                inl (unknown_payment, k)
            | inr (current, f) ↦
                let cases : ((take_callback s i p c o).0 ≡ refused invalid_callback)
                    ⊎ (take_callback s i p c o ≡ move_payment s i p c current o) =
                  unfold take_callback reject in ground arith in
                elim cases [
                  | inl e ↦ inl (invalid_callback, e)
                  | inr e ↦ to_keeps i o.providers _ _ e (move-Keeps i p c current o)
                ]
          ]
        ]
      where
        known_event :
            (e : StoredEvent)
            → lookup (event_key i.provider_id i.provider_event_id) o.events ≡ some e
            → Keeps i o.providers (take_callback s i p c o)
        known_event e q =
            let cases : ((take_callback s i p c o).0 ≡ refused callback_conflict)
                ⊎ (((e.raw_hash =ₛ i.raw_hash) ≡ true)
                    × (take_callback s i p c o
                        ≡ (answered record e.result { replayed = true } e.error, o))) =
              unfold take_callback reject in ground arith in
            elim cases [
              | inl k ↦ inl (callback_conflict, k)
              | inr (same, k) ↦
                  to_keeps i o.providers _ _ k
                    (inr (e, q, eq_of_text_eq e.raw_hash i.raw_hash same, refl, refl))
            ]
