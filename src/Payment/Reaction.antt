-- ===== src/Payment/Reaction.antt =====
-- A callback that is authentic moves its payment by one transition at most.
use unified.Base.{
  String, ◌≡◌, refl, sym, ap, ◌∙◌, ◌⊎◌, inl, inr, true, false, Option, none, some, List, [], ◌∷◌,
  arith, Option-cases, length, Dict, lookup, insert, Result-cases, Time,
}
use mathlib.Core.Path.{subst}
use unified.AllocationMode.{
  Claim, ReversalDisposition, reversal_unclaimed, reversal_synthetic, reversal_released,
  reversal_quarantined, reversal_incident,
}
use unified.Payment.Types.{
  Status, Provider, Intent, Callback, Consumption, Services, Orchestrator, Answer, same_status,
  same_status_lem, reversed, canonical_persistence, refused,
}
use unified.Payment.Checks.{allowed_transition, event_key}
use unified.Payment.Consumptions.{
  Effect, apply_canonical_consumptions, register_consumption, refresh_one, unless_failed,
  refresh_each, refresh_canonical_consumptions,
}
use unified.Payment.Records.{Ingress, advanced, transition_of, reversal_record}
use unified.Payment.Callbacks.{
  quarantined, reject, store_event, put_payment, hold_reversal, record_incident, finish_reversal,
  settle_reversal, accounting_commit, reverse_payment, advance_payment, move_payment, take_callback,
}
use unified.Payment.Moves.{PayStep, IsFiled, keeps_all, put_next, advanced-IsNext}

module _ {W : Type 0} where
  pub apply_canonical_consumptions-payments :
      (id : String) (o : Orchestrator W)
      → (apply_canonical_consumptions id o).1.payments ≡ o.payments
  unfolding apply_canonical_consumptions
  apply_canonical_consumptions-payments id o = elim (Option-cases (lookup id o.payments)) [
    | inl q ↦ ground arith
    | inr (c, q) ↦ ground arith
  ]

  pub refresh_one-cases :
      (c : Consumption) (o : Orchestrator W)
      → ((refresh_one c o).1 ≡ o)
        ⊎ ((refresh_one c o).1 ≡ (apply_canonical_consumptions c.payment_id o).1)
        ⊎ ((refresh_one c o).1
            ≡ (apply_canonical_consumptions c.payment_id (register_consumption c o)).1)
  unfolding refresh_one
  refresh_one-cases c o = elim (Option-cases (lookup c.quarantine_id o.consumed_reversals)) [
    | inl q ↦ ground arith
    | inr (e, q) ↦ ground arith
  ]

  refresh_one-payments :
      (c : Consumption) (o : Orchestrator W) → (refresh_one c o).1.payments ≡ o.payments
  refresh_one-payments c o = elim (refresh_one-cases c o) [
    | inl q ↦ ap (λ x. x.payments) q
    | inr (inl q) ↦ ap (λ x. x.payments) q ∙ apply_canonical_consumptions-payments c.payment_id o
    | inr (inr q) ↦
        ap (λ x. x.payments) q
        ∙ apply_canonical_consumptions-payments c.payment_id (register_consumption c o)
        ∙ unfold register_consumption in refl
  ]

  unless_failed-payments :
      (r : Effect W) (next : Orchestrator W → Effect W) (m : Dict Intent)
      → r.1.payments ≡ m
      → ((o : Orchestrator W) → (next o).1.payments ≡ o.payments)
      → (unless_failed r next).1.payments ≡ m
  unfolding unless_failed
  unless_failed-payments (some e, o) next m h k = h
  unless_failed-payments (none, o) next m h k = k o ∙ h

  refresh_each-payments :
      (cs : List Consumption) (o : Orchestrator W) → (refresh_each cs o).1.payments ≡ o.payments
  unfolding refresh_each
  refresh_each-payments [] o = refl
  refresh_each-payments (c ∷ cs) o =
      unless_failed-payments (refresh_one c o) (refresh_each cs) o.payments
        (refresh_one-payments c o) (refresh_each-payments cs)

  -- The refresh leaves the payments alone, whether it fails or not.
  pub refresh-payments :
      (s : Services W) (o : Orchestrator W)
      → (refresh_canonical_consumptions s o).1.payments ≡ o.payments
  unfolding refresh_canonical_consumptions
  refresh-payments s o = refresh_each-payments (s.consumed_provider_reversals o.world) o

  -- The payments after a reversal: as before, or with the reversed payment.
  settle-payments :
      (i : Ingress) (c : Callback) (current next : Intent) (claim : Claim) (d : ReversalDisposition)
      (committed : Option (List String)) (o : Orchestrator W)
      → ((settle_reversal i c current next claim d committed o).1.payments ≡ o.payments)
        ⊎ ((settle_reversal i c current next claim d committed o).1.payments
            ≡ insert next.payment_id next o.payments)
  unfolding settle_reversal finish_reversal hold_reversal record_incident store_event put_payment
      quarantined
  settle-payments i c current next claim reversal_quarantined committed o = inl refl
  settle-payments i c current next claim reversal_incident committed o = inl refl
  settle-payments i c current next claim reversal_unclaimed none o = inl refl
  settle-payments i c current next claim reversal_unclaimed (some js) o = inr refl
  settle-payments i c current next claim reversal_synthetic none o = inl refl
  settle-payments i c current next claim reversal_synthetic (some js) o = inr refl
  settle-payments i c current next claim reversal_released none o = inl refl
  settle-payments i c current next claim reversal_released (some js) o = inr refl

  module _ (s : Services W) where
    -- The payments after a call: as before, or with one payment in its next status.
    abbrev Puts : Intent → Orchestrator W → Answer × Orchestrator W → Type 0
    Puts next o r =
        (r.1.payments ≡ o.payments) ⊎ (r.1.payments ≡ insert next.payment_id next o.payments)

    reverse-Puts :
        (i : Ingress) (c : Callback) (current : Intent) (o : Orchestrator W)
        → Puts (advanced reversed current c i.received_at) o (reverse_payment s i c current o)
    reverse-Puts i c current o =
        let next = advanced reversed current c i.received_at in
        let call =
          s.handle_provider_reversal (reversal_record (length o.quarantines) i c)
            (accounting_commit s (transition_of next current.status c i.received_at)) o.world in
        elim (Result-cases call.0.answer) [
          | inl (text, q) ↦ inl (
              let k : reverse_payment s i c current o
                  ≡ (refused canonical_persistence, record o { world = call.1 }) =
                unfold reverse_payment in ground arith in
              ap (λ x. x.1.payments) k)
          | inr (d, q) ↦
              let k : reverse_payment s i c current o
                  ≡ settle_reversal i c current next d.0 d.1 call.0.committed
                      record o { world = call.1 } =
                unfold reverse_payment in ground arith in
              elim (settle-payments i c current next d.0 d.1 call.0.committed
                record o { world = call.1 }) [
                  | inl e ↦ inl (ap (λ x. x.1.payments) k ∙ e)
                  | inr e ↦ inr (ap (λ x. x.1.payments) k ∙ e)
                ]
        ]

    advance-Puts :
        (i : Ingress) (c : Callback) (current : Intent) (o : Orchestrator W)
        → Puts (advanced c.status current c i.received_at) o (advance_payment s i c current o)
          × (same_status c.status current.status ≡ true
              → (advance_payment s i c current o).1.payments ≡ o.payments)
    unfolding advance_payment store_event put_payment
    advance-Puts i c current o =
        let next = advanced c.status current c i.received_at in
        elim (Result-cases
          (s.apply (transition_of next current.status c i.received_at) o.world).0) [
            | inl (text, q) ↦ ground arith
            | inr (js, q) ↦ ground arith
          ]

    move-cases :
        (i : Ingress) (p : Provider) (c : Callback) (current : Intent) (o : Orchestrator W)
        → ((move_payment s i p c current o).1.payments ≡ o.payments)
          ⊎ ((same_status c.status reversed ≡ true)
              × ((same_status c.status current.status ≡ true)
                  ⊎ (allowed_transition current.status c.status ≡ true))
              × (same_status current.status reversed ≡ false)
              × (move_payment s i p c current o ≡ reverse_payment s i c current o))
          ⊎ (((same_status c.status current.status ≡ true)
                ⊎ (allowed_transition current.status c.status ≡ true))
              × (move_payment s i p c current o ≡ advance_payment s i c current o))
    unfolding move_payment reject quarantined
    move-cases i p c current o = ground arith

    put_step :
        (status : Status) (c : Callback) (current : Intent) (at : Time) (m m' : Dict Intent)
        → lookup c.payment_id m ≡ some current
        → current.payment_id ≡ c.payment_id
        → allowed_transition current.status status ≡ true
        → (m' ≡ m)
          ⊎ (m' ≡ insert (advanced status current c at).payment_id (advanced status current c at) m)
        → PayStep m m'
    put_step status c current at m m' found named allowed (inl e) = keeps_all m m' e
    put_step status c current at m m' found named allowed (inr e) = subst (PayStep m) (sym e) (
        put_next m c.payment_id current (advanced status current c at) found named
          (advanced-IsNext status current c at allowed))

    -- A repeated status that is reversed would be the status of the payment.
    reversal_allowed :
        (c : Callback) (current : Intent)
        → same_status c.status reversed ≡ true
        → (same_status c.status current.status ≡ true)
          ⊎ (allowed_transition current.status c.status ≡ true)
        → same_status current.status reversed ≡ false
        → allowed_transition current.status reversed ≡ true
    reversal_allowed c current is_reversed (inr allowed) not_yet =
        ap (allowed_transition current.status) (sym (same_status_lem c.status reversed is_reversed))
        ∙ allowed
    reversal_allowed c current is_reversed (inl same) not_yet =
        let e = same_status_lem c.status reversed is_reversed in
        let k = same_status_lem c.status current.status same in
        absurd (ground (arith, not_yet, ap (λ x. same_status x reversed) (sym k ∙ e)))

    pub move-PayStep :
        (i : Ingress) (p : Provider) (c : Callback) (current : Intent) (o : Orchestrator W)
        → lookup c.payment_id o.payments ≡ some current
        → current.payment_id ≡ c.payment_id
        → PayStep o.payments (move_payment s i p c current o).1.payments
    move-PayStep i p c current o found named = elim (move-cases i p c current o) [
      | inl e ↦ keeps_all o.payments _ e
      | inr (inl (is_reversed, way, not_yet, e)) ↦
          let pays = ap (λ x. x.1.payments) e in
          subst (PayStep o.payments) (sym pays) (
            put_step reversed c current i.received_at o.payments _ found named
              (reversal_allowed c current is_reversed way not_yet) (reverse-Puts i c current o))
      | inr (inr (inl same, e)) ↦
          keeps_all o.payments _ (ap (λ x. x.1.payments) e ∙ (advance-Puts i c current o).1 same)
      | inr (inr (inr allowed, e)) ↦
          let pays = ap (λ x. x.1.payments) e in
          subst (PayStep o.payments) (sym pays) (
            put_step c.status c current i.received_at o.payments _ found named allowed
              (advance-Puts i c current o).0)
    ]

    take-cases :
        (i : Ingress) (p : Provider) (c : Callback) (o : Orchestrator W)
        → ((take_callback s i p c o).1.payments ≡ o.payments)
          ⊎ ((current : Intent) × (lookup c.payment_id o.payments ≡ some current)
              × (take_callback s i p c o ≡ move_payment s i p c current o))
    unfolding take_callback reject quarantined
    take-cases i p c o =
        elim (Option-cases (lookup (event_key i.provider_id i.provider_event_id) o.events)) [
          | inr (e, q) ↦ inl (ground arith)
          | inl q ↦ elim (Option-cases (lookup c.payment_id o.payments)) [
            | inl k ↦ inl (ground arith)
            | inr (current, k) ↦ known current q k
          ]
        ]
      where
        known :
            (current : Intent)
            → lookup (event_key i.provider_id i.provider_event_id) o.events ≡ none
            → lookup c.payment_id o.payments ≡ some current
            → ((take_callback s i p c o).1.payments ≡ o.payments)
              ⊎ ((current : Intent) × (lookup c.payment_id o.payments ≡ some current)
                  × (take_callback s i p c o ≡ move_payment s i p c current o))
        known current q k =
            let two : ((take_callback s i p c o).1.payments ≡ o.payments)
                ⊎ (take_callback s i p c o ≡ move_payment s i p c current o) =
              ground arith in
            elim two [ inl e ↦ inl e | inr e ↦ inr (current, k, e) ]

    pub take-PayStep :
        (i : Ingress) (p : Provider) (c : Callback) (o : Orchestrator W)
        → IsFiled o.payments
        → PayStep o.payments (take_callback s i p c o).1.payments
    take-PayStep i p c o filed = elim (take-cases i p c o) [
      | inl e ↦ keeps_all o.payments _ e
      | inr (current, found, e) ↦
          subst (PayStep o.payments) (sym (ap (λ x. x.1.payments) e))
            (move-PayStep i p c current o found (filed c.payment_id current found))
    ]
