-- ===== src/Payment/Keeping.antt =====
-- What the accounting keeps, the payment ingress keeps: a call changes the state of the accounting and of
-- the coordinator only by calling them.
use unified.Base.{
  String, ◌≡◌, refl, sym, ap, ◌∙◌, ◌⊎◌, inl, inr, Option, none, some, List, [], ◌∷◌, arith,
  Option-cases, length, lookup, Result-cases,
}
use mathlib.Core.Path.{subst}
use unified.AllocationMode.{
  Claim, ReversalDisposition, reversal_unclaimed, reversal_synthetic, reversal_released,
  reversal_quarantined, reversal_incident,
}
use unified.Payment.{
  Provider, Intent, Callback, Transition, ReversalRecord, Consumption, Commit, Services,
  Orchestrator, reversed, event_key, Effect, apply_canonical_consumptions, register_consumption,
  refresh_one, unless_failed, refresh_each, refresh_canonical_consumptions, Ingress, advanced,
  transition_of, reversal_record, quarantined, reject, store_event, put_payment, hold_reversal,
  record_incident, finish_reversal, settle_reversal, accounting_commit, reverse_payment,
  advance_payment, move_payment, take_callback,
}

-- A predicate that the services keep; the coordinator keeps it if the callback that it runs does.
pub record IsKept {W : Type 0} (s : Services W) (P : W → Type 0) : Type 0 where
  pub by_apply : (t : Transition) (w : W) → P w → P (s.apply t w).1
  pub by_handling :
      (r : ReversalRecord) (c : Commit W) (w : W)
      → ((x : W) → P x → P (c x).1)
      → P w
      → P (s.handle_provider_reversal r c w).1
  pub by_resolving :
      (r : ReversalRecord) (c : Commit W) (w : W)
      → ((x : W) → P x → P (c x).1)
      → P w
      → P (s.resolve_provider_reversal r c w).1

module _ {W : Type 0} where
  pub applied-world :
      (id : String) (o : Orchestrator W) → (apply_canonical_consumptions id o).1.world ≡ o.world
  unfolding apply_canonical_consumptions
  applied-world id o = elim (Option-cases (lookup id o.payments)) [
    | inl q ↦ ground arith
    | inr (c, q) ↦ ground arith
  ]

  refresh_one-world : (c : Consumption) (o : Orchestrator W) → (refresh_one c o).1.world ≡ o.world
  unfolding refresh_one
  refresh_one-world c o =
      let a = applied-world c.payment_id o in
      let b = applied-world c.payment_id (register_consumption c o) in
      let d : (register_consumption c o).world ≡ o.world = unfold register_consumption in refl in
      elim (Option-cases (lookup c.quarantine_id o.consumed_reversals)) [
        | inl q ↦ ground arith
        | inr (e, q) ↦ ground arith
      ]

  unless_failed-world :
      (r : Effect W) (next : Orchestrator W → Effect W) (w : W)
      → r.1.world ≡ w
      → ((o : Orchestrator W) → (next o).1.world ≡ o.world)
      → (unless_failed r next).1.world ≡ w
  unfolding unless_failed
  unless_failed-world (some e, o) next w h k = h
  unless_failed-world (none, o) next w h k = k o ∙ h

  refresh_each-world :
      (cs : List Consumption) (o : Orchestrator W) → (refresh_each cs o).1.world ≡ o.world
  unfolding refresh_each
  refresh_each-world [] o = refl
  refresh_each-world (c ∷ cs) o =
      unless_failed-world (refresh_one c o) (refresh_each cs) o.world (refresh_one-world c o)
        (refresh_each-world cs)

  pub refresh-world :
      (s : Services W) (o : Orchestrator W) → (refresh_canonical_consumptions s o).1.world ≡ o.world
  unfolding refresh_canonical_consumptions
  refresh-world s o = refresh_each-world (s.consumed_provider_reversals o.world) o

  settle-world :
      (i : Ingress) (c : Callback) (current next : Intent) (claim : Claim) (d : ReversalDisposition)
      (committed : Option (List String)) (o : Orchestrator W)
      → (settle_reversal i c current next claim d committed o).1.world ≡ o.world
  unfolding settle_reversal finish_reversal hold_reversal record_incident store_event put_payment
      quarantined
  settle-world i c current next claim reversal_quarantined committed o = refl
  settle-world i c current next claim reversal_incident committed o = refl
  settle-world i c current next claim reversal_unclaimed none o = refl
  settle-world i c current next claim reversal_unclaimed (some js) o = refl
  settle-world i c current next claim reversal_synthetic none o = refl
  settle-world i c current next claim reversal_synthetic (some js) o = refl
  settle-world i c current next claim reversal_released none o = refl
  settle-world i c current next claim reversal_released (some js) o = refl

module _ {W : Type 0} (s : Services W) (P : W → Type 0) (kept : IsKept s P) where
  -- The state after a call, from the state before it.
  abbrev pub Holds : {A : Type 0} → A × Orchestrator W → Type 0
  Holds r = P r.1.world

  pub commit-kept : (t : Transition) (w : W) → P w → P (accounting_commit s t w).1
  unfolding accounting_commit
  commit-kept t w h = kept.by_apply t w h

  reverse-kept :
      (i : Ingress) (c : Callback) (current : Intent) (o : Orchestrator W)
      → P o.world
      → Holds (reverse_payment s i c current o)
  reverse-kept i c current o h =
      let next = advanced reversed current c i.received_at in
      let commit = accounting_commit s (transition_of next current.status c i.received_at) in
      let call =
        s.handle_provider_reversal (reversal_record (length o.quarantines) i c) commit o.world in
      let after =
        kept.by_handling (reversal_record (length o.quarantines) i c) commit o.world
          (commit-kept (transition_of next current.status c i.received_at)) h in
      elim (Result-cases call.0.answer) [
        | inl (text, q) ↦
            let k : (reverse_payment s i c current o).1.world ≡ call.1 =
              unfold reverse_payment in ground arith in
            subst P (sym k) after
        | inr (d, q) ↦
            let k : reverse_payment s i c current o
                ≡ settle_reversal i c current next d.0 d.1 call.0.committed
                    record o { world = call.1 } =
              unfold reverse_payment in ground arith in
            subst P
              (sym (
                ap (λ x. x.1.world) k
                ∙ settle-world i c current next d.0 d.1 call.0.committed
                    record o { world = call.1 }))
              after
      ]

  advance-kept :
      (i : Ingress) (c : Callback) (current : Intent) (o : Orchestrator W)
      → P o.world
      → Holds (advance_payment s i c current o)
  advance-kept i c current o h =
      let next = advanced c.status current c i.received_at in
      let t = transition_of next current.status c i.received_at in
      let two : ((advance_payment s i c current o).1.world ≡ o.world)
          ⊎ ((advance_payment s i c current o).1.world ≡ (s.apply t o.world).1) =
        elim (Result-cases (s.apply t o.world).0) [
          | inl (text, q) ↦ unfold advance_payment store_event put_payment in ground arith
          | inr (js, q) ↦ unfold advance_payment store_event put_payment in ground arith
        ] in
      elim two [ inl e ↦ subst P (sym e) h | inr e ↦ subst P (sym e) (kept.by_apply t o.world h) ]

  move-kept :
      (i : Ingress) (p : Provider) (c : Callback) (current : Intent) (o : Orchestrator W)
      → P o.world
      → Holds (move_payment s i p c current o)
  move-kept i p c current o h =
      let three : ((move_payment s i p c current o).1.world ≡ o.world)
          ⊎ (move_payment s i p c current o ≡ reverse_payment s i c current o)
          ⊎ (move_payment s i p c current o ≡ advance_payment s i c current o) =
        unfold move_payment reject quarantined in ground arith in
      elim three [
        | inl e ↦ subst P (sym e) h
        | inr (inl e) ↦ subst P (sym (ap (λ x. x.1.world) e)) (reverse-kept i c current o h)
        | inr (inr e) ↦ subst P (sym (ap (λ x. x.1.world) e)) (advance-kept i c current o h)
      ]

  pub take-kept :
      (i : Ingress) (p : Provider) (c : Callback) (o : Orchestrator W)
      → P o.world
      → Holds (take_callback s i p c o)
  take-kept i p c o h =
      elim (Option-cases (lookup (event_key i.provider_id i.provider_event_id) o.events)) [
        | inr (e, q) ↦
            let k : (take_callback s i p c o).1.world ≡ o.world =
              unfold take_callback reject quarantined in ground arith in
            subst P (sym k) h
        | inl q ↦ elim (Option-cases (lookup c.payment_id o.payments)) [
          | inl f ↦
              let k : (take_callback s i p c o).1.world ≡ o.world =
                unfold take_callback reject quarantined in ground arith in
              subst P (sym k) h
          | inr (current, f) ↦
              let two : ((take_callback s i p c o).1.world ≡ o.world)
                  ⊎ (take_callback s i p c o ≡ move_payment s i p c current o) =
                unfold take_callback reject quarantined in ground arith in
              elim two [
                | inl e ↦ subst P (sym e) h
                | inr e ↦ subst P (sym (ap (λ x. x.1.world) e)) (move-kept i p c current o h)
              ]
        ]
      ]
