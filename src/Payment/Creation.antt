-- ===== src/Payment/Creation.antt =====
-- `CreateIntent` and `RestorePayment`: they open a payment or leave the register as it is.
use unified.Base.{
  String, ◌≡◌, refl, sym, ap, ◌∙◌, ◌⊎◌, inl, inr, none, arith, ◌=ₛ◌, Bool-cases, Option-cases,
  eq_of_text_eq, Dict, lookup, insert, delete, lookup-delete, lookup-insert, Time,
}
use mathlib.Core.Path.{subst}
use unified.Payment.{
  Intent, Orchestrator, created, event_key, apply_canonical_consumptions, put_payment, restore_new,
  restore_payment, open_intent, replay_intent, file_intent, create_intent,
}
use unified.Payment.Moves.{EntryStep, PayStep, keeps_all, put_new}
use unified.Payment.Reaction.{apply_canonical_consumptions-payments}

abbrev created_at_time : Intent → Time → Intent
created_at_time i now = record i {
  status = created;
  version = 1;
  created_at = now;
  updated_at = now;
}

-- A payment that is taken back leaves the entries as they were.
put_back :
    (i : Intent) (m : Dict Intent)
    → lookup i.payment_id m ≡ none
    → PayStep m (delete i.payment_id (insert i.payment_id i m))
put_back i m free j = EntryStep.stays (elim (Bool-cases (i.payment_id =ₛ j)) [
  | inl e ↦
      let gone : lookup j (delete i.payment_id (insert i.payment_id i m)) ≡ none =
        ground (arith, lookup-delete i.payment_id j (insert i.payment_id i m), e) in
      gone ∙ sym (ap (λ x. lookup x m) (sym (eq_of_text_eq i.payment_id j e)) ∙ free)
  | inr e ↦ ground (
    arith,
    lookup-delete i.payment_id j (insert i.payment_id i m),
    lookup-insert i.payment_id j i m,
    e,
  )
])

module _ {W : Type 0} where
  file-cases :
      (i : Intent) (h : String) (now : Time) (o : Orchestrator W)
      → ((file_intent i h now o).1 ≡ o)
        ⊎ ((lookup i.payment_id o.payments ≡ none)
            × ((file_intent i h now o).1.payments
                ≡ insert i.payment_id (created_at_time i now) o.payments))
  unfolding file_intent replay_intent open_intent
  file-cases i h now o =
      elim (Option-cases (lookup (event_key i.legal_entity_id i.idempotency_key) o.intent_keys)) [
        | inr (id, e) ↦ inl (ground arith)
        | inl e ↦ elim (Option-cases (lookup i.payment_id o.payments)) [
          | inl free ↦ inr (free, ground arith)
          | inr (c, found) ↦ inl (ground arith)
        ]
      ]

  pub create-cases :
      (hash : Intent → String) (i : Intent) (now : Time) (o : Orchestrator W)
      → ((create_intent hash i now o).1 ≡ o)
        ⊎ (create_intent hash i now o ≡ file_intent i (hash i) now o)
  unfolding create_intent
  create-cases hash i now o = elim (Option-cases (lookup i.provider_id o.providers)) [
    | inl e ↦ inl (ground arith)
    | inr (p, e) ↦ ground arith
  ]

  pub create-PayStep :
      (hash : Intent → String) (i : Intent) (now : Time) (o : Orchestrator W)
      → PayStep o.payments (create_intent hash i now o).1.payments
  create-PayStep hash i now o = elim (create-cases hash i now o) [
    | inl e ↦ keeps_all o.payments _ (ap (λ x. x.payments) e)
    | inr e ↦ elim (file-cases i (hash i) now o) [
      | inl q ↦ keeps_all o.payments _ (ap (λ x. x.1.payments) e ∙ ap (λ x. x.payments) q)
      | inr (free, q) ↦
          subst (PayStep o.payments) (sym (ap (λ x. x.1.payments) e ∙ q))
            (put_new o.payments (created_at_time i now) free)
    ]
  ]

  restore_new-PayStep :
      (i : Intent) (o : Orchestrator W)
      → lookup i.payment_id o.payments ≡ none
      → PayStep o.payments (restore_new i o).1.payments
  restore_new-PayStep i o free =
      let put : (put_payment i o).payments ≡ insert i.payment_id i o.payments =
        unfold put_payment in refl in
      let kept = apply_canonical_consumptions-payments i.payment_id (put_payment i o) ∙ put in
      elim (Option-cases (apply_canonical_consumptions i.payment_id (put_payment i o)).0) [
        | inl e ↦
            let same : (restore_new i o).1.payments
                ≡ (apply_canonical_consumptions i.payment_id (put_payment i o)).1.payments =
              unfold restore_new in ground arith in
            subst (PayStep o.payments) (sym (same ∙ kept)) (put_new o.payments i free)
        | inr (x, e) ↦
            let same : (restore_new i o).1.payments
                ≡ delete i.payment_id
                    (apply_canonical_consumptions i.payment_id (put_payment i o)).1.payments =
              unfold restore_new in ground arith in
            subst (PayStep o.payments) (sym (same ∙ ap (delete i.payment_id) kept))
              (put_back i o.payments free)
      ]

  pub restore-cases :
      (i : Intent) (o : Orchestrator W)
      → ((restore_payment i o).1 ≡ o)
        ⊎ ((lookup i.payment_id o.payments ≡ none) × (restore_payment i o ≡ restore_new i o))
  unfolding restore_payment
  restore-cases i o = elim (Option-cases (lookup i.provider_id o.providers)) [
    | inl e ↦ inl (ground arith)
    | inr (p, e) ↦ elim (Option-cases (lookup i.payment_id o.payments)) [
      | inl free ↦ ground arith
      | inr (c, found) ↦ inl (ground arith)
    ]
  ]

  pub restore-PayStep :
      (i : Intent) (o : Orchestrator W) → PayStep o.payments (restore_payment i o).1.payments
  restore-PayStep i o = elim (restore-cases i o) [
    | inl e ↦ keeps_all o.payments _ (ap (λ x. x.payments) e)
    | inr (free, e) ↦
        subst (PayStep o.payments) (sym (ap (λ x. x.1.payments) e)) (restore_new-PayStep i o free)
  ]
