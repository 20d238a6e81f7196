-- ===== src/Payment/Intake.antt =====
-- What the calls of the payment ingress leave alone, whichever they are and however many.
use unified.Base.{
  String, ◌≡◌, refl, sym, ap, ◌∙◌, ◌⊎◌, inl, inr, none, List, [], ◌∷◌, arith, Option-cases, lookup,
  Time,
}
use mathlib.Core.Path.{subst}
use unified.Payment.{
  event_key, Services, refresh_canonical_consumptions, zero_callback, ingest_callback, reject,
  authenticate, retain, receive, ingress_of, unauthorized_callback, invalid_callback, take_callback,
  decode_callback, Codec, Ingress, Bytes, Orchestrator, Intent, create_intent, open_intent,
  file_intent, replay_intent,
}
use unified.Payment.History.{Call, after_call, after_calls, create, restore, ingest, resolve, close}
use unified.Payment.Growth.{
  Grows-refl, Grows, Grows-trans, Leaves, Leaves-refl, Leaves-trans, to_leaves, reject-Leaves,
  refresh-Leaves,
}
use unified.Payment.Creation.{create-cases}
use unified.Payment.Persistence.{take-Leaves}
use unified.Payment.Standing.{restore-Leaves, resolve-Leaves, close-Leaves}

module _ {W : Type 0} (s : Services W) (k : Codec) where
  authenticate-Leaves :
      (i : Ingress) (raw signature : Bytes) (o : Orchestrator W)
      → Leaves o (authenticate s k i raw signature o).1
  authenticate-Leaves i raw signature o = elim (Option-cases (lookup i.provider_id o.providers)) [
    | inl q ↦
        let e : authenticate s k i raw signature o
            ≡ reject i zero_callback "CALLBACK_AUTHENTICATION_FAILED" unauthorized_callback o =
          unfold authenticate in ground arith in
        to_leaves o _ _ (ap (λ x. x.1) e) (reject-Leaves i _ _ _ o)
    | inr (p, q) ↦ elim (Option-cases (decode_callback k raw)) [
      | inl d ↦
          let two : (authenticate s k i raw signature o
                ≡ reject i zero_callback "CALLBACK_AUTHENTICATION_FAILED" unauthorized_callback o)
              ⊎ (authenticate s k i raw signature o
                  ≡ reject i zero_callback "CALLBACK_BINDING_INVALID" invalid_callback o) =
            unfold authenticate in ground arith in
          elim two [
            | inl e ↦ to_leaves o _ _ (ap (λ x. x.1) e) (reject-Leaves i _ _ _ o)
            | inr e ↦ to_leaves o _ _ (ap (λ x. x.1) e) (reject-Leaves i _ _ _ o)
          ]
      | inr (c, d) ↦
          let three : (authenticate s k i raw signature o
                ≡ reject i zero_callback "CALLBACK_AUTHENTICATION_FAILED" unauthorized_callback o)
              ⊎ (authenticate s k i raw signature o
                  ≡ reject i c "CALLBACK_BINDING_INVALID" invalid_callback o)
              ⊎ (authenticate s k i raw signature o ≡ take_callback s i p c o) =
            unfold authenticate in ground arith in
          elim three [
            | inl e ↦ to_leaves o _ _ (ap (λ x. x.1) e) (reject-Leaves i _ _ _ o)
            | inr (inl e) ↦ to_leaves o _ _ (ap (λ x. x.1) e) (reject-Leaves i _ _ _ o)
            | inr (inr e) ↦ to_leaves o _ _ (ap (λ x. x.1) e) (take-Leaves s i p c o)
          ]
    ]
  ]

  retain-Leaves : (i : Ingress) (raw : Bytes) (o : Orchestrator W) → Leaves o (retain s k i raw o)
  unfolding retain
  retain-Leaves i raw o = record {
    same_providers = refl;
    same_keys = refl;
    same_hashes = refl;
    grown = Grows-refl o.events;
  }

  receive-Leaves :
      (i : Ingress) (raw signature : Bytes) (o : Orchestrator W)
      → Leaves o (receive s k i raw signature o).1
  receive-Leaves i raw signature o =
      let o' = retain s k i raw o in
      let two : (receive s k i raw signature o
            ≡ reject i zero_callback "CALLBACK_ENVELOPE_INVALID" invalid_callback o')
          ⊎ (receive s k i raw signature o ≡ authenticate s k i raw signature o') =
        unfold receive in ground arith in
      let kept = retain-Leaves i raw o in
      elim two [
        | inl e ↦
            to_leaves o _ _ (ap (λ x. x.1) e) (Leaves-trans o o' _ kept (reject-Leaves i _ _ _ o'))
        | inr e ↦
            to_leaves o _ _ (ap (λ x. x.1) e)
              (Leaves-trans o o' _ kept (authenticate-Leaves i raw signature o'))
      ]

  pub ingest-Leaves :
      (p e : String) (raw signature : Bytes) (at : Time) (o : Orchestrator W)
      → Leaves o (ingest_callback s k p e raw signature at o).1
  ingest-Leaves p e raw signature at o =
      let o' = (refresh_canonical_consumptions s o).1 in
      let i = ingress_of s k p e raw signature at o' in
      let three : ((ingest_callback s k p e raw signature at o).1 ≡ o)
          ⊎ ((ingest_callback s k p e raw signature at o).1 ≡ o')
          ⊎ (ingest_callback s k p e raw signature at o ≡ receive s k i raw signature o') =
        unfold ingest_callback in ground arith in
      elim three [
        | inl q ↦ to_leaves o o _ q (Leaves-refl o)
        | inr (inl q) ↦ to_leaves o o' _ q (refresh-Leaves s o)
        | inr (inr q) ↦
            to_leaves o _ _ (ap (λ x. x.1) q)
              (Leaves-trans o o' _ (refresh-Leaves s o) (receive-Leaves i raw signature o'))
      ]

module _ {W : Type 0} where
  pub create-opens :
      (hash : Intent → String) (i : Intent) (now : Time) (o : Orchestrator W)
      → ((create_intent hash i now o).1 ≡ o)
        ⊎ ((lookup (event_key i.legal_entity_id i.idempotency_key) o.intent_keys ≡ none)
            × (lookup i.payment_id o.payments ≡ none)
            × (create_intent hash i now o
                ≡ open_intent i (event_key i.legal_entity_id i.idempotency_key) (hash i) now o))
  create-opens hash i now o = elim (create-cases hash i now o) [
    | inl e ↦ inl e
    | inr e ↦
        elim (Option-cases (lookup (event_key i.legal_entity_id i.idempotency_key) o.intent_keys)) [
          | inr (id, f) ↦
              let same : (file_intent i (hash i) now o).1 ≡ o =
                unfold file_intent replay_intent in ground arith in
              inl (ap (λ x. x.1) e ∙ same)
          | inl f ↦ elim (Option-cases (lookup i.payment_id o.payments)) [
            | inr (c, g) ↦
                let same : (file_intent i (hash i) now o).1 ≡ o =
                  unfold file_intent in ground arith in
                inl (ap (λ x. x.1) e ∙ same)
            | inl g ↦ inr (f, g, e ∙ unfold file_intent in ground arith)
          ]
        ]
  ]

module _ {W : Type 0} (s : Services W) (k : Codec) (hash : Intent → String) where
  pub create-same :
      (i : Intent) (now : Time) (o : Orchestrator W)
      → ((create_intent hash i now o).1.providers ≡ o.providers)
        × ((create_intent hash i now o).1.events ≡ o.events)
  create-same i now o = elim (create-opens hash i now o) [
    | inl e ↦ (ap (λ x. x.providers) e, ap (λ x. x.events) e)
    | inr (free, new, e) ↦ (
      ap (λ x. x.1.providers) e ∙ unfold open_intent in refl,
      ap (λ x. x.1.events) e ∙ unfold open_intent in refl,
    )
  ]

  call-Stands :
      (c : Call) (o : Orchestrator W)
      → ((after_call s k hash c o).providers ≡ o.providers)
        × Grows o.events (after_call s k hash c o).events
  unfolding after_call
  call-Stands (create i now) o = (
    (create-same i now o).0,
    subst (Grows o.events) (sym (create-same i now o).1) (Grows-refl o.events),
  )
  call-Stands (restore i) o = ((restore-Leaves i o).same_providers, (restore-Leaves i o).grown)
  call-Stands (ingest p e raw signature at) o =
      let h = ingest-Leaves s k p e raw signature at o in (h.same_providers, h.grown)
  call-Stands (resolve q) o = ((resolve-Leaves s q o).same_providers, (resolve-Leaves s q o).grown)
  call-Stands (close q r e by at) o =
      let h = close-Leaves q r e by at o in (h.same_providers, h.grown)

  -- Whatever calls are made, the providers stay what they are and an event that is stored stays stored.
  pub after_calls-Stands :
      (cs : List Call) (o : Orchestrator W)
      → ((after_calls s k hash cs o).providers ≡ o.providers)
        × Grows o.events (after_calls s k hash cs o).events
  unfolding after_calls
  after_calls-Stands [] o = (refl, Grows-refl o.events)
  after_calls-Stands (c ∷ cs) o =
      let (same, grown) = call-Stands c o in
      let (same', grown') = after_calls-Stands cs (after_call s k hash c o) in
      (same' ∙ same, Grows-trans o.events _ _ grown grown')
