-- ===== src/Payment/Effects.antt =====
-- Every method of the payment ingress moves each payment by one transition at most.
use unified.Base.{
  String, ◌≡◌, refl, sym, ap, ◌∙◌, ◌⊎◌, inl, inr, some, arith, Option-cases, Dict, lookup, Time,
}
use mathlib.Core.Path.{subst}
use unified.Payment.{
  Bytes, Provider, Intent, Callback, Services, Orchestrator, refresh_canonical_consumptions,
  Ingress, Codec, decode_callback, quarantined, reject, take_callback, authenticate, retain,
  receive, ingress_of, ingest_callback,
}
use unified.Payment.Moves.{PayStep, IsFiled, keeps_all}
use unified.Payment.Reaction.{refresh-payments, take-PayStep}

pub to_step :
    (m : Dict Intent) {W : Type 0} {o o' : Orchestrator W}
    → o' ≡ o
    → PayStep m o.payments
    → PayStep m o'.payments
to_step m e h = subst (λ x. PayStep m x.payments) (sym e) h

module _ {W : Type 0} (s : Services W) where
  pub through_refresh :
      (o : Orchestrator W) (m : Dict Intent)
      → PayStep (refresh_canonical_consumptions s o).1.payments m
      → PayStep o.payments m
  through_refresh o m h = subst (λ x. PayStep x m) (refresh-payments s o) h

  pub refreshed-IsFiled :
      (o : Orchestrator W)
      → IsFiled o.payments
      → IsFiled (refresh_canonical_consumptions s o).1.payments
  refreshed-IsFiled o filed = subst IsFiled (sym (refresh-payments s o)) filed

module _ {W : Type 0} (s : Services W) (k : Codec) where
  authenticate-cases :
      (i : Ingress) (raw signature : Bytes) (o : Orchestrator W)
      → ((authenticate s k i raw signature o).1.payments ≡ o.payments)
        ⊎ ((p : Provider) × (c : Callback) × (authenticate s k i raw signature o
              ≡ take_callback s i p c o))
  unfolding authenticate reject quarantined
  authenticate-cases i raw signature o = elim (Option-cases (lookup i.provider_id o.providers)) [
    | inl q ↦ inl (ground arith)
    | inr (p, q) ↦ elim (Option-cases (decode_callback k raw)) [
      | inl d ↦ inl (ground arith)
      | inr (c, d) ↦ decoded p c q d
    ]
  ]
    where
      decoded :
          (p : Provider) (c : Callback)
          → lookup i.provider_id o.providers ≡ some p
          → decode_callback k raw ≡ some c
          → ((authenticate s k i raw signature o).1.payments ≡ o.payments)
            ⊎ ((p : Provider) × (c : Callback) × (authenticate s k i raw signature o
                  ≡ take_callback s i p c o))
      decoded p c q d =
          let two : ((authenticate s k i raw signature o).1.payments ≡ o.payments)
              ⊎ (authenticate s k i raw signature o ≡ take_callback s i p c o) =
            ground arith in
          elim two [ inl e ↦ inl e | inr e ↦ inr (p, c, e) ]

  authenticate-PayStep :
      (i : Ingress) (raw signature : Bytes) (o : Orchestrator W)
      → IsFiled o.payments
      → PayStep o.payments (authenticate s k i raw signature o).1.payments
  authenticate-PayStep i raw signature o filed = elim (authenticate-cases i raw signature o) [
    | inl e ↦ keeps_all o.payments _ e
    | inr (p, c, e) ↦ to_step o.payments (ap (λ x. x.1) e) (take-PayStep s i p c o filed)
  ]

  receive-PayStep :
      (i : Ingress) (raw signature : Bytes) (o : Orchestrator W)
      → IsFiled o.payments
      → PayStep o.payments (receive s k i raw signature o).1.payments
  receive-PayStep i raw signature o filed =
      let two : ((receive s k i raw signature o).1.payments ≡ o.payments)
          ⊎ (receive s k i raw signature o
              ≡ authenticate s k i raw signature (retain s k i raw o)) =
        unfold receive reject quarantined retain in ground arith in
      let same : (retain s k i raw o).payments ≡ o.payments = unfold retain in refl in
      elim two [
        | inl e ↦ keeps_all o.payments _ e
        | inr e ↦ to_step o.payments (ap (λ x. x.1) e) (
            subst
              (λ m. PayStep m (authenticate s k i raw signature (retain s k i raw o)).1.payments)
              same
              (authenticate-PayStep i raw signature (retain s k i raw o)
                (subst IsFiled (sym same) filed)))
      ]

  pub ingest-PayStep :
      (p e : String) (raw signature : Bytes) (at : Time) (o : Orchestrator W)
      → IsFiled o.payments
      → PayStep o.payments (ingest_callback s k p e raw signature at o).1.payments
  ingest-PayStep p e raw signature at o filed =
      let o' = (refresh_canonical_consumptions s o).1 in
      let i = ingress_of s k p e raw signature at o' in
      let cases : ((ingest_callback s k p e raw signature at o).1 ≡ o)
          ⊎ ((ingest_callback s k p e raw signature at o).1 ≡ o')
          ⊎ (ingest_callback s k p e raw signature at o ≡ receive s k i raw signature o') =
        unfold ingest_callback in ground arith in
      elim cases [
        | inl q ↦ keeps_all o.payments _ (ap (λ x. x.payments) q)
        | inr (inl q) ↦ keeps_all o.payments _ (ap (λ x. x.payments) q ∙ refresh-payments s o)
        | inr (inr q) ↦ through_refresh s o _ (
            to_step o'.payments (ap (λ x. x.1) q)
              (receive-PayStep i raw signature o' (refreshed-IsFiled s o filed)))
      ]
