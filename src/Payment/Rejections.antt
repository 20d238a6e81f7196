-- ===== src/Payment/Rejections.antt =====
-- A call with a callback that its sender has not signed, the refresh before it included.
use unified.Base.{
  suc, String, ◌≡◌, refl, sym, ap, ◌∙◌, ◌⊎◌, inl, inr, false, ◌&&◌, none, some, List, [], ◌∷◌, ◌++◌,
  arith, Option-cases, length, length-append, lookup, Time, is_zero,
}
use mathlib.Core.Path.{subst}
use unified.Payment.Growth.{refresh-Leaves}
use unified.Payment.Keeping.{refresh-world}
use unified.Payment.Reaction.{refresh-payments}
use unified.Payment.{
  Codec, ingest_callback, Services, Ingress, receive, Answer, reject, Bytes, Orchestrator, refused,
  Effect, quarantined, Provider, authenticate, unauthorized_callback, PaymentError, retain,
  refresh_canonical_consumptions, zero_callback, invalid_callback, ingress_of,
}

length-snoc : {A : Type 0} (xs : List A) (x : A) → length (xs ++ x ∷ []) ≡ suc (length xs)
length-snoc xs x = omega (arith, length-append xs (x ∷ []))

module _ {W : Type 0} (s : Services W) where
  unsigned-rejected :
      (k : Codec) (i : Ingress) (raw signature : Bytes) (o : Orchestrator W)
      → ((p : Provider)
          → lookup i.provider_id o.providers ≡ some p
          → (p.active && k.verify p.public_key raw signature) ≡ false)
      → (receive s k i raw signature o
          ≡ reject i zero_callback "CALLBACK_AUTHENTICATION_FAILED" unauthorized_callback
              (retain s k i raw o))
        ⊎ (receive s k i raw signature o
            ≡ reject i zero_callback "CALLBACK_ENVELOPE_INVALID" invalid_callback
                (retain s k i raw o))
  unfolding receive authenticate retain
  unsigned-rejected k i raw signature o unsigned =
      elim (Option-cases (lookup i.provider_id o.providers)) [
        | inl q ↦ ground arith
        | inr (p, q) ↦ let bad = unsigned p q in ground arith
      ]

  -- A call adds a raw callback and a quarantine, and changes no payment, event or accounting.
  abbrev pub OnlyRetains : Orchestrator W → Answer × Orchestrator W → Type 0
  OnlyRetains o r =
      (r.1.payments ≡ o.payments)
      × (r.1.events ≡ o.events)
      × (r.1.world ≡ o.world)
      × (length r.1.raw_callbacks ≡ suc (length o.raw_callbacks))
      × (length r.1.quarantines ≡ suc (length o.quarantines))

  abbrev pub IsRejected : Answer → Type 0
  IsRejected a = (a ≡ refused unauthorized_callback) ⊎ (a ≡ refused invalid_callback)

  -- No payment and no accounting change: the refresh fails, or the call is refused after it.
  abbrev pub Refused : Orchestrator W → Effect W → Answer × Orchestrator W → Type 0
  Refused o refreshed r =
      (r.1.payments ≡ o.payments)
      × (r.1.world ≡ o.world)
      × (((e : PaymentError) × (refreshed.0 ≡ some e) × (r ≡ (refused e, refreshed.1)))
          ⊎ ((refreshed.0 ≡ none) × IsRejected r.0 × OnlyRetains refreshed.1 r))

  rejected-keeps :
      (k : Codec) (i : Ingress) (raw : Bytes) (reason : String) (e : PaymentError)
      (o : Orchestrator W) (r : Answer × Orchestrator W)
      → r ≡ reject i zero_callback reason e (retain s k i raw o)
      → OnlyRetains o r
  unfolding reject quarantined retain
  rejected-keeps k i raw reason e o r h = (
    ap (λ x. x.1.payments) h,
    ap (λ x. x.1.events) h,
    ap (λ x. x.1.world) h,
    ap (λ x. length x.1.raw_callbacks) h ∙ length-snoc o.raw_callbacks _,
    ap (λ x. length x.1.quarantines) h ∙ length-snoc o.quarantines _,
  )

  receive-unsigned :
      (k : Codec) (i : Ingress) (raw signature : Bytes) (o : Orchestrator W)
      → ((p : Provider)
          → lookup i.provider_id o.providers ≡ some p
          → (p.active && k.verify p.public_key raw signature) ≡ false)
      → IsRejected (receive s k i raw signature o).0 × OnlyRetains o (receive s k i raw signature o)
  receive-unsigned k i raw signature o unsigned =
      elim (unsigned-rejected k i raw signature o unsigned) [
        | inl e ↦ (inl (ap (λ x. x.0) e ∙ unfold reject in refl), rejected-keeps k i raw _ _ o _ e)
        | inr e ↦ (inr (ap (λ x. x.0) e ∙ unfold reject in refl), rejected-keeps k i raw _ _ o _ e)
      ]

  -- A call whose sender is unknown, inactive or has not signed the bytes changes no payment and no
  -- accounting. If the refresh of the consumptions fails, the answer is its error and the state is the
  -- one it left; if not, the call is refused as unauthorized or invalid, and on top of the refresh it
  -- adds one raw callback and one quarantine and changes no event.
  pub ingest-unsigned :
      (k : Codec) (provider_id provider_event_id : String) (raw signature : Bytes) (at : Time)
      (o : Orchestrator W)
      → is_zero at ≡ false
      → ((p : Provider)
          → lookup provider_id o.providers ≡ some p
          → (p.active && k.verify p.public_key raw signature) ≡ false)
      → Refused o
          (refresh_canonical_consumptions s o)
          (ingest_callback s k provider_id provider_event_id raw signature at o)
  ingest-unsigned k id event raw signature at o timed unsigned =
      let r = ingest_callback s k id event raw signature at o in
      let i = ingress_of s k id event raw signature at (refresh_canonical_consumptions s o).1 in
      let pays = refresh-payments s o in
      let world = refresh-world s o in
      let same = (refresh-Leaves s o).same_providers in
      elim (Option-cases (refresh_canonical_consumptions s o).0) [
        | inr (e, q) ↦
            let whole : r ≡ (refused e, (refresh_canonical_consumptions s o).1) =
              unfold ingest_callback in ground arith in
            (
              ap (λ x. x.1.payments) whole ∙ pays,
              ap (λ x. x.1.world) whole ∙ world,
              inl (e, q, whole),
            )
        | inl q ↦
            let whole : r ≡ receive s k i raw signature (refresh_canonical_consumptions s o).1 =
              unfold ingest_callback in ground arith in
            let rest =
              receive-unsigned k i raw signature (refresh_canonical_consumptions s o).1
                (λ p h. unsigned p (sym (ap (lookup id) same) ∙ unfold ingress_of in h)) in
            let (rejected, keeps) =
              subst (λ x. IsRejected x.0 × OnlyRetains (refresh_canonical_consumptions s o).1 x)
                (sym whole) rest in
            (keeps.0 ∙ pays, keeps.2 ∙ world, inr (q, rejected, keeps))
      ]
