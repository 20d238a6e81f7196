-- ===== src/Payment/Resolutions.antt =====
-- A resolution of a quarantined reversal moves the payment by one transition at most.
use unified.Base.{
  String, ◌≡◌, refl, sym, ap, ◌∙◌, ◌⊎◌, inl, inr, true, none, some, arith, ◌=ₛ◌, Bool-cases,
  Option-cases, eq_of_text_eq, Dict, lookup, insert, lookup-insert, Result-cases, Time,
}
use mathlib.Core.Path.{subst}
use unified.Payment.{
  Status, Intent, PendingReversal, ResolutionRequest, ResolutionRecord, Services, Orchestrator,
  same_status, same_status_lem, created, processing, provisional, final, failed, reversed, disputed,
  other_status, allowed_transition, refresh_canonical_consumptions, transition_of, put_payment,
  accounting_commit, resolution_record, reversed_at_time, replayed_payment, write_resolution,
  replay_resolution, commit_resolution, resolve_pending, resolve_refreshed,
  resolve_canonical_reversal,
}
use unified.Payment.Moves.{IsNext, EntryStep, PayStep, IsFiled, keeps_all, some_same, put_next}
use unified.Payment.Reaction.{refresh-payments}
use unified.Payment.Effects.{to_step, through_refresh, refreshed-IsFiled}

reversed_at_time-IsNext :
    (current : Intent) (at : Time)
    → current.status ≡ final
    → IsNext current (reversed_at_time current at)
unfolding reversed_at_time allowed_transition
reversed_at_time-IsNext current at h = record {
  allowed = ap (λ x. allowed_transition x reversed) h;
  counted = refl;
  same_payment = refl;
  same_provider = refl;
  same_asset = refl;
  same_units = refl;
  same_loan = refl;
}

put_same :
    (m : Dict Intent) (c : Intent)
    → lookup c.payment_id m ≡ some c
    → PayStep m (insert c.payment_id c m)
put_same m c found j = elim (Bool-cases (c.payment_id =ₛ j)) [
  | inl e ↦ EntryStep.stays (
      ground (arith, lookup-insert c.payment_id j c m, e)
      ∙ sym (ap (λ x. lookup x m) (sym (eq_of_text_eq c.payment_id j e)) ∙ found))
  | inr e ↦ EntryStep.stays (ground (arith, lookup-insert c.payment_id j c m, e))
]

-- The payment of a resolution that is repeated is the next one or the same.
replayed_payment-IsNext :
    (st : Status) (c next : Intent) (r : ResolutionRecord)
    → c.status ≡ st
    → replayed_payment st c r ≡ some next
    → IsNext c next ⊎ (next ≡ c)
unfolding replayed_payment
replayed_payment-IsNext final c next r h e =
    let base = reversed_at_time-IsNext c r.resolved_at h in
    inl (
      subst (IsNext c) (some_same e) record {
        allowed = base.allowed;
        counted = base.counted;
        same_payment = base.same_payment;
        same_provider = base.same_provider;
        same_asset = base.same_asset;
        same_units = base.same_units;
        same_loan = base.same_loan;
      })
replayed_payment-IsNext reversed c next r h e = inr (ground arith)
replayed_payment-IsNext created c next r h e = absurd cc
replayed_payment-IsNext processing c next r h e = absurd cc
replayed_payment-IsNext provisional c next r h e = absurd cc
replayed_payment-IsNext failed c next r h e = absurd cc
replayed_payment-IsNext disputed c next r h e = absurd cc
replayed_payment-IsNext (other_status t) c next r h e = absurd cc

-- A payment that is put back as the next one or as it is.
put_either :
    (m : Dict Intent) (id : String) (c next : Intent)
    → lookup id m ≡ some c
    → c.payment_id ≡ id
    → IsNext c next ⊎ (next ≡ c)
    → PayStep m (insert next.payment_id next m)
put_either m id c next found named (inl step) = put_next m id c next found named step
put_either m id c next found named (inr e) =
    subst (λ x. PayStep m (insert x.payment_id x m)) (sym e)
      (put_same m c (ap (λ x. lookup x m) named ∙ found))

module _ {W : Type 0} (s : Services W) where
  replay-PayStep :
      (q : ResolutionRequest) (r : ResolutionRecord) (o : Orchestrator W)
      → IsFiled o.payments
      → PayStep o.payments (replay_resolution q r o).1.payments
  replay-PayStep q r o filed = elim (Option-cases (lookup q.payment_id o.payments)) [
    | inl e ↦ keeps_all o.payments _ (unfold replay_resolution in ground arith)
    | inr (current, found) ↦ elim (Option-cases (replayed_payment current.status current r)) [
      | inl e ↦ keeps_all o.payments _ (unfold replay_resolution in ground arith)
      | inr (next, e) ↦
          let two : ((replay_resolution q r o).1.payments ≡ o.payments)
              ⊎ ((replay_resolution q r o).1.payments ≡ insert next.payment_id next o.payments) =
            unfold replay_resolution write_resolution put_payment in ground arith in
          elim two [
            | inl same ↦ keeps_all o.payments _ same
            | inr put ↦ subst (PayStep o.payments) (sym put) (
                put_either o.payments q.payment_id current next found
                  (filed q.payment_id current found)
                  (replayed_payment-IsNext current.status current next r refl e))
          ]
    ]
  ]

  commit-PayStep :
      (q : ResolutionRequest) (p : PendingReversal) (current : Intent) (o : Orchestrator W)
      → lookup q.payment_id o.payments ≡ some current
      → current.payment_id ≡ q.payment_id
      → current.status ≡ final
      → PayStep o.payments (commit_resolution s q p current o).1.payments
  commit-PayStep q p current o found named is_final =
      let next = reversed_at_time current q.resolved_at in
      let call =
        s.resolve_provider_reversal (resolution_record q p)
          (accounting_commit s (transition_of next current.status p.callback p.received_at))
          o.world in
      elim (Result-cases call.0) [
        | inl (text, e) ↦ keeps_all o.payments _ (
            let c : (commit_resolution s q p current o).1 ≡ record o { world = call.1 } =
              unfold commit_resolution in ground arith in
            ap (λ x. x.payments) c)
        | inr (done, e) ↦
            let c : (commit_resolution s q p current o).1.payments
                ≡ insert next.payment_id next o.payments =
              unfold commit_resolution write_resolution put_payment in ground arith in
            subst (PayStep o.payments) (sym c) (
              put_next o.payments q.payment_id current next found named
                (reversed_at_time-IsNext current q.resolved_at is_final))
      ]

  pending-PayStep :
      (q : ResolutionRequest) (o : Orchestrator W)
      → IsFiled o.payments
      → PayStep o.payments (resolve_pending s q o).1.payments
  pending-PayStep q o filed = elim (Option-cases (lookup q.quarantine_id o.pending_reversals)) [
    | inl e ↦ keeps_all o.payments _ (unfold resolve_pending in ground arith)
    | inr (p, e) ↦ elim (Option-cases (lookup q.payment_id o.payments)) [
      | inl f ↦ keeps_all o.payments _ (unfold resolve_pending in ground arith)
      | inr (current, found) ↦
          let two : ((resolve_pending s q o).1.payments ≡ o.payments)
              ⊎ ((same_status current.status final ≡ true)
                  × (resolve_pending s q o ≡ commit_resolution s q p current o)) =
            unfold resolve_pending in ground arith in
          elim two [
            | inl same ↦ keeps_all o.payments _ same
            | inr (is_final, c) ↦ to_step o.payments (ap (λ x. x.1) c) (
                commit-PayStep q p current o found (filed q.payment_id current found)
                  (same_status_lem current.status final is_final))
          ]
    ]
  ]

  resolve_refreshed-PayStep :
      (q : ResolutionRequest) (o : Orchestrator W)
      → IsFiled o.payments
      → PayStep o.payments (resolve_refreshed s q o).1.payments
  resolve_refreshed-PayStep q o filed =
      elim (Result-cases (s.resolved_provider_reversal q o.world)) [
        | inl (text, e) ↦ keeps_all o.payments _ (unfold resolve_refreshed in ground arith)
        | inr (none, e) ↦
            let c : resolve_refreshed s q o ≡ resolve_pending s q o =
              unfold resolve_refreshed in ground arith in
            to_step o.payments (ap (λ x. x.1) c) (pending-PayStep q o filed)
        | inr (some r, e) ↦
            let c : resolve_refreshed s q o ≡ replay_resolution q r o =
              unfold resolve_refreshed in ground arith in
            to_step o.payments (ap (λ x. x.1) c) (replay-PayStep q r o filed)
      ]

  pub resolve-PayStep :
      (q : ResolutionRequest) (o : Orchestrator W)
      → IsFiled o.payments
      → PayStep o.payments (resolve_canonical_reversal s q o).1.payments
  resolve-PayStep q o filed =
      let o' = (refresh_canonical_consumptions s o).1 in
      let cases : ((resolve_canonical_reversal s q o).1 ≡ o)
          ⊎ ((resolve_canonical_reversal s q o).1 ≡ o')
          ⊎ (resolve_canonical_reversal s q o ≡ resolve_refreshed s q o') =
        unfold resolve_canonical_reversal in ground arith in
      elim cases [
        | inl e ↦ keeps_all o.payments _ (ap (λ x. x.payments) e)
        | inr (inl e) ↦ keeps_all o.payments _ (ap (λ x. x.payments) e ∙ refresh-payments s o)
        | inr (inr e) ↦ through_refresh s o _ (
            to_step o'.payments (ap (λ x. x.1) e)
              (resolve_refreshed-PayStep q o' (refreshed-IsFiled s o filed)))
      ]
