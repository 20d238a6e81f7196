-- ===== src/Payment/Accounts.antt =====
-- What the accounting keeps is kept by any calls of the payment ingress.
use unified.Base.{
  String, ◌≡◌, refl, sym, ◌⊎◌, inl, inr, none, some, List, [], ◌∷◌, arith, Option-cases, lookup,
  Result-cases, Time,
}
use mathlib.Core.Path.{subst}
use unified.Payment.{
  Bytes, Intent, PendingReversal, ResolutionRequest, ResolutionRecord, Services, Orchestrator,
  event_key, apply_canonical_consumptions, refresh_canonical_consumptions, Ingress, transition_of,
  Codec, decode_callback, quarantined, reject, put_payment, accounting_commit, take_callback,
  authenticate, retain, receive, ingress_of, ingest_callback, restore_new, restore_payment,
  open_intent, replay_intent, file_intent, create_intent, resolution_record, reversed_at_time,
  replayed_payment, write_resolution, replay_resolution, commit_resolution, resolve_pending,
  resolve_refreshed, resolve_canonical_reversal, resolve_quarantine,
}
use unified.Payment.Keeping.{IsKept, Holds, take-kept, commit-kept, refresh-world, applied-world}
use unified.Payment.History.{Call, after_call, after_calls, create, restore, ingest, resolve, close}

module _ {W : Type 0} where
  create-world :
      (hash : Intent → String) (i : Intent) (now : Time) (o : Orchestrator W)
      → (create_intent hash i now o).1.world ≡ o.world
  create-world hash i now o =
      let filed : (file_intent i (hash i) now o).1.world ≡ o.world = file-world (hash i) in
      elim (Option-cases (lookup i.provider_id o.providers)) [
        | inl e ↦ unfold create_intent in ground arith
        | inr (p, e) ↦ unfold create_intent in ground arith
      ]
    where
      file-world : (h : String) → (file_intent i h now o).1.world ≡ o.world
      file-world h =
          elim (Option-cases
            (lookup (event_key i.legal_entity_id i.idempotency_key) o.intent_keys)) [
              | inr (id, e) ↦ unfold file_intent replay_intent in ground arith
              | inl e ↦ unfold file_intent open_intent in ground arith
            ]

  restore_new-world : (i : Intent) (o : Orchestrator W) → (restore_new i o).1.world ≡ o.world
  restore_new-world i o =
      let a = applied-world i.payment_id (put_payment i o) in
      let b : (put_payment i o).world ≡ o.world = unfold put_payment in refl in
      elim (Option-cases (apply_canonical_consumptions i.payment_id (put_payment i o)).0) [
        | inl e ↦ unfold restore_new in ground arith
        | inr (x, e) ↦ unfold restore_new in ground arith
      ]

  restore-world : (i : Intent) (o : Orchestrator W) → (restore_payment i o).1.world ≡ o.world
  unfolding restore_payment
  restore-world i o =
      let a = restore_new-world i o in
      elim (Option-cases (lookup i.provider_id o.providers)) [
        | inl e ↦ ground arith
        | inr (p, e) ↦ elim (Option-cases (lookup i.payment_id o.payments)) [
          | inl free ↦ ground arith
          | inr (c, found) ↦ ground arith
        ]
      ]

  replay-world :
      (q : ResolutionRequest) (r : ResolutionRecord) (o : Orchestrator W)
      → (replay_resolution q r o).1.world ≡ o.world
  unfolding replay_resolution write_resolution put_payment
  replay-world q r o = elim (Option-cases (lookup q.payment_id o.payments)) [
    | inl e ↦ ground arith
    | inr (current, found) ↦ elim (Option-cases (replayed_payment current.status current r)) [
      | inl e ↦ ground arith
      | inr (next, e) ↦ ground arith
    ]
  ]

module _ {W : Type 0} (s : Services W) (P : W → Type 0) (kept : IsKept s P) where
  moved : {A : Type 0} {r r' : A × Orchestrator W} → r' ≡ r → Holds s P kept r → Holds s P kept r'
  moved e h = subst (λ x. P x.1.world) (sym e) h

  module _ (k : Codec) where
    authenticate-kept :
        (i : Ingress) (raw signature : Bytes) (o : Orchestrator W)
        → P o.world
        → Holds s P kept (authenticate s k i raw signature o)
    authenticate-kept i raw signature o h = elim (Option-cases (lookup i.provider_id o.providers)) [
      | inl q ↦
          let e : (authenticate s k i raw signature o).1.world ≡ o.world =
            unfold authenticate reject quarantined in ground arith in
          subst P (sym e) h
      | inr (p, q) ↦ elim (Option-cases (decode_callback k raw)) [
        | inl d ↦
            let e : (authenticate s k i raw signature o).1.world ≡ o.world =
              unfold authenticate reject quarantined in ground arith in
            subst P (sym e) h
        | inr (c, d) ↦
            let two : ((authenticate s k i raw signature o).1.world ≡ o.world)
                ⊎ (authenticate s k i raw signature o ≡ take_callback s i p c o) =
              unfold authenticate reject quarantined in ground arith in
            elim two [ inl e ↦ subst P (sym e) h | inr e ↦ moved e (take-kept s P kept i p c o h) ]
      ]
    ]

    receive-kept :
        (i : Ingress) (raw signature : Bytes) (o : Orchestrator W)
        → P o.world
        → Holds s P kept (receive s k i raw signature o)
    receive-kept i raw signature o h =
        let two : ((receive s k i raw signature o).1.world ≡ o.world)
            ⊎ (receive s k i raw signature o
                ≡ authenticate s k i raw signature (retain s k i raw o)) =
          unfold receive reject quarantined retain in ground arith in
        let same : (retain s k i raw o).world ≡ o.world = unfold retain in refl in
        elim two [
          | inl e ↦ subst P (sym e) h
          | inr e ↦
              moved e
                (authenticate-kept i raw signature (retain s k i raw o) (subst P (sym same) h))
        ]

    ingest-kept :
        (p e : String) (raw signature : Bytes) (at : Time) (o : Orchestrator W)
        → P o.world
        → Holds s P kept (ingest_callback s k p e raw signature at o)
    ingest-kept p e raw signature at o h =
        let o' = (refresh_canonical_consumptions s o).1 in
        let h' : P o'.world = subst P (sym (refresh-world s o)) h in
        let i = ingress_of s k p e raw signature at o' in
        let three : ((ingest_callback s k p e raw signature at o).1 ≡ o)
            ⊎ ((ingest_callback s k p e raw signature at o).1 ≡ o')
            ⊎ (ingest_callback s k p e raw signature at o ≡ receive s k i raw signature o') =
          unfold ingest_callback in ground arith in
        elim three [
          | inl q ↦ subst (λ x. P x.world) (sym q) h
          | inr (inl q) ↦ subst (λ x. P x.world) (sym q) h'
          | inr (inr q) ↦ moved q (receive-kept i raw signature o' h')
        ]

  commit_resolution-kept :
      (q : ResolutionRequest) (p : PendingReversal) (current : Intent) (o : Orchestrator W)
      → P o.world
      → Holds s P kept (commit_resolution s q p current o)
  commit_resolution-kept q p current o h =
      let next = reversed_at_time current q.resolved_at in
      let t = transition_of next current.status p.callback p.received_at in
      let call =
        s.resolve_provider_reversal (resolution_record q p) (accounting_commit s t) o.world in
      let after =
        kept.by_resolving (resolution_record q p) (accounting_commit s t) o.world
          (commit-kept s P kept t) h in
      let e : (commit_resolution s q p current o).1.world ≡ call.1 = elim (Result-cases call.0) [
        | inl (text, f) ↦ unfold commit_resolution in ground arith
        | inr (done, f) ↦ unfold commit_resolution write_resolution put_payment in ground arith
      ] in
      subst P (sym e) after

  pending-kept :
      (q : ResolutionRequest) (o : Orchestrator W)
      → P o.world
      → Holds s P kept (resolve_pending s q o)
  pending-kept q o h = elim (Option-cases (lookup q.quarantine_id o.pending_reversals)) [
    | inl e ↦
        let f : (resolve_pending s q o).1.world ≡ o.world =
          unfold resolve_pending in ground arith in
        subst P (sym f) h
    | inr (p, e) ↦ elim (Option-cases (lookup q.payment_id o.payments)) [
      | inl g ↦
          let f : (resolve_pending s q o).1.world ≡ o.world =
            unfold resolve_pending in ground arith in
          subst P (sym f) h
      | inr (current, g) ↦
          let two : ((resolve_pending s q o).1.world ≡ o.world)
              ⊎ (resolve_pending s q o ≡ commit_resolution s q p current o) =
            unfold resolve_pending in ground arith in
          elim two [
            | inl f ↦ subst P (sym f) h
            | inr f ↦ moved f (commit_resolution-kept q p current o h)
          ]
    ]
  ]

  refreshed-kept :
      (q : ResolutionRequest) (o : Orchestrator W)
      → P o.world
      → Holds s P kept (resolve_refreshed s q o)
  refreshed-kept q o h = elim (Result-cases (s.resolved_provider_reversal q o.world)) [
    | inl (text, e) ↦
        let f : (resolve_refreshed s q o).1.world ≡ o.world =
          unfold resolve_refreshed in ground arith in
        subst P (sym f) h
    | inr (none, e) ↦
        let f : resolve_refreshed s q o ≡ resolve_pending s q o =
          unfold resolve_refreshed in ground arith in
        moved f (pending-kept q o h)
    | inr (some r, e) ↦
        let f : resolve_refreshed s q o ≡ replay_resolution q r o =
          unfold resolve_refreshed in ground arith in
        moved f (subst P (sym (replay-world q r o)) h)
  ]

  resolve-kept :
      (q : ResolutionRequest) (o : Orchestrator W)
      → P o.world
      → Holds s P kept (resolve_canonical_reversal s q o)
  resolve-kept q o h =
      let o' = (refresh_canonical_consumptions s o).1 in
      let h' : P o'.world = subst P (sym (refresh-world s o)) h in
      let three : ((resolve_canonical_reversal s q o).1 ≡ o)
          ⊎ ((resolve_canonical_reversal s q o).1 ≡ o')
          ⊎ (resolve_canonical_reversal s q o ≡ resolve_refreshed s q o') =
        unfold resolve_canonical_reversal in ground arith in
      elim three [
        | inl e ↦ subst (λ x. P x.world) (sym e) h
        | inr (inl e) ↦ subst (λ x. P x.world) (sym e) h'
        | inr (inr e) ↦ moved e (refreshed-kept q o' h')
      ]

  module _ (k : Codec) (hash : Intent → String) where
    call-kept : (c : Call) (o : Orchestrator W) → P o.world → P (after_call s k hash c o).world
    unfolding after_call
    call-kept (create i now) o h = subst P (sym (create-world hash i now o)) h
    call-kept (restore i) o h = subst P (sym (restore-world i o)) h
    call-kept (ingest p e raw signature at) o h = ingest-kept k p e raw signature at o h
    call-kept (resolve q) o h = resolve-kept q o h
    call-kept (close q r e by at) o h =
        let f : (resolve_quarantine q r e by at o).1.world ≡ o.world =
          unfold resolve_quarantine in ground arith in
        subst P (sym f) h

    pub after_calls-kept :
        (cs : List Call) (o : Orchestrator W) → P o.world → P (after_calls s k hash cs o).world
    unfolding after_calls
    after_calls-kept [] o h = h
    after_calls-kept (c ∷ cs) o h = after_calls-kept cs (after_call s k hash c o) (call-kept c o h)
