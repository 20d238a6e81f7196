-- ===== src/Payment/Standing.antt =====
-- What `RestorePayment`, `ResolveCanonicalReversal` and `ResolveQuarantine` leave alone.
use unified.Base.{
  String, ◌≡◌, refl, sym, ap, ◌⊎◌, inl, inr, false, none, some, arith, Option-cases, lookup, delete,
  Result-cases, Time,
}
use mathlib.Core.Path.{subst}
use unified.Payment.{
  apply_canonical_consumptions, replay_resolution, replayed_result, replayed_resolution, event_key,
  resolve_quarantine, Services, reversed_at_time, transition_of, resolution_record,
  accounting_commit, refresh_canonical_consumptions, resolve_canonical_reversal, replayed_payment,
  put_payment, Orchestrator, restore_new, restore_payment, write_resolution, commit_resolution,
  resolve_pending, resolve_refreshed, ResolutionRequest, ResolutionRecord, QuarantineResolution,
  PendingReversal, Intent, CallbackResult,
}
use unified.Payment.Creation.{restore-cases}
use unified.Payment.Growth.{
  Grows, Grows-refl, replace-Grows, Leaves, Leaves-refl, Leaves-trans, to_leaves, put-Leaves,
  world-Leaves, applied-Leaves, refresh-Leaves,
}

module _ {W : Type 0} where
  restore_new-Leaves : (i : Intent) (o : Orchestrator W) → Leaves o (restore_new i o).1
  restore_new-Leaves i o =
      let a = (apply_canonical_consumptions i.payment_id (put_payment i o)).1 in
      let h =
        Leaves-trans o (put_payment i o) a (put-Leaves i o)
          (applied-Leaves i.payment_id (put_payment i o)) in
      elim (Option-cases (apply_canonical_consumptions i.payment_id (put_payment i o)).0) [
        | inl e ↦
            let q : (restore_new i o).1 ≡ a = unfold restore_new in ground arith in
            to_leaves o a _ q h
        | inr (x, e) ↦
            let q : (restore_new i o).1 ≡ record a { payments = delete i.payment_id a.payments } =
              unfold restore_new in ground arith in
            to_leaves o _ _ q record {
              same_providers = h.same_providers;
              same_keys = h.same_keys;
              same_hashes = h.same_hashes;
              grown = h.grown;
            }
      ]

  pub restore-Leaves : (i : Intent) (o : Orchestrator W) → Leaves o (restore_payment i o).1
  restore-Leaves i o = elim (restore-cases i o) [
    | inl e ↦ to_leaves o o _ e (Leaves-refl o)
    | inr (free, e) ↦ to_leaves o _ _ (ap (λ x. x.1) e) (restore_new-Leaves i o)
  ]

  write-Leaves :
      (key id : String) (result : CallbackResult) (r : QuarantineResolution) (o : Orchestrator W)
      → result.disposition ≡ "REVERSED"
      → Leaves o (write_resolution key id result r o)
  unfolding write_resolution put_payment
  write-Leaves key id result r o reversal = record {
    same_providers = refl;
    same_keys = refl;
    same_hashes = refl;
    grown = replace-Grows key _ o.events (inl reversal);
  }

  replay-Leaves :
      (q : ResolutionRequest) (r : ResolutionRecord) (o : Orchestrator W)
      → Leaves o (replay_resolution q r o).1
  replay-Leaves q r o = elim (Option-cases (lookup q.payment_id o.payments)) [
    | inl e ↦
        let f : (replay_resolution q r o).1 ≡ o = unfold replay_resolution in ground arith in
        to_leaves o o _ f (Leaves-refl o)
    | inr (current, found) ↦ elim (Option-cases (replayed_payment current.status current r)) [
      | inl e ↦
          let f : (replay_resolution q r o).1 ≡ o = unfold replay_resolution in ground arith in
          to_leaves o o _ f (Leaves-refl o)
      | inr (next, e) ↦
          let two : ((replay_resolution q r o).1 ≡ o)
              ⊎ ((replay_resolution q r o).1
                  ≡ write_resolution (event_key r.provider_id r.provider_event_id) q.quarantine_id
                      (replayed_result r next) (replayed_resolution r) o) =
            unfold replay_resolution in ground arith in
          elim two [
            | inl f ↦ to_leaves o o _ f (Leaves-refl o)
            | inr f ↦ to_leaves o _ _ f (write-Leaves _ _ _ _ o refl)
          ]
    ]
  ]

  pub close-Leaves :
      (q r e by : String) (at : Time) (o : Orchestrator W)
      → Leaves o (resolve_quarantine q r e by at o).1
  close-Leaves q r e by at o = record {
    same_providers = unfold resolve_quarantine in ground arith;
    same_keys = unfold resolve_quarantine in ground arith;
    same_hashes = unfold resolve_quarantine in ground arith;
    grown =
        (let f : (resolve_quarantine q r e by at o).1.events ≡ o.events =
            unfold resolve_quarantine in ground arith in
          subst (Grows o.events) (sym f) (Grows-refl o.events));
  }

module _ {W : Type 0} (s : Services W) where
  commit_resolution-Leaves :
      (q : ResolutionRequest) (p : PendingReversal) (current : Intent) (o : Orchestrator W)
      → Leaves o (commit_resolution s q p current o).1
  commit_resolution-Leaves q p current o =
      let next = reversed_at_time current q.resolved_at in
      let t = transition_of next current.status p.callback p.received_at in
      let call =
        s.resolve_provider_reversal (resolution_record q p) (accounting_commit s t) o.world in
      let o' = record o { world = call.1 } in
      elim (Result-cases call.0) [
        | inl (text, f) ↦
            let e : (commit_resolution s q p current o).1 ≡ o' =
              unfold commit_resolution in ground arith in
            to_leaves o o' _ e (world-Leaves call.1 o)
        | inr (done, f) ↦
            let r : QuarantineResolution = record {
              resolution_id = q.resolution_id;
              quarantine_id = q.quarantine_id;
              canonical_failure_evidence_hash = done.1;
              evidence_hash = q.resolution_evidence_hash;
              resolved_by = q.resolved_by;
              resolved_at = q.resolved_at;
            } in
            let result : CallbackResult = record {
              provider_id = p.callback.provider_id;
              provider_event_id = p.callback.provider_event_id;
              raw_hash = p.raw_hash;
              payment = next;
              journal_ids = done.0;
              replayed = false;
              disposition = "REVERSED";
            } in
            let e : (commit_resolution s q p current o).1
                ≡ write_resolution p.event_key q.quarantine_id result r o' =
              unfold commit_resolution in ground arith in
            to_leaves o _ _ e
              (Leaves-trans o o' _ (world-Leaves call.1 o) (write-Leaves _ _ result r o' refl))
      ]

  pending-Leaves : (q : ResolutionRequest) (o : Orchestrator W) → Leaves o (resolve_pending s q o).1
  pending-Leaves q o = elim (Option-cases (lookup q.quarantine_id o.pending_reversals)) [
    | inl e ↦
        let f : (resolve_pending s q o).1 ≡ o = unfold resolve_pending in ground arith in
        to_leaves o o _ f (Leaves-refl o)
    | inr (p, e) ↦ elim (Option-cases (lookup q.payment_id o.payments)) [
      | inl g ↦
          let f : (resolve_pending s q o).1 ≡ o = unfold resolve_pending in ground arith in
          to_leaves o o _ f (Leaves-refl o)
      | inr (current, g) ↦
          let two : ((resolve_pending s q o).1 ≡ o)
              ⊎ (resolve_pending s q o ≡ commit_resolution s q p current o) =
            unfold resolve_pending in ground arith in
          elim two [
            | inl f ↦ to_leaves o o _ f (Leaves-refl o)
            | inr f ↦ to_leaves o _ _ (ap (λ x. x.1) f) (commit_resolution-Leaves q p current o)
          ]
    ]
  ]

  refreshed-Leaves :
      (q : ResolutionRequest) (o : Orchestrator W) → Leaves o (resolve_refreshed s q o).1
  refreshed-Leaves q o = elim (Result-cases (s.resolved_provider_reversal q o.world)) [
    | inl (text, e) ↦
        let f : (resolve_refreshed s q o).1 ≡ o = unfold resolve_refreshed in ground arith in
        to_leaves o o _ f (Leaves-refl o)
    | inr (none, e) ↦
        let f : resolve_refreshed s q o ≡ resolve_pending s q o =
          unfold resolve_refreshed in ground arith in
        to_leaves o _ _ (ap (λ x. x.1) f) (pending-Leaves q o)
    | inr (some r, e) ↦
        let f : resolve_refreshed s q o ≡ replay_resolution q r o =
          unfold resolve_refreshed in ground arith in
        to_leaves o _ _ (ap (λ x. x.1) f) (replay-Leaves q r o)
  ]

  pub resolve-Leaves :
      (q : ResolutionRequest) (o : Orchestrator W) → Leaves o (resolve_canonical_reversal s q o).1
  resolve-Leaves q o =
      let o' = (refresh_canonical_consumptions s o).1 in
      let three : ((resolve_canonical_reversal s q o).1 ≡ o)
          ⊎ ((resolve_canonical_reversal s q o).1 ≡ o')
          ⊎ (resolve_canonical_reversal s q o ≡ resolve_refreshed s q o') =
        unfold resolve_canonical_reversal in ground arith in
      elim three [
        | inl e ↦ to_leaves o o _ e (Leaves-refl o)
        | inr (inl e) ↦ to_leaves o o' _ e (refresh-Leaves s o)
        | inr (inr e) ↦
            to_leaves o _ _ (ap (λ x. x.1) e)
              (Leaves-trans o o' _ (refresh-Leaves s o) (refreshed-Leaves q o'))
      ]
