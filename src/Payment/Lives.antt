-- ===== src/Payment/Lives.antt =====
-- How far a payment can go: how many transitions it has, and where they end.
use unified.Base.{
  ℕ, suc, ◌+◌, ◌≤◌, ◌<◌, String, ◌≡◌, refl, sym, ap, ◌∙◌, ◌≢◌, ◌⊎◌, inl, inr, true, some, List,
  arith, lookup,
}
use unified.Payment.{
  Status, Intent, Services, Orchestrator, created, processing, provisional, final, failed, reversed,
  disputed, other_status, allowed_transition, Codec, new,
}
use unified.Payment.Moves.{IsNext, IsFiled}
use unified.Payment.History.{Follows, Later, Call, after_calls, after_calls-Later}

-- How far along a status is.
abbrev pub stage : Status → ℕ
stage created = 0
stage processing = 1
stage provisional = 2
stage final = 3
stage _ = 4

stage_bound : (st : Status) → stage st ≤ 4
stage_bound created = omega arith
stage_bound processing = omega arith
stage_bound provisional = omega arith
stage_bound final = omega arith
stage_bound failed = omega arith
stage_bound reversed = omega arith
stage_bound disputed = omega arith
stage_bound (other_status t) = omega arith

-- A transition leads to a later stage.
pub allowed-stage : (a b : Status) → allowed_transition a b ≡ true → stage a < stage b
unfolding allowed_transition
allowed-stage created processing h = omega arith
allowed-stage created failed h = omega arith
allowed-stage processing provisional h = omega arith
allowed-stage processing failed h = omega arith
allowed-stage provisional final h = omega arith
allowed-stage provisional reversed h = omega arith
allowed-stage final reversed h = omega arith
allowed-stage _ _ h = absurd cc

-- A transition adds one to a version that is small.
next-version : (c d : Intent) → IsNext c d → c.version ≤ 5 → d.version ≡ suc c.version
next-version c d next small = next.counted ∙ ground arith

Follows-version :
    (c d : Intent) (n : ℕ)
    → Follows c d n
    → c.version ≤ suc (stage c.status)
    → (d.version ≡ c.version + n) × (n + stage c.status ≤ stage d.status)
Follows-version c _ _ (Follows.rests _) low = omega arith
Follows-version c e _ (Follows.then _ d _ n next path) low =
    let up = allowed-stage c.status d.status next.allowed in
    let counted = next-version c d next (omega (arith, stage_bound c.status)) in
    let (v, s) = Follows-version d e n path (omega arith) in (omega arith, omega arith)

failed-stuck : (a : Status) → allowed_transition failed a ≢ true
unfolding allowed_transition
failed-stuck a h = cc

reversed-stuck : (a : Status) → allowed_transition reversed a ≢ true
unfolding allowed_transition
reversed-stuck a h = cc

closed-Follows :
    (c d : Intent) (n : ℕ) → Follows c d n → (c.status ≡ failed) ⊎ (c.status ≡ reversed) → c ≡ d
closed-Follows c _ _ (Follows.rests _) closed = refl
closed-Follows c e _ (Follows.then _ d _ n next path) closed = absurd (elim closed [
  | inl e ↦ failed-stuck d.status (ap (λ x. allowed_transition x d.status) (sym e) ∙ next.allowed)
  | inr e ↦ reversed-stuck d.status (ap (λ x. allowed_transition x d.status) (sym e) ∙ next.allowed)
])

module _ {W : Type 0} (s : Services W) (k : Codec) (hash : Intent → String) where
  -- A payment that has failed or is reversed is never changed again, whatever calls are made.
  pub after_calls-closed :
      (cs : List Call) (o : Orchestrator W) (id : String) (c : Intent)
      → IsFiled o.payments
      → lookup id o.payments ≡ some c
      → (c.status ≡ failed) ⊎ (c.status ≡ reversed)
      → lookup id (after_calls s k hash cs o).payments ≡ some c
  after_calls-closed cs o id c filed found closed =
      elim (after_calls-Later s k hash cs o id c filed found) [
        | Later.later d n is path ↦ is ∙ ap some (sym (closed-Follows c d n path closed))
      ]

  -- A payment in the status and the version that `CreateIntent` gives it has a version between one
  -- and five for ever after: it makes four transitions at most, and its version never wraps.
  pub after_calls-version :
      (cs : List Call) (o : Orchestrator W) (id : String) (c : Intent)
      → IsFiled o.payments
      → lookup id o.payments ≡ some c
      → c.status ≡ created
      → c.version ≡ 1
      → (d : Intent) × (n : ℕ) × (lookup id (after_calls s k hash cs o).payments ≡ some d)
        × (Follows c d n)
        × (d.version ≡ suc n)
        × (d.version ≤ 5)
  after_calls-version cs o id c filed found new first =
      elim (after_calls-Later s k hash cs o id c filed found) [
        | Later.later d n is path ↦
            let zero_stage : stage c.status ≡ 0 = ap stage new in
            let (v, far) = Follows-version c d n path (omega arith) in
            (d, n, is, path, omega arith, omega (arith, stage_bound d.status))
      ]
