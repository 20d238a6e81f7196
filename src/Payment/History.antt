-- ===== src/Payment/History.antt =====
-- The calls of the payment ingress in a row, and what becomes of one payment.
use unified.Base.{
  ℕ, suc, String, ◌≡◌, refl, sym, ◌∙◌, ◌⊎◌, inl, inr, Option, some, List, [], ◌∷◌, arith, lookup,
  Time,
}
use mathlib.Core.Path.{subst}
use unified.Payment.{
  Bytes, Intent, ResolutionRequest, Services, Orchestrator, Codec, ingest_callback, restore_payment,
  create_intent, resolve_canonical_reversal, resolve_quarantine,
}
use unified.Payment.Moves.{
  IsNext, EntryStep, PayStep, IsFiled, keeps_all, some_same, PayStep-IsFiled,
}
use unified.Payment.Effects.{ingest-PayStep}
use unified.Payment.Resolutions.{resolve-PayStep}
use unified.Payment.Creation.{create-PayStep, restore-PayStep}

-- The transitions of a payment, one after another.
pub data Follows : Intent → Intent → ℕ → Type 0 where
  rests : (c : Intent) → Follows c c 0
  then : (c d e : Intent) (n : ℕ) → IsNext c d → Follows d e n → Follows c e (suc n)

-- What the entry of a payment is later.
pub data Later (c : Intent) (e : Option Intent) : Type 0 where
  later : (d : Intent) (n : ℕ) → e ≡ some d → Follows c d n → Later c e

-- A call of a method that writes.
pub data Call : Type 0 where
  create : Intent → Time → Call
  restore : Intent → Call
  ingest : String → String → Bytes → Bytes → Time → Call
  resolve : ResolutionRequest → Call
  close : String → String → String → String → Time → Call

module _ {W : Type 0} (s : Services W) (k : Codec) (hash : Intent → String) where
  -- The orchestrator after a call.
  unfoldable pub after_call : Call → Orchestrator W → Orchestrator W
  after_call (create i now) o = (create_intent hash i now o).1
  after_call (restore i) o = (restore_payment i o).1
  after_call (ingest p e raw signature at) o = (ingest_callback s k p e raw signature at o).1
  after_call (resolve q) o = (resolve_canonical_reversal s q o).1
  after_call (close q r e by at) o = (resolve_quarantine q r e by at o).1

  unfoldable pub after_calls : List Call → Orchestrator W → Orchestrator W
  after_calls [] o = o
  after_calls (c ∷ cs) o = after_calls cs (after_call c o)

  pub call-PayStep :
      (c : Call) (o : Orchestrator W)
      → IsFiled o.payments
      → PayStep o.payments (after_call c o).payments
  unfolding after_call
  call-PayStep (create i now) o filed = create-PayStep hash i now o
  call-PayStep (restore i) o filed = restore-PayStep i o
  call-PayStep (ingest p e raw signature at) o filed =
      ingest-PayStep s k p e raw signature at o filed
  call-PayStep (resolve q) o filed = resolve-PayStep s q o filed
  call-PayStep (close q r e by at) o filed =
      keeps_all o.payments _ (unfold resolve_quarantine in ground arith)

  pub step-Later :
      (id : String) (e e' : Option Intent) (c : Intent)
      → EntryStep id e e'
      → e ≡ some c
      → (d : Intent) × ((d ≡ c) ⊎ IsNext c d) × (e' ≡ some d)
  step-Later id e e' c (EntryStep.stays same) found = (c, inl refl, same ∙ found)
  step-Later id e e' c (EntryStep.opens i free put q) found = absurd (cc)
  step-Later id e e' c (EntryStep.moves d d' was is next) found =
      (d', inr (subst (λ x. IsNext x d') (some_same (sym was ∙ found)) next), is)

  prepend : (c d : Intent) (e : Option Intent) → (d ≡ c) ⊎ IsNext c d → Later d e → Later c e
  prepend c d e (inl same) h = subst (λ x. Later x e) same h
  prepend c d e (inr next) (Later.later x n found path) =
      Later.later x (suc n) found (Follows.then c d x n next path)

  pub call-IsFiled :
      (c : Call) (o : Orchestrator W) → IsFiled o.payments → IsFiled (after_call c o).payments
  call-IsFiled c o filed = PayStep-IsFiled o.payments _ filed (call-PayStep c o filed)

  -- Whatever calls are made, a payment stays in the register and only ever moves along allowed
  -- transitions: each adds one to its version and keeps its identity, provider, asset, units and loan.
  pub after_calls-Later :
      (cs : List Call) (o : Orchestrator W) (id : String) (c : Intent)
      → IsFiled o.payments
      → lookup id o.payments ≡ some c
      → Later c (lookup id (after_calls cs o).payments)
  unfolding after_calls
  after_calls-Later [] o id c filed found = Later.later c 0 found (Follows.rests c)
  after_calls-Later (x ∷ cs) o id c filed found =
      let (d, way, is) =
        step-Later id (lookup id o.payments) (lookup id (after_call x o).payments) c
          (call-PayStep x o filed id) found in
      prepend c d _ way (after_calls-Later cs (after_call x o) id d (call-IsFiled x o filed) is)
