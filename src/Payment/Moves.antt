-- ===== src/Payment/Moves.antt =====
-- What a call can do to the payments of the orchestrator, one transition at most.
use unified.Base.{
  ◌+◌, String, ◌≡◌, refl, sym, ap, ◌∙◌, inl, inr, true, Option, none, some, arith, ◌=ₛ◌, Bool-cases,
  eq_of_text_eq, Dict, lookup, insert, lookup-insert, Time,
}
use unified.Payment.Types.{Status, Intent, Callback}
use unified.Payment.Checks.{u64, allowed_transition}
use unified.Payment.Records.{advanced}

-- One transition: the status moves as it may, the version by one, and the payment stays what it is.
pub record IsNext (c c' : Intent) : Type 0 where
  pub allowed : allowed_transition c.status c'.status ≡ true
  pub counted : c'.version ≡ u64 (c.version + 1)
  pub same_payment : c'.payment_id ≡ c.payment_id
  pub same_provider : c'.provider_id ≡ c.provider_id
  pub same_asset : c'.asset_id ≡ c.asset_id
  pub same_units : c'.units ≡ c.units
  pub same_loan : c'.loan_id ≡ c.loan_id

-- What a call makes of the entry of a payment.
pub data EntryStep (id : String) (e e' : Option Intent) : Type 0 where
  stays : e' ≡ e → EntryStep id e e'
  opens : (i : Intent) → e ≡ none → e' ≡ some i → i.payment_id ≡ id → EntryStep id e e'
  moves : (c c' : Intent) → e ≡ some c → e' ≡ some c' → IsNext c c' → EntryStep id e e'

abbrev pub PayStep : Dict Intent → Dict Intent → Type 0
PayStep m m' = (id : String) → EntryStep id (lookup id m) (lookup id m')

-- Every payment is filed under its identifier.
abbrev pub IsFiled : Dict Intent → Type 0
IsFiled m = (id : String) (c : Intent) → lookup id m ≡ some c → c.payment_id ≡ id

pub keeps_all : (m m' : Dict Intent) → m' ≡ m → PayStep m m'
keeps_all m m' h id = EntryStep.stays (ap (lookup id) h)

pub some_same : {A : Type 0} {a b : A} → some a ≡ some b → a ≡ b
some_same h = cc

pub PayStep-IsFiled : (m m' : Dict Intent) → IsFiled m → PayStep m m' → IsFiled m'
PayStep-IsFiled m m' f step id c h = go (step id)
  where
    go : EntryStep id (lookup id m) (lookup id m') → c.payment_id ≡ id
    go (EntryStep.stays e) = f id c (sym e ∙ h)
    go (EntryStep.opens i e e' p) = ap (λ x. x.payment_id) (some_same (sym h ∙ e')) ∙ p
    go (EntryStep.moves d d' e e' next) =
        ap (λ x. x.payment_id) (some_same (sym h ∙ e')) ∙ next.same_payment ∙ f id d e

pub put_next :
    (m : Dict Intent) (id : String) (c c' : Intent)
    → lookup id m ≡ some c
    → c.payment_id ≡ id
    → IsNext c c'
    → PayStep m (insert c'.payment_id c' m)
put_next m id c c' found named next j = elim (Bool-cases (c'.payment_id =ₛ j)) [
  | inl e ↦
      let at_j : id ≡ j = sym named ∙ sym next.same_payment ∙ eq_of_text_eq c'.payment_id j e in
      EntryStep.moves c c' (ap (λ x. lookup x m) (sym at_j) ∙ found)
        (ground (arith, lookup-insert c'.payment_id j c' m, e)) next
  | inr e ↦ EntryStep.stays (ground (arith, lookup-insert c'.payment_id j c' m, e))
]

pub put_new :
    (m : Dict Intent) (i : Intent)
    → lookup i.payment_id m ≡ none
    → PayStep m (insert i.payment_id i m)
put_new m i free j = elim (Bool-cases (i.payment_id =ₛ j)) [
  | inl e ↦
      let at_j = eq_of_text_eq i.payment_id j e in
      EntryStep.opens i (ap (λ x. lookup x m) (sym at_j) ∙ free)
        (ground (arith, lookup-insert i.payment_id j i m, e)) at_j
  | inr e ↦ EntryStep.stays (ground (arith, lookup-insert i.payment_id j i m, e))
]

pub advanced-IsNext :
    (status : Status) (current : Intent) (c : Callback) (at : Time)
    → allowed_transition current.status status ≡ true
    → IsNext current (advanced status current c at)
unfolding advanced
advanced-IsNext status current c at h = record {
  allowed = h;
  counted = refl;
  same_payment = refl;
  same_provider = refl;
  same_asset = refl;
  same_units = refl;
  same_loan = refl;
}
