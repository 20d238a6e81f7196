-- ===== src/Payment/Recreation.antt =====
-- `CreateIntent` with an intent that has opened its payment before.
use unified.Base.{
  ℕ, String, ◌≡◌, sym, ap, ◌∙◌, ◌≢◌, ◌⊎◌, inl, inr, false, not, ◌||◌, none, some, List, [], ◌∷◌,
  arith, eq_refl, ◌=ₛ◌, ◌≠ₛ◌, Bool-cases, Option-cases, eq_of_text_eq, Dict, lookup, insert,
  lookup-insert, lookup-insert_self, Result, ok, err, Time,
}
use unified.Payment.{
  Services, Codec, Orchestrator, Intent, create_intent, file_intent, replay_intent, open_intent,
  event_key, bad_new_intent, idempotency_conflict, invalid_intent, PaymentError, Provider,
  same_rail,
}
use unified.Payment.Creation.{create-PayStep}
use unified.Payment.Growth.{Leaves}
use unified.Payment.History.{
  Follows, Later, Call, after_call, after_calls, create, restore, ingest, resolve, close,
  step-Later, call-PayStep, call-IsFiled, after_calls-Later,
}
use unified.Payment.Intake.{create-same, create-opens, ingest-Leaves, after_calls-Stands}
use unified.Payment.Moves.{IsFiled, PayStep-IsFiled}
use unified.Payment.Standing.{restore-Leaves, resolve-Leaves, close-Leaves}

not_ok : {A : Type 0} (e : PaymentError) (a : A) {x : Result PaymentError A} → x ≡ err e → x ≢ ok a
not_ok e a h q = cc

ok_same : {A : Type 0} {a b : A} → ◌≡◌ {A = Result PaymentError A} (ok a) (ok b) → a ≡ b
ok_same h = cc

inserted-other :
    {V : Type 0} (k j : String) (v w : V) (m : Dict V)
    → lookup k m ≡ none
    → lookup j m ≡ some w
    → lookup j (insert k v m) ≡ some w
inserted-other k j v w m free found = elim (Bool-cases (k =ₛ j)) [
  | inl e ↦ let clash = sym (ap (λ x. lookup x m) (eq_of_text_eq k j e)) ∙ free in absurd (cc)
  | inr e ↦ ground (arith, lookup-insert k j v m, e)
]

hash_other :
    (k j : String) (v h : String) (c : Intent) (m : Dict String) (payments : Dict Intent)
    → lookup k payments ≡ none
    → lookup j payments ≡ some c
    → lookup j m ≡ some h
    → lookup j (insert k v m) ≡ some h
hash_other k j v h c m payments free there found = elim (Bool-cases (k =ₛ j)) [
  | inl e ↦
      let clash = sym (ap (λ x. lookup x payments) (eq_of_text_eq k j e)) ∙ free in absurd (cc)
  | inr e ↦ ground (arith, lookup-insert k j v m, e)
]

module _ {W : Type 0} where
  -- The payment is registered under its key, with the hash of its content.
  abbrev Registered : String → String → String → Orchestrator W → Type 0
  Registered key id h o =
      (lookup key o.intent_keys ≡ some id)
      × (lookup id o.intent_hashes ≡ some h)
      × ((c : Intent) × (lookup id o.payments ≡ some c))

  create-valid :
      (hash : Intent → String) (i opened : Intent) (now : Time) (o : Orchestrator W)
      → (create_intent hash i now o).0 ≡ ok opened
      → (create_intent hash i now o ≡ file_intent i (hash i) now o)
        × ((later : Time) (o' : Orchestrator W)
            → bad_new_intent i later ≡ false
            → o'.providers ≡ o.providers
            → create_intent hash i later o' ≡ file_intent i (hash i) later o')
  unfolding create_intent
  create-valid hash i opened now o done = elim (Option-cases (lookup i.provider_id o.providers)) [
    | inl q ↦ absurd (not_ok invalid_intent opened (ground arith) done)
    | inr (p, q) ↦
        let two : ((create_intent hash i now o).0 ≡ err invalid_intent)
            ⊎ (((not p.active || not (same_rail p.rail i.rail) || (p.asset_id ≠ₛ i.asset_id))
                  ≡ false)
                × (create_intent hash i now o ≡ file_intent i (hash i) now o)) =
          ground arith in
        elim two [
          | inl e ↦ absurd (not_ok invalid_intent opened e done)
          | inr (fits, e) ↦ (e, λ later o' valid same. served later o' p valid same q fits)
        ]
  ]
    where
      served :
          (later : Time) (o' : Orchestrator W) (p : Provider)
          → bad_new_intent i later ≡ false
          → o'.providers ≡ o.providers
          → lookup i.provider_id o.providers ≡ some p
          → (not p.active || not (same_rail p.rail i.rail) || (p.asset_id ≠ₛ i.asset_id)) ≡ false
          → create_intent hash i later o' ≡ file_intent i (hash i) later o'
      served later o' p valid same q fits =
          let q' = ap (lookup i.provider_id) same ∙ q in ground arith

  create-Registered :
      (hash : Intent → String) (i : Intent) (now : Time) (key id h : String) (o : Orchestrator W)
      → Registered key id h o
      → (lookup key (create_intent hash i now o).1.intent_keys ≡ some id)
        × (lookup id (create_intent hash i now o).1.intent_hashes ≡ some h)
  create-Registered hash i now key id h o (known, hashed, (c, there)) =
      elim (create-opens hash i now o) [
        | inl e ↦ (
          ap (λ x. lookup key x.intent_keys) e ∙ known,
          ap (λ x. lookup id x.intent_hashes) e ∙ hashed,
        )
        | inr (free, new, e) ↦
            let at = event_key i.legal_entity_id i.idempotency_key in
            (
              ap (λ x. lookup key x.1.intent_keys) e
                  ∙ unfold open_intent in
                    inserted-other at key i.payment_id id o.intent_keys free known,
              ap (λ x. lookup id x.1.intent_hashes) e
                  ∙ unfold open_intent in
                    hash_other i.payment_id id (hash i) h c o.intent_hashes o.payments new there
                      hashed,
            )
      ]

  left-Registered :
      (key id h : String) (o o' : Orchestrator W)
      → Leaves o o'
      → Registered key id h o
      → (lookup key o'.intent_keys ≡ some id) × (lookup id o'.intent_hashes ≡ some h)
  left-Registered key id h o o' left (known, hashed, there) =
      (ap (lookup key) left.same_keys ∙ known, ap (lookup id) left.same_hashes ∙ hashed)

module _ {W : Type 0} (s : Services W) (k : Codec) (hash : Intent → String) where
  call-Registered :
      (x : Call) (key id h : String) (o : Orchestrator W)
      → Registered key id h o
      → (lookup key (after_call s k hash x o).intent_keys ≡ some id)
        × (lookup id (after_call s k hash x o).intent_hashes ≡ some h)
  unfolding after_call
  call-Registered (create i now) key id h o r = create-Registered hash i now key id h o r
  call-Registered (restore i) key id h o r = left-Registered key id h o _ (restore-Leaves i o) r
  call-Registered (ingest p e raw signature at) key id h o r =
      left-Registered key id h o _ (ingest-Leaves s k p e raw signature at o) r
  call-Registered (resolve q) key id h o r = left-Registered key id h o _ (resolve-Leaves s q o) r
  call-Registered (close q u e by at) key id h o r =
      left-Registered key id h o _ (close-Leaves q u e by at o) r

  after_calls-Registered :
      (cs : List Call) (key id h : String) (o : Orchestrator W)
      → IsFiled o.payments
      → Registered key id h o
      → Registered key id h (after_calls s k hash cs o)
  unfolding after_calls
  after_calls-Registered [] key id h o filed r = r
  after_calls-Registered (x ∷ cs) key id h o filed r =
      let (known, hashed) = call-Registered x key id h o r in
      let (c, there) = r.2 in
      let (d, way, is) =
        step-Later s k hash id (lookup id o.payments) (lookup id (after_call s k hash x o).payments)
          c (call-PayStep s k hash x o filed id) there in
      after_calls-Registered cs key id h (after_call s k hash x o) (call-IsFiled s k hash x o filed)
        (known, hashed, (d, is))

  -- The first intent of a key opens its payment.
  opened-Registered :
      (i opened : Intent) (now : Time) (o : Orchestrator W)
      → lookup (event_key i.legal_entity_id i.idempotency_key) o.intent_keys ≡ none
      → (create_intent hash i now o).0 ≡ ok opened
      → (lookup
            (event_key i.legal_entity_id i.idempotency_key)
            (create_intent hash i now o).1.intent_keys
          ≡ some i.payment_id)
        × (lookup i.payment_id (create_intent hash i now o).1.intent_hashes ≡ some (hash i))
        × (lookup i.payment_id (create_intent hash i now o).1.payments ≡ some opened)
  opened-Registered i opened now o free done =
      let key = event_key i.legal_entity_id i.idempotency_key in
      let (first, next) = create-valid hash i opened now o done in
      elim (Option-cases (lookup i.payment_id o.payments)) [
        | inr (c, e) ↦
            let q : (file_intent i (hash i) now o).0 ≡ err idempotency_conflict =
              unfold file_intent in ground arith in
            absurd (not_ok idempotency_conflict opened (ap (λ x. x.0) first ∙ q) done)
        | inl e ↦
            let q : create_intent hash i now o ≡ open_intent i key (hash i) now o =
              first ∙ unfold file_intent in ground arith in
            let is_opened : (open_intent i key (hash i) now o).0 ≡ ok opened =
              sym (ap (λ x. x.0) q) ∙ done in
            (
              ap (λ x. lookup key x.1.intent_keys) q
                  ∙ unfold open_intent in lookup-insert_self key i.payment_id o.intent_keys,
              ap (λ x. lookup i.payment_id x.1.intent_hashes) q
                  ∙ unfold open_intent in lookup-insert_self i.payment_id (hash i) o.intent_hashes,
              ap (λ x. lookup i.payment_id x.1.payments) q
                  ∙ unfold open_intent in
                    lookup-insert_self i.payment_id _ o.payments ∙ ap some (ok_same is_opened),
            )
      ]

  -- An intent that opened a payment under a new key and comes again after any calls, while it is still
  -- valid, is answered with that payment, in the status it has then reached, and changes nothing: there
  -- is one payment for one idempotency key.
  pub create_intent-again :
      (i opened : Intent) (now later : Time) (cs : List Call) (o : Orchestrator W)
      → IsFiled o.payments
      → lookup (event_key i.legal_entity_id i.idempotency_key) o.intent_keys ≡ none
      → bad_new_intent i later ≡ false
      → (create_intent hash i now o).0 ≡ ok opened
      → (d : Intent) × (n : ℕ) × Follows opened d n
        × (create_intent hash i later (after_calls s k hash cs (create_intent hash i now o).1)
            ≡ (ok d, after_calls s k hash cs (create_intent hash i now o).1))
  create_intent-again i opened now later cs o filed free valid done =
      let o1 = (create_intent hash i now o).1 in
      let o2 = after_calls s k hash cs o1 in
      let (first, next) = create-valid hash i opened now o done in
      let (key, hashed, put) = opened-Registered i opened now o free done in
      let filed1 : IsFiled o1.payments =
        PayStep-IsFiled o.payments o1.payments filed (create-PayStep hash i now o) in
      let (known, kept, there) =
        after_calls-Registered cs (event_key i.legal_entity_id i.idempotency_key) i.payment_id
          (hash i) o1 filed1 (key, hashed, (opened, put)) in
      let same : o2.providers ≡ o.providers =
        (after_calls-Stands s k hash cs o1).0 ∙ (create-same s k hash i now o).0 in
      reaches o2 (next later o2 valid same) known kept
        (after_calls-Later s k hash cs o1 i.payment_id opened filed1 put)
    where
      reaches :
          (o2 : Orchestrator W)
          → create_intent hash i later o2 ≡ file_intent i (hash i) later o2
          → lookup (event_key i.legal_entity_id i.idempotency_key) o2.intent_keys
            ≡ some i.payment_id
          → lookup i.payment_id o2.intent_hashes ≡ some (hash i)
          → Later opened (lookup i.payment_id o2.payments)
          → (d : Intent) × (n : ℕ) × Follows opened d n
            × (create_intent hash i later o2 ≡ (ok d, o2))
      reaches o2 e known kept (Later.later d n found way) =
          (d, n, way, e ∙ unfold file_intent replay_intent in ground (arith, eq_refl (hash i)))
