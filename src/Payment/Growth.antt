-- ===== src/Payment/Growth.antt =====
-- What the calls of the payment ingress other than `CreateIntent` leave alone: the providers and the
-- register of the intents. An event that is stored stays stored, with its answer or with one that a
-- resolution or a contradicted consumption has put in its place.
use unified.Base.{
  ap, ◌⊎◌, eq_of_text_eq, String, ◌≡◌, refl, sym, ◌∙◌, inl, inr, Option, none, some, List, [], ◌∷◌,
  arith, ◌=ₛ◌, ◌≠ₛ◌, Bool-cases, Option-cases, Dict, lookup, insert, lookup-insert,
}
use mathlib.Core.Path.{subst}
use unified.Payment.Callbacks.{put_payment, reject, store_event}
use unified.Payment.{
  Orchestrator, unless_failed, refresh_each, apply_each, register_consumption,
  refresh_canonical_consumptions, apply_canonical_consumptions, StoredEvent, Services, Ingress,
  refresh_one, Intent, Effect, quarantined, CallbackResult, Callback, contradicted_event,
  PaymentError, event_key, contradicts,
}
use unified.Payment.Types.{Consumption}
use unified.Payment.Reaction.{refresh_one-cases}

-- What only a resolution or a contradicted consumption writes over an answer.
abbrev pub Replaces : StoredEvent → Type 0
Replaces e = (e.result.disposition ≡ "REVERSED") ⊎ (e.result.disposition ≡ "INCIDENT")

-- An event that is stored in the first map is stored in the second, with its answer or a replacement.
abbrev pub Grows : Dict StoredEvent → Dict StoredEvent → Type 0
Grows m m' =
    (key : String) (e : StoredEvent)
    → lookup key m ≡ some e
    → (e' : StoredEvent) × (lookup key m' ≡ some e') × ((e' ≡ e) ⊎ Replaces e')

pub Grows-refl : (m : Dict StoredEvent) → Grows m m
Grows-refl m key e h = (e, h, inl refl)

pub replace-Grows :
    (k : String) (x : StoredEvent) (m : Dict StoredEvent) → Replaces x → Grows m (insert k x m)
replace-Grows k x m new key e h = elim (Bool-cases (k =ₛ key)) [
  | inl q ↦ (x, ground (arith, lookup-insert k key x m, q), inr new)
  | inr q ↦ (e, ground (arith, lookup-insert k key x m, q), inl refl)
]

pub insert-Grows :
    (k : String) (x : StoredEvent) (m : Dict StoredEvent)
    → lookup k m ≡ none
    → Grows m (insert k x m)
insert-Grows k x m free key e h = elim (Bool-cases (k =ₛ key)) [
  | inl q ↦ let clash = sym (ap (λ y. lookup y m) (eq_of_text_eq k key q)) ∙ free in absurd (cc)
  | inr q ↦ (e, ground (arith, lookup-insert k key x m, q), inl refl)
]

pub Grows-trans : (a b c : Dict StoredEvent) → Grows a b → Grows b c → Grows a c
Grows-trans a b c f g key e h =
    let (e', h', way) = f key e h in
    let (e'', h'', way') = g key e' h' in
    (
      e'',
      h'',
      elim way' [
        | inr new ↦ inr new
        | inl same ↦ elim way [
          | inl q ↦ inl (same ∙ q)
          | inr new ↦ inr (subst Replaces (sym same) new)
        ]
      ],
    )

each-Grows :
    (id : String) (current : Intent) (cs : Dict Consumption) (m : Dict StoredEvent)
    → Grows m (apply_each id current cs m).1
unfolding apply_each
each-Grows id current [] m = Grows-refl m
each-Grows id current ((k, c) ∷ cs) m =
    let x = contradicted_event c current in
    let at = event_key c.provider_id c.provider_event_id in
    let skipped = each-Grows id current cs m in
    let written =
      Grows-trans m (insert at x m) (apply_each id current cs (insert at x m)).1
        (replace-Grows at x m (inr (unfold contradicted_event in refl)))
        (each-Grows id current cs (insert at x m)) in
    elim (Bool-cases (c.payment_id ≠ₛ id)) [
      | inl q ↦
          let e : (apply_each id current ((k, c) ∷ cs) m).1 ≡ (apply_each id current cs m).1 =
            ground arith in
          subst (Grows m) (sym e) skipped
      | inr q ↦ elim (Bool-cases (contradicts c current)) [
        | inl z ↦
            let e : (apply_each id current ((k, c) ∷ cs) m).1 ≡ m = ground arith in
            subst (Grows m) (sym e) (Grows-refl m)
        | inr z ↦
            let e : (apply_each id current ((k, c) ∷ cs) m).1
                ≡ (apply_each id current cs (insert at x m)).1 =
              ground arith in
            subst (Grows m) (sym e) written
      ]
    ]

pub record Leaves {W : Type 0} (o o' : Orchestrator W) : Type 0 where
  pub same_providers : o'.providers ≡ o.providers
  pub same_keys : o'.intent_keys ≡ o.intent_keys
  pub same_hashes : o'.intent_hashes ≡ o.intent_hashes
  pub grown : Grows o.events o'.events

module _ {W : Type 0} where
  pub Leaves-refl : (o : Orchestrator W) → Leaves o o
  Leaves-refl o = record {
    same_providers = refl;
    same_keys = refl;
    same_hashes = refl;
    grown = Grows-refl o.events;
  }

  pub Leaves-trans : (a b c : Orchestrator W) → Leaves a b → Leaves b c → Leaves a c
  Leaves-trans a b c f g = record {
    same_providers = g.same_providers ∙ f.same_providers;
    same_keys = g.same_keys ∙ f.same_keys;
    same_hashes = g.same_hashes ∙ f.same_hashes;
    grown = Grows-trans a.events b.events c.events f.grown g.grown;
  }

  pub to_leaves : (o a b : Orchestrator W) → b ≡ a → Leaves o a → Leaves o b
  to_leaves o a b e h = subst (Leaves o) (sym e) h

  -- The writes of the methods: an answer that is stored, and fields that no theorem here is about.
  pub store-Leaves :
      (i : Ingress) (result : CallbackResult) (error : Option PaymentError) (o : Orchestrator W)
      → lookup (event_key i.provider_id i.provider_event_id) o.events ≡ none
      → Leaves o (store_event i result error o).1
  unfolding store_event
  store-Leaves i result error o free = record {
    same_providers = refl;
    same_keys = refl;
    same_hashes = refl;
    grown = insert-Grows _ _ o.events free;
  }

  pub reject-Leaves :
      (i : Ingress) (c : Callback) (reason : String) (e : PaymentError) (o : Orchestrator W)
      → Leaves o (reject i c reason e o).1
  unfolding reject quarantined
  reject-Leaves i c reason e o = record {
    same_providers = refl;
    same_keys = refl;
    same_hashes = refl;
    grown = Grows-refl o.events;
  }

  pub put-Leaves : (i : Intent) (o : Orchestrator W) → Leaves o (put_payment i o)
  unfolding put_payment
  put-Leaves i o = record {
    same_providers = refl;
    same_keys = refl;
    same_hashes = refl;
    grown = Grows-refl o.events;
  }

  pub world-Leaves : (w : W) (o : Orchestrator W) → Leaves o record o { world = w }
  world-Leaves w o = record {
    same_providers = refl;
    same_keys = refl;
    same_hashes = refl;
    grown = Grows-refl o.events;
  }

  pub applied-Leaves :
      (id : String) (o : Orchestrator W) → Leaves o (apply_canonical_consumptions id o).1
  unfolding apply_canonical_consumptions
  applied-Leaves id o = elim (Option-cases (lookup id o.payments)) [
    | inl q ↦
        let e : (apply_canonical_consumptions id o).1 ≡ o = ground arith in
        to_leaves o o _ e (Leaves-refl o)
    | inr (c, q) ↦
        let e : (apply_canonical_consumptions id o).1
            ≡ record o { events = (apply_each id c o.consumed_reversals o.events).1 } =
          ground arith in
        to_leaves o _ _ e record {
          same_providers = refl;
          same_keys = refl;
          same_hashes = refl;
          grown = each-Grows id c o.consumed_reversals o.events;
        }
  ]

  registered-Leaves : (c : Consumption) (o : Orchestrator W) → Leaves o (register_consumption c o)
  unfolding register_consumption
  registered-Leaves c o = record {
    same_providers = refl;
    same_keys = refl;
    same_hashes = refl;
    grown = Grows-refl o.events;
  }

  refresh_one-Leaves : (c : Consumption) (o : Orchestrator W) → Leaves o (refresh_one c o).1
  refresh_one-Leaves c o = elim (refresh_one-cases c o) [
    | inl e ↦ to_leaves o o _ e (Leaves-refl o)
    | inr (inl e) ↦ to_leaves o _ _ e (applied-Leaves c.payment_id o)
    | inr (inr e) ↦ to_leaves o _ _ e (
        Leaves-trans o (register_consumption c o) _ (registered-Leaves c o)
          (applied-Leaves c.payment_id (register_consumption c o)))
  ]

  unless_failed-Leaves :
      (o : Orchestrator W) (r : Effect W) (next : Orchestrator W → Effect W)
      → Leaves o r.1
      → ((x : Orchestrator W) → Leaves x (next x).1)
      → Leaves o (unless_failed r next).1
  unfolding unless_failed
  unless_failed-Leaves o (some e, a) next h k = h
  unless_failed-Leaves o (none, a) next h k = Leaves-trans o a (next a).1 h (k a)

  refresh_each-Leaves :
      (cs : List Consumption) (o : Orchestrator W) → Leaves o (refresh_each cs o).1
  unfolding refresh_each
  refresh_each-Leaves [] o = Leaves-refl o
  refresh_each-Leaves (c ∷ cs) o =
      unless_failed-Leaves o (refresh_one c o) (refresh_each cs) (refresh_one-Leaves c o)
        (refresh_each-Leaves cs)

  pub refresh-Leaves :
      (s : Services W) (o : Orchestrator W) → Leaves o (refresh_canonical_consumptions s o).1
  unfolding refresh_canonical_consumptions
  refresh-Leaves s o = refresh_each-Leaves (s.consumed_provider_reversals o.world) o
