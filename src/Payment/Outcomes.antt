-- ===== src/Payment/Outcomes.antt =====
-- What a callback that is due brings about, and which bytes are a callback.
use unified.Base.{
  ◌↔◌, String, ◌≡◌, refl, ap, ◌∙◌, ◌⊎◌, inl, inr, true, false, none, some, List, [], ◌∷◌, arith,
  Option-cases, lookup, ok, err, sym, insert,
}
use unified.Payment.{
  decode_callback, encode_callback, same_bytes, Bytes, Intent, Callback, Services, Orchestrator,
  Answer, provisional, final, accounting_failed, answered, refused, event_key, Ingress, Transition,
  CallbackResult, Codec,
}
use unified.Payment.Moves.{IsNext}

-- The payment takes the status of the callback, at the time it was received.
pub record IsMoved (i : Ingress) (c : Callback) (current next : Intent) : Type 0 where
  pub follows : IsNext current next
  pub in_status : next.status ≡ c.status
  pub updated : next.updated_at ≡ i.received_at
  pub dated :
      ((c.status ≡ provisional)
        × (next.provisional_at ≡ i.received_at)
        × (next.finalized_at ≡ current.finalized_at))
      ⊎ ((c.status ≡ final)
          × (next.provisional_at ≡ current.provisional_at)
          × (next.finalized_at ≡ i.received_at))

-- What the accounting is asked to book.
pub record IsAsked (i : Ingress) (c : Callback) (current next : Intent) (t : Transition)
    : Type 0 where
  pub payment : t.payment ≡ next
  pub before : t.before_status ≡ current.status
  pub later : t.after_status ≡ c.status
  pub event : t.provider_event_id ≡ c.provider_event_id
  pub evidence : t.evidence_hash ≡ c.evidence_hash
  pub received : t.received_at ≡ i.received_at

-- The payment is moved and the event is stored with the answer.
pub record IsBooked {W : Type 0} (i : Ingress) (c : Callback) (next : Intent)
    (journals : List String) (w : W) (o : Orchestrator W) (r : Answer × Orchestrator W)
    : Type 0 where
  pub result : CallbackResult
  pub answer : r.0 ≡ answered result none
  pub of_payment : result.payment ≡ next
  pub of_journals : result.journal_ids ≡ journals
  pub first : result.replayed ≡ false
  pub payments : r.1.payments ≡ insert c.payment_id next o.payments
  pub stored :
      lookup (event_key i.provider_id i.provider_event_id) r.1.events
      ≡ some record { raw_hash = i.raw_hash; result = result; error = none }
  pub world : r.1.world ≡ w

module _ {W : Type 0} (s : Services W) where
  -- A callback that is due: either the accounting refuses, and nothing but its own state changes, or
  -- the payment moves and the event is stored.
  abbrev pub Outcome :
      Ingress → Callback → Intent → Orchestrator W → Answer × Orchestrator W → Type 0
  Outcome i c current o r =
      (next : Intent) × (t : Transition) × IsMoved i c current next
      × IsAsked i c current next t
      × (((text : String) × ((s.apply t o.world).0 ≡ err text)
            × (r ≡ (refused accounting_failed, record o { world = (s.apply t o.world).1 })))
          ⊎ ((journals : List String) × ((s.apply t o.world).0 ≡ ok journals)
              × IsBooked i c next journals (s.apply t o.world).1 o r))

same_bytes_lem : (xs ys : Bytes) → same_bytes xs ys ≡ true → xs ≡ ys
unfolding same_bytes
same_bytes_lem [] [] h = refl
same_bytes_lem [] (y ∷ ys) h = absurd cc
same_bytes_lem (x ∷ xs) [] h = absurd cc
same_bytes_lem (x ∷ xs) (y ∷ ys) h =
    let two : (x ≡ y) × (same_bytes xs ys ≡ true) = ground arith in
    let rest = same_bytes_lem xs ys two.1 in cc

same_bytes_refl : (xs : Bytes) → same_bytes xs xs ≡ true
unfolding same_bytes
same_bytes_refl [] = refl
same_bytes_refl (x ∷ xs) = ground (arith, same_bytes_refl xs)

decode-encodes :
    (k : Codec) (c : Callback) (raw : Bytes)
    → decode_callback k raw ≡ some c
    → encode_callback k c ≡ some raw
unfolding decode_callback
decode-encodes k c raw h = elim (Option-cases (k.unmarshal raw)) [
  | inl e ↦ absurd (ground arith)
  | inr (d, e) ↦ elim (Option-cases (encode_callback k d)) [
    | inl q ↦ absurd (ground arith)
    | inr (canonical, q) ↦
        let both : (d ≡ c) × (same_bytes canonical raw ≡ true) = ground arith in
        ap (encode_callback k) (sym both.0) ∙ q ∙ ap some (same_bytes_lem canonical raw both.1)
  ]
]

encode-decodes :
    (k : Codec) (c : Callback) (raw : Bytes)
    → (k.marshal c ≡ some raw → k.unmarshal raw ≡ some c)
    → encode_callback k c ≡ some raw
    → decode_callback k raw ≡ some c
encode-decodes k c raw reads h =
    let written : k.marshal c ≡ some raw = unfold encode_callback in ground arith in
    let e = reads written in
    let same = same_bytes_refl raw in unfold decode_callback in ground arith

-- Bytes decode to a callback just where the callback encodes to those bytes, provided that
-- encoding/json reads back the callback it has written.
pub decode_callback-encode :
    (k : Codec) (c : Callback) (raw : Bytes)
    → (k.marshal c ≡ some raw → k.unmarshal raw ≡ some c)
    → (decode_callback k raw ≡ some c) ↔ (encode_callback k c ≡ some raw)
decode_callback-encode k c raw reads = (decode-encodes k c raw, encode-decodes k c raw reads)
