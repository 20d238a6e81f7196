-- ===== src/Payment/Replays.antt =====
-- The authentication of a callback, and of one whose event is stored.
use unified.Base.{
  ◌≡◌, ◌≢◌, ◌⊎◌, inl, inr, true, false, ◌||◌, Option, some, arith, ltb, ◌==◌, is_empty,
  Option-cases, length, Dict, lookup, after, Bool-cases, ◌=ₛ◌, eq_of_text_eq, ne_of_text_eq,
}
use unified.Payment.{
  callback_conflict, Bytes, Provider, Callback, CallbackResult, PaymentError, StoredEvent, Services,
  Orchestrator, Answer, unauthorized_callback, invalid_callback, answered, refused,
  max_callback_bytes, event_key, Ingress, misaddressed, Codec, decode_callback, reject,
  take_callback, authenticate, retain, receive,
}

module _ {W : Type 0} (s : Services W) (k : Codec) where
  -- A callback that gets past its envelope and its signature.
  pub record IsAuthentic (i : Ingress) (raw signature : Bytes) (m : Dict Provider) (p : Provider)
      (c : Callback) : Type 0 where
    pub enrolled : lookup i.provider_id m ≡ some p
    pub active : p.active ≡ true
    pub signed : k.verify p.public_key raw signature ≡ true
    pub decoded : decode_callback k raw ≡ some c

  pub authenticate-cases :
      (i : Ingress) (raw signature : Bytes) (o : Orchestrator W)
      → ((e : PaymentError) × ((authenticate s k i raw signature o).0 ≡ refused e))
        ⊎ ((p : Provider) × (c : Callback) × IsAuthentic i raw signature o.providers p c
            × (misaddressed i p c ≡ false)
            × (authenticate s k i raw signature o ≡ take_callback s i p c o))
  authenticate-cases i raw signature o = elim (Option-cases (lookup i.provider_id o.providers)) [
    | inl q ↦ inl (unauthorized_callback, unfold authenticate reject in ground arith)
    | inr (p, q) ↦ elim (Option-cases (decode_callback k raw)) [
      | inl d ↦
          let two : ((authenticate s k i raw signature o).0 ≡ refused unauthorized_callback)
              ⊎ ((authenticate s k i raw signature o).0 ≡ refused invalid_callback) =
            unfold authenticate reject in ground arith in
          elim two [ inl e ↦ inl (unauthorized_callback, e) | inr e ↦ inl (invalid_callback, e) ]
      | inr (c, d) ↦
          let three : ((authenticate s k i raw signature o).0 ≡ refused unauthorized_callback)
              ⊎ ((authenticate s k i raw signature o).0 ≡ refused invalid_callback)
              ⊎ ((p.active ≡ true)
                  × (k.verify p.public_key raw signature ≡ true)
                  × (misaddressed i p c ≡ false)
                  × (authenticate s k i raw signature o ≡ take_callback s i p c o)) =
            unfold authenticate reject in ground arith in
          elim three [
            | inl e ↦ inl (unauthorized_callback, e)
            | inr (inl e) ↦ inl (invalid_callback, e)
            | inr (inr (a, v, b, e)) ↦
                inr (p, c, record { enrolled = q; active = a; signed = v; decoded = d }, b, e)
          ]
    ]
  ]

  -- A callback whose event is stored: what is stored answers it, if its bytes are the same.
  pub authenticate-stored :
      (i : Ingress) (raw signature : Bytes) (o : Orchestrator W) (p : Provider) (c : Callback)
      (e : StoredEvent)
      → IsAuthentic i raw signature o.providers p c
      → misaddressed i p c ≡ false
      → lookup (event_key i.provider_id i.provider_event_id) o.events ≡ some e
      → ((e.raw_hash ≡ i.raw_hash)
          × (authenticate s k i raw signature o
              ≡ (answered record e.result { replayed = true } e.error, o)))
        ⊎ ((e.raw_hash ≢ i.raw_hash)
            × (authenticate s k i raw signature o
                ≡ reject i c "CALLBACK_EVENT_CONFLICT" callback_conflict o))
  unfolding authenticate take_callback
  authenticate-stored i raw signature o p c e auth bound known =
      let q = auth.enrolled in
      let d = auth.decoded in
      let a = auth.active in
      let v = auth.signed in
      elim (Bool-cases (e.raw_hash =ₛ i.raw_hash)) [
        | inl same ↦ inl (eq_of_text_eq e.raw_hash i.raw_hash same, ground arith)
        | inr other ↦ inr (ne_of_text_eq e.raw_hash i.raw_hash other, ground arith)
      ]

  pub refused_answer :
      (e : PaymentError) (result : CallbackResult) (error : Option PaymentError) {a : Answer}
      → a ≡ refused e
      → a ≢ answered result error
  refused_answer e result error h q = cc

  pub receive-cases :
      (i : Ingress) (raw signature : Bytes) (o : Orchestrator W)
      → ((receive s k i raw signature o).0 ≡ refused invalid_callback)
        ⊎ (((is_empty i.provider_id
                || is_empty i.provider_event_id
                || (length raw == 0)
                || ltb max_callback_bytes (length raw))
              ≡ false)
            × (receive s k i raw signature o
                ≡ authenticate s k i raw signature (retain s k i raw o)))
  receive-cases i raw signature o = unfold receive reject in ground arith

  -- The envelope of a callback that has the same identity and bytes is as good.
  pub same_misaddressed :
      (i j : Ingress) (p : Provider) (c : Callback)
      → j.provider_id ≡ i.provider_id
      → j.provider_event_id ≡ i.provider_event_id
      → after j.received_at c.expires_at ≡ false
      → misaddressed i p c ≡ false
      → misaddressed j p c ≡ false
  unfolding misaddressed
  same_misaddressed i j p c ep ee fresh h = ground arith

  pub same_receive :
      (i j : Ingress) (raw signature : Bytes) (o : Orchestrator W)
      → j.provider_id ≡ i.provider_id
      → j.provider_event_id ≡ i.provider_event_id
      → (is_empty i.provider_id
          || is_empty i.provider_event_id
          || (length raw == 0)
          || ltb max_callback_bytes (length raw))
        ≡ false
      → receive s k j raw signature o ≡ authenticate s k j raw signature (retain s k j raw o)
  unfolding receive
  same_receive i j raw signature o ep ee h = ground arith
