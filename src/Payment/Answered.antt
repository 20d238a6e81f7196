-- ===== src/Payment/Answered.antt =====
-- A callback that has been answered, and the same callback where its event is stored.
use unified.Base.{
  String, ◌≡◌, refl, ap, ◌∙◌, ◌≢◌, ◌⊎◌, inl, inr, true, false, ◌||◌, Option, some, arith, ltb, ◌==◌,
  is_empty, Bool-cases, Option-cases, length, Dict, lookup, Time, is_zero, after,
}
use mathlib.Core.Path.{subst}
use unified.Payment.{
  Services, Codec, Orchestrator, event_key, Answer, Bytes, Provider, Callback, CallbackResult,
  PaymentError, StoredEvent, ingest_callback, ingress_of, Ingress, retain, receive, misaddressed,
  answered, refused, refresh_canonical_consumptions, max_callback_bytes, reject, callback_conflict,
  invalid_callback,
}
use unified.Payment.Events.{replayed, take-Keeps}
use unified.Payment.Replays.{
  IsAuthentic, authenticate-cases, receive-cases, same_misaddressed, same_receive, refused_answer,
  authenticate-stored,
}

module _ {W : Type 0} (s : Services W) (k : Codec) where
  -- What is known of a callback that has been answered: who sent it, and what is stored of it.
  pub record IsAnswered (i : Ingress) (raw signature : Bytes) (m : Dict Provider)
      (r : Answer × Orchestrator W) : Type 0 where
    pub provider : Provider
    pub callback : Callback
    pub event : StoredEvent
    pub authentic : IsAuthentic s k i raw signature m provider callback
    pub addressed : misaddressed i provider callback ≡ false
    pub enveloped :
        (is_empty i.provider_id
          || is_empty i.provider_event_id
          || (length raw == 0)
          || ltb max_callback_bytes (length raw))
        ≡ false
    pub same_providers : r.1.providers ≡ m
    pub stored : lookup (event_key i.provider_id i.provider_event_id) r.1.events ≡ some event
    pub hashed : event.raw_hash ≡ i.raw_hash
    pub answer : replayed r.0 ≡ answered record event.result { replayed = true } event.error

  pub receive-IsAnswered :
      (i : Ingress) (raw signature : Bytes) (o : Orchestrator W) (result : CallbackResult)
      (error : Option PaymentError)
      → (receive s k i raw signature o).0 ≡ answered result error
      → IsAnswered i raw signature o.providers (receive s k i raw signature o)
  receive-IsAnswered i raw signature o result error first =
      elim (receive-cases s k i raw signature o) [
        | inl e ↦ absurd (refused_answer s k _ _ _ e first)
        | inr (envelope, e) ↦ elim (authenticate-cases s k i raw signature (retain s k i raw o)) [
          | inl (x, q) ↦ absurd (refused_answer s k x _ _ (ap (λ x. x.0) e ∙ q) first)
          | inr (p, c, auth, bound, q) ↦
              let all = e ∙ q in
              elim (take-Keeps s i p c (retain s k i raw o)) [
                | inl (x, f) ↦ absurd (refused_answer s k x _ _ (ap (λ x. x.0) all ∙ f) first)
                | inr (ev, known, hash, rep, same) ↦
                    let key = event_key i.provider_id i.provider_event_id in
                    let kept : (retain s k i raw o).providers ≡ o.providers =
                      unfold retain in refl in
                    record {
                      provider = p;
                      callback = c;
                      event = ev;
                      authentic = subst (λ m. IsAuthentic s k i raw signature m p c) kept auth;
                      addressed = bound;
                      enveloped = envelope;
                      same_providers = ap (λ x. x.1.providers) all ∙ same ∙ kept;
                      stored = ap (λ x. lookup key x.1.events) all ∙ known;
                      hashed = hash;
                      answer = ap (λ x. replayed x.0) all ∙ rep;
                    }
              ]
        ]
      ]

  -- The same callback at a later ingress, where its event is stored.
  pub receive-stored :
      (i j : Ingress) (raw signature : Bytes) (m : Dict Provider) (p : Provider) (c : Callback)
      (e : StoredEvent) (o : Orchestrator W)
      → j.provider_id ≡ i.provider_id
      → j.provider_event_id ≡ i.provider_event_id
      → IsAuthentic s k i raw signature m p c
      → after j.received_at c.expires_at ≡ false
      → misaddressed i p c ≡ false
      → (is_empty i.provider_id
          || is_empty i.provider_event_id
          || (length raw == 0)
          || ltb max_callback_bytes (length raw))
        ≡ false
      → o.providers ≡ m
      → lookup (event_key i.provider_id i.provider_event_id) o.events ≡ some e
      → ((e.raw_hash ≡ j.raw_hash)
          × (receive s k j raw signature o
              ≡ (answered record e.result { replayed = true } e.error, retain s k j raw o)))
        ⊎ ((e.raw_hash ≢ j.raw_hash)
            × (receive s k j raw signature o
                ≡ reject j c "CALLBACK_EVENT_CONFLICT" callback_conflict (retain s k j raw o)))
  receive-stored i j raw signature m p c e o ep ee auth fresh bound envelope same known =
      let o' = retain s k j raw o in
      let kept : o'.providers ≡ o.providers = unfold retain in refl in
      let held : o'.events ≡ o.events = unfold retain in refl in
      let key : event_key j.provider_id j.provider_event_id
          ≡ event_key i.provider_id i.provider_event_id =
        ap (λ x. event_key x j.provider_event_id) ep ∙ ap (event_key i.provider_id) ee in
      let whole = same_receive s k i j raw signature o ep ee envelope in
      let later : IsAuthentic s k j raw signature o'.providers p c = record {
        enrolled =
            ap (λ x. lookup x o'.providers) ep
            ∙ ap (lookup i.provider_id) (kept ∙ same)
            ∙ auth.enrolled;
        active = auth.active;
        signed = auth.signed;
        decoded = auth.decoded;
      } in
      elim (authenticate-stored s k j raw signature o' p c e later
        (same_misaddressed s k i j p c ep ee fresh bound)
        (ap (λ x. lookup x o'.events) key
          ∙ ap (lookup (event_key i.provider_id i.provider_event_id)) held
          ∙ known)) [ inl (h, q) ↦ inl (h, whole ∙ q) | inr (h, q) ↦ inr (h, whole ∙ q) ]

  -- A call that answers has passed the refresh and answered the callback in the refreshed state.
  pub ingest-answered :
      (id event : String) (raw signature : Bytes) (at : Time) (o : Orchestrator W)
      (result : CallbackResult) (error : Option PaymentError)
      → (ingest_callback s k id event raw signature at o).0 ≡ answered result error
      → ingest_callback s k id event raw signature at o
        ≡ receive s k
            (ingress_of s k id event raw signature at (refresh_canonical_consumptions s o).1)
            raw
            signature
            (refresh_canonical_consumptions s o).1
  ingest-answered id event raw signature at o result error first = elim (Bool-cases (is_zero at)) [
    | inl z ↦
        let no_answer : (ingest_callback s k id event raw signature at o).0
            ≡ refused invalid_callback =
          unfold ingest_callback in ground arith in
        absurd (refused_answer s k _ _ _ no_answer first)
    | inr z ↦ elim (Option-cases (refresh_canonical_consumptions s o).0) [
      | inl e ↦ unfold ingest_callback in ground arith
      | inr (x, e) ↦
          let no_answer : (ingest_callback s k id event raw signature at o).0 ≡ refused x =
            unfold ingest_callback in ground arith in
          absurd (refused_answer s k _ _ _ no_answer first)
    ]
  ]
