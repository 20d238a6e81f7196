-- ===== src/Payment/Repeats.antt =====
-- A callback that has been answered and comes again, whatever calls are made in between.
use unified.Base.{
  String, ◌≡◌, refl, sym, ap, ◌∙◌, ◌≢◌, ◌⊎◌, inl, inr, true, false, Option, none, some, List, arith,
  Option-cases, Dict, lookup, Time, is_zero, after,
}
use unified.Payment.{
  Services, Codec, Orchestrator, Intent, event_key, Answer, Bytes, Callback, CallbackResult,
  PaymentError, StoredEvent, ingest_callback, ingress_of, Ingress, retain, receive, answered,
  refused, decode_callback, refresh_canonical_consumptions, Effect, reject, quarantined,
  callback_conflict, Provider,
}
use unified.Payment.Answered.{IsAnswered, receive-IsAnswered, receive-stored, ingest-answered}
use unified.Payment.Events.{replayed}
use mathlib.Core.Path.{subst}
use unified.Payment.Growth.{Replaces, Grows, Grows-trans, refresh-Leaves}
use unified.Payment.History.{Call, after_calls}
use unified.Payment.Intake.{after_calls-Stands}
use unified.Payment.Keeping.{refresh-world}
use unified.Payment.Reaction.{refresh-payments}

module _ {W : Type 0} (s : Services W) (k : Codec) where
  -- What a call with a callback does whose event has been stored before, from the state after the
  -- refresh: it is answered with what is stored now, or refused because its bytes are others.
  abbrev pub Repeats :
      StoredEvent → String → Ingress → Bytes → Effect W → Answer × Orchestrator W → Type 0
  Repeats first key j raw refreshed r =
      ((e : PaymentError) × (refreshed.0 ≡ some e) × (r ≡ (refused e, refreshed.1)))
      ⊎ ((e : StoredEvent) × (refreshed.0 ≡ none)
          × (lookup key refreshed.1.events ≡ some e)
          × ((e ≡ first) ⊎ Replaces e)
          × (((e.raw_hash ≡ j.raw_hash)
                × (r ≡ (
                  answered record e.result { replayed = true } e.error,
                  retain s k j raw refreshed.1,
                )))
              ⊎ ((e.raw_hash ≢ j.raw_hash)
                  × (c : Callback) × (r
                      ≡ reject j c "CALLBACK_EVENT_CONFLICT" callback_conflict
                          (retain s k j raw refreshed.1)))))

  -- The answer to the callback is stored under its event.
  abbrev pub StoresAnswer :
      StoredEvent → String → Bytes → CallbackResult → Option PaymentError → Orchestrator W → Type 0
  StoresAnswer e key raw result error o =
      (lookup key o.events ≡ some e)
      × (e.raw_hash ≡ k.hash_bytes raw)
      × (answered record e.result { replayed = true } e.error
          ≡ answered record result { replayed = true } error)

  Repeats-keeps :
      (first : StoredEvent) (key : String) (j : Ingress) (raw : Bytes) (o : Orchestrator W)
      (r : Answer × Orchestrator W)
      → Repeats first key j raw (refresh_canonical_consumptions s o) r
      → (r.1.payments ≡ o.payments) × (r.1.world ≡ o.world)
  Repeats-keeps first key j raw o r h =
      let pays = refresh-payments s o in
      let world = refresh-world s o in
      elim h [
        | inl (e, f, q) ↦ (ap (λ x. x.1.payments) q ∙ pays, ap (λ x. x.1.world) q ∙ world)
        | inr (e, f, known, way, inl (same, q)) ↦ (
          ap (λ x. x.1.payments) q ∙ unfold retain in pays,
          ap (λ x. x.1.world) q ∙ unfold retain in world,
        )
        | inr (e, f, known, way, inr (other, c, q)) ↦ (
          ap (λ x. x.1.payments) q ∙ unfold reject quarantined retain in pays,
          ap (λ x. x.1.world) q ∙ unfold reject quarantined retain in world,
        )
      ]

  -- A call with a callback whose event is stored.
  ingest-Repeats :
      (id event : String) (raw signature : Bytes) (later : Time) (i : Ingress)
      (o1 : Answer × Orchestrator W) (m : Dict Provider) (o : Orchestrator W)
      → id ≡ i.provider_id
      → event ≡ i.provider_event_id
      → (known : IsAnswered s k i raw signature m o1)
      → after later known.callback.expires_at ≡ false
      → is_zero later ≡ false
      → o.providers ≡ m
      → Grows o1.1.events o.events
      → Repeats known.event
          (event_key i.provider_id i.provider_event_id)
          (ingress_of s k id event raw signature later (refresh_canonical_consumptions s o).1)
          raw
          (refresh_canonical_consumptions s o)
          (ingest_callback s k id event raw signature later o)
  ingest-Repeats id event raw signature later i o1 m o ep ee known fresh timed same grown =
      let o' = (refresh_canonical_consumptions s o).1 in
      let j = ingress_of s k id event raw signature later o' in
      let left = refresh-Leaves s o in
      let (e', found', way) =
        Grows-trans o1.1.events o.events o'.events grown left.grown
          (event_key i.provider_id i.provider_event_id) known.event known.stored in
      elim (Option-cases (refresh_canonical_consumptions s o).0) [
        | inr (x, q) ↦ inl (x, q, unfold ingest_callback in ground arith)
        | inl q ↦
            let whole : ingest_callback s k id event raw signature later o
                ≡ receive s k j raw signature o' =
              unfold ingest_callback in ground arith in
            inr (
              e',
              q,
              found',
              way,
              elim (receive-stored s k i j raw signature m known.provider known.callback e' o'
                  (unfold ingress_of in ep) (unfold ingress_of in ee) known.authentic
                  (unfold ingress_of in fresh) known.addressed known.enveloped
                  (left.same_providers ∙ same) found') [
                    | inl (h, w) ↦ inl (h, whole ∙ w)
                    | inr (h, w) ↦ inr (h, known.callback, whole ∙ w)
                  ],
            )
      ]

  abbrev pub IsRepeat :
      StoredEvent → String → String → Bytes → Bytes → Time → Orchestrator W → Type 0
  IsRepeat first id event raw signature later o =
      (((ingest_callback s k id event raw signature later o).1.payments ≡ o.payments)
        × ((ingest_callback s k id event raw signature later o).1.world ≡ o.world))
      × Repeats first (event_key id event)
          (ingress_of s k id event raw signature later (refresh_canonical_consumptions s o).1) raw
          (refresh_canonical_consumptions s o) (ingest_callback s k id event raw signature later o)

  -- A callback that has been answered has its answer stored, and when it comes again, after any calls
  -- and before it expires, it moves no payment and reaches no accounting. If the refresh of the
  -- consumptions fails, it is refused with that error. If not, what is stored for its event by then is the
  -- first answer or one of the disposition REVERSED or INCIDENT that has replaced it. It is given, marked
  -- as replayed, where it is of the same bytes, and only the raw callback is added to the refreshed
  -- state; where it is of other bytes the callback is a conflict.
  pub ingest-again :
      (hash : Intent → String) (id event : String) (raw signature : Bytes) (at later : Time)
      (cs : List Call) (o : Orchestrator W) (result : CallbackResult) (error : Option PaymentError)
      → ((c : Callback) → decode_callback k raw ≡ some c → after later c.expires_at ≡ false)
      → is_zero later ≡ false
      → (ingest_callback s k id event raw signature at o).0 ≡ answered result error
      → (e : StoredEvent) × StoresAnswer e
          (event_key id event)
          raw
          result
          error
          (ingest_callback s k id event raw signature at o).1
        × IsRepeat e id event raw signature later
            (after_calls s k hash cs (ingest_callback s k id event raw signature at o).1)
  unfolding ingress_of
  ingest-again hash id event raw signature at later cs o result error fresh timed first =
      let o' = (refresh_canonical_consumptions s o).1 in
      let i = ingress_of s k id event raw signature at o' in
      let whole = ingest-answered s k id event raw signature at o result error first in
      let o1 = (ingest_callback s k id event raw signature at o).1 in
      let known =
        receive-IsAnswered s k i raw signature o' result error
          (sym (ap (λ x. x.0) whole) ∙ first) in
      let o2 = after_calls s k hash cs o1 in
      let ends : o1 ≡ (receive s k i raw signature o').1 = ap (λ x. x.1) whole in
      let stored : lookup (event_key id event) o1.events ≡ some known.event =
        ap (λ x. lookup (event_key id event) x.events) ends ∙ known.stored in
      let (same, grown) = after_calls-Stands s k hash cs o1 in
      let rep =
        ingest-Repeats id event raw signature later i _ o'.providers o2 refl refl known
          (fresh known.callback known.authentic.decoded) timed
          (same ∙ ap (λ x. x.providers) ends ∙ known.same_providers)
          (subst (λ x. Grows x.events o2.events) ends grown) in
      (
        known.event,
        (stored, known.hashed, sym known.answer ∙ ap replayed (sym (ap (λ x. x.0) whole) ∙ first)),
        (Repeats-keeps known.event _ _ raw o2 _ rep, rep),
      )
