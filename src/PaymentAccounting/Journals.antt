-- ===== src/PaymentAccounting/Journals.antt =====
-- What `Apply` keeps: the invariant of the ledger, and the answer to a transition that comes again.
use unified.Base.{
  String, ◌≡◌, refl, sym, ap, ◌∙◌, ◌⊎◌, inl, inr, true, false, Option, none, some, List, [], ◌∷◌,
  map, arith, eq_iff, ◌=ₛ◌, Option-cases, eq_of_text_eq, lookup, lookup-insert, lookup-insert_self,
  ok, Result-cases, Time,
}
use mathlib.Core.Path.{subst}
use unified.Ledger.{Journal, post_batch}
use unified.Ledger.Invariant.{IsValid}
use unified.Ledger.Batch.{post_batch-IsValid}
use unified.Ledger.Reversal.{ledger_debits, ledger_credits, accepted-balanced}
use unified.Payment.{Transition, event_key}
use unified.PaymentAccounting.{
  AccountingRecord, AppliedTransition, Poster, record_or_zero, plan, bad_transition,
  book_transition, post_plan, apply, apply_all,
}

module _ (hash : Journal → Option String) (hash_json : Transition → String) where
  post_plan-book :
      (t : Transition) (r : AccountingRecord) (js : List Journal) (now : Time) (p : Poster)
      → (post_plan hash hash_json t r js now p).1.book ≡ (post_batch hash js now p.book).1
  unfolding post_plan book_transition
  post_plan-book t r js now p = elim (Result-cases (post_batch hash js now p.book).0) [
    | inl (e, q) ↦ ground arith
    | inr (posted, q) ↦ ground arith
  ]

  apply-cases :
      (t : Transition) (now : Time) (p : Poster)
      → ((apply hash hash_json t now p).1 ≡ p)
        ⊎ ((r : AccountingRecord) × (js : List Journal) × (lookup
                (event_key t.payment.provider_id t.provider_event_id)
                p.events
              ≡ none)
            × (bad_transition t ≡ false)
            × (apply hash hash_json t now p ≡ post_plan hash hash_json t r js now p))
  unfolding apply
  apply-cases t now p =
      elim (Option-cases (lookup (event_key t.payment.provider_id t.provider_event_id) p.events)) [
        | inr (e, q) ↦ inl (ground arith)
        | inl q ↦
            elim (Result-cases
              (plan t.after_status t (record_or_zero (lookup t.payment.payment_id p.records)) p)) [
                | inl (e, f) ↦ inl (ground arith)
                | inr ((r, js), f) ↦
                    let two : ((apply hash hash_json t now p).1 ≡ p)
                        ⊎ ((bad_transition t ≡ false)
                            × (apply hash hash_json t now p
                                ≡ post_plan hash hash_json t r js now p)) =
                      ground arith in
                    elim two [ inl e ↦ inl e | inr (good, e) ↦ inr (r, js, q, good, e) ]
              ]
      ]

  -- A transition of a new event that is booked has been planned and posted.
  booked-cases :
      (t : Transition) (now : Time) (p : Poster) (ids : List String)
      → lookup (event_key t.payment.provider_id t.provider_event_id) p.events ≡ none
      → (apply hash hash_json t now p).0 ≡ ok ids
      → (r : AccountingRecord) × (js : List Journal) × (bad_transition t ≡ false)
        × (apply hash hash_json t now p ≡ post_plan hash hash_json t r js now p)
  unfolding apply
  booked-cases t now p ids free done =
      elim (Result-cases
        (plan t.after_status t (record_or_zero (lookup t.payment.payment_id p.records)) p)) [
          | inl (e, f) ↦ absurd (ground arith)
          | inr ((r, js), f) ↦ (r, js, ground arith, ground arith)
        ]

  pub apply-IsValid :
      (t : Transition) (now : Time) (p : Poster)
      → IsValid hash p.book
      → IsValid hash (apply hash hash_json t now p).1.book
  apply-IsValid t now p v = elim (apply-cases t now p) [
    | inl e ↦ subst (λ x. IsValid hash x.book) (sym e) v
    | inr (r, js, free, good, e) ↦
        subst (IsValid hash) (sym (ap (λ x. x.1.book) e ∙ post_plan-book t r js now p))
          (post_batch-IsValid hash js now p.book v)
  ]

  pub apply_all-IsValid :
      (ts : List (Transition × Time)) (p : Poster)
      → IsValid hash p.book
      → IsValid hash (apply_all hash hash_json ts p).book
  unfolding apply_all
  apply_all-IsValid [] p v = v
  apply_all-IsValid ((t, now) ∷ ts) p v =
      apply_all-IsValid ts (apply hash hash_json t now p).1 (apply-IsValid t now p v)

  -- Whatever transitions the payment ingress hands over, accepted or refused, to a poster on a valid
  -- ledger, the debits of the ledger equal its credits in every asset.
  pub apply_all-balances :
      (ts : List (Transition × Time)) (p : Poster) (asset : String)
      → IsValid hash p.book
      → ledger_debits hash asset (apply_all hash hash_json ts p).book.by_id
        ≡ ledger_credits hash asset (apply_all hash hash_json ts p).book.by_id
  apply_all-balances ts p asset v =
      accepted-balanced hash asset (apply_all hash hash_json ts p).book.by_id
        (apply_all-IsValid ts p v).accepted

  -- The answer of a transition whose event is known does not depend on the time, and writes nothing.
  known-apply :
      (t : Transition) (now later : Time) (p : Poster) (e : AppliedTransition)
      → lookup (event_key t.payment.provider_id t.provider_event_id) p.events ≡ some e
      → ((apply hash hash_json t now p).1 ≡ p)
        × (apply hash hash_json t later p ≡ apply hash hash_json t now p)
  unfolding apply
  known-apply t now later p e known = ground arith

  post_plan-stores :
      (t : Transition) (r : AccountingRecord) (js : List Journal) (now : Time) (p : Poster)
      (ids : List String)
      → (post_plan hash hash_json t r js now p).0 ≡ ok ids
      → lookup
          (event_key t.payment.provider_id t.provider_event_id)
          (post_plan hash hash_json t r js now p).1.events
        ≡ some record { content_hash = hash_json t; journal_ids = ids }
  unfolding post_plan book_transition
  post_plan-stores t r js now p ids done = elim (Result-cases (post_batch hash js now p.book).0) [
    | inl (e, q) ↦ absurd (ground arith)
    | inr (posted, q) ↦ ground (
      arith,
      lookup-insert_self (event_key t.payment.provider_id t.provider_event_id)
          record { content_hash = hash_json t; journal_ids = ids } p.events,
    )
  ]

  stored-apply :
      (t : Transition) (later : Time) (p : Poster) (ids : List String) (e : AppliedTransition)
      → bad_transition t ≡ false
      → lookup (event_key t.payment.provider_id t.provider_event_id) p.events ≡ some e
      → e.content_hash ≡ hash_json t
      → e.journal_ids ≡ ids
      → apply hash hash_json t later p ≡ (ok ids, p)
  unfolding apply
  stored-apply t later p ids e good known content same =
      ground (arith, eq_iff e.content_hash (hash_json t))

  known-answer :
      (t : Transition) (now : Time) (p : Poster) (ids : List String) (e : AppliedTransition)
      → lookup (event_key t.payment.provider_id t.provider_event_id) p.events ≡ some e
      → (apply hash hash_json t now p).0 ≡ ok ids
      → (bad_transition t ≡ false) × (e.content_hash ≡ hash_json t) × (e.journal_ids ≡ ids)
  unfolding apply
  known-answer t now p ids e known done =
      let three : (bad_transition t ≡ false)
          × ((e.content_hash =ₛ hash_json t) ≡ true)
          × (e.journal_ids ≡ ids) =
        ground arith in
      (three.0, eq_of_text_eq e.content_hash (hash_json t) three.1, three.2)

  -- What a booking has stored of a transition.
  abbrev Remembers : Transition → List String → Poster → Type 0
  Remembers t ids p =
      (e : AppliedTransition) × (lookup (event_key t.payment.provider_id t.provider_event_id)
          p.events
        ≡ some e)
      × (bad_transition t ≡ false)
      × (e.content_hash ≡ hash_json t)
      × (e.journal_ids ≡ ids)

  post_plan-keeps :
      (u : Transition) (r : AccountingRecord) (js : List Journal) (now : Time) (p : Poster)
      (key : String) (e : AppliedTransition)
      → lookup key p.events ≡ some e
      → lookup (event_key u.payment.provider_id u.provider_event_id) p.events ≡ none
      → lookup key (post_plan hash hash_json u r js now p).1.events ≡ some e
  unfolding post_plan book_transition
  post_plan-keeps u r js now p key e known free =
      let other = event_key u.payment.provider_id u.provider_event_id in
      elim (Result-cases (post_batch hash js now p.book).0) [
        | inl (x, q) ↦ ground arith
        | inr (posted, q) ↦ ground (
          arith,
          lookup-insert other key
              record { content_hash = hash_json u; journal_ids = map (λ x. x.journal.id) posted }
              p.events,
          eq_iff other key,
        )
      ]

  apply-keeps :
      (u : Transition) (now : Time) (p : Poster) (key : String) (e : AppliedTransition)
      → lookup key p.events ≡ some e
      → lookup key (apply hash hash_json u now p).1.events ≡ some e
  apply-keeps u now p key e known = elim (apply-cases u now p) [
    | inl q ↦ ap (λ x. lookup key x.events) q ∙ known
    | inr (r, js, free, good, q) ↦
        ap (λ x. lookup key x.1.events) q ∙ post_plan-keeps u r js now p key e known free
  ]

  apply_all-keeps :
      (ts : List (Transition × Time)) (p : Poster) (key : String) (e : AppliedTransition)
      → lookup key p.events ≡ some e
      → lookup key (apply_all hash hash_json ts p).events ≡ some e
  unfolding apply_all
  apply_all-keeps [] p key e known = known
  apply_all-keeps ((u, now) ∷ ts) p key e known =
      apply_all-keeps ts (apply hash hash_json u now p).1 key e (apply-keeps u now p key e known)

  -- An answer without an error leaves its transition stored.
  apply-Remembers :
      (t : Transition) (now : Time) (p : Poster) (ids : List String)
      → (apply hash hash_json t now p).0 ≡ ok ids
      → Remembers t ids (apply hash hash_json t now p).1
  apply-Remembers t now p ids done =
      let key = event_key t.payment.provider_id t.provider_event_id in
      elim (Option-cases (lookup key p.events)) [
        | inr (e, known) ↦
            let (good, content, same) = known-answer t now p ids e known done in
            let (kept, again) = known-apply t now now p e known in
            (e, ap (λ x. lookup key x.events) kept ∙ known, good, content, same)
        | inl free ↦
            let (r, js, good, q) = booked-cases t now p ids free done in
            let stored =
              ap (λ x. lookup key x.1.events) q
              ∙ post_plan-stores t r js now p ids (sym (ap (λ x. x.0) q) ∙ done) in
            (record { content_hash = hash_json t; journal_ids = ids }, stored, good, refl, refl)
      ]

  -- A transition that was booked and comes again, after any other transitions, is answered with the
  -- same journals, and books nothing.
  pub apply-again :
      (t : Transition) (ts : List (Transition × Time)) (now later : Time) (p : Poster)
      (ids : List String)
      → (apply hash hash_json t now p).0 ≡ ok ids
      → let after = apply_all hash hash_json ts (apply hash hash_json t now p).1 in
        apply hash hash_json t later after ≡ (ok ids, after)
  apply-again t ts now later p ids done =
      let (e, known, good, content, same) = apply-Remembers t now p ids done in
      let key = event_key t.payment.provider_id t.provider_event_id in
      stored-apply t later (apply_all hash hash_json ts (apply hash hash_json t now p).1) ids e good
        (apply_all-keeps ts (apply hash hash_json t now p).1 key e known) content same
