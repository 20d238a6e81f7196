-- ===== src/PaymentAccounting/Unwinding.antt =====
-- The journals of a reversal undo those of the payment, account by account.
use unified.Base.{
  suc, String, ◌≡◌, refl, sym, ap, ◌∙◌, ◌⊎◌, inl, inr, true, Option, some, List, [], ◌∷◌, arith,
  Option-cases, length, ok, Result-cases,
}
use mathlib.Core.Path.{subst}
use unified.Ledger.{Journal, PostedJournal, get}
use unified.Ledger.Balance.{validate_sound, validate_and_hash-validate}
use unified.Ledger.Invariant.{IsValid}
use unified.Ledger.Reversal.{flip_entry-account}
use unified.Ledger.Accounts.{entries_of, Undoes, append-Undoes}
use unified.Payment.{Transition, Status, same_status, same_status_lem, provisional, final, reversed}
use unified.PaymentAccounting.{
  AccountingRecord, Poster, journal, reversal_of_payment, reversal_journals, reversal_targets, plan,
}

reversal_journals-cons :
    (t : Transition) (id : String) (ids : List String) (js : List Journal) (p : Poster)
    → reversal_journals t (id ∷ ids) p ≡ ok js
    → (o : PostedJournal) × (rest : List Journal) × (get id p.book ≡ some o)
      × (reversal_journals t ids p ≡ ok rest)
      × (js ≡ reversal_of_payment t o p ∷ rest)
unfolding reversal_journals
reversal_journals-cons t id ids js p h = elim (Option-cases (get id p.book)) [
  | inl q ↦ absurd (ground arith)
  | inr (o, q) ↦ elim (Result-cases (reversal_journals t ids p)) [
    | inl (e, f) ↦ absurd (ground arith)
    | inr (rest, f) ↦ (o, rest, q, f, ground arith)
  ]
]

reversal_journals-nil :
    (t : Transition) (js : List Journal) (p : Poster) → reversal_journals t [] p ≡ ok js → js ≡ []
unfolding reversal_journals
reversal_journals-nil t js p h = ground arith

-- A reversal that is planned is of a payment that is provisional or final.
reversed-plan :
    (t : Transition) (r r' : AccountingRecord) (js : List Journal) (p : Poster)
    → plan reversed t r p ≡ ok (r', js)
    → (reversal_journals t (reversal_targets t.before_status r) p ≡ ok js)
      × ((same_status t.before_status provisional ≡ true)
          ⊎ (same_status t.before_status final ≡ true))
unfolding plan
reversed-plan t r r' js p h =
    elim (Result-cases (reversal_journals t (reversal_targets t.before_status r) p)) [
      | inl (e, f) ↦ absurd (ground arith)
      | inr (rest, f) ↦ ground arith
    ]

targets-of :
    (t : Transition) (r : AccountingRecord) (js : List Journal) (p : Poster) (st : Status)
    → t.before_status ≡ st
    → reversal_journals t (reversal_targets t.before_status r) p ≡ ok js
    → reversal_journals t (reversal_targets st r) p ≡ ok js
targets-of t r js p st from made =
    ap (λ x. reversal_journals t (reversal_targets x r) p) (sym from) ∙ made

module _ (hash : Journal → Option String) where
  reversed-Undoes :
      (t : Transition) (id : String) (o : PostedJournal) (p : Poster)
      → IsValid hash p.book
      → get id p.book ≡ some o
      → Undoes (reversal_of_payment t o p).entries o.journal.entries
  unfolding reversal_of_payment journal
  reversed-Undoes t id o p v found account asset =
      flip_entry-account account asset o.journal.entries
        (validate_sound o.journal (
          validate_and_hash-validate hash o.journal
            (v.filed id o (unfold get in found)).checked)).entries_ok

  one_undone :
      (t : Transition) (id : String) (js : List Journal) (p : Poster)
      → IsValid hash p.book
      → reversal_journals t (id ∷ []) p ≡ ok js
      → (o : PostedJournal) × (get id p.book ≡ some o)
        × (length js ≡ 1)
        × Undoes (entries_of js) (entries_of (o.journal ∷ []))
  one_undone t id js p v planned =
      let (o, rest, found, planned_rest, all) = reversal_journals-cons t id [] js p planned in
      let ends =
        all
        ∙ ap (λ x. reversal_of_payment t o p ∷ x) (reversal_journals-nil t rest p planned_rest) in
      (
        o,
        found,
        ap length ends,
        subst (λ x. Undoes (entries_of x) (entries_of (o.journal ∷ []))) (sym ends)
            (append-Undoes (reversal_of_payment t o p).entries [] o.journal.entries []
              (reversed-Undoes t id o p v found) (λ account asset. (refl, refl))),
      )

  two_undone :
      (t : Transition) (id id' : String) (js : List Journal) (p : Poster)
      → IsValid hash p.book
      → reversal_journals t (id ∷ id' ∷ []) p ≡ ok js
      → (o o' : PostedJournal) × (get id p.book ≡ some o)
        × (get id' p.book ≡ some o')
        × (length js ≡ 2)
        × Undoes (entries_of js) (entries_of (o.journal ∷ o'.journal ∷ []))
  two_undone t id id' js p v planned =
      let (o, rest, found, planned_rest, all) =
        reversal_journals-cons t id (id' ∷ []) js p planned in
      let (o', found', one, undone) = one_undone t id' rest p v planned_rest in
      (
        o,
        o',
        found,
        found',
        ap length all ∙ ap suc one,
        subst (λ x. Undoes (entries_of x) (entries_of (o.journal ∷ o'.journal ∷ []))) (sym all)
            (append-Undoes (reversal_of_payment t o p).entries (entries_of rest) o.journal.entries
              (entries_of (o'.journal ∷ [])) (reversed-Undoes t id o p v found) undone),
      )

  -- The journals that are planned for a reversal undo what is booked of the payment, in every account
  -- and asset: the one journal of a provisional payment, both journals of a final one.
  pub plan-Undoes :
      (t : Transition) (r r' : AccountingRecord) (js : List Journal) (p : Poster)
      → IsValid hash p.book
      → t.after_status ≡ reversed
      → plan t.after_status t r p ≡ ok (r', js)
      → (pays : PostedJournal) × (get r.provisional_journal_id p.book ≡ some pays)
        × (((t.before_status ≡ provisional)
              × (length js ≡ 1)
              × Undoes (entries_of js) (entries_of (pays.journal ∷ [])))
            ⊎ ((settles : PostedJournal) × (get r.final_journal_id p.book ≡ some settles)
                × (t.before_status ≡ final)
                × (length js ≡ 2)
                × Undoes (entries_of js) (entries_of (settles.journal ∷ pays.journal ∷ []))))
  plan-Undoes t r r' js p v is_reversal planned =
      let (made, way) =
        reversed-plan t r r' js p (ap (λ x. plan x t r p) (sym is_reversal) ∙ planned) in
      elim way [
        | inl h ↦
            let from = same_status_lem t.before_status provisional h in
            let (o, found, one, undone) =
              one_undone t r.provisional_journal_id js p v
                (unfold reversal_targets in targets-of t r js p provisional from made) in
            (o, found, inl (from, one, undone))
        | inr h ↦
            let from = same_status_lem t.before_status final h in
            let (o, o', found, found', two, undone) =
              two_undone t r.final_journal_id r.provisional_journal_id js p v
                (unfold reversal_targets in targets-of t r js p final from made) in
            (o', found', inr (o, found, from, two, undone))
      ]
