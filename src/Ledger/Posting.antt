-- ===== src/Ledger/Posting.antt =====
-- `Post` of services/foundation-ledger/internal/ledger/ledger.go.
use unified.Base.{
  ◌≡◌, refl, ◌≢◌, ◌⊎◌, inl, inr, String, true, false, Option, none, some, lookup, contains, Result,
  ok, err, Bool-cases, Option-cases, Result-cases, eq_of_text_eq, is_empty, ◌=ₛ◌, arith, eq_iff,
  Time,
}
use unified.Ledger.{
  Journal, PostedJournal, Ledger, LedgerError, idempotency_conflict, scope, commit, check_reversal,
  validate_and_hash, post_fresh, post_validated, post, posted_or_zero, invalid_journal,
}
use unified.Ledger.Invariant.{IsValid, IsFresh, commit-IsValid, commit-by_id}

abbrev pub posted_as : Journal → String → Time → PostedJournal
posted_as j content_hash now = record { journal = j; content_hash = content_hash; posted_at = now }

module _ (hash : Journal → Option String) where
  -- How `postValidated` ends: with an error and nothing written, with the journal that owns the
  -- scope, whose content is the same, or with a fresh journal written.
  pub data Outcome (j : Journal) (h : String) (now : Time) (l : Ledger)
      : Result LedgerError PostedJournal × Ledger → Type 0 where
    refused : (e : LedgerError) → Outcome j h now l (err e, l)
    replayed :
        (id : String) (p : PostedJournal)
        → lookup (scope j) l.idempotency ≡ some id
        → lookup id l.by_id ≡ some p
        → p.content_hash ≡ h
        → Outcome j h now l (ok p, l)
    written :
        IsFresh hash (posted_as j h now) l
        → Outcome j h now l (ok (posted_as j h now), commit (posted_as j h now) l)

  check_reversal-free :
      (j : Journal) (l : Ledger)
      → check_reversal j l ≡ ok tt
      → is_empty j.reversal_of ≡ false
      → (contains j.reversal_of l.by_id ≡ true) × (lookup j.reversal_of l.reversals ≡ none)
  unfolding check_reversal
  check_reversal-free j l h r = ground arith

  fresh :
      (j : Journal) (h : String) (now : Time) (l : Ledger)
      → validate_and_hash hash j ≡ ok h
      → lookup (scope j) l.idempotency ≡ none
      → lookup j.id l.by_id ≡ none
      → check_reversal j l ≡ ok tt
      → IsFresh hash (posted_as j h now) l
  fresh j h now l valid unused new_id rev = record {
    accepted = valid;
    new_id = new_id;
    new_scope = unused;
    target_known = λ r. (check_reversal-free j l rev r).0;
    target_free = λ r. (check_reversal-free j l rev r).1;
  }

  post_fresh-Outcome :
      (j : Journal) (h : String) (now : Time) (l : Ledger)
      → validate_and_hash hash j ≡ ok h
      → lookup (scope j) l.idempotency ≡ none
      → Outcome j h now l (post_fresh j h now l)
  post_fresh-Outcome j h now l valid unused = elim (Option-cases (lookup j.id l.by_id)) [
    | inr (p, taken) ↦
        let q : post_fresh j h now l ≡ (err invalid_journal, l) =
          unfold post_fresh in ground arith in
        rw q (Outcome.refused invalid_journal)
    | inl new_id ↦ elim (Result-cases (check_reversal j l)) [
      | inl (e, bad) ↦
          let q : post_fresh j h now l ≡ (err e, l) = unfold post_fresh in ground arith in
          rw q (Outcome.refused e)
      | inr (u, good) ↦
          let p = posted_as j h now in
          let q : post_fresh j h now l ≡ (ok p, commit p l) = unfold post_fresh in ground arith in
          rw q (Outcome.written (fresh j h now l valid unused new_id good))
    ]
  ]

  pub post_validated-Outcome :
      (j : Journal) (h : String) (now : Time) (l : Ledger)
      → IsValid hash l
      → validate_and_hash hash j ≡ ok h
      → Outcome j h now l (post_validated j h now l)
  post_validated-Outcome j h now l v valid = elim (Option-cases (lookup (scope j) l.idempotency)) [
    | inl unused ↦
        let q : post_validated j h now l ≡ post_fresh j h now l =
          unfold post_validated in ground arith in
        rw q (post_fresh-Outcome j h now l valid unused)
    | inr (id, owned) ↦
        let (p, found, same_scope) = v.scopes (scope j) id owned in
        elim (Bool-cases (p.content_hash =ₛ h)) [
          | inl same ↦
              let q : post_validated j h now l ≡ (ok p, l) =
                unfold post_validated posted_or_zero in ground arith in
              rw q (Outcome.replayed id p owned found (eq_of_text_eq p.content_hash h same))
          | inr differs ↦
              let q : post_validated j h now l ≡ (err idempotency_conflict, l) =
                unfold post_validated posted_or_zero in ground arith in
              rw q (Outcome.refused idempotency_conflict)
        ]
  ]

  pub Outcome-IsValid :
      {j : Journal} {h : String} {now : Time} {l : Ledger}
      {r : Result LedgerError PostedJournal × Ledger}
      → IsValid hash l
      → Outcome j h now l r
      → IsValid hash r.1
  Outcome-IsValid v (Outcome.refused e) = v
  Outcome-IsValid v (Outcome.replayed id p owned found same) = v
  Outcome-IsValid {l = l} v (Outcome.written f) = commit-IsValid hash _ l f v

  -- `Post` either refuses the journal before it looks at the ledger, or posts it as validated.
  pub post_cases :
      (j : Journal) (now : Time) (l : Ledger)
      → ((e : LedgerError) × (post hash j now l ≡ (err e, l)))
        ⊎ ((h : String) × (validate_and_hash hash j ≡ ok h)
            × (post hash j now l ≡ post_validated j h now l))
  unfolding post
  post_cases j now l = elim (Result-cases (validate_and_hash hash j)) [
    | inl (e, bad) ↦ inl (e, ground arith)
    | inr (h, good) ↦ inr (h, good, ground arith)
  ]

  -- Every call of `Post`, accepted or refused, keeps the invariant of the ledger.
  pub post-IsValid :
      (j : Journal) (now : Time) (l : Ledger) → IsValid hash l → IsValid hash (post hash j now l).1
  post-IsValid j now l v = elim (post_cases j now l) [
    | inl (e, q) ↦ rw q v
    | inr (h, good, q) ↦ rw q (Outcome-IsValid v (post_validated-Outcome j h now l v good))
  ]

  -- A journal that was posted is answered again, at any later time and for whatever was posted in
  -- between, with the record of the first time, and nothing is written.
  pub post-replay :
      (id : String) (p : PostedJournal) (now : Time) (l : Ledger)
      → IsValid hash l
      → lookup id l.by_id ≡ some p
      → post hash p.journal now l ≡ (ok p, l)
  post-replay id p now l v found =
      let f = v.filed id p found in
      let owned : lookup (scope p.journal) l.idempotency ≡ some id = f.scoped in
      let valid : validate_and_hash hash p.journal ≡ ok p.content_hash = f.checked in
      unfold post post_validated posted_or_zero in
      ground (arith, eq_iff p.content_hash p.content_hash)

  -- A scope that is taken by other content is refused, and nothing is written.
  pub post-conflict :
      (j : Journal) (now : Time) (l : Ledger) {id h : String} {p : PostedJournal}
      → lookup (scope j) l.idempotency ≡ some id
      → lookup id l.by_id ≡ some p
      → validate_and_hash hash j ≡ ok h
      → p.content_hash ≢ h
      → post hash j now l ≡ (err idempotency_conflict, l)
  unfolding post post_validated posted_or_zero
  post-conflict j now l {h = h} {p = p} owned found valid differs =
      ground (arith, eq_iff p.content_hash h)

  -- A call that answers with an error writes nothing.
  pub post_error_unchanged :
      (j : Journal) (now : Time) (l : Ledger) {e : LedgerError}
      → (post hash j now l).0 ≡ err e
      → (post hash j now l).1 ≡ l
  unfolding post post_validated post_fresh
  post_error_unchanged j now l h = ground arith

  -- What was posted before a call is still posted after it, unchanged.
  pub post-keeps :
      (j : Journal) (now : Time) (l : Ledger) (id : String) {p : PostedJournal}
      → IsValid hash l
      → lookup id l.by_id ≡ some p
      → lookup id (post hash j now l).1.by_id ≡ some p
  post-keeps j now l id {p} v found = elim (post_cases j now l) [
    | inl (e, q) ↦ rw q found
    | inr (h, good, q) ↦ rw q (kept (post_validated-Outcome j h now l v good))
  ]
    where
      kept :
          {h : String} {r : Result LedgerError PostedJournal × Ledger}
          → Outcome j h now l r
          → lookup id r.1.by_id ≡ some p
      kept (Outcome.refused e) = found
      kept (Outcome.replayed _ _ _ _ _) = found
      kept (Outcome.written f) = commit-by_id hash _ l f id found

  -- A journal that is answered under a free scope has been written.
  pub Outcome-written :
      {j : Journal} {h : String} {now : Time} {l : Ledger}
      {r : Result LedgerError PostedJournal × Ledger} {p : PostedJournal}
      → Outcome j h now l r
      → lookup (scope j) l.idempotency ≡ none
      → r.0 ≡ ok p
      → IsFresh hash (posted_as j h now) l
        × (posted_as j h now ≡ p)
        × (r.1 ≡ commit (posted_as j h now) l)
  Outcome-written (Outcome.refused e) free q = absurd (cc)
  Outcome-written (Outcome.replayed id p owned found same) free q = absurd (cc)
  Outcome-written (Outcome.written f) free q = (f, cc, refl)

  -- A journal with a free scope whose target is reversed already is refused.
  pub Outcome-reversed :
      {j : Journal} {h : String} {now : Time} {l : Ledger}
      {r : Result LedgerError PostedJournal × Ledger} {id : String}
      → Outcome j h now l r
      → lookup (scope j) l.idempotency ≡ none
      → is_empty j.reversal_of ≡ false
      → lookup j.reversal_of l.reversals ≡ some id
      → (e : LedgerError) × (r ≡ (err e, l))
  Outcome-reversed (Outcome.refused e) free rev taken = (e, refl)
  Outcome-reversed (Outcome.replayed id p owned found same) free rev taken = absurd (cc)
  Outcome-reversed (Outcome.written f) free rev taken = absurd (cc (f.target_free rev))
