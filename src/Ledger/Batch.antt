-- ===== src/Ledger/Batch.antt =====
-- `PostBatch` of services/foundation-ledger/internal/ledger/ledger.go: all of the journals or none.
use unified.Base.{
  String, ◌≡◌, refl, sym, ◌∙◌, ◌↔◌, inl, inr, Option, List, [], ◌∷◌, arith, Result, ok, err, ◌>>=◌,
  Result-cases, >>=-eq-ok, Time,
}
use unified.Ledger.{
  Journal, PostedJournal, Ledger, LedgerError, validate_and_hash, post_validated, post, hash_all,
  post_all, post_batch,
}
use unified.Ledger.Invariant.{IsValid}
use unified.Ledger.Posting.{post-IsValid, post_cases}

module _ (hash : Journal → Option String) where
  -- Posting the journals one after the other, at one time, up to the first error.
  abbrev pub post_each :
      List Journal → Time → Ledger → Result LedgerError (List PostedJournal × Ledger)
  post_each [] now l = ok ([], l)
  post_each (j ∷ js) now l = (post hash j now l).0 >>= λ posted.
      post_each js now (post hash j now l).1 >>= λ done. ok (posted ∷ done.0, done.1)

  post-valid :
      (j : Journal) (now : Time) (l : Ledger) {h : String}
      → validate_and_hash hash j ≡ ok h
      → post hash j now l ≡ post_validated j h now l
  unfolding post
  post-valid j now l e = ground arith

  post_each_step :
      (j : Journal) (js : List Journal) (now : Time) (l : Ledger) {h : String}
      (rest : List (Journal × String))
      → validate_and_hash hash j ≡ ok h
      → ((l' : Ledger) → post_all rest now l' ≡ post_each js now l')
      → post_all ((j, h) ∷ rest) now l ≡ post_each (j ∷ js) now l
  unfolding post_all
  post_each_step j js now l rest e ih =
      rw (post-valid j now l e) (rw (ih (post_validated j _ now l).1))

  -- What the second loop computes, once the first has accepted every journal.
  post_all-post_each :
      (js : List Journal) (now : Time) (l : Ledger) {hashed : List (Journal × String)}
      → hash_all hash js ≡ ok hashed
      → post_all hashed now l ≡ post_each js now l
  unfolding hash_all
  post_all-post_each [] now l {hashed} e =
      let q : [] ≡ hashed = cc in rw (← q) (unfold post_all in refl)
  post_all-post_each (j ∷ js) now l {hashed} e =
      let (h, valid, others) =
        >>=-eq-ok (validate_and_hash hash j) (λ h. hash_all hash js >>= λ rest. ok ((j, h) ∷ rest))
          e in
      let (rest, more, all) = >>=-eq-ok (hash_all hash js) (λ rest. ok ((j, h) ∷ rest)) others in
      let q : (j, h) ∷ rest ≡ hashed = cc in
      rw (← q) (post_each_step j js now l rest valid (λ l'. post_all-post_each js now l' more))

  -- If posting one after the other succeeds, the first loop accepts every journal.
  hash_all-post_each :
      (js : List Journal) (now : Time) (l : Ledger) {done : List PostedJournal × Ledger}
      → post_each js now l ≡ ok done
      → (hashed : List (Journal × String)) × (hash_all hash js ≡ ok hashed)
  unfolding hash_all
  hash_all-post_each [] now l e = ([], refl)
  hash_all-post_each (j ∷ js) now l {done} e =
      let (p, first, others) =
        >>=-eq-ok (post hash j now l).0
          (λ posted.
            post_each js now (post hash j now l).1 >>= λ done. ok (posted ∷ done.0, done.1))
          e in
      let (d, more, all) =
        >>=-eq-ok (post_each js now (post hash j now l).1) (λ done. ok (p ∷ done.0, done.1))
          others in
      let (rest, hashed) = hash_all-post_each js now (post hash j now l).1 more in
      elim (post_cases hash j now l) [
        | inl (x, bad) ↦ absurd (ground arith)
        | inr (h, valid, q) ↦ ((j, h) ∷ rest, rw (valid, hashed))
      ]

  -- What `PostBatch` answers, by how its loops end.
  batch_refused :
      (j : Journal) (js : List Journal) (now : Time) (l : Ledger) {x : LedgerError}
      → hash_all hash (j ∷ js) ≡ err x
      → post_batch hash (j ∷ js) now l ≡ (err x, l)
  unfolding post_batch
  batch_refused j js now l e = ground arith

  batch_failed :
      (j : Journal) (js : List Journal) (now : Time) (l : Ledger) {hashed : List (Journal × String)}
      {x : LedgerError}
      → hash_all hash (j ∷ js) ≡ ok hashed
      → post_all hashed now l ≡ err x
      → post_batch hash (j ∷ js) now l ≡ (err x, l)
  unfolding post_batch
  batch_failed j js now l e f = ground arith

  batch_posted :
      (j : Journal) (js : List Journal) (now : Time) (l : Ledger) {hashed : List (Journal × String)}
      {done : List PostedJournal × Ledger}
      → hash_all hash (j ∷ js) ≡ ok hashed
      → post_all hashed now l ≡ ok done
      → post_batch hash (j ∷ js) now l ≡ (ok done.0, done.1)
  unfolding post_batch
  batch_posted j js now l e f = ground arith

  batch_sound :
      (j : Journal) (js : List Journal) (now : Time) (l l' : Ledger) (posted : List PostedJournal)
      → post_batch hash (j ∷ js) now l ≡ (ok posted, l')
      → post_each (j ∷ js) now l ≡ ok (posted, l')
  batch_sound j js now l l' posted h = elim (Result-cases (hash_all hash (j ∷ js))) [
    | inl (x, bad) ↦ absurd (cc (batch_refused j js now l bad))
    | inr (hashed, good) ↦ elim (Result-cases (post_all hashed now l)) [
      | inl (x, bad) ↦ absurd (cc (batch_failed j js now l good bad))
      | inr (done, f) ↦
          sym (post_all-post_each (j ∷ js) now l good) ∙ f ∙ cc (batch_posted j js now l good f)
    ]
  ]

  batch_complete :
      (j : Journal) (js : List Journal) (now : Time) (l l' : Ledger) (posted : List PostedJournal)
      → post_each (j ∷ js) now l ≡ ok (posted, l')
      → post_batch hash (j ∷ js) now l ≡ (ok posted, l')
  batch_complete j js now l l' posted h =
      let (hashed, good) = hash_all-post_each (j ∷ js) now l h in
      batch_posted j js now l good (post_all-post_each (j ∷ js) now l good ∙ h)

  -- A batch is posted exactly when its journals, one or more, can be posted one after the other; it
  -- then gives the same records and the same ledger.
  pub post_batch-post_each :
      (j : Journal) (js : List Journal) (now : Time) (l l' : Ledger) (posted : List PostedJournal)
      → (post_batch hash (j ∷ js) now l ≡ (ok posted, l'))
        ↔ (post_each (j ∷ js) now l ≡ ok (posted, l'))
  post_batch-post_each j js now l l' posted =
      (batch_sound j js now l l' posted, batch_complete j js now l l' posted)

  -- A batch that is refused, for whatever reason and at whatever journal, writes nothing.
  pub post_batch_error_unchanged :
      (js : List Journal) (now : Time) (l : Ledger) {e : LedgerError}
      → (post_batch hash js now l).0 ≡ err e
      → (post_batch hash js now l).1 ≡ l
  unfolding post_batch
  post_batch_error_unchanged [] now l h = refl
  post_batch_error_unchanged (j ∷ js) now l h = ground arith

  post_each-IsValid :
      (js : List Journal) (now : Time) (l : Ledger) {done : List PostedJournal × Ledger}
      → IsValid hash l
      → post_each js now l ≡ ok done
      → IsValid hash done.1
  post_each-IsValid [] now l {done} v e = let q : ([], l) ≡ done = cc in rw (← q) v
  post_each-IsValid (j ∷ js) now l {done} v e =
      let (p, first, others) =
        >>=-eq-ok (post hash j now l).0
          (λ posted.
            post_each js now (post hash j now l).1 >>= λ done. ok (posted ∷ done.0, done.1))
          e in
      let (d, more, all) =
        >>=-eq-ok (post_each js now (post hash j now l).1) (λ done. ok (p ∷ done.0, done.1))
          others in
      let q : (p ∷ d.0, d.1) ≡ done = cc in
      rw (← q) (post_each-IsValid js now (post hash j now l).1 (post-IsValid hash j now l v) more)

  -- Every batch, posted or refused, keeps the invariant of the ledger.
  pub post_batch-IsValid :
      (js : List Journal) (now : Time) (l : Ledger)
      → IsValid hash l
      → IsValid hash (post_batch hash js now l).1
  post_batch-IsValid [] now l v = unfold post_batch in v
  post_batch-IsValid (j ∷ js) now l v = elim (Result-cases (post_batch hash (j ∷ js) now l).0) [
    | inl (x, bad) ↦ rw (post_batch_error_unchanged (j ∷ js) now l bad) v
    | inr (posted, good) ↦
        post_each-IsValid (j ∷ js) now l v
          (batch_sound j js now l (post_batch hash (j ∷ js) now l).1 posted (ground arith))
  ]
