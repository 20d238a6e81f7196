-- ===== src/Ledger/Invariant.antt =====
-- The invariant of the three maps of `Ledger` in
-- services/foundation-ledger/internal/ledger/ledger.go, and that a commit keeps it.
use unified.Base.{
  ◌≡◌, refl, ◌⊎◌, inl, inr, String, true, false, Option, none, some, All, lookup, contains,
  lookup-insert, lookup-insert_self, ok, Bool-cases, is_empty, arith, eq_iff, lookup-insert_free,
  contains-insert, lookup-insert_cases, insert-All,
}
use unified.Ledger.{Journal, PostedJournal, Ledger, new, scope, commit, validate_and_hash}

module _ (hash : Journal → Option String) where
  -- A posted journal is filed under its id, was accepted with its hash, owns its idempotency scope,
  -- and, if it reverses another, is the one reversal of that one.
  pub record IsFiled (l : Ledger) (id : String) (p : PostedJournal) : Type 0 where
    pub named : p.journal.id ≡ id
    pub checked : validate_and_hash hash p.journal ≡ ok p.content_hash
    pub scoped : lookup (scope p.journal) l.idempotency ≡ some id
    pub reverses :
        is_empty p.journal.reversal_of ≡ false → lookup p.journal.reversal_of l.reversals ≡ some id

  -- The entry of a journal in the map was accepted with its hash.
  abbrev pub IsAccepted : String × PostedJournal → Type 0
  IsAccepted e = validate_and_hash hash e.1.journal ≡ ok e.1.content_hash

  pub record IsValid (l : Ledger) : Type 0 where
    pub accepted : All IsAccepted l.by_id
    pub filed : (id : String) (p : PostedJournal) → lookup id l.by_id ≡ some p → IsFiled l id p
    pub scopes :
        (k id : String)
        → lookup k l.idempotency ≡ some id
        → (p : PostedJournal) × (lookup id l.by_id ≡ some p) × (scope p.journal ≡ k)
    pub targets :
        (k id : String)
        → lookup k l.reversals ≡ some id
        → (p : PostedJournal) × (lookup id l.by_id ≡ some p)
          × (p.journal.reversal_of ≡ k)
          × (contains k l.by_id ≡ true)

  pub new-IsValid : IsValid new
  unfolding new
  new-IsValid = record {
    accepted = tt;
    filed = λ id p e. absurd (unfold lookup in (cc));
    scopes = λ k id e. absurd (unfold lookup in (cc));
    targets = λ k id e. absurd (unfold lookup in (cc));
  }

  -- What `postValidated` has checked when it writes.
  pub record IsFresh (p : PostedJournal) (l : Ledger) : Type 0 where
    pub accepted : validate_and_hash hash p.journal ≡ ok p.content_hash
    pub new_id : lookup p.journal.id l.by_id ≡ none
    pub new_scope : lookup (scope p.journal) l.idempotency ≡ none
    pub target_known :
        is_empty p.journal.reversal_of ≡ false → contains p.journal.reversal_of l.by_id ≡ true
    pub target_free :
        is_empty p.journal.reversal_of ≡ false → lookup p.journal.reversal_of l.reversals ≡ none

  module _ (p : PostedJournal) (l : Ledger) (f : IsFresh p l) where
    pub commit-IsFiled_self : IsFiled (commit p l) p.journal.id p
    unfolding commit
    commit-IsFiled_self = record {
      named = refl;
      checked = f.accepted;
      scoped = lookup-insert_self (scope p.journal) p.journal.id l.idempotency;
      reverses = λ h. rw h (lookup-insert_self p.journal.reversal_of p.journal.id l.reversals);
    }

    commit-reversals :
        (k : String) {id : String}
        → lookup k l.reversals ≡ some id
        → lookup k (commit p l).reversals ≡ some id
    unfolding commit
    commit-reversals k {id} e = elim (Bool-cases (is_empty p.journal.reversal_of)) [
      | inl plain ↦ rw plain e
      | inr rev ↦ rw rev (
          lookup-insert_free p.journal.reversal_of k p.journal.id l.reversals (f.target_free rev) e)
    ]

    commit-IsFiled : (id : String) (q : PostedJournal) → IsFiled l id q → IsFiled (commit p l) id q
    unfolding commit
    commit-IsFiled id q h = record {
      named = h.named;
      checked = h.checked;
      scoped =
          lookup-insert_free (scope p.journal) (scope q.journal) p.journal.id l.idempotency
            f.new_scope h.scoped;
      reverses = λ r. commit-reversals q.journal.reversal_of (h.reverses r);
    }

    -- What was posted stays posted.
    pub commit-by_id :
        (id : String) {q : PostedJournal}
        → lookup id l.by_id ≡ some q
        → lookup id (commit p l).by_id ≡ some q
    unfolding commit
    commit-by_id id e = lookup-insert_free p.journal.id id p l.by_id f.new_id e

    pub commit-by_id_self : lookup p.journal.id (commit p l).by_id ≡ some p
    unfolding commit
    commit-by_id_self = lookup-insert_self p.journal.id p l.by_id

    commit-IsFiled' :
        IsValid l
        → (id : String) (q : PostedJournal) → lookup id (commit p l).by_id ≡ some q
        → IsFiled (commit p l) id q
    commit-IsFiled' v id q e =
        elim (lookup-insert_cases p.journal.id id p l.by_id {w = q} (unfold commit in e)) [
          | inl (same, this) ↦ rw (← same, ← this) commit-IsFiled_self
          | inr old ↦ commit-IsFiled id q (v.filed id q old)
        ]

    commit-scopes :
        IsValid l
        → (k id : String) → lookup k (commit p l).idempotency ≡ some id
        → (q : PostedJournal) × (lookup id (commit p l).by_id ≡ some q) × (scope q.journal ≡ k)
    commit-scopes v k id e =
        elim (lookup-insert_cases (scope p.journal) k p.journal.id l.idempotency {w = id}
          (unfold commit in e)) [
            | inl (same, this) ↦ (p, rw (← this) commit-by_id_self, same)
            | inr old ↦
                let (q, found, scoped) = v.scopes k id old in (q, commit-by_id id found, scoped)
          ]

    commit-contains :
        (k : String) → contains k l.by_id ≡ true → contains k (commit p l).by_id ≡ true
    unfolding commit
    commit-contains k e = contains-insert p.journal.id k p l.by_id e

    reversals-cases :
        (k : String) {id : String}
        → lookup k (commit p l).reversals ≡ some id
        → ((p.journal.reversal_of ≡ k)
            × (p.journal.id ≡ id)
            × (is_empty p.journal.reversal_of ≡ false))
          ⊎ (lookup k l.reversals ≡ some id)
    unfolding commit
    reversals-cases k e = ground (
      arith,
      lookup-insert p.journal.reversal_of k p.journal.id l.reversals,
      eq_iff p.journal.reversal_of k,
    )

    commit-targets :
        IsValid l
        → (k id : String) → lookup k (commit p l).reversals ≡ some id
        → (q : PostedJournal) × (lookup id (commit p l).by_id ≡ some q)
          × (q.journal.reversal_of ≡ k)
          × (contains k (commit p l).by_id ≡ true)
    commit-targets v k id e = elim (reversals-cases k e) [
      | inl (same, this, rev) ↦ (
        p,
        rw (← this) commit-by_id_self,
        same,
        commit-contains k (rw same at (f.target_known rev)),
      )
      | inr old ↦
          let (q, found, of, known) = v.targets k id old in
          (q, commit-by_id id found, of, commit-contains k known)
    ]

    -- A commit keeps the invariant.
    pub commit-IsValid : IsValid l → IsValid (commit p l)
    commit-IsValid v = record {
      accepted =
          unfold commit in insert-All IsAccepted p.journal.id p l.by_id v.accepted f.accepted;
      filed = commit-IsFiled' v;
      scopes = commit-scopes v;
      targets = commit-targets v;
    }
