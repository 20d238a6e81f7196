-- ===== src/Ledger/Reversal.antt =====
-- `Reverse` of services/foundation-ledger/internal/ledger/ledger.go, and what holds of every ledger
-- that a run of calls has made.
use mathlib.Core.Path.{subst}
use unified.Base.{
  ℕ, ◌+◌, String, ◌≡◌, refl, ◌∙◌, ◌⊎◌, inl, inr, false, ◌&&◌, Option, none, some, List, [], ◌∷◌,
  map, arith, ◌=ₛ◌, is_empty, if◌then◌else◌, Option-cases, All, Dict, lookup, ok, err, Time, after,
}
use unified.Ledger.{
  Side, Entry, Journal, PostedJournal, Ledger, LedgerError, unknown_journal, commit, post,
  post_batch, reverse, reversal_journal, flip, flip_entry, scope, new, get,
}
use unified.Ledger.Totals.{debit_total, credit_total, on_debit, on_credit, units_of, IsEntry}
use unified.Ledger.Balance.{IsJournal, validate_sound, validate_and_hash-validate, IsJournal-id}
use unified.Ledger.Invariant.{
  IsFresh, IsValid, new-IsValid, IsAccepted, commit-IsFiled_self, commit-by_id_self,
}
use unified.Ledger.Posting.{
  post-IsValid, post_cases, post_validated-Outcome, Outcome-written, Outcome-reversed, posted_as,
}
use unified.Ledger.Batch.{post_batch-IsValid}

-- What a list of entries does to one account in one asset: the units debited and those credited.
abbrev pub account_debits : String → String → List Entry → ℕ
account_debits account asset [] = 0
account_debits account asset (e ∷ es) =
    (if (e.account_code =ₛ account) && (e.asset_id =ₛ asset)
      then on_debit e.side (units_of e)
      else 0)
    + account_debits account asset es

abbrev pub account_credits : String → String → List Entry → ℕ
account_credits account asset [] = 0
account_credits account asset (e ∷ es) =
    (if (e.account_code =ₛ account) && (e.asset_id =ₛ asset)
      then on_credit e.side (units_of e)
      else 0)
    + account_credits account asset es

flip_sides :
    (s : Side) (u : ℕ)
    → (s ≡ Side.debit) ⊎ (s ≡ Side.credit)
    → (on_debit (flip s) u ≡ on_credit s u) × (on_credit (flip s) u ≡ on_debit s u)
unfolding flip
flip_sides s u h = ground arith

-- Swapping the sides of accepted entries swaps the debits and the credits of every account.
pub flip_entry-account :
    (account asset : String) (es : List Entry)
    → All IsEntry es
    → (account_debits account asset (map flip_entry es) ≡ account_credits account asset es)
      × (account_credits account asset (map flip_entry es) ≡ account_debits account asset es)
unfolding flip_entry
flip_entry-account account asset [] h = (refl, refl)
flip_entry-account account asset (e ∷ es) h =
    ground
      (arith, flip_sides e.side (units_of e) h.0.has_side, flip_entry-account account asset es h.1)

-- The journal that `Reverse` posts for an original.
module _ (hash : Journal → Option String) (original_id reversal_id key event reason : String)
    (effective_at now : Time) (l : Ledger) (v : IsValid hash l) (original : PostedJournal)
    (found : lookup original_id l.by_id ≡ some original) where
  abbrev reversal : Journal
  reversal = reversal_journal original reversal_id key event reason effective_at

  original-IsJournal : IsJournal original.journal
  original-IsJournal = validate_sound original.journal (
      validate_and_hash-validate hash original.journal (v.filed original_id original found).checked)

  original_named : original.journal.id ≡ original_id
  original_named = (v.filed original_id original found).named

  is_reversal : is_empty reversal.reversal_of ≡ false
  unfolding reversal_journal
  is_reversal = IsJournal-id original.journal original-IsJournal

  reversal-target : reversal.reversal_of ≡ original_id
  unfolding reversal_journal
  reversal-target = original_named

  reverse-post :
      reverse hash original_id reversal_id key event reason effective_at now l
      ≡ post hash reversal now l
  unfolding reverse get
  reverse-post = ground arith

  written_swaps :
      (h : String) (p : PostedJournal)
      → posted_as reversal h now ≡ p
      → (account asset : String)
      → (account_debits account asset p.journal.entries
          ≡ account_credits account asset original.journal.entries)
        × (account_credits account asset p.journal.entries
            ≡ account_debits account asset original.journal.entries)
  unfolding reversal_journal
  written_swaps h p same account asset =
      rw (← same)
        (flip_entry-account account asset original.journal.entries original-IsJournal.entries_ok)

  written_target :
      (h : String)
      → IsFresh hash (posted_as reversal h now) l
      → lookup original_id (commit (posted_as reversal h now) l).reversals ≡ some reversal_id
  unfolding reversal_journal
  written_target h f =
      subst (λ k. lookup k (commit (posted_as reversal h now) l).reversals ≡ some reversal_id)
        original_named
        ((commit-IsFiled_self hash (posted_as reversal h now) l f).reverses is_reversal)

  written_found :
      (h : String)
      → IsFresh hash (posted_as reversal h now) l
      → lookup reversal_id (commit (posted_as reversal h now) l).by_id
        ≡ some (posted_as reversal h now)
  unfolding reversal_journal
  written_found h f = commit-by_id_self hash (posted_as reversal h now) l f

  -- A reversal that is written carries the debits of the original as credits and its credits as
  -- debits, in every account and asset, and is recorded as the reversal of the original.
  pub reverse_undoes :
      (p : PostedJournal) (l' : Ledger)
      → lookup (scope reversal) l.idempotency ≡ none
      → reverse hash original_id reversal_id key event reason effective_at now l ≡ (ok p, l')
      → ((account asset : String)
          → (account_debits account asset p.journal.entries
              ≡ account_credits account asset original.journal.entries)
            × (account_credits account asset p.journal.entries
                ≡ account_debits account asset original.journal.entries))
        × (lookup original_id l'.reversals ≡ some reversal_id)
        × (lookup reversal_id l'.by_id ≡ some p)
  reverse_undoes p l' free done = elim (post_cases hash reversal now l) [
    | inl (e, q) ↦ absurd (cc reverse-post)
    | inr (h, valid, q) ↦
        let (f, same, after) =
          Outcome-written hash {p = p} (post_validated-Outcome hash reversal h now l v valid) free
            (ground (arith, reverse-post)) in
        let state : l' ≡ commit (posted_as reversal h now) l =
          ground (arith, reverse-post, after) in
        (
          written_swaps h p same,
          rw state (written_target h f),
          rw (state, ← same) (written_found h f),
        )
  ]

  -- Once a journal is reversed, a further reversal under another key is refused and writes nothing.
  pub reverse_again :
      {r : String}
      → lookup original_id l.reversals ≡ some r
      → lookup (scope reversal) l.idempotency ≡ none
      → (e : LedgerError) × (reverse hash original_id reversal_id key event reason effective_at now
            l
          ≡ (err e, l))
  reverse_again {r} taken free = elim (post_cases hash reversal now l) [
    | inl (e, q) ↦ (e, reverse-post ∙ q)
    | inr (h, valid, q) ↦
        let (e, refusal) =
          Outcome-reversed hash {id = r} (post_validated-Outcome hash reversal h now l v valid) free
            is_reversal (rw reversal-target taken) in
        (e, reverse-post ∙ q ∙ refusal)
  ]

module _ (hash : Journal → Option String) where
  -- A call of one of the methods that write, with the time of the clock.
  pub data Call : Type 0 where
    posting : Journal → Time → Call
    batch : List Journal → Time → Call
    reversing : String → String → String → String → String → Time → Time → Call

  abbrev pub step : Call → Ledger → Ledger
  step (Call.posting j now) l = (post hash j now l).1
  step (Call.batch js now) l = (post_batch hash js now l).1
  step (Call.reversing id rid key event reason at now) l =
      (reverse hash id rid key event reason at now l).1

  abbrev pub run : List Call → Ledger → Ledger
  run [] l = l
  run (c ∷ cs) l = run cs (step c l)

  pub reverse-IsValid :
      (id rid key event reason : String) (at now : Time) (l : Ledger)
      → IsValid hash l
      → IsValid hash (reverse hash id rid key event reason at now l).1
  reverse-IsValid id rid key event reason at now l v = elim (Option-cases (lookup id l.by_id)) [
    | inl unknown ↦
        let q : reverse hash id rid key event reason at now l ≡ (err unknown_journal, l) =
          unfold reverse get in ground arith in
        rw q v
    | inr (p, found) ↦
        rw (reverse-post hash id rid key event reason at now l v p found)
          (post-IsValid hash (reversal_journal p rid key event reason at) now l v)
  ]

  step-IsValid : (c : Call) (l : Ledger) → IsValid hash l → IsValid hash (step c l)
  step-IsValid (Call.posting j now) l v = post-IsValid hash j now l v
  step-IsValid (Call.batch js now) l v = post_batch-IsValid hash js now l v
  step-IsValid (Call.reversing id rid key event reason at now) l v =
      reverse-IsValid id rid key event reason at now l v

  pub run-IsValid : (cs : List Call) (l : Ledger) → IsValid hash l → IsValid hash (run cs l)
  run-IsValid [] l v = v
  run-IsValid (c ∷ cs) l v = run-IsValid cs (step c l) (step-IsValid c l v)

  -- The units debited and credited in an asset, over all posted journals.
  abbrev pub ledger_debits : String → Dict PostedJournal → ℕ
  ledger_debits a [] = 0
  ledger_debits a (e ∷ m) = debit_total a e.1.journal.entries + ledger_debits a m

  abbrev pub ledger_credits : String → Dict PostedJournal → ℕ
  ledger_credits a [] = 0
  ledger_credits a (e ∷ m) = credit_total a e.1.journal.entries + ledger_credits a m

  pub accepted-balanced :
      (a : String) (m : Dict PostedJournal)
      → All (IsAccepted hash) m
      → ledger_debits a m ≡ ledger_credits a m
  accepted-balanced a [] h = refl
  accepted-balanced a (e ∷ m) h =
      let valid = validate_and_hash-validate hash e.1.journal h.0 in
      omega (arith, (validate_sound e.1.journal valid).balanced a, accepted-balanced a m h.1)

  -- After any calls at all, the debits over the whole ledger equal the credits in every asset.
  pub trial_balance :
      (cs : List Call) (a : String)
      → ledger_debits a (run cs new).by_id ≡ ledger_credits a (run cs new).by_id
  trial_balance cs a =
      accepted-balanced a (run cs new).by_id (run-IsValid cs new (new-IsValid hash)).accepted

  -- After any calls at all, no two journals reverse the same one.
  pub reversal_unique :
      (cs : List Call) (id₁ id₂ : String) (p₁ p₂ : PostedJournal)
      → lookup id₁ (run cs new).by_id ≡ some p₁
      → lookup id₂ (run cs new).by_id ≡ some p₂
      → is_empty p₁.journal.reversal_of ≡ false
      → p₁.journal.reversal_of ≡ p₂.journal.reversal_of
      → id₁ ≡ id₂
  reversal_unique cs id₁ id₂ p₁ p₂ f₁ f₂ rev same =
      let v = run-IsValid cs new (new-IsValid hash) in
      let r₁ = (v.filed id₁ p₁ f₁).reverses rev in
      let r₂ = (v.filed id₂ p₂ f₂).reverses (rw (← same) rev) in cc (r₁, rw (← same) at r₂)
