-- ===== src/Ledger/Balance.antt =====
-- Which journals `validateAndHash` of services/foundation-ledger/internal/ledger/ledger.go accepts.
use unified.Base.{
  ◌||◌, ℕ, ◌≤◌, ◌≡◌, refl, ◌≢◌, inl, inr, String, Bool, true, false, Option, List, [], ◌∷◌, All,
  Dict, lookup, contains, ok, length, ltb, ◌||◌, Result-cases, ne_of_text_eq, text_eq_of_ne,
  is_empty, ◌=ₛ◌, arith, eq_iff, ne_of_text_eq, text_eq_of_ne,
}
use unified.Ledger.{
  Entry, Journal, get_or_zero, tally_entries, identity_missing, validate, same_total, debits_match,
  credits_match, validate_and_hash,
}
use unified.Ledger.Totals.{
  debit_total, credit_total, IsEntry, AllPositive, tally_entries-Tallied, tally_entries-total,
}

-- For every asset the debits of the entries equal the credits.
abbrev pub IsBalanced : List Entry → Type 0
IsBalanced es = (a : String) → debit_total a es ≡ credit_total a es

-- What a journal must be to be posted.
pub record IsJournal (j : Journal) : Type 0 where
  pub identified : identity_missing j ≡ false
  pub not_own_reversal : j.reversal_of ≢ j.id
  pub two_entries : 2 ≤ length j.entries
  pub entries_ok : All IsEntry j.entries
  pub balanced : IsBalanced j.entries

-- The two loops over the totals, read for one key at a time.
abbrev DebitsMatch : Dict ℕ → Dict ℕ → Dict ℕ → Type 0
DebitsMatch rest debits credits =
    (a : String) → contains a rest ≡ true → same_total (lookup a debits) (lookup a credits) ≡ true

abbrev CreditsMatch : Dict ℕ → Dict ℕ → Type 0
CreditsMatch rest debits = (a : String) → contains a rest ≡ true → contains a debits ≡ true

debits_match_sound :
    (rest debits credits : Dict ℕ) (a : String)
    → debits_match rest debits credits ≡ true
    → contains a rest ≡ true
    → same_total (lookup a debits) (lookup a credits) ≡ true
unfolding debits_match lookup
debits_match_sound [] debits credits a h e = cc
debits_match_sound (x ∷ rest) debits credits a h e =
    ground (arith, debits_match_sound rest debits credits a, eq_iff x.0 a)

debits_match_complete :
    (rest debits credits : Dict ℕ)
    → DebitsMatch rest debits credits
    → debits_match rest debits credits ≡ true
unfolding debits_match
debits_match_complete [] debits credits h = refl
debits_match_complete (x ∷ rest) debits credits h =
    rw (h x.0 (unfold lookup in ground (arith, eq_iff x.0 x.0))) (
      debits_match_complete rest debits credits
        (λ a e. h a (unfold lookup in ground (arith, eq_iff x.0 a))))

credits_match_sound :
    (rest debits : Dict ℕ) (a : String)
    → credits_match rest debits ≡ true
    → contains a rest ≡ true
    → contains a debits ≡ true
unfolding credits_match lookup
credits_match_sound [] debits a h e = cc
credits_match_sound (x ∷ rest) debits a h e =
    ground (arith, credits_match_sound rest debits a, eq_iff x.0 a)

credits_match_complete :
    (rest debits : Dict ℕ) → CreditsMatch rest debits → credits_match rest debits ≡ true
unfolding credits_match
credits_match_complete [] debits h = refl
credits_match_complete (x ∷ rest) debits h =
    rw (h x.0 (unfold lookup in ground (arith, eq_iff x.0 x.0))) (
      credits_match_complete rest debits
        (λ a e. h a (unfold lookup in ground (arith, eq_iff x.0 a))))

totals-equal :
    (d c : Dict ℕ) (a : String)
    → DebitsMatch d d c
    → CreditsMatch c d
    → get_or_zero a d ≡ get_or_zero a c
totals-equal d c a hd hc = ground (arith, hd a, hc a)

totals-match :
    (d c : Dict ℕ)
    → AllPositive d
    → AllPositive c
    → ((a : String) → get_or_zero a d ≡ get_or_zero a c)
    → DebitsMatch d d c × CreditsMatch c d
totals-match d c pd pc h = (
  (λ a e. ground (arith, h a, pd a (get_or_zero a d))),
  (λ a e. ground (arith, h a, pc a (get_or_zero a c))),
)

-- The checks of `validate`, one by one.
record Checked (j : Journal) : Type 0 where
  identified : identity_missing j ≡ false
  target : (j.reversal_of =ₛ j.id) ≡ false
  enough : ltb (length j.entries) 2 ≡ false
  totals : Dict ℕ × Dict ℕ
  tallied : tally_entries j.entries [] [] ≡ ok totals
  debits_ok : debits_match totals.0 totals.0 totals.1 ≡ true
  credits_ok : credits_match totals.1 totals.0 ≡ true

validate-Checked : (j : Journal) → validate j ≡ ok tt → Checked j
unfolding validate
validate-Checked j h = elim (Result-cases (tally_entries j.entries [] [])) [
  | inl (x, bad) ↦ absurd (ground arith)
  | inr (t, good) ↦ record {
    identified = ground arith;
    target = ground arith;
    enough = ground arith;
    totals = t;
    tallied = good;
    debits_ok = ground arith;
    credits_ok = ground arith;
  }
]

Checked-validate : (j : Journal) → Checked j → validate j ≡ ok tt
unfolding validate
Checked-validate j c = ground arith

-- A journal is accepted only if it names its parts, does not reverse itself, has two entries or more,
-- each acceptable, and its debits equal its credits in every asset.
pub validate_sound : (j : Journal) → validate j ≡ ok tt → IsJournal j
validate_sound j h =
    let c = validate-Checked j h in
    let t = tally_entries-Tallied j.entries [] [] c.tallied in
    record {
      identified = c.identified;
      not_own_reversal = ne_of_text_eq j.reversal_of j.id c.target;
      two_entries = ground (arith, c.enough);
      entries_ok = t.entries_ok;
      balanced = λ a.
          unfold lookup in
          ground (
            arith,
            t.debits a,
            t.credits a,
            totals-equal c.totals.0 c.totals.1 a
                (λ k. debits_match_sound c.totals.0 c.totals.0 c.totals.1 k c.debits_ok)
                (λ k. credits_match_sound c.totals.1 c.totals.0 k c.credits_ok),
          );
    }

no_totals-AllPositive : AllPositive []
unfolding lookup
no_totals-AllPositive k v e = cc

-- Every such journal is accepted.
pub validate_complete : (j : Journal) → IsJournal j → validate j ≡ ok tt
validate_complete j h =
    let (t, good) = tally_entries-total j.entries [] [] h.entries_ok in
    let sums = tally_entries-Tallied j.entries [] [] good in
    let p = no_totals-AllPositive in
    let (hd, hc) =
      totals-match t.0 t.1 (sums.debits_positive p p) (sums.credits_positive p p)
        (λ a. unfold lookup in ground (arith, sums.debits a, sums.credits a, h.balanced a)) in
    Checked-validate j (record {
      identified = h.identified;
      target = text_eq_of_ne j.reversal_of j.id h.not_own_reversal;
      enough = ground (arith, h.two_entries);
      totals = t;
      tallied = good;
      debits_ok = debits_match_complete t.0 t.0 t.1 hd;
      credits_ok = credits_match_complete t.1 t.0 hc;
    })

pub validate_and_hash-validate :
    (hash : Journal → Option String) (j : Journal) {h : String}
    → validate_and_hash hash j ≡ ok h
    → validate j ≡ ok tt
unfolding validate_and_hash
validate_and_hash-validate hash j e = elim (Result-cases (validate j)) [
  | inl (x, bad) ↦ absurd (ground arith)
  | inr (u, good) ↦ good
]

first_of_ten :
    (a b c d e f g h i j : Bool)
    → (a || b || c || d || e || f || g || h || i || j) ≡ false
    → a ≡ false
first_of_ten false b c d e f g h i j q = refl
first_of_ten true b c d e f g h i j q = q

pub IsJournal-id : (j : Journal) → IsJournal j → is_empty j.id ≡ false
unfolding identity_missing
IsJournal-id j h = first_of_ten (is_empty j.id) _ _ _ _ _ _ _ _ _ h.identified
