-- ===== src/Ledger/Totals.antt =====
-- The totals by asset that `validateAndHash` of
-- services/foundation-ledger/internal/ledger/ledger.go collects, against sums over the entries.
use unified.Base.{
  ℕ, ◌+◌, ◌<◌, ◌≡◌, refl, ◌⊎◌, ◌≢◌, inl, inr, String, false, none, some, List, [], ◌∷◌, All, Dict,
  lookup, lookup-insert, ok, err, Result-cases, is_empty, ◌=ₛ◌, if◌then◌else◌, arith, eq_iff,
  >>=-eq-ok,
}
use unified.Ledger.{
  Side, Entry, LedgerError, get_or_zero, entry_units, add, tally_entry, tally_entries,
}

-- The units of an entry as a number, 0 where they are refused.
abbrev pub units_of : Entry → ℕ
units_of e = elim (entry_units e.units) [ none ↦ 0 | some u ↦ u ]

-- What one entry adds to the debits and to the credits of an asset.
abbrev pub on_debit : Side → ℕ → ℕ
on_debit Side.debit u = u
on_debit _ u = 0

abbrev pub on_credit : Side → ℕ → ℕ
on_credit Side.credit u = u
on_credit _ u = 0

-- The debits and the credits of an asset in a list of entries.
abbrev pub debit_total : String → List Entry → ℕ
debit_total a [] = 0
debit_total a (e ∷ es) =
    (if e.asset_id =ₛ a then on_debit e.side (units_of e) else 0) + debit_total a es

abbrev pub credit_total : String → List Entry → ℕ
credit_total a [] = 0
credit_total a (e ∷ es) =
    (if e.asset_id =ₛ a then on_credit e.side (units_of e) else 0) + credit_total a es

-- What makes an entry acceptable by itself.
pub record IsEntry (e : Entry) : Type 0 where
  pub has_account : is_empty e.account_code ≡ false
  pub has_asset : is_empty e.asset_id ≡ false
  pub has_units : 0 < units_of e
  pub has_side : (e.side ≡ Side.debit) ⊎ (e.side ≡ Side.credit)

pub get_or_zero-add :
    (a k : String) (m : Dict ℕ) (u : ℕ)
    → get_or_zero a (add m k u) ≡ (if k =ₛ a then u else 0) + get_or_zero a m
unfolding add
get_or_zero-add a k m u = ground (arith, lookup-insert k a (get_or_zero k m + u) m, eq_iff k a)

entry_units-pos : (s : String) {u : ℕ} → entry_units s ≡ some u → 0 < u
unfolding entry_units
entry_units-pos s h = ground arith

-- One round adds the units of the entry to the side and asset that it names.
pub tally_entry_adds :
    (e : Entry) (d c : Dict ℕ) {t : Dict ℕ × Dict ℕ} (a : String)
    → tally_entry e d c ≡ ok t
    → (get_or_zero a t.0
        ≡ (if e.asset_id =ₛ a then on_debit e.side (units_of e) else 0) + get_or_zero a d)
      × (get_or_zero a t.1
          ≡ (if e.asset_id =ₛ a then on_credit e.side (units_of e) else 0) + get_or_zero a c)
unfolding tally_entry
tally_entry_adds e d c a h = ground (
  arith,
  get_or_zero-add a e.asset_id d (units_of e),
  get_or_zero-add a e.asset_id c (units_of e),
)

-- An entry passes its round exactly when it is acceptable.
pub tally_entry-IsEntry :
    (e : Entry) (d c : Dict ℕ) {t : Dict ℕ × Dict ℕ} → tally_entry e d c ≡ ok t → IsEntry e
unfolding tally_entry
tally_entry-IsEntry e d c h = ground (arith, entry_units-pos e.units)

tally_entry-accepts :
    (e : Entry) (d c : Dict ℕ) (x : LedgerError) → IsEntry e → tally_entry e d c ≢ err x
unfolding tally_entry
tally_entry-accepts e d c x h = ground arith

pub tally_entry-total :
    (e : Entry) (d c : Dict ℕ) → IsEntry e → (t : Dict ℕ × Dict ℕ) × (tally_entry e d c ≡ ok t)
tally_entry-total e d c h = elim (Result-cases (tally_entry e d c)) [
  | inl (x, bad) ↦ absurd (tally_entry-accepts e d c x h bad)
  | inr good ↦ good
]

-- Every total that the loop stores is positive.
abbrev pub AllPositive : Dict ℕ → Type 0
AllPositive m = (k : String) (v : ℕ) → lookup k m ≡ some v → 0 < v

add-AllPositive :
    (m : Dict ℕ) (k : String) (u : ℕ) → 0 < u → AllPositive m → AllPositive (add m k u)
unfolding add
add-AllPositive m k u p h j v e = ground (arith, lookup-insert k j (get_or_zero k m + u) m, h j v)

tally_entry-AllPositive :
    (e : Entry) (d c : Dict ℕ) {t : Dict ℕ × Dict ℕ}
    → tally_entry e d c ≡ ok t
    → AllPositive d
    → AllPositive c
    → AllPositive t.0 × AllPositive t.1
unfolding tally_entry
tally_entry-AllPositive e d c {t} h pd pc = (
  (λ k v q. ground (
    arith,
    entry_units-pos e.units,
    pd k v,
    add-AllPositive d e.asset_id (units_of e) (tally_entry-IsEntry e d c h).has_units pd k v,
  )),
  (λ k v q. ground (
    arith,
    entry_units-pos e.units,
    pc k v,
    add-AllPositive c e.asset_id (units_of e) (tally_entry-IsEntry e d c h).has_units pc k v,
  )),
)

-- The loop over all entries: it accepts them exactly when each is acceptable, and then its maps hold
-- the sums.
pub record Tallied (es : List Entry) (d c : Dict ℕ) (t : Dict ℕ × Dict ℕ) : Type 0 where
  pub entries_ok : All IsEntry es
  pub debits : (a : String) → get_or_zero a t.0 ≡ debit_total a es + get_or_zero a d
  pub credits : (a : String) → get_or_zero a t.1 ≡ credit_total a es + get_or_zero a c
  pub debits_positive : AllPositive d → AllPositive c → AllPositive t.0
  pub credits_positive : AllPositive d → AllPositive c → AllPositive t.1

pub tally_entries-Tallied :
    (es : List Entry) (d c : Dict ℕ) {t : Dict ℕ × Dict ℕ}
    → tally_entries es d c ≡ ok t
    → Tallied es d c t
unfolding tally_entries
tally_entries-Tallied [] d c {t} h =
    let e : (d, c) ≡ t = cc in
    rw (← e) (record {
      entries_ok = tt;
      debits = λ a. omega arith;
      credits = λ a. omega arith;
      debits_positive = λ pd pc. pd;
      credits_positive = λ pd pc. pc;
    })
tally_entries-Tallied (e ∷ es) d c {t} h =
    let (m, first, rest) =
      >>=-eq-ok (tally_entry e d c) (λ totals. tally_entries es totals.0 totals.1) h in
    let ih = tally_entries-Tallied es m.0 m.1 rest in
    let ps = tally_entry-AllPositive e d c first in
    record {
      entries_ok = (tally_entry-IsEntry e d c first, ih.entries_ok);
      debits = λ a. omega (arith, ih.debits a, (tally_entry_adds e d c a first).0);
      credits = λ a. omega (arith, ih.credits a, (tally_entry_adds e d c a first).1);
      debits_positive = λ pd pc. ih.debits_positive (ps pd pc).0 (ps pd pc).1;
      credits_positive = λ pd pc. ih.credits_positive (ps pd pc).0 (ps pd pc).1;
    }

pub tally_entries-total :
    (es : List Entry) (d c : Dict ℕ)
    → All IsEntry es
    → (t : Dict ℕ × Dict ℕ) × (tally_entries es d c ≡ ok t)
unfolding tally_entries
tally_entries-total [] d c h = ((d, c), refl)
tally_entries-total (e ∷ es) d c h =
    let (m, first) = tally_entry-total e d c h.0 in
    let (t, rest) = tally_entries-total es m.0 m.1 h.1 in (t, rw first rest)
