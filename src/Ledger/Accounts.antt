-- ===== src/Ledger/Accounts.antt =====
-- What lists of entries do to the accounts of the ledger.
use unified.Base.{
  ℕ, ◌+◌, String, ◌≡◌, refl, sym, Bool, true, false, List, [], ◌∷◌, ◌++◌, arith, if◌then◌else◌,
}
use unified.Ledger.{Entry, Journal}
use unified.Ledger.Reversal.{account_debits, account_credits}

-- The entries of a list of journals.
abbrev pub entries_of : List Journal → List Entry
entries_of [] = []
entries_of (j ∷ js) = j.entries ++ entries_of js

pub account_debits-append :
    (account asset : String) (xs ys : List Entry)
    → account_debits account asset (xs ++ ys)
      ≡ account_debits account asset xs + account_debits account asset ys
account_debits-append account asset [] ys = omega arith
account_debits-append account asset (x ∷ xs) ys =
    omega (arith, account_debits-append account asset xs ys)

pub account_credits-append :
    (account asset : String) (xs ys : List Entry)
    → account_credits account asset (xs ++ ys)
      ≡ account_credits account asset xs + account_credits account asset ys
account_credits-append account asset [] ys = omega arith
account_credits-append account asset (x ∷ xs) ys =
    omega (arith, account_credits-append account asset xs ys)

-- What two lists of entries do to an account and an asset: the one what the other does, with the sides
-- swapped.
abbrev pub Undoes : List Entry → List Entry → Type 0
Undoes xs ys =
    (account asset : String)
    → (account_debits account asset xs ≡ account_credits account asset ys)
      × (account_credits account asset xs ≡ account_debits account asset ys)

pub append-Undoes :
    (xs ys us vs : List Entry) → Undoes xs us → Undoes ys vs → Undoes (xs ++ ys) (us ++ vs)
append-Undoes xs ys us vs h k account asset =
    let (a, b) = h account asset in
    let (c, d) = k account asset in
    (
      omega (
        arith,
        account_debits-append account asset xs ys,
        account_credits-append account asset us vs,
      ),
      omega (
        arith,
        account_credits-append account asset xs ys,
        account_debits-append account asset us vs,
      ),
    )

-- The debits of the entries of two lists of journals.
pub entries_debits-append :
    (account asset : String) (js ks : List Journal)
    → account_debits account asset (entries_of (js ++ ks))
      ≡ account_debits account asset (entries_of js) + account_debits account asset (entries_of ks)
entries_debits-append account asset [] ks = omega arith
entries_debits-append account asset (j ∷ js) ks = omega (
  arith,
  account_debits-append account asset j.entries (entries_of (js ++ ks)),
  account_debits-append account asset j.entries (entries_of js),
  entries_debits-append account asset js ks,
)

-- A journal that may be left out, where it does nothing to the account.
pub optional_debits :
    (account asset : String) (absent : Bool) (v : ℕ) (j : Journal)
    → account_debits account asset j.entries ≡ v
    → (absent ≡ true → v ≡ 0)
    → account_debits account asset (entries_of (if absent then [] else j ∷ [])) ≡ v
optional_debits account asset true v j h none_there = sym (none_there refl)
optional_debits account asset false v j h none_there =
    omega (arith, account_debits-append account asset j.entries [])

-- The credits of the entries of two lists of journals.
pub entries_credits-append :
    (account asset : String) (js ks : List Journal)
    → account_credits account asset (entries_of (js ++ ks))
      ≡ account_credits account asset (entries_of js)
        + account_credits account asset (entries_of ks)
entries_credits-append account asset [] ks = omega arith
entries_credits-append account asset (j ∷ js) ks = omega (
  arith,
  account_credits-append account asset j.entries (entries_of (js ++ ks)),
  account_credits-append account asset j.entries (entries_of js),
  entries_credits-append account asset js ks,
)

-- A journal that may be left out, where it does nothing to the account.
pub optional_credits :
    (account asset : String) (absent : Bool) (v : ℕ) (j : Journal)
    → account_credits account asset j.entries ≡ v
    → (absent ≡ true → v ≡ 0)
    → account_credits account asset (entries_of (if absent then [] else j ∷ [])) ≡ v
optional_credits account asset true v j h none_there = sym (none_there refl)
optional_credits account asset false v j h none_there =
    omega (arith, account_credits-append account asset j.entries [])
