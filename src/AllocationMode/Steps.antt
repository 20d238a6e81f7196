-- ===== src/AllocationMode/Steps.antt =====
-- What a call does to the latch: the claims it adds or moves, and the tombstones.
use unified.Base.{String, ◌≡◌, refl, true, false, none, some, arith, lookup, insert, lookup-insert}
use unified.AllocationMode.{
  CanonicalState, Claim, MemoryStore, Registry, publish, tombstone, is_reversed, owned_by_other,
}

-- The claim has only another state.
abbrev pub SameIdentity : Claim → Claim → Type 0
SameIdentity c c' = record c { state = c'.state } ≡ c'

pub data Move (r r' : Registry) : Type 0 where
  keeps : r'.by_payment ≡ r.by_payment → r'.by_allocation ≡ r.by_allocation → Move r r'
  claims_one :
      (c : Claim)
      → lookup c.payment_id r.by_payment ≡ none
      → owned_by_other c.allocation_id c.payment_id r ≡ false
      → r'.by_payment ≡ insert c.payment_id c r.by_payment
      → r'.by_allocation ≡ insert c.allocation_id c.payment_id r.by_allocation
      → Move r r'
  moves_one :
      (id : String) (c c' : Claim)
      → lookup id r.by_payment ≡ some c
      → SameIdentity c c'
      → r'.by_payment ≡ insert id c' r.by_payment
      → r'.by_allocation ≡ r.by_allocation
      → Move r r'

-- A call that ends in r', with the payments that are reversed in r reversed in r'.
pub record Step (r r' : Registry) : Type 0 where
  pub move : Move r r'
  pub grows : (id : String) → is_reversed id r ≡ true → is_reversed id r' ≡ true

pub idle : (r : Registry) → Step r r
idle r = record { move = Move.keeps refl refl; grows = λ id h. h }

pub stored : (r : Registry) (s : MemoryStore) → Step r (record r { store = s })
stored r s = record {
  move = Move.keeps refl refl;
  grows = λ id h. unfold is_reversed in unfold is_reversed in h;
}

pub claimed :
    (r : Registry) (c : Claim) (s : MemoryStore)
    → lookup c.payment_id r.by_payment ≡ none
    → owned_by_other c.allocation_id c.payment_id r ≡ false
    → Step r (publish c record r { store = s })
unfolding publish is_reversed
claimed r c s free unowned = record {
  move = Move.claims_one c free unowned refl refl;
  grows = λ id h. h;
}

pub moved :
    (id : String) (c : Claim) (next : CanonicalState) (r : Registry)
    → lookup id r.by_payment ≡ some c
    → Step r (record r { by_payment = insert id record c { state = next } r.by_payment })
unfolding is_reversed
moved id c next r found = record {
  move = Move.moves_one id c record c { state = next } found refl refl refl;
  grows = λ id h. h;
}

pub grows_tombstone :
    (p id : String) (r : Registry) → is_reversed id r ≡ true → is_reversed id (tombstone p r) ≡ true
unfolding is_reversed tombstone
grows_tombstone p id r h = ground (arith, lookup-insert p id true r.reversed)

pub buried : (p : String) (r : Registry) → Step r (tombstone p r)
buried p r = record {
  move = unfold tombstone in Move.keeps refl refl;
  grows = λ id h. grows_tombstone p id r h;
}

pub bury : (p : String) (r r' : Registry) → Step r r' → Step r (tombstone p r')
bury p r r' step = record {
  move = unfold tombstone in go step.move;
  grows = λ id h. grows_tombstone p id r' (step.grows id h);
}
  where
    go : Move r r' → Move r (record r' { reversed = insert p true r'.reversed })
    go (Move.keeps a b) = Move.keeps a b
    go (Move.claims_one c a b e f) = Move.claims_one c a b e f
    go (Move.moves_one id c c' a b e f) = Move.moves_one id c c' a b e f
