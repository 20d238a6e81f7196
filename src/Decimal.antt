-- ===== src/Decimal.antt =====
-- Decimal texts of integers, as Go's math/big reads and writes them: `SetString(s, 10)`, which takes
-- an optional sign and one or more digits, and `String()`. Every amount of the services is such a
-- text. The checks on top of them are the helpers that each package repeats
-- (services/risk-engine/internal/calculation/interest.go and others).
use Prim.Native.Char.{Char, code}
use unified.Base.{
  ℕ, zero, suc, ◌+◌, ◌-◌, ◌*◌, ◌/◌, ◌%◌, String, ◌≡◌, refl, Bool, true, false, ◌&&◌, ◌||◌, Option,
  none, some, ltb, leb, ◌==◌, ◌=ₛ◌, if◌then◌else◌, ℤ, pos, negsuc,
}
pub mod RoundTrip

unfoldable pub digit : ℕ → Char
digit zero = "0"
digit (suc zero) = "1"
digit (suc (suc zero)) = "2"
digit (suc (suc (suc zero))) = "3"
digit (suc (suc (suc (suc zero)))) = "4"
digit (suc (suc (suc (suc (suc zero))))) = "5"
digit (suc (suc (suc (suc (suc (suc zero)))))) = "6"
digit (suc (suc (suc (suc (suc (suc (suc zero))))))) = "7"
digit (suc (suc (suc (suc (suc (suc (suc (suc zero)))))))) = "8"
digit _ = "9"

-- The digits of `n` in front of `out`, on fuel; `n` itself is fuel enough.
unfoldable pub emit : ℕ → ℕ → String → String
unfolding digit
emit zero n out = out
emit (suc f) n out =
    let rest = emit f (n / 10) (String.◌∷◌ (digit (n % 10)) out) in if n == 0 then out else rest

unfoldable pub print_ℕ : ℕ → String
unfolding emit
print_ℕ zero = "0"
print_ℕ (suc n) = emit (suc n) (suc n) ""

-- `(*big.Int).String`
unfoldable pub to_string : ℤ → String
unfolding print_ℕ
to_string (pos n) = print_ℕ n
to_string (negsuc n) = String.◌∷◌ "-" (print_ℕ (suc n))

-- The number that the digits spell behind `n`.
unfoldable pub scan : String → ℕ → Option ℕ
scan String.[] n = some n
scan (String.◌∷◌ c s) n =
    let d = code c - 48 in
    let rest = scan s (n * 10 + d) in if leb 48 (code c) && leb (code c) 57 then rest else none

unfoldable pub scan_digits : String → Option ℕ
unfolding scan
scan_digits String.[] = none
scan_digits (String.◌∷◌ c s) = scan (String.◌∷◌ c s) 0

abbrev negate : ℕ → ℤ
negate zero = pos 0
negate (suc n) = negsuc n

-- `new(big.Int).SetString(s, 10)`; `none` is a false second result.
unfoldable pub set_string : String → Option ℤ
unfolding scan_digits
set_string String.[] = none
set_string (String.◌∷◌ c s) =
    if code c == 45
    then elim (scan_digits s) [ none ↦ none | some n ↦ some (negate n) ]
    else if code c == 43
    then elim (scan_digits s) [ none ↦ none | some n ↦ some (pos n) ]
    else elim (scan_digits (String.◌∷◌ c s)) [ none ↦ none | some n ↦ some (pos n) ]
