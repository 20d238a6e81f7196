-- ===== src/Decimal/RoundTrip.antt =====
-- What `String()` prints, `SetString` reads back, for every integer.
use Prim.Native.Char.{code}
use unified.Base.{
  ℕ, zero, suc, ◌+◌, ◌*◌, ◌/◌, ◌%◌, ◌≤◌, ◌<◌, String, ◌≡◌, refl, inl, inr, some, arith, Bool-cases,
  ◌==◌, ◌∙◌, ℤ, pos, negsuc,
}
use unified.Decimal.{digit, emit, print_ℕ, to_string, scan, scan_digits, set_string}

code-digit : (d : ℕ) → d < 10 → code (digit d) ≡ 48 + d
unfolding digit
code-digit zero h = refl
code-digit (suc zero) h = refl
code-digit (suc (suc zero)) h = refl
code-digit (suc (suc (suc zero))) h = refl
code-digit (suc (suc (suc (suc zero)))) h = refl
code-digit (suc (suc (suc (suc (suc zero))))) h = refl
code-digit (suc (suc (suc (suc (suc (suc zero)))))) h = refl
code-digit (suc (suc (suc (suc (suc (suc (suc zero))))))) h = refl
code-digit (suc (suc (suc (suc (suc (suc (suc (suc zero)))))))) h = refl
code-digit (suc (suc (suc (suc (suc (suc (suc (suc (suc zero))))))))) h = refl
code-digit (suc (suc (suc (suc (suc (suc (suc (suc (suc (suc d)))))))))) h = absurd (omega arith)

scan-digit : (d n : ℕ) (s : String) → d < 10 → scan (String.◌∷◌ (digit d) s) n ≡ scan s (n * 10 + d)
unfolding scan
scan-digit d n s h = ground (arith, code-digit d h)

scan-emit : (f n : ℕ) (out : String) → n ≤ f → scan (emit f n out) 0 ≡ scan out n
unfolding emit
scan-emit zero zero out h = refl
scan-emit zero (suc n) out h = absurd (omega arith)
scan-emit (suc f) n out h = ground (
  arith,
  scan-emit f (n / 10) (String.◌∷◌ (digit (n % 10)) out),
  scan-digit (n % 10) (n / 10) out,
)

-- The first character is a digit.
abbrev StartsDigit : String → Type 0
StartsDigit String.[] = ⊥
StartsDigit (String.◌∷◌ c s) = (48 ≤ code c) × (code c ≤ 57)

digit-StartsDigit : (d : ℕ) (out : String) → d < 10 → StartsDigit (String.◌∷◌ (digit d) out)
digit-StartsDigit d out h = omega (arith, code-digit d h)

emit-StartsDigit : (f n : ℕ) (out : String) → StartsDigit out → StartsDigit (emit f n out)
unfolding emit
emit-StartsDigit zero n out h = h
emit-StartsDigit (suc f) n out h = elim (Bool-cases (n == 0)) [
  | inl z ↦ rw z h
  | inr z ↦ rw z (emit-StartsDigit f (n / 10) _ (digit-StartsDigit (n % 10) out (omega arith)))
]

emit_pos :
    (f n : ℕ) (out : String)
    → 0 < n
    → emit (suc f) n out ≡ emit f (n / 10) (String.◌∷◌ (digit (n % 10)) out)
unfolding emit
emit_pos f n out h = ground arith

print_ℕ-StartsDigit : (n : ℕ) → StartsDigit (print_ℕ n)
unfolding print_ℕ
print_ℕ-StartsDigit zero = omega arith
print_ℕ-StartsDigit (suc n) =
    rw (emit_pos n (suc n) "" (omega arith))
      (emit-StartsDigit n (suc n / 10) _ (digit-StartsDigit (suc n % 10) "" (omega arith)))

scan_digits_lem : (s : String) → StartsDigit s → scan_digits s ≡ scan s 0
unfolding scan_digits
scan_digits_lem String.[] h = absurd h
scan_digits_lem (String.◌∷◌ c s) h = refl

scan-print_ℕ : (n : ℕ) → scan (print_ℕ (suc n)) 0 ≡ some (suc n)
scan-print_ℕ n =
    unfold print_ℕ in (scan-emit (suc n) (suc n) "" (omega arith) ∙ unfold scan in refl)

scan_digits-print_ℕ : (n : ℕ) → scan_digits (print_ℕ n) ≡ some n
unfolding scan
scan_digits-print_ℕ zero = unfold print_ℕ scan_digits in refl
scan_digits-print_ℕ (suc n) = scan_digits_lem _ (print_ℕ-StartsDigit (suc n)) ∙ scan-print_ℕ n

set_string_digits :
    (s : String) (n : ℕ) → StartsDigit s → scan_digits s ≡ some n → set_string s ≡ some (pos n)
unfolding set_string
set_string_digits String.[] n h e = absurd h
set_string_digits (String.◌∷◌ c s) n h e = ground arith

set_string_minus :
    (s : String) (n : ℕ)
    → scan_digits s ≡ some (suc n)
    → set_string (String.◌∷◌ "-" s) ≡ some (negsuc n)
unfolding set_string
set_string_minus s n e = rw e

-- Every integer is read back from its decimal text.
pub set_string-to_string : (z : ℤ) → set_string (to_string z) ≡ some z
unfolding to_string
set_string-to_string (pos n) = set_string_digits _ n (print_ℕ-StartsDigit n) (scan_digits-print_ℕ n)
set_string-to_string (negsuc n) = set_string_minus _ n (scan_digits-print_ℕ (suc n))
