-- ===== src/Base/Tests.antt =====
-- Boolean tests on numbers and texts, and the conditional.
use Prim.Native.Nat.{ℕ, ◌<◌, compare, Ordering}
use Prim.Native.String.{String}
use mathlib.Core.Path.{◌≡◌, refl}
use mathlib.Core.Logic.{◌≢◌, ◌⊎◌, inl, inr}
use mathlib.Core.Bool.{Bool, true, false, not}
use mathlib.Core.Option.{Option, none, some}
use native.Mathlib.Omega.{arith}
use text.Mathlib.Text.{◌==◌ as text_eq}
use text.Mathlib.TextEquality.{eq_iff}
use text.Mathlib.TextLemmas.{append-eq-nil_iff}
use Prim.Native.String.{◌++◌ as ◌++ₛ◌}

abbrev pub ltb : ℕ → ℕ → Bool
ltb a b = elim (compare a b) [ Ordering.lt ↦ true | _ ↦ false ]

abbrev pub leb : ℕ → ℕ → Bool
leb a b = elim (compare a b) [ Ordering.gt ↦ false | _ ↦ true ]

infix 50 ◌==◌ ◌=ₛ◌ ◌≠ₛ◌
abbrev pub ◌==◌ : ℕ → ℕ → Bool
a == b = elim (compare a b) [ Ordering.eq ↦ true | _ ↦ false ]

-- `s == t` and `s != t` on strings.
abbrev pub ◌=ₛ◌ : String → String → Bool
s =ₛ t = text_eq s t

abbrev pub ◌≠ₛ◌ : String → String → Bool
s ≠ₛ t = not (text_eq s t)

-- `s == ""`
abbrev pub is_empty : String → Bool
is_empty s = text_eq s ""

infix 1 if◌then◌else◌
abbrev pub if◌then◌else◌ {ℓ} : {A : Type ℓ} → Bool → A → A → A
if true then x else y = x
if false then x else y = y

pub ltb→lt : (a b : ℕ) → ltb a b ≡ true → a < b
ltb→lt a b h = ground arith

pub lt→ltb : (a b : ℕ) → a < b → ltb a b ≡ true
lt→ltb a b h = ground arith

-- To split on a computed value and keep the equation.
pub Bool-cases : (b : Bool) → (b ≡ true) ⊎ (b ≡ false)
Bool-cases true = inl refl
Bool-cases false = inr refl

pub Option-cases {ℓ} : {A : Type ℓ} (o : Option A) → (o ≡ none) ⊎ ((a : A) × (o ≡ some a))
Option-cases none = inl refl
Option-cases (some a) = inr (a, refl)

pub eq_of_text_eq : (s t : String) → (s =ₛ t) ≡ true → s ≡ t
eq_of_text_eq s t h = (eq_iff s t).0 h

pub ne_of_text_eq : (s t : String) → (s =ₛ t) ≡ false → s ≢ t
ne_of_text_eq s t h e = ground (arith, eq_iff s t)

pub text_eq_of_ne : (s t : String) → s ≢ t → (s =ₛ t) ≡ false
text_eq_of_ne s t h = ground (arith, eq_iff s t)

-- A text that starts with a text that is not empty is not empty.
pub append-named : (a b : String) → is_empty a ≡ false → is_empty (a ++ₛ b) ≡ false
append-named a b h =
    text_eq_of_ne (a ++ₛ b) "" (λ e. ne_of_text_eq a "" h ((append-eq-nil_iff.0 e).0))
