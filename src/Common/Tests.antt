-- ===== src/Common/Tests.antt =====
-- Boolean tests, the conditional, and equality as an interface (JavaScript's `===` on strings and
-- numbers).
use Prim.Native.Nat.{ℕ, compare, Ordering}
use Prim.Native.String.{String}
use mathlib.Core.Path.{◌≡◌, refl}
use mathlib.Core.Logic.{◌↔◌, ◌⊎◌, inl, inr}
use mathlib.Core.Bool.{Bool, true, false}
use mathlib.Core.Option.{Option, none, some}
use native.Mathlib.Omega.{arith}
use text.Mathlib.Text.{◌==◌ as str_eq}
use text.Mathlib.TextEquality.{eq_iff}

abbrev pub ltb : ℕ → ℕ → Bool
ltb a b = elim (compare a b) [ Ordering.lt ↦ true | _ ↦ false ]

abbrev pub leb : ℕ → ℕ → Bool
leb a b = elim (compare a b) [ Ordering.gt ↦ false | _ ↦ true ]

abbrev pub nat_beq : ℕ → ℕ → Bool
nat_beq a b = elim (compare a b) [ Ordering.eq ↦ true | _ ↦ false ]

infix 1 if◌then◌else◌
abbrev pub if◌then◌else◌ {ℓ} : {A : Type ℓ} → Bool → A → A → A
if true then x else y = x
if false then x else y = y

pub nat_beq_iff : (a b : ℕ) → (nat_beq a b ≡ true) ↔ (a ≡ b)
nat_beq_iff a b = ground arith

pub Bool-cases : (b : Bool) → (b ≡ true) ⊎ (b ≡ false)
Bool-cases true = inl refl
Bool-cases false = inr refl

pub Option-cases {ℓ} : {A : Type ℓ} (o : Option A) → (o ≡ none) ⊎ ((a : A) × (o ≡ some a))
Option-cases none = inl refl
Option-cases (some a) = inr (a, refl)

-- `a ?? b`
abbrev pub or_else {ℓ} : {A : Type ℓ} → Option A → A → A
or_else none b = b
or_else (some a) b = a

-- A type whose values the program compares with `===`.
pub record StrictEq {ℓ} (V : Type ℓ) : Type ℓ where
  pub same : V → V → Bool
  pub same_iff : (v w : V) → (same v w ≡ true) ↔ (v ≡ w)

module _ {ℓ} {V : Type ℓ} ⦃eq : StrictEq V⦄ where
  infix 50 ◌==◌
  abbrev pub ◌==◌ : V → V → Bool
  v == w = eq.same v w

  -- The law of the instance in scope, in the form that `ground` takes.
  pub ==_iff : (v w : V) → ((v == w) ≡ true) ↔ (v ≡ w)
  ==_iff v w = eq.same_iff v w

  pub ==_refl : (v : V) → (v == v) ≡ true
  ==_refl v = (eq.same_iff v v).1 refl

  pub ==_ne : (v w : V) → ¬ (v ≡ w) → (v == w) ≡ false
  ==_ne v w h = elim (Bool-cases (eq.same v w)) [
    | inl equal ↦ absurd (h ((eq.same_iff v w).0 equal))
    | inr other ↦ other
  ]

instance abbrev pub string_eq : StrictEq String
string_eq = record { same = str_eq; same_iff = eq_iff }

instance abbrev pub nat_eq : StrictEq ℕ
nat_eq = record { same_iff = nat_beq_iff; same = nat_beq }
