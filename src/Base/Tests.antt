-- ===== src/Base/Tests.antt =====
-- Boolean tests on numbers and keys, and the conditional.
use Prim.Native.Nat.{ℕ, compare, Ordering}
use Prim.Native.String.{String}
use mathlib.Core.Path.{◌≡◌, refl}
use mathlib.Core.Logic.{◌↔◌, ◌⊎◌, inl, inr, ◌≢◌}
use mathlib.Core.Bool.{Bool, true, false}
use mathlib.Core.Option.{Option, none, some}
use native.Mathlib.Omega.{arith}
use text.Mathlib.Text.{◌==◌ as str_eq}
use text.Mathlib.TextEquality.{eq_iff}

abbrev pub ltb : ℕ → ℕ → Bool
ltb a b = elim (compare a b) [ Ordering.lt ↦ true | _ ↦ false ]

abbrev pub leb : ℕ → ℕ → Bool
leb a b = elim (compare a b) [ Ordering.gt ↦ false | _ ↦ true ]

abbrev nat_beq : ℕ → ℕ → Bool
nat_beq a b = elim (compare a b) [ Ordering.eq ↦ true | _ ↦ false ]

pub nat_beq_iff : (a b : ℕ) → (nat_beq a b ≡ true) ↔ (a ≡ b)
nat_beq_iff a b = ground arith

infix 1 if◌then◌else◌
abbrev pub if◌then◌else◌ {ℓ} : {A : Type ℓ} → Bool → A → A → A
if true then x else y = x
if false then x else y = y

pub Bool-cases : (b : Bool) → (b ≡ true) ⊎ (b ≡ false)
Bool-cases true = inl refl
Bool-cases false = inr refl

pub Option-cases {ℓ} : {A : Type ℓ} (o : Option A) → (o ≡ none) ⊎ ((a : A) × (o ≡ some a))
Option-cases none = inl refl
Option-cases (some a) = inr (a, refl)

-- Equality of map keys and of the values that the code compares by `==`.
pub record Eq {ℓ} (A : Type ℓ) : Type ℓ where
  pub same : A → A → Bool
  pub same_iff : (a b : A) → (same a b ≡ true) ↔ (a ≡ b)

infix 50 ◌==◌
abbrev pub ◌==◌ {ℓ} : {A : Type ℓ} ⦃k : Eq A⦄ → A → A → Bool
◌==◌ ⦃k⦄ = k.same

instance abbrev pub nat_eq : Eq ℕ
nat_eq = record { same_iff = nat_beq_iff; same = nat_beq }

instance abbrev pub string_eq : Eq String
string_eq = record { same_iff = eq_iff; same = str_eq }

module _ {ℓ} {A : Type ℓ} ⦃e : Eq A⦄ where
  pub ==_refl : (a : A) → (a == a) ≡ true
  ==_refl a = (e.same_iff a a).1 refl

  pub ==_ne : (a b : A) → a ≢ b → (a == b) ≡ false
  ==_ne a b h = elim (Bool-cases (a == b)) [ inl t ↦ absurd (h ((e.same_iff a b).0 t)) | inr f ↦ f ]

  pub Eq-cases : (a b : A) → (a ≡ b) ⊎ (a ≢ b)
  Eq-cases a b = elim (Bool-cases (a == b)) [
    | inl t ↦ inl ((e.same_iff a b).0 t)
    | inr f ↦ inr (λ q. absurd (let t = (e.same_iff a b).1 q in cc))
  ]

-- A read of a missing key gives the type's zero value.
abbrev pub with_default {ℓ} : {A : Type ℓ} → Option A → A → A
with_default none d = d
with_default (some a) d = a
