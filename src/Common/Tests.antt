-- ===== src/Common/Tests.antt =====
-- The conditional, Boolean tests and case lemmas.
use Prim.Native.Nat.{ℕ, compare, Ordering}
use mathlib.Core.Path.{◌≡◌, refl}
use mathlib.Core.Logic.{◌⊎◌, inl, inr}
use mathlib.Core.Bool.{Bool, true, false}
use mathlib.Core.Option.{Option, none, some}

infix 1 if◌then◌else◌
abbrev pub if◌then◌else◌ {ℓ} : {A : Type ℓ} → Bool → A → A → A
if true then x else y = x
if false then x else y = y

-- `a < b` on whole numbers: counters, attempts and instants.
abbrev pub lt_ℕ : ℕ → ℕ → Bool
lt_ℕ a b = elim (compare a b) [ Ordering.lt ↦ true | _ ↦ false ]

abbrev pub le_ℕ : ℕ → ℕ → Bool
le_ℕ a b = elim (compare a b) [ Ordering.gt ↦ false | _ ↦ true ]

abbrev pub eq_ℕ : ℕ → ℕ → Bool
eq_ℕ a b = elim (compare a b) [ Ordering.eq ↦ true | _ ↦ false ]

-- `a == b` of two truth values.
abbrev pub eq_Bool : Bool → Bool → Bool
eq_Bool true b = b
eq_Bool false true = false
eq_Bool false false = true

pub Bool-cases : (b : Bool) → (b ≡ true) ⊎ (b ≡ false)
Bool-cases true = inl refl
Bool-cases false = inr refl

pub Option-cases {ℓ} : {A : Type ℓ} (o : Option A) → (o ≡ none) ⊎ ((a : A) × (o ≡ some a))
Option-cases none = inl refl
Option-cases (some a) = inr (a, refl)

abbrev pub is_some {ℓ} : {A : Type ℓ} → Option A → Bool
is_some none = false
is_some (some _) = true
