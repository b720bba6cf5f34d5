-- ===== src/Decimal/Whole/Exact.antt =====
-- The whole numbers meet the laws of `Decimal.Laws`.
use Prim.Native.Nat.{◌+◌, ◌*◌}
use pdfsleuth.Common.{◌≡◌, refl, ap, true, false, arith}
use pdfsleuth.Decimal.Laws.{IsOrdered, IsExact}
use pdfsleuth.Decimal.Whole.{
  ℤ, pos, pos_part, neg_part, ◌+ℤ◌, ◌-ℤ◌, ◌*ℤ◌, neg_ℤ, nat_abs, lt_ℤ, eq_ℤ, whole,
}

-- One equation for each operation, by which `omega` works with the operations shut.
+ℤ_parts :
    (a b : ℤ)
    → pos_part (a +ℤ b) + neg_part a + neg_part b ≡ neg_part (a +ℤ b) + pos_part a + pos_part b
unfolding ◌+ℤ◌
+ℤ_parts a b = ground arith

*ℤ_parts :
    (a b : ℤ)
    → pos_part (a *ℤ b) + pos_part a * neg_part b + neg_part a * pos_part b
      ≡ neg_part (a *ℤ b) + pos_part a * pos_part b + neg_part a * neg_part b
unfolding ◌*ℤ◌
*ℤ_parts a b = ground arith

eq_of_parts : (a b : ℤ) → pos_part a + neg_part b ≡ pos_part b + neg_part a → a ≡ b
eq_of_parts a b h = ground arith

ruleset int_laws = (arith, +ℤ_parts, *ℤ_parts, eq_of_parts)

+ℤ_assoc : (a b c : ℤ) → a +ℤ b +ℤ c ≡ a +ℤ (b +ℤ c)
+ℤ_assoc a b c = omega int_laws

+ℤ_comm : (a b : ℤ) → a +ℤ b ≡ b +ℤ a
+ℤ_comm a b = omega int_laws

*ℤ_comm : (a b : ℤ) → a *ℤ b ≡ b *ℤ a
*ℤ_comm a b = omega int_laws

*ℤ-+ℤ : (a b c : ℤ) → a *ℤ (b +ℤ c) ≡ a *ℤ b +ℤ a *ℤ c
*ℤ-+ℤ a b c =
    omega
      (int_laws, ap (λ t. pos_part a * t) (+ℤ_parts b c), ap (λ t. neg_part a * t) (+ℤ_parts b c))

*ℤ_assoc : (a b c : ℤ) → a *ℤ b *ℤ c ≡ a *ℤ (b *ℤ c)
*ℤ_assoc a b c = omega (
  int_laws,
  ap (λ t. t * pos_part c) (*ℤ_parts a b),
  ap (λ t. t * neg_part c) (*ℤ_parts a b),
  ap (λ t. pos_part a * t) (*ℤ_parts b c),
  ap (λ t. neg_part a * t) (*ℤ_parts b c),
)

*ℤ-one : (a : ℤ) → a *ℤ pos 1 ≡ a
*ℤ-one a = omega int_laws

lt-+ℤ : (a b c : ℤ) → lt_ℤ a b ≡ true → lt_ℤ (a +ℤ c) (b +ℤ c) ≡ true
unfolding lt_ℤ
lt-+ℤ a b c h = ground (arith, +ℤ_parts a c, +ℤ_parts b c)

pub whole-IsOrdered : IsOrdered ℤ
unfolding lt_ℤ eq_ℤ ◌-ℤ◌ ◌+ℤ◌
whole-IsOrdered = record {
  lt_irrefl = λ a. ground arith;
  lt_trans = λ a b c p q. ground arith;
  lt_connected = λ a b p q. ground arith;
  eq_of_eq = λ a b p. ground arith;
  eq_refl = λ a. ground arith;
  zero_lt_one = refl;
  sub_self = λ a. ground arith;
  sub_pos = λ a b p. ground arith;
  add_pos = λ a b p q. ground arith;
}

abs_neg : (a : ℤ) → lt_ℤ a (pos 0) ≡ true → pos (nat_abs a) ≡ neg_ℤ a
unfolding lt_ℤ nat_abs neg_ℤ
abs_neg a h = ground arith

abs_nonneg : (a : ℤ) → lt_ℤ a (pos 0) ≡ false → pos (nat_abs a) ≡ a
unfolding lt_ℤ nat_abs neg_ℤ
abs_nonneg a h = ground arith

+ℤ-zero : (a : ℤ) → a +ℤ pos 0 ≡ a
+ℤ-zero a = omega int_laws

+ℤ-neg_ℤ : (a : ℤ) → a +ℤ neg_ℤ a ≡ pos 0
unfolding ◌+ℤ◌ neg_ℤ
+ℤ-neg_ℤ a = ground arith

-ℤ-eq-+ℤ : (a b : ℤ) → a -ℤ b ≡ a +ℤ neg_ℤ b
unfolding ◌-ℤ◌ ◌+ℤ◌ neg_ℤ
-ℤ-eq-+ℤ a b = ground arith

pub whole-IsExact : IsExact ℤ
whole-IsExact = record {
  ordered = whole-IsOrdered;
  add_assoc = +ℤ_assoc;
  add_comm = +ℤ_comm;
  add-zero = +ℤ-zero;
  add-negate = +ℤ-neg_ℤ;
  sub-add_negate = -ℤ-eq-+ℤ;
  mul_assoc = *ℤ_assoc;
  mul_comm = *ℤ_comm;
  mul-one = *ℤ-one;
  mul-add = *ℤ-+ℤ;
  lt-add = lt-+ℤ;
  abs_neg = abs_neg;
  abs_nonneg = abs_nonneg;
  plus_id = λ a. refl;
}
