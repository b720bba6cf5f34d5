-- ===== src/Decimal/Laws.antt =====
-- What the accounting relies on of the decimal operations, as hypotheses on an instance of `Arith`.
-- `IsOrdered` holds of all finite decimals, taken by value: comparisons are exact, and rounding
-- neither moves a difference of equals from 0 nor a positive result to 0. `IsExact` says that no
-- sum or product is rounded, which the context grants while no result needs more than its 28
-- digits.
use pdfsleuth.Common.{◌≡◌, true, false}
use pdfsleuth.Decimal.{Arith, ◌+◌, ◌-◌, ◌*◌, ◌/◌, dec_zero, one, lt, eq, copy_abs}

pub record IsOrdered (D : Type 0) ⦃n : Arith D⦄ : Type 0 where
  pub lt_irrefl : (a : D) → lt a a ≡ false
  pub lt_trans : (a b c : D) → lt a b ≡ true → lt b c ≡ true → lt a c ≡ true
  pub lt_connected : (a b : D) → lt a b ≡ false → lt b a ≡ false → a ≡ b
  pub eq_of_eq : (a b : D) → eq a b ≡ true → a ≡ b
  pub eq_refl : (a : D) → eq a a ≡ true
  pub zero_lt_one : lt {D = D} dec_zero one ≡ true
  pub sub_self : (a : D) → a - a ≡ dec_zero
  pub sub_pos : (a b : D) → lt b a ≡ true → lt dec_zero (a - b) ≡ true
  pub add_pos : (a b : D) → lt dec_zero a ≡ true → lt dec_zero b ≡ true → lt dec_zero (a + b) ≡ true

pub record IsExact (D : Type 0) ⦃n : Arith D⦄ : Type 0 where
  pub ordered : IsOrdered D
  pub add_assoc : (a b c : D) → a + b + c ≡ a + (b + c)
  pub add_comm : (a b : D) → a + b ≡ b + a
  pub add-zero : (a : D) → a + dec_zero ≡ a
  pub add-negate : (a : D) → a + n.copy_negate a ≡ dec_zero
  pub sub-add_negate : (a b : D) → a - b ≡ a + n.copy_negate b
  pub mul_assoc : (a b c : D) → a * b * c ≡ a * (b * c)
  pub mul_comm : (a b : D) → a * b ≡ b * a
  pub mul-one : (a : D) → a * one ≡ a
  pub mul-add : (a b c : D) → a * (b + c) ≡ a * b + a * c
  pub lt-add : (a b c : D) → lt a b ≡ true → lt (a + c) (b + c) ≡ true
  pub abs_neg : (a : D) → lt a dec_zero ≡ true → copy_abs a ≡ n.copy_negate a
  pub abs_nonneg : (a : D) → lt a dec_zero ≡ false → copy_abs a ≡ a
  pub plus_id : (a : D) → n.plus a ≡ a

-- The quotient is a number of the context: multiplied back it gives the dividend.
abbrev pub DividesExactly : {D : Type 0} ⦃n : Arith D⦄ → D → D → Type 0
DividesExactly a b = a / b * b ≡ a
