-- ===== src/Decimal/Whole.antt =====
-- Whole numbers as an instance of the decimal operations: the decimals with no places behind the
-- point, where sums and products are exact. A literal with places is cut, and so is a quotient
-- that is not whole.
pub mod Exact
use Prim.Native.Nat.{ℕ, suc, ◌+◌ as add_ℕ, ◌*◌ as mul_ℕ, ◌-◌ as sub_trunc, ◌/◌ as div_ℕ, ◌^◌}
use pdfsleuth.Common.{Bool, true, false, if◌then◌else◌, lt_ℕ, le_ℕ, eq_ℕ, ◌&&◌}
use pdfsleuth.Decimal.{Arith}

-- `negsuc n` is -(n + 1).
pub data ℤ : Type 0 where
  pos : ℕ → ℤ
  negsuc : ℕ → ℤ

abbrev pub pos_part : ℤ → ℕ
pos_part (pos n) = n
pos_part (negsuc n) = 0

abbrev pub neg_part : ℤ → ℕ
neg_part (pos n) = 0
neg_part (negsuc n) = suc n

-- a - b, as an integer.
abbrev pub sub_ℕ : ℕ → ℕ → ℤ
sub_ℕ a b = if le_ℕ b a then pos (sub_trunc a b) else negsuc (sub_trunc (sub_trunc b a) 1)

infixl 65 ◌+ℤ◌ ◌-ℤ◌
infixl 70 ◌*ℤ◌
unfoldable pub ◌+ℤ◌ : ℤ → ℤ → ℤ
a +ℤ b = sub_ℕ (add_ℕ (pos_part a) (pos_part b)) (add_ℕ (neg_part a) (neg_part b))

unfoldable pub neg_ℤ : ℤ → ℤ
neg_ℤ a = sub_ℕ (neg_part a) (pos_part a)

unfoldable pub ◌-ℤ◌ : ℤ → ℤ → ℤ
a -ℤ b = sub_ℕ (add_ℕ (pos_part a) (neg_part b)) (add_ℕ (neg_part a) (pos_part b))

unfoldable pub ◌*ℤ◌ : ℤ → ℤ → ℤ
a *ℤ b =
    sub_ℕ (add_ℕ (mul_ℕ (pos_part a) (pos_part b)) (mul_ℕ (neg_part a) (neg_part b)))
      (add_ℕ (mul_ℕ (pos_part a) (neg_part b)) (mul_ℕ (neg_part a) (pos_part b)))

unfoldable pub nat_abs : ℤ → ℕ
nat_abs a = add_ℕ (pos_part a) (neg_part a)

unfoldable pub lt_ℤ : ℤ → ℤ → Bool
lt_ℤ a b = lt_ℕ (add_ℕ (pos_part a) (neg_part b)) (add_ℕ (pos_part b) (neg_part a))

unfoldable pub eq_ℤ : ℤ → ℤ → Bool
eq_ℤ a b = eq_ℕ (pos_part a) (pos_part b) && eq_ℕ (neg_part a) (neg_part b)

-- the quotient cut towards zero
unfoldable pub div_ℤ : ℤ → ℤ → ℤ
div_ℤ (pos a) (pos b) = pos (div_ℕ a b)
div_ℤ (pos a) (negsuc b) = sub_ℕ 0 (div_ℕ a (suc b))
div_ℤ (negsuc a) (pos b) = sub_ℕ 0 (div_ℕ (suc a) b)
div_ℤ (negsuc a) (negsuc b) = pos (div_ℕ (suc a) (suc b))

instance abbrev pub whole : Arith ℤ
whole = record {
  dec = λ c k. pos (div_ℕ c (10 ^ k));
  add = ◌+ℤ◌;
  sub = ◌-ℤ◌;
  mul = ◌*ℤ◌;
  div = div_ℤ;
  copy_negate = neg_ℤ;
  copy_abs = λ a. pos (nat_abs a);
  plus = λ a. a;
  lt = lt_ℤ;
  eq = eq_ℤ;
  quantize = λ a k. a;
}
