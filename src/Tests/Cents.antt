-- ===== src/Tests/Cents.antt =====
-- Amounts in whole hundredths, products and quotients cut off there, for runs in which a cent counts.
use Prim.Native.Nat.{◌*◌ as mul_ℕ, ◌/◌ as div_ℕ, ◌^◌}
use pdfsleuth.Common.{refl, arith}
use pdfsleuth.Decimal.{Arith}
use pdfsleuth.Decimal.Laws.{IsOrdered}
use pdfsleuth.Decimal.Whole.{ℤ, pos, ◌+ℤ◌, ◌-ℤ◌, ◌*ℤ◌, neg_ℤ, nat_abs, lt_ℤ, eq_ℤ, div_ℤ}

instance abbrev pub cents : Arith ℤ
cents = record {
  dec = λ c k. pos (div_ℕ (mul_ℕ c 100) (10 ^ k));
  add = ◌+ℤ◌;
  sub = ◌-ℤ◌;
  mul = λ a b. div_ℤ (a *ℤ b) (pos 100);
  div = λ a b. div_ℤ (a *ℤ pos 100) b;
  copy_negate = neg_ℤ;
  copy_abs = λ a. pos (nat_abs a);
  plus = λ a. a;
  lt = lt_ℤ;
  eq = eq_ℤ;
  quantize = λ a k. a;
}

pub cents-IsOrdered : IsOrdered ℤ
unfolding lt_ℤ eq_ℤ ◌-ℤ◌ ◌+ℤ◌
cents-IsOrdered = record {
  lt_irrefl = λ a. ground arith;
  lt_trans = λ a b c p q. ground arith;
  lt_connected = λ a b p q. ground arith;
  eq_of_eq = λ a b p. ground arith;
  eq_refl = λ a. ground arith;
  zero_lt_one = refl;
  sub_self = λ a. ground arith;
  sub_pos = λ a b p. ground arith;
  add_pos = λ a b p q. ground arith;
}
