-- ===== src/Decimal.antt =====
-- Python's `decimal.Decimal`, as far as the program uses it. The operations are those of the
-- class `Arith`, over any type of numbers: every sum, product and quotient of the program is a
-- call of one of them, so what is proved with no law of `Decimal.Laws` holds whatever the decimal
-- context rounds. NaN and the infinities are left out.
pub mod Laws
pub mod Algebra
pub mod Whole
use pdfsleuth.Common.{ℕ, Bool, not, if◌then◌else◌}

pub record Arith (D : Type 0) : Type 0 where
  -- `dec c k` is the literal with the digits of `c` and `k` places behind the point
  pub dec : ℕ → ℕ → D
  pub add : D → D → D
  pub sub : D → D → D
  pub mul : D → D → D
  -- the program divides by positive numbers only
  pub div : D → D → D
  -- `-x` of a literal and `x.copy_abs()`: exact, whatever the context
  pub copy_negate : D → D
  pub copy_abs : D → D
  -- `+x`: the value rounded to the context
  pub plus : D → D
  -- comparisons are exact too
  pub lt : D → D → Bool
  pub eq : D → D → Bool
  -- `x.quantize(Decimal("1E-k"))`
  pub quantize : D → ℕ → D

module _ {D : Type 0} ⦃n : Arith D⦄ where
  infixl 65 ◌+◌ ◌-◌
  infixl 70 ◌*◌ ◌/◌
  abbrev pub ◌+◌ : D → D → D
  a + b = n.add a b

  abbrev pub ◌-◌ : D → D → D
  a - b = n.sub a b

  abbrev pub ◌*◌ : D → D → D
  a * b = n.mul a b

  abbrev pub ◌/◌ : D → D → D
  a / b = n.div a b

  -- `ZERO`
  abbrev pub dec_zero : D
  dec_zero = n.dec 0 0

  abbrev pub one : D
  one = n.dec 1 0

  abbrev pub minus_one : D
  minus_one = n.copy_negate (n.dec 1 0)

  -- `a < b`, `a > b`, `a <= b` and `a == b`
  abbrev pub lt : D → D → Bool
  lt a b = n.lt a b

  abbrev pub gt : D → D → Bool
  gt a b = n.lt b a

  abbrev pub le : D → D → Bool
  le a b = not (n.lt b a)

  abbrev pub eq : D → D → Bool
  eq a b = n.eq a b

  abbrev pub copy_abs : D → D
  copy_abs a = n.copy_abs a

  -- `abs(x)` rounds as `+x` does.
  abbrev pub abs : D → D
  abs a = n.plus (n.copy_abs a)

  -- `min(a, b)` keeps the first of two equal values.
  abbrev pub min : D → D → D
  min a b = if n.lt b a then b else a
