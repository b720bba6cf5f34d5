-- ===== src/Tests/Texts.antt =====
-- A codec for whole numbers and instants: a sign, and as many strokes as the number has ones.
use Prim.Native.Char.{code}
use Prim.Native.String.{String, [], ◌∷◌}
use pdfsleuth.Common.{ℕ, zero, suc, ◌≡◌, refl, ap, eq_ℕ, if◌then◌else◌}
use pdfsleuth.Decimal.Whole.{ℤ, pos, negsuc}
use pdfsleuth.Models.{Error, Outcome, ok, raise}
use pdfsleuth.Store.Rows.{Codec, IsFaithful}

unfoldable pub strokes : ℕ → String
strokes zero = ""
strokes (suc k) = "1" ∷ strokes k

unfoldable pub count : String → ℕ
count [] = 0
count (c ∷ rest) = suc (count rest)

count-strokes : (k : ℕ) → count (strokes k) ≡ k
unfolding strokes count
count-strokes zero = refl
count-strokes (suc k) = ap suc (count-strokes k)

unfoldable pub show : ℤ → String
unfolding strokes
show (pos k) = "+" ∷ strokes k
show (negsuc k) = "-" ∷ strokes k

unfoldable pub number : String → Outcome ℤ ℤ
unfolding count
number [] = raise Error.value_error
number (c ∷ rest) = if eq_ℕ (code c) 43 then ok (pos (count rest)) else ok (negsuc (count rest))

number-show : (x : ℤ) → number (show x) ≡ ok x
unfolding show number
number-show (pos k) = ap (λ n. ok (pos n)) (count-strokes k)
number-show (negsuc k) = ap (λ n. ok (negsuc n)) (count-strokes k)

abbrev pub codec : Codec ℤ
codec = record { show = show; decimal = number; iso = strokes; from_iso = λ s. ok (count s) }

pub codec-IsFaithful : IsFaithful codec
codec-IsFaithful = record {
  decimal-show = number-show;
  from_iso-iso = λ t. ap (λ n. ok n) (count-strokes t);
}
