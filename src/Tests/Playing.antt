-- ===== src/Tests/Playing.antt =====
-- The four scenarios, in ten-thousandths.
use Prim.Native.Nat.{◌*◌ as mul_ℕ, ◌/◌ as div_ℕ, ◌^◌}
use pdfsleuth.Common.{◌≡◌, refl, String, Option, none, some, List, [], ◌∷◌, map}
use pdfsleuth.Decimal.{Arith}
use pdfsleuth.Decimal.Whole.{ℤ, pos, ◌+ℤ◌, ◌-ℤ◌, ◌*ℤ◌, neg_ℤ, nat_abs, lt_ℤ, eq_ℤ, div_ℤ}
use pdfsleuth.Models.{Outcome, ok, raise}
use pdfsleuth.Reconcile.{ReconcileResult, Leg}
use pdfsleuth.Brokers.Mock.Sending.{World}
use pdfsleuth.Scenarios.{
  Stage, scenario_clean, scenario_partials, scenario_reject, scenario_mismatch,
}
use pdfsleuth.Tests.Texts.{strokes}
use pdfsleuth.Tests.Sessions.{computing}
use pdfsleuth.Tests.Samples.{arithmetic}

instance abbrev fine : Arith ℤ
fine = record {
  dec = λ c k. pos (div_ℕ (mul_ℕ c 10000) (10 ^ k));
  add = ◌+ℤ◌;
  sub = ◌-ℤ◌;
  mul = λ a b. div_ℤ (a *ℤ b) (pos 10000);
  div = λ a b. div_ℤ (a *ℤ pos 10000) b;
  copy_negate = neg_ℤ;
  copy_abs = λ a. pos (nat_abs a);
  plus = λ a. a;
  lt = lt_ℤ;
  eq = eq_ℤ;
  quantize = λ a k. a;
}

-- every execution has a name of its own
abbrev stage : Stage ℤ
stage = record {
  surroundings = record { now = 5; new_id = "o1"; show = λ d. "a number"; digest = λ s. "key" };
  world = record { name = λ prefix k. strokes k; fill_id = strokes; now = 3 };
  now = 6;
  rounds = 3;
}

-- where the breaks of the report are
abbrev located : Outcome ℤ (ReconcileResult ℤ) → Option (List (String × Leg))
located (raise x) = none
located (ok r) = some (map (λ b. (b.symbol, b.leg)) r.breaks)

clean : located (scenario_clean stage).2 ≡ some []
unfolding arithmetic computing scenario_clean strokes pdfsleuth.CostBasis.Average.apply
clean = refl

partials : located (scenario_partials stage).2 ≡ some []
unfolding arithmetic computing scenario_partials strokes pdfsleuth.CostBasis.Average.apply
    pdfsleuth.Brokers.Mock.Sending.drip_round pdfsleuth.Brokers.Mock.Slices.slice_qty
partials = refl

-- the rejection leaves both books empty
reject : located (scenario_reject stage).2 ≡ some []
unfolding arithmetic computing scenario_reject strokes
reject = refl

mismatch :
    located (scenario_mismatch stage).2
    ≡ some (("AAPL", Leg.avg_cost) ∷ ("AAPL", Leg.unrealized) ∷ ("*", Leg.unrealized) ∷ [])
unfolding arithmetic computing scenario_mismatch strokes pdfsleuth.CostBasis.Average.apply
mismatch = refl
