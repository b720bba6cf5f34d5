-- ===== src/Reconcile/Rendering.antt =====
-- The texts of a report of app/reconcile.py: `located` and `render`. What format strings make of a
-- value is an argument.
use Prim.Native.String.{◌++◌ as append}
use pdfsleuth.Common.{ℕ, String, Bool, true, false, List, [], ◌∷◌, map, length}
use pdfsleuth.Decimal.{Arith}
use pdfsleuth.Config.{MarkSource}
use pdfsleuth.Reconcile.{Leg, Cause, Break, ReconcileResult, clean, diff}

-- the texts of a leg, and `Cause.value`
abbrev pub leg_text : Leg → String
leg_text Leg.qty = "qty"
leg_text Leg.avg_cost = "avg_cost"
leg_text Leg.realized = "realized"
leg_text Leg.unrealized = "unrealized"

abbrev pub cause_value : Cause → String
cause_value Cause.missing_fill = "MISSING_FILL"
cause_value Cause.fee_treatment = "FEE_TREATMENT"
cause_value Cause.mark_source = "MARK_SOURCE"
cause_value Cause.unknown = "UNKNOWN"

-- `str` of a Decimal and of a number, `{:<w}` and `{:>w}`, and `"-" * (len(cols) - 2)`
pub record Format (D : Type 0) : Type 0 where
  pub decimal : D → String
  pub number : ℕ → String
  pub source : MarkSource → String
  pub left : ℕ → String → String
  pub right : ℕ → D → String
  pub right_text : ℕ → String → String
  pub dashes : String → String

abbrev concat : List String → String
concat [] = ""
concat (s ∷ ss) = append s (concat ss)

-- `"\n".join(lines)`
abbrev pub join_lines : List String → String
join_lines [] = ""
join_lines (l ∷ []) = l
join_lines (l ∷ ls) = append l (append "\n" (join_lines ls))

abbrev pub truth_text : Bool → String
truth_text true = "True"
truth_text false = "False"

module _ {D : Type 0} ⦃n : Arith D⦄ (fmt : Format D) where
  abbrev pub located_line : Break D → String
  located_line b = concat (
      b.symbol
      ∷ "/"
      ∷ leg_text b.leg
      ∷ " diff="
      ∷ fmt.decimal (diff b)
      ∷ " cause="
      ∷ cause_value b.cause
      ∷ [])

  unfoldable pub located : ReconcileResult D → List String
  located r = map located_line r.breaks

  abbrev pub head_line : ReconcileResult D → String
  head_line r = concat (
      "reconcile (mark_source="
      ∷ fmt.source r.mark_source
      ∷ ") checked="
      ∷ fmt.number r.checked
      ∷ " breaks="
      ∷ fmt.number (length r.breaks)
      ∷ " clean="
      ∷ truth_text (clean r)
      ∷ [])

  abbrev pub columns : String
  columns = concat (
      "  "
      ∷ fmt.left 8 "symbol"
      ∷ " "
      ∷ fmt.left 12 "leg"
      ∷ " "
      ∷ fmt.right_text 14 "engine"
      ∷ " "
      ∷ fmt.right_text 14 "broker"
      ∷ " "
      ∷ fmt.right_text 14 "diff"
      ∷ "  cause"
      ∷ [])

  abbrev pub break_line : Break D → String
  break_line b = concat (
      "  "
      ∷ fmt.left 8 b.symbol
      ∷ " "
      ∷ fmt.left 12 (leg_text b.leg)
      ∷ " "
      ∷ fmt.right 14 b.engine
      ∷ " "
      ∷ fmt.right 14 b.broker
      ∷ " "
      ∷ fmt.right 14 (diff b)
      ∷ "  "
      ∷ cause_value b.cause
      ∷ [])

  unfoldable pub render : ReconcileResult D → String
  render r =
      join_lines
        (head_line r ∷ columns ∷ append "  " (fmt.dashes columns) ∷ map break_line r.breaks)
