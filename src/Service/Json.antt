-- ===== src/Service/Json.antt =====
-- The rows of the answers of app/main.py, as the dicts that become JSON. `str` of a Decimal is an
-- argument.
use pdfsleuth.Common.{ℕ, String, Bool, Option, none, some, List, [], ◌∷◌, map, Dict}
use pdfsleuth.Decimal.{Arith, ◌-◌}
use pdfsleuth.Models.{Order, Position, side_value, order_type_value}
use pdfsleuth.Config.Loading.{source_value}
use pdfsleuth.Reconcile.Rendering.{leg_text, cause_value}
use pdfsleuth.Reconcile.{Break, ReconcileResult, clean, has_breaks}
use pdfsleuth.Store.Rows.{status_value}

pub data Json : Type 0 where
  null : Json
  text : String → Json
  truth : Bool → Json

abbrev pub optional_text : Option String → Json
optional_text none = Json.null
optional_text (some s) = Json.text s

abbrev pub optional_number : {D : Type 0} → (D → String) → Option D → Json
optional_number str none = Json.null
optional_number str (some x) = Json.text (str x)

pub record ReportJson : Type 0 where
  pub clean : Bool
  pub has_breaks : Bool
  pub mark_source : String
  pub checked : ℕ
  pub breaks : List (Dict Json)

module _ {D : Type 0} (str : D → String) where
  -- `_order_json`
  abbrev pub order_json : Order D → Dict Json
  order_json o =
      ("order_id", Json.text o.order_id)
      ∷ ("client_order_id", optional_text o.client_order_id)
      ∷ ("broker_order_id", optional_text o.broker_order_id)
      ∷ ("symbol", Json.text o.symbol)
      ∷ ("side", Json.text (side_value o.side))
      ∷ ("qty", Json.text (str o.qty))
      ∷ ("order_type", Json.text (order_type_value o.order_type))
      ∷ ("limit_price", optional_number str o.limit_price)
      ∷ ("status", Json.text (status_value o.status))
      ∷ ("filled_qty", Json.text (str o.filled_qty))
      ∷ ("avg_fill_price", Json.text (str o.avg_fill_price))
      ∷ ("fees", Json.text (str o.fees))
      ∷ ("reject_reason", optional_text o.reject_reason)
      ∷ ("terminal_confirmed", Json.truth o.terminal_confirmed)
      ∷ []

  -- `_position_json`
  abbrev pub position_json : Position D → Dict Json
  position_json p =
      ("symbol", Json.text p.symbol)
      ∷ ("qty", Json.text (str p.qty))
      ∷ ("avg_cost", Json.text (str p.avg_cost))
      ∷ ("realized_pnl", Json.text (str p.realized_pnl))
      ∷ ("fees_paid", Json.text (str p.fees_paid))
      ∷ []

module _ {D : Type 0} ⦃n : Arith D⦄ (str : D → String) where
  abbrev pub break_json : Break D → Dict Json
  break_json b =
      ("symbol", Json.text b.symbol)
      ∷ ("leg", Json.text (leg_text b.leg))
      ∷ ("engine", Json.text (str b.engine))
      ∷ ("broker", Json.text (str b.broker))
      ∷ ("diff", Json.text (str (b.engine - b.broker)))
      ∷ ("cause", Json.text (cause_value b.cause))
      ∷ []

  -- `_report_json`
  abbrev pub report_json : ReconcileResult D → ReportJson
  report_json r = record {
    clean = clean r;
    has_breaks = has_breaks r;
    mark_source = source_value r.mark_source;
    checked = r.checked;
    breaks = map break_json r.breaks;
  }
