-- ===== src/Reconcile.antt =====
-- app/reconcile.py: the engine's positions and P&L against the broker's snapshot. The snapshot is
-- that of app/brokers/base.py.
pub mod Breaks
pub mod Matching
pub mod Symbols
pub mod Reports
pub mod Rendering
use Prim.Native.Nat.{Ordering, ◌+◌, ◌*◌}
use Prim.Native.String.{compare}
use pdfsleuth.Common.{
  ℕ, String, Bool, true, false, not, Option, none, some, List, [], ◌∷◌, ◌++◌, map, foldl, Dict,
  lookup, insert, if◌then◌else◌, is_empty, length, ◌==◌,
}
use pdfsleuth.Decimal.{Arith, ◌-◌, dec_zero, gt, abs}
use pdfsleuth.Models.{Position, BrokerPosition}
use pdfsleuth.Config.{ReconcileConfig, MarkSource}
use pdfsleuth.Pnl
use pdfsleuth.Pnl.{PnlReport, PnlLine}

-- `PnlSnapshot` of app/brokers/base.py
pub record PnlSnapshot (D : Type 0) : Type 0 where
  pub realized_pnl : D
  pub unrealized_pnl : D
  pub fees : D
  pub positions : List (BrokerPosition D)

pub data Cause : Type 0 where
  missing_fill fee_treatment mark_source unknown : Cause

pub data Leg : Type 0 where
  qty avg_cost realized unrealized : Leg

-- `symbol` is "*" on the account's rows.
pub record Break (D : Type 0) : Type 0 where
  pub symbol : String
  pub leg : Leg
  pub engine : D
  pub broker : D
  pub tolerance : D
  pub cause : Cause

pub record ReconcileResult (D : Type 0) : Type 0 where
  pub breaks : List (Break D)
  pub checked : ℕ
  pub mark_source : MarkSource

module _ {D : Type 0} where
  abbrev pub has_breaks : ReconcileResult D → Bool
  has_breaks r = not (is_empty r.breaks)

  abbrev pub clean : ReconcileResult D → Bool
  clean r = not (has_breaks r)

  unfoldable pub breaks_for : String → List (Break D) → List (Break D)
  breaks_for symbol [] = []
  breaks_for symbol (b ∷ bs) =
      if b.symbol == symbol then b ∷ breaks_for symbol bs else breaks_for symbol bs

-- `_index`: a later item replaces an earlier one of its symbol.
abbrev pub index : {A : Type 0} → (A → String) → List A → Dict A
index symbol_of items = foldl (λ d i. insert (symbol_of i) i d) [] items

-- `_classify`
abbrev pub cause_of : Bool → Bool → Bool → Cause
cause_of qty_off avg_off unreal_off =
    if qty_off
    then Cause.missing_fill
    else if avg_off
    then Cause.fee_treatment
    else if unreal_off
    then Cause.mark_source
    else Cause.unknown

-- What the two sides say of a symbol.
pub record Views (D : Type 0) : Type 0 where
  pub e_qty : D
  pub b_qty : D
  pub e_avg : D
  pub b_avg : D
  pub e_un : D
  pub b_un : D

-- `sorted(set(...))` of texts, by code points
unfoldable pub insert_sorted : String → List String → List String
insert_sorted s [] = s ∷ []
insert_sorted s (t ∷ ts) = elim (compare s t) [
  | Ordering.lt ↦ s ∷ t ∷ ts
  | Ordering.eq ↦ t ∷ ts
  | Ordering.gt ↦ t ∷ insert_sorted s ts
]

unfoldable pub sorted_set : List String → List String
sorted_set [] = []
sorted_set (s ∷ ss) = insert_sorted s (sorted_set ss)

abbrev pub keys : {A : Type 0} → Dict A → List String
keys d = map (λ e. e.0) d

module _ {D : Type 0} ⦃n : Arith D⦄ where
  abbrev pub diff : Break D → D
  diff b = b.engine - b.broker

  abbrev pub or_zero : {A : Type 0} → (A → D) → Option A → D
  or_zero field none = dec_zero
  or_zero field (some a) = field a

  -- `abs(a - b) > tolerance`
  abbrev pub is_off : D → D → D → Bool
  is_off a b tolerance = gt (abs (a - b)) tolerance

  -- a break of one leg, if it is off
  abbrev pub broken : Bool → Break D → List (Break D)
  broken off b = if off then b ∷ [] else []

  abbrev pub views :
      Dict (Position D) → Dict (BrokerPosition D) → Dict (PnlLine D) → String → Views D
  views eng brk lines symbol = record {
    e_qty = or_zero (λ p. p.qty) (lookup symbol eng);
    b_qty = or_zero (λ p. p.qty) (lookup symbol brk);
    e_avg = or_zero (λ p. p.avg_cost) (lookup symbol eng);
    b_avg = or_zero (λ p. p.avg_cost) (lookup symbol brk);
    e_un = or_zero (λ l. l.unrealized) (lookup symbol lines);
    b_un = or_zero (λ p. p.unrealized_pnl) (lookup symbol brk);
  }

  -- The body of the loop for one symbol.
  unfoldable pub symbol_breaks : ReconcileConfig D → String → Views D → List (Break D)
  symbol_breaks cfg symbol v =
      let qty_off = is_off v.e_qty v.b_qty cfg.qty_tolerance in
      let avg_off = is_off v.e_avg v.b_avg cfg.price_tolerance in
      let unreal_off = is_off v.e_un v.b_un cfg.pnl_tolerance in
      let cause = cause_of qty_off avg_off unreal_off in
      broken qty_off (record {
        symbol = symbol;
        leg = Leg.qty;
        engine = v.e_qty;
        broker = v.b_qty;
        tolerance = cfg.qty_tolerance;
        cause = cause;
      })
      ++ (broken avg_off (record {
        symbol = symbol;
        leg = Leg.avg_cost;
        engine = v.e_avg;
        broker = v.b_avg;
        tolerance = cfg.price_tolerance;
        cause = cause;
      })
          ++ broken unreal_off (record {
            symbol = symbol;
            leg = Leg.unrealized;
            engine = v.e_un;
            broker = v.b_un;
            tolerance = cfg.pnl_tolerance;
            cause = cause;
          }))

  unfoldable pub all_breaks : ReconcileConfig D → (String → Views D) → List String → List (Break D)
  unfolding symbol_breaks
  all_breaks cfg view [] = []
  all_breaks cfg view (s ∷ ss) = symbol_breaks cfg s (view s) ++ all_breaks cfg view ss

  -- The rows of the account's totals.
  unfoldable pub account_breaks : ReconcileConfig D → PnlReport D → PnlSnapshot D → List (Break D)
  account_breaks cfg pnl broker =
      broken (is_off (Pnl.realized pnl) broker.realized_pnl cfg.pnl_tolerance) (record {
        symbol = "*";
        leg = Leg.realized;
        engine = Pnl.realized pnl;
        broker = broker.realized_pnl;
        tolerance = cfg.pnl_tolerance;
        cause = Cause.fee_treatment;
      })
      ++ broken (is_off (Pnl.unrealized pnl) broker.unrealized_pnl cfg.pnl_tolerance) (record {
        symbol = "*";
        leg = Leg.unrealized;
        engine = Pnl.unrealized pnl;
        broker = broker.unrealized_pnl;
        tolerance = cfg.pnl_tolerance;
        cause = Cause.mark_source;
      })

  -- the symbols that either side holds
  abbrev pub symbols_of : List (Position D) → List (BrokerPosition D) → List String
  symbols_of positions broker =
      sorted_set (keys (index (λ p. p.symbol) positions) ++ keys (index (λ p. p.symbol) broker))

  abbrev pub view_of : List (Position D) → PnlReport D → PnlSnapshot D → String → Views D
  view_of positions pnl broker =
      views (index (λ p. p.symbol) positions) (index (λ p. p.symbol) broker.positions)
        (index (λ l. l.symbol) pnl.lines)

  unfoldable pub reconcile :
      ReconcileConfig D → List (Position D) → PnlReport D → PnlSnapshot D → ReconcileResult D
  unfolding all_breaks account_breaks
  reconcile cfg positions pnl broker =
      let symbols = symbols_of positions broker.positions in
      record {
        breaks =
            all_breaks cfg (view_of positions pnl broker) symbols ++ account_breaks cfg pnl broker;
        checked = length symbols * 3 + 2;
        mark_source = pnl.mark_source;
      }
