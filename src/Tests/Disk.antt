-- ===== src/Tests/Disk.antt =====
-- A database in memory whose disk takes a number of statements and then fails, as an instance of
-- what the store relies on.
use pdfsleuth.Common.{
  ℕ, zero, suc, ◌≡◌, refl, sym, ap, String, true, Option, none, some, List, [], ◌∷◌, arith, lookup,
  values, is_some, contains, ◌==◌, if◌then◌else◌,
}
use pdfsleuth.Decimal.Whole.{ℤ}
use pdfsleuth.Models.{Error, ok, raise}
use pdfsleuth.Store.Actions.{Action}
use pdfsleuth.Store.Sqlite.{Database, IsSql, Tables, FillRow, OrderRow, Write, written, has_exec}

pub record Disk : Type 0 where
  pub committed : Tables
  pub pending : Option Tables
  pub budget : ℕ

abbrev reads_at : Option Tables → Tables → Tables
reads_at none committed = committed
reads_at (some t) committed = t

abbrev pub reads : Disk → Tables
reads d = reads_at d.pending d.committed

abbrev begin_at : Option Tables → Action ℤ Disk Unit
begin_at none d = (record d { pending = some d.committed }, ok tt)
begin_at (some t) d = (d, raise Error.other_error)

abbrev commit_at : ℕ → Option Tables → Action ℤ Disk Unit
commit_at zero _ d = (d, raise Error.other_error)
commit_at (suc k) none d = (d, raise Error.other_error)
commit_at (suc k) (some t) d = (record { committed = t; pending = none; budget = k }, ok tt)

abbrev rollback_at : Option Tables → Action ℤ Disk Unit
rollback_at none d = (d, raise Error.other_error)
rollback_at (some t) d = (record d { pending = none }, ok tt)

-- with no transaction open, a statement commits by itself
unfoldable pub execute_at : ℕ → Option Tables → Write → Action ℤ Disk Unit
unfolding written
execute_at zero _ w d = (d, raise Error.other_error)
execute_at (suc k) none w d = (record d { committed = written w d.committed; budget = k }, ok tt)
execute_at (suc k) (some t) w d = (record d { pending = some (written w t); budget = k }, ok tt)

abbrev of_order : String → List FillRow → List FillRow
of_order id [] = []
of_order id (r ∷ rs) = if r.order_id == id then r ∷ of_order id rs else of_order id rs

abbrev with_status : List String → List OrderRow → List OrderRow
with_status statuses [] = []
with_status statuses (r ∷ rs) =
    if contains r.status statuses then r ∷ with_status statuses rs else with_status statuses rs

abbrev pub disk : Database ℤ Disk
disk = record {
  begin = λ d. begin_at d.pending d;
  commit = λ d. commit_at d.budget d.pending d;
  rollback = λ d. rollback_at d.pending d;
  execute = λ w d. execute_at d.budget d.pending w d;
  seen = λ id d. (d, ok (has_exec id (reads d).fills));
  select_orders = λ d. ok (values (reads d).orders);
  select_orders_in = λ statuses d. ok (with_status statuses (values (reads d).orders));
  select_order = λ id d. ok (lookup id (reads d).orders);
  select_fills = λ d. ok (reads d).fills;
  select_fills_of = λ id d. ok (of_order id (reads d).fills);
  select_positions = λ d. ok (values (reads d).positions);
}

pub record IsOpen (s t : Disk) : Type 0 where
  pub base : t.committed ≡ reads s
  pub open_now : is_some t.pending ≡ true

pub execute_at-writes :
    (s t : Disk) (w : Write) (k : ℕ) (p : Option Tables)
    → t.pending ≡ p
    → IsOpen s t
    → (execute_at k p w t).1 ≡ ok tt
    → IsOpen s (execute_at k p w t).0 × (reads (execute_at k p w t).0 ≡ written w (reads t))
unfolding execute_at
execute_at-writes s t w zero p e o h = absurd (cc)
execute_at-writes s t w (suc k) none e o h = absurd (ground (arith, o.open_now))
execute_at-writes s t w (suc k) (some q) e o h = (
  record { base = o.base; open_now = refl },
  ap (λ found. written w (reads_at found t.committed)) (sym e),
)

unfoldable pub disk-IsSql : IsSql disk
unfolding execute_at
disk-IsSql = record {
  reads = reads;
  IsIdle = λ d. d.pending ≡ none;
  IsOpen = IsOpen;
  IsAborted = λ s t. t.committed ≡ reads s;
  begin_fails = λ s x i e. ground arith;
  begin_starts = λ s i e. ground arith;
  execute_fails = λ s t w x o e. ground arith;
  execute_writes = λ s t w o e. execute_at-writes s t w t.budget t.pending refl o e;
  seen_fails = λ s t id x o e. ground arith;
  seen_finds = λ s t id found o e. ground arith;
  commit_fails = λ s t x o e. ground arith;
  commit_ends = λ s t o e. ground arith;
  rollback_open = λ s t o. ground arith;
  rollback_aborted = λ s t a. ground arith;
  rollback_idle = λ t i. ground arith;
  select_orders-reads = λ s rows i e. ground arith;
  select_order-reads = λ s id row i e. ground arith;
}
