-- ===== src/Store/Connection.antt =====
-- How app/store.py opens and closes its connection. The module `sqlite3` is a record of functions on
-- what is outside of the program, with handles for its connections.
use pdfsleuth.Common.{
  ℕ, suc, ◌≡◌, String, Bool, true, not, ◌&&◌, Option, none, some, ◌==◌, if◌then◌else◌,
}
use pdfsleuth.Models.{Error, Outcome, ok, raise}
use pdfsleuth.Store.Actions.{Action, pure, continue, ◌>>◌}

-- `sqlite3.connect` with no isolation level, `PRAGMA` statements, `executescript(SCHEMA)` and `close`
pub record Driver (D H W : Type 0) : Type 0 where
  pub connect : String → W → W × Outcome D H
  pub pragma : String → H → Action D W Unit
  pub executescript : H → Action D W Unit
  pub close : H → Action D W Unit

pub record Store (H : Type 0) : Type 0 where
  pub path : String
  pub wal : Bool
  pub conn : Option H

-- `Store(path)`
abbrev pub new_store : {H : Type 0} → String → Store H
new_store path = record { path = path; wal = true; conn = none }

module _ {D H W : Type 0} (d : Driver D H W) where
  abbrev pub outside : {A : Type 0} → Store H → W × Outcome D A → (Store H × W) × Outcome D A
  outside st (w, r) = ((st, w), r)

  -- `self.wal and self.path != ":memory:"`
  abbrev pub logs_ahead : Store H → Bool
  logs_ahead st = st.wal && not (st.path == ":memory:")

  abbrev pub pragmas : Store H → H → Action D W Unit
  pragmas st h =
      d.pragma "foreign_keys=ON" h
      >> (if logs_ahead st
          then d.pragma "journal_mode=WAL" h >> d.pragma "synchronous=NORMAL" h
          else pure tt)

  -- The connection is kept as soon as it is there, also where a pragma raises.
  abbrev pub connected : Store H → W × Outcome D H → (Store H × W) × Outcome D Unit
  connected st (w, raise x) = ((st, w), raise x)
  connected st (w, ok h) = let st' = record st { conn = some h } in outside st' (pragmas st' h w)

  -- The store that `open`, `init` and `__enter__` return is the one that they are called on.
  unfoldable pub open_store : Action D (Store H × W) Unit
  open_store (st, w) = connected st (d.connect st.path w)

  -- a method behind its `assert self.conn is not None`
  abbrev pub asserted : {A : Type 0} → Option H → (H → Action D W A) → Action D (Store H × W) A
  asserted none method (st, w) = ((st, w), raise Error.other_error)
  asserted (some h) method (st, w) = outside st (method h w)

  unfoldable pub with_conn : {A : Type 0} → (H → Action D W A) → Action D (Store H × W) A
  with_conn method (st, w) = asserted st.conn method (st, w)

  abbrev pub open_if_none : Option H → Action D (Store H × W) Unit
  open_if_none none = open_store
  open_if_none (some h) = pure tt

  unfoldable pub init : Action D (Store H × W) Unit
  unfolding open_store with_conn
  init (st, w) = (open_if_none st.conn >> with_conn d.executescript) (st, w)

  abbrev pub closed : Store H → W × Outcome D Unit → (Store H × W) × Outcome D Unit
  closed st (w, raise x) = ((st, w), raise x)
  closed st (w, ok _) = ((record st { conn = none }, w), ok tt)

  abbrev pub close_conn : Option H → Action D (Store H × W) Unit
  close_conn none (st, w) = ((st, w), ok tt)
  close_conn (some h) (st, w) = closed st (d.close h w)

  unfoldable pub close : Action D (Store H × W) Unit
  close (st, w) = close_conn st.conn (st, w)

  -- `__enter__`
  unfoldable pub enter : Action D (Store H × W) Unit
  unfolding init
  enter = open_store >> init

  abbrev pub exited :
      {A : Type 0} → Outcome D A → (Store H × W) × Outcome D Unit → (Store H × W) × Outcome D A
  exited result (sw, raise x) = (sw, raise x)
  exited result (sw, ok _) = (sw, result)

  -- `with Store(path) as store: body`; `__exit__` is called only behind an `__enter__` that returned.
  unfoldable pub with_store : {A : Type 0} → Action D (Store H × W) A → Action D (Store H × W) A
  unfolding enter close
  with_store body sw =
      continue (λ _ sw'. let (sw'', result) = body sw' in exited result (close sw'')) (enter sw)

-- What the store relies on: a connection is open from `connect` until it is closed, and statements
-- open and close none.
pub record IsDriver {D H W : Type 0} (d : Driver D H W) : Type 1 where
  -- how many connections are open
  pub count : W → ℕ
  pub IsLive : W → H → Type 0
  pub connect_fails :
      (path : String) (w : W) (x : Error D)
      → (d.connect path w).1 ≡ raise x
      → count (d.connect path w).0 ≡ count w
  pub connect_opens :
      (path : String) (w : W) (h : H)
      → (d.connect path w).1 ≡ ok h
      → (count (d.connect path w).0 ≡ suc (count w)) × IsLive (d.connect path w).0 h
  pub pragma_keeps :
      (text : String) (h : H) (w : W)
      → (count (d.pragma text h w).0 ≡ count w) × (IsLive w h → IsLive (d.pragma text h w).0 h)
  pub script_keeps :
      (h : H) (w : W)
      → (count (d.executescript h w).0 ≡ count w) × (IsLive w h → IsLive (d.executescript h w).0 h)
  pub close_closes :
      (h : H) (w : W) → IsLive w h → (d.close h w).1 ≡ ok tt → suc (count (d.close h w).0) ≡ count w
  pub close_fails :
      (h : H) (w : W) (x : Error D)
      → IsLive w h
      → (d.close h w).1 ≡ raise x
      → (count (d.close h w).0 ≡ count w) × IsLive (d.close h w).0 h
