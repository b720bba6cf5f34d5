-- ===== src/Service/Lifespan.antt =====
-- `lifespan` of app/main.py on the mock adapters, and the rest of `_build`: the store is opened, the
-- engine loaded, the feed subscribed and the two loops started, and all of it is released at the
-- end. `split` is `text.split(",")`, and `database` the statements on an open connection.
pub mod Connections
use pdfsleuth.Common.{
  ℕ, suc, ◌≡◌, refl, String, Bool, true, false, Option, none, some, List, [], ◌∷◌, ◌==◌, ◌⊎◌, inl,
  inr, if◌then◌else◌, arith, ◌∙◌, sym, is_some, subst,
}
use pdfsleuth.Decimal.{Arith}
use pdfsleuth.Models.{Instant, Error, Outcome, ok, raise}
use pdfsleuth.Config.{Config}
use pdfsleuth.Config.Loading.{Environment, Readers, env}
use pdfsleuth.Brokers.Mock.{MockConfig, MockBroker}
use pdfsleuth.Brokers.Mock.Tasks.{close}
use pdfsleuth.Feeds.Mock.{MockFeed, subscribe}
use pdfsleuth.Store.Actions.{Action}
use pdfsleuth.Store.Connection
use pdfsleuth.Store.Connection.{Driver, IsDriver, Store, new_store, enter, with_conn}
use pdfsleuth.Engine.{Engine}
use pdfsleuth.Engine.Stored.{load_stored}
use pdfsleuth.Store.Sqlite.{Database}
use pdfsleuth.Store.Rows.{Codec}
use pdfsleuth.Service.Building.{build}

-- What the environment of the process supplies to a start.
pub record Process (D : Type 0) : Type 0 where
  pub readers : Readers D
  pub environment : Environment
  pub lower : String → String
  pub split : String → List String
  pub now : Instant

-- `app.state.engine` and `app.state._runtime`; `looping` says whether the loops are running.
pub record Runtime (D H : Type 0) : Type 0 where
  pub broker : MockBroker D
  pub feed : MockFeed D
  pub engine : Engine D
  pub store : Store H
  pub looping : Bool

-- `[s for s in ... if s]`
unfoldable pub named : List String → List String
named [] = []
named (s ∷ ss) = let rest = named ss in if s == "" then rest else s ∷ rest

module _ {D H W : Type 0} ⦃n : Arith D⦄ (d : Driver D H W) (database : H → Database D W)
    (codec : Codec D) where
  -- `engine.load()` reads the rows on the connection of the store.
  abbrev pub load_engine : Process D → Config D → H → Action D W (Engine D)
  load_engine p cfg h w = (w, load_stored (database h) codec (codec.iso p.now) p.now cfg w)

  -- `os.getenv("PNL_SYMBOLS", "AAPL")`
  abbrev pub symbols_of : Process D → List String
  symbols_of p = named (p.split (env p.environment "PNL_SYMBOLS" "AAPL"))

  abbrev pub running : Process D → MockBroker D → MockFeed D → Store H → Engine D → Runtime D H
  running p b f st e = record {
    broker = b;
    feed = subscribe p.now (symbols_of p) f;
    engine = e;
    store = st;
    looping = true;
  }

  -- An exception before the `try` leaves all as it is: nothing is closed.
  abbrev pub loaded :
      Process D
      → MockBroker D
      → MockFeed D
      → (Store H × W) × Outcome D (Engine D)
      → W × Outcome D (Runtime D H)
  loaded p b f ((st, w), raise x) = (w, raise x)
  loaded p b f ((st, w), ok e) = (w, ok (running p b f st e))

  abbrev pub opened :
      Process D
      → Config D
      → MockBroker D
      → MockFeed D
      → (Store H × W) × Outcome D Unit
      → W × Outcome D (Runtime D H)
  opened p cfg b f (sw, raise x) = (sw.1, raise x)
  opened p cfg b f (sw, ok _) = loaded p b f (with_conn d (load_engine p cfg) sw)

  abbrev pub built :
      Process D → Outcome D (Config D × MockBroker D × MockFeed D) → W → W × Outcome D (Runtime D H)
  built p (raise x) w = (w, raise x)
  built p (ok (cfg, b, f)) w = opened p cfg b f (enter d (new_store cfg.db_path, w))

  -- up to the `yield`, where no engine was preset
  unfoldable pub startup : Process D → MockConfig D → MockFeed D → W → W × Outcome D (Runtime D H)
  unfolding build
  startup p c feed w = built p (build p.readers p.environment p.lower c feed) w

  -- The `finally` block. The mock adapters raise nothing when they are closed, and the feed has
  -- nothing to release.
  unfoldable pub shutdown : Runtime D H → W → (Runtime D H × W) × Outcome D Unit
  shutdown r w =
      let ((st, w'), result) = Connection.close d (r.store, w) in
      ((record r { looping = false; broker = close r.broker; store = st }, w'), result)
