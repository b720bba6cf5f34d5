-- ===== src/Service/Building.antt =====
-- The factories of app/brokers/__init__.py and app/feeds/__init__.py, and the part of `_build` of
-- app/main.py that chooses the adapters. `text.lower()` is an argument, and so is what the adapters
-- are made with.
use pdfsleuth.Common.{◌≡◌, refl, String, false, [], ◌∷◌, ◌==◌, contains, if◌then◌else◌}
use pdfsleuth.Decimal.{Arith}
use pdfsleuth.Models.{Error, Outcome, ok, raise}
use pdfsleuth.Models.Outcomes.{◌>>=◌}
use pdfsleuth.Config.{Config, using_live_adapter}
use pdfsleuth.Config.Loading.{Environment, Readers, load_config}
use pdfsleuth.Config.Environment.{mock_adapters}
use pdfsleuth.Brokers.Mock.{MockConfig, MockBroker, init}
use pdfsleuth.Feeds.Mock.{MockFeed}

-- `name or "mock"`
abbrev pub name_or_mock : String → String
name_or_mock name = if name == "" then "mock" else name

unfoldable pub get_broker :
    {D : Type 0} ⦃n : Arith D⦄
    → (String → String)
    → String
    → MockConfig D
    → Outcome D (MockBroker D)
get_broker lower name c =
    if contains (lower (name_or_mock name)) ("mock" ∷ "paper" ∷ lower "MOCK" ∷ [])
    then ok (init c)
    else raise Error.value_error

unfoldable pub get_feed :
    {D : Type 0} → (String → String) → String → MockFeed D → Outcome D (MockFeed D)
get_feed lower name feed =
    if contains (lower (name_or_mock name)) ("mock" ∷ "paper" ∷ [])
    then ok feed
    else raise Error.value_error

module _ {D : Type 0} ⦃n : Arith D⦄ where
  -- The first lines of `_build`.
  unfoldable pub build :
      Readers D
      → Environment
      → (String → String)
      → MockConfig D
      → MockFeed D
      → Outcome D (Config D × MockBroker D × MockFeed D)
  unfolding get_broker get_feed
  build rs e lower c feed = do
    cfg ← load_config rs e
    b ← get_broker lower cfg.broker_adapter c
    f ← get_feed lower cfg.feed_adapter feed
    ok (cfg, b, f)

  -- Where the settings load and use no live adapter, the service is built on the two mocks.
  pub build-load_config :
      (rs : Readers D) (e : Environment) (lower : String → String) (c : MockConfig D)
      (feed : MockFeed D) {cfg : Config D}
      → lower "mock" ≡ "mock"
      → load_config rs e ≡ ok cfg
      → using_live_adapter cfg ≡ false
      → build rs e lower c feed ≡ ok (cfg, init c, feed)
  unfolding build
  build-load_config rs e lower c feed {cfg} low loaded mocks =
      let (broker, feeds) = mock_adapters cfg mocks in rw (loaded, broker, feeds, low) refl
