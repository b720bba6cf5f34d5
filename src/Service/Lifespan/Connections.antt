-- ===== src/Service/Lifespan/Connections.antt =====
-- The connections that are open after a start and a stop of app/main.py.
use pdfsleuth.Common.{
  ℕ, suc, ◌≡◌, refl, true, false, Option, none, some, [], ◌⊎◌, inl, inr, ap, ◌∙◌, sym, is_some,
  subst,
}
use pdfsleuth.Decimal.{Arith}
use pdfsleuth.Models.{Error, Outcome, ok, raise}
use pdfsleuth.Config.{Config}
use pdfsleuth.Brokers.Mock.{MockConfig, MockBroker}
use pdfsleuth.Feeds.Mock.{MockFeed}
use pdfsleuth.Store.Connection
use pdfsleuth.Store.Connection.{Driver, IsDriver, Store, new_store, enter, with_conn}
use pdfsleuth.Store.Sessions.{closed_ok, close-Closes}
use pdfsleuth.Store.Sessions.Opening.{Holds, IsHeld, enter-IsHeld, with_conn-IsHeld, with_conn_some}
use pdfsleuth.Engine.{Engine}
use pdfsleuth.Engine.Stored.{load_stored}
use pdfsleuth.Store.Sqlite.{Database}
use pdfsleuth.Store.Rows.{Codec}
use pdfsleuth.Service.Building.{build}
use pdfsleuth.Service.Lifespan.{
  Process, Runtime, load_engine, loaded, opened, built, startup, shutdown,
}

ok_inj : {D A : Type 0} {a b : A} → ◌≡◌ {A = Outcome D A} (ok a) (ok b) → a ≡ b
ok_inj e = cc

module _ {D H W : Type 0} ⦃n : Arith D⦄ (d : Driver D H W) (database : H → Database D W)
    (codec : Codec D) (laws : IsDriver d) where
  -- the one connection that is open beside `base` others is the store's
  abbrev HoldsOne : ℕ → Store H → W → Type 0
  HoldsOne base st w = (h : H) × (st.conn ≡ some h) × (laws.count w ≡ suc base) × laws.IsLive w h

  -- A start that returned has the loops running and holds one connection; one that raised has at
  -- most one connection more open than before.
  abbrev Started : ℕ → W × Outcome D (Runtime D H) → Type 0
  Started base (w, raise x) = (laws.count w ≡ base) ⊎ (laws.count w ≡ suc base)
  Started base (w, ok r) = (r.looping ≡ true) × HoldsOne base r.store w

  counted :
      (base : ℕ) (c : Option H) (w : W)
      → Holds d laws base c w
      → (laws.count w ≡ base) ⊎ (laws.count w ≡ suc base)
  counted base none w same = inl same
  counted base (some h) w (more, live) = inr more

  holds_one :
      (base : ℕ) (st : Store H) (w : W) (c : Option H)
      → st.conn ≡ c
      → is_some c ≡ true
      → Holds d laws base c w
      → HoldsOne base st w
  holds_one base st w none is has held = absurd (cc)
  holds_one base st w (some h) is has (more, live) = (h, is, more, live)

  startup-Started :
      (p : Process D) (c : MockConfig D) (feed : MockFeed D) (w : W)
      → Started (laws.count w) (startup d database codec p c feed w)
  unfolding startup
  startup-Started p c feed w = from (build p.readers p.environment p.lower c feed)
    where
      load :
          (b : MockBroker D) (f : MockFeed D) (r : (Store H × W) × Outcome D (Engine D))
          → IsHeld d laws (laws.count w) r.0
          → ((e : Engine D) → r.1 ≡ ok e → is_some r.0.0.conn ≡ true)
          → Started (laws.count w) (loaded d database codec p b f r)
      load b f ((st, u), raise x) h has = counted (laws.count w) st.conn u h
      load b f ((st, u), ok e) h has =
          (refl, holds_one (laws.count w) st u st.conn refl (has e refl) h)

      open_it :
          (cfg : Config D) (b : MockBroker D) (f : MockFeed D) (r : (Store H × W) × Outcome D Unit)
          → IsHeld d laws (laws.count w) r.0
          → Started (laws.count w) (opened d database codec p cfg b f r)
      open_it cfg b f ((st, u), raise x) h = counted (laws.count w) st.conn u h
      open_it cfg b f (sw, ok _) h =
          let method = load_engine d database codec p cfg in
          load b f (with_conn d method sw)
            (with_conn-IsHeld d laws (laws.count w) method sw (λ _ _. (refl, λ live. live)) h)
            (with_conn_some d laws method sw)

      from :
          (x : Outcome D (Config D × MockBroker D × MockFeed D))
          → Started (laws.count w) (built d database codec p x w)
      from (raise x) = inl refl
      from (ok (cfg, b, f)) =
          open_it cfg b f (enter d (new_store cfg.db_path, w))
            (enter-IsHeld d laws (laws.count w) (new_store cfg.db_path) w refl refl)

  -- A start on an application without a preset engine, over a driver that keeps its laws: if it
  -- returned, the loops run and exactly one connection more is open than before. If serving then
  -- opens and closes no connection, and whatever broker, feed and engine there are at the stop, a
  -- stop that closes the store without an error leaves as many connections open as there were
  -- before the start, the store without one, the loops stopped and the broker without tasks.
  pub startup-shutdown :
      (p : Process D) (c : MockConfig D) (feed : MockFeed D) (w w' : W) (r r' : Runtime D H)
      → let (started, result) = startup d database codec p c feed w in
        result ≡ ok r
        → laws.count w' ≡ laws.count started
        → ((h : H) → laws.IsLive started h → laws.IsLive w' h)
        → r'.store ≡ r.store
        → (shutdown d database codec r' w').1 ≡ ok tt
        → let ((stopped, after), _) = shutdown d database codec r' w' in
          (r.looping ≡ true)
          × (laws.count started ≡ suc (laws.count w))
          × (laws.count after ≡ laws.count w)
          × (stopped.store.conn ≡ none)
          × (stopped.looping ≡ false)
          × (stopped.broker.tasks ≡ [])
  unfolding shutdown
  startup-shutdown p c feed w w' r r' returned same lives store shut =
      let (looping, (h, is, more, live)) =
        of_start (startup d database codec p c feed w) returned (startup-Started p c feed w) in
      let held : Holds d laws (laws.count w) r'.store.conn w' =
        subst (λ c. Holds d laws (laws.count w) c w') (sym (ap (λ st. st.conn) store ∙ is))
          (same ∙ more, lives h live) in
      let closes = close-Closes d laws (laws.count w) (r'.store, w') held in
      let (gone, count) =
        closed_ok d laws (laws.count w) (Connection.close d (r'.store, w')) shut closes in
      (looping, more, count, gone, refl, refl)
    where
      of_start :
          (x : W × Outcome D (Runtime D H))
          → x.1 ≡ ok r
          → Started (laws.count w) x
          → (r.looping ≡ true) × HoldsOne (laws.count w) r.store x.0
      of_start (u, raise x) e h = absurd (cc)
      of_start (u, ok q) e h =
          subst (λ q. (q.looping ≡ true) × HoldsOne (laws.count w) q.store u) (ok_inj e) h

  -- Where the adapters could be built and the database opened, but the engine cannot be loaded from
  -- its rows, the start raises what loading raises, with the store's connection still open: over a
  -- driver that keeps its laws, one connection more is open than before.
  pub startup_leaks :
      (p : Process D) (c : MockConfig D) (feed : MockFeed D) (w : W) {cfg : Config D}
      {b : MockBroker D} {f : MockFeed D} {st : Store H} {u : W} {h : H} {x : Error D}
      → build p.readers p.environment p.lower c feed ≡ ok (cfg, b, f)
      → enter d (new_store cfg.db_path, w) ≡ ((st, u), ok tt)
      → st.conn ≡ some h
      → load_stored (database h) codec (codec.iso p.now) p.now cfg u ≡ raise x
      → (startup d database codec p c feed w ≡ (u, raise x))
        × (laws.count u ≡ suc (laws.count w))
        × laws.IsLive u h
  unfolding startup with_conn
  startup_leaks p c feed w {cfg} {b} {f} {st} {u} {h} {x} built_ok entered is fails =
      let held : IsHeld d laws (laws.count w) (st, u) =
        subst (λ r. IsHeld d laws (laws.count w) r.0) entered
          (enter-IsHeld d laws (laws.count w) (new_store cfg.db_path) w refl refl) in
      let (more, live) = subst (λ k. Holds d laws (laws.count w) k u) is held in
      (rw (built_ok, entered, is, fails) refl, more, live)
