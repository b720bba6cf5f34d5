-- ===== src/Store/Sessions/Opening.antt =====
-- The connection that a store of app/store.py has from `open` on, and what `init` and `__enter__` keep of it.
use pdfsleuth.Common.{
  is_some, ℕ, suc, ◌≡◌, refl, Bool, true, false, Option, none, some, if◌then◌else◌, ◌∙◌, ap,
}
use pdfsleuth.Models.{Error, Outcome, ok, raise}
use pdfsleuth.Store.Actions.{Action, pure, continue, ◌>>◌}
use pdfsleuth.Store.Connection.{
  Driver, IsDriver, Store, logs_ahead, pragmas, connected, open_store, asserted, with_conn,
  open_if_none, init, enter,
}

module _ {D H W : Type 0} (d : Driver D H W) (laws : IsDriver d) where
  open laws use {count, IsLive}

  -- The store has the one connection that is open beside `base` others, or none.
  abbrev pub Holds : ℕ → Option H → W → Type 0
  Holds base none w = count w ≡ base
  Holds base (some h) w = (count w ≡ suc base) × IsLive w h

  abbrev pub IsHeld : ℕ → Store H × W → Type 0
  IsHeld base (st, w) = Holds base st.conn w

  -- what keeps a live connection
  abbrev pub KeepsLive : {A : Type 0} → (H → Action D W A) → Type 0
  KeepsLive method =
      (h : H) (w : W) → (count (method h w).0 ≡ count w) × (IsLive w h → IsLive (method h w).0 h)

  pub continue-KeepsLive :
      {A B : Type 0} (first : H → Action D W A) (then_ : H → A → Action D W B)
      → KeepsLive first
      → ((a : A) → KeepsLive (λ h. then_ h a))
      → KeepsLive (λ h w. continue (then_ h) (first h w))
  continue-KeepsLive {A} first then_ f g h w = both (first h w) (f h w)
    where
      both :
          (r : W × Outcome D A)
          → (count r.0 ≡ count w) × (IsLive w h → IsLive r.0 h)
          → (count (continue (then_ h) r).0 ≡ count w)
            × (IsLive w h → IsLive (continue (then_ h) r).0 h)
      both (u, raise x) k = k
      both (u, ok a) (same, live) =
          let (same', live') = g a h u in (same' ∙ same, λ l. live' (live l))

  pub pragmas-KeepsLive : (st : Store H) → KeepsLive (pragmas d st)
  pragmas-KeepsLive st =
      continue-KeepsLive (d.pragma "foreign_keys=ON")
        (λ h (_ : Unit).
          if logs_ahead d st
          then d.pragma "journal_mode=WAL" h >> d.pragma "synchronous=NORMAL" h
          else pure tt)
        (laws.pragma_keeps "foreign_keys=ON") (λ _. rest (logs_ahead d st))
    where
      rest :
          (wal : Bool)
          → KeepsLive (λ h.
            if wal
            then d.pragma "journal_mode=WAL" h >> d.pragma "synchronous=NORMAL" h
            else pure tt)
      rest true =
          continue-KeepsLive (d.pragma "journal_mode=WAL")
            (λ h (_ : Unit). d.pragma "synchronous=NORMAL" h) (laws.pragma_keeps "journal_mode=WAL")
            (λ _. laws.pragma_keeps "synchronous=NORMAL")
      rest false = λ h w. (refl, (λ l. l))

  -- a connection that was just opened, beside `base` others
  connected-IsHeld :
      (base : ℕ) (st : Store H) (r : W × Outcome D H)
      → st.conn ≡ none
      → ((x : Error D) → r.1 ≡ raise x → count r.0 ≡ base)
      → ((h : H) → r.1 ≡ ok h → (count r.0 ≡ suc base) × IsLive r.0 h)
      → IsHeld base (connected d st r).0
  connected-IsHeld base st (w, raise x) none_yet fails opens = rw none_yet (fails x refl)
  connected-IsHeld base st (w, ok h) none_yet fails opens =
      let (one_more, live) = opens h refl in
      let (same, lives) = pragmas-KeepsLive st h w in (same ∙ one_more, lives live)

  pub open_store-IsHeld :
      (base : ℕ) (st : Store H) (w : W)
      → st.conn ≡ none
      → count w ≡ base
      → IsHeld base (open_store d (st, w)).0
  unfolding open_store
  open_store-IsHeld base st w none_yet same =
      connected-IsHeld base st (d.connect st.path w) none_yet
        (λ x e. laws.connect_fails st.path w x e ∙ same)
        (λ h e. let (more, live) = laws.connect_opens st.path w h e in (more ∙ ap suc same, live))

  pub with_conn-IsHeld :
      {A : Type 0} (base : ℕ) (method : H → Action D W A) (sw : Store H × W)
      → KeepsLive method
      → IsHeld base sw
      → IsHeld base (with_conn d method sw).0
  unfolding with_conn
  with_conn-IsHeld {A} base method (st, w) keeps held = on_conn st.conn refl held
    where
      on_conn :
          (c : Option H)
          → st.conn ≡ c
          → Holds base c w
          → IsHeld base (asserted d c method (st, w)).0
      on_conn none is h = rw is h
      on_conn (some h) is (more, live) =
          let (same, lives) = keeps h w in rw is (same ∙ more, lives live)

  pub init-IsHeld : (base : ℕ) (sw : Store H × W) → IsHeld base sw → IsHeld base (init d sw).0
  unfolding init
  init-IsHeld base (st, w) held = from st.conn refl held
    where
      scripted :
          (r : (Store H × W) × Outcome D Unit)
          → IsHeld base r.0
          → IsHeld base (continue (λ _. with_conn d d.executescript) r).0
      scripted (sw, raise x) h = h
      scripted (sw, ok _) h = with_conn-IsHeld base d.executescript sw laws.script_keeps h

      from :
          (c : Option H)
          → st.conn ≡ c
          → Holds base c w
          → IsHeld base ((open_if_none d c >> with_conn d d.executescript) (st, w)).0
      from none is h = scripted (open_store d (st, w)) (open_store-IsHeld base st w is h)
      from (some c) is h = scripted (pure tt (st, w)) held

  pub enter-IsHeld :
      (base : ℕ) (st : Store H) (w : W)
      → st.conn ≡ none
      → count w ≡ base
      → IsHeld base (enter d (st, w)).0
  unfolding enter
  enter-IsHeld base st w none_yet same =
      then_init (open_store d (st, w)) (open_store-IsHeld base st w none_yet same)
    where
      then_init :
          (r : (Store H × W) × Outcome D Unit)
          → IsHeld base r.0
          → IsHeld base (continue (λ _. init d) r).0
      then_init (sw, raise x) h = h
      then_init (sw, ok _) h = init-IsHeld base sw h

  pub with_conn-count :
      {A : Type 0} (st : Store H) (w : W) (h : H) (method : H → Action D W A)
      → st.conn ≡ some h
      → count (with_conn d method (st, w)).0.1 ≡ count (method h w).0
  unfolding with_conn
  with_conn-count st w h method is = rw is refl

  -- A method that returned had a connection, and leaves it to the store.
  pub with_conn_some :
      {A : Type 0} (method : H → Action D W A) (sw : Store H × W) (a : A)
      → (with_conn d method sw).1 ≡ ok a
      → is_some (with_conn d method sw).0.0.conn ≡ true
  unfolding with_conn
  with_conn_some {A} method (st, w) a returned = on_conn st.conn refl returned
    where
      on_conn :
          (c : Option H)
          → st.conn ≡ c
          → (asserted d c method (st, w)).1 ≡ ok a
          → is_some (asserted d c method (st, w)).0.0.conn ≡ true
      on_conn none is h = absurd (cc)
      on_conn (some h) is e = ap is_some is

  continue_ok :
      {S A B : Type 0} (P : S → Type 0) (k : A → Action D S B) (r : S × Outcome D A) (b : B)
      → ((a : A) (s : S) → (k a s).1 ≡ ok b → P (k a s).0)
      → (continue k r).1 ≡ ok b
      → P (continue k r).0
  continue_ok P k (s, raise x) b h e = absurd (cc)
  continue_ok P k (s, ok a) b h e = h a s e

  -- An `__enter__` that returned has a connection.
  pub enter_some :
      (sw : Store H × W) → (enter d sw).1 ≡ ok tt → is_some (enter d sw).0.0.conn ≡ true
  unfolding enter init
  enter_some sw =
      continue_ok (λ s. is_some s.0.conn ≡ true) (λ _. init d) (open_store d sw) tt
        (λ _ s.
          continue_ok (λ s. is_some s.0.conn ≡ true) (λ _. with_conn d d.executescript)
            (open_if_none d s.0.conn s) tt (λ _ u. with_conn_some d.executescript u tt))

  pub reconnected-IsHeld :
      (base : ℕ) (st : Store H) (r : W × Outcome D H)
      → (connected d st r).1 ≡ ok tt
      → ((h : H) → r.1 ≡ ok h → (count r.0 ≡ suc base) × IsLive r.0 h)
      → IsHeld base (connected d st r).0
  reconnected-IsHeld base st (w, raise x) opened opens = absurd (cc)
  reconnected-IsHeld base st (w, ok h) opened opens =
      let (one_more, live) = opens h refl in
      let (same, lives) = pragmas-KeepsLive st h w in (same ∙ one_more, lives live)
