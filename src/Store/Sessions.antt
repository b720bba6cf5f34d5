-- ===== src/Store/Sessions.antt =====
-- The connections that app/store.py holds open.
pub mod Opening
use pdfsleuth.Common.{
  is_some, ℕ, suc, ◌≡◌, refl, Bool, true, false, Option, none, some, if◌then◌else◌, arith, ◌∙◌, ap,
}
use pdfsleuth.Models.{Error, Outcome, ok, raise}
use pdfsleuth.Store.Actions.{Action, pure, continue, ◌>>◌}
use pdfsleuth.Store.Connection.{
  Driver, IsDriver, Store, logs_ahead, pragmas, connected, open_store, asserted, with_conn,
  open_if_none, init, closed, close_conn, close, enter, exited, with_store,
}
use pdfsleuth.Store.Sessions.Opening.{
  Holds, IsHeld, KeepsLive, with_conn-IsHeld, enter-IsHeld, reconnected-IsHeld,
}

module _ {D H W : Type 0} (d : Driver D H W) (laws : IsDriver d) where
  open laws use {count, IsLive}

  -- A close that returned has closed the connection, and one that raised has kept it.
  abbrev pub Closes : ℕ → (Store H × W) × Outcome D Unit → Type 0
  Closes base ((st, w), raise x) = IsHeld d laws base (st, w)
  Closes base ((st, w), ok _) = (st.conn ≡ none) × (count w ≡ base)

  closed-Closes :
      (base : ℕ) (st : Store H) (h : H) (r : W × Outcome D Unit)
      → st.conn ≡ some h
      → ((x : Error D) → r.1 ≡ raise x → Holds d laws base (some h) r.0)
      → (r.1 ≡ ok tt → count r.0 ≡ base)
      → Closes base (closed d st r)
  closed-Closes base st h (w, raise x) is fails closes = rw is (fails x refl)
  closed-Closes base st h (w, ok _) is fails closes = (refl, closes refl)

  pub close-Closes :
      (base : ℕ) (sw : Store H × W) → IsHeld d laws base sw → Closes base (close d sw)
  unfolding close
  close-Closes base (st, w) held = from st.conn refl held
    where
      from :
          (c : Option H)
          → st.conn ≡ c
          → Holds d laws base c w
          → Closes base (close_conn d c (st, w))
      from none is h = (is, h)
      from (some c) is (more, live) =
          closed-Closes base st c (d.close c w) is
            (λ x e. let (same, lives) = laws.close_fails c w x live e in (same ∙ more, lives))
            (λ e. let less = laws.close_closes c w live e in omega arith)

  -- The block was entered and closed, or an exception came out of it and a connection may be held.
  abbrev pub Leaves : {A : Type 0} → ℕ → (Store H × W) × Outcome D A → Type 0
  Leaves base ((st, w), raise x) = IsHeld d laws base (st, w)
  Leaves base ((st, w), ok _) = (st.conn ≡ none) × (count w ≡ base)

  -- A `with` block on a closed store, over a driver that keeps its laws: if it returns, the store is
  -- closed and as many connections are open as before. If it raises, wherever, at most the store's
  -- one connection is open beside those, and the store still holds it. The body may do whatever
  -- keeps this.
  pub with_store-Leaves :
      {A : Type 0} (body : Action D (Store H × W) A) (base : ℕ) (st : Store H) (w : W)
      → ((sw : Store H × W) → IsHeld d laws base sw → IsHeld d laws base (body sw).0)
      → st.conn ≡ none
      → count w ≡ base
      → Leaves base (with_store d body (st, w))
  unfolding with_store
  with_store-Leaves {A} body base st w keeps none_yet same =
      entered (enter d (st, w)) (enter-IsHeld d laws base st w none_yet same)
    where
      left :
          (result : Outcome D A) (r : (Store H × W) × Outcome D Unit)
          → Closes base r
          → Leaves base (exited d result r)
      left result ((st, w), raise x) h = h
      left (raise y) ((st, w), ok _) (is, closed_now) = rw is closed_now
      left (ok a) ((st, w), ok _) h = h

      entered :
          (r : (Store H × W) × Outcome D Unit)
          → IsHeld d laws base r.0
          → Leaves base
              (continue (λ _ sw. let (sw', result) = body sw in exited d result (close d sw')) r)
      entered (sw, raise x) h = h
      entered (sw, ok _) h =
          let (sw', result) = body sw in
          left result (close d sw') (close-Closes base sw' (keeps sw h))

  pub closed_ok :
      (base : ℕ) (r : (Store H × W) × Outcome D Unit)
      → r.1 ≡ ok tt
      → Closes base r
      → (r.0.0.conn ≡ none) × (count r.0.1 ≡ base)
  closed_ok base (sw, raise x) shut h = absurd (cc)
  closed_ok base (sw, ok _) shut h = h

  -- `open` does not look at the connection that a store has. Over a driver that keeps its laws, with
  -- `base + 1` connections open, one of which may be the store's: once `open` and then `close` have
  -- returned, the store is closed, and as many are open as before both.
  pub open_store_leaks :
      (base : ℕ) (st : Store H) (w : W)
      → count w ≡ suc base
      → (open_store d (st, w)).1 ≡ ok tt
      → (close d (open_store d (st, w)).0).1 ≡ ok tt
      → let ((st', w'), _) = close d (open_store d (st, w)).0 in
        (st'.conn ≡ none) × (count w' ≡ suc base)
  unfolding open_store
  open_store_leaks base st w more opened shut =
      closed_ok (suc base) (close d (open_store d (st, w)).0) shut (
        close-Closes (suc base) (open_store d (st, w)).0 (
          reconnected-IsHeld d laws (suc base) st (d.connect st.path w) opened (λ h e.
            let (one_more, live) = laws.connect_opens st.path w h e in
            (one_more ∙ ap suc more, live))))
