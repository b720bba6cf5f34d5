-- ===== src/Feeds/Mock/Drops.antt =====
-- When the stream of app/feeds/mock.py yields: the counter of marks against the number of symbols.
use Prim.Native.Nat.{◌<◌, ◌≤◌, min}
use pdfsleuth.Common.{
  ℕ, ◌≡◌, refl, subst, ◌∙◌, String, Bool, true, false, List, [], ◌∷◌, arith, is_empty, ◌⊎◌, inl,
  inr, Bool-cases, length, All, map,
}
use pdfsleuth.Decimal.{Arith, lt, dec_zero}
use pdfsleuth.Models.{Instant}
use pdfsleuth.Reconcile.{sorted_set}
use pdfsleuth.Reconcile.Symbols.{contains-sorted_set}
use pdfsleuth.Feeds.Mock.{MockFeed, Cycle, Stream, Event, drops, emit_once, stream_round, settled}
use pdfsleuth.Feeds.Mock.Counter.{is_dropped, IsYield, positive_breadth, emit_from-is_dropped}
use pdfsleuth.Feeds.Mock.Runs.{Turn, run, IsReady, stream_round-Follows, stream_round-IsReady}
use pdfsleuth.Feeds.Mock.Gaps.{AreKnown, IsCycle, emit_from-IsCycle}

module _ {D : Type 0} ⦃n : Arith D⦄ where
  AreKnown-sorted : (m : MockFeed D) → IsReady m → AreKnown (sorted_set m.subs) m
  AreKnown-sorted m ready s h = ready s (rw⁻¹ (contains-sorted_set s m.subs) h)

  -- the length of a round's batch
  abbrev pub breadth : MockFeed D → ℕ
  breadth m = length (sorted_set m.subs)

  abbrev pub IsSlept : Event D → Type 0
  IsSlept e = (d : ℕ) × (e ≡ Event.slept d)

  settled-IsSlept :
      (st : Stream) (r : MockFeed D × Cycle D) → is_dropped r.1 ≡ true → IsSlept (settled st r).2
  settled-IsSlept st (m, Cycle.batch ms) e = absurd (cc)
  settled-IsSlept st (m, Cycle.dropped) e = (min st.backoff m.backoff_cap, refl)
  settled-IsSlept st (m, Cycle.failed x) e = absurd (cc)

  not_empty : (m : MockFeed D) → 0 < breadth m → is_empty m.subs ≡ false
  not_empty m h = positive_breadth m.subs h

  round_starves :
      (now : Instant) (st : Stream) (m : MockFeed D)
      → IsReady m
      → 0 < m.drop_every
      → m.drop_every ≤ breadth m
      → IsSlept (stream_round now st m).2
  unfolding stream_round
  round_starves now st m ready pos most = rw (not_empty m (omega arith)) (
      settled-IsSlept st (emit_once now st.gap_next m) (
        emit_from-is_dropped now (sorted_set m.subs) st.gap_next m pos (AreKnown-sorted m ready)
        ∙ ground arith))

  -- A feed whose symbols have marks, and that drops at least once in every as many marks as it has
  -- symbols, never yields: whatever the state of its counter, every round ends in a drop, and the
  -- marks that came before the drop are lost.
  pub run-starves :
      (nows : List Instant) (m : MockFeed D) (st : Stream)
      → IsReady m
      → 0 < m.drop_every
      → m.drop_every ≤ breadth m
      → All IsSlept (run (map Turn.round nows) (m, st)).1
  unfolding run
  run-starves [] m st ready pos most = tt
  run-starves (now ∷ nows) m st ready pos most =
      let (m', st', e) = stream_round now st m in
      let f = stream_round-Follows now st m in
      (
        round_starves now st m ready pos most,
        run-starves nows m' st' (stream_round-IsReady now st m ready) (rw f.drop_every pos)
            (rw (f.drop_every, f.subs) most),
      )

module _ {D : Type 0} ⦃n : Arith D⦄ (cent_pos : lt {D = D} dec_zero (n.dec 1 2) ≡ true) where
  settled-IsYield :
      (st : Stream) (ss : List String) (r : MockFeed D × Cycle D)
      → IsCycle st.gap_next ss r
      → is_dropped r.1 ≡ false
      → IsYield st.gap_next ss (settled st r).2
  settled-IsYield st ss (m, Cycle.batch ms) q e = (ms, refl, q)
  settled-IsYield st ss (m, Cycle.dropped) q e = absurd (cc)
  settled-IsYield st ss (m, Cycle.failed x) q e = absurd q

  round-IsYield :
      (now : Instant) (st : Stream) (m : MockFeed D)
      → IsReady m
      → is_empty m.subs ≡ false
      → is_dropped (emit_once now st.gap_next m).1 ≡ false
      → IsYield st.gap_next (sorted_set m.subs) (stream_round now st m).2
  unfolding stream_round
  round-IsYield now st m ready full e = rw full (
      settled-IsYield st (sorted_set m.subs) (emit_once now st.gap_next m)
        (emit_from-IsCycle cent_pos now (sorted_set m.subs) st.gap_next m (AreKnown-sorted m ready))
        e)

  -- the state behind a cycle that drops
  settled-dropped :
      (st : Stream) (ss : List String) (r : MockFeed D × Cycle D)
      → IsCycle st.gap_next ss r
      → is_dropped r.1 ≡ true
      → (drops (settled st r).0 ≡ true) × ((settled st r).1.gap_next ≡ true)
  settled-dropped st ss (m, Cycle.batch ms) q e = absurd (cc)
  settled-dropped st ss (m, Cycle.dropped) q e = (q, refl)
  settled-dropped st ss (m, Cycle.failed x) q e = absurd q

  round-dropped :
      (now : Instant) (st : Stream) (m : MockFeed D)
      → IsReady m
      → is_empty m.subs ≡ false
      → is_dropped (emit_once now st.gap_next m).1 ≡ true
      → (drops (stream_round now st m).0 ≡ true) × ((stream_round now st m).1.gap_next ≡ true)
  unfolding stream_round
  round-dropped now st m ready full e = rw full (
      settled-dropped st (sorted_set m.subs) (emit_once now st.gap_next m)
        (emit_from-IsCycle cent_pos now (sorted_set m.subs) st.gap_next m (AreKnown-sorted m ready))
        e)

  -- right behind a drop the counter has room for a batch
  fresh_cycle :
      (now : Instant) (gap : Bool) (m : MockFeed D)
      → IsReady m
      → drops m ≡ true
      → (m.drop_every ≡ 0) ⊎ (breadth m < m.drop_every)
      → is_dropped (emit_once now gap m).1 ≡ false
  fresh_cycle now gap m ready dropped (inl never) = ground arith
  fresh_cycle now gap m ready dropped (inr more) =
      emit_from-is_dropped now (sorted_set m.subs) gap m (omega arith) (AreKnown-sorted m ready)
      ∙ ground arith

  -- A feed that has symbols, each with a mark, and drops less often than once in a batch, or
  -- never, where 0.01 is positive: of any two rounds in a row, one yields a batch with a mark for
  -- each symbol, and behind a drop it is the next one.
  pub round_yields_soon :
      (now later : Instant) (st : Stream) (m : MockFeed D)
      → IsReady m
      → is_empty m.subs ≡ false
      → (m.drop_every ≡ 0) ⊎ (breadth m < m.drop_every)
      → let (m', st', e) = stream_round now st m in
        IsYield st.gap_next (sorted_set m.subs) e
        ⊎ IsYield true (sorted_set m.subs) (stream_round later st' m').2
  round_yields_soon now later st m ready full rare =
      elim (Bool-cases (is_dropped (emit_once now st.gap_next m).1)) [
        | inr h ↦ inl (round-IsYield now st m ready full h)
        | inl h ↦
            let (m', st', e) = stream_round now st m in
            let f = stream_round-Follows now st m in
            let ready' = stream_round-IsReady now st m ready in
            let (dropped, gap) = round-dropped now st m ready full h in
            inr (
              subst (λ g. IsYield g (sorted_set m.subs) (stream_round later st' m').2) gap
                (subst
                  (λ subs. IsYield st'.gap_next (sorted_set subs) (stream_round later st' m').2)
                  f.subs
                  (round-IsYield later st' m' ready' (rw f.subs full) (
                    fresh_cycle later st'.gap_next m' ready' dropped
                      (rw (f.drop_every, f.subs) rare)))))
      ]
