-- ===== src/Feeds/Mock/Gaps.antt =====
-- What the stream of app/feeds/mock.py yields: a mark for each symbol, flagged behind a gap.
use pdfsleuth.Common.{
  ◌≡◌, refl, subst, String, Bool, true, false, Option, none, some, List, [], ◌∷◌, arith, lookup,
  contains, is_some, is_empty, inl, inr, Bool-cases, ==_refl,
}
use pdfsleuth.Decimal.{Arith, lt, dec_zero}
use pdfsleuth.Models.{Instant}
use pdfsleuth.Reconcile.{sorted_set}
use pdfsleuth.Reconcile.Symbols.{contains-sorted_set}
use pdfsleuth.Feeds.{Mark}
use pdfsleuth.Feeds.Mock.{
  MockFeed, Cycle, Stream, Event, counted, drops, step, step_from, stepped_price, Walk, emitted_at,
  with_mark, emit_from, emit_once, stream_round, settled, subscribe,
}
use pdfsleuth.Feeds.Mock.Runs.{
  Turn, run, IsReady, step-Follows, stream_round-IsReady, subscribe-IsReady,
}

module _ {D : Type 0} ⦃n : Arith D⦄ where
  -- one mark for each of the symbols, in their order and of a positive price; only the first one may
  -- be flagged
  abbrev pub IsBatch : Bool → List String → List (Mark D) → Type 0
  IsBatch gap [] [] = Unit
  IsBatch gap (s ∷ ss) (x ∷ xs) =
      (x.symbol ≡ s) × (x.gap ≡ gap) × (lt dec_zero x.price ≡ true) × IsBatch false ss xs
  IsBatch gap _ _ = ⊥

  -- A cycle does not raise, and drops where the counter says so.
  abbrev pub IsCycle : Bool → List String → MockFeed D × Cycle D → Type 0
  IsCycle gap ss (m, Cycle.batch ms) = IsBatch gap ss ms
  IsCycle gap ss (m, Cycle.dropped) = drops m ≡ true
  IsCycle gap ss (m, Cycle.failed x) = ⊥

  -- every symbol of the list has a last mark
  abbrev pub AreKnown : List String → MockFeed D → Type 0
  AreKnown ss m = (s : String) → contains s ss ≡ true → is_some (lookup s m.last) ≡ true

  -- A round that a ready feed begins with subscriptions: a batch for all its symbols, or a drop.
  abbrev pub IsRound : Bool → MockFeed D → Event D → Type 0
  IsRound gap m Event.idle = is_empty m.subs ≡ true
  IsRound gap m (Event.yielded ms) = IsBatch gap (sorted_set m.subs) ms
  IsRound gap m (Event.slept d) = Unit
  IsRound gap m (Event.raised x) = ⊥

  -- the marks of a batch are positive, and the first and no other is flagged if `gap` is set
  abbrev pub AreFlagged : Bool → List (Mark D) → Type 0
  AreFlagged gap [] = Unit
  AreFlagged gap (x ∷ xs) = (x.gap ≡ gap) × (lt dec_zero x.price ≡ true) × AreFlagged false xs

  -- What the consumer sees of a run: `gap` says whether a drop came since the last batch.
  abbrev pub IsGapSafe : Bool → List (Event D) → Type 0
  IsGapSafe gap [] = Unit
  IsGapSafe gap (Event.idle ∷ es) = IsGapSafe gap es
  IsGapSafe gap (Event.yielded ms ∷ es) = AreFlagged gap ms × IsGapSafe false es
  IsGapSafe gap (Event.slept d ∷ es) = IsGapSafe true es
  IsGapSafe gap (Event.raised x ∷ es) = ⊥

  -- the flag that a round leaves
  abbrev gap_after : Bool → Event D → Bool
  gap_after gap Event.idle = gap
  gap_after gap (Event.yielded ms) = false
  gap_after gap (Event.slept d) = true
  gap_after gap (Event.raised x) = gap

  IsBatch-AreFlagged :
      (gap : Bool) (ss : List String) (ms : List (Mark D)) → IsBatch gap ss ms → AreFlagged gap ms
  IsBatch-AreFlagged gap [] [] q = tt
  IsBatch-AreFlagged gap (s ∷ ss) (x ∷ xs) (a, b, c, q) = (b, c, IsBatch-AreFlagged false ss xs q)
  IsBatch-AreFlagged gap [] (x ∷ xs) q = absurd q
  IsBatch-AreFlagged gap (s ∷ ss) [] q = absurd q

  settled-gap :
      (st : Stream) (r : MockFeed D × Cycle D)
      → (settled st r).1.gap_next ≡ gap_after st.gap_next (settled st r).2
  settled-gap st (a, Cycle.batch ms) = refl
  settled-gap st (a, Cycle.dropped) = refl
  settled-gap st (a, Cycle.failed x) = refl

  stream_round-gap :
      (now : Instant) (st : Stream) (m : MockFeed D)
      → (stream_round now st m).1.gap_next ≡ gap_after st.gap_next (stream_round now st m).2
  unfolding stream_round
  stream_round-gap now st m = elim (Bool-cases (is_empty m.subs)) [
    | inl h ↦ rw h refl
    | inr h ↦ rw h (settled-gap st (emit_once now st.gap_next m))
  ]

  IsGapSafe-cons :
      (gap : Bool) (m : MockFeed D) (e : Event D) (es : List (Event D))
      → IsRound gap m e
      → IsGapSafe (gap_after gap e) es
      → IsGapSafe gap (e ∷ es)
  IsGapSafe-cons gap m Event.idle es r q = q
  IsGapSafe-cons gap m (Event.yielded ms) es r q =
      (IsBatch-AreFlagged gap (sorted_set m.subs) ms r, q)
  IsGapSafe-cons gap m (Event.slept d) es r q = q
  IsGapSafe-cons gap m (Event.raised x) es r q = absurd r

module _ {D : Type 0} ⦃n : Arith D⦄ (cent_pos : lt {D = D} dec_zero (n.dec 1 2) ≡ true) where
  stepped_price_pos : (prev : D) (w : Walk) → lt dec_zero (stepped_price prev w) ≡ true
  stepped_price_pos prev w = ground arith

  with_mark-IsCycle :
      (gap : Bool) (s : String) (ss : List String) (mark : Mark D) (r : MockFeed D × Cycle D)
      → mark.symbol ≡ s
      → mark.gap ≡ gap
      → lt dec_zero mark.price ≡ true
      → IsCycle false ss r
      → IsCycle gap (s ∷ ss) (with_mark mark r)
  with_mark-IsCycle gap s ss mark (m, Cycle.batch ms) a b c q = (a, b, c, q)
  with_mark-IsCycle gap s ss mark (m, Cycle.dropped) a b c q = q
  with_mark-IsCycle gap s ss mark (m, Cycle.failed x) a b c q = absurd q

  step_from-IsCycle :
      (now : Instant) (s : String) (ss : List String) (gap : Bool) (prev : Option (Mark D))
      (m : MockFeed D) (rest : MockFeed D × Cycle D)
      → is_some prev ≡ true
      → IsCycle false ss rest
      → IsCycle gap (s ∷ ss) (emitted_at (step_from now s gap prev m) rest)
  step_from-IsCycle now s ss gap none m rest known q = absurd (cc)
  step_from-IsCycle now s ss gap (some p) m rest known q =
      let m' = counted (step_from now s gap (some p) m).0 in
      elim (Bool-cases (drops m')) [
        | inl h ↦ rw h h
        | inr h ↦ rw h (
            with_mark-IsCycle gap s ss _ rest refl refl (stepped_price_pos p.price (m.rng m.drawn))
              q)
      ]

  pub emit_from-IsCycle :
      (now : Instant) (ss : List String) (gap : Bool) (m : MockFeed D)
      → AreKnown ss m
      → IsCycle gap ss (emit_from now ss gap m)
  unfolding emit_from step
  emit_from-IsCycle now [] gap m known = tt
  emit_from-IsCycle now (s ∷ ss) gap m known =
      let m' = counted (step now s gap m).0 in
      let f = step-Follows now s gap m in
      step_from-IsCycle now s ss gap (lookup s m.last) m (emit_from now ss false m')
        (known s (ground (arith, ==_refl s)))
        (emit_from-IsCycle now ss false m' (λ k h. f.last k (known k (ground arith))))

  settled-IsRound :
      (st : Stream) (m : MockFeed D) (r : MockFeed D × Cycle D)
      → IsCycle st.gap_next (sorted_set m.subs) r
      → IsRound st.gap_next m (settled st r).2
  settled-IsRound st m (a, Cycle.batch ms) q = q
  settled-IsRound st m (a, Cycle.dropped) q = tt
  settled-IsRound st m (a, Cycle.failed x) q = absurd q

  pub stream_round-IsRound :
      (now : Instant) (st : Stream) (m : MockFeed D)
      → IsReady m
      → IsRound st.gap_next m (stream_round now st m).2
  unfolding stream_round
  stream_round-IsRound now st m ready = elim (Bool-cases (is_empty m.subs)) [
    | inl h ↦ rw h h
    | inr h ↦ rw h (
        settled-IsRound st m (emit_once now st.gap_next m) (
          emit_from-IsCycle now (sorted_set m.subs) st.gap_next m
            (λ s k. ready s (rw⁻¹ (contains-sorted_set s m.subs) k))))
  ]

  -- The contract of the interface, for any run of rounds and subscriptions from a feed whose
  -- subscribed symbols have marks, whenever its socket drops and where 0.01 is positive: the
  -- stream never raises into its consumer, every mark that it yields has a positive price, and a
  -- mark is flagged exactly if it is the first of the first batch behind a drop.
  pub run-IsGapSafe :
      (ts : List Turn) (m : MockFeed D) (st : Stream)
      → IsReady m
      → IsGapSafe st.gap_next (run ts (m, st)).1
  unfolding run
  run-IsGapSafe [] m st ready = tt
  run-IsGapSafe (Turn.subscription now symbols ∷ ts) m st ready =
      run-IsGapSafe ts (subscribe now symbols m) st (subscribe-IsReady now symbols m ready)
  run-IsGapSafe (Turn.round now ∷ ts) m st ready =
      let (m', st', e) = stream_round now st m in
      IsGapSafe-cons st.gap_next m e (run ts (m', st')).1 (stream_round-IsRound now st m ready) (
        subst (λ gap. IsGapSafe gap (run ts (m', st')).1) (stream_round-gap now st m)
          (run-IsGapSafe ts m' st' (stream_round-IsReady now st m ready)))
