-- ===== src/Tests/Feeding.antt =====
-- The mock feed: two symbols, a socket that drops every third mark or every mark.
use pdfsleuth.Common.{
  ℕ, ◌≡◌, refl, ◌⊎◌, inl, inr, String, Bool, true, false, List, [], ◌∷◌, arith, map, All, is_empty,
}
use pdfsleuth.Decimal.Whole.{ℤ, pos}
use pdfsleuth.Reconcile.{sorted_set, insert_sorted}
use pdfsleuth.Feeds.Mock.{Walk, MockFeed, init_stream, subscribe, subscribe_one, stream_round}
use pdfsleuth.Feeds.Mock.Runs.{Turn, run, IsReady, subscribe-IsReady}
use pdfsleuth.Feeds.Mock.Gaps.{IsGapSafe, run-IsGapSafe}
use pdfsleuth.Feeds.Mock.Backoff.{IsBackedOff, run-IsBackedOff}
use pdfsleuth.Feeds.Mock.Counter.{IsYield}
use pdfsleuth.Feeds.Mock.Drops.{IsSlept, run-starves, round_yields_soon}
use pdfsleuth.Config.{MarkSource}
use pdfsleuth.Engine.{Engine}
use pdfsleuth.Engine.Recovery.{new_engine}
use pdfsleuth.Service.{consume_marks}
use pdfsleuth.Service.Marking.{marks_of, IsMarked, consume_marks-run}
use pdfsleuth.Tests.EngineRuns.{config}
use pdfsleuth.Tests.Cents.{cents, cents-IsOrdered}
use pdfsleuth.Tests.Samples.{arithmetic}

-- `drop_every` marks between drops
abbrev pub new_feed : ℕ → MockFeed ℤ
new_feed drop_every = record {
  base = ("X", pos 1200) ∷ [];
  last = [];
  subs = [];
  rng = λ k. Walk.up;
  drawn = 0;
  drop_every = drop_every;
  backoff_base = 20;
  backoff_cap = 70;
  emitted = 0;
}

abbrev feed : ℕ → MockFeed ℤ
feed drop_every = subscribe 1 ("Y" ∷ "X" ∷ []) (new_feed drop_every)

abbrev turns : List Turn
turns =
    Turn.round 2 ∷ Turn.round 3 ∷ Turn.subscription 4 ("Z" ∷ []) ∷ Turn.round 5 ∷ Turn.round 6 ∷ []

feed-IsReady : (drop_every : ℕ) → IsReady (feed drop_every)
feed-IsReady drop_every =
    subscribe-IsReady 1 ("Y" ∷ "X" ∷ []) (new_feed drop_every) (λ s h. absurd (cc))

run-IsGapSafe_example : IsGapSafe false (run turns (feed 3, init_stream (feed 3))).1
unfolding arithmetic
run-IsGapSafe_example = run-IsGapSafe refl turns (feed 3) (init_stream (feed 3)) (feed-IsReady 3)

run-IsBackedOff_example : IsBackedOff 20 70 0 (run turns (feed 1, init_stream (feed 1))).1
unfolding subscribe subscribe_one pdfsleuth.Common.lookup pdfsleuth.Common.insert
run-IsBackedOff_example = run-IsBackedOff turns (feed 1) (init_stream (feed 1)) 0 refl

run-starves_example :
    All IsSlept (run (map Turn.round (2 ∷ 3 ∷ [])) (feed 2, init_stream (feed 2))).1
unfolding subscribe subscribe_one sorted_set insert_sorted pdfsleuth.Common.lookup
    pdfsleuth.Common.insert
run-starves_example =
    run-starves (2 ∷ 3 ∷ []) (feed 2) (init_stream (feed 2)) (feed-IsReady 2) (omega arith)
      (omega arith)

round_yields_soon_example :
    let (m', st', e) = stream_round 2 (init_stream (feed 3)) (feed 3) in
    IsYield false (sorted_set (feed 3).subs) e
    ⊎ IsYield true (sorted_set (feed 3).subs) (stream_round 3 st' m').2
unfolding arithmetic subscribe subscribe_one sorted_set insert_sorted pdfsleuth.Common.lookup
    pdfsleuth.Common.insert
round_yields_soon_example =
    round_yields_soon refl 2 3 (init_stream (feed 3)) (feed 3) (feed-IsReady 3) refl
      (inr (omega arith))

abbrev watching : Engine ℤ
watching = new_engine config

consume_marks-run_example :
    let ms = marks_of (run turns (feed 3, init_stream (feed 3))).1 in
    IsMarked MarkSource.feed_mid ms watching
      (consume_marks (λ k. k) MarkSource.feed_mid ms watching)
unfolding arithmetic
consume_marks-run_example =
    consume_marks-run cents-IsOrdered refl turns (feed 3) (init_stream (feed 3)) (λ k. k)
      MarkSource.feed_mid watching (feed-IsReady 3)
