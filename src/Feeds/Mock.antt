-- ===== src/Feeds/Mock.antt =====
-- app/feeds/mock.py: the feed and its stream, one round of the `while True` at a time. Between two
-- rounds the feed sleeps or its consumer works, and other calls may come. What `random` draws is an
-- argument, and durations are whole numbers of a time unit; the pause after a healthy round is left
-- out.
pub mod Runs
pub mod Gaps
pub mod Backoff
pub mod Counter
pub mod Drops
pub mod Subscriptions
use Prim.Native.Nat.{◌+◌ as add_ℕ, ◌*◌ as mul_ℕ, ◌%◌, min}
use pdfsleuth.Common.{
  ℕ, String, Bool, true, false, not, ◌&&◌, ◌||◌, Option, none, some, List, [], ◌∷◌, foldl, Dict,
  lookup, insert, if◌then◌else◌, contains, eq_ℕ, is_some, is_empty,
}
use pdfsleuth.Decimal.{Arith, ◌+◌, ◌*◌, dec_zero, one, minus_one, le}
use pdfsleuth.Models.{Instant, Error, Outcome, ok, raise}
use pdfsleuth.Reconcile.{sorted_set}
use pdfsleuth.Feeds.{Mark}

-- `randint(-1, 1)`
pub data Walk : Type 0 where
  down same up : Walk

-- `rng` is the sequence that the seed determines, of which `drawn` were drawn; `subs` is the set of
-- symbols, the last one first.
pub record MockFeed (D : Type 0) : Type 0 where
  pub base : Dict D
  pub last : Dict (Mark D)
  pub subs : List String
  pub rng : ℕ → Walk
  pub drawn : ℕ
  pub drop_every : ℕ
  pub backoff_base : ℕ
  pub backoff_cap : ℕ
  pub emitted : ℕ

-- what a transport cycle comes to
pub data Cycle (D : Type 0) : Type 0 where
  batch : List (Mark D) → Cycle D
  dropped : Cycle D
  failed : Error D → Cycle D

-- the local variables of `stream_marks`
pub record Stream : Type 0 where
  pub backoff : ℕ
  pub gap_next : Bool

-- What a round of the stream does: it waits for a subscription, yields marks, sleeps after a drop,
-- or raises into the consumer.
pub data Event (D : Type 0) : Type 0 where
  idle : Event D
  yielded : List (Mark D) → Event D
  slept : ℕ → Event D
  raised : Error D → Event D

module _ {D : Type 0} where
  -- `last_mark`
  abbrev pub last_mark : String → MockFeed D → Option (Mark D)
  last_mark symbol m = lookup symbol m.last

  abbrev pub counted : MockFeed D → MockFeed D
  counted m = record m { emitted = add_ℕ m.emitted 1 }

  -- `self._drop_every and self._emitted % self._drop_every == 0`
  abbrev pub drops : MockFeed D → Bool
  drops m = not (eq_ℕ m.drop_every 0) && eq_ℕ (m.emitted % m.drop_every) 0

  abbrev pub with_mark : Mark D → MockFeed D × Cycle D → MockFeed D × Cycle D
  with_mark mark (m, Cycle.batch ms) = (m, Cycle.batch (mark ∷ ms))
  with_mark mark (m, Cycle.dropped) = (m, Cycle.dropped)
  with_mark mark (m, Cycle.failed x) = (m, Cycle.failed x)

  -- A symbol's place in a transport cycle: `rest` is the cycle behind it.
  abbrev pub emitted_at :
      MockFeed D × Outcome D (Mark D) → MockFeed D × Cycle D → MockFeed D × Cycle D
  emitted_at (m, raise x) rest = (m, Cycle.failed x)
  emitted_at (m, ok mark) rest =
      if drops (counted m) then (counted m, Cycle.dropped) else with_mark mark rest

  abbrev pub init_stream : MockFeed D → Stream
  init_stream m = record { backoff = m.backoff_base; gap_next = false }

  abbrev pub settled : Stream → MockFeed D × Cycle D → MockFeed D × Stream × Event D
  settled st (m, Cycle.batch ms) = (m, init_stream m, Event.yielded ms)
  settled st (m, Cycle.dropped) = (
    m,
    record { backoff = min (mul_ℕ st.backoff 2) m.backoff_cap; gap_next = true },
    Event.slept (min st.backoff m.backoff_cap),
  )
  settled st (m, Cycle.failed x) = (m, st, Event.raised x)

module _ {D : Type 0} ⦃n : Arith D⦄ where
  abbrev pub base_price : Option D → D
  base_price none = n.dec 10_000 2
  base_price (some p) = p

  -- the mark of a symbol that was not seen yet
  abbrev pub first_mark : Instant → String → Option (Mark D) → MockFeed D → MockFeed D
  first_mark now s (some _) m = m
  first_mark now s none m =
      let mark : Mark D = record {
        symbol = s;
        price = base_price (lookup s m.base);
        ts = now;
        gap = false;
      } in
      record m { last = insert s mark m.last }

  unfoldable pub subscribe_one : Instant → MockFeed D → String → MockFeed D
  subscribe_one now m s =
      first_mark now s (lookup s m.last)
        (record m { subs = if contains s m.subs then m.subs else s ∷ m.subs })

  unfoldable pub subscribe : Instant → List String → MockFeed D → MockFeed D
  unfolding subscribe_one
  subscribe now symbols m = foldl (subscribe_one now) m symbols

  -- `Decimal(randint(-1, 1))`
  abbrev pub walk_dec : Walk → D
  walk_dec Walk.down = minus_one
  walk_dec Walk.same = dec_zero
  walk_dec Walk.up = one

  abbrev pub stepped_price : D → Walk → D
  stepped_price prev w =
      let px = n.quantize (prev + walk_dec w * n.dec 1 2) 2 in
      if le px dec_zero then n.dec 1 2 else px

  abbrev pub step_from :
      Instant → String → Bool → Option (Mark D) → MockFeed D → MockFeed D × Outcome D (Mark D)
  step_from now symbol gap none m = (m, raise (Error.key_error symbol))
  step_from now symbol gap (some prev) m =
      let mark : Mark D = record {
        symbol = symbol;
        price = stepped_price prev.price (m.rng m.drawn);
        ts = now;
        gap = gap;
      } in
      (record m { last = insert symbol mark m.last; drawn = add_ℕ m.drawn 1 }, ok mark)

  -- `_step`
  unfoldable pub step : Instant → String → Bool → MockFeed D → MockFeed D × Outcome D (Mark D)
  step now symbol gap m = step_from now symbol gap (lookup symbol m.last) m

  unfoldable pub emit_from : Instant → List String → Bool → MockFeed D → MockFeed D × Cycle D
  unfolding step
  emit_from now [] first m = (m, Cycle.batch [])
  emit_from now (s ∷ ss) first m =
      let r = step now s first m in emitted_at r (emit_from now ss false (counted r.0))

  -- `_emit_once`
  abbrev pub emit_once : Instant → Bool → MockFeed D → MockFeed D × Cycle D
  emit_once now gap m = emit_from now (sorted_set m.subs) gap m

  -- a round of `while True`
  unfoldable pub stream_round : Instant → Stream → MockFeed D → MockFeed D × Stream × Event D
  unfolding emit_from
  stream_round now st m =
      if is_empty m.subs then (m, st, Event.idle) else settled st (emit_once now st.gap_next m)
