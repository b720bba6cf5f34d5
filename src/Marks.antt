-- ===== src/Marks.antt =====
-- app/marks.py: the last good mark for each symbol and source. Times are whole milliseconds, and
-- `now` is `time.time()`. The dict keyed by pairs is a dict of symbols for each source.
use Prim.Native.Nat.{◌-◌}
use pdfsleuth.Common.{
  ℕ, ◌≡◌, String, Bool, true, false, Option, none, some, Dict, lookup, insert, arith, if◌then◌else◌,
  lt_ℕ, lookup-insert, ◌==◌, ◌&&◌, [],
}
use pdfsleuth.Decimal.{Arith, ◌+◌, ◌/◌, dec_zero, lt}
use pdfsleuth.Models.{Outcome, ok, raise, Error}
use pdfsleuth.Config.{MarkSource}

pub record Mark (D : Type 0) : Type 0 where
  pub symbol : String
  pub price : D
  pub source : MarkSource
  pub ts : ℕ
  pub max_age : ℕ

module _ {D : Type 0} where
  -- `max(0.0, time.time() - self.ts)`
  abbrev pub age : ℕ → Mark D → ℕ
  age now m = now - m.ts

  abbrev pub mark_is_stale : ℕ → Mark D → Bool
  mark_is_stale now m = lt_ℕ m.max_age (age now m)

abbrev pub eq_source : MarkSource → MarkSource → Bool
eq_source MarkSource.feed_mid MarkSource.feed_mid = true
eq_source MarkSource.feed_last MarkSource.feed_last = true
eq_source MarkSource.broker_last MarkSource.broker_last = true
eq_source _ _ = false

pub record MarkStore (D : Type 0) : Type 0 where
  pub max_age : ℕ
  pub marks : MarkSource → Dict (Mark D)

module _ {D : Type 0} where
  abbrev pub new_store : ℕ → MarkStore D
  new_store max_age = record { max_age = max_age; marks = λ s. [] }

  unfoldable pub get : String → MarkSource → MarkStore D → Option (Mark D)
  get symbol source s = lookup symbol (s.marks source)

  abbrev pub price_of : Option (Mark D) → Option D
  price_of none = none
  price_of (some m) = some m.price

  abbrev pub price : String → MarkSource → MarkStore D → Option D
  price symbol source s = price_of (get symbol source s)

  -- `m is None or m.is_stale`
  abbrev pub stale_at : ℕ → Option (Mark D) → Bool
  stale_at now none = true
  stale_at now (some m) = mark_is_stale now m

  abbrev pub is_stale : ℕ → String → MarkSource → MarkStore D → Bool
  is_stale now symbol source s = stale_at now (get symbol source s)

  abbrev pub age_of : ℕ → Option (Mark D) → Option ℕ
  age_of now none = none
  age_of now (some m) = some (age now m)

  abbrev pub staleness : ℕ → String → MarkSource → MarkStore D → Option ℕ
  staleness now symbol source s = age_of now (get symbol source s)

module _ {D : Type 0} ⦃n : Arith D⦄ where
  -- `ts` is the given time, or the clock's.
  unfoldable pub update :
      String → D → MarkSource → ℕ → MarkStore D → MarkStore D × Outcome D (Mark D)
  update symbol price source ts s =
      let mark : Mark D = record {
        symbol = symbol;
        price = price;
        source = source;
        ts = ts;
        max_age = s.max_age;
      } in
      if lt price dec_zero then (s, raise Error.value_error) else (
        record s {
          marks = λ k. if eq_source k source then insert symbol mark (s.marks k) else s.marks k;
        },
        ok mark,
      )

  unfoldable pub update_bid_ask :
      String → D → D → ℕ → MarkStore D → MarkStore D × Outcome D (Mark D)
  unfolding update
  update_bid_ask symbol bid ask ts s =
      update symbol ((bid + ask) / n.dec 2 0) MarkSource.feed_mid ts s

  -- An update stores its mark for its own symbol and source and leaves every other mark, which a
  -- gap in one feed therefore never blanks; a negative price changes no mark.
  pub get-update :
      (symbol other : String) (p : D) (source source' : MarkSource) (ts : ℕ) (s : MarkStore D)
      → get other source' (update symbol p source ts s).0 ≡ (
          if eq_source source' source && symbol == other
          then if lt p dec_zero
            then get other source' s
            else some
                record { symbol = symbol; price = p; source = source; ts = ts; max_age = s.max_age }
          else get other source' s)
  unfolding get update
  get-update symbol other p source source' ts s = ground (
    arith,
    lookup-insert symbol other
        (record { symbol = symbol; price = p; source = source; ts = ts; max_age = s.max_age })
        (s.marks source'),
  )
