-- ===== src/Feeds/Mock/Backoff.antt =====
-- How long the stream of app/feeds/mock.py sleeps after drops.
use Prim.Native.Nat.{◌*◌, ◌^◌, min}
use native.Mathlib.Nat.{mul_assoc, pow-suc}
use pdfsleuth.Common.{
  ◌≡◌, refl, sym, suc, ap, subst, ◌∙◌, ℕ, String, List, [], ◌∷◌, arith, is_empty, lookup, contains,
  if◌then◌else◌, Option, none, some, inl, inr, Bool-cases,
}
use pdfsleuth.Decimal.{Arith}
use pdfsleuth.Models.{Instant}
use pdfsleuth.Feeds.{Mark}
use pdfsleuth.Feeds.Mock.{
  MockFeed, Cycle, Stream, Event, emit_once, stream_round, settled, subscribe, subscribe_one,
  first_mark,
}
use pdfsleuth.Feeds.Mock.Runs.{Turn, run, stream_round-Follows}

-- the delay after `k` drops in a row
abbrev pub delay : ℕ → ℕ → ℕ → ℕ
delay base top k = min (base * 2 ^ k) top

doubled : (a b top : ℕ) → min a top ≡ min b top → min (min (a * 2) top) top ≡ min (b * 2) top
doubled a b top e = omega arith

doubled-delay :
    (base top k a : ℕ)
    → min a top ≡ delay base top k
    → min (min (a * 2) top) top ≡ delay base top (suc k)
doubled-delay base top k a e =
    doubled a (base * 2 ^ k) top e
    ∙ ap (λ x. min x top) (mul_assoc base (2 ^ k) 2 ∙ ap (λ x. base * x) (sym (pow-suc 2 k)))

module _ {D : Type 0} where
  -- `k` drops came in a row so far
  abbrev pub IsBackedOff : ℕ → ℕ → ℕ → List (Event D) → Type 0
  IsBackedOff base top k [] = Unit
  IsBackedOff base top k (Event.idle ∷ es) = IsBackedOff base top k es
  IsBackedOff base top k (Event.yielded ms ∷ es) = IsBackedOff base top 0 es
  IsBackedOff base top k (Event.slept d ∷ es) =
      (d ≡ delay base top k) × IsBackedOff base top (suc k) es
  IsBackedOff base top k (Event.raised x ∷ es) = Unit

  -- What a round does with the backoff.
  abbrev Waits : Stream → MockFeed D × Stream × Event D → Type 0
  Waits st (m, st', Event.idle) = st'.backoff ≡ st.backoff
  Waits st (m, st', Event.yielded ms) = st'.backoff ≡ m.backoff_base
  Waits st (m, st', Event.slept d) =
      (d ≡ min st.backoff m.backoff_cap) × (st'.backoff ≡ min (st.backoff * 2) m.backoff_cap)
  Waits st (m, st', Event.raised x) = Unit

  settled-Waits : (st : Stream) (r : MockFeed D × Cycle D) → Waits st (settled st r)
  settled-Waits st (m, Cycle.batch ms) = refl
  settled-Waits st (m, Cycle.dropped) = (refl, refl)
  settled-Waits st (m, Cycle.failed x) = tt

  IsBackedOff-cons :
      (base top k : ℕ) (st : Stream) (r : MockFeed D × Stream × Event D) (es : List (Event D))
      → r.0.backoff_base ≡ base
      → r.0.backoff_cap ≡ top
      → min st.backoff top ≡ delay base top k
      → Waits st r
      → ((j : ℕ) → min r.1.backoff top ≡ delay base top j → IsBackedOff base top j es)
      → IsBackedOff base top k (r.2 ∷ es)
  IsBackedOff-cons base top k st (m, st', Event.idle) es b c now q rest = rest k (rw q now)
  IsBackedOff-cons base top k st (m, st', Event.yielded ms) es b c now q rest =
      rest 0 (rw (q, b) (omega arith))
  IsBackedOff-cons base top k st (m, st', Event.slept d) es b c now (e, q) rest = (
    e ∙ ap (min st.backoff) c ∙ now,
    rest (suc k) (rw (q, c) (doubled-delay base top k st.backoff now)),
  )
  IsBackedOff-cons base top k st (m, st', Event.raised x) es b c now q rest = tt

module _ {D : Type 0} ⦃n : Arith D⦄ where
  stream_round-Waits :
      (now : Instant) (st : Stream) (m : MockFeed D) → Waits st (stream_round now st m)
  unfolding stream_round
  stream_round-Waits now st m = elim (Bool-cases (is_empty m.subs)) [
    | inl h ↦ rw h refl
    | inr h ↦ rw h (settled-Waits st (emit_once now st.gap_next m))
  ]

  first_mark-settings :
      (now : Instant) (s : String) (prev : Option (Mark D)) (m : MockFeed D)
      → ((first_mark now s prev m).backoff_base ≡ m.backoff_base)
        × ((first_mark now s prev m).backoff_cap ≡ m.backoff_cap)
  first_mark-settings now s none m = (refl, refl)
  first_mark-settings now s (some p) m = (refl, refl)

  subscribe-settings :
      (now : Instant) (symbols : List String) (m : MockFeed D)
      → ((subscribe now symbols m).backoff_base ≡ m.backoff_base)
        × ((subscribe now symbols m).backoff_cap ≡ m.backoff_cap)
  unfolding subscribe subscribe_one
  subscribe-settings now [] m = (refl, refl)
  subscribe-settings now (s ∷ ss) m =
      let (base, top) = subscribe-settings now ss (subscribe_one now m s) in
      let (base', top') =
        first_mark-settings now s (lookup s m.last)
          (record m { subs = if contains s m.subs then m.subs else s ∷ m.subs }) in
      (base ∙ base', top ∙ top')

  -- Capped exponential backoff, in every run of rounds and subscriptions from a stream whose
  -- backoff is that of some number of drops in a row: a drop that follows `k` drops since the last
  -- batch is slept on for `min(backoff_base * 2^k, backoff_cap)`.
  pub run-IsBackedOff :
      (ts : List Turn) (m : MockFeed D) (st : Stream) (k : ℕ)
      → min st.backoff m.backoff_cap ≡ delay m.backoff_base m.backoff_cap k
      → IsBackedOff m.backoff_base m.backoff_cap k (run ts (m, st)).1
  unfolding run
  run-IsBackedOff [] m st k e = tt
  run-IsBackedOff (Turn.subscription now symbols ∷ ts) m st k e =
      let (base, top) = subscribe-settings now symbols m in
      let m' = subscribe now symbols m in
      subst (λ (b : ℕ). IsBackedOff b m.backoff_cap k (run ts (m', st)).1) base
        (subst (λ (c : ℕ). IsBackedOff m'.backoff_base c k (run ts (m', st)).1) top
          (run-IsBackedOff ts m' st k (rw (base, top) e)))
  run-IsBackedOff (Turn.round now ∷ ts) m st k e =
      let r = stream_round now st m in
      let f = stream_round-Follows now st m in
      let es = (run ts (r.0, r.1)).1 in
      IsBackedOff-cons m.backoff_base m.backoff_cap k st r es f.backoff_base f.backoff_cap e
        (stream_round-Waits now st m)
        (λ j q.
          subst (λ (b : ℕ). IsBackedOff b m.backoff_cap j es) f.backoff_base
            (subst (λ (c : ℕ). IsBackedOff r.0.backoff_base c j es) f.backoff_cap
              (run-IsBackedOff ts r.0 r.1 j (rw (f.backoff_base, f.backoff_cap) q))))
