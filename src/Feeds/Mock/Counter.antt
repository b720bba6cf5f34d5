-- ===== src/Feeds/Mock/Counter.antt =====
-- The counter of marks in app/feeds/mock.py: when a transport cycle drops.
use Prim.Native.Nat.{◌+◌, ◌%◌, ◌<◌}
use native.Mathlib.Nat.{suc-mod, mod_self, mod-eq_of_lt, mod-lt}
use pdfsleuth.Common.{
  ℕ, suc, ◌≡◌, refl, sym, subst, ap, ◌∙◌, String, Bool, true, false, Option, none, some, List, [],
  ◌∷◌, arith, lookup, is_some, ==_refl, is_empty, ◌⊎◌, inl, inr, Bool-cases, length, lt_ℕ, le_ℕ,
}
use pdfsleuth.Decimal.{Arith}
use pdfsleuth.Models.{Instant, ok}
use pdfsleuth.Reconcile.{sorted_set}
use pdfsleuth.Feeds.{Mark}
use pdfsleuth.Feeds.Mock.{
  MockFeed, Cycle, Event, counted, drops, step, step_from, emitted_at, with_mark, emit_from,
}
use pdfsleuth.Feeds.Mock.Runs.{step-Follows}
use pdfsleuth.Feeds.Mock.Gaps.{AreKnown, IsBatch}

-- the counter, one further
next_mod : (e n : ℕ) → suc (e % n) < n → (e + 1) % n ≡ suc (e % n)
next_mod e n h = subst (λ k. k % n ≡ suc (e % n)) (omega arith) (suc-mod e n ∙ mod-eq_of_lt h)

wrapped_mod : (e n : ℕ) → suc (e % n) ≡ n → (e + 1) % n ≡ 0
wrapped_mod e n h =
    subst (λ k. k % n ≡ 0) (omega arith) (suc-mod e n ∙ ap (λ k. k % n) h ∙ mod_self n)

room : (e n : ℕ) → 0 < n → (suc (e % n) < n) ⊎ (suc (e % n) ≡ n)
room e n pos = elim (Bool-cases (lt_ℕ (suc (e % n)) n)) [
  | inl h ↦ inl (ground arith)
  | inr h ↦ inr (ground (arith, mod-lt e pos))
]

pub positive_breadth : (ss : List String) → 0 < length (sorted_set ss) → is_empty ss ≡ false
unfolding sorted_set
positive_breadth [] h = absurd (omega arith)
positive_breadth (s ∷ ss) h = refl

module _ {D : Type 0} where
  -- the room that the counter leaves is not more than `k` marks
  abbrev pub reaches : MockFeed D → ℕ → Bool
  reaches m k = le_ℕ m.drop_every (m.emitted % m.drop_every + k)

  drops_wrapped :
      (m : MockFeed D) → suc (m.emitted % m.drop_every) ≡ m.drop_every → drops (counted m) ≡ true
  drops_wrapped m h = ground (arith, wrapped_mod m.emitted m.drop_every h)

  drops_next :
      (m : MockFeed D) → suc (m.emitted % m.drop_every) < m.drop_every → drops (counted m) ≡ false
  drops_next m h = ground (arith, next_mod m.emitted m.drop_every h)

  reaches_next :
      (m : MockFeed D) (k : ℕ)
      → suc (m.emitted % m.drop_every) < m.drop_every
      → reaches (counted m) k ≡ reaches m (suc k)
  reaches_next m k h = ground (arith, next_mod m.emitted m.drop_every h)

  abbrev pub is_dropped : Cycle D → Bool
  is_dropped (Cycle.batch ms) = false
  is_dropped Cycle.dropped = true
  is_dropped (Cycle.failed x) = false

  with_mark-is_dropped :
      (mark : Mark D) (r : MockFeed D × Cycle D) → is_dropped (with_mark mark r).1 ≡ is_dropped r.1
  with_mark-is_dropped mark (m, Cycle.batch ms) = refl
  with_mark-is_dropped mark (m, Cycle.dropped) = refl
  with_mark-is_dropped mark (m, Cycle.failed x) = refl

  emitted_at-is_dropped :
      (a : MockFeed D) (mark : Mark D) (rest : MockFeed D × Cycle D) (k : ℕ)
      → 0 < a.drop_every
      → is_dropped rest.1 ≡ reaches (counted a) k
      → is_dropped (emitted_at (a, ok mark) rest).1 ≡ reaches a (suc k)
  emitted_at-is_dropped a mark rest k pos e = elim (room a.emitted a.drop_every pos) [
    | inl h ↦ rw (drops_next a h) (with_mark-is_dropped mark rest ∙ e ∙ reaches_next a k h)
    | inr h ↦ rw (drops_wrapped a h) (ground arith)
  ]

  -- a batch with a mark for each of the symbols
  abbrev pub IsYield : ⦃n : Arith D⦄ → Bool → List String → Event D → Type 0
  IsYield gap ss e = (ms : List (Mark D)) × (e ≡ Event.yielded ms) × IsBatch gap ss ms

module _ {D : Type 0} ⦃n : Arith D⦄ where
  step_from-is_dropped :
      (now : Instant) (s : String) (gap : Bool) (prev : Option (Mark D)) (m : MockFeed D)
      (rest : MockFeed D × Cycle D) (k : ℕ)
      → 0 < m.drop_every
      → is_some prev ≡ true
      → is_dropped rest.1 ≡ reaches (counted (step_from now s gap prev m).0) k
      → is_dropped (emitted_at (step_from now s gap prev m) rest).1 ≡ reaches m (suc k)
  step_from-is_dropped now s gap none m rest k pos known e = absurd (cc)
  step_from-is_dropped now s gap (some p) m rest k pos known e =
      emitted_at-is_dropped (step_from now s gap (some p) m).0 _ rest k pos e

  reaches_nothing : (m : MockFeed D) → 0 < m.drop_every → reaches m 0 ≡ false
  reaches_nothing m pos = ground (arith, mod-lt m.emitted pos)

  -- A cycle drops exactly if its marks reach the next multiple of `drop_every`.
  pub emit_from-is_dropped :
      (now : Instant) (ss : List String) (gap : Bool) (m : MockFeed D)
      → 0 < m.drop_every
      → AreKnown ss m
      → is_dropped (emit_from now ss gap m).1 ≡ reaches m (length ss)
  unfolding emit_from step
  emit_from-is_dropped now [] gap m pos known = sym (reaches_nothing m pos)
  emit_from-is_dropped now (s ∷ ss) gap m pos known =
      let m' = counted (step now s gap m).0 in
      let f = step-Follows now s gap m in
      step_from-is_dropped now s gap (lookup s m.last) m (emit_from now ss false m') (length ss) pos
        (known s (ground (arith, ==_refl s)))
        (emit_from-is_dropped now ss false m' (rw f.drop_every pos)
          (λ k h. f.last k (known k (ground arith))))
