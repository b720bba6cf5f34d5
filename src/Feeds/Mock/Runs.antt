-- ===== src/Feeds/Mock/Runs.antt =====
-- Runs of app/feeds/mock.py: rounds of the stream and subscriptions between them.
use pdfsleuth.Common.{
  ◌≡◌, refl, String, Bool, true, false, Option, none, some, List, [], ◌∷◌, arith, lookup, insert,
  lookup-insert, lookup-insert_self, ◌⊎◌, if◌then◌else◌, ◌==◌, eq_iff, contains, is_some, is_empty,
  Bool-cases, inl, inr,
}
use pdfsleuth.Decimal.{Arith}
use pdfsleuth.Models.{Instant, Outcome, ok, raise}
use pdfsleuth.Reconcile.{sorted_set}
use pdfsleuth.Feeds.{Mark}
use pdfsleuth.Feeds.Mock.{
  MockFeed, Cycle, Stream, Event, counted, drops, step, step_from, emitted_at, with_mark, emit_from,
  subscribe, subscribe_one, first_mark, stream_round, settled, emit_once,
}

pub data Turn : Type 0 where
  round : Instant → Turn
  subscription : Instant → List String → Turn

contains-added :
    (s k : String) (subs : List String)
    → contains k (if contains s subs then subs else s ∷ subs) ≡ true
    → (s ≡ k) ⊎ (contains k subs ≡ true)
contains-added s k subs h = elim (Bool-cases (contains s subs)) [
  | inl e ↦ inr (ground arith)
  | inr e ↦ elim (Bool-cases (s == k)) [
    | inl q ↦ inl ((eq_iff s k).0 q)
    | inr q ↦ inr (ground arith)
  ]
]

module _ {D : Type 0} ⦃n : Arith D⦄ where
  unfoldable pub run : List Turn → MockFeed D × Stream → (MockFeed D × Stream) × List (Event D)
  run [] s = (s, [])
  run (Turn.subscription now symbols ∷ ts) (m, st) = run ts (subscribe now symbols m, st)
  run (Turn.round now ∷ ts) (m, st) =
      let (m', st', e) = stream_round now st m in let (s, es) = run ts (m', st') in (s, e ∷ es)

  -- every symbol that was subscribed has a last mark
  abbrev pub IsReady : MockFeed D → Type 0
  IsReady m = (s : String) → contains s m.subs ≡ true → is_some (lookup s m.last) ≡ true

  -- the second feed has the settings and the subscriptions of the first, and blanks no mark
  pub record Follows (m m' : MockFeed D) : Type 0 where
    pub subs : m'.subs ≡ m.subs
    pub drop_every : m'.drop_every ≡ m.drop_every
    pub backoff_base : m'.backoff_base ≡ m.backoff_base
    pub backoff_cap : m'.backoff_cap ≡ m.backoff_cap
    pub last : (s : String) → is_some (lookup s m.last) ≡ true → is_some (lookup s m'.last) ≡ true

  Follows-refl : (m : MockFeed D) → Follows m m
  Follows-refl m = record {
    subs = refl;
    drop_every = refl;
    backoff_base = refl;
    backoff_cap = refl;
    last = λ s p. p;
  }

  Follows-trans : (a b c : MockFeed D) → Follows a b → Follows b c → Follows a c
  Follows-trans a b c p q = record {
    subs = cc;
    drop_every = cc;
    backoff_base = cc;
    backoff_cap = cc;
    last = λ s h. q.last s (p.last s h);
  }

  is_some-insert :
      (k s : String) (v : Mark D) (m : MockFeed D)
      → is_some (lookup s m.last) ≡ true
      → is_some (lookup s (insert k v m.last)) ≡ true
  is_some-insert k s v m p = ground (arith, lookup-insert k s v m.last)

  counted-Follows : (a b : MockFeed D) → Follows a b → Follows a (counted b)
  counted-Follows a b p = record {
    subs = p.subs;
    drop_every = p.drop_every;
    backoff_base = p.backoff_base;
    backoff_cap = p.backoff_cap;
    last = p.last;
  }

  step_from-Follows :
      (now : Instant) (s : String) (gap : Bool) (prev : Option (Mark D)) (m : MockFeed D)
      → Follows m (step_from now s gap prev m).0
  step_from-Follows now s gap none m = Follows-refl m
  step_from-Follows now s gap (some prev) m = record {
    subs = refl;
    drop_every = refl;
    backoff_base = refl;
    backoff_cap = refl;
    last = λ k p. is_some-insert s k _ m p;
  }

  pub step-Follows :
      (now : Instant) (s : String) (gap : Bool) (m : MockFeed D)
      → Follows m (counted (step now s gap m).0)
  unfolding step
  step-Follows now s gap m =
      counted-Follows m (step now s gap m).0 (step_from-Follows now s gap (lookup s m.last) m)

  with_mark-Follows :
      (m : MockFeed D) (mark : Mark D) (r : MockFeed D × Cycle D)
      → Follows m r.0
      → Follows m (with_mark mark r).0
  with_mark-Follows m mark (a, Cycle.batch ms) p = p
  with_mark-Follows m mark (a, Cycle.dropped) p = p
  with_mark-Follows m mark (a, Cycle.failed x) p = p

  emitted_at-Follows :
      (m : MockFeed D) (r : MockFeed D × Outcome D (Mark D)) (rest : MockFeed D × Cycle D)
      → Follows m r.0
      → Follows m rest.0
      → Follows m (emitted_at r rest).0
  emitted_at-Follows m (a, raise x) rest p q = p
  emitted_at-Follows m (a, ok mark) rest p q = elim (Bool-cases (drops (counted a))) [
    | inl h ↦ rw h (counted-Follows m a p)
    | inr h ↦ rw h (with_mark-Follows m mark rest q)
  ]

  pub emit_from-Follows :
      (now : Instant) (ss : List String) (first : Bool) (m : MockFeed D)
      → Follows m (emit_from now ss first m).0
  unfolding emit_from step
  emit_from-Follows now [] first m = Follows-refl m
  emit_from-Follows now (s ∷ ss) first m =
      let r = step now s first m in
      emitted_at-Follows m r (emit_from now ss false (counted r.0))
        (step_from-Follows now s first (lookup s m.last) m)
        (Follows-trans m (counted r.0) (emit_from now ss false (counted r.0)).0
          (step-Follows now s first m) (emit_from-Follows now ss false (counted r.0)))

  settled-Follows :
      (m : MockFeed D) (st : Stream) (r : MockFeed D × Cycle D)
      → Follows m r.0
      → Follows m (settled st r).0
  settled-Follows m st (a, Cycle.batch ms) p = p
  settled-Follows m st (a, Cycle.dropped) p = p
  settled-Follows m st (a, Cycle.failed x) p = p

  pub stream_round-Follows :
      (now : Instant) (st : Stream) (m : MockFeed D) → Follows m (stream_round now st m).0
  unfolding stream_round
  stream_round-Follows now st m = elim (Bool-cases (is_empty m.subs)) [
    | inl h ↦ rw h (Follows-refl m)
    | inr h ↦ rw h (
        settled-Follows m st (emit_once now st.gap_next m)
          (emit_from-Follows now (sorted_set m.subs) st.gap_next m))
  ]

  pub stream_round-IsReady :
      (now : Instant) (st : Stream) (m : MockFeed D) → IsReady m → IsReady (stream_round now st m).0
  stream_round-IsReady now st m ready s h =
      let f = stream_round-Follows now st m in f.last s (ready s (rw⁻¹ f.subs h))

  first_mark-known :
      (now : Instant) (s k : String) (prev : Option (Mark D)) (m : MockFeed D)
      → lookup s m.last ≡ prev
      → (s ≡ k) ⊎ (is_some (lookup k m.last) ≡ true)
      → is_some (lookup k (first_mark now s prev m).last) ≡ true
  first_mark-known now s k (some p) m e (inl q) = rw⁻¹ q (rw e refl)
  first_mark-known now s k (some p) m e (inr q) = q
  first_mark-known now s k none m e (inl q) = rw⁻¹ q (rw (lookup-insert_self s _ m.last) refl)
  first_mark-known now s k none m e (inr q) = is_some-insert s k _ m q

  subscribe_one-subs :
      (now : Instant) (s : String) (prev : Option (Mark D)) (m : MockFeed D)
      → (first_mark now s prev m).subs ≡ m.subs
  subscribe_one-subs now s none m = refl
  subscribe_one-subs now s (some p) m = refl

  subscribe_one-IsReady :
      (now : Instant) (s : String) (m : MockFeed D) → IsReady m → IsReady (subscribe_one now m s)
  unfolding subscribe_one
  subscribe_one-IsReady now s m ready k h =
      let subs : List String = if contains s m.subs then m.subs else s ∷ m.subs in
      let m' : MockFeed D = record m { subs = subs } in
      let added =
        contains-added s k m.subs (rw⁻¹ (subscribe_one-subs now s (lookup s m.last) m') h) in
      first_mark-known now s k (lookup s m.last) m' refl
        (elim added [ inl q ↦ inl q | inr q ↦ inr (ready k q) ])

  -- A subscription makes the feed ready for its symbols.
  pub subscribe-IsReady :
      (now : Instant) (symbols : List String) (m : MockFeed D)
      → IsReady m
      → IsReady (subscribe now symbols m)
  unfolding subscribe
  subscribe-IsReady now [] m ready = ready
  subscribe-IsReady now (s ∷ ss) m ready =
      subscribe-IsReady now ss (subscribe_one now m s) (subscribe_one-IsReady now s m ready)
