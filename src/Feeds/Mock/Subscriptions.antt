-- ===== src/Feeds/Mock/Subscriptions.antt =====
-- `subscribe` of app/feeds/mock.py.
use pdfsleuth.Common.{
  ◌≡◌, refl, subst, ◌⊎◌, ◌==◌, eq_iff, All, String, true, Option, none, some, List, [], ◌∷◌, arith,
  lookup, contains, lookup-insert, is_some, ==_refl, if◌then◌else◌, inl, inr, Bool-cases, ◌∙◌, ap,
}
use pdfsleuth.Decimal.{Arith}
use pdfsleuth.Models.{Instant}
use pdfsleuth.Feeds.{Mark}
use pdfsleuth.Feeds.Mock.{MockFeed, subscribe, subscribe_one, first_mark}

contains_added :
    (s k : String) (subs : List String)
    → ((s == k) ≡ true) ⊎ (contains k subs ≡ true)
    → contains k (if contains s subs then subs else s ∷ subs) ≡ true
contains_added s k subs (inl q) = elim (Bool-cases (contains s subs)) [
  | inl h ↦ rw h (subst (λ x. contains x subs ≡ true) ((eq_iff s k).0 q) h)
  | inr h ↦ rw h (ground arith)
]
contains_added s k subs (inr q) = elim (Bool-cases (contains s subs)) [
  | inl h ↦ rw h q
  | inr h ↦ rw h (ground arith)
]

module _ {D : Type 0} ⦃n : Arith D⦄ where
  -- the symbol is subscribed and has a last mark
  IsSubscribed : String → MockFeed D → Type 0
  IsSubscribed s m = (contains s m.subs ≡ true) × (is_some (lookup s m.last) ≡ true)

  first_mark-known :
      (now : Instant) (s : String) (prev : Option (Mark D)) (m : MockFeed D)
      → is_some prev ≡ true
      → first_mark now s prev m ≡ m
  first_mark-known now s none m h = absurd (cc)
  first_mark-known now s (some p) m h = refl

  subscribe_one-known :
      (now : Instant) (s : String) (m : MockFeed D) → IsSubscribed s m → subscribe_one now m s ≡ m
  unfolding subscribe_one IsSubscribed
  subscribe_one-known now s m (listed, known) =
      rw listed (first_mark-known now s (lookup s m.last) m known)

  first_mark-IsSubscribed :
      (now : Instant) (s k : String) (prev : Option (Mark D)) (m : MockFeed D)
      → lookup s m.last ≡ prev
      → contains k m.subs ≡ true
      → ((s == k) ≡ true) ⊎ (is_some (lookup k m.last) ≡ true)
      → IsSubscribed k (first_mark now s prev m)
  unfolding IsSubscribed
  first_mark-IsSubscribed now s k none m e listed q =
      (listed, rw (lookup-insert s k _ m.last) (ground arith))
  first_mark-IsSubscribed now s k (some p) m e listed (inl q) = (listed, ground (arith, eq_iff s k))
  first_mark-IsSubscribed now s k (some p) m e listed (inr q) = (listed, q)

  subscribe_one-IsSubscribed :
      (now : Instant) (s k : String) (m : MockFeed D)
      → ((s == k) ≡ true) ⊎ IsSubscribed k m
      → IsSubscribed k (subscribe_one now m s)
  unfolding subscribe_one IsSubscribed
  subscribe_one-IsSubscribed now s k m (inl q) =
      first_mark-IsSubscribed now s k (lookup s m.last) _ refl (contains_added s k m.subs (inl q))
        (inl q)
  subscribe_one-IsSubscribed now s k m (inr (listed, known)) =
      first_mark-IsSubscribed now s k (lookup s m.last) _ refl
        (contains_added s k m.subs (inr listed)) (inr known)

  subscribe-IsSubscribed :
      (now : Instant) (symbols : List String) (k : String) (m : MockFeed D)
      → IsSubscribed k m
      → IsSubscribed k (subscribe now symbols m)
  unfolding subscribe
  subscribe-IsSubscribed now [] k m h = h
  subscribe-IsSubscribed now (s ∷ ss) k m h =
      subscribe-IsSubscribed now ss k (subscribe_one now m s)
        (subscribe_one-IsSubscribed now s k m (inr h))

  -- every symbol of the list
  AreSubscribed : List String → MockFeed D → Type 0
  AreSubscribed ss m = All (λ s. IsSubscribed s m) ss

  subscribe-AreSubscribed :
      (now : Instant) (symbols : List String) (m : MockFeed D)
      → AreSubscribed symbols (subscribe now symbols m)
  unfolding subscribe AreSubscribed
  subscribe-AreSubscribed now [] m = tt
  subscribe-AreSubscribed now (s ∷ ss) m = (
    subscribe-IsSubscribed now ss s (subscribe_one now m s)
        (subscribe_one-IsSubscribed now s s m (inl (==_refl s))),
    subscribe-AreSubscribed now ss (subscribe_one now m s),
  )

  subscribe-known :
      (now : Instant) (symbols : List String) (m : MockFeed D)
      → AreSubscribed symbols m
      → subscribe now symbols m ≡ m
  unfolding subscribe AreSubscribed
  subscribe-known now [] m h = refl
  subscribe-known now (s ∷ ss) m (h, hs) =
      ap (subscribe now ss) (subscribe_one-known now s m h) ∙ subscribe-known now ss m hs

  -- The contract of the interface, that `subscribe` is idempotent: to subscribe to symbols again
  -- changes nothing, not the mark of one either, whatever the time.
  pub subscribe_twice :
      (now later : Instant) (symbols : List String) (m : MockFeed D)
      → subscribe later symbols (subscribe now symbols m) ≡ subscribe now symbols m
  subscribe_twice now later symbols m =
      subscribe-known later symbols (subscribe now symbols m)
        (subscribe-AreSubscribed now symbols m)
