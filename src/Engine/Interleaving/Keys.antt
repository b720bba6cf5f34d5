-- ===== src/Engine/Interleaving/Keys.antt =====
-- The keys under which an engine of app/engine.py whose handlers interleave sends orders to the
-- broker.
use pdfsleuth.Common.{
  ◌≡◌, ◌⊎◌, subst, refl, inl, inr, String, true, false, Option, none, some, List, [], ◌∷◌, ◌++◌,
  arith, lookup, lookup-insert, lookup-insert_self, eq_iff, ◌==◌, contains, All, Bool-cases,
  Option-cases,
}
use pdfsleuth.Decimal.{Arith}
use pdfsleuth.Models.{Instant, Order, Outcome, ok, raise, check_order}
use pdfsleuth.Idempotency
use pdfsleuth.Idempotency.{Entry, IdempotencyRegistry, is_known, reserve, mark_sent}
use pdfsleuth.Engine.{Engine}
use pdfsleuth.Engine.Sending.{Request, Surroundings, looked_up, oversells, key_of, new_order}
use pdfsleuth.Engine.Receiving.{reconcile_with}
use pdfsleuth.Engine.Awaits.{Begun, begin_submit, begin_under, begin_new, resume_submit}
use pdfsleuth.Engine.Awaits.Handlers.{begin_fill, resume_cancel, resume_confirm, resume_fill}
use pdfsleuth.Engine.Interleaving.{Loop, Step, Reach, Keeps, Step-keeps, submits, here, next}

-- No key stands in the list twice.
abbrev pub NoRepeats : List String → Type 0
NoRepeats [] = Unit
NoRepeats (key ∷ keys) = (contains key keys ≡ false) × NoRepeats keys

mark_sent-is_known :
    (key k : String) (r : IdempotencyRegistry)
    → is_known key r ≡ true
    → is_known key (mark_sent k r) ≡ true
unfolding mark_sent
mark_sent-is_known key k r known = elim (Option-cases (lookup k r)) [
  | inl free ↦ ground arith
  | inr (x, found) ↦ ground (arith, eq_iff k key, lookup-insert k key (record x { sent = true }) r)
]

module _ {D : Type 0} where
  reserve-is_known_self :
      (key : String) (o : Order D) (r : IdempotencyRegistry)
      → lookup key r ≡ none
      → is_known key (reserve key o r).2 ≡ true
  unfolding reserve
  reserve-is_known_self key o r free =
      let entry : Entry = record { order_id = o.order_id; sent = false } in
      rw (free, lookup-insert_self key entry r) refl

  reserve-is_known :
      (key k : String) (o : Order D) (r : IdempotencyRegistry)
      → is_known key r ≡ true
      → is_known key (reserve k o r).2 ≡ true
  unfolding reserve
  reserve-is_known key k o r known = elim (Option-cases (lookup k r)) [
    | inl free ↦ ground (
      arith,
      eq_iff k key,
      lookup-insert k key (record { order_id = o.order_id; sent = false }) r,
    )
    | inr (x, found) ↦ ground arith
  ]

module _ {D : Type 0} ⦃n : Arith D⦄ where
  abbrev Knows : String → Engine D → Type 0
  Knows key e = is_known key e.idem ≡ true

  begin_new-Knows :
      (key k : String) (x : Outcome D (Order D)) (e : Engine D)
      → Knows key e
      → Knows key (begin_new k x e).0
  begin_new-Knows key k (raise err) e known = known
  begin_new-Knows key k (ok o) e known = reserve-is_known key k o e.idem known

  looked_up-Knows :
      (key : String) (now : Instant) (r : Request D) (e : Engine D)
      → Knows key e
      → Knows key (looked_up now r e)
  looked_up-Knows key now r e known = ground arith

  begin_submit-Knows :
      (key : String) (w : Surroundings D) (r : Request D) (e : Engine D)
      → Knows key e
      → Knows key (begin_submit w r e).0
  unfolding begin_submit
  begin_submit-Knows key w r e known = elim (Bool-cases (oversells w.now r e)) [
    | inl h ↦ rw h (looked_up-Knows key w.now r e known)
    | inr h ↦ rw h (under (Idempotency.get (key_of w r) e.idem))
  ]
    where
      under :
          (found : Option Entry)
          → Knows key (begin_under w r (key_of w r) found (looked_up w.now r e)).0
      under (some entry) = looked_up-Knows key w.now r e known
      under none =
          begin_new-Knows key (key_of w r) (check_order (new_order w r)) (looked_up w.now r e)
            (looked_up-Knows key w.now r e known)

  -- Once a key is registered, every part of every handler leaves it registered.
  keeps-Knows : (key : String) → Keeps (Knows key)
  unfolding begin_fill reconcile_with resume_submit resume_cancel resume_confirm resume_fill
  keeps-Knows key = record {
    submits = begin_submit-Knows key;
    delivers = λ now f e known. ground arith;
    snapshots = λ now v e known. known;
    marks = λ ts symbol price source e known. known;
    submitted = λ now k id answer e known. ground (arith, mark_sent-is_known key k e.idem);
    cancelled = λ now id answer e known. ground arith;
    confirmed = λ now id answer e known. ground arith;
    reconciled = λ now answer e known. ground arith;
  }

  -- the key under which the first part of a `submit` asks the broker
  abbrev pub asked : Begun D → List String
  asked (Begun.finished result) = []
  asked (Begun.awaiting key o) = key ∷ []

  -- the keys under which a step asks the broker to submit
  unfoldable asked_by : {l m : Loop D} → Step l m → List String
  asked_by {l} (submits w q) = asked (begin_submit w q l.engine).1
  asked_by _ = []

  -- The keys under which the broker was asked, the last one first.
  unfoldable pub asked_in : {l m : Loop D} → Reach l m → List String
  unfolding asked_by
  asked_in here = []
  asked_in (next r s) = asked_by s ++ asked_in r

  -- A key is asked under only if it is free, and registered from then on.
  record IsFirst (e e' : Engine D) (key : String) : Type 0 where
    pub free : is_known key e.idem ≡ false
    pub taken : Knows key e'

  begin_new-IsFirst :
      (key : String) (x : Outcome D (Order D)) (e₀ e : Engine D)
      → e.idem ≡ e₀.idem
      → lookup key e₀.idem ≡ none
      → let (e', begun) = begin_new key x e in All (IsFirst e₀ e') (asked begun)
  begin_new-IsFirst key (raise err) e₀ e same free = tt
  begin_new-IsFirst key (ok o) e₀ e same free = (
    record { free = rw free refl; taken = rw same (reserve-is_known_self key o e₀.idem free) },
    tt,
  )

  begin_submit-IsFirst :
      (w : Surroundings D) (r : Request D) (e : Engine D)
      → let (e', begun) = begin_submit w r e in All (IsFirst e e') (asked begun)
  unfolding begin_submit
  begin_submit-IsFirst w r e = elim (Bool-cases (oversells w.now r e)) [
    | inl h ↦ rw h tt
    | inr h ↦ rw h (under (Idempotency.get (key_of w r) e.idem) refl)
  ]
    where
      under :
          (found : Option Entry)
          → Idempotency.get (key_of w r) e.idem ≡ found
          → let (e', begun) = begin_under w r (key_of w r) found (looked_up w.now r e) in
            All (IsFirst e e') (asked begun)
      under (some entry) eq = tt
      under none eq =
          begin_new-IsFirst (key_of w r) (check_order (new_order w r)) e (looked_up w.now r e)
            (ground arith) eq

  -- Every key that was asked under is registered.
  AllKnown : List String → Engine D → Type 0
  AllKnown keys e = (key : String) → contains key keys ≡ true → Knows key e

  first-contains :
      (keys asked_now : List String) (e e' : Engine D)
      → All (IsFirst e e') asked_now
      → (asked_now ≡ []) ⊎ ((key : String) × (asked_now ≡ key ∷ []))
      → ((key : String) → Knows key e → Knows key e')
      → AllKnown keys e × NoRepeats keys
      → AllKnown (asked_now ++ keys) e' × NoRepeats (asked_now ++ keys)
  unfolding AllKnown
  first-contains keys [] e e' firsts shape grows (known, distinct) =
      (λ key h. grows key (known key h), distinct)
  first-contains keys (k ∷ []) e e' (first, _) shape grows (known, distinct) = (
    λ key h. elim (Bool-cases (k == key)) [
      | inl same ↦ subst (λ j. Knows j e') ((eq_iff k key).0 same) first.taken
      | inr other ↦ grows key (known key (rw other at h))
    ],
    (
      elim (Bool-cases (contains k keys)) [
        | inl old ↦ absurd (let known_now = known k old in let free = first.free in cc)
        | inr new ↦ new
      ],
      distinct,
    ),
  )
  first-contains keys (k ∷ j ∷ js) e e' firsts shape grows h =
      absurd (elim shape [ inl s ↦ cc | inr (key, s) ↦ cc ])

  asked-shape : (b : Begun D) → (asked b ≡ []) ⊎ ((key : String) × (asked b ≡ key ∷ []))
  asked-shape (Begun.finished result) = inl refl
  asked-shape (Begun.awaiting key o) = inr (key, refl)

  asked_by-IsFirst : {l m : Loop D} (s : Step l m) → All (IsFirst l.engine m.engine) (asked_by s)
  unfolding asked_by
  asked_by-IsFirst {l} (submits w q) = begin_submit-IsFirst w q l.engine
  asked_by-IsFirst _ = tt

  asked_by-shape :
      {l m : Loop D} (s : Step l m) → (asked_by s ≡ []) ⊎ ((key : String) × (asked_by s ≡ key ∷ []))
  unfolding asked_by
  asked_by-shape {l} (submits w q) = asked-shape (begin_submit w q l.engine).1
  asked_by-shape _ = inl refl

  asked_in-AllKnown :
      {l m : Loop D} (r : Reach l m) → AllKnown (asked_in r) m.engine × NoRepeats (asked_in r)
  unfolding asked_in AllKnown
  asked_in-AllKnown here = (λ key h. cc, tt)
  asked_in-AllKnown (next {m = m} {k = k} r s) =
      first-contains (asked_in r) (asked_by s) m.engine k.engine (asked_by-IsFirst s)
        (asked_by-shape s) (λ key known. Step-keeps (keeps-Knows key) s known) (asked_in-AllKnown r)

  -- However the handlers of an engine interleave while they await the broker, and whatever it
  -- answers, also with failures: the broker is asked to submit an order at most once under each key.
  pub Reach-NoRepeats : {l m : Loop D} (r : Reach l m) → NoRepeats (asked_in r)
  Reach-NoRepeats r = (asked_in-AllKnown r).1
