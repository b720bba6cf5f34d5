-- ===== src/Idempotency/Registry.antt =====
-- The registry of app/idempotency.py under any sequence of its uses.
use pdfsleuth.Common.{
  ◌≡◌, refl, ◌⊎◌, inl, inr, String, true, false, Option, some, arith, lookup, lookup-insert, ◌∙◌,
  Bool-cases, eq_iff, ◌==◌, Option-cases, List, [], ◌∷◌,
}
use pdfsleuth.Models.{Order}
use pdfsleuth.Idempotency.{Entry, IdempotencyRegistry, get, reserve, mark_sent}

-- What callers do to the registry.
pub data Use (D : Type 0) : Type 0 where
  reserve_key : String → Order D → Use D
  mark_key : String → Use D

-- What is found is an entry of the same order, sent if `e` was.
abbrev pub Follows : Entry → Option Entry → Type 0
Follows e found =
    (e' : Entry) × (found ≡ some e')
    × (e'.order_id ≡ e.order_id)
    × ((e.sent ≡ false) ⊎ (e'.sent ≡ true))

keeps : (e : Entry) → (e.sent ≡ false) ⊎ (e.sent ≡ true)
keeps e = ground arith

abbrev entry_of : {D : Type 0} → Order D → Entry
entry_of o = record { order_id = o.order_id; sent = false }

module _ {D : Type 0} where
  unfoldable pub after : IdempotencyRegistry → Use D → IdempotencyRegistry
  unfolding reserve mark_sent
  after r (Use.reserve_key k o) = (reserve k o r).2
  after r (Use.mark_key k) = mark_sent k r

  abbrev pub after_all : IdempotencyRegistry → List (Use D) → IdempotencyRegistry
  after_all r [] = r
  after_all r (u ∷ us) = after_all (after r u) us

  after-lookup :
      (r : IdempotencyRegistry) (u : Use D) (key : String) (e : Entry)
      → get key r ≡ some e
      → Follows e (get key (after r u))
  unfolding after reserve mark_sent
  after-lookup r (Use.reserve_key k o) key e known = elim (Option-cases (lookup k r)) [
    | inl free ↦
        (e, ground (arith, lookup-insert k key (entry_of o) r, eq_iff k key), refl, keeps e)
    | inr (x, found) ↦ (e, ground arith, refl, keeps e)
  ]
  after-lookup r (Use.mark_key k) key e known = elim (Option-cases (lookup k r)) [
    | inl free ↦ (e, ground arith, refl, keeps e)
    | inr (x, found) ↦ elim (Bool-cases (k == key)) [
      | inl same ↦ (
        record e { sent = true },
        ground (arith, lookup-insert k key (record x { sent = true }) r, eq_iff k key),
        refl,
        inr refl,
      )
      | inr other ↦ (
        e,
        ground (arith, lookup-insert k key (record x { sent = true }) r, eq_iff k key),
        refl,
        keeps e,
      )
    ]
  ]

  -- Once a key is bound, no sequence of reservations and marks binds it to another order, and a
  -- key that was sent stays sent.
  pub after_all-lookup :
      (r : IdempotencyRegistry) (us : List (Use D)) (key : String) (e : Entry)
      → get key r ≡ some e
      → Follows e (get key (after_all r us))
  after_all-lookup r [] key e known = (e, known, refl, keeps e)
  after_all-lookup r (u ∷ us) key e known =
      let (e₁, known₁, same₁, sent₁) = after-lookup r u key e known in
      let (e₂, known₂, same₂, sent₂) = after_all-lookup (after r u) us key e₁ known₁ in
      (e₂, known₂, same₂ ∙ same₁, ground arith)
