-- ===== src/CostBasis/Fifo/Lots.antt =====
-- The lot queue of `FifoCostBasis`: the rounds of its loop and the sign of its lots.
use pdfsleuth.Common.{
  ℕ, zero, suc, ◌≤◌, ◌≡◌, refl, subst, ◌⊎◌, inl, inr, true, false, List, [], ◌∷◌, arith, length,
  is_empty, is_empty-append, All, All-append, Bool-cases, if◌then◌else◌,
}
use pdfsleuth.Decimal.{Arith, ◌-◌, dec_zero, lt, gt}
use pdfsleuth.Decimal.Laws.{IsOrdered}
use pdfsleuth.Models.{Fill, Side}
use pdfsleuth.CostBasis.Fifo.{
  Lot, Book, Sweep, FifoCostBasis, sweep, sweeping, round, apply, eq_book, book_of, start,
}

book_of-ne-flat : (s : Side) → eq_book (book_of s) Book.flat ≡ false
book_of-ne-flat Side.buy = refl
book_of-ne-flat Side.sell = refl

module _ {D : Type 0} ⦃n : Arith D⦄ where
  sweep_idle :
      (fuel : ℕ) (side : Book) (price : D) (w : Sweep D)
      → sweeping w ≡ false
      → sweep fuel side price w ≡ w
  unfolding sweep
  sweep_idle zero side price w h = refl
  sweep_idle (suc fuel) side price w h = ground arith

  abbrev pub Positive : Lot D → Type 0
  Positive l = gt l.qty dec_zero ≡ true

  -- What the loop keeps: positive lots, and a quantity that is not negative.
  pub record IsSweeping (w : Sweep D) : Type 0 where
    pub positive : All Positive w.lots
    pub remaining : lt w.remaining dec_zero ≡ false

  -- Every lot is positive, and the book is flat exactly when it has no lots.
  pub record IsQueue (b : FifoCostBasis D) : Type 0 where
    pub positive : All Positive b.lots
    pub flat_iff : eq_book b.side_sign Book.flat ≡ is_empty b.lots

module _ {D : Type 0} ⦃n : Arith D⦄ (laws : IsOrdered D) where
  open laws use {lt_irrefl, eq_refl, eq_of_eq, sub_self, sub_pos, lt_connected}

  pub gt_not_lt : (a : D) → gt a dec_zero ≡ true → lt a dec_zero ≡ false
  gt_not_lt a h = elim (Bool-cases (lt a dec_zero)) [
    | inl g ↦ cc (laws.lt_trans a dec_zero a g h, lt_irrefl a)
    | inr g ↦ g
  ]

  -- A round drops its lot, or uses up the quantity.
  round_spent :
      (side : Book) (price : D) (l : Lot D) (ls : List (Lot D)) (w : Sweep D)
      → let w' = round side price (l ∷ ls) w in (w'.lots ≡ ls) ⊎ (gt w'.remaining dec_zero ≡ false)
  round_spent side price l ls w = elim (Bool-cases (lt l.qty w.remaining)) [
    | inl h ↦ inl (ground (arith, sub_self l.qty, eq_refl dec_zero))
    | inr h ↦ inr (ground (arith, sub_self w.remaining, lt_irrefl dec_zero))
  ]

  sweep_ends_from :
      (fuel : ℕ) (side : Book) (price : D) (lots : List (Lot D)) (w : Sweep D)
      → w.lots ≡ lots
      → length lots ≤ fuel
      → sweeping (sweep fuel side price w) ≡ false
  unfolding sweep
  sweep_ends_from zero side price [] w e h = ground arith
  sweep_ends_from zero side price (l ∷ ls) w e h = absurd (omega arith)
  sweep_ends_from (suc fuel) side price [] w e h = ground arith
  sweep_ends_from (suc fuel) side price (l ∷ ls) w e h = elim (Bool-cases (sweeping w)) [
    | inr idle ↦ ground arith
    | inl go ↦ elim (round_spent side price l ls w) [
      | inl popped ↦
          ground (arith, sweep_ends_from fuel side price ls (round side price (l ∷ ls) w) popped)
      | inr spent ↦ ground (arith, sweep_idle fuel side price (round side price (l ∷ ls) w))
    ]
  ]

  -- Under the laws of order, the loop that consumes lots ends by its own test, with as many rounds
  -- as there are lots: afterwards the quantity is used up or no lot is left.
  pub sweep_ends :
      (side : Book) (price : D) (w : Sweep D)
      → sweeping (sweep (length w.lots) side price w) ≡ false
  sweep_ends side price w = sweep_ends_from (length w.lots) side price w.lots w refl (omega arith)

  round-IsSweeping :
      (side : Book) (price : D) (l : Lot D) (ls : List (Lot D)) (w : Sweep D)
      → Positive l
      → All Positive ls
      → IsSweeping (round side price (l ∷ ls) w)
  round-IsSweeping side price l ls w p ps = elim (Bool-cases (lt l.qty w.remaining)) [
    | inl h ↦ ground (
      arith,
      sub_self l.qty,
      eq_refl dec_zero,
      sub_pos w.remaining l.qty h,
      gt_not_lt (w.remaining - l.qty),
    )
    | inr h ↦ elim (Bool-cases (lt w.remaining l.qty)) [
      | inl g ↦
          ground (arith, sub_self w.remaining, lt_irrefl dec_zero, sub_pos l.qty w.remaining g)
      | inr g ↦ ground (
        arith,
        sub_self w.remaining,
        lt_irrefl dec_zero,
        lt_connected l.qty w.remaining h g,
        sub_self l.qty,
        eq_refl dec_zero,
      )
    ]
  ]

  pub sweep-IsSweeping :
      (fuel : ℕ) (side : Book) (price : D) (lots : List (Lot D)) (w : Sweep D)
      → w.lots ≡ lots
      → IsSweeping w
      → IsSweeping (sweep fuel side price w)
  unfolding sweep
  sweep-IsSweeping zero side price lots w e s = s
  sweep-IsSweeping (suc fuel) side price [] w e s = ground arith
  sweep-IsSweeping (suc fuel) side price (l ∷ ls) w e s = elim (Bool-cases (sweeping w)) [
    | inl go ↦
        let (p, ps) = subst (All Positive) e s.positive in
        let w' = round side price (l ∷ ls) w in
        ground (
          arith,
          sweep-IsSweeping fuel side price w'.lots w' refl
              (round-IsSweeping side price l ls w p ps),
        )
    | inr idle ↦ ground arith
  ]

  -- Under the laws of order, a fill of positive quantity keeps the queue well formed, whether it
  -- opens, reduces, closes or flips the book.
  pub apply-IsQueue :
      (b : FifoCostBasis D) (f : Fill D)
      → gt f.qty dec_zero ≡ true
      → IsQueue b
      → IsQueue (apply b f).0
  unfolding apply
  apply-IsQueue b f pos q =
      let side : Book = if eq_book b.side_sign Book.flat then book_of f.side else b.side_sign in
      let w = sweep (length b.lots) side f.price (start b f) in
      let kept : IsSweeping w =
        sweep-IsSweeping (length b.lots) side f.price b.lots (start b f) refl
          (record { positive = q.positive; remaining = gt_not_lt f.qty pos }) in
      let last : Lot D = record { qty = w.remaining; price = f.price } in
      let fresh : Lot D = record { qty = f.qty; price = f.price } in
      ground (
        arith,
        kept,
        book_of-ne-flat f.side,
        is_empty-append w.lots last,
        is_empty-append b.lots fresh,
        All-append Positive w.lots (last ∷ []),
        All-append Positive b.lots (fresh ∷ []),
      )
