-- ===== src/Engine/Restart/Books.antt =====
-- Position books that hold the same positions, and the fills among the rows that an engine wrote.
use pdfsleuth.Common.{
  ◌≡◌, refl, inl, inr, String, Bool, true, false, List, [], ◌∷◌, ◌++◌, foldl, arith, lookup,
  lookup-insert, eq_iff, ◌==◌, ap, if◌then◌else◌, Option-cases,
}
use pdfsleuth.Decimal.{Arith}
use pdfsleuth.Models.{Instant, Fill, Order, Position, new_position}
use pdfsleuth.Positions
use pdfsleuth.Positions.{PositionBook, apply_to}
use pdfsleuth.Positions.Ledger.{position}
use pdfsleuth.Engine.{StoreCall}

pub foldl-append :
    {A B : Type 0} (f : B → A → B) (z : B) (xs ys : List A)
    → foldl f z (xs ++ ys) ≡ foldl f (foldl f z xs) ys
foldl-append f z [] ys = refl
foldl-append f z (x ∷ xs) ys = foldl-append f (f z x) xs ys

module _ {D : Type 0} where
  -- The fills among the rows, in the order in which they were written.
  abbrev pub fills_of : List (StoreCall D) → List (Fill D)
  fills_of [] = []
  fills_of (StoreCall.record_fill f ∷ rows) = f ∷ fills_of rows
  fills_of (_ ∷ rows) = fills_of rows

  pub fills_of-append :
      (xs ys : List (StoreCall D)) → fills_of (xs ++ ys) ≡ fills_of xs ++ fills_of ys
  fills_of-append [] ys = refl
  fills_of-append (StoreCall.record_fill f ∷ xs) ys = ap (λ r. f ∷ r) (fills_of-append xs ys)
  fills_of-append (StoreCall.upsert_order o ∷ xs) ys = fills_of-append xs ys
  fills_of-append (StoreCall.upsert_position p ∷ xs) ys = fills_of-append xs ys

  pub fills_of-rows :
      (rows : List (StoreCall D)) (o : Order D)
      → fills_of (rows ++ (StoreCall.upsert_order o ∷ [])) ≡ fills_of rows
  fills_of-rows [] o = refl
  fills_of-rows (StoreCall.record_fill f ∷ rows) o = ap (λ r. f ∷ r) (fills_of-rows rows o)
  fills_of-rows (StoreCall.upsert_order p ∷ rows) o = fills_of-rows rows o
  fills_of-rows (StoreCall.upsert_position p ∷ rows) o = fills_of-rows rows o

  -- The two positions differ at most in when they were last updated.
  pub record IsSamePosition (p q : Position D) : Type 0 where
    pub qty : p.qty ≡ q.qty
    pub avg_cost : p.avg_cost ≡ q.avg_cost
    pub realized_pnl : p.realized_pnl ≡ q.realized_pnl
    pub fees_paid : p.fees_paid ≡ q.fees_paid

module _ {D : Type 0} ⦃n : Arith D⦄ where
  apply_to-IsSamePosition :
      (p q : Position D) (f : Fill D)
      → IsSamePosition p q
      → IsSamePosition (apply_to p f) (apply_to q f)
  unfolding apply_to
  apply_to-IsSamePosition p q f h = ground arith

  -- Two books that hold the same positions, whichever positions `get` has created in them.
  abbrev pub IsSameBook : Instant → PositionBook D → PositionBook D → Type 0
  IsSameBook now ps qs =
      (symbol : String) → IsSamePosition (position now symbol ps) (position now symbol qs)

  position-any_time :
      (now a : Instant) (symbol : String) (ps : PositionBook D)
      → IsSamePosition (position now symbol ps) (position a symbol ps)
  unfolding Positions.get
  position-any_time now a symbol ps = elim (Option-cases (lookup symbol ps)) [
    | inl missing ↦ ground arith
    | inr (p, found) ↦ ground arith
  ]

  pub get-IsSameBook :
      (now a : Instant) (symbol : String) (ps : PositionBook D)
      → IsSameBook now (Positions.get a symbol ps).1 ps
  unfolding Positions.get
  get-IsSameBook now a symbol ps other =
      ground (arith, eq_iff symbol other, lookup-insert symbol other (new_position a symbol) ps)

  position-apply_at :
      (now a : Instant) (symbol : String) (ps : PositionBook D) (f : Fill D)
      → position now symbol (Positions.apply a ps f)
        ≡ (if f.symbol == symbol then apply_to (position a symbol ps) f else position now symbol ps)
  unfolding Positions.get Positions.apply
  position-apply_at now a symbol ps f = ground (
    arith,
    eq_iff f.symbol symbol,
    lookup-insert f.symbol symbol (apply_to (position a f.symbol ps) f)
        (Positions.get a f.symbol ps).1,
    lookup-insert f.symbol symbol (new_position a f.symbol) ps,
  )

  pub IsSamePosition-trans :
      {p q r : Position D} → IsSamePosition p q → IsSamePosition q r → IsSamePosition p r
  IsSamePosition-trans x y = record { qty = cc; avg_cost = cc; realized_pnl = cc; fees_paid = cc }

  IsSamePosition-via :
      {p p' q q' : Position D}
      → IsSamePosition p p'
      → IsSamePosition p q
      → IsSamePosition p' q'
      → IsSamePosition q q'
  IsSamePosition-via x y z = record { qty = cc; avg_cost = cc; realized_pnl = cc; fees_paid = cc }

  pub apply-IsSameBook :
      (now a b : Instant) (ps qs : PositionBook D) (f : Fill D)
      → IsSameBook now ps qs
      → IsSameBook now (Positions.apply a ps f) (Positions.apply b qs f)
  apply-IsSameBook now a b ps qs f h symbol =
      rw (position-apply_at now a symbol ps f, position-apply_at now b symbol qs f)
        (step (f.symbol == symbol))
    where
      step :
          (same : Bool)
          → IsSamePosition
              (if same then apply_to (position a symbol ps) f else position now symbol ps)
              (if same then apply_to (position b symbol qs) f else position now symbol qs)
      step true = apply_to-IsSamePosition (position a symbol ps) (position b symbol qs) f (
          IsSamePosition-via (h symbol) (position-any_time now a symbol ps)
            (position-any_time now b symbol qs))
      step false = h symbol

  pub IsSameBook-refl : (now : Instant) (ps : PositionBook D) → IsSameBook now ps ps
  IsSameBook-refl now ps symbol = record {
    qty = refl;
    avg_cost = refl;
    realized_pnl = refl;
    fees_paid = refl;
  }
