-- ===== src/Positions/Ledger.antt =====
-- The position book of app/positions.py against the fill ledger.
use pdfsleuth.Common.{
  ◌≡◌, refl, String, List, [], ◌∷◌, arith, if◌then◌else◌, ◌==◌, eq_iff, lookup-insert,
}
use pdfsleuth.Decimal.{Arith, ◌+◌}
use pdfsleuth.Models.{Instant, Fill, Position, new_position, signed_qty}
use pdfsleuth.Positions.{PositionBook, get, apply, apply_to, apply_many}

module _ {D : Type 0} ⦃n : Arith D⦄ where
  -- The position that `get` hands out.
  abbrev pub position : Instant → String → PositionBook D → Position D
  position now symbol book = (get now symbol book).0

  -- One fill: the position of its symbol is updated, and every other position stays as it was.
  pub position-apply :
      (now : Instant) (symbol : String) (book : PositionBook D) (f : Fill D)
      → position now symbol (apply now book f) ≡ (
          if f.symbol == symbol
          then apply_to (position now symbol book) f
          else position now symbol book)
  unfolding get apply
  position-apply now symbol book f = ground (
    arith,
    eq_iff f.symbol symbol,
    lookup-insert f.symbol symbol (apply_to (position now f.symbol book) f)
        (get now f.symbol book).1,
    lookup-insert f.symbol symbol (new_position now f.symbol) book,
  )

  -- The signed quantities of a symbol's fills, added up from `q` in the order of the ledger.
  abbrev pub net_qty : String → D → List (Fill D) → D
  net_qty symbol q [] = q
  net_qty symbol q (f ∷ fs) = net_qty symbol (if f.symbol == symbol then q + signed_qty f else q) fs

  abbrev pub total_fees : String → D → List (Fill D) → D
  total_fees symbol q [] = q
  total_fees symbol q (f ∷ fs) = total_fees symbol (if f.symbol == symbol then q + f.fee else q) fs

  apply_to-qty : (p : Position D) (f : Fill D) → (apply_to p f).qty ≡ p.qty + signed_qty f
  unfolding apply_to
  apply_to-qty p f = ground arith

  apply_to-fees : (p : Position D) (f : Fill D) → (apply_to p f).fees_paid ≡ p.fees_paid + f.fee
  unfolding apply_to
  apply_to-fees p f = ground arith

  -- After any ledger of fills the position of a symbol holds exactly the signed sum of that
  -- symbol's fills and the sum of their fees, whatever branch each fill took and however the
  -- context rounds.
  pub apply_many-qty :
      (now : Instant) (symbol : String) (book : PositionBook D) (fills : List (Fill D))
      → let p = position now symbol book in
        let q = position now symbol (apply_many now book fills) in
        (q.qty ≡ net_qty symbol p.qty fills) × (q.fees_paid ≡ total_fees symbol p.fees_paid fills)
  unfolding apply_many
  apply_many-qty now symbol book [] = (refl, refl)
  apply_many-qty now symbol book (f ∷ fs) = ground (
    arith,
    apply_many-qty now symbol (apply now book f) fs,
    position-apply now symbol book f,
    apply_to-qty (position now symbol book) f,
    apply_to-fees (position now symbol book) f,
  )
