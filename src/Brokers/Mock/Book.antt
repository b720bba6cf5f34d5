-- ===== src/Brokers/Mock/Book.antt =====
-- The mock broker's book of app/brokers/mock.py against the engine's position book.
use pdfsleuth.Common.{
  ◌≡◌, refl, sym, ap, ◌∙◌, String, List, [], ◌∷◌, foldl, arith, lookup-insert, ◌==◌, eq_iff,
  if◌then◌else◌,
}
use pdfsleuth.Decimal.{Arith, ◌+◌}
use pdfsleuth.Models.{Instant, Fill, signed_qty}
use pdfsleuth.Positions
use pdfsleuth.Positions.{PositionBook}
use pdfsleuth.Positions.Ledger.{position, net_qty, apply_many-qty}
use pdfsleuth.Brokers.Mock.{MockBroker, moved, booked, apply_to_book}

module _ {D : Type 0} ⦃n : Arith D⦄ where
  booked-apply_to_book :
      (symbol : String) (m : MockBroker D) (f : Fill D)
      → (booked symbol (apply_to_book m f)).qty ≡ (
          if f.symbol == symbol
          then (booked symbol m).qty + signed_qty f
          else (booked symbol m).qty)
  unfolding booked apply_to_book
  booked-apply_to_book symbol m f =
      ground (arith, eq_iff f.symbol symbol, lookup-insert f.symbol symbol (moved m f) m.positions)

  foldl-booked :
      (symbol : String) (m : MockBroker D) (fills : List (Fill D))
      → (booked symbol (foldl apply_to_book m fills)).qty
        ≡ net_qty symbol (booked symbol m).qty fills
  foldl-booked symbol m [] = refl
  foldl-booked symbol m (f ∷ fs) =
      foldl-booked symbol (apply_to_book m f) fs
      ∙ ap (λ q. net_qty symbol q fs) (booked-apply_to_book symbol m f)

  -- Fed the same fills, the mock broker's book and the engine's position book hold the same
  -- quantity of every symbol, also across flips and however the context rounds, if they did
  -- before: the fills alone never give the reconciler a quantity break.
  pub foldl-same_qty :
      (now : Instant) (symbol : String) (m : MockBroker D) (ps : PositionBook D)
      (fills : List (Fill D))
      → (booked symbol m).qty ≡ (position now symbol ps).qty
      → (booked symbol (foldl apply_to_book m fills)).qty
        ≡ (position now symbol (Positions.apply_many now ps fills)).qty
  foldl-same_qty now symbol m ps fills same =
      foldl-booked symbol m fills
      ∙ ap (λ q. net_qty symbol q fills) same
      ∙ sym (apply_many-qty now symbol ps fills).0
