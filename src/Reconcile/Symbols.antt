-- ===== src/Reconcile/Symbols.antt =====
-- Which symbols app/reconcile.py visits.
use text.Mathlib.TextEquality.{path_by_compare}
use pdfsleuth.Common.{
  ◌≡◌, refl, String, Bool, false, ◌||◌, List, [], ◌∷◌, ◌++◌, arith, foldl, Dict, insert, contains,
  ◌==◌, eq_iff,
}
use pdfsleuth.Decimal.{Arith}
use pdfsleuth.Models.{Position, BrokerPosition}
use pdfsleuth.Reconcile.{insert_sorted, sorted_set, keys, index, symbols_of}

contains-insert_sorted :
    (s t : String) (ts : List String) → contains s (insert_sorted t ts) ≡ (t == s || contains s ts)
unfolding insert_sorted
contains-insert_sorted s t [] = refl
contains-insert_sorted s t (u ∷ us) =
    ground (arith, path_by_compare t u, eq_iff t s, eq_iff u s, contains-insert_sorted s t us)

pub contains-sorted_set :
    (s : String) (ts : List String) → contains s (sorted_set ts) ≡ contains s ts
unfolding sorted_set
contains-sorted_set s [] = refl
contains-sorted_set s (t ∷ ts) =
    ground (arith, contains-insert_sorted s t (sorted_set ts), contains-sorted_set s ts)

contains-append :
    (s : String) (xs ys : List String) → contains s (xs ++ ys) ≡ (contains s xs || contains s ys)
contains-append s [] ys = refl
contains-append s (x ∷ xs) ys = ground (arith, contains-append s xs ys)

module _ {A : Type 0} where
  contains-insert :
      (s k : String) (v : A) (d : Dict A)
      → contains s (keys (insert k v d)) ≡ (k == s || contains s (keys d))
  unfolding insert
  contains-insert s k v [] = refl
  contains-insert s k v ((j, w) ∷ d) =
      ground (arith, eq_iff j k, eq_iff k s, eq_iff j s, contains-insert s k v d)

  -- whether an item of the list has the symbol
  abbrev pub has : (A → String) → String → List A → Bool
  has symbol_of s [] = false
  has symbol_of s (i ∷ is) = symbol_of i == s || has symbol_of s is

  contains-index :
      (symbol_of : A → String) (s : String) (d : Dict A) (is : List A)
      → contains s (keys (foldl (λ d i. insert (symbol_of i) i d) d is))
        ≡ (contains s (keys d) || has symbol_of s is)
  contains-index symbol_of s d [] = ground arith
  contains-index symbol_of s d (i ∷ is) = ground (
    arith,
    contains-index symbol_of s (insert (symbol_of i) i d) is,
    contains-insert s (symbol_of i) i d,
  )

module _ {D : Type 0} ⦃n : Arith D⦄ where
  -- A symbol is checked exactly when one of the engine's positions or one of the broker's has it:
  -- what only one side holds is not passed over.
  pub symbols_of-contains :
      (s : String) (positions : List (Position D)) (broker : List (BrokerPosition D))
      → contains s (symbols_of positions broker)
        ≡ (has (λ p. p.symbol) s positions || has (λ p. p.symbol) s broker)
  symbols_of-contains s positions broker = ground (
    arith,
    contains-sorted_set s
        (keys (index (λ p. p.symbol) positions) ++ keys (index (λ p. p.symbol) broker)),
    contains-append s (keys (index (λ p. p.symbol) positions))
        (keys (index (λ p. p.symbol) broker)),
    contains-index (λ p. p.symbol) s [] positions,
    contains-index (λ p. p.symbol) s [] broker,
  )
