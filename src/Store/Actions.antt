-- ===== src/Store/Actions.antt =====
-- Calls that read and write a connection and may raise, one after the other, and `try`/`except`.
use pdfsleuth.Models.{Error, Outcome, ok, raise}

abbrev pub Action : Type 0 → Type 0 → Type 0 → Type 0
Action D S A = S → S × Outcome D A

module _ {D S A : Type 0} where
  abbrev pub pure : A → Action D S A
  pure a s = (s, ok a)

  -- `try: body` / `except Exception: handler; raise`
  abbrev pub after_handler : Error D → S × Outcome D Unit → S × Outcome D A
  after_handler err (s, ok _) = (s, raise err)
  after_handler err (s, raise other) = (s, raise other)

  abbrev pub caught : Action D S Unit → S × Outcome D A → S × Outcome D A
  caught handler (s, ok a) = (s, ok a)
  caught handler (s, raise err) = after_handler err (handler s)

  abbrev pub try_except : Action D S A → Action D S Unit → Action D S A
  try_except body handler s = caught handler (body s)

module _ {D S A B : Type 0} where
  abbrev pub continue : (A → Action D S B) → S × Outcome D A → S × Outcome D B
  continue k (s, ok a) = k a s
  continue k (s, raise err) = (s, raise err)

  infixl 5 ◌>>=◌ ◌>>◌
  abbrev pub ◌>>=◌ : Action D S A → (A → Action D S B) → Action D S B
  (m >>= k) s = continue k (m s)

  abbrev pub ◌>>◌ : Action D S A → Action D S B → Action D S B
  (m >> k) s = continue (λ _. k) (m s)
