-- ===== src/Models/Outcomes.antt =====
-- The chain of calls that may raise, for `do` blocks on outcomes.
use pdfsleuth.Models.Errors.{Outcome, ok, raise}

infixl 5 ◌>>=◌
abbrev pub ◌>>=◌ : {D A B : Type 0} → Outcome D A → (A → Outcome D B) → Outcome D B
ok a >>= k = k a
raise x >>= k = raise x
