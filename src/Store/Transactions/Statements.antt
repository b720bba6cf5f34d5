-- ===== src/Store/Transactions/Statements.antt =====
-- What the statements between the `BEGIN` and the end of a method of app/store.py leave.
use pdfsleuth.Common.{
  ◌≡◌, refl, subst, sym, ap, ◌⊎◌, inl, inr, String, Bool, true, false, Option, none, some, List, [],
  ◌∷◌, ◌∙◌,
}
use pdfsleuth.Models.{Error, Outcome, ok, raise}
use pdfsleuth.Store.Actions.{Action, pure, continue, ◌>>◌}
use pdfsleuth.Store.Sqlite.{Database, IsSql, Tables, Write, written, written_all, has_exec, known}
use pdfsleuth.Store.{execute_all, committed, already, unless_found, new_execution}

Outcome-cases :
    {D A : Type 0} (o : Outcome D A) → ((a : A) × (o ≡ ok a)) ⊎ ((x : Error D) × (o ≡ raise x))
Outcome-cases (ok a) = inl (a, refl)
Outcome-cases (raise x) = inr (x, refl)

module _ {D S : Type 0} (db : Database D S) (sql : IsSql db) where
  abbrev pub IsOpenWith : S → Tables → S → Type 0
  IsOpenWith s tables t = sql.IsOpen s t × (sql.reads t ≡ tables)

  abbrev pub IsIdleWith : Tables → S → Type 0
  IsIdleWith tables t = sql.IsIdle t × (sql.reads t ≡ tables)

  -- `ROLLBACK` leads from `t` back to the tables of `s`, or they are there already.
  abbrev pub IsUndone : S → S → Type 0
  IsUndone s t = sql.IsAborted s t ⊎ IsIdleWith (sql.reads s) t

  -- A block of statements of the transaction begun in `s`: it raised and can be undone, or it
  -- returned and `Q` holds.
  abbrev pub Ends : {A : Type 0} → S → (S → A → Type 0) → S × Outcome D A → Type 0
  Ends s Q (t, raise x) = IsUndone s t
  Ends s Q (t, ok a) = Q t a

  Ends-from :
      {A : Type 0} (s : S) (Q : S → A → Type 0) (r : S × Outcome D A)
      → ((x : Error D) → r.1 ≡ raise x → IsUndone s r.0)
      → ((a : A) → r.1 ≡ ok a → Q r.0 a)
      → Ends s Q r
  Ends-from s Q (t, raise x) bad good = bad x refl
  Ends-from s Q (t, ok a) bad good = good a refl

  pub Ends-weaken :
      {A : Type 0} (s : S) (Q R : S → A → Type 0) (r : S × Outcome D A)
      → Ends s Q r
      → ((t : S) (a : A) → Q t a → R t a)
      → Ends s R r
  Ends-weaken s Q R (t, raise x) h next = h
  Ends-weaken s Q R (t, ok a) h next = next t a h

  pub Ends-continue :
      {A B : Type 0} (s : S) (Q : S → A → Type 0) (R : S → B → Type 0) (k : A → Action D S B)
      (r : S × Outcome D A)
      → Ends s Q r
      → ((t : S) (a : A) → Q t a → Ends s R (k a t))
      → Ends s R (continue k r)
  Ends-continue s Q R k (t, raise x) h next = h
  Ends-continue s Q R k (t, ok a) h next = next t a h

  execute_all-Ends :
      (s t : S) (ws : List Write)
      → sql.IsOpen s t
      → Ends s (λ u (_ : Unit). IsOpenWith s (written_all ws (sql.reads t)) u) (execute_all db ws t)
  unfolding execute_all written_all
  execute_all-Ends s t [] o = (o, refl)
  execute_all-Ends s t (w ∷ ws) o =
      Ends-continue s (λ u _. IsOpenWith s (written w (sql.reads t)) u)
        (λ v (_ : Unit). IsOpenWith s (written_all ws (written w (sql.reads t))) v)
        (λ _. execute_all db ws) (db.execute w t)
        (Ends-from s (λ u _. IsOpenWith s (written w (sql.reads t)) u) (db.execute w t)
          (λ x e. inl (sql.execute_fails s t w x o e)) (λ a e. sql.execute_writes s t w o e))
        (λ u a h.
          subst
            (λ tables.
              Ends s (λ v (_ : Unit). IsOpenWith s (written_all ws tables) v) (execute_all db ws u))
            h.1 (execute_all-Ends s u ws h.0))

  pub committed-Ends :
      {A : Type 0} (s t : S) (ws : List Write) (a : A)
      → sql.IsOpen s t
      → Ends s
          (λ u (b : A). IsIdleWith (written_all ws (sql.reads t)) u × (b ≡ a))
          (committed db ws a t)
  unfolding committed
  committed-Ends {A} s t ws a o =
      let end = written_all ws (sql.reads t) in
      Ends-continue s (λ u (_ : Unit). IsOpenWith s end u) (λ u (b : A). IsIdleWith end u × (b ≡ a))
        (λ _. db.commit >> pure a) (execute_all db ws t) (execute_all-Ends s t ws o)
        (λ u _ h.
          Ends-continue s (λ v (_ : Unit). IsIdleWith end v)
            (λ v (b : A). IsIdleWith end v × (b ≡ a)) (λ _. pure a) (db.commit u)
            (Ends-from s (λ v (_ : Unit). IsIdleWith end v) (db.commit u)
              (λ x e. inl (sql.commit_fails s u x h.0 e))
              (λ b e. let (i, r) = sql.commit_ends s u h.0 e in (i, r ∙ h.1)))
            (λ v _ g. (g, refl)))

  already-Ends :
      (s t : S) (id : Option String)
      → IsOpenWith s (sql.reads s) t
      → Ends s
          (λ u b. IsOpenWith s (sql.reads s) u × (b ≡ known id (sql.reads s)))
          (already db id t)
  already-Ends s t none o = (o, refl)
  already-Ends s t (some id) (o, same) =
      Ends-from s (λ u b. IsOpenWith s (sql.reads s) u × (b ≡ has_exec id (sql.reads s).fills))
        (db.seen id t) (λ x e. inl (sql.seen_fails s t id x o e))
        (λ found e.
          let (o', same', found_is) = sql.seen_finds s t id found o e in
          ((o', same' ∙ same), found_is ∙ ap (λ tables. has_exec id tables.fills) same))

  -- What a method that deduplicates has done when it returns.
  abbrev pub Answer : S → Option String → List Write → S → Bool → Type 0
  Answer s id ws t true =
      IsIdleWith (written_all ws (sql.reads s)) t × (known id (sql.reads s) ≡ false)
  Answer s id ws t false = IsIdleWith (sql.reads s) t × (known id (sql.reads s) ≡ true)

  unless_found-Ends :
      (s t : S) (id : Option String) (ws : List Write) (b : Bool)
      → IsOpenWith s (sql.reads s) t
      → b ≡ known id (sql.reads s)
      → Ends s (Answer s id ws) (unless_found db ws b t)
  unless_found-Ends s t id ws true (o, same) found =
      Ends-continue s (λ u (_ : Unit). IsIdleWith (sql.reads s) u) (Answer s id ws)
        (λ _. pure false) (db.rollback t)
        (Ends-from s (λ u (_ : Unit). IsIdleWith (sql.reads s) u) (db.rollback t)
          (λ x e. inr (sql.rollback_open s t o)) (λ a e. sql.rollback_open s t o))
        (λ u _ h. (h, sym found))
  unless_found-Ends s t id ws false (o, same) found =
      Ends-weaken s (λ u (b : Bool). IsIdleWith (written_all ws (sql.reads s)) u × (b ≡ true))
        (Answer s id ws) (committed db ws true t)
        (subst
          (λ tables.
            Ends s (λ u (b : Bool). IsIdleWith (written_all ws tables) u × (b ≡ true))
              (committed db ws true t))
          same (committed-Ends s t ws true o))
        (λ u b h. subst (Answer s id ws u) (sym h.1) (h.0, sym found))

  pub new_execution-Ends :
      (s t : S) (id : Option String) (ws : List Write)
      → IsOpenWith s (sql.reads s) t
      → Ends s (Answer s id ws) (new_execution db id ws t)
  unfolding new_execution
  new_execution-Ends s t id ws o =
      Ends-continue s (λ u b. IsOpenWith s (sql.reads s) u × (b ≡ known id (sql.reads s)))
        (Answer s id ws) (unless_found db ws) (already db id t) (already-Ends s t id o)
        (λ u b h. unless_found-Ends s u id ws b h.0 h.1)

  pub begin-Ends :
      (s : S) → sql.IsIdle s → Ends s (λ t (_ : Unit). IsOpenWith s (sql.reads s) t) (db.begin s)
  begin-Ends s i =
      Ends-from s (λ t (_ : Unit). IsOpenWith s (sql.reads s) t) (db.begin s)
        (λ x e. inr (sql.begin_fails s x i e)) (λ a e. sql.begin_starts s i e)
