-- ===== src/Service/Marking.antt =====
-- The loop of app/main.py that feeds marks to the engine, on the mock feed.
use pdfsleuth.Common.{
  ℕ, suc, ◌≡◌, refl, ap, sym, subst, ◌∙◌, inl, inr, String, Bool, true, false, Option, none, some,
  List, [], ◌∷◌, ◌++◌, All, arith, ◌==◌, if◌then◌else◌, Bool-cases,
}
use pdfsleuth.Decimal.{Arith, lt, dec_zero}
use pdfsleuth.Decimal.Laws.{IsOrdered}
use pdfsleuth.Models.{Error, Outcome, ok, raise}
use pdfsleuth.Config.{MarkSource}
use pdfsleuth.Marks.{MarkStore, eq_source, price, update, get-update}
use pdfsleuth.Engine.{Engine}
use pdfsleuth.Feeds.{Mark}
use pdfsleuth.Feeds.Mock.{MockFeed, Stream, Event}
use pdfsleuth.Feeds.Mock.Runs.{Turn, run, IsReady}
use pdfsleuth.Feeds.Mock.Gaps.{AreFlagged, IsGapSafe, run-IsGapSafe}
use pdfsleuth.Service.{consume_marks, with_marks, mark_at}

eq_source_refl : (s : MarkSource) → eq_source s s ≡ true
eq_source_refl MarkSource.feed_mid = refl
eq_source_refl MarkSource.feed_last = refl
eq_source_refl MarkSource.broker_last = refl

module _ {D : Type 0} ⦃n : Arith D⦄ where
  -- the marks that a run of the stream yields
  abbrev pub marks_of : List (Event D) → List (Mark D)
  marks_of [] = []
  marks_of (Event.yielded ms ∷ es) = ms ++ marks_of es
  marks_of (_ ∷ es) = marks_of es

  ArePositive : List (Mark D) → Type 0
  ArePositive ms = All (λ x. lt dec_zero x.price ≡ true) ms

  AreFlagged-ArePositive :
      (gap : Bool) (ms ms' : List (Mark D))
      → AreFlagged gap ms
      → ArePositive ms'
      → ArePositive (ms ++ ms')
  unfolding ArePositive
  AreFlagged-ArePositive gap [] ms' h h' = h'
  AreFlagged-ArePositive gap (x ∷ xs) ms' (_, p, h) h' =
      (p, AreFlagged-ArePositive false xs ms' h h')

  ArePositive-marks_of :
      (gap : Bool) (es : List (Event D)) → IsGapSafe gap es → ArePositive (marks_of es)
  unfolding ArePositive
  ArePositive-marks_of gap [] h = tt
  ArePositive-marks_of gap (Event.idle ∷ es) h = ArePositive-marks_of gap es h
  ArePositive-marks_of gap (Event.yielded ms ∷ es) (h, hs) =
      AreFlagged-ArePositive gap ms (marks_of es) h (ArePositive-marks_of false es hs)
  ArePositive-marks_of gap (Event.slept d ∷ es) h = ArePositive-marks_of true es h
  ArePositive-marks_of gap (Event.raised x ∷ es) h = absurd h

  -- the last price of a symbol, or the one before all of them
  abbrev pub latest : String → List (Mark D) → Option D → Option D
  latest s [] p = p
  latest s (x ∷ xs) p = latest s xs (if x.symbol == s then some x.price else p)

  abbrev is_ok : {A : Type 0} → Outcome D A → Bool
  is_ok (ok a) = true
  is_ok (raise x) = false

  -- what the loop leaves of marks with positive prices
  pub record IsMarked (source : MarkSource) (ms : List (Mark D)) (e : Engine D)
      (r : Engine D × Option (Error D)) : Type 0 where
    pub raised : r.1 ≡ none
    pub books : r.0 ≡ with_marks r.0.pnl.marks e
    pub prices :
        (s : String) → price s source r.0.pnl.marks ≡ latest s ms (price s source e.pnl.marks)

module _ {D : Type 0} ⦃n : Arith D⦄ (laws : IsOrdered D) where
  open laws use {lt_irrefl, lt_trans}

  not_negative : (price : D) → lt dec_zero price ≡ true → lt price dec_zero ≡ false
  not_negative price h = elim (Bool-cases (lt price dec_zero)) [
    | inl g ↦ absurd (ground (arith, lt_trans dec_zero price dec_zero h g, lt_irrefl dec_zero))
    | inr g ↦ g
  ]

  update_price :
      (x : Mark D) (source : MarkSource) (now : ℕ) (s : String) (marks : MarkStore D)
      → lt dec_zero x.price ≡ true
      → price s source (update x.symbol x.price source now marks).0
        ≡ (if x.symbol == s then some x.price else price s source marks)
  update_price x source now s marks h = elim (Bool-cases (x.symbol == s)) [
    | inl k ↦
        rw
          (
            get-update x.symbol s x.price source source now marks,
            eq_source_refl source,
            k,
            not_negative x.price h,
          )
          refl
    | inr k ↦
        rw (get-update x.symbol s x.price source source now marks, eq_source_refl source, k) refl
  ]

  update_answers :
      (x : Mark D) (source : MarkSource) (now : ℕ) (marks : MarkStore D)
      → lt dec_zero x.price ≡ true
      → is_ok (update x.symbol x.price source now marks).1 ≡ true
  unfolding update
  update_answers x source now marks h = rw (not_negative x.price h) refl

  mark_at-ok :
      {A : Type 0} (r : MarkStore D × Outcome D A) (rest : Engine D × Option (Error D))
      (e : Engine D)
      → is_ok r.1 ≡ true
      → mark_at r rest e ≡ rest
  mark_at-ok (marks, ok a) rest e h = refl
  mark_at-ok (marks, raise x) rest e h = absurd (cc)

  consume_marks-IsMarked :
      (clock : ℕ → ℕ) (source : MarkSource) (ms : List (Mark D)) (e : Engine D)
      → ArePositive ms
      → IsMarked source ms e (consume_marks clock source ms e)
  unfolding consume_marks ArePositive
  consume_marks-IsMarked clock source [] e h = record {
    raised = refl;
    books = refl;
    prices = λ s. refl;
  }
  consume_marks-IsMarked clock source (x ∷ xs) e (h, hs) =
      let r = update x.symbol x.price source (clock 0) e.pnl.marks in
      let rest = consume_marks (λ k. clock (suc k)) source xs (with_marks r.0 e) in
      let q = consume_marks-IsMarked (λ k. clock (suc k)) source xs (with_marks r.0 e) hs in
      subst (IsMarked source (x ∷ xs) e)
        (sym (mark_at-ok r rest e (update_answers x source (clock 0) e.pnl.marks h)))
        (record {
          raised = q.raised;
          books = q.books;
          prices =
              λ s. q.prices s ∙ ap (latest s xs) (update_price x source (clock 0) s e.pnl.marks h);
        })

  -- The mark loop on the mock feed, under the laws of order and where 0.01 is positive: for every
  -- run of the stream of a feed whose symbols have marks, whatever it drops, the loop takes all
  -- the marks that the stream yields without an exception that would end it, changes nothing but
  -- the marks, and leaves for each symbol the price that was yielded last.
  pub consume_marks-run :
      (cent_pos : lt {D = D} dec_zero (n.dec 1 2) ≡ true) (ts : List Turn) (m : MockFeed D)
      (st : Stream) (clock : ℕ → ℕ) (source : MarkSource) (e : Engine D)
      → IsReady m
      → let ms = marks_of (run ts (m, st)).1 in
        IsMarked source ms e (consume_marks clock source ms e)
  consume_marks-run cent_pos ts m st clock source e ready =
      consume_marks-IsMarked clock source (marks_of (run ts (m, st)).1) e
        (ArePositive-marks_of st.gap_next (run ts (m, st)).1 (run-IsGapSafe cent_pos ts m st ready))
