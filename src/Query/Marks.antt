-- ===== src/Query/Marks.antt =====
-- What may follow a part of a SELECT, and what the readers of Query see there.
use iron_query.Prelude.{
  ℕ, suc, ◌≤◌, ◌<◌, Text, lit, ==_iff, ◌⊎◌, inl, inr, ◌≡◌, refl, [], ◌∷◌, ◌++◌, append_assoc,
  Option, none, some, arith,
}
use iron_query.Identifier.{is_word, is_alnum, is_alpha}
use iron_query.Syntax.Grammar.{strip, read_tail}
use iron_query.Syntax.Stops.{Stops, Stops-nil}
use iron_query.Query.{
  Mark, comma, source, where_mark, group_mark, having_mark, order_mark, limit_mark, offset_mark,
  closing, mark_text, part,
}
use iron_query.Query.Grammar.{read_kind}

pub strip-append : (p s : Text) → strip p (p ++ s) ≡ some s
unfolding strip
strip-append [] s = refl
strip-append (c ∷ p) s = rw ((==_iff c c).1 refl) (strip-append p s)

-- The order of the marks in a statement.
abbrev pub position : Mark → ℕ
position comma = 0
position source = 1
position where_mark = 2
position group_mark = 3
position having_mark = 4
position order_mark = 5
position limit_mark = 6
position offset_mark = 7
position closing = 8

-- The text ends, or goes on with a mark that is not in front of the position.
abbrev pub After : ℕ → Text → Type 0
After n rest =
    (rest ≡ []) ⊎ ((m : Mark) × (s : Text) × (rest ≡ mark_text m ++ s) × (n ≤ position m))

pub After-mark : (n : ℕ) (m : Mark) (s : Text) → n ≤ position m → After n (mark_text m ++ s)
After-mark n m s h = inr (m, s, refl, h)

pub After-nil : (n : ℕ) → After n []
After-nil n = inl refl

pub After-le : (n k : ℕ) {rest : Text} → n ≤ k → After k rest → After n rest
After-le n k h (inl e) = inl e
After-le n k h (inr (m, s, e, below)) = inr (m, s, e, omega (arith, h, below))

pub After-part :
    {A : Type 0} (n : ℕ) (m : Mark) (shown : A → Text) (o : Option A) (rest : Text)
    → n ≤ position m
    → After (suc (position m)) rest
    → After n (part m shown o ++ rest)
After-part n m shown none rest h after = After-le n (suc (position m)) (omega (arith, h)) after
After-part n m shown (some a) rest h after =
    rw (append_assoc (mark_text m) (shown a) rest) (After-mark n m (shown a ++ rest) h)

-- What holds at the end and at every mark.
After-elim :
    (Q : Text → Type 0) (n : ℕ) (rest : Text)
    → Q []
    → ((m : Mark) (s : Text) → n ≤ position m → Q (mark_text m ++ s))
    → After n rest
    → Q rest
After-elim Q n rest ended marked (inl e) = rw e ended
After-elim Q n rest ended marked (inr (m, s, e, h)) = rw e (marked m s h)

mark-Stops : (m : Mark) (s : Text) → Stops 18 (mark_text m ++ s)
unfolding read_tail lit is_word is_alnum is_alpha
mark-Stops comma s = record { leaf_ends = refl; tails_wait = λ tail r e. cc }
mark-Stops _ s = record { leaf_ends = refl; tails_wait = λ tail r e. cc }

pub After-Stops : (n : ℕ) (rest : Text) → After n rest → Stops 18 rest
After-Stops n rest h = After-elim (Stops 18) n rest (Stops-nil 18) (λ m s p. mark-Stops m s) h

mark-as : (m : Mark) (s : Text) → strip (lit " AS ") (mark_text m ++ s) ≡ none
unfolding strip lit
mark-as comma s = refl
mark-as _ s = refl

pub After-as : (n : ℕ) (rest : Text) → After n rest → strip (lit " AS ") rest ≡ none
After-as n rest h =
    After-elim (λ s. strip (lit " AS ") s ≡ none) n rest (unfold strip lit in refl)
      (λ m s p. mark-as m s) h

mark-on : (m : Mark) (s : Text) → strip (lit " ON ") (mark_text m ++ s) ≡ none
unfolding strip lit
mark-on comma s = refl
mark-on _ s = refl

pub After-on : (n : ℕ) (rest : Text) → After n rest → strip (lit " ON ") rest ≡ none
After-on n rest h =
    After-elim (λ s. strip (lit " ON ") s ≡ none) n rest (unfold strip lit in refl)
      (λ m s p. mark-on m s) h

mark-using : (m : Mark) (s : Text) → strip (lit " USING (") (mark_text m ++ s) ≡ none
unfolding strip lit
mark-using comma s = refl
mark-using _ s = refl

pub After-using : (n : ℕ) (rest : Text) → After n rest → strip (lit " USING (") rest ≡ none
After-using n rest h =
    After-elim (λ s. strip (lit " USING (") s ≡ none) n rest (unfold strip lit in refl)
      (λ m s p. mark-using m s) h

mark-order :
    (m : Mark) (s : Text)
    → (strip (lit " DESC") (mark_text m ++ s) ≡ none)
      × (strip (lit " NULLS FIRST") (mark_text m ++ s) ≡ none)
      × (strip (lit " NULLS LAST") (mark_text m ++ s) ≡ none)
unfolding strip lit
mark-order comma s = (refl, refl, refl)
mark-order _ s = (refl, refl, refl)

pub After-order :
    (n : ℕ) (rest : Text)
    → After n rest
    → (strip (lit " DESC") rest ≡ none)
      × (strip (lit " NULLS FIRST") rest ≡ none)
      × (strip (lit " NULLS LAST") rest ≡ none)
After-order n rest h =
    After-elim
      (λ s.
        (strip (lit " DESC") s ≡ none)
        × (strip (lit " NULLS FIRST") s ≡ none)
        × (strip (lit " NULLS LAST") s ≡ none))
      n rest (unfold strip lit in (refl, refl, refl)) (λ m s p. mark-order m s) h

mark-kind : (m : Mark) (s : Text) → read_kind (mark_text m ++ s) ≡ none
unfolding read_kind lit
mark-kind comma s = refl
mark-kind _ s = refl

pub After-kind : (n : ℕ) (rest : Text) → After n rest → read_kind rest ≡ none
After-kind n rest h =
    After-elim (λ s. read_kind s ≡ none) n rest (unfold read_kind lit in refl)
      (λ m s p. mark-kind m s) h

mark-mark :
    (k m : Mark) (s : Text)
    → position k < position m
    → strip (mark_text k) (mark_text m ++ s) ≡ none
unfolding strip lit
mark-mark comma comma s h = absurd (omega (arith, h))
mark-mark comma _ s h = refl
mark-mark source source s h = absurd (omega (arith, h))
mark-mark source _ s h = refl
mark-mark where_mark where_mark s h = absurd (omega (arith, h))
mark-mark where_mark _ s h = refl
mark-mark group_mark group_mark s h = absurd (omega (arith, h))
mark-mark group_mark _ s h = refl
mark-mark having_mark having_mark s h = absurd (omega (arith, h))
mark-mark having_mark _ s h = refl
mark-mark order_mark order_mark s h = absurd (omega (arith, h))
mark-mark order_mark _ s h = refl
mark-mark limit_mark limit_mark s h = absurd (omega (arith, h))
mark-mark limit_mark _ s h = refl
mark-mark offset_mark offset_mark s h = absurd (omega (arith, h))
mark-mark offset_mark _ s h = refl
mark-mark closing closing s h = absurd (omega (arith, h))
mark-mark closing _ s h = refl

mark-nil : (k : Mark) → strip (mark_text k) [] ≡ none
unfolding strip lit
mark-nil comma = refl
mark-nil _ = refl

-- A part that is missing is not seen in what follows.
pub After-missing :
    (k : Mark) (rest : Text) → After (suc (position k)) rest → strip (mark_text k) rest ≡ none
After-missing k rest h =
    After-elim (λ s. strip (mark_text k) s ≡ none) (suc (position k)) rest (mark-nil k)
      (λ m s p. mark-mark k m s p) h
