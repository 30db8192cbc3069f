-- ===== src/Syntax/Stops.antt =====
-- The text of a tree, and the texts at which the reader of Syntax stops.
use iron_query.Prelude.{
  ℕ, suc, ◌+◌, ◌≤◌, Text, lit, has_byte, all_of, ◌==◌, ◌≡◌, ◌≢◌, refl, Bool, true, false, ◌||◌, [],
  ◌∷◌, ◌++◌, some, arith,
}
use iron_query.Exception.{ok}
use iron_query.Identifier.{is_word, is_alnum, is_alpha, validate_identifier}
use iron_query.Precedence.{OperatorPrecedence, rank, symbol, index, between, is}
use iron_query.Node.{needs_parens}
use iron_query.Node.Render.{bracketed}
use iron_query.Expr.Literal.{escape_onto}
use iron_query.Syntax.{
  Op, Test, Range, Choice, level, op_text, test_text, range_text, choice_text, Tail, joining,
  testing, spanning, choosing, indexing, tail_level, tail_text, prefix_level, prefix_text, Tree,
  name, literal, identifier, called, prefixed, binary, tested, ranged, chosen, indexed, Trees,
  empty, more,
}
use iron_query.Syntax.Grammar.{read_tail}

abbrev pub tree_level : Tree → OperatorPrecedence
tree_level (prefixed p t) = prefix_level p
tree_level (binary op a b) = level op
tree_level (tested t a) = is
tree_level (ranged r a b c) = between
tree_level (chosen c a ts) = between
tree_level (indexed a i) = index
tree_level _ = symbol

-- A text between quotes, in which a quote is written twice.
abbrev pub quoted : ℕ → Text → Text
quoted quote s = escape_onto quote s (quote ∷ []) ++ quote ∷ []

-- A list goes up to the parenthesis that closes it.
abbrev mutual
  pub tree_text : Tree → Text
  tree_text (name w) = w
  tree_text (literal s) = quoted b'\'' s
  tree_text (identifier s) = quoted b'"' s
  tree_text (called f ts) = f ++ b'(' ∷ trees_text ts
  tree_text (prefixed p t) =
      prefix_text p ++ bracketed (needs_parens (tree_level t) (prefix_level p)) (tree_text t)
  tree_text (binary op a b) =
      bracketed (needs_parens (tree_level a) (level op)) (tree_text a)
      ++ (op_text op ++ bracketed (needs_parens (tree_level b) (level op)) (tree_text b))
  tree_text (tested t a) =
      bracketed (needs_parens (tree_level a) is) (tree_text a) ++ (test_text t ++ [])
  tree_text (ranged r a b c) =
      bracketed (needs_parens (tree_level a) between) (tree_text a)
      ++ (range_text r
          ++ (bracketed (needs_parens (tree_level b) between) (tree_text b)
              ++ (lit " AND " ++ bracketed (needs_parens (tree_level c) between) (tree_text c))))
  tree_text (chosen c a ts) =
      bracketed (needs_parens (tree_level a) between) (tree_text a)
      ++ (choice_text c ++ trees_text ts)
  tree_text (indexed a i) =
      bracketed (needs_parens (tree_level a) index) (tree_text a)
      ++ (lit "[" ++ (tree_text i ++ b']' ∷ []))

  pub trees_text : Trees → Text
  trees_text empty = b')' ∷ []
  trees_text (more t ts) = tree_text t ++ others_text ts

  pub others_text : Trees → Text
  others_text empty = b')' ∷ []
  others_text (more t ts) = b',' ∷ b' ' ∷ (tree_text t ++ others_text ts)

-- A word, but not NOT, DISTINCT or ON, which SQL reserves.
pub record IsWord (w : Text) : Type 0 where
  pub shown : w ≢ []
  pub word : all_of is_word w ≡ true
  pub usual : w ≢ lit "NOT"
  pub unselected : w ≢ lit "DISTINCT"
  pub unjoined : w ≢ lit "ON"

abbrev pub IsMore : Trees → Type 0
IsMore empty = ⊥
IsMore (more t ts) = Unit

-- The names are such words, what is quoted holds no NUL byte, the function names are identifiers and
-- a list behind IN is not empty.
abbrev mutual
  pub Named : Tree → Type 0
  Named (name w) = IsWord w
  Named (literal s) = has_byte 0 s ≡ false
  Named (identifier s) = has_byte 0 s ≡ false
  Named (called f ts) = IsWord f × (validate_identifier f ≡ ok tt) × AllNamed ts
  Named (prefixed p t) = Named t
  Named (binary op a b) = Named a × Named b
  Named (tested t a) = Named a
  Named (ranged r a b c) = Named a × Named b × Named c
  Named (chosen c a ts) = Named a × IsMore ts × AllNamed ts
  Named (indexed a i) = Named a × Named i

  pub AllNamed : Trees → Type 0
  AllNamed empty = Unit
  AllNamed (more t ts) = Named t × AllNamed ts

-- No fewer than the brackets around a leaf, and the items of the lists it is in.
abbrev mutual
  pub depth : Tree → ℕ
  depth (called f ts) = depths ts
  depth (prefixed p t) = suc (depth t)
  depth (binary op a b) = suc (depth a + depth b)
  depth (tested t a) = suc (depth a)
  depth (ranged r a b c) = suc (depth a + depth b + depth c)
  depth (chosen c a ts) = suc (depth a + depths ts)
  depth (indexed a i) = suc (depth a + depth i)
  depth _ = 0

  pub depths : Trees → ℕ
  depths empty = 0
  depths (more t ts) = suc (suc (depth t + depths ts))

-- The level that reads a tree without parentheses.
abbrev pub reach : Tree → ℕ
reach (prefixed p t) = suc (rank (prefix_level p))
reach (binary op a b) = suc (rank (level op))
reach (tested t a) = suc (rank is)
reach (ranged r a b c) = suc (rank between)
reach (chosen c a ts) = suc (rank between)
reach (indexed a i) = suc (rank index)
reach _ = 0

-- Whether a word or a quoted token may be longer than what is in front of the text.
abbrev pub goes_on : Text → Bool
goes_on [] = false
goes_on (c ∷ s) = is_word c || c == b'(' || c == b'\'' || c == b'"'

-- Reading at a level stops in front of such a text.
pub record Stops (l : ℕ) (rest : Text) : Type 0 where
  pub leaf_ends : goes_on rest ≡ false
  pub tails_wait :
      (tail : Tail) (s : Text) → read_tail rest ≡ some (tail, s) → l ≤ rank (tail_level tail)

pub Stops-le : (k l : ℕ) {rest : Text} → k ≤ l → Stops l rest → Stops k rest
Stops-le k l h stops = record {
  leaf_ends = stops.leaf_ends;
  tails_wait = λ tail s e. omega (arith, h, stops.tails_wait tail s e);
}

pub Stops-nil : (l : ℕ) → Stops l []
unfolding read_tail lit
Stops-nil l = record { leaf_ends = refl; tails_wait = λ tail s e. cc }

pub Stops-close : (l : ℕ) (s : Text) → Stops l (b')' ∷ s)
unfolding read_tail lit is_word is_alnum is_alpha
Stops-close l s = record { leaf_ends = refl; tails_wait = λ tail r e. cc }

pub Stops-comma : (l : ℕ) (s : Text) → Stops l (b',' ∷ s)
unfolding read_tail lit is_word is_alnum is_alpha
Stops-comma l s = record { leaf_ends = refl; tails_wait = λ tail r e. cc }

pub Stops-bracket : (l : ℕ) (s : Text) → Stops l (b']' ∷ s)
unfolding read_tail lit is_word is_alnum is_alpha
Stops-bracket l s = record { leaf_ends = refl; tails_wait = λ tail r e. cc }

pub read_tail-tail_text :
    (tail : Tail) (s : Text) → read_tail (tail_text tail ++ s) ≡ some (tail, s)
unfolding read_tail lit
read_tail-tail_text (joining Op.member) s = refl
read_tail-tail_text (joining _) s = refl
read_tail-tail_text (testing Test.null) s = refl
read_tail-tail_text (testing _) s = refl
read_tail-tail_text (spanning Range.inside) s = refl
read_tail-tail_text (spanning _) s = refl
read_tail-tail_text (choosing Choice.among) s = refl
read_tail-tail_text (choosing _) s = refl
read_tail-tail_text indexing s = refl

pub tail_text-goes_on : (tail : Tail) (s : Text) → goes_on (tail_text tail ++ s) ≡ false
unfolding lit is_word is_alnum is_alpha
tail_text-goes_on (joining Op.member) s = refl
tail_text-goes_on (joining _) s = refl
tail_text-goes_on (testing Test.null) s = refl
tail_text-goes_on (testing _) s = refl
tail_text-goes_on (spanning Range.inside) s = refl
tail_text-goes_on (spanning _) s = refl
tail_text-goes_on (choosing Choice.among) s = refl
tail_text-goes_on (choosing _) s = refl
tail_text-goes_on indexing s = refl

pub Stops-tail_text :
    (tail : Tail) (s : Text) → Stops (rank (tail_level tail)) (tail_text tail ++ s)
Stops-tail_text tail s = record {
  leaf_ends = tail_text-goes_on tail s;
  tails_wait = λ tail' r e.
      let same : tail ≡ tail' = cc (read_tail-tail_text tail s, e) in rw same (omega arith);
}

-- An operand with what follows it.
abbrev pub led : Tree → Tail → Text → Text
led a tail s =
    bracketed (needs_parens (tree_level a) (tail_level tail)) (tree_text a) ++ (tail_text tail ++ s)
