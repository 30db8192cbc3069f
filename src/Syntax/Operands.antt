-- ===== src/Syntax/Operands.antt =====
-- How the reader of Syntax reads an operand, and from there what follows it.
use iron_query.Prelude.{
  ℕ, suc, ◌≤◌, Text, lit, ==_iff, ◌≡◌, refl, ◌∙◌, Bool-cases, inl, inr, [], ◌∷◌, ◌++◌, append_assoc,
  some, arith,
}
use iron_query.Precedence.{OperatorPrecedence, rank, between}
use iron_query.Node.{needs_parens}
use iron_query.Node.Render.{bracketed}
use iron_query.Syntax.{
  Op, level, Test, Range, Choice, Tail, joining, testing, spanning, choosing, indexing, tail_level,
  tail_text, Prefix, prefix_level, prefix_text, Tree, prefixed, binary, tested, ranged, chosen,
  indexed, Trees,
}
use iron_query.Syntax.Grammar.{strip, Inner, finish, read_level, read_all, read_list}
use iron_query.Syntax.Leaves.{reads-brackets}
use iron_query.Syntax.Levels.{lift}
use iron_query.Syntax.Prefixes.{
  behind_prefix-prefix_text, unprefixed-bracket, unprefixed-operand, unprefixed-tree, tight_reach,
}
use iron_query.Syntax.Stops.{
  tree_level, tree_text, trees_text, Named, reach, Stops, Stops-le, Stops-close, Stops-bracket,
  Stops-tail_text, read_tail-tail_text, tail_text-goes_on, led,
}

abbrev pub inside : ℕ → Inner
inside fuel = record { one = read_all fuel; many = read_list fuel }

-- A tree is read at its own level and above, inside brackets, and in a list.
abbrev pub Reads : ℕ → Tree → Type 0
Reads fuel t =
    (l : ℕ) (rest : Text)
    → Stops l rest
    → reach t ≤ l
    → read_level (inside fuel) l (tree_text t ++ rest) ≡ some (t, rest)

abbrev pub ReadsInside : ℕ → Tree → Type 0
ReadsInside fuel t =
    (rest : Text) → Stops 18 rest → read_all fuel (tree_text t ++ rest) ≡ some (t, rest)

abbrev pub ReadsList : ℕ → Trees → Type 0
ReadsList fuel ts = (rest : Text) → read_list fuel (trees_text ts ++ rest) ≡ some (ts, rest)

strip-and : (s : Text) → strip (lit " AND ") (lit " AND " ++ s) ≡ some s
unfolding strip lit
strip-and s = refl

module _ (fuel : ℕ) where
  Reads-operand :
      (t : Tree) (p : OperatorPrecedence) (rest : Text)
      → Reads fuel t
      → ReadsInside fuel t
      → Stops (rank p) rest
      → read_level
          (inside fuel)
          (rank p)
          (bracketed (needs_parens (tree_level t) p) (tree_text t) ++ rest)
        ≡ some (t, rest)
  Reads-operand t p rest bare within stops = elim (Bool-cases (needs_parens (tree_level t) p)) [
    | inl parens ↦ rw parens (
        lift (inside fuel) 0 (rank p) _ (λ m h. unprefixed-bracket m _) (omega arith) stops
          (reads-brackets (inside fuel) (tree_text t) rest t
            (within (b')' ∷ rest) (Stops-close 18 rest))))
    | inr tight ↦ rw tight (bare (rank p) rest stops (tight_reach t p tight))
  ]

  pub Reads-prefixed :
      (p : Prefix) (t : Tree) (rest : Text)
      → Reads fuel t
      → ReadsInside fuel t
      → Stops (suc (rank (prefix_level p))) rest
      → read_level (inside fuel) (suc (rank (prefix_level p))) (tree_text (prefixed p t) ++ rest)
        ≡ some (prefixed p t, rest)
  Reads-prefixed p t rest r i stops =
      let operand = bracketed (needs_parens (tree_level t) (prefix_level p)) (tree_text t) in
      let right = Reads-operand t (prefix_level p) rest r i (Stops-le _ _ (omega arith) stops) in
      unfold read_level in
      rw
        (
          append_assoc (prefix_text p) operand rest,
          behind_prefix-prefix_text p (operand ++ rest),
          right,
        )
        refl

  -- The operand in front is read, and what follows it is found.
  Reads-led :
      (a : Tree) (tail : Tail) (s rest : Text)
      → Named a
      → Reads fuel a
      → ReadsInside fuel a
      → read_level (inside fuel) (suc (rank (tail_level tail))) (led a tail s ++ rest)
        ≡ finish
            (inside fuel)
            (read_level (inside fuel) (rank (tail_level tail)))
            a
            tail
            (s ++ rest)
  Reads-led a tail s rest ha ra ia =
      let l = rank (tail_level tail) in
      let behind = tail_text tail ++ (s ++ rest) in
      let left =
        Reads-operand a (tail_level tail) behind ra ia (Stops-tail_text tail (s ++ rest)) in
      let bare =
        unprefixed-operand l a (tail_level tail) behind (omega arith)
          (λ h. unprefixed-tree a l behind ha h (tail_text-goes_on tail _)) in
      unfold read_level in
      rw
        (
          append_assoc (bracketed (needs_parens (tree_level a) (tail_level tail)) (tree_text a))
              (tail_text tail ++ s) rest,
          append_assoc (tail_text tail) s rest,
          bare,
          left,
          read_tail-tail_text tail (s ++ rest),
          (==_iff l l).1 refl,
        )
        refl

  pub Reads-binary :
      (op : Op) (a b : Tree) (rest : Text)
      → Named a
      → Reads fuel a
      → ReadsInside fuel a
      → Reads fuel b
      → ReadsInside fuel b
      → Stops (suc (rank (level op))) rest
      → read_level (inside fuel) (suc (rank (level op))) (tree_text (binary op a b) ++ rest)
        ≡ some (binary op a b, rest)
  Reads-binary op a b rest ha ra ia rb ib stops =
      let right = Reads-operand b (level op) rest rb ib (Stops-le _ _ (omega arith) stops) in
      Reads-led a (joining op) _ rest ha ra ia ∙ rw right refl

  pub Reads-tested :
      (t : Test) (a : Tree) (rest : Text)
      → Named a
      → Reads fuel a
      → ReadsInside fuel a
      → read_level (inside fuel) 14 (tree_text (tested t a) ++ rest) ≡ some (tested t a, rest)
  Reads-tested t a rest ha ra ia = Reads-led a (testing t) [] rest ha ra ia

  pub Reads-ranged :
      (r : Range) (a b c : Tree) (rest : Text)
      → Named a
      → Reads fuel a
      → ReadsInside fuel a
      → Reads fuel b
      → ReadsInside fuel b
      → Reads fuel c
      → ReadsInside fuel c
      → Stops 12 rest
      → read_level (inside fuel) 12 (tree_text (ranged r a b c) ++ rest)
        ≡ some (ranged r a b c, rest)
  Reads-ranged r a b c rest ha ra ia rb ib rc ic stops =
      let low = bracketed (needs_parens (tree_level b) between) (tree_text b) in
      let high = bracketed (needs_parens (tree_level c) between) (tree_text c) in
      let first =
        Reads-operand b between (lit " AND " ++ (high ++ rest)) rb ib
          (Stops-le 11 15 (omega arith) (Stops-tail_text (joining Op.both) (high ++ rest))) in
      let second = Reads-operand c between rest rc ic (Stops-le 11 12 (omega arith) stops) in
      Reads-led a (spanning r) _ rest ha ra ia
      ∙ rw
          (
            append_assoc low (lit " AND " ++ high) rest,
            append_assoc (lit " AND ") high rest,
            first,
            strip-and (high ++ rest),
            second,
          )
          refl

  pub Reads-chosen :
      (c : Choice) (a : Tree) (ts : Trees) (rest : Text)
      → Named a
      → Reads fuel a
      → ReadsInside fuel a
      → ReadsList fuel ts
      → read_level (inside fuel) 12 (tree_text (chosen c a ts) ++ rest) ≡ some (chosen c a ts, rest)
  Reads-chosen c a ts rest ha ra ia all =
      Reads-led a (choosing c) _ rest ha ra ia ∙ rw (all rest) refl

  pub Reads-indexed :
      (a i : Tree) (rest : Text)
      → Named a
      → Reads fuel a
      → ReadsInside fuel a
      → ReadsInside fuel i
      → read_level (inside fuel) 4 (tree_text (indexed a i) ++ rest) ≡ some (indexed a i, rest)
  Reads-indexed a i rest ha ra ia ii =
      Reads-led a indexing _ rest ha ra ia
      ∙ rw (append_assoc (tree_text i) (b']' ∷ []) rest, ii (b']' ∷ rest) (Stops-bracket 18 rest))
          refl
