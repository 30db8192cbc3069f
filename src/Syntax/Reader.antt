-- ===== src/Syntax/Reader.antt =====
-- The reader of Syntax reads back the text of every tree, rendered with the parentheses that
-- NeedsParens of src/impl/node.cpp asks for.
use iron_query.Prelude.{
  ℕ, zero, suc, ◌≤◌, ◌<◌, Text, lit, ◌≡◌, refl, sym, ap, ◌∙◌, [], ◌∷◌, ◌++◌, append_assoc,
  append-nil, none, some, arith,
}
use iron_query.Identifier.{is_word, is_alnum, is_alpha}
use iron_query.Expr.Literal.Quoting.{read_quoted}
use iron_query.Syntax.{
  Op, Tree, name, literal, identifier, called, prefixed, binary, sign, negation, tested, ranged,
  chosen, indexed, Trees, empty, more,
}
use iron_query.Syntax.Grammar.{
  strip, Inner, or_no_arguments, read_operand, span_word, behind_prefix, read_level, read_all,
  read_list,
}
use iron_query.Syntax.Leaves.{reads-name, reads-literal, reads-identifier, reads-called}
use iron_query.Syntax.Levels.{lift}
use iron_query.Syntax.Operands.{
  inside, Reads, ReadsInside, ReadsList, Reads-prefixed, Reads-binary, Reads-tested, Reads-ranged,
  Reads-chosen, Reads-indexed,
}
use iron_query.Syntax.Prefixes.{unprefixed-tree}
use iron_query.Syntax.Stops.{
  tree_text, trees_text, others_text, IsMore, Named, AllNamed, depth, depths, reach, Stops,
  Stops-le, Stops-nil, Stops-close, Stops-comma,
}

reach_bound : (t : Tree) → reach t ≤ 18
reach_bound (prefixed sign t) = omega arith
reach_bound (prefixed negation t) = omega arith
reach_bound (binary Op.member a b) = omega arith
reach_bound (binary _ a b) = omega arith
reach_bound _ = omega arith

Reads-inside : (fuel : ℕ) (t : Tree) → Reads fuel t → ReadsInside (suc fuel) t
unfolding read_all
Reads-inside fuel t bare rest stops = bare 18 rest stops (reach_bound t)

lift-tree :
    (inner : Inner) (t : Tree) (l : ℕ) (rest : Text)
    → Named t
    → Stops l rest
    → reach t ≤ l
    → read_level inner (reach t) (tree_text t ++ rest) ≡ some (t, rest)
    → read_level inner l (tree_text t ++ rest) ≡ some (t, rest)
lift-tree inner t l rest h stops r e =
    lift inner (reach t) l _ (λ m below. unprefixed-tree t m rest h below stops.leaf_ends) r stops e

-- A list with one item more.
ReadsList-more :
    (fuel : ℕ) (t : Tree) (ts : Trees)
    → ReadsInside fuel t
    → (IsMore ts → ReadsList fuel ts)
    → ReadsList (suc fuel) (more t ts)
unfolding read_all
ReadsList-more fuel t empty one many rest =
    rw (append_assoc (tree_text t) (b')' ∷ []) rest, one (b')' ∷ rest) (Stops-close 18 rest))
      (unfold strip lit in refl)
ReadsList-more fuel t (more u us) one many rest =
    let behind = trees_text (more u us) ++ rest in
    rw
      (
        append_assoc (tree_text t) (others_text (more u us)) rest,
        one (b',' ∷ b' ' ∷ behind) (Stops-comma 18 (b' ' ∷ behind)),
      )
      (unfold strip lit in rw (many tt rest) refl)

-- A closing parenthesis starts no item.
no_items : (fuel : ℕ) (rest : Text) → read_list fuel (b')' ∷ rest) ≡ none
unfolding read_all read_level read_operand read_quoted behind_prefix strip lit span_word is_word
    is_alnum is_alpha
no_items zero rest = refl
no_items (suc zero) rest = refl
no_items (suc (suc fuel)) rest = refl

arguments :
    (fuel : ℕ) (ts : Trees) (rest : Text)
    → (IsMore ts → ReadsList fuel ts)
    → or_no_arguments (trees_text ts ++ rest) (read_list fuel (trees_text ts ++ rest))
      ≡ some (ts, rest)
arguments fuel empty rest h = rw (no_items fuel rest) refl
arguments fuel (more t ts) rest h = rw (h tt rest) refl

-- Reading at the tree's own level is reading at every level above.
own_level :
    (fuel : ℕ) (t : Tree)
    → Named t
    → ((rest : Text)
        → Stops (reach t) rest
        → read_level (inside fuel) (reach t) (tree_text t ++ rest) ≡ some (t, rest))
    → Reads fuel t
own_level fuel t h own l rest stops r =
    lift-tree (inside fuel) t l rest h stops r (own rest (Stops-le (reach t) l r stops))

mutual
  reads : (t : Tree) (fuel : ℕ) → Named t → depth t ≤ fuel → Reads fuel t
  reads (name w) fuel h d =
      own_level fuel (name w) h (λ rest stops. reads-name (inside fuel) w rest h stops.leaf_ends)
  reads (literal s) fuel h d =
      own_level fuel (literal s) h
        (λ rest stops. reads-literal (inside fuel) s rest stops.leaf_ends)
  reads (identifier s) fuel h d =
      own_level fuel (identifier s) h
        (λ rest stops. reads-identifier (inside fuel) s rest stops.leaf_ends)
  reads (called f ts) fuel h d = own_level fuel (called f ts) h (λ rest stops.
      ap (read_level (inside fuel) 0) (append_assoc f (b'(' ∷ trees_text ts) rest)
      ∙ reads-called (inside fuel) f (trees_text ts ++ rest) rest ts h.0
          (arguments fuel ts rest (λ one. reads_list ts fuel h.2 one d)))
  reads (prefixed p t) zero h d = absurd (omega (arith, d))
  reads (prefixed p t) (suc fuel) h d = own_level (suc fuel) (prefixed p t) h (λ rest stops.
      Reads-prefixed (suc fuel) p t rest (reads t (suc fuel) h (omega (arith, d)))
        (Reads-inside fuel t (reads t fuel h (omega (arith, d)))) stops)
  reads (binary op a b) zero h d = absurd (omega (arith, d))
  reads (binary op a b) (suc fuel) h d = own_level (suc fuel) (binary op a b) h (λ rest stops.
      Reads-binary (suc fuel) op a b rest h.0 (reads a (suc fuel) h.0 (omega (arith, d)))
        (Reads-inside fuel a (reads a fuel h.0 (omega (arith, d))))
        (reads b (suc fuel) h.1 (omega (arith, d)))
        (Reads-inside fuel b (reads b fuel h.1 (omega (arith, d)))) stops)
  reads (tested t a) zero h d = absurd (omega (arith, d))
  reads (tested t a) (suc fuel) h d = own_level (suc fuel) (tested t a) h (λ rest stops.
      Reads-tested (suc fuel) t a rest h (reads a (suc fuel) h (omega (arith, d)))
        (Reads-inside fuel a (reads a fuel h (omega (arith, d)))))
  reads (ranged r a b c) zero h d = absurd (omega (arith, d))
  reads (ranged r a b c) (suc fuel) h d = own_level (suc fuel) (ranged r a b c) h (λ rest stops.
      Reads-ranged (suc fuel) r a b c rest h.0 (reads a (suc fuel) h.0 (omega (arith, d)))
        (Reads-inside fuel a (reads a fuel h.0 (omega (arith, d))))
        (reads b (suc fuel) h.1 (omega (arith, d)))
        (Reads-inside fuel b (reads b fuel h.1 (omega (arith, d))))
        (reads c (suc fuel) h.2 (omega (arith, d)))
        (Reads-inside fuel c (reads c fuel h.2 (omega (arith, d)))) stops)
  reads (chosen c a ts) zero h d = absurd (omega (arith, d))
  reads (chosen c a ts) (suc fuel) h d = own_level (suc fuel) (chosen c a ts) h (λ rest stops.
      Reads-chosen (suc fuel) c a ts rest h.0 (reads a (suc fuel) h.0 (omega (arith, d)))
        (Reads-inside fuel a (reads a fuel h.0 (omega (arith, d))))
        (reads_list ts (suc fuel) h.2 h.1 (omega (arith, d))))
  reads (indexed a i) zero h d = absurd (omega (arith, d))
  reads (indexed a i) (suc fuel) h d = own_level (suc fuel) (indexed a i) h (λ rest stops.
      Reads-indexed (suc fuel) a i rest h.0 (reads a (suc fuel) h.0 (omega (arith, d)))
        (Reads-inside fuel a (reads a fuel h.0 (omega (arith, d))))
        (Reads-inside fuel i (reads i fuel h.1 (omega (arith, d)))))

  reads_list :
      (ts : Trees) (fuel : ℕ) → AllNamed ts → IsMore ts → depths ts ≤ fuel → ReadsList fuel ts
  reads_list empty fuel h one d = absurd one
  reads_list (more t ts) zero h one d = absurd (omega (arith, d))
  reads_list (more t ts) (suc zero) h one d = absurd (omega (arith, d))
  reads_list (more t ts) (suc (suc fuel)) h one d =
      ReadsList-more (suc fuel) t ts (Reads-inside fuel t (reads t fuel h.0 (omega (arith, d))))
        (λ others. reads_list ts (suc fuel) h.1 others (omega (arith, d)))

-- In front of a text at which it stops, the reader gives back every tree, on more fuel than it is deep.
pub read_all-Stops :
    (t : Tree) (fuel : ℕ) (rest : Text)
    → Named t
    → depth t < fuel
    → Stops 18 rest
    → read_all fuel (tree_text t ++ rest) ≡ some (t, rest)
read_all-Stops t zero rest h d stops = absurd (omega (arith, d))
read_all-Stops t (suc fuel) rest h d stops =
    Reads-inside fuel t (reads t fuel h (omega (arith, d))) rest stops

pub read_all-tree_text :
    (t : Tree) (fuel : ℕ) → Named t → depth t < fuel → read_all fuel (tree_text t) ≡ some (t, [])
read_all-tree_text t fuel h d =
    ap (read_all fuel) (sym (append-nil (tree_text t)))
    ∙ read_all-Stops t fuel [] h d (Stops-nil 18)
