-- ===== src/Node.antt =====
-- src/impl/node.hpp and node.cpp: the tree of lazily rendered parts. A NodePtr is shared and its node
-- is never written to, so a pointer is the node.
pub mod Render
pub mod Size
pub mod Shown
use iron_query.Prelude.{ℕ, ◌+◌, ◌%◌, ◌^◌, Text, length, leb, if◌then◌else◌, Bool, [], ◌∷◌, ◌++◌}
use iron_query.Precedence.{OperatorPrecedence, rank}

-- `Parts` is the vector of a node; `child` is a ChildRef.
mutual
  pub data Node : Type 0 where
    node : OperatorPrecedence → Parts → ℕ → Node

  pub data Part : Type 0 where
    text : Text → Part
    child : Node → OperatorPrecedence → Part

  pub data Parts : Type 0 where
    nil : Parts
    cons : Part → Parts → Parts

abbrev pub precedence : Node → OperatorPrecedence
precedence (node p parts size) = p

abbrev pub parts_of : Node → Parts
parts_of (node p parts size) = parts

abbrev pub size_of : Node → ℕ
size_of (node p parts size) = size

abbrev pub size_mod : ℕ
size_mod = 2 ^ 64

unfoldable pub needs_parens : OperatorPrecedence → OperatorPrecedence → Bool
needs_parens own context = leb (rank context) (rank own)

-- `std::size_t` wraps around at 2^64.
unfoldable pub part_size : Part → ℕ
part_size (text s) = length s
part_size (child (node p parts size) context) =
    (size + (if needs_parens p context then 2 else 0)) % size_mod

unfoldable pub sum_sizes : Parts → ℕ → ℕ
sum_sizes nil size = size
sum_sizes (cons part parts) size = sum_sizes parts ((size + part_size part) % size_mod)

abbrev pub open_paren : Bool → Text → Text
open_paren parens out = if parens then out ++ b'(' ∷ [] else out

abbrev pub close_paren : Bool → Text → Text
close_paren parens out = if parens then out ++ b')' ∷ [] else out

unfoldable mutual
  pub append_part : Part → Text → Text
  append_part (text s) out = out ++ s
  append_part (child n context) out =
      close_paren (needs_parens (precedence n) context)
        (append_node n (open_paren (needs_parens (precedence n) context) out))

  -- The loop over `value.node->parts`.
  pub append_node : Node → Text → Text
  append_node (node p parts size) out = append_parts parts out

  pub append_parts : Parts → Text → Text
  append_parts nil out = out
  append_parts (cons part parts) out = append_parts parts (append_part part out)

unfoldable pub make_leaf : Text → OperatorPrecedence → Node
make_leaf s p = node p (cons (text s) nil) (length s)

unfoldable pub make_node : OperatorPrecedence → Parts → Node
make_node p parts = node p parts (sum_sizes parts 0)

unfoldable pub render : Node → Text
render n = append_node n []

unfoldable pub render_with_context : Node → OperatorPrecedence → Text
render_with_context n context =
    close_paren (needs_parens (precedence n) context)
      (append_node n (open_paren (needs_parens (precedence n) context) []))
