-- ===== src/Node/Size.antt =====
-- The sizes that MakeLeaf and MakeNode of src/impl/node.cpp compute, against the rendered text.
use iron_query.Prelude.{
  ℕ, ap, ◌+◌, ◌%◌, ◌<◌, Text, length, length-append, if◌then◌else◌, ◌≡◌, refl, Bool, true, false,
  [], ◌∷◌, arith,
}
use iron_query.Precedence.{OperatorPrecedence}
use iron_query.Node.Render.{
  bracketed, part_text, parts_text, render_with_context-bracketed, render-make_node,
  render-make_leaf,
}
use iron_query.Node.{
  Node, node, Part, text, child, Parts, nil, cons, precedence, size_of, size_mod, needs_parens,
  part_size, sum_sizes, make_leaf, make_node, render, render_with_context,
}

-- The stored size is the rendered length, as far as a std::size_t goes.
abbrev pub IsSized : Node → Type 0
IsSized n = size_of n ≡ length (render n) % size_mod

abbrev pub IsSizedPart : Part → Type 0
IsSizedPart (text s) = Unit
IsSizedPart (child n context) = IsSized n

abbrev pub AllSized : Parts → Type 0
AllSized nil = Unit
AllSized (cons part parts) = IsSizedPart part × AllSized parts

length-bracketed :
    (parens : Bool) (s : Text) → length (bracketed parens s) ≡ length s + (if parens then 2 else 0)
length-bracketed true s = omega (arith, length-append {0} s (b')' ∷ []))
length-bracketed false s = omega arith

part_size-text :
    (part : Part)
    → IsSizedPart part
    → part_size part % size_mod ≡ length (part_text part) % size_mod
unfolding part_size
part_size-text (text s) h = refl
part_size-text (child (node p parts size) context) h =
    elim (needs_parens p context)
      as (λ b.
        (size + (if b then 2 else 0)) % size_mod % size_mod
        ≡ length (bracketed b (render (node p parts size))) % size_mod) [
          | true ↦ omega (arith, length-bracketed true (render (node p parts size)))
          | false ↦ omega arith
        ]

sum_sizes-text :
    (parts : Parts) (size : ℕ)
    → AllSized parts
    → size < size_mod
    → sum_sizes parts size ≡ (size + length (parts_text parts)) % size_mod
unfolding sum_sizes
sum_sizes-text nil size h lt = omega arith
sum_sizes-text (cons part parts) size (hp, hps) lt = omega (
  arith,
  part_size-text part hp,
  sum_sizes-text parts ((size + part_size part) % size_mod) hps (omega arith),
  length-append {0} (part_text part) (parts_text parts),
)

size-make_node :
    (p : OperatorPrecedence) (parts : Parts) → size_of (make_node p parts) ≡ sum_sizes parts 0
unfolding make_node
size-make_node p parts = refl

make_node-IsSized :
    (p : OperatorPrecedence) (parts : Parts) → AllSized parts → IsSized (make_node p parts)
make_node-IsSized p parts h =
    rw (size-make_node, render-make_node) (omega (arith, sum_sizes-text parts 0 h (omega arith)))

size-make_leaf : (s : Text) (p : OperatorPrecedence) → size_of (make_leaf s p) ≡ length s
unfolding make_leaf
size-make_leaf s p = refl

make_leaf-IsSized :
    (s : Text) (p : OperatorPrecedence) → length s < size_mod → IsSized (make_leaf s p)
make_leaf-IsSized s p h = rw (size-make_leaf, render-make_leaf) (omega arith)

-- The trees that the two factories build, of texts that fit in memory.
mutual
  pub data IsBuilt : Node → Type 0 where
    leaf :
        {n : Node} (s : Text) (p : OperatorPrecedence)
        → length s < size_mod
        → n ≡ make_leaf s p
        → IsBuilt n
    composite :
        {n : Node} (p : OperatorPrecedence) (parts : Parts)
        → AllBuilt parts
        → n ≡ make_node p parts
        → IsBuilt n

  pub data AllBuilt : Parts → Type 0 where
    no_parts : AllBuilt nil
    text_part : (s : Text) {parts : Parts} → AllBuilt parts → AllBuilt (cons (text s) parts)
    child_part :
        {n : Node} (context : OperatorPrecedence) {parts : Parts}
        → IsBuilt n
        → AllBuilt parts
        → AllBuilt (cons (child n context) parts)

mutual
  IsBuilt-IsSized : {n : Node} → IsBuilt n → IsSized n
  IsBuilt-IsSized (leaf s p h e) = rw e (make_leaf-IsSized s p h)
  IsBuilt-IsSized (composite p parts h e) = rw e (make_node-IsSized p parts (AllBuilt-AllSized h))

  AllBuilt-AllSized : {parts : Parts} → AllBuilt parts → AllSized parts
  AllBuilt-AllSized no_parts = tt
  AllBuilt-AllSized (text_part s h) = (tt, AllBuilt-AllSized h)
  AllBuilt-AllSized (child_part context h hs) = (IsBuilt-IsSized h, AllBuilt-AllSized hs)

-- In every tree that MakeLeaf and MakeNode build, the stored size is the length of what Render
-- writes, modulo 2^64; where the text of RenderWithContext is shorter than 2^64, what is
-- reserved (the size, and 2 for parentheses) is exactly its length.
pub size-render :
    {n : Node} (context : OperatorPrecedence)
    → IsBuilt n
    → length (render_with_context n context) < size_mod
    → (size_of n ≡ length (render n) % size_mod)
      × (length (render_with_context n context)
          ≡ size_of n + (if needs_parens (precedence n) context then 2 else 0))
size-render {n} context h fits =
    let sized = IsBuilt-IsSized h in
    let brackets = length-bracketed (needs_parens (precedence n) context) (render n) in
    let rendered = ap length (render_with_context-bracketed n context) in (sized, omega arith)
