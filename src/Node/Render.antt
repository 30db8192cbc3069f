-- ===== src/Node/Render.antt =====
-- Render and RenderWithContext of src/impl/node.cpp without the output that the code appends to.
use iron_query.Prelude.{
  length, Text, if◌then◌else◌, ◌≡◌, refl, sym, ◌∙◌, ap, Bool, true, false, [], ◌∷◌, ◌++◌,
  append_assoc, append-nil,
}
use iron_query.Precedence.{OperatorPrecedence}
use iron_query.Node.{
  Node, node, Part, text, child, Parts, nil, cons, precedence, needs_parens, append_part,
  append_node, append_parts, make_leaf, make_node, open_paren, close_paren, parts_of, sum_sizes,
  render, render_with_context,
}

abbrev pub bracketed : Bool → Text → Text
bracketed parens s = if parens then b'(' ∷ (s ++ b')' ∷ []) else s

-- A body that appends, between the parentheses of the code.
child-out :
    (parens : Bool) (body : Text → Text)
    → ((out : Text) → body out ≡ out ++ body [])
    → (out : Text)
    → close_paren parens (body (open_paren parens out)) ≡ out ++ bracketed parens (body [])
child-out true body h out = rw (h (out ++ b'(' ∷ [])) (simp append_assoc)
child-out false body h out = h out

-- What is appended does not depend on the output so far.
mutual
  unfolding append_part

  append_part-out : (part : Part) (out : Text) → append_part part out ≡ out ++ append_part part []
  append_part-out (text s) out = refl
  append_part-out (child n context) out =
      let both =
        child-out (needs_parens (precedence n) context) (append_node n) (append_node-out n) in
      both out ∙ ap (λ s. out ++ s) (sym (both []))

  append_node-out : (n : Node) (out : Text) → append_node n out ≡ out ++ append_node n []
  append_node-out (node p parts size) out = append_parts-out parts out

  append_parts-out :
      (parts : Parts) (out : Text) → append_parts parts out ≡ out ++ append_parts parts []
  append_parts-out nil out = sym (append-nil out)
  append_parts-out (cons part parts) out =
      let first = append_part-out part out in
      append_parts-out parts (append_part part out)
      ∙ ap (λ s. s ++ append_parts parts []) first
      ∙ append_assoc out (append_part part []) (append_parts parts [])
      ∙ ap (λ s. out ++ s) (sym (append_parts-out parts (append_part part [])))

-- The text of a part and of a list of parts, piece by piece.
abbrev pub part_text : Part → Text
part_text (text s) = s
part_text (child n context) = bracketed (needs_parens (precedence n) context) (render n)

abbrev pub parts_text : Parts → Text
parts_text nil = []
parts_text (cons part parts) = part_text part ++ parts_text parts

append_part-text : (part : Part) (out : Text) → append_part part out ≡ out ++ part_text part
append_part-text (text s) out = unfold append_part in refl
append_part-text (child n context) out =
    unfold append_part render in
    child-out (needs_parens (precedence n) context) (append_node n) (append_node-out n) out

append_parts-text : (parts : Parts) (out : Text) → append_parts parts out ≡ out ++ parts_text parts
unfolding append_part
append_parts-text nil out = sym (append-nil out)
append_parts-text (cons part parts) out =
    append_parts-text parts (append_part part out)
    ∙ ap (λ s. s ++ parts_text parts) (append_part-text part out)
    ∙ append_assoc out (part_text part) (parts_text parts)

pub render-parts_text :
    (n : Node) (context : OperatorPrecedence)
    → (render n ≡ parts_text (parts_of n))
      × (render_with_context n context
          ≡ bracketed (needs_parens (precedence n) context) (parts_text (parts_of n)))
unfolding render render_with_context append_part
render-parts_text (node p parts size) context =
    let whole = append_parts-text parts [] in
    (
      whole,
      child-out (needs_parens p context) (append_parts parts) (append_parts-out parts) []
          ∙ ap (bracketed (needs_parens p context)) whole,
    )

pub render-make_node :
    (p : OperatorPrecedence) (parts : Parts) → render (make_node p parts) ≡ parts_text parts
unfolding make_node
render-make_node p parts = (render-parts_text (node p parts (sum_sizes parts 0)) p).0

pub render-make_leaf : (s : Text) (p : OperatorPrecedence) → render (make_leaf s p) ≡ s
unfolding make_leaf
render-make_leaf s p =
    (render-parts_text (node p (cons (text s) nil) (length s)) p).0 ∙ append-nil s

pub render_with_context-bracketed :
    (n : Node) (context : OperatorPrecedence)
    → render_with_context n context ≡ bracketed (needs_parens (precedence n) context) (render n)
render_with_context-bracketed n context =
    let (whole, wrapped) = render-parts_text n context in
    wrapped ∙ ap (bracketed (needs_parens (precedence n) context)) (sym whole)
