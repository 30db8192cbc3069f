-- ===== src/Query/Leads.antt =====
-- No expression starts with a word that SQL reserves (DISTINCT, ON), so a SELECT list is told from the
-- DISTINCT in front of it.
use iron_query.Prelude.{
  ℕ, Text, lit, ◌==◌, all_of, ◌≡◌, ◌≢◌, refl, true, false, Bool-cases, inl, inr, [], ◌∷◌, ◌++◌,
  append_assoc, none,
}
use iron_query.Identifier.{is_word, is_alnum, is_alpha}
use iron_query.Node.{needs_parens}
use iron_query.Node.Render.{bracketed}
use iron_query.Expr.Literal.Quoting.{escape_onto-opened}
use iron_query.Syntax.{
  Tail, joining, testing, spanning, choosing, indexing, tail_level, tail_text, Tree, name, literal,
  identifier, called, prefixed, sign, negation, binary, tested, ranged, chosen, indexed,
}
use iron_query.Syntax.Grammar.{strip}
use iron_query.Syntax.Prefixes.{word_ne, strip-other, starts_word-goes_on}
use iron_query.Syntax.Stops.{
  tree_level, tree_text, trees_text, quoted, IsWord, Named, goes_on, tail_text-goes_on, led,
}

abbrev spaced : Text → Text
spaced p = p ++ b' ' ∷ []

-- A reserved word with a space behind it: no other byte starts it, nor does NOT.
record IsLead (p : Text) : Type 0 where
  word : all_of is_word p ≡ true
  avoided : (w : Text) → IsWord w → w ≢ p
  opened : (c : ℕ) (s : Text) → is_word c ≡ false → strip (spaced p) (c ∷ s) ≡ none
  negated : (s : Text) → strip (spaced p) (lit "NOT " ++ s) ≡ none

module _ (p : Text) (lead : IsLead p) where
  led-lead :
      (a : Tree) (tail : Tail) (s rest : Text)
      → ((behind : Text) → goes_on behind ≡ false → strip (spaced p) (tree_text a ++ behind) ≡ none)
      → strip (spaced p) (led a tail s ++ rest) ≡ none
  led-lead a tail s rest bare =
      let behind = tail_text tail ++ (s ++ rest) in
      rw
        (
          append_assoc (bracketed (needs_parens (tree_level a) (tail_level tail)) (tree_text a))
              (tail_text tail ++ s) rest,
          append_assoc (tail_text tail) s rest,
        )
        (elim (Bool-cases (needs_parens (tree_level a) (tail_level tail))) [
          | inl parens ↦ rw parens (
              lead.opened b'(' ((tree_text a ++ b')' ∷ []) ++ behind)
                (unfold is_word is_alnum is_alpha in refl))
          | inr tight ↦ rw tight (bare behind (tail_text-goes_on tail (s ++ rest)))
        ])

  quoted-lead :
      (quote : ℕ) (s rest : Text)
      → is_word quote ≡ false
      → strip (spaced p) (quoted quote s ++ rest) ≡ none
  quoted-lead quote s rest h =
      let (body, e) = escape_onto-opened quote s in rw e (lead.opened quote (body ++ rest) h)

  tree-lead :
      (t : Tree) (rest : Text)
      → Named t
      → goes_on rest ≡ false
      → strip (spaced p) (tree_text t ++ rest) ≡ none
  tree-lead (name w) rest h e =
      strip-other p w rest lead.word h.word (lead.avoided w h) (starts_word-goes_on rest e)
  tree-lead (literal s) rest h e =
      quoted-lead b'\'' s rest (unfold is_word is_alnum is_alpha in refl)
  tree-lead (identifier s) rest h e =
      quoted-lead b'"' s rest (unfold is_word is_alnum is_alpha in refl)
  tree-lead (called f ts) rest (h, valid, all) e = rw (append_assoc f (b'(' ∷ trees_text ts) rest) (
      strip-other p f (b'(' ∷ (trees_text ts ++ rest)) lead.word h.word (lead.avoided f h)
        (unfold is_word is_alnum is_alpha in refl))
  tree-lead (prefixed sign t) rest h e =
      unfold lit in lead.opened b'-' _ (unfold is_word is_alnum is_alpha in refl)
  tree-lead (prefixed negation t) rest h e = rw (append_assoc (lit "NOT ") _ rest) (lead.negated _)
  tree-lead (binary op a b) rest (ha, hb) e =
      led-lead a (joining op) _ rest (λ s ends. tree-lead a s ha ends)
  tree-lead (tested t a) rest h e = led-lead a (testing t) _ rest (λ s ends. tree-lead a s h ends)
  tree-lead (ranged k a b c) rest (ha, hb, hc) e =
      led-lead a (spanning k) _ rest (λ s ends. tree-lead a s ha ends)
  tree-lead (chosen c a ts) rest (ha, some_item, hs) e =
      led-lead a (choosing c) _ rest (λ s ends. tree-lead a s ha ends)
  tree-lead (indexed a i) rest (ha, hi) e =
      led-lead a indexing _ rest (λ s ends. tree-lead a s ha ends)

strip-opened :
    (x : ℕ) (p : Text) (c : ℕ) (s : Text)
    → is_word x ≡ true
    → is_word c ≡ false
    → strip (x ∷ p) (c ∷ s) ≡ none
unfolding strip
strip-opened x p c s hx hc = rw (word_ne c x hc hx) refl

-- A longer text than one that a text does not start with.
strip-longer : (p q s : Text) → strip p s ≡ none → strip (p ++ q) s ≡ none
unfolding strip
strip-longer [] q s h = cc
strip-longer (c ∷ p) q [] h = refl
strip-longer (x ∷ p) q (c ∷ s) h = elim (Bool-cases (c == x)) [
  | inl same ↦ rw same (strip-longer p q s (rest_none same))
  | inr other ↦ rw other refl
]
  where
    rest_none : c == x ≡ true → strip p s ≡ none
    rest_none same = rw same at h

distinct-IsLead : IsLead (lit "DISTINCT")
distinct-IsLead = record {
  word = unfold lit is_word is_alnum is_alpha in refl;
  avoided = λ w h. h.unselected;
  opened = λ c s h.
      unfold lit in
      strip-opened b'D' (lit "ISTINCT ") c s (unfold is_word is_alnum is_alpha in refl) h;
  negated = λ s. unfold strip lit in refl;
}

on-IsLead : IsLead (lit "ON")
on-IsLead = record {
  word = unfold lit is_word is_alnum is_alpha in refl;
  avoided = λ w h. h.unjoined;
  opened = λ c s h.
      unfold lit in strip-opened b'O' (lit "N ") c s (unfold is_word is_alnum is_alpha in refl) h;
  negated = λ s. unfold strip lit in refl;
}

-- Neither DISTINCT nor ON with an opening parenthesis starts an expression.
pub tree-unselected :
    (t : Tree) (rest : Text)
    → Named t
    → goes_on rest ≡ false
    → (strip (lit "DISTINCT ") (tree_text t ++ rest) ≡ none)
      × (strip (lit "ON (") (tree_text t ++ rest) ≡ none)
unfolding lit
tree-unselected t rest h e = (
  tree-lead (lit "DISTINCT") distinct-IsLead t rest h e,
  strip-longer (lit "ON ") (lit "(") (tree_text t ++ rest)
      (tree-lead (lit "ON") on-IsLead t rest h e),
)
