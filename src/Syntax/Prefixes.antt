-- ===== src/Syntax/Prefixes.antt =====
-- Where the reader of Syntax sees a prefix operator, and where it sees none.
use iron_query.Prelude.{
  ℕ, ◌≤◌, ◌<◌, Bool, Text, lit, ◌==◌, ==_iff, leb_iff, all_of, ◌≡◌, ◌≢◌, refl, true, false,
  Bool-cases, inl, inr, [], ◌∷◌, ◌++◌, append_assoc, none, some, arith,
}
use iron_query.Identifier.{is_word, is_alnum, is_alpha}
use iron_query.Precedence.{OperatorPrecedence, rank}
use iron_query.Node.{needs_parens}
use iron_query.Node.Render.{bracketed}
use iron_query.Expr.Literal.Quoting.{escape_onto-opened}
use iron_query.Syntax.{
  Tail, joining, testing, spanning, choosing, indexing, tail_level, tail_text, level, Prefix, sign,
  negation, prefix_level, prefix_text, Tree, name, literal, identifier, called, prefixed, binary,
  tested, ranged, chosen, indexed,
}
use iron_query.Syntax.Grammar.{strip, behind_prefix}
use iron_query.Syntax.Stops.{
  tree_level, tree_text, trees_text, quoted, IsWord, Named, reach, goes_on, tail_text-goes_on, led,
}

abbrev pub starts_word : Text → Bool
starts_word [] = false
starts_word (c ∷ s) = is_word c

pub starts_word-goes_on : (s : Text) → goes_on s ≡ false → starts_word s ≡ false
starts_word-goes_on [] e = refl
starts_word-goes_on (c ∷ s) e = ground arith

pub behind_prefix-prefix_text :
    (p : Prefix) (s : Text)
    → behind_prefix (rank (prefix_level p)) (prefix_text p ++ s) ≡ some (p, s)
unfolding behind_prefix lit
behind_prefix-prefix_text sign s = refl
behind_prefix-prefix_text negation s = refl

-- No prefix operator of the level starts the text.
unprefixed :
    (l : ℕ) (s : Text)
    → (l ≡ 4 → strip (lit "-") s ≡ none)
    → (l ≡ 14 → strip (lit "NOT ") s ≡ none)
    → behind_prefix l s ≡ none
unfolding behind_prefix
unprefixed l s minus negated = elim (Bool-cases (l == 4)) [
  | inl four ↦ rw (four, minus ((==_iff l 4).0 four)) refl
  | inr other ↦ elim (Bool-cases (l == 14)) [
    | inl fourteen ↦ rw (other, fourteen, negated ((==_iff l 14).0 fourteen)) refl
    | inr neither ↦ rw (other, neither) refl
  ]
]

pub unprefixed-bracket : (l : ℕ) (s : Text) → behind_prefix l (b'(' ∷ s) ≡ none
unprefixed-bracket l s =
    unprefixed l (b'(' ∷ s) (λ e. unfold strip lit in refl) (λ e. unfold strip lit in refl)

strip-word : (c : ℕ) (s : Text) → is_word c ≡ true → strip (lit "-") (c ∷ s) ≡ none
unfolding strip lit is_word is_alnum is_alpha
strip-word c s h = ground arith

space_ne : (c : ℕ) → is_word c ≡ true → (c == b' ') ≡ false
unfolding is_word is_alnum is_alpha
space_ne c h = ground arith

pub word_ne : (c x : ℕ) → is_word c ≡ false → is_word x ≡ true → (c == x) ≡ false
word_ne c x h e = elim (Bool-cases (c == x)) [
  | inl same ↦ let eq : c ≡ x = (==_iff c x).0 same in cc (h, e, eq)
  | inr other ↦ other
]

-- A word that differs from another does not start with it and a space.
pub strip-other :
    (p w rest : Text)
    → all_of is_word p ≡ true
    → all_of is_word w ≡ true
    → w ≢ p
    → starts_word rest ≡ false
    → strip (p ++ b' ' ∷ []) (w ++ rest) ≡ none
unfolding strip
strip-other [] [] rest hp hw ne e = absurd (ne refl)
strip-other [] (c ∷ w) rest hp hw ne e =
    let word : is_word c ≡ true = ground arith in rw (space_ne c word) refl
strip-other (x ∷ p) [] [] hp hw ne e = refl
strip-other (x ∷ p) [] (c ∷ rest) hp hw ne e =
    let word : is_word x ≡ true = ground arith in rw (word_ne c x e word) refl
strip-other (x ∷ p) (c ∷ w) rest hp hw ne e =
    let wp : all_of is_word p ≡ true = ground arith in
    let ww : all_of is_word w ≡ true = ground arith in
    elim (Bool-cases (c == x)) [
      | inl same ↦
          let eq : c ≡ x = (==_iff c x).0 same in
          rw same (strip-other p w rest wp ww (λ equal. ne (cc (eq, equal))) e)
      | inr other ↦ rw other refl
    ]

strip-not :
    (w rest : Text)
    → all_of is_word w ≡ true
    → w ≢ lit "NOT"
    → starts_word rest ≡ false
    → strip (lit "NOT ") (w ++ rest) ≡ none
unfolding lit
strip-not w rest h ne e =
    strip-other (lit "NOT") w rest (unfold is_word is_alnum is_alpha in refl) h ne e

unprefixed-word :
    (l : ℕ) (w rest : Text)
    → IsWord w
    → starts_word rest ≡ false
    → behind_prefix l (w ++ rest) ≡ none
unprefixed-word l [] rest h e = absurd (h.shown refl)
unprefixed-word l (c ∷ w) rest h e =
    let all : all_of is_word (c ∷ w) ≡ true = h.word in
    let first : is_word c ≡ true = ground arith in
    unprefixed l ((c ∷ w) ++ rest) (λ x. strip-word c (w ++ rest) first)
      (λ x. strip-not (c ∷ w) rest h.word h.usual e)

unprefixed-quoted :
    (l : ℕ) (s rest : Text)
    → (behind_prefix l (quoted b'\'' s ++ rest) ≡ none)
      × (behind_prefix l (quoted b'"' s ++ rest) ≡ none)
unprefixed-quoted l s rest =
    let (single, es) = escape_onto-opened b'\'' s in
    let (double, ed) = escape_onto-opened b'"' s in
    (
      rw es (
          unprefixed l (b'\'' ∷ (single ++ rest)) (λ e. unfold strip lit in refl)
            (λ e. unfold strip lit in refl)),
      rw ed (
          unprefixed l (b'"' ∷ (double ++ rest)) (λ e. unfold strip lit in refl)
            (λ e. unfold strip lit in refl)),
    )

-- A tree that stands without parentheses is read at the level of what it stands in.
pub tight_reach :
    (t : Tree) (p : OperatorPrecedence) → needs_parens (tree_level t) p ≡ false → reach t ≤ rank p
unfolding needs_parens
tight_reach (name w) p h = omega arith
tight_reach (literal s) p h = omega arith
tight_reach (identifier s) p h = omega arith
tight_reach (called f ts) p h = omega arith
tight_reach (prefixed q t) p h = ground (arith, leb_iff (rank p) (rank (prefix_level q)))
tight_reach (binary op a b) p h = ground (arith, leb_iff (rank p) (rank (level op)))
tight_reach (tested t a) p h = ground (arith, leb_iff (rank p) 13)
tight_reach (ranged r a b c) p h = ground (arith, leb_iff (rank p) 11)
tight_reach (chosen c a ts) p h = ground (arith, leb_iff (rank p) 11)
tight_reach (indexed a i) p h = ground (arith, leb_iff (rank p) 3)

unprefixed-sign : (l : ℕ) (s : Text) → 5 ≤ l → behind_prefix l (prefix_text sign ++ s) ≡ none
unprefixed-sign l s h =
    unprefixed l (prefix_text sign ++ s) (λ e. absurd (omega (arith, e, h)))
      (λ e. unfold strip lit in refl)

unprefixed-negation : (l : ℕ) (s : Text) → 15 ≤ l → behind_prefix l s ≡ none
unprefixed-negation l s h =
    unprefixed l s (λ e. absurd (omega (arith, e, h))) (λ e. absurd (omega (arith, e, h)))

pub unprefixed-operand :
    (l : ℕ) (t : Tree) (p : OperatorPrecedence) (rest : Text)
    → rank p ≤ l
    → (reach t ≤ l → behind_prefix l (tree_text t ++ rest) ≡ none)
    → behind_prefix l (bracketed (needs_parens (tree_level t) p) (tree_text t) ++ rest) ≡ none
unprefixed-operand l t p rest h bare = elim (Bool-cases (needs_parens (tree_level t) p)) [
  | inl parens ↦ rw parens (unprefixed-bracket l _)
  | inr tight ↦ rw tight (bare (omega (arith, h, tight_reach t p tight)))
]

-- What starts with an operand starts as the operand does.
unprefixed-led :
    (l : ℕ) (a : Tree) (tail : Tail) (s rest : Text)
    → rank (tail_level tail) < l
    → ((behind : Text)
        → goes_on behind ≡ false
        → reach a ≤ l
        → behind_prefix l (tree_text a ++ behind) ≡ none)
    → behind_prefix l (led a tail s ++ rest) ≡ none
unprefixed-led l a tail s rest h bare =
    rw
      (
        append_assoc (bracketed (needs_parens (tree_level a) (tail_level tail)) (tree_text a))
            (tail_text tail ++ s) rest,
        append_assoc (tail_text tail) s rest,
      )
      (unprefixed-operand l a (tail_level tail) (tail_text tail ++ (s ++ rest)) (omega (arith, h))
        (bare _ (tail_text-goes_on tail (s ++ rest))))

-- The text of a tree starts with no prefix operator of a level that reads it whole.
pub unprefixed-tree :
    (t : Tree) (l : ℕ) (rest : Text)
    → Named t
    → reach t ≤ l
    → goes_on rest ≡ false
    → behind_prefix l (tree_text t ++ rest) ≡ none
unprefixed-tree (name w) l rest h r e = unprefixed-word l w rest h (starts_word-goes_on rest e)
unprefixed-tree (literal s) l rest h r e = (unprefixed-quoted l s rest).0
unprefixed-tree (identifier s) l rest h r e = (unprefixed-quoted l s rest).1
unprefixed-tree (called f ts) l rest (h, valid, all) r e =
    rw (append_assoc f (b'(' ∷ trees_text ts) rest) (
      unprefixed-word l f (b'(' ∷ (trees_text ts ++ rest)) h
        (unfold is_word is_alnum is_alpha in refl))
unprefixed-tree (prefixed sign t) l rest h r e =
    rw
      (append_assoc (prefix_text sign)
        (bracketed (needs_parens (tree_level t) (prefix_level sign)) (tree_text t)) rest)
      (unprefixed-sign l _ r)
unprefixed-tree (prefixed negation t) l rest h r e = unprefixed-negation l _ r
unprefixed-tree (binary op a b) l rest (ha, hb) r e =
    unprefixed-led l a (joining op) _ rest (omega (arith, r))
      (λ s ends bare. unprefixed-tree a l s ha bare ends)
unprefixed-tree (tested t a) l rest h r e =
    unprefixed-led l a (testing t) _ rest (omega (arith, r))
      (λ s ends bare. unprefixed-tree a l s h bare ends)
unprefixed-tree (ranged k a b c) l rest (ha, hb, hc) r e =
    unprefixed-led l a (spanning k) _ rest (omega (arith, r))
      (λ s ends bare. unprefixed-tree a l s ha bare ends)
unprefixed-tree (chosen c a ts) l rest (ha, some_item, hs) r e =
    unprefixed-led l a (choosing c) _ rest (omega (arith, r))
      (λ s ends bare. unprefixed-tree a l s ha bare ends)
unprefixed-tree (indexed a i) l rest (ha, hi) r e =
    unprefixed-led l a indexing _ rest (omega (arith, r))
      (λ s ends bare. unprefixed-tree a l s ha bare ends)
