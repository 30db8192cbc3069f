-- ===== src/Syntax/Grammar.antt =====
-- A reader of the trees of Syntax that goes by levels of precedence, as SQL does.
use iron_query.Prelude.{
  ℕ, zero, suc, Text, lit, ◌==◌, if◌then◌else◌, List, [], ◌∷◌, Option, none, some,
}
use iron_query.Identifier.{is_word}
use iron_query.Precedence.{rank}
use iron_query.Expr.Literal.Quoting.{read_quoted}
use iron_query.Syntax.{
  Op, Test, Range, Choice, Tail, joining, testing, spanning, choosing, indexing, tail_level,
  tail_text, Prefix, sign, negation, prefix_text, Tree, name, literal, identifier, called, prefixed,
  binary, tested, ranged, chosen, indexed, Trees, empty, more,
}

-- What is behind a text.
unfoldable pub strip : Text → Text → Option Text
strip [] s = some s
strip (p ∷ ps) [] = none
strip (p ∷ ps) (c ∷ cs) = if c == p then strip ps cs else none

unfoldable pub first_tail : List Tail → Text → Option (Tail × Text)
unfolding strip
first_tail [] s = none
first_tail (tail ∷ tails) s = elim (strip (tail_text tail) s) [
  | some rest ↦ some (tail, rest)
  | none ↦ first_tail tails s
]

abbrev tails : List Tail
tails =
    joining Op.member
    ∷ joining Op.power
    ∷ joining Op.multiply
    ∷ joining Op.divide
    ∷ joining Op.modulo
    ∷ joining Op.add
    ∷ joining Op.subtract
    ∷ joining Op.concat
    ∷ joining Op.like
    ∷ joining Op.not_like
    ∷ joining Op.ilike
    ∷ joining Op.not_ilike
    ∷ joining Op.similar_to
    ∷ joining Op.not_similar_to
    ∷ joining Op.lt
    ∷ joining Op.le
    ∷ joining Op.gt
    ∷ joining Op.ge
    ∷ joining Op.eq
    ∷ joining Op.ne
    ∷ joining Op.distinct
    ∷ joining Op.not_distinct
    ∷ joining Op.both
    ∷ joining Op.either
    ∷ testing Test.null
    ∷ testing Test.not_null
    ∷ testing Test.yes
    ∷ testing Test.no
    ∷ spanning Range.inside
    ∷ spanning Range.outside
    ∷ choosing Choice.among
    ∷ choosing Choice.not_among
    ∷ indexing
    ∷ []

unfoldable pub read_tail : Text → Option (Tail × Text)
unfolding first_tail
read_tail s = first_tail tails s

abbrev pub push_byte : ℕ → Text × Text → Text × Text
push_byte c (w, s) = (c ∷ w, s)

abbrev pub prefix_at : ℕ → Option Prefix
prefix_at l = if l == 4 then some sign else if l == 14 then some negation else none

abbrev pub stripped : Prefix → Option Text → Option (Prefix × Text)
stripped p none = none
stripped p (some s) = some (p, s)

abbrev pub behind : Option Prefix → Text → Option (Prefix × Text)
behind none s = none
behind (some p) s = stripped p (strip (prefix_text p) s)

-- The operand of a prefix operator of a level.
unfoldable pub behind_prefix : ℕ → Text → Option (Prefix × Text)
unfolding strip
behind_prefix l s = behind (prefix_at l) s

-- The longest word at the start.
unfoldable pub span_word : Text → Text × Text
span_word [] = ([], [])
span_word (c ∷ s) = if is_word c then push_byte c (span_word s) else ([], c ∷ s)

abbrev pub Read : Type 0
Read = Option (Tree × Text)

abbrev pub ReadList : Type 0
ReadList = Option (Trees × Text)

-- How an expression in brackets is read, and a list with the parenthesis that closes it.
pub record Inner : Type 0 where
  pub one : Text → Read
  pub many : Text → ReadList

-- An expression in front of its closing bracket.
abbrev pub closed : ℕ → Read → Read
closed bracket (some (t, c ∷ s)) = if c == bracket then some (t, s) else none
closed bracket _ = none

abbrev pub listed : (Trees → Tree) → ReadList → Read
listed make none = none
listed make (some (ts, s)) = some (make ts, s)

-- The arguments of a call, which may be none.
abbrev pub no_arguments : Text → ReadList
no_arguments [] = none
no_arguments (c ∷ s) = if c == b')' then some (empty, s) else none

abbrev pub or_no_arguments : Text → ReadList → ReadList
or_no_arguments s none = no_arguments s
or_no_arguments s (some found) = some found

abbrev pub after_word : Inner → Text → Text → Read
after_word inner w [] = some (name w, [])
after_word inner w (c ∷ s) =
    if c == b'(' then listed (called w) (or_no_arguments s (inner.many s)) else some (name w, c ∷ s)

abbrev pub named : Inner → Text × Text → Read
named inner ([], s) = none
named inner (c ∷ w, s) = after_word inner (c ∷ w) s

abbrev pub unquoted : Inner → Text → Read
unquoted inner [] = none
unquoted inner (c ∷ s) =
    if c == b'(' then closed b')' (inner.one s) else named inner (span_word (c ∷ s))

abbrev pub or_quoted : (Text → Tree) → Option (Text × Text) → Read → Read
or_quoted make none other = other
or_quoted make (some (content, s)) other = some (make content, s)

-- A quoted token, a word, a call or a whole expression in parentheses.
unfoldable pub read_operand : Inner → Text → Read
unfolding span_word
read_operand inner s =
    or_quoted literal (read_quoted b'\'' s)
      (or_quoted identifier (read_quoted b'"' s) (unquoted inner s))

abbrev pub built : (Tree → Tree) → Read → Read
built make none = none
built make (some (t, s)) = some (make t, s)

abbrev pub upper : (Text → Read) → (Tree → Tree) → Option Text → Read
upper operand make none = none
upper operand make (some s) = built make (operand s)

abbrev pub bounds : (Text → Read) → Range → Tree → Read → Read
bounds operand r a none = none
bounds operand r a (some (low, s)) = upper operand (ranged r a low) (strip (lit " AND ") s)

abbrev pub finish : Inner → (Text → Read) → Tree → Tail → Text → Read
finish inner operand a (joining op) s = built (binary op a) (operand s)
finish inner operand a (testing t) s = some (tested t a, s)
finish inner operand a (spanning r) s = bounds operand r a (operand s)
finish inner operand a (choosing c) s = listed (chosen c a) (inner.many s)
finish inner operand a indexing s = built (indexed a) (closed b']' (inner.one s))

abbrev pub after : Inner → (Text → Read) → ℕ → Tree → Text → Option (Tail × Text) → Read
after inner operand l a rest none = some (a, rest)
after inner operand l a rest (some (tail, s)) =
    if rank (tail_level tail) == l then finish inner operand a tail s else some (a, rest)

abbrev pub follow : Inner → (Text → Read) → ℕ → Read → Read
follow inner operand l none = none
follow inner operand l (some (a, rest)) = after inner operand l a rest (read_tail rest)

abbrev pub choose : Option (Prefix × Text) → (Text → Read) → Read → Read
choose none operand other = other
choose (some (p, s)) operand other = built (prefixed p) (operand s)

-- An expression whose operators bind tighter than the level; one operator of the level below it
-- has operands that bind tighter still.
unfoldable pub read_level : Inner → ℕ → Text → Read
unfolding read_operand read_tail behind_prefix
read_level inner zero s = read_operand inner s
read_level inner (suc l) s =
    choose (behind_prefix l s) (λ r. read_level inner l r)
      (follow inner (λ r. read_level inner l r) l (read_level inner l s))

abbrev pub item : Tree → ReadList → ReadList
item t none = none
item t (some (ts, s)) = some (more t ts, s)

abbrev pub last_item : Tree → Text → ReadList
last_item t [] = none
last_item t (c ∷ s) = if c == b')' then some (more t empty, s) else none

abbrev pub next_item : (Text → ReadList) → Tree → Text → Option Text → ReadList
next_item items t rest none = last_item t rest
next_item items t rest (some s) = item t (items s)

abbrev pub items_from : (Text → ReadList) → Read → ReadList
items_from items none = none
items_from items (some (t, rest)) = next_item items t rest (strip (lit ", ") rest)

-- A unit of fuel for each depth of brackets and for each item of a list.
unfoldable mutual
  unfolding read_level

  pub read_all : ℕ → Text → Read
  read_all zero s = none
  read_all (suc fuel) s = read_level (record { one = read_all fuel; many = read_list fuel }) 18 s

  pub read_list : ℕ → Text → ReadList
  read_list zero s = none
  read_list (suc fuel) s = items_from (read_list fuel) (read_all fuel s)
