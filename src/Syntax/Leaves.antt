-- ===== src/Syntax/Leaves.antt =====
-- What the reader of Syntax does with a word, a quoted token, a call and parentheses.
use iron_query.Prelude.{
  ℕ, Text, all_of, ◌==◌, ◌≡◌, refl, true, false, ◌∙◌, [], ◌∷◌, ◌++◌, append_assoc, none, some,
  arith,
}
use iron_query.Identifier.{is_word, is_alnum, is_alpha}
use iron_query.Expr.Literal.Quoting.{EndsToken, read_quoted, read_quoted-escape, escape_onto-opened}
use iron_query.Syntax.{Tree, name, literal, identifier, called, Trees}
use iron_query.Syntax.Grammar.{
  span_word, Inner, or_no_arguments, after_word, named, read_operand, read_level,
}
use iron_query.Syntax.Stops.{quoted, IsWord, goes_on}

pub span_word-append :
    (w rest : Text)
    → all_of is_word w ≡ true
    → goes_on rest ≡ false
    → span_word (w ++ rest) ≡ (w, rest)
unfolding span_word
span_word-append [] [] h e = refl
span_word-append [] (c ∷ rest) h e = let other : is_word c ≡ false = ground arith in rw other
span_word-append (c ∷ w) rest h e =
    let both : (is_word c ≡ true) × (all_of is_word w ≡ true) = ground arith in
    rw (both.0, span_word-append w rest both.1 e)

-- In front of an opening parenthesis.
span_word-called :
    (w rest : Text) → all_of is_word w ≡ true → span_word (w ++ b'(' ∷ rest) ≡ (w, b'(' ∷ rest)
unfolding span_word
span_word-called [] rest h = unfold is_word is_alnum is_alpha in refl
span_word-called (c ∷ w) rest h =
    let both : (is_word c ≡ true) × (all_of is_word w ≡ true) = ground arith in
    rw (both.0, span_word-called w rest both.1)

word_ne :
    (c : ℕ)
    → is_word c ≡ true
    → ((c == b'(') ≡ false) × ((c == b'\'') ≡ false) × ((c == b'"') ≡ false)
unfolding is_word is_alnum is_alpha
word_ne c h = ground arith

read_operand-word :
    (inner : Inner) (c : ℕ) (s : Text)
    → is_word c ≡ true
    → read_operand inner (c ∷ s) ≡ named inner (span_word (c ∷ s))
unfolding read_operand read_quoted
read_operand-word inner c s h = let ne = word_ne c h in rw (ne.0, ne.1, ne.2) refl

after_word-name :
    (inner : Inner) (w rest : Text)
    → goes_on rest ≡ false
    → after_word inner w rest ≡ some (name w, rest)
after_word-name inner w [] e = refl
after_word-name inner w (c ∷ rest) e =
    let other : (c == b'(') ≡ false = ground arith in rw other refl

pub reads-name :
    (inner : Inner) (w rest : Text)
    → IsWord w
    → goes_on rest ≡ false
    → read_level inner 0 (w ++ rest) ≡ some (name w, rest)
unfolding read_level
reads-name inner [] rest h e = absurd (h.shown refl)
reads-name inner (c ∷ w) rest h e =
    let all : all_of is_word (c ∷ w) ≡ true = h.word in
    let first : is_word c ≡ true = ground arith in
    read_operand-word inner c (w ++ rest) first
    ∙ rw (span_word-append (c ∷ w) rest h.word e) (after_word-name inner (c ∷ w) rest e)

pub reads-called :
    (inner : Inner) (f inside rest : Text) (ts : Trees)
    → IsWord f
    → or_no_arguments inside (inner.many inside) ≡ some (ts, rest)
    → read_level inner 0 (f ++ b'(' ∷ inside) ≡ some (called f ts, rest)
unfolding read_level
reads-called inner [] inside rest ts h e = absurd (h.shown refl)
reads-called inner (c ∷ f) inside rest ts h e =
    let all : all_of is_word (c ∷ f) ≡ true = h.word in
    let first : is_word c ≡ true = ground arith in
    read_operand-word inner c (f ++ b'(' ∷ inside) first
    ∙ rw (span_word-called (c ∷ f) inside h.word, e) refl

goes_on-EndsToken :
    (rest : Text) → goes_on rest ≡ false → EndsToken b'\'' rest × EndsToken b'"' rest
goes_on-EndsToken [] e = (tt, tt)
goes_on-EndsToken (c ∷ rest) e = (ground (arith, e), ground (arith, e))

pub reads-literal :
    (inner : Inner) (s rest : Text)
    → goes_on rest ≡ false
    → read_level inner 0 (quoted b'\'' s ++ rest) ≡ some (literal s, rest)
unfolding read_level read_operand
reads-literal inner s rest e =
    rw (read_quoted-escape b'\'' s rest (goes_on-EndsToken rest e).0) refl

single-double : (s : Text) → read_quoted b'\'' (b'"' ∷ s) ≡ none
unfolding read_quoted
single-double s = refl

pub reads-identifier :
    (inner : Inner) (s rest : Text)
    → goes_on rest ≡ false
    → read_level inner 0 (quoted b'"' s ++ rest) ≡ some (identifier s, rest)
unfolding read_level read_operand
reads-identifier inner s rest e =
    let (body, opened) = escape_onto-opened b'"' s in
    let bare : read_quoted b'\'' (quoted b'"' s ++ rest) ≡ none =
      rw opened (single-double (body ++ rest)) in
    rw (bare, read_quoted-escape b'"' s rest (goes_on-EndsToken rest e).1) refl

-- A bracketed text, read by whatever reads the inside.
pub reads-brackets :
    (inner : Inner) (body rest : Text) (t : Tree)
    → inner.one (body ++ b')' ∷ rest) ≡ some (t, b')' ∷ rest)
    → read_level inner 0 ((b'(' ∷ (body ++ b')' ∷ [])) ++ rest) ≡ some (t, rest)
unfolding read_level read_operand read_quoted
reads-brackets inner body rest t e = rw (append_assoc body (b')' ∷ []) rest, e) refl
