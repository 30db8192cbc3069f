-- ===== src/Query/Tokens.antt =====
-- The readers of Query on names, aliases, numbers, items, terms, FROM items and DISTINCT.
use iron_query.Prelude.{
  Text, lit, All, all_of, ◌≡◌, ◌≢◌, refl, true, false, [], ◌∷◌, ◌++◌, append_assoc, Option, none,
  some, ℤ, pos, negsuc, arith,
}
use iron_query.Identifier.{is_word, is_alnum, is_alpha, is_plain_identifier}
use iron_query.Identifier.Plain.{IsDigit}
use iron_query.Decimal
use iron_query.Decimal.RoundTrip.{Spells, to_string-Spells}
use iron_query.OrderBy.{SortDirection, NullsOrder, ascending, descending, default, first, last}
use iron_query.Join
use iron_query.Join.{JoinKind, is_natural}
use iron_query.Clause.{direction_text, nulls_text}
use iron_query.Syntax.Grammar.{strip, read_tail}
use iron_query.Syntax.Leaves.{span_word-append}
use iron_query.Syntax.Stops.{IsWord, goes_on, Stops}
use iron_query.Query.{Ref, aliased, ref_text, join_word}
use iron_query.Query.Grammar.{
  read_word, read_alias, read_number, read_direction, read_nulls, read_ref, read_kind,
}
use iron_query.Query.Marks.{strip-append, After, After-order}

pub read_word-append :
    (w rest : Text) → IsWord w → goes_on rest ≡ false → read_word (w ++ rest) ≡ some (w, rest)
unfolding read_word
read_word-append [] rest h e = absurd (h.shown refl)
read_word-append (c ∷ w) rest h e = rw (span_word-append (c ∷ w) rest h.word e) refl

-- A word that is a plain identifier.
pub record IsAlias (w : Text) : Type 0 where
  pub word : IsWord w
  pub plain : is_plain_identifier w ≡ true

abbrev pub AliasOk : Option Text → Type 0
AliasOk none = Unit
AliasOk (some alias) = IsAlias alias

pub read_alias-aliased :
    (alias : Option Text) (rest : Text)
    → AliasOk alias
    → goes_on rest ≡ false
    → strip (lit " AS ") rest ≡ none
    → read_alias (aliased alias ++ rest) ≡ some (alias, rest)
unfolding read_alias
read_alias-aliased none rest h e bare = rw bare refl
read_alias-aliased (some alias) rest h e bare =
    rw
      (
        append_assoc (lit " AS ") alias rest,
        strip-append (lit " AS ") (alias ++ rest),
        read_word-append alias rest h.word e,
      )
      refl

pub aliased-goes_on :
    (alias : Option Text) (rest : Text)
    → goes_on rest ≡ false
    → goes_on (aliased alias ++ rest) ≡ false
unfolding lit is_word is_alnum is_alpha
aliased-goes_on none rest h = h
aliased-goes_on (some alias) rest h = refl

-- AS starts no more of an expression.
as-Stops : (s : Text) → Stops 18 (lit " AS " ++ s)
unfolding read_tail lit is_word is_alnum is_alpha
as-Stops s = record { leaf_ends = refl; tails_wait = λ tail r e. cc }

pub aliased-Stops :
    (alias : Option Text) (rest : Text) → Stops 18 rest → Stops 18 (aliased alias ++ rest)
aliased-Stops none rest h = h
aliased-Stops (some alias) rest h =
    rw (append_assoc (lit " AS ") alias rest) (as-Stops (alias ++ rest))

pub order-Stops :
    (d : SortDirection) (n : NullsOrder) (rest : Text)
    → Stops 18 rest
    → Stops 18 ((direction_text d ++ nulls_text n) ++ rest)
unfolding read_tail lit is_word is_alnum is_alpha
order-Stops descending n rest h = record { leaf_ends = refl; tails_wait = λ tail r e. cc }
order-Stops ascending first rest h = record { leaf_ends = refl; tails_wait = λ tail r e. cc }
order-Stops ascending last rest h = record { leaf_ends = refl; tails_wait = λ tail r e. cc }
order-Stops ascending default rest h = h

plain_direction :
    (rest : Text) → strip (lit " DESC") rest ≡ none → read_direction rest ≡ (ascending, rest)
unfolding read_direction
plain_direction rest h = rw h refl

plain_nulls :
    (rest : Text)
    → strip (lit " NULLS FIRST") rest ≡ none
    → strip (lit " NULLS LAST") rest ≡ none
    → read_nulls rest ≡ (default, rest)
unfolding read_nulls
plain_nulls rest f l = rw (f, l) refl

pub read_direction-text :
    (d : SortDirection) (n : NullsOrder) (rest : Text)
    → After 0 rest
    → read_direction ((direction_text d ++ nulls_text n) ++ rest) ≡ (d, nulls_text n ++ rest)
unfolding read_direction strip lit
read_direction-text descending n rest h = refl
read_direction-text ascending first rest h = refl
read_direction-text ascending last rest h = refl
read_direction-text ascending default rest h = plain_direction rest (After-order 0 rest h).0

pub read_nulls-text :
    (n : NullsOrder) (rest : Text) → After 0 rest → read_nulls (nulls_text n ++ rest) ≡ (n, rest)
unfolding read_nulls lit
read_nulls-text first rest h = refl
read_nulls-text last rest h = refl
read_nulls-text default rest h = plain_nulls rest (After-order 0 rest h).1 (After-order 0 rest h).2

pub read_ref-ref_text :
    (ref : Ref) (rest : Text)
    → IsWord ref.0
    → AliasOk ref.1
    → goes_on rest ≡ false
    → strip (lit " AS ") rest ≡ none
    → read_ref (ref_text ref ++ rest) ≡ some (ref, rest)
unfolding read_ref
read_ref-ref_text (name, alias) rest h ok e bare =
    rw
      (
        append_assoc name (aliased alias) rest,
        read_word-append name (aliased alias ++ rest) h (aliased-goes_on alias rest e),
        read_alias-aliased alias rest ok e bare,
      )
      refl

pub read_kind-join_word :
    (kind : JoinKind) (s : Text) → read_kind (join_word kind ++ s) ≡ some (kind, s)
unfolding read_kind strip lit
read_kind-join_word Join.inner s = refl
read_kind-join_word _ s = refl

IsDigit-word : (s : Text) → All IsDigit s → all_of is_word s ≡ true
unfolding is_word is_alnum is_alpha
IsDigit-word [] h = refl
IsDigit-word (c ∷ s) (d, h) =
    let word : is_word c ≡ true = ground arith in rw (word, IsDigit-word s h) refl

read_word-digits :
    (s rest : Text)
    → s ≢ []
    → All IsDigit s
    → goes_on rest ≡ false
    → read_word (s ++ rest) ≡ some (s, rest)
unfolding read_word
read_word-digits [] rest ne h e = absurd (ne refl)
read_word-digits (c ∷ s) rest ne h e =
    rw (span_word-append (c ∷ s) rest (IsDigit-word (c ∷ s) h) e) refl

no_sign : (s rest : Text) → s ≢ [] → All IsDigit s → strip (lit "-") (s ++ rest) ≡ none
unfolding strip lit
no_sign [] rest ne h = absurd (ne refl)
no_sign (c ∷ s) rest ne (d, h) = ground arith

minus_sign : (s : Text) → strip (lit "-") (b'-' ∷ s) ≡ some s
unfolding strip lit
minus_sign s = refl

read_number-Spells :
    (n : ℤ) (s rest : Text)
    → Spells n s
    → goes_on rest ≡ false
    → read_number (s ++ rest) ≡ some (n, rest)
unfolding read_number
read_number-Spells (pos n) s rest (ne, h, e) ends =
    rw (no_sign s rest ne h, read_word-digits s rest ne h ends, e) refl
read_number-Spells (negsuc n) [] rest h ends = absurd h
read_number-Spells (negsuc n) (c ∷ s) rest (m, ne, h, e) ends =
    rw (m, minus_sign (s ++ rest), read_word-digits s rest ne h ends, e) refl

pub read_number-to_string :
    (n : ℤ) (rest : Text)
    → goes_on rest ≡ false
    → read_number (Decimal.to_string n ++ rest) ≡ some (n, rest)
read_number-to_string n rest ends =
    read_number-Spells n (Decimal.to_string n) rest (to_string-Spells n) ends
