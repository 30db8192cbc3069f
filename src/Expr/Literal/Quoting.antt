-- ===== src/Expr/Literal/Quoting.antt =====
-- Expr::Literal and Expr::Ident of src/expr.cpp against a reader of quoted SQL tokens.
use iron_query.Prelude.{
  ℕ, Text, has_byte, ◌==◌, ==_iff, if◌then◌else◌, ◌≡◌, ◌≢◌, refl, ap, ◌∙◌, Bool, true, false, [],
  ◌∷◌, ◌++◌, append_assoc, append-nil, Option, none, some, arith, Bool-cases, inl, inr,
}
use iron_query.Exception.{ok}
use iron_query.Precedence.{symbol}
use iron_query.Node.Render.{render-make_leaf}
use iron_query.Expr.{Expr, from_raw, to_string}
use iron_query.Expr.Literal.{escape_onto, literal, ident}

-- What an SQL lexer reads behind an opening quote: the content, and the text behind the closing
-- quote. The flag is set behind a quote, which a second one turns into a quote of the content.
read_body : ℕ → Bool → Text → Text → Option (Text × Text)
read_body quote false [] content = none
read_body quote true [] content = some (content, [])
read_body quote false (c ∷ s) content = elim (c == quote) [
  | true ↦ read_body quote true s content
  | false ↦ read_body quote false s (content ++ c ∷ [])
]
read_body quote true (c ∷ s) content = elim (c == quote) [
  | true ↦ read_body quote false s (content ++ c ∷ [])
  | false ↦ some (content, c ∷ s)
]

unfoldable pub read_quoted : ℕ → Text → Option (Text × Text)
unfolding read_body
read_quoted quote [] = none
read_quoted quote (c ∷ s) = if c == quote then read_body quote false s [] else none

-- `rest` does not go on with the quote.
abbrev pub EndsToken : ℕ → Text → Type 0
EndsToken quote [] = Unit
EndsToken quote (c ∷ s) = c ≢ quote

-- The escaped text with no output in front of it.
doubled : ℕ → Text → Text
doubled quote [] = []
doubled quote (c ∷ s) = if c == quote then quote ∷ c ∷ doubled quote s else c ∷ doubled quote s

escape_onto-doubled : (quote : ℕ) (s out : Text) → escape_onto quote s out ≡ out ++ doubled quote s
unfolding escape_onto doubled
escape_onto-doubled quote [] out = rw append-nil
escape_onto-doubled quote (c ∷ s) out = elim (Bool-cases (c == quote)) [
  | inl e ↦ rw e (simp (escape_onto-doubled quote s, append_assoc))
  | inr e ↦ rw e (simp (escape_onto-doubled quote s, append_assoc))
]

==_self : (c : ℕ) → c == c ≡ true
==_self c = (==_iff c c).1 refl

module _ (quote : ℕ) (s content : Text) where
  read_body_other :
      (c : ℕ)
      → c == quote ≡ false
      → read_body quote false (c ∷ s) content ≡ read_body quote false s (content ++ c ∷ [])
  unfolding read_body
  read_body_other c e = rw (e, read_body)

  read_body_quote : read_body quote false (quote ∷ s) content ≡ read_body quote true s content
  unfolding read_body
  read_body_quote = rw (==_self quote, read_body)

  read_body_twice :
      read_body quote true (quote ∷ s) content ≡ read_body quote false s (content ++ quote ∷ [])
  unfolding read_body
  read_body_twice = rw (==_self quote, read_body)

read_body_end :
    (quote : ℕ) (rest content : Text)
    → EndsToken quote rest
    → read_body quote true rest content ≡ some (content, rest)
unfolding read_body
read_body_end quote [] content h = refl
read_body_end quote (c ∷ s) content h = ground arith

read_body-doubled :
    (quote : ℕ) (s rest content : Text)
    → EndsToken quote rest
    → read_body quote false (doubled quote s ++ quote ∷ rest) content ≡ some (content ++ s, rest)
unfolding doubled
read_body-doubled quote [] rest content h =
    read_body_quote quote rest content ∙ read_body_end quote rest content h ∙ rw append-nil
read_body-doubled quote (c ∷ s) rest content h = elim (Bool-cases (c == quote)) [
  | inl e ↦
      let same : c ≡ quote = (==_iff c quote).0 e in
      rw
        (
          e,
          same,
          read_body_quote,
          read_body_twice,
          read_body-doubled quote s rest (content ++ quote ∷ []) h,
        )
        (rw append_assoc)
  | inr e ↦
      rw
        (
          e,
          read_body_other quote (doubled quote s ++ quote ∷ rest) content c e,
          read_body-doubled quote s rest (content ++ c ∷ []) h,
        )
        (rw append_assoc)
]

-- What is quoted starts with the quote.
pub escape_onto-opened :
    (quote : ℕ) (s : Text)
    → (body : Text) × (escape_onto quote s (quote ∷ []) ++ quote ∷ [] ≡ quote ∷ body)
escape_onto-opened quote s = (
  doubled quote s ++ quote ∷ [],
  ap (λ t. t ++ quote ∷ []) (escape_onto-doubled quote s (quote ∷ [])),
)

pub read_quoted-escape :
    (quote : ℕ) (s rest : Text)
    → EndsToken quote rest
    → read_quoted quote ((escape_onto quote s (quote ∷ []) ++ quote ∷ []) ++ rest) ≡ some (s, rest)
unfolding read_quoted
read_quoted-escape quote s rest h =
    rw (escape_onto-doubled quote s (quote ∷ []), append_assoc, ==_self quote)
      (read_body-doubled quote s rest [] h)

-- A value without NUL bytes becomes a literal, and an SQL lexer reads that literal, whatever text
-- follows it that does not go on with a quote, as exactly the value: no value ends its literal early.
pub read_quoted-literal :
    (value rest : Text)
    → has_byte 0 value ≡ false
    → EndsToken b'\'' rest
    → (e : Expr) × (literal value ≡ ok e)
      × (read_quoted b'\'' (to_string e ++ rest) ≡ some (value, rest))
unfolding literal to_string
read_quoted-literal value rest h ends = (
  from_raw (escape_onto b'\'' value (b'\'' ∷ []) ++ b'\'' ∷ []) symbol,
  rw h,
  unfold from_raw in rw render-make_leaf (read_quoted-escape b'\'' value rest ends),
)

-- The same of a name and Ident, with double quotes.
pub read_quoted-ident :
    (name rest : Text)
    → has_byte 0 name ≡ false
    → EndsToken b'"' rest
    → (e : Expr) × (ident name ≡ ok e)
      × (read_quoted b'"' (to_string e ++ rest) ≡ some (name, rest))
unfolding ident to_string
read_quoted-ident name rest h ends = (
  from_raw (escape_onto b'"' name (b'"' ∷ []) ++ b'"' ∷ []) symbol,
  rw h,
  unfold from_raw in rw render-make_leaf (read_quoted-escape b'"' name rest ends),
)
