-- ===== src/Select/Pieces.antt =====
-- The clauses of src/select_expr.cpp in its two renderings, which differ only in white space.
use iron_query.Prelude.{
  Text, lit, String, is_empty, is_empty-append, following, intercalate, ◌≡◌, refl, Bool, true,
  false, List, [], ◌∷◌, ◌++◌, map, append_assoc, append-nil, Option, none, some,
}
use iron_query.Expr.{Expr}
use iron_query.Clause.{join_csv, render_exprs}
use iron_query.Clause.Csv.{comma, from_first, join_csv_lem}
use iron_query.Select.Space.{squeezed, gap_after, SameLayout, SameLayout-refl, SameLayout-append}
use iron_query.Select.{csv_indented_onto, join_csv_indented, append_if, head_text, header_text}

abbrev indented : Text → Text
indented item = lit "    " ++ item

csv_indented_onto-following :
    (s : Text) (items : List Text)
    → is_empty s ≡ false
    → csv_indented_onto s items ≡ s ++ following (lit ",\n") (map indented items)
unfolding csv_indented_onto
csv_indented_onto-following s [] h = rw append-nil
csv_indented_onto-following s (item ∷ items) h =
    rw
      (
        h,
        csv_indented_onto-following (((s ++ lit ",\n") ++ lit "    ") ++ item) items (
            is_empty-append ((s ++ lit ",\n") ++ lit "    ") item
              (is_empty-append (s ++ lit ",\n") (lit "    ") (is_empty-append s (lit ",\n") h))),
      )
      (simp append_assoc)

-- JoinCsvIndented puts every item on a line of its own, indented, with a comma between them.
pub join_csv_indented-intercalate :
    (items : List Text) → join_csv_indented items ≡ intercalate (lit ",\n") (map indented items)
unfolding join_csv_indented
join_csv_indented-intercalate [] = refl
join_csv_indented-intercalate (item ∷ items) =
    csv_indented_onto-following (indented item) items
      (is_empty-append (lit "    ") item (unfold lit in refl))

-- Literals of the code that differ in white space alone.
comma_layout : SameLayout (lit ", ") (lit ",\n    ")
unfolding squeezed gap_after lit
comma_layout = record { same = λ gap. refl; ends = λ gap. refl }

space_layout : SameLayout (lit " ") (lit "\n")
unfolding squeezed gap_after lit
space_layout = record { same = λ gap. refl; ends = λ gap. refl }

wide_layout : SameLayout (lit " ") (lit "\n    ")
unfolding squeezed gap_after lit
wide_layout = record { same = λ gap. refl; ends = λ gap. refl }

comma_indented : (s : Text) → lit ",\n" ++ (lit "    " ++ s) ≡ lit ",\n    " ++ s
unfolding lit
comma_indented s = refl

newline_indented : (s : Text) → lit "\n" ++ (lit "    " ++ s) ≡ lit "\n    " ++ s
unfolding lit
newline_indented s = refl

following-layout :
    (items : List Text)
    → SameLayout (following comma items) (following (lit ",\n") (map indented items))
following-layout [] = SameLayout-refl []
following-layout (item ∷ items) =
    rw (append_assoc, comma_indented)
      (SameLayout-append comma_layout
        (SameLayout-append (SameLayout-refl item) (following-layout items)))

-- A list behind a keyword, on its line and on lines of its own.
list-layout :
    (items : List Text)
    → from_first items ≡ items
    → SameLayout (lit " " ++ join_csv items) (lit "\n" ++ join_csv_indented items)
list-layout items h = rw (join_csv_lem items h, join_csv_indented-intercalate items) (go items)
  where
    go :
        (texts : List Text)
        → SameLayout
            (lit " " ++ intercalate comma texts)
            (lit "\n" ++ intercalate (lit ",\n") (map indented texts))
    go [] = SameLayout-append space_layout (SameLayout-refl [])
    go (item ∷ texts) =
        rw (append_assoc, newline_indented)
          (SameLayout-append wide_layout
            (SameLayout-append (SameLayout-refl item) (following-layout texts)))

pub append_if-layout {ℓ} :
    {A : Type ℓ} (o : Option A) (f g : A → Text) (s t : Text)
    → SameLayout s t
    → ((a : A) → o ≡ some a → SameLayout (f a) (g a))
    → SameLayout (append_if o f s) (append_if o g t)
append_if-layout none f g s t h k = h
append_if-layout (some a) f g s t h k = SameLayout-append h (k a refl)

-- A keyword in front of a list.
keyword-layout :
    (a b : Text) (items : List Text)
    → SameLayout a b
    → from_first items ≡ items
    → SameLayout (a ++ (lit " " ++ join_csv items)) (b ++ (lit "\n" ++ join_csv_indented items))
keyword-layout a b items h first = SameLayout-append h (list-layout items first)

-- The keywords of the clauses, and what each clause is in the two renderings.
abbrev pub Keyword : String → String → Type 0
Keyword a b = SameLayout (lit a) (lit b)

pub from_words : Keyword " FROM " "\nFROM\n    "
unfolding squeezed gap_after lit
from_words = record { same = λ gap. refl; ends = λ gap. refl }

pub where_words : Keyword " WHERE " "\nWHERE\n    "
unfolding squeezed gap_after lit
where_words = record { same = λ gap. refl; ends = λ gap. refl }

pub having_words : Keyword " HAVING " "\nHAVING\n    "
unfolding squeezed gap_after lit
having_words = record { same = λ gap. refl; ends = λ gap. refl }

pub limit_words : Keyword " LIMIT " "\nLIMIT\n    "
unfolding squeezed gap_after lit
limit_words = record { same = λ gap. refl; ends = λ gap. refl }

pub offset_words : Keyword " OFFSET " "\nOFFSET\n    "
unfolding squeezed gap_after lit
offset_words = record { same = λ gap. refl; ends = λ gap. refl }

group_by_words : Keyword " GROUP BY" "\nGROUP BY"
unfolding squeezed gap_after lit
group_by_words = record { same = λ gap. refl; ends = λ gap. refl }

order_by_words : Keyword " ORDER BY" "\nORDER BY"
unfolding squeezed gap_after lit
order_by_words = record { same = λ gap. refl; ends = λ gap. refl }

pub group_by_layout :
    (items : List Text)
    → from_first items ≡ items
    → SameLayout
        (lit " GROUP BY " ++ join_csv items)
        (lit "\nGROUP BY\n" ++ join_csv_indented items)
group_by_layout items first =
    let apart = keyword-layout _ _ items group_by_words first in unfold lit in apart

pub order_by_layout :
    (items : List Text)
    → from_first items ≡ items
    → SameLayout
        (lit " ORDER BY " ++ join_csv items)
        (lit "\nORDER BY\n" ++ join_csv_indented items)
order_by_layout items first =
    let apart = keyword-layout _ _ items order_by_words first in unfold lit in apart

pub head-layout :
    (distinct : Bool) (exps : Option (List Expr)) (items : List Text)
    → from_first items ≡ items
    → SameLayout
        (head_text distinct exps ++ join_csv items)
        (header_text distinct exps ++ join_csv_indented items)
unfolding lit
head-layout false none items first =
    SameLayout-append (SameLayout-refl (lit "SELECT")) (list-layout items first)
head-layout true none items first =
    SameLayout-append (SameLayout-refl (lit "SELECT DISTINCT")) (list-layout items first)
head-layout distinct (some exps) items first =
    let start = lit "SELECT DISTINCT ON (" ++ join_csv (render_exprs exps) in
    rw
      (
        append_assoc start (lit ") ") (join_csv items),
        append_assoc start (lit ")\n") (join_csv_indented items),
      )
      (SameLayout-append (SameLayout-refl start)
        (SameLayout-append (SameLayout-refl (lit ")")) (list-layout items first)))
