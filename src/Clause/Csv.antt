-- ===== src/Clause/Csv.antt =====
-- JoinCsv of src/impl/render.cpp against a separator between the items.
use iron_query.Prelude.{
  Text, lit, is_empty, is_empty-append, following, intercalate, ◌≡◌, refl, ◌∙◌, ap, false, List, [],
  ◌∷◌, ◌++◌, append_assoc, append-nil,
}
use iron_query.Clause.{csv_onto, join_csv}

abbrev pub comma : Text
comma = lit ", "

csv_onto-following :
    (s : Text) (items : List Text)
    → is_empty s ≡ false
    → csv_onto s items ≡ s ++ following comma items
unfolding csv_onto
csv_onto-following s [] h = rw append-nil
csv_onto-following s (item ∷ items) h =
    rw
      (
        h,
        csv_onto-following ((s ++ comma) ++ item) items
            (is_empty-append (s ++ comma) item (is_empty-append s comma h)),
      )
      (simp append_assoc)

-- The items behind the empty ones at the front.
abbrev pub from_first : List Text → List Text
from_first [] = []
from_first ([] ∷ items) = from_first items
from_first ((c ∷ s) ∷ items) = (c ∷ s) ∷ items

-- JoinCsv puts ", " between the items, but for empty items at the front, which it leaves out.
pub join_csv-intercalate :
    (items : List Text) → join_csv items ≡ intercalate comma (from_first items)
unfolding join_csv
join_csv-intercalate [] = refl
join_csv-intercalate ([] ∷ items) = join_csv-intercalate items
join_csv-intercalate ((c ∷ s) ∷ items) = csv_onto-following (c ∷ s) items refl

-- With no empty item in front, that is the usual join.
pub join_csv_lem :
    (items : List Text) → from_first items ≡ items → join_csv items ≡ intercalate comma items
join_csv_lem items h = join_csv-intercalate items ∙ ap (intercalate comma) h
