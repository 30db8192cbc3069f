-- ===== src/Query/Bodies.antt =====
-- The setters of src/select_expr.cpp, called once each, and the text of what they set.
use iron_query.Prelude.{
  ℕ, Text, lit, All, map, intercalate, ◌≡◌, ◌≢◌, refl, sym, ap, ◌∙◌, Bool, false, List, [], ◌∷◌,
  ◌++◌, append-nil, Option, none, some, ℤ,
}
use iron_query.Exception.{Result, ok}
use iron_query.Expr.{Expr, Condition, SelectItem}
use iron_query.OrderBy.{OrderByTerm}
use iron_query.Clause.{join_csv}
use iron_query.Clause.Csv.{join_csv_lem}
use iron_query.Select.{SelectExpr, append_if}
use iron_query.Query.{Mark, mark_text, part, csv}
use iron_query.Query.Parts.{ListFits}
use iron_query.Query.Pieces.{Gives, build_each-texts, csv-shown}
use iron_query.Query.Statements.{build_each, set_if}

-- A builder by its fields.
abbrev pub held :
    Text
    → Bool
    → Option (List Expr)
    → Option (List SelectItem)
    → Option Condition
    → Option (List Expr)
    → Option Condition
    → Option (List OrderByTerm)
    → Option ℤ
    → Option ℤ
    → SelectExpr
held item distinct on items condition groups having orders limit offset = record {
  distinct_ = distinct;
  distinct_on_ = on;
  from_ = item;
  select_ = items;
  where_ = condition;
  group_by_ = groups;
  having_ = having;
  order_by_ = orders;
  limit_ = limit;
  offset_ = offset;
}

abbrev pub fresh : Text → SelectExpr
fresh item = held item false none none none none none none none none

-- What is set has the text that is wanted.
abbrev pub Agree : {A B : Type 0} → (B → Text) → (A → Text) → Option B → Option A → Type 0
Agree shown text none none = Unit
Agree shown text (some b) (some a) = shown b ≡ text a
Agree shown text _ _ = ⊥

pub append_if-part :
    {A B : Type 0} (m : Mark) (shown : B → Text) (text : A → Text) (ob : Option B) (o : Option A)
    (s : Text)
    → Agree shown text ob o
    → append_if ob (λ b. mark_text m ++ shown b) s ≡ s ++ part m text o
append_if-part m shown text none none s h = sym (append-nil s)
append_if-part m shown text (some b) (some a) s h = rw h refl
append_if-part m shown text none (some a) s h = absurd h
append_if-part m shown text (some b) none s h = absurd h

abbrev pub MayGive : {A B : Type 0} → (A → Result B) → (B → Text) → (A → Text) → Option A → Type 0
MayGive make shown text none = Unit
MayGive make shown text (some a) = Gives (make a) shown (text a)

module _ {A B : Type 0} (make : A → Result B) (shown : B → Text) (text : A → Text)
    (set : B → SelectExpr → Result SelectExpr) (with : Option B → SelectExpr) where
  -- A setter on a builder that does not hold its clause yet.
  pub set_if-Agree :
      (o : Option A)
      → ((b : B) → set b (with none) ≡ ok (with (some b)))
      → MayGive make shown text o
      → (ob : Option B) × (set_if make set o (with none) ≡ ok (with ob)) × Agree shown text ob o
  unfolding set_if
  set_if-Agree none sets h = (none, refl, tt)
  set_if-Agree (some a) sets (b, made, e) = (some b, rw made (sets b), e)

-- A braced list that is not empty.
list-Gives :
    {A B : Type 0} (make : A → Result B) (shown : B → Text) (text : A → Text) (a : A)
    (items : List A)
    → All (λ a. Gives (make a) shown (text a)) (a ∷ items)
    → text a ≢ []
    → Gives (build_each make (a ∷ items)) (λ bs. join_csv (map shown bs)) (csv text (a ∷ items))
list-Gives make shown text a items h ne =
    let (bs, made, same) = build_each-texts make shown text (a ∷ items) h in
    (
      bs,
      made,
      ap join_csv same
          ∙ join_csv_lem (map text (a ∷ items)) (csv-shown (text a) (map text items) ne),
    )

All-Gives :
    {A B T : Type 0} (make : A → Result B) (shown : B → Text) (tree : A → T) (text : T → Text)
    (P : T → Type 0) (items : List A)
    → ((a : A) → P (tree a) → Gives (make a) shown (text (tree a)))
    → All P (map tree items)
    → All (λ a. Gives (make a) shown (text (tree a))) items
All-Gives make shown tree text P [] f h = tt
All-Gives make shown tree text P (a ∷ items) f (ha, h) =
    (f a ha, All-Gives make shown tree text P items f h)

map-map :
    {A T : Type 0} (tree : A → T) (text : T → Text) (items : List A)
    → map (λ a. text (tree a)) items ≡ map text (map tree items)
map-map tree text [] = refl
map-map tree text (a ∷ items) = rw (map-map tree text items) refl

csv-map :
    {A T : Type 0} (tree : A → T) (text : T → Text) (items : List A)
    → csv (λ a. text (tree a)) items ≡ csv text (map tree items)
csv-map tree text items = ap (intercalate (lit ", ")) (map-map tree text items)

pub listed-Gives :
    {A B T : Type 0} (make : A → Result B) (shown : B → Text) (tree : A → T) (text : T → Text)
    (P : T → Type 0) (fuel : ℕ) (items : List A)
    → ((a : A) → P (tree a) → Gives (make a) shown (text (tree a)))
    → ((t : T) → P t → text t ≢ [])
    → ListFits fuel P (map tree items)
    → Gives (build_each make items) (λ bs. join_csv (map shown bs)) (csv text (map tree items))
listed-Gives make shown tree text P fuel [] f ne h = absurd h
listed-Gives make shown tree text P fuel (a ∷ items) f ne (h, d) =
    let (bs, made, e) =
      list-Gives make shown (λ a. text (tree a)) a items
        (All-Gives make shown tree text P (a ∷ items) f h) (ne (tree a) h.0) in
    (bs, made, e ∙ csv-map tree text (a ∷ items))
