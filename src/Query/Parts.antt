-- ===== src/Query/Parts.antt =====
-- The readers of Query on lists and on parts that may be missing.
use iron_query.Prelude.{
  ℕ, zero, suc, ◌<◌, Text, lit, length, All, following, map, ◌≡◌, refl, List, [], ◌∷◌, ◌++◌,
  append_assoc, append-nil, Option, none, some, arith,
}
use iron_query.Syntax.Grammar.{strip}
use iron_query.Query.{Mark, comma, mark_text, part, csv}
use iron_query.Query.Grammar.{Reader, read_csv, read_part}
use iron_query.Query.Marks.{strip-append, position, After, After-mark, After-le, After-missing}

module _ {A : Type 0} (one : Reader A) (shown : A → Text) where
  -- Each item is read in front of what Ends holds of: a comma, and what is behind the list.
  pub read_csv-items :
      (Ends : Text → Type 0) (a : A) (items : List A) (fuel : ℕ) (rest : Text)
      → ((s : Text) → Ends (lit ", " ++ s))
      → All (λ i. (s : Text) → Ends s → one (shown i ++ s) ≡ some (i, s)) (a ∷ items)
      → length items < fuel
      → Ends rest
      → strip (lit ", ") rest ≡ none
      → read_csv one fuel (csv shown (a ∷ items) ++ rest) ≡ some (a ∷ items, rest)
  unfolding read_csv
  read_csv-items Ends a items zero rest commas h d ends bare = absurd (omega (arith, d))
  read_csv-items Ends a [] (suc fuel) rest commas (ha, h) d ends bare =
      rw (append-nil (shown a), ha rest ends, bare) refl
  read_csv-items Ends a (b ∷ items) (suc fuel) rest commas (ha, h) d ends bare =
      let behind = csv shown (b ∷ items) ++ rest in
      rw
        (
          append_assoc (shown a) (following (lit ", ") (map shown (b ∷ items))) rest,
          append_assoc (lit ", ") (csv shown (b ∷ items)) rest,
          ha (lit ", " ++ behind) (commas behind),
          strip-append (lit ", ") behind,
          read_csv-items Ends b items fuel rest commas h (omega (arith, d)) ends bare,
        )
        refl

  -- One of a list is read up to a comma or to what is behind the list.
  abbrev pub IsRead : A → Type 0
  IsRead a = (rest : Text) → After 0 rest → one (shown a ++ rest) ≡ some (a, rest)

  pub read_csv-csv :
      (a : A) (items : List A) (fuel : ℕ) (rest : Text)
      → All IsRead (a ∷ items)
      → length items < fuel
      → After 1 rest
      → read_csv one fuel (csv shown (a ∷ items) ++ rest) ≡ some (a ∷ items, rest)
  read_csv-csv a items fuel rest h d after =
      read_csv-items (After 0) a items fuel rest (λ s. After-mark 0 comma s (omega arith)) h d
        (After-le 0 1 (omega arith) after) (After-missing comma rest after)

  abbrev pub MayBeRead : Option A → Text → Type 0
  MayBeRead none rest = Unit
  MayBeRead (some a) rest = one (shown a ++ rest) ≡ some (a, rest)

  pub read_part-part :
      (m : Mark) (o : Option A) (rest : Text)
      → MayBeRead o rest
      → After (suc (position m)) rest
      → read_part m one (part m shown o ++ rest) ≡ some (o, rest)
  unfolding read_part
  read_part-part m none rest h after = rw (After-missing m rest after) refl
  read_part-part m (some a) rest h after =
      rw
        (append_assoc (mark_text m) (shown a) rest, strip-append (mark_text m) (shown a ++ rest), h)
        refl

-- A list that is not empty, each element of which is fit.
abbrev pub ListFits : {A : Type 0} → ℕ → (A → Type 0) → List A → Type 0
ListFits fuel P [] = ⊥
ListFits fuel P (a ∷ items) = All P (a ∷ items) × (length items < fuel)

module _ (fuel : ℕ) where
  All-IsRead :
      {A : Type 0} (one : Reader A) (shown : A → Text) (P : A → Type 0) (items : List A)
      → ((a : A) → P a → IsRead one shown a)
      → All P items
      → All (IsRead one shown) items
  All-IsRead one shown P [] f h = tt
  All-IsRead one shown P (a ∷ items) f (ha, h) = (f a ha, All-IsRead one shown P items f h)

  pub read_csv-Fits :
      {A : Type 0} (one : Reader A) (shown : A → Text) (P : A → Type 0) (items : List A)
      (rest : Text)
      → ((a : A) → P a → IsRead one shown a)
      → ListFits fuel P items
      → After 1 rest
      → read_csv one fuel (csv shown items ++ rest) ≡ some (items, rest)
  read_csv-Fits one shown P [] rest f h after = absurd h
  read_csv-Fits one shown P (a ∷ items) rest f (h, d) after =
      read_csv-csv one shown a items fuel rest (All-IsRead one shown P (a ∷ items) f h) d after
