-- ===== src/With/Names.antt =====
-- The names and the text of the CTEs that a WithBuilder collects (src/with.cpp).
use mathlib.Core.Path.{subst}
use iron_query.Prelude.{
  Bool-cases, inl, inr, Text, lit, text_eq_iff, All, All-append, intercalate, following, ◌≡◌, ◌≢◌,
  ◌↔◌, sym, ◌∙◌, append_assoc, append-nil, false, List, [], ◌∷◌, ◌++◌, map, arith,
}
use iron_query.Exception.{Result, ok, err, logic_error, ◌>>=◌, >>=-eq-ok}
use iron_query.Identifier.{validate_identifier}
use iron_query.VirtualTable.{VirtualTable}
use iron_query.With.{WithBuilder, has_name, add_with, with_cte, cte_text}

-- No name of the list equals `name`.
abbrev pub Fresh : Text → List Text → Type 0
Fresh name names = All (λ n. n ≢ name) names

abbrev pub Distinct : List Text → Type 0
Distinct [] = Unit
Distinct (n ∷ names) = All (λ m. m ≢ n) names × Distinct names

pub has_name-Fresh :
    (name : Text) (names : List Text) → (has_name name names ≡ false) ↔ Fresh name names
unfolding has_name
has_name-Fresh name [] = (ground arith, ground arith)
has_name-Fresh name (n ∷ names) = ground (arith, text_eq_iff n name, has_name-Fresh name names)

Distinct-append :
    (names : List Text) (name : Text)
    → Distinct names
    → Fresh name names
    → Distinct (names ++ name ∷ [])
Distinct-append [] name d f = (tt, tt)
Distinct-append (n ∷ names) name (new, d) (ne, f) =
    (All-append _ names (name ∷ []) new ((λ e. ne (sym e)), tt), Distinct-append names name d f)

-- Every name is an identifier, and no two are equal.
pub record IsNamed (b : WithBuilder) : Type 0 where
  pub valid : All (λ n. validate_identifier n ≡ ok tt) b.cte_names_
  pub distinct : Distinct b.cte_names_

-- A CTE as the one-line rendering shows it, where its query renders.
abbrev pub bracketed : Result Text → Text
bracketed (ok s) = s
bracketed (err e) = []

abbrev pub shown : Text × VirtualTable → Text
shown (name, query) = name ++ (lit " AS " ++ bracketed query.to_string_bracketed)

-- What a With that returns has checked, and what it adds.
abbrev Added : Text → VirtualTable → Text → List Text → WithBuilder → Type 0
Added name query text names c =
    (validate_identifier name ≡ ok tt) × (c.cte_names_ ≡ names) × (c.ctes_ ≡ text)

cte_text-shown : (name query : Text) → cte_text name query ≡ name ++ (lit " AS " ++ query)
cte_text-shown name query = append_assoc name (lit " AS ") query

add_with-Added :
    (name : Text) (query : VirtualTable) (b : WithBuilder) {c : WithBuilder}
    → add_with name query b ≡ ok c
    → Added name query ((b.ctes_ ++ lit ", ") ++ shown (name, query)) (b.cte_names_ ++ name ∷ []) c
      × (has_name name b.cte_names_ ≡ false)
unfolding add_with
add_with-Added name query b h =
    ground (arith, cte_text-shown name (bracketed query.to_string_bracketed))

with_cte-Added :
    (name : Text) (query : VirtualTable) {c : WithBuilder}
    → with_cte name query ≡ ok c
    → Added name query (shown (name, query)) (name ∷ []) c
unfolding with_cte
with_cte-Added name query h =
    ground (arith, cte_text-shown name (bracketed query.to_string_bracketed))

-- The calls of With on a builder.
unfoldable pub run : List (Text × VirtualTable) → WithBuilder → Result WithBuilder
run [] b = ok b
run ((name, query) ∷ ctes) b = do c ← add_with name query b; run ctes c

abbrev pub name_of : Text × VirtualTable → Text
name_of (name, query) = name

add_with-IsNamed :
    (name : Text) (query : VirtualTable) (b : WithBuilder) {c : WithBuilder}
    → IsNamed b
    → add_with name query b ≡ ok c
    → IsNamed c
add_with-IsNamed name query b v h =
    let ((valid, names, text), new) = add_with-Added name query b h in
    record {
      valid = rw names (All-append _ b.cte_names_ (name ∷ []) v.valid (valid, tt));
      distinct =
          rw names (
            Distinct-append b.cte_names_ name v.distinct
              ((has_name-Fresh name b.cte_names_).0 new));
    }

with_cte-IsNamed :
    (name : Text) (query : VirtualTable) {b : WithBuilder} → with_cte name query ≡ ok b → IsNamed b
with_cte-IsNamed name query h =
    let (valid, names, text) = with_cte-Added name query h in
    record { valid = rw names (valid, tt); distinct = rw names (tt, tt) }

run-names :
    (ctes : List (Text × VirtualTable)) (b : WithBuilder) {c : WithBuilder}
    → IsNamed b
    → run ctes b ≡ ok c
    → IsNamed c
      × (c.cte_names_ ≡ b.cte_names_ ++ map name_of ctes)
      × (c.ctes_ ≡ b.ctes_ ++ following (lit ", ") (map shown ctes))
unfolding run
run-names [] b {c} v h =
    let same : b ≡ c = cc in
    (subst IsNamed same v, rw (← same, append-nil), rw (← same, append-nil))
run-names ((name, query) ∷ ctes) b v h =
    let (m, hm, hr) = >>=-eq-ok (add_with name query b) (run ctes) h in
    let ((valid, names, text), new) = add_with-Added name query b hm in
    let (w, ns, ts) = run-names ctes m (add_with-IsNamed name query b v hm) hr in
    (w, ns ∙ rw (names, append_assoc), ts ∙ rw text (simp append_assoc))

-- However many CTEs a WITH clause collects, their names are all identifiers and all different, in
-- the order of the calls, and the clause lists for each its name, AS and what ToStringBracketed gives for
-- its query (the text of a Table without, of every other query with parentheses), with a comma and a
-- space between them.
pub with_cte-run-names :
    (name : Text) (query : VirtualTable) (ctes : List (Text × VirtualTable)) {b c : WithBuilder}
    → with_cte name query ≡ ok b
    → run ctes b ≡ ok c
    → IsNamed c
      × (c.cte_names_ ≡ name ∷ map name_of ctes)
      × (c.ctes_ ≡ intercalate (lit ", ") (map shown ((name, query) ∷ ctes)))
with_cte-run-names name query ctes {b} hb hr =
    let (valid, names, text) = with_cte-Added name query hb in
    let (v, ns, ts) = run-names ctes b (with_cte-IsNamed name query hb) hr in
    (v, ns ∙ rw names, ts ∙ rw text)

-- A name that is taken is refused, whatever the query.
pub add_with_taken :
    (name : Text) (query : VirtualTable) (b : WithBuilder)
    → validate_identifier name ≡ ok tt
    → ¬ Fresh name b.cte_names_
    → add_with name query b ≡ err (logic_error (lit "duplicate CTE name: " ++ name))
unfolding add_with
add_with_taken name query b valid taken = elim (Bool-cases (has_name name b.cte_names_)) [
  | inl used ↦ rw (valid, used)
  | inr new ↦ absurd (taken ((has_name-Fresh name b.cte_names_).0 new))
]
