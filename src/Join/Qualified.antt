-- ===== src/Join/Qualified.antt =====
-- The qualification of a join in src/join.cpp: none, ON or USING.
use mathlib.Core.Path.{subst}
use iron_query.Prelude.{
  Text, lit, is_empty-ne-nil, ◌≡◌, ◌≢◌, ◌⊎◌, refl, ◌∙◌, append_assoc, false, List, [], ◌∷◌, ◌++◌,
  arith,
}
use iron_query.Exception.{Result, ok, ◌>>=◌, >>=-eq-ok, IsOk}
use iron_query.VirtualTable.{VirtualTable}
use iron_query.Expr.{Expr, Condition, condition_to_string}
use iron_query.Clause.{join_csv, render_exprs}
use iron_query.Join
use iron_query.Join.{JoinKind, is_natural, kind_text, Join, join, to_string}

-- One call of On or Using.
pub data Qualifier : Type 0 where
  on : Condition → Qualifier
  using : List Expr → Qualifier

unfoldable pub qualify : Qualifier → Join → Result Join
unfolding Join.on Join.using
qualify (on c) = Join.on c
qualify (using columns) = Join.using columns

abbrev pub qualifier_text : Qualifier → Text
qualifier_text (on c) = condition_to_string c
qualifier_text (using columns) = join_csv (render_exprs columns)

abbrev pub clause_text : Qualifier → Text
clause_text (on c) = lit " ON " ++ condition_to_string c
clause_text (using columns) = lit " USING (" ++ (join_csv (render_exprs columns) ++ lit ")")

unfoldable pub run : List Qualifier → Join → Result Join
run [] j = ok j
run (q ∷ qs) j = do k ← qualify q j; run qs k

-- ON and USING exclude one another, and a NATURAL join has neither.
pub record IsQualified (j : Join) : Type 0 where
  pub one : (j.on_ ≡ []) ⊎ (j.using_ ≡ [])
  pub natural : (j.natural_ ≡ false) ⊎ (j.on_ ≡ []) × (j.using_ ≡ [])

qualify-IsQualified :
    (q : Qualifier) (j : Join) {k : Join} → IsQualified j → qualify q j ≡ ok k → IsQualified k
unfolding qualify
qualify-IsQualified (on c) j v h = record { one = ground arith; natural = ground arith }
qualify-IsQualified (using columns) j v h = record { one = ground arith; natural = ground arith }

qualify_keeps :
    (q : Qualifier) (j : Join) {k : Join}
    → qualify q j ≡ ok k
    → (k.a_ ≡ j.a_) × (k.b_ ≡ j.b_) × (k.kind_ ≡ j.kind_) × (k.natural_ ≡ j.natural_)
unfolding qualify
qualify_keeps (on c) j h = ground arith
qualify_keeps (using columns) j h = ground arith

run-IsQualified :
    (qs : List Qualifier) (j : Join) {k : Join} → IsQualified j → run qs j ≡ ok k → IsQualified k
unfolding run
run-IsQualified [] j {k} v h = let same : j ≡ k = cc in subst IsQualified same v
run-IsQualified (q ∷ qs) j v h =
    let (m, hq, hr) = >>=-eq-ok (qualify q j) (run qs) h in
    run-IsQualified qs m (qualify-IsQualified q j v hq) hr

join-IsQualified :
    (a b : VirtualTable) (kind : JoinKind) {j : Join} → join a b kind ≡ ok j → IsQualified j
unfolding join
join-IsQualified a b kind h = record { one = ground arith; natural = ground arith }

run-natural :
    (qs : List Qualifier) (j : Join) {k : Join} → run qs j ≡ ok k → k.natural_ ≡ j.natural_
unfolding run
run-natural [] j h = ground arith
run-natural (q ∷ qs) j h =
    let (m, hq, hr) = >>=-eq-ok (qualify q j) (run qs) h in
    run-natural qs m hr ∙ (qualify_keeps q j hq).3

-- Whatever calls of On and Using return on a join, it never holds both clauses, and none at all
-- if its kind is NATURAL.
pub join-run-IsQualified :
    (a b : VirtualTable) (kind : JoinKind) (qs : List Qualifier) {j k : Join}
    → join a b kind ≡ ok j
    → run qs j ≡ ok k
    → IsQualified k × (k.natural_ ≡ is_natural kind)
join-run-IsQualified a b kind qs {j} {k} hj hr =
    let v = run-IsQualified qs j (join-IsQualified a b kind hj) hr in
    (v, run-natural qs j hr ∙ join-natural a b kind hj)
  where
    join-natural :
        (x y : VirtualTable) (c : JoinKind) {m : Join}
        → join x y c ≡ ok m
        → m.natural_ ≡ is_natural c
    join-natural x y c h = unfold join in ground arith

-- Once a qualification with a text is set, every further call throws.
pub qualify-once :
    (q q' : Qualifier) (j : Join) {k : Join}
    → qualify q j ≡ ok k
    → qualifier_text q ≢ []
    → ¬ IsOk (qualify q' k)
unfolding qualify
qualify-once (on c) (on c') j h ne = λ x. ground arith
qualify-once _ _ j h ne = λ x. ground arith

-- The first qualification of a join that is not NATURAL is accepted, and the text ends with it.
pub to_string-qualify :
    (q : Qualifier) (j : Join)
    → j.natural_ ≡ false
    → (j.on_ ≡ []) × (j.using_ ≡ [])
    → qualifier_text q ≢ []
    → (k : Join) × (qualify q j ≡ ok k) × (to_string k ≡ to_string j ++ clause_text q)
unfolding qualify to_string
to_string-qualify (on c) j n e ne = (
  record j { on_ = condition_to_string c },
  ground arith,
  simp (e.0, e.1, is_empty-ne-nil (condition_to_string c) ne, append_assoc),
)
to_string-qualify (using []) j n e ne = absurd (ne (unfold join_csv render_exprs in refl))
to_string-qualify (using (x ∷ xs)) j n e ne = (
  record j { using_ = join_csv (render_exprs (x ∷ xs)) },
  ground arith,
  simp (e.0, e.1, is_empty-ne-nil (join_csv (render_exprs (x ∷ xs))) ne, append_assoc),
)
