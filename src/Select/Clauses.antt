-- ===== src/Select/Clauses.antt =====
-- Each clause of a SelectExpr is set at most once (src/select_expr.cpp), and what ToString needs.
use iron_query.Prelude.{
  ℕ, ◌+◌, ◌≤◌, ◌≡◌, ◌≢◌, ◌↔◌, refl, true, List, [], ◌∷◌, Option, none, some, arith,
}
use iron_query.Exception.{Result, ok, err, IsOk, IsOk-of_eq}
use iron_query.Select.Order.{
  Setter, distinct, distinct_on, select, where_clause, order_by, group_by, having, limit, offset,
  apply, run, run-cons, cons-run,
}
use iron_query.Select.{SelectExpr, to_string}

-- The clauses that are set once.
pub data Clause : Type 0 where
  distinct_on_clause select_clause where_cond order_clause group_clause having_cond limit_clause
        offset_clause :
      Clause

abbrev once {ℓ} : {A : Type ℓ} → Option A → ℕ
once none = 0
once (some a) = 1

-- How often a clause is set in a builder: 0 or 1.
abbrev pub times_set : Clause → SelectExpr → ℕ
times_set distinct_on_clause q = once q.distinct_on_
times_set select_clause q = once q.select_
times_set where_cond q = once q.where_
times_set order_clause q = once q.order_by_
times_set group_clause q = once q.group_by_
times_set having_cond q = once q.having_
times_set limit_clause q = once q.limit_
times_set offset_clause q = once q.offset_

abbrev pub sets : Clause → Setter → ℕ
sets distinct_on_clause (distinct_on _) = 1
sets select_clause (select _) = 1
sets where_cond (where_clause _) = 1
sets order_clause (order_by _) = 1
sets group_clause (group_by _) = 1
sets having_cond (having _) = 1
sets limit_clause (limit _) = 1
sets offset_clause (offset _) = 1
sets _ _ = 0

-- The calls of a chain that set a clause.
abbrev pub calls_of : Clause → List Setter → ℕ
calls_of k [] = 0
calls_of k (a ∷ calls) = sets k a + calls_of k calls

apply-times_set :
    (k : Clause) (a : Setter) (q : SelectExpr) {r : SelectExpr}
    → apply a q ≡ ok r
    → times_set k r ≡ times_set k q + sets k a
unfolding apply
apply-times_set distinct_on_clause distinct q h = ground arith
apply-times_set _ _ q h = ground arith

run-times_set :
    (k : Clause) (calls : List Setter) (q : SelectExpr) {t : SelectExpr}
    → run calls q ≡ ok t
    → times_set k t ≡ times_set k q + calls_of k calls
run-times_set k [] q h = unfold run in ground arith
run-times_set k (a ∷ calls) q h =
    let (r, ha, hr) = run-cons a calls q h in
    omega (arith, apply-times_set k a q ha, run-times_set k calls r hr)

times_set_bound : (k : Clause) (q : SelectExpr) → times_set k q ≤ 1
times_set_bound distinct_on_clause q = ground arith
times_set_bound _ q = ground arith

run_bound :
    (k : Clause) (calls : List Setter) (q : SelectExpr) {t : SelectExpr}
    → run calls q ≡ ok t
    → times_set k q + calls_of k calls ≤ 1
run_bound k calls q {t} e = omega (arith, run-times_set k calls q e, times_set_bound k t)

ok_of-IsOk : (r : Result SelectExpr) → IsOk r → (t : SelectExpr) × (r ≡ ok t)
ok_of-IsOk (ok t) h = (t, refl)
ok_of-IsOk (err e) h = absurd h

apply_total :
    (a : Setter) (q : SelectExpr)
    → ((k : Clause) → times_set k q + sets k a ≤ 1)
    → (r : SelectExpr) × (apply a q ≡ ok r)
unfolding apply
apply_total distinct q h = (record q { distinct_ = true }, refl)
apply_total (distinct_on x) q h =
    (record q { distinct_on_ = some x }, ground (arith, h distinct_on_clause))
apply_total (select x) q h = (record q { select_ = some x }, ground (arith, h select_clause))
apply_total (where_clause x) q h = (record q { where_ = some x }, ground (arith, h where_cond))
apply_total (order_by x) q h = (record q { order_by_ = some x }, ground (arith, h order_clause))
apply_total (group_by x) q h = (record q { group_by_ = some x }, ground (arith, h group_clause))
apply_total (having x) q h = (record q { having_ = some x }, ground (arith, h having_cond))
apply_total (limit x) q h = (record q { limit_ = some x }, ground (arith, h limit_clause))
apply_total (offset x) q h = (record q { offset_ = some x }, ground (arith, h offset_clause))

run_total :
    (calls : List Setter) (q : SelectExpr)
    → ((k : Clause) → times_set k q + calls_of k calls ≤ 1)
    → (t : SelectExpr) × (run calls q ≡ ok t)
run_total [] q h = (q, unfold run in refl)
run_total (a ∷ calls) q h =
    let (r, ha) = apply_total a q (λ k. omega (arith, h k)) in
    let (t, hr) = run_total calls r (λ k. omega (arith, h k, apply-times_set k a q ha)) in
    (t, cons-run a calls q r ha hr)

-- A chain of setter calls returns exactly if no clause is set twice, what the builder holds at the
-- start included; and then a clause is set in the end exactly if it was, or a call set it.
pub run_iff :
    (calls : List Setter) (q : SelectExpr)
    → (IsOk (run calls q) ↔ ((k : Clause) → times_set k q + calls_of k calls ≤ 1))
      × (((t : SelectExpr) × (run calls q ≡ ok t)
            × ((k : Clause) → times_set k t ≡ times_set k q + calls_of k calls))
          ↔ ((k : Clause) → times_set k q + calls_of k calls ≤ 1))
run_iff calls q = (
  (
    (λ h k. let (t, e) = ok_of-IsOk (run calls q) h in run_bound k calls q e),
    λ h. IsOk-of_eq (run_total calls q h).1,
  ),
  (
    (λ (t, e, same) k. run_bound k calls q e),
    λ h. let (t, e) = run_total calls q h in (t, e, λ k. run-times_set k calls q e),
  ),
)

abbrev Both : SelectExpr → Type 0
Both q = (q.distinct_ ≡ true) × (times_set distinct_on_clause q ≡ 1)

-- ToString gives a text exactly if a SELECT list is set, the FROM item has a text and not both of
-- DISTINCT and DISTINCT ON are set.
pub to_string_iff :
    (q : SelectExpr)
    → IsOk (to_string q) ↔ ((times_set select_clause q ≡ 1) × (q.from_ ≢ []) × ¬ Both q)
unfolding to_string
to_string_iff q = ((λ h. (ground arith, (λ e. ground arith), λ b. ground arith)), λ h. ground arith)
