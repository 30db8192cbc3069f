-- ===== src/Select/Order.antt =====
-- The order in which the clauses of a SelectExpr are set (src/select_expr.cpp) does not matter.
use mathlib.Core.List.{Permᴰ, Perm}
use mathlib.Core.Logic.{∥∥₁_elim}
use iron_query.Prelude.{◌≡◌, List, [], ◌∷◌, ℤ, arith}
use iron_query.Exception.{Result, ok, ◌>>=◌, >>=-eq-ok}
use iron_query.Expr.{Expr, Condition, SelectItem}
use iron_query.OrderBy.{OrderByTerm}
use iron_query.Select
use iron_query.Select.{SelectExpr}

-- One call of a setter, with its argument.
pub data Setter : Type 0 where
  distinct : Setter
  distinct_on : List Expr → Setter
  select : List SelectItem → Setter
  where_clause : Condition → Setter
  order_by : List OrderByTerm → Setter
  group_by : List Expr → Setter
  having : Condition → Setter
  limit : ℤ → Setter
  offset : ℤ → Setter

unfoldable pub apply : Setter → SelectExpr → Result SelectExpr
unfolding Select.distinct Select.distinct_on Select.select Select.where_clause Select.order_by
    Select.group_by Select.having Select.limit Select.offset
apply distinct = Select.distinct
apply (distinct_on exps) = Select.distinct_on exps
apply (select items) = Select.select items
apply (where_clause c) = Select.where_clause c
apply (order_by terms) = Select.order_by terms
apply (group_by exps) = Select.group_by exps
apply (having c) = Select.having c
apply (limit n) = Select.limit n
apply (offset n) = Select.offset n

-- A chain of calls on one builder.
unfoldable pub run : List Setter → SelectExpr → Result SelectExpr
run [] q = ok q
run (a ∷ rest) q = do r ← apply a q; run rest r

swap :
    (a b : Setter) (q : SelectExpr) {r : SelectExpr}
    → (apply a q >>= apply b) ≡ ok r
    → (apply b q >>= apply a) ≡ ok r
unfolding apply
swap distinct distinct q h = ground arith
swap _ _ q h = ground arith

pub run-cons :
    (a : Setter) (calls : List Setter) (q : SelectExpr) {t : SelectExpr}
    → run (a ∷ calls) q ≡ ok t
    → (r : SelectExpr) × (apply a q ≡ ok r) × (run calls r ≡ ok t)
unfolding run
run-cons a calls q h = >>=-eq-ok (apply a q) (run calls) h

pub cons-run :
    (a : Setter) (calls : List Setter) (q r : SelectExpr) {t : SelectExpr}
    → apply a q ≡ ok r
    → run calls r ≡ ok t
    → run (a ∷ calls) q ≡ ok t
unfolding run
cons-run a calls q r ha h = rw ha h

run-swap :
    (a b : Setter) (calls : List Setter) (q : SelectExpr) {t : SelectExpr}
    → run (a ∷ b ∷ calls) q ≡ ok t
    → run (b ∷ a ∷ calls) q ≡ ok t
run-swap a b calls q h =
    let (r, ha, hr) = run-cons a (b ∷ calls) q h in
    let (s, hb, hs) = run-cons b calls r hr in
    let both : (apply a q >>= apply b) ≡ ok s = rw ha hb in
    let (r', hb', ha') = >>=-eq-ok (apply b q) (apply a) (swap a b q both) in
    cons-run b (a ∷ calls) q r' hb' (cons-run a calls r' s ha' hs)

run-Permᴰ :
    {calls calls' : List Setter}
    → Permᴰ calls calls'
    → (q : SelectExpr) {t : SelectExpr} → run calls q ≡ ok t
    → run calls' q ≡ ok t
run-Permᴰ Permᴰ.nil q h = h
run-Permᴰ (Permᴰ.cons {a} {b} {l₁} {l₂} e p) q h =
    let (r, ha, hr) = run-cons a l₁ q h in rw (← e) (cons-run a l₂ q r ha (run-Permᴰ p r hr))
run-Permᴰ (Permᴰ.swap {a} {b} {a'} {b'} {l} e e') q h = rw (← e, ← e') (run-swap a b l q h)
run-Permᴰ (Permᴰ.trans p p') q h = run-Permᴰ p' q (run-Permᴰ p q h)

Result-set : IsSet (Result SelectExpr)
Result-set = hlevel

-- If a chain of setter calls returns, then so does each of its permutations, with the same builder:
-- the clauses may be given in any order.
pub run-Perm :
    {calls calls' : List Setter} (q t : SelectExpr)
    → Perm calls calls'
    → run calls q ≡ ok t
    → run calls' q ≡ ok t
run-Perm q t p h = ∥∥₁_elim p (Result-set _ _) (λ d. run-Permᴰ d q h)
