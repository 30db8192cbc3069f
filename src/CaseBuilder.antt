-- ===== src/CaseBuilder.antt =====
-- include/iron_query/case_builder.hpp and src/case_builder.cpp: the state of a CASE expression.
pub mod Protocol
pub mod Completion
use iron_query.Prelude.{Text, lit, is_empty, if◌then◌else◌, Bool, true, false, not, [], ◌∷◌, ◌++◌}
use iron_query.Exception.{Result, ok, err, logic_error}
use iron_query.Precedence.{symbol}
use iron_query.Expr
use iron_query.Expr.{Expr, Condition, condition_to_string}

pub record CaseBuilder : Type 0 where
  pub whens_ : Text
  pub pending_when_ : Text
  pub else_ : Text
  pub has_pending_when_ : Bool

abbrev pub case : CaseBuilder
case = record { whens_ = []; pending_when_ = []; else_ = []; has_pending_when_ = false }

unfoldable pub when : Condition → CaseBuilder → Result CaseBuilder
when cond b =
    if b.has_pending_when_
    then err (logic_error (lit "When() called twice without a matching Then()"))
    else ok (record b { pending_when_ = condition_to_string cond; has_pending_when_ = true })

unfoldable pub fragment : Text → Text → Text
fragment cond result = lit "WHEN " ++ cond ++ lit " THEN " ++ result ++ lit " "

unfoldable pub then_result : Expr → CaseBuilder → Result CaseBuilder
then_result result b =
    if not b.has_pending_when_
    then err (logic_error (lit "Then() called without a preceding When()"))
    else ok (record b {
      whens_ = b.whens_ ++ fragment b.pending_when_ (Expr.to_string result);
      has_pending_when_ = false;
    })

unfoldable pub else_result : Expr → CaseBuilder → CaseBuilder
else_result result b = record b { else_ = Expr.to_string result }

unfoldable pub end_case : CaseBuilder → Result Expr
end_case b =
    if is_empty b.whens_
    then err (logic_error (lit "CASE requires at least one When()/Then() pair"))
    else let s = lit "CASE " ++ b.whens_ in
      let t = if not (is_empty b.else_) then s ++ lit "ELSE " ++ b.else_ ++ lit " " else s in
      ok (Expr.from_raw (t ++ lit "END") symbol)
