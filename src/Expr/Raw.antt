-- ===== src/Expr/Raw.antt =====
-- Raw fragments of src/expr.cpp and src/condition.cpp are rendered as they are.
use iron_query.Prelude.{Text, ◌≡◌}
use iron_query.Precedence.{OperatorPrecedence}
use iron_query.Node.Render.{render-make_leaf}
use iron_query.Expr.{from_raw, to_string, condition_of, condition_to_string}

pub to_string-from_raw : (s : Text) (p : OperatorPrecedence) → to_string (from_raw s p) ≡ s
unfolding to_string from_raw
to_string-from_raw s p = render-make_leaf s p

pub condition_to_string-of :
    (s : Text) (p : OperatorPrecedence) → condition_to_string (condition_of s p) ≡ s
unfolding condition_to_string condition_of
condition_to_string-of s p = render-make_leaf s p
