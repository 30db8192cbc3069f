-- ===== src/CaseBuilder/Completion.antt =====
-- From every state that a chain of calls on a CaseBuilder reaches (src/case_builder.cpp), End can be
-- made to return.
use iron_query.Prelude.{
  Text, lit, ◌≡◌, ◌≢◌, refl, sym, Bool, true, false, List, [], ◌∷◌, ◌++◌, append_assoc, append-nil,
}
use iron_query.Exception.{ok, ◌>>=◌, IsOk}
use iron_query.Expr
use iron_query.Expr.{Expr, Condition, condition_to_string}
use iron_query.CaseBuilder.{case, end_case}
use iron_query.CaseBuilder.Protocol.{
  Call, when, then_result, else_result, run, Alternates, branch, branches, last_else, else_text,
  run-IsOk_iff, to_string-end_case,
}

-- A branch is completed where one is open, and made where none is.
abbrev closing : Bool → List Call → Condition → Expr → List Call
closing true [] c r = then_result r ∷ []
closing false [] c r = when c ∷ then_result r ∷ []
closing flag (when x ∷ calls) c r = closing true calls c r
closing flag (then_result x ∷ calls) c r = closing false calls c r
closing flag (else_result x ∷ calls) c r = closing flag calls c r

Alternates-closing :
    (flag : Bool) (calls : List Call) (c : Condition) (r : Expr)
    → Alternates flag calls
    → Alternates flag (calls ++ closing flag calls c r)
Alternates-closing true [] c r h = tt
Alternates-closing false [] c r h = tt
Alternates-closing false (when x ∷ calls) c r h = Alternates-closing true calls c r h
Alternates-closing true (when x ∷ calls) c r h = absurd h
Alternates-closing true (then_result x ∷ calls) c r h = Alternates-closing false calls c r h
Alternates-closing false (then_result x ∷ calls) c r h = absurd h
Alternates-closing flag (else_result x ∷ calls) c r h = Alternates-closing flag calls c r h

-- The condition that the calls leave open, or else the one that is added.
abbrev pub open_condition : Bool → Text → List Call → Condition → Text
open_condition true p [] c = p
open_condition false p [] c = condition_to_string c
open_condition flag p (when x ∷ calls) c = open_condition true (condition_to_string x) calls c
open_condition flag p (then_result x ∷ calls) c = open_condition false p calls c
open_condition flag p (else_result x ∷ calls) c = open_condition flag p calls c

branches-closing :
    (flag : Bool) (p : Text) (calls : List Call) (c : Condition) (r : Expr)
    → branches p (calls ++ closing flag calls c r)
      ≡ branches p calls ++ branch (open_condition flag p calls c) (Expr.to_string r)
branches-closing true p [] c r = append-nil (branch p (Expr.to_string r))
branches-closing false p [] c r = append-nil (branch (condition_to_string c) (Expr.to_string r))
branches-closing flag p (when x ∷ calls) c r =
    branches-closing true (condition_to_string x) calls c r
branches-closing flag p (then_result x ∷ calls) c r =
    rw (branches-closing false p calls c r)
      (sym (append_assoc (branch p (Expr.to_string x)) (branches p calls) _))
branches-closing flag p (else_result x ∷ calls) c r = branches-closing flag p calls c r

last_else-closing :
    (flag : Bool) (calls : List Call) (c : Condition) (r : Expr) (text : Text)
    → last_else text (calls ++ closing flag calls c r) ≡ last_else text calls
last_else-closing true [] c r text = refl
last_else-closing false [] c r text = refl
last_else-closing flag (when x ∷ calls) c r text = last_else-closing true calls c r text
last_else-closing flag (then_result x ∷ calls) c r text = last_else-closing false calls c r text
last_else-closing flag (else_result x ∷ calls) c r text =
    last_else-closing flag calls c r (Expr.to_string x)

shown_last : (s c r : Text) → s ++ branch c r ≢ []
unfolding lit
shown_last [] c r e = cc
shown_last (x ∷ s) c r e = cc

-- Whatever calls a CaseBuilder has taken, a condition and a result are enough to finish it: there are
-- further calls after which End returns, and the text keeps every branch that was complete, in order,
-- and the ELSE that was set, with one more branch behind the others: the result under the condition of
-- the When that no Then has followed, or under the given condition if there is no such When.
pub run-end_case_after :
    (calls : List Call) (c : Condition) (r : Expr)
    → IsOk (run calls case)
    → (more : List Call) × (e : Expr) × ((run (calls ++ more) case >>= end_case) ≡ ok e)
      × (Expr.to_string e
          ≡ lit "CASE "
            ++ ((branches [] calls ++ branch (open_condition false [] calls c) (Expr.to_string r))
                ++ (else_text (last_else [] calls) ++ lit "END")))
run-end_case_after calls c r h =
    let more = closing false calls c r in
    let shown = branches-closing false [] calls c r in
    let (e, made, text) =
      to_string-end_case (calls ++ more)
        (Alternates-closing false calls c r ((run-IsOk_iff calls).0 h))
        (rw shown (shown_last (branches [] calls) _ (Expr.to_string r))) in
    (more, e, made, rw (← shown, ← last_else-closing false calls c r []) text)
