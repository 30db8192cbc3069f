-- ===== src/CaseBuilder/Protocol.antt =====
-- The order of the calls on a CaseBuilder (src/case_builder.cpp), and the text that they build.
use iron_query.Prelude.{
  Text, lit, is_empty-ne-nil, ◌≡◌, ◌≢◌, ◌↔◌, refl, sym, ap, ◌∙◌, append_assoc, append-nil, Bool,
  true, false, List, [], ◌∷◌, ◌++◌, arith,
}
use iron_query.Exception.{Result, ok, ◌>>=◌, IsOk, IsOk-of_eq}
use iron_query.Precedence.{symbol}
use iron_query.Expr.Raw.{to_string-from_raw}
use iron_query.Expr
use iron_query.Expr.{Expr, Condition, condition_to_string}
use iron_query.CaseBuilder
use iron_query.CaseBuilder.{CaseBuilder, case, fragment, end_case}

-- One call of When, Then or Else.
pub data Call : Type 0 where
  when : Condition → Call
  then_result : Expr → Call
  else_result : Expr → Call

unfoldable pub apply : Call → CaseBuilder → Result CaseBuilder
unfolding CaseBuilder.when CaseBuilder.then_result CaseBuilder.else_result
apply (when c) b = CaseBuilder.when c b
apply (then_result r) b = CaseBuilder.then_result r b
apply (else_result r) b = ok (CaseBuilder.else_result r b)

unfoldable pub run : List Call → CaseBuilder → Result CaseBuilder
run [] b = ok b
run (call ∷ calls) b = do c ← apply call b; run calls c

-- When and Then alternate; the flag is set behind a When.
abbrev pub Alternates : Bool → List Call → Type 0
Alternates pending [] = Unit
Alternates false (when c ∷ calls) = Alternates true calls
Alternates true (when c ∷ calls) = ⊥
Alternates true (then_result r ∷ calls) = Alternates false calls
Alternates false (then_result r ∷ calls) = ⊥
Alternates pending (else_result r ∷ calls) = Alternates pending calls

-- A branch as SQL writes it.
abbrev pub branch : Text → Text → Text
branch condition result = lit "WHEN " ++ (condition ++ (lit " THEN " ++ (result ++ lit " ")))

fragment-branch : (condition result : Text) → fragment condition result ≡ branch condition result
unfolding fragment
fragment-branch condition result = simp append_assoc

-- The branches that the calls complete, behind a pending condition.
abbrev pub branches : Text → List Call → Text
branches pending [] = []
branches pending (when c ∷ calls) = branches (condition_to_string c) calls
branches pending (then_result r ∷ calls) =
    branch pending (Expr.to_string r) ++ branches pending calls
branches pending (else_result r ∷ calls) = branches pending calls

-- The last Else counts.
abbrev pub last_else : Text → List Call → Text
last_else text [] = text
last_else text (else_result r ∷ calls) = last_else (Expr.to_string r) calls
last_else text (when c ∷ calls) = last_else text calls
last_else text (then_result r ∷ calls) = last_else text calls

run-cons :
    (call : Call) (calls : List Call) (b c : CaseBuilder)
    → apply call b ≡ ok c
    → run (call ∷ calls) b ≡ run calls c
unfolding run
run-cons call calls b c h = rw h

abbrev state : Text → Text → Text → Bool → CaseBuilder
state whens pending otherwise flag = record {
  whens_ = whens;
  pending_when_ = pending;
  else_ = otherwise;
  has_pending_when_ = flag;
}

-- What a chain of calls leaves behind.
abbrev Leaves : List Call → Text → Text → Text → Result CaseBuilder → Type 0
Leaves calls whens pending otherwise r =
    (c : CaseBuilder) × (r ≡ ok c)
    × (c.whens_ ≡ whens ++ branches pending calls)
    × (c.else_ ≡ last_else otherwise calls)

run-branches :
    (calls : List Call) (w p e : Text) (flag : Bool)
    → Alternates flag calls
    → Leaves calls w p e (run calls (state w p e flag))
unfolding run apply
run-branches [] w p e flag h = (state w p e flag, refl, sym (append-nil w), refl)
run-branches (when x ∷ calls) w p e false h = run-branches calls w (condition_to_string x) e true h
run-branches (when x ∷ calls) w p e true h = absurd h
run-branches (then_result x ∷ calls) w p e false h = absurd h
run-branches (then_result x ∷ calls) w p e true h =
    let (c, r, ws, l) = run-branches calls (w ++ fragment p (Expr.to_string x)) p e false h in
    let e = fragment-branch p (Expr.to_string x) in
    (
      c,
      r,
      ws
          ∙ append_assoc w (fragment p (Expr.to_string x)) (branches p calls)
          ∙ ap (λ s. w ++ (s ++ branches p calls)) e,
      l,
    )
run-branches (else_result x ∷ calls) w p e flag h = run-branches calls w p (Expr.to_string x) flag h

run-IsOk :
    (calls : List Call) (w p e : Text) (flag : Bool)
    → IsOk (run calls (state w p e flag))
    → Alternates flag calls
unfolding run apply
run-IsOk [] w p e flag h = tt
run-IsOk (when x ∷ calls) w p e false h = run-IsOk calls w (condition_to_string x) e true h
run-IsOk (when x ∷ calls) w p e true h = absurd h
run-IsOk (then_result x ∷ calls) w p e false h = absurd h
run-IsOk (then_result x ∷ calls) w p e true h =
    run-IsOk calls (w ++ fragment p (Expr.to_string x)) p e false h
run-IsOk (else_result x ∷ calls) w p e flag h = run-IsOk calls w p (Expr.to_string x) flag h

-- A chain of calls on a fresh CaseBuilder returns exactly if When and Then alternate, a When first.
pub run-IsOk_iff : (calls : List Call) → IsOk (run calls case) ↔ Alternates false calls
run-IsOk_iff calls =
    (run-IsOk calls [] [] [] false, λ h. IsOk-of_eq (run-branches calls [] [] [] false h).1)

abbrev pub else_text : Text → Text
else_text [] = []
else_text (c ∷ s) = lit "ELSE " ++ ((c ∷ s) ++ lit " ")

end_case-text :
    (w p e : Text) (flag : Bool)
    → w ≢ []
    → (x : Expr) × (end_case (state w p e flag) ≡ ok x)
      × (Expr.to_string x ≡ lit "CASE " ++ (w ++ (else_text e ++ lit "END")))
unfolding end_case
end_case-text w p [] flag h = (
  Expr.from_raw ((lit "CASE " ++ w) ++ lit "END") symbol,
  rw (is_empty-ne-nil w h),
  to_string-from_raw _ symbol ∙ rw append_assoc,
)
end_case-text w p (c ∷ e) flag h = (
  Expr.from_raw ((((lit "CASE " ++ w) ++ lit "ELSE ") ++ (c ∷ e) ++ lit " ") ++ lit "END") symbol,
  rw (is_empty-ne-nil w h),
  to_string-from_raw _ symbol ∙ simp append_assoc,
)

-- Where When and Then alternate and a branch is complete, End gives CASE, every completed branch in
-- order as WHEN, its condition, THEN and its result, ELSE with the result of the last Else if that has a text, and END.
pub to_string-end_case :
    (calls : List Call)
    → Alternates false calls
    → branches [] calls ≢ []
    → (e : Expr) × ((run calls case >>= end_case) ≡ ok e)
      × (Expr.to_string e
          ≡ lit "CASE " ++ (branches [] calls ++ (else_text (last_else [] calls) ++ lit "END")))
to_string-end_case calls h ne =
    let (c, r, w, l) = run-branches calls [] [] [] false h in
    let (e, ok_e, t) =
      end_case-text c.whens_ c.pending_when_ c.else_ c.has_pending_when_ (rw w ne) in
    (e, rw r ok_e, rw (← w, ← l) t)

-- End does not look at a condition that no Then has followed: it gives the same expression as before
-- that When, or throws the same.
pub end_case-when :
    (c : Condition) (b : CaseBuilder) {d : CaseBuilder}
    → CaseBuilder.when c b ≡ ok d
    → end_case d ≡ end_case b
unfolding CaseBuilder.when end_case
end_case-when c b h = ground arith
