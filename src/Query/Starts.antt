-- ===== src/Query/Starts.antt =====
-- Where the parts of a statement's text start, as its reader of Query tells them apart.
use iron_query.Prelude.{
  ℤ, false, ℕ, suc, ◌≤◌, Text, lit, following, all_of, true, ◌≡◌, refl, List, [], ◌∷◌, ◌++◌,
  append_assoc, Option, none, some, inr, arith,
}
use iron_query.Decimal
use iron_query.Identifier.{is_word, is_alnum, is_alpha}
use iron_query.Join
use iron_query.Join.{JoinKind}
use iron_query.SetOp.{kind_text, SetOpKind, union}
use iron_query.Syntax.{Tree}
use iron_query.Syntax.Grammar.{strip}
use iron_query.Syntax.Stops.{tree_text, IsWord, goes_on}
use iron_query.Query.{
  Distinct, all_rows, distinct_rows, distinct_on, Ref, Joined, Body, Mark, source, where_mark,
  group_mark, having_mark, order_mark, limit_mark, offset_mark, closing, mark_text, part, csv,
  item_text, term_text, ref_text, join_word, on_text, joined_text, distinct_text, clauses_text,
  select_text, between_text,
}
use iron_query.Query.Grammar.{read_part, read_number, read_set}
use iron_query.Query.Marks.{position, After, After-part, After-Stops, After-as}
use iron_query.Query.Parts.{MayBeRead, read_part-part}
use iron_query.Query.Tokens.{read_number-to_string}

pub clauses-append :
    (b : Body Tree Tree) (rest : Text)
    → clauses_text b ++ rest
      ≡ part where_mark tree_text b.condition
        ++ (part group_mark (csv tree_text) b.groups
            ++ (part having_mark tree_text b.having
                ++ (part order_mark (csv term_text) b.orders
                    ++ (part limit_mark Decimal.to_string b.limit
                        ++ (part offset_mark Decimal.to_string b.offset ++ rest)))))
clauses-append b rest = simp append_assoc

pub distinct_words :
    (s : Text) → lit "SELECT DISTINCT " ++ s ≡ lit "SELECT " ++ (lit "DISTINCT " ++ s)
unfolding lit
distinct_words s = refl

pub on_words :
    (s : Text)
    → lit "SELECT DISTINCT ON (" ++ s ≡ lit "SELECT " ++ (lit "DISTINCT " ++ (lit "ON (" ++ s))
unfolding lit
on_words s = refl

pub After-closed : (n : ℕ) (s : Text) → n ≤ 8 → After n (lit ") " ++ s)
After-closed n s h = inr (closing, b' ' ∷ s, unfold lit in refl, h)

pub following-goes_on :
    (items : List Text) (s : Text)
    → goes_on (following (lit ", ") items ++ (mark_text source ++ s)) ≡ false
unfolding lit is_word is_alnum is_alpha
following-goes_on [] s = refl
following-goes_on (item ∷ items) s = refl

MayBeRead-number :
    (n : Option ℤ) (s : Text) → goes_on s ≡ false → MayBeRead read_number Decimal.to_string n s
MayBeRead-number none s e = tt
MayBeRead-number (some n) s e = read_number-to_string n s e

pub number :
    (m : Mark) (n : Option ℤ) (s : Text)
    → After (suc (position m)) s
    → read_part m read_number (part m Decimal.to_string n ++ s) ≡ some (n, s)
number m n s after =
    read_part-part read_number Decimal.to_string m n s
      (MayBeRead-number n s (After-Stops (suc (position m)) s after).leaf_ends) after

pub select-append :
    (b : Body Tree Tree) (item rest : Text)
    → select_text b item ++ rest
      ≡ distinct_text b.distinct
        ++ (csv item_text b.items ++ (mark_text source ++ (item ++ (clauses_text b ++ rest))))
select-append b item rest = simp append_assoc

kind_apart :
    (kind : JoinKind) (x s : Text)
    → (goes_on ((join_word kind ++ x) ++ s) ≡ false)
      × (strip (lit " AS ") ((join_word kind ++ x) ++ s) ≡ none)
unfolding strip lit is_word is_alnum is_alpha
kind_apart Join.inner x s = (refl, refl)
kind_apart _ x s = (refl, refl)

-- A clause or the end is not taken for an alias of the table in front of it.
pub joined_apart :
    (joined : Option (Joined Tree Tree)) (rest : Text)
    → After 1 rest
    → (goes_on (joined_text joined ++ rest) ≡ false)
      × (strip (lit " AS ") (joined_text joined ++ rest) ≡ none)
joined_apart none rest after = ((After-Stops 1 rest after).leaf_ends, After-as 1 rest after)
joined_apart (some (kind, right, condition)) rest after =
    kind_apart kind (ref_text right ++ on_text condition) rest

word_unparenthesized : (c : ℕ) (s : Text) → is_word c ≡ true → strip (lit "(") (c ∷ s) ≡ none
unfolding strip lit is_word is_alnum is_alpha
word_unparenthesized c s h = ground arith

pub unparenthesized :
    (ref : Ref) (rest : Text) → IsWord ref.0 → strip (lit "(") (ref_text ref ++ rest) ≡ none
unparenthesized ([], alias) rest h = absurd (h.shown refl)
unparenthesized (c ∷ name, alias) rest h =
    let all : all_of is_word (c ∷ name) ≡ true = h.word in word_unparenthesized c _ (ground arith)

pub source-append :
    (s alias rest : Text)
    → (b'(' ∷ (s ++ (b')' ∷ (lit " AS " ++ alias)))) ++ rest
      ≡ lit "(" ++ (s ++ (lit ") AS " ++ (alias ++ rest)))
unfolding lit
source-append s alias rest = simp append_assoc

pub After-as_closed : (s : Text) → After 8 (lit ") AS " ++ s)
After-as_closed s = inr (closing, lit " AS " ++ s, unfold lit in refl, omega arith)

distinct_first :
    (d : Distinct Tree) (x rest : Text) → strip (lit "(") ((distinct_text d ++ x) ++ rest) ≡ none
unfolding strip lit
distinct_first all_rows x rest = refl
distinct_first distinct_rows x rest = refl
distinct_first (distinct_on ts) x rest = refl

-- A SELECT starts with no parenthesis.
pub select_first :
    (b : Body Tree Tree) (item rest : Text) → strip (lit "(") (select_text b item ++ rest) ≡ none
select_first b item rest = distinct_first b.distinct _ rest

pub After-clauses_text :
    (b : Body Tree Tree) (rest : Text) → After 8 rest → After 2 (clauses_text b ++ rest)
After-clauses_text b rest after = rw (clauses-append b rest) (
    After-part 2 where_mark tree_text b.condition _ (omega arith) (
      After-part 3 group_mark (csv tree_text) b.groups _ (omega arith) (
        After-part 4 having_mark tree_text b.having _ (omega arith) (
          After-part 5 order_mark (csv term_text) b.orders _ (omega arith) (
            After-part 6 limit_mark Decimal.to_string b.limit _ (omega arith)
              (After-part 7 offset_mark Decimal.to_string b.offset rest (omega arith) after))))))

pub combined-append :
    (kind : SetOpKind) (q r rest : Text)
    → (b'(' ∷ (q ++ (between_text kind ++ (r ++ b')' ∷ [])))) ++ rest
      ≡ lit "(" ++ (q ++ (between_text kind ++ (r ++ (lit ")" ++ rest))))
combined-append kind q r rest =
    rw
      (
        append_assoc q (between_text kind ++ (r ++ b')' ∷ [])) rest,
        append_assoc (between_text kind) (r ++ b')' ∷ []) rest,
        append_assoc r (b')' ∷ []) rest,
      )
      (unfold lit in refl)

pub read_set-between_text :
    (kind : SetOpKind) (s : Text) → read_set (between_text kind ++ s) ≡ some (kind, s)
unfolding read_set strip lit
read_set-between_text union s = refl
read_set-between_text _ s = refl

pub After-between_text : (kind : SetOpKind) (s : Text) → After 8 (between_text kind ++ s)
After-between_text kind s =
    inr (closing, b' ' ∷ ((kind_text kind ++ lit " (") ++ s), unfold lit in refl, omega arith)
