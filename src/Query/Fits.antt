-- ===== src/Query/Fits.antt =====
-- The statements of Query that its reader is shown to read, and their lists and parts that may be missing.
use iron_query.Prelude.{ℕ, Text, ◌≡◌, ◌++◌, Option, none, some}
use iron_query.Syntax.{Tree}
use iron_query.Syntax.Stops.{IsWord}
use iron_query.Query.{
  Distinct, distinct_on, Item, Term, Body, from_table, from_query, combined, QueryTree,
}
use iron_query.Query.Grammar.{Reader}
use iron_query.Query.Parts.{ListFits, MayBeRead}
use iron_query.Query.Tokens.{IsAlias, AliasOk}
use iron_query.Query.Terms.{Fits, JoinFits}

abbrev pub MayFit : {A : Type 0} → (A → Type 0) → Option A → Type 0
MayFit P none = Unit
MayFit P (some a) = P a

module _ (fuel : ℕ) where
  abbrev pub ItemFits : Item Tree → Type 0
  ItemFits (t, alias) = Fits fuel t × AliasOk alias

  abbrev pub TermFits : Term Tree → Type 0
  TermFits (t, direction, nulls) = Fits fuel t

  abbrev pub DistinctFits : Distinct Tree → Type 0
  DistinctFits (distinct_on ts) = ListFits fuel (Fits fuel) ts
  DistinctFits d = Unit

  pub record BodyFits (b : Body Tree Tree) : Type 0 where
    pub distinct : DistinctFits b.distinct
    pub items : ListFits fuel ItemFits b.items
    pub condition : MayFit (Fits fuel) b.condition
    pub groups : MayFit (ListFits fuel (Fits fuel)) b.groups
    pub having : MayFit (Fits fuel) b.having
    pub orders : MayFit (ListFits fuel TermFits) b.orders

  -- Each part of a statement is fit to be read.
  abbrev pub QueryFits : QueryTree → Type 0
  QueryFits (from_table (name, alias) joined b) =
      IsWord name × AliasOk alias × JoinFits fuel joined × BodyFits b
  QueryFits (from_query q alias b) = QueryFits q × IsAlias alias × BodyFits b
  QueryFits (combined kind q r) = QueryFits q × QueryFits r

  pub MayBeRead-Fits :
      {A : Type 0} (one : Reader A) (shown : A → Text) (P : A → Type 0) (o : Option A) (rest : Text)
      → ((a : A) → P a → one (shown a ++ rest) ≡ some (a, rest))
      → MayFit P o
      → MayBeRead one shown o rest
  MayBeRead-Fits one shown P none rest f h = tt
  MayBeRead-Fits one shown P (some a) rest f h = f a h
