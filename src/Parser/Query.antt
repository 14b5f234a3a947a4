-- ===== src/Parser/Query.antt =====
-- `ParsedQuery` and what it holds: include/query_optimizer.h.
pub mod WellFormed
use tubes_if3140_sistem_basi.Base.{ℕ, List, [], ◌∷◌, ◌++◌, Bool, true, false, Option, if◌then◌else◌}
use tubes_if3140_sistem_basi.Base.Key.{Text, text_key}
use tubes_if3140_sistem_basi.Base.Map.{Map, put}
use tubes_if3140_sistem_basi.Base.Set.{is_empty}
use tubes_if3140_sistem_basi.Types.{Value, Condition, minus_one}

pub record TableReference : Type 0 where
  pub table_name : Text
  pub alias : Text
  pub introduced_by_join : Bool

pub record JoinClause : Type 0 where
  pub join_type : Text
  pub table : TableReference
  pub left_expression : Text
  pub right_expression : Text
  pub is_natural : Bool

pub record ColumnDefinition : Type 0 where
  pub name : Text
  pub data_type : Text
  pub length : ℕ
  pub is_primary_key : Bool
  pub is_foreign_key : Bool
  pub references_table : Text
  pub references_column : Text

-- The parser's results. The plan is made of them by `plan_tree`, and the cost of the plan is not
-- modelled.
pub record ParsedQuery : Type 0 where
  pub original_query : Text
  pub query_type : Text
  pub select_columns : List Text
  pub select_aliases : List Text
  pub from_tables : List Text
  pub table_references : List TableReference
  pub table_aliases : Map Text Text
  pub where_conditions : List Condition
  pub join_pairs : List (Text × Text)
  pub join_clauses : List JoinClause
  pub order_by_column : Text
  pub order_ascending : Bool
  pub limit_value : ℕ
  pub set_values : Map Text Value
  pub insert_values : List Value
  pub insert_columns : List Text
  pub column_definitions : List ColumnDefinition
  pub target_table : Text

abbrev pub empty_query : ParsedQuery
empty_query = record {
  original_query = [];
  query_type = [];
  select_columns = [];
  select_aliases = [];
  from_tables = [];
  table_references = [];
  table_aliases = [];
  where_conditions = [];
  join_pairs = [];
  join_clauses = [];
  order_by_column = [];
  order_ascending = true;
  limit_value = minus_one;
  set_values = [];
  insert_values = [];
  insert_columns = [];
  column_definitions = [];
  target_table = [];
}

abbrev pub no_reference : TableReference
no_reference = record { table_name = []; alias = []; introduced_by_join = false }

-- `std::stod`, as the 64-bit pattern of its result; `none` where it throws.
pub record Decimals : Type 0 where
  pub stod : Text → Option ℕ

unfoldable pub add_alias : TableReference → Map Text Text → Map Text Text
add_alias ref aliases =
    if is_empty ref.alias
    then put ref.table_name ref.table_name aliases
    else put ref.alias ref.table_name (put ref.table_name ref.table_name aliases)

-- A reference with no name is left out.
unfoldable pub record_table_reference : TableReference → ParsedQuery → ParsedQuery
record_table_reference ref pq = if is_empty ref.table_name then pq else record pq {
  table_references = pq.table_references ++ (ref ∷ []);
  from_tables = pq.from_tables ++ (ref.table_name ∷ []);
  table_aliases = add_alias ref pq.table_aliases;
}
