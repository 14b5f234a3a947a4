-- ===== src/Parser/Dml.antt =====
-- src/query_optimizer/parser/dml/dml_parser.cpp
pub mod WellFormed
use tubes_if3140_sistem_basi.Base.{
  ℕ, ◌+◌, ◌-◌, List, [], ◌∷◌, ◌++◌, Bool, true, false, ltb, length, if◌then◌else◌, Option, none,
  some, map,
}
use tubes_if3140_sistem_basi.Base.Key.{Text, text_key}
use tubes_if3140_sistem_basi.Base.Map.{Map, put}
use tubes_if3140_sistem_basi.Base.Strings.{
  codes, to_upper, take, drop, substr, find_text, find_from, split_at_text, trim,
}
use tubes_if3140_sistem_basi.Types.{Value, Condition}
use tubes_if3140_sistem_basi.Parser.Query.{ParsedQuery, Decimals, record_table_reference}
use tubes_if3140_sistem_basi.Parser.Split.{split_list}
use tubes_if3140_sistem_basi.Parser.Conditions.{
  parse_table_reference, parse_literal, parse_conditions,
}
use tubes_if3140_sistem_basi.Parser.Select.{between}

-- The text from a position to another, or to the end.
abbrev pub section : ℕ → Option ℕ → Text → Text
section from none s = drop from s
section from (some end) s = between from end s

-- The first condition, if there is one.
abbrev pub front_condition : List Condition → List Condition
front_condition [] = []
front_condition (c ∷ cs) = c ∷ []

-- The target table and its reference.
unfoldable pub set_target : Text → ParsedQuery → ParsedQuery
set_target name pq = record (record_table_reference (parse_table_reference name) pq) {
  target_table = (parse_table_reference name).table_name;
}

-- The names between the brackets.
abbrev pub bracket_columns : Option ℕ → Text → ParsedQuery → ParsedQuery
bracket_columns none s pq = pq
bracket_columns (some open_at) s pq = elim (find_from open_at (codes ")") s) [
  | none ↦ pq
  | some close_at ↦ record pq {
    insert_columns = split_list (between (open_at + 1) close_at s) b',';
  }
]

abbrev pub before_bracket : Option ℕ → Text → Text
before_bracket none s = s
before_bracket (some open_at) s = take open_at s

module _ (D : Decimals) where
  -- Of the conditions behind WHERE only the first is kept.
  unfoldable pub add_where : Option ℕ → Text → ParsedQuery → ParsedQuery
  add_where none query pq = pq
  add_where (some pos) query pq = record pq {
    where_conditions =
        pq.where_conditions ++ front_condition (parse_conditions D (drop (pos + 5) query));
  }

  abbrev pub put_value : Option (Text × Text) → Map Text Value → Map Text Value
  put_value none m = m
  put_value (some (column, value)) m = put (trim column) (parse_literal D (trim value)) m

  -- An assignment without `=` is passed over.
  unfoldable pub add_assignments : List Text → Map Text Value → Map Text Value
  add_assignments [] m = m
  add_assignments (a ∷ rest) m = add_assignments rest (put_value (split_at_text (codes "=") a) m)

  -- UPDATE at one position, SET at another.
  unfoldable pub update_at : ℕ → ℕ → Text → ParsedQuery → ParsedQuery
  update_at update_pos set_pos query pq =
      let where_pos = find_from set_pos (codes "WHERE") (to_upper query) in
      let targeted = set_target (between (update_pos + 6) set_pos query) pq in
      add_where where_pos query (record targeted {
        set_values =
            add_assignments (split_list (section (set_pos + 3) where_pos query) b',')
              targeted.set_values;
      })

  unfoldable pub parse_update_query : Text → ParsedQuery → ParsedQuery
  parse_update_query query pq = elim (find_text (codes "UPDATE") (to_upper query)) [
    | none ↦ pq
    | some update_pos ↦ elim (find_from update_pos (codes "SET") (to_upper query)) [
      | none ↦ pq
      | some set_pos ↦ update_at update_pos set_pos query pq
    ]
  ]

  -- The literals between the brackets behind VALUES.
  unfoldable pub bracket_values : ℕ → Text → ParsedQuery → ParsedQuery
  bracket_values values_pos query pq = elim (find_from values_pos (codes "(") query) [
    | none ↦ pq
    | some open_at ↦ elim (find_from open_at (codes ")") query) [
      | none ↦ pq
      | some close_at ↦
          if ltb open_at close_at
          then record pq {
            insert_values =
                pq.insert_values
                ++ map (parse_literal D) (split_list (between (open_at + 1) close_at query) b',');
          }
          else pq
    ]
  ]

  unfoldable pub insert_at : ℕ → ℕ → Text → ParsedQuery → ParsedQuery
  insert_at into_pos values_pos query pq =
      let target = trim (between (into_pos + 4) values_pos query) in
      let open_at = find_text (codes "(") target in
      bracket_values values_pos query
        (bracket_columns open_at target (set_target (before_bracket open_at target) pq))

  unfoldable pub parse_insert_query : Text → ParsedQuery → ParsedQuery
  parse_insert_query query pq = elim (find_text (codes "INTO") (to_upper query)) [
    | none ↦ pq
    | some into_pos ↦ elim (find_from into_pos (codes "VALUES") (to_upper query)) [
      | none ↦ pq
      | some values_pos ↦ insert_at into_pos values_pos query pq
    ]
  ]

  unfoldable pub delete_at : ℕ → Text → ParsedQuery → ParsedQuery
  delete_at from_pos query pq =
      let where_pos = find_from from_pos (codes "WHERE") (to_upper query) in
      add_where where_pos query (set_target (section (from_pos + 4) where_pos query) pq)

  unfoldable pub parse_delete_query : Text → ParsedQuery → ParsedQuery
  parse_delete_query query pq = elim (find_text (codes "FROM") (to_upper query)) [
    | none ↦ pq
    | some from_pos ↦ delete_at from_pos query pq
  ]
