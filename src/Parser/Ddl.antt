-- ===== src/Parser/Ddl.antt =====
-- src/query_optimizer/parser/ddl/ddl_parser.cpp
use tubes_if3140_sistem_basi.Base.{
  ℕ, ◌+◌, List, [], ◌∷◌, ◌++◌, Bool, true, false, ◌||◌, ltb, if◌then◌else◌, Option, none, some,
}
use tubes_if3140_sistem_basi.Base.Key.{Text, text_same}
use tubes_if3140_sistem_basi.Base.Set.{is_empty}
use tubes_if3140_sistem_basi.Base.Strings.{
  codes, is_space, to_upper, take, drop, starts_with, find_text, find_from, rfind_char, trim,
  skip_while,
}
use tubes_if3140_sistem_basi.Base.Numbers.{stoi}
use tubes_if3140_sistem_basi.Parser.Query.{ColumnDefinition, ParsedQuery}
use tubes_if3140_sistem_basi.Parser.Split.{split_list, split_top_level}
use tubes_if3140_sistem_basi.Parser.Select.{between}

abbrev pub or_zero : Option ℕ → ℕ
or_zero none = 0
or_zero (some n) = n

-- The text between the first `(` and the first `)` behind it.
unfoldable pub inside_brackets : Text → Option Text
inside_brackets s = elim (find_text (codes "(") s) [
  | none ↦ none
  | some open_at ↦ elim (find_from open_at (codes ")") s) [
    | none ↦ none
    | some close_at ↦ if ltb open_at close_at then some (between (open_at + 1) close_at s) else none
  ]
]

-- The text before the first `(`, or all of it.
unfoldable pub before_brackets : Text → Text
before_brackets s = elim (find_text (codes "(") s) [ none ↦ s | some open_at ↦ take open_at s ]

-- A type and its length, which is 0 where none can be read.
unfoldable pub extract_length : Text → Text × ℕ
extract_length token = (
  before_brackets token,
  elim (inside_brackets token) [ none ↦ 0 | some number ↦ or_zero (stoi number) ],
)

abbrev pub same_name : Text → Text → Bool
same_name a b = text_same (to_upper a) (to_upper b)

unfoldable pub mark_primary : Text → List ColumnDefinition → List ColumnDefinition
mark_primary pk [] = []
mark_primary pk (column ∷ rest) =
    (if same_name column.name (trim pk) then record column { is_primary_key = true } else column)
    ∷ mark_primary pk rest

unfoldable pub apply_primary_keys : List Text → List ColumnDefinition → List ColumnDefinition
apply_primary_keys [] columns = columns
apply_primary_keys (pk ∷ pks) columns = apply_primary_keys pks (mark_primary pk columns)

unfoldable pub mark_foreign : Text → Text → Text → List ColumnDefinition → List ColumnDefinition
mark_foreign source table target [] = []
mark_foreign source table target (column ∷ rest) =
    (if same_name column.name source
      then record column {
        is_foreign_key = true;
        references_table = trim table;
        references_column = target;
      }
      else column)
    ∷ mark_foreign source table target rest

abbrev pub first_trimmed : List Text → Text
first_trimmed [] = []
first_trimmed (c ∷ cs) = trim c

-- Only the first column of the key and of the target count.
unfoldable pub apply_foreign_key :
    List Text → Text → List Text → List ColumnDefinition → List ColumnDefinition
apply_foreign_key [] table targets columns = columns
apply_foreign_key (source ∷ sources) table targets columns =
    mark_foreign (trim source) table (first_trimmed targets) columns

abbrev pub or_nothing : Option Text → Text
or_nothing none = []
or_nothing (some s) = s

-- `PRIMARY KEY (...)`
unfoldable pub primary_clause : Text → ParsedQuery → ParsedQuery
primary_clause s pq = elim (inside_brackets s) [
  | none ↦ pq
  | some inside ↦ record pq {
    column_definitions = apply_primary_keys (split_list inside b',') pq.column_definitions;
  }
]

-- `FOREIGN KEY (...) REFERENCES table (...)`
unfoldable pub foreign_clause : Text → ParsedQuery → ParsedQuery
foreign_clause s pq = elim (inside_brackets s) [
  | none ↦ pq
  | some columns ↦ elim (find_text (codes "REFERENCES") (to_upper s)) [
    | none ↦ pq
    | some ref_pos ↦
        let target = trim (drop (ref_pos + 10) s) in
        record pq {
          column_definitions =
              apply_foreign_key (split_list columns b',') (before_brackets target)
                (split_list (or_nothing (inside_brackets target)) b',') pq.column_definitions;
        }
  ]
]

-- `iss >> word`, and what is left of the stream.
unfoldable pub take_until_space : Text → Text × Text
take_until_space [] = ([], [])
take_until_space (c ∷ s) =
    let rest = take_until_space s in if is_space c then ([], c ∷ s) else (c ∷ rest.0, rest.1)

abbrev pub next_word : Text → Text × Text
next_word s = take_until_space (skip_while is_space s)

-- `std::getline(iss, remainder)`
unfoldable pub take_line : Text → Text
take_line [] = []
take_line (c ∷ s) =
    let rest = take_line s in if text_same (c ∷ []) (codes "\n") then [] else c ∷ rest

abbrev pub references_column_of : Option Text → ColumnDefinition → ColumnDefinition
references_column_of none column = column
references_column_of (some inside) column = record column {
  references_column = inside;
  is_foreign_key = true;
}

-- A column with the key and the reference that stand behind its type.
unfoldable pub column_options : Text → ColumnDefinition → ColumnDefinition
column_options remainder column =
    let upper = to_upper remainder in
    let keyed : ColumnDefinition = elim (find_text (codes "PRIMARY KEY") upper) [
      | none ↦ column
      | some pos ↦ record column { is_primary_key = true }
    ] in
    elim (find_text (codes "REFERENCES") upper) [
      | none ↦ keyed
      | some ref_pos ↦
          let target = trim (drop (ref_pos + 10) remainder) in
          references_column_of (inside_brackets target)
            (record keyed { references_table = before_brackets target })
    ]

abbrev pub new_column : Text → Text × ℕ → ColumnDefinition
new_column name (type, size) = record {
  name = name;
  data_type = type;
  length = size;
  is_primary_key = false;
  is_foreign_key = false;
  references_table = [];
  references_column = [];
}

unfoldable pub plain_definition : Text → ParsedQuery → ParsedQuery
plain_definition s pq =
    let name = next_word s in
    let type = next_word name.1 in
    if is_empty name.0 || is_empty type.0 then pq else record pq {
      column_definitions =
          pq.column_definitions
          ++ (column_options (take_line type.1) (new_column name.0 (extract_length type.0)) ∷ []);
    }

unfoldable pub parse_column_definition : Text → ParsedQuery → ParsedQuery
parse_column_definition definition pq =
    let s = trim definition in
    if is_empty s
    then pq
    else if starts_with (codes "PRIMARY KEY") (to_upper s)
    then primary_clause s pq
    else if starts_with (codes "FOREIGN KEY") (to_upper s)
    then foreign_clause s pq
    else plain_definition s pq

unfoldable pub parse_definitions : List Text → ParsedQuery → ParsedQuery
parse_definitions [] pq = pq
parse_definitions (d ∷ ds) pq = parse_definitions ds (parse_column_definition d pq)

-- TABLE, the first `(` behind it and the last `)` of the query.
unfoldable pub create_at : ℕ → ℕ → ℕ → Text → ParsedQuery → ParsedQuery
create_at table_pos open_at close_at query pq =
    if ltb open_at close_at
    then parse_definitions (split_top_level (between (open_at + 1) close_at query))
        (record pq { target_table = trim (between (table_pos + 5) open_at query) })
    else pq

unfoldable pub parse_create_table : Text → ParsedQuery → ParsedQuery
parse_create_table query pq = elim (find_text (codes "TABLE") (to_upper query)) [
  | none ↦ pq
  | some table_pos ↦ elim (find_from table_pos (codes "(") query) [
    | none ↦ pq
    | some open_at ↦ elim (rfind_char b')' query) [
      | none ↦ pq
      | some close_at ↦ create_at table_pos open_at close_at query pq
    ]
  ]
]

unfoldable pub parse_drop_table : Text → ParsedQuery → ParsedQuery
parse_drop_table query pq = elim (find_text (codes "TABLE") (to_upper query)) [
  | none ↦ pq
  | some table_pos ↦ record pq { target_table = trim (drop (table_pos + 5) query) }
]
