-- ===== src/Parser/Sql/WellFormed.antt =====
-- What `sql_parser` of src/query_optimizer/parser/sql_parser.cpp returns: every result is well formed,
-- and only a SELECT has more than one condition.
use tubes_if3140_sistem_basi.Base.{
  ℕ, ◌+◌, ◌≤◌, List, [], ◌∷◌, Bool, true, false, ◌||◌, if◌then◌else◌, ◌≡◌, refl, length, ltb,
  Bool-cases, Option-cases, inl, inr, arith,
}
use tubes_if3140_sistem_basi.Base.Key.{Text, text_same}
use tubes_if3140_sistem_basi.Base.Set.{is_empty}
use tubes_if3140_sistem_basi.Base.Strings.{
  codes, to_upper, find_text, find_from, rfind_char, trim, starts_with,
}
use tubes_if3140_sistem_basi.Parser.Query.{ParsedQuery, Decimals, empty_query}
use tubes_if3140_sistem_basi.Parser.Query.WellFormed.{IsWellFormed}
use tubes_if3140_sistem_basi.Parser.Split.{split_top_level}
use tubes_if3140_sistem_basi.Parser.Select.{between}
use tubes_if3140_sistem_basi.Parser.Select.WellFormed.{parse_select_query-IsWellFormed}
use tubes_if3140_sistem_basi.Parser.Dml.{parse_update_query, parse_insert_query, parse_delete_query}
use tubes_if3140_sistem_basi.Parser.Dml.WellFormed.{
  IsBounded, parse_update_query-IsBounded, parse_insert_query-IsBounded,
  parse_delete_query-IsBounded,
}
use tubes_if3140_sistem_basi.Parser.Ddl.{
  inside_brackets, primary_clause, foreign_clause, plain_definition, next_word,
  parse_column_definition, parse_definitions, create_at, parse_create_table, parse_drop_table,
}
use tubes_if3140_sistem_basi.Parser.Sql.{detect_query_type, normalize, parse_as, sql_parser}

primary_clause-IsBounded :
    (n : ℕ) (s : Text) (pq : ParsedQuery) → IsBounded n pq → IsBounded n (primary_clause s pq)
unfolding primary_clause
primary_clause-IsBounded n s pq h = elim (Option-cases (inside_brackets s)) [
  | inl missing ↦ rw (missing, primary_clause) h
  | inr (inside, found) ↦ rw (found, primary_clause) h
]

foreign_clause-IsBounded :
    (n : ℕ) (s : Text) (pq : ParsedQuery) → IsBounded n pq → IsBounded n (foreign_clause s pq)
unfolding foreign_clause
foreign_clause-IsBounded n s pq h = elim (Option-cases (inside_brackets s)) [
  | inl missing ↦ rw (missing, foreign_clause) h
  | inr (columns, found) ↦ elim (Option-cases (find_text (codes "REFERENCES") (to_upper s))) [
    | inl missing ↦ rw (found, missing, foreign_clause) h
    | inr (ref_pos, there) ↦ rw (found, there, foreign_clause) h
  ]
]

plain_definition-IsBounded :
    (n : ℕ) (s : Text) (pq : ParsedQuery) → IsBounded n pq → IsBounded n (plain_definition s pq)
unfolding plain_definition
plain_definition-IsBounded n s pq h =
    elim (Bool-cases (is_empty (next_word s).0 || is_empty (next_word (next_word s).1).0)) [
      | inl e ↦ rw e h
      | inr e ↦ rw e h
    ]

parse_column_definition-IsBounded :
    (n : ℕ) (d : Text) (pq : ParsedQuery)
    → IsBounded n pq
    → IsBounded n (parse_column_definition d pq)
unfolding parse_column_definition
parse_column_definition-IsBounded n d pq h =
    let s = trim d in
    elim (Bool-cases (is_empty s)) [
      | inl e ↦ rw e h
      | inr e ↦ elim (Bool-cases (starts_with (codes "PRIMARY KEY") (to_upper s))) [
        | inl p ↦ rw (e, p) (primary_clause-IsBounded n s pq h)
        | inr p ↦ elim (Bool-cases (starts_with (codes "FOREIGN KEY") (to_upper s))) [
          | inl f ↦ rw (e, p, f) (foreign_clause-IsBounded n s pq h)
          | inr f ↦ rw (e, p, f) (plain_definition-IsBounded n s pq h)
        ]
      ]
    ]

parse_definitions-IsBounded :
    (n : ℕ) (ds : List Text) (pq : ParsedQuery)
    → IsBounded n pq
    → IsBounded n (parse_definitions ds pq)
unfolding parse_definitions
parse_definitions-IsBounded n [] pq h = h
parse_definitions-IsBounded n (d ∷ ds) pq h =
    parse_definitions-IsBounded n ds (parse_column_definition d pq)
      (parse_column_definition-IsBounded n d pq h)

create_at-IsBounded :
    (n table_pos open_at close_at : ℕ) (query : Text) (pq : ParsedQuery)
    → IsBounded n pq
    → IsBounded n (create_at table_pos open_at close_at query pq)
unfolding create_at
create_at-IsBounded n table_pos open_at close_at query pq h =
    elim (Bool-cases (ltb open_at close_at)) [
      | inl e ↦ rw e (
          parse_definitions-IsBounded n (split_top_level (between (open_at + 1) close_at query))
            (record pq { target_table = trim (between (table_pos + 5) open_at query) }) h)
      | inr e ↦ rw e h
    ]

parse_create_table-IsBounded :
    (n : ℕ) (query : Text) (pq : ParsedQuery)
    → IsBounded n pq
    → IsBounded n (parse_create_table query pq)
unfolding parse_create_table
parse_create_table-IsBounded n query pq h =
    elim (Option-cases (find_text (codes "TABLE") (to_upper query))) [
      | inl missing ↦ rw (missing, parse_create_table) h
      | inr (table_pos, found) ↦ elim (Option-cases (find_from table_pos (codes "(") query)) [
        | inl missing ↦ rw (found, missing, parse_create_table) h
        | inr (open_at, opened) ↦ elim (Option-cases (rfind_char b')' query)) [
          | inl missing ↦ rw (found, opened, missing, parse_create_table) h
          | inr (close_at, closed) ↦
              rw (found, opened, closed, parse_create_table)
                (create_at-IsBounded n table_pos open_at close_at query pq h)
        ]
      ]
    ]

parse_drop_table-IsBounded :
    (n : ℕ) (query : Text) (pq : ParsedQuery)
    → IsBounded n pq
    → IsBounded n (parse_drop_table query pq)
unfolding parse_drop_table
parse_drop_table-IsBounded n query pq h =
    elim (Option-cases (find_text (codes "TABLE") (to_upper query))) [
      | inl missing ↦ rw (missing, parse_drop_table) h
      | inr (table_pos, found) ↦ rw (found, parse_drop_table) h
    ]

-- Both branches of a conditional.
if-both : {A : Type 0} (P : A → Type 0) (b : Bool) (x y : A) → P x → P y → P (if b then x else y)
if-both P true x y p q = p
if-both P false x y p q = q

module _ (D : Decimals) where
  -- Any statement but a SELECT.
  parse_as-IsBounded :
      (type query : Text) (pq : ParsedQuery)
      → text_same type (codes "SELECT") ≡ false
      → IsBounded 0 pq
      → IsBounded 1 (parse_as D type query pq)
  unfolding parse_as
  parse_as-IsBounded type query pq t h =
      let raise : (r : ParsedQuery) → IsBounded 0 r → IsBounded 1 r =
        λ r k. (k.0, omega (arith, k.1)) in
      let created = parse_create_table query pq in
      let dropped = parse_drop_table query pq in
      let defined = if text_same type (codes "DROP") then dropped else pq in
      let tabled = if text_same type (codes "CREATE") then created else defined in
      let deleted =
        if text_same type (codes "DELETE") then parse_delete_query D query pq else tabled in
      let inserted =
        if text_same type (codes "INSERT") then parse_insert_query D query pq else deleted in
      rw t (
        if-both (IsBounded 1) (text_same type (codes "UPDATE")) (parse_update_query D query pq)
          inserted (parse_update_query-IsBounded D 0 query pq h)
          (if-both (IsBounded 1) (text_same type (codes "INSERT")) (parse_insert_query D query pq)
            deleted
            (raise (parse_insert_query D query pq) (parse_insert_query-IsBounded D 0 query pq h))
            (if-both (IsBounded 1) (text_same type (codes "DELETE")) (parse_delete_query D query pq)
              tabled (parse_delete_query-IsBounded D 0 query pq h)
              (if-both (IsBounded 1) (text_same type (codes "CREATE")) created defined
                (raise created (parse_create_table-IsBounded 0 query pq h))
                (if-both (IsBounded 1) (text_same type (codes "DROP")) dropped pq
                  (raise dropped (parse_drop_table-IsBounded 0 query pq h)) (raise pq h))))))

  parse_as-IsWellFormed :
      (type query : Text) (pq : ParsedQuery)
      → IsBounded 0 pq
      → IsWellFormed (parse_as D type query pq)
  unfolding parse_as
  parse_as-IsWellFormed type query pq h = elim (Bool-cases (text_same type (codes "SELECT"))) [
    | inl e ↦ rw e (parse_select_query-IsWellFormed D query pq h.0)
    | inr e ↦ (parse_as-IsBounded type query pq e h).0
  ]

  -- Whatever the query is, in the result the table names are those of the references, every reference
  -- has a name and its name and its alias can be looked up, every column has its alias, and the pairs
  -- of expressions are those of the joins.
  pub sql_parser-IsWellFormed : (query : Text) → IsWellFormed (sql_parser D query)
  unfolding sql_parser
  sql_parser-IsWellFormed query =
      let s = normalize query in
      parse_as-IsWellFormed (detect_query_type s) s
        (record empty_query { original_query = s; query_type = detect_query_type s })
        ((refl, tt, refl, refl), omega arith)

  -- A query that is no SELECT has at most one condition in its result, however many stand behind its
  -- WHERE.
  pub sql_parser-one_condition :
      (query : Text)
      → text_same (detect_query_type (normalize query)) (codes "SELECT") ≡ false
      → length (sql_parser D query).where_conditions ≤ 1
  unfolding sql_parser
  sql_parser-one_condition query h =
      let s = normalize query in
      (parse_as-IsBounded (detect_query_type s) s
        (record empty_query { original_query = s; query_type = detect_query_type s }) h
        ((refl, tt, refl, refl), omega arith)).1
