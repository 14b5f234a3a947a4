-- ===== src/Parser/Dml/WellFormed.antt =====
-- What the statements of src/query_optimizer/parser/dml/dml_parser.cpp leave: well formed results with
-- at most one condition.
use tubes_if3140_sistem_basi.Base.{
  ℕ, ◌+◌, ◌≤◌, List, [], ◌∷◌, Option, none, some, length, length-append, ltb, Bool-cases,
  Option-cases, inl, inr, arith,
}
use tubes_if3140_sistem_basi.Base.Key.{Text}
use tubes_if3140_sistem_basi.Base.Set.{is_empty}
use tubes_if3140_sistem_basi.Base.Strings.{codes, to_upper, find_text, find_from, trim, drop}
use tubes_if3140_sistem_basi.Types.{Condition}
use tubes_if3140_sistem_basi.Parser.Query.{
  TableReference, ParsedQuery, Decimals, record_table_reference,
}
use tubes_if3140_sistem_basi.Parser.Query.WellFormed.{
  IsWellFormed, record_table_reference-IsWellFormed,
}
use tubes_if3140_sistem_basi.Parser.Split.{split_list}
use tubes_if3140_sistem_basi.Parser.Conditions.{parse_table_reference, parse_conditions}
use tubes_if3140_sistem_basi.Parser.Select.{between}
use tubes_if3140_sistem_basi.Parser.Dml.{
  section, front_condition, set_target, add_where, update_at, add_assignments, parse_update_query,
  bracket_columns, before_bracket, bracket_values, insert_at, parse_insert_query, delete_at,
  parse_delete_query,
}

-- Well formed, with at most n conditions.
abbrev pub IsBounded : ℕ → ParsedQuery → Type 0
IsBounded n pq = IsWellFormed pq × (length pq.where_conditions ≤ n)

record_table_reference-IsBounded :
    (n : ℕ) (ref : TableReference) (pq : ParsedQuery)
    → IsBounded n pq
    → IsBounded n (record_table_reference ref pq)
unfolding record_table_reference
record_table_reference-IsBounded n ref pq h =
    let formed = record_table_reference-IsWellFormed ref pq h.0 in
    elim (Bool-cases (is_empty ref.table_name)) [ inl e ↦ rw e h | inr e ↦ (formed, rw e h.1) ]

set_target-IsBounded :
    (n : ℕ) (name : Text) (pq : ParsedQuery) → IsBounded n pq → IsBounded n (set_target name pq)
unfolding set_target
set_target-IsBounded n name pq h =
    record_table_reference-IsBounded n (parse_table_reference name) pq h

length-front_condition : (cs : List Condition) → length (front_condition cs) ≤ 1
length-front_condition [] = omega arith
length-front_condition (c ∷ cs) = omega arith

bracket_columns-IsBounded :
    (n : ℕ) (open_at : Option ℕ) (s : Text) (pq : ParsedQuery)
    → IsBounded n pq
    → IsBounded n (bracket_columns open_at s pq)
bracket_columns-IsBounded n none s pq h = h
bracket_columns-IsBounded n (some open_at) s pq h =
    elim (Option-cases (find_from open_at (codes ")") s)) [
      | inl missing ↦ rw (missing, bracket_columns) h
      | inr (close_at, found) ↦ rw (found, bracket_columns) h
    ]

module _ (D : Decimals) where
  bracket_values-IsBounded :
      (n values_pos : ℕ) (query : Text) (pq : ParsedQuery)
      → IsBounded n pq
      → IsBounded n (bracket_values D values_pos query pq)
  unfolding bracket_values
  bracket_values-IsBounded n values_pos query pq h =
      elim (Option-cases (find_from values_pos (codes "(") query)) [
        | inl missing ↦ rw (missing, bracket_values) h
        | inr (open_at, found) ↦ elim (Option-cases (find_from open_at (codes ")") query)) [
          | inl missing ↦ rw (found, missing, bracket_values) h
          | inr (close_at, there) ↦ elim (Bool-cases (ltb open_at close_at)) [
            | inl e ↦ rw (found, there, bracket_values, e) h
            | inr e ↦ rw (found, there, bracket_values, e) h
          ]
        ]
      ]

  insert_at-IsBounded :
      (n into_pos values_pos : ℕ) (query : Text) (pq : ParsedQuery)
      → IsBounded n pq
      → IsBounded n (insert_at D into_pos values_pos query pq)
  unfolding insert_at
  insert_at-IsBounded n into_pos values_pos query pq h =
      let target = trim (between (into_pos + 4) values_pos query) in
      let open_at = find_text (codes "(") target in
      let targeted = set_target (before_bracket open_at target) pq in
      bracket_values-IsBounded n values_pos query (bracket_columns open_at target targeted) (
        bracket_columns-IsBounded n open_at target targeted
          (set_target-IsBounded n (before_bracket open_at target) pq h))

  pub parse_insert_query-IsBounded :
      (n : ℕ) (query : Text) (pq : ParsedQuery)
      → IsBounded n pq
      → IsBounded n (parse_insert_query D query pq)
  unfolding parse_insert_query
  parse_insert_query-IsBounded n query pq h =
      elim (Option-cases (find_text (codes "INTO") (to_upper query))) [
        | inl missing ↦ rw (missing, parse_insert_query) h
        | inr (into_pos, found) ↦
            elim (Option-cases (find_from into_pos (codes "VALUES") (to_upper query))) [
              | inl missing ↦ rw (found, missing, parse_insert_query) h
              | inr (values_pos, there) ↦
                  rw (found, there, parse_insert_query)
                    (insert_at-IsBounded n into_pos values_pos query pq h)
            ]
      ]

  add_where-IsBounded :
      (n : ℕ) (pos : Option ℕ) (query : Text) (pq : ParsedQuery)
      → IsBounded n pq
      → IsBounded (n + 1) (add_where D pos query pq)
  unfolding add_where
  add_where-IsBounded n none query pq h = (h.0, omega (arith, h.1))
  add_where-IsBounded n (some pos) query pq h =
      let kept = front_condition (parse_conditions D (drop (pos + 5) query)) in
      (
        h.0,
        omega (
          arith,
          h.1,
          length-append pq.where_conditions kept,
          length-front_condition (parse_conditions D (drop (pos + 5) query)),
        ),
      )

  update_at-IsBounded :
      (n update_pos set_pos : ℕ) (query : Text) (pq : ParsedQuery)
      → IsBounded n pq
      → IsBounded (n + 1) (update_at D update_pos set_pos query pq)
  unfolding update_at
  update_at-IsBounded n update_pos set_pos query pq h =
      let where_pos = find_from set_pos (codes "WHERE") (to_upper query) in
      let name = between (update_pos + 6) set_pos query in
      let targeted = set_target name pq in
      add_where-IsBounded n where_pos query
        (record targeted {
          set_values =
              add_assignments D (split_list (section (set_pos + 3) where_pos query) b',')
                targeted.set_values;
        })
        (set_target-IsBounded n name pq h)

  pub parse_update_query-IsBounded :
      (n : ℕ) (query : Text) (pq : ParsedQuery)
      → IsBounded n pq
      → IsBounded (n + 1) (parse_update_query D query pq)
  unfolding parse_update_query
  parse_update_query-IsBounded n query pq h =
      let unchanged : IsBounded (n + 1) pq = (h.0, omega (arith, h.1)) in
      elim (Option-cases (find_text (codes "UPDATE") (to_upper query))) [
        | inl missing ↦ rw (missing, parse_update_query) unchanged
        | inr (update_pos, found) ↦
            elim (Option-cases (find_from update_pos (codes "SET") (to_upper query))) [
              | inl missing ↦ rw (found, missing, parse_update_query) unchanged
              | inr (set_pos, there) ↦
                  rw (found, there, parse_update_query)
                    (update_at-IsBounded n update_pos set_pos query pq h)
            ]
      ]

  delete_at-IsBounded :
      (n from_pos : ℕ) (query : Text) (pq : ParsedQuery)
      → IsBounded n pq
      → IsBounded (n + 1) (delete_at D from_pos query pq)
  unfolding delete_at
  delete_at-IsBounded n from_pos query pq h =
      let where_pos = find_from from_pos (codes "WHERE") (to_upper query) in
      let name = section (from_pos + 4) where_pos query in
      add_where-IsBounded n where_pos query (set_target name pq) (set_target-IsBounded n name pq h)

  pub parse_delete_query-IsBounded :
      (n : ℕ) (query : Text) (pq : ParsedQuery)
      → IsBounded n pq
      → IsBounded (n + 1) (parse_delete_query D query pq)
  unfolding parse_delete_query
  parse_delete_query-IsBounded n query pq h =
      elim (Option-cases (find_text (codes "FROM") (to_upper query))) [
        | inl missing ↦ rw (missing, parse_delete_query) (h.0, omega (arith, h.1))
        | inr (from_pos, found) ↦
            rw (found, parse_delete_query) (delete_at-IsBounded n from_pos query pq h)
      ]
