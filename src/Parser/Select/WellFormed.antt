-- ===== src/Parser/Select/WellFormed.antt =====
-- A SELECT that src/query_optimizer/parser/dml/select_parser.cpp reads is well formed.
use tubes_if3140_sistem_basi.Base.{
  ℕ, zero, suc, ◌+◌, List, [], ◌∷◌, ◌++◌, Bool, true, false, ◌||◌, if◌then◌else◌, Option, none,
  some, refl, length, ltb, Bool-cases, Option-cases, inl, inr,
}
use tubes_if3140_sistem_basi.Base.Key.{Text}
use tubes_if3140_sistem_basi.Base.Set.{is_empty}
use tubes_if3140_sistem_basi.Base.Strings.{
  codes, to_upper, find_text, find_from, trim, words, drop, split_at_text,
}
use tubes_if3140_sistem_basi.Parser.Query.{ParsedQuery, Decimals, record_table_reference}
use tubes_if3140_sistem_basi.Parser.Query.WellFormed.{
  IsWellFormed, record_table_reference-IsWellFormed, add_join-IsWellFormed, add_column-IsWellFormed,
}
use tubes_if3140_sistem_basi.Parser.Split.{split_list, tokenize, join_tokens}
use tubes_if3140_sistem_basi.Parser.Conditions.{
  parse_table_reference, order_words, parse_order_by, parse_limit,
}
use tubes_if3140_sistem_basi.Parser.Select.{
  span_until, add_tables, JoinHead, join_head, is_on, is_keyword, skip_on, join_pair, between,
  nearer, or_star, parse_join, parse_joins, parse_from_clause, parse_column, add_columns,
  where_clause, order_clause, limit_clause, parse_parts, from_select, parse_select_query,
}

add_tables-IsWellFormed :
    (joined : Bool) (tables : List Text) (pq : ParsedQuery)
    → IsWellFormed pq
    → IsWellFormed (add_tables joined tables pq)
unfolding add_tables
add_tables-IsWellFormed joined [] pq h = h
add_tables-IsWellFormed joined (t ∷ ts) pq h =
    let ref = record (parse_table_reference t) { introduced_by_join = joined } in
    add_tables-IsWellFormed joined ts (record_table_reference ref pq)
      (record_table_reference-IsWellFormed ref pq h)

parse_join-IsWellFormed :
    (head : JoinHead) (pq : ParsedQuery) → IsWellFormed pq → IsWellFormed (parse_join head pq).0
unfolding parse_join
parse_join-IsWellFormed head pq h =
    let table = span_until (λ t. is_on head.natural_join t || is_keyword t) head.rest in
    let ref = record (parse_table_reference (join_tokens table.0)) { introduced_by_join = true } in
    let condition = span_until is_keyword (skip_on head.natural_join table.1) in
    let pair : Text × Text =
      if head.natural_join
      then ([], [])
      else join_pair (split_at_text (codes "=") (join_tokens condition.0)) in
    add_join-IsWellFormed (record_table_reference ref pq)
      (record {
        join_type = head.join_type;
        table = ref;
        left_expression = pair.0;
        right_expression = pair.1;
        is_natural = head.natural_join;
      })
      (record_table_reference-IsWellFormed ref pq h)

parse_joins-IsWellFormed :
    (fuel : ℕ) (ts : List Text) (pq : ParsedQuery)
    → IsWellFormed pq
    → IsWellFormed (parse_joins fuel ts pq)
unfolding parse_joins
parse_joins-IsWellFormed zero ts pq h = h
parse_joins-IsWellFormed (suc fuel) [] pq h = h
parse_joins-IsWellFormed (suc fuel) (t ∷ ts) pq h =
    let head = join_head (t ∷ ts) false (codes "INNER") in
    let next = parse_join head pq in
    let joined = parse_joins-IsWellFormed fuel next.1 next.0 (parse_join-IsWellFormed head pq h) in
    elim (Bool-cases (is_empty head.rest)) [ inl e ↦ rw e h | inr e ↦ rw e joined ]

parse_from_clause-IsWellFormed :
    (clause : Text) (pq : ParsedQuery)
    → IsWellFormed pq
    → IsWellFormed (parse_from_clause clause pq)
unfolding parse_from_clause
parse_from_clause-IsWellFormed clause pq h =
    let tokens = tokenize clause in
    let base = span_until is_keyword tokens in
    let tables = split_list (join_tokens base.0) b',' in
    parse_joins-IsWellFormed (length tokens) base.1 (add_tables false tables pq)
      (add_tables-IsWellFormed false tables pq h)

add_columns-IsWellFormed :
    (cols : List Text) (pq : ParsedQuery) → IsWellFormed pq → IsWellFormed (add_columns cols pq)
unfolding add_columns
add_columns-IsWellFormed [] pq h = h
add_columns-IsWellFormed (c ∷ cs) pq h =
    add_columns-IsWellFormed cs
      (record pq {
        select_columns = pq.select_columns ++ ((parse_column c).0 ∷ []);
        select_aliases = pq.select_aliases ++ ((parse_column c).1 ∷ []);
      })
      (add_column-IsWellFormed pq (parse_column c).0 (parse_column c).1 h)

order_words-IsWellFormed :
    (ws : List Text) (pq : ParsedQuery) → IsWellFormed pq → IsWellFormed (order_words ws pq)
unfolding order_words
order_words-IsWellFormed [] pq h = h
order_words-IsWellFormed (c ∷ []) pq h = h
order_words-IsWellFormed (c ∷ d ∷ ws) pq h = h

parse_order_by-IsWellFormed :
    (clause : Text) (pq : ParsedQuery) → IsWellFormed pq → IsWellFormed (parse_order_by clause pq)
unfolding parse_order_by
parse_order_by-IsWellFormed clause pq h = elim (Bool-cases (is_empty (trim clause))) [
  | inl e ↦ rw e h
  | inr e ↦ rw e (order_words-IsWellFormed (words (trim clause)) pq h)
]

parse_limit-IsWellFormed :
    (clause : Text) (pq : ParsedQuery) → IsWellFormed pq → IsWellFormed (parse_limit clause pq)
unfolding parse_limit
parse_limit-IsWellFormed clause pq h = elim (Bool-cases (is_empty (trim clause))) [
  | inl e ↦ rw e h
  | inr e ↦ rw e h
]

order_clause-IsWellFormed :
    (pos limit : Option ℕ) (query : Text) (pq : ParsedQuery)
    → IsWellFormed pq
    → IsWellFormed (order_clause pos limit query pq)
unfolding order_clause
order_clause-IsWellFormed none limit query pq h = h
order_clause-IsWellFormed (some pos) limit query pq h =
    parse_order_by-IsWellFormed (between (pos + 8) (nearer pos limit (length query)) query) pq h

limit_clause-IsWellFormed :
    (pos : Option ℕ) (query : Text) (pq : ParsedQuery)
    → IsWellFormed pq
    → IsWellFormed (limit_clause pos query pq)
unfolding limit_clause
limit_clause-IsWellFormed none query pq h = h
limit_clause-IsWellFormed (some pos) query pq h =
    parse_limit-IsWellFormed (drop (pos + 5) query) pq h

where_clause-IsWellFormed :
    (D : Decimals) (pos order limit : Option ℕ) (query : Text) (pq : ParsedQuery)
    → IsWellFormed pq
    → IsWellFormed (where_clause D pos order limit query pq)
unfolding where_clause
where_clause-IsWellFormed D none order limit query pq h = h
where_clause-IsWellFormed D (some pos) order limit query pq h = h

parse_parts-IsWellFormed :
    (D : Decimals) (select_pos from_pos : ℕ) (query : Text) (pq : ParsedQuery)
    → IsWellFormed pq
    → IsWellFormed (parse_parts D select_pos from_pos query pq)
unfolding parse_parts
parse_parts-IsWellFormed D select_pos from_pos query pq h =
    let upper = to_upper query in
    let columns = or_star (split_list (between (select_pos + 6) from_pos query) b',') in
    let where_pos = find_from from_pos (codes "WHERE") upper in
    let order_pos = find_from from_pos (codes "ORDER BY") upper in
    let limit_pos = find_from from_pos (codes "LIMIT") upper in
    let end =
      nearer from_pos limit_pos
        (nearer from_pos order_pos (nearer from_pos where_pos (length query))) in
    let fresh = record pq { select_columns = []; select_aliases = [] } in
    let selected = add_columns columns fresh in
    let clause = between (from_pos + 4) end query in
    let tabled = parse_from_clause clause selected in
    let filtered = where_clause D where_pos order_pos limit_pos query tabled in
    limit_clause-IsWellFormed limit_pos query (order_clause order_pos limit_pos query filtered) (
      order_clause-IsWellFormed order_pos limit_pos query filtered (
        where_clause-IsWellFormed D where_pos order_pos limit_pos query tabled (
          parse_from_clause-IsWellFormed clause selected
            (add_columns-IsWellFormed columns fresh (h.0, h.1, refl, h.3)))))

from_select-IsWellFormed :
    (D : Decimals) (select_pos : Option ℕ) (query : Text) (pq : ParsedQuery)
    → IsWellFormed pq
    → IsWellFormed (from_select D select_pos query pq)
unfolding from_select
from_select-IsWellFormed D none query pq h = h
from_select-IsWellFormed D (some select_pos) query pq h =
    elim (Option-cases (find_from select_pos (codes "FROM") (to_upper query))) [
      | inl missing ↦ rw (missing, from_select) h
      | inr (from_pos, found) ↦ elim (Bool-cases (ltb select_pos from_pos)) [
        | inl e ↦
            rw (found, from_select, e) (parse_parts-IsWellFormed D select_pos from_pos query pq h)
        | inr e ↦ rw (found, from_select, e) h
      ]
    ]

pub parse_select_query-IsWellFormed :
    (D : Decimals) (query : Text) (pq : ParsedQuery)
    → IsWellFormed pq
    → IsWellFormed (parse_select_query D query pq)
unfolding parse_select_query
parse_select_query-IsWellFormed D query pq h =
    from_select-IsWellFormed D (find_text (codes "SELECT") (to_upper query)) query pq h
