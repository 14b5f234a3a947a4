-- ===== src/Parser/Select.antt =====
-- src/query_optimizer/parser/dml/select_parser.cpp
pub mod Joins
pub mod WellFormed
use tubes_if3140_sistem_basi.Base.{
  ℕ, zero, suc, ◌+◌, ◌-◌, List, [], ◌∷◌, ◌++◌, Bool, true, false, not, ◌&&◌, ◌||◌, ltb, ◌==◌,
  length, min, if◌then◌else◌, Option, none, some,
}
use tubes_if3140_sistem_basi.Base.Key.{Text, text_same}
use tubes_if3140_sistem_basi.Base.Set.{is_empty}
use tubes_if3140_sistem_basi.Base.Strings.{
  codes, to_upper, take, drop, substr, find_text, find_from, split_at_text, trim,
}
use tubes_if3140_sistem_basi.Parser.Query.{
  TableReference, JoinClause, ParsedQuery, Decimals, record_table_reference,
}
use tubes_if3140_sistem_basi.Parser.Split.{split_list, tokenize, join_tokens}
use tubes_if3140_sistem_basi.Parser.Conditions.{
  parse_table_reference, is_join_keyword, parse_conditions, parse_order_by, parse_limit,
}

-- The tokens before the first that the test holds of, and the others.
unfoldable pub span_until : (Text → Bool) → List Text → List Text × List Text
span_until test [] = ([], [])
span_until test (t ∷ ts) =
    let rest = span_until test ts in if test t then ([], t ∷ ts) else (t ∷ rest.0, rest.1)

unfoldable pub add_tables : Bool → List Text → ParsedQuery → ParsedQuery
add_tables joined [] pq = pq
add_tables joined (table ∷ tables) pq = add_tables joined tables (
    record_table_reference (record (parse_table_reference table) { introduced_by_join = joined })
      pq)

-- The words in front of JOIN: the type of the join, and whether it is natural.
pub record JoinHead : Type 0 where
  pub natural_join : Bool
  pub join_type : Text
  pub rest : List Text

unfoldable pub join_head : List Text → Bool → Text → JoinHead
join_head [] natural type = record { natural_join = natural; join_type = type; rest = [] }
join_head (t ∷ ts) natural type =
    let as_natural = join_head ts true (codes "NATURAL") in
    let as_type = join_head ts natural (if natural then type else to_upper t) in
    let as_outer = join_head ts natural type in
    if text_same (to_upper t) (codes "NATURAL")
    then as_natural
    else if text_same (to_upper t) (codes "INNER")
        || (text_same (to_upper t) (codes "LEFT")
            || (text_same (to_upper t) (codes "RIGHT") || text_same (to_upper t) (codes "FULL")))
    then as_type
    else if text_same (to_upper t) (codes "OUTER")
    then as_outer
    else if text_same (to_upper t) (codes "JOIN")
    then record { natural_join = natural; join_type = type; rest = ts }
    else record { natural_join = natural; join_type = type; rest = t ∷ ts }

abbrev pub is_on : Bool → Text → Bool
is_on natural t = not natural && text_same (to_upper t) (codes "ON")

abbrev pub is_keyword : Text → Bool
is_keyword t = is_join_keyword (to_upper t)

-- ON itself is passed over.
abbrev pub skip_on : Bool → List Text → List Text
skip_on natural [] = []
skip_on natural (t ∷ ts) = if is_on natural t then ts else t ∷ ts

-- The two sides of the condition behind ON; both are empty without `=`.
abbrev pub join_pair : Option (Text × Text) → Text × Text
join_pair none = ([], [])
join_pair (some (left, right)) = (trim left, trim right)

-- What one join adds, and the tokens behind it.
unfoldable pub parse_join : JoinHead → ParsedQuery → ParsedQuery × List Text
parse_join head pq =
    let table = span_until (λ t. is_on head.natural_join t || is_keyword t) head.rest in
    let ref = record (parse_table_reference (join_tokens table.0)) { introduced_by_join = true } in
    let behind = skip_on head.natural_join table.1 in
    let condition = span_until is_keyword behind in
    let pair =
      if head.natural_join
      then ([], [])
      else join_pair (split_at_text (codes "=") (join_tokens condition.0)) in
    let added = record_table_reference ref pq in
    (
      record added {
        join_pairs = added.join_pairs ++ (pair ∷ []);
        join_clauses =
            added.join_clauses
            ++ (record {
              join_type = head.join_type;
              table = ref;
              left_expression = pair.0;
              right_expression = pair.1;
              is_natural = head.natural_join;
            }
                ∷ []);
      },
      if head.natural_join then behind else condition.1,
    )

-- The joins behind the base tables. A round takes at least one token, so their number is enough
-- fuel; the loop ends where nothing stands behind the words of a join.
unfoldable pub parse_joins : ℕ → List Text → ParsedQuery → ParsedQuery
parse_joins zero tokens pq = pq
parse_joins (suc fuel) [] pq = pq
parse_joins (suc fuel) (t ∷ ts) pq =
    let head = join_head (t ∷ ts) false (codes "INNER") in
    let next = parse_join head pq in
    let joined = parse_joins fuel next.1 next.0 in if is_empty head.rest then pq else joined

unfoldable pub parse_from_clause : Text → ParsedQuery → ParsedQuery
parse_from_clause clause pq =
    let tokens = tokenize clause in
    let base = span_until is_keyword tokens in
    parse_joins (length tokens) base.1 (add_tables false (split_list (join_tokens base.0) b',') pq)

-- The last token, the one before it and what stands before both, of at least three tokens.
unfoldable pub last_two : List Text → Option (List Text × Text × Text)
last_two [] = none
last_two (a ∷ []) = none
last_two (a ∷ b ∷ []) = none
last_two (a ∷ b ∷ c ∷ []) = some (a ∷ [], b, c)
last_two (a ∷ b ∷ c ∷ d ∷ ts) = elim (last_two (b ∷ c ∷ d ∷ ts)) [
  | none ↦ none
  | some (front, x, y) ↦ some (a ∷ front, x, y)
]

abbrev pub plain_column : Text → Text × Text
plain_column col = (col, col)

abbrev pub aliased_column : Text → Option (List Text × Text × Text) → Text × Text
aliased_column col none = plain_column col
aliased_column col (some (front, second_last, alias)) =
    if text_same (to_upper second_last) (codes "AS")
    then (join_tokens front, alias)
    else plain_column col

-- A column and its alias.
unfoldable pub parse_column : Text → Text × Text
parse_column col = aliased_column col (last_two (tokenize col))

unfoldable pub add_columns : List Text → ParsedQuery → ParsedQuery
add_columns [] pq = pq
add_columns (col ∷ cols) pq = add_columns cols (record pq {
  select_columns = pq.select_columns ++ ((parse_column col).0 ∷ []);
  select_aliases = pq.select_aliases ++ ((parse_column col).1 ∷ []);
})

abbrev pub or_star : List Text → List Text
or_star [] = codes "*" ∷ []
or_star (col ∷ cols) = col ∷ cols

-- The nearest of the clauses behind a position, or the end.
abbrev pub nearer : ℕ → Option ℕ → ℕ → ℕ
nearer from none end = end
nearer from (some pos) end = if ltb from pos then min end pos else end

-- The text between two positions, and behind one.
abbrev pub between : ℕ → ℕ → Text → Text
between from end s = substr from (end - from) s

unfoldable pub order_clause : Option ℕ → Option ℕ → Text → ParsedQuery → ParsedQuery
order_clause none limit query pq = pq
order_clause (some pos) limit query pq =
    parse_order_by (between (pos + 8) (nearer pos limit (length query)) query) pq

unfoldable pub limit_clause : Option ℕ → Text → ParsedQuery → ParsedQuery
limit_clause none query pq = pq
limit_clause (some pos) query pq = parse_limit (drop (pos + 5) query) pq

module _ (D : Decimals) where
  unfoldable pub where_clause : Option ℕ → Option ℕ → Option ℕ → Text → ParsedQuery → ParsedQuery
  where_clause none order limit query pq = pq
  where_clause (some pos) order limit query pq =
      let end = nearer pos limit (nearer pos order (length query)) in
      record pq {
        where_conditions = pq.where_conditions ++ parse_conditions D (between (pos + 5) end query);
      }

  -- A query whose FROM stands at `from_pos` and whose SELECT stands at `select_pos`.
  unfoldable pub parse_parts : ℕ → ℕ → Text → ParsedQuery → ParsedQuery
  parse_parts select_pos from_pos query pq =
      let upper = to_upper query in
      let columns = or_star (split_list (between (select_pos + 6) from_pos query) b',') in
      let where_pos = find_from from_pos (codes "WHERE") upper in
      let order_pos = find_from from_pos (codes "ORDER BY") upper in
      let limit_pos = find_from from_pos (codes "LIMIT") upper in
      let end =
        nearer from_pos limit_pos
          (nearer from_pos order_pos (nearer from_pos where_pos (length query))) in
      let selected = add_columns columns (record pq { select_columns = []; select_aliases = [] }) in
      let tabled = parse_from_clause (between (from_pos + 4) end query) selected in
      limit_clause limit_pos query (
        order_clause order_pos limit_pos query
          (where_clause where_pos order_pos limit_pos query tabled))

  unfoldable pub from_select : Option ℕ → Text → ParsedQuery → ParsedQuery
  from_select none query pq = pq
  from_select (some select_pos) query pq =
      elim (find_from select_pos (codes "FROM") (to_upper query)) [
        | none ↦ pq
        | some from_pos ↦
            if ltb select_pos from_pos then parse_parts select_pos from_pos query pq else pq
      ]

  unfoldable pub parse_select_query : Text → ParsedQuery → ParsedQuery
  parse_select_query query pq = from_select (find_text (codes "SELECT") (to_upper query)) query pq
