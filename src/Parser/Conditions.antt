-- ===== src/Parser/Conditions.antt =====
-- Table references, literals, conditions and the short clauses of
-- src/query_optimizer/parser/utils/parser_utils.cpp.
pub mod Literals
pub mod Rounds
pub mod Joined
use tubes_if3140_sistem_basi.Base.{
  ℕ, zero, suc, ◌+◌, List, [], ◌∷◌, ◌++◌, Bool, true, false, not, ◌&&◌, ◌||◌, ltb, ◌==◌, length,
  if◌then◌else◌, Option, none, some,
}
use tubes_if3140_sistem_basi.Base.Key.{Text, text_same}
use tubes_if3140_sistem_basi.Base.Set.{is_empty}
use tubes_if3140_sistem_basi.Base.Strings.{
  codes, to_upper, take, drop, find_text, split_at_text, trim, words,
}
use tubes_if3140_sistem_basi.Base.Numbers.{is_digit, stoi}
use tubes_if3140_sistem_basi.Types.{Value, empty, int, double, text, Condition, minus_one}
use tubes_if3140_sistem_basi.Parser.Query.{TableReference, no_reference, ParsedQuery, Decimals}
use tubes_if3140_sistem_basi.Parser.Split.{strip_quotes, back}

-- The table, and the alias with or without AS.
unfoldable pub reference_of : List Text → TableReference
reference_of [] = no_reference
reference_of (table ∷ []) = record no_reference { table_name = table }
reference_of (table ∷ second ∷ []) = record no_reference { table_name = table; alias = second }
reference_of (table ∷ second ∷ third ∷ rest) =
    if text_same (to_upper second) (codes "AS")
    then record no_reference { table_name = table; alias = third }
    else record no_reference { table_name = table; alias = second }

unfoldable pub parse_table_reference : Text → TableReference
parse_table_reference raw = reference_of (words (trim raw))

unfoldable pub is_join_keyword : Text → Bool
is_join_keyword token =
    text_same token (codes "JOIN")
    || (text_same token (codes "INNER")
        || (text_same token (codes "LEFT")
            || (text_same token (codes "RIGHT")
                || (text_same token (codes "FULL")
                    || (text_same token (codes "OUTER") || text_same token (codes "NATURAL"))))))

-- `is_numeric` over the characters behind a sign.
unfoldable pub is_numeric : Text → Bool
is_numeric [] = true
is_numeric (c ∷ s) = (c == b'.' || is_digit c) && is_numeric s

-- `has_decimal`, where the text is numeric.
unfoldable pub has_decimal : Text → Bool
has_decimal [] = false
has_decimal (c ∷ s) = c == b'.' || has_decimal s

unfoldable pub after_sign : Text → Text
after_sign [] = []
after_sign (c ∷ s) = if c == b'+' || c == b'-' then s else c ∷ s

-- A number, or else the text.
abbrev pub number_or : (ℕ → Value) → Option ℕ → Text → Value
number_or make none s = text (strip_quotes s)
number_or make (some n) s = make n

abbrev pub is_quoted : ℕ → Text → Bool
is_quoted c s = (c == b'\'' && back c s == b'\'') || (c == b'"' && back c s == b'"')

abbrev pub with_operator : Text → Condition → Condition
with_operator operator c = record c { logical_operator = operator }

-- The condition so far, the operator behind it, and the text behind that.
unfoldable pub cut_condition : Text → Option ℕ → Option ℕ → Text × Text × Text
cut_condition s none none = (s, codes "AND", [])
cut_condition s (some i) none = (take i s, codes "AND", drop (i + 5) s)
cut_condition s none (some j) = (take j s, codes "OR", drop (j + 4) s)
cut_condition s (some i) (some j) =
    if ltb i j
    then (take i s, codes "AND", drop (i + 5) s)
    else (take j s, codes "OR", drop (j + 4) s)

abbrev pub next_condition : Text → Text × Text × Text
next_condition s =
    cut_condition s (find_text (codes " AND ") (to_upper s)) (find_text (codes " OR ") (to_upper s))

module _ (D : Decimals) where
  unfoldable pub literal_of : Text → Value
  literal_of [] = text []
  literal_of (c ∷ s) =
      if is_quoted c s
      then text (strip_quotes (c ∷ s))
      else if not (is_numeric (after_sign (c ∷ s)))
      then text (strip_quotes (c ∷ s))
      else if has_decimal (after_sign (c ∷ s))
      then number_or double (D.stod (c ∷ s)) (c ∷ s)
      else number_or int (stoi (c ∷ s)) (c ∷ s)

  unfoldable pub parse_literal : Text → Value
  parse_literal token = literal_of (trim token)

  -- The condition that an operator at the split makes.
  abbrev pub condition_at : Text → Text × Text → Condition
  condition_at operation (lhs, rhs) = record {
    column = trim lhs;
    operation = if text_same operation (codes "<>") then codes "!=" else operation;
    operand = parse_literal (trim rhs);
    logical_operator = codes "AND";
  }

  -- The operators are tried in turn, each at its first place in the text.
  unfoldable pub try_operators : List Text → Text → Condition
  try_operators [] s = record {
    column = s;
    operation = [];
    operand = empty;
    logical_operator = codes "AND";
  }
  try_operators (op ∷ ops) s = elim (split_at_text op s) [
    | none ↦ try_operators ops s
    | some parts ↦ condition_at op parts
  ]

  unfoldable pub parse_condition : Text → Condition
  parse_condition raw =
      try_operators
        (codes "<=" ∷ codes ">=" ∷ codes "!=" ∷ codes "<>" ∷ codes "=" ∷ codes "<" ∷ codes ">" ∷ [])
        (trim raw)

  abbrev pub add_condition : Text → Text → List Condition → List Condition
  add_condition s operator rest =
      if is_empty (trim s) then rest else with_operator operator (parse_condition (trim s)) ∷ rest

  -- Each round takes at least one character.
  unfoldable pub conditions_from : ℕ → Text → List Condition
  conditions_from zero s = []
  conditions_from (suc fuel) [] = []
  conditions_from (suc fuel) (c ∷ s) =
      let cut = next_condition (c ∷ s) in add_condition cut.0 cut.1 (conditions_from fuel cut.2)

  unfoldable pub parse_conditions : Text → List Condition
  parse_conditions clause = conditions_from (length clause) clause

-- `iss >> column; iss >> direction;`
unfoldable pub order_words : List Text → ParsedQuery → ParsedQuery
order_words [] pq = record pq { order_by_column = []; order_ascending = true }
order_words (column ∷ []) pq = record pq { order_by_column = column; order_ascending = true }
order_words (column ∷ direction ∷ rest) pq = record pq {
  order_by_column = column;
  order_ascending = not (text_same (to_upper direction) (codes "DESC"));
}

unfoldable pub parse_order_by : Text → ParsedQuery → ParsedQuery
parse_order_by clause pq =
    if is_empty (trim clause) then pq else order_words (words (trim clause)) pq

abbrev pub limit_or_none : Option ℕ → ℕ
limit_or_none none = minus_one
limit_or_none (some n) = n

unfoldable pub parse_limit : Text → ParsedQuery → ParsedQuery
parse_limit clause pq =
    if is_empty (trim clause)
    then pq
    else record pq { limit_value = limit_or_none (stoi (trim clause)) }
