-- ===== src/Parser/Tests.antt =====
-- Runs of the parser, and its theorems at concrete inputs.
use tubes_if3140_sistem_basi.Base.{
  List, [], ◌∷◌, ◌≤◌, false, none, ◌≡◌, refl, All, length, map, arith, if◌then◌else◌, inl, inr,
}
use tubes_if3140_sistem_basi.Base.Key.{Text, text_same}
use tubes_if3140_sistem_basi.Base.Set.{is_empty}
use tubes_if3140_sistem_basi.Base.Strings.{
  codes, trim, trim_by, trim_end, skip_while, concat, find_text, to_upper, starts_with,
}
use tubes_if3140_sistem_basi.Base.Numbers.{to_string, digits}
use tubes_if3140_sistem_basi.Types.{int}
use tubes_if3140_sistem_basi.Parser.Query.{Decimals, empty_query}
use tubes_if3140_sistem_basi.Parser.Query.WellFormed.{IsWellFormed}
use tubes_if3140_sistem_basi.Parser.Split.{split_list, tokenize, pop_back}
use tubes_if3140_sistem_basi.Parser.Split.Tokens.{tokenize-lossless}
use tubes_if3140_sistem_basi.Parser.Split.Lists.{split_list-join}
use tubes_if3140_sistem_basi.Parser.Conditions.{parse_literal, parse_conditions, is_join_keyword}
use tubes_if3140_sistem_basi.Parser.Conditions.Literals.{parse_literal-print}
use tubes_if3140_sistem_basi.Parser.Conditions.Joined.{parse_conditions-joined, all_listed}
use tubes_if3140_sistem_basi.Parser.Select.{join_head, parse_join, parse_joins}
use tubes_if3140_sistem_basi.Parser.Select.Joins.{AtJoin, parse_joins-round}
use tubes_if3140_sistem_basi.Parser.Sql.{sql_parser, detect_query_type, normalize}
use tubes_if3140_sistem_basi.Parser.Sql.WellFormed.{
  sql_parser-IsWellFormed, sql_parser-one_condition,
}

-- A reading of decimals that always throws.
abbrev no_decimals : Decimals
no_decimals = record { stod = λ s. none }

abbrev select_query : Text
select_query =
    codes "SELECT a, t.b AS c FROM t x, u JOIN v ON x.i = v.i WHERE a = 1 AND b = 'z' LIMIT 5;"

abbrev delete_query : Text
delete_query = codes "DELETE FROM t WHERE a = 1 AND b = 2;"

abbrev quoted_text : Text
quoted_text = codes "a = 'b  c', d"

tokenize-lossless_example :
    (concat (tokenize quoted_text) ≡ codes "a='b  c',d")
    × All (λ token. is_empty token ≡ false) (tokenize quoted_text)
tokenize-lossless_example = tokenize-lossless quoted_text

split_list-join_example :
    split_list (codes "a , b,c") b',' ≡ map trim (codes "a " ∷ codes " b" ∷ codes "c" ∷ [])
unfolding trim trim_by trim_end skip_while
split_list-join_example =
    split_list-join b',' (codes "a " ∷ codes " b" ∷ codes "c" ∷ [])
      (((refl, (refl, tt)), refl), (((refl, (refl, tt)), refl), (((refl, tt), refl), tt)))

parse_literal-print_example : parse_literal no_decimals (codes "-12") ≡ int 4294967284
unfolding to_string digits
parse_literal-print_example = parse_literal-print no_decimals (int 4294967284) (omega arith)

-- The letters of a connective may be small ones.
abbrev three_parts : List (Text × Text)
three_parts = (codes "a = 1", codes " and ") ∷ (codes "b < 'z'", codes " OR ") ∷ []

parse_conditions-joined_example :
    parse_conditions no_decimals (codes "a = 1 and b < 'z' OR c = 3")
    ≡ all_listed no_decimals three_parts (codes "c = 3")
unfolding find_text to_upper starts_with
parse_conditions-joined_example =
    parse_conditions-joined no_decimals three_parts (codes "c = 3")
      (((refl, refl), inl refl), (((refl, refl), inr refl), tt)) refl refl

sql_parser-IsWellFormed_example : IsWellFormed (sql_parser no_decimals select_query)
sql_parser-IsWellFormed_example = sql_parser-IsWellFormed no_decimals select_query

sql_parser-one_condition_example : length (sql_parser no_decimals delete_query).where_conditions ≤ 1
unfolding detect_query_type normalize to_upper starts_with trim trim_by trim_end skip_while pop_back
    text_same
sql_parser-one_condition_example = sql_parser-one_condition no_decimals delete_query refl

-- A natural join, and the tokens behind it.
abbrev join_words : List Text
join_words =
    codes "JOIN"
    ∷ codes "b"
    ∷ codes "ON"
    ∷ codes "i=j"
    ∷ codes "NATURAL"
    ∷ codes "JOIN"
    ∷ codes "c"
    ∷ []

parse_joins-round_example :
    let head = join_head join_words false (codes "INNER") in
    let next = parse_join head empty_query in
    (parse_joins 7 join_words empty_query
      ≡ (if is_empty head.rest then empty_query else parse_joins (length next.1) next.1 next.0))
    × AtJoin next.1
unfolding is_join_keyword text_same to_upper
parse_joins-round_example =
    parse_joins-round 7 (codes "JOIN")
      (codes "b" ∷ codes "ON" ∷ codes "i=j" ∷ codes "NATURAL" ∷ codes "JOIN" ∷ codes "c" ∷ [])
      empty_query refl (omega arith)
