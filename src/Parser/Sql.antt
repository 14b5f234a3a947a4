-- ===== src/Parser/Sql.antt =====
-- src/query_optimizer/parser/sql_parser.cpp
pub mod WellFormed
use tubes_if3140_sistem_basi.Base.{[], ◌∷◌, Bool, true, false, ◌==◌, if◌then◌else◌}
use tubes_if3140_sistem_basi.Base.Key.{Text, text_same}
use tubes_if3140_sistem_basi.Base.Strings.{codes, to_upper, starts_with, trim}
use tubes_if3140_sistem_basi.Parser.Query.{ParsedQuery, Decimals, empty_query}
use tubes_if3140_sistem_basi.Parser.Split.{ends_with, pop_back}
use tubes_if3140_sistem_basi.Parser.Select.{parse_select_query}
use tubes_if3140_sistem_basi.Parser.Dml.{parse_update_query, parse_insert_query, parse_delete_query}
use tubes_if3140_sistem_basi.Parser.Ddl.{parse_create_table, parse_drop_table}

unfoldable pub detect_query_type : Text → Text
detect_query_type query =
    let upper = to_upper query in
    if starts_with (codes "SELECT") upper
    then codes "SELECT"
    else if starts_with (codes "INSERT") upper
    then codes "INSERT"
    else if starts_with (codes "UPDATE") upper
    then codes "UPDATE"
    else if starts_with (codes "DELETE") upper
    then codes "DELETE"
    else if starts_with (codes "BEGIN") upper
    then codes "BEGIN"
    else if starts_with (codes "COMMIT") upper
    then codes "COMMIT"
    else if starts_with (codes "ROLLBACK") upper
    then codes "ROLLBACK"
    else if starts_with (codes "CREATE") upper
    then codes "CREATE"
    else if starts_with (codes "DROP") upper
    then codes "DROP"
    else []

-- The query without the spaces around it and without the semicolon at its end.
unfoldable pub normalize : Text → Text
normalize query = if ends_with b';' (trim query) then pop_back (trim query) else trim query

module _ (D : Decimals) where
  unfoldable pub parse_as : Text → Text → ParsedQuery → ParsedQuery
  parse_as type query pq =
      if text_same type (codes "SELECT")
      then parse_select_query D query pq
      else if text_same type (codes "UPDATE")
      then parse_update_query D query pq
      else if text_same type (codes "INSERT")
      then parse_insert_query D query pq
      else if text_same type (codes "DELETE")
      then parse_delete_query D query pq
      else if text_same type (codes "CREATE")
      then parse_create_table query pq
      else if text_same type (codes "DROP")
      then parse_drop_table query pq
      else pq

  unfoldable pub sql_parser : Text → ParsedQuery
  sql_parser query =
      let s = normalize query in
      let type = detect_query_type s in
      parse_as type s (record empty_query { original_query = s; query_type = type })
