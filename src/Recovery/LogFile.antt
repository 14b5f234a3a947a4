-- ===== src/Recovery/LogFile.antt =====
-- Schemas, log entries and the whole log file of src/failure_recovery/failure_recovery.cpp, over the
-- readers and writers of Recovery.Codec.
pub mod RoundTrip
pub mod Whole
use tubes_if3140_sistem_basi.Base.{
  ℕ, zero, suc, [], ◌∷◌, ◌++◌, List, Option, none, some, length, ◌==◌, if◌then◌else◌,
}
use tubes_if3140_sistem_basi.Base.Key.{Text, text_key}
use tubes_if3140_sistem_basi.Recovery.Entry.{
  TableSchema, LogEntry, DataType, integer, float, char, varchar, Operation, begin, commit, abort,
  update, insert, delete, checkpoint, create_table, drop_table, new_entry,
}
use tubes_if3140_sistem_basi.Recovery.Codec.{
  Bytes, Reader, ◌>>=◌, pure, write_word, read_word, write_string, read_string, write_count,
  read_count, write_map, read_map, write_row, read_row,
}

-- `static_cast<int>` of an enumerator, and back.
unfoldable pub type_code : DataType → ℕ
type_code integer = 0
type_code float = 1
type_code char = 2
type_code varchar = 3
type_code (DataType.unlisted n) = n

unfoldable pub type_of_code : ℕ → DataType
type_of_code n =
    if n == 0
    then integer
    else if n == 1
    then float
    else if n == 2
    then char
    else if n == 3
    then varchar
    else DataType.unlisted n

unfoldable pub operation_code : Operation → ℕ
operation_code begin = 0
operation_code commit = 1
operation_code abort = 2
operation_code update = 3
operation_code insert = 4
operation_code delete = 5
operation_code checkpoint = 6
operation_code create_table = 7
operation_code drop_table = 8
operation_code (Operation.unlisted n) = n

unfoldable pub operation_of_code : ℕ → Operation
operation_of_code n =
    if n == 0
    then begin
    else if n == 1
    then commit
    else if n == 2
    then abort
    else if n == 3
    then update
    else if n == 4
    then insert
    else if n == 5
    then delete
    else if n == 6
    then checkpoint
    else if n == 7
    then create_table
    else if n == 8
    then drop_table
    else Operation.unlisted n

unfoldable pub write_type : DataType → Bytes
write_type type = write_word 4 (type_code type)

unfoldable pub read_type : Reader DataType
read_type = do n ← read_word 4; pure (type_of_code n)

unfoldable pub write_schema : TableSchema → Bytes
write_schema schema =
    write_string schema.table_name
    ++ (write_count write_string schema.column_names
        ++ (write_count write_type schema.column_types
            ++ (write_count (write_word 4) schema.column_sizes
                ++ (write_string schema.primary_key
                    ++ write_map write_string schema.foreign_keys))))

unfoldable pub read_schema : Reader TableSchema
read_schema = do
  name ← read_string
  names ← read_count read_string
  types ← read_count read_type
  sizes ← read_count (read_word 4)
  key ← read_string
  references ← read_map read_string
  pure record {
    table_name = name;
    column_names = names;
    column_types = types;
    column_sizes = sizes;
    primary_key = key;
    foreign_keys = references;
  }

-- The flag of one byte, and the schema behind it.
unfoldable pub write_schema_option : Option TableSchema → Bytes
write_schema_option none = write_word 1 0
write_schema_option (some schema) = write_word 1 1 ++ write_schema schema

unfoldable pub read_flagged : ℕ → Reader (Option TableSchema)
read_flagged flag = if flag == 0 then pure none else (do schema ← read_schema; pure (some schema))

unfoldable pub read_schema_option : Reader (Option TableSchema)
read_schema_option = do flag ← read_word 1; read_flagged flag

-- The part of an entry that depends on its operation. Nothing is written for ABORT.
unfoldable pub write_body : Operation → LogEntry → Bytes
write_body begin e = write_string e.query
write_body commit e = write_string e.query
write_body insert e = write_string e.table_name ++ (write_row e.new_value ++ write_string e.query)
write_body delete e = write_string e.table_name ++ (write_row e.old_value ++ write_string e.query)
write_body update e =
    write_string e.table_name
    ++ (write_row e.new_value ++ (write_row e.old_value ++ write_string e.query))
write_body checkpoint e = write_string e.table_name ++ write_string e.query
write_body create_table e =
    write_string e.table_name ++ (write_string e.query ++ write_schema_option e.created_schema)
write_body drop_table e =
    write_string e.table_name ++ (write_string e.query ++ write_schema_option e.dropped_schema)
write_body abort e = []
write_body (Operation.unlisted n) e = []

unfoldable pub write_log_to_file : LogEntry → Bytes
write_log_to_file e =
    write_word 4 e.log_id
    ++ (write_word 4 e.transaction_id
        ++ (write_word 8 e.timestamp
            ++ (write_word 4 (operation_code e.operation) ++ write_body e.operation e)))

unfoldable pub read_body : Operation → LogEntry → Reader LogEntry
read_body begin e = do query ← read_string; pure (record e { query = query })
read_body commit e = do query ← read_string; pure (record e { query = query })
read_body insert e = do
  table ← read_string
  row ← read_row
  query ← read_string
  pure (record e { table_name = table; new_value = row; query = query })
read_body delete e = do
  table ← read_string
  row ← read_row
  query ← read_string
  pure (record e { table_name = table; old_value = row; query = query })
read_body update e = do
  table ← read_string
  row ← read_row
  old ← read_row
  query ← read_string
  pure (record e { table_name = table; new_value = row; old_value = old; query = query })
read_body checkpoint e = do
  table ← read_string
  query ← read_string
  pure (record e { table_name = table; query = query })
read_body create_table e = do
  table ← read_string
  query ← read_string
  schema ← read_schema_option
  pure (record e { table_name = table; query = query; created_schema = schema })
read_body drop_table e = do
  table ← read_string
  query ← read_string
  schema ← read_schema_option
  pure (record e { table_name = table; query = query; dropped_schema = schema })
read_body abort e = pure e
read_body (Operation.unlisted n) e = pure e

unfoldable pub read_log_from_file : Reader LogEntry
read_log_from_file = do
  id ← read_word 4
  tid ← read_word 4
  time ← read_word 8
  op ← read_word 4
  read_body (operation_of_code op) (new_entry id tid time (operation_of_code op))

-- One entry takes at least twenty bytes, so the length of the file is fuel enough.
unfoldable pub read_entries_until : ℕ → Bytes → List LogEntry
read_entries_until zero s = []
read_entries_until (suc fuel) [] = []
read_entries_until (suc fuel) (b ∷ s) = elim (read_log_from_file (b ∷ s)) [
  | none ↦ []
  | some (e, rest) ↦ e ∷ read_entries_until fuel rest
]

unfoldable pub read_all_logs : Bytes → List LogEntry
read_all_logs file = read_entries_until (length file) file
