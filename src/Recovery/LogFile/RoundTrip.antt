-- ===== src/Recovery/LogFile/RoundTrip.antt =====
-- A schema, and the part of an entry that depends on its operation, are read back.
use mathlib.Core.List.{append_assoc}
use tubes_if3140_sistem_basi.Base.{◌^◌, ◌<◌, [], Option, none, some, refl, arith, All}
use tubes_if3140_sistem_basi.Recovery.Entry.{
  TableSchema, LogEntry, DataType, integer, float, char, varchar, Operation, begin, commit, abort,
  update, insert, delete, checkpoint, create_table, drop_table, new_entry,
}
use tubes_if3140_sistem_basi.Recovery.Codec.{
  ◌>>=◌, write_word, read_word, write_string, read_string,
}
use tubes_if3140_sistem_basi.Recovery.Codec.RoundTrip.{
  Reads, read_word-Reads, read_string-Reads, read_count-Reads, read_map-Reads, read_row-Reads,
  IsShort, InOrder, IsStorable,
}
use tubes_if3140_sistem_basi.Recovery.LogFile.{
  type_code, type_of_code, write_type, read_type, write_schema, read_schema, write_schema_option,
  read_flagged, read_schema_option, write_body, read_body,
}

-- A value with no name is none of the codes that have one.
abbrev pub IsType : DataType → Type 0
IsType (DataType.unlisted n) = (3 < n) × (n < 2 ^ 32)
IsType integer = Unit
IsType float = Unit
IsType char = Unit
IsType varchar = Unit

read_type-Reads : (t : DataType) → IsType t → Reads read_type (write_type t) t
unfolding read_type write_type type_code type_of_code
read_type-Reads integer h rest = rw (read_word-Reads 4 0 (omega arith), ◌>>=◌) refl
read_type-Reads float h rest = rw (read_word-Reads 4 1 (omega arith), ◌>>=◌) refl
read_type-Reads char h rest = rw (read_word-Reads 4 2 (omega arith), ◌>>=◌) refl
read_type-Reads varchar h rest = rw (read_word-Reads 4 3 (omega arith), ◌>>=◌) refl
read_type-Reads (DataType.unlisted n) h rest = rw (read_word-Reads 4 n h.1, ◌>>=◌) (ground arith)

-- A schema whose names are short, and whose references stand in the order of their columns.
pub record IsSchema (schema : TableSchema) : Type 0 where
  pub name : IsShort schema.table_name
  pub names_count : IsShort schema.column_names
  pub names : All IsShort schema.column_names
  pub types_count : IsShort schema.column_types
  pub types : All IsType schema.column_types
  pub sizes_count : IsShort schema.column_sizes
  pub sizes : All (λ n. n < 2 ^ 32) schema.column_sizes
  pub key : IsShort schema.primary_key
  pub references_count : IsShort schema.foreign_keys
  pub references_order : InOrder [] schema.foreign_keys
  pub references : All (λ e. IsShort e.0 × IsShort e.1) schema.foreign_keys

pub read_schema-Reads : (s : TableSchema) → IsSchema s → Reads read_schema (write_schema s) s
unfolding read_schema write_schema
read_schema-Reads s h rest = simp append_assoc (
    rw
      (
        read_string-Reads s.table_name h.name,
        ◌>>=◌,
        read_count-Reads read_string write_string IsShort read_string-Reads s.column_names
            h.names_count h.names,
        read_count-Reads read_type write_type IsType read_type-Reads s.column_types h.types_count
            h.types,
        read_count-Reads (read_word 4) (write_word 4) (λ n. n < 2 ^ 32) (read_word-Reads 4)
            s.column_sizes h.sizes_count h.sizes,
        read_string-Reads s.primary_key h.key,
        read_map-Reads read_string write_string IsShort read_string-Reads s.foreign_keys
            h.references_count h.references_order h.references,
      )
      refl)

abbrev pub IsSchemaOption : Option TableSchema → Type 0
IsSchemaOption none = Unit
IsSchemaOption (some schema) = IsSchema schema

read_schema_option-Reads :
    (s : Option TableSchema) → IsSchemaOption s → Reads read_schema_option (write_schema_option s) s
unfolding read_schema_option write_schema_option read_flagged
read_schema_option-Reads none h rest = rw (read_word-Reads 1 0 (omega arith), ◌>>=◌) refl
read_schema_option-Reads (some s) h rest =
    simp append_assoc (rw (read_word-Reads 1 1 (omega arith), ◌>>=◌, read_schema-Reads s h) refl)

-- What an entry's fields have to fit, by its operation.
abbrev pub BodyFits : Operation → LogEntry → Type 0
BodyFits begin e = IsShort e.query
BodyFits commit e = IsShort e.query
BodyFits abort e = Unit
BodyFits update e =
    IsShort e.table_name × IsStorable e.new_value × IsStorable e.old_value × IsShort e.query
BodyFits insert e = IsShort e.table_name × IsStorable e.new_value × IsShort e.query
BodyFits delete e = IsShort e.table_name × IsStorable e.old_value × IsShort e.query
BodyFits checkpoint e = IsShort e.table_name × IsShort e.query
BodyFits create_table e = IsShort e.table_name × IsShort e.query × IsSchemaOption e.created_schema
BodyFits drop_table e = IsShort e.table_name × IsShort e.query × IsSchemaOption e.dropped_schema
BodyFits (Operation.unlisted n) e = Unit

-- An operation with no name has none of the codes that have one.
abbrev pub IsOperation : Operation → Type 0
IsOperation (Operation.unlisted n) = (8 < n) × (n < 2 ^ 32)
IsOperation begin = Unit
IsOperation commit = Unit
IsOperation abort = Unit
IsOperation update = Unit
IsOperation insert = Unit
IsOperation delete = Unit
IsOperation checkpoint = Unit
IsOperation create_table = Unit
IsOperation drop_table = Unit

pub record IsLoggable (e : LogEntry) : Type 0 where
  pub id : e.log_id < 2 ^ 32
  pub tid : e.transaction_id < 2 ^ 32
  pub time : e.timestamp < 2 ^ 64
  pub operation : IsOperation e.operation
  pub body : BodyFits e.operation e

-- The fields that the file keeps for an operation; the others are those of a new entry.
abbrev pub kept_body : Operation → LogEntry → LogEntry → LogEntry
kept_body begin e new = record new { query = e.query }
kept_body commit e new = record new { query = e.query }
kept_body abort e new = new
kept_body update e new = record new {
  table_name = e.table_name;
  new_value = e.new_value;
  old_value = e.old_value;
  query = e.query;
}
kept_body insert e new = record new {
  table_name = e.table_name;
  new_value = e.new_value;
  query = e.query;
}
kept_body delete e new = record new {
  table_name = e.table_name;
  old_value = e.old_value;
  query = e.query;
}
kept_body checkpoint e new = record new { table_name = e.table_name; query = e.query }
kept_body create_table e new = record new {
  table_name = e.table_name;
  query = e.query;
  created_schema = e.created_schema;
}
kept_body drop_table e new = record new {
  table_name = e.table_name;
  query = e.query;
  dropped_schema = e.dropped_schema;
}
kept_body (Operation.unlisted n) e new = new

abbrev pub kept : LogEntry → LogEntry
kept e = kept_body e.operation e (new_entry e.log_id e.transaction_id e.timestamp e.operation)

pub read_body-Reads :
    (op : Operation) (e new : LogEntry)
    → BodyFits op e
    → Reads (read_body op new) (write_body op e) (kept_body op e new)
unfolding read_body write_body
read_body-Reads begin e new h rest = rw (read_string-Reads e.query h, ◌>>=◌) refl
read_body-Reads commit e new h rest = rw (read_string-Reads e.query h, ◌>>=◌) refl
read_body-Reads abort e new h rest = refl
read_body-Reads update e new h rest = simp append_assoc (
    rw
      (
        read_string-Reads e.table_name h.0,
        ◌>>=◌,
        read_row-Reads e.new_value h.1,
        read_row-Reads e.old_value h.2,
        read_string-Reads e.query h.3,
      )
      refl)
read_body-Reads insert e new h rest = simp append_assoc (
    rw
      (
        read_string-Reads e.table_name h.0,
        ◌>>=◌,
        read_row-Reads e.new_value h.1,
        read_string-Reads e.query h.2,
      )
      refl)
read_body-Reads delete e new h rest = simp append_assoc (
    rw
      (
        read_string-Reads e.table_name h.0,
        ◌>>=◌,
        read_row-Reads e.old_value h.1,
        read_string-Reads e.query h.2,
      )
      refl)
read_body-Reads checkpoint e new h rest =
    simp append_assoc
      (rw (read_string-Reads e.table_name h.0, ◌>>=◌, read_string-Reads e.query h.1) refl)
read_body-Reads create_table e new h rest = simp append_assoc (
    rw
      (
        read_string-Reads e.table_name h.0,
        ◌>>=◌,
        read_string-Reads e.query h.1,
        read_schema_option-Reads e.created_schema h.2,
      )
      refl)
read_body-Reads drop_table e new h rest = simp append_assoc (
    rw
      (
        read_string-Reads e.table_name h.0,
        ◌>>=◌,
        read_string-Reads e.query h.1,
        read_schema_option-Reads e.dropped_schema h.2,
      )
      refl)
read_body-Reads (Operation.unlisted n) e new h rest = refl
