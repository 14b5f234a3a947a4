-- ===== src/Recovery/Entry.antt =====
-- The records of the log: `Operation`, `TableSchema`, `LogEntry`, `CheckpointInfo` of
-- include/types.h, and how a query's first word gives its operation
-- (src/failure_recovery/failure_recovery.cpp).
use tubes_if3140_sistem_basi.Base.{ℕ, List, [], ◌∷◌, ◌||◌, Option, none, if◌then◌else◌}
use tubes_if3140_sistem_basi.Base.Key.{Text, text_same}
use tubes_if3140_sistem_basi.Base.Map.{Map}
use tubes_if3140_sistem_basi.Base.Strings.{is_space, upper_char, skip_while}
use tubes_if3140_sistem_basi.Types.{Row, empty_row}

-- A value of the enumeration that no name has, which a cast from `int` gives, is `unlisted`.
pub data DataType : Type 0 where
  integer float char varchar : DataType
  unlisted : ℕ → DataType

pub record TableSchema : Type 0 where
  pub table_name : Text
  pub column_names : List Text
  pub column_types : List DataType
  pub column_sizes : List ℕ
  pub primary_key : Text
  pub foreign_keys : Map Text Text

pub data Operation : Type 0 where
  begin commit abort update insert delete checkpoint create_table drop_table : Operation
  unlisted : ℕ → Operation

pub record LogEntry : Type 0 where
  pub log_id : ℕ
  pub transaction_id : ℕ
  pub timestamp : ℕ
  pub operation : Operation
  pub table_name : Text
  pub old_value : Row
  pub new_value : Row
  pub query : Text
  pub dropped_schema : Option TableSchema
  pub created_schema : Option TableSchema

pub record CheckpointInfo : Type 0 where
  pub checkpoint_id : ℕ
  pub timestamp : ℕ
  pub active_transactions : List ℕ

-- A new entry with its four first fields set; the others are as `LogEntry()` leaves them.
abbrev pub new_entry : ℕ → ℕ → ℕ → Operation → LogEntry
new_entry id tid time op = record {
  log_id = id;
  transaction_id = tid;
  timestamp = time;
  operation = op;
  table_name = [];
  old_value = empty_row;
  new_value = empty_row;
  query = [];
  dropped_schema = none;
  created_schema = none;
}

unfoldable pub take_word : Text → Text
take_word [] = []
take_word (c ∷ s) = let rest = take_word s in if is_space c then [] else upper_char c ∷ rest

-- `iss >> first_word`, in upper case.
abbrev pub first_word : Text → Text
first_word query = take_word (skip_while is_space query)

abbrev pub word_begin : Text
word_begin = b'B' ∷ b'E' ∷ b'G' ∷ b'I' ∷ b'N' ∷ []

abbrev pub word_commit : Text
word_commit = b'C' ∷ b'O' ∷ b'M' ∷ b'M' ∷ b'I' ∷ b'T' ∷ []

abbrev pub word_rollback : Text
word_rollback = b'R' ∷ b'O' ∷ b'L' ∷ b'L' ∷ b'B' ∷ b'A' ∷ b'C' ∷ b'K' ∷ []

abbrev pub word_abort : Text
word_abort = b'A' ∷ b'B' ∷ b'O' ∷ b'R' ∷ b'T' ∷ []

abbrev pub word_insert : Text
word_insert = b'I' ∷ b'N' ∷ b'S' ∷ b'E' ∷ b'R' ∷ b'T' ∷ []

abbrev pub word_update : Text
word_update = b'U' ∷ b'P' ∷ b'D' ∷ b'A' ∷ b'T' ∷ b'E' ∷ []

abbrev pub word_delete : Text
word_delete = b'D' ∷ b'E' ∷ b'L' ∷ b'E' ∷ b'T' ∷ b'E' ∷ []

abbrev pub word_select : Text
word_select = b'S' ∷ b'E' ∷ b'L' ∷ b'E' ∷ b'C' ∷ b'T' ∷ []

abbrev pub word_create : Text
word_create = b'C' ∷ b'R' ∷ b'E' ∷ b'A' ∷ b'T' ∷ b'E' ∷ []

abbrev pub word_drop : Text
word_drop = b'D' ∷ b'R' ∷ b'O' ∷ b'P' ∷ []

unfoldable pub determine_operation_type : Text → Operation
determine_operation_type query =
    if text_same (first_word query) word_begin
    then begin
    else if text_same (first_word query) word_commit
    then commit
    else if text_same (first_word query) word_rollback || text_same (first_word query) word_abort
    then abort
    else if text_same (first_word query) word_insert
    then insert
    else if text_same (first_word query) word_update
    then update
    else if text_same (first_word query) word_delete
    then delete
    else if text_same (first_word query) word_select
    then commit
    else if text_same (first_word query) word_create
    then create_table
    else if text_same (first_word query) word_drop
    then drop_table
    else begin
