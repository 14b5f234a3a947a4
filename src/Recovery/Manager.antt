-- ===== src/Recovery/Manager.antt =====
-- The state of `FailureRecoveryManager` and its operations in
-- src/failure_recovery/failure_recovery.cpp, over the log file and the storage engine.
pub mod Wal
mod Logging
pub mod Run
pub mod Faults
use tubes_if3140_sistem_basi.Base.{
  ℕ, ◌+◌, List, [], ◌∷◌, ◌++◌, Bool, true, false, ◌&&◌, ◌||◌, not, Option, none, some, leb, length,
  ◌==◌, if◌then◌else◌, reverse,
}
use tubes_if3140_sistem_basi.Base.Key.{Text, text_key}
use tubes_if3140_sistem_basi.Base.Map.{Map, find, put}
use tubes_if3140_sistem_basi.Base.Map
use tubes_if3140_sistem_basi.Base.Set
use tubes_if3140_sistem_basi.Base.Set.{is_empty, contains}
use tubes_if3140_sistem_basi.Types.{Row, empty_row, minus_one}
use tubes_if3140_sistem_basi.Recovery.Entry.{
  LogEntry, TableSchema, CheckpointInfo, Operation, begin, commit, abort, update, insert, delete,
  checkpoint, create_table, drop_table, new_entry, determine_operation_type,
}
use tubes_if3140_sistem_basi.Recovery.Codec.{Bytes, write_all}
use tubes_if3140_sistem_basi.Recovery.LogFile.{write_log_to_file, read_all_logs}
use tubes_if3140_sistem_basi.Recovery.CheckpointList.{active_transactions_str}
use tubes_if3140_sistem_basi.Recovery.Storage.{StorageEngine, undo_operation}

-- What the query processor reports of a query; `rows` is `data.data`.
pub record ExecutionResult : Type 0 where
  pub transaction_id : ℕ
  pub timestamp : ℕ
  pub query : Text
  pub rows : List Row
  pub success : Bool
  pub table_name : Text

-- The manager's fields, and what it works on: the log file, whether the file can be opened for
-- writing, the marker `data/.running`, and the state of the storage engine. No query gives a
-- transaction a negative number, so the order of the cache is that of the natural numbers.
pub record Recovery {ℓ} (S : Type ℓ) : Type ℓ where
  pub log_buffer : List LogEntry
  pub active_transactions_cache : List ℕ
  pub checkpoints : List CheckpointInfo
  pub next_log_id : ℕ
  pub next_checkpoint_id : ℕ
  pub pending_drop_schemas : Map Text TableSchema
  pub log_file : Bytes
  pub log_opens : Bool
  pub running_marker : Bool
  pub storage : S

abbrev pub max_buffer_size : ℕ
max_buffer_size = 50

-- INSERT, UPDATE, DELETE
abbrev pub changes_rows : Operation → Bool
changes_rows insert = true
changes_rows update = true
changes_rows delete = true
changes_rows begin = false
changes_rows commit = false
changes_rows abort = false
changes_rows checkpoint = false
changes_rows create_table = false
changes_rows drop_table = false
changes_rows (Operation.unlisted n) = false

-- BEGIN, COMMIT, ABORT
abbrev pub changes_status : Operation → Bool
changes_status begin = true
changes_status commit = true
changes_status abort = true
changes_status insert = false
changes_status update = false
changes_status delete = false
changes_status checkpoint = false
changes_status create_table = false
changes_status drop_table = false
changes_status (Operation.unlisted n) = false

-- `CHECKPOINT_START` and `CHECKPOINT_END:`.
abbrev pub start_query : Text
start_query =
    b'C' ∷ b'H' ∷ b'E' ∷ b'C' ∷ b'K' ∷ b'P' ∷ b'O' ∷ b'I' ∷ b'N' ∷ b'T' ∷ b'_' ∷ b'S' ∷ b'T' ∷ b'A'
    ∷ b'R' ∷ b'T' ∷ []

abbrev pub end_prefix : Text
end_prefix =
    b'C' ∷ b'H' ∷ b'E' ∷ b'C' ∷ b'K' ∷ b'P' ∷ b'O' ∷ b'I' ∷ b'N' ∷ b'T' ∷ b'_' ∷ b'E' ∷ b'N' ∷ b'D'
    ∷ b':' ∷ []

abbrev pub system_name : Text
system_name = b'S' ∷ b'Y' ∷ b'S' ∷ b'T' ∷ b'E' ∷ b'M' ∷ []

abbrev pub commit_query : Text
commit_query = b'C' ∷ b'O' ∷ b'M' ∷ b'M' ∷ b'I' ∷ b'T' ∷ []

abbrev pub abort_query : Text
abort_query = b'A' ∷ b'B' ∷ b'O' ∷ b'R' ∷ b'T' ∷ []

-- The row at the front, and the table that it names.
abbrev pub first_row : List Row → Row
first_row [] = empty_row
first_row (row ∷ rows) = row

abbrev pub first_table : List Row → Text
first_table [] = []
first_table (row ∷ rows) = row.table_name

unfoldable pub of_transaction : ℕ → List LogEntry → List LogEntry
of_transaction tid [] = []
of_transaction tid (e ∷ es) =
    let rest = of_transaction tid es in if e.transaction_id == tid then e ∷ rest else rest

unfoldable pub has_changes : ℕ → List LogEntry → Bool
has_changes tid [] = false
has_changes tid (e ∷ es) =
    (e.transaction_id == tid && changes_rows e.operation) || has_changes tid es

module _ {ℓ} {S : Type ℓ} where
  -- A file that does not open leaves the buffer as it is.
  unfoldable pub flush_buffer : Recovery S → Recovery S
  flush_buffer r =
      if is_empty r.log_buffer
      then r
      else if r.log_opens
      then record r {
        log_file = r.log_file ++ write_all write_log_to_file r.log_buffer;
        log_buffer = [];
      }
      else r

  -- `log_buffer.push_back(entry)`
  abbrev pub push_entry : LogEntry → Recovery S → Recovery S
  push_entry e r = record r { log_buffer = r.log_buffer ++ (e ∷ []) }

  -- The end of `write_log`.
  unfoldable pub buffer_entry : LogEntry → Recovery S → Recovery S
  buffer_entry e r =
      if leb max_buffer_size (length r.log_buffer + 1)
      then flush_buffer (push_entry e r)
      else push_entry e r

  -- An update that does not come with the old row and the new one is not logged.
  unfoldable pub log_update : List Row → LogEntry → Recovery S → Recovery S
  log_update [] e r = r
  log_update (row ∷ []) e r = r
  log_update (old ∷ new ∷ rows) e r =
      buffer_entry (record e { table_name = old.table_name; old_value = old; new_value = new }) r

  abbrev pub enter : ℕ → Recovery S → Recovery S
  enter tid r = record r { active_transactions_cache = Set.insert tid r.active_transactions_cache }

  abbrev pub forget : ℕ → Recovery S → Recovery S
  forget tid r = record r { active_transactions_cache = Set.erase tid r.active_transactions_cache }

  -- `next_log_id++`, with the entry that takes the number.
  abbrev pub take_id : Recovery S → Recovery S
  take_id r = record r { next_log_id = r.next_log_id + 1 }

  -- The schema is kept if the engine has one.
  unfoldable pub keep_schema : Option TableSchema → Text → Recovery S → Recovery S
  keep_schema none table r = r
  keep_schema (some schema) table r = record r {
    pending_drop_schemas = put table schema r.pending_drop_schemas;
  }

  -- A new record of the manager's own, which is put into the log file at once.
  unfoldable pub append_record : ℕ → ℕ → Operation → Text → Text → Recovery S → Recovery S
  append_record now tid op table query r = flush_buffer (
      push_entry (record (new_entry r.next_log_id tid now op) { table_name = table; query = query })
        (take_id r))

  unfoldable pub reset_state_for_testing : Recovery S → Recovery S
  reset_state_for_testing r = record r {
    active_transactions_cache = [];
    log_buffer = [];
    checkpoints = [];
    next_log_id = 1;
    next_checkpoint_id = 1;
  }

module _ {ℓ} {S : Type ℓ} (engine : StorageEngine S) where
  -- The schema that is kept for a drop, else the one that the engine still has.
  unfoldable pub log_drop : Option TableSchema → Text → LogEntry → Recovery S → Recovery S
  log_drop (some schema) table e r =
      buffer_entry (record e { table_name = table; dropped_schema = some schema })
        (record r { pending_drop_schemas = Map.erase table r.pending_drop_schemas })
  log_drop none table e r =
      buffer_entry
        (record e { table_name = table; dropped_schema = engine.get_table_schema table r.storage })
        r

  unfoldable pub log_operation : Operation → ExecutionResult → LogEntry → Recovery S → Recovery S
  log_operation insert info e r =
      buffer_entry
        (record e { table_name = first_table info.rows; new_value = first_row info.rows }) r
  log_operation update info e r = log_update info.rows e r
  log_operation delete info e r =
      buffer_entry
        (record e { table_name = first_table info.rows; old_value = first_row info.rows }) r
  log_operation begin info e r = buffer_entry e (enter e.transaction_id r)
  log_operation commit info e r = buffer_entry e (forget e.transaction_id r)
  log_operation abort info e r = buffer_entry e (forget e.transaction_id r)
  log_operation create_table info e r =
      buffer_entry
        (record e {
          table_name = info.table_name;
          created_schema = engine.get_table_schema info.table_name r.storage;
        })
        r
  log_operation drop_table info e r =
      log_drop (find info.table_name r.pending_drop_schemas) info.table_name e r
  log_operation checkpoint info e r = buffer_entry e r
  log_operation (Operation.unlisted n) info e r = buffer_entry e r

  unfoldable pub write_log : ExecutionResult → Recovery S → Recovery S
  write_log info r =
      let op = determine_operation_type info.query in
      let e = new_entry r.next_log_id info.transaction_id info.timestamp op in
      if info.success
      then log_operation op info (record e { query = info.query }) (take_id r)
      else r

  -- `StorageEngine::checkpoint()`
  abbrev pub flush_storage : Recovery S → Recovery S
  flush_storage r = record r { storage = engine.checkpoint r.storage }

  unfoldable pub commit_transaction : ℕ → ℕ → Recovery S → Recovery S
  commit_transaction now tid r =
      forget tid (flush_storage (append_record now tid commit [] commit_query r))

  -- The entries from the last to the first; those of BEGIN, COMMIT and ABORT are skipped.
  unfoldable pub undo_entries : List LogEntry → S → S
  undo_entries [] s = s
  undo_entries (e ∷ es) s =
      undo_entries es (if changes_status e.operation then s else (undo_operation engine e s).0)

  unfoldable pub recover : ℕ → Recovery S → Recovery S
  recover tid r =
      let flushed = flush_buffer r in
      let logs = of_transaction tid (read_all_logs flushed.log_file) in
      record flushed { storage = undo_entries (reverse logs) flushed.storage }

  -- The last part of `abort_transaction`, under a lock of its own.
  abbrev pub record_abort : ℕ → ℕ → Recovery S → Recovery S
  record_abort now tid r = forget tid (append_record now tid abort [] abort_query r)

  unfoldable pub abort_transaction : ℕ → ℕ → Recovery S → Recovery S
  abort_transaction now tid r =
      let changed = has_changes tid r.log_buffer || has_changes tid (read_all_logs r.log_file) in
      let undone = if changed then flush_storage (recover tid r) else r in
      if contains tid r.active_transactions_cache then record_abort now tid undone else r

  -- The clock is read for the first record, for the second one and for the list of checkpoints.
  unfoldable pub save_checkpoint : ℕ → ℕ → ℕ → Recovery S → Recovery S
  save_checkpoint start_time end_time now r =
      let started =
        flush_storage (
          append_record start_time minus_one checkpoint system_name start_query (flush_buffer r)) in
      let ended =
        append_record end_time minus_one checkpoint system_name
          (end_prefix ++ active_transactions_str started.active_transactions_cache) started in
      record ended {
        next_checkpoint_id = ended.next_checkpoint_id + 1;
        checkpoints =
            ended.checkpoints
            ++ (record {
              checkpoint_id = ended.next_checkpoint_id;
              timestamp = now;
              active_transactions = ended.active_transactions_cache;
            }
                ∷ []);
      }

  unfoldable pub prepare_ddl_operation : Text → Operation → Recovery S → Recovery S
  prepare_ddl_operation table drop_table r =
      keep_schema (engine.get_table_schema table r.storage) table r
  prepare_ddl_operation table begin r = r
  prepare_ddl_operation table commit r = r
  prepare_ddl_operation table abort r = r
  prepare_ddl_operation table update r = r
  prepare_ddl_operation table insert r = r
  prepare_ddl_operation table delete r = r
  prepare_ddl_operation table checkpoint r = r
  prepare_ddl_operation table create_table r = r
  prepare_ddl_operation table (Operation.unlisted n) r = r
