-- ===== src/Recovery/Manager/Logging.antt =====
-- What `write_log` does for each kind of query keeps the log's invariant.
use tubes_if3140_sistem_basi.Base.{
  ℕ, ◌+◌, List, [], ◌∷◌, ◌++◌, Bool, true, false, Option, none, some, if◌then◌else◌, ◌≡◌, refl,
  arith,
}
use tubes_if3140_sistem_basi.Base.Set.{contains-insert, contains-erase}
use tubes_if3140_sistem_basi.Types.{Row}
use tubes_if3140_sistem_basi.Base.Map.{find}
use tubes_if3140_sistem_basi.Base.Key.{Text, text_key}
use tubes_if3140_sistem_basi.Recovery.Entry.{
  LogEntry, TableSchema, Operation, begin, commit, abort, update, insert, delete, checkpoint,
  create_table, drop_table, new_entry, determine_operation_type,
}
use tubes_if3140_sistem_basi.Recovery.Storage.{StorageEngine}
use tubes_if3140_sistem_basi.Recovery.Manager.{
  Recovery, ExecutionResult, log_update, take_id, log_drop, log_operation, write_log,
}
use tubes_if3140_sistem_basi.Recovery.Manager.Wal.{Wal, IsWal, IsNumbered-le, buffer_entry-IsWal}

module _ {ℓ} {S : Type ℓ} where
  pub if-IsWal : (b : Bool) (x y : Recovery S) → IsWal x → IsWal y → IsWal (if b then x else y)
  if-IsWal true x y h g = h
  if-IsWal false x y h g = g

  -- A number that no entry took.
  skip-IsWal :
      (r : Recovery S) (n : ℕ)
      → Wal r.log_file r.log_buffer n r.active_transactions_cache
      → r.next_log_id ≡ n + 1
      → IsWal r
  skip-IsWal r n h next = record {
    on_disk = h.on_disk;
    written = h.written;
    numbered = IsNumbered-le 1 (h.on_disk ++ r.log_buffer) n r.next_log_id h.numbered (omega arith);
    tracked = h.tracked;
  }

  log_update-IsWal :
      (rows : List Row) (e : LogEntry) (r : Recovery S) (n : ℕ)
      → Wal r.log_file r.log_buffer n r.active_transactions_cache
      → e.log_id ≡ n
      → r.next_log_id ≡ n + 1
      → e.operation ≡ update
      → IsWal (log_update rows e r)
  unfolding log_update
  log_update-IsWal [] e r n h id next op = skip-IsWal r n h next
  log_update-IsWal (row ∷ []) e r n h id next op = skip-IsWal r n h next
  log_update-IsWal (old ∷ new ∷ rows) e r n h id next op =
      buffer_entry-IsWal
        (record e { table_name = old.table_name; old_value = old; new_value = new }) r n
        r.active_transactions_cache h id next (λ tid. rw op (ground arith))

module _ {ℓ} {S : Type ℓ} (engine : StorageEngine S) where
  log_drop-IsWal :
      (kept : Option TableSchema) (table : Text) (e : LogEntry) (r : Recovery S) (n : ℕ)
      → Wal r.log_file r.log_buffer n r.active_transactions_cache
      → e.log_id ≡ n
      → r.next_log_id ≡ n + 1
      → e.operation ≡ drop_table
      → IsWal (log_drop engine kept table e r)
  unfolding log_drop
  log_drop-IsWal (some schema) table e r n h id next op =
      buffer_entry-IsWal _ _ n r.active_transactions_cache h id next (λ tid. rw op (ground arith))
  log_drop-IsWal none table e r n h id next op =
      buffer_entry-IsWal _ _ n r.active_transactions_cache h id next (λ tid. rw op (ground arith))

  log_operation-IsWal :
      (op : Operation) (info : ExecutionResult) (e : LogEntry) (r : Recovery S) (n : ℕ)
      → Wal r.log_file r.log_buffer n r.active_transactions_cache
      → e.log_id ≡ n
      → r.next_log_id ≡ n + 1
      → e.operation ≡ op
      → IsWal (log_operation engine op info e r)
  unfolding log_operation
  log_operation-IsWal insert info e r n h id next op =
      buffer_entry-IsWal _ _ n r.active_transactions_cache h id next (λ tid. rw op (ground arith))
  log_operation-IsWal update info e r n h id next op = log_update-IsWal info.rows e r n h id next op
  log_operation-IsWal delete info e r n h id next op =
      buffer_entry-IsWal _ _ n r.active_transactions_cache h id next (λ tid. rw op (ground arith))
  log_operation-IsWal begin info e r n h id next op =
      buffer_entry-IsWal _ _ n r.active_transactions_cache h id next
        (λ tid. rw op (contains-insert e.transaction_id tid r.active_transactions_cache))
  log_operation-IsWal commit info e r n h id next op =
      buffer_entry-IsWal _ _ n r.active_transactions_cache h id next
        (λ tid. rw op (contains-erase e.transaction_id tid r.active_transactions_cache))
  log_operation-IsWal abort info e r n h id next op =
      buffer_entry-IsWal _ _ n r.active_transactions_cache h id next
        (λ tid. rw op (contains-erase e.transaction_id tid r.active_transactions_cache))
  log_operation-IsWal create_table info e r n h id next op =
      buffer_entry-IsWal _ _ n r.active_transactions_cache h id next (λ tid. rw op (ground arith))
  log_operation-IsWal drop_table info e r n h id next op =
      log_drop-IsWal (find info.table_name r.pending_drop_schemas) info.table_name e r n h id next
        op
  log_operation-IsWal checkpoint info e r n h id next op =
      buffer_entry-IsWal _ _ n r.active_transactions_cache h id next (λ tid. rw op (ground arith))
  log_operation-IsWal (Operation.unlisted k) info e r n h id next op =
      buffer_entry-IsWal _ _ n r.active_transactions_cache h id next (λ tid. rw op (ground arith))

  pub write_log-IsWal :
      (info : ExecutionResult) (r : Recovery S) → IsWal r → IsWal (write_log engine info r)
  unfolding write_log
  write_log-IsWal info r h =
      let op = determine_operation_type info.query in
      if-IsWal info.success
        (log_operation engine op info
          (record (new_entry r.next_log_id info.transaction_id info.timestamp op) {
            query = info.query;
          })
          (take_id r))
        r
        (log_operation-IsWal op info
          (record (new_entry r.next_log_id info.transaction_id info.timestamp op) {
            query = info.query;
          })
          (take_id r) r.next_log_id h refl refl refl)
        h
