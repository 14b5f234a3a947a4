-- ===== src/Recovery/Manager/Run.antt =====
-- The log's invariant through any calls of the manager, and what a commit leaves on disk.
use tubes_if3140_sistem_basi.Base.{
  ℕ, List, [], ◌∷◌, ◌++◌, Bool, true, false, ◌||◌, Option, none, some, if◌then◌else◌, ◌≡◌, refl,
  sym, ap, ◌∙◌, arith, All, map,
}
use tubes_if3140_sistem_basi.Base.Set
use tubes_if3140_sistem_basi.Base.Set.{contains, is_empty, contains-insert, contains-erase}
use tubes_if3140_sistem_basi.Types.{minus_one}
use tubes_if3140_sistem_basi.Base.Key.{Text, text_key}
use tubes_if3140_sistem_basi.Recovery.Entry.{
  LogEntry, TableSchema, Operation, begin, commit, abort, update, insert, delete, checkpoint,
  create_table, drop_table, new_entry,
}
use tubes_if3140_sistem_basi.Recovery.Codec.{write_all}
use tubes_if3140_sistem_basi.Recovery.LogFile.{write_log_to_file, read_all_logs}
use tubes_if3140_sistem_basi.Recovery.Storage.{StorageEngine}
use tubes_if3140_sistem_basi.Recovery.Manager.{
  Recovery, ExecutionResult, flush_buffer, push_entry, take_id, write_log, append_record,
  flush_storage, commit_transaction, recover, abort_transaction, record_abort, save_checkpoint,
  keep_schema, prepare_ddl_operation, has_changes, commit_query, abort_query,
}
use tubes_if3140_sistem_basi.Recovery.Manager.Wal.{
  Wal, IsWal, Follows, push-Wal, flush_buffer-Wal, flush_buffer-cache, write_all-append,
}
use tubes_if3140_sistem_basi.Recovery.Manager.Logging.{if-IsWal, write_log-IsWal}
use tubes_if3140_sistem_basi.Recovery.LogFile.RoundTrip.{IsLoggable, kept}
use tubes_if3140_sistem_basi.Recovery.LogFile.Whole.{read_all_logs-write}

snoc_lem {ℓ} : {A : Type ℓ} (xs : List A) (x : A) → is_empty (xs ++ (x ∷ [])) ≡ false
snoc_lem [] x = refl
snoc_lem (y ∷ xs) x = refl

module _ {ℓ} {S : Type ℓ} (engine : StorageEngine S) where
  append_record-Wal :
      (now tid : ℕ) (op : Operation) (table query : Text) (r : Recovery S) (cache : List ℕ)
      → IsWal r
      → Follows (new_entry r.next_log_id tid now op) r.active_transactions_cache cache
      → Wal
          (append_record now tid op table query r).log_file
          (append_record now tid op table query r).log_buffer
          (append_record now tid op table query r).next_log_id
          cache
  unfolding append_record
  append_record-Wal now tid op table query r cache h follows =
      let e = record (new_entry r.next_log_id tid now op) { table_name = table; query = query } in
      flush_buffer-Wal (push_entry e (take_id r)) cache (
        push-Wal r.log_file r.log_buffer r.next_log_id r.active_transactions_cache cache e h refl
          follows)

  append_record-cache :
      (now tid : ℕ) (op : Operation) (table query : Text) (r : Recovery S)
      → (append_record now tid op table query r).active_transactions_cache
        ≡ r.active_transactions_cache
  unfolding append_record
  append_record-cache now tid op table query r = flush_buffer-cache _

  flush_buffer-IsWal : (r : Recovery S) → IsWal r → IsWal (flush_buffer r)
  flush_buffer-IsWal r h =
      rw (flush_buffer-cache r) (flush_buffer-Wal r r.active_transactions_cache h)

  commit_transaction-IsWal :
      (now tid : ℕ) (r : Recovery S) → IsWal r → IsWal (commit_transaction engine now tid r)
  unfolding commit_transaction
  commit_transaction-IsWal now tid r h = rw (append_record-cache now tid commit [] commit_query r) (
      append_record-Wal now tid commit [] commit_query r (Set.erase tid r.active_transactions_cache)
        h (λ t. contains-erase tid t r.active_transactions_cache))

  recover-IsWal : (tid : ℕ) (r : Recovery S) → IsWal r → IsWal (recover engine tid r)
  unfolding recover
  recover-IsWal tid r h = flush_buffer-IsWal r h

  record_abort-IsWal :
      (now tid : ℕ) (r : Recovery S) → IsWal r → IsWal (record_abort engine now tid r)
  record_abort-IsWal now tid r h = rw (append_record-cache now tid abort [] abort_query r) (
      append_record-Wal now tid abort [] abort_query r (Set.erase tid r.active_transactions_cache) h
        (λ t. contains-erase tid t r.active_transactions_cache))

  abort_transaction-IsWal :
      (now tid : ℕ) (r : Recovery S) → IsWal r → IsWal (abort_transaction engine now tid r)
  unfolding abort_transaction
  abort_transaction-IsWal now tid r h =
      let changed = has_changes tid r.log_buffer || has_changes tid (read_all_logs r.log_file) in
      let undone = if changed then flush_storage engine (recover engine tid r) else r in
      let undone-IsWal =
        if-IsWal changed (flush_storage engine (recover engine tid r)) r (recover-IsWal tid r h)
          h in
      if-IsWal (contains tid r.active_transactions_cache) (record_abort engine now tid undone) r
        (record_abort-IsWal now tid undone undone-IsWal) h

  -- A record of the system's own leaves the cache as it is.
  append_record-IsWal :
      (now : ℕ) (table query : Text) (r : Recovery S)
      → IsWal r
      → IsWal (append_record now minus_one checkpoint table query r)
  append_record-IsWal now table query r h =
      rw (append_record-cache now minus_one checkpoint table query r) (
        append_record-Wal now minus_one checkpoint table query r r.active_transactions_cache h
          (λ t. ground arith))

  save_checkpoint-IsWal :
      (start_time end_time now : ℕ) (r : Recovery S)
      → IsWal r
      → IsWal (save_checkpoint engine start_time end_time now r)
  unfolding save_checkpoint
  save_checkpoint-IsWal start_time end_time now r h =
      append_record-IsWal end_time _ _ _
        (append_record-IsWal start_time _ _ _ (flush_buffer-IsWal r h))

  keep_schema-IsWal :
      (o : Option TableSchema) (table : Text) (r : Recovery S)
      → IsWal r
      → IsWal (keep_schema o table r)
  unfolding keep_schema
  keep_schema-IsWal none table r h = h
  keep_schema-IsWal (some schema) table r h = h

  prepare-IsWal :
      (op : Operation) (table : Text) (r : Recovery S)
      → IsWal r
      → IsWal (prepare_ddl_operation engine table op r)
  unfolding prepare_ddl_operation
  prepare-IsWal drop_table table r h =
      keep_schema-IsWal (engine.get_table_schema table r.storage) table r h
  prepare-IsWal begin table r h = h
  prepare-IsWal commit table r h = h
  prepare-IsWal abort table r h = h
  prepare-IsWal update table r h = h
  prepare-IsWal insert table r h = h
  prepare-IsWal delete table r h = h
  prepare-IsWal checkpoint table r h = h
  prepare-IsWal create_table table r h = h
  prepare-IsWal (Operation.unlisted n) table r h = h

-- A call of the manager: `write_log`, `commit_transaction`, `abort_transaction`, `save_checkpoint`,
-- `recover`, and `prepare_ddl_operation`, with the times that it reads from the clock.
-- Each runs under the manager's mutex but `abort_transaction`, which gives it up between its parts.
-- Where other calls come between them, the parts are calls of their own: `restore`, `flush_pages`
-- (the flush of the storage engine) and `end_abort` (the ABORT record and the cache). Its first two
-- locked parts only read.
pub data Call : Type 0 where
  log : ExecutionResult → Call
  finish : ℕ → ℕ → Call
  cancel : ℕ → ℕ → Call
  save : ℕ → ℕ → ℕ → Call
  restore : ℕ → Call
  prepare : Text → Operation → Call
  flush_pages : Call
  end_abort : ℕ → ℕ → Call

-- The manager before any call, over an empty log file.
abbrev pub fresh {ℓ} : {S : Type ℓ} → Bool → S → Recovery S
fresh opens s = record {
  log_buffer = [];
  active_transactions_cache = [];
  checkpoints = [];
  next_log_id = 1;
  next_checkpoint_id = 1;
  pending_drop_schemas = [];
  log_file = [];
  log_opens = opens;
  running_marker = true;
  storage = s;
}

module _ {ℓ} {S : Type ℓ} (engine : StorageEngine S) where
  unfoldable pub step : Call → Recovery S → Recovery S
  step (Call.log info) r = write_log engine info r
  step (Call.finish now tid) r = commit_transaction engine now tid r
  step (Call.cancel now tid) r = abort_transaction engine now tid r
  step (Call.save start_time end_time now) r = save_checkpoint engine start_time end_time now r
  step (Call.restore tid) r = recover engine tid r
  step (Call.prepare table op) r = prepare_ddl_operation engine table op r
  step Call.flush_pages r = flush_storage engine r
  step (Call.end_abort now tid) r = record_abort engine now tid r

  unfoldable pub run : List Call → Recovery S → Recovery S
  run [] r = r
  run (c ∷ cs) r = run cs (step c r)

  step-IsWal : (c : Call) (r : Recovery S) → IsWal r → IsWal (step c r)
  unfolding step
  step-IsWal (Call.log info) r h = write_log-IsWal engine info r h
  step-IsWal (Call.finish now tid) r h = commit_transaction-IsWal engine now tid r h
  step-IsWal (Call.cancel now tid) r h = abort_transaction-IsWal engine now tid r h
  step-IsWal (Call.save start_time end_time now) r h =
      save_checkpoint-IsWal engine start_time end_time now r h
  step-IsWal (Call.restore tid) r h = recover-IsWal engine tid r h
  step-IsWal (Call.prepare table op) r h = prepare-IsWal engine op table r h
  step-IsWal Call.flush_pages r h = h
  step-IsWal (Call.end_abort now tid) r h = record_abort-IsWal engine now tid r h

  calls-IsWal : (cs : List Call) (r : Recovery S) → IsWal r → IsWal (run cs r)
  unfolding run
  calls-IsWal [] r h = h
  calls-IsWal (c ∷ cs) r h = calls-IsWal cs (step c r) (step-IsWal c r h)

  -- After any calls on a new manager with an empty log, the log file holds whole entries and nothing
  -- else; these and the buffered ones bear rising numbers, each below the next number; and a
  -- transaction is in the cache exactly when the last BEGIN, COMMIT or ABORT of it among them is a
  -- BEGIN. This holds whether or not the file can be opened, and for every storage engine.
  pub run-IsWal : (cs : List Call) (opens : Bool) (s : S) → IsWal (run cs (fresh opens s))
  unfolding run write_all contains
  run-IsWal cs opens s =
      calls-IsWal cs (fresh opens s)
        record { on_disk = []; written = refl; numbered = omega arith; tracked = λ tid. refl }

  abbrev pub commit_entry : ℕ → ℕ → Recovery S → LogEntry
  commit_entry now tid r = record (new_entry r.next_log_id tid now Operation.commit) {
    query = commit_query;
  }

  -- When a commit returns and the log file could be opened, the file reads back as every entry it
  -- held before, then every entry that was buffered, then the commit record, and no entry is left in
  -- the buffer. The file's entries fit its fields.
  pub commit_transaction-durable :
      (now tid : ℕ) (r : Recovery S) (h : IsWal r)
      → r.log_opens ≡ true
      → All IsLoggable (h.on_disk ++ (r.log_buffer ++ (commit_entry now tid r ∷ [])))
      → (read_all_logs (commit_transaction engine now tid r).log_file
          ≡ map kept (h.on_disk ++ (r.log_buffer ++ (commit_entry now tid r ∷ []))))
        × ((commit_transaction engine now tid r).log_buffer ≡ [])
  unfolding commit_transaction append_record flush_buffer
  commit_transaction-durable now tid r h opens fits =
      rw (snoc_lem r.log_buffer (commit_entry now tid r), opens)
        (
          ap read_all_logs (
                ap
                  (λ s.
                    s
                    ++ write_all write_log_to_file (r.log_buffer ++ (commit_entry now tid r ∷ [])))
                  h.written
                ∙ sym (
                    write_all-append write_log_to_file h.on_disk
                      (r.log_buffer ++ (commit_entry now tid r ∷ []))))
              ∙ read_all_logs-write (h.on_disk ++ (r.log_buffer ++ (commit_entry now tid r ∷ [])))
                  fits,
          refl,
        )
