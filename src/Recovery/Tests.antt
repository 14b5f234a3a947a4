-- ===== src/Recovery/Tests.antt =====
-- Runs of the recovery manager over a small storage engine, and the theorems at concrete logs.
use tubes_if3140_sistem_basi.Base.{
  ℕ, List, [], ◌∷◌, ◌++◌, true, false, none, some, ◌≡◌, refl, ap, arith, map, ◌==◌, ◌<◌, ◌^◌, All,
  if◌then◌else◌,
}
use tubes_if3140_sistem_basi.Base.Set.{contains}
use tubes_if3140_sistem_basi.Types.{Row, Condition, int, empty_row}
use tubes_if3140_sistem_basi.Recovery.Entry
use tubes_if3140_sistem_basi.Recovery.Entry.{
  LogEntry, Operation, begin, commit, insert, update, checkpoint, new_entry, word_select,
}
use tubes_if3140_sistem_basi.Recovery.Codec.{write_all}
use tubes_if3140_sistem_basi.Recovery.Codec.RoundTrip.{IsStorable}
use tubes_if3140_sistem_basi.Recovery.Crash
use tubes_if3140_sistem_basi.Base.Set
use tubes_if3140_sistem_basi.Base.Numbers
use tubes_if3140_sistem_basi.Base.Strings
use tubes_if3140_sistem_basi.Recovery.LogFile.{write_log_to_file, read_log_from_file, read_all_logs}
use tubes_if3140_sistem_basi.Recovery.LogFile.RoundTrip.{kept, IsLoggable}
use tubes_if3140_sistem_basi.Recovery.LogFile.Whole.{
  read_log_from_file-write_log_to_file, read_all_logs-write,
}
use tubes_if3140_sistem_basi.Recovery.CheckpointList.{
  parse_checkpoint_list, active_transactions_str,
}
use tubes_if3140_sistem_basi.Recovery.CheckpointList
use tubes_if3140_sistem_basi.Recovery.Storage
use tubes_if3140_sistem_basi.Recovery.Storage.{StorageEngine}
use tubes_if3140_sistem_basi.Recovery.Manager.{
  Recovery, ExecutionResult, write_log, abort_transaction, commit_transaction,
}
use tubes_if3140_sistem_basi.Recovery.Manager.Wal.{IsWal, is_active}
use tubes_if3140_sistem_basi.Recovery.Manager.Run.{
  fresh, run, run-IsWal, Call, commit_entry, commit_transaction-durable,
}
use tubes_if3140_sistem_basi.Recovery.Manager.Faults.{abort_transaction-after_select}
use tubes_if3140_sistem_basi.Recovery.Crash.{analyse, redo_phase, undo_phase, recover_from_crash}
use tubes_if3140_sistem_basi.Recovery.Crash.Scan.{
  NoCheckpoint, has_commit, analyse-NoCheckpoint, analyse-checkpoint,
}
use tubes_if3140_sistem_basi.Recovery.Crash.Phases.{open_changes, undo_each, undo_phase_lem}
use tubes_if3140_sistem_basi.Recovery.Crash.Saved.{analyse-saved}
use tubes_if3140_sistem_basi.Recovery.Manager.{end_prefix}
use tubes_if3140_sistem_basi.Recovery.Crash.Restart.{
  analyse-cache, recover_from_crash-restored, restored,
}
use tubes_if3140_sistem_basi.Recovery.Crash.Repeated.{
  recover_from_crash-undone_twice, changes_of, undone,
}

-- A storage of rows; a row is found by its number.
row_condition : Row → Condition
row_condition row = record {
  column = [];
  operation = [];
  operand = int row.row_id;
  logical_operator = [];
}

without : ℕ → List Row → List Row
without id [] = []
without id (row ∷ rows) =
    let rest = without id rows in if row.row_id == id then rest else row ∷ rest

abbrev matched : List Condition → List Row → List Row
matched [] rows = rows
matched (c ∷ cs) rows = elim c.operand [ int id ↦ without id rows | _ ↦ rows ]

abbrev engine : StorageEngine (List Row)
engine = record {
  get_table_schema = λ table s. none;
  row_to_conditions = λ row table s. some (row_condition row ∷ []);
  write_block = λ w s. (some 1, w.new_value ∷ (if w.is_insert then s else matched w.conditions s));
  delete_block = λ d s. (some 1, matched d.conditions s);
  create_table = λ schema s. (some true, s);
  drop_table = λ table s. (some true, []);
  checkpoint = λ s. s;
}

abbrev row : ℕ → ℕ → Row
row id v = record empty_row { columns = ((b'a' ∷ []), int v) ∷ []; row_id = id }

-- Transaction 1 inserts a row and commits; transaction 2 inserts one and does not.
abbrev begin_1 : LogEntry
begin_1 = new_entry 1 1 0 begin

abbrev insert_1 : LogEntry
insert_1 = record (new_entry 2 1 0 insert) { new_value = row 7 70 }

abbrev commit_1 : LogEntry
commit_1 = new_entry 3 1 0 commit

abbrev begin_2 : LogEntry
begin_2 = new_entry 4 2 0 begin

abbrev insert_2 : LogEntry
insert_2 = record (new_entry 5 2 0 insert) { new_value = row 8 80 }

abbrev crashed : List LogEntry
crashed = begin_1 ∷ insert_1 ∷ commit_1 ∷ begin_2 ∷ insert_2 ∷ []

row-IsStorable : (id v : ℕ) → id < 2 ^ 32 → v < 2 ^ 32 → IsStorable (row id v)
row-IsStorable id v h g = record {
  name = omega arith;
  count = omega arith;
  order = (tt, tt);
  columns = ((omega arith, g), tt);
  id = h;
}

begin_1-IsLoggable : IsLoggable begin_1
begin_1-IsLoggable = record {
  id = omega arith;
  tid = omega arith;
  time = omega arith;
  operation = tt;
  body = omega arith;
}

insert_1-IsLoggable : IsLoggable insert_1
insert_1-IsLoggable = record {
  id = omega arith;
  tid = omega arith;
  time = omega arith;
  operation = tt;
  body = (omega arith, row-IsStorable 7 70 (omega arith) (omega arith), omega arith);
}

commit_1-IsLoggable : IsLoggable commit_1
commit_1-IsLoggable = record {
  id = omega arith;
  tid = omega arith;
  time = omega arith;
  operation = tt;
  body = omega arith;
}

begin_2-IsLoggable : IsLoggable begin_2
begin_2-IsLoggable = record {
  id = omega arith;
  tid = omega arith;
  time = omega arith;
  operation = tt;
  body = omega arith;
}

insert_2-IsLoggable : IsLoggable insert_2
insert_2-IsLoggable = record {
  id = omega arith;
  tid = omega arith;
  time = omega arith;
  operation = tt;
  body = (omega arith, row-IsStorable 8 80 (omega arith) (omega arith), omega arith);
}

crashed-IsLoggable : All IsLoggable crashed
crashed-IsLoggable = (
  begin_1-IsLoggable,
  (insert_1-IsLoggable, (commit_1-IsLoggable, (begin_2-IsLoggable, (insert_2-IsLoggable, tt)))),
)

crashed-NoCheckpoint : NoCheckpoint crashed
crashed-NoCheckpoint = (refl, (refl, (refl, (refl, (refl, tt)))))

read_log_from_file-write_log_to_file_example :
    read_log_from_file (write_log_to_file insert_1 ++ (1 ∷ 2 ∷ []))
    ≡ some (kept insert_1, 1 ∷ 2 ∷ [])
read_log_from_file-write_log_to_file_example =
    read_log_from_file-write_log_to_file insert_1 (1 ∷ 2 ∷ []) insert_1-IsLoggable

read_all_logs-write_example : read_all_logs (write_all write_log_to_file crashed) ≡ map kept crashed
read_all_logs-write_example = read_all_logs-write crashed crashed-IsLoggable

abbrev begin_query : ExecutionResult
begin_query = record {
  transaction_id = 1;
  timestamp = 0;
  query = [];
  rows = [];
  success = true;
  table_name = [];
}

-- An abort of transaction 1 with a checkpoint between its parts.
abbrev parted_abort : List Call
parted_abort =
    Call.log begin_query
    ∷ Call.restore 1
    ∷ Call.save 0 0 1
    ∷ Call.flush_pages
    ∷ Call.end_abort 0 1
    ∷ []

run-IsWal_example : IsWal (run engine parted_abort (fresh true []))
run-IsWal_example = run-IsWal engine parted_abort true []

-- Transaction 1 has begun, and its record is in the buffer.
abbrev begun : Recovery (List Row)
begun = record (fresh true []) {
  log_buffer = begin_1 ∷ [];
  active_transactions_cache = 1 ∷ [];
  next_log_id = 2;
}

begun-IsWal : IsWal begun
unfolding write_all contains
begun-IsWal = record {
  on_disk = [];
  written = refl;
  numbered = (omega arith, omega arith);
  tracked = λ tid. ground arith;
}

begun-commit : IsLoggable (commit_entry engine 0 1 begun)
begun-commit = record {
  id = omega arith;
  tid = omega arith;
  time = omega arith;
  operation = tt;
  body = omega arith;
}

commit_transaction-durable_example :
    (read_all_logs (commit_transaction engine 0 1 begun).log_file
      ≡ map kept (begin_1 ∷ commit_entry engine 0 1 begun ∷ []))
    × ((commit_transaction engine 0 1 begun).log_buffer ≡ [])
unfolding begun-IsWal
commit_transaction-durable_example =
    commit_transaction-durable engine 0 1 begun begun-IsWal refl
      (begin_1-IsLoggable, (begun-commit, tt))

abbrev select_query : ExecutionResult
select_query = record begin_query { query = word_select }

abort_transaction-after_select_example :
    abort_transaction engine 0 1 (write_log engine select_query begun)
    ≡ write_log engine select_query begun
unfolding Entry.take_word Strings.skip_while
abort_transaction-after_select_example =
    abort_transaction-after_select engine 0 select_query begun refl refl

analyse-NoCheckpoint_example :
    (contains 2 (analyse crashed).undo_list ≡ is_active 2 crashed false)
    × (contains 2 (analyse crashed).committed_txs ≡ has_commit 2 crashed false)
analyse-NoCheckpoint_example = analyse-NoCheckpoint 2 crashed crashed-NoCheckpoint

-- A checkpoint that lists transactions 2 and 5.
abbrev saved : LogEntry
saved = record (new_entry 6 4 0 checkpoint) { query = b'[' ∷ b'2' ∷ b',' ∷ b'5' ∷ b']' ∷ [] }

analyse-checkpoint_example :
    (contains 2 (analyse (crashed ++ (saved ∷ commit_1 ∷ []))).undo_list
      ≡ is_active 2 (commit_1 ∷ []) (contains 2 (parse_checkpoint_list saved.query)))
    × (contains 2 (analyse (crashed ++ (saved ∷ commit_1 ∷ []))).committed_txs
        ≡ has_commit 2 (commit_1 ∷ []) false)
analyse-checkpoint_example = analyse-checkpoint 2 crashed saved (commit_1 ∷ []) refl (refl, tt)

-- The checkpoint that lists transactions 2 and 5 as `save_checkpoint` prints them.
abbrev printed : LogEntry
printed = record (new_entry 6 4 0 checkpoint) {
  query = end_prefix ++ active_transactions_str (2 ∷ 5 ∷ []);
}

analyse-saved_example :
    contains 2 (analyse (crashed ++ (printed ∷ commit_1 ∷ []))).undo_list
    ≡ is_active 2 (commit_1 ∷ []) (contains 2 (2 ∷ 5 ∷ []))
analyse-saved_example =
    analyse-saved 2 (2 ∷ 5 ∷ []) crashed printed (commit_1 ∷ []) (omega arith, (omega arith, tt))
      refl refl (refl, tt)

undo_phase_lem_example :
    undo_phase engine (2 ∷ []) crashed (row 8 80 ∷ row 7 70 ∷ [])
    ≡ undo_each engine (open_changes (2 ∷ []) crashed) (row 8 80 ∷ row 7 70 ∷ [])
undo_phase_lem_example = undo_phase_lem engine (2 ∷ []) crashed (row 8 80 ∷ row 7 70 ∷ [])

-- The program stopped with all of `crashed` on disk.
abbrev stopped : Recovery (List Row)
stopped = record (fresh true []) {
  log_file = write_all write_log_to_file crashed;
  active_transactions_cache = 2 ∷ [];
  next_log_id = 6;
}

stopped-IsWal : IsWal stopped
unfolding contains
stopped-IsWal = record {
  on_disk = crashed;
  written = refl;
  numbered = (omega arith, (omega arith, (omega arith, (omega arith, (omega arith, omega arith)))));
  tracked = λ tid. ground arith;
}

analyse-cache_example :
    contains 2 (analyse (read_all_logs stopped.log_file)).undo_list
    ≡ contains 2 stopped.active_transactions_cache
unfolding stopped-IsWal
analyse-cache_example =
    analyse-cache stopped stopped-IsWal 2 refl crashed-IsLoggable crashed-NoCheckpoint

recover_from_crash-restored_example :
    ((recover_from_crash engine stopped).storage ≡ restored engine (map kept crashed) [])
    × ((recover_from_crash engine stopped).running_marker ≡ false)
    × ((recover_from_crash engine stopped).log_file ≡ stopped.log_file)
    × ((recover_from_crash engine stopped).log_buffer ≡ [])
    × ((recover_from_crash engine stopped).active_transactions_cache ≡ 2 ∷ [])
recover_from_crash-restored_example =
    recover_from_crash-restored engine stopped begin_1
      (insert_1 ∷ commit_1 ∷ begin_2 ∷ insert_2 ∷ []) refl crashed-IsLoggable

-- The crash after `stopped` was recovered, and transaction 1 ran once more.
abbrev stopped_again : Recovery (List Row)
stopped_again = record (fresh true []) {
  log_file =
      (recover_from_crash engine stopped).log_file
      ++ write_all write_log_to_file (begin_1 ∷ commit_1 ∷ []);
}

recover_from_crash-undone_twice_example :
    ((recover_from_crash engine stopped).storage
      ≡ restored engine (read_all_logs stopped.log_file) stopped.storage)
    × ((recover_from_crash engine stopped_again).storage
        ≡ restored engine (read_all_logs stopped_again.log_file) stopped_again.storage)
    × (contains 2 (analyse (read_all_logs stopped_again.log_file)).undo_list
        ≡ contains 2 (analyse (read_all_logs stopped.log_file)).undo_list)
    × (changes_of 2 (undone (read_all_logs stopped_again.log_file))
        ≡ changes_of 2 (undone (read_all_logs stopped.log_file)))
recover_from_crash-undone_twice_example =
    recover_from_crash-undone_twice engine stopped stopped_again 2 begin_1
      (insert_1 ∷ commit_1 ∷ begin_2 ∷ insert_2 ∷ []) (begin_1 ∷ commit_1 ∷ []) refl
      crashed-IsLoggable (begin_1-IsLoggable, (commit_1-IsLoggable, tt)) crashed-NoCheckpoint
      (refl, (refl, tt)) (refl, (refl, tt)) refl

-- The row of the committed transaction is put again, that of the open one is taken out.
crashed_restored : (recover_from_crash engine stopped).storage ≡ row 7 70 ∷ []
unfolding recover_from_crash Crash.recover_logs analyse Crash.redo_start Crash.last_checkpoint
    Crash.scan Crash.note contains Set.insert Set.erase redo_phase Crash.redo_changes undo_phase
    Crash.undo_changes Crash.undo_step Crash.next_open Crash.leave_at Storage.undo_operation
    Storage.redo_operation Storage.undo Storage.redo Storage.on_conditions Storage.undo_insert
    Storage.redo_insert without row_condition
crashed_restored =
    rw
      (ap (λ l. (Crash.recover_logs engine l stopped).storage)
        (read_all_logs-write crashed crashed-IsLoggable))
      refl

-- An unknown record is no number and is left out; a list without brackets is empty.
listed_transactions :
    parse_checkpoint_list (b'[' ∷ b'7' ∷ b',' ∷ b'x' ∷ b',' ∷ b'1' ∷ b'2' ∷ b']' ∷ []) ≡ 7 ∷ 12 ∷ []
unfolding parse_checkpoint_list CheckpointList.split_at CheckpointList.add_tokens
    CheckpointList.add_token Numbers.stoi Numbers.signed Numbers.read_digits Strings.skip_while
    Set.insert
listed_transactions = refl

printed_transactions :
    active_transactions_str (7 ∷ 12 ∷ []) ≡ b'[' ∷ b'7' ∷ b',' ∷ b'1' ∷ b'2' ∷ b']' ∷ []
unfolding active_transactions_str CheckpointList.print_list Numbers.to_string Numbers.digits
printed_transactions = refl
