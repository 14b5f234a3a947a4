-- ===== src/Recovery/Crash.antt =====
-- `recover_from_crash` and the construction of the manager, in
-- src/failure_recovery/failure_recovery.cpp.
pub mod Scan
pub mod Phases
pub mod Restart
pub mod Repeated
pub mod Saved
use tubes_if3140_sistem_basi.Base.{
  ℕ, ◌+◌, List, [], ◌∷◌, ◌++◌, Bool, true, false, ◌&&◌, ◌||◌, Option, none, some, if◌then◌else◌,
  reverse,
}
use tubes_if3140_sistem_basi.Base.Set
use tubes_if3140_sistem_basi.Base.Set.{is_empty, contains}
use tubes_if3140_sistem_basi.Recovery.Entry.{
  LogEntry, Operation, begin, commit, abort, update, insert, delete, checkpoint, create_table,
  drop_table,
}
use tubes_if3140_sistem_basi.Recovery.LogFile.{read_all_logs}
use tubes_if3140_sistem_basi.Recovery.CheckpointList.{parse_checkpoint_list}
use tubes_if3140_sistem_basi.Recovery.Storage.{StorageEngine, undo_operation, redo_operation}
use tubes_if3140_sistem_basi.Recovery.Manager.{Recovery, changes_rows, save_checkpoint}

-- INSERT, UPDATE, DELETE, CREATE_TABLE, DROP_TABLE
abbrev pub is_change : Operation → Bool
is_change create_table = true
is_change drop_table = true
is_change begin = false
is_change commit = false
is_change abort = false
is_change checkpoint = false
is_change insert = true
is_change update = true
is_change delete = true
is_change (Operation.unlisted n) = false

abbrev pub is_checkpoint : Operation → Bool
is_checkpoint checkpoint = true
is_checkpoint begin = false
is_checkpoint commit = false
is_checkpoint abort = false
is_checkpoint insert = false
is_checkpoint update = false
is_checkpoint delete = false
is_checkpoint create_table = false
is_checkpoint drop_table = false
is_checkpoint (Operation.unlisted n) = false

-- The entries from the last checkpoint on, or all of them; and the transactions that the
-- checkpoint lists.
pub record Start : Type 0 where
  pub listed : List ℕ
  pub scanned : List LogEntry

unfoldable pub last_checkpoint : List LogEntry → Option Start
last_checkpoint [] = none
last_checkpoint (e ∷ es) = elim (last_checkpoint es) [
  | some start ↦ some start
  | none ↦
      if is_checkpoint e.operation
      then some record { listed = parse_checkpoint_list e.query; scanned = e ∷ es }
      else none
]

-- Without a checkpoint the scan takes the whole log.
unfoldable pub start_of : List LogEntry → Option Start → Start
start_of es (some start) = start
start_of es none = record { listed = []; scanned = es }

unfoldable pub redo_start : List LogEntry → Start
unfolding start_of
redo_start es = start_of es (last_checkpoint es)

-- The two sets of the analysis.
pub record Analysis : Type 0 where
  pub undo_list : List ℕ
  pub committed_txs : List ℕ

unfoldable pub note : Operation → ℕ → Analysis → Analysis
note begin tid a = record a { undo_list = Set.insert tid a.undo_list }
note commit tid a = record a {
  undo_list = Set.erase tid a.undo_list;
  committed_txs = Set.insert tid a.committed_txs;
}
note abort tid a = record a { undo_list = Set.erase tid a.undo_list }
note insert tid a = a
note update tid a = a
note delete tid a = a
note checkpoint tid a = a
note create_table tid a = a
note drop_table tid a = a
note (Operation.unlisted n) tid a = a

unfoldable pub scan : List LogEntry → Analysis → Analysis
scan [] a = a
scan (e ∷ es) a = scan es (note e.operation e.transaction_id a)

unfoldable pub analyse : List LogEntry → Analysis
analyse es =
    scan (redo_start es).scanned record { undo_list = (redo_start es).listed; committed_txs = [] }

-- The copy of the undo list behind one entry.
unfoldable pub leave_at : Operation → ℕ → List ℕ → List ℕ
leave_at begin tid open_txs = Set.erase tid open_txs
leave_at commit tid open_txs = open_txs
leave_at abort tid open_txs = open_txs
leave_at insert tid open_txs = open_txs
leave_at update tid open_txs = open_txs
leave_at delete tid open_txs = open_txs
leave_at checkpoint tid open_txs = open_txs
leave_at create_table tid open_txs = open_txs
leave_at drop_table tid open_txs = open_txs
leave_at (Operation.unlisted n) tid open_txs = open_txs

unfoldable pub next_open : List ℕ → LogEntry → List ℕ
next_open open_txs e =
    if contains e.transaction_id open_txs
    then leave_at e.operation e.transaction_id open_txs
    else open_txs

-- `existing.back().log_id + 1`
unfoldable pub id_after : ℕ → List LogEntry → ℕ
id_after id [] = id
id_after id (e ∷ es) = id_after (e.log_id + 1) es

module _ {ℓ} {S : Type ℓ} (engine : StorageEngine S) where
  -- The changes of committed transactions, forward.
  unfoldable pub redo_changes : List ℕ → List LogEntry → S → S
  redo_changes committed [] s = s
  redo_changes committed (e ∷ es) s = redo_changes committed es (
      if contains e.transaction_id committed && is_change e.operation
      then (redo_operation engine e s).0
      else s)

  unfoldable pub redo_phase : List ℕ → List LogEntry → S → S
  redo_phase committed es s = if is_empty committed then s else redo_changes committed es s

  unfoldable pub undo_step : List ℕ → LogEntry → S → S
  undo_step open_txs e s =
      if contains e.transaction_id open_txs && is_change e.operation
      then (undo_operation engine e s).0
      else s

  -- The entries come from the last to the first. A transaction is left at its BEGIN, and the scan
  -- ends when no transaction is left.
  unfoldable pub undo_changes : List ℕ → List LogEntry → S → S
  undo_changes open_txs [] s = s
  undo_changes open_txs (e ∷ es) s =
      let rest = undo_changes (next_open open_txs e) es (undo_step open_txs e s) in
      if is_empty (next_open open_txs e) then undo_step open_txs e s else rest

  unfoldable pub undo_phase : List ℕ → List LogEntry → S → S
  undo_phase undo_list es s =
      if is_empty undo_list then s else undo_changes undo_list (reverse es) s

  -- A log with no entry leaves the storage and the marker as they are.
  unfoldable pub recover_logs : List LogEntry → Recovery S → Recovery S
  recover_logs [] r = r
  recover_logs (e ∷ es) r =
      let found = analyse (e ∷ es) in
      let redone = redo_phase found.committed_txs (redo_start (e ∷ es)).scanned r.storage in
      record r {
        storage = engine.checkpoint (undo_phase found.undo_list (e ∷ es) redone);
        running_marker = false;
      }

  unfoldable pub recover_from_crash : Recovery S → Recovery S
  recover_from_crash r = recover_logs (read_all_logs r.log_file) r

  -- The constructor: it recovers if the marker is there, and sets it.
  unfoldable pub construct : Recovery S → Recovery S
  construct r =
      let fresh = record r {
        log_buffer = [];
        active_transactions_cache = [];
        checkpoints = [];
        pending_drop_schemas = [];
        next_log_id = 1;
        next_checkpoint_id = 1;
      } in
      let recovered = if r.running_marker then recover_from_crash fresh else fresh in
      record recovered {
        running_marker = true;
        next_log_id = id_after 1 (read_all_logs recovered.log_file);
      }

  -- The destructor: the marker goes, and a checkpoint is saved.
  unfoldable pub destruct : ℕ → ℕ → ℕ → Recovery S → Recovery S
  destruct start_time end_time now r =
      save_checkpoint engine start_time end_time now (record r { running_marker = false })
