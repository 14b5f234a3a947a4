-- ===== src/Recovery/Crash/Restart.antt =====
-- A crash of a manager whose log keeps its invariant, and the restart behind it.
use mathlib.Core.List.{append-nil}
use tubes_if3140_sistem_basi.Base.{
  ℕ, List, [], ◌∷◌, ◌++◌, Bool, false, ◌==◌, if◌then◌else◌, ◌≡◌, refl, sym, ap, ap₂, ◌∙◌, All, map,
}
use tubes_if3140_sistem_basi.Base.Set.{contains}
use tubes_if3140_sistem_basi.Recovery.Entry.{
  LogEntry, Operation, begin, commit, abort, update, insert, delete, checkpoint, create_table,
  drop_table, new_entry,
}
use tubes_if3140_sistem_basi.Recovery.Codec.{write_all}
use tubes_if3140_sistem_basi.Recovery.LogFile.{write_log_to_file, read_all_logs}
use tubes_if3140_sistem_basi.Recovery.LogFile.RoundTrip.{IsLoggable, kept, kept_body}
use tubes_if3140_sistem_basi.Recovery.LogFile.Whole.{read_all_logs-write}
use tubes_if3140_sistem_basi.Recovery.Storage.{StorageEngine}
use tubes_if3140_sistem_basi.Recovery.Manager.{Recovery}
use tubes_if3140_sistem_basi.Recovery.Manager.Wal.{is_active, after_entry, status_after, IsWal}
use tubes_if3140_sistem_basi.Recovery.Crash.{
  is_checkpoint, redo_start, analyse, recover_logs, recover_from_crash,
}
use tubes_if3140_sistem_basi.Recovery.Crash.Scan.{NoCheckpoint, analyse-NoCheckpoint}
use tubes_if3140_sistem_basi.Recovery.Crash.Phases.{
  redo_each, undo_each, committed_changes, open_changes, redo_phase_lem, undo_phase_lem,
}

kept_body_lem :
    (op : Operation) (e new : LogEntry)
    → ((kept_body op e new).operation ≡ new.operation)
      × ((kept_body op e new).transaction_id ≡ new.transaction_id)
kept_body_lem begin e new = (refl, refl)
kept_body_lem commit e new = (refl, refl)
kept_body_lem abort e new = (refl, refl)
kept_body_lem update e new = (refl, refl)
kept_body_lem insert e new = (refl, refl)
kept_body_lem delete e new = (refl, refl)
kept_body_lem checkpoint e new = (refl, refl)
kept_body_lem create_table e new = (refl, refl)
kept_body_lem drop_table e new = (refl, refl)
kept_body_lem (Operation.unlisted n) e new = (refl, refl)

pub kept_lem :
    (e : LogEntry)
    → ((kept e).operation ≡ e.operation) × ((kept e).transaction_id ≡ e.transaction_id)
kept_lem e =
    kept_body_lem e.operation e (new_entry e.log_id e.transaction_id e.timestamp e.operation)

is_active-kept :
    (tid : ℕ) (es : List LogEntry) (a : Bool) → is_active tid (map kept es) a ≡ is_active tid es a
is_active-kept tid [] a = refl
is_active-kept tid (e ∷ es) a =
    is_active-kept tid es (after_entry tid (kept e) a)
    ∙ ap (is_active tid es)
        (ap₂ (λ op t. if t == tid then status_after op a else a) (kept_lem e).0 (kept_lem e).1)

pub kept-NoCheckpoint : (es : List LogEntry) → NoCheckpoint es → NoCheckpoint (map kept es)
kept-NoCheckpoint [] h = tt
kept-NoCheckpoint (e ∷ es) h = (ap is_checkpoint (kept_lem e).0 ∙ h.0, kept-NoCheckpoint es h.1)

-- Where every record is on disk and no checkpoint is, the analysis after a crash puts exactly those
-- transactions into the undo list that the cache held when the program stopped: the log alone gives
-- the cache back. The file's entries fit its fields.
pub analyse-cache {ℓ} :
    {S : Type ℓ} (r : Recovery S) (h : IsWal r) (tid : ℕ)
    → r.log_buffer ≡ []
    → All IsLoggable h.on_disk
    → NoCheckpoint h.on_disk
    → contains tid (analyse (read_all_logs r.log_file)).undo_list
      ≡ contains tid r.active_transactions_cache
analyse-cache r h tid flushed fits none_saved =
    ap (λ es. contains tid (analyse es).undo_list)
      (ap read_all_logs h.written ∙ read_all_logs-write h.on_disk fits)
    ∙ (analyse-NoCheckpoint tid (map kept h.on_disk) (kept-NoCheckpoint h.on_disk none_saved)).0
    ∙ is_active-kept tid h.on_disk false
    ∙ ap (λ es. is_active tid es false)
        (sym (append-nil h.on_disk) ∙ ap (λ b. h.on_disk ++ b) (sym flushed))
    ∙ sym (h.tracked tid)

module _ {ℓ} {S : Type ℓ} (engine : StorageEngine S) where
  -- What recovery makes of a log: the committed changes are redone in the order of the log, then the
  -- open ones undone from its end, then the storage is flushed.
  abbrev pub restored : List LogEntry → S → S
  restored es s = engine.checkpoint (
      undo_each engine (open_changes (analyse es).undo_list es)
        (redo_each engine (committed_changes (analyse es).committed_txs (redo_start es).scanned) s))

  restore_lem :
      (e : LogEntry) (es : List LogEntry) (r : Recovery S)
      → (recover_logs engine (e ∷ es) r).storage ≡ restored (e ∷ es) r.storage
  unfolding recover_logs
  restore_lem e es r =
      let found = analyse (e ∷ es) in
      let scanned = (redo_start (e ∷ es)).scanned in
      ap engine.checkpoint (
        undo_phase_lem engine found.undo_list (e ∷ es) _
        ∙ ap (undo_each engine (open_changes found.undo_list (e ∷ es)))
            (redo_phase_lem engine found.committed_txs scanned r.storage))

  -- Recovering from a log file with at least one entry redoes the changes of the committed
  -- transactions from the last checkpoint on, in the order of the log, then undoes from the end of the
  -- log the changes of the transactions in the undo list, then flushes the storage; it removes the
  -- marker, and leaves the log file, the buffer and the cache as they are. The file's entries fit its
  -- fields.
  pub recover_from_crash-restored :
      (r : Recovery S) (e : LogEntry) (es : List LogEntry)
      → r.log_file ≡ write_all write_log_to_file (e ∷ es)
      → All IsLoggable (e ∷ es)
      → ((recover_from_crash engine r).storage ≡ restored (map kept (e ∷ es)) r.storage)
        × ((recover_from_crash engine r).running_marker ≡ false)
        × ((recover_from_crash engine r).log_file ≡ r.log_file)
        × ((recover_from_crash engine r).log_buffer ≡ r.log_buffer)
        × ((recover_from_crash engine r).active_transactions_cache ≡ r.active_transactions_cache)
  unfolding recover_from_crash recover_logs
  recover_from_crash-restored r e es written fits =
      let read = ap read_all_logs written ∙ read_all_logs-write (e ∷ es) fits in
      (
        ap (λ l. (recover_logs engine l r).storage) read ∙ restore_lem (kept e) (map kept es) r,
        ap (λ l. (recover_logs engine l r).running_marker) read,
        ap (λ l. (recover_logs engine l r).log_file) read,
        ap (λ l. (recover_logs engine l r).log_buffer) read,
        ap (λ l. (recover_logs engine l r).active_transactions_cache) read,
      )
