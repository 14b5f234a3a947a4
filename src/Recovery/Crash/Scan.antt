-- ===== src/Recovery/Crash/Scan.antt =====
-- What the analysis of a log after a crash finds.
use tubes_if3140_sistem_basi.Base.{
  ℕ, List, [], ◌∷◌, ◌++◌, Bool, true, false, ◌||◌, none, some, ◌==◌, if◌then◌else◌, ◌≡◌, refl, ap,
  ◌∙◌, arith, All,
}
use tubes_if3140_sistem_basi.Base.Set.{contains, contains-insert, contains-erase}
use tubes_if3140_sistem_basi.Recovery.Entry.{
  LogEntry, Operation, begin, commit, abort, update, insert, delete, checkpoint, create_table,
  drop_table,
}
use tubes_if3140_sistem_basi.Recovery.CheckpointList.{parse_checkpoint_list}
use tubes_if3140_sistem_basi.Recovery.Manager.Wal.{is_active, after_entry, status_after}
use tubes_if3140_sistem_basi.Recovery.Crash.{
  is_checkpoint, last_checkpoint, start_of, redo_start, Analysis, note, scan, analyse,
}

abbrev pub is_commit : Operation → Bool
is_commit commit = true
is_commit begin = false
is_commit abort = false
is_commit update = false
is_commit insert = false
is_commit delete = false
is_commit checkpoint = false
is_commit create_table = false
is_commit drop_table = false
is_commit (Operation.unlisted n) = false

-- Whether an entry of the log is a commit of the transaction, or was one before.
abbrev pub has_commit : ℕ → List LogEntry → Bool → Bool
has_commit tid [] b = b
has_commit tid (e ∷ es) b =
    has_commit tid es (if e.transaction_id == tid then is_commit e.operation || b else b)

abbrev pub Notes : ℕ → LogEntry → Analysis → Operation → Type 0
Notes tid e a op =
    (contains tid (note op e.transaction_id a).undo_list
      ≡ after_entry tid (record e { operation = op }) (contains tid a.undo_list))
    × (contains tid (note op e.transaction_id a).committed_txs ≡ (
        if e.transaction_id == tid
        then is_commit op || contains tid a.committed_txs
        else contains tid a.committed_txs))

note_lem : (tid : ℕ) (e : LogEntry) (a : Analysis) (op : Operation) → Notes tid e a op
unfolding note
note_lem tid e a begin = (contains-insert e.transaction_id tid a.undo_list, ground arith)
note_lem tid e a commit = (
  contains-erase e.transaction_id tid a.undo_list,
  contains-insert e.transaction_id tid a.committed_txs ∙ ground arith,
)
note_lem tid e a abort = (contains-erase e.transaction_id tid a.undo_list, ground arith)
note_lem tid e a update = (ground arith, ground arith)
note_lem tid e a insert = (ground arith, ground arith)
note_lem tid e a delete = (ground arith, ground arith)
note_lem tid e a checkpoint = (ground arith, ground arith)
note_lem tid e a create_table = (ground arith, ground arith)
note_lem tid e a drop_table = (ground arith, ground arith)
note_lem tid e a (Operation.unlisted n) = (ground arith, ground arith)

scan_lem :
    (tid : ℕ) (es : List LogEntry) (a : Analysis)
    → (contains tid (scan es a).undo_list ≡ is_active tid es (contains tid a.undo_list))
      × (contains tid (scan es a).committed_txs ≡ has_commit tid es (contains tid a.committed_txs))
unfolding scan
scan_lem tid [] a = (refl, refl)
scan_lem tid (e ∷ es) a =
    let later = scan_lem tid es (note e.operation e.transaction_id a) in
    let here = note_lem tid e a e.operation in
    (later.0 ∙ ap (is_active tid es) here.0, later.1 ∙ ap (has_commit tid es) here.1)

abbrev pub NoCheckpoint : List LogEntry → Type 0
NoCheckpoint es = All (λ e. is_checkpoint e.operation ≡ false) es

last_checkpoint-none : (es : List LogEntry) → NoCheckpoint es → last_checkpoint es ≡ none
unfolding last_checkpoint
last_checkpoint-none [] h = refl
last_checkpoint-none (e ∷ es) h = rw (last_checkpoint-none es h.1, h.0) refl

last_checkpoint-some :
    (front : List LogEntry) (c : LogEntry) (back : List LogEntry)
    → is_checkpoint c.operation ≡ true
    → NoCheckpoint back
    → last_checkpoint (front ++ (c ∷ back))
      ≡ some record { listed = parse_checkpoint_list c.query; scanned = c ∷ back }
unfolding last_checkpoint
last_checkpoint-some [] c back h g = rw (last_checkpoint-none back g, h) refl
last_checkpoint-some (e ∷ front) c back h g = rw (last_checkpoint-some front c back h g) refl

no_checkpoint_lem :
    (es : List LogEntry)
    → NoCheckpoint es
    → analyse es ≡ scan es record { undo_list = []; committed_txs = [] }
unfolding analyse redo_start
no_checkpoint_lem es h =
    ap
      (λ o.
        scan (start_of es o).scanned
          record { undo_list = (start_of es o).listed; committed_txs = [] })
      (last_checkpoint-none es h)

checkpoint_lem :
    (front : List LogEntry) (c : LogEntry) (back : List LogEntry)
    → is_checkpoint c.operation ≡ true
    → NoCheckpoint back
    → analyse (front ++ (c ∷ back))
      ≡ scan (c ∷ back) record { undo_list = parse_checkpoint_list c.query; committed_txs = [] }
unfolding analyse redo_start
checkpoint_lem front c back h g =
    ap
      (λ o.
        scan (start_of (front ++ (c ∷ back)) o).scanned
          record { undo_list = (start_of (front ++ (c ∷ back)) o).listed; committed_txs = [] })
      (last_checkpoint-some front c back h g)

-- A checkpoint's own record changes no transaction's status.
checkpoint-status :
    (op : Operation) (a : Bool)
    → is_checkpoint op ≡ true
    → (status_after op a ≡ a) × (is_commit op ≡ false)
checkpoint-status checkpoint a h = (refl, refl)
checkpoint-status begin a h = cc
checkpoint-status commit a h = cc
checkpoint-status abort a h = cc
checkpoint-status update a h = cc
checkpoint-status insert a h = cc
checkpoint-status delete a h = cc
checkpoint-status create_table a h = cc
checkpoint-status drop_table a h = cc
checkpoint-status (Operation.unlisted n) a h = cc

-- With no checkpoint in the log, a transaction is in the undo list exactly when its last BEGIN,
-- COMMIT or ABORT in the log is a BEGIN, and it counts as committed exactly when the log has a COMMIT
-- of it.
pub analyse-NoCheckpoint :
    (tid : ℕ) (es : List LogEntry)
    → NoCheckpoint es
    → (contains tid (analyse es).undo_list ≡ is_active tid es false)
      × (contains tid (analyse es).committed_txs ≡ has_commit tid es false)
unfolding contains
analyse-NoCheckpoint tid es h =
    rw (no_checkpoint_lem es h) (scan_lem tid es record { undo_list = []; committed_txs = [] })

-- With a checkpoint in the log, the analysis starts from the transactions that the last checkpoint
-- lists: one is in the undo list exactly when its last BEGIN, COMMIT or ABORT behind the checkpoint is
-- a BEGIN, or there is none and it is listed. It counts as committed exactly when there is a COMMIT
-- of it behind the checkpoint.
pub analyse-checkpoint :
    (tid : ℕ) (front : List LogEntry) (c : LogEntry) (back : List LogEntry)
    → is_checkpoint c.operation ≡ true
    → NoCheckpoint back
    → (contains tid (analyse (front ++ (c ∷ back))).undo_list
        ≡ is_active tid back (contains tid (parse_checkpoint_list c.query)))
      × (contains tid (analyse (front ++ (c ∷ back))).committed_txs ≡ has_commit tid back false)
unfolding contains
analyse-checkpoint tid front c back h g =
    let listed = parse_checkpoint_list c.query in
    let found = scan_lem tid (c ∷ back) record { undo_list = listed; committed_txs = [] } in
    let same = checkpoint-status c.operation (contains tid listed) h in
    rw (checkpoint_lem front c back h g) (
      found.0 ∙ ap (is_active tid back) (ground (arith, same.0)),
      found.1 ∙ ap (has_commit tid back) (ground (arith, same.1)),
    )
