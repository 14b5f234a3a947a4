-- ===== src/Recovery/Crash/Repeated.antt =====
-- Two crashes one after the other: what the second recovery undoes.
use mathlib.Core.List.{map-append}
use tubes_if3140_sistem_basi.Base.{
  ℕ, List, [], ◌∷◌, ◌++◌, Bool, true, false, ◌==◌, ◌&&◌, ◌||◌, not, if◌then◌else◌, ◌≡◌, refl, sym,
  ap, ap₂, ◌∙◌, All, map, All-append, Bool-cases, inl, inr, ==_iff, arith,
}
use tubes_if3140_sistem_basi.Base.Set.{contains}
use tubes_if3140_sistem_basi.Recovery.Entry.{LogEntry}
use tubes_if3140_sistem_basi.Recovery.Codec.{write_all}
use tubes_if3140_sistem_basi.Recovery.LogFile.{write_log_to_file, read_all_logs}
use tubes_if3140_sistem_basi.Recovery.LogFile.RoundTrip.{IsLoggable, kept}
use tubes_if3140_sistem_basi.Recovery.LogFile.Whole.{read_all_logs-write}
use tubes_if3140_sistem_basi.Recovery.Storage.{StorageEngine}
use tubes_if3140_sistem_basi.Recovery.Manager.{Recovery}
use tubes_if3140_sistem_basi.Recovery.Manager.Wal.{is_active, is_active-append, write_all-append}
use tubes_if3140_sistem_basi.Recovery.Crash.{is_checkpoint, analyse, recover_from_crash}
use tubes_if3140_sistem_basi.Recovery.Crash.Scan.{NoCheckpoint, analyse-NoCheckpoint}
use tubes_if3140_sistem_basi.Recovery.Crash.Phases.{is_begin, changes_data, has_begin, open_changes}
use tubes_if3140_sistem_basi.Recovery.Crash.Restart.{
  kept_lem, kept-NoCheckpoint, restored, recover_from_crash-restored,
}

-- No entry is of the transaction.
abbrev pub NoneOf : ℕ → List LogEntry → Type 0
NoneOf tid es = All (λ e. (e.transaction_id == tid) ≡ false) es

-- The entries of one transaction, in their order.
abbrev pub changes_of : ℕ → List LogEntry → List LogEntry
changes_of tid [] = []
changes_of tid (e ∷ es) =
    if e.transaction_id == tid then e ∷ changes_of tid es else changes_of tid es

-- The changes that recovery undoes.
abbrev pub undone : List LogEntry → List LogEntry
undone es = open_changes (analyse es).undo_list es

-- The changes of a transaction that are undone if it is in the undo list.
abbrev open_of : ℕ → Bool → List LogEntry → List LogEntry
open_of tid listed [] = []
open_of tid listed (e ∷ es) =
    if e.transaction_id == tid && (listed && (changes_data e.operation && not (has_begin tid es)))
    then e ∷ open_of tid listed es
    else open_of tid listed es

changes_of-if :
    (tid : ℕ) (b : Bool) (e : LogEntry) (es : List LogEntry)
    → changes_of tid (if b then e ∷ es else es)
      ≡ (if e.transaction_id == tid && b then e ∷ changes_of tid es else changes_of tid es)
changes_of-if tid true e es = ground arith
changes_of-if tid false e es = ground arith

same_test :
    (tid : ℕ) (undo_list : List ℕ) (e : LogEntry) (es : List LogEntry)
    → (e.transaction_id == tid
        && (contains e.transaction_id undo_list
            && (changes_data e.operation && not (has_begin e.transaction_id es))))
      ≡ (e.transaction_id == tid
          && (contains tid undo_list && (changes_data e.operation && not (has_begin tid es))))
same_test tid undo_list e es = elim (Bool-cases (e.transaction_id == tid)) [
  | inl same ↦
      ap
        (λ t.
          e.transaction_id == tid
          && (contains t undo_list && (changes_data e.operation && not (has_begin t es))))
        ((==_iff e.transaction_id tid).0 same)
  | inr other ↦ rw other refl
]

changes_of-open_changes :
    (tid : ℕ) (undo_list : List ℕ) (es : List LogEntry)
    → changes_of tid (open_changes undo_list es) ≡ open_of tid (contains tid undo_list) es
changes_of-open_changes tid undo_list [] = refl
changes_of-open_changes tid undo_list (e ∷ es) =
    changes_of-if tid
      (contains e.transaction_id undo_list
        && (changes_data e.operation && not (has_begin e.transaction_id es)))
      e (open_changes undo_list es)
    ∙ ap₂ (λ b l. if b then e ∷ l else l) (same_test tid undo_list e es)
        (changes_of-open_changes tid undo_list es)

has_begin-later :
    (tid : ℕ) (es later : List LogEntry)
    → NoneOf tid later
    → has_begin tid (es ++ later) ≡ has_begin tid es
has_begin-later tid [] [] h = refl
has_begin-later tid [] (e ∷ later) h = rw h.0 (has_begin-later tid [] later h.1)
has_begin-later tid (e ∷ es) later h =
    ap (λ b. (e.transaction_id == tid && is_begin e.operation) || b)
      (has_begin-later tid es later h)

open_of-later :
    (tid : ℕ) (listed : Bool) (es later : List LogEntry)
    → NoneOf tid later
    → open_of tid listed (es ++ later) ≡ open_of tid listed es
open_of-later tid listed [] [] h = refl
open_of-later tid listed [] (e ∷ later) h = rw h.0 (open_of-later tid listed [] later h.1)
open_of-later tid listed (e ∷ es) later h =
    ap₂
      (λ b l.
        if e.transaction_id == tid && (listed && (changes_data e.operation && not b))
        then e ∷ l
        else l)
      (has_begin-later tid es later h) (open_of-later tid listed es later h)

is_active-NoneOf :
    (tid : ℕ) (es : List LogEntry) (a : Bool) → NoneOf tid es → is_active tid es a ≡ a
is_active-NoneOf tid [] a h = refl
is_active-NoneOf tid (e ∷ es) a h = rw h.0 (is_active-NoneOf tid es a h.1)

analyse-later :
    (tid : ℕ) (es later : List LogEntry)
    → NoCheckpoint es
    → NoCheckpoint later
    → NoneOf tid later
    → contains tid (analyse (es ++ later)).undo_list ≡ contains tid (analyse es).undo_list
analyse-later tid es later none_saved none_later others =
    (analyse-NoCheckpoint tid (es ++ later)
      (All-append (λ e. is_checkpoint e.operation ≡ false) es later none_saved none_later)).0
    ∙ is_active-append tid es later false
    ∙ is_active-NoneOf tid later (is_active tid es false) others
    ∙ sym (analyse-NoCheckpoint tid es none_saved).0

kept-NoneOf : (tid : ℕ) (es : List LogEntry) → NoneOf tid es → NoneOf tid (map kept es)
kept-NoneOf tid [] h = tt
kept-NoneOf tid (e ∷ es) h = (ap (λ t. t == tid) (kept_lem e).1 ∙ h.0, kept-NoneOf tid es h.1)

module _ {ℓ} {S : Type ℓ} (engine : StorageEngine S) where
  recover_from_crash-written :
      (r : Recovery S) (e : LogEntry) (es : List LogEntry)
      → r.log_file ≡ write_all write_log_to_file (e ∷ es)
      → All IsLoggable (e ∷ es)
      → (recover_from_crash engine r).storage ≡ restored engine (read_all_logs r.log_file) r.storage
  recover_from_crash-written r e es written fits =
      (recover_from_crash-restored engine r e es written fits).0
      ∙ ap (λ l. restored engine l r.storage)
          (sym (ap read_all_logs written ∙ read_all_logs-write (e ∷ es) fits))

  -- After a crash and its recovery, records of other transactions are logged behind the log that the
  -- recovery left, with no checkpoint before or behind, and the program crashes again. Then the second
  -- recovery has a transaction in its undo list exactly when the first had, and undoes the same
  -- changes of it once more: recovery leaves nothing in the log of what it undid. All records fit the
  -- fields of the file.
  pub recover_from_crash-undone_twice :
      (r r2 : Recovery S) (tid : ℕ) (e : LogEntry) (es later : List LogEntry)
      → r.log_file ≡ write_all write_log_to_file (e ∷ es)
      → All IsLoggable (e ∷ es)
      → All IsLoggable later
      → NoCheckpoint (e ∷ es)
      → NoCheckpoint later
      → NoneOf tid later
      → r2.log_file ≡ (recover_from_crash engine r).log_file ++ write_all write_log_to_file later
      → ((recover_from_crash engine r).storage
          ≡ restored engine (read_all_logs r.log_file) r.storage)
        × ((recover_from_crash engine r2).storage
            ≡ restored engine (read_all_logs r2.log_file) r2.storage)
        × (contains tid (analyse (read_all_logs r2.log_file)).undo_list
            ≡ contains tid (analyse (read_all_logs r.log_file)).undo_list)
        × (changes_of tid (undone (read_all_logs r2.log_file))
            ≡ changes_of tid (undone (read_all_logs r.log_file)))
  recover_from_crash-undone_twice r r2 tid e es later written fits fits_later none none_later others
        again =
      let first = e ∷ es in
      let all_fit = All-append IsLoggable first later fits fits_later in
      let file : r2.log_file ≡ write_all write_log_to_file (first ++ later) =
        again
        ∙ ap (λ l. l ++ write_all write_log_to_file later)
            ((recover_from_crash-restored engine r e es written fits).2 ∙ written)
        ∙ sym (write_all-append write_log_to_file first later) in
      let read : read_all_logs r.log_file ≡ map kept first =
        ap read_all_logs written ∙ read_all_logs-write first fits in
      let read2 : read_all_logs r2.log_file ≡ map kept first ++ map kept later =
        ap read_all_logs file
        ∙ read_all_logs-write (first ++ later) all_fit
        ∙ map-append kept first later in
      let others_kept = kept-NoneOf tid later others in
      let listed =
        analyse-later tid (map kept first) (map kept later) (kept-NoCheckpoint first none)
          (kept-NoCheckpoint later none_later) others_kept in
      (
        recover_from_crash-written r e es written fits,
        recover_from_crash-written r2 e (es ++ later) file all_fit,
        ap (λ l. contains tid (analyse l).undo_list) read2
            ∙ listed
            ∙ ap (λ l. contains tid (analyse l).undo_list) (sym read),
        ap (λ l. changes_of tid (undone l)) read2
            ∙ changes_of-open_changes tid _ (map kept first ++ map kept later)
            ∙ open_of-later tid _ (map kept first) (map kept later) others_kept
            ∙ ap (λ b. open_of tid b (map kept first)) listed
            ∙ sym (changes_of-open_changes tid _ (map kept first))
            ∙ ap (λ l. changes_of tid (undone l)) (sym read),
      )
