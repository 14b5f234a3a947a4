-- ===== src/Recovery/Crash/Phases.antt =====
-- The redo phase and the undo phase as folds over the entries that they change the storage by.
use mathlib.Core.List.{reverse-cons}
use tubes_if3140_sistem_basi.Base.{
  ℕ, List, [], ◌∷◌, ◌++◌, Bool, true, false, ◌&&◌, ◌||◌, not, ◌==◌, if◌then◌else◌, ◌≡◌, refl, sym,
  ap, ◌∙◌, arith, reverse, inl, inr, Bool-cases, ==_iff, subst,
}
use tubes_if3140_sistem_basi.Base.Set.{contains, is_empty, contains-erase}
use tubes_if3140_sistem_basi.Recovery.Entry.{
  LogEntry, Operation, begin, commit, abort, update, insert, delete, checkpoint, create_table,
  drop_table,
}
use tubes_if3140_sistem_basi.Recovery.Storage.{StorageEngine, undo_operation, redo_operation}
use tubes_if3140_sistem_basi.Recovery.Crash.{
  is_change, redo_changes, redo_phase, undo_changes, undo_phase, undo_step, next_open, leave_at,
}

abbrev pub is_begin : Operation → Bool
is_begin begin = true
is_begin commit = false
is_begin abort = false
is_begin update = false
is_begin insert = false
is_begin delete = false
is_begin checkpoint = false
is_begin create_table = false
is_begin drop_table = false
is_begin (Operation.unlisted n) = false

abbrev pub has_begin : ℕ → List LogEntry → Bool
has_begin tid [] = false
has_begin tid (e ∷ es) = (e.transaction_id == tid && is_begin e.operation) || has_begin tid es

-- The records whose query changed rows or schemas.
abbrev pub changes_data : Operation → Bool
changes_data begin = false
changes_data commit = false
changes_data abort = false
changes_data update = true
changes_data insert = true
changes_data delete = true
changes_data checkpoint = false
changes_data create_table = true
changes_data drop_table = true
changes_data (Operation.unlisted n) = false

is_change_lem : (op : Operation) → is_change op ≡ changes_data op
is_change_lem begin = refl
is_change_lem commit = refl
is_change_lem abort = refl
is_change_lem update = refl
is_change_lem insert = refl
is_change_lem delete = refl
is_change_lem checkpoint = refl
is_change_lem create_table = refl
is_change_lem drop_table = refl
is_change_lem (Operation.unlisted n) = refl

-- The changes of committed transactions, in the order of the log.
abbrev pub committed_changes : List ℕ → List LogEntry → List LogEntry
committed_changes committed [] = []
committed_changes committed (e ∷ es) =
    if contains e.transaction_id committed && changes_data e.operation
    then e ∷ committed_changes committed es
    else committed_changes committed es

-- The changes of the transactions to undo that have no BEGIN of their transaction behind them, in the
-- order of the log.
abbrev pub open_changes : List ℕ → List LogEntry → List LogEntry
open_changes undo_list [] = []
open_changes undo_list (e ∷ es) =
    if contains e.transaction_id undo_list
      && (changes_data e.operation && not (has_begin e.transaction_id es))
    then e ∷ open_changes undo_list es
    else open_changes undo_list es

module _ {ℓ} {S : Type ℓ} (engine : StorageEngine S) where
  -- Every entry is redone, the first one first.
  abbrev pub redo_each : List LogEntry → S → S
  redo_each [] s = s
  redo_each (e ∷ es) s = redo_each es (redo_operation engine e s).0

  -- Every entry is undone, the last one first.
  abbrev pub undo_each : List LogEntry → S → S
  undo_each [] s = s
  undo_each (e ∷ es) s = (undo_operation engine e (undo_each es s)).0

  redo_changes_lem :
      (committed : List ℕ) (es : List LogEntry) (s : S)
      → redo_changes engine committed es s ≡ redo_each (committed_changes committed es) s
  unfolding redo_changes
  redo_changes_lem committed [] s = refl
  redo_changes_lem committed (e ∷ es) s =
      rw (is_change_lem e.operation)
        (elim (Bool-cases (contains e.transaction_id committed && changes_data e.operation)) [
          | inl c ↦ rw c (redo_changes_lem committed es (redo_operation engine e s).0)
          | inr c ↦ rw c (redo_changes_lem committed es s)
        ])

  redo_each_none : (es : List LogEntry) (s : S) → redo_each (committed_changes [] es) s ≡ s
  unfolding contains
  redo_each_none [] s = refl
  redo_each_none (e ∷ es) s = redo_each_none es s

  -- The redo phase redoes the changes of the committed transactions among the scanned entries, each
  -- once and in the order of the log, and does nothing else.
  pub redo_phase_lem :
      (committed : List ℕ) (es : List LogEntry) (s : S)
      → redo_phase engine committed es s ≡ redo_each (committed_changes committed es) s
  unfolding redo_phase
  redo_phase_lem [] es s = sym (redo_each_none es s)
  redo_phase_lem (t ∷ ts) es s = redo_changes_lem (t ∷ ts) es s

  -- The copy of the undo list behind some entries, the last of the log first.
  abbrev opens : List ℕ → List LogEntry → List ℕ
  opens open_txs [] = open_txs
  opens open_txs (e ∷ es) = opens (next_open open_txs e) es

  opens-append :
      (open_txs : List ℕ) (xs ys : List LogEntry)
      → opens open_txs (xs ++ ys) ≡ opens (opens open_txs xs) ys
  opens-append open_txs [] ys = refl
  opens-append open_txs (x ∷ xs) ys = opens-append (next_open open_txs x) xs ys

  opens_none : (es : List LogEntry) → opens [] es ≡ []
  unfolding next_open contains
  opens_none [] = refl
  opens_none (e ∷ es) = opens_none es

  undo_changes_none : (es : List LogEntry) (s : S) → undo_changes engine [] es s ≡ s
  unfolding undo_changes undo_step next_open contains
  undo_changes_none [] s = refl
  undo_changes_none (e ∷ es) s = refl

  empty_lem : (ts : List ℕ) → is_empty ts ≡ true → ts ≡ []
  empty_lem [] h = refl
  empty_lem (t ∷ ts) h = cc

  -- The scan stops early only where it has nothing left to undo.
  undo_changes-step :
      (open_txs : List ℕ) (e : LogEntry) (es : List LogEntry) (s : S)
      → undo_changes engine open_txs (e ∷ es) s
        ≡ undo_changes engine (next_open open_txs e) es (undo_step engine open_txs e s)
  unfolding undo_changes
  undo_changes-step open_txs e es s = elim (Bool-cases (is_empty (next_open open_txs e))) [
    | inl c ↦ rw (empty_lem (next_open open_txs e) c) (sym (undo_changes_none es _))
    | inr c ↦ rw c refl
  ]

  undo_changes-append :
      (open_txs : List ℕ) (xs ys : List LogEntry) (s : S)
      → undo_changes engine open_txs (xs ++ ys) s
        ≡ undo_changes engine (opens open_txs xs) ys (undo_changes engine open_txs xs s)
  undo_changes-append open_txs [] ys s = unfold undo_changes in refl
  undo_changes-append open_txs (x ∷ xs) ys s =
      undo_changes-step open_txs x (xs ++ ys) s
      ∙ undo_changes-append (next_open open_txs x) xs ys (undo_step engine open_txs x s)
      ∙ ap (undo_changes engine (opens (next_open open_txs x) xs) ys)
          (sym (undo_changes-step open_txs x xs s))

  leave_at_lem :
      (tid t : ℕ) (op : Operation) (open_txs : List ℕ)
      → contains tid (leave_at op t open_txs) ≡ (
          if is_begin op
          then (if t == tid then false else contains tid open_txs)
          else contains tid open_txs)
  unfolding leave_at
  leave_at_lem tid t begin open_txs = contains-erase t tid open_txs
  leave_at_lem tid t commit open_txs = refl
  leave_at_lem tid t abort open_txs = refl
  leave_at_lem tid t update open_txs = refl
  leave_at_lem tid t insert open_txs = refl
  leave_at_lem tid t delete open_txs = refl
  leave_at_lem tid t checkpoint open_txs = refl
  leave_at_lem tid t create_table open_txs = refl
  leave_at_lem tid t drop_table open_txs = refl
  leave_at_lem tid t (Operation.unlisted n) open_txs = refl

  next_open_lem :
      (tid : ℕ) (open_txs : List ℕ) (e : LogEntry)
      → contains tid (next_open open_txs e)
        ≡ (contains tid open_txs && not (e.transaction_id == tid && is_begin e.operation))
  unfolding next_open
  next_open_lem tid open_txs e = elim (Bool-cases (contains e.transaction_id open_txs)) [
    | inl c ↦ rw c (ground (arith, leave_at_lem tid e.transaction_id e.operation open_txs))
    | inr c ↦ rw c (elim (Bool-cases (e.transaction_id == tid)) [
      | inl same ↦
          let absent : contains tid open_txs ≡ false =
            subst (λ t. contains t open_txs ≡ false) ((==_iff e.transaction_id tid).0 same) c in
          rw absent refl
      | inr other ↦ rw other (ground arith)
    ])
  ]

  opens-reverse :
      (tid : ℕ) (open_txs : List ℕ) (es : List LogEntry)
      → contains tid (opens open_txs (reverse es))
        ≡ (contains tid open_txs && not (has_begin tid es))
  opens-reverse tid open_txs [] = ground arith
  opens-reverse tid open_txs (e ∷ es) =
      rw (reverse-cons e es, opens-append open_txs (reverse es) (e ∷ []))
        (ground
          (arith, next_open_lem tid (opens open_txs (reverse es)) e, opens-reverse tid open_txs es))

  undo_each-if :
      (b : Bool) (e : LogEntry) (es : List LogEntry) (s : S)
      → (if b then (undo_operation engine e (undo_each es s)).0 else undo_each es s)
        ≡ undo_each (if b then e ∷ es else es) s
  undo_each-if true e es s = refl
  undo_each-if false e es s = refl

  undo_last :
      (open_txs : List ℕ) (e : LogEntry) (es : List LogEntry) (s : S)
      → undo_changes engine
          (next_open (opens open_txs (reverse es)) e)
          []
          (undo_step engine (opens open_txs (reverse es)) e s)
        ≡ (if contains e.transaction_id open_txs
              && (changes_data e.operation && not (has_begin e.transaction_id es))
            then (undo_operation engine e s).0
            else s)
  unfolding undo_changes undo_step
  undo_last open_txs e es s =
      rw (opens-reverse e.transaction_id open_txs es, is_change_lem e.operation)
        (elim (Bool-cases (contains e.transaction_id open_txs)) [
          | inl c ↦ rw c (ground arith)
          | inr c ↦ rw c refl
        ])

  undo_changes-reverse :
      (open_txs : List ℕ) (es : List LogEntry) (s : S)
      → undo_changes engine open_txs (reverse es) s ≡ undo_each (open_changes open_txs es) s
  undo_changes-reverse open_txs [] s = unfold undo_changes in refl
  undo_changes-reverse open_txs (e ∷ es) s =
      rw
        (
          reverse-cons e es,
          undo_changes-append open_txs (reverse es) (e ∷ []) s,
          undo_changes-reverse open_txs es s,
        )
        (undo_changes-step (opens open_txs (reverse es)) e []
            (undo_each (open_changes open_txs es) s)
          ∙ undo_last open_txs e es (undo_each (open_changes open_txs es) s)
          ∙ undo_each-if
              (contains e.transaction_id open_txs
                && (changes_data e.operation && not (has_begin e.transaction_id es)))
              e (open_changes open_txs es) s)

  -- The undo phase undoes, from the end of the log, each change of the transactions to undo that has
  -- no later BEGIN of its transaction, each once, and does nothing else; the early end of its scan
  -- leaves nothing out.
  pub undo_phase_lem :
      (undo_list : List ℕ) (es : List LogEntry) (s : S)
      → undo_phase engine undo_list es s ≡ undo_each (open_changes undo_list es) s
  unfolding undo_phase
  undo_phase_lem [] es s = sym (undo_changes_none (reverse es) s) ∙ undo_changes-reverse [] es s
  undo_phase_lem (t ∷ ts) es s = undo_changes-reverse (t ∷ ts) es s
