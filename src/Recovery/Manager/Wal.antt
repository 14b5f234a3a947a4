-- ===== src/Recovery/Manager/Wal.antt =====
-- The invariant of the log and the set of active transactions, and the two steps of every record:
-- the buffer takes it, and a flush moves the buffer into the file.
use mathlib.Core.List.{append_assoc, append-nil}
use tubes_if3140_sistem_basi.Base.{
  ℕ, suc, ◌+◌, ◌≤◌, List, [], ◌∷◌, ◌++◌, Bool, true, false, ◌==◌, if◌then◌else◌, ◌≡◌, refl, sym, ap,
  ◌∙◌, inl, inr, arith, leb, length, Bool-cases, subst,
}
use tubes_if3140_sistem_basi.Base.Set.{contains, is_empty}
use tubes_if3140_sistem_basi.Base.Key.{text_key}
use tubes_if3140_sistem_basi.Recovery.Entry.{
  LogEntry, Operation, begin, commit, abort, update, insert, delete, checkpoint, create_table,
  drop_table,
}
use tubes_if3140_sistem_basi.Recovery.Codec.{Bytes, write_all}
use tubes_if3140_sistem_basi.Recovery.LogFile.{write_log_to_file}
use tubes_if3140_sistem_basi.Recovery.Manager.{
  Recovery, flush_buffer, push_entry, buffer_entry, max_buffer_size,
}

-- Whether a transaction is active behind a record of it: BEGIN starts it, COMMIT and ABORT end it.
abbrev pub status_after : Operation → Bool → Bool
status_after begin a = true
status_after commit a = false
status_after abort a = false
status_after update a = a
status_after insert a = a
status_after delete a = a
status_after checkpoint a = a
status_after create_table a = a
status_after drop_table a = a
status_after (Operation.unlisted n) a = a

abbrev pub after_entry : ℕ → LogEntry → Bool → Bool
after_entry tid e a = if e.transaction_id == tid then status_after e.operation a else a

-- Whether a transaction is active behind a log, given whether it is before.
abbrev pub is_active : ℕ → List LogEntry → Bool → Bool
is_active tid [] a = a
is_active tid (e ∷ es) a = is_active tid es (after_entry tid e a)

-- The numbers of the entries rise, from one bound to below the other.
abbrev pub IsNumbered : ℕ → List LogEntry → ℕ → Type 0
IsNumbered low [] next = low ≤ next
IsNumbered low (e ∷ es) next = (low ≤ e.log_id) × IsNumbered (suc e.log_id) es next

-- The log file holds entries that were written whole; these and the buffered ones are numbered in
-- rising order below the next number, and they tell which transactions are in the cache.
pub record Wal (file : Bytes) (buffer : List LogEntry) (next : ℕ) (cache : List ℕ) : Type 0 where
  pub on_disk : List LogEntry
  pub written : file ≡ write_all write_log_to_file on_disk
  pub numbered : IsNumbered 1 (on_disk ++ buffer) next
  pub tracked : (tid : ℕ) → contains tid cache ≡ is_active tid (on_disk ++ buffer) false

abbrev pub IsWal {ℓ} : {S : Type ℓ} → Recovery S → Type 0
IsWal r = Wal r.log_file r.log_buffer r.next_log_id r.active_transactions_cache

pub is_active-append :
    (tid : ℕ) (es fs : List LogEntry) (a : Bool)
    → is_active tid (es ++ fs) a ≡ is_active tid fs (is_active tid es a)
is_active-append tid [] fs a = refl
is_active-append tid (e ∷ es) fs a = is_active-append tid es fs (after_entry tid e a)

pub IsNumbered-le :
    (low : ℕ) (es : List LogEntry) (n m : ℕ) → IsNumbered low es n → n ≤ m → IsNumbered low es m
IsNumbered-le low [] n m h g = omega arith
IsNumbered-le low (e ∷ es) n m h g = (h.0, IsNumbered-le (suc e.log_id) es n m h.1 g)

IsNumbered-append :
    (low : ℕ) (es : List LogEntry) (n : ℕ) (e : LogEntry)
    → IsNumbered low es n
    → e.log_id ≡ n
    → IsNumbered low (es ++ (e ∷ [])) (n + 1)
IsNumbered-append low [] n e h g = (omega arith, omega arith)
IsNumbered-append low (f ∷ es) n e h g = (h.0, IsNumbered-append (suc f.log_id) es n e h.1 g)

pub write_all-append {ℓ} :
    {A : Type ℓ} (write : A → Bytes) (xs ys : List A)
    → write_all write (xs ++ ys) ≡ write_all write xs ++ write_all write ys
unfolding write_all
write_all-append write [] ys = refl
write_all-append write (x ∷ xs) ys =
    ap (λ s. write x ++ s) (write_all-append write xs ys)
    ∙ sym (append_assoc (write x) (write_all write xs) (write_all write ys))

-- The cache behind an entry, from the cache before it.
abbrev pub Follows : LogEntry → List ℕ → List ℕ → Type 0
Follows e cache cache' = (tid : ℕ) → contains tid cache' ≡ after_entry tid e (contains tid cache)

pub push-Wal :
    (file : Bytes) (buffer : List LogEntry) (next : ℕ) (cache cache' : List ℕ) (e : LogEntry)
    → Wal file buffer next cache
    → e.log_id ≡ next
    → Follows e cache cache'
    → Wal file (buffer ++ (e ∷ [])) (next + 1) cache'
push-Wal file buffer next cache cache' e h id follows = record {
  on_disk = h.on_disk;
  written = h.written;
  numbered =
      subst (λ es. IsNumbered 1 es (next + 1)) (append_assoc h.on_disk buffer (e ∷ []))
        (IsNumbered-append 1 (h.on_disk ++ buffer) next e h.numbered id);
  tracked = λ tid.
      follows tid
      ∙ ap (after_entry tid e) (h.tracked tid)
      ∙ sym (is_active-append tid (h.on_disk ++ buffer) (e ∷ []) false)
      ∙ ap (λ es. is_active tid es false) (append_assoc h.on_disk buffer (e ∷ []));
}

module _ {ℓ} {S : Type ℓ} where
  -- A flush moves the buffer into the file; what the two hold together stays.
  pub flush_buffer-Wal :
      (r : Recovery S) (cache : List ℕ)
      → Wal r.log_file r.log_buffer r.next_log_id cache
      → Wal (flush_buffer r).log_file (flush_buffer r).log_buffer (flush_buffer r).next_log_id cache
  unfolding flush_buffer
  flush_buffer-Wal r cache h = elim (Bool-cases (is_empty r.log_buffer)) [
    | inl e ↦ rw e h
    | inr e ↦ elim (Bool-cases r.log_opens) [
      | inl o ↦
          rw (e, o)
            (record {
              on_disk = h.on_disk ++ r.log_buffer;
              written =
                  ap (λ s. s ++ write_all write_log_to_file r.log_buffer) h.written
                  ∙ sym (write_all-append write_log_to_file h.on_disk r.log_buffer);
              numbered = rw (append-nil (h.on_disk ++ r.log_buffer)) h.numbered;
              tracked = rw (append-nil (h.on_disk ++ r.log_buffer)) h.tracked;
            })
      | inr o ↦ rw (e, o) h
    ]
  ]

  pub flush_buffer-cache :
      (r : Recovery S) → (flush_buffer r).active_transactions_cache ≡ r.active_transactions_cache
  unfolding flush_buffer
  flush_buffer-cache r = ground arith

  pub buffer_entry-IsWal :
      (e : LogEntry) (r : Recovery S) (n : ℕ) (cache : List ℕ)
      → Wal r.log_file r.log_buffer n cache
      → e.log_id ≡ n
      → r.next_log_id ≡ n + 1
      → Follows e cache r.active_transactions_cache
      → IsWal (buffer_entry e r)
  unfolding buffer_entry
  buffer_entry-IsWal e r n cache h id next follows =
      let pushed : IsWal (push_entry e r) =
        rw next
          (push-Wal r.log_file r.log_buffer n cache r.active_transactions_cache e h id follows) in
      elim (Bool-cases (leb max_buffer_size (length r.log_buffer + 1))) [
        | inl full ↦
            rw (full, flush_buffer-cache (push_entry e r))
              (flush_buffer-Wal (push_entry e r) r.active_transactions_cache pushed)
        | inr full ↦ rw full pushed
      ]
