-- ===== src/Recovery/Manager/Faults.antt =====
-- What `write_log` makes of a SELECT, which `determine_operation_type` reads as a COMMIT.
use tubes_if3140_sistem_basi.Base.{ℕ, ◌≡◌, refl, true, false, arith, ==_refl}
use tubes_if3140_sistem_basi.Base.Set.{contains, contains-erase}
use tubes_if3140_sistem_basi.Base.Key.{Text, text_same}
use tubes_if3140_sistem_basi.Recovery.Entry.{
  commit, determine_operation_type, first_word, word_select, LogEntry,
}
use tubes_if3140_sistem_basi.Recovery.Storage.{StorageEngine}
use tubes_if3140_sistem_basi.Recovery.Manager.{
  Recovery, ExecutionResult, buffer_entry, push_entry, log_operation, write_log, abort_transaction,
}
use tubes_if3140_sistem_basi.Recovery.Manager.Wal.{flush_buffer-cache}

select_lem :
    (query : Text) → first_word query ≡ word_select → determine_operation_type query ≡ commit
unfolding determine_operation_type text_same
select_lem query h = rw h refl

buffer_entry-cache {ℓ} :
    {S : Type ℓ} (e : LogEntry) (r : Recovery S)
    → (buffer_entry e r).active_transactions_cache ≡ r.active_transactions_cache
unfolding buffer_entry
buffer_entry-cache e r = ground (arith, flush_buffer-cache (push_entry e r))

module _ {ℓ} {S : Type ℓ} (engine : StorageEngine S) where
  select-left :
      (info : ExecutionResult) (r : Recovery S)
      → info.success ≡ true
      → determine_operation_type info.query ≡ commit
      → contains info.transaction_id (write_log engine info r).active_transactions_cache ≡ false
  unfolding write_log log_operation
  select-left info r s op =
      rw
        (
          s,
          op,
          buffer_entry-cache,
          contains-erase info.transaction_id info.transaction_id r.active_transactions_cache,
          ==_refl info.transaction_id,
        )
        refl

  -- Once a SELECT of a transaction is logged, aborting the transaction does nothing at all: no change
  -- is undone, no ABORT is logged, and the storage and the log stay as they are, whatever the
  -- transaction changed before.
  pub abort_transaction-after_select :
      (now : ℕ) (info : ExecutionResult) (r : Recovery S)
      → info.success ≡ true
      → first_word info.query ≡ word_select
      → abort_transaction engine now info.transaction_id (write_log engine info r)
        ≡ write_log engine info r
  unfolding abort_transaction
  abort_transaction-after_select now info r s h =
      rw (select-left info r s (select_lem info.query h)) refl
