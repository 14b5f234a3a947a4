-- ===== src/Recovery/LogFile/Whole.antt =====
-- A log file that is written is read back entry by entry.
use mathlib.Core.List.{append_assoc}
use tubes_if3140_sistem_basi.Base.{
  ℕ, zero, suc, ◌^◌, ◌<◌, ◌≤◌, List, [], ◌∷◌, ◌++◌, some, ◌≡◌, refl, arith, length, length-append,
  All, ap, ◌∙◌, ◌/◌, map,
}
use tubes_if3140_sistem_basi.Recovery.Entry.{
  LogEntry, Operation, begin, commit, abort, update, insert, delete, checkpoint, create_table,
  drop_table, new_entry,
}
use tubes_if3140_sistem_basi.Recovery.Codec.{Bytes, ◌>>=◌, write_word, write_all}
use tubes_if3140_sistem_basi.Recovery.Codec.RoundTrip.{read_word-Reads}
use tubes_if3140_sistem_basi.Recovery.LogFile.{
  operation_code, operation_of_code, write_body, write_log_to_file, read_log_from_file,
  read_entries_until, read_all_logs,
}
use tubes_if3140_sistem_basi.Recovery.LogFile.RoundTrip.{
  IsOperation, IsLoggable, kept, read_body-Reads,
}

code-lt : (op : Operation) → IsOperation op → operation_code op < 256 ^ 4
unfolding operation_code
code-lt begin h = omega arith
code-lt commit h = omega arith
code-lt abort h = omega arith
code-lt update h = omega arith
code-lt insert h = omega arith
code-lt delete h = omega arith
code-lt checkpoint h = omega arith
code-lt create_table h = omega arith
code-lt drop_table h = omega arith
code-lt (Operation.unlisted n) h = h.1

operation_of_code-operation_code :
    (op : Operation) → IsOperation op → operation_of_code (operation_code op) ≡ op
unfolding operation_of_code operation_code
operation_of_code-operation_code begin h = refl
operation_of_code-operation_code commit h = refl
operation_of_code-operation_code abort h = refl
operation_of_code-operation_code update h = refl
operation_of_code-operation_code insert h = refl
operation_of_code-operation_code delete h = refl
operation_of_code-operation_code checkpoint h = refl
operation_of_code-operation_code create_table h = refl
operation_of_code-operation_code drop_table h = refl
operation_of_code-operation_code (Operation.unlisted n) h = ground arith

-- Reading an entry that was written takes its bytes and no others, whatever comes behind them, and
-- gives back the entry with every field that its operation keeps; the other fields are those of a new
-- entry. The entry's numbers fit their fields, its texts are shorter than 2^32, the values of its
-- rows are integers, floats and texts, and the columns and references stand in the order of names.
pub read_log_from_file-write_log_to_file :
    (e : LogEntry) (rest : Bytes)
    → IsLoggable e
    → read_log_from_file (write_log_to_file e ++ rest) ≡ some (kept e, rest)
unfolding read_log_from_file write_log_to_file
read_log_from_file-write_log_to_file e rest h = simp append_assoc (
    rw
      (
        read_word-Reads 4 e.log_id h.id,
        ◌>>=◌,
        read_word-Reads 4 e.transaction_id h.tid,
        read_word-Reads 8 e.timestamp h.time,
        read_word-Reads 4 (operation_code e.operation) (code-lt e.operation h.operation),
        operation_of_code-operation_code e.operation h.operation,
      )
      (read_body-Reads e.operation e (new_entry e.log_id e.transaction_id e.timestamp e.operation)
        h.body rest))

length-write_word : (size v : ℕ) → length (write_word size v) ≡ size
unfolding write_word
length-write_word zero v = refl
length-write_word (suc size) v = ap suc (length-write_word size (v / 256))

written_lt : (e : LogEntry) → 0 < length (write_log_to_file e)
unfolding write_log_to_file
written_lt e = omega (
  arith,
  length-append (write_word 4 e.log_id) (
      write_word 4 e.transaction_id
      ++ (write_word 8 e.timestamp
          ++ (write_word 4 (operation_code e.operation) ++ write_body e.operation e))),
  length-write_word 4 e.log_id,
)

read_entry :
    (fuel : ℕ) (s rest : Bytes) (e : LogEntry)
    → 0 < length s
    → length s ≤ suc fuel
    → read_log_from_file s ≡ some (e, rest)
    → read_entries_until (suc fuel) s ≡ e ∷ read_entries_until fuel rest
unfolding read_entries_until
read_entry fuel [] rest e h l g = absurd (omega arith)
read_entry fuel (b ∷ s) rest e h l g = rw (g, read_entries_until) refl

read_entries_until-write :
    (es : List LogEntry) (fuel : ℕ)
    → All IsLoggable es
    → length (write_all write_log_to_file es) ≤ fuel
    → read_entries_until fuel (write_all write_log_to_file es) ≡ map kept es
unfolding write_all
read_entries_until-write [] zero h l = unfold read_entries_until in refl
read_entries_until-write [] (suc fuel) h l = unfold read_entries_until in refl
read_entries_until-write (e ∷ es) zero h l = absurd (
    omega
      (arith, written_lt e, length-append (write_log_to_file e) (write_all write_log_to_file es)))
read_entries_until-write (e ∷ es) (suc fuel) h l =
    let size = length-append (write_log_to_file e) (write_all write_log_to_file es) in
    read_entry fuel (write_log_to_file e ++ write_all write_log_to_file es)
      (write_all write_log_to_file es) (kept e) (omega (arith, written_lt e, size)) l
      (read_log_from_file-write_log_to_file e (write_all write_log_to_file es) h.0)
    ∙ ap (λ r. kept e ∷ r)
        (read_entries_until-write es fuel h.1 (omega (arith, written_lt e, size)))

-- Reading the log file back gives the entries that were written to it, all of them and in order,
-- each with the fields that its operation keeps. Every entry has to fit the fields of the file.
pub read_all_logs-write :
    (es : List LogEntry)
    → All IsLoggable es
    → read_all_logs (write_all write_log_to_file es) ≡ map kept es
unfolding read_all_logs
read_all_logs-write es h =
    read_entries_until-write es (length (write_all write_log_to_file es)) h (omega arith)
