-- ===== src/Concurrency/Timestamp/Run.antt =====
-- Runs of `TimestampCCManager`: sequences of calls, with the history of the allowed accesses.
use tubes_if3140_sistem_basi.Base.{
  ℕ, ◌≤◌, ◌≡◌, List, [], ◌∷◌, true, Option, none, some, if◌then◌else◌, All,
}
use tubes_if3140_sistem_basi.Base.Key.{nat_key}
use tubes_if3140_sistem_basi.Types.{Row, Action, Response}
use tubes_if3140_sistem_basi.Concurrency.RowHash.{Hasher, generate_row_hash}
use tubes_if3140_sistem_basi.Concurrency.Access.{History, conflicts}
use tubes_if3140_sistem_basi.Concurrency.Timestamp.{
  Manager, begin_transaction, log_object, validate_object, end_transaction,
}

pub data Call : Type 0 where
  begin : Call
  log : Row → ℕ → Call
  validate : Row → ℕ → Action → Call
  end : ℕ → Call

abbrev pub grant : ℕ → ℕ → Action → Manager × Response → History → Manager × History
grant tid hash action (m, r) h =
    (m, if r.allowed then record { tid = tid; object = hash; action = action } ∷ h else h)

abbrev pub after_log : Manager → Option Manager → Manager
after_log m none = m
after_log m (some m') = m'

-- One call, with the history of the accesses that were allowed.
unfoldable pub step : Hasher → Manager × History → Call → Manager × History
step H (m, h) begin = ((begin_transaction m).0, h)
step H (m, h) (log row tid) = (after_log m (log_object H m row tid), h)
step H (m, h) (validate row tid action) =
    grant tid (generate_row_hash H row) action (validate_object H m row tid action) h
step H (m, h) (end tid) = (end_transaction m tid, h)

unfoldable pub run : Hasher → Manager × History → List Call → Manager × History
run H s [] = s
run H s (c ∷ calls) = run H (step H s c) calls

-- Every access comes after the conflicting ones of transactions that began before it, or of itself.
abbrev pub IsOrdered : History → Type 0
IsOrdered [] = Unit
IsOrdered (a ∷ h) = All (λ b. conflicts a b ≡ true → b.tid ≤ a.tid) h × IsOrdered h
