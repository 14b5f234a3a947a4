-- ===== src/Concurrency/Timestamp.antt =====
-- `TimestampCCManager` of src/concurrency_control/timestamp_ordering.cpp. Each operation runs under
-- the mutex, so it is one step. The clock is a plain number: it does not reach the limit of `int`.
pub mod Run
mod Tables
pub mod Order
pub mod Answers
use tubes_if3140_sistem_basi.Base.{
  ℕ, suc, ◌+◌, ◌≡◌, List, [], ◌∷◌, Bool, true, false, ◌||◌, Option, none, some, ltb, ◌==◌, max,
  if◌then◌else◌,
}
use tubes_if3140_sistem_basi.Base.Key.{nat_key}
use tubes_if3140_sistem_basi.Base.Map.{Map, find, put, erase}
use tubes_if3140_sistem_basi.Types.{
  Row, Action, read, write, Response, TransactionStatus, active, partially_committed, committed,
  failed, aborted, terminated,
}
use tubes_if3140_sistem_basi.Concurrency.RowHash.{Hasher, generate_row_hash}

pub record Transaction : Type 0 where
  pub id : ℕ
  pub timestamp : ℕ
  pub state : TransactionStatus

pub record ObjectTimestamp : Type 0 where
  pub read_ts : ℕ
  pub write_ts : ℕ

pub record Manager : Type 0 where
  pub transactions : Map ℕ Transaction
  pub object_timestamps : Map ℕ ObjectTimestamp
  pub current_timestamp : ℕ

abbrev pub init : Manager
init = record { transactions = []; object_timestamps = []; current_timestamp = 0 }

unfoldable pub begin_transaction : Manager → Manager × ℕ
begin_transaction m = (
  record m {
    transactions = put now (record { id = now; timestamp = now; state = active }) m.transactions;
    current_timestamp = now;
  },
  now,
)
  where
    now : ℕ
    now = m.current_timestamp + 1

-- The state `FAILED` is set in the table.
unfoldable pub fail : Manager → ℕ → Transaction → Manager
fail m tid t = record m { transactions = put tid (record t { state = failed }) m.transactions }

abbrev pub refuse : Manager → ℕ → Manager × Response
refuse m tid = (m, record { allowed = false; transaction_id = tid })

abbrev pub allow : Manager → ℕ → Manager × Response
allow m tid = (m, record { allowed = true; transaction_id = tid })

-- The branches of the protocol, once the transaction and the object are found.
unfoldable pub order_access :
    Manager → ℕ → Transaction → ℕ → ObjectTimestamp → Action → Manager × Response
unfolding fail
order_access m tid t hash ts read =
    if ltb t.timestamp ts.write_ts
    then refuse (fail m tid t) tid
    else allow
        (record m {
          object_timestamps =
              put hash (record ts { read_ts = max ts.read_ts t.timestamp }) m.object_timestamps;
        })
        tid
order_access m tid t hash ts write =
    if ltb t.timestamp ts.read_ts || ltb t.timestamp ts.write_ts
    then refuse (fail m tid t) tid
    else allow
        (record m {
          object_timestamps = put hash (record ts { write_ts = t.timestamp }) m.object_timestamps;
        })
        tid

abbrev pub is_failed : TransactionStatus → Bool
is_failed failed = true
is_failed _ = false

module _ (H : Hasher) where
  -- `none` is the `std::runtime_error` of an unknown transaction.
  unfoldable pub log_object : Manager → Row → ℕ → Option Manager
  log_object m object tid = elim (find tid m.transactions) [
    | none ↦ none
    | some t ↦ elim (find (generate_row_hash H object) m.object_timestamps) [
      | none ↦ some (record m {
        object_timestamps =
            put (generate_row_hash H object) (record { read_ts = 0; write_ts = 0 })
              m.object_timestamps;
      })
      | some ts ↦ some m
    ]
  ]

  unfoldable pub validate_object : Manager → Row → ℕ → Action → Manager × Response
  validate_object m object tid action = elim (find tid m.transactions) [
    | none ↦ refuse m tid
    | some t ↦
        if is_failed t.state
        then refuse m tid
        else (elim (find (generate_row_hash H object) m.object_timestamps) [
          | none ↦ refuse m tid
          | some ts ↦ order_access m tid t (generate_row_hash H object) ts action
        ])
  ]

-- Every branch ends in the state `TERMINATED`, and the entry is erased.
unfoldable pub end_transaction : Manager → ℕ → Manager
end_transaction m tid = elim (find tid m.transactions) [
  | none ↦ m
  | some t ↦ record m {
    transactions = erase tid (put tid (record t { state = terminated }) m.transactions);
  }
]

unfoldable pub get_transaction_status : Manager → ℕ → TransactionStatus
get_transaction_status m tid = elim (find tid m.transactions) [
  | none ↦ terminated
  | some t ↦ t.state
]
