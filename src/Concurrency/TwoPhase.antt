-- ===== src/Concurrency/TwoPhase.antt =====
-- `TwoPhaseLockingCCManager` of src/concurrency_control/two_phase_locking_protocol.cpp: the state
-- and the release of locks. Each operation runs under the mutex, so it is one step. The counter
-- of transactions is a plain number: it does not reach the limit of `int`.
pub mod WaitGraph
pub mod Acquire
mod Views
mod Queue
pub mod Release
pub mod Invariant
mod Finish
mod Advance
mod Grant
pub mod Locks
pub mod Run
pub mod Strict
use tubes_if3140_sistem_basi.Base.{
  ℕ, ◌+◌, ◌≡◌, List, [], ◌∷◌, ◌++◌, Bool, true, false, not, ◌&&◌, Option, none, some, if◌then◌else◌,
  ◌==◌, map,
}
use tubes_if3140_sistem_basi.Base.Key.{nat_key}
use tubes_if3140_sistem_basi.Base.Map
use tubes_if3140_sistem_basi.Base.Map.{Map, find, has, put}
use tubes_if3140_sistem_basi.Base.Set.{contains, insert, erase, is_empty}
use tubes_if3140_sistem_basi.Types.{
  TransactionStatus, active, committed, failed, aborted, terminated,
}
use tubes_if3140_sistem_basi.Concurrency.TwoPhase.WaitGraph.{Graph, set_at, drop_member}

pub data Phase : Type 0 where
  growing shrinking : Phase

pub record TransactionInfo : Type 0 where
  pub id : ℕ
  pub status : TransactionStatus
  pub phase : Phase
  pub locked_records : List ℕ

pub record Manager : Type 0 where
  pub x_lock_table : Map ℕ ℕ
  pub s_lock_table : Map ℕ (List ℕ)
  pub transactions : Map ℕ TransactionInfo
  pub wait_for_graph : Graph
  pub lock_wait_queue : Map ℕ (List ℕ)
  pub current_transaction_id : ℕ

abbrev pub init : Manager
init = record {
  x_lock_table = [];
  s_lock_table = [];
  transactions = [];
  wait_for_graph = [];
  lock_wait_queue = [];
  current_transaction_id = 0;
}

unfoldable pub begin_transaction : Manager → Manager × ℕ
begin_transaction m = (
  record m {
    transactions =
        put now (record { id = now; status = active; phase = growing; locked_records = [] })
          m.transactions;
    current_transaction_id = now;
  },
  now,
)
  where
    now : ℕ
    now = m.current_transaction_id + 1

-- A write through the shared pointer `transactions[tid]`, whose entry the callers have looked up.
unfoldable pub change_info :
    ℕ → (TransactionInfo → TransactionInfo) → Map ℕ TransactionInfo → Map ℕ TransactionInfo
change_info tid f ts = elim (find tid ts) [ none ↦ ts | some t ↦ put tid (f t) ts ]

abbrev pub lock_record : ℕ → TransactionInfo → TransactionInfo
lock_record hash t = record t { locked_records = insert hash t.locked_records }

abbrev pub unlock_record : ℕ → TransactionInfo → TransactionInfo
unlock_record hash t = record t { locked_records = erase hash t.locked_records }

unfoldable pub release_s_lock : ℕ → ℕ → Manager → Manager
release_s_lock tid hash m =
    if contains tid (set_at hash m.s_lock_table)
    then record m {
      s_lock_table = drop_member hash tid m.s_lock_table;
      transactions = change_info tid (unlock_record hash) m.transactions;
    }
    else m

-- `x_lock_table.count(hash) && x_lock_table[hash] == tid`
abbrev pub holds_x : ℕ → ℕ → Manager → Bool
holds_x tid hash m = elim (find hash m.x_lock_table) [ none ↦ false | some t ↦ t == tid ]

unfoldable pub release_x_lock : ℕ → ℕ → Manager → Manager
release_x_lock tid hash m =
    if holds_x tid hash m
    then record m {
      x_lock_table = Map.erase hash m.x_lock_table;
      transactions = change_info tid (unlock_record hash) m.transactions;
    }
    else m

unfoldable pub release_records : ℕ → List ℕ → Manager → Manager
release_records tid [] m = m
release_records tid (hash ∷ rest) m =
    release_records tid rest (release_x_lock tid hash (release_s_lock tid hash m))

abbrev pub keys : Map ℕ (List ℕ) → List ℕ
keys = map (λ e. e.0)

unfoldable pub forget_at : ℕ → List ℕ → Map ℕ (List ℕ) → Map ℕ (List ℕ)
forget_at tid [] m = m
forget_at tid (k ∷ ks) m = forget_at tid ks (drop_member k tid m)

-- The loops over `wait_for_graph` and `lock_wait_queue`: the transaction leaves the set of every
-- entry, and an entry whose set becomes empty is erased.
abbrev pub forget : ℕ → Map ℕ (List ℕ) → Map ℕ (List ℕ)
forget tid m = forget_at tid (keys m) m

unfoldable pub forget_waits : ℕ → Manager → Manager
forget_waits tid m = record m {
  wait_for_graph = forget tid (Map.erase tid m.wait_for_graph);
  lock_wait_queue = forget tid m.lock_wait_queue;
}

unfoldable pub release_all_locks : ℕ → Manager → Manager
release_all_locks tid m = elim (find tid m.transactions) [
  | none ↦ m
  | some t ↦ forget_waits tid (release_records tid t.locked_records m)
]

unfoldable pub abort_transaction : ℕ → Manager → Manager
abort_transaction tid m = elim (find tid m.transactions) [
  | none ↦ m
  | some t ↦
      release_all_locks tid
        (record m { transactions = put tid (record t { status = aborted }) m.transactions })
]

abbrev pub is_aborted : TransactionStatus → Bool
is_aborted aborted = true
is_aborted _ = false

unfoldable pub end_transaction : Manager → ℕ → Manager
end_transaction m tid = elim (find tid m.transactions) [
  | none ↦ m
  | some t ↦
      if is_aborted t.status
      then record m { transactions = put tid (record t { phase = shrinking }) m.transactions }
      else release_all_locks tid (record m {
        transactions = put tid (record t { phase = shrinking; status = committed }) m.transactions;
      })
]

unfoldable pub get_transaction_status : Manager → ℕ → TransactionStatus
get_transaction_status m tid = elim (find tid m.transactions) [
  | none ↦ terminated
  | some t ↦ t.status
]
