-- ===== src/Concurrency/TwoPhase/Acquire.antt =====
-- `acquire_s_lock`, `acquire_x_lock` and `validate_object` of `TwoPhaseLockingCCManager`
-- (src/concurrency_control/two_phase_locking_protocol.cpp).
use tubes_if3140_sistem_basi.Base.{
  ℕ, List, [], ◌∷◌, ◌++◌, Bool, true, false, not, Option, none, some, if◌then◌else◌, ◌==◌,
}
use tubes_if3140_sistem_basi.Base.Key.{nat_key}
use tubes_if3140_sistem_basi.Base.Map
use tubes_if3140_sistem_basi.Base.Map.{Map, find, has, put}
use tubes_if3140_sistem_basi.Base.Set.{contains, insert, is_empty}
use tubes_if3140_sistem_basi.Types.{
  Row, Action, read, write, Response, TransactionStatus, committed, failed, aborted,
}
use tubes_if3140_sistem_basi.Concurrency.RowHash.{Hasher, generate_row_hash}
use tubes_if3140_sistem_basi.Concurrency.TwoPhase.{
  Manager, Phase, growing, shrinking, change_info, lock_record, abort_transaction,
}
use tubes_if3140_sistem_basi.Concurrency.TwoPhase.WaitGraph.{
  set_at, drop_member, add_wait, detect_deadlock,
}

-- The queue is not empty and another transaction is at its front.
abbrev pub front_is_other : ℕ → List ℕ → Bool
front_is_other tid [] = false
front_is_other tid (t ∷ ts) = not (t == tid)

-- `push_back` unless the transaction is in the queue.
unfoldable pub enqueue : ℕ → ℕ → Map ℕ (List ℕ) → Map ℕ (List ℕ)
enqueue hash tid queues =
    if contains tid (set_at hash queues)
    then queues
    else put hash (set_at hash queues ++ tid ∷ []) queues

-- `pop_front` if the transaction is at the front; an empty queue is erased.
unfoldable pub leave_queue : ℕ → ℕ → Map ℕ (List ℕ) → Map ℕ (List ℕ)
leave_queue hash tid queues = elim (set_at hash queues) [
  | [] ↦ queues
  | t ∷ ts ↦
      if t == tid then if is_empty ts then Map.erase hash queues else put hash ts queues else queues
]

-- The lock is held by `holder`: abort if waiting for it closes a cycle, and wait otherwise.
unfoldable pub wait_for : ℕ → ℕ → ℕ → Manager → Manager
wait_for tid hash holder m =
    let (deadlock, g) = detect_deadlock tid holder m.wait_for_graph in
    if deadlock then abort_transaction tid (record m { wait_for_graph = g }) else record m {
      wait_for_graph = add_wait tid holder g;
      lock_wait_queue = enqueue hash tid m.lock_wait_queue;
    }

-- `locked_records.count(hash)` of the transaction's entry.
abbrev pub has_locked : ℕ → ℕ → Manager → Bool
has_locked tid hash m = elim (find tid m.transactions) [
  | none ↦ false
  | some t ↦ contains hash t.locked_records
]

unfoldable pub grant_s_lock : ℕ → ℕ → Manager → Manager
grant_s_lock tid hash m = record m {
  s_lock_table = put hash (insert tid (set_at hash m.s_lock_table)) m.s_lock_table;
  transactions = change_info tid (lock_record hash) m.transactions;
  wait_for_graph = Map.erase tid m.wait_for_graph;
  lock_wait_queue = leave_queue hash tid m.lock_wait_queue;
}

unfoldable pub acquire_s_lock : ℕ → ℕ → Manager → Manager × Bool
acquire_s_lock tid hash m =
    if front_is_other tid (set_at hash m.lock_wait_queue)
    then (record m { lock_wait_queue = enqueue hash tid m.lock_wait_queue }, false)
    else if has_locked tid hash m
    then (m, true)
    else (elim (find hash m.x_lock_table) [
      | none ↦ (grant_s_lock tid hash m, true)
      | some holder ↦
          if holder == tid
          then (grant_s_lock tid hash m, true)
          else (wait_for tid hash holder m, false)
    ])

unfoldable pub grant_x_lock : ℕ → ℕ → Manager → Manager
grant_x_lock tid hash m = record m {
  x_lock_table = put hash tid m.x_lock_table;
  transactions = change_info tid (lock_record hash) m.transactions;
  wait_for_graph = Map.erase tid m.wait_for_graph;
  lock_wait_queue = leave_queue hash tid m.lock_wait_queue;
}

-- The first holder in the set other than the transaction.
unfoldable pub other_holder : ℕ → List ℕ → Option ℕ
other_holder tid [] = none
other_holder tid (t ∷ ts) = let rest = other_holder tid ts in if t == tid then rest else some t

-- The shared holders are asked; the transaction's own shared lock is upgraded.
unfoldable pub acquire_over_shared : ℕ → ℕ → Manager → Manager × Bool
acquire_over_shared tid hash m = elim (find hash m.s_lock_table) [
  | none ↦ (grant_x_lock tid hash m, true)
  | some holders ↦ elim (other_holder tid holders) [
    | some holder ↦ (wait_for tid hash holder m, false)
    | none ↦ (
      grant_x_lock tid hash (record m { s_lock_table = drop_member hash tid m.s_lock_table }),
      true,
    )
  ]
]

unfoldable pub acquire_x_lock : ℕ → ℕ → Manager → Manager × Bool
acquire_x_lock tid hash m =
    if front_is_other tid (set_at hash m.lock_wait_queue)
    then (record m { lock_wait_queue = enqueue hash tid m.lock_wait_queue }, false)
    else (elim (find hash m.x_lock_table) [
      | some holder ↦ if holder == tid then (m, true) else (wait_for tid hash holder m, false)
      | none ↦ acquire_over_shared tid hash m
    ])

abbrev pub acquire_lock : Action → ℕ → ℕ → Manager → Manager × Bool
acquire_lock read = acquire_s_lock
acquire_lock write = acquire_x_lock

abbrev pub is_active : TransactionStatus → Bool
is_active aborted = false
is_active failed = false
is_active committed = false
is_active _ = true

abbrev pub is_shrinking : Phase → Bool
is_shrinking shrinking = true
is_shrinking growing = false

abbrev pub answer : ℕ → Manager × Bool → Manager × Response
answer tid (m, ok) = (m, record { allowed = ok; transaction_id = tid })

unfoldable pub validate_object : Hasher → Manager → Row → ℕ → Action → Manager × Response
validate_object H m object tid action = elim (find tid m.transactions) [
  | none ↦ answer tid (m, false)
  | some t ↦
      if is_active t.status
      then if is_shrinking t.phase
        then answer tid (abort_transaction tid m, false)
        else answer tid (acquire_lock action tid (generate_row_hash H object) m)
      else answer tid (m, false)
]
