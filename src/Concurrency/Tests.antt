-- ===== src/Concurrency/Tests.antt =====
-- Runs of the concurrency protocols on concrete calls, and the theorems at such runs.
use mathlib.Core.WellFounded.{Acc}
use tubes_if3140_sistem_basi.Base.{
  is_some, none, ℕ, ◌≡◌, refl, List, [], ◌∷◌, true, false, arith, ◌↔◌, map,
}
use tubes_if3140_sistem_basi.Base.Key.{nat_key, text_key, text_same}
use tubes_if3140_sistem_basi.Base.Map
use tubes_if3140_sistem_basi.Base.Map.{find, put}
use tubes_if3140_sistem_basi.Base.Set
use tubes_if3140_sistem_basi.Types.{Row, read, write, active, failed}
use tubes_if3140_sistem_basi.Concurrency.RowHash.{Hasher, generate_row_hash, mix}
use tubes_if3140_sistem_basi.Concurrency.Timestamp
use tubes_if3140_sistem_basi.Concurrency.TwoPhase
use tubes_if3140_sistem_basi.Concurrency.Control

-- A hash function that tells the rows below apart.
abbrev hasher : Hasher
hasher = record {
  string_hasher = λ s. 0;
  int_hasher = λ n. n;
  float_hasher = λ n. n;
  double_hasher = λ n. n;
}

abbrev row_a : Row
row_a = record { table_name = []; columns = []; row_id = 1 }

abbrev row_b : Row
row_b = record { table_name = []; columns = []; row_id = 2 }

program : Unit {0}
unfolding generate_row_hash mix find put Map.erase Set.contains Set.insert Set.erase
    TwoPhase.Run.run TwoPhase.Run.step TwoPhase.begin_transaction TwoPhase.end_transaction
    TwoPhase.release_all_locks TwoPhase.abort_transaction TwoPhase.forget_waits TwoPhase.forget_at
    TwoPhase.release_records TwoPhase.release_s_lock TwoPhase.release_x_lock TwoPhase.change_info
    TwoPhase.get_transaction_status TwoPhase.Acquire.validate_object TwoPhase.Acquire.acquire_s_lock
    TwoPhase.Acquire.acquire_x_lock TwoPhase.Acquire.acquire_over_shared
    TwoPhase.Acquire.other_holder TwoPhase.Acquire.grant_s_lock TwoPhase.Acquire.grant_x_lock
    TwoPhase.Acquire.wait_for TwoPhase.Acquire.leave_queue TwoPhase.Acquire.enqueue
    TwoPhase.WaitGraph.detect_deadlock TwoPhase.WaitGraph.decide_deadlock
    TwoPhase.WaitGraph.check_cycle TwoPhase.WaitGraph.check_neighbors TwoPhase.WaitGraph.add_wait
    TwoPhase.WaitGraph.drop_member Timestamp.Run.run Timestamp.Run.step Timestamp.begin_transaction
    Timestamp.end_transaction Timestamp.log_object Timestamp.validate_object Timestamp.order_access
    Timestamp.fail Timestamp.get_transaction_status
program = tt

abbrev w : ℕ → Row → TwoPhase.Run.Call
w tid row = TwoPhase.Run.Call.validate row tid write

abbrev r : ℕ → Row → TwoPhase.Run.Call
r tid row = TwoPhase.Run.Call.validate row tid read

-- The accesses of a history as pairs of the transaction and the object.
abbrev granted : List TwoPhase.Run.Call → List ℕ
granted calls = map (λ e. e.0.tid) (TwoPhase.Run.run hasher (TwoPhase.init, []) calls).1

abbrev begin2 : TwoPhase.Run.Call
begin2 = TwoPhase.Run.Call.begin

-- Transactions 1 and 2 lock one record each and ask for the other's: the second request aborts
-- its transaction, and the first then gets the record.
abbrev crossing : List TwoPhase.Run.Call
crossing = begin2 ∷ begin2 ∷ w 1 row_a ∷ w 2 row_b ∷ w 1 row_b ∷ w 2 row_a ∷ w 1 row_b ∷ []

crossing-granted : granted crossing ≡ 1 ∷ 2 ∷ 1 ∷ []
unfolding program
crossing-granted = refl

-- Transaction 3 holds `b` and stands in the queue of `a` behind 2, where its wait is not in the
-- graph; transaction 1 holds `a` and asks for `b`. Nobody is aborted, and no retry is granted.
abbrev hidden : List TwoPhase.Run.Call
hidden =
    begin2
    ∷ begin2
    ∷ begin2
    ∷ w 1 row_a
    ∷ w 3 row_b
    ∷ w 2 row_a
    ∷ w 3 row_a
    ∷ w 1 row_b
    ∷ w 2 row_a
    ∷ w 3 row_a
    ∷ w 1 row_b
    ∷ []

hidden-granted : granted hidden ≡ 3 ∷ 1 ∷ []
unfolding program
hidden-granted = refl

hidden_all_live :
    map
      (λ t.
        TwoPhase.get_transaction_status (TwoPhase.Run.run hasher (TwoPhase.init, []) hidden).0 t)
      (1 ∷ 2 ∷ 3 ∷ [])
    ≡ active ∷ active ∷ active ∷ []
unfolding program
hidden_all_live = refl

-- A reader that another transaction waits for is refused when it reads again.
abbrev reread : List TwoPhase.Run.Call
reread = begin2 ∷ begin2 ∷ r 1 row_a ∷ w 2 row_a ∷ r 1 row_a ∷ w 2 row_a ∷ r 1 row_a ∷ []

reread-granted : granted reread ≡ 1 ∷ []
unfolding program
reread-granted = refl

-- The calls of TEST 9 in tests/test_concurrency_control.cpp. Transaction 2 still shares `row_a` when
-- transaction 3 asks to write it, and the last call is refused.
abbrev test_nine : List TwoPhase.Run.Call
test_nine =
    begin2
    ∷ r 1 row_a
    ∷ begin2
    ∷ r 2 row_a
    ∷ w 2 row_a
    ∷ w 2 row_b
    ∷ begin2
    ∷ r 3 row_b
    ∷ TwoPhase.Run.Call.end 1
    ∷ w 3 row_a
    ∷ []

test_nine-granted : granted test_nine ≡ 2 ∷ 2 ∷ 1 ∷ []
unfolding program
test_nine-granted = refl

abbrev stamped_calls : List Timestamp.Run.Call
stamped_calls =
    Timestamp.Run.Call.begin
    ∷ Timestamp.Run.Call.begin
    ∷ Timestamp.Run.Call.log row_a 1
    ∷ Timestamp.Run.Call.validate row_a 1 read
    ∷ Timestamp.Run.Call.validate row_a 2 write
    ∷ Timestamp.Run.Call.validate row_a 1 read
    ∷ []

-- The last read comes after the write of a younger transaction and is refused.
stamped_granted :
    map (λ a. a.tid) (Timestamp.Run.run hasher (Timestamp.init, []) stamped_calls).1 ≡ 2 ∷ 1 ∷ []
unfolding program
stamped_granted = refl

run-IsOrdered_example :
    Timestamp.Run.IsOrdered (Timestamp.Run.run hasher (Timestamp.init, []) stamped_calls).1
run-IsOrdered_example = Timestamp.Order.run-IsOrdered hasher stamped_calls

abbrev old_reader : Timestamp.Manager
old_reader = record {
  transactions = (1, record { id = 1; timestamp = 1; state = active }) ∷ [];
  object_timestamps = (generate_row_hash hasher row_a, record { read_ts = 2; write_ts = 2 }) ∷ [];
  current_timestamp = 2;
}

validate_object-allowed_iff_example :
    ((Timestamp.validate_object hasher old_reader row_a 1 read).1.allowed ≡ true)
    ↔ Timestamp.Answers.MayAccess hasher old_reader row_a 1 read
validate_object-allowed_iff_example =
    Timestamp.Answers.validate_object-allowed_iff hasher old_reader row_a 1 read

validate_object-late_example :
    (Timestamp.get_transaction_status (Timestamp.validate_object hasher old_reader row_a 1 read).0 1
      ≡ failed)
    × ((Timestamp.validate_object hasher old_reader row_a 1 read).0.object_timestamps
        ≡ old_reader.object_timestamps)
    × (Timestamp.Answers.access_all hasher
          (Timestamp.validate_object hasher old_reader row_a 1 read).0
          1
          ((row_b, write) ∷ (row_a, read) ∷ [])
        ≡ ((Timestamp.validate_object hasher old_reader row_a 1 read).0, false ∷ false ∷ []))
unfolding program
validate_object-late_example =
    Timestamp.Answers.validate_object-late hasher old_reader row_a 1 read
      (record { id = 1; timestamp = 1; state = active }) (record { read_ts = 2; write_ts = 2 })
      ((row_b, write) ∷ (row_a, read) ∷ []) refl refl refl (omega arith)

abbrev one_wait : TwoPhase.WaitGraph.Graph
one_wait = (2, 1 ∷ []) ∷ []

one_wait-IsEnding : TwoPhase.WaitGraph.Deadlock.IsEnding one_wait
unfolding find Set.contains
one_wait-IsEnding a = Acc.intro a (λ b v. Acc.intro b (λ c u. absurd (ground arith)))

detect_deadlock_iff_example :
    (((TwoPhase.WaitGraph.detect_deadlock 1 2 one_wait).0 ≡ true)
      ↔ TwoPhase.WaitGraph.Search.HasCycle (TwoPhase.WaitGraph.add_wait 1 2 one_wait))
    × ((TwoPhase.WaitGraph.detect_deadlock 1 2 one_wait).0 ≡ false
        → TwoPhase.WaitGraph.Deadlock.IsEnding (TwoPhase.WaitGraph.add_wait 1 2 one_wait))
detect_deadlock_iff_example =
    TwoPhase.WaitGraph.Deadlock.detect_deadlock_iff one_wait 1 2 one_wait-IsEnding

detect_deadlock_found : (TwoPhase.WaitGraph.detect_deadlock 1 2 one_wait).0 ≡ true
unfolding program
detect_deadlock_found = refl

run-IsStrict_example :
    TwoPhase.Strict.IsStrict (TwoPhase.Run.run hasher (TwoPhase.init, []) crossing).1
run-IsStrict_example = TwoPhase.Strict.run-IsStrict hasher crossing

run-IsConsistent_example :
    TwoPhase.Release.IsConsistent (TwoPhase.Run.run hasher (TwoPhase.init, []) crossing).0
run-IsConsistent_example = TwoPhase.Strict.run-IsConsistent hasher crossing

run-not-HasCycle_example :
    ¬ TwoPhase.WaitGraph.Search.HasCycle
      (TwoPhase.Run.run hasher (TwoPhase.init, []) crossing).0.wait_for_graph
run-not-HasCycle_example = TwoPhase.Strict.run-not-HasCycle hasher crossing

run-IsGone_example :
    TwoPhase.Strict.IsGone (TwoPhase.Run.run hasher (TwoPhase.init, []) crossing).0 2 2
unfolding program
run-IsGone_example = TwoPhase.Strict.run-IsGone hasher crossing 2 2 refl

-- The names 2PL and Timestamp in letters of either case, and calls between them.
abbrev switched_calls : List Control.Run.Call
switched_calls =
    Control.Run.Call.begin
    ∷ Control.Run.Call.validate row_a 1 write
    ∷ Control.Run.Call.switch (b'T' ∷ b'i' ∷ b'm' ∷ b'e' ∷ b's' ∷ b't' ∷ b'a' ∷ b'm' ∷ b'p' ∷ [])
    ∷ Control.Run.Call.begin
    ∷ Control.Run.Call.end 1
    ∷ []

start-served_iff_example :
    (is_some (Control.Run.start hasher (b'2' ∷ b'P' ∷ b'L' ∷ []) switched_calls) ≡ true)
    × Control.Run.AreNamed (Control.Run.start hasher (b'2' ∷ b'P' ∷ b'L' ∷ []) switched_calls)
unfolding Control.to_lower text_same
start-served_iff_example =
    Control.Run.start-served_iff hasher (b'2' ∷ b'P' ∷ b'L' ∷ []) switched_calls

-- A switch to an unknown name leaves no protocol, so the next call goes through the null pointer; and
-- no manager is constructed for the empty name.
unknown_then_begin :
    Control.Run.start hasher
      (b'2' ∷ b'P' ∷ b'L' ∷ [])
      (Control.Run.Call.switch (b'x' ∷ []) ∷ Control.Run.Call.begin ∷ [])
    ≡ none
unfolding Control.construct Control.switch_algorithm Control.to_lower Control.begin_transaction
    Control.Run.run Control.Run.step text_same
unknown_then_begin = refl

empty_name : Control.construct [] ≡ none
unfolding Control.construct Control.switch_algorithm text_same
empty_name = refl
