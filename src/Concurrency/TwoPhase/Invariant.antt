-- ===== src/Concurrency/TwoPhase/Invariant.antt =====
-- The invariant of `TwoPhaseLockingCCManager`.
use tubes_if3140_sistem_basi.Base.{ℕ, ◌≤◌, ◌≡◌, true, false}
use tubes_if3140_sistem_basi.Concurrency.TwoPhase.{Manager}
use tubes_if3140_sistem_basi.Concurrency.TwoPhase.WaitGraph.{Graph}
use tubes_if3140_sistem_basi.Concurrency.TwoPhase.WaitGraph.Deadlock.{IsEnding}
use tubes_if3140_sistem_basi.Concurrency.TwoPhase.WaitGraph.Search.{Waits}
use tubes_if3140_sistem_basi.Concurrency.TwoPhase.Views.{Infos, listed, live, shrinks, in_set}
use tubes_if3140_sistem_basi.Concurrency.TwoPhase.Release.{IsConsistent}

-- Only live transactions wait, and only for live ones.
abbrev pub WaitsAreLive : Graph → Infos → Type 0
WaitsAreLive g ts = (a b : ℕ) → Waits g a b → (live a ts ≡ true) × (live b ts ≡ true)

-- The lock tables agree with the transactions' lists and no exclusive lock is shared; a finished
-- transaction holds nothing, stands in no queue and in no wait; a live one has not begun to
-- release and has a number that was given out; and no chain of waits goes on for ever.
pub record IsSound (m : Manager) : Type 0 where
  pub consistent : IsConsistent m
  pub closed : (t h : ℕ) → live t m.transactions ≡ false → listed t h m.transactions ≡ false
  pub phased : (t : ℕ) → live t m.transactions ≡ true → shrinks t m.transactions ≡ false
  pub numbered : (t : ℕ) → live t m.transactions ≡ true → t ≤ m.current_transaction_id
  pub ending : IsEnding m.wait_for_graph
  pub queued : (t h : ℕ) → in_set t h m.lock_wait_queue ≡ true → live t m.transactions ≡ true
  pub waiting : WaitsAreLive m.wait_for_graph m.transactions
