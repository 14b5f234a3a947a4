-- ===== src/Concurrency/TwoPhase/Advance.antt =====
-- What an operation of `TwoPhaseLockingCCManager` keeps: the invariant, and the locks of every
-- transaction that is live after it.
use tubes_if3140_sistem_basi.Base.{ℕ, ◌≡◌, refl, true, arith}
use tubes_if3140_sistem_basi.Concurrency.TwoPhase.{Manager, end_transaction}
use tubes_if3140_sistem_basi.Concurrency.TwoPhase.Views.{listed, live, is_owner}
use tubes_if3140_sistem_basi.Concurrency.TwoPhase.Invariant.{IsSound}
use tubes_if3140_sistem_basi.Concurrency.TwoPhase.Finish.{
  Finished, Ended, finished, unchanged, end_transaction-Ended,
}

pub record Advances (m m' : Manager) : Type 0 where
  pub sound : IsSound m'
  pub status : (t : ℕ) → live t m'.transactions ≡ true → live t m.transactions ≡ true
  pub list :
      (t h : ℕ)
      → live t m'.transactions ≡ true
      → listed t h m.transactions ≡ true
      → listed t h m'.transactions ≡ true
  pub owner :
      (t h : ℕ)
      → live t m'.transactions ≡ true
      → is_owner t h m.x_lock_table ≡ true
      → is_owner t h m'.x_lock_table ≡ true
  pub counter : m'.current_transaction_id ≡ m.current_transaction_id

pub Finished-Advances : (tid : ℕ) (m m' : Manager) → Finished tid m m' → Advances m m'
Finished-Advances tid m m' f = record {
  sound = f.sound;
  status = λ t l. ground (arith, f.status t);
  list = λ t h l k. ground (arith, f.status t, f.list t h);
  owner = λ t h l k. ground (arith, f.status t, f.owner t h);
  counter = f.counter;
}

pub Advances-refl : (m : Manager) → IsSound m → Advances m m
Advances-refl m s = record {
  sound = s;
  status = λ t l. l;
  list = λ t h l k. k;
  owner = λ t h l k. k;
  counter = refl;
}

pub end_transaction-Advances :
    (m : Manager) (tid : ℕ) → IsSound m → Advances m (end_transaction m tid)
end_transaction-Advances m tid s = of_ended (end_transaction-Ended m tid s)
  where
    of_ended : Ended tid m (end_transaction m tid) → Advances m (end_transaction m tid)
    of_ended (finished f) = Finished-Advances tid m _ f
    of_ended (unchanged s' l k x c) = record {
      sound = s';
      status = λ t h. ground (arith, l t);
      list = λ t h v j. ground (arith, k t h);
      owner = λ t h v j. rw x j;
      counter = c;
    }
