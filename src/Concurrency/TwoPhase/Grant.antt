-- ===== src/Concurrency/TwoPhase/Grant.antt =====
-- The steps of `acquire_s_lock` and `acquire_x_lock`: to wait, and to be granted a lock.
use tubes_if3140_sistem_basi.Base.{
  ℕ, ◌≡◌, refl, [], true, false, ◌&&◌, ◌||◌, none, some, arith, if◌then◌else◌, ◌==◌, Bool-cases,
  inl, inr, ◌⊎◌, ◌∙◌, sym,
}
use tubes_if3140_sistem_basi.Base.Key.{nat_key}
use tubes_if3140_sistem_basi.Base.Map
use tubes_if3140_sistem_basi.Base.Map.{Map, find, put, find-put, find-erase}
use tubes_if3140_sistem_basi.Base.Set.{contains, insert, contains-insert}
use tubes_if3140_sistem_basi.Concurrency.TwoPhase.{
  Manager, TransactionInfo, lock_record, change_info,
}
use tubes_if3140_sistem_basi.Concurrency.TwoPhase.Acquire.{
  is_active, enqueue, leave_queue, wait_for, grant_s_lock, grant_x_lock,
}
use tubes_if3140_sistem_basi.Concurrency.TwoPhase.WaitGraph.{Graph, set_at, detect_deadlock}
use tubes_if3140_sistem_basi.Concurrency.TwoPhase.WaitGraph.Sets.{set_at-erase, set_at-put}
use tubes_if3140_sistem_basi.Concurrency.TwoPhase.WaitGraph.Search.{Waits, Ends}
use tubes_if3140_sistem_basi.Concurrency.TwoPhase.WaitGraph.Deadlock.{
  fewer-Ends, detect_deadlock-others, waiting_graph, waiting_graph-IsEnding, waiting_graph-Waits,
}
use tubes_if3140_sistem_basi.Concurrency.TwoPhase.Views.{
  Holders, listed, live, in_set, is_owner, listed-lock, live-lock, shrinks-lock,
}
use tubes_if3140_sistem_basi.Concurrency.TwoPhase.Queue.{in_set-enqueue, in_set-leave_queue}
use tubes_if3140_sistem_basi.Concurrency.TwoPhase.Invariant.{IsSound, WaitsAreLive}
use tubes_if3140_sistem_basi.Concurrency.TwoPhase.Finish.{abort_transaction-Finished}
use tubes_if3140_sistem_basi.Concurrency.TwoPhase.Advance.{Advances, Finished-Advances}

-- A transaction in the queue waits; its waits in the graph may change.
pub queue-Advances :
    (m : Manager) (tid hash : ℕ) (g : Graph)
    → IsSound m
    → live tid m.transactions ≡ true
    → ((a : ℕ) → Ends g a)
    → WaitsAreLive g m.transactions
    → Advances m
        (record m { wait_for_graph = g; lock_wait_queue = enqueue hash tid m.lock_wait_queue })
queue-Advances m tid hash g s l ends ws = record {
  sound = record {
    consistent = record { held = s.consistent.held; exclusive = s.consistent.exclusive };
    closed = s.closed;
    phased = s.phased;
    numbered = s.numbered;
    ending = ends;
    queued = λ t h k. ground (arith, in_set-enqueue hash tid t h m.lock_wait_queue, s.queued t h);
    waiting = ws;
  };
  status = λ t k. k;
  list = λ t h k j. j;
  owner = λ t h k j. j;
  counter = refl;
}

pub wait_for-Advances :
    (m : Manager) (tid hash holder : ℕ) (t : TransactionInfo)
    → IsSound m
    → find tid m.transactions ≡ some t
    → is_active t.status ≡ true
    → live holder m.transactions ≡ true
    → Advances m (wait_for tid hash holder m)
unfolding wait_for
wait_for-Advances m tid hash holder t s e l lh =
    elim (Bool-cases (detect_deadlock tid holder m.wait_for_graph).0) [
      | inl found ↦ rw found (
          Finished-Advances tid m _ (
            abort_transaction-Finished m tid t (detect_deadlock tid holder m.wait_for_graph).1 s e
              (λ a b f w. detect_deadlock-others tid holder m.wait_for_graph a b f w)))
      | inr clear ↦ rw clear (
          queue-Advances m tid hash (waiting_graph tid holder m.wait_for_graph) s (ground arith)
            (waiting_graph-IsEnding m.wait_for_graph tid holder s.ending clear)
            (λ a b w. both a b (waiting_graph-Waits tid holder m.wait_for_graph a b clear w)))
    ]
  where
    both :
        (a b : ℕ)
        → ((tid == a && holder == b) ≡ true) ⊎ Waits m.wait_for_graph a b
        → (live a m.transactions ≡ true) × (live b m.transactions ≡ true)
    both a b (inl new) = (ground arith, ground arith)
    both a b (inr old) = s.waiting a b old

-- What both grants do besides the lock table: the transaction lists the record and waits no more.
abbrev pub noted : ℕ → ℕ → Map ℕ ℕ → Holders → Manager → Manager
noted tid hash xs ss m = record m {
  x_lock_table = xs;
  s_lock_table = ss;
  transactions = change_info tid (lock_record hash) m.transactions;
  wait_for_graph = Map.erase tid m.wait_for_graph;
  lock_wait_queue = leave_queue hash tid m.lock_wait_queue;
}

empty_at : (x : ℕ) → contains x [] ≡ false
unfolding contains
empty_at x = refl

erase-Waits : (tid : ℕ) (g : Graph) (a b : ℕ) → Waits (Map.erase tid g) a b → Waits g a b
erase-Waits tid g a b w = ground (arith, set_at-erase tid a g, empty_at b)

module _ (m : Manager) (s : IsSound m) (tid hash : ℕ) (t : TransactionInfo)
    (e : find tid m.transactions ≡ some t) (l : is_active t.status ≡ true) (xs : Map ℕ ℕ)
    (ss : Holders)
    (held' : (u h : ℕ)
      → (in_set u h ss || is_owner u h xs) ≡ (
          if tid == u && hash == h
          then true
          else in_set u h m.s_lock_table || is_owner u h m.x_lock_table))
    (exclusive' : (u v h : ℕ) → is_owner u h xs ≡ true → in_set v h ss ≡ false)
    (owner' : (u h : ℕ) → is_owner u h m.x_lock_table ≡ true → is_owner u h xs ≡ true) where
  pub noted-listed :
      (u h : ℕ)
      → listed u h (noted tid hash xs ss m).transactions
        ≡ (if tid == u && hash == h then true else listed u h m.transactions)
  noted-listed u h = ground (arith, listed-lock tid u hash h m.transactions)

  noted-live : (u : ℕ) → live u (noted tid hash xs ss m).transactions ≡ live u m.transactions
  noted-live u = live-lock tid u hash m.transactions

  noted-IsSound : IsSound (noted tid hash xs ss m)
  noted-IsSound = record {
    consistent = record {
      held = λ u h. ground (arith, held' u h, noted-listed u h, s.consistent.held u h);
      exclusive = exclusive';
    };
    closed = λ u h k. ground (arith, noted-live u, noted-listed u h, s.closed u h);
    phased =
        λ u k. ground (arith, noted-live u, shrinks-lock tid u hash m.transactions, s.phased u);
    numbered = λ u k. ground (arith, noted-live u, s.numbered u);
    ending = λ a.
        fewer-Ends m.wait_for_graph (Map.erase tid m.wait_for_graph)
          (erase-Waits tid m.wait_for_graph) a (s.ending a);
    queued = λ u h k.
        ground
          (arith, noted-live u, s.queued u h (in_set-leave_queue hash tid u h m.lock_wait_queue k));
    waiting = λ a b w.
        let (p, q) = s.waiting a b (erase-Waits tid m.wait_for_graph a b w) in
        (noted-live a ∙ p, noted-live b ∙ q);
  }

  noted-Advances : Advances m (noted tid hash xs ss m)
  noted-Advances = record {
    sound = noted-IsSound;
    status = λ u k. sym (noted-live u) ∙ k;
    list = λ u h k j. ground (arith, noted-listed u h);
    owner = λ u h k j. owner' u h j;
    counter = refl;
  }

module _ (m : Manager) (s : IsSound m) (tid hash : ℕ) (t : TransactionInfo)
    (e : find tid m.transactions ≡ some t) (l : is_active t.status ≡ true)
    (free : find hash m.x_lock_table ≡ none) where
  pub in_set-granted :
      (u h : ℕ)
      → in_set u h (put hash (insert tid (set_at hash m.s_lock_table)) m.s_lock_table)
        ≡ (if tid == u && hash == h then true else in_set u h m.s_lock_table)
  in_set-granted u h = ground (
    arith,
    set_at-put hash h (insert tid (set_at hash m.s_lock_table)) m.s_lock_table,
    contains-insert tid u (set_at hash m.s_lock_table),
  )

  pub grant_s_lock-Advances : Advances m (grant_s_lock tid hash m)
  unfolding grant_s_lock
  grant_s_lock-Advances =
      noted-Advances m s tid hash t e l m.x_lock_table _ (λ u h. ground (arith, in_set-granted u h))
        (λ u v h k. ground (arith, in_set-granted v h, s.consistent.exclusive u v h)) (λ u h k. k)

  pub is_owner-granted :
      (u h : ℕ)
      → is_owner u h (put hash tid m.x_lock_table)
        ≡ (if hash == h then tid == u else is_owner u h m.x_lock_table)
  is_owner-granted u h = ground (arith, find-put hash h tid m.x_lock_table)

  pub grant_s_lock-listed : listed tid hash (grant_s_lock tid hash m).transactions ≡ true
  unfolding grant_s_lock
  grant_s_lock-listed = ground (arith, listed-lock tid tid hash hash m.transactions)

  -- The exclusive lock, once no other transaction shares the record and the own share is gone.
  pub grant_x_lock-Advances :
      (ss : Holders)
      → ((u h : ℕ) → in_set u h ss ≡ (if hash == h then false else in_set u h m.s_lock_table))
      → ((u : ℕ) → in_set u hash m.s_lock_table ≡ true → (tid == u) ≡ true)
      → Advances m (grant_x_lock tid hash (record m { s_lock_table = ss }))
  unfolding grant_x_lock
  grant_x_lock-Advances ss gone own =
      noted-Advances m s tid hash t e l (put hash tid m.x_lock_table) ss
        (λ u h. ground (arith, gone u h, is_owner-granted u h, own u))
        (λ u v h k. ground (arith, gone v h, is_owner-granted u h, s.consistent.exclusive u v h))
        (λ u h k. ground (arith, is_owner-granted u h))

  pub grant_x_lock-owner :
      (ss : Holders)
      → is_owner tid hash (grant_x_lock tid hash (record m { s_lock_table = ss })).x_lock_table
        ≡ true
  unfolding grant_x_lock
  grant_x_lock-owner ss = ground (arith, is_owner-granted tid hash)
