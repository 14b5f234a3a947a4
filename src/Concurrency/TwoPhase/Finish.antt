-- ===== src/Concurrency/TwoPhase/Finish.antt =====
-- Commit and abort: a transaction that finishes releases all it holds, and the invariant is kept.
use tubes_if3140_sistem_basi.Base.{
  ℕ, ◌≡◌, refl, [], true, false, ◌||◌, some, arith, if◌then◌else◌, ◌==◌, Bool-cases, Option-cases,
  inl, inr, ◌∙◌, sym, subst,
}
use tubes_if3140_sistem_basi.Base.Key.{nat_key}
use tubes_if3140_sistem_basi.Base.Map
use tubes_if3140_sistem_basi.Base.Map.{find, put, find-put, find-erase}
use tubes_if3140_sistem_basi.Base.Set.{contains}
use tubes_if3140_sistem_basi.Types.{aborted, committed}
use tubes_if3140_sistem_basi.Concurrency.TwoPhase.{
  Manager, TransactionInfo, release_records, release_all_locks, forget_waits, forget,
  abort_transaction, end_transaction, shrinking, is_aborted,
}
use tubes_if3140_sistem_basi.Concurrency.TwoPhase.Acquire.{is_active}
use tubes_if3140_sistem_basi.Concurrency.TwoPhase.WaitGraph.{Graph, set_at}
use tubes_if3140_sistem_basi.Concurrency.TwoPhase.WaitGraph.Sets.{set_at-erase}
use tubes_if3140_sistem_basi.Concurrency.TwoPhase.WaitGraph.Search.{Waits}
use tubes_if3140_sistem_basi.Concurrency.TwoPhase.WaitGraph.Deadlock.{fewer-Ends}
use tubes_if3140_sistem_basi.Concurrency.TwoPhase.Views.{
  listed, live, shrinks, in_set, is_owner, listed-put, live-put, shrinks-put, in_set-forget,
}
use tubes_if3140_sistem_basi.Concurrency.TwoPhase.Release.{
  IsConsistent, Released, release_records-Released,
}
use tubes_if3140_sistem_basi.Concurrency.TwoPhase.Invariant.{IsSound, WaitsAreLive}

-- What remains when `tid` has finished: it is not live, and the others are as they were.
pub record Finished (tid : ℕ) (m m' : Manager) : Type 0 where
  pub sound : IsSound m'
  pub status :
      (t : ℕ) → live t m'.transactions ≡ (if tid == t then false else live t m.transactions)
  pub list :
      (t h : ℕ)
      → listed t h m'.transactions ≡ (if tid == t then false else listed t h m.transactions)
  pub owner :
      (t h : ℕ) → (tid == t) ≡ false → is_owner t h m'.x_lock_table ≡ is_owner t h m.x_lock_table
  pub counter : m'.current_transaction_id ≡ m.current_transaction_id
  pub no_wait :
      (t h : ℕ)
      → (in_set tid h m'.lock_wait_queue ≡ false)
        × (in_set tid h m'.wait_for_graph ≡ false)
        × (in_set h tid m'.wait_for_graph ≡ false)

empty_at : (x : ℕ) → contains x [] ≡ false
unfolding contains
empty_at x = refl

pub forget-Waits :
    (tid : ℕ) (g : Graph) (a b : ℕ)
    → contains b (set_at a (forget tid (Map.erase tid g)))
      ≡ (if tid == a || tid == b then false else contains b (set_at a g))
forget-Waits tid g a b =
    ground (arith, in_set-forget tid b a (Map.erase tid g), set_at-erase tid a g, empty_at b)

module _ (m : Manager) (s : IsSound m) (tid : ℕ) (t t' : TransactionInfo) (g : Graph)
    (known : find tid m.transactions ≡ some t) (same : t'.locked_records ≡ t.locked_records)
    (over : is_active t'.status ≡ false)
    (sub : (a b : ℕ) → (tid == a) ≡ false → Waits g a b → Waits m.wait_for_graph a b) where
  marked : Manager
  marked = record m { transactions = put tid t' m.transactions; wait_for_graph = g }

  marked-listed : (u h : ℕ) → listed u h marked.transactions ≡ listed u h m.transactions
  unfolding marked
  marked-listed u h = ground (arith, listed-put tid u h t' m.transactions)

  marked-IsConsistent : IsConsistent marked
  unfolding marked
  marked-IsConsistent = record {
    held = λ u h. marked-listed u h ∙ s.consistent.held u h;
    exclusive = s.consistent.exclusive;
  }

  released : Released tid t'.locked_records marked (release_records tid t'.locked_records marked)
  released = release_records-Released tid t'.locked_records marked marked-IsConsistent

  left : Manager
  unfolding marked
  left = forget_waits tid (release_records tid t'.locked_records marked)

  left-listed :
      (u h : ℕ)
      → listed u h left.transactions ≡ (if tid == u then false else listed u h m.transactions)
  unfolding left forget_waits
  left-listed u h =
      ground (arith, released.list u h, listed-put tid u h t' m.transactions, marked-listed u h)

  left-live :
      (u : ℕ) → live u left.transactions ≡ (if tid == u then false else live u m.transactions)
  unfolding left forget_waits
  left-live u = ground (arith, released.status u, live-put tid u t' m.transactions)

  left-shrinks :
      (u : ℕ) → (tid == u) ≡ false → shrinks u left.transactions ≡ shrinks u m.transactions
  unfolding left forget_waits
  left-shrinks u e = ground (arith, released.phases u, shrinks-put tid u t' m.transactions)

  left-Waits :
      (a b : ℕ)
      → contains b (set_at a left.wait_for_graph)
        ≡ (if tid == a || tid == b then false else contains b (set_at a g))
  unfolding left forget_waits
  left-Waits a b = rw (← forget-Waits tid g a b, released.graph) refl

  left-queued :
      (u h : ℕ)
      → in_set u h left.lock_wait_queue ≡ (if tid == u then false else in_set u h m.lock_wait_queue)
  unfolding left forget_waits
  left-queued u h = rw (released.queues) (in_set-forget tid u h m.lock_wait_queue)

  left-IsConsistent : IsConsistent left
  unfolding left forget_waits
  left-IsConsistent = record {
    held = released.consistent.held;
    exclusive = released.consistent.exclusive;
  }

  left-counter : left.current_transaction_id ≡ m.current_transaction_id
  unfolding left forget_waits
  left-counter = released.counter

  left-owner :
      (u h : ℕ) → (tid == u) ≡ false → is_owner u h left.x_lock_table ≡ is_owner u h m.x_lock_table
  unfolding left forget_waits
  left-owner u h e = released.owner u h e

  left-WaitsAreLive : WaitsAreLive left.wait_for_graph left.transactions
  left-WaitsAreLive a b w =
      let old =
        s.waiting a b (sub a b (ground (arith, left-Waits a b)) (ground (arith, left-Waits a b))) in
      (ground (arith, left-live a, left-Waits a b), ground (arith, left-live b, left-Waits a b))

  left-IsSound : IsSound left
  left-IsSound = record {
    consistent = left-IsConsistent;
    closed = λ u h e. ground (arith, left-listed u h, left-live u, s.closed u h);
    phased = λ u e. ground (arith, left-live u, left-shrinks u, s.phased u);
    numbered = λ u e. ground (arith, left-live u, s.numbered u, left-counter);
    ending = λ a.
        fewer-Ends m.wait_for_graph left.wait_for_graph
          (λ c d w. sub c d (ground (arith, left-Waits c d)) (ground (arith, left-Waits c d))) a
          (s.ending a);
    queued = λ u h e. ground (arith, left-queued u h, left-live u, s.queued u h);
    waiting = left-WaitsAreLive;
  }

  -- The transaction is marked as over, and releases all it holds.
  release_all_locks-Finished : Finished tid m (release_all_locks tid marked)
  unfolding left marked release_all_locks
  release_all_locks-Finished = subst (Finished tid m) (sym opened) (record {
    sound = left-IsSound;
    status = left-live;
    list = left-listed;
    owner = left-owner;
    counter = left-counter;
    no_wait = λ u h. (
      ground (arith, left-queued tid h),
      ground (arith, left-Waits h tid),
      ground (arith, left-Waits tid h),
    );
  })
    where
      opened : release_all_locks tid marked ≡ left
      opened = ground (arith, find-put tid tid t' m.transactions)

abbrev aborting : ℕ → TransactionInfo → Graph → Manager → Manager
aborting tid t g m = record m {
  transactions = put tid (record t { status = aborted }) m.transactions;
  wait_for_graph = g;
}

-- `abort_transaction` of a known transaction on a sound manager, whose wait-for graph may hold more
-- waits of that transaction.
pub abort_transaction-Finished :
    (m : Manager) (tid : ℕ) (t : TransactionInfo) (g : Graph)
    → IsSound m
    → find tid m.transactions ≡ some t
    → ((a b : ℕ) → (tid == a) ≡ false → Waits g a b → Waits m.wait_for_graph a b)
    → Finished tid m (abort_transaction tid (record m { wait_for_graph = g }))
unfolding abort_transaction marked
abort_transaction-Finished m tid t g s e sub =
    rw (e, abort_transaction)
      (release_all_locks-Finished m s tid t (record t { status = aborted }) g e refl refl sub)

end_aborted-IsSound :
    (m : Manager) (tid : ℕ) (t : TransactionInfo)
    → IsSound m
    → find tid m.transactions ≡ some t
    → is_aborted t.status ≡ true
    → IsSound (record m { transactions = put tid (record t { phase = shrinking }) m.transactions })
end_aborted-IsSound m tid t s e a = record {
  consistent = record {
    held = λ u h. same_list u h ∙ s.consistent.held u h;
    exclusive = s.consistent.exclusive;
  };
  closed = λ u h l. ground (arith, same_list u h, same_live u, s.closed u h);
  phased = λ u l.
      ground
        (arith, same_live u, not_live, s.phased u, shrinks-put tid u marked_info m.transactions);
  numbered = λ u l. ground (arith, same_live u, s.numbered u);
  ending = s.ending;
  queued = λ u h l. ground (arith, same_live u, s.queued u h);
  waiting = λ c d w.
      let (p, q) = s.waiting c d w in (ground (arith, same_live c), ground (arith, same_live d));
}
  where
    marked_info : TransactionInfo
    marked_info = record t { phase = shrinking }

    not_live : is_active t.status ≡ false
    not_live = ground arith

    same_list :
        (u h : ℕ) → listed u h (put tid marked_info m.transactions) ≡ listed u h m.transactions
    same_list u h = ground (arith, listed-put tid u h marked_info m.transactions)

    same_live : (u : ℕ) → live u (put tid marked_info m.transactions) ≡ live u m.transactions
    same_live u = ground (arith, live-put tid u marked_info m.transactions)

-- `end_transaction` finishes the transaction, unless it is unknown or has aborted: then only its
-- phase changes.
pub data Ended (tid : ℕ) (m m' : Manager) : Type 0 where
  finished : Finished tid m m' → Ended tid m m'
  unchanged :
      IsSound m'
      → ((t : ℕ) → live t m'.transactions ≡ live t m.transactions)
      → ((t h : ℕ) → listed t h m'.transactions ≡ listed t h m.transactions)
      → m'.x_lock_table ≡ m.x_lock_table
      → m'.current_transaction_id ≡ m.current_transaction_id
      → Ended tid m m'

pub end_transaction-Ended :
    (m : Manager) (tid : ℕ) → IsSound m → Ended tid m (end_transaction m tid)
unfolding end_transaction marked
end_transaction-Ended m tid s = elim (Option-cases (find tid m.transactions)) [
  | inl e ↦ rw (e, end_transaction) (unchanged s (λ t. refl) (λ t h. refl) refl refl)
  | inr (t, e) ↦ elim (Bool-cases (is_aborted t.status)) [
    | inl a ↦
        rw (e, a, end_transaction)
          (unchanged (end_aborted-IsSound m tid t s e a)
            (λ u. ground (arith, live-put tid u (record t { phase = shrinking }) m.transactions))
            (λ u h.
              ground (arith, listed-put tid u h (record t { phase = shrinking }) m.transactions))
            refl refl)
    | inr a ↦
        rw (e, a, end_transaction)
          (finished (
            release_all_locks-Finished m s tid t
              (record t { phase = shrinking; status = committed }) m.wait_for_graph e refl refl
              (λ c d f w. w)))
  ]
]
