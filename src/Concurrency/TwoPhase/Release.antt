-- ===== src/Concurrency/TwoPhase/Release.antt =====
-- The release of locks keeps the lock tables and the transactions' lists of locks in step.
use tubes_if3140_sistem_basi.Base.{
  ℕ, ◌≡◌, refl, List, [], ◌∷◌, true, false, ◌&&◌, ◌||◌, arith, if◌then◌else◌, ◌==◌, ◌∙◌,
}
use tubes_if3140_sistem_basi.Base.Key.{nat_key}
use tubes_if3140_sistem_basi.Base.Map.{find-erase}
use tubes_if3140_sistem_basi.Base.Set.{contains}
use tubes_if3140_sistem_basi.Concurrency.TwoPhase.{
  Manager, unlock_record, change_info, release_s_lock, release_x_lock, release_records,
}
use tubes_if3140_sistem_basi.Concurrency.TwoPhase.WaitGraph.Sets.{contains-drop_member}
use tubes_if3140_sistem_basi.Concurrency.TwoPhase.Views.{
  listed, live, shrinks, in_set, is_owner, listed-unlock, live-unlock, shrinks-unlock,
}

-- Each transaction lists exactly the records that it holds a lock on, and a record with an
-- exclusive lock has no shared one.
pub record IsConsistent (m : Manager) : Type 0 where
  pub held :
      (t h : ℕ)
      → listed t h m.transactions ≡ (in_set t h m.s_lock_table || is_owner t h m.x_lock_table)
  pub exclusive :
      (t u h : ℕ) → is_owner t h m.x_lock_table ≡ true → in_set u h m.s_lock_table ≡ false

-- One record is released: nothing else changes.
abbrev unlocked : ℕ → ℕ → Manager → Manager
unlocked tid hash m = release_x_lock tid hash (release_s_lock tid hash m)

shared-unlocked :
    (tid hash t h : ℕ) (m : Manager)
    → in_set t h (unlocked tid hash m).s_lock_table
      ≡ (if tid == t && hash == h then false else in_set t h m.s_lock_table)
unfolding release_s_lock release_x_lock
shared-unlocked tid hash t h m = ground (arith, contains-drop_member hash tid h t m.s_lock_table)

owner-unlocked :
    (tid hash t h : ℕ) (m : Manager)
    → is_owner t h (unlocked tid hash m).x_lock_table
      ≡ (if tid == t && hash == h then false else is_owner t h m.x_lock_table)
unfolding release_s_lock release_x_lock
owner-unlocked tid hash t h m = ground (arith, find-erase hash h m.x_lock_table)

listed-unlocked :
    (tid hash t h : ℕ) (m : Manager)
    → IsConsistent m
    → listed t h (unlocked tid hash m).transactions
      ≡ (if tid == t && hash == h then false else listed t h m.transactions)
unfolding release_s_lock release_x_lock
listed-unlocked tid hash t h m c = ground (
  arith,
  c.held tid hash,
  listed-unlock tid t hash h m.transactions,
  listed-unlock tid t hash h (change_info tid (unlock_record hash) m.transactions),
)

unlocked-IsConsistent :
    (tid hash : ℕ) (m : Manager) → IsConsistent m → IsConsistent (unlocked tid hash m)
unlocked-IsConsistent tid hash m c = record {
  held = λ t h. ground (
    arith,
    c.held t h,
    listed-unlocked tid hash t h m c,
    shared-unlocked tid hash t h m,
    owner-unlocked tid hash t h m,
  );
  exclusive = λ t u h e.
      ground
        (arith, c.exclusive t u h, shared-unlocked tid hash u h m, owner-unlocked tid hash t h m);
}

-- What the release of the records of `tid` in a list leaves.
pub record Released (tid : ℕ) (hs : List ℕ) (m m' : Manager) : Type 0 where
  pub consistent : IsConsistent m'
  pub list :
      (t h : ℕ)
      → listed t h m'.transactions
        ≡ (if tid == t && contains h hs then false else listed t h m.transactions)
  pub status : (t : ℕ) → live t m'.transactions ≡ live t m.transactions
  pub phases : (t : ℕ) → shrinks t m'.transactions ≡ shrinks t m.transactions
  pub graph : m'.wait_for_graph ≡ m.wait_for_graph
  pub queues : m'.lock_wait_queue ≡ m.lock_wait_queue
  pub counter : m'.current_transaction_id ≡ m.current_transaction_id
  pub owner :
      (t h : ℕ) → (tid == t) ≡ false → is_owner t h m'.x_lock_table ≡ is_owner t h m.x_lock_table

live-unlocked :
    (tid hash t : ℕ) (m : Manager)
    → live t (unlocked tid hash m).transactions ≡ live t m.transactions
unfolding release_s_lock release_x_lock
live-unlocked tid hash t m = ground (
  arith,
  live-unlock tid t hash m.transactions,
  live-unlock tid t hash (change_info tid (unlock_record hash) m.transactions),
)

shrinks-unlocked :
    (tid hash t : ℕ) (m : Manager)
    → shrinks t (unlocked tid hash m).transactions ≡ shrinks t m.transactions
unfolding release_s_lock release_x_lock
shrinks-unlocked tid hash t m = ground (
  arith,
  shrinks-unlock tid t hash m.transactions,
  shrinks-unlock tid t hash (change_info tid (unlock_record hash) m.transactions),
)

waits-unlocked :
    (tid hash : ℕ) (m : Manager)
    → ((unlocked tid hash m).wait_for_graph ≡ m.wait_for_graph)
      × ((unlocked tid hash m).lock_wait_queue ≡ m.lock_wait_queue)
      × ((unlocked tid hash m).current_transaction_id ≡ m.current_transaction_id)
unfolding release_s_lock release_x_lock
waits-unlocked tid hash m = ground arith

Released-cons :
    (tid x : ℕ) (hs : List ℕ) (m m' : Manager)
    → IsConsistent m
    → Released tid hs (unlocked tid x m) m'
    → Released tid (x ∷ hs) m m'
unfolding contains
Released-cons tid x hs m m' c rest = record {
  consistent = rest.consistent;
  list = λ t h. ground (arith, rest.list t h, listed-unlocked tid x t h m c);
  status = λ t. rest.status t ∙ live-unlocked tid x t m;
  phases = λ t. rest.phases t ∙ shrinks-unlocked tid x t m;
  graph = rest.graph ∙ (waits-unlocked tid x m).0;
  queues = rest.queues ∙ (waits-unlocked tid x m).1;
  counter = rest.counter ∙ (waits-unlocked tid x m).2;
  owner = λ t h e. ground (arith, rest.owner t h e, owner-unlocked tid x t h m);
}

pub release_records-Released :
    (tid : ℕ) (hs : List ℕ) (m : Manager)
    → IsConsistent m
    → Released tid hs m (release_records tid hs m)
unfolding release_records contains
release_records-Released tid [] m c = record {
  consistent = c;
  list = λ t h. ground arith;
  status = λ t. refl;
  phases = λ t. refl;
  graph = refl;
  queues = refl;
  counter = refl;
  owner = λ t h e. refl;
}
release_records-Released tid (x ∷ hs) m c =
    Released-cons tid x hs m _ c
      (release_records-Released tid hs (unlocked tid x m) (unlocked-IsConsistent tid x m c))
