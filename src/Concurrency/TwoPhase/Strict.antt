-- ===== src/Concurrency/TwoPhase/Strict.antt =====
-- What every run of `TwoPhaseLockingCCManager` guarantees.
use tubes_if3140_sistem_basi.Base.{
  ℕ, ◌≤◌, ◌≡◌, refl, List, [], ◌∷◌, Bool, true, false, arith, Bool-cases, inl, inr, All, ◌⊎◌, sym,
}
use tubes_if3140_sistem_basi.Base.Key.{nat_key}
use tubes_if3140_sistem_basi.Types.{Action, read, write, Response}
use tubes_if3140_sistem_basi.Concurrency.RowHash.{Hasher, generate_row_hash}
use tubes_if3140_sistem_basi.Concurrency.Access.{Access, clash, conflicts}
use tubes_if3140_sistem_basi.Concurrency.TwoPhase.{Manager, init, begin_transaction}
use tubes_if3140_sistem_basi.Concurrency.TwoPhase.Acquire.{validate_object}
use tubes_if3140_sistem_basi.Concurrency.TwoPhase.WaitGraph.Deadlock.{not-HasCycle}
use tubes_if3140_sistem_basi.Concurrency.TwoPhase.WaitGraph.Search.{HasCycle}
use tubes_if3140_sistem_basi.Concurrency.TwoPhase.Views.{live, in_set, is_owner}
use tubes_if3140_sistem_basi.Concurrency.TwoPhase.Invariant.{IsSound}
use tubes_if3140_sistem_basi.Concurrency.TwoPhase.Release.{IsConsistent}
use tubes_if3140_sistem_basi.Concurrency.TwoPhase.Advance.{end_transaction-Advances}
use tubes_if3140_sistem_basi.Concurrency.TwoPhase.Advance.{Advances}
use tubes_if3140_sistem_basi.Concurrency.TwoPhase.Locks.{Holds}
use tubes_if3140_sistem_basi.Concurrency.TwoPhase.Run.{
  Call, begin, validate, end, History, grant, step, run, Validated, begin_transaction-IsSound,
  begin_transaction-live, begin_transaction-Holds, begin_transaction-counter,
  validate_object-Validated, init-IsSound,
}

-- When the access was granted, the transactions of earlier accesses that conflict with it had
-- finished, or were its own.
abbrev pub IsLast : Access × Manager → History → Type 0
IsLast (a, m) h =
    All (λ (b, m'). conflicts a b ≡ true → (b.tid ≡ a.tid) ⊎ (live b.tid m.transactions ≡ false)) h

abbrev pub IsStrict : History → Type 0
IsStrict [] = Unit
IsStrict (e ∷ h) = IsLast e h × IsStrict h

-- Two locks on one record that clash belong to one transaction.
clash-same :
    (m : Manager) (hash t u : ℕ) (c d : Action)
    → IsConsistent m
    → clash c d ≡ true
    → Holds c t hash m
    → Holds d u hash m
    → t ≡ u
clash-same m hash t u read read s k p q = cc
clash-same m hash t u read write s k p q = ground (arith, s.held t hash, s.exclusive u t hash)
clash-same m hash t u write read s k p q = ground (arith, s.held u hash, s.exclusive t u hash)
clash-same m hash t u write write s k p q = ground arith

-- A granted access is covered by a lock while its transaction is live.
abbrev IsCovered : Manager → Access × Manager → Type 0
IsCovered m (a, m') =
    (live a.tid m.transactions ≡ true → Holds a.action a.tid a.object m)
    × (a.tid ≤ m.current_transaction_id)

pub record IsGuarded (s : Manager × History) : Type 0 where
  pub sound : IsSound s.0
  covered : All (IsCovered s.0) s.1
  pub strict : IsStrict s.1

Holds-Advances :
    (m m' : Manager) (c : Action) (t h : ℕ)
    → Advances m m'
    → live t m'.transactions ≡ true
    → Holds c t h m
    → Holds c t h m'
Holds-Advances m m' read t h a l k = a.list t h l k
Holds-Advances m m' write t h a l k = a.owner t h l k

All-Advances :
    (m m' : Manager) (h : History) → Advances m m' → All (IsCovered m) h → All (IsCovered m') h
All-Advances m m' [] a c = tt
All-Advances m m' ((b, n) ∷ h) a ((k, le), c) = (
  (
    λ l. Holds-Advances m m' b.action b.tid b.object a l (k (a.status b.tid l)),
    omega (arith, a.counter),
  ),
  All-Advances m m' h a c,
)

All-IsLast :
    (a : Access) (m : Manager) (h : History)
    → IsConsistent m
    → Holds a.action a.tid a.object m
    → All (IsCovered m) h
    → IsLast (a, m) h
All-IsLast a m [] s k c = tt
All-IsLast a m ((b, n) ∷ h) s k ((cov, le), c) = (
  λ q. elim (Bool-cases (live b.tid m.transactions)) [
    | inl l ↦ inl (
        sym (
          clash-same m a.object a.tid b.tid a.action b.action s (ground arith) k
            (rw (same_object q) (cov l))))
    | inr l ↦ inr l
  ],
  All-IsLast a m h s k c,
)
  where
    same_object : conflicts a b ≡ true → a.object ≡ b.object
    same_object q = ground arith

begin-IsCovered :
    (m : Manager) (h : History)
    → IsSound m
    → All (IsCovered m) h
    → All (IsCovered (begin_transaction m).0) h
begin-IsCovered m [] s c = tt
begin-IsCovered m ((b, n) ∷ h) s ((k, le), c) = (
  (
    λ l.
        begin_transaction-Holds m b.action b.tid b.object s
          (k (ground (arith, begin_transaction-live m b.tid))),
    omega (arith, begin_transaction-counter m),
  ),
  begin-IsCovered m h s c,
)

step-IsGuarded :
    (H : Hasher) (s : Manager × History) (c : Call) → IsGuarded s → IsGuarded (step H s c)
unfolding step
step-IsGuarded H (m, h) begin g = record {
  sound = begin_transaction-IsSound m g.sound;
  covered = begin-IsCovered m h g.sound g.covered;
  strict = g.strict;
}
step-IsGuarded H (m, h) (validate row tid c) g =
    granted (validate_object H m row tid c) (validate_object-Validated H m row tid c g.sound)
  where
    hash : ℕ
    hash = generate_row_hash H row

    granted : (r : Manager × Response) → Validated c tid hash m r → IsGuarded (grant tid hash c r h)
    granted (m', r) (a, k) = elim (Bool-cases r.allowed) [
      | inl ok ↦ rw ok (record {
        sound = a.sound;
        covered = (
          (λ l. (k ok).1, omega (arith, g.sound.numbered tid (k ok).0, a.counter)),
          All-Advances m m' h a g.covered,
        );
        strict = (
          All-IsLast (record { tid = tid; object = hash; action = c }) m' h a.sound.consistent
              (k ok).1 (All-Advances m m' h a g.covered),
          g.strict,
        );
      })
      | inr refused ↦
          rw refused (record {
            sound = a.sound;
            covered = All-Advances m m' h a g.covered;
            strict = g.strict;
          })
    ]
step-IsGuarded H (m, h) (end tid) g = record {
  sound = (end_transaction-Advances m tid g.sound).sound;
  covered = All-Advances m _ h (end_transaction-Advances m tid g.sound) g.covered;
  strict = g.strict;
}

run-IsGuarded :
    (H : Hasher) (s : Manager × History) (calls : List Call)
    → IsGuarded s
    → IsGuarded (run H s calls)
unfolding run
run-IsGuarded H s [] g = g
run-IsGuarded H s (c ∷ calls) g = run-IsGuarded H (step H s c) calls (step-IsGuarded H s c g)

reached : (H : Hasher) (calls : List Call) → IsGuarded (run H (init, []) calls)
reached H calls =
    run-IsGuarded H (init, []) calls (record { sound = init-IsSound; covered = tt; strict = tt })

-- After any calls on a new manager: whenever an access was granted, each transaction with an
-- earlier access to the same record that conflicts with it had committed or aborted by then, or is
-- the transaction itself.
pub run-IsStrict : (H : Hasher) (calls : List Call) → IsStrict (run H (init, []) calls).1
run-IsStrict H calls = (reached H calls).strict

-- After any calls on a new manager a record with an exclusive lock has no shared lock, and the
-- records that a transaction lists as locked are those that it has a lock on.
pub run-IsConsistent : (H : Hasher) (calls : List Call) → IsConsistent (run H (init, []) calls).0
run-IsConsistent H calls = (reached H calls).sound.consistent

-- After any calls on a new manager nobody waits for itself, directly or through others, in the
-- wait-for graph.
pub run-not-HasCycle :
    (H : Hasher) (calls : List Call) → ¬ HasCycle (run H (init, []) calls).0.wait_for_graph
run-not-HasCycle H calls = not-HasCycle _ (reached H calls).sound.ending

abbrev pub IsGone : Manager → ℕ → ℕ → Type 0
IsGone m t h =
    (in_set t h m.s_lock_table ≡ false)
    × (is_owner t h m.x_lock_table ≡ false)
    × (in_set t h m.lock_wait_queue ≡ false)
    × (in_set t h m.wait_for_graph ≡ false)
    × (in_set h t m.wait_for_graph ≡ false)

-- After any calls on a new manager a transaction that is not live (it has committed or aborted, or
-- never began) has no lock, stands in no queue, waits for nobody, and nobody waits for it.
pub run-IsGone :
    (H : Hasher) (calls : List Call) (t h : ℕ)
    → live t (run H (init, []) calls).0.transactions ≡ false
    → IsGone (run H (init, []) calls).0 t h
run-IsGone H calls t h dead = gone (reached H calls).sound
  where
    m : Manager
    m = (run H (init, []) calls).0

    unless : (b : Bool) → (b ≡ true → ⊥) → b ≡ false
    unless true f = absurd (f refl)
    unless false f = refl

    gone : IsSound m → IsGone m t h
    gone s = (
      ground (arith, s.consistent.held t h, s.closed t h dead),
      ground (arith, s.consistent.held t h, s.closed t h dead),
      unless (in_set t h m.lock_wait_queue) (λ k. ground (arith, s.queued t h k)),
      unless (in_set t h m.wait_for_graph) (λ k. ground (arith, (s.waiting h t k).1)),
      unless (in_set h t m.wait_for_graph) (λ k. ground (arith, (s.waiting t h k).0)),
    )
