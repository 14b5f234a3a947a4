-- ===== src/Concurrency/TwoPhase/Run.antt =====
-- Runs of `TwoPhaseLockingCCManager`, and the invariant at each of its states.
use tubes_if3140_sistem_basi.Base.{
  ℕ, ◌+◌, ◌≡◌, refl, List, [], ◌∷◌, Bool, true, arith, if◌then◌else◌, ◌==◌, Bool-cases,
  Option-cases, inl, inr, ◌∙◌,
}
use mathlib.Core.WellFounded.{Acc}
use tubes_if3140_sistem_basi.Base.Key.{nat_key}
use tubes_if3140_sistem_basi.Base.Map.{find}
use tubes_if3140_sistem_basi.Base.Set.{contains}
use tubes_if3140_sistem_basi.Types.{Row, Action, read, write, Response, active}
use tubes_if3140_sistem_basi.Concurrency.RowHash.{Hasher, generate_row_hash}
use tubes_if3140_sistem_basi.Concurrency.Access.{Access}
use tubes_if3140_sistem_basi.Concurrency.TwoPhase.{
  Manager, TransactionInfo, init, growing, begin_transaction, end_transaction,
}
use tubes_if3140_sistem_basi.Concurrency.TwoPhase.Acquire.{
  validate_object, is_active, is_shrinking, answer,
}
use tubes_if3140_sistem_basi.Concurrency.TwoPhase.Views.{
  listed, live, listed-put, live-put, shrinks-put,
}
use tubes_if3140_sistem_basi.Concurrency.TwoPhase.Invariant.{IsSound}
use tubes_if3140_sistem_basi.Concurrency.TwoPhase.Advance.{Advances, Advances-refl}
use tubes_if3140_sistem_basi.Concurrency.TwoPhase.Locks.{Holds, Requested, acquire_lock-Requested}

pub data Call : Type 0 where
  begin : Call
  validate : Row → ℕ → Action → Call
  end : ℕ → Call

-- The granted accesses, the latest first, each with the state in which it was granted.
abbrev pub History : Type 0
History = List (Access × Manager)

abbrev pub grant : ℕ → ℕ → Action → Manager × Response → History → Manager × History
grant tid hash action (m, r) h =
    (m, if r.allowed then (record { tid = tid; object = hash; action = action }, m) ∷ h else h)

unfoldable pub step : Hasher → Manager × History → Call → Manager × History
step H (m, h) begin = ((begin_transaction m).0, h)
step H (m, h) (validate row tid action) =
    grant tid (generate_row_hash H row) action (validate_object H m row tid action) h
step H (m, h) (end tid) = (end_transaction m tid, h)

unfoldable pub run : Hasher → Manager × History → List Call → Manager × History
run H s [] = s
run H s (c ∷ calls) = run H (step H s c) calls

begun : Manager → TransactionInfo
begun m = record {
  id = m.current_transaction_id + 1;
  status = active;
  phase = growing;
  locked_records = [];
}

pub begin_transaction-live :
    (m : Manager) (t : ℕ)
    → live t (begin_transaction m).0.transactions
      ≡ (if m.current_transaction_id + 1 == t then true else live t m.transactions)
unfolding begin_transaction begun
begin_transaction-live m t =
    ground (arith, live-put (m.current_transaction_id + 1) t (begun m) m.transactions)

-- A number that was not given out is not live, so its transaction holds nothing.
begin_transaction-listed :
    (m : Manager)
    → IsSound m
    → (t h : ℕ) → listed t h (begin_transaction m).0.transactions ≡ listed t h m.transactions
unfolding begin_transaction begun contains
begin_transaction-listed m s t h = ground (
  arith,
  listed-put (m.current_transaction_id + 1) t h (begun m) m.transactions,
  s.numbered t,
  s.closed t h,
)

pub begin_transaction-IsSound : (m : Manager) → IsSound m → IsSound (begin_transaction m).0
unfolding begin_transaction begun
begin_transaction-IsSound m s = record {
  consistent = record {
    held = λ t h. begin_transaction-listed m s t h ∙ s.consistent.held t h;
    exclusive = s.consistent.exclusive;
  };
  closed = λ t h k.
      ground (arith, begin_transaction-live m t, begin_transaction-listed m s t h, s.closed t h);
  phased = λ t k. ground (
    arith,
    begin_transaction-live m t,
    shrinks-put (m.current_transaction_id + 1) t (begun m) m.transactions,
    s.phased t,
  );
  numbered = λ t k. ground (arith, begin_transaction-live m t, s.numbered t);
  ending = s.ending;
  queued = λ t h k. ground (arith, begin_transaction-live m t, s.queued t h);
  waiting = λ a b w.
      let (p, q) = s.waiting a b w in
      (ground (arith, begin_transaction-live m a), ground (arith, begin_transaction-live m b));
}

pub begin_transaction-Holds :
    (m : Manager) (d : Action) (t h : ℕ)
    → IsSound m
    → Holds d t h m
    → Holds d t h (begin_transaction m).0
unfolding begin_transaction
begin_transaction-Holds m read t h s k = begin_transaction-listed m s t h ∙ k
begin_transaction-Holds m write t h s k = k

pub begin_transaction-counter :
    (m : Manager) → (begin_transaction m).0.current_transaction_id ≡ m.current_transaction_id + 1
unfolding begin_transaction
begin_transaction-counter m = refl

-- What a call of `validate_object` gives.
abbrev pub Validated : Action → ℕ → ℕ → Manager → Manager × Response → Type 0
Validated c tid hash m r =
    Advances m r.0 × (r.1.allowed ≡ true → (live tid m.transactions ≡ true) × Holds c tid hash r.0)

answered :
    (c : Action) (tid hash : ℕ) (m : Manager) (r : Manager × Bool)
    → live tid m.transactions ≡ true
    → Requested c tid hash m r
    → Validated c tid hash m (answer tid r)
answered c tid hash m (m', ok) l (a, h) = (a, λ k. (l, h k))

pub validate_object-Validated :
    (H : Hasher) (m : Manager) (row : Row) (tid : ℕ) (c : Action)
    → IsSound m
    → Validated c tid (generate_row_hash H row) m (validate_object H m row tid c)
unfolding validate_object
validate_object-Validated H m row tid c s = elim (Option-cases (find tid m.transactions)) [
  | inl e ↦ rw (e, validate_object) (Advances-refl m s, λ k. cc)
  | inr (t, e) ↦ elim (Bool-cases (is_active t.status)) [
    | inl l ↦ elim (Bool-cases (is_shrinking t.phase)) [
      | inl p ↦ absurd (ground (arith, s.phased tid))
      | inr p ↦
          rw (e, l, p, validate_object)
            (answered c tid (generate_row_hash H row) m _ (ground arith)
              (acquire_lock-Requested m s tid (generate_row_hash H row) t e l c))
    ]
    | inr l ↦ rw (e, l, validate_object) (Advances-refl m s, λ k. cc)
  ]
]

pub init-IsSound : IsSound init
unfolding find contains
init-IsSound = record {
  consistent = record { held = λ t h. refl; exclusive = λ t u h k. refl };
  closed = λ t h k. refl;
  phased = λ t k. refl;
  numbered = λ t k. cc;
  ending = λ a. Acc.intro a (λ b w. cc);
  queued = λ t h k. cc;
  waiting = λ a b w. cc;
}
