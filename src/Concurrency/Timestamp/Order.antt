-- ===== src/Concurrency/Timestamp/Order.antt =====
-- Runs of `TimestampCCManager`: conflicting accesses are granted in the order of the timestamps.
use tubes_if3140_sistem_basi.Base.{
  ℕ, ◌≤◌, ◌≡◌, refl, List, [], ◌∷◌, some, All, arith, Option-cases, inl, inr, Bool-cases, ltb, ◌||◌,
}
use tubes_if3140_sistem_basi.Base.Key.{nat_key}
use tubes_if3140_sistem_basi.Base.Map.{find, put, find-put}
use tubes_if3140_sistem_basi.Types.{Row, Action, read, write}
use tubes_if3140_sistem_basi.Concurrency.RowHash.{Hasher, generate_row_hash}
use tubes_if3140_sistem_basi.Concurrency.Access.{Access, History}
use tubes_if3140_sistem_basi.Concurrency.Timestamp.{
  Manager, Transaction, ObjectTimestamp, init, begin_transaction, log_object, validate_object,
  order_access, end_transaction, fail, is_failed,
}
use tubes_if3140_sistem_basi.Concurrency.Timestamp.Run.{
  Call, begin, log, validate, end, grant, after_log, step, run, IsOrdered,
}
use tubes_if3140_sistem_basi.Concurrency.Timestamp.Tables.{
  IsCovered, IsStamped, bound, limit, All-IsCovered, put-Grows, put_new-Grows, put-IsStamped,
  erase-IsStamped, after_conflicts,
}

pub record IsSound (s : Manager × History) : Type 0 where
  stamped : IsStamped s.0.transactions
  covered : All (IsCovered s.0.object_timestamps) s.1
  ordered : IsOrdered s.1

begin-IsSound : (m : Manager) (h : History) → IsSound (m, h) → IsSound ((begin_transaction m).0, h)
unfolding begin_transaction
begin-IsSound m h s = record {
  stamped = put-IsStamped _ _ m.transactions refl s.stamped;
  covered = s.covered;
  ordered = s.ordered;
}

log-IsSound :
    (H : Hasher) (m : Manager) (h : History) (row : Row) (tid : ℕ)
    → IsSound (m, h)
    → IsSound (after_log m (log_object H m row tid), h)
unfolding log_object
log-IsSound H m h row tid s = elim (Option-cases (find tid m.transactions)) [
  | inl e ↦ rw (e, log_object) s
  | inr (t, e) ↦ elim (Option-cases (find (generate_row_hash H row) m.object_timestamps)) [
    | inl f ↦
        rw (e, f, log_object)
          (record {
            stamped = s.stamped;
            covered = All-IsCovered _ _ (put_new-Grows _ _ m.object_timestamps f) h s.covered;
            ordered = s.ordered;
          })
    | inr (o, f) ↦ rw (e, f, log_object) s
  ]
]

end-IsSound :
    (m : Manager) (h : History) (tid : ℕ) → IsSound (m, h) → IsSound (end_transaction m tid, h)
unfolding end_transaction
end-IsSound m h tid s = elim (Option-cases (find tid m.transactions)) [
  | inl e ↦ rw (e, end_transaction) s
  | inr (t, e) ↦
      rw (e, end_transaction)
        (record {
          stamped =
              erase-IsStamped tid _
                (put-IsStamped tid _ m.transactions (s.stamped tid t e) s.stamped);
          covered = s.covered;
          ordered = s.ordered;
        })
]

-- A granted access keeps the invariant: its object's new entry covers it and the earlier ones.
grant-IsSound :
    (m : Manager) (h : History) (a : Access) (o o' : ObjectTimestamp)
    → find a.object m.object_timestamps ≡ some o
    → limit a.action o ≤ a.tid
    → o.read_ts ≤ o'.read_ts
    → o.write_ts ≤ o'.write_ts
    → a.tid ≤ bound a.action o'
    → IsSound (m, h)
    → IsSound (record m { object_timestamps = put a.object o' m.object_timestamps }, a ∷ h)
grant-IsSound m h a o o' e l r w b s = record {
  stamped = s.stamped;
  covered = (
    (o', ground (arith, find-put a.object a.object o' m.object_timestamps), b),
    All-IsCovered _ _ (put-Grows a.object o o' m.object_timestamps e r w) h s.covered,
  );
  ordered = (after_conflicts a m.object_timestamps o h e l s.covered, s.ordered);
}

fail-IsSound :
    (m : Manager) (h : History) (tid : ℕ) (t : Transaction)
    → t.timestamp ≡ tid
    → IsSound (m, h)
    → IsSound (fail m tid t, h)
unfolding fail
fail-IsSound m h tid t e s = record {
  stamped = put-IsStamped tid _ m.transactions e s.stamped;
  covered = s.covered;
  ordered = s.ordered;
}

access-IsSound :
    (m : Manager) (h : History) (tid hash : ℕ) (t : Transaction) (o : ObjectTimestamp) (c : Action)
    → t.timestamp ≡ tid
    → find hash m.object_timestamps ≡ some o
    → IsSound (m, h)
    → IsSound (grant tid hash c (order_access m tid t hash o c) h)
unfolding order_access
access-IsSound m h tid hash t o read e f s = elim (Bool-cases (ltb t.timestamp o.write_ts)) [
  | inl late ↦ rw (late) (fail-IsSound m h tid t e s)
  | inr fine ↦ rw (fine) (
      grant-IsSound m h (record { tid = tid; object = hash; action = read }) o _ f (ground arith)
        (omega arith) (omega arith) (omega arith) s)
]
access-IsSound m h tid hash t o write e f s =
    elim (Bool-cases (ltb t.timestamp o.read_ts || ltb t.timestamp o.write_ts)) [
      | inl late ↦ rw (late) (fail-IsSound m h tid t e s)
      | inr fine ↦ rw (fine) (
          grant-IsSound m h (record { tid = tid; object = hash; action = write }) o _ f
            (ground arith) (omega arith) (ground arith) (omega arith) s)
    ]

validate-IsSound :
    (H : Hasher) (m : Manager) (h : History) (row : Row) (tid : ℕ) (c : Action)
    → IsSound (m, h)
    → IsSound (grant tid (generate_row_hash H row) c (validate_object H m row tid c) h)
unfolding validate_object
validate-IsSound H m h row tid c s = elim (Option-cases (find tid m.transactions)) [
  | inl e ↦ rw (e, validate_object) s
  | inr (t, e) ↦ elim (Bool-cases (is_failed t.state)) [
    | inl f ↦ rw (e, f, validate_object) s
    | inr f ↦ elim (Option-cases (find (generate_row_hash H row) m.object_timestamps)) [
      | inl g ↦ rw (e, f, g, validate_object) s
      | inr (o, g) ↦
          rw (e, f, g, validate_object) (access-IsSound m h tid _ t o c (s.stamped tid t e) g s)
    ]
  ]
]

step-IsSound : (H : Hasher) (s : Manager × History) (c : Call) → IsSound s → IsSound (step H s c)
unfolding step
step-IsSound H (m, h) begin s = begin-IsSound m h s
step-IsSound H (m, h) (log row tid) s = log-IsSound H m h row tid s
step-IsSound H (m, h) (validate row tid c) s = validate-IsSound H m h row tid c s
step-IsSound H (m, h) (end tid) s = end-IsSound m h tid s

run-IsSound :
    (H : Hasher) (s : Manager × History) (calls : List Call) → IsSound s → IsSound (run H s calls)
unfolding run
run-IsSound H s [] i = i
run-IsSound H s (c ∷ calls) i = run-IsSound H (step H s c) calls (step-IsSound H s c i)

init-IsSound : IsSound (init, [])
unfolding find
init-IsSound = record { stamped = λ k t e. cc; covered = tt; ordered = tt }

-- After any calls on a new manager, in the history of the allowed accesses each access comes from
-- a transaction that is not older than that of any earlier access to the same object that
-- conflicts with it: conflicts follow the order in which the transactions began.
pub run-IsOrdered : (H : Hasher) (calls : List Call) → IsOrdered (run H (init, []) calls).1
run-IsOrdered H calls = (run-IsSound H (init, []) calls init-IsSound).ordered
