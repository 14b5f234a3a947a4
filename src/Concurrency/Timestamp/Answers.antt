-- ===== src/Concurrency/Timestamp/Answers.antt =====
-- What `TimestampCCManager::validate_object` answers, and what a refusal leaves behind.
use tubes_if3140_sistem_basi.Base.{
  ℕ, ◌≤◌, ◌<◌, ◌≡◌, refl, ◌↔◌, Bool, true, false, some, arith, Option-cases, inl, inr, Bool-cases,
  List, [], ◌∷◌, map,
}
use tubes_if3140_sistem_basi.Base.Key.{nat_key}
use tubes_if3140_sistem_basi.Base.Map.{find, put, find-put}
use tubes_if3140_sistem_basi.Types.{Row, Action, read, write, failed}
use tubes_if3140_sistem_basi.Concurrency.RowHash.{Hasher, generate_row_hash}
use tubes_if3140_sistem_basi.Concurrency.Timestamp.Tables.{limit}
use tubes_if3140_sistem_basi.Concurrency.Timestamp.{
  Manager, Transaction, ObjectTimestamp, validate_object, order_access, fail, is_failed,
  get_transaction_status,
}

order_access-allowed :
    (m : Manager) (tid hash : ℕ) (t : Transaction) (o : ObjectTimestamp) (c : Action)
    → ((order_access m tid t hash o c).1.allowed ≡ true) ↔ (limit c o ≤ t.timestamp)
unfolding order_access
order_access-allowed m tid hash t o read = ground arith
order_access-allowed m tid hash t o write = ground arith

order_access-late :
    (m : Manager) (tid hash : ℕ) (t : Transaction) (o : ObjectTimestamp) (c : Action)
    → t.timestamp < limit c o
    → (order_access m tid t hash o c).0 ≡ fail m tid t
unfolding order_access
order_access-late m tid hash t o read l = ground arith
order_access-late m tid hash t o write l = ground arith

-- What a grant needs: a transaction that is known and not failed, an object that was logged, and
-- a timestamp that no conflicting access of the object exceeds.
abbrev pub MayAccess : Hasher → Manager → Row → ℕ → Action → Type 0
MayAccess H m row tid c =
    (t : Transaction) × (find tid m.transactions ≡ some t)
    × (is_failed t.state ≡ false)
    × (o : ObjectTimestamp) × (find (generate_row_hash H row) m.object_timestamps ≡ some o)
    × (limit c o ≤ t.timestamp)

-- `validate_object` allows an access exactly when the transaction is in the table and not
-- `FAILED`, the object has been logged, and the transaction's timestamp is not below the write
-- timestamp of the object nor, for a write, below its read timestamp.
pub validate_object-allowed_iff :
    (H : Hasher) (m : Manager) (row : Row) (tid : ℕ) (c : Action)
    → ((validate_object H m row tid c).1.allowed ≡ true) ↔ MayAccess H m row tid c
unfolding validate_object
validate_object-allowed_iff H m row tid c = elim (Option-cases (find tid m.transactions)) [
  | inl e ↦ rw (e, validate_object) (ground arith)
  | inr (t, e) ↦ elim (Bool-cases (is_failed t.state)) [
    | inl f ↦ rw (e, f, validate_object) (ground arith)
    | inr f ↦ elim (Option-cases (find (generate_row_hash H row) m.object_timestamps)) [
      | inl g ↦ rw (e, f, g, validate_object) (ground arith)
      | inr (o, g) ↦
          rw (e, f, g, validate_object)
            ((
              λ h. (t, refl, f, o, refl, (order_access-allowed m tid _ t o c).0 h),
              λ (u, p, q, v, r, l). (order_access-allowed m tid _ t o c).1 (ground arith),
            ))
    ]
  ]
]

validate_object-fail :
    (H : Hasher) (m : Manager) (row : Row) (tid : ℕ) (c : Action) (t : Transaction)
    (o : ObjectTimestamp)
    → find tid m.transactions ≡ some t
    → is_failed t.state ≡ false
    → find (generate_row_hash H row) m.object_timestamps ≡ some o
    → t.timestamp < limit c o
    → (validate_object H m row tid c).0 ≡ fail m tid t
unfolding validate_object
validate_object-fail H m row tid c t o e f g l =
    rw (e, f, g, validate_object) (order_access-late m tid (generate_row_hash H row) t o c l)

-- Accesses of one transaction, one after the other, and their answers.
abbrev pub access_all : Hasher → Manager → ℕ → List (Row × Action) → Manager × List Bool
access_all H m tid [] = (m, [])
access_all H m tid ((row, c) ∷ accesses) =
    let answer = validate_object H m row tid c in
    let later = access_all H answer.0 tid accesses in (later.0, answer.1.allowed ∷ later.1)

validate_object-refused :
    (H : Hasher) (m : Manager) (row : Row) (tid : ℕ) (c : Action) (t : Transaction)
    → validate_object H (fail m tid t) row tid c
      ≡ (fail m tid t, record { allowed = false; transaction_id = tid })
unfolding validate_object fail
validate_object-refused H m row tid c t = rw (known, validate_object) refl
  where
    known :
        find tid (put tid (record t { state = failed }) m.transactions)
        ≡ some (record t { state = failed })
    known = ground (arith, find-put tid tid (record t { state = failed }) m.transactions)

-- Once a transaction has failed, each of its accesses is refused and changes nothing.
access_all-fail :
    (H : Hasher) (m : Manager) (tid : ℕ) (t : Transaction) (accesses : List (Row × Action))
    → access_all H (fail m tid t) tid accesses ≡ (fail m tid t, map (λ a. false) accesses)
access_all-fail H m tid t [] = refl
access_all-fail H m tid t ((row, c) ∷ accesses) =
    rw (validate_object-refused H m row tid c t) (rw (access_all-fail H m tid t accesses) refl)

fail_lem :
    (m : Manager) (tid : ℕ) (t : Transaction)
    → (get_transaction_status (fail m tid t) tid ≡ failed)
      × ((fail m tid t).object_timestamps ≡ m.object_timestamps)
unfolding get_transaction_status fail
fail_lem m tid t =
    (ground (arith, find-put tid tid (record t { state = failed }) m.transactions), refl)

-- A known transaction that has not failed and comes too late for a logged object is marked
-- `FAILED`, and the object timestamps stay as they were. However many accesses the transaction asks
-- for next, to whatever objects, each is refused and the manager stays as the late access left it.
pub validate_object-late :
    (H : Hasher) (m : Manager) (row : Row) (tid : ℕ) (c : Action) (t : Transaction)
    (o : ObjectTimestamp) (accesses : List (Row × Action))
    → find tid m.transactions ≡ some t
    → is_failed t.state ≡ false
    → find (generate_row_hash H row) m.object_timestamps ≡ some o
    → t.timestamp < limit c o
    → (get_transaction_status (validate_object H m row tid c).0 tid ≡ failed)
      × ((validate_object H m row tid c).0.object_timestamps ≡ m.object_timestamps)
      × (access_all H (validate_object H m row tid c).0 tid accesses
          ≡ ((validate_object H m row tid c).0, map (λ a. false) accesses))
validate_object-late H m row tid c t o accesses e f g l =
    rw (validate_object-fail H m row tid c t o e f g l)
      ((fail_lem m tid t).0, (fail_lem m tid t).1, access_all-fail H m tid t accesses)
