-- ===== src/Concurrency/Timestamp/Tables.antt =====
-- The two tables of `TimestampCCManager`: what a write of an entry keeps.
use tubes_if3140_sistem_basi.Base.{
  ℕ, ◌≤◌, ◌≡◌, [], ◌∷◌, true, none, some, All, max, arith, inl, inr, ◌==◌, Bool-cases, subst,
}
use tubes_if3140_sistem_basi.Base.Key.{nat_key}
use tubes_if3140_sistem_basi.Base.Map.{Map, find, put, erase, find-put, find-erase}
use tubes_if3140_sistem_basi.Types.{Action, read, write}
use tubes_if3140_sistem_basi.Concurrency.Access.{Access, History, clash, conflicts}
use tubes_if3140_sistem_basi.Concurrency.Timestamp.{Transaction, ObjectTimestamp}

abbrev pub bound : Action → ObjectTimestamp → ℕ
bound read o = o.read_ts
bound write o = o.write_ts

abbrev pub Objects : Type 0
Objects = Map ℕ ObjectTimestamp

abbrev pub IsCovered : Objects → Access → Type 0
IsCovered os a = (o : ObjectTimestamp) × (find a.object os ≡ some o) × (a.tid ≤ bound a.action o)

-- No timestamp of an object goes back.
abbrev pub Grows : Objects → Objects → Type 0
Grows os os' =
    (k : ℕ) (o : ObjectTimestamp)
    → find k os ≡ some o
    → (o' : ObjectTimestamp) × (find k os' ≡ some o')
      × (o.read_ts ≤ o'.read_ts)
      × (o.write_ts ≤ o'.write_ts)

pub bound-le :
    (c : Action) (o o' : ObjectTimestamp)
    → o.read_ts ≤ o'.read_ts
    → o.write_ts ≤ o'.write_ts
    → bound c o ≤ bound c o'
bound-le read o o' r w = r
bound-le write o o' r w = w

pub All-IsCovered :
    (os os' : Objects) → Grows os os' → (h : History) → All (IsCovered os) h → All (IsCovered os') h
All-IsCovered os os' g [] c = tt
All-IsCovered os os' g (a ∷ h) ((o, e, l), cs) =
    let (o', e', r, w) = g a.object o e in
    ((o', e', omega (arith, bound-le a.action o o' r w)), All-IsCovered os os' g h cs)

pub put-Grows :
    (k : ℕ) (o o' : ObjectTimestamp) (os : Objects)
    → find k os ≡ some o
    → o.read_ts ≤ o'.read_ts
    → o.write_ts ≤ o'.write_ts
    → Grows os (put k o' os)
put-Grows k o o' os e r w j p q = elim (Bool-cases (k == j)) [
  | inl same ↦ (o', ground (arith, find-put k j o' os), ground arith, ground arith)
  | inr other ↦ (p, ground (arith, find-put k j o' os), ground arith, ground arith)
]

pub put_new-Grows :
    (k : ℕ) (o : ObjectTimestamp) (os : Objects) → find k os ≡ none → Grows os (put k o os)
put_new-Grows k o os e j p q = (p, ground (arith, find-put k j o os), ground arith, ground arith)

pub Grows-refl : (os : Objects) → Grows os os
Grows-refl os j p q = (p, q, omega arith, omega arith)

abbrev pub IsStamped : Map ℕ Transaction → Type 0
IsStamped ts = (k : ℕ) (t : Transaction) → find k ts ≡ some t → t.timestamp ≡ k

pub put-IsStamped :
    (k : ℕ) (t : Transaction) (ts : Map ℕ Transaction)
    → t.timestamp ≡ k
    → IsStamped ts
    → IsStamped (put k t ts)
put-IsStamped k t ts e st j u q = ground (arith, find-put k j t ts, st j u)

pub erase-IsStamped : (k : ℕ) (ts : Map ℕ Transaction) → IsStamped ts → IsStamped (erase k ts)
erase-IsStamped k ts st j u q = ground (arith, find-erase k j ts, st j u)

abbrev pub limit : Action → ObjectTimestamp → ℕ
limit read o = o.write_ts
limit write o = max o.read_ts o.write_ts

pub clash-limit :
    (c d : Action) (o : ObjectTimestamp) (k n : ℕ)
    → clash c d ≡ true
    → limit c o ≤ n
    → k ≤ bound d o
    → k ≤ n
clash-limit read read o k n q l m = cc
clash-limit read write o k n q l m = omega arith
clash-limit write read o k n q l m = omega arith
clash-limit write write o k n q l m = omega arith

-- An access within the limit of its object comes after all that it conflicts with.
pub after_conflicts :
    (a : Access) (os : Objects) (o : ObjectTimestamp) (h : History)
    → find a.object os ≡ some o
    → limit a.action o ≤ a.tid
    → All (IsCovered os) h
    → All (λ b. conflicts a b ≡ true → b.tid ≤ a.tid) h
after_conflicts a os o [] e l c = tt
after_conflicts a os o (b ∷ h) e l ((p, f, m), cs) = (
  λ q.
      clash-limit a.action b.action o b.tid a.tid (ground arith) l
        (subst (λ x. b.tid ≤ bound b.action x) (same q) m),
  after_conflicts a os o h e l cs,
)
  where
    same : conflicts a b ≡ true → p ≡ o
    same q = ground arith
