-- ===== src/Concurrency/TwoPhase/Views.antt =====
-- What is read of the tables of `TwoPhaseLockingCCManager`, and how each write changes it.
use tubes_if3140_sistem_basi.Base.{
  ℕ, ◌≡◌, refl, List, [], ◌∷◌, Bool, false, ◌&&◌, none, some, arith, if◌then◌else◌, ◌==◌,
  Bool-cases, Option-cases, inl, inr, is_some,
}
use tubes_if3140_sistem_basi.Base.Key.{nat_key}
use tubes_if3140_sistem_basi.Base.Map.{Map, find, put, find-put}
use tubes_if3140_sistem_basi.Base.Set.{contains, contains-insert, contains-erase}
use tubes_if3140_sistem_basi.Concurrency.TwoPhase.{
  TransactionInfo, change_info, lock_record, unlock_record, forget_at, forget, keys,
}
use tubes_if3140_sistem_basi.Concurrency.TwoPhase.Acquire.{is_active, is_shrinking}
use tubes_if3140_sistem_basi.Concurrency.TwoPhase.WaitGraph.{set_at, drop_member}
use tubes_if3140_sistem_basi.Concurrency.TwoPhase.WaitGraph.Sets.{contains-drop_member}

abbrev pub Infos : Type 0
Infos = Map ℕ TransactionInfo

abbrev pub Holders : Type 0
Holders = Map ℕ (List ℕ)

-- The record is among the `locked_records` of the transaction.
abbrev pub listed : ℕ → ℕ → Infos → Bool
listed tid hash ts = elim (find tid ts) [ none ↦ false | some t ↦ contains hash t.locked_records ]

-- The transaction is known and neither committed nor aborted nor failed.
abbrev pub live : ℕ → Infos → Bool
live tid ts = elim (find tid ts) [ none ↦ false | some t ↦ is_active t.status ]

abbrev pub shrinks : ℕ → Infos → Bool
shrinks tid ts = elim (find tid ts) [ none ↦ false | some t ↦ is_shrinking t.phase ]

abbrev pub in_set : ℕ → ℕ → Holders → Bool
in_set tid hash m = contains tid (set_at hash m)

abbrev pub is_owner : ℕ → ℕ → Map ℕ ℕ → Bool
is_owner tid hash m = elim (find hash m) [ none ↦ false | some t ↦ t == tid ]

find-change_info :
    (k j : ℕ) (f : TransactionInfo → TransactionInfo) (ts : Infos)
    → find j (change_info k f ts)
      ≡ (if k == j then elim (find j ts) [ none ↦ none | some t ↦ some (f t) ] else find j ts)
unfolding change_info
find-change_info k j f ts = elim (Option-cases (find k ts)) [
  | inl e ↦ elim (Bool-cases (k == j)) [ inl same ↦ ground (arith) | inr other ↦ ground arith ]
  | inr (t, e) ↦ ground (arith, find-put k j (f t) ts)
]

pub listed-unlock :
    (k j hash h : ℕ) (ts : Infos)
    → listed j h (change_info k (unlock_record hash) ts)
      ≡ (if k == j && hash == h then false else listed j h ts)
listed-unlock k j hash h ts = elim (Option-cases (find j ts)) [
  | inl e ↦ ground (arith, find-change_info k j (unlock_record hash) ts)
  | inr (t, e) ↦
      ground (
        arith,
        find-change_info k j (unlock_record hash) ts,
        contains-erase hash h t.locked_records,
      )
]

pub listed-lock :
    (k j hash h : ℕ) (ts : Infos)
    → listed j h (change_info k (lock_record hash) ts)
      ≡ (if k == j && hash == h then is_some (find k ts) else listed j h ts)
listed-lock k j hash h ts = elim (Option-cases (find j ts)) [
  | inl e ↦ ground (arith, find-change_info k j (lock_record hash) ts)
  | inr (t, e) ↦
      ground
        (arith, find-change_info k j (lock_record hash) ts, contains-insert hash h t.locked_records)
]

pub live-unlock :
    (k j hash : ℕ) (ts : Infos) → live j (change_info k (unlock_record hash) ts) ≡ live j ts
live-unlock k j hash ts = ground (arith, find-change_info k j (unlock_record hash) ts)

pub shrinks-unlock :
    (k j hash : ℕ) (ts : Infos) → shrinks j (change_info k (unlock_record hash) ts) ≡ shrinks j ts
shrinks-unlock k j hash ts = ground (arith, find-change_info k j (unlock_record hash) ts)

pub live-lock :
    (k j hash : ℕ) (ts : Infos) → live j (change_info k (lock_record hash) ts) ≡ live j ts
live-lock k j hash ts = ground (arith, find-change_info k j (lock_record hash) ts)

pub shrinks-lock :
    (k j hash : ℕ) (ts : Infos) → shrinks j (change_info k (lock_record hash) ts) ≡ shrinks j ts
shrinks-lock k j hash ts = ground (arith, find-change_info k j (lock_record hash) ts)

find_unkeyed : (j : ℕ) (m : Holders) → contains j (keys m) ≡ false → set_at j m ≡ []
unfolding find contains
find_unkeyed j [] h = refl
find_unkeyed j ((k, s) ∷ m) h = ground (arith, find_unkeyed j m)

in_set-forget_at :
    (tid x j : ℕ) (ks : List ℕ) (m : Holders)
    → in_set x j (forget_at tid ks m) ≡ (if tid == x && contains j ks then false else in_set x j m)
unfolding forget_at contains
in_set-forget_at tid x j [] m = ground arith
in_set-forget_at tid x j (k ∷ ks) m =
    ground
      (arith, in_set-forget_at tid x j ks (drop_member k tid m), contains-drop_member k tid j x m)

-- Only the transaction leaves, and it leaves every set.
pub in_set-forget :
    (tid x j : ℕ) (m : Holders)
    → in_set x j (forget tid m) ≡ (if tid == x then false else in_set x j m)
unfolding contains
in_set-forget tid x j m = elim (Bool-cases (contains j (keys m))) [
  | inl e ↦ ground (arith, in_set-forget_at tid x j (keys m) m)
  | inr e ↦ rw (in_set-forget_at tid x j (keys m) m, e, find_unkeyed j m e) (ground arith)
]

pub listed-put :
    (k j h : ℕ) (t : TransactionInfo) (ts : Infos)
    → listed j h (put k t ts) ≡ (if k == j then contains h t.locked_records else listed j h ts)
listed-put k j h t ts = ground (arith, find-put k j t ts)

pub live-put :
    (k j : ℕ) (t : TransactionInfo) (ts : Infos)
    → live j (put k t ts) ≡ (if k == j then is_active t.status else live j ts)
live-put k j t ts = ground (arith, find-put k j t ts)

pub shrinks-put :
    (k j : ℕ) (t : TransactionInfo) (ts : Infos)
    → shrinks j (put k t ts) ≡ (if k == j then is_shrinking t.phase else shrinks j ts)
shrinks-put k j t ts = ground (arith, find-put k j t ts)
