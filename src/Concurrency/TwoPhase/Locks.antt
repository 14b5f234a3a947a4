-- ===== src/Concurrency/TwoPhase/Locks.antt =====
-- `acquire_s_lock` and `acquire_x_lock` keep the invariant, and a lock that they report is held.
use tubes_if3140_sistem_basi.Base.{
  ℕ, ◌≡◌, List, [], ◌∷◌, Bool, true, false, none, some, arith, if◌then◌else◌, ◌==◌, Bool-cases,
  Option-cases, inl, inr,
}
use tubes_if3140_sistem_basi.Base.Key.{nat_key}
use tubes_if3140_sistem_basi.Base.Map.{find}
use tubes_if3140_sistem_basi.Base.Set.{contains}
use tubes_if3140_sistem_basi.Types.{Action, read, write}
use tubes_if3140_sistem_basi.Concurrency.TwoPhase.{Manager, TransactionInfo}
use tubes_if3140_sistem_basi.Concurrency.TwoPhase.Acquire.{
  is_active, front_is_other, enqueue, wait_for, grant_s_lock, acquire_s_lock, grant_x_lock,
  other_holder, acquire_over_shared, acquire_x_lock, acquire_lock, has_locked,
}
use tubes_if3140_sistem_basi.Concurrency.TwoPhase.WaitGraph.{set_at, drop_member}
use tubes_if3140_sistem_basi.Concurrency.TwoPhase.WaitGraph.Sets.{contains-drop_member}
use tubes_if3140_sistem_basi.Concurrency.TwoPhase.Views.{Holders, listed, live, in_set, is_owner}
use tubes_if3140_sistem_basi.Concurrency.TwoPhase.Invariant.{IsSound}
use tubes_if3140_sistem_basi.Concurrency.TwoPhase.Advance.{Advances, Advances-refl}
use tubes_if3140_sistem_basi.Concurrency.TwoPhase.Grant.{
  queue-Advances, wait_for-Advances, grant_s_lock-Advances, grant_x_lock-Advances,
  grant_s_lock-listed, grant_x_lock-owner,
}

-- The lock that an action needs: any lock to read, the exclusive one to write.
abbrev pub Holds : Action → ℕ → ℕ → Manager → Type 0
Holds read tid hash m = listed tid hash m.transactions ≡ true
Holds write tid hash m = is_owner tid hash m.x_lock_table ≡ true

-- The outcome of a request for a lock.
abbrev pub Requested : Action → ℕ → ℕ → Manager → Manager × Bool → Type 0
Requested c tid hash m r = Advances m r.0 × (r.1 ≡ true → Holds c tid hash r.0)

owner_live :
    (m : Manager) (holder hash : ℕ)
    → IsSound m
    → find hash m.x_lock_table ≡ some holder
    → live holder m.transactions ≡ true
owner_live m holder hash s e = elim (Bool-cases (live holder m.transactions)) [
  | inl k ↦ k
  | inr k ↦ absurd (ground (arith, s.closed holder hash k, s.consistent.held holder hash))
]

sharer_live :
    (m : Manager) (holder hash : ℕ)
    → IsSound m
    → in_set holder hash m.s_lock_table ≡ true
    → live holder m.transactions ≡ true
sharer_live m holder hash s e = elim (Bool-cases (live holder m.transactions)) [
  | inl k ↦ k
  | inr k ↦ absurd (ground (arith, s.closed holder hash k, s.consistent.held holder hash))
]

other_holder-contains : (tid h : ℕ) (s : List ℕ) → other_holder tid s ≡ some h → contains h s ≡ true
unfolding other_holder contains
other_holder-contains tid h [] e = cc
other_holder-contains tid h (x ∷ s) e = ground (arith, other_holder-contains tid h s)

other_holder-none :
    (tid u : ℕ) (s : List ℕ) → other_holder tid s ≡ none → contains u s ≡ true → (tid == u) ≡ true
unfolding other_holder contains
other_holder-none tid u [] e k = cc
other_holder-none tid u (x ∷ s) e k = ground (arith, other_holder-none tid u s)

module _ (m : Manager) (s : IsSound m) (tid hash : ℕ) (t : TransactionInfo)
    (e : find tid m.transactions ≡ some t) (l : is_active t.status ≡ true) where
  queued-Requested :
      (c : Action)
      → Requested c tid hash m
          (record m { lock_wait_queue = enqueue hash tid m.lock_wait_queue }, false)
  queued-Requested c =
      (queue-Advances m tid hash m.wait_for_graph s (ground arith) s.ending s.waiting, λ k. cc)

  waiting-Requested :
      (c : Action) (holder : ℕ)
      → live holder m.transactions ≡ true
      → Requested c tid hash m (wait_for tid hash holder m, false)
  waiting-Requested c holder k = (wait_for-Advances m tid hash holder t s e l k, λ j. cc)

  s_granted-Requested :
      find hash m.x_lock_table ≡ none → Requested read tid hash m (grant_s_lock tid hash m, true)
  s_granted-Requested free = (
    grant_s_lock-Advances m s tid hash t e l free,
    λ k. grant_s_lock-listed m s tid hash t e l free,
  )

  unlisted_owner : has_locked tid hash m ≡ false → is_owner tid hash m.x_lock_table ≡ false
  unlisted_owner n = ground (arith, s.consistent.held tid hash)

  acquire_s_lock-Requested : Requested read tid hash m (acquire_s_lock tid hash m)
  unfolding acquire_s_lock
  acquire_s_lock-Requested =
      elim (Bool-cases (front_is_other tid (set_at hash m.lock_wait_queue))) [
        | inl q ↦ rw q (queued-Requested read)
        | inr q ↦ elim (Bool-cases (has_locked tid hash m)) [
          | inl k ↦ rw (q, k) (Advances-refl m s, λ j. k)
          | inr k ↦ elim (Option-cases (find hash m.x_lock_table)) [
            | inl f ↦ rw (q, k, f) (s_granted-Requested f)
            | inr (holder, f) ↦ elim (Bool-cases (holder == tid)) [
              | inl own ↦ absurd (ground (arith, unlisted_owner k))
              | inr other ↦
                  rw (q, k, f, other) (waiting-Requested read holder (owner_live m holder hash s f))
            ]
          ]
        ]
      ]

  x_granted-Requested :
      (ss : Holders)
      → find hash m.x_lock_table ≡ none
      → ((u h : ℕ) → in_set u h ss ≡ (if hash == h then false else in_set u h m.s_lock_table))
      → ((u : ℕ) → in_set u hash m.s_lock_table ≡ true → (tid == u) ≡ true)
      → Requested write tid hash m (grant_x_lock tid hash (record m { s_lock_table = ss }), true)
  x_granted-Requested ss free gone own = (
    grant_x_lock-Advances m s tid hash t e l free ss gone own,
    λ k. grant_x_lock-owner m s tid hash t e l free ss,
  )

  over_shared-Requested :
      find hash m.x_lock_table ≡ none → Requested write tid hash m (acquire_over_shared tid hash m)
  unfolding acquire_over_shared contains
  over_shared-Requested free = elim (Option-cases (find hash m.s_lock_table)) [
    | inl f ↦
        rw (f, acquire_over_shared)
          (x_granted-Requested m.s_lock_table free (λ u h. ground arith) (λ u k. ground arith))
    | inr (holders, f) ↦ elim (Option-cases (other_holder tid holders)) [
      | inl o ↦
          rw (f, o, acquire_over_shared)
            (x_granted-Requested (drop_member hash tid m.s_lock_table) free
              (λ u h. ground (
                arith,
                contains-drop_member hash tid h u m.s_lock_table,
                other_holder-none tid u holders o,
              ))
              (λ u k. other_holder-none tid u holders o (ground arith)))
      | inr (holder, o) ↦
          rw (f, o, acquire_over_shared)
            (waiting-Requested write holder (
              sharer_live m holder hash s
                (ground (arith, other_holder-contains tid holder holders o))))
    ]
  ]

  acquire_x_lock-Requested : Requested write tid hash m (acquire_x_lock tid hash m)
  unfolding acquire_x_lock
  acquire_x_lock-Requested =
      elim (Bool-cases (front_is_other tid (set_at hash m.lock_wait_queue))) [
        | inl q ↦ rw q (queued-Requested write)
        | inr q ↦ elim (Option-cases (find hash m.x_lock_table)) [
          | inl f ↦ rw (q, f) (over_shared-Requested f)
          | inr (holder, f) ↦ elim (Bool-cases (holder == tid)) [
            | inl own ↦ rw (q, f, own) (Advances-refl m s, λ j. ground arith)
            | inr other ↦
                rw (q, f, other) (waiting-Requested write holder (owner_live m holder hash s f))
          ]
        ]
      ]

  -- A request of a live transaction keeps the invariant, and if it is granted the lock is held.
  pub acquire_lock-Requested : (c : Action) → Requested c tid hash m (acquire_lock c tid hash m)
  acquire_lock-Requested read = acquire_s_lock-Requested
  acquire_lock-Requested write = acquire_x_lock-Requested
