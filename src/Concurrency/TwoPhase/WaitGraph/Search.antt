-- ===== src/Concurrency/TwoPhase/WaitGraph/Search.antt =====
-- What `check_cycle` finds: a cycle where it answers true, and none below it where it answers false.
use mathlib.Core.WellFounded.{Acc}
use tubes_if3140_sistem_basi.Base.{
  ℕ, zero, suc, ◌+◌, ◌<◌, ◌≡◌, refl, List, [], ◌∷◌, Bool, true, false, Option, none, some, arith,
  length, inl, inr, Bool-cases, Option-cases, ◌==◌, All, ==_iff, subst, ◌∙◌, ap,
}
use tubes_if3140_sistem_basi.Base.Key.{nat_key}
use tubes_if3140_sistem_basi.Base.Map.{find}
use tubes_if3140_sistem_basi.Base.Set.{
  contains, insert, erase, contains-insert, contains-erase, erase-insert, erase_absent,
}
use tubes_if3140_sistem_basi.Concurrency.TwoPhase.WaitGraph.{
  Graph, set_at, Marks, check_neighbors, leave, check_cycle, resume,
}
use tubes_if3140_sistem_basi.Concurrency.TwoPhase.WaitGraph.Fuel.{
  unvisited, Includes, unvisited_mono, insert-Includes, unvisited-insert-lt, unvisited-le-length,
}

-- `a` waits for `b`.
abbrev pub Waits : Graph → ℕ → ℕ → Type 0
Waits g a b = contains b (set_at a g) ≡ true

-- `a` waits for `b`, through others, in some number of steps; none if they are one.
pub data Chain (g : Graph) (b : ℕ) : ℕ → Type 0 where
  stop : Chain g b b
  step : {a c : ℕ} → Waits g a c → Chain g b c → Chain g b a

pub Chain-snoc : {g : Graph} {b : ℕ} (c : ℕ) {a : ℕ} → Chain g b a → Waits g b c → Chain g c a
Chain-snoc c stop w = step w stop
Chain-snoc c (step v p) w = step v (Chain-snoc c p w)

-- No chain of waits from `a` goes on for ever.
abbrev pub Ends : Graph → ℕ → Type 0
Ends g a = Acc (λ c b. Waits g b c) a

-- Somebody waits for itself, through others.
abbrev pub HasCycle : Graph → Type 0
HasCycle g = (a c : ℕ) × Waits g a c × Chain g a c

abbrev pub IsDone : Graph → Marks → Type 0
IsDone g m = (x : ℕ) → contains x m.visited ≡ true → contains x m.rec_stack ≡ false → Ends g x

abbrev IsStack : Graph → ℕ → Marks → Type 0
IsStack g a m = (x : ℕ) → contains x m.rec_stack ≡ true → Chain g a x

abbrev pub Kept : Graph → Marks → Marks → Type 0
Kept g m m' = (m'.rec_stack ≡ m.rec_stack) × Includes m.visited m'.visited × IsDone g m'

-- What a search that starts from `m` may return, where `P` holds if it finds no cycle.
abbrev pub Outcome : Graph → Type 0 → Marks → Option (Bool × Marks) → Type 0
Outcome g P m none = ⊥
Outcome g P m (some (true, m')) = HasCycle g
Outcome g P m (some (false, m')) = Kept g m m' × P

abbrev Searches : Graph → (ℕ → Marks → Option (Bool × Marks)) → ℕ → Type 0
Searches g visit fuel =
    (n : ℕ) (m : Marks)
    → IsDone g m
    → IsStack g n m
    → contains n m.visited ≡ false
    → contains n m.rec_stack ≡ false
    → unvisited g m.visited < fuel
    → Outcome g (Ends g n) m (visit n m)

Outcome-trans :
    {P Q : Type 0} (g : Graph) (m m' : Marks) (r : Option (Bool × Marks))
    → Kept g m m'
    → (P → Q)
    → Outcome g P m' r
    → Outcome g Q m r
Outcome-trans g m m' none k f o = o
Outcome-trans g m m' (some (true, m'')) k f o = o
Outcome-trans g m m' (some (false, m'')) (e, i, d) f ((e', i', d'), p) =
    ((e' ∙ e, λ x h. i' x (i x h), d'), f p)

Ends-All : (g : Graph) (ns : List ℕ) → All (Ends g) ns → (n : ℕ) → contains n ns ≡ true → Ends g n
unfolding contains
Ends-All g [] e n h = cc
Ends-All g (x ∷ ns) (e, es) n h = elim (Bool-cases (x == n)) [
  | inl same ↦ subst (Ends g) ((==_iff x n).0 same) e
  | inr other ↦ Ends-All g ns es n (ground arith)
]

-- The loop over neighbours `ns` of `current`, once the calls for them meet their description.
abbrev Loops : Graph → (ℕ → Marks → Option (Bool × Marks)) → ℕ → ℕ → List ℕ → Type 0
Loops g visit fuel current ns =
    (m : Marks)
    → All (Waits g current) ns
    → IsDone g m
    → IsStack g current m
    → ((n : ℕ) → Waits g current n → unvisited g m.visited < fuel)
    → Outcome g (All (Ends g) ns) m (check_neighbors visit ns m)

module _ (g : Graph) (visit : ℕ → Marks → Option (Bool × Marks)) (fuel current : ℕ) where
  resume-Outcome :
      (n : ℕ) (ns : List ℕ) (m : Marks) (r : Option (Bool × Marks))
      → All (Waits g current) ns
      → IsStack g current m
      → ((n : ℕ) → Waits g current n → unvisited g m.visited < fuel)
      → Loops g visit fuel current ns
      → Outcome g (Ends g n) m r
      → Outcome g (All (Ends g) (n ∷ ns)) m (resume (check_neighbors visit ns) r)
  resume-Outcome n ns m none ws st lt loop o = o
  resume-Outcome n ns m (some (true, m')) ws st lt loop o = o
  resume-Outcome n ns m (some (false, m')) ws st lt loop ((e, i, d), p) =
      Outcome-trans g m m' (check_neighbors visit ns m') (e, i, d) (λ ps. (p, ps))
        (loop m' ws d (λ x h. st x (rw (← e) h))
          (λ k w. omega (arith, lt k w, unvisited_mono g m.visited m'.visited i)))

  check_neighbors-Outcome : Searches g visit fuel → (ns : List ℕ) → Loops g visit fuel current ns
  unfolding check_neighbors
  check_neighbors-Outcome ih [] m ws d st lt = ((refl, (λ x h. h), d), tt)
  check_neighbors-Outcome ih (n ∷ ns) m (w, ws) d st lt =
      elim (Bool-cases (contains n m.rec_stack)) [
        | inl back ↦ rw back (current, n, w, st n back)
        | inr new ↦ elim (Bool-cases (contains n m.visited)) [
          | inl seen ↦
              rw (new, seen)
                (Outcome-trans g m m (check_neighbors visit ns m) (refl, (λ x h. h), d)
                  (λ ps. (d n seen new, ps)) (check_neighbors-Outcome ih ns m ws d st lt))
          | inr fresh ↦
              rw (new, fresh)
                (resume-Outcome n ns m (visit n m) ws st lt (check_neighbors-Outcome ih ns)
                  (ih n m d (λ x h. Chain-snoc n (st x h) w) fresh new (lt n w)))
        ]
      ]

Waits-All : (g : Graph) (a : ℕ) → All (Waits g a) (set_at a g)
unfolding contains
Waits-All g a = members (set_at a g)
  where
    weaken :
        (x : ℕ) (s t : List ℕ)
        → All (λ n. contains n s ≡ true) t
        → All (λ n. contains n (x ∷ s) ≡ true) t
    weaken x s [] h = tt
    weaken x s (n ∷ t) (h, hs) = (ground arith, weaken x s t hs)

    members : (s : List ℕ) → All (λ n. contains n s ≡ true) s
    members [] = tt
    members (x ∷ s) = (ground arith, weaken x s s (members s))

Waits-key : (g : Graph) (a n : ℕ) → Waits g a n → (s : List ℕ) × (find a g ≡ some s)
unfolding contains
Waits-key g a n w = elim (Option-cases (find a g)) [ inl e ↦ absurd (ground arith) | inr e ↦ e ]

enter : ℕ → Marks → Marks
enter a m = record { visited = insert a m.visited; rec_stack = insert a m.rec_stack }

leave-Outcome :
    (g : Graph) (a : ℕ) (m : Marks) (r : Option (Bool × Marks))
    → contains a m.rec_stack ≡ false
    → Outcome g (All (Ends g) (set_at a g)) (enter a m) r
    → Outcome g (Ends g a) m (leave a r)
unfolding enter
leave-Outcome g a m none new o = o
leave-Outcome g a m (some (true, m')) new o = o
leave-Outcome g a m (some (false, m')) new ((e, i, d), ps) =
    ((back, (λ x h. i x (insert-Includes a m.visited x h)), done), ends)
  where
    ends : Ends g a
    ends = Acc.intro a (λ n w. Ends-All g (set_at a g) ps n w)

    back : erase a m'.rec_stack ≡ m.rec_stack
    back = ap (erase a) e ∙ (erase-insert a m.rec_stack new ∙ erase_absent a m.rec_stack new)

    done : IsDone g (record m' { rec_stack = erase a m'.rec_stack })
    done x h k = elim (Bool-cases (a == x)) [
      | inl same ↦ subst (Ends g) ((==_iff a x).0 same) ends
      | inr other ↦ d x h (ground (arith, contains-erase a x m'.rec_stack))
    ]

-- With more fuel than transactions that wait and are not visited, the search returns. If it
-- answers true then somebody waits for itself; if false, no chain of waits from the start goes on
-- for ever, and the stack is as it was.
check_cycle-Outcome : (g : Graph) (fuel : ℕ) → Searches g (check_cycle g fuel) fuel
unfolding check_cycle enter
check_cycle-Outcome g zero a m d st fresh new lt = absurd (omega arith)
check_cycle-Outcome g (suc fuel) a m d st fresh new lt =
    leave-Outcome g a m (check_neighbors (check_cycle g fuel) (set_at a g) (enter a m)) new (
      check_neighbors-Outcome g (check_cycle g fuel) fuel a (check_cycle-Outcome g fuel)
        (set_at a g) (enter a m) (Waits-All g a) done stack less)
  where
    done : IsDone g (enter a m)
    done x h k =
        d x (ground (arith, contains-insert a x m.visited, contains-insert a x m.rec_stack))
          (ground (arith, contains-insert a x m.rec_stack))

    stack : IsStack g a (enter a m)
    stack x h = elim (Bool-cases (a == x)) [
      | inl same ↦ subst (λ y. Chain g a y) ((==_iff a x).0 same) stop
      | inr other ↦ st x (ground (arith, contains-insert a x m.rec_stack))
    ]

    less : (n : ℕ) → Waits g a n → unvisited g (insert a m.visited) < fuel
    less n w =
        let (s, e) = Waits-key g a n w in omega (arith, unvisited-insert-lt g a m.visited s e fresh)

abbrev pub start : Marks
start = record { visited = []; rec_stack = [] }

pub search-Outcome :
    (g : Graph) (a : ℕ) → Outcome g (Ends g a) start (check_cycle g (length g + 1) a start)
unfolding contains
search-Outcome g a =
    check_cycle-Outcome g (length g + 1) a start (λ x h k. cc) (λ x h. cc) refl refl
      (omega (arith, unvisited-le-length g []))
