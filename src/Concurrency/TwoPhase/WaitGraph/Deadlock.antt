-- ===== src/Concurrency/TwoPhase/WaitGraph/Deadlock.antt =====
-- `detect_deadlock` answers true exactly when the wait that is asked for would close a cycle.
use mathlib.Core.WellFounded.{Acc}
use tubes_if3140_sistem_basi.Base.{
  ℕ, ◌+◌, ◌≡◌, refl, ◌↔◌, Bool, true, false, Option, none, some, arith, length, inl, inr,
  Bool-cases, ◌==◌, ◌&&◌, ==_iff, subst, ◌⊎◌,
}
use tubes_if3140_sistem_basi.Base.Set.{contains}
use tubes_if3140_sistem_basi.Concurrency.TwoPhase.WaitGraph.{
  Graph, set_at, Marks, check_cycle, detect_deadlock, decide_deadlock, add_wait,
}
use tubes_if3140_sistem_basi.Concurrency.TwoPhase.WaitGraph.Search.{
  Waits, Chain, stop, step, Ends, HasCycle, Outcome, Chain-snoc, search-Outcome, start,
}
use tubes_if3140_sistem_basi.Concurrency.TwoPhase.WaitGraph.Sets.{
  contains-drop_member, contains-add_wait,
}

-- No chain of waits goes on for ever.
abbrev pub IsEnding : Graph → Type 0
IsEnding g = (a : ℕ) → Ends g a

pub fewer-Ends :
    (g g' : Graph) → ((a b : ℕ) → Waits g' a b → Waits g a b) → (a : ℕ) → Ends g a → Ends g' a
fewer-Ends g g' sub a (Acc.intro _ below) =
    Acc.intro a (λ b w. fewer-Ends g g' sub b (below b (sub a b w)))

next_turn :
    (g : Graph) (x : ℕ) {c : ℕ}
    → Chain g x c
    → Waits g x c
    → ((d : ℕ) → Waits g c d → Chain g c d → ⊥)
    → ⊥
next_turn g x stop w rest = rest x w stop
next_turn g x {c} (step {c = d} v p) w rest = rest d v (Chain-snoc c p w)

no_turn : (g : Graph) (x : ℕ) → Ends g x → (c : ℕ) → Waits g x c → Chain g x c → ⊥
no_turn g x (Acc.intro _ below) c w p = next_turn g x p w (no_turn g c (below c w))

pub not-HasCycle : (g : Graph) → IsEnding g → ¬ HasCycle g
not-HasCycle g ends (a, c, w, p) = no_turn g a (ends a) c w p

-- A new edge keeps every chain finite, if those from its source are.
add_wait-Ends :
    (g : Graph) (w h : ℕ) → Ends (add_wait w h g) w → (a : ℕ) → Ends g a → Ends (add_wait w h g) a
add_wait-Ends g w h ends a (Acc.intro _ below) = elim (Bool-cases (w == a)) [
  | inl same ↦ subst (Ends (add_wait w h g)) ((==_iff w a).0 same) ends
  | inr other ↦
      Acc.intro a
        (λ b v. add_wait-Ends g w h ends b (below b (ground (arith, contains-add_wait w h a b g))))
]

decide_deadlock-lem :
    (g : Graph) (w h : ℕ) (r : Option (Bool × Marks))
    → IsEnding g
    → Outcome (add_wait w h g) (Ends (add_wait w h g) w) start r
    → (((decide_deadlock w h (add_wait w h g) r).0 ≡ true) ↔ HasCycle (add_wait w h g))
      × ((decide_deadlock w h (add_wait w h g) r).0 ≡ false → IsEnding (add_wait w h g))
unfolding decide_deadlock
decide_deadlock-lem g w h none ends o = absurd o
decide_deadlock-lem g w h (some (true, m)) ends o = ((λ e. o, λ c. refl), λ e. cc)
decide_deadlock-lem g w h (some (false, m)) ends (k, e) =
    ((λ e. cc, λ c. absurd (not-HasCycle (add_wait w h g) all c)), λ e. all)
  where
    all : IsEnding (add_wait w h g)
    all a = add_wait-Ends g w h e a (ends a)

-- On a wait-for graph in which no chain of waits goes on for ever, `detect_deadlock` answers true
-- exactly when the wait that is asked for closes a cycle. If it answers false, no chain of waits
-- goes on for ever with that wait added either.
pub detect_deadlock_iff :
    (g : Graph) (waiting holding : ℕ)
    → IsEnding g
    → (((detect_deadlock waiting holding g).0 ≡ true) ↔ HasCycle (add_wait waiting holding g))
      × ((detect_deadlock waiting holding g).0 ≡ false → IsEnding (add_wait waiting holding g))
unfolding detect_deadlock
detect_deadlock_iff g w h ends =
    decide_deadlock-lem g w h _ ends (search-Outcome (add_wait w h g) w)

decide_deadlock-graph :
    (w h : ℕ) (g : Graph) (r : Option (Bool × Marks)) (a b : ℕ)
    → (decide_deadlock w h g r).0 ≡ false
    → Waits (decide_deadlock w h g r).1 a b
    → Waits g a b
unfolding decide_deadlock
decide_deadlock-graph w h g none a b e v = ground (arith, contains-drop_member w h a b g)
decide_deadlock-graph w h g (some (true, m)) a b e v = cc
decide_deadlock-graph w h g (some (false, m)) a b e v =
    ground (arith, contains-drop_member w h a b g)

-- A transaction that has to wait is entered in the graph again.
abbrev pub waiting_graph : ℕ → ℕ → Graph → Graph
waiting_graph w h g = add_wait w h (detect_deadlock w h g).1

pub waiting_graph-IsEnding :
    (g : Graph) (w h : ℕ)
    → IsEnding g
    → (detect_deadlock w h g).0 ≡ false
    → IsEnding (waiting_graph w h g)
unfolding detect_deadlock
waiting_graph-IsEnding g w h ends e a =
    fewer-Ends (add_wait w h g) (waiting_graph w h g) sub a ((detect_deadlock_iff g w h ends).1 e a)
  where
    sub : (a b : ℕ) → Waits (waiting_graph w h g) a b → Waits (add_wait w h g) a b
    sub a b v = ground (
      arith,
      contains-add_wait w h a b (detect_deadlock w h g).1,
      contains-add_wait w h a b g,
      decide_deadlock-graph w h (add_wait w h g)
          (check_cycle (add_wait w h g) (length (add_wait w h g) + 1) w start) a b e,
    )

decide_deadlock-others :
    (w h : ℕ) (g g' : Graph) (r : Option (Bool × Marks)) (a b : ℕ)
    → (w == a) ≡ false
    → ((c d : ℕ) → (w == c) ≡ false → Waits g' c d → Waits g c d)
    → Waits (decide_deadlock w h g' r).1 a b
    → Waits g a b
unfolding decide_deadlock
decide_deadlock-others w h g g' none a b e sub v =
    sub a b e (ground (arith, contains-drop_member w h a b g'))
decide_deadlock-others w h g g' (some (true, m)) a b e sub v = sub a b e v
decide_deadlock-others w h g g' (some (false, m)) a b e sub v =
    sub a b e (ground (arith, contains-drop_member w h a b g'))

-- The call changes the waits of the transaction that asks, and no others.
pub detect_deadlock-others :
    (w h : ℕ) (g : Graph) (a b : ℕ)
    → (w == a) ≡ false
    → Waits (detect_deadlock w h g).1 a b
    → Waits g a b
unfolding detect_deadlock
detect_deadlock-others w h g a b e v =
    decide_deadlock-others w h g (add_wait w h g) _ a b e
      (λ c d f x. ground (arith, contains-add_wait w h c d g)) v

pub waiting_graph-Waits :
    (w h : ℕ) (g : Graph) (a b : ℕ)
    → (detect_deadlock w h g).0 ≡ false
    → contains b (set_at a (waiting_graph w h g)) ≡ true
    → ((w == a && h == b) ≡ true) ⊎ Waits g a b
unfolding detect_deadlock
waiting_graph-Waits w h g a b e v = elim (Bool-cases (w == a && h == b)) [
  | inl new ↦ inl new
  | inr old ↦ inr (
      ground (
        arith,
        contains-add_wait w h a b (detect_deadlock w h g).1,
        contains-add_wait w h a b g,
        decide_deadlock-graph w h (add_wait w h g)
            (check_cycle (add_wait w h g) (length (add_wait w h g) + 1) w start) a b e,
      ))
]
