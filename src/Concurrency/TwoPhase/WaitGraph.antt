-- ===== src/Concurrency/TwoPhase/WaitGraph.antt =====
-- The wait-for graph of `TwoPhaseLockingCCManager`, `check_cycle` and `detect_deadlock`. The
-- recursion of the search is bounded by fuel: one more than the number of waiting transactions.
pub mod Fuel
pub mod Search
pub mod Sets
pub mod Deadlock
use tubes_if3140_sistem_basi.Base.{
  ℕ, zero, suc, ◌+◌, ◌≡◌, List, [], ◌∷◌, Bool, true, false, Option, none, some, if◌then◌else◌,
  length,
}
use tubes_if3140_sistem_basi.Base.Key.{nat_key}
use tubes_if3140_sistem_basi.Base.Map
use tubes_if3140_sistem_basi.Base.Map.{Map, find, put}
use tubes_if3140_sistem_basi.Base.Set.{contains, insert, erase, is_empty}

-- Transaction -> the transactions that it waits for.
abbrev pub Graph : Type 0
Graph = Map ℕ (List ℕ)

abbrev pub or_empty : Option (List ℕ) → List ℕ
or_empty none = []
or_empty (some s) = s

-- The set at a key, empty where the map has none.
abbrev pub set_at : ℕ → Map ℕ (List ℕ) → List ℕ
set_at k m = or_empty (find k m)

-- Remove a member of the set at a key, and the entry with it when the set becomes empty.
unfoldable pub drop_member : ℕ → ℕ → Map ℕ (List ℕ) → Map ℕ (List ℕ)
drop_member k x m =
    if is_empty (erase x (set_at k m)) then Map.erase k m else put k (erase x (set_at k m)) m

-- `visited` and `rec_stack`, which the search passes by reference.
pub record Marks : Type 0 where
  pub visited : List ℕ
  pub rec_stack : List ℕ

-- A call that found a cycle ends the loop over the neighbours, and any other goes on with the rest.
abbrev pub resume : (Marks → Option (Bool × Marks)) → Option (Bool × Marks) → Option (Bool × Marks)
resume rest none = none
resume rest (some (true, m)) = some (true, m)
resume rest (some (false, m)) = rest m

-- The loop over the neighbours; `visit` is the recursive call, which returns `none` if out of fuel.
unfoldable pub check_neighbors :
    (ℕ → Marks → Option (Bool × Marks)) → List ℕ → Marks → Option (Bool × Marks)
check_neighbors visit [] m = some (false, m)
check_neighbors visit (n ∷ ns) m =
    let rest = check_neighbors visit ns in
    if contains n m.rec_stack
    then some (true, m)
    else if contains n m.visited
    then rest m
    else resume rest (visit n m)

abbrev pub leave : ℕ → Option (Bool × Marks) → Option (Bool × Marks)
leave current none = none
leave current (some (true, m)) = some (true, m)
leave current (some (false, m)) = some (false, record m { rec_stack = erase current m.rec_stack })

unfoldable pub check_cycle : Graph → ℕ → ℕ → Marks → Option (Bool × Marks)
check_cycle g zero current m = none
check_cycle g (suc fuel) current m = leave current (
    check_neighbors (check_cycle g fuel) (set_at current g)
      (record { visited = insert current m.visited; rec_stack = insert current m.rec_stack }))

-- `wait_for_graph[waiting].insert(holding)`
unfoldable pub add_wait : ℕ → ℕ → Graph → Graph
add_wait waiting holding g = put waiting (insert holding (set_at waiting g)) g

-- The answer, and the graph that the call leaves: with the new edge if there is a deadlock, and
-- without it otherwise.
unfoldable pub decide_deadlock : ℕ → ℕ → Graph → Option (Bool × Marks) → Bool × Graph
decide_deadlock waiting holding g none = (false, drop_member waiting holding g)
decide_deadlock waiting holding g (some (true, m)) = (true, g)
decide_deadlock waiting holding g (some (false, m)) = (false, drop_member waiting holding g)

unfoldable pub detect_deadlock : ℕ → ℕ → Graph → Bool × Graph
unfolding decide_deadlock
detect_deadlock waiting holding g =
    let g' = add_wait waiting holding g in
    decide_deadlock waiting holding g'
      (check_cycle g' (length g' + 1) waiting (record { visited = []; rec_stack = [] }))
