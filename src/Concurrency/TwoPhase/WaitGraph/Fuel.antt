-- ===== src/Concurrency/TwoPhase/WaitGraph/Fuel.antt =====
-- How many transactions `check_cycle` can still enter: the measure that bounds its recursion.
use tubes_if3140_sistem_basi.Base.{
  ℕ, suc, ◌≤◌, ◌<◌, ◌≡◌, List, [], ◌∷◌, true, false, some, arith, if◌then◌else◌, length, ◌==◌,
  Bool-cases, inl, inr,
}
use tubes_if3140_sistem_basi.Base.Key.{nat_key}
use tubes_if3140_sistem_basi.Base.Map.{find}
use tubes_if3140_sistem_basi.Base.Set.{contains, insert, contains-insert}
use tubes_if3140_sistem_basi.Concurrency.TwoPhase.WaitGraph.{Graph}

-- The transactions that wait and have not been visited.
unfoldable pub unvisited : Graph → List ℕ → ℕ
unvisited [] v = 0
unvisited ((k, s) ∷ g) v = if contains k v then unvisited g v else suc (unvisited g v)

abbrev pub Includes : List ℕ → List ℕ → Type 0
Includes v w = (x : ℕ) → contains x v ≡ true → contains x w ≡ true

pub unvisited_mono : (g : Graph) (v w : List ℕ) → Includes v w → unvisited g w ≤ unvisited g v
unfolding unvisited
unvisited_mono [] v w h = omega arith
unvisited_mono ((k, s) ∷ g) v w h = ground (arith, unvisited_mono g v w h, h k)

pub insert-Includes : (x : ℕ) (v : List ℕ) → Includes v (insert x v)
insert-Includes x v y h = ground (arith, contains-insert x y v)

pub unvisited-insert-lt :
    (g : Graph) (k : ℕ) (v s : List ℕ)
    → find k g ≡ some s
    → contains k v ≡ false
    → unvisited g (insert k v) < unvisited g v
unfolding unvisited find
unvisited-insert-lt [] k v s e h = cc
unvisited-insert-lt ((j, t) ∷ g) k v s e h = elim (Bool-cases (j == k)) [
  | inl same ↦
      ground (arith, contains-insert k j v, unvisited_mono g v (insert k v) (insert-Includes k v))
  | inr other ↦ ground (arith, contains-insert k j v, unvisited-insert-lt g k v s (ground arith) h)
]

pub unvisited-le-length : (g : Graph) (v : List ℕ) → unvisited g v ≤ length g
unfolding unvisited
unvisited-le-length [] v = omega arith
unvisited-le-length ((k, s) ∷ g) v = ground (arith, unvisited-le-length g v)
