-- ===== src/Concurrency/TwoPhase/WaitGraph/Sets.antt =====
-- Maps of sets, as the lock tables and the wait-for graph are: reads after writes.
use tubes_if3140_sistem_basi.Base.{
  ℕ, ◌≡◌, refl, List, [], ◌∷◌, true, false, arith, if◌then◌else◌, ◌==◌, ◌&&◌,
}
use tubes_if3140_sistem_basi.Base.Key.{nat_key}
use tubes_if3140_sistem_basi.Base.Map
use tubes_if3140_sistem_basi.Base.Map.{Map, find, put, find-put, find-erase}
use tubes_if3140_sistem_basi.Base.Set.{
  contains, insert, erase, is_empty, contains-insert, contains-erase,
}
use tubes_if3140_sistem_basi.Concurrency.TwoPhase.WaitGraph.{set_at, drop_member, add_wait, Graph}

pub set_at-put :
    (k j : ℕ) (s : List ℕ) (m : Map ℕ (List ℕ))
    → set_at j (put k s m) ≡ (if k == j then s else set_at j m)
set_at-put k j s m = ground (arith, find-put k j s m)

pub set_at-erase :
    (k j : ℕ) (m : Map ℕ (List ℕ)) → set_at j (Map.erase k m) ≡ (if k == j then [] else set_at j m)
set_at-erase k j m = ground (arith, find-erase k j m)

is_empty-contains : (x : ℕ) (s : List ℕ) → is_empty s ≡ true → contains x s ≡ false
unfolding contains
is_empty-contains x [] h = refl
is_empty-contains x (y ∷ s) h = cc

pub contains-drop_member :
    (k x j y : ℕ) (m : Map ℕ (List ℕ))
    → contains y (set_at j (drop_member k x m))
      ≡ (if k == j && x == y then false else contains y (set_at j m))
unfolding drop_member
contains-drop_member k x j y m = ground (
  arith,
  set_at-erase k j m,
  set_at-put k j (erase x (set_at k m)) m,
  is_empty-contains y (erase x (set_at k m)),
  contains-erase x y (set_at k m),
)

pub contains-add_wait :
    (k x j y : ℕ) (g : Graph)
    → contains y (set_at j (add_wait k x g))
      ≡ (if k == j && x == y then true else contains y (set_at j g))
unfolding add_wait
contains-add_wait k x j y g =
    ground (arith, set_at-put k j (insert x (set_at k g)) g, contains-insert x y (set_at k g))
