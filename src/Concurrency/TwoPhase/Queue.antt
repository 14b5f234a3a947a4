-- ===== src/Concurrency/TwoPhase/Queue.antt =====
-- The wait queues of `TwoPhaseLockingCCManager`: who stands in a queue after each change.
use tubes_if3140_sistem_basi.Base.{
  ℕ, ◌≡◌, refl, List, [], ◌∷◌, ◌++◌, true, false, ◌&&◌, ◌||◌, arith, if◌then◌else◌, ◌==◌,
}
use tubes_if3140_sistem_basi.Base.Key.{nat_key}
use tubes_if3140_sistem_basi.Base.Map
use tubes_if3140_sistem_basi.Base.Map.{Map, find, put, find-put, find-erase}
use tubes_if3140_sistem_basi.Base.Set.{contains, is_empty}
use tubes_if3140_sistem_basi.Concurrency.TwoPhase.Acquire.{enqueue, leave_queue}
use tubes_if3140_sistem_basi.Concurrency.TwoPhase.WaitGraph.{set_at}
use tubes_if3140_sistem_basi.Concurrency.TwoPhase.WaitGraph.Sets.{set_at-put, set_at-erase}
use tubes_if3140_sistem_basi.Concurrency.TwoPhase.Views.{Holders, in_set}

contains-tail : (x y : ℕ) (s : List ℕ) → contains x s ≡ true → contains x (y ∷ s) ≡ true
unfolding contains
contains-tail x y s h = ground arith

no_member : (x : ℕ) (s : List ℕ) → is_empty s ≡ true → contains x s ≡ false
unfolding contains
no_member x [] h = refl
no_member x (y ∷ s) h = cc

contains-append : (x : ℕ) (s t : List ℕ) → contains x (s ++ t) ≡ (contains x s || contains x t)
unfolding contains
contains-append x [] t = refl
contains-append x (y ∷ s) t = ground (arith, contains-append x s t)

contains-one : (x y : ℕ) → contains x (y ∷ []) ≡ (y == x)
unfolding contains
contains-one x y = ground arith

pub in_set-enqueue :
    (hash tid u h : ℕ) (q : Holders)
    → in_set u h (enqueue hash tid q) ≡ (if tid == u && hash == h then true else in_set u h q)
unfolding enqueue
in_set-enqueue hash tid u h q = ground (
  arith,
  set_at-put hash h (set_at hash q ++ tid ∷ []) q,
  contains-append u (set_at hash q) (tid ∷ []),
  contains-one u tid,
)

-- A queue loses at most its front.
pub in_set-leave_queue :
    (hash tid u h : ℕ) (q : Holders)
    → in_set u h (leave_queue hash tid q) ≡ true
    → in_set u h q ≡ true
unfolding leave_queue
in_set-leave_queue hash tid u h q = at_front (set_at hash q) refl
  where
    at_front :
        (s : List ℕ)
        → set_at hash q ≡ s
        → in_set u h (elim s [
          | [] ↦ q
          | t ∷ ts ↦ if t == tid then if is_empty ts then Map.erase hash q else put hash ts q else q
        ])
          ≡ true
        → in_set u h q ≡ true
    at_front [] e k = k
    at_front (t ∷ ts) e k =
        ground (
          arith,
          set_at-erase hash h q,
          set_at-put hash h ts q,
          contains-tail u t ts,
          no_member u ts,
        )
