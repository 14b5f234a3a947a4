-- ===== src/Storage/Buffer/Evict.antt =====
-- The page that `evict_page` of src/storage_manager/buffer_manager.cpp takes out.
use tubes_if3140_sistem_basi.Base.{
  ℕ, ◌≤◌, [], ◌∷◌, Bool, true, false, if◌then◌else◌, Option, none, some, ◌≡◌, refl, All,
  Option-cases, inl, inr, ◌⊎◌, arith, subst,
}
use tubes_if3140_sistem_basi.Base.Key.{text_key, nat_key, pair_key}
use tubes_if3140_sistem_basi.Base.Map.{erase}
use tubes_if3140_sistem_basi.Base.Order.{IsEntry}
use tubes_if3140_sistem_basi.Storage.Page.{BufferPage, Floats}
use tubes_if3140_sistem_basi.Storage.Pool.{
  PageKey, Pages, BufferManager, flush_victim, find_victim, is_older, oldest_time,
}
use tubes_if3140_sistem_basi.Storage.Buffer.{evict_page}

-- An entry of the pool that is pinned, or was used no earlier than some time.
abbrev pub IsKept : ℕ → PageKey × BufferPage → Type 0
IsKept time (key, page) = (page.pin_count ≡ 0) → time ≤ page.last_access_time

-- What the search gives, from the best page so far.
abbrev IsBest : Pages → Option (PageKey × BufferPage) → Option (PageKey × BufferPage) → Type 0
IsBest pages best found =
    (oldest_time found ≤ oldest_time best)
    × All (IsKept (oldest_time found)) pages
    × ((found ≡ best)
        ⊎ ((e : PageKey × BufferPage) × (found ≡ some e) × IsEntry e pages × (e.1.pin_count ≡ 0)))

IsBest-step :
    (key : PageKey) (page : BufferPage) (pages : Pages) (best found : Option (PageKey × BufferPage))
    (b : Bool)
    → is_older page best ≡ b
    → IsBest pages (if b then some (key, page) else best) found
    → IsBest ((key, page) ∷ pages) best found
IsBest-step key page pages best found true older (l, kept, inl same) =
    let unpinned : page.pin_count ≡ 0 = ground (arith, older) in
    (ground (arith, l, older), ((λ h. l), kept), inr ((key, page), same, inl refl, unpinned))
IsBest-step key page pages best found true older (l, kept, inr (e, same, inside, unpinned)) =
    (ground (arith, l, older), ((λ h. l), kept), inr (e, same, inr inside, unpinned))
IsBest-step key page pages best found false newer (l, kept, inl same) =
    (l, ((λ h. ground (arith, h, l, newer)), kept), inl same)
IsBest-step key page pages best found false newer (l, kept, inr (e, same, inside, unpinned)) =
    (l, ((λ h. ground (arith, h, l, newer)), kept), inr (e, same, inr inside, unpinned))

find_victim-IsBest :
    (pages : Pages) (best : Option (PageKey × BufferPage))
    → IsBest pages best (find_victim pages best)
unfolding find_victim
find_victim-IsBest [] best = (omega arith, tt, inl refl)
find_victim-IsBest ((key, page) ∷ pages) best =
    let next = if is_older page best then some (key, page) else best in
    IsBest-step key page pages best (find_victim pages next) (is_older page best) refl
      (find_victim-IsBest pages next)

-- What is known of an eviction.
abbrev pub IsEviction : Floats → BufferManager → BufferManager → Type 0
IsEviction F m m' =
    (key : PageKey) × (page : BufferPage) × IsEntry (key, page) m.buffer_pool
    × (page.pin_count ≡ 0)
    × All (IsKept page.last_access_time) m.buffer_pool
    × (m' ≡ record m { buffer_pool = erase key m.buffer_pool; files = flush_victim F key page m })

module _ (F : Floats) where
  victim-IsEviction :
      (m : BufferManager) (e : PageKey × BufferPage)
      → find_victim m.buffer_pool none ≡ some e
      → IsBest m.buffer_pool none (some e)
      → IsEviction F m
          (record m { buffer_pool = erase e.0 m.buffer_pool; files = flush_victim F e.0 e.1 m })
  victim-IsEviction m e found (l, kept, inl same) = cc
  victim-IsEviction m e found (l, kept, inr (f, same, inside, unpinned)) =
      let q : f ≡ e = cc in
      (
        e.0,
        e.1,
        subst (λ x. IsEntry x m.buffer_pool) q inside,
        subst (λ x. x.1.pin_count ≡ 0) q unpinned,
        kept,
        refl,
      )

  -- An eviction takes out one page of the pool, which no one has pinned and which no unpinned page was
  -- used before, after it was flushed if it was dirty; it changes nothing else. It fails only if
  -- every page is pinned, or has the largest time that there is.
  pub evict_page-lru :
      (m : BufferManager)
      → ((m' : BufferManager) × (evict_page F m ≡ some m') × IsEviction F m m')
        ⊎ ((evict_page F m ≡ none) × All (IsKept 9223372036854775807) m.buffer_pool)
  unfolding evict_page
  evict_page-lru m = elim (Option-cases (find_victim m.buffer_pool none)) [
    | inl missing ↦
        let best =
          subst (IsBest m.buffer_pool none) missing (find_victim-IsBest m.buffer_pool none) in
        inr (rw (missing, evict_page) refl, best.1)
    | inr (e, found) ↦
        let best =
          subst (IsBest m.buffer_pool none) found (find_victim-IsBest m.buffer_pool none) in
        inl (
          record m { buffer_pool = erase e.0 m.buffer_pool; files = flush_victim F e.0 e.1 m },
          rw (found, evict_page) refl,
          victim-IsEviction m e found best,
        )
  ]
