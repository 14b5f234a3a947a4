-- ===== src/Storage/Buffer/Refinement.antt =====
-- `get_page` of src/storage_manager/buffer_manager.cpp reads through the pool.
use tubes_if3140_sistem_basi.Base.{
  ℕ, ◌+◌, ◌<◌, List, Bool, true, false, none, some, ◌≡◌, refl, sym, ap, ◌∙◌, length, leb,
  if◌then◌else◌, Bool-cases, Option-cases, inl, inr, arith, subst, ==_refl, All, ◌⊎◌,
}
use tubes_if3140_sistem_basi.Base.Key.{Text, text_key, nat_key, pair_key, text_same_iff}
use tubes_if3140_sistem_basi.Base.Map.{Map, find}
use tubes_if3140_sistem_basi.Base.Order.{find-IsEntry}
use tubes_if3140_sistem_basi.Types.{Row}
use tubes_if3140_sistem_basi.Recovery.Entry.{TableSchema}
use tubes_if3140_sistem_basi.Storage.Page.{BufferPage, Floats, load_page}
use tubes_if3140_sistem_basi.Storage.Pool.{
  PageKey, BufferManager, get_schema, load_page_internal, file_of, or_empty_schema,
}
use tubes_if3140_sistem_basi.Storage.Buffer.{fresh_page, evict_page, make_room, get_page}
use tubes_if3140_sistem_basi.Storage.Buffer.Evict.{IsKept, evict_page-lru}
use tubes_if3140_sistem_basi.Storage.Buffer.Contents.{
  on_disk, rows_or, contents, key_of, same_page, IsSafe,
}
use tubes_if3140_sistem_basi.Storage.Buffer.Coherent.{
  IsCoherent, page_order, evicted, evicted-contents, evicted-IsCoherent, find-evicted,
}
use tubes_if3140_sistem_basi.Storage.Buffer.Entries.{
  with_entry, with_entry-contents, with_entry-IsCoherent, find-entry,
}

-- A buffer that holds the same as before, with no new page in the pool.
pub record IsRoom (F : Floats) (m room : BufferManager) : Type 0 where
  pub coherent : IsCoherent F room
  pub same : (k : PageKey) → contents k room ≡ contents k m
  pub schemas : room.schema_cache ≡ m.schema_cache
  pub absent : (k : PageKey) → find k m.buffer_pool ≡ none → find k room.buffer_pool ≡ none

absent_or :
    (b : Bool) (k : PageKey) (m : BufferManager)
    → find k m.buffer_pool ≡ none
    → (if b then none else find k m.buffer_pool) ≡ none
absent_or true k m gone = refl
absent_or false k m gone = gone

same_page_refl : (key : PageKey) → same_page key key ≡ true
same_page_refl key = rw ((text_same_iff key.0 key.0).1 refl) (==_refl key.1)

module _ (F : Floats) where
  here-IsRoom : (m : BufferManager) → IsCoherent F m → IsRoom F m m
  here-IsRoom m h = record {
    coherent = h;
    same = λ k. refl;
    schemas = refl;
    absent = λ k gone. gone;
  }

  evicted-IsRoom :
      (m : BufferManager) (key : PageKey) (page : BufferPage)
      → IsCoherent F m
      → find key m.buffer_pool ≡ some page
      → IsRoom F m (evicted F key page m)
  evicted-IsRoom m key page h found = record {
    coherent = evicted-IsCoherent F m key page h found;
    same = λ k. evicted-contents F m key page k h found;
    schemas = refl;
    absent = λ k gone. find-evicted F m key k ∙ absent_or (same_page key k) k m gone;
  }

  -- There is room, or the pool is full of pages that cannot be evicted.
  abbrev pub IsFull : BufferManager → Type 0
  IsFull m =
      (leb m.capacity (length m.buffer_pool) ≡ true)
      × All (IsKept 9223372036854775807) m.buffer_pool

  evict_page-IsRoom :
      (m : BufferManager)
      → IsCoherent F m
      → ((room : BufferManager) × (evict_page F m ≡ some room) × IsRoom F m room)
        ⊎ ((evict_page F m ≡ none) × All (IsKept 9223372036854775807) m.buffer_pool)
  evict_page-IsRoom m h = elim (evict_page-lru F m) [
    | inl (room, found, (key, page, inside, unpinned, kept, same)) ↦ inl (
      room,
      found,
      subst (IsRoom F m) (sym same) (
          evicted-IsRoom m key page h
            (find-IsEntry page_order (key, page) m.buffer_pool h.sorted inside)),
    )
    | inr failed ↦ inr failed
  ]

  make_room-IsRoom :
      (m : BufferManager)
      → IsCoherent F m
      → ((room : BufferManager) × (make_room F m ≡ some room) × IsRoom F m room)
        ⊎ ((make_room F m ≡ none) × IsFull m)
  unfolding make_room
  make_room-IsRoom m h = elim (Bool-cases (leb m.capacity (length m.buffer_pool))) [
    | inl full ↦
        let chosen = ap (λ b. if b then evict_page F m else some m) full in
        elim (evict_page-IsRoom m h) [
          | inl (room, found, ok) ↦ inl (room, chosen ∙ found, ok)
          | inr (failed, kept) ↦ inr (chosen ∙ failed, (full, kept))
        ]
    | inr free ↦ inl (m, ap (λ b. if b then evict_page F m else some m) free, here-IsRoom m h)
  ]

  -- What a reader of a page has.
  abbrev pub IsRead : PageKey → BufferManager → BufferManager → Type 0
  IsRead key m m' =
      (page : BufferPage) × (find key m'.buffer_pool ≡ some page)
      × (page.rows ≡ contents key m)
      × (0 < page.pin_count)

  -- A coherent buffer that holds the same as before, and the page of a key in its pool, pinned.
  abbrev pub IsReadThrough : PageKey → BufferManager → BufferManager → Type 0
  IsReadThrough key m m' =
      IsCoherent F m' × ((k : PageKey) → contents k m' ≡ contents k m) × IsRead key m m'

  entered-IsReadThrough :
      (m room : BufferManager) (key : PageKey) (page : BufferPage)
      → IsRoom F m room
      → key_of page ≡ key
      → (page.is_dirty ≡ true → IsSafe F (get_schema key.0 room) page.rows)
      → (page.is_dirty ≡ false → on_disk (get_schema key.0 room) key room.files ≡ page.rows)
      → page.rows ≡ contents key m
      → 0 < page.pin_count
      → IsReadThrough key m (with_entry F key page room)
  entered-IsReadThrough m room key page h named dirty clean rows pinned = (
    with_entry-IsCoherent F room key page h.coherent named dirty clean,
    λ k. with_entry-contents F room key page k (rows ∙ sym (h.same key)) ∙ h.same k,
    (
      page,
      find-entry F room key key page
          ∙ ap (λ b. if b then some page else find key room.buffer_pool) (same_page_refl key),
      rows,
      pinned,
    ),
  )

  get_page-hit :
      (table : Text) (id now : ℕ) (m : BufferManager) (page : BufferPage)
      → IsCoherent F m
      → find (table, id) m.buffer_pool ≡ some page
      → IsReadThrough
          (table, id)
          m
          (with_entry F
            (table, id)
            (record page { pin_count = page.pin_count + 1; last_access_time = now })
            m)
  get_page-hit table id now m page h found =
      let disk = on_disk (get_schema table m) (table, id) m.files in
      entered-IsReadThrough m m (table, id)
        (record page { pin_count = page.pin_count + 1; last_access_time = now }) (here-IsRoom m h)
        (h.named (table, id) page found) (h.dirty (table, id) page found)
        (h.clean (table, id) page found) (sym (ap (λ o. rows_or o disk) found)) (omega arith)

  get_page-miss :
      (table : Text) (id now : ℕ) (m room : BufferManager)
      → IsRoom F m room
      → find (table, id) m.buffer_pool ≡ none
      → IsReadThrough
          (table, id)
          m
          (with_entry F
            (table, id)
            (load_page_internal table id
              (fresh_page table id false now)
              (get_schema table m)
              room.files)
            room)
  unfolding load_page_internal get_schema
  get_page-miss table id now m room h gone =
      let key : PageKey = (table, id) in
      let loaded : Map Text TableSchema → List Row =
        λ c. load_page (or_empty_schema (find table c)) id (file_of table room.files) in
      let disk = on_disk (get_schema table room) key room.files in
      let in_room : contents key room ≡ disk = ap (λ o. rows_or o disk) (h.absent key gone) in
      entered-IsReadThrough m room key
        (load_page_internal table id (fresh_page table id false now) (get_schema table m)
          room.files)
        h refl (λ d. cc) (λ c. ap loaded h.schemas)
        (sym (ap loaded h.schemas) ∙ sym in_room ∙ h.same key) (omega arith)

  -- From a coherent buffer, a page that is got with the schema of its table is in the pool, pinned, with
  -- the rows that it had in the pool or, if it was not there, in its file; whatever page is evicted for
  -- it, every page of every table holds the rows that it held, and the buffer is coherent again. It
  -- fails only if the page is not in the pool, and the pool is full of pages that are pinned or have
  -- the largest time that there is.
  pub get_page-IsReadThrough :
      (table : Text) (id now : ℕ) (m : BufferManager)
      → IsCoherent F m
      → ((m' : BufferManager) × (get_page F table id (get_schema table m) now m ≡ some m')
          × IsReadThrough (table, id) m m')
        ⊎ ((get_page F table id (get_schema table m) now m ≡ none)
            × (find (table, id) m.buffer_pool ≡ none)
            × IsFull m)
  unfolding get_page
  get_page-IsReadThrough table id now m h = elim (Option-cases (find (table, id) m.buffer_pool)) [
    | inr (page, found) ↦ inl (
      with_entry F (table, id)
          (record page { pin_count = page.pin_count + 1; last_access_time = now }) m,
      rw (found, get_page) refl,
      get_page-hit table id now m page h found,
    )
    | inl gone ↦ elim (make_room-IsRoom m h) [
      | inl (room, made, ok) ↦ inl (
        with_entry F (table, id)
            (load_page_internal table id (fresh_page table id false now) (get_schema table m)
              room.files)
            room,
        rw (gone, get_page, made) refl,
        get_page-miss table id now m room ok gone,
      )
      | inr (failed, full) ↦ inr (rw (gone, get_page, failed) refl, gone, full)
    ]
  ]
