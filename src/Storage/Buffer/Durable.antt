-- ===== src/Storage/Buffer/Durable.antt =====
-- What `flush_all` and `checkpoint` of src/storage_manager/buffer_manager.cpp leave in the files.
use tubes_if3140_sistem_basi.Base.{
  All, [], ◌∷◌, true, false, if◌then◌else◌, none, some, ◌≡◌, refl, sym, ap, ◌∙◌, Bool-cases, inl,
  inr, subst,
}
use tubes_if3140_sistem_basi.Base.Key.{Text, text_key, nat_key, pair_key, pair_same_iff}
use tubes_if3140_sistem_basi.Base.Map.{Map, find}
use tubes_if3140_sistem_basi.Base.Order.{
  IsSorted, IsEntry, IsEntry-All, later_key, find-IsEntry, find-before,
}
use tubes_if3140_sistem_basi.Recovery.Codec.{Bytes}
use tubes_if3140_sistem_basi.Recovery.Entry.{TableSchema}
use tubes_if3140_sistem_basi.Storage.Page.{BufferPage, Floats}
use tubes_if3140_sistem_basi.Storage.Pool.{
  PageKey, Pages, BufferManager, get_schema, flush_page_internal,
}
use tubes_if3140_sistem_basi.Storage.Buffer.{flush_result, flush_entry, flush_pages, flush_all}
use tubes_if3140_sistem_basi.Storage.Buffer.Contents.{
  on_disk, rows_or, contents, IsSafe, key_of, ArePaged, same_page, flush_page_internal-IsFlushed,
}
use tubes_if3140_sistem_basi.Storage.Buffer.Coherent.{page_order, same_page-pair, IsCoherent}

find-first :
    (key : PageKey) (page : BufferPage) (pages : Pages) (k : PageKey)
    → find k ((key, page) ∷ pages) ≡ (if same_page key k then some page else find k pages)
unfolding find
find-first key page pages k = ap (λ b. if b then some page else find k pages) (same_page-pair key k)

-- An entry behind another has another key.
apart :
    (key j : PageKey) (p : BufferPage) (pages : Pages)
    → All (λ e. pair_key.before key e.0 ≡ true) pages
    → IsEntry (j, p) pages
    → same_page key j ≡ false
apart key j p pages first i =
    sym (same_page-pair key j)
    ∙ later_key page_order key j
        (IsEntry-All (λ e. pair_key.before key e.0 ≡ true) (j, p) pages first i)

module _ (F : Floats) (m : BufferManager) where
  -- A page that stands under its key, can be written if it is dirty, and is as in its file otherwise.
  pub record IsReady (files : Map Text Bytes) (key : PageKey) (page : BufferPage) : Type 0 where
    pub named : key_of page ≡ key
    pub dirty : page.is_dirty ≡ true → IsSafe F (get_schema key.0 m) page.rows
    pub clean : page.is_dirty ≡ false → on_disk (get_schema key.0 m) key files ≡ page.rows

  -- Files that have one page as in the pool and the others as before.
  abbrev IsStep : Map Text Bytes → PageKey → BufferPage → Map Text Bytes → Type 0
  IsStep files key page files' =
      (on_disk (get_schema key.0 m) key files' ≡ page.rows)
      × ArePaged files'
      × ((other : PageKey) (s : TableSchema)
          → same_page key other ≡ false
          → on_disk s other files' ≡ on_disk s other files)

  flush_entry-IsStep :
      (files : Map Text Bytes) (key : PageKey) (page : BufferPage)
      → ArePaged files
      → IsReady files key page
      → IsStep files key page (flush_entry F m key page files).1
  unfolding flush_entry
  flush_entry-IsStep files key page paged h = elim (Bool-cases page.is_dirty) [
    | inl d ↦
        let schema = get_schema key.0 m in
        let (files', e, flushed) =
          flush_page_internal-IsFlushed F schema page files (h.dirty d) paged in
        let same : (flush_entry F m key page files).1 ≡ files' =
          ap
            (λ b.
              (if b
                then flush_result F page files (flush_page_internal F page schema files)
                else (page, files)).1)
            d
          ∙ ap (λ o. (flush_result F page files o).1) e in
        subst (IsStep files key page) (sym same) (
          subst
            (λ k.
              (on_disk schema k files' ≡ page.rows)
              × ArePaged files'
              × ((other : PageKey) (s : TableSchema)
                  → same_page k other ≡ false
                  → on_disk s other files' ≡ on_disk s other files))
            h.named flushed)
    | inr c ↦
        let schema = get_schema key.0 m in
        let same : (flush_entry F m key page files).1 ≡ files =
          ap
            (λ b.
              (if b
                then flush_result F page files (flush_page_internal F page schema files)
                else (page, files)).1)
            c in
        subst (IsStep files key page) (sym same) (h.clean c, paged, λ other s d. refl)
  ]

  flush_pages-on_disk :
      (pages : Pages) (files : Map Text Bytes) (k : PageKey)
      → ArePaged files
      → IsSorted page_order pages
      → ((key : PageKey) (page : BufferPage) → IsEntry (key, page) pages → IsReady files key page)
      → on_disk (get_schema k.0 m) k (flush_pages F m pages files).1
        ≡ rows_or (find k pages) (on_disk (get_schema k.0 m) k files)
  unfolding flush_pages find
  flush_pages-on_disk [] files k paged sorted ready = refl
  flush_pages-on_disk ((key, page) ∷ pages) files k paged (first, sorted) ready =
      let files' = (flush_entry F m key page files).1 in
      let (self, paged', others) =
        flush_entry-IsStep files key page paged (ready key page (inl refl)) in
      let rest = flush_pages-on_disk pages files' k paged' sorted (λ j p i.
        let r = ready j p (inr i) in
        record {
          named = r.named;
          dirty = r.dirty;
          clean = λ c. others j (get_schema j.0 m) (apart key j p pages first i) ∙ r.clean c;
        }) in
      let schema = get_schema k.0 m in
      let found = find-first key page pages k in
      rest ∙ elim (Bool-cases (same_page key k)) [
        | inl e ↦
            let same : key ≡ k = (pair_same_iff key k).0 (same_page-pair key k ∙ e) in
            let gone : find k pages ≡ none =
              subst (λ x. find x pages ≡ none) same (find-before page_order key pages first) in
            ap (λ o. rows_or o (on_disk schema k files')) gone
            ∙ subst (λ x. on_disk (get_schema x.0 m) x files' ≡ page.rows) same self
            ∙ sym (
                ap (λ o. rows_or o (on_disk schema k files))
                  (found ∙ ap (λ b. if b then some page else find k pages) e))
        | inr e ↦
            ap (rows_or (find k pages)) (others k schema e)
            ∙ sym (
                ap (λ o. rows_or o (on_disk schema k files))
                  (found ∙ ap (λ b. if b then some page else find k pages) e))
      ]

  -- Once flush_all has run on a coherent buffer, the file of each table holds for each page, whether it
  -- was in the pool or not, the rows that the page had.
  pub flush_all-durable :
      (k : PageKey)
      → IsCoherent F m
      → on_disk (get_schema k.0 m) k (flush_all F m).files ≡ contents k m
  unfolding flush_all
  flush_all-durable k h =
      flush_pages-on_disk m.buffer_pool m.files k h.paged h.sorted (λ key page i.
        let found = find-IsEntry page_order (key, page) m.buffer_pool h.sorted i in
        record {
          named = h.named key page found;
          dirty = h.dirty key page found;
          clean = h.clean key page found;
        })
