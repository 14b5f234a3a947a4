-- ===== src/Storage/Buffer/Coherent.antt =====
-- The buffer pool as a cache of the data files: what an eviction keeps
-- (src/storage_manager/buffer_manager.cpp).
use tubes_if3140_sistem_basi.Base.{
  ℕ, true, false, if◌then◌else◌, none, some, ◌≡◌, refl, sym, ap, ◌∙◌, Bool-cases, inl, inr, subst,
}
use tubes_if3140_sistem_basi.Base.Key.{Text, text_key, nat_key, pair_key, pair_same, pair_same_iff}
use tubes_if3140_sistem_basi.Base.Map.{Map, find, erase, find-erase}
use tubes_if3140_sistem_basi.Base.Order.{
  IsOrder, nat_key-IsOrder, text_key-IsOrder, pair_key-IsOrder, IsSorted, erase-IsSorted,
}
use tubes_if3140_sistem_basi.Recovery.Codec.{Bytes}
use tubes_if3140_sistem_basi.Recovery.Entry.{TableSchema}
use tubes_if3140_sistem_basi.Storage.Page.{BufferPage, Floats}
use tubes_if3140_sistem_basi.Storage.Pool.{
  PageKey, BufferManager, get_schema, flush_page_internal, files_or, flush_victim,
}
use tubes_if3140_sistem_basi.Storage.Buffer.Contents.{
  on_disk, rows_or, contents, IsSafe, key_of, ArePaged, same_page, flush_page_internal-IsFlushed,
}

pub page_order : IsOrder (pair_key {A = Text} {B = ℕ})
page_order = pair_key-IsOrder text_key-IsOrder nat_key-IsOrder

pub same_page-pair : (a b : PageKey) → pair_same a b ≡ same_page a b
unfolding pair_same
same_page-pair a b = refl

-- The files have whole pages; the pool is in order; a page stands under its key; a dirty page can be
-- written, and a clean one is as in its file.
pub record IsCoherent (F : Floats) (m : BufferManager) : Type 0 where
  pub paged : ArePaged m.files
  pub sorted : IsSorted page_order m.buffer_pool
  pub named :
      (key : PageKey) (page : BufferPage) → find key m.buffer_pool ≡ some page → key_of page ≡ key
  pub dirty :
      (key : PageKey) (page : BufferPage)
      → find key m.buffer_pool ≡ some page
      → page.is_dirty ≡ true
      → IsSafe F (get_schema key.0 m) page.rows
  pub clean :
      (key : PageKey) (page : BufferPage)
      → find key m.buffer_pool ≡ some page
      → page.is_dirty ≡ false
      → on_disk (get_schema key.0 m) key m.files ≡ page.rows

-- Files in which a page is as in the pool, and the others as before.
abbrev IsWritten : BufferManager → PageKey → BufferPage → Map Text Bytes → Type 0
IsWritten m key page files' =
    (on_disk (get_schema key.0 m) key files' ≡ page.rows)
    × ArePaged files'
    × ((other : PageKey) (s : TableSchema)
        → same_page key other ≡ false
        → on_disk s other files' ≡ on_disk s other m.files)

module _ (F : Floats) where
  flush_victim-dirty :
      (m : BufferManager) (key : PageKey) (page : BufferPage) (files' : Map Text Bytes)
      → page.is_dirty ≡ true
      → flush_page_internal F page (get_schema key.0 m) m.files ≡ some files'
      → flush_victim F key page m ≡ files'
  unfolding flush_victim
  flush_victim-dirty m key page files' d e =
      let flushed = flush_page_internal F page (get_schema key.0 m) m.files in
      ap (λ b. if b then files_or F m.files flushed else m.files) d ∙ ap (files_or F m.files) e

  flush_victim-clean :
      (m : BufferManager) (key : PageKey) (page : BufferPage)
      → page.is_dirty ≡ false
      → flush_victim F key page m ≡ m.files
  unfolding flush_victim
  flush_victim-clean m key page c =
      let flushed = flush_page_internal F page (get_schema key.0 m) m.files in
      ap (λ b. if b then files_or F m.files flushed else m.files) c

  flush_victim-IsWritten :
      (m : BufferManager) (key : PageKey) (page : BufferPage)
      → IsCoherent F m
      → find key m.buffer_pool ≡ some page
      → IsWritten m key page (flush_victim F key page m)
  flush_victim-IsWritten m key page h found = elim (Bool-cases page.is_dirty) [
    | inl d ↦
        let schema = get_schema key.0 m in
        let (files', e, flushed) =
          flush_page_internal-IsFlushed F schema page m.files (h.dirty key page found d) h.paged in
        subst (IsWritten m key page) (sym (flush_victim-dirty m key page files' d e)) (
          subst
            (λ k.
              (on_disk schema k files' ≡ page.rows)
              × ArePaged files'
              × ((other : PageKey) (s : TableSchema)
                  → same_page k other ≡ false
                  → on_disk s other files' ≡ on_disk s other m.files))
            (h.named key page found) flushed)
    | inr c ↦
        subst (IsWritten m key page) (sym (flush_victim-clean m key page c))
          (h.clean key page found c, h.paged, λ other s d. refl)
  ]

  abbrev pub evicted : PageKey → BufferPage → BufferManager → BufferManager
  evicted key page m = record m {
    buffer_pool = erase key m.buffer_pool;
    files = flush_victim F key page m;
  }

  pub find-evicted :
      (m : BufferManager) (key k : PageKey)
      → find k (erase key m.buffer_pool) ≡ (if same_page key k then none else find k m.buffer_pool)
  find-evicted m key k =
      find-erase key k m.buffer_pool
      ∙ ap (λ b. if b then none else find k m.buffer_pool) (same_page-pair key k)

  pub evicted-contents :
      (m : BufferManager) (key : PageKey) (page : BufferPage) (k : PageKey)
      → IsCoherent F m
      → find key m.buffer_pool ≡ some page
      → contents k (evicted key page m) ≡ contents k m
  unfolding get_schema
  evicted-contents m key page k h found =
      let (self, paged, others) = flush_victim-IsWritten m key page h found in
      let disk = on_disk (get_schema k.0 m) k (flush_victim F key page m) in
      ap (λ o. rows_or o disk) (find-evicted m key k) ∙ elim (Bool-cases (same_page key k)) [
        | inl e ↦
            let same : key ≡ k = (pair_same_iff key k).0 (same_page-pair key k ∙ e) in
            ap (λ b. rows_or (if b then none else find k m.buffer_pool) disk) e
            ∙ subst
                (λ x.
                  on_disk (get_schema x.0 m) x (flush_victim F key page m)
                  ≡ rows_or (find x m.buffer_pool) (on_disk (get_schema x.0 m) x m.files))
                same
                (self ∙ sym (ap (λ o. rows_or o (on_disk (get_schema key.0 m) key m.files)) found))
        | inr e ↦
            ap (λ b. rows_or (if b then none else find k m.buffer_pool) disk) e
            ∙ ap (rows_or (find k m.buffer_pool)) (others k (get_schema k.0 m) e)
      ]

  evicted-other :
      (m : BufferManager) (key k : PageKey) (p : BufferPage)
      → find k (erase key m.buffer_pool) ≡ some p
      → (same_page key k ≡ false) × (find k m.buffer_pool ≡ some p)
  evicted-other m key k p found = elim (Bool-cases (same_page key k)) [
    | inl e ↦
        let gone : find k (erase key m.buffer_pool) ≡ none =
          find-evicted m key k ∙ ap (λ b. if b then none else find k m.buffer_pool) e in
        cc
    | inr e ↦ (
      e,
      ap (λ b. if b then none else find k m.buffer_pool) (sym e)
          ∙ sym (find-evicted m key k)
          ∙ found,
    )
  ]

  pub evicted-IsCoherent :
      (m : BufferManager) (key : PageKey) (page : BufferPage)
      → IsCoherent F m
      → find key m.buffer_pool ≡ some page
      → IsCoherent F (evicted key page m)
  unfolding get_schema
  evicted-IsCoherent m key page h found =
      let (self, paged, others) = flush_victim-IsWritten m key page h found in
      record {
        paged = paged;
        sorted = erase-IsSorted page_order key m.buffer_pool h.sorted;
        named = λ k p there. h.named k p (evicted-other m key k p there).1;
        dirty = λ k p there d. h.dirty k p (evicted-other m key k p there).1 d;
        clean = λ k p there c.
            others k (get_schema k.0 m) (evicted-other m key k p there).0
            ∙ h.clean k p (evicted-other m key k p there).1 c;
      }
