-- ===== src/Storage/Buffer/Entries.antt =====
-- What an entry that is put in the buffer pool keeps (src/storage_manager/buffer_manager.cpp).
use tubes_if3140_sistem_basi.Base.{
  true, false, if◌then◌else◌, some, ◌≡◌, sym, ap, ◌∙◌, Bool-cases, inl, inr, subst,
}
use tubes_if3140_sistem_basi.Base.Key.{text_key, nat_key, pair_key, pair_same_iff}
use tubes_if3140_sistem_basi.Base.Map.{find, put, find-put}
use tubes_if3140_sistem_basi.Base.Order.{put-IsSorted}
use tubes_if3140_sistem_basi.Storage.Page.{BufferPage, Floats}
use tubes_if3140_sistem_basi.Storage.Pool.{PageKey, BufferManager, get_schema}
use tubes_if3140_sistem_basi.Storage.Buffer.Contents.{
  on_disk, rows_or, contents, IsSafe, key_of, same_page,
}
use tubes_if3140_sistem_basi.Storage.Buffer.Coherent.{page_order, same_page-pair, IsCoherent}

module _ (F : Floats) where
  abbrev pub with_entry : PageKey → BufferPage → BufferManager → BufferManager
  with_entry key page m = record m { buffer_pool = put key page m.buffer_pool }

  pub find-entry :
      (m : BufferManager) (key k : PageKey) (page : BufferPage)
      → find k (put key page m.buffer_pool)
        ≡ (if same_page key k then some page else find k m.buffer_pool)
  find-entry m key k page =
      find-put key k page m.buffer_pool
      ∙ ap (λ b. if b then some page else find k m.buffer_pool) (same_page-pair key k)

  -- A page of the pool that has the rows that its key had before.
  pub with_entry-contents :
      (m : BufferManager) (key : PageKey) (page : BufferPage) (k : PageKey)
      → page.rows ≡ contents key m
      → contents k (with_entry key page m) ≡ contents k m
  unfolding get_schema
  with_entry-contents m key page k e =
      let disk = on_disk (get_schema k.0 m) k m.files in
      ap (λ o. rows_or o disk) (find-entry m key k page) ∙ elim (Bool-cases (same_page key k)) [
        | inl f ↦
            let same : key ≡ k = (pair_same_iff key k).0 (same_page-pair key k ∙ f) in
            ap (λ b. rows_or (if b then some page else find k m.buffer_pool) disk) f
            ∙ e
            ∙ ap (λ x. contents x m) same
        | inr f ↦ ap (λ b. rows_or (if b then some page else find k m.buffer_pool) disk) f
      ]

  -- Whatever holds of the new page under its key, and of the others, holds of the pages of the pool.
  with_entry-each :
      (P : PageKey → BufferPage → Type 0) (m : BufferManager) (key : PageKey) (page : BufferPage)
      → P key page
      → ((k : PageKey) (p : BufferPage) → find k m.buffer_pool ≡ some p → P k p)
      → (k : PageKey) (p : BufferPage) → find k (put key page m.buffer_pool) ≡ some p
      → P k p
  with_entry-each P m key page h each k p found = elim (Bool-cases (same_page key k)) [
    | inl e ↦
        let same : key ≡ k = (pair_same_iff key k).0 (same_page-pair key k ∙ e) in
        let chosen : some page ≡ some p =
          ap (λ b. if b then some page else find k m.buffer_pool) (sym e)
          ∙ sym (find-entry m key k page)
          ∙ found in
        let q : page ≡ p = cc in subst (λ x. P x p) same (subst (P key) q h)
    | inr e ↦ each k p (
        ap (λ b. if b then some page else find k m.buffer_pool) (sym e)
        ∙ sym (find-entry m key k page)
        ∙ found)
  ]

  pub with_entry-IsCoherent :
      (m : BufferManager) (key : PageKey) (page : BufferPage)
      → IsCoherent F m
      → key_of page ≡ key
      → (page.is_dirty ≡ true → IsSafe F (get_schema key.0 m) page.rows)
      → (page.is_dirty ≡ false → on_disk (get_schema key.0 m) key m.files ≡ page.rows)
      → IsCoherent F (with_entry key page m)
  unfolding get_schema
  with_entry-IsCoherent m key page h named dirty clean = record {
    paged = h.paged;
    sorted = put-IsSorted page_order key page m.buffer_pool h.sorted;
    named = with_entry-each (λ k p. key_of p ≡ k) m key page named h.named;
    dirty =
        with_entry-each (λ k p. p.is_dirty ≡ true → IsSafe F (get_schema k.0 m) p.rows) m key page
          dirty h.dirty;
    clean =
        with_entry-each (λ k p. p.is_dirty ≡ false → on_disk (get_schema k.0 m) k m.files ≡ p.rows)
          m key page clean h.clean;
  }
