-- ===== src/Storage/Buffer/Contents.antt =====
-- What the pages of the buffer pool and of the data files hold, and what writing a page to its file keeps
-- of the others: src/storage_manager/buffer_manager.cpp.
use tubes_if3140_sistem_basi.Base.{
  ℕ, ◌≤◌, List, Bool, false, ◌&&◌, ◌==◌, Option, none, some, ◌≡◌, ◌≢◌, refl, sym, ap, ◌∙◌, All,
  Bool-cases, inl, inr, arith, map, length,
}
use tubes_if3140_sistem_basi.Base.Key.{Text, text_key, nat_key, pair_key, text_same, text_same_iff}
use tubes_if3140_sistem_basi.Base.Map.{Map, find, put, find-put}
use tubes_if3140_sistem_basi.Base.Set.{is_empty}
use tubes_if3140_sistem_basi.Types.{Row}
use tubes_if3140_sistem_basi.Recovery.Entry.{TableSchema}
use tubes_if3140_sistem_basi.Recovery.Codec.{Bytes}
use tubes_if3140_sistem_basi.Storage.Page.{
  BufferPage, Floats, page_size, serialize_rows, resize, put_page, load_page,
}
use tubes_if3140_sistem_basi.Storage.Page.Disjoint.{
  IsPaged, page_bytes-other, put_page-IsPaged, length-resize, zeros,
}
use tubes_if3140_sistem_basi.Storage.Page.RoundTrip.{stored}
use tubes_if3140_sistem_basi.Storage.Page.Loading.{
  IsLoadable, rows-read, load_page-put_page, read_rows-zeros,
}
use tubes_if3140_sistem_basi.Storage.Pool.{
  PageKey, BufferManager, get_schema, file_of, flush_page_internal,
}

-- The rows of a page in its file.
abbrev pub on_disk : TableSchema → PageKey → Map Text Bytes → List Row
on_disk schema key files = load_page schema key.1 (file_of key.0 files)

abbrev pub rows_or : Option BufferPage → List Row → List Row
rows_or none rows = rows
rows_or (some page) rows = page.rows

-- The rows of a page: those in the pool, or else those in the file.
abbrev pub contents : PageKey → BufferManager → List Row
contents key m = rows_or (find key m.buffer_pool) (on_disk (get_schema key.0 m) key m.files)

-- A page that its file can keep: the schema has columns, each row is one that is read back as it is, and
-- they need no more bytes than a page has.
abbrev pub IsSafe : Floats → TableSchema → List Row → Type 0
IsSafe F schema rows =
    (is_empty schema.column_names ≡ false)
    × All (IsLoadable F schema) rows
    × (map (stored F schema) rows ≡ rows)
    × ((bytes : Bytes) → serialize_rows F schema rows ≡ some bytes → length bytes ≤ page_size)

abbrev pub key_of : BufferPage → PageKey
key_of page = (page.table_name, page.page_id)

abbrev pub ArePaged : Map Text Bytes → Type 0
ArePaged files = (table : Text) → IsPaged (file_of table files)

abbrev pub same_page : PageKey → PageKey → Bool
same_page a b = text_same a.0 b.0 && (a.1 == b.1)

load_page-other :
    (schema : TableSchema) (i j : ℕ) (bytes file : Bytes)
    → i ≢ j
    → length bytes ≡ page_size
    → IsPaged file
    → load_page schema i (put_page j bytes file) ≡ load_page schema i file
unfolding load_page resize
load_page-other schema i j bytes file h l paged = elim (page_bytes-other i j bytes file h l paged) [
  | inl (before, after) ↦
      rw (before, after)
        (read_rows-zeros (length (zeros page_size)) page_size schema
          ∙ sym (read_rows-zeros 0 0 schema))
  | inr same ↦ rw same refl
]

-- The files with one page written.
abbrev pub with_page : PageKey → Bytes → Map Text Bytes → Map Text Bytes
with_page key bytes files = put key.0 (put_page key.1 bytes (file_of key.0 files)) files

with_page-other :
    (schema : TableSchema) (key other : PageKey) (bytes : Bytes) (files : Map Text Bytes)
    → same_page key other ≡ false
    → length bytes ≡ page_size
    → ArePaged files
    → on_disk schema other (with_page key bytes files) ≡ on_disk schema other files
with_page-other schema key other bytes files d l paged =
    elim (Bool-cases (text_same key.0 other.0)) [
      | inl same ↦
          let e : key.0 ≡ other.0 = (text_same_iff key.0 other.0).0 same in
          let apart : other.1 ≢ key.1 = ground (arith, d, same) in
          rw (find-put key.0 other.0 (put_page key.1 bytes (file_of key.0 files)) files, same)
            (load_page-other schema other.1 key.1 bytes (file_of key.0 files) apart l (paged key.0)
              ∙ ap (λ table. load_page schema other.1 (file_of table files)) e)
      | inr different ↦
          rw (find-put key.0 other.0 (put_page key.1 bytes (file_of key.0 files)) files, different)
            refl
    ]

with_page-ArePaged :
    (key : PageKey) (bytes : Bytes) (files : Map Text Bytes)
    → length bytes ≡ page_size
    → ArePaged files
    → ArePaged (with_page key bytes files)
with_page-ArePaged key bytes files l paged table = elim (Bool-cases (text_same key.0 table)) [
  | inl same ↦
      rw (find-put key.0 table (put_page key.1 bytes (file_of key.0 files)) files, same)
        (put_page-IsPaged key.1 bytes (file_of key.0 files) l (paged key.0))
  | inr different ↦
      rw (find-put key.0 table (put_page key.1 bytes (file_of key.0 files)) files, different)
        (paged table)
]

with_page_self :
    (schema : TableSchema) (key : PageKey) (bytes : Bytes) (files : Map Text Bytes)
    → on_disk schema key (with_page key bytes files)
      ≡ load_page schema key.1 (put_page key.1 bytes (file_of key.0 files))
with_page_self schema key bytes files =
    rw
      (
        find-put key.0 key.0 (put_page key.1 bytes (file_of key.0 files)) files,
        (text_same_iff key.0 key.0).1 refl,
      )
      refl

-- The files once a page is written: it is read back, and no other page changes.
abbrev pub IsFlushed : Floats → TableSchema → BufferPage → Map Text Bytes → Map Text Bytes → Type 0
IsFlushed F schema page files files' =
    (on_disk schema (key_of page) files' ≡ page.rows)
    × ArePaged files'
    × ((other : PageKey) (s : TableSchema)
        → same_page (key_of page) other ≡ false
        → on_disk s other files' ≡ on_disk s other files)

module _ (F : Floats) where
  -- A page that its file can keep is written without an exception.
  pub flush_page_internal-IsFlushed :
      (schema : TableSchema) (page : BufferPage) (files : Map Text Bytes)
      → IsSafe F schema page.rows
      → ArePaged files
      → (files' : Map Text Bytes) × (flush_page_internal F page schema files ≡ some files')
        × IsFlushed F schema page files files'
  unfolding flush_page_internal
  flush_page_internal-IsFlushed schema page files (columns, loadable, settled, short) paged =
      let (bytes, written, loads) = rows-read F schema page.rows loadable in
      let written_page = resize page_size bytes in
      let whole : length written_page ≡ page_size = length-resize page_size bytes in
      (
        with_page (key_of page) written_page files,
        rw (columns, written, flush_page_internal) refl,
        (
          with_page_self schema (key_of page) written_page files
              ∙ load_page-put_page F schema page.page_id page.rows bytes
                  (file_of page.table_name files) loadable written (short bytes written)
              ∙ settled,
          with_page-ArePaged (key_of page) written_page files whole paged,
          λ other s d. with_page-other s (key_of page) other written_page files d whole paged,
        ),
      )
