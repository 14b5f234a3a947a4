-- ===== src/Storage/Pool.antt =====
-- The state of `BufferManager` (include/storage_manager.h), its data files, and the page that is evicted
-- next (src/storage_manager/buffer_manager.cpp).
use tubes_if3140_sistem_basi.Base.{
  ℕ, [], ◌∷◌, Bool, ◌&&◌, ltb, ◌==◌, if◌then◌else◌, Option, none, some,
}
use tubes_if3140_sistem_basi.Base.Key.{Text, text_key, nat_key, pair_key}
use tubes_if3140_sistem_basi.Base.Map.{Map, find, put}
use tubes_if3140_sistem_basi.Base.Set.{is_empty}
use tubes_if3140_sistem_basi.Recovery.Entry.{TableSchema}
use tubes_if3140_sistem_basi.Recovery.Codec.{Bytes}
use tubes_if3140_sistem_basi.Storage.Page.{
  page_size, BufferPage, Floats, serialize_rows, resize, put_page, load_page,
}

abbrev pub PageKey : Type 0
PageKey = Text × ℕ

abbrev pub Pages : Type 0
Pages = Map PageKey BufferPage

-- `files` holds the data files by the name of their table.
pub record BufferManager : Type 0 where
  pub capacity : ℕ
  pub buffer_pool : Pages
  pub schema_cache : Map Text TableSchema
  pub files : Map Text Bytes

abbrev pub empty_schema : TableSchema
empty_schema = record {
  table_name = [];
  column_names = [];
  column_types = [];
  column_sizes = [];
  primary_key = [];
  foreign_keys = [];
}

unfoldable pub register_schema : Text → TableSchema → BufferManager → BufferManager
register_schema table_name schema m = record m {
  schema_cache = put table_name schema m.schema_cache;
}

abbrev pub or_empty_schema : Option TableSchema → TableSchema
or_empty_schema none = empty_schema
or_empty_schema (some schema) = schema

unfoldable pub get_schema : Text → BufferManager → TableSchema
get_schema table_name m = or_empty_schema (find table_name m.schema_cache)

-- A file that is not there has no bytes; reading either gives no rows.
abbrev pub or_no_bytes : Option Bytes → Bytes
or_no_bytes none = []
or_no_bytes (some bytes) = bytes

abbrev pub file_of : Text → Map Text Bytes → Bytes
file_of table_name files = or_no_bytes (find table_name files)

unfoldable pub load_page_internal :
    Text → ℕ → BufferPage → TableSchema → Map Text Bytes → BufferPage
load_page_internal table_name page_id page schema files = record page {
  rows = load_page schema page_id (file_of table_name files);
}

module _ (F : Floats) where
  -- Without a schema nothing is written; `none` stands for an exception.
  unfoldable pub flush_page_internal :
      BufferPage → TableSchema → Map Text Bytes → Option (Map Text Bytes)
  flush_page_internal page schema files =
      if is_empty schema.column_names
      then some files
      else elim (serialize_rows F schema page.rows) [
        | none ↦ none
        | some bytes ↦ some (
            put page.table_name
              (put_page page.page_id (resize page_size bytes) (file_of page.table_name files))
              files)
      ]

  -- An exception is caught: the files stay as they are.
  abbrev pub files_or : Map Text Bytes → Option (Map Text Bytes) → Map Text Bytes
  files_or files none = files
  files_or files (some written) = written

  unfoldable pub flush_victim : PageKey → BufferPage → BufferManager → Map Text Bytes
  flush_victim key page m =
      if page.is_dirty
      then files_or m.files (flush_page_internal page (get_schema key.0 m) m.files)
      else m.files

abbrev pub oldest_time : Option (PageKey × BufferPage) → ℕ
oldest_time none = 9223372036854775807
oldest_time (some (key, page)) = page.last_access_time

abbrev pub is_older : BufferPage → Option (PageKey × BufferPage) → Bool
is_older page best = page.pin_count == 0 && ltb page.last_access_time (oldest_time best)

-- The unpinned page that was used longest ago, the first of them in the order of the keys.
unfoldable pub find_victim : Pages → Option (PageKey × BufferPage) → Option (PageKey × BufferPage)
find_victim [] best = best
find_victim ((key, page) ∷ pages) best =
    find_victim pages (if is_older page best then some (key, page) else best)
