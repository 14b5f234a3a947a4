-- ===== src/Storage/Buffer.antt =====
-- The operations of `BufferManager` in src/storage_manager/buffer_manager.cpp. The time of a call is its
-- argument.
pub mod Evict
pub mod Contents
pub mod Coherent
pub mod Entries
pub mod Refinement
pub mod Durable
use tubes_if3140_sistem_basi.Base.{
  ℕ, zero, suc, ◌+◌, ◌-◌, ◌*◌, ◌/◌, List, [], ◌∷◌, ◌++◌, Bool, true, false, not, ◌&&◌, ltb, leb,
  ◌==◌, length, max, if◌then◌else◌, Option, none, some, is_some,
}
use tubes_if3140_sistem_basi.Base.Key.{Text, text_key, text_same, nat_key, pair_key}
use tubes_if3140_sistem_basi.Base.Map
use tubes_if3140_sistem_basi.Base.Map.{Map, find, put, erase}
use tubes_if3140_sistem_basi.Base.Set.{is_empty}
use tubes_if3140_sistem_basi.Types.{Row}
use tubes_if3140_sistem_basi.Recovery.Entry.{TableSchema}
use tubes_if3140_sistem_basi.Recovery.Codec.{Bytes}
use tubes_if3140_sistem_basi.Storage.Page.{
  page_size, BufferPage, Floats, serialize_rows, resize, put_page, load_page,
}
use tubes_if3140_sistem_basi.Storage.Pool.{
  PageKey, Pages, BufferManager, empty_schema, register_schema, or_empty_schema, get_schema,
  or_no_bytes, file_of, load_page_internal, flush_page_internal, files_or, flush_victim,
  oldest_time, is_older, find_victim,
}

abbrev pub fresh_page : Text → ℕ → Bool → ℕ → BufferPage
fresh_page table_name page_id dirty now = record {
  table_name = table_name;
  page_id = page_id;
  rows = [];
  is_dirty = dirty;
  pin_count = 1;
  last_access_time = now;
}

-- The larger of two page ids, where `none` is -1.
abbrev pub larger : Option ℕ → Option ℕ → Option ℕ
larger none b = b
larger (some a) none = some a
larger (some a) (some b) = some (max a b)

unfoldable pub pool_max_page_id : Text → Pages → Option ℕ
pool_max_page_id table_name [] = none
pool_max_page_id table_name ((key, page) ∷ pages) =
    let rest = pool_max_page_id table_name pages in
    if text_same key.0 table_name then larger (some key.1) rest else rest

-- One less, where 0 gives -1.
abbrev pub one_less : ℕ → Option ℕ
one_less zero = none
one_less (suc n) = some n

-- The last page of the file; a page that is not whole counts.
abbrev pub disk_max_page_id : Option Bytes → Option ℕ
disk_max_page_id none = none
disk_max_page_id (some file) = one_less ((length file + (page_size - 1)) / page_size)

unfoldable pub get_max_page_id : Text → BufferManager → Option ℕ
get_max_page_id table_name m =
    larger (pool_max_page_id table_name m.buffer_pool) (disk_max_page_id (find table_name m.files))

abbrev pub whole_max_page_id : Option Bytes → Option ℕ
whole_max_page_id none = none
whole_max_page_id (some file) = one_less (length file / page_size)

abbrev pub one_more : Option ℕ → ℕ
one_more none = 0
one_more (some n) = n + 1

-- The id of a new page; a page of the file that is not whole does not count.
unfoldable pub new_page_id : Text → BufferManager → ℕ
new_page_id table_name m = one_more (
    larger (pool_max_page_id table_name m.buffer_pool)
      (whole_max_page_id (find table_name m.files)))

unfoldable pub unpin : Bool → BufferPage → BufferPage
unpin mark_dirty page = record page {
  pin_count = page.pin_count - 1;
  is_dirty = if mark_dirty then true else page.is_dirty;
}

unfoldable pub unpin_page : Text → ℕ → Bool → BufferManager → BufferManager
unpin_page table_name page_id mark_dirty m = elim (find (table_name, page_id) m.buffer_pool) [
  | none ↦ m
  | some page ↦ record m {
    buffer_pool = put (table_name, page_id) (unpin mark_dirty page) m.buffer_pool;
  }
]

unfoldable pub drop_table_pages : Text → Pages → Pages
drop_table_pages table_name [] = []
drop_table_pages table_name ((key, page) ∷ pages) =
    let rest = drop_table_pages table_name pages in
    if text_same key.0 table_name then rest else (key, page) ∷ rest

unfoldable pub evict_table_without_flush : Text → BufferManager → BufferManager
evict_table_without_flush table_name m = record m {
  buffer_pool = drop_table_pages table_name m.buffer_pool;
  schema_cache = erase table_name m.schema_cache;
}

-- The capacity times 0.8, cut.
unfoldable pub is_near_full : BufferManager → Bool
is_near_full m = leb (m.capacity * 4 / 5) (length m.buffer_pool)

unfoldable pub remove_files : Pages → Map Text Bytes → Map Text Bytes
remove_files [] files = files
remove_files ((key, page) ∷ pages) files = remove_files pages (erase key.0 files)

unfoldable pub clear_buffer : BufferManager → BufferManager
clear_buffer m = record m {
  buffer_pool = [];
  schema_cache = [];
  files = remove_files m.buffer_pool m.files;
}

module _ (F : Floats) where
  -- `none` where all pages are pinned.
  unfoldable pub evict_page : BufferManager → Option BufferManager
  evict_page m = elim (find_victim m.buffer_pool none) [
    | none ↦ none
    | some (key, page) ↦
        some (record m { buffer_pool = erase key m.buffer_pool; files = flush_victim F key page m })
  ]

  unfoldable pub make_room : BufferManager → Option BufferManager
  make_room m = if leb m.capacity (length m.buffer_pool) then evict_page m else some m

  -- The page is then the one under its key.
  unfoldable pub get_page : Text → ℕ → TableSchema → ℕ → BufferManager → Option BufferManager
  get_page table_name page_id schema now m = elim (find (table_name, page_id) m.buffer_pool) [
    | some page ↦ some (record m {
      buffer_pool =
          put (table_name, page_id)
            (record page { pin_count = page.pin_count + 1; last_access_time = now }) m.buffer_pool;
    })
    | none ↦ elim (make_room m) [
      | none ↦ none
      | some room ↦ some (record room {
        buffer_pool =
            put (table_name, page_id)
              (load_page_internal table_name page_id (fresh_page table_name page_id false now)
                schema room.files)
              room.buffer_pool;
      })
    ]
  ]

  unfoldable pub new_page : Text → ℕ → BufferManager → Option BufferManager
  new_page table_name now m = elim (make_room m) [
    | none ↦ none
    | some room ↦ some (record room {
      buffer_pool =
          put (table_name, new_page_id table_name m)
            (fresh_page table_name (new_page_id table_name m) true now) room.buffer_pool;
    })
  ]

  -- A page that is flushed is clean; one that cannot be stays dirty.
  abbrev pub flush_result :
      BufferPage → Map Text Bytes → Option (Map Text Bytes) → BufferPage × Map Text Bytes
  flush_result page files none = (page, files)
  flush_result page files (some written) = (record page { is_dirty = false }, written)

  unfoldable pub flush_entry :
      BufferManager → PageKey → BufferPage → Map Text Bytes → BufferPage × Map Text Bytes
  flush_entry m key page files =
      if page.is_dirty
      then flush_result page files (flush_page_internal F page (get_schema key.0 m) files)
      else (page, files)

  -- The pages, each flushed if it is dirty, and the files.
  unfoldable pub flush_pages : BufferManager → Pages → Map Text Bytes → Pages × Map Text Bytes
  flush_pages m [] files = ([], files)
  flush_pages m ((key, page) ∷ pages) files =
      let flushed = flush_entry m key page files in
      let rest = flush_pages m pages flushed.1 in ((key, flushed.0) ∷ rest.0, rest.1)

  unfoldable pub flush_all : BufferManager → BufferManager
  flush_all m =
      let flushed = flush_pages m m.buffer_pool m.files in
      record m { buffer_pool = flushed.0; files = flushed.1 }

  unfoldable pub checkpoint : BufferManager → BufferManager
  checkpoint m = flush_all m

  -- The page of a key, flushed; `none` stands for an exception.
  unfoldable pub flush_page : Text → ℕ → BufferManager → Option BufferManager
  flush_page table_name page_id m = elim (find (table_name, page_id) m.buffer_pool) [
    | none ↦ some m
    | some page ↦
        if page.is_dirty
        then elim (flush_page_internal F page (get_schema table_name m) m.files) [
          | none ↦ none
          | some files ↦ some (record m {
            buffer_pool =
                put (table_name, page_id) (record page { is_dirty = false }) m.buffer_pool;
            files = files;
          })
        ]
        else some m
  ]
