-- ===== src/Storage/Page/Loading.antt =====
-- A page that is written and loaded again: src/storage_manager/buffer_manager.cpp.
use mathlib.Core.List.{append_assoc}
use tubes_if3140_sistem_basi.Base.{
  ℕ, zero, suc, ◌-◌, ◌≤◌, List, [], ◌∷◌, ◌++◌, true, false, ltb, some, ◌≡◌, refl, sym, ap, ◌∙◌, map,
  All, length, length-append, arith,
}
use tubes_if3140_sistem_basi.Base.Set.{is_empty}
use tubes_if3140_sistem_basi.Base.Strings.{take}
use tubes_if3140_sistem_basi.Types.{Row, empty_row}
use tubes_if3140_sistem_basi.Recovery.Entry.{TableSchema}
use tubes_if3140_sistem_basi.Recovery.Codec.{Bytes}
use tubes_if3140_sistem_basi.Recovery.Codec.RoundTrip.{Reads, map-Reads}
use tubes_if3140_sistem_basi.Storage.Page.{
  Floats, page_size, serialize_row_to_buffer, serialize_rows, read_values,
  deserialize_row_from_buffer, is_padding, read_rows, resize, put_page, load_page,
}
use tubes_if3140_sistem_basi.Storage.Page.Disjoint.{
  zeros, resize-short, length-resize, page_bytes-put_page,
}
use tubes_if3140_sistem_basi.Storage.Page.RoundTrip.{
  Holds, stored, stored_columns, write_values-read,
}

-- Bytes that the loop takes for a row: at least four, and not all of the first four zero.
abbrev pub IsMarked : Bytes → Type 0
IsMarked bytes = (4 ≤ length bytes) × (is_padding bytes ≡ false)

is_padding-append :
    (bytes rest : Bytes) → 4 ≤ length bytes → is_padding (bytes ++ rest) ≡ is_padding bytes
unfolding is_padding take
is_padding-append [] rest h = absurd (omega arith)
is_padding-append (a ∷ []) rest h = absurd (omega arith)
is_padding-append (a ∷ b ∷ []) rest h = absurd (omega arith)
is_padding-append (a ∷ b ∷ c ∷ []) rest h = absurd (omega arith)
is_padding-append (a ∷ b ∷ c ∷ d ∷ bytes) rest h = refl

read_rows-step :
    (fuel : ℕ) (schema : TableSchema) (bytes rest : Bytes) (row : Row)
    → IsMarked bytes
    → Reads (deserialize_row_from_buffer schema) bytes row
    → is_empty row.columns ≡ false
    → read_rows (suc fuel) schema (bytes ++ rest) ≡ row ∷ read_rows fuel schema rest
unfolding read_rows
read_rows-step fuel schema [] rest row h reads e = absurd (omega (arith, h.0))
read_rows-step fuel schema (b ∷ bytes) rest row h reads e =
    let long : ltb (length (b ∷ bytes ++ rest)) 4 ≡ false =
      ground (arith, h.0, length-append bytes rest) in
    rw (is_padding-append (b ∷ bytes) rest h.0, h.1, long, reads rest, e) refl

is_padding-zeros : (n : ℕ) → is_padding (zeros n) ≡ true
unfolding is_padding take resize
is_padding-zeros zero = refl
is_padding-zeros (suc zero) = refl
is_padding-zeros (suc (suc zero)) = refl
is_padding-zeros (suc (suc (suc zero))) = refl
is_padding-zeros (suc (suc (suc (suc n)))) = refl

pub read_rows-zeros : (fuel n : ℕ) (schema : TableSchema) → read_rows fuel schema (zeros n) ≡ []
unfolding read_rows resize
read_rows-zeros zero n schema = refl
read_rows-zeros (suc fuel) zero schema = refl
read_rows-zeros (suc fuel) (suc n) schema = rw (is_padding-zeros (suc n)) refl

some-inj : (xs ys : Bytes) → some xs ≡ some ys → xs ≡ ys
some-inj xs ys h = cc

module _ (F : Floats) (schema : TableSchema) where
  -- A row that a page keeps: its values fit, and its first four bytes are not all zero.
  pub record IsLoadable (row : Row) : Type 0 where
    pub holds : Holds F schema.column_names schema.column_types row.columns
    pub marked :
        (bytes : Bytes) → serialize_row_to_buffer F schema row ≡ some bytes → IsMarked bytes
    pub visible : is_empty (stored F schema row).columns ≡ false

  row-read :
      (row : Row)
      → IsLoadable row
      → (bytes : Bytes) × (serialize_row_to_buffer F schema row ≡ some bytes)
        × Reads (deserialize_row_from_buffer schema) bytes (stored F schema row)
  unfolding serialize_row_to_buffer deserialize_row_from_buffer
  row-read row h =
      let (bytes, written, reads) =
        write_values-read F schema.column_names schema.column_types row.columns h.holds in
      (
        bytes,
        written,
        map-Reads (read_values schema.column_names schema.column_types [])
            (λ columns. record empty_row { table_name = schema.table_name; columns = columns })
            bytes (stored_columns F schema.column_names schema.column_types row.columns [])
            (reads []),
      )

  pub rows-read :
      (rows : List Row)
      → All IsLoadable rows
      → (bytes : Bytes) × (serialize_rows F schema rows ≡ some bytes)
        × ((fuel k : ℕ)
            → length bytes ≤ fuel
            → read_rows fuel schema (bytes ++ zeros k) ≡ map (stored F schema) rows)
  unfolding serialize_rows
  rows-read [] h = ([], refl, λ fuel k l. read_rows-zeros fuel k schema)
  rows-read (row ∷ rows) (h, hs) =
      let (front, written, reads) = row-read row h in
      let (back, others, loads) = rows-read rows hs in
      let marked : IsMarked front = h.marked front written in
      (
        front ++ back,
        rw (written, serialize_rows, others) refl,
        λ fuel k l. row_first front back row rows marked reads h.visible loads fuel k l,
      )
    where
      row_first :
          (front back : Bytes) (row : Row) (rows : List Row)
          → IsMarked front
          → Reads (deserialize_row_from_buffer schema) front (stored F schema row)
          → is_empty (stored F schema row).columns ≡ false
          → ((fuel k : ℕ)
              → length back ≤ fuel
              → read_rows fuel schema (back ++ zeros k) ≡ map (stored F schema) rows)
          → (fuel k : ℕ) → length (front ++ back) ≤ fuel
          → read_rows fuel schema ((front ++ back) ++ zeros k) ≡ map (stored F schema) (row ∷ rows)
      row_first front back row rows marked reads visible loads zero k l =
          absurd (omega (arith, marked.0, length-append front back))
      row_first front back row rows marked reads visible loads (suc fuel) k l =
          let shorter : length back ≤ fuel = omega (arith, marked.0, length-append front back) in
          ap (λ bytes. read_rows (suc fuel) schema bytes) (append_assoc front back (zeros k))
          ∙ read_rows-step fuel schema front (back ++ zeros k) (stored F schema row) marked reads
              visible
          ∙ ap (λ rest. stored F schema row ∷ rest) (loads fuel k shorter)

  -- Rows that a page keeps, which take no more bytes than a page has, are read back from a page that is
  -- written with them, wherever it stands in whatever file: in their order, each with the schema's
  -- columns, a double in a FLOAT column as a float.
  pub load_page-put_page :
      (page_id : ℕ) (rows : List Row) (bytes file : Bytes)
      → All IsLoadable rows
      → serialize_rows F schema rows ≡ some bytes
      → length bytes ≤ page_size
      → load_page schema page_id (put_page page_id (resize page_size bytes) file)
        ≡ map (stored F schema) rows
  unfolding load_page
  load_page-put_page page_id rows bytes file h written short =
      let (found, same, loads) = rows-read rows h in
      let e : found ≡ bytes = some-inj found bytes (sym same ∙ written) in
      rw
        (
          page_bytes-put_page page_id (resize page_size bytes) file (length-resize page_size bytes),
          length-resize page_size bytes,
          resize-short page_size bytes short,
          sym e,
        )
        (loads page_size (page_size - length found) (rw e short))
