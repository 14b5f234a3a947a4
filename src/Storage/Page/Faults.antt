-- ===== src/Storage/Page/Faults.antt =====
-- A row that a page loses: src/storage_manager/buffer_manager.cpp.
use tubes_if3140_sistem_basi.Base.{
  ℕ, zero, suc, ◌+◌, List, [], ◌∷◌, ◌++◌, none, some, ◌≡◌, refl, sym, ap, ◌∙◌, length, arith,
  Option-cases, inl, inr,
}
use tubes_if3140_sistem_basi.Base.Key.{Text, text_key}
use tubes_if3140_sistem_basi.Base.Map.{find}
use tubes_if3140_sistem_basi.Base.Strings.{take}
use tubes_if3140_sistem_basi.Types.{Row, int}
use tubes_if3140_sistem_basi.Recovery.Entry.{DataType, integer, TableSchema}
use tubes_if3140_sistem_basi.Recovery.Codec.{Bytes, write_word}
use tubes_if3140_sistem_basi.Storage.Page.{
  Floats, page_size, write_value, write_values, serialize_row_to_buffer, serialize_rows, is_padding,
  read_rows, resize, put_page, load_page,
}
use tubes_if3140_sistem_basi.Storage.Page.Disjoint.{length-resize, page_bytes-put_page}

-- The bytes start with four zeros.
abbrev StartsZero : Bytes → Type 0
StartsZero bytes = (rest : Bytes) × (bytes ≡ 0 ∷ 0 ∷ 0 ∷ 0 ∷ rest)

some-inj : (xs ys : Bytes) → some xs ≡ some ys → xs ≡ ys
some-inj xs ys h = cc

sizes : page_size ≡ 4092 + 4
unfolding page_size
sizes = refl

module _ (F : Floats) where
  write_values-zero :
      (name : Text) (names : List Text) (types : List DataType) (row : Row) (bytes : Bytes)
      → find name row.columns ≡ some (int 0)
      → write_values F (name ∷ names) (integer ∷ types) row.columns ≡ some bytes
      → StartsZero bytes
  unfolding write_values write_value write_word
  write_values-zero name names types row bytes found written =
      elim (Option-cases (write_values F names types row.columns)) [
        | inl missing ↦
            let whole : write_values F (name ∷ names) (integer ∷ types) row.columns ≡ none =
              rw (found, write_values, missing) refl in
            let no : none ≡ some bytes = sym whole ∙ written in cc
        | inr (back, others) ↦
            let whole : write_values F (name ∷ names) (integer ∷ types) row.columns
                ≡ some (0 ∷ 0 ∷ 0 ∷ 0 ∷ back) =
              rw (found, write_values, others) refl in
            let same : some (0 ∷ 0 ∷ 0 ∷ 0 ∷ back) ≡ some bytes = sym whole ∙ written in
            (back, sym (some-inj (0 ∷ 0 ∷ 0 ∷ 0 ∷ back) bytes same))
      ]

  read_rows-zero :
      (fuel : ℕ) (schema : TableSchema) (rest : Bytes)
      → read_rows fuel schema (0 ∷ 0 ∷ 0 ∷ 0 ∷ rest) ≡ []
  unfolding read_rows is_padding take
  read_rows-zero zero schema rest = refl
  read_rows-zero (suc fuel) schema rest = refl

  resize-zero :
      (n : ℕ) (rest : Bytes) → resize (n + 4) (0 ∷ 0 ∷ 0 ∷ 0 ∷ rest) ≡ 0 ∷ 0 ∷ 0 ∷ 0 ∷ resize n rest
  unfolding resize
  resize-zero n rest = let e : n + 4 ≡ suc (suc (suc (suc n))) = omega arith in rw e refl

  load-zero :
      (schema : TableSchema) (page_id : ℕ) (bytes file : Bytes)
      → StartsZero bytes
      → load_page schema page_id (put_page page_id (resize page_size bytes) file) ≡ []
  unfolding load_page
  load-zero schema page_id bytes file (rest, e) =
      let size : page_size ≡ 4092 + 4 = sizes in
      let start : resize page_size bytes ≡ 0 ∷ 0 ∷ 0 ∷ 0 ∷ resize 4092 rest =
        ap (λ n. resize n bytes) size ∙ ap (resize (4092 + 4)) e ∙ resize-zero 4092 rest in
      rw
        (
          page_bytes-put_page page_id (resize page_size bytes) file (length-resize page_size bytes),
          start,
        )
        (read_rows-zero (length (0 ∷ 0 ∷ 0 ∷ 0 ∷ resize 4092 rest)) schema (resize 4092 rest))

  rows-zero :
      (schema : TableSchema) (name : Text) (names : List Text) (types : List DataType) (row : Row)
      (rows : List Row) (bytes : Bytes)
      → schema.column_names ≡ name ∷ names
      → schema.column_types ≡ integer ∷ types
      → find name row.columns ≡ some (int 0)
      → serialize_rows F schema (row ∷ rows) ≡ some bytes
      → StartsZero bytes
  unfolding serialize_rows serialize_row_to_buffer
  rows-zero schema name names types row rows bytes cs ts found written =
      elim (Option-cases (write_values F schema.column_names schema.column_types row.columns)) [
        | inl missing ↦
            let whole : serialize_rows F schema (row ∷ rows) ≡ none =
              rw (missing, serialize_rows) refl in
            let no : none ≡ some bytes = sym whole ∙ written in cc
        | inr (front, ok) ↦
            let first : write_values F (name ∷ names) (integer ∷ types) row.columns ≡ some front =
              rw⁻¹ (cs, ts) ok in
            let (rest, e) = write_values-zero name names types row front found first in
            elim (Option-cases (serialize_rows F schema rows)) [
              | inl missing ↦
                  let whole : serialize_rows F schema (row ∷ rows) ≡ none =
                    rw (ok, serialize_rows, missing) refl in
                  let no : none ≡ some bytes = sym whole ∙ written in cc
              | inr (back, others) ↦
                  let whole : serialize_rows F schema (row ∷ rows) ≡ some (front ++ back) =
                    rw (ok, serialize_rows, others) refl in
                  (
                    rest ++ back,
                    sym (some-inj (front ++ back) bytes (sym whole ∙ written))
                        ∙ ap (λ s. s ++ back) e,
                  )
            ]
      ]

  -- Once a page is written whose first row has 0 in its first column, an INTEGER one, the page reads as
  -- empty: the row and all the rows behind it are lost.
  pub load_page-zero :
      (schema : TableSchema) (page_id : ℕ) (name : Text) (names : List Text) (types : List DataType)
      (row : Row) (rows : List Row) (bytes file : Bytes)
      → schema.column_names ≡ name ∷ names
      → schema.column_types ≡ integer ∷ types
      → find name row.columns ≡ some (int 0)
      → serialize_rows F schema (row ∷ rows) ≡ some bytes
      → load_page schema page_id (put_page page_id (resize page_size bytes) file) ≡ []
  load_page-zero schema page_id name names types row rows bytes file cs ts found written =
      load-zero schema page_id bytes file
        (rows-zero schema name names types row rows bytes cs ts found written)
