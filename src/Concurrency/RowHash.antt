-- ===== src/Concurrency/RowHash.antt =====
-- `CCManager::generate_row_hash` of src/concurrency_control/concurrency_control.cpp.
use Prim.Native.Nat.{bit_xor}
use tubes_if3140_sistem_basi.Base.{ℕ, ◌+◌, ◌*◌, ◌/◌, ◌%◌, ◌^◌, [], ◌∷◌, ◌==◌, if◌then◌else◌}
use tubes_if3140_sistem_basi.Base.Key.{Text}
use tubes_if3140_sistem_basi.Base.Map.{Map}
use tubes_if3140_sistem_basi.Types.{Value, empty, int, float, double, text, Row, minus_one}

-- `std::hash` of the standard library, for each type that is hashed.
pub record Hasher : Type 0 where
  pub string_hasher : Text → ℕ
  pub int_hasher : ℕ → ℕ
  pub float_hasher : ℕ → ℕ
  pub double_hasher : ℕ → ℕ

-- `hash ^= v + 0x9e3779b9 + (hash << 6) + (hash >> 2)` on 64 bits.
unfoldable pub mix : ℕ → ℕ → ℕ
mix hash v = bit_xor hash ((v + 0x9e3779b9 + (hash * 64) % 2 ^ 64 + hash / 4) % 2 ^ 64)

module _ (H : Hasher) where
  unfoldable pub mix_value : ℕ → Value → ℕ
  mix_value hash empty = hash
  mix_value hash (int v) = mix hash (H.int_hasher v)
  mix_value hash (text v) = mix hash (H.string_hasher v)
  mix_value hash (double v) = mix hash (H.double_hasher v)
  mix_value hash (float v) = mix hash (H.float_hasher v)

  -- The columns in the order of their names.
  unfoldable pub mix_columns : ℕ → Map Text Value → ℕ
  mix_columns hash [] = hash
  mix_columns hash ((name, value) ∷ rest) =
      mix_columns (mix_value (mix hash (H.string_hasher name)) value) rest

  unfoldable pub generate_row_hash : Row → ℕ
  generate_row_hash row =
      if row.row_id == minus_one
      then mix_columns (H.string_hasher row.table_name) row.columns
      else mix (H.string_hasher row.table_name) (H.int_hasher row.row_id)
