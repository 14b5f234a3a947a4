-- ===== src/Recovery/Storage.antt =====
-- What the recovery manager asks of the storage engine (include/storage_manager.h), and the redo and
-- the undo of one log entry in src/failure_recovery/failure_recovery.cpp.
use tubes_if3140_sistem_basi.Base.{
  ℕ, ◌^◌, List, [], ◌∷◌, Bool, true, false, ◌&&◌, Option, none, some, ltb, map,
}
use tubes_if3140_sistem_basi.Base.Key.{Text}
use tubes_if3140_sistem_basi.Types.{Row, Condition}
use tubes_if3140_sistem_basi.Recovery.Entry.{
  LogEntry, TableSchema, Operation, begin, commit, abort, update, insert, delete, checkpoint,
  create_table, drop_table,
}

pub record DataWrite : Type 0 where
  pub table : Text
  pub columns : List Text
  pub conditions : List Condition
  pub new_value : Row
  pub is_insert : Bool

pub record DataDeletion : Type 0 where
  pub table : Text
  pub conditions : List Condition

-- The storage engine over its state. A call that throws gives `none` and the state it leaves; the
-- number of rows is an `int`.
pub record StorageEngine {ℓ} (S : Type ℓ) : Type ℓ where
  pub get_table_schema : Text → S → Option TableSchema
  pub row_to_conditions : Row → Text → S → Option (List Condition)
  pub write_block : DataWrite → S → Option ℕ × S
  pub delete_block : DataDeletion → S → Option ℕ × S
  pub create_table : TableSchema → S → Option Bool × S
  pub drop_table : Text → S → Option Bool × S
  pub checkpoint : S → S

-- `n > 0` on `int`; a call that threw gives false.
abbrev pub is_positive : Option ℕ → Bool
is_positive none = false
is_positive (some n) = ltb 0 n && ltb n (2 ^ 31)

-- The answer of a call; a call that threw gives false.
abbrev pub answer : Option Bool → Bool
answer none = false
answer (some b) = b

-- True unless the call threw.
abbrev pub returned {ℓ} : {A : Type ℓ} → Option A → Bool
returned none = false
returned (some a) = true

abbrev pub insert_row : Text → Row → DataWrite
insert_row table row = record {
  table = table;
  columns = [];
  conditions = [];
  new_value = row;
  is_insert = true;
}

-- Every column of the row is written.
abbrev pub update_row : Text → List Condition → Row → DataWrite
update_row table conditions row = record {
  table = table;
  columns = map (λ e. e.0) row.columns;
  conditions = conditions;
  new_value = row;
  is_insert = false;
}

module _ {ℓ} {S : Type ℓ} (engine : StorageEngine S) where
  -- `none` is a throw, and no condition is an error: nothing is done then.
  unfoldable pub on_conditions :
      Option (List Condition) → (List Condition → S → S × Bool) → S → S × Bool
  on_conditions none act s = (s, false)
  on_conditions (some []) act s = (s, false)
  on_conditions (some (c ∷ cs)) act s = act (c ∷ cs) s

  unfoldable pub undo_insert : LogEntry → List Condition → S → S × Bool
  undo_insert e conditions s =
      let call = engine.delete_block record { table = e.table_name; conditions = conditions } s in
      (call.1, is_positive call.0)

  unfoldable pub undo_delete : LogEntry → S → S × Bool
  undo_delete e s =
      let call = engine.write_block (insert_row e.table_name e.old_value) s in
      (call.1, is_positive call.0)

  unfoldable pub undo_update : LogEntry → List Condition → S → S × Bool
  undo_update e conditions s =
      let call = engine.write_block (update_row e.table_name conditions e.old_value) s in
      (call.1, is_positive call.0)

  unfoldable pub undo_drop : Option TableSchema → S → S × Bool
  undo_drop none s = (s, false)
  undo_drop (some schema) s = let call = engine.create_table schema s in (call.1, answer call.0)

  unfoldable pub drop : Text → S → S × Bool
  drop table s = let call = engine.drop_table table s in (call.1, answer call.0)

  unfoldable pub undo : Operation → LogEntry → S → S × Bool
  undo insert e s =
      on_conditions (engine.row_to_conditions e.new_value e.table_name s) (undo_insert e) s
  undo delete e s = undo_delete e s
  undo update e s =
      on_conditions (engine.row_to_conditions e.new_value e.table_name s) (undo_update e) s
  undo create_table e s = drop e.table_name s
  undo drop_table e s = undo_drop e.dropped_schema s
  undo begin e s = (s, false)
  undo commit e s = (s, false)
  undo abort e s = (s, false)
  undo checkpoint e s = (s, false)
  undo (Operation.unlisted n) e s = (s, false)

  unfoldable pub undo_operation : LogEntry → S → S × Bool
  undo_operation e s = undo e.operation e s

  unfoldable pub redo_insert : LogEntry → S → S × Bool
  redo_insert e s =
      let call = engine.write_block (insert_row e.table_name e.new_value) s in
      (call.1, returned call.0)

  unfoldable pub redo_delete : LogEntry → List Condition → S → S × Bool
  redo_delete e conditions s =
      let call = engine.delete_block record { table = e.table_name; conditions = conditions } s in
      (call.1, returned call.0)

  unfoldable pub redo_update : LogEntry → List Condition → S → S × Bool
  redo_update e conditions s =
      let call = engine.write_block (update_row e.table_name conditions e.new_value) s in
      (call.1, returned call.0)

  unfoldable pub redo_create : Option TableSchema → S → S × Bool
  redo_create none s = (s, true)
  redo_create (some schema) s = let call = engine.create_table schema s in (call.1, returned call.0)

  unfoldable pub redo : Operation → LogEntry → S → S × Bool
  redo insert e s = redo_insert e s
  redo delete e s =
      on_conditions (engine.row_to_conditions e.old_value e.table_name s) (redo_delete e) s
  redo update e s =
      on_conditions (engine.row_to_conditions e.new_value e.table_name s) (redo_update e) s
  redo create_table e s = redo_create e.created_schema s
  redo drop_table e s = drop e.table_name s
  redo begin e s = (s, false)
  redo commit e s = (s, false)
  redo abort e s = (s, false)
  redo checkpoint e s = (s, false)
  redo (Operation.unlisted n) e s = (s, false)

  unfoldable pub redo_operation : LogEntry → S → S × Bool
  redo_operation e s = redo e.operation e s
