-- ===== src/Concurrency/Access.antt =====
-- Granted accesses and their conflicts, the vocabulary in which the protocols are specified.
use tubes_if3140_sistem_basi.Base.{ℕ, List, Bool, true, false, ◌==◌, ◌&&◌}
use tubes_if3140_sistem_basi.Types.{Action, read, write}

-- Transaction `tid` was allowed to read or write the record with the hash `object`.
pub record Access : Type 0 where
  pub tid : ℕ
  pub object : ℕ
  pub action : Action

-- Two actions on one record conflict unless both read.
abbrev pub clash : Action → Action → Bool
clash read read = false
clash read write = true
clash write a = true

abbrev pub conflicts : Access → Access → Bool
conflicts a b = a.object == b.object && clash a.action b.action

-- A history, its latest access first.
abbrev pub History : Type 0
History = List Access
