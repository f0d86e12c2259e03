-- ===== src/Value.antt =====
-- The values that are written and read: `SQLiteWriter::var_t`, the overloads of
-- `MiniSQLite::bindPrep`, and `MiniSQLite::outvar_t`.
-- A `double` is only handed through: it is given by the 64 bits of its representation.
use sqlitewrite.Base.{ℕ, List}
use sqlitewrite.Base.Int.{ℤ}
use sqlitewrite.Text.{Text}

-- `var_t` (sqlwriter.hh)
pub data Var : Type 0 where
  double : ℕ → Var
  int32 : ℤ → Var
  uint32 : ℕ → Var
  int64 : ℤ → Var
  string : Text → Var
  blob : List ℕ → Var
  null : Var

-- `outvar_t` (sqlwriter.hh)
pub data OutVar : Type 0 where
  double : ℕ → OutVar
  int64 : ℤ → OutVar
  string : Text → OutVar
  blob : List ℕ → OutVar
  null : OutVar
