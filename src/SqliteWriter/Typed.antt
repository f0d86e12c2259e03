-- ===== src/SqliteWriter/Typed.antt =====
-- What becomes of the type of a value between `addValue` and `queryT`: the type of the column that
-- is created for it, the overload of `bindPrep`, and the alternative of `outvar_t` that `execPrep`
-- reads.
use sqlitewrite.Base.{◌<◌}
use sqlitewrite.Base.Int.{negsuc}
use sqlitewrite.Base.Lists.{All}
use sqlitewrite.Base.{
  ℕ, ◌/◌, ◌%◌, ◌^◌, ◌≡◌, Bool, true, false, not, ◌&&◌, Option, none, some, List, [], ◌∷◌, ◌==◌, eqb,
  if◌then◌else◌,
}
use sqlitewrite.Base.Int.{ℤ, pos}
use sqlitewrite.Text.{Text, codes, text_eq}
use sqlitewrite.Value.{Var, OutVar}
use sqlitewrite.Sqlite.{Binding, Cell, Column}
use sqlitewrite.MiniSqlite.Statement.{binding}
use sqlitewrite.SqliteWriter.Insert.{Values, column_type, to_arg}

-- Whether the 64 bits of a double stand for no number.
abbrev pub is_nan : ℕ → Bool
is_nan d = eqb (d / 2 ^ 52 % 2 ^ 11) 2047 && not (eqb (d % 2 ^ 52) 0)

-- The integers of `bits` bits and a sign.
abbrev pub IsWithin : ℕ → ℤ → Type 0
IsWithin bits (pos n) = n < 2 ^ bits
IsWithin bits (negsuc n) = n < 2 ^ bits

-- An integer is one of its type.
abbrev pub Fits : Var → Type 0
Fits (Var.int32 z) = IsWithin 31 z
Fits (Var.uint32 n) = n < 2 ^ 32
Fits (Var.int64 z) = IsWithin 63 z
Fits v = Unit

-- What SQLite documents of a column of a STRICT table. `stored type value` is what a column of the
-- declared type has after a bound value was written to it, `none` where the value is refused. `sqlite3_bind_int` takes
-- 32 bits, `sqlite3_bind_int64` 64. A NaN
-- is bound as NULL, and the pointer to a blob without bytes is null.
pub record IsStrict (stored : Text → Binding → Option Cell) : Type 0 where
  pub integers :
      (z : ℤ) → IsWithin 31 z → stored (codes "INT") (Binding.int z) ≡ some (Cell.integer z)
  pub wide_integers :
      (z : ℤ) → IsWithin 63 z → stored (codes "INT") (Binding.int64 z) ≡ some (Cell.integer z)
  pub reals :
      (d : ℕ) → is_nan d ≡ false → stored (codes "REAL") (Binding.double d) ≡ some (Cell.float d)
  pub nans : (d : ℕ) → is_nan d ≡ true → stored (codes "REAL") (Binding.double d) ≡ some Cell.null
  pub texts : (s : Text) → stored (codes "TEXT") (Binding.text s) ≡ some (Cell.text (some s))
  pub blobs :
      (b : ℕ) (bs : List ℕ)
      → stored (codes "BLOB") (Binding.blob (b ∷ bs)) ≡ some (Cell.blob (some (b ∷ bs)))
  pub empty_blob : stored (codes "BLOB") (Binding.zeroblob 0) ≡ some (Cell.blob none)
  pub nulls : (type : Text) → stored type Binding.null ≡ some Cell.null

-- The value that is read back: integers of all widths as 64-bit ones, a NaN as null, all else as
-- it was.
abbrev pub view : Var → OutVar
view (Var.double d) = if is_nan d then OutVar.null else OutVar.double d
view (Var.int32 z) = OutVar.int64 z
view (Var.uint32 n) = OutVar.int64 (pos n)
view (Var.int64 z) = OutVar.int64 z
view (Var.string s) = OutVar.string s
view (Var.blob b) = OutVar.blob b
view Var.null = OutVar.null

-- The value of the last entry with the name, as it is read back, or else `o`.
abbrev pub last_view : Text → Values → Option OutVar → Option OutVar
last_view name [] o = o
last_view name ((other, v) ∷ values) o =
    last_view name values (if name == other then some (view v) else o)

abbrev pub AllFit : Values → Type 0
AllFit = All (λ (_, v). Fits v)

module _ (stored : Text → Binding → Option Cell) where
  -- The columns of the row, each created for its value, as they are after the write.
  abbrev pub Stored : Values → List Column → Type 0
  Stored [] [] = Unit
  Stored [] (c ∷ cs) = ⊥
  Stored (v ∷ values) [] = ⊥
  Stored ((name, v) ∷ values) (c ∷ cs) =
      (c.name ≡ name)
      × (stored (column_type v) (binding (to_arg v)) ≡ some c.cell)
      × Stored values cs
