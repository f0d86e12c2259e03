-- ===== src/MiniSqlite/Statement.antt =====
-- Prepared statements: `isPrepared`, `prepare`, `bindPrep` and `execPrep` of `MiniSQLite`.
use sqlitewrite.Base.{
  ℕ, ◌+◌, ◌-◌, ◌%◌, ◌^◌, Bool, true, false, Option, none, some, List, [], ◌∷◌, ◌++◌, eqb, ltb,
  if◌then◌else◌,
}
use sqlitewrite.Base.Int.{ℤ, pos, negsuc}
use sqlitewrite.Base.Exec.{Exec, runtime_error, pure, raise, gets, modify, ◌>>=◌, ◌>>◌}
use sqlitewrite.Text.{Text, codes}
use sqlitewrite.Text.Dict.{Dict, lookup, insert}
use sqlitewrite.Text.Decimal.{to_string}
use sqlitewrite.Value.{OutVar}
use sqlitewrite.Sqlite.{Stmt, Binding, Status, Call, Cell, Column, Steps, PrepareReply, Engine}
use sqlitewrite.MiniSqlite.Db.{Db, send, ask, stmt_of}
use sqlitewrite.MiniSqlite.Deadline.{deadline_start, deadline_stop}

unfoldable pub is_prepared : Text → Db → Bool
is_prepared table db = elim (lookup table db.stmts) [
  | none ↦ false
  | some p ↦ elim p [ none ↦ false | some stmt ↦ true ]
]

-- The argument of `bindPrep`, by overload.
pub data Arg : Type 0 where
  bool : Bool → Arg
  int : ℤ → Arg
  uint32 : ℕ → Arg
  long : ℤ → Arg
  unsigned_long : ℕ → Arg
  long_long : ℤ → Arg
  unsigned_long_long : ℕ → Arg
  double : ℕ → Arg
  null : Arg
  string : Text → Arg
  blob : List ℕ → Arg

-- The conversion of a 64-bit unsigned number to `sqlite3_int64`.
abbrev pub to_int64 : ℕ → ℤ
to_int64 n = if ltb n (2 ^ 63) then pos n else negsuc (2 ^ 64 - 1 - n)

abbrev pub binding : Arg → Binding
binding (Arg.bool b) = Binding.int (if b then pos 1 else pos 0)
binding (Arg.int z) = Binding.int z
binding (Arg.uint32 n) = Binding.int64 (pos n)
binding (Arg.long z) = Binding.int64 z
binding (Arg.unsigned_long n) = Binding.int64 (to_int64 n)
binding (Arg.long_long z) = Binding.int64 z
binding (Arg.unsigned_long_long n) = Binding.int64 (to_int64 n)
binding (Arg.double d) = Binding.double d
binding Arg.null = Binding.null
binding (Arg.string s) = Binding.text s
binding (Arg.blob []) = Binding.zeroblob 0
binding (Arg.blob (b ∷ bs)) = Binding.blob (b ∷ bs)

-- `d_stmts[table] = p`
unfoldable pub set_stmt : Text → Option Stmt → Exec Db (Unit {0})
set_stmt table p = modify λ db. record db { stmts = insert table p db.stmts }

unfoldable pub finalize_old : Text → Option Stmt → Exec Db (Unit {0})
finalize_old table none = pure tt
finalize_old table (some old) = send (Call.finalize old) >> set_stmt table none

unfoldable pub prepare_result : Text → Text → PrepareReply → Exec Db (Unit {0})
prepare_result table sql (PrepareReply.prepared none) = set_stmt table none
prepare_result table sql (PrepareReply.prepared (some address)) =
    set_stmt table (some (record { address = address; sql = sql }))
prepare_result table sql (PrepareReply.refused errmsg) =
    set_stmt table none
    >> raise (runtime_error (codes "Unable to prepare query " ++ (sql ++ (codes ": " ++ errmsg))))

-- The value of a column, as `execPrep` reads it.
abbrev pub out_var : Cell → OutVar
out_var (Cell.text none) = OutVar.string []
out_var (Cell.text (some s)) = OutVar.string s
out_var (Cell.blob none) = OutVar.blob []
out_var (Cell.blob (some b)) = OutVar.blob b
out_var (Cell.float d) = OutVar.double d
out_var (Cell.integer z) = OutVar.int64 z
out_var Cell.null = OutVar.null

abbrev pub Row : Type 0
Row = Dict OutVar

-- The loop over the columns of a row.
unfoldable pub read_columns : List Column → Row → Row
read_columns [] row = row
read_columns (c ∷ cs) row = read_columns cs (insert c.name (out_var c.cell) row)

-- The static counters are 64-bit words.
abbrev pub plus : ℕ → ℕ → ℕ
plus a b = (a + b) % 2 ^ 64

-- The object's destructor runs however the body ends.
unfoldable pub finally : {A : Type 0} → Exec Db A → Exec Db (Unit {0}) → Exec Db A
finally m cleanup db = let (r, db') = m db in (r, (cleanup db').1)

module _ (e : Engine) where
  unfoldable pub sqlite_error : {A : Type 0} → ℕ → Exec Db A
  sqlite_error rc =
      raise (runtime_error (codes "Sqlite error " ++ (to_string rc ++ (codes ": " ++ e.errstr rc))))

  unfoldable pub check_bind : ℕ → Exec Db (Unit {0})
  check_bind rc =
      if eqb rc 0
      then pure tt
      else raise
          (runtime_error (codes "Error binding value to prepared statement: " ++ e.errstr rc))

  unfoldable pub bind_prep : Text → ℕ → Arg → Exec Db (Unit {0})
  bind_prep table idx value = do
    stmt ← gets (stmt_of table)
    rc ← ask (Call.bind stmt idx (binding value)) (λ h. e.bind h stmt idx (binding value))
    check_bind rc

  unfoldable pub prepare : Text → Text → Exec Db (Unit {0})
  prepare table sql = do
    old ← gets (stmt_of table)
    finalize_old table old
    reply ← ask (Call.prepare_v2 sql) (λ h. e.prepare_v2 h sql)
    prepare_result table sql reply

  -- The end of the loop by an error: SQLITE_ROW (100) too, where no rows are asked for.
  unfoldable pub step_error : Option Stmt → ℕ → Exec Db (List Row)
  step_error stmt rc = do send (Call.reset stmt); send (Call.clear_bindings stmt); sqlite_error rc

  -- The loop of `execPrep`; `rows` are those pushed so far.
  unfoldable pub step_loop : Option Stmt → Bool → Steps → List Row → Exec Db (List Row)
  unfolding step_error
  step_loop stmt collect Steps.done rows = send (Call.step stmt) >> pure rows
  step_loop stmt collect (Steps.failed rc) rows = send (Call.step stmt) >> step_error stmt rc
  step_loop stmt true (Steps.row cols rest) rows =
      send (Call.step stmt) >> step_loop stmt true rest (rows ++ (read_columns cols [] ∷ []))
  step_loop stmt false (Steps.row cols rest) rows = send (Call.step stmt) >> step_error stmt 100

  -- The counters, and the reset of the statement.
  unfoldable pub after_loop : Option Stmt → List Row → Exec Db (List Row)
  after_loop stmt rows = do
    scans ←
        ask (Call.stmt_status stmt Status.fullscan_step)
          (λ h. e.stmt_status h stmt Status.fullscan_step)
    modify (λ db. record db { fullscans = plus db.fullscans scans })
    sorts ← ask (Call.stmt_status stmt Status.sort) (λ h. e.stmt_status h stmt Status.sort)
    modify (λ db. record db { sorts = plus db.sorts sorts })
    autos ←
        ask (Call.stmt_status stmt Status.autoindex) (λ h. e.stmt_status h stmt Status.autoindex)
    modify (λ db. record db { autoindexes = plus db.autoindexes autos })
    modify (λ db. record db { execs = plus db.execs 1 })
    rc ← ask (Call.reset stmt) (λ h. e.reset h stmt)
    if eqb rc 0 then send (Call.clear_bindings stmt) >> pure rows else sqlite_error rc

  -- `collect` says whether the caller gave a vector for the rows. A null pointer for it and the
  -- vector that the caller does not read are both answered by the empty list.
  unfoldable pub exec_prep : Text → Bool → ℕ → Exec Db (List Row)
  unfolding step_loop after_loop
  exec_prep table collect msec = do
    deadline_start e msec
    finally
        (do
          stmt ← gets (stmt_of table)
          replies ← gets (λ db. e.steps db.calls stmt)
          rows ← step_loop stmt collect replies []
          after_loop stmt rows)
        (deadline_stop msec)
