-- ===== src/Sqlite.antt =====
-- The part of the C interface of SQLite that the program calls. SQLite itself is not part of the
-- program: `Engine` is a parameter of the model. Each reply may depend on all calls made so far, so
-- an engine is any deterministic environment, with other processes on the same file included.
use sqlitewrite.Base.{ℕ, Bool, Option, List}
use sqlitewrite.Base.Int.{ℤ}
use sqlitewrite.Text.{Text}

-- What a non-null `sqlite3_stmt*` designates: an object, with the text it was compiled from.
pub record Stmt : Type 0 where
  pub address : ℕ
  pub sql : Text

-- The value that a `sqlite3_bind_…` call hands over.
pub data Binding : Type 0 where
  int : ℤ → Binding
  int64 : ℤ → Binding
  double : ℕ → Binding
  text : Text → Binding
  blob : List ℕ → Binding
  zeroblob : ℕ → Binding
  null : Binding

-- `SQLITE_STMTSTATUS_…`
pub data Status : Type 0 where
  fullscan_step sort autoindex : Status

-- `struct timespec`
pub record Timespec : Type 0 where
  pub sec : ℤ
  pub nsec : ℤ

-- A null pointer to a statement is `none`.
pub data Call : Type 0 where
  open_v2 : Text → ℕ → Call
  extended_result_codes : Bool → Call
  no_double_quoted_ddl : Call
  no_double_quoted_dml : Call
  busy_timeout : ℕ → Call
  close : Call
  exec : Text → Call
  prepare_v2 : Text → Call
  bind : Option Stmt → ℕ → Binding → Call
  step : Option Stmt → Call
  reset : Option Stmt → Call
  clear_bindings : Option Stmt → Call
  finalize : Stmt → Call
  stmt_status : Option Stmt → Status → Call
  progress_handler : Timespec → Call
  remove_progress_handler : Call

abbrev pub History : Type 0
History = List Call

-- `sqlite3_exec`: the rows that reach the callback, a null column as `none`; the result code, and
-- the error message that goes with one other than 0.
pub record ExecReply : Type 0 where
  pub rows : List (List (Option Text))
  pub rc : ℕ
  pub errmsg : Text

-- `sqlite3_prepare_v2`: on success the address of the statement, or null if the text holds none.
-- On an error the pointer is set to null.
pub data PrepareReply : Type 0 where
  prepared : Option ℕ → PrepareReply
  refused : Text → PrepareReply

-- A column of the current row, by `sqlite3_column_type`; the pointer to a text or a blob may be
-- null.
pub data Cell : Type 0 where
  text : Option Text → Cell
  blob : Option (List ℕ) → Cell
  float : ℕ → Cell
  integer : ℤ → Cell
  null : Cell

pub record Column : Type 0 where
  pub name : Text
  pub cell : Cell

-- The results of `sqlite3_step` called again and again: some rows, and then `SQLITE_DONE` or
-- another code.
pub data Steps : Type 0 where
  done : Steps
  failed : ℕ → Steps
  row : List Column → Steps → Steps

pub record Engine : Type 0 where
  -- SQLITE_VERSION_NUMBER >= 3037001
  pub strict_tables : Bool
  pub open_v2 : History → Text → ℕ → ℕ
  pub exec : History → Text → ExecReply
  pub prepare_v2 : History → Text → PrepareReply
  pub bind : History → Option Stmt → ℕ → Binding → ℕ
  pub steps : History → Option Stmt → Steps
  pub reset : History → Option Stmt → ℕ
  pub stmt_status : History → Option Stmt → Status → ℕ
  pub errstr : ℕ → Text
  -- `clock_gettime(CLOCK_MONOTONIC, …)` of the operating system
  pub monotonic : History → Timespec
