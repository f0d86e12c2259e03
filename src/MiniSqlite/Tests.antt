-- ===== src/MiniSqlite/Tests.antt =====
-- An engine for tests, and the theorems on connections at concrete inputs.
use sqlitewrite.Text.Dict.{lookup}
use sqlitewrite.Base.{◌≡◌, true, some, [], ◌∷◌, ◌++◌, refl, List, arith, ◌+◌, ◌*◌, ◌≤◌, inr}
use sqlitewrite.Base.Int.{pos, ◌+ℤ◌}
use sqlitewrite.Text.{codes, find}
use sqlitewrite.Sqlite.{Engine, Steps, PrepareReply}
use sqlitewrite.MiniSqlite.Returns.{IsObliging}
use sqlitewrite.MiniSqlite.Names.{split_table_name, quote_table_name}
use sqlitewrite.MiniSqlite.Deadline.{time_to_die, interrupts, div_1000}
use sqlitewrite.MiniSqlite.TimeLimit.{
  clock, nanoseconds, interrupts-due, interrupts-late, interrupts-overflow,
}
use sqlitewrite.MiniSqlite.QuotedNames.{split-quote}
use sqlitewrite.Sqlite.{Cell, Column}
use sqlitewrite.MiniSqlite.Statement.{read_columns}
use sqlitewrite.MiniSqlite.RowValues.{last_named, lookup-read_columns}

-- On this engine every call succeeds, and no statement yields a row.
abbrev pub quiet : Engine
quiet = record {
  strict_tables = true;
  open_v2 = λ h fname flags. 0;
  exec = λ h sql. record { rows = []; rc = 0; errmsg = [] };
  prepare_v2 = λ h sql. PrepareReply.prepared (some 1);
  bind = λ h p n b. 0;
  steps = λ h p. Steps.done;
  reset = λ h p. 0;
  stmt_status = λ h p s. 0;
  errstr = λ rc. [];
  monotonic = λ h. clock 5 0;
}

pub quiet-IsObliging : IsObliging quiet
quiet-IsObliging = record {
  exec_ok = λ h sql. refl;
  exec_texts = λ h sql. tt;
  schema_rows = λ h table. tt;
  compiles = λ h sql. (1, refl);
  bind_ok = λ h p n b. refl;
  ends = λ h p. refl;
  reset_ok = λ h p. refl;
}

-- The only row is a count of 42.
abbrev pub count_columns : List Column
count_columns = record { name = codes "c"; cell = Cell.integer (pos 42) } ∷ []

abbrev pub counting : Engine
counting = record quiet { steps = λ h p. Steps.row count_columns Steps.done }

split-quote_example :
    (split_table_name (codes "aux" ++ (b'.' ∷ codes "data")) ≡ (codes "aux", codes "data"))
    × (quote_table_name (codes "aux" ++ (b'.' ∷ codes "data"))
        ≡ codes "\"" ++ (codes "aux" ++ (codes "\".\"" ++ (codes "data" ++ codes "\""))))
unfolding codes find
split-quote_example = split-quote (codes "aux") (codes "data") refl

interrupts-due_example : nanoseconds 5 400_000_000 + 1_000_000 * 1500 ≤ nanoseconds 7 0
unfolding interrupts time_to_die div_1000 ◌+ℤ◌
interrupts-due_example =
    interrupts-due 5 400_000_000 1500 7 0 (omega arith) (omega arith) (omega arith) refl

interrupts-late_example : interrupts (time_to_die (clock 5 400_000_000) 1500) (clock 7 0) ≡ true
interrupts-late_example =
    interrupts-late 5 400_000_000 1500 7 0 (omega arith) (omega arith) (omega arith) (omega arith)

lookup-read_columns_example :
    lookup (codes "c") (read_columns count_columns [])
    ≡ last_named (codes "c") count_columns (lookup (codes "c") [])
lookup-read_columns_example = lookup-read_columns (codes "c") count_columns []

interrupts-overflow_example :
    interrupts (time_to_die (clock 5 400_000_000) 4_294_967_295) (clock 5 400_000_000) ≡ true
interrupts-overflow_example =
    interrupts-overflow 5 400_000_000 4_294_967_295 5 400_000_000 (omega arith) (omega arith)
      (omega arith) (inr (refl, omega arith))
