-- ===== src/PsqlWriter/Thread.antt =====
-- The work of a batch in `PSQLWriter::commitThread`: the columns that are missing, the insert, and
-- the commit once a second.
use sqlitewrite.MiniPsql.Statement.{connect, disconnect}
use sqlitewrite.Base.{
  ℕ, zero, suc, Bool, true, false, not, ◌||◌, ◌==◌, none, some, List, [], ◌∷◌, ◌++◌, eqb,
  if◌then◌else◌,
}
use sqlitewrite.Base.Exec.{Exec, runtime_error, raise, pure, gets, modify, ◌>>=◌, ◌>>◌}
use sqlitewrite.Text.{Text, codes, text_eq}
use sqlitewrite.Text.Dict.{Dict, at, insert, lookup}
use sqlitewrite.Text.Order.{text_lt}
use sqlitewrite.Sort.{sort, binary_search}
use sqlitewrite.MiniSqlite.Schema.{Columns, by_name, pair_lt}
use sqlitewrite.MiniPsql.Db.{Db, Server, exec, exec_params, History}
use sqlitewrite.MiniPsql.Schema.{table_schema, add_table_column}
use sqlitewrite.PsqlWriter.Message.{Var, Message}
use sqlitewrite.PsqlWriter.Batch.{Read, Work, Round, next_round}
use sqlitewrite.PsqlWriter.Query.{insert_query, all_strings, all_pointers}

-- The local variables `mp`, `schemas` and `prevcommit`.
pub record Worker : Type 0 where
  pub db : Db
  pub schemas : Dict Columns
  pub prevcommit : ℕ

-- A member function of `mp`.
unfoldable pub on_mp : {A : Type 0} → Exec Db A → Exec Worker A
on_mp m w = let (r, db') = m w.db in (r, record w { db = db' })

abbrev pub column_type : Var → Text
column_type (Var.double _) = codes "REAL"
column_type (Var.string _) = codes "TEXT"
column_type _ = codes "BIGINT"

-- `fields.find(f) != fields.end()`
unfoldable pub contains : Text → List Text → Bool
contains f [] = false
contains f (g ∷ gs) = f == g || contains f gs

abbrev pub schema_of : Text → Worker → Columns
schema_of table w = at [] table w.schemas

abbrev pub add_schema : Text → Text → Var → Worker → Worker
add_schema table f v w = record w {
  schemas = insert table (sort pair_lt (schema_of table w ++ ((f, column_type v) ∷ []))) w.schemas;
}

-- `schemas.count(table)`
abbrev pub knows_table : Text → Worker → Bool
knows_table table w = elim (lookup table w.schemas) [ none ↦ false | some cols ↦ true ]

-- The environment: libpq, `std::to_string(double)`, `time(0)` after the calls so far, and the order
-- in which an `unordered_set` iterates.
module _ (s : Server) (show_double : ℕ → Text) (now : History → ℕ)
    (iterate : List Text → List Text) where
  -- The column of a field that is new in this batch.
  unfoldable pub need_column : Text → Text → Var → Exec Worker (Unit {0})
  need_column table f v = do
    cols ← gets (schema_of table)
    if binary_search by_name cols (f, [])
        then pure tt
        else (on_mp (add_table_column s table f (column_type v)) >> modify (add_schema table f v))

  -- The loop over the values of a message, with the fields so far.
  unfoldable pub value_loop : Text → List (Text × Var) → List Text → Exec Worker (List Text)
  unfolding need_column
  value_loop table [] fields = pure fields
  value_loop table ((f, v) ∷ values) fields = do
    if contains f fields then pure tt else need_column table f v
    value_loop table values (if contains f fields then fields else fields ++ (f ∷ []))

  -- The loop over the messages.
  unfoldable pub message_loop : Text → List Message → List Text → Exec Worker (List Text)
  message_loop table [] fields = pure fields
  message_loop table (m ∷ ms) fields = do
    fields' ← value_loop table m.values fields
    message_loop table ms fields'

  unfoldable pub load_schema : Text → Exec Worker (Unit {0})
  load_schema table = do
    cols ← on_mp (table_schema s table)
    modify (λ w. record w { schemas = insert table cols w.schemas })

  -- The commit, at most once in each second of the clock. The clock is read again for `prevcommit`.
  unfoldable pub commit_new_second : Exec Worker (Unit {0})
  commit_new_second = do
    due ← gets (λ w. not (eqb w.prevcommit (now w.db.calls)))
    if due
        then (do
          _ ← on_mp (exec s (codes "commit"))
          _ ← on_mp (exec s (codes "begin"))
          modify (λ w. record w { prevcommit = now w.db.calls }))
        else pure tt

  -- The work for one table.
  unfoldable pub insert_work : Text → List Message → Exec Worker (Unit {0})
  insert_work table work = do
    known ← gets (knows_table table)
    if known then pure tt else load_schema table
    fields ← message_loop table work []
    _ ← on_mp (
        exec_params s (insert_query table (iterate fields) work)
          (all_pointers (all_strings show_double (iterate fields) work)))
    commit_new_second

  unfoldable pub work_loop : Work → Exec Worker (Unit {0})
  work_loop [] = pure tt
  work_loop ((table, work) ∷ rest) = insert_work table work >> work_loop rest

  -- The rounds of the thread from read `pos` on, until it ends, with the destructor of `mp`, or
  -- `rounds` are over. A `std::map`
  -- iterates in the order of its keys.
  unfoldable pub thread_rounds : (ℕ → Read) → ℕ → ℕ → Exec Worker (Unit {0})
  thread_rounds reads zero pos = pure tt
  thread_rounds reads (suc rounds) pos = elim (next_round reads pos) [
    | Round.finished ↦ on_mp (exec s (codes "commit")) >> on_mp (disconnect s)
    | Round.threw why ↦ raise (runtime_error (codes "Waiting for data: " ++ why))
    | Round.work tabwork next ↦
        work_loop (sort (λ (a, _) (b, _). text_lt a b) tabwork) >> thread_rounds reads rounds next
  ]

  -- The thread from its start on, on the attempts at its pipe. `SetNonBlocking` is left out: it
  -- changes the flags of the pipe alone.
  unfoldable pub commit_thread : (ℕ → Read) → ℕ → Exec Worker (Unit {0})
  commit_thread reads rounds = do
    on_mp (connect s [])
    _ ← on_mp (exec s (codes "begin"))
    modify (λ w. record w { prevcommit = now w.db.calls })
    thread_rounds reads rounds 0
