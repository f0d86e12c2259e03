-- ===== src/SqliteWriter/Tests.antt =====
-- A writer for tests, and the theorems on writers at concrete inputs.
use sqlitewrite.MiniSqlite.Db.{stmt_of}
use sqlitewrite.SqliteWriter.Spec.{names_of}
use sqlitewrite.SqliteWriter.Known.{Known, column_loop-Known}
use sqlitewrite.SqliteWriter.Columns.{IsSortedAll}
use sqlitewrite.SqliteWriter.Insert.{column_loop, ensure_column, load_columns, create_column}
use sqlitewrite.Text.Dict.{at, lookup, at-insert}
use mathlib.Core.Option.{some-injective}
use sqlitewrite.Text.{text_eq, text_dec}
use sqlitewrite.SqliteWriter.Cache.{IsCached}
use sqlitewrite.SqliteWriter.Spec.{insert_text}
use sqlitewrite.Text.Dict.{lookup}
use sqlitewrite.MiniSqlite.Statement.{is_prepared}
use sqlitewrite.MiniSqlite.Calls.{row_of}
use sqlitewrite.MiniSqlite.Sorted.{has_name}
use sqlitewrite.SqliteWriter.Answer.{HasAnswer, query_gen-HasAnswer}
use sqlitewrite.MiniSqlite.Lifetime.{
  begin, configure, open_db, cycle, destroy_db, commit, finalize_all,
}
use sqlitewrite.Base.{◌≢◌, arith}
use sqlitewrite.Sqlite.{PrepareReply, History, Stmt}
use sqlitewrite.MiniSqlite.Db.{exec, ask, send, push_rows, new_db}
use sqlitewrite.Base.Exec.{◌>>=◌, pure, gets, modify}
use sqlitewrite.Base.{ℕ, ◌≡◌, true, false, none, some, [], ◌∷◌, refl}
use sqlitewrite.Base.Exec.{ok}
use sqlitewrite.Base.Int.{pos}
use sqlitewrite.Text.{Text, codes, text_dec}
use sqlitewrite.Value.{Var}
use sqlitewrite.MiniSqlite.Tests.{quiet, quiet-IsObliging, counting, count_columns}
use sqlitewrite.MiniSqlite.Lifetime.{Flag, open_db, configure}
use sqlitewrite.MiniSqlite.Words.{transaction_after}
use sqlitewrite.SqliteWriter.Writer.{Writer, on_db}
use sqlitewrite.SqliteWriter.Insert.{
  Values, add_value_generic, can_reuse, have_column, guarded, columns_of, lastreplace_of,
  lastsig_of, same_signature,
}
use sqlitewrite.SqliteWriter.Query.{query_gen}
use sqlitewrite.SqliteWriter.Lifetime.{
  construct, new_writer, destroy, constructor_body, unwind, unwound, start_batching, thread_round,
}
use sqlitewrite.SqliteWriter.Returns.{add_value_generic-returns}
use sqlitewrite.SqliteWriter.Row.{
  Written, add_value_generic-Written, add_value_generic-Written_reuse,
}
use sqlitewrite.SqliteWriter.Columns.{have_column-eq-has_name}
use sqlitewrite.SqliteWriter.Program.{Step, Reach}
use sqlitewrite.SqliteWriter.Program.Batched.{IsBatched, Reach-IsBatched}
use sqlitewrite.SqliteWriter.Program.Ordered.{IsOrdered, Reach-IsOrdered}
use sqlitewrite.SqliteWriter.Program.Closed.{destroy-committed}

abbrev opened : Writer
opened = (construct quiet (codes "example.sqlite3") [] Flag.no_flag (new_writer Flag.no_flag)).1

opened-Reach : Reach quiet (codes "example.sqlite3") [] Flag.no_flag opened
unfolding construct constructor_body unwind unwound start_batching open_db configure exec begin ask
    send push_rows ◌>>=◌ pure gets modify on_db codes
opened-Reach = Reach.start refl

abbrev pub sample : Values
sample = (codes "pid", Var.int32 (pos 7)) ∷ (codes "name", Var.string (codes "init")) ∷ []

abbrev after_one : Writer
after_one = (add_value_generic quiet (codes "data") sample false opened).1

after_one-Reach : Reach quiet (codes "example.sqlite3") [] Flag.no_flag after_one
after_one-Reach = Reach.next opened-Reach (Step.add_value opened (codes "data") sample false)

Reach-IsBatched_example : IsBatched Flag.no_flag after_one
Reach-IsBatched_example =
    Reach-IsBatched quiet (codes "example.sqlite3") [] Flag.no_flag after_one-Reach

Reach-IsOrdered_example : IsOrdered after_one
Reach-IsOrdered_example =
    Reach-IsOrdered quiet (codes "example.sqlite3") [] Flag.no_flag after_one-Reach

abbrev after_two : Writer
after_two = (add_value_generic quiet (codes "data") sample false after_one).1

writable : (w : Writer) → IsBatched Flag.no_flag w → w.flag ≢ Flag.read_only
writable w p e = cc (p.same_flag, e)

add_value_generic-returns_example :
    (add_value_generic quiet (codes "data") sample false opened).0 ≡ ok tt
add_value_generic-returns_example =
    add_value_generic-returns quiet quiet-IsObliging (codes "data") sample false opened (
      writable opened
        (Reach-IsBatched quiet (codes "example.sqlite3") [] Flag.no_flag opened-Reach))

is_compiled : (a : ℕ) → PrepareReply.prepared (some a) ≢ PrepareReply.prepared none
is_compiled a e = cc

data_name : codes "data" ≢ []
unfolding codes
data_name e = cc

add_value_generic-Written_example :
    (before : History) × Written quiet
      (codes "data")
      sample
      false
      before
      (add_value_generic quiet (codes "data") sample false opened).1
add_value_generic-Written_example =
    add_value_generic-Written quiet (codes "data") sample false (λ h. is_compiled 1) opened
      data_name
      ((Reach-IsOrdered quiet (codes "example.sqlite3") [] Flag.no_flag opened-Reach).cached)
      add_value_generic-returns_example

-- A writer with a statement for one column.
abbrev pid_values : Values
pid_values = (codes "p", Var.int32 (pos 7)) ∷ []

abbrev t_insert : Stmt
t_insert = record { address = 1; sql = insert_text (codes "t") false (codes "p" ∷ []) }

abbrev primed : Writer
primed = record (new_writer Flag.no_transactions) {
  db = record new_db { stmts = (codes "t", some t_insert) ∷ [] };
  lastsig = (codes "t", codes "p" ∷ []) ∷ [];
  lastreplace = (codes "t", false) ∷ [];
}

primed-IsCached : IsCached primed
unfolding at lookup
primed-IsCached t s ne e =
    let there = at-insert none t (codes "t") (some t_insert) [] in
    let rep = at-insert false t (codes "t") false [] in
    let sig = at-insert [] t (codes "t") (codes "p" ∷ []) [] in
    elim (text_dec t (codes "t")) [
      | yes p ↦ ground (arith, e, there, rep, sig, p, some-injective t_insert s)
      | no p ↦ ground (arith, e, there, rep, sig, p)
    ]

t_there : stmt_of (codes "t") primed.db ≡ some t_insert
unfolding sqlitewrite.MiniSqlite.Db.stmt_of at lookup codes text_dec
t_there = refl

t_sig : at [] (codes "t") primed.lastsig ≡ names_of pid_values
unfolding at lookup codes text_dec
t_sig = refl

t_rep : at false (codes "t") primed.lastreplace ≡ false
unfolding at lookup codes text_dec
t_rep = refl

t_name : codes "t" ≢ []
unfolding codes
t_name e = cc

primed-writable : primed.flag ≢ Flag.read_only
primed-writable e = cc

add_value_generic-Written_reuse_example :
    Written quiet
      (codes "t")
      pid_values
      false
      []
      (add_value_generic quiet (codes "t") pid_values false primed).1
add_value_generic-Written_reuse_example =
    add_value_generic-Written_reuse quiet (codes "t") pid_values false (λ h. is_compiled 1) primed
      t_insert t_name primed-IsCached t_there t_sig t_rep
      (add_value_generic-returns quiet quiet-IsObliging (codes "t") pid_values false primed
        primed-writable)

have_column-eq-has_name_example :
    false
    ≡ has_name
        (codes "ppid")
        (columns_of (codes "data") (have_column quiet (codes "data") (codes "ppid") opened).1)
unfolding construct constructor_body unwind unwound start_batching open_db configure exec begin ask
    send push_rows ◌>>=◌ pure gets modify on_db codes have_column columns_of
    sqlitewrite.Text.Dict.at sqlitewrite.Text.Dict.lookup sqlitewrite.MiniSqlite.Schema.get_schema
    sqlitewrite.MiniSqlite.Schema.name_and_type sqlitewrite.Sort.binary_search
    sqlitewrite.Text.Dict.insert sqlitewrite.Text.text_dec sqlitewrite.Sort.sort
have_column-eq-has_name_example =
    have_column-eq-has_name quiet (codes "data") (codes "ppid") opened false
      ((Reach-IsOrdered quiet (codes "example.sqlite3") [] Flag.no_flag opened-Reach).sorted) refl

destroy-committed_example :
    transaction_after (some false) (destroy quiet true 40 opened).1.db.calls ≡ some false
unfolding construct constructor_body unwind unwound start_batching open_db configure exec begin ask
    send push_rows ◌>>=◌ pure gets modify on_db codes destroy thread_round cycle destroy_db commit
    finalize_all
destroy-committed_example =
    destroy-committed quiet (codes "example.sqlite3") [] Flag.no_flag true 40 opened opened-Reach
      refl

query_gen-HasAnswer_example :
    HasAnswer counting
      (codes "select count(1) c from data")
      []
      0
      opened.db.calls
      (row_of count_columns ∷ [])
      (query_gen counting (codes "select count(1) c from data") [] 0 opened).1
unfolding construct constructor_body unwind unwound start_batching open_db configure exec begin ask
    send push_rows ◌>>=◌ pure gets modify on_db codes query_gen
    sqlitewrite.SqliteWriter.Query.may_time_out sqlitewrite.MiniSqlite.Statement.prepare
    sqlitewrite.MiniSqlite.Statement.finalize_old sqlitewrite.MiniSqlite.Db.stmt_of
    sqlitewrite.Text.Dict.at sqlitewrite.Text.Dict.lookup
    sqlitewrite.MiniSqlite.Statement.prepare_result sqlitewrite.MiniSqlite.Statement.set_stmt
    sqlitewrite.SqliteWriter.Insert.bind_loop sqlitewrite.MiniSqlite.Statement.exec_prep
    sqlitewrite.MiniSqlite.Deadline.deadline_start sqlitewrite.MiniSqlite.Statement.finally
query_gen-HasAnswer_example =
    query_gen-HasAnswer counting (codes "select count(1) c from data") [] 0 opened
      (row_of count_columns ∷ []) (λ h. is_compiled 1) refl

primed-IsSortedAll : IsSortedAll primed
unfolding columns_of at lookup
primed-IsSortedAll = record { sorted = λ t. tt }

column_loop-Known_example :
    Known
      (codes "t")
      (codes "p" ∷ [])
      (column_loop quiet (codes "t") pid_values true [] [] primed).1
unfolding column_loop ensure_column have_column load_columns create_column codes ◌>>=◌ columns_of at
    lookup on_db sqlitewrite.MiniSqlite.Schema.get_schema exec ask
    sqlitewrite.MiniSqlite.Schema.name_and_type sqlitewrite.Sort.binary_search
    sqlitewrite.Text.Dict.insert text_dec sqlitewrite.Sort.sort
    sqlitewrite.MiniSqlite.Schema.add_column sqlitewrite.MiniSqlite.Schema.have_table
column_loop-Known_example =
    column_loop-Known quiet (codes "t") pid_values [] [] primed (codes "'p'", codes "?")
      primed-IsSortedAll refl
