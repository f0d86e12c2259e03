-- ===== src/PsqlWriter/Tests/Whole.antt =====
-- The theorems on the thread at a pipe of two messages.
use sqlitewrite.PsqlWriter.Returns.{IsWaited, attempt-IsWaited}
use sqlitewrite.PsqlWriter.Batch.{attempt}
use sqlitewrite.Base.{none, suc, zero}
use sqlitewrite.Base.Exec.{err, runtime_error}
use sqlitewrite.PsqlWriter.Known.{insert_work-Known}
use sqlitewrite.PsqlWriter.KnownFields.{KnowsAll}
use sqlitewrite.MiniSqlite.Known.{AllSorted}
use sqlitewrite.PsqlWriter.Thread.{insert_work, schema_of}
use sqlitewrite.PsqlWriter.Tests.{two_messages}
use sqlitewrite.PsqlWriter.Returns.{commit_thread-returns}
use sqlitewrite.PsqlWriter.Tests.{first_message, second_message, idle_worker, silent}
use sqlitewrite.PsqlWriter.Whole.{Rows, Arrive, rows_for, commit_thread-inserts_all, add_all}
use sqlitewrite.MiniPsql.Returns.{IsObliging}
use sqlitewrite.PsqlWriter.Pipe.{unopened}
use sqlitewrite.PsqlWriter.Requests.{commit_thread-Carries}
use sqlitewrite.PsqlWriter.Log.{Carries}
use sqlitewrite.MiniPsql.Requests.{requests}
use sqlitewrite.PsqlWriter.Unique.{works}
use sqlitewrite.PsqlWriter.Grouping.{for_table, received}
use sqlitewrite.PsqlWriter.Cleared.{commit_thread-Cleared}
use sqlitewrite.MiniPsql.Cleared.{Cleared}
use sqlitewrite.PsqlWriter.Turn.{commit_thread-committed}
use sqlitewrite.MiniPsql.Turn.{transaction_after}
use sqlitewrite.Text.Dict.{at}
use sqlitewrite.Base.Exec.{ok}
use sqlitewrite.PsqlWriter.Ending.{PipeEnds, is_open}
use sqlitewrite.PsqlWriter.Delivery.{Drained, thread_rounds-Drained}
use sqlitewrite.MiniPsql.Db.{Call, Server, Reply, new_db}
use sqlitewrite.PsqlWriter.Thread.{
  Worker, message_loop, value_loop, need_column, contains, on_mp, commit_thread,
}
use sqlitewrite.Base.{
  ℕ, zero, suc, ◌≡◌, ◌*◌, ◌+◌, some, [], ◌∷◌, ◌++◌, List, refl, ◌≤◌, ◌<◌, true, false, arith,
}
use sqlitewrite.Base.Int.{pos}
use sqlitewrite.Text.{Text, codes}
use sqlitewrite.PsqlWriter.Message.{Var, Message}
use sqlitewrite.PsqlWriter.Batch.{Read, Work, next_round, push_work}
use sqlitewrite.PsqlWriter.Query.{insert_query, all_strings, parameter}

abbrev ended_reads : ℕ → Read
ended_reads zero = Read.message first_message
ended_reads (suc zero) = Read.again
ended_reads (suc (suc zero)) = Read.message second_message
ended_reads (suc (suc (suc n))) = Read.closed

open_at_first : (k : ℕ) → k < 3 → is_open (ended_reads k) ≡ true
open_at_first zero h = refl
open_at_first (suc zero) h = refl
open_at_first (suc (suc zero)) h = refl
open_at_first (suc (suc (suc k))) h = absurd (omega (arith, h))

closed_at_last : (k : ℕ) → 3 ≤ k → ended_reads k ≡ Read.closed
closed_at_last zero h = absurd (omega (arith, h))
closed_at_last (suc zero) h = absurd (omega (arith, h))
closed_at_last (suc (suc zero)) h = absurd (omega (arith, h))
closed_at_last (suc (suc (suc k))) h = refl

abbrev ended_PipeEnds : PipeEnds ended_reads 3
ended_PipeEnds = record { open_before = open_at_first; closed_after = closed_at_last }

thread_rounds-Drained_example :
    Drained silent (λ d. []) (λ h. 0) (λ fs. fs) ended_reads 3 ended_PipeEnds (3 + 2) 0 (3 + 1)
thread_rounds-Drained_example =
    thread_rounds-Drained silent (λ d. []) (λ h. 0) (λ fs. fs) ended_reads 3 ended_PipeEnds

thread_returned :
    (commit_thread silent (λ d. []) (λ h. 0) (λ fs. fs) ended_reads (3 + 2) idle_worker).0 ≡ ok tt
unfolding commit_thread sqlitewrite.Base.Exec.◌>>=◌ on_mp sqlitewrite.MiniPsql.Statement.connect
    sqlitewrite.MiniPsql.Db.ask sqlitewrite.MiniPsql.Db.exec
    sqlitewrite.PsqlWriter.Thread.thread_rounds next_round sqlitewrite.PsqlWriter.Thread.work_loop
    sqlitewrite.Sort.sort sqlitewrite.Text.Dict.insert sqlitewrite.PsqlWriter.Thread.insert_work
    sqlitewrite.Text.Dict.lookup sqlitewrite.PsqlWriter.Thread.load_schema
    sqlitewrite.MiniPsql.Schema.table_schema sqlitewrite.MiniPsql.Schema.name_and_udt message_loop
    at native.Mathlib.Decide.ℕ_discrete sqlitewrite.Base.Exec.gets sqlitewrite.Base.Exec.modify
    sqlitewrite.Base.Exec.pure sqlitewrite.Base.Exec.raise sqlitewrite.MiniPsql.Db.exec_params
    sqlitewrite.MiniPsql.Db.query_result sqlitewrite.MiniPsql.Db.query_result_params
    sqlitewrite.MiniPsql.Db.result_of sqlitewrite.MiniPsql.Db.rows_until_empty
    sqlitewrite.MiniPsql.Schema.add_table_column sqlitewrite.MiniPsql.Schema.column_ddl
    sqlitewrite.MiniPsql.Schema.table_exists sqlitewrite.MiniPsql.Statement.commit_work
    sqlitewrite.MiniPsql.Statement.connect_reply sqlitewrite.MiniPsql.Statement.disconnect
    sqlitewrite.PsqlWriter.Batch.at_end sqlitewrite.PsqlWriter.Batch.collect push_work all_strings
    sqlitewrite.PsqlWriter.Query.field_loop insert_query
    sqlitewrite.PsqlWriter.Query.placeholder_loop sqlitewrite.PsqlWriter.Query.row_loop
    sqlitewrite.PsqlWriter.Query.row_parameters sqlitewrite.PsqlWriter.Thread.commit_new_second
    contains need_column value_loop sqlitewrite.Sort.binary_search sqlitewrite.Sort.insert_by
    sqlitewrite.Text.Decimal.to_string sqlitewrite.Text.Order.text_lt codes
    sqlitewrite.Text.text_dec
thread_returned = refl

commit_thread-committed_example :
    transaction_after
      (some false)
      ((commit_thread silent (λ d. []) (λ h. 0) (λ fs. fs) ended_reads (3 + 2) idle_worker).1
        ).db.calls
    ≡ some false
commit_thread-committed_example =
    commit_thread-committed silent (λ d. []) (λ h. 0) (λ fs. fs) ended_reads 3 ended_PipeEnds
      idle_worker refl thread_returned

commit_thread-Carries_example :
    (log : Work) × Carries
      (λ d. [])
      log
      (requests
        ((commit_thread silent (λ d. []) (λ h. 0) (λ fs. fs) ended_reads (3 + 2) idle_worker).1
          ).db.calls)
    × ((t : Text) → works t log ≡ for_table t (received ended_reads 0 (3 + 1)))
commit_thread-Carries_example =
    commit_thread-Carries silent (λ d. []) (λ h. 0) (λ fs. fs) (λ f fs. refl) ended_reads 3
      ended_PipeEnds idle_worker refl thread_returned

silent-IsObliging : IsObliging silent
silent-IsObliging = record { answers = λ h c. tt; schema_rows = λ h table. tt }

abbrev two_rows : Rows
two_rows =
    (codes "t", (codes "a", Var.int32 (pos 1)) ∷ [])
    ∷ (codes "t", (codes "b", Var.string (codes "x")) ∷ [])
    ∷ []

two_rows_sent : received ended_reads 0 (3 + 1) ≡ ((add_all two_rows unopened).1).sent
unfolding sqlitewrite.PsqlWriter.Pipe.open_pipe sqlitewrite.PsqlWriter.Pipe.add_value_to
    sqlitewrite.PsqlWriter.Pipe.send_values sqlitewrite.PsqlWriter.Pipe.write_message
    sqlitewrite.PsqlWriter.Pipe.close_pipe sqlitewrite.Base.Exec.◌>>=◌
    sqlitewrite.PsqlWriter.Message.message sqlitewrite.PsqlWriter.Message.message_values
    sqlitewrite.Text.Dict.insert sqlitewrite.Base.Exec.modify sqlitewrite.Base.Exec.pure
two_rows_sent = refl

commit_thread-inserts_all_example :
    ((commit_thread silent (λ d. []) (λ h. 0) (λ fs. fs) ended_reads (3 + 2) idle_worker).0 ≡ ok tt)
    × (log : Work) × Carries
        (λ d. [])
        log
        (requests
          ((commit_thread silent (λ d. []) (λ h. 0) (λ fs. fs) ended_reads (3 + 2) idle_worker).1
            ).db.calls)
    × ((t : Text) → Arrive t (rows_for t two_rows) (works t log))
commit_thread-inserts_all_example =
    commit_thread-inserts_all silent (λ d. []) (λ h. 0) (λ fs. fs) two_rows ended_reads 3
      idle_worker (λ f fs. refl) silent-IsObliging ended_PipeEnds two_rows_sent refl

-- A server that refuses every statement with parameters.
abbrev refusing : Server
refusing = record {
  reply =
      λ h c. elim c [ Call.pq_exec_params query params ↦ Reply.error [] | _ ↦ Reply.command_ok ];
}

commit_thread-Cleared_example :
    Cleared ((commit_thread refusing (λ d. []) (λ h. 0) (λ fs. fs) ended_reads 5 idle_worker).1).db
commit_thread-Cleared_example =
    commit_thread-Cleared refusing (λ d. []) (λ h. 0) (λ fs. fs) ended_reads 5 idle_worker refl

abbrev calm_attempts : ℕ → Read
calm_attempts = attempt (λ k. none) ended_reads

ended_IsWaited : (k : ℕ) → IsWaited (ended_reads k)
ended_IsWaited zero = tt
ended_IsWaited (suc zero) = tt
ended_IsWaited (suc (suc zero)) = tt
ended_IsWaited (suc (suc (suc k))) = tt

commit_thread-returns_example :
    (commit_thread silent (λ d. []) (λ h. 0) (λ fs. fs) calm_attempts 2 idle_worker).0 ≡ ok tt
commit_thread-returns_example =
    commit_thread-returns silent silent-IsObliging (λ d. []) (λ h. 0) (λ fs. fs) calm_attempts
      (attempt-IsWaited (λ k. none) ended_reads (λ k. refl) ended_IsWaited) 2 idle_worker

-- The wait after `EAGAIN` fails, and the thread throws.
failed_wait :
    (commit_thread silent
      (λ d. [])
      (λ h. 0)
      (λ fs. fs)
      (attempt (λ k. some (codes "no")) ended_reads)
      3
      idle_worker).0
    ≡ err (runtime_error (codes "Waiting for data: no"))
unfolding commit_thread sqlitewrite.Base.Exec.◌>>=◌ on_mp sqlitewrite.MiniPsql.Statement.connect
    sqlitewrite.MiniPsql.Db.ask sqlitewrite.MiniPsql.Db.exec
    sqlitewrite.PsqlWriter.Thread.thread_rounds next_round sqlitewrite.PsqlWriter.Thread.work_loop
    sqlitewrite.Sort.sort sqlitewrite.Text.Dict.insert sqlitewrite.PsqlWriter.Thread.insert_work
    sqlitewrite.Text.Dict.lookup sqlitewrite.PsqlWriter.Thread.load_schema
    sqlitewrite.MiniPsql.Schema.table_schema sqlitewrite.MiniPsql.Schema.name_and_udt message_loop
    at native.Mathlib.Decide.ℕ_discrete sqlitewrite.Base.Exec.gets sqlitewrite.Base.Exec.modify
    sqlitewrite.Base.Exec.pure sqlitewrite.Base.Exec.raise sqlitewrite.MiniPsql.Db.exec_params
    sqlitewrite.MiniPsql.Db.query_result sqlitewrite.MiniPsql.Db.query_result_params
    sqlitewrite.MiniPsql.Db.result_of sqlitewrite.MiniPsql.Db.rows_until_empty
    sqlitewrite.MiniPsql.Schema.add_table_column sqlitewrite.MiniPsql.Schema.column_ddl
    sqlitewrite.MiniPsql.Schema.table_exists sqlitewrite.MiniPsql.Statement.commit_work
    sqlitewrite.MiniPsql.Statement.connect_reply sqlitewrite.MiniPsql.Statement.disconnect
    sqlitewrite.PsqlWriter.Batch.at_end sqlitewrite.PsqlWriter.Batch.collect push_work all_strings
    sqlitewrite.PsqlWriter.Query.field_loop insert_query
    sqlitewrite.PsqlWriter.Query.placeholder_loop sqlitewrite.PsqlWriter.Query.row_loop
    sqlitewrite.PsqlWriter.Query.row_parameters sqlitewrite.PsqlWriter.Thread.commit_new_second
    contains need_column value_loop sqlitewrite.Sort.binary_search sqlitewrite.Sort.insert_by
    sqlitewrite.Text.Decimal.to_string sqlitewrite.Text.Order.text_lt codes
    sqlitewrite.Text.text_dec attempt sqlitewrite.PsqlWriter.Batch.needs_wait
failed_wait = refl

idle_AllSorted : AllSorted idle_worker.schemas
unfolding at sqlitewrite.Text.Dict.lookup
idle_AllSorted t = tt

work_returned :
    (insert_work silent (λ d. []) (λ h. 1) (λ fs. fs) (codes "t") two_messages idle_worker).0
    ≡ ok tt
unfolding commit_thread sqlitewrite.Base.Exec.◌>>=◌ on_mp sqlitewrite.MiniPsql.Statement.connect
    sqlitewrite.MiniPsql.Db.ask sqlitewrite.MiniPsql.Db.exec
    sqlitewrite.PsqlWriter.Thread.thread_rounds next_round sqlitewrite.PsqlWriter.Thread.work_loop
    sqlitewrite.Sort.sort sqlitewrite.Text.Dict.insert sqlitewrite.PsqlWriter.Thread.insert_work
    sqlitewrite.Text.Dict.lookup sqlitewrite.PsqlWriter.Thread.load_schema
    sqlitewrite.MiniPsql.Schema.table_schema sqlitewrite.MiniPsql.Schema.name_and_udt message_loop
    at native.Mathlib.Decide.ℕ_discrete sqlitewrite.Base.Exec.gets sqlitewrite.Base.Exec.modify
    sqlitewrite.Base.Exec.pure sqlitewrite.Base.Exec.raise sqlitewrite.MiniPsql.Db.exec_params
    sqlitewrite.MiniPsql.Db.query_result sqlitewrite.MiniPsql.Db.query_result_params
    sqlitewrite.MiniPsql.Db.result_of sqlitewrite.MiniPsql.Db.rows_until_empty
    sqlitewrite.MiniPsql.Schema.add_table_column sqlitewrite.MiniPsql.Schema.column_ddl
    sqlitewrite.MiniPsql.Schema.table_exists sqlitewrite.MiniPsql.Statement.commit_work
    sqlitewrite.MiniPsql.Statement.connect_reply sqlitewrite.MiniPsql.Statement.disconnect
    sqlitewrite.PsqlWriter.Batch.at_end sqlitewrite.PsqlWriter.Batch.collect push_work all_strings
    sqlitewrite.PsqlWriter.Query.field_loop insert_query
    sqlitewrite.PsqlWriter.Query.placeholder_loop sqlitewrite.PsqlWriter.Query.row_loop
    sqlitewrite.PsqlWriter.Query.row_parameters sqlitewrite.PsqlWriter.Thread.commit_new_second
    contains need_column value_loop sqlitewrite.Sort.binary_search sqlitewrite.Sort.insert_by
    sqlitewrite.Text.Decimal.to_string sqlitewrite.Text.Order.text_lt codes
    sqlitewrite.Text.text_dec
work_returned = refl

insert_work-Known_example :
    AllSorted
      (insert_work silent
        (λ d. [])
        (λ h. 1)
        (λ fs. fs)
        (codes "t")
        two_messages
        idle_worker).1.schemas
    × KnowsAll
        (schema_of
          (codes "t")
          (insert_work silent (λ d. []) (λ h. 1) (λ fs. fs) (codes "t") two_messages idle_worker).1)
        two_messages
insert_work-Known_example =
    insert_work-Known silent (λ d. []) (λ h. 1) (λ fs. fs) (codes "t") two_messages idle_worker
      idle_AllSorted work_returned
