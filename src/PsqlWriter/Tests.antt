-- ===== src/PsqlWriter/Tests.antt =====
-- The theorems on batches at concrete inputs.
pub mod Whole
use sqlitewrite.PsqlWriter.Printed.{IsPrinted}
use sqlitewrite.Text.Dict.{lookup}
use sqlitewrite.Base.{Option}
use sqlitewrite.PsqlWriter.Once.{message_loop-names_once, count, appears}
use sqlitewrite.Base.{if◌then◌else◌}
use sqlitewrite.PsqlWriter.Whole.{Rows, commit_thread-inserts_all, add_all}
use sqlitewrite.MiniPsql.Returns.{IsObliging}
use sqlitewrite.PsqlWriter.Pipe.{unopened}
use sqlitewrite.PsqlWriter.Requests.{commit_thread-Carries}
use sqlitewrite.PsqlWriter.Log.{Carries}
use sqlitewrite.MiniPsql.Requests.{requests}
use sqlitewrite.PsqlWriter.Unique.{works}
use sqlitewrite.PsqlWriter.Grouping.{for_table, received}
use sqlitewrite.PsqlWriter.Cleared.{commit_thread-Cleared}
use sqlitewrite.MiniPsql.Cleared.{Cleared}
use sqlitewrite.PsqlWriter.Turn.{commit_thread-committed}
use sqlitewrite.MiniPsql.Turn.{transaction_after}
use sqlitewrite.Text.Dict.{at}
use sqlitewrite.Base.Exec.{ok}
use sqlitewrite.PsqlWriter.Limits.{length-all_strings-bounded}
use sqlitewrite.PsqlWriter.Ending.{PipeEnds, is_open}
use sqlitewrite.PsqlWriter.Flags.{laps, laps-bounded, OnlyBit, set_non_blocking-OnlyBit}
use sqlitewrite.PsqlWriter.Delivery.{Drained, thread_rounds-Drained}
use sqlitewrite.PsqlWriter.System.{System, set_non_blocking, Process, SysCall}
use sqlitewrite.MiniPsql.Db.{Call, Server, Reply, new_db}
use sqlitewrite.PsqlWriter.Thread.{
  Worker, message_loop, value_loop, need_column, contains, on_mp, commit_thread,
}
use sqlitewrite.Base.{
  ℕ, zero, suc, ◌≡◌, ◌*◌, ◌+◌, some, [], ◌∷◌, ◌++◌, List, refl, ◌≤◌, ◌<◌, true, false, arith,
}
use sqlitewrite.Base.Int.{pos}
use sqlitewrite.Base.Lists.{length, get_elem?}
use sqlitewrite.Text.{Text, codes}
use sqlitewrite.PsqlWriter.Message.{Var, Message}
use sqlitewrite.PsqlWriter.Batch.{Read, Work, next_round, push_work}
use sqlitewrite.PsqlWriter.Query.{insert_query, all_strings, parameter}
use sqlitewrite.PsqlWriter.Grouping.{Grouped, next_round-Grouped}
use sqlitewrite.PsqlWriter.Parameters.{insert_query_lem, joined, rows_from, get_elem-all_strings}

abbrev pub first_message : Message
first_message = record { table = codes "t"; values = (codes "a", Var.int32 (pos 1)) ∷ [] }

abbrev pub second_message : Message
second_message = record { table = codes "t"; values = (codes "b", Var.string (codes "x")) ∷ [] }

abbrev pub two_messages : List Message
two_messages = first_message ∷ second_message ∷ []

abbrev two_fields : List Text
two_fields = codes "a" ∷ codes "b" ∷ []

abbrev two_reads : ℕ → Read
two_reads zero = Read.message first_message
two_reads (suc zero) = Read.message second_message
two_reads _ = Read.again

abbrev two_work : Work
two_work = (codes "t", two_messages) ∷ []

next_round-Grouped_example : Grouped two_reads 10000 0 [] two_work 3
unfolding next_round push_work codes sqlitewrite.Text.Dict.insert sqlitewrite.Text.text_dec
    sqlitewrite.Text.Dict.at sqlitewrite.Text.Dict.lookup
next_round-Grouped_example = next_round-Grouped two_reads 0 3 two_work refl

insert_query_lem_example :
    insert_query (codes "t") two_fields two_messages
    ≡ codes "insert into "
      ++ (codes "t"
          ++ (codes " ("
              ++ (joined two_fields
                  ++ (codes ") values " ++ joined (rows_from 1 two_fields two_messages)))))
insert_query_lem_example =
    insert_query_lem (codes "t") two_fields first_message (second_message ∷ [])

get_elem-all_strings_example :
    (p : Option Text) × (get_elem?
        (all_strings (λ d. []) two_fields two_messages)
        (1 * length two_fields + 1)
      ≡ some p)
    × IsPrinted (λ d. []) (lookup (codes "b") second_message.values) p
get_elem-all_strings_example =
    get_elem-all_strings (λ d. []) two_fields two_messages 1 1 second_message (codes "b") refl refl

abbrev pub idle_worker : Worker
idle_worker = record { db = new_db; schemas = []; prevcommit = 0 }

abbrev pub silent : Server
silent = record { reply = λ h c. Reply.command_ok }

message_loop-names_once_example :
    count (codes "b") two_fields ≡ (if appears (codes "b") two_messages then 1 else 0)
unfolding message_loop value_loop need_column contains on_mp codes sqlitewrite.Base.Exec.◌>>=◌
    sqlitewrite.Sort.binary_search sqlitewrite.Text.Dict.at sqlitewrite.Text.Dict.lookup
    sqlitewrite.MiniPsql.Schema.add_table_column sqlitewrite.MiniPsql.Schema.table_exists
    sqlitewrite.MiniPsql.Schema.table_schema sqlitewrite.MiniPsql.Db.exec
    sqlitewrite.MiniPsql.Db.ask sqlitewrite.MiniPsql.Schema.name_and_udt sqlitewrite.Text.text_dec
    sqlitewrite.Text.Dict.insert sqlitewrite.Sort.sort sqlitewrite.Text.Order.text_lt
message_loop-names_once_example =
    message_loop-names_once silent (λ d. []) (λ h. 0) (λ fs. fs) (codes "t") two_messages
      idle_worker two_fields refl (codes "b")

length-all_strings-bounded_example :
    length (all_strings (λ d. []) (codes "a" ∷ []) (at [] (codes "t") two_work))
    < 60000 + length (codes "a" ∷ [])
unfolding next_round push_work codes sqlitewrite.Text.Dict.insert sqlitewrite.Text.text_dec
    sqlitewrite.Text.Dict.at sqlitewrite.Text.Dict.lookup
length-all_strings-bounded_example =
    length-all_strings-bounded (λ d. []) two_reads 0 3 two_work (codes "t") (codes "a" ∷ []) refl
      (refl, (refl, tt))

-- `fcntl` fails.
abbrev failing : System
failing = record {
  poll = λ h c. (0, record { pollerr = false; pollhup = false });
  fcntl = λ h c. 4294967295;
  strerror = λ h. [];
  msec = λ t. t;
  nonblock = 2048;
}

abbrev new_process : Process
new_process = record { calls = [] }

set_non_blocking-OnlyBit_example :
    ((set_non_blocking failing 3 true new_process).0 ≡ ok tt)
    × (new : ℕ) × (((set_non_blocking failing 3 true new_process).1).calls
        ≡ [] ++ (SysCall.getfl 3 ∷ SysCall.setfl 3 new ∷ []))
    × OnlyBit failing true 4294967295 new
set_non_blocking-OnlyBit_example = set_non_blocking-OnlyBit failing 3 true new_process (omega arith)

abbrev microseconds : ℕ → ℕ
microseconds n = 1000 * n

goes_on : (n : ℕ) → microseconds n ≤ microseconds (n + 1)
goes_on n = omega arith

laps-bounded_example :
    1000 * (laps microseconds 3 (record { reads = 1; start_time = 0 })).0 + 0
    ≤ ((laps microseconds 3 (record { reads = 1; start_time = 0 })).1).start_time
laps-bounded_example =
    laps-bounded microseconds 3 (record { reads = 1; start_time = 0 }) goes_on (omega arith)
