-- ===== src/SqliteWriter/Program/Tests.antt =====
-- The theorem on the log of a writer at a concrete program: one write and a round of the thread.
use sqlitewrite.Base.Hoare.{ends_returned}
use sqlitewrite.SqliteWriter.Program.Texts.{texts}
use sqlitewrite.SqliteWriter.Program.ReadOnly.{opening, all_asked, Reach-texts}
use sqlitewrite.SqliteWriter.Typed.{is_nan}
use sqlitewrite.SqliteWriter.Lives.{destroy-Returns}
use sqlitewrite.SqliteWriter.Program.Released.{destroy-released}
use sqlitewrite.MiniSqlite.Alive.{alive}
use sqlitewrite.Base.{
  ◌≡◌, ◌≢◌, some, none, [], ◌∷◌, refl, false, true, Option, if◌then◌else◌, ◌==◌, ◌++◌,
}
use sqlitewrite.Base.Exec.{ok}
use sqlitewrite.Text.{codes, text_eq}
use sqlitewrite.Sqlite.{PrepareReply, History, Binding, Cell}
use sqlitewrite.MiniSqlite.Lifetime.{Flag}
use sqlitewrite.MiniSqlite.Tests.{quiet, quiet-IsObliging}
use sqlitewrite.SqliteWriter.Writer.{Writer}
use sqlitewrite.SqliteWriter.Insert.{add_value_generic}
use sqlitewrite.SqliteWriter.Lifetime.{construct, new_writer, destroy}
use sqlitewrite.SqliteWriter.Returns.{add_value_generic-returns}
use sqlitewrite.SqliteWriter.Tests.{sample}
use sqlitewrite.SqliteWriter.Program.Batched.{IsBatched, Reach-IsBatched}
use sqlitewrite.SqliteWriter.Program.{Reach, Step, Text, query_gen}
use sqlitewrite.SqliteWriter.Program.Log.{Entry, Executes, Logs, Logs-Executes}

abbrev first_entry : Entry
first_entry = record { table = codes "data"; values = sample; replace = false }

abbrev new_log : Writer
new_log = (construct quiet (codes "example.sqlite3") [] Flag.no_flag (new_writer Flag.no_flag)).1

constructed :
    (construct quiet (codes "example.sqlite3") [] Flag.no_flag (new_writer Flag.no_flag)).0 ≡ ok tt
unfolding construct sqlitewrite.Base.Exec.◌>>=◌ sqlitewrite.SqliteWriter.Writer.on_db
    sqlitewrite.MiniSqlite.Lifetime.open_db sqlitewrite.MiniSqlite.Db.ask
    sqlitewrite.MiniSqlite.Db.send sqlitewrite.MiniSqlite.Db.exec
    sqlitewrite.MiniSqlite.Lifetime.begin
constructed = refl

named : codes "data" ≢ []
unfolding codes
named e = cc

writable : (w : Writer) → IsBatched Flag.no_flag w → w.flag ≢ Flag.read_only
writable w p e = cc (p.same_flag, e)

compiled : (h : History) → PrepareReply.prepared (some 1) ≢ PrepareReply.prepared none
compiled h e = cc

abbrev written : Writer
written = (add_value_generic quiet (codes "data") sample false new_log).1

write_returned : (add_value_generic quiet (codes "data") sample false new_log).0 ≡ ok tt
write_returned =
    add_value_generic-returns quiet quiet-IsObliging (codes "data") sample false new_log (
      writable new_log
        (Reach-IsBatched quiet (codes "example.sqlite3") [] Flag.no_flag (Reach.start constructed)))

written-Logs : Logs quiet (codes "example.sqlite3") [] Flag.no_flag (first_entry ∷ []) written
written-Logs = Logs.write first_entry (Logs.opened constructed) named compiled write_returned refl

Logs-Executes_example : Executes (first_entry ∷ []) written.db.calls
Logs-Executes_example = Logs-Executes quiet (codes "example.sqlite3") [] Flag.no_flag written-Logs

written-Reach : Reach quiet (codes "example.sqlite3") [] Flag.no_flag written
written-Reach =
    Reach.next (Reach.start constructed) (Step.add_value new_log (codes "data") sample false)

destroy-released_example : alive quiet (destroy quiet true 20 written).1.db.calls ≡ some []
destroy-released_example =
    destroy-released quiet (codes "example.sqlite3") [] Flag.no_flag true 20 written written-Reach
      (ends_returned _ _ ((destroy-Returns quiet quiet-IsObliging true 20).at written tt))

-- A column that refuses the values of other types.
abbrev only : Text → Text → Cell → Option Cell
only type declared c = if declared == type then some c else none

abbrev keep : Text → Binding → Option Cell
keep t (Binding.int z) = only (codes "INT") t (Cell.integer z)
keep t (Binding.int64 z) = only (codes "INT") t (Cell.integer z)
keep t (Binding.double d) = only (codes "REAL") t (if is_nan d then Cell.null else Cell.float d)
keep t (Binding.text s) = only (codes "TEXT") t (Cell.text (some s))
keep t (Binding.blob []) = only (codes "BLOB") t (Cell.blob none)
keep t (Binding.blob (b ∷ bs)) = only (codes "BLOB") t (Cell.blob (some (b ∷ bs)))
keep t (Binding.zeroblob n) = only (codes "BLOB") t (Cell.blob none)
keep t Binding.null = some Cell.null

abbrev new_reader : Writer
new_reader =
    (construct quiet (codes "example.sqlite3") [] Flag.read_only (new_writer Flag.read_only)).1

reader_constructed :
    (construct quiet (codes "example.sqlite3") [] Flag.read_only (new_writer Flag.read_only)).0
    ≡ ok tt
unfolding construct sqlitewrite.Base.Exec.◌>>=◌ sqlitewrite.SqliteWriter.Writer.on_db
    sqlitewrite.MiniSqlite.Lifetime.open_db sqlitewrite.MiniSqlite.Db.ask
    sqlitewrite.MiniSqlite.Db.send sqlitewrite.MiniSqlite.Db.exec
reader_constructed = refl

abbrev refused_write : Writer
refused_write = (add_value_generic quiet (codes "data") sample false new_reader).1

abbrev a_read :
    Reach quiet
      (codes "example.sqlite3")
      []
      Flag.read_only
      (query_gen quiet (codes "select 1") [] 100 refused_write).1
a_read =
    Reach.next
      (Reach.next (Reach.start reader_constructed)
        (Step.add_value new_reader (codes "data") sample false))
      (Step.query refused_write (codes "select 1") [] 100)

Reach-texts_example :
    texts (query_gen quiet (codes "select 1") [] 100 refused_write).1.db.calls
    ≡ opening ++ all_asked quiet (codes "example.sqlite3") [] a_read
Reach-texts_example = Reach-texts quiet (codes "example.sqlite3") [] a_read
