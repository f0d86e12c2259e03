-- ===== src/SqliteWriter/Follows.antt =====
-- What comes before the execution of an insert statement executes nothing.
use sqlitewrite.MiniSqlite.Words.{changes_rows}
use sqlitewrite.SqliteWriter.Loop.{column_loop-Keeps}
use sqlitewrite.MiniSqlite.Frame.{send-Keeps, ask-Keeps, exec-Keeps, IsFramedFor}
use sqlitewrite.Base.{◌≡◌, Bool, true, false, Option, none, some, [], ◌∷◌, ◌++◌, refl}
use sqlitewrite.Base.Hoare.{Keeps, Keeps-pure, Keeps-gets, Keeps-raise, Keeps-modify, Keeps-bind}
use sqlitewrite.Text.{Text}
use sqlitewrite.Sqlite.{Stmt, Call, History, Engine, PrepareReply}
use sqlitewrite.MiniSqlite.Db.{Db, send, ask, exec}
use sqlitewrite.MiniSqlite.Statement.{prepare, finalize_old, prepare_result, set_stmt}
use sqlitewrite.SqliteWriter.Frame.{ensures_on_db_only, IsFramedWriterFor}
use sqlitewrite.SqliteWriter.Writer.{Writer}
use sqlitewrite.SqliteWriter.Insert.{Values, new_statement}

-- A step of a prepared statement, or a text for `sqlite3_exec` that may change rows.
abbrev pub executes : Call → Bool
executes (Call.step p) = true
executes (Call.exec sql) = changes_rows sql
executes c = false

-- The calls `h'` are the calls `h` and then others that step no prepared statement and change no
-- row.
pub data Follows (h : History) : History → Type 0 where
  same : {h' : History} → h' ≡ h → Follows h h'
  more :
      {k h' : History} (c : Call)
      → Follows h k
      → executes c ≡ false
      → h' ≡ k ++ (c ∷ [])
      → Follows h h'

module _ (h : History) where
  abbrev pub FollowsDb : Db → Type 0
  FollowsDb db = Follows h db.calls

  FollowsDb-framed : IsFramedFor (λ c. executes c ≡ false) FollowsDb
  FollowsDb-framed = record {
    on_call = λ c db q p. Follows.more c p q refl;
    on_rows = λ rows db p. p;
    on_counters = λ execs sorts fullscans autoindexes db p. p;
  }

  pub send-Follows : (c : Call) → executes c ≡ false → Keeps FollowsDb (send c)
  send-Follows = send-Keeps FollowsDb FollowsDb-framed

  pub ask-Follows :
      {A : Type 0} (c : Call) (reply : History → A)
      → executes c ≡ false
      → Keeps FollowsDb (ask c reply)
  ask-Follows = ask-Keeps FollowsDb FollowsDb-framed

  pub exec-Follows :
      (e : Engine) (sql : Text) → changes_rows sql ≡ false → Keeps FollowsDb (exec e sql)
  exec-Follows = exec-Keeps FollowsDb FollowsDb-framed

  finalize_old-Follows :
      (table : Text) (old : Option Stmt) → Keeps FollowsDb (finalize_old table old)
  unfolding finalize_old set_stmt
  finalize_old-Follows table none = Keeps-pure tt
  finalize_old-Follows table (some old) =
      Keeps-bind (send-Follows _ refl) (λ _. Keeps-modify _ (λ db p. p))

  prepare_result-Follows :
      (table sql : Text) (reply : PrepareReply) → Keeps FollowsDb (prepare_result table sql reply)
  unfolding prepare_result set_stmt
  prepare_result-Follows table sql (PrepareReply.prepared none) = Keeps-modify _ (λ db p. p)
  prepare_result-Follows table sql (PrepareReply.prepared (some a)) = Keeps-modify _ (λ db p. p)
  prepare_result-Follows table sql (PrepareReply.refused m) =
      Keeps-bind (Keeps-modify _ (λ db p. p)) (λ _. Keeps-raise _)

  pub prepare-Follows : (e : Engine) (table sql : Text) → Keeps FollowsDb (prepare e table sql)
  unfolding prepare
  prepare-Follows e table sql = Keeps-bind (Keeps-gets _) λ old.
      Keeps-bind (finalize_old-Follows table old)
        λ _. Keeps-bind (ask-Follows _ _ refl) (λ reply. prepare_result-Follows table sql reply)

  abbrev pub FollowsWriter : Writer → Type 0
  FollowsWriter w = Follows h w.db.calls

  FollowsWriter-framed : IsFramedWriterFor (λ c. executes c ≡ false) FollowsWriter
  FollowsWriter-framed = record { on_db = λ w. FollowsDb-framed; on_columns = λ columns w p. p }

  pub new_statement-Follows :
      (e : Engine) (table : Text) (values : Values) (replace : Bool)
      → Keeps FollowsWriter (new_statement e table values replace)
  unfolding new_statement
  new_statement-Follows e table values replace =
      Keeps-bind
        (column_loop-Keeps FollowsWriter FollowsWriter-framed (λ sql q. q.1) e table values true _
          _)
        λ _.
          Keeps-bind (ensures_on_db_only (prepare-Follows e table _))
            (λ _. Keeps-modify _ (λ w p. p))
