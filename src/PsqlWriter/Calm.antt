-- ===== src/PsqlWriter/Calm.antt =====
-- The thread without its insert statements, for every property that its other calls keep.
use sqlitewrite.MiniPsql.Schema.{table_schema, add_table_column}
use sqlitewrite.MiniPsql.Statement.{connect, disconnect}
use sqlitewrite.Base.{ℕ, Bool, true, false, List, [], ◌∷◌}
use sqlitewrite.Base.Exec.{ok, err, Exec, pure, Result, ◌>>◌}
use sqlitewrite.Base.Hoare.{
  Ends, Ensures, ensures_bind, ensures_gets, ensures_pure, ensures_modify, ensures_if,
}
use sqlitewrite.Text.{Text, codes, text_eq}
use sqlitewrite.MiniSqlite.Schema.{by_name}
use sqlitewrite.Sort.{binary_search}
use sqlitewrite.MiniPsql.Db.{Db, Server, History, exec}
use sqlitewrite.PsqlWriter.Message.{Var, Message}
use sqlitewrite.PsqlWriter.Batch.{Read}
use sqlitewrite.PsqlWriter.Thread.{
  Worker, on_mp, need_column, value_loop, message_loop, load_schema, commit_new_second, contains,
  commit_thread, thread_rounds,
}

pub on_mp-Ensures :
    {A : Type 0} {P : Db → Type 0} {Q : A → Db → Type 0} {E : Db → Type 0} {m : Exec Db A}
    → Ensures P m Q E
    → Ensures (λ w. P w.db) (on_mp m) (λ a w. Q a w.db) (λ w. E w.db)
unfolding on_mp
on_mp-Ensures {A = A} {Q = Q} {E = E} {m = m} h = record {
  at = λ w k. go (m w.db).0 (m w.db).1 w (h.at w.db k);
}
  where
    go :
        (r : Result A) (db : Db) (w : Worker)
        → Ends Q E (r, db)
        → Ends (λ a w. Q a w.db) (λ w. E w.db) (r, record w { db = db })
    go (ok x) db w k = k
    go (err x) db w k = k

-- `P true` holds between the calls of the thread while a transaction is open, and `P false` while
-- none is; `E` holds where a call throws. These are the calls without parameters.
pub record IsCalm (s : Server) (P : Bool → Db → Type 0) (E : Db → Type 0) : Type 0 where
  pub opens : (fname : Text) → Ensures (P false) (connect s fname) (λ _. P false) E
  pub begins : Ensures (P false) (exec s (codes "begin")) (λ _. P true) E
  pub commits : Ensures (P true) (exec s (codes "commit")) (λ _. P false) E
  pub schemas : (table : Text) → Ensures (P true) (table_schema s table) (λ _. P true) E
  pub adds :
      (table name type : Text)
      → Ensures (P true) (add_table_column s table name type) (λ _. P true) E
  pub closes : Ensures (P false) (disconnect s) (λ _. P false) E

abbrev pub InDb : (Bool → Db → Type 0) → Bool → Worker → Type 0
InDb P b w = P b w.db

-- `m` is a part of the thread's work that keeps a transaction open.
abbrev pub Works : {A : Type 0} → (Bool → Db → Type 0) → (Db → Type 0) → Exec Worker A → Type 0
Works P E m = Ensures (InDb P true) m (λ _. InDb P true) (λ w. E w.db)

module _ {P : Bool → Db → Type 0} {E : Db → Type 0} (s : Server) (c : IsCalm s P E)
    (show_double : ℕ → Text) (now : History → ℕ) (iterate : List Text → List Text) where
  pub pure-Works : {A : Type 0} (a : A) → Works P E (pure a)
  pure-Works a = ensures_pure a (λ w k. k)

  need_column-Works :
      (table f : Text) (v : Var) → Works P E (need_column s show_double now iterate table f v)
  unfolding need_column
  need_column-Works table f v =
      ensures_bind {R = λ _. InDb P true} (ensures_gets _ (λ w k. k)) λ cols.
        ensures_if (binary_search by_name cols (f, [])) (λ _. pure-Works tt)
          (λ _. ensures_bind (on_mp-Ensures (c.adds table f _)) (λ _. ensures_modify _ (λ w k. k)))

  value_loop-Works :
      (table : Text) (values : List (Text × Var)) (fields : List Text)
      → Works P E (value_loop s show_double now iterate table values fields)
  unfolding value_loop
  value_loop-Works table [] fields = pure-Works fields
  value_loop-Works table ((f, v) ∷ values) fields =
      ensures_bind
        (ensures_if (contains f fields) (λ _. pure-Works tt) (λ _. need_column-Works table f v))
        (λ _. value_loop-Works table values _)

  pub message_loop-Works :
      (table : Text) (work : List Message) (fields : List Text)
      → Works P E (message_loop s show_double now iterate table work fields)
  unfolding message_loop
  message_loop-Works table [] fields = pure-Works fields
  message_loop-Works table (m ∷ ms) fields =
      ensures_bind (value_loop-Works table m.values fields)
        (λ fields'. message_loop-Works table ms fields')

  pub commit_new_second-Works : Works P E (commit_new_second s show_double now iterate)
  unfolding commit_new_second
  commit_new_second-Works = ensures_bind {R = λ _. InDb P true} (ensures_gets _ (λ w k. k)) λ due.
      ensures_if due
        (λ _.
          ensures_bind (on_mp-Ensures c.commits)
            λ _. ensures_bind (on_mp-Ensures c.begins) (λ _. ensures_modify _ (λ w k. k)))
        (λ _. pure-Works tt)

  pub load_schema-Works : (table : Text) → Works P E (load_schema s show_double now iterate table)
  unfolding load_schema
  load_schema-Works table =
      ensures_bind (on_mp-Ensures (c.schemas table)) (λ cols. ensures_modify _ (λ w k. k))

  -- The end of the thread, with the destructor of `mp`.
  pub last_commit-Ensures :
      Ensures
        (InDb P true)
        (on_mp (exec s (codes "commit")) >> on_mp (disconnect s))
        (λ _. InDb P false)
        (λ w. E w.db)
  last_commit-Ensures = ensures_bind (on_mp-Ensures c.commits) (λ _. on_mp-Ensures c.closes)

  -- The thread from its start on.
  pub commit_thread-Ensures :
      (reads : ℕ → Read) (rounds : ℕ) {Q : Worker → Type 0}
      → Ensures
          (InDb P true)
          (thread_rounds s show_double now iterate reads rounds 0)
          (λ _. Q)
          (λ w. E w.db)
      → Ensures
          (InDb P false)
          (commit_thread s show_double now iterate reads rounds)
          (λ _. Q)
          (λ w. E w.db)
  unfolding commit_thread
  commit_thread-Ensures reads rounds h = ensures_bind (on_mp-Ensures (c.opens _)) λ _.
      ensures_bind (on_mp-Ensures c.begins)
        λ _. ensures_bind {R = λ _. InDb P true} (ensures_modify _ (λ w k. k)) (λ _. h)
