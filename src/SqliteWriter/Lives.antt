-- ===== src/SqliteWriter/Lives.antt =====
-- The constructor, the commit thread and the destructor return where nothing fails.
use sqlitewrite.Base.{ℕ, zero, suc, ◌+◌, ◌%◌, ◌≡◌, Bool, Option, none, some, [], ◌∷◌, eqb, ◌&&◌}
use sqlitewrite.Base.Exec.{ok, err, Result}
use sqlitewrite.Base.Hoare.{
  Ends, ensures_bind, ensures_pure, ensures_modify, ensures_if, ensures_gets, ensures_weaken,
  Anything, Never, Returns,
}
use sqlitewrite.Text.{Text}
use sqlitewrite.Text.Dict.{Dict}
use sqlitewrite.Sqlite.{Engine, History, Stmt}
use sqlitewrite.MiniSqlite.Db.{exec}
use sqlitewrite.MiniSqlite.Lifetime.{
  Flag, begin, commit, cycle, configure, open_db, finalize_all, destroy_db,
}
use sqlitewrite.MiniSqlite.Returns.{IsObliging, exec-Returns, ensures_ask, send-Returns}
use sqlitewrite.SqliteWriter.Writer.{Writer}
use sqlitewrite.SqliteWriter.Returns.{on_db-Returns, then_, pure-Returns}
use sqlitewrite.SqliteWriter.Lifetime.{
  start_batching, constructor_body, unwound, unwind, construct, thread_round, commit_thread,
  destroy,
}

module _ (e : Engine) (o : IsObliging e) where
  statement-Returns : (sql : Text) → Returns (exec e sql)
  statement-Returns sql =
      ensures_weaken (λ db p. p) (λ rows db p. tt) (λ db p. p)
        (exec-Returns Anything e o sql (λ h. o.exec_texts h sql))

  begin-Returns : Returns (begin e)
  unfolding begin
  begin-Returns =
      ensures_bind {R = λ _. Anything} (ensures_modify _ (λ db p. p))
        λ _. ensures_bind (statement-Returns _) (λ _. ensures_pure tt (λ db p. p))

  commit-Returns : Returns (commit e)
  unfolding commit
  commit-Returns =
      ensures_bind {R = λ _. Anything} (ensures_modify _ (λ db p. p))
        λ _. ensures_bind (statement-Returns _) (λ _. ensures_pure tt (λ db p. p))

  cycle-Returns : Returns (cycle e)
  unfolding cycle
  cycle-Returns = ensures_bind (statement-Returns _) (λ _. ensures_pure tt (λ db p. p))

  finalize_all-Returns : (stmts : Dict (Option Stmt)) → Returns (finalize_all e stmts)
  unfolding finalize_all
  finalize_all-Returns [] = ensures_pure tt (λ db p. p)
  finalize_all-Returns ((_, none) ∷ rest) = finalize_all-Returns rest
  finalize_all-Returns ((_, some stmt) ∷ rest) =
      ensures_bind (send-Returns _) (λ _. finalize_all-Returns rest)

  destroy_db-Returns : Returns (destroy_db e)
  unfolding destroy_db
  destroy_db-Returns = ensures_bind {R = λ _. Anything} (ensures_gets _ (λ db p. p)) λ open_.
      ensures_bind (ensures_if open_ (λ _. commit-Returns) (λ _. ensures_pure tt (λ db p. p))) λ _.
        ensures_bind {R = λ _. Anything} (ensures_gets _ (λ db p. p))
          λ stmts. ensures_bind (finalize_all-Returns stmts) (λ _. send-Returns _)

  configure-Returns : Returns (configure e)
  unfolding configure
  configure-Returns = ensures_bind (send-Returns _) λ _. ensures_bind (statement-Returns _) λ _.
      ensures_bind (statement-Returns _)
        λ _. ensures_bind (send-Returns _) λ _. ensures_bind (send-Returns _) λ _. send-Returns _

  thread_round-Returns : (n : ℕ) → Returns (thread_round e n)
  unfolding thread_round
  thread_round-Returns n =
      ensures_if (eqb (n % 20) 0) (λ _. on_db-Returns cycle-Returns) (λ _. pure-Returns tt)

  pub commit_thread-Returns : (rounds n : ℕ) → Returns (commit_thread e rounds n)
  unfolding commit_thread
  commit_thread-Returns zero n = pure-Returns tt
  commit_thread-Returns (suc rounds) n =
      then_ (thread_round-Returns n) (λ _. commit_thread-Returns rounds (n + 1))

  pub destroy-Returns : (in_round : Bool) (n : ℕ) → Returns (destroy e in_round n)
  unfolding destroy
  destroy-Returns in_round n = then_ (ensures_modify _ (λ w p. p)) λ _.
      then_ (ensures_gets _ (λ w p. p)) λ running.
        then_
          (ensures_if (running && in_round) (λ _. thread_round-Returns n) (λ _. pure-Returns tt))
          λ _. then_ (ensures_modify _ (λ w p. p)) (λ _. on_db-Returns destroy_db-Returns)

  unwound-Returns :
      (r : Result (Unit {0})) (w : Writer)
      → Ends (λ _. Anything) Never (r, w)
      → Ends (λ _. Anything) Never (unwound e r w)
  unfolding unwound
  unwound-Returns (ok u) w h = tt
  unwound-Returns (err x) w h = h

  -- The file can be opened.
  module _ (opens : (h : History) (fname : Text) (flags : ℕ) → e.open_v2 h fname flags ≡ 0) where
    open_db-Returns : (fname : Text) (flag : Flag) → Returns (open_db e fname flag)
    unfolding open_db
    open_db-Returns fname flag =
        ensures_bind (ensures_ask {Q = λ rc. rc ≡ 0} _ _ (λ h. opens h fname _))
          λ rc. record { at = λ db zero_. rw zero_ (configure-Returns.at db tt) }

    start_batching-Returns : (flag : Flag) → Returns (start_batching e flag)
    unfolding start_batching
    start_batching-Returns Flag.no_flag =
        then_ (on_db-Returns begin-Returns) (λ _. ensures_modify _ (λ w p. p))
    start_batching-Returns Flag.read_only = pure-Returns tt
    start_batching-Returns Flag.no_transactions = pure-Returns tt

    body-Returns : (meta : Dict (Dict Text)) (flag : Flag) → Returns (constructor_body e meta flag)
    unfolding constructor_body
    body-Returns meta flag =
        then_ (on_db-Returns (statement-Returns _))
          λ _. then_ (start_batching-Returns flag) (λ _. ensures_modify _ (λ w p. p))

    pub construct-Returns :
        (fname : Text) (meta : Dict (Dict Text)) (flag : Flag)
        → Returns (construct e fname meta flag)
    unfolding construct unwind
    construct-Returns fname meta flag =
        then_ (on_db-Returns (open_db-Returns fname flag))
          λ _. record { at = λ w p. unwound-Returns _ _ ((body-Returns meta flag).at w p) }
