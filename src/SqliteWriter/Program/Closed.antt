-- ===== src/SqliteWriter/Program/Closed.antt =====
-- The destructor `~SQLiteWriter` at the end of a writer's life.
use sqlitewrite.SqliteWriter.Frame.{ensures_on_db}
use sqlitewrite.Base.{true, sym}
use sqlitewrite.Base.{ℕ, ◌≡◌, Bool, false, some, if◌then◌else◌, ◌&&◌, refl}
use sqlitewrite.Base.Exec.{ok, Result, pure, err}
use sqlitewrite.Base.Hoare.{
  Ensures, ensures_bind, at_ok, ensures_modify, ensures_gets, Ends, ensures_weaken, ensures_pure,
  Anything,
}
use sqlitewrite.Text.{Text}
use sqlitewrite.Text.Dict.{Dict}
use sqlitewrite.Sqlite.{Engine}
use sqlitewrite.MiniSqlite.Lifetime.{Flag}
use sqlitewrite.MiniSqlite.Words.{transaction_after}
use sqlitewrite.SqliteWriter.Writer.{Writer}
use sqlitewrite.SqliteWriter.Turn.{InTurn, batches, destroy_db-InTurn}
use sqlitewrite.SqliteWriter.Lifetime.{destroy, thread_round}
use sqlitewrite.SqliteWriter.Program.{Reach}
use sqlitewrite.SqliteWriter.Program.Batched.{IsBatched, round-IsBatched, Reach-IsBatched}

ends_any :
    {A S : Type 0} (P : S → Type 0) (r : Result A) (s : S) → P s → Ends (λ _. P) Anything (r, s)
ends_any P (ok a) s p = p
ends_any P (err x) s p = tt

module _ (e : Engine) where
  -- The round in which the thread is when it is told to stop.
  last_round-IsBatched :
      (flag : Flag) (running in_round : Bool) (n : ℕ)
      → Ensures
          (λ w. (running ≡ w.thread) × IsBatched flag w)
          (if running && in_round then thread_round e n else pure tt)
          (λ _. IsBatched flag)
          Anything
  last_round-IsBatched flag true true n = record {
    at = λ w (runs, p). ends_any (IsBatched flag) _ _ (round-IsBatched e flag n w (sym runs) p);
  }
  last_round-IsBatched flag true false n = ensures_pure tt (λ w (_, p). p)
  last_round-IsBatched flag false in_round n = ensures_pure tt (λ w (_, p). p)

  pub destroy-InTurn :
      (flag : Flag) (in_round : Bool) (n : ℕ)
      → Ensures (IsBatched flag) (destroy e in_round n) (λ _ w. InTurn false w.db) Anything
  unfolding destroy
  destroy-InTurn flag in_round n =
      ensures_bind {R = λ _. IsBatched flag}
        (ensures_modify _
          (λ w p. record { turn = p.turn; thread = p.thread; same_flag = p.same_flag }))
        λ _.
          ensures_bind {R = λ running w. (running ≡ w.thread) × IsBatched flag w}
            (ensures_gets _ (λ w p. (refl, p)))
            λ running. ensures_bind (last_round-IsBatched flag running in_round n) λ _.
              ensures_bind {R = λ _ w. InTurn (batches flag) w.db}
                (ensures_modify _ (λ w p. p.turn))
                λ _. ensures_on_db λ w p.
                  ensures_weaken (λ db at_start. rw at_start p) (λ _ db t. t) (λ db t. tt)
                    (destroy_db-InTurn e (batches flag))

  -- When the destructor of a writer returns, in whichever round it finds the commit thread, every
  -- transaction that was begun has been committed: the transaction statements of the connection,
  -- from its opening to its closing, came in turn and leave no transaction open.
  pub destroy-committed :
      (fname : Text) (meta : Dict (Dict Text)) (flag : Flag) (in_round : Bool) (n : ℕ) (w : Writer)
      → Reach e fname meta flag w
      → (destroy e in_round n w).0 ≡ ok tt
      → transaction_after (some false) (destroy e in_round n w).1.db.calls ≡ some false
  destroy-committed fname meta flag in_round n w r h =
      (at_ok w (destroy-InTurn flag in_round n) (Reach-IsBatched e fname meta flag r) h).sent
