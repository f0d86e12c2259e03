-- ===== src/PsqlWriter/Cleared.antt =====
-- The results that the thread gets from libpq.
use sqlitewrite.PsqlWriter.Protocol.{IsProtocol, thread_rounds-Ensures}
use sqlitewrite.PsqlWriter.Calm.{commit_thread-Ensures}
use sqlitewrite.PsqlWriter.Batch.{Read}
use sqlitewrite.MiniPsql.Cleared.{
  Cleared, connect-Cleared, exec-Cleared, table_schema-Cleared, add_table_column-Cleared,
  exec_params-Cleared, disconnect-Cleared,
}
use sqlitewrite.Base.{ℕ, List, ◌⊎◌, inl, inr}
use sqlitewrite.Base.Hoare.{ensures_weaken, keeps_always}
use sqlitewrite.Text.{Text}
use sqlitewrite.MiniPsql.Db.{Server, History}
use sqlitewrite.PsqlWriter.Thread.{Worker, commit_thread}

either : {A : Type 0} → A ⊎ A → A
either (inl h) = h
either (inr h) = h

module _ (s : Server) where
  Cleared-IsProtocol : IsProtocol s (λ b. Cleared) Cleared
  Cleared-IsProtocol = record {
    calm = record {
      opens = connect-Cleared s;
      begins = exec-Cleared s _;
      commits = exec-Cleared s _;
      schemas = table_schema-Cleared s;
      adds = add_table_column-Cleared s;
      closes = disconnect-Cleared s;
    };
    inserts = exec_params-Cleared s;
  }

  module _ (show_double : ℕ → Text) (now : History → ℕ) (iterate : List Text → List Text) where
    -- In whichever round the thread is, and whether it has returned or thrown, whatever the server
    -- answers: each result that libpq gave has been cleared once, before the next call.
    pub commit_thread-Cleared :
        (reads : ℕ → Read) (rounds : ℕ) (w : Worker)
        → Cleared w.db
        → Cleared (commit_thread s show_double now iterate reads rounds w).1.db
    commit_thread-Cleared reads rounds w h =
        keeps_always (λ w. Cleared w.db) _ _
          ((commit_thread-Ensures s Cleared-IsProtocol.calm show_double now iterate reads rounds (
              ensures_weaken (λ w k. k) (λ _ w k. either k) (λ w k. k)
                (thread_rounds-Ensures s Cleared-IsProtocol show_double now iterate reads
                  (λ pos why e db k. k) rounds 0))).at
            w h)
