-- ===== src/PsqlWriter/Turn.antt =====
-- The transactions of the thread, from its first statement to its last.
use sqlitewrite.PsqlWriter.Protocol.{IsProtocol, work_then_finish-Ensures}
use sqlitewrite.PsqlWriter.Calm.{commit_thread-Ensures}
use sqlitewrite.Base.{ℕ, ◌+◌, ◌≡◌, true, false, some, List, refl}
use sqlitewrite.Base.Exec.{ok}
use sqlitewrite.Base.Hoare.{Ensures, at_ok, Anything}
use sqlitewrite.Text.{Text, codes, text_dec}
use sqlitewrite.MiniPsql.Db.{Server, History, new_db}
use sqlitewrite.MiniPsql.Turn.{
  Turn, transaction_after, exec-Turn, exec_params-Turn, table_schema-Turn, add_table_column-Turn,
  connect-Turn, disconnect-Turn,
}
use sqlitewrite.PsqlWriter.Batch.{Read}
use sqlitewrite.PsqlWriter.Thread.{Worker, commit_thread}
use sqlitewrite.PsqlWriter.Ending.{PipeEnds}
use sqlitewrite.PsqlWriter.Delivery.{thread_rounds-Drained}

module _ (s : Server) where
  Turn-IsProtocol : IsProtocol s Turn Anything
  unfolding codes text_dec
  Turn-IsProtocol = record {
    calm = record {
      opens = connect-Turn s;
      begins = exec-Turn s _ false true refl;
      commits = exec-Turn s _ true false refl;
      schemas = table_schema-Turn s true;
      adds = add_table_column-Turn s true;
      closes = disconnect-Turn s;
    };
    inserts = exec_params-Turn s true;
  }

  module _ (show_double : ℕ → Text) (now : History → ℕ) (iterate : List Text → List Text)
      (reads : ℕ → Read) (n : ℕ) (ends : PipeEnds reads n) where
    commit_thread-Turn :
        Ensures
          (λ w. Turn false w.db)
          (commit_thread s show_double now iterate reads (n + 2))
          (λ _ w. Turn false w.db)
          Anything
    commit_thread-Turn =
        let d = thread_rounds-Drained s show_double now iterate reads n ends in
        commit_thread-Ensures s Turn-IsProtocol.calm show_double now iterate reads (n + 2)
          (rw d.runs (work_then_finish-Ensures s Turn-IsProtocol show_double now iterate d.batches))

    -- When the thread returns after its pipe has come to its end, its connection has begun and
    -- committed in turn, from its opening to its closing, and no transaction is left open.
    pub commit_thread-committed :
        (w : Worker)
        → w.db ≡ new_db
        → (commit_thread s show_double now iterate reads (n + 2) w).0 ≡ ok tt
        → transaction_after
            (some false)
            ((commit_thread s show_double now iterate reads (n + 2) w).1).db.calls
          ≡ some false
    commit_thread-committed w h r = (at_ok w commit_thread-Turn (rw h (refl, refl)) r).0
