-- ===== src/PsqlWriter/Requests.antt =====
-- The insert statements that the thread sends are those of the messages that it received.
use sqlitewrite.PsqlWriter.Parameters.{insert_query-eq-insert_text}
use sqlitewrite.PsqlWriter.Printed.{all_strings-Prints, all_pointers-AreRead}
use sqlitewrite.PsqlWriter.Once.{Once, appears, count, message_loop-Once}
use sqlitewrite.PsqlWriter.Log.{in_order, works-in_order, Carries, Carries-append, Inserts}
use mathlib.Core.Path.{subst}
use sqlitewrite.Base.Exec.{ok}
use sqlitewrite.Base.Hoare.{
  Ensures, ensures_bind, ensures_pure, ensures_weaken, ensures_also, ensures_gets, ensures_if,
  ensures_given, at_ok, Anything,
}
use sqlitewrite.MiniPsql.Db.{Server, History, new_db}
use sqlitewrite.PsqlWriter.Message.{Message}
use sqlitewrite.Sort.{sort}
use sqlitewrite.Text.{Text, text_eq}
use sqlitewrite.Base.{
  List, ℕ, ◌∷◌, ◌++◌, ◌≡◌, ◌∙◌, [], refl, sym, append_assoc, ◌+◌, append-nil, false,
}
use sqlitewrite.MiniPsql.Requests.{
  Request, Requested, requests, connect-Requested, exec-Requested, disconnect-Requested,
  table_schema-Requested, add_table_column-Requested, exec_params-Requested,
}
use sqlitewrite.PsqlWriter.Calm.{
  IsCalm, on_mp-Ensures, pure-Works, load_schema-Works, message_loop-Works, commit_new_second-Works,
  last_commit-Ensures, commit_thread-Ensures,
}
use sqlitewrite.PsqlWriter.Thread.{Worker, insert_work, work_loop, commit_thread, message_loop}
use sqlitewrite.PsqlWriter.Delivery.{work_then_finish, thread_rounds-Drained}
use sqlitewrite.PsqlWriter.Unique.{works}
use sqlitewrite.PsqlWriter.Ending.{PipeEnds}
use sqlitewrite.PsqlWriter.Grouping.{received, for_table}
use sqlitewrite.PsqlWriter.Batch.{Read, Work}

module _ (s : Server) (show_double : ℕ → Text) (now : History → ℕ) (iterate : List Text → List Text)
    (all : (f : Text) (fs : List Text) → count f (iterate fs) ≡ count f fs) where
  -- The thread without its insert statements asks for nothing with parameters.
  Requested-IsCalm : (rs : List Request) → IsCalm s (λ b. Requested rs) Anything
  Requested-IsCalm rs = record {
    opens = connect-Requested s rs;
    begins = exec-Requested s rs _;
    commits = exec-Requested s rs _;
    schemas = table_schema-Requested s rs;
    adds = add_table_column-Requested s rs;
    closes = disconnect-Requested s rs;
  }

  loop-Requested :
      (rs : List Request) (table : Text) (work : List Message)
      → Ensures
          (λ w. Requested rs w.db)
          (message_loop s show_double now iterate table work [])
          (λ fields w. Once (λ f. appears f work) (iterate fields) × Requested rs w.db)
          Anything
  loop-Requested rs table work =
      ensures_weaken (λ w h. (tt, h)) (λ fields w (once, h). (λ f. all f fields ∙ once f, h))
        (λ w h. tt)
        (ensures_also
          (message_loop-Once s show_double now iterate table work [] (λ f. false) (λ f. refl))
          (message_loop-Works s (Requested-IsCalm rs) show_double now iterate table work []))

  insert_work-Requested :
      (rs : List Request) (table : Text) (work : List Message)
      → Ensures
          (λ w. Requested rs w.db)
          (insert_work s show_double now iterate table work)
          (λ _ w.
            (r : Request) × Inserts show_double (table, work) r × Requested (rs ++ (r ∷ [])) w.db)
          Anything
  unfolding insert_work
  insert_work-Requested rs table work =
      ensures_bind {R = λ _ w. Requested rs w.db} (ensures_gets _ (λ w h. h)) λ known.
        ensures_bind
          (ensures_if known (λ _. pure-Works s (Requested-IsCalm rs) show_double now iterate tt)
            (λ _. load_schema-Works s (Requested-IsCalm rs) show_double now iterate table))
          λ _. ensures_bind (loop-Requested rs table work) λ fields. ensures_given λ has.
            ensures_bind (on_mp-Ensures (exec_params-Requested s rs _ _)) λ _.
              ensures_weaken (λ w h. h)
                (λ _ w h. (
                  _,
                  (
                    iterate fields,
                    _,
                    has,
                    insert_query-eq-insert_text table (iterate fields) work,
                    all_strings-Prints show_double (iterate fields) work,
                    all_pointers-AreRead _,
                  ),
                  h,
                ))
                (λ w h. tt) (commit_new_second-Works s (Requested-IsCalm _) show_double now iterate)

  abbrev Carried : Work → Worker → Type 0
  Carried log w = Carries show_double log (requests w.db.calls)

  work_loop-Carried :
      (log work : Work)
      → Ensures
          (Carried log)
          (work_loop s show_double now iterate work)
          (λ _. Carried (log ++ work))
          Anything
  unfolding work_loop
  work_loop-Carried log [] =
      ensures_pure tt (λ w h. subst (λ l. Carried l w) (sym (append-nil log)) h)
  work_loop-Carried log ((table, work) ∷ rest) =
      ensures_bind
        (record {
          at = λ w h.
              (ensures_weaken (λ w k. k)
                  (λ _ w (r, i, k).
                    subst (Carries show_double (log ++ ((table, work) ∷ []))) (sym k)
                      (Carries-append show_double log _ (table, work) r h i))
                  (λ w k. k) (insert_work-Requested (requests w.db.calls) table work)).at
                w refl;
        })
        λ _.
          ensures_weaken (λ w h. h)
            (λ _ w h. subst (λ l. Carried l w) (append_assoc log ((table, work) ∷ []) rest) h)
            (λ w h. h) (work_loop-Carried (log ++ ((table, work) ∷ [])) rest)

  work_then_finish-Carried :
      (log : Work) (batches : List Work)
      → Ensures
          (Carried log)
          (work_then_finish s show_double now iterate batches)
          (λ _. Carried (log ++ in_order batches))
          Anything
  work_then_finish-Carried log [] = record {
    at = λ w h.
        (ensures_weaken (λ w k. k)
            (λ _ w k.
              subst (λ l. Carried l w) (sym (append-nil log))
                (subst (Carries show_double log) (sym k) h))
            (λ w k. k)
            (last_commit-Ensures s (Requested-IsCalm (requests w.db.calls)) show_double now
              iterate)).at
          w refl;
  }
  work_then_finish-Carried log (w ∷ ws) = ensures_bind (work_loop-Carried log _) λ _.
      ensures_weaken (λ w h. h)
        (λ _ u h. subst (λ l. Carried l u) (append_assoc log _ (in_order ws)) h) (λ w h. h)
        (work_then_finish-Carried (log ++ sort _ w) ws)

  module _ (reads : ℕ → Read) (n : ℕ) (ends : PipeEnds reads n) where
    commit_thread-Carried :
        Ensures
          (λ w. Requested [] w.db)
          (commit_thread s show_double now iterate reads (n + 2))
          (λ _.
            Carried
              (in_order (thread_rounds-Drained s show_double now iterate reads n ends).batches))
          Anything
    commit_thread-Carried =
        let d = thread_rounds-Drained s show_double now iterate reads n ends in
        commit_thread-Ensures s (Requested-IsCalm []) show_double now iterate reads (n + 2) (
          rw d.runs (
            ensures_weaken (λ w h. subst (Carries show_double []) (sym h) tt) (λ _ w h. h)
              (λ w h. h) (work_then_finish-Carried [] d.batches)))

    -- When the thread returns after its pipe has come to its end, and no read and no wait has
    -- failed, the statements with parameters that its server has been asked for are the insert
    -- statements of a list of messages by table, in order, each with the names of its messages,
    -- once, and their printed values, null where a message has none, each read up to its first NUL.
    -- For every table this list has exactly the messages for the table that came through the pipe,
    -- in the order of their arrival. The iteration over the set of names gives each name as often as
    -- it is in the set.
    pub commit_thread-Carries :
        (w : Worker)
        → w.db ≡ new_db
        → (commit_thread s show_double now iterate reads (n + 2) w).0 ≡ ok tt
        → (log : Work) × Carries show_double log
            (requests ((commit_thread s show_double now iterate reads (n + 2) w).1).db.calls)
          × ((t : Text) → works t log ≡ for_table t (received reads 0 (n + 1)))
    commit_thread-Carries w h r =
        let d = thread_rounds-Drained s show_double now iterate reads n ends in
        (
          in_order d.batches,
          at_ok w commit_thread-Carried (rw h refl) r,
          λ t. works-in_order t d.batches d.unique ∙ d.each t,
        )
