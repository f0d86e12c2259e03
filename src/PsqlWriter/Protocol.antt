-- ===== src/PsqlWriter/Protocol.antt =====
-- The order in which the thread uses its connection, for every property that its calls keep.
use sqlitewrite.Base.{refl, ◌++◌, ◌≡◌}
use sqlitewrite.Base.Exec.{raise, runtime_error}
use sqlitewrite.Base.Hoare.{ensures_raise}
use sqlitewrite.PsqlWriter.Calm.{
  IsCalm, InDb, Works, pure-Works, load_schema-Works, message_loop-Works, commit_new_second-Works,
  last_commit-Ensures, on_mp-Ensures,
}
use sqlitewrite.Text.Order.{text_lt}
use sqlitewrite.MiniPsql.Statement.{disconnect}
use sqlitewrite.Base.{zero, suc, ℕ, Bool, true, false, List, [], ◌∷◌, ◌⊎◌, inl, suc, Option, inr}
use sqlitewrite.Base.Exec.{◌>>◌}
use sqlitewrite.Base.Hoare.{
  Ensures, ensures_bind, ensures_gets, ensures_pure, ensures_if, ensures_weaken,
}
use sqlitewrite.Text.{Text, codes, text_eq}
use sqlitewrite.Sort.{sort}
use sqlitewrite.MiniPsql.Db.{Db, Server, History, exec, exec_params}
use sqlitewrite.PsqlWriter.Message.{Message}
use sqlitewrite.PsqlWriter.Batch.{Read, Work, Round, next_round}
use sqlitewrite.PsqlWriter.Thread.{on_mp, insert_work, work_loop, thread_rounds}
use sqlitewrite.PsqlWriter.Delivery.{work_then_finish}

-- With the insert statements.
pub record IsProtocol (s : Server) (P : Bool → Db → Type 0) (E : Db → Type 0) : Type 0 where
  pub calm : IsCalm s P E
  pub inserts :
      (query : Text) (params : List (Option Text))
      → Ensures (P true) (exec_params s query params) (λ _. P true) E

module _ {P : Bool → Db → Type 0} {E : Db → Type 0} (s : Server) (p : IsProtocol s P E)
    (show_double : ℕ → Text) (now : History → ℕ) (iterate : List Text → List Text) where
  insert_work-Works :
      (table : Text) (work : List Message)
      → Works P E (insert_work s show_double now iterate table work)
  unfolding insert_work
  insert_work-Works table work =
      ensures_bind {R = λ _. InDb P true} (ensures_gets _ (λ w k. k)) λ known.
        ensures_bind
          (ensures_if known (λ _. pure-Works s p.calm show_double now iterate tt)
            (λ _. load_schema-Works s p.calm show_double now iterate table))
          λ _.
            ensures_bind (message_loop-Works s p.calm show_double now iterate table work [])
              λ fields.
                ensures_bind (on_mp-Ensures (p.inserts _ _))
                  (λ _. commit_new_second-Works s p.calm show_double now iterate)

  work_loop-Works : (work : Work) → Works P E (work_loop s show_double now iterate work)
  unfolding work_loop
  work_loop-Works [] = pure-Works s p.calm show_double now iterate tt
  work_loop-Works ((table, work) ∷ rest) =
      ensures_bind (insert_work-Works table work) (λ _. work_loop-Works rest)

  pub work_then_finish-Ensures :
      (batches : List Work)
      → Ensures
          (InDb P true)
          (work_then_finish s show_double now iterate batches)
          (λ _. InDb P false)
          (λ w. E w.db)
  work_then_finish-Ensures [] = last_commit-Ensures s p.calm show_double now iterate
  work_then_finish-Ensures (w ∷ batches) =
      ensures_bind (work_loop-Works _) (λ _. work_then_finish-Ensures batches)

  -- The rounds of the thread: it is at work, or has ended.
  pub thread_rounds-Ensures :
      (reads : ℕ → Read)
      → ((pos : ℕ) (why : Text)
          → next_round reads pos ≡ Round.threw why
          → (db : Db) → P true db
          → E db)
      → (rounds pos : ℕ)
      → Ensures
          (InDb P true)
          (thread_rounds s show_double now iterate reads rounds pos)
          (λ _ w. InDb P true w ⊎ InDb P false w)
          (λ w. E w.db)
  unfolding thread_rounds
  thread_rounds-Ensures reads stops zero pos = ensures_pure tt (λ w k. inl k)
  thread_rounds-Ensures reads stops (suc rounds) pos =
      one (next_round reads pos) refl (λ next. thread_rounds-Ensures reads stops rounds next)
    where
      one :
          (r : Round)
          → next_round reads pos ≡ r
          → ((next : ℕ)
              → Ensures
                  (InDb P true)
                  (thread_rounds s show_double now iterate reads rounds next)
                  (λ _ w. InDb P true w ⊎ InDb P false w)
                  (λ w. E w.db))
          → Ensures
              (InDb P true)
              (elim r [
                | Round.finished ↦ on_mp (exec s (codes "commit")) >> on_mp (disconnect s)
                | Round.threw why ↦ raise (runtime_error (codes "Waiting for data: " ++ why))
                | Round.work tabwork next ↦
                    work_loop s show_double now iterate
                      (sort (λ (a, _) (b, _). text_lt a b) tabwork)
                    >> thread_rounds s show_double now iterate reads rounds next
              ])
              (λ _ w. InDb P true w ⊎ InDb P false w)
              (λ w. E w.db)
      one Round.finished e ih =
          ensures_weaken (λ w k. k) (λ _ w k. inr k) (λ w k. k)
            (last_commit-Ensures s p.calm show_double now iterate)
      one (Round.threw why) e ih = ensures_raise _ (λ w k. stops pos why e w.db k)
      one (Round.work tabwork next) e ih = ensures_bind (work_loop-Works _) (λ _. ih next)
