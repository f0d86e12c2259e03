-- ===== src/PsqlWriter/Returns.antt =====
-- The thread returns where the server reports no failure.
use sqlitewrite.Base.{Option, none}
use sqlitewrite.PsqlWriter.Batch.{attempt, needs_wait}
use mathlib.Core.Path.{subst}
use sqlitewrite.Base.{zero, suc, Bool-cases, inl, inr, ltb, [], ◌∷◌, ◌+◌}
use sqlitewrite.Base.Lists.{length}
use sqlitewrite.PsqlWriter.Message.{Message}
use sqlitewrite.PsqlWriter.Batch.{Round, Work, next_round, collect, at_end, push_work}
use sqlitewrite.Base.{ℕ, ◌≡◌, List}
use sqlitewrite.Base.Exec.{ok}
use sqlitewrite.Base.Hoare.{ensures_weaken, Anything, Never, ends_returned}
use sqlitewrite.Text.{Text}
use sqlitewrite.MiniPsql.Db.{Server, History}
use sqlitewrite.MiniPsql.Returns.{
  IsObliging, connect-Returns, exec-Returns, table_schema-Returns, add_table_column-Returns,
  exec_params-Returns, disconnect-Returns,
}
use sqlitewrite.PsqlWriter.Batch.{Read}
use sqlitewrite.PsqlWriter.Thread.{Worker, commit_thread}
use sqlitewrite.PsqlWriter.Calm.{commit_thread-Ensures}
use sqlitewrite.PsqlWriter.Protocol.{IsProtocol, thread_rounds-Ensures}

-- The wait before the read, if there was one, has not failed.
abbrev pub IsWaited : Read → Type 0
IsWaited (Read.wait_failed why) = ⊥
IsWaited _ = Unit

-- The attempts at a pipe on which no wait fails.
pub attempt-IsWaited :
    (polls : ℕ → Option Text) (reads : ℕ → Read)
    → ((k : ℕ) → polls k ≡ none)
    → ((k : ℕ) → IsWaited (reads k))
    → (k : ℕ) → IsWaited (attempt polls reads k)
unfolding attempt
attempt-IsWaited polls reads fine waited k = elim (Bool-cases (needs_wait reads k)) [
  | inl e ↦ rw (e, fine k) (waited k)
  | inr e ↦ rw e (waited k)
]

abbrev NotThrown : Round → Type 0
NotThrown (Round.threw why) = ⊥
NotThrown _ = Unit

module _ (reads : ℕ → Read) (waits : (k : ℕ) → IsWaited (reads k)) where
  collect-NotThrown : (left pos sum : ℕ) (w : Work) → NotThrown (collect reads left pos sum w)
  unfolding collect at_end
  collect-NotThrown zero pos sum w = tt
  collect-NotThrown (suc left) pos sum w = elim (Bool-cases (ltb sum 60000)) [
    | inr e ↦ rw (e, NotThrown, collect) tt
    | inl e ↦
        rw (e, NotThrown, collect)
          (go (reads pos) (waits pos)
            (λ msg. collect-NotThrown left (pos + 1) (sum + length msg.values) (push_work msg w)))
  ]
    where
      ended : (w : Work) → NotThrown (at_end w (pos + 1))
      ended [] = tt
      ended (x ∷ w) = tt

      go :
          (r : Read)
          → IsWaited r
          → ((msg : Message)
              → NotThrown
                  (collect reads left (pos + 1) (sum + length msg.values) (push_work msg w)))
          → NotThrown (elim r [
            | Read.closed ↦ at_end w (pos + 1)
            | Read.failed ↦ Round.finished
            | Read.again ↦ Round.work w (pos + 1)
            | Read.wait_failed why ↦ Round.threw why
            | Read.message msg ↦
                collect reads left (pos + 1) (sum + length msg.values) (push_work msg w)
          ])
      go Read.closed h ih = ended w
      go Read.failed h ih = tt
      go Read.again h ih = tt
      go (Read.wait_failed why) h ih = h
      go (Read.message msg) h ih = ih msg

  next_round-threw : (pos : ℕ) (why : Text) → next_round reads pos ≡ Round.threw why → ⊥
  unfolding next_round
  next_round-threw pos why e = subst NotThrown e (collect-NotThrown 10000 pos 0 [])

module _ (s : Server) (o : IsObliging s) (show_double : ℕ → Text) (now : History → ℕ)
    (iterate : List Text → List Text) where
  Returns-IsProtocol : IsProtocol s (λ b. Anything) Never
  Returns-IsProtocol = record {
    calm = record {
      opens = connect-Returns s o;
      begins = exec-Returns s o _;
      commits = exec-Returns s o _;
      schemas = table_schema-Returns s o;
      adds = add_table_column-Returns s o;
      closes = disconnect-Returns s o;
    };
    inserts = exec_params-Returns s o;
  }

  -- The thread throws in no round, from whatever state, if no wait for the pipe fails, and the
  -- server reports no failure and answers a query for the names and the types of columns with rows
  -- that have both.
  pub commit_thread-returns :
      (reads : ℕ → Read)
      → ((k : ℕ) → IsWaited (reads k))
      → (rounds : ℕ) (w : Worker)
      → (commit_thread s show_double now iterate reads rounds w).0 ≡ ok tt
  commit_thread-returns reads waits rounds w = ends_returned _ _ (
      (commit_thread-Ensures s Returns-IsProtocol.calm show_double now iterate reads rounds (
          ensures_weaken (λ w k. k) (λ _ w k. tt) (λ w k. k)
            (thread_rounds-Ensures s Returns-IsProtocol show_double now iterate reads
              (λ pos why e db k. next_round-threw reads waits pos why e) rounds 0))).at
        w tt)
