-- ===== src/SqliteWriter/Row.antt =====
-- A row that is written: which statement runs, with which values.
use sqlitewrite.SqliteWriter.Signature.{serves-can_reuse}
use sqlitewrite.Base.{false}
use sqlitewrite.SqliteWriter.Signature.{same_signature-eq, is_prepared-some, reuse_parts}
use sqlitewrite.SqliteWriter.Follows.{Follows, new_statement-Follows}
use sqlitewrite.SqliteWriter.RowCalls.{row_calls, write_row_at}
use mathlib.Core.Path.{subst}
use sqlitewrite.MiniSqlite.Lifetime.{Flag}
use sqlitewrite.Base.Exec.{pure, ok, raise}
use sqlitewrite.SqliteWriter.Cache.{IsCached, HasStatement, new_statement-Ensures}
use sqlitewrite.SqliteWriter.Spec.{names_of, insert_text}
use sqlitewrite.MiniSqlite.Db.{stmt_of}
use sqlitewrite.SqliteWriter.Insert.{
  write_row, Values, can_reuse, lastreplace_of, lastsig_of, new_statement, insert_row,
  add_value_generic, guarded,
}
use sqlitewrite.Base.{
  ◌++◌, none, map, sym, [], ◌≡◌, Bool, true, ◌≢◌, refl, if◌then◌else◌, inl, some, ◌∙◌, ap₂, ap, inr,
}
use sqlitewrite.Text.Dict.{at}
use sqlitewrite.Base.Hoare.{
  Ensures, ensures_bind, ensures_pure, ensures_weaken, ensures_if, Ends, ensures_gets, at_ok,
  ensures_given, ensures_also, Anything,
}
use sqlitewrite.Text.{Text}
use sqlitewrite.Sqlite.{Stmt, Engine, History, PrepareReply}
use sqlitewrite.SqliteWriter.Writer.{Writer}

module _ (e : Engine) (table : Text) (values : Values) (replace : Bool) where
  abbrev sql : Text
  sql = insert_text table replace (names_of values)

  -- A statement that can be used again is the insert statement of the row.
  reuse_fits :
      (w : Writer)
      → table ≢ []
      → IsCached w
      → can_reuse table values replace w ≡ true
      → HasStatement e table sql w
  unfolding lastsig_of lastreplace_of stmt_of
  reuse_fits w ne cached h =
      let (prepared, rep, sig) = reuse_parts table values replace w h in
      let (s, there) = is_prepared-some table w.db prepared in
      inl (
        s,
        there,
        cached table s ne there
            ∙ ap₂ (insert_text table) rep (sym (same_signature-eq values _ sig)),
      )

  -- What a write that returns has done, after the calls `before`: the statement of the table is the
  -- insert statement of the row, and the last calls are one execution of it with the row's values.
  pub record Written (before : History) (w' : Writer) : Type 0 where
    pub stmt : Stmt
    pub text : stmt.sql ≡ sql
    pub there : stmt_of table w'.db ≡ some stmt
    pub calls : w'.db.calls ≡ before ++ row_calls (some stmt) (map (λ (_, v). v) values)

  -- The calls before the execution are those made before the write, if nothing had to be prepared, and
  -- otherwise those and some that execute nothing.
  abbrev Ran : Writer → Writer → Type 0
  Ran w w' =
      (before : History) × (can_reuse table values replace w ≡ true → before ≡ w.db.calls)
      × Follows (w.db.calls) before
      × Written before w'

  abbrev Ready : Writer → Writer → Type 0
  Ready w w₁ =
      HasStatement e table sql w₁
      × (can_reuse table values replace w ≡ true → w₁.db.calls ≡ w.db.calls)
      × Follows (w.db.calls) w₁.db.calls

  prepare_row :
      (w : Writer)
      → table ≢ []
      → IsCached w
      → Ensures
          (λ v. v ≡ w)
          (if can_reuse table values replace w
            then pure tt
            else new_statement e table values replace)
          (λ _. Ready w)
          Anything
  prepare_row w ne cached =
      ensures_if (can_reuse table values replace w)
        (λ yes_.
          ensures_pure tt
            (λ v same. rw same (reuse_fits w ne cached yes_, (λ _. refl), Follows.same refl)))
        (λ no_.
          ensures_weaken (λ v same. (rw same cached, rw same (Follows.same refl)))
            (λ _ v ((_, there), later). (there, (λ yes_. absurd (cc (sym no_ ∙ yes_))), later))
            (λ v _. tt)
            (ensures_also (new_statement-Ensures e table values replace)
              (new_statement-Follows (w.db.calls) e table values replace)))

  run_row :
      (w v : Writer) (s : Stmt)
      → stmt_of table v.db ≡ some s
      → s.sql ≡ sql
      → (can_reuse table values replace w ≡ true → v.db.calls ≡ w.db.calls)
      → Follows (w.db.calls) v.db.calls
      → Ensures (λ u. u ≡ v) (write_row e table values) (λ _. Ran w) Anything
  unfolding stmt_of
  run_row w v s there text reused later =
      ensures_weaken (λ u same. rw same (record { stmts_eq = refl; calls_eq = refl }))
        (λ _ u k. (
          v.db.calls,
          reused,
          later,
          record {
            stmt = s;
            text = text;
            there = ap (at none table) k.stmts_eq ∙ there;
            calls =
                k.calls_eq ∙ ap (λ p. v.db.calls ++ row_calls p (map (λ (_, v). v) values)) there;
          },
        ))
        (λ u k. k) (write_row_at e table v.db.stmts v.db.calls values)

  insert_row-Ensures :
      (compiles : (h : History) → e.prepare_v2 h sql ≢ PrepareReply.prepared none) (w : Writer)
      → table ≢ []
      → IsCached w
      → Ensures (λ v. v ≡ w) (insert_row e table values replace) (λ _. Ran w) Anything
  unfolding insert_row
  insert_row-Ensures compiles w ne cached =
      ensures_bind {R = λ b v. (b ≡ can_reuse table values replace w) × (v ≡ w)}
        (ensures_gets _ (λ v same. (ap (can_reuse table values replace) same, same)))
        λ b. ensures_given λ same. rw same (
          ensures_bind (prepare_row w ne cached)
            λ _. record { at = λ v (has, reused, later). go v has reused later })
    where
      go :
          (v : Writer)
          → HasStatement e table sql v
          → (can_reuse table values replace w ≡ true → v.db.calls ≡ w.db.calls)
          → Follows (w.db.calls) v.db.calls
          → Ends (λ _. Ran w) Anything (write_row e table values v)
      go v (inl (s, there, text)) reused later = (run_row w v s there text reused later).at v refl
      go v (inr (h, empty)) reused later = absurd (compiles h empty)

  guarded-Ran :
      (compiles : (h : History) → e.prepare_v2 h sql ≢ PrepareReply.prepared none) (w : Writer)
      (flag : Flag)
      → table ≢ []
      → IsCached w
      → (guarded flag (insert_row e table values replace) w).0 ≡ ok tt
      → Ran w (guarded flag (insert_row e table values replace) w).1
  unfolding guarded raise
  guarded-Ran compiles w Flag.read_only ne cached h = cc
  guarded-Ran compiles w Flag.no_flag ne cached h =
      at_ok w (insert_row-Ensures compiles w ne cached) refl h
  guarded-Ran compiles w Flag.no_transactions ne cached h =
      at_ok w (insert_row-Ensures compiles w ne cached) refl h

  -- From a writer whose cache is in order, on an engine that finds a statement in the text of the
  -- row's insert statement, a write to a table whose name is not empty, if it returns, has left this
  -- insert statement as the prepared statement of the table, and its last calls bind the values of the row, step that
  -- statement once, and reset it; whether the statement was cached or had to be prepared.
  pub add_value_generic-Written :
      (compiles : (h : History) → e.prepare_v2 h sql ≢ PrepareReply.prepared none) (w : Writer)
      → table ≢ []
      → IsCached w
      → (add_value_generic e table values replace w).0 ≡ ok tt
      → (before : History) × Written before (add_value_generic e table values replace w).1
  unfolding add_value_generic
  add_value_generic-Written compiles w ne cached h =
      let (before, _, _, done) = guarded-Ran compiles w w.flag ne cached h in (before, done)

  -- Under the same conditions, where a statement is prepared for the table, and the names and the mode
  -- remembered with it are those of the row, the binding of the values, the step and the reset are
  -- all the calls that the write makes.
  pub add_value_generic-Written_reuse :
      (compiles : (h : History) → e.prepare_v2 h sql ≢ PrepareReply.prepared none) (w : Writer)
      (s : Stmt)
      → table ≢ []
      → IsCached w
      → stmt_of table w.db ≡ some s
      → at [] table w.lastsig ≡ names_of values
      → at false table w.lastreplace ≡ replace
      → (add_value_generic e table values replace w).0 ≡ ok tt
      → Written w.db.calls (add_value_generic e table values replace w).1
  unfolding add_value_generic lastsig_of lastreplace_of
  add_value_generic-Written_reuse compiles w s ne cached there sig rep h =
      let (before, reused, _, done) = guarded-Ran compiles w w.flag ne cached h in
      subst (λ c. Written c (guarded w.flag (insert_row e table values replace) w).1)
        (reused (serves-can_reuse table values replace w s there sig rep)) done

  -- Under the conditions of a write that returns, all that it has executed is its row.
  pub add_value_generic-Follows :
      (compiles : (h : History) → e.prepare_v2 h sql ≢ PrepareReply.prepared none) (w : Writer)
      → table ≢ []
      → IsCached w
      → (add_value_generic e table values replace w).0 ≡ ok tt
      → (before : History) × Follows (w.db.calls) before
        × Written before (add_value_generic e table values replace w).1
  unfolding add_value_generic
  add_value_generic-Follows compiles w ne cached h =
      let (before, _, later, done) = guarded-Ran compiles w w.flag ne cached h in
      (before, later, done)
