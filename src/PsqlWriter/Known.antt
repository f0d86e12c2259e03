-- ===== src/PsqlWriter/Known.antt =====
-- The columns that the thread remembers for its tables.
use sqlitewrite.PsqlWriter.KnownFields.{Knows-append, Knows-HasFields, KnowsAll}
use sqlitewrite.Base.{
  ℕ, ◌≡◌, ◌∙◌, Bool, true, false, List, [], ◌∷◌, ◌++◌, if◌then◌else◌, refl, sym, arith,
}
use sqlitewrite.Base.Exec.{Exec, ok, pure}
use sqlitewrite.Base.Hoare.{
  Ensures, Anything, ensures_bind, ensures_pure, ensures_gets, ensures_modify, ensures_if,
  ensures_weaken, ensures_also, ends-Anything, at_ok,
}
use sqlitewrite.Text.{Text, text_eq}
use sqlitewrite.Text.Dict.{Dict, at}
use sqlitewrite.Sort.{binary_search}
use sqlitewrite.Sort.Sorted.{IsSorted, sort-IsSorted}
use sqlitewrite.MiniSqlite.Schema.{Columns, by_name}
use sqlitewrite.MiniSqlite.Sorted.{by_name-IsWeakOrder, search-eq-has_name}
use sqlitewrite.MiniSqlite.Known.{
  Knows, AllSorted, insert-AllSorted, with_column-AllSorted, with_column-has_name,
  with_column-Knows,
}
use sqlitewrite.MiniPsql.Db.{Db, Server, History}
use sqlitewrite.MiniPsql.Schema.{table_schema, name_and_udt}
use sqlitewrite.PsqlWriter.Message.{Var, Message}
use sqlitewrite.PsqlWriter.Fields.{message_loop-Ensures}
use sqlitewrite.PsqlWriter.Thread.{
  Worker, on_mp, column_type, contains, schema_of, need_column, value_loop, message_loop,
  load_schema, commit_new_second, insert_work,
}
use sqlitewrite.PsqlWriter.Calm.{on_mp-Ensures}

-- The columns of all tables are sorted, and those of this table have these names.
abbrev Sound : Text → List Text → Dict Columns → Type 0
Sound table fields d = AllSorted d × Knows (at [] table d) fields

-- `m` leaves the columns as they are.
on_mp-Sound :
    {A : Type 0} (P : Dict Columns → Type 0) (m : Exec Db A)
    → Ensures (λ w. P w.schemas) (on_mp m) (λ _ w. P w.schemas) Anything
unfolding on_mp
on_mp-Sound P m = record {
  at = λ w h. ends-Anything (λ w. P w.schemas) (m w.db).0 (record w { db = (m w.db).1 }) h;
}

any-Ensures : {S A : Type 0} (m : Exec S A) → Ensures Anything m (λ _. Anything) Anything
any-Ensures m = record { at = λ s p. ends-Anything Anything (m s).0 (m s).1 tt }

module _ (s : Server) (show_double : ℕ → Text) (now : History → ℕ)
    (iterate : List Text → List Text) where
  table_schema-IsSorted :
      (table : Text)
      → Ensures Anything (table_schema s table) (λ cols _. IsSorted by_name cols) Anything
  unfolding table_schema
  table_schema-IsSorted table = ensures_bind (any-Ensures _) λ rows.
      ensures_bind (any-Ensures (name_and_udt rows))
        λ cols. ensures_pure _ (λ db _. sort-IsSorted by_name by_name-IsWeakOrder cols)

  load_schema-AllSorted :
      (table : Text)
      → Ensures
          (λ w. AllSorted w.schemas)
          (load_schema s show_double now iterate table)
          (λ _ w. AllSorted w.schemas)
          Anything
  unfolding load_schema
  load_schema-AllSorted table =
      ensures_bind
        (ensures_weaken (λ w h. (tt, h)) (λ cols w h. h) (λ w h. tt)
          (ensures_also (on_mp-Ensures (table_schema-IsSorted table)) (on_mp-Sound AllSorted _)))
        λ cols. ensures_modify _ (λ w (sorted, h). insert-AllSorted table cols w.schemas sorted h)

  need_column-Sound :
      (table f : Text) (v : Var) (fields : List Text)
      → Ensures
          (λ w. Sound table fields w.schemas)
          (need_column s show_double now iterate table f v)
          (λ _ w. Sound table (fields ++ (f ∷ [])) w.schemas)
          Anything
  unfolding need_column
  need_column-Sound table f v fields =
      ensures_bind {R = λ cols w. (cols ≡ schema_of table w) × Sound table fields w.schemas}
        (ensures_gets _ (λ w h. (refl, h)))
        λ cols.
          ensures_if (binary_search by_name cols (f, []))
            (λ there. ensures_pure tt λ w (same, (sorted, h)). (
              sorted,
              Knows-append _ fields f h
                  (sym (search-eq-has_name f _ (sorted table)) ∙ sym (rw same refl) ∙ there),
            ))
            λ missing.
              ensures_bind
                (ensures_weaken (λ w (same, h). h) (λ _ w h. h) (λ w h. h)
                  (on_mp-Sound (Sound table fields) _))
                λ _. ensures_modify _ λ w (sorted, h). (
                  with_column-AllSorted table f (column_type v) w.schemas sorted,
                  Knows-append _ fields f
                      (with_column-Knows table f (column_type v) w.schemas fields h)
                      (ground (arith, with_column-has_name table f (column_type v) w.schemas f)),
                )

  value_loop-Sound :
      (table : Text) (values : List (Text × Var)) (fields : List Text)
      → Ensures
          (λ w. Sound table fields w.schemas)
          (value_loop s show_double now iterate table values fields)
          (λ out w. Sound table out w.schemas)
          Anything
  unfolding value_loop
  value_loop-Sound table [] fields = ensures_pure fields (λ w h. h)
  value_loop-Sound table ((f, v) ∷ values) fields =
      ensures_bind (step (contains f fields)) (λ _. value_loop-Sound table values _)
    where
      step :
          (b : Bool)
          → Ensures
              (λ w. Sound table fields w.schemas)
              (if b then pure tt else need_column s show_double now iterate table f v)
              (λ _ w. Sound table (if b then fields else fields ++ (f ∷ [])) w.schemas)
              Anything
      step true = ensures_pure tt (λ w h. h)
      step false = need_column-Sound table f v fields

  message_loop-Sound :
      (table : Text) (work : List Message) (fields : List Text)
      → Ensures
          (λ w. Sound table fields w.schemas)
          (message_loop s show_double now iterate table work fields)
          (λ out w. Sound table out w.schemas)
          Anything
  unfolding message_loop
  message_loop-Sound table [] fields = ensures_pure fields (λ w h. h)
  message_loop-Sound table (m ∷ ms) fields =
      ensures_bind (value_loop-Sound table m.values fields)
        (λ next. message_loop-Sound table ms next)

  commit_new_second-Sound :
      (P : Dict Columns → Type 0)
      → Ensures
          (λ w. P w.schemas)
          (commit_new_second s show_double now iterate)
          (λ _ w. P w.schemas)
          Anything
  unfolding commit_new_second
  commit_new_second-Sound P =
      ensures_bind {R = λ _ w. P w.schemas} (ensures_gets _ (λ w h. h)) λ due.
        ensures_if due
          (λ _.
            ensures_bind (on_mp-Sound P _)
              λ _. ensures_bind (on_mp-Sound P _) (λ _. ensures_modify _ (λ w h. h)))
          (λ _. ensures_pure tt (λ w h. h))

  insert_work-Ensures :
      (table : Text) (work : List Message)
      → Ensures
          (λ w. AllSorted w.schemas)
          (insert_work s show_double now iterate table work)
          (λ _ w. AllSorted w.schemas × KnowsAll (at [] table w.schemas) work)
          Anything
  unfolding insert_work
  insert_work-Ensures table work =
      ensures_bind {R = λ _ w. AllSorted w.schemas} (ensures_gets _ (λ w h. h)) λ known.
        ensures_bind
          (ensures_if known (λ _. ensures_pure tt (λ w h. h)) (λ _. load_schema-AllSorted table))
          λ _.
            ensures_bind
              (ensures_weaken (λ w h. (tt, (h, tt)))
                (λ fields w ((_, has), (sorted, k)). (sorted, Knows-HasFields _ fields work k has))
                (λ w h. tt)
                (ensures_also (message_loop-Ensures s show_double now iterate table work [])
                  (message_loop-Sound table work [])))
              λ fields.
                ensures_bind (on_mp-Sound (λ d. AllSorted d × KnowsAll (at [] table d) work) _)
                  λ _. commit_new_second-Sound (λ d. AllSorted d × KnowsAll (at [] table d) work)

  -- Where the columns that are remembered for each table are sorted by name, and the work for a
  -- table returns, they are sorted again, and the name of every value of every message is among
  -- those of this table.
  pub insert_work-Known :
      (table : Text) (work : List Message) (w : Worker)
      → AllSorted w.schemas
      → (insert_work s show_double now iterate table work w).0 ≡ ok tt
      → AllSorted (insert_work s show_double now iterate table work w).1.schemas
        × KnowsAll (schema_of table (insert_work s show_double now iterate table work w).1) work
  insert_work-Known table work w sorted h = at_ok w (insert_work-Ensures table work) sorted h
