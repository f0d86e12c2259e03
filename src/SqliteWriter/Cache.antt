-- ===== src/SqliteWriter/Cache.antt =====
-- The cache of prepared statements: the statement of a table is the insert statement of the
-- signature that is remembered for it.
use sqlitewrite.MiniSqlite.QuotedNames.{enclosed, quote_table_name-eq-enclosed}
use sqlitewrite.SqliteWriter.Spec.{insert_into}
use sqlitewrite.Base.Lists.{length}
use sqlitewrite.Base.Exec.{modify}
use sqlitewrite.MiniSqlite.Prepare.{Compiled, IsPrepared, prepare_lem}
use sqlitewrite.SqliteWriter.Loop.{column_loop_text, loop_text, marks, loop_text-eq-comma_separated}
use sqlitewrite.SqliteWriter.Spec.{insert_text, names_of, quoted}
use sqlitewrite.MiniSqlite.Statement.{prepare}
use sqlitewrite.SqliteWriter.Frame.{ensures_on_db, IsFramedWriter}
use sqlitewrite.Base.{
  Option, Bool, List, ◌≢◌, [], true, ◌≡◌, none, some, false, refl, sym, ◌∙◌, inr, arith, ◌⊎◌, ap₂,
  ◌++◌, ap, map, append_assoc, inl,
}
use sqlitewrite.SqliteWriter.Writer.{Writer, on_db}
use sqlitewrite.SqliteWriter.Insert.{new_statement, Values, insert_head}
use sqlitewrite.MiniSqlite.Db.{stmt_of, Db}
use mathlib.Core.Option.{some-injective}
use sqlitewrite.Base.Hoare.{Ensures, ensures_bind, ensures_weaken, ensures_modify, ensures_given}
use sqlitewrite.Text.{Text, text_dec, codes}
use sqlitewrite.Text.Dict.{Dict, at, insert, at-insert}
use sqlitewrite.Sqlite.{Stmt, Engine, History, PrepareReply}

-- The table is not the empty name, which `queryGen` uses for its statements.
abbrev pub Cached : Dict (Option Stmt) → Bool → Dict (List Text) → Dict Bool → Type 0
Cached stmts tx sigs reps =
    (t : Text) (s : Stmt)
    → t ≢ []
    → at none t stmts ≡ some s
    → s.sql ≡ insert_text t (at false t reps) (at [] t sigs)

abbrev pub IsCached : Writer → Type 0
IsCached w = Cached w.db.stmts w.db.in_transaction w.lastsig w.lastreplace

pub IsCached-framed : IsFramedWriter IsCached
IsCached-framed = record {
  on_db = λ w. record {
    on_call = λ c db q p. p;
    on_rows = λ rows db p. p;
    on_counters = λ a b c d db p. p;
  };
  on_columns = λ columns w p. p;
}

-- A new statement for one table keeps the cache in order, if the signature fits it.
pub Cached-update :
    (table : Text) (p : Option Stmt) (before db : Db) (sigs sigs' : Dict (List Text))
    (reps reps' : Dict Bool)
    → Cached before.stmts before.in_transaction sigs reps
    → IsPrepared table before p db
    → ((t : Text)
        → t ≢ table
        → (at [] t sigs' ≡ at [] t sigs) × (at false t reps' ≡ at false t reps))
    → (table ≢ []
        → (s : Stmt) → p ≡ some s
        → s.sql ≡ insert_text table (at false table reps') (at [] table sigs'))
    → Cached db.stmts db.in_transaction sigs' reps'
unfolding stmt_of
Cached-update table p before db sigs sigs' reps reps' h k same fits t s ne e =
    elim (text_dec t table) [
      | yes here ↦ rw here (fits (rw here at ne) s (sym k.here ∙ rw here at e))
      | no other ↦
          rw ((same t other).0, (same t other).1) (h t s ne (sym (k.kept.others t other) ∙ e))
    ]

insert_head-eq :
    (table : Text) (replace : Bool)
    → insert_head table replace ≡ insert_into replace ++ (enclosed table ++ codes " (")
unfolding codes text_dec
insert_head-eq table true = rw (quote_table_name-eq-enclosed table) refl
insert_head-eq table false = rw (quote_table_name-eq-enclosed table) refl

-- The text that `new_statement` puts together.
pub query_text :
    (table : Text) (values : Values) (replace : Bool) (r : Text × Text)
    → r ≡ (
      insert_head table replace ++ loop_text true (map quoted (names_of values)),
      [] ++ loop_text true (marks (length (names_of values))),
    )
    → r.0 ++ (codes ") values (" ++ (r.1 ++ codes ")"))
      ≡ insert_text table replace (names_of values)
query_text table values replace r same =
    rw
      (
        same,
        insert_head-eq table replace,
        loop_text-eq-comma_separated (map quoted (names_of values)),
        loop_text-eq-comma_separated (marks (length (names_of values))),
      )
      (simp append_assoc)

module _ (e : Engine) where
  -- After the preparation of a table's statement.
  pub record IsFresh (table sql : Text) (w : Writer) : Type 0 where
    pub before : Db
    pub cached : Cached before.stmts before.in_transaction w.lastsig w.lastreplace
    pub compiled : Compiled table before e sql w.db

  pub prepare-Ensures :
      (table sql : Text)
      → Ensures IsCached (on_db (prepare e table sql)) (λ _. IsFresh table sql) IsCached
  prepare-Ensures table sql = ensures_on_db λ w h.
      ensures_weaken (λ db k. k) (λ _ db k. record { before = w.db; cached = h; compiled = k })
        (λ db k.
          Cached-update table none w.db db w.lastsig w.lastsig w.lastreplace w.lastreplace h k
            (λ t ne. (refl, refl)) (λ ne s impossible. cc))
        (prepare_lem table w.db e sql)

  -- The statement of the table is there, unless its text was empty to the engine.
  abbrev pub HasStatement : Text → Text → Writer → Type 0
  HasStatement table sql w =
      ((s : Stmt) × (stmt_of table w.db ≡ some s) × (s.sql ≡ sql))
      ⊎ ((h : History) × (e.prepare_v2 h sql ≡ PrepareReply.prepared none))

  -- The members that remember what the statement is for.
  abbrev remembered : Text → Values → Bool → Writer → Writer
  remembered table values replace w = record w {
    lastsig = insert table (names_of values) w.lastsig;
    lastreplace = insert table replace w.lastreplace;
  }

  remembered-IsCached :
      (table : Text) (values : Values) (replace : Bool) (p : Option Stmt) (before : Db) (w : Writer)
      → Cached before.stmts before.in_transaction w.lastsig w.lastreplace
      → IsPrepared table before p w.db
      → ((s : Stmt) → p ≡ some s → s.sql ≡ insert_text table replace (names_of values))
      → IsCached (remembered table values replace w)
  remembered-IsCached table values replace p before w cached k fits =
      Cached-update table p before w.db w.lastsig _ w.lastreplace _ cached k
        (λ t ne. (
          ground (arith, at-insert [] t table (names_of values) w.lastsig),
          ground (arith, at-insert false t table replace w.lastreplace),
        ))
        (λ ne s e.
          fits s e
          ∙ ap₂ (insert_text table)
              (ground (arith, at-insert false table table replace w.lastreplace))
              (ground (arith, at-insert [] table table (names_of values) w.lastsig)))

  remember_signature :
      (table : Text) (values : Values) (replace : Bool) {E : Writer → Type 0}
      → let sql = insert_text table replace (names_of values) in
        Ensures
          (IsFresh table sql)
          (modify (remembered table values replace))
          (λ _ w. IsCached w × HasStatement table sql w)
          E
  remember_signature table values replace =
      ensures_modify _ λ w f. go w f.before f.cached f.compiled
    where
      go :
          (w : Writer) (before : Db)
          → Cached before.stmts before.in_transaction w.lastsig w.lastreplace
          → Compiled table before e (insert_text table replace (names_of values)) w.db
          → let w' = remembered table values replace w in
            IsCached w' × HasStatement table (insert_text table replace (names_of values)) w'
      go w before cached (Compiled.empty h empty k) = (
        remembered-IsCached table values replace none before w cached k (λ s e. cc),
        inr (h, empty),
      )
      go w before cached (Compiled.compiled a k) = (
        remembered-IsCached table values replace _ before w cached k
            (λ s e. ap (λ (t : Stmt). t.sql) (sym (some-injective _ s e))),
        inl (
          record { address = a; sql = insert_text table replace (names_of values) },
          k.here,
          refl,
        ),
      )

  pub new_statement-Ensures :
      (table : Text) (values : Values) (replace : Bool)
      → Ensures IsCached
          (new_statement e table values replace)
          (λ _ w. IsCached w × HasStatement table (insert_text table replace (names_of values)) w)
          IsCached
  unfolding new_statement
  new_statement-Ensures table values replace =
      ensures_bind
        (column_loop_text IsCached IsCached-framed (λ sql q. q.0) e table values true _ _)
        λ (q, qmarks). ensures_given λ same.
          rw (query_text table values replace (q, qmarks) same)
            (ensures_bind (prepare-Ensures table _) (λ _. remember_signature table values replace))
