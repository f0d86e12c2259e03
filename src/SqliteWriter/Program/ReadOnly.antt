-- ===== src/SqliteWriter/Program/ReadOnly.antt =====
-- The life of a read-only writer: queries that are answered, writes that are refused.
use sqlitewrite.SqliteWriter.Program.Texts.{
  text_of, HasTexts, texts, exec-HasTexts, texts-append, query_gen-HasTexts,
}
use sqlitewrite.SqliteWriter.Program.Batched.{Reach-IsBatched, unwind-Ensures}
use sqlitewrite.SqliteWriter.Lifetime.{constructor_body, start_batching, construct, new_writer}
use sqlitewrite.SqliteWriter.Frame.{ensures_on_db_only}
use sqlitewrite.SqliteWriter.Insert.{add_value_generic, Values, guarded, insert_row}
use sqlitewrite.SqliteWriter.Program.{Reach, Step}
use sqlitewrite.MiniSqlite.Lifetime.{Flag, configure, open_db}
use sqlitewrite.Base.Lists.{take}
use sqlitewrite.MiniSqlite.Db.{Db, send, ask, exec}
use sqlitewrite.Base.Exec.{raise}
use sqlitewrite.Base.{
  ◌≡◌, List, [], ◌∷◌, ◌++◌, refl, true, append_assoc, ◌∙◌, sym, append-nil, Bool, eqb, false,
}
use sqlitewrite.Base.Hoare.{
  Ensures, ensures_bind, ensures_pure, ensures_modify, at_ok, ensures_weaken, ensures_if,
  ensures_raise, Anything,
}
use sqlitewrite.Text.{Text, codes}
use sqlitewrite.Text.Dict.{Dict}
use sqlitewrite.Sqlite.{Engine, Call}
use sqlitewrite.SqliteWriter.Writer.{Writer}

-- What the constructor executes.
abbrev pub opening : List Text
opening =
    codes "PRAGMA journal_mode='wal'"
    ∷ codes "PRAGMA foreign_keys=ON"
    ∷ codes "PRAGMA journal_mode='wal'"
    ∷ []

-- The text of a step that is a query.
abbrev pub asked : {e : Engine} {w w' : Writer} → Step e w w' → List Text
asked (Step.add_value w table values replace) = []
asked (Step.query w q values msec) = q ∷ []
asked (Step.round w n runs returned) = []

module _ (e : Engine) (fname : Text) (meta : Dict (Dict Text)) where
  -- The texts of the queries of a program, in order.
  abbrev pub all_asked : {w : Writer} → Reach e fname meta Flag.read_only w → List Text
  all_asked (Reach.start h) = []
  all_asked (Reach.next r taken) = all_asked r ++ asked taken

  refused :
      (table : Text) (values : Values) (replace : Bool) (w : Writer)
      → w.flag ≡ Flag.read_only
      → (add_value_generic e table values replace w).1 ≡ w
  unfolding add_value_generic guarded raise
  refused table values replace w same = go w.flag same
    where
      go :
          (flag : Flag)
          → flag ≡ Flag.read_only
          → (guarded flag (insert_row e table values replace) w).1 ≡ w
      go Flag.read_only h = refl
      go Flag.no_flag h = cc
      go Flag.no_transactions h = cc

  silent_send :
      {ts : List Text} (c : Call) {E : Db → Type 0}
      → text_of c ≡ []
      → Ensures (HasTexts ts) (send c) (λ _. HasTexts ts) E
  unfolding send
  silent_send {ts = ts} c silent = record {
    at = λ db h. texts-append db.calls c ∙ rw (h, silent) (append-nil ts);
  }

  executes :
      (ts : List Text) (sql : Text)
      → Ensures (HasTexts ts) (exec e sql) (λ _. HasTexts (ts ++ (sql ∷ []))) Anything
  executes ts sql = ensures_weaken (λ db h. h) (λ _ db h. h) (λ db h. tt) (exec-HasTexts e ts sql)

  configure-HasTexts : Ensures (HasTexts []) (configure e) (λ _. HasTexts (take 2 opening)) Anything
  unfolding configure
  configure-HasTexts = ensures_bind (silent_send _ refl) λ _. ensures_bind (executes [] _) λ _.
      ensures_bind (executes (take 1 opening) _) λ _.
        ensures_bind (silent_send _ refl)
          λ _. ensures_bind (silent_send _ refl) λ _. silent_send _ refl

  open_db-HasTexts :
      (flag : Flag)
      → Ensures (HasTexts []) (open_db e fname flag) (λ _. HasTexts (take 2 opening)) Anything
  unfolding open_db ask
  open_db-HasTexts flag =
      ensures_bind {R = λ _. HasTexts []} (record { at = λ db h. texts-append db.calls _ ∙ rw h })
        λ rc. ensures_if (eqb rc 0) (λ _. configure-HasTexts) (λ _. ensures_raise _ (λ db h. tt))

  construct-HasTexts :
      Ensures
        (λ w. HasTexts [] w.db)
        (construct e fname meta Flag.read_only)
        (λ _ w. HasTexts opening w.db)
        Anything
  unfolding construct constructor_body start_batching
  construct-HasTexts = ensures_bind (ensures_on_db_only (open_db-HasTexts Flag.read_only)) λ _.
      unwind-Ensures e _ (
        ensures_bind (ensures_on_db_only (executes (take 2 opening) _)) λ _.
          ensures_bind {R = λ _ w. HasTexts opening w.db} (ensures_pure tt (λ w h. h))
            (λ _. ensures_modify _ (λ w h. h)))

  -- Over every sequence of writes and queries, a read-only writer hands to SQLite the three pragmas
  -- of its constructor and then the text of each query once, in order, and no other text: whether
  -- the queries are answered or throw, and whatever is written in between.
  pub Reach-texts :
      {w : Writer} (r : Reach e fname meta Flag.read_only w)
      → texts w.db.calls ≡ opening ++ all_asked r
  Reach-texts (Reach.start h) =
      at_ok (new_writer Flag.read_only) construct-HasTexts refl h ∙ sym (append-nil opening)
  Reach-texts (Reach.next r (Step.add_value w table values replace)) =
      let b = Reach-IsBatched e fname meta Flag.read_only r in
      rw (refused table values replace w b.same_flag, append-nil (all_asked r)) (Reach-texts r)
  Reach-texts (Reach.next r (Step.query w q values msec)) =
      let b = Reach-IsBatched e fname meta Flag.read_only r in
      query_gen-HasTexts e _ q values msec w b.same_flag (Reach-texts r)
      ∙ append_assoc opening (all_asked r) (q ∷ [])
  Reach-texts (Reach.next r (Step.round w n runs returned)) =
      let b = Reach-IsBatched e fname meta Flag.read_only r in
      let f : false ≡ true = sym b.thread ∙ runs in cc
