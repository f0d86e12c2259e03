-- ===== src/SqliteWriter/Program/Texts.antt =====
-- The texts that a connection hands to SQLite: which calls add one.
use sqlitewrite.SqliteWriter.Frame.{ensures_on_db_only, bind_loop-Keeps_by}
use sqlitewrite.MiniSqlite.Lifetime.{Flag}
use sqlitewrite.MiniSqlite.Db.{Db, send, ask, exec}
use sqlitewrite.Value.{Var}
use sqlitewrite.Base.Exec.{Exec}
use sqlitewrite.SqliteWriter.Query.{query_gen, may_time_out}
use sqlitewrite.MiniSqlite.Statement.{finalize_old, prepare_result, prepare, set_stmt}
use sqlitewrite.MiniSqlite.Frame.{
  IsFramedFor, AllowsTimer, AllowsUse, bind_prep-Keeps_for, exec_prep-Keeps_for, push_rows-Keeps,
}
use sqlitewrite.Base.{
  ℕ, ◌≡◌, none, List, [], ◌∷◌, ◌++◌, refl, true, append_assoc, ◌∙◌, sym, ap, Option, append-nil,
  some, eqb,
}
use sqlitewrite.Base.Hoare.{
  Keeps, Keeps-modify, Ensures, ensures_bind, Keeps-bind, Keeps-raise, ensures_gets, ensures_pure,
  keeps_always, ensures_modify, Keeps-if, Keeps-gets,
}
use sqlitewrite.Text.{Text}
use sqlitewrite.Sqlite.{Engine, Call, History, PrepareReply, Stmt}
use sqlitewrite.SqliteWriter.Writer.{Writer}

abbrev pub text_of : Call → List Text
text_of (Call.exec sql) = sql ∷ []
text_of (Call.prepare_v2 sql) = sql ∷ []
text_of c = []

-- The texts handed to SQLite, those executed at once and those prepared.
abbrev pub texts : History → List Text
texts [] = []
texts (c ∷ h) = text_of c ++ texts h

pub texts-append : (h : History) (c : Call) → texts (h ++ (c ∷ [])) ≡ texts h ++ text_of c
texts-append [] c = append-nil (text_of c)
texts-append (d ∷ h) c =
    ap (λ t. text_of d ++ t) (texts-append h c)
    ∙ sym (append_assoc (text_of d) (texts h) (text_of c))

abbrev pub HasTexts : List Text → Db → Type 0
HasTexts ts db = texts db.calls ≡ ts

abbrev pub HasNoText : Call → Type 0
HasNoText c = text_of c ≡ []

HasTexts-framed : (ts : List Text) → IsFramedFor HasNoText (HasTexts ts)
HasTexts-framed ts = record {
  on_call = λ c db silent h. texts-append db.calls c ∙ rw (h, silent) (append-nil ts);
  on_rows = λ rows db h. h;
  on_counters = λ a b c d db h. h;
}

use_allowed : (p : Option Stmt) → AllowsUse HasNoText p
use_allowed p = record {
  step = refl;
  reset = refl;
  clear_bindings = refl;
  stmt_status = λ status. refl;
  bind = λ n value. refl;
}

timer_allowed : AllowsTimer HasNoText
timer_allowed = record { progress_handler = λ t. refl; remove_progress_handler = refl }

module _ (e : Engine) (ts : List Text) where
  abbrev Silent : {A : Type 0} → Exec Db A → Type 0
  Silent m = Keeps (HasTexts ts) m

  set_stmt-Silent : (table : Text) (p : Option Stmt) → Silent (set_stmt table p)
  unfolding set_stmt
  set_stmt-Silent table p = Keeps-modify _ (λ db h. h)

  finalize_old-Silent :
      (table : Text) (old : Option Stmt) {E : Db → Type 0}
      → Ensures (HasTexts ts) (finalize_old table old) (λ _. HasTexts ts) E
  unfolding finalize_old set_stmt send
  finalize_old-Silent table none = ensures_pure tt (λ db h. h)
  finalize_old-Silent table (some old) =
      ensures_bind {R = λ _. HasTexts ts}
        (record { at = λ db h. texts-append db.calls _ ∙ rw h (append-nil ts) })
        (λ _. ensures_modify _ (λ db h. h))

  prepare_result-Silent :
      (table sql : Text) (reply : PrepareReply) → Silent (prepare_result table sql reply)
  unfolding prepare_result
  prepare_result-Silent table sql (PrepareReply.prepared none) = set_stmt-Silent table none
  prepare_result-Silent table sql (PrepareReply.prepared (some a)) = set_stmt-Silent table _
  prepare_result-Silent table sql (PrepareReply.refused m) =
      Keeps-bind (set_stmt-Silent table none) (λ _. Keeps-raise _)

module _ (e : Engine) (ts : List Text) where
  -- The state after one more text.
  pub exec-HasTexts :
      (sql : Text)
      → Ensures
          (HasTexts ts)
          (exec e sql)
          (λ _. HasTexts (ts ++ (sql ∷ [])))
          (HasTexts (ts ++ (sql ∷ [])))
  unfolding exec ask
  exec-HasTexts sql = ensures_bind {R = λ _. HasTexts ts} (ensures_modify _ (λ db h. h)) λ _.
      ensures_bind {R = λ _. HasTexts (ts ++ (sql ∷ []))}
        (record { at = λ db h. texts-append db.calls _ ∙ ap (λ t. t ++ (sql ∷ [])) h })
        λ reply.
          Keeps-bind (push_rows-Keeps _ (HasTexts-framed _) reply.rows)
            λ _. Keeps-if (eqb reply.rc 0) (Keeps-gets _) (Keeps-raise _)

  prepare-HasTexts :
      (table sql : Text)
      → Ensures
          (HasTexts ts)
          (prepare e table sql)
          (λ _. HasTexts (ts ++ (sql ∷ [])))
          (HasTexts (ts ++ (sql ∷ [])))
  unfolding prepare ask
  prepare-HasTexts table sql =
      ensures_bind {R = λ _. HasTexts ts} (ensures_gets _ (λ db h. h)) λ old.
        ensures_bind {R = λ _. HasTexts ts} (finalize_old-Silent e ts table old) λ _.
          ensures_bind {R = λ _. HasTexts (ts ++ (sql ∷ []))}
            (record { at = λ db h. texts-append db.calls _ ∙ ap (λ t. t ++ (sql ∷ [])) h })
            (λ reply. prepare_result-Silent e _ table sql reply)

  may_time_out-HasTexts :
      (msec : ℕ) (flag : Flag) {E : Writer → Type 0}
      → flag ≡ Flag.read_only
      → Ensures (λ w. HasTexts ts w.db) (may_time_out msec flag) (λ _ w. HasTexts ts w.db) E
  unfolding may_time_out
  may_time_out-HasTexts msec Flag.read_only same = ensures_pure tt (λ w h. h)
  may_time_out-HasTexts msec Flag.no_flag same = cc
  may_time_out-HasTexts msec Flag.no_transactions same = cc

  -- A query hands over its text, whether it is answered or throws.
  pub query_gen-HasTexts :
      (q : Text) (values : List Var) (msec : ℕ) (w : Writer)
      → w.flag ≡ Flag.read_only
      → HasTexts ts w.db
      → HasTexts (ts ++ (q ∷ [])) (query_gen e q values msec w).1.db
  unfolding query_gen
  query_gen-HasTexts q values msec w flag h =
      let after : List Text = ts ++ (q ∷ []) in
      keeps_always (λ w. HasTexts after w.db) _ _
        ((ensures_bind (may_time_out-HasTexts msec w.flag flag) λ _.
            ensures_bind (ensures_on_db_only (prepare-HasTexts [] q)) λ _.
              ensures_bind
                (bind_loop-Keeps_by (λ w. HasTexts after w.db) e []
                  (λ n v. ensures_on_db_only (
                    bind_prep-Keeps_for _ (HasTexts-framed after) use_allowed timer_allowed e [] n
                      v))
                  1 values)
                λ _. ensures_on_db_only (
                  exec_prep-Keeps_for _ (HasTexts-framed after) use_allowed timer_allowed e [] true
                    msec)).at
          w h)
