-- ===== src/MiniSqlite/Owned/Prepared.antt =====
-- `prepare` hands the statement of a table over: the old one is finalised once, the new one is kept.
use sqlitewrite.Text.Dict.{at-insert}
use sqlitewrite.MiniSqlite.Owned.{OwnsAll, held-insert, held, one_if, at, held_at}
use sqlitewrite.MiniSqlite.Alive.{alive, given_out, remove, alive-append, count-remove}
use sqlitewrite.MiniSqlite.Statement.{set_stmt, prepare_result, finalize_old, prepare}
use sqlitewrite.Base.{ℕ, ◌+◌, ◌<◌, ◌≡◌, Option, none, some, arith, refl, ◌∙◌, List}
use sqlitewrite.Base.Hoare.{
  Ensures, Keeps, ensures_bind, ensures_gets, ensures_modify, ensures_raise, ensures_pure,
}
use sqlitewrite.Text.{Text}
use sqlitewrite.Sqlite.{Stmt, Call, Engine, PrepareReply}
use sqlitewrite.MiniSqlite.Alive.{count, remove, given_out, alive, alive-append, count-remove}
use sqlitewrite.MiniSqlite.Db.{Db, stmt_of, send, ask}

module _ (e : Engine) (table : Text) where
  -- The statements alive are those in `d_stmts` and `extra`; the table has the entry `entry`.
  record Owes (entry extra : Option Stmt) (db : Db) : Type 0 where
    live : List ℕ
    sound : alive e db.calls ≡ some live
    same : (a : ℕ) → count a live ≡ held a db.stmts + one_if a extra
    here : at none table db.stmts ≡ entry

  -- The statement that is finalised is still in `d_stmts`.
  record Dangles (old : Stmt) (db : Db) : Type 0 where
    live : List ℕ
    sound : alive e db.calls ≡ some live
    same : (a : ℕ) → count a live + one_if a (some old) ≡ held a db.stmts
    here : at none table db.stmts ≡ some old

  abbrev new_of : Text → PrepareReply → Option Stmt
  new_of sql (PrepareReply.prepared none) = none
  new_of sql (PrepareReply.prepared (some address)) = some (record { address = address; sql = sql })
  new_of sql (PrepareReply.refused errmsg) = none

  count-given_out :
      (a : ℕ) (sql : Text) (reply : PrepareReply) (live : List ℕ)
      → count a (given_out reply live) ≡ count a live + one_if a (new_of sql reply)
  count-given_out a sql (PrepareReply.prepared none) live = omega arith
  count-given_out a sql (PrepareReply.prepared (some address)) live = omega arith
  count-given_out a sql (PrepareReply.refused errmsg) live = omega arith

  finalize_sends :
      (old : Stmt) {E : Db → Type 0}
      → Ensures
          (λ db. OwnsAll e db × (at none table db.stmts ≡ some old))
          (send (Call.finalize old))
          (λ _. Dangles old)
          E
  unfolding send
  finalize_sends old = record {
    at = λ db (o, here).
        let there : 0 < count old.address o.owns.live =
          rw (o.owns.same old.address) (held_at table old db.stmts here) in
        record {
          live = remove old.address o.owns.live;
          sound = alive-append e db.calls _ o.owns.live o.owns.sound ∙ ground (arith, there);
          same = λ a. count-remove old.address a o.owns.live there ∙ o.owns.same a;
          here = here;
        };
  }

  set_stmt-Owes :
      (p : Option Stmt) {E : Db → Type 0}
      → Ensures (Owes none p) (set_stmt table p) (λ _. OwnsAll e) E
  unfolding set_stmt
  set_stmt-Owes p = ensures_modify _ λ db o. record {
    owns = record {
      live = o.live;
      sound = o.sound;
      same = λ a.
          let k = held-insert a table p db.stmts in
          let h = rw o.here at k in omega (arith, o.same a, h);
    };
    usable = λ s k. cc;
  }

  clear_old :
      (old : Stmt) {E : Db → Type 0}
      → Ensures (Dangles old) (set_stmt table none) (λ _. Owes none none) E
  unfolding set_stmt
  clear_old old = ensures_modify _ λ db o. record {
    live = o.live;
    sound = o.sound;
    same = λ a.
        let k = held-insert a table none db.stmts in
        let h = rw o.here at k in omega (arith, o.same a, h);
    here = at-insert none table table none db.stmts ∙ ground arith;
  }

  finalize_old-Owes :
      (old : Option Stmt)
      → Ensures
          (λ db. OwnsAll e db × (at none table db.stmts ≡ old))
          (finalize_old table old)
          (λ _. Owes none none)
          (OwnsAll e)
  unfolding finalize_old
  finalize_old-Owes none = ensures_pure tt λ db (o, here). record {
    live = o.owns.live;
    sound = o.owns.sound;
    same = λ a. omega (arith, o.owns.same a);
    here = here;
  }
  finalize_old-Owes (some old) = ensures_bind (finalize_sends old) (λ _. clear_old old)

  ask_new :
      (sql : Text) {E : Db → Type 0}
      → Ensures
          (Owes none none)
          (ask (Call.prepare_v2 sql) (λ h. e.prepare_v2 h sql))
          (λ reply. Owes none (new_of sql reply))
          E
  unfolding ask
  ask_new sql = record {
    at = λ db o. record {
      live = given_out (e.prepare_v2 db.calls sql) o.live;
      sound = alive-append e db.calls _ o.live o.sound;
      same = λ a. omega (arith, o.same a, count-given_out a sql (e.prepare_v2 db.calls sql) o.live);
      here = o.here;
    };
  }

  prepare_result-OwnsAll :
      (sql : Text) (reply : PrepareReply)
      → Ensures
          (Owes none (new_of sql reply))
          (prepare_result table sql reply)
          (λ _. OwnsAll e)
          (OwnsAll e)
  unfolding prepare_result
  prepare_result-OwnsAll sql (PrepareReply.prepared none) = set_stmt-Owes none
  prepare_result-OwnsAll sql (PrepareReply.prepared (some address)) = set_stmt-Owes _
  prepare_result-OwnsAll sql (PrepareReply.refused errmsg) =
      ensures_bind (set_stmt-Owes none) (λ _. ensures_raise _ (λ db o. o))

  pub prepare-OwnsAll : (sql : Text) → Keeps (OwnsAll e) (prepare e table sql)
  unfolding prepare stmt_of
  prepare-OwnsAll sql =
      ensures_bind {R = λ old db. OwnsAll e db × (at none table db.stmts ≡ old)}
        (ensures_gets _ (λ db o. (o, refl)))
        λ old.
          ensures_bind (finalize_old-Owes old)
            λ _. ensures_bind (ask_new sql) (λ reply. prepare_result-OwnsAll sql reply)
