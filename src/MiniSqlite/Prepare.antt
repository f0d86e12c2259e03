-- ===== src/MiniSqlite/Prepare.antt =====
-- What `prepare` does to the table of statements.
use sqlitewrite.Base.{◌≡◌, ◌≢◌, Option, none, arith, ℕ, sym, some, refl}
use sqlitewrite.Base.Hoare.{
  Ensures, ensures_modify, ensures_pure, ensures_bind, ensures_gets, ensures_weaken, ensures_raise,
}
use sqlitewrite.Text.{Text, text_eq}
use sqlitewrite.Text.Dict.{at-insert}
use sqlitewrite.Sqlite.{Stmt, Engine, Call, History, PrepareReply}
use sqlitewrite.MiniSqlite.Db.{Db, stmt_of, send, ask}
use sqlitewrite.MiniSqlite.Statement.{set_stmt, finalize_old, prepare, prepare_result}

module _ (table : Text) (before : Db) where
  -- The statements of the other tables, and the transaction, are as they were.
  pub record OthersKept (db : Db) : Type 0 where
    pub others : (t : Text) → t ≢ table → stmt_of t db ≡ stmt_of t before
    pub transaction : db.in_transaction ≡ before.in_transaction

  pub record IsPrepared (p : Option Stmt) (db : Db) : Type 0 where
    pub kept : OthersKept db
    pub here : stmt_of table db ≡ p

  set_stmt_lem :
      (p : Option Stmt) {E : Db → Type 0}
      → Ensures OthersKept (set_stmt table p) (λ _. IsPrepared p) E
  unfolding set_stmt stmt_of
  set_stmt_lem p = ensures_modify _ λ db k. record {
    kept = record {
      others = λ t ne. ground (arith, at-insert none t table p db.stmts, k.others t ne);
      transaction = k.transaction;
    };
    here = ground (arith, at-insert none table table p db.stmts);
  }

  send_lem : (c : Call) {E : Db → Type 0} → Ensures OthersKept (send c) (λ _. OthersKept) E
  unfolding send stmt_of
  send_lem c = record { at = λ db k. record { others = k.others; transaction = k.transaction } }

  finalize_old_lem :
      (old : Option Stmt) {E : Db → Type 0}
      → Ensures OthersKept (finalize_old table old) (λ _. OthersKept) E
  unfolding finalize_old
  finalize_old_lem none = ensures_pure tt (λ db k. k)
  finalize_old_lem (some old) =
      ensures_bind (send_lem (Call.finalize old))
        λ _. ensures_weaken (λ db k. k) (λ _ db k. k.kept) (λ db k. k) (set_stmt_lem none)

  module _ (e : Engine) (sql : Text) where
    -- The ways in which `prepare` returns: the text held no statement, or it was compiled.
    pub data Compiled (db : Db) : Type 0 where
      empty :
          (h : History)
          → e.prepare_v2 h sql ≡ PrepareReply.prepared none
          → IsPrepared none db
          → Compiled db
      compiled :
          (address : ℕ)
          → IsPrepared (some (record { address = address; sql = sql })) db
          → Compiled db

    ask_reply :
        {E : Db → Type 0}
        → Ensures OthersKept
            (ask (Call.prepare_v2 sql) (λ h. e.prepare_v2 h sql))
            (λ reply db. ((h : History) × (reply ≡ e.prepare_v2 h sql)) × OthersKept db)
            E
    unfolding ask stmt_of
    ask_reply = record {
      at = λ db k. ((db.calls, refl), record { others = k.others; transaction = k.transaction });
    }

    prepare_result_lem :
        (h : History) (reply : PrepareReply)
        → reply ≡ e.prepare_v2 h sql
        → Ensures OthersKept (prepare_result table sql reply) (λ _. Compiled) (IsPrepared none)
    unfolding prepare_result
    prepare_result_lem h (PrepareReply.prepared none) same =
        ensures_weaken (λ db k. k) (λ _ db k. empty h (sym same) k) (λ db k. k) (set_stmt_lem none)
    prepare_result_lem h (PrepareReply.prepared (some a)) same =
        ensures_weaken (λ db k. k) (λ _ db k. compiled a k) (λ db k. k)
          (set_stmt_lem (some (record { address = a; sql = sql })))
    prepare_result_lem h (PrepareReply.refused m) same =
        ensures_bind (set_stmt_lem none) λ _. ensures_raise _ (λ db k. k)

    -- After `prepare` the table has the new statement, or none if it threw.
    pub prepare_lem :
        Ensures (λ db. db ≡ before) (prepare e table sql) (λ _. Compiled) (IsPrepared none)
    unfolding prepare
    prepare_lem =
        ensures_bind {R = λ _. OthersKept}
          (ensures_gets _
            (λ db same. rw same (record { others = λ t ne. refl; transaction = refl })))
          λ old. ensures_bind (finalize_old_lem old) λ _.
            ensures_bind
              {R = λ reply db. ((h : History) × (reply ≡ e.prepare_v2 h sql)) × OthersKept db}
              ask_reply
              λ reply. record { at = λ db (f, k). (prepare_result_lem f.0 reply f.1).at db k }
