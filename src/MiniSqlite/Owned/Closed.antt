-- ===== src/MiniSqlite/Owned/Closed.antt =====
-- The destructor finalises every statement that is alive, once, and then closes the connection.
use sqlitewrite.MiniSqlite.Owned.Opened.{commit-OwnsAll}
use sqlitewrite.MiniSqlite.Owned.{OwnsAll, held}
use sqlitewrite.MiniSqlite.Lifetime.{destroy_db, finalize_all}
use sqlitewrite.Base.{ℕ, ◌<◌, ◌≡◌, Option, none, some, [], ◌∷◌, arith, ◌∙◌, List}
use sqlitewrite.Base.Hoare.{
  Ensures, ensures_bind, ensures_gets, ensures_pure, ensures_weaken, Keeps-if, Keeps-pure, Anything,
}
use sqlitewrite.Text.{Text}
use sqlitewrite.Text.Dict.{Dict}
use sqlitewrite.Sqlite.{Stmt, Call, Engine}
use sqlitewrite.MiniSqlite.Db.{Db, send}
use sqlitewrite.MiniSqlite.Alive.{count, remove, alive, alive-append, count-remove, no_count}

module _ (e : Engine) where
  -- The statements alive are those of `stmts`.
  record Left (stmts : Dict (Option Stmt)) (db : Db) : Type 0 where
    live : List ℕ
    sound : alive e db.calls ≡ some live
    same : (a : ℕ) → count a live ≡ held a stmts

  finalize-Left :
      (t : Text) (s : Stmt) (rest : Dict (Option Stmt)) {E : Db → Type 0}
      → Ensures (Left ((t, some s) ∷ rest)) (send (Call.finalize s)) (λ _. Left rest) E
  unfolding send
  finalize-Left t s rest = record {
    at = λ db o.
        let there : 0 < count s.address o.live = ground (arith, o.same s.address) in
        record {
          live = remove s.address o.live;
          sound = alive-append e db.calls _ o.live o.sound ∙ ground (arith, there);
          same = λ a. ground (arith, count-remove s.address a o.live there, o.same a);
        };
  }

  finalize_all-Left :
      (stmts : Dict (Option Stmt))
      → Ensures (Left stmts) (finalize_all e stmts) (λ _. Left []) (λ db. ⊥)
  unfolding finalize_all
  finalize_all-Left [] = ensures_pure tt (λ db o. o)
  finalize_all-Left ((t, none) ∷ rest) =
      ensures_weaken
        (λ db o. record { live = o.live; sound = o.sound; same = λ a. omega (arith, o.same a) })
        (λ _ db o. o) (λ db o. o) (finalize_all-Left rest)
  finalize_all-Left ((t, some s) ∷ rest) =
      ensures_bind (finalize-Left t s rest) (λ _. finalize_all-Left rest)

  close-Left :
      {E : Db → Type 0} → Ensures (Left []) (send Call.close) (λ _ db. alive e db.calls ≡ some []) E
  unfolding send
  close-Left = record {
    at = λ db o. alive-append e db.calls Call.close o.live o.sound ∙ rw (no_count o.live o.same);
  }

  -- No statement is alive when the destructor has closed the connection.
  pub destroy_db-released :
      Ensures (OwnsAll e) (destroy_db e) (λ _ db. alive e db.calls ≡ some []) Anything
  unfolding destroy_db
  destroy_db-released = ensures_bind {R = λ _. OwnsAll e} (ensures_gets _ (λ db o. o)) λ open_.
      ensures_bind
        (ensures_weaken (λ db o. o) (λ _ db o. o) (λ db o. tt)
          (Keeps-if open_ (commit-OwnsAll e) (Keeps-pure tt)))
        λ _.
          ensures_bind {R = λ stmts. Left stmts}
            (ensures_gets _
              (λ db o. record { live = o.owns.live; sound = o.owns.sound; same = o.owns.same }))
            λ stmts.
              ensures_weaken (λ db o. o) (λ _ db o. o) (λ db o. absurd o)
                (ensures_bind (finalize_all-Left stmts) (λ _. close-Left))
