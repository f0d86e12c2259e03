-- ===== src/SqliteWriter/Turn.antt =====
-- The transaction statements that a connection sends, over its whole life.
use sqlitewrite.MiniSqlite.Frame.{IsFramed, push_rows-Keeps, ask-Keeps, send-Keeps, exec-Keeps}
use sqlitewrite.Base.{
  ◌∷◌, none, Option, ◌≡◌, Bool, true, false, some, [], ◌∙◌, refl, eqb, Option, if◌then◌else◌, ap,
}
use sqlitewrite.Base.Exec.{pure}
use sqlitewrite.Base.Hoare.{
  Ensures, Keeps, ensures_bind, ensures_weaken, ensures_modify, Keeps-pure, Keeps-if, Keeps-gets,
  Keeps-raise, ensures_gets, ensures_given,
}
use sqlitewrite.Text.{Text, codes, text_dec}
use sqlitewrite.Text.Dict.{Dict}
use sqlitewrite.Sqlite.{Engine, Call, Stmt, History}
use sqlitewrite.MiniSqlite.Db.{Db, exec, ask}
use sqlitewrite.MiniSqlite.Lifetime.{Flag, commit, cycle, begin, open_db, destroy_db, finalize_all}
use sqlitewrite.MiniSqlite.Words.{transaction_after, advance, word, transaction_after-append}

-- The flag with which the writes are batched in transactions.
abbrev pub batches : Flag → Bool
batches Flag.no_flag = true
batches Flag.read_only = false
batches Flag.no_transactions = false

-- What holds of a connection between two calls: the transaction statements sent came in turn, and
-- leave open what the flag says.
pub record InTurn (b : Bool) (db : Db) : Type 0 where
  pub sent : transaction_after (some false) db.calls ≡ some b
  pub flag : db.in_transaction ≡ b

pub InTurn-framed : (b : Bool) → IsFramed (InTurn b)
InTurn-framed b = record {
  on_call = λ c db q p. record {
    sent = transaction_after-append (some false) db.calls c ∙ rw (p.sent, q) refl;
    flag = p.flag;
  };
  on_rows = λ rows db p. record { sent = p.sent; flag = p.flag };
  on_counters = λ a b c d db p. record { sent = p.sent; flag = p.flag };
}

ask-InTurn :
    {A : Type 0} {E : Db → Type 0} (c : Call) (reply : History → A) (a b : Bool)
    → advance (some a) (word c) ≡ some b
    → Ensures
        (λ db. (transaction_after (some false) db.calls ≡ some a) × (db.in_transaction ≡ b))
        (ask c reply)
        (λ _. InTurn b)
        E
unfolding ask
ask-InTurn c reply a b move = record {
  at = λ db (sent, flag). record {
    sent =
        transaction_after-append (some false) db.calls c ∙ ap (λ s. advance s (word c)) sent ∙ move;
    flag = flag;
  };
}

module _ (e : Engine) where
  -- A transaction statement takes the state from `a` to `b`.
  word-InTurn :
      (sql : Text) (a b : Bool)
      → advance (some a) (word (Call.exec sql)) ≡ some b
      → Ensures
          (λ db. (transaction_after (some false) db.calls ≡ some a) × (db.in_transaction ≡ b))
          (exec e sql)
          (λ _. InTurn b)
          (InTurn b)
  unfolding exec
  word-InTurn sql a b move =
      ensures_bind
        {R = λ _ db. (transaction_after (some false) db.calls ≡ some a) × (db.in_transaction ≡ b)}
        (ensures_modify _ (λ db p. p))
        λ _. ensures_bind (ask-InTurn (Call.exec sql) _ a b move) λ reply.
          ensures_bind (push_rows-Keeps _ (InTurn-framed b) reply.rows)
            λ _. Keeps-if (eqb reply.rc 0) (Keeps-gets _) (Keeps-raise _)

  pub begin-InTurn : Ensures (InTurn false) (begin e) (λ _. InTurn true) (InTurn true)
  unfolding begin codes text_dec
  begin-InTurn =
      ensures_bind (ensures_modify _ (λ db p. (p.sent, refl)))
        λ _. ensures_bind (word-InTurn _ false true refl) (λ _. Keeps-pure tt)

  pub commit-InTurn : Ensures (InTurn true) (commit e) (λ _. InTurn false) (InTurn false)
  unfolding commit codes text_dec
  commit-InTurn =
      ensures_bind (ensures_modify _ (λ db p. (p.sent, refl)))
        λ _. ensures_bind (word-InTurn _ true false refl) (λ _. Keeps-pure tt)

  pub cycle-InTurn : Keeps (InTurn true) (cycle e)
  unfolding cycle codes text_dec
  cycle-InTurn =
      ensures_bind
        (ensures_weaken (λ db p. (p.sent, p.flag)) (λ _ db p. p) (λ db p. p)
          (word-InTurn _ true true refl))
        (λ _. Keeps-pure tt)

  finalize_all-InTurn :
      (b : Bool) (stmts : Dict (Option Stmt)) → Keeps (InTurn b) (finalize_all e stmts)
  unfolding finalize_all
  finalize_all-InTurn b [] = Keeps-pure tt
  finalize_all-InTurn b ((_, none) ∷ rest) = finalize_all-InTurn b rest
  finalize_all-InTurn b ((_, some stmt) ∷ rest) =
      ensures_bind (send-Keeps _ (InTurn-framed b) _ refl) (λ _. finalize_all-InTurn b rest)

  -- The destructor commits what is open.
  pub destroy_db-InTurn :
      (b : Bool) → Ensures (InTurn b) (destroy_db e) (λ _. InTurn false) (InTurn false)
  unfolding destroy_db
  destroy_db-InTurn b =
      ensures_bind {R = λ open_ db. (open_ ≡ b) × InTurn b db}
        (ensures_gets _ (λ db p. (p.flag, p)))
        λ open_. ensures_given λ same. rw same (
          ensures_bind (commit_if b) λ _. ensures_bind (Keeps-gets _) λ stmts.
            ensures_bind (finalize_all-InTurn false stmts)
              λ _. send-Keeps _ (InTurn-framed false) _ refl)
    where
      commit_if :
          (b : Bool)
          → Ensures (InTurn b) (if b then commit e else pure tt) (λ _. InTurn false) (InTurn false)
      commit_if true = commit-InTurn
      commit_if false = Keeps-pure tt

  -- The constructor of the connection sends no transaction statement.
  pub open_db-Keeps :
      (P : Db → Type 0) (f : IsFramed P) (fname : Text) (flag : Flag)
      → Keeps P (open_db e fname flag)
  unfolding open_db codes text_dec
  open_db-Keeps P f fname flag = ensures_bind (ask-Keeps P f _ _ refl) λ rc.
      Keeps-if (eqb rc 0)
        (ensures_bind (send-Keeps P f _ refl) λ _. ensures_bind (exec-Keeps P f e _ refl) λ _.
          ensures_bind (exec-Keeps P f e _ refl) λ _.
            ensures_bind (send-Keeps P f _ refl)
              λ _. ensures_bind (send-Keeps P f _ refl) λ _. send-Keeps P f _ refl)
        (Keeps-raise _)
