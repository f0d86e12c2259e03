-- ===== src/SqliteWriter/Program/Batched.antt =====
-- Transactions over the life of a writer: `SQLiteWriter` with its flag and its commit thread.
use sqlitewrite.MiniSqlite.Frame.{exec-Keeps}
use sqlitewrite.SqliteWriter.Frame.{ensures_on_db}
use sqlitewrite.MiniSqlite.Db.{Db}
use sqlitewrite.SqliteWriter.Steady.{IsSteady, add_value_generic-Keeps, query_gen-Keeps}
use sqlitewrite.SqliteWriter.Turn.{
  InTurn, batches, InTurn-framed, cycle-InTurn, begin-InTurn, open_db-Keeps, destroy_db-InTurn,
}
use sqlitewrite.SqliteWriter.Lifetime.{
  thread_round, construct, new_writer, unwind, constructor_body, start_batching, unwound,
}
use sqlitewrite.Base.{ℕ, ◌≡◌, true, false, Bool-cases, eqb, ◌%◌, inl, refl, sym, ◌∙◌, inr, Bool}
use sqlitewrite.Base.Exec.{ok, Exec, pure, Result, err}
use sqlitewrite.Base.Hoare.{
  Ensures, Keeps, keeps_always, at_ok, ensures_bind, Ends, ensures_weaken, ensures_modify,
  ensures_pure, Anything,
}
use sqlitewrite.Text.{Text, codes, text_dec}
use sqlitewrite.Text.Dict.{Dict}
use sqlitewrite.Sqlite.{Engine}
use sqlitewrite.MiniSqlite.Lifetime.{Flag, cycle}
use sqlitewrite.SqliteWriter.Writer.{Writer, on_db}
use sqlitewrite.SqliteWriter.Program.{Step, Reach}

-- What the flag promises about transactions.
pub record IsBatched (flag : Flag) (w : Writer) : Type 0 where
  pub turn : InTurn (batches flag) w.db
  pub thread : w.thread ≡ batches flag
  pub same_flag : w.flag ≡ flag

pub IsBatched-steady : (flag : Flag) → IsSteady (IsBatched flag)
IsBatched-steady flag = record {
  framed = record {
    on_db = λ w. record {
      on_call = λ c db q p. record {
        turn = (InTurn-framed (batches flag)).on_call c db q p.turn;
        thread = p.thread;
        same_flag = p.same_flag;
      };
      on_rows = λ rows db p. record {
        turn = (InTurn-framed (batches flag)).on_rows rows db p.turn;
        thread = p.thread;
        same_flag = p.same_flag;
      };
      on_counters = λ a b c d db p. record {
        turn = (InTurn-framed (batches flag)).on_counters a b c d db p.turn;
        thread = p.thread;
        same_flag = p.same_flag;
      };
    };
    on_columns =
        λ columns w p. record { turn = p.turn; thread = p.thread; same_flag = p.same_flag };
  };
  on_stmts = λ stmts w p. record {
    turn = record { sent = p.turn.sent; flag = p.turn.flag };
    thread = p.thread;
    same_flag = p.same_flag;
  };
  on_signature =
      λ sig rep w p. record { turn = p.turn; thread = p.thread; same_flag = p.same_flag };
}

module _ (e : Engine) where
  -- The thread runs only where writes are batched, so it finds a transaction open.
  cycle-IsBatched :
      (flag : Flag) (w : Writer)
      → batches flag ≡ true
      → IsBatched flag w
      → IsBatched flag (on_db (cycle e) w).1
  unfolding on_db
  cycle-IsBatched Flag.no_flag w h p = record {
    turn =
        keeps_always (InTurn true) (cycle e w.db).0 (cycle e w.db).1
          ((cycle-InTurn e).at w.db p.turn);
    thread = p.thread;
    same_flag = p.same_flag;
  }
  cycle-IsBatched Flag.read_only w h p = cc
  cycle-IsBatched Flag.no_transactions w h p = cc

  pub round-IsBatched :
      (flag : Flag) (n : ℕ) (w : Writer)
      → w.thread ≡ true
      → IsBatched flag w
      → IsBatched flag (thread_round e n w).1
  unfolding thread_round pure
  round-IsBatched flag n w runs p = elim (Bool-cases (eqb (n % 20) 0)) [
    | inl now ↦ rw now (cycle-IsBatched flag w (sym p.thread ∙ runs) p)
    | inr later ↦ rw later p
  ]

  Step-IsBatched :
      (flag : Flag) {w w' : Writer} → Step e w w' → IsBatched flag w → IsBatched flag w'
  Step-IsBatched flag (Step.add_value w table values replace) p =
      keeps_always (IsBatched flag) _ _
        ((add_value_generic-Keeps _ (IsBatched-steady flag) e table values replace).at w p)
  Step-IsBatched flag (Step.query w q values msec) p =
      keeps_always (IsBatched flag) _ _
        ((query_gen-Keeps _ (IsBatched-steady flag) e q values msec).at w p)
  Step-IsBatched flag (Step.round w n runs returned) p = round-IsBatched flag n w runs p

  -- Before transactions are opened.
  abbrev IsEarly : Flag → Writer → Type 0
  IsEarly flag w = InTurn false w.db × (w.thread ≡ false) × (w.flag ≡ flag)

  IsEarly-step :
      {A : Type 0} (flag : Flag) (m : Exec Db A)
      → Keeps (InTurn false) m
      → Ensures (IsEarly flag) (on_db m) (λ _. IsEarly flag) (λ w. InTurn false w.db)
  IsEarly-step flag m h = ensures_on_db λ w (turn, thread, same).
      ensures_weaken (λ db at_start. rw at_start turn) (λ _ db t. (t, thread, same)) (λ db t. t) h

  -- The transaction statements came in turn so far.
  abbrev IsInTurn : Writer → Type 0
  IsInTurn w = (b : Bool) × InTurn b w.db

  start_batching-IsBatched :
      (flag : Flag) → Ensures (IsEarly flag) (start_batching e flag) (λ _. IsBatched flag) IsInTurn
  unfolding start_batching
  start_batching-IsBatched Flag.no_flag =
      ensures_bind {R = λ _ w. InTurn true w.db × (w.flag ≡ Flag.no_flag)}
        (ensures_on_db λ w (turn, thread, same).
          ensures_weaken (λ db at_start. rw at_start turn) (λ _ db t. (t, same)) (λ db t. (true, t))
            (begin-InTurn e))
        λ _.
          ensures_modify _
            (λ w (turn, same). record { turn = turn; thread = refl; same_flag = same })
  start_batching-IsBatched Flag.read_only =
      ensures_pure tt
        (λ w (turn, thread, same). record { turn = turn; thread = thread; same_flag = same })
  start_batching-IsBatched Flag.no_transactions =
      ensures_pure tt
        (λ w (turn, thread, same). record { turn = turn; thread = thread; same_flag = same })

  pub unwind-Ensures :
      {P Q : Writer → Type 0} (m : Exec Writer (Unit {0}))
      → Ensures P m (λ _. Q) Anything
      → Ensures P (unwind e m) (λ _. Q) Anything
  unfolding unwind
  unwind-Ensures {Q = Q} m h = record { at = λ w p. go (m w).0 (m w).1 (h.at w p) }
    where
      go :
          (r : Result (Unit {0})) (w : Writer)
          → Ends (λ _. Q) Anything (r, w)
          → Ends (λ _. Q) Anything (unwound e r w)
      go (ok u) w h = h
      go (err x) w h = tt

  -- Where the body of the constructor throws, the connection is closed with what it has open.
  unwind-InTurn :
      {P Q : Writer → Type 0} (m : Exec Writer (Unit {0}))
      → Ensures P m (λ _. Q) IsInTurn
      → Ensures P (unwind e m) (λ _. Q) (λ w. InTurn false w.db)
  unfolding unwind on_db
  unwind-InTurn {Q = Q} m h = record { at = λ w p. go (m w).0 (m w).1 (h.at w p) }
    where
      go :
          (r : Result (Unit {0})) (w : Writer)
          → Ends (λ _. Q) IsInTurn (r, w)
          → Ends (λ _. Q) (λ w. InTurn false w.db) (unwound e r w)
      go (ok u) w h = h
      go (err x) w (b, h) = keeps_always (InTurn false) _ _ ((destroy_db-InTurn e b).at w.db h)

  pub construct-IsBatched :
      (fname : Text) (meta : Dict (Dict Text)) (flag : Flag)
      → Ensures
          (λ w. w ≡ new_writer flag)
          (construct e fname meta flag)
          (λ _. IsBatched flag)
          (λ w. InTurn false w.db)
  unfolding construct constructor_body codes text_dec
  construct-IsBatched fname meta flag =
      ensures_bind {R = λ _. IsEarly flag}
        (ensures_weaken (λ w same. rw same (record { sent = refl; flag = refl }, refl, refl))
          (λ _ w p. p) (λ w p. p)
          (IsEarly-step flag _ (open_db-Keeps e _ (InTurn-framed false) fname flag)))
        λ _. unwind-InTurn _ (
          ensures_bind {R = λ _. IsEarly flag}
            (ensures_weaken (λ w p. p) (λ _ w p. p) (λ w p. (false, p))
              (IsEarly-step flag _ (exec-Keeps _ (InTurn-framed false) e _ refl)))
            λ _. ensures_bind (start_batching-IsBatched flag) λ _.
              ensures_modify _
                (λ w p. record { turn = p.turn; thread = p.thread; same_flag = p.same_flag }))

  -- In every state that a writer can reach, its flag is the one it was made with, and the
  -- transaction statements sent so far came in turn: without a flag a transaction is open and the
  -- commit thread runs, and with a flag there is neither.
  pub Reach-IsBatched :
      (fname : Text) (meta : Dict (Dict Text)) (flag : Flag) {w : Writer}
      → Reach e fname meta flag w
      → IsBatched flag w
  Reach-IsBatched fname meta flag (Reach.start returned) =
      at_ok (new_writer flag) (construct-IsBatched fname meta flag) refl returned
  Reach-IsBatched fname meta flag (Reach.next r step) =
      Step-IsBatched flag step (Reach-IsBatched fname meta flag r)
