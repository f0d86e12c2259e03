-- ===== src/TestRunner/OpenWriter.antt =====
-- What the life of a writer within a test case keeps.
use sqlitewrite.Base.{ℕ, zero, suc, ◌+◌, ◌≡◌, Bool, true, false, if◌then◌else◌, refl, ◌∙◌, sym}
use sqlitewrite.Base.Exec.{Exec, Result, err, ok, pure}
use sqlitewrite.Base.Hoare.{
  Ensures, Keeps, Ends, keeps_always, ends_always, Keeps-pure, Keeps-bind, Anything,
}
use sqlitewrite.Base.Lists.{All}
use sqlitewrite.Text.{Text}
use sqlitewrite.Text.Dict.{Dict}
use sqlitewrite.Sqlite.{Engine}
use sqlitewrite.MiniSqlite.Lifetime.{Flag}
use sqlitewrite.SqliteWriter.Writer.{Writer}
use sqlitewrite.SqliteWriter.Lifetime.{
  new_writer, construct, construct_data, construct_flag, commit_thread,
}
use sqlitewrite.SqliteWriter.Turn.{InTurn}
use sqlitewrite.SqliteWriter.Program.Batched.{IsBatched, construct-IsBatched, round-IsBatched}
use sqlitewrite.SqliteWriter.Program.Closed.{destroy-InTurn}
use sqlitewrite.TestRunner.Scene.{
  World, Scene, engine_of, writer_opened, open_writer, close_writer, thread_turn, call_sqw, sqw,
  with_writer, leave, or_terminated,
}
use sqlitewrite.TestRunner.Lasting.{IsClosed, Held, Holds, Survives, Lasts, survives, Lasts-bind}
use sqlitewrite.TestRunner.Scope.{left, Opened, Closes, scope-Lasts}

-- A constructor leaves a writer between two calls, or throws and leaves no transaction open.
pub Opens : Flag → (Engine → Exec Writer (Unit {0})) → Type 0
Opens flag constructor =
    (e : Engine)
    → Ensures (λ w. w ≡ new_writer flag) (constructor e) (λ _. IsBatched flag)
        (λ w. InTurn false w.db)

pub construct-Opens :
    (fname : Text) (meta : Dict (Dict Text)) (flag : Flag)
    → Opens flag (λ e. construct e fname meta flag)
unfolding Opens
construct-Opens fname meta flag = λ e. construct-IsBatched e fname meta flag

pub construct_data-Opens :
    (fname : Text) (meta : Dict Text) → Opens Flag.no_flag (λ e. construct_data e fname meta)
unfolding Opens construct_data
construct_data-Opens fname meta = λ e. construct-IsBatched e fname _ Flag.no_flag

pub construct_flag-Opens :
    (fname : Text) (flag : Flag) → Opens flag (λ e. construct_flag e fname flag)
unfolding Opens construct_flag
construct_flag-Opens fname flag = λ e. construct-IsBatched e fname _ flag

module _ (world : World) (flag : Flag) where
  writer_opened-Opened :
      (r : Result (Unit {0})) (w : Writer) (s : Scene)
      → Holds Held.nothing s
      → Ends (λ _. IsBatched flag) (λ w. InTurn false w.db) (r, w)
      → Opened (Held.writer flag) (writer_opened world r w s)
  writer_opened-Opened (ok u) w s p q = record { closed = p.closed; has = q }
  writer_opened-Opened (err x) w s p q = left w.db.calls s p.closed q.sent

  open_writer-Opened :
      (constructor : Engine → Exec Writer (Unit {0}))
      → Opens flag constructor
      → (s : Scene) → Holds Held.nothing s
      → Opened (Held.writer flag) (open_writer world flag constructor s)
  unfolding open_writer Opens
  open_writer-Opened constructor o s p =
      writer_opened-Opened _ _ s p ((o (world.engine s.events)).at (new_writer flag) refl)

  closed_writer :
      (r : Result (Unit {0})) (w : Writer) (s : Scene)
      → All IsClosed s.events
      → Ends (λ _ w. InTurn false w.db) Anything (r, w)
      → Closes (r, leave w.db.calls s)
  closed_writer (ok u) w s p q = left w.db.calls s p q.sent
  closed_writer (err x) w s p q = tt

  close_writer-Closes : (s : Scene) → Holds (Held.writer flag) s → Closes (close_writer world s)
  unfolding close_writer
  close_writer-Closes s p = closed_writer _ _ s p.closed (
      (destroy-InTurn (engine_of world s) flag (world.in_round s.sqw.db.calls) s.round).at s.sqw
        p.has)

  pub with_writer-Lasts :
      (constructor : Engine → Exec Writer (Unit {0})) (body : Exec Scene (Unit {0}))
      → Opens flag constructor
      → Lasts (Held.writer flag) body
      → Lasts Held.nothing (with_writer world flag constructor body)
  unfolding with_writer
  with_writer-Lasts constructor body o p =
      scope-Lasts (Held.writer flag) (close_writer world) close_writer-Closes
        (open_writer world flag constructor) body (open_writer-Opened constructor o) p

  -- The rounds of the commit thread, which runs.
  rounds-Keeps :
      (e : Engine) (n k : ℕ)
      → Keeps (λ w. IsBatched flag w × (w.thread ≡ true)) (commit_thread e n k)
  unfolding commit_thread
  rounds-Keeps e zero k = Keeps-pure tt
  rounds-Keeps e (suc n) k =
      Keeps-bind
        (record {
          at = λ w (p, runs).
              let q = round-IsBatched e flag k w runs p in
              ends_always (λ w. IsBatched flag w × (w.thread ≡ true)) _ _
                (q, q.thread ∙ sym p.thread ∙ runs);
        })
        (λ _. rounds-Keeps e n (k + 1))

  turn_ends :
      (r : Result (Unit {0})) (s : Scene)
      → Holds (Held.writer flag) s
      → Survives (Holds (Held.writer flag)) (or_terminated r, s)
  turn_ends (ok u) s p = p
  turn_ends (err x) s p = tt

  pub turn-IsBatched :
      (e : Engine) (n k : ℕ) (w : Writer)
      → IsBatched flag w
      → IsBatched flag (commit_thread e (if w.thread then n else 0) k w).1
  unfolding commit_thread pure
  turn-IsBatched e n k w p = go w.thread refl
    where
      go : (b : Bool) → w.thread ≡ b → IsBatched flag (commit_thread e (if b then n else 0) k w).1
      go true runs =
          (keeps_always (λ w. IsBatched flag w × (w.thread ≡ true)) _ _
            ((rounds-Keeps e n k).at w (p, runs))).0
      go false runs = p

  thread_turn-Lasts : Lasts (Held.writer flag) (thread_turn world)
  unfolding thread_turn
  thread_turn-Lasts = record {
    at = λ s p. turn_ends _ _ (record {
      closed = p.closed;
      has = turn-IsBatched (engine_of world s) (world.rounds s.sqw.db.calls) s.round s.sqw p.has;
    });
  }

  called :
      {A : Type 0} (r : Result A) (w : Writer) (s : Scene)
      → All IsClosed s.events
      → Ends (λ _. IsBatched flag) (IsBatched flag) (r, w)
      → Survives (Holds (Held.writer flag)) (r, record s { sqw = w })
  called r w s p q =
      survives (Holds (Held.writer flag)) r (record s { sqw = w })
        (record { closed = p; has = keeps_always (IsBatched flag) r w q })

  -- A call of the open writer, after the rounds of its thread.
  pub sqw-Lasts :
      {A : Type 0} {m : Engine → Exec Writer A}
      → ((e : Engine) → Keeps (IsBatched flag) (m e))
      → Lasts (Held.writer flag) (sqw world m)
  unfolding sqw call_sqw
  sqw-Lasts keeps =
      Lasts-bind thread_turn-Lasts λ _. record {
        at = λ s p. called _ _ s p.closed ((keeps (engine_of world s)).at s.sqw p.has);
      }
