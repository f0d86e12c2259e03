-- ===== src/Demo/Finishes.antt =====
-- demo.cc where nothing fails.
use sqlitewrite.TestRunner.Parts.{add-Lasts}
use sqlitewrite.Base.Lists.{All}
use sqlitewrite.TestRunner.Lasting.{Lasts, Survives, Held, Holds, IsClosed, Lasts-pure, Lasts-bind}
use sqlitewrite.Base.{ℕ, zero, suc, ◌+◌, ◌≡◌, false, [], if◌then◌else◌, refl}
use sqlitewrite.Base.Exec.{ok, err, Result}
use sqlitewrite.Base.Hoare.{
  Ends, Ensures, ensures_bind, ensures_pure, keeps_always, Anything, Never, Returns,
}
use sqlitewrite.Text.{Text, codes}
use sqlitewrite.Sqlite.{History}
use sqlitewrite.MiniSqlite.Lifetime.{Flag}
use sqlitewrite.MiniSqlite.Returns.{IsObliging}
use sqlitewrite.SqliteWriter.Writer.{Writer}
use sqlitewrite.SqliteWriter.Insert.{Values, add_value}
use sqlitewrite.SqliteWriter.Lifetime.{new_writer, construct}
use sqlitewrite.SqliteWriter.Returns.{add_value_generic-returns}
use sqlitewrite.SqliteWriter.Lives.{construct-Returns, commit_thread-Returns, destroy-Returns}
use sqlitewrite.SqliteWriter.Steady.{add_value_generic-Keeps}
use sqlitewrite.SqliteWriter.Turn.{InTurn}
use sqlitewrite.SqliteWriter.Program.Batched.{IsBatched, IsBatched-steady, construct-IsBatched}
use sqlitewrite.TestRunner.Scene.{
  World, Scene, engine_of, thread_turn, call_sqw, sqw, with_writer, open_writer, writer_opened,
  close_writer, scoped, or_terminated, scope_result,
}
use sqlitewrite.TestRunner.Access.{add}
use sqlitewrite.TestRunner.OpenWriter.{turn-IsBatched, with_writer-Lasts, construct-Opens}
use sqlitewrite.Demo.Rows.{Exit, demo_row, demo_loop, demo_body, demo_main, print_exception, caught}

-- SQLite opens every file and reports no failure.
pub record IsFriendly (world : World) : Type 0 where
  pub obliging : (events : _) → IsObliging (world.engine events)
  pub opens :
      (events : _) (h : History) (fname : Text) (flags : ℕ)
      → (world.engine events).open_v2 h fname flags ≡ 0

module _ (world : World) (f : IsFriendly world) where
  -- The writer is between two calls, and batches its writes.
  abbrev Ready : Scene → Type 0
  Ready s = IsBatched Flag.no_flag s.sqw

  Ready-after :
      {A : Type 0} (r : Result A) (w : Writer) (s : Scene)
      → Ends (λ _. Anything) Never (r, w)
      → Ready s
      → Ends (λ _. Ready) Never (r, s)
  Ready-after (ok a) w s n p = p
  Ready-after (err x) w s n p = n

  Ready-or_terminated :
      (r : Result (Unit {0})) (s : Scene)
      → Ends (λ _. Ready) Never (r, s)
      → Ends (λ _. Ready) Never (or_terminated r, s)
  Ready-or_terminated (ok u) s p = p
  Ready-or_terminated (err x) s p = p

  thread_turn-Ready : Ensures Ready (thread_turn world) (λ _. Ready) Never
  unfolding thread_turn
  thread_turn-Ready = record {
    at = λ s p.
        let e = engine_of world s in
        let n = world.rounds s.sqw.db.calls in
        Ready-or_terminated _ _ (
          Ready-after _ _ _
            ((commit_thread-Returns e (f.obliging s.opened_after) (if s.sqw.thread then n else 0)
                s.round).at
              s.sqw tt)
            (turn-IsBatched world Flag.no_flag e n s.round s.sqw p));
  }

  add-Ready : (values : Values) → Ensures Ready (add world values) (λ _. Ready) Never
  unfolding add sqw call_sqw add_value
  add-Ready values = ensures_bind thread_turn-Ready λ _. record {
    at = λ s p.
        let e = engine_of world s in
        ok_ends _ _
          (add_value_generic-returns e (f.obliging s.opened_after) (codes "data") values false s.sqw
            (λ h. cc (p.same_flag, h)))
          (keeps_always (IsBatched Flag.no_flag) _ _ (
            (add_value_generic-Keeps _ (IsBatched-steady Flag.no_flag) e (codes "data") values
                false).at
              s.sqw p));
  }
    where
      ok_ends :
          (r : Result (Unit {0})) (s : Scene) → r ≡ ok tt → Ready s → Ends (λ _. Ready) Never (r, s)
      ok_ends r s h p = rw h p

  demo_loop-Ready : (rounds n : ℕ) → Ensures Ready (demo_loop world rounds n) (λ _. Ready) Never
  unfolding demo_loop
  demo_loop-Ready zero n = ensures_pure tt (λ s p. p)
  demo_loop-Ready (suc rounds) n = ensures_bind (add-Ready _) (λ _. demo_loop-Ready rounds (n + 1))

  demo_body-Ready : Ensures Ready (demo_body world) (λ _. Ready) Never
  unfolding demo_body
  demo_body-Ready =
      ensures_bind (demo_loop-Ready 1000000 0)
        λ _. ensures_bind (add-Ready _) (λ _. demo_loop-Ready 1 0)

  opened_if_constructed :
      (r : Result (Unit {0})) (w : Writer) (s : Scene)
      → Ends (λ _. Anything) Never (r, w)
      → Ends (λ _. IsBatched Flag.no_flag) (λ w. InTurn false w.db) (r, w)
      → Ends (λ _. Ready) Never (writer_opened world r w s)
  opened_if_constructed (ok u) w s n p = p
  opened_if_constructed (err x) w s n p = n

  open_writer-Ready :
      Ensures Anything
        (open_writer world Flag.no_flag
          (λ e. construct e (codes "example.sqlite3") [] Flag.no_flag))
        (λ _. Ready)
        Never
  unfolding open_writer
  open_writer-Ready = record {
    at = λ s p.
        let e = world.engine s.events in
        opened_if_constructed _ _ s
          ((construct-Returns e (f.obliging s.events) (f.opens s.events) (codes "example.sqlite3")
              [] Flag.no_flag).at
            (new_writer Flag.no_flag) tt)
          ((construct-IsBatched e (codes "example.sqlite3") [] Flag.no_flag).at
            (new_writer Flag.no_flag) refl);
  }

  close_writer-Returns : Returns (close_writer world)
  unfolding close_writer
  close_writer-Returns = record {
    at = λ s p. gone _ _ _ (
        (destroy-Returns (engine_of world s) (f.obliging s.opened_after)
            (world.in_round s.sqw.db.calls) s.round).at
          s.sqw tt);
  }
    where
      gone :
          (r : Result (Unit {0})) (w : Writer) (s : Scene)
          → Ends (λ _. Anything) Never (r, w)
          → Ends (λ _. Anything) Never (r, s)
      gone (ok u) w s h = tt
      gone (err x) w s h = h

  scope-Returns :
      Ensures Ready (scoped (demo_body world) (close_writer world)) (λ _. Anything) Never
  unfolding scoped
  scope-Returns = record {
    at = λ s p. let (r, s') = demo_body world s in ended r s' (demo_body-Ready.at s p);
  }
    where
      closed :
          (c : Result (Unit {0})) (s : Scene)
          → Ends (λ _. Anything) Never (c, s)
          → Ends (λ _. Anything) Never (scope_result (ok tt) c, s)
      closed (ok u) s h = tt
      closed (err x) s h = h

      ended :
          (r : Result (Unit {0})) (s : Scene)
          → Ends (λ _. Ready) Never (r, s)
          → Ends
              (λ _. Anything)
              Never
              (scope_result r (close_writer world s).0, (close_writer world s).1)
      ended (ok tt) s h = closed _ _ (close_writer-Returns.at s tt)
      ended (err x) s h = absurd h

  with_writer-Returns : Returns (
      with_writer world Flag.no_flag
        (λ e. construct e (codes "example.sqlite3") [] Flag.no_flag)
        (demo_body world))
  unfolding with_writer
  with_writer-Returns = ensures_bind open_writer-Ready (λ _. scope-Returns)

  finished_if_ok :
      (r : Result (Unit {0})) (s : Scene)
      → Ends (λ _. Anything) Never (r, s)
      → caught r ≡ ok Exit.finished
  finished_if_ok (ok u) s h = refl
  finished_if_ok (err x) s h = absurd h

  demo_loop-Lasts : (rounds n : ℕ) → Lasts (Held.writer Flag.no_flag) (demo_loop world rounds n)
  unfolding demo_loop
  demo_loop-Lasts zero n = Lasts-pure tt
  demo_loop-Lasts (suc rounds) n =
      Lasts-bind (add-Lasts world (demo_row world n)) (λ _. demo_loop-Lasts rounds (n + 1))

  demo_body-Lasts : Lasts (Held.writer Flag.no_flag) (demo_body world)
  unfolding demo_body
  demo_body-Lasts =
      Lasts-bind (demo_loop-Lasts 1000000 0)
        λ _. Lasts-bind (add-Lasts world _) (λ _. demo_loop-Lasts 1 0)

  IsClosed-if_ok :
      (r : Result (Unit {0})) (s : Scene)
      → Ends (λ _. Anything) Never (r, s)
      → Survives (Holds Held.nothing) (r, s)
      → All IsClosed s.events
  IsClosed-if_ok (ok u) s h p = p.closed
  IsClosed-if_ok (err x) s h p = absurd h

  -- Where SQLite opens every file and reports no failure, the program ends with its last statement
  -- and not with an exception, whatever the commit thread does between its writes, and leaves no
  -- transaction open.
  pub demo_main-finishes :
      (s : Scene)
      → All IsClosed s.events
      → ((demo_main world s).0 ≡ ok Exit.finished) × All IsClosed ((demo_main world s).1).events
  unfolding demo_main print_exception
  demo_main-finishes s p = (
    finished_if_ok _ _ (with_writer-Returns.at s tt),
    IsClosed-if_ok _ _ (with_writer-Returns.at s tt) (
        (with_writer-Lasts world Flag.no_flag _ _ (construct-Opens _ _ _) demo_body-Lasts).at s
          (record { closed = p; has = tt })),
  )
