-- ===== src/SqliteWriter/Lifetime.antt =====
-- The constructors and the destructor of `SQLiteWriter`, and its commit thread.
use sqlitewrite.Base.{ℕ, zero, suc, ◌+◌, ◌%◌, Bool, true, false, ◌&&◌, [], ◌∷◌, eqb, if◌then◌else◌}
use sqlitewrite.Base.Exec.{ok, err, Exec, pure, modify, gets, ◌>>=◌, ◌>>◌, Result}
use sqlitewrite.Text.{Text, codes}
use sqlitewrite.Text.Dict.{Dict}
use sqlitewrite.Sqlite.{Engine}
use sqlitewrite.MiniSqlite.Db.{new_db, exec}
use sqlitewrite.MiniSqlite.Lifetime.{Flag, begin, cycle, open_db, destroy_db}
use sqlitewrite.SqliteWriter.Writer.{Writer, on_db}

-- The members before the body of the constructor runs.
abbrev pub new_writer : Flag → Writer
new_writer flag = record {
  db = new_db;
  flag = flag;
  columns = [];
  lastsig = [];
  lastreplace = [];
  meta = [];
  please_quit = false;
  thread = false;
}

module _ (e : Engine) where
  unfoldable pub start_batching : Flag → Exec Writer (Unit {0})
  start_batching Flag.no_flag = on_db (begin e) >> modify (λ w. record w { thread = true })
  start_batching Flag.read_only = pure tt
  start_batching Flag.no_transactions = pure tt

  -- The body of the constructor.
  unfoldable pub constructor_body : Dict (Dict Text) → Flag → Exec Writer (Unit {0})
  unfolding start_batching
  constructor_body meta flag = do
    _ ← on_db (exec e (codes "PRAGMA journal_mode='wal'"))
    start_batching flag
    modify (λ w. record w { meta = meta })

  -- Where the body throws, the members that are there are destroyed.
  unfoldable pub unwound : Result (Unit {0}) → Writer → Result (Unit {0}) × Writer
  unwound (ok u) w = (ok u, w)
  unwound (err x) w = (err x, (on_db (destroy_db e) w).1)

  unfoldable pub unwind : Exec Writer (Unit {0}) → Exec Writer (Unit {0})
  unfolding unwound
  unwind m w = let (r, w') = m w in unwound r w'

  -- The constructor from a file name, the metadata and a flag, run on `new_writer flag`.
  unfoldable pub construct : Text → Dict (Dict Text) → Flag → Exec Writer (Unit {0})
  unfolding constructor_body unwind
  construct fname meta flag = do on_db (open_db e fname flag); unwind (constructor_body meta flag)

  -- The constructor from the metadata of the table `data`.
  unfoldable pub construct_data : Text → Dict Text → Exec Writer (Unit {0})
  construct_data fname meta = construct fname ((codes "data", meta) ∷ []) Flag.no_flag

  -- The constructor from a flag; its metadata `{{{}}}` is one table, without a name or entries.
  unfoldable pub construct_flag : Text → Flag → Exec Writer (Unit {0})
  construct_flag fname flag = construct fname (([], []) ∷ []) flag

  -- One round of the commit thread, after it has slept for 50 ms.
  unfoldable pub thread_round : ℕ → Exec Writer (Unit {0})
  thread_round n = if eqb (n % 20) 0 then on_db (cycle e) else pure tt

  -- The rounds until `d_pleasequit` is seen, from round `n`.
  unfoldable pub commit_thread : ℕ → ℕ → Exec Writer (Unit {0})
  commit_thread zero n = pure tt
  commit_thread (suc rounds) n = thread_round n >> commit_thread rounds (n + 1)

  -- The destructor, with the round `n` that the thread ends with before it can be joined, if it is
  -- in one.
  unfoldable pub destroy : Bool → ℕ → Exec Writer (Unit {0})
  destroy in_round n = do
    modify (λ w. record w { please_quit = true })
    running ← gets (λ w. w.thread)
    if running && in_round then thread_round n else pure tt
    modify (λ w. record w { thread = false })
    on_db (destroy_db e)
