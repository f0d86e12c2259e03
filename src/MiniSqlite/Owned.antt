-- ===== src/MiniSqlite/Owned.antt =====
-- A connection owns the prepared statements that are alive: `d_stmts` holds each of them once.
pub mod Prepared
pub mod Opened
pub mod Closed
use sqlitewrite.Base.Exec.{gets}
use sqlitewrite.MiniSqlite.Statement.{exec_prep, bind_prep, check_bind, Arg, binding}
use sqlitewrite.Base.{
  ℕ, ◌+◌, ◌<◌, ◌≡◌, Option, none, some, List, [], ◌∷◌, ◌++◌, eqb, if◌then◌else◌, arith, refl, ◌∙◌,
  ap, Bool,
}
use sqlitewrite.Base.Hoare.{
  Ensures, Keeps, ensures_bind, ensures_gets, ensures_modify, ensures_weaken, Keeps-bind,
  keeps_rules, Keeps-gets,
}
use sqlitewrite.Text.{Text, text_eq}
use sqlitewrite.Text.Dict.{Dict, at, lookup, insert}
use sqlitewrite.Sqlite.{Stmt, Call, History, Engine, PrepareReply}
use sqlitewrite.MiniSqlite.Db.{Db, stmt_of, send, ask, exec, new_db}
use sqlitewrite.MiniSqlite.Alive.{
  count, remove, used, given_out, after_call, alive, alive-append, count-remove, no_count,
}
use sqlitewrite.MiniSqlite.Frame.{
  IsFramedFor, AllowsUse, AllowsTimer, send-Keeps, ask-Keeps, exec-Keeps, deadline_start-Keeps,
  Keeps-finally, step_loop-Keeps, after_loop-Keeps, deadline_stop-Keeps,
}

abbrev pub one_if : ℕ → Option Stmt → ℕ
one_if a none = 0
one_if a (some s) = if eqb a s.address then 1 else 0

-- How many entries point to the statement at this address.
abbrev pub held : ℕ → Dict (Option Stmt) → ℕ
held a [] = 0
held a ((table, p) ∷ m) = one_if a p + held a m

pub held-insert :
    (a : ℕ) (table : Text) (p : Option Stmt) (m : Dict (Option Stmt))
    → held a (insert table p m) + one_if a (at none table m) ≡ held a m + one_if a p
unfolding insert at lookup
held-insert a table p [] = omega arith
held-insert a table p ((t, q) ∷ m) = ground (arith, held-insert a table p m)

pub held_at :
    (table : Text) (s : Stmt) (m : Dict (Option Stmt))
    → at none table m ≡ some s
    → 0 < held s.address m
unfolding at lookup
held_at table s [] h = cc
held_at table s ((t, q) ∷ m) h = ground (arith, held_at table s m)

module _ (e : Engine) where
  -- The statements alive are those in `d_stmts`, each as often as there.
  pub record Owns (db : Db) : Type 0 where
    pub live : List ℕ
    pub sound : alive e db.calls ≡ some live
    pub same : (a : ℕ) → count a live ≡ held a db.stmts

  -- A call that is in order wherever the statement it is given is alive, and changes nothing.
  abbrev pub IsSafe : Option Stmt → Call → Type 0
  IsSafe p c =
      (h : History) (live : List ℕ)
      → ((s : Stmt) → p ≡ some s → 0 < count s.address live)
      → after_call e h c live ≡ some live

  -- `p` may be used: it is null, or in `d_stmts`.
  pub record OwnsUse (p : Option Stmt) (db : Db) : Type 0 where
    pub owns : Owns db
    pub usable : (s : Stmt) → p ≡ some s → 0 < held s.address db.stmts

  pub moved :
      {p : Option Stmt} {db db' : Db}
      → OwnsUse p db
      → db'.calls ≡ db.calls
      → db'.stmts ≡ db.stmts
      → OwnsUse p db'
  moved o calls stmts = record {
    owns = record {
      live = o.owns.live;
      sound = rw calls o.owns.sound;
      same = λ a. rw stmts (o.owns.same a);
    };
    usable = λ s k. rw stmts (o.usable s k);
  }

  pub OwnsUse-framed : (p : Option Stmt) → IsFramedFor (IsSafe p) (OwnsUse p)
  OwnsUse-framed p = record {
    on_call = λ c db safe o. record {
      owns = record {
        live = o.owns.live;
        sound =
            alive-append e db.calls c o.owns.live o.owns.sound
            ∙ safe db.calls o.owns.live (λ s k. rw (o.owns.same s.address) (o.usable s k));
        same = o.owns.same;
      };
      usable = o.usable;
    };
    on_rows = λ rows db o. moved o refl refl;
    on_counters = λ a b c d db o. moved o refl refl;
  }

  -- No statement is in use.
  abbrev pub OwnsAll : Db → Type 0
  OwnsAll = OwnsUse none

  pub no_use : {p : Option Stmt} {db : Db} → OwnsUse p db → OwnsAll db
  no_use o = record { owns = o.owns; usable = λ s k. cc }

  pub new_db-OwnsAll : OwnsAll new_db
  new_db-OwnsAll = record {
    owns = record { live = []; sound = refl; same = λ a. refl };
    usable = λ s k. cc;
  }

  used_safe :
      (p : Option Stmt) (live : List ℕ)
      → ((s : Stmt) → p ≡ some s → 0 < count s.address live)
      → used p live ≡ some live
  used_safe none live k = refl
  used_safe (some s) live k = ground (arith, k s refl)

  use_allowed : (p : Option Stmt) → AllowsUse (IsSafe p) p
  use_allowed p = record {
    step = λ h live k. used_safe p live k;
    reset = λ h live k. used_safe p live k;
    clear_bindings = λ h live k. used_safe p live k;
    stmt_status = λ status h live k. used_safe p live k;
    bind = λ n value h live k. used_safe p live k;
  }

  timer_allowed : (p : Option Stmt) → AllowsTimer (IsSafe p)
  timer_allowed p = record {
    progress_handler = λ t h live k. refl;
    remove_progress_handler = λ h live k. refl;
  }

  pub exec-OwnsAll : (sql : Text) → Keeps OwnsAll (exec e sql)
  exec-OwnsAll sql = exec-Keeps OwnsAll (OwnsUse-framed none) e sql (λ h live k. refl)

  -- The statement of a table may be used.
  stmt_of-OwnsUse :
      (table : Text) {E : Db → Type 0} → Ensures OwnsAll (gets (stmt_of table)) (λ p. OwnsUse p) E
  unfolding stmt_of
  stmt_of-OwnsUse table =
      ensures_gets _ (λ db o. record { owns = o.owns; usable = λ s k. held_at table s db.stmts k })

  pub bind_prep-OwnsAll : (table : Text) (n : ℕ) (v : Arg) → Keeps OwnsAll (bind_prep e table n v)
  unfolding bind_prep check_bind
  bind_prep-OwnsAll table n v = ensures_bind (stmt_of-OwnsUse table) λ p.
      ensures_weaken (λ db o. o) (λ a db o. no_use o) (λ db o. no_use o)
        (Keeps-bind
          (ask-Keeps (OwnsUse p) (OwnsUse-framed p) _ _ ((use_allowed p).bind n (binding v)))
          (λ rc. search keeps_rules))

  pub exec_prep-OwnsAll :
      (table : Text) (collect : Bool) (msec : ℕ) → Keeps OwnsAll (exec_prep e table collect msec)
  unfolding exec_prep
  exec_prep-OwnsAll table collect msec =
      Keeps-bind (deadline_start-Keeps OwnsAll (OwnsUse-framed none) (timer_allowed none) e msec)
        λ _.
          Keeps-finally
            (ensures_bind (stmt_of-OwnsUse table) λ p.
              ensures_weaken (λ db o. o) (λ a db o. no_use o) (λ db o. no_use o)
                (Keeps-bind (Keeps-gets _) λ replies.
                  Keeps-bind
                    (step_loop-Keeps (OwnsUse p) (OwnsUse-framed p) e p (use_allowed p) collect
                      replies [])
                    (λ rows.
                      after_loop-Keeps (OwnsUse p) (OwnsUse-framed p) e p (use_allowed p) rows)))
            (deadline_stop-Keeps OwnsAll (OwnsUse-framed none) (timer_allowed none) msec)
