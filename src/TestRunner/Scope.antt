-- ===== src/TestRunner/Scope.antt =====
-- What a scope keeps, in which an object is open.
use sqlitewrite.Base.{◌≡◌, false, some}
use sqlitewrite.Base.Exec.{
  Exec, Result, assertion_failed, bad_variant_access, continue, err, json_exception, ok,
  out_of_range, runtime_error, terminated, undefined, ◌>>=◌, ◌>>◌,
}
use sqlitewrite.Base.Lists.{All}
use sqlitewrite.Sqlite.{History}
use sqlitewrite.MiniSqlite.Words.{transaction_after}
use sqlitewrite.TestRunner.Scene.{Event, Scene, scoped, scope_result, leave}
use sqlitewrite.TestRunner.Lasting.{IsClosed, Held, Holds, Survives, Lasts, survives, All-snoc}

pub left :
    (calls : History) (s : Scene)
    → All IsClosed s.events
    → transaction_after (some false) calls ≡ some false
    → Holds Held.nothing (leave calls s)
left calls s p q = record { closed = All-snoc s.events (Event.connection calls) p q; has = tt }

-- A scope is open: unless its object has been opened, nothing is.
abbrev pub Opened : Held → Result (Unit {0}) × Scene → Type 0
Opened h (ok u, s) = Holds h s
Opened h (err x, s) = Holds Held.nothing s

-- At the end of the scope the object is gone.
abbrev pub Closes : Result (Unit {0}) × Scene → Type 0
Closes (ok u, s) = Holds Held.nothing s
Closes (err x, s) = Unit

scope_ends :
    {A : Type 0} (r : Result A) (c : Result (Unit {0})) (s : Scene)
    → Closes (c, s)
    → Survives (Holds Held.nothing) (scope_result r c, s)
scope_ends r (ok u) s h = survives (Holds Held.nothing) r s h
scope_ends r (err x) s h = tt

process_ends :
    (A : Type 0) (c : Result (Unit {0})) (s : Scene)
    → Survives {A = A} (Holds Held.nothing) (scope_result (err terminated) c, s)
process_ends A (ok u) s = tt
process_ends A (err x) s = tt

module _ {A : Type 0} (h : Held) (close : Exec Scene (Unit {0}))
    (closes : (s : Scene) → Holds h s → Closes (close s)) where
  after_body :
      (r : Result A) (s : Scene)
      → Survives (Holds h) (r, s)
      → Survives (Holds Held.nothing) (scope_result r (close s).0, (close s).1)
  after_body (ok a) s p = scope_ends (ok a) _ _ (closes s p)
  after_body (err (runtime_error what)) s p = scope_ends (err (runtime_error what)) _ _ (closes s p)
  after_body (err bad_variant_access) s p = scope_ends (err bad_variant_access) _ _ (closes s p)
  after_body (err out_of_range) s p = scope_ends (err out_of_range) _ _ (closes s p)
  after_body (err json_exception) s p = scope_ends (err json_exception) _ _ (closes s p)
  after_body (err assertion_failed) s p = scope_ends (err assertion_failed) _ _ (closes s p)
  after_body (err undefined) s p = scope_ends (err undefined) _ _ (closes s p)
  after_body (err terminated) s p = process_ends A (close s).0 (close s).1

  -- A scope, from the opening of its object on.
  pub scope-Lasts :
      (open_ : Exec Scene (Unit {0})) (body : Exec Scene A)
      → ((s : Scene) → Holds Held.nothing s → Opened h (open_ s))
      → Lasts h body
      → Lasts Held.nothing (open_ >> scoped body close)
  unfolding scoped ◌>>=◌
  scope-Lasts open_ body opens lasts = record {
    at = λ s p. let (r, s') = open_ s in go r s' (opens s p);
  }
    where
      go :
          (r : Result (Unit {0})) (s : Scene)
          → Opened h (r, s)
          → Survives (Holds Held.nothing) ((λ (t : Scene). continue r (λ _. scoped body close) t) s)
      go (ok u) s p = let (r, s') = body s in after_body r s' (lasts.at s p)
      go (err x) s p = survives {A = A} (Holds Held.nothing) (err x) s p
