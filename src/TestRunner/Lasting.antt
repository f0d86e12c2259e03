-- ===== src/TestRunner/Lasting.antt =====
-- What a part of a test case keeps, unless it ends the process.
use sqlitewrite.Base.{◌≡◌, Bool, true, false, some, List, [], ◌∷◌, ◌++◌, if◌then◌else◌}
use sqlitewrite.Base.Exec.{
  Error, Result, ok, err, Exec, runtime_error, bad_variant_access, out_of_range, json_exception,
  assertion_failed, terminated, undefined, pure, raise, modify, continue, ◌>>=◌, ◌>>◌,
}
use sqlitewrite.Base.Lists.{All}
use sqlitewrite.Text.{Text}
use sqlitewrite.MiniSqlite.Words.{transaction_after}
use sqlitewrite.MiniSqlite.Lifetime.{Flag}
use sqlitewrite.SqliteWriter.Turn.{InTurn}
use sqlitewrite.SqliteWriter.Program.Batched.{IsBatched}
use sqlitewrite.TestRunner.Scene.{
  Event, Scene, record_check, checked, check, required, require, thrown, require_throws_as,
  remove_file, cleanup,
}

-- The transaction statements of a connection that has come to its end came in turn, and none is left open.
abbrev pub IsClosed : Event → Type 0
IsClosed (Event.removed fname) = Unit
IsClosed (Event.connection calls) = transaction_after (some false) calls ≡ some false

-- The object that is open.
pub data Held : Type 0 where
  nothing : Held
  writer : Flag → Held
  mini : Held

abbrev pub Has : Held → Scene → Type 0
Has Held.nothing s = Unit
Has (Held.writer flag) s = IsBatched flag s.sqw
Has Held.mini s = InTurn false s.ms

-- All connections that have come to their end are closed, and the open object is between two calls.
pub record Holds (h : Held) (s : Scene) : Type 0 where
  pub closed : All IsClosed s.events
  pub has : Has h s

-- Nothing is said of the state after the end of the process.
abbrev pub Survives : {A : Type 0} → (Scene → Type 0) → Result A × Scene → Type 0
Survives P (ok a, s) = P s
Survives P (err (runtime_error what), s) = P s
Survives P (err bad_variant_access, s) = P s
Survives P (err out_of_range, s) = P s
Survives P (err json_exception, s) = P s
Survives P (err assertion_failed, s) = P s
Survives P (err undefined, s) = P s
Survives P (err terminated, s) = Unit

pub record Lasts {A : Type 0} (h : Held) (m : Exec Scene A) : Type 0 where
  pub at : (s : Scene) → Holds h s → Survives (Holds h) (m s)

module _ {A : Type 0} (P : Scene → Type 0) where
  pub survives : (r : Result A) (s : Scene) → P s → Survives P (r, s)
  survives (ok a) s p = p
  survives (err (runtime_error what)) s p = p
  survives (err bad_variant_access) s p = p
  survives (err out_of_range) s p = p
  survives (err json_exception) s p = p
  survives (err assertion_failed) s p = p
  survives (err undefined) s p = p
  survives (err terminated) s p = tt

pub All-snoc :
    (events : List Event) (ev : Event)
    → All IsClosed events
    → IsClosed ev
    → All IsClosed (events ++ (ev ∷ []))
All-snoc [] ev p q = (q, tt)
All-snoc (e ∷ events) ev (p, ps) q = (p, All-snoc events ev ps q)

holds_event :
    (h : Held) (ev : Event) (s : Scene)
    → IsClosed ev
    → Holds h s
    → Holds h (record s { events = s.events ++ (ev ∷ []) })
holds_event Held.nothing ev s q p = record { closed = All-snoc s.events ev p.closed q; has = tt }
holds_event (Held.writer flag) ev s q p = record {
  closed = All-snoc s.events ev p.closed q;
  has = p.has;
}
holds_event Held.mini ev s q p = record { closed = All-snoc s.events ev p.closed q; has = p.has }

-- Assertions change nothing that counts.
holds_checks :
    (h : Held) (s : Scene) (checks : List Bool) → Holds h s → Holds h (record s { checks = checks })
holds_checks Held.nothing s checks p = record { closed = p.closed; has = tt }
holds_checks (Held.writer flag) s checks p = record { closed = p.closed; has = p.has }
holds_checks Held.mini s checks p = record { closed = p.closed; has = p.has }

module _ {h : Held} where
  module _ {A : Type 0} where
    pub Lasts-pure : (a : A) → Lasts h (pure a)
    unfolding pure
    Lasts-pure a = record { at = λ s p. p }

    pub Lasts-raise : (x : Error) → Lasts h (raise {A = A} x)
    unfolding raise
    Lasts-raise x = record { at = λ s p. survives {A = A} (Holds h) (err x) s p }

    pub Lasts-if :
        (b : Bool) {m n : Exec Scene A} → Lasts h m → Lasts h n → Lasts h (if b then m else n)
    Lasts-if true p q = p
    Lasts-if false p q = q

  module _ {A B : Type 0} where
    continued :
        (r : Result A) (s : Scene) (f : A → Exec Scene B)
        → Survives (Holds h) (r, s)
        → ((a : A) → Lasts h (f a))
        → Survives (Holds h) ((λ (t : Scene). (continue r f t)) s)
    continued (ok a) s f p k = (k a).at s p
    continued (err (runtime_error what)) s f p k = p
    continued (err bad_variant_access) s f p k = p
    continued (err out_of_range) s f p k = p
    continued (err json_exception) s f p k = p
    continued (err assertion_failed) s f p k = p
    continued (err undefined) s f p k = p
    continued (err terminated) s f p k = tt

    pub Lasts-bind :
        {m : Exec Scene A} {f : A → Exec Scene B}
        → Lasts h m
        → ((a : A) → Lasts h (f a))
        → Lasts h (m >>= f)
    unfolding ◌>>=◌
    Lasts-bind {m = m} {f = f} p k = record {
      at = λ s q. let (r, s') = m s in continued r s' f (p.at s q) k;
    }

  record_check-Lasts : (b : Bool) → Lasts h (record_check b)
  unfolding record_check modify
  record_check-Lasts b = record { at = λ s p. holds_checks h s _ p }

  failed-Lasts : {A : Type 0} → Lasts h (record_check false >> raise {A = A} assertion_failed)
  failed-Lasts = Lasts-bind (record_check-Lasts false) (λ _. Lasts-raise assertion_failed)

  -- A part of a test case that looks at how another part ended.
  looking :
      {A B : Type 0} (look : Result A → Exec Scene B)
      → ((a : A) → Lasts h (look (ok a)))
      → ((x : Error) → Lasts h (look (err x)))
      → ((s : Scene) → Survives (Holds h) (look (err terminated) s))
      → (r : Result A) (s : Scene) → Survives (Holds h) (r, s)
      → Survives (Holds h) (look r s)
  looking look f g t (ok a) s p = (f a).at s p
  looking look f g t (err (runtime_error what)) s p = (g (runtime_error what)).at s p
  looking look f g t (err bad_variant_access) s p = (g bad_variant_access).at s p
  looking look f g t (err out_of_range) s p = (g out_of_range).at s p
  looking look f g t (err json_exception) s p = (g json_exception).at s p
  looking look f g t (err assertion_failed) s p = (g assertion_failed).at s p
  looking look f g t (err undefined) s p = (g undefined).at s p
  looking look f g t (err terminated) s p = t s

  pub check-Lasts : {m : Exec Scene Bool} → Lasts h m → Lasts h (check m)
  unfolding check checked raise
  check-Lasts {m = m} p = record {
    at = λ s q.
        let (r, s') = m s in
        looking checked record_check-Lasts
          (λ x. Lasts-if _ (record_check-Lasts false) (Lasts-raise x)) (λ s. tt) r s' (p.at s q);
  }

  pub require-Lasts : {m : Exec Scene Bool} → Lasts h m → Lasts h (require m)
  unfolding require required raise
  require-Lasts {m = m} p = record {
    at = λ s q.
        let (r, s') = m s in
        looking required
          (λ b. Lasts-bind (record_check-Lasts b) (λ _. Lasts-if b (Lasts-pure tt) (Lasts-raise _)))
          (λ x. Lasts-if _ failed-Lasts (Lasts-raise x)) (λ s. tt) r s' (p.at s q);
  }

  pub require_throws_as-Lasts :
      {A : Type 0} {m : Exec Scene A} (catches : Error → Bool)
      → catches terminated ≡ false
      → Lasts h m
      → Lasts h (require_throws_as catches m)
  unfolding require_throws_as thrown raise
  require_throws_as-Lasts {m = m} catches e p = record {
    at = λ s q.
        let (r, s') = m s in
        looking (thrown catches) (λ a. failed-Lasts)
          (λ x. Lasts-if _ (record_check-Lasts true) (Lasts-if _ failed-Lasts (Lasts-raise x)))
          (λ s. rw e tt) r s' (p.at s q);
  }

  pub remove_file-Lasts : (fname : Text) → Lasts h (remove_file fname)
  unfolding remove_file modify
  remove_file-Lasts fname = record { at = λ s p. holds_event h (Event.removed fname) s tt p }

  pub cleanup-Lasts : Lasts h cleanup
  unfolding cleanup
  cleanup-Lasts =
      Lasts-bind (remove_file-Lasts _)
        (λ _. Lasts-bind (remove_file-Lasts _) (λ _. remove_file-Lasts _))
