-- ===== src/TestRunner/Json.antt =====
-- jsontests.cc: results of queries as JSON. The library nlohmann::json is a parameter.
use sqlitewrite.Base.{ℕ, Bool, true, false, Option, none, some, [], ◌∷◌, eqb, ◌==◌}
use sqlitewrite.Base.Exec.{Exec, json_exception, pure, raise, ◌>>=◌, ◌>>◌}
use sqlitewrite.Text.{Text, codes, text_eq}
use sqlitewrite.Value.{Var}
use sqlitewrite.MiniSqlite.Lifetime.{Flag}
use sqlitewrite.SqliteWriter.Lifetime.{construct}
use sqlitewrite.JsonHelper.Json.{Json}
use sqlitewrite.JsonHelper.Pack.{pack_results_json}
use sqlitewrite.TestRunner.Scene.{World, Scene, check, require, remove_file, with_writer}
use sqlitewrite.TestRunner.Access.{int, str, has_size, double_is, add, query_typed}

module _ (world : World) (j : Json) where
  open j use {Value}

  abbrev pub or_json_exception : {A : Type 0} → Option A → Exec Scene A
  or_json_exception none = raise json_exception
  or_json_exception (some v) = pure v

  -- `js[i][name]`
  unfoldable pub json_at : Value → ℕ → Text → Exec Scene Value
  json_at js i name = do o ← or_json_exception (j.index js i); or_json_exception (j.member o name)

  -- `js[i].count(name) == n`
  unfoldable pub count_is : Value → ℕ → Text → ℕ → Exec Scene Bool
  count_is js i name n = do o ← or_json_exception (j.index js i); pure (eqb (j.count o name) n)

  -- `js.size() == n`
  unfoldable pub json_has_size : Value → ℕ → Exec Scene Bool
  json_has_size js n = pure (eqb (j.size js) n)

  -- `TEST_CASE("basic json test")`
  unfoldable pub basic_json_test : Exec Scene (Unit {0})
  unfolding json_at
  basic_json_test = do
    remove_file (codes "testrunner-example.sqlite3")
    with_writer world Flag.no_flag
        (λ e. construct e (codes "testrunner-example.sqlite3") [] Flag.no_flag)
        (do
          add world ((codes "pief", int 1) ∷ [])
          add world ((codes "paf", Var.double 4622945017495814144) ∷ [])
          add world ((codes "user", str (codes "ahu")) ∷ (codes "paf", int 14) ∷ [])
          add world (
              (codes "user", str (codes "jhu"))
              ∷ (codes "paf", Var.double 4624200395891943670)
              ∷ (codes "pief", int 99)
              ∷ []))
    with_writer world Flag.no_flag
        (λ e. construct e (codes "testrunner-example.sqlite3") [] Flag.no_flag)
        (do
          res ← query_typed world (codes "select * from data") [] 0
          let js = pack_results_json j true res
          check (json_at js 0 (codes "pief") >>= λ v. pure (j.equals_int v 1))
          check (json_at js 1 (codes "paf") >>= λ v. pure (j.equals_double v 4622945017495814144))
          check (json_at js 2 (codes "user") >>= λ v. pure (j.equals_string v (codes "ahu")))
          check (has_size res 4)
          sums ← query_typed world (codes "select 1.0*sum(pief) as p from data") [] 0
          let js' = pack_results_json j true sums
          check (json_at js' 0 (codes "p") >>= λ v. pure (j.equals_double v 4636737291354636288))
          check (double_is sums 0 (codes "p") 4636737291354636288)
          remove_file (codes "testrunner-example.sqlite3"))

  -- `TEST_CASE("json helper")`
  unfoldable pub json_helper_test : Exec Scene (Unit {0})
  unfolding json_at count_is json_has_size
  json_helper_test =
      with_writer world Flag.no_flag (λ e. construct e [] [] Flag.no_flag)
        (do
          add world ((codes "id", int 1) ∷ (codes "user", str (codes "ahu")) ∷ [])
          add world ((codes "id", int 2) ∷ [])
          res ← query_typed world (codes "select * from data") [] 0
          require (has_size res 2)
          let js = pack_results_json j false res
          require (json_has_size js 2)
          check (count_is js 0 (codes "user") 1)
          check (count_is js 1 (codes "user") 0)
          let js' = pack_results_json j true res
          require (json_has_size js' 2)
          check (count_is js' 0 (codes "user") 1)
          check (count_is js' 1 (codes "user") 1)
          v ← json_at js' 1 (codes "user")
          user ← or_json_exception (j.text v)
          check (pure (user == [])))
