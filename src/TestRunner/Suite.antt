-- ===== src/TestRunner/Suite.antt =====
-- All test cases of testrunner.cc and jsontests.cc.
use sqlitewrite.Base.{ℕ, Option, some, none}
use sqlitewrite.Base.Exec.{
  Exec, json_exception, Result, ok, err, runtime_error, bad_variant_access, out_of_range,
  assertion_failed, terminated, undefined,
}
use sqlitewrite.Base.Lists.{All}
use sqlitewrite.Text.{Text}
use sqlitewrite.JsonHelper.Json.{Json}
use sqlitewrite.TestRunner.Scene.{World, Scene}
use sqlitewrite.TestRunner.Basic.{
  basic_test, other_table_test, add_columns_test, multiple_tables_test,
}
use sqlitewrite.TestRunner.Queries.{queries_test, queries_typed_test}
use sqlitewrite.TestRunner.Meta.{meta_test, meta_other_table_test}
use sqlitewrite.TestRunner.Values.{bit8_string_test, blob_test, empty_test, vector_test}
use sqlitewrite.TestRunner.Errors.{constraint_test, foreign_keys_test, replace_test, readonly_test}
use sqlitewrite.TestRunner.Scale.{scale_test, scale_no_transactions_test, timeout_test, memory_test}
use sqlitewrite.TestRunner.Json.{
  or_json_exception, json_at, count_is, basic_json_test, json_helper_test,
}
use sqlitewrite.TestRunner.Lasting.{
  IsClosed, Held, Holds, Lasts, Lasts-pure, Lasts-raise, Lasts-bind, Survives,
}
use sqlitewrite.TestRunner.Parts.{scene_rules}
use sqlitewrite.TestRunner.Kept.{
  basic_test-Lasts, other_table_test-Lasts, add_columns_test-Lasts, multiple_tables_test-Lasts,
  queries_test-Lasts, queries_typed_test-Lasts, meta_test-Lasts, meta_other_table_test-Lasts,
  bit8_string_test-Lasts, blob_test-Lasts, empty_test-Lasts, constraint_test-Lasts,
  foreign_keys_test-Lasts, replace_test-Lasts, readonly_test-Lasts, scale_test-Lasts,
  scale_no_transactions_test-Lasts, vector_test-Lasts, timeout_test-Lasts, memory_test-Lasts,
}

pub data TestCase : Type 0 where
  basic other_table add_columns multiple_tables queries queries_typed meta meta_other_table :
      TestCase
  bit8_string blob empty constraint foreign_keys replace readonly scale scale_no_transactions :
      TestCase
  vector timeout memory basic_json json_helper : TestCase

module _ (world : World) (j : Json) where
  unfoldable pub run : TestCase → Exec Scene (Unit {0})
  run TestCase.basic = basic_test world
  run TestCase.other_table = other_table_test world
  run TestCase.add_columns = add_columns_test world
  run TestCase.multiple_tables = multiple_tables_test world
  run TestCase.queries = queries_test world
  run TestCase.queries_typed = queries_typed_test world
  run TestCase.meta = meta_test world
  run TestCase.meta_other_table = meta_other_table_test world
  run TestCase.bit8_string = bit8_string_test world
  run TestCase.blob = blob_test world
  run TestCase.empty = empty_test world
  run TestCase.constraint = constraint_test world
  run TestCase.foreign_keys = foreign_keys_test world
  run TestCase.replace = replace_test world
  run TestCase.readonly = readonly_test world
  run TestCase.scale = scale_test world
  run TestCase.scale_no_transactions = scale_no_transactions_test world
  run TestCase.vector = vector_test world
  run TestCase.timeout = timeout_test world
  run TestCase.memory = memory_test world
  run TestCase.basic_json = basic_json_test world j
  run TestCase.json_helper = json_helper_test world j

  or_json_exception-Lasts :
      {A : Type 0} {h : Held} (o : Option A) → Lasts h (or_json_exception world j o)
  or_json_exception-Lasts none = Lasts-raise json_exception
  or_json_exception-Lasts (some v) = Lasts-pure v

  json_at-Lasts :
      {h : Held} (js : j.Value) (i : ℕ) (name : Text) → Lasts h (json_at world j js i name)
  unfolding json_at
  json_at-Lasts js i name = Lasts-bind (or_json_exception-Lasts _) (λ o. or_json_exception-Lasts _)

  count_is-Lasts :
      {h : Held} (js : j.Value) (i : ℕ) (name : Text) (n : ℕ)
      → Lasts h (count_is world j js i name n)
  unfolding count_is
  count_is-Lasts js i name n = Lasts-bind (or_json_exception-Lasts _) (λ o. Lasts-pure _)

  basic_json_test-Lasts : Lasts Held.nothing (basic_json_test world j)
  unfolding basic_json_test
  basic_json_test-Lasts = search (scene_rules, json_at-Lasts) depth 99

  json_helper_test-Lasts : Lasts Held.nothing (json_helper_test world j)
  unfolding json_helper_test
  json_helper_test-Lasts =
      search (scene_rules, json_at-Lasts, count_is-Lasts, or_json_exception-Lasts) depth 99

  run-Lasts : (t : TestCase) → Lasts Held.nothing (run t)
  unfolding run
  run-Lasts TestCase.basic = basic_test-Lasts world
  run-Lasts TestCase.other_table = other_table_test-Lasts world
  run-Lasts TestCase.add_columns = add_columns_test-Lasts world
  run-Lasts TestCase.multiple_tables = multiple_tables_test-Lasts world
  run-Lasts TestCase.queries = queries_test-Lasts world
  run-Lasts TestCase.queries_typed = queries_typed_test-Lasts world
  run-Lasts TestCase.meta = meta_test-Lasts world
  run-Lasts TestCase.meta_other_table = meta_other_table_test-Lasts world
  run-Lasts TestCase.bit8_string = bit8_string_test-Lasts world
  run-Lasts TestCase.blob = blob_test-Lasts world
  run-Lasts TestCase.empty = empty_test-Lasts world
  run-Lasts TestCase.constraint = constraint_test-Lasts world
  run-Lasts TestCase.foreign_keys = foreign_keys_test-Lasts world
  run-Lasts TestCase.replace = replace_test-Lasts world
  run-Lasts TestCase.readonly = readonly_test-Lasts world
  run-Lasts TestCase.scale = scale_test-Lasts world
  run-Lasts TestCase.scale_no_transactions = scale_no_transactions_test-Lasts world
  run-Lasts TestCase.vector = vector_test-Lasts world
  run-Lasts TestCase.timeout = timeout_test-Lasts world
  run-Lasts TestCase.memory = memory_test-Lasts world
  run-Lasts TestCase.basic_json = basic_json_test-Lasts
  run-Lasts TestCase.json_helper = json_helper_test-Lasts

  only-IsClosed :
      (r : Result (Unit {0})) (s : Scene)
      → Survives (Holds Held.nothing) (r, s)
      → Survives (λ s. All IsClosed s.events) (r, s)
  only-IsClosed (ok a) s p = p.closed
  only-IsClosed (err (runtime_error what)) s p = p.closed
  only-IsClosed (err bad_variant_access) s p = p.closed
  only-IsClosed (err out_of_range) s p = p.closed
  only-IsClosed (err json_exception) s p = p.closed
  only-IsClosed (err assertion_failed) s p = p.closed
  only-IsClosed (err undefined) s p = p.closed
  only-IsClosed (err terminated) s p = tt

  -- A test case, however its assertions and calls end and whatever SQLite answers, leaves no transaction
  -- open: unless an exception of a commit thread or of a destructor ends the process, the transaction
  -- statements of every connection that it has opened came in turn and are committed, if those
  -- of the connections before it were.
  pub run-IsClosed :
      (t : TestCase) (s : Scene)
      → All IsClosed s.events
      → Survives (λ s. All IsClosed s.events) (run t s)
  run-IsClosed t s p = only-IsClosed _ _ ((run-Lasts t).at s (record { closed = p; has = tt }))
