-- ===== src/TestRunner/Kept.antt =====
-- Every test case keeps what the scene holds.
use sqlitewrite.TestRunner.OpenWriter.{with_writer-Lasts, construct-Opens}
use sqlitewrite.Base.{ℕ, zero, suc, ◌+◌}
use sqlitewrite.Text.{Text, codes, text_dec}
use sqlitewrite.MiniSqlite.Lifetime.{Flag}
use sqlitewrite.TestRunner.Scene.{World}
use sqlitewrite.TestRunner.Basic.{
  basic_test, other_table_test, add_columns_test, multiple_tables_test,
}
use sqlitewrite.TestRunner.Queries.{queries_test, queries_typed_test}
use sqlitewrite.TestRunner.Meta.{meta_test, meta_other_table_test}
use sqlitewrite.TestRunner.Values.{bit8_string_test, blob_test, empty_test, vector_test}
use sqlitewrite.TestRunner.Errors.{constraint_test, foreign_keys_test, replace_test, readonly_test}
use sqlitewrite.TestRunner.Scale.{
  scale_test, scale_no_transactions_test, timeout_test, memory_test, scale_loop,
}
use sqlitewrite.TestRunner.Lasting.{Held, Lasts, Lasts-pure, Lasts-bind, cleanup-Lasts}
use sqlitewrite.TestRunner.Parts.{scene_rules, add_to-Lasts}

module _ (world : World) where
  scale_loop-Lasts :
      {flag : Flag} (one two : Text) (rounds n : ℕ)
      → Lasts (Held.writer flag) (scale_loop world one two rounds n)
  unfolding scale_loop
  scale_loop-Lasts one two zero n = Lasts-pure tt
  scale_loop-Lasts one two (suc rounds) n =
      Lasts-bind (add_to-Lasts world one _)
        (λ _. Lasts-bind (add_to-Lasts world two _) (λ _. scale_loop-Lasts one two rounds (n + 1)))

  pub basic_test-Lasts : Lasts Held.nothing (basic_test world)
  unfolding basic_test codes text_dec
  basic_test-Lasts = search scene_rules depth 99

  pub other_table_test-Lasts : Lasts Held.nothing (other_table_test world)
  unfolding other_table_test codes text_dec
  other_table_test-Lasts = search scene_rules depth 99

  pub add_columns_test-Lasts : Lasts Held.nothing (add_columns_test world)
  unfolding add_columns_test codes text_dec
  add_columns_test-Lasts = search scene_rules depth 99

  pub multiple_tables_test-Lasts : Lasts Held.nothing (multiple_tables_test world)
  unfolding multiple_tables_test codes text_dec
  multiple_tables_test-Lasts = search scene_rules depth 99

  pub queries_test-Lasts : Lasts Held.nothing (queries_test world)
  unfolding queries_test codes text_dec
  queries_test-Lasts = search scene_rules depth 99

  pub queries_typed_test-Lasts : Lasts Held.nothing (queries_typed_test world)
  unfolding queries_typed_test
  queries_typed_test-Lasts = Lasts-bind cleanup-Lasts λ _.
      Lasts-bind (search scene_rules depth 99)
        λ _. with_writer-Lasts world _ _ _ (construct-Opens _ _ _) (search scene_rules depth 99)

  pub meta_test-Lasts : Lasts Held.nothing (meta_test world)
  unfolding meta_test codes text_dec
  meta_test-Lasts = search scene_rules depth 99

  pub meta_other_table_test-Lasts : Lasts Held.nothing (meta_other_table_test world)
  unfolding meta_other_table_test codes text_dec
  meta_other_table_test-Lasts = search scene_rules depth 99

  pub bit8_string_test-Lasts : Lasts Held.nothing (bit8_string_test world)
  unfolding bit8_string_test codes text_dec
  bit8_string_test-Lasts = search scene_rules depth 99

  pub blob_test-Lasts : Lasts Held.nothing (blob_test world)
  unfolding blob_test codes text_dec
  blob_test-Lasts = search scene_rules depth 99

  pub empty_test-Lasts : Lasts Held.nothing (empty_test world)
  unfolding empty_test codes text_dec
  empty_test-Lasts = search scene_rules depth 99

  pub vector_test-Lasts : Lasts Held.nothing (vector_test world)
  unfolding vector_test codes text_dec
  vector_test-Lasts = search scene_rules depth 99

  pub constraint_test-Lasts : Lasts Held.nothing (constraint_test world)
  unfolding constraint_test codes text_dec
  constraint_test-Lasts = search scene_rules depth 99

  pub foreign_keys_test-Lasts : Lasts Held.nothing (foreign_keys_test world)
  unfolding foreign_keys_test codes text_dec
  foreign_keys_test-Lasts = search scene_rules depth 99

  pub replace_test-Lasts : Lasts Held.nothing (replace_test world)
  unfolding replace_test codes text_dec
  replace_test-Lasts = search scene_rules depth 99

  pub readonly_test-Lasts : Lasts Held.nothing (readonly_test world)
  unfolding readonly_test codes text_dec
  readonly_test-Lasts = search scene_rules depth 99

  pub scale_test-Lasts : Lasts Held.nothing (scale_test world)
  unfolding scale_test codes text_dec
  scale_test-Lasts = search (scene_rules, scale_loop-Lasts) depth 99

  pub scale_no_transactions_test-Lasts : Lasts Held.nothing (scale_no_transactions_test world)
  unfolding scale_no_transactions_test codes text_dec
  scale_no_transactions_test-Lasts = search (scene_rules, scale_loop-Lasts) depth 99

  pub timeout_test-Lasts : Lasts Held.nothing (timeout_test world)
  unfolding timeout_test codes text_dec
  timeout_test-Lasts = search (scene_rules, scale_loop-Lasts) depth 99

  pub memory_test-Lasts : Lasts Held.nothing (memory_test world)
  unfolding memory_test codes text_dec
  memory_test-Lasts = search scene_rules depth 99
