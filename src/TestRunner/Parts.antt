-- ===== src/TestRunner/Parts.antt =====
-- The parts of which the test cases are made keep what the scene holds.
use sqlitewrite.TestRunner.OpenMini.{ms-Lasts, with_mini-Lasts}
use sqlitewrite.TestRunner.OpenWriter.{
  with_writer-Lasts, sqw-Lasts, construct-Opens, construct_data-Opens, construct_flag-Opens,
}
use sqlitewrite.Base.{ℕ, true, false, Option, some, none, List, [], ◌∷◌, refl}
use sqlitewrite.Base.Exec.{Exec, bad_variant_access, undefined, out_of_range}
use sqlitewrite.Base.Hoare.{Keeps-bind, Keeps-pure}
use sqlitewrite.Text.{Text}
use sqlitewrite.Text.Dict.{Dict}
use sqlitewrite.Value.{Var, OutVar}
use sqlitewrite.Sqlite.{Call}
use sqlitewrite.MiniSqlite.Words.{IsQuiet}
use sqlitewrite.MiniSqlite.Frame.{exec-Keeps}
use sqlitewrite.MiniSqlite.Lifetime.{Flag}
use sqlitewrite.MiniSqlite.Statement.{Row}
use sqlitewrite.SqliteWriter.Insert.{Values, add_value, add_or_replace_value}
use sqlitewrite.SqliteWriter.Query.{query_t}
use sqlitewrite.SqliteWriter.Query
use sqlitewrite.SqliteWriter.Turn.{InTurn, InTurn-framed}
use sqlitewrite.SqliteWriter.Steady.{add_value_generic-Keeps, query_gen-Keeps}
use sqlitewrite.SqliteWriter.Program.Batched.{IsBatched-steady}
use sqlitewrite.TestRunner.Scene.{
  World, Scene, is_exception, is_runtime_error, require_throws, require_throws_as,
}
use sqlitewrite.TestRunner.Access.{
  there, there_at, nth, cell_is, text_is, out_at, get_int64, get_double, get_string, get_blob,
  get_null, int_is, double_is, string_is, blob_is, null_is, bytes_are, string_at_is, add, add_to,
  replace_in, query, query_typed, exec,
}
use sqlitewrite.TestRunner.Lasting.{
  Held, Lasts, Lasts-pure, Lasts-raise, Lasts-bind, Lasts-if, check-Lasts, require-Lasts,
  require_throws_as-Lasts, remove_file-Lasts, cleanup-Lasts,
}

module _ {h : Held} where
  pub there-Lasts : {A : Type 0} (o : Option A) → Lasts h (there o)
  there-Lasts none = Lasts-raise undefined
  there-Lasts (some a) = Lasts-pure a

  pub there_at-Lasts : {A : Type 0} (o : Option A) → Lasts h (there_at o)
  there_at-Lasts none = Lasts-raise out_of_range
  there_at-Lasts (some a) = Lasts-pure a

  pub nth-Lasts : {A : Type 0} (res : List A) (i : ℕ) → Lasts h (nth res i)
  unfolding nth
  nth-Lasts res i = there-Lasts _

  pub get_int64-Lasts : (v : OutVar) → Lasts h (get_int64 v)
  get_int64-Lasts (OutVar.int64 z) = Lasts-pure z
  get_int64-Lasts (OutVar.double d) = Lasts-raise bad_variant_access
  get_int64-Lasts (OutVar.string s) = Lasts-raise bad_variant_access
  get_int64-Lasts (OutVar.blob b) = Lasts-raise bad_variant_access
  get_int64-Lasts OutVar.null = Lasts-raise bad_variant_access

  pub get_double-Lasts : (v : OutVar) → Lasts h (get_double v)
  get_double-Lasts (OutVar.double d) = Lasts-pure d
  get_double-Lasts (OutVar.int64 z) = Lasts-raise bad_variant_access
  get_double-Lasts (OutVar.string s) = Lasts-raise bad_variant_access
  get_double-Lasts (OutVar.blob b) = Lasts-raise bad_variant_access
  get_double-Lasts OutVar.null = Lasts-raise bad_variant_access

  pub get_string-Lasts : (v : OutVar) → Lasts h (get_string v)
  get_string-Lasts (OutVar.string s) = Lasts-pure s
  get_string-Lasts (OutVar.double d) = Lasts-raise bad_variant_access
  get_string-Lasts (OutVar.int64 z) = Lasts-raise bad_variant_access
  get_string-Lasts (OutVar.blob b) = Lasts-raise bad_variant_access
  get_string-Lasts OutVar.null = Lasts-raise bad_variant_access

  pub get_blob-Lasts : (v : OutVar) → Lasts h (get_blob v)
  get_blob-Lasts (OutVar.blob b) = Lasts-pure b
  get_blob-Lasts (OutVar.double d) = Lasts-raise bad_variant_access
  get_blob-Lasts (OutVar.int64 z) = Lasts-raise bad_variant_access
  get_blob-Lasts (OutVar.string s) = Lasts-raise bad_variant_access
  get_blob-Lasts OutVar.null = Lasts-raise bad_variant_access

  pub get_null-Lasts : (v : OutVar) → Lasts h (get_null v)
  get_null-Lasts OutVar.null = Lasts-pure tt
  get_null-Lasts (OutVar.double d) = Lasts-raise bad_variant_access
  get_null-Lasts (OutVar.int64 z) = Lasts-raise bad_variant_access
  get_null-Lasts (OutVar.string s) = Lasts-raise bad_variant_access
  get_null-Lasts (OutVar.blob b) = Lasts-raise bad_variant_access

  pub out_at-Lasts : (res : List Row) (i : ℕ) (name : Text) → Lasts h (out_at res i name)
  unfolding out_at
  out_at-Lasts res i name = Lasts-bind (nth-Lasts res i) (λ r. Lasts-pure _)

ruleset part_rules = (
  Lasts-pure, Lasts-bind, nth-Lasts, there_at-Lasts, out_at-Lasts, get_int64-Lasts,
  get_double-Lasts, get_string-Lasts, get_blob-Lasts, get_null-Lasts,
)

module _ {h : Held} where
  pub cell_is-Lasts : (res : List (List Text)) (i j : ℕ) (s : Text) → Lasts h (cell_is res i j s)
  unfolding cell_is
  cell_is-Lasts res i j s = search part_rules

  pub text_is-Lasts :
      (res : List (Dict Text)) (i : ℕ) (name s : Text) → Lasts h (text_is res i name s)
  unfolding text_is
  text_is-Lasts res i name s = search part_rules

  pub int_is-Lasts : (res : List Row) (i : ℕ) (name : Text) (n : ℕ) → Lasts h (int_is res i name n)
  unfolding int_is
  int_is-Lasts res i name n = search part_rules

  pub double_is-Lasts :
      (res : List Row) (i : ℕ) (name : Text) (d : ℕ) → Lasts h (double_is res i name d)
  unfolding double_is
  double_is-Lasts res i name d = search part_rules

  pub string_is-Lasts : (res : List Row) (i : ℕ) (name s : Text) → Lasts h (string_is res i name s)
  unfolding string_is
  string_is-Lasts res i name s = search part_rules

  pub blob_is-Lasts :
      (res : List Row) (i : ℕ) (name : Text) (b : List ℕ) → Lasts h (blob_is res i name b)
  unfolding blob_is
  blob_is-Lasts res i name b = search part_rules

  pub null_is-Lasts : (res : List Row) (i : ℕ) (name : Text) → Lasts h (null_is res i name)
  unfolding null_is
  null_is-Lasts res i name = search part_rules

  pub bytes_are-Lasts : (bytes : List ℕ) (s : Text) → Lasts h (bytes_are bytes s)
  unfolding bytes_are
  bytes_are-Lasts [] s = Lasts-raise out_of_range
  bytes_are-Lasts (b ∷ bs) s = Lasts-pure _

  pub string_at_is-Lasts :
      (res : List Row) (i : ℕ) (name s : Text) → Lasts h (string_at_is res i name s)
  unfolding string_at_is
  string_at_is-Lasts res i name s = search part_rules

  pub require_throws-Lasts :
      {A : Type 0} {m : Exec Scene A} → Lasts h m → Lasts h (require_throws m)
  require_throws-Lasts p = require_throws_as-Lasts is_exception refl p

  pub require_runtime_error-Lasts :
      {A : Type 0} {m : Exec Scene A} → Lasts h m → Lasts h (require_throws_as is_runtime_error m)
  require_runtime_error-Lasts p = require_throws_as-Lasts is_runtime_error refl p

module _ (world : World) {flag : Flag} where
  pub add-Lasts : (values : Values) → Lasts (Held.writer flag) (add world values)
  unfolding add add_value
  add-Lasts values =
      sqw-Lasts world flag (λ e. add_value_generic-Keeps _ (IsBatched-steady flag) e _ values false)

  pub add_to-Lasts :
      (table : Text) (values : Values) → Lasts (Held.writer flag) (add_to world table values)
  unfolding add_to add_value
  add_to-Lasts table values =
      sqw-Lasts world flag
        (λ e. add_value_generic-Keeps _ (IsBatched-steady flag) e table values false)

  pub replace_in-Lasts :
      (table : Text) (values : Values) → Lasts (Held.writer flag) (replace_in world table values)
  unfolding replace_in add_or_replace_value
  replace_in-Lasts table values =
      sqw-Lasts world flag
        (λ e. add_value_generic-Keeps _ (IsBatched-steady flag) e table values true)

  pub query_typed-Lasts :
      (q : Text) (values : List Var) (msec : ℕ)
      → Lasts (Held.writer flag) (query_typed world q values msec)
  unfolding query_typed query_t
  query_typed-Lasts q values msec =
      sqw-Lasts world flag (λ e. query_gen-Keeps _ (IsBatched-steady flag) e q values msec)

  pub query-Lasts : (q : Text) (values : List Var) → Lasts (Held.writer flag) (query world q values)
  unfolding query Query.query
  query-Lasts q values = sqw-Lasts world flag (λ e.
      Keeps-bind (query_gen-Keeps _ (IsBatched-steady flag) e q values 0) (λ res. Keeps-pure _))

-- A text that is no transaction statement.
pub exec-Lasts : (world : World) (q : Text) → IsQuiet (Call.exec q) → Lasts Held.mini (exec world q)
unfolding exec
exec-Lasts world q quiet =
    ms-Lasts world (λ e. exec-Keeps (InTurn false) (InTurn-framed false) e q quiet)

pub ruleset scene_rules = (
  Lasts-pure, Lasts-bind, out_at-Lasts, get_int64-Lasts, get_blob-Lasts, cell_is-Lasts,
  text_is-Lasts, int_is-Lasts, double_is-Lasts, string_is-Lasts, blob_is-Lasts, null_is-Lasts,
  bytes_are-Lasts, string_at_is-Lasts, require_throws-Lasts, require_runtime_error-Lasts,
  check-Lasts, require-Lasts, remove_file-Lasts, cleanup-Lasts, add-Lasts, add_to-Lasts,
  replace_in-Lasts, query_typed-Lasts, query-Lasts, exec-Lasts, with_writer-Lasts, with_mini-Lasts,
  construct-Opens, construct_data-Opens, construct_flag-Opens,
)
