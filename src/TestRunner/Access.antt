-- ===== src/TestRunner/Access.antt =====
-- How the test cases write rows and read results.
use sqlitewrite.Base.{
  ℕ, zero, suc, ◌+◌, Bool, true, false, Option, none, some, List, [], ◌∷◌, ◌==◌, eqb, suc, ◌+◌,
}
use sqlitewrite.Base.Lists.{length, get_elem?}
use sqlitewrite.Base.Int.{ℤ, pos, negsuc}
use sqlitewrite.Base.Exec.{Exec, undefined, bad_variant_access, out_of_range, pure, raise, ◌>>=◌}
use sqlitewrite.Text.{Text, codes, text_eq}
use sqlitewrite.Text.Dict.{Dict, at, lookup}
use sqlitewrite.Value.{Var, OutVar}
use sqlitewrite.MiniSqlite.Statement.{Row}
use sqlitewrite.MiniSqlite.Db.{Db}
use sqlitewrite.MiniSqlite.Db
use sqlitewrite.SqliteWriter.Insert.{Values, add_value, add_or_replace_value}
use sqlitewrite.SqliteWriter.Query
use sqlitewrite.SqliteWriter.Query.{query_t}
use sqlitewrite.TestRunner.Scene.{World, Scene, sqw, ms}

-- Values of the variant, by the type of the literal.
abbrev pub int : ℕ → Var
int n = Var.int32 (pos n)

abbrev pub str : Text → Var
str s = Var.string s

-- `res.size() == n`
abbrev pub has_size : {A : Type 0} → List A → ℕ → Exec Scene Bool
has_size res n = pure (eqb (length res) n)

abbrev pub there : {A : Type 0} → Option A → Exec Scene A
there none = raise undefined
there (some a) = pure a

-- `res[i]`, which is not checked
unfoldable pub nth : {A : Type 0} → List A → ℕ → Exec Scene A
nth res i = there (get_elem? res i)

-- `res[i][j] == s`
unfoldable pub cell_is : List (List Text) → ℕ → ℕ → Text → Exec Scene Bool
cell_is res i j s = do r ← nth res i; c ← nth r j; pure (c == s)

-- `res[i][name] == s`, where a missing name reads as an empty string
unfoldable pub text_is : List (Dict Text) → ℕ → Text → Text → Exec Scene Bool
text_is res i name s = do r ← nth res i; pure (at [] name r == s)

-- `res[i][name]`, where a missing name reads as a double of 0
unfoldable pub out_at : List Row → ℕ → Text → Exec Scene OutVar
out_at res i name = do r ← nth res i; pure (at (OutVar.double 0) name r)

-- `std::get` of a variant
abbrev pub get_int64 : OutVar → Exec Scene ℤ
get_int64 (OutVar.int64 z) = pure z
get_int64 _ = raise bad_variant_access

abbrev pub get_double : OutVar → Exec Scene ℕ
get_double (OutVar.double d) = pure d
get_double _ = raise bad_variant_access

abbrev pub get_string : OutVar → Exec Scene Text
get_string (OutVar.string s) = pure s
get_string _ = raise bad_variant_access

abbrev pub get_blob : OutVar → Exec Scene (List ℕ)
get_blob (OutVar.blob b) = pure b
get_blob _ = raise bad_variant_access

abbrev pub get_null : OutVar → Exec Scene (Unit {0})
get_null OutVar.null = pure tt
get_null _ = raise bad_variant_access

abbrev pub eqb_ℤ : ℤ → ℤ → Bool
eqb_ℤ (pos a) (pos b) = eqb a b
eqb_ℤ (negsuc a) (negsuc b) = eqb a b
eqb_ℤ _ _ = false

-- `get<int64_t>(res[i][name]) == n`, and so on. A double is compared with a number that is neither
-- zero nor a NaN, so that the bits decide.
unfoldable pub int_is : List Row → ℕ → Text → ℕ → Exec Scene Bool
int_is res i name n = do v ← out_at res i name; z ← get_int64 v; pure (eqb_ℤ z (pos n))

unfoldable pub double_is : List Row → ℕ → Text → ℕ → Exec Scene Bool
double_is res i name d = do v ← out_at res i name; x ← get_double v; pure (eqb x d)

unfoldable pub string_is : List Row → ℕ → Text → Text → Exec Scene Bool
string_is res i name s = do v ← out_at res i name; t ← get_string v; pure (t == s)

unfoldable pub blob_is : List Row → ℕ → Text → List ℕ → Exec Scene Bool
blob_is res i name b = do v ← out_at res i name; c ← get_blob v; pure (c == b)

unfoldable pub null_is : List Row → ℕ → Text → Exec Scene Bool
null_is res i name = do v ← out_at res i name; _ ← get_null v; pure true

-- `string((char*)&t.at(0), t.size()) == s`
unfoldable pub bytes_are : List ℕ → Text → Exec Scene Bool
bytes_are [] s = raise out_of_range
bytes_are (b ∷ bs) s = pure ((b ∷ bs) == s)

abbrev pub there_at : {A : Type 0} → Option A → Exec Scene A
there_at none = raise out_of_range
there_at (some a) = pure a

-- `get<string>(res.at(i).at(name)) == s`
unfoldable pub string_at_is : List Row → ℕ → Text → Text → Exec Scene Bool
string_at_is res i name s = do
  r ← there_at (get_elem? res i)
  v ← there_at (lookup name r)
  t ← get_string v
  pure (t == s)

-- The numbers from `low + k` down to `low + 1`.
unfoldable pub down : ℕ → ℕ → List ℕ
down zero low = []
down (suc k) low = (low + suc k) ∷ down k low

module _ (world : World) where
  -- `sqw.addValue(values)`, with the table's default
  unfoldable pub add : Values → Exec Scene (Unit {0})
  add values = sqw world (λ e. add_value e values (codes "data"))

  unfoldable pub add_to : Text → Values → Exec Scene (Unit {0})
  add_to table values = sqw world (λ e. add_value e values table)

  unfoldable pub replace_in : Text → Values → Exec Scene (Unit {0})
  replace_in table values = sqw world (λ e. add_or_replace_value e values table)

  -- `sqw.query(q, values)`
  unfoldable pub query : Text → List Var → Exec Scene (List (Dict Text))
  query q values = sqw world (λ e. Query.query e world.show_double q values)

  -- `sqw.queryT(q, values, msec)`
  unfoldable pub query_typed : Text → List Var → ℕ → Exec Scene (List Row)
  query_typed q values msec = sqw world (λ e. query_t e q values msec)

  -- `ms.exec(q)`
  unfoldable pub exec : Text → Exec Scene (List (List Text))
  exec q = ms world (λ e. Db.exec e q)
