-- ===== src/PsqlWriter/Query.antt =====
-- The insert statement of the messages of one table, and its parameters.
use sqlitewrite.Base.{eqb}
use sqlitewrite.SqliteWriter.Query.{signed_to_string}
use sqlitewrite.Base.{
  ℕ, ◌+◌, Bool, true, false, Option, none, some, List, [], ◌∷◌, ◌++◌, if◌then◌else◌,
}
use sqlitewrite.Text.{Text, codes, text_eq}
use sqlitewrite.Text.Dict.{lookup}
use sqlitewrite.Text.Decimal.{to_string}
use sqlitewrite.PsqlWriter.Message.{Var, Message}

-- `if(!first) query += ','`
abbrev pub comma_unless : Bool → Text
comma_unless first = if first then [] else codes ","

-- The loop over the fields in the head of the statement.
unfoldable pub field_loop : List Text → Bool → Text → Text
field_loop [] first query = query
field_loop (f ∷ fs) first query = field_loop fs false (query ++ (comma_unless first ++ f))

-- The placeholders of one row: the loop over the fields, with `ctr`.
unfoldable pub placeholder_loop : List Text → Bool → ℕ → Text → Text × ℕ
placeholder_loop [] first ctr query = (query, ctr)
placeholder_loop (f ∷ fs) first ctr query =
    placeholder_loop fs false (ctr + 1)
      (query ++ (comma_unless first ++ (codes "$" ++ to_string ctr)))

-- The loop over the messages.
unfoldable pub row_loop : List Text → List Message → Bool → ℕ → Text → Text
unfolding placeholder_loop
row_loop fields [] first ctr query = query
row_loop fields (m ∷ ms) first ctr query =
    let (query', ctr') =
      placeholder_loop fields true ctr (query ++ (comma_unless first ++ codes "(")) in
    row_loop fields ms false ctr' (query' ++ codes ")")

unfoldable pub insert_query : Text → List Text → List Message → Text
unfolding field_loop row_loop
insert_query table fields work =
    row_loop fields work true 1
      (field_loop fields true (codes "insert into " ++ (table ++ codes " (")) ++ codes ") values ")

-- What libpq reads from a pointer to the text: the text up to its first NUL.
unfoldable pub c_string : Text → Text
c_string [] = []
c_string (c ∷ cs) = if eqb c 0 then [] else c ∷ c_string cs

-- `allptrs`, as libpq reads them
unfoldable pub all_pointers : List (Option Text) → List (Option Text)
unfolding c_string
all_pointers [] = []
all_pointers (none ∷ ps) = none ∷ all_pointers ps
all_pointers (some s ∷ ps) = some (c_string s) ∷ all_pointers ps

-- `std::to_string(double)`, on the bits of the number, is the C++ library's.
module _ (show_double : ℕ → Text) where
  abbrev pub show : Var → Text
  show (Var.string s) = s
  show (Var.double d) = show_double d
  show (Var.int32 z) = signed_to_string z
  show (Var.uint32 n) = to_string n
  show (Var.int64 z) = signed_to_string z

  -- The parameter for a field, null if the message has no value for it.
  abbrev pub parameter : Message → Text → Option Text
  parameter m f = elim (lookup f m.values) [ none ↦ none | some v ↦ some (show v) ]

  unfoldable pub row_parameters : Message → List Text → List (Option Text)
  row_parameters m [] = []
  row_parameters m (f ∷ fs) = parameter m f ∷ row_parameters m fs

  -- `allstrings`
  unfoldable pub all_strings : List Text → List Message → List (Option Text)
  unfolding row_parameters
  all_strings fields [] = []
  all_strings fields (m ∷ ms) = row_parameters m fields ++ all_strings fields ms
