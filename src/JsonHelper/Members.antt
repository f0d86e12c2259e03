-- ===== src/JsonHelper/Members.antt =====
-- The JSON of a result, by its contents.
use sqlitewrite.MiniSqlite.RowValues.{last_named, lookup-read_columns}
use mathlib.Core.Path.{subst, ap₂}
use sqlitewrite.Base.{
  ◌≡◌, ◌≢◌, ◌∙◌, Bool, true, false, Option, none, some, List, [], ◌∷◌, ◌++◌, map, append_assoc,
  append-nil, arith, refl, sym, ap, ◌==◌, if◌then◌else◌,
}
use sqlitewrite.Text.{Text, text_eq, text_dec}
use sqlitewrite.Text.Dict.{lookup, insert}
use sqlitewrite.Value.{OutVar}
use sqlitewrite.Sqlite.{Column}
use sqlitewrite.MiniSqlite.Statement.{Row, read_columns, out_var}
use sqlitewrite.MiniSqlite.Calls.{row_of}
use sqlitewrite.JsonHelper.Json.{Json, Contents}
use sqlitewrite.JsonHelper.Pack.{packed, assign_some, pack_columns, pack_rows, pack_results_json}

-- No name stands twice in a row.
abbrev pub IsUnique : Row → Type 0
IsUnique [] = Unit
IsUnique ((name, v) ∷ row) = (lookup name row ≡ none) × IsUnique row

lookup-insert_other :
    (k name : Text) (v : OutVar) (row : Row)
    → k ≢ name
    → lookup k row ≡ none
    → lookup k (insert name v row) ≡ none
unfolding lookup insert
lookup-insert_other k name v [] ne h = ground (arith, ne)
lookup-insert_other k name v ((i, w) ∷ row) ne h =
    ground (arith, ne, lookup-insert_other k name v row ne)

insert-IsUnique :
    (name : Text) (v : OutVar) (row : Row) → IsUnique row → IsUnique (insert name v row)
unfolding insert lookup
insert-IsUnique name v [] h = (refl, tt)
insert-IsUnique name v ((i, w) ∷ row) (out, h) = elim (text_dec name i) [
  | yes p ↦
      let t : (name == i) ≡ true = ground arith in
      rw t (subst (λ n. lookup n row ≡ none) (sym p) out, h)
  | no p ↦
      let t : (name == i) ≡ false = ground arith in
      rw t (lookup-insert_other i name v row (λ e. p (sym e)) out, insert-IsUnique name v row h)
]

read_columns-IsUnique :
    (cols : List Column) (row : Row) → IsUnique row → IsUnique (read_columns cols row)
unfolding read_columns
read_columns-IsUnique [] row h = h
read_columns-IsUnique (c ∷ cols) row h =
    read_columns-IsUnique cols _ (insert-IsUnique c.name (out_var c.cell) row h)

module _ (j : Json) (c : Contents j) (fillnull : Bool) where
  open j use {Value}

  -- The member that a column is to have, if there is such a column.
  abbrev null_member : Bool → Option Value
  null_member true = some (j.of_string [])
  null_member false = none

  abbrev pub packed_column : Option OutVar → Option Value
  packed_column none = none
  packed_column (some OutVar.null) = null_member fillnull
  packed_column (some (OutVar.double d)) = some (j.of_double d)
  packed_column (some (OutVar.int64 z)) = some (j.of_int64 z)
  packed_column (some (OutVar.string s)) = some (j.of_string s)
  packed_column (some (OutVar.blob b)) = some (j.of_blob b)

  null_member-eq : (b : Bool) → (if b then some (j.of_string []) else none) ≡ null_member b
  null_member-eq true = refl
  null_member-eq false = refl

  packed-eq : (v : OutVar) → packed j fillnull v ≡ packed_column (some v)
  packed-eq OutVar.null = null_member-eq fillnull
  packed-eq (OutVar.double d) = refl
  packed-eq (OutVar.int64 z) = refl
  packed-eq (OutVar.string s) = refl
  packed-eq (OutVar.blob b) = refl

  or_else : Option Value → Option Value → Option Value
  or_else none o = o
  or_else (some v) o = some v

  assign_some-takes_members :
      (o : Value) (i : Text) (w : Option Value)
      → c.takes_members o ≡ true
      → c.takes_members (assign_some j fillnull o i w) ≡ true
  assign_some-takes_members o i none t = t
  assign_some-takes_members o i (some v) t = c.assign-takes_members o i v t

  find-assign_some :
      (o : Value) (i : Text) (w : Option Value) (name : Text)
      → c.takes_members o ≡ true
      → c.find (assign_some j fillnull o i w) name
        ≡ (if name == i then or_else w (c.find o name) else c.find o name)
  unfolding or_else
  find-assign_some o i none name t = ground arith
  find-assign_some o i (some v) name t = c.find-assign o i v name t

  found_once :
      (i : Text) (v : OutVar) (row : Row) (name : Text) (f : Option Value)
      → lookup i row ≡ none
      → or_else
          (packed_column (lookup name row))
          (if name == i then or_else (packed j fillnull v) f else f)
        ≡ or_else (packed_column (if name == i then some v else lookup name row)) f
  unfolding or_else
  found_once i v row name f out = elim (text_dec name i) [
    | yes p ↦
        let e : lookup name row ≡ none = ap (λ n. lookup n row) p ∙ out in
        let t : (name == i) ≡ true = ground arith in rw (t, e, packed-eq v) refl
    | no p ↦ let t : (name == i) ≡ false = ground arith in rw t refl
  ]

  find-pack_columns :
      (row : Row) (o : Value) (name : Text)
      → IsUnique row
      → c.takes_members o ≡ true
      → c.find (pack_columns j fillnull row o) name
        ≡ or_else (packed_column (lookup name row)) (c.find o name)
  unfolding pack_columns lookup or_else
  find-pack_columns [] o name u t = refl
  find-pack_columns ((i, v) ∷ row) o name (out, u) t =
      find-pack_columns row (assign_some j fillnull o i (packed j fillnull v)) name u
        (assign_some-takes_members o i (packed j fillnull v) t)
      ∙ ap (or_else (packed_column (lookup name row)))
          (find-assign_some o i (packed j fillnull v) name t)
      ∙ found_once i v row name (c.find o name) out

  elements-pack_rows :
      (rows : List Row) (a : Value)
      → c.is_array a ≡ true
      → c.elements (pack_rows j fillnull rows a)
        ≡ c.elements a ++ map (λ row. pack_columns j fillnull row j.null) rows
  unfolding pack_rows
  elements-pack_rows [] a h = sym (append-nil (c.elements a))
  elements-pack_rows (row ∷ rows) a h =
      elements-pack_rows rows _ (c.append-is_array a _ h)
      ∙ ap (λ e. e ++ map (λ row. pack_columns j fillnull row j.null) rows)
          (c.elements-append a _ h)
      ∙ append_assoc (c.elements a) _ _

  -- The JSON object of a row, and the member of a name.
  abbrev row_json : List Column → Value
  row_json cols = pack_columns j fillnull (row_of cols) j.null

  or_else-none : (o : Option Value) → or_else o none ≡ o
  unfolding or_else
  or_else-none none = refl
  or_else-none (some v) = refl

  find-row_json :
      (name : Text) (cols : List Column)
      → c.find (row_json cols) name ≡ packed_column (last_named name cols none)
  unfolding lookup
  find-row_json name cols =
      find-pack_columns (row_of cols) j.null name (read_columns-IsUnique cols [] tt)
        c.null-takes_members
      ∙ ap (or_else (packed_column (lookup name (row_of cols)))) (c.find-null name)
      ∙ or_else-none _
      ∙ ap packed_column (lookup-read_columns name cols [])

  map_members :
      (name : Text) (rows : List (List Column))
      → map (λ o. c.find o name) (map (λ row. pack_columns j fillnull row j.null) (map row_of rows))
        ≡ map (λ cols. packed_column (last_named name cols none)) rows
  map_members name [] = refl
  map_members name (cols ∷ rows) =
      ap₂ (λ x xs. x ∷ xs) (find-row_json name cols) (map_members name rows)

  -- The JSON of a result has one element for each row, in the order of the rows. The element's member of
  -- a name is the JSON of the value of the last column of that name; it has none where there is no
  -- such column, and where the value is null and `fillnull` is false. With `fillnull` a null is
  -- the empty string.
  pub find-pack_results_json :
      (name : Text) (rows : List (List Column))
      → map (λ o. c.find o name) (c.elements (pack_results_json j fillnull (map row_of rows)))
        ≡ map (λ cols. packed_column (last_named name cols none)) rows
  unfolding pack_results_json
  find-pack_results_json name rows =
      let e = elements-pack_rows (map row_of rows) j.array c.array-is_array in
      rw (e, c.elements-array) (map_members name rows)
