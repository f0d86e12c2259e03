-- ===== src/MiniPsql/Rows.antt =====
-- struct QueryResult (minipsql.cc): its members, `getRow`, and the loop of `exec` over it.
use sqlitewrite.Base.{
  ℕ, zero, suc, ◌≡◌, ◌<◌, ◌+◌, ◌∙◌, Bool, true, false, Option, none, some, List, [], ◌∷◌, ◌++◌,
  if◌then◌else◌, ltb, refl, ap, ap₂, sym, arith, append_assoc,
}
use sqlitewrite.Base.Lists.{All, length, get_elem?}
use sqlitewrite.Text.{Text}
use sqlitewrite.MiniPsql.Db.{Server, rows_until_empty}

-- The members; `values` is the result that `d_res` points to.
pub record QueryResult : Type 0 where
  pub values : List (List Text)
  pub row : ℕ
  pub ntuples : ℕ
  pub nfields : ℕ

-- The members after a constructor, for a result with `nfields` fields.
abbrev pub result_with : ℕ → List (List Text) → QueryResult
result_with nfields values = record {
  values = values;
  row = 0;
  ntuples = length values;
  nfields = nfields;
}

abbrev or_empty : {A : Type 0} → Option (List A) → List A
or_empty none = []
or_empty (some xs) = xs

-- `PQgetvalue(d_res, i, j)`
abbrev pub value_at : List (List Text) → ℕ → ℕ → Text
value_at values i j = or_empty (get_elem? (or_empty (get_elem? values i)) j)

-- The loop over the fields of a row, with `left` fields to go.
unfoldable pub read_fields : List (List Text) → ℕ → ℕ → ℕ → List Text
read_fields values i zero j = []
read_fields values i (suc left) j = value_at values i j ∷ read_fields values i left (j + 1)

-- `getRow`
unfoldable pub get_row : QueryResult → List Text × QueryResult
unfolding read_fields
get_row qr = (
  if ltb qr.row qr.ntuples then read_fields qr.values qr.row qr.nfields 0 else [],
  record qr { row = qr.row + 1 },
)

abbrev is_empty : List Text → Bool
is_empty [] = true
is_empty (x ∷ xs) = false

-- The loop of `exec`, for a number of rounds.
unfoldable pub get_rows : ℕ → QueryResult → List (List Text)
unfolding get_row
get_rows zero qr = []
get_rows (suc rounds) qr =
    let (row, qr') = get_row qr in
    let rest = get_rows rounds qr' in if is_empty row then [] else row ∷ rest

get_elem-after :
    {A : Type 0} (xs ys : List A) (y : A) → get_elem? (xs ++ (y ∷ ys)) (length xs) ≡ some y
get_elem-after [] ys y = refl
get_elem-after (x ∷ xs) ys y = get_elem-after xs ys y

length-snoc : {A : Type 0} (xs : List A) (y : A) → length (xs ++ (y ∷ [])) ≡ length xs + 1
length-snoc [] y = refl
length-snoc (x ∷ xs) y = omega (arith, length-snoc xs y)

-- What is left of a row after its first fields.
read_fields-rest :
    (values : List (List Text)) (i : ℕ) (before after : List Text)
    → get_elem? values i ≡ some (before ++ after)
    → read_fields values i (length after) (length before) ≡ after
unfolding read_fields
read_fields-rest values i before [] h = refl
read_fields-rest values i before (x ∷ xs) h =
    ap₂ (λ y ys. y ∷ ys)
      (ap (λ r. or_empty (get_elem? (or_empty r) (length before))) h
        ∙ ap or_empty (get_elem-after before xs x))
      (ap (read_fields values i (length xs)) (sym (length-snoc before x))
        ∙ read_fields-rest values i (before ++ (x ∷ [])) xs
            (h ∙ ap some (sym (append_assoc before (x ∷ []) xs))))

get_row-end : (qr : QueryResult) → ltb qr.row qr.ntuples ≡ false → (get_row qr).0 ≡ []
unfolding get_row
get_row-end qr e = rw e refl

get_row-there :
    (qr : QueryResult) (before after : List (List Text)) (x : List Text)
    → qr.values ≡ before ++ (x ∷ after)
    → qr.row ≡ length before
    → ltb qr.row qr.ntuples ≡ true
    → length x ≡ qr.nfields
    → (get_row qr).0 ≡ x
unfolding get_row
get_row-there qr before after x v r e f =
    let here : get_elem? qr.values qr.row ≡ some x =
      ap₂ get_elem? v r ∙ get_elem-after before after x in
    rw e (
      ap (λ n. read_fields qr.values qr.row n 0) (sym f)
      ∙ read_fields-rest qr.values qr.row [] x here)

get_row-next : (qr : QueryResult) → (get_row qr).1 ≡ record qr { row = qr.row + 1 }
unfolding get_row
get_row-next qr = refl

-- What is left of a result after its first rows.
get_rows-rest :
    (s : Server) (rounds : ℕ) (qr : QueryResult) (before after : List (List Text))
    → qr.values ≡ before ++ after
    → qr.row ≡ length before
    → qr.ntuples ≡ length before + length after
    → All (λ r. length r ≡ qr.nfields) after
    → length after < rounds
    → get_rows rounds qr ≡ rows_until_empty s after
unfolding get_rows rows_until_empty
get_rows-rest s zero qr before after v r n h lt = absurd (omega (arith, lt))
get_rows-rest s (suc rounds) qr before [] v r n h lt =
    let e : ltb qr.row qr.ntuples ≡ false = ground (arith, n, r) in rw (get_row-end qr e) refl
get_rows-rest s (suc rounds) qr before (x ∷ xs) v r n (f, h) lt =
    let e : ltb qr.row qr.ntuples ≡ true = ground (arith, n, r) in
    let ih =
      get_rows-rest s rounds (record qr { row = qr.row + 1 }) (before ++ (x ∷ [])) xs
        (v ∙ sym (append_assoc before (x ∷ []) xs)) (omega (arith, r, length-snoc before x))
        (omega (arith, n, length-snoc before x)) h (omega (arith, lt)) in
    rw (get_row-there qr before xs x v r e f, get_row-next qr) (first_or_stop x _ ih)
  where
    first_or_stop :
        (x : List Text) (a : List (List Text))
        → a ≡ rows_until_empty s xs
        → (if is_empty x then [] else x ∷ a) ≡ rows_until_empty s (x ∷ xs)
    first_or_stop [] a p = refl
    first_or_stop (y ∷ ys) a p = ap (λ rs. (y ∷ ys) ∷ rs) p

-- Where all rows have as many values as the result has fields, the loop of `exec` over `getRow` ends
-- within one round more than there are rows, with the rows up to the first one without values.
pub get_rows_lem :
    (s : Server) (nfields : ℕ) (values : List (List Text)) (rounds : ℕ)
    → All (λ r. length r ≡ nfields) values
    → length values < rounds
    → get_rows rounds (result_with nfields values) ≡ rows_until_empty s values
get_rows_lem s nfields values rounds h lt =
    get_rows-rest s rounds (result_with nfields values) [] values refl refl (omega arith) h lt
