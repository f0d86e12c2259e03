-- ===== src/PsqlWriter/Parameters.antt =====
-- The placeholders of an insert statement and its parameters belong together.
use sqlitewrite.PsqlWriter.Printed.{IsPrinted, parameter-IsPrinted}
use sqlitewrite.Text.Dict.{lookup}
use mathlib.Core.Option.{some-injective}
use sqlitewrite.Base.{ap₂}
use sqlitewrite.Base.{
  ℕ, zero, suc, ◌+◌, ◌*◌, ◌≡◌, Option, some, List, [], ◌∷◌, ◌++◌, true, false, arith, append_assoc,
  append-nil, ap, sym, ◌∙◌,
}
use sqlitewrite.Base.Lists.{length, get_elem?}
use sqlitewrite.Text.{Text, codes}
use sqlitewrite.Text.Decimal.{to_string}
use sqlitewrite.PsqlWriter.Message.{Message}
use sqlitewrite.PsqlWriter.Query.{
  insert_query, field_loop, row_loop, placeholder_loop, all_strings, row_parameters, parameter,
}

-- The texts with commas between them.
abbrev pub joined : List Text → Text
joined [] = []
joined (x ∷ []) = x
joined (x ∷ y ∷ xs) = x ++ (codes "," ++ joined (y ∷ xs))

-- A comma before each text.
commas : List Text → Text
commas [] = []
commas (x ∷ xs) = codes "," ++ (x ++ commas xs)

-- `$n`, `$(n + 1)`, and so on, one for each field.
abbrev pub numbered : ℕ → List Text → List Text
numbered n [] = []
numbered n (f ∷ fs) = (codes "$" ++ to_string n) ∷ numbered (n + 1) fs

-- `($n,...,$(n + k - 1))` for each message, where there are `k` fields.
abbrev pub rows_from : ℕ → List Text → List Message → List Text
rows_from n fields [] = []
rows_from n fields (m ∷ ms) =
    (codes "(" ++ (joined (numbered n fields) ++ codes ")"))
    ∷ rows_from (n + length fields) fields ms

joined-commas : (x : Text) (xs : List Text) → joined (x ∷ xs) ≡ x ++ commas xs
unfolding commas
joined-commas x [] = sym (append-nil x)
joined-commas x (y ∷ xs) = ap (λ t. x ++ (codes "," ++ t)) (joined-commas y xs)

field_loop-commas : (fs : List Text) (q : Text) → field_loop fs false q ≡ q ++ commas fs
unfolding field_loop commas
field_loop-commas [] q = sym (append-nil q)
field_loop-commas (f ∷ fs) q = field_loop-commas fs _ ∙ simp append_assoc

field_loop-joined : (fs : List Text) (q : Text) → field_loop fs true q ≡ q ++ joined fs
unfolding field_loop
field_loop-joined [] q = sym (append-nil q)
field_loop-joined (f ∷ fs) q =
    rw joined-commas (field_loop-commas fs _ ∙ append_assoc q f (commas fs))

placeholder_loop-commas :
    (fs : List Text) (n : ℕ) (q : Text)
    → placeholder_loop fs false n q ≡ (q ++ commas (numbered n fs), n + length fs)
unfolding placeholder_loop commas
placeholder_loop-commas [] n q = ap₂ (λ a b. (a, b)) (sym (append-nil q)) (omega arith)
placeholder_loop-commas (f ∷ fs) n q =
    placeholder_loop-commas fs (n + 1) _ ∙ ap₂ (λ a b. (a, b)) (simp append_assoc) (omega arith)

placeholder_loop-joined :
    (fs : List Text) (n : ℕ) (q : Text)
    → placeholder_loop fs true n q ≡ (q ++ joined (numbered n fs), n + length fs)
unfolding placeholder_loop
placeholder_loop-joined [] n q = ap₂ (λ a b. (a, b)) (sym (append-nil q)) (omega arith)
placeholder_loop-joined (f ∷ fs) n q =
    placeholder_loop-commas fs (n + 1) _
    ∙ ap₂ (λ a b. (a, b)) (rw joined-commas (append_assoc q _ _)) (omega arith)

row_loop-commas :
    (fields : List Text) (ms : List Message) (n : ℕ) (q : Text)
    → row_loop fields ms false n q ≡ q ++ commas (rows_from n fields ms)
unfolding row_loop commas
row_loop-commas fields [] n q = sym (append-nil q)
row_loop-commas fields (m ∷ ms) n q =
    rw placeholder_loop-joined (row_loop-commas fields ms (n + length fields) _ ∙ simp append_assoc)

-- The insert statement names the fields once and has one row of placeholders for each message; the
-- placeholders are numbered from 1 on without a gap.
pub insert_query_lem :
    (table : Text) (fields : List Text) (m : Message) (ms : List Message)
    → insert_query table fields (m ∷ ms)
      ≡ codes "insert into "
        ++ (table
            ++ (codes " ("
                ++ (joined fields ++ (codes ") values " ++ joined (rows_from 1 fields (m ∷ ms))))))
unfolding insert_query row_loop
insert_query_lem table fields m ms =
    rw
      (
        placeholder_loop-joined fields 1,
        row_loop-commas fields ms (1 + length fields),
        field_loop-joined,
        joined-commas,
      )
      (simp append_assoc)

-- The text of an insert statement.
abbrev pub insert_text : Text → List Text → List Message → Text
insert_text table fields work =
    codes "insert into "
    ++ (table
        ++ (codes " ("
            ++ (joined fields ++ (codes ") values " ++ joined (rows_from 1 fields work)))))

pub insert_query-eq-insert_text :
    (table : Text) (fields : List Text) (work : List Message)
    → insert_query table fields work ≡ insert_text table fields work
unfolding insert_query row_loop
insert_query-eq-insert_text table fields [] = rw field_loop-joined (simp (append_assoc, append-nil))
insert_query-eq-insert_text table fields (m ∷ ms) = insert_query_lem table fields m ms

module _ (show_double : ℕ → Text) where
  get_row :
      (m : Message) (fields : List Text) (rest : List (Option Text)) (c : ℕ) (f : Text)
      → get_elem? fields c ≡ some f
      → get_elem? (row_parameters show_double m fields ++ rest) c ≡ some (parameter show_double m f)
  unfolding row_parameters
  get_row m [] rest c f h = cc
  get_row m (g ∷ fs) rest zero f h =
      ap (λ f. some (parameter show_double m f)) (some-injective g f h)
  get_row m (g ∷ fs) rest (suc c) f h = get_row m fs rest c f h

  get_later :
      (m : Message) (fields : List Text) (rest : List (Option Text)) (i : ℕ)
      → get_elem? (row_parameters show_double m fields ++ rest) (length fields + i)
        ≡ get_elem? rest i
  unfolding row_parameters
  get_later m [] rest i = ap (get_elem? rest) (omega arith)
  get_later m (g ∷ fs) rest i =
      let e : suc (length fs) + i ≡ suc (length fs + i) = omega arith in
      rw e (get_later m fs rest i)

  get_elem-parameter :
      (fields : List Text) (work : List Message) (r c : ℕ) (m : Message) (f : Text)
      → get_elem? work r ≡ some m
      → get_elem? fields c ≡ some f
      → get_elem? (all_strings show_double fields work) (r * length fields + c)
        ≡ some (parameter show_double m f)
  unfolding all_strings
  get_elem-parameter fields [] r c m f h k = cc
  get_elem-parameter fields (n ∷ ns) zero c m f h k =
      let e : 0 * length fields + c ≡ c = omega arith in
      rw e (get_row n fields (all_strings show_double fields ns) c f k)
      ∙ ap (λ m. some (parameter show_double m f)) (some-injective n m h)
  get_elem-parameter fields (n ∷ ns) (suc r) c m f h k =
      let e : suc r * length fields + c ≡ length fields + (r * length fields + c) = ground arith in
      rw e (get_later n fields (all_strings show_double fields ns) (r * length fields + c))
      ∙ get_elem-parameter fields ns r c m f h k

  -- The parameter of row `r` and column `c`, at position `r * k + c` where there are `k` fields, is the
  -- value that message `r` has for field `c`, printed, or null if it has none.
  pub get_elem-all_strings :
      (fields : List Text) (work : List Message) (r c : ℕ) (m : Message) (f : Text)
      → get_elem? work r ≡ some m
      → get_elem? fields c ≡ some f
      → (p : Option Text) × (get_elem? (all_strings show_double fields work) (r * length fields + c)
          ≡ some p)
        × IsPrinted show_double (lookup f m.values) p
  get_elem-all_strings fields work r c m f h k =
      (_, get_elem-parameter fields work r c m f h k, parameter-IsPrinted show_double m f)
