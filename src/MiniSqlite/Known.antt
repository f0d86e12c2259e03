-- ===== src/MiniSqlite/Known.antt =====
-- The known columns of tables, as both writers keep them.
use sqlitewrite.Base.{◌≡◌, ◌∙◌, ◌||◌, ◌==◌, true, List, [], ◌∷◌, ◌++◌, refl, arith}
use sqlitewrite.Base.Lists.{All}
use sqlitewrite.Text.{Text, text_eq, text_dec}
use sqlitewrite.Text.Dict.{Dict, at, insert, at-insert}
use sqlitewrite.Sort.{sort, insert_by}
use sqlitewrite.Sort.Sorted.{IsSorted, sort-IsSorted}
use sqlitewrite.MiniSqlite.Schema.{Columns, by_name, pair_lt}
use sqlitewrite.MiniSqlite.Sorted.{has_name, IsSorted-by_name, pair_lt-IsWeakOrder}

abbrev pub Knows : Columns → List Text → Type 0
Knows cols = All (λ f. has_name f cols ≡ true)

-- The columns of each table are sorted by name.
abbrev pub AllSorted : Dict Columns → Type 0
AllSorted d = (t : Text) → IsSorted by_name (at [] t d)

-- A new column is put behind those of its table, which are sorted again.
abbrev pub with_column : Text → Text → Text → Dict Columns → Dict Columns
with_column table name type d = insert table (sort pair_lt (at [] table d ++ ((name, type) ∷ []))) d

pub insert-AllSorted :
    (table : Text) (cols : Columns) (d : Dict Columns)
    → IsSorted by_name cols
    → AllSorted d
    → AllSorted (insert table cols d)
insert-AllSorted table cols d s h t = elim (text_dec t table) [
  | yes here ↦
      let e : at [] t (insert table cols d) ≡ cols = ground (arith, at-insert [] t table cols d) in
      rw e s
  | no other ↦
      let e : at [] t (insert table cols d) ≡ at [] t d =
        ground (arith, at-insert [] t table cols d) in
      rw e (h t)
]

pub with_column-AllSorted :
    (table name type : Text) (d : Dict Columns)
    → AllSorted d
    → AllSorted (with_column table name type d)
with_column-AllSorted table name type d =
    insert-AllSorted table _ d (IsSorted-by_name _ (sort-IsSorted pair_lt pair_lt-IsWeakOrder _))

has_name-insert_by :
    (f : Text) (x : Text × Text) (cols : Columns)
    → has_name f (insert_by pair_lt x cols) ≡ has_name f (x ∷ cols)
unfolding insert_by
has_name-insert_by f x [] = refl
has_name-insert_by f x (c ∷ cols) = ground (arith, has_name-insert_by f x cols)

has_name-sort : (f : Text) (cols : Columns) → has_name f (sort pair_lt cols) ≡ has_name f cols
unfolding sort
has_name-sort f [] = refl
has_name-sort f (c ∷ cols) =
    ground (arith, has_name-insert_by f c (sort pair_lt cols), has_name-sort f cols)

has_name-append :
    (f name type : Text) (cols : Columns)
    → has_name f (cols ++ ((name, type) ∷ [])) ≡ (has_name f cols || f == name)
has_name-append f name type [] = ground arith
has_name-append f name type (c ∷ cols) = ground (arith, has_name-append f name type cols)

pub Knows-nothing : (cols : Columns) (ns : List Text) → Knows [] ns → Knows cols ns
Knows-nothing cols [] h = tt
Knows-nothing cols (n ∷ ns) (p, h) = cc

pub with_column-has_name :
    (table name type : Text) (d : Dict Columns) (f : Text)
    → has_name f (at [] table (with_column table name type d))
      ≡ (has_name f (at [] table d) || f == name)
with_column-has_name table name type d f =
    let cols = sort pair_lt (at [] table d ++ ((name, type) ∷ [])) in
    let here : at [] table (insert table cols d) ≡ cols =
      ground (arith, at-insert [] table table cols d) in
    rw here (has_name-sort f _ ∙ has_name-append f name type (at [] table d))

pub with_column-Knows :
    (table name type : Text) (d : Dict Columns) (ns : List Text)
    → Knows (at [] table d) ns
    → Knows (at [] table (with_column table name type d)) ns
with_column-Knows table name type d [] h = tt
with_column-Knows table name type d (n ∷ ns) (p, h) = (
  ground (arith, with_column-has_name table name type d n, p),
  with_column-Knows table name type d ns h,
)
