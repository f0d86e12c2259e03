-- ===== src/MiniSqlite/Sorted.antt =====
-- The orders by which columns are sorted and searched; `getSchema` returns them sorted by name.
use sqlitewrite.Sort.Search.{occurs, binary_search-eq-occurs}
use sqlitewrite.Sort.{binary_search}
use sqlitewrite.Base.Lists.{All}
use sqlitewrite.Base.{
  ◌≡◌, true, false, Bool, arith, ◌∷◌, [], Bool-cases, inr, inl, refl, ◌==◌, ◌||◌, ◌∙◌,
}
use sqlitewrite.Text.{Text, text_eq}
use sqlitewrite.Text.Order.{text_lt, text_lt_irrefl, text_lt_trans, text_lt_total}
use sqlitewrite.Sort.Sorted.{IsWeakOrder, IsSorted}
use sqlitewrite.MiniSqlite.Schema.{Columns, by_name, pair_lt}

text_lt_asym : (a b : Text) → text_lt a b ≡ true → text_lt b a ≡ false
text_lt_asym a b h = elim (Bool-cases (text_lt b a)) [
  | inl k ↦ cc (text_lt_trans a b a h k, text_lt_irrefl a)
  | inr k ↦ k
]

text_ge_trans : (a b c : Text) → text_lt b a ≡ false → text_lt c b ≡ false → text_lt c a ≡ false
text_ge_trans a b c h k = elim (Bool-cases (text_lt c a)) [
  | inr l ↦ l
  | inl l ↦ elim (Bool-cases (text_lt a b)) [
    | inl m ↦ cc (k, text_lt_trans c a b l m)
    | inr m ↦ cc (k, text_lt_total a b m h)
  ]
]

pub by_name-IsWeakOrder : IsWeakOrder by_name
by_name-IsWeakOrder = record {
  irrefl = λ a. text_lt_irrefl a.0;
  ge_trans = λ a b c. text_ge_trans a.0 b.0 c.0;
  asym = λ a b. text_lt_asym a.0 b.0;
}

pub pair_lt-IsWeakOrder : IsWeakOrder pair_lt
pair_lt-IsWeakOrder = record {
  irrefl = λ a. ground (arith, text_lt_irrefl a.0, text_lt_irrefl a.1);
  ge_trans = λ a b c h k. ground (
    arith,
    text_ge_trans a.0 b.0 c.0,
    text_ge_trans b.0 c.0 a.0,
    text_ge_trans c.0 a.0 b.0,
    text_ge_trans a.1 b.1 c.1,
  );
  asym = λ a b h. ground (arith, text_lt_asym a.0 b.0, text_lt_asym a.1 b.1);
}

-- The names of the columns, one after another.
abbrev pub has_name : Text → Columns → Bool
has_name name [] = false
has_name name ((n, _) ∷ cols) = name == n || has_name name cols

All-by_name :
    (a : Text × Text) (cols : Columns)
    → All (λ y. pair_lt y a ≡ false) cols
    → All (λ y. by_name y a ≡ false) cols
All-by_name a [] h = tt
All-by_name a (c ∷ cols) (p, ps) = (ground arith, All-by_name a cols ps)

-- Sorted as pairs, the columns are sorted by name.
pub IsSorted-by_name : (cols : Columns) → IsSorted pair_lt cols → IsSorted by_name cols
IsSorted-by_name [] s = tt
IsSorted-by_name (c ∷ cols) (p, s) = (All-by_name c cols p, IsSorted-by_name cols s)

occurs-eq-has_name :
    (name : Text) (cols : Columns) → occurs by_name (name, []) cols ≡ has_name name cols
occurs-eq-has_name name [] = refl
occurs-eq-has_name name ((n, t) ∷ cols) =
    ground (arith, text_lt_irrefl name, text_lt_total n name, occurs-eq-has_name name cols)

-- Binary search by name finds the columns that are there.
pub search-eq-has_name :
    (name : Text) (cols : Columns)
    → IsSorted by_name cols
    → binary_search by_name cols (name, []) ≡ has_name name cols
search-eq-has_name name cols s =
    binary_search-eq-occurs by_name by_name-IsWeakOrder cols (name, []) s
    ∙ occurs-eq-has_name name cols
