-- ===== src/JsonHelper/Tests.antt =====
-- The theorem on JSON results with a concrete type of JSON values.
use sqlitewrite.Base.{
  ℕ, ◌≡◌, Bool, true, false, Option, none, some, List, [], ◌∷◌, ◌++◌, map, refl, ap, ◌==◌,
  if◌then◌else◌, eqb,
}
use sqlitewrite.Base.Int.{ℤ, pos}
use sqlitewrite.Base.Lists.{length, get_elem?}
use sqlitewrite.Text.{Text, codes, text_eq}
use sqlitewrite.Sqlite.{Column, Cell}
use sqlitewrite.MiniSqlite.Calls.{row_of}
use sqlitewrite.MiniSqlite.RowValues.{last_named}
use sqlitewrite.JsonHelper.Json.{Json, Contents}
use sqlitewrite.JsonHelper.Pack.{pack_results_json}
use sqlitewrite.JsonHelper.Members.{packed_column, find-pack_results_json}

mutual
  pub data Tree : Type 0 where
    null : Tree
    array : Items → Tree
    object : Members → Tree
    double : ℕ → Tree
    int64 : ℤ → Tree
    string : Text → Tree
    blob : List ℕ → Tree

  pub data Items : Type 0 where
    nil : Items
    item : Tree → Items → Items

  pub data Members : Type 0 where
    nothing : Members
    member : Text → Tree → Members → Members

abbrev pub add_item : Items → Tree → Items
add_item Items.nil v = Items.item v Items.nil
add_item (Items.item t ts) v = Items.item t (add_item ts v)

abbrev pub items : Items → List Tree
items Items.nil = []
items (Items.item t ts) = t ∷ items ts

abbrev pub get_member : Members → Text → Option Tree
get_member Members.nothing k = none
get_member (Members.member n v ms) k = if k == n then some v else get_member ms k

abbrev pub tree_assign : Tree → Text → Tree → Tree
tree_assign Tree.null n v = Tree.object (Members.member n v Members.nothing)
tree_assign (Tree.object ms) n v = Tree.object (Members.member n v ms)
tree_assign t n v = t

abbrev pub tree_append : Tree → Tree → Tree
tree_append (Tree.array ts) v = Tree.array (add_item ts v)
tree_append t v = t

abbrev pub tree_elements : Tree → List Tree
tree_elements (Tree.array ts) = items ts
tree_elements t = []

abbrev pub tree_find : Tree → Text → Option Tree
tree_find (Tree.object ms) k = get_member ms k
tree_find t k = none

abbrev pub is_tree_array : Tree → Bool
is_tree_array (Tree.array ts) = true
is_tree_array t = false

abbrev pub takes_tree_members : Tree → Bool
takes_tree_members Tree.null = true
takes_tree_members (Tree.object ms) = true
takes_tree_members t = false

abbrev pub tree_text : Tree → Option Text
tree_text (Tree.string s) = some s
tree_text t = none

abbrev pub is_int : Tree → ℕ → Bool
is_int (Tree.int64 (pos n)) k = eqb n k
is_int t k = false

abbrev pub is_double : Tree → ℕ → Bool
is_double (Tree.double d) k = eqb d k
is_double t k = false

abbrev pub is_string : Tree → Text → Bool
is_string (Tree.string s) t = s == t
is_string _ t = false

abbrev pub counted : Option Tree → ℕ
counted none = 0
counted (some t) = 1

abbrev pub trees : Json
trees = record {
  Value = Tree;
  null = Tree.null;
  array = Tree.array Items.nil;
  of_double = Tree.double;
  of_int64 = Tree.int64;
  of_string = Tree.string;
  of_blob = Tree.blob;
  assign = tree_assign;
  append = tree_append;
  dump = λ t. [];
  index = λ t n. get_elem? (tree_elements t) n;
  member = tree_find;
  size = λ t. length (tree_elements t);
  count = λ t k. counted (tree_find t k);
  text = tree_text;
  equals_int = is_int;
  equals_double = is_double;
  equals_string = is_string;
}

items-add_item : (ts : Items) (v : Tree) → items (add_item ts v) ≡ items ts ++ (v ∷ [])
items-add_item Items.nil v = refl
items-add_item (Items.item t ts) v = ap (λ xs. t ∷ xs) (items-add_item ts v)

is_array-append : (a v : Tree) → is_tree_array a ≡ true → is_tree_array (tree_append a v) ≡ true
is_array-append (Tree.array ts) v h = refl
is_array-append Tree.null v h = h
is_array-append (Tree.object ms) v h = h
is_array-append (Tree.double d) v h = h
is_array-append (Tree.int64 z) v h = h
is_array-append (Tree.string s) v h = h
is_array-append (Tree.blob b) v h = h

elements_append :
    (a v : Tree)
    → is_tree_array a ≡ true
    → tree_elements (tree_append a v) ≡ tree_elements a ++ (v ∷ [])
elements_append (Tree.array ts) v h = items-add_item ts v
elements_append Tree.null v h = cc
elements_append (Tree.object ms) v h = cc
elements_append (Tree.double d) v h = cc
elements_append (Tree.int64 z) v h = cc
elements_append (Tree.string s) v h = cc
elements_append (Tree.blob b) v h = cc

assign_takes :
    (o : Tree) (n : Text) (v : Tree)
    → takes_tree_members o ≡ true
    → takes_tree_members (tree_assign o n v) ≡ true
assign_takes Tree.null n v h = refl
assign_takes (Tree.object ms) n v h = refl
assign_takes (Tree.array ts) n v h = h
assign_takes (Tree.double d) n v h = h
assign_takes (Tree.int64 z) n v h = h
assign_takes (Tree.string s) n v h = h
assign_takes (Tree.blob b) n v h = h

find_assign :
    (o : Tree) (n : Text) (v : Tree) (k : Text)
    → takes_tree_members o ≡ true
    → tree_find (tree_assign o n v) k ≡ (if k == n then some v else tree_find o k)
find_assign Tree.null n v k h = refl
find_assign (Tree.object ms) n v k h = refl
find_assign (Tree.array ts) n v k h = cc
find_assign (Tree.double d) n v k h = cc
find_assign (Tree.int64 z) n v k h = cc
find_assign (Tree.string s) n v k h = cc
find_assign (Tree.blob b) n v k h = cc

abbrev tree_contents : Contents trees
tree_contents = record {
  elements = tree_elements;
  find = tree_find;
  is_array = is_tree_array;
  takes_members = takes_tree_members;
  elements-array = refl;
  array-is_array = refl;
  append-is_array = is_array-append;
  elements-append = elements_append;
  null-takes_members = refl;
  find-null = λ name. refl;
  assign-takes_members = assign_takes;
  find-assign = find_assign;
}

abbrev two_rows : List (List Column)
two_rows =
    (record { name = codes "a"; cell = Cell.integer (pos 1) } ∷ [])
    ∷ (record { name = codes "a"; cell = Cell.null } ∷ [])
    ∷ []

find-pack_results_json_example :
    map
      (λ o. tree_find o (codes "a"))
      (tree_elements (pack_results_json trees true (map row_of two_rows)))
    ≡ map
        (λ cols. packed_column trees tree_contents true (last_named (codes "a") cols none))
        two_rows
find-pack_results_json_example =
    find-pack_results_json trees tree_contents true (codes "a") two_rows
