-- ===== src/JsonHelper/Json.antt =====
-- What the program uses of nlohmann::json, and what the documentation of that library says of it.
use sqlitewrite.Base.{
  ℕ, ◌≡◌, Bool, true, Option, none, some, List, [], ◌∷◌, ◌++◌, ◌==◌, if◌then◌else◌,
}
use sqlitewrite.Base.Int.{ℤ}
use sqlitewrite.Text.{Text, text_eq}

-- `assign j name v` is `j[name] = v`, `append a j` is `a += j`. `index` and `member` are the operators
-- `[]` on a number and on a name; `none` is the exception for a value of another kind.
pub record Json : Type 1 where
  pub Value : Type 0
  pub null : Value
  pub array : Value
  pub of_double : ℕ → Value
  pub of_int64 : ℤ → Value
  pub of_string : Text → Value
  pub of_blob : List ℕ → Value
  pub assign : Value → Text → Value → Value
  pub append : Value → Value → Value
  pub dump : Value → Text
  pub index : Value → ℕ → Option Value
  pub member : Value → Text → Option Value
  pub size : Value → ℕ
  pub count : Value → Text → ℕ
  pub text : Value → Option Text
  pub equals_int : Value → ℕ → Bool
  pub equals_double : Value → ℕ → Bool
  pub equals_string : Value → Text → Bool

-- The elements of an array, and the members of an object: `[]` on a null value makes it an object.
pub record Contents (j : Json) : Type 0 where
  pub elements : j.Value → List j.Value
  pub find : j.Value → Text → Option j.Value
  pub is_array : j.Value → Bool
  pub takes_members : j.Value → Bool
  pub elements-array : elements j.array ≡ []
  pub array-is_array : is_array j.array ≡ true
  pub append-is_array : (a v : j.Value) → is_array a ≡ true → is_array (j.append a v) ≡ true
  pub elements-append :
      (a v : j.Value) → is_array a ≡ true → elements (j.append a v) ≡ elements a ++ (v ∷ [])
  pub null-takes_members : takes_members j.null ≡ true
  pub find-null : (name : Text) → find j.null name ≡ none
  pub assign-takes_members :
      (o : j.Value) (name : Text) (v : j.Value)
      → takes_members o ≡ true
      → takes_members (j.assign o name v) ≡ true
  pub find-assign :
      (o : j.Value) (name : Text) (v : j.Value) (k : Text)
      → takes_members o ≡ true
      → find (j.assign o name v) k ≡ (if k == name then some v else find o k)
