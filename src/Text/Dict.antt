-- ===== src/Text/Dict.antt =====
-- A map keyed by texts, as an association list. The program only reads its maps by `operator[]`
-- and `find`, and tells a missing entry nowhere from one that holds the default value (a null
-- pointer, an empty vector, `false`, an empty string): `at` gives the default for a missing key.
use sqlitewrite.Base.{◌≡◌, refl, Option, none, some, List, [], ◌∷◌, arith, ◌==◌, if◌then◌else◌}
use sqlitewrite.Text.{Text, text_eq}

abbrev pub Dict : Type 0 → Type 0
Dict V = List (Text × V)

module _ {V : Type 0} where
  -- `m.find(k)`
  unfoldable pub lookup : Text → Dict V → Option V
  lookup k [] = none
  lookup k ((j, v) ∷ m) = if k == j then some v else lookup k m

  -- `m[k] = v`
  unfoldable pub insert : Text → V → Dict V → Dict V
  insert k v [] = (k, v) ∷ []
  insert k v ((j, w) ∷ m) = if k == j then (k, v) ∷ m else (j, w) ∷ insert k v m

  abbrev pub or_default : V → Option V → V
  or_default d none = d
  or_default d (some v) = v

  -- `m[k]` where `d` is the default value of the mapped type
  unfoldable pub at : V → Text → Dict V → V
  at d k m = or_default d (lookup k m)

  pub lookup-insert :
      (j k : Text) (v : V) (m : Dict V)
      → lookup j (insert k v m) ≡ (if j == k then some v else lookup j m)
  unfolding lookup insert
  lookup-insert j k v [] = refl
  lookup-insert j k v ((i, w) ∷ m) = ground (arith, lookup-insert j k v m)

  pub at-insert :
      (d : V) (j k : Text) (v : V) (m : Dict V)
      → at d j (insert k v m) ≡ (if j == k then v else at d j m)
  unfolding at
  at-insert d j k v m = ground (arith, lookup-insert j k v m)
