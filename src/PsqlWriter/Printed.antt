-- ===== src/PsqlWriter/Printed.antt =====
-- The parameters of an insert statement, as a description that does not follow the code.
use sqlitewrite.PsqlWriter.Query.{show}
use sqlitewrite.Base.{
  ℕ, ◌≡◌, ◌≢◌, Bool-cases, inl, inr, Option, none, some, List, [], ◌∷◌, ◌++◌, ◌⊎◌, eqb, refl, ap,
  arith,
}
use sqlitewrite.Base.Lists.{All}
use sqlitewrite.Text.{Text}
use sqlitewrite.Text.Dict.{lookup}
use sqlitewrite.Text.Decimal.{to_string}
use sqlitewrite.SqliteWriter.Query.{signed_to_string}
use sqlitewrite.PsqlWriter.Message.{Var, Message}
use sqlitewrite.PsqlWriter.Query.{
  parameter, row_parameters, all_strings, c_string, all_pointers, show,
}

-- The text is the beginning of `s` that ends at its first NUL, or all of `s` where it has none.
abbrev pub IsCString : Text → Text → Type 0
IsCString s t = All (λ c. c ≢ 0) t × ((s ≡ t) ⊎ ((rest : Text) × (s ≡ t ++ (0 ∷ rest))))

-- What libpq reads of the parameters.
abbrev pub AreRead : List (Option Text) → List (Option Text) → Type 0
AreRead [] [] = Unit
AreRead [] (q ∷ qs) = ⊥
AreRead (p ∷ ps) [] = ⊥
AreRead (none ∷ ps) (none ∷ qs) = AreRead ps qs
AreRead (none ∷ ps) (some t ∷ qs) = ⊥
AreRead (some s ∷ ps) (none ∷ qs) = ⊥
AreRead (some s ∷ ps) (some t ∷ qs) = IsCString s t × AreRead ps qs

c_string-IsCString : (s : Text) → IsCString s (c_string s)
unfolding c_string
c_string-IsCString [] = (tt, inl refl)
c_string-IsCString (c ∷ cs) = elim (Bool-cases (eqb c 0)) [
  | inl e ↦ let z : c ≡ 0 = ground (arith, e) in rw (e, z) (tt, inr (cs, refl))
  | inr e ↦
      let z : c ≢ 0 = ground (arith, e) in
      let (clean, cut) = c_string-IsCString cs in rw e ((z, clean), longer c cs (c_string cs) cut)
]
  where
    longer :
        (c : ℕ) (s t : Text)
        → (s ≡ t) ⊎ ((rest : Text) × (s ≡ t ++ (0 ∷ rest)))
        → (c ∷ s ≡ c ∷ t) ⊎ ((rest : Text) × (c ∷ s ≡ c ∷ (t ++ (0 ∷ rest))))
    longer c s t (inl same) = inl (ap (λ x. c ∷ x) same)
    longer c s t (inr (rest, same)) = inr (rest, ap (λ x. c ∷ x) same)

pub all_pointers-AreRead : (ps : List (Option Text)) → AreRead ps (all_pointers ps)
unfolding all_pointers
all_pointers-AreRead [] = tt
all_pointers-AreRead (none ∷ ps) = all_pointers-AreRead ps
all_pointers-AreRead (some s ∷ ps) = (c_string-IsCString s, all_pointers-AreRead ps)

module _ (show_double : ℕ → Text) where
  -- The parameter for a value: its text, or null where there is no value.
  abbrev pub IsPrinted : Option Var → Option Text → Type 0
  IsPrinted none p = p ≡ none
  IsPrinted (some (Var.string s)) p = p ≡ some s
  IsPrinted (some (Var.double d)) p = p ≡ some (show_double d)
  IsPrinted (some (Var.int32 z)) p = p ≡ some (signed_to_string z)
  IsPrinted (some (Var.uint32 n)) p = p ≡ some (to_string n)
  IsPrinted (some (Var.int64 z)) p = p ≡ some (signed_to_string z)

  pub parameter-IsPrinted :
      (m : Message) (f : Text) → IsPrinted (lookup f m.values) (parameter show_double m f)
  parameter-IsPrinted m f = printed (lookup f m.values)
    where
      printed :
          (o : Option Var)
          → IsPrinted o (elim o [ none ↦ none | some v ↦ some (show show_double v) ])
      printed none = refl
      printed (some (Var.string s)) = refl
      printed (some (Var.double d)) = refl
      printed (some (Var.int32 z)) = refl
      printed (some (Var.uint32 n)) = refl
      printed (some (Var.int64 z)) = refl

  -- The parameters of a message: for each field that of the message's value.
  abbrev pub PrintsRow : Message → List Text → List (Option Text) → Type 0
  PrintsRow m [] [] = Unit
  PrintsRow m [] (p ∷ ps) = ⊥
  PrintsRow m (f ∷ fs) [] = ⊥
  PrintsRow m (f ∷ fs) (p ∷ ps) = IsPrinted (lookup f m.values) p × PrintsRow m fs ps

  -- Those of all messages, one row after another.
  abbrev pub Prints : List Text → List Message → List (Option Text) → Type 0
  Prints fields [] ps = ps ≡ []
  Prints fields (m ∷ ms) ps =
      (row : List (Option Text)) × (rest : List (Option Text)) × (ps ≡ row ++ rest)
      × PrintsRow m fields row
      × Prints fields ms rest

  row_parameters-PrintsRow :
      (m : Message) (fields : List Text) → PrintsRow m fields (row_parameters show_double m fields)
  unfolding row_parameters
  row_parameters-PrintsRow m [] = tt
  row_parameters-PrintsRow m (f ∷ fs) = (parameter-IsPrinted m f, row_parameters-PrintsRow m fs)

  pub all_strings-Prints :
      (fields : List Text) (work : List Message)
      → Prints fields work (all_strings show_double fields work)
  unfolding all_strings
  all_strings-Prints fields [] = refl
  all_strings-Prints fields (m ∷ ms) =
      (_, _, refl, row_parameters-PrintsRow m fields, all_strings-Prints fields ms)
