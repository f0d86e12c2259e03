-- ===== src/PsqlWriter/Totals.antt =====
-- The numbers of values and of parameters of some messages.
use sqlitewrite.Base.{ℕ, suc, ◌+◌, ◌*◌, ◌≤◌, ◌≡◌, ◌∙◌, List, [], ◌∷◌, ◌++◌, refl, ap, ap₂, arith}
use sqlitewrite.Base.Lists.{length, length-append, All}
use sqlitewrite.Text.{Text, text_eq}
use sqlitewrite.PsqlWriter.Message.{Message}
use sqlitewrite.PsqlWriter.Query.{all_strings, row_parameters}
use sqlitewrite.PsqlWriter.Grouping.{for_table}

-- The number of values of some messages.
abbrev pub total : List Message → ℕ
total [] = 0
total (m ∷ ms) = length m.values + total ms

pub total-append : (xs ys : List Message) → total (xs ++ ys) ≡ total xs + total ys
total-append [] ys = omega arith
total-append (x ∷ xs) ys = omega (arith, total-append xs ys)

pub total-for_table : (t : Text) (ms : List Message) → total (for_table t ms) ≤ total ms
total-for_table t [] = omega arith
total-for_table t (m ∷ ms) = ground (arith, total-for_table t ms)

-- All messages have as many values as there are fields.
abbrev pub IsUniform : ℕ → List Message → Type 0
IsUniform n = All (λ m. length m.values ≡ n)

pub IsUniform-append : (n : ℕ) (xs ys : List Message) → IsUniform n (xs ++ ys) → IsUniform n ys
IsUniform-append n [] ys h = h
IsUniform-append n (x ∷ xs) ys (p, h) = IsUniform-append n xs ys h

pub total-IsUniform : (n : ℕ) (ms : List Message) → IsUniform n ms → total ms ≡ length ms * n
total-IsUniform n [] h = omega arith
total-IsUniform n (m ∷ ms) (p, h) = ground (arith, p, total-IsUniform n ms h)

length-row_parameters :
    (show_double : ℕ → Text) (m : Message) (fields : List Text)
    → length (row_parameters show_double m fields) ≡ length fields
unfolding row_parameters
length-row_parameters show_double m [] = refl
length-row_parameters show_double m (f ∷ fs) = ap suc (length-row_parameters show_double m fs)

pub length-all_strings :
    (show_double : ℕ → Text) (fields : List Text) (ms : List Message)
    → length (all_strings show_double fields ms) ≡ length ms * length fields
unfolding all_strings
length-all_strings show_double fields [] = omega arith
length-all_strings show_double fields (m ∷ ms) =
    length-append (row_parameters show_double m fields) (all_strings show_double fields ms)
    ∙ ap₂ ◌+◌ (length-row_parameters show_double m fields)
        (length-all_strings show_double fields ms)
    ∙ ground arith

pub length-for_table : (t : Text) (ms : List Message) → length (for_table t ms) ≤ length ms
length-for_table t [] = omega arith
length-for_table t (m ∷ ms) = ground (arith, length-for_table t ms)

pub total-one : (n : ℕ) (ms : List Message) → length ms ≤ 1 → IsUniform n ms → total ms ≤ n
total-one n [] l h = omega arith
total-one n (m ∷ []) l (p, h) = omega (arith, p)
total-one n (m ∷ k ∷ ms) l h = absurd (omega (arith, l))
