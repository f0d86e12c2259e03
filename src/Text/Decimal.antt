-- ===== src/Text/Decimal.antt =====
-- `std::to_string` of an unsigned number: its decimal digits.
use sqlitewrite.Base.{ℕ, zero, suc, ◌+◌, ◌/◌, ◌%◌, [], ◌∷◌, ◌++◌, ltb, if◌then◌else◌}
use sqlitewrite.Text.{Text}

-- `n + 1` rounds are enough, since `n / 10` falls below `n`.
digits : ℕ → ℕ → Text
digits zero n = []
digits (suc fuel) n =
    let front = digits fuel (n / 10) in
    if ltb n 10 then (48 + n) ∷ [] else front ++ ((48 + n % 10) ∷ [])

unfoldable pub to_string : ℕ → Text
unfolding digits
to_string n = digits (suc n) n
