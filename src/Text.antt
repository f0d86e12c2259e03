-- ===== src/Text.antt =====
-- `std::string` and `std::string_view`: a text is its bytes. Also the unordered and the ordered
-- maps keyed by texts, and `std::to_string` of a number.
pub mod Order
pub mod Dict
pub mod Decimal
use Prim.Native.Char.{code}
use Prim.Native.String.{String}
use mathlib.Core.List.{head-eq_of_cons-eq, tail-eq_of_cons-eq}
use native.Mathlib.Decide.{ℕ_discrete}
use sqlitewrite.Base.{ℕ, suc, List, [], ◌∷◌, Option, none, some, Eq, eqb, if◌then◌else◌, ◌≡◌, refl}
use mathlib.Core.Option

abbrev pub Text : Type 0
Text = List ℕ

-- The bytes of an ASCII literal of the source.
unfoldable pub codes : String → Text
codes String.[] = []
codes (String.◌∷◌ c s) = code c ∷ codes s

cons_dec :
    {x y : ℕ} {xs ys : Text} → Dec (x ≡ y) → Dec (xs ≡ ys) → Dec (◌≡◌ {A = Text} (x ∷ xs) (y ∷ ys))
cons_dec (yes p) (yes q) = yes (cc)
cons_dec (yes p) (no q) = no (λ e. q (tail-eq_of_cons-eq e))
cons_dec (no p) _ = no (λ e. p (head-eq_of_cons-eq e))

unfoldable pub text_dec : Discrete Text
unfolding cons_dec ℕ_discrete
text_dec [] [] = yes refl
text_dec [] (y ∷ ys) = no (λ e. cc)
text_dec (x ∷ xs) [] = no (λ e. cc)
text_dec (x ∷ xs) (y ∷ ys) = cons_dec (ℕ_discrete x y) (text_dec xs ys)

instance abbrev pub text_eq : Eq Text
text_eq = record { dec = text_dec }

-- `s.find(c)`, where `none` is `string::npos`.
unfoldable pub find : ℕ → Text → Option ℕ
find c [] = none
find c (x ∷ xs) = if eqb x c then some 0 else Option.map suc (find c xs)
