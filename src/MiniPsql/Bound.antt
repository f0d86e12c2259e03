-- ===== src/MiniPsql/Bound.antt =====
-- Parameters that are bound, and rows that come back.
use sqlitewrite.Base.{ℕ, zero, suc, ◌≡◌, List, [], ◌∷◌, eqb, if◌then◌else◌, refl, arith, ◌==◌, ◌&&◌}
use sqlitewrite.Base.Exec.{modify}
use sqlitewrite.Text.{Text, text_eq}
use sqlitewrite.Text.Dict.{at-insert, at}
use sqlitewrite.MiniPsql.Db.{Db}
use sqlitewrite.MiniPsql.Statement.{put, params_of, bind_param}

-- The parameter at a position, where those that no call has bound are empty.
abbrev pub param_at : List Text → ℕ → Text
param_at [] i = []
param_at (x ∷ xs) zero = x
param_at (x ∷ xs) (suc i) = param_at xs i

param_at-put :
    (xs : List Text) (pos i : ℕ) (value : Text)
    → param_at (put xs pos value) i ≡ (if eqb i pos then value else param_at xs i)
unfolding put
param_at-put [] zero zero value = refl
param_at-put [] zero (suc i) value = ground arith
param_at-put [] (suc pos) zero value = ground arith
param_at-put [] (suc pos) (suc i) value = ground (arith, param_at-put [] pos i value)
param_at-put (x ∷ xs) zero zero value = refl
param_at-put (x ∷ xs) zero (suc i) value = ground arith
param_at-put (x ∷ xs) (suc pos) zero value = ground arith
param_at-put (x ∷ xs) (suc pos) (suc i) value = ground (arith, param_at-put xs pos i value)

-- Binding parameter `pos + 1` of a table sets it, and leaves the other parameters of this table and
-- those of all other tables as they are.
pub param_at-bind_param :
    (table : Text) (pos : ℕ) (value : Text) (db : Db) (t : Text) (i : ℕ)
    → param_at (params_of t (bind_param table (suc pos) value db).1) i
      ≡ (if t == table && eqb i pos then value else param_at (params_of t db) i)
unfolding bind_param params_of modify
param_at-bind_param table pos value db t i = ground (
  arith,
  at-insert [] t table (put (at [] table db.params) pos value) db.params,
  param_at-put (at [] table db.params) pos i value,
)
