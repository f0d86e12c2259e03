-- ===== src/SqliteWriter/Signature.antt =====
-- When the prepared statement of a table serves a row again.
use sqlitewrite.Base.{◌&&◌, false}
use sqlitewrite.SqliteWriter.Insert.{same_bool}
use sqlitewrite.SqliteWriter.Spec.{names_of}
use sqlitewrite.MiniSqlite.Db.{Db, stmt_of}
use sqlitewrite.MiniSqlite.Statement.{is_prepared}
use sqlitewrite.SqliteWriter.Insert.{Values, can_reuse, same_signature, lastreplace_of, lastsig_of}
use sqlitewrite.Base.{List, ◌∷◌, [], ◌≡◌, Bool, true, arith, refl, inl, some, Option-cases, inr}
use sqlitewrite.Text.Dict.{at, lookup}
use sqlitewrite.Text.{Text}
use sqlitewrite.Sqlite.{Stmt}
use sqlitewrite.SqliteWriter.Writer.{Writer}

-- The names of a row that fits the remembered signature are that signature.
pub same_signature-eq :
    (values : Values) (sig : List Text) → same_signature values sig ≡ true → names_of values ≡ sig
unfolding same_signature
same_signature-eq [] [] h = refl
same_signature-eq [] (s ∷ sig) h = cc
same_signature-eq (v ∷ values) [] h = cc
same_signature-eq ((name, v) ∷ values) (s ∷ sig) h = ground (arith, same_signature-eq values sig)

pub is_prepared-some :
    (table : Text) (db : Db)
    → is_prepared table db ≡ true
    → (s : Stmt) × (stmt_of table db ≡ some s)
unfolding is_prepared stmt_of at
is_prepared-some table db h = elim (Option-cases (lookup table db.stmts)) [
  | inl absent ↦ cc (rw (absent, is_prepared) at h)
  | inr (p, there) ↦ elim (Option-cases p) [
    | inl null ↦ cc (rw (there, null, is_prepared) at h)
    | inr (s, same) ↦ (s, rw (there, same))
  ]
]

pub reuse_parts :
    (table : Text) (values : Values) (replace : Bool) (w : Writer)
    → can_reuse table values replace w ≡ true
    → (is_prepared table w.db ≡ true)
      × (lastreplace_of table w ≡ replace)
      × (same_signature values (lastsig_of table w) ≡ true)
unfolding can_reuse
reuse_parts table values replace w h = ground arith

-- A statement that is there for the names and the mode of a row serves for it.
same_signature_refl : (values : Values) → same_signature values (names_of values) ≡ true
unfolding same_signature
same_signature_refl [] = refl
same_signature_refl ((name, v) ∷ values) = ground (arith, same_signature_refl values)

some-is_prepared :
    (table : Text) (db : Db) (s : Stmt) → stmt_of table db ≡ some s → is_prepared table db ≡ true
unfolding is_prepared stmt_of at
some-is_prepared table db s h = elim (Option-cases (lookup table db.stmts)) [
  | inl absent ↦ cc (rw absent at h)
  | inr (p, there) ↦ elim (Option-cases p) [
    | inl null ↦ cc (rw (there, null) at h)
    | inr (s, same) ↦ rw (there, same, is_prepared) refl
  ]
]

pub serves-can_reuse :
    (table : Text) (values : Values) (replace : Bool) (w : Writer) (s : Stmt)
    → stmt_of table w.db ≡ some s
    → lastsig_of table w ≡ names_of values
    → lastreplace_of table w ≡ replace
    → can_reuse table values replace w ≡ true
unfolding can_reuse
serves-can_reuse table values replace w s there sig rep =
    rw (some-is_prepared table w.db s there, sig, rep, same_signature_refl values)
      (same_bool_refl replace)
  where
    same_bool_refl : (b : Bool) → (true && (same_bool b b && true)) ≡ true
    same_bool_refl true = refl
    same_bool_refl false = refl
