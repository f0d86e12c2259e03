-- ===== src/SqliteWriter/Loop.antt =====
-- The loop of `addValueGeneric` builds the insert statement of the row.
use sqlitewrite.SqliteWriter.Writer.{Writer}
use sqlitewrite.Base.{
  ℕ, ◌≡◌, refl, ap, sym, ◌∙◌, Bool, true, false, List, [], ◌∷◌, ◌++◌, map, append-nil, append_assoc,
}
use sqlitewrite.Base.Hoare.{Ensures, ensures_bind, ensures_pure, ensures_weaken, Keeps}
use sqlitewrite.Base.Lists.{length, replicate}
use sqlitewrite.Text.{Text, codes}
use sqlitewrite.Sqlite.{Engine, Call}
use sqlitewrite.SqliteWriter.Insert.{Values, comma_unless, column_loop}
use sqlitewrite.SqliteWriter.Spec.{comma_separated, quoted, names_of}
use sqlitewrite.SqliteWriter.Frame.{IsFramedWriterFor, ensure_column-Keeps}
use sqlitewrite.MiniSqlite.Frame.{AllowsExec}

-- Texts, each with what `comma_unless` puts in front.
abbrev pub loop_text : Bool → List Text → Text
loop_text first [] = []
loop_text first (x ∷ xs) = comma_unless first ++ (x ++ loop_text false xs)

pub loop_text-eq-comma_separated : (xs : List Text) → loop_text true xs ≡ comma_separated xs
loop_text-eq-comma_separated [] = refl
loop_text-eq-comma_separated (x ∷ []) = append-nil x
loop_text-eq-comma_separated (x ∷ y ∷ xs) =
    ap (λ t. x ++ (codes ", " ++ t)) (loop_text-eq-comma_separated (y ∷ xs))

abbrev pub marks : ℕ → List Text
marks n = replicate n (codes "?")

module _ {Allowed : Call → Type 0} (P : Writer → Type 0) (f : IsFramedWriterFor Allowed P)
    (execs : AllowsExec Allowed) (e : Engine) where
  -- When the loop ends, the pieces of the query are there, and nothing but columns has changed.
  pub column_loop_text :
      (table : Text) (values : Values) (first : Bool) (q qmarks : Text)
      → Ensures P
          (column_loop e table values first q qmarks)
          (λ r w.
            (r ≡ (
              q ++ loop_text first (map quoted (names_of values)),
              qmarks ++ loop_text first (marks (length (names_of values))),
            ))
            × P w)
          P
  unfolding column_loop
  column_loop_text table [] first q qmarks =
      ensures_pure _ (λ w p. (λ i. (sym (append-nil q) i, sym (append-nil qmarks) i), p))
  column_loop_text table ((name, v) ∷ values) first q qmarks =
      ensures_bind (ensure_column-Keeps P f execs e table name v) λ _.
        ensures_weaken (λ w p. p) (λ r w (same, p). (same ∙ simp append_assoc, p)) (λ w p. p)
          (column_loop_text table values false _ _)

  pub column_loop-Keeps :
      (table : Text) (values : Values) (first : Bool) (q qmarks : Text)
      → Keeps P (column_loop e table values first q qmarks)
  column_loop-Keeps table values first q qmarks =
      ensures_weaken (λ w p. p) (λ _ w p. p.1) (λ w p. p)
        (column_loop_text table values first q qmarks)
