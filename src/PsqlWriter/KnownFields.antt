-- ===== src/PsqlWriter/KnownFields.antt =====
-- Fields and messages whose names are among the columns of a table.
use sqlitewrite.Base.{◌≡◌, true, List, [], ◌∷◌, ◌++◌, arith}
use sqlitewrite.Base.Lists.{All}
use sqlitewrite.Text.{Text, text_eq}
use sqlitewrite.MiniSqlite.Schema.{Columns}
use sqlitewrite.MiniSqlite.Sorted.{has_name}
use sqlitewrite.MiniSqlite.Known.{Knows}
use sqlitewrite.PsqlWriter.Message.{Var, Message}
use sqlitewrite.PsqlWriter.Fields.{HasFields, HasNames}
use sqlitewrite.PsqlWriter.Thread.{contains}

pub Knows-append :
    (cols : Columns) (fields : List Text) (f : Text)
    → Knows cols fields
    → has_name f cols ≡ true
    → Knows cols (fields ++ (f ∷ []))
Knows-append cols [] f h e = (e, tt)
Knows-append cols (g ∷ fields) f (p, h) e = (p, Knows-append cols fields f h e)

Knows-contains :
    (cols : Columns) (fields : List Text) (f : Text)
    → Knows cols fields
    → contains f fields ≡ true
    → has_name f cols ≡ true
unfolding contains
Knows-contains cols [] f h e = cc
Knows-contains cols (g ∷ fields) f (p, h) e = ground (arith, p, e, Knows-contains cols fields f h)

-- The names of all values of the messages.
abbrev pub KnowsAll : Columns → List Message → Type 0
KnowsAll cols = All (λ m. All (λ (f, _). has_name f cols ≡ true) m.values)

Knows-HasNames :
    (cols : Columns) (fields : List Text) (values : List (Text × Var))
    → Knows cols fields
    → HasNames fields values
    → All (λ (f, _). has_name f cols ≡ true) values
Knows-HasNames cols fields [] k h = tt
Knows-HasNames cols fields ((f, v) ∷ values) k (p, h) =
    (Knows-contains cols fields f k p, Knows-HasNames cols fields values k h)

pub Knows-HasFields :
    (cols : Columns) (fields : List Text) (work : List Message)
    → Knows cols fields
    → HasFields fields work
    → KnowsAll cols work
Knows-HasFields cols fields [] k h = tt
Knows-HasFields cols fields (m ∷ work) k (p, h) =
    (Knows-HasNames cols fields m.values k p, Knows-HasFields cols fields work k h)
