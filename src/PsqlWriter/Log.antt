-- ===== src/PsqlWriter/Log.antt =====
-- A list of messages by table, and the insert statements that carry it.
use sqlitewrite.PsqlWriter.Parameters.{insert_text}
use sqlitewrite.PsqlWriter.Printed.{Prints, AreRead}
use sqlitewrite.PsqlWriter.Once.{Once, appears}
use sqlitewrite.Text.Order.{text_lt}
use sqlitewrite.PsqlWriter.Message.{Message}
use sqlitewrite.Sort.{sort}
use sqlitewrite.Base.Lists.{All}
use sqlitewrite.Text.{Text, text_eq}
use sqlitewrite.Base.{
  List, ℕ, ◌∷◌, ◌++◌, ◌≡◌, ap, ◌∙◌, [], ap₂, if◌then◌else◌, ◌==◌, refl, sym, append_assoc, Option,
}
use sqlitewrite.MiniPsql.Requests.{Request}
use sqlitewrite.PsqlWriter.Delivery.{all_work}
use sqlitewrite.PsqlWriter.Unique.{Unique, works, works-at, works-sort}
use sqlitewrite.PsqlWriter.Batch.{Work}

works-append : (t : Text) (xs ys : Work) → works t (xs ++ ys) ≡ works t xs ++ works t ys
works-append t [] ys = refl
works-append t ((u, ms) ∷ xs) ys =
    ap (λ rest. (if t == u then ms else []) ++ rest) (works-append t xs ys)
    ∙ sym (append_assoc (if t == u then ms else []) (works t xs) (works t ys))

-- The batches, each in the order of its tables.
abbrev pub in_order : List Work → Work
in_order [] = []
in_order (w ∷ ws) = sort (λ (a, _) (b, _). text_lt a b) w ++ in_order ws

pub works-in_order :
    (t : Text) (batches : List Work)
    → All Unique batches
    → works t (in_order batches) ≡ all_work t batches
works-in_order t [] u = refl
works-in_order t (w ∷ ws) (u, us) =
    works-append t (sort _ w) (in_order ws)
    ∙ ap₂ ◌++◌ (works-sort _ t w u ∙ works-at t w u) (works-in_order t ws us)

module _ (show_double : ℕ → Text) where
  -- The request is the insert statement of these messages of a table: its fields are the names of
  -- all values, each once, and its parameters are the printed values, message by message, null
  -- where a message has none. libpq reads each up to its first NUL.
  abbrev pub Inserts : Text × List Message → Request → Type 0
  Inserts (table, work) (query, params) =
      (fields : List Text) × (strings : List (Option Text)) × Once (λ f. appears f work) fields
      × (query ≡ insert_text table fields work)
      × Prints show_double fields work strings
      × AreRead strings params

  -- One request for each entry, in their order.
  abbrev pub Carries : Work → List Request → Type 0
  Carries [] [] = Unit
  Carries [] (r ∷ rs) = ⊥
  Carries (e ∷ log) [] = ⊥
  Carries (e ∷ log) (r ∷ rs) = Inserts e r × Carries log rs

  pub Carries-append :
      (log : Work) (rs : List Request) (e : Text × List Message) (r : Request)
      → Carries log rs
      → Inserts e r
      → Carries (log ++ (e ∷ [])) (rs ++ (r ∷ []))
  Carries-append [] [] e r c i = (i, tt)
  Carries-append [] (x ∷ rs) e r c i = absurd c
  Carries-append (x ∷ log) [] e r c i = absurd c
  Carries-append (x ∷ log) (y ∷ rs) e r (j, c) i = (j, Carries-append log rs e r c i)
