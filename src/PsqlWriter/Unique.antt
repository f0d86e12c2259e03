-- ===== src/PsqlWriter/Unique.antt =====
-- A batch has each table once, so that its order does not matter to the messages of a table.
use mathlib.Core.Path.{subst}
use sqlitewrite.Base.{
  ℕ, zero, suc, ◌+◌, ◌≡◌, ◌≢◌, Bool, none, List, [], ◌∷◌, ◌++◌, ◌==◌, if◌then◌else◌, ltb,
  Bool-cases, append-nil, arith, inl, inr, refl, ◌∙◌, ap,
}
use sqlitewrite.Base.Lists.{length}
use sqlitewrite.Sort.{sort, insert_by}
use sqlitewrite.Text.{Text, text_eq}
use sqlitewrite.Text.Dict.{at, lookup, insert, lookup-insert}
use sqlitewrite.PsqlWriter.Message.{Message}
use sqlitewrite.PsqlWriter.Batch.{Read, Work, Round, push_work, at_end, collect, next_round}

abbrev pub Unique : Work → Type 0
Unique [] = Unit
Unique ((t, ms) ∷ w) = (lookup t w ≡ none) × Unique w

-- The messages of all entries of a table.
abbrev pub works : Text → Work → List Message
works t [] = []
works t ((u, ms) ∷ w) = (if t == u then ms else []) ++ works t w

insert-Unique : (t : Text) (ms : List Message) (w : Work) → Unique w → Unique (insert t ms w)
unfolding insert lookup
insert-Unique t ms [] u = (refl, tt)
insert-Unique t ms ((s, ns) ∷ w) (fresh, u) =
    ground (arith, fresh, u, insert-Unique t ms w u, lookup-insert s t ms w)

works-absent : (t : Text) (w : Work) → lookup t w ≡ none → works t w ≡ []
unfolding lookup
works-absent t [] h = refl
works-absent t ((s, ns) ∷ w) h = ground (arith, h, works-absent t w)

pub works-at : (t : Text) (w : Work) → Unique w → works t w ≡ at [] t w
unfolding at lookup
works-at t [] u = refl
works-at t ((s, ns) ∷ w) (fresh, u) =
    ground (arith, fresh, u, works-at t w u, works-absent t w, append-nil ns)

module _ (less : Text × List Message → Text × List Message → Bool) where
  lookup-insert_by :
      (t s : Text) (ms : List Message) (w : Work)
      → t ≢ s
      → lookup t (insert_by less (s, ms) w) ≡ lookup t w
  unfolding insert_by lookup
  lookup-insert_by t s ms [] ne = ground arith
  lookup-insert_by t s ms ((u, ns) ∷ w) ne = ground (arith, ne, lookup-insert_by t s ms w ne)

  works-insert_by :
      (t s : Text) (ms : List Message) (w : Work)
      → lookup s w ≡ none
      → works t (insert_by less (s, ms) w) ≡ works t ((s, ms) ∷ w)
  unfolding insert_by lookup
  works-insert_by t s ms [] h = refl
  works-insert_by t s ms ((u, ns) ∷ w) h = ground (arith, h, works-insert_by t s ms w)

  lookup-sort : (t : Text) (w : Work) → lookup t w ≡ none → lookup t (sort less w) ≡ none
  unfolding sort lookup
  lookup-sort t [] h = refl
  lookup-sort t ((s, ns) ∷ w) h =
      ground (arith, h, lookup-sort t w, lookup-insert_by t s ns (sort less w))

  -- Sorting leaves the messages of each table as they are.
  pub works-sort : (t : Text) (w : Work) → Unique w → works t (sort less w) ≡ works t w
  unfolding sort
  works-sort t [] u = refl
  works-sort t ((s, ns) ∷ w) (fresh, u) =
      works-insert_by t s ns (sort less w) (lookup-sort s w fresh)
      ∙ ap (λ ms. (if t == s then ns else []) ++ ms) (works-sort t w u)

abbrev IsUniqueRound : Round → Type 0
IsUniqueRound Round.finished = Unit
IsUniqueRound (Round.threw why) = Unit
IsUniqueRound (Round.work w next) = Unique w

collect-Unique :
    (reads : ℕ → Read) (left pos sum : ℕ) (w : Work)
    → Unique w
    → IsUniqueRound (collect reads left pos sum w)
unfolding collect at_end push_work
collect-Unique reads zero pos sum w u = u
collect-Unique reads (suc left) pos sum w u = elim (Bool-cases (ltb sum 60000)) [
  | inr e ↦ rw (e, IsUniqueRound, collect) u
  | inl e ↦
      rw (e, IsUniqueRound, collect)
        (go
          (λ msg.
            collect-Unique reads left (pos + 1) (sum + length msg.values) (push_work msg w)
              (insert-Unique msg.table _ w u))
          (reads pos))
]
  where
    ended : (w : Work) → Unique w → IsUniqueRound (at_end w (pos + 1))
    ended [] u = tt
    ended (x ∷ w) u = u

    go :
        ((msg : Message)
          → IsUniqueRound
              (collect reads left (pos + 1) (sum + length msg.values) (push_work msg w)))
        → (r : Read)
        → IsUniqueRound (elim r [
          | Read.closed ↦ at_end w (pos + 1)
          | Read.failed ↦ Round.finished
          | Read.again ↦ Round.work w (pos + 1)
          | Read.wait_failed why ↦ Round.threw why
          | Read.message msg ↦
              collect reads left (pos + 1) (sum + length msg.values) (push_work msg w)
        ])
    go ih Read.closed = ended w u
    go ih Read.failed = tt
    go ih (Read.wait_failed why) = tt
    go ih Read.again = u
    go ih (Read.message msg) = ih msg

pub next_round-Unique :
    (reads : ℕ → Read) (pos next : ℕ) (w : Work)
    → next_round reads pos ≡ Round.work w next
    → Unique w
unfolding next_round
next_round-Unique reads pos next w h =
    subst IsUniqueRound h (collect-Unique reads 10000 pos 0 [] tt)
