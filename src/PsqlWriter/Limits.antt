-- ===== src/PsqlWriter/Limits.antt =====
-- The size of a batch, and of the statement of a table in it.
use sqlitewrite.PsqlWriter.Totals.{
  total, IsUniform, total-append, total-for_table, IsUniform-append, total-IsUniform,
  length-all_strings, length-for_table, total-one,
}
use mathlib.Core.Path.{subst}
use sqlitewrite.Base.{
  Bool-cases, inl, inr, ℕ, zero, suc, ◌+◌, ◌≤◌, ◌<◌, ◌≡◌, ◌∙◌, List, [], ◌∷◌, ◌++◌, ltb, refl, sym,
  ap, arith,
}
use sqlitewrite.Base.Lists.{length}
use sqlitewrite.Text.{Text, text_eq}
use sqlitewrite.Text.Dict.{at, lookup}
use sqlitewrite.PsqlWriter.Message.{Message}
use sqlitewrite.PsqlWriter.Batch.{Read, Work, Round, push_work, at_end, collect, next_round}
use sqlitewrite.PsqlWriter.Query.{all_strings}
use sqlitewrite.PsqlWriter.Grouping.{received, for_table, Grouped, next_round-Grouped}
use sqlitewrite.PsqlWriter.Delivery.{received-add, for_table-append}

-- All reads but the last one bring fewer than 60000 values, and all but the last one are fewer than `left`.
abbrev Limits : (ℕ → Read) → ℕ → ℕ → ℕ → Round → Type 0
Limits reads left pos sum Round.finished = Unit
Limits reads left pos sum (Round.threw why) = Unit
Limits reads left pos sum (Round.work w next) =
    (k : ℕ) → next ≡ pos + suc k → (sum + total (received reads pos k) < 60000) × (k < left)

module _ (reads : ℕ → Read) where
  collect-Limits :
      (left pos sum : ℕ) (w : Work) → Limits reads left pos sum (collect reads left pos sum w)
  unfolding collect at_end
  collect-Limits zero pos sum w = λ k e. absurd (omega (arith, e))
  collect-Limits (suc left) pos sum w = elim (Bool-cases (ltb sum 60000)) [
    | inr e ↦ rw (e, Limits, collect) (λ k f. absurd (omega (arith, f)))
    | inl e ↦
        rw (e, Limits, collect)
          (go (ground (arith, e))
            (λ msg. collect-Limits left (pos + 1) (sum + length msg.values) (push_work msg w))
            (reads pos) refl)
  ]
    where
      one :
          sum < 60000
          → (k : ℕ) → pos + 1 ≡ pos + suc k
          → (sum + total (received reads pos k) < 60000) × (k < suc left)
      one l zero e = (omega (arith, l), omega arith)
      one l (suc k) e = absurd (omega (arith, e))

      ended : sum < 60000 → (w : Work) → Limits reads (suc left) pos sum (at_end w (pos + 1))
      ended l [] = tt
      ended l (x ∷ w) = one l

      more :
          (msg : Message) (r : Round)
          → sum < 60000
          → reads pos ≡ Read.message msg
          → Limits reads left (pos + 1) (sum + length msg.values) r
          → Limits reads (suc left) pos sum r
      more msg Round.finished l e h = tt
      more msg (Round.threw why) l e h = tt
      more msg (Round.work v next) l e h = step
        where
          step :
              (k : ℕ)
              → next ≡ pos + suc k
              → (sum + total (received reads pos k) < 60000) × (k < suc left)
          step zero f = (omega (arith, l), omega arith)
          step (suc k) f =
              let (a, b) = h k (omega (arith, f)) in
              let r : received reads pos (suc k) ≡ msg ∷ received reads (pos + 1) k =
                rw (e, received) refl in
              (rw r (omega (arith, a)), omega (arith, b))

      go :
          sum < 60000
          → ((msg : Message)
              → Limits reads left
                  (pos + 1)
                  (sum + length msg.values)
                  (collect reads left (pos + 1) (sum + length msg.values) (push_work msg w)))
          → (r : Read) → reads pos ≡ r
          → Limits reads (suc left) pos sum (elim r [
            | Read.closed ↦ at_end w (pos + 1)
            | Read.failed ↦ Round.finished
            | Read.again ↦ Round.work w (pos + 1)
            | Read.wait_failed why ↦ Round.threw why
            | Read.message msg ↦
                collect reads left (pos + 1) (sum + length msg.values) (push_work msg w)
          ])
      go l ih Read.closed e = ended l w
      go l ih Read.failed e = tt
      go l ih (Read.wait_failed why) e = tt
      go l ih Read.again e = one l
      go l ih (Read.message msg) e = more msg _ l e (ih msg)

  -- The reads of a round with work, without the last one, are fewer than 10000 and bring fewer than
  -- 60000 values.
  pub next_round-Limits :
      (pos next k : ℕ) (w : Work)
      → next_round reads pos ≡ Round.work w next
      → next ≡ pos + suc k
      → (total (received reads pos k) < 60000) × (k < 10000)
  unfolding next_round
  next_round-Limits pos next k w h e =
      let (a, b) = subst (Limits reads 10000 pos 0) h (collect-Limits 10000 pos 0 []) k e in
      (omega (arith, a), b)

module _ (reads : ℕ → Read) where
  length-received : (pos : ℕ) → length (received reads pos 1) ≤ 1
  length-received pos = go (reads pos) refl
    where
      go : (r : Read) → reads pos ≡ r → length (received reads pos 1) ≤ 1
      go Read.closed e = rw (e, received) (omega arith)
      go Read.failed e = rw (e, received) (omega arith)
      go (Read.wait_failed why) e = rw (e, received) (omega arith)
      go Read.again e = rw (e, received) (omega arith)
      go (Read.message msg) e = rw (e, received) (omega arith)

  -- One read more adds the values of one message at most.
  total-last :
      (t : Text) (pos k n : ℕ)
      → IsUniform n (for_table t (received reads pos (k + 1)))
      → total (for_table t (received reads pos (k + 1))) ≤ total (received reads pos k) + n
  total-last t pos k n h =
      let first = for_table t (received reads pos k) in
      let last = for_table t (received reads (pos + k) 1) in
      let split_ : for_table t (received reads pos (k + 1)) ≡ first ++ last =
        ap (for_table t) (received-add reads pos k 1)
        ∙ for_table-append t (received reads pos k) (received reads (pos + k) 1) in
      let u : IsUniform n last = IsUniform-append n first last (subst (IsUniform n) split_ h) in
      let few : total last ≤ n =
        total-one n last
          (omega
            (arith, length-for_table t (received reads (pos + k) 1), length-received (pos + k)))
          u in
      omega (
        arith,
        ap total split_,
        total-append first last,
        total-for_table t (received reads pos k),
        few,
      )

-- Where all messages for a table in a round have as many values as the table's fields, the insert
-- statement of the table has fewer than 60000 parameters more than there are fields.
pub length-all_strings-bounded :
    (show_double : ℕ → Text) (reads : ℕ → Read) (pos next : ℕ) (w : Work) (t : Text)
    (fields : List Text)
    → next_round reads pos ≡ Round.work w next
    → IsUniform (length fields) (at [] t w)
    → length (all_strings show_double fields (at [] t w)) < 60000 + length fields
unfolding at lookup
length-all_strings-bounded show_double reads pos next w t fields h u = go g.count refl
  where
    g : Grouped reads 10000 pos [] w next
    g = next_round-Grouped reads pos next w h

    here : length (all_strings show_double fields (at [] t w)) ≡ total (at [] t w)
    here = length-all_strings show_double fields (at [] t w) ∙ sym (total-IsUniform _ _ u)

    all : (k : ℕ) → g.count ≡ k → at [] t w ≡ for_table t (received reads pos k)
    all k e = g.each t ∙ ap (λ k. for_table t (received reads pos k)) e

    go :
        (count : ℕ)
        → g.count ≡ count
        → length (all_strings show_double fields (at [] t w)) < 60000 + length fields
    go zero e = omega (arith, here, ap total (all 0 e))
    go (suc k) e =
        let f : at [] t w ≡ for_table t (received reads pos (k + 1)) =
          all (k + 1) (omega (arith, e)) in
        let last =
          total-last reads t pos k (length fields) (subst (IsUniform (length fields)) f u) in
        let (few, less) = next_round-Limits reads pos next k w h (omega (arith, g.next_eq, e)) in
        omega (arith, here, ap total f, last, few)
