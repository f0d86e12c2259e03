-- ===== src/PsqlWriter/Grouping.antt =====
-- A batch holds the messages that were read, by table and in order.
use sqlitewrite.Base.{◌∙◌}
use mathlib.Core.Path.{subst, ap}
use sqlitewrite.Base.Lists.{length}
use sqlitewrite.Base.{
  ℕ, zero, suc, ◌+◌, ◌≤◌, ◌≡◌, List, [], ◌∷◌, ◌++◌, ◌==◌, if◌then◌else◌, ltb, Bool-cases,
  append-nil, append_assoc, refl, sym, inr, arith, inl,
}
use sqlitewrite.Text.{Text, text_eq, text_dec}
use sqlitewrite.Text.Dict.{at, at-insert, insert}
use sqlitewrite.PsqlWriter.Message.{Message}
use sqlitewrite.PsqlWriter.Batch.Read.{message, closed, again, failed, wait_failed}
use sqlitewrite.PsqlWriter.Batch.{
  Read, Work, Round, push_work, at_end, collect, next_round, message, wait_failed,
}

-- The messages among `k` reads from `pos` on.
abbrev pub received : (ℕ → Read) → ℕ → ℕ → List Message
received reads pos zero = []
received reads pos (suc k) = elim (reads pos) [
  | message msg ↦ msg ∷ received reads (pos + 1) k
  | closed ↦ received reads (pos + 1) k
  | again ↦ received reads (pos + 1) k
  | failed ↦ received reads (pos + 1) k
  | wait_failed why ↦ received reads (pos + 1) k
]

abbrev pub for_table : Text → List Message → List Message
for_table t [] = []
for_table t (m ∷ ms) = if t == m.table then m ∷ for_table t ms else for_table t ms

-- The work is that of the reads from `pos` to `next`, at most `left` of them, after the work `before`.
pub record Grouped (reads : ℕ → Read) (left pos : ℕ) (before after : Work) (next : ℕ) : Type 0 where
  pub count : ℕ
  pub next_eq : next ≡ pos + count
  pub few : count ≤ left
  pub each : (t : Text) → at [] t after ≡ at [] t before ++ for_table t (received reads pos count)

abbrev Groups : (ℕ → Read) → ℕ → ℕ → Work → Round → Type 0
Groups reads left pos before Round.finished = Unit
Groups reads left pos before (Round.threw why) = Unit
Groups reads left pos before (Round.work after next) = Grouped reads left pos before after next

nothing : (reads : ℕ → Read) (left pos : ℕ) (w : Work) → Grouped reads left pos w w pos
nothing reads left pos w = record {
  count = 0;
  next_eq = omega arith;
  few = omega arith;
  each = λ t. sym (append-nil (at [] t w));
}

-- A read that brings no message.
no_message :
    (reads : ℕ → Read) (left pos : ℕ) (w : Work)
    → received reads pos 1 ≡ []
    → Grouped reads (suc left) pos w w (pos + 1)
no_message reads left pos w h = record {
  count = 1;
  next_eq = refl;
  few = omega arith;
  each = λ t. rw h (sym (append-nil (at [] t w)));
}

step_message :
    (reads : ℕ → Read) (pos k : ℕ) (msg : Message)
    → reads pos ≡ Read.message msg
    → received reads pos (suc k) ≡ msg ∷ received reads (pos + 1) k
step_message reads pos k msg e = rw (e, received) refl

one_more :
    (reads : ℕ → Read) (left pos next : ℕ) (msg : Message) (w after : Work)
    → reads pos ≡ Read.message msg
    → Grouped reads left (pos + 1) (push_work msg w) after next
    → Grouped reads (suc left) pos w after next
unfolding push_work
one_more reads left pos next msg w after e g = record {
  count = suc g.count;
  next_eq = omega (arith, g.next_eq);
  few = omega (arith, g.few);
  each = λ t.
      g.each t
      ∙ pushed t (received reads (pos + 1) g.count)
      ∙ ap (λ ms. at [] t w ++ for_table t ms) (sym (step_message reads pos g.count msg e));
}
  where
    pushed :
        (t : Text) (ms : List Message)
        → at [] t (insert msg.table (at [] msg.table w ++ (msg ∷ [])) w) ++ for_table t ms
          ≡ at [] t w ++ for_table t (msg ∷ ms)
    pushed t ms =
        rw (at-insert [] t msg.table (at [] msg.table w ++ (msg ∷ [])) w)
          (split_ (text_dec t msg.table))
      where
        split_ :
            (d : Dec (t ≡ msg.table))
            → (if t == msg.table then at [] msg.table w ++ (msg ∷ []) else at [] t w)
                ++ for_table t ms
              ≡ at [] t w ++ for_table t (msg ∷ ms)
        split_ (yes p) =
            ground (
              arith,
              p,
              append_assoc (at [] t w) (msg ∷ []) (for_table t ms),
              ap (λ t. at [] t w) p,
            )
        split_ (no p) = ground (arith, p)

collect-Groups :
    (reads : ℕ → Read) (left pos sum : ℕ) (w : Work)
    → Groups reads left pos w (collect reads left pos sum w)
unfolding collect at_end
collect-Groups reads zero pos sum w = nothing reads zero pos w
collect-Groups reads (suc left) pos sum w = elim (Bool-cases (ltb sum 60000)) [
  | inr e ↦ rw (e, Groups, collect) (nothing reads (suc left) pos w)
  | inl e ↦
      rw (e, Groups, collect)
        (go (λ msg. collect-Groups reads left (pos + 1) (sum + length msg.values) (push_work msg w))
          (reads pos) refl)
]
  where
    ended :
        (w : Work)
        → Grouped reads (suc left) pos w w (pos + 1)
        → Groups reads (suc left) pos w (at_end w (pos + 1))
    ended [] g = tt
    ended (x ∷ xs) g = g

    more :
        (msg : Message) (r : Round)
        → reads pos ≡ Read.message msg
        → Groups reads left (pos + 1) (push_work msg w) r
        → Groups reads (suc left) pos w r
    more msg Round.finished e g = tt
    more msg (Round.threw why) e g = tt
    more msg (Round.work after next) e g = one_more reads left pos next msg w after e g

    go :
        ((msg : Message)
          → Groups reads left
              (pos + 1)
              (push_work msg w)
              (collect reads left (pos + 1) (sum + length msg.values) (push_work msg w)))
        → (r : Read) → reads pos ≡ r
        → Groups reads (suc left) pos w (elim r [
          | closed ↦ at_end w (pos + 1)
          | failed ↦ Round.finished
          | again ↦ Round.work w (pos + 1)
          | wait_failed why ↦ Round.threw why
          | message msg ↦ collect reads left (pos + 1) (sum + length msg.values) (push_work msg w)
        ])
    go ih Read.closed e = ended w (no_message reads left pos w (rw (e, received) refl))
    go ih Read.failed e = tt
    go ih (Read.wait_failed why) e = tt
    go ih Read.again e = no_message reads left pos w (rw (e, received) refl)
    go ih (Read.message msg) e = more msg _ e (ih msg)

-- A round that has work has taken at most 10000 reads from the pipe, one after another, and its work
-- has for each table the messages for this table among these reads, in the order of their arrival.
pub next_round-Grouped :
    (reads : ℕ → Read) (pos next : ℕ) (work : Work)
    → next_round reads pos ≡ Round.work work next
    → Grouped reads 10000 pos [] work next
unfolding next_round
next_round-Grouped reads pos next work h =
    subst (Groups reads 10000 pos []) h (collect-Groups reads 10000 pos 0 [])
