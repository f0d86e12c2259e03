-- ===== src/PsqlWriter/Delivery.antt =====
-- What the thread does with the messages of a pipe that comes to its end.
use sqlitewrite.PsqlWriter.Unique.{next_round-Unique, Unique}
use sqlitewrite.Base.Lists.{All}
use mathlib.Core.Path.{subst}
use sqlitewrite.Base.{
  Bool-cases, inl, inr, ℕ, zero, suc, ◌+◌, ◌-◌, ◌≤◌, ◌<◌, ◌≡◌, ◌∙◌, List, [], ◌∷◌, ◌++◌, ltb,
  append_assoc, refl, sym, ap, ap₂, arith,
}
use sqlitewrite.Base.Exec.{Exec, ◌>>=◌, ◌>>◌}
use sqlitewrite.Text.{Text, text_eq, codes}
use sqlitewrite.Text.Dict.{at, lookup}
use sqlitewrite.Text.Order.{text_lt}
use sqlitewrite.Sort.{sort}
use sqlitewrite.MiniPsql.Db.{Server, History, exec}
use sqlitewrite.MiniPsql.Statement.{disconnect}
use sqlitewrite.PsqlWriter.Message.{Message}
use sqlitewrite.PsqlWriter.Batch.{Read, Work, Round, next_round}
use sqlitewrite.PsqlWriter.Grouping.{received, for_table, next_round-Grouped}
use sqlitewrite.PsqlWriter.Thread.{Worker, on_mp, work_loop, thread_rounds}
use sqlitewrite.PsqlWriter.Ending.{PipeEnds, Works, next_round-Works, next_round-finished}

pub for_table-append :
    (t : Text) (xs ys : List Message) → for_table t (xs ++ ys) ≡ for_table t xs ++ for_table t ys
for_table-append t [] ys = refl
for_table-append t (x ∷ xs) ys = ground (arith, for_table-append t xs ys)

-- The messages for a table in all batches, one batch after another.
abbrev pub all_work : Text → List Work → List Message
all_work t [] = []
all_work t (w ∷ ws) = at [] t w ++ all_work t ws

module _ (reads : ℕ → Read) where
  received-one :
      (pos k : ℕ) → received reads pos (suc k) ≡ received reads pos 1 ++ received reads (pos + 1) k
  received-one pos k = go (reads pos) refl
    where
      go :
          (r : Read)
          → reads pos ≡ r
          → received reads pos (suc k) ≡ received reads pos 1 ++ received reads (pos + 1) k
      go Read.closed e = rw (e, received) refl
      go Read.failed e = rw (e, received) refl
      go (Read.wait_failed why) e = rw (e, received) refl
      go Read.again e = rw (e, received) refl
      go (Read.message msg) e = rw (e, received) refl

  pub received-add :
      (pos a b : ℕ)
      → received reads pos (a + b) ≡ received reads pos a ++ received reads (pos + a) b
  received-add pos zero b = ap₂ (received reads) (omega arith) (omega arith)
  received-add pos (suc a) b =
      let e : suc a + b ≡ suc (a + b) = omega arith in
      let f : pos + 1 + a ≡ pos + suc a = omega arith in
      ap (received reads pos) e
      ∙ received-one pos (a + b)
      ∙ ap (λ ms. received reads pos 1 ++ ms) (received-add (pos + 1) a b)
      ∙ sym (append_assoc (received reads pos 1) (received reads (pos + 1) a) _)
      ∙ ap₂ (λ xs p. xs ++ received reads p b) (sym (received-one pos a)) f

module _ (s : Server) (show_double : ℕ → Text) (now : History → ℕ)
    (iterate : List Text → List Text) where
  -- The thread's work on some batches, one after another, the last commit, and the destructor of `mp`.
  abbrev pub work_then_finish : List Work → Exec Worker (Unit {0})
  work_then_finish [] = on_mp (exec s (codes "commit")) >> on_mp (disconnect s)
  work_then_finish (w ∷ ws) =
      work_loop s show_double now iterate (sort (λ (a, _) (b, _). text_lt a b) w)
      >> work_then_finish ws

  module _ (reads : ℕ → Read) (n : ℕ) (ends : PipeEnds reads n) where
    -- From read `pos` on the thread works on `batches` and ends; these have the messages of the next
    -- `k` reads, and each of them has a table once.
    pub record Drained (rounds pos k : ℕ) : Type 0 where
      pub batches : List Work
      pub runs : thread_rounds s show_double now iterate reads rounds pos ≡ work_then_finish batches
      pub each : (t : Text) → all_work t batches ≡ for_table t (received reads pos k)
      pub unique : All Unique batches

    received-closed : (pos k : ℕ) → n ≤ pos → received reads pos k ≡ []
    received-closed pos zero h = refl
    received-closed pos (suc k) h =
        rw (ends.closed_after pos h, received) (received-closed (pos + 1) k (omega (arith, h)))

    at_end-Drained : (rounds pos k : ℕ) → n ≤ pos → Drained (suc rounds) pos k
    unfolding thread_rounds ◌>>=◌
    at_end-Drained rounds pos k h = record {
      batches = [];
      runs = rw (next_round-finished reads n ends pos h, thread_rounds) refl;
      each = λ t. ap (for_table t) (sym (received-closed pos k h));
      unique = tt;
    }

    one_more :
        (rounds pos next k : ℕ) (w : Work)
        → next_round reads pos ≡ Round.work w next
        → Drained rounds next k
        → (count : ℕ) → next ≡ pos + count
        → ((t : Text) → at [] t w ≡ for_table t (received reads pos count))
        → Drained (suc rounds) pos (count + k)
    unfolding thread_rounds ◌>>=◌
    one_more rounds pos next k w r d count e has = record {
      batches = w ∷ d.batches;
      runs =
          rw (r, thread_rounds)
            (ap
              (λ (m : Exec Worker (Unit {0})).
                work_loop s show_double now iterate (sort (λ (a, _) (b, _). text_lt a b) w) >> m)
              d.runs);
      each = λ t.
          ap₂ ◌++◌ (has t) (d.each t)
          ∙ sym (for_table-append t (received reads pos count) (received reads next k))
          ∙ ap (λ p. for_table t (received reads pos count ++ received reads p k)) e
          ∙ ap (for_table t) (sym (received-add reads pos count k));
      unique = (next_round-Unique reads pos next w r, d.unique);
    }

    drained : (rounds pos k : ℕ) → pos + k ≡ n + 1 → n + 1 < pos + rounds → Drained rounds pos k
    unfolding at lookup
    drained zero pos k e h = absurd (omega (arith, e, h))
    drained (suc rounds) pos k e h = elim (Bool-cases (ltb pos n)) [
      | inr l ↦ at_end-Drained rounds pos k (ground (arith, l))
      | inl l ↦
          go (λ next k. drained rounds next k) (next_round reads pos) refl
            (next_round-Works reads n ends pos (ground (arith, l)))
    ]
      where
        go :
            ((next k : ℕ) → next + k ≡ n + 1 → n + 1 < next + rounds → Drained rounds next k)
            → (r : Round) → next_round reads pos ≡ r
            → Works (pos + 1) (n + 1) r
            → Drained (suc rounds) pos k
        go ih Round.finished r w = absurd (omega (arith, w))
        go ih (Round.threw why) r w = absurd (omega (arith, w))
        go ih (Round.work w next) r (low, high) =
            let g = next_round-Grouped reads pos next w r in
            let left : next + (k - g.count) ≡ n + 1 = omega (arith, g.next_eq, e, high) in
            let all : g.count + (k - g.count) ≡ k = omega (arith, g.next_eq, e, high) in
            subst (Drained (suc rounds) pos) all (
              one_more rounds pos next (k - g.count) w r
                (ih next (k - g.count) left (omega (arith, low, h))) g.count g.next_eq g.each)

    -- Where the pipe comes to its end after `n` reads, and no read and no wait has failed, `n + 2`
    -- rounds of the thread do the same as a sequence without further rounds: the work on some batches,
    -- one after another, the last commit and the end of the connection, up to the first of these that
    -- throws. For each table the batches have the messages for this table among all that come, in
    -- the order of their arrival, and a batch has each table once.
    pub thread_rounds-Drained : Drained (n + 2) 0 (n + 1)
    thread_rounds-Drained = drained (n + 2) 0 (n + 1) (omega arith) (omega arith)
