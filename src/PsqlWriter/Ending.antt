-- ===== src/PsqlWriter/Ending.antt =====
-- The rounds of the thread come to an end with the pipe, and together they have all messages.
use sqlitewrite.Base.{
  Bool-cases, inl, inr, ℕ, zero, suc, ◌+◌, ◌≤◌, ◌<◌, ◌≡◌, ◌∙◌, Bool, true, false, [], ◌∷◌, ltb,
  refl, sym, ap, arith, Bool-cases, inl, inr,
}
use sqlitewrite.Base.Lists.{length}
use sqlitewrite.Text.{text_eq}
use sqlitewrite.Text.Dict.{insert}
use sqlitewrite.PsqlWriter.Message.{Message}
use sqlitewrite.PsqlWriter.Batch.{Read, Work, Round, push_work, at_end, collect, next_round}

abbrev pub is_open : Read → Bool
is_open (Read.message msg) = true
is_open Read.again = true
is_open Read.closed = false
is_open Read.failed = false
is_open (Read.wait_failed why) = false

-- An error of the read, or of the wait before it.
abbrev is_shut : Read → Bool
is_shut Read.failed = true
is_shut (Read.wait_failed why) = true
is_shut _ = false

open_not_shut : (r : Read) → is_open r ≡ true → is_shut r ≡ true → ⊥
open_not_shut Read.failed o s = cc
open_not_shut (Read.wait_failed why) o s = cc
open_not_shut Read.closed o s = cc
open_not_shut Read.again o s = cc
open_not_shut (Read.message msg) o s = cc

-- The first `n` reads give a message or `EAGAIN`, no wait before them has failed, and from then on the pipe is at its end.
pub record PipeEnds (reads : ℕ → Read) (n : ℕ) : Type 0 where
  pub open_before : (k : ℕ) → k < n → is_open (reads k) ≡ true
  pub closed_after : (k : ℕ) → n ≤ k → reads k ≡ Read.closed

abbrev has_work : Work → Bool
has_work [] = false
has_work (x ∷ w) = true

push_work-has_work : (msg : Message) (w : Work) → has_work (push_work msg w) ≡ true
unfolding push_work insert
push_work-has_work msg [] = refl
push_work-has_work msg ((t, ms) ∷ w) = ground arith

-- A round with work, after which the next one starts in the interval.
abbrev pub Works : ℕ → ℕ → Round → Type 0
Works low high Round.finished = zero ≡ suc zero
Works low high (Round.threw why) = zero ≡ suc zero
Works low high (Round.work after next) = (low ≤ next) × (next ≤ high)

module _ (reads : ℕ → Read) (n : ℕ) (ends : PipeEnds reads n) where
  still_open : (k : ℕ) → is_open (reads k) ≡ true → k < n
  still_open k h = elim (Bool-cases (ltb k n)) [
    | inl e ↦ ground (arith, e)
    | inr e ↦
        let c : reads k ≡ Read.closed = ends.closed_after k (ground (arith, e)) in
        let f : false ≡ true = sym (ap is_open c) ∙ h in cc
  ]

  -- A read that gives neither a message nor `EAGAIN` gives the end.
  shut : (k : ℕ) (r : Read) → reads k ≡ r → is_shut r ≡ true → ⊥
  shut k r e shut_ = elim (Bool-cases (ltb k n)) [
    | inl l ↦ open_not_shut r (sym (ap is_open e) ∙ ends.open_before k (ground (arith, l))) shut_
    | inr l ↦
        let c : Read.closed ≡ r = sym (ends.closed_after k (ground (arith, l))) ∙ e in
        let f : false ≡ true = ap is_shut c ∙ shut_ in cc
  ]

  collect-Works :
      (left pos sum : ℕ) (w : Work)
      → pos ≤ n
      → has_work w ≡ true
      → Works pos (n + 1) (collect reads left pos sum w)
  unfolding collect at_end
  collect-Works zero pos sum w h k = (omega arith, omega (arith, h))
  collect-Works (suc left) pos sum w h k = elim (Bool-cases (ltb sum 60000)) [
    | inr e ↦ rw (e, Works, collect) (omega arith, omega (arith, h))
    | inl e ↦
        rw (e, Works, collect)
          (go
            (λ msg l.
              collect-Works left (pos + 1) (sum + length msg.values) (push_work msg w) l
                (push_work-has_work msg w))
            (reads pos) refl)
  ]
    where
      ended : (w : Work) → has_work w ≡ true → Works pos (n + 1) (at_end w (pos + 1))
      ended [] k = cc
      ended (x ∷ w) k = (omega arith, omega (arith, h))

      later : (r : Round) → Works (pos + 1) (n + 1) r → Works pos (n + 1) r
      later Round.finished f = f
      later (Round.threw why) f = f
      later (Round.work after next) (l, m) = (omega (arith, l), m)

      go :
          ((msg : Message)
            → pos + 1 ≤ n
            → Works
                (pos + 1)
                (n + 1)
                (collect reads left (pos + 1) (sum + length msg.values) (push_work msg w)))
          → (r : Read) → reads pos ≡ r
          → Works pos (n + 1) (elim r [
            | Read.closed ↦ at_end w (pos + 1)
            | Read.failed ↦ Round.finished
            | Read.again ↦ Round.work w (pos + 1)
            | Read.wait_failed why ↦ Round.threw why
            | Read.message msg ↦
                collect reads left (pos + 1) (sum + length msg.values) (push_work msg w)
          ])
      go ih Read.closed e = ended w k
      go ih Read.failed e = absurd (shut pos Read.failed e refl)
      go ih (Read.wait_failed why) e = absurd (shut pos (Read.wait_failed why) e refl)
      go ih Read.again e = (omega arith, omega (arith, h))
      go ih (Read.message msg) e = later _ (ih msg (omega (arith, still_open pos (ap is_open e))))

  pub next_round-Works : (pos : ℕ) → pos < n → Works (pos + 1) (n + 1) (next_round reads pos)
  unfolding next_round collect
  next_round-Works pos h = go (reads pos) refl (ends.open_before pos h)
    where
      go :
          (r : Read)
          → reads pos ≡ r
          → is_open r ≡ true
          → Works (pos + 1) (n + 1) (elim r [
            | Read.closed ↦ at_end [] (pos + 1)
            | Read.failed ↦ Round.finished
            | Read.again ↦ Round.work [] (pos + 1)
            | Read.wait_failed why ↦ Round.threw why
            | Read.message msg ↦
                collect reads 9999 (pos + 1) (0 + length msg.values) (push_work msg [])
          ])
      go Read.closed e o = cc
      go Read.failed e o = cc
      go (Read.wait_failed why) e o = cc
      go Read.again e o = (omega arith, omega (arith, h))
      go (Read.message msg) e o =
          collect-Works 9999 (pos + 1) (0 + length msg.values) (push_work msg []) (omega (arith, h))
            (push_work-has_work msg [])

  collect-finished : (left pos : ℕ) → n ≤ pos → collect reads (suc left) pos 0 [] ≡ Round.finished
  unfolding collect at_end
  collect-finished left pos h = rw (ends.closed_after pos h) refl

  pub next_round-finished : (pos : ℕ) → n ≤ pos → next_round reads pos ≡ Round.finished
  unfolding next_round
  next_round-finished pos h = collect-finished 9999 pos h
