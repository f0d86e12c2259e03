-- ===== src/MiniSqlite/TimeLimit.antt =====
-- `DeadlineCatcher` against the clock: when a query with a time limit is interrupted.
use sqlitewrite.Base.{zero, suc}
use sqlitewrite.Base.{refl, ◌||◌, sym, ap, not, ◌&&◌, false, ◌⊎◌, suc}
use sqlitewrite.Base.{
  ℕ, ◌*◌, ◌<◌, ◌+◌, ◌≡◌, ◌≤◌, Bool-cases, ltb, ◌%◌, inl, ◌/◌, ◌-◌, inr, arith, true, ◌∙◌,
  if◌then◌else◌,
}
use sqlitewrite.Base.Int.{pos, ◌+ℤ◌, sub_ℕ, ltb_ℤ}
use sqlitewrite.Sqlite.{Timespec}
use sqlitewrite.MiniSqlite.Deadline.{time_to_die, interrupts, div_1000, millions}

-- The time of a monotonic clock, which has no negative part.
abbrev pub clock : ℕ → ℕ → Timespec
clock sec nsec = record { sec = pos sec; nsec = pos nsec }

abbrev pub nanoseconds : ℕ → ℕ → ℕ
nanoseconds sec nsec = sec * 1_000_000_000 + nsec

ltb-true : (a b : ℕ) → a < b → ltb a b ≡ true
ltb-true a b h = ground arith

-- Sums and differences of times that stay non-negative.
add_pos : (a b : ℕ) → pos a +ℤ pos b ≡ pos (a + b)
unfolding ◌+ℤ◌
add_pos a b = ground arith

sub_pos : (a b : ℕ) → b < a → pos a +ℤ sub_ℕ 0 b ≡ pos (a - b)
unfolding ◌+ℤ◌
sub_pos a b h = ground arith

div_1000-small :
    (msec : ℕ) → msec < 2_147_483_648 → div_1000 msec ≡ (pos (msec / 1000), pos (msec % 1000))
unfolding div_1000
div_1000-small msec h =
    rw (ltb-true msec 2_147_483_648 h) (λ i. (pos (msec / 1000), pos (msec % 1000)))

-- The seconds and the nanoseconds, carried over.
carry :
    (a b : ℕ)
    → (if ltb_ℤ (pos 1_000_000_000) (pos b)
        then record { sec = pos a +ℤ pos 1; nsec = pos b +ℤ sub_ℕ 0 1_000_000_000 }
        else clock a b)
      ≡ (if ltb 1_000_000_000 b then clock (a + 1) (b - 1_000_000_000) else clock a b)
carry a b = elim (Bool-cases (ltb 1_000_000_000 b)) [
  | inl p ↦ rw (add_zero b, p, add_pos a 1, sub_pos b 1_000_000_000 (ground arith)) refl
  | inr p ↦ rw (add_zero b, p) refl
]
  where
    add_zero : (b : ℕ) → b + 0 ≡ b
    add_zero b = omega arith

time_to_die-small :
    (s n msec : ℕ)
    → msec < 2_147_483_648
    → time_to_die (clock s n) msec ≡ (
        if ltb 1_000_000_000 (n + 1_000_000 * (msec % 1000))
        then clock (s + msec / 1000 + 1) (n + 1_000_000 * (msec % 1000) - 1_000_000_000)
        else clock (s + msec / 1000) (n + 1_000_000 * (msec % 1000)))
unfolding time_to_die
time_to_die-small s n msec h =
    rw
      (
        div_1000-small msec h,
        add_pos s (msec / 1000),
        add_pos n (1_000_000 * (msec % 1000)),
        time_to_die,
      )
      (carry (s + msec / 1000) (n + 1_000_000 * (msec % 1000)))

-- The deadline is the time of the start and the limit.
pub time_to_die_lem :
    (s n msec : ℕ)
    → n < 1_000_000_000
    → msec < 2_147_483_648
    → (s' : ℕ) × (n' : ℕ) × (time_to_die (clock s n) msec ≡ clock s' n')
      × (nanoseconds s' n' ≡ nanoseconds s n + 1_000_000 * msec)
      × (n' ≤ 1_000_000_000)
time_to_die_lem s n msec hn hm =
    elim (Bool-cases (ltb 1_000_000_000 (n + 1_000_000 * (msec % 1000)))) [
      | inl p ↦ (
        s + msec / 1000 + 1,
        n + 1_000_000 * (msec % 1000) - 1_000_000_000,
        time_to_die-small s n msec hm ∙ rw p refl,
        ground arith,
        ground arith,
      )
      | inr p ↦ (
        s + msec / 1000,
        n + 1_000_000 * (msec % 1000),
        time_to_die-small s n msec hm ∙ rw p refl,
        ground arith,
        ground arith,
      )
    ]

interrupts-clock :
    (s n t m : ℕ) → interrupts (clock s n) (clock t m) ≡ (ltb s t || not (ltb t s) && ltb n m)
unfolding interrupts
interrupts-clock s n t m = ground arith

-- A query with a time limit below 2^31 ms is interrupted at no time before the limit is over.
pub interrupts-due :
    (s n msec t m : ℕ)
    → n < 1_000_000_000
    → msec < 2_147_483_648
    → m < 1_000_000_000
    → interrupts (time_to_die (clock s n) msec) (clock t m) ≡ true
    → nanoseconds s n + 1_000_000 * msec ≤ nanoseconds t m
interrupts-due s n msec t m hn hs hm h =
    let (s', n', e, total, small) = time_to_die_lem s n msec hn hs in
    let k = sym (interrupts-clock s' n' t m) ∙ ap (λ d. interrupts d (clock t m)) (sym e) ∙ h in
    ground (arith, k, total, small)

-- A query with a time limit below 2^31 ms is interrupted whenever the progress handler is called
-- after the limit.
pub interrupts-late :
    (s n msec t m : ℕ)
    → n < 1_000_000_000
    → msec < 2_147_483_648
    → m < 1_000_000_000
    → nanoseconds s n + 1_000_000 * msec < nanoseconds t m
    → interrupts (time_to_die (clock s n) msec) (clock t m) ≡ true
interrupts-late s n msec t m hn hs hm h =
    let (s', n', e, total, small) = time_to_die_lem s n msec hn hs in
    ap (λ d. interrupts d (clock t m)) e
    ∙ interrupts-clock s' n' t m
    ∙ ground (arith, total, small, h)

div_1000-large :
    (msec : ℕ)
    → 2_147_483_648 ≤ msec
    → div_1000 msec
      ≡ (sub_ℕ 0 ((4_294_967_296 - msec) / 1000), sub_ℕ 0 ((4_294_967_296 - msec) % 1000))
unfolding div_1000
div_1000-large msec h = rw (ltb-false msec 2_147_483_648 h) refl
  where
    ltb-false : (a b : ℕ) → b ≤ a → ltb a b ≡ false
    ltb-false a b h = ground arith

-- The deadline of a limit that does not fit an `int` is over before the query starts.
past :
    (s n q r t m : ℕ)
    → r < 1000
    → 1 ≤ q + r
    → n < 1_000_000_000
    → (s < t) ⊎ ((s ≡ t) × (n ≤ m))
    → interrupts
        (if ltb_ℤ (pos 1_000_000_000) (pos n +ℤ millions (sub_ℕ 0 r))
          then record {
            sec = pos s +ℤ sub_ℕ 0 q +ℤ pos 1;
            nsec = pos n +ℤ millions (sub_ℕ 0 r) +ℤ sub_ℕ 0 1_000_000_000;
          }
          else record { sec = pos s +ℤ sub_ℕ 0 q; nsec = pos n +ℤ millions (sub_ℕ 0 r) })
        (clock t m)
      ≡ true
unfolding interrupts ◌+ℤ◌
past s n q zero t m hr hq hn (inl l) = ground arith
past s n q zero t m hr hq hn (inr (e, l)) = ground arith
past s n q (suc r) t m hr hq hn (inl l) = ground arith
past s n q (suc r) t m hr hq hn (inr (e, l)) = ground arith

-- A query with a time limit from 2^31 ms on that fits an unsigned int is interrupted at every time
-- from its start on.
pub interrupts-overflow :
    (s n msec t m : ℕ)
    → n < 1_000_000_000
    → 2_147_483_648 ≤ msec
    → msec < 4_294_967_296
    → (s < t) ⊎ ((s ≡ t) × (n ≤ m))
    → interrupts (time_to_die (clock s n) msec) (clock t m) ≡ true
unfolding time_to_die
interrupts-overflow s n msec t m hn low high later =
    rw (div_1000-large msec low, time_to_die)
      (past s n ((4_294_967_296 - msec) / 1000) ((4_294_967_296 - msec) % 1000) t m (omega arith)
        (omega arith) hn later)
