-- ===== src/MiniSqlite/Deadline.antt =====
-- `struct DeadlineCatcher`: the time limit of a query. The arithmetic is on `long` fields, far from
-- their bounds.
use sqlitewrite.Base.{
  ℕ, suc, ◌-◌, ◌*◌, ◌/◌, ◌%◌, ◌^◌, Bool, ◌||◌, not, ◌&&◌, ltb, eqb, if◌then◌else◌,
}
use sqlitewrite.Base.Int.{ℤ, pos, negsuc, sub_ℕ, ◌+ℤ◌, ltb_ℤ}
use sqlitewrite.Base.Exec.{Exec, pure}
use sqlitewrite.Sqlite.{Timespec, Call, Engine}
use sqlitewrite.MiniSqlite.Db.{Db, send}

-- `div(msec, 1000)`: the argument, an unsigned int, is converted to `int`, and the quotient and the
-- remainder are rounded towards zero.
unfoldable pub div_1000 : ℕ → ℤ × ℤ
div_1000 msec =
    if ltb msec (2 ^ 31)
    then (pos (msec / 1000), pos (msec % 1000))
    else (sub_ℕ 0 ((2 ^ 32 - msec) / 1000), sub_ℕ 0 ((2 ^ 32 - msec) % 1000))

-- `r * 1000000`
abbrev pub millions : ℤ → ℤ
millions (pos n) = pos (1_000_000 * n)
millions (negsuc n) = sub_ℕ 0 (1_000_000 * suc n)

-- The constructor's `d_ttd`, from the time at which it runs.
unfoldable pub time_to_die : Timespec → ℕ → Timespec
unfolding div_1000 ◌+ℤ◌
time_to_die now msec =
    let (quot, rem) = div_1000 msec in
    let sec = now.sec +ℤ quot in
    let nsec = now.nsec +ℤ millions rem in
    if ltb_ℤ (pos 1_000_000_000) nsec
    then record { sec = sec +ℤ pos 1; nsec = nsec +ℤ sub_ℕ 0 1_000_000_000 }
    else record { sec = sec; nsec = nsec }

-- The progress handler: whether the query is interrupted at the time `now`. The tuples are compared
-- lexicographically.
unfoldable pub interrupts : Timespec → Timespec → Bool
interrupts ttd now = ltb_ℤ ttd.sec now.sec || not (ltb_ℤ now.sec ttd.sec) && ltb_ℤ ttd.nsec now.nsec

module _ (e : Engine) where
  -- The constructor.
  unfoldable pub deadline_start : ℕ → Exec Db (Unit {0})
  deadline_start msec = if eqb msec 0 then pure tt else λ db.
      send (Call.progress_handler (time_to_die (e.monotonic db.calls) msec)) db

-- The destructor.
unfoldable pub deadline_stop : ℕ → Exec Db (Unit {0})
deadline_stop msec = if eqb msec 0 then pure tt else send Call.remove_progress_handler
