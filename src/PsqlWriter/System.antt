-- ===== src/PsqlWriter/System.antt =====
-- psqlwriter.cc: the timer, and the functions that wait for a file and change its flags. The
-- operating system is a parameter.
use sqlitewrite.Base.{
  ℕ, ◌+◌, ◌-◌, ◌/◌, ◌%◌, ◌^◌, Bool, true, false, Option, none, some, List, [], ◌∷◌, ◌++◌, eqb, leb,
  ◌&&◌, if◌then◌else◌,
}
use sqlitewrite.Base.Exec.{Exec, runtime_error, pure, raise, gets, modify, ◌>>=◌, ◌>>◌, ok}
use sqlitewrite.Text.{Text, codes}

-- An `int` is given by its 32 bits.
abbrev pub is_negative : ℕ → Bool
is_negative bits = leb (2 ^ 31) bits

-- The bits of `revents` that are tested.
pub record Events : Type 0 where
  pub pollerr : Bool
  pub pollhup : Bool

-- `POLLIN` or `POLLOUT`
pub data Wanted : Type 0 where
  pollin pollout : Wanted

pub data SysCall : Type 0 where
  poll : ℕ → Wanted → Option ℕ → SysCall
  getfl : ℕ → SysCall
  setfl : ℕ → ℕ → SysCall

-- What the calls return after the calls before: `poll` the value and `revents`, `fcntl` an `int`.
-- `msec` is `*timeout * 1000` as an `int`, `none` stands for -1, and `nonblock` for `O_NONBLOCK`.
pub record System : Type 0 where
  pub poll : List SysCall → SysCall → ℕ × Events
  pub fcntl : List SysCall → SysCall → ℕ
  pub strerror : List SysCall → Text
  pub msec : ℕ → ℕ
  pub nonblock : ℕ

-- The calls so far.
pub record Process : Type 0 where
  pub calls : List SysCall

abbrev pub set_flag : Bool → Option Bool → Option Bool
set_flag here none = none
set_flag here (some b) = some (if here then true else b)

-- The steady clock: the nanoseconds of each reading. `reads` is the number of readings so far.
pub record DTime : Type 0 where
  pub reads : ℕ
  pub start_time : ℕ

module _ (clock : ℕ → ℕ) where
  -- `steady_clock::now()`
  unfoldable pub now : Exec DTime ℕ
  now = do t ← gets (λ d. clock d.reads); modify (λ d. record d { reads = d.reads + 1 }); pure t

  -- `DTime::start`
  unfoldable pub start : Exec DTime (Unit {0})
  unfolding now
  start = do t ← now; modify (λ d. record d { start_time = t })

  -- `DTime::lapUsec`, an `uint32_t`
  unfoldable pub lap_usec : Exec DTime ℕ
  unfolding now start
  lap_usec = do
    t ← now
    begun ← gets (λ d. d.start_time)
    start
    pure (((t - begun) / 1000) % 2 ^ 32)

module _ (os : System) where
  unfoldable pub ask_poll : SysCall → Exec Process (ℕ × Events)
  ask_poll c p = (ok (os.poll p.calls c), record p { calls = p.calls ++ (c ∷ []) })

  unfoldable pub ask_fcntl : SysCall → Exec Process ℕ
  ask_fcntl c p = (ok (os.fcntl p.calls c), record p { calls = p.calls ++ (c ∷ []) })

  abbrev pub to_msec : Option ℕ → Option ℕ
  to_msec none = none
  to_msec (some t) = some (os.msec t)

  -- `waitForRWData`: the value of `poll`, and what `error` and `disconnected` point to; `none` is a
  -- null pointer.
  unfoldable pub wait_for_rw_data :
      ℕ
      → Bool
      → Option ℕ
      → Option Bool
      → Option Bool
      → Exec Process (ℕ × (Option Bool × Option Bool))
  unfolding ask_poll
  wait_for_rw_data fd wait_for_read timeout error disconnected = do
    (ret, revents) ← ask_poll (
        SysCall.poll fd (if wait_for_read then Wanted.pollin else Wanted.pollout) (to_msec timeout))
    if eqb ret (2 ^ 32 - 1)
        then (do
          why ← gets (λ p. os.strerror p.calls)
          raise (runtime_error (codes "Waiting for data: " ++ why)))
        else if leb 1 ret && leb ret (2 ^ 31 - 1)
        then pure (ret, (set_flag revents.pollerr error, set_flag revents.pollhup disconnected))
        else pure (ret, (error, disconnected))

  -- `waitForData`
  unfoldable pub wait_for_data : ℕ → ℕ → Exec Process ℕ
  unfolding wait_for_rw_data
  wait_for_data fd timeout = do
    (ret, flags) ← wait_for_rw_data fd true (some timeout) none none
    pure ret

  -- `flags |= O_NONBLOCK` and `flags &= (~O_NONBLOCK)`, where `O_NONBLOCK` is one bit
  unfoldable pub has_nonblock : ℕ → Bool
  has_nonblock flags = eqb ((flags / os.nonblock) % 2) 1

  unfoldable pub with_nonblock : Bool → ℕ → ℕ
  with_nonblock true flags = if has_nonblock flags then flags else flags + os.nonblock
  with_nonblock false flags = if has_nonblock flags then flags - os.nonblock else flags

  -- `SetNonBlocking`. The exceptions for a negative value are constructed and not thrown.
  unfoldable pub set_non_blocking : ℕ → Bool → Exec Process (Unit {0})
  unfolding ask_fcntl
  set_non_blocking sock to = do
    flags ← ask_fcntl (SysCall.getfl sock)
    rc ← ask_fcntl (SysCall.setfl sock (with_nonblock to flags))
    pure tt
