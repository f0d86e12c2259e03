-- ===== src/PsqlWriter/Flags.antt =====
-- What `SetNonBlocking` does to the flags of a file, and what the timer measures.
use sqlitewrite.Base.{
  Bool-cases, inl, inr, ℕ, zero, suc, ◌+◌, ◌-◌, ◌*◌, ◌/◌, ◌%◌, ◌^◌, ◌≤◌, ◌<◌, ◌≡◌, ◌∙◌, Bool, true,
  false, [], ◌∷◌, ◌++◌, append_assoc, refl, ap, arith, ltb,
}
use native.Mathlib.Nat.{add-div_right, div-eq_of_lt}
use sqlitewrite.Base.Exec.{ok, Result, pure, ◌>>=◌, err}
use sqlitewrite.PsqlWriter.System.{
  System, SysCall, Process, has_nonblock, with_nonblock, set_non_blocking, ask_fcntl, DTime, start,
  lap_usec, now,
}

module _ (os : System) where
  -- The call changes the flags `old` to `new`: the bit is as wanted, and with the old bit put back
  -- they are the old flags.
  abbrev pub OnlyBit : Bool → ℕ → ℕ → Type 0
  OnlyBit to old new =
      (has_nonblock os new ≡ to) × (with_nonblock os (has_nonblock os old) new ≡ old)

  added :
      (flags : ℕ)
      → 0 < os.nonblock
      → has_nonblock os flags ≡ false
      → has_nonblock os (flags + os.nonblock) ≡ true
  unfolding has_nonblock
  added flags h e = ground (arith, e, add-div_right flags h)

  divided :
      (flags : ℕ)
      → 0 < os.nonblock
      → os.nonblock ≤ flags
      → flags / os.nonblock ≡ (flags - os.nonblock) / os.nonblock + 1
  divided flags h l =
      let e : flags ≡ (flags - os.nonblock) + os.nonblock = omega (arith, l) in
      ap (λ f. f / os.nonblock) e ∙ add-div_right (flags - os.nonblock) h

  enough : (flags : ℕ) → has_nonblock os flags ≡ true → os.nonblock ≤ flags
  unfolding has_nonblock
  enough flags e = elim (Bool-cases (ltb flags os.nonblock)) [
    | inl l ↦
        let z : flags / os.nonblock ≡ 0 = div-eq_of_lt (ground (arith, l)) in ground (arith, e, z)
    | inr l ↦ ground (arith, l)
  ]

  removed :
      (flags : ℕ)
      → 0 < os.nonblock
      → has_nonblock os flags ≡ true
      → has_nonblock os (flags - os.nonblock) ≡ false
  unfolding has_nonblock
  removed flags h e = ground (arith, e, divided flags h (enough flags e))

  with_nonblock-OnlyBit :
      (to : Bool) (flags : ℕ) → 0 < os.nonblock → OnlyBit to flags (with_nonblock os to flags)
  unfolding with_nonblock
  with_nonblock-OnlyBit true flags h = elim (Bool-cases (has_nonblock os flags)) [
    | inl e ↦ rw e (e, rw e refl)
    | inr e ↦ rw (e, added flags h e) (refl, omega arith)
  ]
  with_nonblock-OnlyBit false flags h = elim (Bool-cases (has_nonblock os flags)) [
    | inl e ↦ rw (e, removed flags h e) (refl, omega (arith, enough flags e))
    | inr e ↦ rw e (e, rw e refl)
  ]

  -- `SetNonBlocking` returns, whatever `fcntl` does. It sets the flags that it has read, where only
  -- `O_NONBLOCK` is changed, to the wanted value.
  pub set_non_blocking-OnlyBit :
      (sock : ℕ) (to : Bool) (p : Process)
      → 0 < os.nonblock
      → ((set_non_blocking os sock to p).0 ≡ ok tt)
        × (new : ℕ) × (((set_non_blocking os sock to p).1).calls
            ≡ p.calls ++ (SysCall.getfl sock ∷ SysCall.setfl sock new ∷ []))
        × OnlyBit to (os.fcntl p.calls (SysCall.getfl sock)) new
  unfolding set_non_blocking ask_fcntl ◌>>=◌ pure
  set_non_blocking-OnlyBit sock to p h =
      let old = os.fcntl p.calls (SysCall.getfl sock) in
      (
        refl,
        with_nonblock os to old,
        append_assoc p.calls (SysCall.getfl sock ∷ []) _,
        with_nonblock-OnlyBit to old h,
      )

module _ (clock : ℕ → ℕ) where
  abbrev or_zero : Result ℕ → ℕ
  or_zero (ok n) = n
  or_zero (err x) = 0

  -- The sum of what `count` calls of `lapUsec` return, and the timer after them.
  abbrev pub laps : ℕ → DTime → ℕ × DTime
  laps zero d = (0, d)
  laps (suc count) d =
      let (r, d') = lap_usec clock d in let (sum, d'') = laps count d' in (or_zero r + sum, d'')

  lap_usec_lem :
      (d : DTime)
      → lap_usec clock d ≡ (
        ok (((clock d.reads - d.start_time) / 1000) % 2 ^ 32),
        record { reads = d.reads + 1 + 1; start_time = clock (d.reads + 1) },
      )
  unfolding lap_usec start now ◌>>=◌
  lap_usec_lem d = refl

  -- The clock does not go back. Then the microseconds that a number of calls of `lapUsec` return are
  -- together no more than the time from the start of the timer to its last start.
  pub laps-bounded :
      (count : ℕ) (d : DTime)
      → ((n : ℕ) → clock n ≤ clock (n + 1))
      → d.start_time ≤ clock d.reads
      → 1000 * (laps count d).0 + d.start_time ≤ ((laps count d).1).start_time
  laps-bounded zero d mono h = omega arith
  laps-bounded (suc count) d mono h =
      let t = clock d.reads in
      let lap = ((t - d.start_time) / 1000) % 2 ^ 32 in
      let small : 1000 * lap ≤ t - d.start_time = omega arith in
      let ih =
        laps-bounded count (record { reads = d.reads + 1 + 1; start_time = clock (d.reads + 1) })
          mono (mono (d.reads + 1)) in
      rw (lap_usec_lem d) (omega (arith, small, ih, mono d.reads, h))
