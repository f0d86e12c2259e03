-- ===== src/PsqlWriter/Batch.antt =====
-- The collection of a batch in `PSQLWriter::commitThread`.
use sqlitewrite.Base.{Option, none, some, if◌then◌else◌, Bool}
use sqlitewrite.Text.{Text}
use sqlitewrite.Base.{ℕ, zero, suc, ◌+◌, true, false, List, [], ◌∷◌, ◌++◌, ltb}
use sqlitewrite.Base.Lists.{length}
use sqlitewrite.Text.Dict.{Dict, at, insert}
use sqlitewrite.PsqlWriter.Message.{Message}

-- What the wait and the read of one round of the loop give: a message, the end (0), `EAGAIN`, or
-- another error of the read; or the exception of `waitForData`, with the text of the error.
pub data Read : Type 0 where
  message : Message → Read
  closed again failed : Read
  wait_failed : Text → Read

-- `needWait` before read `k`, which `EAGAIN` sets and a message clears.
unfoldable pub needs_wait : (ℕ → Read) → ℕ → Bool
needs_wait reads zero = false
needs_wait reads (suc k) =
    let before = needs_wait reads k in
    elim (reads k) [
      | Read.again ↦ true
      | Read.message msg ↦ false
      | Read.closed ↦ before
      | Read.failed ↦ before
      | Read.wait_failed why ↦ before
    ]

-- The wait, where `needWait` is set, and then the read. `polls k` is the error of the wait before read
-- `k`, if it fails.
unfoldable pub attempt : (ℕ → Option Text) → (ℕ → Read) → ℕ → Read
unfolding needs_wait
attempt polls reads k =
    if needs_wait reads k
    then (elim (polls k) [ some why ↦ Read.wait_failed why | none ↦ reads k ])
    else reads k

abbrev pub Work : Type 0
Work = Dict (List Message)

-- How the loop ends: with work, and the number of the next read, or with the end of the
-- thread, or with the exception of `waitForData`.
pub data Round : Type 0 where
  work : Work → ℕ → Round
  finished : Round
  threw : Text → Round

-- `tabwork[msg->table].push_back(msg)`
unfoldable pub push_work : Message → Work → Work
push_work msg tabwork = insert msg.table (at [] msg.table tabwork ++ (msg ∷ [])) tabwork

-- Without work the end of the pipe ends the thread.
unfoldable pub at_end : Work → ℕ → Round
at_end [] pos = Round.finished
at_end (w ∷ ws) pos = Round.work (w ∷ ws) pos

-- The loop over the attempts, with the number of messages that may still come (`10000 - lim`), the number of the next
-- read, and `sumparms`.
unfoldable pub collect : (ℕ → Read) → ℕ → ℕ → ℕ → Work → Round
unfolding push_work at_end
collect reads zero pos sumparms tabwork = Round.work tabwork pos
collect reads (suc left) pos sumparms tabwork = elim (ltb sumparms 60000) [
  | false ↦ Round.work tabwork pos
  | true ↦ elim (reads pos) [
    | closed ↦ at_end tabwork (pos + 1)
    | failed ↦ Round.finished
    | again ↦ Round.work tabwork (pos + 1)
    | wait_failed why ↦ Round.threw why
    | message msg ↦
        collect reads left (pos + 1) (sumparms + length msg.values) (push_work msg tabwork)
  ]
]

-- The work of a round from read `pos` on.
unfoldable pub next_round : (ℕ → Read) → ℕ → Round
unfolding collect
next_round reads pos = collect reads 10000 pos 0 []
