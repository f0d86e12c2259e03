-- ===== src/PsqlWriter/Whole.antt =====
-- A program that adds rows, and the thread that inserts them.
use sqlitewrite.Text.Dict.{Dict, lookup, insert, lookup-insert}
use sqlitewrite.Text.{text_dec}
use sqlitewrite.Base.{Option, some, none, false}
use sqlitewrite.PsqlWriter.Message.{message_values}
use sqlitewrite.PsqlWriter.Returns.{IsWaited}
use mathlib.Core.Path.{subst}
use sqlitewrite.PsqlWriter.Ending.{is_open}
use sqlitewrite.Base.{Bool-cases, inl, inr, ltb, true}
use sqlitewrite.PsqlWriter.Once.{count}
use sqlitewrite.Base.{
  ℕ, ◌+◌, ◌≡◌, ◌∙◌, List, [], ◌∷◌, ◌++◌, ◌==◌, if◌then◌else◌, append_assoc, append-nil, refl, sym,
  ap, arith, false,
}
use sqlitewrite.Base.Exec.{Exec, ok, pure, ◌>>◌, ◌>>=◌}
use sqlitewrite.Text.{Text, text_eq}
use sqlitewrite.MiniPsql.Db.{Server, History, new_db}
use sqlitewrite.MiniPsql.Requests.{requests}
use sqlitewrite.PsqlWriter.Message.{Var, Message, message}
use sqlitewrite.PsqlWriter.Batch.{Read, Work}
use sqlitewrite.PsqlWriter.Pipe.{
  PsqlWriter, unopened, open_pipe, add_value_to, send_values, write_message, close_pipe,
}
use sqlitewrite.PsqlWriter.Grouping.{received, for_table}
use sqlitewrite.PsqlWriter.Ending.{PipeEnds}
use sqlitewrite.PsqlWriter.Unique.{works}
use sqlitewrite.PsqlWriter.Thread.{Worker, commit_thread}
use sqlitewrite.PsqlWriter.Log.{Carries}
use sqlitewrite.PsqlWriter.Returns.{commit_thread-returns}
use sqlitewrite.MiniPsql.Returns.{IsObliging}
use sqlitewrite.PsqlWriter.Requests.{commit_thread-Carries}

-- Rows, each with its table.
abbrev pub Rows : Type 0
Rows = List (Text × List (Text × Var))

abbrev add_rows : Rows → Exec PsqlWriter (Unit {0})
add_rows [] = pure tt
add_rows ((t, values) ∷ rows) = add_value_to values t >> add_rows rows

-- A program that adds these rows between the constructor and the destructor.
abbrev pub add_all : Rows → Exec PsqlWriter (Unit {0})
add_all rows = open_pipe [] >> (add_rows rows >> close_pipe)

-- The value of the last entry with the name, or else `o`.
abbrev pub last_value : Text → List (Text × Var) → Option Var → Option Var
last_value f [] o = o
last_value f ((g, v) ∷ values) o = last_value f values (if f == g then some v else o)

-- The rows that are added for a table, in order.
abbrev pub rows_for : Text → Rows → List (List (Text × Var))
rows_for t [] = []
rows_for t ((u, values) ∷ rows) = if t == u then values ∷ rows_for t rows else rows_for t rows

-- There is one message for each row, in order, for this table; it has for each name the last value
-- that the row gives it, and no other.
abbrev pub Arrive : Text → List (List (Text × Var)) → List Message → Type 0
Arrive t [] [] = Unit
Arrive t [] (m ∷ ms) = ⊥
Arrive t (values ∷ rows) [] = ⊥
Arrive t (values ∷ rows) (m ∷ ms) =
    (m.table ≡ t) × ((f : Text) → lookup f m.values ≡ last_value f values none) × Arrive t rows ms

lookup-message_values :
    (f : Text) (values : List (Text × Var)) (d : Dict Var)
    → lookup f (message_values values d) ≡ last_value f values (lookup f d)
unfolding message_values
lookup-message_values f [] d = refl
lookup-message_values f ((g, v) ∷ values) d =
    lookup-message_values f values (insert g v d) ∙ ap (last_value f values) (lookup-insert f g v d)

abbrev messages_of : Rows → List Message
messages_of [] = []
messages_of ((t, values) ∷ rows) = message t values ∷ messages_of rows

messages_of-Arrive :
    (t : Text) (rows : Rows) → Arrive t (rows_for t rows) (for_table t (messages_of rows))
unfolding message lookup
messages_of-Arrive t [] = tt
messages_of-Arrive t ((u, values) ∷ rows) = elim (text_dec t u) [
  | yes same ↦
      let e : (t == u) ≡ true = ground arith in
      rw e (sym same, (λ f. lookup-message_values f values []), messages_of-Arrive t rows)
  | no other ↦ let e : (t == u) ≡ false = ground arith in rw e (messages_of-Arrive t rows)
]

add_rows-sent :
    (rows : Rows) (w : PsqlWriter)
    → add_rows rows w ≡ (ok tt, record w { sent = w.sent ++ messages_of rows })
unfolding ◌>>=◌ add_value_to send_values write_message
add_rows-sent [] w = ap (λ sent. (ok tt, record w { sent = sent })) (sym (append-nil w.sent))
add_rows-sent ((t, values) ∷ rows) w =
    add_rows-sent rows _
    ∙ ap (λ sent. (ok tt, record w { sent = sent }))
        (append_assoc w.sent (message t values ∷ []) (messages_of rows))

add_all-sent :
    (rows : Rows)
    → add_all rows unopened
      ≡ (ok tt, record { sent = messages_of rows; write_end = false; thread = false })
unfolding open_pipe close_pipe ◌>>=◌
add_all-sent rows = rw (add_rows-sent rows) refl

-- At a pipe that comes to its end no wait fails.
PipeEnds-IsWaited : (reads : ℕ → Read) (n : ℕ) → PipeEnds reads n → (k : ℕ) → IsWaited (reads k)
PipeEnds-IsWaited reads n ends k = elim (Bool-cases (ltb k n)) [
  | inl l ↦ open_waited (reads k) (ends.open_before k (ground (arith, l)))
  | inr l ↦ subst IsWaited (sym (ends.closed_after k (ground (arith, l)))) tt
]
  where
    open_waited : (r : Read) → is_open r ≡ true → IsWaited r
    open_waited Read.closed o = tt
    open_waited Read.failed o = tt
    open_waited Read.again o = tt
    open_waited (Read.wait_failed why) o = cc
    open_waited (Read.message msg) o = tt

-- A program adds rows between the constructor and the destructor. Where the thread reads from the
-- pipe what was written to it, in order, neither a read nor a wait for the pipe fails, and the
-- server reports no failure and answers a query for the names and the types of columns with rows
-- that have both, the thread returns; its server has then been asked, with parameters, for the
-- insert statements of a list of messages by table, each with the names of its messages, once, and
-- their printed values, null where a message has none, each read up to its first NUL. For every
-- table the list has exactly one message for each row that was added for this table, in the order
-- of the calls, with the last value that the row gives to each name. The iteration over the set of
-- names gives each name as often as it is in the set.
pub commit_thread-inserts_all :
    (s : Server) (show_double : ℕ → Text) (now : History → ℕ) (iterate : List Text → List Text)
    (rows : Rows) (reads : ℕ → Read) (n : ℕ) (w : Worker)
    → ((f : Text) (fs : List Text) → count f (iterate fs) ≡ count f fs)
    → IsObliging s
    → PipeEnds reads n
    → received reads 0 (n + 1) ≡ ((add_all rows unopened).1).sent
    → w.db ≡ new_db
    → ((commit_thread s show_double now iterate reads (n + 2) w).0 ≡ ok tt)
      × (log : Work) × Carries show_double log
          (requests ((commit_thread s show_double now iterate reads (n + 2) w).1).db.calls)
      × ((t : Text) → Arrive t (rows_for t rows) (works t log))
commit_thread-inserts_all s show_double now iterate rows reads n w all o ends pipe new =
    let returns =
      commit_thread-returns s o show_double now iterate reads (PipeEnds-IsWaited reads n ends)
        (n + 2) w in
    let (log, carries, each) =
      commit_thread-Carries s show_double now iterate all reads n ends w new returns in
    (
      returns,
      log,
      carries,
      λ t.
          let arrived : works t log ≡ for_table t (messages_of rows) =
            each t ∙ ap (for_table t) (pipe ∙ ap (λ r. (r.1).sent) (add_all-sent rows)) in
          subst (Arrive t (rows_for t rows)) (sym arrived) (messages_of-Arrive t rows),
    )
