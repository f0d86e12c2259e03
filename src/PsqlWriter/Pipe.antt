-- ===== src/PsqlWriter/Pipe.antt =====
-- psqlwriter.hh: the end of the pipe that a program writes to. A write of one pointer to a pipe that
-- has a reader waits until there is room, and is then done as a whole.
use sqlitewrite.Base.{Bool, true, false, List, [], ◌∷◌, ◌++◌}
use sqlitewrite.Base.Exec.{Exec, modify, ◌>>◌}
use sqlitewrite.Text.{Text}
use sqlitewrite.PsqlWriter.Message.{Var, Message, message}

-- The messages that were written so far, whether `d_pipe[1]` is open, and whether the thread has
-- been started and has not been joined.
pub record PsqlWriter : Type 0 where
  pub sent : List Message
  pub write_end : Bool
  pub thread : Bool

-- The members before the constructor's body.
abbrev pub unopened : PsqlWriter
unopened = record { sent = []; write_end = false; thread = false }

-- The constructor, whose `pipe2` is taken to succeed, since the code does not look at its result;
-- it leaves the name of the database to the thread's own connection.
unfoldable pub open_pipe : Text → Exec PsqlWriter (Unit {0})
open_pipe fname = do
  modify (λ w. record w { write_end = true })
  modify (λ w. record w { thread = true })

-- `write(d_pipe[1], &msg, sizeof(msg))`
unfoldable pub write_message : Message → Exec PsqlWriter (Unit {0})
write_message msg = modify (λ w. record w { sent = w.sent ++ (msg ∷ []) })

-- `addValueGeneric`
unfoldable pub send_values : Text → List (Text × Var) → Exec PsqlWriter (Unit {0})
unfolding write_message
send_values table values = write_message (message table values)

-- `addValue` of a list and of a vector
unfoldable pub add_value_to : List (Text × Var) → Text → Exec PsqlWriter (Unit {0})
unfolding send_values
add_value_to values table = send_values table values

-- The destructor
unfoldable pub close_pipe : Exec PsqlWriter (Unit {0})
close_pipe = do
  modify (λ w. record w { write_end = false })
  modify (λ w. record w { thread = false })
