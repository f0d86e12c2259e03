-- ===== src/PsqlWriter/Message.antt =====
-- The messages that `addValueGeneric` of `PSQLWriter` sends.
use sqlitewrite.Base.{ℕ, List, [], ◌∷◌}
use sqlitewrite.Base.Int.{ℤ}
use sqlitewrite.Text.{Text}
use sqlitewrite.Text.Dict.{Dict, insert}

-- `PSQLWriter::var_t`
pub data Var : Type 0 where
  double : ℕ → Var
  int32 : ℤ → Var
  uint32 : ℕ → Var
  int64 : ℤ → Var
  string : Text → Var

-- `PSQLWriter::Message`
pub record Message : Type 0 where
  pub table : Text
  pub values : Dict Var

-- The loop `msg->values[v.first] = v.second`.
unfoldable pub message_values : List (Text × Var) → Dict Var → Dict Var
message_values [] m = m
message_values ((name, v) ∷ values) m = message_values values (insert name v m)

-- The message that `addValueGeneric` writes to the pipe.
unfoldable pub message : Text → List (Text × Var) → Message
unfolding message_values
message table values = record { table = table; values = message_values values [] }
