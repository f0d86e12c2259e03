-- ===== src/PsqlWriter.antt =====
-- `class PSQLWriter` (psqlwriter.hh, psqlwriter.cc): rows are sent as messages through a pipe to a
-- thread, which inserts them in PostgreSQL in batches. Modelled are the messages, the collection of
-- a batch, the insert statement of a table in a batch, and its parameters.
pub mod Message
pub mod Batch
pub mod Query
pub mod Grouping
pub mod Printed
pub mod Parameters
pub mod Thread
pub mod Fields
pub mod Tests
pub mod Pipe
pub mod System
pub mod Ending
pub mod Unique
pub mod Delivery
pub mod Totals
pub mod Limits
pub mod Flags
pub mod Calm
pub mod Protocol
pub mod Turn
pub mod Cleared
pub mod Once
pub mod Log
pub mod Requests
pub mod KnownFields
pub mod Known
pub mod Returns
pub mod Whole
