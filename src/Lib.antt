-- ===== src/Lib.antt =====
-- sqlitewrite: the writer for SQLite (sqlwriter.hh, sqlwriter.cc) and the one for PostgreSQL
-- (psqlwriter.hh, psqlwriter.cc, minipsql.hh, minipsql.cc), the conversion of results to JSON
-- (jsonhelper.cc), the demonstrations (demo.cc, pqdemo.cc) and the tests (testrunner.cc,
-- jsontests.cc).
--
-- A `SQLiteWriter` turns rows of named values into insert statements. It creates the tables and
-- columns that a row needs, keeps one prepared statement per table with the names (the signature)
-- and the mode it was made for, and prepares a new one where a row has others. Without a flag a
-- commit thread ends the transaction once a second and opens the next. It stands on a `MiniSQLite`,
-- which wraps the C interface of SQLite. A `PSQLWriter` sends rows as messages through a pipe to a
-- thread, which inserts them in batches, one statement per table, by a `MiniPSQL`, which wraps libpq.
--
-- Files:
-- - Base: numbers, lists, integers; Base/Exec is the monad of the member functions, whose results
--   are values or exceptions and whose state is the object; Base/Hoare states what such a function
--   ensures when it returns and when it throws.
-- - Text, Sort, Value: std::string and the maps keyed by it; std::sort and std::binary_search;
--   the variants var_t and outvar_t.
-- - Sqlite: the calls on the C interface. SQLite is a parameter, `Engine`: each of its replies is a
--   function of all calls made before, so any deterministic SQLite with any file, and with other
--   processes on that file, is an engine. The clock of the operating system is part of it.
-- - MiniSqlite: the class MiniSQLite. Db has its members and exec, Names quoteTableName, Schema
--   getSchema, haveTable and addColumn, Deadline the struct DeadlineCatcher, Statement isPrepared,
--   bindPrep, prepare and execPrep, Lifetime the constructor, the destructor, begin, commit and
--   cycle. The other files below it prove: Words and Frame what a call leaves alone, Prepare,
--   Calls and Execution the calls a function makes, Returns when it returns, Sorted and Known the
--   columns, TimeLimit, QuotedNames and RowValues their parts; Alive says which prepared statements
--   are alive after a call, and Owned, with the files below it, that d_stmts holds these.
-- - SqliteWriter: the class SQLiteWriter. Writer has its members, Insert haveColumn and
--   addValueGeneric, Query queryGen, queryT and query, Lifetime the constructors, the destructor and
--   commitThread. Spec describes the text of an insert statement without the loop that builds it.
--   Program has the states that a writer can reach: a public function holds d_mutex from its first
--   access to its last, so a call from any thread is one step, as is a round of the commit thread.
--   The other files prove: Frame, Steady and Follows what a function leaves alone, Loop the text of the
--   insert statement, Cache and CacheKept the prepared statements, Columns and Known the known
--   columns, Signature, RowCalls and Row the calls of a write, Answer the rows of a query, Returns and Lives when a call
--   returns, Typed the types of values, Turn and the files below Program the transactions, the
--   prepared statements, the life and the log of a writer, and the texts of a read-only one.
-- - MiniPsql: the class MiniPSQL. Db has libpq as the parameter `Server`, the members, the constructors
--   of QueryResult, and exec; Rows getRow; Schema has getSchema, haveTable and addColumn; Statement
--   has the rest. Bound, Rows, Frame, Turn, Cleared,
--   Requests and Returns prove.
-- - PsqlWriter: the class PSQLWriter. Message and Pipe have addValueGeneric, the constructor and the
--   destructor; System has DTime, waitForRWData, waitForData and SetNonBlocking over the operating
--   system as a parameter; Batch, Query and Thread have the parts of commitThread: the loop that reads
--   the pipe, the statement of a table with its parameters, and what is done with them. Grouping,
--   Ending, Unique, Delivery, Totals, Limits, Printed, Parameters, Fields, Flags, Calm, Protocol, Turn, Cleared, Once,
--   Log, Requests, KnownFields, Known, Returns and Whole prove.
-- - JsonHelper: jsonhelper.cc. Json has the type of nlohmann::json as a parameter with the documented
--   laws of its arrays and objects, Pack the functions; Members proves.
-- - Demo: the programs demo.cc (Rows) and pqdemo.cc (Messages); Finishes and Sent prove.
-- - TestRunner: the test cases of testrunner.cc and jsontests.cc, as programs on the model of the
--   library. Scene has the objects of a test case, nested in their scopes, with the rounds of the commit
--   thread between the calls; doctest's CHECK, REQUIRE and REQUIRE_THROWS_AS do what their
--   documentation says. Access has the reading of results, Basic, Queries, Meta, Values, Errors, Scale
--   and Json the test cases. The other files prove: Lasting, Scope, OpenWriter and OpenMini what a scope keeps, Parts
--   and Kept each test case, Suite all of them.
-- - The files named Tests, and Whole below one of them, apply the theorems to concrete engines and
--   writers.
--
-- How the model corresponds to the code:
-- * A member function is a function of the state before to the result and the state after. The state
--   of a connection holds the list of calls made so far; d_stmts, d_columns, d_lastsig,
--   d_lastreplace and d_meta are association lists, read with the default value for a missing key as
--   operator[] does.
-- * The loops over values, columns, rows and results are structural. The loop of std::lower_bound
--   runs on fuel, the length of the range, which is enough because each round shortens the
--   interval. The loops of commitThread are on the number of their rounds;
--   the loop that reads the pipe is on what is left of its own limit of 10000 messages; Delivery shows
--   how many rounds are enough. The loop over getRow is on rounds too, and one more than there are
--   rows is enough. The rounds of the commit thread of SQLiteWriter are those that come before a call
--   or before the destructor: it has no end of its own.
-- * The order in which an unordered_set iterates, std::to_string of a double and the clock are
--   parameters of the thread of PSQLWriter.
-- * unsigned int limits of time are natural numbers; the conversion to int that div makes is written
--   out, and so are those to a 64-bit signed number of bindPrep. The statistics wrap at 2^64. Times
--   are integers, since timespec is far from its bounds. A double is the 64 bits that stand for it.
-- * Undefined behaviour (a null column in helperFunc, a row that is too short in getSchema) ends in
--   the error `undefined`.
-- * One attempt of the loop that reads the pipe is a value: what the wait, where needWait is set, and
--   the read have given. `attempt` makes it from the reads and the results of poll; the theorems hold for
--   every sequence of attempts. The parameters of a statement are taken as libpq reads them, up to
--   their first NUL. pipe2 is taken to succeed; the code does not look at its result.
--
-- Not modelled: the output of commitThread of psqlwriter.cc to the console, and its call of
-- SetNonBlocking, which changes nothing but the flags of the pipe; ext/doctest.h, a test
-- framework of another project; the inside of SQLite, libpq, nlohmann::json and the operating system.
-- The static counters are kept per connection. The exception of a round of a commit thread or of a
-- destructor ends the process, so the states after one are not states of a program; pqdemo.cc takes
-- the end of its thread as a parameter.
pub mod Base
pub mod Text
pub mod Sort
pub mod Value
pub mod Sqlite
pub mod MiniSqlite
pub mod SqliteWriter
pub mod MiniPsql
pub mod PsqlWriter
pub mod JsonHelper
pub mod TestRunner
pub mod Demo
