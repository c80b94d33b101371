-- ===== src/Lib.antt =====
-- OpenESL is a C++ library of interfaces (`esl`) and of their implementations in feature libraries
-- (`features/*4esl`). Modelled here is the part of it that computes and that threads share: the text
-- utilities, URL, CSV and CRC-32, the command line arguments, the adapters of streams, the pools of
-- objects and of sessions, the message timer, the tasks and their threads, the appenders of the
-- logging, the registry, the ids of a processing context, and the columns, the fields and the result
-- set that every database driver fills.
--
-- The parts and how they interact
--   Utility.Split, Trim, Bool, Escape, Base16, Base64, UrlCoding: one module for each group of
--     functions of `esl::utility::String` (features/common4esl/src/esl/utility/String.cpp). `toBool`
--     calls `trim` and `toUpper`; `CSV::toRow` calls `toEscape` with a callback of its own.
--   Utility.Csv: `CSV::splitRow` and `CSV::toRow` (features/common4esl/src/esl/utility/CSV.cpp).
--   Utility.Url: the constructor of `URL` as a state machine over `NextFragment`, with one function
--     for each of `parseScheme` to `parseTag` (esl/src/esl/utility/URL.cpp).
--   Utility.ObjectPool: `ObjectPool<Object>` (features/common4esl/src/esl/utility/ObjectPool.h).
--     `get`, `release`, `purge` and `timeout_handler_wakeup` are what `get`, `release` and a round of
--     `timeoutHandler` do while they hold `objectsMutex`; Circulation has their interleavings as a
--     step relation, in which the deleter of a pointer is the step that releases it.
--   Utility.MessageTimer: `MessageTimer<Key, Message>` (MessageTimer.h in the same folder).
--     `take_elapsed` and `next_state` are the two locked blocks of `run`, `run_round` is one round of
--     its loop around the handler, which may add messages and stop the timer.
--   Utility.SessionPool: `SessionPool<Object, Key, CreateArgs>` (SessionPool.h in the same folder),
--     where callers share an object by its key. Calls has the interleavings; a pointer that was given
--     out releases its key.
--   Utility.Crc32: `CRC32` (CRC32.cpp in the same folder), with its table; Rounds and Bitwise have the
--     definition bit by bit.
--   Utility.Enum: the template `Enum` of esl/src/esl/utility/Enum.h; Names has the texts of HttpMethod,
--     MIME and Protocol.
--   Utility.StreamBuffer: `StreamBuffer` (StreamBuffer.cpp there), with `sputc` of `std::streambuf`.
--   System.Arguments: `Arguments` (esl/src/esl/system/Arguments.cpp), with `argumentSize` and
--     `argumentCopy`, which have to agree, and the ownership of the array of texts.
--   System.Task: `TaskBinding` (features/common4esl/src/common4esl/system/TaskBinding.cpp), one task
--     with its status, exception and callback. System.TaskPool: `TaskFactory` and `TaskThread`
--     (TaskFactory.cpp and TaskThread.cpp there), the queue and the threads, as a step relation with
--     one step for each stretch between two uses of a mutex or of shared state. A step in which a
--     thread is in `run` stands for all that System.Task says of `run`.
--   Database.Number, Conversion, Field: `Field` (esl/src/esl/database/Field.cpp and Field.h), with
--     the column types, the conversions between the four kinds of values, `setValue`,
--     `setValueOperator` and the assignments. A field tells its result set of a change.
--   Database.Column: `Column` (Column.cpp there). Database.ResultSet: `ResultSet` (ResultSet.cpp there),
--     which fetches rows through a `Binding` of a driver and saves what fields tell it was changed;
--     Fields has the assignment to a field of it (`edit`), which calls `setChanged` at its end.
--   Plugin.Registry: `Registry` (esl/src/esl/plugin/Registry.h and Registry.cpp), what it stores;
--     Plugin.Registry.Global: the pointers behind `get`, `set` and `cleanup`.
--   Monitoring.Location: `Streams::Location` and its comparison. Monitoring.MemBufferAppender and
--     OstreamAppender: the appenders of features/common4esl/src/common4esl/monitoring; Log has what
--     the first promises, Rows to Writing how its ring of rows keeps that.
--   Io.Input: the adapters of esl/src/esl/io/Input.cpp between consumers and writers:
--     `ReaderMemory`, `WriterConsumer` (`write`, `write_loop`) and `ConsumerWriter` (`consume`,
--     `flush_buffer`) as it is compiled without `ESL_1_6`, which no build file defines.
--   Io.Output: the adapters of esl/src/esl/io/Output.cpp in the other direction: `WriterMemory`,
--     `ReaderProducer` (`read_produced`, `read_loop`) and `ProducerReader` (`produce_read`).
--   Io.Buffered: `output::Buffered` of features/common4esl/src/esl/io/output, a reader that keeps what
--     it has read (`read`, `fetch`, `store_line`, `reset`); Records is about the calls before `reset`,
--     Replay about those after it.
--   Object.ProcessingContext: the ids of a processing context, in
--     features/common4esl/src/common4esl/object/ProcessingContext.cpp; Object.ProcedureRun: its
--     `procedureRun`, with the exceptions of the entries and the handler as values.
--   Prelude: the library names that the modules share, tests on numbers, lists over ℕ, bytes.
--   The modules below a component hold its proofs and are named for what they prove; the module
--     Tests of a component holds runs and concrete instances of the theorems.
--
-- How C++ is written here
--   A text is a list of bytes, below 256 where a theorem asks for it. `char` is signed, as on x86,
--   and the locale is "C". A position in a text is the rest of the text from there, and the byte
--   behind the end is the terminating zero. Where the code throws, the result is `none`. A pointer
--   that owns an array is an option of the list of its entries. A time is a number of nanoseconds,
--   read once for each call of `now()`; a `short` priority is moved up by 32768, which keeps the
--   order. Calls of the loggers are left out.
--
-- Bounds and fuel
--   The loop of the URL has fuel 6: each fragment is followed by a later one only. The loop over the
--   arguments has the length of the text as fuel: each round takes a character at least. The loops of
--   `write` and `read_produced` have the number of bytes as fuel: a round that moves none is the
--   last. The digits of a number have fuel 20, enough below 10 ^ 20, above every 64-bit value.
--   `std::stoll` refuses what does not fit 64 bits. The reads after `reset`, until one
--   returns `npos`, have one more than the bytes that are cached. The loop of `flush` has one more than the rows
--   that can be filled as fuel. The counts of circulating objects, of columns and of threads stay
--   below 2 ^ 64. A checksum has 32 bits. The
--   buffer of a stream has a size above 0.
--
-- Parameters
--   `double` is a type with the operations that the code applies to it (`DoubleOps`), of which no
--   law is assumed. What `createObject` returns, the clock, the message handler, the entries and
--   the exception handler of a context, the driver behind a result set (`Binding`), the callback of a
--   task and how its procedure ends, the layout of an appender, and the reader, the writer and the consumer behind an adapter
--   are arguments. A theorem may ask of a writer or a consumer that it takes bytes in order and says
--   how many (`Takes`, `Passes`), and of a producer that it gives its bytes in order (`Supplies`).
--
-- Not modelled
--   The other readers and writers of `io`, the start of a processing context, the loading of shared
--   libraries, and the drivers and adapters (curl4esl, mhd4esl, odbc4esl, sqlite4esl, zsystem4esl,
--   logbook4esl, opengtx4esl), which call libraries of others or the operating system; the loggers
--   and layouts, which format; the interfaces without code; the XML configuration; the templates
--   `toNumber` of String.h; a `createObject` that returns a null pointer, a `std::thread` that cannot be
--   started, and what `toBoolean` of a text writes out of bounds; how long the thread of a session pool waits; the wait of a task factory's
--   destructor for its threads.
mod Prelude
pub mod Utility
pub mod System
pub mod Database
pub mod Io
pub mod Object
pub mod Plugin
pub mod Monitoring
