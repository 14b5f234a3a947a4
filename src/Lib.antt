-- ===== src/Lib.antt =====
-- A verification library for MahSQL, a small relational database in C++.
--
-- The program has a query optimizer (parser, plan trees, rewriting rules, cost model), a query
-- processor, a concurrency control manager, a failure recovery manager and a storage engine with
-- a buffer pool and two kinds of index. The query processor drives the others: it asks the
-- concurrency control manager before it touches a row, logs each change with the failure
-- recovery manager, and reads and writes blocks of the storage engine.
--
-- What is modelled, and where:
--   Base: shared names, `std::map` and `std::set` as lists in key order (Base.Map, Base.Set), the keys
--   of maps (Base.Key) and their order (Base.Order), `std::string` as a list of bytes (Base.Strings),
--   `std::to_string` and `std::stoi` (Base.Numbers). Most laws of a map do not depend on the order.
--   Types: include/types.h. A number is the bit pattern of its C++ type.
--   Concurrency: include/concurrency_control.h and src/concurrency_control. RowHash is
--   `generate_row_hash`, over `std::hash` as a parameter; Timestamp is `TimestampCCManager`;
--   TwoPhase is `TwoPhaseLockingCCManager`, its wait-for graph in TwoPhase.WaitGraph and its locks
--   in TwoPhase.Acquire; Control is `ConcurrencyControlManager`, its calls in Control.Run. An
--   operation is a function from the old state to the new state and the result, with the source's
--   name. Each runs under a mutex, so the interleavings of threads are the sequences of calls in
--   Timestamp.Run and TwoPhase.Run. The search for a cycle has as fuel the number of waiting
--   transactions plus one; that it is enough is part of what is shown of `detect_deadlock`.
--
--   Recovery: include/failure_recovery.h and src/failure_recovery/failure_recovery.cpp. Entry has the
--   log's records; Codec and LogFile the binary log as lists of bytes, a failed stream being `none`;
--   CheckpointList the list of transactions in a checkpoint's query; Storage what is asked of the
--   storage engine, a record of its calls over any state, with undo_operation and redo_operation;
--   Manager the manager's state and its operations; Crash the analysis, the redo and the undo, the
--   constructor and the destructor, and Crash.Repeated is about two crashes one after the other. Each
--   operation runs under one mutex, so threads interleave as the calls of Manager.Run;
--   abort_transaction takes the mutex anew for each of its parts, so those parts that change state are
--   also calls of their own there. A file is read with its length as fuel; a log entry takes at least
--   twenty bytes. The maps of a row and of a schema are written in the order of their names, one of
--   the orders that an unordered map may have.
--
--   Parser: include/query_optimizer.h and src/query_optimizer/parser. Query has `ParsedQuery`; Split and
--   Conditions are utils/parser_utils.cpp; Select, Dml, Ddl and Sql the files of these names. What a
--   parser function writes to its `ParsedQuery&` is its result. A position is a number, npos `none`;
--   `std::stod` is a parameter. The loops over conditions and joins have as fuel the number of
--   characters and of tokens, of which each round takes at least one (Conditions.Rounds, Select.Joins).
--   Conditions.Joined is about clauses that are put together of their conditions.
--
--   Storage: include/storage_manager.h and src/storage_manager/buffer_manager.cpp. Page is the bytes of
--   rows and of pages in a data file, read with their number as fuel, as each row takes four bytes at
--   least; Pool the state of `BufferManager`, its files and the choice of the page to evict; Buffer its
--   operations. An exception is `none`; a pointer to a page is the entry of the pool under its key; the
--   time is an argument. Contents, Coherent and Entries relate the pool to the files.
--
-- Not modelled: console output, the log for reading people, sockets, the terminal; counters that
-- overflow `int`; a write to an open file that fails; and the components
-- that no file here names.
pub mod Base
pub mod Types
pub mod Concurrency
pub mod Recovery
pub mod Parser
pub mod Storage
