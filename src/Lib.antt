-- ===== src/Lib.antt =====
-- Verification library of pq-async, an asynchronous C++ wrapper of libpq (`src/`, `include/pq-async/`).
--
-- The program. A `database` runs queries through tasks on an event queue. A task takes the connection of
-- its database from the pool of connections, sends one command by libpq and hands its results to
-- a callback. A script of several queries is split into its queries, which run in one transaction. The
-- values of a result become C++ types by decoders of their own.
--
-- The parts and their files.
-- * `Connection`, for the class `connection` and for `connection_lock_t`
--   (`include/pq-async/data_connection_pool.h`, `src/data_connection_pool.cpp`): a record with the members
--   and a monad of state and exceptions with the calls that the methods make on their libpq handle. One
--   definition for each method, under its name. What libpq and the clock answer during a method is its
--   argument `Env`. `WorkLock` has the constructor and the destructor of `connection_lock_t`.
-- * `Pool`, for `connection_pool::_get_connection`, `_get_opened_connection_count` and the destructor
--   (`src/data_connection_pool.cpp`): the map from a connection string to its vector is an association
--   list, a pointer to a connection is its `_id`, and the member `_conn` of each database is the function
--   `attached`. `get_connection` composes `sweep` (the clean up), `reuse`, `create` and `steal`. The
--   destructor is in `Pool/Destroy`.
-- * `Task`, for `connection_task_t` and `reader_connection_task`
--   (`include/pq-async/data_connection_pool.h`, `src/data_connection_pool.cpp`): `run_task`, `requeue`,
--   `run_now` and the setters as steps with their effects in order, and `drive`, which runs a task as the
--   event queue does. What libpq, the pool and the clock answer is the argument `Answers`. The reader is in
--   `Task/Readers`.
-- * `Script`, for `database_t::split_queries` (`src/database.cpp`): the scanner, one definition for each
--   branch. `Pieces` and `Reads` describe queries by their literals, quotes and remarks, without
--   the scanner.
-- * `Exec`, for `database_t::exec_queries` (`src/database.cpp`) with `begin`, `commit` and
--   `open_connection` (`include/pq-async/database.h`): it uses `Script.split_queries` and the methods of
--   `Connection`.
-- * `Async`, for the methods of `database_t` for transactions that take a callback
--   (`include/pq-async/database.h`): what they put on the queue, and the callbacks behind it.
-- * `Range`, for `range<T>` (`include/pq-async/pg_type_range_def.h`, `src/pg_type_range_def.cpp`): flags,
--   bounds and inclusions; `Range/Parse` has the text of a range in both directions.
-- * `Table`, for the methods `_process_execute_result`, `_process_query_result` and
--   `_process_query_single_result` (`src/database.cpp`) and for `data_table_t`, `data_row_t`,
--   `data_column_t` and `data_columns_container_t` (`src/data_table.cpp`, `src/data_row.cpp`,
--   `src/data_column.cpp`, `include/pq-async/data_columns_container.h`): a `PGresult` is the record of
--   what libpq answers about it.
-- * `Table/Reader`, for `data_reader_t` (`include/pq-async/data_reader.h`): the calls of `next` that return a row.
-- * `LargeObject`, for `data_large_object_t` (`src/data_large_object.cpp`, `include/pq-async/data_large_object.h`): the
--   operations on a `Db` of `Exec` with the locks of `Connection/WorkLock`; `Histories` compares them with the object alone.
-- * `Codec`, for `swap2`, `swap4` and `swap8` (`src/utils.cpp`) and the encoders and decoders of
--   `src/data_parameters.cpp` and `include/pq-async/data_parameters.h`: integers here, words at a pointer in
--   `Words`, geometric values in `Geometry`, ranges and numerics in `Spans`, addresses in `Networks`, times
--   and their ranges in `Times`, arrays in `Arrays`. `Conversions`, `Moments` and `Typed` have `val_from_pgparam`,
--   which looks at the number of the type. A read behind the end of a value is the fault `outside`.
-- * `Money`, for `money` (`include/pq-async/pg_type_cash_def.h`, `src/pg_type_cash_def.cpp`): amounts as integers with
--   a count of digits, the operators and the conversions under names.
-- * `Numeric`, for `numeric` (`include/pq-async/pg_type_numeric_def.h`, `src/pg_type_numeric_def.cpp`): digits in base
--   10000 with a weight, a sign and a scale. `Signed` has `add_var`, `sub_var` and the operators, `Values` the
--   rounding and the conversions with integers; `Digits` says what digits count.
-- * `Params`, for `parameters_t` (`include/pq-async/data_parameters.h`): the list of parameters and the
--   arrays that libpq gets, with the `new` and `delete` of each method as events on addresses.
-- * `Common`, with Boolean tests, lists and texts over the native numbers, and results that may be errors.
-- * `Tests`, with runs at small inputs.
--
-- Numbers, bounds, fuel. Counters, times (in nanoseconds) and identities are natural numbers: the source
-- never lets a time or a count become negative where it subtracts. A text is its list of bytes. Every loop
-- is structural recursion on what it runs over: the index for the clean up, the text for the scanner, the
-- queries of a script, the runs of a task, the points, digits or elements of a value, which are counted first. The loop of the theft runs over the list of the
-- readings of the clock that it makes, one for each pass. There is no other fuel. The
-- ticks of dates and timestamps are of the years 1 to 32767, where the calendar library leaves them as they
-- are, and the amounts of money are within 64 bits, beyond which the source is undefined.
--
-- Code of others is a parameter: libpq, the clock and the event queue by their answers, the functions of
-- the library md and of boost by the records `Strings` and `Bound`, those of
-- `arpa/inet.h` by the record `Net`, `md::jagged_vector` by `Jagged`. So are the constructors of value
-- types from a text, which are behind the binary format that the library asks for.
--
-- Not modelled: the mutexes, as every definition is one critical section; the log; the reference counts
-- of shared pointers; the wrappers of callbacks and promises around the operations of a database; the
-- formats of json, uuid, bytea, money and times with a zone; the types of values but ranges, money and
-- numerics, of which the products, quotients, roots, powers, logarithms and texts are left out; the functions of
-- ISC for network addresses.
mod Common
pub mod Async
pub mod Codec
pub mod Connection
pub mod Exec
pub mod LargeObject
pub mod Money
pub mod Numeric
pub mod Params
pub mod Pool
pub mod Range
pub mod Table
pub mod Task
pub mod Script
mod Tests
