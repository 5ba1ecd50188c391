-- ===== src/Lib.antt =====
-- The plugins of this repository, modelled and proved.
--
-- The repository holds five small programs for MySQL and MariaDB, each in a version for Linux and
-- one for Mac, and each independent of the others: two greeting functions, an aggregate function
-- for the median, a daemon that logs the state of the system, and a storage engine that shows a
-- parquet file as a read-only table. They share no code; what they have in common is the way that
-- a server calls them: it initialises them, calls them any number of times, and deinitialises
-- them.
--
-- * Parquet models Source/05_ReadParquet/Linux/ha_parquet.cc and ha_parquet.h, the engine
--   READ_PARQUET. Sidecar has `create`, `delete_table`, `write_prq_meta` and `read_prq_meta`,
--   that keep the path of a table's parquet file in a sidecar file; the file system is a function
--   from a path to the bytes of the file (Libc/Files). Sidecar/Full has the same two writes where
--   the disk takes only the first bytes of the line. Handler has the members of `ha_parquet` as a
--   record and a function for each operation: `get_share`, `open` (named `ha_open`), `close`, the
--   scan (`rnd_init`, `rnd_next`, `rnd_end`), the access by position (`position`, `rnd_pos`),
--   `info`, the locks, and the writes that are refused. An operation gives its result and the
--   handler it leaves; one that reads through a null pointer gives `none`. Row has `fill_row`:
--   the search for a column's chunk, the switch over the Arrow types, and the loop over the
--   fields, as the calls that each field gets. Date, Timestamp and HalfFloat have the conversions
--   of the switch, with their machine arithmetic written out. `open` reads the sidecar that
--   `create` wrote, the scan calls `fill_row` for each row, and `rnd_next` saves the position
--   that `rnd_pos` takes. Handler/Calls runs any calls of the server in any order; Handler/Cursor
--   is the specification of an open table, a list of rows with a place in it, Handler/View says
--   which cursor a handler stands for, and Handler/Refine compares the two. Registration has
--   `parquet_init` and `parquet_create_handler`. Sessions puts them together: the sessions of one
--   table, each with a handler that was made through the handlerton, whose calls interleave, and
--   which share the files and the table's share. A call is one step there; Sessions/Locking takes
--   `get_share` apart into the steps between which other sessions come, the lock being the
--   server's, and Sessions/Opening puts these steps into `open`, among the other calls of the
--   sessions, and compares that with the whole calls. Handler/Capabilities has what the engine
--   tells the server of itself.
-- * Parquet/Mac models Source/05_ReadParquet/Mac/ha_parquet.cc and ha_parquet.h, a second copy of
--   the engine that is kept by hand. It is translated on its own, by its own loops: Values has
--   the conversions, Sidecar the helpers, Row `fill_row`, Engine the operations, Calls `open` and
--   the runs, and Sessions the sessions of a table. What belongs to the server and to Arrow is
--   shared with the other version.
-- * Median models Source/03_Median/Mac/my_median.cpp (Udf) and Source/03_Median/Linux/median.cpp
--   (Linux), function by function. The state is what `initid` points to, the flag behind
--   `is_null`, and the number of blocks that are allocated. Sort is `std::sort`. Bag is the
--   specification of both: the median as a function on a quotient, the values without their
--   order.
-- * Logger models Source/04_OS_logger/Linux/os_logger.cpp: System has the two variables that the
--   server and the thread share, and the steps of both, which interleave in any order; Rate
--   counts the threads that such a run has started.
-- * Monitor models Source/04_OS_logger/Mac/my_resource.cpp. Cpu, Memory, Disk and Database are
--   its `..._get` functions, Loop is `monitor_thread_func` by whole rounds, Plugin starts and
--   stops the thread, and Variables has the tables of system and status variables, with runs of
--   the thread between which the interval is set. Concurrent puts them together: the server, the
--   sessions and the thread as one system, with a step for each access of the thread to the flag,
--   the interval, an indicator or the error log, so that between any two of them the interval is
--   set, SHOW STATUS is read or the plugin is stopped.
-- * Greeting models Source/02_HelloWorld_Args: Mac is `helloworld` with its buffer on the heap,
--   Linux is `hello_world` with the buffer that the server gives it. Constant models
--   Source/01_HelloWorld.
-- * Common and Libc have what they share: integers over the native numbers, machine words, lists,
--   and the functions of the C library that the code calls.
--
-- What is not in the repository is a parameter: Arrow's tables and its reader, which goes by the
-- path and by what the file of that name holds, so that a sidecar that is written over a parquet
-- file is seen; the server's constants, its shares, its byte order and the lock data of a handler
-- that is not initialised yet; the answers of the operating system and of the client library. A
-- library's failure is a value that the parameter can take. A double is an element of an ordered
-- type with a sum and a half; a floating-point number that the engine passes on is its bits.
--
-- Loops are recursions on a list or on a number that counts them down, so that nothing runs on
-- fuel: the loop over the fields counts the fields, the search runs over the chunks, a scan in a
-- proof counts the rows. Machine words are 64 bits for `size_t`, `long long`, `unsigned long` and
-- `my_off_t`, and 32 bits for `int` and `uint`; each operation that can wrap around is written
-- with its `%`, and signed overflow, which is undefined, wraps around in the date helper and is
-- left as the integer elsewhere. The bound FN_REFLEN of a path is a parameter.
--
-- Not modelled: the descriptors of the plugins, which are data for the plugin loader; the bytes
-- that a Field writes into a row; files that have more than one name, by a link or a relative
-- path; what the server does with its locks; the order in which two processors see unsynchronised
-- writes of the indicators; build files, pages and binaries.
pub mod Common
pub mod Libc
pub mod Parquet
pub mod Median
pub mod Monitor
pub mod Logger
pub mod Greeting
