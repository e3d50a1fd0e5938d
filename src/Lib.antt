-- ===== src/Lib.antt =====
-- tiny-redis-server: an in-memory key-value server that speaks RESP2.
--
-- A connection's bytes go through a request parser (src/resp.cpp), whose requests are executed
-- one at a time by `Dispatch` (src/commands.cpp) against sixteen key spaces (src/db.cpp); the
-- replies are appended to the connection's output buffer.
--
-- The files:
-- - Base and its children: the library names that the other files share, byte strings, integers
--   of 64 bits (Base/Int), decimal texts (Base/Decimal: `ParseIntStrict`, `std::to_string`),
--   doubles as bit patterns (Base/Double), and the standard containers: Base/Dict is
--   `std::unordered_map` as the list of its entries in the order of its iterators, Base/StrSet
--   is `std::unordered_set<std::string>`.
-- - Value: include/value.h, the five types of values.
-- - Db: src/db.cpp and include/db.h. Db/Sizes and Db/Accounting are about `used_memory`,
--   Db/Invariant about the shape of the tables, Db/Visible about what a client can read (an
--   entry whose expiry time is 0 or still to come), Db/Purge about `Lookup` and its lazy expiry,
--   Db/Expire about `ActiveExpireCycle`.
-- - Resp: Resp/Replies has the encoders of src/resp.cpp and include/resp.h, Resp/Parser the
--   `RequestParser`; its children are about what it consumes and reads back.
-- - Glob: `GlobMatch` of src/commands.cpp, with its meaning as the relation `Matches`.
-- - Commands: the handlers of src/commands.cpp, one function for each (`cmd_lrange` is the
--   branch LRANGE of `Dispatch`, `cmd_pop` is `CmdPop`). Commands/Lists/Windows,
--   Commands/Sets/Algebra, Commands/Strings/Expiry, Commands/Numbers/Counted,
--   Commands/Keys/Shown and Commands/Keys/Renamed have their theorems; Commands/Shown is about
--   what a handler leaves to be seen. Commands/State has what they share: the state that
--   `Dispatch` is given, the replies and the typed lookup.
-- - Commands/Zsets and Commands/ZsetRanges are the sorted set commands, Commands/Admin and
--   Commands/Info the commands about the server, and Commands/Handle is the chain of branches in
--   `Dispatch`, which fills the parameter of Dispatch. Their children Counts, Sections and
--   Complete have theorems.
-- - Zskiplist: src/zskiplist.cpp and include/zskiplist.h, the skip list with its nodes on an
--   explicit heap; what only reads it is in Zskiplist/Range. Zskiplist/Order is about the keys,
--   Zskiplist/Chain, Zskiplist/Search and Zskiplist/Path about where a search ends,
--   Zskiplist/Lookup about what it finds; Zskiplist/Frame to Zskiplist/Inserted follow an
--   insertion through its loops.
-- - Rdb: src/rdb.cpp. Rdb has the encoders and `Serialize`, Rdb/Load the `Reader` and what
--   `LoadFromFile` does with the bytes, Rdb/File the calls to the file system; Rdb/Codec,
--   Rdb/Values, Rdb/RoundTrip and Rdb/Atomic have theorems.
-- - Dispatch: the guards of `Dispatch` and the transactions, with the arity table in
--   Dispatch/Arity. Dispatch/Queue and Dispatch/Transaction are about commands that are queued
--   and run, Dispatch/Fuel and Dispatch/Keeps about its recursion and its state.
-- - Tests and its children: sample states.
--
-- State and results. A handler takes the arguments and a `State` (database, client, statistics,
-- output) and returns a `Run State`; `fault` is undefined behaviour, a null pointer followed or
-- a position out of range, or a recursion whose fuel is spent. The clock stands still while a
-- command runs, so `NowMs()` is the field `now_ms` of the record `Env`. A pointer that `Lookup`
-- returns is modelled by the entry, and a write through it by `write_through`. Comparing with
-- `end()` of a map behind a null pointer (HGET, HMGET and HSTRLEN of a missing key) reads no
-- memory, and is modelled as the answer that no entry was found.
--
-- Parameters. The numbers of the random generators, `std::shuffle`, and `long double` with
-- `strtold` and the format `%.17Lf` are fields of `Env` and `LongDouble`; the coin flips of an
-- insertion into a skip list (a number of `random()` below a quarter) are the functions `flips`;
-- `strtod`, the sum of doubles and the format `%.*g` are the record `Floats`, and the order of
-- doubles is read off their bits (Base/Double). The file system is the record `FileSystem`, and
-- what POSIX says of it `IsPosix`, where distinct paths are taken as distinct files, without
-- links and without two spellings of one path. In Commands/Handle a command finds the clock, the
-- time of the last save and the outcome of `SaveToFile` and `BgSaveFork` in a `World`, which may
-- depend on the command and on the state. The chain of branches is listed there in the order of
-- the arity table, which changes no answer, since the names are distinct.
--
-- Integers. `long long` values are integers whose sums are wrapped to 64 bits where the source
-- can overflow (`scale`, `wrap64`, `add_overflow`); `size_t` sums are taken modulo 2^64. Lengths
-- of strings and containers are unbounded natural numbers.
--
-- Fuel. `glob_loop` has (|text| + 2) * (|pattern| + 1) rounds, since the star begins at a later
-- byte each time that the loop goes back. `parse_loop` has as many rounds as the buffer has
-- bytes, since each request takes one at least. `dispatch` has two levels, EXEC and the commands
-- that it runs, none of which is EXEC.
--
-- Skip list. A pointer is the address of a node, and an insertion takes the next address that
-- was never used. A position behind the end of `forward` reads as the null pointer there. `walk`
-- has as many rounds as the list has nodes. Spans are `unsigned long` and wrap at 2^64.
--
-- Not modelled: src/server.cpp and src/main.cpp (sockets, the event loop, signals, arguments);
-- the destructor of the skip list; memory that runs out.
pub mod Base
pub mod Value
pub mod Zskiplist
pub mod Db
pub mod Resp
pub mod Glob
pub mod Rdb
pub mod Commands
pub mod Dispatch
mod Tests
