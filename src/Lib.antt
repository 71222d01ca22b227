-- ===== src/Lib.antt =====
-- A model of DiceDB, an in-memory key-value database in Go, and what holds of it.
--
-- The program. A client's connection has an io-thread (internal/server/ironhawk/iothread.go). It reads
-- a command, executes it (internal/cmd/cmds.go), logs it, answers, and hands it to the watch manager
-- (internal/server/ironhawk/watch_manager.go), which tells the clients that watch the command's key.
-- To execute a command is to look up its handler, to choose the shard of its first argument by a
-- hash (internal/shardmanager), and to run the handler on the shard's store (internal/store). A store
-- is a table from keys to objects and one from objects to expiry times, with a key count that drives
-- the eviction of the keys that were accessed least recently. A cron task removes expired keys.
--
-- The files.
-- Prelude: shared names, bytes, int64 arithmetic. Strconv, Upper: strconv.ParseInt, %d,
--   strings.ToUpper.
-- Table: internal/common/regmap.go. Object: internal/object.
-- Store: internal/store. Store.State has the state, NewObj and the notification; Expiry, Delete,
--   Evict, Put, Access and Sweep have the operations under the names of the source (put_helper is
--   putHelper). Invariant says when a store is well formed, and View what a client can see of it: the
--   children of both show what the operations do to them. Evict.Order is about the choice of victims.
-- Wire: results, errors, and panics as values. Shard: internal/shardmanager, internal/shardthread.
-- Cmd: internal/cmd. Env has what is used from outside, Params the options, Strings, Counter,
--   Expire, Keyspace, Hash and Session the eval functions, Watched those of HGET.WATCH and
--   HGETALL.WATCH, Execute and Dispatch the execute functions and the registry. A child Laws has the theorems of its
--   parent, Strings.Reads and Strings.SetGet those on GET, and Keeps says that commands keep a store
--   well formed.
--   Cmd.Reach has the stores that are reached by all of these.
-- Sorted: internal/types/sortedset.go; Sorted.Commands and Sorted.Watched the eval
--   functions of internal/cmd/cmd_z*.go.
-- Wal: internal/wal/wal_forge.go, Wal.Replay its ReplayCommand. Wal.Contents and Wal.Quiet say what a
--   call does to the bytes of the segments, Wal.RoundTrip and Wal.Rounds what a replay makes of them.
-- Auth: internal/auth/session.go.
-- Sketch, Bloom, Deque: the data types of internal/eval/countminsketch.go, type_bloomfilter.go with
--   bloom_utils.go, and deque.go. Deque.Basic has DequeBasic; Deque.Codec reads entries from their
--   start, Deque.Backwards and Deque.Ends from their end, Deque.Client and Deque.Insert compare with
--   a list. Deque.Linked has Deque over the nodes of bytelist.go; its children Heads, Firsts
--   and Tails are about its two ends, Client about both, Range about LRange.
-- Eval: the commands of internal/eval. Fetch has their common start. HashMap (hmap.go), Hash with
--   Hash.Scan, Sets, Strings (with type_string.go) and Arrays have those of store_eval.go on hashes,
--   sets, strings and keys, and the array helpers. ByteArray (bytearray.go) with Fields has byte
--   arrays and their fields, Bits and Bits.Count SETBIT, GETBIT and BITCOUNT, BitPos bitpos.go,
--   BitField BITFIELD with internal/server/utils/bitfield.go. A child Laws has the theorems of its
--   parent; Fetch.Laws and Sets.View compare with the view of a store, ByteArray.Counts is about
--   counting ones, ByteArray.Aligned about fields.
-- Watch: the watch manager. Watch.Reach has its reachable states, Watch.Notify is about whom
--   NotifyWatchers tells what. Serve: a round of the io-thread's
--   loop and the thread manager. Varint: internal/dencoding/int.go.
-- Tests: a store with two keys, and every theorem with hypotheses at a concrete input.
--
-- The model. An object is a number that points into a heap, since the expiry table is keyed by the
-- object's address; the heap only grows. A state is passed on explicitly, a call takes one reading of
-- the clock, and a run-time panic is a value of Run. Strings are bytes, int64 is an integer with its
-- wrap-around written out. Go's maps are association lists in the order in which a range meets them.
-- Every loop is a structural recursion, but for two that run on fuel: the printing of numbers, with
-- the number plus one, since no number has more digits, and the replay of a segment, with its length
-- plus one, since a round takes a byte at least.
--
-- Outside of the model: the hash functions, ParseFloat and the printing of floats, and path.Match are
-- parameters (Cmd.Env), and so are protocol buffers and the checksum (Wal.Codec), bcrypt (Auth.Bcrypt),
-- the skip list under sorted sets (Sorted.SetOps), and the hashes and computed sizes of the sketches.
-- The compiler of glob patterns (Eval.Hash.Scan) and the growth of a buffer by append (Deque.Linked)
-- are parameters too. container/heap is used through its contract. A write of the log that fails is a
-- flag of Wal.Files, but a buffered writer that has failed keeps no error. Memory is taken to suffice.
-- Connections, goroutines, metrics and logging are left out; what a ticker of the log starts is a step
-- of its own (Wal.RoundTrip). Of the library internal/eval, which the registry of commands does not reach, the commands on JSON, geography, HyperLogLog, sorted
-- sets, sketches, filters and lists are left out, and so are LInsert of Deque and the serialisation,
-- but for that of the count-min sketch (Sketch.Serial).
pub mod Prelude
pub mod Table
pub mod Upper
pub mod Object
pub mod Store
pub mod Wire
pub mod Strconv
pub mod Varint
pub mod Shard
pub mod Cmd
pub mod Watch
pub mod Serve
pub mod Sorted
pub mod Wal
pub mod Sketch
pub mod Bloom
pub mod Deque
pub mod Eval
pub mod Auth
pub mod Tests
