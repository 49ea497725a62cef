-- ===== src/Lib.antt =====
-- josefina: the stores, the election, the models and the commands of the josefina database.
--
-- A node of the database keeps each index of a collection in a store (internal/store): an append-only
-- log of records in data files, an index from ids to the newest record of each, and a snapshot of the
-- index. The nodes elect a leader (pkg/jdb/raft.go). A model (internal/dbs) names the fields, indexes
-- and keys of a collection; a query tests its documents against conditions, and a command checks a
-- change and adds it to a transaction, whose commit writes the documents into the stores.
--
-- Store.Bytes is internal/store/types.go: numbers in bytes, and the checksum.
-- Store.Segment is internal/store/segment.go with newRecordHeaderAt of internal/store/store.go: a data
--   file, WriteRecord, ReadHeader and read. The goroutine that owns the file is `loop`, and the chunk
--   that it has taken and not yet written is `pending`.
-- Store.FileStore, Store.Ops, Store.Rebuild and Store.Listing are internal/store/store.go: the state,
--   Put, Delete, Get, newSegment and appendRecord, rebuildIndex, and Keys with getRecords.
-- Store.Iterate is Iterate of the same file: its producer, its channel and its workers as steps of
--   which any that is possible may be the next.
-- Store.Open is loadSegments and open of the same file.
-- Store.Compact is internal/store/compact.go, with Prune of internal/store/store.go.
-- Store.Snapshot is internal/store/snapshot.go.
-- Store.Log is the meaning of a history of records, and Store.Invariant what holds of a store.
-- Store.Durable is the same over restarts: what the files and the snapshot on the disk mean. Its
--   actions are Put, Delete, restarts, the writes of the goroutines, and the run of a Compact that a
--   Put or a Delete has started; Store.Examples.Lost has tests where Compact runs.
-- Raft is pkg/jdb/raft.go: every method that holds the lock is a step, Reach any number of them.
-- Dbs.Value, Dbs.Helpers, Dbs.Operators, Dbs.Condition and Dbs.Build are internal/dbs/helppers.go and
--   internal/dbs/condition.go. Dbs.Where is the list of conditions and the item test of
--   internal/dbs/where.go, and Dbs.Run its Run, with Select and Hidden of internal/dbs/helppers.go.
--   Dbs.Json is the JSON of a condition and of a list of them, in the two files.
-- Dbs.Model is internal/dbs/from.go, field.go and detail.go with the struct of internal/dbs/model.go;
--   Dbs.Define is internal/dbs/define.go and internal/dbs/schema.go.
-- Dbs.Objects is the rest of internal/dbs/model.go: it uses the stores through the interface KeyStore,
--   whose laws are KeyStoreLaws, and Dbs.Objects.Files fills it with the store of internal/store.
-- Dbs.Tx is internal/dbs/tx.go, and Dbs.Cmd, with Dbs.Cmd.Execute, internal/dbs/cmd.go. Their methods
--   are steps of Dbs.Step: a state, and a result beside the state that is left. Dbs.Cmd.Build makes a
--   command, and Dbs.Db is internal/dbs/db.go.
-- Store.Examples, Raft.Examples and Dbs.Examples, with their children, apply the theorems to concrete
-- data.
--
-- An error is a value of Result or Exec, where `panic` is a panic of Go; in the conditions it is
-- none. A step of the store is one call, since its locks keep the calls apart. The scan of a data
-- file takes the file's length and one more as fuel, and a record has twelve bytes or more. Sizes
-- and offsets, int64 in Go, are natural numbers that no file reaches the bounds of; the counter WAL
-- and the numbers that are written to files wrap around as in Go. float64, strs.Split,
-- strs.Lowcase, the Json of an et.Json, fmt.Sprintf, json.Marshal and json.Unmarshal are arguments,
-- and so are the clock, new ids and the calls of other nodes. What JSON reads back need not be what
-- was written: a number is a float64 then. A map is the list of its entries in the order
-- of the range over all of them, which is random in Go; where a test takes the first entry only, an
-- argument says which that is.
-- The workers of a query call its function one after the other, in any order, and those beside one
-- that has stopped may call it again; that two of them append at the same time is left out.
--
-- Not modelled: the directories of a store; a query in place of the value of a condition, which
-- runs on a model of its own; the JSON of the definitions and of the databases, and the engine of
-- the triggers; the network, the web sockets and the caches; and pkg/old, an earlier copy of this
-- code. File calls succeed, but for reads past the end and calls on a closed file.
pub mod Prelude
pub mod Store
pub mod Raft
pub mod Dbs
