-- ===== src/Lib.antt =====
-- Titan: a distributed key-value store, written in Go.
--
-- A node keeps its data in a Bitcask engine: append-only log files data-<id>.log in one directory, and
-- an in-memory directory of keys that tells where the latest record of each key is. A compactor copies
-- the live records into one new file. The API in front of the engine tests for empty keys. The other
-- packages replicate the engine by Raft, place keys on nodes by consistent hashing, and serve it by gRPC.
--
-- Files, with the code that each models:
--   Common               Go's comparisons, byte strings, white space, maps, errors and ints
--   Storage/Codec        the record format of storage/bitcask.go: binary.Write, binary.Read, io.ReadFull
--   Storage/Names        fmt.Sprintf and fmt.Sscanf of data-%d.log
--   Storage/Disk         the directory, the os and os.File calls of the engine
--   Storage/Exec         the state of the engine, and methods as functions on it that may fail
--   Storage/Bitcask      storage/bitcask.go on an open engine: Put, Get, Delete, Close, rotateFile
--   Storage/Recovery     storage/bitcask.go on opening: NewBitcask, recover, readDataFile
--   Storage/Compaction   storage/compaction.go
--   Storage/Api          storage/api.go
--   Storage/History      the calls of storage/api.go in sequence, with compactions between them
--   Sharding/Sorted      sort.Slice and sort.Search, as sharding/ring.go uses them
--   Sharding/Ring        sharding/ring.go; Ring/Replicas its GetReplicas
--   Sharding/Membership  sharding/membership.go, but RefreshClients
--   Raft                 raft/fsm.go, and ApplyLogEntry of raft/node.go
--   Raft/Node            the rest of raft/node.go but Close and State, raft/join.go, and Persist of raft/fsm.go
--   Raft/Effects         what the entries of a log write, and that Apply of raft/fsm.go does that
--   Raft/Replication     several state machines to which the Raft library gives one log, as a step relation
--   Server               the handlers of server/server.go and server/raft_server.go
--   Server/Client        client/client.go: what it makes of a response
--   Server/Connection    client/client.go: its methods on a connection
--   Server/Sharded       the handlers of server/sharded_server.go
--   Server/Repair        the read repair of server/sharded_server.go
--   Server/Replicated    what a client of a leader of server/raft_server.go is shown
--   Server/Committed     the state behind an entry that the library commits
--   Server/Cluster       several servers of server/sharded_server.go that forward to each other
--   Server/Start         the starts of the three servers
--   Cmd/Text             package strings, as the programs use it
--   Cmd/Peers            the membership that cmd/server/main.go starts with
--   Cmd/Server           main of cmd/server/main.go
--   Cmd/Cli              the session of cmd/cli/main.go
--   Cmd/Demo             the demonstration of cmd/kv/main.go
--   Examples             tests, and uses of the theorems on concrete states
--
-- A byte string is a list of numbers. A method of the engine is a function of the engine and the
-- directory; its mutex is left out, since each method holds it throughout. A directory carries a list
-- of the faults that its next calls meet; a fault on a write says how many bytes reach the file. Go
-- visits the entries of a map in an unspecified order, which is a parameter `range` of the code that
-- does so. The loop of readDataFile runs on fuel, one more than the bytes of the file, of which each
-- round takes at least eight. The loop of cmd/cli takes the lines of the input as a list, of which the
-- scanner refuses one of 64 KiB or more. The loop of GetReplicas runs on fuel, one more than a round
-- for each key of the ring and each node wanted, since a node is found at the latest after one turn
-- around the ring. The Raft library, package grpc, an RPC and a sink are parameters: functions on a
-- state.
--
-- In Raft/Replication the library hands each state machine the committed entries in their order, as
-- its documentation says; a node that is opened again gets them from an earlier place on. That the
-- library installs a snapshot on a node that lags behind is no step of that relation; what it leads to
-- is shown apart, in Raft/Replication/Restored.
--
-- Not modelled: flags, tickers, signals and deferred calls of the programs, most logging, the
-- generated protobuf code, and what a machine crash does to files that were written but not synced.
-- RefreshClients of sharding/membership.go and Close of raft/node.go are left out since they do not
-- compile.
pub mod Common
pub mod Storage
pub mod Sharding
pub mod Raft
pub mod Server
mod Examples
pub mod Cmd
