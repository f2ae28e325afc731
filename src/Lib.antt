-- ===== src/Lib.antt =====
-- mq, a message broker that speaks Kafka's wire protocol, in antt.
--
-- The program's parts, and the files that model them:
--   * Kbytes models internal/kbytes: Reader (reader.go) is a state monad on the unread bytes with a
--     sticky error, Writer (writer.go) a function that appends; Codec has the laws that join them.
--   * Protocol models internal/protocol: Header (header.go, apikeys.go), Fetch (fetch.go), Produce
--     (produce.go), Membership (group.go), Offsets and OffsetAnswers (offsets.go and listoffsets.go),
--     Metadata (metadata.go, apiversions.go), Admin and AdminAnswers (createtopics.go,
--     createpartitions.go, describegroups.go, listgroups.go).
--   * Replication models the wire format of internal/replication/replication.go: Wire.Request is
--     encodeFetch, Wire.Response is readFetchResponse with writeResponse of internal/server/server.go.
--   * Record models internal/record/batch.go: Batch has the header and the patches, Iterate the walk
--     over a record set with its callback; WellFormed says what a whole batch is.
--   * Storage models internal/storage: Index (index.go), Segment (segment.go), Log (log.go), Recovery
--     (Open and recoverActive of log.go), Backend (backend.go) as a record of operations and laws.
--   * Storage.Object models internal/storage/object: Wal (wal.go), Index (index.go), Store (storage.go:
--     append and upload), Recovery (storage.go: NewStorage, replay, Log), Read (the batch scans of
--     read.go), Log (log.go, retention.go and the rest of read.go).
--   * Cluster models internal/cluster/cluster.go, the placement that every broker computes.
--   * Controller models internal/controller: Fsm (fsm.go, command.go, indexstore.go) is the
--     replicated metadata and its commands, Failover (liveness.go) the election of new leaders.
--   * Group models internal/group: Coordinator (coordinator.go) is one consumer group, Groups the
--     coordinator's map of them, Offsets (offsets.go) the committed offsets.
--   * Broker models internal/broker/broker.go: the state and its queries, Topics (creation, open logs),
--     Replicas (replica progress, high watermark, in-sync sets, reconciliation with the metadata).
--   * Server models internal/server: Fetch, Produce, Offsets, Topics and Groups are the handlers of
--     handlers.go, Conn the loop of a connection in server.go.
--   * Common has lists, tests, machine words, keys and maps; Decimal is strconv.Itoa; Tests has
--     concrete runs.
--
-- How they interact: a connection (Server.Conn) cuts requests out of its bytes, the handlers (Server)
-- ask the broker (Broker) for the log of a partition, and call it through Storage.Backend, which the
-- file log fills. A follower's fetch (Replication) is decoded by the broker (Protocol over Kbytes);
-- the batches in an answer go to AppendReplica (Storage.Log), which parses them (Record). The offset
-- that a follower asks for is its progress (Broker.Replicas), from which the high watermark follows.
-- A failover check (Controller.Failover) reads the metadata and proposes commands that Controller.Fsm
-- applies. Placement (Cluster) seeds the replicas of a new topic.
--
-- A Go function keeps its name in snake_case. An intN is its bit pattern, a number below 2 ^ N, and
-- wrap-around is written out; signed comparisons are lt_i32, le_i64 and so on. A Go map is an
-- association list, and where Go's iteration order matters it is an argument; a map of maps is keyed
-- by both keys. A method that holds a lock is one step. An upload is four, with appends between them:
-- the snapshot, the sealing of the log, the put, and the commits with the trim. The clock, random ids,
-- the outcome of a raft proposal, error texts and what the disk does in a call are arguments. A panic
-- is `none` or a constructor of its own. The object store (storage/object/store.go) and the index
-- store are records of operations, the former with the laws of a key-value store.
--
-- Fuel: floor_loop and the search of segmentFor get one more than the number of entries, and each
-- round at least halves the range. read_loop and slice_loop get one more than the number of bytes,
-- since a whole batch has at least one; iterate_loop and the scan of recoverActive likewise. A batch
-- that states the size 0 makes the code loop for ever, which the model shows as `unfinished`. The
-- replay of a log segment takes nine bytes a round at least, the loop of a connection five. Polls
-- (acks=all, the long poll of Fetch) run over a list of what each poll meets, and are `none` while
-- the list is too short.
--
-- Not modelled: the sockets and goroutines of server.go, replication.go, storage.go and liveness.go,
-- the raft library behind controller.go and rpc.go, JSON, the object store's client, metrics,
-- configuration and cmd, file names of segments, an upload's step between the two halves of an append
-- (its write to the log, and its entry in pending), which are one step here. Left for later: the
-- handlers of JoinGroup, SyncGroup and DescribeGroups with Dispatch, the loading of committed offsets
-- and of topics on disk, the parsing of the cluster members.
pub mod Common
pub mod Kbytes
pub mod Protocol
pub mod Record
pub mod Replication
pub mod Storage
pub mod Decimal
pub mod Controller
pub mod Group
pub mod Cluster
pub mod Tests
pub mod Broker
pub mod Server
