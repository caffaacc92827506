-- ===== src/Lib.antt =====
-- Verification of bunnymq, a message queue whose metadata is replicated by Raft.
--
-- The program. Every node runs one state machine for the metadata of the cluster (topics,
-- partitions, nodes and consumer groups) and one for each partition it holds. Commands reach the
-- metadata state machine through the Raft log. The group coordinator turns the requests of
-- consumers into such commands: it reads the state, computes an assignment of partitions and
-- proposes it. The records of a partition are stored in segments, each with an index by offset and
-- an index by time.
--
-- The files.
-- Prelude holds what the parts share: Go's integers with their wrap-around, Go's maps as
-- association lists, byte strings, sorting, and lists without repetition.
-- Metadata models internal/metadata. Types has the records of types.go, Text the text of its map
-- keys, Result the results of result.go. Topics and Groups have one function for each apply…
-- method of metadata.go, from a state and a command to a state and a result, Rebalance has
-- `rebalance`, Machine has `applyCommand` and `Update`, and Lookup the queries. WellFormed has
-- the invariant of topics and partitions and that each command keeps it, Errors and Offsets what
-- their names say.
-- Assignment models `rangeAssign`, of which internal/coordinator/cluster/assignment.go and
-- internal/coordinator/group/groupcoord.go have a copy each.
-- Group models internal/coordinator/group/groupcoord.go. World has the calls of the Raft host
-- (internal/raft/host.go), Join, Leave, Commit, Heartbeat and Sweep one method each with its
-- helpers, TopicSets `topicSetsEqual`. Quiet describes the calls on a world where all succeed and
-- nobody else writes; the theorems on requests are about that world.
-- Storage models internal/storage/batch.go in Varint, Records and Batch, and the slots of
-- offset_index.go and time_index.go in OffsetIndex and TimeIndex, with their binary searches in
-- Search. LogSegment, Segment and Log model log_segment.go, segment_storage.go and storage.go of
-- the same folder, Recovery and Retention recovery.go and retention.go. LogSegment/Scan,
-- Segment/Layout and Log/Contains say what it is for a file, a segment and a log to hold a
-- sequence of batches. `Contains` is for a log whose active segment is below the rolling size, as
-- between two requests, `HoldsLog` for one whose last batch may have reached it, as after a crash
-- between the write of the batch and the creation of the next segment.
-- Partition models internal/partition: the state machine of a partition over its log, with the
-- sidecar file.
-- Cluster models the placement of replicas of internal/coordinator/cluster/cluster.go, and its
-- CreateTopic up to the proposal of the command.
-- Tests has runs of the models and the theorems at concrete inputs.
--
-- Conventions. A pointer that may be nil is an option. A panic is a value: `none` of the metadata
-- state machine, `panicked` elsewhere. The iteration order of a Go map, which is unspecified, is
-- that of the list that stands for it. A string is the list of its bytes, as is a file. System
-- calls on files succeed; a directory is the sequence of its segments' files in the order of
-- their names. The strings of a command are valid UTF-8, so encoding/json keeps them.
--
-- Bounds and fuel. A varint of a uint64 has at most ten groups of seven bits, so its loops have
-- that many rounds. The loop over the records of a batch has as many rounds as there are bytes, and
-- a record has at least one. A scan of a file has as many rounds as there are bytes. A binary
-- search over n slots has n rounds. The other loops are recursion on their lists or on their
-- counts.
--
-- Parameters. The decoder of commands (encoding/json), the checksum (hash/crc32), the generator of
-- member ids (github.com/google/uuid), the clock, the page size, and the length above which
-- `make` panics are arguments. The Raft library (github.com/lni/dragonboat) is a schedule: one
-- outcome for each call, with the commands of others that are applied before it.
--
-- Not modelled: snapshots, opening and mapping files, appends between the deletions of a pass of
-- retention, the goroutines that sweep groups and start retention, the channel that announces new
-- data, the rest of the cluster coordinator, the data coordinator, the client library, the servers,
-- commands, configuration, metrics and generated code.
pub mod Prelude
pub mod Metadata
pub mod Assignment
pub mod Group
pub mod Storage
pub mod Partition
pub mod Cluster
mod Tests
