-- ===== src/Partition.antt =====
-- internal/partition/partition.go and types.go: the state machine of a partition. Raft calls it with
-- the entries of its log in order; the sidecar file has the index of the last one applied and the
-- end of the log then. `decode_config` is encoding/json; the system calls on the sidecar succeed;
-- snapshots and metrics are not modelled.
pub mod Sidecar
pub mod Update
pub mod Crash
use bunnymq.Prelude.{
  ℕ, zero, suc, ◌+◌, ◌≤◌, ℤ, pos, to_u64, of_u64, ltb_ℤ, Option, none, some, List, [], ◌∷◌, ◌++◌,
  length, take, drop, Bool, true, false, eqb, if◌then◌else◌, ◌≡◌,
}
use bunnymq.Storage.BigEndian.{put_bytes, get_bytes, slice_of}
use bunnymq.Storage.Segment.{StorageConfig, StorageError, storage_closed, timestamp_not_found}
use bunnymq.Storage.Recovery.{SegmentFiles}
use bunnymq.Storage.Log.{
  StorageImpl, Outcome, append_batch, read, read_by_time, earliest_offset, latest_offset,
  set_retention_config, truncate_to, close_storage, open_storage,
}
use bunnymq.Storage.Log

pub record PartitionCommand : Type 0 where
  pub kind : ℕ
  pub payload : List ℕ

unfoldable pub cmd_append_batch : ℕ
cmd_append_batch = 1

unfoldable pub cmd_retention_config : ℕ
cmd_retention_config = 2

unfoldable pub marshal : PartitionCommand → List ℕ
marshal c = c.kind ∷ c.payload

pub record RetentionConfigPayload : Type 0 where
  pub retention_ms : ℤ
  pub retention_bytes : ℤ

pub record SidecarData : Type 0 where
  pub last_applied_index : ℕ
  pub latest_offset : ℤ

unfoldable pub encode_sidecar : ℕ → ℤ → List ℕ
encode_sidecar index latest = put_bytes 8 index ++ put_bytes 8 (to_u64 latest)

-- `readSidecar` of a file with these bytes; `none` is the error of an unexpected size.
unfoldable pub read_sidecar : List ℕ → Option SidecarData
read_sidecar file =
    if eqb (length file) 16
    then some (record {
      last_applied_index = get_bytes 0 (slice_of 0 8 file);
      latest_offset = of_u64 (get_bytes 0 (slice_of 8 16 file));
    })
    else none

-- A state machine after `Open`, with its sidecar file.
pub record PartitionFsm : Type 0 where
  pub storage : StorageImpl
  pub last_applied_index : ℕ
  pub closed : Bool
  pub sidecar : Option (List ℕ)

-- An entry of the Raft log.
pub record Entry : Type 0 where
  pub index : ℕ
  pub cmd : List ℕ

-- `entries[len(entries)-1].Index`
abbrev pub last_index : Entry → List Entry → ℕ
last_index e [] = e.index
last_index e (e' ∷ entries) = last_index e' entries

-- The replies of `Open`: the machine with the index to go on from, an error, or a panic.
pub data OpenReply : Type 0 where
  opened : PartitionFsm → ℕ → OpenReply
  bad_sidecar : OpenReply
  refused : StorageError → OpenReply
  panicked : OpenReply

-- The answers of `Lookup`.
pub data LookupReply : Type 0 where
  lookup_result : List ℕ → ℤ → LookupReply
  offset_result : ℤ → LookupReply
  lookup_error : StorageError → LookupReply
  lookup_panicked : LookupReply

-- The queries of `Lookup` that are answered from the storage's state.
pub data PartitionQuery : Type 0 where
  query_read query_read_by_time : ℤ → ℤ → PartitionQuery
  query_earliest_offset query_latest_offset : PartitionQuery

module _ (page_size : ℕ) (config : StorageConfig) where
  -- `Open` with a sidecar: a log that is ahead of it is cut.
  unfoldable pub open_at : StorageImpl → List ℕ → SidecarData → OpenReply
  open_at s file d =
      if ltb_ℤ d.latest_offset (latest_offset s)
      then elim (truncate_to page_size config s d.latest_offset) [
        | Log.done s' _ ↦
            opened
              (record {
                storage = s';
                last_applied_index = d.last_applied_index;
                closed = false;
                sidecar = some file;
              })
              d.last_applied_index
        | Log.failed s' e ↦ refused e
        | Log.panicked ↦ panicked
      ]
      else opened
          (record {
            storage = s;
            last_applied_index = d.last_applied_index;
            closed = false;
            sidecar = some file;
          })
          d.last_applied_index

  -- `Open` on a storage that is recovered.
  unfoldable pub open_partition : StorageImpl → Option (List ℕ) → OpenReply
  open_partition s none =
      opened (record { storage = s; last_applied_index = 0; closed = false; sidecar = none }) 0
  open_partition s (some file) = elim (read_sidecar file) [
    | none ↦ bad_sidecar
    | some d ↦ open_at s file d
  ]

  module _ (decode_config : List ℕ → Option RetentionConfigPayload) where
    -- The switch of `Update` on a command, with the value of its result; `none` is a panic.
    unfoldable pub apply_payload : StorageImpl → ℕ → List ℕ → Option (StorageImpl × ℕ)
    apply_payload s kind payload =
        if eqb kind cmd_append_batch
        then elim (append_batch page_size config s payload) [
          | Log.done s' base_offset ↦ some (s', to_u64 base_offset)
          | Log.failed s' e ↦ none
          | Log.panicked ↦ none
        ]
        else (if eqb kind cmd_retention_config
            then elim (decode_config payload) [
              | none ↦ none
              | some rc ↦ some (set_retention_config s rc.retention_ms rc.retention_bytes, 0)
            ]
            else none)

    unfoldable pub apply_cmd : StorageImpl → List ℕ → Option (StorageImpl × ℕ)
    apply_cmd s [] = none
    apply_cmd s (kind ∷ payload) = apply_payload s kind payload

    -- The loop of `Update`, with the values of the results.
    unfoldable pub apply_entries : StorageImpl → List Entry → Option (StorageImpl × List ℕ)
    apply_entries s [] = some (s, [])
    apply_entries s (e ∷ entries) = elim (apply_cmd s e.cmd) [
      | none ↦ none
      | some p ↦ elim (apply_entries p.0 entries) [ none ↦ none | some q ↦ some (q.0, p.1 ∷ q.1) ]
    ]

    -- `Update`; no entries is a panic as well.
    unfoldable pub update : PartitionFsm → List Entry → Option (PartitionFsm × List ℕ)
    update fsm [] = none
    update fsm (e ∷ entries) = elim (apply_entries fsm.storage (e ∷ entries)) [
      | none ↦ none
      | some p ↦ some (
        record fsm {
          storage = p.0;
          last_applied_index = last_index e entries;
          sidecar = some (encode_sidecar (last_index e entries) (latest_offset p.0));
        },
        p.1,
      )
    ]

-- The storage's reply to a read, as `Lookup` passes it on.
abbrev pub read_reply : Outcome (List ℕ × ℤ) → LookupReply
read_reply (Log.done s g) = lookup_result g.0 g.1
read_reply (Log.failed s e) = lookup_error e
read_reply Log.panicked = lookup_panicked

-- `Lookup`
unfoldable pub answer : StorageImpl → PartitionQuery → LookupReply
answer s (query_read offset max_bytes) = read_reply (read s offset max_bytes)
answer s (query_read_by_time timestamp_ms max_bytes) =
    elim (read_by_time s.segments timestamp_ms max_bytes) [
      | none ↦ lookup_error timestamp_not_found
      | some g ↦ lookup_result g.0 g.1
    ]
answer s query_earliest_offset = offset_result (earliest_offset s)
answer s query_latest_offset = offset_result (latest_offset s)

unfoldable pub lookup_partition : PartitionFsm → PartitionQuery → LookupReply
lookup_partition fsm q = if fsm.closed then lookup_error storage_closed else answer fsm.storage q

-- `Close`
unfoldable pub close_partition : PartitionFsm → PartitionFsm
close_partition fsm = record fsm { closed = true; storage = close_storage fsm.storage }
