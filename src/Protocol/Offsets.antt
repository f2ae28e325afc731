-- ===== src/Protocol/Offsets.antt =====
-- internal/protocol/offsets.go and listoffsets.go: committed offsets and offsets by timestamp.
use mq.Common.{
  ℕ, Bool, true, false, List, [], Bytes, Option, none, some, length, ltb, is_neg32, ◌&&◌, Int8,
  Int16, Int32, Int64, le_i16, if◌then◌else◌, ◌==◌,
}
use mq.Kbytes.Reader
use mq.Kbytes.Reader.{Reader, Get, ◌>>=◌, ◌>>◌, pure}
use mq.Protocol.Header.{since}

pub record OffsetCommitPartition : Type 0 where
  pub index : Int32
  pub offset : Int64
  pub leader_epoch : Int32
  pub metadata : Option Bytes

pub record OffsetCommitTopic : Type 0 where
  pub name : Bytes
  pub partitions : List OffsetCommitPartition

pub record OffsetCommitRequest : Type 0 where
  pub group_id : Bytes
  pub generation_id : Int32
  pub member_id : Bytes
  pub topics : List OffsetCommitTopic

unfoldable pub decode_commit_partition : Int16 → Get OffsetCommitPartition
decode_commit_partition version = do
  index ← Reader.int32
  offset ← Reader.int64
  (if version == 1 then Reader.int64 else pure 0)
  leader_epoch ← since version 6 Reader.int32 0
  metadata ← Reader.nullable_string
  pure (record { index = index; offset = offset; leader_epoch = leader_epoch; metadata = metadata })

unfoldable pub decode_commit_topic : Int16 → Get OffsetCommitTopic
decode_commit_topic version = do
  name ← Reader.string
  partitions ← Reader.array (decode_commit_partition version)
  pure (record { name = name; partitions = partitions })

unfoldable pub decode_offset_commit : Int16 → Get OffsetCommitRequest
decode_offset_commit version = do
  group_id ← Reader.string
  generation_id ← since version 1 Reader.int32 0
  member_id ← since version 1 Reader.string []
  (if le_i16 2 version && le_i16 version 4 then Reader.int64 else pure 0)
  topics ← Reader.array (decode_commit_topic version)
  pure (record {
    group_id = group_id;
    generation_id = generation_id;
    member_id = member_id;
    topics = topics;
  })

pub record ListOffsetsPartition : Type 0 where
  pub index : Int32
  pub timestamp : Int64
  pub max_num_offsets : Int32

pub record ListOffsetsTopic : Type 0 where
  pub name : Bytes
  pub partitions : List ListOffsetsPartition

pub record ListOffsetsRequest : Type 0 where
  pub replica_id : Int32
  pub isolation_level : Int8
  pub topics : List ListOffsetsTopic

unfoldable pub decode_list_partition : Int16 → Get ListOffsetsPartition
decode_list_partition version = do
  index ← Reader.int32
  since version 4 Reader.int32 0
  timestamp ← Reader.int64
  max_num_offsets ← (if version == 0 then Reader.int32 else pure 0)
  pure (record { index = index; timestamp = timestamp; max_num_offsets = max_num_offsets })

unfoldable pub decode_list_topic : Int16 → Get ListOffsetsTopic
decode_list_topic version = do
  name ← Reader.string
  partitions ← Reader.array (decode_list_partition version)
  pure (record { name = name; partitions = partitions })

unfoldable pub decode_list_offsets : Int16 → Get ListOffsetsRequest
decode_list_offsets version = do
  replica_id ← Reader.int32
  isolation_level ← since version 2 Reader.int8 0
  topics ← Reader.array (decode_list_topic version)
  pure (record { replica_id = replica_id; isolation_level = isolation_level; topics = topics })

pub record OffsetFetchTopic : Type 0 where
  pub name : Bytes
  pub partitions : List Int32

pub record OffsetFetchRequest : Type 0 where
  pub group_id : Bytes
  pub all_topics : Bool
  pub topics : List OffsetFetchTopic

unfoldable pub decode_fetch_topic : Get OffsetFetchTopic
decode_fetch_topic = do
  name ← Reader.string
  partitions ← Reader.array Reader.int32
  pure (record { name = name; partitions = partitions })

abbrev unread : Option Bytes → ℕ
unread none = 0
unread (some rest) = length rest

-- The topics behind their count; a negative count stands for all of them.
abbrev fetch_body : Bytes → Int32 → Get OffsetFetchRequest
fetch_body group_id n r =
    if is_neg32 n
    then (record { group_id = group_id; all_topics = true; topics = [] }, r)
    else if ltb (unread (Reader.remaining r)) n
    then (record { group_id = group_id; all_topics = false; topics = [] }, r)
    else (
      record {
        group_id = group_id;
        all_topics = false;
        topics = (Reader.repeat n decode_fetch_topic r).0;
      },
      (Reader.repeat n decode_fetch_topic r).1,
    )

unfoldable pub decode_offset_fetch : Get OffsetFetchRequest
decode_offset_fetch = do group_id ← Reader.string; n ← Reader.int32; fetch_body group_id n
