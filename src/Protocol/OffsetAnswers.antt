-- ===== src/Protocol/OffsetAnswers.antt =====
-- internal/protocol/offsets.go and listoffsets.go: the answers.
use mq.Common.{List, Bytes, Option, Int16, Int32, Int64, if◌then◌else◌, ◌==◌, minus_one32}
use mq.Kbytes.Writer.{Put, ◌>>◌, int16, int32, int64, string, nullable_string, array_len, array}
use mq.Protocol.Header.{write_since}

pub record OffsetCommitPartitionResp : Type 0 where
  pub index : Int32
  pub error_code : Int16

pub record OffsetCommitTopicResp : Type 0 where
  pub name : Bytes
  pub partitions : List OffsetCommitPartitionResp

pub record OffsetCommitResponse : Type 0 where
  pub throttle_time : Int32
  pub topics : List OffsetCommitTopicResp

unfoldable pub encode_commit_partition : OffsetCommitPartitionResp → Put
encode_commit_partition p = do int32 p.index; int16 p.error_code

unfoldable pub encode_commit_topic : OffsetCommitTopicResp → Put
encode_commit_topic t = do string t.name; array t.partitions encode_commit_partition

unfoldable pub encode_offset_commit : Int16 → OffsetCommitResponse → Put
encode_offset_commit version resp = do
  write_since version 3 (int32 resp.throttle_time)
  array resp.topics encode_commit_topic

pub record OffsetFetchPartitionResp : Type 0 where
  pub index : Int32
  pub offset : Int64
  pub leader_epoch : Int32
  pub metadata : Option Bytes
  pub error_code : Int16

pub record OffsetFetchTopicResp : Type 0 where
  pub name : Bytes
  pub partitions : List OffsetFetchPartitionResp

pub record OffsetFetchResponse : Type 0 where
  pub throttle_time : Int32
  pub topics : List OffsetFetchTopicResp
  pub error_code : Int16

unfoldable pub encode_fetch_partition : Int16 → OffsetFetchPartitionResp → Put
encode_fetch_partition version p = do
  int32 p.index
  int64 p.offset
  write_since version 5 (int32 p.leader_epoch)
  nullable_string p.metadata
  int16 p.error_code

unfoldable pub encode_fetch_topic : Int16 → OffsetFetchTopicResp → Put
encode_fetch_topic version t = do string t.name; array t.partitions (encode_fetch_partition version)

unfoldable pub encode_offset_fetch : Int16 → OffsetFetchResponse → Put
encode_offset_fetch version resp = do
  write_since version 3 (int32 resp.throttle_time)
  array resp.topics (encode_fetch_topic version)
  write_since version 2 (int16 resp.error_code)

pub record ListOffsetsPartitionResp : Type 0 where
  pub index : Int32
  pub error_code : Int16
  pub timestamp : Int64
  pub offset : Int64

pub record ListOffsetsTopicResp : Type 0 where
  pub name : Bytes
  pub partitions : List ListOffsetsPartitionResp

pub record ListOffsetsResponse : Type 0 where
  pub throttle_time : Int32
  pub topics : List ListOffsetsTopicResp

-- One offset in an array at version 0, else the timestamp and the offset.
abbrev encode_found : Int16 → ListOffsetsPartitionResp → Put
encode_found version p =
    if version == 0
    then (do array_len 1; int64 p.offset)
    else (do int64 p.timestamp; int64 p.offset; write_since version 4 (int32 minus_one32))

unfoldable pub encode_list_partition : Int16 → ListOffsetsPartitionResp → Put
encode_list_partition version p = do int32 p.index; int16 p.error_code; encode_found version p

unfoldable pub encode_list_topic : Int16 → ListOffsetsTopicResp → Put
encode_list_topic version t = do string t.name; array t.partitions (encode_list_partition version)

unfoldable pub encode_list_offsets : Int16 → ListOffsetsResponse → Put
encode_list_offsets version resp = do
  write_since version 2 (int32 resp.throttle_time)
  array resp.topics (encode_list_topic version)
