-- ===== src/Protocol/Fetch/Response.antt =====
-- internal/protocol/fetch.go: the Fetch response, as the broker encodes it.
use mq.Common.{Option, List, Bytes, Int16, Int32, Int64, minus_one32}
use mq.Kbytes.Writer.{Put, ◌>>◌, int16, int32, int64, string, bytes, array, array_len}
use mq.Protocol.Header.{write_since}

pub record FetchPartitionResp : Type 0 where
  pub partition : Int32
  pub error_code : Int16
  pub high_watermark : Int64
  pub last_stable : Int64
  pub log_start_offset : Int64
  pub records : Option Bytes

pub record FetchTopicResp : Type 0 where
  pub name : Bytes
  pub partitions : List FetchPartitionResp

pub record FetchResponse : Type 0 where
  pub throttle_time : Int32
  pub error_code : Int16
  pub session_id : Int32
  pub topics : List FetchTopicResp

unfoldable pub encode_partition : Int16 → FetchPartitionResp → Put
encode_partition version p = do
  int32 p.partition
  int16 p.error_code
  int64 p.high_watermark
  write_since version 4 (int64 p.last_stable)
  write_since version 5 (int64 p.log_start_offset)
  write_since version 4 (array_len 0)
  write_since version 11 (int32 minus_one32)
  bytes p.records

unfoldable pub encode_topic : Int16 → FetchTopicResp → Put
encode_topic version t = do string t.name; array t.partitions (encode_partition version)

unfoldable pub encode_response : Int16 → FetchResponse → Put
encode_response version resp = do
  write_since version 1 (int32 resp.throttle_time)
  write_since version 7 (do int16 resp.error_code; int32 resp.session_id)
  array resp.topics (encode_topic version)
