-- ===== src/Protocol/Produce.antt =====
-- internal/protocol/produce.go: the Produce request and its answer.
pub mod Accepts
use mq.Common.{List, Bytes, Option, none, Int16, Int32, Int64}
use mq.Kbytes.Reader
use mq.Kbytes.Reader.{Get, ◌>>=◌, pure, new_reader}
use mq.Kbytes.Writer.{Put, ◌>>◌, int16, int32, int64, string, array}
use mq.Protocol.Header.{since, write_since}

pub record ProducePartition : Type 0 where
  pub index : Int32
  pub records : Option Bytes

pub record ProduceTopic : Type 0 where
  pub name : Bytes
  pub partitions : List ProducePartition

pub record ProduceRequest : Type 0 where
  pub transactional_id : Option Bytes
  pub acks : Int16
  pub timeout_ms : Int32
  pub topics : List ProduceTopic

unfoldable pub decode_produce_partition : Get ProducePartition
decode_produce_partition = do
  index ← Reader.int32
  records ← Reader.bytes
  pure (record { index = index; records = records })

unfoldable pub decode_produce_topic : Get ProduceTopic
decode_produce_topic = do
  name ← Reader.string
  partitions ← Reader.array decode_produce_partition
  pure (record { name = name; partitions = partitions })

unfoldable pub decode_produce : Int16 → Get ProduceRequest
decode_produce version = do
  transactional_id ← since version 3 Reader.nullable_string none
  acks ← Reader.int16
  timeout_ms ← Reader.int32
  topics ← Reader.array decode_produce_topic
  pure (record {
    transactional_id = transactional_id;
    acks = acks;
    timeout_ms = timeout_ms;
    topics = topics;
  })

pub record ProducePartitionResp : Type 0 where
  pub index : Int32
  pub error_code : Int16
  pub base_offset : Int64
  pub log_append_time : Int64
  pub log_start_offset : Int64

pub record ProduceTopicResp : Type 0 where
  pub name : Bytes
  pub partitions : List ProducePartitionResp

pub record ProduceResponse : Type 0 where
  pub topics : List ProduceTopicResp
  pub throttle_time : Int32

unfoldable pub encode_produce_partition : Int16 → ProducePartitionResp → Put
encode_produce_partition version p = do
  int32 p.index
  int16 p.error_code
  int64 p.base_offset
  write_since version 2 (int64 p.log_append_time)
  write_since version 5 (int64 p.log_start_offset)

unfoldable pub encode_produce_topic : Int16 → ProduceTopicResp → Put
encode_produce_topic version t = do
  string t.name
  array t.partitions (encode_produce_partition version)

unfoldable pub encode_produce : Int16 → ProduceResponse → Put
encode_produce version resp = do
  array resp.topics (encode_produce_topic version)
  write_since version 1 (int32 resp.throttle_time)
