-- ===== src/Protocol/Admin.antt =====
-- internal/protocol/createtopics.go, createpartitions.go, describegroups.go and listgroups.go: the
-- requests of an administrator. What they carry and the broker ignores is read and dropped.
use mq.Common.{◌==◌, Bool, false, not, Option, List, Bytes, Int16, Int32}
use mq.Kbytes.Reader
use mq.Kbytes.Reader.{Get, ◌>>=◌, ◌>>◌, pure}
use mq.Protocol.Header.{since}

pub record CreateTopicsTopic : Type 0 where
  pub name : Bytes
  pub num_partitions : Int32
  pub replication_factor : Int16

pub record CreateTopicsRequest : Type 0 where
  pub topics : List CreateTopicsTopic
  pub timeout_ms : Int32
  pub validate_only : Bool

-- {partition_index, broker_ids}
abbrev skip_assignment : Get (List Int32)
skip_assignment = do Reader.int32; Reader.array Reader.int32

-- {name, value}
abbrev skip_config : Get (Option Bytes)
skip_config = do Reader.string; Reader.nullable_string

unfoldable pub decode_create_topic : Get CreateTopicsTopic
decode_create_topic = do
  name ← Reader.string
  num_partitions ← Reader.int32
  replication_factor ← Reader.int16
  Reader.array skip_assignment
  Reader.array skip_config
  pure (record {
    name = name;
    num_partitions = num_partitions;
    replication_factor = replication_factor;
  })

abbrev read_flag : Get Bool
read_flag = do b ← Reader.int8; pure (not (b == 0))

unfoldable pub decode_create_topics : Int16 → Get CreateTopicsRequest
decode_create_topics version = do
  topics ← Reader.array decode_create_topic
  timeout_ms ← Reader.int32
  validate_only ← since version 1 read_flag false
  pure (record { topics = topics; timeout_ms = timeout_ms; validate_only = validate_only })

pub record CreatePartitionsTopic : Type 0 where
  pub name : Bytes
  pub count : Int32

pub record CreatePartitionsRequest : Type 0 where
  pub topics : List CreatePartitionsTopic
  pub timeout_ms : Int32
  pub validate_only : Bool

unfoldable pub decode_create_partition : Get CreatePartitionsTopic
decode_create_partition = do
  name ← Reader.string
  count ← Reader.int32
  Reader.array (Reader.array Reader.int32)
  pure (record { name = name; count = count })

unfoldable pub decode_create_partitions : Get CreatePartitionsRequest
decode_create_partitions = do
  topics ← Reader.array decode_create_partition
  timeout_ms ← Reader.int32
  validate_only ← read_flag
  pure (record { topics = topics; timeout_ms = timeout_ms; validate_only = validate_only })

-- The result for one topic, of either request.
pub record CreateTopicResp : Type 0 where
  pub name : Bytes
  pub error_code : Int16
  pub error_message : Option Bytes

unfoldable pub decode_describe_groups : Get (List Bytes)
decode_describe_groups = Reader.array Reader.string

pub record DescribeGroupsMember : Type 0 where
  pub member_id : Bytes
  pub client_id : Bytes
  pub client_host : Bytes
  pub metadata : Option Bytes
  pub assignment : Option Bytes

pub record DescribeGroupsGroup : Type 0 where
  pub error_code : Int16
  pub group_id : Bytes
  pub state : Bytes
  pub protocol_type : Bytes
  pub protocol : Bytes
  pub members : List DescribeGroupsMember

pub record ListGroupsGroup : Type 0 where
  pub group_id : Bytes
  pub protocol_type : Bytes
