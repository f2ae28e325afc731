-- ===== src/Protocol/AdminAnswers.antt =====
-- internal/protocol/createtopics.go, createpartitions.go, describegroups.go and listgroups.go: the
-- answers to an administrator.
use mq.Common.{List, Int16, Int32}
use mq.Kbytes.Writer.{Put, ◌>>◌, int16, int32, string, nullable_string, bytes, array}
use mq.Protocol.Header.{write_since}
use mq.Protocol.Admin.{CreateTopicResp, DescribeGroupsMember, DescribeGroupsGroup, ListGroupsGroup}

pub record CreateTopicsResponse : Type 0 where
  pub throttle_time : Int32
  pub topics : List CreateTopicResp

unfoldable pub encode_created_topic : Int16 → CreateTopicResp → Put
encode_created_topic version t = do
  string t.name
  int16 t.error_code
  write_since version 1 (nullable_string t.error_message)

unfoldable pub encode_create_topics : Int16 → CreateTopicsResponse → Put
encode_create_topics version resp = do
  write_since version 2 (int32 resp.throttle_time)
  array resp.topics (encode_created_topic version)

pub record CreatePartitionsResponse : Type 0 where
  pub throttle_time : Int32
  pub topics : List CreateTopicResp

unfoldable pub encode_grown_topic : CreateTopicResp → Put
encode_grown_topic t = do string t.name; int16 t.error_code; nullable_string t.error_message

unfoldable pub encode_create_partitions : CreatePartitionsResponse → Put
encode_create_partitions resp = do int32 resp.throttle_time; array resp.topics encode_grown_topic

pub record DescribeGroupsResponse : Type 0 where
  pub throttle_time : Int32
  pub groups : List DescribeGroupsGroup

unfoldable pub encode_described_member : DescribeGroupsMember → Put
encode_described_member m = do
  string m.member_id
  string m.client_id
  string m.client_host
  bytes m.metadata
  bytes m.assignment

unfoldable pub encode_described_group : DescribeGroupsGroup → Put
encode_described_group g = do
  int16 g.error_code
  string g.group_id
  string g.state
  string g.protocol_type
  string g.protocol
  array g.members encode_described_member

unfoldable pub encode_describe_groups : Int16 → DescribeGroupsResponse → Put
encode_describe_groups version resp = do
  write_since version 1 (int32 resp.throttle_time)
  array resp.groups encode_described_group

pub record ListGroupsResponse : Type 0 where
  pub throttle_time : Int32
  pub error_code : Int16
  pub groups : List ListGroupsGroup

unfoldable pub encode_listed_group : ListGroupsGroup → Put
encode_listed_group g = do string g.group_id; string g.protocol_type

unfoldable pub encode_list_groups : Int16 → ListGroupsResponse → Put
encode_list_groups version resp = do
  write_since version 1 (int32 resp.throttle_time)
  int16 resp.error_code
  array resp.groups encode_listed_group
