-- ===== src/Protocol/Membership.antt =====
-- internal/protocol/group.go: the messages of consumer groups.
pub mod Assigns
use mq.Common.{List, Bytes, Option, none, Int8, Int16, Int32}
use mq.Kbytes.Reader
use mq.Kbytes.Reader.{Get, ◌>>=◌, pure}
use mq.Kbytes.Writer.{Put, ◌>>◌, int16, int32, string, nullable_string, bytes, array}
use mq.Protocol.Header.{since, write_since}

pub record FindCoordinatorRequest : Type 0 where
  pub key : Bytes
  pub key_type : Int8

unfoldable pub decode_find_coordinator : Int16 → Get FindCoordinatorRequest
decode_find_coordinator version = do
  key ← Reader.string
  key_type ← since version 1 Reader.int8 0
  pure (record { key = key; key_type = key_type })

pub record FindCoordinatorResponse : Type 0 where
  pub throttle_time : Int32
  pub error_code : Int16
  pub error_message : Option Bytes
  pub node_id : Int32
  pub host : Bytes
  pub port : Int32

unfoldable pub encode_find_coordinator : Int16 → FindCoordinatorResponse → Put
encode_find_coordinator version resp = do
  write_since version 1 (int32 resp.throttle_time)
  int16 resp.error_code
  write_since version 1 (nullable_string resp.error_message)
  int32 resp.node_id
  string resp.host
  int32 resp.port

-- A name with bytes: a protocol with its metadata, a member with its metadata or its assignment.
pub record JoinGroupProtocol : Type 0 where
  pub name : Bytes
  pub metadata : Option Bytes

pub record JoinGroupRequest : Type 0 where
  pub group_id : Bytes
  pub session_timeout : Int32
  pub rebalance_timeout : Int32
  pub member_id : Bytes
  pub protocol_type : Bytes
  pub protocols : List JoinGroupProtocol

unfoldable pub decode_join_protocol : Get JoinGroupProtocol
decode_join_protocol = do
  name ← Reader.string
  metadata ← Reader.bytes
  pure (record { name = name; metadata = metadata })

unfoldable pub decode_join_group : Int16 → Get JoinGroupRequest
decode_join_group version = do
  group_id ← Reader.string
  session_timeout ← Reader.int32
  rebalance_timeout ← since version 1 Reader.int32 0
  member_id ← Reader.string
  protocol_type ← Reader.string
  protocols ← Reader.array decode_join_protocol
  pure (record {
    group_id = group_id;
    session_timeout = session_timeout;
    rebalance_timeout = rebalance_timeout;
    member_id = member_id;
    protocol_type = protocol_type;
    protocols = protocols;
  })

pub record JoinGroupMember : Type 0 where
  pub member_id : Bytes
  pub metadata : Option Bytes

pub record JoinGroupResponse : Type 0 where
  pub throttle_time : Int32
  pub error_code : Int16
  pub generation_id : Int32
  pub protocol_name : Bytes
  pub leader : Bytes
  pub member_id : Bytes
  pub members : List JoinGroupMember

unfoldable pub encode_join_member : JoinGroupMember → Put
encode_join_member m = do string m.member_id; bytes m.metadata

unfoldable pub encode_join_group : Int16 → JoinGroupResponse → Put
encode_join_group version resp = do
  write_since version 2 (int32 resp.throttle_time)
  int16 resp.error_code
  int32 resp.generation_id
  string resp.protocol_name
  string resp.leader
  string resp.member_id
  array resp.members encode_join_member

pub record SyncGroupAssignment : Type 0 where
  pub member_id : Bytes
  pub assignment : Option Bytes

pub record SyncGroupRequest : Type 0 where
  pub group_id : Bytes
  pub generation_id : Int32
  pub member_id : Bytes
  pub assignments : List SyncGroupAssignment

unfoldable pub decode_sync_assignment : Get SyncGroupAssignment
decode_sync_assignment = do
  member_id ← Reader.string
  assignment ← Reader.bytes
  pure (record { member_id = member_id; assignment = assignment })

unfoldable pub decode_sync_group : Get SyncGroupRequest
decode_sync_group = do
  group_id ← Reader.string
  generation_id ← Reader.int32
  member_id ← Reader.string
  assignments ← Reader.array decode_sync_assignment
  pure (record {
    group_id = group_id;
    generation_id = generation_id;
    member_id = member_id;
    assignments = assignments;
  })

pub record SyncGroupResponse : Type 0 where
  pub throttle_time : Int32
  pub error_code : Int16
  pub assignment : Option Bytes

unfoldable pub encode_sync_group : Int16 → SyncGroupResponse → Put
encode_sync_group version resp = do
  write_since version 1 (int32 resp.throttle_time)
  int16 resp.error_code
  bytes resp.assignment

pub record HeartbeatRequest : Type 0 where
  pub group_id : Bytes
  pub generation_id : Int32
  pub member_id : Bytes

unfoldable pub decode_heartbeat : Get HeartbeatRequest
decode_heartbeat = do
  group_id ← Reader.string
  generation_id ← Reader.int32
  member_id ← Reader.string
  pure (record { group_id = group_id; generation_id = generation_id; member_id = member_id })

pub record HeartbeatResponse : Type 0 where
  pub throttle_time : Int32
  pub error_code : Int16

unfoldable pub encode_heartbeat : Int16 → HeartbeatResponse → Put
encode_heartbeat version resp = do
  write_since version 1 (int32 resp.throttle_time)
  int16 resp.error_code

pub record LeaveGroupRequest : Type 0 where
  pub group_id : Bytes
  pub member_id : Bytes

unfoldable pub decode_leave_group : Get LeaveGroupRequest
decode_leave_group = do
  group_id ← Reader.string
  member_id ← Reader.string
  pure (record { group_id = group_id; member_id = member_id })

pub record LeaveGroupResponse : Type 0 where
  pub throttle_time : Int32
  pub error_code : Int16

unfoldable pub encode_leave_group : Int16 → LeaveGroupResponse → Put
encode_leave_group version resp = do
  write_since version 1 (int32 resp.throttle_time)
  int16 resp.error_code
