-- ===== src/Protocol/Metadata.antt =====
-- internal/protocol/metadata.go and apiversions.go: the cluster's metadata and the versions that the
-- broker speaks.
use mq.Common.{
  ℕ, ◌==◌, Bool, true, false, Option, none, List, [], Bytes, Int16, Int32, minus_one32,
  if◌then◌else◌,
}
use mq.Kbytes.Reader
use mq.Kbytes.Reader.{Get, ◌>>=◌, pure}
use mq.Kbytes.Writer.{Put, ◌>>◌, int16, int32, bool, string, nullable_string, array_len, array}
use mq.Protocol.Header.{VersionRange, write_since}

pub record MetadataRequest : Type 0 where
  pub topics : List Bytes
  pub all_topics : Bool

abbrev metadata_body : ℕ → Get MetadataRequest
metadata_body n = if n == 0 then pure (record { topics = []; all_topics = true }) else do
  topics ← Reader.repeat n Reader.string
  pure (record { topics = topics; all_topics = false })

unfoldable pub decode_metadata : Get MetadataRequest
decode_metadata = do n ← Reader.array_len; metadata_body n

pub record MetadataBroker : Type 0 where
  pub node_id : Int32
  pub host : Bytes
  pub port : Int32

pub record MetadataPartition : Type 0 where
  pub error_code : Int16
  pub index : Int32
  pub leader : Int32
  pub leader_epoch : Int32
  pub replicas : List Int32
  pub isr : List Int32

pub record MetadataTopic : Type 0 where
  pub error_code : Int16
  pub name : Bytes
  pub is_internal : Bool
  pub partitions : List MetadataPartition

pub record MetadataResponse : Type 0 where
  pub throttle_time : Int32
  pub brokers : List MetadataBroker
  pub cluster_id : Option Bytes
  pub controller_id : Int32
  pub topics : List MetadataTopic

unfoldable pub encode_metadata_broker : Int16 → MetadataBroker → Put
encode_metadata_broker version b = do
  int32 b.node_id
  string b.host
  int32 b.port
  write_since version 1 (nullable_string none)

unfoldable pub encode_metadata_partition : Int16 → MetadataPartition → Put
encode_metadata_partition version p = do
  int16 p.error_code
  int32 p.index
  int32 p.leader
  write_since version 7 (int32 p.leader_epoch)
  array p.replicas int32
  array p.isr int32
  write_since version 5 (array_len 0)

unfoldable pub encode_metadata_topic : Int16 → MetadataTopic → Put
encode_metadata_topic version t = do
  int16 t.error_code
  string t.name
  write_since version 1 (bool t.is_internal)
  array t.partitions (encode_metadata_partition version)
  write_since version 8 (int32 minus_one32)

unfoldable pub encode_metadata : Int16 → MetadataResponse → Put
encode_metadata version resp = do
  write_since version 3 (int32 resp.throttle_time)
  array resp.brokers (encode_metadata_broker version)
  write_since version 2 (nullable_string resp.cluster_id)
  write_since version 1 (int32 resp.controller_id)
  array resp.topics (encode_metadata_topic version)
  write_since version 8 (int32 minus_one32)

pub record ApiVersionsResponse : Type 0 where
  pub error_code : Int16
  pub versions : List VersionRange
  pub throttle_time : Int32

unfoldable pub encode_version_range : VersionRange → Put
encode_version_range v = do int16 v.api_key; int16 v.min; int16 v.max

unfoldable pub encode_api_versions : Int16 → ApiVersionsResponse → Put
encode_api_versions version resp = do
  int16 resp.error_code
  array resp.versions encode_version_range
  write_since version 1 (int32 resp.throttle_time)
