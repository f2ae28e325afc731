-- ===== src/Protocol/Fetch/Request.antt =====
-- internal/protocol/fetch.go: the Fetch request, as the broker decodes it.
use mq.Common.{List, Bytes, Int8, Int16, Int32, Int64}
use mq.Kbytes.Reader.{Get, ◌>>=◌, ◌>>◌, pure, int8, int32, int64, string, array}
use mq.Protocol.Header.{since}

pub record FetchPartition : Type 0 where
  pub partition : Int32
  pub fetch_offset : Int64
  pub log_start_offset : Int64
  pub max_bytes : Int32

pub record FetchTopic : Type 0 where
  pub name : Bytes
  pub partitions : List FetchPartition

pub record FetchRequest : Type 0 where
  pub replica_id : Int32
  pub max_wait_ms : Int32
  pub min_bytes : Int32
  pub max_bytes : Int32
  pub isolation_level : Int8
  pub session_id : Int32
  pub session_epoch : Int32
  pub topics : List FetchTopic

unfoldable pub decode_partition : Int16 → Get FetchPartition
decode_partition version = do
  partition ← int32
  since version 9 int32 0
  fetch_offset ← int64
  log_start_offset ← since version 5 int64 0
  max_bytes ← int32
  pure (record {
    partition = partition;
    fetch_offset = fetch_offset;
    log_start_offset = log_start_offset;
    max_bytes = max_bytes;
  })

unfoldable pub decode_topic : Int16 → Get FetchTopic
decode_topic version = do
  name ← string
  partitions ← array (decode_partition version)
  pure (record { name = name; partitions = partitions })

unfoldable pub decode_request : Int16 → Get FetchRequest
decode_request version = do
  replica_id ← int32
  max_wait_ms ← int32
  min_bytes ← int32
  max_bytes ← since version 3 int32 0
  isolation_level ← since version 4 int8 0
  session_id ← since version 7 int32 0
  session_epoch ← since version 7 int32 0
  topics ← array (decode_topic version)
  pure (record {
    replica_id = replica_id;
    max_wait_ms = max_wait_ms;
    min_bytes = min_bytes;
    max_bytes = max_bytes;
    isolation_level = isolation_level;
    session_id = session_id;
    session_epoch = session_epoch;
    topics = topics;
  })
