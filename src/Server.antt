-- ===== src/Server.antt =====
-- internal/server/handlers.go: what the request handlers share.
pub mod Fetch
pub mod Produce
pub mod Conn
pub mod Offsets
pub mod Topics
pub mod Groups
use mq.Common.{Option, none, some, Bytes, Int16, Int32, Result, ok, err}
use mq.Broker.{Broker}
use mq.Broker.Topics.{LocalLog, local, not_leader, unknown_partition, open_failed, local_log}

abbrev pub err_unknown_topic_or_part : Int16
err_unknown_topic_or_part = 3

abbrev pub err_not_leader : Int16
err_not_leader = 6

abbrev pub err_not_coordinator : Int16
err_not_coordinator = 16

module _ {L : Type 0} where
  abbrev pub leader_answer : LocalLog L → Result Int16 L
  leader_answer (local l) = ok l
  leader_answer not_leader = err err_not_leader
  leader_answer unknown_partition = err err_unknown_topic_or_part
  leader_answer open_failed = err err_unknown_topic_or_part

  abbrev with_code : Option (LocalLog L × Broker L) → Option (Result Int16 L × Broker L)
  with_code none = none
  with_code (some (r, b)) = some (leader_answer r, b)

  -- leaderLog: the log, or the error code; `none` is a panic.
  unfoldable pub leader_log :
      (Bytes → Int32 → Option L) → Broker L → Bytes → Int32 → Option (Result Int16 L × Broker L)
  leader_log open_log b topic p = with_code (local_log open_log b topic p)
