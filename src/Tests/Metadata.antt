-- ===== src/Tests/Metadata.antt =====
-- internal/controller and internal/cluster: a topic with one partition on three nodes.
use mq.Common.{
  ◌+◌, ◌%◌, ◌^◌, ◌≤◌, ◌==◌, ◌≡◌, refl, true, ◌&&◌, some, none, List, [], ◌∷◌, Bytes, Int32, arith,
  length, get_elem?, if◌then◌else◌, All,
}
use mq.Common.Keys.{bytes_beq, lookup}
use mq.Controller.Fsm.{
  MetaState, PartitionMeta, SegmentRef, Command, cmd_change_leader, cmd_commit_segment, apply,
  partition, segments, part_at,
}
use mq.Controller.Fsm.Placement.{apply_all, apply_all-elections, elections}
use mq.Controller.Fsm.Segments.{apply-segments, refs_after}
use mq.Controller.Failover.{Liveness, alive, check_failover}
use mq.Controller.Failover.Elects.{check_failover-IsLed, check_failover-ElectsLive, ElectsLive}
use mq.Cluster.{Cluster, BrokerInfo, replicas_for, leader_for}
use mq.Cluster.Places.{replica_count, replicas_for-leader}

abbrev pub logs : Bytes
logs = 108 ∷ []

abbrev pub on_three : PartitionMeta
on_three = record { replicas = 1 ∷ 2 ∷ 3 ∷ []; leader = 1; isr = 1 ∷ 2 ∷ 3 ∷ []; leader_epoch = 4 }

abbrev pub one_topic : MetaState
one_topic = record {
  topics = (logs, record { partitions = 1; parts = on_three ∷ [] }) ∷ [];
  segments = [];
}

abbrev elect_two : Command
elect_two = record {
  cmd_type = cmd_change_leader;
  topic = logs;
  partition = 0;
  partitions = 0;
  replicas = [];
  leader = 2;
  isr = 2 ∷ 3 ∷ [];
  from = 0;
  segment = none;
  cutoff = 0;
}

abbrev one_ref : SegmentRef
one_ref = record {
  key = logs;
  base_offset = 0;
  next_offset = 9;
  position = 0;
  size = 70;
  uploaded_ms = 1;
}

abbrev commit_ref : Command
commit_ref = record elect_two { cmd_type = cmd_commit_segment; segment = some one_ref }

elections_example :
    (now : PartitionMeta) × (partition (apply_all one_topic (elect_two ∷ commit_ref ∷ [])) logs 0
      ≡ some now)
    × (now.replicas ≡ 1 ∷ 2 ∷ 3 ∷ [])
    × (now.leader_epoch ≡ (4 + elections (elect_two ∷ commit_ref ∷ []) logs 0) % 2 ^ 32)
unfolding partition lookup part_at
elections_example =
    apply_all-elections one_topic (elect_two ∷ commit_ref ∷ []) logs 0 on_three (omega arith) refl

segments_example : segments (apply one_topic commit_ref).1 logs 0 ≡ (
    if bytes_beq logs logs && (0 == 0)
    then refs_after cmd_commit_segment commit_ref (segments one_topic logs 0)
    else segments one_topic logs 0)
segments_example = apply-segments one_topic commit_ref logs 0 (omega arith) (omega arith)

-- Node 3 runs the controller and has heard of node 2 lately, of node 1 long ago.
abbrev on_node_three : Liveness
on_node_three = record {
  node_id = 3;
  last_seen = (1, 1) ∷ (2, 9_000_000_000) ∷ [];
  leader_since = 0;
}

led_example :
    (after : PartitionMeta) × (partition
        (apply_all one_topic (check_failover on_node_three 9_500_000_000 one_topic))
        logs
        0
      ≡ some after)
    × (alive on_node_three after.leader 9_500_000_000 ≡ true)
unfolding partition lookup part_at alive
led_example =
    check_failover-IsLed on_node_three 9_500_000_000 one_topic logs 0 on_three 1 2 (omega arith)
      refl refl refl

elects_example :
    All
      (ElectsLive on_node_three 9_500_000_000)
      (check_failover on_node_three 9_500_000_000 one_topic)
elects_example = check_failover-ElectsLive on_node_three 9_500_000_000 one_topic

abbrev node : Int32 → BrokerInfo
node id = record { node_id = id; host = logs; port = 9092 }

abbrev pub three_nodes : Cluster
three_nodes = record { self = 1; brokers = node 1 ∷ node 2 ∷ node 3 ∷ [] }

replicas_example :
    (ids : List Int32) × (replicas_for three_nodes logs 5 2 ≡ some ids)
    × (length ids ≡ replica_count (length three_nodes.brokers) 2)
    × (1 ≤ length ids)
    × (length ids ≤ length three_nodes.brokers)
    × (get_elem? ids 0 ≡ leader_for three_nodes logs 5)
replicas_example =
    replicas_for-leader three_nodes logs 5 2 (omega arith) (omega arith) (omega arith)
