-- ===== src/Broker.antt =====
-- internal/broker/broker.go: the topics and the local logs of one node. The maps of maps are keyed by
-- topic and partition together; how a log is opened is an argument, and so is what the raft library
-- makes of a proposal.
pub mod Topics
pub mod Replicas
use mq.Common.{
  ℕ, zero, suc, ◌*◌, ◌==◌, Bool, true, false, ◌||◌, Option, none, some, List, [], ◌∷◌, Bytes, Int32,
  Int64, length, is_neg32, lt_i32, le_i32, to_i32, if◌then◌else◌, minus_one32,
}
use mq.Common.Keys.{Map, lookup, insert, bytes_eq, nat_eq, pair_eq}
use mq.Cluster
use mq.Cluster.{Cluster, BrokerInfo, leader_for, is_leader, clamp}
use mq.Controller.Fsm.{MetaState, PartitionMeta, partition, has_topic, partitions}
use mq.Storage.Backend.{Backend}

abbrev pub Time : Type 0
Time = ℕ

-- 10 * time.Second
abbrev pub replica_lag_timeout : Time
replica_lag_timeout = 10 * 1_000_000_000

pub record Config : Type 0 where
  pub num_partitions : Int32
  pub replication_factor : Int32
  pub auto_create : Bool
  pub retention_ms : Int64
  pub retention_bytes : Int64

-- topic, partition
abbrev pub TpKey : Type 0
TpKey = Bytes × Int32

pub record FollowerProgress : Type 0 where
  pub end_offset : Int64
  pub last_seen : Time

-- `ctrl` is the committed metadata as this node has applied it, if it runs with a controller.
pub record Broker (L : Type 0) : Type 0 where
  pub cfg : Config
  pub cluster : Cluster
  pub ctrl : Option MetaState
  pub catalog : Map Bytes Int32
  pub logs : Map TpKey L
  pub followers : Map TpKey (Map Int32 FollowerProgress)
  pub lead_since : Map TpKey Time

abbrev committed_leader : Int32 → Option PartitionMeta → Bool
committed_leader self none = false
committed_leader self (some pv) = pv.leader == self

abbrev is_known : Option Int32 → Bool
is_known none = false
is_known (some n) = true

abbrev seed_meta : Option Int32 → Option (Int32 × Int32 × List Int32 × List Int32)
seed_meta none = none
seed_meta (some leader) = some (leader, 0, leader ∷ [], leader ∷ [])

abbrev addr_of : Int32 → Option BrokerInfo → Option (Int32 × Bytes × Int32)
addr_of leader none = none
addr_of leader (some bi) = some (leader, bi.host, bi.port)

module _ {L : Type 0} where
  abbrev pub new_broker : Config → Cluster → Broker L
  new_broker cfg cl = record {
    cfg = cfg;
    cluster = cl;
    ctrl = none;
    catalog = [];
    logs = [];
    followers = [];
    lead_since = [];
  }

  abbrev pub node_id : Broker L → Int32
  node_id b = b.cluster.self

  abbrev pub get_log : Broker L → Bytes → Int32 → Option L
  get_log b topic p = lookup (topic, p) b.logs

  abbrev leads_by : Broker L → Bytes → Int32 → Option MetaState → Option Bool
  leads_by b topic p none = is_leader b.cluster topic p
  leads_by b topic p (some st) = some (committed_leader (node_id b) (partition st topic p))

  -- `none` is the panic of a cluster without brokers.
  unfoldable pub leads : Broker L → Bytes → Int32 → Option Bool
  leads b topic p = leads_by b topic p b.ctrl

  abbrev or_configured : Broker L → Option Int32 → Int32
  or_configured b none = b.cfg.num_partitions
  or_configured b (some n) = n

  abbrev partitions_by : Broker L → Bytes → Option MetaState → Int32
  partitions_by b topic none = or_configured b (lookup topic b.catalog)
  partitions_by b topic (some st) = or_configured b (partitions st topic)

  unfoldable pub num_partitions : Broker L → Bytes → Int32
  num_partitions b topic = partitions_by b topic b.ctrl

  abbrev knows_by : Broker L → Bytes → Option MetaState → Bool
  knows_by b topic none = is_known (lookup topic b.catalog)
  knows_by b topic (some st) = has_topic st topic

  abbrev pub knows : Broker L → Bytes → Bool
  knows b topic = knows_by b topic b.ctrl

  -- replicationFactor
  abbrev pub replication_factor : Broker L → Int32
  replication_factor b = clamp (to_i32 (length b.cluster.brokers)) b.cfg.replication_factor

  abbrev meta_or_seed :
      Broker L
      → Bytes
      → Int32
      → Option PartitionMeta
      → Option (Int32 × Int32 × List Int32 × List Int32)
  meta_or_seed b topic p none = seed_meta (leader_for b.cluster topic p)
  meta_or_seed b topic p (some pv) = some (pv.leader, pv.leader_epoch, pv.replicas, pv.isr)

  abbrev meta_by :
      Broker L → Bytes → Int32 → Option MetaState → Option (Int32 × Int32 × List Int32 × List Int32)
  meta_by b topic p none = meta_or_seed b topic p none
  meta_by b topic p (some st) = meta_or_seed b topic p (partition st topic p)

  -- leader, leader epoch, replicas and in-sync replicas
  unfoldable pub partition_meta :
      Broker L → Bytes → Int32 → Option (Int32 × Int32 × List Int32 × List Int32)
  partition_meta b topic p = meta_by b topic p b.ctrl

  abbrev leader_addr_by : Broker L → Option PartitionMeta → Option (Int32 × Bytes × Int32)
  leader_addr_by b none = none
  leader_addr_by b (some pv) =
      if is_neg32 pv.leader then none else addr_of pv.leader (Cluster.broker b.cluster pv.leader)

  -- The leader's node id, host and port, from the committed metadata.
  unfoldable pub leader_addr : Broker L → MetaState → Bytes → Int32 → Option (Int32 × Bytes × Int32)
  leader_addr b st topic p = leader_addr_by b (partition st topic p)
