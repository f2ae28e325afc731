-- ===== src/Tests/Brokers.antt =====
-- internal/broker and internal/server: a node that leads a partition, and requests to it.
use mq.Common.{
  ◌⊎◌, ℕ, ◌≡◌, refl, inl, inr, true, false, Option, none, some, [], ◌∷◌, Bytes, Int32, le_i64,
  lt_i32, is_neg32,
}
use mq.Common.Keys.{lookup, insert, bytes_eq, nat_eq, pair_eq}
use mq.Controller.Fsm.{PartitionMeta, partition, part_at}
use mq.Storage.Log.{Log, Disk, latest_offset}
use mq.Storage.Segment.{full}
use mq.Storage.Backend.{Backend, file_backend}
use mq.Broker.{Broker, FollowerProgress, get_log, leads, num_partitions}
use mq.Broker.Replicas.{maintain_partition_isr, record_replica_fetch, advance_high_watermark}
use mq.Broker.Replicas.Watermark.{
  Advanced, record_replica_fetch-Advanced, advance_high_watermark-reaches,
}
use mq.Broker.Topics.{local_log}
use mq.Broker.Topics.Opens.{local_log-leads}
use mq.Broker.Replicas.Isr.{committed_at_once, IsLive, live_of, maintain_partition_isr-IsLive}
use mq.Tests.Metadata.{logs, on_three, one_topic, three_nodes}
use mq.Tests.Segments.{four_records}

abbrev pub leading : {L : Type 0} → L → Broker L
leading l = record {
  cfg = record {
    num_partitions = 1;
    replication_factor = 3;
    auto_create = true;
    retention_ms = 0;
    retention_bytes = 0;
  };
  cluster = three_nodes;
  ctrl = some one_topic;
  catalog = [];
  logs = ((logs, 0), l) ∷ [];
  followers = [];
  lead_since = [];
}

abbrev disk : Disk
disk = record { syncs = true; creates = true; idx_write = full; log_write = full }

abbrev files : Backend Log
files = file_backend disk

abbrev at_end : ℕ → FollowerProgress
at_end n = record { end_offset = n; last_seen = 7 }

record_replica_fetch_example :
    (l' : Log) × (get_log (record_replica_fetch files (leading four_records) logs 0 2 3 7) logs 0
      ≡ some l')
    × Advanced files 1 (insert 2 (at_end 3) []) (1 ∷ 2 ∷ 3 ∷ []) four_records l'
unfolding partition lookup part_at
record_replica_fetch_example =
    record_replica_fetch-Advanced files (leading four_records) one_topic logs 0 2 3 7 on_three
      four_records refl refl refl refl

abbrev with_followers : Broker Log
with_followers = record (leading four_records) {
  followers = ((logs, 0), (2, at_end 3) ∷ (3, at_end 4) ∷ []) ∷ [];
}

advance_high_watermark_example :
    (l' : Log) × (get_log (advance_high_watermark files with_followers one_topic logs 0) logs 0
      ≡ some l')
    × (le_i64 3 (files.high_watermark_of l') ≡ true)
unfolding partition lookup part_at latest_offset
advance_high_watermark_example =
    advance_high_watermark-reaches files with_followers one_topic logs 0 on_three four_records 3
      refl refl refl refl (inl refl, (inr refl, (inr refl, tt)))

-- At time 20 s, node 2 was heard from 1 s ago and node 3 never; this node leads for 20 s.
abbrev lagging : Broker Log
lagging = record (leading four_records) {
  followers = ((logs, 0), (2, record { end_offset = 3; last_seen = 19_000_000_000 }) ∷ []) ∷ [];
  lead_since = ((logs, 0), 1) ∷ [];
}

maintain_partition_isr_example :
    (after : PartitionMeta) × (partition
        (maintain_partition_isr files committed_at_once lagging one_topic logs 0 on_three
          20_000_000_000)
        logs
        0
      ≡ some after)
    × IsLive (live_of lagging logs 0 on_three 20_000_000_000) after.isr
    × ((after ≡ on_three)
        ⊎ (after ≡ record on_three { isr = live_of lagging logs 0 on_three 20_000_000_000 }))
unfolding partition lookup part_at
maintain_partition_isr_example =
    maintain_partition_isr-IsLive lagging logs 0 on_three 20_000_000_000 files one_topic refl

no_disk : Bytes → Int32 → Option Log
no_disk topic p = none

local_log_example :
    (leads (leading four_records) logs 0 ≡ some true)
    × (is_neg32 0 ≡ false)
    × (lt_i32 0 (num_partitions (leading four_records) logs) ≡ true)
    × (get_log (leading four_records) logs 0 ≡ some four_records)
unfolding partition lookup part_at local_log leads num_partitions
local_log_example =
    local_log-leads no_disk (leading four_records) logs 0 four_records (leading four_records) refl
