-- ===== src/Tests/Servers.antt =====
-- internal/server: requests to a node that leads a partition, over a log that holds two batches and
-- is full.
use mq.Common.{
  true, ℕ, ◌+◌, ◌≡◌, refl, false, Option, none, some, List, [], ◌∷◌, ◌++◌, Bytes, Int32, Int64, All,
  arith, length, flatten, map, minus_one16, minus_one32, minus_one64, if◌then◌else◌, ◌==◌,
}
use mq.Common.Keys.{lookup}
use mq.Controller.Fsm.{partition, part_at}
use mq.Kbytes.Reader.{Reader}
use mq.Protocol.Header.{RequestHeader, err_none}
use mq.Protocol.Fetch.Request.{FetchPartition, FetchRequest}
use mq.Protocol.Fetch.Response.{FetchPartitionResp}
use mq.Protocol.Produce.{ProducePartitionResp, ProduceTopicResp}
use mq.Protocol.Offsets.{OffsetCommitPartition, OffsetCommitRequest}
use mq.Group.Offsets.{OffsetStore}
use mq.Storage.Backend.{Backend, raised}
use mq.Broker.{Broker, Time, leads, num_partitions}
use mq.Broker.Topics.{local_log}
use mq.Server.{leader_log}
use mq.Server.Fetch.{fetch_partition}
use mq.Server.Fetch.Committed.{below, bytes_of, fetch_partition-committed}
use mq.Server.Produce.{ProduceWait, produce_records, produce_partition}
use mq.Server.Produce.Reply.{await_commit, committed, flag}
use mq.Server.Produce.Acks.{
  Answered, await_commit-Answered, append_all, produce_records-append_all,
  produce_partition-swallows,
}
use mq.Server.Conn.{handle_conn}
use mq.Server.Conn.Frames.{request_frame, serve_all, handle_conn-frames}
use mq.Server.Offsets.{Writes, offset_commit, offset_fetch}
use mq.Server.Offsets.Commits.{ask, answer_with, answer_after, last_in, offset_fetch-offset_commit}
use mq.Tests.Metadata.{logs}
use mq.Tests.Records.{batch_at, two_batches, two_batches-All}
use mq.Tests.Segments.{two_batches-Chain}
use mq.Tests.Brokers.{leading}

-- The log is its high watermark; it ends at the offset 4.
abbrev full_log : Backend Int64
full_log = record {
  append_to = λ l batch. some (none, l);
  append_replica_to = λ l batch. (none, l);
  read_from = λ l offset max_bytes. some (flatten two_batches, none);
  high_watermark_of = λ l. l;
  set_high_watermark_of = λ h l. raised h l 4;
  hold_high_watermark_of = λ l. l;
  offset_for = λ l ts. some none;
  earliest_of = λ l. 0;
  latest_of = λ l. 4;
  latest-set = λ h l. refl;
  high-set = λ h l. refl;
  high-hold = λ l. refl;
  latest-hold = λ l. refl;
}

no_logs : Bytes → Int32 → Option Int64
no_logs topic p = none

abbrev first_part : FetchPartition
first_part = record { partition = 0; fetch_offset = 0; log_start_offset = 0; max_bytes = 1000 }

abbrev consumer_fetch : FetchRequest
consumer_fetch = record {
  replica_id = minus_one32;
  max_wait_ms = 0;
  min_bytes = 0;
  max_bytes = 1000;
  isolation_level = 0;
  session_id = 0;
  session_epoch = 0;
  topics = [];
}

-- The high watermark 3 lies within the second batch.
fetch_partition_example :
    (resp : FetchPartitionResp) × (fetch_partition full_log no_logs consumer_fetch
        (leading 3)
        logs
        first_part
        7
      ≡ some ((resp, length (flatten (below 3 0 two_batches)), false), leading 3))
    × (resp.error_code ≡ err_none)
    × (resp.high_watermark ≡ 3)
    × (bytes_of resp.records ≡ flatten (below 3 0 two_batches))
unfolding leader_log local_log leads num_partitions partition lookup part_at
fetch_partition_example =
    fetch_partition-committed full_log no_logs consumer_fetch (leading 3) (leading 3) logs
      first_part 7 3 two_batches 0 4 refl refl refl two_batches-Chain (omega arith) (omega arith)
      (omega arith)

append_all_example :
    produce_records full_log (some (flatten two_batches)) 2
    ≡ append_all full_log two_batches (minus_one64, 2)
append_all_example = produce_records-append_all full_log two_batches 2 two_batches-All (omega arith)

swallows_example :
    (resp : ProducePartitionResp) × (after_b : Broker Int64) × (produce_partition full_log no_logs
        minus_one16
        (leading 2)
        logs
        (record { index = 0; records = some (flatten two_batches) })
        0
        0
      ≡ some ((resp, none), after_b))
    × (resp.error_code ≡ err_none)
    × (resp.base_offset ≡ 0)
unfolding leader_log local_log leads num_partitions partition lookup part_at
swallows_example =
    produce_partition-swallows full_log no_logs minus_one16 (leading 2) (leading 2) logs
      (record { index = 0; records = some (flatten two_batches) }) 0 0 2 2 (batch_at 0)
      (batch_at 2 ∷ []) refl refl two_batches-All (omega arith) refl

-- Two partitions that wait: the first is committed at the second poll, the other never.
abbrev wait_at : ℕ → ProduceWait
wait_at i = record { topic = logs; partition = i; target = 4; topic_index = 0; part_index = i }

abbrev polls : ProduceWait → List (Int64 × Time)
polls w = if w.partition == 0 then (3, 1) ∷ (4, 2) ∷ [] else (3, 1) ∷ (3, 9) ∷ []

abbrev answer_at : ℕ → ProducePartitionResp
answer_at i = record {
  index = i;
  error_code = err_none;
  base_offset = 2;
  log_append_time = 0;
  log_start_offset = 0;
}

abbrev one_answer : List ProduceTopicResp
one_answer = record { name = logs; partitions = answer_at 0 ∷ answer_at 1 ∷ [] } ∷ []

abbrev flagged_answer : List ProduceTopicResp
flagged_answer = flag 0 1 one_answer

await_commit_example : All (Answered polls 8 flagged_answer) (wait_at 0 ∷ wait_at 1 ∷ [])
unfolding await_commit committed
await_commit_example =
    await_commit-Answered polls 8 (wait_at 0 ∷ wait_at 1 ∷ []) one_answer flagged_answer
      (tt, (tt, tt)) refl

-- A dispatcher that answers every request with its number.
abbrev numbered : RequestHeader → Reader → ℕ → Option Bytes × ℕ
numbered hdr r s = (some (s ∷ []), s + 1)

abbrev one_request : Bytes
one_request = 0 ∷ 18 ∷ 0 ∷ 0 ∷ 0 ∷ 0 ∷ 0 ∷ 5 ∷ 255 ∷ 255 ∷ []

handle_conn_example :
    handle_conn numbered
      (flatten (map request_frame (one_request ∷ one_request ∷ [])) ++ (0 ∷ []))
      7
    ≡ serve_all numbered (one_request ∷ one_request ∷ []) 7
handle_conn_example =
    handle_conn-frames numbered (one_request ∷ one_request ∷ []) (0 ∷ []) 7
      ((omega arith, omega arith), ((omega arith, omega arith), tt)) (omega arith)

abbrev nothing_committed : OffsetStore
nothing_committed = record { cache = []; files = [] }

abbrev entry_of : Int32 → Int64 → OffsetCommitPartition
entry_of p offset = record { index = p; offset = offset; leader_epoch = 0; metadata = none }

-- The topic stands in two entries of the request.
abbrev one_commit : OffsetCommitRequest
one_commit = record {
  group_id = logs;
  generation_id = 1;
  member_id = [];
  topics =
      (record { name = logs; partitions = entry_of 0 5 ∷ entry_of 1 6 ∷ [] })
      ∷ (record { name = logs; partitions = entry_of 0 7 ∷ [] })
      ∷ [];
}

abbrev commits_zero : Writes
commits_zero topic p = p == 0

offset_commit_example :
    offset_fetch true []
      (offset_commit true commits_zero nothing_committed one_commit).1
      (ask logs logs 0)
    ≡ answer_with logs
        (answer_after commits_zero logs logs 0 nothing_committed (last_in logs 0 one_commit.topics))
offset_commit_example =
    offset_fetch-offset_commit commits_zero logs logs 0 [] nothing_committed one_commit refl refl
