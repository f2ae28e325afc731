-- ===== src/Server/Offsets.antt =====
-- internal/server/handlers.go: the handlers of ListOffsets, OffsetCommit and OffsetFetch. Whether a
-- commit is written is an argument.
pub mod Commits
use mq.Common.{
  ℕ, zero, suc, ◌==◌, Bool, true, false, not, Option, none, some, List, [], ◌∷◌, map, Bytes, Int16,
  Int32, Int64, is_neg32, add32, minus_one32, minus_one64, if◌then◌else◌, Result, ok, err,
}
use mq.Cluster.{is_coordinator}
use mq.Protocol.Header.{err_none}
use mq.Protocol.Offsets.{
  ListOffsetsPartition, ListOffsetsTopic, ListOffsetsRequest, OffsetCommitPartition,
  OffsetCommitTopic, OffsetCommitRequest, OffsetFetchTopic, OffsetFetchRequest,
}
use mq.Protocol.OffsetAnswers.{
  ListOffsetsPartitionResp, ListOffsetsTopicResp, ListOffsetsResponse, OffsetCommitPartitionResp,
  OffsetCommitTopicResp, OffsetCommitResponse, OffsetFetchPartitionResp, OffsetFetchTopicResp,
  OffsetFetchResponse,
}
use mq.Group.Offsets.{OffsetStore, commit, fetch}
use mq.Storage.Backend.{Backend}
use mq.Broker.{Broker}
use mq.Broker.Topics.{TopicInfo, known_topics}
use mq.Server.{leader_log, err_not_coordinator, err_unknown_topic_or_part}

-- TimestampLatest is -1, TimestampEarliest -2.
abbrev pub timestamp_latest : Int64
timestamp_latest = minus_one64

abbrev pub timestamp_earliest : Int64
timestamp_earliest = 0xffff_ffff_ffff_fffe

abbrev list_answer : Int32 → Int16 → Int64 → ListOffsetsPartitionResp
list_answer index code offset = record {
  index = index;
  error_code = code;
  timestamp = minus_one64;
  offset = offset;
}

abbrev offset_or : Option Int64 → Int64
offset_or none = minus_one64
offset_or (some off) = off

abbrev found_time : Option (Option Int64) → Option Int64
found_time none = none
found_time (some off) = some (offset_or off)

module _ {L : Type 0} (k : Backend L) (open_log : Bytes → Int32 → Option L) where
  -- The offset that a timestamp stands for.
  unfoldable pub offset_at : L → Int64 → Option Int64
  offset_at l ts =
      if ts == timestamp_earliest
      then some (k.earliest_of l)
      else if ts == timestamp_latest
      then some (k.high_watermark_of l)
      else found_time (k.offset_for l ts)

  abbrev listed :
      ListOffsetsPartition → Broker L → Option Int64 → Option (ListOffsetsPartitionResp × Broker L)
  listed p b none = none
  listed p b (some off) = some (list_answer p.index err_none off, b)

  abbrev list_from :
      ListOffsetsPartition
      → Option (Result Int16 L × Broker L)
      → Option (ListOffsetsPartitionResp × Broker L)
  list_from p none = none
  list_from p (some (err code, b)) = some (list_answer p.index code 0, b)
  list_from p (some (ok l, b)) = listed p b (offset_at l p.timestamp)

  unfoldable pub list_partition :
      Broker L → Bytes → ListOffsetsPartition → Option (ListOffsetsPartitionResp × Broker L)
  list_partition b topic p = list_from p (leader_log open_log b topic p.index)

  abbrev cons_answer : {A : Type 0} → A → Option (List A × Broker L) → Option (List A × Broker L)
  cons_answer a none = none
  cons_answer a (some (rest, b)) = some (a ∷ rest, b)

  abbrev then_rest :
      {A : Type 0}
      → Option (A × Broker L)
      → (Broker L → Option (List A × Broker L))
      → Option (List A × Broker L)
  then_rest none next = none
  then_rest (some (a, b)) next = cons_answer a (next b)

  unfoldable pub list_partitions :
      Broker L
      → Bytes
      → List ListOffsetsPartition
      → Option (List ListOffsetsPartitionResp × Broker L)
  list_partitions b topic [] = some ([], b)
  list_partitions b topic (p ∷ ps) =
      then_rest (list_partition b topic p) (λ b'. list_partitions b' topic ps)

  abbrev list_topic :
      Bytes
      → Option (List ListOffsetsPartitionResp × Broker L)
      → Option (ListOffsetsTopicResp × Broker L)
  list_topic name none = none
  list_topic name (some (ps, b)) = some (record { name = name; partitions = ps }, b)

  unfoldable pub list_topics :
      Broker L → List ListOffsetsTopic → Option (List ListOffsetsTopicResp × Broker L)
  list_topics b [] = some ([], b)
  list_topics b (t ∷ ts) =
      then_rest (list_topic t.name (list_partitions b t.name t.partitions))
        (λ b'. list_topics b' ts)

  abbrev list_response :
      Option (List ListOffsetsTopicResp × Broker L) → Option (ListOffsetsResponse × Broker L)
  list_response none = none
  list_response (some (ts, b)) = some (record { throttle_time = 0; topics = ts }, b)

  unfoldable pub list_offsets :
      Broker L → ListOffsetsRequest → Option (ListOffsetsResponse × Broker L)
  list_offsets b req = list_response (list_topics b req.topics)

abbrev or_empty : Option Bytes → Bytes
or_empty none = []
or_empty (some meta) = meta

-- Whether the commit of a topic's partition is written.
abbrev pub Writes : Type 0
Writes = Bytes → Int32 → Bool

abbrev commit_code : Bool → Int16
commit_code true = err_none
commit_code false = err_unknown_topic_or_part

abbrev pub commit_one :
    Writes → Bytes → Bytes → OffsetStore → OffsetCommitPartition → Bool × OffsetStore
commit_one writes group topic s p =
    commit (writes topic p.index) s group topic p.index p.offset (or_empty p.metadata)

-- `refused` says that this node does not coordinate the group.
unfoldable pub commit_partitions :
    Bool
    → Writes
    → Bytes
    → Bytes
    → OffsetStore
    → List OffsetCommitPartition
    → List OffsetCommitPartitionResp × OffsetStore
commit_partitions refused writes group topic s [] = ([], s)
commit_partitions true writes group topic s (p ∷ ps) =
    let rest = commit_partitions true writes group topic s ps in
    (record { index = p.index; error_code = err_not_coordinator } ∷ rest.0, rest.1)
commit_partitions false writes group topic s (p ∷ ps) =
    let one = commit_one writes group topic s p in
    let rest = commit_partitions false writes group topic one.1 ps in
    (record { index = p.index; error_code = commit_code one.0 } ∷ rest.0, rest.1)

unfoldable pub commit_topics :
    Bool
    → Writes
    → Bytes
    → OffsetStore
    → List OffsetCommitTopic
    → List OffsetCommitTopicResp × OffsetStore
commit_topics refused writes group s [] = ([], s)
commit_topics refused writes group s (t ∷ ts) =
    let ps = commit_partitions refused writes group t.name s t.partitions in
    let rest = commit_topics refused writes group ps.1 ts in
    (record { name = t.name; partitions = ps.0 } ∷ rest.0, rest.1)

-- OffsetCommit, once it is known whether this node coordinates the group.
unfoldable pub offset_commit :
    Bool → Writes → OffsetStore → OffsetCommitRequest → OffsetCommitResponse × OffsetStore
offset_commit coordinates writes s req =
    let ts = commit_topics (not coordinates) writes req.group_id s req.topics in
    (record { throttle_time = 0; topics = ts.0 }, ts.1)

abbrev meta_of : Bytes → Option Bytes
meta_of [] = none
meta_of (x ∷ xs) = some (x ∷ xs)

abbrev pub fetched : Int32 → Int64 × Bytes × Bool → OffsetFetchPartitionResp
fetched p (offset, meta, found) = record {
  index = p;
  offset = if found then offset else minus_one64;
  leader_epoch = minus_one32;
  metadata = meta_of meta;
  error_code = err_none;
}

unfoldable pub fetch_topics :
    OffsetStore → Bytes → List OffsetFetchTopic → List OffsetFetchTopicResp
fetch_topics s group [] = []
fetch_topics s group (t ∷ ts) =
    record {
      name = t.name;
      partitions = map (λ p. fetched p (fetch s group t.name p)) t.partitions;
    }
    ∷ fetch_topics s group ts

-- The partitions from `p` on.
unfoldable pub numbers : ℕ → Int32 → List Int32
numbers zero p = []
numbers (suc n) p = p ∷ numbers n (add32 p 1)

abbrev all_of : List TopicInfo → List OffsetFetchTopic
all_of = map (λ t. record { name = t.0; partitions = numbers t.1 0 })

abbrev wanted : List TopicInfo → OffsetFetchRequest → List OffsetFetchTopic
wanted known req = if req.all_topics then all_of known else req.topics

-- OffsetFetch; `known` are the broker's topics.
unfoldable pub offset_fetch :
    Bool → List TopicInfo → OffsetStore → OffsetFetchRequest → OffsetFetchResponse
offset_fetch coordinates known s req =
    if coordinates
    then record {
      throttle_time = 0;
      topics = fetch_topics s req.group_id (wanted known req);
      error_code = err_none;
    }
    else record { throttle_time = 0; topics = []; error_code = err_not_coordinator }
