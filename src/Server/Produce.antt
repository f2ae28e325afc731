-- ===== src/Server/Produce.antt =====
-- internal/server/handlers.go: the Produce handler, up to the wait for acks=all.
pub mod Reply
pub mod Acks
use mq.Common.{
  ℕ, suc, ◌+◌, ◌==◌, Bool, true, false, not, ◌&&◌, Option, none, some, List, [], ◌∷◌, ◌++◌, Bytes,
  Int16, Int32, Int64, is_neg64, minus_one16, minus_one64, if◌then◌else◌, Result, ok, err,
}
use mq.Common.Keys.{insert, bytes_eq, nat_eq, pair_eq}
use mq.Record.Iterate.{
  Answer, go_on, stop, crash, Walk, done, failed, panicked, unfinished, iterate,
}
use mq.Protocol.Header.{err_none}
use mq.Protocol.Produce.{ProducePartition, ProduceTopic, ProducePartitionResp, ProduceTopicResp}
use mq.Storage.Backend.{Backend}
use mq.Broker.{Broker}
use mq.Server.{leader_log}

-- An appended partition that acks=all waits for: its log, the end that must be committed, and its
-- place in the response.
pub record ProduceWait : Type 0 where
  pub topic : Bytes
  pub partition : Int32
  pub target : Int64
  pub topic_index : ℕ
  pub part_index : ℕ

module _ {L : Type 0} where
  -- The callback's state: the first offset, which is -1 before the first append, and the log.
  abbrev pub appended : Int64 → Option (Option Int64 × L) → Answer (Int64 × L) (Unit {0})
  appended base none = crash
  appended base (some (none, l)) = stop (if is_neg64 base then 0 else base, l) tt
  appended base (some (some off, l)) = go_on (if is_neg64 base then off else base, l)

  abbrev walked : Walk (Int64 × L) (Unit {0}) → Option (Bool × Int64 × L)
  walked (done n (base, l)) = some (true, base, l)
  walked (failed n e (base, l)) = some (false, base, l)
  walked panicked = none
  walked unfinished = none

abbrev or_empty : Option Bytes → Bytes
or_empty none = []
or_empty (some bytes) = bytes

module _ {L : Type 0} (k : Backend L) where
  abbrev pub append_batch : Bytes → Int64 × L → Answer (Int64 × L) (Unit {0})
  append_batch batch (base, l) = appended base (k.append_to l batch)

  -- The batches of a record set, appended: whether all went well, the first offset, and the log.
  unfoldable pub produce_records : Option Bytes → L → Option (Bool × Int64 × L)
  produce_records records l = walked (iterate append_batch (or_empty records) (minus_one64, l))

  module _ (open_log : Bytes → Int32 → Option L) where
    abbrev wait_for :
        Int16 → Bytes → ProducePartition → ℕ → ℕ → Bool → Int64 → L → Option ProduceWait
    wait_for acks topic p ti pi fine base l =
        if acks == minus_one16 && (fine && not (is_neg64 base))
        then some (record {
          topic = topic;
          partition = p.index;
          target = k.latest_of l;
          topic_index = ti;
          part_index = pi;
        })
        else none

    abbrev pub Produced : Type 0
    Produced = (ProducePartitionResp × Option ProduceWait) × Broker L

    abbrev stored :
        Int16
        → Broker L
        → Bytes
        → ProducePartition
        → ℕ
        → ℕ
        → Option (Bool × Int64 × L)
        → Option Produced
    stored acks b topic p ti pi none = none
    stored acks b topic p ti pi (some (fine, base, l)) = some (
      (
        record {
          index = p.index;
          error_code = err_none;
          base_offset = base;
          log_append_time = 0;
          log_start_offset = k.earliest_of l;
        },
        wait_for acks topic p ti pi fine base l,
      ),
      record b { logs = insert (topic, p.index) l b.logs },
    )

    abbrev refused : ProducePartition → Int16 → ProducePartitionResp
    refused p code = record {
      index = p.index;
      error_code = code;
      base_offset = minus_one64;
      log_append_time = 0;
      log_start_offset = 0;
    }

    abbrev produce_to :
        Int16
        → Bytes
        → ProducePartition
        → ℕ
        → ℕ
        → Option (Result Int16 L × Broker L)
        → Option Produced
    produce_to acks topic p ti pi none = none
    produce_to acks topic p ti pi (some (err code, b)) = some ((refused p code, none), b)
    produce_to acks topic p ti pi (some (ok l, b)) =
        stored acks b topic p ti pi (produce_records p.records l)

    unfoldable pub produce_partition :
        Int16 → Broker L → Bytes → ProducePartition → ℕ → ℕ → Option Produced
    produce_partition acks b topic p ti pi =
        produce_to acks topic p ti pi (leader_log open_log b topic p.index)

    abbrev with_wait : Option ProduceWait → List ProduceWait → List ProduceWait
    with_wait none ws = ws
    with_wait (some w) ws = w ∷ ws

    abbrev joined :
        ProducePartitionResp
        → Option ProduceWait
        → Option ((List ProducePartitionResp × List ProduceWait) × Broker L)
        → Option ((List ProducePartitionResp × List ProduceWait) × Broker L)
    joined pr w none = none
    joined pr w (some ((prs, ws), b)) = some ((pr ∷ prs, with_wait w ws), b)

    abbrev then_rest :
        Option Produced
        → (Broker L → Option ((List ProducePartitionResp × List ProduceWait) × Broker L))
        → Option ((List ProducePartitionResp × List ProduceWait) × Broker L)
    then_rest none next = none
    then_rest (some ((pr, w), b)) next = joined pr w (next b)

    unfoldable pub produce_partitions :
        Int16
        → Broker L
        → Bytes
        → List ProducePartition
        → ℕ
        → ℕ
        → Option ((List ProducePartitionResp × List ProduceWait) × Broker L)
    produce_partitions acks b topic [] ti pi = some (([], []), b)
    produce_partitions acks b topic (p ∷ ps) ti pi =
        then_rest (produce_partition acks b topic p ti pi)
          (λ b'. produce_partitions acks b' topic ps ti (suc pi))

    abbrev topic_joined :
        Bytes
        → List ProducePartitionResp
        → List ProduceWait
        → Option ((List ProduceTopicResp × List ProduceWait) × Broker L)
        → Option ((List ProduceTopicResp × List ProduceWait) × Broker L)
    topic_joined name prs ws none = none
    topic_joined name prs ws (some ((ts, more), b)) =
        some ((record { name = name; partitions = prs } ∷ ts, ws ++ more), b)

    abbrev then_topics :
        Bytes
        → Option ((List ProducePartitionResp × List ProduceWait) × Broker L)
        → (Broker L → Option ((List ProduceTopicResp × List ProduceWait) × Broker L))
        → Option ((List ProduceTopicResp × List ProduceWait) × Broker L)
    then_topics name none next = none
    then_topics name (some ((prs, ws), b)) next = topic_joined name prs ws (next b)

    unfoldable pub produce_topics :
        Int16
        → Broker L
        → List ProduceTopic
        → ℕ
        → Option ((List ProduceTopicResp × List ProduceWait) × Broker L)
    produce_topics acks b [] ti = some (([], []), b)
    produce_topics acks b (t ∷ ts) ti =
        then_topics t.name (produce_partitions acks b t.name t.partitions ti 0)
          (λ b'. produce_topics acks b' ts (suc ti))
