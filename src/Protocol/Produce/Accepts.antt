-- ===== src/Protocol/Produce/Accepts.antt =====
-- internal/protocol/produce.go: the broker against Kafka's layout of a Produce request.
use mq.Common.{◌^◌, ◌≤◌, ◌<◌, ◌≡◌, [], Int16, IsInt16, IsInt32, arith, length, All, le_i16, true}
use mq.Kbytes.Reader.{new_reader}
use mq.Kbytes.Writer
use mq.Kbytes.Writer.{Put, ◌>>◌}
use mq.Kbytes.Codec.{
  Codec, Wide, Reads, bind-Codec, bind-Wide, last-Codec, int16-Codec, int32-Codec, int32-Wide,
  string-Wide, nullable_string-Codec, bytes-Codec, list-Codec, Codec-fresh, FitsInt32, ShortOrNone,
}
use mq.Protocol.Produce.{
  ProducePartition, ProduceTopic, ProduceRequest, decode_produce_partition, decode_produce_topic,
  decode_produce,
}

-- Kafka's layout, versions 3 to 8: transactional_id, acks, timeout_ms, topics by name, partitions by
-- index with their records.
abbrev write_partition : ProducePartition → Put
write_partition p = do Writer.int32 p.index; Writer.bytes p.records

abbrev write_topic : ProduceTopic → Put
write_topic t = do Writer.string t.name; Writer.array t.partitions write_partition

abbrev pub write_produce : ProduceRequest → Put
write_produce req = do
  Writer.nullable_string req.transactional_id
  Writer.int16 req.acks
  Writer.int32 req.timeout_ms
  Writer.array req.topics write_topic

pub record FitsProducePartition (p : ProducePartition) : Type 0 where
  pub index : IsInt32 p.index
  pub records : FitsInt32 p.records

abbrev pub FitsProduceTopic : ProduceTopic → Type 0
FitsProduceTopic t =
    (length t.name < 2 ^ 15)
    × (length t.partitions < 2 ^ 31)
    × All FitsProducePartition t.partitions

pub record FitsProduce (req : ProduceRequest) : Type 0 where
  pub transactional_id : ShortOrNone req.transactional_id
  pub acks : IsInt16 req.acks
  pub timeout_ms : IsInt32 req.timeout_ms
  pub count : length req.topics < 2 ^ 31
  pub topics : All FitsProduceTopic req.topics

partition-Wide :
    (p : ProducePartition)
    → FitsProducePartition p
    → Wide (write_partition p) decode_produce_partition p
unfolding decode_produce_partition
partition-Wide p h =
    bind-Wide _ (int32-Wide p.index h.index)
      (last-Codec (λ r. record { index = p.index; records = r }) (bytes-Codec p.records h.records))

topic-Wide : (t : ProduceTopic) → FitsProduceTopic t → Wide (write_topic t) decode_produce_topic t
unfolding decode_produce_topic
topic-Wide t h = bind-Wide _ (string-Wide t.name h.0) (
    last-Codec (λ ps. record { name = t.name; partitions = ps })
      (list-Codec write_partition decode_produce_partition FitsProducePartition partition-Wide
        t.partitions h.1 h.2))

produce-Codec :
    (version : Int16) (req : ProduceRequest)
    → le_i16 3 version ≡ true
    → FitsProduce req
    → Codec (write_produce req) (decode_produce version) req
unfolding decode_produce
produce-Codec version req new h = rw new (
    bind-Codec _ (nullable_string-Codec req.transactional_id h.transactional_id) (
      bind-Codec _ (int16-Codec req.acks h.acks) (
        bind-Codec _ (int32-Codec req.timeout_ms h.timeout_ms) (
          last-Codec
            (λ ts. record {
              transactional_id = req.transactional_id;
              acks = req.acks;
              timeout_ms = req.timeout_ms;
              topics = ts;
            })
            (list-Codec write_topic decode_produce_topic FitsProduceTopic topic-Wide req.topics
              h.count h.topics)))))

-- At every version from 3 to 8, a Produce request in Kafka's layout of these versions, with lengths
-- and numbers that fit their fields, decodes to itself, without an error and with nothing left.
pub decode_produce-write_produce :
    (version : Int16) (req : ProduceRequest)
    → 3 ≤ version
    → version ≤ 8
    → FitsProduce req
    → ((decode_produce version (new_reader (Writer.finish (write_produce req Writer.new_writer)))).0
        ≡ req)
      × Reads
          (decode_produce version
            (new_reader (Writer.finish (write_produce req Writer.new_writer)))).1
          []
decode_produce-write_produce version req low high h =
    Codec-fresh (produce-Codec version req (ground arith) h)
