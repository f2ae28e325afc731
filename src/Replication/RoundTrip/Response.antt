-- ===== src/Replication/RoundTrip/Response.antt =====
-- internal/protocol/fetch.go (Encode) and internal/server/server.go (writeResponse) against
-- internal/replication/replication.go (readFetchResponse), at version 4.
use mq.Common.{
  ◌+◌, ◌%◌, ◌^◌, ◌<◌, ◌≡◌, List, [], ◌++◌, Bytes, Int32, IsInt16, IsInt32, IsInt64, arith, length,
  map, drop-front, take-all, be32, be32-put32, length-append, length-put32, put32, All, ok,
  le→not_ltb,
}
use mq.Kbytes.Reader
use mq.Kbytes.Reader.{Get, ◌>>=◌, ◌>>◌ as get_then, pure, new_reader}
use mq.Kbytes.Writer
use mq.Kbytes.Writer.{Put, ◌>>◌, for_each}
use mq.Kbytes.Codec.{
  Codec, Wide, bind-Codec, bind-Wide, last-Codec, int16-Codec, int32-Codec, int64-Codec, int32-Wide,
  int64-Wide, string-Wide, bytes-Codec, array-Codec, Codec-fresh, FitsInt32,
}
use mq.Protocol.Header.{write_response_header}
use mq.Protocol.Fetch.Response.{
  FetchResponse, FetchTopicResp, FetchPartitionResp, encode_partition, encode_topic,
  encode_response,
}
use mq.Replication.Wire.Response.{
  FetchPartitionResult, read_partition, read_topic, first_result, read_body, read_frame,
  read_fetch_response, write_response,
}

-- What the follower keeps of a partition's answer.
abbrev pub kept : FetchPartitionResp → FetchPartitionResult
kept p = record { error_code = p.error_code; hwm = p.high_watermark; records = p.records }

pub record FitsPartition (p : FetchPartitionResp) : Type 0 where
  pub partition : IsInt32 p.partition
  pub error_code : IsInt16 p.error_code
  pub high_watermark : IsInt64 p.high_watermark
  pub last_stable : IsInt64 p.last_stable
  pub records : FitsInt32 p.records

abbrev pub FitsTopic : FetchTopicResp → Type 0
FitsTopic t =
    (length t.name < 2 ^ 15) × (length t.partitions < 2 ^ 31) × All FitsPartition t.partitions

pub record FitsResponse (resp : FetchResponse) : Type 0 where
  pub throttle_time : IsInt32 resp.throttle_time
  pub count : length resp.topics < 2 ^ 31
  pub topics : All FitsTopic resp.topics

aborted-Codec : Codec (Writer.array_len 0) (Reader.array (get_then Reader.int64 Reader.int64)) []
unfolding Writer.array for_each
aborted-Codec =
    array-Codec (λ v. Writer.int64 v >> Writer.int64 v) (get_then Reader.int64 Reader.int64)
      (λ v. v) IsInt64 (λ v h. bind-Wide _ (int64-Wide v h) (int64-Codec v h)) [] (omega arith) tt

partition-Wide :
    (p : FetchPartitionResp) → FitsPartition p → Wide (encode_partition 4 p) read_partition (kept p)
unfolding encode_partition read_partition
partition-Wide p h = bind-Wide _ (int32-Wide p.partition h.partition) (
    bind-Codec _ (int16-Codec p.error_code h.error_code) (
      bind-Codec _ (int64-Codec p.high_watermark h.high_watermark) (
        bind-Codec _ (int64-Codec p.last_stable h.last_stable)
          (bind-Codec _ aborted-Codec (last-Codec _ (bytes-Codec p.records h.records))))))

topic-Wide :
    (t : FetchTopicResp) → FitsTopic t → Wide (encode_topic 4 t) read_topic (map kept t.partitions)
unfolding encode_topic read_topic
topic-Wide t h = bind-Wide _ (string-Wide t.name h.0) (
    array-Codec (encode_partition 4) read_partition kept FitsPartition partition-Wide t.partitions
      h.1 h.2)

-- The answers by topic.
abbrev pub answers : FetchResponse → List (List FetchPartitionResult)
answers resp = map (λ (t : FetchTopicResp). map kept t.partitions) resp.topics

-- readFetchResponse after the correlation id
abbrev read_rest : Get FetchPartitionResult
read_rest = get_then Reader.int32 (Reader.array read_topic >>= λ ts. pure (first_result ts))

response-Codec :
    (resp : FetchResponse)
    → FitsResponse resp
    → Codec (encode_response 4 resp) read_rest (first_result (answers resp))
unfolding encode_response
response-Codec resp h = bind-Codec _ (int32-Codec resp.throttle_time h.throttle_time) (
    last-Codec first_result
      (array-Codec (encode_topic 4) read_topic _ FitsTopic topic-Wide resp.topics h.count h.topics))

body-Codec :
    (corr : Int32) (resp : FetchResponse)
    → IsInt32 corr
    → FitsResponse resp
    → Codec
        (write_response_header corr >> encode_response 4 resp)
        read_body
        (first_result (answers resp))
unfolding write_response_header read_body
body-Codec corr resp hc h = bind-Codec _ (int32-Codec corr hc) (response-Codec resp h)

-- What writeResponse puts behind the size.
abbrev pub payload : Int32 → FetchResponse → Bytes
payload corr resp = Writer.finish (
    Writer.raw (Writer.finish (encode_response 4 resp Writer.new_writer))
      (write_response_header corr Writer.new_writer))

payload-body :
    (corr : Int32) (resp : FetchResponse)
    → FitsResponse resp
    → payload corr resp
      ≡ Writer.finish ((write_response_header corr >> encode_response 4 resp) Writer.new_writer)
unfolding Writer.raw Writer.append
payload-body corr resp h =
    let c = response-Codec resp h in
    rw (
      c.writes.appends Writer.new_writer,
      c.writes.appends (write_response_header corr Writer.new_writer),
    )

read_frame-size :
    (body : Bytes)
    → length body < 2 ^ 32
    → read_frame (put32 (length body % 2 ^ 32) ++ body) ≡ ok body
unfolding read_frame
read_frame-size body h =
    let size = length body % 2 ^ 32 in
    let l : length (put32 size ++ body) ≡ 4 + length body =
      omega (arith, length-append (put32 size) body, length-put32 size) in
    let n : be32 (put32 size ++ body) ≡ length body = omega (arith, be32-put32 size body) in
    rw (
      le→not_ltb (length (put32 size ++ body)) 4 (omega arith),
      n,
      drop-front 4 (put32 size) body (length-put32 size),
      le→not_ltb (length body) (length body) (omega arith),
      take-all body,
    )

-- The broker's Fetch response at version 4, for fields of their widths and a payload that a frame
-- can hold: the follower reads, without an error, the error code, high watermark and records of
-- the first partition of the first topic (and zero values where there is none).
pub read_fetch_response-write_response :
    (corr : Int32) (resp : FetchResponse)
    → IsInt32 corr
    → FitsResponse resp
    → length (payload corr resp) < 2 ^ 32
    → read_fetch_response
        (write_response corr (Writer.finish (encode_response 4 resp Writer.new_writer)))
      ≡ ok (first_result (answers resp))
unfolding read_fetch_response write_response
read_fetch_response-write_response corr resp hc h fits =
    let (value, after) = Codec-fresh (body-Codec corr resp hc h) in
    rw (read_frame-size (payload corr resp) fits, payload-body corr resp h, value, after.no_error)
