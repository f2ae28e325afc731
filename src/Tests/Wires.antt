-- ===== src/Tests/Wires.antt =====
-- internal/replication and internal/protocol: one fetch and its answer.
use mq.Common.{
  ◌^◌, none, ◌<◌, ◌≡◌, some, [], ◌∷◌, Bytes, arith, length, drop, be32, ok, put16, put32, put64,
}
use mq.Kbytes.Reader.{new_reader}
use mq.Kbytes.Writer
use mq.Kbytes.Codec.{Reads}
use mq.Protocol.Fetch.Response.{
  FetchResponse, FetchPartitionResp, encode_response, encode_topic, encode_partition,
}
use mq.Protocol.Header.{write_response_header}
use mq.Replication.Wire.Request.{encode_fetch, client_id}
use mq.Replication.Wire.Response.{write_response, read_fetch_response, first_result}
use mq.Replication.RoundTrip.Request.{receive-encode_fetch, receive_fetch, fetch_of}
use mq.Replication.RoundTrip.Response.{
  read_fetch_response-write_response, FitsResponse, FitsPartition, answers, payload,
}
use mq.Protocol.Produce.{ProduceRequest, decode_produce}
use mq.Protocol.Produce.Accepts.{decode_produce-write_produce, write_produce}
use mq.Protocol.Membership.{SyncGroupRequest, decode_sync_group}
use mq.Protocol.Membership.Assigns.{decode_sync_group-write_sync_group, write_sync_group}

abbrev orders : Bytes
orders = b'o' ∷ b'r' ∷ b'd' ∷ []

receive_example :
    (be32 (encode_fetch 2 orders 0 17 5) ≡ length (drop 4 (encode_fetch 2 orders 0 17 5)))
    × ((receive_fetch (new_reader (drop 4 (encode_fetch 2 orders 0 17 5)))).0 ≡ (
      record { api_key = 1; api_version = 4; correlation_id = 5; client_id = some client_id },
      fetch_of 2 orders 0 17,
    ))
    × Reads (receive_fetch (new_reader (drop 4 (encode_fetch 2 orders 0 17 5)))).1 []
receive_example =
    receive-encode_fetch 2 orders 0 17 (omega arith) (omega arith) (omega arith) (omega arith) 5
      (omega arith)

abbrev one_partition : FetchPartitionResp
one_partition = record {
  partition = 0;
  error_code = 0;
  high_watermark = 17;
  last_stable = 17;
  log_start_offset = 0;
  records = some (1 ∷ 2 ∷ 3 ∷ []);
}

abbrev one_response : FetchResponse
one_response = record {
  throttle_time = 0;
  error_code = 0;
  session_id = 0;
  topics = (record { name = orders; partitions = one_partition ∷ [] }) ∷ [];
}

one_partition-Fits : FitsPartition one_partition
one_partition-Fits = record {
  partition = omega arith;
  error_code = omega arith;
  high_watermark = omega arith;
  last_stable = omega arith;
  records = omega arith;
}

one_response-Fits : FitsResponse one_response
one_response-Fits = record {
  throttle_time = omega arith;
  count = omega arith;
  topics = ((omega arith, omega arith, (one_partition-Fits, tt)), tt);
}

one_payload : length (payload 5 one_response) < 2 ^ 32
unfolding Writer.raw Writer.append write_response_header Writer.int32 put32 encode_response
    Writer.array Writer.for_each encode_topic encode_partition Writer.bytes Writer.array_len
    Writer.int64 Writer.int16 Writer.string put16 put64
one_payload = omega arith

response_example :
    read_fetch_response
      (write_response 5 (Writer.finish (encode_response 4 one_response Writer.new_writer)))
    ≡ ok (first_result (answers one_response))
response_example =
    read_fetch_response-write_response 5 one_response (omega arith) one_response-Fits one_payload

abbrev one_produce : ProduceRequest
one_produce = record {
  transactional_id = none;
  acks = 1;
  timeout_ms = 500;
  topics =
      (record {
        name = orders;
        partitions = (record { index = 0; records = some (1 ∷ 2 ∷ []) }) ∷ [];
      })
      ∷ [];
}

produce_example :
    ((decode_produce 7 (new_reader (Writer.finish (write_produce one_produce Writer.new_writer)))).0
      ≡ one_produce)
    × Reads
        (decode_produce 7
          (new_reader (Writer.finish (write_produce one_produce Writer.new_writer)))).1
        []
produce_example = decode_produce-write_produce 7 one_produce (omega arith) (omega arith) (record {
  transactional_id = tt;
  acks = omega arith;
  timeout_ms = omega arith;
  count = omega arith;
  topics =
      ((omega arith, omega arith, (record { index = omega arith; records = omega arith }, tt)), tt);
})

abbrev one_sync : SyncGroupRequest
one_sync = record {
  group_id = orders;
  generation_id = 3;
  member_id = orders;
  assignments = (record { member_id = orders; assignment = some (9 ∷ []) }) ∷ [];
}

sync_example :
    ((decode_sync_group
        (new_reader (Writer.finish (write_sync_group one_sync Writer.new_writer)))).0
      ≡ one_sync)
    × Reads
        (decode_sync_group
          (new_reader (Writer.finish (write_sync_group one_sync Writer.new_writer)))).1
        []
sync_example = decode_sync_group-write_sync_group one_sync (record {
  group_id = omega arith;
  generation_id = omega arith;
  member_id = omega arith;
  count = omega arith;
  assignments = (record { member_id = omega arith; assignment = omega arith }, tt);
})
