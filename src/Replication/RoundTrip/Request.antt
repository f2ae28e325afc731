-- ===== src/Replication/RoundTrip/Request.antt =====
-- internal/replication/replication.go (encodeFetch) against internal/server/server.go (handleConn)
-- and internal/protocol/fetch.go (Decode).
use mq.Common.{
  ◌+◌, ◌%◌, ◌^◌, ◌<◌, ◌≡◌, some, List, [], ◌∷◌, ◌++◌, Bytes, Int32, Int64, IsInt32, IsInt64, arith,
  length, map, drop, drop-front, be32, be32-put32, length-append, length-put16, length-put32,
  length-put64, put32, All,
}
use mq.Kbytes.Reader.{Get, ◌>>=◌, pure, new_reader}
use mq.Kbytes.Writer
use mq.Kbytes.Writer.{Put, ◌>>◌, for_each}
use mq.Kbytes.Codec.{
  Codec, Wide, bind-Codec, bind-Wide, skip-Codec, last-Codec, int8-Codec, int16-Codec, int32-Codec,
  int64-Codec, int32-Wide, string-Wide, some_string-Codec, array-Codec, Codec-fresh, Reads,
}
use mq.Protocol.Header.{RequestHeader, decode_request_header}
use mq.Protocol.Fetch.Request.{
  FetchRequest, FetchTopic, FetchPartition, decode_partition, decode_topic, decode_request,
}
use mq.Replication.Wire.Request.{client_id, fetch_max_bytes, write_fetch, encode_fetch}

-- handleConn reads the header, and the fetch handler the body at the header's version.
unfoldable pub receive_fetch : Get (RequestHeader × FetchRequest)
receive_fetch = do
  hdr ← decode_request_header
  req ← decode_request hdr.api_version
  pure (hdr, req)

-- One requested partition and its offset; one topic and its partitions.
abbrev Wanted : Type 0
Wanted = Int32 × Int64

abbrev wanted_partition : Wanted → FetchPartition
wanted_partition (p, off) = record {
  partition = p;
  fetch_offset = off;
  log_start_offset = 0;
  max_bytes = fetch_max_bytes;
}

abbrev FitsWanted : Wanted → Type 0
FitsWanted (p, off) = IsInt32 p × IsInt64 off

write_wanted : Wanted → Put
write_wanted (p, off) = do Writer.int32 p; Writer.int64 off; Writer.int32 fetch_max_bytes

partition-Wide :
    (x : Wanted) → FitsWanted x → Wide (write_wanted x) (decode_partition 4) (wanted_partition x)
unfolding decode_partition write_wanted
partition-Wide (p, off) h = bind-Wide _ (int32-Wide p h.0) (
    skip-Codec _ (
      bind-Codec _ (int64-Codec off h.1)
        (skip-Codec _ (last-Codec _ (int32-Codec fetch_max_bytes (omega arith))))))

write_topic : Bytes × List Wanted → Put
write_topic (name, ps) = do Writer.string name; Writer.array ps write_wanted

abbrev wanted_topic : Bytes × List Wanted → FetchTopic
wanted_topic (name, ps) = record { name = name; partitions = map wanted_partition ps }

abbrev FitsTopic : Bytes × List Wanted → Type 0
FitsTopic (name, ps) = (length name < 2 ^ 15) × (length ps < 2 ^ 31) × All FitsWanted ps

topic-Wide :
    (t : Bytes × List Wanted) → FitsTopic t → Wide (write_topic t) (decode_topic 4) (wanted_topic t)
unfolding decode_topic write_topic
topic-Wide (name, ps) h = bind-Wide _ (string-Wide name h.0) (
    last-Codec _ (
      array-Codec write_wanted (decode_partition 4) wanted_partition FitsWanted partition-Wide ps
        h.1 h.2))

header-Codec :
    (corr : Int32)
    → IsInt32 corr
    → Codec
        (do
          Writer.int16 1
          Writer.int16 4
          Writer.int32 corr
          Writer.nullable_string (some client_id))
        decode_request_header
        (record { api_key = 1; api_version = 4; correlation_id = corr; client_id = some client_id })
unfolding decode_request_header
header-Codec corr h = bind-Codec _ (int16-Codec 1 (omega arith)) (
    bind-Codec _ (int16-Codec 4 (omega arith)) (
      bind-Codec _ (int32-Codec corr h) (last-Codec _ (some_string-Codec client_id (omega arith)))))

-- The request that the follower means.
abbrev pub fetch_of : Int32 → Bytes → Int32 → Int64 → FetchRequest
fetch_of replica_id topic p offset = record {
  replica_id = replica_id;
  max_wait_ms = 500;
  min_bytes = 1;
  max_bytes = fetch_max_bytes;
  isolation_level = 0;
  session_id = 0;
  session_epoch = 0;
  topics = wanted_topic (topic, (p, offset) ∷ []) ∷ [];
}

module _ (replica_id : Int32) (topic : Bytes) (p : Int32) (offset : Int64) (hr : IsInt32 replica_id)
    (ht : length topic < 2 ^ 15) (hp : IsInt32 p) (ho : IsInt64 offset) where
  body-Codec :
      Codec
        (do
          Writer.int32 replica_id
          Writer.int32 500
          Writer.int32 1
          Writer.int32 fetch_max_bytes
          Writer.int8 0
          Writer.array ((topic, (p, offset) ∷ []) ∷ []) write_topic)
        (decode_request 4)
        (fetch_of replica_id topic p offset)
  unfolding decode_request
  body-Codec = bind-Codec _ (int32-Codec replica_id hr) (
      bind-Codec _ (int32-Codec 500 (omega arith)) (
        bind-Codec _ (int32-Codec 1 (omega arith)) (
          bind-Codec _ (int32-Codec fetch_max_bytes (omega arith)) (
            bind-Codec _ (int8-Codec 0 (omega arith)) (
              skip-Codec _ (
                skip-Codec _ (
                  last-Codec _ (
                    array-Codec write_topic (decode_topic 4) wanted_topic FitsTopic topic-Wide _
                      (omega arith) (omega arith)))))))))

  fetch-Codec :
      (corr : Int32)
      → IsInt32 corr
      → Codec (write_fetch replica_id topic p offset corr) receive_fetch (
        record { api_key = 1; api_version = 4; correlation_id = corr; client_id = some client_id },
        fetch_of replica_id topic p offset,
      )
  unfolding write_fetch receive_fetch write_topic write_wanted for_each Writer.array
  fetch-Codec corr hc = bind-Codec _ (header-Codec corr hc) (last-Codec _ body-Codec)

  length-payload :
      (corr : Int32)
      → length (Writer.finish (write_fetch replica_id topic p offset corr Writer.new_writer))
        ≡ 63 + length topic
  unfolding write_fetch Writer.int8 Writer.int16 Writer.int32 Writer.int64 Writer.array_len
      Writer.string Writer.nullable_string Writer.append
  length-payload corr = simp (length-append, length-put16, length-put32, length-put64) (omega arith)

  -- A fetch that the follower encodes, for ids and an offset of their widths and a topic name below
  -- 2 ^ 15 bytes: the four bytes in front give the number of bytes behind them, and from those the
  -- broker decodes the header and exactly the request that the follower meant, without an error and
  -- with nothing left.
  pub receive-encode_fetch :
      (corr : Int32)
      → IsInt32 corr
      → (be32 (encode_fetch replica_id topic p offset corr)
          ≡ length (drop 4 (encode_fetch replica_id topic p offset corr)))
        × ((receive_fetch (new_reader (drop 4 (encode_fetch replica_id topic p offset corr)))).0 ≡ (
          record {
            api_key = 1;
            api_version = 4;
            correlation_id = corr;
            client_id = some client_id;
          },
          fetch_of replica_id topic p offset,
        ))
        × Reads
            (receive_fetch (new_reader (drop 4 (encode_fetch replica_id topic p offset corr)))).1
            []
  unfolding encode_fetch
  receive-encode_fetch corr hc =
      let payload : Bytes =
        Writer.finish (write_fetch replica_id topic p offset corr Writer.new_writer) in
      let (value, after) = Codec-fresh (fetch-Codec corr hc) in
      let e : drop 4 (put32 (length payload % 2 ^ 32) ++ payload) ≡ payload =
        drop-front 4 _ payload (length-put32 _) in
      rw e (
        omega (arith, be32-put32 (length payload % 2 ^ 32) payload, length-payload corr),
        value,
        after,
      )
