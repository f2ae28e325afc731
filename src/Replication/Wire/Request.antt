-- ===== src/Replication/Wire/Request.antt =====
-- internal/replication/replication.go (encodeFetch).
use mq.Common.{ℕ, ◌%◌, ◌^◌, some, [], ◌∷◌, ◌++◌, Bytes, Int32, Int64, length, put32}
use mq.Kbytes.Writer.{
  Put, ◌>>◌, int8, int16, int32, int64, string, nullable_string, array_len, new_writer, finish,
}

-- "mq-replica"
abbrev pub client_id : Bytes
client_id = b'm' ∷ b'q' ∷ b'-' ∷ b'r' ∷ b'e' ∷ b'p' ∷ b'l' ∷ b'i' ∷ b'c' ∷ b'a' ∷ []

abbrev pub fetch_api_version : ℕ
fetch_api_version = 4

abbrev pub fetch_max_bytes : Int32
fetch_max_bytes = 2 ^ 20

-- The header and the body, with protocol.APIFetch = 1.
unfoldable pub write_fetch : Int32 → Bytes → Int32 → Int64 → Int32 → Put
write_fetch replica_id topic p fetch_offset corr = do
  int16 1
  int16 fetch_api_version
  int32 corr
  nullable_string (some client_id)
  int32 replica_id
  int32 500
  int32 1
  int32 fetch_max_bytes
  int8 0
  array_len 1
  string topic
  array_len 1
  int32 p
  int64 fetch_offset
  int32 fetch_max_bytes

-- `uint32(len(payload))` in front of the payload
unfoldable pub encode_fetch : Int32 → Bytes → Int32 → Int64 → Int32 → Bytes
encode_fetch replica_id topic p fetch_offset corr =
    let payload = finish (write_fetch replica_id topic p fetch_offset corr new_writer) in
    put32 (length payload % 2 ^ 32) ++ payload
