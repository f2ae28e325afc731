-- ===== src/Replication/Wire/Response.antt =====
-- internal/replication/replication.go (readFetchResponse), and internal/server/server.go
-- (writeResponse), which writes what it reads.
use mq.Common.{
  ◌%◌, ◌^◌, Option, none, List, [], ◌∷◌, ◌++◌, Bytes, Int16, Int32, Int64, length, take, drop, ltb,
  be32, put32, if◌then◌else◌, Result, ok, err,
}
use mq.Kbytes.Reader.{
  Reader, Get, ◌>>=◌, ◌>>◌, pure, int16, int32, int64, string, bytes, array, new_reader,
}
use mq.Kbytes.Writer
use mq.Protocol.Header.{write_response_header}

-- size | correlation id | body
unfoldable pub write_response : Int32 → Bytes → Bytes
write_response correlation_id body =
    let payload =
      Writer.finish (Writer.raw body (write_response_header correlation_id Writer.new_writer)) in
    put32 (length payload % 2 ^ 32) ++ payload

pub record FetchPartitionResult : Type 0 where
  pub error_code : Int16
  pub hwm : Int64
  pub records : Option Bytes

abbrev pub no_result : FetchPartitionResult
no_result = record { error_code = 0; hwm = 0; records = none }

unfoldable pub read_partition : Get FetchPartitionResult
read_partition = do
  int32
  ec ← int16
  hwm ← int64
  int64
  array (do int64; int64)
  records ← bytes
  pure (record { error_code = ec; hwm = hwm; records = records })

unfoldable pub read_topic : Get (List FetchPartitionResult)
read_topic = do string; array read_partition

-- `if i == 0 && j == 0`: the first partition of the first topic
unfoldable pub first_result : List (List FetchPartitionResult) → FetchPartitionResult
first_result [] = no_result
first_result ([] ∷ _) = no_result
first_result ((p ∷ _) ∷ _) = p

unfoldable pub read_body : Get FetchPartitionResult
read_body = do int32; int32; topics ← array read_topic; pure (first_result topics)

pub data ReadError : Type 0 where
  unexpected_eof short_read : ReadError

-- io.ReadFull of the length and then of the frame, from the bytes that the connection delivers.
unfoldable pub read_frame : Bytes → Result ReadError Bytes
read_frame conn =
    if ltb (length conn) 4
    then err unexpected_eof
    else if ltb (length (drop 4 conn)) (be32 conn)
    then err unexpected_eof
    else ok (take (be32 conn) (drop 4 conn))

check_err : FetchPartitionResult → Reader → Result ReadError FetchPartitionResult
check_err res r = if r.err then err short_read else ok res

decode_frame : Result ReadError Bytes → Result ReadError FetchPartitionResult
decode_frame (err e) = err e
decode_frame (ok frame) =
    check_err (read_body (new_reader frame)).0 (read_body (new_reader frame)).1

unfoldable pub read_fetch_response : Bytes → Result ReadError FetchPartitionResult
unfolding decode_frame check_err
read_fetch_response conn = decode_frame (read_frame conn)
