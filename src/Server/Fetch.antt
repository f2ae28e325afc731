-- ===== src/Server/Fetch.antt =====
-- internal/server/handlers.go: the Fetch handler. The clock and what other requests do while a fetch
-- waits are arguments.
pub mod Committed
pub mod Poll
use mq.Common.{
  ℕ, ◌+◌, Bool, true, false, not, ◌||◌, Option, none, some, List, [], ◌∷◌, Bytes, Int16, Int32,
  Int64, length, take, ltb, is_neg32, le_i32, le_i64, add64, if◌then◌else◌, Result, ok, err,
}
use mq.Common.Keys.{bytes_eq, nat_eq, pair_eq}
use mq.Record.Batch.{HeaderError, BatchHeader, parse_header, total_size, last_offset}
use mq.Record.Iterate.{Answer, go_on, stop, Walk, done, failed, panicked, unfinished, iterate}
use mq.Protocol.Header.{err_none, err_offset_out_of_range}
use mq.Protocol.Fetch.Request.{FetchPartition, FetchTopic, FetchRequest}
use mq.Protocol.Fetch.Response.{FetchPartitionResp, FetchTopicResp, FetchResponse}
use mq.Storage.Backend.{Backend, ReadError, out_of_range, read_failed}
use mq.Broker.{Broker, Time, get_log}
use mq.Broker.Replicas.{record_replica_fetch}
use mq.Server.{leader_log}

-- 1 << 20
abbrev pub default_fetch_bytes : Int32
default_fetch_bytes = 1_048_576

pub data ClampError : Type 0 where
  clamp_stop : ClampError
  clamp_header : HeaderError → ClampError

abbrev pub clamp_parsed : Int64 → Result HeaderError BatchHeader → Int64 → Answer Int64 ClampError
clamp_parsed hwm (err e) keep = stop keep (clamp_header e)
clamp_parsed hwm (ok h) keep =
    if le_i64 hwm (last_offset h) then stop keep clamp_stop else go_on (add64 keep (total_size h))

-- The callback of clampToHighWatermark.
abbrev pub clamp_batch : Int64 → Bytes → Int64 → Answer Int64 ClampError
clamp_batch hwm batch keep = clamp_parsed hwm (parse_header batch) keep

-- The bytes to keep; `none` is a panic or an endless walk.
abbrev pub kept : Walk Int64 ClampError → Option Int64
kept (done n keep) = some keep
kept (failed n e keep) = some keep
kept panicked = none
kept unfinished = none

abbrev pub cut : Bytes → Option Int64 → Option Bytes
cut bytes none = none
cut bytes (some keep) = if ltb (length bytes) keep then none else some (take keep bytes)

unfoldable pub clamp_to_high_watermark : Bytes → Int64 → Option Bytes
clamp_to_high_watermark [] hwm = some []
clamp_to_high_watermark (x ∷ xs) hwm = cut (x ∷ xs) (kept (iterate (clamp_batch hwm) (x ∷ xs) 0))

-- A Read that gathers nothing answers a nil slice; a clamp of some bytes never does.
abbrev nil_slice : Bytes → Option Bytes
nil_slice [] = none
nil_slice (x ∷ xs) = some (x ∷ xs)

abbrev clamped : Bytes → Option Bytes → Option (Option Bytes)
clamped [] bytes = some none
clamped (x ∷ xs) none = none
clamped (x ∷ xs) (some bytes) = some (some bytes)

-- The records that a partition's answer carries.
unfoldable pub visible : Bool → Bytes → Int64 → Option (Option Bytes)
visible true bytes hwm = some (nil_slice bytes)
visible false bytes hwm = clamped bytes (clamp_to_high_watermark bytes hwm)

abbrev pub read_code : Option ReadError → Int16
read_code none = err_none
read_code (some out_of_range) = err_offset_out_of_range
read_code (some read_failed) = err_none

abbrev is_hard : Option ReadError → Bool
is_hard none = false
is_hard (some out_of_range) = true
is_hard (some read_failed) = false

abbrev size_of : Option Bytes → ℕ
size_of none = 0
size_of (some bytes) = length bytes

abbrev pub max_bytes_of : FetchPartition → Int32
max_bytes_of p = if le_i32 p.max_bytes 0 then default_fetch_bytes else p.max_bytes

-- What a round of buildFetch has gathered: an answer, its bytes, and whether an error ends the poll.
abbrev pub Gathered : Type 0 → Type 0
Gathered A = A × ℕ × Bool

abbrev refused : Int32 → Int16 → FetchPartitionResp
refused p code = record {
  partition = p;
  error_code = code;
  high_watermark = 0;
  last_stable = 0;
  log_start_offset = 0;
  records = none;
}

module _ {L : Type 0} (k : Backend L) (open_log : Bytes → Int32 → Option L) where
  abbrev log_now : L → Option L → L
  log_now l none = l
  log_now l (some l') = l'

  -- The broker after the read, told of a replica's progress.
  abbrev pub noted : FetchRequest → Broker L → Bytes → FetchPartition → Time → Broker L
  noted req b topic p now =
      if is_neg32 req.replica_id
      then b
      else record_replica_fetch k b topic p.partition req.replica_id p.fetch_offset now

  abbrev answer :
      L
      → Broker L
      → Bytes
      → FetchPartition
      → Option ReadError
      → Option (Option Bytes)
      → Option (Gathered FetchPartitionResp × Broker L)
  answer l b topic p e none = none
  answer l b topic p e (some bytes) = some (
    (
      record {
        partition = p.partition;
        error_code = read_code e;
        high_watermark = k.high_watermark_of l;
        last_stable = k.high_watermark_of l;
        log_start_offset = k.earliest_of (log_now l (get_log b topic p.partition));
        records = bytes;
      },
      size_of bytes,
      is_hard e,
    ),
    b,
  )

  abbrev fetch_read :
      FetchRequest
      → L
      → Broker L
      → Bytes
      → FetchPartition
      → Time
      → Option (Bytes × Option ReadError)
      → Option (Gathered FetchPartitionResp × Broker L)
  fetch_read req l b topic p now none = none
  fetch_read req l b topic p now (some (bytes, e)) =
      answer l (noted req b topic p now) topic p e
        (visible (not (is_neg32 req.replica_id)) bytes (k.high_watermark_of l))

  abbrev fetch_from :
      FetchRequest
      → Bytes
      → FetchPartition
      → Time
      → Option (Result Int16 L × Broker L)
      → Option (Gathered FetchPartitionResp × Broker L)
  fetch_from req topic p now none = none
  fetch_from req topic p now (some (err code, b)) = some ((refused p.partition code, 0, false), b)
  fetch_from req topic p now (some (ok l, b)) =
      fetch_read req l b topic p now (k.read_from l p.fetch_offset (max_bytes_of p))

  unfoldable pub fetch_partition :
      FetchRequest
      → Broker L
      → Bytes
      → FetchPartition
      → Time
      → Option (Gathered FetchPartitionResp × Broker L)
  fetch_partition req b topic p now =
      fetch_from req topic p now (leader_log open_log b topic p.partition)

  abbrev joined :
      {A : Type 0}
      → Gathered A
      → Option (Gathered (List A) × Broker L)
      → Option (Gathered (List A) × Broker L)
  joined (a, n, hard) none = none
  joined (a, n, hard) (some ((rest, m, harder), b)) = some ((a ∷ rest, n + m, hard || harder), b)

  abbrev gather :
      {A : Type 0}
      → Option (Gathered A × Broker L)
      → (Broker L → Option (Gathered (List A) × Broker L))
      → Option (Gathered (List A) × Broker L)
  gather none next = none
  gather (some (g, b)) next = joined g (next b)

  unfoldable pub fetch_partitions :
      FetchRequest
      → Broker L
      → Bytes
      → List FetchPartition
      → Time
      → Option (Gathered (List FetchPartitionResp) × Broker L)
  fetch_partitions req b topic [] now = some (([], 0, false), b)
  fetch_partitions req b topic (p ∷ ps) now =
      gather (fetch_partition req b topic p now) (λ b'. fetch_partitions req b' topic ps now)

  abbrev topic_answer :
      Bytes
      → Option (Gathered (List FetchPartitionResp) × Broker L)
      → Option (Gathered FetchTopicResp × Broker L)
  topic_answer topic none = none
  topic_answer topic (some ((ps, n, hard), b)) =
      some ((record { name = topic; partitions = ps }, n, hard), b)

  unfoldable pub fetch_topics :
      FetchRequest
      → Broker L
      → List FetchTopic
      → Time
      → Option (Gathered (List FetchTopicResp) × Broker L)
  fetch_topics req b [] now = some (([], 0, false), b)
  fetch_topics req b (t ∷ ts) now =
      gather (topic_answer t.name (fetch_partitions req b t.name t.partitions now))
        (λ b'. fetch_topics req b' ts now)

  abbrev response :
      Option (Gathered (List FetchTopicResp) × Broker L)
      → Option (Gathered FetchResponse × Broker L)
  response none = none
  response (some ((ts, n, hard), b)) =
      some ((record { throttle_time = 0; error_code = 0; session_id = 0; topics = ts }, n, hard), b)

  unfoldable pub build_fetch :
      FetchRequest → Broker L → Time → Option (Gathered FetchResponse × Broker L)
  build_fetch req b now = response (fetch_topics req b req.topics now)
