-- ===== src/Server/Produce/Reply.antt =====
-- internal/server/handlers.go: the wait of a Produce with acks=all, and the answer. The clock and the
-- high watermarks that the wait sees are arguments.
use mq.Common.{
  ℕ, zero, suc, ◌+◌, ◌*◌, ◌==◌, Bool, true, false, ◌&&◌, Option, none, some, List, [], ◌∷◌, Bytes,
  Int32, Int64, leb, ltb, lt_i32, le_i64, minus_one16, minus_one64, if◌then◌else◌,
}
use mq.Common.Keys.{bytes_eq, nat_eq, pair_eq}
use mq.Protocol.Header.{err_request_timed_out}
use mq.Protocol.Produce.{ProduceRequest, ProducePartitionResp, ProduceTopicResp, ProduceResponse}
use mq.Storage.Backend.{Backend}
use mq.Broker.{Broker, Time}
use mq.Server.Produce.{ProduceWait, produce_topics}

-- The time that acks=all may wait, in nanoseconds.
unfoldable pub produce_wait : Int32 → ℕ
produce_wait timeout_ms =
    if lt_i32 0 timeout_ms && ltb (timeout_ms * 1_000_000) 5_000_000_000
    then timeout_ms * 1_000_000
    else 5_000_000_000

-- The polls of a log: the high watermark that each sees, and the clock. `none` is a wait that still
-- goes on.
unfoldable pub committed : Int64 → Time → List (Int64 × Time) → Option Bool
committed target deadline [] = none
committed target deadline ((hwm, now) ∷ polls) =
    let rest = committed target deadline polls in
    if le_i64 target hwm then some true else if leb deadline now then some false else rest

abbrev pub timed_out : ProducePartitionResp → ProducePartitionResp
timed_out pr = record pr { error_code = err_request_timed_out; base_offset = minus_one64 }

unfoldable pub flag_part : ℕ → List ProducePartitionResp → List ProducePartitionResp
flag_part i [] = []
flag_part zero (pr ∷ prs) = timed_out pr ∷ prs
flag_part (suc i) (pr ∷ prs) = pr ∷ flag_part i prs

-- topics[ti].Partitions[pi], flagged
unfoldable pub flag : ℕ → ℕ → List ProduceTopicResp → List ProduceTopicResp
flag ti pi [] = []
flag zero pi (t ∷ ts) = record t { partitions = flag_part pi t.partitions } ∷ ts
flag (suc ti) pi (t ∷ ts) = t ∷ flag ti pi ts

abbrev settled : ProduceWait → List ProduceTopicResp → Option Bool → Option (List ProduceTopicResp)
settled w topics none = none
settled w topics (some true) = some topics
settled w topics (some false) = some (flag w.topic_index w.part_index topics)

abbrev and_then :
    Option (List ProduceTopicResp)
    → (List ProduceTopicResp → Option (List ProduceTopicResp))
    → Option (List ProduceTopicResp)
and_then none next = none
and_then (some topics) next = next topics

-- awaitCommit; `polls` are those of each waited log.
unfoldable pub await_commit :
    (ProduceWait → List (Int64 × Time))
    → Time
    → List ProduceWait
    → List ProduceTopicResp
    → Option (List ProduceTopicResp)
await_commit polls deadline [] topics = some topics
await_commit polls deadline (w ∷ ws) topics =
    and_then (settled w topics (committed w.target deadline (polls w)))
      (await_commit polls deadline ws)

module _ {L : Type 0} (k : Backend L) (open_log : Bytes → Int32 → Option L)
    (polls : ProduceWait → List (Int64 × Time)) where
  abbrev waited :
      ProduceRequest
      → Time
      → List ProduceWait
      → List ProduceTopicResp
      → Option (List ProduceTopicResp)
  waited req now ws topics =
      if req.acks == minus_one16
      then await_commit polls (now + produce_wait req.timeout_ms) ws topics
      else some topics

  abbrev respond :
      Broker L → Option (List ProduceTopicResp) → Option (Option ProduceResponse × Broker L)
  respond b none = none
  respond b (some topics) = some (some (record { topics = topics; throttle_time = 0 }), b)

  abbrev reply :
      ProduceRequest
      → Time
      → Option ((List ProduceTopicResp × List ProduceWait) × Broker L)
      → Option (Option ProduceResponse × Broker L)
  reply req now none = none
  reply req now (some ((topics, ws), b)) =
      if req.acks == 0 then some (none, b) else respond b (waited req now ws topics)

  -- The response, or none for acks=0; the outer `none` is a panic or a wait that still goes on.
  unfoldable pub produce :
      ProduceRequest → Broker L → Time → Option (Option ProduceResponse × Broker L)
  produce req b now = reply req now (produce_topics k open_log req.acks b req.topics 0)
