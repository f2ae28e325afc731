-- ===== src/Server/Fetch/Committed.antt =====
-- internal/server/handlers.go: a consumer sees exactly the committed batches.
use mq.Common.{
  ◌≤◌, leb, if◌then◌else◌, Bool-cases, inl, inr, take, ℕ, ◌+◌, ◌^◌, ◌<◌, ◌≡◌, refl, sym, ap, ◌∙◌,
  true, false, Option, none, some, List, [], ◌∷◌, ◌++◌, Bytes, Int32, Int64, arith, append-nil,
  length, flatten, flatten-append, length-append, take-length, le→not_ltb, le_i64, is_neg32, ok,
  add64,
}
use mq.Record.Batch.{parse_header, read_header, last_offset}
use mq.Record.WellFormed.{parse_header-IsBatch, total_size-IsBatch}
use mq.Record.Iterate.{done, iterate}
use mq.Record.Iterate.Walks.{visit_all}
use mq.Record.Iterate.Ends.{iterate-visit_all}
use mq.Storage.Segment.Holds.{Chain, StartsAt, delta, Chain-le, Chain-IsBatch, last_offset-StartsAt}
use mathlib.Core.Option.{some-injective}
use mq.Protocol.Header.{err_none}
use mq.Protocol.Fetch.Request.{FetchRequest, FetchPartition}
use mq.Protocol.Fetch.Response.{FetchPartitionResp}
use mq.Storage.Backend.{Backend}
use mq.Broker.{Broker, Time, get_log}
use mq.Server.{leader_log}
use mq.Server.Fetch.{
  clamp_batch, clamp_parsed, clamp_to_high_watermark, clamped, cut, kept, visible, size_of,
  max_bytes_of, fetch_partition, log_now,
}

clamp_batch-StartsAt :
    (hwm keep o : ℕ) (b : Bytes)
    → StartsAt o b
    → clamp_batch hwm b keep ≡ clamp_parsed hwm (ok (read_header b)) keep
clamp_batch-StartsAt hwm keep o b h =
    ap (λ t. clamp_parsed hwm (parse_header t) keep) (sym (append-nil b))
    ∙ ap (λ r. clamp_parsed hwm r keep) (parse_header-IsBatch b [] h.batch)

-- The batches from the front whose last offset is below the high watermark, of those that begin at `o`.
abbrev pub below : Int64 → ℕ → List Bytes → List Bytes
below hwm o [] = []
below hwm o (x ∷ bs) = if leb (o + delta x + 1) hwm then x ∷ below hwm (o + delta x + 1) bs else []

below-front : (hwm o : ℕ) (bs : List Bytes) → (rest : List Bytes) × (bs ≡ below hwm o bs ++ rest)
below-front hwm o [] = ([], refl)
below-front hwm o (x ∷ bs) =
    let (rest, e) = below-front hwm (o + delta x + 1) bs in
    elim (Bool-cases (leb (o + delta x + 1) hwm)) [
      | inl f ↦ rw f (rest, ap (λ t. x ∷ t) e)
      | inr f ↦ rw f (x ∷ bs, refl)
    ]

below-size : (hwm o : ℕ) (bs : List Bytes) → length (flatten (below hwm o bs)) ≤ length (flatten bs)
below-size hwm o bs =
    let (rest, e) = below-front hwm o bs in
    omega (
      arith,
      ap (λ t. length (flatten t)) e,
      ap length (flatten-append (below hwm o bs) rest),
      length-append (flatten (below hwm o bs)) (flatten rest),
    )

kept-below :
    (bs : List Bytes) (o hwm next c keep : ℕ)
    → Chain o bs next
    → next < 2 ^ 63
    → hwm < 2 ^ 63
    → keep + length (flatten bs) < 2 ^ 63
    → kept (visit_all (clamp_batch hwm) bs c keep done)
      ≡ some (keep + length (flatten (below hwm o bs)))
unfolding visit_all
kept-below [] o hwm next c keep ch top high small = ap some (omega arith)
kept-below (x ∷ bs) o hwm next c keep ch top high small =
    let le = Chain-le (o + delta x + 1) next bs ch.1 in
    let last = last_offset-StartsAt o x ch.0 (omega arith) in
    let size = length-append x (flatten bs) in
    elim (Bool-cases (leb (o + delta x + 1) hwm)) [
      | inl f ↦
          let goes : le_i64 hwm (last_offset (read_header x)) ≡ false = ground arith in
          let next_keep : add64 keep (length x) ≡ keep + length x = omega (arith, size) in
          let rest = below hwm (o + delta x + 1) bs in
          rw
            (
              f,
              clamp_batch-StartsAt hwm keep o x ch.0,
              goes,
              total_size-IsBatch x ch.0.batch,
              next_keep,
            )
            (kept-below bs (o + delta x + 1) hwm next (c + length x) (keep + length x) ch.1 top high
                (omega (arith, size))
              ∙ ap some (omega (arith, length-append x (flatten rest))))
      | inr f ↦
          let stops : le_i64 hwm (last_offset (read_header x)) ≡ true = ground arith in
          rw (f, clamp_batch-StartsAt hwm keep o x ch.0, stops) (ap some (omega arith))
    ]

clamp-kept :
    (bytes : Bytes) (hwm : Int64)
    → clamp_to_high_watermark bytes hwm ≡ cut bytes (kept (iterate (clamp_batch hwm) bytes 0))
unfolding clamp_to_high_watermark visit_all
clamp-kept [] hwm =
    ap (λ w. cut [] (kept w)) (sym (iterate-visit_all (clamp_batch hwm) [] 0 tt (omega arith)))
clamp-kept (x ∷ xs) hwm = refl

-- Whole batches that follow one another from an offset on: the clamp keeps exactly the batches below
-- the high watermark, wherever it is.
pub clamp_to_high_watermark-below :
    (bs : List Bytes) (o hwm next : ℕ)
    → Chain o bs next
    → next < 2 ^ 63
    → hwm < 2 ^ 63
    → length (flatten bs) < 2 ^ 63
    → clamp_to_high_watermark (flatten bs) hwm ≡ some (flatten (below hwm o bs))
clamp_to_high_watermark-below bs o hwm next ch top high small =
    let front = below hwm o bs in
    let (rest, e) = below-front hwm o bs in
    let n : 0 + length (flatten front) ≡ length (flatten front) = omega arith in
    let split : flatten bs ≡ flatten front ++ flatten rest =
      ap flatten e ∙ flatten-append front rest in
    clamp-kept (flatten bs) hwm
    ∙ ap (λ w. cut (flatten bs) (kept w))
        (iterate-visit_all (clamp_batch hwm) bs 0 (Chain-IsBatch o next bs ch) small)
    ∙ ap (cut (flatten bs)) (kept-below bs o hwm next 0 0 ch top high (omega arith) ∙ ap some n)
    ∙ rw (le→not_ltb (length (flatten bs)) (length (flatten front)) (below-size hwm o bs)) (
        ap some
          (ap (take (length (flatten front))) split ∙ take-length (flatten front) (flatten rest)))

abbrev pub bytes_of : Option Bytes → Bytes
bytes_of none = []
bytes_of (some bytes) = bytes

visible-bytes :
    (bytes kept_bytes : Bytes) (hwm : Int64)
    → clamp_to_high_watermark bytes hwm ≡ some kept_bytes
    → (r : Option Bytes) × (visible false bytes hwm ≡ some r)
      × (bytes_of r ≡ kept_bytes)
      × (size_of r ≡ length kept_bytes)
unfolding visible clamp_to_high_watermark
visible-bytes [] kept_bytes hwm e =
    let nil : [] ≡ kept_bytes = some-injective _ _ e in (none, refl, nil, ap length nil)
visible-bytes (x ∷ xs) kept_bytes hwm e = (some kept_bytes, ap (clamped (x ∷ xs)) e, refl, refl)

-- A consumer's fetch of one partition that this node leads, where Read answers without an error
-- whole batches that follow one another from some offset on, wherever the log's high watermark is:
-- the answer has no error, states the high watermark, and carries exactly the batches that end below
-- it, which count toward the poll; the broker is as it was after the log was looked up. Offsets and
-- sizes are below 2 ^ 63.
pub fetch_partition-committed :
    {L : Type 0} (k : Backend L) (open_log : Bytes → Int32 → Option L) (req : FetchRequest)
    (b b' : Broker L) (topic : Bytes) (p : FetchPartition) (now : Time) (l : L) (bs : List Bytes)
    (o next : ℕ)
    → is_neg32 req.replica_id ≡ true
    → leader_log open_log b topic p.partition ≡ some (ok l, b')
    → k.read_from l p.fetch_offset (max_bytes_of p) ≡ some (flatten bs, none)
    → Chain o bs next
    → next < 2 ^ 63
    → k.high_watermark_of l < 2 ^ 63
    → length (flatten bs) < 2 ^ 63
    → (resp : FetchPartitionResp) × (fetch_partition k open_log req b topic p now
        ≡ some ((resp, length (flatten (below (k.high_watermark_of l) o bs)), false), b'))
      × (resp.error_code ≡ err_none)
      × (resp.high_watermark ≡ k.high_watermark_of l)
      × (bytes_of resp.records ≡ flatten (below (k.high_watermark_of l) o bs))
unfolding fetch_partition
fetch_partition-committed k open_log req b b' topic p now l bs o next consumer led reads ch top high
      small =
    let hwm = k.high_watermark_of l in
    let (r, seen, bytes, size) =
      visible-bytes (flatten bs) (flatten (below hwm o bs)) hwm
        (clamp_to_high_watermark-below bs o hwm next ch top high small) in
    (
      record {
        partition = p.partition;
        error_code = err_none;
        high_watermark = hwm;
        last_stable = hwm;
        log_start_offset = k.earliest_of (log_now k open_log l (get_log b' topic p.partition));
        records = r;
      },
      rw (led, reads, consumer, seen, size) refl,
      refl,
      refl,
      bytes,
    )
