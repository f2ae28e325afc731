-- ===== src/Tests/Segments.antt =====
-- internal/storage: a segment with two batches, and a log.
use mq.Common.{ℕ, ◌<◌, ◌≡◌, refl, true, false, some, List, [], ◌∷◌, ◌++◌, arith, flatten, map}
use mq.Record.Batch.{read_header}
use mq.Storage.Index.{IndexEntry, floor_position, decode_index_entries, encode_index_entry}
use mq.Storage.Index.Floor.{floor_scan, floor_position-floor_scan}
use mq.Storage.Index.RoundTrip.{decode_index_entries-encode}
use mq.Storage.Segment.{Segment, got, read_batches_from}
use mq.Storage.Segment.Read.{select}
use mq.Storage.Segment.Holds.{Holds, Chain, stop, entry, StartsAt}
use mq.Storage.Recovery.{recover_active}
use mq.Storage.Recovery.Whole.{Recovered, torn, recover_active-Recovered}
use mq.Storage.Segment.Seek.{read_batches_from-select}
use mq.Storage.Log.{Log, set_high_watermark, hold_high_watermark}
use mq.Storage.Log.Watermark.{Grows, Steps, Steps-Grows, Step}
use mq.Storage.Object.Read.{slice_batches, sliced}
use mq.Storage.Object.Read.Slices.{slice_batches-select}
use mq.Tests.Records.{
  batch_at, batch_at-IsBatch, two_batches, two_batches-All, front_of_batch, front_of_batch-IsTorn,
}

abbrev two_entries : List IndexEntry
two_entries =
    (record { rel_offset = 0; position = 0 }) ∷ (record { rel_offset = 2; position = 61 }) ∷ []

abbrev pub two_segment : Segment
two_segment = record {
  base_offset = 0;
  log_file = flatten two_batches;
  idx_file = [];
  log_size = 122;
  index = two_entries;
  bytes_since_idx = 0;
  index_interval = 4096;
}

batch_at-StartsAt : (o : ℕ) → o < 256 → StartsAt o (batch_at o)
unfolding read_header
batch_at-StartsAt o h = record {
  batch = batch_at-IsBatch o;
  base = omega arith;
  grows = omega arith;
}

pub two_segment-Holds : Holds two_segment two_batches 4
unfolding read_header
two_segment-Holds = record {
  content = refl;
  size = refl;
  small = omega arith;
  chain = (batch_at-StartsAt 0 (omega arith), (batch_at-StartsAt 2 (omega arith), refl));
  indexed = entry refl refl (entry refl refl stop);
  span = omega arith;
  offsets = omega arith;
}

read_batches_from_example : read_batches_from two_segment 3 100 ≡ got (select 3 100 [] two_batches)
read_batches_from_example =
    read_batches_from-select two_segment two_batches 4 3 100 two_segment-Holds (omega arith)
      (omega arith) (omega arith)

floor_position_example : floor_position two_entries 3 ≡ floor_scan two_entries 3 0
floor_position_example = floor_position-floor_scan two_entries 3 ((refl, tt), (tt, tt))

decode_index_entries_example :
    decode_index_entries (flatten (map encode_index_entry two_entries)) ≡ two_entries
decode_index_entries_example =
    decode_index_entries-encode two_entries
      ((omega arith, omega arith), ((omega arith, omega arith), tt))

slice_batches_example :
    slice_batches (flatten two_batches) 2 100 ≡ sliced (select 2 100 [] two_batches)
slice_batches_example =
    slice_batches-select two_batches 2 100 two_batches-All (omega arith) (omega arith)

-- A follower's log with four records, none of them committed yet.
abbrev pub four_records : Log
four_records = record {
  cfg = record { segment_bytes = 1000; index_interval_bytes = 4096 };
  sealed = [];
  active = two_segment;
  next_offset = 4;
  high_watermark = 0;
  hold_hwm = true;
  dirty = false;
}

committed-Steps : Steps four_records (set_high_watermark 3 (hold_high_watermark four_records))
committed-Steps = Steps.more (Steps.more Steps.none_yet Step.holds) (Step.commits 3 (omega arith))

steps_example : Grows four_records (set_high_watermark 3 (hold_high_watermark four_records))
steps_example =
    Steps-Grows committed-Steps (record { committed = omega arith; bounded = omega arith })

-- The segment after a crash, with the front of a third batch in its file.
abbrev crashed : Segment
crashed = record two_segment {
  log_file = flatten two_batches ++ front_of_batch;
  log_size = 134;
  index = [];
}

pub two_batches-Chain : Chain 0 two_batches 4
unfolding read_header
two_batches-Chain = two_segment-Holds.chain

recover_active_example :
    (s' : Segment) × (recover_active true true crashed ≡ some (4, s'))
    × Recovered crashed two_batches 4 s'
recover_active_example =
    recover_active-Recovered crashed two_batches front_of_batch 4 49 two_batches-Chain
      (torn front_of_batch-IsTorn (omega arith)) refl refl (omega arith) (omega arith) (omega arith)
