-- ===== src/Storage/Recovery.antt =====
-- internal/storage/log.go (Open, recoverActive, rewriteIndex, OffsetForTimestamp) and
-- internal/storage/segment.go (openSegment): what a log is after a restart. The files of a
-- partition are given in the order of their base offsets.
pub mod Passes
pub mod Whole
use mq.Common.{
  ℕ, zero, suc, ◌+◌, Bool, true, false, Option, none, some, List, [], ◌∷◌, ◌++◌, map, Bytes, Int32,
  Int64, length, take, flatten, lt_i32, le_i32, le_i64, add32, sub32, add64, sub64, to_i32, ◌==◌,
  if◌then◌else◌, ◌&&◌, not, ◌||◌, Result, ok, err,
}
use mq.Record.Batch.{HeaderError, BatchHeader, last_offset, total_size}
use mq.Storage.Index.{IndexEntry, encode_index_entry, decode_index_entries}
use mq.Storage.Segment.{Segment, create_segment, is_empty, parse_at}
use mq.Storage.Log.{Config, Log, segments}

pub record SegmentFiles : Type 0 where
  pub base : Int64
  pub log_bytes : Bytes
  pub idx_bytes : Bytes

unfoldable pub open_segment : Int32 → SegmentFiles → Segment
open_segment interval f = record {
  base_offset = f.base;
  log_file = f.log_bytes;
  idx_file = f.idx_bytes;
  log_size = to_i32 (length f.log_bytes);
  index = decode_index_entries f.idx_bytes;
  bytes_since_idx = 0;
  index_interval = interval;
}

-- Where the scan of recoverActive stands.
pub record Scan : Type 0 where
  pub pos : Int32
  pub next : Int64
  pub index : List IndexEntry
  pub since : Int32

pub data Scanned : Type 0 where
  stopped : Scan → Scanned
  io_failed : Scanned
  unfinished : Scanned

-- One batch more, that lies within the file.
abbrev pub pass : Segment → Scan → BatchHeader → Int32 → Scan
pass s c h total =
    let due = is_empty c.index || le_i32 s.index_interval c.since in
    record {
      pos = add32 c.pos total;
      next = add64 (last_offset h) 1;
      index =
          if due
          then c.index
            ++ ((record {
              rel_offset = to_i32 (sub64 h.base_offset s.base_offset);
              position = c.pos;
            })
                ∷ [])
          else c.index;
      since = add32 (if due then 0 else c.since) total;
    }

unfoldable pub scan_round :
    Segment → Scan → Option (Result HeaderError BatchHeader) → (Scan → Scanned) → Scanned
scan_round s c none next = io_failed
scan_round s c (some (err e)) next = stopped c
scan_round s c (some (ok h)) next =
    let total = to_i32 (total_size h) in
    let more = next (pass s c h total) in
    if lt_i32 s.log_size (add32 c.pos total) then stopped c else more

unfoldable pub scan_loop : ℕ → Segment → Scan → Scanned
scan_loop zero s c = unfinished
scan_loop (suc fuel) s c =
    let more = scan_round s c (parse_at s c.pos) (scan_loop fuel s) in
    if not (lt_i32 c.pos s.log_size)
    then stopped c
    else if lt_i32 (sub32 s.log_size c.pos) 61
    then stopped c
    else more

-- The segment with its file cut at the end of the last whole batch and its index rewritten.
abbrev pub settled : Segment → Scan → Segment
settled s c = record s {
  log_file = if c.pos == s.log_size then s.log_file else take c.pos s.log_file;
  idx_file = flatten (map encode_index_entry c.index);
  log_size = c.pos;
  index = c.index;
  bytes_since_idx = c.since;
}

-- `truncates` and `rewrites` say whether the disk does it.
unfoldable pub settle : Bool → Bool → Segment → Scan → Option (Int64 × Segment)
settle truncates rewrites s c =
    let cut = not (c.pos == s.log_size) in
    if (cut && not truncates) || not rewrites
    then none
    else some (if c.next == 0 then s.base_offset else c.next, settled s c)

settle_scan : Bool → Bool → Segment → Scanned → Option (Int64 × Segment)
settle_scan truncates rewrites s (stopped c) = settle truncates rewrites s c
settle_scan truncates rewrites s io_failed = none
settle_scan truncates rewrites s unfinished = none

-- A round that goes on takes a byte at least, unless a batch states the size 0.
unfoldable pub recover_active : Bool → Bool → Segment → Option (Int64 × Segment)
unfolding settle_scan
recover_active truncates rewrites s =
    settle_scan truncates rewrites s
      (scan_loop (suc (length s.log_file)) s (record { pos = 0; next = 0; index = []; since = 0 }))

abbrev pub log_of : Config → List Segment → Segment → Int64 → Log
log_of cfg sealed active next = record {
  cfg = cfg;
  sealed = sealed;
  active = active;
  next_offset = next;
  high_watermark = next;
  hold_hwm = false;
  dirty = false;
}

-- The last of the segments is the active one.
unfoldable pub split_last : Segment → List Segment → List Segment × Segment
split_last s [] = ([], s)
split_last s (t ∷ ts) = let (front, last) = split_last t ts in (s ∷ front, last)

abbrev recovered : Config → List Segment → Option (Int64 × Segment) → Option Log
recovered cfg sealed none = none
recovered cfg sealed (some (next, active)) = some (log_of cfg sealed active next)

unfoldable pub open_log : Bool → Bool → Config → List SegmentFiles → Option Log
open_log truncates rewrites cfg [] =
    some (log_of cfg [] (create_segment 0 cfg.index_interval_bytes) 0)
open_log truncates rewrites cfg (f ∷ fs) =
    let (sealed, active) =
      split_last (open_segment cfg.index_interval_bytes f)
        (map (open_segment cfg.index_interval_bytes) fs) in
    recovered cfg sealed (recover_active truncates rewrites active)

-- How the search by timestamp goes on in a segment: an answer, or the next segment.
pub data Search : Type 0 where
  answer : Option Int64 → Search
  next_segment : Search
  endless : Search

unfoldable pub time_round :
    Int64 → Int32 → Option (Result HeaderError BatchHeader) → (Int32 → Search) → Search
time_round ts pos none next = answer none
time_round ts pos (some (err e)) next = answer none
time_round ts pos (some (ok h)) next =
    let more = next (add32 pos (to_i32 (total_size h))) in
    if le_i64 ts h.max_timestamp then answer (some h.base_offset) else more

unfoldable pub time_loop : ℕ → Segment → Int64 → Int32 → Search
time_loop zero s ts pos = endless
time_loop (suc fuel) s ts pos =
    let more = time_round ts pos (parse_at s pos) (time_loop fuel s ts) in
    if lt_i32 pos s.log_size then more else next_segment

abbrev go_on : Search → Option (Option Int64) → Option (Option Int64)
go_on (answer a) rest = some a
go_on next_segment rest = rest
go_on endless rest = none

unfoldable pub search_segments : Int64 → List Segment → Option (Option Int64)
search_segments ts [] = some none
search_segments ts (s ∷ ss) =
    go_on (time_loop (suc (length s.log_file)) s ts 0) (search_segments ts ss)

-- The outer `none` is a search that never ends.
unfoldable pub offset_for_timestamp : Log → Int64 → Option (Option Int64)
offset_for_timestamp l ts = search_segments ts (segments l)
