-- ===== src/Storage/Log.antt =====
-- internal/storage/log.go: the commit log of a partition. A method runs under the log's lock, so it
-- is one step; what the disk does in it is an argument.
pub mod Watermark
use mq.Common.{
  ℕ, zero, suc, ◌+◌, ◌-◌, ◌/◌, Bool, true, false, not, ◌&&◌, ◌||◌, Option, none, some, List, [],
  ◌∷◌, ◌++◌, map, Bytes, Int32, Int64, length, take, drop, get_or, ltb, lt_i32, le_i32, lt_i64,
  le_i64, add32, add64, sub64, to_i32, sext32, ◌==◌, if◌then◌else◌, Result, ok, err,
}
use mq.Record.Batch.{HeaderError, BatchHeader, parse_header, last_offset, assign_offset}
use mq.Storage.Segment
use mq.Storage.Segment.{Segment, Write, Gathered, got, create_segment, read_batches_from}

pub record Config : Type 0 where
  pub segment_bytes : Int32
  pub index_interval_bytes : Int32

-- The slice `segments` is `sealed` with `active` behind it: the code keeps `active` equal to the
-- last element.
pub record Log : Type 0 where
  pub cfg : Config
  pub sealed : List Segment
  pub active : Segment
  pub next_offset : Int64
  pub high_watermark : Int64
  pub hold_hwm : Bool
  pub dirty : Bool

abbrev pub segments : Log → List Segment
segments l = l.sealed ++ (l.active ∷ [])

abbrev first_of : List Segment → Segment → Segment
first_of [] s = s
first_of (t ∷ ts) s = t

abbrev pub first_segment : Log → Segment
first_segment l = first_of l.sealed l.active

pub data LogError : Type 0 where
  bad_header : HeaderError → LogError
  io_error replica_gap offset_out_of_range : LogError

-- What the disk does in an append: the fsync and the creation of a roll, and the two writes.
pub record Disk : Type 0 where
  pub syncs : Bool
  pub creates : Bool
  pub idx_write : Write
  pub log_write : Write

-- The slice `l.segments` and `l.active` after a roll; the flag is false on an error.
unfoldable pub roll : Disk → Log → Int64 → Bool × Log
roll disk l base =
    if disk.syncs && disk.creates
    then (
      true,
      record l {
        sealed = l.sealed ++ (l.active ∷ []);
        active = create_segment base l.cfg.index_interval_bytes;
      },
    )
    else (false, l)

abbrev pub needs_roll : Log → Bytes → Bool
needs_roll l batch =
    lt_i32 0 l.active.log_size
    && lt_i32 l.cfg.segment_bytes (add32 l.active.log_size (to_i32 (length batch)))

unfoldable pub roll_if_needed : Disk → Log → Bytes → Int64 → Bool × Log
roll_if_needed disk l batch base = if needs_roll l batch then roll disk l base else (true, l)

-- The batch goes to the active segment; the flag is false on an error.
unfoldable pub append_active : Disk → Log → Bytes → Int64 → Bool × Log
append_active disk l batch base =
    let (done, s) = Segment.append disk.idx_write disk.log_write l.active batch base in
    (done, record l { active = s })

-- What Append does once the batch has its offset and the header is read: the base offset.
unfoldable pub finish_append : Bool × Log → Int64 → Int64 → Result LogError Int64 × Log
finish_append (false, l) base next = (err io_error, l)
finish_append (true, l) base next = (
  ok base,
  record l {
    next_offset = next;
    high_watermark = if l.hold_hwm then l.high_watermark else next;
    dirty = true;
  },
)

append_parsed :
    Disk → Log → Bytes → Int64 → Result HeaderError BatchHeader → Result LogError Int64 × Log
append_parsed disk l batch base (err e) = (err (bad_header e), l)
append_parsed disk l batch base (ok h) =
    finish_append (append_active disk l batch base) base (add64 base (sext32 h.record_count))

append_rolled : Disk → Bool × Log → Bytes → Int64 → Result LogError Int64 × Log
append_rolled disk (false, l) batch base = (err io_error, l)
append_rolled disk (true, l) batch base = append_parsed disk l batch base (parse_header batch)

abbrev append_assigned : Disk → Log → Option Bytes → Option (Result LogError Int64 × Log)
append_assigned disk l none = none
append_assigned disk l (some b) =
    some (append_rolled disk (roll_if_needed disk l b l.next_offset) b l.next_offset)

-- `none` is the panic of SetBaseOffset or RecomputeCRC on a batch that is too short.
unfoldable pub append : Disk → Log → Bytes → Option (Result LogError Int64 × Log)
unfolding append_parsed append_rolled
append disk l batch = append_assigned disk l (assign_offset batch l.next_offset)

finish_replica : Bool × Log → Int64 → Result LogError Int64 × Log
finish_replica (false, l) next = (err io_error, l)
finish_replica (true, l) next = (ok next, record l { next_offset = next; dirty = true })

replica_rolled : Disk → Bool × Log → Bytes → BatchHeader → Result LogError Int64 × Log
replica_rolled disk (false, l) batch h = (err io_error, l)
replica_rolled disk (true, l) batch h =
    finish_replica (append_active disk l batch h.base_offset) (add64 (last_offset h) 1)

replica_parsed : Disk → Log → Bytes → Result HeaderError BatchHeader → Result LogError Int64 × Log
replica_parsed disk l batch (err e) = (err (bad_header e), l)
replica_parsed disk l batch (ok h) =
    if lt_i64 h.base_offset l.next_offset
    then (ok l.next_offset, l)
    else if lt_i64 l.next_offset h.base_offset
    then (err replica_gap, l)
    else replica_rolled disk (roll_if_needed disk l batch h.base_offset) batch h

unfoldable pub append_replica : Disk → Log → Bytes → Result LogError Int64 × Log
unfolding finish_replica replica_rolled replica_parsed
append_replica disk l batch = replica_parsed disk l batch (parse_header batch)

unfoldable pub set_high_watermark : Int64 → Log → Log
set_high_watermark hwm l =
    let clamped = if lt_i64 l.next_offset hwm then l.next_offset else hwm in
    if lt_i64 l.high_watermark clamped then record l { high_watermark = clamped } else l

unfoldable pub hold_high_watermark : Log → Log
hold_high_watermark l = record l { hold_hwm = true }

-- sort.Search: the bounds `i` and `j` of the Go library's loop.
unfoldable pub search_loop : ℕ → (ℕ → Bool) → ℕ → ℕ → ℕ
search_loop zero f i j = i
search_loop (suc fuel) f i j =
    let h = (i + j) / 2 in
    let rest = search_loop fuel f (if f h then i else h + 1) (if f h then h else j) in
    if ltb i j then rest else i

unfoldable pub search : ℕ → (ℕ → Bool) → ℕ
search n f = search_loop (suc n) f 0 n

unfoldable pub segment_for : Log → Int64 → Segment
segment_for l offset =
    let i =
      search (length (segments l))
        (λ i. lt_i64 offset (get_or (segments l) i l.active).base_offset) in
    if i == 0 then first_segment l else get_or (segments l) (i - 1) l.active

-- The nil slice of a caught-up reader is `got []`.
unfoldable pub read : Log → Int64 → Int32 → Result LogError Gathered
read l offset max_bytes =
    if offset == l.next_offset
    then ok (got [])
    else if lt_i64 l.next_offset offset || lt_i64 offset (first_segment l).base_offset
    then err offset_out_of_range
    else ok (read_batches_from (segment_for l offset) offset max_bytes)

unfoldable pub earliest_offset : Log → Int64
earliest_offset l = (first_segment l).base_offset

unfoldable pub latest_offset : Log → Int64
latest_offset l = l.next_offset

sum_sizes : List Segment → Int64
sum_sizes [] = 0
sum_sizes (s ∷ ss) = add64 (sext32 s.log_size) (sum_sizes ss)

unfoldable pub size : Log → Int64
unfolding sum_sizes
size l = sum_sizes (segments l)

-- Flush, where `syncs` says whether the fsync goes through; the flag is false on an error.
unfoldable pub flush : Bool → Log → Bool × Log
flush syncs l =
    if l.dirty then (syncs, if syncs then record l { dirty = false } else l) else (true, l)

-- The sealed segments that stay. `expired` says whether a segment's file could be examined and was
-- last written before the cutoff.
unfoldable pub drop_old : (Segment → Bool) → Bool → Int64 → Int64 → List Segment → List Segment
drop_old expired by_age max_bytes total [] = []
drop_old expired by_age max_bytes total (s ∷ ss) =
    let rest = drop_old expired by_age max_bytes (sub64 total (sext32 s.log_size)) ss in
    if (by_age && expired s) || (lt_i64 0 max_bytes && lt_i64 max_bytes total) then rest else s ∷ ss

unfoldable pub enforce_retention : (Segment → Bool) → Int64 → Int64 → Log → Log
enforce_retention expired max_age_ms max_bytes l = record l {
  sealed = drop_old expired (lt_i64 0 max_age_ms) max_bytes (size l) l.sealed;
}
