-- ===== src/Storage/Segment.antt =====
-- internal/storage/segment.go: a pair of files with a contiguous range of batches. The files are
-- their bytes; what the disk does in a call is an argument.
pub mod Read
pub mod Holds
pub mod Seek
use mq.Common.{
  ℕ, zero, suc, ◌+◌, ◌-◌, Bool, true, false, not, ◌&&◌, ◌||◌, Option, none, some, List, [], ◌∷◌,
  ◌++◌, Bytes, Int32, Int64, length, take, drop, ltb, lt_i32, le_i32, lt_i64, add32, sub64, to_i32,
  is_neg32, if◌then◌else◌, replicate, Result, ok, err,
}
use mq.Record.Batch.{HeaderError, BatchHeader, header_size, parse_header, total_size, last_offset}
use mq.Storage.Index.{IndexEntry, encode_index_entry, floor_position}

pub record Segment : Type 0 where
  pub base_offset : Int64
  pub log_file : Bytes
  pub idx_file : Bytes
  pub log_size : Int32
  pub index : List IndexEntry
  pub bytes_since_idx : Int32
  pub index_interval : Int32

-- A write goes through, or the disk takes the first bytes only and reports an error.
pub data Write : Type 0 where
  full : Write
  partial : ℕ → Write

-- os.File.WriteAt: a gap before `pos` is filled with zeros.
unfoldable pub write_at : Bytes → ℕ → Bytes → Bytes
write_at file pos bytes =
    take pos (file ++ replicate (pos - length file) 0) ++ (bytes ++ drop (pos + length bytes) file)

-- os.File.ReadAt of `n` bytes; `none` is io.EOF, or the error for a negative offset.
unfoldable pub read_at : Bytes → Int32 → ℕ → Option Bytes
read_at file pos n =
    if is_neg32 pos
    then none
    else if ltb (length file) (pos + n)
    then none
    else some (take n (drop pos file))

unfoldable pub create_segment : Int64 → Int32 → Segment
create_segment base interval = record {
  base_offset = base;
  log_file = [];
  idx_file = [];
  log_size = 0;
  index = [];
  bytes_since_idx = 0;
  index_interval = interval;
}

abbrev pub is_empty {ℓ} : {A : Type ℓ} → List A → Bool
is_empty [] = true
is_empty (x ∷ xs) = false

abbrev pub next_entry : Segment → Int64 → IndexEntry
next_entry s base = record { rel_offset = to_i32 (sub64 base s.base_offset); position = s.log_size }

-- The sparse index entry, when one is due. The flag says whether the write went through.
unfoldable pub append_index : Write → Segment → Int64 → Bool × Segment
append_index full s base =
    if is_empty s.index || le_i32 s.index_interval s.bytes_since_idx
    then (
      true,
      record s {
        idx_file = s.idx_file ++ encode_index_entry (next_entry s base);
        index = s.index ++ (next_entry s base ∷ []);
        bytes_since_idx = 0;
      },
    )
    else (true, s)
append_index (partial n) s base =
    if is_empty s.index || le_i32 s.index_interval s.bytes_since_idx
    then (
      false,
      record s { idx_file = s.idx_file ++ take n (encode_index_entry (next_entry s base)) },
    )
    else (true, s)

unfoldable pub append_bytes : Write → Segment → Bytes → Bool × Segment
append_bytes full s batch = (
  true,
  record s {
    log_file = write_at s.log_file s.log_size batch;
    log_size = add32 s.log_size (to_i32 (length batch));
    bytes_since_idx = add32 s.bytes_since_idx (to_i32 (length batch));
  },
)
append_bytes (partial n) s batch =
    (false, record s { log_file = write_at s.log_file s.log_size (take n batch) })

-- A segment is never larger than 2 ^ 31, so `int64(pos)` is not negative.
unfoldable pub append : Write → Write → Segment → Bytes → Int64 → Bool × Segment
append idx_write log_write s batch base =
    let (done, s') = append_index idx_write s base in
    if done then append_bytes log_write s' batch else (false, s')

-- How readBatchesFrom ends, with the batches that it gathered.
pub data Gathered : Type 0 where
  got : Bytes → Gathered
  eof : Bytes → Gathered
  bad_header : Bytes → HeaderError → Gathered
  panicked : Gathered
  unfinished : Gathered

-- The batch at `pos` is wanted: it is added, unless it would not fit, and the loop goes on unless
-- the bytes suffice. make([]byte, total) panics on a negative size.
unfoldable pub gather :
    Segment → Int32 → Int32 → Int32 → Bytes → (Int32 → Bytes → Gathered) → Gathered
gather s max_bytes pos total out next =
    if not (is_empty out) && lt_i32 max_bytes (add32 (to_i32 (length out)) total)
    then got out
    else if is_neg32 total
    then panicked
    else elim (read_at s.log_file pos total) [
      | none ↦ eof out
      | some batch ↦
          let out' = out ++ batch in
          let more = next (add32 pos total) out' in
          if le_i32 max_bytes (to_i32 (length out')) then got out' else more
    ]

abbrev pub parse_read : Option Bytes → Option (Result HeaderError BatchHeader)
parse_read none = none
parse_read (some hdr) = some (parse_header hdr)

abbrev pub parse_at : Segment → Int32 → Option (Result HeaderError BatchHeader)
parse_at s pos = parse_read (read_at s.log_file pos header_size)

-- One round with the header read.
unfoldable pub read_round :
    Segment
    → Int64
    → Int32
    → Int32
    → Bytes
    → Option (Result HeaderError BatchHeader)
    → (Int32 → Bytes → Gathered)
    → Gathered
read_round s want max_bytes pos out none next = eof out
read_round s want max_bytes pos out (some (err e)) next = bad_header out e
read_round s want max_bytes pos out (some (ok h)) next =
    let total = to_i32 (total_size h) in
    if lt_i64 (last_offset h) want
    then next (add32 pos total) out
    else gather s max_bytes pos total out next

unfoldable pub read_loop : ℕ → Segment → Int64 → Int32 → Int32 → Bytes → Gathered
read_loop zero s want max_bytes pos out = unfinished
read_loop (suc fuel) s want max_bytes pos out =
    let more =
      read_round s want max_bytes pos out (parse_at s pos) (read_loop fuel s want max_bytes) in
    if lt_i32 pos s.log_size then more else got out

-- A round that goes on takes a byte at least, unless a batch states the size 0.
unfoldable pub read_batches_from : Segment → Int64 → Int32 → Gathered
read_batches_from s want max_bytes =
    read_loop (suc (length s.log_file)) s want max_bytes
      (floor_position s.index (to_i32 (sub64 want s.base_offset))) []
