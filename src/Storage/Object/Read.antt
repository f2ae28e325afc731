-- ===== src/Storage/Object/Read.antt =====
-- internal/storage/object/read.go: whole batches out of the bytes of an object or of the pending
-- buffer.
pub mod Slices
use mq.Common.{
  ℕ, zero, suc, ◌+◌, Bool, true, false, not, ◌&&◌, Option, none, some, List, [], ◌∷◌, ◌++◌, Bytes,
  Int32, Int64, length, take, drop, lt_i64, le_i64, lt_i32, le_i32, add32, add64, to_i32, is_neg64,
  if◌then◌else◌, Result, ok, err,
}
use mq.Record.Batch.{HeaderError, BatchHeader, parse_header, total_size, last_offset}
use mq.Storage.Segment.{is_empty}

-- How sliceBatches ends, with the batches that it gathered. A slice at a negative index panics.
pub data Sliced : Type 0 where
  sliced : Bytes → Sliced
  bad_header : Bytes → HeaderError → Sliced
  panicked : Sliced
  unfinished : Sliced

-- The batch at `pos` is wanted.
unfoldable pub add_slice : Bytes → Int32 → Int64 → Int64 → Bytes → (Int64 → Bytes → Sliced) → Sliced
add_slice bytes max_bytes pos total out next =
    let out' = out ++ take total (drop pos bytes) in
    let more = next (add64 pos total) out' in
    if not (is_empty out) && lt_i32 max_bytes (add32 (to_i32 (length out)) (to_i32 total))
    then sliced out
    else if is_neg64 total
    then panicked
    else if le_i32 max_bytes (to_i32 (length out'))
    then sliced out'
    else more

-- One round with the header read.
unfoldable pub slice_round :
    Bytes
    → Int64
    → Int32
    → Int64
    → Bytes
    → Result HeaderError BatchHeader
    → (Int64 → Bytes → Sliced)
    → Sliced
slice_round bytes want max_bytes pos out (err e) next = bad_header out e
slice_round bytes want max_bytes pos out (ok h) next =
    let total = total_size h in
    if lt_i64 (length bytes) (add64 pos total)
    then sliced out
    else if lt_i64 (last_offset h) want
    then next (add64 pos total) out
    else add_slice bytes max_bytes pos total out next

unfoldable pub slice_loop : ℕ → Bytes → Int64 → Int32 → Int64 → Bytes → Sliced
slice_loop zero bytes want max_bytes pos out = unfinished
slice_loop (suc fuel) bytes want max_bytes pos out =
    let more =
      slice_round bytes want max_bytes pos out (parse_header (drop pos bytes))
        (slice_loop fuel bytes want max_bytes) in
    if not (lt_i64 pos (length bytes)) then sliced out else if is_neg64 pos then panicked else more

-- A round that goes on takes a byte at least, unless a batch states the size 0.
unfoldable pub slice_batches : Bytes → Int64 → Int32 → Sliced
slice_batches bytes want max_bytes = slice_loop (suc (length bytes)) bytes want max_bytes 0 []

-- How scanTimestamp ends: with an offset, or with none.
pub data Scanned : Type 0 where
  found : Int64 → Scanned
  missed : Scanned
  panicked_scan : Scanned
  unfinished_scan : Scanned

scan_round : Int64 → Int64 → Result HeaderError BatchHeader → (Int64 → Scanned) → Scanned
scan_round ts pos (err e) next = missed
scan_round ts pos (ok h) next =
    let more = next (add64 pos (total_size h)) in
    if le_i64 ts h.max_timestamp then found h.base_offset else more

unfoldable pub scan_loop : ℕ → Bytes → Int64 → Int64 → Scanned
unfolding scan_round
scan_loop zero bytes ts pos = unfinished_scan
scan_loop (suc fuel) bytes ts pos =
    let more = scan_round ts pos (parse_header (drop pos bytes)) (scan_loop fuel bytes ts) in
    if not (lt_i64 pos (length bytes)) then missed else if is_neg64 pos then panicked_scan else more

unfoldable pub scan_timestamp : Bytes → Int64 → Scanned
scan_timestamp bytes ts = scan_loop (suc (length bytes)) bytes ts 0
