-- ===== src/Storage/Backend.antt =====
-- internal/storage/backend.go: what the broker and the handlers use of a partition's log, with the
-- laws that they rely on, and the file log as an implementation.
use mq.Common.{
  ◌≡◌, refl, Option, none, some, [], Bytes, Int32, Int64, lt_i64, if◌then◌else◌, Result, ok, err,
  arith,
}
use mq.Storage.Segment.{Gathered, got, eof, bad_header, panicked, unfinished}
use mq.Storage.Log.{
  Log, LogError, Disk, offset_out_of_range, append, append_replica, read, set_high_watermark,
  hold_high_watermark, earliest_offset, latest_offset,
}
use mq.Storage.Recovery.{offset_for_timestamp}

pub data ReadError : Type 0 where
  out_of_range read_failed : ReadError

-- What SetHighWatermark makes of a high watermark `high` and a log end `next`.
abbrev pub raised : Int64 → Int64 → Int64 → Int64
raised hwm high next =
    let clamped = if lt_i64 next hwm then next else hwm in
    if lt_i64 high clamped then clamped else high

-- A panic or an endless loop is `none`. An error of Append comes with the offset 0, and is `none` in
-- the answer; Read may answer data with an error.
pub record Backend (L : Type 0) : Type 0 where
  pub append_to : L → Bytes → Option (Option Int64 × L)
  pub append_replica_to : L → Bytes → Option Int64 × L
  pub read_from : L → Int64 → Int32 → Option (Bytes × Option ReadError)
  pub high_watermark_of : L → Int64
  pub set_high_watermark_of : Int64 → L → L
  pub hold_high_watermark_of : L → L
  pub offset_for : L → Int64 → Option (Option Int64)
  pub earliest_of : L → Int64
  pub latest_of : L → Int64
  pub latest-set : (h : Int64) (l : L) → latest_of (set_high_watermark_of h l) ≡ latest_of l
  pub high-set :
      (h : Int64) (l : L)
      → high_watermark_of (set_high_watermark_of h l) ≡ raised h (high_watermark_of l) (latest_of l)
  pub high-hold : (l : L) → high_watermark_of (hold_high_watermark_of l) ≡ high_watermark_of l
  pub latest-hold : (l : L) → latest_of (hold_high_watermark_of l) ≡ latest_of l

abbrev offset_of : Result LogError Int64 → Option Int64
offset_of (ok off) = some off
offset_of (err e) = none

abbrev appended : Option (Result LogError Int64 × Log) → Option (Option Int64 × Log)
appended none = none
appended (some (r, l)) = some (offset_of r, l)

abbrev read_answer : Result LogError Gathered → Option (Bytes × Option ReadError)
read_answer (ok (got b)) = some (b, none)
read_answer (ok (eof b)) = some (b, some read_failed)
read_answer (ok (bad_header b e)) = some (b, some read_failed)
read_answer (ok panicked) = none
read_answer (ok unfinished) = none
read_answer (err offset_out_of_range) = some ([], some out_of_range)
read_answer (err e) = some ([], some read_failed)

pub latest-set_high_watermark :
    (h : Int64) (l : Log) → latest_offset (set_high_watermark h l) ≡ latest_offset l
unfolding latest_offset set_high_watermark
latest-set_high_watermark h l = ground arith

pub high-set_high_watermark :
    (h : Int64) (l : Log)
    → (set_high_watermark h l).high_watermark ≡ raised h l.high_watermark (latest_offset l)
unfolding latest_offset set_high_watermark
high-set_high_watermark h l = ground arith

pub high-hold_high_watermark : (l : Log) → (hold_high_watermark l).high_watermark ≡ l.high_watermark
unfolding hold_high_watermark
high-hold_high_watermark l = refl

pub latest-hold_high_watermark : (l : Log) → latest_offset (hold_high_watermark l) ≡ latest_offset l
unfolding hold_high_watermark latest_offset
latest-hold_high_watermark l = refl

-- The file log, for what the disk does in its appends.
abbrev pub file_backend : Disk → Backend Log
file_backend disk = record {
  append_to = λ l batch. appended (append disk l batch);
  append_replica_to =
      λ l batch. (offset_of (append_replica disk l batch).0, (append_replica disk l batch).1);
  read_from = λ l offset max_bytes. read_answer (read l offset max_bytes);
  high_watermark_of = λ l. l.high_watermark;
  set_high_watermark_of = set_high_watermark;
  hold_high_watermark_of = hold_high_watermark;
  offset_for = offset_for_timestamp;
  earliest_of = earliest_offset;
  latest_of = latest_offset;
  latest-set = latest-set_high_watermark;
  high-set = high-set_high_watermark;
  high-hold = high-hold_high_watermark;
  latest-hold = latest-hold_high_watermark;
}
