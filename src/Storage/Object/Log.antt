-- ===== src/Storage/Object/Log.antt =====
-- internal/storage/object/log.go, read.go and retention.go: a partition's log over the storage that
-- it shares. The log and the storage go together through a call; the clock and what the disk does are
-- arguments.
pub mod Budget
pub mod Trims
use mq.Common.{
  ℕ, zero, suc, ◌+◌, ◌-◌, ◌==◌, Bool, true, false, not, ◌&&◌, ◌||◌, Option, none, some, List, [],
  ◌∷◌, ◌++◌, Bytes, Int32, Int64, length, drop, flatten, get_elem?, lt_i64, le_i64, add64, sub64,
  if◌then◌else◌, Result, ok, err,
}
use mq.Common.Keys.{lookup, bytes_eq, bytes_beq}
use mq.Controller.Fsm.{SegmentRef, seg_key}
use mq.Record.Batch.{HeaderError, BatchHeader, parse_header, last_offset, assign_offset}
use mq.Storage.Object.Read.{
  Sliced, sliced, bad_header, panicked, unfinished, slice_batches, Scanned, found, missed,
  panicked_scan, unfinished_scan, scan_timestamp,
}
use mq.Storage.Object.Index.{IndexStore, Index, refs_for, ref_for, prune, referenced}
use mq.Storage.Object.Wal.{WalRecord, Write}
use mq.Storage.Object.Store.{ObjectStore, PendingPart, Storage, append}
use mq.Storage.Object.Recovery.{ObjectLog}
use mq.Storage.Backend.{ReadError, out_of_range, read_failed}

-- The bytes of the pending batches from the offset on, if they begin at it or before.
abbrev pub pending_from : Int64 → Option PendingPart → Bytes
pending_from offset none = []
pending_from offset (some pp) = if le_i64 pp.base_offset offset then flatten pp.batches else []

abbrev pub sliced_answer : Sliced → Option (Bytes × Option ReadError)
sliced_answer (sliced out) = some (out, none)
sliced_answer (bad_header out e) = some (out, some read_failed)
sliced_answer panicked = none
sliced_answer unfinished = none

abbrev slice_of : Int64 → Int32 → Option Bytes → Option (Bytes × Option ReadError)
slice_of offset max_bytes none = some ([], some read_failed)
slice_of offset max_bytes (some bytes) = sliced_answer (slice_batches bytes offset max_bytes)

abbrev pending_bytes_of : Option PendingPart → Int64
pending_bytes_of none = 0
pending_bytes_of (some pp) = pp.bytes

unfoldable pub sum_sizes : List SegmentRef → Int64
sum_sizes [] = 0
sum_sizes (r ∷ refs) = add64 r.size (sum_sizes refs)

-- How many of the oldest references enforceRetention drops.
unfoldable pub drop_count : Int64 → Int64 → Int64 → Int64 → List SegmentRef → ℕ
drop_count now max_age max_bytes total [] = 0
drop_count now max_age max_bytes total (r ∷ refs) =
    let rest = suc (drop_count now max_age max_bytes (sub64 total r.size) refs) in
    let expired = lt_i64 0 max_age && lt_i64 max_age (sub64 now r.uploaded_ms) in
    let over_size = lt_i64 0 max_bytes && lt_i64 max_bytes total in
    if expired || over_size then rest else 0

-- The keys of some references, each once and in order of its first.
unfoldable pub has_key : Bytes → List Bytes → Bool
has_key key [] = false
has_key key (k ∷ ks) = if bytes_beq k key then true else has_key key ks

unfoldable pub new_keys : List Bytes → List SegmentRef → List Bytes
new_keys seen [] = []
new_keys seen (r ∷ refs) =
    let rest = new_keys (if has_key r.key seen then seen else r.key ∷ seen) refs in
    if has_key r.key seen then rest else r.key ∷ rest

abbrev next_of : Option SegmentRef → Int64
next_of none = 0
next_of (some r) = r.next_offset

abbrev pub Handle : Type 0 → Type 0 → Type 0
Handle O I = ObjectLog × Storage O I

abbrev record_for : ObjectLog → Int64 → Bytes → WalRecord
record_for l base batch = record {
  topic = l.topic;
  partition = l.partition;
  base_offset = base;
  batch = batch;
}

unfoldable pub set_high_watermark : Int64 → ObjectLog → ObjectLog
set_high_watermark hwm l =
    let clamped = if lt_i64 l.next_offset hwm then l.next_offset else hwm in
    if lt_i64 l.high_watermark clamped then record l { high_watermark = clamped } else l

abbrev pub hold_high_watermark : ObjectLog → ObjectLog
hold_high_watermark l = record l { hold_hwm = true }

abbrev read_pending_or :
    Int64 → Int32 → Bytes → Option (Bytes × Option ReadError) → Option (Bytes × Option ReadError)
read_pending_or offset max_bytes [] uploaded = uploaded
read_pending_or offset max_bytes (x ∷ xs) uploaded =
    sliced_answer (slice_batches (x ∷ xs) offset max_bytes)

abbrev scan_answer : Scanned → Option (Option Int64)
scan_answer (found off) = some (some off)
scan_answer missed = some none
scan_answer panicked_scan = none
scan_answer unfinished_scan = none

abbrev scan_next : Scanned → Option (Option Int64) → Option (Option Int64)
scan_next (found off) rest = some (some off)
scan_next missed rest = rest
scan_next panicked_scan rest = none
scan_next unfinished_scan rest = none

abbrev scan_ref : Int64 → Option Bytes → Option (Option Int64) → Option (Option Int64)
scan_ref ts none rest = some none
scan_ref ts (some bytes) rest = scan_next (scan_timestamp bytes ts) rest

abbrev all_pending : Option PendingPart → Bytes
all_pending none = []
all_pending (some pp) = flatten pp.batches

module _ {O : Type 0} (os : ObjectStore O) where
  abbrev get_ref : O → SegmentRef → Option Bytes
  get_ref o r = os.get_from o r.key r.position r.size

  abbrev read_ref : O → Int64 → Int32 → Option SegmentRef → Option (Bytes × Option ReadError)
  read_ref o offset max_bytes none = some ([], none)
  read_ref o offset max_bytes (some r) = slice_of offset max_bytes (get_ref o r)

  unfoldable pub scan_refs :
      O → Int64 → List SegmentRef → Option (Option Int64) → Option (Option Int64)
  scan_refs o ts [] last = last
  scan_refs o ts (r ∷ refs) last = scan_ref ts (get_ref o r) (scan_refs o ts refs last)

module _ {O I : Type 0} where
  abbrev stored : ObjectLog → Int64 → Bool × Storage O I → Option Int64 × Handle O I
  stored l next (false, s) = (none, (l, s))
  stored l next (true, s) = (
    some l.next_offset,
    (
      record l {
        next_offset = next;
        high_watermark = if l.hold_hwm then l.high_watermark else next;
      },
      s,
    ),
  )

  abbrev append_parsed :
      Write → Handle O I → Bytes → Result HeaderError BatchHeader → Option Int64 × Handle O I
  append_parsed disk (l, s) b (err e) = (none, (l, s))
  append_parsed disk (l, s) b (ok h) =
      let next = add64 (last_offset h) 1 in
      stored l next (append disk s (record_for l l.next_offset b) next)

  abbrev append_assigned : Write → Handle O I → Option Bytes → Option (Option Int64 × Handle O I)
  append_assigned disk h none = none
  append_assigned disk h (some b) = some (append_parsed disk h b (parse_header b))

  -- Append: the base offset, or none on an error; the outer `none` is a panic.
  unfoldable pub append_log : Write → Handle O I → Bytes → Option (Option Int64 × Handle O I)
  append_log disk h batch = append_assigned disk h (assign_offset batch h.0.next_offset)

  abbrev replicated : ObjectLog → Int64 → Bool × Storage O I → Option Int64 × Handle O I
  replicated l next (false, s) = (none, (l, s))
  replicated l next (true, s) = (some next, (record l { next_offset = next }, s))

  abbrev replica_parsed :
      Write → Handle O I → Bytes → Result HeaderError BatchHeader → Option Int64 × Handle O I
  replica_parsed disk (l, s) b (err e) = (none, (l, s))
  replica_parsed disk (l, s) b (ok h) =
      let next = add64 (last_offset h) 1 in
      let kept = replicated l next (append disk s (record_for l h.base_offset b) next) in
      if lt_i64 h.base_offset l.next_offset
      then (some l.next_offset, (l, s))
      else if lt_i64 l.next_offset h.base_offset
      then (none, (l, s))
      else kept

  -- AppendReplica: the log end, or none on an error.
  unfoldable pub append_replica_log : Write → Handle O I → Bytes → Option Int64 × Handle O I
  append_replica_log disk h batch = replica_parsed disk h batch (parse_header batch)

  unfoldable pub size : Handle O I → Int64
  size (l, s) =
      add64 (sum_sizes (refs_for s.index l.topic l.partition))
        (pending_bytes_of (lookup (seg_key l.topic l.partition) s.pending))

  module _ (os : ObjectStore O) where
    -- Storage.read
    unfoldable pub read_stored :
        Storage O I → Bytes → Int32 → Int64 → Int32 → Option (Bytes × Option ReadError)
    read_stored s topic p offset max_bytes =
        read_pending_or offset max_bytes (pending_from offset (lookup (seg_key topic p) s.pending))
          (read_ref os s.objects offset max_bytes (ref_for s.index topic p offset))

    unfoldable pub read : Handle O I → Int64 → Int32 → Option (Bytes × Option ReadError)
    read (l, s) offset max_bytes =
        if offset == l.next_offset
        then some ([], none)
        else if lt_i64 l.next_offset offset || lt_i64 offset l.earliest
        then some ([], some out_of_range)
        else read_stored s l.topic l.partition offset max_bytes

    unfoldable pub offset_for_timestamp : Handle O I → Int64 → Option (Option Int64)
    offset_for_timestamp (l, s) ts =
        scan_refs os s.objects ts (refs_for s.index l.topic l.partition) (
          scan_answer
            (scan_timestamp (all_pending (lookup (seg_key l.topic l.partition) s.pending)) ts))

  module _ (st : IndexStore I) (delete : Bytes → O → O) where
    -- The objects that no partition names any more are deleted.
    unfoldable pub collect : Index I → List Bytes → O → O
    collect ix [] o = o
    collect ix (key ∷ keys) o = collect ix keys (if referenced st ix key then o else delete key o)

    abbrev collected :
        ObjectLog → Storage O I → Int64 → Option (List SegmentRef × Index I) → Bool × Handle O I
    collected l s cutoff none = (false, (l, s))
    collected l s cutoff (some (gone, ix)) = (
      true,
      (
        if lt_i64 l.earliest cutoff then record l { earliest = cutoff } else l,
        record s { index = ix; objects = collect ix (new_keys [] gone) s.objects },
      ),
    )

    -- EnforceRetention; the flag is false on an error.
    unfoldable pub enforce_retention : Int64 → Int64 → Int64 → Handle O I → Bool × Handle O I
    enforce_retention now max_age max_bytes (l, s) =
        let refs = refs_for s.index l.topic l.partition in
        let n = drop_count now max_age max_bytes (size (l, s)) refs in
        let cutoff = next_of (get_elem? refs (n - 1)) in
        if n == 0
        then (true, (l, s))
        else collected l s cutoff (prune st s.index l.topic l.partition cutoff)
