-- ===== src/Storage/Log/Watermark.antt =====
-- internal/storage/log.go: the log end offset and the high watermark under any sequence of calls.
use mq.Common.{
  ◌+◌, ◌^◌, ◌≤◌, ◌<◌, ◌≡◌, refl, ◌∙◌, Bool, true, false, some, Bytes, Int64, IsInt64, arith, Result,
  ok, err, add64, sext32,
}
use mathlib.Core.Path.{subst, sym}
use mathlib.Core.Option.{some-injective}
use mq.Record.Batch.{BatchHeader, parse_header, last_offset, assign_offset, HeaderError}
use mq.Storage.Segment.{Segment}
use mq.Storage.Log.{
  Log, LogError, Disk, roll, roll_if_needed, append_active, finish_append, append_parsed,
  append_rolled, append, append_replica, finish_replica, replica_rolled, replica_parsed,
  set_high_watermark, hold_high_watermark, flush, enforce_retention,
}

-- What a call that only moves segments leaves alone.
record SameOffsets (l l' : Log) : Type 0 where
  next : l'.next_offset ≡ l.next_offset
  hwm : l'.high_watermark ≡ l.high_watermark
  held : l'.hold_hwm ≡ l.hold_hwm

roll_if_needed-SameOffsets :
    (disk : Disk) (l : Log) (batch : Bytes) (base : Int64)
    → SameOffsets l (roll_if_needed disk l batch base).1
unfolding roll_if_needed roll
roll_if_needed-SameOffsets disk l batch base = ground arith

append_active-SameOffsets :
    (disk : Disk) (l : Log) (batch : Bytes) (base : Int64)
    → SameOffsets l (append_active disk l batch base).1
unfolding append_active
append_active-SameOffsets disk l batch base = record { next = refl; hwm = refl; held = refl }

-- The committed offset is at most the log end, and the log end is no negative number.
pub record IsOrdered (l : Log) : Type 0 where
  pub committed : l.high_watermark ≤ l.next_offset
  pub bounded : l.next_offset < 2 ^ 63

-- `l'` has every record of `l`, committed or not, and if `l` holds the watermark back, so does `l'`.
pub record Grows (l l' : Log) : Type 0 where
  pub ordered : IsOrdered l'
  pub ends : l.next_offset ≤ l'.next_offset
  pub commits : l.high_watermark ≤ l'.high_watermark

-- The header counts records, and their offsets fit.
pub record CountFits (l : Log) (b : Bytes) : Type 0 where
  pub count : (h : BatchHeader) → parse_header b ≡ ok h → h.record_count < 2 ^ 31
  pub room : (h : BatchHeader) → parse_header b ≡ ok h → l.next_offset + h.record_count < 2 ^ 63

finish_append-Grows :
    (l l' : Log) (done : Bool) (base next : Int64)
    → IsOrdered l
    → SameOffsets l l'
    → l.next_offset ≤ next
    → next < 2 ^ 63
    → Grows l (finish_append (done, l') base next).1
unfolding finish_append
finish_append-Grows l l' false base next h s le lt = ground arith
finish_append-Grows l l' true base next h s le lt = ground arith

trans-SameOffsets : {a b c : Log} → SameOffsets a b → SameOffsets b c → SameOffsets a c
trans-SameOffsets p q = record {
  next = q.next ∙ p.next;
  hwm = q.hwm ∙ p.hwm;
  held = q.held ∙ p.held;
}

append_parsed-Grows :
    (disk : Disk) (l l' : Log) (b : Bytes) (r : Result HeaderError BatchHeader)
    → IsOrdered l
    → SameOffsets l l'
    → ((h : BatchHeader)
        → r ≡ ok h
        → (h.record_count < 2 ^ 31) × (l.next_offset + h.record_count < 2 ^ 63))
    → Grows l (append_parsed disk l' b l.next_offset r).1
unfolding append_parsed
append_parsed-Grows disk l l' b (err e) o s fits = ground arith
append_parsed-Grows disk l l' b (ok h) o s fits =
    let (small, room) = fits h refl in
    let a = append_active disk l' b l.next_offset in
    let n : add64 l.next_offset (sext32 h.record_count) ≡ l.next_offset + h.record_count =
      ground arith in
    rw n (
      finish_append-Grows l a.1 a.0 l.next_offset (l.next_offset + h.record_count) o
        (trans-SameOffsets s (append_active-SameOffsets disk l' b l.next_offset)) (omega arith)
        room)

append_rolled-Grows :
    (disk : Disk) (l l' : Log) (done : Bool) (b : Bytes)
    → IsOrdered l
    → SameOffsets l l'
    → CountFits l b
    → Grows l (append_rolled disk (done, l') b l.next_offset).1
unfolding append_rolled
append_rolled-Grows disk l l' false b o s f = ground arith
append_rolled-Grows disk l l' true b o s f =
    append_parsed-Grows disk l l' b (parse_header b) o s (λ h e. (f.count h e, f.room h e))

outcome-Grows :
    (l l' : Log) (x : Result LogError Int64 × Log) (r : Result LogError Int64)
    → some x ≡ some (r, l')
    → Grows l x.1
    → Grows l l'
outcome-Grows l l' x r e g =
    subst (λ (y : Result LogError Int64 × Log). Grows l y.1) (some-injective _ _ e) g

append-Grows :
    (disk : Disk) (l l' : Log) (batch b : Bytes) (r : Result LogError Int64)
    → IsOrdered l
    → assign_offset batch l.next_offset ≡ some b
    → CountFits l b
    → append disk l batch ≡ some (r, l')
    → Grows l l'
append-Grows disk l l' batch b r o e f h =
    let rolled = roll_if_needed disk l b l.next_offset in
    let g =
      append_rolled-Grows disk l rolled.1 rolled.0 b o
        (roll_if_needed-SameOffsets disk l b l.next_offset) f in
    let run : append disk l batch ≡ some (append_rolled disk rolled b l.next_offset) =
      unfold append in rw e in
    outcome-Grows l l' (append_rolled disk rolled b l.next_offset) r (sym run ∙ h) g

-- The header's last offset fits.
pub record LastFits (b : Bytes) : Type 0 where
  pub base : (h : BatchHeader) → parse_header b ≡ ok h → h.base_offset < 2 ^ 64
  pub grows : (h : BatchHeader) → parse_header b ≡ ok h → h.last_offset_delta < 2 ^ 31
  pub room :
      (h : BatchHeader) → parse_header b ≡ ok h → h.base_offset + h.last_offset_delta + 1 < 2 ^ 63

finish_replica-Grows :
    (l l' : Log) (done : Bool) (next : Int64)
    → IsOrdered l
    → SameOffsets l l'
    → l.next_offset ≤ next
    → next < 2 ^ 63
    → Grows l (finish_replica (done, l') next).1
unfolding finish_replica
finish_replica-Grows l l' false next h s le lt = ground arith
finish_replica-Grows l l' true next h s le lt = ground arith

replica_rolled-Grows :
    (disk : Disk) (l l' : Log) (done : Bool) (b : Bytes) (h : BatchHeader)
    → IsOrdered l
    → SameOffsets l l'
    → l.next_offset ≤ add64 (last_offset h) 1
    → add64 (last_offset h) 1 < 2 ^ 63
    → Grows l (replica_rolled disk (done, l') b h).1
unfolding replica_rolled
replica_rolled-Grows disk l l' false b h o s le lt = ground arith
replica_rolled-Grows disk l l' true b h o s le lt =
    let a = append_active disk l' b h.base_offset in
    finish_replica-Grows l a.1 a.0 (add64 (last_offset h) 1) o
      (trans-SameOffsets s (append_active-SameOffsets disk l' b h.base_offset)) le lt

replica_parsed-Grows :
    (disk : Disk) (l : Log) (b : Bytes) (r : Result HeaderError BatchHeader)
    → IsOrdered l
    → ((h : BatchHeader)
        → r ≡ ok h
        → (h.base_offset < 2 ^ 64)
          × (h.last_offset_delta < 2 ^ 31)
          × (h.base_offset + h.last_offset_delta + 1 < 2 ^ 63))
    → Grows l (replica_parsed disk l b r).1
unfolding replica_parsed
replica_parsed-Grows disk l b (err e) o f = ground arith
replica_parsed-Grows disk l b (ok h) o f =
    let (base, grows, room) = f h refl in
    let rolled = roll_if_needed disk l b h.base_offset in
    let last : add64 (last_offset h) 1 ≡ h.base_offset + h.last_offset_delta + 1 =
      unfold last_offset in ground arith in
    ground (
      arith,
      replica_rolled-Grows disk l rolled.1 rolled.0 b h o
          (roll_if_needed-SameOffsets disk l b h.base_offset),
    )

append_replica-Grows :
    (disk : Disk) (l : Log) (b : Bytes)
    → IsOrdered l
    → LastFits b
    → Grows l (append_replica disk l b).1
unfolding append_replica
append_replica-Grows disk l b o f =
    replica_parsed-Grows disk l b (parse_header b) o (λ h e. (f.base h e, f.grows h e, f.room h e))

set_high_watermark-Grows :
    (hwm : Int64) (l : Log) → IsOrdered l → IsInt64 hwm → Grows l (set_high_watermark hwm l)
unfolding set_high_watermark
set_high_watermark-Grows hwm l o w = ground arith

-- The calls of a log's methods that change it, with their errors, whatever the disk does.
pub data Step : Log → Log → Type 0 where
  appends :
      {l l' : Log} (disk : Disk) (batch b : Bytes) (r : Result LogError Int64)
      → assign_offset batch l.next_offset ≡ some b
      → CountFits l b
      → append disk l batch ≡ some (r, l')
      → Step l l'
  replicates : {l : Log} (disk : Disk) (b : Bytes) → LastFits b → Step l (append_replica disk l b).1
  commits : {l : Log} (hwm : Int64) → IsInt64 hwm → Step l (set_high_watermark hwm l)
  holds : {l : Log} → Step l (hold_high_watermark l)
  flushes : {l : Log} (syncs : Bool) → Step l (flush syncs l).1
  retains :
      {l : Log} (expired : Segment → Bool) (max_age_ms max_bytes : Int64)
      → Step l (enforce_retention expired max_age_ms max_bytes l)

pub data Steps (l : Log) : Log → Type 0 where
  none_yet : Steps l l
  more : {l' l'' : Log} → Steps l l' → Step l' l'' → Steps l l''

Step-Grows : {l l' : Log} → Step l l' → IsOrdered l → Grows l l'
unfolding hold_high_watermark flush enforce_retention
Step-Grows {l} {l'} (appends disk batch b r e f h) o = append-Grows disk l l' batch b r o e f h
Step-Grows {l} (replicates disk b f) o = append_replica-Grows disk l b o f
Step-Grows {l} (commits hwm w) o = set_high_watermark-Grows hwm l o w
Step-Grows {l} holds o = ground arith
Step-Grows {l} (flushes syncs) o = ground arith
Step-Grows {l} (retains expired age bytes) o = ground arith

-- From a log whose high watermark is at most its end: after any sequence of appends, replicated
-- batches, watermark updates, flushes and retention runs, failed ones included, neither the end nor
-- the high watermark has moved back, and the high watermark is still at most the end. The batches'
-- record counts and offset deltas are not negative and the offsets stay below 2 ^ 63.
pub Steps-Grows : {l l' : Log} → Steps l l' → IsOrdered l → Grows l l'
Steps-Grows {l} none_yet o = ground arith
Steps-Grows (more steps step) o =
    let g = Steps-Grows steps o in
    let g' = Step-Grows step g.ordered in
    record {
      ordered = g'.ordered;
      ends = omega (arith, g.ends, g'.ends);
      commits = omega (arith, g.commits, g'.commits);
    }
