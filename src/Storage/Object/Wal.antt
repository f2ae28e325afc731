-- ===== src/Storage/Object/Wal.antt =====
-- internal/storage/object/wal.go: the write-ahead log of a node, which mixes the records of all
-- partitions. The directory is the list of its segment files, by sequence number; what the disk
-- does is an argument.
pub mod Frames
pub mod Replays
pub mod Segments
use mq.Common.{
  ℕ, zero, suc, ◌+◌, ◌==◌, Bool, true, false, not, Option, none, some, List, [], ◌∷◌, ◌++◌, Bytes,
  Int32, Int64, length, take, drop, get_or, ltb, leb, if◌then◌else◌, be16, be32, be64, put16, put32,
  put64, Result, ok, err,
}
use mq.Record.Batch.{checksum}

abbrev pub wal_magic : ℕ
wal_magic = 0xa7

pub record WalRecord : Type 0 where
  pub topic : Bytes
  pub partition : Int32
  pub base_offset : Int64
  pub batch : Bytes

pub data WalError : Type 0 where
  payload_too_short payload_truncated : WalError

unfoldable pub encode_wal_payload : WalRecord → Bytes
encode_wal_payload rec =
    put16 (length rec.topic)
    ++ (rec.topic ++ (put32 rec.partition ++ (put64 rec.base_offset ++ rec.batch)))

-- The fields behind the topic's length.
abbrev pub decode_fields : ℕ → Bytes → WalRecord
decode_fields tl b = record {
  topic = take tl b;
  partition = be32 (drop tl b);
  base_offset = be64 (drop (tl + 4) b);
  batch = drop (tl + 12) b;
}

unfoldable pub decode_wal_payload : Bytes → Result WalError WalRecord
decode_wal_payload b =
    if ltb (length b) 2
    then err payload_too_short
    else if ltb (length b) (2 + be16 b + 12)
    then err payload_truncated
    else ok (decode_fields (be16 b) (drop 2 b))

-- The frame that append writes.
unfoldable pub frame_of : Bytes → Bytes
frame_of payload = wal_magic ∷ (put32 (checksum payload) ++ (put32 (length payload) ++ payload))

abbrev pub frame : WalRecord → Bytes
frame rec = frame_of (encode_wal_payload rec)

pub data ReplayError (E : Type 0) : Type 0 where
  payload : WalError → ReplayError E
  callback : E → ReplayError E
  read_failed : ReplayError E

pub data Replay (S E : Type 0) : Type 0 where
  replayed : S → Replay S E
  failed : ReplayError E → Replay S E
  unfinished : Replay S E

abbrev pub and_then : {S E : Type 0} → Replay S E → (S → Replay S E) → Replay S E
and_then (replayed s) next = next s
and_then (failed e) next = failed e
and_then unfinished next = unfinished

abbrev pub called : {S E : Type 0} → Result E S → Replay S E
called (ok s) = replayed s
called (err e) = failed (callback e)

module _ {S E : Type 0} (fn : WalRecord → S → Result E S) where
  abbrev pub replay_record : Result WalError WalRecord → S → Replay S E
  replay_record (err e) s = failed (payload e)
  replay_record (ok rec) s = called (fn rec s)

  -- One round on the bytes from `pos` on, which are not empty; `next` goes on behind the frame.
  unfoldable pub replay_round : Bytes → S → (Bytes → S → Replay S E) → Replay S E
  replay_round rest s next =
      let n = be32 (drop 5 rest) in
      let body = take n (drop 9 rest) in
      let more = and_then (replay_record (decode_wal_payload body) s) (next (drop (9 + n) rest)) in
      if not (get_or rest 0 0 == wal_magic)
      then replayed s
      else if ltb (length rest) 9
      then replayed s
      else if ltb (length rest) (9 + n)
      then replayed s
      else if not (checksum body == be32 (drop 1 rest))
      then replayed s
      else more

  unfoldable pub replay_loop : ℕ → Bytes → S → Replay S E
  replay_loop zero rest s = unfinished
  replay_loop (suc fuel) rest s =
      let more = replay_round rest s (replay_loop fuel) in
      if ltb 0 (length rest) then more else replayed s

  -- Each round that goes on takes nine bytes at least.
  unfoldable pub replay_segment : Bytes → S → Replay S E
  replay_segment bytes s = replay_loop (suc (length bytes)) bytes s

  -- A segment that cannot be read is `none`.
  unfoldable pub replay_segments : List (ℕ × Option Bytes) → S → Replay S E
  replay_segments [] s = replayed s
  replay_segments ((seq, none) ∷ segs) s = failed read_failed
  replay_segments ((seq, some bytes) ∷ segs) s =
      and_then (replay_segment bytes s) (replay_segments segs)

-- The directory, in the order of the sequence numbers, and the active segment.
pub record Wal : Type 0 where
  pub segs : List (ℕ × Bytes)
  pub active_seq : ℕ

-- os.OpenFile with O_CREATE and O_APPEND
unfoldable pub open_segment : ℕ → List (ℕ × Bytes) → List (ℕ × Bytes)
open_segment seq [] = (seq, []) ∷ []
open_segment seq ((s, b) ∷ segs) =
    if s == seq
    then (s, b) ∷ segs
    else if ltb seq s
    then (seq, []) ∷ (s, b) ∷ segs
    else (s, b) ∷ open_segment seq segs

unfoldable pub next_seq : List (ℕ × Bytes) → ℕ
next_seq [] = 1
next_seq ((s, b) ∷ []) = s + 1
next_seq (_ ∷ (s, b) ∷ segs) = next_seq ((s, b) ∷ segs)

abbrev pub open_active : ℕ → List (ℕ × Bytes) → Wal
open_active seq segs = record { segs = open_segment seq segs; active_seq = seq }

unfoldable pub open_wal : List (ℕ × Bytes) → Wal
open_wal segs = open_active (next_seq segs) segs

unfoldable pub append_to : ℕ → Bytes → List (ℕ × Bytes) → List (ℕ × Bytes)
append_to seq bytes [] = []
append_to seq bytes ((s, b) ∷ segs) =
    if s == seq then (s, b ++ bytes) ∷ segs else (s, b) ∷ append_to seq bytes segs

-- A write that fails leaves the first `n` bytes of the frame in the file.
pub data Write : Type 0 where
  wrote : Write
  write_failed : ℕ → Write

abbrev written : Write → Bytes → Bytes
written wrote bytes = bytes
written (write_failed n) bytes = take n bytes

abbrev write_done : Write → Bool
write_done wrote = true
write_done (write_failed n) = false

unfoldable pub append : Write → Wal → WalRecord → Bool × Wal
append disk w rec =
    (write_done disk, record w { segs = append_to w.active_seq (written disk (frame rec)) w.segs })

-- What the disk does in rotate: it fails to sync or to close, it fails to open the new file, or all
-- is done.
pub data Rotate : Type 0 where
  rotated not_closed not_opened : Rotate

unfoldable pub rotate : Rotate → Wal → Option ℕ × Wal
rotate rotated w = (some w.active_seq, open_active (w.active_seq + 1) w.segs)
rotate not_closed w = (none, w)
rotate not_opened w = (none, w)

-- deleteThrough, where every file is removed.
unfoldable pub delete_through : ℕ → List (ℕ × Bytes) → List (ℕ × Bytes)
delete_through sealed [] = []
delete_through sealed ((s, b) ∷ segs) =
    let rest = delete_through sealed segs in if ltb sealed s then (s, b) ∷ rest else rest
