-- ===== src/Storage/Object/Recovery.antt =====
-- internal/storage/object/storage.go (NewStorage, replay, Log): what the storage is after a restart,
-- and where a partition's log begins and ends.
pub mod Replays
use mq.Common.{
  ℕ, Bool, true, false, Option, none, some, List, [], ◌∷◌, ◌++◌, Bytes, Int32, Int64, add64, lt_i64,
  if◌then◌else◌, Result, ok, err,
}
use mq.Common.Keys.{Map, lookup, insert, bytes_eq}
use mq.Controller.Fsm.{seg_key}
use mq.Record.Batch.{HeaderError, BatchHeader, parse_header, last_offset}
use mq.Storage.Object.Index.{Index, IndexStore, new_index, load, latest, earliest}
use mq.Storage.Object.Wal.{Wal, WalRecord, open_wal, Replay, replay_segments}
use mq.Storage.Object.Store.{Storage, append_pending}

abbrev keep_base : Bytes → Int64 → Map Bytes Int64 → Option Int64 → Map Bytes Int64
keep_base k base m none = insert k base m
keep_base k base m (some old) = m

module _ {O I : Type 0} where
  -- The record `rec` ends at `next`.
  abbrev pub note_recovered : WalRecord → Int64 → Storage O I → Storage O I
  note_recovered rec next s =
      let k = seg_key rec.topic rec.partition in
      record s {
        rec_base = keep_base k rec.base_offset s.rec_base (lookup k s.rec_base);
        rec_next = insert k next s.rec_next;
      }

  abbrev pub reload_parsed :
      WalRecord → Storage O I → Result HeaderError BatchHeader → Result HeaderError (Storage O I)
  reload_parsed rec s (err e) = err e
  reload_parsed rec s (ok h) =
      let next = add64 (last_offset h) 1 in ok (note_recovered rec next (append_pending s rec next))

  -- The callback of the replay.
  abbrev pub reload : WalRecord → Storage O I → Result HeaderError (Storage O I)
  reload rec s = reload_parsed rec s (parse_header rec.batch)

  -- The storage before the replay; the log's segments are those of the directory.
  abbrev pub fresh_storage : O → I → Bytes → Int64 → List (ℕ × Bytes) → Storage O I
  fresh_storage objects store node upload_bytes segs = record {
    objects = objects;
    wal = open_wal segs;
    index = new_index store;
    node_id = node;
    upload_bytes = upload_bytes;
    pending = [];
    pending_bytes = 0;
    upload_seq = 0;
    rec_base = [];
    rec_next = [];
  }

  -- The replay also reads the new active segment.
  unfoldable pub replay_all :
      (List (ℕ × Bytes) → List (ℕ × Option Bytes)) → Storage O I → Replay (Storage O I) HeaderError
  replay_all reads s = replay_segments reload (reads s.wal.segs) s

-- The state of a partition's log. Its data are in the storage.
pub record ObjectLog : Type 0 where
  pub topic : Bytes
  pub partition : Int32
  pub next_offset : Int64
  pub high_watermark : Int64
  pub hold_hwm : Bool
  pub earliest : Int64

abbrev or_zero : Option Int64 → Int64
or_zero none = 0
or_zero (some v) = v

-- The later of what the index and the replay say.
abbrev later : Int64 → Option Int64 → Int64
later next none = next
later next (some r) = if lt_i64 next r then r else next

abbrev first_of : Int64 → Option Int64 → Option Int64 → Int64
first_of next (some e) base = e
first_of next none (some b) = b
first_of next none none = next

module _ {O I : Type 0} (st : IndexStore I) where
  abbrev pub seeded : Bytes → Int32 → Storage O I → ObjectLog
  seeded topic p s =
      let k = seg_key topic p in
      let next = later (or_zero (latest s.index topic p)) (lookup k s.rec_next) in
      record {
        topic = topic;
        partition = p;
        next_offset = next;
        high_watermark = next;
        hold_hwm = false;
        earliest = first_of next (earliest s.index topic p) (lookup k s.rec_base);
      }

  abbrev with_log :
      Bytes → Int32 → Storage O I → Option (Index I) → Option (ObjectLog × Storage O I)
  with_log topic p s none = none
  with_log topic p s (some ix) =
      let s' : Storage O I = record s { index = ix } in some (seeded topic p s', s')

  -- Log; `none` is an error.
  unfoldable pub log_of : Bytes → Int32 → Storage O I → Option (ObjectLog × Storage O I)
  log_of topic p s = with_log topic p s (load st s.index topic p)
