-- ===== src/Storage/Object/Store.antt =====
-- internal/storage/object/storage.go: the storage that the partitions of a node share. The object
-- store is an interface with what its documentation states; what the disk does is an argument.
pub mod Parts
pub mod Slices
pub mod Tidy
pub mod Uploads
pub mod Steps
use mq.Common.{
  ℕ, zero, suc, ◌+◌, ◌*◌, ◌%◌, ◌/◌, ◌^◌, ◌<◌, ◌≤◌, ◌≡◌, ◌≢◌, ◌==◌, Bool, true, false, not, ◌&&◌,
  Option, none, some, List, [], ◌∷◌, ◌++◌, Bytes, Int32, Int64, length, take, drop, flatten,
  replicate, ◌-◌, lt_i64, le_i64, add64, if◌then◌else◌, Result, ok, err,
}
use mq.Common.Keys.{Map, lookup, insert, bytes_eq, bytes_beq}
use mq.Controller.Failover.{bytes_ltb}
use mq.Controller.Fsm.{SegmentRef, seg_key}
use mq.Record.Batch.{HeaderError, parse_header, last_offset}
use mq.Storage.Object.Index.{Index, IndexStore, commit, latest, earliest, load}
use mq.Storage.Object.Wal
use mq.Storage.Object.Wal.{Wal, WalRecord, Write, Rotate, rotate, delete_through}

-- Put overwrites; Get reads `len` bytes from `off` on, for a positive `len`. `none` is an error.
pub record ObjectStore (O : Type 0) : Type 0 where
  pub put_in : O → Bytes → Bytes → Option O
  pub get_from : O → Bytes → ℕ → ℕ → Option Bytes
  pub get-put :
      (o o' : O) (key bytes : Bytes) (off len : ℕ)
      → put_in o key bytes ≡ some o'
      → 0 < len
      → off + len ≤ length bytes
      → get_from o' key off len ≡ some (take len (drop off bytes))
  pub get-put_other :
      (o o' : O) (key other bytes : Bytes) (off len : ℕ)
      → put_in o key bytes ≡ some o'
      → other ≢ key
      → get_from o' other off len ≡ get_from o other off len

-- A partition's batches that are not uploaded.
pub record PendingPart : Type 0 where
  pub topic : Bytes
  pub partition : Int32
  pub base_offset : Int64
  pub next_offset : Int64
  pub batches : List Bytes
  pub bytes : Int64

abbrev pub Pending : Type 0
Pending = Map Bytes PendingPart

pub record Storage (O I : Type 0) : Type 0 where
  pub objects : O
  pub wal : Wal
  pub index : Index I
  pub node_id : Bytes
  pub upload_bytes : Int64
  pub pending : Pending
  pub pending_bytes : Int64
  pub upload_seq : ℕ
  pub rec_base : Map Bytes Int64
  pub rec_next : Map Bytes Int64

abbrev or_fresh : WalRecord → Option PendingPart → PendingPart
or_fresh rec (some pp) = pp
or_fresh rec none = record {
  topic = rec.topic;
  partition = rec.partition;
  base_offset = rec.base_offset;
  next_offset = 0;
  batches = [];
  bytes = 0;
}

abbrev pub with_batch : WalRecord → Int64 → PendingPart → PendingPart
with_batch rec next pp = record pp {
  batches = pp.batches ++ (rec.batch ∷ []);
  next_offset = next;
  bytes = add64 pp.bytes (length rec.batch);
}

-- The digits of a number below 10 ^ n, and zeros in front.
unfoldable pub padded : ℕ → ℕ → Bytes
padded zero v = []
padded (suc n) v = padded n (v / 10) ++ ((48 + v % 10) ∷ [])

-- "data/sso/%s/%020d"
unfoldable pub object_key : Bytes → ℕ → Bytes
object_key node seq =
    (100 ∷ 97 ∷ 116 ∷ 97 ∷ 47 ∷ 115 ∷ 115 ∷ 111 ∷ 47 ∷ []) ++ (node ++ (47 ∷ padded 20 seq))

-- sortedKeys, with the parts
unfoldable pub insert_part : Bytes × PendingPart → Pending → Pending
insert_part e [] = e ∷ []
insert_part e (f ∷ fs) =
    let rest = insert_part e fs in if bytes_ltb e.0 f.0 then e ∷ f ∷ fs else f ∷ rest

unfoldable pub by_key : Pending → Pending
by_key [] = []
by_key (e ∷ es) = insert_part e (by_key es)

pub record Commit : Type 0 where
  pub topic : Bytes
  pub partition : Int32
  pub ref : SegmentRef

abbrev pub ref_of : Bytes → Int64 → ℕ → PendingPart → SegmentRef
ref_of key now pos pp = record {
  key = key;
  base_offset = pp.base_offset;
  next_offset = pp.next_offset;
  position = pos;
  size = length (flatten pp.batches);
  uploaded_ms = now;
}

-- What the loop over the snapshot makes behind the first `pos` bytes: the commits and the rest of
-- the object.
unfoldable pub pack : Bytes → Int64 → ℕ → Pending → List Commit × Bytes
pack key now pos [] = ([], [])
pack key now pos ((k, pp) ∷ es) =
    let bytes = flatten pp.batches in
    let rest = pack key now (pos + length bytes) es in
    (
      record { topic = pp.topic; partition = pp.partition; ref = ref_of key now pos pp } ∷ rest.0,
      bytes ++ rest.1,
    )

unfoldable pub sum_bytes : Pending → Int64
sum_bytes [] = 0
sum_bytes ((k, pp) ∷ es) = add64 pp.bytes (sum_bytes es)

-- A snapshot's part goes in front of what has come since.
abbrev in_front : PendingPart → Option PendingPart → PendingPart
in_front pp none = pp
in_front pp (some cur) = record pp {
  batches = pp.batches ++ cur.batches;
  next_offset = cur.next_offset;
  bytes = add64 pp.bytes cur.bytes;
}

unfoldable pub merge_back : Pending → Pending → Pending
merge_back [] pending = pending
merge_back ((k, pp) ∷ snap) pending =
    merge_back snap (insert k (in_front pp (lookup k pending)) pending)

-- Where upload stands between its steps, at which other calls can come: it holds no lock of the
-- storage while it seals the log and puts the object. `over` is after its return, whose error is false.
pub data Flight : Type 0 where
  over : Bool → Flight
  snapped : Pending → Bytes → Flight
  sealed : Pending → Bytes → ℕ → Flight
  stored : Pending → List Commit → ℕ → Flight

module _ {O I : Type 0} where
  unfoldable pub append_pending : Storage O I → WalRecord → Int64 → Storage O I
  append_pending s rec next =
      let k = seg_key rec.topic rec.partition in
      record s {
        pending = insert k (with_batch rec next (or_fresh rec (lookup k s.pending))) s.pending;
        pending_bytes = add64 s.pending_bytes (length rec.batch);
      }

  abbrev appended : Storage O I → WalRecord → Int64 → Bool × Wal → Bool × Storage O I
  appended s rec next (false, w) = (false, record s { wal = w })
  appended s rec next (true, w) = (true, append_pending (record s { wal = w }) rec next)

  -- append; the flag is false on an error.
  unfoldable pub append : Write → Storage O I → WalRecord → Int64 → Bool × Storage O I
  append disk s rec next = appended s rec next (Wal.append disk s.wal rec)

  -- Whether append nudges the uploader.
  abbrev pub is_full : Storage O I → Bool
  is_full s = lt_i64 0 s.upload_bytes && le_i64 s.upload_bytes s.pending_bytes

  abbrev restore : Pending → Storage O I → Storage O I
  restore snap s =
      let pending = merge_back snap s.pending in
      record s { pending = pending; pending_bytes = sum_bytes pending }

  -- The state with the snapshot taken out.
  abbrev pub taken : Storage O I → Storage O I
  taken s = record s { pending = []; pending_bytes = 0; upload_seq = (s.upload_seq + 1) % 2 ^ 64 }

  abbrev pub key_of : Storage O I → Bytes
  key_of s = object_key s.node_id ((s.upload_seq + 1) % 2 ^ 64)

  module _ (os : ObjectStore O) (st : IndexStore I) where
    -- The commits one after another; the flag is false where one fails.
    abbrev go_on :
        Index I → List Commit → Option (Index I) → (Index I → Bool × Index I) → Bool × Index I
    go_on ix cs none next = (false, ix)
    go_on ix cs (some ix') next = next ix'

    unfoldable pub commit_all : List Commit → Index I → Bool × Index I
    commit_all [] ix = (true, ix)
    commit_all (c ∷ cs) ix = go_on ix cs (commit st ix c.topic c.partition c.ref) (commit_all cs)

    abbrev pub trimmed : Storage O I → ℕ → Bool × Index I → Flight × Storage O I
    trimmed s seq (false, ix) = (over false, record s { index = ix })
    trimmed s seq (true, ix) = (
      over true,
      record s { index = ix; wal = record s.wal { segs = delete_through seq s.wal.segs } },
    )

    -- The commits to the index, and then the log is trimmed.
    unfoldable pub finish : List Commit → ℕ → Storage O I → Flight × Storage O I
    finish commits seq s = trimmed s seq (commit_all commits s.index)

    abbrev pub put_with : Pending → List Commit → ℕ → Storage O I → Option O → Flight × Storage O I
    put_with snap commits seq s none = (over false, restore snap s)
    put_with snap commits seq s (some o) = (stored snap commits seq, record s { objects = o })

    unfoldable pub put_object : Int64 → Pending → Bytes → ℕ → Storage O I → Flight × Storage O I
    put_object now snap key seq s =
        let packed = pack key now 0 (by_key snap) in
        put_with snap packed.0 seq s (os.put_in s.objects key packed.1)

  abbrev pub sealed_with : Pending → Bytes → Storage O I → Option ℕ × Wal → Flight × Storage O I
  sealed_with snap key s (none, w) = (over false, restore snap (record s { wal = w }))
  sealed_with snap key s (some seq, w) = (sealed snap key seq, record s { wal = w })

  unfoldable pub seal : Rotate → Pending → Bytes → Storage O I → Flight × Storage O I
  seal disk snap key s = sealed_with snap key s (rotate disk s.wal)

  unfoldable pub begin_upload : Storage O I → Flight × Storage O I
  begin_upload s =
      if length s.pending == 0 then (over true, s) else (snapped s.pending (key_of s), taken s)

  -- upload goes on by a step of its own; uploadMu lets no other upload begin before it is over.
  abbrev pub upload_step :
      ObjectStore O → IndexStore I → Rotate → Int64 → Flight × Storage O I → Flight × Storage O I
  upload_step os st disk now (over fine, s) = begin_upload s
  upload_step os st disk now (snapped snap key, s) = seal disk snap key s
  upload_step os st disk now (sealed snap key seq, s) = put_object os st now snap key seq s
  upload_step os st disk now (stored snap commits seq, s) = finish os st commits seq s
