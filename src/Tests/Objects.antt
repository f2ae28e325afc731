-- ===== src/Tests/Objects.antt =====
-- internal/storage/object: a log of records, and a storage over stores in memory.
use mathlib.Core.Option.{some-injective}
use mq.Common.{
  false, true, ℕ, ◌+◌, ◌<◌, ◌≤◌, ◌≡◌, ◌≢◌, refl, sym, ap, ◌∙◌, false, Option, none, some, List, [],
  ◌∷◌, ◌++◌, map, Bytes, arith, length, take, drop, flatten, Result, ok, put16, put32, put64,
}
use mq.Common.Keys.{Map, lookup, insert, lookup-insert, bytes_eq, bytes_beq, bytes_beq_iff}
use mq.Decimal.{itoa, digits}
use mq.Record.Batch.{parse_header, read_header}
use mq.Controller.Fsm.{SegmentRef}
use mq.Storage.Object.Index.{
  refs_for, prune, commit, load, insert_ref, sort_refs, dropped_up_to, MemIndexStore,
  mem_index_store,
}
use mq.Storage.Object.Wal.{
  WalRecord, encode_wal_payload, decode_wal_payload, frame, frame_of, Replay, replayed, unfinished,
  replay_segment, replay_segments, open_wal, next_seq, open_segment, wrote, Rotate, rotated,
  not_closed, append_to, delete_through,
}
use mq.Storage.Object.Wal
use mq.Storage.Object.Wal.Frames.{Fits, decode-encode_wal_payload}
use mq.Storage.Object.Wal.Replays.{IsCut, visit_records}
use mq.Storage.Object.Wal.Segments.{
  Logged, no_segments, segment, readable, replay_segment-ends, replay_segments-Logged,
}
use mq.Storage.Object.Store.{
  ObjectStore, Storage, append, append_pending, Flight, over, begin_upload, seal, put_object,
  finish, upload_step, merge_back, commit_all, pack, by_key, insert_part, object_key, padded,
}
use mq.Storage.Object.Store.Slices.{join, view}
use mq.Storage.Object.Store.Steps.{Steps, Step, batches_of, Steps-whole}
use mq.Storage.Object.Store.Uploads.{whole}
use mq.Storage.Object.Recovery.{fresh_storage, replay_all}
use mq.Storage.Object.Recovery.Replays.{replay_all-view}
use mq.Storage.Object.Log.{
  Handle, enforce_retention, size, sum_sizes, drop_count, collect, has_key, new_keys,
}
use mq.Storage.Object.Log.Trims.{Trimmed, enforce_retention-Trimmed}
use mq.Storage.Object.Recovery.{ObjectLog}
use mq.Tests.Records.{batch_at}

abbrev logs : Bytes
logs = 108 ∷ []

abbrev record_at : ℕ → WalRecord
record_at o = record { topic = logs; partition = 0; base_offset = o; batch = batch_at o }

record_at-Fits : (o : ℕ) → o < 256 → Fits (record_at o)
unfolding encode_wal_payload put16 put32 put64
record_at-Fits o h = record {
  topic = omega arith;
  partition = omega arith;
  base_offset = omega arith;
  size = omega (arith, size_of_payload);
}
  where
    size_of_payload : length (encode_wal_payload (record_at o)) ≡ 76
    size_of_payload = refl

decode_wal_payload_example :
    decode_wal_payload (encode_wal_payload (record_at 7)) ≡ ok (record_at 7)
decode_wal_payload_example =
    decode-encode_wal_payload (record_at 7) (omega arith) (omega arith) (omega arith)

-- A callback that keeps the records, the last first.
abbrev keep : WalRecord → List WalRecord → Result ℕ (List WalRecord)
keep rec recs = ok (rec ∷ recs)

-- One byte of a third frame has reached the file.
one_byte-IsCut : IsCut (167 ∷ [])
unfolding frame_of put32
one_byte-IsCut = record {
  rec = record_at 4;
  missing = drop 1 (frame (record_at 4));
  fits = record_at-Fits 4 (omega arith);
  cut = omega arith;
  whole = refl;
}

nothing-IsCut : IsCut []
unfolding frame_of put32
nothing-IsCut = record {
  rec = record_at 4;
  missing = frame (record_at 4);
  fits = record_at-Fits 4 (omega arith);
  cut = omega arith;
  whole = refl;
}

abbrev two_records : List WalRecord
two_records = record_at 0 ∷ record_at 2 ∷ []

abbrev one_file : List (ℕ × Bytes)
one_file = (1, flatten (map frame two_records) ++ (167 ∷ [])) ∷ []

one_file-Logged : Logged one_file two_records
one_file-Logged =
    segment two_records (167 ∷ [])
      (record_at-Fits 0 (omega arith), (record_at-Fits 2 (omega arith), tt)) one_byte-IsCut refl
      refl no_segments

replay_segment_example : replay_segment keep (167 ∷ 1 ∷ 2 ∷ []) [] ≢ unfinished
replay_segment_example = replay_segment-ends keep (167 ∷ 1 ∷ 2 ∷ []) []

replay_segments_example :
    replay_segments keep (readable one_file) [] ≡ visit_records keep two_records []
replay_segments_example = replay_segments-Logged keep one_file two_records [] one_file-Logged

-- An object store in memory.
abbrev Objects : Type 0
Objects = Map Bytes Bytes

abbrev range : ℕ → ℕ → Option Bytes → Option Bytes
range off len none = none
range off len (some bytes) = some (take len (drop off bytes))

get-put_mem :
    (o o' : Objects) (key bytes : Bytes) (off len : ℕ)
    → some (insert key bytes o) ≡ some o'
    → 0 < len
    → off + len ≤ length bytes
    → range off len (lookup key o') ≡ some (take len (drop off bytes))
get-put_mem o o' key bytes off len e some_bytes fits =
    ap (λ x. range off len (lookup key x)) (sym (some-injective _ _ e))
    ∙ rw (lookup-insert key key bytes o, (bytes_beq_iff key key).1 refl) refl

get-put_other_mem :
    (o o' : Objects) (key other bytes : Bytes) (off len : ℕ)
    → some (insert key bytes o) ≡ some o'
    → other ≢ key
    → range off len (lookup other o') ≡ range off len (lookup other o)
get-put_other_mem o o' key other bytes off len e d =
    let apart : bytes_beq key other ≡ false = ground (arith, bytes_beq_iff key other) in
    ap (λ x. range off len (lookup other x)) (sym (some-injective _ _ e))
    ∙ rw (lookup-insert key other bytes o, apart) refl

abbrev in_memory : ObjectStore Objects
in_memory = record {
  put_in = λ o key bytes. some (insert key bytes o);
  get_from = λ o key off len. range off len (lookup key o);
  get-put = get-put_mem;
  get-put_other = get-put_other_mem;
}

abbrev start : Storage Objects MemIndexStore
start = fresh_storage [] [] logs 0 []

abbrev key_of_logs : Bytes
key_of_logs = 108 ∷ 0 ∷ 48 ∷ []

abbrev Run : Type 0
Run = Flight × Storage Objects MemIndexStore

abbrev and_append : ℕ → Run → Run
and_append o (fl, s) = (fl, (append wrote s (record_at o) (o + 2)).1)

abbrev go : Rotate → Run → Run
go disk x = upload_step in_memory mem_index_store disk 5 x

-- The first upload fails to seal the log, with an append behind its snapshot; the second goes
-- through, with an append between its put and its commits.
abbrev put_back : Run
put_back = go not_closed (and_append 2 (go rotated (and_append 0 (over true, start))))

abbrev through : Run
through = go rotated (and_append 4 (go rotated (go rotated (go rotated put_back))))

abbrev three_records : List WalRecord
three_records = record_at 0 ∷ record_at 2 ∷ record_at 4 ∷ []

through-Steps : Steps in_memory mem_index_store (over true, start) through three_records
unfolding append append_pending begin_upload seal put_object finish Wal.rotate Wal.append pack
    by_key insert_part commit_all merge_back lookup insert commit load object_key padded open_wal
    open_segment next_seq append_to delete_through insert_ref sort_refs dropped_up_to itoa digits
through-Steps =
    Steps.more
      (Steps.more
        (Steps.more
          (Steps.more
            (Steps.more
              (Steps.more
                (Steps.more
                  (Steps.more
                    (Steps.more Steps.none_yet
                      (Step.appends wrote (record_at 0) 2 refl (omega arith)) refl)
                    Step.begins refl)
                  (Step.appends wrote (record_at 2) 4 refl (omega arith)) refl)
                (Step.seals not_closed) refl)
              Step.begins refl)
            (Step.seals rotated) refl)
          (Step.puts 5 (λ k. tt)) refl)
        (Step.appends wrote (record_at 4) 6 refl (omega arith)) refl)
      (Step.finishes refl) refl

steps_whole_example :
    whole in_memory mem_index_store through key_of_logs
    ≡ join
        (whole in_memory mem_index_store (over true, start) key_of_logs)
        (some (batches_of key_of_logs three_records))
steps_whole_example =
    Steps-whole in_memory mem_index_store (over true, start) through three_records key_of_logs
      through-Steps
      (record {
        snap = record { distinct = tt; parts = tt };
        pending = record { distinct = tt; parts = tt };
        placed = tt;
      })

abbrev restarted : Storage Objects MemIndexStore
restarted = fresh_storage [] [] logs 0 one_file

restarted-Logged : Logged restarted.wal.segs two_records
unfolding open_wal next_seq open_segment
restarted-Logged =
    segment two_records (167 ∷ [])
      (record_at-Fits 0 (omega arith), (record_at-Fits 2 (omega arith), tt)) one_byte-IsCut refl
      refl (segment [] [] tt nothing-IsCut refl refl no_segments)

replay_all_example :
    (s' : Storage Objects MemIndexStore) × (replay_all readable restarted ≡ replayed s')
    × (view in_memory mem_index_store s' key_of_logs
        ≡ join
            (view in_memory mem_index_store restarted key_of_logs)
            (some (batches_of key_of_logs two_records)))
unfolding parse_header read_header
replay_all_example =
    replay_all-view in_memory mem_index_store restarted two_records key_of_logs restarted-Logged
      ((read_header (batch_at 0), refl), ((read_header (batch_at 2), refl), tt))

abbrev ref_up_to : ℕ → ℕ → SegmentRef
ref_up_to next n = record {
  key = logs;
  base_offset = 0;
  next_offset = next;
  position = 0;
  size = n;
  uploaded_ms = 1;
}

abbrev three_refs : List SegmentRef
three_refs = ref_up_to 2 40 ∷ ref_up_to 4 30 ∷ ref_up_to 6 20 ∷ []

-- 90 bytes in three objects, and nothing pending.
abbrev uploaded : Storage Objects MemIndexStore
uploaded = record start { index = record { store = []; refs = (key_of_logs, three_refs) ∷ [] } }

abbrev log_of_logs : ObjectLog
log_of_logs = record {
  topic = logs;
  partition = 0;
  next_offset = 6;
  high_watermark = 6;
  hold_hwm = false;
  earliest = 0;
}

abbrev keep_object : Bytes → Objects → Objects
keep_object key o = o

abbrev after_retention : Handle Objects MemIndexStore
after_retention = (enforce_retention mem_index_store keep_object 9 0 55 (log_of_logs, uploaded)).1

retention_example :
    Trimmed mem_index_store keep_object 0 55 0 three_refs (refs_for after_retention.1.index logs 0)
unfolding enforce_retention prune size sum_sizes drop_count lookup itoa digits collect has_key
    new_keys
retention_example =
    enforce_retention-Trimmed mem_index_store keep_object 9 0 55 log_of_logs uploaded
      after_retention refl
      (omega arith, omega arith, (omega arith, omega arith, (omega arith, omega arith, tt)))
      (omega arith) (omega arith) (omega arith)
