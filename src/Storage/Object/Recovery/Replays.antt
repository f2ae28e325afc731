-- ===== src/Storage/Object/Recovery/Replays.antt =====
-- internal/storage/object/storage.go (replay): nothing that the log holds is lost in a restart.
use mq.Common.{
  ◌≡◌, refl, sym, ap, ◌∙◌, some, List, [], ◌∷◌, ◌++◌, Bytes, All, add64, ok, append-nil,
  if◌then◌else◌,
}
use mq.Common.Keys.{bytes_beq}
use mq.Controller.Fsm.{seg_key}
use mq.Record.Batch.{BatchHeader, parse_header, last_offset}
use mq.Storage.Object.Index.{IndexStore}
use mq.Storage.Object.Wal.{WalRecord, replayed, and_then, called}
use mq.Storage.Object.Wal.Replays.{visit_records}
use mq.Storage.Object.Wal.Segments.{Logged, readable, replay_segments-Logged}
use mq.Storage.Object.Store.{ObjectStore, Storage, append_pending}
use mq.Storage.Object.Store.Slices.{join, join_assoc, join-nil, view}
use mq.Storage.Object.Store.Uploads.{view-append_pending}
use mq.Storage.Object.Store.Steps.{batches_of, one_batch}
use mq.Storage.Object.Recovery.{note_recovered, reload, reload_parsed, replay_all}

-- The batch of the record has a header.
abbrev pub HasHeader : WalRecord → Type 0
HasHeader rec = (h : BatchHeader) × (parse_header rec.batch ≡ ok h)

module _ {O I : Type 0} (os : ObjectStore O) (st : IndexStore I) where
  reload_one :
      (rec : WalRecord) (recs : List WalRecord) (s : Storage O I) (k : Bytes) (h : BatchHeader)
      → parse_header rec.batch ≡ ok h
      → (s1 : Storage O I) × (visit_records reload (rec ∷ recs) s ≡ visit_records reload recs s1)
        × (view os st s1 k ≡ join (view os st s k) (some (batches_of k (rec ∷ []))))
  reload_one rec recs s k h e =
      let next = add64 (last_offset h) 1 in
      (
        note_recovered rec next (append_pending s rec next),
        ap (λ r. and_then (called (reload_parsed rec s r)) (visit_records reload recs)) e,
        view-append_pending os st s rec next k ∙ one_batch os st (view os st s k) k rec,
      )

  visit-view :
      (recs : List WalRecord) (s : Storage O I) (k : Bytes)
      → All HasHeader recs
      → (s' : Storage O I) × (visit_records reload recs s ≡ replayed s')
        × (view os st s' k ≡ join (view os st s k) (some (batches_of k recs)))
  visit-view [] s k h = (s, refl, sym (join-nil (view os st s k)))
  visit-view (rec ∷ recs) s k ((h, e), hs) =
      let (s1, run, one) = reload_one rec recs s k h e in
      let (s', rest, all) = visit-view recs s1 k hs in
      let mine = batches_of k (rec ∷ []) in
      (
        s',
        run ∙ rest,
        all
            ∙ ap (λ x. join x (some (batches_of k recs))) one
            ∙ join_assoc (view os st s k) (some mine) (some (batches_of k recs))
            ∙ ap (λ x. join (view os st s k) (some (x ++ batches_of k recs)))
                (append-nil
                  (if bytes_beq (seg_key rec.topic rec.partition) k then rec.batch else [])),
      )

  -- The replay at the start, over a log whose segments hold the frames of some records, each segment
  -- perhaps cut by a crash: it succeeds, and each partition holds, behind what the storage had, the
  -- batches of exactly these records, in order. The records' batches have headers.
  pub replay_all-view :
      (s : Storage O I) (recs : List WalRecord) (k : Bytes)
      → Logged s.wal.segs recs
      → All HasHeader recs
      → (s' : Storage O I) × (replay_all readable s ≡ replayed s')
        × (view os st s' k ≡ join (view os st s k) (some (batches_of k recs)))
  unfolding replay_all
  replay_all-view s recs k l h =
      let (s', run, same) = visit-view recs s k h in
      (s', replay_segments-Logged reload s.wal.segs recs s l ∙ run, same)
