-- ===== src/Storage/Object/Store/Uploads.antt =====
-- internal/storage/object/storage.go: an append adds to what a partition holds, and the steps of an
-- upload only move it, whatever appends come between them.
use mathlib.Core.Path.{subst}
use mq.Common.{
  List, append-nil, append_assoc, ℕ, ◌≡◌, ◌==◌, refl, sym, ap, ◌∙◌, Bool, true, false, Option, none,
  some, [], ◌++◌, Bytes, Int64, if◌then◌else◌, Bool-cases, inl, inr, length,
}
use mq.Common.Keys.{lookup, lookup-insert, bytes_eq, bytes_beq, bytes_beq_iff}
use mq.Controller.Fsm.{seg_key}
use mq.Storage.Object.Index.{Index, IndexStore, refs_in}
use mq.Storage.Object.Wal.{Wal, WalRecord, Rotate, rotate}
use mq.Storage.Object.Store.{
  ObjectStore, Storage, pack, by_key, append_pending, with_batch, or_fresh, restore, commit_all,
  trimmed, merge_back, Pending, Commit, Flight, over, snapped, sealed, stored, finish, put_with,
  put_object, sealed_with, seal, begin_upload,
}
use mq.Storage.Object.Store.Parts.{
  Distinct, lookup-by_key, Distinct-by_key, All-by_key, lookup-merge_back,
}
use mq.Storage.Object.Store.Slices.{
  join, join_assoc, pending_in, pending_in-with_batch, pending_in-joined, IsPart, slices, Unused,
  slices-put, view, commit_all-slices,
}
use mq.Storage.Object.Store.Tidy.{IsTidy}

abbrev pub snap_of : Flight → Pending
snap_of (over fine) = []
snap_of (snapped snap key) = snap
snap_of (sealed snap key seq) = snap
snap_of (stored snap commits seq) = snap

-- The pending bytes of a partition: those in the upload's snapshot, and behind them the later ones.
abbrev pub unstored : Flight → Pending → Bytes → Bytes
unstored fl pending k = pending_in (lookup k (snap_of fl)) ++ pending_in (lookup k pending)

unstored-over :
    (fine : Bool) (pending : Pending) (k : Bytes)
    → unstored (over fine) pending k ≡ pending_in (lookup k pending)
unfolding lookup
unstored-over fine pending k = refl

merged-unstored :
    (k : Bytes) (snap pending : Pending)
    → Distinct snap
    → pending_in (lookup k (merge_back snap pending))
      ≡ pending_in (lookup k snap) ++ pending_in (lookup k pending)
merged-unstored k snap pending d =
    ap pending_in (lookup-merge_back k snap pending d)
    ∙ pending_in-joined (lookup k snap) (lookup k pending)

module _ {O I : Type 0} (os : ObjectStore O) (st : IndexStore I) where
  -- All that a partition holds, from its oldest object over the snapshot of an upload that is on its
  -- way to its last pending batch; `none` if an object cannot be read.
  abbrev pub whole : Flight × Storage O I → Bytes → Option Bytes
  whole (fl, s) k =
      join (slices os s.objects (refs_in k s.index.refs)) (some (unstored fl s.pending k))

  -- With no upload on its way, what a partition holds is in its objects and its pending batches.
  pub whole-view :
      (fine : Bool) (s : Storage O I) (k : Bytes) → whole (over fine, s) k ≡ view os st s k
  whole-view fine s k =
      ap (λ x. join (slices os s.objects (refs_in k s.index.refs)) (some x))
        (unstored-over fine s.pending k)

  -- A batch that is appended stands behind all that its partition held, and no other partition is
  -- touched.
  pub whole-append_pending :
      (fl : Flight) (s : Storage O I) (rec : WalRecord) (next : Int64) (k : Bytes)
      → whole (fl, append_pending s rec next) k ≡ (
          if bytes_beq (seg_key rec.topic rec.partition) k
          then join (whole (fl, s) k) (some rec.batch)
          else whole (fl, s) k)
  unfolding append_pending
  whole-append_pending fl s rec next k =
      let key = seg_key rec.topic rec.partition in
      let up = slices os s.objects (refs_in k s.index.refs) in
      let front = pending_in (lookup k (snap_of fl)) in
      let new = with_batch rec next (or_fresh rec (lookup key s.pending)) in
      let read = lookup-insert key k new s.pending in
      elim (Bool-cases (bytes_beq key k)) [
        | inl e ↦
            let same : key ≡ k = (bytes_beq_iff key k).0 e in
            rw (read, e)
              (ap (λ x. join up (some (front ++ x)))
                  (pending_in-with_batch rec next (lookup key s.pending))
                ∙ ap (λ x. join up (some (front ++ (pending_in (lookup x s.pending) ++ rec.batch))))
                    same
                ∙ ap (λ x. join up (some x))
                    (sym (append_assoc front (pending_in (lookup k s.pending)) rec.batch))
                ∙ sym (join_assoc up (some (unstored fl s.pending k)) (some rec.batch)))
        | inr e ↦ rw (read, e) refl
      ]

  pub view-append_pending :
      (s : Storage O I) (rec : WalRecord) (next : Int64) (k : Bytes)
      → view os st (append_pending s rec next) k ≡ (
          if bytes_beq (seg_key rec.topic rec.partition) k
          then join (view os st s k) (some rec.batch)
          else view os st s k)
  view-append_pending s rec next k =
      sym (whole-view true (append_pending s rec next) k)
      ∙ whole-append_pending (over true) s rec next k
      ∙ ap
          (λ v.
            if bytes_beq (seg_key rec.topic rec.partition) k then join v (some rec.batch) else v)
          (whole-view true s k)

  -- The snapshot goes back in front of what has come since it was taken.
  whole-restore :
      (fine : Bool) (snap : Pending) (s : Storage O I) (k : Bytes)
      → Distinct snap
      → whole (over fine, restore snap s) k
        ≡ join
            (slices os s.objects (refs_in k s.index.refs))
            (some (unstored (snapped snap []) s.pending k))
  whole-restore fine snap s k d =
      ap (λ x. join (slices os s.objects (refs_in k s.index.refs)) (some x))
        (unstored-over fine (merge_back snap s.pending) k ∙ merged-unstored k snap s.pending d)

  pub whole-begin_upload :
      (fine : Bool) (s : Storage O I) (k : Bytes)
      → whole (begin_upload s) k ≡ whole (over fine, s) k
  unfolding begin_upload lookup
  whole-begin_upload fine s k = elim (Bool-cases (length s.pending == 0)) [
    | inl e ↦ rw e refl
    | inr e ↦ rw e (
        ap (λ x. join (slices os s.objects (refs_in k s.index.refs)) (some x))
          (append-nil (pending_in (lookup k s.pending))))
  ]

  whole-sealed_with :
      (snap : Pending) (key : Bytes) (s : Storage O I) (r : Option ℕ × Wal) (k : Bytes)
      → Distinct snap
      → whole (sealed_with snap key s r) k ≡ whole (snapped snap key, s) k
  whole-sealed_with snap key s (none, w) k d = whole-restore false snap (record s { wal = w }) k d
  whole-sealed_with snap key s (some seq, w) k d = refl

  pub whole-seal :
      (disk : Rotate) (snap : Pending) (key : Bytes) (s : Storage O I) (k : Bytes)
      → Distinct snap
      → whole (seal disk snap key s) k ≡ whole (snapped snap key, s) k
  unfolding seal
  whole-seal disk snap key s k d = whole-sealed_with snap key s (rotate disk s.wal) k d

  whole-put_with :
      (snap : Pending) (commits : List Commit) (key bytes : Bytes) (seq : ℕ) (s : Storage O I)
      (o : Option O) (k : Bytes)
      → Distinct snap
      → os.put_in s.objects key bytes ≡ o
      → Unused os key (refs_in k s.index.refs)
      → whole (put_with os st snap commits seq s o) k ≡ whole (sealed snap key seq, s) k
  whole-put_with snap commits key bytes seq s none k d put u = whole-restore false snap s k d
  whole-put_with snap commits key bytes seq s (some o) k d put u =
      ap (λ x. join x (some (unstored (sealed snap key seq) s.pending k)))
        (slices-put os s.objects o key bytes (refs_in k s.index.refs) put u)

  pub whole-put_object :
      (now : Int64) (snap : Pending) (key : Bytes) (seq : ℕ) (s : Storage O I) (k : Bytes)
      → Distinct snap
      → Unused os key (refs_in k s.index.refs)
      → whole (put_object os st now snap key seq s) k ≡ whole (sealed snap key seq, s) k
  unfolding put_object
  whole-put_object now snap key seq s k d u =
      let packed = pack key now 0 (by_key snap) in
      whole-put_with snap packed.0 key packed.1 seq s (os.put_in s.objects key packed.1) k d refl u

  -- The object that holds a snapshot has been put, and the commits are those of its parts.
  pub record IsStored (snap : Pending) (commits : List Commit) (s : Storage O I) : Type 0 where
    pub before : O
    pub key : Bytes
    pub now : Int64
    pub put : os.put_in before key (pack key now 0 (by_key snap)).1 ≡ some s.objects
    pub packed : commits ≡ (pack key now 0 (by_key snap)).0

  -- What is left of a run that reports success.
  trimmed_done :
      (s s' : Storage O I) (seq : ℕ) (r : Bool × Index I)
      → trimmed os st s seq r ≡ (over true, s')
      → (r ≡ (true, s'.index)) × (s'.objects ≡ s.objects) × (s'.pending ≡ s.pending)
  trimmed_done s s' seq (false, ix) e = absurd (cc (e))
  trimmed_done s s' seq (true, ix) e = (
    ap (λ (x : Flight × Storage O I). (true, x.1.index)) e,
    ap (λ (x : Flight × Storage O I). x.1.objects) (sym e),
    ap (λ (x : Flight × Storage O I). x.1.pending) (sym e),
  )

  pub finish-pending :
      (commits : List Commit) (seq : ℕ) (s s' : Storage O I)
      → finish os st commits seq s ≡ (over true, s')
      → s'.pending ≡ s.pending
  unfolding finish
  finish-pending commits seq s s' run =
      (trimmed_done s s' seq (commit_all os st commits s.index) run).2

  pub whole-finish :
      (snap : Pending) (commits : List Commit) (seq : ℕ) (s s' : Storage O I) (k : Bytes)
      → IsTidy snap
      → IsStored snap commits s
      → finish os st commits seq s ≡ (over true, s')
      → whole (over true, s') k ≡ whole (stored snap commits seq, s) k
  unfolding finish
  whole-finish snap commits seq s s' k t h run =
      let (all, objects, pending) = trimmed_done s s' seq (commit_all os st commits s.index) run in
      let done = subst (λ cs. commit_all os st cs s.index ≡ (true, s'.index)) h.packed all in
      let late = pending_in (lookup k s.pending) in
      let moved =
        commit_all-slices os st h.before s.objects h.key (pack h.key h.now 0 (by_key snap)).1 h.now
          h.put (by_key snap) [] s.index s'.index k refl done (Distinct-by_key snap t.distinct)
          (All-by_key IsPart snap t.parts) in
      whole-view true s' k
      ∙ ap
          (λ x.
            join (slices os x (refs_in k s'.index.refs)) (some (pending_in (lookup k s'.pending))))
          objects
      ∙ ap
          (λ x.
            join (slices os s.objects (refs_in k s'.index.refs)) (some (pending_in (lookup k x))))
          pending
      ∙ ap (λ x. join x (some late)) moved
      ∙ join_assoc (slices os s.objects (refs_in k s.index.refs))
          (some (pending_in (lookup k (by_key snap)))) (some late)
      ∙ ap (λ x. join (slices os s.objects (refs_in k s.index.refs)) (some (pending_in x ++ late)))
          (lookup-by_key k snap t.distinct)
