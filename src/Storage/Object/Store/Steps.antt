-- ===== src/Storage/Object/Store/Steps.antt =====
-- internal/storage/object/storage.go: the storage refines one string of bytes for each partition,
-- whatever appends come between the steps of an upload.
use mathlib.Core.Path.{subst}
use mq.Common.{
  ℕ, ◌<◌, ◌≡◌, ◌==◌, refl, sym, ap, ◌∙◌, Bool, true, false, Option, none, some, List, [], ◌∷◌, ◌++◌,
  Bytes, Int64, if◌then◌else◌, Bool-cases, inl, inr, length, append-nil, append_assoc,
}
use mq.Common.Keys.{bytes_eq, bytes_beq}
use mq.Controller.Fsm.{seg_key}
use mq.Storage.Object.Index.{IndexStore, refs_in}
use mq.Storage.Object.Wal
use mq.Storage.Object.Wal.{Wal, WalRecord, Rotate, rotate, Write}
use mq.Storage.Object.Store.{
  ObjectStore, Storage, Pending, Commit, Flight, over, snapped, sealed, stored, pack, by_key,
  append_pending, append, appended, begin_upload, sealed_with, seal, put_with, put_object, finish,
}
use mq.Storage.Object.Store.Slices.{join, join_assoc, join-nil, Unused}
use mq.Storage.Object.Store.Uploads.{
  snap_of, whole, IsStored, whole-append_pending, whole-begin_upload, whole-seal, whole-put_object,
  whole-finish, finish-pending,
}
use mq.Storage.Object.Store.Tidy.{IsTidy, merge_back-IsTidy, append_pending-IsTidy}

abbrev pub taken_in : Option WalRecord → List WalRecord
taken_in none = []
taken_in (some rec) = rec ∷ []

-- The batches of the partition, in order.
abbrev pub batches_of : Bytes → List WalRecord → Bytes
batches_of k [] = []
batches_of k (rec ∷ recs) =
    (if bytes_beq (seg_key rec.topic rec.partition) k then rec.batch else []) ++ batches_of k recs

batches_of-append :
    (k : Bytes) (xs ys : List WalRecord)
    → batches_of k (xs ++ ys) ≡ batches_of k xs ++ batches_of k ys
batches_of-append k [] ys = refl
batches_of-append k (rec ∷ xs) ys =
    let b = if bytes_beq (seg_key rec.topic rec.partition) k then rec.batch else [] in
    ap (λ x. b ++ x) (batches_of-append k xs ys)
    ∙ sym (append_assoc b (batches_of k xs) (batches_of k ys))

nothing-IsTidy : IsTidy []
nothing-IsTidy = record { distinct = tt; parts = tt }

module _ {O I : Type 0} (os : ObjectStore O) (st : IndexStore I) where
  -- What the node does to its storage, and the record that it takes in. An append comes at any
  -- point of an upload.
  pub data Step : Flight × Storage O I → Flight × Storage O I → Option WalRecord → Type 0 where
    appends :
        {fl : Flight} {s s' : Storage O I} (disk : Write) (rec : WalRecord) (next : Int64)
        → append disk s rec next ≡ (true, s')
        → 0 < length rec.batch
        → Step (fl, s) (fl, s') (some rec)
    append_fails :
        {fl : Flight} {s s' : Storage O I} (disk : Write) (rec : WalRecord) (next : Int64)
        → append disk s rec next ≡ (false, s')
        → Step (fl, s) (fl, s') none
    begins : {fine : Bool} {s : Storage O I} → Step (over fine, s) (begin_upload s) none
    seals :
        {snap : Pending} {key : Bytes} {s : Storage O I} (disk : Rotate)
        → Step (snapped snap key, s) (seal disk snap key s) none
    puts :
        {snap : Pending} {key : Bytes} {seq : ℕ} {s : Storage O I} (now : Int64)
        → ((k : Bytes) → Unused os key (refs_in k s.index.refs))
        → Step (sealed snap key seq, s) (put_object os st now snap key seq s) none
    finishes :
        {snap : Pending} {commits : List Commit} {seq : ℕ} {s s' : Storage O I}
        → finish os st commits seq s ≡ (over true, s')
        → Step (stored snap commits seq, s) (over true, s') none

  -- The records that came in, in order.
  pub data Steps (x : Flight × Storage O I) : Flight × Storage O I → List WalRecord → Type 0 where
    none_yet : Steps x x []
    more :
        {y z : Flight × Storage O I} {recs all : List WalRecord} {r : Option WalRecord}
        → Steps x y recs
        → Step y z r
        → all ≡ recs ++ taken_in r
        → Steps x z all

  -- After the put, the object is there.
  abbrev Placed : Flight × Storage O I → Type 0
  Placed (over fine, s) = Unit
  Placed (snapped snap key, s) = Unit
  Placed (sealed snap key seq, s) = Unit
  Placed (stored snap commits seq, s) = IsStored os st snap commits s

  -- The snapshot and the pending parts are tidy.
  pub record IsSound (x : Flight × Storage O I) : Type 0 where
    pub snap : IsTidy (snap_of x.0)
    pub pending : IsTidy x.1.pending
    pub placed : Placed x

  append_done :
      (disk : Write) (s s' : Storage O I) (rec : WalRecord) (next : Int64) (r : Bool × Wal)
      → appended s rec next r ≡ (true, s')
      → s' ≡ append_pending (record s { wal = r.1 }) rec next
  append_done disk s s' rec next (false, w) e = absurd (cc (e))
  append_done disk s s' rec next (true, w) e = ap (λ (x : Bool × Storage O I). x.1) (sym e)

  append_lost :
      (disk : Write) (s s' : Storage O I) (rec : WalRecord) (next : Int64) (r : Bool × Wal)
      → appended s rec next r ≡ (false, s')
      → s' ≡ record s { wal = r.1 }
  append_lost disk s s' rec next (true, w) e = absurd (cc (e))
  append_lost disk s s' rec next (false, w) e = ap (λ (x : Bool × Storage O I). x.1) (sym e)

  Placed-append_pending :
      (fl : Flight) (s : Storage O I) (w : Wal) (rec : WalRecord) (next : Int64)
      → Placed (fl, s)
      → Placed (fl, append_pending (record s { wal = w }) rec next)
  unfolding append_pending
  Placed-append_pending (over fine) s w rec next h = tt
  Placed-append_pending (snapped snap key) s w rec next h = tt
  Placed-append_pending (sealed snap key seq) s w rec next h = tt
  Placed-append_pending (stored snap commits seq) s w rec next h = record {
    before = h.before;
    key = h.key;
    now = h.now;
    put = h.put;
    packed = h.packed;
  }

  Placed-log :
      (fl : Flight) (s : Storage O I) (w : Wal) → Placed (fl, s) → Placed (fl, record s { wal = w })
  Placed-log (over fine) s w h = tt
  Placed-log (snapped snap key) s w h = tt
  Placed-log (sealed snap key seq) s w h = tt
  Placed-log (stored snap commits seq) s w h = record {
    before = h.before;
    key = h.key;
    now = h.now;
    put = h.put;
    packed = h.packed;
  }

  begin_upload-IsSound : (s : Storage O I) → IsTidy s.pending → IsSound (begin_upload s)
  unfolding begin_upload
  begin_upload-IsSound s t = elim (Bool-cases (length s.pending == 0)) [
    | inl e ↦ rw e (record { snap = nothing-IsTidy; pending = t; placed = tt })
    | inr e ↦ rw e (record { snap = t; pending = nothing-IsTidy; placed = tt })
  ]

  sealed_with-IsSound :
      (snap : Pending) (key : Bytes) (s : Storage O I) (r : Option ℕ × Wal)
      → IsTidy snap
      → IsTidy s.pending
      → IsSound (sealed_with snap key s r)
  sealed_with-IsSound snap key s (none, w) t u = record {
    snap = nothing-IsTidy;
    pending = merge_back-IsTidy snap s.pending t.parts u;
    placed = tt;
  }
  sealed_with-IsSound snap key s (some seq, w) t u = record { snap = t; pending = u; placed = tt }

  put_with-IsSound :
      (now : Int64) (snap : Pending) (key : Bytes) (seq : ℕ) (s : Storage O I) (o : Option O)
      → os.put_in s.objects key (pack key now 0 (by_key snap)).1 ≡ o
      → IsTidy snap
      → IsTidy s.pending
      → IsSound (put_with os st snap (pack key now 0 (by_key snap)).0 seq s o)
  put_with-IsSound now snap key seq s none e t u = record {
    snap = nothing-IsTidy;
    pending = merge_back-IsTidy snap s.pending t.parts u;
    placed = tt;
  }
  put_with-IsSound now snap key seq s (some o) e t u = record {
    snap = t;
    pending = u;
    placed = record { before = s.objects; key = key; now = now; put = e; packed = refl };
  }

  Step-IsSound :
      {x y : Flight × Storage O I} {r : Option WalRecord} → Step x y r → IsSound x → IsSound y
  unfolding append seal put_object
  Step-IsSound (appends {fl} {s} {s'} disk rec next run some_bytes) h =
      let w = (Wal.append disk s.wal rec).1 in
      subst (λ (t : Storage O I). IsSound (fl, t))
        (sym (append_done disk s s' rec next (Wal.append disk s.wal rec) run))
        (record {
          snap = h.snap;
          pending = append_pending-IsTidy (record s { wal = w }) rec next h.pending some_bytes;
          placed = Placed-append_pending fl s w rec next h.placed;
        })
  Step-IsSound (append_fails {fl} {s} {s'} disk rec next run) h =
      let w = (Wal.append disk s.wal rec).1 in
      subst (λ (t : Storage O I). IsSound (fl, t))
        (sym (append_lost disk s s' rec next (Wal.append disk s.wal rec) run))
        (record { snap = h.snap; pending = h.pending; placed = Placed-log fl s w h.placed })
  Step-IsSound (begins {fine} {s}) h = begin_upload-IsSound s h.pending
  Step-IsSound (seals {snap} {key} {s} disk) h =
      sealed_with-IsSound snap key s (rotate disk s.wal) h.snap h.pending
  Step-IsSound (puts {snap} {key} {seq} {s} now fresh) h =
      put_with-IsSound now snap key seq s (os.put_in s.objects key (pack key now 0 (by_key snap)).1)
        refl h.snap h.pending
  Step-IsSound (finishes {snap} {commits} {seq} {s} {s'} run) h = record {
    snap = nothing-IsTidy;
    pending = subst IsTidy (sym (finish-pending os st commits seq s s' run)) h.pending;
    placed = tt;
  }

  pub one_batch :
      (x : Option Bytes) (k : Bytes) (rec : WalRecord)
      → (if bytes_beq (seg_key rec.topic rec.partition) k then join x (some rec.batch) else x)
        ≡ join x (some (batches_of k (rec ∷ [])))
  one_batch x k rec = elim (Bool-cases (bytes_beq (seg_key rec.topic rec.partition) k)) [
    | inl e ↦ rw e (ap (λ b. join x (some b)) (sym (append-nil rec.batch)))
    | inr e ↦ rw e (sym (join-nil x))
  ]

  Step-whole :
      {x y : Flight × Storage O I} {r : Option WalRecord} (k : Bytes)
      → Step x y r
      → IsSound x
      → whole os st y k ≡ join (whole os st x k) (some (batches_of k (taken_in r)))
  unfolding append
  Step-whole k (appends {fl} {s} {s'} disk rec next run some_bytes) h =
      let w = Wal.append disk s.wal rec in
      ap (λ t. whole os st (fl, t) k) (append_done disk s s' rec next w run)
      ∙ whole-append_pending os st fl (record s { wal = w.1 }) rec next k
      ∙ one_batch (whole os st (fl, s) k) k rec
  Step-whole k (append_fails {fl} {s} {s'} disk rec next run) h =
      ap (λ t. whole os st (fl, t) k)
        (append_lost disk s s' rec next (Wal.append disk s.wal rec) run)
      ∙ sym (join-nil (whole os st (fl, s) k))
  Step-whole k (begins {fine} {s}) h =
      whole-begin_upload os st fine s k ∙ sym (join-nil (whole os st (over fine, s) k))
  Step-whole k (seals {snap} {key} {s} disk) h =
      whole-seal os st disk snap key s k h.snap.distinct
      ∙ sym (join-nil (whole os st (snapped snap key, s) k))
  Step-whole k (puts {snap} {key} {seq} {s} now fresh) h =
      whole-put_object os st now snap key seq s k h.snap.distinct (fresh k)
      ∙ sym (join-nil (whole os st (sealed snap key seq, s) k))
  Step-whole k (finishes {snap} {commits} {seq} {s} {s'} run) h =
      whole-finish os st snap commits seq s s' k h.snap h.placed run
      ∙ sym (join-nil (whole os st (stored snap commits seq, s) k))

  Steps-IsSound :
      {x y : Flight × Storage O I} {recs : List WalRecord} → Steps x y recs → IsSound x → IsSound y
  Steps-IsSound none_yet h = h
  Steps-IsSound (more steps step e) h = Step-IsSound step (Steps-IsSound steps h)

  -- From a sound state, after any sequence of appends of non-empty batches, failed appends, and
  -- steps of uploads, with appends between these steps, where an upload takes a snapshot, may fail
  -- to seal the log or to put its object, puts it under a key that no reference names yet, and
  -- commits all its parts once it is put: what each partition holds, read from the objects, the
  -- snapshot on its way and the pending batches together, is what it held before, and behind it
  -- the batches that came in, in order.
  pub Steps-whole :
      (x y : Flight × Storage O I) (recs : List WalRecord) (k : Bytes)
      → Steps x y recs
      → IsSound x
      → whole os st y k ≡ join (whole os st x k) (some (batches_of k recs))
  Steps-whole x y recs k none_yet h = sym (join-nil (whole os st x k))
  Steps-whole x z all k (more {y = y} {recs = recs} {r = r} steps step e) h =
      Step-whole k step (Steps-IsSound steps h)
      ∙ ap (λ v. join v (some (batches_of k (taken_in r)))) (Steps-whole x y recs k steps h)
      ∙ join_assoc (whole os st x k) (some (batches_of k recs)) (some (batches_of k (taken_in r)))
      ∙ ap (λ v. join (whole os st x k) (some v))
          (sym (ap (batches_of k) e ∙ batches_of-append k recs (taken_in r)))
