-- ===== src/Storage/Object/Store/Slices.antt =====
-- internal/storage/object/storage.go: what a partition holds, wherever its records are, and where an
-- upload puts its parts.
use mathlib.Core.Path.{subst}
use mathlib.Core.Option.{some-injective}
use mq.Common.{
  ℕ, ◌+◌, ◌<◌, ◌≤◌, ◌≡◌, ◌≢◌, refl, sym, ap, ◌∙◌, Bool, true, false, Option, none, some, List, [],
  ◌∷◌, ◌++◌, Bytes, Int64, All, if◌then◌else◌, arith, Bool-cases, inl, inr, Option-cases, length,
  take, drop, flatten, append_assoc, append-nil, flatten-append, length-append, take-length,
  drop-length,
}
use mq.Common.Keys.{lookup, lookup-insert, bytes_eq, bytes_beq, bytes_beq_iff}
use mq.Controller.Fsm.{SegmentRef, seg_key}
use mq.Storage.Object.Index.{Index, IndexStore, refs_in, committed, commit}
use mq.Storage.Object.Wal.{WalRecord}
use mq.Storage.Object.Store.{
  ObjectStore, PendingPart, Pending, Storage, ref_of, pack, with_batch, or_fresh, commit_all,
}
use mq.Storage.Object.Store.Parts.{Distinct, joined}

-- Two pieces, if both can be read.
abbrev pub join : Option Bytes → Option Bytes → Option Bytes
join none y = none
join (some x) none = none
join (some x) (some y) = some (x ++ y)

pub join_assoc : (x y z : Option Bytes) → join (join x y) z ≡ join x (join y z)
join_assoc none y z = refl
join_assoc (some x) none z = refl
join_assoc (some x) (some y) none = refl
join_assoc (some x) (some y) (some z) = ap some (append_assoc x y z)

pub join-nil : (x : Option Bytes) → join x (some []) ≡ x
join-nil none = refl
join-nil (some x) = ap some (append-nil x)

abbrev pub pending_in : Option PendingPart → Bytes
pending_in none = []
pending_in (some pp) = flatten pp.batches

pub pending_in-with_batch :
    (rec : WalRecord) (next : Int64) (o : Option PendingPart)
    → flatten (with_batch rec next (or_fresh rec o)).batches ≡ pending_in o ++ rec.batch
pending_in-with_batch rec next none = append-nil rec.batch
pending_in-with_batch rec next (some pp) =
    flatten-append pp.batches (rec.batch ∷ [])
    ∙ ap (λ x. flatten pp.batches ++ x) (append-nil rec.batch)

pub pending_in-joined :
    (o cur : Option PendingPart) → pending_in (joined o cur) ≡ pending_in o ++ pending_in cur
pending_in-joined none cur = refl
pending_in-joined (some pp) none = sym (append-nil (flatten pp.batches))
pending_in-joined (some pp) (some cur) = flatten-append pp.batches cur.batches

-- The key of a part is that of its topic and partition, and no part is without bytes.
abbrev pub IsPart : Bytes × PendingPart → Type 0
IsPart (k, pp) = (seg_key pp.topic pp.partition ≡ k) × (0 < length (flatten pp.batches))

module _ {O : Type 0} (os : ObjectStore O) where
  -- The slices that some references name, one after another.
  abbrev pub slices : O → List SegmentRef → Option Bytes
  slices o [] = some []
  slices o (r ∷ refs) = join (os.get_from o r.key r.position r.size) (slices o refs)

  slices-append :
      (o : O) (xs ys : List SegmentRef) → slices o (xs ++ ys) ≡ join (slices o xs) (slices o ys)
  slices-append o [] ys = one (slices o ys)
    where
      one : (x : Option Bytes) → x ≡ join (some []) x
      one none = refl
      one (some x) = refl
  slices-append o (r ∷ xs) ys =
      ap (join (os.get_from o r.key r.position r.size)) (slices-append o xs ys)
      ∙ sym (join_assoc (os.get_from o r.key r.position r.size) (slices o xs) (slices o ys))

  -- No reference names the object.
  abbrev pub Unused : Bytes → List SegmentRef → Type 0
  Unused key refs = All (λ (r : SegmentRef). r.key ≢ key) refs

  pub slices-put :
      (o o' : O) (key bytes : Bytes) (refs : List SegmentRef)
      → os.put_in o key bytes ≡ some o'
      → Unused key refs
      → slices o' refs ≡ slices o refs
  slices-put o o' key bytes [] put u = refl
  slices-put o o' key bytes (r ∷ refs) put (other, u) =
      ap (λ x. join x (slices o' refs))
        (os.get-put_other o o' key r.key bytes r.position r.size put other)
      ∙ ap (join (os.get_from o r.key r.position r.size)) (slices-put o o' key bytes refs put u)

  module _ {I : Type 0} (st : IndexStore I) where
    -- All that a partition holds, from its oldest object to its last pending batch; `none` if an
    -- object cannot be read.
    abbrev pub view : Storage O I → Bytes → Option Bytes
    view s k =
        join (slices s.objects (refs_in k s.index.refs)) (some (pending_in (lookup k s.pending)))

    abbrev refs_after : Index I → Bytes → SegmentRef → Bytes → List SegmentRef
    refs_after ix key ref k =
        if bytes_beq key k then refs_in key ix.refs ++ (ref ∷ []) else refs_in k ix.refs

    committed_as :
        (ix ix' : Index I) (topic : Bytes) (p : ℕ) (ref : SegmentRef) (k : Bytes) (store : Option I)
        → committed st ix topic p ref store ≡ some ix'
        → refs_in k ix'.refs ≡ refs_after ix (seg_key topic p) ref k
    committed_as ix ix' topic p ref k none e = absurd (cc (e))
    committed_as ix ix' topic p ref k (some store) e =
        let key = seg_key topic p in
        let new = refs_in key ix.refs ++ (ref ∷ []) in
        let same = ap (λ (x : Index I). refs_in k x.refs) (sym (some-injective _ _ e)) in
        elim (Bool-cases (bytes_beq key k)) [
          | inl b ↦ rw b (same ∙ rw (lookup-insert key k new ix.refs, b) refl)
          | inr b ↦ rw b (same ∙ rw (lookup-insert key k new ix.refs, b) refl)
        ]

    committed_refs :
        (ix ix' : Index I) (topic : Bytes) (p : ℕ) (ref : SegmentRef) (k : Bytes)
        → commit st ix topic p ref ≡ some ix'
        → refs_in k ix'.refs ≡ refs_after ix (seg_key topic p) ref k
    unfolding commit
    committed_refs ix ix' topic p ref k e =
        committed_as ix ix' topic p ref k (st.commit_to ix.store topic p ref) e

    module _ (o o' : O) (key object : Bytes) (now : Int64)
        (put : os.put_in o key object ≡ some o') where
      slice-ref_of :
          (pre post : Bytes) (pp : PendingPart)
          → object ≡ pre ++ (flatten pp.batches ++ post)
          → 0 < length (flatten pp.batches)
          → slices o' (ref_of key now (length pre) pp ∷ []) ≡ some (flatten pp.batches)
      slice-ref_of pre post pp e some_bytes =
          let bytes = flatten pp.batches in
          let fits : length pre + length bytes ≤ length object =
            omega
              (arith, ap length e, length-append pre (bytes ++ post), length-append bytes post) in
          let read = os.get-put o o' key object (length pre) (length bytes) put some_bytes fits in
          let part : take (length bytes) (drop (length pre) object) ≡ bytes =
            ap (λ x. take (length bytes) (drop (length pre) x)) e
            ∙ ap (take (length bytes)) (drop-length pre (bytes ++ post))
            ∙ take-length bytes post in
          ap (λ x. join x (some [])) (read ∙ ap some part) ∙ join-nil (some bytes)

      moved :
          (k0 : Bytes) (pp : PendingPart) (es : Pending) (k : Bytes) (ix ix1 : Index I)
          (ref : SegmentRef)
          → seg_key pp.topic pp.partition ≡ k0
          → lookup k0 es ≡ none
          → refs_in k ix1.refs ≡ refs_after ix (seg_key pp.topic pp.partition) ref k
          → slices o' (ref ∷ []) ≡ some (flatten pp.batches)
          → join (slices o' (refs_in k ix1.refs)) (some (pending_in (lookup k es)))
            ≡ join (slices o' (refs_in k ix.refs)) (some (pending_in (lookup k ((k0, pp) ∷ es))))
      moved k0 pp es k ix ix1 ref keyed free refs1 slice =
          let key0 = seg_key pp.topic pp.partition in
          let choose =
            λ (c : Bool). if c then refs_in key0 ix.refs ++ (ref ∷ []) else refs_in k ix.refs in
          elim (Bool-cases (bytes_beq k0 k)) [
            | inl e ↦
                let same : k0 ≡ k = (bytes_beq_iff k0 k).0 e in
                let here : refs_in k ix1.refs ≡ refs_in k ix.refs ++ (ref ∷ []) =
                  refs1
                  ∙ ap choose ((bytes_beq_iff key0 k).1 (keyed ∙ same))
                  ∙ ap (λ x. refs_in x ix.refs ++ (ref ∷ [])) (keyed ∙ same) in
                let gone : lookup k es ≡ none = ap (λ x. lookup x es) (sym same) ∙ free in
                let found : lookup k ((k0, pp) ∷ es) ≡ some pp = unfold lookup in rw e refl in
                ap (λ x. join (slices o' (refs_in k ix1.refs)) (some (pending_in x))) gone
                ∙ join-nil (slices o' (refs_in k ix1.refs))
                ∙ ap (slices o') here
                ∙ slices-append o' (refs_in k ix.refs) (ref ∷ [])
                ∙ ap (join (slices o' (refs_in k ix.refs))) slice
                ∙ ap (λ x. join (slices o' (refs_in k ix.refs)) (some (pending_in x))) (sym found)
            | inr e ↦
                let same : refs_in k ix1.refs ≡ refs_in k ix.refs =
                  refs1 ∙ ap choose (ap (λ x. bytes_beq x k) keyed ∙ e) in
                let there : lookup k ((k0, pp) ∷ es) ≡ lookup k es = unfold lookup in rw e refl in
                ap (λ x. join (slices o' x) (some (pending_in (lookup k es)))) same
                ∙ ap (λ x. join (slices o' (refs_in k ix.refs)) (some (pending_in x))) (sym there)
          ]

      -- Each part that is committed stands in the object where its reference says.
      pub commit_all-slices :
          (entries : Pending) (pre : Bytes) (ix ix' : Index I) (k : Bytes)
          → object ≡ pre ++ (pack key now (length pre) entries).1
          → commit_all os st (pack key now (length pre) entries).0 ix ≡ (true, ix')
          → Distinct entries
          → All IsPart entries
          → slices o' (refs_in k ix'.refs)
            ≡ join (slices o' (refs_in k ix.refs)) (some (pending_in (lookup k entries)))
      unfolding pack commit_all
      commit_all-slices [] pre ix ix' k obj all d parts =
          ap (λ (x : Bool × Index I). slices o' (refs_in k x.1.refs)) (sym all)
          ∙ sym (unfold lookup in join-nil (slices o' (refs_in k ix.refs)))
      commit_all-slices ((k0, pp) ∷ es) pre ix ix' k obj all (free, d)
            ((keyed, some_bytes), parts) =
          let bytes = flatten pp.batches in
          let ref = ref_of key now (length pre) pp in
          let pos : length pre + length bytes ≡ length (pre ++ bytes) =
            sym (length-append pre bytes) in
          let packed = pack key now (length pre + length bytes) es in
          elim (Option-cases (commit st ix pp.topic pp.partition ref)) [
            | inl refused ↦ absurd (
                let q : ◌≡◌ {A = Bool × Index I} (false, ix) (true, ix') = rw refused at all in
                cc (q))
            | inr (ix1, done) ↦
                let rest : commit_all os st packed.0 ix1 ≡ (true, ix') = rw done at all in
                let obj1 : object ≡ (pre ++ bytes) ++ packed.1 =
                  obj ∙ sym (append_assoc pre bytes packed.1) in
                let ih =
                  commit_all-slices es (pre ++ bytes) ix1 ix' k
                    (subst (λ n. object ≡ (pre ++ bytes) ++ (pack key now n es).1) pos obj1)
                    (subst (λ n. commit_all os st (pack key now n es).0 ix1 ≡ (true, ix')) pos rest)
                    d parts in
                let refs1 = committed_refs ix ix1 pp.topic pp.partition ref k done in
                let slice = slice-ref_of pre packed.1 pp obj some_bytes in
                ih ∙ moved k0 pp es k ix ix1 ref keyed free refs1 slice
          ]
