-- ===== src/Storage/Object/Log/Trims.antt =====
-- internal/storage/object/retention.go and log.go: what EnforceRetention leaves of a partition.
use mathlib.Core.Path.{subst}
use mathlib.Core.Option.{some-injective}
use mq.Common.{
  ℕ, zero, suc, refl, sym, ap, ◌∙◌, ◌+◌, ◌-◌, ◌==◌, ◌^◌, ◌<◌, ◌≤◌, ◌≡◌, ◌⊎◌, inl, inr, Bool, true,
  false, Option, none, some, List, [], ◌∷◌, Bytes, Int32, Int64, length, drop, get_elem?, lt_i64,
  le_i64, arith, Bool-cases, ==_iff,
}
use mq.Common.Keys.{lookup, lookup-insert, bytes_eq, bytes_beq_iff}
use mq.Controller.Fsm.{SegmentRef, seg_key, keep_above}
use mq.Storage.Object.Index.{Index, IndexStore, refs_for, pruned, prune}
use mq.Storage.Object.Store.{Storage}
use mq.Storage.Object.Recovery.{ObjectLog}
use mq.Storage.Object.Log.{
  drop_count, next_of, pending_bytes_of, Handle, size, collected, enforce_retention,
}
use mq.Storage.Object.Log.Budget.{
  total_of, drop_count-budget, drop_count-length, drop_count-needed, sum_sizes-total_of,
}

-- The references end at rising offsets.
abbrev pub Rising : ℕ → List SegmentRef → Type 0
Rising low [] = Unit {0}
Rising low (r ∷ refs) = (low < r.next_offset) × (r.next_offset < 2 ^ 63) × Rising r.next_offset refs

Rising-next_of :
    (low : ℕ) (refs : List SegmentRef) (m : ℕ)
    → Rising low refs
    → m < length refs
    → (low < next_of (get_elem? refs m)) × (next_of (get_elem? refs m) < 2 ^ 63)
Rising-next_of low [] m h l = absurd (omega arith)
Rising-next_of low (r ∷ refs) zero h l = (h.0, h.1)
Rising-next_of low (r ∷ refs) (suc m) h l =
    let (a, b) = Rising-next_of r.next_offset refs m h.2 (omega arith) in (omega (arith, a, h.0), b)

keep_above-Rising :
    (cutoff low : ℕ) (refs : List SegmentRef)
    → Rising low refs
    → cutoff ≤ low
    → keep_above cutoff refs ≡ refs
unfolding keep_above
keep_above-Rising cutoff low [] h le = refl
keep_above-Rising cutoff low (r ∷ refs) h le =
    let stays : lt_i64 cutoff r.next_offset ≡ true = ground (arith, h.0, h.1) in
    rw stays
      (ap (λ x. r ∷ x) (keep_above-Rising cutoff r.next_offset refs h.2 (omega (arith, h.0))))

-- A prune up to the end of the reference `m` leaves those behind it.
keep_above-drop :
    (low : ℕ) (refs : List SegmentRef) (m : ℕ)
    → Rising low refs
    → m < length refs
    → keep_above (next_of (get_elem? refs m)) refs ≡ drop (suc m) refs
unfolding keep_above
keep_above-drop low [] m h l = absurd (omega arith)
keep_above-drop low (r ∷ refs) zero h l =
    let gone : lt_i64 r.next_offset r.next_offset ≡ false = ground arith in
    rw gone (keep_above-Rising r.next_offset r.next_offset refs h.2 (omega arith))
keep_above-drop low (r ∷ refs) (suc m) h l =
    let (above, top) = Rising-next_of r.next_offset refs m h.2 (omega arith) in
    let gone : lt_i64 (next_of (get_elem? refs m)) r.next_offset ≡ false =
      ground (arith, above, top, h.1) in
    rw gone (keep_above-drop r.next_offset refs m h.2 (omega arith))

module _ {O I : Type 0} (st : IndexStore I) (delete : Bytes → O → O) where
  abbrev pub refs_of : Handle O I → List SegmentRef
  refs_of (l, s) = refs_for s.index l.topic l.partition

  abbrev pub pending_of : Handle O I → ℕ
  pending_of (l, s) = pending_bytes_of (lookup (seg_key l.topic l.partition) s.pending)

  -- What is left of some references after retention with a byte limit.
  pub record Trimmed (max_age max_bytes : Int64) (pending : ℕ) (refs left : List SegmentRef)
      : Type 0 where
    pub dropped : ℕ
    pub suffix : left ≡ drop dropped refs
    pub within : (left ≡ []) ⊎ (total_of left + pending ≤ max_bytes)
    pub needed :
        (m : ℕ)
        → m < dropped
        → le_i64 max_age 0 ≡ true
        → max_bytes < total_of (drop m refs) + pending

  size-total_of :
      (h : Handle O I)
      → total_of (refs_of h) + pending_of h < 2 ^ 63
      → size h ≡ total_of (refs_of h) + pending_of h
  unfolding size
  size-total_of (l, s) fits =
      omega (arith, sum_sizes-total_of (refs_for s.index l.topic l.partition) (omega arith))

  drop_all : (refs : List SegmentRef) → drop (length refs) refs ≡ []
  drop_all [] = refl
  drop_all (r ∷ refs) = drop_all refs

  counted-Trimmed :
      (now max_age max_bytes : Int64) (pending : ℕ) (refs : List SegmentRef)
      → 0 < max_bytes
      → max_bytes < 2 ^ 63
      → total_of refs + pending < 2 ^ 63
      → Trimmed max_age max_bytes pending refs
          (drop (drop_count now max_age max_bytes (total_of refs + pending) refs) refs)
  counted-Trimmed now max_age max_bytes pending refs on small fits =
      let n = drop_count now max_age max_bytes (total_of refs + pending) refs in
      record {
        dropped = n;
        suffix = refl;
        within = elim (drop_count-budget now max_age max_bytes pending refs on small fits) [
          | inl e ↦ inl (ap (λ k. drop k refs) e ∙ drop_all refs)
          | inr h ↦ inr h
        ];
        needed = λ m h off. drop_count-needed now max_age max_bytes pending refs m off small fits h;
      }

  prune-refs :
      (ix ix' : Index I) (topic : Bytes) (p : Int32) (cutoff : Int64) (gone : List SegmentRef)
      (r : Option (List SegmentRef × I))
      → pruned st ix topic p cutoff r ≡ some (gone, ix')
      → refs_for ix' topic p ≡ keep_above cutoff (refs_for ix topic p)
  prune-refs ix ix' topic p cutoff gone none e = absurd (cc (e))
  prune-refs ix ix' topic p cutoff gone (some (g, store)) e =
      let k = seg_key topic p in
      ap (λ (x : List SegmentRef × Index I). refs_for x.1 topic p) (sym (some-injective _ _ e))
      ∙ rw
          (
            lookup-insert k k (keep_above cutoff (refs_for ix topic p)) ix.refs,
            (bytes_beq_iff k k).1 refl,
          )
          refl

  collected-refs :
      (l : ObjectLog) (s : Storage O I) (h' : Handle O I) (cutoff : Int64)
      (r : Option (List SegmentRef × Index I))
      → prune st s.index l.topic l.partition cutoff ≡ r
      → collected st delete l s cutoff r ≡ (true, h')
      → refs_for h'.1.index l.topic l.partition
        ≡ keep_above cutoff (refs_for s.index l.topic l.partition)
  unfolding prune
  collected-refs l s h' cutoff none e run = absurd (cc (run))
  collected-refs l s h' cutoff (some (gone, ix)) e run =
      ap (λ (x : Bool × Handle O I). refs_for x.1.1.index l.topic l.partition) (sym run)
      ∙ prune-refs s.index ix l.topic l.partition cutoff gone
          (st.prune_from s.index.store l.topic l.partition cutoff) e

  -- Retention that succeeds on a partition whose references end at rising offsets, with a byte limit
  -- on and sizes that do not wrap: the references that are left are those behind the dropped ones,
  -- and either none is left or they and the pending bytes are within the limit; with no age limit,
  -- the partition was over the limit before each of the drops.
  pub enforce_retention-Trimmed :
      (now max_age max_bytes : Int64) (l : ObjectLog) (s : Storage O I) (h' : Handle O I)
      → enforce_retention st delete now max_age max_bytes (l, s) ≡ (true, h')
      → Rising 0 (refs_of (l, s))
      → 0 < max_bytes
      → max_bytes < 2 ^ 63
      → total_of (refs_of (l, s)) + pending_of (l, s) < 2 ^ 63
      → Trimmed max_age max_bytes
          (pending_of (l, s))
          (refs_of (l, s))
          (refs_for h'.1.index l.topic l.partition)
  unfolding enforce_retention
  enforce_retention-Trimmed now max_age max_bytes l s h' run rising on small fits =
      let refs = refs_of (l, s) in
      let pending = pending_of (l, s) in
      let n = drop_count now max_age max_bytes (size (l, s)) refs in
      let same : n ≡ drop_count now max_age max_bytes (total_of refs + pending) refs =
        ap (λ t. drop_count now max_age max_bytes t refs) (size-total_of (l, s) fits) in
      let few = drop_count-length now max_age max_bytes (size (l, s)) refs in
      let left : refs_for h'.1.index l.topic l.partition ≡ drop n refs =
        elim (Bool-cases (n == 0)) [
          | inl e ↦
              let none_gone : n ≡ 0 = (==_iff n 0).0 e in
              ap (λ (x : Bool × Handle O I). refs_for x.1.1.index l.topic l.partition)
                (sym (rw e at run))
              ∙ ap (λ k. drop k refs) (sym none_gone)
          | inr e ↦
              let some_gone : 1 ≤ n = ground (arith, ==_iff n 0) in
              let last : suc (n - 1) ≡ n = omega arith in
              let cutoff = next_of (get_elem? refs (n - 1)) in
              collected-refs l s h' cutoff (prune st s.index l.topic l.partition cutoff) refl
                (rw e at run)
              ∙ keep_above-drop 0 refs (n - 1) rising (omega arith)
              ∙ ap (λ k. drop k refs) last
        ] in
      subst (Trimmed max_age max_bytes pending refs) (ap (λ k. drop k refs) (sym same) ∙ sym left)
        (counted-Trimmed now max_age max_bytes pending refs on small fits)
