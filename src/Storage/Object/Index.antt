-- ===== src/Storage/Object/Index.antt =====
-- internal/storage/object/index.go: which object holds which offsets of a partition. The durable
-- store is an interface; the store in memory is an implementation.
use mq.Common.{
  ◌-◌, ◌==◌, Bool, true, false, Option, none, some, List, [], ◌∷◌, ◌++◌, Bytes, Int32, Int64,
  length, get_elem?, lt_i64, le_i64, if◌then◌else◌,
}
use mq.Common.Keys.{Map, lookup, insert, bytes_eq}
use mq.Controller.Fsm.{SegmentRef, seg_key, referenced_in, drop_up_to, keep_above}
use mq.Storage.Log.{search}

-- `none` is an error, throughout.
pub record IndexStore (I : Type 0) : Type 0 where
  pub commit_to : I → Bytes → Int32 → SegmentRef → Option I
  pub load_from : I → Bytes → Int32 → Option (List SegmentRef)
  pub prune_from : I → Bytes → Int32 → Int64 → Option (List SegmentRef × I)
  pub referenced_by : I → Bytes → Option Bool

-- MemIndexStore
abbrev pub MemIndexStore : Type 0
MemIndexStore = Map Bytes (List SegmentRef)

abbrev or_nil : Option (List SegmentRef) → List SegmentRef
or_nil none = []
or_nil (some refs) = refs

abbrev pub refs_in : Bytes → Map Bytes (List SegmentRef) → List SegmentRef
refs_in k m = or_nil (lookup k m)

-- The references that prune hands back.
unfoldable pub dropped_up_to : Int64 → List SegmentRef → List SegmentRef
dropped_up_to cutoff [] = []
dropped_up_to cutoff (r ∷ refs) =
    let rest = dropped_up_to cutoff refs in if le_i64 r.next_offset cutoff then r ∷ rest else rest

abbrev pub mem_index_store : IndexStore MemIndexStore
mem_index_store = record {
  commit_to = λ m topic p ref.
      some (insert (seg_key topic p) (refs_in (seg_key topic p) m ++ (ref ∷ [])) m);
  load_from = λ m topic p. some (refs_in (seg_key topic p) m);
  prune_from = λ m topic p cutoff.
      let k = seg_key topic p in
      some (dropped_up_to cutoff (refs_in k m), insert k (drop_up_to cutoff (refs_in k m)) m);
  referenced_by = λ m key. some (referenced_in key m);
}

pub record Index (I : Type 0) : Type 0 where
  pub store : I
  pub refs : Map Bytes (List SegmentRef)

-- sort.Slice by the base offset
unfoldable pub insert_ref : SegmentRef → List SegmentRef → List SegmentRef
insert_ref r [] = r ∷ []
insert_ref r (q ∷ qs) =
    let rest = insert_ref r qs in
    if lt_i64 q.base_offset r.base_offset then q ∷ rest else r ∷ q ∷ qs

unfoldable pub sort_refs : List SegmentRef → List SegmentRef
sort_refs [] = []
sort_refs (r ∷ refs) = insert_ref r (sort_refs refs)

abbrev base_above : Int64 → Option SegmentRef → Bool
base_above offset none = false
base_above offset (some r) = lt_i64 offset r.base_offset

abbrev covers : Int64 → Option SegmentRef → Option SegmentRef
covers offset none = none
covers offset (some r) = if le_i64 r.next_offset offset then none else some r

-- The search of refFor, on a partition's references.
unfoldable pub find_ref : List SegmentRef → Int64 → Option SegmentRef
find_ref refs offset =
    let i = search (length refs) (λ i. base_above offset (get_elem? refs i)) in
    if i == 0 then none else covers offset (get_elem? refs (i - 1))

abbrev first_base : List SegmentRef → Option Int64
first_base [] = none
first_base (r ∷ refs) = some r.base_offset

abbrev last_next : List SegmentRef → Option Int64
last_next [] = none
last_next (r ∷ []) = some r.next_offset
last_next (_ ∷ (r ∷ refs)) = last_next (r ∷ refs)

module _ {I : Type 0} where
  abbrev pub new_index : I → Index I
  new_index store = record { store = store; refs = [] }

  abbrev pub refs_for : Index I → Bytes → Int32 → List SegmentRef
  refs_for ix topic p = refs_in (seg_key topic p) ix.refs

  abbrev pub ref_for : Index I → Bytes → Int32 → Int64 → Option SegmentRef
  ref_for ix topic p offset = find_ref (refs_for ix topic p) offset

  abbrev pub earliest : Index I → Bytes → Int32 → Option Int64
  earliest ix topic p = first_base (refs_for ix topic p)

  abbrev pub latest : Index I → Bytes → Int32 → Option Int64
  latest ix topic p = last_next (refs_for ix topic p)

  module _ (st : IndexStore I) where
    abbrev loaded : Index I → Bytes → Int32 → Option (List SegmentRef) → Option (Index I)
    loaded ix topic p none = none
    loaded ix topic p (some refs) =
        some (record ix { refs = insert (seg_key topic p) (sort_refs refs) ix.refs })

    unfoldable pub load : Index I → Bytes → Int32 → Option (Index I)
    load ix topic p = loaded ix topic p (st.load_from ix.store topic p)

    abbrev pub committed : Index I → Bytes → Int32 → SegmentRef → Option I → Option (Index I)
    committed ix topic p ref none = none
    committed ix topic p ref (some store) = some (record {
      store = store;
      refs = insert (seg_key topic p) (refs_for ix topic p ++ (ref ∷ [])) ix.refs;
    })

    unfoldable pub commit : Index I → Bytes → Int32 → SegmentRef → Option (Index I)
    commit ix topic p ref = committed ix topic p ref (st.commit_to ix.store topic p ref)

    abbrev pub pruned :
        Index I
        → Bytes
        → Int32
        → Int64
        → Option (List SegmentRef × I)
        → Option (List SegmentRef × Index I)
    pruned ix topic p cutoff none = none
    pruned ix topic p cutoff (some (gone, store)) = some (
      gone,
      record {
        store = store;
        refs = insert (seg_key topic p) (keep_above cutoff (refs_for ix topic p)) ix.refs;
      },
    )

    unfoldable pub prune : Index I → Bytes → Int32 → Int64 → Option (List SegmentRef × Index I)
    prune ix topic p cutoff = pruned ix topic p cutoff (st.prune_from ix.store topic p cutoff)

    abbrev or_true : Option Bool → Bool
    or_true none = true
    or_true (some r) = r

    abbrev pub referenced : Index I → Bytes → Bool
    referenced ix key = or_true (st.referenced_by ix.store key)
