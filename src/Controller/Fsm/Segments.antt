-- ===== src/Controller/Fsm/Segments.antt =====
-- internal/controller/fsm.go and indexstore.go: the object index in the metadata.
use mq.Common.{
  ◌==◌, ◌≡◌, refl, Option, none, some, List, [], ◌∷◌, ◌++◌, Bytes, Int32, IsInt32, if◌then◌else◌,
  arith, ◌&&◌, ==_iff, ap, true, false, Int64, lt_i64, le_i64, Bool-cases, inl, inr,
}
use mq.Common.Keys.{lookup, bytes_beq, bytes_beq_iff, lookup-insert, lookup-remove, bytes_eq}
use mq.Decimal.{zero_key-inj}
use mq.Controller.Fsm.{
  MetaState, SegmentRef, CmdType, cmd_create_topic, cmd_create_partitions, cmd_change_leader,
  cmd_change_isr, cmd_heartbeat, cmd_unknown, change_leader, change_isr, PartitionMeta, TopicMeta,
  part_at, apply_as, Command, apply, create_topic, create_partitions, update_part, set_part,
  commit_segment, store_kept, refs_at, seg_key, segments, keep_above, cmd_commit_segment,
  cmd_prune_segments,
}

-- A prune: what ends at or below the cutoff goes, the rest stays in order.
abbrev pub pruned_to : Int64 → List SegmentRef → List SegmentRef
pruned_to cutoff [] = []
pruned_to cutoff (r ∷ refs) =
    let rest = pruned_to cutoff refs in if le_i64 r.next_offset cutoff then rest else r ∷ rest

keep_above-pruned_to :
    (cutoff : Int64) (refs : List SegmentRef) → keep_above cutoff refs ≡ pruned_to cutoff refs
unfolding keep_above
keep_above-pruned_to cutoff [] = refl
keep_above-pruned_to cutoff (r ∷ refs) = elim (Bool-cases (le_i64 r.next_offset cutoff)) [
  | inl e ↦
      let dropped : lt_i64 cutoff r.next_offset ≡ false = ground arith in
      rw (e, dropped) (keep_above-pruned_to cutoff refs)
  | inr e ↦
      let stays : lt_i64 cutoff r.next_offset ≡ true = ground arith in
      rw (e, stays) (ap (λ x. r ∷ x) (keep_above-pruned_to cutoff refs))
]

-- What a command makes of the references under its own key.
abbrev pub refs_after : CmdType → Command → List SegmentRef → List SegmentRef
refs_after cmd_commit_segment cmd refs = elim cmd.segment [
  | none ↦ refs
  | some ref ↦ refs ++ (ref ∷ [])
]
refs_after cmd_prune_segments cmd refs = pruned_to cmd.cutoff refs
refs_after _ cmd refs = refs

commit-refs_at :
    (st : MetaState) (k j : Bytes) (o : Option SegmentRef)
    → refs_at j (commit_segment st k o).1 ≡ (
        if bytes_beq k j
        then (elim o [ none ↦ refs_at k st | some ref ↦ refs_at k st ++ (ref ∷ []) ])
        else refs_at j st)
commit-refs_at st k j none = ground (arith, bytes_beq_iff k j)
commit-refs_at st k j (some ref) =
    ground (arith, lookup-insert k j (refs_at k st ++ (ref ∷ [])) st.segments)

store_kept-refs_at :
    (st : MetaState) (k j : Bytes) (kept : List SegmentRef)
    → refs_at j (store_kept st k kept) ≡ (if bytes_beq k j then kept else refs_at j st)
store_kept-refs_at st k j [] = ground (arith, lookup-remove k j st.segments)
store_kept-refs_at st k j (r ∷ kept) = ground (arith, lookup-insert k j (r ∷ kept) st.segments)

create_topic-segments :
    (st : MetaState) (cmd : Command) (o : Option TopicMeta)
    → (create_topic st cmd o).1.segments ≡ st.segments
create_topic-segments st cmd none = refl
create_topic-segments st cmd (some t) = refl

create_partitions-segments :
    (st : MetaState) (cmd : Command) (o : Option TopicMeta)
    → (create_partitions st cmd o).1.segments ≡ st.segments
create_partitions-segments st cmd none = refl
create_partitions-segments st cmd (some t) = refl

update_part-segments :
    (st : MetaState) (cmd : Command) (change : PartitionMeta → PartitionMeta) (o : Option TopicMeta)
    → (update_part st cmd change o).1.segments ≡ st.segments
update_part-segments st cmd change none = refl
update_part-segments st cmd change (some t) = set_part-segments (part_at t.parts cmd.partition)
  where
    set_part-segments :
        (p : Option PartitionMeta) → (set_part st cmd change t p).1.segments ≡ st.segments
    set_part-segments none = refl
    set_part-segments (some pm) = refl

same-refs :
    (st st' : MetaState) (k j : Bytes)
    → st'.segments ≡ st.segments
    → refs_at j st' ≡ (if bytes_beq k j then refs_at j st else refs_at j st)
same-refs st st' k j e = ground arith

apply-refs_at :
    (t : CmdType) (st : MetaState) (cmd : Command) (j : Bytes)
    → refs_at j (apply_as t st cmd).1 ≡ (
        if bytes_beq (seg_key cmd.topic cmd.partition) j
        then refs_after t cmd (refs_at j st)
        else refs_at j st)
apply-refs_at cmd_create_topic st cmd j =
    same-refs st (apply_as cmd_create_topic st cmd).1 (seg_key cmd.topic cmd.partition) j
      (create_topic-segments st cmd (lookup cmd.topic st.topics))
apply-refs_at cmd_create_partitions st cmd j =
    same-refs st (apply_as cmd_create_partitions st cmd).1 (seg_key cmd.topic cmd.partition) j
      (create_partitions-segments st cmd (lookup cmd.topic st.topics))
apply-refs_at cmd_change_leader st cmd j =
    same-refs st (apply_as cmd_change_leader st cmd).1 (seg_key cmd.topic cmd.partition) j
      (update_part-segments st cmd (change_leader cmd) (lookup cmd.topic st.topics))
apply-refs_at cmd_change_isr st cmd j =
    same-refs st (apply_as cmd_change_isr st cmd).1 (seg_key cmd.topic cmd.partition) j
      (update_part-segments st cmd (change_isr cmd) (lookup cmd.topic st.topics))
apply-refs_at cmd_heartbeat st cmd j = same-refs st st (seg_key cmd.topic cmd.partition) j refl
apply-refs_at cmd_commit_segment st cmd j =
    let k = seg_key cmd.topic cmd.partition in
    ground (arith, bytes_beq_iff k j, commit-refs_at st k j cmd.segment)
apply-refs_at cmd_prune_segments st cmd j =
    let k = seg_key cmd.topic cmd.partition in
    ground (
      arith,
      bytes_beq_iff k j,
      store_kept-refs_at st k j (keep_above cmd.cutoff (refs_at k st)),
      keep_above-pruned_to cmd.cutoff (refs_at k st),
    )
apply-refs_at (cmd_unknown n) st cmd j = same-refs st st (seg_key cmd.topic cmd.partition) j refl

seg_key-beq :
    (s t : Bytes) (v w : Int32)
    → IsInt32 v
    → IsInt32 w
    → bytes_beq (seg_key s v) (seg_key t w) ≡ (bytes_beq s t && (v == w))
seg_key-beq s t v w hv hw = ground (
  arith,
  bytes_beq_iff s t,
  ==_iff v w,
  bytes_beq_iff (seg_key s v) (seg_key t w),
  zero_key-inj s t v w hv hw,
  key-eq,
)
  where
    key-eq : s ≡ t → v ≡ w → seg_key s v ≡ seg_key t w
    key-eq p q = cc

-- A command changes the references of its own partition only: a commit appends one, a prune drops
-- those that end at or below the cutoff and keeps the rest in order, all others change none.
pub apply-segments :
    (st : MetaState) (cmd : Command) (topic : Bytes) (p : Int32)
    → IsInt32 cmd.partition
    → IsInt32 p
    → segments (apply st cmd).1 topic p ≡ (
        if bytes_beq cmd.topic topic && (cmd.partition == p)
        then refs_after cmd.cmd_type cmd (segments st topic p)
        else segments st topic p)
apply-segments st cmd topic p hc hp =
    rw (← seg_key-beq cmd.topic topic cmd.partition p hc hp)
      (apply-refs_at cmd.cmd_type st cmd (seg_key topic p))
