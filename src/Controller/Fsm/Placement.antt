-- ===== src/Controller/Fsm/Placement.antt =====
-- internal/controller/fsm.go: what a command does to the placement of a partition.
use mq.Common.{
  ℕ, ◌%◌, zero, suc, ◌+◌, ◌^◌, ◌==◌, ◌≡◌, refl, sym, ap, ◌∙◌, Bool, true, false, Option, none, some,
  List, [], ◌∷◌, ◌++◌, Bytes, Int32, IsInt32, is_neg32, if◌then◌else◌, arith, Bool-cases, inl, inr,
  ◌&&◌, ==_iff, get_elem?, set, length, to_i32,
}
use mq.Common.Keys.{lookup, insert, bytes_beq, bytes_beq_iff, lookup-insert, bytes_eq}
use mq.Controller.Fsm.{
  MetaState, SegmentRef, Command, CmdType, PartitionMeta, TopicMeta, cmd_create_topic,
  cmd_create_partitions, cmd_change_leader, cmd_change_isr, cmd_heartbeat, cmd_commit_segment,
  cmd_prune_segments, cmd_unknown, change_leader, change_isr, apply, apply_as, create_topic,
  create_partitions, update_part, set_part, part_at, of_topic, partition, parts_from_replicas,
  commit_segment, store_kept, keep_above, refs_at, seg_key,
}

part_at-set :
    (parts : List PartitionMeta) (p q : Int32) (old new : PartitionMeta)
    → part_at parts p ≡ some old
    → part_at (set parts p new) q ≡ (if p == q then some new else part_at parts q)
unfolding part_at
part_at-set parts p q old new h = ground (arith, get-set parts p q new)
  where
    get-set :
        (xs : List PartitionMeta) (i j : ℕ) (v : PartitionMeta)
        → get_elem? (set xs i v) j ≡ (
            if i == j
            then (elim (get_elem? xs j) [ none ↦ none | some w ↦ some v ])
            else get_elem? xs j)
    get-set [] i j v = ground arith
    get-set (x ∷ xs) zero zero v = ground arith
    get-set (x ∷ xs) zero (suc j) v = ground arith
    get-set (x ∷ xs) (suc i) zero v = ground arith
    get-set (x ∷ xs) (suc i) (suc j) v = ground (arith, get-set xs i j v)

part_at-append :
    (parts more : List PartitionMeta) (q : Int32) (pm : PartitionMeta)
    → part_at parts q ≡ some pm
    → part_at (parts ++ more) q ≡ some pm
unfolding part_at
part_at-append parts more q pm h = ground (arith, get-append parts q h)
  where
    get-append :
        (xs : List PartitionMeta) (i : ℕ)
        → (if is_neg32 q then none else get_elem? xs i) ≡ some pm
        → get_elem? (xs ++ more) i ≡ some pm
    get-append [] i e = ground arith
    get-append (x ∷ xs) zero e = ground arith
    get-append (x ∷ xs) (suc i) e = ground (arith, get-append xs i e)

-- What a command makes of the partition it names.
abbrev pub placement_after : CmdType → Command → PartitionMeta → PartitionMeta
placement_after cmd_change_leader cmd pm = change_leader cmd pm
placement_after cmd_change_isr cmd pm = change_isr cmd pm
placement_after _ cmd pm = pm

partition-insert :
    (st : MetaState) (name topic : Bytes) (t : TopicMeta) (p : Int32)
    → partition (record st { topics = insert name t st.topics }) topic p
      ≡ (if bytes_beq name topic then part_at t.parts p else partition st topic p)
unfolding partition
partition-insert st name topic t p =
    ap (of_topic p) (lookup-insert name topic t st.topics)
    ∙ elim (Bool-cases (bytes_beq name topic)) [ inl e ↦ rw e refl | inr e ↦ rw e refl ]

module _ (st : MetaState) (cmd : Command) (topic : Bytes) (p : Int32) (pm : PartitionMeta) where
  partition-found :
      (o : Option TopicMeta)
      → lookup cmd.topic st.topics ≡ o
      → partition st topic p ≡ some pm
      → bytes_beq cmd.topic topic ≡ true
      → of_topic p o ≡ some pm
  unfolding partition
  partition-found o e h n =
      let q = (bytes_beq_iff cmd.topic topic).0 n in
      ap (of_topic p) (sym e ∙ ap (λ k. lookup k st.topics) q) ∙ h

  create_topic-partition :
      (o : Option TopicMeta)
      → lookup cmd.topic st.topics ≡ o
      → partition st topic p ≡ some pm
      → partition (create_topic st cmd o).1 topic p ≡ some pm
  create_topic-partition (some t) e h = h
  create_topic-partition none e h =
      let t : TopicMeta = record {
        partitions = to_i32 (length cmd.replicas);
        parts = parts_from_replicas cmd.replicas;
      } in
      ground (arith, partition-insert st cmd.topic topic t p, partition-found none e h)

  create_partitions-partition :
      (o : Option TopicMeta)
      → lookup cmd.topic st.topics ≡ o
      → partition st topic p ≡ some pm
      → partition (create_partitions st cmd o).1 topic p ≡ some pm
  create_partitions-partition none e h = h
  create_partitions-partition (some t) e h =
      let more = parts_from_replicas cmd.replicas in
      let u : TopicMeta = record {
        partitions = to_i32 (length (t.parts ++ more));
        parts = t.parts ++ more;
      } in
      ground (
        arith,
        partition-insert st cmd.topic topic u p,
        partition-found (some t) e h,
        part_at-append t.parts more p pm,
      )

  update_part-partition :
      (change : PartitionMeta → PartitionMeta) (o : Option TopicMeta)
      → lookup cmd.topic st.topics ≡ o
      → partition st topic p ≡ some pm
      → partition (update_part st cmd change o).1 topic p
        ≡ some (if bytes_beq cmd.topic topic && (cmd.partition == p) then change pm else pm)
  update_part-partition change none e h = ground (arith, partition-found none e h)
  update_part-partition change (some t) e h =
      set_part-partition (part_at t.parts cmd.partition) refl
    where
      set_part-partition :
          (r : Option PartitionMeta)
          → part_at t.parts cmd.partition ≡ r
          → partition (set_part st cmd change t r).1 topic p
            ≡ some (if bytes_beq cmd.topic topic && (cmd.partition == p) then change pm else pm)
      set_part-partition none q = ground (
        arith,
        partition-found (some t) e h,
        ==_iff cmd.partition p,
        ap (part_at t.parts) {x = cmd.partition} {y = p},
      )
      set_part-partition (some old) q =
          let u : TopicMeta = record t { parts = set t.parts cmd.partition (change old) } in
          ground (
            arith,
            partition-insert st cmd.topic topic u p,
            partition-found (some t) e h,
            ==_iff cmd.partition p,
            part_at-set t.parts cmd.partition p old (change old) q,
          )

  commit_segment-partition :
      (k : Bytes) (o : Option SegmentRef)
      → partition (commit_segment st k o).1 topic p ≡ partition st topic p
  unfolding partition
  commit_segment-partition k none = refl
  commit_segment-partition k (some ref) = refl

  store_kept-partition :
      (k : Bytes) (kept : List SegmentRef)
      → partition (store_kept st k kept) topic p ≡ partition st topic p
  unfolding partition
  store_kept-partition k [] = refl
  store_kept-partition k (r ∷ kept) = refl

  same-placement :
      (b : Bool)
      → partition st topic p ≡ some pm
      → partition st topic p ≡ some (if b then pm else pm)
  same-placement true h = h
  same-placement false h = h

  pub apply_as-partition :
      (t : CmdType)
      → partition st topic p ≡ some pm
      → partition (apply_as t st cmd).1 topic p
        ≡ some (
            if bytes_beq cmd.topic topic && (cmd.partition == p)
            then placement_after t cmd pm
            else pm)
  apply_as-partition cmd_create_topic h =
      create_topic-partition (lookup cmd.topic st.topics) refl h ∙ sym h ∙ same-placement _ h
  apply_as-partition cmd_create_partitions h =
      create_partitions-partition (lookup cmd.topic st.topics) refl h ∙ sym h ∙ same-placement _ h
  apply_as-partition cmd_change_leader h =
      update_part-partition (change_leader cmd) (lookup cmd.topic st.topics) refl h
  apply_as-partition cmd_change_isr h =
      update_part-partition (change_isr cmd) (lookup cmd.topic st.topics) refl h
  apply_as-partition cmd_heartbeat h = same-placement _ h
  apply_as-partition cmd_commit_segment h =
      commit_segment-partition (seg_key cmd.topic cmd.partition) cmd.segment ∙ same-placement _ h
  apply_as-partition cmd_prune_segments h =
      let k = seg_key cmd.topic cmd.partition in
      store_kept-partition k (keep_above cmd.cutoff (refs_at k st)) ∙ same-placement _ h
  apply_as-partition (cmd_unknown n) h = same-placement _ h

-- The committed log, applied in order.
abbrev pub apply_all : MetaState → List Command → MetaState
apply_all st [] = st
apply_all st (cmd ∷ cmds) = apply_all (apply st cmd).1 cmds

abbrev pub names : Command → Bytes → Int32 → Bool
names cmd topic p = bytes_beq cmd.topic topic && (cmd.partition == p)

abbrev pub is_election : CmdType → Bool
is_election cmd_change_leader = true
is_election _ = false

-- How many commands of a log elect a leader for the partition.
unfoldable pub elections : List Command → Bytes → Int32 → ℕ
elections [] topic p = 0
elections (cmd ∷ cmds) topic p =
    let rest = elections cmds topic p in
    if is_election cmd.cmd_type && names cmd topic p then suc rest else rest

placement_after-epoch :
    (t : CmdType) (cmd : Command) (pm : PartitionMeta) (b : Bool)
    → IsInt32 pm.leader_epoch
    → (if b then placement_after t cmd pm else pm).leader_epoch
      ≡ (pm.leader_epoch + (if is_election t && b then 1 else 0)) % 2 ^ 32
placement_after-epoch cmd_create_topic cmd pm b h = ground arith
placement_after-epoch cmd_create_partitions cmd pm b h = ground arith
placement_after-epoch cmd_change_leader cmd pm b h = ground arith
placement_after-epoch cmd_change_isr cmd pm b h = ground arith
placement_after-epoch cmd_heartbeat cmd pm b h = ground arith
placement_after-epoch cmd_commit_segment cmd pm b h = ground arith
placement_after-epoch cmd_prune_segments cmd pm b h = ground arith
placement_after-epoch (cmd_unknown n) cmd pm b h = ground arith

placement_after-replicas :
    (t : CmdType) (cmd : Command) (pm : PartitionMeta) (b : Bool)
    → (if b then placement_after t cmd pm else pm).replicas ≡ pm.replicas
placement_after-replicas t cmd pm false = refl
placement_after-replicas cmd_create_topic cmd pm true = refl
placement_after-replicas cmd_create_partitions cmd pm true = refl
placement_after-replicas cmd_change_leader cmd pm true = refl
placement_after-replicas cmd_change_isr cmd pm true = refl
placement_after-replicas cmd_heartbeat cmd pm true = refl
placement_after-replicas cmd_commit_segment cmd pm true = refl
placement_after-replicas cmd_prune_segments cmd pm true = refl
placement_after-replicas (cmd_unknown n) cmd pm true = refl

-- A partition that exists keeps its replicas under any log of commands, and its leader epoch grows
-- by one, modulo 2 ^ 32, with each command that elects a leader for it, and with no other.
pub apply_all-elections :
    (st : MetaState) (cmds : List Command) (topic : Bytes) (p : Int32) (pm : PartitionMeta)
    → IsInt32 pm.leader_epoch
    → partition st topic p ≡ some pm
    → (now : PartitionMeta) × (partition (apply_all st cmds) topic p ≡ some now)
      × (now.replicas ≡ pm.replicas)
      × (now.leader_epoch ≡ (pm.leader_epoch + elections cmds topic p) % 2 ^ 32)
unfolding elections
apply_all-elections st [] topic p pm he h = (pm, h, refl, omega arith)
apply_all-elections st (cmd ∷ cmds) topic p pm he h =
    let b = names cmd topic p in
    let next : PartitionMeta = if b then placement_after cmd.cmd_type cmd pm else pm in
    let epoch = placement_after-epoch cmd.cmd_type cmd pm b he in
    let (now, at, kept, count) =
      apply_all-elections (apply st cmd).1 cmds topic p next (omega (arith, epoch))
        (apply_as-partition st cmd topic p pm cmd.cmd_type h) in
    (now, at, kept ∙ placement_after-replicas cmd.cmd_type cmd pm b, ground (arith, epoch, count))
