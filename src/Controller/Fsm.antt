-- ===== src/Controller/Fsm.antt =====
-- internal/controller/command.go and fsm.go: the metadata and the commands that change it. A
-- command runs under the lock of the FSM, so it is one step.
pub mod Segments
pub mod Placement
use mq.Common.{
  ℕ, ◌==◌, Bool, true, false, Option, none, some, List, [], ◌∷◌, ◌++◌, map, Bytes, Int32, Int64,
  is_neg32, le_i64, lt_i64, add32, to_i32, minus_one32, length, get_elem?, set, if◌then◌else◌,
}
use mq.Common.Keys.{Map, lookup, insert, remove, bytes_eq, bytes_beq}
use mq.Decimal.{itoa}

pub record PartitionMeta : Type 0 where
  pub replicas : List Int32
  pub leader : Int32
  pub isr : List Int32
  pub leader_epoch : Int32

pub record TopicMeta : Type 0 where
  pub partitions : Int32
  pub parts : List PartitionMeta

pub record SegmentRef : Type 0 where
  pub key : Bytes
  pub base_offset : Int64
  pub next_offset : Int64
  pub position : Int64
  pub size : Int64
  pub uploaded_ms : Int64

pub record MetaState : Type 0 where
  pub topics : Map Bytes TopicMeta
  pub segments : Map Bytes (List SegmentRef)

-- A uint8 in the code; the zero value and whatever else is no command are `cmd_unknown`.
pub data CmdType : Type 0 where
  cmd_create_topic : CmdType
  cmd_create_partitions : CmdType
  cmd_change_leader : CmdType
  cmd_change_isr : CmdType
  cmd_heartbeat : CmdType
  cmd_commit_segment : CmdType
  cmd_prune_segments : CmdType
  cmd_unknown : ℕ → CmdType

-- One struct for all commands; a type says which fields count.
pub record Command : Type 0 where
  pub cmd_type : CmdType
  pub topic : Bytes
  pub partition : Int32
  pub partitions : Int32
  pub replicas : List (List Int32)
  pub leader : Int32
  pub isr : List Int32
  pub from : Int32
  pub segment : Option SegmentRef
  pub cutoff : Int64

pub data FsmError : Type 0 where
  topic_exists : FsmError
  unknown_topic : FsmError
  no_partition : FsmError
  nil_segment : FsmError
  unknown_type : FsmError

abbrev pub new_fsm : MetaState
new_fsm = record { topics = []; segments = [] }

-- topic + "\x00" + strconv.Itoa(p)
abbrev pub seg_key : Bytes → Int32 → Bytes
seg_key topic p = topic ++ (0 ∷ itoa p)

abbrev first_or_none : List Int32 → Int32
first_or_none [] = minus_one32
first_or_none (r ∷ rs) = r

abbrev pub parts_from_replicas : List (List Int32) → List PartitionMeta
parts_from_replicas =
    map (λ rs. record { replicas = rs; leader = first_or_none rs; isr = rs; leader_epoch = 0 })

-- `t.Parts[p]`, for the p that is in range.
unfoldable pub part_at : List PartitionMeta → Int32 → Option PartitionMeta
part_at parts p = if is_neg32 p then none else get_elem? parts p

abbrev pub of_topic : Int32 → Option TopicMeta → Option PartitionMeta
of_topic p none = none
of_topic p (some t) = part_at t.parts p

unfoldable pub partition : MetaState → Bytes → Int32 → Option PartitionMeta
partition st topic p = of_topic p (lookup topic st.topics)

abbrev pub create_topic : MetaState → Command → Option TopicMeta → Option FsmError × MetaState
create_topic st cmd (some t) = (some topic_exists, st)
create_topic st cmd none = (
  none,
  record st {
    topics =
        insert cmd.topic
          (record {
            partitions = to_i32 (length cmd.replicas);
            parts = parts_from_replicas cmd.replicas;
          })
          st.topics;
  },
)

abbrev pub create_partitions : MetaState → Command → Option TopicMeta → Option FsmError × MetaState
create_partitions st cmd none = (some unknown_topic, st)
create_partitions st cmd (some t) =
    let parts = t.parts ++ parts_from_replicas cmd.replicas in
    (
      none,
      record st {
        topics =
            insert cmd.topic (record { partitions = to_i32 (length parts); parts = parts })
              st.topics;
      },
    )

abbrev set_part :
    MetaState
    → Command
    → (PartitionMeta → PartitionMeta)
    → TopicMeta
    → Option PartitionMeta
    → Option FsmError × MetaState
set_part st cmd change t none = (some no_partition, st)
set_part st cmd change t (some pm) = (
  none,
  record st {
    topics =
        insert cmd.topic (record t { parts = set t.parts cmd.partition (change pm) }) st.topics;
  },
)

-- What a command writes through the pointer that `partition` answers.
abbrev pub update_part :
    MetaState
    → Command
    → (PartitionMeta → PartitionMeta)
    → Option TopicMeta
    → Option FsmError × MetaState
update_part st cmd change none = (some unknown_topic, st)
update_part st cmd change (some t) = set_part st cmd change t (part_at t.parts cmd.partition)

abbrev pub change_leader : Command → PartitionMeta → PartitionMeta
change_leader cmd pm = record pm {
  leader = cmd.leader;
  isr = cmd.isr;
  leader_epoch = add32 pm.leader_epoch 1;
}

abbrev pub change_isr : Command → PartitionMeta → PartitionMeta
change_isr cmd pm = record pm { isr = cmd.isr }

abbrev pub refs_at : Bytes → MetaState → List SegmentRef
refs_at k st = elim (lookup k st.segments) [ none ↦ [] | some refs ↦ refs ]

abbrev pub commit_segment : MetaState → Bytes → Option SegmentRef → Option FsmError × MetaState
commit_segment st k none = (some nil_segment, st)
commit_segment st k (some ref) =
    (none, record st { segments = insert k (refs_at k st ++ (ref ∷ [])) st.segments })

-- The references that reach beyond the cutoff.
unfoldable pub keep_above : Int64 → List SegmentRef → List SegmentRef
keep_above cutoff [] = []
keep_above cutoff (r ∷ refs) =
    let rest = keep_above cutoff refs in if lt_i64 cutoff r.next_offset then r ∷ rest else rest

abbrev pub store_kept : MetaState → Bytes → List SegmentRef → MetaState
store_kept st k [] = record st { segments = remove k st.segments }
store_kept st k (r ∷ kept) = record st { segments = insert k (r ∷ kept) st.segments }

abbrev pub apply_as : CmdType → MetaState → Command → Option FsmError × MetaState
apply_as cmd_create_topic st cmd = create_topic st cmd (lookup cmd.topic st.topics)
apply_as cmd_create_partitions st cmd = create_partitions st cmd (lookup cmd.topic st.topics)
apply_as cmd_change_leader st cmd =
    update_part st cmd (change_leader cmd) (lookup cmd.topic st.topics)
apply_as cmd_change_isr st cmd = update_part st cmd (change_isr cmd) (lookup cmd.topic st.topics)
apply_as cmd_heartbeat st cmd = (some unknown_type, st)
apply_as cmd_commit_segment st cmd = commit_segment st (seg_key cmd.topic cmd.partition) cmd.segment
apply_as cmd_prune_segments st cmd =
    let k = seg_key cmd.topic cmd.partition in
    (none, store_kept st k (keep_above cmd.cutoff (refs_at k st)))
apply_as (cmd_unknown n) st cmd = (some unknown_type, st)

-- applyLocked
abbrev pub apply : MetaState → Command → Option FsmError × MetaState
apply st cmd = apply_as cmd.cmd_type st cmd

abbrev pub has_topic : MetaState → Bytes → Bool
has_topic st name = elim (lookup name st.topics) [ none ↦ false | some t ↦ true ]

abbrev pub partition_leader : MetaState → Bytes → Int32 → Option (Int32 × Int32)
partition_leader st topic p = elim (partition st topic p) [
  | none ↦ none
  | some pm ↦ some (pm.leader, pm.leader_epoch)
]

abbrev pub partitions : MetaState → Bytes → Option Int32
partitions st topic = elim (lookup topic st.topics) [ none ↦ none | some t ↦ some t.partitions ]

-- Segments
abbrev pub segments : MetaState → Bytes → Int32 → List SegmentRef
segments st topic p = refs_at (seg_key topic p) st

unfoldable pub any_key : Bytes → List SegmentRef → Bool
any_key key [] = false
any_key key (r ∷ refs) = if bytes_beq r.key key then true else any_key key refs

unfoldable pub referenced_in : Bytes → Map Bytes (List SegmentRef) → Bool
referenced_in key [] = false
referenced_in key ((k, refs) ∷ rest) = if any_key key refs then true else referenced_in key rest

abbrev pub segment_referenced : MetaState → Bytes → Bool
segment_referenced st key = referenced_in key st.segments

-- What indexStore.Prune drops.
unfoldable pub drop_up_to : Int64 → List SegmentRef → List SegmentRef
drop_up_to cutoff [] = []
drop_up_to cutoff (r ∷ refs) =
    let rest = drop_up_to cutoff refs in if le_i64 r.next_offset cutoff then r ∷ rest else rest
