-- ===== src/Group/Groups.antt =====
-- internal/group/coordinator.go: the coordinator's map of groups. A call looks its group up and is
-- then one step on it; a group, once made, is never removed.
use mq.Common.{Option, none, some, List, [], ◌∷◌, Bytes, Int16, Int32, map}
use mq.Common.Keys.{Map, lookup, insert, bytes_eq}
use mq.Group.Coordinator.{
  Group, GroupState, empty, awaiting_sync, stable, Members, Time, JoinArgs, JoinResult, Sync,
  answered, new_group, join, sync, heartbeat, leave, reap, metadata_for, failed,
  err_unknown_member_id,
}

abbrev pub Groups : Type 0
Groups = Map Bytes Group

-- String: the names of Kafka, "Empty", "CompletingRebalance" and "Stable".
abbrev pub state_name : GroupState → Bytes
state_name empty = 69 ∷ 109 ∷ 112 ∷ 116 ∷ 121 ∷ []
state_name awaiting_sync =
    67 ∷ 111 ∷ 109 ∷ 112 ∷ 108 ∷ 101 ∷ 116 ∷ 105 ∷ 110 ∷ 103 ∷ 82 ∷ 101 ∷ 98 ∷ 97 ∷ 108 ∷ 97 ∷ 110
    ∷ 99 ∷ 101 ∷ []
state_name stable = 83 ∷ 116 ∷ 97 ∷ 98 ∷ 108 ∷ 101 ∷ []

abbrev made : Bytes → Bytes → Option Group → Group
made id protocol_type none = new_group id protocol_type
made id protocol_type (some g) = g

-- The group that getOrCreate answers.
abbrev pub get_or_create : Groups → Bytes → Bytes → Group
get_or_create gs id protocol_type = made id protocol_type (lookup id gs)

-- The answer of a step on one group, and the map with the group after it.
abbrev put_back : {A : Type 0} → Groups → Bytes → A × Group → A × Groups
put_back gs id (a, g) = (a, insert id g gs)

abbrev on_group :
    {A : Type 0} → Groups → Bytes → A → (Group → A × Group) → Option Group → A × Groups
on_group gs id missing step none = (missing, gs)
on_group gs id missing step (some g) = put_back gs id (step g)

-- SyncGroup of a coordinator, up to its answer or its wait.
unfoldable pub sync_group : Groups → Bytes → Bytes → Int32 → Map Bytes Bytes → Time → Sync × Groups
sync_group gs group_id id generation assignments now =
    on_group gs group_id (answered (failed err_unknown_member_id))
      (λ g. sync g id generation assignments now) (lookup group_id gs)

unfoldable pub heartbeat_group : Groups → Bytes → Bytes → Int32 → Time → Int16 × Groups
heartbeat_group gs group_id id generation now =
    on_group gs group_id err_unknown_member_id (λ g. heartbeat g id generation now)
      (lookup group_id gs)

pub record MemberDescription : Type 0 where
  pub member_id : Bytes
  pub metadata : Bytes
  pub assignment : Bytes

pub record GroupDescription : Type 0 where
  pub state : Bytes
  pub protocol_type : Bytes
  pub protocol : Bytes
  pub members : List MemberDescription

module _ (range : Members → Members) where
  unfoldable pub join_group : Groups → JoinArgs → Bytes → Time → JoinResult × Groups
  join_group gs args random now =
      put_back gs args.group_id
        (join range (get_or_create gs args.group_id args.protocol_type) args random now)

  unfoldable pub leave_group : Groups → Bytes → Bytes → Int16 × Groups
  leave_group gs group_id id =
      on_group gs group_id err_unknown_member_id (λ g. leave range g id) (lookup group_id gs)

  -- One tick of the reaper.
  unfoldable pub reap_groups : Groups → Time → Groups
  reap_groups [] now = []
  reap_groups ((id, g) ∷ gs) now = (id, reap range g now) ∷ reap_groups gs now

  abbrev pub describe : Group → GroupDescription
  describe g = record {
    state = state_name g.state;
    protocol_type = g.protocol_type;
    protocol = g.protocol_name;
    members =
        map
          (λ e. record {
            member_id = e.1.id;
            metadata = metadata_for e.1 g.protocol_name;
            assignment = e.1.assignment;
          })
          (range g.members);
  }

  abbrev pub describe_group : Groups → Bytes → Option GroupDescription
  describe_group gs id = elim (lookup id gs) [ none ↦ none | some g ↦ some (describe g) ]
