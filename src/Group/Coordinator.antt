-- ===== src/Group/Coordinator.antt =====
-- internal/group/coordinator.go: consumer groups. A method runs under the lock of its group, so it
-- is one step on the group; a follower that waits in Sync is a step that begins and one that wakes.
-- The clock, a random id and the order in which Go ranges over a map are arguments.
pub mod Invariant
pub mod Fencing
pub mod History
use mq.Common.{
  ℕ, zero, suc, ◌+◌, ◌-◌, ◌*◌, ◌==◌, Bool, true, false, not, ◌&&◌, ◌||◌, Option, none, some, List,
  [], ◌∷◌, ◌++◌, map, Bytes, Int16, Int32, ltb, le_i32, lt_i32, add32, if◌then◌else◌,
}
use mq.Common.Keys.{Map, lookup, insert, remove, bytes_eq, bytes_beq}

abbrev pub err_none : Int16
err_none = 0

abbrev pub err_illegal_generation : Int16
err_illegal_generation = 22

abbrev pub err_unknown_member_id : Int16
err_unknown_member_id = 25

abbrev pub err_rebalance_in_progress : Int16
err_rebalance_in_progress = 27

abbrev pub Time : Type 0
Time = ℕ

abbrev second : Time
second = 1_000_000_000

abbrev pub sync_wait_timeout : Time
sync_wait_timeout = 30 * second

pub data GroupState : Type 0 where
  empty : GroupState
  awaiting_sync : GroupState
  stable : GroupState

pub record Protocol : Type 0 where
  pub name : Bytes
  pub metadata : Bytes

pub record Member : Type 0 where
  pub id : Bytes
  pub protocols : List Protocol
  pub assignment : Bytes
  pub last_heartbeat : Time
  pub session_timeout : Time
  pub synced : Bool

abbrev pub Members : Type 0
Members = Map Bytes Member

pub record Group : Type 0 where
  pub id : Bytes
  pub protocol_type : Bytes
  pub generation : Int32
  pub leader_id : Bytes
  pub protocol_name : Bytes
  pub state : GroupState
  pub members : Members

pub record JoinArgs : Type 0 where
  pub group_id : Bytes
  pub member_id : Bytes
  pub client_id : Bytes
  pub protocol_type : Bytes
  pub protocols : List Protocol
  pub session_timeout_ms : Int32
  pub rebalance_timeout_ms : Int32

pub record JoinResult : Type 0 where
  pub error_code : Int16
  pub generation_id : Int32
  pub protocol_name : Bytes
  pub leader_id : Bytes
  pub member_id : Bytes
  pub members : List (Bytes × Bytes)

pub record SyncResult : Type 0 where
  pub error_code : Int16
  pub assignment : Bytes

abbrev pub new_group : Bytes → Bytes → Group
new_group id protocol_type = record {
  id = id;
  protocol_type = protocol_type;
  generation = 0;
  leader_id = [];
  protocol_name = [];
  state = empty;
  members = [];
}

abbrev pub new_member : Bytes → Member
new_member id = record {
  id = id;
  protocols = [];
  assignment = [];
  last_heartbeat = 0;
  session_timeout = 0;
  synced = false;
}

abbrev pub is_member : Bytes → Members → Bool
is_member id ms = elim (lookup id ms) [ none ↦ false | some m ↦ true ]

-- for _, mm := range g.members { mm.synced = false }
unfoldable pub unsync : Members → Members
unsync [] = []
unsync ((k, m) ∷ ms) = (k, record m { synced = false }) ∷ unsync ms

named_metadata : Bytes → List Protocol → Option Bytes
named_metadata name [] = none
named_metadata name (p ∷ ps) =
    let rest = named_metadata name ps in if bytes_beq p.name name then some p.metadata else rest

abbrev first_metadata : List Protocol → Bytes
first_metadata [] = []
first_metadata (p ∷ ps) = p.metadata

unfoldable pub metadata_for : Member → Bytes → Bytes
unfolding named_metadata
metadata_for m name = elim (named_metadata name m.protocols) [
  | none ↦ first_metadata m.protocols
  | some b ↦ b
]

unfoldable pub first_protocol : Members → Bytes
first_protocol [] = []
first_protocol ((k, m) ∷ ms) =
    let rest = first_protocol ms in elim m.protocols [ [] ↦ rest | p ∷ ps ↦ p.name ]

abbrev leader_protocol : Bytes → Option Member → Bytes
leader_protocol other none = other
leader_protocol other (some m) = elim m.protocols [ [] ↦ other | p ∷ ps ↦ p.name ]

-- In milliseconds; none or less gives 30 seconds.
abbrev pub session_timeout_of : Int32 → Time
session_timeout_of ms = if le_i32 ms 0 then 30 * second else ms * 1_000_000

-- A member as a join finds it, or a new one.
abbrev pub or_new : Bytes → Option Member → Member
or_new id none = new_member id
or_new id (some m) = m

abbrev pub refreshed : JoinArgs → Time → Member → Member
refreshed args now m = record m {
  protocols = args.protocols;
  last_heartbeat = now;
  session_timeout = session_timeout_of args.session_timeout_ms;
}

abbrev is_awaiting : GroupState → Bool
is_awaiting awaiting_sync = true
is_awaiting _ = false

abbrev pub is_stable : GroupState → Bool
is_stable stable = true
is_stable _ = false

-- A new generation, when a join opens one.
unfoldable pub open_round : Bool → Group → Group
open_round false g = g
open_round true g = record g {
  generation = add32 g.generation 1;
  state = awaiting_sync;
  members = unsync g.members;
}

abbrev pub is_nil : Bytes → Bool
is_nil [] = true
is_nil (b ∷ bs) = false

-- The joiner leads if the old leader is gone.
unfoldable pub settle_leader : Bytes → Group → Group
settle_leader id g =
    if not (is_member g.leader_id g.members) || is_nil g.leader_id
    then record g { leader_id = id }
    else g

abbrev pub member_id_of : JoinArgs → Bytes → Bytes
member_id_of args random =
    if is_nil args.member_id then args.client_id ++ (45 ∷ random) else args.member_id

abbrev first_id : Bytes → Members → Bytes
first_id other [] = other
first_id other ((k, m) ∷ ms) = k

-- The ids of the members whose session has expired.
unfoldable pub expired : Time → Members → List Bytes
expired now [] = []
expired now ((k, m) ∷ ms) =
    let rest = expired now ms in
    if ltb m.session_timeout (now - m.last_heartbeat) then k ∷ rest else rest

abbrev pub remove_all : List Bytes → Members → Members
remove_all [] ms = ms
remove_all (id ∷ ids) ms = remove_all ids (remove id ms)

-- The leader's assignments; an id that is no member is passed over.
abbrev pub assign_found : Bytes → Bytes → Members → Option Member → Members
assign_found id a ms none = ms
assign_found id a ms (some m) = insert id (record m { assignment = a }) ms

unfoldable pub assign : Map Bytes Bytes → Members → Members
assign [] ms = ms
assign ((id, a) ∷ rest) ms =
    let others = assign rest ms in assign_found id a others (lookup id others)

-- Where a Sync stands: answered, or waiting for the leader.
pub data Sync : Type 0 where
  answered : SyncResult → Sync
  waiting : Sync

abbrev pub failed : Int16 → SyncResult
failed code = record { error_code = code; assignment = [] }

-- The end of Sync: the member is synced and gets its assignment.
abbrev pub finish_sync : Group → Bytes → Time → Option Member → Sync × Group
finish_sync g id now none = (answered (failed err_unknown_member_id), g)
finish_sync g id now (some m) = (
  answered (record { error_code = err_none; assignment = m.assignment }),
  record g { members = insert id (record m { synced = true; last_heartbeat = now }) g.members },
)

-- A follower that looks again, at its first look or after a wake: it waits on, or it is done. A
-- member that leaves takes its generation with it, so in the generation it waits for it is a member.
unfoldable pub wake : Group → Bytes → Int32 → Time → Time → Sync × Group
wake g id generation deadline now =
    if not (is_stable g.state) && (generation == g.generation) && ltb now deadline
    then (waiting, g)
    else if not (generation == g.generation)
    then (answered (failed err_rebalance_in_progress), g)
    else finish_sync g id now (lookup id g.members)

-- The leader's call.
unfoldable pub lead_sync : Group → Bytes → Map Bytes Bytes → Time → Sync × Group
lead_sync g id assignments now =
    let h : Group = record g { members = assign assignments g.members; state = stable } in
    finish_sync h id now (lookup id h.members)

unfoldable pub sync : Group → Bytes → Int32 → Map Bytes Bytes → Time → Sync × Group
sync g id generation assignments now =
    if not (is_member id g.members)
    then (answered (failed err_unknown_member_id), g)
    else if not (generation == g.generation)
    then (answered (failed err_illegal_generation), g)
    else if bytes_beq id g.leader_id
    then lead_sync g id assignments now
    else wake g id generation (now + sync_wait_timeout) now

abbrev pub beat : Group → Bytes → Int32 → Time → Option Member → Int16 × Group
beat g id generation now none = (err_unknown_member_id, g)
beat g id generation now (some m) =
    if lt_i32 generation g.generation
    then (err_rebalance_in_progress, g)
    else if lt_i32 g.generation generation
    then (err_illegal_generation, g)
    else (err_none, record g { members = insert id (record m { last_heartbeat = now }) g.members })

unfoldable pub heartbeat : Group → Bytes → Int32 → Time → Int16 × Group
heartbeat g id generation now = beat g id generation now (lookup id g.members)

-- `range` is the order in which Go gives the entries of a map.
module _ (range : Members → Members) where
  unfoldable pub choose_protocol : Group → Bytes
  choose_protocol g =
      leader_protocol (first_protocol (range g.members)) (lookup g.leader_id g.members)

  abbrev pub join_members : Group → Bytes → List (Bytes × Bytes)
  join_members g id =
      if bytes_beq id g.leader_id
      then map (λ e. (e.0, metadata_for e.1 g.protocol_name)) (range g.members)
      else []

  -- The group after a join by `id`.
  abbrev pub joined : Group → JoinArgs → Bytes → Time → Group
  joined g args id now =
      let is_new = is_nil args.member_id || not (is_member id g.members) in
      let added : Group = record g {
        members = insert id (refreshed args now (or_new id (lookup id g.members))) g.members;
      } in
      let settled = settle_leader id (open_round (is_new || not (is_awaiting g.state)) added) in
      record settled { protocol_name = choose_protocol settled }

  unfoldable pub join : Group → JoinArgs → Bytes → Time → JoinResult × Group
  join g args random now =
      let id = member_id_of args random in
      let h = joined g args id now in
      (
        record {
          error_code = err_none;
          generation_id = h.generation;
          protocol_name = h.protocol_name;
          leader_id = h.leader_id;
          member_id = id;
          members = join_members h id;
        },
        h,
      )

  abbrev new_leader : Group → Group
  new_leader g =
      if is_member g.leader_id g.members
      then g
      else record g { leader_id = first_id g.leader_id (range g.members) }

  abbrev reopened : Group → Members → Group
  reopened g [] = record g { generation = add32 g.generation 1; state = empty; leader_id = [] }
  reopened g (m ∷ ms) =
      let h = new_leader g in
      record h {
        generation = add32 g.generation 1;
        state = awaiting_sync;
        members = unsync h.members;
      }

  unfoldable pub rebalance : Group → Group
  rebalance g = reopened g g.members

  unfoldable pub leave : Group → Bytes → Int16 × Group
  leave g id =
      if is_member id g.members
      then (err_none, rebalance (record g { members = remove id g.members }))
      else (err_unknown_member_id, g)

  -- What the reaper does to a group at a tick.
  abbrev reap_dead : Group → List Bytes → Group
  reap_dead g [] = g
  reap_dead g (id ∷ ids) = rebalance (record g { members = remove_all (id ∷ ids) g.members })

  unfoldable pub reap : Group → Time → Group
  reap g now = reap_dead g (expired now g.members)
