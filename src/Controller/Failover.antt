-- ===== src/Controller/Failover.antt =====
-- internal/controller/liveness.go: who is alive and the election of partition leaders. The clock
-- is an argument; a time is a number of nanoseconds.
pub mod Elects
use mq.Common.{
  ℕ, zero, suc, ◌+◌, ◌-◌, ◌*◌, ◌==◌, Bool, true, false, not, ◌&&◌, Option, none, some, List, [],
  ◌∷◌, ◌++◌, map, Bytes, Int32, leb, ltb, is_neg32, to_i32, if◌then◌else◌, length, flatten,
}
use mq.Common.Keys.{Map, lookup, insert, nat_eq}
use mq.Controller.Fsm.{MetaState, PartitionMeta, TopicMeta, Command, cmd_change_leader, apply}

abbrev pub Time : Type 0
Time = ℕ

-- 3 * time.Second
abbrev pub liveness_timeout : ℕ
liveness_timeout = 3 * 1_000_000_000

pub record Liveness : Type 0 where
  pub node_id : Int32
  pub last_seen : Map Int32 Time
  pub leader_since : Time

abbrev pub on_become_leader : Liveness → Time → Liveness
on_become_leader c now = record c { last_seen = []; leader_since = now }

abbrev pub record_heartbeat : Liveness → Int32 → Time → Liveness
record_heartbeat c id now = record c { last_seen = insert id now c.last_seen }

abbrev seen_lately : Time → Option Time → Bool
seen_lately now none = false
seen_lately now (some ls) = leb (now - ls) liveness_timeout

unfoldable pub alive : Liveness → Int32 → Time → Bool
alive c id now = if id == c.node_id then true else seen_lately now (lookup id c.last_seen)

-- The view of a topic: its name and its partitions.
abbrev pub TopicView : Type 0
TopicView = Bytes × List PartitionMeta

-- Names are ordered by their bytes.
unfoldable pub bytes_ltb : Bytes → Bytes → Bool
bytes_ltb [] [] = false
bytes_ltb [] (y ∷ ys) = true
bytes_ltb (x ∷ xs) [] = false
bytes_ltb (x ∷ xs) (y ∷ ys) =
    let rest = bytes_ltb xs ys in if ltb x y then true else if ltb y x then false else rest

unfoldable pub insert_view : TopicView → List TopicView → List TopicView
insert_view v [] = v ∷ []
insert_view v (w ∷ ws) =
    let rest = insert_view v ws in if bytes_ltb v.0 w.0 then v ∷ w ∷ ws else w ∷ rest

-- FSM.Topics: every topic, by name.
unfoldable pub views : Map Bytes TopicMeta → List TopicView
views [] = []
views ((name, t) ∷ rest) = insert_view (name, t.parts) (views rest)

unfoldable pub survivors : Liveness → Time → List Int32 → List Int32
survivors c now [] = []
survivors c now (id ∷ ids) =
    let rest = survivors c now ids in if alive c id now then id ∷ rest else rest

abbrev pub change_leader_to : Bytes → Int32 → Int32 → List Int32 → Command
change_leader_to topic p leader isr = record {
  cmd_type = cmd_change_leader;
  topic = topic;
  partition = p;
  partitions = 0;
  replicas = [];
  leader = leader;
  isr = isr;
  from = 0;
  segment = none;
  cutoff = 0;
}

-- The command for one partition, from its survivors; none if it is left alone.
abbrev pub elect : Bytes → Int32 → PartitionMeta → List Int32 → List Command
elect topic p pv [] = []
elect topic p pv (id ∷ ids) =
    if id == pv.leader then [] else change_leader_to topic p id (id ∷ ids) ∷ []

unfoldable pub failover_part : Liveness → Time → Bytes → Int32 → PartitionMeta → List Command
failover_part c now topic p pv =
    if not (is_neg32 pv.leader) && alive c pv.leader now
    then []
    else elect topic p pv (survivors c now pv.isr)

-- The partitions of a topic from index i on.
unfoldable pub failover_parts : Liveness → Time → Bytes → ℕ → List PartitionMeta → List Command
failover_parts c now topic i [] = []
failover_parts c now topic i (pv ∷ pvs) =
    failover_part c now topic (to_i32 i) pv ++ failover_parts c now topic (suc i) pvs

unfoldable pub failover_topics : Liveness → Time → List TopicView → List Command
failover_topics c now [] = []
failover_topics c now (tv ∷ tvs) = failover_parts c now tv.0 0 tv.1 ++ failover_topics c now tvs

-- The commands that the controller proposes, in order.
unfoldable pub check_failover : Liveness → Time → MetaState → List Command
check_failover c now st =
    if ltb (now - c.leader_since) liveness_timeout
    then []
    else failover_topics c now (views st.topics)
