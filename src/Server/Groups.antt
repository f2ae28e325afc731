-- ===== src/Server/Groups.antt =====
-- internal/server/handlers.go: the handlers of FindCoordinator, Heartbeat, LeaveGroup and ListGroups.
use mq.Common.{Bool, true, false, Option, none, some, List, [], ◌∷◌, Int16, Int32, if◌then◌else◌}
use mq.Cluster
use mq.Cluster.{Cluster, BrokerInfo, group_coordinator, is_coordinator}
use mq.Controller.Failover.{bytes_ltb}
use mq.Group.Coordinator.{Members, Time}
use mq.Group.Groups.{Groups, heartbeat_group, leave_group}
use mq.Protocol.Header.{err_none}
use mq.Protocol.Membership.{
  FindCoordinatorRequest, FindCoordinatorResponse, HeartbeatRequest, HeartbeatResponse,
  LeaveGroupRequest, LeaveGroupResponse,
}
use mq.Protocol.Admin.{ListGroupsGroup}
use mq.Protocol.AdminAnswers.{ListGroupsResponse}
use mq.Server.{err_not_coordinator}

abbrev coordinator_at : Int32 → Option BrokerInfo → FindCoordinatorResponse
coordinator_at id none = record {
  throttle_time = 0;
  error_code = err_none;
  error_message = none;
  node_id = id;
  host = [];
  port = 0;
}
coordinator_at id (some bi) = record {
  throttle_time = 0;
  error_code = err_none;
  error_message = none;
  node_id = id;
  host = bi.host;
  port = bi.port;
}

-- `none` is the panic of a cluster without brokers, here and below.
unfoldable pub find_coordinator : Cluster → FindCoordinatorRequest → Option FindCoordinatorResponse
find_coordinator cl req = elim (group_coordinator cl req.key) [
  | none ↦ none
  | some id ↦ some (coordinator_at id (Cluster.broker cl id))
]

-- A call is made on the coordinator's groups only where this node coordinates the group.
abbrev if_coordinator : Groups → Option Bool → Int16 × Groups → Option (Int16 × Groups)
if_coordinator gs none made = none
if_coordinator gs (some false) made = some (err_not_coordinator, gs)
if_coordinator gs (some true) made = some made

abbrev beaten : Option (Int16 × Groups) → Option (HeartbeatResponse × Groups)
beaten none = none
beaten (some (code, gs)) = some (record { throttle_time = 0; error_code = code }, gs)

unfoldable pub heartbeat :
    Cluster → Groups → HeartbeatRequest → Time → Option (HeartbeatResponse × Groups)
heartbeat cl gs req now = beaten (
    if_coordinator gs (is_coordinator cl req.group_id)
      (heartbeat_group gs req.group_id req.member_id req.generation_id now))

abbrev left : Option (Int16 × Groups) → Option (LeaveGroupResponse × Groups)
left none = none
left (some (code, gs)) = some (record { throttle_time = 0; error_code = code }, gs)

unfoldable pub leave :
    (Members → Members)
    → Cluster
    → Groups
    → LeaveGroupRequest
    → Option (LeaveGroupResponse × Groups)
leave range cl gs req = left (
    if_coordinator gs (is_coordinator cl req.group_id)
      (leave_group range gs req.group_id req.member_id))

abbrev if_listed :
    ListGroupsGroup → Option Bool → Option (List ListGroupsGroup) → Option (List ListGroupsGroup)
if_listed g none rest = none
if_listed g (some false) rest = rest
if_listed g (some true) none = none
if_listed g (some true) (some rest) = some (g ∷ rest)

-- ListGroups of the coordinator, by id.
unfoldable pub insert_group : ListGroupsGroup → List ListGroupsGroup → List ListGroupsGroup
insert_group g [] = g ∷ []
insert_group g (h ∷ hs) =
    let rest = insert_group g hs in if bytes_ltb g.group_id h.group_id then g ∷ h ∷ hs else h ∷ rest

unfoldable pub overviews : Groups → List ListGroupsGroup
overviews [] = []
overviews ((id, g) ∷ gs) =
    insert_group (record { group_id = g.id; protocol_type = g.protocol_type }) (overviews gs)

-- The groups that this node coordinates.
unfoldable pub listed : Cluster → List ListGroupsGroup → Option (List ListGroupsGroup)
listed cl [] = some []
listed cl (g ∷ gs) = if_listed g (is_coordinator cl g.group_id) (listed cl gs)

unfoldable pub list_groups : Cluster → Groups → Option ListGroupsResponse
list_groups cl gs = elim (listed cl (overviews gs)) [
  | none ↦ none
  | some rows ↦ some (record { throttle_time = 0; error_code = err_none; groups = rows })
]
