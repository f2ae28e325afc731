-- ===== src/Tests/Groups.antt =====
-- internal/group: a group of two members and its committed offsets.
use mq.Common.{
  ℕ, ◌+◌, ◌%◌, ◌^◌, ◌≤◌, ◌==◌, ◌≡◌, refl, true, false, ◌&&◌, some, [], ◌∷◌, Bytes, arith,
  if◌then◌else◌,
}
use mq.Common.Keys.{lookup, bytes_eq, bytes_beq}
use mq.Group.Coordinator.{
  Group, Member, Members, JoinArgs, answered, awaiting_sync, new_group, join, sync, wake, heartbeat,
  leave, failed, err_none, err_rebalance_in_progress, err_illegal_generation,
}
use mq.Group.Coordinator.Invariant.{IsGroup, new_group-IsGroup}
use mq.Group.Coordinator.History.{Step, Steps, Steps-IsGroup}
use mq.Group.Coordinator.Fencing.{leave-fences, wake-assigned}
use mq.Group.Offsets.{OffsetStore, encode_commit, decode_commit, commit, fetch}
use mq.Group.Offsets.Commits.{decode_commit-encode_commit, fetch-commit}

abbrev ann : Bytes
ann = 97 ∷ []

abbrev bob : Bytes
bob = 98 ∷ []

abbrev member : Bytes → Member
member id = record {
  id = id;
  protocols = [];
  assignment = [];
  last_heartbeat = 10;
  session_timeout = 100;
  synced = false;
}

abbrev two_members : Group
two_members = record {
  id = 103 ∷ [];
  protocol_type = [];
  generation = 7;
  leader_id = ann;
  protocol_name = [];
  state = awaiting_sync;
  members = (ann, member ann) ∷ (bob, member bob) ∷ [];
}

abbrev as_stored : Members → Members
as_stored ms = ms

abbrev ann_joins : JoinArgs
ann_joins = record {
  group_id = 103 ∷ [];
  member_id = [];
  client_id = ann;
  protocol_type = [];
  protocols = [];
  session_timeout_ms = 1000;
  rebalance_timeout_ms = 1000;
}

abbrev first_join : Group
first_join = (join as_stored (new_group (103 ∷ []) []) ann_joins bob 5).1

two_calls-Steps : Steps as_stored (new_group (103 ∷ []) []) 2 (leave as_stored first_join ann).1
two_calls-Steps =
    Steps.more (Steps.more Steps.none_yet (Step.joins ann_joins bob 5)) (Step.leaves ann)

IsGroup-history_example :
    (IsGroup (leave as_stored first_join ann).1)
    × (k : ℕ) × (k ≤ 2)
    × ((leave as_stored first_join ann).1.generation ≡ (0 + k) % 2 ^ 32)
IsGroup-history_example =
    Steps-IsGroup as_stored (λ ms k. refl) two_calls-Steps (omega arith)
      (new_group-IsGroup (103 ∷ []) [])

leave_example :
    ((heartbeat (leave as_stored two_members ann).1 bob 7 20).0 ≡ err_rebalance_in_progress)
    × (sync (leave as_stored two_members ann).1 bob 7 [] 20
        ≡ (answered (failed err_illegal_generation), (leave as_stored two_members ann).1))
unfolding lookup
leave_example =
    leave-fences as_stored two_members ann bob [] 20 (omega arith) refl refl (λ e. ground arith)

wake_example :
    (wake (sync two_members ann 7 ((bob, 1 ∷ 2 ∷ []) ∷ []) 20).1 bob 7 50 30).0
    ≡ answered (record { error_code = err_none; assignment = 1 ∷ 2 ∷ [] })
unfolding lookup
wake_example =
    wake-assigned two_members bob (1 ∷ 2 ∷ []) ((bob, 1 ∷ 2 ∷ []) ∷ []) 20 50 30 refl refl refl

decode_commit_example : decode_commit (encode_commit 300 ann) ≡ some (300, ann)
decode_commit_example = decode_commit-encode_commit 300 ann (omega arith) (omega arith)

abbrev no_offsets : OffsetStore
no_offsets = record { cache = []; files = [] }

fetch_example : fetch (commit true no_offsets bob ann 0 300 []).1 bob ann 0 ≡ (
    if true && ((bytes_beq bob bob && bytes_beq ann ann) && (0 == 0))
    then (300, [], true)
    else fetch no_offsets bob ann 0)
fetch_example = fetch-commit true no_offsets bob ann 0 300 [] bob ann 0
