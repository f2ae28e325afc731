-- ===== src/Group/Coordinator/Invariant.antt =====
-- internal/group/coordinator.go: a group has a leader among its members, or it is empty.
use mq.Common.{
  ◌==◌, ◌≡◌, ◌≢◌, refl, sym, ap, ◌∙◌, Bool, true, false, not, ◌&&◌, ◌||◌, Option, none, some, List,
  [], ◌∷◌, Bytes, Int32, if◌then◌else◌, arith, Bool-cases, inl, inr, ltb, lt_i32,
}
use mathlib.Core.Path.{subst}
use mq.Common.Keys.{Map, lookup, insert, remove, bytes_eq, bytes_beq, bytes_beq_iff, lookup-insert}
use mq.Group.Coordinator.{
  Group, GroupState, empty, awaiting_sync, stable, Member, Members, Time, JoinArgs, is_member,
  is_awaiting, is_stable, is_nil, unsync, open_round, settle_leader, joined, join, assign,
  assign_found, finish_sync, wake, lead_sync, sync, beat, first_id, new_leader, reopened, rebalance,
  leave, expired, remove_all, reap_dead, reap, member_id_of, refreshed, or_new, new_group,
}

abbrev pub IsLed : GroupState → Bytes → Members → Type 0
IsLed state leader [] = (state ≡ empty) × (leader ≡ [])
IsLed state leader (m ∷ ms) = (state ≢ empty) × (is_member leader (m ∷ ms) ≡ true)

-- An empty group is in state Empty and has no leader; any other is in another state, and its
-- leader is a member.
pub IsGroup : Group → Type 0
IsGroup g = IsLed g.state g.leader_id g.members

abbrev pub SameKeys : Members → Members → Type 0
SameKeys ms ms' = (j : Bytes) → is_member j ms' ≡ is_member j ms

pub is_member-insert :
    (j k : Bytes) (m : Member) (ms : Members)
    → is_member j (insert k m ms) ≡ (if bytes_beq k j then true else is_member j ms)
is_member-insert j k m ms = ground (arith, lookup-insert k j m ms)

is_member-head : (k : Bytes) (m : Member) (ms : Members) → is_member k ((k, m) ∷ ms) ≡ true
unfolding lookup
is_member-head k m ms = ground (arith, bytes_beq_iff k k)

pub is_member-unsync : (j : Bytes) (ms : Members) → is_member j (unsync ms) ≡ is_member j ms
unfolding unsync lookup
is_member-unsync j [] = refl
is_member-unsync j ((k, m) ∷ ms) = ground (arith, is_member-unsync j ms)

SameKeys-IsLed :
    (s : GroupState) (l : Bytes) (ms ms' : Members) → SameKeys ms ms' → IsLed s l ms → IsLed s l ms'
unfolding lookup
SameKeys-IsLed s l [] [] e h = h
SameKeys-IsLed s l [] ((k, m) ∷ ms') e h = absurd (ground (arith, e k, is_member-head k m ms'))
SameKeys-IsLed s l ((k, m) ∷ ms) [] e h = absurd (ground (arith, e k, is_member-head k m ms))
SameKeys-IsLed s l (x ∷ ms) (y ∷ ms') e h = (h.0, e l ∙ h.1)

-- Whoever is a member makes the group not empty.
member-IsLed :
    (s : GroupState) (l : Bytes) (ms : Members) → s ≢ empty → is_member l ms ≡ true → IsLed s l ms
unfolding lookup
member-IsLed s l [] h e = absurd (ground arith)
member-IsLed s l (m ∷ ms) h e = (h, e)

same-insert :
    (id : Bytes) (m : Member) (ms : Members) → is_member id ms ≡ true → SameKeys ms (insert id m ms)
same-insert id m ms h j = ground (
  arith,
  is_member-insert j id m ms,
  bytes_beq_iff id j,
  ap (λ k. is_member k ms) {x = id} {y = j},
)

assign_found-SameKeys :
    (id a : Bytes) (ms : Members) (o : Option Member)
    → lookup id ms ≡ o
    → SameKeys ms (assign_found id a ms o)
assign_found-SameKeys id a ms none e j = refl
assign_found-SameKeys id a ms (some m) e j =
    same-insert id (record m { assignment = a }) ms (ground arith) j

pub assign-SameKeys : (given : Map Bytes Bytes) (ms : Members) → SameKeys ms (assign given ms)
unfolding assign
assign-SameKeys [] ms j = refl
assign-SameKeys ((id, a) ∷ given) ms j =
    let others = assign given ms in
    assign_found-SameKeys id a others (lookup id others) refl j ∙ assign-SameKeys given ms j

-- The group stays as it is but for what its members hold.
finish_sync-IsGroup :
    (g : Group) (id : Bytes) (now : Time) (o : Option Member)
    → lookup id g.members ≡ o
    → IsGroup g
    → IsGroup (finish_sync g id now o).1
unfolding IsGroup
finish_sync-IsGroup g id now none e h = h
finish_sync-IsGroup g id now (some m) e h =
    let n : Member = record m { synced = true; last_heartbeat = now } in
    SameKeys-IsLed g.state g.leader_id g.members (insert id n g.members)
      (same-insert id n g.members (ground arith)) h

pub wake-IsGroup :
    (g : Group) (id : Bytes) (generation : Int32) (deadline now : Time)
    → IsGroup g
    → IsGroup (wake g id generation deadline now).1
unfolding wake
wake-IsGroup g id generation deadline now h =
    elim (Bool-cases
      (not (is_stable g.state) && (generation == g.generation) && ltb now deadline)) [
        | inl e ↦ rw e h
        | inr e ↦ elim (Bool-cases (not (generation == g.generation))) [
          | inl n ↦ rw (e, n) h
          | inr n ↦ rw (e, n) (finish_sync-IsGroup g id now (lookup id g.members) refl h)
        ]
      ]

lead_sync-IsGroup :
    (g : Group) (id : Bytes) (assignments : Map Bytes Bytes) (now : Time)
    → is_member g.leader_id g.members ≡ true
    → IsGroup (lead_sync g id assignments now).1
unfolding lead_sync IsGroup
lead_sync-IsGroup g id assignments now h =
    let given = assign assignments g.members in
    finish_sync-IsGroup (record g { members = given; state = stable }) id now (lookup id given) refl
      (member-IsLed stable g.leader_id given (ground arith)
        (assign-SameKeys assignments g.members g.leader_id ∙ h))

pub sync-IsGroup :
    (g : Group) (id : Bytes) (generation : Int32) (assignments : Map Bytes Bytes) (now : Time)
    → IsGroup g
    → IsGroup (sync g id generation assignments now).1
unfolding sync
sync-IsGroup g id generation assignments now h = elim (Bool-cases (is_member id g.members)) [
  | inr e ↦ rw e h
  | inl e ↦ elim (Bool-cases (generation == g.generation)) [
    | inr n ↦ rw (e, n) h
    | inl n ↦ elim (Bool-cases (bytes_beq id g.leader_id)) [
      | inl l ↦
          rw (e, n, l)
            (lead_sync-IsGroup g id assignments now
              (subst (λ k. is_member k g.members ≡ true) ((bytes_beq_iff id g.leader_id).0 l) e))
      | inr l ↦ rw (e, n, l) (wake-IsGroup g id generation _ now h)
    ]
  ]
]

pub beat-IsGroup :
    (g : Group) (id : Bytes) (generation : Int32) (now : Time) (o : Option Member)
    → lookup id g.members ≡ o
    → IsGroup g
    → IsGroup (beat g id generation now o).1
unfolding IsGroup
beat-IsGroup g id generation now none e h = h
beat-IsGroup g id generation now (some m) e h =
    let n : Member = record m { last_heartbeat = now } in
    let kept =
      SameKeys-IsLed g.state g.leader_id g.members (insert id n g.members)
        (same-insert id n g.members (ground arith)) h in
    elim (Bool-cases (lt_i32 generation g.generation)) [
      | inl a ↦ rw a h
      | inr a ↦ elim (Bool-cases (lt_i32 g.generation generation)) [
        | inl b ↦ rw (a, b) h
        | inr b ↦ rw (a, b) kept
      ]
    ]

-- What a round keeps: who is a member.
open_round-member :
    (b : Bool) (g : Group) (j : Bytes)
    → is_member j (open_round b g).members ≡ is_member j g.members
unfolding open_round
open_round-member false g j = refl
open_round-member true g j = is_member-unsync j g.members

settle_leader-member :
    (id : Bytes) (g : Group)
    → is_member id g.members ≡ true
    → is_member (settle_leader id g).leader_id (settle_leader id g).members ≡ true
unfolding settle_leader
settle_leader-member id g h =
    elim (Bool-cases (not (is_member g.leader_id g.members) || is_nil g.leader_id)) [
      | inl e ↦ rw e h
      | inr e ↦ rw e (ground arith)
    ]

settle_leader-state : (id : Bytes) (g : Group) → (settle_leader id g).state ≡ g.state
unfolding settle_leader
settle_leader-state id g =
    elim (Bool-cases (not (is_member g.leader_id g.members) || is_nil g.leader_id)) [
      | inl e ↦ rw e refl
      | inr e ↦ rw e refl
    ]

open_round-state :
    (new : Bool) (g : Group) → (open_round (new || not (is_awaiting g.state)) g).state ≢ empty
unfolding open_round
open_round-state true g = λ e. ground arith
open_round-state false g = go g.state refl
  where
    go : (s : GroupState) → g.state ≡ s → (open_round (not (is_awaiting s)) g).state ≢ empty
    go empty e = λ q. ground arith
    go awaiting_sync e = λ q. ground arith
    go stable e = λ q. ground arith

module _ (range : Members → Members)
    (ranges : (ms : Members) (k : Bytes) → lookup k (range ms) ≡ lookup k ms) where
  joined-IsGroup :
      (g : Group) (args : JoinArgs) (id : Bytes) (now : Time) → IsGroup (joined range g args id now)
  unfolding IsGroup
  joined-IsGroup g args id now =
      let ms = insert id (refreshed args now (or_new id (lookup id g.members))) g.members in
      let added : Group = record g { members = ms } in
      let new = is_nil args.member_id || not (is_member id g.members) in
      let opened = open_round (new || not (is_awaiting g.state)) added in
      let settled = settle_leader id opened in
      let here : is_member id opened.members ≡ true =
        open_round-member (new || not (is_awaiting g.state)) added id
        ∙ is_member-insert id id _ g.members
        ∙ ground (arith, bytes_beq_iff id id) in
      member-IsLed settled.state settled.leader_id settled.members
        (λ e. open_round-state new added (sym (settle_leader-state id opened) ∙ e))
        (settle_leader-member id opened here)

  pub join-IsGroup :
      (g : Group) (args : JoinArgs) (random : Bytes) (now : Time)
      → IsGroup (join range g args random now).1
  unfolding join
  join-IsGroup g args random now = joined-IsGroup g args (member_id_of args random) now

  first_id-member :
      (other : Bytes) (m : Bytes × Member) (ms : Members)
      → is_member (first_id other (range (m ∷ ms))) (m ∷ ms) ≡ true
  unfolding lookup
  first_id-member other (k, m) ms = go (range ((k, m) ∷ ms)) (ranges ((k, m) ∷ ms))
    where
      go :
          (r : Members)
          → ((j : Bytes) → lookup j r ≡ lookup j ((k, m) ∷ ms))
          → is_member (first_id other r) ((k, m) ∷ ms) ≡ true
      go [] h = absurd (ground (arith, h k, is_member-head k m ms))
      go ((j, n) ∷ r) h = ground (arith, h j, is_member-head j n r)

  reopened-IsGroup : (g : Group) (ms : Members) → g.members ≡ ms → IsGroup (reopened range g ms)
  unfolding IsGroup
  reopened-IsGroup g [] e = rw e (refl, refl)
  reopened-IsGroup g (m ∷ ms) e =
      let h = new_leader range g in
      member-IsLed awaiting_sync h.leader_id (unsync h.members) (λ q. ground arith)
        (is_member-unsync h.leader_id h.members ∙ leads)
    where
      leads : is_member (new_leader range g).leader_id (new_leader range g).members ≡ true
      leads = elim (Bool-cases (is_member g.leader_id g.members)) [
        | inl l ↦ rw l l
        | inr l ↦ rw (l, e) (first_id-member g.leader_id m ms)
      ]

  rebalance-IsGroup : (g : Group) → IsGroup (rebalance range g)
  unfolding rebalance
  rebalance-IsGroup g = reopened-IsGroup g g.members refl

  pub leave-IsGroup : (g : Group) (id : Bytes) → IsGroup g → IsGroup (leave range g id).1
  unfolding leave
  leave-IsGroup g id h = elim (Bool-cases (is_member id g.members)) [
    | inl e ↦ rw e (rebalance-IsGroup (record g { members = remove id g.members }))
    | inr e ↦ rw e h
  ]

  pub reap-IsGroup : (g : Group) (now : Time) → IsGroup g → IsGroup (reap range g now)
  unfolding reap
  reap-IsGroup g now h = go (expired now g.members)
    where
      go : (ids : List Bytes) → IsGroup (reap_dead range g ids)
      go [] = h
      go (id ∷ ids) = rebalance-IsGroup (record g { members = remove_all (id ∷ ids) g.members })

pub new_group-IsGroup : (id protocol_type : Bytes) → IsGroup (new_group id protocol_type)
unfolding IsGroup
new_group-IsGroup id protocol_type = (refl, refl)
