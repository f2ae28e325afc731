-- ===== src/Group/Coordinator/Fencing.antt =====
-- internal/group/coordinator.go: what a generation protects, and what Sync hands out.
use mq.Common.{
  ◌+◌, ◌^◌, ◌<◌, ◌==◌, ◌≡◌, ◌≢◌, refl, ap, ◌∙◌, true, false, not, Option, none, some, [], ◌∷◌,
  Bytes, Int32, IsInt32, if◌then◌else◌, arith, Bool-cases, Option-cases, inl, inr, lt_i32, ==_iff,
}
use mq.Common.Keys.{
  Map, lookup, remove, bytes_eq, bytes_beq, bytes_beq_iff, lookup-insert, lookup-remove,
}
use mq.Group.Coordinator.{
  Group, Member, Members, Time, answered, is_member, finish_sync, wake, lead_sync, sync, beat,
  heartbeat, rebalance, reopened, new_leader, leave, assign, assign_found, stable, err_none,
  err_unknown_member_id, err_rebalance_in_progress, err_illegal_generation, failed,
}
use mq.Group.Coordinator.Invariant.{is_member-unsync, assign-SameKeys}
use mq.Group.Coordinator.History.{leave-generation}

-- The code of a heartbeat, for generations of 32 bits: UNKNOWN_MEMBER_ID if the sender is no member,
-- else no error in the group's generation, REBALANCE_IN_PROGRESS in an older one, as signed numbers,
-- and ILLEGAL_GENERATION in a newer one.
heartbeat-codes :
    (g : Group) (id : Bytes) (generation : Int32) (now : Time)
    → IsInt32 generation
    → IsInt32 g.generation
    → (heartbeat g id generation now).0 ≡ (
        if not (is_member id g.members)
        then err_unknown_member_id
        else if generation == g.generation
        then err_none
        else if lt_i32 generation g.generation
        then err_rebalance_in_progress
        else err_illegal_generation)
unfolding heartbeat
heartbeat-codes g id generation now h h' = go (lookup id g.members) refl
  where
    go :
        (o : Option Member)
        → lookup id g.members ≡ o
        → (beat g id generation now o).0 ≡ (
            if not (is_member id g.members)
            then err_unknown_member_id
            else if generation == g.generation
            then err_none
            else if lt_i32 generation g.generation
            then err_rebalance_in_progress
            else err_illegal_generation)
    go none e = ground arith
    go (some m) e = ground arith

new_leader-members :
    (range : Members → Members) (g : Group) → (new_leader range g).members ≡ g.members
new_leader-members range g = ground arith

rebalance-member :
    (range : Members → Members) (g : Group) (j : Bytes)
    → is_member j (rebalance range g).members ≡ is_member j g.members
unfolding rebalance
rebalance-member range g j = go g.members refl
  where
    go :
        (ms : Members)
        → g.members ≡ ms
        → is_member j (reopened range g ms).members ≡ is_member j g.members
    go [] e = refl
    go (m ∷ ms) e =
        is_member-unsync j (new_leader range g).members
        ∙ ap (is_member j) (new_leader-members range g)

leave-member :
    (range : Members → Members) (g : Group) (id j : Bytes)
    → id ≢ j
    → is_member j (leave range g id).1.members ≡ is_member j g.members
unfolding leave
leave-member range g id j other = ground (
  arith,
  rebalance-member range (record g { members = remove id g.members }) j,
  lookup-remove id j g.members,
  bytes_beq_iff id j,
)

-- When a member leaves, every other member finds out at its next heartbeat: unless the generation
-- is the last one of an int32, a heartbeat of the old generation answers REBALANCE_IN_PROGRESS, and
-- a Sync of the old generation answers ILLEGAL_GENERATION and changes nothing.
pub leave-fences :
    (range : Members → Members) (g : Group) (id j : Bytes) (assignments : Map Bytes Bytes)
    (now : Time)
    → g.generation + 1 < 2 ^ 31
    → is_member id g.members ≡ true
    → is_member j g.members ≡ true
    → id ≢ j
    → ((heartbeat (leave range g id).1 j g.generation now).0 ≡ err_rebalance_in_progress)
      × (sync (leave range g id).1 j g.generation assignments now
          ≡ (answered (failed err_illegal_generation), (leave range g id).1))
unfolding sync
leave-fences range g id j assignments now small leaver stays other =
    let h = (leave range g id).1 in
    let gen : h.generation ≡ g.generation + 1 = ground (arith, leave-generation range g id) in
    let still : is_member j h.members ≡ true = leave-member range g id j other ∙ stays in
    let stale : (g.generation == h.generation) ≡ false = ground arith in
    (
      heartbeat-codes h j g.generation now (omega arith) (omega arith)
          ∙ rw (still, stale) (ground arith),
      rw (still, stale) refl,
    )

assign_found-lookup :
    (id b j : Bytes) (ms : Members) (o : Option Member)
    → lookup id ms ≡ o
    → lookup j (assign_found id b ms o) ≡ (
        if bytes_beq id j
        then (elim o [ none ↦ none | some m ↦ some (record m { assignment = b }) ])
        else lookup j ms)
assign_found-lookup id b j ms none e =
    ground (arith, bytes_beq_iff id j, ap (λ k. lookup k ms) {x = id} {y = j})
assign_found-lookup id b j ms (some m) e = lookup-insert id j (record m { assignment = b }) ms

-- What the leader's assignments make of a member.
lookup-assign :
    (given : Map Bytes Bytes) (ms : Members) (j a : Bytes)
    → is_member j ms ≡ true
    → lookup j given ≡ some a
    → (n : Member) × (lookup j (assign given ms) ≡ some n) × (n.assignment ≡ a)
unfolding assign lookup
lookup-assign [] ms j a h e = absurd (ground arith)
lookup-assign ((id, b) ∷ given) ms j a h e =
    let others = assign given ms in
    let found = assign_found-lookup id b j others (lookup id others) refl in
    elim (Bool-cases (bytes_beq id j)) [
      | inl q ↦
          let same = (bytes_beq_iff id j).0 q in
          let here : is_member id others ≡ true =
            assign-SameKeys given ms id ∙ ap (λ k. is_member k ms) same ∙ h in
          elim (Option-cases (lookup id others)) [
            | inl p ↦ absurd (ground arith)
            | inr (n, p) ↦ (record n { assignment = b }, ground arith, ground arith)
          ]
      | inr q ↦
          let (n, at, is) = lookup-assign given ms j a h (rw q at e) in (n, found ∙ rw q at, is)
    ]

-- The members after the leader's Sync.
finish_sync-lookup :
    (g : Group) (id j : Bytes) (now : Time) (o : Option Member) (n : Member)
    → lookup id g.members ≡ o
    → lookup j g.members ≡ some n
    → (m : Member) × (lookup j (finish_sync g id now o).1.members ≡ some m)
      × (m.assignment ≡ n.assignment)
finish_sync-lookup g id j now none n e h = (n, h, refl)
finish_sync-lookup g id j now (some m) n e h =
    let m' : Member = record m { synced = true; last_heartbeat = now } in
    elim (Bool-cases (bytes_beq id j)) [
      | inl q ↦ (
        m',
        ground (arith, lookup-insert id j m' g.members),
        ground (
          arith,
          (bytes_beq_iff id j).0 q,
          ap (λ k. lookup k g.members) ((bytes_beq_iff id j).0 q),
        ),
      )
      | inr q ↦ (n, ground (arith, lookup-insert id j m' g.members), refl)
    ]

finish_sync-kept :
    (g : Group) (id : Bytes) (now : Time) (o : Option Member)
    → ((finish_sync g id now o).1.state ≡ g.state)
      × ((finish_sync g id now o).1.generation ≡ g.generation)
finish_sync-kept g id now none = (refl, refl)
finish_sync-kept g id now (some m) = (refl, refl)

-- A follower gets what the leader gave it: after a Sync of the leader in the group's generation,
-- a member to which the leader's map gives an assignment, and that waits in this generation, is
-- answered, without error, with that assignment, whenever it wakes before another step.
pub wake-assigned :
    (g : Group) (j a : Bytes) (given : Map Bytes Bytes) (now deadline later : Time)
    → is_member g.leader_id g.members ≡ true
    → is_member j g.members ≡ true
    → lookup j given ≡ some a
    → (wake (sync g g.leader_id g.generation given now).1 j g.generation deadline later).0
      ≡ answered (record { error_code = err_none; assignment = a })
unfolding sync lead_sync wake
wake-assigned g j a given now deadline later leader member e =
    let h : Group = record g { members = assign given g.members; state = stable } in
    let (n, at, is) = lookup-assign given g.members j a member e in
    let (m, found, same) =
      finish_sync-lookup h g.leader_id j now (lookup g.leader_id h.members) n refl at in
    let (state, generation) = finish_sync-kept h g.leader_id now (lookup g.leader_id h.members) in
    rw
      (
        leader,
        (==_iff g.generation g.generation).1 refl,
        (bytes_beq_iff g.leader_id g.leader_id).1 refl,
        state,
        generation,
        (==_iff g.generation g.generation).1 refl,
        found,
        same,
        is,
      )
      refl
