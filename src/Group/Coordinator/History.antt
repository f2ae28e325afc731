-- ===== src/Group/Coordinator/History.antt =====
-- internal/group/coordinator.go: any sequence of calls on one group.
use mq.Common.{
  ℕ, suc, ◌+◌, ◌%◌, ◌^◌, ◌≤◌, ◌≡◌, refl, ◌∙◌, Bool, true, false, not, ◌||◌, Option, none, some,
  List, [], ◌∷◌, Bytes, Int32, IsInt32, add32, if◌then◌else◌, arith, inl, inr, ◌⊎◌,
}
use mq.Common.Keys.{Map, lookup, bytes_eq, remove}
use mq.Group.Coordinator.{
  Group, Member, Members, Time, JoinArgs, is_member, is_awaiting, is_nil, open_round, settle_leader,
  joined, join, finish_sync, wake, lead_sync, sync, beat, heartbeat, reopened, rebalance, leave,
  expired, remove_all, reap_dead, reap, member_id_of, assign, stable, sync_wait_timeout,
}
use mq.Group.Coordinator.Invariant.{
  IsGroup, join-IsGroup, leave-IsGroup, reap-IsGroup, wake-IsGroup, sync-IsGroup, beat-IsGroup,
}

-- The generation is the old one, or the next.
abbrev NextGeneration : Group → Group → Type 0
NextGeneration g g' = (g'.generation ≡ g.generation) ⊎ (g'.generation ≡ add32 g.generation 1)

finish_sync-generation :
    (g : Group) (id : Bytes) (now : Time) (o : Option Member)
    → (finish_sync g id now o).1.generation ≡ g.generation
finish_sync-generation g id now none = refl
finish_sync-generation g id now (some m) = refl

wake-generation :
    (g : Group) (id : Bytes) (generation : Int32) (deadline now : Time)
    → (wake g id generation deadline now).1.generation ≡ g.generation
unfolding wake
wake-generation g id generation deadline now =
    ground (arith, finish_sync-generation g id now (lookup id g.members))

sync-generation :
    (g : Group) (id : Bytes) (generation : Int32) (assignments : Map Bytes Bytes) (now : Time)
    → (sync g id generation assignments now).1.generation ≡ g.generation
unfolding sync lead_sync
sync-generation g id generation assignments now =
    let given = assign assignments g.members in
    ground (
      arith,
      wake-generation g id generation (now + sync_wait_timeout) now,
      finish_sync-generation (record g { members = given; state = stable }) id now
          (lookup id given),
    )

beat-generation :
    (g : Group) (id : Bytes) (generation : Int32) (now : Time) (o : Option Member)
    → (beat g id generation now o).1.generation ≡ g.generation
beat-generation g id generation now none = refl
beat-generation g id generation now (some m) = ground arith

open_round-generation :
    (b : Bool) (g : Group)
    → (open_round b g).generation ≡ (if b then add32 g.generation 1 else g.generation)
unfolding open_round
open_round-generation true g = refl
open_round-generation false g = refl

settle_leader-generation : (id : Bytes) (g : Group) → (settle_leader id g).generation ≡ g.generation
unfolding settle_leader
settle_leader-generation id g = ground arith

module _ (range : Members → Members) where
  reopened-generation :
      (g : Group) (ms : Members) → (reopened range g ms).generation ≡ add32 g.generation 1
  reopened-generation g [] = refl
  reopened-generation g (m ∷ ms) = refl

  rebalance-generation : (g : Group) → (rebalance range g).generation ≡ add32 g.generation 1
  unfolding rebalance
  rebalance-generation g = reopened-generation g g.members

  joined-generation :
      (g : Group) (args : JoinArgs) (id : Bytes) (now : Time)
      → (joined range g args id now).generation ≡ (
          if is_nil args.member_id || not (is_member id g.members) || not (is_awaiting g.state)
          then add32 g.generation 1
          else g.generation)
  joined-generation g args id now = settle_leader-generation id _ ∙ open_round-generation _ _

  pub leave-generation :
      (g : Group) (id : Bytes)
      → (leave range g id).1.generation
        ≡ (if is_member id g.members then add32 g.generation 1 else g.generation)
  unfolding leave
  leave-generation g id =
      ground (arith, rebalance-generation (record g { members = remove id g.members }))

  -- The calls on a group, errors included, and the ticks of the reaper.
  pub data Step (g : Group) : Group → Type 0 where
    joins :
        (args : JoinArgs) (random : Bytes) (now : Time) → Step g (join range g args random now).1
    syncs :
        (id : Bytes) (generation : Int32) (assignments : Map Bytes Bytes) (now : Time)
        → Step g (sync g id generation assignments now).1
    wakes :
        (id : Bytes) (generation : Int32) (deadline now : Time)
        → Step g (wake g id generation deadline now).1
    beats :
        (id : Bytes) (generation : Int32) (now : Time) → Step g (heartbeat g id generation now).1
    leaves : (id : Bytes) → Step g (leave range g id).1
    reaps : (now : Time) → Step g (reap range g now)

  -- A history, with the number of its steps.
  pub data Steps (g : Group) : ℕ → Group → Type 0 where
    none_yet : Steps g 0 g
    more : {n : ℕ} {g' g'' : Group} → Steps g n g' → Step g' g'' → Steps g (suc n) g''

  Step-generation : {g g' : Group} → Step g g' → NextGeneration g g'
  unfolding join heartbeat reap
  Step-generation {g} (joins args random now) =
      ground (arith, joined-generation g args (member_id_of args random) now)
  Step-generation {g} (syncs id generation assignments now) =
      inl (sync-generation g id generation assignments now)
  Step-generation {g} (wakes id generation deadline now) =
      inl (wake-generation g id generation deadline now)
  Step-generation {g} (beats id generation now) =
      inl (beat-generation g id generation now (lookup id g.members))
  Step-generation {g} (leaves id) = ground (arith, leave-generation g id)
  Step-generation {g} (reaps now) = go (expired now g.members)
    where
      go : (ids : List Bytes) → NextGeneration g (reap_dead range g ids)
      go [] = inl refl
      go (id ∷ ids) =
          inr (rebalance-generation (record g { members = remove_all (id ∷ ids) g.members }))

  module _ (ranges : (ms : Members) (k : Bytes) → lookup k (range ms) ≡ lookup k ms) where
    Step-IsGroup : {g g' : Group} → Step g g' → IsGroup g → IsGroup g'
    unfolding heartbeat
    Step-IsGroup {g} (joins args random now) h = join-IsGroup range ranges g args random now
    Step-IsGroup {g} (syncs id generation assignments now) h =
        sync-IsGroup g id generation assignments now h
    Step-IsGroup {g} (wakes id generation deadline now) h =
        wake-IsGroup g id generation deadline now h
    Step-IsGroup {g} (beats id generation now) h =
        beat-IsGroup g id generation now (lookup id g.members) refl h
    Step-IsGroup {g} (leaves id) h = leave-IsGroup range ranges g id h
    Step-IsGroup {g} (reaps now) h = reap-IsGroup range ranges g now h

    -- After any calls on a group and ticks of the reaper, from a group with the invariant and in
    -- whatever order Go ranges over its members: an empty group is in state Empty with no leader,
    -- and any other is in another state with a member as its leader; and the generation has grown,
    -- modulo 2 ^ 32, by at most one a step.
    pub Steps-IsGroup :
        {g g' : Group} {n : ℕ}
        → Steps g n g'
        → IsInt32 g.generation
        → IsGroup g
        → (IsGroup g') × (k : ℕ) × (k ≤ n) × (g'.generation ≡ (g.generation + k) % 2 ^ 32)
    Steps-IsGroup none_yet small h = (h, 0, omega arith, omega arith)
    Steps-IsGroup (more {n} {g'} {g''} steps step) small h =
        let (led, k, few, at) = Steps-IsGroup steps small h in
        let next = Step-generation step in
        elim next [
          | inl e ↦ (Step-IsGroup step led, k, omega arith, e ∙ at)
          | inr e ↦ (Step-IsGroup step led, suc k, omega arith, omega arith)
        ]
