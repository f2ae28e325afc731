-- ===== src/Controller/Failover/Elects.antt =====
-- internal/controller/liveness.go: whom an election elects, and that a partition whose in-sync
-- replicas are not all dead has a live leader after it.
use mq.Common.{
  ℕ, zero, suc, ◌+◌, ◌-◌, ◌≤◌, ◌==◌, ◌≡◌, refl, Bool, true, false, not, ◌&&◌, some, List, [], ◌∷◌,
  ◌++◌, Bytes, Int32, ltb, is_neg32, to_i32, if◌then◌else◌, get_elem?, All, All-append, ==_iff,
  arith, Bool-cases, Option-cases, inl, inr, ◌⊎◌,
}
use mq.Common.Keys.{Map, lookup, bytes_eq, bytes_beq, bytes_beq_iff}
use mq.Controller.Fsm.{
  MetaState, PartitionMeta, TopicMeta, Command, CmdType, cmd_change_leader, apply, partition,
  part_at,
}
use mq.Controller.Fsm.Placement.{apply_all, apply_as-partition, placement_after, names}
use mq.Controller.Failover.{
  Liveness, Time, TopicView, alive, survivors, insert_view, views, elect, failover_part,
  failover_parts, failover_topics, check_failover, change_leader_to, liveness_timeout,
}

-- A command that makes a live node leader, with live in-sync replicas.
pub record ElectsLive (c : Liveness) (now : Time) (cmd : Command) : Type 0 where
  pub kind : cmd.cmd_type ≡ cmd_change_leader
  pub live : alive c cmd.leader now ≡ true
  pub in_sync : All (λ id. alive c id now ≡ true) cmd.isr

module _ (c : Liveness) (now : Time) where
  survivors-All : (ids : List Int32) → All (λ id. alive c id now ≡ true) (survivors c now ids)
  unfolding survivors
  survivors-All [] = tt
  survivors-All (id ∷ ids) = elim (Bool-cases (alive c id now)) [
    | inl e ↦ rw e (e, survivors-All ids)
    | inr e ↦ rw e (survivors-All ids)
  ]

  elect-ElectsLive :
      (topic : Bytes) (p : Int32) (pv : PartitionMeta) (ids : List Int32)
      → All (λ id. alive c id now ≡ true) ids
      → All (ElectsLive c now) (elect topic p pv ids)
  elect-ElectsLive topic p pv [] h = tt
  elect-ElectsLive topic p pv (id ∷ ids) h = elim (Bool-cases (id == pv.leader)) [
    | inl e ↦ rw e tt
    | inr e ↦ rw e (record { kind = refl; live = h.0; in_sync = h }, tt)
  ]

  failover_part-ElectsLive :
      (topic : Bytes) (p : Int32) (pv : PartitionMeta)
      → All (ElectsLive c now) (failover_part c now topic p pv)
  unfolding failover_part
  failover_part-ElectsLive topic p pv =
      elim (Bool-cases (not (is_neg32 pv.leader) && alive c pv.leader now)) [
        | inl e ↦ rw e tt
        | inr e ↦ rw e (elect-ElectsLive topic p pv (survivors c now pv.isr) (survivors-All pv.isr))
      ]

  failover_parts-ElectsLive :
      (topic : Bytes) (i : ℕ) (pvs : List PartitionMeta)
      → All (ElectsLive c now) (failover_parts c now topic i pvs)
  unfolding failover_parts
  failover_parts-ElectsLive topic i [] = tt
  failover_parts-ElectsLive topic i (pv ∷ pvs) =
      All-append (ElectsLive c now) (failover_part c now topic (to_i32 i) pv)
        (failover_parts c now topic (suc i) pvs) (failover_part-ElectsLive topic (to_i32 i) pv)
        (failover_parts-ElectsLive topic (suc i) pvs)

  failover_topics-ElectsLive :
      (tvs : List TopicView) → All (ElectsLive c now) (failover_topics c now tvs)
  unfolding failover_topics
  failover_topics-ElectsLive [] = tt
  failover_topics-ElectsLive (tv ∷ tvs) =
      All-append (ElectsLive c now) (failover_parts c now tv.0 0 tv.1) (failover_topics c now tvs)
        (failover_parts-ElectsLive tv.0 0 tv.1) (failover_topics-ElectsLive tvs)

  -- Every command that a failover check proposes changes a leader, and both the new leader and all
  -- the new in-sync replicas are alive.
  pub check_failover-ElectsLive :
      (st : MetaState) → All (ElectsLive c now) (check_failover c now st)
  unfolding check_failover
  check_failover-ElectsLive st = elim (Bool-cases (ltb (now - c.leader_since) liveness_timeout)) [
    | inl e ↦ rw e tt
    | inr e ↦ rw e (failover_topics-ElectsLive (views st.topics))
  ]

  IsLed : MetaState → Bytes → Int32 → Type 0
  IsLed st topic p =
      (pm : PartitionMeta) × (partition st topic p ≡ some pm) × (alive c pm.leader now ≡ true)

  placed-leader :
      (t : CmdType) (cmd : Command) (pm : PartitionMeta) (b : Bool)
      → t ≡ cmd_change_leader
      → (if b then placement_after t cmd pm else pm).leader ≡ (if b then cmd.leader else pm.leader)
  placed-leader t cmd pm true e = rw e refl
  placed-leader t cmd pm false e = refl

  -- Some command of the list is about the partition.
  unfoldable named_in : List Command → Bytes → Int32 → Bool
  named_in [] topic p = false
  named_in (cmd ∷ cmds) topic p =
      let rest = named_in cmds topic p in if names cmd topic p then true else rest

  apply_all-IsLed :
      (st : MetaState) (cmds : List Command) (topic : Bytes) (p : Int32) (pm : PartitionMeta)
      → All (ElectsLive c now) cmds
      → partition st topic p ≡ some pm
      → (alive c pm.leader now ≡ true) ⊎ (named_in cmds topic p ≡ true)
      → IsLed (apply_all st cmds) topic p
  unfolding named_in IsLed
  apply_all-IsLed st [] topic p pm hs h led = (pm, h, ground arith)
  apply_all-IsLed st (cmd ∷ cmds) topic p pm hs h led =
      let b = names cmd topic p in
      let next : PartitionMeta = if b then placement_after cmd.cmd_type cmd pm else pm in
      let leads = placed-leader cmd.cmd_type cmd pm b hs.0.kind in
      let live = hs.0.live in
      apply_all-IsLed (apply st cmd).1 cmds topic p next hs.1
        (apply_as-partition st cmd topic p pm cmd.cmd_type h)
        (elim (Bool-cases b) [
          | inl e ↦ inl (rw leads (rw e live))
          | inr e ↦ elim led [ inl l ↦ inl (rw leads (rw e l)) | inr n ↦ inr (rw e at n) ]
        ])

  named_in-append :
      (xs ys : List Command) (topic : Bytes) (p : Int32)
      → named_in (xs ++ ys) topic p ≡ (if named_in xs topic p then true else named_in ys topic p)
  unfolding named_in
  named_in-append [] ys topic p = refl
  named_in-append (x ∷ xs) ys topic p = ground (arith, named_in-append xs ys topic p)

  survivors-Nonempty :
      (ids : List Int32) (k : ℕ) (id : Int32)
      → get_elem? ids k ≡ some id
      → alive c id now ≡ true
      → (first : Int32) × (rest : List Int32) × (survivors c now ids ≡ first ∷ rest)
  unfolding survivors
  survivors-Nonempty [] k id h l = ground arith
  survivors-Nonempty (x ∷ ids) zero id h l = (id, survivors c now ids, ground arith)
  survivors-Nonempty (x ∷ ids) (suc k) id h l =
      let (first, rest, e) = survivors-Nonempty ids k id h l in
      elim (Bool-cases (alive c x now)) [
        | inl a ↦ (x, survivors c now ids, rw a refl)
        | inr a ↦ (first, rest, rw a e)
      ]

  names_self :
      (topic : Bytes) (p leader : Int32) (isr : List Int32)
      → names (change_leader_to topic p leader isr) topic p ≡ true
  names_self topic p leader isr = ground (arith, bytes_beq_iff topic topic)

  elect-named :
      (topic : Bytes) (p : Int32) (pv : PartitionMeta) (id : Int32) (ids : List Int32)
      → alive c id now ≡ true
      → (alive c pv.leader now ≡ true) ⊎ (named_in (elect topic p pv (id ∷ ids)) topic p ≡ true)
  unfolding named_in
  elect-named topic p pv id ids l = elim (Bool-cases (id == pv.leader)) [
    | inl e ↦ inl (rw ((==_iff id pv.leader).0 e) at l)
    | inr e ↦ inr (rw (e, names_self topic p id (id ∷ ids)) refl)
  ]

  failover_part-named :
      (topic : Bytes) (p : Int32) (pv : PartitionMeta) (k : ℕ) (id : Int32)
      → get_elem? pv.isr k ≡ some id
      → alive c id now ≡ true
      → (alive c pv.leader now ≡ true) ⊎ (named_in (failover_part c now topic p pv) topic p ≡ true)
  unfolding failover_part
  failover_part-named topic p pv k id h l =
      elim (Bool-cases (not (is_neg32 pv.leader) && alive c pv.leader now)) [
        | inl e ↦ inl (ground arith)
        | inr e ↦
            let (first, rest, found) = survivors-Nonempty pv.isr k id h l in
            let lives = survivors-All pv.isr in
            rw (e, found) (elect-named topic p pv first rest (rw found at lives).0)
      ]

  failover_parts-named :
      (topic : Bytes) (i j : ℕ) (p : Int32) (pvs : List PartitionMeta) (pv : PartitionMeta)
      → get_elem? pvs j ≡ some pv
      → to_i32 (i + j) ≡ p
      → named_in (failover_part c now topic p pv) topic p ≡ true
      → named_in (failover_parts c now topic i pvs) topic p ≡ true
  unfolding failover_parts
  failover_parts-named topic i j p [] pv h e n = ground arith
  failover_parts-named topic i zero p (x ∷ pvs) pv h e n =
      let at : to_i32 i ≡ p = omega arith in
      let same : x ≡ pv = ground arith in
      rw
        (
          named_in-append (failover_part c now topic (to_i32 i) x)
              (failover_parts c now topic (suc i) pvs) topic p,
          at,
          same,
          n,
        )
        refl
  failover_parts-named topic i (suc j) p (x ∷ pvs) pv h e n =
      rw
        (
          named_in-append (failover_part c now topic (to_i32 i) x)
              (failover_parts c now topic (suc i) pvs) topic p,
          failover_parts-named topic (suc i) j p pvs pv h (omega arith) n,
        )
        (ground arith)

  insert_view-named :
      (v : TopicView) (ws : List TopicView) (topic : Bytes) (p : Int32)
      → named_in (failover_topics c now (insert_view v ws)) topic p ≡ (
          if named_in (failover_parts c now v.0 0 v.1) topic p
          then true
          else named_in (failover_topics c now ws) topic p)
  unfolding insert_view failover_topics
  insert_view-named v [] topic p = named_in-append (failover_parts c now v.0 0 v.1) [] topic p
  insert_view-named v (w ∷ ws) topic p = ground (
    arith,
    named_in-append (failover_parts c now v.0 0 v.1) (failover_topics c now (w ∷ ws)) topic p,
    named_in-append (failover_parts c now w.0 0 w.1) (failover_topics c now ws) topic p,
    named_in-append (failover_parts c now w.0 0 w.1) (failover_topics c now (insert_view v ws))
        topic p,
    insert_view-named v ws topic p,
  )

  views-named :
      (m : Map Bytes TopicMeta) (topic : Bytes) (t : TopicMeta) (p : Int32)
      → lookup topic m ≡ some t
      → named_in (failover_parts c now topic 0 t.parts) topic p ≡ true
      → named_in (failover_topics c now (views m)) topic p ≡ true
  unfolding views lookup
  views-named [] topic t p h n = ground arith
  views-named ((name, u) ∷ rest) topic t p h n =
      rw (insert_view-named (name, u.parts) (views rest) topic p)
        (elim (Bool-cases (bytes_beq name topic)) [
          | inl e ↦
              let same : u ≡ t = ground arith in
              let at = (bytes_beq_iff name topic).0 e in rw (at, same, n) refl
          | inr e ↦ rw (views-named rest topic t p (rw e at h) n) (ground arith)
        ])

  -- Once the controller is past its grace time, a partition that has a live in-sync replica has a
  -- live leader after the commands of one check are applied.
  pub check_failover-IsLed :
      (st : MetaState) (topic : Bytes) (p : Int32) (pv : PartitionMeta) (k : ℕ) (id : Int32)
      → c.leader_since + liveness_timeout ≤ now
      → partition st topic p ≡ some pv
      → get_elem? pv.isr k ≡ some id
      → alive c id now ≡ true
      → (after : PartitionMeta) × (partition (apply_all st (check_failover c now st)) topic p
          ≡ some after)
        × (alive c after.leader now ≡ true)
  unfolding IsLed check_failover partition part_at
  check_failover-IsLed st topic p pv k id grace at isr live =
      let past : ltb (now - c.leader_since) liveness_timeout ≡ false = ground arith in
      elim (Option-cases (lookup topic st.topics)) [
        | inl e ↦ absurd (ground arith)
        | inr (t, e) ↦
            let get : get_elem? t.parts p ≡ some pv = ground arith in
            let small : to_i32 (0 + p) ≡ p = ground arith in
            apply_all-IsLed st (check_failover c now st) topic p pv (check_failover-ElectsLive st)
              at
              (elim (failover_part-named topic p pv k id isr live) [
                | inl l ↦ inl l
                | inr n ↦ inr (
                    rw past (
                      views-named st.topics topic t p e
                        (failover_parts-named topic 0 p p t.parts pv get small n)))
              ])
      ]
