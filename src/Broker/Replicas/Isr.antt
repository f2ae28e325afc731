-- ===== src/Broker/Replicas/Isr.antt =====
-- internal/broker/broker.go: the in-sync set of a partition after its leader has maintained it.
use mathlib.Core.Path.{subst}
use mq.Common.{
  ◌+◌, ◌==◌, ◌≡◌, ◌⊎◌, inl, inr, refl, sym, ap, ◌∙◌, Bool, true, false, ◌||◌, Option, none, some,
  List, [], ◌∷◌, Bytes, Int32, leb, length, All, if◌then◌else◌, arith, Bool-cases, ==_iff,
}
use mq.Common.Keys.{lookup, nat_eq, bytes_eq, pair_eq, bytes_beq_iff}
use mq.Controller.Fsm.{MetaState, PartitionMeta, Command, partition, apply, cmd_change_isr}
use mq.Controller.Fsm.Placement.{apply_as-partition}
use mq.Storage.Backend.{Backend}
use mq.Broker.{Broker, Time, FollowerProgress, node_id}
use mq.Broker.Replicas.{
  Progress, is_fresh, desired_isr, contains_node, all_seen, same_node_set, change_isr_to,
  followers_of, desired_of, maintain_partition_isr,
}

-- Heard from 10 seconds ago or later, or not heard from yet while this node leads for 10 seconds at most.
abbrev pub in_time : Time → Option Time → Option FollowerProgress → Bool
in_time now since (some pr) = leb now (pr.last_seen + 10_000_000_000)
in_time now (some led) none = leb now (led + 10_000_000_000)
in_time now none none = false

-- The replicas that are this node or are in time.
abbrev pub live_replicas : Int32 → Time → Progress → Option Time → List Int32 → List Int32
live_replicas self now prog since [] = []
live_replicas self now prog since (r ∷ rs) =
    let rest = live_replicas self now prog since rs in
    if r == self || in_time now since (lookup r prog) then r ∷ rest else rest

abbrev pub Within : List Int32 → Int32 → Type 0
Within [] id = ⊥
Within (x ∷ xs) id = (x ≡ id) ⊎ Within xs id

is_fresh-in_time :
    (now : Time) (since : Option Time) (o : Option FollowerProgress)
    → is_fresh now since o ≡ in_time now since o
is_fresh-in_time now since (some pr) = ground arith
is_fresh-in_time now (some led) none = ground arith
is_fresh-in_time now none none = refl

desired_isr-live_replicas :
    (self : Int32) (now : Time) (prog : Progress) (since : Option Time) (rs : List Int32)
    → desired_isr self now prog since rs ≡ live_replicas self now prog since rs
unfolding desired_isr
desired_isr-live_replicas self now prog since [] = refl
desired_isr-live_replicas self now prog since (r ∷ rs) =
    let rest = desired_isr-live_replicas self now prog since rs in
    let fresh = is_fresh-in_time now since (lookup r prog) in
    elim (Bool-cases (r == self)) [
      | inl e ↦
          let same = (==_iff r self).0 e in
          rw (e, rest) (ap (λ x. x ∷ live_replicas self now prog since rs) (sym same))
      | inr e ↦ rw (e, fresh, rest) refl
    ]

contains_node-Within : (ids : List Int32) (id : Int32) → contains_node ids id ≡ true → Within ids id
unfolding contains_node
contains_node-Within [] id h = absurd (cc (h))
contains_node-Within (x ∷ ids) id h = elim (Bool-cases (x == id)) [
  | inl e ↦ inl ((==_iff x id).0 e)
  | inr e ↦ inr (contains_node-Within ids id (rw e at h))
]

all_seen-Within : (seen xs : List Int32) → all_seen seen xs ≡ true → All (Within seen) xs
unfolding all_seen
all_seen-Within seen [] h = tt
all_seen-Within seen (x ∷ xs) h = elim (Bool-cases (contains_node seen x)) [
  | inl e ↦ (contains_node-Within seen x e, all_seen-Within seen xs (rw e at h))
  | inr e ↦ absurd (let q : false ≡ true = rw e at h in cc (q))
]

All-Within : (xs : List Int32) → All (Within xs) xs
All-Within xs = go xs xs (λ id h. h)
  where
    go : (all ys : List Int32) → ((id : Int32) → Within ys id → Within all id) → All (Within all) ys
    go all [] f = tt
    go all (y ∷ ys) f = (f y (inl refl), go all ys (λ id h. f id (inr h)))

-- What a proposal makes of the metadata once it is committed and applied.
abbrev pub committed_at_once : Command → MetaState → Bool × MetaState
committed_at_once cmd st = (true, (apply st cmd).1)

-- An in-sync set with as many members as there are live replicas, and no other members.
pub record IsLive (live isr : List Int32) : Type 0 where
  pub count : length isr ≡ length live
  pub members : All (Within live) isr

module _ {L : Type 0} (b : Broker L) (topic : Bytes) (p : Int32) (pv : PartitionMeta)
    (now : Time) where
  -- The partition's replicas that are live, by what this node knows of them.
  abbrev pub live_of : List Int32
  live_of =
      live_replicas (node_id b) now (followers_of b topic p) (lookup (topic, p) b.lead_since)
        pv.replicas

  desired_of-live_of : desired_of b topic p pv now ≡ live_of
  unfolding desired_of
  desired_of-live_of =
      desired_isr-live_replicas (node_id b) now (followers_of b topic p)
        (lookup (topic, p) b.lead_since) pv.replicas

  -- After a leader has maintained the in-sync set of a partition, where a proposal is committed and
  -- applied: the set has as many members as the partition has live replicas, and each member is one.
  -- It is the list of the live replicas, or it was left as it was. The replicas, the leader and the
  -- epoch stay.
  pub maintain_partition_isr-IsLive :
      (k : Backend L) (st : MetaState)
      → partition st topic p ≡ some pv
      → (after : PartitionMeta) × (partition
            (maintain_partition_isr k committed_at_once b st topic p pv now)
            topic
            p
          ≡ some after)
        × IsLive live_of after.isr
        × ((after ≡ pv) ⊎ (after ≡ record pv { isr = live_of }))
  unfolding maintain_partition_isr
  maintain_partition_isr-IsLive k st here =
      let desired = desired_of b topic p pv now in
      let same = desired_of-live_of in
      elim (Bool-cases (same_node_set desired pv.isr)) [
        | inl e ↦ (pv, rw e here, kept e, inl refl)
        | inr e ↦ (
          record pv { isr = live_of },
          rw (e, same)
              (apply_as-partition st (change_isr_to topic p live_of) topic p pv cmd_change_isr here
                ∙ rw ((bytes_beq_iff topic topic).1 refl, (==_iff p p).1 refl) refl),
          record { count = refl; members = All-Within live_of },
          inr refl,
        )
      ]
    where
      kept : same_node_set (desired_of b topic p pv now) pv.isr ≡ true → IsLive live_of pv.isr
      kept e = elim (Bool-cases (length (desired_of b topic p pv now) == length pv.isr)) [
        | inl f ↦ record {
          count =
              sym ((==_iff (length (desired_of b topic p pv now)) (length pv.isr)).0 f)
              ∙ ap length desired_of-live_of;
          members =
              subst (λ ids. All (Within ids) pv.isr) desired_of-live_of
                (all_seen-Within (desired_of b topic p pv now) pv.isr (rw f at e));
        }
        | inr f ↦ absurd (let q : false ≡ true = rw f at e in cc (q))
      ]
