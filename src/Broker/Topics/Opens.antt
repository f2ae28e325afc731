-- ===== src/Broker/Topics/Opens.antt =====
-- internal/broker/broker.go: a log is served only where this node leads, and stays the one log of its
-- partition.
use mathlib.Core.Path.{subst}
use mq.Common.{
  ◌≡◌, inl, inr, refl, Bool, true, false, ◌||◌, Option, none, some, Bytes, Int32, lt_i32, le_i32,
  is_neg32, arith, Bool-cases, Option-cases,
}
use mq.Common.Keys.{lookup, lookup-insert, bytes_eq, nat_eq, pair_eq, beq_refl}
use mq.Controller.Fsm.{MetaState}
use mq.Broker.{Broker, get_log, leads, num_partitions}
use mq.Broker.Topics.{
  open_locked, opened, register_locked, LocalLog, local, not_leader, unknown_partition, open_failed,
  local_log, local_of, local_registered, first_touch, open_local, local_led, local_if,
}

module _ {L : Type 0} where
  -- The log that is answered, if any, is the one in the map.
  Served : Bytes → Int32 → Option (LocalLog L × Broker L) → Type 0
  Served topic p none = Unit
  Served topic p (some (local l, b)) = get_log b topic p ≡ some l
  Served topic p (some (not_leader, b)) = Unit
  Served topic p (some (unknown_partition, b)) = Unit
  Served topic p (some (open_failed, b)) = Unit

  module _ (open_log : Bytes → Int32 → Option L) where
    opened-Served :
        (b : Broker L) (topic : Bytes) (p : Int32) (o : Option L)
        → get_log b topic p ≡ o
        → Served topic p (some (local_of open_log (opened open_log b topic p o)))
    unfolding Served
    opened-Served b topic p (some l) g = g
    opened-Served b topic p none g = elim (Option-cases (open_log topic p)) [
      | inl e ↦ rw e tt
      | inr (l, e) ↦
          rw
            (
              e,
              lookup-insert (topic, p) (topic, p) l b.logs,
              beq_refl {A = Bytes × Int32} (topic, p),
            )
            refl
    ]

    registered-Served :
        (topic : Bytes) (p : Int32) (r : Option (Bool × Broker L))
        → Served topic p (local_registered open_log topic p r)
    unfolding open_locked
    registered-Served topic p none = unfold Served in tt
    registered-Served topic p (some (false, b)) = unfold Served in tt
    registered-Served topic p (some (true, b)) = opened-Served b topic p (get_log b topic p) refl

    first_touch-Served :
        (b : Broker L) (topic : Bytes) (p : Int32) (known : Option Int32)
        → Served topic p (first_touch open_log b topic p known)
    unfolding open_locked
    first_touch-Served b topic p none =
        registered-Served topic p (register_locked open_log b topic (num_partitions b topic))
    first_touch-Served b topic p (some n) = opened-Served b topic p (get_log b topic p) refl

    open_local-Served :
        (b : Broker L) (topic : Bytes) (p : Int32) (ctrl : Option MetaState)
        → Served topic p (open_local open_log b topic p ctrl)
    unfolding open_locked
    open_local-Served b topic p none = first_touch-Served b topic p (lookup topic b.catalog)
    open_local-Served b topic p (some st) = opened-Served b topic p (get_log b topic p) refl

    local_led-Served :
        (b : Broker L) (topic : Bytes) (p : Int32) (o : Option L)
        → get_log b topic p ≡ o
        → Served topic p (local_led open_log b topic p o)
    unfolding Served
    local_led-Served b topic p (some l) g = g
    local_led-Served b topic p none g = open_local-Served b topic p b.ctrl

    local_if-led :
        (b : Broker L) (topic : Bytes) (p : Int32) (led : Option Bool) (l : L) (b' : Broker L)
        → local_if open_log b topic p led ≡ some (local l, b')
        → (led ≡ some true) × (get_log b' topic p ≡ some l)
    local_if-led b topic p none l b' h = cc
    local_if-led b topic p (some false) l b' h = cc
    local_if-led b topic p (some true) l b' h = (
      refl,
      unfold Served in
          subst (Served topic p) h (local_led-Served b topic p (get_log b topic p) refl),
    )

    -- A log that is served belongs to a partition that the topic has and that this node leads, and
    -- it is the log that the broker keeps for the partition.
    pub local_log-leads :
        (b : Broker L) (topic : Bytes) (p : Int32) (l : L) (b' : Broker L)
        → local_log open_log b topic p ≡ some (local l, b')
        → (leads b topic p ≡ some true)
          × (is_neg32 p ≡ false)
          × (lt_i32 p (num_partitions b topic) ≡ true)
          × (get_log b' topic p ≡ some l)
    unfolding local_log
    local_log-leads b topic p l b' h =
        elim (Bool-cases (is_neg32 p || le_i32 (num_partitions b topic) p)) [
          | inl e ↦
              let h' : ◌≡◌ {A = Option (LocalLog L × Broker L)} (some (unknown_partition, b))
                  (some (local l, b')) =
                rw e at h in
              cc (h')
          | inr e ↦
              let (led, got) = local_if-led b topic p (leads b topic p) l b' (rw e at h) in
              (led, ground arith, ground arith, got)
        ]
