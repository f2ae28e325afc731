-- ===== src/Broker/Topics.antt =====
-- internal/broker/broker.go: creating topics and opening logs.
pub mod Opens
use mq.Common.{
  ℕ, zero, suc, ◌+◌, ◌==◌, Bool, true, false, ◌||◌, ◌&&◌, not, Option, none, some, List, [], ◌∷◌,
  Bytes, Int32, length, is_neg32, lt_i32, le_i32, add32, sub32, if◌then◌else◌,
}
use mq.Common.Keys.{Map, lookup, insert, bytes_eq, nat_eq, pair_eq}
use mq.Cluster.{replicas_for, is_leader}
use mq.Controller.Fsm.{
  MetaState, TopicMeta, Command, CmdType, cmd_create_topic, cmd_create_partitions, has_topic,
  partitions,
}
use mq.Controller.Failover.{insert_view, bytes_ltb}
use mq.Broker.{Broker, Config, get_log, leads, num_partitions, replication_factor}

abbrev pub topic_command : CmdType → Bytes → List (List Int32) → Command
topic_command kind name replicas = record {
  cmd_type = kind;
  topic = name;
  partition = 0;
  partitions = 0;
  replicas = replicas;
  leader = 0;
  isr = [];
  from = 0;
  segment = none;
  cutoff = 0;
}

-- What LocalLog answers.
pub data LocalLog (L : Type 0) : Type 0 where
  local : L → LocalLog L
  not_leader unknown_partition open_failed : LocalLog L

module _ {L : Type 0} (open_log : Bytes → Int32 → Option L) where
  abbrev put_log : Broker L → Bytes → Int32 → Option L → Option L × Broker L
  put_log b topic p none = (none, b)
  put_log b topic p (some l) = (some l, record b { logs = insert (topic, p) l b.logs })

  abbrev opened : Broker L → Bytes → Int32 → Option L → Option L × Broker L
  opened b topic p none = put_log b topic p (open_log topic p)
  opened b topic p (some l) = (some l, b)

  -- The log that is open, or a new one; `none` is an error.
  unfoldable pub open_locked : Broker L → Bytes → Int32 → Option L × Broker L
  open_locked b topic p = opened b topic p (get_log b topic p)

  abbrev go_on_if :
      Option L × Broker L → (Broker L → Option (Bool × Broker L)) → Option (Bool × Broker L)
  go_on_if (none, b) next = some (false, b)
  go_on_if (some l, b) next = next b

  abbrev open_led :
      Broker L
      → Bytes
      → Int32
      → Option Bool
      → (Broker L → Option (Bool × Broker L))
      → Option (Bool × Broker L)
  open_led b name p none next = none
  open_led b name p (some false) next = next b
  open_led b name p (some true) next = go_on_if (open_locked b name p) next

  -- The partitions from `p` on that this node leads; the flag is false on an error, and `none` is a
  -- panic.
  unfoldable pub open_all : ℕ → Broker L → Bytes → Int32 → Option (Bool × Broker L)
  open_all zero b name p = some (true, b)
  open_all (suc n) b name p =
      open_led b name p (is_leader b.cluster name p) (λ b'. open_all n b' name (add32 p 1))

  unfoldable pub register_locked : Broker L → Bytes → Int32 → Option (Bool × Broker L)
  register_locked b name partitions =
      let n = if le_i32 partitions 0 then b.cfg.num_partitions else partitions in
      open_all (if is_neg32 n then 0 else n) (record b { catalog = insert name n b.catalog }) name 0

  abbrev local_of : Option L × Broker L → LocalLog L × Broker L
  local_of (none, b) = (open_failed, b)
  local_of (some l, b) = (local l, b)

  abbrev local_registered :
      Bytes → Int32 → Option (Bool × Broker L) → Option (LocalLog L × Broker L)
  local_registered topic p none = none
  local_registered topic p (some (false, b)) = some (open_failed, b)
  local_registered topic p (some (true, b)) = some (local_of (open_locked b topic p))

  abbrev first_touch : Broker L → Bytes → Int32 → Option Int32 → Option (LocalLog L × Broker L)
  first_touch b topic p none =
      local_registered topic p (register_locked b topic (num_partitions b topic))
  first_touch b topic p (some n) = some (local_of (open_locked b topic p))

  abbrev open_local : Broker L → Bytes → Int32 → Option MetaState → Option (LocalLog L × Broker L)
  open_local b topic p none = first_touch b topic p (lookup topic b.catalog)
  open_local b topic p (some st) = some (local_of (open_locked b topic p))

  abbrev local_led : Broker L → Bytes → Int32 → Option L → Option (LocalLog L × Broker L)
  local_led b topic p none = open_local b topic p b.ctrl
  local_led b topic p (some l) = some (local l, b)

  abbrev local_if : Broker L → Bytes → Int32 → Option Bool → Option (LocalLog L × Broker L)
  local_if b topic p none = none
  local_if b topic p (some false) = some (not_leader, b)
  local_if b topic p (some true) = local_led b topic p (get_log b topic p)

  unfoldable pub local_log : Broker L → Bytes → Int32 → Option (LocalLog L × Broker L)
  local_log b topic p =
      if is_neg32 p || le_i32 (num_partitions b topic) p
      then some (unknown_partition, b)
      else local_if b topic p (leads b topic p)

  -- The replica sets of the partitions from `p` on.
  unfoldable pub seed_replicas : ℕ → Broker L → Bytes → Int32 → Option (List (List Int32))
  seed_replicas zero b name p = some []
  seed_replicas (suc n) b name p =
      let rest = seed_replicas n b name (add32 p 1) in
      elim (replicas_for b.cluster name p (replication_factor b)) [
        | none ↦ none
        | some rs ↦ elim rest [ none ↦ none | some more ↦ some (rs ∷ more) ]
      ]

  abbrev positive_or : Int32 → Int32 → Int32
  positive_or n d = if le_i32 n 0 then d else n

  -- The command that proposeCreate proposes.
  unfoldable pub create_command : Broker L → Bytes → Int32 → Option Command
  create_command b name np =
      let n = positive_or (positive_or np b.cfg.num_partitions) 1 in
      elim (seed_replicas n b name 0) [
        | none ↦ none
        | some rs ↦ some (topic_command cmd_create_topic name rs)
      ]

  -- The command that CreatePartitions proposes, to grow from `cur` to `count` partitions.
  unfoldable pub grow_command : Broker L → Bytes → Int32 → Int32 → Option Command
  grow_command b name cur count = elim (seed_replicas (sub32 count cur) b name cur) [
    | none ↦ none
    | some rs ↦ some (topic_command cmd_create_partitions name rs)
  ]

  -- CreateTopic without a controller; the flag is false on an error.
  abbrev create_local : Broker L → Bytes → Int32 → Option Int32 → Option (Bool × Broker L)
  create_local b name partitions none = register_locked b name partitions
  create_local b name partitions (some n) = some (false, b)

  -- `propose` is Apply of the controller: whether it reports success, and the metadata that this
  -- node has applied when the bounded wait is over.
  module _ (propose : Command → MetaState → Bool × MetaState) where
    abbrev settle_create : Broker L → Bytes → Bool × MetaState → Bool × Broker L
    settle_create b name (done, st) = (done || has_topic st name, record b { ctrl = some st })

    abbrev create_with : Broker L → Bytes → MetaState → Option Command → Option (Bool × Broker L)
    create_with b name st none = none
    create_with b name st (some cmd) = some (settle_create b name (propose cmd st))

    -- proposeCreate, up to the reconciliation that opens logs.
    unfoldable pub propose_create : Broker L → MetaState → Bytes → Int32 → Option (Bool × Broker L)
    propose_create b st name np = create_with b name st (create_command b name np)

    abbrev create_by : Broker L → Bytes → Int32 → Option MetaState → Option (Bool × Broker L)
    create_by b name partitions none = create_local b name partitions (lookup name b.catalog)
    create_by b name partitions (some st) =
        if has_topic st name then some (false, b) else propose_create b st name partitions

    unfoldable pub create_topic : Broker L → Bytes → Int32 → Option (Bool × Broker L)
    create_topic b name partitions = create_by b name partitions b.ctrl

    abbrev grown : Broker L → Bool × MetaState → Bool × Broker L
    grown b (done, st) = (done, record b { ctrl = some st })

    abbrev grow_with : Broker L → MetaState → Option Command → Option (Bool × Broker L)
    grow_with b st none = none
    grow_with b st (some cmd) = some (grown b (propose cmd st))

    abbrev grow_to :
        Broker L → Bytes → Int32 → Option MetaState → Option Int32 → Option (Bool × Broker L)
    grow_to b name count ctrl none = some (false, b)
    grow_to b name count none (some cur) =
        if le_i32 count cur then some (false, b) else register_locked b name count
    grow_to b name count (some st) (some cur) =
        if le_i32 count cur then some (false, b) else grow_with b st (grow_command b name cur count)

    abbrev current_count : Broker L → Bytes → Option MetaState → Option Int32
    current_count b name none = lookup name b.catalog
    current_count b name (some st) = partitions st name

    unfoldable pub create_partitions : Broker L → Bytes → Int32 → Option (Bool × Broker L)
    create_partitions b name count = grow_to b name count b.ctrl (current_count b name b.ctrl)

    abbrev ensured : Bytes → Option (Bool × Broker L) → Option (Option Int32 × Broker L)
    ensured name none = none
    ensured name (some (false, b)) = some (none, b)
    ensured name (some (true, b)) = some (some (num_partitions b name), b)

    abbrev ensure_by :
        Broker L → Bytes → Option MetaState → Option Int32 → Option (Option Int32 × Broker L)
    ensure_by b name ctrl (some n) = some (some n, b)
    ensure_by b name none none = ensured name (register_locked b name b.cfg.num_partitions)
    ensure_by b name (some st) none = ensured name (propose_create b st name b.cfg.num_partitions)

    -- The partition count, or `none` inside on an error.
    unfoldable pub ensure_topic : Broker L → Bytes → Option (Option Int32 × Broker L)
    ensure_topic b name = ensure_by b name b.ctrl (current_count b name b.ctrl)

-- A topic's name and its number of partitions.
abbrev pub TopicInfo : Type 0
TopicInfo = Bytes × Int32

unfoldable pub insert_topic : TopicInfo → List TopicInfo → List TopicInfo
insert_topic t [] = t ∷ []
insert_topic t (u ∷ us) =
    let rest = insert_topic t us in if bytes_ltb t.0 u.0 then t ∷ u ∷ us else u ∷ rest

unfoldable pub by_name : List TopicInfo → List TopicInfo
by_name [] = []
by_name (t ∷ ts) = insert_topic t (by_name ts)

abbrev infos : Map Bytes TopicMeta → List TopicInfo
infos [] = []
infos ((name, t) ∷ rest) = (name, t.partitions) ∷ infos rest

module _ {L : Type 0} where
  abbrev known_by : Broker L → Option MetaState → List TopicInfo
  known_by b none = by_name b.catalog
  known_by b (some st) = by_name (infos st.topics)

  -- KnownTopics
  unfoldable pub known_topics : Broker L → List TopicInfo
  known_topics b = known_by b b.ctrl
