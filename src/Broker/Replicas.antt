-- ===== src/Broker/Replicas.antt =====
-- internal/broker/broker.go: what a leader does for its followers. The clock and the outcome of a
-- proposal are arguments.
pub mod Watermark
pub mod Isr
use mq.Common.{
  ℕ, zero, suc, ◌==◌, ◌-◌, Bool, true, false, ◌||◌, Option, none, some, List, [], ◌∷◌, ◌++◌, Bytes,
  Int32, Int64, length, leb, lt_i64, to_i32, add32, if◌then◌else◌,
}
use mq.Common.Keys.{Map, lookup, insert, bytes_eq, nat_eq, pair_eq}
use mq.Controller.Fsm.{MetaState, PartitionMeta, Command, cmd_change_isr, partition}
use mq.Controller.Failover.{TopicView, views}
use mq.Storage.Backend.{Backend}
use mq.Broker.{Broker, FollowerProgress, TpKey, Time, get_log, node_id, replica_lag_timeout}
use mq.Broker.Topics.{open_locked}

abbrev pub Progress : Type 0
Progress = Map Int32 FollowerProgress

abbrev progress_of : Option Progress → Progress
progress_of none = []
progress_of (some prog) = prog

abbrev pub end_of : Option FollowerProgress → Int64
end_of none = 0
end_of (some pr) = pr.end_offset

-- The loop over the in-sync replicas, from the leader's log end `hwm` down.
unfoldable pub least_offset : Int32 → Progress → List Int32 → Int64 → Int64
least_offset self prog [] hwm = hwm
least_offset self prog (id ∷ ids) hwm =
    let off = end_of (lookup id prog) in
    least_offset self prog ids (if id == self then hwm else if lt_i64 off hwm then off else hwm)

-- The loop over the replicas in maintainPartitionISR; `since` is none for the zero time.
abbrev pub is_fresh : Time → Option Time → Option FollowerProgress → Bool
is_fresh now since (some pr) = leb (now - pr.last_seen) replica_lag_timeout
is_fresh now none none = false
is_fresh now (some led) none = leb (now - led) replica_lag_timeout

unfoldable pub desired_isr : Int32 → Time → Progress → Option Time → List Int32 → List Int32
desired_isr self now prog since [] = []
desired_isr self now prog since (r ∷ rs) =
    let rest = desired_isr self now prog since rs in
    if r == self then self ∷ rest else if is_fresh now since (lookup r prog) then r ∷ rest else rest

unfoldable pub contains_node : List Int32 → Int32 → Bool
contains_node [] id = false
contains_node (x ∷ ids) id = if x == id then true else contains_node ids id

unfoldable pub all_seen : List Int32 → List Int32 → Bool
all_seen seen [] = true
all_seen seen (x ∷ xs) = if contains_node seen x then all_seen seen xs else false

abbrev pub same_node_set : List Int32 → List Int32 → Bool
same_node_set a b = if length a == length b then all_seen a b else false

abbrev pub change_isr_to : Bytes → Int32 → List Int32 → Command
change_isr_to topic p isr = record {
  cmd_type = cmd_change_isr;
  topic = topic;
  partition = p;
  partitions = 0;
  replicas = [];
  leader = 0;
  isr = isr;
  from = 0;
  segment = none;
  cutoff = 0;
}

-- What the replication manager is told: to follow a partition, or to stop.
pub data Follow : Type 0 where
  ensure_following stop_following : Bytes → Int32 → Follow

module _ {L : Type 0} where
  abbrev pub followers_of : Broker L → Bytes → Int32 → Progress
  followers_of b topic p = progress_of (lookup (topic, p) b.followers)

  abbrev noted : Broker L → TpKey → Time → Option Time → Broker L
  noted b key now (some led) = b
  noted b key now none = record b { lead_since = insert key now b.lead_since }

  unfoldable pub note_lead_since : Broker L → Bytes → Int32 → Time → Broker L
  note_lead_since b topic p now = noted b (topic, p) now (lookup (topic, p) b.lead_since)

  unfoldable pub desired_of : Broker L → Bytes → Int32 → PartitionMeta → Time → List Int32
  desired_of b topic p pv now =
      desired_isr (node_id b) now (followers_of b topic p) (lookup (topic, p) b.lead_since)
        pv.replicas

  abbrev kept_progress : Broker L → Bytes → Int32 → Int32 → FollowerProgress → Broker L
  kept_progress b topic p id pr = record b {
    followers = insert (topic, p) (insert id pr (followers_of b topic p)) b.followers;
  }

  -- The manager is told after the logs are open; a partition that is led is noted.
  unfoldable pub note_all : Broker L → List Follow → Time → Broker L
  note_all b [] now = b
  note_all b (stop_following topic p ∷ fs) now = note_all (note_lead_since b topic p now) fs now
  note_all b (ensure_following topic p ∷ fs) now = note_all b fs now

  module _ (k : Backend L) where
    abbrev advance_log : Broker L → Bytes → Int32 → List Int32 → L → L
    advance_log b topic p isr l =
        k.set_high_watermark_of
          (least_offset (node_id b) (followers_of b topic p) isr (k.latest_of l)) l

    abbrev advance_open : Broker L → Bytes → Int32 → PartitionMeta → Option L → Broker L
    advance_open b topic p pv none = b
    advance_open b topic p pv (some l) = record b {
      logs = insert (topic, p) (advance_log b topic p pv.isr l) b.logs;
    }

    abbrev advance_if : Broker L → Bytes → Int32 → Option PartitionMeta → Broker L
    advance_if b topic p none = b
    advance_if b topic p (some pv) =
        if pv.leader == node_id b then advance_open b topic p pv (get_log b topic p) else b

    -- With the metadata of the controller, which every caller has.
    unfoldable pub advance_high_watermark : Broker L → MetaState → Bytes → Int32 → Broker L
    advance_high_watermark b st topic p = advance_if b topic p (partition st topic p)

    abbrev recorded :
        Broker L → Bytes → Int32 → Int32 → FollowerProgress → Option MetaState → Broker L
    recorded b topic p id pr none = b
    recorded b topic p id pr (some st) =
        advance_high_watermark (kept_progress b topic p id pr) st topic p

    unfoldable pub record_replica_fetch : Broker L → Bytes → Int32 → Int32 → Int64 → Time → Broker L
    record_replica_fetch b topic p id offset now =
        recorded b topic p id (record { end_offset = offset; last_seen = now }) b.ctrl

    -- `propose` is Apply of the controller: whether it reports success, and the metadata that this
    -- node has applied afterwards.
    module _ (propose : Command → MetaState → Bool × MetaState) where
      unfoldable pub maintain_partition_isr :
          Broker L → MetaState → Bytes → Int32 → PartitionMeta → Time → MetaState
      maintain_partition_isr b st topic p pv now =
          let desired = desired_of b topic p pv now in
          if same_node_set desired pv.isr
          then st
          else (propose (change_isr_to topic p desired) st).1

      abbrev maintain_led :
          Broker L → MetaState → Bytes → Int32 → PartitionMeta → Time → Broker L × MetaState
      maintain_led b st topic p pv now =
          let st' = maintain_partition_isr b st topic p pv now in
          (advance_high_watermark (record b { ctrl = some st' }) st' topic p, st')

      abbrev maintain_part :
          Broker L × MetaState → Bytes → Int32 → PartitionMeta → Time → Broker L × MetaState
      maintain_part (b, st) topic p pv now =
          if (pv.leader == node_id b)
          then (if leb (length pv.replicas) 1 then (b, st) else maintain_led b st topic p pv now)
          else (b, st)

      unfoldable pub maintain_parts :
          Broker L × MetaState → Bytes → ℕ → List PartitionMeta → Time → Broker L × MetaState
      maintain_parts bs topic i [] now = bs
      maintain_parts bs topic i (pv ∷ pvs) now =
          maintain_parts (maintain_part bs topic (to_i32 i) pv now) topic (suc i) pvs now

      unfoldable pub maintain_topics :
          Broker L × MetaState → List TopicView → Time → Broker L × MetaState
      maintain_topics bs [] now = bs
      maintain_topics bs (tv ∷ tvs) now =
          maintain_topics (maintain_parts bs tv.0 0 tv.1 now) tvs now

      abbrev pub maintain_replicas : Broker L → MetaState → Time → Broker L × MetaState
      maintain_replicas b st now = maintain_topics (b, st) (views st.topics) now

    module _ (open_log : Bytes → Int32 → Option L) where
      abbrev action : Broker L → Bytes → Int32 → PartitionMeta → Follow
      action b topic p pv =
          if pv.leader == node_id b then stop_following topic p else ensure_following topic p

      abbrev held : Broker L → Bytes → Int32 → PartitionMeta → L → Broker L × List Follow
      held b topic p pv l = if leb (length pv.replicas) 1 then (b, []) else (
        record b { logs = insert (topic, p) (k.hold_high_watermark_of l) b.logs },
        action b topic p pv ∷ [],
      )

      abbrev reconciled :
          Bytes → Int32 → PartitionMeta → Option L × Broker L → Broker L × List Follow
      reconciled topic p pv (none, b) = (b, [])
      reconciled topic p pv (some l, b) = held b topic p pv l

      abbrev pub reconcile_part : Broker L → Bytes → Int32 → PartitionMeta → Broker L × List Follow
      reconcile_part b topic p pv =
          if contains_node pv.replicas (node_id b)
          then reconciled topic p pv (open_locked open_log b topic p)
          else (b, [])

      unfoldable pub reconcile_parts :
          Broker L → Bytes → ℕ → List PartitionMeta → Broker L × List Follow
      reconcile_parts b topic i [] = (b, [])
      reconcile_parts b topic i (pv ∷ pvs) =
          let (b', now) = reconcile_part b topic (to_i32 i) pv in
          let (b'', later) = reconcile_parts b' topic (suc i) pvs in (b'', now ++ later)

      unfoldable pub reconcile_topics : Broker L → List TopicView → Broker L × List Follow
      reconcile_topics b [] = (b, [])
      reconcile_topics b (tv ∷ tvs) =
          let (b', now) = reconcile_parts b tv.0 0 tv.1 in
          let (b'', later) = reconcile_topics b' tvs in (b'', now ++ later)

      abbrev reconcile_by : Broker L → Bool → Time → Option MetaState → Broker L × List Follow
      reconcile_by b has_repl now none = (b, [])
      reconcile_by b has_repl now (some st) =
          let (b', actions) = reconcile_topics b (views st.topics) in
          if has_repl then (note_all b' actions now, actions) else (b', [])

      -- reconcileFromFSM; `has_repl` says whether there is a replication manager.
      unfoldable pub reconcile : Broker L → Bool → Time → Broker L × List Follow
      reconcile b has_repl now = reconcile_by b has_repl now b.ctrl
