-- ===== src/Server/Topics.antt =====
-- internal/server/handlers.go: the handlers of ApiVersions, Metadata, CreateTopics and
-- CreatePartitions. The text of an error is an argument.
use mq.Common.{
  ℕ, zero, suc, Bool, true, false, not, ◌||◌, ◌&&◌, Option, none, some, List, [], ◌∷◌, ◌++◌, map,
  Bytes, Int16, Int32, lt_i16, is_neg32, add32, if◌then◌else◌,
}
use mq.Cluster.{BrokerInfo}
use mq.Controller.Fsm.{MetaState, Command}
use mq.Protocol.Header.{VersionRange, supported, supported_versions, err_none}
use mq.Protocol.Metadata.{
  MetadataRequest, MetadataBroker, MetadataPartition, MetadataTopic, MetadataResponse,
  ApiVersionsResponse,
}
use mq.Protocol.Admin.{
  CreateTopicsTopic, CreateTopicsRequest, CreatePartitionsTopic, CreatePartitionsRequest,
  CreateTopicResp,
}
use mq.Protocol.AdminAnswers.{CreateTopicsResponse, CreatePartitionsResponse}
use mq.Broker.{Broker, knows, num_partitions, partition_meta}
use mq.Broker.Topics.{TopicInfo, known_topics, create_topic, create_partitions, ensure_topic}
use mq.Server.{err_unknown_topic_or_part}

abbrev pub err_unsupported_version : Int16
err_unsupported_version = 35

abbrev pub err_topic_already_exists : Int16
err_topic_already_exists = 36

abbrev pub err_invalid_partitions : Int16
err_invalid_partitions = 37

abbrev pub within : Int16 → Option VersionRange → Bool
within version none = false
within version (some vr) = not (lt_i16 version vr.min || lt_i16 vr.max version)

-- Whether rangeFor finds the version.
abbrev pub range_for : Int16 → Int16 → Bool
range_for api version = within version (supported api)

-- The response and the version that it is encoded at; 18 is the key of ApiVersions.
unfoldable pub api_versions : Int16 → ApiVersionsResponse × Int16
api_versions version =
    if range_for 18 version
    then (
      record { error_code = err_none; versions = supported_versions; throttle_time = 0 },
      version,
    )
    else (
      record {
        error_code = err_unsupported_version;
        versions = supported_versions;
        throttle_time = 0;
      },
      0,
    )

-- "kafka-cluster"
abbrev cluster_id : Bytes
cluster_id = 107 ∷ 97 ∷ 102 ∷ 107 ∷ 97 ∷ 45 ∷ 99 ∷ 108 ∷ 117 ∷ 115 ∷ 116 ∷ 101 ∷ 114 ∷ []

abbrev broker_entry : BrokerInfo → MetadataBroker
broker_entry bi = record { node_id = bi.node_id; host = bi.host; port = bi.port }

abbrev partition_entry : Int32 → Int32 × Int32 × List Int32 × List Int32 → MetadataPartition
partition_entry p (leader, epoch, replicas, isr) = record {
  error_code = err_none;
  index = p;
  leader = leader;
  leader_epoch = epoch;
  replicas = replicas;
  isr = isr;
}

abbrev cons_entry :
    Int32
    → Option (Int32 × Int32 × List Int32 × List Int32)
    → Option (List MetadataPartition)
    → Option (List MetadataPartition)
cons_entry p none rest = none
cons_entry p (some m) none = none
cons_entry p (some m) (some rest) = some (partition_entry p m ∷ rest)

abbrev unknown_topic : Bytes → MetadataTopic
unknown_topic name = record {
  error_code = err_unknown_topic_or_part;
  name = name;
  is_internal = false;
  partitions = [];
}

abbrev topic_entry :
    Bytes
    → Option (List MetadataPartition)
    → Option (List MetadataTopic)
    → Option (List MetadataTopic)
topic_entry name none rest = none
topic_entry name (some ps) none = none
topic_entry name (some ps) (some rest) =
    some
      (record { error_code = err_none; name = name; is_internal = false; partitions = ps } ∷ rest)

module _ {L : Type 0} where
  -- The partitions from `p` on; `none` is the panic of a cluster without brokers.
  unfoldable pub describe_partitions :
      Broker L → Bytes → ℕ → Int32 → Option (List MetadataPartition)
  describe_partitions b name zero p = some []
  describe_partitions b name (suc n) p =
      cons_entry p (partition_meta b name p) (describe_partitions b name n (add32 p 1))

  unfoldable pub describe_topics : Broker L → List TopicInfo → Option (List MetadataTopic)
  describe_topics b [] = some []
  describe_topics b (t ∷ ts) =
      topic_entry t.0 (describe_partitions b t.0 (if is_neg32 t.1 then 0 else t.1) 0)
        (describe_topics b ts)

  module _ (open_log : Bytes → Int32 → Option L)
      (propose : Command → MetaState → Bool × MetaState) where
    -- What the request names, once each topic has been looked up: the topics to describe and the
    -- entries of the unknown ones.
    abbrev pub Chosen : Type 0
    Chosen = (List TopicInfo × List MetadataTopic) × Broker L

    abbrev with_topic : Bytes → Int32 → Option Chosen → Option Chosen
    with_topic name n none = none
    with_topic name n (some ((ts, unknown), b)) = some (((name, n) ∷ ts, unknown), b)

    abbrev with_unknown : Bytes → Option Chosen → Option Chosen
    with_unknown name none = none
    with_unknown name (some ((ts, unknown), b)) = some ((ts, unknown_topic name ∷ unknown), b)

    -- EnsureTopic's result is dropped.
    abbrev pub ensured : Broker L → Bytes → Option (Broker L)
    ensured b name =
        if b.cfg.auto_create
        then elim (ensure_topic open_log propose b name) [ none ↦ none | some r ↦ some r.1 ]
        else some b

    abbrev described : Bytes → Option (Broker L) → (Broker L → Option Chosen) → Option Chosen
    described name none next = none
    described name (some b) next = with_topic name (num_partitions b name) (next b)

    unfoldable pub choose_topics : Broker L → List Bytes → Option Chosen
    choose_topics b [] = some (([], []), b)
    choose_topics b (name ∷ names) =
        let skipped = with_unknown name (choose_topics b names) in
        let named = described name (ensured b name) (λ b'. choose_topics b' names) in
        if not (knows b name) && not b.cfg.auto_create then skipped else named

    abbrev chosen : Broker L → MetadataRequest → Option Chosen
    chosen b req =
        if req.all_topics then some ((known_topics b, []), b) else choose_topics b req.topics

    abbrev full_response : List BrokerInfo → List MetadataTopic → Option MetadataResponse
    full_response [] topics = none
    full_response (bi ∷ bis) topics = some (record {
      throttle_time = 0;
      brokers = map broker_entry (bi ∷ bis);
      cluster_id = some cluster_id;
      controller_id = bi.node_id;
      topics = topics;
    })

    abbrev respond :
        Broker L
        → List MetadataTopic
        → Option (List MetadataTopic)
        → Option (MetadataResponse × Broker L)
    respond b unknown none = none
    respond b unknown (some ts) = elim (full_response b.cluster.brokers (unknown ++ ts)) [
      | none ↦ none
      | some r ↦ some (r, b)
    ]

    abbrev metadata_of : Option Chosen → Option (MetadataResponse × Broker L)
    metadata_of none = none
    metadata_of (some ((ts, unknown), b)) = respond b unknown (describe_topics b ts)

    unfoldable pub metadata : Broker L → MetadataRequest → Option (MetadataResponse × Broker L)
    metadata b req = metadata_of (chosen b req)

    -- The answer for one topic, by whether the broker did it.
    abbrev pub topic_result : Int16 → (Bytes → Bytes) → Bytes → Bool → CreateTopicResp
    topic_result code message name true = record {
      name = name;
      error_code = err_none;
      error_message = none;
    }
    topic_result code message name false = record {
      name = name;
      error_code = code;
      error_message = some (message name);
    }

    abbrev cons_result :
        CreateTopicResp
        → Option (List CreateTopicResp × Broker L)
        → Option (List CreateTopicResp × Broker L)
    cons_result r none = none
    cons_result r (some (rs, b)) = some (r ∷ rs, b)

    abbrev then_results :
        (Bool → CreateTopicResp)
        → Option (Bool × Broker L)
        → (Broker L → Option (List CreateTopicResp × Broker L))
        → Option (List CreateTopicResp × Broker L)
    then_results result none next = none
    then_results result (some (done, b)) next = cons_result (result done) (next b)

    module _ (message : Bytes → Bytes) where
      unfoldable pub create_all :
          Broker L → List CreateTopicsTopic → Option (List CreateTopicResp × Broker L)
      create_all b [] = some ([], b)
      create_all b (t ∷ ts) =
          then_results (topic_result err_topic_already_exists message t.name)
            (create_topic open_log propose b t.name t.num_partitions) (λ b'. create_all b' ts)

      abbrev created :
          Option (List CreateTopicResp × Broker L) → Option (CreateTopicsResponse × Broker L)
      created none = none
      created (some (rs, b)) = some (record { throttle_time = 0; topics = rs }, b)

      unfoldable pub create_topics :
          Broker L → CreateTopicsRequest → Option (CreateTopicsResponse × Broker L)
      create_topics b req = created (create_all b req.topics)

      unfoldable pub grow_all :
          Broker L → List CreatePartitionsTopic → Option (List CreateTopicResp × Broker L)
      grow_all b [] = some ([], b)
      grow_all b (t ∷ ts) =
          then_results (topic_result err_invalid_partitions message t.name)
            (create_partitions open_log propose b t.name t.count) (λ b'. grow_all b' ts)

      abbrev grew :
          Option (List CreateTopicResp × Broker L) → Option (CreatePartitionsResponse × Broker L)
      grew none = none
      grew (some (rs, b)) = some (record { throttle_time = 0; topics = rs }, b)

      unfoldable pub grow_topics :
          Broker L → CreatePartitionsRequest → Option (CreatePartitionsResponse × Broker L)
      grow_topics b req = grew (grow_all b req.topics)
