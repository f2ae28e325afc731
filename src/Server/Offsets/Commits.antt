-- ===== src/Server/Offsets/Commits.antt =====
-- internal/server/handlers.go: what OffsetFetch answers after an OffsetCommit.
use mq.Common.{
  minus_one32, minus_one64, ◌==◌, ◌≡◌, refl, sym, ap, ◌∙◌, Bool, true, false, Option, none, some,
  List, [], ◌∷◌, Bytes, Int32, Int64, if◌then◌else◌, Bool-cases, inl, inr, ==_iff,
}
use mq.Common.Keys.{lookup, lookup-insert, bytes_eq, bytes_beq, nat_eq, pair_eq, bytes_beq_iff}
use mq.Group.Offsets.{answer_of, OffsetStore, OffsetKey, Committed, commit, fetch}
use mq.Protocol.Header.{err_none}
use mq.Protocol.Offsets.{
  OffsetCommitPartition, OffsetCommitTopic, OffsetCommitRequest, OffsetFetchRequest,
}
use mq.Protocol.OffsetAnswers.{OffsetFetchPartitionResp, OffsetFetchResponse}
use mq.Broker.Topics.{TopicInfo}
use mq.Server.Offsets.{
  Writes, or_empty, commit_one, commit_partitions, commit_topics, offset_commit, meta_of, fetched,
  fetch_topics, offset_fetch,
}

-- The last entry for a partition in a request.
abbrev later :
    OffsetCommitPartition → Bool → Option OffsetCommitPartition → Option OffsetCommitPartition
later q here (some r) = some r
later q true none = some q
later q false none = none

abbrev pub last_for : Int32 → List OffsetCommitPartition → Option OffsetCommitPartition
last_for p [] = none
last_for p (q ∷ qs) = later q (q.index == p) (last_for p qs)

-- The last entry for a partition of a topic in a request, which may name the topic more than once.
abbrev or_earlier :
    Option OffsetCommitPartition → Option OffsetCommitPartition → Option OffsetCommitPartition
or_earlier (some q) earlier = some q
or_earlier none earlier = earlier

abbrev pub last_in : Bytes → Int32 → List OffsetCommitTopic → Option OffsetCommitPartition
last_in topic p [] = none
last_in topic p (t ∷ ts) =
    or_earlier (last_in topic p ts)
      (if bytes_beq t.name topic then last_for p t.partitions else none)

abbrev pub now_committed :
    Int64 × Bytes × Bool → Option OffsetCommitPartition → Int64 × Bytes × Bool
now_committed before none = before
now_committed before (some q) = (q.offset, or_empty q.metadata, true)

-- An OffsetFetch of one partition, and the answer to it.
abbrev pub ask : Bytes → Bytes → Int32 → OffsetFetchRequest
ask group topic p = record {
  group_id = group;
  all_topics = false;
  topics = record { name = topic; partitions = p ∷ [] } ∷ [];
}

abbrev entry : Int32 → Int64 → Option Bytes → OffsetFetchPartitionResp
entry p offset meta = record {
  index = p;
  offset = offset;
  leader_epoch = minus_one32;
  metadata = meta;
  error_code = err_none;
}

abbrev some_bytes_of : Option Bytes → Option Bytes
some_bytes_of none = none
some_bytes_of (some []) = none
some_bytes_of (some (x ∷ xs)) = some (x ∷ xs)

abbrev pub answer_with : Bytes → OffsetFetchPartitionResp → OffsetFetchResponse
answer_with topic part = record {
  throttle_time = 0;
  topics = record { name = topic; partitions = part ∷ [] } ∷ [];
  error_code = err_none;
}

module _ (writes : Writes) (group topic : Bytes) (p : Int32) where
  fetch_written :
      (s : OffsetStore) (q : Int32) (offset : Int64) (meta : Bytes)
      → fetch (commit true s group topic q offset meta).1 group topic p
        ≡ (if q == p then (offset, meta, true) else fetch s group topic p)
  unfolding fetch commit
  fetch_written s q offset meta =
      let g = (bytes_beq_iff group group).1 refl in
      let t = (bytes_beq_iff topic topic).1 refl in
      let c : Committed = record { offset = offset; metadata = meta } in
      let read = lookup-insert {K = OffsetKey} ((group, topic), q) ((group, topic), p) c s.cache in
      elim (Bool-cases (q == p)) [
        | inl e ↦ rw (read, g, t, e) refl
        | inr e ↦ rw (read, g, t, e) refl
      ]

  fetch-commit_one :
      (s : OffsetStore) (q : OffsetCommitPartition)
      → writes topic p ≡ true
      → fetch (commit_one writes group topic s q).1 group topic p
        ≡ (if q.index == p then (q.offset, or_empty q.metadata, true) else fetch s group topic p)
  fetch-commit_one s q w = elim (Bool-cases (writes topic q.index)) [
    | inl written ↦ rw written (fetch_written s q.index q.offset (or_empty q.metadata))
    | inr lost ↦ elim (Bool-cases (q.index == p)) [
      | inl e ↦
          let same : true ≡ false =
            sym w ∙ ap (writes topic) (sym ((==_iff q.index p).0 e)) ∙ lost in
          absurd (cc (same))
      | inr e ↦ rw (lost, e) (unfold commit in refl)
    ]
  ]

  now-later :
      (before after : Int64 × Bytes × Bool) (q : OffsetCommitPartition)
      (r : Option OffsetCommitPartition)
      → after ≡ (if q.index == p then (q.offset, or_empty q.metadata, true) else before)
      → now_committed after r ≡ now_committed before (later q (q.index == p) r)
  now-later before after q (some r) e = refl
  now-later before after q none e = elim (Bool-cases (q.index == p)) [
    | inl h ↦ rw h (rw h at e)
    | inr h ↦ rw h (rw h at e)
  ]

  fetch-commit_partitions :
      (ps : List OffsetCommitPartition) (s : OffsetStore)
      → writes topic p ≡ true
      → fetch (commit_partitions false writes group topic s ps).1 group topic p
        ≡ now_committed (fetch s group topic p) (last_for p ps)
  unfolding commit_partitions
  fetch-commit_partitions [] s w = refl
  fetch-commit_partitions (q ∷ ps) s w =
      fetch-commit_partitions ps (commit_one writes group topic s q).1 w
      ∙ now-later (fetch s group topic p)
          (fetch (commit_one writes group topic s q).1 group topic p) q (last_for p ps)
          (fetch-commit_one s q w)

  fetch_other_topic :
      (s : OffsetStore) (name : Bytes) (q : OffsetCommitPartition)
      → bytes_beq name topic ≡ false
      → fetch (commit_one writes group name s q).1 group topic p ≡ fetch s group topic p
  unfolding fetch commit
  fetch_other_topic s name q other =
      let c : Committed = record { offset = q.offset; metadata = or_empty q.metadata } in
      let read =
        lookup-insert {K = OffsetKey} ((group, name), q.index) ((group, topic), p) c s.cache in
      elim (Bool-cases (writes name q.index)) [
        | inl w ↦ rw (w, read, other, (bytes_beq_iff group group).1 refl) refl
        | inr w ↦ rw w refl
      ]

  fetch_other_partitions :
      (name : Bytes) (ps : List OffsetCommitPartition) (s : OffsetStore)
      → bytes_beq name topic ≡ false
      → fetch (commit_partitions false writes group name s ps).1 group topic p
        ≡ fetch s group topic p
  unfolding commit_partitions
  fetch_other_partitions name [] s other = refl
  fetch_other_partitions name (q ∷ ps) s other =
      fetch_other_partitions name ps (commit_one writes group name s q).1 other
      ∙ fetch_other_topic s name q other

  now_in :
      (before : Int64 × Bytes × Bool) (late early : Option OffsetCommitPartition)
      → now_committed (now_committed before early) late
        ≡ now_committed before (or_earlier late early)
  now_in before (some q) early = refl
  now_in before none early = refl

  fetch-commit_topics :
      (ts : List OffsetCommitTopic) (s : OffsetStore)
      → writes topic p ≡ true
      → fetch (commit_topics false writes group s ts).1 group topic p
        ≡ now_committed (fetch s group topic p) (last_in topic p ts)
  unfolding commit_topics
  fetch-commit_topics [] s w = refl
  fetch-commit_topics (t ∷ ts) s w =
      let s1 = (commit_partitions false writes group t.name s t.partitions).1 in
      let before = fetch s group topic p in
      let here = λ (c : Bool). if c then last_for p t.partitions else none in
      let one : fetch s1 group topic p ≡ now_committed before (here (bytes_beq t.name topic)) =
        elim (Bool-cases (bytes_beq t.name topic)) [
          | inl e ↦
              ap
                (λ x. fetch (commit_partitions false writes group x s t.partitions).1 group topic p)
                ((bytes_beq_iff t.name topic).0 e)
              ∙ fetch-commit_partitions t.partitions s w
              ∙ ap (λ c. now_committed before (here c)) (sym e)
          | inr e ↦
              fetch_other_partitions t.name t.partitions s e
              ∙ ap (λ c. now_committed before (here c)) (sym e)
        ] in
      fetch-commit_topics ts s1 w
      ∙ ap (λ x. now_committed x (last_in topic p ts)) one
      ∙ now_in before (last_in topic p ts) (here (bytes_beq t.name topic))

  abbrev answer_to : Option Committed → OffsetFetchPartitionResp
  answer_to none = entry p minus_one64 none
  answer_to (some c) = entry p c.offset (some_bytes_of (some c.metadata))

  -- What an OffsetFetch of the partition answers behind a commit of `q`, if any: the offset -1 where
  -- there is none, and none was committed before.
  abbrev pub answer_after : OffsetStore → Option OffsetCommitPartition → OffsetFetchPartitionResp
  answer_after s none = answer_to (lookup ((group, topic), p) s.cache)
  answer_after s (some q) = entry p q.offset (some_bytes_of q.metadata)

  meta_of-some_bytes_of : (m : Option Bytes) → meta_of (or_empty m) ≡ some_bytes_of m
  meta_of-some_bytes_of none = refl
  meta_of-some_bytes_of (some []) = refl
  meta_of-some_bytes_of (some (x ∷ xs)) = refl

  fetched-answer_to : (o : Option Committed) → fetched p (answer_of o) ≡ answer_to o
  fetched-answer_to none = refl
  fetched-answer_to (some c) = ap (entry p c.offset) (meta_of-some_bytes_of (some c.metadata))

  fetched-now_committed :
      (s : OffsetStore) (o : Option OffsetCommitPartition)
      → fetched p (now_committed (fetch s group topic p) o) ≡ answer_after s o
  unfolding fetch
  fetched-now_committed s none = fetched-answer_to (lookup ((group, topic), p) s.cache)
  fetched-now_committed s (some q) = ap (entry p q.offset) (meta_of-some_bytes_of q.metadata)

  -- An OffsetCommit at the group's coordinator, where the writes of the partition succeed, and then
  -- an OffsetFetch of the partition there: the answer has the offset and the metadata of the last
  -- entry for the partition in the whole request, in whatever topic entry it stands; if there is none,
  -- those that were committed before, and the offset -1 if there are none either.
  pub offset_fetch-offset_commit :
      (known : List TopicInfo) (s : OffsetStore) (req : OffsetCommitRequest)
      → req.group_id ≡ group
      → writes topic p ≡ true
      → offset_fetch true known (offset_commit true writes s req).1 (ask group topic p)
        ≡ answer_with topic (answer_after s (last_in topic p req.topics))
  unfolding offset_fetch offset_commit fetch_topics
  offset_fetch-offset_commit known s req same w =
      ap
        (λ g.
          answer_with topic
            (fetched p (fetch (commit_topics false writes g s req.topics).1 group topic p)))
        same
      ∙ ap (λ x. answer_with topic (fetched p x)) (fetch-commit_topics req.topics s w)
      ∙ ap (answer_with topic) (fetched-now_committed s (last_in topic p req.topics))
