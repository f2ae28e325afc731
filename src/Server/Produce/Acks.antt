-- ===== src/Server/Produce/Acks.antt =====
-- internal/server/handlers.go: what an answer to Produce means.
use mathlib.Core.Path.{subst}
use mathlib.Core.Option.{some-injective}
use mq.Common.Keys.{insert, bytes_eq, nat_eq, pair_eq}
use mq.Common.{
  ℕ, zero, suc, not, ◌&&◌, ◌==◌, Option-cases, ◌+◌, ◌<◌, ◌^◌, ◌≡◌, ◌⊎◌, inl, inr, refl, sym, ap,
  ◌∙◌, Bool, true, false, Option, none, some, List, [], ◌∷◌, Bytes, Int16, Int32, Int64, arith,
  length, flatten, All, le_i64, leb, is_neg64, minus_one64, get_elem?, if◌then◌else◌, Bool-cases,
  ok, minus_one16,
}
use mq.Record.WellFormed.{IsBatch}
use mq.Record.Iterate.{Walk, done, after}
use mq.Record.Iterate.Walks.{visit_all}
use mq.Record.Iterate.Ends.{iterate-visit_all}
use mq.Protocol.Header.{err_none, err_request_timed_out}
use mq.Protocol.Produce.{ProducePartition, ProducePartitionResp, ProduceTopicResp}
use mq.Storage.Backend.{Backend}
use mq.Broker.{Broker, Time}
use mq.Server.{leader_log}
use mq.Server.Produce.{
  ProduceWait, appended, walked, append_batch, produce_records, produce_partition,
}
use mq.Server.Produce.Reply.{committed, flag_part, flag, await_commit}

-- A poll saw the high watermark at the target or beyond it.
abbrev pub Reached : Int64 → List (Int64 × Time) → Type 0
Reached target [] = ⊥
Reached target ((hwm, now) ∷ polls) = (le_i64 target hwm ≡ true) ⊎ Reached target polls

committed-Reached :
    (target : Int64) (deadline : Time) (polls : List (Int64 × Time))
    → committed target deadline polls ≡ some true
    → Reached target polls
unfolding committed
committed-Reached target deadline [] h = absurd (cc)
committed-Reached target deadline ((hwm, now) ∷ polls) h = elim (Bool-cases (le_i64 target hwm)) [
  | inl e ↦ inl e
  | inr e ↦ elim (Bool-cases (leb deadline now)) [
    | inl f ↦
        absurd (let q : ◌≡◌ {A = Option Bool} (some false) (some true) = rw (e, f) at h in cc (q))
    | inr f ↦ inr (committed-Reached target deadline polls (rw (e, f) at h))
  ]
]

-- topics[ti].Partitions[pi]
abbrev part_of : Option ProduceTopicResp → ℕ → Option ProducePartitionResp
part_of none pi = none
part_of (some t) pi = get_elem? t.partitions pi

abbrev pub slot : List ProduceTopicResp → ℕ → ℕ → Option ProducePartitionResp
slot topics ti pi = part_of (get_elem? topics ti) pi

abbrev pub Exists : Option ProducePartitionResp → Type 0
Exists none = ⊥
Exists (some pr) = Unit {0}

abbrev pub IsFlagged : Option ProducePartitionResp → Type 0
IsFlagged none = ⊥
IsFlagged (some pr) = (pr.error_code ≡ err_request_timed_out) × (pr.base_offset ≡ minus_one64)

-- A flag leaves every place as it was, or flags it.
FlagStep : Option ProducePartitionResp → Option ProducePartitionResp → Type 0
FlagStep old new = (new ≡ old) ⊎ ((Exists old → IsFlagged new) × (IsFlagged old → IsFlagged new))

FlagStep-part :
    (pi : ℕ) (prs : List ProducePartitionResp) (pi' : ℕ)
    → FlagStep (get_elem? prs pi') (get_elem? (flag_part pi prs) pi')
unfolding flag_part FlagStep
FlagStep-part pi [] pi' = inl refl
FlagStep-part zero (pr ∷ prs) zero = inr ((λ e. (refl, refl)), (λ e. (refl, refl)))
FlagStep-part zero (pr ∷ prs) (suc pi') = inl refl
FlagStep-part (suc pi) (pr ∷ prs) zero = inl refl
FlagStep-part (suc pi) (pr ∷ prs) (suc pi') = FlagStep-part pi prs pi'

FlagStep-slot :
    (ti pi : ℕ) (topics : List ProduceTopicResp) (ti' pi' : ℕ)
    → FlagStep (slot topics ti' pi') (slot (flag ti pi topics) ti' pi')
unfolding flag
FlagStep-slot ti pi [] ti' pi' = unfold FlagStep in inl refl
FlagStep-slot zero pi (t ∷ ts) zero pi' = FlagStep-part pi t.partitions pi'
FlagStep-slot zero pi (t ∷ ts) (suc ti') pi' = unfold FlagStep in inl refl
FlagStep-slot (suc ti) pi (t ∷ ts) zero pi' = unfold FlagStep in inl refl
FlagStep-slot (suc ti) pi (t ∷ ts) (suc ti') pi' = FlagStep-slot ti pi ts ti' pi'

keeps_flag :
    (old new : Option ProducePartitionResp) → FlagStep old new → IsFlagged old → IsFlagged new
unfolding FlagStep
keeps_flag old new (inl e) h = subst IsFlagged (sym e) h
keeps_flag old new (inr (f, g)) h = g h

IsFlagged-Exists : (o : Option ProducePartitionResp) → IsFlagged o → Exists o
IsFlagged-Exists none h = h
IsFlagged-Exists (some pr) h = tt

keeps_place : (old new : Option ProducePartitionResp) → FlagStep old new → Exists old → Exists new
unfolding FlagStep
keeps_place old new (inl e) h = subst Exists (sym e) h
keeps_place old new (inr (f, g)) h = IsFlagged-Exists new (f h)

-- The place that is flagged.
IsFlagged-part :
    (pi : ℕ) (prs : List ProducePartitionResp)
    → Exists (get_elem? prs pi)
    → IsFlagged (get_elem? (flag_part pi prs) pi)
unfolding flag_part
IsFlagged-part pi [] h = absurd h
IsFlagged-part zero (pr ∷ prs) h = (refl, refl)
IsFlagged-part (suc pi) (pr ∷ prs) h = IsFlagged-part pi prs h

IsFlagged-slot :
    (ti pi : ℕ) (topics : List ProduceTopicResp)
    → Exists (slot topics ti pi)
    → IsFlagged (slot (flag ti pi topics) ti pi)
unfolding flag
IsFlagged-slot ti pi [] h = absurd h
IsFlagged-slot zero pi (t ∷ ts) h = IsFlagged-part pi t.partitions h
IsFlagged-slot (suc ti) pi (t ∷ ts) h = IsFlagged-slot ti pi ts h

module _ (polls : ProduceWait → List (Int64 × Time)) (deadline : Time) where
  -- The waited place has been reached, or is flagged.
  abbrev pub Answered : List ProduceTopicResp → ProduceWait → Type 0
  Answered topics w =
      Reached w.target (polls w) ⊎ IsFlagged (slot topics w.topic_index w.part_index)

  abbrev pub HasPlace : List ProduceTopicResp → ProduceWait → Type 0
  HasPlace topics w = Exists (slot topics w.topic_index w.part_index)

  await_keeps_flag :
      (ws : List ProduceWait) (topics topics' : List ProduceTopicResp) (ti pi : ℕ)
      → await_commit polls deadline ws topics ≡ some topics'
      → IsFlagged (slot topics ti pi)
      → IsFlagged (slot topics' ti pi)
  unfolding await_commit
  await_keeps_flag [] topics topics' ti pi e h =
      subst (λ t. IsFlagged (slot t ti pi)) (some-injective _ _ e) h
  await_keeps_flag (w ∷ ws) topics topics' ti pi e h =
      elim (Option-cases (committed w.target deadline (polls w))) [
        | inl c ↦ absurd (let q : none ≡ some topics' = rw c at e in cc (q))
        | inr (true, c) ↦ await_keeps_flag ws topics topics' ti pi (rw c at e) h
        | inr (false, c) ↦
            await_keeps_flag ws (flag w.topic_index w.part_index topics) topics' ti pi (rw c at e)
              (keeps_flag _ _ (FlagStep-slot w.topic_index w.part_index topics ti pi) h)
      ]

  flagged_places :
      (ti pi : ℕ) (ws : List ProduceWait) (topics : List ProduceTopicResp)
      → All (HasPlace topics) ws
      → All (HasPlace (flag ti pi topics)) ws
  flagged_places ti pi [] topics h = tt
  flagged_places ti pi (w ∷ ws) topics h = (
    keeps_place _ _ (FlagStep-slot ti pi topics w.topic_index w.part_index) h.0,
    flagged_places ti pi ws topics h.1,
  )

  -- When the wait of an acks=all Produce is over, each waited partition that has its place in the
  -- response either was seen with its high watermark at its target or beyond it, or is answered
  -- with the error REQUEST_TIMED_OUT and the base offset -1.
  pub await_commit-Answered :
      (ws : List ProduceWait) (topics topics' : List ProduceTopicResp)
      → All (HasPlace topics) ws
      → await_commit polls deadline ws topics ≡ some topics'
      → All (Answered topics') ws
  unfolding await_commit
  await_commit-Answered [] topics topics' h e = tt
  await_commit-Answered (w ∷ ws) topics topics' h e =
      elim (Option-cases (committed w.target deadline (polls w))) [
        | inl c ↦ absurd (let q : none ≡ some topics' = rw c at e in cc (q))
        | inr (true, c) ↦ (
          inl (committed-Reached w.target deadline (polls w) c),
          await_commit-Answered ws topics topics' h.1 (rw c at e),
        )
        | inr (false, c) ↦
            let flagged = flag w.topic_index w.part_index topics in
            let rest : await_commit polls deadline ws flagged ≡ some topics' = rw c at e in
            (
              inr (
                  await_keeps_flag ws flagged topics' w.topic_index w.part_index rest
                    (IsFlagged-slot w.topic_index w.part_index topics h.0)),
              await_commit-Answered ws flagged topics'
                  (flagged_places w.topic_index w.part_index ws topics h.1) rest,
            )
      ]

module _ {L : Type 0} (k : Backend L) where
  -- The batches appended one after another, until one fails.
  abbrev next_append :
      Int64
      → Option (Option Int64 × L)
      → (Int64 × L → Option (Bool × Int64 × L))
      → Option (Bool × Int64 × L)
  next_append base none next = none
  next_append base (some (none, l)) next = some (false, if is_neg64 base then 0 else base, l)
  next_append base (some (some off, l)) next = next (if is_neg64 base then off else base, l)

  abbrev pub append_all : List Bytes → Int64 × L → Option (Bool × Int64 × L)
  append_all [] (base, l) = some (true, base, l)
  append_all (b ∷ bs) (base, l) = next_append base (k.append_to l b) (append_all bs)

  after_append :
      (c : ℕ) (base : Int64) (r : Option (Option Int64 × L))
      (next : Int64 × L → Walk (Int64 × L) (Unit {0}))
      (next' : Int64 × L → Option (Bool × Int64 × L))
      → ((s : Int64 × L) → walked (next s) ≡ next' s)
      → walked (after c (appended base r) next) ≡ next_append base r next'
  after_append c base none next next' h = refl
  after_append c base (some (none, l)) next next' h = refl
  after_append c base (some (some off, l)) next next' h = h (if is_neg64 base then off else base, l)

  visit_all-append_all :
      (bs : List Bytes) (c : ℕ) (s : Int64 × L)
      → walked (visit_all (append_batch k) bs c s done) ≡ append_all bs s
  unfolding visit_all
  visit_all-append_all [] c (base, l) = refl
  visit_all-append_all (b ∷ bs) c (base, l) =
      after_append c base (k.append_to l b)
        (λ s. visit_all (append_batch k) bs (c + length b) s done) (append_all bs)
        (visit_all-append_all bs (c + length b))

  -- A record set of whole batches: Produce appends the batches in order, each as it stands, until
  -- one fails, and keeps the offset of the first.
  pub produce_records-append_all :
      (bs : List Bytes) (l : L)
      → All IsBatch bs
      → length (flatten bs) < 2 ^ 63
      → produce_records k (some (flatten bs)) l ≡ append_all bs (minus_one64, l)
  unfolding produce_records
  produce_records-append_all bs l h small =
      ap walked (iterate-visit_all (append_batch k) bs (minus_one64, l) h small)
      ∙ visit_all-append_all bs 0 (minus_one64, l)

  -- Where the log refuses the first batch of a record set, the partition is still answered without
  -- an error, with the base offset 0, and acks=all does not wait for it.
  pub produce_partition-swallows :
      (open_log : Bytes → Int32 → Option L) (acks : Int16) (b b' : Broker L) (topic : Bytes)
      (p : ProducePartition) (ti pi : ℕ) (l l' : L) (x : Bytes) (bs : List Bytes)
      → leader_log open_log b topic p.index ≡ some (ok l, b')
      → p.records ≡ some (flatten (x ∷ bs))
      → All IsBatch (x ∷ bs)
      → length (flatten (x ∷ bs)) < 2 ^ 63
      → k.append_to l x ≡ some (none, l')
      → (resp : ProducePartitionResp) × (after_b : Broker L) × (produce_partition k open_log acks b
            topic p ti pi
          ≡ some ((resp, none), after_b))
        × (resp.error_code ≡ err_none)
        × (resp.base_offset ≡ 0)
  unfolding produce_partition
  produce_partition-swallows open_log acks b b' topic p ti pi l l' x bs led recs h small fails =
      let run : produce_records k p.records l ≡ some (false, 0, l') =
        ap (λ r. produce_records k r l) recs
        ∙ produce_records-append_all (x ∷ bs) l h small
        ∙ ap (λ r. next_append minus_one64 r (append_all bs)) fails in
      let no_wait : (acks == minus_one16 && (false && not (is_neg64 0))) ≡ false = ground arith in
      (
        record {
          index = p.index;
          error_code = err_none;
          base_offset = 0;
          log_append_time = 0;
          log_start_offset = k.earliest_of l';
        },
        record b' { logs = insert (topic, p.index) l' b'.logs },
        rw (led, run, no_wait) refl,
        refl,
        refl,
      )
