-- ===== src/Cluster/Places.antt =====
-- internal/cluster/cluster.go: the replicas of a partition start at its leader and follow the ring.
use mq.Common.{
  ℕ, zero, suc, ◌+◌, ◌%◌, ◌^◌, ◌≤◌, ◌<◌, ◌==◌, ◌≡◌, refl, sym, ap, ◌∙◌, false, some, List, [], ◌∷◌,
  Bytes, Int32, IsInt32, length, get_elem?, to_i32, arith, leb, ◌||◌, if◌then◌else◌,
}
use native.Mathlib.Nat.{mod-lt, mod-eq_of_lt}
use mq.Cluster.{
  BrokerInfo, Cluster, node_of, node_at, start_of, leader_for, hash32, clamp, ring, replicas_for,
}

get_elem?-some :
    (bs : List BrokerInfo) (i : ℕ) → i < length bs → (b : BrokerInfo) × (get_elem? bs i ≡ some b)
get_elem?-some [] i h = absurd (omega arith)
get_elem?-some (b ∷ bs) zero h = (b, refl)
get_elem?-some (b ∷ bs) (suc i) h = get_elem?-some bs i (omega arith)

node_at-some :
    (c : Cluster) (i : ℕ)
    → 0 < length c.brokers
    → (id : Int32) × (node_at c (i % length c.brokers) ≡ some id)
unfolding node_at
node_at-some c i h =
    let (b, e) = get_elem?-some c.brokers (i % length c.brokers) (mod-lt i h) in
    (b.node_id, ap node_of e)

-- The nodes of the ring, by their place.
record IsRing (c : Cluster) (start i n : ℕ) (ids : List Int32) : Type 0 where
  count : length ids ≡ n
  place :
      (k : ℕ) → k < n → get_elem? ids k ≡ node_at c ((start + (i + k)) % 2 ^ 32 % length c.brokers)

ring-IsRing :
    (c : Cluster) (start i n : ℕ)
    → 0 < length c.brokers
    → (ids : List Int32) × (ring c start i n ≡ some ids) × IsRing c start i n ids
unfolding ring
ring-IsRing c start i zero h =
    ([], refl, record { count = refl; place = λ k l. absurd (omega arith) })
ring-IsRing c start i (suc n) h =
    let (ids, e, r) = ring-IsRing c start (suc i) n h in
    let (id, at) = node_at-some c ((start + i) % 2 ^ 32) h in
    (
      id ∷ ids,
      rw (e, at) refl,
      record { count = omega (arith, r.count); place = places ids id r at },
    )
  where
    places :
        (ids : List Int32) (id : Int32)
        → IsRing c start (suc i) n ids
        → node_at c ((start + i) % 2 ^ 32 % length c.brokers) ≡ some id
        → (k : ℕ) → k < suc n
        → get_elem? (id ∷ ids) k ≡ node_at c ((start + (i + k)) % 2 ^ 32 % length c.brokers)
    places ids id r at zero l = let e : i + 0 ≡ i = omega arith in rw e (sym at)
    places ids id r at (suc k) l =
        let e : i + suc k ≡ suc i + k = omega arith in rw e (r.place k (omega arith))

-- How many replicas a factor asks for among `n` brokers: one if it is not positive as a signed
-- number, and one for each broker if it is larger than `n`.
abbrev pub replica_count : ℕ → Int32 → ℕ
replica_count n rf = if rf == 0 || leb (2 ^ 31) rf then 1 else if leb n rf then n else rf

-- In a cluster that has brokers, at most 2 ^ 31 - 1 of them: a partition has as many replicas as
-- the replication factor says, at least one and at most one for each broker, and the first is the
-- node that leads the partition; neither call panics.
pub replicas_for-leader :
    (c : Cluster) (topic : Bytes) (p rf : Int32)
    → IsInt32 rf
    → 0 < length c.brokers
    → length c.brokers < 2 ^ 31
    → (ids : List Int32) × (replicas_for c topic p rf ≡ some ids)
      × (length ids ≡ replica_count (length c.brokers) rf)
      × (1 ≤ length ids)
      × (length ids ≤ length c.brokers)
      × (get_elem? ids 0 ≡ leader_for c topic p)
unfolding replicas_for leader_for start_of clamp
replicas_for-leader c topic p rf small some_brokers few =
    let n = length c.brokers in
    let start = (hash32 topic + p) % 2 ^ 32 % n in
    let many : (n == 0) ≡ false = ground arith in
    let r = clamp (to_i32 n) rf in
    let low : (1 ≤ r) × (r ≤ n) = ground arith in
    let (ids, e, ring) = ring-IsRing c start 0 r some_brokers in
    let below : start < n = mod-lt ((hash32 topic + p) % 2 ^ 32) some_brokers in
    let word : (start + (0 + 0)) % 2 ^ 32 ≡ start = omega arith in
    let same : (start + (0 + 0)) % 2 ^ 32 % n ≡ start = ap (λ x. x % n) word ∙ mod-eq_of_lt below in
    let exact : r ≡ replica_count n rf = ground arith in
    (
      ids,
      rw many e,
      ring.count ∙ exact,
      ground (arith, ring.count),
      ground (arith, ring.count),
      rw many (ring.place 0 low.0 ∙ ap (node_at c) same),
    )
