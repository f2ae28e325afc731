-- ===== src/Cluster.antt =====
-- internal/cluster/cluster.go: the members and the placement that every broker computes alike.
pub mod Places
use Prim.Native.Nat.{bit_xor}
use mq.Common.{
  ℕ, zero, suc, ◌+◌, ◌*◌, ◌%◌, ◌/◌, ◌^◌, ◌==◌, Bool, true, false, Option, none, some, List, [], ◌∷◌,
  Bytes, Int32, length, get_elem?, lt_i32, to_i32, if◌then◌else◌,
}

pub record BrokerInfo : Type 0 where
  pub node_id : Int32
  pub host : Bytes
  pub port : Int32

-- The brokers are in the order of their ids.
pub record Cluster : Type 0 where
  pub self : Int32
  pub brokers : List BrokerInfo

abbrev pub single : Int32 → Bytes → Int32 → Cluster
single node_id host port = record {
  self = node_id;
  brokers = (record { node_id = node_id; host = host; port = port }) ∷ [];
}

unfoldable pub find_broker : List BrokerInfo → Int32 → Option BrokerInfo
find_broker [] id = none
find_broker (b ∷ bs) id = let rest = find_broker bs id in if b.node_id == id then some b else rest

abbrev pub broker : Cluster → Int32 → Option BrokerInfo
broker c id = find_broker c.brokers id

-- FNV-1a: each byte is xored in, then the hash is multiplied by the prime.
unfoldable pub fnv : ℕ → Bytes → ℕ
fnv h [] = h
fnv h (b ∷ bs) = fnv (bit_xor h b * 16_777_619 % 2 ^ 32) bs

unfoldable pub hash32 : Bytes → ℕ
hash32 s = fnv 2_166_136_261 s

abbrev node_of : Option BrokerInfo → Option Int32
node_of none = none
node_of (some b) = some b.node_id

-- c.brokers[i].NodeID
unfoldable pub node_at : Cluster → ℕ → Option Int32
node_at c i = node_of (get_elem? c.brokers i)

-- The index that the hash picks, or `none`, the panic of a remainder by zero.
unfoldable pub start_of : Cluster → ℕ → Option ℕ
start_of c h = if length c.brokers == 0 then none else some (h % 2 ^ 32 % length c.brokers)

abbrev node_from : Cluster → Option ℕ → Option Int32
node_from c none = none
node_from c (some i) = node_at c i

unfoldable pub leader_for : Cluster → Bytes → Int32 → Option Int32
leader_for c topic p = node_from c (start_of c (hash32 topic + p))

abbrev is_self : Cluster → Option Int32 → Option Bool
is_self c none = none
is_self c (some id) = some (id == c.self)

abbrev pub is_leader : Cluster → Bytes → Int32 → Option Bool
is_leader c topic p = is_self c (leader_for c topic p)

unfoldable pub group_coordinator : Cluster → Bytes → Option Int32
group_coordinator c group_id = node_from c (start_of c (hash32 group_id))

abbrev pub is_coordinator : Cluster → Bytes → Option Bool
is_coordinator c group_id = is_self c (group_coordinator c group_id)

-- The replication factor within [1, n].
unfoldable pub clamp : Int32 → Int32 → Int32
clamp n rf = let least = if lt_i32 rf 1 then 1 else rf in if lt_i32 n least then n else least

abbrev cons_id : Option Int32 → Option (List Int32) → Option (List Int32)
cons_id none ids = none
cons_id (some id) none = none
cons_id (some id) (some ids) = some (id ∷ ids)

-- The nodes from `start + i` on, around the ring.
unfoldable pub ring : Cluster → ℕ → ℕ → ℕ → Option (List Int32)
ring c start i zero = some []
ring c start i (suc n) =
    let rest = ring c start (suc i) n in
    cons_id (node_at c ((start + i) % 2 ^ 32 % length c.brokers)) rest

abbrev ring_from : Cluster → Int32 → Option ℕ → Option (List Int32)
ring_from c rf none = none
ring_from c rf (some start) = ring c start 0 rf

unfoldable pub replicas_for : Cluster → Bytes → Int32 → Int32 → Option (List Int32)
replicas_for c topic p rf =
    ring_from c (clamp (to_i32 (length c.brokers)) rf) (start_of c (hash32 topic + p))
