-- ===== src/Group/Offsets.antt =====
-- internal/group/offsets.go: the committed offsets, in a cache and in a file for each partition.
-- A file is named by its group and its file name; whether a write succeeds is an argument.
pub mod Commits
use mq.Common.{
  ℕ, zero, suc, ◌+◌, ◌^◌, ◌%◌, Bool, true, false, Option, none, some, List, [], ◌∷◌, ◌++◌, Bytes,
  Int32, Int64, length, take, drop, ltb, be32, be64, put32, put64, minus_one64, if◌then◌else◌,
}
use mq.Common.Keys.{Map, lookup, insert, bytes_eq, nat_eq, pair_eq}
use mq.Decimal.{itoa}

-- group, topic, partition
abbrev pub OffsetKey : Type 0
OffsetKey = (Bytes × Bytes) × Int32

pub record Committed : Type 0 where
  pub offset : Int64
  pub metadata : Bytes

pub record OffsetStore : Type 0 where
  pub cache : Map OffsetKey Committed
  pub files : Map (Bytes × Bytes) Bytes

unfoldable pub encode_commit : Int64 → Bytes → Bytes
encode_commit offset metadata = put64 offset ++ (put32 (length metadata % 2 ^ 32) ++ metadata)

unfoldable pub decode_commit : Bytes → Option (Int64 × Bytes)
decode_commit b =
    let mlen = be32 (drop 8 b) in
    if ltb (length b) 12
    then none
    else if ltb (length b) (12 + mlen)
    then some (be64 b, [])
    else some (be64 b, take mlen (drop 12 b))

abbrev pub file_name : Bytes → Int32 → Bytes
file_name topic p = topic ++ (45 ∷ itoa p)

-- Commit: `writes` is whether the directory and the file are written. The file is replaced as a
-- whole, by a rename.
unfoldable pub commit :
    Bool → OffsetStore → Bytes → Bytes → Int32 → Int64 → Bytes → Bool × OffsetStore
commit false s group topic p offset metadata = (false, s)
commit true s group topic p offset metadata = (
  true,
  record {
    cache = insert ((group, topic), p) (record { offset = offset; metadata = metadata }) s.cache;
    files = insert (group, file_name topic p) (encode_commit offset metadata) s.files;
  },
)

abbrev pub answer_of : Option Committed → Int64 × Bytes × Bool
answer_of none = (minus_one64, [], false)
answer_of (some c) = (c.offset, c.metadata, true)

unfoldable pub fetch : OffsetStore → Bytes → Bytes → Int32 → Int64 × Bytes × Bool
fetch s group topic p = answer_of (lookup ((group, topic), p) s.cache)

-- ListCommitted
abbrev pub list_committed : OffsetStore → List (OffsetKey × Int64)
list_committed s = offsets s.cache
  where
    offsets : Map OffsetKey Committed → List (OffsetKey × Int64)
    offsets [] = []
    offsets ((k, c) ∷ rest) = (k, c.offset) ∷ offsets rest
