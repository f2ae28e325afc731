-- ===== src/Group/Offsets/Commits.antt =====
-- internal/group/offsets.go: a committed offset is what a fetch answers, and what the file decodes to.
use mq.Common.{
  ◌+◌, ◌%◌, ◌^◌, ◌<◌, ◌==◌, ◌≡◌, refl, ap, ◌∙◌, Bool, true, false, ◌&&◌, some, ◌++◌, Bytes, Int32,
  Int64, IsInt64, length, drop, be32, put32, put64, be32-put32, be64-put64, length-put32,
  length-put64, length-append, take-all, if◌then◌else◌, arith,
}
use mq.Common.Keys.{bytes_eq, nat_eq, pair_eq, bytes_beq, lookup-insert}
use mq.Group.Offsets.{OffsetStore, encode_commit, decode_commit, commit, fetch}

-- What Commit writes to a file, decodeCommit reads back, for metadata shorter than 2 ^ 32 bytes.
pub decode_commit-encode_commit :
    (offset : Int64) (metadata : Bytes)
    → IsInt64 offset
    → length metadata < 2 ^ 32
    → decode_commit (encode_commit offset metadata) ≡ some (offset, metadata)
unfolding decode_commit encode_commit put64 put32
decode_commit-encode_commit offset metadata ho hm =
    let n = length metadata % 2 ^ 32 in
    let tail = put32 n ++ metadata in
    let b = put64 offset ++ tail in
    let d8 : drop 8 b ≡ tail = refl in
    let size : length b ≡ 12 + length metadata = omega (
      arith,
      length-append (put64 offset) tail,
      length-append (put32 n) metadata,
      length-put32 n,
      length-put64 offset,
    ) in
    let m : be32 (drop 8 b) ≡ length metadata =
      ap be32 d8 ∙ be32-put32 n metadata (omega arith) ∙ omega arith in
    let d12 : drop 12 b ≡ metadata = refl in
    let o = be64-put64 offset tail ho in rw (m, size, d12, o) (ground (arith, take-all metadata))

-- Fetch answers what was committed last for its group, topic and partition; a commit for another
-- key or one that could not be written changes no answer.
pub fetch-commit :
    (writes : Bool) (s : OffsetStore) (group topic : Bytes) (p : Int32) (offset : Int64)
    (metadata group' topic' : Bytes) (p' : Int32)
    → fetch (commit writes s group topic p offset metadata).1 group' topic' p' ≡ (
        if writes && ((bytes_beq group group' && bytes_beq topic topic') && (p == p'))
        then (offset, metadata, true)
        else fetch s group' topic' p')
unfolding fetch commit
fetch-commit false s group topic p offset metadata group' topic' p' = refl
fetch-commit true s group topic p offset metadata group' topic' p' = ground (
  arith,
  lookup-insert ((group, topic), p) ((group', topic'), p')
      (record { offset = offset; metadata = metadata }) s.cache,
)
