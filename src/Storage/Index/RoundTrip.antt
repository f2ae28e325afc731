-- ===== src/Storage/Index/RoundTrip.antt =====
-- internal/storage/index.go: what rewriteIndex writes, openSegment decodes.
use mq.Common.{
  ◌*◌, ◌/◌, ◌≡◌, refl, List, [], ◌∷◌, ◌++◌, IsInt32, arith, length, flatten, map, All,
  length-append, length-put32, be32-put32, put32,
}
use mq.Storage.Index.{IndexEntry, encode_index_entry, decode_entries, decode_index_entries}

abbrev pub FitsEntry : IndexEntry → Type 0
FitsEntry e = IsInt32 e.rel_offset × IsInt32 e.position

length-encode :
    (es : List IndexEntry) → length (flatten (map encode_index_entry es)) ≡ 8 * length es
unfolding encode_index_entry
length-encode [] = omega arith
length-encode (e ∷ es) = omega (
  arith,
  length-encode es,
  length-append (put32 e.rel_offset ++ put32 e.position) (flatten (map encode_index_entry es)),
  length-append (put32 e.rel_offset) (put32 e.position),
  length-put32 e.rel_offset,
  length-put32 e.position,
)

decode-encode :
    (es : List IndexEntry)
    → All FitsEntry es
    → decode_entries (length es) (flatten (map encode_index_entry es)) ≡ es
unfolding decode_entries encode_index_entry put32
decode-encode [] h = refl
decode-encode (e ∷ es) h =
    ground (arith, be32-put32 e.rel_offset [], be32-put32 e.position [], decode-encode es h.1)

-- The index that rewriteIndex writes, for entries of 32 bits, is the index that openSegment loads.
pub decode_index_entries-encode :
    (es : List IndexEntry)
    → All FitsEntry es
    → decode_index_entries (flatten (map encode_index_entry es)) ≡ es
unfolding decode_index_entries
decode_index_entries-encode es h =
    let n : length (flatten (map encode_index_entry es)) / 8 ≡ length es =
      omega (arith, length-encode es) in
    rw n (decode-encode es h)
