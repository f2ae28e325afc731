-- ===== src/Storage/Index.antt =====
-- internal/storage/index.go: the sparse index of a segment.
pub mod Floor
pub mod RoundTrip
use mq.Common.{
  ℕ, zero, suc, ◌+◌, ◌-◌, ◌/◌, Bool, true, false, List, [], ◌∷◌, ◌++◌, Bytes, Int32, length, drop,
  get_or, ltb, le_i32, if◌then◌else◌, be32, put32,
}

pub record IndexEntry : Type 0 where
  pub rel_offset : Int32
  pub position : Int32

unfoldable pub encode_index_entry : IndexEntry → Bytes
encode_index_entry e = put32 e.rel_offset ++ put32 e.position

unfoldable pub decode_entries : ℕ → Bytes → List IndexEntry
decode_entries zero b = []
decode_entries (suc n) b =
    record { rel_offset = be32 b; position = be32 (drop 4 b) } ∷ decode_entries n (drop 8 b)

-- A trailing fragment of less than eight bytes is dropped.
unfoldable pub decode_index_entries : Bytes → List IndexEntry
decode_index_entries b = decode_entries (length b / 8) b

abbrev pub no_entry : IndexEntry
no_entry = record { rel_offset = 0; position = 0 }

-- The loop's `hi` may be -1, so `above` stands for `hi + 1`.
unfoldable pub floor_loop : ℕ → List IndexEntry → Int32 → ℕ → ℕ → Int32 → Int32
floor_loop zero index target lo above pos = pos
floor_loop (suc fuel) index target lo above pos =
    let mid = (lo + above - 1) / 2 in
    let entry = get_or index mid no_entry in
    let fits = le_i32 entry.rel_offset target in
    let rest =
      floor_loop fuel index target (if fits then mid + 1 else lo) (if fits then above else mid)
        (if fits then entry.position else pos) in
    if ltb lo above then rest else pos

unfoldable pub floor_position : List IndexEntry → Int32 → Int32
floor_position index target = floor_loop (suc (length index)) index target 0 (length index) 0
