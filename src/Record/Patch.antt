-- ===== src/Record/Patch.antt =====
-- internal/record/batch.go (SetBaseOffset, RecomputeCRC), as Append calls them on a whole batch.
use mq.Common.{
  ◌^◌, ◌≤◌, ◌<◌, ◌≡◌, refl, ap, ◌∙◌, get_or, some, [], ◌∷◌, ◌++◌, Bytes, Int64, IsInt64, arith,
  length, take, drop, be32, be32-put32, be64-put64, put32, put64,
}
use mq.Record.Batch.{
  BatchHeader, read_header, set_base_offset, recompute_crc, assign_offset, checksum,
}
use mq.Record.WellFormed.{IsBatch}

-- The new offset, the bytes up to the checksum, the checksum and the bytes that it covers.
unfoldable pub patched : Bytes → Int64 → Bytes
patched b off = put64 off ++ (take 9 (drop 8 b) ++ (put32 (checksum (drop 21 b)) ++ drop 21 b))

pub assign_offset-patched :
    (b : Bytes) (off : Int64) → 61 ≤ length b → assign_offset b off ≡ some (patched b off)
unfolding assign_offset set_base_offset recompute_crc patched put64 put32
assign_offset-patched
      (x0 ∷ x1 ∷ x2 ∷ x3 ∷ x4 ∷ x5 ∷ x6 ∷ x7 ∷ x8 ∷ x9 ∷ x10 ∷ x11 ∷ x12 ∷ x13 ∷ x14 ∷ x15 ∷ x16
        ∷ x17 ∷ x18 ∷ x19 ∷ x20 ∷ b)
      off h =
    ground arith
assign_offset-patched _ off h = absurd (omega arith)

checksum-lt : (b : Bytes) → checksum b < 2 ^ 32
unfolding checksum
checksum-lt b = omega arith

header_of_patched :
    (b : Bytes) (off : Int64)
    → 21 ≤ length b
    → IsInt64 off
    → read_header (patched b off) ≡ record (read_header b) { base_offset = off }
unfolding patched read_header put64 put32
header_of_patched
      (x0 ∷ x1 ∷ x2 ∷ x3 ∷ x4 ∷ x5 ∷ x6 ∷ x7 ∷ x8 ∷ x9 ∷ x10 ∷ x11 ∷ x12 ∷ x13 ∷ x14 ∷ x15 ∷ x16
        ∷ x17 ∷ x18 ∷ x19 ∷ x20 ∷ b)
      off h w =
    ground (arith, be64-put64 off [] w)
header_of_patched _ off h w = absurd (omega arith)

crc_of_patched :
    (b : Bytes) (off : Int64)
    → 21 ≤ length b
    → (be32 (drop 17 (patched b off)) ≡ checksum (drop 21 (patched b off)))
      × (drop 21 (patched b off) ≡ drop 21 b)
      × (length (patched b off) ≡ length b)
unfolding patched put64 put32
crc_of_patched
      (x0 ∷ x1 ∷ x2 ∷ x3 ∷ x4 ∷ x5 ∷ x6 ∷ x7 ∷ x8 ∷ x9 ∷ x10 ∷ x11 ∷ x12 ∷ x13 ∷ x14 ∷ x15 ∷ x16
        ∷ x17 ∷ x18 ∷ x19 ∷ x20 ∷ b)
      off h =
    let e = be32-put32 (checksum b) b (checksum-lt b) in (unfold put32 in e, refl, omega arith)
crc_of_patched _ off h = absurd (omega arith)

-- A batch that Append took and gave the offset `off`: it is whole, its checksum field is the
-- checksum of what the checksum covers, and only the base offset and the checksum are new.
pub record IsAssigned (b : Bytes) (off : Int64) (c : Bytes) : Type 0 where
  pub batch : IsBatch c
  pub header : read_header c ≡ record (read_header b) { base_offset = off }
  pub crc : be32 (drop 17 c) ≡ checksum (drop 21 c)
  pub body : drop 21 c ≡ drop 21 b
  pub size : length c ≡ length b

patched-IsBatch : (b : Bytes) (off : Int64) → IsBatch b → IsInt64 off → IsBatch (patched b off)
unfolding read_header
patched-IsBatch b off h w =
    let e = header_of_patched b off (omega (arith, h.long)) w in
    let n = (crc_of_patched b off (omega (arith, h.long))).2 in
    let l : be32 (drop 8 (patched b off)) ≡ be32 (drop 8 b) =
      ap (λ (r : BatchHeader). r.batch_length) e in
    let m : get_or (patched b off) 16 0 ≡ get_or b 16 0 = ap (λ (r : BatchHeader). r.magic) e in
    record {
      long = omega (arith, h.long);
      sized = omega (arith, h.sized);
      small = omega (arith, h.small);
      magic = m ∙ h.magic;
    }

-- SetBaseOffset and RecomputeCRC on a whole batch and a 64-bit offset do not panic, and the result
-- is a whole batch of the same size with that base offset, every other header field and all bytes
-- from the attributes on unchanged, and a checksum that matches.
pub assign_offset-IsAssigned :
    (b : Bytes) (off : Int64)
    → IsBatch b
    → IsInt64 off
    → (assign_offset b off ≡ some (patched b off)) × IsAssigned b off (patched b off)
assign_offset-IsAssigned b off h w =
    let (crc, body, size) = crc_of_patched b off (omega (arith, h.long)) in
    (
      assign_offset-patched b off h.long,
      record {
        batch = patched-IsBatch b off h w;
        header = header_of_patched b off (omega (arith, h.long)) w;
        crc = crc;
        body = body;
        size = size;
      },
    )
