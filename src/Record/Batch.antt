-- ===== src/Record/Batch.antt =====
-- internal/record/batch.go: the batch header, and the two patches of it.
use Prim.Native.Nat.{bit_xor}
use mq.Common.{
  ℕ, zero, suc, ◌/◌, ◌%◌, ◌^◌, Option, none, some, [], ◌∷◌, ◌++◌, Bytes, Int8, Int32, Int64, length,
  take, drop, get_or, ltb, ◌==◌, if◌then◌else◌, be32, be64, put32, put64, add64, sext32, Result, ok,
  err,
}

abbrev pub header_size : ℕ
header_size = 61

pub data HeaderError : Type 0 where
  too_short bad_magic : HeaderError

pub record BatchHeader : Type 0 where
  pub base_offset : Int64
  pub batch_length : Int32
  pub last_offset_delta : Int32
  pub first_timestamp : Int64
  pub max_timestamp : Int64
  pub record_count : Int32
  pub magic : Int8

-- A Go int, so it is negative for a batch length below -12.
unfoldable pub total_size : BatchHeader → Int64
total_size h = add64 12 (sext32 h.batch_length)

unfoldable pub last_offset : BatchHeader → Int64
last_offset h = add64 h.base_offset (sext32 h.last_offset_delta)

unfoldable pub read_header : Bytes → BatchHeader
read_header b = record {
  base_offset = be64 (drop 0 b);
  batch_length = be32 (drop 8 b);
  last_offset_delta = be32 (drop 23 b);
  first_timestamp = be64 (drop 27 b);
  max_timestamp = be64 (drop 35 b);
  record_count = be32 (drop 57 b);
  magic = get_or b 16 0;
}

-- No caller reads the header that comes with ErrBadMagic.
unfoldable pub parse_header : Bytes → Result HeaderError BatchHeader
parse_header b =
    if ltb (length b) header_size
    then err too_short
    else if (read_header b).magic == 2
    then ok (read_header b)
    else err bad_magic

-- `none` is the panic on a slice that is too short.
unfoldable pub set_base_offset : Bytes → Int64 → Option Bytes
set_base_offset b off = if ltb (length b) 8 then none else some (put64 off ++ drop 8 b)

-- hash/crc32 with the Castagnoli polynomial, a bit at a time.
crc_bits : ℕ → ℕ → ℕ
crc_bits zero crc = crc
crc_bits (suc n) crc = crc_bits n (if crc % 2 == 1 then bit_xor (crc / 2) 0x82f6_3b78 else crc / 2)

crc_bytes : ℕ → Bytes → ℕ
crc_bytes crc [] = crc
crc_bytes crc (b ∷ bs) = crc_bytes (crc_bits 8 (bit_xor crc b)) bs

unfoldable pub checksum : Bytes → ℕ
unfolding crc_bytes crc_bits
checksum b = bit_xor (crc_bytes 0xffff_ffff b) 0xffff_ffff % 2 ^ 32

-- Over b[21:], into b[17:21]; `none` is the panic of b[21:].
unfoldable pub recompute_crc : Bytes → Option Bytes
recompute_crc b =
    if ltb (length b) 21
    then none
    else some (take 17 b ++ put32 (checksum (drop 21 b)) ++ drop 21 b)

-- The two patches, as Append makes them.
unfoldable pub assign_offset : Bytes → Int64 → Option Bytes
assign_offset b off = elim (set_base_offset b off) [ none ↦ none | some c ↦ recompute_crc c ]
